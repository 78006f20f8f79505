-- ===== src/Lib.antt =====
-- A model of the engine that replays NASDAQ TotalView-ITCH 5.0 into limit order books, and of the
-- execution algorithms that run beside it.
--
-- The parts and how they interact. The framing of include/io/gzip_source.hpp and `parse_stream` of
-- include/itch/parser.hpp cut a stream of bytes into messages and call a handler for each; the
-- handler of a replay calls the mutators of a book of include/book/, of which there are two:
-- `OrderBook` over ordered maps, and `LadderBook` over flat arrays of prices. The strategies of
-- include/exec/ see quotes and prints, and push child orders into bounded queues; `apply` passes a
-- queue through `RiskGate`; and `FillSimulator` turns child orders into fills.
--
-- Base.antt passes on the names of the standard library that all files use, and has the Boolean
-- tests (Base/Tests), the list lemmas (Base/Lists) and those of take and drop (Base/Slices).
--
-- Itch: the wire format. Itch/Wire has the big-endian integers of both directions (`be16` reads,
-- `put_be16` writes), Itch/Messages the structs of include/itch/messages.hpp and one constructor of
-- `Call` for each callback of a handler, Itch/Dispatch `dispatch` of include/itch/parser.hpp, and
-- Itch/Encode the encoders of include/itch/encode.hpp. Itch/Stream is `parse_stream`, and
-- `frame_boundary` and the loop of `GzipSource::run` of include/io/gzip_source.hpp. A byte is a
-- natural number below 256. A handler is a function of a call and a state, so that all results hold
-- for any handler. The loops run on the number of bytes as fuel, which suffices since each round
-- takes at least three of them. zlib and the file are not modelled: the sequence of chunks that
-- inflate produces is an argument, and `none` stands for the exception on a partial frame at the
-- end.
--
-- Book: include/book/. Book/Types has the sides and the plain structs. Book/Locator is the hash map
-- from order references to orders, a list of pairs with one entry for each key, and what the orders
-- in it add up to at a price. Book/Reference is the specification of a book: nothing but the open
-- orders, what each event does to them, and what a best quote of them is. Book/OrderBook is
-- order_book.hpp; its maps are the sorted lists of Book/Ladder. Book/LadderBook is ladder_book.hpp;
-- Book/Half is one side of it: its array of levels, its count of occupied levels and its best
-- index. The children of both prove an invariant (Invariant) and a refinement of the reference
-- (Refine); Book/Agreement compares the two. All quantities are natural numbers; the 64- and 32-bit
-- sums of a level do not wrap while there are fewer than 2^32 orders of uint32_t shares, and this
-- bound is a hypothesis where it is needed. The window of a price, (uint64_t)((double)price *
-- window_pct), is floating point, so it is a parameter, of which the theorems use that it is at
-- most the price.
--
-- Exec: include/exec/. Exec/Types is types.hpp, a queue as the list of the orders in it;
-- Exec/RiskGate is risk_gate.hpp, Exec/Twap twap.hpp, Exec/AlmgrenChriss almgren_chriss.hpp,
-- Exec/Pov pov.hpp, Exec/Vwap vwap.hpp and the table of volume_curve.hpp, and Exec/FillSim
-- fill_sim.hpp. Their machine integers are written with the wrap that they have. The loop of
-- `Twap::advance` has the number of bins left as fuel, and moves on by one bin in each round. A
-- constructor that throws is a function that returns `none`. The entries of the volume curve below
-- the last, and the shares of a bin of an Almgren-Chriss schedule before they are adjusted, are
-- computed in floating point, and are parameters.
--
-- Pipeline: include/pipeline/. Pipeline/BookTable is book_table.hpp, and Pipeline/BookBuilder the
-- handler `BookBuilder` of dispatch_to_book.hpp, for any type of books that has the operations of
-- the record `BookOps`; Pipeline/LadderTraits is the making of ladder books of the same file.
-- Pipeline/Spsc is spsc_queue.hpp; its child Window follows the entries by counters that do not
-- wrap, and Refine compares it with a bounded queue. Pipeline/Envelope is message.hpp, the
-- callbacks of `QueueProducer` of threaded_replay.hpp, and `dispatch_to_book`; undefined behaviour,
-- the read of an inactive member of the union, is `none`. Its child Corrupt is about corrupt
-- frames. Pipeline/Threads is `push_spin`, `consume` and `run_pipeline` of threaded_replay.hpp as a
-- relation: each step is one access of one thread to the shared indices, slots and flag, with what
-- the thread does until its next one, so a sequence of steps is an interleaving. The orders of
-- memory that the code asks for make what it reads sequentially consistent. Of its children,
-- Stations and Invariant are what holds between the threads, Outcome what has happened once the
-- consumer is at its end, Progress and Finish the steps that end them, and Replay puts the book
-- builder behind the queue. Pipeline/Snapshot is book_snapshot.hpp, `for_each` of book_table.hpp,
-- and `PublishingHandler` and `run` of src/replay_query_main.cpp.
--
-- Net: include/net/. Net/Moldudp64 is moldudp64.hpp, Net/Receiver `MoldUdp64Receiver` of
-- multicast_receiver.hpp, Net/Sender `MoldUdp64Sender` of multicast_test_sender.hpp, and Net/Query
-- the wire format, `handle_line` and the lines of `handle_connection` of query_server.hpp. What a
-- socket delivers is an argument: the datagram of each poll, and for each request for a gap the
-- replies up to its deadline. The loop of `resolve_gaps` runs on its number of attempts, that of
-- `drain` on the packets it drains, and that of a connection on the bytes that have arrived, of
-- which each line takes one. The children of Net/Receiver are the map of pending packets (Ordered),
-- a session whose sender packs one message into each packet (Session), the invariant that the
-- receiver keeps in it (Delivery, Drain), what follows from it (InOrder, Complete), and a pending
-- packet that has been passed (Blocked); of the children of Net/Sender, Honest is about the
-- datagrams of the sender as the receiver gets them, and Packets about what is read from those of
-- the data channel. The three accesses of a query to the store are three states of it, since each
-- takes the lock anew.
--
-- Not modelled: the trajectory of almgren_chriss.hpp, which is floating point, mmap_source.hpp,
-- thread_affinity.hpp, sockets and their set-up, the threads and timeouts of the query server, the
-- benchmarks and programs but for the publishing replay, the maximal occupancy of the queue, and
-- the floating-point statistics of the fill simulator.
--
-- The witnesses, each theorem at one concrete input, stand in Itch/Tests, Book/Tests,
-- Pipeline/Tests, Net/Tests, Exec/Tests and Exec/AlmgrenChriss/Tests.
pub mod Base
pub mod Itch
pub mod Book
pub mod Exec
pub mod Pipeline
pub mod Net

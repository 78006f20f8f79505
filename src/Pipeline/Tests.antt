-- ===== src/Pipeline/Tests.antt =====
-- A table of two books, over the ordered-map book.
use itch_lob_engine.Base.{
  ◌≡◌, ◌∷◌, ◌==◌, if◌then◌else◌, ℕ, List, [], ◌*◌, ◌/◌, ◌≤◌, some, arith, ◌++◌, refl, true, Option,
  map, length,
}
use itch_lob_engine.Book.Types.{buy, sell}
use itch_lob_engine.Book.OrderBook
use itch_lob_engine.Book.OrderBook.{OrderBook, empty_book}
use itch_lob_engine.Itch.Messages.{Call, on_add, on_execute, on_delete, Header}
use itch_lob_engine.Book.LadderBook.{LadderBook}
use itch_lob_engine.Book.LadderBook.Invariant.{IsValid}
use itch_lob_engine.Book.LadderBook.Growth.{IsFraction}
use itch_lob_engine.Pipeline.LadderTraits.{make_ladder, sane_base, make_ladder-IsValid}
use itch_lob_engine.Pipeline.BookTable.{find}
use itch_lob_engine.Pipeline.Spsc.{new_ring, size}
use itch_lob_engine.Pipeline.Spsc.Refine.{Op, pushes, pops, calls, all_bounded, calls-bounded}
use itch_lob_engine.Pipeline.Envelope.{Envelope, envelope}
use itch_lob_engine.Pipeline.BookTable.{find}
use itch_lob_engine.Pipeline.Threads.{
  System, Reach, here, later, ended, finished, admitted, writes, publishes, ends, finds_none,
  drained, finds_some, reads, frees, sees_done, yields,
}
use itch_lob_engine.Pipeline.Threads.Replay.{
  blank_envelope, replay, pipeline, pipeline-handle_all, pipeline_finishes,
}
use itch_lob_engine.Pipeline.Snapshot.{BookQueries, PublishingHandler, run, snapshot_book_table}
use itch_lob_engine.Pipeline.Snapshot.Publishing.{run-serves}
use itch_lob_engine.Pipeline.BookBuilder.{BookOps, BookBuilder, empty_builder}
use itch_lob_engine.Pipeline.BookBuilder.Routing.{handle_all, own_all, handle_all-own}

abbrev map_ops : BookOps OrderBook
map_ops = record {
  make = λ hint. empty_book;
  add = λ ref side shares price b.
      OrderBook.add ref (if side == 66 then buy else sell) shares price b;
  execute = OrderBook.execute;
  cancel = OrderBook.cancel;
  remove = OrderBook.remove;
  replace = OrderBook.replace;
}

abbrev at : ℕ → Header
at locate = record { locate = locate; timestamp = 0 }

abbrev calls_made : List Call
calls_made =
    on_add (record { hdr = at 2; ref = 1; side = 66; shares = 10; stock = []; price = 1000 })
    ∷ on_add (record { hdr = at 5; ref = 2; side = 83; shares = 20; stock = []; price = 1100 })
    ∷ on_execute (record { hdr = at 2; ref = 1; shares = 4; match = 9 })
    ∷ on_delete (record { hdr = at 2; ref = 2 })
    ∷ []

handle_all-own_example :
    find 2 (handle_all map_ops calls_made empty_builder).books
    ≡ own_all map_ops 2 calls_made (find 2 (empty_builder {B = OrderBook}).books)
handle_all-own_example = handle_all-own map_ops 2 calls_made empty_builder

abbrev thirty_percent : ℕ → ℕ
thirty_percent p = p * 3 / 10

thirty_percent-IsFraction : IsFraction thirty_percent
thirty_percent-IsFraction p = omega arith

-- A hint that no stock has.
make_ladder-IsValid_example :
    (b : LadderBook) × (make_ladder thirty_percent 4_000_000_000 ≡ some b)
    × IsValid b
    × (b.orders ≡ [])
    × (b.min_price ≤ sane_base 4_000_000_000)
    × (sane_base 4_000_000_000 ≤ b.max_price)
make_ladder-IsValid_example =
    make_ladder-IsValid thirty_percent thirty_percent-IsFraction 4_000_000_000

-- One slot: the second push is refused.
calls-bounded_example :
    let os : List (Op ℕ) = pushes 1 ∷ pushes 2 ∷ pops ∷ [] in
    ((calls os (new_ring 2 0)).0 ≡ (all_bounded 1 os []).0)
    × (size (calls os (new_ring 2 0)).1 ≡ length (all_bounded 1 os []).1)
calls-bounded_example = calls-bounded (pushes 1 ∷ pushes 2 ∷ pops ∷ []) 1 0

abbrev one_call : List Call
one_call =
    on_add (record { hdr = at 2; ref = 1; side = 66; shares = 10; stock = []; price = 1000 }) ∷ []

-- The consumer looks first, and finds nothing; then both threads take turns.
abbrev ended_run : System Envelope (Option (BookBuilder OrderBook))
ended_run = record {
  ring = record {
    capacity = 2;
    blank = blank_envelope;
    buf = map envelope one_call ++ blank_envelope ∷ [];
    head = 1;
    tail = 1;
  };
  todo = [];
  producer = ended;
  done = true;
  consumer = finished;
  result =
      replay map_ops
        (envelope (
          on_add
            (record { hdr = at 2; ref = 1; side = 66; shares = 10; stock = []; price = 1000 })))
        (some empty_builder);
  frames = 1;
}

run_once : Reach (replay map_ops) (pipeline map_ops 2 one_call) ended_run
run_once =
    later
      (later
        (later
          (later
            (later
              (later
                (later
                  (later
                    (later
                      (later (later (later here (finds_none refl refl)) (admitted refl refl refl))
                        (writes refl refl))
                      (yields refl refl))
                    (publishes refl refl))
                  (finds_some refl refl))
                (reads refl))
              (frees refl))
            (finds_none refl refl))
          (ends refl refl))
        (sees_done refl refl))
      (drained refl refl)

pipeline-handle_all_example :
    (ended_run.result ≡ some (handle_all map_ops one_call empty_builder)) × (ended_run.frames ≡ 1)
pipeline-handle_all_example =
    pipeline-handle_all map_ops 2 one_call (omega arith) (tt, tt) run_once refl

-- From the start.
pipeline_finishes_example :
    (t : System Envelope (Option (BookBuilder OrderBook))) × Reach
      (replay map_ops)
      (pipeline map_ops 2 one_call)
      t
    × (t.producer ≡ ended)
    × (t.consumer ≡ finished)
    × (t.result ≡ some (handle_all map_ops one_call empty_builder))
    × (t.frames ≡ 1)
pipeline_finishes_example = pipeline_finishes map_ops 2 one_call (omega arith) (tt, tt) here

abbrev corrupt_type : ℕ
corrupt_type = b'F'

abbrev add_type : ℕ
add_type = b'A'

abbrev map_queries : BookQueries OrderBook
map_queries = record {
  best_bid = OrderBook.best_bid;
  best_ask = OrderBook.best_ask;
  open_orders = OrderBook.open_orders;
  bid_levels = OrderBook.bid_levels;
  ask_levels = OrderBook.ask_levels;
}

run-serves_example :
    let p : PublishingHandler OrderBook = run map_ops map_queries 2 calls_made in
    let h : BookBuilder OrderBook = handle_all map_ops calls_made empty_builder in
    (p.inner ≡ h)
    × (p.store.snapshots ≡ snapshot_book_table map_queries h.books)
    × (p.store.unknown_refs ≡ h.unknown_refs)
run-serves_example = run-serves map_ops map_queries 2 calls_made

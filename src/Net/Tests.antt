-- ===== src/Net/Tests.antt =====
-- A session of two messages, and the requests of a client.
use itch_lob_engine.Base.{
  ◌^◌, ◌%◌, ◌-◌, ◌≤◌, ◌≡◌, ◌∷◌, ◌++◌, ◌==◌, ℕ, zero, suc, refl, false, Option, none, some, List, [],
  arith, take, true, map,
}
use itch_lob_engine.Itch.Wire.{Bytes}
use itch_lob_engine.Itch.Messages.{Call}
use itch_lob_engine.Itch.Encode.{frame, stream, del}
use itch_lob_engine.Itch.Encode.RoundTrip.{Message, deletes, encode}
use itch_lob_engine.Itch.Dispatch.{dispatch}
use itch_lob_engine.Itch.Stream.{parse_stream}
use itch_lob_engine.Itch.Stream.RoundTrip.{AllFit, encode_all, handle_all}
use itch_lob_engine.Pipeline.Snapshot.{empty_store, find_snapshot}
use itch_lob_engine.Net.Moldudp64
use itch_lob_engine.Net.Moldudp64.{Header, decode, same_session, decode-encode}
use itch_lob_engine.Net.Receiver.{Receiver, Reply, new_receiver, polls}
use itch_lob_engine.Net.Receiver.Blocked.{stale_front, polls-blocked}
use itch_lob_engine.Net.Receiver.Delivery.{AllHonest}
use itch_lob_engine.Net.Receiver.InOrder.{polls-in_order}
use itch_lob_engine.Net.Receiver.Complete.{Arrives, now, later, polls_complete}
use itch_lob_engine.Net.Sender.{packet, load, send_all}
use itch_lob_engine.Net.Sender.Honest.{packet-Honest}
use itch_lob_engine.Net.Sender.Packets.{read, data_packet, last_packet, send_all-load}
use itch_lob_engine.Net.Query.{on_recv, handle_line, codes, quote_json, error_json_locate}
use itch_lob_engine.Net.Query.Lines.{on_recv-lines}
use itch_lob_engine.Net.Query.Answers.{quote_request, handle_line-quote}

abbrev session : Bytes
session = codes "SESSION001"

-- The header of a packet, with three bytes behind it.
decode-encode_example :
    decode
      (Moldudp64.encode [] (record { session = session; seq = 258; count = 1 }) ++ 1 ∷ 2 ∷ 3 ∷ [])
    ≡ record { session = session; seq = 258; count = 1 }
decode-encode_example =
    decode-encode (record { session = session; seq = 258; count = 1 }) (1 ∷ 2 ∷ 3 ∷ []) refl
      (omega arith) (omega arith)

abbrev first_one : Message
first_one = deletes 7 34_200_000_000_000 501

abbrev second_one : Message
second_one = deletes 7 34_200_000_000_001 502

abbrev messages : List Message
messages = first_one ∷ second_one ∷ []

messages-Fit : AllFit messages
messages-Fit =
    ((omega arith, omega arith, omega arith), ((omega arith, omega arith, omega arith), tt))

abbrev collect : Call → List Call → List Call
collect c cs = c ∷ cs

abbrev packet_of : ℕ → Message → Bytes
packet_of seq m = packet session seq 1 (frame (encode m))

-- The second packet, the first one, and the second one again.
abbrev swapped : List (Option Bytes × List (List Reply))
swapped =
    (some (packet_of 2 second_one), [])
    ∷ (none, [])
    ∷ (some (packet_of 1 first_one), [])
    ∷ (some (packet_of 2 second_one), [])
    ∷ []

swapped-Honest : AllHonest messages session swapped
swapped-Honest =
    let one =
      packet-Honest session refl messages messages-Fit (omega arith) 1 first_one (second_one ∷ [])
        (omega arith) refl in
    let two =
      packet-Honest session refl messages messages-Fit (omega arith) 2 second_one [] (omega arith)
        refl in
    (two, tt, (tt, tt, (one, tt, (two, tt, tt))))

polls-in_order_example :
    let t : Receiver × List Call = polls collect swapped (new_receiver session) [] in
    (1 ≤ t.0.next_seq)
    × (t.0.next_seq ≤ 3)
    × (t.0.count_mismatches ≡ 0)
    × (t.1 ≡ handle_all collect (take (t.0.next_seq - 1) messages) [])
polls-in_order_example =
    polls-in_order collect messages session [] messages-Fit (omega arith) swapped swapped-Honest

swapped-Arrives : (q : ℕ) → 1 ≤ q → q ≤ 2 → Arrives session q swapped
unfolding packet decode same_session frame encode del
swapped-Arrives zero lo hi = absurd (omega arith)
swapped-Arrives (suc zero) lo hi = later (later (now refl refl refl refl refl))
swapped-Arrives (suc (suc zero)) lo hi = now refl refl refl refl refl
swapped-Arrives (suc (suc (suc q))) lo hi = absurd (omega arith)

polls_complete_example :
    let t : Receiver × List Call = polls collect swapped (new_receiver session) [] in
    (t.0.next_seq ≡ 3) × (t.1 ≡ handle_all collect messages [])
polls_complete_example =
    polls_complete collect messages session [] messages-Fit (omega arith) (omega arith) swapped
      swapped-Honest swapped-Arrives

-- The third packet waits, and the first one turns out to hold three messages, though it counts one.
abbrev three_in_one : List (Option Bytes × List (List Reply))
three_in_one =
    (some (packet_of 3 second_one), [])
    ∷ (
      some (
          packet session 1 1
            (frame (encode first_one) ++ (frame (encode second_one) ++ frame (encode second_one)))),
      [],
    )
    ∷ []

three_in_one_blocks :
    let r : Receiver = (polls collect three_in_one (new_receiver session) []).0 in
    (r.next_seq ≡ 4) × (stale_front r.pending r.next_seq ≡ true)
unfolding polls packet decode same_session frame encode del parse_stream dispatch
three_in_one_blocks = (refl, refl)

abbrev passed : Receiver
passed = (polls collect three_in_one (new_receiver session) []).0

-- The fourth packet arrives, and is not delivered.
polls-blocked_example :
    let t : Receiver × List Call =
      polls collect ((some (packet_of 4 second_one), []) ∷ []) passed [] in
    (t.0.next_seq ≡ passed.next_seq) × (t.1 ≡ [])
polls-blocked_example =
    polls-blocked collect ((some (packet_of 4 second_one), []) ∷ []) passed [] three_in_one_blocks.1

-- The packet of the first message is lost.
send_all-load_example :
    map read (send_all session (λ seq. seq == 1) (load (stream (encode_all messages))))
    ≡ data_packet session (2, second_one) ∷ last_packet session 3 ∷ []
send_all-load_example = send_all-load session refl (λ seq. seq == 1) messages (omega arith)

handle_line-quote_example :
    handle_line (quote_request 7) empty_store empty_store empty_store
    ≡ elim (find_snapshot (7 % 2 ^ 16) []) as (λ _. Bytes) [
      | none ↦ error_json_locate "unknown locate" (7 % 2 ^ 16)
      | some q ↦ quote_json q 0 0
    ]
handle_line-quote_example = handle_line-quote 7 empty_store empty_store empty_store (omega arith)

-- "a", a line feed and "b" arrive; "x" has been handled, and nothing is kept from before.
on_recv-lines_example :
    on_recv (97 ∷ 10 ∷ 98 ∷ []) (record { buf = []; handled = (120 ∷ []) ∷ []; closed = false })
    ≡ record { buf = 98 ∷ []; handled = (120 ∷ []) ∷ (97 ∷ []) ∷ []; closed = false }
on_recv-lines_example =
    on_recv-lines ((97 ∷ []) ∷ []) (98 ∷ []) (97 ∷ 10 ∷ 98 ∷ [])
      (record { buf = []; handled = (120 ∷ []) ∷ []; closed = false })
      ((((λ e. absurd (omega arith)), tt), refl, (λ e. absurd (omega arith))), tt)
      ((λ e. absurd (omega arith)), tt) (omega arith) refl refl

-- ===== src/Net/Sender.antt =====
-- `MoldUdp64Sender` of include/net/multicast_test_sender.hpp: the datagrams that it puts on the wire.
pub mod Honest
pub mod Packets
use itch_lob_engine.Base.{
  ◌^◌, ◌*◌, ◌/◌, ◌%◌, ◌-◌, ◌+◌, ◌≤◌, ◌<◌, ◌≡◌, ◌≢◌, ◌↔◌, ◌⊎◌, ◌&&◌, ◌||◌, ◌∙◌, ◌∷◌, ◌++◌, ◌==◌,
  if◌then◌else◌, ℕ, zero, suc, min, max, refl, sym, ap, ap₂, subst, inl, inr, Bool, true, false,
  not, Option, none, some, List, [], map, arith, ltb, leb, length, get_or, set, take, drop,
  replicate, append-nil, append_assoc, Bool-cases, Option-cases, length-append, length-set,
  length-replicate, get_or-set_self, get_or-set_ne, get_or-replicate, ==→≡, ≡→==, ==→≢, ≢→==,
  length-drop, length-take_le, drop-nil, take-nil, drop-add, drop-take_add, take-take_le,
  get_or-take, take-append_le, drop-append_le, get_or-append,
}
use itch_lob_engine.Itch.Wire.{Bytes}
use itch_lob_engine.Itch.Stream.{frame_size}
use itch_lob_engine.Net.Moldudp64.{
  Header, header_len, heartbeat, end_of_session, same_session, encode, decode,
}

-- The loop of `load`, on what is left of `framed`; its tests are those of `parse_stream`.
unfoldable pub load_from : ℕ → Bytes → List Bytes
unfolding frame_size
load_from zero bs = []
load_from (suc fuel) bs = elim (frame_size bs) [
  | none ↦ []
  | some mlen ↦ take (2 + mlen) bs ∷ load_from fuel (drop (2 + mlen) bs)
]

-- `load`: the messages, each with its length in front.
unfoldable pub load : Bytes → List Bytes
unfolding load_from
load framed = load_from (length framed) framed

-- `send_data_packet` and `send_reply_packet`
unfoldable pub packet : Bytes → ℕ → ℕ → Bytes → Bytes
unfolding encode
packet session seq count payload =
    encode [] (record { session = session; seq = seq; count = count }) ++ payload

unfoldable pub send_end_of_session : Bytes → ℕ → Bytes
unfolding encode
send_end_of_session session final_seq =
    encode [] (record { session = session; seq = final_seq; count = end_of_session })

unfoldable pub send_heartbeat : Bytes → ℕ → Bytes
unfolding encode
send_heartbeat session next_seq =
    encode [] (record { session = session; seq = next_seq; count = heartbeat })

-- The loop of `send_all`, from sequence number `seq` on.
unfoldable pub send_from : Bytes → (ℕ → Bool) → ℕ → List Bytes → List Bytes
unfolding packet
send_from session should_drop seq [] = []
send_from session should_drop seq (m ∷ ms) =
    let rest : List Bytes = send_from session should_drop (seq + 1) ms in
    if should_drop seq then rest else packet session seq 1 m ∷ rest

unfoldable pub send_all : Bytes → (ℕ → Bool) → List Bytes → List Bytes
unfolding send_from send_end_of_session
send_all session should_drop messages =
    send_from session should_drop 1 messages
    ++ send_end_of_session session (length messages + 1) ∷ []

-- The loop of `serve_one_request`, with `left` messages asked for, from `seq` on.
unfoldable pub serve_from : Bytes → List Bytes → ℕ → ℕ → List Bytes
unfolding packet
serve_from session messages zero seq = []
serve_from session messages (suc left) seq =
    let rest : List Bytes = serve_from session messages left ((seq + 1) % 2 ^ 64) in
    if ltb seq 1 || ltb (length messages) seq
    then []
    else packet session seq 1 (get_or messages (seq - 1) []) ∷ rest

-- `serve_one_request` on what it has received; none where it returns false.
unfoldable pub serve_one_request : Bytes → List Bytes → Bytes → Option (List Bytes)
unfolding serve_from
serve_one_request session messages buf =
    let h : Header = decode buf in
    if ltb (length buf) header_len
    then none
    else if not (same_session h.session session)
    then none
    else some (serve_from session messages h.count h.seq)

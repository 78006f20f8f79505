-- ===== src/Net/Receiver.antt =====
-- `MoldUdp64Receiver` of include/net/multicast_receiver.hpp. What the sockets deliver is an argument:
-- the datagram of a poll, and for each gap-fill request what is read until its deadline. `pending_`
-- is kept in the order of its keys.
pub mod Either
pub mod Ordered
pub mod Session
pub mod Delivery
pub mod Drain
pub mod InOrder
pub mod Complete
pub mod Blocked
use itch_lob_engine.Base.{
  ◌^◌, ◌*◌, ◌/◌, ◌%◌, ◌-◌, ◌+◌, ◌≤◌, ◌<◌, ◌≡◌, ◌≢◌, ◌↔◌, ◌⊎◌, ◌&&◌, ◌||◌, ◌∙◌, ◌∷◌, ◌++◌, ◌==◌,
  if◌then◌else◌, ℕ, zero, suc, min, max, refl, sym, ap, ap₂, subst, inl, inr, Bool, true, false,
  not, Option, none, some, List, [], map, arith, ltb, leb, length, get_or, set, take, drop,
  replicate, append-nil, append_assoc, Bool-cases, Option-cases, length-append, length-set,
  length-replicate, get_or-set_self, get_or-set_ne, get_or-replicate, ==→≡, ≡→==, ==→≢, ≢→==,
  length-drop, length-take_le, drop-nil, take-nil, drop-add, drop-take_add, take-take_le,
  get_or-take, take-append_le, drop-append_le, get_or-append,
}
use itch_lob_engine.Itch.Wire.{Bytes}
use itch_lob_engine.Itch.Messages.{Call}
use itch_lob_engine.Itch.Stream.{parse_stream}
use itch_lob_engine.Net.Moldudp64.{
  Header, header_len, heartbeat, end_of_session, same_session, encode, decode,
}

pub record PendingPacket : Type 0 where
  pub count : ℕ
  pub payload : Bytes

abbrev pub Pending : Type 0
Pending = List (ℕ × PendingPacket)

-- `pending_.find(seq) != pending_.end()`
abbrev pub has : ℕ → Pending → Bool
has seq [] = false
has seq ((k, p) ∷ ps) = k == seq || has seq ps

-- `pending_.insert_or_assign(seq, p)`
abbrev pub insert_or_assign : ℕ → PendingPacket → Pending → Pending
insert_or_assign seq p [] = (seq, p) ∷ []
insert_or_assign seq p ((k, q) ∷ ps) =
    let rest : Pending = insert_or_assign seq p ps in
    if ltb seq k then (seq, p) ∷ (k, q) ∷ ps else if k == seq then (seq, p) ∷ ps else (k, q) ∷ rest

-- `kMaxPendingPackets`, `kMaxGapFillAttempts`, `kFirstSeq`
abbrev pub max_pending_packets : ℕ
max_pending_packets = 256

abbrev pub max_gap_fill_attempts : ℕ
max_gap_fill_attempts = 5

abbrev pub first_seq : ℕ
first_seq = 1

-- What a `recv` on the request channel brings before the deadline: `timed_out` is a failure with
-- EAGAIN or EWOULDBLOCK, `retried` any other failure; a read that is short leaves `errno` as it was,
-- so it is one of the two or a `datagram` that is not taken.
pub data Reply : Type 0 where
  timed_out : Reply
  retried : Reply
  datagram : Bytes → Reply

-- The members, and the datagrams that `send_request` has put on the wire, the last one first.
pub record Receiver : Type 0 where
  pub session : Bytes
  pub next_seq : ℕ
  pub ended : Bool
  pub requests_sent : ℕ
  pub dropped_pending : ℕ
  pub count_mismatches : ℕ
  pub pending : Pending
  pub requests : List Bytes

abbrev pub new_receiver : Bytes → Receiver
new_receiver session = record {
  session = session;
  next_seq = first_seq;
  ended = false;
  requests_sent = 0;
  dropped_pending = 0;
  count_mismatches = 0;
  pending = [];
  requests = [];
}

unfoldable pub buffer : ℕ → ℕ → Bytes → Receiver → Receiver
buffer seq count payload r =
    if leb max_pending_packets (length r.pending) && not (has seq r.pending)
    then record r { dropped_pending = (r.dropped_pending + 1) % 2 ^ 64 }
    else record r {
      pending = insert_or_assign seq (record { count = count; payload = payload }) r.pending;
    }

unfoldable pub send_request : ℕ → ℕ → Receiver → Receiver
send_request seq count r = record r {
  requests = encode [] (record { session = r.session; seq = seq; count = count }) ∷ r.requests;
}

-- `!pending_.empty() && pending_.begin()->first == next_seq_`
abbrev pub front_is_next : Pending → ℕ → Bool
front_is_next [] next = false
front_is_next ((k, p) ∷ ps) next = k == next

-- Whether a reply is buffered.
unfoldable pub takes_reply : Bytes → Receiver → Bool
takes_reply buf r =
    let h : Header = decode buf in
    not (ltb (length buf) header_len)
    && same_session h.session r.session
    && not (h.count == heartbeat || h.count == end_of_session)
    && not (ltb h.seq r.next_seq)

-- The inner loop of `resolve_gaps`, up to the deadline.
unfoldable pub await_replies : List Reply → Receiver → Receiver
unfolding buffer takes_reply
await_replies [] r = r
await_replies (timed_out ∷ rs) r = r
await_replies (retried ∷ rs) r = await_replies rs r
await_replies (datagram buf ∷ rs) r =
    let h : Header = decode buf in
    let s : Receiver = buffer h.seq h.count (drop header_len buf) r in
    let skipped : Receiver = await_replies rs r in
    let buffered : Receiver = await_replies rs s in
    if takes_reply buf r
    then if front_is_next s.pending s.next_seq then s else buffered
    else skipped

-- One round of the outer loop on what is read in it.
unfoldable pub request_gap : ℕ → List Reply → Receiver → Receiver
unfolding send_request await_replies
request_gap first replies r =
    let asked : Receiver = send_request r.next_seq (min (first - r.next_seq) 0xfffe) r in
    await_replies replies (record asked { requests_sent = (r.requests_sent + 1) % 2 ^ 64 })

-- `pending_.begin()->first` where it is ahead of `next_seq_`
abbrev pub gap_before : Pending → ℕ → Option ℕ
gap_before [] next = none
gap_before ((k, p) ∷ ps) next = if ltb next k then some k else none

-- The outer loop, with `attempts` left, on what is read in each of its rounds.
unfoldable pub resolve_gaps_from : ℕ → List (List Reply) → Receiver → Receiver
unfolding request_gap
resolve_gaps_from zero rounds r = r
resolve_gaps_from (suc attempts) rounds r = elim (gap_before r.pending r.next_seq) [
  | none ↦ r
  | some first ↦
      resolve_gaps_from attempts (drop 1 rounds) (request_gap first (get_or rounds 0 []) r)
]

unfoldable pub resolve_gaps : List (List Reply) → Receiver → Receiver
unfolding resolve_gaps_from
resolve_gaps replies r = resolve_gaps_from max_gap_fill_attempts replies r

-- What `drain` does with the front of `pending_`, before the packets behind it, once it has parsed it.
unfoldable pub advance : ℕ → PendingPacket → Pending → Receiver → Receiver
advance parsed p behind r = record r {
  next_seq = (r.next_seq + parsed) % 2 ^ 64;
  count_mismatches =
      if parsed == p.count then r.count_mismatches else (r.count_mismatches + 1) % 2 ^ 64;
  pending = behind;
}

module _ {S : Type 0} (handle : Call → S → S) where
  -- The loop of `drain`, on the packets of `pending_`.
  unfoldable pub drain_from : Pending → Receiver → S → ℕ → ℕ × Receiver × S
  unfolding advance
  drain_from [] r s frames = (frames, r, s)
  drain_from ((k, p) ∷ ps) r s frames =
      let (parsed, s') = parse_stream handle p.payload s in
      let drained : ℕ × Receiver × S = drain_from ps (advance parsed p ps r) s' (frames + parsed) in
      if k == r.next_seq then drained else (frames, r, s)

  unfoldable pub drain : Receiver → S → ℕ × Receiver × S
  unfolding drain_from
  drain r s = drain_from r.pending r s 0

  unfoldable pub accept : ℕ → ℕ → Bytes → List (List Reply) → Receiver → S → ℕ × Receiver × S
  unfolding drain buffer resolve_gaps
  accept seq count payload replies r s =
      if ltb seq r.next_seq
      then (0, r, s)
      else drain (resolve_gaps replies (buffer seq count payload r)) s

  unfoldable pub on_packet : Bytes → List (List Reply) → Receiver → S → ℕ × Receiver × S
  unfolding accept
  on_packet buf replies r s =
      let h : Header = decode buf in
      if not (same_session h.session r.session)
      then (0, r, s)
      else if h.count == end_of_session
      then (0, record r { ended = true }, s)
      else if h.count == heartbeat
      then (0, r, s)
      else accept h.seq h.count (drop header_len buf) replies r s

  -- `poll`; `none` is a timeout or an error.
  unfoldable pub poll : Option Bytes → List (List Reply) → Receiver → S → ℕ × Receiver × S
  unfolding on_packet
  poll none replies r s = (0, r, s)
  poll (some buf) replies r s =
      if ltb (length buf) header_len then (0, r, s) else on_packet buf replies r s

  -- One poll after the other, each with what the request channel brings during it.
  unfoldable pub polls : List (Option Bytes × List (List Reply)) → Receiver → S → Receiver × S
  unfolding poll
  polls [] r s = (r, s)
  polls ((packet, replies) ∷ rest) r s =
      let (frames, r', s') = poll packet replies r s in polls rest r' s'

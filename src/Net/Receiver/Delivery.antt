-- ===== src/Net/Receiver/Delivery.antt =====
-- What the receiver keeps to in a session that sends each message in a packet of its own, whichever
-- packets arrive, and in whichever order.
use itch_lob_engine.Base.{
  ◌-◌, ◌+◌, ◌≤◌, ◌≡◌, ◌&&◌, ◌∙◌, ◌∷◌, ◌==◌, ℕ, ap, inl, inr, true, false, not, Option, none, some,
  List, [], arith, leb, length, take, drop, Bool-cases, zero, suc, refl, sym, subst, get_or,
  Option-cases,
}
use itch_lob_engine.Itch.Wire.{Bytes}
use itch_lob_engine.Itch.Messages.{Call}
use itch_lob_engine.Itch.Encode.RoundTrip.{Message}
use itch_lob_engine.Itch.Stream.RoundTrip.{handle_all}
use itch_lob_engine.Net.Moldudp64.{header_len, end_of_session, heartbeat, same_session, decode}
use itch_lob_engine.Net.Receiver.{
  PendingPacket, has, Receiver, Reply, timed_out, retried, datagram, buffer, takes_reply,
  front_is_next, await_replies, Pending, request_gap, resolve_gaps_from, send_request, gap_before,
}
use itch_lob_engine.Net.Receiver.Ordered.{Ordered, insert-Ordered}
use itch_lob_engine.Net.Receiver.Session.{
  Carries, AllCarry, AllKept, insert-AllCarry, insert-AllKept,
}

-- A datagram of the session: of another session, a heartbeat, the end, or the packet of a message.
pub data Honest (ms : List Message) (session buf : Bytes) : Type 0 where
  foreign : same_session (decode buf).session session ≡ false → Honest ms session buf
  quiet : ((decode buf).count == heartbeat) ≡ true → Honest ms session buf
  last : ((decode buf).count == end_of_session) ≡ true → Honest ms session buf
  carrying :
      Carries ms
        (decode buf).seq
        (record { count = (decode buf).count; payload = drop header_len buf })
      → Honest ms session buf

abbrev pub HonestReply : List Message → Bytes → Reply → Type 0
HonestReply ms session (datagram buf) = Honest ms session buf
HonestReply ms session _ = Unit {0}

abbrev pub AllReplies : List Message → Bytes → List Reply → Type 0
AllReplies ms session [] = Unit {0}
AllReplies ms session (a ∷ rest) = HonestReply ms session a × AllReplies ms session rest

abbrev pub AllRounds : List Message → Bytes → List (List Reply) → Type 0
AllRounds ms session [] = Unit {0}
AllRounds ms session (a ∷ rest) = AllReplies ms session a × AllRounds ms session rest

abbrev pub HonestPacket : List Message → Bytes → Option Bytes → Type 0
HonestPacket ms session none = Unit {0}
HonestPacket ms session (some buf) = Honest ms session buf

abbrev pub AllHonest : List Message → Bytes → List (Option Bytes × List (List Reply)) → Type 0
AllHonest ms session [] = Unit {0}
AllHonest ms session ((packet, replies) ∷ rest) =
    HonestPacket ms session packet × AllRounds ms session replies × AllHonest ms session rest

module _ (ms : List Message) (session : Bytes) where
  now_replies :
      (rounds : List (List Reply))
      → AllRounds ms session rounds
      → AllReplies ms session (get_or rounds 0 [])
  now_replies [] h = tt
  now_replies (now ∷ later) (h, hs) = h

  later_replies :
      (rounds : List (List Reply))
      → AllRounds ms session rounds
      → AllRounds ms session (drop 1 rounds)
  later_replies [] h = tt
  later_replies (now ∷ later) (h, hs) = hs

resolve_some :
    (n : ℕ) (rounds : List (List Reply)) (r : Receiver) (k : ℕ)
    → gap_before r.pending r.next_seq ≡ some k
    → resolve_gaps_from (suc n) rounds r
      ≡ resolve_gaps_from n (drop 1 rounds) (request_gap k (get_or rounds 0 []) r)
unfolding resolve_gaps_from
resolve_some n rounds r k gap = rw (gap, resolve_gaps_from) refl

module _ {S : Type 0} (handle : Call → S → S) where
  module _ (ms : List Message) (session : Bytes) (init : S) (qs : List ℕ) where
    pub record InvAt (next_seq : ℕ) (own : Bytes) (mismatches : ℕ) (pending : Pending) (s : S)
        : Type 0 where
      pub started : 1 ≤ next_seq
      pub within : next_seq ≤ 1 + length ms
      pub session_is : own ≡ session
      pub carried : AllCarry ms pending
      pub ordered : Ordered next_seq pending
      pub kept : AllKept qs next_seq pending
      pub no_mismatch : mismatches ≡ 0
      pub state : s ≡ handle_all handle (take (next_seq - 1) ms) init

    abbrev pub Inv : Receiver → S → Type 0
    Inv r s = InvAt r.next_seq r.session r.count_mismatches r.pending s

    pub buffer-Inv :
        (seq count : ℕ) (payload : Bytes) (r : Receiver) (s : S)
        → Inv r s
        → r.next_seq ≤ seq
        → Carries ms seq (record { count = count; payload = payload })
        → Inv (buffer seq count payload r) s
    unfolding buffer
    buffer-Inv seq count payload r s i le c =
        let p : PendingPacket = record { count = count; payload = payload } in
        elim (Bool-cases (leb 256 (length r.pending) && not (has seq r.pending))) [
          | inl full ↦ rw full i
          | inr room ↦ rw room (record {
            started = i.started;
            within = i.within;
            session_is = i.session_is;
            carried = insert-AllCarry ms seq p r.pending c i.carried;
            ordered = insert-Ordered seq r.next_seq p r.pending le i.ordered;
            kept = insert-AllKept qs r.next_seq seq p r.pending i.kept;
            no_mismatch = i.no_mismatch;
            state = i.state;
          })
        ]

    -- A reply that is taken is of the session.
    taken :
        (buf : Bytes) (r : Receiver)
        → r.session ≡ session
        → Honest ms session buf
        → takes_reply buf r ≡ true
        → (r.next_seq ≤ (decode buf).seq)
          × Carries ms
              (decode buf).seq
              (record { count = (decode buf).count; payload = drop header_len buf })
    unfolding takes_reply
    taken buf r e (foreign h) t =
        let other : same_session (decode buf).session r.session ≡ false =
          ap (λ b. same_session (decode buf).session b) e ∙ h in
        ground arith
    taken buf r e (quiet h) t = ground arith
    taken buf r e (last h) t = ground arith
    taken buf r e (carrying c) t = (ground arith, c)

    await_replies-Inv :
        (replies : List Reply) (r : Receiver) (s : S)
        → AllReplies ms session replies
        → Inv r s
        → Inv (await_replies replies r) s
    unfolding await_replies
    await_replies-Inv [] r s h i = i
    await_replies-Inv (timed_out ∷ rs) r s h i = i
    await_replies-Inv (retried ∷ rs) r s (_, h) i = await_replies-Inv rs r s h i
    await_replies-Inv (datagram buf ∷ rs) r s (honest, h) i =
        elim (Bool-cases (takes_reply buf r)) [
          | inr no_take ↦ rw no_take (await_replies-Inv rs r s h i)
          | inl takes ↦
              let t : Receiver =
                buffer (decode buf).seq (decode buf).count (drop header_len buf) r in
              let (le, c) = taken buf r i.session_is honest takes in
              let j : Inv t s =
                buffer-Inv (decode buf).seq (decode buf).count (drop header_len buf) r s i le c in
              elim (Bool-cases (front_is_next t.pending t.next_seq)) [
                | inl closed ↦ rw (takes, closed) j
                | inr more ↦ rw (takes, more) (await_replies-Inv rs t s h j)
              ]
        ]

    request_gap-Inv :
        (first : ℕ) (replies : List Reply) (r : Receiver) (s : S)
        → AllReplies ms session replies
        → Inv r s
        → Inv (request_gap first replies r) s
    unfolding request_gap send_request
    request_gap-Inv first replies r s h i = await_replies-Inv replies _ s h i

    pub resolve_gaps_from-Inv :
        (n : ℕ) (rounds : List (List Reply)) (r : Receiver) (s : S)
        → AllRounds ms session rounds
        → Inv r s
        → Inv (resolve_gaps_from n rounds r) s
    unfolding resolve_gaps_from
    resolve_gaps_from-Inv zero rounds r s h i = i
    resolve_gaps_from-Inv (suc n) rounds r s h i =
        elim (Option-cases (gap_before r.pending r.next_seq)) [
          | inl none_there ↦ rw (none_there, resolve_gaps_from) i
          | inr (k, gap) ↦
              let now : List Reply = get_or rounds 0 [] in
              subst (λ t. Inv t s) (sym (resolve_some n rounds r k gap))
                (resolve_gaps_from-Inv n (drop 1 rounds) (request_gap k now r) s
                  (later_replies ms session rounds h)
                  (request_gap-Inv k now r s (now_replies ms session rounds h) i))
        ]

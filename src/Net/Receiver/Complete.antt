-- ===== src/Net/Receiver/Complete.antt =====
-- A session of at most as many messages as the receiver buffers, all of whose packets arrive.
use mathlib.Core.Bool.{false≢true}
use itch_lob_engine.Base.{
  ◌^◌, ◌-◌, ◌+◌, ◌≤◌, ◌<◌, ◌≡◌, ◌&&◌, ◌∙◌, ◌∷◌, ◌==◌, ℕ, refl, sym, ap, subst, inl, inr, true,
  false, not, Option, some, List, [], arith, ltb, leb, length, take, drop, Bool-cases,
}
use itch_lob_engine.Itch.Wire.{Bytes}
use itch_lob_engine.Itch.Messages.{Call}
use itch_lob_engine.Itch.Encode.RoundTrip.{Message}
use itch_lob_engine.Itch.Stream.RoundTrip.{AllFit, handle_all}
use itch_lob_engine.Net.Moldudp64.{header_len, end_of_session, heartbeat, same_session, decode}
use itch_lob_engine.Net.Receiver.{
  PendingPacket, Pending, has, insert_or_assign, Receiver, new_receiver, Reply, buffer, accept,
  on_packet, poll, polls,
}
use itch_lob_engine.Net.Receiver.Ordered.{
  Ordered, insert-Ordered, has-front, has-insert_self, length-insert,
}
use itch_lob_engine.Net.Receiver.Session.{
  Carries, AllCarry, AllKept, insert-AllCarry, take-drop-suc,
}
use itch_lob_engine.Net.Receiver.Delivery.{Honest, AllRounds, AllHonest, Inv, buffer-Inv}
use itch_lob_engine.Net.Receiver.InOrder.{
  own_packet, Settled, accept-Settled, poll-Settled, polls-Settled, new_receiver-Settled,
}

-- A packet of the session with sequence number `q` is among what the data channel brings.
pub data Arrives (session : Bytes) (q : ℕ) : List (Option Bytes × List (List Reply)) → Type 0 where
  now :
      {buf : Bytes} {rounds : List (List Reply)} {rest : List (Option Bytes × List (List Reply))}
      → ltb (length buf) header_len ≡ false
      → same_session (decode buf).session session ≡ true
      → ((decode buf).count == end_of_session) ≡ false
      → ((decode buf).count == heartbeat) ≡ false
      → (decode buf).seq ≡ q
      → Arrives session q ((some buf, rounds) ∷ rest)
  later :
      {packet : Option Bytes} {rounds : List (List Reply)}
      {rest : List (Option Bytes × List (List Reply))}
      → Arrives session q rest
      → Arrives session q ((packet, rounds) ∷ rest)

-- There are no more packets than messages from `lo` on.
length-Ordered :
    (ms : List Message) (lo : ℕ) (ps : Pending)
    → lo ≤ 1 + length ms
    → Ordered lo ps
    → AllCarry ms ps
    → length ps + lo ≤ 1 + length ms
length-Ordered ms lo [] within h c = omega arith
length-Ordered ms lo ((k, p) ∷ ps) within (le, h) ((pos, m, rest, at, _, _), c) =
    let here = (take-drop-suc (k - 1) ms m rest at).1 in
    let ih = length-Ordered ms (k + 1) ps (omega arith) h c in omega arith

module _ {S : Type 0} (handle : Call → S → S) where
  poll_accepts :
      (buf : Bytes) (rounds : List (List Reply)) (r : Receiver) (s : S)
      → ltb (length buf) header_len ≡ false
      → same_session (decode buf).session r.session ≡ true
      → ((decode buf).count == end_of_session) ≡ false
      → ((decode buf).count == heartbeat) ≡ false
      → poll handle (some buf) rounds r s
        ≡ accept handle (decode buf).seq (decode buf).count (drop header_len buf) rounds r s
  unfolding poll on_packet
  poll_accepts buf rounds r s long own not_end not_quiet = rw (long, own, not_end, not_quiet) refl

  module _ (ms : List Message) (session : Bytes) (init : S) (fit : AllFit ms)
      (small : 1 + length ms < 2 ^ 64) (few : length ms ≤ 256) where
    -- There is room for every packet.
    buffer-has :
        (seq count : ℕ) (payload : Bytes) (r : Receiver) (s : S)
        → Inv handle ms session init [] r s
        → r.next_seq ≤ seq
        → Carries ms seq (record { count = count; payload = payload })
        → has seq (buffer seq count payload r).pending ≡ true
    unfolding buffer
    buffer-has seq count payload r s i le c =
        let p : PendingPacket = record { count = count; payload = payload } in
        let more : Pending = insert_or_assign seq p r.pending in
        elim (Bool-cases (has seq r.pending)) [
          | inl there ↦
              let room : (leb 256 (length r.pending) && not (has seq r.pending)) ≡ false =
                ground arith in
              rw room (has-insert_self seq p r.pending)
          | inr new ↦
              let longer = length-insert seq p r.pending new in
              let bound =
                length-Ordered ms r.next_seq more i.within
                  (insert-Ordered seq r.next_seq p r.pending le i.ordered)
                  (insert-AllCarry ms seq p r.pending c i.carried) in
              let started = i.started in
              let room : (leb 256 (length r.pending) && not (has seq r.pending)) ≡ false =
                ground arith in
              rw room (has-insert_self seq p r.pending)
        ]

    track :
        (qs : List ℕ) (r : Receiver) (s : S)
        → AllKept qs r.next_seq r.pending
        → Inv handle ms session init [] r s
        → Inv handle ms session init qs r s
    track qs r s kept i = record {
      started = i.started;
      within = i.within;
      session_is = i.session_is;
      carried = i.carried;
      ordered = i.ordered;
      kept = kept;
      no_mismatch = i.no_mismatch;
      state = i.state;
    }

    poll_tracks :
        (q : ℕ) (buf : Bytes) (rounds : List (List Reply)) (r : Receiver) (s : S)
        → Honest ms session buf
        → AllRounds ms session rounds
        → ltb (length buf) header_len ≡ false
        → same_session (decode buf).session session ≡ true
        → ((decode buf).count == end_of_session) ≡ false
        → ((decode buf).count == heartbeat) ≡ false
        → (decode buf).seq ≡ q
        → Settled handle ms session init fit small [] (0, r, s)
        → Settled handle ms session init fit small (q ∷ []) (poll handle (some buf) rounds r s)
    poll_tracks q buf rounds r s honest replies long own not_end not_quiet is_q (i, settled) =
        let seq : ℕ = (decode buf).seq in
        let count : ℕ = (decode buf).count in
        let payload : Bytes = drop header_len buf in
        let c = own_packet ms session buf honest own not_end not_quiet in
        let own' = ap (same_session (decode buf).session) i.session_is ∙ own in
        subst
          (λ k.
            Settled handle ms session init fit small (k ∷ []) (poll handle (some buf) rounds r s))
          is_q
          (subst (Settled handle ms session init fit small (seq ∷ []))
            (sym (poll_accepts buf rounds r s long own' not_end not_quiet))
            (accept-Settled handle ms session init fit small (seq ∷ []) seq count payload rounds r s
              replies (λ old. (track (seq ∷ []) r s (inl old, tt) i, settled))
              (λ new.
                track (seq ∷ []) (buffer seq count payload r) s
                  (inr (buffer-has seq count payload r s i new c), tt)
                  (buffer-Inv handle ms session init [] seq count payload r s i new c))))

    polls_track :
        (q : ℕ) (events : List (Option Bytes × List (List Reply))) (r : Receiver) (s : S)
        → AllHonest ms session events
        → Arrives session q events
        → Settled handle ms session init fit small [] (0, r, s)
        → let t : Receiver × S = polls handle events r s in
          Settled handle ms session init fit small (q ∷ []) (0, t.0, t.1)
    unfolding polls
    polls_track q [] r s honest never i = elim never [ ]
    polls_track q ((some buf, rounds) ∷ rest) r s (h, hs, hl) (now long own not_end not_quiet is_q)
          i =
        let t : ℕ × Receiver × S = poll handle (some buf) rounds r s in
        polls-Settled handle ms session init fit small (q ∷ []) rest t.1 t.2 hl
          (poll_tracks q buf rounds r s h hs long own not_end not_quiet is_q i)
    polls_track q ((packet, rounds) ∷ rest) r s (h, hs, hl) (later a) i =
        let t : ℕ × Receiver × S = poll handle packet rounds r s in
        polls_track q rest t.1 t.2 hl a
          (poll-Settled handle ms session init fit small [] packet rounds r s h hs i)

    take_all : (xs : List Message) → take (length xs) xs ≡ xs
    take_all [] = refl
    take_all (x ∷ xs) = ap (λ (ys : List Message). x ∷ ys) (take_all xs)

    -- All packets of a session of at most 256 messages arrive, in any order, some of them more than
    -- once, and with any loss in what is requested: then all messages have been delivered, in order, each
    -- once.
    pub polls_complete :
        (events : List (Option Bytes × List (List Reply)))
        → AllHonest ms session events
        → ((q : ℕ) → 1 ≤ q → q ≤ length ms → Arrives session q events)
        → let t : Receiver × S = polls handle events (new_receiver session) init in
          (t.0.next_seq ≡ 1 + length ms) × (t.1 ≡ handle_all handle ms init)
    polls_complete events honest all =
        let t : Receiver × S = polls handle events (new_receiver session) init in
        let start = new_receiver-Settled handle ms session init fit small in
        let (i, settled) =
          polls-Settled handle ms session init fit small [] events (new_receiver session) init
            honest start in
        let done : t.0.next_seq ≡ 1 + length ms = elim (Bool-cases (leb t.0.next_seq (length ms))) [
          | inr past ↦ let within = i.within in ground arith
          | inl more ↦
              let q : ℕ = t.0.next_seq in
              let (j, _) =
                polls_track q events (new_receiver session) init honest
                  (all q i.started (ground arith)) start in
              elim j.kept.0 [
                | inl before ↦ absurd (omega arith)
                | inr waits ↦
                    absurd (false≢true (sym settled ∙ has-front q t.0.pending j.ordered waits))
              ]
        ] in
        (
          done,
          i.state
              ∙ ap (λ n. handle_all handle (take n ms) init)
                  (let e : t.0.next_seq - 1 ≡ length ms = omega arith in e)
              ∙ ap (λ (xs : List Message). handle_all handle xs init) (take_all ms),
        )

-- ===== src/Net/Receiver/Blocked.antt =====
-- A buffered packet whose sequence number has been passed by another packet's messages.
use itch_lob_engine.Base.{
  ◌≤◌, ◌≡◌, ◌&&◌, ◌∙◌, ◌∷◌, ◌==◌, ℕ, zero, suc, refl, ap, inl, inr, Bool, true, false, not, Option,
  List, [], arith, ltb, leb, length, drop, Bool-cases, none,
}
use mathlib.Core.Bool.{false≢true}
use itch_lob_engine.Itch.Wire.{Bytes}
use itch_lob_engine.Itch.Messages.{Call}
use itch_lob_engine.Net.Moldudp64.{header_len, decode}
use itch_lob_engine.Net.Receiver.Either.{poll-either}
use itch_lob_engine.Net.Receiver.{
  PendingPacket, Pending, has, insert_or_assign, Reply, Receiver, buffer, resolve_gaps_from,
  resolve_gaps, drain_from, drain, accept, poll, polls, gap_before,
}

-- The lowest sequence number of `pending_` is below `next_seq_`.
abbrev pub stale_front : Pending → ℕ → Bool
stale_front [] next = false
stale_front ((k, p) ∷ ps) next = ltb k next

insert-stale :
    (seq : ℕ) (p : PendingPacket) (ps : Pending) (next : ℕ)
    → next ≤ seq
    → stale_front ps next ≡ true
    → stale_front (insert_or_assign seq p ps) next ≡ true
insert-stale seq p [] next le h = absurd (false≢true h)
insert-stale seq p ((k, q) ∷ ps) next le h = ground arith

buffer-stale :
    (seq count : ℕ) (payload : Bytes) (r : Receiver)
    → r.next_seq ≤ seq
    → stale_front r.pending r.next_seq ≡ true
    → ((buffer seq count payload r).next_seq ≡ r.next_seq)
      × (stale_front (buffer seq count payload r).pending r.next_seq ≡ true)
unfolding buffer
buffer-stale seq count payload r le h =
    elim (Bool-cases (leb 256 (length r.pending) && not (has seq r.pending))) [
      | inl full ↦ rw full (refl, h)
      | inr room ↦ rw room (
        refl,
        insert-stale seq (record { count = count; payload = payload }) r.pending r.next_seq le h,
      )
    ]

no_gap : (ps : Pending) (next : ℕ) → stale_front ps next ≡ true → gap_before ps next ≡ none
no_gap [] next h = refl
no_gap ((k, p) ∷ ps) next h = ground arith

-- Nothing is requested, and nothing drained.
resolve-stale :
    (n : ℕ) (rounds : List (List Reply)) (r : Receiver)
    → stale_front r.pending r.next_seq ≡ true
    → resolve_gaps_from n rounds r ≡ r
unfolding resolve_gaps_from
resolve-stale zero rounds r h = refl
resolve-stale (suc n) rounds r h = rw (no_gap r.pending r.next_seq h, resolve_gaps_from) refl

module _ {S : Type 0} (handle : Call → S → S) where
  drain-stale :
      (ps : Pending) (r : Receiver) (s : S)
      → stale_front ps r.next_seq ≡ true
      → drain_from handle ps r s 0 ≡ (0, r, s)
  unfolding drain_from
  drain-stale [] r s h = absurd (false≢true h)
  drain-stale ((k, p) ∷ ps) r s h =
      let other : (k == r.next_seq) ≡ false = ground arith in rw other refl

  -- Nothing has been delivered, and the front is stale still.
  abbrev Stays : ℕ → S → Receiver → S → Type 0
  Stays next s r t = (r.next_seq ≡ next) × (stale_front r.pending next ≡ true) × (t ≡ s)

  accept-stale :
      (seq count : ℕ) (payload : Bytes) (replies : List (List Reply)) (r : Receiver) (s : S)
      → stale_front r.pending r.next_seq ≡ true
      → let t : ℕ × Receiver × S = accept handle seq count payload replies r s in
        Stays r.next_seq s t.1 t.2
  unfolding accept drain resolve_gaps
  accept-stale seq count payload replies r s h = elim (Bool-cases (ltb seq r.next_seq)) [
    | inl old ↦ rw old (refl, h, refl)
    | inr new ↦
        let b : Receiver = buffer seq count payload r in
        let (same, stale) = buffer-stale seq count payload r (ground arith) h in
        let stale' : stale_front b.pending b.next_seq ≡ true =
          ap (stale_front b.pending) same ∙ stale in
        rw (new, resolve-stale 5 replies b stale', drain-stale b.pending b s stale')
          (same, stale, refl)
  ]

  poll-stale :
      (packet : Option Bytes) (replies : List (List Reply)) (r : Receiver) (s : S)
      → stale_front r.pending r.next_seq ≡ true
      → let t : ℕ × Receiver × S = poll handle packet replies r s in Stays r.next_seq s t.1 t.2
  poll-stale packet replies r s h =
      poll-either handle (λ t. Stays r.next_seq s t.1 t.2) packet replies r s (refl, h, refl)
        (refl, h, refl)
        (λ buf _ _ _ _.
          accept-stale (decode buf).seq (decode buf).count (drop header_len buf) replies r s h)

  -- Once the lowest sequence number that is buffered has been passed, no packet that arrives and no
  -- reply to a request is ever delivered: `next_seq_` and the handler stay as they are.
  pub polls-blocked :
      (events : List (Option Bytes × List (List Reply))) (r : Receiver) (s : S)
      → stale_front r.pending r.next_seq ≡ true
      → let t : Receiver × S = polls handle events r s in (t.0.next_seq ≡ r.next_seq) × (t.1 ≡ s)
  unfolding polls
  polls-blocked [] r s h = (refl, refl)
  polls-blocked ((packet, replies) ∷ rest) r s h =
      let (next, front, kept) = poll-stale packet replies r s h in
      let u : ℕ × Receiver × S = poll handle packet replies r s in
      let (next', kept') = polls-blocked rest u.1 u.2 (ap (stale_front u.1.pending) next ∙ front) in
      (next' ∙ next, kept' ∙ kept)

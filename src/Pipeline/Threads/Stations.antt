-- ===== src/Pipeline/Threads/Stations.antt =====
-- What each thread relies on where it stands, with the ring's entries counted from `hd` to `tl`.
use mathlib.Core.Bool.{false≢true}
use itch_lob_engine.Base.{
  ◌+◌, ◌≤◌, ◌<◌, ◌≡◌, ◌⊎◌, ◌∙◌, ◌∷◌, ℕ, refl, sym, inr, Bool, true, false, List, [], arith, length,
  get_or,
}
use itch_lob_engine.Pipeline.Spsc.{Ring, front, release}
use itch_lob_engine.Pipeline.Threads.{
  Producer, ready, writing, publishing, ended, Consumer, polling, reading, freeing, checking,
  finished,
}

module _ {A : Type 0} where
  -- What the parser thread relies on where it stands. Where it publishes, the first of the entries
  -- still to push is the one it has written.
  abbrev pub Producing : Producer → Ring A → Bool → List A → ℕ → ℕ → Type 0
  Producing ready q done todo hd tl = done ≡ false
  Producing writing q done todo hd tl =
      (done ≡ false) × (0 < length todo) × (tl + 1 < hd + q.capacity)
  Producing publishing q done todo hd tl =
      (done ≡ false)
      × (0 < length todo)
      × (tl + 1 < hd + q.capacity)
      × ((v : A) (vs : List A) → todo ≡ v ∷ vs → get_or q.buf q.tail q.blank ≡ v)
  Producing ended q done todo hd tl = (done ≡ true) × (todo ≡ [])

  -- What the book-builder thread relies on where it stands.
  abbrev pub Consuming : Consumer A → Ring A → Bool → ℕ → ℕ → Type 0
  Consuming (polling b) q done hd tl = (b ≡ false) ⊎ (done ≡ true)
  Consuming (reading b) q done hd tl = (hd < tl) × ((b ≡ false) ⊎ (done ≡ true))
  Consuming (freeing b v) q done hd tl = (hd < tl) × ((b ≡ false) ⊎ (done ≡ true)) × (v ≡ front q)
  Consuming checking q done hd tl = Unit {0}
  Consuming finished q done hd tl = (hd ≡ tl) × (done ≡ true)

  -- A change by the parser thread.
  pub Consuming-kept :
      (c : Consumer A) (q r : Ring A) (hd tl tl' : ℕ)
      → tl ≤ tl'
      → (hd < tl → front r ≡ front q)
      → Consuming c q false hd tl
      → Consuming c r false hd tl'
  Consuming-kept (polling b) q r hd tl tl' le same h = h
  Consuming-kept (reading b) q r hd tl tl' le same (lt, h) = (omega arith, h)
  Consuming-kept (freeing b v) q r hd tl tl' le same (lt, h, e) =
      (omega arith, h, e ∙ sym (same lt))
  Consuming-kept checking q r hd tl tl' le same h = h
  Consuming-kept finished q r hd tl tl' le same (e, h) = absurd (false≢true h)

  pub Consuming-ended :
      (c : Consumer A) (q : Ring A) (hd tl : ℕ)
      → Consuming c q false hd tl
      → Consuming c q true hd tl
  Consuming-ended (polling b) q hd tl h = inr refl
  Consuming-ended (reading b) q hd tl (lt, h) = (lt, inr refl)
  Consuming-ended (freeing b v) q hd tl (lt, h, e) = (lt, inr refl, e)
  Consuming-ended checking q hd tl h = h
  Consuming-ended finished q hd tl (e, h) = (e, refl)

  -- A release by the book-builder thread.
  pub Producing-release :
      (p : Producer) (q : Ring A) (done : Bool) (todo : List A) (hd tl : ℕ)
      → Producing p q done todo hd tl
      → Producing p (release q) done todo (hd + 1) tl
  Producing-release ready q done todo hd tl h = h
  Producing-release writing q done todo hd tl (h, more, room) = (h, more, omega arith)
  Producing-release publishing q done todo hd tl (h, more, room, w) = (h, more, omega arith, w)
  Producing-release ended q done todo hd tl h = h

  pub Producing-done :
      (p : Producer) (q : Ring A) (todo : List A) (hd tl : ℕ)
      → Producing p q true todo hd tl
      → todo ≡ []
  Producing-done ready q todo hd tl h = absurd (false≢true (sym h))
  Producing-done writing q todo hd tl (h, _, _) = absurd (false≢true (sym h))
  Producing-done publishing q todo hd tl (h, _, _, _) = absurd (false≢true (sym h))
  Producing-done ended q todo hd tl (h, e) = e

  -- Only the end of the parser thread sets `done`.
  pub Producing-ended :
      (p : Producer) (q : Ring A) (todo : List A) (hd tl : ℕ)
      → Producing p q true todo hd tl
      → p ≡ ended
  Producing-ended ready q todo hd tl h = absurd (false≢true (sym h))
  Producing-ended writing q todo hd tl (h, _, _) = absurd (false≢true (sym h))
  Producing-ended publishing q todo hd tl (h, _, _, _) = absurd (false≢true (sym h))
  Producing-ended ended q todo hd tl h = refl

  pub head_of : {x y : A} {xs ys : List A} → x ∷ xs ≡ y ∷ ys → x ≡ y
  head_of e = cc e

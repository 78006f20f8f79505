-- ===== src/Pipeline/Threads/Progress.antt =====
-- What is left to the threads, and the steps that make it less.
use itch_lob_engine.Base.{
  ◌*◌, ◌-◌, ◌+◌, ◌≤◌, ◌<◌, ◌≡◌, ◌⊎◌, ◌∙◌, ◌∷◌, ℕ, suc, refl, ap, inl, inr, Bool, true, false, List,
  [], arith, length, Bool-cases, ≢→==,
}
use itch_lob_engine.Pipeline.Spsc.{write, publish, is_full, is_empty, front}
use itch_lob_engine.Pipeline.Spsc.Window.{is_full_lem}
use itch_lob_engine.Pipeline.Threads.{
  Producer, ready, writing, publishing, ended, Consumer, polling, reading, freeing, checking,
  finished, System, Step, admitted, writes, publishes, ends, finds_none, drained, finds_some, reads,
  frees, sees_done, yields, Reach, here, later,
}
use itch_lob_engine.Pipeline.Threads.Invariant.{Inv, at_producer, at_consumer, found_none}

-- What is left to the parser thread, with `n` entries to push.
abbrev pub weight : Producer → ℕ → ℕ
weight ready n = 6 * n + 1
weight writing n = 6 * n
weight publishing n = 6 * n - 1
weight ended n = 0

-- What is left to the book-builder thread, with `c` entries in the ring.
abbrev pub rank : {A : Type 0} → Consumer A → Bool → ℕ → ℕ
rank (polling true) done c = 3 * c + 1
rank (polling false) done c = 3 * c + 3
rank (reading true) done c = 3 * c
rank (reading false) done c = 3 * c + 2
rank (freeing true _) done c = 3 * c - 1
rank (freeing false _) done c = 3 * c + 1
rank checking true c = 3 * c + 2
rank checking false c = 3 * c + 4
rank finished done c = 0

module _ {A S : Type 0} (apply : A → S → S) (entries : List A) (init : S) where
  -- The ring holds the entries that are neither still to push nor applied.
  abbrev pub left : System A S → ℕ
  left s =
      weight s.producer (length s.todo)
      + rank s.consumer s.done (length entries - s.frames - length s.todo)

  abbrev pub Finishes : System A S → Type 0
  Finishes s = (t : System A S) × Reach apply s t × (t.consumer ≡ finished)

  pub prepend : {s t u : System A S} → Step apply s t → Reach apply t u → Reach apply s u
  prepend step here = later here step
  prepend step (later r last) = later (prepend step r) last

  -- A step that makes what is left less.
  abbrev pub Advances : System A S → Type 0
  Advances s = (t : System A S) × Step apply s t × (left t < left s)

  -- Between its rounds the consumer does not look at the flag, and each entry is worth 3.
  rank-polling_done :
      (b : Bool) (d e : Bool) (c : ℕ) → rank {A = A} (polling b) d c ≡ rank {A = A} (polling b) e c
  rank-polling_done true d e c = refl
  rank-polling_done false d e c = refl

  rank-polling_more :
      (b : Bool) (d : Bool) (c : ℕ)
      → rank {A = A} (polling b) d (c + 1) ≡ rank {A = A} (polling b) d c + 3
  rank-polling_more true d c = omega arith
  rank-polling_more false d c = omega arith

  List-cases : (xs : List A) → (xs ≡ []) ⊎ ((v : A) × (vs : List A) × (xs ≡ v ∷ vs))
  List-cases [] = inl refl
  List-cases (v ∷ vs) = inr (v, vs, refl)

  module _ (s : System A S) (i : Inv apply entries init s) where
    -- The number of entries in the ring.
    abbrev held : ℕ
    held = length entries - s.frames - length s.todo

    rank_at : {c : Consumer A} → s.consumer ≡ c → rank s.consumer s.done held ≡ rank c s.done held
    rank_at at = ap (λ k. rank k s.done held) at

    weight_at :
        {p : Producer}
        → s.producer ≡ p
        → weight s.producer (length s.todo) ≡ weight p (length s.todo)
    weight_at at = ap (λ k. weight k (length s.todo)) at

    -- The consumer goes on from where it is within a round.
    finds : (b : Bool) → s.consumer ≡ polling b → is_empty s.ring ≡ false → Advances s
    finds true at more =
        (record s { consumer = reading true }, finds_some at more, omega (arith, rank_at at))
    finds false at more =
        (record s { consumer = reading false }, finds_some at more, omega (arith, rank_at at))

    goes_on_reading : (b : Bool) → s.consumer ≡ reading b → Advances s
    goes_on_reading true at =
        let some_held : i.hd < i.tl = (at_consumer apply entries init s i at).0 in
        (
          record s { consumer = freeing true (front s.ring) },
          reads at,
          omega (arith, rank_at at, i.counted, some_held),
        )
    goes_on_reading false at =
        (record s { consumer = freeing false (front s.ring) }, reads at, omega (arith, rank_at at))

    goes_on_freeing : (b : Bool) (v : A) → s.consumer ≡ freeing b v → Advances s
    goes_on_freeing true v at =
        let some_held : i.hd < i.tl = (at_consumer apply entries init s i at).0 in
        (_, frees at, omega (arith, rank_at at, i.counted, some_held))
    goes_on_freeing false v at =
        let some_held : i.hd < i.tl = (at_consumer apply entries init s i at).0 in
        (_, frees at, omega (arith, rank_at at, i.counted, some_held))

    looks : s.consumer ≡ checking → Advances s
    looks at = elim (Bool-cases s.done) [
      | inl done ↦
          let now = ap (λ d. rank {A = A} checking d held) done in
          (record s { consumer = polling true }, sees_done at done, omega (arith, rank_at at, now))
      | inr running ↦
          let now = ap (λ d. rank {A = A} checking d held) running in
          (record s { consumer = polling false }, yields at running, omega (arith, rank_at at, now))
    ]

    -- The ring is empty, and the parser thread goes on.
    produces :
        (p : Producer) (b : Bool)
        → s.producer ≡ p
        → s.consumer ≡ polling b
        → is_empty s.ring ≡ true
        → 2 ≤ s.ring.capacity
        → Advances s
    produces ready b at c_at none_held room = elim (List-cases s.todo) [
      | inl none_left ↦
          let flag = rank-polling_done b s.done true held in
          let after = ap (λ k. rank k true held) c_at in
          (
            record s { done = true; producer = ended },
            ends at none_left,
            omega (arith, rank_at c_at, weight_at at, flag, after),
          )
      | inr (v, vs, first) ↦
          let same = found_none apply entries init s i none_held in
          let free : is_full s.ring ≡ false =
            is_full_lem s.ring i.hd i.tl i.holds
            ∙ ≢→== (i.tl + 1) (i.hd + s.ring.capacity) (λ e. absurd (omega arith)) in
          (record s { producer = writing }, admitted at first free, omega (arith, weight_at at))
    ]
    produces writing b at c_at none_held room =
        let more = (at_producer apply entries init s i at).1 in
        elim (List-cases s.todo) [
          | inl none_left ↦ absurd (omega (arith, ap (λ (xs : List A). length xs) none_left))
          | inr (v, vs, first) ↦ (
            record s { ring = write v s.ring; producer = publishing },
            writes at first,
            omega (arith, weight_at at, more),
          )
        ]
    produces publishing b at c_at none_held room =
        let more = (at_producer apply entries init s i at).1 in
        elim (List-cases s.todo) [
          | inl none_left ↦ absurd (omega (arith, ap (λ (xs : List A). length xs) none_left))
          | inr (v, vs, first) ↦
              let size : length s.todo ≡ suc (length vs) = ap (λ (xs : List A). length xs) first in
              let grown : length entries - s.frames - length vs ≡ held + 1 =
                omega (arith, i.counted) in
              let worth =
                ap (λ k. rank k s.done (length entries - s.frames - length vs)) c_at
                ∙ ap (λ c. rank {A = A} (polling b) s.done c) grown
                ∙ rank-polling_more b s.done held in
              (
                record s { ring = publish s.ring; todo = vs; producer = ready },
                publishes at first,
                omega (arith, weight_at at, rank_at c_at, size, worth),
              )
        ]
    produces ended true at c_at none_held room =
        (record s { consumer = finished }, drained c_at none_held, omega (arith, rank_at c_at))
    produces ended false at c_at none_held room =
        let done = (at_producer apply entries init s i at).0 in
        let now = ap (λ d. rank {A = A} checking d held) done in
        (
          record s { consumer = checking },
          finds_none c_at none_held,
          omega (arith, rank_at c_at, now),
        )

    -- A step that makes what is left less, unless the consumer has finished.
    pub progress :
        (c : Consumer A)
        → s.consumer ≡ c
        → 2 ≤ s.ring.capacity
        → (s.consumer ≡ finished) ⊎ Advances s
    progress (polling b) at room = elim (Bool-cases (is_empty s.ring)) [
      | inl none_held ↦ inr (produces s.producer b refl at none_held room)
      | inr more ↦ inr (finds b at more)
    ]
    progress (reading b) at room = inr (goes_on_reading b at)
    progress (freeing b v) at room = inr (goes_on_freeing b v at)
    progress checking at room = inr (looks at)
    progress finished at room = inl at

-- ===== src/Pipeline/Snapshot/Publishing.antt =====
-- What the server's snapshots show of a replay.
use itch_lob_engine.Base.{
  ◌^◌, ◌*◌, ◌/◌, ◌%◌, ◌+◌, ◌<◌, ◌≡◌, ◌∙◌, ◌∷◌, ◌==◌, if◌then◌else◌, ℕ, refl, ap, subst, inl, inr,
  false, List, [], arith, ltb, Bool-cases,
}
use native.Mathlib.Nat.{add-mul, add-mul-div_right, div-eq_of_lt, le-mul_of_pos_right}
use itch_lob_engine.Itch.Messages.{Call}
use itch_lob_engine.Pipeline.BookBuilder.{BookOps, BookBuilder, handle, empty_builder}
use itch_lob_engine.Pipeline.BookBuilder.Routing.{handle_all}
use itch_lob_engine.Pipeline.Snapshot.{
  BookQueries, snapshot_book_table, empty_store, publish, PublishingHandler, touches_book,
  publish_now, maybe_publish, on_call, on_calls, run,
}

-- The callbacks that count towards a publication.
abbrev pub touched : List Call → ℕ
touched [] = 0
touched (c ∷ cs) = (if touches_book c then 1 else 0) + touched cs

module _ {B : Type 0} (ops : BookOps B) (queries : BookQueries B) (every : ℕ) where
  -- `maybe_publish` leaves the books alone, and counts on or publishes.
  abbrev Counts : ℕ → PublishingHandler B → Type 0
  Counts n p = (p.store.version * every + p.since_publish ≡ n) × (p.since_publish < every)

  maybe_publish-inner :
      (p : PublishingHandler B) → (maybe_publish ops queries every p).inner ≡ p.inner
  unfolding maybe_publish publish_now
  maybe_publish-inner p = ground arith

  maybe_publish-Counts :
      (n : ℕ) (p : PublishingHandler B)
      → 0 < every
      → every < 2 ^ 64
      → n + 1 < 2 ^ 64
      → Counts n p
      → Counts (n + 1) (maybe_publish ops queries every p)
  unfolding maybe_publish publish_now publish
  maybe_publish-Counts n p pos fits small (sum, lt) =
      let v : ℕ = p.store.version in
      let never : (every == 0) ≡ false = ground arith in
      let whole : (p.since_publish + 1) % 2 ^ 64 ≡ p.since_publish + 1 = omega arith in
      elim (Bool-cases (ltb ((p.since_publish + 1) % 2 ^ 64) every)) [
        | inl less ↦ rw (never, less) (omega arith, ground arith)
        | inr full ↦
            let last : p.since_publish + 1 ≡ every = ground arith in
            let next : (v + 1) % 2 ^ 64 ≡ v + 1 = omega (arith, sum, le-mul_of_pos_right v pos) in
            rw (never, full)
              (ap (λ x. x * every + 0) next ∙ omega (arith, sum, add-mul v 1 every, last), pos)
      ]

  on_call-inner :
      (c : Call) (p : PublishingHandler B)
      → (on_call ops queries every c p).inner ≡ handle ops c p.inner
  unfolding on_call
  on_call-inner c p = elim (Bool-cases (touches_book c)) [
    | inl yes_it_does ↦
        rw yes_it_does (maybe_publish-inner (record p { inner = handle ops c p.inner }))
    | inr no_it_does_not ↦ rw no_it_does_not refl
  ]

  on_calls-inner :
      (cs : List Call) (p : PublishingHandler B)
      → (on_calls ops queries every cs p).inner ≡ handle_all ops cs p.inner
  unfolding on_calls handle_all
  on_calls-inner [] p = refl
  on_calls-inner (c ∷ cs) p =
      on_calls-inner cs (on_call ops queries every c p) ∙ ap (handle_all ops cs) (on_call-inner c p)

  on_call-Counts :
      (c : Call) (n : ℕ) (p : PublishingHandler B)
      → 0 < every
      → every < 2 ^ 64
      → n + (if touches_book c then 1 else 0) < 2 ^ 64
      → Counts n p
      → Counts (n + (if touches_book c then 1 else 0)) (on_call ops queries every c p)
  unfolding on_call
  on_call-Counts c n p pos fits small h = elim (Bool-cases (touches_book c)) [
    | inl does ↦ rw does (
        maybe_publish-Counts n (record p { inner = handle ops c p.inner }) pos fits (ground arith)
          h)
    | inr does_not ↦ rw does_not (subst (λ m. Counts m p) (let e : n ≡ n + 0 = omega arith in e) h)
  ]

  on_calls-Counts :
      (cs : List Call) (n : ℕ) (p : PublishingHandler B)
      → 0 < every
      → every < 2 ^ 64
      → n + touched cs < 2 ^ 64
      → Counts n p
      → Counts (n + touched cs) (on_calls ops queries every cs p)
  unfolding on_calls
  on_calls-Counts [] n p pos fits small h =
      subst (λ m. Counts m p) (let e : n ≡ n + 0 = omega arith in e) h
  on_calls-Counts (c ∷ cs) n p pos fits small h =
      let one : ℕ = if touches_book c then 1 else 0 in
      subst (λ m. Counts m (on_calls ops queries every cs (on_call ops queries every c p)))
        (let e : n + one + touched cs ≡ n + (one + touched cs) = omega arith in e)
        (on_calls-Counts cs (n + one) (on_call ops queries every c p) pos fits (omega arith)
          (on_call-Counts c n p pos fits (omega arith) h))

  -- After a replay the books are those that the book builder alone makes, and the store serves the
  -- snapshot of these, with their count of unknown references.
  pub run-serves :
      (cs : List Call)
      → let p : PublishingHandler B = run ops queries every cs in
        let h : BookBuilder B = handle_all ops cs empty_builder in
        (p.inner ≡ h)
        × (p.store.snapshots ≡ snapshot_book_table queries h.books)
        × (p.store.unknown_refs ≡ h.unknown_refs)
  unfolding run publish_now publish
  run-serves cs =
      let e =
        on_calls-inner cs
          (record { inner = empty_builder; store = empty_store; since_publish = 0 }) in
      (
        e,
        ap (λ (h : BookBuilder B). snapshot_book_table queries h.books) e,
        ap (λ (h : BookBuilder B). h.unknown_refs) e,
      )

  -- Fewer than 2^64 callbacks that touch a book, and a positive period below 2^64: the store has been
  -- published once for every full period of these callbacks, and once at the end.
  pub run-version :
      (cs : List Call)
      → 0 < every
      → every < 2 ^ 64
      → touched cs + 1 < 2 ^ 64
      → (run ops queries every cs).store.version ≡ touched cs / every + 1
  unfolding run publish_now publish
  run-version cs pos fits small =
      let p : PublishingHandler B =
        on_calls ops queries every cs
          (record { inner = empty_builder; store = empty_store; since_publish = 0 }) in
      let (sum, lt) =
        on_calls-Counts cs 0
          (record { inner = empty_builder; store = empty_store; since_publish = 0 }) pos fits
          (omega arith) (omega arith, pos) in
      let v : ℕ = p.store.version in
      let quotient : touched cs / every ≡ v =
        ap (λ n. n / every)
          (let e : touched cs ≡ p.since_publish + v * every = omega (arith, sum) in e)
        ∙ add-mul-div_right p.since_publish v pos
        ∙ ap (λ n. n + v) (div-eq_of_lt lt)
        ∙ omega arith in
      omega (arith, quotient, sum, le-mul_of_pos_right v pos)

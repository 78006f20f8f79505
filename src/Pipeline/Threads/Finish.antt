-- ===== src/Pipeline/Threads/Finish.antt =====
-- How both threads end, from wherever they stand.
use itch_lob_engine.Base.{◌≤◌, ◌≡◌, ◌∙◌, ℕ, zero, suc, refl, inl, inr, List, arith, length}
use itch_lob_engine.Pipeline.Threads.{
  finished, System, Step, admitted, writes, publishes, ends, finds_none, drained, finds_some, reads,
  frees, sees_done, yields, Reach, here, later, start, apply_all, refused, ended,
}
use itch_lob_engine.Pipeline.Threads.Invariant.{Inv, Step-Inv, start-Inv, Reach-Inv}
use itch_lob_engine.Pipeline.Threads.Outcome.{finished-ended, finished-result}
use itch_lob_engine.Pipeline.Threads.Progress.{left, Finishes, prepend, progress}

module _ {A S : Type 0} (apply : A → S → S) (entries : List A) (init : S) where
  Step-capacity : {s t : System A S} → Step apply s t → t.ring.capacity ≡ s.ring.capacity
  Step-capacity (refused _ _ _) = refl
  Step-capacity (admitted _ _ _) = refl
  Step-capacity (writes _ _) = refl
  Step-capacity (publishes _ _) = refl
  Step-capacity (ends _ _) = refl
  Step-capacity (finds_none _ _) = refl
  Step-capacity (drained _ _) = refl
  Step-capacity (finds_some _ _) = refl
  Step-capacity (reads _) = refl
  Step-capacity (frees _) = refl
  Step-capacity (sees_done _ _) = refl
  Step-capacity (yields _ _) = refl

  Reach-capacity : {s t : System A S} → Reach apply s t → t.ring.capacity ≡ s.ring.capacity
  Reach-capacity here = refl
  Reach-capacity (later r last) = Step-capacity last ∙ Reach-capacity r

  finish_from :
      (n : ℕ) (s : System A S)
      → Inv apply entries init s
      → 2 ≤ s.ring.capacity
      → left apply entries init s ≤ n
      → Finishes apply entries init s
  finish_from zero s i room le = elim (progress apply entries init s i s.consumer refl room) [
    | inl done ↦ (s, here, done)
    | inr (t, step, lt) ↦ absurd (omega arith)
  ]
  finish_from (suc n) s i room le = elim (progress apply entries init s i s.consumer refl room) [
    | inl done ↦ (s, here, done)
    | inr (t, step, lt) ↦
        let (u, r, done) =
          finish_from n t (Step-Inv apply entries init i step) (omega (arith, Step-capacity step))
            (omega arith) in
        (u, prepend apply entries init step r, done)
  ]

  Reach-append : {s t u : System A S} → Reach apply s t → Reach apply t u → Reach apply s u
  Reach-append r here = r
  Reach-append r (later q last) = later (Reach-append r q) last

  -- With a ring of two slots or more, both threads can end from wherever they stand.
  pub can_finish :
      {s : System A S} (capacity : ℕ) (blank : A)
      → 2 ≤ capacity
      → Reach apply (start apply capacity blank entries init) s
      → (t : System A S) × Reach apply s t
        × (t.producer ≡ ended)
        × (t.consumer ≡ finished)
        × (t.result ≡ apply_all apply entries init)
        × (t.frames ≡ length entries)
  can_finish {s} capacity blank room r =
      let i =
        Reach-Inv apply entries init (start-Inv apply entries init capacity blank (omega arith))
          r in
      let (t, q, done) =
        finish_from (left apply entries init s) s i (omega (arith, Reach-capacity r))
          (omega arith) in
      let (over, none_left) =
        finished-ended apply entries init capacity blank (omega arith) (Reach-append r q) done in
      let (result, count) =
        finished-result apply entries init capacity blank (omega arith) (Reach-append r q) done in
      (t, q, over, done, result, count)

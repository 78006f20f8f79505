-- ===== src/Pipeline/Threads/Outcome.antt =====
-- What has happened once the consumer has finished.
use itch_lob_engine.Base.{◌-◌, ◌<◌, ◌≡◌, ◌∙◌, ◌++◌, ℕ, sym, ap, subst, List, [], arith, length}
use itch_lob_engine.Pipeline.Spsc.Window.{items}
use itch_lob_engine.Pipeline.Threads.{ended, finished, System, Reach, start, apply_all}
use itch_lob_engine.Pipeline.Threads.Stations.{Producing, Producing-done, Producing-ended}
use itch_lob_engine.Pipeline.Threads.Invariant.{start-Inv, Reach-Inv, at_consumer}

module _ {A S : Type 0} (apply : A → S → S) (entries : List A) (init : S) where
  -- Once the consumer has finished, so has the parser, and nothing is left to push.
  pub finished-ended :
      {s : System A S} (capacity : ℕ) (blank : A)
      → 0 < capacity
      → Reach apply (start apply capacity blank entries init) s
      → s.consumer ≡ finished
      → (s.producer ≡ ended) × (s.todo ≡ [])
  finished-ended {s} capacity blank pos r at =
      let i = Reach-Inv apply entries init (start-Inv apply entries init capacity blank pos) r in
      let (same, done) = at_consumer apply entries init s i at in
      let producing =
        subst (λ d. Producing s.producer s.ring d s.todo i.hd i.tl) done i.producing in
      (
        Producing-ended s.producer s.ring s.todo i.hd i.tl producing,
        Producing-done s.producer s.ring s.todo i.hd i.tl producing,
      )

  pub finished-result :
      {s : System A S} (capacity : ℕ) (blank : A)
      → 0 < capacity
      → Reach apply (start apply capacity blank entries init) s
      → s.consumer ≡ finished
      → (s.result ≡ apply_all apply entries init) × (s.frames ≡ length entries)
  finished-result {s} capacity blank pos r at =
      let i = Reach-Inv apply entries init (start-Inv apply entries init capacity blank pos) r in
      let (same, done) = at_consumer apply entries init s i at in
      let none_left : s.todo ≡ [] = (finished-ended capacity blank pos r at).1 in
      let none_held : i.tl - i.hd ≡ 0 = omega arith in
      (
        ap
              (λ (xs : List A).
                apply_all apply (items s.ring.capacity s.ring.blank s.ring.buf i.hd 0 ++ xs)
                  s.result)
              (sym none_left)
            ∙ ap
                (λ n.
                  apply_all apply (items s.ring.capacity s.ring.blank s.ring.buf i.hd n ++ s.todo)
                    s.result)
                (sym none_held)
            ∙ i.owed,
        omega (arith, i.counted, ap (λ (xs : List A). length xs) none_left),
      )

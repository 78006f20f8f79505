-- ===== src/Pipeline/Threads/Replay.antt =====
-- `run_pipeline` of include/pipeline/threaded_replay.hpp with the book builder behind the queue: what
-- the two threads build from the callbacks of a parse.
use itch_lob_engine.Base.{
  ◌<◌, ◌≡◌, ◌∙◌, ◌∷◌, ℕ, suc, refl, ap, Option, none, some, List, [], map, length, ◌≤◌,
}
use itch_lob_engine.Itch.Messages.{Call}
use itch_lob_engine.Pipeline.BookBuilder.{BookOps, BookBuilder, handle, empty_builder}
use itch_lob_engine.Pipeline.BookBuilder.Routing.{handle_all}
use itch_lob_engine.Pipeline.Envelope.{
  Envelope, envelope, dispatch_to_book, IsCarried, no_add, add, dispatch_to_book-envelope,
}
use itch_lob_engine.Pipeline.Threads.{System, finished, Reach, start, apply_all, ended}
use itch_lob_engine.Pipeline.Threads.Outcome.{finished-result}
use itch_lob_engine.Pipeline.Threads.Finish.{can_finish}

-- What a slot of the ring holds before its first write.
abbrev pub blank_envelope : Envelope
blank_envelope = record { type = 0; payload = add no_add }

abbrev pub AllCarried : List Call → Type 0
AllCarried [] = Unit {0}
AllCarried (c ∷ cs) = IsCarried c × AllCarried cs

module _ {B : Type 0} (ops : BookOps B) where
  -- `consume` for one entry; undefined behaviour stops the model.
  abbrev pub replay : Envelope → Option (BookBuilder B) → Option (BookBuilder B)
  replay e none = none
  replay e (some h) = dispatch_to_book ops e h

  -- The two threads of `run_pipeline` at their start, for the callbacks of a parse.
  abbrev pub pipeline : ℕ → List Call → System Envelope (Option (BookBuilder B))
  pipeline capacity cs = start replay capacity blank_envelope (map envelope cs) (some empty_builder)

  apply_all-envelope :
      (cs : List Call) (h : BookBuilder B)
      → AllCarried cs
      → apply_all replay (map envelope cs) (some h) ≡ some (handle_all ops cs h)
  unfolding handle_all
  apply_all-envelope [] h ok = refl
  apply_all-envelope (c ∷ cs) h (ok, oks) =
      ap (apply_all replay (map envelope cs)) (dispatch_to_book-envelope ops c h ok)
      ∙ apply_all-envelope cs (handle ops c h) oks

  length-envelope : (cs : List Call) → length (map envelope cs) ≡ length cs
  length-envelope [] = refl
  length-envelope (c ∷ cs) = ap suc (length-envelope cs)

  -- However the steps of the two threads interleave, with any ring of one slot or more: once the
  -- consumer has finished, it has built from the callbacks of a parse what the book builder makes of
  -- them directly, and has counted each once, where none of them is for a corrupt frame of a decoded
  -- type.
  pub pipeline-handle_all :
      {s : System Envelope (Option (BookBuilder B))} (capacity : ℕ) (cs : List Call)
      → 0 < capacity
      → AllCarried cs
      → Reach replay (pipeline capacity cs) s
      → s.consumer ≡ finished
      → (s.result ≡ some (handle_all ops cs empty_builder)) × (s.frames ≡ length cs)
  pipeline-handle_all {s} capacity cs pos ok r at =
      let (built, count) =
        finished-result replay (map envelope cs) (some empty_builder) capacity blank_envelope pos r
          at in
      (built ∙ apply_all-envelope cs empty_builder ok, count ∙ length-envelope cs)

  -- With a ring of two slots or more, wherever the two threads stand, there are steps after which both
  -- have ended, the parser and the consumer, and the consumer has built from the callbacks what the book builder makes of them directly, and has counted
  -- each once, where none of them is for a corrupt frame of a decoded type.
  pub pipeline_finishes :
      {s : System Envelope (Option (BookBuilder B))} (capacity : ℕ) (cs : List Call)
      → 2 ≤ capacity
      → AllCarried cs
      → Reach replay (pipeline capacity cs) s
      → (t : System Envelope (Option (BookBuilder B))) × Reach replay s t
        × (t.producer ≡ ended)
        × (t.consumer ≡ finished)
        × (t.result ≡ some (handle_all ops cs empty_builder))
        × (t.frames ≡ length cs)
  pipeline_finishes {s} capacity cs room ok r =
      let (t, q, over, done, built, count) =
        can_finish replay (map envelope cs) (some empty_builder) capacity blank_envelope room r in
      (t, q, over, done, built ∙ apply_all-envelope cs empty_builder ok, count ∙ length-envelope cs)

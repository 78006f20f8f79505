-- ===== src/Pipeline/Threads.antt =====
-- The two threads of `run_pipeline` of include/pipeline/threaded_replay.hpp: `push_spin` in the
-- parser thread and `consume` in the book-builder thread, one access to shared memory at a time, in
-- any order. Acquire and release make the accesses of two threads to the indices and the slots
-- sequentially consistent here. `apply` is what the consumer does with an entry.
pub mod Stations
pub mod Invariant
pub mod Progress
pub mod Finish
pub mod Outcome
pub mod Replay
use itch_lob_engine.Base.{
  ◌^◌, ◌*◌, ◌/◌, ◌%◌, ◌-◌, ◌+◌, ◌≤◌, ◌<◌, ◌≡◌, ◌≢◌, ◌↔◌, ◌⊎◌, ◌&&◌, ◌||◌, ◌∙◌, ◌∷◌, ◌++◌, ◌==◌,
  if◌then◌else◌, ℕ, zero, suc, min, max, refl, sym, ap, ap₂, subst, inl, inr, Bool, true, false,
  not, Option, none, some, List, [], map, arith, ltb, leb, length, get_or, set, take, drop,
  replicate, append-nil, append_assoc, Bool-cases, Option-cases, length-append, length-set,
  length-replicate, get_or-set_self, get_or-set_ne, get_or-replicate, ==→≡, ≡→==, ==→≢, ≢→==,
  length-drop, length-take_le, drop-nil, take-nil, drop-add, drop-take_add, take-take_le,
  get_or-take, take-append_le, drop-append_le, get_or-append,
}
use itch_lob_engine.Pipeline.Spsc.{
  Ring, new_ring, is_full, is_empty, write, publish, front, release,
}

-- Where the parser thread stands: before its load of `head_`, before its write of the slot, before
-- its store of `tail_`, and after its store of `producer_done`.
pub data Producer : Type 0 where
  ready writing publishing ended : Producer

-- Where the book-builder thread stands: before its load of `tail_`, before its read of the slot,
-- before its store of `head_` with what it has read, before its load of `producer_done`, and after
-- its loop. The flag tells the loop that drains the queue.
pub data Consumer {ℓ} (A : Type ℓ) : Type ℓ where
  polling : Bool → Consumer A
  reading : Bool → Consumer A
  freeing : Bool → A → Consumer A
  checking : Consumer A
  finished : Consumer A

pub record System (A S : Type 0) : Type 0 where
  pub ring : Ring A
  pub todo : List A
  pub producer : Producer
  pub done : Bool
  pub consumer : Consumer A
  pub result : S
  pub frames : ℕ

module _ {A S : Type 0} (apply : A → S → S) where
  pub data Step (s : System A S) : System A S → Type 0 where
    -- The parser thread. A refused push is tried again.
    refused :
        {v : A} {vs : List A}
        → s.producer ≡ ready
        → s.todo ≡ v ∷ vs
        → is_full s.ring ≡ true
        → Step s s
    admitted :
        {v : A} {vs : List A}
        → s.producer ≡ ready
        → s.todo ≡ v ∷ vs
        → is_full s.ring ≡ false
        → Step s (record s { producer = writing })
    writes :
        {v : A} {vs : List A}
        → s.producer ≡ writing
        → s.todo ≡ v ∷ vs
        → Step s (record s { ring = write v s.ring; producer = publishing })
    publishes :
        {v : A} {vs : List A}
        → s.producer ≡ publishing
        → s.todo ≡ v ∷ vs
        → Step s (record s { ring = publish s.ring; todo = vs; producer = ready })
    ends : s.producer ≡ ready → s.todo ≡ [] → Step s (record s { done = true; producer = ended })
    -- The book-builder thread.
    finds_none :
        s.consumer ≡ polling false
        → is_empty s.ring ≡ true
        → Step s (record s { consumer = checking })
    drained :
        s.consumer ≡ polling true
        → is_empty s.ring ≡ true
        → Step s (record s { consumer = finished })
    finds_some :
        {b : Bool}
        → s.consumer ≡ polling b
        → is_empty s.ring ≡ false
        → Step s (record s { consumer = reading b })
    reads :
        {b : Bool}
        → s.consumer ≡ reading b
        → Step s (record s { consumer = freeing b (front s.ring) })
    frees :
        {b : Bool} {v : A}
        → s.consumer ≡ freeing b v
        → Step s (record s {
          ring = release s.ring;
          consumer = polling b;
          result = apply v s.result;
          frames = s.frames + 1;
        })
    sees_done :
        s.consumer ≡ checking → s.done ≡ true → Step s (record s { consumer = polling true })
    yields : s.consumer ≡ checking → s.done ≡ false → Step s (record s { consumer = polling false })

  pub data Reach (s : System A S) : System A S → Type 0 where
    here : Reach s s
    later : {t u : System A S} → Reach s t → Step t u → Reach s u

  -- Both threads at their start, with a ring of `capacity` slots.
  abbrev pub start : ℕ → A → List A → S → System A S
  start capacity blank entries init = record {
    ring = new_ring capacity blank;
    todo = entries;
    producer = ready;
    done = false;
    consumer = polling false;
    result = init;
    frames = 0;
  }

  -- The entries one after the other.
  abbrev pub apply_all : List A → S → S
  apply_all [] r = r
  apply_all (v ∷ vs) r = apply_all vs (apply v r)

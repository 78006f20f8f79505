-- ===== src/Pipeline/Threads/Invariant.antt =====
-- What holds between the two threads at every moment, and what they have done once they end.
use mathlib.Core.Bool.{false≢true}
use itch_lob_engine.Base.{
  ◌-◌, ◌+◌, ◌≤◌, ◌<◌, ◌≡◌, ◌≢◌, ◌∙◌, ◌∷◌, ◌++◌, ℕ, refl, sym, ap, subst, inl, inr, Bool, true,
  false, List, [], arith, length, get_or, append_assoc, ==→≡, ==→≢,
}
use itch_lob_engine.Pipeline.Spsc.{Ring, is_full, is_empty, write, publish, front, release}
use itch_lob_engine.Pipeline.Spsc.Window.{
  Holds, contents, new_ring-Holds, is_empty_lem, is_full_lem, write-Holds, contents-write, written,
  front-write, publish-Holds, contents-publish, release-Holds, contents-release,
}
use itch_lob_engine.Pipeline.Threads.{
  Producer, ready, writing, publishing, ended, Consumer, polling, reading, freeing, checking,
  finished, System, Step, refused, admitted, writes, publishes, ends, finds_none, drained,
  finds_some, reads, frees, sees_done, yields, Reach, here, later, start, apply_all,
}
use itch_lob_engine.Pipeline.Threads.Stations.{
  Producing, Consuming, Consuming-kept, Consuming-ended, Producing-release, head_of,
}

-- The ring holds the entries from `hd` to `tl`; what stands in it and what is still to push, applied
-- to what the consumer has by now, gives what all entries give.
pub record Inv {A S : Type 0} (apply : A → S → S) (entries : List A) (init : S) (s : System A S)
    : Type 0 where
  pub hd : ℕ
  pub tl : ℕ
  pub holds : Holds s.ring hd tl
  pub owed :
      apply_all apply (contents s.ring hd tl ++ s.todo) s.result ≡ apply_all apply entries init
  pub counted : s.frames + (tl - hd) + length s.todo ≡ length entries
  pub producing : Producing s.producer s.ring s.done s.todo hd tl
  pub consuming : Consuming s.consumer s.ring s.done hd tl

module _ {A S : Type 0} (apply : A → S → S) (entries : List A) (init : S) where
  pub start-Inv :
      (capacity : ℕ) (blank : A)
      → 0 < capacity
      → Inv apply entries init (start apply capacity blank entries init)
  start-Inv capacity blank pos = record {
    hd = 0;
    tl = 0;
    holds = new_ring-Holds capacity blank pos;
    owed = refl;
    counted = omega arith;
    producing = refl;
    consuming = inl refl;
  }

  module _ (s : System A S) (i : Inv apply entries init s) where
    -- The parser thread where it stands at `p`, the book-builder thread where it stands at `c`.
    pub at_producer : {p : Producer} → s.producer ≡ p → Producing p s.ring s.done s.todo i.hd i.tl
    at_producer e = subst (λ p. Producing p s.ring s.done s.todo i.hd i.tl) e i.producing

    pub at_consumer : {c : Consumer A} → s.consumer ≡ c → Consuming c s.ring s.done i.hd i.tl
    at_consumer e = subst (λ c. Consuming c s.ring s.done i.hd i.tl) e i.consuming

    parser_change :
        (r : Ring A) (tl' : ℕ)
        → s.done ≡ false
        → i.tl ≤ tl'
        → (i.hd < i.tl → front r ≡ front s.ring)
        → Consuming s.consumer r s.done i.hd tl'
    parser_change r tl' running le same =
        subst (λ d. Consuming s.consumer r d i.hd tl') (sym running)
          (Consuming-kept s.consumer s.ring r i.hd i.tl tl' le same
            (subst (λ d. Consuming s.consumer s.ring d i.hd i.tl) running i.consuming))

    admitted-Inv :
        {v : A} {vs : List A}
        → s.producer ≡ ready
        → s.todo ≡ v ∷ vs
        → is_full s.ring ≡ false
        → Inv apply entries init (record s { producer = writing })
    admitted-Inv at first room = record {
      hd = i.hd;
      tl = i.tl;
      holds = i.holds;
      owed = i.owed;
      counted = i.counted;
      producing =
          let apart : i.tl + 1 ≢ i.hd + s.ring.capacity =
            ==→≢ _ _ (sym (is_full_lem s.ring i.hd i.tl i.holds) ∙ room) in
          (
            at_producer at,
            omega (arith, ap (λ (xs : List A). length xs) first),
            omega (arith, i.holds.fits, apart),
          );
      consuming = i.consuming;
    }

    writes-Inv :
        {v : A} {vs : List A}
        → s.producer ≡ writing
        → s.todo ≡ v ∷ vs
        → Inv apply entries init (record s { ring = write v s.ring; producer = publishing })
    writes-Inv {v} {vs} at first = record {
      hd = i.hd;
      tl = i.tl;
      holds = write-Holds s.ring i.hd i.tl i.holds v;
      owed =
          ap (λ (xs : List A). apply_all apply (xs ++ s.todo) s.result)
            (contents-write s.ring i.hd i.tl i.holds v)
          ∙ i.owed;
      counted = i.counted;
      producing =
          let (running, more, room) = at_producer at in
          (
            running,
            more,
            room,
            λ v' vs' e. written s.ring i.hd i.tl i.holds v ∙ head_of (sym first ∙ e),
          );
      consuming =
          parser_change (write v s.ring) i.tl (at_producer at).0 (omega arith)
            (λ lt. front-write s.ring i.hd i.tl i.holds lt v);
    }

    publishes-Inv :
        {v : A} {vs : List A}
        → s.producer ≡ publishing
        → s.todo ≡ v ∷ vs
        → Inv apply entries init (record s { ring = publish s.ring; todo = vs; producer = ready })
    publishes-Inv {v} {vs} at first =
        let (running, _, room, slot) = at_producer at in
        record {
          hd = i.hd;
          tl = i.tl + 1;
          holds = publish-Holds s.ring i.hd i.tl i.holds room;
          owed =
              ap (λ (xs : List A). apply_all apply (xs ++ vs) s.result)
                (contents-publish s.ring i.hd i.tl i.holds)
              ∙ ap (λ (xs : List A). apply_all apply xs s.result)
                  (append_assoc (contents s.ring i.hd i.tl)
                    (get_or s.ring.buf s.ring.tail s.ring.blank ∷ []) vs)
              ∙ ap (λ x. apply_all apply (contents s.ring i.hd i.tl ++ x ∷ vs) s.result)
                  (slot v vs first)
              ∙ ap (λ (xs : List A). apply_all apply (contents s.ring i.hd i.tl ++ xs) s.result)
                  (sym first)
              ∙ i.owed;
          counted =
              omega (arith, i.counted, ap (λ (xs : List A). length xs) first, i.holds.ordered);
          producing = running;
          consuming = parser_change (publish s.ring) (i.tl + 1) running (omega arith) (λ lt. refl);
        }

    ends-Inv :
        s.producer ≡ ready
        → s.todo ≡ []
        → Inv apply entries init (record s { done = true; producer = ended })
    ends-Inv at none_left = record {
      hd = i.hd;
      tl = i.tl;
      holds = i.holds;
      owed = i.owed;
      counted = i.counted;
      producing = (refl, none_left);
      consuming =
          Consuming-ended s.consumer s.ring i.hd i.tl
            (subst (λ d. Consuming s.consumer s.ring d i.hd i.tl) (at_producer at) i.consuming);
    }

    -- A step of the book-builder thread that only moves it on.
    moves-Inv :
        (c : Consumer A)
        → Consuming c s.ring s.done i.hd i.tl
        → Inv apply entries init (record s { consumer = c })
    moves-Inv c h = record {
      hd = i.hd;
      tl = i.tl;
      holds = i.holds;
      owed = i.owed;
      counted = i.counted;
      producing = i.producing;
      consuming = h;
    }

    frees-Inv :
        {b : Bool} {v : A}
        → s.consumer ≡ freeing b v
        → Inv apply entries init (record s {
          ring = release s.ring;
          consumer = polling b;
          result = apply v s.result;
          frames = s.frames + 1;
        })
    frees-Inv {b} {v} at =
        let (lt, flag, read) = at_consumer at in
        record {
          hd = i.hd + 1;
          tl = i.tl;
          holds = release-Holds s.ring i.hd i.tl i.holds lt;
          owed =
              ap
                (λ x.
                  apply_all apply (contents (release s.ring) (i.hd + 1) i.tl ++ s.todo)
                    (apply x s.result))
                read
              ∙ ap (λ (xs : List A). apply_all apply (xs ++ s.todo) s.result)
                  (sym (contents-release s.ring i.hd i.tl i.holds lt))
              ∙ i.owed;
          counted = omega (arith, i.counted);
          producing = Producing-release s.producer s.ring s.done s.todo i.hd i.tl i.producing;
          consuming = flag;
        }

    -- What the two loads of the indices by the consumer say.
    pub found_some : is_empty s.ring ≡ false → i.hd < i.tl
    found_some h =
        omega
          (arith, i.holds.ordered, ==→≢ i.hd i.tl (sym (is_empty_lem s.ring i.hd i.tl i.holds) ∙ h))

    pub found_none : is_empty s.ring ≡ true → i.hd ≡ i.tl
    found_none h = ==→≡ i.hd i.tl (sym (is_empty_lem s.ring i.hd i.tl i.holds) ∙ h)

    drained-Inv :
        s.consumer ≡ polling true
        → is_empty s.ring ≡ true
        → Inv apply entries init (record s { consumer = finished })
    drained-Inv at h = elim (at_consumer at) [
      | inl e ↦ absurd (false≢true (sym e))
      | inr done ↦ moves-Inv finished (found_none h, done)
    ]

  pub Step-Inv :
      {s t : System A S} → Inv apply entries init s → Step apply s t → Inv apply entries init t
  Step-Inv {s} i (refused at first full) = i
  Step-Inv {s} i (admitted at first room) = admitted-Inv s i at first room
  Step-Inv {s} i (writes at first) = writes-Inv s i at first
  Step-Inv {s} i (publishes at first) = publishes-Inv s i at first
  Step-Inv {s} i (ends at none_left) = ends-Inv s i at none_left
  Step-Inv {s} i (finds_none at h) = moves-Inv s i checking tt
  Step-Inv {s} i (drained at h) = drained-Inv s i at h
  Step-Inv {s} i (finds_some {b} at h) =
      moves-Inv s i (reading b) (found_some s i h, at_consumer s i at)
  Step-Inv {s} i (reads {b} at) =
      let (lt, flag) = at_consumer s i at in
      moves-Inv s i (freeing b (front s.ring)) (lt, flag, refl)
  Step-Inv {s} i (frees at) = frees-Inv s i at
  Step-Inv {s} i (sees_done at h) = moves-Inv s i (polling true) (inr h)
  Step-Inv {s} i (yields at h) = moves-Inv s i (polling false) (inl refl)

  pub Reach-Inv :
      {s t : System A S} → Inv apply entries init s → Reach apply s t → Inv apply entries init t
  Reach-Inv i here = i
  Reach-Inv i (later r last) = Step-Inv (Reach-Inv i r) last

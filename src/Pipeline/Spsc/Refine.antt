-- ===== src/Pipeline/Spsc/Refine.antt =====
-- The ring and a bounded queue, for one caller at a time: what push, pop and size do to the list of
-- its entries.
use itch_lob_engine.Base.{
  ◌-◌, ◌+◌, ◌≡◌, ◌∙◌, ◌∷◌, ◌++◌, ◌==◌, if◌then◌else◌, ℕ, sym, ap, Bool, true, false, Option, none,
  some, List, [], arith, length, ◌%◌, ◌≤◌, ◌<◌, refl, ap₂, inl, inr, ltb, Bool-cases,
}
use native.Mathlib.Nat.{mod-add-mod, mod-lt, mod-eq_of_lt, add-mod_right, mod-eq-sub-mod}
use itch_lob_engine.Pipeline.Spsc.{
  Ring, is_full, push, pop, front, is_empty, new_ring, publish, release, size, write,
}
use itch_lob_engine.Pipeline.Spsc.Window.{
  length-items, Holds, contents, is_full_lem, contents-release, is_empty_lem, new_ring-Holds,
  release-Holds, publish-Holds, write-Holds, contents-publish, contents-write, written,
}

step_mod : (c a k : ℕ) → a < c → k < c → ((a + k) % c + c - a) % c ≡ k
step_mod c a k lt few = elim (Bool-cases (ltb (a + k) c)) [
  | inl low ↦
      let small : a + k < c = ground arith in
      let back : a + k + c - a ≡ k + c = omega arith in
      ap (λ t. (t + c - a) % c) (mod-eq_of_lt small)
      ∙ ap (λ t. t % c) back
      ∙ add-mod_right k c
      ∙ mod-eq_of_lt few
  | inr high ↦
      let big : c ≤ a + k = ground arith in
      let once : a + k - c < c = omega arith in
      let back : a + k - c + c - a ≡ k = omega arith in
      ap (λ t. (t + c - a) % c) (mod-eq-sub-mod big ∙ mod-eq_of_lt once)
      ∙ ap (λ t. t % c) back
      ∙ mod-eq_of_lt few
]

-- The distance of two counters less than a capacity apart, from their slots.
apart_mod : (c hd tl : ℕ) → hd ≤ tl → tl < hd + c → (tl % c + c - hd % c) % c ≡ tl - hd
apart_mod c hd tl le near =
    let k = tl - hd in
    let same : (hd % c + k) % c ≡ tl % c = mod-add-mod hd c k ∙ ap (λ j. j % c) (omega arith) in
    ap (λ t. (t + c - hd % c) % c) (sym same)
    ∙ step_mod c (hd % c) k (mod-lt hd (omega arith)) (omega arith)

pub data Op {ℓ} (A : Type ℓ) : Type ℓ where
  pushes : A → Op A
  pops : Op A

-- What a call gives back: whether it succeeded, and the entry that a pop takes out.
pub data Answer {ℓ} (A : Type ℓ) : Type ℓ where
  pushed : Bool → Answer A
  popped : Option A → Answer A

module _ {ℓ} {A : Type ℓ} where
  unfoldable pub call : Op A → Ring A → Answer A × Ring A
  unfolding push pop
  call (pushes v) q = let (done, q') = push v q in (pushed done, q')
  call pops q = let (got, q') = pop q in (popped got, q')

  unfoldable pub calls : List (Op A) → Ring A → List (Answer A) × Ring A
  unfolding call
  calls [] q = ([], q)
  calls (o ∷ os) q = let (a, q') = call o q in let (as', q'') = calls os q' in (a ∷ as', q'')

  -- The specification: a queue of at most `room` entries.
  abbrev pub bounded : ℕ → Op A → List A → Answer A × List A
  bounded room (pushes v) xs =
      if length xs == room then (pushed false, xs) else (pushed true, xs ++ v ∷ [])
  bounded room pops [] = (popped none, [])
  bounded room pops (x ∷ xs) = (popped (some x), xs)

  abbrev pub all_bounded : ℕ → List (Op A) → List A → List (Answer A) × List A
  all_bounded room [] xs = ([], xs)
  all_bounded room (o ∷ os) xs =
      let (a, xs') = bounded room o xs in
      let (as', xs'') = all_bounded room os xs' in (a ∷ as', xs'')

  -- The ring stands for the list of its entries.
  pub record Represents (q : Ring A) (room : ℕ) (xs : List A) : Type ℓ where
    pub hd : ℕ
    pub tl : ℕ
    pub holds : Holds q hd tl
    pub entries : contents q hd tl ≡ xs
    pub bound : q.capacity ≡ room + 1

  module _ (q : Ring A) (room : ℕ) (xs : List A) (r : Represents q room xs) where
    length-entries : length xs ≡ r.tl - r.hd
    length-entries =
        sym (ap length r.entries) ∙ length-items q.capacity q.blank q.buf r.hd (r.tl - r.hd)

    full_lem : is_full q ≡ (length xs == room)
    full_lem =
        is_full_lem q r.hd r.tl r.holds
        ∙ ground (arith, r.holds.ordered, r.holds.fits, r.bound, length-entries)

    empty_lem : is_empty q ≡ (length xs == 0)
    empty_lem = is_empty_lem q r.hd r.tl r.holds ∙ ground (arith, r.holds.ordered, length-entries)

    push_refused : (v : A) → (length xs == room) ≡ true → push v q ≡ (false, q)
    unfolding push
    push_refused v e = rw (full_lem, e) refl

    push_taken : (v : A) → (length xs == room) ≡ false → push v q ≡ (true, publish (write v q))
    unfolding push
    push_taken v e = rw (full_lem, e) refl

    push-Represents :
        (v : A) → (length xs == room) ≡ false → Represents (publish (write v q)) room (xs ++ v ∷ [])
    push-Represents v e = record {
      hd = r.hd;
      tl = r.tl + 1;
      holds =
          publish-Holds (write v q) r.hd r.tl (write-Holds q r.hd r.tl r.holds v)
            (ground (arith, r.holds.ordered, r.holds.fits, r.bound, length-entries));
      entries =
          contents-publish (write v q) r.hd r.tl (write-Holds q r.hd r.tl r.holds v)
          ∙ ap₂ (λ (ys : List A) (y : A). ys ++ y ∷ [])
              (contents-write q r.hd r.tl r.holds v ∙ r.entries) (written q r.hd r.tl r.holds v);
      bound = r.bound;
    }

    pop_refused : xs ≡ [] → pop q ≡ (none, q)
    unfolding pop
    pop_refused e = rw (empty_lem, e) refl

  module _ (q : Ring A) (room : ℕ) (x : A) (xs : List A) (r : Represents q room (x ∷ xs)) where
    some_entry : r.hd < r.tl
    some_entry = omega (arith, length-entries q room (x ∷ xs) r)

    released : front q ∷ contents (release q) (r.hd + 1) r.tl ≡ x ∷ xs
    released = sym (contents-release q r.hd r.tl r.holds some_entry) ∙ r.entries

    pop_taken : pop q ≡ (some x, release q)
    unfolding pop
    pop_taken =
        let some_x : (length (x ∷ xs) == 0) ≡ false = ground arith in
        let same : front q ≡ x = cc released in
        rw (empty_lem q room (x ∷ xs) r, some_x) (ap (λ y. (some y, release q)) same)

    pop-Represents : Represents (release q) room xs
    pop-Represents = record {
      hd = r.hd + 1;
      tl = r.tl;
      holds = release-Holds q r.hd r.tl r.holds some_entry;
      entries = cc released;
      bound = r.bound;
    }

  abbrev Follows : ℕ → Answer A × Ring A → Answer A × List A → Type ℓ
  Follows room x y = (x.0 ≡ y.0) × Represents x.1 room y.1

  call-Follows :
      (o : Op A) (q : Ring A) (room : ℕ) (xs : List A)
      → Represents q room xs
      → Follows room (call o q) (bounded room o xs)
  unfolding call
  call-Follows (pushes v) q room xs r = elim (Bool-cases (length xs == room)) [
    | inl full ↦ rw full (rw (push_refused q room xs r v full) (refl, r))
    | inr free ↦
        rw free (rw (push_taken q room xs r v free) (refl, push-Represents q room xs r v free))
  ]
  call-Follows pops q room [] r = rw (pop_refused q room [] r refl) (refl, r)
  call-Follows pops q room (x ∷ xs) r =
      rw (pop_taken q room x xs r) (refl, pop-Represents q room x xs r)

  -- What `size` answers is the number of entries.
  size_lem : (q : Ring A) (room : ℕ) (xs : List A) → Represents q room xs → size q ≡ length xs
  unfolding size
  size_lem q room xs r =
      ap₂ (λ t h. (t + q.capacity - h) % q.capacity) r.holds.tail_at r.holds.head_at
      ∙ apart_mod q.capacity r.hd r.tl r.holds.ordered r.holds.fits
      ∙ sym (length-entries q room xs r)

  new_ring-Represents : (room : ℕ) (blank : A) → Represents (new_ring (room + 1) blank) room []
  new_ring-Represents room blank = record {
    hd = 0;
    tl = 0;
    holds = new_ring-Holds (room + 1) blank (omega arith);
    entries = refl;
    bound = refl;
  }

  calls-Represents :
      (os : List (Op A)) (q : Ring A) (room : ℕ) (xs : List A)
      → Represents q room xs
      → ((calls os q).0 ≡ (all_bounded room os xs).0)
        × Represents (calls os q).1 room (all_bounded room os xs).1
  unfolding calls
  calls-Represents [] q room xs r = (refl, r)
  calls-Represents (o ∷ os) q room xs r =
      let one = call-Follows o q room xs r in
      let rest = calls-Represents os (call o q).1 room (bounded room o xs).1 one.1 in
      (ap₂ (λ (a : Answer A) (as' : List (Answer A)). a ∷ as') one.0 rest.0, rest.1)

  -- Any calls of push and pop on a new ring of capacity `room + 1` answer what a queue bounded by
  -- `room` entries answers: a push fails exactly at `room` entries and otherwise adds its value at the
  -- end, and a pop fails exactly at none and otherwise takes out the value pushed first. `size` is then
  -- the number of entries.
  pub calls-bounded :
      (os : List (Op A)) (room : ℕ) (blank : A)
      → ((calls os (new_ring (room + 1) blank)).0 ≡ (all_bounded room os []).0)
        × (size (calls os (new_ring (room + 1) blank)).1 ≡ length (all_bounded room os []).1)
  calls-bounded os room blank =
      let start = new_ring (room + 1) blank in
      let end = calls-Represents os start room [] (new_ring-Represents room blank) in
      (end.0, size_lem (calls os start).1 room (all_bounded room os []).1 end.1)

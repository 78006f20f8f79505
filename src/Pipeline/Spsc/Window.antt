-- ===== src/Pipeline/Spsc/Window.antt =====
-- The part of a ring between two counters that never wrap: entry `i` stands in slot `i % capacity`.
use itch_lob_engine.Base.{
  ==→≡, ≡→==, ==→≢, ≢→==, ◌%◌, ◌-◌, ◌+◌, ◌≤◌, ◌<◌, ◌≡◌, ◌≢◌, ◌∙◌, ◌∷◌, ◌++◌, ◌==◌, ℕ, zero, suc,
  refl, sym, ap, ap₂, inl, inr, List, [], arith, length, get_or, set, Bool-cases, length-set,
  length-replicate, get_or-set_self, get_or-set_ne, ==→≡, ≡→==, ==→≢, ≢→==,
}
use native.Mathlib.Nat.{zero-mod, mod-lt, add-mod_right, div-add-mod, add-zero, mod-add-mod}
use itch_lob_engine.Pipeline.Spsc.{
  Ring, new_ring, next_tail, is_full, is_empty, write, publish, front, release,
}

pub mod_apart : (capacity i j : ℕ) → i < j → j < i + capacity → i % capacity ≢ j % capacity
mod_apart capacity i j lt near e = grind (arith, div-add-mod i capacity, div-add-mod j capacity)

-- The counters of a ring are equal exactly where their slots are.
pub same_slot :
    (capacity i j : ℕ) → i ≤ j → j < i + capacity → (i % capacity == j % capacity) ≡ (i == j)
same_slot capacity i j le near = elim (Bool-cases (i == j)) [
  | inl same ↦ ≡→== _ _ (ap (λ k. k % capacity) (==→≡ i j same)) ∙ sym same
  | inr other ↦ ≢→== _ _ (mod_apart capacity i j (omega (arith, ==→≢ i j other)) near) ∙ sym other
]

module _ {ℓ} {A : Type ℓ} where
  -- The `n` entries from counter `i` on.
  abbrev pub items : ℕ → A → List A → ℕ → ℕ → List A
  items capacity blank buf i zero = []
  items capacity blank buf i (suc n) =
      get_or buf (i % capacity) blank ∷ items capacity blank buf (i + 1) n

  pub length-items :
      (capacity : ℕ) (blank : A) (buf : List A) (i n : ℕ)
      → length (items capacity blank buf i n) ≡ n
  length-items capacity blank buf i zero = refl
  length-items capacity blank buf i (suc n) = ap suc (length-items capacity blank buf (i + 1) n)

  pub items-snoc :
      (capacity : ℕ) (blank : A) (buf : List A) (i n : ℕ)
      → items capacity blank buf i (suc n)
        ≡ items capacity blank buf i n ++ get_or buf ((i + n) % capacity) blank ∷ []
  items-snoc capacity blank buf i zero =
      ap (λ j. get_or buf (j % capacity) blank ∷ []) (sym (add-zero i))
  items-snoc capacity blank buf i (suc n) =
      ap (λ (xs : List A). get_or buf (i % capacity) blank ∷ xs)
        (items-snoc capacity blank buf (i + 1) n
          ∙ ap (λ j. items capacity blank buf (i + 1) n ++ get_or buf (j % capacity) blank ∷ [])
              (omega arith))

  pub items-set :
      (capacity : ℕ) (blank : A) (buf : List A) (i n j : ℕ) (v : A)
      → i + n ≤ j
      → j < i + capacity
      → items capacity blank (set buf (j % capacity) v) i n ≡ items capacity blank buf i n
  items-set capacity blank buf i zero j v le near = refl
  items-set capacity blank buf i (suc n) j v le near =
      ap₂ (λ (x : A) (xs : List A). x ∷ xs)
        (get_or-set_ne buf (j % capacity) (i % capacity) v blank
          (λ e. mod_apart capacity i j (omega arith) near (sym e)))
        (items-set capacity blank buf (i + 1) n j v (omega arith) (omega arith))

-- The ring holds the entries from counter `hd` to counter `tl`: fewer than its capacity.
pub record Holds {ℓ} {A : Type ℓ} (q : Ring A) (hd tl : ℕ) : Type ℓ where
  pub some_room : 0 < q.capacity
  pub slots : length q.buf ≡ q.capacity
  pub head_at : q.head ≡ hd % q.capacity
  pub tail_at : q.tail ≡ tl % q.capacity
  pub ordered : hd ≤ tl
  pub fits : tl < hd + q.capacity

module _ {ℓ} {A : Type ℓ} where
  abbrev pub contents : Ring A → ℕ → ℕ → List A
  contents q hd tl = items q.capacity q.blank q.buf hd (tl - hd)

  pub new_ring-Holds :
      (capacity : ℕ) (blank : A) → 0 < capacity → Holds (new_ring capacity blank) 0 0
  new_ring-Holds capacity blank pos = record {
    some_room = pos;
    slots = length-replicate capacity blank;
    head_at = sym (zero-mod capacity);
    tail_at = sym (zero-mod capacity);
    ordered = omega arith;
    fits = omega arith;
  }

  module _ (q : Ring A) (hd tl : ℕ) (h : Holds q hd tl) where
    pub is_empty_lem : is_empty q ≡ (hd == tl)
    is_empty_lem = rw (h.head_at, h.tail_at) (same_slot q.capacity hd tl h.ordered h.fits)

    next_tail_lem : next_tail q ≡ (tl + 1) % q.capacity
    next_tail_lem = ap (λ k. (k + 1) % q.capacity) h.tail_at ∙ mod-add-mod tl q.capacity 1

    pub is_full_lem : is_full q ≡ (tl + 1 == hd + q.capacity)
    is_full_lem = elim (Bool-cases (tl + 1 == hd + q.capacity)) [
      | inl full ↦
          ≡→== _ _ (
            next_tail_lem
            ∙ ap (λ k. k % q.capacity) (==→≡ _ _ full)
            ∙ add-mod_right hd q.capacity
            ∙ sym h.head_at)
          ∙ sym full
      | inr room ↦
          ≢→== _ _ (λ e.
            mod_apart q.capacity hd (tl + 1) (omega (arith, h.ordered))
              (omega (arith, h.fits, ==→≢ _ _ room)) (sym h.head_at ∙ sym e ∙ next_tail_lem))
          ∙ sym room
    ]

    pub write-Holds : (v : A) → Holds (write v q) hd tl
    write-Holds v = record {
      some_room = h.some_room;
      slots = length-set q.buf q.tail v ∙ h.slots;
      head_at = h.head_at;
      tail_at = h.tail_at;
      ordered = h.ordered;
      fits = h.fits;
    }

    -- The slot that is written holds no entry.
    pub contents-write : (v : A) → contents (write v q) hd tl ≡ contents q hd tl
    contents-write v =
        ap (λ k. items q.capacity q.blank (set q.buf k v) hd (tl - hd)) h.tail_at
        ∙ items-set q.capacity q.blank q.buf hd (tl - hd) tl v (omega (arith, h.ordered)) h.fits

    pub written : (v : A) → get_or (write v q).buf q.tail q.blank ≡ v
    written v =
        get_or-set_self q.buf q.tail v q.blank
          (omega (arith, h.tail_at, h.slots, mod-lt tl h.some_room))

    pub front-write : hd < tl → (v : A) → front (write v q) ≡ front q
    front-write lt v =
        get_or-set_ne q.buf q.tail q.head v q.blank
          (λ e. mod_apart q.capacity hd tl lt h.fits (sym h.head_at ∙ sym e ∙ h.tail_at))

    pub publish-Holds : tl + 1 < hd + q.capacity → Holds (publish q) hd (tl + 1)
    publish-Holds room = record {
      some_room = h.some_room;
      slots = h.slots;
      head_at = h.head_at;
      tail_at = next_tail_lem;
      ordered = omega (arith, h.ordered);
      fits = room;
    }

    pub contents-publish :
        contents (publish q) hd (tl + 1) ≡ contents q hd tl ++ get_or q.buf q.tail q.blank ∷ []
    contents-publish =
        let n : tl + 1 - hd ≡ suc (tl - hd) = omega (arith, h.ordered) in
        let at : (hd + (tl - hd)) % q.capacity ≡ q.tail =
          ap (λ k. k % q.capacity) (let e : hd + (tl - hd) ≡ tl = omega (arith, h.ordered) in e)
          ∙ sym h.tail_at in
        ap (items q.capacity q.blank q.buf hd) n
        ∙ items-snoc q.capacity q.blank q.buf hd (tl - hd)
        ∙ ap (λ k. contents q hd tl ++ get_or q.buf k q.blank ∷ []) at

    pub release-Holds : hd < tl → Holds (release q) (hd + 1) tl
    release-Holds lt = record {
      some_room = h.some_room;
      slots = h.slots;
      head_at = ap (λ k. (k + 1) % q.capacity) h.head_at ∙ mod-add-mod hd q.capacity 1;
      tail_at = h.tail_at;
      ordered = omega arith;
      fits = omega (arith, h.fits);
    }

    pub contents-release : hd < tl → contents q hd tl ≡ front q ∷ contents (release q) (hd + 1) tl
    contents-release lt =
        let n : tl - hd ≡ suc (tl - (hd + 1)) = omega arith in
        ap (items q.capacity q.blank q.buf hd) n
        ∙ ap (λ k. get_or q.buf k q.blank ∷ contents (release q) (hd + 1) tl) (sym h.head_at)

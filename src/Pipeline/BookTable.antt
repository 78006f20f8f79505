-- ===== src/Pipeline/BookTable.antt =====
-- `BookTable` of include/pipeline/book_table.hpp: the slots of its vector, `none` where no book has
-- been made. `make` is `BookTraits::make`.
use itch_lob_engine.Base.{
  ◌-◌, ◌+◌, ◌≤◌, ◌<◌, ◌≡◌, ◌≢◌, ◌∙◌, ◌∷◌, ◌++◌, if◌then◌else◌, ℕ, zero, suc, refl, sym, ap, subst,
  inl, inr, Bool, Option, none, some, List, [], arith, leb, length, get_or, set, replicate,
  Bool-cases, Option-cases, length-append, length-set, length-replicate, get_or-set_self,
  get_or-set_ne, get_or-replicate,
}

unfoldable pub resize {ℓ} : {B : Type ℓ} → ℕ → List (Option B) → List (Option B)
resize n slots = if leb n (length slots) then slots else slots ++ replicate (n - length slots) none

-- `get_or_create`: the book, and the slots that it leaves.
unfoldable pub get_or_create {ℓ} :
    {B : Type ℓ} → (ℕ → B) → ℕ → ℕ → List (Option B) → B × List (Option B)
unfolding resize
get_or_create make locate hint slots =
    let grown = resize (locate + 1) slots in
    elim (get_or grown locate none) [
      | none ↦ (make hint, set grown locate (some (make hint)))
      | some b ↦ (b, grown)
    ]

-- A mutator through the reference that `get_or_create` returns.
unfoldable pub update {ℓ} :
    {B : Type ℓ} → (ℕ → B) → ℕ → ℕ → (B → Bool × B) → List (Option B) → Bool × List (Option B)
unfolding get_or_create
update make locate hint f slots =
    let (b, slots') = get_or_create make locate hint slots in
    let (ok, b') = f b in (ok, set slots' locate (some b'))

unfoldable pub find {ℓ} : {B : Type ℓ} → ℕ → List (Option B) → Option B
find locate slots = if leb (length slots) locate then none else get_or slots locate none

abbrev pub or_made {ℓ} : {B : Type ℓ} → B → Option B → B
or_made made none = made
or_made made (some b) = b

unfoldable pub book_count {ℓ} : {B : Type ℓ} → List (Option B) → ℕ
book_count [] = 0
book_count (none ∷ slots) = book_count slots
book_count (some _ ∷ slots) = book_count slots + 1

module _ {ℓ} {B : Type ℓ} where
  get_or-pad :
      (k m : ℕ) (slots : List (Option B))
      → get_or (slots ++ replicate m none) k none ≡ get_or slots k none
  get_or-pad k m [] = get_or-replicate m k none
  get_or-pad zero m (x ∷ slots) = refl
  get_or-pad (suc k) m (x ∷ slots) = get_or-pad k m slots

  get_or-outside : (k : ℕ) (slots : List (Option B)) → length slots ≤ k → get_or slots k none ≡ none
  get_or-outside k [] h = refl
  get_or-outside zero (x ∷ slots) h = ground (arith, h)
  get_or-outside (suc k) (x ∷ slots) h = get_or-outside k slots (omega arith)

  pub find-get_or : (k : ℕ) (slots : List (Option B)) → find k slots ≡ get_or slots k none
  unfolding find
  find-get_or k slots = elim (Bool-cases (leb (length slots) k)) [
    | inl out ↦ rw (out, find) (sym (get_or-outside k slots (ground arith)))
    | inr within ↦ rw (within, find) refl
  ]

  resize-get_or :
      (n k : ℕ) (slots : List (Option B)) → get_or (resize n slots) k none ≡ get_or slots k none
  unfolding resize
  resize-get_or n k slots = elim (Bool-cases (leb n (length slots))) [
    | inl big ↦ rw (big, resize) refl
    | inr small ↦ rw (small, resize) (get_or-pad k (n - length slots) slots)
  ]

  length-resize : (n : ℕ) (slots : List (Option B)) → n ≤ length (resize n slots)
  unfolding resize
  length-resize n slots = elim (Bool-cases (leb n (length slots))) [
    | inl big ↦ rw (big, resize) (ground arith)
    | inr small ↦
        rw (small, resize)
          (omega (
            arith,
            length-append slots (replicate (n - length slots) none),
            length-replicate {A = Option B} (n - length slots) none,
          ))
  ]

module _ {ℓ} {B : Type ℓ} (make : ℕ → B) (locate hint : ℕ) (slots : List (Option B)) where
  slot : get_or (resize (locate + 1) slots) locate none ≡ find locate slots
  slot = resize-get_or (locate + 1) locate slots ∙ sym (find-get_or locate slots)

  -- `get_or_create` leaves a vector that is long enough, in which every other slot is as it was.
  abbrev Leaves : B × List (Option B) → Type ℓ
  Leaves r =
      (r.0 ≡ or_made (make hint) (find locate slots))
      × (locate < length r.1)
      × ((k : ℕ) → k ≢ locate → find k r.1 ≡ find k slots)

  created :
      find locate slots ≡ none
      → Leaves (make hint, set (resize (locate + 1) slots) locate (some (make hint)))
  created absent = (
    sym (ap (or_made (make hint)) absent),
    omega (
      arith,
      length-set (resize (locate + 1) slots) locate (some (make hint)),
      length-resize (locate + 1) slots,
    ),
    λ k ne.
        find-get_or k _
        ∙ get_or-set_ne (resize (locate + 1) slots) locate k _ none (λ e. ne (sym e))
        ∙ resize-get_or (locate + 1) k slots
        ∙ sym (find-get_or k slots),
  )

  found : (b : B) → find locate slots ≡ some b → Leaves (b, resize (locate + 1) slots)
  found b present = (
    sym (ap (or_made (make hint)) present),
    omega (arith, length-resize (locate + 1) slots),
    λ k ne. find-get_or k _ ∙ resize-get_or (locate + 1) k slots ∙ sym (find-get_or k slots),
  )

  get_or_create-is :
      (o : Option B)
      → find locate slots ≡ o
      → get_or_create make locate hint slots ≡ elim o as (λ _. B × List (Option B)) [
        | none ↦ (make hint, set (resize (locate + 1) slots) locate (some (make hint)))
        | some b ↦ (b, resize (locate + 1) slots)
      ]
  unfolding get_or_create
  get_or_create-is o h =
      ap
        (λ (q : Option B). elim q as (λ _. B × List (Option B)) [
          | none ↦ (make hint, set (resize (locate + 1) slots) locate (some (make hint)))
          | some b ↦ (b, resize (locate + 1) slots)
        ])
        (slot ∙ h)

  get_or_create-Leaves : Leaves (get_or_create make locate hint slots)
  get_or_create-Leaves = elim (Option-cases (find locate slots)) [
    | inl absent ↦ subst Leaves (sym (get_or_create-is none absent)) (created absent)
    | inr (b, present) ↦ subst Leaves (sym (get_or_create-is (some b) present)) (found b present)
  ]

  module _ (f : B → Bool × B) where
    pub update-result :
        (update make locate hint f slots).0 ≡ (f (or_made (make hint) (find locate slots))).0
    unfolding update
    update-result = ap (λ b. (f b).0) get_or_create-Leaves.0

    pub find-update :
        find locate (update make locate hint f slots).1
        ≡ some (f (or_made (make hint) (find locate slots))).1
    unfolding update
    find-update =
        find-get_or locate _
        ∙ get_or-set_self (get_or_create make locate hint slots).1 locate _ none
            get_or_create-Leaves.1
        ∙ ap (λ b. some (f b).1) get_or_create-Leaves.0

    pub find-update_other :
        (k : ℕ) → k ≢ locate → find k (update make locate hint f slots).1 ≡ find k slots
    unfolding update
    find-update_other k ne =
        find-get_or k _
        ∙ get_or-set_ne (get_or_create make locate hint slots).1 locate k _ none (λ e. ne (sym e))
        ∙ sym (find-get_or k (get_or_create make locate hint slots).1)
        ∙ get_or_create-Leaves.2 k ne

-- ===== src/Book/Reference.antt =====
-- What a book promises, with no price levels kept: the open orders alone, and the quotes that they
-- make when they are added up.
use itch_lob_engine.Base.{
  ◌^◌, ◌-◌, ◌<◌, ◌≡◌, ◌∷◌, if◌then◌else◌, ℕ, Bool, true, false, Option, none, some, leb, List,
  arith, length, ap, ◌≤◌, suc, ◌∙◌, sym, refl, inl, inr, [], Option-cases,
}
use itch_lob_engine.Book.Types.{Side, Quote, buy, sell}
use itch_lob_engine.Book.Locator.{
  Locator, find, erase, assign, count_at, shares_at, length-erase-le, length-assign,
}
use itch_lob_engine.Book.Ladder.{before}

-- A book's mutators, as data.
pub data Event : Type 0 where
  add : ℕ → Side → ℕ → ℕ → Event
  execute : ℕ → ℕ → Event
  cancel : ℕ → ℕ → Event
  remove : ℕ → Event
  replace : ℕ → ℕ → ℕ → ℕ → Event

unfoldable pub insert : ℕ → Side → ℕ → ℕ → Locator → Bool × Locator
insert ref side shares price m = elim (find ref m) [
  | some _ ↦ (false, m)
  | none ↦ (true, (ref, record { shares = shares; price = price; side = side }) ∷ m)
]

-- An order loses shares, and leaves once it has none.
unfoldable pub lower : ℕ → ℕ → Locator → Bool × Locator
lower ref shares m = elim (find ref m) [
  | none ↦ (false, m)
  | some o ↦ (
    true,
    if leb o.shares shares
        then erase ref m
        else assign ref (record o { shares = o.shares - shares }) m,
  )
]

unfoldable pub drop_order : ℕ → Locator → Bool × Locator
drop_order ref m = elim (find ref m) [ none ↦ (false, m) | some _ ↦ (true, erase ref m) ]

unfoldable pub apply : Event → Locator → Bool × Locator
unfolding insert lower drop_order
apply (add ref side shares price) m = insert ref side shares price m
apply (execute ref shares) m = lower ref shares m
apply (cancel ref shares) m = lower ref shares m
apply (remove ref) m = drop_order ref m
apply (replace orig next shares price) m = elim (find orig m) [
  | none ↦ (false, m)
  | some o ↦ insert next o.side shares price (erase orig m)
]

-- The uint32_t fields of an event are below 2^32.
abbrev pub InRange : Event → Type 0
InRange (add ref side shares price) = (shares < 2 ^ 32) × (price < 2 ^ 32)
InRange (execute ref shares) = Unit {0}
InRange (cancel ref shares) = Unit {0}
InRange (remove ref) = Unit {0}
InRange (replace orig next shares price) = (shares < 2 ^ 32) × (price < 2 ^ 32)

-- The best quote of a side: none if the side has no order; otherwise an open order stands at its
-- price, no open order of the side is before it, and it shows all shares at that price.
abbrev pub IsBest : Side → Locator → Option Quote → Type 0
IsBest s m none = (p : ℕ) → count_at s p m ≡ 0
IsBest s m (some q) =
    (0 < count_at s q.price m)
    × ((p : ℕ) → 0 < count_at s p m → before s p q.price ≡ false)
    × (q.shares ≡ shares_at s q.price m)

-- An event opens at most one order.
length-insert :
    (r : ℕ) (s : Side) (q p : ℕ) (m : Locator) → length (insert r s q p m).1 ≤ suc (length m)
unfolding insert
length-insert r s q p m = ground arith

length-lower : (r q : ℕ) (m : Locator) → length (lower r q m).1 ≤ length m
unfolding lower
length-lower r q m = elim (Option-cases (find r m)) [
  | inl e ↦ rw (e, lower) (omega arith)
  | inr (o, e) ↦
      rw (e, lower)
        (ground
          (arith, length-erase-le r m, length-assign r (record o { shares = o.shares - q }) m))
]

pub length-apply : (e : Event) (m : Locator) → length (apply e m).1 ≤ suc (length m)
unfolding apply drop_order
length-apply (add r s q p) m = length-insert r s q p m
length-apply (execute r q) m = omega (arith, length-lower r q m)
length-apply (cancel r q) m = omega (arith, length-lower r q m)
length-apply (remove r) m = ground (arith, length-erase-le r m)
length-apply (replace r n q p) m = elim (Option-cases (find r m)) [
  | inl e ↦ rw (e, apply) (omega arith)
  | inr (o, e) ↦
      rw (e, apply) (omega (arith, length-insert n o.side q p (erase r m), length-erase-le r m))
]

-- The events in order: what each returns, and the orders left open.
unfoldable pub apply_all : List Event → Locator → List Bool × Locator
apply_all [] m = ([], m)
apply_all (e ∷ es) m =
    let (done, m') = apply e m in let (rest, final) = apply_all es m' in (done ∷ rest, final)

abbrev pub AllInRange : List Event → Type 0
AllInRange [] = Unit {0}
AllInRange (e ∷ es) = InRange e × AllInRange es

Quote_path : (a b : Quote) → a.price ≡ b.price → a.shares ≡ b.shares → a ≡ b
Quote_path a b p q = ground arith

before-false : (s : Side) (p q : ℕ) → before s p q ≡ false → before s q p ≡ false → p ≡ q
unfolding before
before-false buy p q h k = ground arith
before-false sell p q h k = ground arith

-- The best quote is determined by the orders.
pub IsBest-unique :
    (s : Side) (m : Locator) (q r : Option Quote) → IsBest s m q → IsBest s m r → q ≡ r
IsBest-unique s m none none h k = refl
IsBest-unique s m none (some r) h k = absurd (omega (arith, h r.price))
IsBest-unique s m (some q) none h k = absurd (omega (arith, k q.price))
IsBest-unique s m (some q) (some r) h k =
    let e : q.price ≡ r.price =
      before-false s q.price r.price (k.1 q.price h.0) (h.1 r.price k.0) in
    ap some (Quote_path q r e (h.2 ∙ ap (λ p. shares_at s p m) e ∙ sym k.2))

-- ===== src/Book/Locator.antt =====
-- `orders_`, the std::unordered_map from an order's reference to the order, as a list of pairs; and
-- what the orders add up to at a price.
use itch_lob_engine.Base.{
  ℕ, ◌+◌, ◌*◌, ◌^◌, ◌≤◌, ◌<◌, ◌≡◌, Bool, ◌&&◌, Option, none, some, List, [], ◌∷◌, arith, ◌==◌,
  if◌then◌else◌, length,
}
use itch_lob_engine.Book.Types.{Side, side_eq, Order, Level}

abbrev pub Locator : Type 0
Locator = List (ℕ × Order)

-- `orders_.find`
unfoldable pub find : ℕ → Locator → Option Order
find r [] = none
find r ((k, o) ∷ m) = if k == r then some o else find r m

-- `orders_.erase`
unfoldable pub erase : ℕ → Locator → Locator
erase r [] = []
erase r ((k, o) ∷ m) = if k == r then m else (k, o) ∷ erase r m

-- `it->second = o` for the `it` that `find` gives
unfoldable pub assign : ℕ → Order → Locator → Locator
assign r n [] = []
assign r n ((k, o) ∷ m) = if k == r then (k, n) ∷ m else (k, o) ∷ assign r n m

abbrev pub at : Side → ℕ → Order → Bool
at s p o = side_eq o.side s && o.price == p

-- The open orders on a side at a price, counted.
unfoldable pub count_at : Side → ℕ → Locator → ℕ
count_at s p [] = 0
count_at s p ((k, o) ∷ m) = (if at s p o then 1 else 0) + count_at s p m

-- The shares that they have left.
unfoldable pub shares_at : Side → ℕ → Locator → ℕ
shares_at s p [] = 0
shares_at s p ((k, o) ∷ m) = (if at s p o then o.shares else 0) + shares_at s p m

-- What the orders at a price make a level of.
abbrev pub level_at : Side → ℕ → Locator → Level
level_at s p m = record { shares = shares_at s p m; orders = count_at s p m }

-- Every order holds fewer than 2^32 shares.
abbrev pub Fits : Locator → Type 0
Fits [] = Unit {0}
Fits ((k, o) ∷ m) = (o.shares < 2 ^ 32) × Fits m

pub count_at-le-length : (s : Side) (p : ℕ) (m : Locator) → count_at s p m ≤ length m
unfolding count_at
count_at-le-length s p [] = omega arith
count_at-le-length s p ((k, o) ∷ m) = ground (arith, count_at-le-length s p m)

pub shares_at-le :
    (s : Side) (p : ℕ) (m : Locator) → Fits m → shares_at s p m ≤ count_at s p m * 2 ^ 32
unfolding count_at shares_at
shares_at-le s p [] f = omega arith
shares_at-le s p ((k, o) ∷ m) f = ground (arith, shares_at-le s p m f.1)

-- What is found is counted: erasing an order takes it out of its own level and no other.
pub count_at-erase :
    (s : Side) (p r : ℕ) (m : Locator) (o : Order)
    → find r m ≡ some o
    → count_at s p m ≡ (if at s p o then 1 else 0) + count_at s p (erase r m)
unfolding find erase count_at
count_at-erase s p r [] o h = cc
count_at-erase s p r ((k, x) ∷ m) o h = ground (arith, count_at-erase s p r m o)

pub shares_at-erase :
    (s : Side) (p r : ℕ) (m : Locator) (o : Order)
    → find r m ≡ some o
    → shares_at s p m ≡ (if at s p o then o.shares else 0) + shares_at s p (erase r m)
unfolding find erase shares_at
shares_at-erase s p r [] o h = cc
shares_at-erase s p r ((k, x) ∷ m) o h = ground (arith, shares_at-erase s p r m o)

-- An order that shrinks in place stays counted, and its level loses what it lost.
pub count_at-assign :
    (s : Side) (p r : ℕ) (m : Locator) (o n : Order)
    → find r m ≡ some o
    → n.side ≡ o.side
    → n.price ≡ o.price
    → count_at s p (assign r n m) ≡ count_at s p m
unfolding find assign count_at
count_at-assign s p r [] o n h e f = cc
count_at-assign s p r ((k, x) ∷ m) o n h e f = ground (arith, count_at-assign s p r m o n)

pub shares_at-assign :
    (s : Side) (p r : ℕ) (m : Locator) (o n : Order)
    → find r m ≡ some o
    → n.side ≡ o.side
    → n.price ≡ o.price
    → shares_at s p (assign r n m) + (if at s p o then o.shares else 0)
      ≡ shares_at s p m + (if at s p o then n.shares else 0)
unfolding find assign shares_at
shares_at-assign s p r [] o n h e f = cc
shares_at-assign s p r ((k, x) ∷ m) o n h e f = ground (arith, shares_at-assign s p r m o n)

pub find-Fits : (r : ℕ) (m : Locator) (o : Order) → find r m ≡ some o → Fits m → o.shares < 2 ^ 32
unfolding find
find-Fits r [] o h f = cc
find-Fits r ((k, x) ∷ m) o h f = ground (arith, find-Fits r m o)

pub erase-Fits : (r : ℕ) (m : Locator) → Fits m → Fits (erase r m)
unfolding erase
erase-Fits r [] f = tt
erase-Fits r ((k, x) ∷ m) f = ground (arith, erase-Fits r m f.1)

pub assign-Fits :
    (r : ℕ) (m : Locator) (n : Order) → n.shares < 2 ^ 32 → Fits m → Fits (assign r n m)
unfolding assign
assign-Fits r [] n h f = tt
assign-Fits r ((k, x) ∷ m) n h f = ground (arith, assign-Fits r m n h f.1)

pub length-erase-le : (r : ℕ) (m : Locator) → length (erase r m) ≤ length m
unfolding erase
length-erase-le r [] = omega arith
length-erase-le r ((k, x) ∷ m) = ground (arith, length-erase-le r m)

pub length-assign : (r : ℕ) (n : Order) (m : Locator) → length (assign r n m) ≡ length m
unfolding assign
length-assign r n [] = omega arith
length-assign r n ((k, x) ∷ m) = ground (arith, length-assign r n m)

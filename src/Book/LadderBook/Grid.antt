-- ===== src/Book/LadderBook/Grid.antt =====
-- The price grid of a `LadderBook`: an index for each multiple of the tick above the lowest price.
use itch_lob_engine.Base.{
  ◌*◌, ◌/◌, ◌%◌, ◌-◌, ◌+◌, ◌≤◌, ◌<◌, ◌≡◌, ◌⊎◌, ◌∙◌, ◌∷◌, ℕ, refl, sym, ap, subst, some, [], arith,
}
use itch_lob_engine.Book.Types.{Side, Order, empty_level}
use itch_lob_engine.Book.Locator
use itch_lob_engine.Book.Locator.{Locator, level_at, count_at, shares_at}
use itch_lob_engine.Book.Half.Invariant.{Injective}
use native.Mathlib.Nat.{
  add-mod, zero-mod, mod-mod, add-zero, div-add-mod', le-div_iff_mul-le, mul-div_left,
}

-- The price of an index.
abbrev pub grid_price : ℕ → ℕ → ℕ → ℕ
grid_price low tick i = low + i * tick

-- A price that `add` takes: in range and on the grid.
abbrev pub OnGrid : ℕ → ℕ → ℕ → ℕ → Type 0
OnGrid low high tick p = (low ≤ p) × (p ≤ high) × ((p - low) % tick ≡ 0)

module _ (low tick : ℕ) (pos : 0 < tick) where
  pub grid_price-Injective : Injective (grid_price low tick)
  grid_price-Injective i j e =
      sym (mul-div_left i pos) ∙ ap (λ n. n / tick) same ∙ mul-div_left j pos
    where
      same : i * tick ≡ j * tick
      same = omega arith

  -- The index of a price on the grid has that price.
  pub grid_price-idx :
      (high p : ℕ) → OnGrid low high tick p → grid_price low tick ((p - low) / tick) ≡ p
  grid_price-idx high p g = omega (arith, div-add-mod' (p - low) tick, g.0, g.2)

  pub div-le-div : (a b : ℕ) → a ≤ b → a / tick ≤ b / tick
  div-le-div a b h = (le-div_iff_mul-le pos).1 (omega (arith, div-add-mod' a tick))

  -- It lies inside the arrays.
  pub idx-lt : (high p : ℕ) → OnGrid low high tick p → (p - low) / tick < (high - low) / tick + 1
  idx-lt high p g = omega (arith, div-le-div (p - low) (high - low) (omega (arith, g.1)))

  -- The order of the indices is that of their prices.
  pub grid_price-lt : (i j : ℕ) → i < j → grid_price low tick i < grid_price low tick j
  grid_price-lt i j h = grind arith

  -- Every index inside the arrays has a price in the range.
  pub grid_price-le :
      (high i : ℕ) → low ≤ high → i < (high - low) / tick + 1 → grid_price low tick i ≤ high
  grid_price-le high i h k =
      let le : i ≤ (high - low) / tick = omega arith in omega (arith, (le-div_iff_mul-le pos).0 le)

-- Every open order has a price on the grid.
abbrev pub AllOnGrid : ℕ → ℕ → ℕ → Locator → Type 0
AllOnGrid low high tick [] = Unit {0}
AllOnGrid low high tick ((k, o) ∷ m) = OnGrid low high tick o.price × AllOnGrid low high tick m

module _ (low high tick : ℕ) where
  pub find-OnGrid :
      (r : ℕ) (m : Locator) (o : Order)
      → Locator.find r m ≡ some o
      → AllOnGrid low high tick m
      → OnGrid low high tick o.price
  unfolding Locator.find
  find-OnGrid r [] o e a = cc
  find-OnGrid r ((k, x) ∷ m) o e a = ground (arith, find-OnGrid r m o)

  pub erase-AllOnGrid :
      (r : ℕ) (m : Locator)
      → AllOnGrid low high tick m
      → AllOnGrid low high tick (Locator.erase r m)
  unfolding Locator.erase
  erase-AllOnGrid r [] a = tt
  erase-AllOnGrid r ((k, x) ∷ m) a = ground (arith, erase-AllOnGrid r m a.1)

  pub assign-AllOnGrid :
      (r : ℕ) (m : Locator) (n : Order)
      → OnGrid low high tick n.price
      → AllOnGrid low high tick m
      → AllOnGrid low high tick (Locator.assign r n m)
  unfolding Locator.assign
  assign-AllOnGrid r [] n g a = tt
  assign-AllOnGrid r ((k, x) ∷ m) n g a = ground (arith, assign-AllOnGrid r m n g a.1)

  -- Outside the range no order stands.
  pub level_at_outside :
      (s : Side) (p : ℕ) (m : Locator)
      → AllOnGrid low high tick m
      → (p < low) ⊎ (high < p)
      → level_at s p m ≡ empty_level
  unfolding count_at shares_at
  level_at_outside s p [] a h = refl
  level_at_outside s p ((k, x) ∷ m) a h = ground (arith, level_at_outside s p m a.1 h)

-- A sum of multiples is a multiple.
pub mod-add_zero : (a b t : ℕ) → 0 < t → a % t ≡ 0 → b % t ≡ 0 → (a + b) % t ≡ 0
mod-add_zero a b t pos h k = rw (add-mod, h, k, zero-mod)

-- A wider range on the same grid.
pub OnGrid-wider :
    (low high low' high' tick p : ℕ)
    → 0 < tick
    → low' ≤ low
    → high ≤ high'
    → (low - low') % tick ≡ 0
    → OnGrid low high tick p
    → OnGrid low' high' tick p
OnGrid-wider low high low' high' tick p pos a b c g = (
  omega (arith, g.0),
  omega (arith, g.1),
  subst (λ n. n % tick ≡ 0) (omega (arith, g.0))
      (mod-add_zero (p - low) (low - low') tick pos g.2 c),
)

pub AllOnGrid-wider :
    (low high low' high' tick : ℕ) (m : Locator)
    → 0 < tick
    → low' ≤ low
    → high ≤ high'
    → (low - low') % tick ≡ 0
    → AllOnGrid low high tick m
    → AllOnGrid low' high' tick m
AllOnGrid-wider low high low' high' tick [] pos a b c g = tt
AllOnGrid-wider low high low' high' tick ((k, o) ∷ m) pos a b c g = (
  OnGrid-wider low high low' high' tick o.price pos a b c g.0,
  AllOnGrid-wider low high low' high' tick m pos a b c g.1,
)

-- So is a difference.
pub mod-sub_zero : (a b t : ℕ) → b ≤ a → a % t ≡ 0 → b % t ≡ 0 → (a - b) % t ≡ 0
mod-sub_zero a b t le h k =
    sym (mod-mod (a - b) t)
    ∙ ap (λ n. n % t) (sym (add-zero ((a - b) % t)) ∙ ap (λ n. (a - b) % t + n) (sym k))
    ∙ sym (add-mod (a - b) b t)
    ∙ ap (λ n. n % t) (omega arith)
    ∙ h

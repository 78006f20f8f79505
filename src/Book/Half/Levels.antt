-- ===== src/Book/Half/Levels.antt =====
-- How the level at a price changes as an order shrinks or leaves.
use itch_lob_engine.Base.{◌-◌, ◌<◌, ◌≡◌, ◌∷◌, ℕ, refl, true, false, some, arith}
use itch_lob_engine.Book.Types.{Side, Order}
use itch_lob_engine.Book.Locator
use itch_lob_engine.Book.Locator.{
  Locator, at, count_at, shares_at, level_at, count_at-erase, shares_at-erase, count_at-assign,
  shares_at-assign,
}
use itch_lob_engine.Book.OrderBook.{level_less}

pub level_at-cons :
    (s : Side) (p r : ℕ) (m : Locator) (o : Order)
    → at s p o ≡ false
    → level_at s p ((r, o) ∷ m) ≡ level_at s p m
unfolding count_at shares_at
level_at-cons s p r m o h = ground arith

module _ (s : Side) (p r : ℕ) (m : Locator) (o : Order) (found : Locator.find r m ≡ some o) where
  pub had_order : at s p o ≡ true → 0 < count_at s p m
  had_order h = ground (arith, count_at-erase s p r m o found)

  pub level_at-erase_other : at s p o ≡ false → level_at s p (Locator.erase r m) ≡ level_at s p m
  level_at-erase_other h =
      ground (arith, count_at-erase s p r m o found, shares_at-erase s p r m o found)

  pub level_at-erase :
      at s p o ≡ true → level_less o.shares true (level_at s p m) ≡ level_at s p (Locator.erase r m)
  unfolding level_less
  level_at-erase h = ground (arith, count_at-erase s p r m o found, shares_at-erase s p r m o found)

  module _ (qty : ℕ) (less : qty < o.shares) where
    abbrev pub smaller : Order
    smaller = record o { shares = o.shares - qty }

    pub level_at-assign_other :
        at s p o ≡ false → level_at s p (Locator.assign r smaller m) ≡ level_at s p m
    level_at-assign_other h = ground (
      arith,
      count_at-assign s p r m o smaller found refl refl,
      shares_at-assign s p r m o smaller found refl refl,
    )

    pub level_at-assign :
        at s p o ≡ true
        → level_less qty false (level_at s p m) ≡ level_at s p (Locator.assign r smaller m)
    unfolding level_less
    level_at-assign h = ground (
      arith,
      shares_at-erase s p r m o found,
      count_at-assign s p r m o smaller found refl refl,
      shares_at-assign s p r m o smaller found refl refl,
    )

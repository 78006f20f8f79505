-- ===== src/Book/OrderBook/Sides.antt =====
-- One side of an `OrderBook`: its map holds, in order, the levels that the open orders make.
use itch_lob_engine.Base.{
  ◌-◌, ◌^◌, ◌<◌, ◌≡◌, ◌∷◌, ◌==◌, if◌then◌else◌, ℕ, suc, refl, true, false, Option, none, some, [],
  arith, length,
}
use itch_lob_engine.Book.Types.{Side, Level, Order, side_eq}
use itch_lob_engine.Book.Locator
use itch_lob_engine.Book.Locator.{
  Locator, Fits, count_at, shares_at, level_at, count_at-le-length, shares_at-le, count_at-assign,
  count_at-erase, shares_at-assign, shares_at-erase,
}
use itch_lob_engine.Book.Ladder
use itch_lob_engine.Book.Ladder.{
  Ladder, before, IsSorted, or_empty, find-upsert, find-assign, find-erase, upsert-IsSorted,
  assign-IsSorted, erase-IsSorted,
}
use itch_lob_engine.Book.OrderBook.{level_add, sub_in, level_less, sub_found}

-- The entry that the orders make at a price: none where no order is.
abbrev pub entry : Side → ℕ → Locator → Option Level
entry s p m = if count_at s p m == 0 then none else some (level_at s p m)

pub record Holds (s : Side) (m : Locator) (l : Ladder) : Type 0 where
  pub sorted : IsSorted s l
  pub entries : (p : ℕ) → Ladder.find p l ≡ entry s p m

pub Holds-nil : (s : Side) → Holds s [] []
unfolding Ladder.find count_at
Holds-nil s = record { sorted = tt; entries = λ p. refl }

-- An order of the other side changes nothing.
pub Holds-other :
    (s : Side) (r : ℕ) (o : Order) (m : Locator) (l : Ladder)
    → side_eq o.side s ≡ false
    → Holds s m l
    → Holds s ((r, o) ∷ m) l
unfolding count_at shares_at
Holds-other s r o m l d h = record { sorted = h.sorted; entries = λ p. ground (arith, h.entries p) }

pub Holds-upsert :
    (s : Side) (r : ℕ) (o : Order) (m : Locator) (l : Ladder)
    → side_eq o.side s ≡ true
    → o.shares < 2 ^ 32
    → suc (length m) < 2 ^ 32
    → Fits m
    → Holds s m l
    → Holds s ((r, o) ∷ m) (Ladder.upsert s (level_add o.shares) o.price l)
unfolding count_at shares_at level_add
Holds-upsert s r o m l same small few fits h = record {
  sorted = upsert-IsSorted s (level_add o.shares) o.price l h.sorted;
  entries = λ p. ground (
    arith,
    find-upsert s (level_add o.shares) o.price p l h.sorted,
    h.entries p,
    h.entries o.price,
    count_at-le-length s o.price m,
    shares_at-le s o.price m fits,
  );
}

module _ (s : Side) (r : ℕ) (o : Order) (m : Locator) (l : Ladder)
    (found : Locator.find r m ≡ some o) where
  pub Holds-erase_other : side_eq o.side s ≡ false → Holds s m l → Holds s (Locator.erase r m) l
  Holds-erase_other d h = record {
    sorted = h.sorted;
    entries = λ p.
        ground
          (arith, h.entries p, count_at-erase s p r m o found, shares_at-erase s p r m o found);
  }

  pub Holds-assign_other :
      (n : Order)
      → n.side ≡ o.side
      → n.price ≡ o.price
      → side_eq o.side s ≡ false
      → Holds s m l
      → Holds s (Locator.assign r n m) l
  Holds-assign_other n e f d h = record {
    sorted = h.sorted;
    entries = λ p. ground (
      arith,
      h.entries p,
      count_at-assign s p r m o n found e f,
      shares_at-assign s p r m o n found e f,
    );
  }

  -- The level of an order that is found is in the map.
  found_level :
      side_eq o.side s ≡ true → Holds s m l → Ladder.find o.price l ≡ some (level_at s o.price m)
  found_level same h = ground (arith, h.entries o.price, count_at-erase s o.price r m o found)

  pub Holds-gone :
      side_eq o.side s ≡ true
      → Holds s m l
      → Holds s (Locator.erase r m) (sub_in o.price o.shares true l)
  unfolding sub_in level_less sub_found
  Holds-gone same h =
      rw (found_level same h, sub_in)
        (record {
          sorted = ground (
            arith,
            erase-IsSorted s o.price l h.sorted,
            assign-IsSorted s o.price (level_less o.shares true (level_at s o.price m)) l h.sorted,
          );
          entries = λ p. ground (
            arith,
            found_level same h,
            h.entries p,
            find-erase s o.price p l h.sorted,
            find-assign o.price p (level_less o.shares true (level_at s o.price m))
                (level_at s o.price m) l,
            count_at-erase s p r m o found,
            shares_at-erase s p r m o found,
            count_at-erase s o.price r m o found,
            shares_at-erase s o.price r m o found,
          );
        })

  pub Holds-lowered :
      (qty : ℕ)
      → qty < o.shares
      → side_eq o.side s ≡ true
      → Holds s m l
      → Holds s
          (Locator.assign r (record o { shares = o.shares - qty }) m)
          (sub_in o.price qty false l)
  unfolding sub_in level_less sub_found
  Holds-lowered qty less same h =
      rw (found_level same h, sub_in)
        (record {
          sorted = ground (
            arith,
            erase-IsSorted s o.price l h.sorted,
            assign-IsSorted s o.price (level_less qty false (level_at s o.price m)) l h.sorted,
          );
          entries = λ p. ground (
            arith,
            found_level same h,
            h.entries p,
            find-erase s o.price p l h.sorted,
            find-assign o.price p (level_less qty false (level_at s o.price m))
                (level_at s o.price m) l,
            count_at-assign s p r m o (record o { shares = o.shares - qty }) found refl refl,
            shares_at-assign s p r m o (record o { shares = o.shares - qty }) found refl refl,
            count_at-erase s o.price r m o found,
            shares_at-erase s o.price r m o found,
          );
        })

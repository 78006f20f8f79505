-- ===== src/Book/Half/Falls.antt =====
-- `half_sub` keeps what a side holds, as an order shrinks or leaves.
use itch_lob_engine.Base.{
  ◌-◌, ◌<◌, ◌≡◌, ◌≢◌, ◌∙◌, ◌==◌, if◌then◌else◌, ℕ, sym, ap, subst, inl, inr, Bool, true, false,
  Option, none, some, List, arith, length, get_or, set, Bool-cases, length-set, get_or-set_self,
  get_or-set_ne, ==→≡, ==→≢,
}
use itch_lob_engine.Book.Types.{Side, Level, Order, empty_level, side_eq}
use itch_lob_engine.Book.Locator
use itch_lob_engine.Book.Locator.{
  Locator, Fits, at, count_at, shares_at, level_at, count_at-erase, shares_at-erase,
  count_at-assign, shares_at-assign,
}
use itch_lob_engine.Book.OrderBook.{level_less}
use itch_lob_engine.Book.Half.{Half, half_sub, is_idx, next_best}
use itch_lob_engine.Book.Half.Search.{IsBestIdx, NoneBetter, orders_of, next_best-IsBestIdx}
use itch_lob_engine.Book.Half.Levels.{
  had_order, level_at-erase, level_at-erase_other, level_at-assign, level_at-assign_other,
}
use itch_lob_engine.Book.Half.Occupied.{occupied-set}
use itch_lob_engine.Book.Half.Invariant.{Holds, Injective}

-- The best index once the level at `i`, which had orders, has become `l`.
module _ (s : Side) (n : ℕ) (ls : List Level) (i : ℕ) (l : Level) (size : length ls ≡ n)
    (lt : i < n) (had : 0 < orders_of ls i) where
  -- Where it keeps an order, the best index stays.
  stays-IsBestIdx :
      (best : Option ℕ) → 0 < l.orders → IsBestIdx s n ls best → IsBestIdx s n (set ls i l) best
  stays-IsBestIdx none o b = absurd (omega (arith, b i))
  stays-IsBestIdx (some c) o b = (
    b.0,
    ground (arith, b.1, get_or-set_self ls i l empty_level, get_or-set_ne ls i c l empty_level),
    λ j k p. ground (arith, b.2 j, get_or-set_ne ls i j l empty_level),
  )

  -- Where it has none left and was not the best, too.
  other-IsBestIdx :
      (c : ℕ)
      → c ≢ i
      → l.orders ≡ 0
      → IsBestIdx s n ls (some c)
      → IsBestIdx s n (set ls i l) (some c)
  other-IsBestIdx c d o b = (
    b.0,
    ground (arith, b.1, get_or-set_ne ls i c l empty_level),
    λ j k p.
        ground
          (arith, b.2 j, get_or-set_self ls i l empty_level, get_or-set_ne ls i j l empty_level),
  )

  emptied-NoneBetter : l.orders ≡ 0 → IsBestIdx s n ls (some i) → NoneBetter s n (set ls i l) i
  emptied-NoneBetter o b = (
    lt,
    ground (arith, get_or-set_self ls i l empty_level),
    λ j k p.
        ground
          (arith, b.2 j, get_or-set_self ls i l empty_level, get_or-set_ne ls i j l empty_level),
  )

  -- Where it was the best, the search finds the next one.
  emptied-IsBestIdx :
      l.orders ≡ 0
      → IsBestIdx s n ls (some i)
      → IsBestIdx s n (set ls i l) (next_best s (set ls i l) i)
  emptied-IsBestIdx o b =
      subst (λ k. IsBestIdx s k (set ls i l) (next_best s (set ls i l) i))
        (length-set ls i l ∙ size)
        (next_best-IsBestIdx s (set ls i l) i (
          subst (λ k. NoneBetter s k (set ls i l) i) (sym (length-set ls i l ∙ size))
            (emptied-NoneBetter o b)))

  falls-IsBestIdx :
      (best : Option ℕ)
      → l.orders ≡ 0
      → IsBestIdx s n ls best
      → IsBestIdx s n (set ls i l) (if is_idx best i then next_best s (set ls i l) i else best)
  falls-IsBestIdx none o b = absurd (omega (arith, b i))
  falls-IsBestIdx (some c) o b = elim (Bool-cases (c == i)) [
    | inl e ↦ rw e (emptied-IsBestIdx o (subst (λ k. IsBestIdx s n ls (some k)) (==→≡ c i e) b))
    | inr e ↦ rw e (other-IsBestIdx c (==→≢ c i e) o b)
  ]

module _ (s : Side) (price : ℕ → ℕ) (n : ℕ) (inj : Injective price) (m : Locator) (h : Half)
    (v : Holds s price n m h) where
  -- `half_sub` follows any change of the orders that lowers the one level that it lowers.
  module _ (m' : Locator) (i shares : ℕ) (gone : Bool) (lt : i < n)
      (had : 0 < count_at s (price i) m)
      (same : level_less shares gone (level_at s (price i) m) ≡ level_at s (price i) m')
      (others : (j : ℕ) → j ≢ i → level_at s (price j) m' ≡ level_at s (price j) m) where
    abbrev fallen : Level
    fallen = level_less shares gone (get_or h.levels i empty_level)

    fallen-level : fallen ≡ level_at s (price i) m'
    fallen-level = ap (level_less shares gone) (v.levels_hold i lt) ∙ same

    had_orders : 0 < orders_of h.levels i
    had_orders = subst (λ (l : Level). 0 < l.orders) (sym (v.levels_hold i lt)) had

    fallen_levels :
        (j : ℕ) → j < n → get_or (set h.levels i fallen) j empty_level ≡ level_at s (price j) m'
    fallen_levels j k = elim (Bool-cases (j == i)) [
      | inl e ↦
          let d : j ≡ i = ==→≡ j i e in
          rw d
            (get_or-set_self h.levels i fallen empty_level (omega (arith, v.size)) ∙ fallen-level)
      | inr e ↦
          get_or-set_ne h.levels i j fallen empty_level (λ d. ==→≢ j i e (sym d))
          ∙ v.levels_hold j k
          ∙ sym (others j (==→≢ j i e))
    ]

    pub half_sub-Holds : Holds s price n m' (half_sub s i shares gone h)
    unfolding half_sub
    half_sub-Holds = elim (Bool-cases (fallen.orders == 0)) [
      | inl e ↦
          rw (e, half_sub)
            (record {
              size = length-set h.levels i fallen ∙ v.size;
              levels_hold = fallen_levels;
              counted =
                  ground (arith, v.counted, had_orders, occupied-set h.levels i fallen, v.size);
              best =
                  falls-IsBestIdx s n h.levels i fallen v.size lt had_orders h.best_idx (==→≡ _ _ e)
                    v.best;
            })
      | inr e ↦
          rw (e, half_sub)
            (record {
              size = length-set h.levels i fallen ∙ v.size;
              levels_hold = fallen_levels;
              counted =
                  ground (arith, v.counted, had_orders, occupied-set h.levels i fallen, v.size);
              best =
                  stays-IsBestIdx s n h.levels i fallen v.size lt had_orders h.best_idx
                    (omega (arith, ==→≢ _ _ e)) v.best;
            })
    ]

  module _ (r : ℕ) (o : Order) (i : ℕ) (found : Locator.find r m ≡ some o)
      (same : side_eq o.side s ≡ true) (lt : i < n) (e : price i ≡ o.price) where
    here_at : at s (price i) o ≡ true
    here_at = ground arith

    elsewhere_at : (j : ℕ) → j ≢ i → at s (price j) o ≡ false
    elsewhere_at j d = ground (arith, inj j i)

    -- An order leaves.
    pub half_gone-Holds : Holds s price n (Locator.erase r m) (half_sub s i o.shares true h)
    half_gone-Holds =
        half_sub-Holds (Locator.erase r m) i o.shares true lt
          (had_order s (price i) r m o found here_at)
          (level_at-erase s (price i) r m o found here_at)
          (λ j d. level_at-erase_other s (price j) r m o found (elsewhere_at j d))

    -- An order shrinks.
    pub half_lowered-Holds :
        (qty : ℕ)
        → qty < o.shares
        → Holds s price n
            (Locator.assign r (record o { shares = o.shares - qty }) m)
            (half_sub s i qty false h)
    half_lowered-Holds qty less =
        half_sub-Holds _ i qty false lt (had_order s (price i) r m o found here_at)
          (level_at-assign s (price i) r m o found qty less here_at)
          (λ j d. level_at-assign_other s (price j) r m o found qty less (elsewhere_at j d))

-- ===== src/Book/Half/Moves.antt =====
-- `half_add` and `half_sub` keep what a side holds, as the orders change.
use itch_lob_engine.Base.{
  ◌^◌, ◌<◌, ◌≡◌, ◌≢◌, ◌∙◌, ◌∷◌, if◌then◌else◌, ℕ, suc, sym, subst, inl, inr, true, Option, none,
  some, List, arith, ltb, length, get_or, set, Bool-cases, length-set, get_or-set_self,
  get_or-set_ne,
}
use itch_lob_engine.Book.Types.{Side, buy, sell, Level, Order, empty_level, side_eq}
use itch_lob_engine.Book.Locator.{
  Locator, Fits, count_at, shares_at, level_at, count_at-le-length, shares_at-le,
}
use itch_lob_engine.Book.OrderBook.{level_add}
use itch_lob_engine.Book.Half.{Half, improves, half_add}
use itch_lob_engine.Book.Half.Search.{IsBestIdx}
use itch_lob_engine.Book.Half.Occupied.{occupied-set}
use itch_lob_engine.Book.Half.Invariant.{Holds, Injective}

-- The level of an order that is open counts it.
grows :
    (s : Side) (m : Locator) (r : ℕ) (o : Order) (p : ℕ)
    → side_eq o.side s ≡ true
    → o.price ≡ p
    → 0 < count_at s p ((r, o) ∷ m)
unfolding count_at
grows s m r o p same e = ground arith

-- A level that gains an order.
improves-IsBestIdx :
    (s : Side) (n : ℕ) (ls : List Level) (i : ℕ) (l : Level) (best : Option ℕ)
    → length ls ≡ n
    → i < n
    → 0 < l.orders
    → IsBestIdx s n ls best
    → IsBestIdx s n (set ls i l) (if improves s i best then some i else best)
improves-IsBestIdx buy n ls i l none e h o b = (
  h,
  ground (arith, get_or-set_self ls i l empty_level),
  λ j k p. ground (arith, b j, get_or-set_ne ls i j l empty_level),
)
improves-IsBestIdx sell n ls i l none e h o b = (
  h,
  ground (arith, get_or-set_self ls i l empty_level),
  λ j k p. ground (arith, b j, get_or-set_ne ls i j l empty_level),
)
improves-IsBestIdx buy n ls i l (some c) e h o b = elim (Bool-cases (ltb c i)) [
  | inl t ↦ rw t (
    h,
    ground (arith, get_or-set_self ls i l empty_level),
    λ j k p. ground (arith, b.2 j, get_or-set_ne ls i j l empty_level),
  )
  | inr t ↦ rw t (
    b.0,
    ground (arith, b.1, get_or-set_self ls i l empty_level, get_or-set_ne ls i c l empty_level),
    λ j k p. ground (arith, b.2 j, get_or-set_ne ls i j l empty_level),
  )
]
improves-IsBestIdx sell n ls i l (some c) e h o b = elim (Bool-cases (ltb i c)) [
  | inl t ↦ rw t (
    h,
    ground (arith, get_or-set_self ls i l empty_level),
    λ j k p. ground (arith, b.2 j, get_or-set_ne ls i j l empty_level),
  )
  | inr t ↦ rw t (
    b.0,
    ground (arith, b.1, get_or-set_self ls i l empty_level, get_or-set_ne ls i c l empty_level),
    λ j k p. ground (arith, b.2 j, get_or-set_ne ls i j l empty_level),
  )
]

module _ (s : Side) (price : ℕ → ℕ) (n : ℕ) (inj : Injective price) (m : Locator) (h : Half)
    (v : Holds s price n m h) where
  -- The level that an order joins, at the index of its price.
  grown_level :
      (r : ℕ) (o : Order) (i : ℕ)
      → side_eq o.side s ≡ true
      → i < n
      → price i ≡ o.price
      → o.shares < 2 ^ 32
      → suc (length m) < 2 ^ 32
      → Fits m
      → level_add o.shares (get_or h.levels i empty_level) ≡ level_at s (price i) ((r, o) ∷ m)
  unfolding level_add count_at shares_at
  grown_level r o i same lt e small few fits =
      ground
        (arith, v.levels_hold i, count_at-le-length s (price i) m, shares_at-le s (price i) m fits)

  -- The levels of another price are as they were.
  other_level :
      (r : ℕ) (o : Order) (i j : ℕ)
      → price i ≡ o.price
      → j ≢ i
      → level_at s (price j) ((r, o) ∷ m) ≡ level_at s (price j) m
  unfolding count_at shares_at
  other_level r o i j e d = ground (arith, inj j i)

  pub half_add-Holds :
      (r : ℕ) (o : Order) (i : ℕ)
      → side_eq o.side s ≡ true
      → i < n
      → price i ≡ o.price
      → o.shares < 2 ^ 32
      → suc (length m) < 2 ^ 32
      → Fits m
      → Holds s price n ((r, o) ∷ m) (half_add s i o.shares h)
  unfolding half_add
  half_add-Holds r o i same lt e small few fits = record {
    size = length-set h.levels i _ ∙ v.size;
    levels_hold = λ j k. ground (
      arith,
      v.levels_hold j,
      v.size,
      grown_level r o i same lt e small few fits,
      other_level r o i j e,
      get_or-set_self h.levels i (level_add o.shares (get_or h.levels i empty_level)) empty_level,
      get_or-set_ne h.levels i j (level_add o.shares (get_or h.levels i empty_level)) empty_level,
    );
    counted = ground (
      arith,
      v.counted,
      v.size,
      some_orders,
      occupied-set h.levels i (level_add o.shares (get_or h.levels i empty_level)),
    );
    best = improves-IsBestIdx s n h.levels i _ h.best_idx v.size lt some_orders v.best;
  }
    where
      some_orders : 0 < (level_add o.shares (get_or h.levels i empty_level)).orders
      some_orders =
          subst (λ (l : Level). 0 < l.orders) (sym (grown_level r o i same lt e small few fits))
            (grows s m r o (price i) same (sym e))

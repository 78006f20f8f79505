-- ===== src/Book/Half.antt =====
-- One side of `LadderBook` in include/book/ladder_book.hpp: the members that each side has (`bids_`,
-- `bid_level_count_` and `best_bid_idx_`, and those of the asks) are one record, `Half`, and what the
-- mutators do to them are functions of the side.
pub mod Search
pub mod Occupied
pub mod Invariant
pub mod Levels
pub mod Moves
pub mod Resize
pub mod Falls
use itch_lob_engine.Base.{
  ◌^◌, ◌*◌, ◌/◌, ◌%◌, ◌-◌, ◌+◌, ◌≤◌, ◌<◌, ◌≡◌, ◌≢◌, ◌↔◌, ◌⊎◌, ◌&&◌, ◌||◌, ◌∙◌, ◌∷◌, ◌++◌, ◌==◌,
  if◌then◌else◌, ℕ, zero, suc, min, max, refl, sym, ap, ap₂, subst, inl, inr, Bool, true, false,
  not, Option, none, some, List, [], map, arith, ltb, leb, length, get_or, set, take, drop,
  replicate, append-nil, append_assoc, Bool-cases, Option-cases, length-append, length-set,
  length-replicate, get_or-set_self, get_or-set_ne, get_or-replicate, ==→≡, ≡→==, ==→≢, ≢→==,
}
use itch_lob_engine.Book.Types.{Side, buy, sell, Level, Quote, Order, empty_level, side_eq}
use itch_lob_engine.Book.OrderBook.{level_add, level_less}

pub record Half : Type 0 where
  pub levels : List Level
  pub level_count : ℕ
  pub best_idx : Option ℕ

-- Whether index `i` has the better price of the two: the higher for bids, the lower for asks.
abbrev pub better : Side → ℕ → ℕ → Bool
better buy i j = ltb j i
better sell i j = ltb i j

abbrev pub improves : Side → ℕ → Option ℕ → Bool
improves s i none = true
improves s i (some j) = better s i j

-- The body of `add` for one side.
unfoldable pub half_add : Side → ℕ → ℕ → Half → Half
unfolding level_add
half_add s i shares h =
    let l : Level = get_or h.levels i empty_level in
    record {
      levels = set h.levels i (level_add shares l);
      level_count = if l.orders == 0 then h.level_count + 1 else h.level_count;
      best_idx = if improves s i h.best_idx then some i else h.best_idx;
    }

-- The loop of `retreat_best_bid`, with `i` the index above the one that it looks at.
unfoldable pub retreat : List Level → ℕ → Option ℕ
retreat ls zero = none
retreat ls (suc i) = elim (ltb 0 (get_or ls i empty_level).orders) [
  | true ↦ some i
  | false ↦ retreat ls i
]

-- The loop of `advance_best_ask` from index `i`, over the `n` indices that are left.
unfoldable pub advance : List Level → ℕ → ℕ → Option ℕ
advance ls zero i = none
advance ls (suc n) i = elim (ltb 0 (get_or ls i empty_level).orders) [
  | true ↦ some i
  | false ↦ advance ls n (suc i)
]

unfoldable pub next_best : Side → List Level → ℕ → Option ℕ
unfolding retreat advance
next_best buy ls i = retreat ls i
next_best sell ls i = advance ls (length ls - (i + 1)) (i + 1)

abbrev pub is_idx : Option ℕ → ℕ → Bool
is_idx none i = false
is_idx (some j) i = j == i

-- The body of `level_sub` for one side.
-- `--bid_level_count_` is reached with a level that held an order, so the count is not 0 there.
unfoldable pub half_sub : Side → ℕ → ℕ → Bool → Half → Half
unfolding level_less next_best
half_sub s i shares gone h =
    let l : Level = level_less shares gone (get_or h.levels i empty_level) in
    let ls : List Level = set h.levels i l in
    if l.orders == 0
    then record {
      levels = ls;
      level_count = h.level_count - 1;
      best_idx = if is_idx h.best_idx i then next_best s ls i else h.best_idx;
    }
    else record { levels = ls; level_count = h.level_count; best_idx = h.best_idx }

-- `new[j] = x`, `new[j + 1] = …` for the old levels in order.
unfoldable pub rehome : ℕ → List Level → List Level → List Level
rehome j [] new = new
rehome j (x ∷ xs) new = rehome (suc j) xs (set new j x)

abbrev pub shift : ℕ → Option ℕ → Option ℕ
shift offset none = none
shift offset (some i) = some (i + offset)

unfoldable pub half_resize : ℕ → ℕ → Half → Half
unfolding rehome
half_resize offset ticks h = record {
  levels = rehome offset h.levels (replicate ticks empty_level);
  level_count = h.level_count;
  best_idx = shift offset h.best_idx;
}

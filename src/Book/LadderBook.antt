-- ===== src/Book/LadderBook.antt =====
-- `LadderBook` of include/book/ladder_book.hpp, over the `Half` of each side.
-- The window of a price, (uint64_t)((double)price * window_pct_), is floating point: it is the
-- parameter `window` of what computes it.
pub mod Grid
pub mod Growth
pub mod Invariant
pub mod Quotes
pub mod Steps
pub mod Refine
use itch_lob_engine.Book.Half.{Half, half_add, half_sub, half_resize}
use itch_lob_engine.Base.{
  ◌^◌, ◌*◌, ◌/◌, ◌%◌, ◌-◌, ◌+◌, ◌≤◌, ◌<◌, ◌≡◌, ◌≢◌, ◌↔◌, ◌⊎◌, ◌&&◌, ◌||◌, ◌∙◌, ◌∷◌, ◌++◌, ◌==◌,
  if◌then◌else◌, ℕ, zero, suc, min, max, refl, sym, ap, ap₂, subst, inl, inr, Bool, true, false,
  not, Option, none, some, List, [], map, arith, ltb, leb, length, get_or, set, take, drop,
  replicate, append-nil, append_assoc, Bool-cases, Option-cases, length-append, length-set,
  length-replicate, get_or-set_self, get_or-set_ne, get_or-replicate, ==→≡, ≡→==, ==→≢, ≢→==,
}
use itch_lob_engine.Book.Types.{Side, buy, sell, Level, Quote, Order, empty_level, side_eq}
use itch_lob_engine.Book.Locator
use itch_lob_engine.Book.Locator.{Locator}
use itch_lob_engine.Book.OrderBook.{level_add, level_less}

pub record LadderBook : Type 0 where
  pub tick_size : ℕ
  pub min_price : ℕ
  pub max_price : ℕ
  pub num_ticks : ℕ
  pub bid : Half
  pub ask : Half
  pub orders : Locator

abbrev pub max_ticks : ℕ
max_ticks = 8_000_000

abbrev pub u32_max : ℕ
u32_max = 0xffff_ffff

unfoldable pub snap_to_tick : ℕ → ℕ → ℕ
snap_to_tick price tick_size = price / tick_size * tick_size

unfoldable pub in_range : ℕ → LadderBook → Bool
in_range price b = leb b.min_price price && leb price b.max_price

unfoldable pub idx : ℕ → LadderBook → ℕ
idx price b = (price - b.min_price) / b.tick_size

-- The sum and the product are of uint32_t.
unfoldable pub price_at : ℕ → LadderBook → ℕ
price_at i b = (b.min_price + i % 2 ^ 32 * b.tick_size % 2 ^ 32) % 2 ^ 32

unfoldable pub level_sub : Side → ℕ → ℕ → Bool → LadderBook → LadderBook
unfolding half_sub idx
level_sub buy price shares gone b = record b { bid = half_sub buy (idx price b) shares gone b.bid }
level_sub sell price shares gone b = record b {
  ask = half_sub sell (idx price b) shares gone b.ask;
}

unfoldable pub side_add : Side → ℕ → ℕ → LadderBook → LadderBook
unfolding half_add idx
side_add buy price shares b = record b { bid = half_add buy (idx price b) shares b.bid }
side_add sell price shares b = record b { ask = half_add sell (idx price b) shares b.ask }

unfoldable pub resize_range : ℕ → ℕ → ℕ → LadderBook → LadderBook
unfolding half_resize
resize_range new_min new_max ticks b =
    let offset : ℕ = (b.min_price - new_min) / b.tick_size in
    record b {
      min_price = new_min;
      max_price = new_max;
      num_ticks = ticks;
      bid = half_resize offset ticks b.bid;
      ask = half_resize offset ticks b.ask;
    }

-- `add` once the price is in range.
unfoldable pub add_in_range : ℕ → Side → ℕ → ℕ → LadderBook → Bool × LadderBook
unfolding side_add
add_in_range ref side shares price b =
    if not ((price - b.min_price) % b.tick_size == 0)
    then (false, b)
    else elim (Locator.find ref b.orders) [
      | some _ ↦ (false, b)
      | none ↦
          let o : Order = record { shares = shares; price = price; side = side } in
          (true, side_add side price shares (record b { orders = (ref, o) ∷ b.orders }))
    ]

unfoldable pub reduce_found : ℕ → ℕ → Order → LadderBook → LadderBook
unfolding level_sub
reduce_found ref qty o b =
    if o.shares - qty == 0
    then level_sub o.side o.price qty true (record b { orders = Locator.erase ref b.orders })
    else level_sub o.side o.price qty false
        (record b { orders = Locator.assign ref (record o { shares = o.shares - qty }) b.orders })

unfoldable pub reduce : ℕ → ℕ → LadderBook → Bool × LadderBook
unfolding reduce_found
reduce ref shares b = elim (Locator.find ref b.orders) [
  | none ↦ (false, b)
  | some o ↦ (true, reduce_found ref (if ltb shares o.shares then shares else o.shares) o b)
]

unfoldable pub execute : ℕ → ℕ → LadderBook → Bool × LadderBook
unfolding reduce
execute ref shares b = reduce ref shares b

unfoldable pub cancel : ℕ → ℕ → LadderBook → Bool × LadderBook
unfolding reduce
cancel ref shares b = reduce ref shares b

unfoldable pub remove : ℕ → LadderBook → Bool × LadderBook
unfolding level_sub
remove ref b = elim (Locator.find ref b.orders) [
  | none ↦ (false, b)
  | some o ↦ (
    true,
    level_sub o.side o.price o.shares true (record b { orders = Locator.erase ref b.orders }),
  )
]

unfoldable pub quote : Half → LadderBook → Option Quote
unfolding price_at
quote h b = elim h.best_idx [
  | none ↦ none
  | some i ↦ some (record { price = price_at i b; shares = (get_or h.levels i empty_level).shares })
]

unfoldable pub best_bid : LadderBook → Option Quote
unfolding quote
best_bid b = quote b.bid b

unfoldable pub best_ask : LadderBook → Option Quote
unfolding quote
best_ask b = quote b.ask b

unfoldable pub open_orders : LadderBook → ℕ
open_orders b = length b.orders

unfoldable pub bid_levels : LadderBook → ℕ
bid_levels b = b.bid.level_count

unfoldable pub ask_levels : LadderBook → ℕ
ask_levels b = b.ask.level_count

-- The private constructor: `none` where `check_range` throws.
unfoldable pub with_range : ℕ → ℕ → ℕ → Option LadderBook
with_range tick_size min_price max_price =
    if ltb max_price min_price
    then none
    else let ticks : ℕ = (max_price - min_price) / tick_size + 1 in
      let h : Half = record {
        levels = replicate ticks empty_level;
        level_count = 0;
        best_idx = none;
      } in
      some (record {
        tick_size = tick_size;
        min_price = min_price;
        max_price = max_price;
        num_ticks = ticks;
        bid = h;
        ask = h;
        orders = [];
      })

module _ (window : ℕ → ℕ) where
  unfoldable pub window_low : ℕ → ℕ
  window_low price = if ltb (window price) price then price - window price else 0

  unfoldable pub window_high : ℕ → ℕ
  window_high price = min ((price + window price) % 2 ^ 64) u32_max

  -- The range that `grow_to_include` asks for.
  unfoldable pub wider_min : ℕ → LadderBook → ℕ
  unfolding window_low snap_to_tick
  wider_min price b =
      if ltb price b.min_price
      then min b.min_price (snap_to_tick (window_low price) b.tick_size)
      else b.min_price

  unfoldable pub wider_max : ℕ → LadderBook → ℕ
  unfolding window_high
  wider_max price b =
      if ltb b.max_price price then max b.max_price (window_high price) else b.max_price

  -- `none` where the ladder refuses to grow.
  unfoldable pub grow_to_include : ℕ → LadderBook → Option LadderBook
  unfolding wider_min wider_max resize_range
  grow_to_include price b =
      let new_min : ℕ = wider_min price b in
      let new_max : ℕ = wider_max price b in
      let ticks : ℕ = (new_max - new_min) / b.tick_size + 1 in
      if new_min == b.min_price && new_max == b.max_price
      then some b
      else if ltb max_ticks ticks
      then none
      else some (resize_range new_min new_max ticks b)

  unfoldable pub make_room : ℕ → LadderBook → Option LadderBook
  unfolding in_range grow_to_include
  make_room price b = if in_range price b then some b else grow_to_include price b

  unfoldable pub add : ℕ → Side → ℕ → ℕ → LadderBook → Bool × LadderBook
  unfolding make_room add_in_range
  add ref side shares price b = elim (make_room price b) [
    | none ↦ (false, b)
    | some b' ↦ add_in_range ref side shares price b'
  ]

  unfoldable pub replace : ℕ → ℕ → ℕ → ℕ → LadderBook → Bool × LadderBook
  unfolding add remove
  replace orig next shares price b = elim (Locator.find orig b.orders) [
    | none ↦ (false, b)
    | some o ↦ add next o.side shares price (remove orig b).1
  ]

  unfoldable pub construct : ℕ → ℕ → Option LadderBook
  unfolding with_range window_low window_high snap_to_tick
  construct base_price tick_size =
      let tick : ℕ = if tick_size == 0 then 1 else tick_size in
      with_range tick (snap_to_tick (window_low base_price) tick) (window_high base_price)

-- ===== src/Book/OrderBook.antt =====
-- `OrderBook` of include/book/order_book.hpp. A mutator returns its bool beside the new book.
pub mod Sides
pub mod Invariant
pub mod Refine
use itch_lob_engine.Base.{
  ◌^◌, ◌*◌, ◌/◌, ◌%◌, ◌-◌, ◌+◌, ◌≤◌, ◌<◌, ◌≡◌, ◌≢◌, ◌↔◌, ◌⊎◌, ◌&&◌, ◌||◌, ◌∙◌, ◌∷◌, ◌++◌, ◌==◌,
  if◌then◌else◌, ℕ, zero, suc, min, max, refl, sym, ap, ap₂, subst, inl, inr, Bool, true, false,
  not, Option, none, some, List, [], map, arith, ltb, leb, length, get_or, set, take, drop,
  replicate, append-nil, append_assoc, Bool-cases, Option-cases, length-append, length-set,
  length-replicate, get_or-set_self, get_or-set_ne, get_or-replicate, ==→≡, ≡→==, ==→≢, ≢→==,
}
use itch_lob_engine.Book.Types.{Side, buy, sell, Level, Quote, Order, empty_level}
use itch_lob_engine.Book.Locator
use itch_lob_engine.Book.Locator.{Locator}
use itch_lob_engine.Book.Ladder
use itch_lob_engine.Book.Ladder.{Ladder}

pub record OrderBook : Type 0 where
  pub bids : Ladder
  pub asks : Ladder
  pub orders : Locator

abbrev pub empty_book : OrderBook
empty_book = record { bids = []; asks = []; orders = [] }

-- `lvl.shares += shares; lvl.orders += 1`, on a uint64_t and a uint32_t
unfoldable pub level_add : ℕ → Level → Level
level_add shares l = record {
  shares = (l.shares + shares) % 2 ^ 64;
  orders = (l.orders + 1) % 2 ^ 32;
}

-- The two lines of `sub_in` that lower a level.
unfoldable pub level_less : ℕ → Bool → Level → Level
level_less shares order_gone l = record {
  shares = l.shares - (if ltb shares l.shares then shares else l.shares);
  orders = if order_gone && ltb 0 l.orders then l.orders - 1 else l.orders;
}

-- A level with no order left is erased.
unfoldable pub sub_found : ℕ → Level → Ladder → Ladder
sub_found price l m = if l.orders == 0 then Ladder.erase price m else Ladder.assign price l m

unfoldable pub sub_in : ℕ → ℕ → Bool → Ladder → Ladder
unfolding level_less sub_found
sub_in price shares order_gone m = elim (Ladder.find price m) [
  | none ↦ m
  | some l ↦ sub_found price (level_less shares order_gone l) m
]

unfoldable pub level_sub : Side → ℕ → ℕ → Bool → OrderBook → OrderBook
unfolding sub_in
level_sub buy price shares gone b = record b { bids = sub_in price shares gone b.bids }
level_sub sell price shares gone b = record b { asks = sub_in price shares gone b.asks }

unfoldable pub side_add : Side → ℕ → ℕ → OrderBook → OrderBook
unfolding level_add
side_add buy price shares b = record b { bids = Ladder.upsert buy (level_add shares) price b.bids }
side_add sell price shares b = record b {
  asks = Ladder.upsert sell (level_add shares) price b.asks;
}

unfoldable pub add : ℕ → Side → ℕ → ℕ → OrderBook → Bool × OrderBook
unfolding side_add
add ref side shares price b = elim (Locator.find ref b.orders) [
  | some _ ↦ (false, b)
  | none ↦
      let o : Order = record { shares = shares; price = price; side = side } in
      (true, side_add side price shares (record b { orders = (ref, o) ∷ b.orders }))
]

-- `reduce` from the found order on; `qty` is the clamped quantity.
unfoldable pub reduce_found : ℕ → ℕ → Order → OrderBook → OrderBook
unfolding level_sub
reduce_found ref qty o b =
    if o.shares - qty == 0
    then level_sub o.side o.price qty true (record b { orders = Locator.erase ref b.orders })
    else level_sub o.side o.price qty false
        (record b { orders = Locator.assign ref (record o { shares = o.shares - qty }) b.orders })

unfoldable pub reduce : ℕ → ℕ → OrderBook → Bool × OrderBook
unfolding reduce_found
reduce ref shares b = elim (Locator.find ref b.orders) [
  | none ↦ (false, b)
  | some o ↦ (true, reduce_found ref (if ltb shares o.shares then shares else o.shares) o b)
]

unfoldable pub execute : ℕ → ℕ → OrderBook → Bool × OrderBook
unfolding reduce
execute ref shares b = reduce ref shares b

unfoldable pub cancel : ℕ → ℕ → OrderBook → Bool × OrderBook
unfolding reduce
cancel ref shares b = reduce ref shares b

unfoldable pub remove : ℕ → OrderBook → Bool × OrderBook
unfolding level_sub
remove ref b = elim (Locator.find ref b.orders) [
  | none ↦ (false, b)
  | some o ↦ (
    true,
    level_sub o.side o.price o.shares true (record b { orders = Locator.erase ref b.orders }),
  )
]

unfoldable pub replace : ℕ → ℕ → ℕ → ℕ → OrderBook → Bool × OrderBook
unfolding add remove
replace orig next shares price b = elim (Locator.find orig b.orders) [
  | none ↦ (false, b)
  | some o ↦ add next o.side shares price (remove orig b).1
]

-- The first entry of a map, as a quote.
unfoldable pub front : Ladder → Option Quote
front [] = none
front ((p, l) ∷ m) = some (record { price = p; shares = l.shares })

unfoldable pub best_bid : OrderBook → Option Quote
unfolding front
best_bid b = front b.bids

unfoldable pub best_ask : OrderBook → Option Quote
unfolding front
best_ask b = front b.asks

unfoldable pub open_orders : OrderBook → ℕ
open_orders b = length b.orders

unfoldable pub bid_levels : OrderBook → ℕ
bid_levels b = length b.bids

unfoldable pub ask_levels : OrderBook → ℕ
ask_levels b = length b.asks

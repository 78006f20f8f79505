-- ===== src/Exec/Types.antt =====
-- include/exec/types.hpp: the plain data and the bounded queue of child orders.
use itch_lob_engine.Base.{
  ◌+◌, ◌≡◌, ◌∷◌, ◌++◌, if◌then◌else◌, ℕ, Bool, true, false, List, [], arith, leb, length,
}
use itch_lob_engine.Book.Types.{Side}

pub data OrderType : Type 0 where
  limit market : OrderType

pub record Bbo : Type 0 where
  pub ts : ℕ
  pub bid_price : ℕ
  pub bid_shares : ℕ
  pub ask_price : ℕ
  pub ask_shares : ℕ

pub record TradeTick : Type 0 where
  pub ts : ℕ
  pub price : ℕ
  pub shares : ℕ
  pub side : Side

pub record ChildOrder : Type 0 where
  pub ts : ℕ
  pub side : Side
  pub type : OrderType
  pub price : ℕ
  pub shares : ℕ

abbrev pub max_child_orders : ℕ
max_child_orders = 512

abbrev pub max_schedule_bins : ℕ
max_schedule_bins = 512

-- `ChildOrderQueue`, as the orders between begin() and end().
abbrev pub Queue : Type 0
Queue = List ChildOrder

unfoldable pub full : Queue → Bool
full q = leb max_child_orders (length q)

-- `ChildOrderQueue::push`
unfoldable pub push : ChildOrder → Queue → Bool × Queue
push o q = if leb max_child_orders (length q) then (false, q) else (true, q ++ o ∷ [])

-- The shares of all orders of a queue.
abbrev pub sum_shares : Queue → ℕ
sum_shares [] = 0
sum_shares (o ∷ q) = o.shares + sum_shares q

pub sum_shares-append : (p q : Queue) → sum_shares (p ++ q) ≡ sum_shares p + sum_shares q
sum_shares-append [] q = omega arith
sum_shares-append (o ∷ p) q = omega (arith, sum_shares-append p q)

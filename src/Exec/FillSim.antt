-- ===== src/Exec/FillSim.antt =====
-- `FillSimulator` of include/exec/fill_sim.hpp.
pub mod Fills
use itch_lob_engine.Base.{
  ◌^◌, ◌*◌, ◌/◌, ◌%◌, ◌-◌, ◌+◌, ◌≤◌, ◌<◌, ◌≡◌, ◌≢◌, ◌↔◌, ◌⊎◌, ◌&&◌, ◌||◌, ◌∙◌, ◌∷◌, ◌++◌, ◌==◌,
  if◌then◌else◌, ℕ, zero, suc, min, max, refl, sym, ap, ap₂, subst, inl, inr, Bool, true, false,
  not, Option, none, some, List, [], map, arith, ltb, leb, length, get_or, set, take, drop,
  replicate, append-nil, append_assoc, Bool-cases, Option-cases, length-append, length-set,
  length-replicate, get_or-set_self, get_or-set_ne, get_or-replicate, ==→≡, ≡→==, ==→≢, ≢→==,
  length-drop, length-take_le, drop-nil, take-nil, drop-add, drop-take_add, take-take_le,
  get_or-take, take-append_le, drop-append_le, get_or-append,
}
use itch_lob_engine.Book.Types.{Side, buy, sell, side_eq, Level, empty_level, Quote, Order}
use itch_lob_engine.Exec.Types.{OrderType, limit, market, Bbo, ChildOrder, TradeTick}

pub record Fill : Type 0 where
  pub ts : ℕ
  pub side : Side
  pub price : ℕ
  pub shares : ℕ

abbrev pub max_fills : ℕ
max_fills = 512

-- `FillQueue::push`
unfoldable pub push : Fill → List Fill → Bool × List Fill
push f q = if leb max_fills (length q) then (false, q) else (true, q ++ f ∷ [])

pub record FillSimulator : Type 0 where
  pub bbo : Bbo
  pub last_trade_price : ℕ
  pub fills : List Fill
  pub shares_filled : ℕ
  pub shares_attempted : ℕ
  pub notional : ℕ

unfoldable pub on_bbo_change : Bbo → FillSimulator → FillSimulator
on_bbo_change bbo s = record s { bbo = bbo }

unfoldable pub on_trade_tick : TradeTick → FillSimulator → FillSimulator
on_trade_tick tick s = record s { last_trade_price = tick.price }

abbrev pub some_if : Bool → ℕ → Option ℕ
some_if true p = some p
some_if false p = none

-- The price at which an order is marketable, if it is.
unfoldable pub fill_price : OrderType → Side → ℕ → FillSimulator → Option ℕ
fill_price market side price s = some_if (not (s.last_trade_price == 0)) s.last_trade_price
fill_price limit buy price s =
    some_if (not (s.bbo.ask_price == 0) && leb s.bbo.ask_price price) s.bbo.ask_price
fill_price limit sell price s =
    some_if (not (s.bbo.bid_price == 0) && leb price s.bbo.bid_price) s.bbo.bid_price

-- `fill` once the price is known.
unfoldable pub fill_at : ChildOrder → ℕ → FillSimulator → Bool × FillSimulator
unfolding push
fill_at o price s =
    let f : Fill = record { ts = o.ts; side = o.side; price = price; shares = o.shares } in
    let (pushed, fills) = push f s.fills in
    if pushed
    then (
      true,
      record s {
        fills = fills;
        shares_filled = (s.shares_filled + o.shares) % 2 ^ 32;
        notional = (s.notional + price * o.shares) % 2 ^ 128;
      },
    )
    else (false, s)

unfoldable pub fill : ChildOrder → FillSimulator → Bool × FillSimulator
unfolding fill_price fill_at
fill o s =
    let tried : FillSimulator = record s {
      shares_attempted = (s.shares_attempted + o.shares) % 2 ^ 32;
    } in
    elim (fill_price o.type o.side o.price s) [ none ↦ (false, tried) | some p ↦ fill_at o p tried ]

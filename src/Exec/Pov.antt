-- ===== src/Exec/Pov.antt =====
-- `Pov` of include/exec/pov.hpp.
pub mod Budget
use itch_lob_engine.Base.{
  ◌^◌, ◌*◌, ◌/◌, ◌%◌, ◌-◌, ◌+◌, ◌≤◌, ◌<◌, ◌≡◌, ◌≢◌, ◌↔◌, ◌⊎◌, ◌&&◌, ◌||◌, ◌∙◌, ◌∷◌, ◌++◌, ◌==◌,
  if◌then◌else◌, ℕ, zero, suc, min, max, refl, sym, ap, ap₂, subst, inl, inr, Bool, true, false,
  not, Option, none, some, List, [], map, arith, ltb, leb, length, get_or, set, take, drop,
  replicate, append-nil, append_assoc, Bool-cases, Option-cases, length-append, length-set,
  length-replicate, get_or-set_self, get_or-set_ne, get_or-replicate, ==→≡, ≡→==, ==→≢, ≢→==,
  length-drop, length-take_le, drop-nil, take-nil, drop-add, drop-take_add, take-take_le,
  get_or-take, take-append_le, drop-append_le, get_or-append,
}
use itch_lob_engine.Book.Types.{Side, buy, sell, side_eq, Level, empty_level, Quote, Order}
use itch_lob_engine.Exec.Types.{OrderType, limit, market, ChildOrder, TradeTick, Queue, push}

pub record PovParams : Type 0 where
  pub side : Side
  pub max_shares : ℕ
  pub participation_bps : ℕ
  pub end_ts : ℕ

pub record Pov : Type 0 where
  pub params : PovParams
  pub shares_sent : ℕ
  pub queue : Queue

abbrev pub make : PovParams → Pov
make p = record { params = p; shares_sent = 0; queue = [] }

unfoldable pub done : Pov → Bool
done s = leb s.params.max_shares s.shares_sent

-- uint32_t subtraction
unfoldable pub remaining : Pov → ℕ
remaining s = (s.params.max_shares + 2 ^ 32 - s.shares_sent) % 2 ^ 32

-- `this_slice`, with `raw` a uint64_t
unfoldable pub slice : TradeTick → Pov → ℕ
unfolding remaining
slice tick s =
    let raw : ℕ = tick.shares * s.params.participation_bps % 2 ^ 64 / 10_000 in
    if ltb (remaining s) raw then remaining s else raw

unfoldable pub child : TradeTick → ℕ → Pov → ChildOrder
child tick shares s = record {
  ts = tick.ts;
  side = s.params.side;
  type = market;
  price = 0;
  shares = shares;
}

-- The result of `push` is not looked at.
unfoldable pub on_trade_tick : TradeTick → Pov → Pov
unfolding done slice child push
on_trade_tick tick s =
    if done s
    then s
    else if not (s.params.end_ts == 0) && ltb s.params.end_ts tick.ts
    then s
    else if slice tick s == 0
    then s
    else record s {
      queue = (push (child tick (slice tick s) s) s.queue).1;
      shares_sent = (s.shares_sent + slice tick s) % 2 ^ 32;
    }

-- ===== src/Exec/Vwap.antt =====
-- `Vwap` of include/exec/vwap.hpp over the curve of include/exec/volume_curve.hpp. The curve's table
-- is computed in floating point, but for its last entry: `rounded i` stands for entry `i` below that.
pub mod Target
use itch_lob_engine.Base.{
  ◌^◌, ◌*◌, ◌/◌, ◌%◌, ◌-◌, ◌+◌, ◌≤◌, ◌<◌, ◌≡◌, ◌≢◌, ◌↔◌, ◌⊎◌, ◌&&◌, ◌||◌, ◌∙◌, ◌∷◌, ◌++◌, ◌==◌,
  if◌then◌else◌, ℕ, zero, suc, min, max, refl, sym, ap, ap₂, subst, inl, inr, Bool, true, false,
  not, Option, none, some, List, [], map, arith, ltb, leb, length, get_or, set, take, drop,
  replicate, append-nil, append_assoc, Bool-cases, Option-cases, length-append, length-set,
  length-replicate, get_or-set_self, get_or-set_ne, get_or-replicate, ==→≡, ≡→==, ==→≢, ≢→==,
  length-drop, length-take_le, drop-nil, take-nil, drop-add, drop-take_add, take-take_le,
  get_or-take, take-append_le, drop-append_le, get_or-append,
}
use itch_lob_engine.Book.Types.{Side, buy, sell, side_eq, Level, empty_level, Quote, Order}
use itch_lob_engine.Exec.Types.{OrderType, limit, market, ChildOrder, TradeTick, Queue, push}

pub record VwapParams : Type 0 where
  pub side : Side
  pub total_shares : ℕ
  pub start_ts : ℕ
  pub end_ts : ℕ
  pub child_type : OrderType
  pub limit_price : ℕ

pub record Vwap : Type 0 where
  pub params : VwapParams
  pub shares_sent : ℕ
  pub market_shares_seen : ℕ
  pub queue : Queue

-- The constructor: `none` where it throws.
unfoldable pub make : VwapParams → Option Vwap
make p =
    if leb p.end_ts p.start_ts
    then none
    else some (record { params = p; shares_sent = 0; market_shares_seen = 0; queue = [] })

abbrev pub buckets : ℕ
buckets = 13

abbrev pub curve_scale : ℕ
curve_scale = 1_000_000

unfoldable pub done : Vwap → Bool
done s = leb s.params.total_shares s.shares_sent

-- `bucket_position`: the index and the remainder.
unfoldable pub bucket_position : ℕ → ℕ → ℕ × ℕ
bucket_position elapsed span =
    if leb span elapsed
    then (buckets - 1, span)
    else let index : ℕ = elapsed * buckets / span in
      (if leb buckets index then buckets - 1 else index, elapsed * buckets % span)

module _ (rounded : ℕ → ℕ) where
  unfoldable pub cumulative_weight : ℕ → ℕ
  cumulative_weight i = if leb (buckets - 1) i then curve_scale else rounded i

  -- `curve_fraction` at a position: the weight of a bucket is a difference of uint64_t, and the
  -- products are of 128 bits, which hold them.
  unfoldable pub curve_fraction : ℕ → ℕ → ℕ → ℕ
  unfolding cumulative_weight
  curve_fraction index remainder span =
      let before : ℕ = if index == 0 then 0 else cumulative_weight (index - 1) in
      let weight : ℕ = (cumulative_weight index + 2 ^ 64 - before) % 2 ^ 64 in
      before + weight * remainder / span

  unfoldable pub target_shares : ℕ → Vwap → ℕ
  unfolding bucket_position curve_fraction
  target_shares now s =
      let span : ℕ = s.params.end_ts - s.params.start_ts in
      let (index, remainder) = bucket_position (now - s.params.start_ts) span in
      min s.params.total_shares
        (s.params.total_shares * curve_fraction index remainder span / curve_scale)

  unfoldable pub child : TradeTick → ℕ → Vwap → ChildOrder
  child tick shares s = record {
    ts = tick.ts;
    side = s.params.side;
    type = s.params.child_type;
    price = s.params.limit_price;
    shares = shares;
  }

  -- What is sent once the target is ahead: nothing is counted where the queue is full.
  unfoldable pub send : TradeTick → ℕ → Vwap → Vwap
  unfolding child push
  send tick target s =
      let behind : ℕ = target - s.shares_sent in
      let left : ℕ = s.params.total_shares - s.shares_sent in
      let to_send : ℕ = if ltb behind left then behind else left in
      let (pushed, queue) = push (child tick to_send s) s.queue in
      if to_send == 0
      then s
      else if pushed
      then record s { queue = queue; shares_sent = (s.shares_sent + to_send) % 2 ^ 32 }
      else s

  unfoldable pub on_trade_tick : TradeTick → Vwap → Vwap
  unfolding done target_shares send
  on_trade_tick tick s =
      if ltb tick.ts s.params.start_ts || ltb s.params.end_ts tick.ts
      then s
      else let seen : Vwap = record s {
        market_shares_seen = (s.market_shares_seen + tick.shares) % 2 ^ 32;
      } in
        if done s
        then seen
        else if leb (target_shares tick.ts s) s.shares_sent
        then seen
        else send tick (target_shares tick.ts s) seen

-- ===== src/Exec/RiskGate.antt =====
-- `RiskGate` and `apply` of include/exec/risk_gate.hpp. The totals wrap as a uint64_t and an unsigned
-- __int128 do.
pub mod Limits
pub mod Latch
pub mod Drain
use itch_lob_engine.Base.{
  ◌^◌, ◌*◌, ◌/◌, ◌%◌, ◌-◌, ◌+◌, ◌≤◌, ◌<◌, ◌≡◌, ◌≢◌, ◌↔◌, ◌⊎◌, ◌&&◌, ◌||◌, ◌∙◌, ◌∷◌, ◌++◌, ◌==◌,
  if◌then◌else◌, ℕ, zero, suc, min, max, refl, sym, ap, ap₂, subst, inl, inr, Bool, true, false,
  not, Option, none, some, List, [], map, arith, ltb, leb, length, get_or, set, take, drop,
  replicate, append-nil, append_assoc, Bool-cases, Option-cases, length-append, length-set,
  length-replicate, get_or-set_self, get_or-set_ne, get_or-replicate, ==→≡, ≡→==, ==→≢, ≢→==,
  length-drop, length-take_le, drop-nil, take-nil, drop-add, drop-take_add, take-take_le,
  get_or-take, take-append_le, drop-append_le, get_or-append,
}
use itch_lob_engine.Exec.Types.{OrderType, limit, market, ChildOrder, Queue, push}

pub record RiskLimits : Type 0 where
  pub max_order_shares : ℕ
  pub max_order_notional : ℕ
  pub price_collar_bps : ℕ
  pub max_cumulative_shares : ℕ
  pub max_cumulative_notional : ℕ

pub data RejectReason : Type 0 where
  none_violated order_too_large notional_too_large price_out_of_collar : RejectReason
  cumulative_shares_exceeded cumulative_notional_exceeded kill_switch_tripped : RejectReason

pub record RiskGate : Type 0 where
  pub limits : RiskLimits
  pub reference_price : ℕ
  pub tripped : Bool
  pub cumulative_shares : ℕ
  pub cumulative_notional : ℕ

abbrev pub new_gate : RiskLimits → ℕ → RiskGate
new_gate limits reference_price = record {
  limits = limits;
  reference_price = reference_price;
  tripped = false;
  cumulative_shares = 0;
  cumulative_notional = 0;
}

unfoldable pub set_reference_price : ℕ → RiskGate → RiskGate
set_reference_price p g = record g { reference_price = p }

-- `order_notional`, a product of two uint32_t in a uint64_t
unfoldable pub order_notional : ChildOrder → ℕ
order_notional o = o.price * o.shares % 2 ^ 64

unfoldable pub diff : ℕ → ℕ → ℕ
diff price reference = if leb reference price then price - reference else reference - price

abbrev pub is_limit : OrderType → Bool
is_limit limit = true
is_limit market = false

-- The collar test: whether the order is outside.
unfoldable pub out_of_collar : ChildOrder → RiskGate → Bool
unfolding diff
out_of_collar o g =
    is_limit o.type
    && not (g.reference_price == 0)
    && ltb (g.reference_price * g.limits.price_collar_bps % 2 ^ 64 / 10_000)
        (diff o.price g.reference_price)

-- The tests of the running totals, which trip the gate.
unfoldable pub check_cumulative : ChildOrder → RiskGate → RejectReason × RiskGate
unfolding order_notional
check_cumulative o g =
    if ltb g.limits.max_cumulative_shares ((g.cumulative_shares + o.shares) % 2 ^ 64)
    then (cumulative_shares_exceeded, record g { tripped = true })
    else if ltb g.limits.max_cumulative_notional
        ((g.cumulative_notional + order_notional o) % 2 ^ 128)
    then (cumulative_notional_exceeded, record g { tripped = true })
    else (none_violated, g)

unfoldable pub check : ChildOrder → RiskGate → RejectReason × RiskGate
unfolding order_notional out_of_collar check_cumulative
check o g =
    if g.tripped
    then (kill_switch_tripped, g)
    else if ltb g.limits.max_order_shares o.shares
    then (order_too_large, g)
    else if ltb g.limits.max_order_notional (order_notional o)
    then (notional_too_large, g)
    else if out_of_collar o g
    then (price_out_of_collar, g)
    else check_cumulative o g

-- `RiskGate::record`
unfoldable pub record_order : ChildOrder → RiskGate → RiskGate
record_order o g = record g {
  cumulative_shares = (g.cumulative_shares + o.shares) % 2 ^ 64;
  cumulative_notional = (g.cumulative_notional + o.price * o.shares % 2 ^ 128) % 2 ^ 128;
}

unfoldable pub reset : RiskGate → RiskGate
reset g = record g { tripped = false; cumulative_shares = 0; cumulative_notional = 0 }

abbrev pub is_none : RejectReason → Bool
is_none none_violated = true
is_none _ = false

-- The state of `apply`: the gate, the accepted orders, their number, and the reasons so far.
pub record Drained : Type 0 where
  pub gate : RiskGate
  pub accepted : Queue
  pub count : ℕ
  pub reasons : List RejectReason

-- The last two lines of the loop's body: `accepted.push` is reached only where nothing is violated.
unfoldable pub admit : ChildOrder → RejectReason → RiskGate → Drained → Drained
unfolding push record_order
admit o reason g d =
    let (pushed, accepted) = push o d.accepted in
    if is_none reason && pushed
    then record {
      gate = record_order o g;
      accepted = accepted;
      count = d.count + 1;
      reasons = d.reasons ++ reason ∷ [];
    }
    else record {
      gate = g;
      accepted = d.accepted;
      count = d.count;
      reasons = d.reasons ++ reason ∷ [];
    }

unfoldable pub apply_one : ChildOrder → Drained → Drained
unfolding check admit
apply_one o d = let (reason, g) = check o d.gate in admit o reason g d

unfoldable pub apply_each : Queue → Drained → Drained
unfolding apply_one
apply_each [] d = d
apply_each (o ∷ os) d = apply_each os (apply_one o d)

unfoldable pub apply : RiskGate → Queue → Queue → Drained
unfolding apply_each
apply gate orders accepted =
    apply_each orders (record { gate = gate; accepted = accepted; count = 0; reasons = [] })

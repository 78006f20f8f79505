-- ===== src/Exec/RiskGate/Limits.antt =====
-- What `check` lets pass, in plain arithmetic.
use itch_lob_engine.Base.{◌^◌, ◌*◌, ◌+◌, ◌≤◌, ◌<◌, ◌≡◌, ◌↔◌, ℕ, ap, false, arith, ◌⊎◌}
use itch_lob_engine.Exec.Types.{ChildOrder}
use itch_lob_engine.Exec.RiskGate.{
  RiskGate, RejectReason, none_violated, check, check_cumulative, order_notional, out_of_collar,
  market,
}

-- The order's fields are uint32_t.
pub record OrderFits (o : ChildOrder) : Type 0 where
  pub price_fits : o.price < 2 ^ 32
  pub shares_fit : o.shares < 2 ^ 32

-- The gate's fields fit their types, and its totals are within their limits.
pub record IsWithin (g : RiskGate) : Type 0 where
  pub reference_fits : g.reference_price < 2 ^ 32
  pub collar_fits : g.limits.price_collar_bps < 2 ^ 32
  pub max_shares_fits : g.limits.max_cumulative_shares < 2 ^ 32
  pub max_notional_fits : g.limits.max_cumulative_notional < 2 ^ 64
  pub shares_within : g.cumulative_shares ≤ g.limits.max_cumulative_shares
  pub notional_within : g.cumulative_notional ≤ g.limits.max_cumulative_notional

pub product_fits : (a b : ℕ) → a < 2 ^ 32 → b < 2 ^ 32 → a * b < 2 ^ 64
product_fits a b h k = grind arith

-- The distance of a price from the reference, in either direction, is at most `bps` ten-thousandths
-- of the reference.
abbrev pub InCollar : ℕ → ℕ → ℕ → Type 0
InCollar price reference bps =
    (price * 10_000 ≤ reference * 10_000 + reference * bps)
    × (reference * 10_000 ≤ price * 10_000 + reference * bps)

-- Every limit holds of the order, the running totals with the order counted in.
pub record Passes (o : ChildOrder) (g : RiskGate) : Type 0 where
  pub not_tripped : g.tripped ≡ false
  pub size_ok : o.shares ≤ g.limits.max_order_shares
  pub notional_ok : o.price * o.shares ≤ g.limits.max_order_notional
  pub collar_ok :
      (o.type ≡ market)
      ⊎ (g.reference_price ≡ 0)
      ⊎ InCollar o.price g.reference_price g.limits.price_collar_bps
  pub shares_ok : g.cumulative_shares + o.shares ≤ g.limits.max_cumulative_shares
  pub total_ok : g.cumulative_notional + o.price * o.shares ≤ g.limits.max_cumulative_notional

module _ (o : ChildOrder) (g : RiskGate) (f : OrderFits o) (w : IsWithin g) where
  notional_exact : order_notional o ≡ o.price * o.shares
  unfolding order_notional
  notional_exact = omega (arith, product_fits o.price o.shares f.price_fits f.shares_fit)

  in_collar :
      out_of_collar o g ≡ false
      → (o.type ≡ market)
        ⊎ (g.reference_price ≡ 0)
        ⊎ InCollar o.price g.reference_price g.limits.price_collar_bps
  unfolding out_of_collar
  in_collar h = ground (
    arith,
    product_fits g.reference_price g.limits.price_collar_bps w.reference_fits w.collar_fits,
  )

  out_collar :
      (o.type ≡ market)
        ⊎ (g.reference_price ≡ 0)
        ⊎ InCollar o.price g.reference_price g.limits.price_collar_bps
      → out_of_collar o g ≡ false
  unfolding out_of_collar
  out_collar h = ground (
    arith,
    h,
    product_fits g.reference_price g.limits.price_collar_bps w.reference_fits w.collar_fits,
  )

  pub none-Passes : (check o g).0 ≡ none_violated → Passes o g
  unfolding check check_cumulative
  none-Passes h = record {
    not_tripped = ground arith;
    size_ok = ground arith;
    notional_ok = ground (arith, notional_exact);
    collar_ok = in_collar (ground arith);
    shares_ok = ground (arith, f.shares_fit, w.shares_within);
    total_ok = ground (
      arith,
      notional_exact,
      w.notional_within,
      product_fits o.price o.shares f.price_fits f.shares_fit,
    );
  }

  pub Passes-check : Passes o g → check o g ≡ (none_violated, g)
  unfolding check check_cumulative
  Passes-check p = ground (
    arith,
    notional_exact,
    out_collar p.collar_ok,
    product_fits o.price o.shares f.price_fits f.shares_fit,
  )

  -- For an order and a gate whose fields fit their types, with the totals within their limits: `check`
  -- answers None exactly where the gate is not tripped and every limit holds of the order:
  -- size, notional, collar (for limit orders with a reference price), and both running totals with
  -- the order counted in. No addition or product wraps.
  pub check_iff : ((check o g).0 ≡ none_violated) ↔ Passes o g
  check_iff = (none-Passes, λ p. ap (λ (r : RejectReason × RiskGate). r.0) (Passes-check p))

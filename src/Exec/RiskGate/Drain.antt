-- ===== src/Exec/RiskGate/Drain.antt =====
-- `apply`: the running totals are those of the orders accepted, and stay within their limits.
use itch_lob_engine.Base.{
  max, ◌*◌, ◌+◌, ◌≤◌, ◌<◌, ◌≡◌, ◌⊎◌, ◌∙◌, ◌∷◌, ◌++◌, ℕ, refl, sym, ap, subst, inl, inr, true, false,
  [], arith, leb, length, Bool-cases, length-append,
}
use itch_lob_engine.Exec.Types.{
  ChildOrder, Queue, push, sum_shares, sum_shares-append, max_child_orders,
}
use itch_lob_engine.Exec.RiskGate.{
  RiskGate, RejectReason, none_violated, check, record_order, Drained, admit, apply_one, apply_each,
  apply, is_none,
}
use itch_lob_engine.Exec.RiskGate.Limits.{
  OrderFits, IsWithin, Passes, none-Passes, Passes-check, product_fits,
}

-- The price times shares of all orders of a queue.
abbrev pub sum_notional : Queue → ℕ
sum_notional [] = 0
sum_notional (o ∷ q) = o.price * o.shares + sum_notional q

sum_notional-append : (p q : Queue) → sum_notional (p ++ q) ≡ sum_notional p + sum_notional q
sum_notional-append [] q = omega arith
sum_notional-append (o ∷ p) q = omega (arith, sum_notional-append p q)

abbrev pub AllFit : Queue → Type 0
AllFit [] = Unit {0}
AllFit (o ∷ q) = OrderFits o × AllFit q

-- Between two states of the drain: the totals have grown by what was accepted, the count by the
-- number of orders, and the limits are what they were.
pub record Tracks (d e : Drained) : Type 0 where
  pub within : IsWithin e.gate
  pub same_limits : e.gate.limits ≡ d.gate.limits
  pub shares_track :
      e.gate.cumulative_shares + sum_shares d.accepted
      ≡ d.gate.cumulative_shares + sum_shares e.accepted
  pub notional_track :
      e.gate.cumulative_notional + sum_notional d.accepted
      ≡ d.gate.cumulative_notional + sum_notional e.accepted
  pub count_track : e.count + length d.accepted ≡ d.count + length e.accepted
  pub bounded : length e.accepted ≤ max max_child_orders (length d.accepted)

check-IsWithin : (o : ChildOrder) (g : RiskGate) → IsWithin g → IsWithin (check o g).1
unfolding check
check-IsWithin o g w = ground arith

check-same :
    (o : ChildOrder) (g : RiskGate)
    → ((check o g).1.limits ≡ g.limits)
      × ((check o g).1.cumulative_shares ≡ g.cumulative_shares)
      × ((check o g).1.cumulative_notional ≡ g.cumulative_notional)
unfolding check
check-same o g = ground arith

-- An order that passes: recording it does not wrap, and keeps the totals within their limits.
pub record_order-exact :
    (o : ChildOrder) (g : RiskGate)
    → OrderFits o
    → IsWithin g
    → Passes o g
    → IsWithin (record_order o g)
      × ((record_order o g).cumulative_shares ≡ g.cumulative_shares + o.shares)
      × ((record_order o g).cumulative_notional ≡ g.cumulative_notional + o.price * o.shares)
unfolding record_order
record_order-exact o g f w p =
    ground (arith, product_fits o.price o.shares f.price_fits f.shares_fit)

record_order-limits : (o : ChildOrder) (g : RiskGate) → (record_order o g).limits ≡ g.limits
unfolding record_order
record_order-limits o g = refl

is_none→≡ : (r : RejectReason) → is_none r ≡ true → r ≡ none_violated
is_none→≡ r h = ground arith

module _ (o : ChildOrder) (d : Drained) (f : OrderFits o) (w : IsWithin d.gate) where
  skipped-Tracks :
      (e : Drained)
      → e.gate ≡ (check o d.gate).1
      → e.accepted ≡ d.accepted
      → e.count ≡ d.count
      → Tracks d e
  skipped-Tracks e same q c = record {
    within = subst IsWithin (sym same) (check-IsWithin o d.gate w);
    same_limits = ap (λ (g : RiskGate). g.limits) same ∙ (check-same o d.gate).0;
    shares_track = ground (arith, check-same o d.gate);
    notional_track = ground (arith, check-same o d.gate);
    count_track = ground arith;
    bounded = ground arith;
  }

  admitted-Tracks :
      Passes o d.gate
      → length d.accepted < max_child_orders
      → Tracks d (record {
        gate = record_order o d.gate;
        accepted = d.accepted ++ o ∷ [];
        count = d.count + 1;
        reasons = d.reasons ++ none_violated ∷ [];
      })
  admitted-Tracks p room =
      let exact = record_order-exact o d.gate f w p in
      record {
        within = exact.0;
        same_limits = record_order-limits o d.gate;
        shares_track = omega (arith, exact.1, sum_shares-append d.accepted (o ∷ []));
        notional_track = omega (arith, exact.2, sum_notional-append d.accepted (o ∷ []));
        count_track = omega (arith, length-append d.accepted (o ∷ []));
        bounded = ground (arith, length-append d.accepted (o ∷ []));
      }

  apply_one-skipped :
      (is_none (check o d.gate).0 ≡ false) ⊎ (max_child_orders ≤ length d.accepted)
      → ((apply_one o d).gate ≡ (check o d.gate).1)
        × ((apply_one o d).accepted ≡ d.accepted)
        × ((apply_one o d).count ≡ d.count)
  unfolding apply_one admit push
  apply_one-skipped h = ground arith

  is_none-Passes : is_none (check o d.gate).0 ≡ true → Passes o d.gate
  is_none-Passes h = none-Passes o d.gate f w (is_none→≡ (check o d.gate).0 h)

  apply_one-admitted :
      is_none (check o d.gate).0 ≡ true
      → length d.accepted < max_child_orders
      → apply_one o d ≡ record {
        gate = record_order o d.gate;
        accepted = d.accepted ++ o ∷ [];
        count = d.count + 1;
        reasons = d.reasons ++ none_violated ∷ [];
      }
  unfolding apply_one admit push
  apply_one-admitted h room = ground (arith, Passes-check o d.gate f w (is_none-Passes h))

  skip :
      (is_none (check o d.gate).0 ≡ false) ⊎ (max_child_orders ≤ length d.accepted)
      → Tracks d (apply_one o d)
  skip h = let same = apply_one-skipped h in skipped-Tracks (apply_one o d) same.0 same.1 same.2

  apply_one-Tracks : Tracks d (apply_one o d)
  apply_one-Tracks = elim (Bool-cases (is_none (check o d.gate).0)) [
    | inl ok ↦ elim (Bool-cases (leb max_child_orders (length d.accepted))) [
      | inl shut ↦ skip (inr (ground arith))
      | inr room ↦
          subst (Tracks d) (sym (apply_one-admitted ok (ground arith)))
            (admitted-Tracks (is_none-Passes ok) (ground arith))
    ]
    | inr bad ↦ skip (inl bad)
  ]

Tracks-refl : (d : Drained) → IsWithin d.gate → Tracks d d
Tracks-refl d w = record {
  within = w;
  same_limits = refl;
  shares_track = refl;
  notional_track = refl;
  count_track = refl;
  bounded = ground arith;
}

Tracks-trans : {a b c : Drained} → Tracks a b → Tracks b c → Tracks a c
Tracks-trans t u = record {
  within = u.within;
  same_limits = u.same_limits ∙ t.same_limits;
  shares_track = omega (arith, t.shares_track, u.shares_track);
  notional_track = omega (arith, t.notional_track, u.notional_track);
  count_track = omega (arith, t.count_track, u.count_track);
  bounded = ground (arith, t.bounded, u.bounded);
}

apply_each-Tracks :
    (os : Queue) (d : Drained) → AllFit os → IsWithin d.gate → Tracks d (apply_each os d)
unfolding apply_each
apply_each-Tracks [] d f w = Tracks-refl d w
apply_each-Tracks (o ∷ os) d (f, fs) w =
    let t = apply_one-Tracks o d f w in
    Tracks-trans t (apply_each-Tracks os (apply_one o d) fs t.within)

-- The state `apply` starts its loop from.
abbrev pub undrained : RiskGate → Queue → Drained
undrained g accepted = record { gate = g; accepted = accepted; count = 0; reasons = [] }

-- A drain of a queue of orders through the gate, their fields within their types, from totals within
-- their limits: the totals stay
-- within the same limits; they grow by exactly the shares and the notional of the orders pushed to
-- `accepted`, never wrapping; the number answered is the number of orders pushed; and a queue within
-- its capacity stays within it.
pub apply-Tracks :
    (os : Queue) (g : RiskGate) (accepted : Queue)
    → AllFit os
    → IsWithin g
    → Tracks (undrained g accepted) (apply g os accepted)
unfolding apply
apply-Tracks os g accepted f w = apply_each-Tracks os (undrained g accepted) f w

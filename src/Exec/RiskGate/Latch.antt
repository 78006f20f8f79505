-- ===== src/Exec/RiskGate/Latch.antt =====
-- The kill switch: a cumulative breach latches it, and only `reset` releases it.
use itch_lob_engine.Base.{◌≡◌, ◌∷◌, ℕ, Bool, true, false, List, [], arith}
use itch_lob_engine.Exec.Types.{ChildOrder}
use itch_lob_engine.Exec.RiskGate.{
  RiskGate, RejectReason, cumulative_shares_exceeded, cumulative_notional_exceeded,
  kill_switch_tripped, check, check_cumulative, record_order, set_reference_price,
}

-- What a caller may do with a gate, other than resetting it.
pub data Use : Type 0 where
  checks : ChildOrder → Use
  records : ChildOrder → Use
  sets_reference : ℕ → Use

unfoldable pub after_use : Use → RiskGate → RiskGate
after_use (checks o) g = (check o g).1
after_use (records o) g = record_order o g
after_use (sets_reference p) g = set_reference_price p g

unfoldable pub after_all : List Use → RiskGate → RiskGate
unfolding after_use
after_all [] g = g
after_all (u ∷ us) g = after_all us (after_use u g)

abbrev pub is_breach : RejectReason → Bool
is_breach cumulative_shares_exceeded = true
is_breach cumulative_notional_exceeded = true
is_breach _ = false

stays_tripped : (u : Use) (g : RiskGate) → g.tripped ≡ true → (after_use u g).tripped ≡ true
unfolding after_use check check_cumulative record_order set_reference_price
stays_tripped (checks o) g h = ground arith
stays_tripped (records o) g h = h
stays_tripped (sets_reference p) g h = h

all_tripped : (us : List Use) (g : RiskGate) → g.tripped ≡ true → (after_all us g).tripped ≡ true
unfolding after_all
all_tripped [] g h = h
all_tripped (u ∷ us) g h = all_tripped us (after_use u g) (stays_tripped u g h)

breach_trips :
    (o : ChildOrder) (g : RiskGate) → is_breach (check o g).0 ≡ true → (check o g).1.tripped ≡ true
unfolding check check_cumulative
breach_trips o g h = ground arith

tripped_rejects :
    (o : ChildOrder) (g : RiskGate) → g.tripped ≡ true → (check o g).0 ≡ kill_switch_tripped
unfolding check
tripped_rejects o g h = rw h

-- Once a check has answered with a cumulative breach, every later check answers KillSwitchTripped,
-- whatever its order is and whatever was checked, recorded or set as reference in between.
pub breach_latches :
    (o : ChildOrder) (g : RiskGate) (us : List Use) (o' : ChildOrder)
    → is_breach (check o g).0 ≡ true
    → (check o' (after_all us (check o g).1)).0 ≡ kill_switch_tripped
breach_latches o g us o' h = tripped_rejects o' _ (all_tripped us _ (breach_trips o g h))

-- A check that is no cumulative breach leaves the gate exactly as it was, whatever it answers; so a
-- breach of an order's own limits never trips the gate.
pub no_breach_keeps :
    (o : ChildOrder) (g : RiskGate) → is_breach (check o g).0 ≡ false → (check o g).1 ≡ g
unfolding check check_cumulative
no_breach_keeps o g h = ground arith

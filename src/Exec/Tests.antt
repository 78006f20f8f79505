-- ===== src/Exec/Tests.antt =====
-- Small executions: each theorem at one concrete state.
use itch_lob_engine.Base.{
  ◌^◌, ◌*◌, ◌/◌, ◌+◌, ◌≤◌, ◌<◌, ◌≡◌, ◌≢◌, ◌↔◌, ◌∷◌, ℕ, max, refl, true, false, some, [], arith,
  length, get_or, replicate, length-replicate, ◌⊎◌,
}
use itch_lob_engine.Book.Types.{buy, sell}
use itch_lob_engine.Exec.Types.{
  limit, market, TradeTick, ChildOrder, sum_shares, max_child_orders, max_schedule_bins,
}
use itch_lob_engine.Exec.RiskGate.{
  RiskGate, new_gate, check, none_violated, kill_switch_tripped, apply,
}
use itch_lob_engine.Exec.RiskGate.Limits.{OrderFits, IsWithin, Passes, check_iff}
use itch_lob_engine.Exec.RiskGate.Latch.{
  checks, sets_reference, after_all, breach_latches, is_breach,
}
use itch_lob_engine.Exec.RiskGate.Drain.{Tracks, undrained, apply-Tracks}
use itch_lob_engine.Exec.Twap.{TwapParams, Twap}
use itch_lob_engine.Exec.Twap
use itch_lob_engine.Exec.Twap.Schedule.{sum, make-schedule, make-even}
use itch_lob_engine.Exec.Twap.Advance.{
  Advances, make-IsOnSchedule, advance-Advances, advance_complete,
}
use itch_lob_engine.Exec.Pov.{PovParams, Pov}
use itch_lob_engine.Exec.Pov
use itch_lob_engine.Exec.Pov.Budget.{on_ticks, volume, on_ticks-IsWithin, on_trade_tick-full}
use itch_lob_engine.Exec.Vwap.{VwapParams, Vwap}
use itch_lob_engine.Exec.Vwap
use itch_lob_engine.Exec.Vwap.Target.{on_trade_tick-reaches, on_trade_tick-completes}
use itch_lob_engine.Exec.Vwap.Target
use itch_lob_engine.Exec.FillSim.{FillSimulator, max_fills, fill, fill_at, fill_price, push}
use itch_lob_engine.Exec.FillSim.Fills.{Adds, Marketable, fill-Adds, fill_lem, filled, tried}

abbrev order : ℕ → ChildOrder
order shares = record { ts = 1; side = buy; type = limit; price = 1000; shares = shares }

abbrev gate : RiskGate
gate =
    new_gate
      (record {
        max_order_shares = 500;
        max_order_notional = 1_000_000;
        price_collar_bps = 500;
        max_cumulative_shares = 600;
        max_cumulative_notional = 1_000_000;
      })
      1010

order-Fits : (n : ℕ) → n < 2 ^ 32 → OrderFits (order n)
order-Fits n h = record { price_fits = omega arith; shares_fit = h }

gate-IsWithin : IsWithin gate
gate-IsWithin = record {
  reference_fits = omega arith;
  collar_fits = omega arith;
  max_shares_fits = omega arith;
  max_notional_fits = omega arith;
  shares_within = omega arith;
  notional_within = omega arith;
}

check_iff_example : ((check (order 400) gate).0 ≡ none_violated) ↔ Passes (order 400) gate
check_iff_example = check_iff (order 400) gate (order-Fits 400 (omega arith)) gate-IsWithin

-- A gate that has counted 400 of its 600 shares.
abbrev used_gate : RiskGate
used_gate = record gate { cumulative_shares = 400; cumulative_notional = 400_000 }

exceeds : is_breach (check (order 300) used_gate).0 ≡ true
unfolding check
exceeds = refl

breach_latches_example :
    (check
      (order 1)
      (after_all (checks (order 2) ∷ sets_reference 900 ∷ []) (check (order 300) used_gate).1)).0
    ≡ kill_switch_tripped
breach_latches_example =
    breach_latches (order 300) used_gate (checks (order 2) ∷ sets_reference 900 ∷ []) (order 1)
      exceeds

too_large : is_breach (check (order 501) used_gate).0 ≡ false
unfolding check
too_large = refl

apply-Tracks_example :
    Tracks (undrained gate []) (apply gate (order 400 ∷ order 501 ∷ order 300 ∷ []) [])
apply-Tracks_example =
    apply-Tracks (order 400 ∷ order 501 ∷ order 300 ∷ []) gate []
      (
        order-Fits 400 (omega arith),
        (order-Fits 501 (omega arith), (order-Fits 300 (omega arith), tt)),
      )
      gate-IsWithin

abbrev twap_params : TwapParams
twap_params = record {
  side = sell;
  total_shares = 10;
  start_ts = 100;
  end_ts = 160;
  bin_ns = 25;
  child_type = limit;
  limit_price = 5000;
}

abbrev twap : Twap
twap = record {
  params = twap_params;
  schedule = 4 ∷ 3 ∷ 3 ∷ [];
  bin_count = 3;
  next_bin = 0;
  queue = [];
}

twap_made : Twap.make twap_params ≡ some twap
unfolding Twap.make
twap_made = refl

make-schedule_example :
    (length twap.schedule ≡ twap.bin_count)
    × (0 < 3)
    × (3 ≤ max_schedule_bins)
    × (sum twap.schedule ≡ 10)
make-schedule_example = make-schedule twap_params twap twap_made

make-even_example : (10 / 3 ≤ get_or twap.schedule 0 0) × (get_or twap.schedule 0 0 ≤ 10 / 3 + 1)
make-even_example = make-even twap_params twap 0 twap_made (omega arith)

advance-Advances_example : Advances 150 0 twap (Twap.advance 150 twap)
advance-Advances_example = advance-Advances 150 twap (make-IsOnSchedule twap_params twap twap_made)

advance_complete_example :
    (sum_shares (Twap.advance 180 twap).1.queue ≡ 10) × (Twap.done (Twap.advance 180 twap).1 ≡ true)
advance_complete_example =
    advance_complete twap_params twap 180 twap_made (omega arith) (omega arith)

abbrev tick : ℕ → ℕ → TradeTick
tick ts shares = record { ts = ts; price = 1000; shares = shares; side = buy }

abbrev pov_params : PovParams
pov_params = record { side = buy; max_shares = 50; participation_bps = 1000; end_ts = 0 }

on_ticks-IsWithin_example :
    ((on_ticks (tick 1 200 ∷ tick 2 900 ∷ []) (Pov.make pov_params)).shares_sent ≤ 50)
    × (sum_shares (on_ticks (tick 1 200 ∷ tick 2 900 ∷ []) (Pov.make pov_params)).queue
        ≡ (on_ticks (tick 1 200 ∷ tick 2 900 ∷ []) (Pov.make pov_params)).shares_sent)
    × ((on_ticks (tick 1 200 ∷ tick 2 900 ∷ []) (Pov.make pov_params)).shares_sent * 10_000
        ≤ volume (tick 1 200 ∷ tick 2 900 ∷ []) * 1000)
on_ticks-IsWithin_example =
    on_ticks-IsWithin (tick 1 200 ∷ tick 2 900 ∷ []) pov_params (omega arith, (omega arith, tt))
      (omega arith) (omega arith) (omega arith)

-- A queue with no room left.
abbrev full_pov : Pov
full_pov = record {
  params = pov_params;
  shares_sent = 0;
  queue = replicate max_child_orders (order 1);
}

slice_acts : Pov.slice (tick 1 200) full_pov ≢ 0
unfolding Pov.slice
slice_acts = ground arith

on_trade_tick-full_example :
    ((Pov.on_trade_tick (tick 1 200) full_pov).queue ≡ full_pov.queue)
    × ((Pov.on_trade_tick (tick 1 200) full_pov).shares_sent ≡ 0 + Pov.slice (tick 1 200) full_pov)
on_trade_tick-full_example =
    on_trade_tick-full (tick 1 200) full_pov (length-replicate max_child_orders (order 1))
      (omega arith) (omega arith) refl slice_acts

abbrev vwap : Vwap
vwap = record {
  params = record {
    side = buy;
    total_shares = 1300;
    start_ts = 0;
    end_ts = 13_000;
    child_type = market;
    limit_price = 0;
  };
  shares_sent = 0;
  market_shares_seen = 0;
  queue = [];
}

-- A flat curve.
abbrev flat : ℕ → ℕ
flat i = (i + 1) * 1_000_000 / 13

vwap-IsWithin : Target.IsWithin vwap
vwap-IsWithin = record {
  window_ok = omega arith;
  total_fits = omega arith;
  in_total = omega arith;
  queued = refl;
}

on_trade_tick-reaches_example :
    ((Vwap.on_trade_tick flat (tick 6500 10) vwap).shares_sent
      ≡ max 0 (Vwap.target_shares flat 6500 vwap))
    × ((Vwap.on_trade_tick flat (tick 6500 10) vwap).shares_sent ≤ 1300)
    × (sum_shares (Vwap.on_trade_tick flat (tick 6500 10) vwap).queue
        ≡ (Vwap.on_trade_tick flat (tick 6500 10) vwap).shares_sent)
on_trade_tick-reaches_example =
    on_trade_tick-reaches flat (tick 6500 10) vwap vwap-IsWithin (omega arith) (omega arith)
      (omega arith)

on_trade_tick-completes_example :
    (sum_shares (Vwap.on_trade_tick flat (tick 13_000 10) vwap).queue ≡ 1300)
    × ((Vwap.on_trade_tick flat (tick 13_000 10) vwap).shares_sent ≡ 1300)
on_trade_tick-completes_example =
    on_trade_tick-completes flat (tick 13_000 10) vwap vwap-IsWithin (omega arith) refl
      (omega arith)

abbrev simulator : FillSimulator
simulator = record {
  bbo = record { ts = 1; bid_price = 990; bid_shares = 10; ask_price = 998; ask_shares = 20 };
  last_trade_price = 995;
  fills = [];
  shares_filled = 0;
  shares_attempted = 0;
  notional = 0;
}

simulator-Adds : Adds simulator
simulator-Adds = record { shares_add = refl; notional_adds = refl; fills_fit = omega arith }

fill-Adds_example : Adds (fill (order 40) simulator).1
fill-Adds_example = fill-Adds (order 40) simulator simulator-Adds

-- A limit order to buy at up to 1000, with an ask of 998: it fills at 998.
fill_lem_example :
    ((p : ℕ) × Marketable limit buy 1000 simulator p
      × (0 < max_fills)
      × (fill (order 40) simulator ≡ (true, filled (order 40) p simulator)))
    ⊎ ((¬ (((p : ℕ) × Marketable limit buy 1000 simulator p) × (0 < max_fills)))
        × (fill (order 40) simulator ≡ (false, tried (order 40) simulator)))
fill_lem_example = fill_lem (order 40) simulator

fills_at_ask : fill (order 40) simulator ≡ (true, filled (order 40) 998 simulator)
unfolding fill fill_at fill_price push
fills_at_ask = refl

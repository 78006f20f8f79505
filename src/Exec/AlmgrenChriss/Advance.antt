-- ===== src/Exec/AlmgrenChriss/Advance.antt =====
-- `advance`, compared with that of `Twap` on the same schedule.
use itch_lob_engine.Base.{◌-◌, ◌+◌, ◌≡◌, ℕ, zero, suc, refl, Bool, true, false}
use itch_lob_engine.Exec.Twap
use itch_lob_engine.Exec.Twap.{TwapParams, Twap}
use itch_lob_engine.Exec.AlmgrenChriss.{AlmgrenChriss, emit, due, advance_from, advance}

module _ {D : Type 0} where
  -- The same parent order and the same progress, without the doubles.
  abbrev pub as_twap : AlmgrenChriss D → Twap
  as_twap a = record {
    params = record {
      side = a.params.side;
      total_shares = a.params.total_shares;
      start_ts = a.params.start_ts;
      end_ts = a.params.end_ts;
      bin_ns = a.params.bin_ns;
      child_type = a.params.child_type;
      limit_price = a.params.limit_price;
    };
    schedule = a.schedule;
    bin_count = a.bin_count;
    next_bin = a.next_bin;
    queue = a.queue;
  }

  due-as_twap : (now : ℕ) (a : AlmgrenChriss D) → due now a ≡ Twap.due now (as_twap a)
  unfolding due Twap.due
  due-as_twap now a = refl

  emit-as_twap : (now : ℕ) (a : AlmgrenChriss D) → as_twap (emit now a) ≡ Twap.emit now (as_twap a)
  unfolding emit Twap.emit
  emit-as_twap now a = refl

  -- The number of orders that are sent, and the state behind them.
  abbrev Agree : ℕ × AlmgrenChriss D → ℕ × Twap → Type 0
  Agree r t = (r.0 ≡ t.0) × (as_twap r.1 ≡ t.1)

  either :
      (go_on : Bool) (more stop : ℕ × AlmgrenChriss D) (more' stop' : ℕ × Twap)
      → Agree more more'
      → Agree stop stop'
      → Agree
          (elim go_on as (λ _. ℕ × AlmgrenChriss D) [ true ↦ more | false ↦ stop ])
          (elim go_on as (λ _. ℕ × Twap) [ true ↦ more' | false ↦ stop' ])
  either true more stop more' stop' h k = h
  either false more stop more' stop' h k = k

  advance_from-Agree :
      (f now : ℕ) (a : AlmgrenChriss D) (pushed : ℕ)
      → Agree (advance_from f now a pushed) (Twap.advance_from f now (as_twap a) pushed)
  unfolding advance_from Twap.advance_from
  advance_from-Agree zero now a pushed = (refl, refl)
  advance_from-Agree (suc f) now a pushed =
      either (due now a) (advance_from f now (emit now a) (pushed + 1)) (pushed, a)
        (Twap.advance_from f now (Twap.emit now (as_twap a)) (pushed + 1)) (pushed, as_twap a)
        (advance_from-Agree f now (emit now a) (pushed + 1)) (refl, refl)

  -- With its schedule, an Almgren-Chriss order sends what a TWAP order sends: the same orders into the
  -- same queue, as many of them, and it goes on from the same bin.
  pub advance-as_twap :
      (now : ℕ) (a : AlmgrenChriss D)
      → ((advance now a).0 ≡ (Twap.advance now (as_twap a)).0)
        × (as_twap (advance now a).1 ≡ (Twap.advance now (as_twap a)).1)
  unfolding advance Twap.advance
  advance-as_twap now a = advance_from-Agree (a.bin_count - a.next_bin) now a 0

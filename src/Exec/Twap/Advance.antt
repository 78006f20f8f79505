-- ===== src/Exec/Twap/Advance.antt =====
-- `Twap::advance`: how far it goes, and what it has pushed.
use itch_lob_engine.Base.{
  ◌^◌, ◌*◌, ◌-◌, ◌+◌, ◌≤◌, ◌<◌, ◌≡◌, ◌∷◌, ℕ, zero, suc, refl, sym, ap, subst, inl, inr, Bool, true,
  false, some, List, [], arith, length, get_or, drop, Bool-cases, length-append,
}
use itch_lob_engine.Exec.Types.{
  ChildOrder, push, full, sum_shares, sum_shares-append, max_child_orders,
}
use itch_lob_engine.Exec.Twap.{
  TwapParams, Twap, make, child, emit, due, boundary, advance_from, advance, done,
}
use itch_lob_engine.Exec.Twap.Schedule.{sum, make-schedule, make-some}

-- The queue holds the bins that `next_bin_` has passed.
pub record IsOnSchedule (t : Twap) : Type 0 where
  pub bins_left : t.next_bin ≤ t.bin_count
  pub bins_held : length t.schedule ≡ t.bin_count
  pub sent : sum_shares t.queue + sum (drop t.next_bin t.schedule) ≡ sum t.schedule
  pub one_each : length t.queue ≡ t.next_bin

sum-drop :
    (xs : List ℕ) (k : ℕ) → k < length xs → get_or xs k 0 + sum (drop (k + 1) xs) ≡ sum (drop k xs)
sum-drop [] k lt = ground arith
sum-drop (x ∷ xs) zero lt = ground arith
sum-drop (x ∷ xs) (suc k) lt = ground (arith, sum-drop xs k (omega arith))

emit-IsOnSchedule :
    (now : ℕ) (t : Twap) → due now t ≡ true → IsOnSchedule t → IsOnSchedule (emit now t)
unfolding due full emit push child
emit-IsOnSchedule now t h i =
    let o : ChildOrder = child now t in
    record {
      bins_left = ground arith;
      bins_held = i.bins_held;
      sent = ground (
        arith,
        i.sent,
        i.bins_held,
        sum_shares-append t.queue (o ∷ []),
        sum-drop t.schedule t.next_bin (ground arith),
      );
      one_each = ground (arith, i.one_each, length-append t.queue (o ∷ []));
    }

-- What a call of `advance` that had counted `before` does until it answers `r`.
pub record Advances (now before : ℕ) (s : Twap) (r : ℕ × Twap) : Type 0 where
  pub on_schedule : IsOnSchedule r.1
  pub ended : due now r.1 ≡ false
  pub counted : s.next_bin + r.0 ≡ r.1.next_bin + before
  pub same_schedule : r.1.schedule ≡ s.schedule
  pub same_bins : r.1.bin_count ≡ s.bin_count
  pub same_params : r.1.params ≡ s.params

not_due : (now : ℕ) (t : Twap) → t.bin_count ≤ t.next_bin → due now t ≡ false
unfolding due
not_due now t h = ground arith

stays :
    (now before : ℕ) (t : Twap)
    → due now t ≡ false
    → IsOnSchedule t
    → Advances now before t (before, t)
stays now before t h i = record {
  on_schedule = i;
  ended = h;
  counted = refl;
  same_schedule = refl;
  same_bins = refl;
  same_params = refl;
}

goes_on :
    (now before : ℕ) (t : Twap) (r : ℕ × Twap)
    → Advances now (before + 1) (emit now t) r
    → Advances now before t r
unfolding emit
goes_on now before t r a = record {
  on_schedule = a.on_schedule;
  ended = a.ended;
  counted = omega (arith, a.counted);
  same_schedule = a.same_schedule;
  same_bins = a.same_bins;
  same_params = a.same_params;
}

advance_from-stop :
    (fuel now : ℕ) (t : Twap) (pushed : ℕ)
    → due now t ≡ false
    → advance_from fuel now t pushed ≡ (pushed, t)
unfolding advance_from
advance_from-stop zero now t pushed h = refl
advance_from-stop (suc fuel) now t pushed h =
    ap
      (λ (b : Bool). elim b as (λ _. ℕ × Twap) [
        | true ↦ advance_from fuel now (emit now t) (pushed + 1)
        | false ↦ (pushed, t)
      ])
      h

advance_from-go :
    (fuel now : ℕ) (t : Twap) (pushed : ℕ)
    → due now t ≡ true
    → advance_from (suc fuel) now t pushed ≡ advance_from fuel now (emit now t) (pushed + 1)
unfolding advance_from
advance_from-go fuel now t pushed h =
    ap
      (λ (b : Bool). elim b as (λ _. ℕ × Twap) [
        | true ↦ advance_from fuel now (emit now t) (pushed + 1)
        | false ↦ (pushed, t)
      ])
      h

emit-next : (now : ℕ) (t : Twap) → (emit now t).next_bin ≡ t.next_bin + 1
unfolding emit
emit-next now t = refl

emit-count : (now : ℕ) (t : Twap) → (emit now t).bin_count ≡ t.bin_count
unfolding emit
emit-count now t = refl

due-left : (now : ℕ) (t : Twap) → due now t ≡ true → t.next_bin < t.bin_count
unfolding due
due-left now t h = ground arith

advance_from-Advances :
    (fuel now : ℕ) (t : Twap) (pushed : ℕ)
    → t.bin_count ≤ t.next_bin + fuel
    → IsOnSchedule t
    → Advances now pushed t (advance_from fuel now t pushed)
advance_from-Advances zero now t pushed enough i =
    let stop = not_due now t (omega arith) in
    subst (Advances now pushed t) (sym (advance_from-stop zero now t pushed stop))
      (stays now pushed t stop i)
advance_from-Advances (suc fuel) now t pushed enough i = elim (Bool-cases (due now t)) [
  | inr stop ↦
      subst (Advances now pushed t) (sym (advance_from-stop (suc fuel) now t pushed stop))
        (stays now pushed t stop i)
  | inl more ↦ subst (Advances now pushed t) (sym (advance_from-go fuel now t pushed more)) (
      goes_on now pushed t _ (
        advance_from-Advances fuel now (emit now t) (pushed + 1)
          (omega (arith, emit-next now t, emit-count now t)) (emit-IsOnSchedule now t more i)))
]

-- A strategy the constructor makes is on schedule.
pub make-IsOnSchedule : (p : TwapParams) (t : Twap) → make p ≡ some t → IsOnSchedule t
make-IsOnSchedule p t h =
    let m = make-some p t h in
    record {
      bins_left = omega (arith, m.3);
      bins_held = (make-schedule p t h).0;
      sent = grind (arith, m.3, m.4);
      one_each = grind (arith, m.3, m.4);
    }

-- For a strategy whose queue holds one order for each bin sent: `advance` ends only where no bin is due any more (all bins are sent, the next boundary is in the
-- future, or the queue is full); it answers the number of bins it has sent; the queue has one order
-- for each bin sent, and their shares are those of these bins; the schedule stays what it was.
pub advance-Advances : (now : ℕ) (t : Twap) → IsOnSchedule t → Advances now 0 t (advance now t)
unfolding advance
advance-Advances now t i =
    advance_from-Advances (t.bin_count - t.next_bin) now t 0 (omega (arith, i.bins_left)) i

boundary_le : (k n b : ℕ) → k < n → (k + 1) * b ≤ n * b
boundary_le k n b lt = grind arith

not_due-done :
    (now : ℕ) (t : Twap)
    → due now t ≡ false
    → IsOnSchedule t
    → t.bin_count ≤ max_child_orders
    → t.params.start_ts + t.bin_count * t.params.bin_ns ≤ now
    → now < 2 ^ 64
    → t.next_bin ≡ t.bin_count
unfolding due boundary full
not_due-done now t h i few late fits =
    ground (arith, boundary_le t.next_bin t.bin_count t.params.bin_ns, i.bins_left, i.one_each)

drop_all : (xs : List ℕ) → drop (length xs) xs ≡ []
drop_all [] = refl
drop_all (x ∷ xs) = ground (arith, drop_all xs)

all_sent :
    (p : TwapParams) (t u : Twap)
    → IsOnSchedule u
    → u.next_bin ≡ u.bin_count
    → u.schedule ≡ t.schedule
    → sum t.schedule ≡ p.total_shares
    → sum_shares u.queue ≡ p.total_shares
all_sent p t u i end same total =
    grind (arith, i.sent, i.bins_held, drop_all u.schedule, end, same, total)

all_bins : (u : Twap) → u.next_bin ≡ u.bin_count → done u ≡ true
unfolding done
all_bins u h = ground arith

-- Once the clock, a uint64_t, is at or past the last boundary, one call of `advance` on a strategy just made sends
-- everything: the orders of the queue hold exactly the parent's shares, and the strategy is done.
pub advance_complete :
    (p : TwapParams) (t : Twap) (now : ℕ)
    → make p ≡ some t
    → p.start_ts + t.bin_count * p.bin_ns ≤ now
    → now < 2 ^ 64
    → (sum_shares (advance now t).1.queue ≡ p.total_shares) × (done (advance now t).1 ≡ true)
advance_complete p t now h late fits =
    let m = make-some p t h in
    let i = make-IsOnSchedule p t h in
    let a = advance-Advances now t i in
    let end =
      not_due-done now (advance now t).1 a.ended a.on_schedule (omega (arith, a.same_bins, m.1))
        (grind (arith, a.same_bins, a.same_params, m.5, late)) fits in
    (
      all_sent p t (advance now t).1 a.on_schedule end a.same_schedule (make-schedule p t h).3,
      all_bins (advance now t).1 end,
    )

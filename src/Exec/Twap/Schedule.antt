-- ===== src/Exec/Twap/Schedule.antt =====
-- `Twap`'s constructor: the schedule it fills.
use itch_lob_engine.Base.{
  ◌*◌, ◌-◌, ◌+◌, ◌<◌, ◌≡◌, ◌∷◌, if◌then◌else◌, ℕ, zero, suc, min, refl, List, [], arith, ltb,
  length, get_or, ◌/◌, ◌%◌, ◌≤◌, ◌∙◌, ap, some,
}
use itch_lob_engine.Exec.Twap.{fill_schedule, make, TwapParams, Twap, max_schedule_bins}

abbrev pub sum : List ℕ → ℕ
sum [] = 0
sum (x ∷ xs) = x + sum xs

pub length-fill_schedule : (base remainder i n : ℕ) → length (fill_schedule base remainder i n) ≡ n
unfolding fill_schedule
length-fill_schedule base remainder i zero = refl
length-fill_schedule base remainder i (suc n) =
    omega (arith, length-fill_schedule base remainder (suc i) n)

-- The bins from `i` on: a base each, and one more share in those below the remainder.
sum-fill_schedule :
    (base remainder i n : ℕ)
    → sum (fill_schedule base remainder i n) ≡ n * base + (min (i + n) remainder - min i remainder)
unfolding fill_schedule
sum-fill_schedule base remainder i zero = ground arith
sum-fill_schedule base remainder i (suc n) =
    ground (arith, sum-fill_schedule base remainder (suc i) n)

get-fill_schedule :
    (base remainder i n k : ℕ)
    → k < n
    → get_or (fill_schedule base remainder i n) k 0
      ≡ base + (if ltb (i + k) remainder then 1 else 0)
unfolding fill_schedule
get-fill_schedule base remainder i zero k lt = ground arith
get-fill_schedule base remainder i (suc n) zero lt = ground arith
get-fill_schedule base remainder i (suc n) (suc k) lt =
    ground (arith, get-fill_schedule base remainder (suc i) n k (omega arith))

pub make-some :
    (p : TwapParams) (t : Twap)
    → make p ≡ some t
    → (0 < t.bin_count)
      × (t.bin_count ≤ max_schedule_bins)
      × (t.schedule
          ≡ fill_schedule
              (p.total_shares / t.bin_count)
              (p.total_shares % t.bin_count)
              0
              t.bin_count)
      × (t.next_bin ≡ 0)
      × (t.queue ≡ [])
      × (t.params ≡ p)
unfolding make
make-some p t h = ground arith

sum-even : (total n : ℕ) → 0 < n → sum (fill_schedule (total / n) (total % n) 0 n) ≡ total
sum-even total n pos = ground (arith, sum-fill_schedule (total / n) (total % n) 0 n)

-- Where the constructor does not throw, its schedule has `bin_count_` bins, between 1 and 512, which
-- together hold exactly the parent's shares.
pub make-schedule :
    (p : TwapParams) (t : Twap)
    → make p ≡ some t
    → (length t.schedule ≡ t.bin_count)
      × (0 < t.bin_count)
      × (t.bin_count ≤ max_schedule_bins)
      × (sum t.schedule ≡ p.total_shares)
make-schedule p t h =
    let m = make-some p t h in
    let base = p.total_shares / t.bin_count in
    let remainder = p.total_shares % t.bin_count in
    (
      ap length m.2 ∙ length-fill_schedule base remainder 0 t.bin_count,
      m.0,
      m.1,
      ap sum m.2 ∙ sum-even p.total_shares t.bin_count m.0,
    )

-- Where the constructor does not throw, each bin of its schedule holds the even share of the parent,
-- rounded down, or one share more.
pub make-even :
    (p : TwapParams) (t : Twap) (k : ℕ)
    → make p ≡ some t
    → k < t.bin_count
    → (p.total_shares / t.bin_count ≤ get_or t.schedule k 0)
      × (get_or t.schedule k 0 ≤ p.total_shares / t.bin_count + 1)
make-even p t k h lt =
    let m = make-some p t h in
    let at =
      get-fill_schedule (p.total_shares / t.bin_count) (p.total_shares % t.bin_count) 0 t.bin_count
        k lt in
    (ground (arith, m.2, at), ground (arith, m.2, at))

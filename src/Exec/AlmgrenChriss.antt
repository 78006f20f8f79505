-- ===== src/Exec/AlmgrenChriss.antt =====
-- `AlmgrenChriss` of include/exec/almgren_chriss.hpp. Its trajectory is computed in floating point: the
-- doubles and what `std::llround` makes of the shares of a bin, none of which is negative, are
-- parameters.
pub mod Schedule
pub mod Advance
mod Tests
use itch_lob_engine.Base.{
  ◌^◌, ◌*◌, ◌/◌, ◌%◌, ◌-◌, ◌+◌, ◌≤◌, ◌<◌, ◌≡◌, ◌≢◌, ◌↔◌, ◌⊎◌, ◌&&◌, ◌||◌, ◌∙◌, ◌∷◌, ◌++◌, ◌==◌,
  if◌then◌else◌, ℕ, zero, suc, min, max, refl, sym, ap, ap₂, subst, inl, inr, Bool, true, false,
  not, Option, none, some, List, [], map, arith, ltb, leb, length, get_or, set, take, drop,
  replicate, append-nil, append_assoc, Bool-cases, Option-cases, length-append, length-set,
  length-replicate, get_or-set_self, get_or-set_ne, get_or-replicate, ==→≡, ≡→==, ==→≢, ≢→==,
  length-drop, length-take_le, drop-nil, take-nil, drop-add, drop-take_add, take-take_le,
  get_or-take, take-append_le, drop-append_le, get_or-append,
}
use itch_lob_engine.Book.Types.{Side, buy, sell, side_eq, Level, empty_level, Quote, Order}
use itch_lob_engine.Exec.Types.{OrderType, ChildOrder, Queue, full, push, max_schedule_bins}
use itch_lob_engine.Exec.Twap.{child_price}

pub record AlmgrenChrissParams (D : Type 0) : Type 0 where
  pub side : Side
  pub total_shares : ℕ
  pub start_ts : ℕ
  pub end_ts : ℕ
  pub bin_ns : ℕ
  pub risk_aversion : D
  pub volatility : D
  pub impact_coefficient : D
  pub child_type : OrderType
  pub limit_price : ℕ

pub record AlmgrenChriss (D : Type 0) : Type 0 where
  pub params : AlmgrenChrissParams D
  pub schedule : List ℕ
  pub bin_count : ℕ
  pub next_bin : ℕ
  pub queue : Queue

-- `n` rounds of the rounding loop, from bin `i` on: the entries of `schedule_`, cast to Shares.
unfoldable pub round_from : (ℕ → ℕ) → ℕ → ℕ → List ℕ
round_from rounded i zero = []
round_from rounded i (suc n) = rounded i % 2 ^ 32 ∷ round_from rounded (i + 1) n

-- `rounded_sum` after these rounds; it stays below 2^63.
unfoldable pub rounded_sum : (ℕ → ℕ) → ℕ → ℕ → ℕ
rounded_sum rounded i zero = 0
rounded_sum rounded i (suc n) = rounded i + rounded_sum rounded (i + 1) n

-- The last entry with the rounding remainder: the subtraction stops at 0, as the code's clamp does.
unfoldable pub adjusted_last : ℕ → ℕ → ℕ → ℕ
adjusted_last total last sum = (last + total - sum) % 2 ^ 32

unfoldable pub make_schedule : (ℕ → ℕ) → ℕ → ℕ → List ℕ
unfolding round_from rounded_sum adjusted_last
make_schedule rounded total n =
    let entries : List ℕ = round_from rounded 0 n in
    set entries (n - 1) (adjusted_last total (get_or entries (n - 1) 0) (rounded_sum rounded 0 n))

module _ {D : Type 0} where
  unfoldable pub bins : AlmgrenChrissParams D → ℕ
  bins p = (p.end_ts - p.start_ts + p.bin_ns - 1) % 2 ^ 64 / p.bin_ns

  -- The constructor, for the tests `x < 0.0` and `x <= 0.0` on doubles and the rounded shares of each
  -- bin: `none` where it throws.
  unfoldable pub make :
      (D → Bool)
      → (D → Bool)
      → (AlmgrenChrissParams D → ℕ → ℕ)
      → AlmgrenChrissParams D
      → Option (AlmgrenChriss D)
  unfolding bins make_schedule
  make negative not_positive rounded p =
      if leb p.end_ts p.start_ts
      then none
      else if p.bin_ns == 0
      then none
      else if negative p.risk_aversion
      then none
      else if negative p.volatility
      then none
      else if not_positive p.impact_coefficient
      then none
      else if bins p == 0 || ltb max_schedule_bins (bins p)
      then none
      else some (record {
        params = p;
        schedule = make_schedule (rounded p) p.total_shares (bins p);
        bin_count = bins p;
        next_bin = 0;
        queue = [];
      })

  unfoldable pub boundary : AlmgrenChriss D → ℕ
  boundary a = (a.params.start_ts + (a.next_bin + 1) * a.params.bin_ns % 2 ^ 64) % 2 ^ 64

  unfoldable pub child : ℕ → AlmgrenChriss D → ChildOrder
  child now a = record {
    ts = now;
    side = a.params.side;
    type = a.params.child_type;
    price = child_price a.params.child_type a.params.limit_price;
    shares = get_or a.schedule a.next_bin 0;
  }

  -- One round of the loop of `advance`.
  unfoldable pub emit : ℕ → AlmgrenChriss D → AlmgrenChriss D
  unfolding child push
  emit now a = record a { queue = (push (child now a) a.queue).1; next_bin = a.next_bin + 1 }

  -- Whether the loop goes on.
  unfoldable pub due : ℕ → AlmgrenChriss D → Bool
  unfolding boundary full
  due now a = ltb a.next_bin a.bin_count && leb (boundary a) now && not (full a.queue)

  unfoldable pub advance_from : ℕ → ℕ → AlmgrenChriss D → ℕ → ℕ × AlmgrenChriss D
  unfolding emit due
  advance_from zero now a pushed = (pushed, a)
  advance_from (suc fuel) now a pushed = elim (due now a) [
    | true ↦ advance_from fuel now (emit now a) (pushed + 1)
    | false ↦ (pushed, a)
  ]

  -- A round moves `next_bin_` on, so the bins that are left are fuel enough.
  unfoldable pub advance : ℕ → AlmgrenChriss D → ℕ × AlmgrenChriss D
  unfolding advance_from
  advance now a = advance_from (a.bin_count - a.next_bin) now a 0

  unfoldable pub done : AlmgrenChriss D → Bool
  done a = leb a.bin_count a.next_bin

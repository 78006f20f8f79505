-- ===== src/Exec/Twap.antt =====
-- `Twap` of include/exec/twap.hpp.
pub mod Schedule
pub mod Advance
use itch_lob_engine.Base.{
  ◌^◌, ◌*◌, ◌/◌, ◌%◌, ◌-◌, ◌+◌, ◌≤◌, ◌<◌, ◌≡◌, ◌≢◌, ◌↔◌, ◌⊎◌, ◌&&◌, ◌||◌, ◌∙◌, ◌∷◌, ◌++◌, ◌==◌,
  if◌then◌else◌, ℕ, zero, suc, min, max, refl, sym, ap, ap₂, subst, inl, inr, Bool, true, false,
  not, Option, none, some, List, [], map, arith, ltb, leb, length, get_or, set, take, drop,
  replicate, append-nil, append_assoc, Bool-cases, Option-cases, length-append, length-set,
  length-replicate, get_or-set_self, get_or-set_ne, get_or-replicate, ==→≡, ≡→==, ==→≢, ≢→==,
  length-drop, length-take_le, drop-nil, take-nil, drop-add, drop-take_add, take-take_le,
  get_or-take, take-append_le, drop-append_le, get_or-append,
}
use itch_lob_engine.Book.Types.{Side, buy, sell, side_eq, Level, empty_level, Quote, Order}
use itch_lob_engine.Exec.Types.{
  OrderType, limit, market, ChildOrder, Queue, full, push, max_schedule_bins,
}

pub record TwapParams : Type 0 where
  pub side : Side
  pub total_shares : ℕ
  pub start_ts : ℕ
  pub end_ts : ℕ
  pub bin_ns : ℕ
  pub child_type : OrderType
  pub limit_price : ℕ

pub record Twap : Type 0 where
  pub params : TwapParams
  pub schedule : List ℕ
  pub bin_count : ℕ
  pub next_bin : ℕ
  pub queue : Queue

-- The loop that fills `schedule_`, from bin `i` on for `n` bins.
unfoldable pub fill_schedule : ℕ → ℕ → ℕ → ℕ → List ℕ
fill_schedule base remainder i zero = []
fill_schedule base remainder i (suc n) =
    (base + (if ltb i remainder then 1 else 0)) ∷ fill_schedule base remainder (suc i) n

-- The number of bins, in uint64_t arithmetic.
unfoldable pub bins : TwapParams → ℕ
bins p = (p.end_ts - p.start_ts + p.bin_ns - 1) % 2 ^ 64 / p.bin_ns

-- The constructor: `none` where it throws.
unfoldable pub make : TwapParams → Option Twap
unfolding fill_schedule bins
make p =
    if leb p.end_ts p.start_ts
    then none
    else if p.bin_ns == 0
    then none
    else if bins p == 0 || ltb max_schedule_bins (bins p)
    then none
    else some (record {
      params = p;
      schedule = fill_schedule (p.total_shares / bins p) (p.total_shares % bins p) 0 (bins p);
      bin_count = bins p;
      next_bin = 0;
      queue = [];
    })

unfoldable pub boundary : Twap → ℕ
boundary t = (t.params.start_ts + (t.next_bin + 1) * t.params.bin_ns % 2 ^ 64) % 2 ^ 64

abbrev pub child_price : OrderType → ℕ → ℕ
child_price limit p = p
child_price market p = 0

unfoldable pub child : ℕ → Twap → ChildOrder
child now t = record {
  ts = now;
  side = t.params.side;
  type = t.params.child_type;
  price = child_price t.params.child_type t.params.limit_price;
  shares = get_or t.schedule t.next_bin 0;
}

-- One round of the loop of `advance`.
unfoldable pub emit : ℕ → Twap → Twap
unfolding child push
emit now t = record t { queue = (push (child now t) t.queue).1; next_bin = t.next_bin + 1 }

-- Whether the loop goes on.
unfoldable pub due : ℕ → Twap → Bool
unfolding boundary full
due now t = ltb t.next_bin t.bin_count && leb (boundary t) now && not (full t.queue)

unfoldable pub advance_from : ℕ → ℕ → Twap → ℕ → ℕ × Twap
unfolding emit due
advance_from zero now t pushed = (pushed, t)
advance_from (suc fuel) now t pushed = elim (due now t) [
  | true ↦ advance_from fuel now (emit now t) (pushed + 1)
  | false ↦ (pushed, t)
]

-- A round moves `next_bin_` on, so the bins that are left are fuel enough.
unfoldable pub advance : ℕ → Twap → ℕ × Twap
unfolding advance_from
advance now t = advance_from (t.bin_count - t.next_bin) now t 0

unfoldable pub done : Twap → Bool
done t = leb t.bin_count t.next_bin

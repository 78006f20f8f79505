-- ===== src/Pipeline/LadderTraits.antt =====
-- `BookTraits<book::LadderBook>` of include/pipeline/dispatch_to_book.hpp. `window` is what 30% of a
-- price is in floating point.
use itch_lob_engine.Base.{
  ◌^◌, ◌≤◌, ◌<◌, ◌≡◌, ◌&&◌, ◌==◌, if◌then◌else◌, ℕ, not, Option, some, [], arith, leb,
}
use itch_lob_engine.Book.LadderBook.{LadderBook, construct}
use itch_lob_engine.Book.LadderBook.Growth.{IsFraction}
use itch_lob_engine.Book.LadderBook.Invariant.{IsValid}
use itch_lob_engine.Book.LadderBook.Steps.{construct-IsValid}

abbrev pub fallback_base : ℕ
fallback_base = 500_000

abbrev pub ladder_tick : ℕ
ladder_tick = 100

abbrev pub max_sane_price : ℕ
max_sane_price = 100_000_000

unfoldable pub sane_base : ℕ → ℕ
sane_base hint = if not (hint == 0) && leb hint max_sane_price then hint else fallback_base

unfoldable pub make_ladder : (ℕ → ℕ) → ℕ → Option LadderBook
unfolding sane_base
make_ladder window hint = construct window (sane_base hint) ladder_tick

sane_base-fits : (hint : ℕ) → sane_base hint < 2 ^ 32
unfolding sane_base
sane_base-fits hint = ground arith

-- Where the window of a price is at most the price: whatever the hint is, 0 and prices beyond any
-- stock's included, a ladder is made without an exception, and it is valid, has no orders, and holds
-- the price that it is centred on.
pub make_ladder-IsValid :
    (window : ℕ → ℕ)
    → IsFraction window
    → (hint : ℕ)
    → (b : LadderBook) × (make_ladder window hint ≡ some b)
      × IsValid b
      × (b.orders ≡ [])
      × (b.min_price ≤ sane_base hint)
      × (sane_base hint ≤ b.max_price)
unfolding make_ladder
make_ladder-IsValid window fraction hint =
    construct-IsValid window fraction (sane_base hint) ladder_tick (sane_base-fits hint)

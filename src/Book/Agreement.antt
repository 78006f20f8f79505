-- ===== src/Book/Agreement.antt =====
-- The two books against each other, as fuzz/fuzz_differential.cpp runs them: one event stream, two
-- implementations, and what can be observed of them.
use itch_lob_engine.Base.{◌^◌, ◌/◌, ◌<◌, ◌≡◌, ◌∙◌, ℕ, sym, ap, List, [], map, length}
use itch_lob_engine.Book.Types.{buy, sell}
use itch_lob_engine.Book.Reference.{Event, AllInRange, IsBest-unique}
use itch_lob_engine.Book.OrderBook
use itch_lob_engine.Book.OrderBook.{empty_book}
use itch_lob_engine.Book.OrderBook.Refine as Map
use itch_lob_engine.Book.LadderBook
use itch_lob_engine.Book.LadderBook.{LadderBook, max_ticks}
use itch_lob_engine.Book.LadderBook.Steps.{run}
use itch_lob_engine.Book.LadderBook.Refine.{AllPriced, Bounded, ladder_run_refines}
use itch_lob_engine.Book.LadderBook.Growth.{IsFraction}
use itch_lob_engine.Book.LadderBook.Invariant.{IsValid}

-- The window of a price is at most the price, and a range up to `high` has at most 8,000,000 ticks.
-- Then a valid ladder with no orders, of tick size `tick` and a range up to `high` at most, and an
-- empty map book, given the same events, fewer than 2^32, with uint32_t quantities and prices that
-- are multiples of `tick` and whose windows end at `high` at most, return the same Booleans and end
-- with the same number of open orders, the same best bid and the same best ask.
pub books_agree :
    (window : ℕ → ℕ)
    → IsFraction window
    → (tick high : ℕ) → high / tick < max_ticks
    → (es : List Event) (b : LadderBook) → AllInRange es
    → AllPriced window tick high es
    → length es < 2 ^ 32
    → IsValid b
    → Bounded tick high b
    → b.orders ≡ []
    → let (done, ladder) = run window es b in
      let (done', map) = Map.run es empty_book in
      (done ≡ done')
      × (LadderBook.open_orders ladder ≡ OrderBook.open_orders map)
      × (LadderBook.best_bid ladder ≡ OrderBook.best_bid map)
      × (LadderBook.best_ask ladder ≡ OrderBook.best_ask map)
unfolding LadderBook.open_orders OrderBook.open_orders
books_agree window fraction tick high fits es b h g few v bounded none_open =
    let (rs, ls, bid, ask) =
      ladder_run_refines window fraction tick high fits es b h g few v bounded none_open in
    let (rs', ls', bid', ask') = Map.run_refines es h few in
    (
      rs ∙ sym rs',
      ap length (ls ∙ sym ls'),
      IsBest-unique buy _ _ _ bid bid',
      IsBest-unique sell _ _ _ ask ask',
    )

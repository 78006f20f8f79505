-- ===== src/Book/Tests.antt =====
-- Small order books: each theorem on the books at one concrete run.
use itch_lob_engine.Base.{
  ◌^◌, ◌*◌, ◌/◌, ◌≤◌, ◌<◌, ◌≡◌, ◌∷◌, ℕ, zero, suc, refl, false, some, List, [], map, arith, length,
}
use itch_lob_engine.Book.Types.{buy, sell, Level, empty_level}
use itch_lob_engine.Book.Reference.{Event, IsBest, apply_all, AllInRange}
use itch_lob_engine.Book.Half.{next_best, better}
use itch_lob_engine.Book.Locator
use itch_lob_engine.Book.Half.Search.{IsBestIdx, NoneBetter, next_best-IsBestIdx, orders_of}
use itch_lob_engine.Book.OrderBook
use itch_lob_engine.Book.OrderBook.{OrderBook, empty_book}
use itch_lob_engine.Book.OrderBook.Refine.{run_refines}
use itch_lob_engine.Book.OrderBook.Refine as Map
use itch_lob_engine.Book.LadderBook
use itch_lob_engine.Book.LadderBook.{LadderBook, make_room, construct, add}
use itch_lob_engine.Book.LadderBook.Invariant.{IsValid}
use itch_lob_engine.Book.LadderBook.Growth.{IsFraction, make_room-Covers}
use itch_lob_engine.Book.LadderBook.Quotes.{best_bid-IsBest}
use itch_lob_engine.Book.LadderBook.Steps.{fresh_book, step, run, step-IsValid, with_range-IsValid}
use itch_lob_engine.Book.LadderBook.Refine.{ladder_run_refines, add_refused, AllPriced}
use itch_lob_engine.Book.Agreement.{books_agree}

-- The default window_pct, on integers.
abbrev thirty_percent : ℕ → ℕ
thirty_percent p = p * 3 / 10

thirty_percent-IsFraction : IsFraction thirty_percent
thirty_percent-IsFraction p = omega arith

abbrev events : List Event
events =
    Event.add 1 buy 100 1000
    ∷ Event.add 2 sell 50 1400
    ∷ Event.execute 1 40
    ∷ Event.replace 2 3 60 1200
    ∷ Event.cancel 9 5
    ∷ []

abbrev book : LadderBook
book = fresh_book 100 700 1300

book-IsValid : IsValid book
book-IsValid = (with_range-IsValid 100 700 1300 (omega arith) refl (omega arith) (omega arith)).1

events-InRange : AllInRange events
events-InRange = ground arith

events-Priced : AllPriced thirty_percent 100 5000 events
events-Priced = ground arith

run_refines_example :
    let (done, b) = Map.run events empty_book in
    let (done', m) = apply_all events [] in
    (done ≡ done')
    × (b.orders ≡ m)
    × IsBest buy m (OrderBook.best_bid b)
    × IsBest sell m (OrderBook.best_ask b)
run_refines_example = run_refines events events-InRange (ground arith)

ladder_run_refines_example :
    let (done, b) = run thirty_percent events book in
    let (done', m) = apply_all events [] in
    (done ≡ done')
    × (b.orders ≡ m)
    × IsBest buy m (LadderBook.best_bid b)
    × IsBest sell m (LadderBook.best_ask b)
ladder_run_refines_example =
    ladder_run_refines thirty_percent thirty_percent-IsFraction 100 5000 (ground arith) events book
      events-InRange events-Priced (ground arith) book-IsValid (refl, omega arith) refl

books_agree_example :
    let (done, ladder) = run thirty_percent events book in
    let (done', map) = Map.run events empty_book in
    (done ≡ done')
    × (LadderBook.open_orders ladder ≡ OrderBook.open_orders map)
    × (LadderBook.best_bid ladder ≡ OrderBook.best_bid map)
    × (LadderBook.best_ask ladder ≡ OrderBook.best_ask map)
books_agree_example =
    books_agree thirty_percent thirty_percent-IsFraction 100 5000 (ground arith) events book
      events-InRange events-Priced (ground arith) book-IsValid (refl, omega arith) refl

-- A bid at 1,600, which is above the range.
abbrev grown : LadderBook
grown = (step thirty_percent (Event.add 1 buy 100 1600) book).1

step-IsValid_example : IsValid grown
step-IsValid_example =
    step-IsValid thirty_percent thirty_percent-IsFraction (Event.add 1 buy 100 1600) book
      (omega arith, omega arith) (omega arith) book-IsValid

grown_small : suc (length grown.orders) < 2 ^ 32
unfolding step Locator.find
grown_small = omega arith

grown-IsValid : IsValid grown
grown-IsValid =
    step-IsValid thirty_percent thirty_percent-IsFraction (Event.add 1 buy 100 1600) book
      (omega arith, omega arith) (omega arith) book-IsValid

best_bid-IsBest_example : IsBest buy grown.orders (LadderBook.best_bid grown)
best_bid-IsBest_example = best_bid-IsBest grown grown-IsValid

room_made : make_room thirty_percent 1600 book ≡ some (fresh_book 100 700 2080)
unfolding make_room
room_made = refl

refused : (add thirty_percent 2 buy 100 1650 grown).0 ≡ false
unfolding add step Locator.find
refused = refl

make_room-Covers_example :
    IsValid (fresh_book 100 700 2080)
    × (700 ≤ 1600)
    × (1600 ≤ 2080)
    × ((fresh_book 100 700 2080).orders ≡ book.orders)
make_room-Covers_example =
    make_room-Covers thirty_percent thirty_percent-IsFraction book book-IsValid 1600 (omega arith)
      (fresh_book 100 700 2080) room_made

-- A price that is off the grid.
add_refused_example :
    ((add thirty_percent 2 buy 100 1650 grown).1.orders ≡ grown.orders)
    × (LadderBook.best_bid (add thirty_percent 2 buy 100 1650 grown).1 ≡ LadderBook.best_bid grown)
    × (LadderBook.best_ask (add thirty_percent 2 buy 100 1650 grown).1 ≡ LadderBook.best_ask grown)
add_refused_example =
    add_refused thirty_percent thirty_percent-IsFraction 2 buy 100 1650 grown (omega arith)
      (omega arith) grown_small grown-IsValid refused

abbrev levels : List Level
levels = record { shares = 70; orders = 2 } ∷ empty_level ∷ empty_level ∷ empty_level ∷ []

levels_below : (j : ℕ) → 0 < orders_of levels j → better buy j 2 ≡ false
levels_below zero h = refl
levels_below (suc zero) h = refl
levels_below (suc (suc zero)) h = refl
levels_below (suc (suc (suc zero))) h = ground (arith, h)
levels_below (suc (suc (suc (suc j)))) h = ground (arith, h)

levels-NoneBetter : NoneBetter buy 4 levels 2
levels-NoneBetter = (omega arith, refl, λ j h k. levels_below j k)

next_best-IsBestIdx_example : IsBestIdx buy 4 levels (next_best buy levels 2)
next_best-IsBestIdx_example = next_best-IsBestIdx buy levels 2 levels-NoneBetter

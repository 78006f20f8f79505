-- ===== src/Book/LadderBook/Quotes.antt =====
-- `best_bid` and `best_ask` of a valid `LadderBook` are the best quotes of its open orders.
use itch_lob_engine.Base.{
  ◌^◌, ◌*◌, ◌%◌, ◌≤◌, ◌<◌, ◌≡◌, ◌∙◌, ◌∷◌, ℕ, sym, ap, subst, inl, inr, false, none, some, [], arith,
  ltb, get_or, Bool-cases, Option-cases,
}
use itch_lob_engine.Book.Types.{Side, buy, sell, Level, empty_level}
use itch_lob_engine.Book.Locator.{Locator, count_at, shares_at, level_at}
use itch_lob_engine.Book.Ladder.{before}
use itch_lob_engine.Book.Reference.{IsBest}
use itch_lob_engine.Book.Half.{Half, better}
use itch_lob_engine.Book.Half.Search.{IsBestIdx}
use itch_lob_engine.Book.Half.Invariant.{Holds}
use itch_lob_engine.Book.LadderBook.{LadderBook, idx, price_at, quote, best_bid, best_ask}
use itch_lob_engine.Book.LadderBook.Grid.{grid_price, grid_price-le, OnGrid, AllOnGrid}
use itch_lob_engine.Book.LadderBook.Invariant.{IsValid, idx-in, price-idx}

count_at-OnGrid :
    (low high tick : ℕ) (s : Side) (p : ℕ) (m : Locator)
    → AllOnGrid low high tick m
    → 0 < count_at s p m
    → OnGrid low high tick p
unfolding count_at
count_at-OnGrid low high tick s p [] a h = absurd (omega arith)
count_at-OnGrid low high tick s p ((k, o) ∷ m) a h =
    ground (arith, count_at-OnGrid low high tick s p m a.1)

module _ (b : LadderBook) (v : IsValid b) where
  abbrev price : ℕ → ℕ
  price = grid_price b.min_price b.tick_size

  price_mono : (i j : ℕ) → i ≤ j → price i ≤ price j
  price_mono i j h = grind arith

  idx-le : (i t : ℕ) → 0 < t → i ≤ i * t
  idx-le i t h = grind arith

  -- The uint32_t arithmetic of `price_at` does not wrap inside the arrays.
  pub price_at-lem : (i : ℕ) → i < b.num_ticks → price_at i b ≡ price i
  unfolding price_at
  price_at-lem i h =
      let top : price i ≤ b.max_price =
        grid_price-le b.min_price b.tick_size v.tick_pos b.max_price i v.ordered
          (omega (arith, v.ticks)) in
      let whole : i % 2 ^ 32 ≡ i =
        omega (arith, idx-le i b.tick_size v.tick_pos, top, v.max_fits) in
      omega (arith, ap (λ n. n * b.tick_size) whole, top, v.max_fits)

  better-before : (s : Side) (i j : ℕ) → better s j i ≡ false → before s (price j) (price i) ≡ false
  unfolding before
  better-before buy i j h = ground (arith, price_mono j i)
  better-before sell i j h = ground (arith, price_mono i j)

  module _ (s : Side) (h : Half) (w : Holds s price b.num_ticks b.orders h) where
    -- An occupied price has an occupied index.
    occupied-idx :
        (p : ℕ)
        → 0 < count_at s p b.orders
        → (idx p b < b.num_ticks)
          × (price (idx p b) ≡ p)
          × (0 < (get_or h.levels (idx p b) empty_level).orders)
    occupied-idx p c =
        let g = count_at-OnGrid _ _ _ s p b.orders v.on_grid c in
        let e : price (idx p b) ≡ p = price-idx b v p g in
        (
          idx-in b v p g,
          e,
          subst (λ (l : Level). 0 < l.orders) (sym (w.levels_hold (idx p b) (idx-in b v p g)))
              (subst (λ q. 0 < count_at s q b.orders) (sym e) c),
        )

    empty-IsBest : IsBestIdx s b.num_ticks h.levels none → IsBest s b.orders none
    empty-IsBest best p = elim (Bool-cases (ltb 0 (count_at s p b.orders))) [
      | inl e ↦
          let o = occupied-idx p (ground arith) in absurd (omega (arith, o.2, best (idx p b) o.0))
      | inr e ↦ ground arith
    ]

    some-IsBest :
        (i : ℕ)
        → IsBestIdx s b.num_ticks h.levels (some i)
        → IsBest s b.orders (
            some (record { price = price_at i b; shares = (get_or h.levels i empty_level).shares }))
    some-IsBest i best =
        let at : price_at i b ≡ price i = price_at-lem i best.0 in
        let level : get_or h.levels i empty_level ≡ level_at s (price i) b.orders =
          w.levels_hold i best.0 in
        (
          subst (λ q. 0 < count_at s q b.orders) (sym at)
              (subst (λ (l : Level). 0 < l.orders) level best.1),
          λ p c.
              let o = occupied-idx p c in
              subst (λ q. before s q (price_at i b) ≡ false) o.1
                (subst (λ q. before s (price (idx p b)) q ≡ false) (sym at)
                  (better-before s i (idx p b) (best.2 (idx p b) o.0 o.2))),
          ap (λ (l : Level). l.shares) level ∙ ap (λ q. shares_at s q b.orders) (sym at),
        )

    pub quote-IsBest : IsBest s b.orders (quote h b)
    unfolding quote
    quote-IsBest = elim (Option-cases h.best_idx) [
      | inl e ↦ rw (e, quote) (empty-IsBest (subst (IsBestIdx s b.num_ticks h.levels) e w.best))
      | inr (i, e) ↦
          rw (e, quote) (some-IsBest i (subst (IsBestIdx s b.num_ticks h.levels) e w.best))
    ]

  -- The best bid that a valid book answers is none where no buy order is open, and otherwise the
  -- highest price of an open buy order with all shares that are open to buy at it.
  pub best_bid-IsBest : IsBest buy b.orders (best_bid b)
  unfolding best_bid
  best_bid-IsBest = quote-IsBest buy b.bid v.bid_holds

  pub best_ask-IsBest : IsBest sell b.orders (best_ask b)
  unfolding best_ask
  best_ask-IsBest = quote-IsBest sell b.ask v.ask_holds

-- ===== src/Book/LadderBook/Invariant.antt =====
-- The invariant of a `LadderBook`: the range of prices and the length of the arrays fit together,
-- every open order is on the grid, and both sides hold what the open orders make.
use itch_lob_engine.Base.{
  ◌^◌, ◌/◌, ◌%◌, ◌-◌, ◌+◌, ◌≤◌, ◌<◌, ◌≡◌, ◌∷◌, ◌==◌, ℕ, suc, refl, inl, inr, true, false, some,
  arith, length, Bool-cases, Option-cases, ==→≡, ==→≢,
}
use itch_lob_engine.Book.Types.{Side, buy, sell, Order, side_eq}
use itch_lob_engine.Book.Locator
use itch_lob_engine.Book.Locator.{Locator, Fits, at, level_at, find-Fits, erase-Fits, assign-Fits}
use itch_lob_engine.Book.Half.{half_sub, Half}
use itch_lob_engine.Book.Half.Invariant.{Holds, Holds-levels}
use itch_lob_engine.Book.Half.Levels.{level_at-cons, level_at-erase_other, level_at-assign_other}
use itch_lob_engine.Book.Half.Moves.{half_add-Holds}
use itch_lob_engine.Book.Half.Falls.{half_gone-Holds, half_lowered-Holds}
use itch_lob_engine.Book.LadderBook.{
  LadderBook, idx, level_sub, side_add, reduce, reduce_found, remove, add_in_range,
}
use itch_lob_engine.Book.LadderBook.Grid.{
  grid_price, grid_price-Injective, grid_price-idx, idx-lt, OnGrid, AllOnGrid, find-OnGrid,
  erase-AllOnGrid, assign-AllOnGrid,
}

pub record IsValid (b : LadderBook) : Type 0 where
  pub tick_pos : 0 < b.tick_size
  pub aligned : b.min_price % b.tick_size ≡ 0
  pub ordered : b.min_price ≤ b.max_price
  pub max_fits : b.max_price < 2 ^ 32
  pub ticks : b.num_ticks ≡ (b.max_price - b.min_price) / b.tick_size + 1
  pub fits : Fits b.orders
  pub on_grid : AllOnGrid b.min_price b.max_price b.tick_size b.orders
  pub bid_holds : Holds buy (grid_price b.min_price b.tick_size) b.num_ticks b.orders b.bid
  pub ask_holds : Holds sell (grid_price b.min_price b.tick_size) b.num_ticks b.orders b.ask

other_side : (s : Side) (p : ℕ) (o : Order) → side_eq o.side s ≡ false → at s p o ≡ false
other_side s p o h = ground arith

module _ (b : LadderBook) (v : IsValid b) where
  abbrev price : ℕ → ℕ
  price = grid_price b.min_price b.tick_size

  abbrev Fine : ℕ → Type 0
  Fine p = OnGrid b.min_price b.max_price b.tick_size p

  -- A price on the grid has an index inside the arrays, and is the price of it.
  pub idx-in : (p : ℕ) → Fine p → idx p b < b.num_ticks
  unfolding idx
  idx-in p g = omega (arith, idx-lt b.min_price b.tick_size v.tick_pos b.max_price p g, v.ticks)

  pub price-idx : (p : ℕ) → Fine p → price (idx p b) ≡ p
  unfolding idx
  price-idx p g = grid_price-idx b.min_price b.tick_size v.tick_pos b.max_price p g

  pub side_add-IsValid :
      (r : ℕ) (s : Side) (shares p : ℕ)
      → Fine p
      → shares < 2 ^ 32
      → suc (length b.orders) < 2 ^ 32
      → let o : Order = record { shares = shares; price = p; side = s } in
        IsValid (side_add s p shares (record b { orders = (r, o) ∷ b.orders }))
  unfolding side_add
  side_add-IsValid r buy shares p g small few = record {
    tick_pos = v.tick_pos;
    aligned = v.aligned;
    ordered = v.ordered;
    max_fits = v.max_fits;
    ticks = v.ticks;
    fits = (small, v.fits);
    on_grid = (g, v.on_grid);
    bid_holds =
        half_add-Holds buy price b.num_ticks (grid_price-Injective _ _ v.tick_pos) b.orders b.bid
          v.bid_holds r _ (idx p b) refl (idx-in p g) (price-idx p g) small few v.fits;
    ask_holds =
        Holds-levels sell price b.num_ticks b.orders _ b.ask
          (λ q.
            level_at-cons sell q r b.orders (record { shares = shares; price = p; side = buy })
              refl)
          v.ask_holds;
  }
  side_add-IsValid r sell shares p g small few = record {
    tick_pos = v.tick_pos;
    aligned = v.aligned;
    ordered = v.ordered;
    max_fits = v.max_fits;
    ticks = v.ticks;
    fits = (small, v.fits);
    on_grid = (g, v.on_grid);
    bid_holds =
        Holds-levels buy price b.num_ticks b.orders _ b.bid
          (λ q.
            level_at-cons buy q r b.orders (record { shares = shares; price = p; side = sell })
              refl)
          v.bid_holds;
    ask_holds =
        half_add-Holds sell price b.num_ticks (grid_price-Injective _ _ v.tick_pos) b.orders b.ask
          v.ask_holds r _ (idx p b) refl (idx-in p g) (price-idx p g) small few v.fits;
  }

  module _ (r : ℕ) (o : Order) (found : Locator.find r b.orders ≡ some o) where
    fine : Fine o.price
    fine = find-OnGrid b.min_price b.max_price b.tick_size r b.orders o found v.on_grid

    gone-Holds :
        (s : Side) (h : Half)
        → side_eq o.side s ≡ true
        → Holds s price b.num_ticks b.orders h
        → Holds s price b.num_ticks
            (Locator.erase r b.orders)
            (half_sub s (idx o.price b) o.shares true h)
    gone-Holds s h same w =
        half_gone-Holds s price b.num_ticks (grid_price-Injective _ _ v.tick_pos) b.orders h w r o
          (idx o.price b) found same (idx-in o.price fine) (price-idx o.price fine)

    gone-Holds_other :
        (s : Side) (h : Half)
        → side_eq o.side s ≡ false
        → Holds s price b.num_ticks b.orders h
        → Holds s price b.num_ticks (Locator.erase r b.orders) h
    gone-Holds_other s h d w =
        Holds-levels s price b.num_ticks b.orders _ h
          (λ q. level_at-erase_other s q r b.orders o found (other_side s q o d)) w

    lowered-Holds :
        (s : Side) (h : Half) (qty : ℕ)
        → qty < o.shares
        → side_eq o.side s ≡ true
        → Holds s price b.num_ticks b.orders h
        → Holds s price b.num_ticks
            (Locator.assign r (record o { shares = o.shares - qty }) b.orders)
            (half_sub s (idx o.price b) qty false h)
    lowered-Holds s h qty less same w =
        half_lowered-Holds s price b.num_ticks (grid_price-Injective _ _ v.tick_pos) b.orders h w r
          o (idx o.price b) found same (idx-in o.price fine) (price-idx o.price fine) qty less

    lowered-Holds_other :
        (s : Side) (h : Half) (qty : ℕ)
        → qty < o.shares
        → side_eq o.side s ≡ false
        → Holds s price b.num_ticks b.orders h
        → Holds s price b.num_ticks
            (Locator.assign r (record o { shares = o.shares - qty }) b.orders)
            h
    lowered-Holds_other s h qty less d w =
        Holds-levels s price b.num_ticks b.orders _ h
          (λ q. level_at-assign_other s q r b.orders o found qty less (other_side s q o d)) w

  gone-IsValid :
      (r : ℕ) (s : Side) (shares p : ℕ)
      → let o : Order = record { shares = shares; price = p; side = s } in
        Locator.find r b.orders ≡ some o
        → IsValid (level_sub s p shares true (record b { orders = Locator.erase r b.orders }))
  unfolding level_sub
  gone-IsValid r buy shares p e = record {
    tick_pos = v.tick_pos;
    aligned = v.aligned;
    ordered = v.ordered;
    max_fits = v.max_fits;
    ticks = v.ticks;
    fits = erase-Fits r b.orders v.fits;
    on_grid = erase-AllOnGrid _ _ _ r b.orders v.on_grid;
    bid_holds = gone-Holds r _ e buy b.bid refl v.bid_holds;
    ask_holds = gone-Holds_other r _ e sell b.ask refl v.ask_holds;
  }
  gone-IsValid r sell shares p e = record {
    tick_pos = v.tick_pos;
    aligned = v.aligned;
    ordered = v.ordered;
    max_fits = v.max_fits;
    ticks = v.ticks;
    fits = erase-Fits r b.orders v.fits;
    on_grid = erase-AllOnGrid _ _ _ r b.orders v.on_grid;
    bid_holds = gone-Holds_other r _ e buy b.bid refl v.bid_holds;
    ask_holds = gone-Holds r _ e sell b.ask refl v.ask_holds;
  }

  lowered-IsValid :
      (r : ℕ) (s : Side) (shares p qty : ℕ)
      → qty < shares
      → let o : Order = record { shares = shares; price = p; side = s } in
        Locator.find r b.orders ≡ some o
        → IsValid (
            level_sub s p qty false (record b {
              orders =
                  Locator.assign r (record { shares = shares - qty; price = p; side = s }) b.orders;
            }))
  unfolding level_sub
  lowered-IsValid r buy shares p qty less e = record {
    tick_pos = v.tick_pos;
    aligned = v.aligned;
    ordered = v.ordered;
    max_fits = v.max_fits;
    ticks = v.ticks;
    fits = assign-Fits r b.orders _ (omega (arith, find-Fits r b.orders _ e v.fits)) v.fits;
    on_grid = assign-AllOnGrid _ _ _ r b.orders _ (fine r _ e) v.on_grid;
    bid_holds = lowered-Holds r _ e buy b.bid qty less refl v.bid_holds;
    ask_holds = lowered-Holds_other r _ e sell b.ask qty less refl v.ask_holds;
  }
  lowered-IsValid r sell shares p qty less e = record {
    tick_pos = v.tick_pos;
    aligned = v.aligned;
    ordered = v.ordered;
    max_fits = v.max_fits;
    ticks = v.ticks;
    fits = assign-Fits r b.orders _ (omega (arith, find-Fits r b.orders _ e v.fits)) v.fits;
    on_grid = assign-AllOnGrid _ _ _ r b.orders _ (fine r _ e) v.on_grid;
    bid_holds = lowered-Holds_other r _ e buy b.bid qty less refl v.bid_holds;
    ask_holds = lowered-Holds r _ e sell b.ask qty less refl v.ask_holds;
  }

  reduce_found-IsValid :
      (r qty : ℕ) (o : Order)
      → qty ≤ o.shares
      → Locator.find r b.orders ≡ some o
      → IsValid (reduce_found r qty o b)
  unfolding reduce_found
  reduce_found-IsValid r qty o h e = elim (Bool-cases (o.shares - qty == 0)) [
    | inl t ↦
        let same : qty ≡ o.shares = omega (arith, ==→≡ _ _ t) in
        rw (t, reduce_found, same) (gone-IsValid r o.side o.shares o.price e)
    | inr t ↦
        rw (t, reduce_found)
          (lowered-IsValid r o.side o.shares o.price qty (omega (arith, ==→≢ _ _ t)) e)
  ]

  -- `execute` and `cancel` keep the invariant, for any quantity.
  pub reduce-IsValid : (r shares : ℕ) → IsValid (reduce r shares b).1
  unfolding reduce
  reduce-IsValid r shares = elim (Option-cases (Locator.find r b.orders)) [
    | inl e ↦ rw (e, reduce) v
    | inr (o, e) ↦ rw (e, reduce) (reduce_found-IsValid r _ o (ground arith) e)
  ]

  -- `remove` keeps the invariant.
  pub remove-IsValid : (r : ℕ) → IsValid (remove r b).1
  unfolding remove
  remove-IsValid r = elim (Option-cases (Locator.find r b.orders)) [
    | inl e ↦ rw (e, remove) v
    | inr (o, e) ↦ rw (e, remove) (gone-IsValid r o.side o.shares o.price e)
  ]

  -- So does `add` of a price in range, also where it refuses it.
  pub add_in_range-IsValid :
      (r : ℕ) (s : Side) (shares p : ℕ)
      → b.min_price ≤ p
      → p ≤ b.max_price
      → shares < 2 ^ 32
      → suc (length b.orders) < 2 ^ 32
      → IsValid (add_in_range r s shares p b).1
  unfolding add_in_range
  add_in_range-IsValid r s shares p lo hi small few =
      elim (Bool-cases ((p - b.min_price) % b.tick_size == 0)) [
        | inl t ↦ elim (Option-cases (Locator.find r b.orders)) [
          | inl e ↦
              rw (t, e, add_in_range) (side_add-IsValid r s shares p (lo, hi, ==→≡ _ _ t) small few)
          | inr (o, e) ↦ rw (t, e, add_in_range) v
        ]
        | inr t ↦ rw (t, add_in_range) v
      ]

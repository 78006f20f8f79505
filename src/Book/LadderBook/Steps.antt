-- ===== src/Book/LadderBook/Steps.antt =====
-- Every mutator keeps the invariant of a `LadderBook`, for any price and whatever it returns.
use itch_lob_engine.Base.{
  ◌^◌, ◌/◌, ◌%◌, ◌-◌, ◌+◌, ◌≤◌, ◌<◌, ◌≡◌, ◌==◌, if◌then◌else◌, ℕ, suc, refl, ap, inl, inr, Bool,
  true, some, [], arith, length, Option-cases, ◌∷◌, List,
}
use itch_lob_engine.Book.Types.{Side, buy, sell, Order}
use itch_lob_engine.Book.Locator
use itch_lob_engine.Book.Locator.{Locator, length-erase-le}
use itch_lob_engine.Book.Reference.{Event, InRange}
use itch_lob_engine.Book.Half.Invariant.{fresh_half-Holds}
use itch_lob_engine.Book.LadderBook.Grid.{grid_price}
use itch_lob_engine.Book.Half.Invariant.{fresh_half, fresh_half-Holds}
use itch_lob_engine.Book.LadderBook.{
  with_range, LadderBook, add, execute, cancel, remove, replace, make_room, level_sub, side_add,
  construct, with_range, snap_to_tick, window_low, window_high,
}
use itch_lob_engine.Book.LadderBook.Invariant.{
  IsValid, add_in_range-IsValid, reduce-IsValid, remove-IsValid,
}
use itch_lob_engine.Book.LadderBook.Growth.{
  IsFraction, make_room-Covers, window_low-le, window_high-ge, window_high-lt, snap_to_tick-le,
  snap_to_tick-mod,
}

pub orders-level_sub :
    (s : Side) (p q : ℕ) (g : Bool) (b : LadderBook) → (level_sub s p q g b).orders ≡ b.orders
unfolding level_sub
orders-level_sub buy p q g b = refl
orders-level_sub sell p q g b = refl

pub orders-side_add : (s : Side) (p q : ℕ) (b : LadderBook) → (side_add s p q b).orders ≡ b.orders
unfolding side_add
orders-side_add buy p q b = refl
orders-side_add sell p q b = refl

pub orders-remove :
    (r : ℕ) (b : LadderBook) (o : Order)
    → Locator.find r b.orders ≡ some o
    → (remove r b).1.orders ≡ Locator.erase r b.orders
unfolding remove
orders-remove r b o e = rw (e, remove) (orders-level_sub o.side o.price o.shares true _)

-- The book that the private constructor makes.
abbrev pub fresh_book : ℕ → ℕ → ℕ → LadderBook
fresh_book tick low high =
    let ticks : ℕ = (high - low) / tick + 1 in
    record {
      tick_size = tick;
      min_price = low;
      max_price = high;
      num_ticks = ticks;
      bid = fresh_half ticks;
      ask = fresh_half ticks;
      orders = [];
    }

pub with_range-IsValid :
    (tick low high : ℕ)
    → 0 < tick
    → low % tick ≡ 0
    → low ≤ high
    → high < 2 ^ 32
    → (with_range tick low high ≡ some (fresh_book tick low high))
      × IsValid (fresh_book tick low high)
unfolding with_range
with_range-IsValid tick low high pos snapped le small = (
  ground arith,
  record {
    tick_pos = pos;
    aligned = snapped;
    ordered = le;
    max_fits = small;
    ticks = refl;
    fits = tt;
    on_grid = tt;
    bid_holds = fresh_half-Holds buy (grid_price low tick) ((high - low) / tick + 1);
    ask_holds = fresh_half-Holds sell (grid_price low tick) ((high - low) / tick + 1);
  },
)

module _ (window : ℕ → ℕ) where
  -- The mutator that an event stands for.
  unfoldable pub step : Event → LadderBook → Bool × LadderBook
  unfolding add execute cancel remove replace
  step (Event.add r s q p) b = add window r s q p b
  step (Event.execute r q) b = execute r q b
  step (Event.cancel r q) b = cancel r q b
  step (Event.remove r) b = remove r b
  step (Event.replace r n q p) b = replace window r n q p b

  -- The events in order: what each returns, and the book that they leave.
  unfoldable pub run : List Event → LadderBook → List Bool × LadderBook
  unfolding step
  run [] b = ([], b)
  run (e ∷ es) b =
      let (done, b') = step e b in let (rest, final) = run es b' in (done ∷ rest, final)

module _ (window : ℕ → ℕ) (fraction : IsFraction window) where
  pub add-IsValid :
      (r : ℕ) (s : Side) (q p : ℕ) (b : LadderBook)
      → q < 2 ^ 32
      → p < 2 ^ 32
      → suc (length b.orders) < 2 ^ 32
      → IsValid b
      → IsValid (add window r s q p b).1
  unfolding add
  add-IsValid r s q p b small low few v = elim (Option-cases (make_room window p b)) [
    | inl e ↦ rw (e, add) v
    | inr (b', e) ↦
        let c = make_room-Covers window fraction b v p low b' e in
        rw (e, add)
          (add_in_range-IsValid b' c.0 r s q p c.1 c.2 small (omega (arith, ap length c.3)))
  ]

  replace-IsValid :
      (r n q p : ℕ) (b : LadderBook)
      → q < 2 ^ 32
      → p < 2 ^ 32
      → suc (length b.orders) < 2 ^ 32
      → IsValid b
      → IsValid (replace window r n q p b).1
  unfolding replace
  replace-IsValid r n q p b small low few v = elim (Option-cases (Locator.find r b.orders)) [
    | inl e ↦ rw (e, replace) v
    | inr (o, e) ↦
        rw (e, replace)
          (add-IsValid n o.side q p (remove r b).1 small low
            (omega (arith, ap length (orders-remove r b o e), length-erase-le r b.orders))
            (remove-IsValid b v r))
  ]

  -- Where the window of a price is at most the price, every event of uint32_t quantities keeps a book
  -- of fewer than 2^32 - 1 orders valid, growth and refusals included: each side's levels are those
  -- that the open orders make, its counter is that of its occupied levels, and its best index is the
  -- best of them.
  pub step-IsValid :
      (e : Event) (b : LadderBook)
      → InRange e
      → suc (length b.orders) < 2 ^ 32
      → IsValid b
      → IsValid (step window e b).1
  unfolding step execute cancel
  step-IsValid (Event.add r s q p) b h few v = add-IsValid r s q p b h.0 h.1 few v
  step-IsValid (Event.execute r q) b h few v = reduce-IsValid b v r q
  step-IsValid (Event.cancel r q) b h few v = reduce-IsValid b v r q
  step-IsValid (Event.remove r) b h few v = remove-IsValid b v r
  step-IsValid (Event.replace r n q p) b h few v = replace-IsValid r n q p b h.0 h.1 few v

  -- Where the window of a price is at most the price, the constructor, given a uint32_t base price and
  -- any tick size, does not throw, and gives a valid book with no orders whose range holds the base
  -- price.
  pub construct-IsValid :
      (base tick : ℕ)
      → base < 2 ^ 32
      → (b : LadderBook) × (construct window base tick ≡ some b)
        × IsValid b
        × (b.orders ≡ [])
        × (b.min_price ≤ base)
        × (base ≤ b.max_price)
  unfolding construct
  construct-IsValid base tick small =
      let t : ℕ = if tick == 0 then 1 else tick in
      let pos : 0 < t = ground arith in
      let low : ℕ = snap_to_tick (window_low window base) t in
      let low_le : low ≤ base =
        omega
          (arith, snap_to_tick-le (window_low window base) t, window_low-le window fraction base) in
      let high_ge : base ≤ window_high window base = window_high-ge window fraction base small in
      let (made, valid) =
        with_range-IsValid t low (window_high window base) pos
          (snap_to_tick-mod (window_low window base) t) (omega arith)
          (window_high-lt window fraction base) in
      (fresh_book t low (window_high window base), made, valid, refl, low_le, high_ge)

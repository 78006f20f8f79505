-- ===== src/Book/LadderBook/Growth.antt =====
-- `grow_to_include`: where it succeeds, the ladder covers the price and holds what it held.
use itch_lob_engine.Base.{
  ◌^◌, ◌*◌, ◌/◌, ◌%◌, ◌-◌, ◌+◌, ◌≤◌, ◌<◌, ◌≡◌, ◌⊎◌, ◌&&◌, ◌==◌, ℕ, suc, min, refl, ap, subst, inl,
  inr, some, arith, ltb, leb, Bool-cases,
}
use itch_lob_engine.Book.Types.{Side, buy, sell, empty_level}
use itch_lob_engine.Book.Locator.{level_at}
use itch_lob_engine.Book.Half.{Half, half_resize}
use itch_lob_engine.Book.Half.Invariant.{Holds}
use itch_lob_engine.Book.Half.Resize.{half_resize-Holds}
use itch_lob_engine.Book.LadderBook.{
  LadderBook, in_range, snap_to_tick, window_low, window_high, wider_min, wider_max,
  grow_to_include, make_room, resize_range,
}
use itch_lob_engine.Book.LadderBook.Grid.{
  grid_price, AllOnGrid-wider, level_at_outside, mod-sub_zero,
}
use itch_lob_engine.Book.LadderBook.Invariant.{IsValid}
use native.Mathlib.Nat.{
  div-add-mod', le-div_iff_mul-le, lt-div-mul-add, mul-mod_left, div-mul-le_self,
}

module _ (b : LadderBook) (v : IsValid b) (new_min new_max : ℕ) (down : new_min ≤ b.min_price)
    (up : b.max_price ≤ new_max) (snapped : new_min % b.tick_size ≡ 0)
    (fits : new_max < 2 ^ 32) where
  abbrev offset : ℕ
  offset = (b.min_price - new_min) / b.tick_size

  abbrev new_ticks : ℕ
  new_ticks = (new_max - new_min) / b.tick_size + 1

  low_moves : (b.min_price - new_min) % b.tick_size ≡ 0
  low_moves = mod-sub_zero b.min_price new_min b.tick_size down v.aligned snapped

  -- The offset is exact: the old floor is on the new grid.
  offset_exact : offset * b.tick_size ≡ b.min_price - new_min
  offset_exact = omega (arith, div-add-mod' (b.min_price - new_min) b.tick_size, low_moves)

  -- No old level is moved past the end of the new arrays.
  room : offset + b.num_ticks ≤ new_ticks
  room =
      let old : ℕ = (b.max_price - b.min_price) / b.tick_size in
      let fit : offset + old ≤ (new_max - new_min) / b.tick_size =
        (le-div_iff_mul-le v.tick_pos).1 (
          omega (
            arith,
            offset_exact,
            div-mul-le_self (b.max_price - b.min_price) b.tick_size,
            v.ordered,
          )) in
      omega (arith, fit, v.ticks)

  same_price :
      (i : ℕ) → grid_price new_min b.tick_size (offset + i) ≡ grid_price b.min_price b.tick_size i
  same_price i = omega (arith, offset_exact)

  mul_mono : (i j : ℕ) → i ≤ j → i * b.tick_size ≤ j * b.tick_size
  mul_mono i j h = grind arith

  below : (i : ℕ) → i < offset → grid_price new_min b.tick_size i < b.min_price
  below i h = omega (arith, mul_mono (suc i) offset h, offset_exact, v.tick_pos)

  above : (i : ℕ) → offset + b.num_ticks ≤ i → b.max_price < grid_price new_min b.tick_size i
  above i h = omega (
    arith,
    mul_mono (offset + b.num_ticks) i h,
    offset_exact,
    v.ticks,
    v.ordered,
    ap (λ n. n * b.tick_size) v.ticks,
    lt-div-mul-add {a = b.max_price - b.min_price} v.tick_pos,
  )

  none_new :
      (s : Side) (i : ℕ)
      → (i < offset) ⊎ (offset + b.num_ticks ≤ i)
      → level_at s (grid_price new_min b.tick_size i) b.orders ≡ empty_level
  none_new s i (inl h) = level_at_outside _ _ _ s _ b.orders v.on_grid (inl (below i h))
  none_new s i (inr h) = level_at_outside _ _ _ s _ b.orders v.on_grid (inr (above i h))

  resized-Holds :
      (s : Side) (h : Half)
      → Holds s (grid_price b.min_price b.tick_size) b.num_ticks b.orders h
      → Holds s (grid_price new_min b.tick_size) new_ticks b.orders (half_resize offset new_ticks h)
  resized-Holds s h w =
      half_resize-Holds s _ (grid_price new_min b.tick_size) b.num_ticks new_ticks offset b.orders h
        room same_price (none_new s) w

  pub resize_range-IsValid : IsValid (resize_range new_min new_max new_ticks b)
  unfolding resize_range
  resize_range-IsValid = record {
    tick_pos = v.tick_pos;
    aligned = snapped;
    ordered = omega (arith, v.ordered);
    max_fits = fits;
    ticks = refl;
    fits = v.fits;
    on_grid = AllOnGrid-wider _ _ _ _ _ b.orders v.tick_pos down up low_moves v.on_grid;
    bid_holds = resized-Holds buy b.bid v.bid_holds;
    ask_holds = resized-Holds sell b.ask v.ask_holds;
  }

pub snap_to_tick-le : (p t : ℕ) → snap_to_tick p t ≤ p
unfolding snap_to_tick
snap_to_tick-le p t = div-mul-le_self p t

pub snap_to_tick-mod : (p t : ℕ) → snap_to_tick p t % t ≡ 0
unfolding snap_to_tick
snap_to_tick-mod p t = mul-mod_left (p / t) t

min-mod : (a c t : ℕ) → a % t ≡ 0 → c % t ≡ 0 → min a c % t ≡ 0
min-mod a c t h k = elim (Bool-cases (leb a c)) [
  | inl e ↦ subst (λ n. n % t ≡ 0) (ground arith) h
  | inr e ↦ subst (λ n. n % t ≡ 0) (ground arith) k
]

-- The window of a price is no larger than the price: it is a fraction of it, truncated.
abbrev pub IsFraction : (ℕ → ℕ) → Type 0
IsFraction window = (p : ℕ) → window p ≤ p

module _ (window : ℕ → ℕ) (fraction : IsFraction window) where
  pub window_low-le : (p : ℕ) → window_low window p ≤ p
  unfolding window_low
  window_low-le p = ground arith

  pub window_high-ge : (p : ℕ) → p < 2 ^ 32 → p ≤ window_high window p
  unfolding window_high
  window_high-ge p h = omega (arith, fraction p)

  pub window_high-lt : (p : ℕ) → window_high window p < 2 ^ 32
  unfolding window_high
  window_high-lt p = omega arith

  module _ (b : LadderBook) (v : IsValid b) (p : ℕ) (small : p < 2 ^ 32) where
    wider_min-le : wider_min window p b ≤ b.min_price
    unfolding wider_min
    wider_min-le = ground arith

    wider_min-mod : wider_min window p b % b.tick_size ≡ 0
    unfolding wider_min
    wider_min-mod = elim (Bool-cases (ltb p b.min_price)) [
      | inl e ↦
          rw (e, wider_min)
            (min-mod b.min_price (snap_to_tick (window_low window p) b.tick_size) b.tick_size
              v.aligned (snap_to_tick-mod (window_low window p) b.tick_size))
      | inr e ↦ rw (e, wider_min) v.aligned
    ]

    wider_min-covers : wider_min window p b ≤ p
    unfolding wider_min
    wider_min-covers =
        ground (arith, window_low-le p, snap_to_tick-le (window_low window p) b.tick_size)

    wider_max-ge : b.max_price ≤ wider_max window p b
    unfolding wider_max
    wider_max-ge = ground arith

    wider_max-lt : wider_max window p b < 2 ^ 32
    unfolding wider_max
    wider_max-lt = ground (arith, window_high-lt p, v.max_fits)

    wider_max-covers : p ≤ wider_max window p b
    unfolding wider_max
    wider_max-covers = ground (arith, window_high-ge p small)

    -- What `make_room` gives is valid, covers the price and has the same open orders.
    abbrev Covers : LadderBook → Type 0
    Covers b' = IsValid b' × (b'.min_price ≤ p) × (p ≤ b'.max_price) × (b'.orders ≡ b.orders)

    grow_to_include-Covers : (b' : LadderBook) → grow_to_include window p b ≡ some b' → Covers b'
    unfolding grow_to_include
    grow_to_include-Covers b' h =
        elim (Bool-cases
          (wider_min window p b == b.min_price && wider_max window p b == b.max_price)) [
            | inl same ↦
                let e : b ≡ b' = ground arith in
                subst Covers e
                  (v, ground (arith, wider_min-covers), ground (arith, wider_max-covers), refl)
            | inr wide ↦
                let e : resize_range (wider_min window p b) (wider_max window p b)
                      ((wider_max window p b - wider_min window p b) / b.tick_size + 1) b
                    ≡ b' =
                  ground arith in
                subst Covers e (
                  resize_range-IsValid b v _ _ wider_min-le wider_max-ge wider_min-mod wider_max-lt,
                  wider_min-covers,
                  wider_max-covers,
                  refl,
                )
          ]

    -- The window of a price is at most the price. Where a valid book makes room for a uint32_t price, what it becomes is valid, its range holds the
    -- price, and its open orders are the same.
    pub make_room-Covers : (b' : LadderBook) → make_room window p b ≡ some b' → Covers b'
    unfolding make_room
    make_room-Covers b' h = elim (Bool-cases (in_range p b)) [
      | inl e ↦
          let same : b ≡ b' = ground arith in
          subst Covers same (v, ground arith, ground arith, refl)
      | inr e ↦ grow_to_include-Covers b' (rw (e, make_room) at h)
    ]

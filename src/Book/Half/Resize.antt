-- ===== src/Book/Half/Resize.antt =====
-- `half_resize`: the old levels at their new indices, and no order at the new ones.
use itch_lob_engine.Base.{
  ◌-◌, ◌+◌, ◌≤◌, ◌<◌, ◌≡◌, ◌⊎◌, ◌∙◌, ℕ, sym, ap, subst, inl, inr, false, Option, none, some, List,
  arith, ltb, length, get_or, replicate, Bool-cases, length-replicate, get_or-replicate,
}
use itch_lob_engine.Book.Types.{Side, buy, sell, Level, empty_level}
use itch_lob_engine.Book.Locator.{Locator, level_at}
use itch_lob_engine.Book.Half.{Half, better, half_resize, rehome, shift}
use itch_lob_engine.Book.Half.Search.{IsBestIdx, orders_of}
use itch_lob_engine.Book.Half.Occupied.{
  occupied, occupied-replicate, occupied-rehome, length-rehome, rehome_inside, rehome_outside,
}
use itch_lob_engine.Book.Half.Invariant.{Holds}

module _ (offset ticks : ℕ) (old : List Level) (room : offset + length old ≤ ticks) where
  abbrev moved : List Level
  moved = rehome offset old (replicate ticks empty_level)

  length-moved : length moved ≡ ticks
  length-moved =
      length-rehome offset old (replicate ticks empty_level) ∙ length-replicate ticks empty_level

  moved_inside :
      (i : ℕ) → i < length old → get_or moved (offset + i) empty_level ≡ get_or old i empty_level
  moved_inside i h =
      rehome_inside offset old (replicate ticks empty_level) i h
        (omega (arith, length-replicate ticks empty_level))

  moved_outside :
      (i : ℕ) → (i < offset) ⊎ (offset + length old ≤ i) → get_or moved i empty_level ≡ empty_level
  moved_outside i h =
      rehome_outside offset old (replicate ticks empty_level) i h
      ∙ get_or-replicate ticks i empty_level

  moved-occupied : occupied moved ≡ occupied old
  moved-occupied = omega (
    arith,
    occupied-rehome offset old (replicate ticks empty_level)
        (omega (arith, length-replicate ticks empty_level))
        (λ i a b. get_or-replicate ticks i empty_level),
    occupied-replicate ticks,
  )

  -- An occupied index of the new levels is an old one, moved.
  moved_back :
      (i : ℕ)
      → 0 < orders_of moved i
      → (offset ≤ i) × (i < offset + length old) × (orders_of moved i ≡ orders_of old (i - offset))
  moved_back i h = elim (Bool-cases (ltb i offset)) [
    | inl e ↦
        absurd (omega (arith, ap (λ (l : Level). l.orders) (moved_outside i (inl (ground arith)))))
    | inr e ↦ elim (Bool-cases (ltb i (offset + length old))) [
      | inl f ↦
          let at : offset + (i - offset) ≡ i = ground arith in
          (
            ground arith,
            ground arith,
            ap (orders_of moved) (sym at)
                ∙ ap (λ (l : Level). l.orders) (moved_inside (i - offset) (ground arith)),
          )
      | inr f ↦
          absurd
            (omega (arith, ap (λ (l : Level). l.orders) (moved_outside i (inr (ground arith)))))
    ]
  ]

  better_shift :
      (s : Side) (i j : ℕ)
      → offset ≤ i
      → better s (i - offset) j ≡ false
      → better s i (j + offset) ≡ false
  better_shift buy i j h e = ground arith
  better_shift sell i j h e = ground arith

  moved-IsBestIdx :
      (s : Side) (best : Option ℕ)
      → IsBestIdx s (length old) old best
      → IsBestIdx s ticks moved (shift offset best)
  moved-IsBestIdx s none b = λ i h. elim (Bool-cases (ltb 0 (orders_of moved i))) [
    | inl e ↦
        let back = moved_back i (ground arith) in absurd (ground (arith, b (i - offset), back))
    | inr e ↦ ground arith
  ]
  moved-IsBestIdx s (some c) b = (
    omega (arith, b.0),
    subst (λ k. 0 < orders_of moved k) (sym at)
        (ground (arith, b.1, ap (λ (l : Level). l.orders) (moved_inside c b.0))),
    λ i h o.
        let back = moved_back i o in
        better_shift s i c back.0
          (b.2 (i - offset) (omega (arith, back.0, back.1)) (omega (arith, back.2))),
  )
    where
      at : c + offset ≡ offset + c
      at = omega arith

-- A side keeps what it holds when its levels move to a wider range of prices, if an old price is
-- found `offset` indices further on and no order stands at a price that is new.
pub half_resize-Holds :
    (s : Side) (price price' : ℕ → ℕ) (n ticks offset : ℕ) (m : Locator) (h : Half)
    → offset + n ≤ ticks
    → ((i : ℕ) → price' (offset + i) ≡ price i)
    → ((i : ℕ) → (i < offset) ⊎ (offset + n ≤ i) → level_at s (price' i) m ≡ empty_level)
    → Holds s price n m h
    → Holds s price' ticks m (half_resize offset ticks h)
unfolding half_resize
half_resize-Holds s price price' n ticks offset m h room at none_new v = record {
  size = length-moved offset ticks h.levels room';
  levels_hold = λ i k. elim (Bool-cases (ltb i offset)) [
    | inl e ↦
        moved_outside offset ticks h.levels room' i (inl (ground arith))
        ∙ sym (none_new i (inl (ground arith)))
    | inr e ↦ elim (Bool-cases (ltb i (offset + n))) [
      | inl f ↦ inside i (ground arith) (ground arith)
      | inr f ↦
          moved_outside offset ticks h.levels room' i (inr (ground (arith, v.size)))
          ∙ sym (none_new i (inr (ground arith)))
    ]
  ];
  counted = v.counted ∙ sym (moved-occupied offset ticks h.levels room');
  best =
      moved-IsBestIdx offset ticks h.levels room' s h.best_idx
        (subst (λ k. IsBestIdx s k h.levels h.best_idx) (sym v.size) v.best);
}
  where
    room' : offset + length h.levels ≤ ticks
    room' = omega (arith, v.size)

    inside :
        (i : ℕ)
        → offset ≤ i
        → i < offset + n
        → get_or (moved offset ticks h.levels room') i empty_level ≡ level_at s (price' i) m
    inside i a b =
        let back : offset + (i - offset) ≡ i = omega arith in
        subst
          (λ k. get_or (moved offset ticks h.levels room') k empty_level ≡ level_at s (price' k) m)
          back
          (moved_inside offset ticks h.levels room' (i - offset) (omega (arith, v.size))
            ∙ v.levels_hold (i - offset) (omega arith)
            ∙ ap (λ p. level_at s p m) (sym (at (i - offset))))

-- ===== src/Book/LadderBook/Refine.antt =====
-- Where its range may grow as far as the prices ask for, a `LadderBook` does what the reference book
-- of its open orders does; what it refuses leaves its orders and its quotes alone.
use itch_lob_engine.Base.{
  ◌^◌, ◌/◌, ◌%◌, ◌-◌, ◌+◌, ◌≤◌, ◌<◌, ◌≡◌, ◌&&◌, ◌∙◌, ◌∷◌, ◌==◌, if◌then◌else◌, ℕ, refl, sym, ap,
  ap₂, subst, inl, inr, Bool, true, false, some, List, [], arith, ltb, leb, length, Bool-cases,
  Option-cases, ≡→==, suc,
}
use itch_lob_engine.Book.Types.{Side, buy, sell, Order}
use itch_lob_engine.Book.Locator.{Locator, length-erase-le}
use itch_lob_engine.Book.Reference.{
  IsBest-unique, Event, InRange, AllInRange, IsBest, apply, apply_all, length-apply,
}
use itch_lob_engine.Book.LadderBook.{
  LadderBook, add, add_in_range, execute, cancel, reduce, reduce_found, remove, replace, make_room,
  grow_to_include, in_range, wider_min, wider_max, window_high, resize_range, max_ticks, level_sub,
  side_add, best_bid, best_ask,
}
use itch_lob_engine.Book.LadderBook.Grid.{div-le-div, mod-sub_zero}
use itch_lob_engine.Book.LadderBook.Invariant.{IsValid, remove-IsValid}
use itch_lob_engine.Book.LadderBook.Steps.{
  add-IsValid, run, step, step-IsValid, orders-remove, orders-level_sub, orders-side_add,
}
use itch_lob_engine.Book.LadderBook.Quotes.{best_bid-IsBest, best_ask-IsBest}
use itch_lob_engine.Book.LadderBook.Growth.{make_room-Covers, IsFraction}
use itch_lob_engine.Book.Locator
use itch_lob_engine.Book.Reference

-- A book that has tick size `tick`, and a range up to `high` at most.
abbrev pub Bounded : ℕ → ℕ → LadderBook → Type 0
Bounded tick high b = (b.tick_size ≡ tick) × (b.max_price ≤ high)

level_sub-Bounded :
    (tick high : ℕ) (s : Side) (p q : ℕ) (g : Bool) (b : LadderBook)
    → Bounded tick high b
    → Bounded tick high (level_sub s p q g b)
unfolding level_sub
level_sub-Bounded tick high buy p q g b h = h
level_sub-Bounded tick high sell p q g b h = h

side_add-Bounded :
    (tick high : ℕ) (s : Side) (p q : ℕ) (b : LadderBook)
    → Bounded tick high b
    → Bounded tick high (side_add s p q b)
unfolding side_add
side_add-Bounded tick high buy p q b h = h
side_add-Bounded tick high sell p q b h = h

abbrev pub Agrees : Bool × LadderBook → Bool × Locator → Type 0
Agrees x y = (x.0 ≡ y.0) × (x.1.orders ≡ y.1)

-- An event does what the reference does, and the range stays bounded.
abbrev Follows : ℕ → ℕ → Bool × LadderBook → Bool × Locator → Type 0
Follows tick high x y = Agrees x y × Bounded tick high x.1

module _ (tick high : ℕ) (b : LadderBook) (bounded : Bounded tick high b) where
  add_in_range-Follows :
      (r : ℕ) (s : Side) (q p : ℕ)
      → (p - b.min_price) % b.tick_size ≡ 0
      → Follows tick high (add_in_range r s q p b) (Reference.insert r s q p b.orders)
  unfolding add_in_range Reference.insert
  add_in_range-Follows r s q p aligned = elim (Option-cases (Locator.find r b.orders)) [
    | inl e ↦
        rw (≡→== _ _ aligned, e, add_in_range, Reference.insert)
          ((refl, orders-side_add s p q _), side_add-Bounded tick high s p q _ bounded)
    | inr (o, e) ↦ rw (≡→== _ _ aligned, e, add_in_range, Reference.insert) ((refl, refl), bounded)
  ]

  reduce_found-Bounded : (r q : ℕ) (o : Order) → Bounded tick high (reduce_found r q o b)
  unfolding reduce_found
  reduce_found-Bounded r q o = elim (Bool-cases (o.shares - q == 0)) [
    | inl e ↦ rw (e, reduce_found) (level_sub-Bounded tick high o.side o.price q true _ bounded)
    | inr e ↦ rw (e, reduce_found) (level_sub-Bounded tick high o.side o.price q false _ bounded)
  ]

  reduce-Follows : (r q : ℕ) → Follows tick high (reduce r q b) (Reference.lower r q b.orders)
  unfolding reduce Reference.lower
  reduce-Follows r q = elim (Option-cases (Locator.find r b.orders)) [
    | inl e ↦ rw (e, reduce, Reference.lower) ((refl, refl), bounded)
    | inr (o, e) ↦ rw (e, reduce, Reference.lower) ((refl, same o), reduce_found-Bounded r _ o)
  ]
    where
      same :
          (o : Order)
          → (reduce_found r (if ltb q o.shares then q else o.shares) o b).orders ≡ (
              if leb o.shares q
              then Locator.erase r b.orders
              else Locator.assign r (record o { shares = o.shares - q }) b.orders)
      same o = ground (
        arith,
        orders-level_sub o.side o.price o.shares true
            (record b { orders = Locator.erase r b.orders }),
        orders-level_sub o.side o.price q true (record b { orders = Locator.erase r b.orders }),
        orders-level_sub o.side o.price q false
            (record b { orders = Locator.assign r (record o { shares = o.shares - q }) b.orders }),
      )

  remove-Follows : (r : ℕ) → Follows tick high (remove r b) (Reference.drop_order r b.orders)
  unfolding remove Reference.drop_order
  remove-Follows r = elim (Option-cases (Locator.find r b.orders)) [
    | inl e ↦ rw (e, remove, Reference.drop_order) ((refl, refl), bounded)
    | inr (o, e) ↦
        rw (e, remove, Reference.drop_order)
          (
            (refl, orders-level_sub o.side o.price o.shares true _),
            level_sub-Bounded tick high o.side o.price o.shares true _ bounded,
          )
  ]

module _ (window : ℕ → ℕ) (tick high : ℕ) where
  -- An event whose prices are on the grid, with windows that end below `high`.
  abbrev pub Priced : Event → Type 0
  Priced (Event.add r s q p) = (p % tick ≡ 0) × (p + window p ≤ high)
  Priced (Event.execute r q) = Unit {0}
  Priced (Event.cancel r q) = Unit {0}
  Priced (Event.remove r) = Unit {0}
  Priced (Event.replace r n q p) = (p % tick ≡ 0) × (p + window p ≤ high)

  abbrev pub AllPriced : List Event → Type 0
  AllPriced [] = Unit {0}
  AllPriced (e ∷ es) = Priced e × AllPriced es

module _ (window : ℕ → ℕ) (fraction : IsFraction window) (tick high : ℕ)
    (fits : high / tick < max_ticks) where
  wider_max-le :
      (p : ℕ) (b : LadderBook)
      → p + window p ≤ high
      → b.max_price ≤ high
      → wider_max window p b ≤ high
  unfolding wider_max window_high
  wider_max-le p b h k = ground arith

  -- A price whose window ends below `high` is never refused for its size.
  make_room-total :
      (p : ℕ) (b : LadderBook)
      → IsValid b
      → p + window p ≤ high
      → Bounded tick high b
      → (b' : LadderBook) × (make_room window p b ≡ some b') × Bounded tick high b'
  unfolding make_room grow_to_include resize_range
  make_room-total p b v h bounded = elim (Bool-cases (in_range p b)) [
    | inl e ↦ (b, rw (e, make_room), bounded)
    | inr e ↦
        elim (Bool-cases
          (wider_min window p b == b.min_price && wider_max window p b == b.max_price)) [
            | inl f ↦ (b, rw (e, make_room, f, grow_to_include), bounded)
            | inr f ↦ (
              resize_range (wider_min window p b) (wider_max window p b)
                  ((wider_max window p b - wider_min window p b) / b.tick_size + 1) b,
              rw (e, make_room, f, grow_to_include, small),
              (bounded.0, wider_max-le p b h bounded.1),
            )
          ]
  ]
    where
      small :
          ltb max_ticks ((wider_max window p b - wider_min window p b) / b.tick_size + 1) ≡ false
      small = ground (
        arith,
        div-le-div b.min_price b.tick_size v.tick_pos (wider_max window p b - wider_min window p b)
            high (omega (arith, wider_max-le p b h bounded.1)),
        ap (λ t. high / t) bounded.0,
      )

  add-Follows :
      (r : ℕ) (s : Side) (q p : ℕ) (b : LadderBook)
      → IsValid b
      → p < 2 ^ 32
      → p % tick ≡ 0
      → p + window p ≤ high
      → Bounded tick high b
      → Follows tick high (add window r s q p b) (Reference.insert r s q p b.orders)
  unfolding add
  add-Follows r s q p b v low whole ends bounded =
      let (b', e, bounded') = make_room-total p b v ends bounded in
      let c = make_room-Covers window fraction b v p low b' e in
      rw (e, add, ← c.3)
        (add_in_range-Follows tick high b' bounded' r s q p (
          mod-sub_zero p b'.min_price b'.tick_size c.1
            (subst (λ t. p % t ≡ 0) (sym bounded'.0) whole) c.0.aligned))

  replace-Follows :
      (r n q p : ℕ) (b : LadderBook)
      → IsValid b
      → p < 2 ^ 32
      → p % tick ≡ 0
      → p + window p ≤ high
      → Bounded tick high b
      → Follows tick high (replace window r n q p b) (apply (Event.replace r n q p) b.orders)
  unfolding replace apply
  replace-Follows r n q p b v low whole ends bounded =
      elim (Option-cases (Locator.find r b.orders)) [
        | inl e ↦ rw (e, replace, apply) ((refl, refl), bounded)
        | inr (o, e) ↦
            rw (e, replace, apply, ← orders-remove r b o e)
              (add-Follows n o.side q p (remove r b).1 (remove-IsValid b v r) low whole ends
                (remove-Follows tick high b bounded r).1)
      ]

  step-Follows :
      (e : Event) (b : LadderBook)
      → IsValid b
      → InRange e
      → Priced window tick high e
      → Bounded tick high b
      → Follows tick high (step window e b) (apply e b.orders)
  unfolding step apply execute cancel
  step-Follows (Event.add r s q p) b v h g bounded = add-Follows r s q p b v h.1 g.0 g.1 bounded
  step-Follows (Event.execute r q) b v h g bounded = reduce-Follows tick high b bounded r q
  step-Follows (Event.cancel r q) b v h g bounded = reduce-Follows tick high b bounded r q
  step-Follows (Event.remove r) b v h g bounded = remove-Follows tick high b bounded r
  step-Follows (Event.replace r n q p) b v h g bounded =
      replace-Follows r n q p b v h.1 g.0 g.1 bounded

  run-Agrees :
      (es : List Event) (b : LadderBook)
      → AllInRange es
      → AllPriced window tick high es
      → length es + length b.orders < 2 ^ 32
      → IsValid b
      → Bounded tick high b
      → ((run window es b).0 ≡ (apply_all es b.orders).0)
        × ((run window es b).1.orders ≡ (apply_all es b.orders).1)
        × IsValid (run window es b).1
  unfolding run apply_all
  run-Agrees [] b h g few v bounded = (refl, refl, v)
  run-Agrees (e ∷ es) b h g few v bounded =
      let ((same, left), bounded') = step-Follows e b v h.0 g.0 bounded in
      let (rs, ls, valid) =
        run-Agrees es (step window e b).1 h.1 g.1
          (omega (arith, ap length left, length-apply e b.orders))
          (step-IsValid window fraction e b h.0 (omega arith) v) bounded' in
      (
        ap₂ ◌∷◌ same (rs ∙ ap (λ m. (apply_all es m).0) left),
        ls ∙ ap (λ m. (apply_all es m).1) left,
        valid,
      )

  -- The window of a price is at most the price, and a range up to `high` has at most 8,000,000 ticks.
  -- Then a valid book of tick size `tick` with a range up to `high` at most and no orders, given fewer than 2^32 events of uint32_t quantities whose prices are
  -- on the grid and whose windows end below `high`, returns exactly what the reference returns and
  -- leaves the orders that it leaves; the best bid and the best ask are then those that these orders
  -- add up to.
  pub ladder_run_refines :
      (es : List Event) (b : LadderBook)
      → AllInRange es
      → AllPriced window tick high es
      → length es < 2 ^ 32
      → IsValid b
      → Bounded tick high b
      → b.orders ≡ []
      → let (done, b') = run window es b in
        let (done', m) = apply_all es [] in
        (done ≡ done') × (b'.orders ≡ m) × IsBest buy m (best_bid b') × IsBest sell m (best_ask b')
  ladder_run_refines es b h g few v bounded none_open =
      let (rs, ls, valid) = run-Agrees es b h g (omega (arith, ap length none_open)) v bounded in
      let left : (run window es b).1.orders ≡ (apply_all es []).1 =
        ls ∙ ap (λ m. (apply_all es m).1) none_open in
      (
        rs ∙ ap (λ m. (apply_all es m).0) none_open,
        left,
        subst (λ m. IsBest buy m (best_bid (run window es b).1)) left (best_bid-IsBest _ valid),
        subst (λ m. IsBest sell m (best_ask (run window es b).1)) left (best_ask-IsBest _ valid),
      )

add_in_range-orders_refused :
    (r : ℕ) (s : Side) (q p : ℕ) (b : LadderBook)
    → (add_in_range r s q p b).0 ≡ false
    → (add_in_range r s q p b).1.orders ≡ b.orders
unfolding add_in_range
add_in_range-orders_refused r s q p b h = ground arith

add-orders_refused :
    (window : ℕ → ℕ)
    → IsFraction window
    → (r : ℕ) (s : Side) (q p : ℕ) (b : LadderBook) → p < 2 ^ 32
    → IsValid b
    → (add window r s q p b).0 ≡ false
    → (add window r s q p b).1.orders ≡ b.orders
unfolding add
add-orders_refused window fraction r s q p b low v h = elim (Option-cases (make_room window p b)) [
  | inl e ↦ rw (e, add)
  | inr (b', e) ↦
      rw (e, add)
        (add_in_range-orders_refused r s q p b' (rw (e, add) at h)
          ∙ (make_room-Covers window fraction b v p low b' e).3)
]

-- Where the window of a price is at most the price, an `add` of uint32_t quantities that a valid book
-- of fewer than 2^32 - 1 orders refuses leaves the open orders, the best bid and the best ask as they were, though the
-- ladder may have grown.
pub add_refused :
    (window : ℕ → ℕ)
    → IsFraction window
    → (r : ℕ) (s : Side) (q p : ℕ) (b : LadderBook) → q < 2 ^ 32
    → p < 2 ^ 32
    → suc (length b.orders) < 2 ^ 32
    → IsValid b
    → (add window r s q p b).0 ≡ false
    → ((add window r s q p b).1.orders ≡ b.orders)
      × (best_bid (add window r s q p b).1 ≡ best_bid b)
      × (best_ask (add window r s q p b).1 ≡ best_ask b)
add_refused window fraction r s q p b small low few v refused =
    let v' = add-IsValid window fraction r s q p b small low few v in
    let same : (add window r s q p b).1.orders ≡ b.orders =
      add-orders_refused window fraction r s q p b low v refused in
    (
      same,
      IsBest-unique buy b.orders _ _
          (subst (λ m. IsBest buy m (best_bid (add window r s q p b).1)) same
            (best_bid-IsBest _ v'))
          (best_bid-IsBest b v),
      IsBest-unique sell b.orders _ _
          (subst (λ m. IsBest sell m (best_ask (add window r s q p b).1)) same
            (best_ask-IsBest _ v'))
          (best_ask-IsBest b v),
    )

-- ===== src/Book/OrderBook/Invariant.antt =====
-- The invariant of an `OrderBook`: both maps hold exactly the levels that the open orders make. Every
-- mutator keeps it, also where it returns false.
use itch_lob_engine.Base.{
  ◌^◌, ◌-◌, ◌≤◌, ◌<◌, ◌≡◌, ◌∷◌, ◌==◌, ℕ, suc, refl, inl, inr, true, false, some, arith, length,
  Bool-cases, Option-cases, ==→≡, ==→≢,
}
use itch_lob_engine.Book.Types.{Side, buy, sell, Order}
use itch_lob_engine.Book.Locator
use itch_lob_engine.Book.Locator.{Locator, Fits, find-Fits, erase-Fits, assign-Fits}
use itch_lob_engine.Book.OrderBook.{
  OrderBook, empty_book, add, reduce, reduce_found, remove, level_sub, side_add,
}
use itch_lob_engine.Book.OrderBook.Sides.{
  Holds, Holds-nil, Holds-other, Holds-upsert, Holds-erase_other, Holds-assign_other, Holds-gone,
  Holds-lowered,
}

pub record IsValid (b : OrderBook) : Type 0 where
  pub fits : Fits b.orders
  pub bids_hold : Holds buy b.orders b.bids
  pub asks_hold : Holds sell b.orders b.asks

pub empty_book-IsValid : IsValid empty_book
empty_book-IsValid = record { fits = tt; bids_hold = Holds-nil buy; asks_hold = Holds-nil sell }

side_add-IsValid :
    (r : ℕ) (s : Side) (shares price : ℕ) (b : OrderBook)
    → shares < 2 ^ 32
    → suc (length b.orders) < 2 ^ 32
    → IsValid b
    → let o : Order = record { shares = shares; price = price; side = s } in
      IsValid (side_add s price shares (record b { orders = (r, o) ∷ b.orders }))
unfolding side_add
side_add-IsValid r buy shares price b h few v = record {
  fits = (h, v.fits);
  bids_hold = Holds-upsert buy r _ b.orders b.bids refl h few v.fits v.bids_hold;
  asks_hold = Holds-other sell r _ b.orders b.asks refl v.asks_hold;
}
side_add-IsValid r sell shares price b h few v = record {
  fits = (h, v.fits);
  bids_hold = Holds-other buy r _ b.orders b.bids refl v.bids_hold;
  asks_hold = Holds-upsert sell r _ b.orders b.asks refl h few v.fits v.asks_hold;
}

-- `add` keeps the invariant while fewer than 2^32 - 1 orders are open.
pub add-IsValid :
    (r : ℕ) (s : Side) (shares price : ℕ) (b : OrderBook)
    → shares < 2 ^ 32
    → suc (length b.orders) < 2 ^ 32
    → IsValid b
    → IsValid (add r s shares price b).1
unfolding add
add-IsValid r s shares price b h few v = elim (Option-cases (Locator.find r b.orders)) [
  | inl e ↦ rw (e, add) (side_add-IsValid r s shares price b h few v)
  | inr (o, e) ↦ rw (e, add) v
]

module _ (r : ℕ) (b : OrderBook) (v : IsValid b) where
  -- An order that leaves, whichever its side is.
  gone-IsValid :
      (s : Side) (shares price : ℕ)
      → let o : Order = record { shares = shares; price = price; side = s } in
        Locator.find r b.orders ≡ some o
        → IsValid (level_sub s price shares true (record b { orders = Locator.erase r b.orders }))
  unfolding level_sub
  gone-IsValid buy shares price e = record {
    fits = erase-Fits r b.orders v.fits;
    bids_hold = Holds-gone buy r _ b.orders b.bids e refl v.bids_hold;
    asks_hold = Holds-erase_other sell r _ b.orders b.asks e refl v.asks_hold;
  }
  gone-IsValid sell shares price e = record {
    fits = erase-Fits r b.orders v.fits;
    bids_hold = Holds-erase_other buy r _ b.orders b.bids e refl v.bids_hold;
    asks_hold = Holds-gone sell r _ b.orders b.asks e refl v.asks_hold;
  }

  lowered-IsValid :
      (s : Side) (shares price qty : ℕ)
      → qty < shares
      → let o : Order = record { shares = shares; price = price; side = s } in
        Locator.find r b.orders ≡ some o
        → IsValid (
            level_sub s price qty false (record b {
              orders =
                  Locator.assign r
                    (record { shares = shares - qty; price = price; side = s })
                    b.orders;
            }))
  unfolding level_sub
  lowered-IsValid buy shares price qty h e = record {
    fits = assign-Fits r b.orders _ (omega (arith, find-Fits r b.orders _ e v.fits)) v.fits;
    bids_hold = Holds-lowered buy r _ b.orders b.bids e qty h refl v.bids_hold;
    asks_hold = Holds-assign_other sell r _ b.orders b.asks e _ refl refl refl v.asks_hold;
  }
  lowered-IsValid sell shares price qty h e = record {
    fits = assign-Fits r b.orders _ (omega (arith, find-Fits r b.orders _ e v.fits)) v.fits;
    bids_hold = Holds-assign_other buy r _ b.orders b.bids e _ refl refl refl v.bids_hold;
    asks_hold = Holds-lowered sell r _ b.orders b.asks e qty h refl v.asks_hold;
  }

  reduce_found-IsValid :
      (qty : ℕ) (o : Order)
      → qty ≤ o.shares
      → Locator.find r b.orders ≡ some o
      → IsValid (reduce_found r qty o b)
  unfolding reduce_found
  reduce_found-IsValid qty o h e = elim (Bool-cases (o.shares - qty == 0)) [
    | inl t ↦
        let same : qty ≡ o.shares = omega (arith, ==→≡ _ _ t) in
        rw (t, reduce_found, same) (gone-IsValid o.side o.shares o.price e)
    | inr t ↦
        rw (t, reduce_found)
          (lowered-IsValid o.side o.shares o.price qty (omega (arith, ==→≢ _ _ t)) e)
  ]

  -- `execute` and `cancel` keep the invariant, for any quantity.
  pub reduce-IsValid : (shares : ℕ) → IsValid (reduce r shares b).1
  unfolding reduce
  reduce-IsValid shares = elim (Option-cases (Locator.find r b.orders)) [
    | inl e ↦ rw (e, reduce) v
    | inr (o, e) ↦ rw (e, reduce) (reduce_found-IsValid _ o (ground arith) e)
  ]

  -- `remove` keeps the invariant.
  pub remove-IsValid : IsValid (remove r b).1
  unfolding remove
  remove-IsValid = elim (Option-cases (Locator.find r b.orders)) [
    | inl e ↦ rw (e, remove) v
    | inr (o, e) ↦ rw (e, remove) (gone-IsValid o.side o.shares o.price e)
  ]

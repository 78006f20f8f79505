-- ===== src/Book/OrderBook/Refine.antt =====
-- An `OrderBook` does what the reference book of its open orders does, and quotes what they add up to.
use itch_lob_engine.Book.OrderBook.Sides.{Holds}
use itch_lob_engine.Book.OrderBook.Invariant.{
  IsValid, empty_book-IsValid, add-IsValid, reduce-IsValid, remove-IsValid,
}
use itch_lob_engine.Base.{
  ◌≡◌, ℕ, refl, inl, inr, Bool, Option-cases, ◌^◌, ◌-◌, ◌+◌, ◌<◌, ◌∙◌, ◌∷◌, suc, ap, ap₂, subst,
  true, false, some, List, [], arith, length,
}
use itch_lob_engine.Book.Types.{Side, buy, sell, Level, Order}
use itch_lob_engine.Book.Locator
use itch_lob_engine.Book.Locator.{Locator, count_at, shares_at, length-erase-le}
use itch_lob_engine.Book.Ladder
use itch_lob_engine.Book.Reference
use itch_lob_engine.Book.Reference.{
  Event, InRange, AllInRange, IsBest, IsBest-unique, apply, apply_all, length-apply,
}
use itch_lob_engine.Book.Ladder.{Ladder, before, After, before_irrefl}
use itch_lob_engine.Book.OrderBook.{
  OrderBook, add, execute, cancel, remove, replace, level_sub, side_add, best_ask, best_bid,
  empty_book, front, reduce, reduce_found,
}

-- The mutator that an event stands for.
unfoldable pub step : Event → OrderBook → Bool × OrderBook
unfolding add execute cancel remove replace
step (Event.add r s q p) b = add r s q p b
step (Event.execute r q) b = execute r q b
step (Event.cancel r q) b = cancel r q b
step (Event.remove r) b = remove r b
step (Event.replace r n q p) b = replace r n q p b

orders-level_sub :
    (s : Side) (p q : ℕ) (g : Bool) (b : OrderBook) → (level_sub s p q g b).orders ≡ b.orders
unfolding level_sub
orders-level_sub buy p q g b = refl
orders-level_sub sell p q g b = refl

orders-side_add : (s : Side) (p q : ℕ) (b : OrderBook) → (side_add s p q b).orders ≡ b.orders
unfolding side_add
orders-side_add buy p q b = refl
orders-side_add sell p q b = refl

abbrev Agrees : Bool × OrderBook → Bool × Locator → Type 0
Agrees x y = (x.0 ≡ y.0) × (x.1.orders ≡ y.1)

add-Agrees :
    (r : ℕ) (s : Side) (q p : ℕ) (b : OrderBook)
    → Agrees (add r s q p b) (Reference.insert r s q p b.orders)
unfolding add Reference.insert
add-Agrees r s q p b = elim (Option-cases (Locator.find r b.orders)) [
  | inl e ↦ rw (e, add, Reference.insert) (refl, orders-side_add s p q _)
  | inr (o, e) ↦ rw (e, add, Reference.insert) (refl, refl)
]

reduce-Agrees : (r q : ℕ) (b : OrderBook) → Agrees (reduce r q b) (Reference.lower r q b.orders)
unfolding reduce reduce_found Reference.lower
reduce-Agrees r q b = elim (Option-cases (Locator.find r b.orders)) [
  | inl e ↦ rw (e, reduce, Reference.lower) (refl, refl)
  | inr (o, e) ↦
      rw (e, reduce, Reference.lower)
        (
          refl,
          ground (
            arith,
            orders-level_sub o.side o.price o.shares true
                (record b { orders = Locator.erase r b.orders }),
            orders-level_sub o.side o.price q true (record b { orders = Locator.erase r b.orders }),
            orders-level_sub o.side o.price q false (record b {
              orders = Locator.assign r (record o { shares = o.shares - q }) b.orders;
            }),
          ),
        )
]

remove-Agrees : (r : ℕ) (b : OrderBook) → Agrees (remove r b) (Reference.drop_order r b.orders)
unfolding remove Reference.drop_order
remove-Agrees r b = elim (Option-cases (Locator.find r b.orders)) [
  | inl e ↦ rw (e, remove, Reference.drop_order) (refl, refl)
  | inr (o, e) ↦
      rw (e, remove, Reference.drop_order) (refl, orders-level_sub o.side o.price o.shares true _)
]

orders-remove :
    (r : ℕ) (b : OrderBook) (o : Order)
    → Locator.find r b.orders ≡ some o
    → (remove r b).1.orders ≡ Locator.erase r b.orders
unfolding remove
orders-remove r b o e = rw (e, remove) (orders-level_sub o.side o.price o.shares true _)

replace-Agrees :
    (r n q p : ℕ) (b : OrderBook)
    → Agrees (replace r n q p b) (apply (Event.replace r n q p) b.orders)
unfolding replace apply
replace-Agrees r n q p b = elim (Option-cases (Locator.find r b.orders)) [
  | inl e ↦ rw (e, replace, apply) (refl, refl)
  | inr (o, e) ↦
      rw (e, replace, apply, ← orders-remove r b o e) (add-Agrees n o.side q p (remove r b).1)
]

-- Every mutator returns what the reference returns, and leaves the orders that it leaves.
pub step_refines : (e : Event) (b : OrderBook) → Agrees (step e b) (apply e b.orders)
unfolding step apply execute cancel
step_refines (Event.add r s q p) b = add-Agrees r s q p b
step_refines (Event.execute r q) b = reduce-Agrees r q b
step_refines (Event.cancel r q) b = reduce-Agrees r q b
step_refines (Event.remove r) b = remove-Agrees r b
step_refines (Event.replace r n q p) b = replace-Agrees r n q p b

replace-IsValid :
    (r n q p : ℕ) (b : OrderBook)
    → q < 2 ^ 32
    → suc (length b.orders) < 2 ^ 32
    → IsValid b
    → IsValid (replace r n q p b).1
unfolding replace
replace-IsValid r n q p b h few v = elim (Option-cases (Locator.find r b.orders)) [
  | inl e ↦ rw (e, replace) v
  | inr (o, e) ↦
      rw (e, replace)
        (add-IsValid n o.side q p (remove r b).1 h
          (omega (arith, ap length (orders-remove r b o e), length-erase-le r b.orders))
          (remove-IsValid r b v))
]

-- Every event keeps the invariant, whatever it returns, while fewer than 2^32 - 1 orders are open.
pub step-IsValid :
    (e : Event) (b : OrderBook)
    → InRange e
    → suc (length b.orders) < 2 ^ 32
    → IsValid b
    → IsValid (step e b).1
unfolding step execute cancel
step-IsValid (Event.add r s q p) b h few v = add-IsValid r s q p b h.0 few v
step-IsValid (Event.execute r q) b h few v = reduce-IsValid r b v q
step-IsValid (Event.cancel r q) b h few v = reduce-IsValid r b v q
step-IsValid (Event.remove r) b h few v = remove-IsValid r b v
step-IsValid (Event.replace r n q p) b h few v = replace-IsValid r n q p b h.0 few v

before_asym : (s : Side) (p q : ℕ) → before s p q ≡ true → before s q p ≡ false
unfolding before
before_asym buy p q h = ground arith
before_asym sell p q h = ground arith

-- An entry of a sorted ladder is not before its head.
find-before :
    (s : Side) (p q : ℕ) (l : Ladder) (v : Level)
    → After s p l
    → Ladder.find q l ≡ some v
    → before s q p ≡ false
unfolding Ladder.find
find-before s p q [] v a h = cc
find-before s p q ((k, w) ∷ l) v a h = ground (arith, before_asym s p k, find-before s p q l v a.1)

-- The front of a map that holds its side's levels is the side's best quote.
pub front-IsBest : (s : Side) (m : Locator) (l : Ladder) → Holds s m l → IsBest s m (front l)
unfolding front Ladder.find
front-IsBest s m [] h = λ p. ground (arith, h.entries p)
front-IsBest s m ((p, v) ∷ l) h = (
  ground (arith, h.entries p),
  λ q some_order. ground (
    arith,
    h.entries q,
    before_irrefl s p,
    find-before s p q l (record { shares = shares_at s q m; orders = count_at s q m }) h.sorted.0,
  ),
  ground (arith, h.entries p),
)

pub best_bid-IsBest : (b : OrderBook) → IsValid b → IsBest buy b.orders (best_bid b)
unfolding best_bid
best_bid-IsBest b v = front-IsBest buy b.orders b.bids v.bids_hold

pub best_ask-IsBest : (b : OrderBook) → IsValid b → IsBest sell b.orders (best_ask b)
unfolding best_ask
best_ask-IsBest b v = front-IsBest sell b.orders b.asks v.asks_hold

-- The events in order: what each returns, and the book that they leave.
unfoldable pub run : List Event → OrderBook → List Bool × OrderBook
unfolding step
run [] b = ([], b)
run (e ∷ es) b = let (done, b') = step e b in let (rest, final) = run es b' in (done ∷ rest, final)

run-Agrees :
    (es : List Event) (b : OrderBook)
    → AllInRange es
    → length es + length b.orders < 2 ^ 32
    → IsValid b
    → ((run es b).0 ≡ (apply_all es b.orders).0)
      × ((run es b).1.orders ≡ (apply_all es b.orders).1)
      × IsValid (run es b).1
unfolding run apply_all
run-Agrees [] b h few v = (refl, refl, v)
run-Agrees (e ∷ es) b h few v =
    let (same, left) = step_refines e b in
    let (rs, ls, valid) =
      run-Agrees es (step e b).1 h.1 (omega (arith, ap length left, length-apply e b.orders))
        (step-IsValid e b h.0 (omega arith) v) in
    (
      ap₂ ◌∷◌ same (rs ∙ ap (λ m. (apply_all es m).0) left),
      ls ∙ ap (λ m. (apply_all es m).1) left,
      valid,
    )

-- From the empty book, fewer than 2^32 events of uint32_t quantities return exactly what the
-- reference returns and leave the orders that it leaves, and the best bid and the best ask are then
-- those that these orders add up to.
pub run_refines :
    (es : List Event)
    → AllInRange es
    → length es < 2 ^ 32
    → let (done, b) = run es empty_book in
      let (done', m) = apply_all es [] in
      (done ≡ done') × (b.orders ≡ m) × IsBest buy m (best_bid b) × IsBest sell m (best_ask b)
run_refines es h few =
    let (rs, ls, v) = run-Agrees es empty_book h (omega arith) empty_book-IsValid in
    (
      rs,
      ls,
      subst (λ m. IsBest buy m (best_bid (run es empty_book).1)) ls (best_bid-IsBest _ v),
      subst (λ m. IsBest sell m (best_ask (run es empty_book).1)) ls (best_ask-IsBest _ v),
    )

-- ===== src/Exec/FillSim/Fills.antt =====
-- `FillSimulator`: the fills recorded and the totals kept beside them.
use itch_lob_engine.Base.{
  ◌^◌, ◌*◌, ◌%◌, ◌+◌, ◌≤◌, ◌≡◌, ◌≢◌, ◌↔◌, ◌∷◌, ◌++◌, ℕ, some, List, [], arith, length, ◌<◌, ◌∙◌,
  sym, ap, subst, inl, inr, Bool, true, false, Option, none, leb, Bool-cases, Option-cases,
  length-append, ◌⊎◌,
}
use itch_lob_engine.Book.Types.{Side, buy, sell}
use itch_lob_engine.Exec.Types.{OrderType, limit, market}
use itch_lob_engine.Exec.FillSim.{
  Fill, FillSimulator, max_fills, fill_price, ChildOrder, fill, fill_at, push,
}

abbrev pub sum_filled : List Fill → ℕ
sum_filled [] = 0
sum_filled (f ∷ fs) = f.shares + sum_filled fs

abbrev pub sum_paid : List Fill → ℕ
sum_paid [] = 0
sum_paid (f ∷ fs) = f.price * f.shares + sum_paid fs

sum_filled-append : (p q : List Fill) → sum_filled (p ++ q) ≡ sum_filled p + sum_filled q
sum_filled-append [] q = omega arith
sum_filled-append (o ∷ p) q = omega (arith, sum_filled-append p q)

sum_paid-append : (p q : List Fill) → sum_paid (p ++ q) ≡ sum_paid p + sum_paid q
sum_paid-append [] q = omega arith
sum_paid-append (o ∷ p) q = omega (arith, sum_paid-append p q)

-- The totals are those of the fills, as the counters wrap.
pub record Adds (s : FillSimulator) : Type 0 where
  pub shares_add : s.shares_filled ≡ sum_filled s.fills % 2 ^ 32
  pub notional_adds : s.notional ≡ sum_paid s.fills % 2 ^ 128
  pub fills_fit : length s.fills ≤ max_fills

-- The price an order fills at: the last print for a market order, the quote on the other side for a
-- limit order whose own price reaches it. A price of 0 stands for none.
abbrev pub Marketable : OrderType → Side → ℕ → FillSimulator → ℕ → Type 0
Marketable market side price s p = (p ≡ s.last_trade_price) × (p ≢ 0)
Marketable limit buy price s p = (p ≡ s.bbo.ask_price) × (p ≢ 0) × (p ≤ price)
Marketable limit sell price s p = (p ≡ s.bbo.bid_price) × (p ≢ 0) × (price ≤ p)

fill_price-Marketable :
    (t : OrderType) (side : Side) (price : ℕ) (s : FillSimulator) (p : ℕ)
    → (fill_price t side price s ≡ some p) ↔ Marketable t side price s p
unfolding fill_price
fill_price-Marketable market side price s p = ground arith
fill_price-Marketable limit buy price s p = ground arith
fill_price-Marketable limit sell price s p = ground arith

mod_add : (a b : ℕ) → (a % 2 ^ 32 + b) % 2 ^ 32 ≡ (a + b) % 2 ^ 32
mod_add a b = ground arith

mod_add_wide : (a b : ℕ) → (a % 2 ^ 128 + b) % 2 ^ 128 ≡ (a + b) % 2 ^ 128
mod_add_wide a b = ground arith

-- The state once an attempt is counted, which is all that a fill that fails changes.
abbrev pub tried : ChildOrder → FillSimulator → FillSimulator
tried o s = record s { shares_attempted = (s.shares_attempted + o.shares) % 2 ^ 32 }

module _ (o : ChildOrder) (s : FillSimulator) where
  fill-none : fill_price o.type o.side o.price s ≡ none → fill o s ≡ (false, tried o s)
  unfolding fill
  fill-none h =
      ap
        (λ (q : Option ℕ). elim q as (λ _. Bool × FillSimulator) [
          | none ↦ (false, tried o s)
          | some p ↦ fill_at o p (tried o s)
        ])
        h

  fill-some :
      (p : ℕ) → fill_price o.type o.side o.price s ≡ some p → fill o s ≡ fill_at o p (tried o s)
  unfolding fill
  fill-some p h =
      ap
        (λ (q : Option ℕ). elim q as (λ _. Bool × FillSimulator) [
          | none ↦ (false, tried o s)
          | some p ↦ fill_at o p (tried o s)
        ])
        h

  fill_at-room :
      (p : ℕ)
      → length s.fills < max_fills
      → fill_at o p s ≡ (
        true,
        record s {
          fills = s.fills ++ record { ts = o.ts; side = o.side; price = p; shares = o.shares } ∷ [];
          shares_filled = (s.shares_filled + o.shares) % 2 ^ 32;
          notional = (s.notional + p * o.shares) % 2 ^ 128;
        },
      )
  unfolding fill_at push
  fill_at-room p room = ground arith

  fill_at-full : (p : ℕ) → max_fills ≤ length s.fills → fill_at o p s ≡ (false, s)
  unfolding fill_at push
  fill_at-full p shut = ground arith

  filled-Adds :
      (p : ℕ)
      → Adds s
      → length s.fills < max_fills
      → Adds (record s {
        fills = s.fills ++ record { ts = o.ts; side = o.side; price = p; shares = o.shares } ∷ [];
        shares_filled = (s.shares_filled + o.shares) % 2 ^ 32;
        notional = (s.notional + p * o.shares) % 2 ^ 128;
      })
  filled-Adds p a room =
      let f : Fill = record { ts = o.ts; side = o.side; price = p; shares = o.shares } in
      record {
        shares_add = grind (
          arith,
          a.shares_add,
          sum_filled-append s.fills (f ∷ []),
          mod_add (sum_filled s.fills) o.shares,
        );
        notional_adds = grind (
          arith,
          a.notional_adds,
          sum_paid-append s.fills (f ∷ []),
          mod_add_wide (sum_paid s.fills) (p * o.shares),
        );
        fills_fit = omega (arith, length-append s.fills (f ∷ []));
      }

tried-Adds : (o : ChildOrder) (s : FillSimulator) → Adds s → Adds (tried o s)
tried-Adds o s a = record {
  shares_add = a.shares_add;
  notional_adds = a.notional_adds;
  fills_fit = a.fills_fit;
}

-- Where they were so before, an attempt, whatever it answers, keeps the totals those of the recorded fills (modulo the width
-- of the counters) and the record within its capacity.
pub fill-Adds : (o : ChildOrder) (s : FillSimulator) → Adds s → Adds (fill o s).1
fill-Adds o s a = elim (Option-cases (fill_price o.type o.side o.price s)) [
  | inl absent ↦
      subst (λ (r : Bool × FillSimulator). Adds r.1) (sym (fill-none o s absent)) (tried-Adds o s a)
  | inr (p, at) ↦ elim (Bool-cases (leb max_fills (length s.fills))) [
    | inl shut ↦
        subst (λ (r : Bool × FillSimulator). Adds r.1)
          (sym (fill-some o s p at ∙ fill_at-full o (tried o s) p (ground arith)))
          (tried-Adds o s a)
    | inr room ↦
        subst (λ (r : Bool × FillSimulator). Adds r.1)
          (sym (fill-some o s p at ∙ fill_at-room o (tried o s) p (ground arith)))
          (filled-Adds o (tried o s) p (tried-Adds o s a) (ground arith))
  ]
]

-- The fill that an order makes at a price.
abbrev pub fill_of : ChildOrder → ℕ → Fill
fill_of o p = record { ts = o.ts; side = o.side; price = p; shares = o.shares }

-- The state once an order has filled at a price.
abbrev pub filled : ChildOrder → ℕ → FillSimulator → FillSimulator
filled o p s = record (tried o s) {
  fills = s.fills ++ fill_of o p ∷ [];
  shares_filled = (s.shares_filled + o.shares) % 2 ^ 32;
  notional = (s.notional + p * o.shares) % 2 ^ 128;
}

fill_price-absent :
    (o : ChildOrder) (s : FillSimulator)
    → fill_price o.type o.side o.price s ≡ none
    → (p : ℕ) → ¬ Marketable o.type o.side o.price s p
fill_price-absent o s absent p m =
    let at = (fill_price-Marketable o.type o.side o.price s p).1 m in cc

-- An attempt has one of two outcomes. Where the order is marketable at a price (a market order at the
-- last print, a limit order at the quote of the other side when its own price reaches it) and the
-- record has room, it answers true: all its shares fill at once at that price, as one more fill behind
-- those recorded, and they are added to the shares attempted and filled and to the notional, each
-- modulo the width of its counter. Otherwise it answers false, and only the shares attempted change.
pub fill_lem :
    (o : ChildOrder) (s : FillSimulator)
    → ((p : ℕ) × Marketable o.type o.side o.price s p
        × (length s.fills < max_fills)
        × (fill o s ≡ (true, filled o p s)))
      ⊎ ((¬ (((p : ℕ) × Marketable o.type o.side o.price s p) × (length s.fills < max_fills)))
          × (fill o s ≡ (false, tried o s)))
fill_lem o s = elim (Option-cases (fill_price o.type o.side o.price s)) [
  | inl absent ↦ inr (λ ((p, m), room). fill_price-absent o s absent p m, fill-none o s absent)
  | inr (p, at) ↦ elim (Bool-cases (leb max_fills (length s.fills))) [
    | inl shut ↦ inr (
      λ (m, room). absurd (ground arith),
      fill-some o s p at ∙ fill_at-full o (tried o s) p (ground arith),
    )
    | inr room ↦ inl (
      p,
      (fill_price-Marketable o.type o.side o.price s p).0 at,
      ground arith,
      fill-some o s p at ∙ fill_at-room o (tried o s) p (ground arith),
    )
  ]
]

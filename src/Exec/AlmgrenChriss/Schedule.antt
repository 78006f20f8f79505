-- ===== src/Exec/AlmgrenChriss/Schedule.antt =====
-- What the rounded schedule adds up to.
use itch_lob_engine.Base.{
  ◌^◌, ◌%◌, ◌-◌, ◌+◌, ◌<◌, ◌≡◌, ◌∙◌, ◌∷◌, ℕ, zero, suc, max, ap, Bool, some, List, [], arith,
  get_or, set,
}
use itch_lob_engine.Exec.AlmgrenChriss.{
  AlmgrenChrissParams, AlmgrenChriss, round_from, rounded_sum, adjusted_last, make_schedule, bins,
  make,
}

abbrev pub sum : List ℕ → ℕ
sum [] = 0
sum (x ∷ xs) = x + sum xs

module _ (rounded : ℕ → ℕ) (small : (i : ℕ) → rounded i < 2 ^ 32) where
  -- The schedule with its last entry replaced.
  sum-set_last :
      (i n v : ℕ) → sum (set (round_from rounded i (suc n)) n v) ≡ rounded_sum rounded i n + v
  unfolding round_from rounded_sum
  sum-set_last i zero v = omega arith
  sum-set_last i (suc n) v = omega (arith, sum-set_last (i + 1) n v, small i)

  last_entry : (i n : ℕ) → get_or (round_from rounded i (suc n)) n 0 ≡ rounded (i + n)
  unfolding round_from
  last_entry i zero = omega (arith, small i, ap rounded (let e : i + 0 ≡ i = omega arith in e))
  last_entry i (suc n) = last_entry (i + 1) n ∙ ap rounded (omega arith)

  rounded_sum-snoc :
      (i n : ℕ) → rounded_sum rounded i (suc n) ≡ rounded_sum rounded i n + rounded (i + n)
  unfolding rounded_sum
  rounded_sum-snoc i zero = omega (arith, ap rounded (let e : i + 0 ≡ i = omega arith in e))
  rounded_sum-snoc i (suc n) =
      let e : rounded (i + 1 + n) ≡ rounded (i + suc n) = ap rounded (omega arith) in
      omega (arith, rounded_sum-snoc (i + 1) n, e)

  -- The schedule adds up to the parent order, unless the bins before the last one already round to
  -- more than that: then it adds up to what these have.
  sum-make_schedule :
      (total n : ℕ)
      → total < 2 ^ 32
      → sum (make_schedule rounded total (suc n)) ≡ max total (rounded_sum rounded 0 n)
  unfolding make_schedule adjusted_last
  sum-make_schedule total n fits =
      let entries : List ℕ = round_from rounded 0 (suc n) in
      let whole : ℕ = rounded_sum rounded 0 (suc n) in
      ap (λ m. sum (set entries m ((get_or entries m 0 + total - whole) % 2 ^ 32)))
        (let e : suc n - 1 ≡ n = omega arith in e)
      ∙ sum-set_last 0 n ((get_or entries n 0 + total - whole) % 2 ^ 32)
      ∙ grind (arith, last_entry 0 n, rounded_sum-snoc 0 n)

module _ {D : Type 0} (negative not_positive : D → Bool)
    (rounded : AlmgrenChrissParams D → ℕ → ℕ) where
  make-some :
      (p : AlmgrenChrissParams D) (a : AlmgrenChriss D)
      → make negative not_positive rounded p ≡ some a
      → (0 < bins p) × (a.schedule ≡ make_schedule (rounded p) p.total_shares (bins p))
  unfolding make
  make-some p a h = ground arith

  -- The shares that the bins before the last one round to.
  abbrev pub before_last : AlmgrenChrissParams D → ℕ
  before_last p = rounded_sum (rounded p) 0 (bins p - 1)

  -- A constructor that does not throw, where every bin rounds to less than 2^32 shares, makes a schedule
  -- that adds up to the parent order, or, where the bins before the last one round to more than it, to
  -- what these round to: more than the parent order.
  pub make-sum :
      (p : AlmgrenChrissParams D) (a : AlmgrenChriss D)
      → ((i : ℕ) → rounded p i < 2 ^ 32)
      → p.total_shares < 2 ^ 32
      → make negative not_positive rounded p ≡ some a
      → sum a.schedule ≡ max p.total_shares (before_last p)
  make-sum p a small fits made =
      let (pos, is) = make-some p a made in
      let one_more : bins p ≡ suc (bins p - 1) = omega arith in
      ap (λ (xs : List ℕ). sum xs) is
      ∙ ap (λ n. sum (make_schedule (rounded p) p.total_shares n)) one_more
      ∙ sum-make_schedule (rounded p) small p.total_shares (bins p - 1) fits

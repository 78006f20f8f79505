-- ===== src/Book/Half/Occupied.antt =====
-- `bid_level_count_` and `ask_level_count_` against the levels: how many have an order.
use itch_lob_engine.Base.{
  ◌+◌, ◌≤◌, ◌<◌, ◌≡◌, ◌⊎◌, ◌∙◌, ◌∷◌, ◌==◌, if◌then◌else◌, ℕ, zero, suc, refl, ap, inl, List, [],
  arith, length, get_or, set, replicate, length-set, get_or-set_self, get_or-set_ne,
}
use itch_lob_engine.Book.Types.{Level, empty_level}
use itch_lob_engine.Book.Half.{rehome}

abbrev pub one_if_any : ℕ → ℕ
one_if_any n = if n == 0 then 0 else 1

unfoldable pub occupied : List Level → ℕ
occupied [] = 0
occupied (l ∷ ls) = one_if_any l.orders + occupied ls

pub occupied-set :
    (ls : List Level) (i : ℕ) (l : Level)
    → i < length ls
    → occupied (set ls i l) + one_if_any (get_or ls i empty_level).orders
      ≡ occupied ls + one_if_any l.orders
unfolding occupied
occupied-set [] i l h = absurd (omega arith)
occupied-set (x ∷ ls) zero l h = omega arith
occupied-set (x ∷ ls) (suc i) l h = omega (arith, occupied-set ls i l (omega arith))

pub occupied-replicate : (n : ℕ) → occupied (replicate n empty_level) ≡ 0
unfolding occupied
occupied-replicate zero = refl
occupied-replicate (suc n) = omega (arith, occupied-replicate n)

pub length-rehome : (j : ℕ) (old new : List Level) → length (rehome j old new) ≡ length new
unfolding rehome
length-rehome j [] new = refl
length-rehome j (x ∷ xs) new = length-rehome (suc j) xs (set new j x) ∙ length-set new j x

-- Outside the old levels' new home nothing is written.
pub rehome_outside :
    (j : ℕ) (old new : List Level) (i : ℕ)
    → (i < j) ⊎ (j + length old ≤ i)
    → get_or (rehome j old new) i empty_level ≡ get_or new i empty_level
unfolding rehome
rehome_outside j [] new i h = refl
rehome_outside j (x ∷ xs) new i h =
    rehome_outside (suc j) xs (set new j x) i (omega arith)
    ∙ get_or-set_ne new j i x empty_level (omega arith)

-- Every old level is found at its index plus the offset.
pub rehome_inside :
    (j : ℕ) (old new : List Level) (i : ℕ)
    → i < length old
    → j + length old ≤ length new
    → get_or (rehome j old new) (j + i) empty_level ≡ get_or old i empty_level
unfolding rehome
rehome_inside j [] new i h k = absurd (omega arith)
rehome_inside j (x ∷ xs) new zero h k =
    ap (λ n. get_or (rehome (suc j) xs (set new j x)) n empty_level) (omega arith)
    ∙ rehome_outside (suc j) xs (set new j x) j (inl (omega arith))
    ∙ get_or-set_self new j x empty_level (omega arith)
rehome_inside j (x ∷ xs) new (suc i) h k =
    ap (λ n. get_or (rehome (suc j) xs (set new j x)) n empty_level) (omega arith)
    ∙ rehome_inside (suc j) xs (set new j x) i (omega arith) (omega (arith, length-set new j x))

-- With empty levels in the new range, no level is gained or lost.
pub occupied-rehome :
    (j : ℕ) (old new : List Level)
    → j + length old ≤ length new
    → ((i : ℕ) → j ≤ i → i < j + length old → get_or new i empty_level ≡ empty_level)
    → occupied (rehome j old new) ≡ occupied old + occupied new
unfolding occupied rehome
occupied-rehome j [] new h e = omega arith
occupied-rehome j (x ∷ xs) new h e = omega (
  arith,
  occupied-rehome (suc j) xs (set new j x) (omega (arith, length-set new j x)) (λ i a b.
      get_or-set_ne new j i x empty_level (omega arith) ∙ e i (omega arith) (omega arith)),
  occupied-set new j x (omega arith),
  ap (λ (l : Level). one_if_any l.orders) (e j (omega arith) (omega arith)),
)

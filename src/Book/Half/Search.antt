-- ===== src/Book/Half/Search.antt =====
-- The two searches for the next best level: what `retreat_best_bid` and `advance_best_ask` find.
use itch_lob_engine.Base.{
  ◌-◌, ◌+◌, ◌≤◌, ◌<◌, ◌≡◌, ℕ, zero, suc, inl, inr, false, Option, none, some, List, arith, ltb,
  length, get_or, Bool-cases,
}
use itch_lob_engine.Book.Types.{Side, buy, sell, Level, empty_level}
use itch_lob_engine.Book.Half.{better, retreat, advance, next_best}

-- How many orders the level at an index has.
abbrev pub orders_of : List Level → ℕ → ℕ
orders_of ls i = (get_or ls i empty_level).orders

-- `best` is the best occupied index below `n`, or none is occupied.
abbrev pub IsBestIdx : Side → ℕ → List Level → Option ℕ → Type 0
IsBestIdx s n ls none = (i : ℕ) → i < n → orders_of ls i ≡ 0
IsBestIdx s n ls (some b) =
    (b < n) × (0 < orders_of ls b) × ((i : ℕ) → i < n → 0 < orders_of ls i → better s i b ≡ false)

-- An index without orders above the others changes nothing.
IsBestIdx-suc :
    (n : ℕ) (ls : List Level) (r : Option ℕ)
    → orders_of ls n ≡ 0
    → IsBestIdx buy n ls r
    → IsBestIdx buy (suc n) ls r
IsBestIdx-suc n ls none e b = λ i h. ground (arith, b i)
IsBestIdx-suc n ls (some k) e b = (omega (arith, b.0), b.1, λ i h o. ground (arith, b.2 i))

-- What `retreat` finds below `i` is the highest occupied index there.
pub retreat-IsBestIdx : (ls : List Level) (i : ℕ) → IsBestIdx buy i ls (retreat ls i)
unfolding retreat
retreat-IsBestIdx ls zero = λ i h. absurd (omega arith)
retreat-IsBestIdx ls (suc k) = elim (Bool-cases (ltb 0 (orders_of ls k))) [
  | inl e ↦ rw (e, retreat) (omega arith, ground arith, λ i h o. ground arith)
  | inr e ↦
      rw (e, retreat) (IsBestIdx-suc k ls (retreat ls k) (ground arith) (retreat-IsBestIdx ls k))
]

-- `r` is the lowest occupied index of the `n` from `i` on, or none of them is occupied.
abbrev IsLowest : List Level → ℕ → ℕ → Option ℕ → Type 0
IsLowest ls n i none = (j : ℕ) → i ≤ j → j < i + n → orders_of ls j ≡ 0
IsLowest ls n i (some k) =
    (i ≤ k)
    × (k < i + n)
    × (0 < orders_of ls k)
    × ((j : ℕ) → i ≤ j → j < i + n → 0 < orders_of ls j → k ≤ j)

IsLowest-suc :
    (n i : ℕ) (ls : List Level) (r : Option ℕ)
    → orders_of ls i ≡ 0
    → IsLowest ls n (suc i) r
    → IsLowest ls (suc n) i r
IsLowest-suc n i ls none e b = λ j h k. ground (arith, b j)
IsLowest-suc n i ls (some k) e b =
    (omega (arith, b.0), omega (arith, b.1), b.2, λ j h g o. ground (arith, b.3 j))

advance-IsLowest : (ls : List Level) (n i : ℕ) → IsLowest ls n i (advance ls n i)
unfolding advance
advance-IsLowest ls zero i = λ j h k. absurd (omega arith)
advance-IsLowest ls (suc n) i = elim (Bool-cases (ltb 0 (orders_of ls i))) [
  | inl e ↦ rw (e, advance) (omega arith, omega arith, ground arith, λ j h k o. h)
  | inr e ↦
      rw (e, advance)
        (IsLowest-suc n i ls (advance ls n (suc i)) (ground arith) (advance-IsLowest ls n (suc i)))
]

-- No occupied index is better than `i`, and `i` itself is not occupied.
abbrev pub NoneBetter : Side → ℕ → List Level → ℕ → Type 0
NoneBetter s n ls i =
    (i < n) × (orders_of ls i ≡ 0) × ((j : ℕ) → j < n → 0 < orders_of ls j → better s j i ≡ false)

retreat_finds :
    (n : ℕ) (ls : List Level) (i : ℕ) (r : Option ℕ)
    → NoneBetter buy n ls i
    → IsBestIdx buy i ls r
    → IsBestIdx buy n ls r
retreat_finds n ls i none w b = λ j h. ground (arith, b j, w.2 j)
retreat_finds n ls i (some k) w b =
    (omega (arith, b.0, w.0), b.1, λ j h o. ground (arith, b.2 j, w.2 j))

advance_finds :
    (n : ℕ) (ls : List Level) (i : ℕ) (r : Option ℕ)
    → NoneBetter sell n ls i
    → IsLowest ls (n - (i + 1)) (i + 1) r
    → IsBestIdx sell n ls r
advance_finds n ls i none w b = λ j h. ground (arith, b j, w.2 j)
advance_finds n ls i (some k) w b =
    (omega (arith, b.1, w.0), b.2, λ j h o. ground (arith, b.3 j, w.2 j))

-- Where the level at an index is empty and no occupied level is better, the search from it (down the
-- bids, up the asks) finds the best occupied level of the side, or none where none is occupied.
pub next_best-IsBestIdx :
    (s : Side) (ls : List Level) (i : ℕ)
    → NoneBetter s (length ls) ls i
    → IsBestIdx s (length ls) ls (next_best s ls i)
unfolding next_best
next_best-IsBestIdx buy ls i w = retreat_finds (length ls) ls i _ w (retreat-IsBestIdx ls i)
next_best-IsBestIdx sell ls i w =
    advance_finds (length ls) ls i _ w (advance-IsLowest ls (length ls - (i + 1)) (i + 1))

-- ===== src/Book/Ladder.antt =====
-- `bids_` and `asks_` of include/book/order_book.hpp: a std::map from price to level, as a list of
-- pairs in the map's order, best price first; with the laws of a map in that order.
use itch_lob_engine.Base.{
  ◌≡◌, ◌≢◌, ◌∷◌, ◌==◌, if◌then◌else◌, ℕ, refl, Bool, true, false, Option, none, some, List, [],
  arith, ltb,
}
use itch_lob_engine.Book.Types.{Side, buy, sell, Level, empty_level}

abbrev pub Ladder : Type 0
Ladder = List (ℕ × Level)

-- The maps' comparators: std::greater for the bids, std::less for the asks.
unfoldable pub before : Side → ℕ → ℕ → Bool
before buy p q = ltb q p
before sell p q = ltb p q

-- `m.find(price)`
unfoldable pub find : ℕ → Ladder → Option Level
find p [] = none
find p ((q, l) ∷ m) = if q == p then some l else find p m

-- `m[price] = f(m[price])`, which makes an empty level first where there is none.
unfoldable pub upsert : Side → (Level → Level) → ℕ → Ladder → Ladder
upsert s f p [] = (p, f empty_level) ∷ []
upsert s f p ((q, l) ∷ m) =
    if q == p
    then (q, f l) ∷ m
    else if before s p q
    then (p, f empty_level) ∷ (q, l) ∷ m
    else (q, l) ∷ upsert s f p m

-- `it->second = l` for the `it` that `find` gives
unfoldable pub assign : ℕ → Level → Ladder → Ladder
assign p n [] = []
assign p n ((q, l) ∷ m) = if q == p then (q, n) ∷ m else (q, l) ∷ assign p n m

-- `m.erase(it)`
unfoldable pub erase : ℕ → Ladder → Ladder
erase p [] = []
erase p ((q, l) ∷ m) = if q == p then m else (q, l) ∷ erase p m

-- Every price of the list comes after `p`.
abbrev pub After : Side → ℕ → Ladder → Type 0
After s p [] = Unit {0}
After s p ((q, l) ∷ m) = (before s p q ≡ true) × After s p m

abbrev pub IsSorted : Side → Ladder → Type 0
IsSorted s [] = Unit {0}
IsSorted s ((q, l) ∷ m) = After s q m × IsSorted s m

before_trans :
    (s : Side) (p q r : ℕ) → before s p q ≡ true → before s q r ≡ true → before s p r ≡ true
unfolding before
before_trans buy p q r h k = ground arith
before_trans sell p q r h k = ground arith

pub before_irrefl : (s : Side) (p : ℕ) → before s p p ≡ false
unfolding before
before_irrefl buy p = ground arith
before_irrefl sell p = ground arith

before_total : (s : Side) (p q : ℕ) → p ≢ q → before s p q ≡ false → before s q p ≡ true
unfolding before
before_total buy p q h k = ground arith
before_total sell p q h k = ground arith

After-trans : (s : Side) (p q : ℕ) (m : Ladder) → before s p q ≡ true → After s q m → After s p m
After-trans s p q [] h a = tt
After-trans s p q ((r, l) ∷ m) h a = (before_trans s p q r h a.0, After-trans s p q m h a.1)

-- A price that everything comes after is not in the list.
pub find-After : (s : Side) (p : ℕ) (m : Ladder) → After s p m → find p m ≡ none
unfolding find
find-After s p [] a = refl
find-After s p ((q, l) ∷ m) a = ground (arith, before_irrefl s p, find-After s p m a.1)

upsert-After :
    (s : Side) (f : Level → Level) (p q : ℕ) (m : Ladder)
    → before s q p ≡ true
    → After s q m
    → After s q (upsert s f p m)
unfolding upsert
upsert-After s f p q [] h a = (h, tt)
upsert-After s f p q ((r, l) ∷ m) h a = ground (arith, upsert-After s f p q m h a.1)

pub upsert-IsSorted :
    (s : Side) (f : Level → Level) (p : ℕ) (m : Ladder) → IsSorted s m → IsSorted s (upsert s f p m)
unfolding upsert
upsert-IsSorted s f p [] a = (tt, tt)
upsert-IsSorted s f p ((q, l) ∷ m) a = ground (
  arith,
  before_total s p q,
  After-trans s p q m,
  upsert-After s f p q m,
  upsert-IsSorted s f p m a.1,
)

assign-After :
    (s : Side) (p q : ℕ) (n : Level) (m : Ladder) → After s q m → After s q (assign p n m)
unfolding assign
assign-After s p q n [] a = tt
assign-After s p q n ((r, l) ∷ m) a = ground (arith, assign-After s p q n m a.1)

pub assign-IsSorted :
    (s : Side) (p : ℕ) (n : Level) (m : Ladder) → IsSorted s m → IsSorted s (assign p n m)
unfolding assign
assign-IsSorted s p n [] a = tt
assign-IsSorted s p n ((q, l) ∷ m) a =
    ground (arith, assign-After s p q n m a.0, assign-IsSorted s p n m a.1)

erase-After : (s : Side) (p q : ℕ) (m : Ladder) → After s q m → After s q (erase p m)
unfolding erase
erase-After s p q [] a = tt
erase-After s p q ((r, l) ∷ m) a = ground (arith, erase-After s p q m a.1)

pub erase-IsSorted : (s : Side) (p : ℕ) (m : Ladder) → IsSorted s m → IsSorted s (erase p m)
unfolding erase
erase-IsSorted s p [] a = tt
erase-IsSorted s p ((q, l) ∷ m) a =
    ground (arith, erase-After s p q m a.0, erase-IsSorted s p m a.1)

-- The level that `m[price]` reads.
abbrev pub or_empty : Option Level → Level
or_empty none = empty_level
or_empty (some l) = l

pub find-upsert :
    (s : Side) (f : Level → Level) (p j : ℕ) (m : Ladder)
    → IsSorted s m
    → find j (upsert s f p m) ≡ (if j == p then some (f (or_empty (find p m))) else find j m)
unfolding find upsert
find-upsert s f p j [] a = ground arith
find-upsert s f p j ((q, l) ∷ m) a =
    ground (arith, find-upsert s f p j m a.1, After-trans s p q m, find-After s p m)

pub find-assign :
    (p j : ℕ) (n l : Level) (m : Ladder)
    → find p m ≡ some l
    → find j (assign p n m) ≡ (if j == p then some n else find j m)
unfolding find assign
find-assign p j n l [] h = cc
find-assign p j n l ((q, k) ∷ m) h = ground (arith, find-assign p j n l m)

pub find-erase :
    (s : Side) (p j : ℕ) (m : Ladder)
    → IsSorted s m
    → find j (erase p m) ≡ (if j == p then none else find j m)
unfolding find erase
find-erase s p j [] a = ground arith
find-erase s p j ((q, l) ∷ m) a = ground (arith, find-erase s p j m a.1, find-After s p m)

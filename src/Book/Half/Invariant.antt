-- ===== src/Book/Half/Invariant.antt =====
-- What one side of a `LadderBook` holds: at each index the level that the open orders make at the
-- index's price, the number of occupied levels, and the best occupied index.
use itch_lob_engine.Base.{
  ◌<◌, ◌≡◌, ◌∙◌, ℕ, sym, ap, none, [], length, get_or, replicate, length-replicate,
  get_or-replicate,
}
use itch_lob_engine.Book.Types.{Side, Level, empty_level}
use itch_lob_engine.Book.Locator.{Locator, count_at, shares_at, level_at}
use itch_lob_engine.Book.Half.{Half}
use itch_lob_engine.Book.Half.Search.{IsBestIdx}
use itch_lob_engine.Book.Half.Occupied.{occupied, occupied-replicate}

pub record Holds (s : Side) (price : ℕ → ℕ) (n : ℕ) (m : Locator) (h : Half) : Type 0 where
  pub size : length h.levels ≡ n
  pub levels_hold : (i : ℕ) → i < n → get_or h.levels i empty_level ≡ level_at s (price i) m
  pub counted : h.level_count ≡ occupied h.levels
  pub best : IsBestIdx s n h.levels h.best_idx

-- A price per index, no two the same.
abbrev pub Injective : (ℕ → ℕ) → Type 0
Injective price = (i j : ℕ) → price i ≡ price j → i ≡ j

abbrev pub fresh_half : ℕ → Half
fresh_half n = record { levels = replicate n empty_level; level_count = 0; best_idx = none }

-- The constructor's side holds no orders.
pub fresh_half-Holds : (s : Side) (price : ℕ → ℕ) (n : ℕ) → Holds s price n [] (fresh_half n)
unfolding count_at shares_at
fresh_half-Holds s price n = record {
  size = length-replicate n empty_level;
  levels_hold = λ i h. get_or-replicate n i empty_level;
  counted = sym (occupied-replicate n);
  best = λ i h. ap (λ (l : Level). l.orders) (get_or-replicate n i empty_level);
}

-- Orders that leave every level as it is leave the side as it is.
pub Holds-levels :
    (s : Side) (price : ℕ → ℕ) (n : ℕ) (m m' : Locator) (h : Half)
    → ((p : ℕ) → level_at s p m' ≡ level_at s p m)
    → Holds s price n m h
    → Holds s price n m' h
Holds-levels s price n m m' h e v = record {
  size = v.size;
  levels_hold = λ i k. v.levels_hold i k ∙ sym (e (price i));
  counted = v.counted;
  best = v.best;
}

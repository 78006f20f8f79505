-- ===== src/Book/Types.antt =====
-- include/book/order_book.hpp and include/itch/messages.hpp: the plain data of a book.
use itch_lob_engine.Base.{ℕ, Bool, true, false}

-- `itch::Side`
pub data Side : Type 0 where
  buy sell : Side

abbrev pub side_eq : Side → Side → Bool
side_eq buy buy = true
side_eq sell sell = true
side_eq _ _ = false

-- `Level`: `shares` is a uint64_t, `orders` a uint32_t.
pub record Level : Type 0 where
  pub shares : ℕ
  pub orders : ℕ

-- `Level{}`
abbrev pub empty_level : Level
empty_level = record { shares = 0; orders = 0 }

pub record Quote : Type 0 where
  pub price : ℕ
  pub shares : ℕ

-- `OrderBook::Order`, which `LadderBook` declares once more.
pub record Order : Type 0 where
  pub shares : ℕ
  pub price : ℕ
  pub side : Side

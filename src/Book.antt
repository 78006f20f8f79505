-- ===== src/Book.antt =====
-- include/book/: the limit order book, in two implementations.
pub mod Types
pub mod Locator
pub mod Ladder
pub mod Reference
pub mod OrderBook
pub mod Half
pub mod LadderBook
pub mod Agreement
mod Tests

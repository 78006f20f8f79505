-- ===== src/Pipeline/Snapshot.antt =====
-- include/pipeline/book_snapshot.hpp, with `for_each` of include/pipeline/book_table.hpp, and
-- `PublishingHandler` of src/replay_query_main.cpp, whose pause between publications is left out. Each
-- call of the store holds its lock, so it is one step.
pub mod Lookup
pub mod Publishing
use itch_lob_engine.Base.{
  ◌^◌, ◌*◌, ◌/◌, ◌%◌, ◌-◌, ◌+◌, ◌≤◌, ◌<◌, ◌≡◌, ◌≢◌, ◌↔◌, ◌⊎◌, ◌&&◌, ◌||◌, ◌∙◌, ◌∷◌, ◌++◌, ◌==◌,
  if◌then◌else◌, ℕ, zero, suc, min, max, refl, sym, ap, ap₂, subst, inl, inr, Bool, true, false,
  not, Option, none, some, List, [], map, arith, ltb, leb, length, get_or, set, take, drop,
  replicate, append-nil, append_assoc, Bool-cases, Option-cases, length-append, length-set,
  length-replicate, get_or-set_self, get_or-set_ne, get_or-replicate, ==→≡, ≡→==, ==→≢, ≢→==,
  length-drop, length-take_le, drop-nil, take-nil, drop-add, drop-take_add, take-take_le,
  get_or-take, take-append_le, drop-append_le, get_or-append,
}
use itch_lob_engine.Book.Types.{Quote, Side, buy, sell, side_eq, Level, empty_level, Order}
use itch_lob_engine.Itch.Messages.{Call, on_other}
use itch_lob_engine.Pipeline.BookBuilder.{BookOps, BookBuilder, handle, empty_builder}

-- What a snapshot asks of a book.
pub record BookQueries (B : Type 0) : Type 0 where
  pub best_bid : B → Option Quote
  pub best_ask : B → Option Quote
  pub open_orders : B → ℕ
  pub bid_levels : B → ℕ
  pub ask_levels : B → ℕ

pub record LocateSnapshot : Type 0 where
  pub locate : ℕ
  pub has_bid : Bool
  pub bid_price : ℕ
  pub bid_shares : ℕ
  pub has_ask : Bool
  pub ask_price : ℕ
  pub ask_shares : ℕ
  pub open_orders : ℕ
  pub bid_levels : ℕ
  pub ask_levels : ℕ

-- `for_each` from slot `i` on: the calls that it makes.
unfoldable pub for_each_from : {B : Type 0} → ℕ → List (Option B) → List (ℕ × B)
for_each_from i [] = []
for_each_from i (none ∷ slots) = for_each_from (i + 1) slots
for_each_from i (some b ∷ slots) = (i % 2 ^ 16, b) ∷ for_each_from (i + 1) slots

unfoldable pub for_each : {B : Type 0} → List (Option B) → List (ℕ × B)
unfolding for_each_from
for_each slots = for_each_from 0 slots

-- A quote where there is one, and what the initialisers of the fields leave where there is none.
abbrev pub quoted : Option Quote → Bool × ℕ × ℕ
quoted none = (false, 0, 0)
quoted (some q) = (true, q.price, q.shares)

module _ {B : Type 0} (queries : BookQueries B) where
  -- The callback of `snapshot_book_table`.
  unfoldable pub snapshot_of : ℕ × B → LocateSnapshot
  snapshot_of (locate, b) =
      let (has_bid, bid_price, bid_shares) = quoted (queries.best_bid b) in
      let (has_ask, ask_price, ask_shares) = quoted (queries.best_ask b) in
      record {
        locate = locate;
        has_bid = has_bid;
        bid_price = bid_price;
        bid_shares = bid_shares;
        has_ask = has_ask;
        ask_price = ask_price;
        ask_shares = ask_shares;
        open_orders = queries.open_orders b;
        bid_levels = queries.bid_levels b;
        ask_levels = queries.ask_levels b;
      }

  unfoldable pub snapshot_book_table : List (Option B) → List LocateSnapshot
  unfolding for_each snapshot_of
  snapshot_book_table slots = map snapshot_of (for_each slots)

pub record SnapshotStore : Type 0 where
  pub snapshots : List LocateSnapshot
  pub version : ℕ
  pub unknown_refs : ℕ

abbrev pub empty_store : SnapshotStore
empty_store = record { snapshots = []; version = 0; unknown_refs = 0 }

unfoldable pub publish : List LocateSnapshot → ℕ → SnapshotStore → SnapshotStore
publish next refs store = record {
  snapshots = next;
  version = (store.version + 1) % 2 ^ 64;
  unknown_refs = refs;
}

-- The loop of `find`.
unfoldable pub find_snapshot : ℕ → List LocateSnapshot → Option LocateSnapshot
find_snapshot locate [] = none
find_snapshot locate (s ∷ rest) =
    let later : Option LocateSnapshot = find_snapshot locate rest in
    if s.locate == locate then some s else later

-- The handler of the query server's replay.
pub record PublishingHandler (B : Type 0) : Type 0 where
  pub inner : BookBuilder B
  pub store : SnapshotStore
  pub since_publish : ℕ

-- Whether a callback goes on to `maybe_publish`.
abbrev pub touches_book : Call → Bool
touches_book (on_other _ _) = false
touches_book _ = true

module _ {B : Type 0} (ops : BookOps B) (queries : BookQueries B) (publish_every : ℕ) where
  unfoldable pub publish_now : PublishingHandler B → PublishingHandler B
  unfolding publish snapshot_book_table
  publish_now p = record p {
    store = publish (snapshot_book_table queries p.inner.books) p.inner.unknown_refs p.store;
  }

  unfoldable pub maybe_publish : PublishingHandler B → PublishingHandler B
  unfolding publish_now
  maybe_publish p =
      let since : ℕ = (p.since_publish + 1) % 2 ^ 64 in
      if publish_every == 0
      then p
      else if ltb since publish_every
      then record p { since_publish = since }
      else publish_now (record p { since_publish = 0 })

  -- The callbacks.
  unfoldable pub on_call : Call → PublishingHandler B → PublishingHandler B
  unfolding maybe_publish handle
  on_call c p =
      let handled : PublishingHandler B = record p { inner = handle ops c p.inner } in
      if touches_book c then maybe_publish handled else handled

  unfoldable pub on_calls : List Call → PublishingHandler B → PublishingHandler B
  unfolding on_call
  on_calls [] p = p
  on_calls (c ∷ cs) p = on_calls cs (on_call c p)

  -- `run` for the callbacks of a parse, to its final publication.
  unfoldable pub run : List Call → PublishingHandler B
  unfolding on_calls publish_now
  run cs =
      publish_now
        (on_calls cs (record { inner = empty_builder; store = empty_store; since_publish = 0 }))

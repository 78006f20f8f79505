-- ===== src/Pipeline/Snapshot/Lookup.antt =====
-- A lookup in a snapshot of a table.
use itch_lob_engine.Base.{
  ◌^◌, ◌%◌, ◌+◌, ◌≤◌, ◌<◌, ◌≡◌, ◌∙◌, ◌∷◌, ◌==◌, ℕ, zero, suc, refl, sym, ap, subst, true, false,
  Option, none, some, List, [], map, arith, length, get_or,
}
use itch_lob_engine.Pipeline.BookTable.{find, find-get_or}
use itch_lob_engine.Pipeline.Snapshot.{
  BookQueries, LocateSnapshot, for_each_from, for_each, snapshot_of, snapshot_book_table,
  find_snapshot,
}

abbrev pub snapshot_from : {B : Type 0} → BookQueries B → ℕ → Option B → Option LocateSnapshot
snapshot_from queries locate none = none
snapshot_from queries locate (some b) = some (snapshot_of queries (locate, b))

module _ {B : Type 0} (queries : BookQueries B) where
  -- The entry of a slot, where there is one.
  abbrev entries : ℕ → List (Option B) → List LocateSnapshot
  entries i slots = map (snapshot_of queries) (for_each_from i slots)

  find_below :
      (i j : ℕ) (slots : List (Option B))
      → i + length slots ≤ 2 ^ 16
      → j < i
      → find_snapshot j (entries i slots) ≡ none
  unfolding find_snapshot for_each_from snapshot_of
  find_below i j [] fits lt = refl
  find_below i j (none ∷ slots) fits lt = find_below (i + 1) j slots (omega arith) (omega arith)
  find_below i j (some b ∷ slots) fits lt =
      let other : (i % 2 ^ 16 == j) ≡ false = ground arith in
      rw other (find_below (i + 1) j slots (omega arith) (omega arith))

  shift :
      (i k : ℕ) (slots : List (Option B))
      → find_snapshot (i + 1 + k) (entries (i + 1) slots)
        ≡ snapshot_from queries (i + 1 + k) (get_or slots k none)
      → find_snapshot (i + suc k) (entries (i + 1) slots)
        ≡ snapshot_from queries (i + suc k) (get_or slots k none)
  shift i k slots h =
      subst
        (λ j.
          find_snapshot j (entries (i + 1) slots) ≡ snapshot_from queries j (get_or slots k none))
        (let e : i + 1 + k ≡ i + suc k = omega arith in e) h

  find_from :
      (i k : ℕ) (slots : List (Option B))
      → i + length slots ≤ 2 ^ 16
      → find_snapshot (i + k) (entries i slots)
        ≡ snapshot_from queries (i + k) (get_or slots k none)
  unfolding find_snapshot for_each_from snapshot_of
  find_from i k [] fits = refl
  find_from i zero (none ∷ slots) fits =
      find_below (i + 1) (i + 0) slots (omega arith) (omega arith)
  find_from i (suc k) (none ∷ slots) fits =
      shift i k slots (find_from (i + 1) k slots (omega arith))
  find_from i zero (some b ∷ slots) fits =
      let this : (i % 2 ^ 16 == i + 0) ≡ true = ground arith in
      rw this (ap (λ n. some (snapshot_of queries (n, b))) (omega arith))
  find_from i (suc k) (some b ∷ slots) fits =
      let other : (i % 2 ^ 16 == i + suc k) ≡ false = ground arith in
      rw other (shift i k slots (find_from (i + 1) k slots (omega arith)))

  -- In the snapshot of a table of at most 2^16 slots, every locate is found exactly where it has a
  -- book, with the answers of that book.
  pub find_snapshot-table :
      (k : ℕ) (slots : List (Option B))
      → length slots ≤ 2 ^ 16
      → find_snapshot k (snapshot_book_table queries slots) ≡ snapshot_from queries k (find k slots)
  unfolding snapshot_book_table for_each
  find_snapshot-table k slots fits =
      subst (λ j. find_snapshot j (entries 0 slots) ≡ snapshot_from queries j (get_or slots k none))
        (let e : 0 + k ≡ k = omega arith in e) (find_from 0 k slots (omega arith))
      ∙ ap (snapshot_from queries k) (sym (find-get_or k slots))

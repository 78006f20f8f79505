-- ===== src/Pipeline/BookBuilder.antt =====
-- `BookBuilder` of include/pipeline/dispatch_to_book.hpp, for any type of book with the operations
-- that it calls.
pub mod Routing
use itch_lob_engine.Base.{
  ◌^◌, ◌*◌, ◌/◌, ◌%◌, ◌-◌, ◌+◌, ◌≤◌, ◌<◌, ◌≡◌, ◌≢◌, ◌↔◌, ◌⊎◌, ◌&&◌, ◌||◌, ◌∙◌, ◌∷◌, ◌++◌, ◌==◌,
  if◌then◌else◌, ℕ, zero, suc, min, max, refl, sym, ap, ap₂, subst, inl, inr, Bool, true, false,
  not, Option, none, some, List, [], map, arith, ltb, leb, length, get_or, set, take, drop,
  replicate, append-nil, append_assoc, Bool-cases, Option-cases, length-append, length-set,
  length-replicate, get_or-set_self, get_or-set_ne, get_or-replicate, ==→≡, ≡→==, ==→≢, ≢→==,
  length-drop, length-take_le, drop-nil, take-nil, drop-add, drop-take_add, take-take_le,
  get_or-take, take-append_le, drop-append_le, get_or-append,
}
use itch_lob_engine.Itch.Messages.{
  Call, on_add, on_execute, on_execute_price, on_cancel, on_delete, on_replace, on_other, AddOrder,
  OrderExecuted, OrderExecutedPrice, OrderCancel, OrderDelete, OrderReplace, Header,
}
use itch_lob_engine.Pipeline.BookTable.{update}

-- What `BookBuilder` uses of a type of books: `BookTraits::make` and the mutators.
pub record BookOps (B : Type 0) : Type 0 where
  pub make : ℕ → B
  pub add : ℕ → ℕ → ℕ → ℕ → B → Bool × B
  pub execute : ℕ → ℕ → B → Bool × B
  pub cancel : ℕ → ℕ → B → Bool × B
  pub remove : ℕ → B → Bool × B
  pub replace : ℕ → ℕ → ℕ → ℕ → B → Bool × B

pub record BookBuilder (B : Type 0) : Type 0 where
  pub books : List (Option B)
  pub counts : List ℕ
  pub unknown_refs : ℕ

abbrev pub empty_builder : {B : Type 0} → BookBuilder B
empty_builder = record { books = []; counts = replicate 256 0; unknown_refs = 0 }

-- `bump`
unfoldable pub bump : ℕ → List ℕ → List ℕ
bump t counts = set counts t ((get_or counts t 0 + 1) % 2 ^ 64)

-- What the callbacks have in common: a mutator on the book of a locate, counted where it fails.
unfoldable pub route :
    {B : Type 0} → (ℕ → B) → ℕ → ℕ → ℕ → (B → Bool × B) → BookBuilder B → BookBuilder B
unfolding update bump
route make type locate hint f h =
    let (ok, books) = update make locate hint f h.books in
    record {
      books = books;
      counts = bump type h.counts;
      unknown_refs = if ok then h.unknown_refs else (h.unknown_refs + 1) % 2 ^ 64;
    }

-- The callbacks.
unfoldable pub handle : {B : Type 0} → BookOps B → Call → BookBuilder B → BookBuilder B
unfolding route bump
handle ops (on_add m) h =
    route ops.make 65 m.hdr.locate m.price (ops.add m.ref m.side m.shares m.price) h
handle ops (on_execute m) h = route ops.make 69 m.hdr.locate 0 (ops.execute m.ref m.shares) h
handle ops (on_execute_price m) h = route ops.make 67 m.hdr.locate 0 (ops.execute m.ref m.shares) h
handle ops (on_cancel m) h = route ops.make 88 m.hdr.locate 0 (ops.cancel m.ref m.canceled) h
handle ops (on_delete m) h = route ops.make 68 m.hdr.locate 0 (ops.remove m.ref) h
handle ops (on_replace m) h =
    route ops.make 85 m.hdr.locate m.price (ops.replace m.orig_ref m.new_ref m.shares m.price) h
handle ops (on_other t len) h = record h { counts = bump t h.counts }

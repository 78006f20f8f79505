-- ===== src/Net/Query.antt =====
-- `query_wire`, `handle_line` and the lines of `handle_connection` of include/net/query_server.hpp. A
-- string is the list of its codes. `std::to_string` of an unsigned integer is `decimal`.
pub mod Lines
pub mod Answers
use itch_lob_engine.Base.{
  ◌^◌, ◌*◌, ◌/◌, ◌%◌, ◌-◌, ◌+◌, ◌≤◌, ◌<◌, ◌≡◌, ◌≢◌, ◌↔◌, ◌⊎◌, ◌&&◌, ◌||◌, ◌∙◌, ◌∷◌, ◌++◌, ◌==◌,
  if◌then◌else◌, ℕ, zero, suc, min, max, refl, sym, ap, ap₂, subst, inl, inr, Bool, true, false,
  not, Option, none, some, List, [], map, arith, ltb, leb, length, get_or, set, take, drop,
  replicate, append-nil, append_assoc, Bool-cases, Option-cases, length-append, length-set,
  length-replicate, get_or-set_self, get_or-set_ne, get_or-replicate, ==→≡, ≡→==, ==→≢, ≢→==,
  length-drop, length-take_le, drop-nil, take-nil, drop-add, drop-take_add, take-take_le,
  get_or-take, take-append_le, drop-append_le, get_or-append,
}
use itch_lob_engine.Itch.Wire.{Bytes}
use Prim.Native.String.{String}
use Prim.Native.Char.{code}
use itch_lob_engine.Pipeline.Snapshot.{LocateSnapshot, SnapshotStore, find_snapshot}

-- The digits of a number, on fuel; a number has fewer digits than its successor counts.
abbrev pub decimal_from : ℕ → ℕ → Bytes → Bytes
decimal_from zero n digits = digits
decimal_from (suc fuel) n digits =
    let longer : Bytes = decimal_from fuel (n / 10) ((48 + n % 10) ∷ digits) in
    if ltb n 10 then (48 + n) ∷ digits else longer

unfoldable pub decimal : ℕ → Bytes
decimal n = decimal_from (suc n) n []

-- `s.compare(0, prefix.size(), prefix) == 0`
abbrev pub starts_with : Bytes → Bytes → Bool
starts_with [] s = true
starts_with (c ∷ cs) [] = false
starts_with (c ∷ cs) (d ∷ ds) = c == d && starts_with cs ds

-- What follows the first occurrence of `needle`, where `find` has one.
abbrev pub after_first : Bytes → Bytes → Option Bytes
after_first needle [] = if starts_with needle [] then some [] else none
after_first needle (c ∷ cs) =
    let later : Option Bytes = after_first needle cs in
    if starts_with needle (c ∷ cs) then some (drop (length needle) (c ∷ cs)) else later

abbrev pub skip_blanks : Bytes → Bytes
skip_blanks [] = []
skip_blanks (c ∷ cs) =
    let rest : Bytes = skip_blanks cs in if c == 32 || c == 9 then rest else c ∷ cs

-- `pos >= s.size() || s[pos] != c`: none; the rest otherwise.
abbrev pub expect : ℕ → Bytes → Option Bytes
expect c [] = none
expect c (d ∷ ds) = if d == c then some ds else none

-- What stands before the next `c`, where there is one.
abbrev pub before : ℕ → Bytes → Option Bytes
before c [] = none
before c (d ∷ ds) =
    let rest : Option Bytes = before c ds in
    if d == c then some [] else elim rest [ none ↦ none | some ds' ↦ some (d ∷ ds') ]

-- `"key"`
abbrev pub quoted_key : Bytes → Bytes
quoted_key key = 34 ∷ (key ++ 34 ∷ [])

infixl 10 ◌>>=◌
abbrev pub ◌>>=◌ : {A B : Type 0} → Option A → (A → Option B) → Option B
none >>= f = none
some a >>= f = f a

-- The value of a field, up to which both scanners are the same.
unfoldable pub field_value : Bytes → Bytes → Option Bytes
field_value s key = do
  after ← after_first (quoted_key key) s
  value ← expect 58 (skip_blanks after)
  some (skip_blanks value)

unfoldable pub extract_string_field : Bytes → Bytes → Option Bytes
unfolding field_value
extract_string_field s key = do
  value ← field_value s key
  open_quote ← expect 34 value
  before 34 open_quote

abbrev pub is_digit : ℕ → Bool
is_digit c = leb 48 c && leb c 57

abbrev pub leading_digits : Bytes → Bytes
leading_digits [] = []
leading_digits (c ∷ cs) =
    let rest : Bytes = leading_digits cs in if is_digit c then c ∷ rest else []

abbrev pub digits_value : ℕ → Bytes → ℕ
digits_value v [] = v
digits_value v (c ∷ cs) = digits_value (v * 10 + (c - 48)) cs

-- `std::stoull` of the digits: none where there is none of them, or where it is out of range.
abbrev pub stoull : Bytes → Option ℕ
stoull ds =
    if length ds == 0
    then none
    else if ltb (digits_value 0 ds) (2 ^ 64)
    then some (digits_value 0 ds)
    else none

unfoldable pub extract_uint_field : Bytes → Bytes → Option ℕ
unfolding field_value
extract_uint_field s key = do value ← field_value s key; stoull (leading_digits value)

-- The code of a string literal.
abbrev pub codes : String → Bytes
codes String.[] = []
codes (String.◌∷◌ c s) = code c ∷ codes s

abbrev pub null_or : Bool → ℕ → Bytes
null_or has n = if has then decimal n else codes "null"

-- A key with its colon, a number and a comma.
abbrev pub member : String → Bytes → Bytes
member key value = quoted_key (codes key) ++ (58 ∷ value)

abbrev pub comma : Bytes → Bytes → Bytes
comma xs ys = xs ++ (44 ∷ ys)

unfoldable pub quote_fields : LocateSnapshot → Bytes
unfolding decimal
quote_fields q = comma (member "locate" (decimal q.locate)) (
    comma (member "best_bid" (null_or q.has_bid q.bid_price)) (
      comma (member "best_bid_shares" (null_or q.has_bid q.bid_shares)) (
        comma (member "best_ask" (null_or q.has_ask q.ask_price)) (
          comma (member "best_ask_shares" (null_or q.has_ask q.ask_shares)) (
            comma (member "open_orders" (decimal q.open_orders)) (
              comma (member "bid_levels" (decimal q.bid_levels))
                (member "ask_levels" (decimal q.ask_levels))))))))

abbrev pub braces : Bytes → Bytes
braces xs = 123 ∷ (xs ++ 125 ∷ [])

unfoldable pub quote_json : LocateSnapshot → ℕ → ℕ → Bytes
unfolding quote_fields decimal
quote_json q version unknown_refs = braces (
    comma (quote_fields q) (
      comma (member "snapshot_version" (decimal version))
        (member "unknown_refs" (decimal unknown_refs))))

-- The loop of `list_json`, from its second entry on.
unfoldable pub more_books : List LocateSnapshot → Bytes
unfolding quote_fields
more_books [] = []
more_books (q ∷ qs) = 44 ∷ (braces (quote_fields q) ++ more_books qs)

unfoldable pub books_json : List LocateSnapshot → Bytes
unfolding more_books
books_json [] = []
books_json (q ∷ qs) = braces (quote_fields q) ++ more_books qs

unfoldable pub list_json : List LocateSnapshot → ℕ → ℕ → Bytes
unfolding books_json decimal
list_json all version unknown_refs = braces (
    comma (member "snapshot_version" (decimal version)) (
      comma (member "unknown_refs" (decimal unknown_refs))
        (member "books" (91 ∷ (books_json all ++ 93 ∷ [])))))

unfoldable pub error_json : String → Bytes
error_json msg = braces (member "error" (quoted_key (codes msg)))

unfoldable pub error_json_locate : String → ℕ → Bytes
unfolding decimal
error_json_locate msg locate =
    braces (comma (member "error" (quoted_key (codes msg))) (member "locate" (decimal locate)))

abbrev pub same_codes : Bytes → Bytes → Bool
same_codes [] [] = true
same_codes (c ∷ cs) (d ∷ ds) = c == d && same_codes cs ds
same_codes _ _ = false

-- The answer to "quote", once its locate has been scanned.
unfoldable pub quote_answer : Option ℕ → SnapshotStore → SnapshotStore → SnapshotStore → Bytes
unfolding quote_json error_json error_json_locate find_snapshot
quote_answer none first second third = error_json "missing locate"
quote_answer (some field) first second third =
    let locate : ℕ = field % 2 ^ 16 in
    elim (find_snapshot locate first.snapshots) [
      | none ↦ error_json_locate "unknown locate" locate
      | some q ↦ quote_json q second.version third.unknown_refs
    ]

-- `handle_line`. Each of its three calls of the store takes the lock anew: they are three states of
-- the store, in any order, since the calls are arguments of one call.
unfoldable pub handle_line : Bytes → SnapshotStore → SnapshotStore → SnapshotStore → Bytes
unfolding extract_string_field extract_uint_field list_json quote_answer error_json
handle_line line first second third = elim (extract_string_field line (codes "cmd")) [
  | none ↦ error_json "bad request"
  | some cmd ↦
      if same_codes cmd (codes "list")
      then list_json first.snapshots second.version third.unknown_refs
      else if same_codes cmd (codes "quote")
      then quote_answer (extract_uint_field line (codes "locate")) first second third
      else error_json "unknown command"
]

-- `kMaxLineLen`
abbrev pub max_line_len : ℕ
max_line_len = 65536

-- What stands before the first line feed, and what behind it.
abbrev pub first_line : Bytes → Option (Bytes × Bytes)
first_line [] = none
first_line (c ∷ cs) =
    let later : Option (Bytes × Bytes) = first_line cs in
    if c == 10
    then some ([], cs)
    else elim later [ none ↦ none | some (line, rest) ↦ some (c ∷ line, rest) ]

-- `if (!line.empty() && line.back() == '\r') line.pop_back()`
abbrev pub without_cr : Bytes → Bytes
without_cr [] = []
without_cr (c ∷ []) = if c == 13 then [] else c ∷ []
without_cr (c ∷ d ∷ cs) = c ∷ without_cr (d ∷ cs)

-- A connection: what is still incomplete, the lines that `handle_line` is called with, in order, and
-- whether the server has closed it. A response that cannot be sent closes it too: that is not modelled.
pub record Connection : Type 0 where
  pub buf : Bytes
  pub handled : List Bytes
  pub closed : Bool

-- The inner loop of `handle_connection`, on what has arrived.
unfoldable pub take_lines : ℕ → Bytes → List Bytes → Connection
take_lines zero buf handled = record { buf = buf; handled = handled; closed = false }
take_lines (suc fuel) buf handled = elim (first_line buf) [
  | none ↦ record { buf = buf; handled = handled; closed = false }
  | some (line, rest) ↦
      let text : Bytes = without_cr line in
      take_lines fuel rest (if length text == 0 then handled else handled ++ text ∷ [])
]

-- What it does with the bytes of a `recv`: each line takes one of them at least. Once it has closed the
-- connection it has returned, and does nothing more.
unfoldable pub on_recv : Bytes → Connection → Connection
unfolding take_lines
on_recv chunk c =
    let buf : Bytes = c.buf ++ chunk in
    let taken : Connection = take_lines (length buf) buf c.handled in
    if c.closed
    then c
    else if ltb max_line_len (length taken.buf)
    then record taken { closed = true }
    else taken

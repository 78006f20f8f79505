-- ===== src/Net/Query/Answers.antt =====
-- Printed numbers as the scanners read them, and the answers to a client that asks for a book.
use itch_lob_engine.Base.{
  ◌/◌, ◌%◌, ◌+◌, ◌≤◌, ◌<◌, ◌≡◌, ◌∙◌, ◌∷◌, ◌++◌, ℕ, zero, suc, refl, ap, inl, inr, true, [], arith,
  ltb, Bool-cases, ◌^◌, ◌||◌, ◌==◌, sym, false, none, some, length,
}
use itch_lob_engine.Itch.Wire.{Bytes}
use itch_lob_engine.Pipeline.Snapshot.{SnapshotStore, find_snapshot}
use itch_lob_engine.Net.Query.{
  quote_json, error_json_locate, handle_line, quote_answer, decimal_from, decimal, is_digit,
  leading_digits, digits_value, codes, extract_string_field, extract_uint_field, skip_blanks,
  stoull, field_value,
}

digits_value-decimal_from :
    (f n : ℕ) (ds : Bytes) → n < f → digits_value 0 (decimal_from f n ds) ≡ digits_value n ds
digits_value-decimal_from zero n ds h = absurd (omega arith)
digits_value-decimal_from (suc f) n ds h = elim (Bool-cases (ltb n 10)) [
  | inl last ↦ rw last (ap (λ v. digits_value v ds) (omega arith))
  | inr more ↦ rw more (
      digits_value-decimal_from f (n / 10) ((48 + n % 10) ∷ ds) (ground arith)
      ∙ ap (λ v. digits_value v ds) (omega arith))
]

leading_digits-decimal_from :
    (f n : ℕ) (ds rest : Bytes)
    → leading_digits (decimal_from f n ds ++ rest) ≡ decimal_from f n (leading_digits (ds ++ rest))
leading_digits-decimal_from zero n ds rest = refl
leading_digits-decimal_from (suc f) n ds rest = elim (Bool-cases (ltb n 10)) [
  | inl last ↦ let digit : is_digit (48 + n) ≡ true = ground arith in rw last (rw digit refl)
  | inr more ↦
      let digit : is_digit (48 + n % 10) ≡ true = ground arith in
      rw more (leading_digits-decimal_from f (n / 10) ((48 + n % 10) ∷ ds) rest ∙ rw digit refl)
]

-- A printed number starts with a digit.
Starts : Bytes → Type 0
Starts xs = (c : ℕ) × (cs : Bytes) × (xs ≡ c ∷ cs) × (48 ≤ c)

decimal_from-Starts : (f n : ℕ) (c : ℕ) (cs : Bytes) → 48 ≤ c → Starts (decimal_from f n (c ∷ cs))
unfolding Starts
decimal_from-Starts zero n c cs h = (c, cs, refl, h)
decimal_from-Starts (suc f) n c cs h = elim (Bool-cases (ltb n 10)) [
  | inl last ↦ rw last (48 + n, c ∷ cs, refl, omega arith)
  | inr more ↦ rw more (decimal_from-Starts f (n / 10) (48 + n % 10) (c ∷ cs) (omega arith))
]

decimal-Starts : (n : ℕ) → Starts (decimal n)
unfolding decimal Starts
decimal-Starts n = elim (Bool-cases (ltb n 10)) [
  | inl last ↦ rw last (48 + n, [], refl, omega arith)
  | inr more ↦ rw more (decimal_from-Starts n (n / 10) (48 + n % 10) [] (omega arith))
]

leading_digits-decimal :
    (n : ℕ) (rest : Bytes)
    → leading_digits rest ≡ []
    → leading_digits (decimal n ++ rest) ≡ decimal n
unfolding decimal
leading_digits-decimal n rest stop =
    leading_digits-decimal_from (suc n) n [] rest ∙ ap (decimal_from (suc n) n) stop

digits_value-decimal : (n : ℕ) → digits_value 0 (decimal n) ≡ n
unfolding decimal
digits_value-decimal n = digits_value-decimal_from (suc n) n [] (omega arith)

skip_blanks-decimal : (n : ℕ) (rest : Bytes) → skip_blanks (decimal n ++ rest) ≡ decimal n ++ rest
unfolding Starts
skip_blanks-decimal n rest =
    let (c, cs, e, digit) = decimal-Starts n in
    let solid : (c == 32 || c == 9) ≡ false = ground arith in
    ap (λ xs. skip_blanks (xs ++ rest)) e ∙ rw solid (ap (λ xs. xs ++ rest) (sym e))

stoull-decimal :
    (n : ℕ) (rest : Bytes)
    → n < 2 ^ 64
    → leading_digits rest ≡ []
    → stoull (leading_digits (decimal n ++ rest)) ≡ some n
unfolding Starts
stoull-decimal n rest small stop =
    let digits : leading_digits (decimal n ++ rest) ≡ decimal n =
      leading_digits-decimal n rest stop in
    let value : digits_value 0 (decimal n) ≡ n = digits_value-decimal n in
    let some_digits : (length (decimal n) == 0) ≡ false =
      let (c, cs, e, _) = decimal-Starts n in
      let size : length (decimal n) ≡ suc (length cs) = ap (λ (xs : Bytes). length xs) e in
      ground arith in
    let in_range : ltb (digits_value 0 (decimal n)) (2 ^ 64) ≡ true = ground arith in
    ap stoull digits ∙ rw (some_digits, in_range) (ap (λ (v : ℕ). some v) value)

-- The request of a client for the book of locate `n`.
abbrev pub quote_request : ℕ → Bytes
quote_request n = codes "{\"cmd\":\"quote\",\"locate\":" ++ (decimal n ++ codes "}")

cmd_of : (n : ℕ) → extract_string_field (quote_request n) (codes "cmd") ≡ some (codes "quote")
unfolding extract_string_field field_value
cmd_of n = refl

locate_of : (n : ℕ) → n < 2 ^ 64 → extract_uint_field (quote_request n) (codes "locate") ≡ some n
unfolding extract_uint_field field_value
locate_of n small =
    ap (λ xs. stoull (leading_digits xs)) (skip_blanks-decimal n (codes "}"))
    ∙ stoull-decimal n (codes "}") small refl

-- A client that asks for the book of `n`, below 2^64, is answered with the quote of locate `n % 2^16`
-- from the snapshot that is there at the first access, or with an error that names this locate where
-- it has no book; the version and the count of unknown references are those of the other two accesses.
pub handle_line-quote :
    (n : ℕ) (first second third : SnapshotStore)
    → n < 2 ^ 64
    → handle_line (quote_request n) first second third
      ≡ elim (find_snapshot (n % 2 ^ 16) first.snapshots) as (λ _. Bytes) [
        | none ↦ error_json_locate "unknown locate" (n % 2 ^ 16)
        | some q ↦ quote_json q second.version third.unknown_refs
      ]
unfolding handle_line
handle_line-quote n first second third small =
    ap (λ o. quote_answer o first second third) (locate_of n small)

-- A locate that does not fit 16 bits is not refused: the client gets the book of another locate.
pub handle_line-wraps :
    (n : ℕ) (first second third : SnapshotStore)
    → n + 2 ^ 16 < 2 ^ 64
    → handle_line (quote_request (n + 2 ^ 16)) first second third
      ≡ handle_line (quote_request n) first second third
handle_line-wraps n first second third small =
    let same : (n + 2 ^ 16) % 2 ^ 16 ≡ n % 2 ^ 16 = omega arith in
    handle_line-quote (n + 2 ^ 16) first second third small
    ∙ ap
        (λ locate. elim (find_snapshot locate first.snapshots) as (λ _. Bytes) [
          | none ↦ error_json_locate "unknown locate" locate
          | some q ↦ quote_json q second.version third.unknown_refs
        ])
        same
    ∙ sym (handle_line-quote n first second third (omega arith))

-- ===== src/Net/Query/Lines.antt =====
-- The lines of a connection, however they are split over its reads.
use itch_lob_engine.Base.{
  ◌≤◌, ◌≡◌, ◌≢◌, ◌∙◌, ◌∷◌, ◌++◌, ◌==◌, ℕ, zero, suc, refl, sym, ap, false, none, some, List, [],
  arith, ltb, length, append-nil, append_assoc, length-append,
}
use itch_lob_engine.Itch.Wire.{Bytes}
use itch_lob_engine.Net.Query.{first_line, without_cr, Connection, take_lines, on_recv}

-- No line feed.
abbrev pub NoFeed : Bytes → Type 0
NoFeed [] = Unit {0}
NoFeed (c ∷ cs) = (c ≢ 10) × NoFeed cs

-- A line that is handled as it is.
abbrev pub Plain : Bytes → Type 0
Plain line = NoFeed line × (without_cr line ≡ line) × (length line ≢ 0)

abbrev pub AllPlain : List Bytes → Type 0
AllPlain [] = Unit {0}
AllPlain (l ∷ ls) = Plain l × AllPlain ls

-- The lines, each with its line feed, and what stands behind the last one.
abbrev pub join : List Bytes → Bytes → Bytes
join [] tail = tail
join (l ∷ ls) tail = l ++ (10 ∷ join ls tail)

abbrev connection : Bytes → List Bytes → Connection
connection buf handled = record { buf = buf; handled = handled; closed = false }

first_line-line :
    (line rest : Bytes) → NoFeed line → first_line (line ++ (10 ∷ rest)) ≡ some (line, rest)
first_line-line [] rest h = refl
first_line-line (c ∷ cs) rest (ne, h) =
    let other : (c == 10) ≡ false = ground arith in rw (other, first_line-line cs rest h) refl

first_line-none : (tail : Bytes) → NoFeed tail → first_line tail ≡ none
first_line-none [] h = refl
first_line-none (c ∷ cs) (ne, h) =
    let other : (c == 10) ≡ false = ground arith in rw (other, first_line-none cs h) refl

length-join : (ls : List Bytes) (tail : Bytes) → length ls ≤ length (join ls tail)
length-join [] tail = omega arith
length-join (l ∷ ls) tail =
    let ih = length-join ls tail in omega (arith, length-append l (10 ∷ join ls tail))

take_none :
    (f : ℕ) (tail : Bytes) (handled : List Bytes)
    → first_line tail ≡ none
    → take_lines f tail handled ≡ record { buf = tail; handled = handled; closed = false }
unfolding take_lines
take_none zero tail handled e = refl
take_none (suc f) tail handled e = rw (e, take_lines) refl

take_some :
    (f : ℕ) (buf line rest : Bytes) (handled : List Bytes)
    → first_line buf ≡ some (line, rest)
    → without_cr line ≡ line
    → length line ≢ 0
    → take_lines (suc f) buf handled ≡ take_lines f rest (handled ++ line ∷ [])
unfolding take_lines
take_some f buf line rest handled e plain ne =
    let some_text : (length line == 0) ≡ false = ground arith in
    rw (e, take_lines) (rw (plain, some_text) refl)

take_lines-join :
    (f : ℕ) (ls : List Bytes) (tail : Bytes) (handled : List Bytes)
    → length ls ≤ f
    → AllPlain ls
    → NoFeed tail
    → take_lines f (join ls tail) handled
      ≡ record { buf = tail; handled = handled ++ ls; closed = false }
take_lines-join f [] tail handled le h k =
    take_none f tail handled (first_line-none tail k)
    ∙ ap (λ (hs : List Bytes). connection tail hs) (sym (append-nil handled))
take_lines-join zero (l ∷ ls) tail handled le h k = absurd (omega arith)
take_lines-join (suc f) (l ∷ ls) tail handled le ((feed, cr, ne), h) k =
    take_some f (join (l ∷ ls) tail) l (join ls tail) handled
      (first_line-line l (join ls tail) feed) cr ne
    ∙ take_lines-join f ls tail (handled ++ l ∷ []) (omega arith) h k
    ∙ ap (λ (hs : List Bytes). connection tail hs) (append_assoc handled (l ∷ []) ls)

-- On a connection that is not closed, what has arrived, with what was still incomplete before, is any number of lines that are not empty
-- and do not end in a carriage return, and the start of a line that is not too long: these lines are
-- handled, in order, behind those before, and the start is kept.
pub on_recv-lines :
    (ls : List Bytes) (tail chunk : Bytes) (c : Connection)
    → AllPlain ls
    → NoFeed tail
    → length tail ≤ 65536
    → c.closed ≡ false
    → c.buf ++ chunk ≡ join ls tail
    → on_recv chunk c ≡ record { buf = tail; handled = c.handled ++ ls; closed = false }
unfolding on_recv
on_recv-lines ls tail chunk c plain feed short open_yet e =
    let fits : ltb 65536 (length tail) ≡ false = ground arith in
    let taken =
      ap (λ b. take_lines (length b) b c.handled) e
      ∙ take_lines-join (length (join ls tail)) ls tail c.handled (length-join ls tail) plain
          feed in
    rw (open_yet, taken, fits) refl

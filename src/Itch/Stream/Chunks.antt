-- ===== src/Itch/Stream/Chunks.antt =====
-- The chunks that inflate() delivers do not matter: the carry-over of `GzipSource::run` parses what
-- one walk over the whole decompressed file would.
use itch_lob_engine.Base.{
  ◌+◌, ◌≤◌, ◌≡◌, ◌∙◌, ◌∷◌, ◌++◌, ◌==◌, if◌then◌else◌, ℕ, suc, refl, sym, ap, subst, true, none,
  some, List, [], arith, ltb, length, take, drop, append-nil, append_assoc, length-append,
  length-drop, length-take_le, drop-add, drop-append_le,
}
use itch_lob_engine.Itch.Wire.{Bytes}
use itch_lob_engine.Itch.Messages.{Call}
use itch_lob_engine.Itch.Stream.{
  frame_size, parse_from, parse_stream, frame_boundary, boundary_from, Progress, absorb, on_chunk,
  on_chunks, run,
}
use itch_lob_engine.Base.{append_assoc, append-nil, drop-add, drop-append_le}
use itch_lob_engine.Itch.Stream.Frames.{
  boundary_from-append, boundary_from-fuel, boundary_from-none, boundary_from-le,
  boundary_from-rest, parse_from-fuel, parse_from-acc, parse_from-take, parse_from-append,
  parse_from-none,
}

-- What one walk over a buffer leaves behind.
abbrev pub rest : Bytes → Bytes
rest bs = drop (frame_boundary bs) bs

rest-none : (bs : Bytes) → frame_size bs ≡ none → rest bs ≡ bs
unfolding frame_boundary
rest-none bs e = ap (λ k. drop k bs) (boundary_from-none (length bs) bs e)

rest-append : (a b : Bytes) → rest (a ++ b) ≡ rest (rest a ++ b)
unfolding frame_boundary
rest-append a b =
    let k : ℕ = boundary_from (length a) a 0 in
    let left : Bytes = drop k a ++ b in
    let short : length left ≤ length (a ++ b) =
      omega (arith, length-append (drop k a) b, length-append a b, length-drop k a) in
    ap (λ n. drop n (a ++ b))
      (boundary_from-append (length a) (length (a ++ b)) a b (omega arith) (omega arith))
    ∙ drop-add k (boundary_from (length (a ++ b)) left 0) (a ++ b)
    ∙ ap (drop (boundary_from (length (a ++ b)) left 0))
        (drop-append_le k a b (boundary_from-le (length a) a))
    ∙ ap (λ n. drop n left)
        (boundary_from-fuel (length (a ++ b)) (length left) left short (omega arith))

-- The decompressed file.
unfoldable pub concat : List Bytes → Bytes
concat [] = []
concat (c ∷ cs) = c ++ concat cs

module _ {S : Type 0} (handle : Call → S → S) where
  parse_stream-take :
      (bs : Bytes) (s : S)
      → parse_stream handle (take (frame_boundary bs) bs) s ≡ parse_stream handle bs s
  unfolding parse_stream frame_boundary
  parse_stream-take bs s =
      parse_from-fuel handle _ (length bs) (take (boundary_from (length bs) bs 0) bs) s 0
        (omega arith)
        (omega (
          arith,
          length-take_le (boundary_from (length bs) bs 0) bs,
          boundary_from-le (length bs) bs,
        ))
      ∙ parse_from-take handle (length bs) bs s 0

  -- A walk over two pieces: the first, then what it left together with the second.
  parse_stream-append :
      (a b : Bytes) (s : S)
      → parse_stream handle (a ++ b) s ≡ (
          let (n, s') = parse_stream handle a s in
          let (n', s'') = parse_stream handle (drop (frame_boundary a) a ++ b) s' in (n + n', s''))
  unfolding parse_stream frame_boundary
  parse_stream-append a b s =
      let left : Bytes = drop (boundary_from (length a) a 0) a ++ b in
      let one : ℕ × S = parse_from handle (length a) a s 0 in
      let short : length left ≤ length (a ++ b) = omega (
        arith,
        length-append (drop (boundary_from (length a) a 0) a) b,
        length-append a b,
        length-drop (boundary_from (length a) a 0) a,
      ) in
      parse_from-append handle (length a) (length (a ++ b)) a b s 0 (omega arith) (omega arith)
      ∙ parse_from-fuel handle (length (a ++ b)) (length left) left one.1 one.0 short (omega arith)
      ∙ parse_from-acc handle (length left) left one.1 one.0

  -- What is left of a piece has no complete frame.
  left-incomplete : (bs : Bytes) → frame_size (drop (frame_boundary bs) bs) ≡ none
  unfolding frame_boundary
  left-incomplete bs = boundary_from-rest (length bs) bs (omega arith)

  frame_size-nil : frame_size [] ≡ none
  unfolding frame_size
  frame_size-nil = refl

  parse_stream-none :
      (bs : Bytes) (s : S) → frame_size bs ≡ none → parse_stream handle bs s ≡ (0, s)
  unfolding parse_stream
  parse_stream-none bs s e = parse_from-none handle (length bs) bs s 0 e

  -- The run so far and the bytes to come give what one walk over both gives.
  abbrev total : Progress S → Bytes → ℕ × S
  total st b = let (n, s) = parse_stream handle (st.pending ++ b) st.handler in (st.frames + n, s)

  absorb-total :
      (p b : Bytes) (st : Progress S)
      → total (absorb handle p st) b
        ≡ (let (n, s) = parse_stream handle (p ++ b) st.handler in (st.frames + n, s))
  unfolding absorb
  absorb-total p b st =
      ground (arith, parse_stream-take p st.handler, parse_stream-append p b st.handler)

  on_chunk-cons :
      (x : ℕ) (c : Bytes) (st : Progress S)
      → on_chunk handle (x ∷ c) st
        ≡ absorb handle (st.pending ++ (x ∷ c)) (record st { bytes = st.bytes + suc (length c) })
  unfolding on_chunk
  on_chunk-cons x c st =
      let some_bytes : ltb 0 (suc (length c)) ≡ true = ground arith in rw some_bytes

  on_chunk-total :
      (c b : Bytes) (st : Progress S) → total (on_chunk handle c st) b ≡ total st (c ++ b)
  unfolding on_chunk
  on_chunk-total [] b st = refl
  on_chunk-total (x ∷ c) b st =
      ap (λ (t : Progress S). total t b) (on_chunk-cons x c st)
      ∙ absorb-total (st.pending ++ (x ∷ c)) b (record st { bytes = st.bytes + suc (length c) })
      ∙ ap (λ bs. let (n, s) = parse_stream handle bs st.handler in (st.frames + n, s))
          (append_assoc st.pending (x ∷ c) b)

  pending-absorb : (p : Bytes) (st : Progress S) → (absorb handle p st).pending ≡ rest p
  unfolding absorb
  pending-absorb p st = refl

  -- What the loop carries is what one walk over the same bytes would leave.
  on_chunk-pending :
      (c b : Bytes) (st : Progress S)
      → rest ((on_chunk handle c st).pending ++ b) ≡ rest (st.pending ++ (c ++ b))
  unfolding on_chunk
  on_chunk-pending [] b st = refl
  on_chunk-pending (x ∷ c) b st =
      ap (λ (t : Progress S). rest (t.pending ++ b)) (on_chunk-cons x c st)
      ∙ ap (λ p. rest (p ++ b))
          (pending-absorb (st.pending ++ (x ∷ c)) (record st { bytes = st.bytes + suc (length c) }))
      ∙ sym (rest-append (st.pending ++ (x ∷ c)) b)
      ∙ ap rest (append_assoc st.pending (x ∷ c) b)

  on_chunks-total :
      (cs : List Bytes) (st : Progress S) → total (on_chunks handle cs st) [] ≡ total st (concat cs)
  unfolding on_chunks concat
  on_chunks-total [] st = refl
  on_chunks-total (c ∷ cs) st =
      on_chunks-total cs (on_chunk handle c st) ∙ on_chunk-total c (concat cs) st

  on_chunks-pending :
      (cs : List Bytes) (st : Progress S)
      → rest ((on_chunks handle cs st).pending ++ []) ≡ rest (st.pending ++ concat cs)
  unfolding on_chunks concat
  on_chunks-pending [] st = refl
  on_chunks-pending (c ∷ cs) st =
      on_chunks-pending cs (on_chunk handle c st) ∙ on_chunk-pending c (concat cs) st

  -- No complete frame is ever carried over.
  on_chunk-incomplete :
      (c : Bytes) (st : Progress S)
      → frame_size st.pending ≡ none
      → frame_size (on_chunk handle c st).pending ≡ none
  unfolding on_chunk absorb
  on_chunk-incomplete [] st h = h
  on_chunk-incomplete (x ∷ c) st h =
      subst (λ (t : Progress S). frame_size t.pending ≡ none) (sym (on_chunk-cons x c st))
        (subst (λ bs. frame_size bs ≡ none)
          (sym (
            pending-absorb (st.pending ++ (x ∷ c))
              (record st { bytes = st.bytes + suc (length c) })))
          (left-incomplete (st.pending ++ (x ∷ c))))

  on_chunks-incomplete :
      (cs : List Bytes) (st : Progress S)
      → frame_size st.pending ≡ none
      → frame_size (on_chunks handle cs st).pending ≡ none
  unfolding on_chunks
  on_chunks-incomplete [] st h = h
  on_chunks-incomplete (c ∷ cs) st h =
      on_chunks-incomplete cs (on_chunk handle c st) (on_chunk-incomplete c st h)

  -- However the decompressed bytes are cut into chunks, the run throws exactly where one walk over
  -- all of them would leave bytes behind, and otherwise makes the callbacks of `parse_stream` on all
  -- of them and returns its frame count.
  pub run-concat :
      (cs : List Bytes) (s : S)
      → run handle cs s ≡ (
          if length (rest (concat cs)) == 0 then some (parse_stream handle (concat cs) s) else none)
  unfolding run
  run-concat cs s =
      let start : Progress S = record { pending = []; frames = 0; bytes = 0; handler = s } in
      let st : Progress S = on_chunks handle cs start in
      let idle : parse_stream handle (st.pending ++ []) st.handler ≡ (0, st.handler) =
        parse_stream-none (st.pending ++ []) st.handler (
          subst (λ bs. frame_size bs ≡ none) (sym (append-nil st.pending))
            (on_chunks-incomplete cs start frame_size-nil)) in
      let left : st.pending ≡ rest (concat cs) =
        sym (rest-none st.pending (on_chunks-incomplete cs start frame_size-nil))
        ∙ ap rest (sym (append-nil st.pending))
        ∙ on_chunks-pending cs start in
      ground (arith, idle, left, on_chunks-total cs start)

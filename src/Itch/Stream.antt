-- ===== src/Itch/Stream.antt =====
-- `parse_stream` of include/itch/parser.hpp, and `frame_boundary` and the decompression loop of
-- include/io/gzip_source.hpp, which walk the same frames. The offset of the source is what has been
-- dropped from the front of the list here.
pub mod Frames
pub mod RoundTrip
pub mod Chunks
use itch_lob_engine.Base.{
  ◌^◌, ◌*◌, ◌/◌, ◌%◌, ◌-◌, ◌+◌, ◌≤◌, ◌<◌, ◌≡◌, ◌≢◌, ◌↔◌, ◌⊎◌, ◌&&◌, ◌||◌, ◌∙◌, ◌∷◌, ◌++◌, ◌==◌,
  if◌then◌else◌, ℕ, zero, suc, min, max, refl, sym, ap, ap₂, subst, inl, inr, Bool, true, false,
  not, Option, none, some, List, [], map, arith, ltb, leb, length, get_or, set, take, drop,
  replicate, append-nil, append_assoc, Bool-cases, Option-cases, length-append, length-set,
  length-replicate, get_or-set_self, get_or-set_ne, get_or-replicate, ==→≡, ≡→==, ==→≢, ≢→==,
  length-drop, length-take_le, drop-nil, take-nil, drop-add, drop-take_add, take-take_le,
  get_or-take, take-append_le, drop-append_le, get_or-append,
}
use itch_lob_engine.Itch.Wire.{Bytes, be16}
use itch_lob_engine.Itch.Messages.{Call}
use itch_lob_engine.Itch.Dispatch.{dispatch}

-- The payload length of the frame at the front: none where the loops stop, on a partial length
-- prefix, a zero length or a partial payload.
unfoldable pub frame_size : Bytes → Option ℕ
unfolding be16
frame_size bs =
    if ltb (length bs) 2
    then none
    else if be16 bs 0 == 0 || ltb (length bs) (2 + be16 bs 0)
    then none
    else some (be16 bs 0)

-- The `mlen` bytes of the payload.
abbrev pub payload : ℕ → Bytes → Bytes
payload mlen bs = take mlen (drop 2 bs)

abbrev pub after : ℕ → Bytes → Bytes
after mlen bs = drop (2 + mlen) bs

-- A handler is what its callbacks do to its state.
module _ {S : Type 0} (handle : Call → S → S) where
  unfoldable pub parse_from : ℕ → Bytes → S → ℕ → ℕ × S
  unfolding frame_size
  parse_from zero bs s count = (count, s)
  parse_from (suc fuel) bs s count = elim (frame_size bs) [
    | none ↦ (count, s)
    | some mlen ↦
        parse_from fuel (after mlen bs) (handle (dispatch (payload mlen bs)).1 s) (count + 1)
  ]

  -- Each frame takes three bytes at least, so the length is fuel enough.
  unfoldable pub parse_stream : Bytes → S → ℕ × S
  unfolding parse_from
  parse_stream bs s = parse_from (length bs) bs s 0

unfoldable pub boundary_from : ℕ → Bytes → ℕ → ℕ
unfolding frame_size
boundary_from zero bs off = off
boundary_from (suc fuel) bs off = elim (frame_size bs) [
  | none ↦ off
  | some mlen ↦ boundary_from fuel (after mlen bs) (off + (2 + mlen))
]

unfoldable pub frame_boundary : Bytes → ℕ
unfolding boundary_from
frame_boundary bs = boundary_from (length bs) bs 0

-- What `run` carries from chunk to chunk.
pub record Progress (S : Type 0) : Type 0 where
  pub pending : Bytes
  pub frames : ℕ
  pub bytes : ℕ
  pub handler : S

module _ {S : Type 0} (handle : Call → S → S) where
  -- What has piled up is parsed as far as its frames are complete.
  unfoldable pub absorb : Bytes → Progress S → Progress S
  unfolding frame_boundary parse_stream
  absorb pending st =
      let complete : ℕ = frame_boundary pending in
      let (n, s) = parse_stream handle (take complete pending) st.handler in
      record {
        pending = drop complete pending;
        frames = st.frames + n;
        bytes = st.bytes;
        handler = s;
      }

  -- One round of the inner loop, on the bytes that inflate() has produced.
  unfoldable pub on_chunk : Bytes → Progress S → Progress S
  unfolding absorb
  on_chunk chunk st =
      if ltb 0 (length chunk)
      then absorb (st.pending ++ chunk) (record st { bytes = st.bytes + length chunk })
      else st

  unfoldable pub on_chunks : List Bytes → Progress S → Progress S
  unfolding on_chunk
  on_chunks [] st = st
  on_chunks (c ∷ cs) st = on_chunks cs (on_chunk c st)

  -- The run on a stream that inflate() delivers to its end in these chunks: `none` where it throws
  -- for a trailing partial frame.
  unfoldable pub run : List Bytes → S → Option (ℕ × S)
  unfolding on_chunks
  run chunks s =
      let st : Progress S =
        on_chunks chunks (record { pending = []; frames = 0; bytes = 0; handler = s }) in
      if length st.pending == 0 then some (st.frames, st.handler) else none

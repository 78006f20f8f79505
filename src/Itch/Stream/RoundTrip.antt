-- ===== src/Itch/Stream/RoundTrip.antt =====
-- `parse_stream` of a framed stream makes the callbacks of its messages, in order.
use itch_lob_engine.Base.{
  append_assoc, drop-add, ◌^◌, ◌%◌, ◌+◌, ◌≤◌, ◌<◌, ◌≡◌, ◌∙◌, ◌∷◌, ◌++◌, ℕ, zero, suc, refl, ap, ap₂,
  Bool, none, some, List, [], arith, length, take, drop, append_assoc, length-append, drop-add,
}
use itch_lob_engine.Itch.Wire.{Bytes, be16, put_be16, octets16}
use itch_lob_engine.Itch.Messages.{Call}
use itch_lob_engine.Itch.Dispatch.{dispatch}
use itch_lob_engine.Itch.Encode.{frame, stream}
use itch_lob_engine.Itch.Encode.RoundTrip.{
  Message, MessageFits, encode, call_of, dispatch-encode, length-encode,
}
use itch_lob_engine.Itch.Stream.{frame_size, payload, after, parse_from, parse_stream}
use itch_lob_engine.Itch.Stream.Frames.{parse_from-some, parse_from-none}

take-append_len : (xs ys : Bytes) → take (length xs) (xs ++ ys) ≡ xs
take-append_len [] ys = refl
take-append_len (x ∷ xs) ys = ap (◌∷◌ x) (take-append_len xs ys)

drop-append_len : (xs ys : Bytes) → drop (length xs) (xs ++ ys) ≡ ys
drop-append_len [] ys = refl
drop-append_len (x ∷ xs) ys = drop-append_len xs ys

-- The front of a framed payload: its size, its bytes and what follows it.
pub frame_size-frame :
    (m rest : Bytes)
    → 0 < length m
    → length m < 2 ^ 16
    → frame_size (frame m ++ rest) ≡ some (length m)
unfolding frame_size be16 frame put_be16
frame_size-frame m rest h k =
    ground (arith, octets16 (length m % 2 ^ 16) (omega arith), length-append m rest)

payload-frame : (m rest : Bytes) → payload (length m) (frame m ++ rest) ≡ m
unfolding frame put_be16
payload-frame m rest = take-append_len m rest

pub after-frame : (m rest : Bytes) → after (length m) (frame m ++ rest) ≡ rest
unfolding frame put_be16
after-frame m rest = drop-add 2 (length m) (frame m ++ rest) ∙ drop-append_len m rest

pub length-frame : (m rest : Bytes) → length (frame m ++ rest) ≡ 2 + length m + length rest
unfolding frame put_be16
length-frame m rest = omega (arith, length-append m rest)

-- All messages fit the wire.
abbrev pub AllFit : List Message → Type 0
AllFit [] = Unit {0}
AllFit (m ∷ ms) = MessageFits m × AllFit ms

abbrev pub encode_all : List Message → List Bytes
encode_all [] = []
encode_all (m ∷ ms) = encode m ∷ encode_all ms

module _ {S : Type 0} (handle : Call → S → S) where
  -- The callbacks of the messages, in order.
  abbrev pub handle_all : List Message → S → S
  handle_all [] s = s
  handle_all (m ∷ ms) s = handle_all ms (handle (call_of m) s)

  parse_from-stream :
      (ms : List Message) (tail : Bytes) (f : ℕ) (s : S) (c : ℕ)
      → AllFit ms
      → frame_size tail ≡ none
      → length (stream (encode_all ms) ++ tail) ≤ f
      → parse_from handle f (stream (encode_all ms) ++ tail) s c ≡ (c + length ms, handle_all ms s)
  unfolding stream
  parse_from-stream [] tail f s c fit cut h =
      parse_from-none handle f tail s c cut ∙ ap (λ n. (n, s)) (omega arith)
  parse_from-stream (m ∷ ms) tail zero s c fit cut h = absurd (
      omega (
        arith,
        ap length (append_assoc (frame (encode m)) (stream (encode_all ms)) tail),
        length-frame (encode m) (stream (encode_all ms) ++ tail),
      ))
  parse_from-stream (m ∷ ms) tail (suc f) s c fit cut h =
      let rest : Bytes = stream (encode_all ms) ++ tail in
      let whole : (frame (encode m) ++ stream (encode_all ms)) ++ tail ≡ frame (encode m) ++ rest =
        append_assoc (frame (encode m)) (stream (encode_all ms)) tail in
      let size = length-encode m in
      let short : length rest ≤ f = omega (arith, ap length whole, length-frame (encode m) rest) in
      ap (λ bs. parse_from handle (suc f) bs s c) whole
      ∙ parse_from-some handle f (frame (encode m) ++ rest) s c (length (encode m))
          (frame_size-frame (encode m) rest size.0 size.1)
      ∙ ap₂ (λ p r. parse_from handle f r (handle (dispatch p).1 s) (c + 1))
          (payload-frame (encode m) rest) (after-frame (encode m) rest)
      ∙ ap (λ (d : Bool × Call). parse_from handle f rest (handle d.1 s) (c + 1))
          (dispatch-encode m fit.0)
      ∙ parse_from-stream ms tail f (handle (call_of m) s) (c + 1) fit.1 cut short
      ∙ ap (λ n. (n, handle_all ms (handle (call_of m) s))) (omega arith)

  -- A stream of messages that fit the wire, with at most an incomplete frame behind it, makes the
  -- callbacks of exactly these messages, in order, and counts them.
  pub parse_stream-stream :
      (ms : List Message) (tail : Bytes) (s : S)
      → AllFit ms
      → frame_size tail ≡ none
      → parse_stream handle (stream (encode_all ms) ++ tail) s ≡ (length ms, handle_all ms s)
  unfolding parse_stream
  parse_stream-stream ms tail s fit cut =
      parse_from-stream ms tail (length (stream (encode_all ms) ++ tail)) s 0 fit cut (omega arith)
      ∙ ap (λ n. (n, handle_all ms s)) (omega arith)

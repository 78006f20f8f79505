-- ===== src/Itch/Tests.antt =====
-- Small byte streams: each theorem on one concrete stream.
use itch_lob_engine.Base.{
  ◌≡◌, ◌∷◌, ◌++◌, ◌==◌, if◌then◌else◌, refl, true, none, some, List, [], arith, length,
}
use itch_lob_engine.Itch.Messages.{Call}
use itch_lob_engine.Itch.Dispatch.{dispatch}
use itch_lob_engine.Itch.Encode.{stream}
use itch_lob_engine.Itch.Encode.RoundTrip.{
  Message, adds, deletes, MessageFits, encode, call_of, dispatch-encode,
}
use itch_lob_engine.Itch.Wire.{Bytes}
use itch_lob_engine.Itch.Stream.{frame_size, parse_stream, run}
use itch_lob_engine.Itch.Stream.RoundTrip.{encode_all, handle_all, parse_stream-stream}
use itch_lob_engine.Itch.Stream.Chunks.{rest, concat, run-concat}

abbrev bought : Message
bought = adds 7 34_200_000_000_000 501 66 300 (65 ∷ 65 ∷ 80 ∷ 76 ∷ []) 1_000_000

abbrev deleted : Message
deleted = deletes 7 34_200_000_000_001 501

abbrev collect : Call → List Call → List Call
collect c cs = c ∷ cs

bought-Fits : MessageFits bought
bought-Fits = (
  (omega arith, omega arith, omega arith),
  omega arith,
  (λ h. ground arith, (λ h. ground arith, (λ h. ground arith, (λ h. ground arith, tt)))),
  omega arith,
  omega arith,
)

dispatch-encode_example : dispatch (encode bought) ≡ (true, call_of bought)
dispatch-encode_example = dispatch-encode bought bought-Fits

-- Two messages, and the first byte of a third.
cut_short : frame_size (0 ∷ []) ≡ none
unfolding frame_size
cut_short = refl

parse_stream-stream_example :
    parse_stream collect (stream (encode_all (bought ∷ deleted ∷ [])) ++ 0 ∷ []) []
    ≡ (2, handle_all collect (bought ∷ deleted ∷ []) [])
parse_stream-stream_example =
    parse_stream-stream collect (bought ∷ deleted ∷ []) (0 ∷ []) []
      (bought-Fits, ((omega arith, omega arith, omega arith), tt)) cut_short

-- A deletion of 19 bytes, cut within its length prefix and within its payload.
abbrev chunks : List Bytes
chunks = (0 ∷ []) ∷ (19 ∷ 68 ∷ 0 ∷ 7 ∷ []) ∷ (0 ∷ 0 ∷ 0 ∷ []) ∷ []

run-concat_example : run collect chunks [] ≡ (
    if length (rest (concat chunks)) == 0
    then some (parse_stream collect (concat chunks) [])
    else none)
run-concat_example = run-concat collect chunks []

-- ===== src/Itch/Dispatch.antt =====
-- `dispatch` of include/itch/parser.hpp. The callback that it makes is part of its result.
use itch_lob_engine.Base.{
  ◌+◌, ◌||◌, ◌∷◌, ◌==◌, if◌then◌else◌, ℕ, zero, suc, Bool, true, false, Option, none, some, [],
  length, set,
}
use itch_lob_engine.Itch.Wire.{Bytes, byte, be16, be32, be48, be64}
use itch_lob_engine.Itch.Messages.{
  Header, Call, on_add, on_execute, on_execute_price, on_cancel, on_delete, on_replace, on_other,
  wire_size,
}

unfoldable pub header : Bytes → Header
unfolding be16 be48
header p = record { locate = be16 p 1; timestamp = be48 p 5 }

-- The loop that overwrites trailing spaces with NUL, from index `i - 1` down.
unfoldable pub trim : ℕ → Bytes → Bytes
trim zero dst = dst
trim (suc i) dst = let rest = trim i (set dst i 0) in if byte dst i == b' ' then rest else dst

-- Eight bytes from `i`, trimmed, and the NUL behind them.
unfoldable pub copy_stock : Bytes → ℕ → Bytes
unfolding trim
copy_stock p i = trim 8 (
    byte p i
    ∷ byte p (i + 1)
    ∷ byte p (i + 2)
    ∷ byte p (i + 3)
    ∷ byte p (i + 4)
    ∷ byte p (i + 5)
    ∷ byte p (i + 6)
    ∷ byte p (i + 7)
    ∷ 0
    ∷ [])

-- The switch on a type whose length is as it should be.
unfoldable pub decode : ℕ → Bytes → Call
unfolding header copy_stock be32 be64
decode type p =
    if type == b'A' || type == b'F'
    then on_add (record {
      hdr = header p;
      ref = be64 p 11;
      side = byte p 19;
      shares = be32 p 20;
      stock = copy_stock p 24;
      price = be32 p 32;
    })
    else if type == b'E'
    then on_execute
        (record { hdr = header p; ref = be64 p 11; shares = be32 p 19; match = be64 p 23 })
    else if type == b'C'
    then on_execute_price (record {
      hdr = header p;
      ref = be64 p 11;
      shares = be32 p 19;
      match = be64 p 23;
      printable = byte p 31 == b'Y';
      price = be32 p 32;
    })
    else if type == b'X'
    then on_cancel (record { hdr = header p; ref = be64 p 11; canceled = be32 p 19 })
    else if type == b'D'
    then on_delete (record { hdr = header p; ref = be64 p 11 })
    else on_replace (record {
      hdr = header p;
      orig_ref = be64 p 11;
      new_ref = be64 p 19;
      shares = be32 p 27;
      price = be32 p 31;
    })

abbrev pub is_size : Option ℕ → ℕ → Bool
is_size none len = false
is_size (some n) len = n == len

-- The payload is exactly the frame, so its length is the `len` that is passed along.
unfoldable pub dispatch : Bytes → Bool × Call
unfolding wire_size decode
dispatch p =
    let type : ℕ = byte p 0 in
    if is_size (wire_size type) (length p)
    then (true, decode type p)
    else (false, on_other type (length p))

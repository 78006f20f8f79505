-- ===== src/Itch/Wire.antt =====
-- The big-endian reads of include/itch/messages.hpp and the writes of include/itch/encode.hpp. A
-- buffer is a list of bytes; the bytes that `|` joins do not overlap, so it is written as a sum.
use itch_lob_engine.Base.{◌^◌, ◌*◌, ◌/◌, ◌%◌, ◌+◌, ◌<◌, ◌≡◌, ◌∷◌, ℕ, List, [], arith, get_or}

abbrev pub Bytes : Type 0
Bytes = List ℕ

-- `p[i]`
abbrev pub byte : Bytes → ℕ → ℕ
byte p i = get_or p i 0

unfoldable pub be16 : Bytes → ℕ → ℕ
be16 p i = byte p i * 2 ^ 8 + byte p (i + 1)

unfoldable pub be32 : Bytes → ℕ → ℕ
be32 p i = byte p i * 2 ^ 24 + byte p (i + 1) * 2 ^ 16 + byte p (i + 2) * 2 ^ 8 + byte p (i + 3)

unfoldable pub be48 : Bytes → ℕ → ℕ
unfolding be16 be32
be48 p i = be16 p i * 2 ^ 32 + be32 p (i + 2)

unfoldable pub be64 : Bytes → ℕ → ℕ
unfolding be32
be64 p i = be32 p i * 2 ^ 32 + be32 p (i + 4)

-- `static_cast<std::uint8_t>(x >> s)`
abbrev pub octet : ℕ → ℕ → ℕ
octet x s = x / 2 ^ s % 2 ^ 8

-- `encode::be16` and its kin, which append to the message.
unfoldable pub put_be16 : ℕ → Bytes
put_be16 x = octet x 8 ∷ octet x 0 ∷ []

unfoldable pub put_be32 : ℕ → Bytes
put_be32 x = octet x 24 ∷ octet x 16 ∷ octet x 8 ∷ octet x 0 ∷ []

unfoldable pub put_be48 : ℕ → Bytes
put_be48 x = octet x 40 ∷ octet x 32 ∷ octet x 24 ∷ octet x 16 ∷ octet x 8 ∷ octet x 0 ∷ []

unfoldable pub put_be64 : ℕ → Bytes
put_be64 x =
    octet x 56
    ∷ octet x 48
    ∷ octet x 40
    ∷ octet x 32
    ∷ octet x 24
    ∷ octet x 16
    ∷ octet x 8
    ∷ octet x 0
    ∷ []

-- Every integer is read back as it was written.
pub octets16 : (x : ℕ) → x < 2 ^ 16 → octet x 8 * 2 ^ 8 + octet x 0 ≡ x
octets16 x h = omega arith

pub octets32 :
    (x : ℕ)
    → x < 2 ^ 32
    → octet x 24 * 2 ^ 24 + octet x 16 * 2 ^ 16 + octet x 8 * 2 ^ 8 + octet x 0 ≡ x
octets32 x h = omega arith

pub octets48 :
    (x : ℕ)
    → x < 2 ^ 48
    → (octet x 40 * 2 ^ 8 + octet x 32) * 2 ^ 32
        + (octet x 24 * 2 ^ 24 + octet x 16 * 2 ^ 16 + octet x 8 * 2 ^ 8 + octet x 0)
      ≡ x
octets48 x h = omega arith

pub octets64 :
    (x : ℕ)
    → x < 2 ^ 64
    → (octet x 56 * 2 ^ 24 + octet x 48 * 2 ^ 16 + octet x 40 * 2 ^ 8 + octet x 32) * 2 ^ 32
        + (octet x 24 * 2 ^ 24 + octet x 16 * 2 ^ 16 + octet x 8 * 2 ^ 8 + octet x 0)
      ≡ x
octets64 x h = omega arith

-- ===== src/Itch/Encode.antt =====
-- The encoders of include/itch/encode.hpp.
pub mod RoundTrip
use itch_lob_engine.Base.{
  ◌^◌, ◌*◌, ◌/◌, ◌%◌, ◌-◌, ◌+◌, ◌≤◌, ◌<◌, ◌≡◌, ◌≢◌, ◌↔◌, ◌⊎◌, ◌&&◌, ◌||◌, ◌∙◌, ◌∷◌, ◌++◌, ◌==◌,
  if◌then◌else◌, ℕ, zero, suc, min, max, refl, sym, ap, ap₂, subst, inl, inr, Bool, true, false,
  not, Option, none, some, List, [], map, arith, ltb, leb, length, get_or, set, take, drop,
  replicate, append-nil, append_assoc, Bool-cases, Option-cases, length-append, length-set,
  length-replicate, get_or-set_self, get_or-set_ne, get_or-replicate, ==→≡, ≡→==, ==→≢, ≢→==,
}
use itch_lob_engine.Itch.Wire.{Bytes, byte, put_be16, put_be32, put_be48, put_be64}

-- `i < s.size() ? s[i] : ' '`
abbrev pub or_space : Bytes → ℕ → ℕ
or_space s i = get_or s i b' '

unfoldable pub stock8 : Bytes → Bytes
stock8 s =
    or_space s 0
    ∷ or_space s 1
    ∷ or_space s 2
    ∷ or_space s 3
    ∷ or_space s 4
    ∷ or_space s 5
    ∷ or_space s 6
    ∷ or_space s 7
    ∷ []

unfoldable pub header : ℕ → ℕ → ℕ → Bytes
unfolding put_be16 put_be48
header type locate ts = type ∷ put_be16 locate ++ put_be16 0 ++ put_be48 ts

unfoldable pub add_order : ℕ → ℕ → ℕ → ℕ → ℕ → Bytes → ℕ → Bytes
unfolding header put_be64 put_be32 stock8
add_order locate ts ref side shares stock price =
    header b'A' locate ts
    ++ put_be64 ref
    ++ side ∷ []
    ++ put_be32 shares
    ++ stock8 stock
    ++ put_be32 price

unfoldable pub executed : ℕ → ℕ → ℕ → ℕ → ℕ → Bytes
unfolding header put_be64 put_be32
executed locate ts ref shares match =
    header b'E' locate ts ++ put_be64 ref ++ put_be32 shares ++ put_be64 match

unfoldable pub executed_price : ℕ → ℕ → ℕ → ℕ → ℕ → Bool → ℕ → Bytes
unfolding header put_be64 put_be32
executed_price locate ts ref shares match printable price =
    header b'C' locate ts
    ++ put_be64 ref
    ++ put_be32 shares
    ++ put_be64 match
    ++ (if printable then b'Y' else b'N') ∷ []
    ++ put_be32 price

unfoldable pub cancel : ℕ → ℕ → ℕ → ℕ → Bytes
unfolding header put_be64 put_be32
cancel locate ts ref canceled = header b'X' locate ts ++ put_be64 ref ++ put_be32 canceled

unfoldable pub del : ℕ → ℕ → ℕ → Bytes
unfolding header put_be64
del locate ts ref = header b'D' locate ts ++ put_be64 ref

unfoldable pub replace : ℕ → ℕ → ℕ → ℕ → ℕ → ℕ → Bytes
unfolding header put_be64 put_be32
replace locate ts orig next shares price =
    header b'U' locate ts ++ put_be64 orig ++ put_be64 next ++ put_be32 shares ++ put_be32 price

-- The length is cast to a uint16_t.
unfoldable pub frame : Bytes → Bytes
unfolding put_be16
frame m = put_be16 (length m % 2 ^ 16) ++ m

unfoldable pub stream : List Bytes → Bytes
unfolding frame
stream [] = []
stream (m ∷ ms) = frame m ++ stream ms

-- ===== src/Net/Moldudp64.antt =====
-- include/net/moldudp64.hpp: the header of every packet of a session. A value of a width is below its
-- power of two.
use itch_lob_engine.Base.{
  ◌^◌, ◌*◌, ◌/◌, ◌%◌, ◌-◌, ◌+◌, ◌≤◌, ◌<◌, ◌≡◌, ◌&&◌, ◌∙◌, ◌∷◌, ◌++◌, ◌==◌, ℕ, zero, suc, min, refl,
  sym, ap, ap₂, Bool, true, [], arith, length, take, drop, replicate, append-nil, append_assoc,
  ≡→==, drop-add,
}
use native.Mathlib.Nat.{div-div-eq-div-mul, div-le_self, pow-suc}
use itch_lob_engine.Itch.Wire.{Bytes, byte, octet}

-- `kSessionLen`, `kHeaderLen`
abbrev pub session_len : ℕ
session_len = 10

abbrev pub header_len : ℕ
header_len = session_len + 8 + 2

-- `kHeartbeat`, `kEndOfSession`
abbrev pub heartbeat : ℕ
heartbeat = 0

abbrev pub end_of_session : ℕ
end_of_session = 0xffff

unfoldable pub make_session : Bytes → Bytes
make_session s =
    let n : ℕ = min (length s) session_len in take n s ++ replicate (session_len - n) b' '

-- `memcmp(a, b, n) == 0`
abbrev pub same_bytes : ℕ → Bytes → Bytes → Bool
same_bytes zero a b = true
same_bytes (suc n) a b = byte a 0 == byte b 0 && same_bytes n (drop 1 a) (drop 1 b)

unfoldable pub same_session : Bytes → Bytes → Bool
same_session a b = same_bytes session_len a b

pub record Header : Type 0 where
  pub session : Bytes
  pub seq : ℕ
  pub count : ℕ

-- The last `n` rounds of the loop of `put_be64`, for the shifts `8 * (n - 1)`, ..., 8, 0.
abbrev pub put_shifts : ℕ → ℕ → Bytes
put_shifts zero v = []
put_shifts (suc n) v = octet v (8 * n) ∷ put_shifts n v

unfoldable pub put_be64 : ℕ → Bytes
put_be64 v = put_shifts 8 v

unfoldable pub put_be16 : ℕ → Bytes
put_be16 v = octet v 8 ∷ octet v 0 ∷ []

-- `n` rounds of the loop of `get_be64`, on the bytes from `p` on.
abbrev pub get_shifts : ℕ → Bytes → ℕ → ℕ
get_shifts zero p v = v
get_shifts (suc n) p v = get_shifts n (drop 1 p) (v * 2 ^ 8 % 2 ^ 64 + byte p 0)

unfoldable pub get_be64 : Bytes → ℕ
get_be64 p = get_shifts 8 p 0

unfoldable pub get_be16 : Bytes → ℕ
get_be16 p = byte p 0 * 2 ^ 8 + byte p 1

unfoldable pub encode : Bytes → Header → Bytes
unfolding put_be64 put_be16
encode out h = out ++ (take session_len h.session ++ (put_be64 h.seq ++ put_be16 h.count))

unfoldable pub decode : Bytes → Header
unfolding get_be64 get_be16
decode p = record {
  session = take session_len p;
  seq = get_be64 (drop session_len p);
  count = get_be16 (drop (session_len + 8) p);
}

same_bytes_self : (n : ℕ) (a : Bytes) → same_bytes n a a ≡ true
same_bytes_self zero a = refl
same_bytes_self (suc n) a =
    ap₂ (λ b c. b && c) (≡→== (byte a 0) (byte a 0) refl) (same_bytes_self n (drop 1 a))

pub same_session_self : (a : Bytes) → same_session a a ≡ true
unfolding same_session
same_session_self a = same_bytes_self session_len a

pub take-append_len : (xs ys : Bytes) → take (length xs) (xs ++ ys) ≡ xs
take-append_len [] ys = refl
take-append_len (x ∷ xs) ys = ap (λ (zs : Bytes). x ∷ zs) (take-append_len xs ys)

pub drop-append_len : (xs ys : Bytes) → drop (length xs) (xs ++ ys) ≡ ys
drop-append_len [] ys = refl
drop-append_len (x ∷ xs) ys = drop-append_len xs ys

pow_next : (k i : ℕ) → 2 ^ (k + suc i) ≡ 2 ^ (k + i) * 2
pow_next k i =
    ap (λ e. 2 ^ e) (let e : k + suc i ≡ suc (k + i) = omega arith in e) ∙ pow-suc 2 (k + i)

pow_byte : (k : ℕ) → 2 ^ (k + 8) ≡ 2 ^ k * 2 ^ 8
pow_byte k =
    let start : 2 ^ (k + 0) ≡ 2 ^ k = ap (λ e. 2 ^ e) (omega arith) in
    omega (
      arith,
      start,
      pow_next k 0,
      pow_next k 1,
      pow_next k 2,
      pow_next k 3,
      pow_next k 4,
      pow_next k 5,
      pow_next k 6,
      pow_next k 7,
    )

-- One byte of the value more.
next_octet :
    (v n : ℕ)
    → v < 2 ^ 64
    → v / 2 ^ (8 * suc n) * 2 ^ 8 % 2 ^ 64 + octet v (8 * n) ≡ v / 2 ^ (8 * n)
next_octet v n h =
    let q : ℕ = v / 2 ^ (8 * n) in
    let up : v / 2 ^ (8 * suc n) ≡ q / 2 ^ 8 =
      ap (λ e. v / 2 ^ e) (let e : 8 * suc n ≡ 8 * n + 8 = omega arith in e)
      ∙ ap (λ d. v / d) (pow_byte (8 * n))
      ∙ sym (div-div-eq-div-mul v (2 ^ (8 * n)) (2 ^ 8)) in
    let low : q ≤ v = div-le_self v (2 ^ (8 * n)) in
    ap (λ x. x * 2 ^ 8 % 2 ^ 64 + octet v (8 * n)) up ∙ omega (arith, low)

get-put_shifts :
    (n v : ℕ) (rest : Bytes)
    → v < 2 ^ 64
    → get_shifts n (put_shifts n v ++ rest) (v / 2 ^ (8 * n)) ≡ v
get-put_shifts zero v rest h = omega arith
get-put_shifts (suc n) v rest h =
    ap (get_shifts n (put_shifts n v ++ rest)) (next_octet v n h) ∙ get-put_shifts n v rest h

get_be64-put_be64 : (v : ℕ) (rest : Bytes) → v < 2 ^ 64 → get_be64 (put_be64 v ++ rest) ≡ v
unfolding get_be64 put_be64
get_be64-put_be64 v rest h =
    let small : 0 ≡ v / 2 ^ (8 * 8) = omega arith in
    ap (get_shifts 8 (put_shifts 8 v ++ rest)) small ∙ get-put_shifts 8 v rest h

abbrev header_of : Bytes → ℕ → ℕ → Header
header_of s n c = record { session = s; seq = n; count = c }

header_eq : {s t : Bytes} {n m c d : ℕ} → s ≡ t → n ≡ m → c ≡ d → header_of s n c ≡ header_of t m d
header_eq e f g = λ i. header_of (e i) (f i) (g i)

module _ (s X : Bytes) (ten : length s ≡ session_len) where
  take_session : take session_len (s ++ X) ≡ s
  take_session = ap (λ n. take n (s ++ X)) (sym ten) ∙ take-append_len s X

  drop_session : drop session_len (s ++ X) ≡ X
  drop_session = ap (λ n. drop n (s ++ X)) (sym ten) ∙ drop-append_len s X

drop-put_be64 : (v : ℕ) (Y : Bytes) → drop 8 (put_be64 v ++ Y) ≡ Y
unfolding put_be64
drop-put_be64 v Y = refl

get_be16-put_be16 : (v : ℕ) (Y : Bytes) → v < 2 ^ 16 → get_be16 (put_be16 v ++ Y) ≡ v
unfolding get_be16 put_be16
get_be16-put_be16 v Y h = omega arith

encode-append :
    (h : Header) (rest : Bytes)
    → length h.session ≡ session_len
    → encode [] h ++ rest ≡ h.session ++ (put_be64 h.seq ++ (put_be16 h.count ++ rest))
unfolding encode
encode-append h rest ten =
    let s_is : take session_len h.session ≡ h.session =
      ap (take session_len) (sym (append-nil h.session)) ∙ take_session h.session [] ten in
    append_assoc (take session_len h.session) (put_be64 h.seq ++ put_be16 h.count) rest
    ∙ ap (λ (s : Bytes). s ++ (put_be64 h.seq ++ (put_be16 h.count ++ rest))) s_is

-- The header of a packet is read back as it was written, whatever follows it.
pub decode-encode :
    (h : Header) (rest : Bytes)
    → length h.session ≡ session_len
    → h.seq < 2 ^ 64
    → h.count < 2 ^ 16
    → decode (encode [] h ++ rest) ≡ h
unfolding decode
decode-encode h rest ten small_seq small_count =
    let body : Bytes = put_be64 h.seq ++ (put_be16 h.count ++ rest) in
    let at : drop session_len (h.session ++ body) ≡ body = drop_session h.session body ten in
    ap (λ p. decode p) (encode-append h rest ten)
    ∙ header_eq (take_session h.session body ten)
        (ap (λ p. get_be64 p) at ∙ get_be64-put_be64 h.seq (put_be16 h.count ++ rest) small_seq)
        (ap (λ p. get_be16 p)
            (drop-add session_len 8 (h.session ++ body)
              ∙ ap (drop 8) at
              ∙ drop-put_be64 h.seq (put_be16 h.count ++ rest))
          ∙ get_be16-put_be16 h.count rest small_count)

drop-puts : (v c : ℕ) (rest : Bytes) → drop 10 (put_be64 v ++ (put_be16 c ++ rest)) ≡ rest
unfolding put_be64 put_be16
drop-puts v c rest = refl

pub drop-encode :
    (h : Header) (rest : Bytes)
    → length h.session ≡ session_len
    → drop header_len (encode [] h ++ rest) ≡ rest
drop-encode h rest ten =
    let body : Bytes = put_be64 h.seq ++ (put_be16 h.count ++ rest) in
    ap (drop header_len) (encode-append h rest ten)
    ∙ drop-add session_len 10 (h.session ++ body)
    ∙ ap (drop 10) (drop_session h.session body ten)
    ∙ drop-puts h.seq h.count rest

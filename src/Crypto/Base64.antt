-- ===== src/Crypto/Base64.antt =====
-- base64url and the comparison in constant time of src/common/crypto.c. `|` of shifted numbers with
-- no common bit is their sum.
use Prim.Native.Nat.{bit_or, bit_xor}
use naitron_c.Prelude.{
  ℕ, ◌+◌, ◌-◌, ◌*◌, ◌/◌, ◌%◌, ◌^◌, Bool, ◌&&◌, [], ◌∷◌, ◌++◌, Option, none, some, ltb, leb, ◌==◌,
  if◌then◌else◌, Bytes, length, take, ◌>>=◌,
}
use naitron_c.Json.Strings.{puts}

-- `B64U[v]`.
unfoldable pub b64_char : ℕ → ℕ
b64_char v =
    if ltb v 26
    then b'A' + v
    else if ltb v 52
    then b'a' + (v - 26)
    else if ltb v 62
    then b'0' + (v - 52)
    else if v == 62
    then b'-'
    else b'_'

-- The first `chars` characters of a group of 24 bits.
unfoldable pub group_chars : ℕ → ℕ → Bytes
group_chars n chars = take chars (
    b64_char (n / 2 ^ 18 % 64)
    ∷ b64_char (n / 2 ^ 12 % 64)
    ∷ b64_char (n / 2 ^ 6 % 64)
    ∷ b64_char (n % 64)
    ∷ [])

-- The loop over groups of three bytes, with the bytes written so far; the characters are put one by
-- one while `o + 1 < cap`.
unfoldable pub base64_loop : ℕ → Bytes → Bytes → Option Bytes
base64_loop cap out [] = some out
base64_loop cap out (a ∷ []) = puts cap out (group_chars (a * 2 ^ 16) 2)
base64_loop cap out (a ∷ b ∷ []) = puts cap out (group_chars (a * 2 ^ 16 + b * 2 ^ 8) 3)
base64_loop cap out (a ∷ b ∷ c ∷ s) =
    puts cap out (group_chars (a * 2 ^ 16 + b * 2 ^ 8 + c) 4) >>= λ o. base64_loop cap o s

unfoldable pub base64url_encode : ℕ → Bytes → Option Bytes
base64url_encode cap s = base64_loop cap [] s >>= λ o. if leb cap (length o) then none else some o

unfoldable pub b64val : ℕ → Option ℕ
b64val c =
    if leb b'A' c && leb c b'Z'
    then some (c - b'A')
    else if leb b'a' c && leb c b'z'
    then some (c - b'a' + 26)
    else if leb b'0' c && leb c b'9'
    then some (c - b'0' + 52)
    else if c == b'-'
    then some 62
    else if c == b'_'
    then some 63
    else none

-- The loop, with `acc` of 32 bits, `bits` and the bytes written; `none` is -1.
unfoldable pub decode_loop : ℕ → ℕ → ℕ → Bytes → Bytes → Option Bytes
decode_loop cap acc bits out [] = some out
decode_loop cap acc bits out (c ∷ s) = b64val c >>= λ v.
    let acc' = (acc * 64 + v) % 2 ^ 32 in
    let written =
      decode_loop cap acc' (bits + 6 - 8) (out ++ (acc' / 2 ^ (bits + 6 - 8) % 256 ∷ [])) s in
    let read_on = decode_loop cap acc' (bits + 6) out s in
    if leb 8 (bits + 6) then (if leb cap (length out) then none else written) else read_on

unfoldable pub base64url_decode : ℕ → Bytes → Option Bytes
base64url_decode cap s = decode_loop cap 0 0 [] s

-- `ntc_ct_eq` on two runs of the same length.
unfoldable pub difference : ℕ → Bytes → Bytes → ℕ
difference d (x ∷ xs) (y ∷ ys) = difference (bit_or d (bit_xor x y)) xs ys
difference d _ _ = d

unfoldable pub ct_eq : Bytes → Bytes → Bool
ct_eq xs ys = difference 0 xs ys == 0

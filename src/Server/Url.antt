-- ===== src/Server/Url.antt =====
-- The URL helpers of src/core/server.c: percent encoding, a value of a query, and the match of a
-- pattern of the request schemas. A C string is the list of its bytes before the NUL.
use naitron_c.Prelude.{
  ℕ, zero, suc, ◌+◌, ◌-◌, ◌*◌, ◌/◌, ◌%◌, Bool, true, false, not, ◌||◌, ◌&&◌, [], ◌∷◌, ◌++◌, Option,
  none, some, ltb, leb, ◌==◌, ◌!=◌, if◌then◌else◌, Bytes, length, ◌>>=◌,
}
use naitron_c.Slice.{mem_equal}
use naitron_c.Http.Scan.{is_alnum}

unfoldable pub hexval : ℕ → Option ℕ
hexval ch =
    if leb b'0' ch && leb ch b'9'
    then some (ch - b'0')
    else if leb b'a' ch && leb ch b'f'
    then some (ch - b'a' + 10)
    else if leb b'A' ch && leb ch b'F'
    then some (ch - b'A' + 10)
    else none

-- `hex[d]`.
abbrev pub upper_hex : ℕ → ℕ
upper_hex d = if ltb d 10 then b'0' + d else b'A' + (d - 10)

-- `isalnum(ch) || ch == '-' || ...`.
unfoldable pub is_unreserved : ℕ → Bool
is_unreserved ch = is_alnum ch || ch == b'-' || ch == b'_' || ch == b'.' || ch == b'~'

-- What one byte is written as.
unfoldable pub url_unit : ℕ → Bytes
url_unit ch =
    if is_unreserved ch then ch ∷ [] else b'%' ∷ upper_hex (ch / 16) ∷ upper_hex (ch % 16) ∷ []

-- The loop, with `o` bytes written; it stops early when fewer than five bytes are left.
unfoldable pub encode_loop : ℕ → ℕ → Bytes → Bytes
encode_loop cap o [] = []
encode_loop cap o (ch ∷ s) =
    let rest = encode_loop cap (o + length (url_unit ch)) s in
    if ltb (o + 4) cap then url_unit ch ++ rest else []

unfoldable pub url_encode : ℕ → Bytes → Bytes
url_encode cap s = encode_loop cap 0 s

-- The byte of a percent escape.
unfoldable pub escaped : ℕ → ℕ → ℕ → Option ℕ
escaped c a b =
    if c == b'%' then (hexval a >>= λ hi. hexval b >>= λ lo. some (hi * 16 + lo)) else none

abbrev pub plain : ℕ → ℕ
plain c = if c == b'+' then b' ' else c

-- The escape's byte, or the byte itself.
abbrev pub decoded : ℕ → Option ℕ → Bytes → Bytes → Bytes
decoded c (some x) behind next = x ∷ behind
decoded c none behind next = plain c ∷ next

unfoldable pub url_decode : Bytes → Bytes
url_decode [] = []
url_decode (c ∷ []) = plain c ∷ []
url_decode (c ∷ a ∷ []) = plain c ∷ url_decode (a ∷ [])
url_decode (c ∷ a ∷ b ∷ s) =
    let behind = url_decode s in
    let next = url_decode (a ∷ b ∷ s) in decoded c (escaped c a b) behind next

-- A segment up to the next '/', and what is left.
unfoldable pub span_slash : Bytes → Bytes × Bytes
span_slash [] = ([], [])
span_slash (c ∷ s) =
    let rest = span_slash s in if c == b'/' then ([], c ∷ s) else (c ∷ rest.0, rest.1)

-- The test on one segment of the pattern and one of the path.
unfoldable pub seg_ok : Bytes → Bytes → Bool
seg_ok [] xs = mem_equal [] xs
seg_ok (c ∷ ps) xs = if c == b':' then not (length xs == 0) else mem_equal (c ∷ ps) xs

-- The loop; the pattern gets shorter in each round.
unfoldable pub pattern_loop : ℕ → Bytes → Bytes → Bool
pattern_loop fuel [] [] = true
pattern_loop fuel [] (d ∷ x) = false
pattern_loop fuel (c ∷ p) [] = false
pattern_loop zero (c ∷ p) (d ∷ x) = false
pattern_loop (suc fuel) (c ∷ p) (d ∷ x) =
    let rest = pattern_loop fuel (span_slash p).1 (span_slash x).1 in
    if c != b'/' || d != b'/' then false else seg_ok (span_slash p).0 (span_slash x).0 && rest

unfoldable pub seg_pattern_match : Bytes → Bytes → Bool
seg_pattern_match pat path = pattern_loop (length pat) pat path

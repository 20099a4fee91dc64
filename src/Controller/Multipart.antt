-- ===== src/Controller/Multipart.antt =====
-- The reader of multipart/form-data in src/common/controller_sdk.c: ntc_multipart_boundary, mp_quoted
-- and ntc_multipart_parse.
use naitron_c.Prelude.{
  ℕ, zero, suc, ◌+◌, not, ◌||◌, List, [], ◌∷◌, ◌++◌, Option, none, some, leb, ◌==◌, if◌then◌else◌,
  Bytes, length, take, drop, ◌>>=◌, codes,
}
use naitron_c.Slice.{slice_starts_with}
use naitron_c.Http.Scan.{find_char}

-- Where the needle occurs first.
unfoldable pub memmem : Bytes → Bytes → Option ℕ
memmem needle [] = if length needle == 0 then some 0 else none
memmem needle (x ∷ hay) =
    let rest = memmem needle hay in
    if slice_starts_with (x ∷ hay) needle then some 0 else (rest >>= λ n. some (suc n))

abbrev pub two_chars : ℕ → ℕ → Bytes
two_chars a b = a ∷ b ∷ []

abbrev pub line_end : Bytes
line_end = two_chars b'\r' b'\n'

-- The bytes in front of a place, or all of them.
unfoldable pub up_to : Option ℕ → Bytes → Bytes
up_to none s = s
up_to (some n) s = take n s

-- The value behind "boundary=", with or without quotes.
unfoldable pub boundary_value : Bytes → Bytes
boundary_value [] = []
boundary_value (c ∷ s) =
    if c == b'"' then up_to (find_char b'"' s) s else up_to (find_char b';' (c ∷ s)) (c ∷ s)

unfoldable pub multipart_boundary : ℕ → Bytes → Option Bytes
multipart_boundary cap content_type = memmem (codes "boundary=") content_type >>= λ n.
    let b = boundary_value (drop (n + 9) content_type) in
    if length b == 0 || leb cap (length b) then none else some b

-- The text up to the next quote behind the key; the slot is empty before.
unfoldable pub mp_quoted : Bytes → Bytes → Bytes
mp_quoted key region = elim (memmem key region) [
  | none ↦ []
  | some n ↦
      let k = drop (n + length key) region in
      elim (find_char b'"' k) [ none ↦ [] | some q ↦ take q k ]
]

unfoldable pub skip_blanks : Bytes → Bytes
skip_blanks [] = []
skip_blanks (c ∷ s) = let rest = skip_blanks s in if c == b' ' then rest else c ∷ s

unfoldable pub part_type : Bytes → Bytes
part_type headers = elim (memmem (codes "Content-Type:") headers) [
  | none ↦ []
  | some n ↦ let t = skip_blanks (drop (n + 13) headers) in up_to (memmem line_end t) t
]

pub record MultipartPart : Type 0 where
  pub name : Bytes
  pub filename : Bytes
  pub content_type : Bytes
  pub content : Bytes

-- The part between two boundaries.
unfoldable pub part_of : Bytes → MultipartPart
part_of region = elim (memmem (line_end ++ line_end) region) [
  | none ↦ record { name = []; filename = []; content_type = []; content = region }
  | some n ↦
      let headers = take n region in
      record {
        name = mp_quoted (codes "name=\"") headers;
        filename = mp_quoted (codes "filename=\"") headers;
        content_type = part_type headers;
        content = drop (n + 4) region;
      }
]

-- The loop, where `left` is `max - count`.
unfoldable pub parts_loop : Bytes → ℕ → Bytes → List MultipartPart
parts_loop sep zero cur = []
parts_loop sep (suc left) cur =
    if slice_starts_with cur (two_chars b'-' b'-') || not (slice_starts_with cur line_end)
    then []
    else elim (memmem sep (drop 2 cur)) [
      | none ↦ []
      | some n ↦
          part_of (take n (drop 2 cur)) ∷ parts_loop sep left (drop (n + length sep) (drop 2 cur))
    ]

-- `none` is -1.
unfoldable pub multipart_parse : Bytes → Bytes → ℕ → Option (List MultipartPart)
multipart_parse body boundary max =
    let delim = two_chars b'-' b'-' ++ boundary in
    if leb 260 (length delim)
    then none
    else (memmem delim body >>= λ n.
        some (parts_loop (line_end ++ delim) max (drop (n + length delim) body)))

-- ===== src/Http/Scan.antt =====
-- The scanners of src/common/http_request.c. A pointer into a buffer is an offset from where the
-- scan starts, and a null pointer is `none`.
use naitron_c.Prelude.{
  ℕ, suc, ◌+◌, ◌-◌, Bool, true, false, ◌||◌, ◌&&◌, [], ◌∷◌, Option, none, some, ltb, leb, ◌==◌,
  ◌!=◌, if◌then◌else◌, Bytes, length, get_or,
}

abbrev pub max_header_bytes : ℕ
max_header_bytes = 32768

abbrev pub cr : ℕ
cr = 13

abbrev pub lf : ℕ
lf = 10

abbrev pub next : Option ℕ → Option ℕ
next none = none
next (some i) = some (suc i)

-- The first CR LF.
unfoldable pub find_crlf : Bytes → Option ℕ
find_crlf [] = none
find_crlf (a ∷ []) = none
find_crlf (a ∷ b ∷ s) =
    let rest = find_crlf (b ∷ s) in if a == cr && b == lf then some 0 else next rest

-- The first CR LF CR LF.
unfoldable pub find_eoh : Bytes → Option ℕ
find_eoh [] = none
find_eoh (a ∷ s) =
    let rest = find_eoh s in
    if ltb (length (a ∷ s)) 4
    then none
    else if a == cr && get_or s 0 0 == lf && get_or s 1 0 == cr && get_or s 2 0 == lf
    then some 0
    else next rest

-- `memchr`.
unfoldable pub find_char : ℕ → Bytes → Option ℕ
find_char c [] = none
find_char c (x ∷ s) = let rest = find_char c s in if x == c then some 0 else next rest

unfoldable pub lc : ℕ → ℕ
lc c = if leb b'A' c && leb c b'Z' then c - b'A' + b'a' else c

-- The loop over two labels of one length.
unfoldable pub labels_agree : Bytes → Bytes → Bool
unfolding lc
labels_agree (x ∷ a) (y ∷ b) = lc x == lc y && labels_agree a b
labels_agree _ _ = true

unfoldable pub islabel_eq : Bytes → Bytes → Bool
unfolding labels_agree
islabel_eq a b = if length a != length b then false else labels_agree a b

abbrev pub is_alnum : ℕ → Bool
is_alnum c = leb b'a' c && leb c b'z' || leb b'A' c && leb c b'Z' || leb b'0' c && leb c b'9'

unfoldable pub is_tchar : ℕ → Bool
is_tchar c =
    if is_alnum c
    then true
    else c == b'!'
      || c == b'#'
      || c == b'$'
      || c == b'%'
      || c == b'&'
      || c == 39
      || c == b'*'
      || c == b'+'
      || c == b'-'
      || c == b'.'
      || c == b'^'
      || c == b'_'
      || c == 96
      || c == b'|'
      || c == b'~'

unfoldable pub all_tchar : Bytes → Bool
unfolding is_tchar
all_tchar [] = true
all_tchar (c ∷ cs) = is_tchar c && all_tchar cs

unfoldable pub is_token : Bytes → Bool
unfolding all_tchar
is_token s = if length s == 0 then false else all_tchar s

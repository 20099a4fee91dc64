-- ===== src/Http/Parse.antt =====
-- `ntc_http_parse_request` of src/common/http_request.c.
use naitron_c.Prelude.{
  ℕ, zero, suc, ◌+◌, ◌-◌, ◌*◌, ◌^◌, Bool, true, false, not, ◌||◌, ◌&&◌, List, [], ◌∷◌, ◌++◌, Option,
  none, some, ltb, leb, ◌==◌, ◌!=◌, if◌then◌else◌, Bytes, length, take, drop, get_or, ◌>>=◌,
}
use naitron_c.Http.{Header, Request, max_headers}
use naitron_c.Http.Scan.{max_header_bytes, find_crlf, find_eoh, find_char, islabel_eq, is_token}
use naitron_c.Slice.{slice_trim, mem_equal}

-- "content-length" and "HTTP/1."
abbrev pub content_length_label : Bytes
content_length_label =
    b'c' ∷ b'o' ∷ b'n' ∷ b't' ∷ b'e' ∷ b'n' ∷ b't' ∷ b'-' ∷ b'l' ∷ b'e' ∷ b'n' ∷ b'g' ∷ b't' ∷ b'h'
    ∷ []

abbrev pub http_1 : Bytes
http_1 = b'H' ∷ b'T' ∷ b'T' ∷ b'P' ∷ b'/' ∷ b'1' ∷ b'.' ∷ []

-- `ntc_size_mul` and `ntc_size_add`: `none` is an overflow of 64 bits.
unfoldable pub size_mul : ℕ → ℕ → Option ℕ
size_mul a b = if ltb (a * b) (2 ^ 64) then some (a * b) else none

unfoldable pub size_add : ℕ → ℕ → Option ℕ
size_add a b = if ltb (a + b) (2 ^ 64) then some (a + b) else none

-- The loop over the digits of a Content-Length.
unfoldable pub parse_digits : Bytes → ℕ → Option ℕ
unfolding size_mul size_add
parse_digits [] cl = some cl
parse_digits (ch ∷ cs) cl =
    if ltb ch b'0' || ltb b'9' ch
    then none
    else size_mul cl 10 >>= λ m. size_add m (ch - b'0') >>= λ v. parse_digits cs v

-- The fields of the request that the header loop fills.
pub record Fields : Type 0 where
  pub headers : List Header
  pub has_content_length : Bool
  pub content_length : ℕ

-- What a part of the parser ends in. `out_of_fuel` is no result of the code.
pub data Parsed {ℓ} (A : Type ℓ) : Type ℓ where
  done : A → Parsed A
  bad : Parsed A
  out_of_fuel : Parsed A

abbrev pub from_option {ℓ} : {A : Type ℓ} → Option A → Parsed A
from_option none = bad
from_option (some a) = done a

infixl 5 ◌>>>◌
abbrev pub ◌>>>◌ {ℓ κ} : {A : Type ℓ} {B : Type κ} → Option A → (A → Parsed B) → Parsed B
none >>> f = bad
some a >>> f = f a

-- The branch on "content-length", with the guard against two different values.
unfoldable pub set_content_length : Bytes → Fields → Option Fields
unfolding parse_digits
set_content_length value f =
    if length value == 0
    then none
    else parse_digits value 0 >>= λ cl.
        if f.has_content_length && f.content_length != cl
        then none
        else some (record f { has_content_length = true; content_length = cl })

-- One line of the header loop.
unfoldable pub header_line : Bytes → Fields → Option Fields
header_line line f = find_char b':' line >>= λ colon.
    let name = take colon line in
    let value = slice_trim (drop (colon + 1) line) in
    let f' = record f { headers = f.headers ++ (record { name = name; value = value } ∷ []) } in
    if not (is_token name)
    then none
    else if leb max_headers (length f.headers)
    then none
    else if islabel_eq name content_length_label
    then set_content_length value f'
    else some f'

-- The loop `while (cur < eoh)`, where `cur` is what is left of the buffer up to `eoh + 2`.
unfoldable pub header_loop : ℕ → Bytes → Fields → Parsed Fields
header_loop zero cur f = if ltb 2 (length cur) then out_of_fuel else done f
header_loop (suc fuel) cur f =
    let rest = find_crlf cur >>> λ le.
    header_line (take le cur) f >>> λ f'. header_loop fuel (drop (le + 2) cur) f' in
    if ltb 2 (length cur) then rest else done f

pub record RequestLine : Type 0 where
  pub method : Bytes
  pub target : Bytes
  pub minor_version : ℕ

-- `memcmp(version.ptr, "HTTP/1.", 7) == 0`.
unfoldable pub starts_http_1 : Bytes → Bool
starts_http_1 version = mem_equal (take 7 version) http_1

-- The request line, without its CR LF.
unfoldable pub request_line : Bytes → Option RequestLine
request_line line = find_char b' ' line >>= λ sp1.
    let after = drop (sp1 + 1) line in
    find_char b' ' after >>= λ sp2.
    let method = take sp1 line in
    let target = take sp2 after in
    let version = drop (sp2 + 1) after in
    let last = get_or version 7 0 in
    if not (is_token method)
    then none
    else if length target == 0
    then none
    else if length version != 8 || not (starts_http_1 version)
    then none
    else if last != b'0' && last != b'1'
    then none
    else some (record { method = method; target = target; minor_version = last - b'0' })

-- The path and the query of a target.
unfoldable pub split_target : Bytes → Bytes × Bytes
split_target target = elim (find_char b'?' target) [
  | none ↦ (target, [])
  | some q ↦ (take q target, drop (q + 1) target)
]

-- NTC_PARSE_OK with the request and `consumed`, and the two other results.
pub data ParseResult : Type 0 where
  parse_ok : Request → ℕ → ParseResult
  incomplete error stuck : ParseResult

abbrev pub no_fields : Fields
no_fields = record { headers = []; has_content_length = false; content_length = 0 }

-- `memset(req, 0, sizeof *req)`, then the fields that the parser sets.
abbrev pub build_request : RequestLine → Fields → Bytes → Request
build_request l f body = record {
  method = l.method;
  target = l.target;
  path = (split_target l.target).0;
  query = (split_target l.target).1;
  minor_version = l.minor_version;
  headers = f.headers;
  params = [];
  auth_sub = [];
  auth_scope = [];
  has_content_length = f.has_content_length;
  content_length = f.content_length;
  body = body;
}

abbrev pub with_line : RequestLine → Parsed Fields → Parsed (RequestLine × Fields)
with_line l (done f) = done (l, f)
with_line l bad = bad
with_line l out_of_fuel = out_of_fuel

-- The part behind the search for the end of the headers, which is at `eoh`.
unfoldable pub parse_head : Bytes → ℕ → Parsed (RequestLine × Fields)
parse_head buf eoh =
    let head = take (eoh + 2) buf in
    find_crlf head >>> λ rl. request_line (take rl head) >>> λ l.
    with_line l (header_loop (length head) (drop (rl + 2) head) no_fields)

abbrev pub finish : Bytes → ℕ → Parsed (RequestLine × Fields) → ParseResult
finish buf eoh (done (l, f)) = parse_ok (build_request l f (drop (eoh + 4) buf)) (eoh + 4)
finish buf eoh bad = error
finish buf eoh out_of_fuel = stuck

unfoldable pub parse_request : Bytes → ParseResult
parse_request buf = elim (find_eoh buf) [
  | none ↦ if ltb max_header_bytes (length buf) then error else incomplete
  | some eoh ↦ finish buf eoh (parse_head buf eoh)
]

-- ===== src/Json/Strings.antt =====
-- JSON strings of src/common/json.c: `ntc_json_escape` and `parse_string`. The allocations of the
-- arena succeed. An error stays set in `P` until the parse returns NULL, so `none` stands for it.
use naitron_c.Prelude.{
  ℕ, zero, suc, ◌+◌, ◌-◌, ◌*◌, ◌/◌, ◌%◌, ◌&&◌, [], ◌∷◌, ◌++◌, Option, none, some, ltb, leb, ◌==◌,
  ◌!=◌, if◌then◌else◌, Bytes, length, ◌>>=◌,
}

abbrev pub hex_digit : ℕ → ℕ
hex_digit d = if ltb d 10 then b'0' + d else b'a' + (d - 10)

-- `snprintf(tmp, sizeof tmp, "\\u%04x", c)` for a control character.
unfoldable pub escape_control : ℕ → Bytes
escape_control c = b'\\' ∷ b'u' ∷ b'0' ∷ b'0' ∷ hex_digit (c / 16) ∷ hex_digit (c % 16) ∷ []

-- The characters that the switch of `ntc_json_escape` puts for one byte.
unfoldable pub escape_char : ℕ → Bytes
escape_char c =
    if c == b'"'
    then b'\\' ∷ b'"' ∷ []
    else if c == b'\\'
    then b'\\' ∷ b'\\' ∷ []
    else if c == b'\n'
    then b'\\' ∷ b'n' ∷ []
    else if c == b'\r'
    then b'\\' ∷ b'r' ∷ []
    else if c == b'\t'
    then b'\\' ∷ b't' ∷ []
    else if c == 0x08
    then b'\\' ∷ b'b' ∷ []
    else if c == 0x0c
    then b'\\' ∷ b'f' ∷ []
    else if ltb c 0x20
    then escape_control c
    else c ∷ []

-- The macro PUT on the `o` bytes that are in `dst`; `none` is the result -1.
unfoldable pub put : ℕ → Bytes → ℕ → Option Bytes
put cap out ch = if leb cap (length out + 1) then none else some (out ++ (ch ∷ []))

unfoldable pub puts : ℕ → Bytes → Bytes → Option Bytes
puts cap out [] = some out
puts cap out (ch ∷ chs) = put cap out ch >>= λ out'. puts cap out' chs

unfoldable pub escape_loop : ℕ → Bytes → Bytes → Option Bytes
escape_loop cap out [] = some out
escape_loop cap out (c ∷ cs) = puts cap out (escape_char c) >>= λ out'. escape_loop cap out' cs

unfoldable pub json_escape : ℕ → Bytes → Option Bytes
json_escape cap src =
    escape_loop cap [] src >>= λ out. if leb cap (length out) then none else some out

unfoldable pub hex_value : ℕ → Option ℕ
hex_value h =
    if leb b'0' h && leb h b'9'
    then some (h - b'0')
    else if leb b'a' h && leb h b'f'
    then some (h - b'a' + 10)
    else if leb b'A' h && leb h b'F'
    then some (h - b'A' + 10)
    else none

-- The UTF-8 bytes of a code unit.
unfoldable pub utf8 : ℕ → Bytes
utf8 cp =
    if ltb cp 0x80
    then cp ∷ []
    else if ltb cp 0x800
    then (0xC0 + cp / 64) ∷ (0x80 + cp % 64) ∷ []
    else (0xE0 + cp / 4096) ∷ (0x80 + cp / 64 % 64) ∷ (0x80 + cp % 64) ∷ []

-- One round of the loop of `parse_string`: the closing quote, the bytes that are put and what is
-- left to read, or an error.
pub data Item : Type 0 where
  closing : Bytes → Item
  chars : Bytes → Bytes → Item
  wrong : Item

abbrev pub item : Option (Bytes × Bytes) → Item
item none = wrong
item (some (bs, rest)) = chars bs rest

-- The case 'u', with the loop over the four digits.
unfoldable pub unicode_item : Bytes → Item
unicode_item (a ∷ b ∷ c ∷ d ∷ s) = item (
    hex_value a >>= λ x. hex_value b >>= λ y.
    hex_value c >>= λ z. hex_value d >>= λ w. some (utf8 (((x * 16 + y) * 16 + z) * 16 + w), s))
unicode_item _ = wrong

-- The switch behind a backslash.
unfoldable pub escape_item : Bytes → Item
escape_item [] = wrong
escape_item (e ∷ s) =
    if e == b'"'
    then chars (b'"' ∷ []) s
    else if e == b'\\'
    then chars (b'\\' ∷ []) s
    else if e == b'/'
    then chars (b'/' ∷ []) s
    else if e == b'b'
    then chars (0x08 ∷ []) s
    else if e == b'f'
    then chars (0x0c ∷ []) s
    else if e == b'n'
    then chars (b'\n' ∷ []) s
    else if e == b'r'
    then chars (b'\r' ∷ []) s
    else if e == b't'
    then chars (b'\t' ∷ []) s
    else if e == b'u'
    then unicode_item s
    else wrong

unfoldable pub string_item : ℕ → Bytes → Item
string_item c s =
    if c == b'"' then closing s else if c != b'\\' then chars (c ∷ []) s else escape_item s

unfoldable pub next_item : (Bytes → Option (Bytes × Bytes)) → Item → Option (Bytes × Bytes)
next_item loop (closing rest) = some ([], rest)
next_item loop (chars bs s) = loop s >>= λ r. some (bs ++ r.0, r.1)
next_item loop wrong = none

-- The loop: the string, and what is left behind the closing quote.
unfoldable pub string_loop : ℕ → Bytes → Option (Bytes × Bytes)
string_loop zero s = none
string_loop (suc fuel) [] = none
string_loop (suc fuel) (c ∷ s) = next_item (string_loop fuel) (string_item c s)

-- `parse_string`, behind the opening quote. The code goes on to the end of the string behind an error
-- and writes bytes that nothing reads; the model stops at the first error, with the same result.
unfoldable pub parse_string : Bytes → Option (Bytes × Bytes)
parse_string s = string_loop (length s) s

-- ===== src/Json/StringTrip.antt =====
-- Strings that src/common/json.c escapes and reads back, and the room that both take.
use naitron_c.Prelude.{
  ℕ, zero, suc, ◌+◌, ◌*◌, ◌/◌, ◌%◌, ◌≤◌, ◌<◌, false, [], ◌∷◌, ◌++◌, some, ltb, ◌==◌, Bytes, length,
  ◌≡◌, refl, ap, ◌∙◌, inl, inr, arith, Bool-cases, append_assoc, length-append, ltb→lt, ==_iff,
}
use naitron_c.Json.Strings.{
  escape_control, escape_char, hex_value, utf8, chars, unicode_item, escape_item, string_item,
  next_item, string_loop, parse_string, hex_digit, item,
}

-- The text that an escaped string is.
unfoldable pub escape_text : Bytes → Bytes
escape_text [] = []
escape_text (c ∷ cs) = escape_char c ++ escape_text cs

length-escape_char : (c : ℕ) → 1 ≤ length (escape_char c)
unfolding escape_char escape_control
length-escape_char c = ground arith

length-escape_text : (src : Bytes) → length src ≤ length (escape_text src)
unfolding escape_text
length-escape_text [] = omega arith
length-escape_text (c ∷ src) = omega (
  arith,
  length-escape_char c,
  length-escape_text src,
  length-append (escape_char c) (escape_text src),
)

hex_value-hex_digit : (d : ℕ) → d < 16 → hex_value (hex_digit d) ≡ some d
unfolding hex_value
hex_value-hex_digit d h = ground arith

utf8_ascii : (c : ℕ) → c < 0x80 → utf8 c ≡ c ∷ []
unfolding utf8
utf8_ascii c h = ground arith

zero_digit : hex_value b'0' ≡ some 0
unfolding hex_value
zero_digit = refl

control_digits : (c : ℕ) → ((0 * 16 + 0) * 16 + c / 16) * 16 + c % 16 ≡ c
control_digits c = omega arith

plain_item :
    (c : ℕ) (rest : Bytes)
    → (c == b'"') ≡ false
    → (c == b'\\') ≡ false
    → string_item c rest ≡ chars (c ∷ []) rest
unfolding string_item
plain_item c rest p q = rw (p, q) refl

control_item :
    (c : ℕ) (rest : Bytes)
    → c < 0x20
    → unicode_item (b'0' ∷ b'0' ∷ hex_digit (c / 16) ∷ hex_digit (c % 16) ∷ rest)
      ≡ chars (c ∷ []) rest
unfolding unicode_item
control_item c rest h =
    rw
      (
        zero_digit,
        hex_value-hex_digit (c / 16) (omega arith),
        hex_value-hex_digit (c % 16) (omega arith),
      )
      (ap (λ n. item (some (utf8 n, rest))) (control_digits c)
        ∙ rw (utf8_ascii c (omega arith)) refl)

-- The loop reads the text of one byte in one round.
escaped_char :
    (c : ℕ) (fuel : ℕ) (rest : Bytes)
    → string_loop (suc fuel) (escape_char c ++ rest)
      ≡ next_item (string_loop fuel) (chars (c ∷ []) rest)
unfolding string_loop escape_char escape_control string_item escape_item
escaped_char c fuel rest = elim (Bool-cases (c == b'"')) [
  | inl y ↦ rw ((==_iff c (b'"')).0 y) refl
  | inr f0 ↦ elim (Bool-cases (c == b'\\')) [
    | inl y ↦ rw ((==_iff c (b'\\')).0 y) refl
    | inr f1 ↦ elim (Bool-cases (c == b'\n')) [
      | inl y ↦ rw ((==_iff c (b'\n')).0 y) refl
      | inr f2 ↦ elim (Bool-cases (c == b'\r')) [
        | inl y ↦ rw ((==_iff c (b'\r')).0 y) refl
        | inr f3 ↦ elim (Bool-cases (c == b'\t')) [
          | inl y ↦ rw ((==_iff c (b'\t')).0 y) refl
          | inr f4 ↦ elim (Bool-cases (c == 0x08)) [
            | inl y ↦ rw ((==_iff c (0x08)).0 y) refl
            | inr f5 ↦ elim (Bool-cases (c == 0x0c)) [
              | inl y ↦ rw ((==_iff c (0x0c)).0 y) refl
              | inr f6 ↦ elim (Bool-cases (ltb c 0x20)) [
                | inl y ↦
                    rw (f0, f1, f2, f3, f4, f5, f6, y)
                      (ap (next_item (string_loop fuel)) (control_item c rest (ltb→lt c 0x20 y)))
                | inr n ↦
                    rw (f0, f1, f2, f3, f4, f5, f6, n)
                      (ap (next_item (string_loop fuel)) (plain_item c rest f0 f1))
              ]
            ]
          ]
        ]
      ]
    ]
  ]
]

-- A string that was escaped is read back, up to the closing quote, and the rest is left.
string_loop-escape :
    (src : Bytes) (fuel : ℕ) (rest : Bytes)
    → length src < fuel
    → string_loop fuel (escape_text src ++ (b'"' ∷ rest)) ≡ some (src, rest)
unfolding string_loop next_item escape_text
string_loop-escape src zero rest h = absurd (omega arith)
string_loop-escape [] (suc fuel) rest h = unfold string_item in refl
string_loop-escape (c ∷ src) (suc fuel) rest h =
    ap (string_loop (suc fuel)) (append_assoc (escape_char c) (escape_text src) _)
    ∙ escaped_char c fuel (escape_text src ++ (b'"' ∷ rest))
    ∙ rw (string_loop-escape src fuel rest (omega arith)) refl

-- A string is read back from its escaped text, whatever follows the closing quote.
pub parse_string-escape :
    (src rest : Bytes) → parse_string (escape_text src ++ (b'"' ∷ rest)) ≡ some (src, rest)
unfolding parse_string
parse_string-escape src rest =
    string_loop-escape src _ rest
      (omega (arith, length-escape_text src, length-append (escape_text src) (b'"' ∷ rest)))

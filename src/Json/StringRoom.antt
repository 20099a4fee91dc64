-- ===== src/Json/StringRoom.antt =====
-- The room that the strings of src/common/json.c take: the capacity of `ntc_json_escape`, and the
-- buffer that `parse_string` allocates.
use naitron_c.Prelude.{
  ℕ, zero, suc, ◌+◌, ◌*◌, ◌≤◌, ◌<◌, Bool, true, false, [], ◌∷◌, ◌++◌, Option, none, some, ltb, leb,
  ◌==◌, ◌!=◌, if◌then◌else◌, Bytes, length, ◌≡◌, refl, sym, ap, ◌∙◌, inl, inr, arith, Bool-cases,
  Option-cases, ◌>>=◌, append-nil, append_assoc, length-append, ltb→lt, le→leb, lt→leb_false,
  some-inj,
}
use naitron_c.Json.Strings.{
  escape_char, put, puts, escape_loop, json_escape, hex_value, utf8, Item, closing, chars, wrong,
  unicode_item, escape_item, string_item, next_item, string_loop, parse_string, item,
}
use mathlib.Core.Path.{subst}
use naitron_c.Json.StringTrip.{escape_text}

puts-fits :
    (cap : ℕ) (out chs : Bytes)
    → length out + length chs < cap
    → puts cap out chs ≡ some (out ++ chs)
unfolding puts put
puts-fits cap out [] h = ap some (sym (append-nil out))
puts-fits cap out (ch ∷ chs) h = rw (lt→leb_false cap (length out + 1) (omega arith)) (
    puts-fits cap (out ++ (ch ∷ [])) chs (omega (arith, length-append out (ch ∷ [])))
    ∙ ap some (append_assoc out (ch ∷ []) chs))

puts_sound : (cap : ℕ) (out chs r : Bytes) → puts cap out chs ≡ some r → r ≡ out ++ chs
unfolding puts put
puts_sound cap out [] r h = sym (some-inj h) ∙ sym (append-nil out)
puts_sound cap out (ch ∷ chs) r h = elim (Bool-cases (leb cap (length out + 1))) [
  | inl f ↦ absurd (ground arith)
  | inr t ↦ puts_sound cap (out ++ (ch ∷ [])) chs r (ground arith) ∙ append_assoc out (ch ∷ []) chs
]

escape_loop-fits :
    (cap : ℕ) (out src : Bytes)
    → length out + length (escape_text src) < cap
    → escape_loop cap out src ≡ some (out ++ escape_text src)
unfolding escape_loop escape_text
escape_loop-fits cap out [] h = ap some (sym (append-nil out))
escape_loop-fits cap out (c ∷ src) h =
    let split = length-append (escape_char c) (escape_text src) in
    rw (puts-fits cap out (escape_char c) (omega (arith, split))) (
      escape_loop-fits cap (out ++ escape_char c) src
        (omega (arith, split, length-append out (escape_char c)))
      ∙ ap some (append_assoc out (escape_char c) (escape_text src)))

escape_loop_sound :
    (cap : ℕ) (out src r : Bytes) → escape_loop cap out src ≡ some r → r ≡ out ++ escape_text src
unfolding escape_loop escape_text
escape_loop_sound cap out [] r h = sym (some-inj h) ∙ sym (append-nil out)
escape_loop_sound cap out (c ∷ src) r h = elim (Option-cases (puts cap out (escape_char c))) [
  | inl n ↦ absurd (ground arith)
  | inr (m, p) ↦
      escape_loop_sound cap m src r (sym (rw p refl) ∙ h)
      ∙ ap (λ x. x ++ escape_text src) (puts_sound cap out (escape_char c) m p)
      ∙ append_assoc out (escape_char c) (escape_text src)
]

-- Escaping writes the whole text when it is shorter than the buffer, which keeps room for the NUL,
-- and fails in every other case.
pub json_escape_lem :
    (cap : ℕ) (src : Bytes)
    → json_escape cap src
      ≡ (if ltb (length (escape_text src)) cap then some (escape_text src) else none)
unfolding json_escape
json_escape_lem cap src = elim (Bool-cases (ltb (length (escape_text src)) cap)) [
  | inl t ↦
      rw
        (
          t,
          escape_loop-fits cap [] src (omega (arith, ltb→lt (length (escape_text src)) cap t)),
          lt→leb_false cap (length (escape_text src)) (ltb→lt (length (escape_text src)) cap t),
        )
        refl
  | inr f ↦ rw f (elim (Option-cases (escape_loop cap [] src)) [
    | inl n ↦ rw n refl
    | inr (r, p) ↦
        rw
          (
            p,
            escape_loop_sound cap [] src r p,
            le→leb cap (length (escape_text src)) (ground arith),
          )
          refl
  ])
]

-- What one round puts and leaves is no longer than what it had to read.
data Within (n : ℕ) : Item → Type 0 where
  closes : (t : Bytes) → length t < n → Within n (closing t)
  continues : (bs t : Bytes) → length bs + length t ≤ n → Within n (chars bs t)
  fails : Within n wrong

utf8_room : (cp : ℕ) → length (utf8 cp) ≤ 3
unfolding utf8
utf8_room cp = ground arith

if_Within :
    {n : ℕ} {x y : Item} (b : Bool) → Within n x → Within n y → Within n (if b then x else y)
if_Within true p q = p
if_Within false p q = q

digit_Within :
    {n : ℕ} (o : Option ℕ) (f : ℕ → Option (Bytes × Bytes))
    → ((x : ℕ) → Within n (item (f x)))
    → Within n (item (o >>= f))
digit_Within none f g = fails
digit_Within (some x) f g = g x

unicode_item-Within : (s : Bytes) → Within (length s) (unicode_item s)
unfolding unicode_item
unicode_item-Within (a ∷ b ∷ c ∷ d ∷ s) = digit_Within (hex_value a) _ (λ x.
    digit_Within (hex_value b) _ (λ y. digit_Within (hex_value c) _ (λ z.
      digit_Within (hex_value d) _
        (λ w. continues _ s (omega (arith, utf8_room (((x * 16 + y) * 16 + z) * 16 + w)))))))
unicode_item-Within _ = fails

weaken_Within : {n : ℕ} {i : Item} → Within n i → Within (suc n) i
weaken_Within (closes t h) = closes t (omega (arith, h))
weaken_Within (continues bs t h) = continues bs t (omega (arith, h))
weaken_Within fails = fails

one_char : (c : ℕ) (s : Bytes) → Within (suc (length s)) (chars (c ∷ []) s)
one_char c s = continues (c ∷ []) s (omega arith)

escape_item-Within : (s : Bytes) → Within (length s) (escape_item s)
unfolding escape_item
escape_item-Within [] = fails
escape_item-Within (e ∷ s) = if_Within (e == b'"') (one_char (b'"') s) (
    if_Within (e == b'\\') (one_char (b'\\') s) (
      if_Within (e == b'/') (one_char (b'/') s) (
        if_Within (e == b'b') (one_char (0x08) s) (
          if_Within (e == b'f') (one_char (0x0c) s) (
            if_Within (e == b'n') (one_char (b'\n') s) (
              if_Within (e == b'r') (one_char (b'\r') s) (
                if_Within (e == b't') (one_char (b'\t') s)
                  (if_Within (e == b'u') (weaken_Within (unicode_item-Within s)) fails))))))))

string_item-Within : (c : ℕ) (s : Bytes) → Within (suc (length s)) (string_item c s)
unfolding string_item
string_item-Within c s =
    if_Within (c == b'"') (closes s (omega arith))
      (if_Within (c != b'\\') (one_char c s) (weaken_Within (escape_item-Within s)))

-- What a loop gives for `s`, if anything, fits into the bytes before the closing quote.
abbrev Fits : ℕ → Option (Bytes × Bytes) → Type 0
Fits n none = Unit
Fits n (some r) = length r.0 + length r.1 < n

extended :
    (n : ℕ) (bs : Bytes) (o : Option (Bytes × Bytes)) (k : ℕ)
    → Fits k o
    → length bs + k ≤ n
    → Fits n (o >>= λ r. some (bs ++ r.0, r.1))
extended n bs none k g h = tt
extended n bs (some r) k g h = omega (arith, g, length-append bs r.0)

next_item-Fits :
    (n : ℕ) (loop : Bytes → Option (Bytes × Bytes)) (i : Item)
    → ((t : Bytes) → Fits (length t) (loop t))
    → Within n i
    → Fits n (next_item loop i)
unfolding next_item
next_item-Fits n loop _ g (closes t h) = omega (arith, h)
next_item-Fits n loop _ g (continues bs t h) = extended n bs (loop t) (length t) (g t) h
next_item-Fits n loop _ g fails = tt

string_loop-Fits : (fuel : ℕ) (s : Bytes) → Fits (length s) (string_loop fuel s)
unfolding string_loop
string_loop-Fits zero s = tt
string_loop-Fits (suc fuel) [] = tt
string_loop-Fits (suc fuel) (c ∷ s) =
    next_item-Fits (suc (length s)) (string_loop fuel) (string_item c s) (string_loop-Fits fuel)
      (string_item-Within c s)

-- The string and what is left behind it are together shorter than what was read: the buffer of
-- `length s + 1` bytes has room for the string.
pub parse_string-room :
    (s str rest : Bytes) → parse_string s ≡ some (str, rest) → length str + length rest < length s
unfolding parse_string
parse_string-room s str rest h = subst (Fits (length s)) h (string_loop-Fits (length s) s)

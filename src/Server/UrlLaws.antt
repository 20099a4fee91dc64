-- ===== src/Server/UrlLaws.antt =====
-- What the URL helpers of src/core/server.c do.
use naitron_c.Prelude.{
  ℕ, ◌+◌, ◌*◌, ◌/◌, ◌%◌, ◌≤◌, ◌<◌, true, [], ◌∷◌, ◌++◌, none, some, ltb, ◌==◌, Bytes, length, ◌≡◌,
  refl, ap, ◌∙◌, ◌≢◌, inl, inr, arith, Bool-cases, IsByte, All, length-append, ltb→lt, ==_iff,
  lt→ltb,
}
use naitron_c.Http.Scan.{is_alnum}
use naitron_c.Server.Url.{
  hexval, upper_hex, is_unreserved, url_unit, encode_loop, url_encode, escaped, plain, url_decode,
}

hexval-upper_hex : (d : ℕ) → d < 16 → hexval (upper_hex d) ≡ some d
unfolding hexval
hexval-upper_hex d h = ground arith

unreserved_plain : (c : ℕ) → is_unreserved c ≡ true → (c ≢ b'%') × (c ≢ b'+')
unfolding is_unreserved is_alnum
unreserved_plain c h = (λ e. ground (arith, h, e), λ e. ground (arith, h, e))

plain_unreserved : (c : ℕ) → c ≢ b'+' → plain c ≡ c
plain_unreserved c h = elim (Bool-cases (c == b'+')) [
  | inl t ↦ absurd (h ((==_iff c b'+').0 t))
  | inr f ↦ rw f refl
]

not_escaped : (c a b : ℕ) → c ≢ b'%' → escaped c a b ≡ none
unfolding escaped
not_escaped c a b h = elim (Bool-cases (c == b'%')) [
  | inl t ↦ absurd (h ((==_iff c b'%').0 t))
  | inr f ↦ rw f refl
]

decode_plain : (c : ℕ) (t : Bytes) → c ≢ b'%' → c ≢ b'+' → url_decode (c ∷ t) ≡ c ∷ url_decode t
unfolding url_decode
decode_plain c [] p q = rw (plain_unreserved c q) refl
decode_plain c (a ∷ []) p q = rw (plain_unreserved c q) refl
decode_plain c (a ∷ b ∷ t) p q = rw (not_escaped c a b p, plain_unreserved c q) refl

escaped_hex : (c : ℕ) → c < 256 → escaped b'%' (upper_hex (c / 16)) (upper_hex (c % 16)) ≡ some c
unfolding escaped
escaped_hex c h =
    rw (hexval-upper_hex (c / 16) (omega arith), hexval-upper_hex (c % 16) (omega arith))
      (ap some (omega arith))

decode_escape :
    (c : ℕ) (t : Bytes)
    → c < 256
    → url_decode (b'%' ∷ upper_hex (c / 16) ∷ upper_hex (c % 16) ∷ t) ≡ c ∷ url_decode t
unfolding url_decode
decode_escape c t h = rw (escaped_hex c h) refl

decode_unit : (c : ℕ) (t : Bytes) → c < 256 → url_decode (url_unit c ++ t) ≡ c ∷ url_decode t
unfolding url_unit
decode_unit c t h = elim (Bool-cases (is_unreserved c)) [
  | inl u ↦ rw u (decode_plain c t (unreserved_plain c u).0 (unreserved_plain c u).1)
  | inr f ↦ rw f (decode_escape c t h)
]

length-url_unit : (c : ℕ) → length (url_unit c) ≤ 3
unfolding url_unit
length-url_unit c = elim (Bool-cases (is_unreserved c)) [
  | inl u ↦ rw u (omega arith)
  | inr f ↦ rw f (omega arith)
]

url_decode-encode_loop :
    (cap o : ℕ) (s : Bytes)
    → All IsByte s
    → o + 3 * length s + 1 < cap
    → url_decode (encode_loop cap o s) ≡ s
unfolding encode_loop
url_decode-encode_loop cap o [] b h = unfold url_decode in refl
url_decode-encode_loop cap o (c ∷ s) b h = rw (lt→ltb (o + 4) cap (omega arith)) (
    decode_unit c _ b.0
    ∙ ap (◌∷◌ c) (
        url_decode-encode_loop cap (o + length (url_unit c)) s b.1
          (omega (arith, length-url_unit c))))

-- A text is decoded as it was before it was encoded, when the buffer has room for three bytes for
-- each of its bytes, and for two more.
pub url_decode-url_encode :
    (cap : ℕ) (s : Bytes)
    → All IsByte s
    → 3 * length s + 1 < cap
    → url_decode (url_encode cap s) ≡ s
unfolding url_encode
url_decode-url_encode cap s b h = url_decode-encode_loop cap 0 s b (omega arith)

encode_loop-room : (cap o : ℕ) (s : Bytes) → o < cap → o + length (encode_loop cap o s) < cap
unfolding encode_loop
encode_loop-room cap o [] h = omega arith
encode_loop-room cap o (c ∷ s) h = elim (Bool-cases (ltb (o + 4) cap)) [
  | inl t ↦ rw t (
      let room =
        encode_loop-room cap (o + length (url_unit c)) s
          (omega (arith, ltb→lt (o + 4) cap t, length-url_unit c)) in
      omega (arith, room, length-append (url_unit c) (encode_loop cap (o + length (url_unit c)) s)))
  | inr f ↦ rw f (omega arith)
]

-- The encoder stays inside the buffer, with room for the NUL.
pub url_encode-room : (cap : ℕ) (s : Bytes) → 0 < cap → length (url_encode cap s) < cap
unfolding url_encode
url_encode-room cap s h = omega (arith, encode_loop-room cap 0 s h)

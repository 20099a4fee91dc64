-- ===== src/Jwt/Split.antt =====
-- The segments that jwt_split of src/common/jwt.c finds.
use naitron_c.Prelude.{
  ℕ, ◌+◌, [], ◌∷◌, ◌++◌, some, Bytes, length, take, drop, ◌≡◌, refl, sym, ap, ◌∙◌, ◌≢◌, inl, inr,
  arith, Option-cases, All, append_assoc, length-append, drop-add, take-length_append, length-take,
  some-inj, none-some,
}
use naitron_c.Http.Scan.{find_char}
use naitron_c.Http.ScanLaws.{find_char_bounds, find_char_split}
use mathlib.Core.Path.{subst, ap₂}
use native.Mathlib.Nat.{suc-add}
use naitron_c.Jwt.Token.{JwtParts, split_behind, jwt_split}

abbrev pub NoDot : Bytes → Type 0
NoDot = All (λ x. x ≢ b'.')

-- The bytes that the signature covers.
abbrev pub signed_bytes : JwtParts → Bytes
signed_bytes jp = jp.h ++ (b'.' ∷ jp.p)

-- The token is header.payload.signature, with no other dot before the signature.
pub record IsSplit (token : Bytes) (jp : JwtParts) : Type 0 where
  pub header_plain : NoDot jp.h
  pub payload_plain : NoDot jp.p
  pub joined : token ≡ signed_bytes jp ++ (b'.' ∷ jp.sig)
  pub signed : jp.signed_len ≡ length (signed_bytes jp)

find_char-append :
    (c : ℕ) (s t : Bytes) → All (λ x. x ≢ c) s → find_char c (s ++ (c ∷ t)) ≡ some (length s)
unfolding find_char
find_char-append c [] t h = ground arith
find_char-append c (x ∷ s) t h = ground (arith, find_char-append c s t h.1)

pub take-signed_len :
    {token : Bytes} {jp : JwtParts} → IsSplit token jp → take jp.signed_len token ≡ signed_bytes jp
take-signed_len {jp = jp} i =
    rw (i.signed, i.joined) (take-length_append (signed_bytes jp) (b'.' ∷ jp.sig))

-- The parts at dots in the places `d1` and `d2` of the token and of what follows the first dot.
abbrev cut_at : Bytes → ℕ → ℕ → JwtParts
cut_at token d1 d2 = record {
  h = take d1 token;
  p = take d2 (drop (d1 + 1) token);
  sig = drop (d1 + 1 + d2 + 1) token;
  signed_len = d1 + 1 + d2;
}

regroup : (a b : ℕ) → a + 1 + (b + 1) ≡ a + 1 + b + 1
regroup a b = omega arith

module _ (token : Bytes) {d1 d2 : ℕ} (first : find_char b'.' token ≡ some d1)
    (second : find_char b'.' (drop (d1 + 1) token) ≡ some d2) where
  rest_behind :
      take d2 (drop (d1 + 1) token) ++ (b'.' ∷ drop (d2 + 1) (drop (d1 + 1) token))
      ≡ take d2 (drop (d1 + 1) token) ++ (b'.' ∷ drop (d1 + 1 + d2 + 1) token)
  rest_behind = rw (← drop-add (d1 + 1) (d2 + 1) token, regroup d1 d2) refl

  cut_at-joined : token ≡ signed_bytes (cut_at token d1 d2) ++ (b'.' ∷ (cut_at token d1 d2).sig)
  cut_at-joined =
      (find_char_split b'.' token first).1
      ∙ (ap (λ u. take d1 token ++ (b'.' ∷ u))
            ((find_char_split b'.' (drop (d1 + 1) token) second).1 ∙ rest_behind)
          ∙ simp append_assoc)

  cut_at-signed : d1 + 1 + d2 ≡ length (signed_bytes (cut_at token d1 d2))
  cut_at-signed = omega (
    arith,
    length-append (take d1 token) (b'.' ∷ take d2 (drop (d1 + 1) token)),
    length-take d1 token,
    length-take d2 (drop (d1 + 1) token),
    find_char_bounds b'.' token first,
    find_char_bounds b'.' (drop (d1 + 1) token) second,
  )

  cut_at-IsSplit : IsSplit token (cut_at token d1 d2)
  cut_at-IsSplit = record {
    header_plain = (find_char_split b'.' token first).0;
    payload_plain = (find_char_split b'.' (drop (d1 + 1) token) second).0;
    joined = cut_at-joined;
    signed = cut_at-signed;
  }

split_behind-IsSplit :
    (token : Bytes) {d1 : ℕ} {jp : JwtParts}
    → find_char b'.' token ≡ some d1
    → split_behind token d1 ≡ some jp
    → IsSplit token jp
unfolding split_behind
split_behind-IsSplit token {d1} {jp} f h =
    elim (Option-cases (find_char b'.' (drop (d1 + 1) token))) [
      | inl n ↦ absurd (none-some (rw n at h))
      | inr (d2, e) ↦ subst (IsSplit token) (some-inj (rw e at h)) (cut_at-IsSplit token f e)
    ]

pub jwt_split-IsSplit :
    (token : Bytes) {jp : JwtParts} → jwt_split token ≡ some jp → IsSplit token jp
unfolding jwt_split
jwt_split-IsSplit token h = elim (Option-cases (find_char b'.' token)) [
  | inl n ↦ absurd (none-some (rw n at h))
  | inr (d1, e) ↦ split_behind-IsSplit token e (rw e at h)
]

drop_past : (c : ℕ) (s t : Bytes) → drop (length s + 1) (s ++ (c ∷ t)) ≡ t
drop_past c [] t = refl
drop_past c (x ∷ s) t = rw suc-add (drop_past c s t)

past_both :
    (h p sig : Bytes) → drop (length h + 1 + length p + 1) (h ++ (b'.' ∷ (p ++ (b'.' ∷ sig)))) ≡ sig
past_both h p sig =
    ap (λ n. drop n (h ++ (b'.' ∷ (p ++ (b'.' ∷ sig))))) (sym (regroup (length h) (length p)))
    ∙ drop-add (length h + 1) (length p + 1) (h ++ (b'.' ∷ (p ++ (b'.' ∷ sig))))
    ∙ ap (drop (length p + 1)) (drop_past b'.' h (p ++ (b'.' ∷ sig)))
    ∙ drop_past b'.' p sig

measured : (h p : Bytes) → length h + 1 + length p ≡ length (h ++ (b'.' ∷ p))
measured h p = omega (arith, length-append h (b'.' ∷ p))

jwt_split-joined :
    (h p sig : Bytes)
    → NoDot h
    → NoDot p
    → jwt_split (h ++ (b'.' ∷ (p ++ (b'.' ∷ sig))))
      ≡ some (record { h = h; p = p; sig = sig; signed_len = length (h ++ (b'.' ∷ p)) })
unfolding jwt_split split_behind
jwt_split-joined h p sig plain plain' =
    rw
      (
        find_char-append b'.' h (p ++ (b'.' ∷ sig)) plain,
        drop_past b'.' h (p ++ (b'.' ∷ sig)),
        find_char-append b'.' p sig plain',
        take-length_append h (b'.' ∷ (p ++ (b'.' ∷ sig))),
        take-length_append p (b'.' ∷ sig),
      )
      (ap some (
        ap₂ (λ a n. record { h = h; p = p; sig = a; signed_len = n }) (past_both h p sig)
          (measured h p)))

pub IsSplit-jwt_split :
    (token : Bytes) (jp : JwtParts) → IsSplit token jp → jwt_split token ≡ some jp
IsSplit-jwt_split token jp i =
    ap jwt_split (i.joined ∙ append_assoc jp.h (b'.' ∷ jp.p) (b'.' ∷ jp.sig))
    ∙ jwt_split-joined jp.h jp.p jp.sig i.header_plain i.payload_plain
    ∙ ap (λ n. some (record jp { signed_len = n })) (sym i.signed)

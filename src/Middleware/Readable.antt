-- ===== src/Middleware/Readable.antt =====
-- What src/core/middleware.c reads in a request whose token the checks of src/common/jwt.c accept.
use naitron_c.Prelude.{
  ◌<◌, true, List, [], ◌∷◌, ◌++◌, none, some, Bytes, length, ◌≡◌, refl, sym, ◌∙◌, ◌≢◌, ◌⊎◌, inl,
  inr, arith, Bool-cases, drop-length_append, take-length_append, ℤ, none-some, lt→ltb, codes,
  >>=-eq_some, if-eq_some,
}
use naitron_c.Slice.Laws.{mem_equal_iff}
use naitron_c.Schema.Check.{c_string}
use naitron_c.Json.Value.{Json}
use naitron_c.Jwt.Token.{
  JwtParts, JwtClaims, Peeked, jwt_split, text_at, segment_json, peeked_alg, peeked_kid,
  jwt_peek_header,
}
use naitron_c.Jwt.Keys.{JwkKey, JwkKty, jwk_rsa, jwk_ec, jwks_find, find_kid, first_suited}
use naitron_c.Jwt.Verify.{is_rs256, is_es256, verify_with, jwt_verify_jwks}
use naitron_c.Middleware.Before.{bearer, Checks, is_public}

pub bearer_of : (tok : Bytes) → 0 < length tok → bearer (codes "Bearer " ++ tok) ≡ some tok
unfolding bearer
bearer_of tok h =
    rw
      (
        take-length_append (codes "Bearer ") tok,
        drop-length_append (codes "Bearer ") tok,
        (mem_equal_iff (codes "Bearer ") (codes "Bearer ")).1 refl,
        lt→ltb 7 (length (codes "Bearer " ++ tok)) (omega (arith, h)),
      )
      refl

-- The header of a token that names HS256.
pub peek_hs256 :
    {N : Type 0} (strtod : Bytes → N) (token : Bytes) {jp : JwtParts} {header : Json N}
    → jwt_split token ≡ some jp
    → segment_json strtod 1024 jp.h ≡ some header
    → text_at header (codes "alg") ≡ codes "HS256"
    → (pk : Peeked) × (jwt_peek_header strtod token 16 80 ≡ some pk) × (pk.alg ≡ codes "HS256")
unfolding jwt_peek_header peeked_alg c_string
peek_hs256 strtod token {header = header} cut read named = (
  record { alg = codes "HS256"; kid = peeked_kid strtod 80 header },
  rw (cut, read, named) refl,
  refl,
)

is_public_of :
    (alg : Bytes) (t : JwkKty)
    → (is_rs256 alg t ≡ true) ⊎ (is_es256 alg t ≡ true)
    → is_public alg ≡ true
unfolding is_public is_rs256 is_es256
is_public_of alg jwk_rsa (inl h) = rw h refl
is_public_of alg jwk_rsa (inr h) = cc h
is_public_of alg jwk_ec (inl h) = cc h
is_public_of alg jwk_ec (inr h) = ground (arith, h)

no_keys : (ks : List JwkKey) (kid alg : Bytes) → length ks ≡ 0 → jwks_find ks kid alg ≡ none
unfolding jwks_find find_kid first_suited
no_keys [] kid alg h = ground arith
no_keys (k ∷ ks) kid alg h = absurd (omega (arith, h))

module _ {N : Type 0} (k : Checks N) where
  open k use {strtod, zero_num, to_long, rsa_vrfy, ecdsa_vrfy}

  verify_with-public :
      (token alg : Bytes) (now : ℤ) (key : JwkKey) {c : JwtClaims}
      → verify_with strtod zero_num to_long rsa_vrfy ecdsa_vrfy token alg now key ≡ some c
      → is_public alg ≡ true
  unfolding verify_with
  verify_with-public token alg now key h = elim (Bool-cases (is_rs256 alg key.kty)) [
    | inl t ↦ is_public_of alg key.kty (inl t)
    | inr f ↦ is_public_of alg key.kty (inr (if-eq_some (is_es256 alg key.kty) _ (rw f at h)).0)
  ]

  -- The keys that accept a token are not empty, and its header names a public algorithm.
  pub jwt_verify_jwks-peeked :
      (token : Bytes) (ks : List JwkKey) (now : ℤ) {c : JwtClaims}
      → jwt_verify_jwks strtod zero_num to_long rsa_vrfy ecdsa_vrfy token ks now ≡ some c
      → (pk : Peeked) × (jwt_peek_header strtod token 16 80 ≡ some pk)
        × (is_public pk.alg ≡ true)
        × (length ks ≢ 0)
  unfolding jwt_verify_jwks
  jwt_verify_jwks-peeked token ks now h =
      let (pk, peeked, h') = >>=-eq_some (jwt_peek_header strtod token 16 80) _ h in
      let (key, chosen, passed) = >>=-eq_some (jwks_find ks pk.kid pk.alg) _ h' in
      (
        pk,
        peeked,
        verify_with-public token pk.alg now key passed,
        λ e. none-some (sym (no_keys ks pk.kid pk.alg e) ∙ chosen),
      )

-- ===== src/Jwt/Signed.antt =====
-- Which tokens src/common/jwt.c accepts against a set of public keys. The checks of BearSSL are
-- parameters; a hash that the RSA check recovers has 32 bytes.
use naitron_c.Prelude.{
  ◌≤◌, ◌<◌, Bool, true, List, [], Option, none, some, ltb, ◌==◌, ◌!=◌, Bytes, length, take, ◌≡◌,
  refl, sym, ap, ◌∙◌, ◌⊎◌, inl, inr, arith, Bool-cases, ℤ, some-inj, lt→ltb, codes, >>=-eq_some,
  if-eq_some, unless-eq_some,
}
use naitron_c.Json.Value.{Json}
use naitron_c.Schema.Check.{c_string}
use naitron_c.Slice.Laws.{mem_equal_iff}
use naitron_c.Crypto.Sha.{sha256, sha_final, digest, be_word}
use naitron_c.Crypto.Base64.{base64url_decode}
use naitron_c.Crypto.CompareLaws.{ct_eq_iff}
use naitron_c.Jwt.Token.{
  JwtParts, JwtClaims, Peeked, jwt_split, decode_segment, jwt_peek_header, segment_json, text_at,
  peeked_alg, peeked_kid,
}
use naitron_c.Jwt.Keys.{RsaPubkey, JwkKey, JwkKty, jwk_rsa, jwk_ec, jwks_find}
use naitron_c.Jwt.Verify.{
  rsa_agrees, is_rs256, is_es256, jwt_verify_rs256, jwt_verify_es256, verify_with, jwt_verify_jwks,
}
use naitron_c.Jwt.Split.{signed_bytes, IsSplit, take-signed_len, jwt_split-IsSplit}
use naitron_c.Jwt.Accept.{HasClaims, jwt_parse_claims-HasClaims}
use naitron_c.Jwt.Selected.{IsSelected, jwks_find-IsSelected}

pub length-sha256 : (m : Bytes) → length (sha256 m) ≡ 32
unfolding sha256 sha_final digest be_word
length-sha256 m = refl

rsa_agrees-some :
    (r : Option Bytes) (hash : Bytes)
    → ((h : Bytes) → r ≡ some h → length h ≡ length hash)
    → rsa_agrees r hash ≡ true
    → r ≡ some hash
unfolding rsa_agrees
rsa_agrees-some none hash len h = cc
rsa_agrees-some (some hout) hash len h = ap some ((ct_eq_iff hout hash (len hout refl)).0 h)

is_rs256-parts :
    (alg : Bytes) (t : JwkKty) → is_rs256 alg t ≡ true → (alg ≡ codes "RS256") × (t ≡ jwk_rsa)
unfolding is_rs256
is_rs256-parts alg jwk_rsa h = ((mem_equal_iff alg (codes "RS256")).0 h, refl)
is_rs256-parts alg jwk_ec h = cc

is_es256-parts :
    (alg : Bytes) (t : JwkKty) → is_es256 alg t ≡ true → (alg ≡ codes "ES256") × (t ≡ jwk_ec)
unfolding is_es256
is_es256-parts alg jwk_rsa h = cc
is_es256-parts alg jwk_ec h = ((mem_equal_iff alg (codes "ES256")).0 h, refl)

-- The algorithm and the key id that the header of a token names. A key id that is missing, or that
-- has 80 bytes or more, counts as the empty one.
pub record Names {N : Type 0} (strtod : Bytes → N) (token : Bytes) (pk : Peeked) : Type 0 where
  pub parts : JwtParts
  pub split : IsSplit token parts
  pub header : Json N
  pub header_read : segment_json strtod 1024 parts.h ≡ some header
  pub alg : pk.alg ≡ c_string 15 (text_at header (codes "alg"))
  pub alg_fits :
      (0 < length (text_at header (codes "alg"))) × (length (text_at header (codes "alg")) < 16)
  pub kid :
      length (text_at header (codes "kid")) < 80
      → pk.kid ≡ c_string 79 (text_at header (codes "kid"))
  pub long_kid : 80 ≤ length (text_at header (codes "kid")) → pk.kid ≡ []

jwt_peek_header-Names :
    {N : Type 0} (strtod : Bytes → N) (token : Bytes) {pk : Peeked}
    → jwt_peek_header strtod token 16 80 ≡ some pk
    → Names strtod token pk
unfolding jwt_peek_header peeked_alg peeked_kid
jwt_peek_header-Names strtod token {pk = pk} h =
    let (jp, cut, h') = >>=-eq_some (jwt_split token) _ h in
    let (hj, header_read, h'') = >>=-eq_some (segment_json strtod 1024 jp.h) _ h' in
    let (alg, named, made) = >>=-eq_some (peeked_alg strtod 16 hj) _ h'' in
    let (present, named') = unless-eq_some (length (text_at hj (codes "alg")) == 0) _ named in
    let (fits, text) = if-eq_some (ltb (length (text_at hj (codes "alg"))) 16) _ named' in
    let peeked = some-inj made in
    record {
      parts = jp;
      split = jwt_split-IsSplit token cut;
      header = hj;
      header_read = header_read;
      alg = sym (ap (λ x. x.alg) peeked) ∙ sym (some-inj text);
      alg_fits = (ground (arith, present), ground (arith, fits));
      kid = λ short. sym (ap (λ x. x.kid) peeked) ∙ (rw (lt→ltb _ _ short) refl);
      long_kid = λ long. sym (ap (λ x. x.kid) peeked) ∙ ground (arith, long);
    }

module _ {N : Type 0} (strtod : Bytes → N) (zero_num : N) (to_long : N → ℤ)
    (rsa_vrfy : Bytes → Bytes → Bytes → Option Bytes) (ecdsa_vrfy : Bytes → Bytes → Bytes → Bool)
    (hash_len : (sig n e h : Bytes) → rsa_vrfy sig n e ≡ some h → length h ≡ 32) where
  -- The RSA check of the signature recovers the hash of header.payload.
  pub record IsRs256 (token : Bytes) (key : RsaPubkey) (now : ℤ) (c : JwtClaims) : Type 0 where
    pub parts : JwtParts
    pub split : IsSplit token parts
    pub sig : Bytes
    pub decoded : decode_segment 512 parts.sig ≡ some sig
    pub signature : rsa_vrfy sig key.n key.e ≡ some (sha256 (signed_bytes parts))
    pub claims : HasClaims strtod zero_num to_long parts (codes "RS256") now c

  jwt_verify_rs256-IsRs256 :
      (token : Bytes) (key : RsaPubkey) (now : ℤ) {c : JwtClaims}
      → jwt_verify_rs256 strtod zero_num to_long rsa_vrfy ecdsa_vrfy token key now ≡ some c
      → IsRs256 token key now c
  unfolding jwt_verify_rs256
  jwt_verify_rs256-IsRs256 token key now h =
      let (jp, cut, h') = >>=-eq_some (jwt_split token) _ h in
      let split = jwt_split-IsSplit token cut in
      let (sig, decoded, h'') = >>=-eq_some (decode_segment 512 jp.sig) _ h' in
      let (agree, parsed) =
        if-eq_some (rsa_agrees (rsa_vrfy sig key.n key.e) (sha256 (take jp.signed_len token))) _
          h'' in
      record {
        parts = jp;
        split = split;
        sig = sig;
        decoded = decoded;
        signature =
            rsa_agrees-some (rsa_vrfy sig key.n key.e) (sha256 (take jp.signed_len token))
              (λ hout e.
                hash_len sig key.n key.e hout e ∙ sym (length-sha256 (take jp.signed_len token)))
              agree
            ∙ ap (λ m. some (sha256 m)) (take-signed_len split);
        claims = jwt_parse_claims-HasClaims strtod zero_num to_long jp (codes "RS256") now parsed;
      }

  -- The signature has 64 bytes and passes the ECDSA check on the hash of header.payload.
  pub record IsEs256 (token q : Bytes) (now : ℤ) (c : JwtClaims) : Type 0 where
    pub parts : JwtParts
    pub split : IsSplit token parts
    pub sig : Bytes
    pub decoded : base64url_decode 160 parts.sig ≡ some sig
    pub measured : length sig ≡ 64
    pub signature : ecdsa_vrfy (sha256 (signed_bytes parts)) q sig ≡ true
    pub claims : HasClaims strtod zero_num to_long parts (codes "ES256") now c

  jwt_verify_es256-IsEs256 :
      (token q : Bytes) (now : ℤ) {c : JwtClaims}
      → jwt_verify_es256 strtod zero_num to_long rsa_vrfy ecdsa_vrfy token q now ≡ some c
      → IsEs256 token q now c
  unfolding jwt_verify_es256
  jwt_verify_es256-IsEs256 token q now h =
      let (present, h0) = unless-eq_some (length q == 0) _ h in
      let (jp, cut, h') = >>=-eq_some (jwt_split token) _ h0 in
      let split = jwt_split-IsSplit token cut in
      let (sig, decoded, h'') = >>=-eq_some (base64url_decode 160 jp.sig) _ h' in
      let (long, h3) = unless-eq_some (length sig != 64) _ h'' in
      let (agree, parsed) =
        if-eq_some (ecdsa_vrfy (sha256 (take jp.signed_len token)) q sig) _ h3 in
      record {
        parts = jp;
        split = split;
        sig = sig;
        decoded = decoded;
        measured = ground arith;
        signature = ap (λ m. ecdsa_vrfy (sha256 m) q sig) (sym (take-signed_len split)) ∙ agree;
        claims = jwt_parse_claims-HasClaims strtod zero_num to_long jp (codes "ES256") now parsed;
      }

  -- The algorithm of the token decides which check the key has passed.
  abbrev pub PassedWith : Bytes → Bytes → JwkKey → ℤ → JwtClaims → Type 0
  PassedWith token alg k now c =
      ((alg ≡ codes "RS256")
        × (k.kty ≡ jwk_rsa)
        × IsRs256 token (record { n = k.n; e = k.e }) now c)
      ⊎ ((alg ≡ codes "ES256") × (k.kty ≡ jwk_ec) × IsEs256 token k.q now c)

  verify_with-PassedWith :
      (token alg : Bytes) (now : ℤ) (k : JwkKey) {c : JwtClaims}
      → verify_with strtod zero_num to_long rsa_vrfy ecdsa_vrfy token alg now k ≡ some c
      → PassedWith token alg k now c
  unfolding verify_with
  verify_with-PassedWith token alg now k h = elim (Bool-cases (is_rs256 alg k.kty)) [
    | inl t ↦
        let (named, typed) = is_rs256-parts alg k.kty t in
        inl (
          named,
          typed,
          jwt_verify_rs256-IsRs256 token (record { n = k.n; e = k.e }) now (rw t at h),
        )
    | inr f ↦
        let (t, h') = if-eq_some (is_es256 alg k.kty) _ (rw f at h) in
        let (named, typed) = is_es256-parts alg k.kty t in
        inr (named, typed, jwt_verify_es256-IsEs256 token k.q now h')
  ]

  -- A token that is accepted against a set of keys has a header that names RS256 or ES256. The first
  -- key of the set that fits this algorithm and the key id of the header has the type of the algorithm
  -- and passes its signature check on header.payload, where a key id that is missing or has 80 bytes
  -- or more counts as none. The payload is an object with the claims, and an expiry that is not 0 is
  -- later than the time, if that is above 0. The hypothesis is that BearSSL recovers hashes of 32
  -- bytes.
  pub jwt_verify_jwks-PassedWith :
      (token : Bytes) (ks : List JwkKey) (now : ℤ) (c : JwtClaims)
      → jwt_verify_jwks strtod zero_num to_long rsa_vrfy ecdsa_vrfy token ks now ≡ some c
      → (pk : Peeked) × (k : JwkKey) × Names strtod token pk
        × IsSelected pk.kid pk.alg ks (some k)
        × PassedWith token pk.alg k now c
  unfolding jwt_verify_jwks
  jwt_verify_jwks-PassedWith token ks now c h =
      let (pk, peeked, h') = >>=-eq_some (jwt_peek_header strtod token 16 80) _ h in
      let (k, found, passed) = >>=-eq_some (jwks_find ks pk.kid pk.alg) _ h' in
      (
        pk,
        k,
        jwt_peek_header-Names strtod token peeked,
        rw found at (jwks_find-IsSelected ks pk.kid pk.alg),
        verify_with-PassedWith token pk.alg now k passed,
      )

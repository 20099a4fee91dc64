-- ===== src/Jwt/Accept.antt =====
-- Which tokens src/common/jwt.c accepts against a shared secret.
use naitron_c.Prelude.{
  true, false, some, ◌==◌, Bytes, length, take, ◌≡◌, refl, sym, ap, ◌∙◌, ◌≢◌, ◌↔◌, inl, inr,
  Bool-cases, ==_iff, &&_parts, ℤ, pos, is_zero, is_zero_iff, InTime, clock_iff, some-inj, codes,
  >>=-eq_some, if-eq_some, unless-eq_some,
}
use mathlib.Core.Path.{subst}
use naitron_c.Schema.Check.{c_string}
use naitron_c.Slice.{slice_eq}
use naitron_c.Slice.Laws.{slice_eq_iff}
use naitron_c.Crypto.Sha.{hmac_sha256}
use naitron_c.Crypto.Base64.{base64url_encode, ct_eq}
use naitron_c.Crypto.CompareLaws.{ct_eq_iff}
use naitron_c.Json.Value.{Json, Members, obj}
use naitron_c.Jwt.Token.{
  JwtParts, JwtClaims, has_expired, number_at, jwt_split, text_at, claims_of, segment_json,
  jwt_parse_claims,
}
use naitron_c.Jwt.Verify.{mac_agrees, jwt_verify_hs256}
use naitron_c.Jwt.Split.{
  signed_bytes, IsSplit, take-signed_len, jwt_split-IsSplit, IsSplit-jwt_split,
}

mac_agrees_iff : (a b : Bytes) → (mac_agrees a b ≡ true) ↔ (a ≡ b)
unfolding mac_agrees
mac_agrees_iff a b = (
  λ h.
      let (len, same) = &&_parts (length a == length b) (ct_eq a b) h in
      (ct_eq_iff a b ((==_iff (length a) (length b)).0 len)).0 same,
  λ e. rw (e, (==_iff (length b) (length b)).1 refl) ((ct_eq_iff b b refl).1 refl),
)

same_claims :
    (c : JwtClaims) (sub scope : Bytes) (exp iat : ℤ)
    → c.sub ≡ sub
    → c.scope ≡ scope
    → c.exp ≡ exp
    → c.iat ≡ iat
    → record { sub = sub; scope = scope; exp = exp; iat = iat } ≡ c
same_claims c sub scope exp iat h1 h2 h3 h4 = rw (sym h1, sym h2, sym h3, sym h4) refl

-- A token has an expiry when it is not 0.
has_expired_iff : (now exp : ℤ) → (has_expired now exp ≡ false) ↔ (exp ≢ pos 0 → InTime now exp)
unfolding has_expired
has_expired_iff now exp = (
  λ h timed. (clock_iff now exp).0 (elim (Bool-cases (is_zero exp)) [
    | inl z ↦ absurd (timed ((is_zero_iff exp).0 z))
    | inr f ↦ rw f at h
  ]),
  λ i. elim (Bool-cases (is_zero exp)) [
    | inl z ↦ rw z refl
    | inr f ↦ rw f ((clock_iff now exp).1 (i (λ e. cc (f, (is_zero_iff exp).1 e))))
  ],
)

module _ {N : Type 0} (strtod : Bytes → N) (zero_num : N) (to_long : N → ℤ) where
  -- The claims of an object, with the texts cut to the buffers. An expiry that is not 0 is later than
  -- the time, if that is above 0.
  pub record AreClaims (members : Members N) (now : ℤ) (c : JwtClaims) : Type 0 where
    pub sub : c.sub ≡ c_string 127 (text_at (obj members) (codes "sub"))
    pub scope : c.scope ≡ c_string 255 (text_at (obj members) (codes "scope"))
    pub exp : c.exp ≡ to_long (number_at zero_num (obj members) (codes "exp"))
    pub iat : c.iat ≡ to_long (number_at zero_num (obj members) (codes "iat"))
    pub in_time : c.exp ≢ pos 0 → InTime now c.exp

  claims_of-AreClaims :
      (payload : Json N) (now : ℤ) (c : JwtClaims)
      → claims_of zero_num to_long now payload ≡ some c
      → (members : Members N) × (payload ≡ obj members) × AreClaims members now c
  unfolding claims_of
  claims_of-AreClaims (obj ms) now c h =
      let exp = to_long (number_at zero_num (obj ms) (codes "exp")) in
      let (live, h') = unless-eq_some (has_expired now exp) _ h in
      let made = some-inj h' in
      (
        ms,
        refl,
        record {
          sub = sym (ap (λ x. x.sub) made);
          scope = sym (ap (λ x. x.scope) made);
          exp = sym (ap (λ x. x.exp) made);
          iat = sym (ap (λ x. x.iat) made);
          in_time =
              subst (λ t. t ≢ pos 0 → InTime now t) (ap (λ x. x.exp) made)
                ((has_expired_iff now exp).0 live);
        },
      )
  claims_of-AreClaims payload now c h = cc

  AreClaims-claims_of :
      (members : Members N) (now : ℤ) (c : JwtClaims)
      → AreClaims members now c
      → claims_of zero_num to_long now (obj members) ≡ some c
  unfolding claims_of
  AreClaims-claims_of ms now c a =
      rw ((has_expired_iff now _).1 (subst (λ t. t ≢ pos 0 → InTime now t) a.exp a.in_time))
        (ap some (same_claims c _ _ _ _ a.sub a.scope a.exp a.iat))

  -- The header, of at most 1024 bytes, names the algorithm, and the payload, of at most 4096, is an
  -- object with the claims.
  pub record HasClaims (jp : JwtParts) (alg : Bytes) (now : ℤ) (c : JwtClaims) : Type 0 where
    pub header : Json N
    pub members : Members N
    pub header_read : segment_json strtod 1024 jp.h ≡ some header
    pub names_alg : text_at header (codes "alg") ≡ alg
    pub payload_read : segment_json strtod 4096 jp.p ≡ some (obj members)
    pub claimed : AreClaims members now c

  pub jwt_parse_claims-HasClaims :
      (jp : JwtParts) (alg : Bytes) (now : ℤ) {c : JwtClaims}
      → jwt_parse_claims strtod zero_num to_long jp alg now ≡ some c
      → HasClaims jp alg now c
  unfolding jwt_parse_claims
  jwt_parse_claims-HasClaims jp alg now {c = c} h =
      let (hj, header_read, h') = >>=-eq_some (segment_json strtod 1024 jp.h) _ h in
      let (named, h'') = if-eq_some (slice_eq (text_at hj (codes "alg")) alg) _ h' in
      let (pj, payload_read, claimed) = >>=-eq_some (segment_json strtod 4096 jp.p) _ h'' in
      let (members, object, are) = claims_of-AreClaims pj now c claimed in
      record {
        header = hj;
        members = members;
        header_read = header_read;
        names_alg = (slice_eq_iff (text_at hj (codes "alg")) alg).0 named;
        payload_read = payload_read ∙ ap some object;
        claimed = are;
      }

  pub HasClaims-jwt_parse_claims :
      (jp : JwtParts) (alg : Bytes) (now : ℤ) {c : JwtClaims}
      → HasClaims jp alg now c
      → jwt_parse_claims strtod zero_num to_long jp alg now ≡ some c
  unfolding jwt_parse_claims
  HasClaims-jwt_parse_claims jp alg now {c = c} i =
      rw
        (
          i.header_read,
          (slice_eq_iff (text_at i.header (codes "alg")) alg).1 i.names_alg,
          i.payload_read,
        )
        (AreClaims-claims_of i.members now c i.claimed)

  -- The token is header.payload.signature, where the signature is the base64url of the HMAC of
  -- header.payload.
  pub record IsHs256 (token secret : Bytes) (now : ℤ) (c : JwtClaims) : Type 0 where
    pub parts : JwtParts
    pub split : IsSplit token parts
    pub signature : base64url_encode 64 (hmac_sha256 secret (signed_bytes parts)) ≡ some parts.sig
    pub claims : HasClaims parts (codes "HS256") now c

  jwt_verify_hs256-IsHs256 :
      (token secret : Bytes) (now : ℤ) {c : JwtClaims}
      → jwt_verify_hs256 strtod zero_num to_long token secret now ≡ some c
      → IsHs256 token secret now c
  unfolding jwt_verify_hs256
  jwt_verify_hs256-IsHs256 token secret now h =
      let (jp, cut, h') = >>=-eq_some (jwt_split token) _ h in
      let split = jwt_split-IsSplit token cut in
      let (mac, encoded, h'') =
        >>=-eq_some (base64url_encode 64 (hmac_sha256 secret (take jp.signed_len token))) _ h' in
      let (agree, parsed) = if-eq_some (mac_agrees mac jp.sig) _ h'' in
      record {
        parts = jp;
        split = split;
        signature =
            ap (λ m. base64url_encode 64 (hmac_sha256 secret m)) (sym (take-signed_len split))
            ∙ (encoded ∙ ap some ((mac_agrees_iff mac jp.sig).0 agree));
        claims = jwt_parse_claims-HasClaims jp (codes "HS256") now parsed;
      }

  IsHs256-jwt_verify_hs256 :
      (token secret : Bytes) (now : ℤ) {c : JwtClaims}
      → IsHs256 token secret now c
      → jwt_verify_hs256 strtod zero_num to_long token secret now ≡ some c
  unfolding jwt_verify_hs256
  IsHs256-jwt_verify_hs256 token secret now i =
      rw
        (
          IsSplit-jwt_split token i.parts i.split,
          take-signed_len i.split,
          i.signature,
          (mac_agrees_iff i.parts.sig i.parts.sig).1 refl,
        )
        (HasClaims-jwt_parse_claims i.parts (codes "HS256") now i.claims)

  -- A token is accepted as HS256 with the claims c exactly when it is header.payload.signature, the
  -- signature is the base64url of the HMAC of header.payload under the secret, the header is JSON
  -- that names HS256 and decodes to at most 1024 bytes, and the payload is a JSON object that decodes
  -- to at most 4096 bytes, whose subject and scope, cut to 127 and 255 bytes, and times are those of
  -- c, where an expiry that is not 0 is later than the time, if that is above 0.
  pub jwt_verify_hs256_iff :
      (token secret : Bytes) (now : ℤ) (c : JwtClaims)
      → (jwt_verify_hs256 strtod zero_num to_long token secret now ≡ some c)
        ↔ IsHs256 token secret now c
  jwt_verify_hs256_iff token secret now c =
      (jwt_verify_hs256-IsHs256 token secret now, IsHs256-jwt_verify_hs256 token secret now)

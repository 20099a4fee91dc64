-- ===== src/Middleware/Gate.antt =====
-- Which requests src/core/middleware.c lets through.
use naitron_c.Prelude.{
  ◌<◌, Bool, true, false, not, ◌&&◌, [], ◌++◌, Option, none, some, ltb, ◌==◌, Bytes, length, take,
  drop, ◌≡◌, refl, sym, ap, ◌∙◌, ◌≢◌, inl, inr, arith, Bool-cases, Option-cases, length-drop,
  take-append-drop, ltb→lt, ==_iff, &&_parts, ℤ, some-inj, none-some, codes, if-eq_some,
  unless-eq_some,
}
use naitron_c.Middleware.Keeps.{refresh_for-Keeps}
use naitron_c.Middleware.Before.{
  is_protected, authorize, check_header, refresh_for, check_jwt, check_token, bearer, Mw, Outside,
  MwResult, Checks, apikey_ok, is_public, with_claims, check_public, check_secret, check_peeked,
}
use naitron_c.Http.Access.{http_header}
use naitron_c.Http.{Request}
use naitron_c.Jwt.Token.{jwt_peek_header, JwtClaims, Peeked}
use mathlib.Core.Path.{subst}
use naitron_c.Slice.{mem_equal}
use naitron_c.Slice.Laws.{mem_equal_iff}
use naitron_c.Schema.Check.{c_string}
use naitron_c.Crypto.Base64.{ct_eq}
use naitron_c.Crypto.CompareLaws.{ct_eq_iff}
use naitron_c.Jwt.Verify.{jwt_verify_hs256, jwt_verify_jwks}
use naitron_c.Middleware.Headers.{MwConfig}

bearer-some :
    (a : Bytes) {tok : Bytes}
    → bearer a ≡ some tok
    → (a ≡ codes "Bearer " ++ tok) × (0 < length tok)
unfolding bearer
bearer-some a h =
    let (test, same) =
      if-eq_some (ltb 7 (length a) && mem_equal (take 7 a) (codes "Bearer ")) (some (drop 7 a)) h in
    let (long, named) = &&_parts (ltb 7 (length a)) (mem_equal (take 7 a) (codes "Bearer ")) test in
    subst (λ t. (a ≡ codes "Bearer " ++ t) × (0 < length t)) (some-inj same)
      (
        sym (take-append-drop 7 a)
            ∙ ap (λ t. t ++ drop 7 a) ((mem_equal_iff (take 7 a) (codes "Bearer ")).0 named),
        omega (arith, length-drop 7 a, ltb→lt 7 (length a) long),
      )

apikey_ok-same : (cfg : MwConfig) (tok : Bytes) → apikey_ok cfg tok ≡ true → tok ≡ cfg.auth_secret
unfolding apikey_ok
apikey_ok-same cfg tok h =
    let (len, same) =
      &&_parts (length tok == length cfg.auth_secret) (ct_eq tok cfg.auth_secret) h in
    (ct_eq_iff tok cfg.auth_secret ((==_iff (length tok) (length cfg.auth_secret)).0 len)).0 same

with_claims-some :
    (oc : Option JwtClaims) (r : MwResult) {r' : MwResult}
    → with_claims oc r ≡ some r'
    → (c : JwtClaims) × (oc ≡ some c) × (r'.auth_sub ≡ c_string 127 c.sub)
unfolding with_claims
with_claims-some none r h = absurd (none-some h)
with_claims-some (some c) r h = (c, refl, ap (λ (x : MwResult). x.auth_sub) (sym (some-inj h)))

with_claims-none : (r : MwResult) {x : Option MwResult} → with_claims none r ≡ x → none ≡ x
unfolding with_claims
with_claims-none r h = h

with_claims-still :
    (oc : Option JwtClaims) (r : MwResult) {r' : MwResult}
    → with_claims oc r ≡ some r'
    → r'.short_circuit ≡ r.short_circuit
unfolding with_claims
with_claims-still none r h = absurd (none-some h)
with_claims-still (some c) r h = ap (λ (x : MwResult). x.short_circuit) (sym (some-inj h))

module _ {D N : Type 0} (k : Checks N) where
  open k use {strtod, zero_num, to_long, rsa_vrfy, ecdsa_vrfy}

  -- What a token has to be, for the configuration and the keys of `m`, to get the result `r`.
  pub data Credential (m : Mw D) (now : ℤ) (tok : Bytes) (r : MwResult) : Type 0 where
    by_key : m.cfg.auth_mode ≡ codes "apikey" → tok ≡ m.cfg.auth_secret → Credential m now tok r
    by_secret :
        (c : JwtClaims)
        → m.cfg.auth_mode ≡ codes "jwt"
        → m.cfg.auth_secret ≢ []
        → jwt_verify_hs256 strtod zero_num to_long tok m.cfg.auth_secret now ≡ some c
        → r.auth_sub ≡ c_string 127 c.sub
        → Credential m now tok r
    by_public_key :
        (c : JwtClaims)
        → m.cfg.auth_mode ≡ codes "jwt"
        → jwt_verify_jwks strtod zero_num to_long rsa_vrfy ecdsa_vrfy tok m.jwks now ≡ some c
        → r.auth_sub ≡ c_string 127 c.sub
        → Credential m now tok r

  check_secret-some :
      (m : Mw D) (now : ℤ) (tok alg : Bytes) {c : JwtClaims}
      → check_secret k m now tok alg ≡ some c
      → (m.cfg.auth_secret ≢ [])
        × (jwt_verify_hs256 strtod zero_num to_long tok m.cfg.auth_secret now ≡ some c)
  unfolding check_secret
  check_secret-some m now tok alg h =
      let (test, verified) =
        if-eq_some (mem_equal alg (codes "HS256") && not (length m.cfg.auth_secret == 0)) _ h in
      let (named, present) =
        &&_parts (mem_equal alg (codes "HS256")) (not (length m.cfg.auth_secret == 0)) test in
      (λ e. ground (arith, ap length e), verified)

  check_public-some :
      (m : Mw D) (now : ℤ) (tok : Bytes) {c : JwtClaims}
      → check_public k m now tok ≡ some c
      → jwt_verify_jwks strtod zero_num to_long rsa_vrfy ecdsa_vrfy tok m.jwks now ≡ some c
  unfolding check_public
  check_public-some m now tok h = (unless-eq_some (length m.jwks == 0) _ h).1

  check_peeked-Credential :
      (m : Mw D) (o : Outside) (tok : Bytes) (pk : Peeked) (r : MwResult) {r' : MwResult}
      → (refresh_for strtod m o pk).cfg ≡ m.cfg
      → m.cfg.auth_mode ≡ codes "jwt"
      → with_claims (check_peeked k m o tok pk).1 r ≡ some r'
      → Credential (check_peeked k m o tok pk).0 o.now_unix tok r'
  unfolding check_peeked
  check_peeked-Credential m o tok pk r kept mode h =
      let (c, checked, sub) = with_claims-some (check_peeked k m o tok pk).1 r h in
      elim (Bool-cases (is_public pk.alg)) [
        | inl t ↦ rw t (
            by_public_key c (ap (λ (g : MwConfig). g.auth_mode) kept ∙ mode)
              (check_public-some (refresh_for strtod m o pk) o.now_unix tok (rw t at checked)) sub)
        | inr f ↦
            let (present, verified) = check_secret-some m o.now_unix tok pk.alg (rw f at checked) in
            rw f (by_secret c mode present verified sub)
      ]

  check_jwt-Credential :
      (m : Mw D) (o : Outside) (tok : Bytes) (r : MwResult) {r' : MwResult}
      → m.cfg.auth_mode ≡ codes "jwt"
      → with_claims (check_jwt k m o tok).1 r ≡ some r'
      → Credential (check_jwt k m o tok).0 o.now_unix tok r'
  unfolding check_jwt
  check_jwt-Credential m o tok r mode h = elim (Option-cases (jwt_peek_header strtod tok 16 80)) [
    | inl n ↦ absurd (none-some (with_claims-none r (rw (n, check_jwt) at h)))
    | inr (pk, e) ↦
        rw (e, check_jwt)
          (check_peeked-Credential m o tok pk r (refresh_for-Keeps k m o pk).0 mode
            (rw (e, check_jwt) at h))
  ]

  check_token-Credential :
      (m : Mw D) (o : Outside) (r : MwResult) (tok : Bytes) {r' : MwResult}
      → (check_token k m o r tok).1 ≡ some r'
      → Credential (check_token k m o r tok).0 o.now_unix tok r'
  unfolding check_token
  check_token-Credential m o r tok h =
      elim (Bool-cases (mem_equal m.cfg.auth_mode (codes "apikey"))) [
        | inl t ↦ rw t (
            by_key ((mem_equal_iff m.cfg.auth_mode (codes "apikey")).0 t)
              (apikey_ok-same m.cfg tok (if-eq_some (apikey_ok m.cfg tok) (some r) (rw t at h)).0))
        | inr f ↦ elim (Bool-cases (mem_equal m.cfg.auth_mode (codes "jwt"))) [
          | inl t ↦
              rw (f, t)
                (check_jwt-Credential m o tok r ((mem_equal_iff m.cfg.auth_mode (codes "jwt")).0 t)
                  (rw (f, t) at h))
          | inr g ↦ absurd (none-some (rw (f, g) at h))
        ]
      ]

  -- The request carries a token that is a credential.
  pub record IsAuthorized (m : Mw D) (now : ℤ) (req : Request) (r : MwResult) : Type 0 where
    pub token : Bytes
    pub carried : http_header req (codes "authorization") ≡ codes "Bearer " ++ token
    pub nonempty : 0 < length token
    pub credential : Credential m now token r

  pub authorize-IsAuthorized :
      (m : Mw D) (o : Outside) (pre_authed : Bool) (req : Request) (r : MwResult) {r' : MwResult}
      → is_protected m.cfg pre_authed req ≡ true
      → (authorize k m o pre_authed req r).1 ≡ some r'
      → IsAuthorized (authorize k m o pre_authed req r).0 o.now_unix req r'
  unfolding authorize check_header
  authorize-IsAuthorized m o pre_authed req r gate h =
      elim (Option-cases (bearer (http_header req (codes "authorization")))) [
        | inl n ↦ absurd (none-some (rw (gate, n) at h))
        | inr (tok, e) ↦
            let (carried, nonempty) = bearer-some (http_header req (codes "authorization")) e in
            rw (gate, e)
              (record {
                token = tok;
                carried = carried;
                nonempty = nonempty;
                credential = check_token-Credential m o r tok (rw (gate, e) at h);
              })
      ]

  pub authorize-none :
      (m : Mw D) (o : Outside) (pre_authed : Bool) (req : Request) (r : MwResult)
      → (authorize k m o pre_authed req r).1 ≡ none
      → is_protected m.cfg pre_authed req ≡ true
  unfolding authorize
  authorize-none m o pre_authed req r h = elim (Bool-cases (is_protected m.cfg pre_authed req)) [
    | inl t ↦ t
    | inr f ↦ absurd (none-some (sym (rw f at h)))
  ]

  check_token-still :
      (m : Mw D) (o : Outside) (r : MwResult) (tok : Bytes) {r' : MwResult}
      → (check_token k m o r tok).1 ≡ some r'
      → r'.short_circuit ≡ r.short_circuit
  unfolding check_token
  check_token-still m o r tok h = elim (Bool-cases (mem_equal m.cfg.auth_mode (codes "apikey"))) [
    | inl t ↦
        ap (λ (x : MwResult). x.short_circuit)
          (sym (some-inj (if-eq_some (apikey_ok m.cfg tok) (some r) (rw t at h)).1))
    | inr f ↦ elim (Bool-cases (mem_equal m.cfg.auth_mode (codes "jwt"))) [
      | inl t ↦ with_claims-still (check_jwt k m o tok).1 r (rw (f, t) at h)
      | inr g ↦ absurd (none-some (rw (f, g) at h))
    ]
  ]

  pub authorize-still :
      (m : Mw D) (o : Outside) (pre_authed : Bool) (req : Request) (r : MwResult) {r' : MwResult}
      → (authorize k m o pre_authed req r).1 ≡ some r'
      → r.short_circuit ≡ false
      → r'.short_circuit ≡ false
  unfolding authorize check_header
  authorize-still m o pre_authed req r h still =
      elim (Bool-cases (is_protected m.cfg pre_authed req)) [
        | inr f ↦ ap (λ (x : MwResult). x.short_circuit) (sym (some-inj (rw f at h))) ∙ still
        | inl t ↦ elim (Option-cases (bearer (http_header req (codes "authorization")))) [
          | inl n ↦ absurd (none-some (rw (t, n) at h))
          | inr (tok, e) ↦ check_token-still m o r tok (rw (t, e) at h) ∙ still
        ]
      ]

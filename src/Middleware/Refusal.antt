-- ===== src/Middleware/Refusal.antt =====
-- The gate of src/core/middleware.c refuses no request that carries a credential.
use naitron_c.Prelude.{
  Bool, true, false, [], ◌∷◌, Option, none, some, ◌==◌, Bytes, length, ◌≡◌, refl, sym, ap, ◌∙◌, ◌≢◌,
  inl, inr, arith, Bool-cases, ==_iff, none-some, codes,
}
use mathlib.Core.Path.{subst}
use naitron_c.Slice.{mem_equal}
use naitron_c.Slice.Laws.{mem_equal_iff}
use naitron_c.Crypto.CompareLaws.{ct_eq_iff}
use naitron_c.Http.Access.{http_header}
use naitron_c.Http.{Request}
use naitron_c.Jwt.Token.{JwtClaims, Peeked, jwt_peek_header}
use naitron_c.Jwt.Verify.{jwt_verify_hs256, jwt_verify_jwks}
use naitron_c.Jwt.Split.{IsSplit-jwt_split}
use naitron_c.Jwt.Accept.{jwt_verify_hs256_iff}
use naitron_c.Middleware.Headers.{MwConfig}
use naitron_c.Middleware.Before.{
  is_protected, authorize, check_header, refresh_for, check_jwt, check_token, bearer, Mw, Outside,
  MwResult, Checks, apikey_ok, is_public, with_claims, check_public, check_secret, check_peeked,
}
use naitron_c.Middleware.Keeps.{check_token-Keeps}
use naitron_c.Middleware.Gate.{Credential, by_key, by_secret, by_public_key, IsAuthorized}
use naitron_c.Middleware.Readable.{bearer_of, peek_hs256, jwt_verify_jwks-peeked}

module _ {D N : Type 0} (k : Checks N) where
  open k use {strtod, zero_num, to_long, rsa_vrfy, ecdsa_vrfy}

  check_jwt-secret :
      (m : Mw D) (o : Outside) (tok : Bytes) {c : JwtClaims}
      → m.cfg.auth_secret ≢ []
      → jwt_verify_hs256 strtod zero_num to_long tok m.cfg.auth_secret o.now_unix ≡ some c
      → (check_jwt k m o tok).1 ≡ some c
  unfolding check_jwt check_peeked check_secret is_public mem_equal
  check_jwt-secret m o tok {c = c} present verified =
      let i =
        (jwt_verify_hs256_iff strtod zero_num to_long tok m.cfg.auth_secret o.now_unix c).0
          verified in
      let (pk, peeked, named) =
        peek_hs256 strtod tok (IsSplit-jwt_split tok i.parts i.split) i.claims.header_read
          i.claims.names_alg in
      rw (peeked, check_jwt) (rw (named, length_not m.cfg.auth_secret present) verified)
    where
      length_not : (s : Bytes) → s ≢ [] → (length s == 0) ≡ false
      length_not [] h = absurd (h refl)
      length_not (x ∷ s) h = ground arith

  check_peeked-public :
      (m : Mw D) (o : Outside) (tok : Bytes) (pk : Peeked) {c : JwtClaims}
      → is_public pk.alg ≡ true
      → jwt_verify_jwks strtod zero_num to_long rsa_vrfy ecdsa_vrfy tok
          (check_peeked k m o tok pk).0.jwks
          o.now_unix
        ≡ some c
      → (check_peeked k m o tok pk).1 ≡ some c
  unfolding check_peeked check_public
  check_peeked-public m o tok pk {c = c} public verified =
      let m' = refresh_for strtod m o pk in
      let verified' : jwt_verify_jwks strtod zero_num to_long rsa_vrfy ecdsa_vrfy tok m'.jwks
            o.now_unix
          ≡ some c =
        rw public at verified in
      let keys = (jwt_verify_jwks-peeked k tok m'.jwks o.now_unix verified').3 in
      rw public (elim (Bool-cases (length m'.jwks == 0)) [
        | inl t ↦ absurd (keys ((==_iff (length m'.jwks) 0).0 t))
        | inr f ↦ rw f verified'
      ])

  check_jwt-peeked :
      (m : Mw D) (o : Outside) (tok : Bytes) (pk : Peeked) {c : JwtClaims}
      → jwt_peek_header strtod tok 16 80 ≡ some pk
      → is_public pk.alg ≡ true
      → jwt_verify_jwks strtod zero_num to_long rsa_vrfy ecdsa_vrfy tok
          (check_jwt k m o tok).0.jwks
          o.now_unix
        ≡ some c
      → (check_jwt k m o tok).1 ≡ some c
  unfolding check_jwt
  check_jwt-peeked m o tok pk peeked public verified =
      rw (peeked, check_jwt)
        (check_peeked-public m o tok pk public (rw (peeked, check_jwt) at verified))

  check_jwt-public :
      (m : Mw D) (o : Outside) (tok : Bytes) {c : JwtClaims}
      → jwt_verify_jwks strtod zero_num to_long rsa_vrfy ecdsa_vrfy tok
          (check_jwt k m o tok).0.jwks
          o.now_unix
        ≡ some c
      → (check_jwt k m o tok).1 ≡ some c
  check_jwt-public m o tok verified =
      let (pk, peeked, public, keys) =
        jwt_verify_jwks-peeked k tok (check_jwt k m o tok).0.jwks o.now_unix verified in
      check_jwt-peeked m o tok pk peeked public verified

  -- The mode decides which check a token gets.
  apikey_accepts :
      (m : Mw D) (o : Outside) (r : MwResult) (tok : Bytes)
      → m.cfg.auth_mode ≡ codes "apikey"
      → tok ≡ m.cfg.auth_secret
      → (check_token k m o r tok).1 ≡ some r
  unfolding check_token apikey_ok
  apikey_accepts m o r tok mode same =
      rw
        (
          (mem_equal_iff m.cfg.auth_mode (codes "apikey")).1 mode,
          same,
          (==_iff (length m.cfg.auth_secret) (length m.cfg.auth_secret)).1 refl,
          (ct_eq_iff m.cfg.auth_secret m.cfg.auth_secret refl).1 refl,
        )
        refl

  jwt_check_token :
      (m : Mw D) (o : Outside) (r : MwResult) (tok : Bytes)
      → m.cfg.auth_mode ≡ codes "jwt"
      → check_token k m o r tok ≡ ((check_jwt k m o tok).0, with_claims (check_jwt k m o tok).1 r)
  unfolding check_token mem_equal
  jwt_check_token m o r tok mode = rw mode refl

  jwt_accepts :
      (m : Mw D) (o : Outside) (r : MwResult) (tok : Bytes) {c : JwtClaims}
      → m.cfg.auth_mode ≡ codes "jwt"
      → (check_jwt k m o tok).1 ≡ some c
      → (check_token k m o r tok).1 ≢ none
  unfolding with_claims
  jwt_accepts m o r tok {c = c} mode checked e =
      let passes : (check_token k m o r tok).1 ≡ with_claims (some c) r =
        ap (λ p. p.1) (jwt_check_token m o r tok mode) ∙ ap (λ oc. with_claims oc r) checked in
      none-some (sym e ∙ passes)

  check_token-accepts :
      (m : Mw D) (o : Outside) (r : MwResult) (tok : Bytes) (x : MwResult)
      → Credential k (check_token k m o r tok).0 o.now_unix tok x
      → ¬ ((check_token k m o r tok).1 ≡ none)
  check_token-accepts m o r tok x (by_key mode same) =
      let kept = (check_token-Keeps k m o r tok).0 in
      λ e. none-some (
        sym e
        ∙ apikey_accepts m o r tok (ap (λ (g : MwConfig). g.auth_mode) (sym kept) ∙ mode)
            (same ∙ ap (λ (g : MwConfig). g.auth_secret) kept))
  check_token-accepts m o r tok x (by_secret c mode present verified sub) =
      let kept = (check_token-Keeps k m o r tok).0 in
      jwt_accepts m o r tok (ap (λ (g : MwConfig). g.auth_mode) (sym kept) ∙ mode) (
        check_jwt-secret m o tok (subst (λ (g : MwConfig). g.auth_secret ≢ []) kept present) (
          subst
            (λ (g : MwConfig).
              jwt_verify_hs256 strtod zero_num to_long tok g.auth_secret o.now_unix ≡ some c)
            kept verified))
  check_token-accepts m o r tok x (by_public_key c mode verified sub) =
      let kept = (check_token-Keeps k m o r tok).0 in
      let mode' = ap (λ (g : MwConfig). g.auth_mode) (sym kept) ∙ mode in
      jwt_accepts m o r tok mode'
        (check_jwt-public m o tok (rw (jwt_check_token m o r tok mode') at verified))

  authorize_checked :
      (m : Mw D) (o : Outside) (pre_authed : Bool) (req : Request) (r : MwResult) (tok : Bytes)
      → is_protected m.cfg pre_authed req ≡ true
      → bearer (http_header req (codes "authorization")) ≡ some tok
      → authorize k m o pre_authed req r ≡ check_token k m o r tok
  unfolding authorize check_header
  authorize_checked m o pre_authed req r tok gate e = rw (gate, e) refl

  -- What the gate refuses carries no credential.
  pub authorize-refuses :
      (m : Mw D) (o : Outside) (pre_authed : Bool) (req : Request) (r x : MwResult)
      → is_protected m.cfg pre_authed req ≡ true
      → (authorize k m o pre_authed req r).1 ≡ none
      → ¬ IsAuthorized k (authorize k m o pre_authed req r).0 o.now_unix req x
  authorize-refuses m o pre_authed req r x gate h a =
      let checked =
        authorize_checked m o pre_authed req r a.token gate
          (ap bearer a.carried ∙ bearer_of a.token a.nonempty) in
      check_token-accepts m o r a.token x
        (subst (λ (p : Mw D × Option MwResult). Credential k p.0 o.now_unix a.token x) checked
          a.credential)
        (ap (λ p. p.1) (sym checked) ∙ h)

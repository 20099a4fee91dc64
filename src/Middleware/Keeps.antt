-- ===== src/Middleware/Keeps.antt =====
-- What the check of a token leaves as it is: mw_fetch_jwks and mw_maybe_refresh of
-- src/core/middleware.c change only the keys and the time of their last fetch.
use naitron_c.Prelude.{
  Bool, not, ◌||◌, Option, none, some, ◌==◌, Bytes, length, ◌≡◌, refl, inl, inr, Bool-cases,
  Option-cases, codes,
}
use naitron_c.Middleware.Before.{
  is_protected, authorize, check_header, fetched, fetch_jwks, maybe_refresh, too_early, refresh_for,
  check_jwt, check_token, bearer, Mw, Outside, MwResult, Checks, is_public, check_peeked,
}
use naitron_c.Http.Access.{http_header}
use naitron_c.Http.{Request}
use naitron_c.Jwt.Token.{jwt_peek_header, Peeked}
use naitron_c.Jwt.Keys.{jwks_parse, jwks_find}
use naitron_c.Slice.{mem_equal}

-- A fetch changes only the keys and the time of the last fetch.
abbrev pub Keeps : {D : Type 0} → Mw D → Mw D → Type 0
Keeps m m' = (m'.cfg ≡ m.cfg) × (m'.buckets ≡ m.buckets) × (m'.has_ca ≡ m.has_ca)

module _ {D N : Type 0} (k : Checks N) where
  open k use {strtod, zero_num, to_long, rsa_vrfy, ecdsa_vrfy}

  pub fetched-Keeps : (m : Mw D) (got : Option Bytes) → Keeps m (fetched strtod m got)
  unfolding fetched
  fetched-Keeps m none = (refl, refl, refl)
  fetched-Keeps m (some doc) = elim (Option-cases (jwks_parse strtod doc)) [
    | inl n ↦ rw (n, fetched) (refl, refl, refl)
    | inr (ks, e) ↦ rw (e, fetched) (refl, refl, refl)
  ]

  fetch_jwks-Keeps : (m : Mw D) (o : Outside) → Keeps m (fetch_jwks strtod m o)
  unfolding fetch_jwks
  fetch_jwks-Keeps m o = elim (Bool-cases (length m.cfg.auth_jwks_url == 0 || not m.has_ca)) [
    | inl t ↦ rw t (refl, refl, refl)
    | inr f ↦ rw f (fetched-Keeps (record m { jwks_last_fetch_ms = o.fetch_ms }) o.https_get)
  ]

  maybe_refresh-Keeps : (m : Mw D) (o : Outside) → Keeps m (maybe_refresh strtod m o)
  unfolding maybe_refresh
  maybe_refresh-Keeps m o = elim (Bool-cases (length m.cfg.auth_jwks_url == 0 || not m.has_ca)) [
    | inl t ↦ rw t (refl, refl, refl)
    | inr f ↦ elim (Bool-cases (too_early m o.mono_ms)) [
      | inl t ↦ rw (f, t) (refl, refl, refl)
      | inr g ↦ rw (f, g) (fetch_jwks-Keeps m o)
    ]
  ]

  pub refresh_for-Keeps :
      (m : Mw D) (o : Outside) (pk : Peeked) → Keeps m (refresh_for strtod m o pk)
  unfolding refresh_for
  refresh_for-Keeps m o pk = elim (Bool-cases (length m.cfg.auth_jwks_url == 0)) [
    | inl t ↦ rw t (refl, refl, refl)
    | inr f ↦ elim (Option-cases (jwks_find m.jwks pk.kid pk.alg)) [
      | inl n ↦ rw (f, n, refresh_for) (maybe_refresh-Keeps m o)
      | inr (j, e) ↦ rw (f, e, refresh_for) (refl, refl, refl)
    ]
  ]

  pub check_peeked-Keeps :
      (m : Mw D) (o : Outside) (tok : Bytes) (pk : Peeked) → Keeps m (check_peeked k m o tok pk).0
  unfolding check_peeked
  check_peeked-Keeps m o tok pk = elim (Bool-cases (is_public pk.alg)) [
    | inl t ↦ rw t (refresh_for-Keeps m o pk)
    | inr f ↦ rw f (refl, refl, refl)
  ]

  pub check_jwt-Keeps : (m : Mw D) (o : Outside) (tok : Bytes) → Keeps m (check_jwt k m o tok).0
  unfolding check_jwt
  check_jwt-Keeps m o tok = elim (Option-cases (jwt_peek_header strtod tok 16 80)) [
    | inl n ↦ rw (n, check_jwt) (refl, refl, refl)
    | inr (pk, e) ↦ rw (e, check_jwt) (check_peeked-Keeps m o tok pk)
  ]

  pub check_token-Keeps :
      (m : Mw D) (o : Outside) (r : MwResult) (tok : Bytes) → Keeps m (check_token k m o r tok).0
  unfolding check_token
  check_token-Keeps m o r tok = elim (Bool-cases (mem_equal m.cfg.auth_mode (codes "apikey"))) [
    | inl t ↦ rw t (refl, refl, refl)
    | inr f ↦ elim (Bool-cases (mem_equal m.cfg.auth_mode (codes "jwt"))) [
      | inl t ↦ rw (f, t) (check_jwt-Keeps m o tok)
      | inr g ↦ rw (f, g) (refl, refl, refl)
    ]
  ]

  pub authorize-Keeps :
      (m : Mw D) (o : Outside) (pre_authed : Bool) (req : Request) (r : MwResult)
      → Keeps m (authorize k m o pre_authed req r).0
  unfolding authorize check_header
  authorize-Keeps m o pre_authed req r = elim (Bool-cases (is_protected m.cfg pre_authed req)) [
    | inr f ↦ rw f (refl, refl, refl)
    | inl t ↦ elim (Option-cases (bearer (http_header req (codes "authorization")))) [
      | inl n ↦ rw (t, n) (refl, refl, refl)
      | inr (tok, e) ↦ rw (t, e) (check_token-Keeps m o r tok)
    ]
  ]

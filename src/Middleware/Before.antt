-- ===== src/Middleware/Before.antt =====
-- The chain of src/core/middleware.c in front of a request. What the code reads outside (the clocks,
-- the random bytes, the answer of the JWKS endpoint) comes as arguments; the signature checks and the
-- numbers of JSON are parameters, as in Jwt.
use naitron_c.Prelude.{
  ℕ, ◌%◌, Bool, true, false, not, ◌||◌, ◌&&◌, List, [], Option, none, some, ltb, ◌==◌,
  if◌then◌else◌, Bytes, length, take, drop, ℤ, pos, ltb_int, is_zero, codes,
}
use naitron_c.Middleware.Bucket.{Double, Bucket, bucket_allow, hash_str, int_minus}
use naitron_c.Jwt.Verify.{jwt_verify_hs256, jwt_verify_jwks}
use naitron_c.Jwt.Token.{JwtClaims, Peeked, jwt_peek_header}
use naitron_c.Http.Access.{http_header}
use naitron_c.Slice.{mem_equal, slice_eq, slice_starts_with}
use naitron_c.Schema.Check.{c_string}
use naitron_c.Http.{Request}
use naitron_c.Crypto.Base64.{ct_eq}
use naitron_c.Jwt.Keys.{JwkKey, jwks_parse, jwks_find}
use naitron_c.Middleware.Headers.{MwConfig, extra_for}

abbrev pub rl_buckets : ℕ
rl_buckets = 1024

abbrev pub jwks_min_refresh_ms : ℤ
jwks_min_refresh_ms = pos 60000

-- `ntc_mw`; `has_ca` says whether there are trust anchors.
pub record Mw (D : Type 0) : Type 0 where
  pub cfg : MwConfig
  pub jwks : List JwkKey
  pub has_ca : Bool
  pub jwks_last_fetch_ms : ℤ
  pub buckets : ℕ → Bucket D

-- What the code reads while it handles a request: the monotonic clock of the refresh and that of the
-- fetch, the time of day, and the document that the endpoint would give.
pub record Outside : Type 0 where
  pub mono_ms : ℤ
  pub fetch_ms : ℤ
  pub now_unix : ℤ
  pub https_get : Option Bytes

pub record MwResult : Type 0 where
  pub short_circuit : Bool
  pub status : ℕ
  pub content_type : Bytes
  pub body : Bytes
  pub extra_headers : Bytes
  pub request_id : Bytes
  pub auth_sub : Bytes
  pub auth_scope : Bytes

-- `memset`, and the headers.
unfoldable pub start : MwConfig → Bytes → MwResult
start cfg id = record {
  short_circuit = false;
  status = 0;
  content_type = [];
  body = [];
  extra_headers = (extra_for cfg id).text;
  request_id = if cfg.request_id then id else [];
  auth_sub = [];
  auth_scope = [];
}

unfoldable pub answer : ℕ → Bytes → Bytes → MwResult → MwResult
answer status ctype body r = record r {
  short_circuit = true;
  status = status;
  content_type = ctype;
  body = body;
}

unfoldable pub preflight : MwConfig → Request → Bool
preflight cfg req = not (length cfg.cors_origin == 0) && slice_eq req.method (codes "OPTIONS")

unfoldable pub no_content : MwResult → MwResult
no_content r = answer 204 (codes "text/plain") [] r

unfoldable pub unauthorized : MwResult → MwResult
unauthorized r = answer 401 (codes "application/json") (codes "{\"error\":\"unauthorized\"}") r

unfoldable pub rate_limited : MwResult → MwResult
rate_limited r = answer 429 (codes "application/json") (codes "{\"error\":\"rate limited\"}") r

-- The request has to show a token.
unfoldable pub is_protected : MwConfig → Bool → Request → Bool
is_protected cfg pre_authed req =
    not (length cfg.auth_mode == 0)
    && not (mem_equal cfg.auth_mode (codes "none"))
    && not pre_authed
    && (length cfg.auth_protect == 0 || slice_starts_with req.path cfg.auth_protect)

-- The token of `Authorization: Bearer …`.
unfoldable pub bearer : Bytes → Option Bytes
bearer a =
    if ltb 7 (length a) && mem_equal (take 7 a) (codes "Bearer ") then some (drop 7 a) else none

unfoldable pub apikey_ok : MwConfig → Bytes → Bool
apikey_ok cfg tok = length tok == length cfg.auth_secret && ct_eq tok cfg.auth_secret

unfoldable pub is_public : Bytes → Bool
is_public alg = mem_equal alg (codes "RS256") || mem_equal alg (codes "ES256")

unfoldable pub with_claims : Option JwtClaims → MwResult → Option MwResult
with_claims none r = none
with_claims (some c) r =
    some (record r { auth_sub = c_string 127 c.sub; auth_scope = c_string 255 c.scope })

-- Less than the interval has passed since the last fetch.
unfoldable pub too_early : {D : Type 0} → Mw D → ℤ → Bool
too_early m now =
    not (is_zero m.jwks_last_fetch_ms)
    && ltb_int (int_minus now m.jwks_last_fetch_ms) jwks_min_refresh_ms

module _ {D N : Type 0} (strtod : Bytes → N) where
  -- The keys of the fetched document, if it parses.
  unfoldable pub fetched : Mw D → Option Bytes → Mw D
  fetched m none = m
  fetched m (some doc) = elim (jwks_parse strtod doc) [
    | none ↦ m
    | some ks ↦ record m { jwks = ks }
  ]

  -- `mw_fetch_jwks`.
  unfoldable pub fetch_jwks : Mw D → Outside → Mw D
  fetch_jwks m o =
      if length m.cfg.auth_jwks_url == 0 || not m.has_ca
      then m
      else fetched (record m { jwks_last_fetch_ms = o.fetch_ms }) o.https_get

  -- `mw_maybe_refresh`.
  unfoldable pub maybe_refresh : Mw D → Outside → Mw D
  maybe_refresh m o =
      if length m.cfg.auth_jwks_url == 0 || not m.has_ca
      then m
      else if too_early m o.mono_ms
      then m
      else fetch_jwks m o

  -- The refresh for a key that is not known.
  unfoldable pub refresh_for : Mw D → Outside → Peeked → Mw D
  refresh_for m o pk =
      if length m.cfg.auth_jwks_url == 0
      then m
      else elim (jwks_find m.jwks pk.kid pk.alg) [ some k ↦ m | none ↦ maybe_refresh m o ]

-- How a token is checked: the numbers of JSON and the signature checks.
pub record Checks (N : Type 0) : Type 0 where
  pub strtod : Bytes → N
  pub zero_num : N
  pub to_long : N → ℤ
  pub rsa_vrfy : Bytes → Bytes → Bytes → Option Bytes
  pub ecdsa_vrfy : Bytes → Bytes → Bytes → Bool

module _ {D N : Type 0} (k : Checks N) where
  open k use {strtod, zero_num, to_long, rsa_vrfy, ecdsa_vrfy}

  -- RS256 or ES256, with at least one key.
  unfoldable pub check_public : Mw D → ℤ → Bytes → Option JwtClaims
  check_public m now tok =
      if length m.jwks == 0
      then none
      else jwt_verify_jwks strtod zero_num to_long rsa_vrfy ecdsa_vrfy tok m.jwks now

  unfoldable pub check_secret : Mw D → ℤ → Bytes → Bytes → Option JwtClaims
  check_secret m now tok alg =
      if mem_equal alg (codes "HS256") && not (length m.cfg.auth_secret == 0)
      then jwt_verify_hs256 strtod zero_num to_long tok m.cfg.auth_secret now
      else none

  -- The claims of a token of the mode "jwt", with the keys after a refresh.
  unfoldable pub check_peeked : Mw D → Outside → Bytes → Peeked → Mw D × Option JwtClaims
  check_peeked m o tok pk =
      let m' = refresh_for strtod m o pk in
      if is_public pk.alg
      then (m', check_public m' o.now_unix tok)
      else (m, check_secret m o.now_unix tok pk.alg)

  unfoldable pub check_jwt : Mw D → Outside → Bytes → Mw D × Option JwtClaims
  check_jwt m o tok = elim (jwt_peek_header strtod tok 16 80) [
    | none ↦ (m, none)
    | some pk ↦ check_peeked m o tok pk
  ]

  -- The result with the subject, or `none` when the token does not pass.
  unfoldable pub check_token : Mw D → Outside → MwResult → Bytes → Mw D × Option MwResult
  check_token m o r tok =
      if mem_equal m.cfg.auth_mode (codes "apikey")
      then (m, if apikey_ok m.cfg tok then some r else none)
      else if mem_equal m.cfg.auth_mode (codes "jwt")
      then (let checked = check_jwt m o tok in (checked.0, with_claims checked.1 r))
      else (m, none)

  unfoldable pub check_header : Mw D → Outside → MwResult → Option Bytes → Mw D × Option MwResult
  check_header m o r none = (m, none)
  check_header m o r (some tok) = check_token m o r tok

  unfoldable pub authorize : Mw D → Outside → Bool → Request → MwResult → Mw D × Option MwResult
  authorize m o pre_authed req r =
      if is_protected m.cfg pre_authed req
      then check_header m o r (bearer (http_header req (codes "authorization")))
      else (m, some r)

-- The bucket in place `i` is replaced.
unfoldable pub set_bucket : {D : Type 0} → (ℕ → Bucket D) → ℕ → Bucket D → ℕ → Bucket D
set_bucket bs i b j = if j == i then b else bs j

module _ (d : Double) where
  open d use {D, of_int}

  abbrev pub burst_of : MwConfig → ℤ
  burst_of cfg = if ltb_int (pos 0) cfg.rate_burst then cfg.rate_burst else cfg.rate_per_sec

  -- The bucket after the call, and the answer.
  unfoldable pub charge : Mw D → ℕ → Bucket D × Bool → MwResult → Mw D × MwResult
  charge m i (b, true) r = (record m { buckets = set_bucket m.buckets i b }, r)
  charge m i (b, false) r = (record m { buckets = set_bucket m.buckets i b }, rate_limited r)

  unfoldable pub limit : Mw D → Bytes → ℤ → MwResult → Mw D × MwResult
  limit m client_ip now r =
      let i = hash_str client_ip % rl_buckets in
      if ltb_int (pos 0) m.cfg.rate_per_sec
      then charge m i
          (bucket_allow d (m.buckets i) now (of_int m.cfg.rate_per_sec) (of_int (burst_of m.cfg))) r
      else (m, r)

  -- Behind the gate.
  unfoldable pub admit : Mw D × Option MwResult → MwResult → Bytes → ℤ → Mw D × MwResult
  admit (m, none) r client_ip now = (m, unauthorized r)
  admit (m, some r') r client_ip now = limit m client_ip now r'

  -- `ntc_mw_before`; its result is `short_circuit`.
  unfoldable pub mw_before :
      {N : Type 0}
      → Checks N
      → Mw D
      → Request
      → Bytes
      → ℤ
      → Bool
      → Bytes
      → Outside
      → Mw D × MwResult
  mw_before k m req client_ip now pre_authed id o =
      let r = start m.cfg id in
      if preflight m.cfg req
      then (m, no_content r)
      else admit (authorize k m o pre_authed req r) r client_ip now

-- ===== src/Tests/MiddlewareRuns.antt =====
-- Runs of the middleware, with natural numbers for `double`.
use naitron_c.Prelude.{
  ℕ, ◌+◌, ◌-◌, ◌*◌, ◌/◌, ◌<◌, true, false, [], ◌∷◌, none, some, ltb, leb, Bytes, length, ◌≡◌, refl,
  arith, ℤ, pos, negsuc, codes,
}
use naitron_c.Http.{Request}
use naitron_c.Middleware.Bucket.{Double}
use naitron_c.Middleware.Headers.{MwConfig, extra_for, extra_cap, gen_request_id}
use naitron_c.Middleware.HeaderLaws.{all_headers, extra_for_bound}
use naitron_c.Middleware.Before.{Mw, Outside, Checks, MwResult, mw_before}
use naitron_c.Middleware.Decision.{Decision}

abbrev config : MwConfig
config = record {
  request_id = true;
  access_log = false;
  cors_origin = codes "*";
  rate_per_sec = pos 2;
  rate_burst = pos 0;
  auth_mode = codes "apikey";
  auth_secret = codes "key";
  auth_protect = codes "/api";
  auth_jwks_url = [];
}

abbrev random : Bytes
random = 1 ∷ 2 ∷ 3 ∷ 4 ∷ 5 ∷ 6 ∷ 7 ∷ 255 ∷ []

extra_for_bound_example :
    ((extra_for config (gen_request_id (some random))).text
      ≡ all_headers config (gen_request_id (some random)))
    × ((extra_for config (gen_request_id (some random))).off < extra_cap)
extra_for_bound_example = extra_for_bound config (some random) refl (omega arith)

-- Whole numbers, where below zero there is only zero.
abbrev to_nat : ℤ → ℕ
to_nat (pos n) = n
to_nat (negsuc n) = 0

abbrev whole_numbers : Double
whole_numbers = record {
  D = ℕ;
  zero_double = 0;
  one_double = 1;
  of_int = to_nat;
  seconds = λ ms. to_nat ms / 1000;
  plus = λ a b. a + b;
  minus = λ a b. a - b;
  times = λ a b. a * b;
  greater = λ a b. ltb b a;
  at_least = λ a b. leb b a;
}

abbrev checks : Checks ℕ
checks = record {
  strtod = length;
  zero_num = 0;
  to_long = pos;
  rsa_vrfy = λ sig n e. none;
  ecdsa_vrfy = λ hash q sig. false;
}

abbrev middleware : Mw ℕ
middleware = record {
  cfg = config;
  jwks = [];
  has_ca = false;
  jwks_last_fetch_ms = pos 0;
  buckets = λ i. record { tokens = 0; last_ms = pos 0 };
}

abbrev outside : Outside
outside = record { mono_ms = pos 5; fetch_ms = pos 5; now_unix = pos 9; https_get = none }

-- GET /api/x with the API key.
abbrev request : Request
request = record {
  method = codes "GET";
  target = codes "/api/x";
  path = codes "/api/x";
  query = [];
  minor_version = 1;
  headers = record { name = codes "Authorization"; value = codes "Bearer key" } ∷ [];
  params = [];
  auth_sub = [];
  auth_scope = [];
  has_content_length = false;
  content_length = 0;
  body = [];
}

abbrev outcome : Mw ℕ × MwResult
outcome =
    mw_before whole_numbers checks middleware request (codes "9.9.9.9") (pos 1000) false
      (gen_request_id (some random)) outside

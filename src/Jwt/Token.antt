-- ===== src/Jwt/Token.antt =====
-- The segments, the header and the claims of a token in src/common/jwt.c. The token is not NULL. The
-- memory for the parsed JSON is there. `strtod`, the number 0.0 and the conversion to `long` are
-- parameters.
use naitron_c.Prelude.{
  ℕ, ◌+◌, ◌-◌, Bool, not, ◌&&◌, [], Option, none, some, ltb, ◌==◌, if◌then◌else◌, Bytes, length,
  take, drop, ◌>>=◌, ℤ, pos, ltb_int, leb_int, is_zero, codes,
}
use naitron_c.Slice.{slice_eq}
use naitron_c.Http.Scan.{find_char}
use naitron_c.Schema.Check.{c_string}
use naitron_c.Crypto.Base64.{base64url_decode}
use naitron_c.Json.Value.{Json, obj, json_get, json_str, json_num}
use naitron_c.Json.Parse.{json_parse}

-- `jwt_parts`, with the three segments as runs of bytes.
pub record JwtParts : Type 0 where
  pub h : Bytes
  pub p : Bytes
  pub sig : Bytes
  pub signed_len : ℕ

-- `jwt_split` behind the first dot, which stands at `d1`; the second one is `d2` further on.
unfoldable pub split_behind : Bytes → ℕ → Option JwtParts
split_behind token d1 = find_char b'.' (drop (d1 + 1) token) >>= λ d2. some (record {
  h = take d1 token;
  p = take d2 (drop (d1 + 1) token);
  sig = drop (d1 + 1 + d2 + 1) token;
  signed_len = d1 + 1 + d2;
})

unfoldable pub jwt_split : Bytes → Option JwtParts
jwt_split token = find_char b'.' token >>= split_behind token

-- A decoded segment that is not empty, as the tests `hn > 0` and `pn > 0` ask for.
unfoldable pub decode_segment : ℕ → Bytes → Option Bytes
decode_segment cap s = base64url_decode cap s >>= λ b. if length b == 0 then none else some b

pub record JwtClaims : Type 0 where
  pub sub : Bytes
  pub scope : Bytes
  pub exp : ℤ
  pub iat : ℤ

-- `alg` and `kid` of a header.
pub record Peeked : Type 0 where
  pub alg : Bytes
  pub kid : Bytes

-- `exp && now_unix > 0 && now_unix >= exp`.
unfoldable pub has_expired : ℤ → ℤ → Bool
has_expired now exp = not (is_zero exp) && (ltb_int (pos 0) now && leb_int exp now)

module _ {N : Type 0} where
  -- `ntc_json_str(ntc_json_get(o, key))`, where a missing value gives the empty slice.
  unfoldable pub text_at : Json N → Bytes → Bytes
  text_at o key = elim (json_get o key) [ none ↦ [] | some v ↦ json_str v ]

  -- `ntc_json_num(ntc_json_get(o, key))`.
  unfoldable pub number_at : N → Json N → Bytes → N
  number_at zero_num o key = elim (json_get o key) [
    | none ↦ zero_num
    | some v ↦ json_num zero_num v
  ]

  -- The claims of an object that has not expired.
  unfoldable pub claims_of : N → (N → ℤ) → ℤ → Json N → Option JwtClaims
  claims_of zero_num to_long now (obj ms) =
      let exp = to_long (number_at zero_num (obj ms) (codes "exp")) in
      if has_expired now exp
      then none
      else some (record {
        sub = c_string 127 (text_at (obj ms) (codes "sub"));
        scope = c_string 255 (text_at (obj ms) (codes "scope"));
        exp = exp;
        iat = to_long (number_at zero_num (obj ms) (codes "iat"));
      })
  claims_of zero_num to_long now _ = none

module _ {N : Type 0} (strtod : Bytes → N) where
  unfoldable pub segment_json : ℕ → Bytes → Option (Json N)
  segment_json cap s = decode_segment cap s >>= json_parse strtod

  -- `jwt_parse_claims`.
  unfoldable pub jwt_parse_claims : N → (N → ℤ) → JwtParts → Bytes → ℤ → Option JwtClaims
  jwt_parse_claims zero_num to_long jp expect_alg now = segment_json 1024 jp.h >>= λ hj.
      if slice_eq (text_at hj (codes "alg")) expect_alg
      then (segment_json 4096 jp.p >>= claims_of zero_num to_long now)
      else none

  -- The name of the algorithm, if it is there and fits.
  unfoldable pub peeked_alg : ℕ → Json N → Option Bytes
  peeked_alg cap hj =
      let alg = text_at hj (codes "alg") in
      if length alg == 0
      then none
      else if ltb (length alg) cap
      then some (c_string (cap - 1) alg)
      else none

  -- The id of the key; "" when it is missing or does not fit.
  unfoldable pub peeked_kid : ℕ → Json N → Bytes
  peeked_kid cap hj =
      let kid = text_at hj (codes "kid") in
      if ltb (length kid) cap then c_string (cap - 1) kid else []

  unfoldable pub jwt_peek_alg : Bytes → ℕ → Option Bytes
  jwt_peek_alg token cap = jwt_split token >>= λ jp. segment_json 1024 jp.h >>= peeked_alg cap

  unfoldable pub jwt_peek_header : Bytes → ℕ → ℕ → Option Peeked
  jwt_peek_header token algcap kidcap = jwt_split token >>= λ jp. segment_json 1024 jp.h >>= λ hj.
      peeked_alg algcap hj >>= λ alg. some (record { alg = alg; kid = peeked_kid kidcap hj })

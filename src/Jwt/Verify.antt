-- ===== src/Jwt/Verify.antt =====
-- The verification of a token in src/common/jwt.c. The signature checks of BearSSL are parameters:
-- `rsa_vrfy sig n e` is the hash that br_rsa_i31_pkcs1_vrfy recovers, and `ecdsa_vrfy hash q sig` the
-- verdict of br_ecdsa_i31_vrfy_raw.
use naitron_c.Prelude.{
  Bool, false, ◌&&◌, List, Option, none, some, ◌==◌, ◌!=◌, if◌then◌else◌, Bytes, length, take,
  ◌>>=◌, ℤ, codes,
}
use naitron_c.Slice.{mem_equal}
use naitron_c.Crypto.Sha.{sha256, hmac_sha256}
use naitron_c.Crypto.Base64.{base64url_encode, base64url_decode, ct_eq}
use naitron_c.Jwt.Token.{JwtClaims, jwt_split, decode_segment, jwt_parse_claims, jwt_peek_header}
use naitron_c.Jwt.Keys.{RsaPubkey, JwkKey, JwkKty, jwk_rsa, jwk_ec, jwks_find}

-- The test of the signature, with the lengths compared first.
unfoldable pub mac_agrees : Bytes → Bytes → Bool
mac_agrees macb64 sig = length macb64 == length sig && ct_eq macb64 sig

-- `br_rsa_i31_pkcs1_vrfy` and the comparison of the hashes.
unfoldable pub rsa_agrees : Option Bytes → Bytes → Bool
rsa_agrees none hash = false
rsa_agrees (some hout) hash = ct_eq hout hash

unfoldable pub is_rs256 : Bytes → JwkKty → Bool
is_rs256 alg jwk_rsa = mem_equal alg (codes "RS256")
is_rs256 alg jwk_ec = false

unfoldable pub is_es256 : Bytes → JwkKty → Bool
is_es256 alg jwk_rsa = false
is_es256 alg jwk_ec = mem_equal alg (codes "ES256")

module _ {N : Type 0} (strtod : Bytes → N) (zero_num : N) (to_long : N → ℤ) where
  unfoldable pub jwt_verify_hs256 : Bytes → Bytes → ℤ → Option JwtClaims
  jwt_verify_hs256 token secret now = jwt_split token >>= λ jp.
      base64url_encode 64 (hmac_sha256 secret (take jp.signed_len token)) >>= λ macb64.
      if mac_agrees macb64 jp.sig
      then jwt_parse_claims strtod zero_num to_long jp (codes "HS256") now
      else none

module _ {N : Type 0} (strtod : Bytes → N) (zero_num : N) (to_long : N → ℤ)
    (rsa_vrfy : Bytes → Bytes → Bytes → Option Bytes)
    (ecdsa_vrfy : Bytes → Bytes → Bytes → Bool) where
  -- The key is present.
  unfoldable pub jwt_verify_rs256 : Bytes → RsaPubkey → ℤ → Option JwtClaims
  jwt_verify_rs256 token key now = jwt_split token >>= λ jp. decode_segment 512 jp.sig >>= λ sig.
      if rsa_agrees (rsa_vrfy sig key.n key.e) (sha256 (take jp.signed_len token))
      then jwt_parse_claims strtod zero_num to_long jp (codes "RS256") now
      else none

  unfoldable pub jwt_verify_es256 : Bytes → Bytes → ℤ → Option JwtClaims
  jwt_verify_es256 token q now =
      if length q == 0
      then none
      else (jwt_split token >>= λ jp. base64url_decode 160 jp.sig >>= λ sig.
          if length sig != 64
          then none
          else if ecdsa_vrfy (sha256 (take jp.signed_len token)) q sig
          then jwt_parse_claims strtod zero_num to_long jp (codes "ES256") now
          else none)

  -- The branches of `ntc_jwt_verify_jwks` on the key that was found.
  unfoldable pub verify_with : Bytes → Bytes → ℤ → JwkKey → Option JwtClaims
  verify_with token alg now k =
      if is_rs256 alg k.kty
      then jwt_verify_rs256 token (record { n = k.n; e = k.e }) now
      else if is_es256 alg k.kty
      then jwt_verify_es256 token k.q now
      else none

  unfoldable pub jwt_verify_jwks : Bytes → List JwkKey → ℤ → Option JwtClaims
  jwt_verify_jwks token ks now = jwt_peek_header strtod token 16 80 >>= λ pk.
      jwks_find ks pk.kid pk.alg >>= verify_with token pk.alg now

-- ===== src/Tests/JwtRuns.antt =====
-- Runs of the tokens and keys, with numbers of one digit.
use naitron_c.Prelude.{
  ℕ, ◌-◌, ◌≤◌, ◌<◌, Bool, true, ◌&&◌, List, [], ◌∷◌, ◌++◌, Option, some, ◌==◌, Bytes, length, ◌≡◌,
  refl, sym, ap, ◌↔◌, All, ℤ, pos, some-inj, codes,
}
use naitron_c.Jwt.Keys.{
  zeros, jwks_parse, jwk_b64u_field, jwk_load_one, keys_of, load_keys, load_rsa_key, one_key,
  short_name, strip_zeros, wanted, kty_eq, suits, find_kid, first_suited, jwks_find, JwkKey,
  jwk_rsa, jwk_ec,
}
use naitron_c.Jwt.Token.{
  Peeked, jwt_peek_header, text_at, decode_segment, jwt_split, split_behind, segment_json,
  peeked_alg, peeked_kid, jwt_parse_claims, claims_of, has_expired, number_at, JwtClaims,
}
use naitron_c.Crypto.Sha.{
  hmac_sha256, hmac_key, fill, sha256, sha_final, digest, length_bytes, be_word, pad_loop,
  sha_update, update_loop, flush, sha_block, add_words, rounds, sha_round, schedule, reversed,
  block_words, rotr,
}
use naitron_c.Jwt.Selected.{IsSelected, jwks_find-IsSelected}
use naitron_c.Jwt.Signed.{Names, PassedWith, jwt_verify_jwks-PassedWith}
use naitron_c.Slice.{mem_equal, slice_eq}
use naitron_c.Schema.Check.{c_string}
use naitron_c.Json.Value.{find_member, json_get, json_str, json_num}
use naitron_c.Crypto.Base64.{
  difference, base64url_encode, base64_loop, group_chars, b64_char, b64val, base64url_decode,
  decode_loop, ct_eq,
}
use naitron_c.Json.Strings.{puts, put, parse_string, string_loop, next_item, string_item}
use naitron_c.Json.Parse.{
  parse_number, number_span, json_parse, parse_value, value_here, skip_ws, value_at, parse_object,
  expect, members_loop, parse_array, items_loop, members_after, after_item, items_after,
  is_number_char, keep_item, keep_member,
}
use naitron_c.Http.Scan.{find_char}
use naitron_c.Jwt.Verify.{
  mac_agrees, jwt_verify_jwks, is_rs256, is_es256, jwt_verify_es256, verify_with, jwt_verify_hs256,
}
use naitron_c.Crypto.CompareLaws.{ct_eq_iff}
use naitron_c.Jwt.Accept.{IsHs256, jwt_verify_hs256_iff}
use naitron_c.Jwt.KeyLaws.{IsKey, jwks_parse-IsKey}

abbrev read_digit : Bytes → ℕ
read_digit [] = 0
read_digit (c ∷ s) = c - b'0'

abbrev to_long : ℕ → ℤ
to_long n = pos n

abbrev rsa_key : JwkKey
rsa_key = record {
  kty = jwk_rsa;
  kid = codes "a";
  alg = [];
  n = 1 ∷ 0 ∷ 1 ∷ [];
  e = 3 ∷ [];
  q = [];
}

abbrev ec_key : JwkKey
ec_key = record { kty = jwk_ec; kid = codes "b"; alg = []; n = []; e = []; q = 4 ∷ [] }

abbrev keys : List JwkKey
keys = rsa_key ∷ ec_key ∷ []

ct_eq_iff_example : (ct_eq (codes "ab") (codes "ac") ≡ true) ↔ (codes "ab" ≡ codes "ac")
ct_eq_iff_example = ct_eq_iff (codes "ab") (codes "ac") refl

jwks_find-IsSelected_example :
    IsSelected (codes "b") (codes "ES256") keys (jwks_find keys (codes "b") (codes "ES256"))
jwks_find-IsSelected_example = jwks_find-IsSelected keys (codes "b") (codes "ES256")

-- {"alg":"HS256"} and {"sub":"a","exp":9}, signed with "key".
abbrev hs_token : Bytes
hs_token =
    codes "eyJhbGciOiJIUzI1NiJ9.eyJzdWIiOiJhIiwiZXhwIjo5fQ."
    ++ codes "oYycFVHOb-FP1EYPvDxddI39rw0endnKPz2RkvFywIg"

abbrev hs_claims : JwtClaims
hs_claims = record { sub = codes "a"; scope = []; exp = pos 9; iat = pos 0 }

hs_token_accepted :
    jwt_verify_hs256 read_digit 0 to_long hs_token (codes "key") (pos 8) ≡ some hs_claims
unfolding json_parse parse_value value_here skip_ws value_at parse_object expect members_loop
    parse_string string_loop next_item string_item parse_array items_loop members_after after_item
    items_after b64val base64url_decode decode_loop is_number_char keep_item keep_member find_member
    json_get json_str c_string mem_equal slice_eq text_at jwt_split number_at json_num find_char
    split_behind segment_json decode_segment jwt_parse_claims claims_of has_expired jwt_verify_hs256
    mac_agrees ct_eq difference base64url_encode base64_loop group_chars b64_char hmac_sha256
    hmac_key fill sha256 sha_final digest length_bytes be_word pad_loop sha_update update_loop flush
    sha_block add_words rounds sha_round schedule reversed block_words rotr puts put parse_number
    number_span
hs_token_accepted = refl

abbrev claims : JwtClaims
claims = record { sub = codes "a"; scope = []; exp = pos 0; iat = pos 0 }

jwt_verify_hs256_iff_example :
    (jwt_verify_hs256 read_digit 0 to_long hs_token (codes "key") (pos 8) ≡ some hs_claims)
    ↔ IsHs256 read_digit 0 to_long hs_token (codes "key") (pos 8) hs_claims
jwt_verify_hs256_iff_example =
    jwt_verify_hs256_iff read_digit 0 to_long hs_token (codes "key") (pos 8) hs_claims

-- {"keys":[{"kty":"RSA","n":"AQAB","e":"Aw"}]}
abbrev document : Bytes
document = codes "{\"keys\":[{\"kty\":\"RSA\",\"n\":\"AQAB\",\"e\":\"Aw\"}]}"

abbrev document_key : JwkKey
document_key = record rsa_key { kid = [] }

document_parsed : jwks_parse read_digit document ≡ some (document_key ∷ [])
unfolding json_parse parse_value value_here skip_ws value_at parse_object expect members_loop
    parse_string string_loop next_item string_item parse_array items_loop members_after after_item
    items_after b64val base64url_decode decode_loop is_number_char keep_item keep_member find_member
    json_get json_str c_string mem_equal slice_eq text_at jwks_parse jwk_b64u_field jwk_load_one
    keys_of load_keys load_rsa_key one_key short_name strip_zeros decode_segment
document_parsed = refl

jwks_parse-IsKey_example : All IsKey (document_key ∷ []) × (0 < 1) × (1 ≤ 16)
jwks_parse-IsKey_example = jwks_parse-IsKey read_digit document (document_key ∷ []) document_parsed

-- {"alg":"ES256"}, {"sub":"a"} and 64 bytes.
abbrev es_token : Bytes
es_token =
    codes "eyJhbGciOiJFUzI1NiJ9.eyJzdWIiOiJhIn0."
    ++ codes
        "AAAAAAAAAAAAAAAAAAAAAAAAAAAAAAAAAAAAAAAAAAAAAAAAAAAAAAAAAAAAAAAAAAAAAAAAAAAAAAAAAAAAAA"

abbrev null_hash : Bytes → Bytes → Bytes → Option Bytes
null_hash sig n e = some (zeros 32)

null_hash_len : (sig n e h : Bytes) → null_hash sig n e ≡ some h → length h ≡ 32
unfolding zeros
null_hash_len sig n e h eq = ap length (sym (some-inj eq))

abbrev signs : Bytes → Bytes → Bytes → Bool
signs hash q sig = length q == 1 && length sig == 64

es_token_accepted :
    jwt_verify_jwks read_digit 0 to_long null_hash signs es_token keys (pos 9) ≡ some claims
unfolding json_parse parse_value value_here skip_ws value_at parse_object expect members_loop
    parse_string string_loop next_item string_item parse_array items_loop members_after after_item
    items_after b64val base64url_decode decode_loop is_number_char keep_item keep_member find_member
    json_get json_str c_string mem_equal slice_eq text_at jwt_verify_jwks jwt_peek_header jwt_split
    find_char split_behind segment_json decode_segment peeked_alg peeked_kid jwt_parse_claims
    claims_of has_expired number_at json_num wanted kty_eq suits find_kid first_suited jwks_find
    is_rs256 is_es256 jwt_verify_es256 verify_with
es_token_accepted = refl

jwt_verify_jwks-PassedWith_example :
    (pk : Peeked) × (k : JwkKey) × Names read_digit es_token pk
    × IsSelected pk.kid pk.alg keys (some k)
    × PassedWith read_digit 0 to_long null_hash signs null_hash_len es_token pk.alg k (pos 9) claims
jwt_verify_jwks-PassedWith_example =
    jwt_verify_jwks-PassedWith read_digit 0 to_long null_hash signs null_hash_len es_token keys
      (pos 9) claims es_token_accepted

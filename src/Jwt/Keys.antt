-- ===== src/Jwt/Keys.antt =====
-- The keys of a JWKS document in src/common/jwt.c. The document is not NULL and the memory for the
-- parsed JSON is there. A key that is refused is not counted, and the next one is written over it.
use naitron_c.Prelude.{
  ℕ, zero, suc, ◌-◌, Bool, true, false, List, [], ◌∷◌, ◌++◌, Option, none, some, ltb, ◌==◌,
  if◌then◌else◌, Bytes, length, ◌>>=◌, codes,
}
use naitron_c.Slice.{slice_eq, mem_equal}
use naitron_c.Schema.Check.{c_string}
use naitron_c.Json.Value.{Json, Items, item, no_items, arr, obj, json_get}
use naitron_c.Json.Parse.{json_parse}
use naitron_c.Jwt.Token.{decode_segment, text_at}

-- `ntc_rsa_pubkey` with `present`.
pub record RsaPubkey : Type 0 where
  pub n : Bytes
  pub e : Bytes

-- `ntc_jwk_kty`.
pub data JwkKty : Type 0 where
  jwk_rsa jwk_ec : JwkKty

pub record JwkKey : Type 0 where
  pub kty : JwkKty
  pub kid : Bytes
  pub alg : Bytes
  pub n : Bytes
  pub e : Bytes
  pub q : Bytes

abbrev pub jwks_max_keys : ℕ
jwks_max_keys = 16

-- The loop over leading zeros; the last byte stays.
unfoldable pub strip_zeros : Bytes → Bytes
strip_zeros [] = []
strip_zeros (x ∷ []) = x ∷ []
strip_zeros (x ∷ y ∷ s) = let rest = strip_zeros (y ∷ s) in if x == 0 then rest else x ∷ y ∷ s

-- `memset(out, 0, 32)` and the copy to its end.
unfoldable pub zeros : ℕ → Bytes
zeros zero = []
zeros (suc n) = 0 ∷ zeros n

unfoldable pub pad_left : Bytes → Option Bytes
pad_left t = if ltb 32 (length t) then none else some (zeros (32 - length t) ++ t)

-- `snprintf` of a name that fits into an array of `cap` bytes, which is "" otherwise.
unfoldable pub short_name : ℕ → Bytes → Bytes
short_name cap s = if ltb (length s) cap then c_string (cap - 1) s else []

-- The one key of a document that is a bare JWK.
unfoldable pub one_key : Option JwkKey → List JwkKey
one_key none = []
one_key (some k) = k ∷ []

module _ {N : Type 0} where
  -- `jwk_b64u_field`.
  unfoldable pub jwk_b64u_field : Json N → Bytes → ℕ → Option Bytes
  jwk_b64u_field o name cap =
      let s = text_at o name in
      if length s == 0 then none else (decode_segment cap s >>= λ b. some (strip_zeros b))

  -- `jwk_ec_coord`.
  unfoldable pub jwk_ec_coord : Json N → Bytes → Option Bytes
  jwk_ec_coord o name =
      let s = text_at o name in if length s == 0 then none else (decode_segment 48 s >>= pad_left)

  unfoldable pub jwk_load_rsa : Json N → Option RsaPubkey
  jwk_load_rsa (obj ms) =
      if slice_eq (text_at (obj ms) (codes "kty")) (codes "RSA")
      then (jwk_b64u_field (obj ms) (codes "n") 512 >>= λ n.
          jwk_b64u_field (obj ms) (codes "e") 16 >>= λ e. some (record { n = n; e = e }))
      else none
  jwk_load_rsa _ = none

  -- The loop that stops at the first key that loads.
  unfoldable pub first_rsa : Items N → Option RsaPubkey
  first_rsa no_items = none
  first_rsa (item v vs) =
      let rest = first_rsa vs in elim (jwk_load_rsa v) [ none ↦ rest | some k ↦ some k ]

  unfoldable pub load_rsa_key : Bytes → Bytes → Json N → Option JwkKey
  load_rsa_key kid alg o = jwk_b64u_field o (codes "n") 512 >>= λ n.
      jwk_b64u_field o (codes "e") 16 >>= λ e.
      some (record { kty = jwk_rsa; kid = kid; alg = alg; n = n; e = e; q = [] })

  unfoldable pub load_ec_key : Bytes → Bytes → Json N → Option JwkKey
  load_ec_key kid alg o =
      if slice_eq (text_at o (codes "crv")) (codes "P-256")
      then (jwk_ec_coord o (codes "x") >>= λ x. jwk_ec_coord o (codes "y") >>= λ y.
          some (record { kty = jwk_ec; kid = kid; alg = alg; n = []; e = []; q = 4 ∷ (x ++ y) }))
      else none

  -- `jwk_load_one`.
  unfoldable pub jwk_load_one : Json N → Option JwkKey
  jwk_load_one (obj ms) =
      let kty = text_at (obj ms) (codes "kty") in
      let kid = short_name 80 (text_at (obj ms) (codes "kid")) in
      let alg = short_name 16 (text_at (obj ms) (codes "alg")) in
      if slice_eq kty (codes "RSA")
      then load_rsa_key kid alg (obj ms)
      else if slice_eq kty (codes "EC")
      then load_ec_key kid alg (obj ms)
      else none
  jwk_load_one _ = none

  -- The loop, with room for `room` more keys.
  unfoldable pub load_keys : ℕ → Items N → List JwkKey
  load_keys zero vs = []
  load_keys (suc room) no_items = []
  load_keys (suc room) (item v vs) = elim (jwk_load_one v) [
    | none ↦ load_keys (suc room) vs
    | some k ↦ k ∷ load_keys room vs
  ]

  unfoldable pub keys_of : Json N → Option (Json N) → List JwkKey
  keys_of root (some (arr vs)) = load_keys jwks_max_keys vs
  keys_of root _ = one_key (jwk_load_one root)

  unfoldable pub rsa_of : Json N → Option (Json N) → Option RsaPubkey
  rsa_of root (some (arr vs)) = first_rsa vs
  rsa_of root _ = jwk_load_rsa root

module _ {N : Type 0} (strtod : Bytes → N) where
  -- `ntc_jwk_parse`.
  unfoldable pub jwk_parse : Bytes → Option RsaPubkey
  jwk_parse json = json_parse strtod json >>= λ root. rsa_of root (json_get root (codes "keys"))

  -- `ntc_jwks_parse`; the result true comes with at least one key.
  unfoldable pub jwks_parse : Bytes → Option (List JwkKey)
  jwks_parse json = json_parse strtod json >>= λ root.
      let ks = keys_of root (json_get root (codes "keys")) in
      if length ks == 0 then none else some ks

-- The key types that `alg` asks for: none is -1, any type.
unfoldable pub wanted : Bytes → Option JwkKty
wanted alg =
    if mem_equal alg (codes "RS256")
    then some jwk_rsa
    else if mem_equal alg (codes "ES256")
    then some jwk_ec
    else none

unfoldable pub kty_eq : JwkKty → JwkKty → Bool
kty_eq jwk_rsa jwk_rsa = true
kty_eq jwk_ec jwk_ec = true
kty_eq _ _ = false

-- Not `want >= 0 && k->kty != want`.
unfoldable pub suits : Option JwkKty → JwkKey → Bool
suits none k = true
suits (some t) k = kty_eq k.kty t

-- The loop of `ntc_jwks_find` when the token names a key.
unfoldable pub find_kid : Option JwkKty → Bytes → List JwkKey → Option JwkKey
find_kid want kid [] = none
find_kid want kid (k ∷ ks) =
    let rest = find_kid want kid ks in
    if suits want k then (if mem_equal k.kid kid then some k else rest) else rest

-- The same loop when it names none: `fallback`.
unfoldable pub first_suited : Option JwkKty → List JwkKey → Option JwkKey
first_suited want [] = none
first_suited want (k ∷ ks) =
    let rest = first_suited want ks in if suits want k then some k else rest

-- `ntc_jwks_find`, with both names given.
unfoldable pub jwks_find : List JwkKey → Bytes → Bytes → Option JwkKey
jwks_find ks kid alg =
    if length kid == 0 then first_suited (wanted alg) ks else find_kid (wanted alg) kid ks

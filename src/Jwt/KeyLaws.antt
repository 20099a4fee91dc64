-- ===== src/Jwt/KeyLaws.antt =====
-- The keys that src/common/jwt.c reads fit into the arrays of ntc_jwk_key.
use naitron_c.Prelude.{
  ℕ, zero, suc, ◌+◌, ◌-◌, ◌*◌, ◌/◌, ◌%◌, ◌^◌, ◌≤◌, ◌<◌, List, [], ◌∷◌, ◌++◌, Option, none, some,
  ltb, leb, ◌==◌, Bytes, length, get_or, ◌≡◌, refl, ap, inl, inr, arith, Bool-cases, Option-cases,
  All, length-append, some-inj, codes, >>=-eq_some, if-eq_some, unless-eq_some,
}
use naitron_c.Json.Parse.{json_parse}
use naitron_c.Json.Value.{
  Items, json_null, boolean, num, str, arr, obj, item, no_items, json_get, Json,
}
use naitron_c.Jwt.Keys.{
  one_key, jwk_load_one, load_keys, keys_of, jwks_parse, JwkKey, jwk_rsa, jwk_ec, jwk_b64u_field,
  jwk_ec_coord, load_rsa_key, load_ec_key, strip_zeros, zeros, pad_left, short_name,
}
use naitron_c.Slice.{slice_eq}
use mathlib.Core.Path.{subst}
use naitron_c.Jwt.Token.{text_at, decode_segment}
use naitron_c.Schema.Check.{c_string}
use naitron_c.Crypto.Base64.{b64val, decode_loop, base64url_decode}

decode_loop_bound :
    (cap acc bits : ℕ) (out s : Bytes) {r : Bytes}
    → length out ≤ cap
    → decode_loop cap acc bits out s ≡ some r
    → length r ≤ cap
unfolding decode_loop
decode_loop_bound cap acc bits out [] h e = ground (arith, ap length (some-inj e))
decode_loop_bound cap acc bits out (c ∷ s) h e =
    let (v, got, e') = >>=-eq_some (b64val c) _ e in
    let acc' : ℕ = (acc * 64 + v) % 2 ^ 32 in
    elim (Bool-cases (leb 8 (bits + 6))) [
      | inl t ↦
          let byte : ℕ = acc' / 2 ^ (bits + 6 - 8) % 256 in
          let (room, e'') = unless-eq_some (leb cap (length out)) _ (rw t at e') in
          decode_loop_bound cap acc' (bits + 6 - 8) (out ++ (byte ∷ [])) s
            (ground (arith, length-append out (byte ∷ []))) e''
      | inr f ↦ decode_loop_bound cap acc' (bits + 6) out s h (rw f at e')
    ]

-- What decodes into `cap` bytes without being empty.
decode_segment_bounds :
    (cap : ℕ) (s : Bytes) {r : Bytes}
    → decode_segment cap s ≡ some r
    → (0 < length r) × (length r ≤ cap)
unfolding decode_segment base64url_decode
decode_segment_bounds cap s h =
    let (b, decoded, h') = >>=-eq_some (base64url_decode cap s) _ h in
    let (nonempty, same) = unless-eq_some (length b == 0) _ h' in
    ground (arith, decode_loop_bound cap 0 0 [] s (omega arith) decoded, ap length (some-inj same))

strip_zeros_bounds :
    (s : Bytes) → (length (strip_zeros s) ≤ length s) × (0 < length s → 0 < length (strip_zeros s))
unfolding strip_zeros
strip_zeros_bounds [] = ground arith
strip_zeros_bounds (x ∷ []) = ground arith
strip_zeros_bounds (x ∷ y ∷ s) = ground (arith, strip_zeros_bounds (y ∷ s))

-- A number without leading zeros: its first byte is 0 only if it is the only one.
abbrev pub IsTidy : Bytes → Type 0
IsTidy [] = Unit
IsTidy (x ∷ s) = x ≡ 0 → s ≡ []

strip_zeros-IsTidy : (s : Bytes) → IsTidy (strip_zeros s)
unfolding strip_zeros
strip_zeros-IsTidy [] = tt
strip_zeros-IsTidy (x ∷ []) = λ e. refl
strip_zeros-IsTidy (x ∷ y ∷ s) = elim (Bool-cases (x == 0)) [
  | inl t ↦ rw t (strip_zeros-IsTidy (y ∷ s))
  | inr f ↦ rw f (λ e. absurd (ground arith))
]

length-zeros : (n : ℕ) → length (zeros n) ≡ n
unfolding zeros
length-zeros zero = refl
length-zeros (suc n) = ap suc (length-zeros n)

length-pad_left : (t : Bytes) {r : Bytes} → pad_left t ≡ some r → length r ≡ 32
unfolding pad_left
length-pad_left t h =
    let (short, e) = unless-eq_some (ltb 32 (length t)) _ h in
    let same = ap length (some-inj e) in
    ground (arith, same, length-append (zeros (32 - length t)) t, length-zeros (32 - length t))

length-c_string : (room : ℕ) (s : Bytes) → length (c_string room s) ≤ room
unfolding c_string
length-c_string zero s = omega arith
length-c_string (suc room) [] = omega arith
length-c_string (suc room) (c ∷ s) = ground (arith, length-c_string room s)

length-short_name : (cap : ℕ) (s : Bytes) → 0 < cap → length (short_name cap s) < cap
unfolding short_name
length-short_name cap s h = ground (arith, length-c_string (cap - 1) s)

-- A number of an RSA key in an array of `cap` bytes.
pub record IsNumber (cap : ℕ) (b : Bytes) : Type 0 where
  pub nonempty : 0 < length b
  pub fits : length b ≤ cap
  pub tidy : IsTidy b

-- What the arrays of a key hold.
pub record IsKey (k : JwkKey) : Type 0 where
  pub kid_fits : length k.kid < 80
  pub alg_fits : length k.alg < 16
  pub modulus : k.kty ≡ jwk_rsa → IsNumber 512 k.n
  pub exponent : k.kty ≡ jwk_rsa → IsNumber 16 k.e
  pub point : k.kty ≡ jwk_ec → (length k.q ≡ 65) × (get_or k.q 0 0 ≡ 4)

module _ {N : Type 0} where
  jwk_b64u_field-IsNumber :
      (o : Json N) (name : Bytes) (cap : ℕ) {b : Bytes}
      → jwk_b64u_field o name cap ≡ some b
      → IsNumber cap b
  unfolding jwk_b64u_field
  jwk_b64u_field-IsNumber o name cap h =
      let (given, h') = unless-eq_some (length (text_at o name) == 0) _ h in
      let (b, decoded, same) = >>=-eq_some (decode_segment cap (text_at o name)) _ h' in
      let (nonempty, fits) = decode_segment_bounds cap (text_at o name) decoded in
      let (shorter, kept) = strip_zeros_bounds b in
      subst (IsNumber cap) (some-inj same)
        (record { nonempty = kept nonempty; fits = omega arith; tidy = strip_zeros-IsTidy b })

  length-jwk_ec_coord :
      (o : Json N) (name : Bytes) {b : Bytes} → jwk_ec_coord o name ≡ some b → length b ≡ 32
  unfolding jwk_ec_coord
  length-jwk_ec_coord o name h =
      let (given, h') = unless-eq_some (length (text_at o name) == 0) _ h in
      let (b, decoded, padded) = >>=-eq_some (decode_segment 48 (text_at o name)) _ h' in
      length-pad_left b padded

  load_rsa_key-IsKey :
      (kid alg : Bytes) (o : Json N) {k : JwkKey}
      → length kid < 80
      → length alg < 16
      → load_rsa_key kid alg o ≡ some k
      → IsKey k
  unfolding load_rsa_key
  load_rsa_key-IsKey kid alg o short short' h =
      let (n, is_n, h') = >>=-eq_some (jwk_b64u_field o (codes "n") 512) _ h in
      let (e, is_e, same) = >>=-eq_some (jwk_b64u_field o (codes "e") 16) _ h' in
      subst IsKey (some-inj same) (record {
        kid_fits = short;
        alg_fits = short';
        modulus = λ t. jwk_b64u_field-IsNumber o (codes "n") 512 is_n;
        exponent = λ t. jwk_b64u_field-IsNumber o (codes "e") 16 is_e;
        point = λ t. absurd (cc t);
      })

  load_ec_key-IsKey :
      (kid alg : Bytes) (o : Json N) {k : JwkKey}
      → length kid < 80
      → length alg < 16
      → load_ec_key kid alg o ≡ some k
      → IsKey k
  unfolding load_ec_key
  load_ec_key-IsKey kid alg o short short' h =
      let (curve, h1) = if-eq_some (slice_eq (text_at o (codes "crv")) (codes "P-256")) _ h in
      let (x, is_x, h2) = >>=-eq_some (jwk_ec_coord o (codes "x")) _ h1 in
      let (y, is_y, same) = >>=-eq_some (jwk_ec_coord o (codes "y")) _ h2 in
      let size : length (x ++ y) ≡ 64 = omega (
        arith,
        length-append x y,
        length-jwk_ec_coord o (codes "x") is_x,
        length-jwk_ec_coord o (codes "y") is_y,
      ) in
      subst IsKey (some-inj same) (record {
        kid_fits = short;
        alg_fits = short';
        modulus = λ t. absurd (cc t);
        exponent = λ t. absurd (cc t);
        point = λ t. (ap suc size, refl);
      })

  jwk_load_one-IsKey : (v : Json N) {k : JwkKey} → jwk_load_one v ≡ some k → IsKey k
  unfolding jwk_load_one
  jwk_load_one-IsKey json_null h = cc
  jwk_load_one-IsKey (boolean b) h = cc
  jwk_load_one-IsKey (num x) h = cc
  jwk_load_one-IsKey (str s) h = cc
  jwk_load_one-IsKey (arr vs) h = cc
  jwk_load_one-IsKey (obj ms) h =
      let kty : Bytes = text_at (obj ms) (codes "kty") in
      let kid : Bytes = short_name 80 (text_at (obj ms) (codes "kid")) in
      let alg : Bytes = short_name 16 (text_at (obj ms) (codes "alg")) in
      let short = length-short_name 80 (text_at (obj ms) (codes "kid")) (omega arith) in
      let short' = length-short_name 16 (text_at (obj ms) (codes "alg")) (omega arith) in
      elim (Bool-cases (slice_eq kty (codes "RSA"))) [
        | inl t ↦ load_rsa_key-IsKey kid alg (obj ms) short short' (rw t at h)
        | inr f ↦
            load_ec_key-IsKey kid alg (obj ms) short short'
              (if-eq_some (slice_eq kty (codes "EC")) (load_ec_key kid alg (obj ms)) (rw f at h)).1
      ]

  load_keys-IsKey :
      (room : ℕ) (vs : Items N)
      → All IsKey (load_keys room vs) × (length (load_keys room vs) ≤ room)
  unfolding load_keys
  load_keys-IsKey zero vs = (tt, omega arith)
  load_keys-IsKey (suc room) no_items = (tt, omega arith)
  load_keys-IsKey (suc room) (item v vs) = elim (Option-cases (jwk_load_one v)) [
    | inl n ↦ rw (n, load_keys) (load_keys-IsKey (suc room) vs)
    | inr (k, e) ↦
        let (all, few) = load_keys-IsKey room vs in
        rw (e, load_keys) ((jwk_load_one-IsKey v e, all), omega arith)
  ]

  one_key-IsKey :
      (v : Json N) → All IsKey (one_key (jwk_load_one v)) × (length (one_key (jwk_load_one v)) ≤ 16)
  unfolding one_key
  one_key-IsKey v = elim (Option-cases (jwk_load_one v)) [
    | inl n ↦ rw n (tt, omega arith)
    | inr (k, e) ↦ rw e ((jwk_load_one-IsKey v e, tt), omega arith)
  ]

  keys_of-IsKey :
      (root : Json N) (keys : Option (Json N))
      → All IsKey (keys_of root keys) × (length (keys_of root keys) ≤ 16)
  unfolding keys_of
  keys_of-IsKey root none = one_key-IsKey root
  keys_of-IsKey root (some json_null) = one_key-IsKey root
  keys_of-IsKey root (some (boolean b)) = one_key-IsKey root
  keys_of-IsKey root (some (num x)) = one_key-IsKey root
  keys_of-IsKey root (some (str s)) = one_key-IsKey root
  keys_of-IsKey root (some (obj ms)) = one_key-IsKey root
  keys_of-IsKey root (some (arr vs)) = load_keys-IsKey 16 vs

  -- A JWKS document that is accepted gives one to sixteen keys, each of which fits into the arrays of
  -- ntc_jwk_key: the names with their NUL, an RSA modulus of 1 to 512 and an exponent of 1 to 16
  -- bytes without leading zeros, and an EC point of 65 bytes that starts with 4.
  pub jwks_parse-IsKey :
      (strtod : Bytes → N) (json : Bytes) (ks : List JwkKey)
      → jwks_parse strtod json ≡ some ks
      → All IsKey ks × (0 < length ks) × (length ks ≤ 16)
  unfolding jwks_parse
  jwks_parse-IsKey strtod json ks h =
      let (root, parsed, h') = >>=-eq_some (json_parse strtod json) _ h in
      let found = keys_of root (json_get root (codes "keys")) in
      let (some_found, same) = unless-eq_some (length found == 0) _ h' in
      let (all, few) = keys_of-IsKey root (json_get root (codes "keys")) in
      subst (λ ks. All IsKey ks × (0 < length ks) × (length ks ≤ 16)) (some-inj same)
        (all, ground arith, few)

-- ===== src/Middleware/Headers.antt =====
-- The headers that src/core/middleware.c adds to a response: `extra_headers` has 512 bytes, which
-- `snprintf` fills from `off` on. A name of the configuration is the C string of its array.
use naitron_c.Prelude.{
  ℕ, ◌+◌, ◌-◌, ◌/◌, ◌%◌, Bool, [], ◌∷◌, ◌++◌, Option, none, some, ltb, ◌==◌, if◌then◌else◌, Bytes,
  length, take, ℤ, codes,
}

-- `ntc_mw_config`.
pub record MwConfig : Type 0 where
  pub request_id : Bool
  pub access_log : Bool
  pub cors_origin : Bytes
  pub rate_per_sec : ℤ
  pub rate_burst : ℤ
  pub auth_mode : Bytes
  pub auth_secret : Bytes
  pub auth_protect : Bytes
  pub auth_jwks_url : Bytes

abbrev pub extra_cap : ℕ
extra_cap = 512

-- The text in `extra_headers`, and `off`.
pub record Extra : Type 0 where
  pub text : Bytes
  pub off : ℕ

abbrev pub no_extra : Extra
no_extra = record { text = []; off = 0 }

-- `off += snprintf(eh + off, cap - off, …)`, where the text is cut to the room.
unfoldable pub add_text : Extra → Bytes → Extra
add_text x s = record { text = x.text ++ take (extra_cap - x.off - 1) s; off = x.off + length s }

unfoldable pub hex_digit : ℕ → ℕ
hex_digit v = if ltb v 10 then b'0' + v else b'a' + (v - 10)

unfoldable pub hex_text : Bytes → Bytes
hex_text [] = []
hex_text (b ∷ s) = hex_digit (b / 16) ∷ hex_digit (b % 16) ∷ hex_text s

-- `gen_request_id`; the argument is what was read from /dev/urandom, if that worked.
unfoldable pub gen_request_id : Option Bytes → Bytes
gen_request_id none = codes "req-0000000000000000"
gen_request_id (some b) = hex_text b

abbrev pub crlf_text : Bytes
crlf_text = b'\r' ∷ b'\n' ∷ []

unfoldable pub id_text : Bytes → Bytes
id_text id = codes "X-Request-Id: " ++ (id ++ crlf_text)

-- The format of the three CORS headers behind the origin.
abbrev pub cors_rest : Bytes
cors_rest =
    crlf_text
    ++ (codes "Access-Control-Allow-Methods: GET,POST,PUT,PATCH,DELETE,OPTIONS"
        ++ (crlf_text
            ++ (codes "Access-Control-Allow-Headers: Authorization,Content-Type" ++ crlf_text)))

unfoldable pub cors_text : Bytes → Bytes
cors_text origin = codes "Access-Control-Allow-Origin: " ++ (origin ++ cors_rest)

unfoldable pub add_id : MwConfig → Bytes → Extra → Extra
add_id cfg id x = if cfg.request_id then add_text x (id_text id) else x

unfoldable pub add_cors : MwConfig → Extra → Extra
add_cors cfg x = if length cfg.cors_origin == 0 then x else add_text x (cors_text cfg.cors_origin)

unfoldable pub extra_for : MwConfig → Bytes → Extra
extra_for cfg id = add_cors cfg (add_id cfg id no_extra)

-- ===== src/Controller/Reply.antt =====
-- The response of a handler in src/common/controller_sdk.c. A C string is its bytes before the NUL.
use naitron_c.Prelude.{
  ℕ, ◌-◌, Bool, true, false, [], ◌∷◌, ◌++◌, leb, if◌then◌else◌, Bytes, length, codes,
}

-- `ntc_response`; `headers` is `headers[0 .. headers_len)`.
pub record Response : Type 0 where
  pub status : ℕ
  pub content_type : Bytes
  pub body : Bytes
  pub headers : Bytes

abbrev pub headers_cap : ℕ
headers_cap = 512

-- "%s: %s\r\n".
unfoldable pub header_text : Bytes → Bytes → Bytes
header_text name value = name ++ (b':' ∷ b' ' ∷ (value ++ (b'\r' ∷ b'\n' ∷ [])))

-- `ntc_res_header`; `false` is -1.
unfoldable pub res_header : Response → Bytes → Bytes → Response × Bool
res_header res name value =
    if leb (headers_cap - length res.headers) (length (header_text name value))
    then (res, false)
    else (record res { headers = res.headers ++ header_text name value }, true)

unfoldable pub redirect : Response → ℕ → Bytes → Response × Bool
redirect res status location =
    res_header
      (record res { status = status; content_type = codes "text/html; charset=utf-8"; body = [] })
      (codes "Location") location

unfoldable pub set_cookie : Response → Bytes → Response × Bool
set_cookie res value = res_header res (codes "Set-Cookie") value

-- `ntc_reply_json` with the formatted text, where the arena gives memory.
unfoldable pub reply_json : Response → ℕ → Bytes → Response
reply_json res status text = record res {
  status = status;
  content_type = codes "application/json";
  body = text;
}

-- What the loop starts a request with, and what it puts in place of a failed one.
abbrev pub fresh_response : Response
fresh_response = record {
  status = 200;
  content_type = codes "application/json";
  body = [];
  headers = [];
}

unfoldable pub bad_request : Response
bad_request = record fresh_response {
  status = 400;
  content_type = codes "text/plain";
  body = codes "bad request";
}

unfoldable pub controller_error : Response → Response
controller_error res = record res {
  status = 500;
  content_type = codes "application/json";
  body = codes "{\"error\":\"controller error\"}";
}

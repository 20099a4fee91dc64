-- ===== src/Wire/Request.antt =====
-- The request payload of src/common/wire.c.
use naitron_c.Prelude.{
  ℕ, zero, suc, ◌%◌, ◌^◌, List, [], ◌∷◌, Option, none, some, ltb, if◌then◌else◌, Bytes, length,
  take, ◌>>=◌,
}
use naitron_c.Http.{Header, Request, max_headers, max_params}
use naitron_c.Wire.Buffer.{WBuf, w_u16, w_slice16, RBuf, r_u16, r_slice16, r_slice32}
use naitron_c.Wire.Payload.{w_open, w_done, r_open, r_done, w_slice32}

-- The loop over `headers[i]`, and that over `params[i]`.
unfoldable pub w_pairs : WBuf → List Header → WBuf
w_pairs w [] = w
w_pairs w (h ∷ hs) = w_pairs (w_slice16 (w_slice16 w h.name) h.value) hs

-- The pairs below the count that is sent, which is cut at the array's size.
abbrev pub clip : ℕ → List Header → List Header
clip bound hs = if ltb bound (length hs) then take bound hs else hs

unfoldable pub w_counted : ℕ → WBuf → List Header → WBuf
w_counted bound w hs = w_pairs (w_u16 w (length (clip bound hs) % 2 ^ 16)) (clip bound hs)

unfoldable pub encode_request : Request → ℕ → Option Bytes
encode_request req cap =
    let w = w_slice16 (w_slice16 (w_slice16 (w_open cap) req.method) req.path) req.query in
    let w' = w_counted max_params (w_counted max_headers w req.headers) req.params in
    w_done (w_slice32 (w_slice16 (w_slice16 w' req.auth_sub) req.auth_scope) req.body)

-- `n` rounds of the loops that fill `headers[i]` and `params[i]`.
unfoldable pub r_pairs : ℕ → RBuf → List Header × RBuf
r_pairs zero r = ([], r)
r_pairs (suc n) r =
    let (name, r') = r_slice16 r in
    let (value, r'') = r_slice16 r' in
    let (hs, last) = r_pairs n r'' in (record { name = name; value = value } ∷ hs, last)

-- `none` is the early return on a count above the array's size.
unfoldable pub r_counted : ℕ → RBuf → Option (List Header × RBuf)
r_counted bound r = let (n, r') = r_u16 r in if ltb bound n then none else some (r_pairs n r')

unfoldable pub decode_tail :
    Bytes → Bytes → Bytes → List Header → List Header → RBuf → Option Request
decode_tail method path query headers params r =
    let (auth_sub, r') = r_slice16 r in
    let (auth_scope, r'') = r_slice16 r' in
    let (body, last) = r_slice32 r'' in
    r_done last (record {
      method = method;
      target = path;
      path = path;
      query = query;
      minor_version = 1;
      headers = headers;
      params = params;
      auth_sub = auth_sub;
      auth_scope = auth_scope;
      has_content_length = ltb 0 (length body);
      content_length = length body;
      body = body;
    })

unfoldable pub decode_request : Bytes → Option Request
decode_request buf =
    let (method, r) = r_slice16 (r_open buf) in
    let (path, r') = r_slice16 r in
    let (query, r'') = r_slice16 r' in
    r_counted max_headers r'' >>= λ hs.
    r_counted max_params hs.1 >>= λ ps. decode_tail method path query hs.0 ps.0 ps.1

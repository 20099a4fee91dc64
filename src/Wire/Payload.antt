-- ===== src/Wire/Payload.antt =====
-- The response, streaming and WebSocket payloads of src/common/wire.c. An encoder's -1 and a
-- decoder's false are `none`; what a decoder leaves in its out-parameters then is not modelled.
use naitron_c.Prelude.{
  ℕ, ◌%◌, ◌^◌, false, [], Option, none, some, ltb, if◌then◌else◌, Bytes, length,
}
use naitron_c.Wire.Buffer.{
  WBuf, w_u8, w_u16, w_u32, w_bytes, w_slice16, RBuf, r_u8, r_u16, r_slice16, r_slice32,
}

abbrev pub w_open : ℕ → WBuf
w_open cap = record { p = []; cap = cap; err = false }

abbrev pub w_done : WBuf → Option Bytes
w_done w = if w.err then none else some w.p

abbrev pub r_open : Bytes → RBuf
r_open buf = record { p = buf; off = 0; err = false }

abbrev pub r_done {ℓ} : {A : Type ℓ} → RBuf → A → Option A
r_done r a = if r.err then none else some a

-- `w_u32(&w, (uint32_t)s.len); w_bytes(&w, s.ptr, s.len);`
unfoldable pub w_slice32 : WBuf → Bytes → WBuf
w_slice32 w s = w_bytes (w_u32 w (length s % 2 ^ 32)) s

-- `status` is an `int` of 0 to 2 ^ 31 - 1.
unfoldable pub encode_response : ℕ → Bytes → Bytes → ℕ → Option Bytes
encode_response status ctype body cap =
    w_done (w_slice32 (w_slice16 (w_u16 (w_open cap) (status % 2 ^ 16)) ctype) body)

unfoldable pub decode_response : Bytes → Option (ℕ × Bytes × Bytes)
decode_response buf =
    let (status, r) = r_u16 (r_open buf) in
    let (ctype, r') = r_slice16 r in
    let (body, r'') = r_slice32 r' in r_done r'' (status, ctype, body)

unfoldable pub encode_response_ex : ℕ → Bytes → Bytes → Bytes → ℕ → Option Bytes
encode_response_ex status ctype body headers cap =
    let w = w_slice32 (w_slice16 (w_u16 (w_open cap) (status % 2 ^ 16)) ctype) body in
    w_done (w_slice16 w headers)

unfoldable pub decode_response_ex : Bytes → Option (ℕ × Bytes × Bytes × Bytes)
decode_response_ex buf =
    let (status, r) = r_u16 (r_open buf) in
    let (ctype, r') = r_slice16 r in
    let (body, r'') = r_slice32 r' in
    let (headers, last) = if ltb r''.off (length r''.p) then r_slice16 r'' else ([], r'') in
    r_done last (status, ctype, body, headers)

unfoldable pub encode_response_begin : ℕ → ℕ → Bytes → ℕ → Option Bytes
encode_response_begin status flags ctype cap =
    w_done (w_slice16 (w_u8 (w_u16 (w_open cap) (status % 2 ^ 16)) flags) ctype)

unfoldable pub decode_response_begin : Bytes → Option (ℕ × ℕ × Bytes)
decode_response_begin buf =
    let (status, r) = r_u16 (r_open buf) in
    let (flags, r') = r_u8 r in let (ctype, r'') = r_slice16 r' in r_done r'' (status, flags, ctype)

unfoldable pub encode_chunk : Bytes → ℕ → Option Bytes
encode_chunk chunk cap = w_done (w_slice32 (w_open cap) chunk)

unfoldable pub decode_chunk : Bytes → Option Bytes
decode_chunk buf = let (chunk, r) = r_slice32 (r_open buf) in r_done r chunk

unfoldable pub encode_ws_msg : ℕ → Bytes → ℕ → Option Bytes
encode_ws_msg opcode payload cap = w_done (w_slice32 (w_u8 (w_open cap) opcode) payload)

unfoldable pub decode_ws_msg : Bytes → Option (ℕ × Bytes)
decode_ws_msg buf =
    let (opcode, r) = r_u8 (r_open buf) in
    let (payload, r') = r_slice32 r in r_done r' (opcode, payload)

unfoldable pub encode_ws_close : ℕ → ℕ → Option Bytes
encode_ws_close code cap = w_done (w_u16 (w_open cap) code)

unfoldable pub decode_ws_close : Bytes → Option ℕ
decode_ws_close buf = let (code, r) = r_u16 (r_open buf) in r_done r code

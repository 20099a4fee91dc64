-- ===== src/Ws/Codec.antt =====
-- `ntc_ws_decode` and `ntc_ws_encode` of src/core/ws.c. The operations on bits are arithmetic: `b0 &
-- 0x0f` is a remainder, `b0 & 0x80` is a test on the top bit of a byte, and `|` joins disjoint bits.
use naitron_c.Prelude.{
  ℕ, zero, suc, ◌+◌, ◌*◌, ◌/◌, ◌%◌, ◌^◌, Bool, ◌&&◌, [], ◌∷◌, ◌++◌, Option, none, some, ltb, leb,
  ◌==◌, if◌then◌else◌, Bytes, length, take, drop,
}
use Prim.Native.Nat.{bit_xor}
use naitron_c.Wire.Buffer.{byte_at}

abbrev pub ws_max_payload : ℕ
ws_max_payload = 1048576

-- The results 0, -1 and 1, the last with `consumed`, `opcode`, `fin` and the unmasked payload.
pub data WsResult : Type 0 where
  need_more protocol_error : WsResult
  ws_frame : ℕ → ℕ → Bool → Bytes → WsResult

-- `plen = (plen << 8) | buf[2 + i]`, for `n` bytes.
unfoldable pub be_loop : ℕ → Bytes → ℕ → ℕ
be_loop zero p plen = plen
be_loop (suc n) [] plen = be_loop n [] (plen * 2 ^ 8 % 2 ^ 64)
be_loop (suc n) (b ∷ p) plen = be_loop n p (plen * 2 ^ 8 % 2 ^ 64 + b)

-- `buf[off + i] ^= mask[i & 3]`, from index `i` on.
unfoldable pub unmask : Bytes → ℕ → Bytes → Bytes
unmask mask i [] = []
unmask mask i (b ∷ bs) = bit_xor b (byte_at mask (i % 4)) ∷ unmask mask (i + 1) bs

-- The part after the payload length is known: `off` is where the mask or the payload starts.
unfoldable pub decode_body : Bytes → ℕ → ℕ → WsResult
decode_body buf off plen =
    let masked = leb 128 (byte_at buf 1) in
    let off' = if masked then off + 4 else off in
    let raw = take plen (drop off' buf) in
    let payload = if masked then unmask (take 4 (drop off buf)) 0 raw else raw in
    if ltb ws_max_payload plen
    then protocol_error
    else if masked && ltb (length buf) (off + 4)
    then need_more
    else if ltb (length buf) (off' + plen)
    then need_more
    else ws_frame (off' + plen) (byte_at buf 0 % 16) (leb 128 (byte_at buf 0)) payload

unfoldable pub ws_decode : Bytes → WsResult
ws_decode buf =
    let plen = byte_at buf 1 % 128 in
    if ltb (length buf) 2
    then need_more
    else if plen == 126
    then (if ltb (length buf) 4
        then need_more
        else decode_body buf 4 (byte_at buf 2 * 2 ^ 8 + byte_at buf 3))
    else if plen == 127
    then (if ltb (length buf) 10 then need_more else decode_body buf 10 (be_loop 8 (drop 2 buf) 0))
    else decode_body buf 2 plen

-- `out[2 + i] = (uint8_t)(len >> (56 - 8 * i))`, for the last `n` of the eight bytes.
unfoldable pub be_bytes : ℕ → ℕ → Bytes
be_bytes zero len = []
be_bytes (suc n) len = len / 2 ^ (8 * n) % 2 ^ 8 ∷ be_bytes n len

-- The two, four or ten bytes before the data.
unfoldable pub ws_header : ℕ → ℕ → Bytes
ws_header opcode len =
    (128 + opcode % 16)
    ∷ (if ltb 0xFFFF len
        then 127 ∷ be_bytes 8 len
        else if ltb 125 len
        then 126 ∷ len / 2 ^ 8 % 2 ^ 8 ∷ len % 2 ^ 8 ∷ []
        else len % 2 ^ 8 ∷ [])

unfoldable pub header_size : ℕ → ℕ
header_size len = if ltb 0xFFFF len then 10 else if ltb 125 len then 4 else 2

-- `none` is the result -1. The caller passes data when the length is not 0.
unfoldable pub ws_encode : ℕ → Bytes → ℕ → Option Bytes
ws_encode opcode payload cap =
    if ltb cap (header_size (length payload) + length payload)
    then none
    else some (ws_header opcode (length payload) ++ payload)

-- ===== src/Wire/RoundTrip.antt =====
-- The decoders of src/common/wire.c read back what the encoders wrote.
use naitron_c.Wire.Read.{
  r_slice32-at, r_slice16-at_end, r_u8-at, r_u16-at, r_slice16-at, r_slice32-at_end,
}
use naitron_c.Prelude.{
  ℕ, ◌%◌, ◌^◌, ◌≤◌, ◌<◌, true, false, [], ◌∷◌, ◌++◌, Option, none, some, ltb, Bytes, length, ◌≡◌,
  refl, arith, append-nil, length-append,
}
use naitron_c.Wire.Formats.{
  encode_ws_msg_lem, encode_response_ex_lem, encode_response_begin_lem, encode_chunk_lem,
  encode_response_lem,
}
use naitron_c.Wire.Payload.{
  encode_ws_msg, encode_response_ex, encode_response_begin, encode_chunk, decode_ws_msg,
  decode_response_ex, decode_response_begin, decode_chunk, encode_response, decode_response,
}
use naitron_c.Wire.Write.{◌⊕◌, slice16, slice32, slice16_format, fit}
use naitron_c.Wire.Buffer.{put_u16}

-- What fits is the format.
pub fit-some : (cap : ℕ) (x : Option Bytes) {bs : Bytes} → fit cap x ≡ some bs → x ≡ some bs
unfolding fit
fit-some cap none h = cc
fit-some cap (some a) h = ground arith

pub ⊕-eq-some :
    (x y : Option Bytes) {bs : Bytes}
    → x ⊕ y ≡ some bs
    → (a : Bytes) × (b : Bytes) × (x ≡ some a) × (y ≡ some b) × (a ++ b ≡ bs)
⊕-eq-some none y h = cc
⊕-eq-some (some a) none h = cc
⊕-eq-some (some a) (some b) h = (a, b, refl, refl, ground arith)

pub slice16_format-eq-some :
    (s : Bytes) {a : Bytes} → slice16_format s ≡ some a → (length s ≤ 0xFFFF) × (slice16 s ≡ a)
slice16_format-eq-some s h = ground arith

-- A content type between a head and a tail that always have their format.
middle_slice :
    (a b s : Bytes) (cap : ℕ) {bs : Bytes}
    → fit cap (some a ⊕ (slice16_format s ⊕ some b)) ≡ some bs
    → (length s ≤ 0xFFFF) × (a ++ (slice16 s ++ b) ≡ bs)
middle_slice a b s cap h =
    let (x, y, p, q, e) = ⊕-eq-some (some a) (slice16_format s ⊕ some b) (fit-some cap _ h) in
    let (z, t, q', u, e') = ⊕-eq-some (slice16_format s) (some b) q in
    let (short, w) = slice16_format-eq-some s q' in (short, cc)

module _ (status : ℕ) (ctype body : Bytes) (hs : status < 2 ^ 16) where
  decode_response_format :
      length ctype ≤ 0xFFFF
      → length body < 2 ^ 32
      → decode_response (put_u16 status ++ (slice16 ctype ++ slice32 body))
        ≡ some (status, ctype, body)
  unfolding decode_response
  decode_response_format hc hb = rw (r_u16-at [] (slice16 ctype ++ slice32 body) status hs) (
      rw (r_slice16-at (put_u16 status) (slice32 body) ctype hc)
        (rw (r_slice32-at_end (put_u16 status ++ slice16 ctype) body hb)))

  -- Whatever the gateway encodes as a response, the status, the content type and the body come
  -- back from the decoder, if the status has 16 bits and the body is shorter than 4 GiB.
  pub decode_response-encode_response :
      (cap : ℕ) {bs : Bytes}
      → length body < 2 ^ 32
      → encode_response status ctype body cap ≡ some bs
      → decode_response bs ≡ some (status, ctype, body)
  decode_response-encode_response cap hb h =
      let small : status % 2 ^ 16 ≡ status = omega arith in
      let e = rw (encode_response_lem, small) at h in
      let (short, eq) = middle_slice (put_u16 status) (slice32 body) ctype cap e in
      rw (← eq) (decode_response_format short hb)

module _ (status : ℕ) (ctype body headers : Bytes) (hs : status < 2 ^ 16) where
  decode_response_ex_format :
      length ctype ≤ 0xFFFF
      → length body < 2 ^ 32
      → length headers ≤ 0xFFFF
      → decode_response_ex (put_u16 status ++ (slice16 ctype ++ (slice32 body ++ slice16 headers)))
        ≡ some (status, ctype, body, headers)
  unfolding decode_response_ex
  decode_response_ex_format hc hb hh =
      rw (r_u16-at [] (slice16 ctype ++ (slice32 body ++ slice16 headers)) status hs) (
        rw (r_slice16-at (put_u16 status) (slice32 body ++ slice16 headers) ctype hc) (
          rw (r_slice32-at (put_u16 status ++ slice16 ctype) (slice16 headers) body hb) (
            rw more (
              rw (
                r_slice16-at_end ((put_u16 status ++ slice16 ctype) ++ slice32 body) headers hh)))))
    where
      more :
          ltb
            (length ((put_u16 status ++ slice16 ctype) ++ slice32 body))
            (length (((put_u16 status ++ slice16 ctype) ++ slice32 body) ++ slice16 headers))
          ≡ true
      more = ground (
        arith,
        length-append ((put_u16 status ++ slice16 ctype) ++ slice32 body) (slice16 headers),
      )

  -- A response with controller headers comes back with them.
  pub decode_response_ex-encode_response_ex :
      (cap : ℕ) {bs : Bytes}
      → length body < 2 ^ 32
      → encode_response_ex status ctype body headers cap ≡ some bs
      → decode_response_ex bs ≡ some (status, ctype, body, headers)
  decode_response_ex-encode_response_ex cap {bs} hb h =
      let small : status % 2 ^ 16 ≡ status = omega arith in
      let e = rw (encode_response_ex_lem, small) at h in
      let (x, y, p, q, v) = ⊕-eq-some (some (put_u16 status)) _ (fit-some cap _ e) in
      let (x', y', p', q', v') = ⊕-eq-some (slice16_format ctype) _ q in
      let (x'', y'', p'', q'', v'') = ⊕-eq-some (some (slice32 body)) (slice16_format headers) q' in
      let (short, w) = slice16_format-eq-some ctype p' in
      let (short', w') = slice16_format-eq-some headers q'' in
      let eq : put_u16 status ++ (slice16 ctype ++ (slice32 body ++ slice16 headers)) ≡ bs = cc in
      rw (← eq) (decode_response_ex_format short hb short')

module _ (status : ℕ) (ctype body : Bytes) (hs : status < 2 ^ 16) where
  decode_response_ex_plain_format :
      length ctype ≤ 0xFFFF
      → length body < 2 ^ 32
      → decode_response_ex (put_u16 status ++ (slice16 ctype ++ slice32 body))
        ≡ some (status, ctype, body, [])
  unfolding decode_response_ex
  decode_response_ex_plain_format hc hb =
      rw (r_u16-at [] (slice16 ctype ++ slice32 body) status hs) (
        rw (r_slice16-at (put_u16 status) (slice32 body) ctype hc)
          (rw (r_slice32-at_end (put_u16 status ++ slice16 ctype) body hb) (rw over)))
    where
      over :
          ltb
            (length ((put_u16 status ++ slice16 ctype) ++ slice32 body))
            (length (((put_u16 status ++ slice16 ctype) ++ slice32 body) ++ []))
          ≡ false
      over = ground (arith, append-nil ((put_u16 status ++ slice16 ctype) ++ slice32 body))

  -- A payload of the older encoder decodes with no headers.
  pub decode_response_ex-encode_response :
      (cap : ℕ) {bs : Bytes}
      → length body < 2 ^ 32
      → encode_response status ctype body cap ≡ some bs
      → decode_response_ex bs ≡ some (status, ctype, body, [])
  decode_response_ex-encode_response cap hb h =
      let small : status % 2 ^ 16 ≡ status = omega arith in
      let e = rw (encode_response_lem, small) at h in
      let (short, eq) = middle_slice (put_u16 status) (slice32 body) ctype cap e in
      rw (← eq) (decode_response_ex_plain_format short hb)

module _ (status flags : ℕ) (ctype : Bytes) (hs : status < 2 ^ 16) where
  decode_response_begin_format :
      length ctype ≤ 0xFFFF
      → decode_response_begin (put_u16 status ++ (flags ∷ slice16 ctype))
        ≡ some (status, flags, ctype)
  unfolding decode_response_begin
  decode_response_begin_format hc = rw (r_u16-at [] (flags ∷ slice16 ctype) status hs) (
      rw (r_u8-at (put_u16 status) (slice16 ctype) flags)
        (rw (r_slice16-at_end (put_u16 status ++ flags ∷ []) ctype hc)))

  -- The head of a streamed response comes back as it was sent.
  pub decode_response_begin-encode_response_begin :
      (cap : ℕ) {bs : Bytes}
      → encode_response_begin status flags ctype cap ≡ some bs
      → decode_response_begin bs ≡ some (status, flags, ctype)
  decode_response_begin-encode_response_begin cap {bs} h =
      let small : status % 2 ^ 16 ≡ status = omega arith in
      let e = rw (encode_response_begin_lem, small) at h in
      let (x, y, p, q, v) = ⊕-eq-some (some (put_u16 status)) _ (fit-some cap _ e) in
      let (x', y', p', q', v') = ⊕-eq-some (some (flags ∷ [])) (slice16_format ctype) q in
      let (short, w) = slice16_format-eq-some ctype q' in
      let eq : put_u16 status ++ (flags ∷ slice16 ctype) ≡ bs = cc in
      rw (← eq) (decode_response_begin_format short)

pub decode_chunk_format :
    (chunk : Bytes) → length chunk < 2 ^ 32 → decode_chunk (slice32 chunk) ≡ some chunk
unfolding decode_chunk
decode_chunk_format chunk h = rw (r_slice32-at_end [] chunk h)

-- A chunk comes back, whatever its bytes.
pub decode_chunk-encode_chunk :
    (chunk : Bytes) (cap : ℕ) {bs : Bytes}
    → length chunk < 2 ^ 32
    → encode_chunk chunk cap ≡ some bs
    → decode_chunk bs ≡ some chunk
decode_chunk-encode_chunk chunk cap {bs} hc h =
    let e = fit-some cap (some (slice32 chunk)) (rw encode_chunk_lem at h) in
    let eq : slice32 chunk ≡ bs = cc in rw (← eq) (decode_chunk_format chunk hc)

decode_ws_msg_format :
    (opcode : ℕ) (payload : Bytes)
    → length payload < 2 ^ 32
    → decode_ws_msg (opcode ∷ slice32 payload) ≡ some (opcode, payload)
unfolding decode_ws_msg
decode_ws_msg_format opcode payload h =
    rw (r_u8-at [] (slice32 payload) opcode) (rw (r_slice32-at_end (opcode ∷ []) payload h))

-- A WebSocket message comes back with its opcode.
pub decode_ws_msg-encode_ws_msg :
    (opcode : ℕ) (payload : Bytes) (cap : ℕ) {bs : Bytes}
    → length payload < 2 ^ 32
    → encode_ws_msg opcode payload cap ≡ some bs
    → decode_ws_msg bs ≡ some (opcode, payload)
decode_ws_msg-encode_ws_msg opcode payload cap {bs} hp h =
    let e = fit-some cap (some (opcode ∷ slice32 payload)) (rw encode_ws_msg_lem at h) in
    let eq : opcode ∷ slice32 payload ≡ bs = cc in
    rw (← eq) (decode_ws_msg_format opcode payload hp)

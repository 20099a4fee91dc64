-- ===== src/Ws/Laws.antt =====
-- The frames of src/core/ws.c: what is encoded decodes, and what the decoder makes of its input.
use naitron_c.Prelude.{
  ℕ, zero, suc, ◌+◌, ◌/◌, ◌%◌, ◌^◌, ◌≤◌, ◌<◌, true, [], ◌∷◌, ◌++◌, some, ltb, leb, if◌then◌else◌,
  Bytes, length, take, drop, get_or, ◌≡◌, refl, ap, ◌∙◌, ◌⊎◌, inl, inr, arith, Bool-cases, IsByte,
  All, append_assoc, length-append, drop-add, drop-length_append, take-length_append,
}
use naitron_c.Ws.Masking.{unmask-unmask, length-unmask, masked_with, masked_with-unmask}
use naitron_c.Wire.Buffer.{byte_at}
use naitron_c.Ws.Codec.{
  ws_max_payload, ws_frame, be_loop, unmask, decode_body, ws_decode, be_bytes, ws_header,
  header_size, ws_encode,
}

get_or-IsByte : (s : Bytes) (j : ℕ) → All IsByte s → get_or s j 0 < 256
get_or-IsByte [] j h = omega arith
get_or-IsByte (c ∷ s) zero h = h.0
get_or-IsByte (c ∷ s) (suc j) h = get_or-IsByte s j h.1

-- The eight bytes of a length, read back.
be_loop-be_bytes :
    (len : ℕ) (rest : Bytes) → len < 2 ^ 64 → be_loop 8 (be_bytes 8 len ++ rest) 0 ≡ len
unfolding be_loop be_bytes
be_loop-be_bytes len rest h = omega arith

-- A header with `m` added to its second byte: 128 is the mask bit.
unfoldable pub header_with : ℕ → ℕ → ℕ → Bytes
header_with m opcode len =
    (128 + opcode % 16)
    ∷ (if ltb 0xFFFF len
        then (m + 127) ∷ be_bytes 8 len
        else if ltb 125 len
        then (m + 126) ∷ len / 2 ^ 8 % 2 ^ 8 ∷ len % 2 ^ 8 ∷ []
        else (m + len) ∷ [])

ws_header-header_with : (opcode len : ℕ) → ws_header opcode len ≡ header_with 0 opcode len
unfolding ws_header header_with
ws_header-header_with opcode len = ground arith

length-header_with : (m opcode len : ℕ) → length (header_with m opcode len) ≡ header_size len
unfolding header_with header_size be_bytes
length-header_with m opcode len = ground arith

-- The decoder finds the length that the header was written for, and where the header ends.
decode_size :
    (m opcode len : ℕ) (t : Bytes)
    → (m ≡ 0) ⊎ (m ≡ 128)
    → len < 2 ^ 64
    → ws_decode (header_with m opcode len ++ t)
      ≡ decode_body (header_with m opcode len ++ t) (header_size len) len
unfolding ws_decode header_with header_size
decode_size m opcode len t hm hl = elim (Bool-cases (ltb 0xFFFF len)) [
  | inl long ↦
      rw long (
        unfold be_bytes in ground (arith, length-append (be_bytes 8 len) t, be_loop-be_bytes len t))
  | inr short ↦ rw short (elim (Bool-cases (ltb 125 len)) [
    | inl middle ↦ rw middle (ground arith)
    | inr small ↦ rw small (ground arith)
  ])
]

header_bytes :
    (m opcode len : ℕ) (t : Bytes)
    → (m ≡ 0) ⊎ (m ≡ 128)
    → (byte_at (header_with m opcode len ++ t) 0 ≡ 128 + opcode % 16)
      × (m ≤ byte_at (header_with m opcode len ++ t) 1)
      × (byte_at (header_with m opcode len ++ t) 1 ≤ m + 127)
unfolding header_with
header_bytes m opcode len t hm = ground arith

-- An unmasked payload behind a header of `off` bytes.
body_plain :
    (front payload rest : Bytes)
    → byte_at (front ++ (payload ++ rest)) 1 < 128
    → length payload ≤ ws_max_payload
    → decode_body (front ++ (payload ++ rest)) (length front) (length payload)
      ≡ ws_frame
          (length front + length payload)
          (byte_at (front ++ (payload ++ rest)) 0 % 16)
          (leb 128 (byte_at (front ++ (payload ++ rest)) 0))
          payload
unfolding decode_body
body_plain front payload rest h hp = ground (
  arith,
  length-append front (payload ++ rest),
  length-append payload rest,
  drop-length_append front (payload ++ rest),
  take-length_append payload rest,
)

-- A masked payload behind its key of four bytes.
body_masked :
    (front mask masked rest : Bytes)
    → 128 ≤ byte_at (front ++ (mask ++ (masked ++ rest))) 1
    → length mask ≡ 4
    → length masked ≤ ws_max_payload
    → decode_body (front ++ (mask ++ (masked ++ rest))) (length front) (length masked)
      ≡ ws_frame
          (length front + 4 + length masked)
          (byte_at (front ++ (mask ++ (masked ++ rest))) 0 % 16)
          (leb 128 (byte_at (front ++ (mask ++ (masked ++ rest))) 0))
          (unmask mask 0 masked)
unfolding decode_body
body_masked front mask masked rest h hm hp = ground (
  arith,
  length-append front (mask ++ (masked ++ rest)),
  length-append mask (masked ++ rest),
  length-append masked rest,
  drop-length_append front (mask ++ (masked ++ rest)),
  behind_key,
  key,
  take-length_append masked rest,
)
  where
    behind_key : drop (length front + 4) (front ++ (mask ++ (masked ++ rest))) ≡ masked ++ rest
    behind_key =
        drop-add (length front) 4 _
        ∙ ap (drop 4) (drop-length_append front (mask ++ (masked ++ rest)))
        ∙ (rw hm at (drop-length_append mask (masked ++ rest)))

    key : take 4 (mask ++ (masked ++ rest)) ≡ mask
    key = rw hm at (take-length_append mask (masked ++ rest))

-- A frame that the gateway wrote is read back: its opcode, the FIN bit and its payload, of up to 1 MiB,
-- whatever bytes follow. It takes all the bytes of the frame.
pub ws_decode-ws_encode :
    (opcode : ℕ) (payload rest : Bytes) (cap : ℕ) {out : Bytes}
    → opcode < 16
    → length payload ≤ ws_max_payload
    → ws_encode opcode payload cap ≡ some out
    → ws_decode (out ++ rest) ≡ ws_frame (length out) opcode true payload
unfolding ws_encode
ws_decode-ws_encode opcode payload rest cap ho hp h =
    let front = header_with 0 opcode (length payload) in
    let bits = header_bytes 0 opcode (length payload) (payload ++ rest) (inl refl) in
    let body = body_plain front payload rest (omega (arith, bits.2)) hp in
    let start = decode_size 0 opcode (length payload) (payload ++ rest) (inl refl) (omega arith) in
    ground (
      arith,
      start,
      body,
      bits,
      ws_header-header_with opcode (length payload),
      append_assoc front payload rest,
      length-append front payload,
      length-header_with 0 opcode (length payload),
    )

-- A client's frame, whose payload of up to 1 MiB is masked with the four bytes of a key in turn, is
-- read back as the payload that the client had, with its opcode and the FIN bit, whatever bytes follow.
-- It takes all the bytes of the frame. The key and the payload are bytes and the opcode has four bits.
pub ws_decode_masked :
    (opcode a b c d : ℕ) (payload rest : Bytes)
    → opcode < 16
    → length payload ≤ ws_max_payload
    → All IsByte (a ∷ b ∷ c ∷ d ∷ [])
    → All IsByte payload
    → ws_decode (
        header_with 128 opcode (length payload)
        ++ ((a ∷ b ∷ c ∷ d ∷ []) ++ (masked_with a b c d payload ++ rest)))
      ≡ ws_frame (header_size (length payload) + 4 + length payload) opcode true payload
ws_decode_masked opcode a b c d payload rest ho hp bm bp =
    let mask = a ∷ b ∷ c ∷ d ∷ [] in
    let sent = masked_with a b c d payload in
    let t = mask ++ (sent ++ rest) in
    let front = header_with 128 opcode (length payload) in
    let bits = header_bytes 128 opcode (length payload) t (inr refl) in
    let same = masked_with-unmask a b c d payload in
    let size = ap length same ∙ length-unmask mask 0 payload in
    let body = body_masked front mask sent rest bits.1 refl (omega (arith, size)) in
    let start = decode_size 128 opcode (length payload) t (inr refl) (omega arith) in
    let back =
      ap (unmask mask 0) same ∙ unmask-unmask mask 0 payload (λ j. get_or-IsByte mask j bm) bp in
    ground (arith, start, body, bits, size, back, length-header_with 128 opcode (length payload))

-- ===== src/Wire/Formats.antt =====
-- The payloads of src/common/wire.c: what each encoder writes.
use naitron_c.Prelude.{ℕ, ◌%◌, ◌^◌, Option, Bytes, ◌≡◌}
use naitron_c.Wire.Payload.{
  encode_response, encode_response_ex, encode_response_begin, encode_chunk, encode_ws_msg,
  encode_ws_close,
}
use naitron_c.Wire.Write.{
  ◌⊕◌, u8_format, u16_format, slice16_format, slice32_format, fit, put-nil, writes,
}

abbrev pub response_format : ℕ → Bytes → Bytes → Option Bytes
response_format status ctype body =
    u16_format (status % 2 ^ 16) ⊕ (slice16_format ctype ⊕ slice32_format body)

abbrev pub response_ex_format : ℕ → Bytes → Bytes → Bytes → Option Bytes
response_ex_format status ctype body headers =
    u16_format (status % 2 ^ 16)
    ⊕ (slice16_format ctype ⊕ (slice32_format body ⊕ slice16_format headers))

abbrev pub response_begin_format : ℕ → ℕ → Bytes → Option Bytes
response_begin_format status flags ctype =
    u16_format (status % 2 ^ 16) ⊕ (u8_format flags ⊕ slice16_format ctype)

-- Encoding a response writes its format when the content type has at most 65535 bytes and the
-- whole fits into the buffer, and fails otherwise.
pub encode_response_lem :
    (status : ℕ) (ctype body : Bytes) (cap : ℕ)
    → encode_response status ctype body cap ≡ fit cap (response_format status ctype body)
unfolding encode_response
encode_response_lem status ctype body cap = simp writes (put-nil cap _)

pub encode_response_ex_lem :
    (status : ℕ) (ctype body headers : Bytes) (cap : ℕ)
    → encode_response_ex status ctype body headers cap
      ≡ fit cap (response_ex_format status ctype body headers)
unfolding encode_response_ex
encode_response_ex_lem status ctype body headers cap = simp writes (put-nil cap _)

pub encode_response_begin_lem :
    (status flags : ℕ) (ctype : Bytes) (cap : ℕ)
    → encode_response_begin status flags ctype cap
      ≡ fit cap (response_begin_format status flags ctype)
unfolding encode_response_begin
encode_response_begin_lem status flags ctype cap = simp writes (put-nil cap _)

pub encode_chunk_lem :
    (chunk : Bytes) (cap : ℕ) → encode_chunk chunk cap ≡ fit cap (slice32_format chunk)
unfolding encode_chunk
encode_chunk_lem chunk cap = simp writes (put-nil cap _)

pub encode_ws_msg_lem :
    (opcode : ℕ) (payload : Bytes) (cap : ℕ)
    → encode_ws_msg opcode payload cap ≡ fit cap (u8_format opcode ⊕ slice32_format payload)
unfolding encode_ws_msg
encode_ws_msg_lem opcode payload cap = simp writes (put-nil cap _)

pub encode_ws_close_lem : (code cap : ℕ) → encode_ws_close code cap ≡ fit cap (u16_format code)
unfolding encode_ws_close
encode_ws_close_lem code cap = simp writes (put-nil cap _)

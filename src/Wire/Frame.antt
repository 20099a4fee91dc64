-- ===== src/Wire/Frame.antt =====
-- The framing of src/common/wire.c.
use naitron_c.Prelude.{
  ℕ, ◌+◌, Bool, not, ◌&&◌, ◌∷◌, ◌++◌, Option, none, some, ltb, leb, ◌!=◌, if◌then◌else◌, Bytes,
  length, take, drop,
}
use naitron_c.Wire.Buffer.{byte_at, put_u32, get_u32}

abbrev pub wire_magic : ℕ
wire_magic = 0x4E544331

abbrev pub wire_version : ℕ
wire_version = 2

abbrev pub wire_version_max : ℕ
wire_version_max = 3

abbrev pub wire_header_len : ℕ
wire_header_len = 16

pub record WireHeader : Type 0 where
  pub version : ℕ
  pub type : ℕ
  pub request_id : ℕ
  pub length : ℕ

-- `type` is a byte, `request_id` and `payload_len` are 32-bit words.
unfoldable pub write_header : ℕ → ℕ → ℕ → Bytes
write_header type request_id payload_len =
    put_u32 wire_magic
    ++ (wire_version ∷ type ∷ 0 ∷ 0 ∷ (put_u32 request_id ++ put_u32 payload_len))

unfoldable pub version_ok : ℕ → Bool
version_ok v = leb wire_version v && leb v wire_version_max

-- The fields that both readers take from the first 16 bytes.
abbrev pub header_at : Bytes → WireHeader
header_at buf = record {
  version = byte_at buf 4;
  type = byte_at buf 5;
  request_id = get_u32 (drop 8 buf);
  length = get_u32 (drop 12 buf);
}

-- `none` is the result false. The caller passes 16 bytes.
unfoldable pub parse_header : Bytes → Option WireHeader
unfolding version_ok
parse_header buf =
    if get_u32 buf != wire_magic
    then none
    else if not (version_ok (byte_at buf 4))
    then none
    else some (header_at buf)

-- The results 0, -1 and 1, the last with `hdr`, `payload` and `consumed`.
pub data FrameResult : Type 0 where
  incomplete malformed : FrameResult
  frame : WireHeader → Bytes → ℕ → FrameResult

unfoldable pub read_frame : Bytes → FrameResult
unfolding version_ok
read_frame buf =
    let plen = get_u32 (drop 12 buf) in
    if ltb (length buf) wire_header_len
    then incomplete
    else if get_u32 buf != wire_magic
    then malformed
    else if not (version_ok (byte_at buf 4))
    then malformed
    else if ltb (length buf) (wire_header_len + plen)
    then incomplete
    else frame (header_at buf) (take plen (drop wire_header_len buf)) (wire_header_len + plen)

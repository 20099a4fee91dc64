-- ===== src/Tests/WireRuns.antt =====
-- Runs of the wire codec.
use naitron_c.Prelude.{true, [], ◌∷◌, ◌++◌, none, some, Bytes, ◌≡◌, refl, arith, codes}
use naitron_c.Http.{Request}
use naitron_c.Wire.Buffer.{w_u8, w_u16, w_u32, w_bytes, w_slice16}
use naitron_c.Wire.Frame.{write_header, read_frame, incomplete, malformed, frame}
use naitron_c.Wire.FrameLaws.{read_frame-write_header, read_frame_cut, read_frame-append}
use naitron_c.Wire.Payload.{
  w_slice32, encode_response, decode_response, encode_response_ex, decode_response_ex,
  encode_response_begin, encode_ws_msg,
}
use naitron_c.Wire.Request.{w_pairs, w_counted, encode_request, decode_request}
use naitron_c.Wire.RoundTrip.{decode_response-encode_response, decode_response_ex-encode_response}
use naitron_c.Wire.RequestTrip.{arrived, decode_request-encode_request}

abbrev get : Request
get = record {
  method = codes "GET";
  target = codes "/x?y=1";
  path = codes "/x";
  query = codes "y=1";
  minor_version = 1;
  headers = record { name = codes "Host"; value = codes "h" } ∷ [];
  params = record { name = codes "id"; value = codes "7" } ∷ [];
  auth_sub = codes "u";
  auth_scope = [];
  has_content_length = true;
  content_length = 2;
  body = codes "ab";
}

abbrev get_bytes : Bytes
get_bytes =
    0 ∷ 3 ∷ b'G' ∷ b'E' ∷ b'T' ∷ 0 ∷ 2 ∷ b'/' ∷ b'x' ∷ 0 ∷ 3 ∷ b'y' ∷ b'=' ∷ b'1' ∷ 0 ∷ 1 ∷ 0 ∷ 4
    ∷ b'H' ∷ b'o' ∷ b's' ∷ b't' ∷ 0 ∷ 1 ∷ b'h' ∷ 0 ∷ 1 ∷ 0 ∷ 2 ∷ b'i' ∷ b'd' ∷ 0 ∷ 1 ∷ b'7' ∷ 0 ∷ 1
    ∷ b'u' ∷ 0 ∷ 0 ∷ 0 ∷ 0 ∷ 0 ∷ 2 ∷ b'a' ∷ b'b' ∷ []

encoded : encode_request get 64 ≡ some get_bytes
unfolding encode_request w_counted w_pairs w_slice32 w_slice16 w_bytes w_u16 w_u32
encoded = refl

-- The buffer is one byte too small.
too_small : encode_request get 44 ≡ none
unfolding encode_request w_counted w_pairs w_slice32 w_slice16 w_bytes w_u16 w_u32
too_small = refl

decode_request-encode_request_example : decode_request get_bytes ≡ some (arrived get)
decode_request-encode_request_example = decode_request-encode_request get 64 (omega arith) encoded

abbrev page : Bytes
page = 0 ∷ 200 ∷ 0 ∷ 1 ∷ b't' ∷ 0 ∷ 0 ∷ 0 ∷ 2 ∷ b'o' ∷ b'k' ∷ []

page_encoded : encode_response 200 (codes "t") (codes "ok") 64 ≡ some page
unfolding encode_response w_slice32 w_slice16 w_bytes w_u16 w_u32
page_encoded = refl

decode_response-encode_response_example : decode_response page ≡ some (200, codes "t", codes "ok")
decode_response-encode_response_example =
    decode_response-encode_response 200 (codes "t") (codes "ok") (omega arith) 64 (omega arith)
      page_encoded

decode_response_ex-encode_response_example :
    decode_response_ex page ≡ some (200, codes "t", codes "ok", [])
decode_response_ex-encode_response_example =
    decode_response_ex-encode_response 200 (codes "t") (codes "ok") (omega arith) 64 (omega arith)
      page_encoded

abbrev page_ex : Bytes
page_ex = page ++ (0 ∷ 1 ∷ b'h' ∷ [])

page_ex_encoded : encode_response_ex 200 (codes "t") (codes "ok") (codes "h") 64 ≡ some page_ex
unfolding encode_response_ex w_slice32 w_slice16 w_bytes w_u16 w_u32
page_ex_encoded = refl

begin_encoded : encode_response_begin 200 1 (codes "t") 64 ≡ some (0 ∷ 200 ∷ 1 ∷ 0 ∷ 1 ∷ b't' ∷ [])
unfolding encode_response_begin w_slice16 w_bytes w_u16 w_u8
begin_encoded = refl

message_encoded : encode_ws_msg 1 (codes "hi") 64 ≡ some (1 ∷ 0 ∷ 0 ∷ 0 ∷ 2 ∷ b'h' ∷ b'i' ∷ [])
unfolding encode_ws_msg w_slice32 w_bytes w_u8 w_u32
message_encoded = refl

-- A version byte of 4 is refused.
newer :
    read_frame (0x4E ∷ 0x54 ∷ 0x43 ∷ 0x31 ∷ 4 ∷ 3 ∷ 0 ∷ 0 ∷ 0 ∷ 0 ∷ 0 ∷ 1 ∷ 0 ∷ 0 ∷ 0 ∷ 0 ∷ [])
    ≡ malformed
unfolding read_frame
newer = refl

read_frame-write_header_example :
    read_frame (write_header 3 9 2 ++ (codes "ab" ++ codes "rest"))
    ≡ frame (record { version = 2; type = 3; request_id = 9; length = 2 }) (codes "ab") 18
read_frame-write_header_example =
    read_frame-write_header 3 9 (codes "ab") (codes "rest") (omega arith) (omega arith)
      (omega arith)

whole_frame :
    read_frame (write_header 3 9 1 ++ codes "a")
    ≡ frame (record { version = 2; type = 3; request_id = 9; length = 1 }) (codes "a") 17
unfolding read_frame write_header
whole_frame = refl

read_frame-append_example :
    read_frame ((write_header 3 9 1 ++ codes "a") ++ codes "more")
    ≡ frame (record { version = 2; type = 3; request_id = 9; length = 1 }) (codes "a") 17
read_frame-append_example =
    read_frame-append (write_header 3 9 1 ++ codes "a") (codes "more") whole_frame

read_frame_cut_example : read_frame (write_header 3 9 2 ++ codes "a") ≡ incomplete
unfolding write_header
read_frame_cut_example =
    read_frame_cut 3 9 (codes "ab") (write_header 3 9 2 ++ codes "a") (codes "b") (omega arith)
      (omega arith) (omega arith) refl (omega arith)

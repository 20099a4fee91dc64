-- ===== src/Controller/Output.antt =====
-- Writing to the core in src/common/controller_sdk.c. The socket takes a number of bytes before it
-- breaks, or it never breaks; an interrupted call is made again.
use naitron_c.Prelude.{
  ℕ, ◌+◌, ◌-◌, ◌%◌, ◌^◌, Bool, true, false, ◌++◌, Option, none, some, ltb, leb, ◌==◌, if◌then◌else◌,
  Bytes, length, take,
}
use naitron_c.Wire.Frame.{write_header}
use naitron_c.Wire.Payload.{encode_ws_msg, encode_ws_close}

-- `out` is what the core has got. `room` counts the bytes until the socket breaks.
pub record Fd : Type 0 where
  pub out : Bytes
  pub room : Option ℕ

unfoldable pub take_room : Fd → Option ℕ → Bytes → Fd × Bool
take_room fd none bs = (record fd { out = fd.out ++ bs }, true)
take_room fd (some n) bs =
    if leb (length bs) n
    then (record { out = fd.out ++ bs; room = some (n - length bs) }, true)
    else (record { out = fd.out ++ take n bs; room = some 0 }, false)

-- `write_full(…) > 0`; nothing is written of no bytes.
unfoldable pub write_full : Fd → Bytes → Fd × Bool
write_full fd bs = take_room fd fd.room bs

-- The second write, behind one that worked.
unfoldable pub write_behind : Fd × Bool → Bytes → Fd × Bool
write_behind (fd, false) bs = (fd, false)
write_behind (fd, true) bs = write_full fd bs

-- `send_frame(…) == 0`.
unfoldable pub send_frame : Fd → ℕ → ℕ → Bytes → Fd × Bool
send_frame fd type rid payload =
    let written = write_full fd (write_header type rid (length payload)) in
    if length payload == 0 then written else write_behind written payload

-- `NTC_MSG_…`.
abbrev pub msg_hello : ℕ
msg_hello = 1

abbrev pub msg_welcome : ℕ
msg_welcome = 2

abbrev pub msg_request : ℕ
msg_request = 3

abbrev pub msg_response : ℕ
msg_response = 4

abbrev pub msg_ping : ℕ
msg_ping = 5

abbrev pub msg_pong : ℕ
msg_pong = 6

abbrev pub msg_response_begin : ℕ
msg_response_begin = 7

abbrev pub msg_response_chunk : ℕ
msg_response_chunk = 8

abbrev pub msg_response_end : ℕ
msg_response_end = 9

abbrev pub msg_ws_open : ℕ
msg_ws_open = 10

abbrev pub msg_ws_msg : ℕ
msg_ws_msg = 11

abbrev pub msg_ws_close : ℕ
msg_ws_close = 12

-- A payload that was encoded goes out; -1 does not.
unfoldable pub send_encoded : Fd → ℕ → ℕ → Option Bytes → Fd × Bool
send_encoded fd type rid none = (fd, false)
send_encoded fd type rid (some payload) = send_frame fd type rid payload

-- `ntc_ws_send`, where malloc gives memory.
unfoldable pub ws_send : Fd → ℕ → ℕ → Bytes → Fd × Bool
ws_send fd rid opcode bytes =
    if ltb (2 ^ 32 - 1 - 16) (length bytes)
    then (fd, false)
    else send_encoded fd msg_ws_msg rid (encode_ws_msg (opcode % 256) bytes (length bytes + 8))

-- `ntc_ws_send_text`; NULL is the empty text.
unfoldable pub ws_send_text : Fd → ℕ → Bytes → Fd × Bool
ws_send_text fd rid text = ws_send fd rid 1 text

unfoldable pub ws_close : Fd → ℕ → Fd × Bool
ws_close fd rid = send_encoded fd msg_ws_close rid (encode_ws_close 1000 2)

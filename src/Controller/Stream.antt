-- ===== src/Controller/Stream.antt =====
-- The streaming API of src/common/controller_sdk.c: the state machine of one streamed response. A
-- result of a call is whether it is 0; malloc gives memory.
use naitron_c.Prelude.{
  ℕ, ◌+◌, ◌-◌, ◌^◌, Bool, true, false, not, ◌||◌, List, [], ◌∷◌, ◌++◌, Option, none, some, ltb,
  ◌==◌, if◌then◌else◌, Bytes, length, codes,
}
use naitron_c.Wire.Buffer.{put_u32}
use naitron_c.Wire.Frame.{write_header}
use naitron_c.Wire.Payload.{encode_response_begin}
use naitron_c.Controller.Output.{
  Fd, write_full, write_behind, send_frame, msg_response_begin, msg_response_chunk,
  msg_response_end,
}

pub record Stream : Type 0 where
  pub fd : Fd
  pub rid : ℕ
  pub begun : Bool
  pub ended : Bool

-- The socket behind a call.
unfoldable pub with_fd : Stream → Fd × Bool → Stream × Bool
with_fd st (fd, ok) = (record st { fd = fd }, ok)

unfoldable pub begin_with : Stream → Option Bytes → Stream × Bool
begin_with st none = (st, false)
begin_with st (some payload) =
    with_fd (record st { begun = true }) (send_frame st.fd msg_response_begin st.rid payload)

-- `stream_begin`.
unfoldable pub begin_stream : Stream → ℕ → ℕ → Bytes → Stream × Bool
begin_stream st status flags ctype =
    if st.begun || st.ended
    then (st, false)
    else begin_with st (encode_response_begin status flags ctype 1024)

unfoldable pub stream_begin : Stream → ℕ → Bytes → Stream × Bool
stream_begin st status ctype = begin_stream st status 2 ctype

unfoldable pub sse_begin : Stream → Stream × Bool
sse_begin st = begin_stream st 200 1 (codes "text/event-stream")

-- The header with the length of the chunk, and then the chunk.
unfoldable pub send_chunk : Fd → ℕ → Bytes → Fd × Bool
send_chunk fd rid bytes =
    write_behind
      (write_full fd
        (write_header msg_response_chunk rid (length bytes + 4) ++ put_u32 (length bytes)))
      bytes

unfoldable pub stream_write : Stream → Bytes → Stream × Bool
stream_write st bytes =
    if not st.begun || st.ended
    then (st, false)
    else if length bytes == 0
    then (st, true)
    else if ltb (2 ^ 32 - 1 - 4) (length bytes)
    then (st, false)
    else with_fd st (send_chunk st.fd st.rid bytes)

-- The text of an event; a missing event or text is NULL, which is empty.
unfoldable pub sse_text : Bytes → Bytes → Bytes
sse_text event text =
    (if length event == 0 then [] else codes "event: " ++ (event ++ (b'\n' ∷ [])))
    ++ (codes "data: " ++ (text ++ (b'\n' ∷ b'\n' ∷ [])))

unfoldable pub sse_send : Stream → Bytes → Bytes → Stream × Bool
sse_send st event text =
    if not st.begun || st.ended then (st, false) else stream_write st (sse_text event text)

unfoldable pub stream_end : Stream → Stream × Bool
stream_end st =
    if st.ended
    then (st, true)
    else with_fd (record st { ended = true }) (send_frame st.fd msg_response_end st.rid [])

-- What a handler can do with its stream.
pub data Call : Type 0 where
  call_begin : ℕ → Bytes → Call
  call_sse_begin call_end : Call
  call_write : Bytes → Call
  call_sse_send : Bytes → Bytes → Call

unfoldable pub do_call : Stream → Call → Stream × Bool
do_call st (call_begin status ctype) = stream_begin st status ctype
do_call st call_sse_begin = sse_begin st
do_call st (call_write bytes) = stream_write st bytes
do_call st (call_sse_send event text) = sse_send st event text
do_call st call_end = stream_end st

unfoldable pub do_calls : Stream → List Call → Stream
do_calls st [] = st
do_calls st (c ∷ cs) = do_calls (do_call st c).0 cs

-- The new stream of a request, and what ntc_controller_run does behind the handler with a stream that
-- was begun.
unfoldable pub open_stream : Fd → ℕ → Stream
open_stream fd rid = record { fd = fd; rid = rid; begun = false; ended = false }

unfoldable pub close_stream : Stream → Stream
close_stream st = if st.ended then st else (stream_end st).0

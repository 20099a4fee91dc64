-- ===== src/Tests/StreamRuns.antt =====
-- A streamed response in runs.
use naitron_c.Prelude.{
  ℕ, zero, suc, ◌≤◌, true, false, List, [], ◌∷◌, ◌++◌, some, Bytes, length, ◌≡◌, refl, ap, arith,
  All, codes,
}
use naitron_c.Server.Streamed.{framed, Arrival, relay, body_of, ending}
use naitron_c.Server.Relay.{
  stream_max_buf, size_line, hex_number, StreamConn, Io, deliver_begin, streams, deliver_end,
}
use naitron_c.Server.Written.{Takes, once_writable}
use naitron_c.Server.Delivered.{deliver_end-relay-Kept}
use naitron_c.Server.Working.{Works, Kept}
use naitron_c.Http.Respond.{
  format_stream_head, stream_head, status_line, decimal, digits_loop, status_text, formatted,
}
use naitron_c.Wire.Buffer.{r_slice16, r_slice, r_u16, r_u8}
use naitron_c.Wire.Payload.{decode_response_begin}
use naitron_c.Server.Query.{Metrics, rec_status}
use naitron_c.Server.Pipe.{SendResult, sent, would_block}
use naitron_c.Server.Ended.{Waits}

abbrev conn : StreamConn
conn = record {
  streaming = false;
  stream_sse = false;
  stream_ended = false;
  swbuf = [];
  swsent = 0;
  swcap = 0;
  extra_headers = [];
  closed = false;
  out = [];
}

-- Seven bytes go out, then the socket is full.
abbrev slow : Io
slow = record { memory = true; armed = true; rearmed = true; sends = sent 7 ∷ would_block ∷ [] }

abbrev arrivals : List Arrival
arrivals = record { bytes = codes "hello"; io = slow; io' = slow; io'' = slow } ∷ []

abbrev counters : Metrics
counters = record { requests_total = 0; status_2xx = 0; status_4xx = 0; status_5xx = 0 }

abbrev begin_payload : Bytes
begin_payload = 0 ∷ 200 ∷ 2 ∷ 0 ∷ 1 ∷ b't' ∷ []

begin_decoded : decode_response_begin begin_payload ≡ some (200, 2, codes "t")
unfolding decode_response_begin r_slice16 r_slice r_u16 r_u8
begin_decoded = refl

abbrev head : Bytes
head = stream_head 200 (codes "OK") (codes "t") false []

head_made : format_stream_head true 200 (status_text 200) (codes "t") false [] ≡ formatted head
unfolding format_stream_head stream_head status_line decimal digits_loop status_text
head_made = refl

slow-Works : Works slow
slow-Works = record { memory = refl; armed = refl; rearmed = refl; sends = (tt, (tt, tt)) }

abbrev whole : Bytes
whole = (head ++ body_of false arrivals) ++ ending false

whole_fits : length whole ≤ stream_max_buf
unfolding stream_head status_line decimal digits_loop body_of framed size_line hex_number
whole_fits = omega arith

-- The socket takes one byte at a time.
abbrev bytewise : ℕ → List SendResult
bytewise zero = []
bytewise (suc n) = sent 1 ∷ bytewise n

bytewise_taken : (n : ℕ) → All Takes (bytewise n)
bytewise_taken zero = tt
bytewise_taken (suc n) = (tt, bytewise_taken n)

length-bytewise : (n : ℕ) → length (bytewise n) ≡ n
length-bytewise zero = refl
length-bytewise (suc n) = ap suc (length-bytewise n)

whole_short : length whole ≤ 400
unfolding stream_head status_line decimal digits_loop body_of framed size_line hex_number
whole_short = omega arith

deliver_end-relay-Kept_example :
    (c' : StreamConn) × (deliver_begin slow true counters conn begin_payload
      ≡ streams (rec_status counters 200) c')
    × Kept true false (deliver_end slow (relay c' arrivals)) whole
    × Waits (deliver_end slow (relay c' arrivals))
    × ((once_writable (bytewise 400) (deliver_end slow (relay c' arrivals))).out ≡ whole)
    × ((once_writable (bytewise 400) (deliver_end slow (relay c' arrivals))).closed ≡ true)
deliver_end-relay-Kept_example =
    deliver_end-relay-Kept slow counters conn begin_payload head (codes "t") 200 2 arrivals slow
      (bytewise 400) (record { none_out = refl; none_queued = refl }) refl refl begin_decoded
      head_made slow-Works
      (
        record {
          short = omega arith;
          works = slow-Works;
          works' = slow-Works;
          works'' = slow-Works;
        },
        tt,
      )
      slow-Works whole_fits (bytewise_taken 400) (omega (arith, whole_short, length-bytewise 400))

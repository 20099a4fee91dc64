-- ===== src/Server/Pipe.antt =====
-- The buffers between the gateway and a controller in src/core/server.c: buf_reserve, ctrl_queue,
-- on_ctrl_writable and on_ctrl_readable. What `send` and `recv` return is a list of results, of which
-- a call reads as many as it needs. Whether `realloc` succeeds is an argument.
use naitron_c.Prelude.{
  ℕ, zero, suc, ◌+◌, ◌*◌, ◌%◌, ◌^◌, Bool, List, [], ◌∷◌, ◌++◌, Option, none, some, ltb, leb, ◌==◌,
  if◌then◌else◌, Bytes, length, take, drop, ◌>>=◌,
}
use naitron_c.Wire.Frame.{
  WireHeader, FrameResult, incomplete, malformed, frame, read_frame, write_header,
}

-- `rbuf[0 .. rlen)` and `wbuf[0 .. wlen)`.
pub record Ctrl : Type 0 where
  pub rbuf : Bytes
  pub rcap : ℕ
  pub wbuf : Bytes
  pub wsent : ℕ
  pub wcap : ℕ

abbrev pub ctrl_max_rbuf : ℕ
ctrl_max_rbuf = 4 * 1024 * 1024

-- `while (ncap < need) ncap *= 2;`, where `none` means that the fuel ran out.
unfoldable pub grow_cap : ℕ → ℕ → ℕ → Option ℕ
grow_cap zero ncap need = none
grow_cap (suc fuel) ncap need =
    let rest = grow_cap fuel (ncap * 2 % 2 ^ 64) need in if ltb ncap need then rest else some ncap

-- `buf_reserve`, on the capacity.
unfoldable pub buf_reserve : Bool → ℕ → ℕ → Option ℕ
buf_reserve mem cap need =
    let grown = grow_cap 64 (if cap == 0 then 4096 else cap) need in
    if leb need cap then some cap else if mem then grown else none

-- `none` is the result -1.
unfoldable pub ctrl_queue : Bool → Ctrl → ℕ → ℕ → Bytes → Option Ctrl
ctrl_queue mem ct type rid payload =
    buf_reserve mem ct.wcap (length ct.wbuf + 16 + length payload) >>= λ cap. some (record ct {
      wbuf = ct.wbuf ++ (write_header type rid (length payload) ++ payload);
      wcap = cap;
    })

-- The events that a controller is polled for: READ, with or without WRITE.
unfoldable pub wants_write : Ctrl → Bool
wants_write ct = ltb ct.wsent (length ct.wbuf)

pub data SendResult : Type 0 where
  sent : ℕ → SendResult
  interrupted would_block broken : SendResult

-- `if (ct->wsent >= ct->wlen)`.
unfoldable pub rewind_sent : Ctrl → Ctrl
rewind_sent ct = if leb (length ct.wbuf) ct.wsent then record ct { wbuf = []; wsent = 0 } else ct

-- What went out, and the controller, unless it died.
pub record Sending : Type 0 where
  pub out : Bytes
  pub left : Option Ctrl

-- `on_ctrl_writable`.
unfoldable pub send_loop : Ctrl → List SendResult → Sending
send_loop ct [] = record { out = []; left = some (rewind_sent ct) }
send_loop ct (sent zero ∷ rs) =
    if wants_write ct
    then record { out = []; left = none }
    else record { out = []; left = some (rewind_sent ct) }
send_loop ct (sent (suc n) ∷ rs) =
    let rest = send_loop (record ct { wsent = ct.wsent + suc n }) rs in
    if wants_write ct
    then record { out = take (suc n) (drop ct.wsent ct.wbuf) ++ rest.out; left = rest.left }
    else record { out = []; left = some (rewind_sent ct) }
send_loop ct (interrupted ∷ rs) = send_loop ct rs
send_loop ct (would_block ∷ rs) = record { out = []; left = some (rewind_sent ct) }
send_loop ct (broken ∷ rs) =
    if wants_write ct
    then record { out = []; left = none }
    else record { out = []; left = some (rewind_sent ct) }

pub data RecvResult : Type 0 where
  got : Bytes → RecvResult
  end_of_file interrupted_recv no_more failed : RecvResult

-- The first loop of `on_ctrl_readable`, with the capacity after buf_reserve; `none` is the death of
-- the controller.
unfoldable pub recv_loop : Bool → Ctrl → List RecvResult → Option Ctrl
recv_loop mem ct [] = some ct
recv_loop mem ct (got bytes ∷ rs) = buf_reserve mem ct.rcap (length ct.rbuf + 16384) >>= λ cap.
    let ct' = record ct { rbuf = ct.rbuf ++ bytes; rcap = cap } in
    let rest = recv_loop mem ct' rs in
    if ltb ctrl_max_rbuf (length ct.rbuf + length bytes) then none else rest
recv_loop mem ct (interrupted_recv ∷ rs) =
    buf_reserve mem ct.rcap (length ct.rbuf + 16384) >>= λ cap.
    recv_loop mem (record ct { rcap = cap }) rs
recv_loop mem ct (no_more ∷ rs) =
    buf_reserve mem ct.rcap (length ct.rbuf + 16384) >>= λ cap. some (record ct { rcap = cap })
recv_loop mem ct (end_of_file ∷ rs) = none
recv_loop mem ct (failed ∷ rs) = none

abbrev pub Message : Type 0
Message = WireHeader × Bytes

-- The messages in order, and what is left in the buffer; `none` when a frame is malformed.
pub record Drained : Type 0 where
  pub messages : List Message
  pub left : Option Bytes

-- What follows in the second loop after `ntc_wire_read_frame`.
unfoldable pub drain_next : (Bytes → Drained) → Bytes → FrameResult → Drained
drain_next loop buf incomplete = record { messages = []; left = some buf }
drain_next loop buf malformed = record { messages = []; left = none }
drain_next loop buf (frame h payload consumed) =
    let rest = loop (drop consumed buf) in
    record { messages = (h, payload) ∷ rest.messages; left = rest.left }

-- The second loop of `on_ctrl_readable`.
unfoldable pub drain_loop : ℕ → Bytes → Drained
drain_loop zero buf = record { messages = []; left = some buf }
drain_loop (suc fuel) buf = drain_next (drain_loop fuel) buf (read_frame buf)

-- The messages that are dispatched, and the controller, unless it died.
pub record Reading : Type 0 where
  pub messages : List Message
  pub left : Option Ctrl

unfoldable pub keep_rest : Ctrl → Drained → Reading
keep_rest ct d = record {
  messages = d.messages;
  left = d.left >>= λ rest. some (record ct { rbuf = rest });
}

unfoldable pub drain : Option Ctrl → Reading
drain none = record { messages = []; left = none }
drain (some ct) = keep_rest ct (drain_loop (suc (length ct.rbuf)) ct.rbuf)

unfoldable pub on_ctrl_readable : Bool → Ctrl → List RecvResult → Reading
on_ctrl_readable mem ct rs = drain (recv_loop mem ct rs)

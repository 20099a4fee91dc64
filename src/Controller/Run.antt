-- ===== src/Controller/Run.antt =====
-- ntc_controller_run of src/common/controller_sdk.c. The input is all that the core sends before it
-- closes the connection. The handlers are parameters: what they do with a stream or a WebSocket is a
-- list of calls. The arena gives memory.
use naitron_c.Prelude.{
  ℕ, zero, suc, ◌+◌, ◌*◌, Bool, true, false, not, ◌||◌, List, [], ◌∷◌, Option, none, some, ltb, leb,
  ◌==◌, if◌then◌else◌, Bytes, length, take, drop, ◌>>=◌, codes,
}
use naitron_c.Http.{Request}
use naitron_c.Wire.Frame.{WireHeader, parse_header}
use naitron_c.Wire.Payload.{encode_response, encode_response_ex, decode_ws_msg}
use naitron_c.Wire.Request.{decode_request}
use naitron_c.Controller.Output.{
  Fd, send_frame, send_encoded, ws_send, ws_close as send_close, msg_hello, msg_welcome,
  msg_request, msg_response, msg_ping, msg_pong, msg_ws_open, msg_ws_msg, msg_ws_close,
}
use naitron_c.Controller.Reply.{Response, fresh_response, bad_request, controller_error}
use naitron_c.Controller.Stream.{Stream, Call, do_calls, open_stream, close_stream}

abbrev pub ctl_max_payload : ℕ
ctl_max_payload = 256 * 1024

pub data WsCall : Type 0 where
  call_ws_send : ℕ → Bytes → WsCall
  call_ws_close : WsCall

-- `ntc_controller`, where `none` is NULL. A handler's result is whether it is 0, with its response; a
-- streaming handler's is that with the calls it makes.
pub record Controller : Type 0 where
  pub name : Bytes
  pub handle : Option (Request → Bool × Response)
  pub stream : Option (Request → Bool × List Call)
  pub ws_open : Option (Request → List WsCall)
  pub ws_message : Option (ℕ → Bytes → List WsCall)
  pub ws_close : Option (List WsCall)

-- The loop goes on, or the process calls a null pointer.
pub data Next : Type 0 where
  goes_on crashes : Fd → Next

unfoldable pub do_ws_calls : Fd → ℕ → List WsCall → Fd
do_ws_calls fd rid [] = fd
do_ws_calls fd rid (call_ws_send opcode bytes ∷ cs) =
    do_ws_calls (ws_send fd rid opcode bytes).0 rid cs
do_ws_calls fd rid (call_ws_close ∷ cs) = do_ws_calls (send_close fd rid).0 rid cs

unfoldable pub on_ws_open : Option (Request → List WsCall) → Option Request → Fd → ℕ → Fd
on_ws_open (some f) (some req) fd rid = do_ws_calls fd rid (f req)
on_ws_open _ _ fd rid = fd

unfoldable pub on_ws_message : Option (ℕ → Bytes → List WsCall) → Option (ℕ × Bytes) → Fd → ℕ → Fd
on_ws_message (some f) (some (opcode, bytes)) fd rid = do_ws_calls fd rid (f opcode bytes)
on_ws_message _ _ fd rid = fd

unfoldable pub on_ws_close : Option (List WsCall) → Fd → ℕ → Fd
on_ws_close none fd rid = fd
on_ws_close (some cs) fd rid = do_ws_calls fd rid cs

-- The response in place of a stream that was not begun.
unfoldable pub one_shot : Option Bool → Response
one_shot none = record fresh_response {
  status = 400;
  content_type = codes "text/plain";
  body = codes "bad request";
}
one_shot (some true) = record fresh_response { status = 204; content_type = codes "text/plain" }
one_shot (some false) = record fresh_response {
  status = 500;
  content_type = codes "text/plain";
  body = codes "stream error";
}

unfoldable pub send_one_shot : Fd → ℕ → Response → Fd
send_one_shot fd rid res =
    let size = length res.body + length res.content_type + 64 in
    (send_encoded fd msg_response rid (encode_response res.status res.content_type res.body size)).0

-- Behind the streaming handler.
unfoldable pub finish_stream : Stream → Option Bool → Fd
finish_stream st verdict =
    if st.begun then (close_stream st).fd else send_one_shot st.fd st.rid (one_shot verdict)

unfoldable pub run_stream : (Request → Bool × List Call) → Option Request → Fd → ℕ → Fd
run_stream f none fd rid = finish_stream (open_stream fd rid) none
run_stream f (some req) fd rid =
    let (ok, calls) = f req in finish_stream (do_calls (open_stream fd rid) calls) (some ok)

unfoldable pub checked : Bool × Response → Response
checked (true, res) = res
checked (false, res) = controller_error res

-- The encoding of a response, with its headers if it has any.
unfoldable pub encoded : Response → Option Bytes
encoded res =
    let size = length res.body + length res.content_type + length res.headers + 80 in
    if length res.headers == 0
    then encode_response res.status res.content_type res.body size
    else encode_response_ex res.status res.content_type res.body res.headers size

unfoldable pub send_response : Fd → ℕ → Response → Fd
send_response fd rid res = (send_encoded fd msg_response rid (encoded res)).0

unfoldable pub run_handle : Option (Request → Bool × Response) → Option Request → Fd → ℕ → Next
run_handle f none fd rid = goes_on (send_response fd rid bad_request)
run_handle (some f) (some req) fd rid = goes_on (send_response fd rid (checked (f req)))
run_handle none (some req) fd rid = crashes fd

unfoldable pub on_request : Controller → Bytes → Fd → ℕ → Next
on_request ctl payload fd rid = elim ctl.stream [
  | some f ↦ goes_on (run_stream f (decode_request payload) fd rid)
  | none ↦ run_handle ctl.handle (decode_request payload) fd rid
]

-- A frame that was read whole.
unfoldable pub on_frame : Controller → WireHeader → Bytes → Fd → Next
on_frame ctl h payload fd =
    if h.type == msg_welcome
    then goes_on fd
    else if h.type == msg_ping
    then goes_on (send_frame fd msg_pong h.request_id []).0
    else if h.type == msg_ws_open
    then goes_on (on_ws_open ctl.ws_open (decode_request payload) fd h.request_id)
    else if h.type == msg_ws_msg
    then goes_on (on_ws_message ctl.ws_message (decode_ws_msg payload) fd h.request_id)
    else if h.type == msg_ws_close
    then goes_on (on_ws_close ctl.ws_close fd h.request_id)
    else if h.type == msg_request
    then on_request ctl payload fd h.request_id
    else goes_on fd

-- How the process ends: with an exit code, or by a crash; `stuck` means that the fuel ran out.
pub data Exit : Type 0 where
  exits : ℕ → Fd → Exit
  crashed stuck : Fd → Exit

unfoldable pub continue_with : (Fd → Exit) → Next → Exit
continue_with loop (goes_on fd) = loop fd
continue_with loop (crashes fd) = crashed fd

-- What `read_full` can take of the input.
unfoldable pub read_full : ℕ → Bytes → Option (Bytes × Bytes)
read_full n input = if leb n (length input) then some (take n input, drop n input) else none

-- The payload behind a header that parses, if it is not too big.
unfoldable pub read_payload : WireHeader → Bytes → Option (Bytes × Bytes)
read_payload h input = if ltb ctl_max_payload h.length then none else read_full h.length input

-- A whole frame; `none` ends the loop.
unfoldable pub next_frame : Bytes → Option (WireHeader × Bytes × Bytes)
next_frame input = read_full 16 input >>= λ r.
    parse_header r.0 >>= λ h. read_payload h r.1 >>= λ p. some (h, p.0, p.1)

unfoldable pub run_loop : Controller → ℕ → Bytes → Fd → Exit
run_loop ctl zero input fd = stuck fd
run_loop ctl (suc fuel) input fd = elim (next_frame input) [
  | none ↦ exits 0 fd
  | some (h, payload, rest) ↦ continue_with (run_loop ctl fuel rest) (on_frame ctl h payload fd)
]

unfoldable pub is_set {ℓ} : {A : Type ℓ} → Option A → Bool
is_set none = false
is_set (some a) = true

unfoldable pub is_empty : Controller → Bool
is_empty ctl =
    not (is_set ctl.handle || is_set ctl.stream || is_set ctl.ws_open || is_set ctl.ws_message)

-- `ntc_controller_run` with an open socket.
unfoldable pub after_hello : Controller → Bytes → Fd × Bool → Exit
after_hello ctl input (fd, true) = run_loop ctl (suc (length input)) input fd
after_hello ctl input (fd, false) = exits 1 fd

unfoldable pub controller_run : Controller → Bytes → Fd → Exit
controller_run ctl input fd =
    if is_empty ctl then exits 2 fd else after_hello ctl input (send_frame fd msg_hello 0 ctl.name)

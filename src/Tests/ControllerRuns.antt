-- ===== src/Tests/ControllerRuns.antt =====
-- Runs of the controller SDK.
use naitron_c.Prelude.{
  ◌^◌, ◌<◌, Bool, true, false, List, [], ◌∷◌, ◌++◌, none, some, Bytes, length, ◌≡◌, refl, arith,
  All, codes,
}
use naitron_c.Controller.Service.{
  answer_to, Served, IsAtomic, IsAnswered, requests, replies, controller_run-requests,
}
use naitron_c.Wire.Buffer.{w_bytes, w_u32, w_slice16, w_u16, w_u8}
use naitron_c.Wire.Payload.{encode_response, w_slice32, encode_response_begin}
use naitron_c.Controller.Run.{encoded, checked, Controller, exits, controller_run}
use naitron_c.Wire.Request.{encode_request, w_counted, w_pairs}
use naitron_c.Controller.Stream.{
  do_calls, do_call, stream_write, stream_begin, begin_stream, open_stream, begin_with, with_fd,
  send_chunk, Stream, Call, call_begin, call_write, close_stream,
}
use naitron_c.Http.{Request}
use naitron_c.Controller.Output.{msg_hello}
use naitron_c.Controller.StreamLaws.{whole, msg}
use naitron_c.Controller.Ending.{IsComplete, close_stream-IsComplete, do_call_refused}
use naitron_c.Controller.Reply.{Response}

abbrev calls : List Call
calls = call_begin 200 (codes "text/plain") ∷ call_write (codes "a") ∷ []

abbrev after_calls : Stream
after_calls = do_calls (open_stream (whole []) 7) calls

after_calls-begun : after_calls.begun ≡ true
unfolding do_calls do_call stream_write stream_begin begin_stream open_stream begin_with
    encode_response_begin w_slice16 w_bytes w_u16 w_u8 with_fd
after_calls-begun = refl

close_stream-IsComplete_example : IsComplete [] 7 (close_stream after_calls)
close_stream-IsComplete_example = close_stream-IsComplete [] 7 calls after_calls-begun

twice_refused : (do_call after_calls (call_begin 200 [])).1 ≡ false
unfolding do_calls do_call stream_write stream_begin begin_stream open_stream begin_with
    encode_response_begin w_slice16 w_bytes w_u16 w_u8 with_fd send_chunk
twice_refused = refl

do_call_refused_example : (do_call after_calls (call_begin 200 [])).0 ≡ after_calls
do_call_refused_example = do_call_refused [] 7 calls (call_begin 200 []) twice_refused

-- GET /x with a body.
abbrev request : Request
request = record {
  method = codes "GET";
  target = codes "/x";
  path = codes "/x";
  query = [];
  minor_version = 1;
  headers = [];
  params = [];
  auth_sub = [];
  auth_scope = [];
  has_content_length = true;
  content_length = 2;
  body = codes "ab";
}

-- The body comes back.
abbrev echo : Request → Bool × Response
echo req = (true, record { status = 200; content_type = codes "t"; body = req.body; headers = [] })

abbrev controller : Controller
controller = record {
  name = codes "echo";
  handle = some echo;
  stream = none;
  ws_open = none;
  ws_message = none;
  ws_close = none;
}

abbrev controller-IsAtomic : IsAtomic echo controller
controller-IsAtomic = record { handles = refl; no_stream = refl }

abbrev payload : Bytes
payload =
    0 ∷ 3 ∷ b'G' ∷ b'E' ∷ b'T' ∷ 0 ∷ 2 ∷ b'/' ∷ b'x' ∷ 0 ∷ 0 ∷ 0 ∷ 0 ∷ 0 ∷ 0 ∷ 0 ∷ 0 ∷ 0 ∷ 0 ∷ 0 ∷ 0
    ∷ 0 ∷ 2 ∷ b'a' ∷ b'b' ∷ []

abbrev reply : Bytes
reply = 0 ∷ 200 ∷ 0 ∷ 1 ∷ b't' ∷ 0 ∷ 0 ∷ 0 ∷ 2 ∷ b'a' ∷ b'b' ∷ []

request_encoded : encode_request request 64 ≡ some payload
unfolding encode_request w_slice32 w_bytes w_u32 w_slice16 w_u16 w_counted w_pairs
request_encoded = refl

request_replied : encoded (answer_to echo request) ≡ some reply
unfolding encoded checked encode_response w_slice32 w_bytes w_u32 w_slice16 w_u16
request_replied = refl

answer_small :
    ((answer_to echo request).status < 2 ^ 16) × (length (answer_to echo request).body < 2 ^ 32)
unfolding checked
answer_small = (omega arith, omega arith)

abbrev served : Served echo
served = record {
  rid = 65537;
  req = request;
  cap = 64;
  payload = payload;
  reply = reply;
  rid_fits = omega arith;
  body_fits = omega arith;
  sent = request_encoded;
  payload_fits = omega arith;
  replied = request_replied;
  status_fits = answer_small.0;
  answer_fits = answer_small.1;
}

controller_run-requests_example :
    (controller_run controller (requests echo (served ∷ [])) (whole [])
      ≡ exits 0 (whole (msg 0 msg_hello (codes "echo") ++ replies echo (served ∷ []))))
    × All (IsAnswered echo) (served ∷ [])
controller_run-requests_example =
    controller_run-requests echo controller controller-IsAtomic (served ∷ [])

-- ===== src/Controller/Service.antt =====
-- Requests and replies over the wire: ntc_controller_run of src/common/controller_sdk.c against the
-- encoders of src/common/wire.c.
use naitron_c.Controller.Run.{
  on_request, ctl_max_payload, read_full, read_payload, next_frame, Controller, goes_on, exits,
  on_frame, run_handle, send_response, checked, encoded, run_loop, continue_with, after_hello,
  controller_run, is_empty, is_set,
}
use naitron_c.Prelude.{
  ℕ, zero, suc, ◌+◌, ◌^◌, ◌≤◌, ◌<◌, Bool, false, not, ◌||◌, List, [], ◌∷◌, ◌++◌, none, some, ◌==◌,
  if◌then◌else◌, Bytes, length, ◌≡◌, refl, sym, ap, ◌∙◌, arith, All, append-nil, append_assoc,
  length-append, drop-length_append, take-length_append,
}
use naitron_c.Wire.Payload.{encode_response, encode_response_ex, decode_response_ex}
use naitron_c.Wire.RoundTrip.{
  decode_response_ex-encode_response_ex, decode_response_ex-encode_response,
}
use naitron_c.Wire.Frame.{WireHeader, parse_header, write_header, wire_version}
use naitron_c.Controller.Reply.{Response}
use naitron_c.Controller.StreamLaws.{whole, msg, send_frame-whole}
use naitron_c.Controller.Output.{Fd, send_encoded, msg_request, msg_response, msg_hello}
use naitron_c.Wire.RequestTrip.{arrived, decode_request-encode_request}
use naitron_c.Wire.Request.{encode_request}
use naitron_c.Http.{Request}

-- A written frame is read, with what follows it.
next_frame-msg :
    (type rid : ℕ) (payload rest : Bytes)
    → type < 256
    → rid < 2 ^ 32
    → length payload ≤ ctl_max_payload
    → next_frame (msg rid type payload ++ rest)
      ≡ some (
        record { version = wire_version; type = type; request_id = rid; length = length payload },
        payload,
        rest,
      )
unfolding next_frame read_full read_payload parse_header write_header
next_frame-msg type rid payload rest ht hr hp = ground (
  arith,
  length-append payload rest,
  take-length_append payload rest,
  drop-length_append payload rest,
)

send_response-whole :
    (out : Bytes) (rid : ℕ) (res : Response) {b : Bytes}
    → encoded res ≡ some b
    → send_response (whole out) rid res ≡ whole (out ++ msg rid msg_response b)
unfolding send_response send_encoded
send_response-whole out rid res {b} h =
    ap (λ e. (send_encoded (whole out) msg_response rid e).0) h
    ∙ ap (λ r. r.0) (send_frame-whole out msg_response rid b)

run_loop-step :
    (ctl : Controller) (fuel : ℕ) (input : Bytes) (fd : Fd) {h : WireHeader} {payload rest : Bytes}
    {fd' : Fd}
    → next_frame input ≡ some (h, payload, rest)
    → on_frame ctl h payload fd ≡ goes_on fd'
    → run_loop ctl (suc fuel) input fd ≡ run_loop ctl fuel rest fd'
unfolding run_loop continue_with
run_loop-step ctl fuel input fd e e' = rw (e, run_loop) (rw e' refl)

is_empty-handle :
    (ctl : Controller) {f : Request → Bool × Response} → ctl.handle ≡ some f → is_empty ctl ≡ false
unfolding is_empty is_set
is_empty-handle ctl e =
    ap (λ o. not (is_set o || is_set ctl.stream || is_set ctl.ws_open || is_set ctl.ws_message)) e

run_loop-nothing :
    (ctl : Controller) (fuel : ℕ) (out : Bytes)
    → run_loop ctl (suc fuel) [] (whole out) ≡ exits 0 (whole (out ++ []))
unfolding run_loop next_frame read_full
run_loop-nothing ctl fuel out = ap (λ bs. exits 0 (whole bs)) (sym (append-nil out))

length-msg : (rid type : ℕ) (payload : Bytes) → 16 ≤ length (msg rid type payload)
unfolding write_header
length-msg rid type payload = omega arith

either-decodes :
    (status : ℕ) (ctype body headers : Bytes) (room room' : ℕ) {b : Bytes}
    → status < 2 ^ 16
    → length body < 2 ^ 32
    → (if length headers == 0
        then encode_response status ctype body room
        else encode_response_ex status ctype body headers room')
      ≡ some b
    → decode_response_ex b ≡ some (status, ctype, body, headers)
either-decodes status ctype body [] room room' hs hb h =
    decode_response_ex-encode_response status ctype body hs room hb h
either-decodes status ctype body (x ∷ headers) room room' {b} hs hb h =
    let some_headers : (length (x ∷ headers) == 0) ≡ false = ground arith in
    decode_response_ex-encode_response_ex status ctype body (x ∷ headers) hs room' hb
      (rw some_headers at h)

module _ (f : Request → Bool × Response) where
  -- What the handler makes of a request that has arrived.
  abbrev pub answer_to : Request → Response
  answer_to req = checked (f (arrived req))

  -- A request that the gateway could encode, and the encoding of its answer.
  pub record Served : Type 0 where
    pub rid : ℕ
    pub req : Request
    pub cap : ℕ
    pub payload : Bytes
    pub reply : Bytes
    pub rid_fits : rid < 2 ^ 32
    pub body_fits : length req.body < 2 ^ 32
    pub sent : encode_request req cap ≡ some payload
    pub payload_fits : length payload ≤ ctl_max_payload
    pub replied : encoded (answer_to req) ≡ some reply
    pub status_fits : (answer_to req).status < 2 ^ 16
    pub answer_fits : length (answer_to req).body < 2 ^ 32

  -- The payload of the reply reads back as the handler's answer.
  unfoldable pub IsAnswered : Served → Type 0
  IsAnswered s =
      let r = answer_to s.req in
      decode_response_ex s.reply ≡ some (r.status, r.content_type, r.body, r.headers)

  served-IsAnswered : (s : Served) → IsAnswered s
  unfolding IsAnswered encoded
  served-IsAnswered s =
      let r = answer_to s.req in
      let size = length r.body + length r.content_type + length r.headers + 80 in
      either-decodes r.status r.content_type r.body r.headers size size s.status_fits s.answer_fits
        s.replied

  unfoldable pub requests : List Served → Bytes
  requests [] = []
  requests (s ∷ ss) = msg s.rid msg_request s.payload ++ requests ss

  unfoldable pub replies : List Served → Bytes
  replies [] = []
  replies (s ∷ ss) = msg s.rid msg_response s.reply ++ replies ss

  -- The controller has an atomic handler and no streaming one.
  pub record IsAtomic (ctl : Controller) : Type 0 where
    pub handles : ctl.handle ≡ some f
    pub no_stream : ctl.stream ≡ none

  module _ (ctl : Controller) (atomic : IsAtomic ctl) where
    on_frame-request :
        (s : Served) (out : Bytes)
        → on_frame ctl
            (record {
              version = wire_version;
              type = msg_request;
              request_id = s.rid;
              length = length s.payload;
            })
            s.payload
            (whole out)
          ≡ goes_on (whole (out ++ msg s.rid msg_response s.reply))
    unfolding on_frame on_request run_handle
    on_frame-request s out =
        rw
          (
            atomic.no_stream,
            atomic.handles,
            decode_request-encode_request s.req s.cap s.body_fits s.sent,
          )
          (ap goes_on (send_response-whole out s.rid (answer_to s.req) s.replied))

    run_loop-requests :
        (ss : List Served) (fuel : ℕ) (out : Bytes)
        → length (requests ss) < fuel
        → run_loop ctl fuel (requests ss) (whole out) ≡ exits 0 (whole (out ++ replies ss))
    unfolding requests replies
    run_loop-requests ss zero out h = absurd (omega arith)
    run_loop-requests [] (suc fuel) out h = run_loop-nothing ctl fuel out
    run_loop-requests (s ∷ ss) (suc fuel) out h =
        let smaller : length (requests ss) < fuel = omega (
          arith,
          length-append (msg s.rid msg_request s.payload) (requests ss),
          length-msg s.rid msg_request s.payload,
        ) in
        run_loop-step ctl fuel (requests (s ∷ ss)) (whole out)
          (next_frame-msg msg_request s.rid s.payload (requests ss) (omega arith) s.rid_fits
            s.payload_fits)
          (on_frame-request s out)
        ∙ run_loop-requests ss fuel (out ++ msg s.rid msg_response s.reply) smaller
        ∙ ap (λ bs. exits 0 (whole bs))
            (append_assoc out (msg s.rid msg_response s.reply) (replies ss))

    -- On requests that the gateway encoded, a controller with an atomic handler says HELLO, answers
    -- each with one RESPONSE that has its id, in order, and ends with code 0. The payload of every
    -- RESPONSE reads back as what the handler made of the request. Every answer has to fit its
    -- encoding, and the socket takes every byte that is written to it.
    pub controller_run-requests :
        (ss : List Served)
        → (controller_run ctl (requests ss) (whole [])
            ≡ exits 0 (whole (msg 0 msg_hello ctl.name ++ replies ss)))
          × All IsAnswered ss
    unfolding controller_run after_hello
    controller_run-requests ss = (
      rw (is_empty-handle ctl atomic.handles, send_frame-whole [] msg_hello 0 ctl.name)
          (run_loop-requests ss (suc (length (requests ss))) (msg 0 msg_hello ctl.name)
            (omega arith)),
      each ss,
    )
      where
        each : (ss : List Served) → All IsAnswered ss
        each [] = tt
        each (s ∷ ss) = (served-IsAnswered s, each ss)

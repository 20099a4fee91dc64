-- ===== src/Controller/StreamLaws.antt =====
-- What a streaming handler of src/common/controller_sdk.c can put on the wire.
use naitron_c.Prelude.{
  ℕ, ◌+◌, ◌-◌, ◌^◌, Bool, true, false, List, [], ◌∷◌, ◌++◌, none, ltb, ◌==◌, Bytes, length, ◌≡◌,
  refl, sym, ap, ◌∙◌, inl, inr, arith, Bool-cases, Option-cases, append-nil, append_assoc, codes,
}
use naitron_c.Controller.Stream.{
  Stream, with_fd, begin_with, begin_stream, stream_begin, sse_begin, send_chunk, stream_write,
  sse_text, sse_send, stream_end, Call, call_begin, call_sse_begin, call_end, call_write,
  call_sse_send, do_call,
}
use naitron_c.Controller.Output.{
  msg_response_end, Fd, take_room, write_full, write_behind, send_frame, msg_response_begin,
  msg_response_chunk,
}
use naitron_c.Wire.Buffer.{put_u32}
use naitron_c.Wire.Frame.{write_header}
use naitron_c.Wire.Payload.{encode_response_begin}

-- The messages of one response so far: none, a begin with chunks, the same with an end, or an end
-- alone.
pub data Trace : Type 0 where
  idle ended_early : Trace
  streaming closed : Bytes → List Bytes → Trace

-- The calls move along these edges.
pub data Step : Trace → Trace → Type 0 where
  stay : (t : Trace) → Step t t
  begins : (b : Bytes) → Step idle (streaming b [])
  adds :
      (b : Bytes) (cs : List Bytes) (c : Bytes) → Step (streaming b cs) (streaming b (cs ++ c ∷ []))
  ends : (b : Bytes) (cs : List Bytes) → Step (streaming b cs) (closed b cs)
  gives_up : Step idle ended_early

-- A socket that does not break.
abbrev pub whole : Bytes → Fd
whole out = record { out = out; room = none }

abbrev pub msg : ℕ → ℕ → Bytes → Bytes
msg rid type payload = write_header type rid (length payload) ++ payload

unfoldable pub chunks : ℕ → List Bytes → Bytes
chunks rid [] = []
chunks rid (c ∷ cs) = msg rid msg_response_chunk (put_u32 (length c) ++ c) ++ chunks rid cs

abbrev pub trace_bytes : ℕ → Trace → Bytes
trace_bytes rid idle = []
trace_bytes rid ended_early = msg rid msg_response_end []
trace_bytes rid (streaming b cs) = msg rid msg_response_begin b ++ chunks rid cs
trace_bytes rid (closed b cs) =
    (msg rid msg_response_begin b ++ chunks rid cs) ++ msg rid msg_response_end []

abbrev has_begun : Trace → Bool
has_begun idle = false
has_begun ended_early = false
has_begun (streaming b cs) = true
has_begun (closed b cs) = true

abbrev has_ended : Trace → Bool
has_ended idle = false
has_ended ended_early = true
has_ended (streaming b cs) = false
has_ended (closed b cs) = true

-- The stream behind the messages of a trace, which follow `base`.
abbrev pub state_of : Bytes → ℕ → Trace → Stream
state_of base rid t = record {
  fd = whole (base ++ trace_bytes rid t);
  rid = rid;
  begun = has_begun t;
  ended = has_ended t;
}

positive_length : (x : ℕ) (s : Bytes) → (length (x ∷ s) == 0) ≡ false
positive_length x s = ground arith

pub send_frame-whole :
    (out : Bytes) (type rid : ℕ) (payload : Bytes)
    → send_frame (whole out) type rid payload ≡ (whole (out ++ msg rid type payload), true)
unfolding send_frame write_behind write_full take_room
send_frame-whole out type rid [] =
    ap (λ bs. (whole (out ++ bs), true)) (sym (append-nil (write_header type rid 0)))
send_frame-whole out type rid (x ∷ payload) =
    rw
      (
        positive_length x payload,
        append_assoc out (write_header type rid (length (x ∷ payload))) (x ∷ payload),
      )
      refl

chunks-append :
    (rid : ℕ) (cs : List Bytes) (c : Bytes)
    → chunks rid (cs ++ c ∷ [])
      ≡ chunks rid cs ++ msg rid msg_response_chunk (put_u32 (length c) ++ c)
unfolding chunks
chunks-append rid [] c = append-nil (msg rid msg_response_chunk (put_u32 (length c) ++ c))
chunks-append rid (x ∷ cs) c =
    ap (λ bs. msg rid msg_response_chunk (put_u32 (length x) ++ x) ++ bs) (chunks-append rid cs c)
    ∙ sym (
        append_assoc (msg rid msg_response_chunk (put_u32 (length x) ++ x)) (chunks rid cs)
          (msg rid msg_response_chunk (put_u32 (length c) ++ c)))

send_chunk-whole :
    (out : Bytes) (rid : ℕ) (c : Bytes)
    → send_chunk (whole out) rid c
      ≡ (whole (out ++ msg rid msg_response_chunk (put_u32 (length c) ++ c)), true)
unfolding send_chunk write_behind write_full take_room
send_chunk-whole out rid c =
    let head : ℕ → Bytes = write_header msg_response_chunk rid in
    let same : length c + 4 ≡ length (put_u32 (length c) ++ c) = omega arith in
    ap (λ bs. (whole bs, true))
      (append_assoc out (head (length c + 4) ++ put_u32 (length c)) c
        ∙ ap (λ bs. out ++ bs)
            (append_assoc (head (length c + 4)) (put_u32 (length c)) c
              ∙ ap (λ n. head n ++ (put_u32 (length c) ++ c)) same))

-- Where a call leads.
pub record Moves (base : Bytes) (rid : ℕ) (t : Trace) (result : Stream × Bool) : Type 0 where
  pub onto : Trace
  pub state : result.0 ≡ state_of base rid onto
  pub edge : Step t onto
  pub refused : result.1 ≡ false → onto ≡ t

module _ (base : Bytes) (rid : ℕ) where
  halts : (t : Trace) (ok : Bool) → Moves base rid t (state_of base rid t, ok)
  halts t ok = record { onto = t; state = refl; edge = stay t; refused = λ e. refl }

  begin_stream-Moves :
      (t : Trace) (status flags : ℕ) (ctype : Bytes)
      → Moves base rid t (begin_stream (state_of base rid t) status flags ctype)
  unfolding begin_stream begin_with with_fd write_header chunks
  begin_stream-Moves ended_early status flags ctype = halts ended_early false
  begin_stream-Moves (streaming b cs) status flags ctype = halts (streaming b cs) false
  begin_stream-Moves (closed b cs) status flags ctype = halts (closed b cs) false
  begin_stream-Moves idle status flags ctype =
      elim (Option-cases (encode_response_begin status flags ctype 1024)) [
        | inl n ↦ rw n (halts idle false)
        | inr (b, e) ↦
            rw (e, send_frame-whole (base ++ []) msg_response_begin rid b)
              (record {
                onto = streaming b [];
                state =
                    ap (λ bs. record { fd = whole bs; rid = rid; begun = true; ended = false })
                      (rw (append-nil base, append-nil (msg rid msg_response_begin b)) refl);
                edge = begins b;
                refused = λ no_ok. cc no_ok;
              })
      ]

  added :
      (b : Bytes) (cs : List Bytes) (c : Bytes)
      → (base ++ trace_bytes rid (streaming b cs))
          ++ msg rid msg_response_chunk (put_u32 (length c) ++ c)
        ≡ base ++ trace_bytes rid (streaming b (cs ++ c ∷ []))
  added b cs c =
      let m : Bytes = msg rid msg_response_chunk (put_u32 (length c) ++ c) in
      append_assoc base (trace_bytes rid (streaming b cs)) m
      ∙ ap (λ bs. base ++ bs)
          (append_assoc (msg rid msg_response_begin b) (chunks rid cs) m
            ∙ ap (λ bs. msg rid msg_response_begin b ++ bs) (sym (chunks-append rid cs c)))

  stream_write-Moves :
      (t : Trace) (c : Bytes) → Moves base rid t (stream_write (state_of base rid t) c)
  unfolding stream_write with_fd
  stream_write-Moves idle c = halts idle false
  stream_write-Moves ended_early c = halts ended_early false
  stream_write-Moves (closed b cs) c = halts (closed b cs) false
  stream_write-Moves (streaming b cs) c = elim (Bool-cases (length c == 0)) [
    | inl t ↦ rw t (halts (streaming b cs) true)
    | inr f ↦ elim (Bool-cases (ltb (2 ^ 32 - 1 - 4) (length c))) [
      | inl t ↦ rw (f, t) (halts (streaming b cs) false)
      | inr g ↦
          rw (f, g, send_chunk-whole (base ++ trace_bytes rid (streaming b cs)) rid c)
            (record {
              onto = streaming b (cs ++ c ∷ []);
              state =
                  ap (λ bs. record { fd = whole bs; rid = rid; begun = true; ended = false })
                    (added b cs c);
              edge = adds b cs c;
              refused = λ no_ok. cc no_ok;
            })
    ]
  ]

  pub stream_end-streaming :
      (b : Bytes) (cs : List Bytes)
      → stream_end (state_of base rid (streaming b cs)) ≡ (state_of base rid (closed b cs), true)
  unfolding stream_end with_fd
  stream_end-streaming b cs =
      rw (send_frame-whole (base ++ trace_bytes rid (streaming b cs)) msg_response_end rid []) (
        ap (λ bs. (record { fd = whole bs; rid = rid; begun = true; ended = true }, true))
          (append_assoc base (trace_bytes rid (streaming b cs)) (msg rid msg_response_end [])))

  stream_end-Moves : (t : Trace) → Moves base rid t (stream_end (state_of base rid t))
  unfolding stream_end with_fd
  stream_end-Moves ended_early = halts ended_early true
  stream_end-Moves (closed b cs) = halts (closed b cs) true
  stream_end-Moves idle = rw (send_frame-whole (base ++ []) msg_response_end rid []) (record {
    onto = ended_early;
    state =
        ap
          (λ bs. record {
            fd = whole (bs ++ msg rid msg_response_end []);
            rid = rid;
            begun = false;
            ended = true;
          })
          (append-nil base);
    edge = gives_up;
    refused = λ no_ok. cc no_ok;
  })
  stream_end-Moves (streaming b cs) = record {
    onto = closed b cs;
    state = ap (λ (r : Stream × Bool). r.0) (stream_end-streaming b cs);
    edge = ends b cs;
    refused = λ no_ok. cc (no_ok, stream_end-streaming b cs);
  }

  sse_send-Moves :
      (t : Trace) (event text : Bytes)
      → Moves base rid t (sse_send (state_of base rid t) event text)
  unfolding sse_send
  sse_send-Moves idle event text = halts idle false
  sse_send-Moves ended_early event text = halts ended_early false
  sse_send-Moves (closed b cs) event text = halts (closed b cs) false
  sse_send-Moves (streaming b cs) event text =
      stream_write-Moves (streaming b cs) (sse_text event text)

  pub do_call-Moves : (t : Trace) (c : Call) → Moves base rid t (do_call (state_of base rid t) c)
  unfolding do_call stream_begin sse_begin
  do_call-Moves t (call_begin status ctype) = begin_stream-Moves t status 2 ctype
  do_call-Moves t call_sse_begin = begin_stream-Moves t 200 1 (codes "text/event-stream")
  do_call-Moves t (call_write c) = stream_write-Moves t c
  do_call-Moves t (call_sse_send event text) = sse_send-Moves t event text
  do_call-Moves t call_end = stream_end-Moves t

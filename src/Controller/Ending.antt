-- ===== src/Controller/Ending.antt =====
-- A streamed response of src/common/controller_sdk.c ends, whatever its handler calls.
use naitron_c.Prelude.{
  ℕ, Bool, true, false, List, [], ◌∷◌, ◌++◌, Bytes, ◌≡◌, refl, sym, ap, ◌∙◌, append-nil,
}
use mathlib.Core.Path.{subst}
use naitron_c.Controller.Output.{msg_response_begin, msg_response_end}
use naitron_c.Controller.Stream.{Stream, Call, do_call, do_calls, open_stream, close_stream}
use naitron_c.Controller.StreamLaws.{
  Trace, idle, ended_early, streaming, closed, Step, stay, whole, msg, chunks, state_of,
  do_call-Moves, stream_end-streaming,
}

-- What some calls lead to.
pub data Steps (t : Trace) : Trace → Type 0 where
  here : Steps t t
  next : {u v : Trace} → Steps t u → Step u v → Steps t v

prepend : {t u v : Trace} → Step t u → Steps u v → Steps t v
prepend s here = next here s
prepend s (next ss l) = next (prepend s ss) l

-- The trace that a run of calls leads to.
pub record Runs (base : Bytes) (rid : ℕ) (t : Trace) (st : Stream) : Type 0 where
  pub onto : Trace
  pub state : st ≡ state_of base rid onto
  pub steps : Steps t onto

module _ (base : Bytes) (rid : ℕ) where
  do_calls-Runs : (cs : List Call) (t : Trace) → Runs base rid t (do_calls (state_of base rid t) cs)
  unfolding do_calls
  do_calls-Runs [] t = record { onto = t; state = refl; steps = here }
  do_calls-Runs (c ∷ cs) t =
      let m = do_call-Moves base rid t c in
      let r = do_calls-Runs cs m.onto in
      record {
        onto = r.onto;
        state = ap (λ st. do_calls st cs) m.state ∙ r.state;
        steps = prepend m.edge r.steps;
      }

  start-Runs : (cs : List Call) → Runs base rid idle (do_calls (open_stream (whole base) rid) cs)
  unfolding open_stream
  start-Runs cs =
      let r = do_calls-Runs cs idle in
      record {
        onto = r.onto;
        state =
            ap
              (λ bs.
                do_calls (record { fd = whole bs; rid = rid; begun = false; ended = false }) cs)
              (sym (append-nil base))
            ∙ r.state;
        steps = r.steps;
      }

  closed-stays : {b : Bytes} {cs : List Bytes} {t : Trace} → Step (closed b cs) t → t ≡ closed b cs
  closed-stays (stay t) = refl

  closed_for_good :
      (b : Bytes) (cs : List Bytes) (calls : List Call)
      → do_calls (state_of base rid (closed b cs)) calls ≡ state_of base rid (closed b cs)
  unfolding do_calls
  closed_for_good b cs [] = refl
  closed_for_good b cs (c ∷ calls) =
      let m = do_call-Moves base rid (closed b cs) c in
      ap (λ st. do_calls st calls) (m.state ∙ ap (state_of base rid) (closed-stays m.edge))
      ∙ closed_for_good b cs calls

  close-streaming :
      (b : Bytes) (cs : List Bytes)
      → close_stream (state_of base rid (streaming b cs)) ≡ state_of base rid (closed b cs)
  unfolding close_stream
  close-streaming b cs = ap (λ (r : Stream × Bool). r.0) (stream_end-streaming base rid b cs)

  -- The messages of a response that has begun and is closed.
  pub record IsComplete (st : Stream) : Type 0 where
    pub first : Bytes
    pub parts : List Bytes
    pub sent :
        st.fd.out
        ≡ base
          ++ ((msg rid msg_response_begin first ++ chunks rid parts) ++ msg rid msg_response_end [])
    pub done : (calls : List Call) → do_calls st calls ≡ st

  complete : (b : Bytes) (cs : List Bytes) → IsComplete (state_of base rid (closed b cs))
  complete b cs = record { first = b; parts = cs; sent = refl; done = closed_for_good b cs }

  close-IsComplete :
      (t : Trace)
      → (state_of base rid t).begun ≡ true
      → IsComplete (close_stream (state_of base rid t))
  unfolding close_stream
  close-IsComplete idle h = absurd (cc h)
  close-IsComplete ended_early h = absurd (cc h)
  close-IsComplete (closed b cs) h = complete b cs
  close-IsComplete (streaming b cs) h =
      subst IsComplete (sym (close-streaming b cs)) (complete b cs)

  -- Whatever calls a handler makes on its stream, if it has begun the stream then the response that
  -- the core gets is complete: one RESPONSE_BEGIN, then chunks, then one RESPONSE_END, and nothing
  -- that is called later adds to it. The socket does not break.
  pub close_stream-IsComplete :
      (calls : List Call)
      → (do_calls (open_stream (whole base) rid) calls).begun ≡ true
      → IsComplete (close_stream (do_calls (open_stream (whole base) rid) calls))
  close_stream-IsComplete calls h =
      let r = start-Runs calls in
      subst (λ st. IsComplete (close_stream st)) (sym r.state)
        (close-IsComplete r.onto (ap (λ (st : Stream). st.begun) (sym r.state) ∙ h))

  -- A call that gives -1 has sent nothing and leaves the stream as it was, at any point of a
  -- handler's calls. The socket does not break.
  pub do_call_refused :
      (calls : List Call) (c : Call)
      → (do_call (do_calls (open_stream (whole base) rid) calls) c).1 ≡ false
      → (do_call (do_calls (open_stream (whole base) rid) calls) c).0
        ≡ do_calls (open_stream (whole base) rid) calls
  do_call_refused calls c h =
      let r = start-Runs calls in
      let m = do_call-Moves base rid r.onto c in
      let same = m.refused (ap (λ st. (do_call st c).1) (sym r.state) ∙ h) in
      ap (λ st. (do_call st c).0) r.state ∙ (m.state ∙ (ap (state_of base rid) same ∙ sym r.state))

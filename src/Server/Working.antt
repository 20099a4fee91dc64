-- ===== src/Server/Working.antt =====
-- stream_push of src/core/server.c when nothing fails: realloc and the poller succeed, and send takes
-- some bytes, is interrupted or is full.
use naitron_c.Prelude.{
  ℕ, zero, suc, ◌+◌, ◌≤◌, Bool, true, false, List, [], ◌∷◌, ◌++◌, some, ltb, ◌==◌, if◌then◌else◌,
  Bytes, length, drop, ◌≡◌, refl, sym, ap, ◌∙◌, inl, inr, arith, Bool-cases, All, append-nil,
  length-append,
}
use mathlib.Core.Path.{subst}
use naitron_c.Server.Relay.{
  StreamConn, Io, shut, has_unsent, send_some, drained, flush_stream, stream_kick, compact,
  append_bytes, push_bytes, stream_push, push_next, stream_max_buf,
}
use naitron_c.Server.Pipe.{SendResult, sent, interrupted, would_block, broken}
use naitron_c.Server.Reserve.{buf_reserve-enough}
use naitron_c.Server.RelayLaws.{unsent, Buffers, drop-all, send_some-Buffers, append_bytes-Buffers}

-- A send that does not fail.
abbrev pub Goes : SendResult → Type 0
Goes (sent zero) = ⊥
Goes (sent (suc n)) = Unit
Goes interrupted = Unit
Goes would_block = Unit
Goes broken = ⊥

pub record Works (io : Io) : Type 0 where
  pub memory : io.memory ≡ true
  pub armed : io.armed ≡ true
  pub rearmed : io.rearmed ≡ true
  pub sends : All Goes io.sends

-- Of the bytes s the client has a beginning and the buffer the rest. The connection is closed only
-- behind the end (`ended`), when the client has all of them.
pub record Kept (ended sse : Bool) (c : StreamConn) (s : Bytes) : Type 0 where
  pub buffers : Buffers sse c s
  pub same_end : c.stream_ended ≡ ended
  pub finished : c.closed ≡ true → (ended ≡ true) × (c.out ≡ s)

module _ (ended sse : Bool) where
  open-Kept :
      (c : StreamConn) (s : Bytes)
      → c.closed ≡ false
      → c.stream_ended ≡ ended
      → Buffers sse c s
      → Kept ended sse c s
  open-Kept c s e same b = record { buffers = b; same_end = same; finished = λ t. cc (t, e) }

  pub if-Kept :
      (t : Bool) (c c' : StreamConn) (s : Bytes)
      → (t ≡ true → Kept ended sse c s)
      → (t ≡ false → Kept ended sse c' s)
      → Kept ended sse (if t then c else c') s
  if-Kept true c c' s k k' = k refl
  if-Kept false c c' s k k' = k' refl

  drained-Kept :
      (rearmed : Bool) (c : StreamConn) (s : Bytes)
      → rearmed ≡ true
      → c.closed ≡ false
      → c.stream_ended ≡ ended
      → Buffers sse c s
      → has_unsent c ≡ false
      → Kept ended sse (drained rearmed c) s
  unfolding drained shut has_unsent
  drained-Kept rearmed c s again e same b all =
      let empty : unsent c ≡ [] = drop-all c.swsent c.swbuf (ground (arith, all)) in
      let c' = record c { swbuf = []; swsent = 0 } in
      let whole = ap (λ xs. c.out ++ xs) (sym empty) ∙ b.whole in
      let b' : Buffers sse c' s = record {
        streaming = b.streaming;
        framing = b.framing;
        whole = whole;
      } in
      if-Kept c.stream_ended (shut c') (if rearmed then c' else shut c') s
        (λ t. record {
          buffers = record { streaming = b.streaming; framing = b.framing; whole = whole };
          same_end = same;
          finished = λ _. (sym same ∙ t, sym (append-nil c.out) ∙ whole);
        })
        (λ _. if-Kept rearmed c' (shut c') s (λ _. open-Kept c' s e same b') (λ f. cc (f, again)))

  pub flush_stream-Kept :
      (rearmed : Bool) (c : StreamConn) (rs : List SendResult) (s : Bytes)
      → rearmed ≡ true
      → All Goes rs
      → c.closed ≡ false
      → c.stream_ended ≡ ended
      → Buffers sse c s
      → Kept ended sse (flush_stream rearmed c rs) s
  unfolding flush_stream send_some
  flush_stream-Kept rearmed c [] s again goes e same b =
      if-Kept (has_unsent c) c _ s (λ _. open-Kept c s e same b)
        (drained-Kept rearmed c s again e same b)
  flush_stream-Kept rearmed c (sent zero ∷ rs) s again goes e same b = absurd goes.0
  flush_stream-Kept rearmed c (sent (suc n) ∷ rs) s again goes e same b =
      if-Kept (has_unsent c) _ _ s
        (λ _.
          flush_stream-Kept rearmed (send_some c (suc n)) rs s again goes.1 e same
            (send_some-Buffers sse c (suc n) s b))
        (drained-Kept rearmed c s again e same b)
  flush_stream-Kept rearmed c (interrupted ∷ rs) s again goes e same b =
      if-Kept (has_unsent c) _ _ s (λ _. flush_stream-Kept rearmed c rs s again goes.1 e same b)
        (drained-Kept rearmed c s again e same b)
  flush_stream-Kept rearmed c (would_block ∷ rs) s again goes e same b =
      if-Kept (has_unsent c) c _ s (λ _. open-Kept c s e same b)
        (drained-Kept rearmed c s again e same b)
  flush_stream-Kept rearmed c (broken ∷ rs) s again goes e same b = absurd goes.0

  stream_kick-Kept :
      (io : Io) (c : StreamConn) (s : Bytes)
      → Works io
      → c.closed ≡ false
      → c.stream_ended ≡ ended
      → Buffers sse c s
      → Kept ended sse (stream_kick io c) s
  unfolding stream_kick
  stream_kick-Kept io c s w e same b =
      if-Kept io.armed _ _ s
        (λ _. flush_stream-Kept io.rearmed c io.sends s w.rearmed w.sends e same b)
        (λ f. cc (f, w.armed))

  -- There is room for the bytes.
  append_bytes_room :
      (c : StreamConn) (bytes : Bytes)
      → length c.swbuf + length bytes ≤ stream_max_buf
      → (c' : StreamConn) × (append_bytes true c bytes ≡ some c')
        × (c'.closed ≡ c.closed)
        × (c'.stream_ended ≡ c.stream_ended)
  unfolding append_bytes
  append_bytes_room c bytes small =
      let need : ℕ = length c.swbuf + length bytes in
      let fits : ltb stream_max_buf need ≡ false = ground (arith, small) in
      let (cap, e, _) = buf_reserve-enough c.swcap need (omega (arith, small)) in
      (record c { swbuf = c.swbuf ++ bytes; swcap = cap }, rw (fits, e) refl, refl, refl)

  push_bytes-Kept :
      (io : Io) (c : StreamConn) (bytes s : Bytes)
      → Works io
      → c.swsent ≡ 0
      → length (s ++ bytes) ≤ stream_max_buf
      → c.closed ≡ false
      → c.stream_ended ≡ ended
      → Buffers sse c s
      → Kept ended sse (push_bytes io c (append_bytes io.memory c bytes)) (s ++ bytes)
  unfolding push_bytes
  push_bytes-Kept io c bytes s w start small e same b =
      let size : length c.out + length c.swbuf ≡ length s =
        sym (length-append c.out c.swbuf)
        ∙ ap length (sym (ap (λ n. c.out ++ drop n c.swbuf) start) ∙ b.whole) in
      let (c', made, closed_same, end_same) =
        append_bytes_room c bytes (omega (arith, size, length-append s bytes, small)) in
      let made' = ap (λ m. append_bytes m c bytes) w.memory ∙ made in
      rw made' (
        stream_kick-Kept io c' (s ++ bytes) w (closed_same ∙ e) (end_same ∙ same)
          (append_bytes-Buffers sse io.memory c bytes s start b made'))

  pub stream_push-Kept :
      (io : Io) (c : StreamConn) (bytes s : Bytes)
      → Works io
      → length (s ++ bytes) ≤ stream_max_buf
      → c.closed ≡ false
      → c.stream_ended ≡ ended
      → Buffers sse c s
      → Kept ended sse (stream_push io c bytes) (s ++ bytes)
  unfolding stream_push compact
  stream_push-Kept io c [] s w small e same b =
      subst (λ s. Kept ended sse (stream_kick io c) s) (sym (append-nil s))
        (stream_kick-Kept io c s w e same b)
  stream_push-Kept io c (x ∷ bytes) s w small e same b =
      let full : (length (x ∷ bytes) == 0) ≡ false = ground arith in
      let c' = record c { swbuf = drop c.swsent c.swbuf; swsent = 0 } in
      rw full (
        push_bytes-Kept io c' (x ∷ bytes) s w refl small e same
          (record { streaming = b.streaming; framing = b.framing; whole = b.whole }))

module _ (sse : Bool) where
  -- A stream that has not ended is open.
  pub still_open : (c : StreamConn) (s : Bytes) → Kept false sse c s → c.closed ≡ false
  still_open c s k = elim (Bool-cases c.closed) [ inl t ↦ cc (k.finished t).0 | inr f ↦ f ]

  pub push_next-Kept :
      (io : Io) (c : StreamConn) (bytes s : Bytes)
      → Works io
      → length (s ++ bytes) ≤ stream_max_buf
      → Kept false sse c s
      → Kept false sse (push_next io c bytes) (s ++ bytes)
  unfolding push_next
  push_next-Kept io c bytes s w small k =
      let e = still_open c s k in
      if-Kept false sse c.closed c (stream_push io c bytes) (s ++ bytes) (λ t. cc (t, e))
        (λ _. stream_push-Kept false sse io c bytes s w small e k.same_end k.buffers)

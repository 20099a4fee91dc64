-- ===== src/Server/Delivered.antt =====
-- A whole streamed response when nothing fails: gw_deliver_begin, gw_deliver_chunk and
-- gw_deliver_end of src/core/server.c.
use naitron_c.Prelude.{
  ℕ, ◌%◌, ◌^◌, ◌≤◌, ◌<◌, Bool, true, false, not, ◌||◌, List, [], ◌∷◌, ◌++◌, some, ◌==◌, Bytes,
  length, drop, ◌≡◌, refl, sym, ap, ◌∙◌, arith, All, append-nil, append_assoc, length-append,
  drop-nil,
}
use mathlib.Core.Path.{subst}
use naitron_c.Wire.Payload.{decode_response_begin}
use naitron_c.Wire.RoundTrip.{decode_chunk_format}
use naitron_c.Wire.Write.{slice32}
use naitron_c.Http.Respond.{formatted, status_text, format_stream_head, crlf}
use naitron_c.Server.Query.{Metrics, rec_status}
use naitron_c.Server.Relay.{
  streams, push_head, begin_on, deliver_begin, StreamConn, Io, stream_push, push_next, size_line,
  push_chunk, chunk_with, deliver_chunk, deliver_end, shut, stream_max_buf,
}
use naitron_c.Server.RelayLaws.{unsent}
use naitron_c.Server.Pipe.{SendResult}
use naitron_c.Server.Ended.{Waits, deliver_end-Waits}
use naitron_c.Server.Working.{Works, Kept, if-Kept, still_open, stream_push-Kept, push_next-Kept}
use naitron_c.Server.Written.{Takes, once_writable, once_writable-Kept}
use naitron_c.Server.Streamed.{
  framed, framed-nil, ending, last-ending, Arrival, relay, body_of, closed_of, IsFresh,
}

-- The three pushes of a chunk work, and its length fits its field.
pub record Arrives (a : Arrival) : Type 0 where
  pub short : length a.bytes < 2 ^ 32
  pub works : Works a.io
  pub works' : Works a.io'
  pub works'' : Works a.io''

chunk_with-Kept :
    (sse : Bool) (a : Arrival) (c : StreamConn) (bytes s : Bytes)
    → Arrives a
    → length (s ++ framed sse bytes) ≤ stream_max_buf
    → Kept false sse c s
    → Kept false sse (chunk_with a.io a.io' a.io'' c (some bytes)) (s ++ framed sse bytes)
unfolding chunk_with push_chunk framed
chunk_with-Kept sse a c [] s w small k =
    subst (λ s. Kept false sse c s) (sym (ap (λ f. s ++ f) (framed-nil sse) ∙ append-nil s)) k
chunk_with-Kept true a c (x ∷ bytes) s w small k =
    let full : (length (x ∷ bytes) == 0) ≡ false = ground arith in
    rw full (
      if-Kept false true c.stream_sse _ _ (s ++ (x ∷ bytes))
        (λ _. push_next-Kept true a.io c (x ∷ bytes) s w.works small k)
        (λ f. cc (f, k.buffers.framing)))
chunk_with-Kept false a c (x ∷ bytes) s w small k =
    let full : (length (x ∷ bytes) == 0) ≡ false = ground arith in
    let line = size_line (x ∷ bytes) in
    let c1 = push_next a.io c line in
    let c2 = push_next a.io' c1 (x ∷ bytes) in
    let shift =
      append_assoc (s ++ line) (x ∷ bytes) crlf ∙ append_assoc s line ((x ∷ bytes) ++ crlf) in
    let small3 : length (((s ++ line) ++ (x ∷ bytes)) ++ crlf) ≤ stream_max_buf =
      subst (λ t. length t ≤ stream_max_buf) (sym shift) small in
    let small2 : length ((s ++ line) ++ (x ∷ bytes)) ≤ stream_max_buf =
      omega (arith, small3, length-append ((s ++ line) ++ (x ∷ bytes)) crlf) in
    let small1 : length (s ++ line) ≤ stream_max_buf =
      omega (arith, small2, length-append (s ++ line) (x ∷ bytes)) in
    let k1 = push_next-Kept false a.io c line s w.works small1 k in
    let k2 = push_next-Kept false a.io' c1 (x ∷ bytes) (s ++ line) w.works' small2 k1 in
    rw full (
      if-Kept false false c.stream_sse _ _ (s ++ (line ++ ((x ∷ bytes) ++ crlf)))
        (λ t. cc (t, k.buffers.framing))
        (λ _.
          subst (λ s. Kept false false (push_next a.io'' c2 crlf) s) shift
            (push_next-Kept false a.io'' c2 crlf ((s ++ line) ++ (x ∷ bytes)) w.works'' small3 k2)))

module _ (sse : Bool) where
  deliver_chunk-Kept :
      (a : Arrival) (c : StreamConn) (s : Bytes)
      → Arrives a
      → length (s ++ framed sse a.bytes) ≤ stream_max_buf
      → Kept false sse c s
      → Kept false sse
          (deliver_chunk a.io a.io' a.io'' c (slice32 a.bytes))
          (s ++ framed sse a.bytes)
  unfolding deliver_chunk
  deliver_chunk-Kept a c s w small k =
      let e = still_open sse c s k in
      if-Kept false sse (c.closed || not c.streaming) c _ (s ++ framed sse a.bytes)
        (λ t. cc (e, closed_of c.closed c.streaming t k.buffers.streaming))
        (λ _.
          subst (λ d. Kept false sse (chunk_with a.io a.io' a.io'' c d) (s ++ framed sse a.bytes))
            (sym (decode_chunk_format a.bytes w.short))
            (chunk_with-Kept sse a c a.bytes s w small k))

  relay-Kept :
      (c : StreamConn) (xs : List Arrival) (s : Bytes)
      → All Arrives xs
      → length (s ++ body_of sse xs) ≤ stream_max_buf
      → Kept false sse c s
      → Kept false sse (relay c xs) (s ++ body_of sse xs)
  unfolding relay body_of
  relay-Kept c [] s w small k = subst (λ s. Kept false sse c s) (sym (append-nil s)) k
  relay-Kept c (a ∷ xs) s w small k =
      let c' = deliver_chunk a.io a.io' a.io'' c (slice32 a.bytes) in
      let shift = append_assoc s (framed sse a.bytes) (body_of sse xs) in
      let small' : length ((s ++ framed sse a.bytes) ++ body_of sse xs) ≤ stream_max_buf =
        subst (λ t. length t ≤ stream_max_buf) (sym shift) small in
      let first : length (s ++ framed sse a.bytes) ≤ stream_max_buf =
        omega (arith, small', length-append (s ++ framed sse a.bytes) (body_of sse xs)) in
      subst (λ s. Kept false sse (relay c' xs) s) shift
        (relay-Kept c' xs (s ++ framed sse a.bytes) w.1 small'
          (deliver_chunk-Kept a c s w.0 first k))

  deliver_end-Kept :
      (io : Io) (c : StreamConn) (s : Bytes)
      → Works io
      → length (s ++ ending sse) ≤ stream_max_buf
      → Kept false sse c s
      → Kept true sse (deliver_end io c) (s ++ ending sse)
  unfolding deliver_end
  deliver_end-Kept io c s w small k =
      let e = still_open sse c s k in
      let b = k.buffers in
      let last = last-ending c.stream_sse ∙ ap ending b.framing in
      let ended = record c { stream_ended = true } in
      if-Kept true sse c.closed c _ (s ++ ending sse) (λ t. cc (t, e))
        (λ _.
          if-Kept true sse (not c.streaming) (shut c) _ (s ++ ending sse)
            (λ t. cc (t, ap not b.streaming))
            (λ _.
              subst (λ b. Kept true sse (stream_push io ended b) (s ++ ending sse)) (sym last)
                (stream_push-Kept true sse io ended (ending sse) s w small e refl
                  (record { streaming = b.streaming; framing = b.framing; whole = b.whole }))))

-- When nothing fails, a response that the controller streams reaches its client whole and in order.
-- Its bytes are the head, the chunks in their framing (none for server-sent events) and, but for these,
-- the last chunk. Behind the begin, the chunks and the end that the controller sends, the client has
-- got a beginning of these bytes. While the connection is open the rest, which is not empty, stands in
-- the buffer; when it is closed the client has got all. An event at which the socket takes some bytes
-- at each of as many sends as the response has bytes leaves it with all of them, and the connection
-- closed. The stream begins on a connection with nothing in its buffer. Nothing fails means: realloc
-- and the poller succeed, before this event each send takes some bytes, is interrupted or finds the
-- socket full, and the response fits into the 4 MB of the buffer.
pub deliver_end-relay-Kept :
    (io : Io) (m : Metrics) (c : StreamConn) (payload head ctype : Bytes) (status flags : ℕ)
    (xs : List Arrival) (io' : Io) (rs : List SendResult)
    → IsFresh c
    → c.closed ≡ false
    → c.stream_ended ≡ false
    → decode_response_begin payload ≡ some (status, flags, ctype)
    → format_stream_head true status (status_text status) ctype (flags % 2 == 1) c.extra_headers
      ≡ formatted head
    → Works io
    → All Arrives xs
    → Works io'
    → length ((head ++ body_of (flags % 2 == 1) xs) ++ ending (flags % 2 == 1)) ≤ stream_max_buf
    → All Takes rs
    → length ((head ++ body_of (flags % 2 == 1) xs) ++ ending (flags % 2 == 1)) ≤ length rs
    → (c' : StreamConn) × (deliver_begin io true m c payload ≡ streams (rec_status m status) c')
      × Kept true
          (flags % 2 == 1)
          (deliver_end io' (relay c' xs))
          ((head ++ body_of (flags % 2 == 1) xs) ++ ending (flags % 2 == 1))
      × Waits (deliver_end io' (relay c' xs))
      × ((once_writable rs (deliver_end io' (relay c' xs))).out
          ≡ (head ++ body_of (flags % 2 == 1) xs) ++ ending (flags % 2 == 1))
      × ((once_writable rs (deliver_end io' (relay c' xs))).closed ≡ true)
unfolding deliver_begin begin_on push_head
deliver_end-relay-Kept io m c payload head ctype status flags xs io' rs fresh e same decoded made w
      ws w' small takes enough =
    let sse = flags % 2 == 1 in
    let begun = record c { streaming = true; stream_sse = sse } in
    let c' = stream_push io begun head in
    let still : c.out ++ unsent c ≡ [] =
      ap (λ xs. xs ++ unsent c) fresh.none_out
      ∙ (ap (λ xs. drop c.swsent xs) fresh.none_queued ∙ drop-nil c.swsent) in
    let body = body_of sse xs in
    let small2 : length (head ++ body) ≤ stream_max_buf =
      omega (arith, small, length-append (head ++ body) (ending sse)) in
    let small1 : length head ≤ stream_max_buf = omega (arith, small2, length-append head body) in
    let k0 : Kept false sse c' head =
      stream_push-Kept false sse io begun head [] w small1 e same
        (record { streaming = refl; framing = refl; whole = still }) in
    let kept =
      deliver_end-Kept sse io' (relay c' xs) (head ++ body) w' small
        (relay-Kept sse c' xs head ws small2 k0) in
    let last =
      once_writable-Kept sse rs (deliver_end io' (relay c' xs)) ((head ++ body) ++ ending sse) takes
        enough kept in
    (
      c',
      rw (decoded, deliver_begin)
          (ap (λ f. streams (rec_status m status) (push_head io begun f)) made),
      kept,
      deliver_end-Waits io' (relay c' xs),
      last.0,
      last.1,
    )

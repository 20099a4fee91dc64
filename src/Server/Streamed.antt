-- ===== src/Server/Streamed.antt =====
-- A whole streamed response: gw_deliver_begin, gw_deliver_chunk and gw_deliver_end of
-- src/core/server.c one after the other.
use naitron_c.Prelude.{
  ℕ, ◌%◌, ◌^◌, ◌<◌, Bool, true, false, not, ◌||◌, List, [], ◌∷◌, ◌++◌, some, ◌==◌, if◌then◌else◌,
  Bytes, length, drop, ◌≡◌, refl, sym, ap, ◌∙◌, arith, All, append-nil, append_assoc, drop-nil,
}
use naitron_c.Server.Ended.{Waits, deliver_end-Waits}
use naitron_c.Server.RelayLaws.{unsent, if-Owes, more-Owes, Owes, stream_push-Owes, push_next-Owes}
use naitron_c.Server.Relay.{
  streams, push_head, begin_on, deliver_begin, StreamConn, Io, stream_push, push_next, size_line,
  push_chunk, chunk_with, deliver_chunk, last_chunk, deliver_end, shut,
}
use naitron_c.Server.Query.{Metrics, rec_status}
use naitron_c.Http.Respond.{formatted, status_text, format_stream_head, crlf}
use naitron_c.Wire.Payload.{decode_response_begin}
use naitron_c.Wire.RoundTrip.{decode_chunk_format}
use naitron_c.Wire.Write.{slice32}
use mathlib.Core.Path.{subst}

-- The bytes of a chunk for the client.
unfoldable pub framed : Bool → Bytes → Bytes
framed true bytes = bytes
framed false [] = []
framed false (x ∷ bytes) = size_line (x ∷ bytes) ++ ((x ∷ bytes) ++ crlf)

abbrev pub ending : Bool → Bytes
ending true = []
ending false = last_chunk

-- A chunk that arrives, and what the system does while it is pushed.
pub record Arrival : Type 0 where
  pub bytes : Bytes
  pub io : Io
  pub io' : Io
  pub io'' : Io

-- Chunks in RESPONSE_CHUNK payloads as ntc_stream_write sends them.
unfoldable pub relay : StreamConn → List Arrival → StreamConn
relay c [] = c
relay c (a ∷ xs) = relay (deliver_chunk a.io a.io' a.io'' c (slice32 a.bytes)) xs

unfoldable pub body_of : Bool → List Arrival → Bytes
body_of sse [] = []
body_of sse (a ∷ xs) = framed sse a.bytes ++ body_of sse xs

pub framed-nil : (sse : Bool) → framed sse [] ≡ []
unfolding framed
framed-nil true = refl
framed-nil false = refl

chunk_with-Owes :
    (sse : Bool) (io io' io'' : Io) (c : StreamConn) (bytes s : Bytes)
    → Owes sse c s
    → Owes sse (chunk_with io io' io'' c (some bytes)) (s ++ framed sse bytes)
unfolding chunk_with push_chunk framed
chunk_with-Owes sse io io' io'' c [] s o =
    subst (λ s. Owes sse c s) (sym (ap (λ f. s ++ f) (framed-nil sse) ∙ append-nil s)) o
chunk_with-Owes true io io' io'' c (x ∷ bytes) s o =
    let full : (length (x ∷ bytes) == 0) ≡ false = ground arith in
    rw full (
      if-Owes true c.stream_sse _ _ (s ++ (x ∷ bytes))
        (λ _. push_next-Owes true io c (x ∷ bytes) s o) (λ f. cc (f, o.framing)))
chunk_with-Owes false io io' io'' c (x ∷ bytes) s o =
    let full : (length (x ∷ bytes) == 0) ≡ false = ground arith in
    let line = size_line (x ∷ bytes) in
    let c1 = push_next io c line in
    let c2 = push_next io' c1 (x ∷ bytes) in
    let sent_line = push_next-Owes false io c line s o in
    let sent_bytes = push_next-Owes false io' c1 (x ∷ bytes) (s ++ line) sent_line in
    rw full (
      if-Owes false c.stream_sse _ _ (s ++ (line ++ ((x ∷ bytes) ++ crlf))) (λ t. cc (t, o.framing))
        (λ _.
          subst (λ s. Owes false (push_next io'' c2 crlf) s)
            (append_assoc (s ++ line) (x ∷ bytes) crlf ∙ append_assoc s line ((x ∷ bytes) ++ crlf))
            (push_next-Owes false io'' c2 crlf ((s ++ line) ++ (x ∷ bytes)) sent_bytes)))

pub closed_of : (a b : Bool) → (a || not b) ≡ true → b ≡ true → a ≡ true
closed_of true b h e = refl
closed_of false true h e = h
closed_of false false h e = e

pub last-ending : (b : Bool) → (if b then [] else last_chunk) ≡ ending b
last-ending true = refl
last-ending false = refl

module _ (sse : Bool) where
  deliver_chunk-Owes :
      (io io' io'' : Io) (c : StreamConn) (bytes s : Bytes)
      → length bytes < 2 ^ 32
      → Owes sse c s
      → Owes sse (deliver_chunk io io' io'' c (slice32 bytes)) (s ++ framed sse bytes)
  unfolding deliver_chunk
  deliver_chunk-Owes io io' io'' c bytes s short o =
      if-Owes sse (c.closed || not c.streaming) c _ (s ++ framed sse bytes)
        (λ t. more-Owes sse c s (framed sse bytes) o (closed_of c.closed c.streaming t o.streaming))
        (λ _.
          subst (λ d. Owes sse (chunk_with io io' io'' c d) (s ++ framed sse bytes))
            (sym (decode_chunk_format bytes short)) (chunk_with-Owes sse io io' io'' c bytes s o))

  pub relay-Owes :
      (c : StreamConn) (xs : List Arrival) (s : Bytes)
      → All (λ (a : Arrival). length a.bytes < 2 ^ 32) xs
      → Owes sse c s
      → Owes sse (relay c xs) (s ++ body_of sse xs)
  unfolding relay body_of
  relay-Owes c [] s short o = subst (λ s. Owes sse c s) (sym (append-nil s)) o
  relay-Owes c (a ∷ xs) s short o =
      let c' = deliver_chunk a.io a.io' a.io'' c (slice32 a.bytes) in
      subst (λ s. Owes sse (relay c' xs) s) (append_assoc s (framed sse a.bytes) (body_of sse xs))
        (relay-Owes c' xs (s ++ framed sse a.bytes) short.1
          (deliver_chunk-Owes a.io a.io' a.io'' c a.bytes s short.0 o))

  pub deliver_end-Owes :
      (io : Io) (c : StreamConn) (s : Bytes)
      → Owes sse c s
      → Owes sse (deliver_end io c) (s ++ ending sse)
  unfolding deliver_end
  deliver_end-Owes io c s o =
      let last = last-ending c.stream_sse ∙ ap ending o.framing in
      if-Owes sse c.closed c _ (s ++ ending sse) (more-Owes sse c s (ending sse) o) (λ e.
        if-Owes sse (not c.streaming) (shut c) _ (s ++ ending sse) (λ t. cc (t, ap not o.streaming))
          (λ _.
            subst
              (λ b.
                Owes sse
                  (stream_push io (record c { stream_ended = true })
                    (if c.stream_sse then [] else last_chunk))
                  (s ++ b))
              last
              (stream_push-Owes sse io (record c { stream_ended = true })
                (if c.stream_sse then [] else last_chunk) s
                (record { streaming = o.streaming; framing = o.framing; whole = o.kept e }))))

-- Nothing of a response has been written.
pub record IsFresh (c : StreamConn) : Type 0 where
  pub none_out : c.out ≡ []
  pub none_queued : c.swbuf ≡ []

deliver_begin-Owes :
    (io : Io) (memory : Bool) (m : Metrics) (c : StreamConn) (payload head ctype : Bytes)
    (status flags : ℕ)
    → IsFresh c
    → decode_response_begin payload ≡ some (status, flags, ctype)
    → format_stream_head memory status (status_text status) ctype (flags % 2 == 1) c.extra_headers
      ≡ formatted head
    → (c' : StreamConn) × (deliver_begin io memory m c payload ≡ streams (rec_status m status) c')
      × Owes (flags % 2 == 1) c' head
unfolding deliver_begin begin_on push_head
deliver_begin-Owes io memory m c payload head ctype status flags fresh decoded made =
    let sse = flags % 2 == 1 in
    let c' = record c { streaming = true; stream_sse = sse } in
    let still : c.out ++ unsent c ≡ [] =
      ap (λ xs. xs ++ unsent c) fresh.none_out
      ∙ (ap (λ xs. drop c.swsent xs) fresh.none_queued ∙ drop-nil c.swsent) in
    (
      stream_push io c' head,
      rw (decoded, deliver_begin)
          (ap (λ f. streams (rec_status m status) (push_head io c' f)) made),
      stream_push-Owes sse io c' head []
          (record { streaming = refl; framing = refl; whole = still }),
    )

-- Whatever fails: the client never gets a byte that is not of the response, nor one out of order.
deliver_end-relay-Owes :
    (io : Io) (memory : Bool) (m : Metrics) (c : StreamConn) (payload head ctype : Bytes)
    (status flags : ℕ) (xs : List Arrival) (io' : Io)
    → IsFresh c
    → decode_response_begin payload ≡ some (status, flags, ctype)
    → format_stream_head memory status (status_text status) ctype (flags % 2 == 1) c.extra_headers
      ≡ formatted head
    → All (λ (a : Arrival). length a.bytes < 2 ^ 32) xs
    → (c' : StreamConn) × (deliver_begin io memory m c payload ≡ streams (rec_status m status) c')
      × Owes
          (flags % 2 == 1)
          (deliver_end io' (relay c' xs))
          ((head ++ body_of (flags % 2 == 1) xs) ++ ending (flags % 2 == 1))
      × Waits (deliver_end io' (relay c' xs))
deliver_end-relay-Owes io memory m c payload head ctype status flags xs io' fresh decoded made
      short =
    let sse = flags % 2 == 1 in
    let (c', began, owed) =
      deliver_begin-Owes io memory m c payload head ctype status flags fresh decoded made in
    let relayed = relay-Owes sse c' xs head short owed in
    (
      c',
      began,
      deliver_end-Owes sse io' (relay c' xs) (head ++ body_of sse xs) relayed,
      deliver_end-Waits io' (relay c' xs),
    )

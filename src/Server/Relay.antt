-- ===== src/Server/Relay.antt =====
-- Streamed responses in src/core/server.c: stream_kick, stream_push, gw_deliver_begin,
-- gw_deliver_chunk, gw_deliver_end, and the streaming branch of on_writable, for a connection without
-- TLS. gw_conn_for_id and gw_free_slot stand in Inflight: a connection that is closed has no id, so
-- nothing is delivered to it. The access log is left out.
use naitron_c.Prelude.{
  ℕ, zero, suc, ◌+◌, ◌*◌, ◌/◌, ◌%◌, Bool, true, not, ◌||◌, List, [], ◌∷◌, ◌++◌, Option, none, some,
  ltb, ◌==◌, if◌then◌else◌, Bytes, length, take, drop, ◌>>=◌,
}
use naitron_c.Wire.Payload.{decode_response_begin, decode_chunk}
use naitron_c.Http.Respond.{
  Formatted, overflow, no_memory, formatted, crlf, status_text, format_stream_head,
}
use naitron_c.Middleware.Headers.{hex_digit}
use naitron_c.Server.Query.{Metrics, rec_status}
use naitron_c.Server.Pipe.{SendResult, sent, interrupted, would_block, broken, buf_reserve}

-- The fields of `conn` that a stream uses: `swbuf[0 .. swlen)`. `out` is what the client has got.
pub record StreamConn : Type 0 where
  pub streaming : Bool
  pub stream_sse : Bool
  pub stream_ended : Bool
  pub swbuf : Bytes
  pub swsent : ℕ
  pub swcap : ℕ
  pub extra_headers : Bytes
  pub closed : Bool
  pub out : Bytes

-- What the system does during one call of stream_push: realloc, the two calls of ntc_poller_mod, and
-- send.
pub record Io : Type 0 where
  pub memory : Bool
  pub armed : Bool
  pub rearmed : Bool
  pub sends : List SendResult

abbrev pub stream_max_buf : ℕ
stream_max_buf = 4 * 1024 * 1024

unfoldable pub shut : StreamConn → StreamConn
shut c = record c { closed = true }

unfoldable pub has_unsent : StreamConn → Bool
has_unsent c = ltb c.swsent (length c.swbuf)

unfoldable pub send_some : StreamConn → ℕ → StreamConn
send_some c n = record c { swsent = c.swsent + n; out = c.out ++ take n (drop c.swsent c.swbuf) }

-- Behind the loop of `on_writable`.
unfoldable pub drained : Bool → StreamConn → StreamConn
drained rearmed c =
    let c' = record c { swbuf = []; swsent = 0 } in
    if c.stream_ended then shut c' else if rearmed then c' else shut c'

-- `on_writable` for a stream.
unfoldable pub flush_stream : Bool → StreamConn → List SendResult → StreamConn
flush_stream rearmed c [] = if has_unsent c then c else drained rearmed c
flush_stream rearmed c (sent zero ∷ rs) = if has_unsent c then shut c else drained rearmed c
flush_stream rearmed c (sent (suc n) ∷ rs) =
    let rest = flush_stream rearmed (send_some c (suc n)) rs in
    if has_unsent c then rest else drained rearmed c
flush_stream rearmed c (interrupted ∷ rs) =
    let rest = flush_stream rearmed c rs in if has_unsent c then rest else drained rearmed c
flush_stream rearmed c (would_block ∷ rs) = if has_unsent c then c else drained rearmed c
flush_stream rearmed c (broken ∷ rs) = if has_unsent c then shut c else drained rearmed c

unfoldable pub stream_kick : Io → StreamConn → StreamConn
stream_kick io c = if io.armed then flush_stream io.rearmed c io.sends else shut c

-- `if (c->swsent > 0)`.
unfoldable pub compact : StreamConn → StreamConn
compact c = record c { swbuf = drop c.swsent c.swbuf; swsent = 0 }

unfoldable pub append_bytes : Bool → StreamConn → Bytes → Option StreamConn
append_bytes memory c bytes =
    if ltb stream_max_buf (length c.swbuf + length bytes)
    then none
    else (buf_reserve memory c.swcap (length c.swbuf + length bytes) >>= λ cap.
        some (record c { swbuf = c.swbuf ++ bytes; swcap = cap }))

unfoldable pub push_bytes : Io → StreamConn → Option StreamConn → StreamConn
push_bytes io c none = shut c
push_bytes io c (some c') = stream_kick io c'

unfoldable pub stream_push : Io → StreamConn → Bytes → StreamConn
stream_push io c bytes =
    if length bytes == 0
    then stream_kick io c
    else push_bytes io (compact c) (append_bytes io.memory (compact c) bytes)

-- The next push of a handler that returns if one before it has closed the connection.
unfoldable pub push_next : Io → StreamConn → Bytes → StreamConn
push_next io c bytes = if c.closed then c else stream_push io c bytes

-- `%zx`, for a number of 64 bits: `hex_number 16 n`.
unfoldable pub hex_number : ℕ → ℕ → Bytes
hex_number zero n = []
hex_number (suc fuel) n =
    let front = hex_number fuel (n / 16) in
    if ltb n 16 then hex_digit n ∷ [] else front ++ hex_digit (n % 16) ∷ []

unfoldable pub size_line : Bytes → Bytes
size_line bytes = hex_number 16 (length bytes) ++ crlf

-- The three pushes of a chunk, or the one of a server-sent event.
unfoldable pub push_chunk : Io → Io → Io → StreamConn → Bytes → StreamConn
push_chunk io io' io'' c bytes =
    if c.stream_sse
    then push_next io c bytes
    else push_next io'' (push_next io' (push_next io c (size_line bytes)) bytes) crlf

unfoldable pub chunk_with : Io → Io → Io → StreamConn → Option Bytes → StreamConn
chunk_with io io' io'' c none = c
chunk_with io io' io'' c (some bytes) =
    if length bytes == 0 then c else push_chunk io io' io'' c bytes

-- `gw_deliver_chunk`.
unfoldable pub deliver_chunk : Io → Io → Io → StreamConn → Bytes → StreamConn
deliver_chunk io io' io'' c payload =
    if c.closed || not c.streaming then c else chunk_with io io' io'' c (decode_chunk payload)

abbrev pub last_chunk : Bytes
last_chunk = b'0' ∷ (crlf ++ crlf)

-- `gw_deliver_end`.
unfoldable pub deliver_end : Io → StreamConn → StreamConn
deliver_end io c =
    let c' = record c { stream_ended = true } in
    if c.closed
    then c
    else if not c.streaming
    then shut c
    else stream_push io c' (if c.stream_sse then [] else last_chunk)

-- The head of the stream goes out, or the request is answered with 502 in its place.
pub data Begun : Type 0 where
  streams : Metrics → StreamConn → Begun
  bad_begin : Begun

unfoldable pub push_head : Io → StreamConn → Formatted → StreamConn
push_head io c overflow = shut c
push_head io c no_memory = shut c
push_head io c (formatted head) = stream_push io c head

unfoldable pub begin_on : Io → Bool → Metrics → StreamConn → ℕ → Bytes → Begun
begin_on io arena_memory m c status ctype = streams (rec_status m status) (
    push_head io c (
      format_stream_head arena_memory status (status_text status) ctype c.stream_sse
        c.extra_headers))

-- `gw_deliver_begin` on a connection that is there.
unfoldable pub deliver_begin : Io → Bool → Metrics → StreamConn → Bytes → Begun
deliver_begin io arena_memory m c payload = elim (decode_response_begin payload) [
  | none ↦ bad_begin
  | some (status, flags, ctype) ↦
      begin_on io arena_memory m (record c { streaming = true; stream_sse = flags % 2 == 1 }) status
        ctype
]

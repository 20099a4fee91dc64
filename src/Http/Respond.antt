-- ===== src/Http/Respond.antt =====
-- The responses of src/common/http.c. The result of `ntc_arena_alloc` is an argument: whether it
-- gives memory.
use naitron_c.Prelude.{
  ℕ, zero, suc, ◌+◌, ◌/◌, ◌%◌, ◌^◌, Bool, true, false, not, [], ◌∷◌, ◌++◌, ltb, leb, ◌==◌,
  if◌then◌else◌, Bytes, length, codes,
}

unfoldable pub status_text : ℕ → Bytes
status_text status =
    if status == 200
    then codes "OK"
    else if status == 201
    then codes "Created"
    else if status == 204
    then codes "No Content"
    else if status == 400
    then codes "Bad Request"
    else if status == 401
    then codes "Unauthorized"
    else if status == 403
    then codes "Forbidden"
    else if status == 404
    then codes "Not Found"
    else if status == 405
    then codes "Method Not Allowed"
    else if status == 413
    then codes "Payload Too Large"
    else if status == 431
    then codes "Request Header Fields Too Large"
    else if status == 500
    then codes "Internal Server Error"
    else if status == 502
    then codes "Bad Gateway"
    else if status == 503
    then codes "Service Unavailable"
    else if status == 504
    then codes "Gateway Timeout"
    else codes "OK"

-- The decimal digits of "%d" and "%zu" for a number that is not negative; a number of 64 bits has
-- at most 20.
unfoldable pub digits_loop : ℕ → ℕ → Bytes → Bytes
digits_loop zero n acc = acc
digits_loop (suc fuel) n acc =
    let more = digits_loop fuel (n / 10) ((b'0' + n % 10) ∷ acc) in
    if ltb n 10 then (b'0' + n) ∷ acc else more

unfoldable pub decimal : ℕ → Bytes
decimal n = digits_loop 20 n []

abbrev pub crlf : Bytes
crlf = b'\r' ∷ b'\n' ∷ []

-- What "%.*s" writes of a slice: it stops at a NUL.
unfoldable pub before_nul : Bytes → Bytes
before_nul [] = []
before_nul (c ∷ s) = let rest = before_nul s in if c == 0 then [] else c ∷ rest

unfoldable pub status_line : ℕ → Bytes → Bytes
status_line status text =
    codes "HTTP/1.1 "
    ++ (decimal status ++ (b' ' ∷ (text ++ (crlf ++ (codes "Server: naitron-c/0.0.1" ++ crlf)))))

-- The head of `ntc_http_format_response_ex`; the extra headers end in CR LF, or are empty.
unfoldable pub response_head : ℕ → Bytes → Bytes → Bytes → ℕ → Bytes
response_head status text content_type extra len =
    status_line status text
    ++ (codes "Content-Type: "
        ++ (content_type
            ++ (crlf
                ++ (codes "Content-Length: "
                    ++ (decimal len
                        ++ (crlf ++ (codes "Connection: close" ++ (crlf ++ (extra ++ crlf)))))))))

-- NTC_OK with the response, NTC_ERR_OVERFLOW and NTC_ERR_OOM.
pub data Formatted : Type 0 where
  formatted : Bytes → Formatted
  overflow no_memory : Formatted

-- `header[1024]` with its NUL, and `ntc_size_add`.
unfoldable pub format_response_ex : Bool → ℕ → Bytes → Bytes → Bytes → Bytes → Formatted
format_response_ex memory status text content_type extra body =
    let head = response_head status text content_type extra (length body) in
    if leb 1024 (length head)
    then overflow
    else if leb (2 ^ 64) (length head + length body)
    then overflow
    else if not memory
    then no_memory
    else formatted (head ++ body)

unfoldable pub format_response : Bool → ℕ → Bytes → Bytes → Bytes → Formatted
format_response memory status text content_type body =
    format_response_ex memory status text content_type [] body

-- The head of a stream: of server-sent events, or of chunks.
unfoldable pub stream_head : ℕ → Bytes → Bytes → Bool → Bytes → Bytes
stream_head status text content_type true extra =
    status_line status text
    ++ (codes "Content-Type: text/event-stream"
        ++ (crlf
            ++ (codes "Cache-Control: no-cache"
                ++ (crlf ++ (codes "Connection: close" ++ (crlf ++ (extra ++ crlf)))))))
stream_head status text content_type false extra =
    status_line status text
    ++ (codes "Content-Type: "
        ++ (content_type
            ++ (crlf
                ++ (codes "Transfer-Encoding: chunked"
                    ++ (crlf ++ (codes "Connection: close" ++ (crlf ++ (extra ++ crlf))))))))

unfoldable pub format_stream_head : Bool → ℕ → Bytes → Bytes → Bool → Bytes → Formatted
format_stream_head memory status text content_type sse extra =
    let head = stream_head status text content_type sse extra in
    if leb 1024 (length head) then overflow else if not memory then no_memory else formatted head

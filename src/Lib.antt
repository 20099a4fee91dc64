-- ===== src/Lib.antt =====
-- naitron-c: a web gateway in C. The gateway accepts HTTP and WebSocket connections, answers some
-- requests itself, and sends the others to controller processes over a binary wire protocol.
--
-- The parts and their files. A request comes in as bytes, which src/common/http_request.c parses. The
-- router of src/common/router.c finds the route. The gateway encodes the request as a frame of
-- src/common/wire.c, under an id of the table of requests in flight in src/core/server.c; a controller
-- decodes it and answers with a frame, whose id leads back to the connection. WebSocket messages
-- arrive in the frames of src/core/ws.c. Before a request is routed, src/core/middleware.c answers it
-- or lets it pass, with the tokens of src/common/jwt.c. The controller's side of the protocol is
-- src/common/controller_sdk.c. Bodies in JSON are parsed by src/common/json.c, in memory of
-- src/common/arena.c, and validated by src/common/schema.c. Logins are kept in the key/value store of
-- src/core/session.c.
--
--   Prelude   native numbers, bytes, lists, Boolean tests, optional results, signed numbers
--   Slice     src/common/slice.c: ntc_slice_eq, ntc_slice_starts_with, ntc_slice_trim
--   Http      src/common/http_request.c: ntc_http_parse_request with its scanners (Scan, Parse),
--             ntc_http_header, ntc_req_param, ntc_req_query (Access); src/common/http.c: the
--             responses (Respond); the other modules prove
--   Wire      src/common/wire.c: words and bounded buffers (Buffer), frames (Frame), payloads
--             (Payload, Request); Formats, Write and Read describe what is on the wire
--   Router    src/common/router.c: split_segments (Segments), ntc_router_add and ntc_router_match (Table)
--   Ws        src/core/ws.c: ntc_ws_encode and ntc_ws_decode (Codec); Masking has the client's masking of
--             RFC 6455
--   Json      src/common/json.c: ntc_json_escape and parse_string (Strings), parse_value (Parse),
--             emit_rec (Emit)
--   Arena     src/common/arena.c: all operations (Blocks)
--   Schema    src/common/schema.c: ntc_schema_validate (Check)
--   Session   src/core/session.c: the key/value store (Store), ntc_cookie_get and ntc_cookie_format
--             (Cookie); CookieLaws writes a Cookie header, the other modules prove
--   Server    src/core/server.c: gw_alloc_id, gw_free_slot and gw_conn_for_id (Inflight), url_encode,
--             url_decode and seg_pattern_match (Url), query_get, gw_schema_for, rec_status (Query),
--             buf_reserve, ctrl_queue, on_ctrl_writable and on_ctrl_readable (Pipe), stream_push and
--             the handlers of a streamed response (Relay); Working, Written and Delivered are about a
--             stream on which nothing fails, Ended and Streamed about any stream
--   Crypto    src/common/crypto.c: SHA-256 with its updates in pieces, and HMAC (Sha), base64url
--             and ntc_ct_eq (Base64)
--   Jwt       src/common/jwt.c: jwt_split, jwt_parse_claims and the peeks at a header (Token), JWK and
--             JWKS documents and ntc_jwks_find (Keys), the verifications (Verify); the other modules
--             prove
--   Middleware  src/core/middleware.c: hash_str and ntc_bucket_allow (Bucket), the added headers
--             (Headers), ntc_mw_before with mw_fetch_jwks and mw_maybe_refresh (Before); Gate describes a
--             credential, Readable and Refusal a request without one
--   Controller  src/common/controller_sdk.c: writing frames (Output), the streaming calls (Stream), the
--             response of a handler (Reply), ntc_controller_run (Run), ntc_multipart_parse (Multipart);
--             Service describes the requests and replies of a whole run, MultipartTrip a form as it is
--             written
--   Tests     runs, and the theorems at concrete inputs
--
-- How the code is modelled. A run of bytes is a list of natural numbers; a C string is the list of its
-- bytes before the NUL. A pointer into a buffer is the list of the bytes that are left, and an output
-- buffer is the list of the bytes written so far, with its capacity. Words keep their wrap-around
-- written out. An operation that changes a structure gives the new one. A result that is false, NULL or
-- -1 is `none`, or a constructor of the operation's own result type.
--
-- Bounds and fuel. The header loop of the request parser takes the length of the head as fuel, and each
-- round reads at least two bytes; a run out of fuel is a result of its own. The loops of the
-- JSON parser take the number of bytes left, and each round reads at least one. parse_value counts the
-- 32 levels that are allowed down. The validation counts the levels of the schema. The loop of
-- seg_pattern_match takes the length of the pattern, of which each round reads at least the slash. The
-- loop of sha_update takes the length of its input, of which each round copies at least one byte, and
-- the padding loop takes 64. buf_reserve doubles at most 64 times in 64 bits. The loops over the frames of
-- a buffer (on_ctrl_readable, ntc_controller_run) take the number of its bytes, and each frame has at
-- least sixteen.
--
-- Parameters. malloc and realloc are arguments of the operations that call them, with the address or the
-- success of the call. A double is a value of an unknown type, with strtod, the printing of a number,
-- the comparisons and the conversions as arguments; the token bucket takes them as one record. A handler
-- of a route and a connection are values of unknown types. The signature checks of BearSSL are
-- functions, of which only the length of a recovered hash is assumed. What the middleware reads outside
-- (the clocks, the random bytes, the document of the JWKS endpoint) is an argument. The handlers of a
-- controller are functions from a request to a response or to a list of calls, and a socket is the
-- bytes written to it, with the number of bytes after which it breaks. What send and recv return is a
-- list.
--
-- Not modelled: processes, the event loop, the connections of clients but for streamed responses,
-- SQLite, TLS, gzip, the command line, and logging; the code that loads files; the binding libraries
-- in other languages.
pub mod Prelude
pub mod Slice
pub mod Http
pub mod Wire
pub mod Router
pub mod Ws
pub mod Session
pub mod Json
pub mod Arena
pub mod Schema
pub mod Server
pub mod Crypto
pub mod Middleware
pub mod Jwt
pub mod Controller
mod Tests

-- ===== src/Wire/RequestTrip.antt =====
-- The request payload of src/common/wire.c: its format, and that the decoder reads it back.
use naitron_c.Wire.RoundTrip.{fit-some, ⊕-eq-some, slice16_format-eq-some}
use naitron_c.Wire.Read.{r_slice32-at_end, at, r_u16-at, r_slice16-at}
use naitron_c.Wire.Write.{
  slice32, ◌⊕◌, u16_format, slice16, slice16_format, slice32_format, fit, put, put-nil, writes,
  cap-w_u16, cap-w_slice16, w_u16-put,
}
use naitron_c.Wire.Request.{
  decode_tail, decode_request, w_pairs, clip, w_counted, encode_request, r_pairs, r_counted,
}
use naitron_c.Prelude.{
  ℕ, ◌%◌, ◌^◌, ◌≤◌, ◌<◌, false, List, [], ◌∷◌, ◌++◌, Option, none, some, ltb, Bytes, length, ◌≡◌,
  refl, sym, ap, ◌∙◌, arith, All, append-nil, append_assoc, length-take,
}
use mathlib.Core.Path.{subst}
use naitron_c.Http.{Header, Request, max_headers, max_params}
use naitron_c.Wire.Buffer.{WBuf, w_u16, w_slice16, put_u16}
use naitron_c.Wire.Payload.{w_done}

abbrev pub pairs_format : List Header → Option Bytes
pairs_format [] = some []
pairs_format (h ∷ hs) = slice16_format h.name ⊕ (slice16_format h.value ⊕ pairs_format hs)

abbrev pub counted_format : ℕ → List Header → Option Bytes
counted_format bound hs = u16_format (length (clip bound hs)) ⊕ pairs_format (clip bound hs)

-- What the request's payload consists of, in order.
abbrev pub request_format : Request → Option Bytes
request_format req =
    slice16_format req.method
    ⊕ (slice16_format req.path
        ⊕ (slice16_format req.query
            ⊕ (counted_format max_headers req.headers
                ⊕ (counted_format max_params req.params
                    ⊕ (slice16_format req.auth_sub
                        ⊕ (slice16_format req.auth_scope ⊕ slice32_format req.body))))))

⊕_nil : (x : Option Bytes) → x ⊕ some [] ≡ x
⊕_nil none = refl
⊕_nil (some a) = ap some (append-nil a)

cap-w_pairs : (hs : List Header) (w : WBuf) → (w_pairs w hs).cap ≡ w.cap
unfolding w_pairs
cap-w_pairs [] w = refl
cap-w_pairs (h ∷ hs) w = cap-w_pairs hs _ ∙ cap-w_slice16 _ h.value ∙ cap-w_slice16 w h.name

w_pairs-put :
    (hs : List Header) (w : WBuf) (o x : Option Bytes)
    → w_done w ≡ put w.cap o x
    → w_done (w_pairs w hs) ≡ put w.cap o (x ⊕ pairs_format hs)
unfolding w_pairs
w_pairs-put [] w o x h = h ∙ ap (put w.cap o) (sym (⊕_nil x))
w_pairs-put (h ∷ hs) w o x e =
    w_pairs-put hs (w_slice16 (w_slice16 w h.name) h.value) o
      (x ⊕ (slice16_format h.name ⊕ slice16_format h.value)) (simp writes (rw e (simp writes)))
    ∙ simp writes

length-clip : (bound : ℕ) (hs : List Header) → length (clip bound hs) ≤ bound
length-clip bound hs = ground (arith, length-take bound hs)

module _ (bound : ℕ) (w : WBuf) (hs : List Header) where
  cap-w_counted : (w_counted bound w hs).cap ≡ w.cap
  unfolding w_counted
  cap-w_counted = cap-w_pairs (clip bound hs) _ ∙ cap-w_u16 w _

  w_counted-put :
      bound < 2 ^ 16
      → w_done (w_counted bound w hs) ≡ put w.cap (w_done w) (counted_format bound hs)
  unfolding w_counted
  w_counted-put hb =
      let small : length (clip bound hs) % 2 ^ 16 ≡ length (clip bound hs) =
        omega (arith, length-clip bound hs) in
      let first = w_u16 w (length (clip bound hs)) in
      let counted : w_done first ≡ put first.cap (w_done w) (u16_format (length (clip bound hs))) =
        rw cap-w_u16 (w_u16-put w _) in
      rw small (
        simp cap-w_u16 at (
          w_pairs-put (clip bound hs) first (w_done w) (u16_format (length (clip bound hs)))
            counted))

headers-put :
    (w : WBuf) (hs : List Header)
    → w_done (w_counted 64 w hs) ≡ put w.cap (w_done w) (counted_format 64 hs)
headers-put w hs = w_counted-put 64 w hs (omega arith)

params-put :
    (w : WBuf) (hs : List Header)
    → w_done (w_counted 8 w hs) ≡ put w.cap (w_done w) (counted_format 8 hs)
params-put w hs = w_counted-put 8 w hs (omega arith)

-- Encoding a request writes its format when each length fits its field and the whole fits into
-- the buffer, and fails otherwise.
pub encode_request_lem :
    (req : Request) (cap : ℕ) → encode_request req cap ≡ fit cap (request_format req)
unfolding encode_request
encode_request_lem req cap = simp (writes, headers-put, params-put, cap-w_counted) (put-nil cap _)

abbrev Short : Header → Type 0
Short h = (length h.name ≤ 0xFFFF) × (length h.value ≤ 0xFFFF)

abbrev pairs : List Header → Bytes
pairs [] = []
pairs (h ∷ hs) = slice16 h.name ++ (slice16 h.value ++ pairs hs)

pairs_format-eq-some :
    (hs : List Header) {a : Bytes} → pairs_format hs ≡ some a → All Short hs × (pairs hs ≡ a)
pairs_format-eq-some [] e = (tt, cc)
pairs_format-eq-some (h ∷ hs) e =
    let (x, y, p, q, v) = ⊕-eq-some (slice16_format h.name) _ e in
    let (x', y', p', q', v') = ⊕-eq-some (slice16_format h.value) (pairs_format hs) q in
    let (short, w) = slice16_format-eq-some h.name p in
    let (short', w') = slice16_format-eq-some h.value p' in
    let (rest, u) = pairs_format-eq-some hs q' in (((short, short'), rest), cc)

counted_format-eq-some :
    (bound : ℕ) (hs : List Header) {a : Bytes}
    → counted_format bound hs ≡ some a
    → All Short (clip bound hs) × (put_u16 (length (clip bound hs)) ++ pairs (clip bound hs) ≡ a)
counted_format-eq-some bound hs e =
    let (x, y, p, q, v) =
      ⊕-eq-some (some (put_u16 (length (clip bound hs)))) (pairs_format (clip bound hs)) e in
    let (all, w) = pairs_format-eq-some (clip bound hs) q in (all, cc)

-- Where a reader stands behind the pairs.
abbrev behind : Bytes → List Header → Bytes
behind front [] = front
behind front (h ∷ hs) = behind ((front ++ slice16 h.name) ++ slice16 h.value) hs

r_pairs-at :
    (hs : List Header) (front rest : Bytes)
    → All Short hs
    → r_pairs (length hs) (at front (pairs hs ++ rest)) ≡ (hs, at (behind front hs) rest)
unfolding r_pairs
r_pairs-at [] front rest h = refl
r_pairs-at (h ∷ hs) front rest (short, all) =
    rw (append_assoc (slice16 h.name) (slice16 h.value ++ pairs hs) rest) (
      rw (append_assoc (slice16 h.value) (pairs hs) rest) (
        rw (r_slice16-at front (slice16 h.value ++ (pairs hs ++ rest)) h.name short.0) (
          rw (r_slice16-at (front ++ slice16 h.name) (pairs hs ++ rest) h.value short.1)
            (rw (r_pairs-at hs ((front ++ slice16 h.name) ++ slice16 h.value) rest all)))))

r_counted-at :
    (bound : ℕ) (hs : List Header) (front rest : Bytes)
    → length hs ≤ bound
    → bound < 2 ^ 16
    → All Short hs
    → r_counted bound (at front (put_u16 (length hs) ++ (pairs hs ++ rest)))
      ≡ some (hs, at (behind (front ++ put_u16 (length hs)) hs) rest)
unfolding r_counted
r_counted-at bound hs front rest hl hb all =
    let within : ltb bound (length hs) ≡ false = ground arith in
    rw (r_u16-at front (pairs hs ++ rest) (length hs) (omega arith))
      (rw within (ap some (r_pairs-at hs (front ++ put_u16 (length hs)) rest all)))

-- What arrives on the other side: the arrays' first entries, and the fields that the decoder sets.
abbrev pub arrived : Request → Request
arrived req = record {
  method = req.method;
  target = req.path;
  path = req.path;
  query = req.query;
  minor_version = 1;
  headers = clip max_headers req.headers;
  params = clip max_params req.params;
  auth_sub = req.auth_sub;
  auth_scope = req.auth_scope;
  has_content_length = ltb 0 (length req.body);
  content_length = length req.body;
  body = req.body;
}

abbrev tail_bytes : Request → Bytes
tail_bytes req = slice16 req.auth_sub ++ (slice16 req.auth_scope ++ slice32 req.body)

decode_tail-at :
    (req : Request) (front : Bytes)
    → length req.auth_sub ≤ 0xFFFF
    → length req.auth_scope ≤ 0xFFFF
    → length req.body < 2 ^ 32
    → decode_tail req.method req.path req.query
        (clip max_headers req.headers)
        (clip max_params req.params)
        (at front (tail_bytes req))
      ≡ some (arrived req)
unfolding decode_tail
decode_tail-at req front hs hc hb =
    rw (r_slice16-at front (slice16 req.auth_scope ++ slice32 req.body) req.auth_sub hs) (
      rw (r_slice16-at (front ++ slice16 req.auth_sub) (slice32 req.body) req.auth_scope hc) (
        rw (
          r_slice32-at_end ((front ++ slice16 req.auth_sub) ++ slice16 req.auth_scope) req.body
            hb)))

abbrev counted : List Header → Bytes → Bytes
counted hs rest = put_u16 (length hs) ++ (pairs hs ++ rest)

decode_request_format :
    (req : Request)
    → (length req.method ≤ 0xFFFF) × (length req.path ≤ 0xFFFF) × (length req.query ≤ 0xFFFF)
    → All Short (clip max_headers req.headers)
    → All Short (clip max_params req.params)
    → (length req.auth_sub ≤ 0xFFFF) × (length req.auth_scope ≤ 0xFFFF) × (length req.body < 2 ^ 32)
    → decode_request (
        slice16 req.method
        ++ (slice16 req.path
            ++ (slice16 req.query
                ++ counted
                    (clip max_headers req.headers)
                    (counted (clip max_params req.params) (tail_bytes req)))))
      ≡ some (arrived req)
unfolding decode_request
decode_request_format req (hm, hp, hq) hh hps (hs, hc, hb) =
    let params = counted (clip max_params req.params) (tail_bytes req) in
    let headers = counted (clip max_headers req.headers) params in
    let front = (slice16 req.method ++ slice16 req.path) ++ slice16 req.query in
    let front' =
      behind (front ++ put_u16 (length (clip max_headers req.headers)))
        (clip max_headers req.headers) in
    rw (r_slice16-at [] (slice16 req.path ++ (slice16 req.query ++ headers)) req.method hm) (
      rw (r_slice16-at (slice16 req.method) (slice16 req.query ++ headers) req.path hp) (
        rw (r_slice16-at (slice16 req.method ++ slice16 req.path) headers req.query hq) (
          rw
            (r_counted-at max_headers (clip max_headers req.headers) front params
              (length-clip _ req.headers) (omega arith) hh)
            (rw
              (r_counted-at max_params (clip max_params req.params) front' (tail_bytes req)
                (length-clip _ req.params) (omega arith) hps)
              (decode_tail-at req _ hs hc hb)))))

-- One part of a format at a time.
slice_then :
    (s : Bytes) (y : Option Bytes) {bs : Bytes}
    → slice16_format s ⊕ y ≡ some bs
    → (length s ≤ 0xFFFF) × (b : Bytes) × (y ≡ some b) × (slice16 s ++ b ≡ bs)
slice_then s y e =
    let (a, b, p, q, v) = ⊕-eq-some (slice16_format s) y e in
    let (short, w) = slice16_format-eq-some s p in (short, b, q, cc)

counted_then :
    (bound : ℕ) (hs : List Header) (y : Option Bytes) {bs : Bytes}
    → counted_format bound hs ⊕ y ≡ some bs
    → All Short (clip bound hs) × (b : Bytes) × (y ≡ some b) × (counted (clip bound hs) b ≡ bs)
counted_then bound hs y e =
    let (a, b, p, q, v) = ⊕-eq-some (counted_format bound hs) y e in
    let (all, w) = counted_format-eq-some bound hs p in (all, b, q, ap (λ t. t ++ b) w ∙ v)

abbrev tail_format : Request → Option Bytes
tail_format req =
    slice16_format req.auth_sub ⊕ (slice16_format req.auth_scope ⊕ slice32_format req.body)

tail_format-eq-some :
    (req : Request) {bs : Bytes}
    → tail_format req ≡ some bs
    → (length req.auth_sub ≤ 0xFFFF) × (length req.auth_scope ≤ 0xFFFF) × (tail_bytes req ≡ bs)
tail_format-eq-some req e =
    let (h, b, q, v) = slice_then req.auth_sub _ e in
    let (h', b', q', v') = slice_then req.auth_scope _ q in
    let last : slice32 req.body ≡ b' = cc in
    (
      h,
      h',
      ap (λ t. slice16 req.auth_sub ++ t) (ap (λ t. slice16 req.auth_scope ++ t) last ∙ v') ∙ v,
    )

abbrev arrays_format : Request → Option Bytes
arrays_format req =
    counted_format max_headers req.headers
    ⊕ (counted_format max_params req.params ⊕ tail_format req)

abbrev arrays_bytes : Request → Bytes
arrays_bytes req =
    counted (clip max_headers req.headers) (counted (clip max_params req.params) (tail_bytes req))

record Fits (req : Request) : Type 0 where
  headers : All Short (clip max_headers req.headers)
  params : All Short (clip max_params req.params)
  auth_sub : length req.auth_sub ≤ 0xFFFF
  auth_scope : length req.auth_scope ≤ 0xFFFF

arrays_format-eq-some :
    (req : Request) {bs : Bytes} → arrays_format req ≡ some bs → Fits req × (arrays_bytes req ≡ bs)
arrays_format-eq-some req e =
    let (h, b, q, v) = counted_then max_headers req.headers _ e in
    let (h', b', q', v') = counted_then max_params req.params _ q in
    let (sub, scope, last) = tail_format-eq-some req q' in
    (
      record { headers = h; params = h'; auth_sub = sub; auth_scope = scope },
      ap (counted (clip max_headers req.headers))
            (ap (counted (clip max_params req.params)) last ∙ v')
          ∙ v,
    )

abbrev request_bytes : Request → Bytes
request_bytes req =
    slice16 req.method ++ (slice16 req.path ++ (slice16 req.query ++ arrays_bytes req))

request_format-eq-some :
    (req : Request) {bs : Bytes}
    → request_format req ≡ some bs
    → (length req.method ≤ 0xFFFF)
      × (length req.path ≤ 0xFFFF)
      × (length req.query ≤ 0xFFFF)
      × Fits req
      × (request_bytes req ≡ bs)
request_format-eq-some req e =
    let (h, b, q, v) = slice_then req.method _ e in
    let (h', b', q', v') = slice_then req.path _ q in
    let (h'', b'', q'', v'') = slice_then req.query _ q' in
    let (fits, w) = arrays_format-eq-some req q'' in
    (
      h,
      h',
      h'',
      fits,
      ap (λ t. slice16 req.method ++ t)
            (ap (λ t. slice16 req.path ++ t) (ap (λ t. slice16 req.query ++ t) w ∙ v'') ∙ v')
          ∙ v,
    )

-- A request that the gateway could encode arrives at the controller with its method, path, query,
-- identity and body, and with its first 64 headers and 8 path parameters in order, if the body is
-- shorter than 4 GiB.
pub decode_request-encode_request :
    (req : Request) (cap : ℕ) {bs : Bytes}
    → length req.body < 2 ^ 32
    → encode_request req cap ≡ some bs
    → decode_request bs ≡ some (arrived req)
decode_request-encode_request req cap hb h =
    let e = fit-some cap (request_format req) (rw encode_request_lem at h) in
    let (m, p, q, fits, eq) = request_format-eq-some req e in
    subst (λ t. decode_request t ≡ some (arrived req)) eq
      (decode_request_format req (m, p, q) fits.headers fits.params
        (fits.auth_sub, fits.auth_scope, hb))

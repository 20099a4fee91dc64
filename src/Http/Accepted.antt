-- ===== src/Http/Accepted.antt =====
-- The requests that the parser of src/common/http_request.c accepts, and what further bytes change.
use naitron_c.Prelude.{
  ℕ, ◌+◌, ◌-◌, ◌≤◌, ◌<◌, true, [], ◌∷◌, ◌++◌, some, Bytes, length, take, drop, ◌≡◌, refl, sym, ap,
  ◌∙◌, ◌≢◌, ◌⊎◌, inl, inr, arith, Option-cases, All, drop-append_front, take-append_front,
  take-append-drop,
}
use mathlib.Core.Path.{subst₂}
use naitron_c.Http.{Request}
use naitron_c.Http.Scan.{find_crlf, find_char, find_eoh, is_token}
use naitron_c.Http.ScanLaws.{find_eoh_bounds, find_eoh-append, find_char_split, find_char-none}
use naitron_c.Http.Guards.{IsGuarded, Guarded, header_loop-Guarded, IsLine, request_line-IsLine}
use naitron_c.Http.Parse.{
  Fields, Parsed, done, bad, out_of_fuel, RequestLine, request_line, parse_ok, no_fields, with_line,
  parse_head, finish, parse_request, build_request, split_target,
}

-- A target is its path, or its path, '?' and its query; the path has no '?'.
pub record Splits (target path query : Bytes) : Type 0 where
  pub no_mark : All (λ c. c ≢ b'?') path
  pub whole : (target ≡ path) × (query ≡ []) ⊎ (target ≡ path ++ (b'?' ∷ query))

split_target-Splits :
    (target : Bytes) → Splits target (split_target target).0 (split_target target).1
unfolding split_target
split_target-Splits target = elim (Option-cases (find_char b'?' target)) [
  | inl e ↦
      rw (e, split_target)
        (record { no_mark = find_char-none b'?' target e; whole = inl (refl, refl) })
  | inr (q, e) ↦
      rw (e, split_target)
        (record {
          no_mark = (find_char_split b'?' target e).0;
          whole = inr (find_char_split b'?' target e).1;
        })
]

-- What the parser promises of a request that it accepts from `buf`, of which it takes `consumed`
-- bytes.
pub record IsAccepted (buf : Bytes) (req : Request) (consumed : ℕ) : Type 0 where
  pub method : is_token req.method ≡ true
  pub target : 0 < length req.target
  pub minor : req.minor_version ≤ 1
  pub splits : Splits req.target req.path req.query
  pub guarded : IsGuarded req.headers req.has_content_length req.content_length
  pub within : consumed ≤ length buf
  pub ends : find_eoh buf ≡ some (consumed - 4)
  pub four : 4 ≤ consumed
  pub body : buf ≡ take consumed buf ++ req.body

no_fields-Guarded : Guarded no_fields
no_fields-Guarded = record {
  few = omega arith;
  tokens = tt;
  has = refl;
  one_length = tt;
  fits = omega arith;
  absent = λ _. refl;
}

with_line_parts :
    (l' : RequestLine) (r : Parsed Fields) {l : RequestLine} {f : Fields}
    → with_line l' r ≡ done (l, f)
    → (l' ≡ l) × (r ≡ done f)
with_line_parts l' (done f') x = (ground arith, ground arith)
with_line_parts l' bad x = cc
with_line_parts l' out_of_fuel x = cc

parse_head_parts :
    (buf : Bytes) (eoh : ℕ) {l : RequestLine} {f : Fields}
    → parse_head buf eoh ≡ done (l, f)
    → IsLine l × Guarded f
unfolding parse_head
parse_head_parts buf eoh e = elim (Option-cases (find_crlf (take (eoh + 2) buf))) [
  | inl n ↦ cc (rw n at e)
  | inr (rl, n) ↦ elim (Option-cases (request_line (take rl (take (eoh + 2) buf)))) [
    | inl m ↦ cc (rw (n, m) at e)
    | inr (l', m) ↦
        let (same, loop) = with_line_parts l' _ (rw (n, m) at e) in
        (
          rw (← same) (request_line-IsLine _ m),
          header_loop-Guarded _ _ no_fields no_fields-Guarded loop,
        )
  ]
]

finish_parts :
    (buf : Bytes) (eoh : ℕ) (r : Parsed (RequestLine × Fields)) {req : Request} {consumed : ℕ}
    → finish buf eoh r ≡ parse_ok req consumed
    → (l : RequestLine) × (f : Fields) × (r ≡ done (l, f))
      × (req ≡ build_request l f (drop (eoh + 4) buf))
      × (consumed ≡ eoh + 4)
finish_parts buf eoh (done (l, f)) e = (l, f, refl, ground arith, ground arith)
finish_parts buf eoh bad e = cc
finish_parts buf eoh out_of_fuel e = cc

parse_request_parts :
    (buf : Bytes) {req : Request} {consumed : ℕ}
    → parse_request buf ≡ parse_ok req consumed
    → (eoh : ℕ) × (find_eoh buf ≡ some eoh)
      × (l : RequestLine) × (f : Fields) × (parse_head buf eoh ≡ done (l, f))
      × (req ≡ build_request l f (drop (eoh + 4) buf))
      × (consumed ≡ eoh + 4)
unfolding parse_request
parse_request_parts buf e = elim (Option-cases (find_eoh buf)) [
  | inl n ↦ absurd (let e' = rw (n, parse_request) at e in ground arith)
  | inr (eoh, n) ↦
      let (l, f, p, q, c) =
        finish_parts buf eoh (parse_head buf eoh) (rw (n, parse_request) at e) in
      (eoh, n, l, f, p, q, c)
]

-- Every accepted request has a token for its method, a target that splits into path and query, a
-- version 1.0 or 1.1, at most 64 headers with tokens for names, and a body length of 64 bits on which
-- all Content-Length headers agree; `consumed` ends behind the first empty line, and the body is the
-- rest of the buffer.
pub parse_request-IsAccepted :
    (buf : Bytes) {req : Request} {consumed : ℕ}
    → parse_request buf ≡ parse_ok req consumed
    → IsAccepted buf req consumed
parse_request-IsAccepted buf {req} {consumed} e =
    let (eoh, n, l, f, p, q, c) = parse_request_parts buf e in
    let (line, fields) = parse_head_parts buf eoh p in
    let made : IsAccepted buf (build_request l f (drop (eoh + 4) buf)) (eoh + 4) = record {
      method = line.method;
      target = line.target;
      minor = line.minor;
      splits = split_target-Splits l.target;
      guarded = fields;
      within = omega (arith, find_eoh_bounds buf n);
      ends = n ∙ ap some (omega arith);
      four = omega arith;
      body = sym (take-append-drop (eoh + 4) buf);
    } in
    subst₂ (IsAccepted buf) (sym q) (sym c) made

parse_head-append :
    (buf more : Bytes) (eoh : ℕ)
    → eoh + 2 ≤ length buf
    → parse_head (buf ++ more) eoh ≡ parse_head buf eoh
unfolding parse_head
parse_head-append buf more eoh h = rw (take-append_front (eoh + 2) buf more h)

-- Bytes that arrive behind an accepted request only add to its body.
pub parse_request-append :
    (buf more : Bytes) {req : Request} {consumed : ℕ}
    → parse_request buf ≡ parse_ok req consumed
    → parse_request (buf ++ more) ≡ parse_ok (record req { body = req.body ++ more }) consumed
unfolding parse_request
parse_request-append buf more e =
    let (eoh, n, l, f, p, q, c) = parse_request_parts buf e in
    let room = find_eoh_bounds buf n in
    rw (find_eoh-append buf more n, parse_request)
      (rw (parse_head-append buf more eoh (omega arith))
        (rw p (rw (q, c) (rw (drop-append_front (eoh + 4) buf more (omega arith))))))

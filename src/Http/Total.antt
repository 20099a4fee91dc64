-- ===== src/Http/Total.antt =====
-- The header loop of src/common/http_request.c ends on every input: the fuel, one unit for each byte, is enough.
use naitron_c.Prelude.{
  ℕ, zero, suc, ◌+◌, ◌≤◌, Option, none, some, ltb, Bytes, length, take, drop, refl, ◌≢◌, inl, inr,
  arith, Bool-cases, Option-cases, length-drop, ltb→lt,
}
use naitron_c.Http.Parse.{
  finish, with_line, RequestLine, Fields, Parsed, done, bad, out_of_fuel, ◌>>>◌, header_line,
  header_loop, stuck, no_fields, request_line, parse_head, parse_request,
}
use naitron_c.Http.Scan.{find_crlf, find_eoh}

>>>-ne-out_of_fuel :
    {A B : Type 0} (o : Option A) (f : A → Parsed B)
    → ((a : A) → f a ≢ out_of_fuel)
    → (o >>> f) ≢ out_of_fuel
>>>-ne-out_of_fuel none f h e = cc
>>>-ne-out_of_fuel (some a) f h e = h a e

header_loop-ne-out_of_fuel :
    (fuel : ℕ) (cur : Bytes) (f : Fields) → length cur ≤ fuel → header_loop fuel cur f ≢ out_of_fuel
unfolding header_loop
header_loop-ne-out_of_fuel zero cur f h e = ground arith
header_loop-ne-out_of_fuel (suc fuel) cur f h p = elim (Bool-cases (ltb 2 (length cur))) [
  | inr e ↦ cc (rw (e, header_loop) at p)
  | inl e ↦
      >>>-ne-out_of_fuel (find_crlf cur) _
        (λ le. >>>-ne-out_of_fuel (header_line (take le cur) f) _ (λ f'.
          header_loop-ne-out_of_fuel fuel (drop (le + 2) cur) f'
            (omega (arith, length-drop (le + 2) cur, ltb→lt _ _ e))))
        (rw e at p)
]

with_line-ne-out_of_fuel :
    (l : RequestLine) (r : Parsed Fields) → r ≢ out_of_fuel → with_line l r ≢ out_of_fuel
with_line-ne-out_of_fuel l (done f) h e = cc
with_line-ne-out_of_fuel l bad h e = cc
with_line-ne-out_of_fuel l out_of_fuel h e = h refl

parse_head-ne-out_of_fuel : (buf : Bytes) (eoh : ℕ) → parse_head buf eoh ≢ out_of_fuel
unfolding parse_head
parse_head-ne-out_of_fuel buf eoh =
    let head = take (eoh + 2) buf in
    >>>-ne-out_of_fuel (find_crlf head) _ (λ rl.
      >>>-ne-out_of_fuel (request_line (take rl head)) _ (λ l. with_line-ne-out_of_fuel l _ (
        header_loop-ne-out_of_fuel _ (drop (rl + 2) head) no_fields
          (omega (arith, length-drop (rl + 2) head)))))

finish-ne-stuck :
    (buf : Bytes) (eoh : ℕ) (r : Parsed (RequestLine × Fields))
    → r ≢ out_of_fuel
    → finish buf eoh r ≢ stuck
finish-ne-stuck buf eoh (done (l, f)) h e = cc
finish-ne-stuck buf eoh bad h e = cc
finish-ne-stuck buf eoh out_of_fuel h e = h refl

-- The parser ends on every input with one of its three results.
pub parse_request-ne-stuck : (buf : Bytes) → parse_request buf ≢ stuck
unfolding parse_request
parse_request-ne-stuck buf = elim (Option-cases (find_eoh buf)) [
  | inl e ↦ rw (e, parse_request) (λ p. ground arith)
  | inr (eoh, e) ↦
      rw (e, parse_request) (finish-ne-stuck buf eoh _ (parse_head-ne-out_of_fuel buf eoh))
]

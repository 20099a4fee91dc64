-- ===== src/Http/RespondLaws.antt =====
-- The lengths that src/common/http.c prints are those that src/common/http_request.c reads.
use naitron_c.Prelude.{
  ℕ, zero, suc, ◌+◌, ◌-◌, ◌*◌, ◌/◌, ◌%◌, ◌^◌, ◌≤◌, ◌<◌, false, ◌||◌, [], ◌∷◌, some, ltb, Bytes, ◌≡◌,
  refl, ap, ◌∙◌, inl, inr, arith, Bool-cases, ltb→lt, lt→ltb,
}
use naitron_c.Http.Respond.{digits_loop, decimal}
use naitron_c.Http.Parse.{size_mul, size_add, parse_digits}

-- The numbers of at most that many digits.
bound : ℕ → ℕ
bound zero = 1
bound (suc n) = 10 * bound n

digit_test : (d : ℕ) → d < 10 → (ltb (b'0' + d) b'0' || ltb b'9' (b'0' + d)) ≡ false
digit_test d h = ground arith

digit_value : (d : ℕ) → b'0' + d - b'0' ≡ d
digit_value d = omega arith

parse_digit :
    (d cl : ℕ) (cs : Bytes)
    → d < 10
    → cl * 10 + d < 2 ^ 64
    → parse_digits ((b'0' + d) ∷ cs) cl ≡ parse_digits cs (cl * 10 + d)
unfolding parse_digits size_mul size_add
parse_digit d cl cs h k =
    rw
      (
        digit_test d h,
        lt→ltb (cl * 10) (2 ^ 64) (omega (arith, k)),
        digit_value d,
        lt→ltb (cl * 10 + d) (2 ^ 64) k,
      )
      refl

same_number : (n : ℕ) → 0 * 10 + n ≡ n
same_number n = omega arith

last_digit : (n : ℕ) → n / 10 * 10 + n % 10 ≡ n
last_digit n = omega arith

parse_digits-digits_loop :
    (fuel n : ℕ) (acc : Bytes)
    → n < bound (suc fuel)
    → n < 2 ^ 64
    → parse_digits (digits_loop (suc fuel) n acc) 0 ≡ parse_digits acc n
unfolding bound digits_loop
parse_digits-digits_loop zero n acc h k = elim (Bool-cases (ltb n 10)) [
  | inl t ↦ rw t (
      parse_digit n 0 acc (ltb→lt n 10 t) (omega (arith, k))
      ∙ ap (parse_digits acc) (same_number n))
  | inr f ↦ absurd (ground (arith, f, h))
]
parse_digits-digits_loop (suc fuel) n acc h k = elim (Bool-cases (ltb n 10)) [
  | inl t ↦ rw t (
      parse_digit n 0 acc (ltb→lt n 10 t) (omega (arith, k))
      ∙ ap (parse_digits acc) (same_number n))
  | inr f ↦ rw f (
      parse_digits-digits_loop fuel (n / 10) ((b'0' + n % 10) ∷ acc) (omega (arith, h))
        (omega (arith, k))
      ∙ parse_digit (n % 10) (n / 10) acc (omega arith) (omega (arith, k))
      ∙ ap (parse_digits acc) (last_digit n))
]

bound_20 : 2 ^ 64 ≤ bound 20
unfolding bound
bound_20 = omega arith

-- A length of 64 bits that is printed for Content-Length is read back as it was.
pub parse_digits-decimal : (n : ℕ) → n < 2 ^ 64 → parse_digits (decimal n) 0 ≡ some n
unfolding decimal parse_digits
parse_digits-decimal n h = parse_digits-digits_loop 19 n [] (omega (arith, h, bound_20)) h

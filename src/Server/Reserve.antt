-- ===== src/Server/Reserve.antt =====
-- buf_reserve of src/core/server.c finds a capacity.
use naitron_c.Prelude.{
  ℕ, zero, suc, ◌*◌, ◌%◌, ◌^◌, ◌≤◌, true, some, ltb, leb, ◌==◌, if◌then◌else◌, ◌≡◌, refl, sym, ap,
  ◌∙◌, inl, inr, arith, Bool-cases, leb→le, ltb→lt,
}
use native.Mathlib.Nat.{mul_assoc}
use native.Mathlib.Omega.{pow_step}
use naitron_c.Server.Pipe.{grow_cap, buf_reserve}

twice_more : (n fuel : ℕ) → n * 2 ^ suc fuel ≡ n * 2 * 2 ^ fuel
twice_more n fuel = ap (◌*◌ n) (pow_step 2 fuel) ∙ sym (mul_assoc n 2 (2 ^ fuel))

-- `ncap` doubles at most `fuel` times below 2^64.
grow_cap-enough :
    (fuel ncap need : ℕ)
    → need ≤ 2 ^ 63
    → need ≤ ncap * 2 ^ fuel
    → (c : ℕ) × (grow_cap (suc fuel) ncap need ≡ some c) × (need ≤ c)
unfolding grow_cap
grow_cap-enough zero ncap need small enough = (ncap, ground arith, omega arith)
grow_cap-enough (suc fuel) ncap need small enough = elim (Bool-cases (ltb ncap need)) [
  | inr f ↦ (ncap, rw f refl, ground arith)
  | inl t ↦
      let below : ncap * 2 % 2 ^ 64 ≡ ncap * 2 = omega (arith, ltb→lt ncap need t) in
      let (c, e, le) =
        grow_cap-enough fuel (ncap * 2) need small (rw (twice_more ncap fuel) at enough) in
      (c, rw (t, below) e, le)
]

start_positive : (size : ℕ) → 1 ≤ (if size == 0 then 4096 else size)
start_positive size = ground arith

start_enough : (n need : ℕ) → 1 ≤ n → need ≤ 2 ^ 63 → need ≤ n * 2 ^ 63
start_enough n need h small = omega arith

-- A request of up to 2^63 bytes gets a capacity that holds it when realloc succeeds.
pub buf_reserve-enough :
    (size need : ℕ) → need ≤ 2 ^ 63 → (c : ℕ) × (buf_reserve true size need ≡ some c) × (need ≤ c)
unfolding buf_reserve
buf_reserve-enough size need small = elim (Bool-cases (leb need size)) [
  | inl t ↦ (size, rw t refl, leb→le need size t)
  | inr f ↦
      let n : ℕ = if size == 0 then 4096 else size in
      let (c, e, le) =
        grow_cap-enough 63 n need small (start_enough n need (start_positive size) small) in
      (c, rw f e, le)
]

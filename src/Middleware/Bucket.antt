-- ===== src/Middleware/Bucket.antt =====
-- The rate limiter of src/core/middleware.c. `double` is a type with the operations that the code
-- uses.
use Prim.Native.Nat.{bit_xor}
use naitron_c.Prelude.{
  ℕ, ◌+◌, ◌-◌, ◌*◌, ◌%◌, ◌^◌, Bool, true, false, [], ◌∷◌, leb, if◌then◌else◌, Bytes, ℤ, pos, negsuc,
  is_zero,
}

unfoldable pub hash_loop : ℕ → Bytes → ℕ
hash_loop h [] = h
hash_loop h (c ∷ s) = hash_loop (bit_xor h c * 16777619 % 2 ^ 32) s

-- FNV-1a; a null pointer is the empty string.
unfoldable pub hash_str : Bytes → ℕ
hash_str s = hash_loop 2166136261 s

-- `seconds` is `(double)(ms) / 1000.0`.
pub record Double : Type 1 where
  pub D : Type 0
  pub zero_double : D
  pub one_double : D
  pub of_int : ℤ → D
  pub seconds : ℤ → D
  pub plus : D → D → D
  pub minus : D → D → D
  pub times : D → D → D
  pub greater : D → D → Bool
  pub at_least : D → D → Bool

-- `now - last` of two readings of the clock.
unfoldable pub int_minus : ℤ → ℤ → ℤ
int_minus (pos a) (pos b) = if leb b a then pos (a - b) else negsuc (b - a - 1)
int_minus (pos a) (negsuc b) = pos (a + b + 1)
int_minus (negsuc a) (pos b) = negsuc (a + b)
int_minus (negsuc a) (negsuc b) = if leb a b then pos (b - a) else negsuc (a - b - 1)

pub record Bucket (D : Type 0) : Type 0 where
  pub tokens : D
  pub last_ms : ℤ

module _ (d : Double) where
  open d use {D, zero_double, one_double, seconds, plus, minus, times, greater, at_least}

  -- `if (b->last_ms == 0)`.
  unfoldable pub first_use : Bucket D → ℤ → D → Bucket D
  first_use b now burst = if is_zero b.last_ms then record { tokens = burst; last_ms = now } else b

  -- `if (elapsed > 0)`.
  unfoldable pub refill : Bucket D → ℤ → D → D → Bucket D
  refill b now rate burst =
      let elapsed = seconds (int_minus now b.last_ms) in
      let filled = plus b.tokens (times elapsed rate) in
      if greater elapsed zero_double
      then record { tokens = if greater filled burst then burst else filled; last_ms = now }
      else b

  -- `if (b->tokens >= 1.0)`.
  unfoldable pub spend : Bucket D → Bucket D × Bool
  spend b =
      if at_least b.tokens one_double
      then (record b { tokens = minus b.tokens one_double }, true)
      else (b, false)

  unfoldable pub bucket_allow : Bucket D → ℤ → D → D → Bucket D × Bool
  bucket_allow b now rate burst = spend (refill (first_use b now burst) now rate burst)

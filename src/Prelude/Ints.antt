-- ===== src/Prelude/Ints.antt =====
-- The signed numbers of `long`, with the order of C.
use Prim.Native.Nat.{ℕ, zero, suc}
use mathlib.Core.Path.{◌≡◌, refl, ap}
use mathlib.Core.Logic.{◌↔◌, inl, inr}
use mathlib.Core.Bool.{Bool, true, false, ◌&&◌}
use native.Mathlib.Omega.{arith}
use naitron_c.Prelude.Tests.{ltb, leb, Bool-cases}

pub data ℤ : Type 0 where
  pos negsuc : ℕ → ℤ

abbrev pub ltb_int : ℤ → ℤ → Bool
ltb_int (pos m) (pos n) = ltb m n
ltb_int (pos m) (negsuc n) = false
ltb_int (negsuc m) (pos n) = true
ltb_int (negsuc m) (negsuc n) = ltb n m

abbrev pub leb_int : ℤ → ℤ → Bool
leb_int (pos m) (pos n) = leb m n
leb_int (pos m) (negsuc n) = false
leb_int (negsuc m) (pos n) = true
leb_int (negsuc m) (negsuc n) = leb n m

abbrev pub is_zero : ℤ → Bool
is_zero (pos zero) = true
is_zero (pos (suc n)) = false
is_zero (negsuc n) = false

pub leb_int_self : (a : ℤ) → leb_int a a ≡ true
leb_int_self (pos n) = ground arith
leb_int_self (negsuc n) = ground arith

pub leb_int_trans : (a b c : ℤ) → leb_int a b ≡ true → leb_int b c ≡ true → leb_int a c ≡ true
leb_int_trans (pos a) (pos b) (pos c) p q = ground arith
leb_int_trans (pos a) (pos b) (negsuc c) p q = ground arith
leb_int_trans (pos a) (negsuc b) c p q = ground arith
leb_int_trans (negsuc a) (pos b) (pos c) p q = refl
leb_int_trans (negsuc a) (pos b) (negsuc c) p q = ground arith
leb_int_trans (negsuc a) (negsuc b) (pos c) p q = refl
leb_int_trans (negsuc a) (negsuc b) (negsuc c) p q = ground arith

-- Not smaller is at least.
pub ltb_int-leb_int : (a b : ℤ) → ltb_int a b ≡ false → leb_int b a ≡ true
ltb_int-leb_int (pos a) (pos b) h = ground arith
ltb_int-leb_int (pos a) (negsuc b) h = refl
ltb_int-leb_int (negsuc a) (pos b) h = ground arith
ltb_int-leb_int (negsuc a) (negsuc b) h = ground arith

pub ltb_int-true : (a b : ℤ) → ltb_int a b ≡ true → leb_int a b ≡ true
ltb_int-true (pos a) (pos b) h = ground arith
ltb_int-true (pos a) (negsuc b) h = ground arith
ltb_int-true (negsuc a) (pos b) h = refl
ltb_int-true (negsuc a) (negsuc b) h = ground arith

pub leb_int-ltb_int : (a b : ℤ) → leb_int a b ≡ false → ltb_int b a ≡ true
leb_int-ltb_int (pos a) (pos b) h = ground arith
leb_int-ltb_int (pos a) (negsuc b) h = refl
leb_int-ltb_int (negsuc a) (pos b) h = ground arith
leb_int-ltb_int (negsuc a) (negsuc b) h = ground arith

ltb_int-not : (a b : ℤ) → ltb_int b a ≡ true → leb_int a b ≡ false
ltb_int-not (pos a) (pos b) h = ground arith
ltb_int-not (pos a) (negsuc b) h = refl
ltb_int-not (negsuc a) (pos b) h = ground arith
ltb_int-not (negsuc a) (negsuc b) h = ground arith

pub is_zero_iff : (a : ℤ) → (is_zero a ≡ true) ↔ (a ≡ pos 0)
is_zero_iff (pos zero) = (λ h. refl, λ h. refl)
is_zero_iff (pos (suc n)) = (λ h. ground arith, λ h. ap is_zero h)
is_zero_iff (negsuc n) = (λ h. ground arith, λ h. ap is_zero h)

-- A time is not over when the clock runs (is above 0) and has not come to it, or does not run.
abbrev pub InTime : ℤ → ℤ → Type 0
InTime now t = ltb_int (pos 0) now ≡ true → ltb_int now t ≡ true

pub clock_iff : (now t : ℤ) → ((ltb_int (pos 0) now && leb_int t now) ≡ false) ↔ InTime now t
clock_iff now t = (
  λ h runs. leb_int-ltb_int t now (ground arith),
  λ i. elim (Bool-cases (ltb_int (pos 0) now)) [
    | inl runs ↦ rw (runs, ltb_int-not t now (i runs)) refl
    | inr still ↦ rw still refl
  ],
)

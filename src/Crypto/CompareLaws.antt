-- ===== src/Crypto/CompareLaws.antt =====
-- The comparison in constant time of src/common/crypto.c decides equality.
use Prim.Native.Nat.{bit_or, bit_xor, digits, differ, max, bit_or-bitwise, bit_xor-bitwise}
use naitron_c.Prelude.{
  ℕ, zero, suc, ◌/◌, ◌%◌, ◌≤◌, true, [], ◌∷◌, Bytes, length, ◌≡◌, refl, sym, ap, ◌∙◌, ◌↔◌, arith,
  ==_iff,
}
use naitron_c.Crypto.Base64.{difference, ct_eq}

abbrev or_digits : ℕ → ℕ → ℕ → ℕ
or_digits n a b = digits (λ b. b) max n a b

abbrev xor_digits : ℕ → ℕ → ℕ → ℕ
xor_digits n a b = digits (λ b. b) differ n a b

differ-eq_zero : (x y : ℕ) → differ x y ≡ 0 → x ≡ y
differ-eq_zero zero y h = sym h
differ-eq_zero (suc x) zero h = h
differ-eq_zero (suc x) (suc y) h = ap suc (differ-eq_zero x y h)

differ_self : (x : ℕ) → differ x x ≡ 0
differ_self zero = refl
differ_self (suc x) = differ_self x

xor_digits-eq_zero : (n a b : ℕ) → a ≤ n → xor_digits n a b ≡ 0 → a ≡ b
xor_digits-eq_zero zero zero b le h = sym h
xor_digits-eq_zero zero (suc a) b le h = absurd (omega arith)
xor_digits-eq_zero (suc n) zero b le h = sym h
xor_digits-eq_zero (suc n) (suc a) b le h = omega (
  arith,
  xor_digits-eq_zero n (suc a / 2) (b / 2) (omega arith) (omega arith),
  differ-eq_zero (suc a % 2) (b % 2) (omega arith),
)

xor_digits_self : (n a : ℕ) → a ≤ n → xor_digits n a a ≡ 0
xor_digits_self zero zero le = refl
xor_digits_self zero (suc a) le = absurd (omega arith)
xor_digits_self (suc n) zero le = refl
xor_digits_self (suc n) (suc a) le =
    omega (arith, xor_digits_self n (suc a / 2) (omega arith), differ_self (suc a % 2))

or_digits-eq_zero : (n a b : ℕ) → a ≤ n → or_digits n a b ≡ 0 → (a ≡ 0) × (b ≡ 0)
or_digits-eq_zero zero zero b le h = (refl, h)
or_digits-eq_zero zero (suc a) b le h = absurd (omega arith)
or_digits-eq_zero (suc n) zero b le h = (refl, h)
or_digits-eq_zero (suc n) (suc a) b le h =
    omega (arith, or_digits-eq_zero n (suc a / 2) (b / 2) (omega arith) (omega arith))

pub bit_xor-eq_zero : (a b : ℕ) → bit_xor a b ≡ 0 → a ≡ b
bit_xor-eq_zero a b h = xor_digits-eq_zero a a b (omega arith) (sym (bit_xor-bitwise a b) ∙ h)

pub bit_xor_self : (a : ℕ) → bit_xor a a ≡ 0
bit_xor_self a = bit_xor-bitwise a a ∙ xor_digits_self a a (omega arith)

pub bit_or-eq_zero : (a b : ℕ) → bit_or a b ≡ 0 → (a ≡ 0) × (b ≡ 0)
bit_or-eq_zero a b h = or_digits-eq_zero a a b (omega arith) (sym (bit_or-bitwise a b) ∙ h)

difference-eq_zero :
    (d : ℕ) (xs ys : Bytes) → length xs ≡ length ys → difference d xs ys ≡ 0 → (d ≡ 0) × (xs ≡ ys)
unfolding difference
difference-eq_zero d [] [] e h = (h, refl)
difference-eq_zero d [] (y ∷ ys) e h = absurd (omega arith)
difference-eq_zero d (x ∷ xs) [] e h = absurd (omega arith)
difference-eq_zero d (x ∷ xs) (y ∷ ys) e h =
    let (none_yet, rest) = difference-eq_zero (bit_or d (bit_xor x y)) xs ys (omega arith) h in
    let (before, here) = bit_or-eq_zero d (bit_xor x y) none_yet in
    (before, cc (bit_xor-eq_zero x y here, rest))

difference_self : (xs : Bytes) → difference 0 xs xs ≡ 0
unfolding difference
difference_self [] = refl
difference_self (x ∷ xs) = rw (bit_xor_self x) (difference_self xs)

-- On two runs of bytes of one length, ntc_ct_eq is true exactly when they are the same bytes.
pub ct_eq_iff : (xs ys : Bytes) → length xs ≡ length ys → (ct_eq xs ys ≡ true) ↔ (xs ≡ ys)
unfolding ct_eq
ct_eq_iff xs ys e = (
  λ h. (difference-eq_zero 0 xs ys e ((==_iff (difference 0 xs ys) 0).0 h)).1,
  λ same. rw (← same, difference_self xs) refl,
)

-- ===== src/Controller/MultipartLaws.antt =====
-- The first occurrence of a text: memmem of src/common/controller_sdk.c.
use naitron_c.Prelude.{
  ℕ, ◌+◌, ◌≤◌, ◌<◌, true, false, [], ◌∷◌, ◌++◌, some, ltb, ◌==◌, Bytes, length, ◌≡◌, refl, ◌∙◌, inl,
  inr, arith, Bool-cases, length-append, take-append_front, take-length_append, ==_iff, some-inj,
  >>=-eq_some, if-eq_some,
}
use naitron_c.Slice.Laws.{mem_equal_iff}
use naitron_c.Controller.Multipart.{memmem}
use naitron_c.Slice.{slice_starts_with}

-- Only the first bytes count.
starts_with-append :
    (hay rest needle : Bytes)
    → length needle ≤ length hay
    → slice_starts_with (hay ++ rest) needle ≡ slice_starts_with hay needle
unfolding slice_starts_with
starts_with-append hay rest needle h =
    let long : ltb (length hay) (length needle) ≡ false = ground (arith, h) in
    let longer : ltb (length (hay ++ rest)) (length needle) ≡ false =
      ground (arith, h, length-append hay rest) in
    rw (longer, long, take-append_front (length needle) hay rest h) refl

pub starts_with_self : (needle rest : Bytes) → slice_starts_with (needle ++ rest) needle ≡ true
unfolding slice_starts_with
starts_with_self needle rest =
    let long : ltb (length (needle ++ rest)) (length needle) ≡ false =
      ground (arith, length-append needle rest) in
    rw (long, take-length_append needle rest, (mem_equal_iff needle needle).1 refl)
      (elim (Bool-cases (length needle == 0)) [ inl t ↦ rw t refl | inr f ↦ rw f refl ])

starts_with_bound :
    (hay needle : Bytes) → slice_starts_with hay needle ≡ true → length needle ≤ length hay
unfolding slice_starts_with
starts_with_bound hay needle h = elim (Bool-cases (ltb (length hay) (length needle))) [
  | inl t ↦ cc (rw t at h)
  | inr f ↦ ground (arith, f)
]

memmem_bound :
    (needle hay : Bytes) {n : ℕ} → memmem needle hay ≡ some n → n + length needle ≤ length hay
unfolding memmem
memmem_bound needle [] {n} h =
    let (z, e) = if-eq_some (length needle == 0) (some 0) h in
    omega (arith, (==_iff (length needle) 0).0 z, some-inj e)
memmem_bound needle (x ∷ hay) {n} h = elim (Bool-cases (slice_starts_with (x ∷ hay) needle)) [
  | inl t ↦ omega (arith, some-inj (rw t at h), starts_with_bound (x ∷ hay) needle t)
  | inr f ↦
      let (m, found, e) = >>=-eq_some (memmem needle hay) _ (rw f at h) in
      omega (arith, memmem_bound needle hay found, some-inj e)
]

-- Bytes behind the first occurrence do not change it.
pub memmem-append :
    (needle hay rest : Bytes) {n : ℕ}
    → 0 < length needle
    → memmem needle hay ≡ some n
    → memmem needle (hay ++ rest) ≡ some n
unfolding memmem
memmem-append needle [] rest {n} some_needle h =
    let (z, _) = if-eq_some (length needle == 0) (some 0) h in
    absurd (omega (arith, (==_iff (length needle) 0).0 z, some_needle))
memmem-append needle (x ∷ hay) rest {n} some_needle h =
    elim (Bool-cases (slice_starts_with (x ∷ hay) needle)) [
      | inl t ↦
          rw (starts_with-append (x ∷ hay) rest needle (starts_with_bound (x ∷ hay) needle t) ∙ t)
            (rw t at h)
      | inr f ↦
          let (m, found, e) = >>=-eq_some (memmem needle hay) _ (rw f at h) in
          let bound = memmem_bound needle hay found in
          rw
            (
              starts_with-append (x ∷ hay) rest needle (omega (arith, bound)) ∙ f,
              memmem-append needle hay rest some_needle found,
            )
            e
    ]

pub memmem-start : (needle rest : Bytes) → memmem needle (needle ++ rest) ≡ some 0
unfolding memmem
memmem-start [] [] = refl
memmem-start [] (x ∷ rest) = rw (starts_with_self [] (x ∷ rest)) refl
memmem-start (x ∷ needle) rest = rw (starts_with_self (x ∷ needle) rest) refl

-- ===== src/Wire/Read.antt =====
-- The bounded reader of src/common/wire.c on bytes that the writer wrote, with any rest behind.
use naitron_c.Prelude.{
  ℕ, ◌%◌, ◌^◌, ◌≤◌, ◌<◌, false, [], ◌∷◌, ◌++◌, Bytes, length, ◌≡◌, sym, ap, ◌∙◌, arith, append-nil,
  append_assoc, length-append, get_or-length_append, drop-length_append, take-length_append,
}
use naitron_c.Wire.Write.{slice16, slice32}
use naitron_c.Wire.Buffer.{
  put_u16, put_u32, RBuf, r_u8, r_u16, r_u32, r_slice, r_slice16, r_slice32,
}

-- A reader that stands behind `front`, with `rest` still to read.
abbrev pub at : Bytes → Bytes → RBuf
at front rest = record { p = front ++ rest; off = length front; err = false }

module _ (front rest : Bytes) where
  pub r_u8-at : (v : ℕ) → r_u8 (at front (v ∷ rest)) ≡ (v, at (front ++ v ∷ []) rest)
  unfolding r_u8
  r_u8-at v = ground (
    arith,
    length-append front (v ∷ rest),
    length-append front (v ∷ []),
    get_or-length_append front (v ∷ rest) 0,
    append_assoc front (v ∷ []) rest,
  )

  pub r_u16-at :
      (v : ℕ)
      → v < 2 ^ 16
      → r_u16 (at front (put_u16 v ++ rest)) ≡ (v, at (front ++ put_u16 v) rest)
  unfolding r_u16
  r_u16-at v h = ground (
    arith,
    length-append front (put_u16 v ++ rest),
    length-append front (put_u16 v),
    drop-length_append front (put_u16 v ++ rest),
    append_assoc front (put_u16 v) rest,
  )

  pub r_u32-at :
      (v : ℕ)
      → v < 2 ^ 32
      → r_u32 (at front (put_u32 v ++ rest)) ≡ (v, at (front ++ put_u32 v) rest)
  unfolding r_u32
  r_u32-at v h = ground (
    arith,
    length-append front (put_u32 v ++ rest),
    length-append front (put_u32 v),
    drop-length_append front (put_u32 v ++ rest),
    append_assoc front (put_u32 v) rest,
  )

  pub r_slice-at :
      (s : Bytes) → r_slice (length s, at front (s ++ rest)) ≡ (s, at (front ++ s) rest)
  unfolding r_slice
  r_slice-at s = ground (
    arith,
    length-append front (s ++ rest),
    length-append front s,
    length-append s rest,
    drop-length_append front (s ++ rest),
    append_assoc front s rest,
    take-length_append s rest,
  )

module _ (front rest s : Bytes) where
  pub r_slice16-at :
      length s ≤ 0xFFFF
      → r_slice16 (at front (slice16 s ++ rest)) ≡ (s, at (front ++ slice16 s) rest)
  unfolding r_slice16
  r_slice16-at h = rw (r_u16-at front (s ++ rest) (length s) (omega arith)) (
      r_slice-at (front ++ put_u16 (length s)) rest s
      ∙ ap (λ f. (s, at f rest)) (append_assoc front (put_u16 (length s)) s))

  pub r_slice32-at :
      length s < 2 ^ 32
      → r_slice32 (at front (slice32 s ++ rest)) ≡ (s, at (front ++ slice32 s) rest)
  unfolding r_slice32
  r_slice32-at h = rw small (
      rw (r_u32-at front (s ++ rest) (length s) h) (
        r_slice-at (front ++ put_u32 (length s)) rest s
        ∙ ap (λ f. (s, at f rest)) (append_assoc front (put_u32 (length s)) s)))
    where
      small : length s % 2 ^ 32 ≡ length s
      small = omega arith

-- The last slice, with nothing behind it.
module _ (front s : Bytes) where
  pub r_slice16-at_end :
      length s ≤ 0xFFFF → r_slice16 (at front (slice16 s)) ≡ (s, at (front ++ slice16 s) [])
  r_slice16-at_end h =
      ap (λ e. r_slice16 (at front e)) (sym (append-nil (slice16 s))) ∙ r_slice16-at front [] s h

  pub r_slice32-at_end :
      length s < 2 ^ 32 → r_slice32 (at front (slice32 s)) ≡ (s, at (front ++ slice32 s) [])
  r_slice32-at_end h =
      ap (λ e. r_slice32 (at front e)) (sym (append-nil (slice32 s))) ∙ r_slice32-at front [] s h

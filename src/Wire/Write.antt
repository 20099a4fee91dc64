-- ===== src/Wire/Write.antt =====
-- What the bounded writer of src/common/wire.c writes, as a format that is cut off at a capacity.
use naitron_c.Prelude.{
  ℕ, ◌+◌, ◌%◌, ◌^◌, true, false, [], ◌∷◌, ◌++◌, Option, none, some, ltb, leb, if◌then◌else◌, Bytes,
  length, ◌≡◌, refl, ap, inl, inr, arith, Bool-cases, append_assoc, length-append, leb→le,
}
use naitron_c.Wire.Buffer.{WBuf, w_u8, w_u16, w_u32, w_bytes, w_slice16, put_u16, put_u32}
use naitron_c.Wire.Payload.{w_done, w_slice32}

-- A format is the bytes to write, or `none` where no length field can hold the length.
infixr 60 ◌⊕◌
abbrev pub ◌⊕◌ : Option Bytes → Option Bytes → Option Bytes
none ⊕ b = none
some a ⊕ none = none
some a ⊕ some b = some (a ++ b)

abbrev pub u8_format : ℕ → Option Bytes
u8_format v = some (v ∷ [])

abbrev pub u16_format : ℕ → Option Bytes
u16_format v = some (put_u16 v)

-- A length field and the bytes that it counts.
abbrev pub slice16 : Bytes → Bytes
slice16 s = put_u16 (length s) ++ s

abbrev pub slice32 : Bytes → Bytes
slice32 s = put_u32 (length s % 2 ^ 32) ++ s

abbrev pub slice16_format : Bytes → Option Bytes
slice16_format s = if leb (length s) 0xFFFF then some (slice16 s) else none

abbrev pub slice32_format : Bytes → Option Bytes
slice32_format s = some (slice32 s)

-- The format, if it fits into `cap` bytes.
unfoldable pub fit : ℕ → Option Bytes → Option Bytes
fit cap none = none
fit cap (some bs) = if leb (length bs) cap then some bs else none

-- Writing a format behind what is written.
pub put : ℕ → Option Bytes → Option Bytes → Option Bytes
put cap none x = none
put cap (some p) none = none
put cap (some p) (some bs) = if leb (length p + length bs) cap then some (p ++ bs) else none

pub put-put : (cap : ℕ) (o x y : Option Bytes) → put cap (put cap o x) y ≡ put cap o (x ⊕ y)
unfolding put
put-put cap none x y = refl
put-put cap (some p) none y = refl
put-put cap (some p) (some a) none = ground arith
put-put cap (some p) (some a) (some b) =
    ground (arith, length-append p a, length-append a b, append_assoc p a b)

pub ⊕_assoc : (x y z : Option Bytes) → (x ⊕ y) ⊕ z ≡ x ⊕ (y ⊕ z)
⊕_assoc none y z = refl
⊕_assoc (some a) none z = refl
⊕_assoc (some a) (some b) none = refl
⊕_assoc (some a) (some b) (some c) = ap some (append_assoc a b c)

pub put-nil : (cap : ℕ) (x : Option Bytes) → put cap (some []) x ≡ fit cap x
unfolding put fit
put-nil cap none = refl
put-nil cap (some bs) = ground arith

module _ (w : WBuf) where
  pub w_u8-put : (v : ℕ) → w_done (w_u8 w v) ≡ put w.cap (w_done w) (u8_format v)
  unfolding w_u8 put
  w_u8-put v = ground arith

  pub w_u16-put : (v : ℕ) → w_done (w_u16 w v) ≡ put w.cap (w_done w) (u16_format v)
  unfolding w_u16 put
  w_u16-put v = ground arith

  pub w_u32-put : (v : ℕ) → w_done (w_u32 w v) ≡ put w.cap (w_done w) (some (put_u32 v))
  unfolding w_u32 put
  w_u32-put v = ground arith

  pub w_bytes-put : (s : Bytes) → w_done (w_bytes w s) ≡ put w.cap (w_done w) (some s)
  unfolding w_bytes put
  w_bytes-put s = ground arith

  pub cap-w_u8 : (v : ℕ) → (w_u8 w v).cap ≡ w.cap
  unfolding w_u8
  cap-w_u8 v = ground arith

  pub cap-w_u16 : (v : ℕ) → (w_u16 w v).cap ≡ w.cap
  unfolding w_u16
  cap-w_u16 v = ground arith

  pub cap-w_u32 : (v : ℕ) → (w_u32 w v).cap ≡ w.cap
  unfolding w_u32
  cap-w_u32 v = ground arith

  pub cap-w_bytes : (s : Bytes) → (w_bytes w s).cap ≡ w.cap
  unfolding w_bytes
  cap-w_bytes s = ground arith

pub ruleset primitive_writes = (
  w_u8-put, w_u16-put, w_u32-put, w_bytes-put, cap-w_u8, cap-w_u16, cap-w_u32, cap-w_bytes, put-put,
)

module _ (w : WBuf) (s : Bytes) where
  pub cap-w_slice16 : (w_slice16 w s).cap ≡ w.cap
  unfolding w_slice16
  cap-w_slice16 =
      ground (arith, cap-w_u16 w (length s % 2 ^ 16), cap-w_bytes (w_u16 w (length s % 2 ^ 16)) s)

  pub w_slice16-put : w_done (w_slice16 w s) ≡ put w.cap (w_done w) (slice16_format s)
  unfolding w_slice16
  w_slice16-put = elim (Bool-cases (leb (length s) 0xFFFF)) [
    | inl short ↦ rw short (rw (short_not_long short) (simp primitive_writes (rw (small short))))
    | inr long ↦ unfold put in ground arith
  ]
    where
      short_not_long : leb (length s) 0xFFFF ≡ true → ltb 0xFFFF (length s) ≡ false
      short_not_long e = ground arith

      small : leb (length s) 0xFFFF ≡ true → length s % 2 ^ 16 ≡ length s
      small e = omega (arith, leb→le _ _ e)

  pub cap-w_slice32 : (w_slice32 w s).cap ≡ w.cap
  unfolding w_slice32
  cap-w_slice32 = simp primitive_writes

  pub w_slice32-put : w_done (w_slice32 w s) ≡ put w.cap (w_done w) (slice32_format s)
  unfolding w_slice32
  w_slice32-put = simp primitive_writes

pub ruleset writes =
    (primitive_writes, cap-w_slice16, w_slice16-put, cap-w_slice32, w_slice32-put, ⊕_assoc)

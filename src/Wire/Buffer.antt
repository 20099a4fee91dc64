-- ===== src/Wire/Buffer.antt =====
-- The primitives of src/common/wire.c: big-endian words, `wbuf` and `rbuf`.
-- A writer is the bytes written so far, so its `off` is their number. A reader's `len` is the
-- number of bytes in `p`. Sizes are those of objects in memory, below 2 ^ 63, so that the sum of an
-- offset and a size does not wrap.
use naitron_c.Prelude.{
  ℕ, ◌+◌, ◌*◌, ◌/◌, ◌%◌, ◌^◌, Bool, true, ◌||◌, [], ◌∷◌, ◌++◌, ltb, if◌then◌else◌, Bytes, length,
  take, drop, get_or,
}

-- `p[i]`, for an index that the caller has checked.
abbrev pub byte_at : Bytes → ℕ → ℕ
byte_at p i = get_or p i 0

-- `(uint8_t)(v >> 8)` and `(uint8_t)v`.
abbrev pub put_u16 : ℕ → Bytes
put_u16 v = v / 2 ^ 8 % 2 ^ 8 ∷ v % 2 ^ 8 ∷ []

abbrev pub put_u32 : ℕ → Bytes
put_u32 v = v / 2 ^ 24 % 2 ^ 8 ∷ v / 2 ^ 16 % 2 ^ 8 ∷ v / 2 ^ 8 % 2 ^ 8 ∷ v % 2 ^ 8 ∷ []

-- The bytes take disjoint bits, so `|` is a sum.
abbrev pub get_u16 : Bytes → ℕ
get_u16 p = byte_at p 0 * 2 ^ 8 + byte_at p 1

abbrev pub get_u32 : Bytes → ℕ
get_u32 p = byte_at p 0 * 2 ^ 24 + byte_at p 1 * 2 ^ 16 + byte_at p 2 * 2 ^ 8 + byte_at p 3

pub record WBuf : Type 0 where
  pub p : Bytes
  pub cap : ℕ
  pub err : Bool

abbrev pub off : WBuf → ℕ
off w = length w.p

unfoldable pub w_need : WBuf → ℕ → WBuf
w_need w n = if ltb w.cap (off w + n) then record w { err = true } else w

-- The store that each writer makes when there was room.
abbrev pub store : WBuf → Bytes → WBuf
store w bs = if w.err then w else record w { p = w.p ++ bs }

unfoldable pub w_u8 : WBuf → ℕ → WBuf
unfolding w_need
w_u8 w v = store (w_need w 1) (v ∷ [])

unfoldable pub w_u16 : WBuf → ℕ → WBuf
unfolding w_need
w_u16 w v = store (w_need w 2) (put_u16 v)

unfoldable pub w_u32 : WBuf → ℕ → WBuf
unfolding w_need
w_u32 w v = store (w_need w 4) (put_u32 v)

unfoldable pub w_bytes : WBuf → Bytes → WBuf
unfolding w_need
w_bytes w s = store (w_need w (length s)) s

unfoldable pub w_slice16 : WBuf → Bytes → WBuf
w_slice16 w s =
    if ltb 0xFFFF (length s)
    then record w { err = true }
    else w_bytes (w_u16 w (length s % 2 ^ 16)) s

pub record RBuf : Type 0 where
  pub p : Bytes
  pub off : ℕ
  pub err : Bool

abbrev pub fault : RBuf → RBuf
fault r = record r { err = true }

unfoldable pub r_u8 : RBuf → ℕ × RBuf
r_u8 r =
    if ltb (length r.p) (r.off + 1)
    then (0, fault r)
    else (byte_at r.p r.off, record r { off = r.off + 1 })

unfoldable pub r_u16 : RBuf → ℕ × RBuf
r_u16 r =
    if ltb (length r.p) (r.off + 2)
    then (0, fault r)
    else (get_u16 (drop r.off r.p), record r { off = r.off + 2 })

unfoldable pub r_u32 : RBuf → ℕ × RBuf
r_u32 r =
    if ltb (length r.p) (r.off + 4)
    then (0, fault r)
    else (get_u32 (drop r.off r.p), record r { off = r.off + 4 })

-- The part of `r_slice16` and `r_slice32` that follows the length `n`.
unfoldable pub r_slice : ℕ × RBuf → Bytes × RBuf
r_slice (n, r) =
    if r.err || ltb (length r.p) (r.off + n)
    then ([], fault r)
    else (take n (drop r.off r.p), record r { off = r.off + n })

unfoldable pub r_slice16 : RBuf → Bytes × RBuf
r_slice16 r = r_slice (r_u16 r)

unfoldable pub r_slice32 : RBuf → Bytes × RBuf
r_slice32 r = r_slice (r_u32 r)

-- ===== src/Slice.antt =====
-- src/common/slice.c: a slice is the list of its bytes. A null pointer with length 0 and an empty
-- slice are the same list.
pub mod Laws
use naitron_c.Prelude.{
  ℕ, zero, suc, ◌+◌, ◌-◌, ◌*◌, ◌/◌, ◌%◌, ◌^◌, ◌≤◌, ◌<◌, Bool, true, false, not, ◌||◌, ◌&&◌, List,
  [], ◌∷◌, ◌++◌, Option, none, some, ltb, leb, ◌==◌, ◌!=◌, if◌then◌else◌, Bytes, length, take, drop,
  get_or, ◌≡◌, refl, sym, ap, ◌∙◌, ◌≢◌, ◌↔◌, ◌⊎◌, inl, inr, arith, Bool-cases, Option-cases, ◌>>=◌,
  map, IsByte, All, append-nil, append_assoc, length-append, get_or-append_front, drop-append_front,
  take-append_front, get_or-length_append, drop-length_append, take-length_append, length-take,
  length-drop, take-append-drop, get_elem?, leb→le, ltb→lt, ==_iff, &&_parts, ◌≡⟨◌⟩◌, ◌∎, le→leb,
  lt→leb_false,
}

-- `memcmp(a, b, n) == 0` on two runs of n bytes.
unfoldable pub mem_equal : Bytes → Bytes → Bool
mem_equal [] [] = true
mem_equal (x ∷ xs) (y ∷ ys) = x == y && mem_equal xs ys
mem_equal _ _ = false

unfoldable pub slice_eq : Bytes → Bytes → Bool
unfolding mem_equal
slice_eq a b = if length a != length b then false else if length a == 0 then true else mem_equal a b

unfoldable pub slice_starts_with : Bytes → Bytes → Bool
unfolding mem_equal
slice_starts_with a prefix =
    if ltb (length a) (length prefix)
    then false
    else if length prefix == 0
    then true
    else mem_equal (take (length prefix) a) prefix

unfoldable pub is_space : ℕ → Bool
is_space c = c == b' ' || c == b'\t' || c == b'\r' || c == b'\n' || c == 0x0c || c == 0x0b

-- The slice from `start` on, where the first loop of `ntc_slice_trim` stops.
unfoldable pub skip_space : Bytes → Bytes
unfolding is_space
skip_space [] = []
skip_space (c ∷ cs) = if is_space c then skip_space cs else c ∷ cs

-- The second loop: `end`, counted from `start`.
unfoldable pub trim_end : Bytes → ℕ → ℕ
unfolding is_space
trim_end s zero = zero
trim_end s (suc e) = let rest = trim_end s e in if is_space (get_or s e 0) then rest else suc e

unfoldable pub slice_trim : Bytes → Bytes
unfolding skip_space trim_end
slice_trim s = let t = skip_space s in take (trim_end t (length t)) t

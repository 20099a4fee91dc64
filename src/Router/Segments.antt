-- ===== src/Router/Segments.antt =====
-- `split_segments` of src/common/router.c.
use naitron_c.Prelude.{
  ℕ, ◌+◌, Bool, true, false, ◌&&◌, List, [], ◌∷◌, ◌++◌, Option, none, some, ltb, leb, ◌==◌,
  if◌then◌else◌, Bytes, length, ◌>>=◌,
}

pub record Seg : Type 0 where
  pub s : Bytes
  pub is_param : Bool

abbrev pub max_segments : ℕ
max_segments = 16

-- A segment of more than one byte that starts with ':' is a parameter, under its name.
unfoldable pub mk_seg : Bytes → Seg
mk_seg [] = record { s = []; is_param = false }
mk_seg (c ∷ cs) =
    let is_param = ltb 1 (length (c ∷ cs)) && c == b':' in
    record { s = if is_param then cs else c ∷ cs; is_param = is_param }

abbrev pub cons_seg : Bytes → Option (List Seg) → Option (List Seg)
cons_seg seg rest = rest >>= λ segs. some (mk_seg seg ∷ segs)

-- The outer loop as one pass: between segments (`none`), or inside one, with the bytes read of it.
-- `n` segments are stored already; `none` is the result -1.
unfoldable pub split_loop : Bytes → ℕ → ℕ → Option Bytes → Option (List Seg)
split_loop [] n max none = some []
split_loop [] n max (some seg) = if leb max n then none else cons_seg seg (some [])
split_loop (c ∷ cs) n max none = elim (c == b'/') [
  | true ↦ split_loop cs n max none
  | false ↦ split_loop cs n max (some (c ∷ []))
]
split_loop (c ∷ cs) n max (some seg) = elim (c == b'/') [
  | true ↦ elim (leb max n) [ true ↦ none | false ↦ cons_seg seg (split_loop cs (n + 1) max none) ]
  | false ↦ split_loop cs n max (some (seg ++ c ∷ []))
]

unfoldable pub split_segments : Bytes → ℕ → Option (List Seg)
unfolding split_loop
split_segments s max = split_loop s 0 max none

-- ===== src/Arena/BlockLaws.antt =====
-- What src/common/arena.c hands out: aligned, inside a block, and behind all that was handed out before.
use mathlib.Core.Path.{subst}
use Prim.Native.Nat.{min}
use naitron_c.Arena.Blocks.{
  arena_align, block_header, Block, Arena, block_new, align_up, next_ptr, next_off, full, bump,
  grow, grow_size, alloc_in, arena_alloc, first_block, rewind, arena_reset, used_in, arena_used,
}
use naitron_c.Prelude.{
  ℕ, ◌+◌, ◌-◌, ◌%◌, ◌^◌, ◌≤◌, ◌<◌, false, List, [], ◌∷◌, Option, none, some, ltb, ◌==◌,
  if◌then◌else◌, length, ◌≡◌, refl, inl, inr, arith, Bool-cases, All,
}

-- A block that `malloc` can give: it ends below the last 16 addresses.
abbrev pub IsPlaced : ℕ → ℕ → Type 0
IsPlaced p cap = p + cap + 16 ≤ 2 ^ 64

-- What is used of a block lies inside it.
abbrev pub IsBlock : Block → Type 0
IsBlock b = (b.off ≤ b.cap) × IsPlaced b.data_ptr b.cap

abbrev pub IsArena : Arena → Type 0
IsArena a = All IsBlock a.blocks

-- The region of `size` bytes at `p` is new in the block `b`, which becomes `b'`.
pub record Carved (p size : ℕ) (b b' : Block) : Type 0 where
  pub aligned : p % 16 ≡ 0
  pub behind : b.data_ptr + b.off ≤ p
  pub ends : p + size ≡ b'.data_ptr + b'.off
  pub gap : b'.off ≤ b.off + 15 + size
  pub same : (b'.data_ptr ≡ b.data_ptr) × (b'.cap ≡ b.cap)
  pub inside : IsBlock b'

align_up_bounds :
    (n : ℕ) → n + 15 < 2 ^ 64 → (align_up n % 16 ≡ 0) × (n ≤ align_up n) × (align_up n ≤ n + 15)
unfolding align_up
align_up_bounds n h = (omega arith, omega arith, omega arith)

bump-Carved :
    (b : Block) (size : ℕ)
    → IsBlock b
    → full b size ≡ false
    → Carved (next_ptr b) size b (bump b size)
unfolding full bump next_ptr next_off
bump-Carved b size h f =
    let u = align_up_bounds (b.data_ptr + b.off) (omega (arith, h.0, h.1)) in
    record {
      aligned = u.0;
      behind = u.1;
      ends = omega (arith, u.1);
      gap = omega (arith, u.1, u.2);
      same = (refl, refl);
      inside = ground (arith, f, h.1);
    }

-- The ways a call ends: NULL and no change, a region of the current block, or a region of a new
-- block that is put in front.
pub data AllocOutcome (a : Arena) (size : ℕ) : Option ℕ × Arena → Type 0 where
  refused : AllocOutcome a size (none, a)
  from_current :
      (b b' : Block) (bs : List Block) (p : ℕ)
      → a.blocks ≡ b ∷ bs
      → Carved p size b b'
      → AllocOutcome a size (some p, record a { blocks = b' ∷ bs })
  from_new :
      (b b' : Block) (p : ℕ)
      → b.off ≡ 0
      → Carved p size b b'
      → AllocOutcome a size (some p, record a { blocks = b' ∷ a.blocks })

abbrev pub Granted : Arena → ℕ → Option ℕ → Type 0
Granted a size malloc = (p : ℕ) → malloc ≡ some p → IsPlaced p (grow_size a size)

fresh_fits :
    (p size cap : ℕ)
    → size + 15 ≤ cap
    → IsPlaced p cap
    → full (record { data_ptr = p; cap = cap; off = 0 }) size ≡ false
unfolding full next_off next_ptr
fresh_fits p size cap h q =
    let u = align_up_bounds (p + 0) (omega (arith, q)) in ground (arith, u.1, u.2)

grow_outcome :
    (malloc : Option ℕ) (a : Arena) (size : ℕ)
    → IsArena a
    → Granted a size malloc
    → AllocOutcome a size (grow malloc a size) × IsArena (grow malloc a size).1
unfolding grow block_new
grow_outcome none a size h g =
    elim (Bool-cases (ltb (2 ^ 64 - 1 - block_header) (grow_size a size))) [
      | inl t ↦ rw (t, grow) (refused, h)
      | inr f ↦ rw (f, grow) (refused, h)
    ]
grow_outcome (some p) a size h g =
    elim (Bool-cases (ltb (2 ^ 64 - 1 - block_header) (grow_size a size))) [
      | inl t ↦ rw (t, grow) (refused, h)
      | inr f ↦
          let b : Block = record { data_ptr = p; cap = grow_size a size; off = 0 } in
          let c =
            bump-Carved b size (omega arith, g p refl)
              (fresh_fits p size (grow_size a size) (ground arith) (g p refl)) in
          rw (f, grow) (from_new b (bump b size) (next_ptr b) refl c, (c.inside, h))
    ]

alloc_in_outcome :
    (malloc : Option ℕ) (a : Arena) (bs : List Block) (size : ℕ)
    → a.blocks ≡ bs
    → IsArena a
    → Granted a size malloc
    → AllocOutcome a size (alloc_in malloc a bs size) × IsArena (alloc_in malloc a bs size).1
unfolding alloc_in
alloc_in_outcome malloc a [] size e h g = (refused, h)
alloc_in_outcome malloc a (b ∷ bs) size e h g =
    let parts = subst (All IsBlock) e h in
    elim (Bool-cases (full b size)) [
      | inl t ↦ rw t (grow_outcome malloc a size h g)
      | inr f ↦
          let c = bump-Carved b size parts.0 f in
          rw f (from_current b (bump b size) bs (next_ptr b) e c, (c.inside, parts.1))
    ]

-- The number of bytes that a call takes.
abbrev pub taken : ℕ → ℕ
taken size = if size == 0 then 1 else size

-- In an arena whose blocks are in order, a call gives NULL and changes nothing, or it gives an
-- address that is a multiple of 16, with a region behind all that its block gave before and inside
-- the block, which is the current one or a new one; no other block changes.
pub arena_alloc-AllocOutcome :
    (malloc : Option ℕ) (a : Arena) (size : ℕ)
    → IsArena a
    → Granted a (taken size) malloc
    → AllocOutcome a (taken size) (arena_alloc malloc a size)
      × IsArena (arena_alloc malloc a size).1
unfolding arena_alloc
arena_alloc-AllocOutcome malloc a size h g =
    elim (Bool-cases (ltb (2 ^ 64 - 1 - (arena_align - 1)) (taken size))) [
      | inl t ↦ rw t (refused, h)
      | inr f ↦ rw f (alloc_in_outcome malloc a a.blocks (taken size) refl h g)
    ]

-- A reset keeps the first block, of which nothing is used then.
first_reset :
    (bs : List Block)
    → All IsBlock bs
    → All IsBlock (rewind (first_block bs))
      × (used_in (rewind (first_block bs)) ≡ 0)
      × (length (rewind (first_block bs)) ≡ min 1 (length bs))
unfolding first_block rewind used_in
first_reset [] h = (tt, refl, refl)
first_reset (b ∷ []) h = (((omega arith, h.0.1), tt), omega arith, omega arith)
first_reset (b ∷ c ∷ bs) h = let r = first_reset (c ∷ bs) h.1 in (r.0, r.1, omega (arith, r.2))

-- A reset of an arena whose blocks are in order keeps at most one block, leaves the blocks in
-- order, and none of the bytes is in use.
pub arena_reset_lem :
    (a : Arena)
    → IsArena a
    → IsArena (arena_reset a)
      × (arena_used (arena_reset a) ≡ 0)
      × (length (arena_reset a).blocks ≡ min 1 (length a.blocks))
unfolding arena_reset arena_used
arena_reset_lem a h = first_reset a.blocks h

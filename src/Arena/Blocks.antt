-- ===== src/Arena/Blocks.antt =====
-- The bump allocator of src/common/arena.c. An address is a number of 64 bits. `malloc` is an
-- argument of an operation: the address of `data` in the new block, or `none` for NULL.
use naitron_c.Prelude.{
  ℕ, ◌+◌, ◌-◌, ◌*◌, ◌/◌, ◌%◌, ◌^◌, Bool, ◌||◌, List, [], ◌∷◌, Option, none, some, ltb, ◌==◌,
  if◌then◌else◌, ◌>>=◌,
}

abbrev pub arena_align : ℕ
arena_align = 16

abbrev pub default_block : ℕ
default_block = 16 * 1024

-- `sizeof(ntc_arena_block)`, with pointers of 8 bytes.
abbrev pub block_header : ℕ
block_header = 32

pub record Block : Type 0 where
  pub data_ptr : ℕ
  pub cap : ℕ
  pub off : ℕ

-- The blocks with the current one first; there are none in a destroyed arena. `first` is the last
-- element of the list.
pub record Arena : Type 0 where
  pub blocks : List Block
  pub block_size : ℕ

unfoldable pub block_new : Option ℕ → ℕ → Option Block
block_new malloc cap =
    if ltb (2 ^ 64 - 1 - block_header) cap
    then none
    else malloc >>= λ p. some (record { data_ptr = p; cap = cap; off = 0 })

-- `(n + (a - 1)) & ~(a - 1)` for a = 16.
unfoldable pub align_up : ℕ → ℕ
align_up n = (n + 15) % 2 ^ 64 / 16 * 16

-- `none` is NTC_ERR_OOM.
unfoldable pub arena_init : Option ℕ → ℕ → Option Arena
arena_init malloc block_size =
    let size = if block_size == 0 then default_block else block_size in
    block_new malloc size >>= λ b. some (record { blocks = b ∷ []; block_size = size })

-- The address that a block gives next, and how far behind `data` it is.
unfoldable pub next_ptr : Block → ℕ
next_ptr b = align_up (b.data_ptr + b.off)

unfoldable pub next_off : Block → ℕ
next_off b = (next_ptr b + 2 ^ 64 - b.data_ptr) % 2 ^ 64

-- `new_off > b->cap || size > b->cap - new_off`.
unfoldable pub full : Block → ℕ → Bool
full b size = ltb b.cap (next_off b) || ltb (b.cap - next_off b) size

unfoldable pub bump : Block → ℕ → Block
bump b size = record b { off = next_off b + size }

-- `cap` of the block that is added.
abbrev pub grow_size : Arena → ℕ → ℕ
grow_size a size = if ltb a.block_size (size + 15) then size + 15 else a.block_size

-- The branch that grows the arena by a block.
unfoldable pub grow : Option ℕ → Arena → ℕ → Option ℕ × Arena
grow malloc a size = elim (block_new malloc (grow_size a size)) [
  | none ↦ (none, a)
  | some nb ↦ (some (next_ptr nb), record a { blocks = bump nb size ∷ a.blocks })
]

unfoldable pub alloc_in : Option ℕ → Arena → List Block → ℕ → Option ℕ × Arena
alloc_in malloc a [] size = (none, a)
alloc_in malloc a (b ∷ bs) size =
    if full b size
    then grow malloc a size
    else (some (next_ptr b), record a { blocks = bump b size ∷ bs })

unfoldable pub arena_alloc : Option ℕ → Arena → ℕ → Option ℕ × Arena
arena_alloc malloc a size =
    let n = if size == 0 then 1 else size in
    if ltb (2 ^ 64 - 1 - (arena_align - 1)) n then (none, a) else alloc_in malloc a a.blocks n

-- `a->first`.
unfoldable pub first_block : List Block → List Block
first_block [] = []
first_block (b ∷ []) = b ∷ []
first_block (b ∷ c ∷ bs) = first_block (c ∷ bs)

unfoldable pub rewind : List Block → List Block
rewind [] = []
rewind (b ∷ bs) = record b { off = 0 } ∷ bs

unfoldable pub arena_reset : Arena → Arena
arena_reset a = record a { blocks = rewind (first_block a.blocks) }

unfoldable pub arena_destroy : Arena → Arena
arena_destroy a = record { blocks = []; block_size = 0 }

unfoldable pub used_in : List Block → ℕ
used_in [] = 0
used_in (b ∷ bs) = b.off + used_in bs

unfoldable pub arena_used : Arena → ℕ
arena_used a = used_in a.blocks

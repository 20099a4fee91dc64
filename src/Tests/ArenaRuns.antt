-- ===== src/Tests/ArenaRuns.antt =====
-- Runs of the arena.
use naitron_c.Prelude.{[], ◌∷◌, some, arith, some-inj}
use naitron_c.Arena.Blocks.{Arena, arena_alloc}
use naitron_c.Arena.BlockLaws.{IsArena, AllocOutcome, Granted, taken, arena_alloc-AllocOutcome}

-- Ten bytes are used of one block of 64.
abbrev small_arena : Arena
small_arena = record {
  blocks = record { data_ptr = 4096; cap = 64; off = 10 } ∷ [];
  block_size = 64;
}

small_arena-IsArena : IsArena small_arena
small_arena-IsArena = ((omega arith, omega arith), tt)

granted : Granted small_arena (taken 60) (some 8192)
granted p e = omega (arith, some-inj e)

arena_alloc-AllocOutcome_example :
    AllocOutcome small_arena 60 (arena_alloc (some 8192) small_arena 60)
    × IsArena (arena_alloc (some 8192) small_arena 60).1
arena_alloc-AllocOutcome_example =
    arena_alloc-AllocOutcome (some 8192) small_arena 60 small_arena-IsArena granted

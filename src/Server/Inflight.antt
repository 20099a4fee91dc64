-- ===== src/Server/Inflight.antt =====
-- The table of requests in flight in src/core/server.c. A connection is a value of the type `C`; the
-- stack `free_slots[0 .. free_top)` is a list with its top first.
use naitron_c.Prelude.{
  ℕ, zero, suc, ◌+◌, ◌*◌, ◌/◌, ◌%◌, ◌^◌, List, [], ◌∷◌, Option, none, some, ◌==◌, ◌!=◌,
  if◌then◌else◌, ◌>>=◌,
}

abbrev pub inflight_bits : ℕ
inflight_bits = 12

abbrev pub max_inflight : ℕ
max_inflight = 4096

pub record Gateway (C : Type 0) : Type 0 where
  pub pending : ℕ → Option C
  pub gen : ℕ → ℕ
  pub free_slots : List ℕ

abbrev pub set {ℓ} : {A : Type ℓ} → (ℕ → A) → ℕ → A → ℕ → A
set f i v j = if j == i then v else f j

-- The slots below `n`, the last one on top.
unfoldable pub slots_below : ℕ → List ℕ
slots_below zero = []
slots_below (suc n) = n ∷ slots_below n

module _ {C : Type 0} where
  -- The gateway starts zeroed.
  unfoldable pub slots_init : Gateway C
  slots_init = record { pending = λ i. none; gen = λ i. 0; free_slots = slots_below max_inflight }

  unfoldable pub alloc_slot : Gateway C → C → ℕ → List ℕ → ℕ × Gateway C
  alloc_slot g c slot rest = (
    g.gen slot % 2 ^ 20 * 2 ^ inflight_bits + slot,
    record g { pending = set g.pending slot (some c); free_slots = rest },
  )

  unfoldable pub alloc_from : Gateway C → C → List ℕ → Option (ℕ × Gateway C)
  alloc_from g c [] = none
  alloc_from g c (slot ∷ rest) = some (alloc_slot g c slot rest)

  -- `gw_alloc_id`; `none` is the result -1.
  unfoldable pub alloc_id : Gateway C → C → Option (ℕ × Gateway C)
  alloc_id g c = alloc_from g c g.free_slots

  unfoldable pub free_slot : Gateway C → ℕ → Gateway C
  free_slot g slot = record {
    pending = set g.pending slot none;
    gen = set g.gen slot ((g.gen slot + 1) % 2 ^ 32);
    free_slots = slot ∷ g.free_slots;
  }

  -- `gw_conn_for_id`.
  unfoldable pub conn_for_id : Gateway C → ℕ → Option C
  conn_for_id g id = g.pending (id % max_inflight) >>= λ c.
      if g.gen (id % max_inflight) % 2 ^ 20 != id / max_inflight then none else some c

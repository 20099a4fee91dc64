-- ===== src/Tests/SessionRuns.antt =====
-- Runs of the key/value store.
use naitron_c.Prelude.{
  ℕ, true, List, [], ◌∷◌, none, some, Bytes, ◌≡◌, refl, ◌≢◌, ◌⊎◌, arith, pos, codes,
}
use mathlib.Core.Path.{subst}
use naitron_c.Slice.{mem_equal}
use naitron_c.Session.Slots.{peek, uses, Full, Soonest, Slot}
use naitron_c.Session.StoreLaws.{new_entry, peek-kv_put, kv_put-others}
use naitron_c.Session.Reached.{
  KvStep, Reachable, start, step, IsStore, Reachable-IsStore, kv_del_lem,
}
use naitron_c.Session.Gets.{GetOutcome, kv_get-GetOutcome}
use naitron_c.Session.Store.{
  KvEntry, calloc, kv_new, holds, find_from, kv_find, next_victim, free_slot, set_entry, put_slot,
  write_slot, kv_put, kv_get, kv_del,
}

-- A store of two slots that is full.
abbrev two_keys : List KvEntry
two_keys =
    new_entry (codes "a") (codes "1") (pos 1000) ∷ new_entry (codes "b") (codes "2") (pos 2000) ∷ []

evicted :
    kv_put two_keys (codes "c") (codes "3") (pos 3000)
    ≡ new_entry (codes "c") (codes "3") (pos 3000)
      ∷ new_entry (codes "b") (codes "2") (pos 2000)
      ∷ []
unfolding kv_put put_slot kv_find find_from holds free_slot next_victim write_slot set_entry
    mem_equal
evicted = refl

filled :
    kv_put (kv_put (kv_new 2) (codes "a") (codes "1") (pos 1000)) (codes "b") (codes "2") (pos 2000)
    ≡ two_keys
unfolding kv_put put_slot kv_find find_from holds free_slot next_victim write_slot set_entry
    mem_equal kv_new calloc
filled = refl

two_keys-Reachable : Reachable 2 two_keys
two_keys-Reachable =
    subst (Reachable 2) filled (step (step start (KvStep.put _ _ _)) (KvStep.put _ _ _))

Reachable-IsStore_example : IsStore 2 two_keys
Reachable-IsStore_example = Reachable-IsStore 2 two_keys two_keys-Reachable

peek-kv_put_example :
    peek (codes "c") (kv_put two_keys (codes "c") (codes "3") (pos 3000))
    ≡ some (new_entry (codes "c") (codes "3") (pos 3000))
peek-kv_put_example =
    peek-kv_put two_keys (codes "c") (codes "3") (pos 3000) (λ e. ground (arith, e)) (omega arith)
      (omega arith)

kv_put-others_example :
    (peek (codes "a") (kv_put two_keys (codes "c") (codes "3") (pos 3000))
      ≡ peek (codes "a") two_keys)
    ⊎ ((uses (codes "c") two_keys ≡ 0)
        × Full two_keys
        × (j : ℕ) × (s : Slot 0 two_keys j) × (holds (codes "a") s.entry ≡ true)
        × Soonest two_keys s.entry)
kv_put-others_example =
    kv_put-others two_keys (codes "c") (codes "3") (pos 3000) (codes "a") (λ e. ground (arith, e))
      (omega arith) (omega arith) (λ e. ground (arith, e))

kv_get-GetOutcome_example :
    GetOutcome two_keys (codes "a") (pos 1000) 64 (kv_get two_keys (codes "a") (pos 1000) 64)
kv_get-GetOutcome_example = kv_get-GetOutcome two_keys (codes "a") (pos 1000) 64

kv_del_lem_example :
    (peek (codes "a") (kv_del two_keys (codes "a")) ≡ none)
    × ((other : Bytes)
        → other ≢ codes "a"
        → peek other (kv_del two_keys (codes "a")) ≡ peek other two_keys)
kv_del_lem_example = kv_del_lem 2 two_keys (codes "a") two_keys-Reachable

-- ===== src/Session/Store.antt =====
-- The key/value store of src/core/session.c. A C string is the list of its bytes before the NUL,
-- and the array `e` is a list of `cap` entries.
use naitron_c.Prelude.{
  ℕ, zero, suc, ◌+◌, ◌-◌, Bool, not, ◌||◌, ◌&&◌, List, [], ◌∷◌, Option, none, some, leb, ◌==◌,
  if◌then◌else◌, Bytes, length, take, ◌>>=◌, ℤ, pos, ltb_int, leb_int, is_zero,
}
use naitron_c.Slice.{mem_equal}

abbrev pub kv_keylen : ℕ
kv_keylen = 96

abbrev pub kv_vallen : ℕ
kv_vallen = 1024

pub record KvEntry : Type 0 where
  pub key : Bytes
  pub val : Bytes
  pub expiry : ℤ

-- `calloc` of one entry.
abbrev pub no_entry : KvEntry
no_entry = record { key = []; val = []; expiry = pos 0 }

unfoldable pub calloc : ℕ → List KvEntry
calloc zero = []
calloc (suc n) = no_entry ∷ calloc n

-- `ntc_kv_new`, when the allocations succeed.
unfoldable pub kv_new : ℕ → List KvEntry
unfolding calloc
kv_new cap = calloc (if cap == 0 then 1024 else cap)

-- The test of `kv_find` on one entry.
unfoldable pub holds : Bytes → KvEntry → Bool
holds key e = not (is_zero e.expiry) && mem_equal e.key key

unfoldable pub find_from : ℕ → List KvEntry → Bytes → Option ℕ
unfolding holds
find_from i [] key = none
find_from i (e ∷ es) key =
    let rest = find_from (i + 1) es key in if holds key e then some i else rest

unfoldable pub kv_find : List KvEntry → Bytes → Option ℕ
unfolding find_from
kv_find es key = find_from 0 es key

-- `!victim || kv->e[i].expiry < victim->expiry`; a victim is kept with its index.
unfoldable pub next_victim : ℕ → KvEntry → Option (ℕ × ℤ) → Option (ℕ × ℤ)
next_victim i e none = some (i, e.expiry)
next_victim i e (some (j, t)) = if ltb_int e.expiry t then some (i, e.expiry) else some (j, t)

-- The loop for the first empty slot, with `slot = victim` behind it.
unfoldable pub free_slot : ℕ → List KvEntry → Option (ℕ × ℤ) → Option ℕ
unfolding next_victim
free_slot i [] victim = victim >>= λ v. some v.0
free_slot i (e ∷ es) victim =
    let rest = free_slot (i + 1) es (next_victim i e victim) in
    if is_zero e.expiry then some i else rest

unfoldable pub set_entry : ℕ → KvEntry → List KvEntry → List KvEntry
set_entry i new [] = []
set_entry zero new (e ∷ es) = new ∷ es
set_entry (suc i) new (e ∷ es) = e ∷ set_entry i new es

-- The slot that a put writes: the one of the key, or a free one.
unfoldable pub put_slot : List KvEntry → Bytes → Option ℕ
unfolding kv_find free_slot
put_slot es key = elim (kv_find es key) [ some i ↦ some i | none ↦ free_slot 0 es none ]

-- `expiry ? expiry : 1`.
abbrev pub stored_expiry : ℤ → ℤ
stored_expiry t = if is_zero t then pos 1 else t

unfoldable pub write_slot : Option ℕ → KvEntry → List KvEntry → List KvEntry
unfolding set_entry
write_slot none new es = es
write_slot (some i) new es = set_entry i new es

unfoldable pub kv_put : List KvEntry → Bytes → Bytes → ℤ → List KvEntry
unfolding put_slot write_slot
kv_put es key val expiry =
    if leb kv_keylen (length key) || leb kv_vallen (length val)
    then es
    else write_slot (put_slot es key)
        (record { key = key; val = val; expiry = stored_expiry expiry }) es

unfoldable pub entry_at : ℕ → List KvEntry → KvEntry
entry_at i [] = no_entry
entry_at zero (e ∷ es) = e
entry_at (suc i) (e ∷ es) = entry_at i es

-- `now > 0 && slot->expiry <= now`.
unfoldable pub expired : ℤ → KvEntry → Bool
expired now e = ltb_int (pos 0) now && leb_int e.expiry now

-- `ntc_kv_get`: `none` is the result false; a value is what `out` of `cap` bytes holds.
unfoldable pub kv_get : List KvEntry → Bytes → ℤ → ℕ → Option Bytes × List KvEntry
unfolding kv_find entry_at expired set_entry
kv_get es key now cap = elim (kv_find es key) [
  | none ↦ (none, es)
  | some i ↦
      let e = entry_at i es in
      if expired now e
      then (none, set_entry i (record e { expiry = pos 0 }) es)
      else (some (take (cap - 1) e.val), es)
]

unfoldable pub kv_del : List KvEntry → Bytes → List KvEntry
unfolding kv_find set_entry
kv_del es key = elim (kv_find es key) [ none ↦ es | some i ↦ set_entry i no_entry es ]

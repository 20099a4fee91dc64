-- ===== src/Session/Gets.antt =====
-- What a get of src/core/session.c finds, on all its branches.
use naitron_c.Prelude.{
  ℕ, ◌-◌, true, false, ◌&&◌, List, [], ◌∷◌, ◌++◌, Option, none, some, Bytes, take, ◌≡◌, ◌≢◌, inl,
  inr, arith, Bool-cases, Option-cases, All, &&_parts, ℤ, pos, ltb_int, leb_int, is_zero_iff,
  InTime, clock_iff,
}
use naitron_c.Slice.Laws.{mem_equal_iff}
use naitron_c.Session.Slots.{uses, Slot, set_entry-Slot, entry_at-Slot}
use naitron_c.Session.StoreLaws.{holds_key, kv_find-none, kv_find-some}
use naitron_c.Session.Store.{KvEntry, holds, kv_find, kv_get, expired}

-- An entry of the key that is not empty, and the three ends of a get.
pub data GetOutcome (es : List KvEntry) (key : Bytes) (now : ℤ) (cap : ℕ)
    : Option Bytes × List KvEntry → Type 0 where
  found :
      {j : ℕ} (s : Slot 0 es j)
      → s.entry.key ≡ key
      → s.entry.expiry ≢ pos 0
      → InTime now s.entry.expiry
      → GetOutcome es key now cap (some (take (cap - 1) s.entry.val), es)
  over :
      {j : ℕ} (s : Slot 0 es j)
      → s.entry.key ≡ key
      → s.entry.expiry ≢ pos 0
      → ltb_int (pos 0) now ≡ true
      → leb_int s.entry.expiry now ≡ true
      → GetOutcome es key now cap (none, s.before ++ (record s.entry { expiry = pos 0 } ∷ s.after))
  missing : All (λ e. e.key ≡ key → e.expiry ≡ pos 0) es → GetOutcome es key now cap (none, es)

holds-live : (key : Bytes) (e : KvEntry) → holds key e ≡ true → e.expiry ≢ pos 0
unfolding holds
holds-live key e h z = absurd (ground (arith, h, (is_zero_iff e.expiry).1 z))

not_held : (key : Bytes) (e : KvEntry) → holds key e ≡ false → e.key ≡ key → e.expiry ≡ pos 0
unfolding holds
not_held key e h k = (is_zero_iff e.expiry).0 (ground (arith, h, (mem_equal_iff e.key key).1 k))

unused-missing :
    (key : Bytes) (es : List KvEntry)
    → uses key es ≡ 0
    → All (λ e. e.key ≡ key → e.expiry ≡ pos 0) es
unfolding uses
unused-missing key [] h = tt
unused-missing key (e ∷ es) h = elim (Bool-cases (holds key e)) [
  | inl y ↦ absurd (ground (arith, h, y))
  | inr n ↦ (not_held key e n, unused-missing key es (ground (arith, h, n)))
]

-- A get ends in one of three ways. It finds an entry of the key that is not empty, and the time is
-- before its expiry or is not above 0: the result is its value, cut to the buffer, and the store is as
-- before. Or it finds one that is not empty, whose expiry is at or before a time that is above 0: there
-- is no result, and the entry is emptied.
-- Or no entry of the key is live, there is no result and the store is as before.
pub kv_get-GetOutcome :
    (es : List KvEntry) (key : Bytes) (now : ℤ) (cap : ℕ)
    → GetOutcome es key now cap (kv_get es key now cap)
unfolding kv_get expired
kv_get-GetOutcome es key now cap = elim (Option-cases (kv_find es key)) [
  | inl n ↦ rw (n, kv_get) (missing (unused-missing key es (kv_find-none es key n)))
  | inr (j, p) ↦
      let (s, h, first) = kv_find-some es key j p in
      let same = holds_key key s.entry h in
      let live = holds-live key s.entry h in
      rw (p, kv_get, entry_at-Slot es j s)
        (elim (Bool-cases (ltb_int (pos 0) now && leb_int s.entry.expiry now)) [
          | inl x ↦
              let (runs, late) = &&_parts (ltb_int (pos 0) now) _ x in
              rw (x, set_entry-Slot es j s (record s.entry { expiry = pos 0 }))
                (over s same live runs late)
          | inr x ↦ rw x (found s same live ((clock_iff now s.entry.expiry).0 x))
        ])
]

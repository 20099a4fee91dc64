-- ===== src/Session/StoreLaws.antt =====
-- The key/value store of src/core/session.c as a map from keys to entries.
use naitron_c.Prelude.{
  ℕ, zero, suc, ◌+◌, ◌<◌, Bool, true, false, not, List, [], ◌∷◌, ◌++◌, none, some, Bytes, length,
  ◌≡◌, refl, sym, ap, ◌∙◌, ◌≢◌, ◌⊎◌, inl, inr, arith, Bool-cases, Option-cases, &&_parts,
  lt→leb_false, ℤ, pos, negsuc, is_zero,
}
use naitron_c.Slice.Laws.{mem_equal_iff}
use naitron_c.Session.Slots.{
  one_if, peek, uses, Slot, Full, Soonest, find_from-none, find_from-some, free_slot_lem,
  free_slot-some, set_entry-Slot,
}
use naitron_c.Session.Store.{
  KvEntry, holds, kv_find, free_slot, put_slot, write_slot, kv_put, stored_expiry, kv_keylen,
  kv_vallen,
}

pub bool_clash : (b : Bool) → b ≡ true → b ≡ false → ⊥
bool_clash b p q = ground arith

uses-append : (key : Bytes) (xs ys : List KvEntry) → uses key (xs ++ ys) ≡ uses key xs + uses key ys
unfolding uses
uses-append key [] ys = omega arith
uses-append key (x ∷ xs) ys = omega (arith, uses-append key xs ys)

pub peek-append :
    (key : Bytes) (xs ys : List KvEntry) → uses key xs ≡ 0 → peek key (xs ++ ys) ≡ peek key ys
unfolding peek uses
peek-append key [] ys h = refl
peek-append key (x ∷ xs) ys h = ground (arith, peek-append key xs ys)

-- Replacing an entry by another is not seen by a key that neither of them holds.
pub peek-other :
    (key : Bytes) (xs ys : List KvEntry) (e new : KvEntry)
    → holds key e ≡ false
    → holds key new ≡ false
    → peek key (xs ++ (new ∷ ys)) ≡ peek key (xs ++ (e ∷ ys))
unfolding peek
peek-other key [] ys e new p q = rw (p, q) refl
peek-other key (x ∷ xs) ys e new p q = rw (peek-other key xs ys e new p q) refl

-- What a put does to the array: it replaces one entry.
pub record Written (es : List KvEntry) (key : Bytes) (new : KvEntry) (es' : List KvEntry)
    : Type 0 where
  pub slot : (j : ℕ) × Slot 0 es j
  pub result : es' ≡ slot.1.before ++ (new ∷ slot.1.after)
  pub reason :
      ((holds key slot.1.entry ≡ true) × (uses key slot.1.before ≡ 0))
      ⊎ ((uses key es ≡ 0)
          × ((is_zero slot.1.entry.expiry ≡ true) ⊎ (Full es × Soonest es slot.1.entry)))

abbrev pub new_entry : Bytes → Bytes → ℤ → KvEntry
new_entry key val t = record { key = key; val = val; expiry = stored_expiry t }

put_slot-found :
    (es : List KvEntry) (key : Bytes) (j : ℕ) → kv_find es key ≡ some j → put_slot es key ≡ some j
unfolding put_slot
put_slot-found es key j p = rw (p, put_slot) refl

put_slot-new :
    (es : List KvEntry) (key : Bytes)
    → kv_find es key ≡ none
    → put_slot es key ≡ free_slot 0 es none
unfolding put_slot
put_slot-new es key p = rw (p, put_slot) refl

pub kv_find-none : (es : List KvEntry) (key : Bytes) → kv_find es key ≡ none → uses key es ≡ 0
unfolding kv_find
kv_find-none es key h = find_from-none 0 es key h

pub kv_find-some :
    (es : List KvEntry) (key : Bytes) (j : ℕ)
    → kv_find es key ≡ some j
    → (s : Slot 0 es j) × (holds key s.entry ≡ true) × (uses key s.before ≡ 0)
unfolding kv_find
kv_find-some es key j h = find_from-some 0 es key j h

write-Written :
    (es : List KvEntry) (key : Bytes) (new : KvEntry)
    → length es ≢ 0
    → Written es key new (write_slot (put_slot es key) new es)
unfolding write_slot
write-Written [] key new h = absurd (h refl)
write-Written (e ∷ es) key new h = elim (Option-cases (kv_find (e ∷ es) key)) [
  | inl n ↦
      let f = free_slot-some e es in
      let r = free_slot_lem (e ∷ es) f.0 f.1 in
      rw (put_slot-new (e ∷ es) key n, f.1)
        (record {
          slot = (f.0, r.0);
          result = set_entry-Slot (e ∷ es) f.0 r.0 new;
          reason = inr (kv_find-none (e ∷ es) key n, r.1);
        })
  | inr (j, p) ↦
      let r = kv_find-some (e ∷ es) key j p in
      rw (put_slot-found (e ∷ es) key j p) (record {
        slot = (j, r.0);
        result = set_entry-Slot (e ∷ es) j r.0 new;
        reason = inl (r.1, r.2);
      })
]

pub kv_put-Written :
    (es : List KvEntry) (key val : Bytes) (t : ℤ)
    → length es ≢ 0
    → length key < kv_keylen
    → length val < kv_vallen
    → Written es key (new_entry key val t) (kv_put es key val t)
unfolding kv_put
kv_put-Written es key val t h hk hv =
    rw (lt→leb_false kv_keylen (length key) hk, lt→leb_false kv_vallen (length val) hv)
      (write-Written es key (new_entry key val t) h)

pub uses-split :
    (k : Bytes) (xs ys : List KvEntry) (e : KvEntry)
    → uses k (xs ++ (e ∷ ys)) ≡ uses k xs + (one_if (holds k e) + uses k ys)
unfolding uses
uses-split k xs ys e = uses-append k xs (e ∷ ys)

stored_expiry-live : (t : ℤ) → is_zero (stored_expiry t) ≡ false
stored_expiry-live (pos zero) = refl
stored_expiry-live (pos (suc n)) = refl
stored_expiry-live (negsuc n) = refl

pub holds-new_entry : (key val : Bytes) (t : ℤ) → holds key (new_entry key val t) ≡ true
unfolding holds
holds-new_entry key val t = rw (stored_expiry-live t) ((mem_equal_iff key key).1 refl)

-- A key that the new entry holds is its key.
pub holds_key : (k : Bytes) (e : KvEntry) → holds k e ≡ true → e.key ≡ k
unfolding holds
holds_key k e h = (mem_equal_iff e.key k).0 (&&_parts (not (is_zero e.expiry)) _ h).1

pub empty-holds : (k : Bytes) (e : KvEntry) → is_zero e.expiry ≡ true → holds k e ≡ false
unfolding holds
empty-holds k e z = rw z refl

unused_before :
    {es es' : List KvEntry} {key : Bytes} {new : KvEntry} (w : Written es key new es')
    → uses key w.slot.1.before ≡ 0
unused_before {es = es} {key = key} w = elim w.reason [
  | inl (h, u) ↦ u
  | inr (u, c) ↦
      let s = w.slot.1 in
      omega (arith, ap (uses key) s.splits, uses-split key s.before s.after s.entry, u)
]

-- A value that fits is found under its key behind the put, whatever the store held.
pub peek-kv_put :
    (es : List KvEntry) (key val : Bytes) (t : ℤ)
    → length es ≢ 0
    → length key < kv_keylen
    → length val < kv_vallen
    → peek key (kv_put es key val t) ≡ some (new_entry key val t)
unfolding peek
peek-kv_put es key val t h hk hv =
    let w = kv_put-Written es key val t h hk hv in
    let s = w.slot.1 in
    rw w.result (
      peek-append key s.before (new_entry key val t ∷ s.after) (unused_before w)
      ∙ rw (holds-new_entry key val t) refl)

-- A put costs another key its entry only when the store is full and does not hold the key that is
-- put; the entry that is lost is then one of those that are soonest to expire.
pub kv_put-others :
    (es : List KvEntry) (key val : Bytes) (t : ℤ) (other : Bytes)
    → length es ≢ 0
    → length key < kv_keylen
    → length val < kv_vallen
    → other ≢ key
    → (peek other (kv_put es key val t) ≡ peek other es)
      ⊎ ((uses key es ≡ 0)
          × Full es
          × (j : ℕ) × (s : Slot 0 es j) × (holds other s.entry ≡ true)
          × Soonest es s.entry)
kv_put-others es key val t other h hk hv ne =
    let w = kv_put-Written es key val t h hk hv in
    let s = w.slot.1 in
    elim (Bool-cases (holds other (new_entry key val t))) [
      | inl p ↦ absurd (ne (sym (holds_key other _ p)))
      | inr q ↦ elim (Bool-cases (holds other s.entry)) [
        | inr f ↦ inl (
            rw w.result (peek-other other s.before s.after s.entry (new_entry key val t) f q)
            ∙ sym (ap (peek other) s.splits))
        | inl p ↦ elim w.reason [
          | inl (k, u) ↦ absurd (ne (sym (holds_key other s.entry p) ∙ holds_key key s.entry k))
          | inr (u, inl z) ↦
              absurd (bool_clash (holds other s.entry) p (empty-holds other s.entry z))
          | inr (u, inr (full, soon)) ↦ inr (u, full, w.slot.0, s, p, soon)
        ]
      ]
    ]

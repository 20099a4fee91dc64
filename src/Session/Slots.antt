-- ===== src/Session/Slots.antt =====
-- Where the loops of the key/value store stop, as a split of the array at the slot.
use naitron_c.Prelude.{
  ℕ, ◌+◌, Bool, true, false, List, [], ◌∷◌, ◌++◌, Option, none, some, if◌then◌else◌, Bytes, length,
  ◌≡◌, refl, ap, ◌⊎◌, inl, inr, arith, Bool-cases, All, ℤ, ltb_int, leb_int, is_zero, leb_int_self,
  leb_int_trans, ltb_int-leb_int, ltb_int-true,
}
use native.Mathlib.Nat.{zero-add}
use naitron_c.Session.Store.{KvEntry, holds, find_from, next_victim, free_slot, set_entry, entry_at}

set_entry_at :
    (before after : List KvEntry) (e new : KvEntry)
    → set_entry (length before) new (before ++ (e ∷ after)) ≡ before ++ (new ∷ after)
unfolding set_entry
set_entry_at [] after e new = refl
set_entry_at (d ∷ before) after e new = ap (◌∷◌ d) (set_entry_at before after e new)

entry_at_split :
    (before after : List KvEntry) (e : KvEntry)
    → entry_at (length before) (before ++ (e ∷ after)) ≡ e
unfolding entry_at
entry_at_split [] after e = refl
entry_at_split (d ∷ before) after e = entry_at_split before after e

-- The abstract view of a store: the live entry of a key.
unfoldable pub peek : Bytes → List KvEntry → Option KvEntry
peek key [] = none
peek key (e ∷ es) = let rest = peek key es in if holds key e then some e else rest

abbrev pub one_if : Bool → ℕ
one_if true = 1
one_if false = 0

-- How many entries hold a key.
unfoldable pub uses : Bytes → List KvEntry → ℕ
uses key [] = 0
uses key (e ∷ es) = one_if (holds key e) + uses key es

abbrev pub Soonest : List KvEntry → KvEntry → Type 0
Soonest es e = All (λ d. leb_int e.expiry d.expiry ≡ true) es

abbrev pub Full : List KvEntry → Type 0
Full es = All (λ d. is_zero d.expiry ≡ false) es

-- An entry of a store, with the entries on both sides.
pub record Slot (i : ℕ) (es : List KvEntry) (j : ℕ) : Type 0 where
  pub before : List KvEntry
  pub after : List KvEntry
  pub entry : KvEntry
  pub splits : es ≡ before ++ (entry ∷ after)
  pub place : j ≡ i + length before

abbrev pub here : {i j : ℕ} {e : KvEntry} {es : List KvEntry} → i ≡ j → Slot i (e ∷ es) j
here {e = e} {es = es} p = record {
  before = [];
  after = es;
  entry = e;
  splits = refl;
  place = omega (arith, p);
}

abbrev pub later :
    {i j : ℕ} {es : List KvEntry} (e : KvEntry) → Slot (i + 1) es j → Slot i (e ∷ es) j
later e s = record {
  before = e ∷ s.before;
  after = s.after;
  entry = s.entry;
  splits = ap (◌∷◌ e) s.splits;
  place = omega (arith, s.place);
}

pub find_from-none :
    (i : ℕ) (es : List KvEntry) (key : Bytes) → find_from i es key ≡ none → uses key es ≡ 0
unfolding find_from uses
find_from-none i [] key h = refl
find_from-none i (e ∷ es) key h = ground (arith, find_from-none (i + 1) es key)

pub find_from-some :
    (i : ℕ) (es : List KvEntry) (key : Bytes) (j : ℕ)
    → find_from i es key ≡ some j
    → (s : Slot i es j) × (holds key s.entry ≡ true) × (uses key s.before ≡ 0)
unfolding find_from uses
find_from-some i [] key j h = ground arith
find_from-some i (e ∷ es) key j h = elim (Bool-cases (holds key e)) [
  | inl t ↦ (here (ground arith), t, refl)
  | inr f ↦
      let r = find_from-some (i + 1) es key j (ground arith) in
      (later e r.0, r.1, ground (arith, r.2))
]

-- What the loop for a free slot has found, when its victim so far is of the given expiry: an empty
-- entry, or in a full store an entry that is soonest to expire, as is the victim.
abbrev pub Freed : ℕ → List KvEntry → ℕ → Type 0
Freed i es j =
    (s : Slot i es j) × ((is_zero s.entry.expiry ≡ true) ⊎ (Full es × Soonest es s.entry))

abbrev Kept : List KvEntry → ℕ × ℤ → ℕ → Type 0
Kept es v j = (v.0 ≡ j) × Full es × All (λ d. leb_int v.1 d.expiry ≡ true) es

-- With a victim, an entry that replaces it is at least as soon.
abbrev Better : ℕ → List KvEntry → ℕ × ℤ → ℕ → Type 0
Better i es v j =
    (s : Slot i es j) × ((is_zero s.entry.expiry ≡ true)
      ⊎ ((leb_int s.entry.expiry v.1 ≡ true) × Full es × Soonest es s.entry))

free_slot-victim :
    (i : ℕ) (es : List KvEntry) (v : ℕ × ℤ) (j : ℕ)
    → free_slot i es (some v) ≡ some j
    → Better i es v j ⊎ Kept es v j
unfolding free_slot next_victim
free_slot-victim i [] v j h = inr (ground arith, tt, tt)
free_slot-victim i (e ∷ es) v j h = elim (Bool-cases (is_zero e.expiry)) [
  | inl z ↦ inl (here (ground arith), inl z)
  | inr f ↦ elim (Bool-cases (ltb_int e.expiry v.1)) [
    | inl lt ↦ elim (free_slot-victim (i + 1) es (i, e.expiry) j (ground arith)) [
      | inl (s, inl z) ↦ inl (later e s, inl z)
      | inl (s, inr (le, full, soon)) ↦ inl (
        later e s,
        inr (
          leb_int_trans s.entry.expiry e.expiry v.1 le (ltb_int-true _ v.1 lt),
          (f, full),
          (le, soon),
        ),
      )
      | inr (p, full, soon) ↦
          inl (here p, inr (ltb_int-true _ v.1 lt, (f, full), (leb_int_self e.expiry, soon)))
    ]
    | inr ge ↦ elim (free_slot-victim (i + 1) es v j (ground arith)) [
      | inl (s, inl z) ↦ inl (later e s, inl z)
      | inl (s, inr (le, full, soon)) ↦ inl (
        later e s,
        inr (
          le,
          (f, full),
          (leb_int_trans s.entry.expiry v.1 e.expiry le (ltb_int-leb_int _ v.1 ge), soon),
        ),
      )
      | inr (p, full, soon) ↦ inr (p, (f, full), (ltb_int-leb_int _ v.1 ge, soon))
    ]
  ]
]

pub free_slot_lem : (es : List KvEntry) (j : ℕ) → free_slot 0 es none ≡ some j → Freed 0 es j
unfolding free_slot next_victim
free_slot_lem [] j h = ground arith
free_slot_lem (e ∷ es) j h = elim (Bool-cases (is_zero e.expiry)) [
  | inl z ↦ (here (ground arith), inl z)
  | inr f ↦ elim (free_slot-victim 1 es (0, e.expiry) j (ground arith)) [
    | inl (s, inl z) ↦ (later e s, inl z)
    | inl (s, inr (le, full, soon)) ↦ (later e s, inr ((f, full), (le, soon)))
    | inr (p, full, soon) ↦ (here p, inr ((f, full), (leb_int_self e.expiry, soon)))
  ]
]

-- With a victim, or in a store that is not empty, some slot is free.
free_slot-victim-some :
    (i : ℕ) (es : List KvEntry) (v : ℕ × ℤ) → (j : ℕ) × (free_slot i es (some v) ≡ some j)
unfolding free_slot next_victim
free_slot-victim-some i [] v = (v.0, refl)
free_slot-victim-some i (e ∷ es) v = elim (Bool-cases (is_zero e.expiry)) [
  | inl z ↦ (i, ground arith)
  | inr f ↦ elim (Bool-cases (ltb_int e.expiry v.1)) [
    | inl lt ↦ let r = free_slot-victim-some (i + 1) es (i, e.expiry) in (r.0, rw (f, lt) r.1)
    | inr ge ↦ let r = free_slot-victim-some (i + 1) es v in (r.0, rw (f, ge) r.1)
  ]
]

pub free_slot-some :
    (e : KvEntry) (es : List KvEntry) → (j : ℕ) × (free_slot 0 (e ∷ es) none ≡ some j)
unfolding free_slot next_victim
free_slot-some e es = elim (Bool-cases (is_zero e.expiry)) [
  | inl z ↦ (0, ground arith)
  | inr f ↦ let r = free_slot-victim-some 1 es (0, e.expiry) in (r.0, rw f r.1)
]

-- Writing the slot.
pub set_entry-Slot :
    (es : List KvEntry) (j : ℕ) (s : Slot 0 es j) (new : KvEntry)
    → set_entry j new es ≡ s.before ++ (new ∷ s.after)
set_entry-Slot es j s new =
    rw (s.splits, s.place, zero-add) (set_entry_at s.before s.after s.entry new)

pub entry_at-Slot : (es : List KvEntry) (j : ℕ) (s : Slot 0 es j) → entry_at j es ≡ s.entry
entry_at-Slot es j s = rw (s.splits, s.place, zero-add) (entry_at_split s.before s.after s.entry)

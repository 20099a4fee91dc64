-- ===== src/Session/Reached.antt =====
-- The stores that the operations of src/core/session.c reach, and reading and deleting in them.
use naitron_c.Prelude.{
  ℕ, zero, suc, ◌+◌, ◌≤◌, Bool, true, false, ◌||◌, List, [], ◌∷◌, ◌++◌, none, leb, ◌==◌,
  if◌then◌else◌, Bytes, length, ◌≡◌, refl, sym, ap, ◌∙◌, ◌≢◌, ◌⊎◌, inl, inr, arith, Bool-cases,
  Option-cases, length-append, ℤ, pos, is_zero,
}
use mathlib.Core.Path.{subst}
use naitron_c.Session.Slots.{one_if, peek, uses, Slot, set_entry-Slot}
use naitron_c.Session.StoreLaws.{
  uses-split, holds_key, empty-holds, peek-other, kv_find-none, kv_find-some, kv_put-Written,
  Written, new_entry,
}
use naitron_c.Session.Store.{
  KvEntry, no_entry, calloc, kv_new, holds, kv_find, kv_put, entry_at, kv_keylen, kv_vallen, kv_get,
  expired, kv_del,
}

-- At most one entry for each key.
abbrev pub Distinct : List KvEntry → Type 0
Distinct es = (key : Bytes) → uses key es ≤ 1

pub data KvStep (es : List KvEntry) : List KvEntry → Type 0 where
  put : (key val : Bytes) (t : ℤ) → KvStep es (kv_put es key val t)
  get : (key : Bytes) (now : ℤ) (cap : ℕ) → KvStep es (kv_get es key now cap).1
  del : (key : Bytes) → KvStep es (kv_del es key)

pub data Reachable (cap : ℕ) : List KvEntry → Type 0 where
  start : Reachable cap (kv_new cap)
  step : {es es' : List KvEntry} → Reachable cap es → KvStep es es' → Reachable cap es'

abbrev pub IsStore : ℕ → List KvEntry → Type 0
IsStore cap es = Distinct es × (length es ≡ (if cap == 0 then 1024 else cap))

-- An entry is emptied, or nothing changes.
abbrev Cleared : List KvEntry → List KvEntry → Type 0
Cleared es es' =
    (es' ≡ es)
    ⊎ ((j : ℕ) × (s : Slot 0 es j) × (e : KvEntry) × (is_zero e.expiry ≡ true)
        × (es' ≡ s.before ++ (e ∷ s.after)))

kv_get-Cleared :
    (es : List KvEntry) (key : Bytes) (now : ℤ) (cap : ℕ) → Cleared es (kv_get es key now cap).1
unfolding kv_get
kv_get-Cleared es key now cap = elim (Option-cases (kv_find es key)) [
  | inl n ↦ inl (rw (n, kv_get) refl)
  | inr (j, p) ↦
      let r = kv_find-some es key j p in
      elim (Bool-cases (expired now (entry_at j es))) [
        | inl x ↦ inr (
          j,
          r.0,
          record (entry_at j es) { expiry = pos 0 },
          refl,
          rw (p, kv_get, x) (set_entry-Slot es j r.0 _),
        )
        | inr x ↦ inl (rw (p, kv_get, x) refl)
      ]
]

kv_del-Cleared : (es : List KvEntry) (key : Bytes) → Cleared es (kv_del es key)
unfolding kv_del
kv_del-Cleared es key = elim (Option-cases (kv_find es key)) [
  | inl n ↦ inl (rw (n, kv_del) refl)
  | inr (j, p) ↦
      let r = kv_find-some es key j p in
      inr (j, r.0, no_entry, refl, rw (p, kv_del) (set_entry-Slot es j r.0 no_entry))
]

length_split :
    (b a : List KvEntry) (e e' : KvEntry) → length (b ++ (e ∷ a)) ≡ length (b ++ (e' ∷ a))
length_split b a e e' = omega (arith, length-append b (e ∷ a), length-append b (e' ∷ a))

replaced-IsStore :
    (cap : ℕ) (es : List KvEntry) (j : ℕ) (s : Slot 0 es j) (e : KvEntry)
    → IsStore cap es
    → ((k : Bytes) → uses k (s.before ++ (e ∷ s.after)) ≤ 1)
    → IsStore cap (s.before ++ (e ∷ s.after))
replaced-IsStore cap es j s e h d =
    (d, length_split s.before s.after e s.entry ∙ sym (ap length s.splits) ∙ h.1)

-- How often a key is used, when one entry is replaced.
uses-replaced :
    (k : Bytes) (es : List KvEntry) (j : ℕ) (s : Slot 0 es j) (e : KvEntry)
    → uses k es + one_if (holds k e) ≡ uses k (s.before ++ (e ∷ s.after)) + one_if (holds k s.entry)
uses-replaced k es j s e = omega (
  arith,
  ap (uses k) s.splits,
  uses-split k s.before s.after s.entry,
  uses-split k s.before s.after e,
)

counted : (k : Bytes) (e : KvEntry) (b : Bool) → holds k e ≡ b → one_if (holds k e) ≡ one_if b
counted k e b h = rw h refl

Cleared-IsStore :
    (cap : ℕ) (es es' : List KvEntry) → Cleared es es' → IsStore cap es → IsStore cap es'
Cleared-IsStore cap es es' (inl same) h = rw same h
Cleared-IsStore cap es es' (inr (j, s, e, z, p)) h = rw p (
    replaced-IsStore cap es j s e h
      (λ k. omega (arith, h.0 k, uses-replaced k es j s e, counted k e false (empty-holds k e z))))

-- The entry that a put replaces holds the key, or no entry does.
Written-uses :
    (es : List KvEntry) (key : Bytes) (new : KvEntry) (es' : List KvEntry)
    (w : Written es key new es')
    → Distinct es
    → uses key (w.slot.1.before ++ (new ∷ w.slot.1.after)) ≤ 1
Written-uses es key new es' w d = elim w.reason [
  | inl (h, u) ↦
      ground (
        arith,
        d key,
        uses-replaced key es w.slot.0 w.slot.1 new,
        counted key w.slot.1.entry true h,
      )
  | inr (u, c) ↦ ground (arith, u, uses-replaced key es w.slot.0 w.slot.1 new)
]

Written-IsStore :
    (cap : ℕ) (es : List KvEntry) (key val : Bytes) (t : ℤ) (es' : List KvEntry)
    → Written es key (new_entry key val t) es'
    → IsStore cap es
    → IsStore cap es'
Written-IsStore cap es key val t es' w h = rw w.result (
    replaced-IsStore cap es w.slot.0 w.slot.1 (new_entry key val t) h (λ k.
      elim (Bool-cases (holds k (new_entry key val t))) [
        | inl y ↦
            subst (λ x. uses x (w.slot.1.before ++ (new_entry key val t ∷ w.slot.1.after)) ≤ 1)
              (holds_key k _ y) (Written-uses es key _ es' w h.0)
        | inr n ↦ omega (
          arith,
          h.0 k,
          uses-replaced k es w.slot.0 w.slot.1 (new_entry key val t),
          counted k (new_entry key val t) false n,
        )
      ]))

kv_put-refused :
    (es : List KvEntry) (key val : Bytes) (t : ℤ)
    → (leb kv_keylen (length key) || leb kv_vallen (length val)) ≡ true
    → kv_put es key val t ≡ es
unfolding kv_put
kv_put-refused es key val t g = rw g refl

kv_put-IsStore :
    (cap : ℕ) (es : List KvEntry) (key val : Bytes) (t : ℤ)
    → IsStore cap es
    → IsStore cap (kv_put es key val t)
kv_put-IsStore cap es key val t h =
    elim (Bool-cases (leb kv_keylen (length key) || leb kv_vallen (length val))) [
      | inl g ↦ rw (kv_put-refused es key val t g) h
      | inr g ↦
          Written-IsStore cap es key val t _
            (kv_put-Written es key val t (λ e. ground (arith, h.1, e)) (ground arith)
              (ground arith))
            h
    ]

calloc-uses : (n : ℕ) (k : Bytes) → uses k (calloc n) ≡ 0
unfolding calloc uses
calloc-uses zero k = refl
calloc-uses (suc n) k =
    omega (arith, calloc-uses n k, counted k no_entry false (empty-holds k no_entry refl))

length-calloc : (n : ℕ) → length (calloc n) ≡ n
unfolding calloc
length-calloc zero = refl
length-calloc (suc n) = ap suc (length-calloc n)

-- Every store that puts, gets and deletes reach from a new one has at most one live entry for each
-- key, and as many slots as it was made with.
pub Reachable-IsStore : (cap : ℕ) (es : List KvEntry) → Reachable cap es → IsStore cap es
unfolding kv_new
Reachable-IsStore cap _ start = (
  λ k. omega (arith, calloc-uses (if cap == 0 then 1024 else cap) k),
  length-calloc (if cap == 0 then 1024 else cap),
)
Reachable-IsStore cap _ (step {es = es} r (put key val t)) =
    kv_put-IsStore cap es key val t (Reachable-IsStore cap es r)
Reachable-IsStore cap _ (step {es = es} r (get key now c)) =
    Cleared-IsStore cap es _ (kv_get-Cleared es key now c) (Reachable-IsStore cap es r)
Reachable-IsStore cap _ (step {es = es} r (del key)) =
    Cleared-IsStore cap es _ (kv_del-Cleared es key) (Reachable-IsStore cap es r)

peek_unused : (key : Bytes) (es : List KvEntry) → uses key es ≡ 0 → peek key es ≡ none
unfolding peek uses
peek_unused key [] h = refl
peek_unused key (e ∷ es) h = ground (arith, peek_unused key es)

-- Behind a delete the key is gone, and every other key has its entry as before.
pub kv_del_lem :
    (cap : ℕ) (es : List KvEntry) (key : Bytes)
    → Reachable cap es
    → (peek key (kv_del es key) ≡ none)
      × ((other : Bytes) → other ≢ key → peek other (kv_del es key) ≡ peek other es)
unfolding kv_del
kv_del_lem cap es key h = elim (Option-cases (kv_find es key)) [
  | inl n ↦ rw (n, kv_del) (peek_unused key es (kv_find-none es key n), λ other ne. refl)
  | inr (j, p) ↦
      let r = kv_find-some es key j p in
      let s = r.0 in
      rw (p, kv_del, set_entry-Slot es j s no_entry)
        (
          peek_unused key _ (
              omega (
                arith,
                (Reachable-IsStore cap es h).0 key,
                uses-replaced key es j s no_entry,
                counted key s.entry true r.1,
                counted key no_entry false (empty-holds key no_entry refl),
              )),
          λ other ne. elim (Bool-cases (holds other s.entry)) [
            | inl y ↦ absurd (ne (sym (holds_key other s.entry y) ∙ holds_key key s.entry r.1))
            | inr f ↦
                peek-other other s.before s.after s.entry no_entry f
                  (empty-holds other no_entry refl)
                ∙ sym (ap (peek other) s.splits)
          ],
        )
]

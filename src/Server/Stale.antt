-- ===== src/Server/Stale.antt =====
-- The ids of requests in flight in src/core/server.c over time: which tables are reached, and which
-- connection an id gives.
use naitron_c.Server.InflightLaws.{
  self_eq, Absent, NoDup, count_free, count_free-bound, Idle, IsTable, alloc_slot-IsTable,
  free_slot-IsTable, set_hit, set_other,
}
use naitron_c.Server.Inflight.{
  max_inflight, Gateway, slots_below, slots_init, alloc_slot, alloc_from, alloc_id, free_slot,
  conn_for_id,
}
use mathlib.Core.Path.{subst}
use naitron_c.Prelude.{
  ℕ, zero, suc, ◌+◌, ◌*◌, ◌/◌, ◌%◌, ◌^◌, ◌≤◌, ◌<◌, false, List, [], ◌∷◌, none, some, ◌==◌, length,
  ◌≡◌, refl, sym, ap, ◌∙◌, ◌≢◌, inl, inr, arith, Bool-cases, Option-cases, All, ==_iff, some-inj,
  none-some,
}

Absent-below : (i n : ℕ) → n ≤ i → Absent i (slots_below n)
unfolding slots_below
Absent-below i zero h = tt
Absent-below i (suc n) h = (λ e. omega (arith, e), Absent-below i n (omega arith))

slots_below-NoDup : (n : ℕ) → NoDup (slots_below n)
unfolding slots_below
slots_below-NoDup zero = tt
slots_below-NoDup (suc n) = (Absent-below n n (omega arith), slots_below-NoDup n)

length-slots_below : (n : ℕ) → length (slots_below n) ≡ n
unfolding slots_below
length-slots_below zero = refl
length-slots_below (suc n) = ap suc (length-slots_below n)

All-Idle : (C : Type 0) (n : ℕ) → n ≤ max_inflight → All (Idle {C = C} (λ i. none)) (slots_below n)
unfolding slots_below
All-Idle C zero h = tt
All-Idle C (suc n) h = ((omega arith, refl), All-Idle C n (omega arith))

count_free-none : (C : Type 0) (n : ℕ) → count_free {C = C} (λ i. none) n ≡ n
unfolding count_free
count_free-none C zero = refl
count_free-none C (suc n) = omega (arith, count_free-none C n)

-- The parts of an id.
id_slot : (n slot : ℕ) → slot < 4096 → (n % 2 ^ 20 * 4096 + slot) % 4096 ≡ slot
id_slot n slot h = omega arith

id_gen : (n slot : ℕ) → slot < 4096 → (n % 2 ^ 20 * 4096 + slot) / 4096 ≡ n % 2 ^ 20
id_gen n slot h = omega arith

module _ {C : Type 0} where
  -- The tables that the gateway reaches. A slot is freed only while a connection waits in it.
  pub data Reachable : Gateway C → Type 0 where
    start : Reachable slots_init
    alloc :
        {g : Gateway C}
        → Reachable g
        → (c : C) (id : ℕ) (g' : Gateway C) → alloc_id g c ≡ some (id, g')
        → Reachable g'
    free :
        {g : Gateway C}
        → Reachable g
        → (slot : ℕ) (c : C) → slot < max_inflight
        → g.pending slot ≡ some c
        → Reachable (free_slot g slot)

  alloc_from-some :
      (g : Gateway C) (c : C) (fs : List ℕ) (id : ℕ) (g' : Gateway C)
      → alloc_from g c fs ≡ some (id, g')
      → (slot : ℕ) × (rest : List ℕ) × (fs ≡ slot ∷ rest) × (alloc_slot g c slot rest ≡ (id, g'))
  unfolding alloc_from
  alloc_from-some g c [] id g' h = absurd (none-some h)
  alloc_from-some g c (slot ∷ rest) id g' h = (slot, rest, refl, some-inj h)

  alloc_id-some :
      (g : Gateway C) (c : C) (id : ℕ) (g' : Gateway C)
      → alloc_id g c ≡ some (id, g')
      → (slot : ℕ) × (rest : List ℕ) × (g.free_slots ≡ slot ∷ rest)
        × (alloc_slot g c slot rest ≡ (id, g'))
  unfolding alloc_id
  alloc_id-some g c id g' h = alloc_from-some g c g.free_slots id g' h

  bounded : (g : Gateway C) → IsTable g → IsTable g × (length g.free_slots ≤ max_inflight)
  bounded g h = (h, omega (arith, h.complete, count_free-bound g.pending max_inflight))

  -- In every table that is reached, the stack of free slots holds each slot without a connection
  -- once, and nothing else; so it never holds more than 4096.
  pub Reachable-IsTable :
      (g : Gateway C) → Reachable g → IsTable g × (length g.free_slots ≤ max_inflight)
  unfolding slots_init
  Reachable-IsTable _ start = (
    record {
      idle = All-Idle C max_inflight (omega arith);
      once = slots_below-NoDup max_inflight;
      complete = length-slots_below max_inflight ∙ sym (count_free-none C max_inflight);
    },
    omega (arith, length-slots_below max_inflight),
  )
  Reachable-IsTable _ (alloc {g = g} r c id g' e) =
      let a = alloc_id-some g c id g' e in
      bounded g' (
        subst IsTable (ap (λ x. x.1) a.3)
          (alloc_slot-IsTable g c a.0 a.1 a.2 (Reachable-IsTable g r).0))
  Reachable-IsTable _ (free {g = g} r slot c lt e) =
      bounded (free_slot g slot) (free_slot-IsTable g slot c lt e (Reachable-IsTable g r).0)

  found_slot :
      (g : Gateway C) (c : C) (slot : ℕ) (rest : List ℕ)
      → slot < 4096
      → conn_for_id (alloc_slot g c slot rest).1 (alloc_slot g c slot rest).0 ≡ some c
  unfolding alloc_slot conn_for_id
  found_slot g c slot rest h =
      rw
        (
          id_slot (g.gen slot) slot h,
          id_gen (g.gen slot) slot h,
          set_hit g.pending slot slot (some c) (self_eq slot),
        )
        (rw (self_eq (g.gen slot % 2 ^ 20)) refl)

  -- What happens to the table while `n` frees of one slot take place.
  pub data Run (slot : ℕ) (g : Gateway C) : ℕ → Gateway C → Type 0 where
    stay : Run slot g 0 g
    give :
        {n : ℕ} {h : Gateway C}
        → Run slot g n h
        → (c : C) (s : ℕ) (rest : List ℕ) → Run slot g n (alloc_slot h c s rest).1
    free_this : {n : ℕ} {h : Gateway C} → Run slot g n h → Run slot g (suc n) (free_slot h slot)
    free_other :
        {n : ℕ} {h : Gateway C} → Run slot g n h → (s : ℕ) → s ≢ slot → Run slot g n (free_slot h s)

  gen-Run :
      (slot : ℕ) (g : Gateway C) (n : ℕ) (h : Gateway C)
      → g.gen slot < 2 ^ 32
      → Run slot g n h
      → h.gen slot ≡ (g.gen slot + n) % 2 ^ 32
  unfolding alloc_slot free_slot
  gen-Run slot g _ _ b stay = omega (arith, b)
  gen-Run slot g _ _ b (give {n = n} {h = h} r c s rest) = gen-Run slot g n h b r
  gen-Run slot g _ _ b (free_this {n = n} {h = h} r) =
      set_hit h.gen slot slot _ (self_eq slot) ∙ omega (arith, gen-Run slot g n h b r)
  gen-Run slot g _ _ b (free_other {n = n} {h = h} r s ne) =
      set_other h.gen s slot _ (λ e. ne (sym e)) ∙ gen-Run slot g n h b r

  -- An id that is given finds its connection.
  pub conn_for_id-alloc_id :
      (g : Gateway C) (c : C) (id : ℕ) (g' : Gateway C)
      → Reachable g
      → alloc_id g c ≡ some (id, g')
      → conn_for_id g' id ≡ some c
  conn_for_id-alloc_id g c id g' r e =
      let a = alloc_id-some g c id g' e in
      let idle = subst (All (Idle g.pending)) a.2 (Reachable-IsTable g r).0.idle in
      subst (λ x. conn_for_id x.1 x.0 ≡ some c) a.3 (found_slot g c a.0 a.1 idle.0.0)

  mismatch :
      (g : Gateway C) (id : ℕ)
      → (g.gen (id % 4096) % 2 ^ 20 == id / 4096) ≡ false
      → conn_for_id g id ≡ none
  unfolding conn_for_id
  mismatch g id f = elim (Option-cases (g.pending (id % 4096))) [
    | inl p ↦ rw p refl
    | inr (d, p) ↦ rw (p, f) refl
  ]

  matches :
      (g : Gateway C) (id : ℕ) (c : C)
      → conn_for_id g id ≡ some c
      → g.gen (id % 4096) % 2 ^ 20 ≡ id / 4096
  matches g id c h = elim (Bool-cases (g.gen (id % 4096) % 2 ^ 20 == id / 4096)) [
    | inl t ↦ (==_iff _ (id / 4096)).0 t
    | inr f ↦ absurd (none-some (sym (mismatch g id f) ∙ h))
  ]

  -- An id whose request is over finds no connection, whatever requests came in its slot since,
  -- until the slot was freed 2^20 times.
  pub conn_for_id-stale :
      (g h : Gateway C) (id n : ℕ) (c : C)
      → g.gen (id % max_inflight) < 2 ^ 32
      → conn_for_id g id ≡ some c
      → Run (id % max_inflight) g n h
      → 1 ≤ n
      → n < 2 ^ 20
      → conn_for_id h id ≡ none
  conn_for_id-stale g h id n c b e r one few =
      elim (Bool-cases (h.gen (id % 4096) % 2 ^ 20 == id / 4096)) [
        | inl t ↦ absurd (
            omega (
              arith,
              (==_iff (h.gen (id % 4096) % 2 ^ 20) (id / 4096)).0 t,
              matches g id c e,
              gen-Run (id % 4096) g n h b r,
              one,
              few,
              b,
            ))
        | inr f ↦ mismatch h id f
      ]

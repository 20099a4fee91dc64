-- ===== src/Server/InflightLaws.antt =====
-- The table of requests in flight in src/core/server.c: its invariant, and the ids it gives.
use mathlib.Core.Path.{subst}
use naitron_c.Server.Inflight.{max_inflight, Gateway, set, alloc_slot, free_slot}
use naitron_c.Prelude.{
  ℕ, zero, suc, ◌+◌, ◌≤◌, ◌<◌, true, List, [], ◌∷◌, Option, none, some, ◌==◌, length, ◌≡◌, refl,
  sym, ap, ◌∙◌, ◌≢◌, inl, inr, arith, Bool-cases, Option-cases, All, ==_iff, none-some,
}

abbrev pub Absent : ℕ → List ℕ → Type 0
Absent i [] = Unit
Absent i (j ∷ js) = (i ≢ j) × Absent i js

abbrev pub NoDup : List ℕ → Type 0
NoDup [] = Unit
NoDup (i ∷ is) = Absent i is × NoDup is

pub self_eq : (n : ℕ) → (n == n) ≡ true
self_eq n = (==_iff n n).1 refl

pub set_hit {ℓ} : {A : Type ℓ} (f : ℕ → A) (i j : ℕ) (v : A) → (j == i) ≡ true → set f i v j ≡ v
set_hit f i j v e = rw e refl

pub set_other {ℓ} : {A : Type ℓ} (f : ℕ → A) (i j : ℕ) (v : A) → j ≢ i → set f i v j ≡ f j
set_other f i j v h = elim (Bool-cases (j == i)) [
  | inl e ↦ absurd (h ((==_iff j i).0 e))
  | inr e ↦ rw e refl
]

module _ {C : Type 0} where
  abbrev pub one_free : Option C → ℕ
  one_free none = 1
  one_free (some c) = 0

  -- How many slots below `n` are not in use.
  unfoldable pub count_free : (ℕ → Option C) → ℕ → ℕ
  count_free f zero = 0
  count_free f (suc n) = one_free (f n) + count_free f n

  abbrev pub Idle : (ℕ → Option C) → ℕ → Type 0
  Idle f i = (i < max_inflight) × (f i ≡ none)

  -- The stack holds each slot that is not in use once, and no other slot.
  pub record IsTable (g : Gateway C) : Type 0 where
    pub idle : All (Idle g.pending) g.free_slots
    pub once : NoDup g.free_slots
    pub complete : length g.free_slots ≡ count_free g.pending max_inflight

  pub count_free-bound : (f : ℕ → Option C) (n : ℕ) → count_free f n ≤ n
  unfolding count_free
  count_free-bound f zero = omega arith
  count_free-bound f (suc n) = elim (Option-cases (f n)) [
    | inl e ↦ rw e (omega (arith, count_free-bound f n))
    | inr (c, e) ↦ rw e (omega (arith, count_free-bound f n))
  ]

  count_free-set_above :
      (f : ℕ → Option C) (i n : ℕ) (v : Option C)
      → n ≤ i
      → count_free (set f i v) n ≡ count_free f n
  unfolding count_free
  count_free-set_above f i zero v h = refl
  count_free-set_above f i (suc n) v h =
      rw (set_other f i n v (λ e. omega (arith, e)), count_free-set_above f i n v (omega arith))
        refl

  count_free-set :
      (f : ℕ → Option C) (i n : ℕ) (v : Option C)
      → i < n
      → count_free (set f i v) n + one_free (f i) ≡ count_free f n + one_free v
  unfolding count_free
  count_free-set f i zero v h = absurd (omega arith)
  count_free-set f i (suc n) v h = elim (Bool-cases (n == i)) [
    | inl e ↦
        let p = (==_iff n i).0 e in
        omega (
          arith,
          ap one_free (set_hit f i n v e),
          ap (λ k. one_free (f k)) p,
          count_free-set_above f i n v (omega (arith, p)),
        )
    | inr e ↦
        let other : n ≢ i = λ p. ground (arith, e, p) in
        omega
          (arith, ap one_free (set_other f i n v other), count_free-set f i n v (ground (arith, e)))
  ]

  All-mono-Absent :
      (f : ℕ → Option C) (i : ℕ) (v : Option C) (js : List ℕ)
      → Absent i js
      → All (Idle f) js
      → All (Idle (set f i v)) js
  All-mono-Absent f i v [] a h = tt
  All-mono-Absent f i v (j ∷ js) a h =
      ((h.0.0, set_other f i j v (λ e. a.0 (sym e)) ∙ h.0.1), All-mono-Absent f i v js a.1 h.1)

  busy-Absent :
      (f : ℕ → Option C) (i : ℕ) (c : C) (js : List ℕ)
      → f i ≡ some c
      → All (Idle f) js
      → Absent i js
  busy-Absent f i c [] e h = tt
  busy-Absent f i c (j ∷ js) e h =
      (λ p. none-some (sym h.0.1 ∙ sym (ap f p) ∙ e), busy-Absent f i c js e h.1)

  pub alloc_slot-IsTable :
      (g : Gateway C) (c : C) (slot : ℕ) (rest : List ℕ)
      → g.free_slots ≡ slot ∷ rest
      → IsTable g
      → IsTable (alloc_slot g c slot rest).1
  unfolding alloc_slot
  alloc_slot-IsTable g c slot rest e h =
      let idle = subst (All (Idle g.pending)) e h.idle in
      let once = subst NoDup e h.once in
      record {
        idle = All-mono-Absent g.pending slot (some c) rest once.0 idle.1;
        once = once.1;
        complete = omega (
          arith,
          h.complete,
          ap length e,
          ap one_free idle.0.1,
          count_free-set g.pending slot max_inflight (some c) idle.0.0,
        );
      }

  pub free_slot-IsTable :
      (g : Gateway C) (slot : ℕ) (c : C)
      → slot < max_inflight
      → g.pending slot ≡ some c
      → IsTable g
      → IsTable (free_slot g slot)
  unfolding free_slot
  free_slot-IsTable g slot c lt e h =
      let absent = busy-Absent g.pending slot c g.free_slots e h.idle in
      record {
        idle = (
          (lt, set_hit g.pending slot slot none (ground arith)),
          All-mono-Absent g.pending slot none g.free_slots absent h.idle,
        );
        once = (absent, h.once);
        complete =
            omega (
              arith,
              h.complete,
              ap one_free e,
              count_free-set g.pending slot max_inflight none lt,
            );
      }

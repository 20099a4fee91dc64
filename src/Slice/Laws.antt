-- ===== src/Slice/Laws.antt =====
-- What the slice operations decide, and what trimming removes.
use naitron_c.Slice.{
  trim_end, slice_trim, mem_equal, slice_eq, slice_starts_with, is_space, skip_space,
}
use naitron_c.Prelude.{
  ℕ, zero, suc, ◌≤◌, ◌<◌, true, false, [], ◌∷◌, ◌++◌, Bytes, length, take, drop, get_or, ◌≡◌, refl,
  sym, ap, ◌∙◌, ◌↔◌, inl, inr, arith, Bool-cases, All, length-append, take-length_append,
  length-take, take-append-drop,
}
use native.Mathlib.Decide.{ℕ_discrete}

pub mem_equal_iff : (a b : Bytes) → (mem_equal a b ≡ true) ↔ (a ≡ b)
unfolding mem_equal
mem_equal_iff (x ∷ a) (y ∷ b) = ground (arith, mem_equal_iff a b)
mem_equal_iff _ _ = ground arith

-- `ntc_slice_eq` decides equality of the bytes.
pub slice_eq_iff : (a b : Bytes) → (slice_eq a b ≡ true) ↔ (a ≡ b)
unfolding slice_eq
slice_eq_iff [] [] = ground arith
slice_eq_iff [] (y ∷ b) = ground arith
slice_eq_iff (x ∷ a) b = (
  λ e. (mem_equal_iff (x ∷ a) b).0 (ground arith),
  λ e. ground (arith, (mem_equal_iff (x ∷ a) b).1 e, ap length e),
)

pub slice_eq_self : (a : Bytes) → slice_eq a a ≡ true
slice_eq_self a = (slice_eq_iff a a).1 refl

-- `ntc_slice_starts_with` decides whether the slice is the prefix and some rest.
pub slice_starts_with_iff :
    (a prefix : Bytes)
    → (slice_starts_with a prefix ≡ true) ↔ ((rest : Bytes) × (a ≡ prefix ++ rest))
unfolding slice_starts_with
slice_starts_with_iff a [] = (λ e. (a, refl), λ e. ground arith)
slice_starts_with_iff a (x ∷ p) = (
  λ e. (
    drop (length (x ∷ p)) a,
    sym (take-append-drop (length (x ∷ p)) a)
        ∙ ap (λ t. t ++ drop (length (x ∷ p)) a)
            ((mem_equal_iff (take (length (x ∷ p)) a) (x ∷ p)).0 (ground arith)),
  ),
  λ e. ground (
    arith,
    length-append (x ∷ p) e.0,
    e.1,
    take-length_append (x ∷ p) e.0,
    ap length e.1,
    mem_equal_iff (take (length (x ∷ p)) a) (x ∷ p),
  ),
)

abbrev pub AllSpace : Bytes → Type 0
AllSpace = All (λ c. is_space c ≡ true)

-- The first byte, if there is one, is no space.
abbrev pub StartsSolid : Bytes → Type 0
StartsSolid [] = Unit
StartsSolid (c ∷ cs) = is_space c ≡ false

skip_space-split :
    (s : Bytes)
    → (front : Bytes) × AllSpace front × (s ≡ front ++ skip_space s) × StartsSolid (skip_space s)
unfolding skip_space
skip_space-split [] = ([], tt, refl, tt)
skip_space-split (c ∷ cs) = elim (Bool-cases (is_space c)) [
  | inl h ↦
      let (front, all, eq, solid) = skip_space-split cs in
      (c ∷ front, (h, all), rw h (ap (◌∷◌ c) eq), rw h solid)
  | inr h ↦ ([], tt, rw h refl, rw h h)
]

trim_end-le : (s : Bytes) (e : ℕ) → trim_end s e ≤ e
unfolding trim_end
trim_end-le s zero = omega arith
trim_end-le s (suc e) = ground (arith, trim_end-le s e)

trim_end_space : (s : Bytes) (e i : ℕ) → trim_end s e ≤ i → i < e → is_space (get_or s i 0) ≡ true
unfolding trim_end
trim_end_space s zero i lo hi = absurd (omega arith)
trim_end_space s (suc e) i lo hi = elim (Bool-cases (is_space (get_or s e 0))) [
  | inl h ↦ elim (ℕ_discrete i e) [
    | yes p ↦ rw p h
    | no p ↦ trim_end_space s e i (rw h at lo) (omega arith)
  ]
  | inr h ↦ absurd (let lo' : suc e ≤ i = rw h at lo in omega arith)
]

trim_end_solid : (s : Bytes) (e k : ℕ) → trim_end s e ≡ suc k → is_space (get_or s k 0) ≡ false
unfolding trim_end
trim_end_solid s zero k h = absurd (omega arith)
trim_end_solid s (suc e) k h = ground (arith, trim_end_solid s e k)

All-drop :
    (k : ℕ) (s : Bytes)
    → ((i : ℕ) → k ≤ i → i < length s → is_space (get_or s i 0) ≡ true)
    → AllSpace (drop k s)
All-drop zero [] h = tt
All-drop zero (c ∷ cs) h = (
  h 0 (omega arith) (omega arith),
  All-drop zero cs (λ i lo hi. h (suc i) (omega arith) (omega arith)),
)
All-drop (suc k) [] h = tt
All-drop (suc k) (c ∷ cs) h = All-drop k cs (λ i lo hi. h (suc i) (omega arith) (omega arith))

-- The last byte, if there is one, is no space.
abbrev pub EndsSolid : Bytes → Type 0
EndsSolid s = (k : ℕ) → length s ≡ suc k → is_space (get_or s k 0) ≡ false

get_or-take : (n i : ℕ) (s : Bytes) → i < n → get_or (take n s) i 0 ≡ get_or s i 0
get_or-take zero i s h = absurd (omega arith)
get_or-take (suc n) i [] h = refl
get_or-take (suc n) zero (c ∷ cs) h = refl
get_or-take (suc n) (suc i) (c ∷ cs) h = get_or-take n i cs (omega arith)

StartsSolid-take : (n : ℕ) (s : Bytes) → StartsSolid s → StartsSolid (take n s)
StartsSolid-take zero s h = tt
StartsSolid-take (suc n) [] h = tt
StartsSolid-take (suc n) (c ∷ cs) h = h

-- Trimming takes spaces off both ends, and nothing else: what is left starts and ends with no
-- space.
pub slice_trim-split :
    (s : Bytes)
    → (front : Bytes) × (back : Bytes) × (s ≡ front ++ (slice_trim s ++ back))
      × AllSpace front
      × AllSpace back
      × StartsSolid (slice_trim s)
      × EndsSolid (slice_trim s)
unfolding slice_trim
slice_trim-split s =
    let (front, all, eq, solid) = skip_space-split s in
    let t = skip_space s in
    let e = trim_end t (length t) in
    (
      front,
      drop e t,
      eq ∙ ap (λ r. front ++ r) (sym (take-append-drop e t)),
      all,
      All-drop e t (λ i lo hi. trim_end_space t (length t) i lo hi),
      StartsSolid-take e t solid,
      λ k h.
          let whole : e ≡ suc k = omega (arith, h, length-take e t, trim_end-le t (length t)) in
          rw (get_or-take e k t (omega arith)) (trim_end_solid t (length t) k whole),
    )

-- ===== src/Jwt/Selected.antt =====
-- Which key of a set src/common/jwt.c selects.
use naitron_c.Prelude.{
  ℕ, suc, Bool, true, false, ◌||◌, ◌&&◌, List, [], ◌∷◌, ◌++◌, Option, none, some, ◌==◌,
  if◌then◌else◌, Bytes, length, get_or, ◌≡◌, refl, sym, ap, ◌∙◌, ◌≢◌, ◌↔◌, inl, inr, arith,
  Bool-cases, All, &&_parts, codes,
}
use naitron_c.Slice.{mem_equal}
use naitron_c.Slice.Laws.{mem_equal_iff}
use naitron_c.Jwt.Keys.{
  JwkKey, JwkKty, jwk_rsa, jwk_ec, wanted, kty_eq, suits, find_kid, first_suited, jwks_find,
}

-- The key has the type that the algorithm asks for, and the id, if one is given.
pub record Fits (kid alg : Bytes) (k : JwkKey) : Type 0 where
  pub for_rs256 : alg ≡ codes "RS256" → k.kty ≡ jwk_rsa
  pub for_es256 : alg ≡ codes "ES256" → k.kty ≡ jwk_ec
  pub has_kid : kid ≢ [] → k.kid ≡ kid

key_fits : Bytes → Bytes → JwkKey → Bool
key_fits kid alg k = suits (wanted alg) k && (length kid == 0 || mem_equal k.kid kid)

pick : (JwkKey → Bool) → List JwkKey → Option JwkKey
pick test [] = none
pick test (k ∷ ks) = let rest = pick test ks in if test k then some k else rest

find_kid-pick :
    (kid alg : Bytes) (ks : List JwkKey)
    → (length kid == 0) ≡ false
    → find_kid (wanted alg) kid ks ≡ pick (key_fits kid alg) ks
unfolding find_kid pick key_fits
find_kid-pick kid alg [] e = refl
find_kid-pick kid alg (k ∷ ks) e = rw (e, find_kid-pick kid alg ks e) (ground arith)

first_suited-pick :
    (kid alg : Bytes) (ks : List JwkKey)
    → (length kid == 0) ≡ true
    → first_suited (wanted alg) ks ≡ pick (key_fits kid alg) ks
unfolding first_suited pick key_fits
first_suited-pick kid alg [] e = refl
first_suited-pick kid alg (k ∷ ks) e = rw (e, first_suited-pick kid alg ks e) (ground arith)

jwks_find-pick :
    (ks : List JwkKey) (kid alg : Bytes) → jwks_find ks kid alg ≡ pick (key_fits kid alg) ks
unfolding jwks_find
jwks_find-pick ks kid alg = elim (Bool-cases (length kid == 0)) [
  | inl e ↦ rw e (first_suited-pick kid alg ks e)
  | inr e ↦ rw e (find_kid-pick kid alg ks e)
]

kty_eq_iff : (a b : JwkKty) → (kty_eq a b ≡ true) ↔ (a ≡ b)
unfolding kty_eq
kty_eq_iff jwk_rsa jwk_rsa = ground arith
kty_eq_iff jwk_rsa jwk_ec = ground arith
kty_eq_iff jwk_ec jwk_rsa = ground arith
kty_eq_iff jwk_ec jwk_ec = ground arith

-- The key has the type that the algorithm asks for.
abbrev HasType : Bytes → JwkKey → Type 0
HasType alg k = (alg ≡ codes "RS256" → k.kty ≡ jwk_rsa) × (alg ≡ codes "ES256" → k.kty ≡ jwk_ec)

other_name : {a : Bytes} → a ≡ codes "RS256" → a ≡ codes "ES256" → ⊥
other_name p q = omega (arith, ap (λ (s : Bytes). get_or s 0 0) (sym p ∙ q))

suits-HasType : (alg : Bytes) (k : JwkKey) → suits (wanted alg) k ≡ true → HasType alg k
unfolding suits wanted
suits-HasType alg k h = elim (Bool-cases (mem_equal alg (codes "RS256"))) [
  | inl t ↦ (
    λ e. (kty_eq_iff k.kty jwk_rsa).0 (rw t at h),
    λ e. absurd (other_name ((mem_equal_iff alg (codes "RS256")).0 t) e),
  )
  | inr f ↦ elim (Bool-cases (mem_equal alg (codes "ES256"))) [
    | inl t ↦ (
      λ e. absurd (other_name e ((mem_equal_iff alg (codes "ES256")).0 t)),
      λ e. (kty_eq_iff k.kty jwk_ec).0 (rw (f, t) at h),
    )
    | inr g ↦ (
      λ e. absurd (cc (f, (mem_equal_iff alg (codes "RS256")).1 e)),
      λ e. absurd (cc (g, (mem_equal_iff alg (codes "ES256")).1 e)),
    )
  ]
]

HasType-suits : (alg : Bytes) (k : JwkKey) → HasType alg k → suits (wanted alg) k ≡ true
unfolding suits wanted
HasType-suits alg k h = elim (Bool-cases (mem_equal alg (codes "RS256"))) [
  | inl t ↦ rw t ((kty_eq_iff k.kty jwk_rsa).1 (h.0 ((mem_equal_iff alg (codes "RS256")).0 t)))
  | inr f ↦ elim (Bool-cases (mem_equal alg (codes "ES256"))) [
    | inl t ↦
        rw (f, t) ((kty_eq_iff k.kty jwk_ec).1 (h.1 ((mem_equal_iff alg (codes "ES256")).0 t)))
    | inr g ↦ rw (f, g) refl
  ]
]

positive : (n : ℕ) → (suc n == 0) ≡ false
positive n = ground arith

kid_iff :
    (kid : Bytes) (k : JwkKey)
    → ((length kid == 0 || mem_equal k.kid kid) ≡ true) ↔ (kid ≢ [] → k.kid ≡ kid)
kid_iff [] k = (λ h ne. absurd (ne refl), λ h. refl)
kid_iff (x ∷ kid) k = (
  λ h ne. (mem_equal_iff k.kid (x ∷ kid)).0 (rw (positive (length kid)) at h),
  λ h.
      rw (positive (length kid))
        ((mem_equal_iff k.kid (x ∷ kid)).1 (h (λ e. absurd (omega (arith, ap length e))))),
)

key_fits-Fits : (kid alg : Bytes) (k : JwkKey) → key_fits kid alg k ≡ true → Fits kid alg k
unfolding key_fits
key_fits-Fits kid alg k h =
    let (typed, named) =
      &&_parts (suits (wanted alg) k) (length kid == 0 || mem_equal k.kid kid) h in
    record {
      for_rs256 = (suits-HasType alg k typed).0;
      for_es256 = (suits-HasType alg k typed).1;
      has_kid = (kid_iff kid k).0 named;
    }

Fits-key_fits : (kid alg : Bytes) (k : JwkKey) → Fits kid alg k → key_fits kid alg k ≡ true
unfolding key_fits
Fits-key_fits kid alg k f =
    rw (HasType-suits alg k (f.for_rs256, f.for_es256)) ((kid_iff kid k).1 f.has_kid)

-- What a search for a key gives: the first that fits, or none when none does.
abbrev pub IsSelected : Bytes → Bytes → List JwkKey → Option JwkKey → Type 0
IsSelected kid alg ks none = All (λ k. ¬ Fits kid alg k) ks
IsSelected kid alg ks (some k) =
    (before : List JwkKey) × (after_it : List JwkKey) × (ks ≡ before ++ (k ∷ after_it))
    × All (λ j. ¬ Fits kid alg j) before
    × Fits kid alg k

skip-IsSelected :
    (kid alg : Bytes) (k : JwkKey) (ks : List JwkKey) (r : Option JwkKey)
    → ¬ Fits kid alg k
    → IsSelected kid alg ks r
    → IsSelected kid alg (k ∷ ks) r
skip-IsSelected kid alg k ks none no_fit h = (no_fit, h)
skip-IsSelected kid alg k ks (some j) no_fit (before, after_it, e, all, f) =
    (k ∷ before, after_it, ap (◌∷◌ k) e, (no_fit, all), f)

pick-IsSelected :
    (kid alg : Bytes) (ks : List JwkKey) → IsSelected kid alg ks (pick (key_fits kid alg) ks)
unfolding pick
pick-IsSelected kid alg [] = tt
pick-IsSelected kid alg (k ∷ ks) = elim (Bool-cases (key_fits kid alg k)) [
  | inl t ↦ rw t ([], ks, refl, tt, key_fits-Fits kid alg k t)
  | inr f ↦ rw f (
      skip-IsSelected kid alg k ks (pick (key_fits kid alg) ks)
        (λ fit. cc (f, Fits-key_fits kid alg k fit)) (pick-IsSelected kid alg ks))
]

-- ntc_jwks_find gives the first key of the set that fits: a key of the type that RS256 or ES256 asks
-- for, with the id of the token if it has one. It gives NULL exactly when no key fits, so an unknown
-- id is refused.
pub jwks_find-IsSelected :
    (ks : List JwkKey) (kid alg : Bytes) → IsSelected kid alg ks (jwks_find ks kid alg)
jwks_find-IsSelected ks kid alg = rw (jwks_find-pick ks kid alg) (pick-IsSelected kid alg ks)

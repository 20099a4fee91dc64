-- ===== src/Http/ScanLaws.antt =====
-- What the scanners of src/common/http_request.c find, and that bytes behind it change nothing.
use native.Mathlib.Nat.{suc-add}
use naitron_c.Prelude.{
  ℕ, zero, suc, ◌+◌, ◌≤◌, ◌<◌, true, false, [], ◌∷◌, ◌++◌, none, some, ◌==◌, Bytes, length, take,
  drop, get_or, ◌≡◌, ap, ◌∙◌, ◌≢◌, ◌⊎◌, inl, inr, arith, Bool-cases, Option-cases, All,
  length-append, get_or-append_front,
}
use naitron_c.Http.Scan.{cr, lf, find_crlf, find_eoh, find_char}

pub find_crlf_bounds : (s : Bytes) {i : ℕ} → find_crlf s ≡ some i → i + 2 ≤ length s
unfolding find_crlf
find_crlf_bounds [] h = cc
find_crlf_bounds (a ∷ []) h = cc
find_crlf_bounds (a ∷ b ∷ s) {i} h = elim (Option-cases (find_crlf (b ∷ s))) [
  | inl e ↦ ground arith
  | inr (j, e) ↦ ground (arith, find_crlf_bounds (b ∷ s) e)
]

pub find_eoh_bounds : (s : Bytes) {i : ℕ} → find_eoh s ≡ some i → i + 4 ≤ length s
unfolding find_eoh
find_eoh_bounds [] h = cc
find_eoh_bounds (a ∷ s) {i} h = elim (Option-cases (find_eoh s)) [
  | inl e ↦ ground arith
  | inr (j, e) ↦ ground (arith, find_eoh_bounds s e)
]

pub find_char_bounds : (c : ℕ) (s : Bytes) {i : ℕ} → find_char c s ≡ some i → i < length s
unfolding find_char
find_char_bounds c [] h = cc
find_char_bounds c (x ∷ s) {i} h = elim (Option-cases (find_char c s)) [
  | inl e ↦ ground arith
  | inr (j, e) ↦ ground (arith, find_char_bounds c s e)
]

-- The end of the headers stays where it is when more bytes arrive.
pub find_eoh-append : (s t : Bytes) {i : ℕ} → find_eoh s ≡ some i → find_eoh (s ++ t) ≡ some i
unfolding find_eoh
find_eoh-append [] t h = cc
find_eoh-append (a ∷ s) t {i} h = elim (Option-cases (find_eoh s)) [
  | inl e ↦ ground (
    arith,
    length-append s t,
    get_or-append_front s t 0 0,
    get_or-append_front s t 1 0,
    get_or-append_front s t 2 0,
  )
  | inr (j, e) ↦ ground (
    arith,
    length-append s t,
    get_or-append_front s t 0 0,
    get_or-append_front s t 1 0,
    get_or-append_front s t 2 0,
    find_eoh-append s t e,
  )
]

-- The first place: the bytes there are CR LF CR LF, and no earlier four are.
pub find_eoh_found :
    (s : Bytes) {i : ℕ}
    → find_eoh s ≡ some i
    → (get_or s i 0 ≡ cr)
      × (get_or s (i + 1) 0 ≡ lf)
      × (get_or s (i + 2) 0 ≡ cr)
      × (get_or s (i + 3) 0 ≡ lf)
unfolding find_eoh
find_eoh_found [] h = cc
find_eoh_found (a ∷ s) {i = zero} h = ground arith
find_eoh_found (a ∷ s) {i = suc i} h = elim (Option-cases (find_eoh s)) [
  | inl e ↦ ground arith
  | inr (j, e) ↦ simp suc-add (ground (arith, find_eoh_found s e))
]

-- `memchr` stops at the first such byte.
pub find_char_split :
    (c : ℕ) (s : Bytes) {i : ℕ}
    → find_char c s ≡ some i
    → All (λ x. x ≢ c) (take i s) × (s ≡ take i s ++ (c ∷ drop (i + 1) s))
unfolding find_char
find_char_split c [] h = cc
find_char_split c (x ∷ s) {i = zero} h = (tt, ap (λ y. y ∷ s) (first (Bool-cases (x == c))))
  where
    first : ((x == c) ≡ true) ⊎ ((x == c) ≡ false) → x ≡ c
    first (inl e) = ground arith
    first (inr e) =
        absurd
          (elim (Option-cases (find_char c s)) [ inl n ↦ ground arith | inr (j, n) ↦ ground arith ])
find_char_split c (x ∷ s) {i = suc i} h = elim (Option-cases (find_char c s)) [
  | inl n ↦ absurd (ground arith)
  | inr (j, n) ↦
      let same : j ≡ i = ground arith in
      let other : x ≢ c = λ e. ground arith in
      let (all, eq) = find_char_split c s (n ∙ ap some same) in
      ((other, all), simp suc-add (ap (◌∷◌ x) eq))
]

pub find_char-none : (c : ℕ) (s : Bytes) → find_char c s ≡ none → All (λ x. x ≢ c) s
unfolding find_char
find_char-none c [] h = tt
find_char-none c (x ∷ s) h = elim (Option-cases (find_char c s)) [
  | inl n ↦ ((λ e. ground arith), find_char-none c s n)
  | inr (j, n) ↦ absurd (ground arith)
]

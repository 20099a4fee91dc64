-- ===== src/Json/Limits.antt =====
-- The limits of the JSON parser of src/common/json.c, and numbers and literals within them.
use naitron_c.Prelude.{
  ℕ, zero, suc, ◌+◌, ◌≤◌, ◌<◌, true, false, ◌||◌, ◌&&◌, [], ◌∷◌, ◌++◌, Option, some, leb, ◌==◌,
  Bytes, length, take, ◌≡◌, refl, ap, arith, All, length-append, drop-length_append,
  take-length_append, le→leb,
}
use naitron_c.Slice.Laws.{mem_equal_iff}
use naitron_c.Json.Value.{
  Json, Items, Members, json_null, boolean, num, str, arr, obj, no_items, item, no_members, member,
}
use naitron_c.Json.Parse.{
  json_max_members, skip_ws, is_number_char, number_span, literal, parse_number, value_at,
  value_here,
}

-- What follows a number does not continue it.
abbrev pub Stops : Bytes → Type 0
Stops [] = Unit
Stops (c ∷ s) = is_number_char c ≡ false

abbrev pub StartsNumber : Bytes → Type 0
StartsNumber [] = ⊥
StartsNumber (c ∷ s) = (c == b'-' || (leb b'0' c && leb c b'9')) ≡ true

number_span-append :
    (t rest : Bytes)
    → All (λ c. is_number_char c ≡ true) t
    → Stops rest
    → number_span (t ++ rest) ≡ (t, rest)
unfolding number_span
number_span-append [] [] h s = refl
number_span-append [] (c ∷ rest) h s = rw s refl
number_span-append (c ∷ t) rest h s = rw (h.0, number_span-append t rest h.1 s) refl

take_all : (n : ℕ) (t : Bytes) → length t ≤ n → take n t ≡ t
take_all zero [] h = refl
take_all zero (c ∷ t) h = absurd (omega arith)
take_all (suc n) [] h = refl
take_all (suc n) (c ∷ t) h = ap (◌∷◌ c) (take_all n t (omega arith))

pub start_ne :
    (c k : ℕ)
    → (c == b'-' || (leb b'0' c && leb c b'9')) ≡ true
    → (k == b'-' || (leb b'0' k && leb k b'9')) ≡ false
    → (c == k) ≡ false
start_ne c k h g = ground arith

pub literal-append {ℓ} :
    {A : Type ℓ} (word : Bytes) (v : A) (rest : Bytes)
    → literal word v (word ++ rest) ≡ some (v, rest)
unfolding literal
literal-append word v rest =
    rw
      (
        le→leb (length word) (length (word ++ rest)) (omega (arith, length-append word rest)),
        take-length_append word rest,
        (mem_equal_iff word word).1 refl,
        drop-length_append word rest,
      )
      refl

module _ {N : Type 0} (strtod : Bytes → N) (print : N → Bytes) where
  -- A number whose text is one that the parser takes as a whole and reads as the same number.
  pub record Printable (x : N) : Type 0 where
    pub chars : All (λ c. is_number_char c ≡ true) (print x)
    pub starts : StartsNumber (print x)
    pub short : length (print x) ≤ 63
    pub reads : strtod (print x) ≡ x

  -- Values within the limits of the parser: at most `depth` levels, 64 elements in each array and
  -- object, and printable numbers.
  unfoldable mutual
    pub IsSmall : ℕ → Json N → Type 0
    IsSmall zero v = ⊥
    IsSmall (suc d) json_null = Unit
    IsSmall (suc d) (boolean b) = Unit
    IsSmall (suc d) (num x) = Printable x
    IsSmall (suc d) (str s) = Unit
    IsSmall (suc d) (arr vs) = AreSmall d 0 vs
    IsSmall (suc d) (obj ms) = MembersSmall d 0 ms

    -- The number counts the elements before.
    pub AreSmall : ℕ → ℕ → Items N → Type 0
    AreSmall d n no_items = Unit
    AreSmall d n (item v vs) = (n < json_max_members) × IsSmall d v × AreSmall d (n + 1) vs

    pub MembersSmall : ℕ → ℕ → Members N → Type 0
    MembersSmall d n no_members = Unit
    MembersSmall d n (member k v ms) =
        (n < json_max_members) × IsSmall d v × MembersSmall d (n + 1) ms

  pub number_value :
      (value : Bytes → Option (Json N × Bytes)) (c : ℕ) (s : Bytes)
      → (c == b'-' || (leb b'0' c && leb c b'9')) ≡ true
      → value_here strtod value (skip_ws (c ∷ s)) ≡ some (parse_number strtod (c ∷ s))
  unfolding skip_ws value_here value_at
  number_value value c s h =
      let ne = start_ne c in
      rw
        (
          ne b' ' h refl,
          ne b'\t' h refl,
          ne b'\n' h refl,
          ne b'\r' h refl,
          ne b'{' h refl,
          ne b'[' h refl,
          ne b'"' h refl,
          ne b't' h refl,
          ne b'f' h refl,
          ne b'n' h refl,
          h,
        )
        refl

  pub parse_number-print :
      (x : N) (rest : Bytes)
      → Printable x
      → Stops rest
      → parse_number strtod (print x ++ rest) ≡ (num x, rest)
  unfolding parse_number
  parse_number-print x rest p s =
      rw (number_span-append (print x) rest p.chars s, take_all 63 (print x) p.short, p.reads) refl

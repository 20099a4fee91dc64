-- ===== src/Schema/Depth.antt =====
-- How deep the recursion of `ntc_schema_validate` in src/common/schema.c goes.
use naitron_c.Slice.{slice_eq}
use naitron_c.Json.Value.{
  Json, Items, Members, json_null, boolean, num, str, arr, obj, no_items, item, no_members, member,
  json_get, find_member,
}
use naitron_c.Schema.Check.{
  c_string, Reason, Verdict, accepted, too_deep, rejected, ◌&&&◌, fail_if, check_required,
  check_known, check_items, check_properties, check_additional, properties_of, check_object,
  check_type, check_enum, check_bound, check_number, check_string, check_elements, check_array,
  check_contents, check_node, validate_level,
}
use naitron_c.Prelude.{
  ℕ, zero, suc, ◌≤◌, ◌<◌, Bool, true, false, Option, some, Bytes, ◌≡◌, refl, ap, inl, inr, arith,
  Bool-cases, Option-cases, some-inj, codes,
}
use Prim.Native.Nat.{max}

-- The code has this result.
abbrev pub Ends : Verdict → Type 0
Ends accepted = Unit
Ends (rejected r) = Unit
Ends too_deep = ⊥

and-Ends : (a b : Verdict) → Ends a → Ends b → Ends (a &&& b)
and-Ends accepted b p q = q
and-Ends too_deep b p q = absurd p
and-Ends (rejected r) b p q = tt

fail_if-Ends : (b : Bool) (r : Reason) → Ends (fail_if b r)
fail_if-Ends true r = tt
fail_if-Ends false r = tt

module _ {N : Type 0} where
  unfoldable mutual
    -- The levels of objects and arrays in a schema.
    pub depth : Json N → ℕ
    depth json_null = 0
    depth (boolean b) = 0
    depth (num x) = 0
    depth (str s) = 0
    depth (arr vs) = 0
    depth (obj ms) = suc (depth_members ms)

    pub depth_members : Members N → ℕ
    depth_members no_members = 0
    depth_members (member k v ms) = max (depth v) (depth_members ms)

  find_member-depth :
      (ms : Members N) (k : Bytes) (v : Json N)
      → find_member ms k ≡ some v
      → depth v ≤ depth_members ms
  unfolding find_member depth_members
  find_member-depth no_members k v h = ground arith
  find_member-depth (member l w ms) k v h = elim (Bool-cases (slice_eq l k)) [
    | inl t ↦ let same : w ≡ v = some-inj (ground arith) in omega (arith, ap depth same)
    | inr f ↦ omega (arith, find_member-depth ms k v (ground arith))
  ]

  check_required-Ends : (v : Json N) (names : Items N) → Ends (check_required v names)
  unfolding check_required
  check_required-Ends v no_items = tt
  check_required-Ends v (item (str name) names) =
      elim (Option-cases (json_get v (c_string 95 name))) [
        | inl n ↦ rw (n, check_required) tt
        | inr (found, p) ↦ rw (p, check_required) (check_required-Ends v names)
      ]
  check_required-Ends v (item json_null names) = check_required-Ends v names
  check_required-Ends v (item (boolean b) names) = check_required-Ends v names
  check_required-Ends v (item (num x) names) = check_required-Ends v names
  check_required-Ends v (item (arr vs) names) = check_required-Ends v names
  check_required-Ends v (item (obj ms) names) = check_required-Ends v names

  check_known-Ends : (props : Json N) (ms : Members N) → Ends (check_known props ms)
  unfolding check_known
  check_known-Ends props no_members = tt
  check_known-Ends props (member k v ms) = elim (Option-cases (json_get props (c_string 95 k))) [
    | inl n ↦ rw (n, check_known) tt
    | inr (found, p) ↦ rw (p, check_known) (check_known-Ends props ms)
  ]

  check_items-Ends :
      (f : Json N → Verdict) (vs : Items N) → ((v : Json N) → Ends (f v)) → Ends (check_items f vs)
  unfolding check_items
  check_items-Ends f no_items h = tt
  check_items-Ends f (item v vs) h =
      and-Ends (f v) (check_items f vs) (h v) (check_items-Ends f vs h)

  check_properties-Ends :
      (validate : Json N → Json N → Verdict) (v : Json N) (ms : Members N)
      → ((s : Json N) → depth s ≤ depth_members ms → (i : Json N) → Ends (validate s i))
      → Ends (check_properties validate v ms)
  unfolding check_properties depth_members
  check_properties-Ends validate v no_members h = tt
  check_properties-Ends validate v (member k schema ms) h =
      let rest = check_properties-Ends validate v ms (λ s le. h s (omega (arith, le))) in
      elim (Option-cases (json_get v (c_string 95 k))) [
        | inl n ↦ rw n rest
        | inr (found, p) ↦
            rw p (and-Ends (validate schema found) _ (h schema (omega arith) found) rest)
      ]

  check_additional-Ends :
      (a p : Option (Json N)) (v : Json N) (ms : Members N) → Ends (check_additional a p v ms)
  unfolding check_additional
  check_additional-Ends (some (boolean false)) (some (obj props)) v ms =
      check_known-Ends (obj props) ms
  check_additional-Ends _ _ v ms = tt

  properties_of-depth :
      (o : Option (Json N)) (n : ℕ)
      → ((s : Json N) → o ≡ some s → depth s ≤ n)
      → depth_members (properties_of o) ≤ n
  unfolding properties_of depth depth_members
  properties_of-depth (some (obj props)) n h = omega (arith, h (obj props) refl)
  properties_of-depth _ n h = omega arith

  json_get-depth :
      (ms : Members N) (k : Bytes) (s : Json N)
      → json_get (obj ms) k ≡ some s
      → depth s ≤ depth_members ms
  unfolding json_get
  json_get-depth ms k s h = find_member-depth ms k s h

  check_elements-Ends :
      (validate : Json N → Json N → Verdict) (o : Option (Json N)) (vs : Items N)
      → ((s : Json N) → o ≡ some s → (i : Json N) → Ends (validate s i))
      → Ends (check_elements validate o vs)
  unfolding check_elements
  check_elements-Ends validate (some (obj ms)) vs h =
      check_items-Ends (validate (obj ms)) vs (h (obj ms) refl)
  check_elements-Ends validate _ vs h = tt

  check_bound-Ends :
      (o : Option (Json N)) (outside : N → Bool) (r : Reason) → Ends (check_bound o outside r)
  unfolding check_bound
  check_bound-Ends (some (num x)) outside r = fail_if-Ends (outside x) r
  check_bound-Ends _ outside r = tt

module _ {N : Type 0} (is_whole : N → Bool) (less same : N → N → Bool) (to_size : N → ℕ) where
  check_type-Ends :
      (o : Option (Json N)) (v : Json N) → Ends (check_type is_whole less same to_size o v)
  unfolding check_type
  check_type-Ends (some (str t)) v = fail_if-Ends _ _
  check_type-Ends _ v = tt

  check_enum-Ends :
      (o : Option (Json N)) (v : Json N) → Ends (check_enum is_whole less same to_size o v)
  unfolding check_enum
  check_enum-Ends (some (arr es)) v = fail_if-Ends _ _
  check_enum-Ends _ v = tt

  check_contents-Ends :
      (validate : Json N → Json N → Verdict) (ms : Members N) (v : Json N)
      → ((s : Json N) → depth s ≤ depth_members ms → (i : Json N) → Ends (validate s i))
      → Ends (check_contents is_whole less same to_size validate (obj ms) v)
  unfolding check_contents check_number check_string check_array check_object
  check_contents-Ends validate ms (num x) h =
      and-Ends _ _ (check_bound-Ends _ _ _) (check_bound-Ends _ _ _)
  check_contents-Ends validate ms (str s) h =
      and-Ends _ _ (check_bound-Ends _ _ _) (check_bound-Ends _ _ _)
  check_contents-Ends validate ms (arr vs) h = and-Ends _ _ (check_bound-Ends _ _ _) (
      and-Ends _ _ (check_bound-Ends _ _ _)
        (check_elements-Ends validate _ vs (λ s e. h s (json_get-depth ms (codes "items") s e))))
  check_contents-Ends validate ms (obj vs) h = and-Ends _ _ (check_required-Ends (obj vs) _) (
      and-Ends _ _
        (check_properties-Ends validate (obj vs) _ (λ s le. h s (
          omega (
            arith,
            le,
            properties_of-depth (json_get (obj ms) (codes "properties")) (depth_members ms)
                (λ t e. json_get-depth ms (codes "properties") t e),
          ))))
        (check_additional-Ends _ _ (obj vs) vs))
  check_contents-Ends validate ms json_null h = tt
  check_contents-Ends validate ms (boolean b) h = tt

  -- The recursion ends within as many levels as the schema has, plus one, whatever the instance.
  pub validate_level-Ends :
      (fuel : ℕ) (schema v : Json N)
      → depth schema < fuel
      → Ends (validate_level is_whole less same to_size fuel schema v)
  unfolding validate_level check_node depth
  validate_level-Ends zero schema v h = absurd (omega arith)
  validate_level-Ends (suc fuel) (obj ms) v h = and-Ends _ _ (check_type-Ends _ v) (
      and-Ends _ _ (check_enum-Ends _ v) (
        check_contents-Ends (validate_level is_whole less same to_size fuel) ms v
          (λ s le i. validate_level-Ends fuel s i (omega (arith, le, h)))))
  validate_level-Ends (suc fuel) json_null v h = tt
  validate_level-Ends (suc fuel) (boolean b) v h = tt
  validate_level-Ends (suc fuel) (num x) v h = tt
  validate_level-Ends (suc fuel) (str s) v h = tt
  validate_level-Ends (suc fuel) (arr vs) v h = tt

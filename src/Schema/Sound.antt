-- ===== src/Schema/Sound.antt =====
-- What an instance has that `ntc_schema_validate` of src/common/schema.c accepts.
use naitron_c.Schema.Check.{
  Reason, check_additional, c_string, Verdict, accepted, too_deep, rejected, ◌&&&◌, check_required,
  check_known, check_properties, required_of, properties_of, check_object, check_contents,
  check_node, validate_level,
}
use naitron_c.Json.Value.{
  boolean, obj, Json, Items, Members, json_null, num, str, arr, no_items, item, no_members, member,
  json_get,
}
use naitron_c.Prelude.{
  ℕ, suc, Bool, false, Option, some, Bytes, ◌≡◌, refl, sym, ◌∙◌, inl, inr, arith, Option-cases,
  codes,
}

and_accepted : (a b : Verdict) → (a &&& b) ≡ accepted → (a ≡ accepted) × (b ≡ accepted)
and_accepted accepted b h = (refl, h)
and_accepted too_deep b h = absurd (ground arith)
and_accepted (rejected r) b h = absurd (ground arith)

rejected_accepted : (r : Reason) → rejected r ≡ accepted → ⊥
rejected_accepted r h = ground arith

module _ {N : Type 0} where
  -- The property is there, and its value satisfies `P`.
  abbrev pub Has : Json N → Bytes → Type 0
  Has v name = (found : Json N) × (json_get v (c_string 95 name) ≡ some found)

  abbrev pub HasAll : Json N → Items N → Type 0
  HasAll v no_items = Unit
  HasAll v (item (str name) names) = Has v name × HasAll v names
  HasAll v (item json_null names) = HasAll v names
  HasAll v (item (boolean b) names) = HasAll v names
  HasAll v (item (num x) names) = HasAll v names
  HasAll v (item (arr vs) names) = HasAll v names
  HasAll v (item (obj ms) names) = HasAll v names

  abbrev pub AllNamed : Json N → Members N → Type 0
  AllNamed props no_members = Unit
  AllNamed props (member k v ms) = Has props k × AllNamed props ms

  abbrev pub AllFit : (Json N → Json N → Verdict) → Json N → Members N → Type 0
  AllFit validate v no_members = Unit
  AllFit validate v (member k schema ms) =
      ((found : Json N)
        → json_get v (c_string 95 k) ≡ some found
        → validate schema found ≡ accepted)
      × AllFit validate v ms

  check_required-HasAll :
      (v : Json N) (names : Items N) → check_required v names ≡ accepted → HasAll v names
  unfolding check_required
  check_required-HasAll v no_items h = tt
  check_required-HasAll v (item (str name) names) h =
      elim (Option-cases (json_get v (c_string 95 name))) [
        | inl n ↦ absurd (
            rejected_accepted (Reason.missing_property (c_string 95 name))
              (sym (rw (n, check_required) refl) ∙ h))
        | inr (found, p) ↦
            ((found, p), check_required-HasAll v names (sym (rw (p, check_required) refl) ∙ h))
      ]
  check_required-HasAll v (item json_null names) h = check_required-HasAll v names h
  check_required-HasAll v (item (boolean b) names) h = check_required-HasAll v names h
  check_required-HasAll v (item (num x) names) h = check_required-HasAll v names h
  check_required-HasAll v (item (arr vs) names) h = check_required-HasAll v names h
  check_required-HasAll v (item (obj ms) names) h = check_required-HasAll v names h

  check_known-AllNamed :
      (props : Json N) (ms : Members N) → check_known props ms ≡ accepted → AllNamed props ms
  unfolding check_known
  check_known-AllNamed props no_members h = tt
  check_known-AllNamed props (member k v ms) h =
      elim (Option-cases (json_get props (c_string 95 k))) [
        | inl n ↦ absurd (
            rejected_accepted (Reason.unexpected_property (c_string 95 k))
              (sym (rw (n, check_known) refl) ∙ h))
        | inr (found, p) ↦
            ((found, p), check_known-AllNamed props ms (sym (rw (p, check_known) refl) ∙ h))
      ]

  additional_known :
      (a p : Option (Json N)) (props : Members N) (v : Json N) (ms : Members N)
      → a ≡ some (boolean false)
      → p ≡ some (obj props)
      → check_additional a p v ms ≡ check_known (obj props) ms
  unfolding check_additional
  additional_known a p props v ms none_more q = rw (none_more, q) refl

  check_properties-AllFit :
      (validate : Json N → Json N → Verdict) (v : Json N) (ms : Members N)
      → check_properties validate v ms ≡ accepted
      → AllFit validate v ms
  unfolding check_properties
  check_properties-AllFit validate v no_members h = tt
  check_properties-AllFit validate v (member k schema ms) h =
      let parts = and_accepted _ (check_properties validate v ms) h in
      (λ found p. sym (rw p refl) ∙ parts.0, check_properties-AllFit validate v ms parts.1)

module _ {N : Type 0} (is_whole : N → Bool) (less same : N → N → Bool) (to_size : N → ℕ) where
  -- An object that is accepted has every required property; each declared property that it has is
  -- accepted by its own schema; and when `additionalProperties` is false and the schema has an object
  -- `properties`, each of its properties is declared there. Names are compared up to 95 characters.
  pub validate_level-object :
      (fuel : ℕ) (schema ms : Members N)
      → validate_level is_whole less same to_size (suc fuel) (obj schema) (obj ms) ≡ accepted
      → HasAll (obj ms) (required_of (json_get (obj schema) (codes "required")))
        × AllFit
            (validate_level is_whole less same to_size fuel)
            (obj ms)
            (properties_of (json_get (obj schema) (codes "properties")))
        × ((props : Members N)
            → json_get (obj schema) (codes "additionalProperties") ≡ some (boolean false)
            → json_get (obj schema) (codes "properties") ≡ some (obj props)
            → AllNamed (obj props) ms)
  unfolding validate_level check_node check_contents check_object
  validate_level-object fuel schema ms h =
      let c = (and_accepted _ _ (and_accepted _ _ h).1).1 in
      let r = and_accepted _ _ c in
      let q = and_accepted _ _ r.1 in
      (
        check_required-HasAll (obj ms) _ r.0,
        check_properties-AllFit (validate_level is_whole less same to_size fuel) (obj ms) _ q.0,
        λ props none_more p.
            check_known-AllNamed (obj props) ms
              (sym (additional_known _ _ props (obj ms) ms none_more p) ∙ q.1),
      )

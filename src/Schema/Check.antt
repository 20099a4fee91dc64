-- ===== src/Schema/Check.antt =====
-- `ntc_schema_validate` of src/common/schema.c. The operations on a `double` are parameters.
use naitron_c.Prelude.{
  ℕ, zero, suc, Bool, true, false, not, ◌||◌, [], ◌∷◌, Option, none, some, ltb, ◌==◌, if◌then◌else◌,
  Bytes, length, codes,
}
use naitron_c.Slice.{slice_eq, mem_equal}
use naitron_c.Json.Value.{
  Json, Items, Members, json_null, boolean, num, str, arr, obj, no_items, item, no_members, member,
  json_get,
}

-- What is left of a slice that `snprintf` with "%.*s" writes to a buffer of `room + 1` bytes.
unfoldable pub c_string : ℕ → Bytes → Bytes
c_string zero s = []
c_string (suc room) [] = []
c_string (suc room) (c ∷ s) = let rest = c_string room s in if c == 0 then [] else c ∷ rest

-- The error texts.
pub data Reason : Type 0 where
  missing_value not_in_enum below_minimum above_maximum too_short too_long too_few too_many : Reason
  wrong_type missing_property unexpected_property : Bytes → Reason

-- The results true and false. `too_deep` is no result of the code.
pub data Verdict : Type 0 where
  accepted too_deep : Verdict
  rejected : Reason → Verdict

-- An `if` that fails with a reason.
abbrev pub fail_if : Bool → Reason → Verdict
fail_if true r = rejected r
fail_if false r = accepted

infixr 4 ◌&&&◌
abbrev pub ◌&&&◌ : Verdict → Verdict → Verdict
accepted &&& v = v
too_deep &&& v = too_deep
rejected r &&& v = rejected r

module _ {N : Type 0} where
  unfoldable pub items_length : Items N → ℕ
  items_length no_items = 0
  items_length (item v vs) = suc (items_length vs)

  -- The loop over `required`.
  unfoldable pub check_required : Json N → Items N → Verdict
  check_required v no_items = accepted
  check_required v (item (str name) names) = elim (json_get v (c_string 95 name)) [
    | none ↦ rejected (missing_property (c_string 95 name))
    | some found ↦ check_required v names
  ]
  check_required v (item _ names) = check_required v names

  -- The loop over the members of the instance, for `additionalProperties: false`.
  unfoldable pub check_known : Json N → Members N → Verdict
  check_known props no_members = accepted
  check_known props (member k v ms) = elim (json_get props (c_string 95 k)) [
    | none ↦ rejected (unexpected_property (c_string 95 k))
    | some found ↦ check_known props ms
  ]

  -- The loop over the items of the instance.
  unfoldable pub check_items : (Json N → Verdict) → Items N → Verdict
  check_items validate no_items = accepted
  check_items validate (item v vs) = validate v &&& check_items validate vs

  -- The loop over `properties`.
  unfoldable pub check_properties : (Json N → Json N → Verdict) → Json N → Members N → Verdict
  check_properties validate v no_members = accepted
  check_properties validate v (member k schema ms) =
      (elim (json_get v (c_string 95 k)) [ none ↦ accepted | some found ↦ validate schema found ])
      &&& check_properties validate v ms

  -- `additionalProperties` is the literal false and `properties` is an object.
  unfoldable pub check_additional : Option (Json N) → Option (Json N) → Json N → Members N → Verdict
  check_additional (some (boolean false)) (some (obj props)) v ms = check_known (obj props) ms
  check_additional _ _ v ms = accepted

  unfoldable pub required_of : Option (Json N) → Items N
  required_of (some (arr names)) = names
  required_of _ = no_items

  unfoldable pub properties_of : Option (Json N) → Members N
  properties_of (some (obj props)) = props
  properties_of _ = no_members

  unfoldable pub check_object : (Json N → Json N → Verdict) → Json N → Members N → Verdict
  check_object validate schema ms =
      let props = json_get schema (codes "properties") in
      check_required (obj ms) (required_of (json_get schema (codes "required")))
      &&& check_properties validate (obj ms) (properties_of props)
      &&& check_additional (json_get schema (codes "additionalProperties")) props (obj ms) ms

  -- A bound that is a number, against the instance's number or size.
  unfoldable pub check_bound : Option (Json N) → (N → Bool) → Reason → Verdict
  check_bound (some (num x)) outside r = fail_if (outside x) r
  check_bound _ outside r = accepted

  -- `items` that is an object.
  unfoldable pub check_elements : (Json N → Json N → Verdict) → Option (Json N) → Items N → Verdict
  check_elements validate (some (obj ms)) vs = check_items (validate (obj ms)) vs
  check_elements validate _ vs = accepted

module _ {N : Type 0} (is_whole : N → Bool) (less same : N → N → Bool) (to_size : N → ℕ) where
  -- The type names of `type_ok`, by the value.
  unfoldable pub type_ok : Bytes → Json N → Bool
  type_ok t v =
      if mem_equal t (codes "object")
      then (elim v [ obj ms ↦ true | _ ↦ false ])
      else if mem_equal t (codes "array")
      then (elim v [ arr vs ↦ true | _ ↦ false ])
      else if mem_equal t (codes "string")
      then (elim v [ str s ↦ true | _ ↦ false ])
      else if mem_equal t (codes "boolean")
      then (elim v [ boolean b ↦ true | _ ↦ false ])
      else if mem_equal t (codes "null")
      then (elim v [ json_null ↦ true | _ ↦ false ])
      else if mem_equal t (codes "number")
      then (elim v [ num x ↦ true | _ ↦ false ])
      else if mem_equal t (codes "integer")
      then (elim v [ num x ↦ is_whole x | _ ↦ false ])
      else true

  unfoldable pub bool_eq : Bool → Bool → Bool
  bool_eq true b = b
  bool_eq false b = not b

  unfoldable pub json_eq : Json N → Json N → Bool
  json_eq json_null json_null = true
  json_eq (boolean a) (boolean b) = bool_eq a b
  json_eq (num x) (num y) = same x y
  json_eq (str s) (str t) = slice_eq s t
  json_eq _ _ = false

  unfoldable pub any_eq : Items N → Json N → Bool
  any_eq no_items v = false
  any_eq (item e es) v = json_eq e v || any_eq es v

  unfoldable pub check_type : Option (Json N) → Json N → Verdict
  check_type (some (str t)) v =
      fail_if (not (type_ok (c_string 23 t) v)) (wrong_type (c_string 23 t))
  check_type _ v = accepted

  unfoldable pub check_enum : Option (Json N) → Json N → Verdict
  check_enum (some (arr es)) v = fail_if (not (any_eq es v)) not_in_enum
  check_enum _ v = accepted

  unfoldable pub check_number : Json N → N → Verdict
  check_number schema x =
      check_bound (json_get schema (codes "minimum")) (less x) below_minimum
      &&& check_bound (json_get schema (codes "maximum")) (λ m. less m x) above_maximum

  unfoldable pub check_string : Json N → Bytes → Verdict
  check_string schema s =
      check_bound (json_get schema (codes "minLength")) (λ m. ltb (length s) (to_size m)) too_short
      &&& check_bound (json_get schema (codes "maxLength")) (λ m. ltb (to_size m) (length s))
          too_long

  unfoldable pub check_array : (Json N → Json N → Verdict) → Json N → Items N → Verdict
  check_array validate schema vs =
      check_bound (json_get schema (codes "minItems")) (λ m. ltb (items_length vs) (to_size m))
        too_few
      &&& check_bound (json_get schema (codes "maxItems")) (λ m. ltb (to_size m) (items_length vs))
          too_many
      &&& check_elements validate (json_get schema (codes "items")) vs

  unfoldable pub check_contents : (Json N → Json N → Verdict) → Json N → Json N → Verdict
  check_contents validate schema (num x) = check_number schema x
  check_contents validate schema (str s) = check_string schema s
  check_contents validate schema (arr vs) = check_array validate schema vs
  check_contents validate schema (obj ms) = check_object validate schema ms
  check_contents validate schema _ = accepted

  -- The function on a schema that is an object, where `validate` is the recursive call.
  unfoldable pub check_node : (Json N → Json N → Verdict) → Json N → Json N → Verdict
  check_node validate (obj ms) v =
      check_type (json_get (obj ms) (codes "type")) v
      &&& check_enum (json_get (obj ms) (codes "enum")) v
      &&& check_contents validate (obj ms) v
  check_node validate _ v = accepted

  -- The recursion, for a number of levels of the schema.
  unfoldable pub validate_level : ℕ → Json N → Json N → Verdict
  validate_level zero schema v = too_deep
  validate_level (suc fuel) schema v = check_node (validate_level fuel) schema v

  -- With `none` for a null pointer.
  unfoldable pub validate_at : ℕ → Json N → Option (Json N) → Verdict
  validate_at fuel (obj ms) none = rejected missing_value
  validate_at fuel schema none = accepted
  validate_at fuel schema (some v) = validate_level fuel schema v

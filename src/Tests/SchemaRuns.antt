-- ===== src/Tests/SchemaRuns.antt =====
-- Runs of the schema validation, with natural numbers for `double`.
use naitron_c.Prelude.{ℕ, ◌<◌, Bool, true, false, some, ltb, ◌==◌, ◌≡◌, refl, arith, codes}
use naitron_c.Slice.{slice_eq, mem_equal}
use naitron_c.Json.Value.{
  Json, Members, boolean, num, str, arr, obj, no_items, item, no_members, member, json_get,
  find_member,
}
use naitron_c.Schema.Check.{
  c_string, Reason, Verdict, accepted, rejected, check_required, check_known, check_properties,
  check_additional, required_of, properties_of, check_object, check_type, check_enum, check_bound,
  check_number, check_contents, check_node, validate_level,
}
use naitron_c.Schema.Sound.{HasAll, AllFit, AllNamed, validate_level-object}
use naitron_c.Schema.Depth.{Ends, depth, depth_members, validate_level-Ends}

abbrev whole : ℕ → Bool
whole n = true

abbrev validated : ℕ → Json ℕ → Json ℕ → Verdict
validated = validate_level whole ltb ◌==◌ (λ n. n)

-- {"required": ["id"], "properties": {"id": {"minimum": 1}}, "additionalProperties": false}
abbrev id_schema : Members ℕ
id_schema = member (codes "required") (arr (item (str (codes "id")) no_items)) (
    member (codes "properties")
      (obj (member (codes "id") (obj (member (codes "minimum") (num 1) no_members)) no_members))
      (member (codes "additionalProperties") (boolean false) no_members))

abbrev with_id : Members ℕ
with_id = member (codes "id") (num 7) no_members

id_accepted : validated 3 (obj id_schema) (obj with_id) ≡ accepted
unfolding validate_level check_node check_type check_enum check_contents check_object check_required
    check_properties check_additional check_known required_of properties_of check_number check_bound
    json_get find_member c_string slice_eq mem_equal
id_accepted = refl

unknown_rejected :
    validated 3 (obj id_schema) (obj (member (codes "x") (num 1) with_id))
    ≡ rejected (Reason.unexpected_property (codes "x"))
unfolding validate_level check_node check_type check_enum check_contents check_object check_required
    check_properties check_additional check_known required_of properties_of check_number check_bound
    json_get find_member c_string slice_eq mem_equal
unknown_rejected = refl

validate_level-object_example :
    HasAll (obj with_id) (required_of (json_get (obj id_schema) (codes "required")))
    × AllFit
        (validated 2)
        (obj with_id)
        (properties_of (json_get (obj id_schema) (codes "properties")))
    × ((props : Members ℕ)
        → json_get (obj id_schema) (codes "additionalProperties") ≡ some (boolean false)
        → json_get (obj id_schema) (codes "properties") ≡ some (obj props)
        → AllNamed (obj props) with_id)
validate_level-object_example =
    validate_level-object whole ltb ◌==◌ (λ n. n) 2 id_schema with_id id_accepted

id_depth : depth (obj id_schema) < 4
unfolding depth depth_members
id_depth = omega arith

validate_level-Ends_example : Ends (validated 4 (obj id_schema) (obj with_id))
validate_level-Ends_example =
    validate_level-Ends whole ltb ◌==◌ (λ n. n) 4 (obj id_schema) (obj with_id) id_depth

-- ===== src/Json/Trip.antt =====
-- JSON values that src/common/json.c emits and parses back.
use naitron_c.Prelude.{
  ℕ, zero, suc, ◌+◌, ◌≤◌, true, false, [], ◌∷◌, ◌++◌, some, ltb, Bytes, length, ◌≡◌, refl, sym, ap,
  ◌∙◌, inl, inr, arith, Bool-cases, ◌>>=◌, append-nil, append_assoc, some-inj, none-some,
}
use naitron_c.Json.Containers.{
  null_here, true_here, false_here, string_here, array_here, object_here, empty_array, empty_object,
  array_body, object_body, number_stops, members_assoc, array_trip, object_trip,
}
use mathlib.Core.Path.{subst}
use naitron_c.Json.Parse.{json_parse, json_max_depth, items_loop, members_loop, parse_value}
use naitron_c.Json.Emit.{json_emit}
use naitron_c.Json.EmitLaws.{json_emit_lem}
use naitron_c.Json.Value.{
  Json, Items, Members, json_null, boolean, num, str, arr, obj, no_items, item, no_members, member,
}
use naitron_c.Json.Text.{text, items_text, members_text}
use naitron_c.Json.Limits.{Stops, IsSmall, AreSmall, MembersSmall, parse_number-print}
use naitron_c.Json.Rounds.{
  text_begins, number_here, items_count, items_last, items_next, members_last, members_next,
  members_count,
}

module _ {N : Type 0} (strtod : Bytes → N) (print : N → Bytes) where
  abbrev items_body : Items N → Bytes → Bytes
  items_body no_items rest = []
  items_body (item v vs) rest = array_body strtod print v vs rest

  abbrev members_body : Members N → Bytes → Bytes
  members_body no_members rest = []
  members_body (member k v ms) rest = object_body strtod print k v ms rest

  mutual
    unfolding text items_text members_text IsSmall AreSmall MembersSmall parse_value items_count
        members_count

    value_trip :
        (d : ℕ) (v : Json N) (rest : Bytes)
        → IsSmall strtod print d v
        → Stops rest
        → parse_value strtod d (text print v ++ rest) ≡ some (v, rest)
    value_trip zero v rest h s = absurd h
    value_trip (suc d) json_null rest h s = null_here strtod print (parse_value strtod d) rest
    value_trip (suc d) (boolean true) rest h s = true_here strtod print (parse_value strtod d) rest
    value_trip (suc d) (boolean false) rest h s =
        false_here strtod print (parse_value strtod d) rest
    value_trip (suc d) (num x) rest h s =
        number_here strtod print (parse_value strtod d) (print x) rest h.starts
        ∙ ap some (parse_number-print strtod print x rest h s)
    value_trip (suc d) (str t) rest h s = string_here strtod print (parse_value strtod d) t rest
    value_trip (suc d) (arr no_items) rest h s =
        array_here strtod print (parse_value strtod d) (b']' ∷ rest)
        ∙ empty_array strtod print (parse_value strtod d) rest
    value_trip (suc d) (arr (item v vs)) rest h s =
        array_here strtod print (parse_value strtod d) _
        ∙ array_trip strtod print (parse_value strtod d) v vs rest
            (text_begins strtod print d v _ h.1)
            (λ fuel f. items_trip d fuel 0 (item v vs) rest h (omega arith) f)
    value_trip (suc d) (obj no_members) rest h s =
        object_here strtod print (parse_value strtod d) (b'}' ∷ rest)
        ∙ empty_object strtod print (parse_value strtod d) rest
    value_trip (suc d) (obj (member k v ms)) rest h s =
        object_here strtod print (parse_value strtod d) _
        ∙ object_trip strtod print (parse_value strtod d) k v ms rest
            (λ fuel f. members_trip d fuel 0 (member k v ms) rest h (omega arith) f)

    items_trip :
        (d fuel n : ℕ) (vs : Items N) (rest : Bytes)
        → AreSmall strtod print d n vs
        → 1 ≤ items_count vs
        → items_count vs ≤ fuel
        → items_loop strtod (parse_value strtod d) fuel n (items_body vs rest) ≡ some (vs, rest)
    items_trip d fuel n no_items rest h p f = absurd (omega arith)
    items_trip d zero n (item v vs) rest h p f = absurd (omega arith)
    items_trip d (suc fuel) n (item v no_items) rest h p f =
        items_last strtod print (parse_value strtod d) fuel n v _ rest h.0
          (value_trip d v (b']' ∷ rest) h.1 (number_stops strtod print).0)
    items_trip d (suc fuel) n (item v (item w ws)) rest h p f =
        items_next strtod print (parse_value strtod d) fuel n v (item w ws) _ _ rest h.0
          (value_trip d v _ h.1 (number_stops strtod print).2)
          (ap (items_loop strtod (parse_value strtod d) fuel (n + 1))
              (append_assoc (text print w) _ _)
            ∙ items_trip d fuel (n + 1) (item w ws) rest h.2 (omega arith) (omega arith))

    members_trip :
        (d fuel n : ℕ) (ms : Members N) (rest : Bytes)
        → MembersSmall strtod print d n ms
        → 1 ≤ members_count ms
        → members_count ms ≤ fuel
        → members_loop strtod (parse_value strtod d) fuel n (members_body ms rest) ≡ some (ms, rest)
    members_trip d fuel n no_members rest h p f = absurd (omega arith)
    members_trip d zero n (member k v ms) rest h p f = absurd (omega arith)
    members_trip d (suc fuel) n (member k v no_members) rest h p f =
        members_last strtod print (parse_value strtod d) fuel n k v _ rest h.0
          (value_trip d v (b'}' ∷ rest) h.1 (number_stops strtod print).1)
    members_trip d (suc fuel) n (member k v (member l w ns)) rest h p f =
        members_next strtod print (parse_value strtod d) fuel n k v (member l w ns) _ _ rest h.0
          (value_trip d v _ h.1 (number_stops strtod print).2)
          (ap (members_loop strtod (parse_value strtod d) fuel (n + 1))
              (members_assoc strtod print l w ns (b'}' ∷ rest))
            ∙ members_trip d fuel (n + 1) (member l w ns) rest h.2 (omega arith) (omega arith))

  emitted :
      (cap : ℕ) (v : Json N) (buf : Bytes) → json_emit print cap v ≡ some buf → text print v ≡ buf
  emitted cap v buf e = elim (Bool-cases (ltb (length (text print v)) cap)) [
    | inl t ↦ some-inj (sym (json_emit_lem print cap v ∙ rw t refl) ∙ e)
    | inr f ↦ absurd (none-some (sym (json_emit_lem print cap v ∙ rw f refl) ∙ e))
  ]

  -- A value that was emitted is parsed back, if it stays within the parser's limits: at most 32
  -- levels, at most 64 elements in each array and object, and numbers whose text `strtod` reads back.
  pub json_parse-json_emit :
      (cap : ℕ) (v : Json N) (buf : Bytes)
      → IsSmall strtod print json_max_depth v
      → json_emit print cap v ≡ some buf
      → json_parse strtod buf ≡ some v
  unfolding json_parse
  json_parse-json_emit cap v buf h e =
      subst (λ b. json_parse strtod b ≡ some v) (emitted cap v buf e)
        (ap (λ o. o >>= λ r. some r.0)
          (ap (parse_value strtod json_max_depth) (sym (append-nil (text print v)))
            ∙ value_trip json_max_depth v [] h tt))

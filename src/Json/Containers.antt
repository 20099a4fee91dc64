-- ===== src/Json/Containers.antt =====
-- Values of src/common/json.c by their first character, and arrays and objects around the loops
-- that read their elements.
use naitron_c.Prelude.{
  ℕ, ◌≤◌, true, false, [], ◌∷◌, ◌++◌, Option, none, some, Bytes, length, ◌≡◌, refl, ap, ◌∙◌, arith,
  append_assoc, length-append,
}
use naitron_c.Json.Parse.{
  is_number_char, skip_ws, expect, items_loop, members_loop, parse_array, parse_object, value_at,
  value_here,
}
use naitron_c.Json.StringTrip.{escape_text, parse_string-escape}
use naitron_c.Json.Value.{
  Json, Items, Members, json_null, boolean, str, arr, obj, no_items, item, no_members, member,
}
use naitron_c.Json.Text.{string_text, text, items_text, members_text}
use naitron_c.Json.Limits.{literal-append}
use naitron_c.Json.Rounds.{
  closing_assoc, items_count, items_count-length, members_count, members_count-length,
}

module _ {N : Type 0} (strtod : Bytes → N) (print : N → Bytes) where
  -- A value by its first character.
  pub null_here :
      (value : Bytes → Option (Json N × Bytes)) (rest : Bytes)
      → value_here strtod value (skip_ws (text print json_null ++ rest)) ≡ some (json_null, rest)
  unfolding value_here value_at skip_ws text
  null_here value rest = literal-append (b'n' ∷ b'u' ∷ b'l' ∷ b'l' ∷ []) json_null rest

  pub true_here :
      (value : Bytes → Option (Json N × Bytes)) (rest : Bytes)
      → value_here strtod value (skip_ws (text print (boolean true) ++ rest))
        ≡ some (boolean true, rest)
  unfolding value_here value_at skip_ws text
  true_here value rest = literal-append (b't' ∷ b'r' ∷ b'u' ∷ b'e' ∷ []) (boolean true) rest

  pub false_here :
      (value : Bytes → Option (Json N × Bytes)) (rest : Bytes)
      → value_here strtod value (skip_ws (text print (boolean false) ++ rest))
        ≡ some (boolean false, rest)
  unfolding value_here value_at skip_ws text
  false_here value rest =
      literal-append (b'f' ∷ b'a' ∷ b'l' ∷ b's' ∷ b'e' ∷ []) (boolean false) rest

  pub string_here :
      (value : Bytes → Option (Json N × Bytes)) (s rest : Bytes)
      → value_here strtod value (skip_ws (text print (str s) ++ rest)) ≡ some (str s, rest)
  unfolding value_here value_at skip_ws text
  string_here value s rest =
      rw (append_assoc (escape_text s) (b'"' ∷ []) rest, parse_string-escape s rest) refl

  pub array_here :
      (value : Bytes → Option (Json N × Bytes)) (s : Bytes)
      → value_here strtod value (skip_ws (b'[' ∷ s)) ≡ parse_array strtod value s
  unfolding value_here value_at skip_ws
  array_here value s = refl

  pub object_here :
      (value : Bytes → Option (Json N × Bytes)) (s : Bytes)
      → value_here strtod value (skip_ws (b'{' ∷ s)) ≡ parse_object strtod value s
  unfolding value_here value_at skip_ws
  object_here value s = refl

  pub empty_array :
      (value : Bytes → Option (Json N × Bytes)) (rest : Bytes)
      → parse_array strtod value (b']' ∷ rest) ≡ some (arr no_items, rest)
  unfolding parse_array skip_ws expect
  empty_array value rest = refl

  pub empty_object :
      (value : Bytes → Option (Json N × Bytes)) (rest : Bytes)
      → parse_object strtod value (b'}' ∷ rest) ≡ some (obj no_members, rest)
  unfolding parse_object skip_ws expect
  empty_object value rest = refl

  abbrev pub array_body : (v : Json N) (vs : Items N) (rest : Bytes) → Bytes
  array_body v vs rest = text print v ++ (items_text print false vs ++ (b']' ∷ rest))

  abbrev pub object_body : (k : Bytes) (v : Json N) (ms : Members N) (rest : Bytes) → Bytes
  object_body k v ms rest =
      string_text k ++ (b':' ∷ (text print v ++ (members_text print false ms ++ (b'}' ∷ rest))))

  pub array_fuel :
      (v : Json N) (vs : Items N) (rest : Bytes)
      → items_count (item v vs) ≤ length (array_body v vs rest)
  unfolding items_count
  array_fuel v vs rest =
      let body = items_text print false vs ++ (b']' ∷ rest) in
      omega (
        arith,
        items_count-length strtod print vs,
        length-append (text print v) body,
        length-append (items_text print false vs) (b']' ∷ rest),
      )

  pub object_fuel :
      (k : Bytes) (v : Json N) (ms : Members N) (rest : Bytes)
      → members_count (member k v ms) ≤ length (object_body k v ms rest)
  unfolding members_count
  object_fuel k v ms rest =
      let body = members_text print false ms ++ (b'}' ∷ rest) in
      omega (
        arith,
        members_count-length strtod print ms,
        length-append (string_text k) (b':' ∷ (text print v ++ body)),
        length-append (text print v) body,
        length-append (members_text print false ms) (b'}' ∷ rest),
      )

  pub number_stops :
      (is_number_char b']' ≡ false) × (is_number_char b'}' ≡ false) × (is_number_char b',' ≡ false)
  unfolding is_number_char
  number_stops = (refl, refl, refl)

  -- The text of the members behind the first quote, regrouped by what a round reads.
  pub members_assoc :
      (k : Bytes) (v : Json N) (ms : Members N) (rest : Bytes)
      → (string_text k ++ (b':' ∷ (text print v ++ members_text print false ms))) ++ rest
        ≡ string_text k ++ (b':' ∷ (text print v ++ (members_text print false ms ++ rest)))
  members_assoc k v ms rest =
      append_assoc (string_text k) (b':' ∷ (text print v ++ members_text print false ms)) rest
      ∙ ap (λ x. string_text k ++ (b':' ∷ x))
          (append_assoc (text print v) (members_text print false ms) rest)

  -- An array or an object that is not empty, when the loop reads its elements.
  pub parse_array-loop :
      (value : Bytes → Option (Json N × Bytes)) (s : Bytes) (vs : Items N) (rest : Bytes)
      → (skip_ws s ≡ s) × (expect b']' s ≡ none)
      → items_loop strtod value (length s) 0 s ≡ some (vs, rest)
      → parse_array strtod value s ≡ some (arr vs, rest)
  unfolding parse_array
  parse_array-loop value s vs rest b loop = rw (b.0, parse_array, b.1, b.0, loop) refl

  pub parse_object-loop :
      (value : Bytes → Option (Json N × Bytes)) (s : Bytes) (ms : Members N) (rest : Bytes)
      → (skip_ws s ≡ s) × (expect b'}' s ≡ none)
      → members_loop strtod value (length s) 0 s ≡ some (ms, rest)
      → parse_object strtod value s ≡ some (obj ms, rest)
  unfolding parse_object
  parse_object-loop value s ms rest b loop = rw (b.0, parse_object, b.1, b.0, loop) refl

  pub array_trip :
      (value : Bytes → Option (Json N × Bytes)) (v : Json N) (vs : Items N) (rest : Bytes)
      → (skip_ws (array_body v vs rest) ≡ array_body v vs rest)
        × (expect b']' (array_body v vs rest) ≡ none)
      → ((fuel : ℕ)
          → items_count (item v vs) ≤ fuel
          → items_loop strtod value fuel 0 (array_body v vs rest) ≡ some (item v vs, rest))
      → parse_array strtod value
          (((text print v ++ items_text print false vs) ++ (b']' ∷ [])) ++ rest)
        ≡ some (arr (item v vs), rest)
  array_trip value v vs rest b loop =
      ap (parse_array strtod value)
        (closing_assoc (text print v) (items_text print false vs) rest b']')
      ∙ parse_array-loop value (array_body v vs rest) _ rest b (loop _ (array_fuel v vs rest))

  pub object_starts :
      (s : Bytes) → (skip_ws (b'"' ∷ s) ≡ b'"' ∷ s) × (expect b'}' (b'"' ∷ s) ≡ none)
  unfolding skip_ws expect
  object_starts s = (refl, refl)

  pub object_trip :
      (value : Bytes → Option (Json N × Bytes)) (k : Bytes) (v : Json N) (ms : Members N)
      (rest : Bytes)
      → ((fuel : ℕ)
          → members_count (member k v ms) ≤ fuel
          → members_loop strtod value fuel 0 (object_body k v ms rest) ≡ some (member k v ms, rest))
      → parse_object strtod value ((members_text print true (member k v ms) ++ (b'}' ∷ [])) ++ rest)
        ≡ some (obj (member k v ms), rest)
  unfolding members_text
  object_trip value k v ms rest loop =
      ap (parse_object strtod value) (
        append_assoc (members_text print true (member k v ms)) (b'}' ∷ []) rest
        ∙ members_assoc k v ms (b'}' ∷ rest))
      ∙ parse_object-loop value (object_body k v ms rest) _ rest (object_starts _)
          (loop _ (object_fuel k v ms rest))

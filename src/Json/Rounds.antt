-- ===== src/Json/Rounds.antt =====
-- One round of the parser of src/common/json.c on a text that it emitted.
use naitron_c.Json.Text.{members_text, string_text, text, items_text}
use naitron_c.Json.Limits.{start_ne, StartsNumber, IsSmall, number_value}
use naitron_c.Prelude.{
  ℕ, zero, suc, ◌+◌, ◌≤◌, ◌<◌, true, false, [], ◌∷◌, ◌++◌, Option, none, some, Bytes, length, ◌≡◌,
  refl, ◌∙◌, arith, append_assoc, length-append, lt→ltb,
}
use naitron_c.Json.StringTrip.{escape_text, parse_string-escape}
use naitron_c.Json.Value.{
  Json, Items, Members, json_null, boolean, num, str, arr, obj, no_items, item, no_members, member,
}
use naitron_c.Json.Parse.{
  json_max_members, skip_ws, expect, after_item, keep_item, items_after, items_loop, keep_member,
  members_after, members_loop, parse_number, value_here,
}

-- An array or object and what follows it, regrouped.
pub closing_assoc :
    (t i rest : Bytes) (close : ℕ) → ((t ++ i) ++ (close ∷ [])) ++ rest ≡ t ++ (i ++ (close ∷ rest))
closing_assoc t i rest close =
    append_assoc (t ++ i) (close ∷ []) rest ∙ append_assoc t i (close ∷ rest)

-- A number is where the parser stands at once, and is not the end of an array.
number_begins :
    (t rest : Bytes)
    → StartsNumber t
    → (skip_ws (t ++ rest) ≡ t ++ rest) × (expect b']' (t ++ rest) ≡ none)
unfolding skip_ws expect
number_begins [] rest h = absurd h
number_begins (c ∷ t) rest h =
    let ne = start_ne c in
    rw (ne b' ' h refl, ne b'\t' h refl, ne b'\n' h refl, ne b'\r' h refl, ne b']' h refl)
      (refl, refl)

unfoldable pub items_count : {N : Type 0} → Items N → ℕ
items_count no_items = 0
items_count (item v vs) = suc (items_count vs)

unfoldable pub members_count : {N : Type 0} → Members N → ℕ
members_count no_members = 0
members_count (member k v ms) = suc (members_count ms)

module _ {N : Type 0} (strtod : Bytes → N) (print : N → Bytes) where
  pub number_here :
      (value : Bytes → Option (Json N × Bytes)) (t rest : Bytes)
      → StartsNumber t
      → value_here strtod value (skip_ws (t ++ rest)) ≡ some (parse_number strtod (t ++ rest))
  number_here value [] rest h = absurd h
  number_here value (c ∷ t) rest h = number_value strtod print value c (t ++ rest) h

  pub text_begins :
      (d : ℕ) (v : Json N) (rest : Bytes)
      → IsSmall strtod print d v
      → (skip_ws (text print v ++ rest) ≡ text print v ++ rest)
        × (expect b']' (text print v ++ rest) ≡ none)
  unfolding text IsSmall skip_ws expect
  text_begins zero v rest h = absurd h
  text_begins (suc d) json_null rest h = (refl, refl)
  text_begins (suc d) (boolean true) rest h = (refl, refl)
  text_begins (suc d) (boolean false) rest h = (refl, refl)
  text_begins (suc d) (num x) rest h = number_begins (print x) rest h.starts
  text_begins (suc d) (str s) rest h = (refl, refl)
  text_begins (suc d) (arr vs) rest h = (refl, refl)
  text_begins (suc d) (obj ms) rest h = (refl, refl)

  pub items_count-length : (vs : Items N) → items_count vs ≤ length (items_text print false vs)
  unfolding items_count items_text
  items_count-length no_items = omega arith
  items_count-length (item v vs) =
      omega (arith, items_count-length vs, length-append (text print v) (items_text print false vs))

  -- A round of the loops, when the value is read.
  pub items_last :
      (value : Bytes → Option (Json N × Bytes)) (fuel n : ℕ) (v : Json N) (s rest : Bytes)
      → n < json_max_members
      → value s ≡ some (v, b']' ∷ rest)
      → items_loop strtod value (suc fuel) n s ≡ some (item v no_items, rest)
  unfolding items_loop items_after keep_item after_item skip_ws
  items_last value fuel n v s rest h p = rw (p, lt→ltb n json_max_members h) refl

  pub items_next :
      (value : Bytes → Option (Json N × Bytes)) (fuel n : ℕ) (v : Json N) (vs : Items N)
      (s t rest : Bytes)
      → n < json_max_members
      → value s ≡ some (v, b',' ∷ t)
      → items_loop strtod value fuel (n + 1) t ≡ some (vs, rest)
      → items_loop strtod value (suc fuel) n s ≡ some (item v vs, rest)
  unfolding items_loop items_after keep_item after_item skip_ws
  items_next value fuel n v vs s t rest h p q = rw (p, q, lt→ltb n json_max_members h) refl

  pub members_last :
      (value : Bytes → Option (Json N × Bytes)) (fuel n : ℕ) (k : Bytes) (v : Json N)
      (s rest : Bytes)
      → n < json_max_members
      → value s ≡ some (v, b'}' ∷ rest)
      → members_loop strtod value (suc fuel) n (string_text k ++ (b':' ∷ s))
        ≡ some (member k v no_members, rest)
  unfolding members_loop members_after keep_member after_item skip_ws expect
  members_last value fuel n k v s rest h p =
      rw
        (
          append_assoc (escape_text k) (b'"' ∷ []) (b':' ∷ s),
          parse_string-escape k (b':' ∷ s),
          p,
          lt→ltb n json_max_members h,
        )
        refl

  pub members_next :
      (value : Bytes → Option (Json N × Bytes)) (fuel n : ℕ) (k : Bytes) (v : Json N)
      (ms : Members N) (s t rest : Bytes)
      → n < json_max_members
      → value s ≡ some (v, b',' ∷ t)
      → members_loop strtod value fuel (n + 1) t ≡ some (ms, rest)
      → members_loop strtod value (suc fuel) n (string_text k ++ (b':' ∷ s))
        ≡ some (member k v ms, rest)
  unfolding members_loop members_after keep_member after_item skip_ws expect
  members_next value fuel n k v ms s t rest h p q =
      rw
        (
          append_assoc (escape_text k) (b'"' ∷ []) (b':' ∷ s),
          parse_string-escape k (b':' ∷ s),
          p,
          q,
          lt→ltb n json_max_members h,
        )
        refl

  pub members_count-length :
      (ms : Members N) → members_count ms ≤ length (members_text print false ms)
  unfolding members_count members_text
  members_count-length no_members = omega arith
  members_count-length (member k v ms) = omega (
    arith,
    members_count-length ms,
    length-append (string_text k) (b':' ∷ (text print v ++ members_text print false ms)),
    length-append (text print v) (members_text print false ms),
  )

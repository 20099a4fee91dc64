-- ===== src/Json/Parse.antt =====
-- The parser of src/common/json.c. `strtod` is a parameter; the allocations of the arena succeed.
-- `none` is the result NULL.
use naitron_c.Prelude.{
  ℕ, zero, suc, ◌+◌, Bool, true, false, ◌||◌, ◌&&◌, [], ◌∷◌, Option, none, some, ltb, leb, ◌==◌,
  if◌then◌else◌, Bytes, length, take, drop, ◌>>=◌,
}
use naitron_c.Slice.{mem_equal}
use naitron_c.Json.Strings.{parse_string}
use naitron_c.Json.Value.{
  Json, Items, Members, json_null, boolean, num, str, arr, obj, no_items, item, no_members, member,
}

abbrev pub json_max_members : ℕ
json_max_members = 64

abbrev pub json_max_depth : ℕ
json_max_depth = 32

unfoldable pub skip_ws : Bytes → Bytes
skip_ws [] = []
skip_ws (c ∷ s) =
    let rest = skip_ws s in
    if c == b' ' || c == b'\t' || c == b'\n' || c == b'\r' then rest else c ∷ s

unfoldable pub is_number_char : ℕ → Bool
is_number_char c =
    c == b'-' || c == b'+' || c == b'.' || c == b'e' || c == b'E' || (leb b'0' c && leb c b'9')

-- The characters of a number, and what is left.
unfoldable pub number_span : Bytes → Bytes × Bytes
number_span [] = ([], [])
number_span (c ∷ s) =
    let rest = number_span s in if is_number_char c then (c ∷ rest.0, rest.1) else ([], c ∷ s)

-- What is left behind a character that has to come.
unfoldable pub expect : ℕ → Bytes → Option Bytes
expect ch [] = none
expect ch (c ∷ s) = if c == ch then some s else none

-- The word of a literal, `memcmp(s->p, word, n) == 0`.
unfoldable pub literal {ℓ} : {A : Type ℓ} → Bytes → A → Bytes → Option (A × Bytes)
literal word v s =
    if leb (length word) (length s) && mem_equal (take (length word) s) word
    then some (v, drop (length word) s)
    else none

-- Behind an element: another one, the end, or an error.
pub data After : Type 0 where
  more done : Bytes → After
  neither : After

unfoldable pub after_item : ℕ → Bytes → After
after_item close [] = neither
after_item close (c ∷ s) = if c == b',' then more s else if c == close then done s else neither

module _ {N : Type 0} (strtod : Bytes → N) where
  abbrev pub Reader : Type 0
  Reader = Bytes → Option (Json N × Bytes)

  -- An element behind `n` others is stored while the array on the stack has room.
  unfoldable pub keep_item : ℕ → Json N → Items N → Items N
  keep_item n v vs = if ltb n json_max_members then item v vs else vs

  unfoldable pub items_after :
      (Bytes → Option (Items N × Bytes)) → ℕ → Json N → After → Option (Items N × Bytes)
  items_after loop n v (more s) = loop s >>= λ r. some (keep_item n v r.0, r.1)
  items_after loop n v (done s) = some (keep_item n v no_items, s)
  items_after loop n v neither = none

  -- The loop for the items of an array, `n` of them read.
  unfoldable pub items_loop : Reader → ℕ → ℕ → Bytes → Option (Items N × Bytes)
  items_loop value zero n s = none
  items_loop value (suc fuel) n s = value s >>= λ r.
      items_after (items_loop value fuel (n + 1)) n r.0 (after_item b']' (skip_ws r.1))

  unfoldable pub keep_member : ℕ → Bytes → Json N → Members N → Members N
  keep_member n k v ms = if ltb n json_max_members then member k v ms else ms

  unfoldable pub members_after :
      (Bytes → Option (Members N × Bytes)) → ℕ → Bytes → Json N → After → Option (Members N × Bytes)
  members_after loop n k v (more s) = loop s >>= λ r. some (keep_member n k v r.0, r.1)
  members_after loop n k v (done s) = some (keep_member n k v no_members, s)
  members_after loop n k v neither = none

  -- The loop for the members of an object, `n` of them read.
  unfoldable pub members_loop : Reader → ℕ → ℕ → Bytes → Option (Members N × Bytes)
  members_loop value zero n s = none
  members_loop value (suc fuel) n s = expect b'"' (skip_ws s) >>= λ t. parse_string t >>= λ k.
      expect b':' (skip_ws k.1) >>= λ u. value u >>= λ r.
      members_after (members_loop value fuel (n + 1)) n k.0 r.0 (after_item b'}' (skip_ws r.1))

  unfoldable pub parse_array : Reader → Bytes → Option (Json N × Bytes)
  parse_array value s =
      let t = skip_ws s in
      elim (expect b']' t) [
        | some u ↦ some (arr no_items, u)
        | none ↦ items_loop value (length t) 0 t >>= λ r. some (arr r.0, r.1)
      ]

  unfoldable pub parse_object : Reader → Bytes → Option (Json N × Bytes)
  parse_object value s =
      let t = skip_ws s in
      elim (expect b'}' t) [
        | some u ↦ some (obj no_members, u)
        | none ↦ members_loop value (length t) 0 t >>= λ r. some (obj r.0, r.1)
      ]

  -- The first 63 characters of the number go to `strtod`.
  unfoldable pub parse_number : Bytes → Json N × Bytes
  parse_number s = (num (strtod (take 63 (number_span s).0)), (number_span s).1)

  -- `parse_value` behind the test on the depth and the blanks, at the character `c`.
  unfoldable pub value_at : Reader → ℕ → Bytes → Option (Json N × Bytes)
  value_at value c s =
      if c == b'{'
      then parse_object value s
      else if c == b'['
      then parse_array value s
      else if c == b'"'
      then (parse_string s >>= λ r. some (str r.0, r.1))
      else if c == b't'
      then literal (b't' ∷ b'r' ∷ b'u' ∷ b'e' ∷ []) (boolean true) (c ∷ s)
      else if c == b'f'
      then literal (b'f' ∷ b'a' ∷ b'l' ∷ b's' ∷ b'e' ∷ []) (boolean false) (c ∷ s)
      else if c == b'n'
      then literal (b'n' ∷ b'u' ∷ b'l' ∷ b'l' ∷ []) json_null (c ∷ s)
      else if c == b'-' || (leb b'0' c && leb c b'9')
      then some (parse_number (c ∷ s))
      else none

  unfoldable pub value_here : Reader → Bytes → Option (Json N × Bytes)
  value_here value [] = none
  value_here value (c ∷ s) = value_at value c s

  -- `parse_value`, where `depth` levels are left.
  unfoldable pub parse_value : ℕ → Reader
  parse_value zero s = none
  parse_value (suc depth) s = value_here (parse_value depth) (skip_ws s)

  -- `ntc_json_parse`; what follows the value is not looked at.
  unfoldable pub json_parse : Bytes → Option (Json N)
  json_parse buf = parse_value json_max_depth buf >>= λ r. some r.0

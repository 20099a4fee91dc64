-- ===== src/Json/Value.antt =====
-- The values of src/common/json.c. A number is a value of the type `N`, which stands for `double`.
use naitron_c.Prelude.{Bool, [], Option, none, some, if◌then◌else◌, Bytes}
use naitron_c.Slice.{slice_eq}

mutual
  pub data Json (N : Type 0) : Type 0 where
    json_null : Json N
    boolean : Bool → Json N
    num : N → Json N
    str : Bytes → Json N
    arr : Items N → Json N
    obj : Members N → Json N

  -- `items[0 .. count)`.
  pub data Items (N : Type 0) : Type 0 where
    no_items : Items N
    item : Json N → Items N → Items N

  -- `keys[0 .. count)` with `vals[0 .. count)`.
  pub data Members (N : Type 0) : Type 0 where
    no_members : Members N
    member : Bytes → Json N → Members N → Members N

module _ {N : Type 0} where
  unfoldable pub find_member : Members N → Bytes → Option (Json N)
  find_member no_members key = none
  find_member (member k v ms) key =
      let rest = find_member ms key in if slice_eq k key then some v else rest

  -- `ntc_json_get`; `none` is NULL, as a missing object or a missing key.
  unfoldable pub json_get : Json N → Bytes → Option (Json N)
  json_get (obj ms) key = find_member ms key
  json_get _ key = none

  -- `ntc_json_str` of a value that is not NULL.
  unfoldable pub json_str : Json N → Bytes
  json_str (str s) = s
  json_str _ = []

  -- `ntc_json_num` of a value that is not NULL; `zero_num` is 0.0.
  unfoldable pub json_num : N → Json N → N
  json_num zero_num (num x) = x
  json_num zero_num _ = zero_num

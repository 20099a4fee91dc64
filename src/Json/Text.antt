-- ===== src/Json/Text.antt =====
-- The text of a JSON value, as src/common/json.c emits it into a buffer that is large enough.
use naitron_c.Prelude.{Bool, true, false, [], ◌∷◌, ◌++◌, Bytes}
use naitron_c.Json.StringTrip.{escape_text}
use naitron_c.Json.Value.{
  Json, Items, Members, json_null, boolean, num, str, arr, obj, no_items, item, no_members, member,
}

abbrev pub string_text : Bytes → Bytes
string_text s = b'"' ∷ (escape_text s ++ (b'"' ∷ []))

abbrev pub comma_text : Bool → Bytes
comma_text true = []
comma_text false = b',' ∷ []

module _ {N : Type 0} (print : N → Bytes) where
  unfoldable mutual
    pub text : Json N → Bytes
    text json_null = b'n' ∷ b'u' ∷ b'l' ∷ b'l' ∷ []
    text (boolean true) = b't' ∷ b'r' ∷ b'u' ∷ b'e' ∷ []
    text (boolean false) = b'f' ∷ b'a' ∷ b'l' ∷ b's' ∷ b'e' ∷ []
    text (num x) = print x
    text (str s) = string_text s
    text (arr vs) = b'[' ∷ (items_text true vs ++ (b']' ∷ []))
    text (obj ms) = b'{' ∷ (members_text true ms ++ (b'}' ∷ []))

    pub items_text : Bool → Items N → Bytes
    items_text first no_items = []
    items_text first (item v vs) = comma_text first ++ (text v ++ items_text false vs)

    pub members_text : Bool → Members N → Bytes
    members_text first no_members = []
    members_text first (member k v ms) =
        comma_text first ++ (string_text k ++ (b':' ∷ (text v ++ members_text false ms)))

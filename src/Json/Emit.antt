-- ===== src/Json/Emit.antt =====
-- `ntc_json_emit` of src/common/json.c. `print` stands for the `snprintf` of a number.
use naitron_c.Prelude.{
  ℕ, ◌+◌, ◌-◌, Bool, true, false, [], ◌∷◌, ◌++◌, Option, none, some, leb, ◌==◌, if◌then◌else◌,
  Bytes, length, ◌>>=◌,
}
use naitron_c.Json.Strings.{put, json_escape}
use naitron_c.Json.Value.{
  Json, Items, Members, json_null, boolean, num, str, arr, obj, no_items, item, no_members, member,
}

-- The macro APP on the `*o` bytes that are in `dst`.
unfoldable pub app : ℕ → Bytes → Bytes → Option Bytes
app cap out text = if leb cap (length out + length text) then none else some (out ++ text)

-- A string between quotes, escaped into what is left of `dst`.
unfoldable pub emit_string : ℕ → Bytes → Bytes → Option Bytes
emit_string cap out s =
    put cap out b'"' >>= λ o. json_escape (cap - length o) s >>= λ e. put cap (o ++ e) b'"'

-- `if (i) APC(',')`.
unfoldable pub comma : Bool → ℕ → Bytes → Option Bytes
comma true cap out = some out
comma false cap out = put cap out b','

module _ {N : Type 0} (print : N → Bytes) where
  unfoldable mutual
    pub emit_rec : ℕ → Json N → Bytes → Option Bytes
    emit_rec cap json_null out = app cap out (b'n' ∷ b'u' ∷ b'l' ∷ b'l' ∷ [])
    emit_rec cap (boolean true) out = app cap out (b't' ∷ b'r' ∷ b'u' ∷ b'e' ∷ [])
    emit_rec cap (boolean false) out = app cap out (b'f' ∷ b'a' ∷ b'l' ∷ b's' ∷ b'e' ∷ [])
    emit_rec cap (num x) out = app cap out (print x)
    emit_rec cap (str s) out = emit_string cap out s
    emit_rec cap (arr vs) out =
        put cap out b'[' >>= λ o. emit_items cap true vs o >>= λ o'. put cap o' b']'
    emit_rec cap (obj ms) out =
        put cap out b'{' >>= λ o. emit_members cap true ms o >>= λ o'. put cap o' b'}'

    -- The flag is `i == 0`.
    pub emit_items : ℕ → Bool → Items N → Bytes → Option Bytes
    emit_items cap first no_items out = some out
    emit_items cap first (item v vs) out =
        comma first cap out >>= λ o. emit_rec cap v o >>= λ o'. emit_items cap false vs o'

    pub emit_members : ℕ → Bool → Members N → Bytes → Option Bytes
    emit_members cap first no_members out = some out
    emit_members cap first (member k v ms) out = comma first cap out >>= λ o.
        emit_string cap o k >>= λ o1.
        put cap o1 b':' >>= λ o2. emit_rec cap v o2 >>= λ o'. emit_members cap false ms o'

  unfoldable pub json_emit : ℕ → Json N → Option Bytes
  json_emit cap v =
      if cap == 0
      then none
      else (emit_rec cap v [] >>= λ o. if leb cap (length o) then none else some o)

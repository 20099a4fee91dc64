-- ===== src/Server/Query.antt =====
-- A value of a query, the schema of a request and the counts of answers in src/core/server.c.
use naitron_c.Prelude.{
  ℕ, zero, suc, ◌+◌, ◌-◌, ◌%◌, ◌^◌, Bool, false, ◌&&◌, [], ◌∷◌, Option, none, some, ltb, leb, ◌==◌,
  if◌then◌else◌, Bytes, length, take, drop, get_or, ◌>>=◌,
}
use naitron_c.Slice.{mem_equal}
use naitron_c.Http.Scan.{find_char}
use naitron_c.Json.Value.{Json, Members, obj, no_members, member}
use naitron_c.Server.Url.{seg_pattern_match}

-- `(size_t)(seg_end - p) > klen && strncmp(p, key, klen) == 0 && p[klen] == '='` on one segment.
unfoldable pub segment_has : Bytes → Bytes → Bool
segment_has seg key =
    ltb (length key) (length seg)
    && mem_equal (take (length key) seg) key
    && get_or seg (length key) 0 == b'='

-- The loop; each round but the last passes an '&'. The query holds no NUL.
unfoldable pub query_get_loop : ℕ → Bytes → Bytes → Option Bytes
query_get_loop fuel [] key = none
query_get_loop zero (c ∷ s) key = none
query_get_loop (suc fuel) (c ∷ s) key = elim (find_char b'&' (c ∷ s)) [
  | none ↦ if segment_has (c ∷ s) key then some (drop (length key + 1) (c ∷ s)) else none
  | some amp ↦
      let seg = take amp (c ∷ s) in
      let rest = query_get_loop fuel (drop (amp + 1) (c ∷ s)) key in
      if segment_has seg key then some (drop (length key + 1) seg) else rest
]

-- `query_get` for a buffer that is not empty: what `out` holds.
unfoldable pub query_get : Bytes → Bytes → ℕ → Option Bytes
query_get q key cap = query_get_loop (length q) q key >>= λ v. some (take (cap - 1) v)

-- The test on one key, "METHOD /pattern".
unfoldable pub key_fits : Bytes → Bytes → Bytes → Bool
key_fits key method path = elim (find_char b' ' key) [
  | none ↦ false
  | some sp ↦ mem_equal (take sp key) method && seg_pattern_match (drop (sp + 1) key) path
]

module _ {N : Type 0} where
  unfoldable pub schema_in : Members N → Bytes → Bytes → Option (Json N)
  schema_in no_members method path = none
  schema_in (member key v ms) method path =
      let rest = schema_in ms method path in if key_fits key method path then some v else rest

  -- `gw_schema_for`, with `none` for a gateway without schemas.
  unfoldable pub schema_for : Option (Json N) → Bytes → Bytes → Option (Json N)
  schema_for (some (obj ms)) method path = schema_in ms method path
  schema_for _ method path = none

pub record Metrics : Type 0 where
  pub requests_total : ℕ
  pub status_2xx : ℕ
  pub status_4xx : ℕ
  pub status_5xx : ℕ

-- `rec_status`, for counters of 64 bits and a status that is not negative.
unfoldable pub rec_status : Metrics → ℕ → Metrics
rec_status m status =
    let m' = record m { requests_total = (m.requests_total + 1) % 2 ^ 64 } in
    if leb 500 status
    then record m' { status_5xx = (m.status_5xx + 1) % 2 ^ 64 }
    else if leb 400 status
    then record m' { status_4xx = (m.status_4xx + 1) % 2 ^ 64 }
    else if leb 200 status && ltb status 300
    then record m' { status_2xx = (m.status_2xx + 1) % 2 ^ 64 }
    else m'

-- ===== src/Http/Access.antt =====
-- The accessors of src/common/http_request.c. A missing name gives the empty slice.
use naitron_c.Prelude.{
  ℕ, zero, suc, ◌+◌, ◌&&◌, List, [], ◌∷◌, Option, none, some, ◌==◌, if◌then◌else◌, Bytes, length,
  take, drop, ◌>>=◌,
}
use naitron_c.Http.{Header, Request}
use naitron_c.Http.Scan.{islabel_eq, find_char}
use naitron_c.Slice.{slice_eq, mem_equal}

unfoldable pub find_header : List Header → Bytes → Bytes
find_header [] name = []
find_header (h ∷ hs) name =
    let rest = find_header hs name in if islabel_eq h.name name then h.value else rest

unfoldable pub http_header : Request → Bytes → Bytes
unfolding find_header
http_header req name = find_header req.headers name

unfoldable pub find_param : List Header → Bytes → Bytes
find_param [] name = []
find_param (h ∷ hs) name =
    let rest = find_param hs name in if slice_eq h.name name then h.value else rest

unfoldable pub req_param : Request → Bytes → Bytes
unfolding find_param
req_param req name = find_param req.params name

-- The run up to the next '&', and what is left from there on.
unfoldable pub query_segment : Bytes → Bytes × Bytes
query_segment [] = ([], [])
query_segment (c ∷ cs) =
    let (seg, rest) = query_segment cs in if c == b'&' then ([], c ∷ cs) else (c ∷ seg, rest)

-- The value of a segment "k=v" whose key is `name`.
unfoldable pub segment_value : Bytes → Bytes → Option Bytes
segment_value seg name = find_char b'=' seg >>= λ eq.
    if eq == length name && mem_equal (take (length name) seg) name
    then some (drop (eq + 1) seg)
    else none

-- The loop over the segments. Each round takes one byte at least.
unfoldable pub query_loop : ℕ → Bytes → Bytes → Option Bytes
query_loop fuel [] name = none
query_loop zero (c ∷ cs) name = none
query_loop (suc fuel) (c ∷ cs) name =
    let (seg, rest) = query_segment (c ∷ cs) in
    elim (segment_value seg name) [ some v ↦ some v | none ↦ query_loop fuel (drop 1 rest) name ]

unfoldable pub req_query : Request → Bytes → Bytes
req_query req name = elim (query_loop (length req.query) req.query name) [ none ↦ [] | some v ↦ v ]

-- ===== src/Router/Table.antt =====
-- The table of src/common/router.c: adding a route, and matching a request. A handler with its
-- `udata` is a value of the type `H`.
use naitron_c.Prelude.{
  ℕ, ◌+◌, ◌*◌, Bool, true, false, not, ◌||◌, ◌&&◌, List, [], ◌∷◌, ◌++◌, Option, none, some, ltb,
  leb, ◌==◌, ◌!=◌, if◌then◌else◌, Bytes, length,
}
use naitron_c.Http.{Header, max_params}
use naitron_c.Slice.{slice_eq}
use naitron_c.Router.Segments.{Seg, max_segments, split_segments}

pub data Err : Type 0 where
  ok invalid oom : Err

pub record Route (H : Type 0) : Type 0 where
  pub method : Bytes
  pub pattern : Bytes
  pub segs : List Seg
  pub handler : H

-- `count` is the number of routes.
pub record Router (H : Type 0) : Type 0 where
  pub routes : List (Route H)
  pub cap : ℕ

-- The results of the allocator in one call of `ntc_router_add`.
pub record Memory : Type 0 where
  pub realloc : Bool
  pub dup_method : Bool
  pub dup_pattern : Bool

pub data RouteStatus (H : Type 0) : Type 0 where
  found : H → List Header → RouteStatus H
  not_found : RouteStatus H
  method_not_allowed : RouteStatus H

module _ {H : Type 0} where
  abbrev pub router_create : Router H
  router_create = record { routes = []; cap = 0 }

  -- The part of `ntc_router_add` after the split of the pattern.
  unfoldable pub add_route : Router H → Bytes → Bytes → H → Option (List Seg) → Err × Router H
  add_route r method pattern h none = (invalid, r)
  add_route r method pattern h (some segs) = (
    ok,
    record r {
      routes =
          r.routes
          ++ (record { method = method; pattern = pattern; segs = segs; handler = h } ∷ []);
    },
  )

  -- The part of `ntc_router_add` after the growth of the table.
  unfoldable pub fill_route : Memory → Router H → Bytes → Bytes → H → Err × Router H
  unfolding add_route
  fill_route m r method pattern h =
      if not m.dup_method || not m.dup_pattern
      then (oom, r)
      else add_route r method pattern h (split_segments pattern max_segments)

  unfoldable pub router_add : Memory → Router H → Bytes → Bytes → H → Err × Router H
  unfolding fill_route
  router_add m r method pattern h =
      if leb r.cap (length r.routes)
      then (if m.realloc
          then fill_route m (record r { cap = if r.cap == 0 then 8 else r.cap * 2 }) method pattern
              h
          else (oom, r))
      else fill_route m r method pattern h

-- The loop that compares the segments of a route with those of a path, of the same number.
unfoldable pub segs_match : List Seg → List Seg → Bool
segs_match [] _ = true
segs_match (r ∷ rs) [] = true
segs_match (r ∷ rs) (p ∷ ps) =
    if r.is_param then segs_match rs ps else slice_eq r.s p.s && segs_match rs ps

-- The loop that fills `params`; `count` of them are stored.
unfoldable pub bind_params : List Seg → List Seg → ℕ → List Header
bind_params (r ∷ rs) (p ∷ ps) count =
    let bound = record { name = r.s; value = p.s } ∷ bind_params rs ps (count + 1) in
    let skipped = bind_params rs ps count in
    if r.is_param && ltb count max_params then bound else skipped
bind_params _ _ count = []

module _ {H : Type 0} where
  -- The tests on one route, before that of the method.
  unfoldable pub route_fits : Option (List Seg) → Route H → Bool
  unfolding segs_match
  route_fits none rt = false
  route_fits (some ps) rt = if length ps != length rt.segs then false else segs_match rt.segs ps

  unfoldable pub route_params : Option (List Seg) → Route H → List Header
  unfolding bind_params
  route_params none rt = []
  route_params (some ps) rt = bind_params rt.segs ps 0

  -- The loop over the routes; the flag is `method_mismatch`.
  unfoldable pub match_loop : Bytes → Option (List Seg) → List (Route H) → Bool → RouteStatus H
  match_loop method ps [] mismatch = if mismatch then method_not_allowed else not_found
  match_loop method ps (rt ∷ rts) mismatch = elim (route_fits ps rt) [
    | false ↦ match_loop method ps rts mismatch
    | true ↦ elim (slice_eq method rt.method) [
      | false ↦ match_loop method ps rts true
      | true ↦ found rt.handler (route_params ps rt)
    ]
  ]

  unfoldable pub router_match : Router H → Bytes → Bytes → RouteStatus H
  unfolding match_loop
  router_match r method path = match_loop method (split_segments path max_segments) r.routes false

-- `ntc_params_get`; a missing name gives the empty slice.
unfoldable pub params_get : List Header → Bytes → Bytes
params_get [] name = []
params_get (p ∷ ps) name =
    let rest = params_get ps name in if slice_eq p.name name then p.value else rest

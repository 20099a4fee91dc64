-- ===== src/Tests/RouterRuns.antt =====
-- Runs of the router.
use naitron_c.Prelude.{ℕ, true, false, [], ◌∷◌, ◌≡◌, refl, arith, codes}
use naitron_c.Router.Table.{
  Memory, Router, found, method_not_allowed, router_create, router_add, fill_route, add_route,
  router_match, match_loop, route_fits, route_params, segs_match, bind_params,
}
use naitron_c.Router.Segments.{mk_seg, split_loop, split_segments}
use naitron_c.Router.Pieces.{within, pieces, join, split_segments-join, split_segments-pieces}
use naitron_c.Router.Lookup.{Verdict, router_match-Verdict}
use naitron_c.Slice.{slice_eq, mem_equal}

abbrev fine : Memory
fine = record { realloc = true; dup_method = true; dup_pattern = true }

abbrev users : Router ℕ
users = record {
  routes =
      record {
        method = codes "GET";
        pattern = codes "/api/users/:id";
        segs =
            record { s = codes "api"; is_param = false }
            ∷ record { s = codes "users"; is_param = false }
            ∷ record { s = codes "id"; is_param = true }
            ∷ [];
        handler = 5;
      }
      ∷ [];
  cap = 8;
}

added : (router_add fine router_create (codes "GET") (codes "/api/users/:id") 5).1 ≡ users
unfolding router_add fill_route add_route split_segments split_loop mk_seg
added = refl

matched :
    router_match users (codes "GET") (codes "//api/users/42/")
    ≡ found 5 (record { name = codes "id"; value = codes "42" } ∷ [])
unfolding router_match match_loop route_fits route_params segs_match bind_params split_segments
    split_loop mk_seg slice_eq mem_equal
matched = refl

other_method : router_match users (codes "POST") (codes "/api/users/42") ≡ method_not_allowed
unfolding router_match match_loop route_fits route_params segs_match bind_params split_segments
    split_loop mk_seg slice_eq mem_equal
other_method = refl

router_match-Verdict_example :
    Verdict
      (codes "POST")
      (codes "/api/users/42")
      users.routes
      (router_match users (codes "POST") (codes "/api/users/42"))
router_match-Verdict_example = router_match-Verdict (codes "POST") (codes "/api/users/42") users

split_segments-pieces_example :
    split_segments (codes "//a/:b") 16 ≡ within 16 (pieces (codes "//a/:b"))
split_segments-pieces_example = split_segments-pieces (codes "//a/:b") 16

split_segments-join_example :
    split_segments (join (codes "a" ∷ codes ":b" ∷ [])) 16 ≡ within 16 (codes "a" ∷ codes ":b" ∷ [])
split_segments-join_example = split_segments-join (codes "a" ∷ codes ":b" ∷ []) 16 (ground arith)

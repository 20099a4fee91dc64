-- ===== src/Router/Lookup.antt =====
-- What `ntc_router_match` of src/common/router.c decides.
use naitron_c.Router.Table.{
  route_params, found, not_found, method_not_allowed, Router, router_match, match_loop, RouteStatus,
  Route, segs_match, route_fits,
}
use naitron_c.Http.{Header}
use naitron_c.Slice.{slice_eq}
use naitron_c.Prelude.{
  Bool, true, false, List, [], ◌∷◌, ◌++◌, some, Bytes, length, ◌≡◌, refl, ap, ◌≢◌, ◌↔◌, ◌⊎◌, inl,
  inr, arith, Bool-cases, Option-cases, All,
}
use naitron_c.Slice.Laws.{slice_eq_iff}
use naitron_c.Router.Segments.{Seg, max_segments, split_segments}

-- A route's segment takes a path's segment: any, or one of the same bytes.
abbrev pub SegFits : Seg → Seg → Type 0
SegFits r p = (r.is_param ≡ true) ⊎ (r.is_param ≡ false) × (r.s ≡ p.s)

pub data Fits : List Seg → List Seg → Type 0 where
  nil : Fits [] []
  cons : {r p : Seg} {rs ps : List Seg} → SegFits r p → Fits rs ps → Fits (r ∷ rs) (p ∷ ps)

segs_match-Fits : (rs ps : List Seg) → length ps ≡ length rs → segs_match rs ps ≡ true → Fits rs ps
unfolding segs_match
segs_match-Fits [] [] l h = nil
segs_match-Fits [] (p ∷ ps) l h = absurd (omega arith)
segs_match-Fits (r ∷ rs) [] l h = absurd (omega arith)
segs_match-Fits (r ∷ rs) (p ∷ ps) l h = elim (Bool-cases r.is_param) [
  | inl e ↦ cons (inl e) (segs_match-Fits rs ps (omega arith) (ground arith))
  | inr e ↦
      cons (inr (e, (slice_eq_iff r.s p.s).0 (ground arith)))
        (segs_match-Fits rs ps (omega arith) (ground arith))
]

Fits-segs_match :
    {rs ps : List Seg} → Fits rs ps → (length ps ≡ length rs) × (segs_match rs ps ≡ true)
unfolding segs_match
Fits-segs_match nil = (refl, refl)
Fits-segs_match (cons {r} {p} f fs) = ground (arith, Fits-segs_match fs, slice_eq_iff r.s p.s, f)

module _ {H : Type 0} where
  -- The path has at most 16 segments, and the route's pattern takes them one for one.
  abbrev pub PathFits : Bytes → Route H → Type 0
  PathFits path rt =
      (ps : List Seg) × (split_segments path max_segments ≡ some ps) × Fits rt.segs ps

  route_fits_iff :
      (path : Bytes) (rt : Route H)
      → (route_fits (split_segments path max_segments) rt ≡ true) ↔ PathFits path rt
  unfolding route_fits
  route_fits_iff path rt = elim (Option-cases (split_segments path max_segments)) [
    | inl e ↦ rw e ((λ h. cc), λ h. cc h.1)
    | inr (ps, e) ↦ rw e (
      (λ h. (ps, refl, segs_match-Fits rt.segs ps (ground arith) (ground arith))),
      λ h. ground (arith, h.1, Fits-segs_match h.2),
    )
  ]

-- The first route of a list that has a property, with the routes before it.
abbrev pub Some {ℓ κ} : {A : Type ℓ} → (A → Type κ) → List A → Type (ℓ ⊔ κ)
Some {A} P xs = (before : List A) × (x : A) × (after : List A) × (xs ≡ before ++ (x ∷ after)) × P x

module _ {H : Type 0} (method path : Bytes) where
  -- A route for this path and another method, or for another path.
  abbrev pub Misses : Route H → Type 0
  Misses q = PathFits path q → method ≢ q.method

  -- A hit: the first route in order of registration that has the method and fits the path.
  pub record Hit (rts : List (Route H)) (h : H) (params : List Header) : Type 0 where
    pub before : List (Route H)
    pub route : Route H
    pub after : List (Route H)
    pub splits : rts ≡ before ++ (route ∷ after)
    pub passed_over : All Misses before
    pub fits : PathFits path route
    pub method_is : method ≡ route.method
    pub handler_is : h ≡ route.handler
    pub params_are : params ≡ route_params (split_segments path max_segments) route

  -- What each answer says of the routes, in order of registration.
  abbrev pub Verdict : List (Route H) → RouteStatus H → Type 0
  Verdict rts (found h params) = Hit rts h params
  Verdict rts not_found = All (λ q. ¬ PathFits path q) rts
  Verdict rts method_not_allowed = All Misses rts × Some (PathFits path) rts

  -- The same, where a route with another method was met before.
  abbrev VerdictAfter : Bool → List (Route H) → RouteStatus H → Type 0
  VerdictAfter mismatch rts (found h params) = Hit rts h params
  VerdictAfter mismatch rts not_found = All (λ q. ¬ PathFits path q) rts × (mismatch ≡ false)
  VerdictAfter mismatch rts method_not_allowed =
      All Misses rts × ((mismatch ≡ true) ⊎ Some (PathFits path) rts)

  skip :
      (q : Route H) (rts : List (Route H)) (mismatch : Bool) (s : RouteStatus H)
      → ¬ PathFits path q
      → VerdictAfter mismatch rts s
      → VerdictAfter mismatch (q ∷ rts) s
  skip q rts mismatch (found h params) n v = record {
    before = q ∷ v.before;
    route = v.route;
    after = v.after;
    splits = ap (◌∷◌ q) v.splits;
    passed_over = ((λ f. absurd (n f)), v.passed_over);
    fits = v.fits;
    method_is = v.method_is;
    handler_is = v.handler_is;
    params_are = v.params_are;
  }
  skip q rts mismatch not_found n v = ((n, v.0), v.1)
  skip q rts mismatch method_not_allowed n v = (((λ f. absurd (n f)), v.0), later v.1)
    where
      later :
          (mismatch ≡ true) ⊎ Some (PathFits path) rts
          → (mismatch ≡ true) ⊎ Some (PathFits path) (q ∷ rts)
      later (inl e) = inl e
      later (inr (b, x, a, e, f)) = inr (q ∷ b, x, a, ap (◌∷◌ q) e, f)

  skip_method :
      (q : Route H) (rts : List (Route H)) (mismatch : Bool) (s : RouteStatus H)
      → PathFits path q
      → method ≢ q.method
      → VerdictAfter true rts s
      → VerdictAfter mismatch (q ∷ rts) s
  skip_method q rts mismatch (found h params) f n v = record {
    before = q ∷ v.before;
    route = v.route;
    after = v.after;
    splits = ap (◌∷◌ q) v.splits;
    passed_over = ((λ _. n), v.passed_over);
    fits = v.fits;
    method_is = v.method_is;
    handler_is = v.handler_is;
    params_are = v.params_are;
  }
  skip_method q rts mismatch not_found f n v = cc (v.1)
  skip_method q rts mismatch method_not_allowed f n v = (((λ _. n), v.0), inr ([], q, rts, refl, f))

  match_loop-Verdict :
      (rts : List (Route H)) (mismatch : Bool)
      → VerdictAfter mismatch rts
          (match_loop method (split_segments path max_segments) rts mismatch)
  unfolding match_loop
  match_loop-Verdict [] true = (tt, inl refl)
  match_loop-Verdict [] false = (tt, refl)
  match_loop-Verdict (q ∷ rts) mismatch =
      elim (Bool-cases (route_fits (split_segments path max_segments) q)) [
        | inr e ↦
            rw (e, match_loop)
              (skip q rts mismatch _ (λ f. cc (e, (route_fits_iff path q).1 f))
                (match_loop-Verdict rts mismatch))
        | inl e ↦ elim (Bool-cases (slice_eq method q.method)) [
          | inr d ↦
              rw (e, match_loop)
                (rw (d, match_loop)
                  (skip_method q rts mismatch _ ((route_fits_iff path q).0 e)
                    (λ m. cc (d, (slice_eq_iff method q.method).1 m))
                    (match_loop-Verdict rts true)))
          | inl d ↦
              rw (e, match_loop)
                (rw (d, match_loop)
                  (record {
                    before = [];
                    route = q;
                    after = rts;
                    splits = refl;
                    passed_over = tt;
                    fits = (route_fits_iff path q).0 e;
                    method_is = (slice_eq_iff method q.method).0 d;
                    handler_is = refl;
                    params_are = refl;
                  }))
        ]
      ]

  -- A request goes to the first registered route that fits its path and has its method. The answer
  -- 404 says that no route fits the path, and 405 that some route does, and none of those has the
  -- method.
  pub router_match-Verdict : (r : Router H) → Verdict r.routes (router_match r method path)
  unfolding router_match
  router_match-Verdict r = from (router_match r method path) (match_loop-Verdict r.routes false)
    where
      from : (s : RouteStatus H) → VerdictAfter false r.routes s → Verdict r.routes s
      from (found h params) v = v
      from not_found v = v.0
      from method_not_allowed (all, inl e) = cc
      from method_not_allowed (all, inr some_fits) = (all, some_fits)

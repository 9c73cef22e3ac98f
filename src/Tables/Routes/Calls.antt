-- ===== src/Tables/Routes/Calls.antt =====
-- Sequences of calls of the routing information base, on plain tables of routes.
use mars_icnp.Prelude.{
  ℕ, ◌≡◌, refl, sym, ap, subst, ◌∙◌, Option, none, some, List, [], ◌∷◌, ◌++◌, map, ◌==◌,
  if◌then◌else◌, if_cases, is_empty,
}
use mathlib.Core.List.{append-nil}
use mars_icnp.Prelude.Maps.{find, DistinctKeys}
use mars_icnp.Tables.Tree.{Name, name_eq}
use mars_icnp.Tables.Refinement.{value_at}
use mars_icnp.Tables.Strategy.{FibNextHop, new_fib_entry, new_fib_tree}
use mars_icnp.Tables.Routes.{new_rib_table, same_route, of_face, min_cost_routes, inherited}
use mars_icnp.Tables.Routes.Updates.{hop_of, min_cost_routes-DistinctKeys}
use mars_icnp.Tables.Routes.Expected.{expected_hops, expected_hops-same, Agree-all}
use mars_icnp.Tables.Routes.Runs.{
  RibCall, add_call, remove_call, clean_up_call, rib_run, RouteTable, routes_step, routes_run,
  rib_run-expected,
}
use mars_icnp.Tables.Routes.Plain.{
  some_captures, passed_to, considered, expected-considered, added, removed, without_oldest,
  DistinctRoutes, put_route-added, put_route-DistinctRoutes, drop_route-DistinctRoutes,
  drop_route-removed, drop_route-oldest,
}
use mars_icnp.Tables.Routes.Minimum.{IsMinimum, min_cost_routes-IsMinimum}

-- What the calls do to the routes of every name. `cleanUpFace` takes the oldest route of the face out
-- of an entry, and leaves the others.
unfoldable pub plain_step : RibCall → RouteTable → RouteTable
plain_step (add_call name r) v = λ p. if name_eq name p then added r (v p) else v p
plain_step (remove_call name face origin) v =
    λ p. if name_eq name p then removed face origin (v p) else v p
plain_step (clean_up_call face) v = λ p. without_oldest face (v p)

unfoldable pub plain_run : List RibCall → RouteTable → RouteTable
plain_run [] v = v
plain_run (c ∷ cs) v = plain_run cs (plain_step c v)

-- The cost of the first hop to the face.
unfoldable pub cost_to : ℕ → List FibNextHop → Option ℕ
cost_to face [] = none
cost_to face (h ∷ hs) = if h.nexthop == face then some h.cost else cost_to face hs

abbrev pub OnceEach : List FibNextHop → Type 0
OnceEach [] = Unit {0}
OnceEach (h ∷ hs) = (cost_to h.nexthop hs ≡ none) × OnceEach hs

step-plain :
    (c : RibCall) (v : RouteTable) (p : Name)
    → DistinctRoutes (v p)
    → (routes_step c v p ≡ plain_step c v p) × DistinctRoutes (routes_step c v p)
unfolding routes_step plain_step
step-plain (add_call name r) v p d = (
  ap (λ l. if name_eq name p then l else v p) (put_route-added r (v p) d),
  if_cases DistinctRoutes (name_eq name p) (λ b. put_route-DistinctRoutes r (v p) d) (λ b. d),
)
step-plain (remove_call name face origin) v p d = (
  ap (λ l. if name_eq name p then l else v p) (drop_route-removed face origin (v p) d),
  if_cases DistinctRoutes (name_eq name p)
      (λ b. drop_route-DistinctRoutes (same_route face origin) (v p) d) (λ b. d),
)
step-plain (clean_up_call face) v p d =
    (drop_route-oldest face (v p), drop_route-DistinctRoutes (of_face face) (v p) d)

plain_step-same :
    (c : RibCall) (v w : RouteTable) (p : Name) → v p ≡ w p → plain_step c v p ≡ plain_step c w p
unfolding plain_step
plain_step-same (add_call name r) v w p h = ap (λ l. if name_eq name p then added r l else l) h
plain_step-same (remove_call name face origin) v w p h =
    ap (λ l. if name_eq name p then removed face origin l else l) h
plain_step-same (clean_up_call face) v w p h = ap (without_oldest face) h

run-plain :
    (cs : List RibCall) (v w : RouteTable) (p : Name)
    → ((q : Name) → DistinctRoutes (v q))
    → ((q : Name) → v q ≡ w q)
    → routes_run cs v p ≡ plain_run cs w p
unfolding routes_run plain_run
run-plain [] v w p d h = h p
run-plain (c ∷ cs) v w p d h =
    run-plain cs (routes_step c v) (plain_step c w) p (λ q. (step-plain c v q (d q)).1)
      (λ q. (step-plain c v q (d q)).0 ∙ plain_step-same c v w q (h q))

cost_to-find : (face : ℕ) (m : List (ℕ × ℕ)) → cost_to face (map hop_of m) ≡ find face m
unfolding cost_to find
cost_to-find face [] = refl
cost_to-find face ((f, c) ∷ m) = ap (λ o. if f == face then some c else o) (cost_to-find face m)

DistinctKeys-OnceEach : (m : List (ℕ × ℕ)) → DistinctKeys m → OnceEach (map hop_of m)
DistinctKeys-OnceEach [] d = tt
DistinctKeys-OnceEach ((f, c) ∷ m) d = (cost_to-find f m ∙ d.0, DistinctKeys-OnceEach m (d.1))

-- The hops for what is considered are of distinct faces and of least cost.
considered-hops :
    (v : RouteTable) (q : Name) (face : ℕ)
    → OnceEach (map hop_of (min_cost_routes (considered v q) []))
      × IsMinimum face
          (cost_to face (map hop_of (min_cost_routes (considered v q) [])))
          (considered v q)
considered-hops v q face =
    let m = min_cost_routes (considered v q) [] in
    (
      DistinctKeys-OnceEach m (min_cost_routes-DistinctKeys (considered v q) [] tt),
      subst (λ o. IsMinimum face o (considered v q)) (sym (cost_to-find face m))
          (min_cost_routes-IsMinimum face (considered v q)),
    )

run-considered :
    (cs : List RibCall) (q : Name)
    → expected_hops [] (routes_run cs (λ p. [])) q
      ≡ map hop_of (min_cost_routes (considered (plain_run cs (λ p. [])) q) [])
unfolding inherited
run-considered cs q =
    let v = routes_run cs (λ p. []) in
    let w = plain_run cs (λ p. []) in
    expected_hops-same [] v w q
      (Agree-all v w q (λ p. run-plain cs (λ p. []) (λ p. []) p (λ q. tt) (λ q. refl)))
    ∙ expected-considered [] w q
    ∙ ap
        (λ l. map hop_of (
          min_cost_routes
            (if is_empty (w q) then [] else if some_captures (w q) then w q else w q ++ l) []))
        (append-nil (passed_to w q))

-- After any additions and removals of routes, and destructions of faces, each of which takes the
-- oldest route of the face out of every entry, on new tables: at any name but the root, the hops of
-- the FIB are of distinct faces; a face has a hop exactly if a route that counts for the name is of
-- it, and the cost of the hop is the least of those routes. No route counts if the name has none of
-- its own; only its own count if one of them captures; else also the routes with the inherit flag of
-- the name and of its prefixes, of each those up to the first that captures.
pub rib_run-hops :
    (cs : List RibCall) (default : Name) (a : ℕ) (bs : Name) (face : ℕ)
    → let t = rib_run cs (new_rib_table (new_fib_tree default)) in
      let hops = (value_at new_fib_entry t.fib (a ∷ bs)).nexthops in
      OnceEach hops
      × IsMinimum face (cost_to face hops) (considered (plain_run cs (λ p. [])) (a ∷ bs))
rib_run-hops cs default a bs face =
    subst
      (λ hops.
        OnceEach hops
        × IsMinimum face (cost_to face hops) (considered (plain_run cs (λ p. [])) (a ∷ bs)))
      (sym (rib_run-expected cs default a bs ∙ run-considered cs (a ∷ bs)))
      (considered-hops (plain_run cs (λ p. [])) (a ∷ bs) face)

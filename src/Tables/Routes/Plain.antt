-- ===== src/Tables/Routes/Plain.antt =====
-- The routes of an entry and those that it takes over, described without the code of the base.
use mars_icnp.Prelude.{
  ℕ, ◌%◌, ◌/◌, ◌≡◌, refl, sym, ap, ap₂, ◌∙◌, inl, inr, Bool, true, false, not, ◌&&◌, List, [], ◌∷◌,
  ◌++◌, map, keep, ◌==◌, if◌then◌else◌, is_empty, Bool-cases, arith,
}
use mathlib.Core.List.{append_assoc}
use mars_icnp.Tables.Tree.{Name}
use mars_icnp.Tables.Routes.{
  Route, RouteList, has_child_inherit_flag, has_capture_flag, has_capture_route, inherited_of,
  inherited, all_routes, min_cost_routes, flattened_hops, same_route, put_route, drop_route,
  of_face,
}
use mars_icnp.Tables.Routes.Updates.{hop_of}
use mars_icnp.Tables.Routes.Expected.{expected_hops}

-- Bit 0 of the flags is `child-inherit`, bit 1 is `capture`.
abbrev pub passes_on : Route → Bool
passes_on r = r.flags % 2 == 1

abbrev pub captures : Route → Bool
captures r = (r.flags / 2) % 2 == 1

unfoldable pub some_captures : RouteList → Bool
some_captures [] = false
some_captures (r ∷ rs) = if captures r then true else some_captures rs

-- The routes of an entry up to the first that captures, that one included.
unfoldable pub up_to_capture : RouteList → RouteList
up_to_capture [] = []
up_to_capture (r ∷ rs) = if captures r then r ∷ [] else r ∷ up_to_capture rs

-- What the name itself and its prefixes pass on, from the name up to the root.
unfoldable pub passed_to : (Name → RouteList) → Name → RouteList
passed_to v [] = keep passes_on (up_to_capture (v []))
passed_to v (k ∷ ks) = passed_to (λ s. v (k ∷ s)) ks ++ keep passes_on (up_to_capture (v []))

-- The routes that count for a name: none if it has none itself, its own if one of them captures, and
-- otherwise also those passed on.
abbrev pub considered : (Name → RouteList) → Name → RouteList
considered v q =
    if is_empty (v q) then [] else if some_captures (v q) then v q else v q ++ passed_to v q

capture-bit : (r : Route) → has_capture_flag r ≡ captures r
capture-bit r = ground arith

capture_route-some : (rs : RouteList) → has_capture_route rs ≡ some_captures rs
unfolding has_capture_route some_captures
capture_route-some [] = refl
capture_route-some (r ∷ rs) =
    ap₂ (λ b c. if b then true else c) (capture-bit r) (capture_route-some rs)

inherited_of-kept : (rs : RouteList) → inherited_of rs ≡ keep passes_on (up_to_capture rs)
unfolding inherited_of up_to_capture keep
inherited_of-kept [] = refl
inherited_of-kept (r ∷ rs) =
    let now : Bool → RouteList = λ b.
      let after = if b then [] else inherited_of rs in
      if has_child_inherit_flag r then r ∷ after else after in
    let kept : Bool → RouteList =
      λ b. keep passes_on (if b then r ∷ [] else r ∷ up_to_capture rs) in
    ap now (capture-bit r) ∙ elim (Bool-cases (captures r)) [
      | inl b ↦ ap now b ∙ sym (ap kept b)
      | inr b ↦
          ap now b
          ∙ ap (λ l. if has_child_inherit_flag r then r ∷ l else l) (inherited_of-kept rs)
          ∙ sym (ap kept b)
    ]

flattened-considered :
    (rs : RouteList) (up : List RouteList)
    → flattened_hops rs up
      ≡ min_cost_routes
          (if is_empty rs
            then []
            else if some_captures rs
            then rs
            else rs ++ (keep passes_on (up_to_capture rs) ++ inherited up))
          []
unfolding flattened_hops all_routes min_cost_routes inherited
flattened-considered [] up = refl
flattened-considered (r ∷ rs) up =
    ap₂ (λ b i. min_cost_routes (if b then r ∷ rs else (r ∷ rs) ++ (i ++ inherited up)) [])
      (capture_route-some (r ∷ rs)) (inherited_of-kept (r ∷ rs))

pub expected-considered :
    (up : List RouteList) (v : Name → RouteList) (q : Name)
    → expected_hops up v q
      ≡ map hop_of (
          min_cost_routes
            (if is_empty (v q)
              then []
              else if some_captures (v q)
              then v q
              else v q ++ (passed_to v q ++ inherited up))
            [])
unfolding expected_hops passed_to inherited
expected-considered up v [] = ap (map hop_of) (flattened-considered (v []) up)
expected-considered up v (k ∷ ks) =
    expected-considered (v [] ∷ up) (λ s. v (k ∷ s)) ks
    ∙ ap
        (λ l. map hop_of (
          min_cost_routes
            (if is_empty (v (k ∷ ks))
              then []
              else if some_captures (v (k ∷ ks))
              then v (k ∷ ks)
              else v (k ∷ ks) ++ l)
            []))
        (ap (λ i. passed_to (λ s. v (k ∷ s)) ks ++ (i ++ inherited up)) (inherited_of-kept (v []))
          ∙ sym (
              append_assoc (passed_to (λ s. v (k ∷ s)) ks) (keep passes_on (up_to_capture (v [])))
                (inherited up)))

-- Routes are told apart by face and origin.
unfoldable pub has_key : ℕ → ℕ → RouteList → Bool
has_key face origin [] = false
has_key face origin (x ∷ xs) =
    if (x.face_id == face) && (x.origin == origin) then true else has_key face origin xs

-- A route takes the place of the one with its face and origin, or is the last.
abbrev pub added : Route → RouteList → RouteList
added r rs =
    if has_key r.face_id r.origin rs
    then map (λ x. if (x.face_id == r.face_id) && (x.origin == r.origin) then r else x) rs
    else rs ++ r ∷ []

abbrev pub removed : ℕ → ℕ → RouteList → RouteList
removed face origin rs = keep (λ x. not ((x.face_id == face) && (x.origin == origin))) rs

-- The routes without the oldest one of the face.
unfoldable pub without_oldest : ℕ → RouteList → RouteList
without_oldest face [] = []
without_oldest face (x ∷ xs) = if x.face_id == face then xs else x ∷ without_oldest face xs

abbrev pub DistinctRoutes : RouteList → Type 0
DistinctRoutes [] = Unit {0}
DistinctRoutes (x ∷ xs) = (has_key x.face_id x.origin xs ≡ false) × DistinctRoutes xs

has_key-put :
    (face origin : ℕ) (r : Route) (rs : RouteList)
    → has_key face origin (put_route r rs)
      ≡ (if (r.face_id == face) && (r.origin == origin) then true else has_key face origin rs)
unfolding has_key put_route
has_key-put face origin r [] = refl
has_key-put face origin r (x ∷ xs) = ground (arith, has_key-put face origin r xs)

pub put_route-DistinctRoutes :
    (r : Route) (rs : RouteList) → DistinctRoutes rs → DistinctRoutes (put_route r rs)
unfolding put_route has_key
put_route-DistinctRoutes r [] d = (refl, tt)
put_route-DistinctRoutes r (x ∷ xs) d =
    ground (arith, put_route-DistinctRoutes r xs (d.1), has_key-put x.face_id x.origin r xs, d.0)

has_key-drop :
    (face origin : ℕ) (test : Route → Bool) (rs : RouteList)
    → has_key face origin rs ≡ false
    → has_key face origin (drop_route test rs) ≡ false
unfolding has_key drop_route
has_key-drop face origin test [] h = refl
has_key-drop face origin test (x ∷ xs) h = ground (arith, has_key-drop face origin test xs, h)

pub drop_route-DistinctRoutes :
    (test : Route → Bool) (rs : RouteList) → DistinctRoutes rs → DistinctRoutes (drop_route test rs)
unfolding drop_route
drop_route-DistinctRoutes test [] d = tt
drop_route-DistinctRoutes test (x ∷ xs) d =
    ground
      (arith, drop_route-DistinctRoutes test xs (d.1), has_key-drop x.face_id x.origin test xs, d)

replaced-absent :
    (r : Route) (rs : RouteList)
    → has_key r.face_id r.origin rs ≡ false
    → map (λ x. if (x.face_id == r.face_id) && (x.origin == r.origin) then r else x) rs ≡ rs
unfolding has_key
replaced-absent r [] h = refl
replaced-absent r (x ∷ xs) h = ground (arith, replaced-absent r xs, h)

pub put_route-added : (r : Route) (rs : RouteList) → DistinctRoutes rs → put_route r rs ≡ added r rs
unfolding put_route has_key
put_route-added r [] d = refl
put_route-added r (x ∷ xs) d = ground (arith, put_route-added r xs (d.1), replaced-absent r xs, d.0)

removed-absent :
    (face origin : ℕ) (rs : RouteList)
    → has_key face origin rs ≡ false
    → removed face origin rs ≡ rs
unfolding has_key keep
removed-absent face origin [] h = refl
removed-absent face origin (x ∷ xs) h = ground (arith, removed-absent face origin xs, h)

pub drop_route-removed :
    (face origin : ℕ) (rs : RouteList)
    → DistinctRoutes rs
    → drop_route (same_route face origin) rs ≡ removed face origin rs
unfolding drop_route keep
drop_route-removed face origin [] d = refl
drop_route-removed face origin (x ∷ xs) d =
    ground (arith, drop_route-removed face origin xs (d.1), removed-absent face origin xs, d.0)

pub drop_route-oldest :
    (face : ℕ) (rs : RouteList) → drop_route (of_face face) rs ≡ without_oldest face rs
unfolding drop_route without_oldest
drop_route-oldest face [] = refl
drop_route-oldest face (x ∷ xs) = ground (arith, drop_route-oldest face xs)

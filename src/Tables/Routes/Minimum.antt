-- ===== src/Tables/Routes/Minimum.antt =====
-- The costs of the next hops of an entry.
use mars_icnp.Prelude.{
  ℕ, ◌≤◌, ◌≡◌, refl, sym, ap, subst, ◌∙◌, ◌⊎◌, inl, inr, Bool, false, Option, none, some, List, [],
  ◌∷◌, ltb, ◌==◌, if◌then◌else◌, Bool-cases, ==_iff, arith,
}
use mars_icnp.Prelude.Maps.{find, find-put}
use mars_icnp.Tables.Routes.{Route, RouteList, lower_cost, min_cost_routes}

-- The cost is that of some route of the face.
abbrev pub HasCost : ℕ → ℕ → RouteList → Type 0
HasCost face c [] = ⊥
HasCost face c (r ∷ rs) = ((r.face_id ≡ face) × (r.route_cost ≡ c)) ⊎ HasCost face c rs

abbrev pub NoneBelow : ℕ → ℕ → RouteList → Type 0
NoneBelow face c [] = Unit {0}
NoneBelow face c (r ∷ rs) = ((r.face_id ≡ face) → c ≤ r.route_cost) × NoneBelow face c rs

-- No cost stands for no route of the face.
abbrev pub IsMinimum : ℕ → Option ℕ → RouteList → Type 0
IsMinimum face none rs = (c : ℕ) → HasCost face c rs → ⊥
IsMinimum face (some c) rs = HasCost face c rs × NoneBelow face c rs

-- The minimum over the routes when a cost is known already.
abbrev lower : Option ℕ → ℕ → ℕ
lower none c = c
lower (some d) c = if ltb c d then c else d

known :
    (face : ℕ) (r : Route) (d : ℕ) (m : List (ℕ × ℕ))
    → r.face_id ≡ face
    → find r.face_id m ≡ some d
    → find face (lower_cost r (some d) m) ≡ some (lower (some d) r.route_cost)
known face r d m h e =
    let f : find face m ≡ some d = subst (λ x. find x m ≡ some d) h e in
    ground (arith, f, h, find-put face (r.face_id) (r.route_cost) m)

unknown :
    (face : ℕ) (r : Route) (d : ℕ) (m : List (ℕ × ℕ))
    → (r.face_id == face) ≡ false
    → find face (lower_cost r (some d) m) ≡ find face m
unknown face r d m b = ground (arith, b, find-put face (r.face_id) (r.route_cost) m)

find-lower :
    (face : ℕ) (r : Route) (o : Option ℕ) (m : List (ℕ × ℕ))
    → find r.face_id m ≡ o
    → find face (lower_cost r o m)
      ≡ (if r.face_id == face then some (lower o r.route_cost) else find face m)
find-lower face r none m e = find-put face r.face_id r.route_cost m
find-lower face r (some d) m e = elim (Bool-cases (r.face_id == face)) [
  | inl b ↦
      known face r d m ((==_iff (r.face_id) face).0 b) e
      ∙ sym (ap (λ x. if x then some (lower (some d) r.route_cost) else find face m) b)
  | inr b ↦
      unknown face r d m b
      ∙ sym (ap (λ x. if x then some (lower (some d) r.route_cost) else find face m) b)
]

abbrev IsFrom : ℕ → Option ℕ → Option ℕ → RouteList → Type 0
IsFrom face none p rs = IsMinimum face p rs
IsFrom face (some d) none rs = ⊥
IsFrom face (some d) (some c) rs = ((c ≡ d) ⊎ HasCost face c rs) × (c ≤ d) × NoneBelow face c rs

IsFrom-here :
    (face : ℕ) (r : Route) (o p : Option ℕ) (rs : RouteList)
    → r.face_id ≡ face
    → IsFrom face (some (lower o r.route_cost)) p rs
    → IsFrom face o p (r ∷ rs)
IsFrom-here face r none none rs e h = absurd h
IsFrom-here face r none (some c) rs e (inl w, l, n) = (inl (e, sym w), (λ z. l, n))
IsFrom-here face r none (some c) rs e (inr w, l, n) = (inr w, (λ z. l, n))
IsFrom-here face r (some d) none rs e h = absurd h
IsFrom-here face r (some d) (some c) rs e (w, l, n) = elim (Bool-cases (ltb r.route_cost d)) [
  | inl b ↦
      let v : lower (some d) r.route_cost ≡ r.route_cost =
        ap (λ x. if x then r.route_cost else d) b in
      let cost : (c ≡ d) ⊎ HasCost face c (r ∷ rs) = elim w [
        | inl y ↦ inr (inl (e, sym (y ∙ v)))
        | inr y ↦ inr (inr y)
      ] in
      (cost, ground (arith, l, b), (λ z. ground (arith, l, b), n))
  | inr b ↦
      let v : lower (some d) r.route_cost ≡ d = ap (λ x. if x then r.route_cost else d) b in
      let cost : (c ≡ d) ⊎ HasCost face c (r ∷ rs) = elim w [
        | inl y ↦ inl (y ∙ v)
        | inr y ↦ inr (inr y)
      ] in
      (cost, ground (arith, l, b), (λ z. ground (arith, l, b), n))
]

IsFrom-other :
    (face : ℕ) (r : Route) (o p : Option ℕ) (rs : RouteList)
    → (r.face_id ≡ face → ⊥)
    → IsFrom face o p rs
    → IsFrom face o p (r ∷ rs)
IsFrom-other face r none none rs e h = λ c z. elim z [ inl (u, v) ↦ e u | inr y ↦ h c y ]
IsFrom-other face r none (some c) rs e (w, n) = (inr w, (λ z. absurd (e z), n))
IsFrom-other face r (some d) none rs e h = h
IsFrom-other face r (some d) (some c) rs e (inl w, l, n) = (inl w, l, (λ z. absurd (e z), n))
IsFrom-other face r (some d) (some c) rs e (inr w, l, n) = (inr (inr w), l, (λ z. absurd (e z), n))

IsFrom-nothing : (face : ℕ) (o : Option ℕ) → IsFrom face o o []
IsFrom-nothing face none = λ c h. h
IsFrom-nothing face (some d) = (inl refl, omega arith, tt)

min_cost_routes-IsFrom :
    (face : ℕ) (rs : RouteList) (m : List (ℕ × ℕ))
    → IsFrom face (find face m) (find face (min_cost_routes rs m)) rs
unfolding min_cost_routes
min_cost_routes-IsFrom face [] m = IsFrom-nothing face (find face m)
min_cost_routes-IsFrom face (r ∷ rs) m =
    let next = lower_cost r (find r.face_id m) m in
    let p = find face (min_cost_routes rs next) in
    let h = min_cost_routes-IsFrom face rs next in
    let found = find-lower face r (find r.face_id m) m refl in
    let at : Bool → Option ℕ =
      λ x. if x then some (lower (find r.face_id m) r.route_cost) else find face m in
    elim (Bool-cases (r.face_id == face)) [
      | inl b ↦
          let e = (==_iff (r.face_id) face).0 b in
          IsFrom-here face r (find face m) p rs e (
            subst (λ x. IsFrom face (some (lower (find x m) r.route_cost)) p rs) e
              (subst (λ o. IsFrom face o p rs) (found ∙ ap at b) h))
      | inr b ↦
          IsFrom-other face r (find face m) p rs (λ e. ground (arith, b, e))
            (subst (λ o. IsFrom face o p rs) (found ∙ ap at b) h)
    ]

-- The cost that `updateNexthopsEnc` finds for a face is the least cost of its routes, and it finds
-- none exactly if no route is of the face.
pub min_cost_routes-IsMinimum :
    (face : ℕ) (rs : RouteList) → IsMinimum face (find face (min_cost_routes rs [])) rs
unfolding find
min_cost_routes-IsMinimum face rs = min_cost_routes-IsFrom face rs []

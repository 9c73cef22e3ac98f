-- ===== src/Tables/Routes/Consistency.antt =====
-- One change of the routes of an entry keeps the hops of the FIB those that the routes call for.
use mars_icnp.Prelude.{
  ℕ, ◌≡◌, refl, sym, ap, subst, ◌∙◌, inl, inr, Bool, true, false, ◌&&◌, Option, none, some, List,
  [], ◌∷◌, ◌==◌, if◌then◌else◌, if_cases, Bool-cases, Option-cases, ==_iff, arith,
}
use mars_icnp.Tables.Tree.{
  Name, node, no_children, entry_of, children_of, find_child, entry_at, name_eq, IsTree,
}
use mars_icnp.Tables.Refinement.{value_at, value-none, value-some}
use mars_icnp.Tables.Strategy.{FibNextHop}
use mars_icnp.Tables.Runs.{Table, table_run}
use mars_icnp.Tables.Routes.{
  Route, RouteList, RibTree, update_nexthops, update_below, put_route, same_route, flattened_hops,
}
use mars_icnp.Tables.Routes.Updates.{
  strip, fresh_hops, fresh_or, fresh_below, is_here, name_eq-strip, update_nexthops-fresh,
}
use mars_icnp.Tables.Routes.Expected.{
  expected_hops, expected_hops-same, expected_hops-nil, starts_with, changed-Agree, fresh-expected,
  fresh-absent, fresh-some, update_below-fresh,
}

-- The hops of the table at a name are those that the routes call for.
abbrev pub MatchesAt : RibTree → Table → Name → Type 0
MatchesAt root t q = (t q).nexthops ≡ expected_hops [] (value_at [] root) q

-- The root is left out: the name of its entry is nil, and a nil name clears nothing.
abbrev pub Matches : RibTree → Table → Type 0
Matches root t = (a : ℕ) (bs : Name) → MatchesAt root t (a ∷ bs)

pub none-some {ℓ} : {A : Type ℓ} {a : A} → none ≡ some a → ⊥
none-some h = ground arith

pub both_true : (b c : Bool) → (b && c) ≡ true → (b ≡ true) × (c ≡ true)
both_true true c h = (refl, h)
both_true false c h = ground arith

entry-none :
    (n : RibTree) (k : ℕ) (ks : Name)
    → find_child k (children_of n) ≡ none
    → entry_at n (k ∷ ks) ≡ none
unfolding entry_at
entry-none n k ks h = rw (h, entry_at) refl

entry-some :
    (n m : RibTree) (k : ℕ) (ks : Name)
    → find_child k (children_of n) ≡ some m
    → entry_at n (k ∷ ks) ≡ entry_at m ks
unfolding entry_at
entry-some n m k ks h = rw (h, entry_at) refl

pub put_route-cons : (r : Route) (rs : RouteList) → put_route r rs ≡ [] → ⊥
unfolding put_route
put_route-cons r [] h = ground arith
put_route-cons r (x ∷ xs) h =
    if_cases (λ (l : RouteList). l ≡ [] → ⊥) (same_route (r.face_id) (r.origin) x)
      (λ b z. ground arith) (λ b z. ground arith) h

pub entry_at-fresh :
    (up : List RouteList) (n : RibTree) (name q : Name) (rs : RouteList)
    → entry_at n name ≡ some rs
    → name_eq name q ≡ true
    → fresh_hops up n q ≡ none
    → ⊥
unfolding fresh_hops name_eq
entry_at-fresh up n [] [] rs e b z = ground arith
entry_at-fresh up n [] (j ∷ js) rs e b z = ground arith
entry_at-fresh up n (k ∷ ks) [] rs e b z = ground arith
entry_at-fresh up n (k ∷ ks) (j ∷ js) rs e b z =
    let (c, d) = both_true (k == j) (name_eq ks js) b in
    elim (Option-cases (find_child k (children_of n))) [
      | inl a ↦ none-some (sym (entry-none n k ks a) ∙ e)
      | inr (m, a) ↦
          entry_at-fresh (entry_of n ∷ up) m ks js rs (sym (entry-some n m k ks a) ∙ e) d (
            sym (
              fresh-some up n m j js
                (subst (λ x. find_child x (children_of n) ≡ some m) ((==_iff k j).0 c) a))
            ∙ z)
    ]

pub below_absent :
    (n : RibTree) (name q : Name)
    → entry_at n name ≡ none
    → starts_with name q ≡ true
    → value_at [] n q ≡ []
unfolding starts_with entry_at
below_absent n [] q e b = absurd (none-some (sym e))
below_absent n (k ∷ ks) [] e b = ground arith
below_absent n (k ∷ ks) (j ∷ js) e b =
    let (c, d) = both_true (k == j) (starts_with ks js) b in
    let at : (o : Option RibTree)
        → find_child k (children_of n) ≡ o
        → find_child j (children_of n) ≡ o =
      λ o a. subst (λ x. find_child x (children_of n) ≡ o) ((==_iff k j).0 c) a in
    elim (Option-cases (find_child k (children_of n))) [
      | inl a ↦ value-none [] n j js (at none a)
      | inr (m, a) ↦
          value-some [] n m j js (at (some m) a)
          ∙ below_absent m ks js (sym (entry-some n m k ks a) ∙ e) d
    ]

strip-starts : (name q s : Name) → strip name q ≡ some s → starts_with name q ≡ true
unfolding strip starts_with
strip-starts [] q s h = refl
strip-starts (k ∷ ks) [] s h = absurd (none-some h)
strip-starts (k ∷ ks) (j ∷ js) s h = elim (Bool-cases (k == j)) [
  | inl b ↦
      ap (λ x. x && starts_with ks js) b
      ∙ strip-starts ks js s (ap (λ x. if x then strip ks js else none) (sym b) ∙ h)
  | inr b ↦ absurd (none-some (ap (λ x. if x then strip ks js else none) (sym b) ∙ h))
]

strip-misses : (name q : Name) → strip name q ≡ none → starts_with name q ≡ false
unfolding strip starts_with
strip-misses [] q h = absurd (none-some (sym h))
strip-misses (k ∷ ks) [] h = refl
strip-misses (k ∷ ks) (j ∷ js) h = elim (Bool-cases (k == j)) [
  | inl b ↦
      ap (λ x. x && starts_with ks js) b
      ∙ strip-misses ks js (ap (λ x. if x then strip ks js else none) (sym b) ∙ h)
  | inr b ↦ ap (λ x. x && starts_with ks js) b
]

-- An entry with nothing in it is cleared, and no other.
bare-hops :
    (s : Name) (hs : List FibNextHop)
    → ((k : ℕ) (ks : Name) → s ≡ k ∷ ks → hs ≡ [])
    → fresh_or (fresh_hops [] (node [] no_children) s) hs ≡ []
unfolding fresh_hops flattened_hops find_child
bare-hops [] hs h = refl
bare-hops (k ∷ ks) hs h = h k ks refl

module _ (f : RouteList → RouteList) (name : Name) (root after : RibTree) (t : Table)
    (c : (p : Name)
      → value_at [] after p
        ≡ (if name_eq name p then f (value_at [] root p) else value_at [] root p))
    (h : Matches root t) where
  -- A name below the changed one has the routes that it had.
  kept-value : (p : Name) → name_eq name p ≡ false → value_at [] root p ≡ value_at [] after p
  kept-value p b = sym (c p ∙ ap (λ x. if x then f (value_at [] root p) else value_at [] root p) b)

  kept-nil :
      (a : ℕ) (bs : Name)
      → name_eq name (a ∷ bs) ≡ false
      → value_at [] after (a ∷ bs) ≡ []
      → (t (a ∷ bs)).nexthops ≡ []
  kept-nil a bs b e =
      h a bs ∙ expected_hops-nil [] (value_at [] root) (a ∷ bs) (kept-value (a ∷ bs) b ∙ e)

  elsewhere : (a : ℕ) (bs : Name) → starts_with name (a ∷ bs) ≡ false → MatchesAt after t (a ∷ bs)
  elsewhere a bs b =
      h a bs
      ∙ sym (
          expected_hops-same [] (value_at [] after) (value_at [] root) (a ∷ bs)
            (changed-Agree f name (a ∷ bs) (value_at [] root) (value_at [] after) c b))

  pub update_below-Matches :
      IsTree after
      → ((q : Name) → name_eq name q ≡ true → fresh_hops [] after q ≡ none → ⊥)
      → Matches after (table_run (update_below [] [] name after) t)
  unfolding strip
  update_below-Matches i present a bs =
      let q : Name = a ∷ bs in
      let hs = (t q).nexthops in
      let at : Bool → List FibNextHop =
        λ b. if b then fresh_or (fresh_hops [] after q) hs else hs in
      update_below-fresh [] [] name after a bs t i ∙ elim (Bool-cases (starts_with name q)) [
        | inl b ↦
            ap at b
            ∙ fresh-expected [] after q hs (λ z. elim (Bool-cases (name_eq name q)) [
              | inl e ↦ absurd (present q e z)
              | inr e ↦ kept-nil a bs e (fresh-absent [] after q z)
            ])
        | inr b ↦ ap at b ∙ elsewhere a bs b
      ]

  pub unlinked-Matches :
      entry_at after name ≡ none
      → Matches after (table_run (update_nexthops name [] (node [] no_children)) t)
  unlinked-Matches e a bs =
      let q : Name = a ∷ bs in
      let hs = (t q).nexthops in
      update_nexthops-fresh name [] (node [] no_children) a bs t tt
      ∙ elim (Option-cases (strip name q)) [
        | inl o ↦
            ap (λ x. fresh_below [] (node [] no_children) x hs) o
            ∙ elsewhere a bs (strip-misses name q o)
        | inr (s, o) ↦
            let gone = below_absent after name q e (strip-starts name q s o) in
            ap (λ x. fresh_below [] (node [] no_children) x hs) o
            ∙ bare-hops s hs
                (λ k ks z. kept-nil a bs (name_eq-strip name q ∙ ap is_here (o ∙ ap some z)) gone)
            ∙ sym (expected_hops-nil [] (value_at [] after) q gone)
      ]

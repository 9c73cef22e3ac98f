-- ===== src/Tables/Routes/Expected.antt =====
-- The hops that the routes of a name and of its prefixes call for, and updates below an entry.
use mars_icnp.Prelude.{
  ℕ, ◌≡◌, refl, sym, ap, subst, ◌∙◌, inl, inr, Bool, true, false, ◌&&◌, Option, none, some, List,
  [], ◌∷◌, ◌++◌, map, ◌==◌, if◌then◌else◌, if_same, Bool-cases, Option-cases, ==_iff, arith,
}
use mars_icnp.Tables.Tree.{Name, entry_of, children_of, find_child, name_eq, IsTree}
use mars_icnp.Tables.Keys.{find_child-IsTree, children-IsForest}
use mars_icnp.Tables.Refinement.{value_at, value-none, value-some}
use mars_icnp.Tables.Strategy.{FibNextHop}
use mars_icnp.Tables.Runs.{FibOp, Table, table_run}
use mars_icnp.Tables.Routes.{RouteList, RibTree, flattened_hops, update_below}
use mars_icnp.Tables.Routes.Updates.{
  hop_of, strip, fresh_hops, fresh_or, fresh_below, strip_key, strip-snoc, update_nexthops-fresh,
}

-- From a table of the routes of every name, those of the name itself flattened with those of its
-- prefixes.
unfoldable pub expected_hops : List RouteList → (Name → RouteList) → Name → List FibNextHop
expected_hops up v [] = map hop_of (flattened_hops (v []) up)
expected_hops up v (k ∷ ks) = expected_hops (v [] ∷ up) (λ s. v (k ∷ s)) ks

-- The tables agree on the prefixes of a name.
abbrev pub Agree : (Name → RouteList) → (Name → RouteList) → Name → Type 0
Agree v w [] = v [] ≡ w []
Agree v w (k ∷ ks) = (v [] ≡ w []) × Agree (λ s. v (k ∷ s)) (λ s. w (k ∷ s)) ks

pub expected_hops-same :
    (up : List RouteList) (v w : Name → RouteList) (q : Name)
    → Agree v w q
    → expected_hops up v q ≡ expected_hops up w q
unfolding expected_hops
expected_hops-same up v w [] a = ap (λ r. map hop_of (flattened_hops r up)) a
expected_hops-same up v w (k ∷ ks) a =
    ap (λ r. expected_hops (r ∷ up) (λ s. v (k ∷ s)) ks) (a.0)
    ∙ expected_hops-same (w [] ∷ up) (λ s. v (k ∷ s)) (λ s. w (k ∷ s)) ks (a.1)

pub Agree-all : (v w : Name → RouteList) (q : Name) → ((p : Name) → v p ≡ w p) → Agree v w q
Agree-all v w [] h = h []
Agree-all v w (k ∷ ks) h = (h [], Agree-all (λ s. v (k ∷ s)) (λ s. w (k ∷ s)) ks (λ p. h (k ∷ p)))

-- A name with no routes of its own has no hops.
pub expected_hops-nil :
    (up : List RouteList) (v : Name → RouteList) (q : Name) → v q ≡ [] → expected_hops up v q ≡ []
unfolding expected_hops flattened_hops
expected_hops-nil up v [] h = ap (λ r. map hop_of (flattened_hops r up)) h
expected_hops-nil up v (k ∷ ks) h = expected_hops-nil (v [] ∷ up) (λ s. v (k ∷ s)) ks h

-- A prefix of a name, the name itself included.
unfoldable pub starts_with : Name → Name → Bool
starts_with [] q = true
starts_with (k ∷ ks) [] = false
starts_with (k ∷ ks) (j ∷ js) = (k == j) && starts_with ks js

-- A table changed at a name agrees with the one before on names that do not start with it.
pub changed-Agree :
    (f : RouteList → RouteList) (name q : Name) (v w : Name → RouteList)
    → ((p : Name) → w p ≡ (if name_eq name p then f (v p) else v p))
    → starts_with name q ≡ false
    → Agree w v q
unfolding name_eq starts_with
changed-Agree f [] q v w h n = ground arith
changed-Agree f (k ∷ ks) [] v w h n = h []
changed-Agree f (k ∷ ks) (j ∷ js) v w h n = (
  h [],
  elim (Bool-cases (k == j)) [
    | inl b ↦
        changed-Agree f ks js (λ s. v (j ∷ s)) (λ s. w (j ∷ s))
          (λ p. h (j ∷ p) ∙ ap (λ c. if c && name_eq ks p then f (v (j ∷ p)) else v (j ∷ p)) b)
          (ap (λ c. c && starts_with ks js) (sym b) ∙ n)
    | inr b ↦
        Agree-all (λ s. w (j ∷ s)) (λ s. v (j ∷ s)) js
          (λ p. h (j ∷ p) ∙ ap (λ c. if c && name_eq ks p then f (v (j ∷ p)) else v (j ∷ p)) b)
  ],
)

pub name_eq-starts : (name q : Name) → name_eq name q ≡ true → starts_with name q ≡ true
unfolding name_eq starts_with
name_eq-starts [] q h = refl
name_eq-starts (k ∷ ks) [] h = ground arith
name_eq-starts (k ∷ ks) (j ∷ js) h = ground (arith, name_eq-starts ks js)

fresh-none :
    (up : List RouteList) (n : RibTree) (k : ℕ) (ks : Name)
    → find_child k (children_of n) ≡ none
    → fresh_hops up n (k ∷ ks) ≡ none
unfolding fresh_hops
fresh-none up n k ks h = rw (h, fresh_hops) refl

pub fresh-some :
    (up : List RouteList) (n m : RibTree) (k : ℕ) (ks : Name)
    → find_child k (children_of n) ≡ some m
    → fresh_hops up n (k ∷ ks) ≡ fresh_hops (entry_of n ∷ up) m ks
unfolding fresh_hops
fresh-some up n m k ks h = rw (h, fresh_hops) refl

pub fresh-expected :
    (up : List RouteList) (n : RibTree) (q : Name) (hs : List FibNextHop)
    → (fresh_hops up n q ≡ none → hs ≡ [])
    → fresh_or (fresh_hops up n q) hs ≡ expected_hops up (value_at [] n) q
unfolding fresh_hops expected_hops value_at
fresh-expected up n [] hs h = refl
fresh-expected up n (k ∷ ks) hs h = elim (Option-cases (find_child k (children_of n))) [
  | inl a ↦
      let e = fresh-none up n k ks a in
      ap (λ o. fresh_or o hs) e
      ∙ h e
      ∙ sym (expected_hops-nil up (value_at [] n) (k ∷ ks) (value-none [] n k ks a))
  | inr (m, a) ↦
      let e = fresh-some up n m k ks a in
      ap (λ o. fresh_or o hs) e
      ∙ fresh-expected (entry_of n ∷ up) m ks hs (λ z. h (e ∙ z))
      ∙ expected_hops-same (entry_of n ∷ up) (value_at [] m) (λ s. value_at [] n (k ∷ s)) ks
          (Agree-all (value_at [] m) (λ s. value_at [] n (k ∷ s)) ks
            (λ p. sym (value-some [] n m k p a)))
]

pub fresh-absent :
    (up : List RouteList) (n : RibTree) (q : Name) → fresh_hops up n q ≡ none → value_at [] n q ≡ []
unfolding fresh_hops
fresh-absent up n [] h = ground arith
fresh-absent up n (k ∷ ks) h = elim (Option-cases (find_child k (children_of n))) [
  | inl a ↦ value-none [] n k ks a
  | inr (m, a) ↦
      value-some [] n m k ks a
      ∙ fresh-absent (entry_of n ∷ up) m ks (sym (fresh-some up n m k ks a) ∙ h)
]

abbrev pub fresh_under :
    List RouteList → RibTree → Name → Option Name → List FibNextHop → List FibNextHop
fresh_under up n ks none hs = hs
fresh_under up n ks (some s) hs = if starts_with ks s then fresh_or (fresh_hops up n s) hs else hs

under-nil :
    (up : List RouteList) (n : RibTree) (o : Option Name) (hs : List FibNextHop)
    → fresh_below up n o hs ≡ fresh_under up n [] o hs
unfolding starts_with
under-nil up n none hs = refl
under-nil up n (some s) hs = refl

under-absent :
    (up : List RouteList) (n : RibTree) (k : ℕ) (ks : Name) (o : Option Name) (hs : List FibNextHop)
    → find_child k (children_of n) ≡ none
    → hs ≡ fresh_under up n (k ∷ ks) o hs
unfolding starts_with
under-absent up n k ks none hs e = refl
under-absent up n k ks (some []) hs e = refl
under-absent up n k ks (some (j ∷ js)) hs e = elim (Bool-cases (k == j)) [
  | inl b ↦
      if_same ((k == j) && starts_with ks js) hs (fresh_or (fresh_hops up n (j ∷ js)) hs) (λ c.
        ap (λ x. fresh_or x hs)
          (sym (
            fresh-none up n j js
              (subst (λ x. find_child x (children_of n) ≡ none) ((==_iff k j).0 b) e))))
  | inr b ↦
      ap (λ c. if c && starts_with ks js then fresh_or (fresh_hops up n (j ∷ js)) hs else hs)
        (sym b)
]

under-child :
    (up : List RouteList) (n m : RibTree) (k : ℕ) (ks : Name) (o : Option Name)
    (hs : List FibNextHop)
    → find_child k (children_of n) ≡ some m
    → fresh_under (entry_of n ∷ up) m ks (strip_key k o) hs ≡ fresh_under up n (k ∷ ks) o hs
unfolding starts_with
under-child up n m k ks none hs e = refl
under-child up n m k ks (some []) hs e = refl
under-child up n m k ks (some (j ∷ js)) hs e =
    let under : Bool → List FibNextHop =
      λ c. fresh_under (entry_of n ∷ up) m ks (if c then some js else none) hs in
    let at : Bool → List FibNextHop =
      λ c. if c && starts_with ks js then fresh_or (fresh_hops up n (j ∷ js)) hs else hs in
    elim (Bool-cases (k == j)) [
      | inl b ↦
          ap under b
          ∙ ap (λ x. if starts_with ks js then fresh_or x hs else hs)
              (sym (
                fresh-some up n m j js
                  (subst (λ x. find_child x (children_of n) ≡ some m) ((==_iff k j).0 b) e)))
          ∙ sym (ap at b)
      | inr b ↦ ap under b ∙ sym (ap at b)
    ]

pub update_below-fresh :
    (path : Name) (up : List RouteList) (ks : Name) (n : RibTree) (a : ℕ) (bs : Name) (t : Table)
    → IsTree n
    → (table_run (update_below path up ks n) t (a ∷ bs)).nexthops
      ≡ fresh_under up n ks (strip path (a ∷ bs)) ((t (a ∷ bs)).nexthops)
unfolding update_below table_run
update_below-fresh path up [] n a bs t i =
    update_nexthops-fresh path up n a bs t i
    ∙ under-nil up n (strip path (a ∷ bs)) ((t (a ∷ bs)).nexthops)
update_below-fresh path up (k ∷ ks) n a bs t i =
    let g : Option RibTree → List FibOp =
      λ o. elim o [ none ↦ [] | some m ↦ update_below (path ++ k ∷ []) (entry_of n ∷ up) ks m ] in
    let hs = (t (a ∷ bs)).nexthops in
    elim (Option-cases (find_child k (children_of n))) [
      | inl e ↦
          ap (λ o. (table_run (g o) t (a ∷ bs)).nexthops) e
          ∙ under-absent up n k ks (strip path (a ∷ bs)) hs e
      | inr (m, e) ↦
          ap (λ o. (table_run (g o) t (a ∷ bs)).nexthops) e
          ∙ update_below-fresh (path ++ k ∷ []) (entry_of n ∷ up) ks m a bs t
              (find_child-IsTree k m (children_of n) (children-IsForest n i) e)
          ∙ ap (λ o. fresh_under (entry_of n ∷ up) m ks o hs) (strip-snoc path (a ∷ bs) k)
          ∙ under-child up n m k ks (strip path (a ∷ bs)) hs e
    ]

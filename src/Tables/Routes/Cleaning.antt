-- ===== src/Tables/Routes/Cleaning.antt =====
-- The removal of a face keeps the hops of the FIB those that the routes call for.
use mars_icnp.Prelude.{
  ℕ, ◌≡◌, refl, sym, ap, subst, ◌∙◌, inl, inr, true, Option, none, some, List, [], ◌∷◌, ◌++◌, ◌==◌,
  if◌then◌else◌, Bool-cases, Option-cases, ==_iff, arith,
}
use mars_icnp.Tables.Tree.{Name, node, Children, no_children, child, find_child, IsTree, IsForest}
use mars_icnp.Tables.Refinement.{value_at, value-none, value-some}
use mars_icnp.Tables.Runs.{Table, table_run}
use mars_icnp.Tables.Routes.{
  RouteList, RibTree, first_route, of_face, Cleaned, CleanedChildren, with_cleaned, clean_node,
  clean_children, flattened_hops,
}
use mars_icnp.Tables.Routes.Updates.{strip, strip_key, strip-snoc, table_run-append}
use mars_icnp.Tables.Routes.Expected.{
  expected_hops, expected_hops-same, expected_hops-nil, Agree-all,
}
use mars_icnp.Tables.Routes.Consistency.{none-some}
use mars_icnp.Tables.Routes.Entries.{
  with_cleaned-absent, clean_children-absent, clean_children-IsForest, clean_node-gone, hops_after,
  entry-misses, entry-hits,
}

unfoldable pub child_value : Name → Option RibTree → RouteList
child_value s none = []
child_value s (some m) = value_at [] m s

pub value-child :
    (rs : RouteList) (cs : Children RouteList) (k : ℕ) (s : Name)
    → value_at [] (node rs cs) (k ∷ s) ≡ child_value s (find_child k cs)
unfolding child_value
value-child rs cs k s = elim (Option-cases (find_child k cs)) [
  | inl e ↦ value-none [] (node rs cs) k s e ∙ sym (ap (child_value s) e)
  | inr (m, e) ↦ value-some [] (node rs cs) m k s e ∙ sym (ap (child_value s) e)
]

pub k_same : (k : ℕ) → (k == k) ≡ true
k_same k = ground arith

pub kept-here :
    (k : ℕ) (c : Cleaned) (cs : CleanedChildren) (s : Name)
    → find_child k cs.kept ≡ none
    → (c.gone ≡ true → value_at [] c.left s ≡ [])
    → value_at [] c.left s ≡ child_value s (find_child k ((with_cleaned k c cs).kept))
unfolding child_value find_child
kept-here k c cs s e g = elim (Bool-cases c.gone) [
  | inl b ↦
      g b
      ∙ sym (
          ap (λ x. child_value s (find_child k (if x then cs.kept else child k c.left cs.kept))) b
          ∙ ap (child_value s) e)
  | inr b ↦
      ap (λ x. child_value s (if x then some c.left else find_child k cs.kept)) (sym ((k_same k)))
      ∙ sym
          (ap (λ x. child_value s (find_child k (if x then cs.kept else child k c.left cs.kept))) b)
]

first_key : Option Name → ℕ
first_key none = 0
first_key (some []) = 0
first_key (some (k ∷ ks)) = k

same_key :
    (path q : Name) (j k : ℕ) (js ks : Name)
    → strip path q ≡ some (j ∷ js)
    → strip path q ≡ some (k ∷ ks)
    → j ≡ k
unfolding first_key
same_key path q j k js ks e z = ap first_key (sym e ∙ z)

no_key_at : {k : ℕ} {ks s : Name} → some s ≡ some (k ∷ ks) → s ≡ [] → ⊥
no_key_at h e = ground arith

no_key : (o : Option Name) (k : ℕ) (ks : Name) → o ≡ some [] → o ≡ some (k ∷ ks) → ⊥
no_key o k ks e z = no_key_at (sym e ∙ z) refl

absent-later :
    (k j : ℕ) (n : RibTree) (cs : Children RouteList)
    → find_child k (child j n cs) ≡ none
    → find_child k cs ≡ none
unfolding find_child
absent-later k j n cs h = ground (arith, h)

strip_child_at :
    (path q s : Name) (j : ℕ) (n : RibTree) (cs : Children RouteList)
    → strip path q ≡ some s
    → ((k : ℕ) (ks : Name) → strip path q ≡ some (k ∷ ks) → find_child k (child j n cs) ≡ none)
    → (strip (path ++ j ∷ []) q ≡ none)
      × ((k : ℕ) (ks : Name) → strip path q ≡ some (k ∷ ks) → find_child k cs ≡ none)
unfolding find_child
strip_child_at path q [] j n cs o h =
    (strip-snoc path q j ∙ ap (strip_key j) o, λ k ks z. absurd (no_key (strip path q) k ks o z))
strip_child_at path q (k ∷ ks) j n cs o h = (
  strip-snoc path q j ∙ ap (strip_key j) o ∙ elim (Bool-cases (j == k)) [
    | inl b ↦
        absurd (none-some (sym (h k ks o) ∙ ap (λ x. if x then some n else find_child k cs) b))
    | inr b ↦ ap (λ x. if x then some ks else none) b
  ],
  λ i is z. absent-later i j n cs (h i is z),
)

-- A name that goes on to no child.
strip_child :
    (path q : Name) (j : ℕ) (n : RibTree) (cs : Children RouteList)
    → ((k : ℕ) (ks : Name) → strip path q ≡ some (k ∷ ks) → find_child k (child j n cs) ≡ none)
    → (strip (path ++ j ∷ []) q ≡ none)
      × ((k : ℕ) (ks : Name) → strip path q ≡ some (k ∷ ks) → find_child k cs ≡ none)
strip_child path q j n cs h = elim (Option-cases (strip path q)) [
  | inl o ↦ (strip-snoc path q j ∙ ap (strip_key j) o, λ k ks z. absurd (none-some (sym o ∙ z)))
  | inr (s, o) ↦ strip_child_at path q s j n cs o h
]

some_inj {ℓ} : {A : Type ℓ} {a b : A} → some a ≡ some b → a ≡ b
some_inj {a = a} h = ap (λ o. elim o [ none ↦ a | some x ↦ x ]) h

mutual
  unfolding clean_node table_run value_at expected_hops

  pub clean_node-misses :
      (face : ℕ) (path : Name) (up : List RouteList) (n : RibTree) (a : ℕ) (bs : Name) (t : Table)
      → IsTree n
      → strip path (a ∷ bs) ≡ none
      → hops_after ((clean_node face path up n).updates) t (a ∷ bs) ≡ (t (a ∷ bs)).nexthops
  clean_node-misses face path up (node rs cs) a bs t i e =
      let c = clean_children face path (rs ∷ up) cs in
      entry-misses face path up (first_route (of_face face) rs) rs c a bs t
        (clean_children-IsForest face path (rs ∷ up) cs i) e
        (clean_children-misses face path (rs ∷ up) cs a bs t i
          (λ k ks z. absurd (none-some (sym e ∙ z))))

  clean_children-misses :
      (face : ℕ) (path : Name) (up : List RouteList) (cs : Children RouteList) (a : ℕ) (bs : Name)
      (t : Table)
      → IsForest cs
      → ((k : ℕ) (ks : Name) → strip path (a ∷ bs) ≡ some (k ∷ ks) → find_child k cs ≡ none)
      → hops_after ((clean_children face path up cs).child_updates) t (a ∷ bs)
        ≡ (t (a ∷ bs)).nexthops
  clean_children-misses face path up no_children a bs t i h = refl
  clean_children-misses face path up (child j n cs) a bs t i h =
      let us = (clean_node face (path ++ j ∷ []) up n).updates in
      let vs = (clean_children face path up cs).child_updates in
      let (e, g) = strip_child path (a ∷ bs) j n cs h in
      ap (λ v. (v (a ∷ bs)).nexthops) (table_run-append us vs t)
      ∙ clean_children-misses face path up cs a bs (table_run us t) (i.2) g
      ∙ clean_node-misses face (path ++ j ∷ []) up n a bs t (i.1) e

clean_below :
    (face : ℕ) (path : Name) (up : List RouteList) (rs : RouteList) (cs : Children RouteList)
    (a : ℕ) (bs s : Name) (t : Table)
    → IsForest cs
    → strip path (a ∷ bs) ≡ some s
    → (t (a ∷ bs)).nexthops ≡ expected_hops up (value_at [] (node rs cs)) s
    → ((k : ℕ) (ks : Name) (m : RibTree)
        → strip path (a ∷ bs) ≡ some (k ∷ ks)
        → find_child k cs ≡ some m
        → (t (a ∷ bs)).nexthops ≡ expected_hops (rs ∷ up) (value_at [] m) ks
        → hops_after ((clean_children face path (rs ∷ up) cs).child_updates) t (a ∷ bs)
          ≡ expected_hops
              (rs ∷ up)
              (λ s. child_value s (find_child k ((clean_children face path (rs ∷ up) cs).kept)))
              ks)
    → hops_after ((clean_children face path (rs ∷ up) cs).child_updates) t (a ∷ bs)
      ≡ expected_hops up (value_at [] (node rs ((clean_children face path (rs ∷ up) cs).kept))) s
unfolding value_at expected_hops flattened_hops child_value
clean_below face path up rs cs a bs [] t i e h r =
    clean_children-misses face path (rs ∷ up) cs a bs t i
      (λ k ks z. absurd (no_key (strip path (a ∷ bs)) k ks e z))
    ∙ h
clean_below face path up rs cs a bs (k ∷ ks) t i e h r = elim (Option-cases (find_child k cs)) [
  | inl z ↦
      let kept = (clean_children face path (rs ∷ up) cs).kept in
      clean_children-misses face path (rs ∷ up) cs a bs t i
        (λ j js y. subst (λ x. find_child x cs ≡ none) (same_key path (a ∷ bs) k j ks js e y) z)
      ∙ h
      ∙ expected_hops-nil up (value_at [] (node rs cs)) (k ∷ ks) (value-none [] (node rs cs) k ks z)
      ∙ sym (
          expected_hops-nil up (value_at [] (node rs kept)) (k ∷ ks)
            (value-none [] (node rs kept) k ks (clean_children-absent face path (rs ∷ up) cs k z)))
  | inr (m, z) ↦
      r k ks m e z (
        h
        ∙ expected_hops-same (rs ∷ up) (λ s. value_at [] (node rs cs) (k ∷ s)) (value_at [] m) ks
            (Agree-all (λ s. value_at [] (node rs cs) (k ∷ s)) (value_at [] m) ks
              (λ p. value-some [] (node rs cs) m k p z)))
      ∙ expected_hops-same (rs ∷ up)
          (λ s. child_value s (find_child k ((clean_children face path (rs ∷ up) cs).kept)))
          (λ s. value_at [] (node rs ((clean_children face path (rs ∷ up) cs).kept)) (k ∷ s)) ks
          (Agree-all
            (λ s. child_value s (find_child k ((clean_children face path (rs ∷ up) cs).kept)))
            (λ s. value_at [] (node rs ((clean_children face path (rs ∷ up) cs).kept)) (k ∷ s)) ks
            (λ p. sym (value-child rs ((clean_children face path (rs ∷ up) cs).kept) k p)))
]

mutual
  unfolding clean_node table_run value_at expected_hops flattened_hops find_child child_value

  pub clean_node-hits :
      (face : ℕ) (path : Name) (up : List RouteList) (n : RibTree) (a : ℕ) (bs s : Name) (t : Table)
      → IsTree n
      → strip path (a ∷ bs) ≡ some s
      → (t (a ∷ bs)).nexthops ≡ expected_hops up (value_at [] n) s
      → hops_after ((clean_node face path up n).updates) t (a ∷ bs)
        ≡ expected_hops up (value_at [] ((clean_node face path up n).left)) s
  clean_node-hits face path up (node rs cs) a bs s t i e h =
      let c = clean_children face path (rs ∷ up) cs in
      entry-hits face path up (first_route (of_face face) rs) rs c a bs s t
        (clean_children-IsForest face path (rs ∷ up) cs i) e
        (clean_below face path up rs cs a bs s t i e h
          (λ k ks m o z v. clean_children-hits face path (rs ∷ up) cs a bs k ks m t i o z v))

  clean_children-hits :
      (face : ℕ) (path : Name) (up : List RouteList) (cs : Children RouteList) (a : ℕ) (bs : Name)
      (k : ℕ) (ks : Name) (m : RibTree) (t : Table)
      → IsForest cs
      → strip path (a ∷ bs) ≡ some (k ∷ ks)
      → find_child k cs ≡ some m
      → (t (a ∷ bs)).nexthops ≡ expected_hops up (value_at [] m) ks
      → hops_after ((clean_children face path up cs).child_updates) t (a ∷ bs)
        ≡ expected_hops up
            (λ s. child_value s (find_child k ((clean_children face path up cs).kept)))
            ks
  clean_children-hits face path up no_children a bs k ks m t i e z h = absurd (none-some z)
  clean_children-hits face path up (child j n cs) a bs k ks m t i e z h =
      let c = clean_node face (path ++ j ∷ []) up n in
      let d = clean_children face path up cs in
      let u = table_run c.updates t in
      let kept = (with_cleaned j c d).kept in
      ap (λ v. (v (a ∷ bs)).nexthops) (table_run-append c.updates d.child_updates t)
      ∙ elim (Bool-cases (j == k)) [
        | inl b ↦
            let w = (==_iff j k).0 b in
            let o : strip path (a ∷ bs) ≡ some (j ∷ ks) =
              subst (λ x. strip path (a ∷ bs) ≡ some (x ∷ ks)) (sym w) e in
            let y : n ≡ m =
              some_inj (ap (λ x. if x then some n else find_child k cs) (sym b) ∙ z) in
            subst
              (λ x.
                (table_run d.child_updates u (a ∷ bs)).nexthops
                ≡ expected_hops up (λ s. child_value s (find_child x kept)) ks)
              w
              (clean_children-misses face path up cs a bs u (i.2) (λ l ls v.
                  subst (λ x. find_child x cs ≡ none) (same_key path (a ∷ bs) j l ks ls o v) (i.0))
                ∙ clean_node-hits face (path ++ j ∷ []) up n a bs ks t (i.1)
                    (strip-snoc path (a ∷ bs) j
                      ∙ ap (strip_key j) o
                      ∙ ap (λ x. if x then some ks else none) (k_same j))
                    (h ∙ ap (λ x. expected_hops up (value_at [] x) ks) (sym y))
                ∙ expected_hops-same up (value_at [] c.left)
                    (λ s. child_value s (find_child j kept)) ks
                    (Agree-all (value_at [] c.left) (λ s. child_value s (find_child j kept)) ks
                      (λ p.
                        kept-here j c d p (clean_children-absent face path up cs j (i.0))
                          (clean_node-gone face (path ++ j ∷ []) up n p))))
        | inr b ↦
            clean_children-hits face path up cs a bs k ks m u (i.2) e
              (ap (λ x. if x then some n else find_child k cs) (sym b) ∙ z)
              (clean_node-misses face (path ++ j ∷ []) up n a bs t (i.1) (
                  strip-snoc path (a ∷ bs) j
                  ∙ ap (strip_key j) e
                  ∙ ap (λ x. if x then some ks else none) b)
                ∙ h)
            ∙ expected_hops-same up (λ s. child_value s (find_child k d.kept))
                (λ s. child_value s (find_child k kept)) ks
                (Agree-all (λ s. child_value s (find_child k d.kept))
                  (λ s. child_value s (find_child k kept)) ks
                  (λ p. ap (child_value p) (sym (with_cleaned-absent k j c d b))))
      ]

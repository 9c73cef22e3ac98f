-- ===== src/Tables/Routes/Dropping.antt =====
-- The removal of a face takes its first route out of every entry.
use mars_icnp.Prelude.{
  ℕ, ◌≡◌, refl, sym, ap, subst, ◌∙◌, inl, inr, Bool, Option, none, some, List, [], ◌∷◌, ◌++◌, ◌==◌,
  if◌then◌else◌, Bool-cases, ==_iff, arith,
}
use mars_icnp.Tables.Tree.{Name, node, Children, no_children, child, find_child, IsTree, IsForest}
use mars_icnp.Tables.Refinement.{value_at}
use mars_icnp.Tables.Routes.{
  Route, RouteList, RibTree, first_route, drop_route, of_face, CleanedChildren, clean_entry,
  with_cleaned, clean_node, clean_children,
}
use mars_icnp.Tables.Routes.Entries.{with_cleaned-absent, clean_children-absent, clean_node-gone}
use mars_icnp.Tables.Routes.Cleaning.{child_value, value-child, kept-here}

drop_route-none :
    (test : Route → Bool) (rs : RouteList) → first_route test rs ≡ none → drop_route test rs ≡ rs
unfolding first_route drop_route
drop_route-none test [] h = refl
drop_route-none test (r ∷ rs) h = ground (arith, drop_route-none test rs)

drop_child :
    (face : ℕ) (ks : Name) (o : Option RibTree)
    → o ≡ none
    → child_value ks o ≡ drop_route (of_face face) (child_value ks o)
unfolding child_value drop_route
drop_child face ks none h = refl
drop_child face ks (some m) h = ground arith

entry-value :
    (face : ℕ) (path : Name) (up : List RouteList) (o : Option Route) (rs : RouteList)
    (c : CleanedChildren) (cs : Children RouteList) (p : Name)
    → first_route (of_face face) rs ≡ o
    → ((k : ℕ) (ks : Name)
        → child_value ks (find_child k c.kept)
          ≡ drop_route (of_face face) (child_value ks (find_child k cs)))
    → value_at [] ((clean_entry face path up o rs c).left) p
      ≡ drop_route (of_face face) (value_at [] (node rs cs) p)
unfolding value_at
entry-value face path up none rs c cs [] e h = sym (drop_route-none (of_face face) rs e)
entry-value face path up (some r) rs c cs [] e h = refl
entry-value face path up none rs c cs (k ∷ ks) e h =
    value-child rs c.kept k ks
    ∙ h k ks
    ∙ ap (drop_route (of_face face)) (sym (value-child rs cs k ks))
entry-value face path up (some r) rs c cs (k ∷ ks) e h =
    value-child (drop_route (of_face face) rs) c.kept k ks
    ∙ h k ks
    ∙ ap (drop_route (of_face face)) (sym (value-child rs cs k ks))

mutual
  unfolding clean_node find_child child_value drop_route

  pub clean_node-value :
      (face : ℕ) (path : Name) (up : List RouteList) (n : RibTree) (p : Name)
      → IsTree n
      → value_at [] ((clean_node face path up n).left) p
        ≡ drop_route (of_face face) (value_at [] n p)
  clean_node-value face path up (node rs cs) p i =
      entry-value face path up (first_route (of_face face) rs) rs
        (clean_children face path (rs ∷ up) cs) cs p refl
        (λ k ks. clean_children-value face path (rs ∷ up) cs k ks i)

  clean_children-value :
      (face : ℕ) (path : Name) (up : List RouteList) (cs : Children RouteList) (k : ℕ) (ks : Name)
      → IsForest cs
      → child_value ks (find_child k ((clean_children face path up cs).kept))
        ≡ drop_route (of_face face) (child_value ks (find_child k cs))
  clean_children-value face path up no_children k ks i = refl
  clean_children-value face path up (child j n cs) k ks i =
      let c = clean_node face (path ++ j ∷ []) up n in
      let d = clean_children face path up cs in
      let found : Bool → RouteList =
        λ x. drop_route (of_face face) (child_value ks (if x then some n else find_child k cs)) in
      elim (Bool-cases (j == k)) [
        | inl b ↦
            subst
              (λ x.
                child_value ks (find_child x ((with_cleaned j c d).kept))
                ≡ drop_route (of_face face) (value_at [] n ks))
              ((==_iff j k).0 b)
              (sym (
                  kept-here j c d ks (clean_children-absent face path up cs j (i.0))
                    (clean_node-gone face (path ++ j ∷ []) up n ks))
                ∙ clean_node-value face (path ++ j ∷ []) up n ks (i.1))
            ∙ sym (ap found b)
        | inr b ↦
            ap (child_value ks) (with_cleaned-absent k j c d b)
            ∙ clean_children-value face path up cs k ks (i.2)
            ∙ sym (ap found b)
      ]

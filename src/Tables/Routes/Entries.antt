-- ===== src/Tables/Routes/Entries.antt =====
-- What the removal of a face does to one entry, once its children are done.
use mars_icnp.Prelude.{
  ℕ, ◌≡◌, refl, sym, ap, ◌∙◌, inl, inr, true, false, Option, none, some, List, [], ◌∷◌, ◌++◌, ◌==◌,
  if◌then◌else◌, if_cases, is_empty, Bool-cases, arith,
}
use mars_icnp.Tables.Tree.{
  Name, node, Children, no_children, child, find_child, is_bare, IsTree, IsForest,
}
use mars_icnp.Tables.Refinement.{value_at, value-new}
use mars_icnp.Tables.Strategy.{FibNextHop}
use mars_icnp.Tables.Runs.{FibOp, Table, table_run}
use mars_icnp.Tables.Routes.{
  Route, RouteList, RibTree, update_nexthops, first_route, drop_route, of_face, Cleaned,
  CleanedChildren, clean_entry, with_cleaned, clean_node, clean_children,
}
use mars_icnp.Tables.Routes.Updates.{
  strip, fresh_hops, fresh_below, update_nexthops-fresh, table_run-append,
}
use mars_icnp.Tables.Routes.Expected.{
  expected_hops, expected_hops-nil, fresh-expected, fresh-absent,
}
use mars_icnp.Tables.Routes.Consistency.{none-some}

-- Trees stay trees, and no child appears.
entry-IsTree :
    (face : ℕ) (path : Name) (up : List RouteList) (o : Option Route) (rs : RouteList)
    (c : CleanedChildren)
    → IsForest c.kept
    → IsTree ((clean_entry face path up o rs c).left)
entry-IsTree face path up none rs c i = i
entry-IsTree face path up (some r) rs c i = i

pub with_cleaned-absent :
    (j k : ℕ) (c : Cleaned) (cs : CleanedChildren)
    → (k == j) ≡ false
    → find_child j ((with_cleaned k c cs).kept) ≡ find_child j cs.kept
unfolding find_child
with_cleaned-absent j k c cs b = ground arith

with_cleaned-IsForest :
    (k : ℕ) (c : Cleaned) (cs : CleanedChildren)
    → IsTree c.left
    → IsForest cs.kept
    → find_child k cs.kept ≡ none
    → IsForest ((with_cleaned k c cs).kept)
with_cleaned-IsForest k c cs t i e = if_cases IsForest c.gone (λ b. i) (λ b. (e, t, i))

pub clean_children-absent :
    (face : ℕ) (path : Name) (up : List RouteList) (cs : Children RouteList) (j : ℕ)
    → find_child j cs ≡ none
    → find_child j ((clean_children face path up cs).kept) ≡ none
unfolding clean_node find_child
clean_children-absent face path up no_children j e = refl
clean_children-absent face path up (child k n cs) j e = elim (Bool-cases (k == j)) [
  | inl b ↦ absurd (none-some (sym e ∙ ap (λ x. if x then some n else find_child j cs) b))
  | inr b ↦
      with_cleaned-absent j k (clean_node face (path ++ k ∷ []) up n)
        (clean_children face path up cs) b
      ∙ clean_children-absent face path up cs j
          (sym (ap (λ x. if x then some n else find_child j cs) b) ∙ e)
]

mutual
  unfolding clean_node

  pub clean_node-IsTree :
      (face : ℕ) (path : Name) (up : List RouteList) (n : RibTree)
      → IsTree n
      → IsTree ((clean_node face path up n).left)
  clean_node-IsTree face path up (node rs cs) i =
      entry-IsTree face path up (first_route (of_face face) rs) rs
        (clean_children face path (rs ∷ up) cs) (clean_children-IsForest face path (rs ∷ up) cs i)

  pub clean_children-IsForest :
      (face : ℕ) (path : Name) (up : List RouteList) (cs : Children RouteList)
      → IsForest cs
      → IsForest ((clean_children face path up cs).kept)
  clean_children-IsForest face path up no_children i = tt
  clean_children-IsForest face path up (child k n cs) i =
      with_cleaned-IsForest k (clean_node face (path ++ k ∷ []) up n)
        (clean_children face path up cs) (clean_node-IsTree face (path ++ k ∷ []) up n (i.1))
        (clean_children-IsForest face path up cs (i.2))
        (clean_children-absent face path up cs k (i.0))

-- An entry that is gone had nothing left.
bare-value : (n : RibTree) (s : Name) → is_bare is_empty n ≡ true → value_at [] n s ≡ []
bare-value (node [] no_children) s b = value-new [] s
bare-value (node (r ∷ rs) no_children) s b = ground arith
bare-value (node rs (child k n cs)) s b = ground arith

gone_entry :
    (face : ℕ) (path : Name) (up : List RouteList) (o : Option Route) (rs : RouteList)
    (c : CleanedChildren) (s : Name)
    → (clean_entry face path up o rs c).gone ≡ true
    → value_at [] ((clean_entry face path up o rs c).left) s ≡ []
gone_entry face path up none rs c s b = ground arith
gone_entry face path up (some r) rs c s b =
    bare-value (node (drop_route (of_face face) rs) c.kept) s b

pub clean_node-gone :
    (face : ℕ) (path : Name) (up : List RouteList) (n : RibTree) (s : Name)
    → (clean_node face path up n).gone ≡ true
    → value_at [] ((clean_node face path up n).left) s ≡ []
unfolding clean_node
clean_node-gone face path up (node rs cs) s b =
    gone_entry face path up (first_route (of_face face) rs) rs
      (clean_children face path (rs ∷ up) cs) s b

abbrev pub hops_after : List FibOp → Table → Name → List FibNextHop
hops_after ops t q = (table_run ops t q).nexthops

pub entry-misses :
    (face : ℕ) (path : Name) (up : List RouteList) (o : Option Route) (rs : RouteList)
    (c : CleanedChildren) (a : ℕ) (bs : Name) (t : Table)
    → IsForest c.kept
    → strip path (a ∷ bs) ≡ none
    → hops_after c.child_updates t (a ∷ bs) ≡ (t (a ∷ bs)).nexthops
    → hops_after ((clean_entry face path up o rs c).updates) t (a ∷ bs) ≡ (t (a ∷ bs)).nexthops
entry-misses face path up none rs c a bs t i e h = h
entry-misses face path up (some r) rs c a bs t i e h =
    let n = node (drop_route (of_face face) rs) c.kept in
    let above : List RouteList = if is_bare is_empty n then [] else up in
    let u = table_run c.child_updates t in
    ap (λ v. (v (a ∷ bs)).nexthops)
      (table_run-append c.child_updates (update_nexthops path above n) t)
    ∙ update_nexthops-fresh path above n a bs u i
    ∙ ap (λ o. fresh_below above n o ((u (a ∷ bs)).nexthops)) e
    ∙ h

above-same :
    (up : List RouteList) (n : RibTree) (s : Name)
    → expected_hops (if is_bare is_empty n then [] else up) (value_at [] n) s
      ≡ expected_hops up (value_at [] n) s
above-same up n s = elim (Bool-cases (is_bare is_empty n)) [
  | inl b ↦
      expected_hops-nil (if is_bare is_empty n then [] else up) (value_at [] n) s (bare-value n s b)
      ∙ sym (expected_hops-nil up (value_at [] n) s (bare-value n s b))
  | inr b ↦ ap (λ x. expected_hops (if x then [] else up) (value_at [] n) s) b
]

absent_below :
    (up above : List RouteList) (rs xs : RouteList) (cs : Children RouteList) (s : Name)
    (hs : List FibNextHop)
    → hs ≡ expected_hops up (value_at [] (node rs cs)) s
    → fresh_hops above (node xs cs) s ≡ none
    → hs ≡ []
unfolding fresh_hops value_at
absent_below up above rs xs cs [] hs h z = absurd (none-some (sym z))
absent_below up above rs xs cs (k ∷ ks) hs h z =
    h
    ∙ expected_hops-nil up (value_at [] (node rs cs)) (k ∷ ks)
        (fresh-absent above (node xs cs) (k ∷ ks) z)

pub entry-hits :
    (face : ℕ) (path : Name) (up : List RouteList) (o : Option Route) (rs : RouteList)
    (c : CleanedChildren) (a : ℕ) (bs s : Name) (t : Table)
    → IsForest c.kept
    → strip path (a ∷ bs) ≡ some s
    → hops_after c.child_updates t (a ∷ bs) ≡ expected_hops up (value_at [] (node rs c.kept)) s
    → hops_after ((clean_entry face path up o rs c).updates) t (a ∷ bs)
      ≡ expected_hops up (value_at [] ((clean_entry face path up o rs c).left)) s
entry-hits face path up none rs c a bs s t i e h = h
entry-hits face path up (some r) rs c a bs s t i e h =
    let n = node (drop_route (of_face face) rs) c.kept in
    let above : List RouteList = if is_bare is_empty n then [] else up in
    let u = table_run c.child_updates t in
    ap (λ v. (v (a ∷ bs)).nexthops)
      (table_run-append c.child_updates (update_nexthops path above n) t)
    ∙ update_nexthops-fresh path above n a bs u i
    ∙ ap (λ o. fresh_below above n o ((u (a ∷ bs)).nexthops)) e
    ∙ fresh-expected above n s ((u (a ∷ bs)).nexthops) (λ z.
      absent_below up above rs (drop_route (of_face face) rs) c.kept s ((u (a ∷ bs)).nexthops) h z)
    ∙ above-same up n s

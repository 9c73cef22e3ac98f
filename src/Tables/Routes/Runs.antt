-- ===== src/Tables/Routes/Runs.antt =====
-- Sequences of calls of the routing information base.
use mars_icnp.Prelude.{
  ℕ, ◌≡◌, refl, sym, ap, ◌∙◌, Bool, true, Option, none, some, List, [], ◌∷◌, if◌then◌else◌, if_same,
  is_empty, arith,
}
use mars_icnp.Tables.Tree.{
  Name, node, no_children, find_child, entry_at, fill_and, change_and_prune, name_eq, IsTree,
}
use mars_icnp.Tables.Refinement.{value_at, value-new, fill_and-value}
use mars_icnp.Tables.Keys.{fill_and-IsTree}
use mars_icnp.Tables.Prune.{change_and_prune-value, change_and_prune-IsTree}
use mars_icnp.Tables.Strategy.{new_fib_entry, FibTree, new_fib_tree}
use mars_icnp.Tables.Runs.{FibOp, Table, table_run, fib_run, run-value, run-IsTree, new-IsTree}
use mars_icnp.Tables.Routes.{
  Route, RouteList, RibTree, RibTable, new_rib_table, same_route, put_route, add_route, drop_route,
  update_below, update_of, remove_route_from, remove_route, of_face, clean_node, clean_up_face,
}
use mars_icnp.Tables.Routes.Updates.{strip}
use mars_icnp.Tables.Routes.Expected.{
  expected_hops, expected_hops-same, expected_hops-nil, Agree-all, name_eq-starts, fresh-absent,
}
use mars_icnp.Tables.Routes.Consistency.{
  Matches, update_below-Matches, unlinked-Matches, put_route-cons, entry_at-fresh, below_absent,
}
use mars_icnp.Tables.Routes.Entries.{clean_node-IsTree}
use mars_icnp.Tables.Routes.Cleaning.{clean_node-hits}
use mars_icnp.Tables.Routes.Dropping.{clean_node-value}

pub data RibCall : Type 0 where
  add_call : Name → Route → RibCall
  remove_call : Name → ℕ → ℕ → RibCall
  clean_up_call : ℕ → RibCall

unfoldable pub rib_step : RibCall → RibTable → RibTable
rib_step (add_call name r) t = add_route name r t
rib_step (remove_call name face origin) t = remove_route name face origin t
rib_step (clean_up_call face) t = clean_up_face face t

unfoldable pub rib_run : List RibCall → RibTable → RibTable
rib_run [] t = t
rib_run (c ∷ cs) t = rib_run cs (rib_step c t)

-- The routes of every name, changed as the code changes them.
abbrev pub RouteTable : Type 0
RouteTable = Name → RouteList

abbrev change_routes : (RouteList → RouteList) → Name → RouteTable → RouteTable
change_routes f name v p = if name_eq name p then f (v p) else v p

unfoldable pub routes_step : RibCall → RouteTable → RouteTable
routes_step (add_call name r) v = change_routes (put_route r) name v
routes_step (remove_call name face origin) v =
    change_routes (drop_route (same_route face origin)) name v
routes_step (clean_up_call face) v = λ p. drop_route (of_face face) (v p)

unfoldable pub routes_run : List RibCall → RouteTable → RouteTable
routes_run [] v = v
routes_run (c ∷ cs) v = routes_run cs (routes_step c v)

-- Both trees have distinct keys, and the hops of the FIB are those that the routes call for.
abbrev IsConsistent : RibTable → Type 0
IsConsistent t = IsTree t.root × IsTree t.fib × Matches t.root (λ q. value_at new_fib_entry t.fib q)

only_empty : (rs : RouteList) → is_empty rs ≡ true → rs ≡ []
only_empty [] h = refl
only_empty (r ∷ rs) h = ground arith

-- What holds of the plain table after the changes holds of the tree.
fib_run-Matches :
    (root : RibTree) (ops : List FibOp) (fib : FibTree)
    → IsTree fib
    → Matches root (table_run ops (value_at new_fib_entry fib))
    → Matches root (value_at new_fib_entry (fib_run ops fib))
fib_run-Matches root ops fib i h a bs =
    ap (λ e. e.nexthops) (run-value ops fib (value_at new_fib_entry fib) (a ∷ bs) i (λ q. refl))
    ∙ h a bs

add_route-IsConsistent :
    (name : Name) (r : Route) (t : RibTable) → IsConsistent t → IsConsistent (add_route name r t)
unfolding add_route
add_route-IsConsistent name r t (i, j, h) =
    let root = fill_and [] (put_route r) name t.root in
    let ops = update_below [] [] name root in
    let k = fill_and-IsTree [] (put_route r) name t.root i in
    let c : (p : Name)
        → value_at [] root p ≡ change_routes (put_route r) name (value_at [] t.root) p =
      λ p. fill_and-value [] (put_route r) name p t.root in
    (
      k,
      run-IsTree ops t.fib j,
      fib_run-Matches root ops t.fib j (
          update_below-Matches (put_route r) name t.root root (value_at new_fib_entry t.fib) c h k
            (λ q b z. put_route-cons r (value_at [] t.root q) (
              sym
                (ap (λ x. if x then put_route r (value_at [] t.root q) else value_at [] t.root q) b)
              ∙ sym (c q)
              ∙ fresh-absent [] root q z))),
    )

pruned-value :
    (test : Route → Bool) (name p : Name) (root : RibTree)
    → IsTree root
    → value_at [] (change_and_prune is_empty (drop_route test) name root) p
      ≡ change_routes (drop_route test) name (value_at [] root) p
unfolding drop_route
pruned-value test name p root i =
    change_and_prune-value is_empty [] only_empty (drop_route test) name p root refl i

update_of-Matches :
    (test : Route → Bool) (name : Name) (root : RibTree) (t : Table) (o : Option RouteList)
    → IsTree root
    → Matches root t
    → entry_at (change_and_prune is_empty (drop_route test) name root) name ≡ o
    → Matches
        (change_and_prune is_empty (drop_route test) name root)
        (table_run (update_of name (change_and_prune is_empty (drop_route test) name root) o) t)
update_of-Matches test name root t none i h e =
    unlinked-Matches (drop_route test) name root
      (change_and_prune is_empty (drop_route test) name root) t
      (λ p. pruned-value test name p root i) h e
update_of-Matches test name root t (some rs) i h e =
    let after = change_and_prune is_empty (drop_route test) name root in
    update_below-Matches (drop_route test) name root after t (λ p. pruned-value test name p root i)
      h (change_and_prune-IsTree is_empty [] only_empty (drop_route test) name root i)
      (λ q b z. entry_at-fresh [] after name q rs e b z)

remove_route_from-IsConsistent :
    (name : Name) (test : Route → Bool) (o : Option RouteList) (t : RibTable)
    → IsConsistent t
    → IsConsistent (remove_route_from name test o t)
unfolding remove_route_from
remove_route_from-IsConsistent name test none t c = c
remove_route_from-IsConsistent name test (some rs) t (i, j, h) =
    let root = change_and_prune is_empty (drop_route test) name t.root in
    let ops = update_of name root (entry_at root name) in
    (
      change_and_prune-IsTree is_empty [] only_empty (drop_route test) name t.root i,
      run-IsTree ops t.fib j,
      fib_run-Matches root ops t.fib j (
          update_of-Matches test name t.root (value_at new_fib_entry t.fib) (entry_at root name) i h
            refl),
    )

clean_up_face-IsConsistent :
    (face : ℕ) (t : RibTable) → IsConsistent t → IsConsistent (clean_up_face face t)
unfolding clean_up_face strip
clean_up_face-IsConsistent face t (i, j, h) =
    let c = clean_node face [] [] t.root in
    (
      clean_node-IsTree face [] [] t.root i,
      run-IsTree c.updates t.fib j,
      fib_run-Matches c.left c.updates t.fib j (λ a bs.
          clean_node-hits face [] [] t.root a bs (a ∷ bs) (value_at new_fib_entry t.fib) i refl
            (h a bs)),
    )

rib_step-IsConsistent : (c : RibCall) (t : RibTable) → IsConsistent t → IsConsistent (rib_step c t)
unfolding rib_step remove_route
rib_step-IsConsistent (add_call name r) t i = add_route-IsConsistent name r t i
rib_step-IsConsistent (remove_call name face origin) t i =
    remove_route_from-IsConsistent name (same_route face origin) (entry_at t.root name) t i
rib_step-IsConsistent (clean_up_call face) t i = clean_up_face-IsConsistent face t i

rib_run-IsConsistent :
    (cs : List RibCall) (t : RibTable) → IsConsistent t → IsConsistent (rib_run cs t)
unfolding rib_run
rib_run-IsConsistent [] t i = i
rib_run-IsConsistent (c ∷ cs) t i =
    rib_run-IsConsistent cs (rib_step c t) (rib_step-IsConsistent c t i)

-- The routes of the tree are those of the plain table after the same call.
removed-value :
    (name : Name) (test : Route → Bool) (o : Option RouteList) (t : RibTable) (p : Name)
    → IsTree t.root
    → entry_at t.root name ≡ o
    → value_at [] ((remove_route_from name test o t).root) p
      ≡ change_routes (drop_route test) name (value_at [] t.root) p
unfolding remove_route_from drop_route
removed-value name test none t p i e =
    if_same (name_eq name p) (value_at [] t.root p) (drop_route test (value_at [] t.root p)) (λ b.
      let z = below_absent t.root name p e (name_eq-starts name p b) in
      z ∙ sym (ap (drop_route test) z))
removed-value name test (some rs) t p i e = pruned-value test name p t.root i

step-routes :
    (c : RibCall) (t : RibTable) (p : Name)
    → IsTree t.root
    → value_at [] ((rib_step c t).root) p ≡ routes_step c (value_at [] t.root) p
unfolding rib_step routes_step add_route remove_route clean_up_face
step-routes (add_call name r) t p i = fill_and-value [] (put_route r) name p t.root
step-routes (remove_call name face origin) t p i =
    removed-value name (same_route face origin) (entry_at t.root name) t p i refl
step-routes (clean_up_call face) t p i = clean_node-value face [] [] t.root p i

routes_step-same :
    (c : RibCall) (v w : RouteTable) (p : Name)
    → ((q : Name) → v q ≡ w q)
    → routes_step c v p ≡ routes_step c w p
unfolding routes_step
routes_step-same (add_call name r) v w p h =
    ap (λ x. if name_eq name p then put_route r x else x) (h p)
routes_step-same (remove_call name face origin) v w p h =
    ap (λ x. if name_eq name p then drop_route (same_route face origin) x else x) (h p)
routes_step-same (clean_up_call face) v w p h = ap (drop_route (of_face face)) (h p)

run-routes :
    (cs : List RibCall) (t : RibTable) (v : RouteTable) (p : Name)
    → IsConsistent t
    → ((q : Name) → value_at [] t.root q ≡ v q)
    → value_at [] ((rib_run cs t).root) p ≡ routes_run cs v p
unfolding rib_run routes_run
run-routes [] t v p i h = h p
run-routes (c ∷ cs) t v p i h =
    run-routes cs (rib_step c t) (routes_step c v) p (rib_step-IsConsistent c t i)
      (λ q. step-routes c t q (i.0) ∙ routes_step-same c (value_at [] t.root) v q h)

new-IsConsistent : (default : Name) → IsConsistent (new_rib_table (new_fib_tree default))
unfolding value_at find_child new_fib_tree
new-IsConsistent default = (
  tt,
  new-IsTree default,
  λ a bs. sym (expected_hops-nil [] (value_at [] (node [] no_children)) (a ∷ bs) refl),
)

-- After any calls on new tables, the hops of the FIB at any name but the root are what flattening the
-- routes of the name gives, in a table of routes that changes as the entries do.
pub rib_run-expected :
    (cs : List RibCall) (default : Name) (a : ℕ) (bs : Name)
    → (value_at new_fib_entry
        ((rib_run cs (new_rib_table (new_fib_tree default))).fib)
        (a ∷ bs)).nexthops
      ≡ expected_hops [] (routes_run cs (λ p. [])) (a ∷ bs)
rib_run-expected cs default a bs =
    let t = new_rib_table (new_fib_tree default) in
    let i = new-IsConsistent default in
    let root = (rib_run cs t).root in
    (rib_run-IsConsistent cs t i).2 a bs
    ∙ expected_hops-same [] (value_at [] root) (routes_run cs (λ p. [])) (a ∷ bs) (
        Agree-all (value_at [] root) (routes_run cs (λ p. [])) (a ∷ bs)
          (λ p. run-routes cs t (λ p. []) p i (λ q. value-new [] q)))

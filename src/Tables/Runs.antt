-- ===== src/Tables/Runs.antt =====
-- Sequences of changes of the FIB-strategy table, on the tree and on a plain table.
use mars_icnp.Prelude.{
  ℕ, ◌≡◌, arith, refl, ap, ap₂, ◌∙◌, true, ◌&&◌, is_empty, Option, none, some, List, [], ◌∷◌,
  if◌then◌else◌,
}
use mars_icnp.Tables.Tree.{Name, find_child, name_eq, IsTree}
use mars_icnp.Tables.Strategy.{
  FibNextHop, FibStrategyEntry, is_none, carries_nothing, new_fib_entry, FibTree, new_fib_tree,
  find_next_hops, find_strategy, update_next_hop, drop_hop, set_nexthops, set_entry_strategy,
  insert_next_hop, clear_next_hops, set_strategy, remove_fib_next_hop, unset_strategy,
}
use mars_icnp.Tables.Refinement.{value_at, fill_and-value, change_at-value}
use mars_icnp.Tables.Keys.{fill_and-IsTree, change_at-IsTree}
use mars_icnp.Tables.Prune.{change_and_prune-value, change_and_prune-IsTree}
use mars_icnp.Tables.Lookup.{
  longest_hops, longest_strategy, longest_hops-same, longest_strategy-same, find_next_hops-longest,
  find_strategy-longest,
}

-- The calls that change the table.
pub data FibOp : Type 0 where
  insert_op : Name → ℕ → ℕ → FibOp
  clear_op : Option Name → FibOp
  remove_op : Name → ℕ → FibOp
  set_op : Name → Name → FibOp
  unset_op : Name → FibOp

unfoldable pub fib_step : FibOp → FibTree → FibTree
fib_step (insert_op name f c) t = insert_next_hop name f c t
fib_step (clear_op name) t = clear_next_hops name t
fib_step (remove_op name f) t = remove_fib_next_hop name f t
fib_step (set_op name s) t = set_strategy name s t
fib_step (unset_op name) t = unset_strategy name t

unfoldable pub fib_run : List FibOp → FibTree → FibTree
fib_run [] t = t
fib_run (op ∷ ops) t = fib_run ops (fib_step op t)

-- The table that the tree stands for: an entry for every name.
abbrev pub Table : Type 0
Table = Name → FibStrategyEntry

abbrev pub change : (FibStrategyEntry → FibStrategyEntry) → Name → Table → Table
change f name t p = if name_eq name p then f (t p) else t p

unfoldable pub table_step : FibOp → Table → Table
table_step (insert_op name f c) t = change (set_nexthops (update_next_hop f c)) name t
table_step (clear_op none) t = t
table_step (clear_op (some name)) t = change (set_nexthops (λ hs. [])) name t
table_step (remove_op name f) t = change (set_nexthops (drop_hop f)) name t
table_step (set_op name s) t = change (set_entry_strategy (some s)) name t
table_step (unset_op name) t = change (set_entry_strategy none) name t

unfoldable pub table_run : List FibOp → Table → Table
table_run [] t = t
table_run (op ∷ ops) t = table_run ops (table_step op t)

-- Only the root has an entry, the default strategy.
abbrev pub new_table : Name → Table
new_table default [] = record { nexthops = []; strategy = some default }
new_table default (k ∷ ks) = new_fib_entry

no_parts :
    (xs : List FibNextHop) (s : Option Name)
    → (is_empty xs && is_none s) ≡ true
    → (xs ≡ []) × (s ≡ none)
no_parts [] none h = (refl, refl)
no_parts [] (some s) h = ground arith
no_parts (x ∷ xs) s h = ground arith

nothing-new : (e : FibStrategyEntry) → carries_nothing e ≡ true → e ≡ new_fib_entry
nothing-new e h =
    let parts = no_parts e.nexthops e.strategy h in
    ap₂ {C = FibStrategyEntry} (λ xs s. record { nexthops = xs; strategy = s }) (parts.0) (parts.1)

step-value :
    (op : FibOp) (t : FibTree) (p : Name)
    → IsTree t
    → value_at new_fib_entry (fib_step op t) p ≡ table_step op (value_at new_fib_entry t) p
unfolding fib_step table_step insert_next_hop clear_next_hops set_strategy remove_fib_next_hop
    unset_strategy drop_hop
step-value (insert_op name f c) t p i =
    fill_and-value new_fib_entry (set_nexthops (update_next_hop f c)) name p t
step-value (clear_op none) t p i = refl
step-value (clear_op (some name)) t p i =
    change_at-value new_fib_entry (set_nexthops (λ hs. [])) name p t refl
step-value (remove_op name f) t p i =
    change_and_prune-value carries_nothing new_fib_entry nothing-new (set_nexthops (drop_hop f))
      name p t refl i
step-value (set_op name s) t p i =
    fill_and-value new_fib_entry (set_entry_strategy (some s)) name p t
step-value (unset_op name) t p i =
    change_and_prune-value carries_nothing new_fib_entry nothing-new (set_entry_strategy none) name
      p t refl i

step-IsTree : (op : FibOp) (t : FibTree) → IsTree t → IsTree (fib_step op t)
unfolding fib_step insert_next_hop clear_next_hops set_strategy remove_fib_next_hop unset_strategy
step-IsTree (insert_op name f c) t i =
    fill_and-IsTree new_fib_entry (set_nexthops (update_next_hop f c)) name t i
step-IsTree (clear_op none) t i = i
step-IsTree (clear_op (some name)) t i = change_at-IsTree (set_nexthops (λ hs. [])) name t i
step-IsTree (remove_op name f) t i =
    change_and_prune-IsTree carries_nothing new_fib_entry nothing-new (set_nexthops (drop_hop f))
      name t i
step-IsTree (set_op name s) t i =
    fill_and-IsTree new_fib_entry (set_entry_strategy (some s)) name t i
step-IsTree (unset_op name) t i =
    change_and_prune-IsTree carries_nothing new_fib_entry nothing-new (set_entry_strategy none) name
      t i

-- Tables that agree everywhere do so after a change.
step-same :
    (op : FibOp) (s t : Table) (p : Name)
    → ((q : Name) → s q ≡ t q)
    → table_step op s p ≡ table_step op t p
unfolding table_step
step-same (insert_op name f c) s t p h =
    ap (λ v. if name_eq name p then set_nexthops (update_next_hop f c) v else v) (h p)
step-same (clear_op none) s t p h = h p
step-same (clear_op (some name)) s t p h =
    ap (λ v. if name_eq name p then set_nexthops (λ hs. []) v else v) (h p)
step-same (remove_op name f) s t p h =
    ap (λ v. if name_eq name p then set_nexthops (drop_hop f) v else v) (h p)
step-same (set_op name x) s t p h =
    ap (λ v. if name_eq name p then set_entry_strategy (some x) v else v) (h p)
step-same (unset_op name) s t p h =
    ap (λ v. if name_eq name p then set_entry_strategy none v else v) (h p)

pub run-value :
    (ops : List FibOp) (t : FibTree) (table : Table) (p : Name)
    → IsTree t
    → ((q : Name) → value_at new_fib_entry t q ≡ table q)
    → value_at new_fib_entry (fib_run ops t) p ≡ table_run ops table p
unfolding fib_run table_run
run-value [] t table p i h = h p
run-value (op ∷ ops) t table p i h =
    run-value ops (fib_step op t) (table_step op table) p (step-IsTree op t i)
      (λ q. step-value op t q i ∙ step-same op (value_at new_fib_entry t) table q h)

pub run-IsTree : (ops : List FibOp) (t : FibTree) → IsTree t → IsTree (fib_run ops t)
unfolding fib_run
run-IsTree [] t i = i
run-IsTree (op ∷ ops) t i = run-IsTree ops (fib_step op t) (step-IsTree op t i)

pub new-value :
    (default p : Name) → value_at new_fib_entry (new_fib_tree default) p ≡ new_table default p
unfolding value_at new_fib_tree find_child
new-value default [] = refl
new-value default (k ∷ ks) = refl

pub new-IsTree : (default : Name) → IsTree (new_fib_tree default)
unfolding new_fib_tree
new-IsTree default = tt

-- After any changes of a new tree, whatever names they are about, a lookup of next hops and a
-- lookup of a strategy give, of the prefixes of the name, what the longest one with an answer has
-- in the plain table after the same changes. Pruning is not to be seen.
pub run-lookups :
    (ops : List FibOp) (default name : Name)
    → (find_next_hops (fib_run ops (new_fib_tree default)) name
        ≡ longest_hops (table_run ops (new_table default)) name)
      × (find_strategy (fib_run ops (new_fib_tree default)) name
          ≡ longest_strategy (table_run ops (new_table default)) name)
run-lookups ops default name =
    let t = fib_run ops (new_fib_tree default) in
    let h : (p : Name) → value_at new_fib_entry t p ≡ table_run ops (new_table default) p = λ p.
      run-value ops (new_fib_tree default) (new_table default) p (new-IsTree default)
        (new-value default) in
    (
      find_next_hops-longest t name
          ∙ longest_hops-same (value_at new_fib_entry t) (table_run ops (new_table default)) name h,
      find_strategy-longest t name
          ∙ longest_strategy-same (value_at new_fib_entry t) (table_run ops (new_table default))
              name h,
    )

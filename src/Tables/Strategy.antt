-- ===== src/Tables/Strategy.antt =====
-- The FIB-strategy table as a tree (mars/fw/table/fib-strategy-tree.go).
use mars_icnp.Prelude.{
  ℕ, Bool, true, false, ◌&&◌, Option, none, some, List, [], ◌∷◌, ◌==◌, if◌then◌else◌, is_empty,
}
use mars_icnp.Tables.Tree.{
  Name, Node, node, no_children, match_from, fill_and, change_at, change_and_prune,
}

pub record FibNextHop : Type 0 where
  pub nexthop : ℕ
  pub cost : ℕ

-- `baseFibStrategyEntry`: a strategy is a name, `none` is nil.
pub record FibStrategyEntry : Type 0 where
  pub nexthops : List FibNextHop
  pub strategy : Option Name

abbrev pub new_fib_entry : FibStrategyEntry
new_fib_entry = record { nexthops = []; strategy = none }

abbrev pub FibTree : Type 0
FibTree = Node FibStrategyEntry

unfoldable pub new_fib_tree : Name → FibTree
new_fib_tree default_strategy =
    node (record { nexthops = []; strategy = some default_strategy }) no_children

-- The climb from the longest prefix match to the first entry with next hops.
unfoldable pub first_hops : List FibStrategyEntry → List FibNextHop
first_hops [] = []
first_hops (e ∷ es) = if is_empty e.nexthops then first_hops es else e.nexthops

unfoldable pub find_next_hops : FibTree → Name → List FibNextHop
find_next_hops t name = first_hops (match_from t name [])

abbrev pub or_strategy : Option Name → Option Name → Option Name
or_strategy none o = o
or_strategy (some s) o = some s

unfoldable pub first_strategy : List FibStrategyEntry → Option Name
first_strategy [] = none
first_strategy (e ∷ es) = or_strategy e.strategy (first_strategy es)

unfoldable pub find_strategy : FibTree → Name → Option Name
find_strategy t name = first_strategy (match_from t name [])

-- The first hop to the face gets the cost, or a hop is added.
unfoldable pub update_next_hop : ℕ → ℕ → List FibNextHop → List FibNextHop
update_next_hop f c [] = record { nexthop = f; cost = c } ∷ []
update_next_hop f c (h ∷ hs) =
    if h.nexthop == f
    then record { nexthop = h.nexthop; cost = c } ∷ hs
    else h ∷ update_next_hop f c hs

-- The first hop to the face is removed.
unfoldable pub drop_hop : ℕ → List FibNextHop → List FibNextHop
drop_hop f [] = []
drop_hop f (h ∷ hs) = if h.nexthop == f then hs else h ∷ drop_hop f hs

abbrev pub set_nexthops : (List FibNextHop → List FibNextHop) → FibStrategyEntry → FibStrategyEntry
set_nexthops f e = record { nexthops = f e.nexthops; strategy = e.strategy }

abbrev pub set_entry_strategy : Option Name → FibStrategyEntry → FibStrategyEntry
set_entry_strategy s e = record { nexthops = e.nexthops; strategy = s }

unfoldable pub insert_next_hop : Name → ℕ → ℕ → FibTree → FibTree
insert_next_hop name f c t = fill_and new_fib_entry (set_nexthops (update_next_hop f c)) name t

-- A nil name changes nothing.
unfoldable pub clear_next_hops : Option Name → FibTree → FibTree
clear_next_hops none t = t
clear_next_hops (some name) t = change_at (set_nexthops (λ hs. [])) name t

unfoldable pub set_strategy : Name → Name → FibTree → FibTree
set_strategy name s t = fill_and new_fib_entry (set_entry_strategy (some s)) name t

abbrev pub is_none : Option Name → Bool
is_none none = true
is_none (some s) = false

abbrev pub carries_nothing : FibStrategyEntry → Bool
carries_nothing e = is_empty e.nexthops && is_none e.strategy

unfoldable pub remove_fib_next_hop : Name → ℕ → FibTree → FibTree
remove_fib_next_hop name f t = change_and_prune carries_nothing (set_nexthops (drop_hop f)) name t

unfoldable pub unset_strategy : Name → FibTree → FibTree
unset_strategy name t = change_and_prune carries_nothing (set_entry_strategy none) name t

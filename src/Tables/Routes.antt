-- ===== src/Tables/Routes.antt =====
-- The routing information base of the forwarder (mars/fw/table/rib.go): a name tree of routes whose
-- changes rewrite the next hops of the FIB.
mod Updates
pub mod Expected
mod Consistency
mod Entries
mod Cleaning
mod Dropping
pub mod Runs
pub mod Plain
pub mod Calls
pub mod Minimum
use mars_icnp.Prelude.{
  ℕ, ◌%◌, Bool, true, false, ◌&&◌, Option, none, some, List, [], ◌∷◌, ◌++◌, map, ltb, leb, ◌==◌,
  if◌then◌else◌, is_empty,
}
use mars_icnp.Prelude.Maps.{find, put}
use mars_icnp.Tables.Tree.{
  Name, Node, node, Children, no_children, child, entry_of, children_of, has_no_children,
  find_child, put_child, delete_child, entry_at, fill_and, is_bare, change_and_prune,
}
use mars_icnp.Tables.Strategy.{FibTree}
use mars_icnp.Tables.Runs.{FibOp, insert_op, clear_op, fib_run}

-- No expiration period is `none`.
pub record Route : Type 0 where
  pub face_id : ℕ
  pub origin : ℕ
  pub route_cost : ℕ
  pub flags : ℕ
  pub expiration_period : Option ℕ

abbrev pub RouteList : Type 0
RouteList = List Route

abbrev pub RibTree : Type 0
RibTree = Node RouteList

-- The bits 1 and 2 of the flags.
abbrev pub has_child_inherit_flag : Route → Bool
has_child_inherit_flag r = r.flags % 2 == 1

abbrev pub has_capture_flag : Route → Bool
has_capture_flag r = leb 2 (r.flags % 4)

unfoldable pub has_capture_route : RouteList → Bool
has_capture_route [] = false
has_capture_route (r ∷ rs) = if has_capture_flag r then true else has_capture_route rs

-- What is taken of one entry: its routes with the inherit flag up to the first with the capture flag.
unfoldable pub inherited_of : RouteList → RouteList
inherited_of [] = []
inherited_of (r ∷ rs) =
    let rest = inherited_of rs in
    let after = if has_capture_flag r then [] else rest in
    if has_child_inherit_flag r then r ∷ after else after

-- The entries from one up to the root. A capture flag ends the loop over the routes of its entry,
-- and not the one over the entries.
unfoldable pub inherited : List RouteList → RouteList
inherited [] = []
inherited (rs ∷ up) = inherited_of rs ++ inherited up

unfoldable pub all_routes : RouteList → List RouteList → RouteList
all_routes rs up = if has_capture_route rs then rs else rs ++ inherited (rs ∷ up)

abbrev pub lower_cost : Route → Option ℕ → List (ℕ × ℕ) → List (ℕ × ℕ)
lower_cost r none m = put r.face_id r.route_cost m
lower_cost r (some c) m = if ltb r.route_cost c then put r.face_id r.route_cost m else m

unfoldable pub min_cost_routes : RouteList → List (ℕ × ℕ) → List (ℕ × ℕ)
min_cost_routes [] m = m
min_cost_routes (r ∷ rs) m = min_cost_routes rs (lower_cost r (find r.face_id m) m)

-- The next hops of an entry; an entry with no routes of its own has none.
unfoldable pub flattened_hops : RouteList → List RouteList → List (ℕ × ℕ)
flattened_hops [] up = []
flattened_hops (r ∷ rs) up = min_cost_routes (all_routes (r ∷ rs) up) []

-- The name of the root is nil.
abbrev pub entry_name : Name → Option Name
entry_name [] = none
entry_name (k ∷ ks) = some (k ∷ ks)

abbrev pub hop_op : Name → ℕ × ℕ → FibOp
hop_op name (face, cost) = insert_op name face cost

-- `updateNexthopsEnc` as the changes of the FIB that it makes, the entry at the name `path` with the
-- routes `up` of the entries above it.
unfoldable mutual
  pub update_nexthops : Name → List RouteList → RibTree → List FibOp
  update_nexthops path up (node rs cs) =
      clear_op (entry_name path) ∷ map (hop_op path) (flattened_hops rs up)
      ++ update_children path (rs ∷ up) cs

  pub update_children : Name → List RouteList → Children RouteList → List FibOp
  update_children path up no_children = []
  update_children path up (child k n cs) =
      update_nexthops (path ++ k ∷ []) up n ++ update_children path up cs

-- The same for the entry at the name `ks` below one.
unfoldable pub update_below : Name → List RouteList → Name → RibTree → List FibOp
update_below path up [] n = update_nexthops path up n
update_below path up (k ∷ ks) n = elim (find_child k (children_of n)) [
  | none ↦ []
  | some m ↦ update_below (path ++ k ∷ []) (entry_of n ∷ up) ks m
]

-- What the readvertisers are told.
pub data Readvertise : Type 0 where
  announce : Name → Route → Readvertise
  withdraw : Name → Route → Readvertise

pub record RibTable : Type 0 where
  pub root : RibTree
  pub fib : FibTree
  pub readvertised : List Readvertise

abbrev pub new_rib_table : FibTree → RibTable
new_rib_table fib = record { root = node [] no_children; fib = fib; readvertised = [] }

abbrev pub same_route : ℕ → ℕ → Route → Bool
same_route face origin r = (r.face_id == face) && (r.origin == origin)

-- The first route with the face and the origin takes the cost and the flags, or the route is added.
unfoldable pub put_route : Route → RouteList → RouteList
put_route r [] = r ∷ []
put_route r (x ∷ xs) = if same_route r.face_id r.origin x then r ∷ xs else x ∷ put_route r xs

unfoldable pub add_route : Name → Route → RibTable → RibTable
add_route name r t =
    let root = fill_and [] (put_route r) name t.root in
    record {
      root = root;
      fib = fib_run (update_below [] [] name root) t.fib;
      readvertised = t.readvertised ++ announce name r ∷ [];
    }

-- The first route that passes a test, and the routes without it.
unfoldable pub first_route : (Route → Bool) → RouteList → Option Route
first_route test [] = none
first_route test (r ∷ rs) = if test r then some r else first_route test rs

unfoldable pub drop_route : (Route → Bool) → RouteList → RouteList
drop_route test [] = []
drop_route test (r ∷ rs) = if test r then rs else r ∷ drop_route test rs

abbrev pub withdrawn : Name → Option Route → List Readvertise
withdrawn name none = []
withdrawn name (some r) = withdraw name r ∷ []

-- The update of an entry that is still in the tree, or of one that was taken out.
abbrev pub update_of : Name → RibTree → Option RouteList → List FibOp
update_of name root none = update_nexthops name [] (node [] no_children)
update_of name root (some rs) = update_below [] [] name root

unfoldable pub remove_route_from : Name → (Route → Bool) → Option RouteList → RibTable → RibTable
remove_route_from name test none t = t
remove_route_from name test (some rs) t =
    let root = change_and_prune is_empty (drop_route test) name t.root in
    record {
      root = root;
      fib = fib_run (update_of name root (entry_at root name)) t.fib;
      readvertised = t.readvertised ++ withdrawn name (first_route test rs);
    }

unfoldable pub remove_route : Name → ℕ → ℕ → RibTable → RibTable
remove_route name face origin t =
    remove_route_from name (same_route face origin) (entry_at t.root name) t

abbrev pub of_face : ℕ → Route → Bool
of_face face r = r.face_id == face

-- What `cleanUpFace` leaves of an entry, with what it does on the way; an entry that is `gone` was
-- taken out of its parent.
pub record Cleaned : Type 0 where
  pub left : RibTree
  pub gone : Bool
  pub updates : List FibOp
  pub withdrawals : List Readvertise

pub record CleanedChildren : Type 0 where
  pub kept : Children RouteList
  pub child_updates : List FibOp
  pub child_withdrawals : List Readvertise

abbrev pub clean_entry :
    ℕ → Name → List RouteList → Option Route → RouteList → CleanedChildren → Cleaned
clean_entry face path up none rs c = record {
  left = node rs c.kept;
  gone = false;
  updates = c.child_updates;
  withdrawals = c.child_withdrawals;
}
clean_entry face path up (some r) rs c =
    let n = node (drop_route (of_face face) rs) c.kept in
    record {
      left = n;
      gone = is_bare is_empty n;
      updates = c.child_updates ++ update_nexthops path (if is_bare is_empty n then [] else up) n;
      withdrawals = c.child_withdrawals ++ withdraw path r ∷ [];
    }

abbrev pub with_cleaned : ℕ → Cleaned → CleanedChildren → CleanedChildren
with_cleaned k c cs = record {
  kept = if c.gone then cs.kept else child k c.left cs.kept;
  child_updates = c.updates ++ cs.child_updates;
  child_withdrawals = c.withdrawals ++ cs.child_withdrawals;
}

abbrev pub none_cleaned : CleanedChildren
none_cleaned = record { kept = no_children; child_updates = []; child_withdrawals = [] }

-- The children first, while the entry still has its own routes.
unfoldable mutual
  pub clean_node : ℕ → Name → List RouteList → RibTree → Cleaned
  clean_node face path up (node rs cs) =
      clean_entry face path up (first_route (of_face face) rs) rs
        (clean_children face path (rs ∷ up) cs)

  pub clean_children : ℕ → Name → List RouteList → Children RouteList → CleanedChildren
  clean_children face path up no_children = none_cleaned
  clean_children face path up (child k n cs) =
      with_cleaned k (clean_node face (path ++ k ∷ []) up n) (clean_children face path up cs)

unfoldable pub clean_up_face : ℕ → RibTable → RibTable
clean_up_face face t =
    let c = clean_node face [] [] t.root in
    record {
      root = c.left;
      fib = fib_run c.updates t.fib;
      readvertised = t.readvertised ++ c.withdrawals;
    }

-- ===== src/Tables/Routes/Updates.antt =====
-- What an update of the next hops below an entry leaves in the FIB.
use mars_icnp.Prelude.{
  ℕ, ◌≡◌, refl, sym, ap, subst, ◌∙◌, ◌⊎◌, inl, inr, Bool, true, false, Option, none, some, List, [],
  ◌∷◌, ◌++◌, map, ltb, ◌==◌, if◌then◌else◌, if_cases, Bool-cases, ==_iff, arith,
}
use mathlib.Core.List.{append_assoc, append-nil}
use mars_icnp.Prelude.Maps.{find, put, DistinctKeys, find-put, put-DistinctKeys}
use mars_icnp.Tables.Tree.{
  Name, node, Children, no_children, child, entry_of, children_of, find_child, name_eq, IsTree,
  IsForest,
}
use mars_icnp.Tables.Strategy.{FibNextHop, FibStrategyEntry, update_next_hop, set_nexthops}
use mars_icnp.Tables.Runs.{FibOp, insert_op, clear_op, Table, table_step, table_run}
use mars_icnp.Tables.Routes.{
  Route, RouteList, RibTree, min_cost_routes, lower_cost, flattened_hops, all_routes, entry_name,
  hop_op, update_nexthops, update_children,
}

abbrev pub hop_of : ℕ × ℕ → FibNextHop
hop_of (face, cost) = record { nexthop = face; cost = cost }

-- The rest of a name after a prefix of it.
unfoldable pub strip : Name → Name → Option Name
strip [] q = some q
strip (k ∷ ks) [] = none
strip (k ∷ ks) (j ∷ js) = if k == j then strip ks js else none

-- The hops that the entry at the name, if there is one, has after an update of all entries.
unfoldable pub fresh_hops : List RouteList → RibTree → Name → Option (List FibNextHop)
fresh_hops up n [] = some (map hop_of (flattened_hops (entry_of n) up))
fresh_hops up n (k ∷ ks) = elim (find_child k (children_of n)) [
  | none ↦ none
  | some m ↦ fresh_hops (entry_of n ∷ up) m ks
]

abbrev pub fresh_or : Option (List FibNextHop) → List FibNextHop → List FibNextHop
fresh_or none hs = hs
fresh_or (some gs) hs = gs

abbrev pub fresh_below : List RouteList → RibTree → Option Name → List FibNextHop → List FibNextHop
fresh_below up n none hs = hs
fresh_below up n (some s) hs = fresh_or (fresh_hops up n s) hs

abbrev fresh_in : List RouteList → Name → Option RibTree → List FibNextHop → List FibNextHop
fresh_in up ks none hs = hs
fresh_in up ks (some m) hs = fresh_or (fresh_hops up m ks) hs

abbrev fresh_children :
    List RouteList → Children RouteList → Option Name → List FibNextHop → List FibNextHop
fresh_children up cs none hs = hs
fresh_children up cs (some []) hs = hs
fresh_children up cs (some (k ∷ ks)) hs = fresh_in up ks (find_child k cs) hs

abbrev pub strip_key : ℕ → Option Name → Option Name
strip_key k none = none
strip_key k (some []) = none
strip_key k (some (j ∷ js)) = if k == j then some js else none

abbrev pub is_here : Option Name → Bool
is_here none = false
is_here (some []) = true
is_here (some (k ∷ ks)) = false

pub strip-snoc : (path q : Name) (k : ℕ) → strip (path ++ k ∷ []) q ≡ strip_key k (strip path q)
unfolding strip
strip-snoc [] [] k = refl
strip-snoc [] (j ∷ js) k = refl
strip-snoc (i ∷ path) [] k = refl
strip-snoc (i ∷ path) (j ∷ js) k = ground (arith, strip-snoc path js k)

pub name_eq-strip : (path q : Name) → name_eq path q ≡ is_here (strip path q)
unfolding strip name_eq
name_eq-strip [] [] = refl
name_eq-strip [] (j ∷ js) = refl
name_eq-strip (i ∷ path) [] = refl
name_eq-strip (i ∷ path) (j ∷ js) = ground (arith, name_eq-strip path js)

pub table_run-append :
    (xs ys : List FibOp) (t : Table) → table_run (xs ++ ys) t ≡ table_run ys (table_run xs t)
unfolding table_run
table_run-append [] ys t = refl
table_run-append (x ∷ xs) ys t = table_run-append xs ys (table_step x t)

-- The hops of a list of distinct faces, put one after the other.
abbrev put_hops : List (ℕ × ℕ) → List FibNextHop → List FibNextHop
put_hops [] hs = hs
put_hops ((face, cost) ∷ m) hs = put_hops m (update_next_hop face cost hs)

update_next_hop-put :
    (face cost : ℕ) (m : List (ℕ × ℕ))
    → update_next_hop face cost (map hop_of m) ≡ map hop_of (put face cost m)
unfolding update_next_hop put
update_next_hop-put face cost [] = refl
update_next_hop-put face cost ((j, w) ∷ m) = ground (arith, update_next_hop-put face cost m)

put_new : (k v : ℕ) (m : List (ℕ × ℕ)) → find k m ≡ none → put k v m ≡ m ++ (k, v) ∷ []
unfolding find put
put_new k v [] h = refl
put_new k v ((j, w) ∷ m) h = ground (arith, put_new k v m)

first_apart :
    (k v : ℕ) (m a : List (ℕ × ℕ))
    → (find k ((k, v) ∷ m) ≡ none) ⊎ (find k a ≡ none)
    → find k a ≡ none
unfolding find
first_apart k v m a (inl e) = ground arith
first_apart k v m a (inr e) = e

rest_apart :
    (j k v : ℕ) (m a : List (ℕ × ℕ))
    → DistinctKeys ((k, v) ∷ m)
    → find k a ≡ none
    → (find j ((k, v) ∷ m) ≡ none) ⊎ (find j a ≡ none)
    → (find j m ≡ none) ⊎ (find j (a ++ (k, v) ∷ []) ≡ none)
unfolding find
rest_apart j k v m a d old (inl e) = inl (ground arith)
rest_apart j k v m a d old (inr e) = elim (Bool-cases (k == j)) [
  | inl b ↦ inl (subst (λ x. find x m ≡ none) ((==_iff k j).0 b) (d.0))
  | inr b ↦ inr (ap (find j) (sym (put_new k v a old)) ∙ ground (arith, find-put j k v a))
]

put_hops-all :
    (m a : List (ℕ × ℕ))
    → DistinctKeys m
    → ((j : ℕ) → (find j m ≡ none) ⊎ (find j a ≡ none))
    → put_hops m (map hop_of a) ≡ map hop_of (a ++ m)
unfolding find
put_hops-all [] a d h = ap (map hop_of) (sym (append-nil a))
put_hops-all ((k, v) ∷ m) a d h =
    let old : find k a ≡ none = first_apart k v m a (h k) in
    ap (put_hops m) (update_next_hop-put k v a ∙ ap (map hop_of) (put_new k v a old))
    ∙ put_hops-all m (a ++ (k, v) ∷ []) (d.1) (λ j. rest_apart j k v m a d old (h j))
    ∙ ap (map hop_of) (append_assoc a ((k, v) ∷ []) m)

lower_cost-DistinctKeys :
    (r : Route) (o : Option ℕ) (m : List (ℕ × ℕ)) → DistinctKeys m → DistinctKeys (lower_cost r o m)
lower_cost-DistinctKeys r none m d = put-DistinctKeys (r.face_id) (r.route_cost) m d
lower_cost-DistinctKeys r (some c) m d =
    if_cases DistinctKeys (ltb (r.route_cost) c)
      (λ b. put-DistinctKeys (r.face_id) (r.route_cost) m d) (λ b. d)

pub min_cost_routes-DistinctKeys :
    (rs : RouteList) (m : List (ℕ × ℕ)) → DistinctKeys m → DistinctKeys (min_cost_routes rs m)
unfolding min_cost_routes
min_cost_routes-DistinctKeys [] m d = d
min_cost_routes-DistinctKeys (r ∷ rs) m d =
    min_cost_routes-DistinctKeys rs (lower_cost r (find (r.face_id) m) m)
      (lower_cost-DistinctKeys r (find (r.face_id) m) m d)

inserts-hops :
    (path q : Name) (m : List (ℕ × ℕ)) (t : Table)
    → (table_run (map (hop_op path) m) t q).nexthops
      ≡ (if name_eq path q then put_hops m ((t q).nexthops) else (t q).nexthops)
unfolding table_run table_step
inserts-hops path q [] t = ground arith
inserts-hops path q ((face, cost) ∷ m) t =
    ground (arith, inserts-hops path q m (table_step (insert_op path face cost) t))

cleared-hops :
    (b : Bool) (m : List (ℕ × ℕ)) (e : FibStrategyEntry)
    → DistinctKeys m
    → (if b
        then put_hops m ((if b then set_nexthops (λ hs. []) e else e).nexthops)
        else (if b then set_nexthops (λ hs. []) e else e).nexthops)
      ≡ (if b then map hop_of m else e.nexthops)
unfolding find
cleared-hops true m e d = put_hops-all m [] d (λ j. inr refl)
cleared-hops false m e d = refl

entry-hops :
    (path : Name) (a : ℕ) (bs : Name) (m : List (ℕ × ℕ)) (t : Table)
    → DistinctKeys m
    → (table_run (clear_op (entry_name path) ∷ map (hop_op path) m) t (a ∷ bs)).nexthops
      ≡ (if name_eq path (a ∷ bs) then map hop_of m else (t (a ∷ bs)).nexthops)
unfolding table_run table_step name_eq
entry-hops [] a bs m t d = inserts-hops [] (a ∷ bs) m t
entry-hops (k ∷ path) a bs m t d =
    inserts-hops (k ∷ path) (a ∷ bs) m (table_step (clear_op (some (k ∷ path))) t)
    ∙ cleared-hops (name_eq (k ∷ path) (a ∷ bs)) m (t (a ∷ bs)) d

fresh_or-in :
    (up : List RouteList) (ks : Name) (o : Option RibTree) (hs : List FibNextHop)
    → fresh_or (elim o [ none ↦ none | some m ↦ fresh_hops up m ks ]) hs ≡ fresh_in up ks o hs
fresh_or-in up ks none hs = refl
fresh_or-in up ks (some m) hs = refl

node-fresh :
    (up : List RouteList) (rs : RouteList) (cs : Children RouteList) (o : Option Name)
    (hs : List FibNextHop)
    → fresh_children (rs ∷ up) cs o (if is_here o then map hop_of (flattened_hops rs up) else hs)
      ≡ fresh_below up (node rs cs) o hs
unfolding fresh_hops
node-fresh up rs cs none hs = refl
node-fresh up rs cs (some []) hs = refl
node-fresh up rs cs (some (k ∷ ks)) hs = sym (fresh_or-in (rs ∷ up) ks (find_child k cs) hs)

child_here :
    (up : List RouteList) (ks : Name) (n : RibTree) (o : Option RibTree) (hs : List FibNextHop)
    → o ≡ none
    → fresh_in up ks o (fresh_or (fresh_hops up n ks) hs) ≡ fresh_or (fresh_hops up n ks) hs
child_here up ks n o hs h = ap (λ x. fresh_in up ks x (fresh_or (fresh_hops up n ks) hs)) h

child-fresh :
    (up : List RouteList) (j : ℕ) (n : RibTree) (cs : Children RouteList) (o : Option Name)
    (hs : List FibNextHop)
    → find_child j cs ≡ none
    → fresh_children up cs o (fresh_below up n (strip_key j o) hs)
      ≡ fresh_children up (child j n cs) o hs
unfolding find_child
child-fresh up j n cs none hs h = refl
child-fresh up j n cs (some []) hs h = refl
child-fresh up j n cs (some (k ∷ ks)) hs h = elim (Bool-cases (j == k)) [
  | inl b ↦
      ap (λ c. fresh_in up ks (find_child k cs) (fresh_below up n (if c then some ks else none) hs))
        b
      ∙ child_here up ks n (find_child k cs) hs
          (subst (λ x. find_child x cs ≡ none) ((==_iff j k).0 b) h)
      ∙ sym (ap (λ c. fresh_in up ks (if c then some n else find_child k cs) hs) b)
  | inr b ↦
      ap (λ c. fresh_in up ks (find_child k cs) (fresh_below up n (if c then some ks else none) hs))
        b
      ∙ sym (ap (λ c. fresh_in up ks (if c then some n else find_child k cs) hs) b)
]

fresh_children-none :
    (up : List RouteList) (o : Option Name) (hs : List FibNextHop)
    → fresh_children up no_children o hs ≡ hs
unfolding find_child
fresh_children-none up none hs = refl
fresh_children-none up (some []) hs = refl
fresh_children-none up (some (k ∷ ks)) hs = refl

flattened_hops-DistinctKeys :
    (rs : RouteList) (up : List RouteList) → DistinctKeys (flattened_hops rs up)
unfolding flattened_hops
flattened_hops-DistinctKeys [] up = tt
flattened_hops-DistinctKeys (r ∷ rs) up =
    min_cost_routes-DistinctKeys (all_routes (r ∷ rs) up) [] tt

mutual
  unfolding update_nexthops table_run

  pub update_nexthops-fresh :
      (path : Name) (up : List RouteList) (n : RibTree) (a : ℕ) (bs : Name) (t : Table)
      → IsTree n
      → (table_run (update_nexthops path up n) t (a ∷ bs)).nexthops
        ≡ fresh_below up n (strip path (a ∷ bs)) ((t (a ∷ bs)).nexthops)
  update_nexthops-fresh path up (node rs cs) a bs t i =
      let m = flattened_hops rs up in
      let ops = clear_op (entry_name path) ∷ map (hop_op path) m in
      let d : DistinctKeys m = flattened_hops-DistinctKeys rs up in
      ap (λ u. (u (a ∷ bs)).nexthops) (table_run-append ops (update_children path (rs ∷ up) cs) t)
      ∙ update_children-fresh path (rs ∷ up) cs a bs (table_run ops t) i
      ∙ ap (fresh_children (rs ∷ up) cs (strip path (a ∷ bs))) (
          entry-hops path a bs m t d
          ∙ ap (λ b. if b then map hop_of m else (t (a ∷ bs)).nexthops)
              (name_eq-strip path (a ∷ bs)))
      ∙ node-fresh up rs cs (strip path (a ∷ bs)) ((t (a ∷ bs)).nexthops)

  update_children-fresh :
      (path : Name) (up : List RouteList) (cs : Children RouteList) (a : ℕ) (bs : Name) (t : Table)
      → IsForest cs
      → (table_run (update_children path up cs) t (a ∷ bs)).nexthops
        ≡ fresh_children up cs (strip path (a ∷ bs)) ((t (a ∷ bs)).nexthops)
  update_children-fresh path up no_children a bs t i =
      sym (fresh_children-none up (strip path (a ∷ bs)) ((t (a ∷ bs)).nexthops))
  update_children-fresh path up (child j n cs) a bs t i =
      let ops = update_nexthops (path ++ j ∷ []) up n in
      let hs = (t (a ∷ bs)).nexthops in
      ap (λ u. (u (a ∷ bs)).nexthops) (table_run-append ops (update_children path up cs) t)
      ∙ update_children-fresh path up cs a bs (table_run ops t) (i.2)
      ∙ ap (fresh_children up cs (strip path (a ∷ bs))) (
          update_nexthops-fresh (path ++ j ∷ []) up n a bs t (i.1)
          ∙ ap (λ o. fresh_below up n o hs) (strip-snoc path (a ∷ bs) j))
      ∙ child-fresh up j n cs (strip path (a ∷ bs)) hs (i.0)

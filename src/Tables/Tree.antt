-- ===== src/Tables/Tree.antt =====
-- The name trees of the tables: a node has an entry and children by the key of a component. The
-- name and the depth of a node are its path from the root, and its parent the node before it.
use mars_icnp.Prelude.{
  ℕ, ◌≡◌, Bool, true, false, ◌&&◌, Option, none, some, List, [], ◌∷◌, ◌==◌, if◌then◌else◌,
}

-- Components are numbers, which stand for their type and value.
abbrev pub Name : Type 0
Name = List ℕ

mutual
  pub data Node (E : Type 0) : Type 0 where
    node : E → Children E → Node E

  pub data Children (E : Type 0) : Type 0 where
    no_children : Children E
    child : ℕ → Node E → Children E → Children E

module _ {E : Type 0} where
  abbrev pub entry_of : Node E → E
  entry_of (node e cs) = e

  abbrev pub children_of : Node E → Children E
  children_of (node e cs) = cs

  abbrev pub has_no_children : Children E → Bool
  has_no_children no_children = true
  has_no_children (child k n cs) = false

  unfoldable pub find_child : ℕ → Children E → Option (Node E)
  find_child k no_children = none
  find_child k (child j n cs) = if j == k then some n else find_child k cs

  -- A new child is the last one.
  unfoldable pub put_child : ℕ → Node E → Children E → Children E
  put_child k m no_children = child k m no_children
  put_child k m (child j n cs) = if j == k then child j m cs else child j n (put_child k m cs)

  unfoldable pub delete_child : ℕ → Children E → Children E
  delete_child k no_children = no_children
  delete_child k (child j n cs) = if j == k then cs else child j n (delete_child k cs)

  abbrev pub child_or : Node E → Option (Node E) → Node E
  child_or m none = m
  child_or m (some n) = n

  -- The entries from the longest prefix match up to the root; `up` are those above the node.
  unfoldable pub match_from : Node E → Name → List E → List E
  match_from n [] up = entry_of n ∷ up
  match_from n (k ∷ ks) up = elim (find_child k (children_of n)) [
    | none ↦ entry_of n ∷ up
    | some m ↦ match_from m ks (entry_of n ∷ up)
  ]

  -- The entry at exactly the name.
  unfoldable pub entry_at : Node E → Name → Option E
  entry_at n [] = some (entry_of n)
  entry_at n (k ∷ ks) = elim (find_child k (children_of n)) [ none ↦ none | some m ↦ entry_at m ks ]

  -- `fillTreeToPrefixEnc`, and then a change of the entry: missing nodes get the entry `e`.
  unfoldable pub fill_and : E → (E → E) → Name → Node E → Node E
  fill_and e f [] n = node (f (entry_of n)) (children_of n)
  fill_and e f (k ∷ ks) n = node (entry_of n) (
      put_child k (fill_and e f ks (child_or (node e no_children) (find_child k (children_of n))))
        (children_of n))

  abbrev pub with_child : Option (Node E) → Node E → (Node E → Node E) → Node E
  with_child none n f = n
  with_child (some m) n f = f m

  -- A change of the entry at exactly the name, if there is one.
  unfoldable pub change_at : (E → E) → Name → Node E → Node E
  change_at f [] n = node (f (entry_of n)) (children_of n)
  change_at f (k ∷ ks) n =
      with_child (find_child k (children_of n)) n
        (λ m. node (entry_of n) (put_child k (change_at f ks m) (children_of n)))

  abbrev pub is_bare : (E → Bool) → Node E → Bool
  is_bare bare (node e cs) = has_no_children cs && bare e

  -- The child takes the place of the one before, or is taken out when it carries nothing.
  unfoldable pub keep_or_prune : (E → Bool) → ℕ → Node E → Children E → Children E
  keep_or_prune bare k n cs = if is_bare bare n then delete_child k cs else put_child k n cs

  -- A change of the entry at exactly the name, and then `pruneIfEmpty`. In the FIB it compares the
  -- children of every ancestor with the entry that it began with; in the RIB it has unlinked the
  -- entry before it goes on to the parent. Only that entry is ever taken out.
  unfoldable pub change_and_prune : (E → Bool) → (E → E) → Name → Node E → Node E
  change_and_prune bare f [] n = node (f (entry_of n)) (children_of n)
  change_and_prune bare f (k ∷ []) n = with_child (find_child k (children_of n)) n (λ m.
      node (entry_of n)
        (keep_or_prune bare k (node (f (entry_of m)) (children_of m)) (children_of n)))
  change_and_prune bare f (k ∷ j ∷ ks) n =
      with_child (find_child k (children_of n)) n
        (λ m. node (entry_of n) (put_child k (change_and_prune bare f (j ∷ ks) m) (children_of n)))

-- The keys of the children of a node are distinct.
abbrev mutual
  pub IsTree : {E : Type 0} → Node E → Type 0
  IsTree (node e cs) = IsForest cs

  pub IsForest : {E : Type 0} → Children E → Type 0
  IsForest no_children = Unit {0}
  IsForest (child k n cs) = (find_child k cs ≡ none) × IsTree n × IsForest cs

-- Names are equal when their components are.
unfoldable pub name_eq : Name → Name → Bool
name_eq [] [] = true
name_eq [] (d ∷ t) = false
name_eq (c ∷ s) [] = false
name_eq (c ∷ s) (d ∷ t) = (c == d) && name_eq s t

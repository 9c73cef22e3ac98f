-- ===== src/Tables/Keys.antt =====
-- The children of a node keep distinct keys.
use mars_icnp.Prelude.{
  ℕ, ◌≡◌, refl, sym, ap, subst, inl, inr, Bool, true, false, Option, none, some, [], ◌∷◌, ◌==◌,
  if◌then◌else◌, if_cases, Option-cases, arith,
}
use mars_icnp.Tables.Tree.{
  Name, Node, node, Children, no_children, child, entry_of, children_of, find_child, put_child,
  delete_child, child_or, fill_and, change_at, with_child, IsTree, IsForest,
}
use mars_icnp.Tables.Refinement.{find_child-put}

module _ {E : Type 0} where
  pub find_child-delete :
      (j k : ℕ) (cs : Children E)
      → IsForest cs
      → find_child j (delete_child k cs) ≡ (if k == j then none else find_child j cs)
  unfolding find_child delete_child
  find_child-delete j k no_children i = ground arith
  find_child-delete j k (child h n cs) i = ground (arith, find_child-delete j k cs (i.2))

  either-IsTree :
      (b : Bool) (n m : Node E) (o : Option (Node E))
      → (if b then some n else o) ≡ some m
      → IsTree n
      → (o ≡ some m → IsTree m)
      → IsTree m
  either-IsTree true n m o h t r = subst IsTree (ap (child_or n) h) t
  either-IsTree false n m o h t r = r h

  pub find_child-IsTree :
      (k : ℕ) (m : Node E) (cs : Children E) → IsForest cs → find_child k cs ≡ some m → IsTree m
  unfolding find_child
  find_child-IsTree k m no_children i h = ground arith
  find_child-IsTree k m (child j n cs) i h =
      either-IsTree (j == k) n m (find_child k cs) h (i.1) (λ r. find_child-IsTree k m cs (i.2) r)

  absent-put :
      (j k : ℕ) (m : Node E) (cs : Children E)
      → (j == k) ≡ false
      → find_child j cs ≡ none
      → find_child j (put_child k m cs) ≡ none
  absent-put j k m cs b h = ground (arith, find_child-put j k m cs)

  absent-delete :
      (j k : ℕ) (cs : Children E)
      → IsForest cs
      → find_child j cs ≡ none
      → find_child j (delete_child k cs) ≡ none
  absent-delete j k cs i h = ground (arith, find_child-delete j k cs i)

  pub put_child-IsForest :
      (k : ℕ) (m : Node E) (cs : Children E) → IsTree m → IsForest cs → IsForest (put_child k m cs)
  unfolding put_child find_child
  put_child-IsForest k m no_children t i = (refl, t, tt)
  put_child-IsForest k m (child j n cs) t i =
      if_cases IsForest (j == k) (λ b. (i.0, t, i.2))
        (λ b. (absent-put j k m cs b (i.0), i.1, put_child-IsForest k m cs t (i.2)))

  pub delete_child-IsForest : (k : ℕ) (cs : Children E) → IsForest cs → IsForest (delete_child k cs)
  unfolding delete_child
  delete_child-IsForest k no_children i = tt
  delete_child-IsForest k (child j n cs) i =
      if_cases IsForest (j == k) (λ b. i.2)
        (λ b. (absent-delete j k cs (i.2) (i.0), i.1, delete_child-IsForest k cs (i.2)))

  pub children-IsForest : (n : Node E) → IsTree n → IsForest (children_of n)
  children-IsForest (node e cs) t = t

  child_or-IsTree :
      (e : E) (k : ℕ) (n : Node E)
      → IsTree n
      → IsTree (child_or (node e no_children) (find_child k (children_of n)))
  child_or-IsTree e k n t = elim (Option-cases (find_child k (children_of n))) [
    | inl h ↦ subst (λ o. IsTree (child_or (node e no_children) o)) (sym h) tt
    | inr (m, h) ↦
        subst (λ o. IsTree (child_or (node e no_children) o)) (sym h)
          (find_child-IsTree k m (children_of n) (children-IsForest n t) h)
  ]

  pub with_child-IsTree :
      (k : ℕ) (n : Node E) (g : Node E → Node E)
      → IsTree n
      → ((m : Node E) → IsTree m → IsTree (g m))
      → IsTree (with_child (find_child k (children_of n)) n g)
  with_child-IsTree k n g t h = elim (Option-cases (find_child k (children_of n))) [
    | inl a ↦ subst (λ o. IsTree (with_child o n g)) (sym a) t
    | inr (m, a) ↦
        subst (λ o. IsTree (with_child o n g)) (sym a)
          (h m (find_child-IsTree k m (children_of n) (children-IsForest n t) a))
  ]

  pub fill_and-IsTree :
      (e : E) (f : E → E) (name : Name) (n : Node E) → IsTree n → IsTree (fill_and e f name n)
  unfolding fill_and
  fill_and-IsTree e f [] n t = children-IsForest n t
  fill_and-IsTree e f (k ∷ ks) n t =
      put_child-IsForest k
        (fill_and e f ks (child_or (node e no_children) (find_child k (children_of n))))
        (children_of n)
        (fill_and-IsTree e f ks (child_or (node e no_children) (find_child k (children_of n)))
          (child_or-IsTree e k n t))
        (children-IsForest n t)

  pub change_at-IsTree :
      (f : E → E) (name : Name) (n : Node E) → IsTree n → IsTree (change_at f name n)
  unfolding change_at
  change_at-IsTree f [] n t = children-IsForest n t
  change_at-IsTree f (k ∷ ks) n t =
      with_child-IsTree k n
        (λ m. node (entry_of n) (put_child k (change_at f ks m) (children_of n))) t
        (λ m u.
          put_child-IsForest k (change_at f ks m) (children_of n) (change_at-IsTree f ks m u)
            (children-IsForest n t))

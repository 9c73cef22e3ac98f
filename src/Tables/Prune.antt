-- ===== src/Tables/Prune.antt =====
-- `pruneIfEmpty` changes no value of the tree.
use mars_icnp.Prelude.{
  ℕ, ◌≡◌, refl, sym, ap, subst, ◌∙◌, inl, inr, Bool, true, some, [], ◌∷◌, ◌==◌, if◌then◌else◌,
  if_cases, Option-cases, arith,
}
use mars_icnp.Tables.Tree.{
  Name, Node, is_bare, keep_or_prune, change_and_prune, node, no_children, child, entry_of,
  children_of, find_child, put_child, delete_child, with_child, name_eq, IsTree, IsForest,
}
use mars_icnp.Tables.Refinement.{
  value_at, value-new, value-put, value-some, changed-child, absent-child,
}
use mars_icnp.Tables.Keys.{
  find_child-delete, find_child-IsTree, put_child-IsForest, delete_child-IsForest,
  children-IsForest, with_child-IsTree,
}

module _ {E : Type 0} (bare : E → Bool) (z : E) (only : (x : E) → bare x ≡ true → x ≡ z) where
  nothing-value : (m : Node E) (js : Name) → is_bare bare m ≡ true → value_at z m js ≡ z
  nothing-value (node e no_children) js h =
      let i = only e h in
      subst (λ x. value_at z (node x no_children) js ≡ z) (sym i) (value-new z js)
  nothing-value (node e (child k n cs)) js h = ground arith

  value-delete :
      (n m : Node E) (k j : ℕ) (js : Name)
      → IsTree n
      → value_at z m js ≡ z
      → value_at z (node (entry_of n) (delete_child k (children_of n))) (j ∷ js)
        ≡ (if k == j then value_at z m js else value_at z n (j ∷ js))
  unfolding value_at
  value-delete n m k j js t h =
      ground (arith, find_child-delete j k (children_of n) (children-IsForest n t))

  value-prune :
      (n m : Node E) (k j : ℕ) (js : Name)
      → IsTree n
      → value_at z (node (entry_of n) (keep_or_prune bare k m (children_of n))) (j ∷ js)
        ≡ (if k == j then value_at z m js else value_at z n (j ∷ js))
  unfolding keep_or_prune
  value-prune n m k j js t =
      if_cases
        (λ cs.
          value_at z (node (entry_of n) cs) (j ∷ js)
          ≡ (if k == j then value_at z m js else value_at z n (j ∷ js)))
        (is_bare bare m) (λ b. value-delete n m k j js t (nothing-value m js b))
        (λ b. value-put z n k j m js)

  last-value :
      (f : E → E) (k : ℕ) (js : Name) (n m : Node E)
      → find_child k (children_of n) ≡ some m
      → value_at z (node (f (entry_of m)) (children_of m)) js
        ≡ (if name_eq [] js then f (value_at z n (k ∷ js)) else value_at z n (k ∷ js))
  unfolding name_eq value_at
  last-value f k [] n m a = ap f (sym (value-some z n m k [] a))
  last-value f k (j ∷ js) n m a = sym (value-some z n m k (j ∷ js) a)

  -- Changing the entry of a child, which is then kept or pruned.
  prune-last :
      (f : E → E) (k : ℕ) (p : Name) (n m : Node E)
      → IsTree n
      → find_child k (children_of n) ≡ some m
      → value_at z
          (node
            (entry_of n)
            (keep_or_prune bare k (node (f (entry_of m)) (children_of m)) (children_of n)))
          p
        ≡ (if name_eq (k ∷ []) p then f (value_at z n p) else value_at z n p)
  unfolding name_eq value_at
  prune-last f k p n m t a =
      let m' = node (f (entry_of m)) (children_of m) in
      changed-child z f k [] p n m' (keep_or_prune bare k m' (children_of n))
        (λ j js. value-prune n m' k j js t) (λ js. last-value f k js n m a)

  pub change_and_prune-value :
      (f : E → E) (name p : Name) (n : Node E)
      → f z ≡ z
      → IsTree n
      → value_at z (change_and_prune bare f name n) p
        ≡ (if name_eq name p then f (value_at z n p) else value_at z n p)
  unfolding change_and_prune name_eq value_at
  change_and_prune-value f [] [] n h t = refl
  change_and_prune-value f [] (j ∷ js) n h t = refl
  change_and_prune-value f (k ∷ []) p n h t =
      let g : Node E → Node E = λ m.
        node (entry_of n)
          (keep_or_prune bare k (node (f (entry_of m)) (children_of m)) (children_of n)) in
      elim (Option-cases (find_child k (children_of n))) [
        | inl a ↦ ap (λ o. value_at z (with_child o n g) p) a ∙ absent-child z f k [] p n h a
        | inr (m, a) ↦ ap (λ o. value_at z (with_child o n g) p) a ∙ prune-last f k p n m t a
      ]
  change_and_prune-value f (k ∷ j ∷ ks) p n h t =
      let g : Node E → Node E =
        λ m. node (entry_of n) (put_child k (change_and_prune bare f (j ∷ ks) m) (children_of n)) in
      elim (Option-cases (find_child k (children_of n))) [
        | inl a ↦ ap (λ o. value_at z (with_child o n g) p) a ∙ absent-child z f k (j ∷ ks) p n h a
        | inr (m, a) ↦
            ap (λ o. value_at z (with_child o n g) p) a
            ∙ changed-child z f k (j ∷ ks) p n (change_and_prune bare f (j ∷ ks) m)
                (put_child k (change_and_prune bare f (j ∷ ks) m) (children_of n))
                (λ i js. value-put z n k i (change_and_prune bare f (j ∷ ks) m) js)
                (λ js.
                  change_and_prune-value f (j ∷ ks) js m h
                    (find_child-IsTree k m (children_of n) (children-IsForest n t) a)
                  ∙ ap (λ v. if name_eq (j ∷ ks) js then f v else v)
                      (sym (value-some z n m k js a)))
      ]

  pub change_and_prune-IsTree :
      (f : E → E) (name : Name) (n : Node E) → IsTree n → IsTree (change_and_prune bare f name n)
  unfolding change_and_prune keep_or_prune
  change_and_prune-IsTree f [] n t = children-IsForest n t
  change_and_prune-IsTree f (k ∷ []) n t =
      with_child-IsTree k n
        (λ m.
          node (entry_of n)
            (keep_or_prune bare k (node (f (entry_of m)) (children_of m)) (children_of n)))
        t
        (λ m u.
          if_cases IsForest (is_bare bare (node (f (entry_of m)) (children_of m)))
            (λ b. delete_child-IsForest k (children_of n) (children-IsForest n t))
            (λ b.
              put_child-IsForest k (node (f (entry_of m)) (children_of m)) (children_of n)
                (children-IsForest m u) (children-IsForest n t)))
  change_and_prune-IsTree f (k ∷ j ∷ ks) n t =
      with_child-IsTree k n
        (λ m. node (entry_of n) (put_child k (change_and_prune bare f (j ∷ ks) m) (children_of n)))
        t
        (λ m u.
          put_child-IsForest k (change_and_prune bare f (j ∷ ks) m) (children_of n)
            (change_and_prune-IsTree f (j ∷ ks) m u) (children-IsForest n t))

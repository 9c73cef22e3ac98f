-- ===== src/Tables/Refinement.antt =====
-- The tree implements a table from names to next hops and strategies, with lookup by the longest prefix.
use mars_icnp.Prelude.{
  ℕ, ◌≡◌, refl, sym, ap, subst, ◌∙◌, inl, inr, Bool, true, false, ◌&&◌, Option, none, some, [], ◌∷◌,
  ◌==◌, if◌then◌else◌, Option-cases, if_same, ==_iff, arith,
}
use mars_icnp.Tables.Tree.{
  Name, Node, node, Children, no_children, child, entry_of, children_of, find_child, put_child,
  child_or, fill_and, change_at, with_child, name_eq,
}

under_test {ℓ} :
    {A : Type ℓ} (b c : Bool) (x u y : A)
    → (b ≡ true → x ≡ (if c then u else y))
    → (if b then x else y) ≡ (if b && c then u else y)
under_test true c x u y h = h refl
under_test false c x u y h = refl

and_first : (b c : Bool) → (b && c) ≡ true → b ≡ true
and_first true c h = refl
and_first false c h = h

module _ {E : Type 0} where
  pub find_child-put :
      (j k : ℕ) (m : Node E) (cs : Children E)
      → find_child j (put_child k m cs) ≡ (if k == j then some m else find_child j cs)
  unfolding find_child put_child
  find_child-put j k m no_children = ground arith
  find_child-put j k m (child i n cs) = ground (arith, find_child-put j k m cs)

  abbrev or_new : E → Option E → E
  or_new e none = e
  or_new e (some x) = x

  -- An entry that is not there counts as the entry `e` of a new node.
  unfoldable pub value_at : E → Node E → Name → E
  value_at e n [] = entry_of n
  value_at e n (k ∷ ks) = elim (find_child k (children_of n)) [
    | none ↦ e
    | some m ↦ value_at e m ks
  ]

  pub value-none :
      (e : E) (n : Node E) (k : ℕ) (ks : Name)
      → find_child k (children_of n) ≡ none
      → value_at e n (k ∷ ks) ≡ e
  unfolding value_at
  value-none e n k ks h = rw (h, value_at) refl

  pub value-some :
      (e : E) (n m : Node E) (k : ℕ) (ks : Name)
      → find_child k (children_of n) ≡ some m
      → value_at e n (k ∷ ks) ≡ value_at e m ks
  unfolding value_at
  value-some e n m k ks h = rw (h, value_at) refl

  pub value-new : (e : E) (p : Name) → value_at e (node e no_children) p ≡ e
  unfolding value_at find_child
  value-new e [] = refl
  value-new e (k ∷ ks) = refl

  value-of :
      (e : E) (p : Name) (o : Option (Node E))
      → value_at e (child_or (node e no_children) o) p
        ≡ elim o [ none ↦ e | some m ↦ value_at e m p ]
  value-of e p none = value-new e p
  value-of e p (some m) = refl

  value-child_or :
      (e : E) (n : Node E) (k : ℕ) (p : Name)
      → value_at e (child_or (node e no_children) (find_child k (children_of n))) p
        ≡ value_at e n (k ∷ p)
  unfolding value_at
  value-child_or e n k p = value-of e p (find_child k (children_of n))

  pub value-entry :
      (e : E) (n : Node E) (cs : Children E)
      → value_at e (node (entry_of n) cs) [] ≡ value_at e n []
  unfolding value_at
  value-entry e n cs = refl

  pub value-put :
      (e : E) (n : Node E) (k j : ℕ) (m : Node E) (js : Name)
      → value_at e (node (entry_of n) (put_child k m (children_of n))) (j ∷ js)
        ≡ (if k == j then value_at e m js else value_at e n (j ∷ js))
  unfolding value_at
  value-put e n k j m js = ground (arith, find_child-put j k m (children_of n))

  -- What a changed child `m'` below the key `k` makes of the values below a node.
  pub changed-child :
      (e : E) (f : E → E) (k : ℕ) (ks p : Name) (n m' : Node E) (cs : Children E)
      → ((j : ℕ) (js : Name)
          → value_at e (node (entry_of n) cs) (j ∷ js)
            ≡ (if k == j then value_at e m' js else value_at e n (j ∷ js)))
      → ((js : Name)
          → value_at e m' js
            ≡ (if name_eq ks js then f (value_at e n (k ∷ js)) else value_at e n (k ∷ js)))
      → value_at e (node (entry_of n) cs) p
        ≡ (if name_eq (k ∷ ks) p then f (value_at e n p) else value_at e n p)
  unfolding name_eq
  changed-child e f k ks [] n m' cs c h = value-entry e n cs
  changed-child e f k ks (j ∷ js) n m' cs c h =
      c j js
      ∙ under_test (k == j) (name_eq ks js) (value_at e m' js) (f (value_at e n (j ∷ js)))
          (value_at e n (j ∷ js))
          (λ b.
            h js
            ∙ ap (λ i. if name_eq ks js then f (value_at e n (i ∷ js)) else value_at e n (i ∷ js))
                ((==_iff k j).0 b))

  pub absent-child :
      (e : E) (f : E → E) (k : ℕ) (ks p : Name) (n : Node E)
      → f e ≡ e
      → find_child k (children_of n) ≡ none
      → value_at e n p ≡ (if name_eq (k ∷ ks) p then f (value_at e n p) else value_at e n p)
  unfolding name_eq
  absent-child e f k ks [] n h a = refl
  absent-child e f k ks (j ∷ js) n h a =
      if_same ((k == j) && name_eq ks js) (value_at e n (j ∷ js)) (f (value_at e n (j ∷ js))) (λ b.
        let i = (==_iff k j).0 (and_first (k == j) (name_eq ks js) b) in
        let v : value_at e n (j ∷ js) ≡ e =
          subst (λ x. value_at e n (x ∷ js) ≡ e) i (value-none e n k js a) in
        v ∙ sym h ∙ ap f (sym v))

  pub fill_and-value :
      (e : E) (f : E → E) (name p : Name) (n : Node E)
      → value_at e (fill_and e f name n) p
        ≡ (if name_eq name p then f (value_at e n p) else value_at e n p)
  unfolding fill_and name_eq value_at
  fill_and-value e f [] [] n = refl
  fill_and-value e f [] (j ∷ js) n = refl
  fill_and-value e f (k ∷ ks) p n =
      let below = child_or (node e no_children) (find_child k (children_of n)) in
      changed-child e f k ks p n (fill_and e f ks below)
        (put_child k (fill_and e f ks below) (children_of n))
        (λ j js. value-put e n k j (fill_and e f ks below) js)
        (λ js.
          fill_and-value e f ks js below
          ∙ ap (λ v. if name_eq ks js then f v else v) (value-child_or e n k js))

  change_some :
      (e : E) (f : E → E) (k : ℕ) (ks p : Name) (n m : Node E)
      → find_child k (children_of n) ≡ some m
      → ((js : Name)
          → value_at e (change_at f ks m) js
            ≡ (if name_eq ks js then f (value_at e m js) else value_at e m js))
      → value_at e (node (entry_of n) (put_child k (change_at f ks m) (children_of n))) p
        ≡ (if name_eq (k ∷ ks) p then f (value_at e n p) else value_at e n p)
  change_some e f k ks p n m a h =
      changed-child e f k ks p n (change_at f ks m) (put_child k (change_at f ks m) (children_of n))
        (λ j js. value-put e n k j (change_at f ks m) js)
        (λ js. h js ∙ ap (λ v. if name_eq ks js then f v else v) (sym (value-some e n m k js a)))

  pub change_at-value :
      (e : E) (f : E → E) (name p : Name) (n : Node E)
      → f e ≡ e
      → value_at e (change_at f name n) p
        ≡ (if name_eq name p then f (value_at e n p) else value_at e n p)
  unfolding change_at name_eq value_at
  change_at-value e f [] [] n h = refl
  change_at-value e f [] (j ∷ js) n h = refl
  change_at-value e f (k ∷ ks) p n h =
      let g : Node E → Node E =
        λ m. node (entry_of n) (put_child k (change_at f ks m) (children_of n)) in
      elim (Option-cases (find_child k (children_of n))) [
        | inl a ↦ ap (λ o. value_at e (with_child o n g) p) a ∙ absent-child e f k ks p n h a
        | inr (m, a) ↦
            ap (λ o. value_at e (with_child o n g) p) a
            ∙ change_some e f k ks p n m a (λ js. change_at-value e f ks js m h)
      ]

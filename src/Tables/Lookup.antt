-- ===== src/Tables/Lookup.antt =====
-- `FindNextHopsEnc` and `FindStrategyEnc` answer with the longest prefix that has something.
use mars_icnp.Prelude.{
  ℕ, ◌≡◌, refl, sym, ap, ap₂, ◌∙◌, inl, inr, Option, none, some, List, [], ◌∷◌, if◌then◌else◌,
  is_empty, Option-cases,
}
use mars_icnp.Tables.Tree.{Name, entry_of, children_of, find_child, match_from}
use mars_icnp.Tables.Strategy.{
  FibNextHop, FibStrategyEntry, new_fib_entry, FibTree, first_hops, find_next_hops, first_strategy,
  or_strategy, find_strategy,
}
use mars_icnp.Tables.Refinement.{value_at, value-none, value-some}

abbrev pub or_hops : List FibNextHop → List FibNextHop → List FibNextHop
or_hops hs gs = if is_empty hs then gs else hs

-- Of the prefixes of a name, the longest one that has next hops in a table of entries.
unfoldable pub longest_hops : (Name → FibStrategyEntry) → Name → List FibNextHop
longest_hops table [] = (table []).nexthops
longest_hops table (k ∷ ks) = or_hops (longest_hops (λ p. table (k ∷ p)) ks) (table []).nexthops

-- Of the prefixes of a name, the longest one that has a strategy.
unfoldable pub longest_strategy : (Name → FibStrategyEntry) → Name → Option Name
longest_strategy table [] = (table []).strategy
longest_strategy table (k ∷ ks) =
    or_strategy (longest_strategy (λ p. table (k ∷ p)) ks) (table []).strategy

value-root : (n : FibTree) → value_at new_fib_entry n [] ≡ entry_of n
unfolding value_at
value-root n = refl

-- What the two lookups share: `get` reads an entry, `or` prefers the first of two answers.
module _ {R : Type 0} (get : FibStrategyEntry → R) (or : R → R → R)
    (first : List FibStrategyEntry → R) (longest : (Name → FibStrategyEntry) → Name → R)
    (or-new : (r : R) → or (get new_fib_entry) r ≡ r)
    (or-assoc : (x y z : R) → or x (or y z) ≡ or (or x y) z)
    (first-cons : (e : FibStrategyEntry) (es : List FibStrategyEntry)
      → first (e ∷ es) ≡ or (get e) (first es))
    (longest-nil : (t : Name → FibStrategyEntry) → longest t [] ≡ get (t []))
    (longest-cons : (t : Name → FibStrategyEntry) (k : ℕ) (ks : Name)
      → longest t (k ∷ ks) ≡ or (longest (λ p. t (k ∷ p)) ks) (get (t []))) where
  longest-same :
      (s t : Name → FibStrategyEntry) (name : Name)
      → ((p : Name) → s p ≡ t p)
      → longest s name ≡ longest t name
  longest-same s t [] h = longest-nil s ∙ ap get (h []) ∙ sym (longest-nil t)
  longest-same s t (k ∷ ks) h =
      longest-cons s k ks
      ∙ ap₂ or (longest-same (λ p. s (k ∷ p)) (λ p. t (k ∷ p)) ks (λ p. h (k ∷ p))) (ap get (h []))
      ∙ sym (longest-cons t k ks)

  longest-new : (name : Name) → longest (λ p. new_fib_entry) name ≡ get new_fib_entry
  longest-new [] = longest-nil (λ p. new_fib_entry)
  longest-new (k ∷ ks) =
      longest-cons (λ p. new_fib_entry) k ks
      ∙ ap (λ r. or r (get new_fib_entry)) (longest-new ks)
      ∙ or-new (get new_fib_entry)

  first-match :
      (n : FibTree) (name : Name) (up : List FibStrategyEntry)
      → first (match_from n name up) ≡ or (longest (value_at new_fib_entry n) name) (first up)
  unfolding match_from
  first-match n [] up =
      first-cons (entry_of n) up
      ∙ ap (λ r. or r (first up))
          (ap get (sym (value-root n)) ∙ sym (longest-nil (value_at new_fib_entry n)))
  first-match n (k ∷ ks) up = elim (Option-cases (find_child k (children_of n))) [
    | inl a ↦
        rw (a, match_from) (first-cons (entry_of n) up)
        ∙ ap (λ r. or r (first up))
            (sym (or-new (get (entry_of n)))
              ∙ ap₂ or
                  (sym (
                    longest-same (λ p. value_at new_fib_entry n (k ∷ p)) (λ p. new_fib_entry) ks
                      (λ p. value-none new_fib_entry n k p a)
                    ∙ longest-new ks))
                  (ap get (sym (value-root n)))
              ∙ sym (longest-cons (value_at new_fib_entry n) k ks))
    | inr (m, a) ↦
        rw (a, match_from) (first-match m ks (entry_of n ∷ up))
        ∙ ap (λ r. or (longest (value_at new_fib_entry m) ks) r) (first-cons (entry_of n) up)
        ∙ or-assoc (longest (value_at new_fib_entry m) ks) (get (entry_of n)) (first up)
        ∙ ap (λ r. or r (first up))
            (ap₂ or
                (sym (
                  longest-same (λ p. value_at new_fib_entry n (k ∷ p)) (value_at new_fib_entry m) ks
                    (λ p. value-some new_fib_entry n m k p a)))
                (ap get (sym (value-root n)))
              ∙ sym (longest-cons (value_at new_fib_entry n) k ks))
  ]

or_hops_assoc :
    (xs ys zs : List FibNextHop) → or_hops xs (or_hops ys zs) ≡ or_hops (or_hops xs ys) zs
or_hops_assoc [] ys zs = refl
or_hops_assoc (x ∷ xs) ys zs = refl

or_hops-nil : (xs : List FibNextHop) → or_hops xs [] ≡ xs
or_hops-nil [] = refl
or_hops-nil (x ∷ xs) = refl

or_strategy_assoc :
    (x y z : Option Name) → or_strategy x (or_strategy y z) ≡ or_strategy (or_strategy x y) z
or_strategy_assoc none y z = refl
or_strategy_assoc (some s) y z = refl

or_strategy-none : (x : Option Name) → or_strategy x none ≡ x
or_strategy-none none = refl
or_strategy-none (some s) = refl

first_hops-cons :
    (e : FibStrategyEntry) (es : List FibStrategyEntry)
    → first_hops (e ∷ es) ≡ or_hops e.nexthops (first_hops es)
unfolding first_hops
first_hops-cons e es = refl

first_strategy-cons :
    (e : FibStrategyEntry) (es : List FibStrategyEntry)
    → first_strategy (e ∷ es) ≡ or_strategy e.strategy (first_strategy es)
unfolding first_strategy
first_strategy-cons e es = refl

longest_hops-cons :
    (t : Name → FibStrategyEntry) (k : ℕ) (ks : Name)
    → longest_hops t (k ∷ ks) ≡ or_hops (longest_hops (λ p. t (k ∷ p)) ks) (t []).nexthops
unfolding longest_hops
longest_hops-cons t k ks = refl

longest_hops-nil : (t : Name → FibStrategyEntry) → longest_hops t [] ≡ (t []).nexthops
unfolding longest_hops
longest_hops-nil t = refl

longest_strategy-cons :
    (t : Name → FibStrategyEntry) (k : ℕ) (ks : Name)
    → longest_strategy t (k ∷ ks)
      ≡ or_strategy (longest_strategy (λ p. t (k ∷ p)) ks) (t []).strategy
unfolding longest_strategy
longest_strategy-cons t k ks = refl

longest_strategy-nil : (t : Name → FibStrategyEntry) → longest_strategy t [] ≡ (t []).strategy
unfolding longest_strategy
longest_strategy-nil t = refl

pub longest_hops-same :
    (s t : Name → FibStrategyEntry) (name : Name)
    → ((p : Name) → s p ≡ t p)
    → longest_hops s name ≡ longest_hops t name
longest_hops-same =
    longest-same (λ e. e.nexthops) or_hops first_hops longest_hops (λ r. refl) or_hops_assoc
      first_hops-cons longest_hops-nil longest_hops-cons

pub longest_strategy-same :
    (s t : Name → FibStrategyEntry) (name : Name)
    → ((p : Name) → s p ≡ t p)
    → longest_strategy s name ≡ longest_strategy t name
longest_strategy-same =
    longest-same (λ e. e.strategy) or_strategy first_strategy longest_strategy (λ r. refl)
      or_strategy_assoc first_strategy-cons longest_strategy-nil longest_strategy-cons

pub find_next_hops-longest :
    (t : FibTree) (name : Name)
    → find_next_hops t name ≡ longest_hops (value_at new_fib_entry t) name
unfolding find_next_hops first_hops
find_next_hops-longest t name =
    first-match (λ e. e.nexthops) or_hops first_hops longest_hops (λ r. refl) or_hops_assoc
      first_hops-cons longest_hops-nil longest_hops-cons t name []
    ∙ or_hops-nil (longest_hops (value_at new_fib_entry t) name)

pub find_strategy-longest :
    (t : FibTree) (name : Name)
    → find_strategy t name ≡ longest_strategy (value_at new_fib_entry t) name
unfolding find_strategy first_strategy
find_strategy-longest t name =
    first-match (λ e. e.strategy) or_strategy first_strategy longest_strategy (λ r. refl)
      or_strategy_assoc first_strategy-cons longest_strategy-nil longest_strategy-cons t name []
    ∙ or_strategy-none (longest_strategy (value_at new_fib_entry t) name)

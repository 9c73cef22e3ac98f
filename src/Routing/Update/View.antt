-- ===== src/Routing/Update/View.antt =====
-- The base as its users see it: a cost below infinity or infinity, for each destination and
-- neighbour. Each operation on entries, in terms of that view.
use mars_icnp.Prelude.{
  ℕ, ◌≡◌, ◌⊎◌, inl, inr, true, false, Option, none, some, List, [], ◌∷◌, ltb, ◌==◌, if◌then◌else◌,
  arith, Option-cases,
}
use mars_icnp.Prelude.Maps.{
  find, put, remove, DistinctKeys, find-put, find-remove, put-DistinctKeys,
}
use mars_icnp.Routing.Rib.{cost_infinity, RibEntry, refresh, set_cost, remove_from, reset_in}
use mars_icnp.Routing.Rib.Selection.{chosen, best-first}

abbrev pub clip : ℕ → ℕ
clip c = if ltb c cost_infinity then c else cost_infinity

abbrev pub clip_found : Option ℕ → ℕ
clip_found none = cost_infinity
clip_found (some c) = clip c

module _ {N : Type 0} where
  abbrev pub entry_via : RibEntry N → ℕ → ℕ
  entry_via e h = clip_found (find h e.costs)

  abbrev pub found_via : Option (RibEntry N) → ℕ → ℕ
  found_via none h = cost_infinity
  found_via (some e) h = entry_via e h

  -- The cost to the destination `d` by the neighbour `h`, both as hashes.
  abbrev pub via : List (ℕ × RibEntry N) → ℕ → ℕ → ℕ
  via es d h = found_via (find d es) h

  -- The four cached values are those of the costs.
  abbrev pub IsFresh : RibEntry N → Type 0
  IsFresh e =
      (e.lowest1 ≡ (chosen e.costs).low1)
      × (e.next_hop1 ≡ (chosen e.costs).hop1)
      × (e.lowest2 ≡ (chosen e.costs).low2)
      × (e.next_hop2 ≡ (chosen e.costs).hop2)

  -- The costs are a map; an entry that is not marked dirty is fresh.
  abbrev pub IsEntry : RibEntry N → Type 0
  IsEntry e = DistinctKeys e.costs × ((e.dirty ≡ true) ⊎ IsFresh e)

  pub refresh-IsFresh :
      (e : RibEntry N)
      → IsFresh (refresh e).1
        × ((refresh e).1.costs ≡ e.costs)
        × ((refresh e).1.dirty ≡ false)
        × ((refresh e).1.name ≡ e.name)
  unfolding refresh
  refresh-IsFresh e = ground arith

  pub set_cost-via :
      (hop cost h : ℕ) (e : RibEntry N)
      → entry_via (set_cost hop cost e).1 h ≡ (if hop == h then clip cost else entry_via e h)
  unfolding set_cost refresh
  set_cost-via hop cost h e = ground (arith, find-put h hop cost e.costs)

  pub set_cost-IsEntry :
      (hop cost : ℕ) (e : RibEntry N)
      → DistinctKeys e.costs
      → (find hop e.costs ≡ none) ⊎ IsEntry e
      → IsEntry (set_cost hop cost e).1 × ((set_cost hop cost e).1.name ≡ e.name)
  unfolding set_cost
  set_cost-IsEntry hop cost e d i = ground (
    arith,
    put-DistinctKeys hop cost e.costs d,
    refresh-IsFresh (record e { costs = put hop cost e.costs }),
  )

  -- An entry with no cost below infinity says so.
  pub fresh-unreachable :
      (e : RibEntry N) (h : ℕ)
      → IsFresh e
      → e.lowest1 ≡ cost_infinity
      → entry_via e h ≡ cost_infinity
  fresh-unreachable e h f l = elim (Option-cases (find h e.costs)) [
    | inl n ↦ ground arith
    | inr (c, s) ↦ let b = best-first e.costs h c s in ground arith
  ]

  pub via-reset :
      (hop d h : ℕ) (es : List (ℕ × RibEntry N))
      → via (reset_in hop es) d h ≡ (if hop == h then cost_infinity else via es d h)
  unfolding reset_in find
  via-reset hop d h [] = ground arith
  via-reset hop d h ((k, e) ∷ es) =
      ground (arith, via-reset hop d h es, find-put h hop cost_infinity e.costs)

  pub via-remove :
      (hop d h : ℕ) (es : List (ℕ × RibEntry N))
      → via (remove_from hop es).1 d h ≡ (if hop == h then cost_infinity else via es d h)
  unfolding remove_from find
  via-remove hop d h [] = ground arith
  via-remove hop d h ((k, e) ∷ es) =
      let e' = record e { costs = remove hop e.costs } in
      ground (arith, via-remove hop d h es, find-remove h hop e.costs, refresh-IsFresh e')

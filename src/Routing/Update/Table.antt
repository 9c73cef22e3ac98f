-- ===== src/Routing/Update/Table.antt =====
-- What the entries of the base satisfy at all times, and that each operation keeps it.
use mars_icnp.Prelude.{
  ℕ, ◌≡◌, ◌⊎◌, inl, inr, refl, ◌∙◌, ap, Option, none, some, List, [], ◌∷◌, ◌==◌, if◌then◌else◌,
  arith,
}
use mars_icnp.Prelude.Maps.{
  find, put, remove, DistinctKeys, find-put, put-DistinctKeys, remove-DistinctKeys,
}
use mars_icnp.Routing.Names.{NameOps}
use mars_icnp.Routing.Rib.{
  cost_infinity, RibEntry, Rib, set_cost, found_or_new, remove_from, reset_in, set_route,
}
use mars_icnp.Routing.Update.View.{
  clip, entry_via, found_via, via, IsEntry, refresh-IsFresh, set_cost-via, set_cost-IsEntry,
}

module _ {N : Type 0} (names : NameOps N) where
  open names use {hash}

  -- Each entry stands once, under the hash of its name.
  abbrev pub IsTable : List (ℕ × RibEntry N) → Type 0
  IsTable [] = Unit {0}
  IsTable ((k, e) ∷ es) = (hash e.name ≡ k) × IsEntry e × (find k es ≡ none) × IsTable es

  pub find-IsEntry :
      (k : ℕ) (e : RibEntry N) (es : List (ℕ × RibEntry N))
      → IsTable es
      → find k es ≡ some e
      → IsEntry e × (hash e.name ≡ k)
  unfolding find
  find-IsEntry k e [] t f = ground arith
  find-IsEntry k e ((j, d) ∷ es) t f = ground (arith, find-IsEntry k e es)

  pub put-IsTable :
      (k : ℕ) (e : RibEntry N) (es : List (ℕ × RibEntry N))
      → hash e.name ≡ k
      → IsEntry e
      → IsTable es
      → IsTable (put k e es)
  unfolding put find
  put-IsTable k e [] n i t = ground arith
  put-IsTable k e ((j, d) ∷ es) n i t = ground (arith, put-IsTable k e es n i, find-put j k e es)

  find-reset :
      (k hop : ℕ) (es : List (ℕ × RibEntry N)) → find k es ≡ none → find k (reset_in hop es) ≡ none
  unfolding find reset_in
  find-reset k hop [] e = refl
  find-reset k hop ((j, d) ∷ es) e = ground (arith, find-reset k hop es)

  pub reset-IsTable :
      (hop : ℕ) (es : List (ℕ × RibEntry N)) → IsTable es → IsTable (reset_in hop es)
  unfolding reset_in
  reset-IsTable hop [] t = tt
  reset-IsTable hop ((j, d) ∷ es) t = ground (
    arith,
    reset-IsTable hop es t.3,
    find-reset j hop es,
    put-DistinctKeys hop cost_infinity d.costs,
  )

  find-remove_from :
      (k hop : ℕ) (es : List (ℕ × RibEntry N))
      → find k es ≡ none
      → find k (remove_from hop es).1 ≡ none
  unfolding find remove_from
  find-remove_from k hop [] e = refl
  find-remove_from k hop ((j, d) ∷ es) e = ground (arith, find-remove_from k hop es)

  pub remove_from-IsTable :
      (hop : ℕ) (es : List (ℕ × RibEntry N)) → IsTable es → IsTable (remove_from hop es).1
  unfolding remove_from
  remove_from-IsTable hop [] t = tt
  remove_from-IsTable hop ((j, d) ∷ es) t = ground (
    arith,
    remove_from-IsTable hop es t.3,
    find-remove_from j hop es,
    remove-DistinctKeys hop d.costs,
    refresh-IsFresh (record d { costs = remove hop d.costs }),
  )

  abbrev pub entry_or_new : N → List (ℕ × RibEntry N) → RibEntry N
  entry_or_new dest es = found_or_new dest (find (hash dest) es)

  pub set_route-entries :
      (dest next_hop : N) (cost : ℕ) (r : Rib N)
      → (set_route names dest next_hop cost r).1.entries
        ≡ put (hash dest) (set_cost (hash next_hop) cost (entry_or_new dest r.entries)).1 r.entries
  unfolding set_route
  set_route-entries dest next_hop cost r = refl

  found_or_new-IsEntry :
      (dest : N) (hop : ℕ) (o : Option (RibEntry N))
      → ((e : RibEntry N) → o ≡ some e → IsEntry e × (hash e.name ≡ hash dest))
      → let e = found_or_new dest o in
        DistinctKeys e.costs × ((find hop e.costs ≡ none) ⊎ IsEntry e) × (hash e.name ≡ hash dest)
  unfolding find
  found_or_new-IsEntry dest hop none f = (tt, inl refl, refl)
  found_or_new-IsEntry dest hop (some e) f = let i = f e refl in (i.0.0, inr i.0, i.1)

  pub set_route-IsTable :
      (dest next_hop : N) (cost : ℕ) (r : Rib N)
      → IsTable r.entries
      → IsTable (set_route names dest next_hop cost r).1.entries
  set_route-IsTable dest next_hop cost r t =
      let e = entry_or_new dest r.entries in
      let found = λ (e : RibEntry N). find-IsEntry (hash dest) e r.entries t in
      let p = found_or_new-IsEntry dest (hash next_hop) (find (hash dest) r.entries) found in
      let q = set_cost-IsEntry (hash next_hop) cost e p.0 p.1 in
      rw (set_route-entries dest next_hop cost r)
        (put-IsTable (hash dest) _ r.entries (ap hash q.1 ∙ p.2) q.0 t)

  found_or_new-via :
      (dest : N) (h : ℕ) (o : Option (RibEntry N))
      → entry_via (found_or_new dest o) h ≡ found_via o h
  unfolding find
  found_or_new-via dest h none = ground arith
  found_or_new-via dest h (some e) = refl

  -- The view after `Set`.
  pub set_route-via :
      (dest next_hop : N) (cost d h : ℕ) (r : Rib N)
      → via (set_route names dest next_hop cost r).1.entries d h ≡ (
          if hash dest == d
          then (if hash next_hop == h then clip cost else via r.entries d h)
          else via r.entries d h)
  set_route-via dest next_hop cost d h r =
      let e = entry_or_new dest r.entries in
      let e' = (set_cost (hash next_hop) cost e).1 in
      rw (set_route-entries dest next_hop cost r) (
        ground (
          arith,
          find-put d (hash dest) e' r.entries,
          set_cost-via (hash next_hop) cost h e,
          found_or_new-via dest h (find (hash dest) r.entries),
        ))

-- ===== src/Routing/Update/Reach.antt =====
-- `Has` answers by the cached lowest cost, and agrees with the costs by the neighbours.
use mars_icnp.Prelude.{ℕ, ◌<◌, ◌≡◌, inl, inr, true, some, List, [], ◌∷◌, arith, Option-cases}
use mars_icnp.Prelude.Maps.{find}
use mars_icnp.Routing.Names.{NameOps}
use mars_icnp.Routing.Rib.{cost_infinity, RibEntry, Rib, has}
use mars_icnp.Routing.Rib.Selection.{chosen, best-found}
use mars_icnp.Routing.Update.View.{via, IsFresh}
use mars_icnp.Routing.Update.Table.{IsTable, find-IsEntry}
use mars_icnp.Routing.Update.Prune.{AllReachable}

module _ {N : Type 0} (names : NameOps N) where
  open names use {hash}

  find-reachable :
      (k : ℕ) (e : RibEntry N) (es : List (ℕ × RibEntry N))
      → AllReachable names es
      → find k es ≡ some e
      → IsFresh e × (e.lowest1 < cost_infinity)
  unfolding find
  find-reachable k e [] t f = ground arith
  find-reachable k e ((j, d) ∷ es) t f = ground (arith, find-reachable k e es)

  -- In a table as an update leaves it, a destination with a cost below infinity by some neighbour
  -- is reachable.
  pub has-reachable :
      (dest : N) (h : ℕ) (r : Rib N)
      → IsTable names r.entries
      → AllReachable names r.entries
      → via r.entries (hash dest) h < cost_infinity
      → has names dest r ≡ true
  unfolding has
  has-reachable dest h r t a l = elim (Option-cases (find (hash dest) r.entries)) [
    | inl n ↦ ground arith
    | inr (e, s) ↦ let p = find-reachable (hash dest) e r.entries a s in ground arith
  ]

  -- In such a table, a reachable destination has a neighbour with a cost below infinity.
  pub has-hop :
      (dest : N) (r : Rib N)
      → IsTable names r.entries
      → AllReachable names r.entries
      → has names dest r ≡ true
      → (h : ℕ) × (via r.entries (hash dest) h < cost_infinity)
  unfolding has
  has-hop dest r t a q = elim (Option-cases (find (hash dest) r.entries)) [
    | inl n ↦ absurd (ground arith)
    | inr (e, s) ↦
        let p = find-reachable (hash dest) e r.entries a s in
        let i = find-IsEntry names (hash dest) e r.entries t s in
        let f = best-found e.costs i.0.0 (ground arith) in ((chosen e.costs).hop1, ground arith)
  ]

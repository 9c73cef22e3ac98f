-- ===== src/Routing/Update/Poison.antt =====
-- Poison reverse: what a neighbour takes from a router's advertisement never leads back to itself.
use mars_icnp.Prelude.{
  ℕ, ◌+◌, ◌≤◌, ◌<◌, ◌≡◌, ◌≢◌, inl, inr, some, ltb, ◌==◌, if◌then◌else◌, arith, Bool-cases,
}
use mars_icnp.Prelude.Maps.{find, DistinctKeys}
use mars_icnp.Routing.Names.{NameOps}
use mars_icnp.Routing.Rib.{cost_infinity, RibEntry, Rib}
use mars_icnp.Routing.Rib.Selection.{
  chosen, best-first, best-second, best-found, best-found_second, best-bounds,
}
use mars_icnp.Routing.Update.{advert_entry, usable_cost}
use mars_icnp.Routing.Update.View.{IsFresh}

module _ {N : Type 0} (names : NameOps N) where
  open names use {hash, equal}

  -- The cost that the neighbour `b` takes, in terms of the cached values.
  usable-reverse :
      (b n : N) (r : Rib N) (e : RibEntry N)
      → e.lowest1 ≤ cost_infinity
      → find e.next_hop1 r.neighbors ≡ some n
      → equal n b ≡ (e.next_hop1 == hash b)
      → usable_cost names b (advert_entry r e) ≡ (
          if e.next_hop1 == hash b
          then (if ltb e.lowest2 cost_infinity then e.lowest2 + 1 else cost_infinity)
          else e.lowest1 + 1)
  unfolding usable_cost
  usable-reverse b n r e l f q = ground arith

  -- An entry that is up to date is advertised to the neighbour `b`; the sender knows the name of
  -- its next hop, which is the name of `b` exactly if its hash is. Then `b` takes a cost that is at
  -- most one more than the sender's cost by any neighbour but `b`.
  pub poison-least :
      (b n : N) (r : Rib N) (e : RibEntry N) (h c : ℕ)
      → IsFresh e
      → find e.next_hop1 r.neighbors ≡ some n
      → equal n b ≡ (e.next_hop1 == hash b)
      → h ≢ hash b
      → find h e.costs ≡ some c
      → usable_cost names b (advert_entry r e) ≤ c + 1
  poison-least b n r e h c f k q ne s =
      let w = best-bounds e.costs in
      ground (
        arith,
        usable-reverse b n r e (ground arith) k q,
        best-first e.costs h c s,
        best-second e.costs h c s,
      )

  -- Under the same conditions, a cost below infinity that `b` takes is one more than the sender's
  -- cost by some neighbour that is not `b`.
  pub poison-route :
      (b n : N) (r : Rib N) (e : RibEntry N)
      → IsFresh e
      → DistinctKeys e.costs
      → find e.next_hop1 r.neighbors ≡ some n
      → equal n b ≡ (e.next_hop1 == hash b)
      → usable_cost names b (advert_entry r e) < cost_infinity
      → (x : ℕ × ℕ) × (x.0 ≢ hash b)
        × (find x.0 e.costs ≡ some x.1)
        × (usable_cost names b (advert_entry r e) ≡ x.1 + 1)
  poison-route b n r e f d k q l =
      let w = best-bounds e.costs in
      let u = usable-reverse b n r e (ground arith) k q in
      elim (Bool-cases (e.next_hop1 == hash b)) [
        | inl y ↦
            let s = best-found_second e.costs d (ground arith) in
            (((chosen e.costs).hop2, (chosen e.costs).low2), ground arith, s.0, ground arith)
        | inr y ↦
            let s = best-found e.costs d (ground arith) in
            (((chosen e.costs).hop1, (chosen e.costs).low1), ground arith, s, ground arith)
      ]

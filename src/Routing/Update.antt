-- ===== src/Routing/Update.antt =====
-- The update of the routing information base: `Advert` of mars/dv/table/rib.go, `updateRib` and the
-- part of `checkDeadNeighbors` for one dead neighbour of mars/dv/dv/table_algo.go. The result says
-- whether `postUpdateRib` is started.

pub mod View
pub mod Table
pub mod Prune
pub mod Outcome
pub mod Poison
pub mod Reach
use mars_icnp.Prelude.{
  ℕ, ◌+◌, ◌%◌, ◌^◌, Bool, true, false, ◌||◌, Option, none, some, List, [], ◌∷◌, map, leb, ltb, ◌==◌,
  if◌then◌else◌,
}
use mars_icnp.Prelude.Maps.{find}
use mars_icnp.Routing.Names.{NameOps}
use mars_icnp.Routing.Rib.{
  cost_infinity, RibEntry, Rib, dirty_reset_next_hop, set_route, remove_next_hop, prune,
}

-- mars/dv/tlv/definitions.go, `AdvEntry`; the costs are 64-bit. The name of a next hop is missing if the
-- sender does not know the neighbour.
pub record AdvEntry (N : Type 0) : Type 0 where
  pub destination : N
  pub next_hop : Option N
  pub cost : ℕ
  pub other_cost : ℕ

pub record NeighborState (N : Type 0) : Type 0 where
  pub name : N
  pub advert : Option (List (AdvEntry N))

module _ {N : Type 0} where
  abbrev pub advert_entry : Rib N → RibEntry N → AdvEntry N
  advert_entry r e = record {
    destination = e.name;
    next_hop = find e.next_hop1 r.neighbors;
    cost = e.lowest1;
    other_cost = e.lowest2;
  }

  unfoldable pub advert_of : Rib N → List (AdvEntry N)
  unfolding find
  advert_of r = map (λ (x : ℕ × RibEntry N). advert_entry r x.1) r.entries

module _ {N : Type 0} (names : NameOps N) (router_name : N) where
  open names use {hash, equal}

  -- The cost that `updateRib` takes from an entry, poison reverse included.
  unfoldable pub usable_cost : AdvEntry N → ℕ
  usable_cost a =
      let reverse : Bool = elim a.next_hop [ none ↦ false | some n ↦ equal n router_name ] in
      if reverse
      then (if ltb a.other_cost cost_infinity then (a.other_cost + 1) % 2 ^ 64 else cost_infinity)
      else (a.cost + 1) % 2 ^ 64

  -- The loop over the advertisement.
  unfoldable pub apply_advert : N → List (AdvEntry N) → Rib N → Bool × Rib N
  unfolding usable_cost set_route
  apply_advert neighbor [] r = (false, r)
  apply_advert neighbor (a ∷ ads) r =
      let c = usable_cost a in
      let (changed, r') =
        if leb cost_infinity c then (false, r) else set_route names a.destination neighbor c r in
      let (dirty, r'') = apply_advert neighbor ads r' in (dirty || changed, r'')

  unfoldable pub update_with : N → List (AdvEntry N) → Rib N → Bool × Rib N
  unfolding dirty_reset_next_hop apply_advert prune
  update_with neighbor ads r =
      let (dirty, r') = apply_advert neighbor ads (dirty_reset_next_hop names neighbor r) in
      let (pruned, r'') = prune names r' in (pruned || dirty, r'')

  unfoldable pub update_rib : NeighborState N → Rib N → Bool × Rib N
  unfolding update_with
  update_rib ns r = elim ns.advert [ none ↦ (false, r) | some ads ↦ update_with ns.name ads r ]

  -- The changes to the base of the body of `checkDeadNeighbors`, for a neighbour that is dead.
  unfoldable pub remove_dead_neighbor : N → Rib N → Bool × Rib N
  unfolding remove_next_hop prune
  remove_dead_neighbor neighbor r =
      let (removed, r') = remove_next_hop names neighbor r in
      let (pruned, r'') = prune names r' in (pruned || removed, r'')

-- ===== src/Multipath/Hops.antt =====
-- Next hops grouped by cost: `hopSnapshot`, `snapshotNexthops`, `groupHopSnapshotsByCost` and
-- `flattenDtTierFaces` of mars/fw/fw/multipath.go. `sort.Slice` on the distinct costs is an insertion
-- sort here, and the map from a cost to its hops an association list.
pub mod Grouping
pub mod Flatten
use mars_icnp.Prelude.{
  ℕ, suc, ◌≡◌, Bool, true, false, Option, none, some, List, [], ◌∷◌, ◌++◌, map, leb, ◌==◌,
  if◌then◌else◌,
}
use mars_icnp.Prelude.Sets.{mem, insert}

pub record HopSnapshot : Type 0 where
  pub nexthop : ℕ
  pub cost : ℕ

abbrev pub Tier : Type 0
Tier = List HopSnapshot

-- Whether a face is a next hop of the tier.
abbrev pub tier_has : ℕ → Tier → Bool
tier_has f [] = false
tier_has f (h ∷ t) = if h.nexthop == f then true else tier_has f t

-- The entries of the FIB are pointers; a nil one is skipped.
unfoldable pub snapshot_nexthops : List (Option HopSnapshot) → Tier
snapshot_nexthops [] = []
snapshot_nexthops (none ∷ nhs) = snapshot_nexthops nhs
snapshot_nexthops (some nh ∷ nhs) = nh ∷ snapshot_nexthops nhs

-- The map `costToFaces`; a missing cost reads as nil.
abbrev pub CostMap : Type 0
CostMap = List (ℕ × Tier)

unfoldable pub hops_at : ℕ → CostMap → Tier
hops_at c [] = []
hops_at c ((d, t) ∷ m) = if d == c then t else hops_at c m

unfoldable pub add_hop : HopSnapshot → CostMap → CostMap
add_hop h [] = (h.cost, h ∷ []) ∷ []
add_hop h ((d, t) ∷ m) = if d == h.cost then (d, t ++ h ∷ []) ∷ m else (d, t) ∷ add_hop h m

unfoldable pub has_cost : ℕ → CostMap → Bool
has_cost c [] = false
has_cost c ((d, t) ∷ m) = if d == c then true else has_cost c m

-- The first loop: the hops of each cost, and the costs in the order of their first hop.
unfoldable pub collect_hops : Tier → CostMap → List ℕ → CostMap × List ℕ
unfolding has_cost add_hop
collect_hops [] m costs = (m, costs)
collect_hops (h ∷ hops) m costs =
    collect_hops hops (add_hop h m) (if has_cost h.cost m then costs else costs ++ h.cost ∷ [])

unfoldable pub insert_sorted : ℕ → List ℕ → List ℕ
insert_sorted c [] = c ∷ []
insert_sorted c (d ∷ ds) = if leb c d then c ∷ d ∷ ds else d ∷ insert_sorted c ds

unfoldable pub sort_ascending : List ℕ → List ℕ
unfolding insert_sorted
sort_ascending [] = []
sort_ascending (c ∷ cs) = insert_sorted c (sort_ascending cs)

-- The tiers by ascending cost, and their costs.
unfoldable pub group_hop_snapshots_by_cost : Tier → List Tier × List ℕ
unfolding collect_hops sort_ascending hops_at
group_hop_snapshots_by_cost hops =
    let (m, costs) = collect_hops hops [] [] in
    let sorted = sort_ascending costs in (map (λ c. hops_at c m) sorted, sorted)

-- The faces of one tier not seen before, in order, after those in `faces`.
unfoldable pub flatten_tier : Tier → List ℕ → List ℕ
unfolding mem
flatten_tier [] faces = faces
flatten_tier (h ∷ hops) faces =
    flatten_tier hops (if mem h.nexthop faces then faces else faces ++ h.nexthop ∷ [])

unfoldable pub flatten_tiers : List Tier → List ℕ → List ℕ
unfolding flatten_tier
flatten_tiers [] faces = faces
flatten_tiers (t ∷ ts) faces = flatten_tiers ts (flatten_tier t faces)

-- `seen` and `faces` of the source hold the same faces.
unfoldable pub flatten_dt_tier_faces : List Tier → List ℕ
unfolding flatten_tiers
flatten_dt_tier_faces tiers = flatten_tiers tiers []

-- ===== src/Multipath/Discovery.antt =====
-- The tiers under probe: `refreshPathDiscoverySnapshot`, `TierGrouping`, `StartPathDiscovery`,
-- `ProbeTier` and `ProbeNextTier` of mars/fw/fw/multipath.go.
use mars_icnp.Prelude.{
  ℕ, suc, ◌-◌, ◌*◌, ◌%◌, ◌^◌, Bool, not, ◌&&◌, ◌||◌, Option, List, [], ◌∷◌, ◌++◌, map, leb, ◌==◌,
  keep, length, get_or, is_empty, if◌then◌else◌,
}
use mars_icnp.Prelude.Sets.{mem, insert, delete}
use mars_icnp.Prelude.Text.{Str, codes, trim_prefix, has_prefix}
use mars_icnp.Multipath.Hops.{Tier, HopSnapshot, snapshot_nexthops, group_hop_snapshots_by_cost}
use mars_icnp.Multipath.State.{PathDiscoveryInfo, Strategy, NodeConfig, with_info}
use mars_icnp.Multipath.Convergence.{
  remove_face_from_probed_upstreams, delete_hops, local_node_converged,
}

unfoldable pub faces_of : Tier → List ℕ
faces_of [] = []
faces_of (h ∷ t) = h.nexthop ∷ faces_of t

-- The loop over `ValidUpstreams`: what the latest FIB view no longer has is dropped everywhere.
unfoldable pub drop_vanished : List ℕ → List ℕ → PathDiscoveryInfo → PathDiscoveryInfo
unfolding mem delete remove_face_from_probed_upstreams
drop_vanished latest [] i = i
drop_vanished latest (f ∷ fs) i = drop_vanished latest fs (
    if mem f latest then i else record i {
      valid_upstreams = delete f i.valid_upstreams;
      converged_upstream_tier = delete f i.converged_upstream_tier;
      converged_upstream_node = delete f i.converged_upstream_node;
      frozen_faces = delete f i.frozen_faces;
      frozen_recover_faces = delete f i.frozen_recover_faces;
      probed_upstreams = remove_face_from_probed_upstreams f i.probed_upstreams;
    })

-- The probed faces that are in the latest view, still valid, and not kept already (`seen`).
unfoldable pub filter_probed : List ℕ → List ℕ → List ℕ → List ℕ → List ℕ
unfolding mem
filter_probed latest valid seen [] = []
filter_probed latest valid seen (f ∷ fs) =
    if not (mem f latest) || (not (mem f valid) || mem f seen)
    then filter_probed latest valid seen fs
    else f ∷ filter_probed latest valid (f ∷ seen) fs

abbrev pub clamp_tier : ℕ → ℕ → ℕ
clamp_tier current len = if len == 0 then 0 else if leb len current then len - 1 else current

-- The tiers of the latest view, cut down to the valid faces.
unfoldable pub rebuild_tiers : Tier → PathDiscoveryInfo → PathDiscoveryInfo
unfolding group_hop_snapshots_by_cost filter_probed faces_of keep
rebuild_tiers latest i =
    let (tiers, costs) = group_hop_snapshots_by_cost latest in
    let filtered = map (keep (λ h. mem h.nexthop i.valid_upstreams)) tiers in
    let probed = filter_probed (faces_of latest) i.valid_upstreams [] i.probed_upstreams in
    record i {
      tier_list = filtered;
      wait_list = filtered;
      tier_cost_list = costs;
      probed_upstreams = probed;
      probed_scheduler_index =
          if is_empty probed || leb (length probed) i.probed_scheduler_index
          then 0
          else i.probed_scheduler_index;
      current_tier = clamp_tier i.current_tier (length filtered);
    }

unfoldable pub refresh_path_discovery_snapshot :
    List (Option HopSnapshot) → PathDiscoveryInfo → PathDiscoveryInfo
unfolding snapshot_nexthops drop_vanished rebuild_tiers faces_of
refresh_path_discovery_snapshot nexthops i =
    let latest = snapshot_nexthops nexthops in
    if is_empty latest
    then i
    else rebuild_tiers latest (drop_vanished (faces_of latest) i.valid_upstreams i)

unfoldable pub tier_grouping : Tier → PathDiscoveryInfo → PathDiscoveryInfo
unfolding group_hop_snapshots_by_cost
tier_grouping nexthops i =
    let (tiers, costs) = group_hop_snapshots_by_cost nexthops in
    record i { tier_list = tiers; tier_cost_list = costs; wait_list = tiers; current_tier = 0 }

unfoldable pub insert_hops : Tier → List ℕ → List ℕ
unfolding insert
insert_hops [] s = s
insert_hops (h ∷ t) s = insert_hops t (insert h.nexthop s)

unfoldable pub insert_tiers : List Tier → List ℕ → List ℕ
unfolding insert_hops
insert_tiers [] s = s
insert_tiers (t ∷ ts) s = insert_tiers ts (insert_hops t s)

-- The loop from the highest tier down: the tiers at or above the threshold are cleared ...
unfoldable pub prune_wait : ℕ → List ℕ → List Tier → List Tier
prune_wait threshold [] ts = ts
prune_wait threshold (c ∷ cs) [] = []
prune_wait threshold (c ∷ cs) (t ∷ ts) =
    (if leb threshold c then [] else t) ∷ prune_wait threshold cs ts

-- ... and their faces deleted from a set.
unfoldable pub prune_faces : ℕ → List ℕ → List Tier → List ℕ → List ℕ
unfolding delete_hops
prune_faces threshold [] ts s = s
prune_faces threshold (c ∷ cs) [] s = s
prune_faces threshold (c ∷ cs) (t ∷ ts) s =
    let s' = prune_faces threshold cs ts s in if leb threshold c then delete_hops t s' else s'

-- Step 3 of `StartPathDiscovery`; the first tier is never pruned. Costs are 64-bit.
unfoldable pub prune_costly : List ℕ → List Tier → PathDiscoveryInfo → PathDiscoveryInfo
unfolding prune_wait prune_faces
prune_costly [] ts i = i
prune_costly (c ∷ cs) [] i = i
prune_costly (c ∷ cs) (t ∷ ts) i =
    let threshold = c * 2 % 2 ^ 64 in
    record i {
      wait_list = t ∷ prune_wait threshold cs ts;
      valid_upstreams = prune_faces threshold cs ts i.valid_upstreams;
      converged_upstream_node = prune_faces threshold cs ts i.converged_upstream_node;
    }

-- The loop of `ProbeTier` over the hops of the tier.
unfoldable pub probe_hops : Tier → PathDiscoveryInfo → PathDiscoveryInfo
unfolding mem insert
probe_hops [] i = i
probe_hops (h ∷ t) i = probe_hops t (record i {
  probed_upstreams =
      if mem h.nexthop i.probed_upstreams
      then i.probed_upstreams
      else i.probed_upstreams ++ h.nexthop ∷ [];
  converged_upstream_tier = insert h.nexthop i.converged_upstream_tier;
})

-- Whether this node is the producer's forwarder for the prefix.
unfoldable pub is_designated : NodeConfig → Str → Bool
unfolding has_prefix trim_prefix
is_designated cfg prefix =
    has_prefix (trim_prefix prefix (codes "/")) (trim_prefix cfg.node_name (codes "/"))

unfoldable pub probe_tier : NodeConfig → ℕ → ℕ → Strategy → Strategy
unfolding probe_hops is_designated local_node_converged
probe_tier cfg now tier_index s =
    if leb (length s.info.wait_list) tier_index
    then s
    else let s' = with_info (probe_hops (get_or s.info.wait_list tier_index []) s.info) s in
      if not s'.info.is_node_converged && is_designated cfg s'.info.prefix
      then local_node_converged cfg now s'
      else s'

unfoldable pub probe_next_tier : NodeConfig → ℕ → Strategy → Strategy
unfolding probe_tier
probe_next_tier cfg now s =
    let next = suc s.info.current_tier in
    probe_tier cfg now next (with_info (record s.info { current_tier = next }) s)

-- Steps 1 to 3 of `StartPathDiscovery`.
unfoldable pub initial_faces : PathDiscoveryInfo → PathDiscoveryInfo
unfolding insert_tiers prune_costly
initial_faces i = prune_costly i.tier_cost_list i.wait_list (record i {
  valid_upstreams = insert_tiers i.tier_list [];
  converged_upstream_node = insert_tiers i.tier_list [];
  current_tier = 0;
})

unfoldable pub start_path_discovery : NodeConfig → ℕ → Strategy → Strategy
unfolding initial_faces probe_tier
start_path_discovery cfg now s =
    let s' = probe_tier cfg now 0 (with_info (initial_faces s.info) s) in
    with_info (record s'.info { probed_scheduler_index = 0 }) s'

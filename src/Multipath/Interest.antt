-- ===== src/Multipath/Interest.antt =====
-- `handlePathDiscoveryInterest` of mars/fw/fw/multipath.go, stage by stage. The clock is read once for
-- a handler.
pub mod RoundRobin
use mars_icnp.Prelude.{
  ℕ, ◌+◌, ◌-◌, ◌%◌, Bool, true, false, not, ◌&&◌, Option, none, some, List, [], ◌∷◌, leb, ltb,
  length, get_or, is_empty, if◌then◌else◌,
}
use mars_icnp.Prelude.Int.{ℤ, ltb_ℤ, eq_ℤ}
use mars_icnp.Prelude.Sets.{mem, delete}
use mars_icnp.Prelude.Text.{Str, codes, has_prefix, trim_prefix, atoi}
use mars_icnp.Multipath.Hops.{HopSnapshot, Tier, tier_has, snapshot_nexthops}
use mars_icnp.Multipath.State.{
  PathDiscoveryInfo, Strategy, NodeConfig, no_route, send_interest, send_nack, emit, with_info,
}
use mars_icnp.Multipath.Convergence.{exclude_face, is_current_tier_all_invalid, skip_tier}
use mars_icnp.Multipath.Discovery.{
  refresh_path_discovery_snapshot, tier_grouping, start_path_discovery, probe_next_tier,
  insert_hops,
}

-- A producer's forwarder serves the prefixes that begin with its name, a consumer's the Interests
-- of the nodes that do; any other node serves none.
unfoldable pub is_relevant : NodeConfig → Str → Str → Bool
unfolding has_prefix trim_prefix
is_relevant cfg prefix src =
    let own = trim_prefix cfg.node_name (codes "/") in
    if has_prefix cfg.node_name (codes "/pro")
    then has_prefix (trim_prefix prefix (codes "/")) own
    else if has_prefix cfg.node_name (codes "/con")
    then has_prefix (trim_prefix src (codes "/")) own
    else false

abbrev pub refuse : ℕ → Strategy → Strategy
refuse in_face s = emit (send_nack in_face in_face no_route) s

-- The node becomes invalid for the prefix, and says so.
abbrev pub invalidate : ℕ → Strategy → Strategy
invalidate in_face s = refuse in_face (with_info (record s.info { is_invalid_node = true }) s)

-- The faces whose removal waits for the end of the freeze.
unfoldable pub exclude_faces : List ℕ → PathDiscoveryInfo → PathDiscoveryInfo
unfolding exclude_face
exclude_faces [] i = i
exclude_faces (f ∷ fs) i = exclude_faces fs (exclude_face f i)

unfoldable pub thaw : PathDiscoveryInfo → PathDiscoveryInfo
unfolding exclude_faces
thaw i = record (exclude_faces i.frozen_recover_faces (record i { is_pd_frozen = false })) {
  frozen_recover_faces = [];
}

-- What follows the send: the freeze ends once every frozen face has been probed.
unfoldable pub after_probe : ℕ → PathDiscoveryInfo → PathDiscoveryInfo
unfolding thaw mem delete
after_probe out_face i =
    if i.is_pd_frozen && mem out_face i.frozen_faces
    then (let i' = record i { frozen_faces = delete out_face i.frozen_faces } in
        if is_empty i'.frozen_faces then thaw i' else i')
    else i

abbrev pub scheduler_index : PathDiscoveryInfo → ℕ
scheduler_index i =
    if leb (length i.probed_upstreams) i.probed_scheduler_index then 0 else i.probed_scheduler_index

-- The last stage: the Interest goes to the probed faces in turn.
unfoldable pub forward_probe : ℕ → Strategy → Strategy
unfolding after_probe
forward_probe in_face s =
    let i = s.info in
    let idx = scheduler_index i in
    let out_face = get_or i.probed_upstreams idx 0 in
    if is_empty i.probed_upstreams
    then s
    else with_info
        (after_probe out_face
          (record i { probed_scheduler_index = (idx + 1) % length i.probed_upstreams }))
        (emit (send_interest out_face in_face) s)

-- The end of the stage before convergence.
unfoldable pub check_valid : NodeConfig → ℕ → ℕ → Strategy → Strategy
unfolding is_current_tier_all_invalid skip_tier forward_probe
check_valid cfg now in_face s =
    let s' = if is_current_tier_all_invalid s.info then skip_tier cfg now s else s in
    if is_empty s'.info.valid_upstreams then invalidate in_face s' else forward_probe in_face s'

-- The first tier of the wait list that holds the face.
unfoldable pub find_tier : ℕ → List Tier → Option Tier
find_tier f [] = none
find_tier f (t ∷ ts) = if tier_has f t then some t else find_tier f ts

unfoldable pub freeze : Tier → PathDiscoveryInfo → PathDiscoveryInfo
unfolding insert_hops
freeze t i = if i.is_pd_frozen then i else record i {
  is_pd_frozen = true;
  frozen_faces = insert_hops t i.frozen_faces;
  frozen_recover_faces = insert_hops t i.frozen_recover_faces;
}

-- An Interest from a probed face freezes its tier; one from another face excludes that face.
unfoldable pub note_ingress : NodeConfig → ℕ → ℕ → Strategy → Strategy
unfolding mem find_tier freeze exclude_face check_valid
note_ingress cfg now in_face s =
    if mem in_face s.info.probed_upstreams
    then elim (find_tier in_face s.info.wait_list) [
      | none ↦ s
      | some t ↦ check_valid cfg now in_face (with_info (freeze t s.info) s)
    ]
    else check_valid cfg now in_face (with_info (exclude_face in_face s.info) s)

-- The stage of a node that has not converged: a newer probe index starts the next tier.
unfoldable pub advance_probe :
    NodeConfig → ℕ → ℤ → ℕ → List (Option HopSnapshot) → Strategy → Strategy
unfolding refresh_path_discovery_snapshot probe_next_tier note_ingress
advance_probe cfg now probe_idx in_face nexthops s =
    if ltb_ℤ s.info.probe_index probe_idx
    then (let s' = with_info (refresh_path_discovery_snapshot nexthops s.info) s in
        if leb (length s'.info.wait_list) (s'.info.current_tier + 1)
        then s'
        else note_ingress cfg now in_face
            (probe_next_tier cfg now (with_info (record s'.info { probe_index = probe_idx }) s')))
    else if eq_ℤ probe_idx s.info.probe_index
    then note_ingress cfg now in_face s
    else s

unfoldable pub initialize : NodeConfig → ℕ → ℤ → List (Option HopSnapshot) → Strategy → Strategy
unfolding tier_grouping start_path_discovery snapshot_nexthops
initialize cfg now probe_idx nexthops s =
    if s.info.is_initialized
    then s
    else start_path_discovery cfg now (
        with_info
          (tier_grouping (snapshot_nexthops nexthops)
            (record s.info { is_initialized = true; probe_index = probe_idx }))
          s)

unfoldable pub probe_interest :
    NodeConfig → ℕ → ℤ → ℕ → List (Option HopSnapshot) → Strategy → Strategy
unfolding initialize advance_probe forward_probe
probe_interest cfg now probe_idx in_face nexthops s =
    let s' = initialize cfg now probe_idx nexthops s in
    if s'.info.is_node_converged
    then forward_probe in_face s'
    else advance_probe cfg now probe_idx in_face nexthops s'

-- The handler once the name is parsed.
unfoldable pub discovery_interest :
    NodeConfig → ℕ → Str → Str → ℤ → ℕ → List (Option HopSnapshot) → Strategy → Strategy
unfolding is_relevant probe_interest
discovery_interest cfg now prefix src probe_idx in_face nexthops s =
    if not (is_relevant cfg prefix src)
    then invalidate in_face s
    else if s.info.is_invalid_node
    then refuse in_face s
    else probe_interest cfg now probe_idx in_face nexthops s

-- A name is the list of its components, rendered by `String()`.
unfoldable pub handle_path_discovery_interest :
    NodeConfig → ℕ → List Str → ℕ → List (Option HopSnapshot) → Strategy → Strategy
unfolding atoi discovery_interest
handle_path_discovery_interest cfg now name in_face nexthops s =
    if ltb (length name) 2 then s else elim (atoi (get_or name (length name - 2) [])) [
      | none ↦ s
      | some idx ↦
          discovery_interest cfg now (get_or name 0 []) (get_or name 1 []) idx in_face nexthops s
    ]

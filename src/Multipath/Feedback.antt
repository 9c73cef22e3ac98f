-- ===== src/Multipath/Feedback.antt =====
-- What comes back from upstream: `forwardNackDefault`, `handlePathDiscoveryNack`,
-- `handleTransmissionNack`, `handlePathDiscoveryData` and `AfterReceiveLoopedInterest` of
-- mars/fw/fw/multipath.go. The in-records of a PIT entry are the list of their faces, in the order in
-- which the map is walked.
pub mod Exclusion
use mars_icnp.Prelude.{
  ℕ, Bool, true, false, not, ◌&&◌, ◌||◌, List, [], ◌∷◌, leb, ltb, ◌==◌, length, get_or, is_empty,
  if◌then◌else◌,
}
use mars_icnp.Prelude.Sets.{mem, delete}
use mars_icnp.Prelude.Text.{Str, codes, has_prefix, str_eq}
use mars_icnp.Multipath.State.{
  PathDiscoveryInfo, Strategy, NodeConfig, NackReason, reason_none, no_route, other, send_nack,
  send_data, send_discovery, emit, with_info,
}
use mars_icnp.Multipath.Convergence.{
  exclude_face, remove_face_from_probed_upstreams, is_current_tier_all_invalid,
  are_higher_tiers_empty, skip_tier, local_node_converged,
}

unfoldable pub forward_nack_default : List ℕ → ℕ → NackReason → Strategy → Strategy
forward_nack_default [] in_face reason s = s
forward_nack_default (f ∷ fs) in_face reason s =
    forward_nack_default fs in_face reason
      (if f == in_face then s else emit (send_nack f in_face reason) s)

-- The part of the Nack handler that changes the prefix.
unfoldable pub nack_info : NodeConfig → ℕ → ℕ → Strategy → Strategy
unfolding exclude_face is_current_tier_all_invalid skip_tier
nack_info cfg now in_face s =
    let s' = if s.info.is_pd_frozen then s else with_info (exclude_face in_face s.info) s in
    if is_current_tier_all_invalid s'.info then skip_tier cfg now s' else s'

unfoldable pub no_route_nack : NodeConfig → ℕ → List ℕ → ℕ → Strategy → Strategy
unfolding nack_info forward_nack_default
no_route_nack cfg now in_records in_face s =
    if s.info.is_invalid_node
    then forward_nack_default in_records in_face no_route s
    else let s' = nack_info cfg now in_face s in
      if is_empty s'.info.valid_upstreams
      then forward_nack_default in_records in_face no_route
          (with_info (record s'.info { is_invalid_node = true }) s')
      else forward_nack_default in_records in_face reason_none s'

unfoldable pub handle_path_discovery_nack :
    NodeConfig → ℕ → List ℕ → ℕ → NackReason → Strategy → Strategy
unfolding no_route_nack forward_nack_default
handle_path_discovery_nack cfg now in_records in_face no_route s =
    no_route_nack cfg now in_records in_face s
handle_path_discovery_nack cfg now in_records in_face reason_none s =
    forward_nack_default in_records in_face reason_none s
handle_path_discovery_nack cfg now in_records in_face (other n) s = s

-- A face that has no route leaves the active faces, and the index stays in range.
unfoldable pub drop_active : ℕ → PathDiscoveryInfo → PathDiscoveryInfo
unfolding mem remove_face_from_probed_upstreams
drop_active face i =
    let faces = remove_face_from_probed_upstreams face i.active_faces in
    if mem face i.active_faces
    then record i {
      active_faces = faces;
      active_face_index = if leb (length faces) i.active_face_index then 0 else i.active_face_index;
    }
    else i

unfoldable pub handle_transmission_nack : List ℕ → ℕ → NackReason → Strategy → Strategy
unfolding drop_active forward_nack_default
handle_transmission_nack in_records in_face no_route s =
    forward_nack_default in_records in_face no_route (with_info (drop_active in_face s.info) s)
handle_transmission_nack in_records in_face reason_none s =
    forward_nack_default in_records in_face reason_none s
handle_transmission_nack in_records in_face (other n) s =
    forward_nack_default in_records in_face (other n) s

-- The loop over the in-records that sends the packet as it came.
unfoldable pub send_all : List ℕ → ℕ → Strategy → Strategy
send_all [] in_face s = s
send_all (f ∷ fs) in_face s = send_all fs in_face (emit (send_data f in_face) s)

unfoldable pub send_discovery_all : List ℕ → ℕ → Bool → Bool → Strategy → Strategy
send_discovery_all [] in_face tier node s = s
send_discovery_all (f ∷ fs) in_face tier node s =
    send_discovery_all fs in_face tier node (emit (send_discovery f in_face tier node) s)

-- What decoding the packet gives: the Data or its content may not parse; the two flags are
-- `TierConverged` and `NodeConverged`.
pub data Decoded : Type 0 where
  unreadable undecodable : Decoded
  discovery : Bool → Bool → Decoded

-- An upstream face reports its tier as converged; a frozen node does not take it in.
unfoldable pub note_tier : ℕ → Strategy → Strategy
unfolding delete
note_tier in_face s =
    if s.info.is_pd_frozen
    then s
    else with_info
        (record s.info { converged_upstream_tier = delete in_face s.info.converged_upstream_tier })
        s

-- The flag that goes downstream, with the state: the tier has converged when no face is left.
unfoldable pub tier_feedback : NodeConfig → ℕ → ℕ → Bool → Strategy → Bool × Strategy
unfolding note_tier are_higher_tiers_empty local_node_converged
tier_feedback cfg now in_face false s = (false, s)
tier_feedback cfg now in_face true s =
    let s' = note_tier in_face s in
    if is_empty s'.info.converged_upstream_tier
    then (
      true,
      if not s'.info.is_node_converged && are_higher_tiers_empty s'.info
          then local_node_converged cfg now s'
          else s',
    )
    else (false, s')

unfoldable pub node_feedback : ℕ → Bool → Strategy → Bool × Strategy
unfolding delete
node_feedback in_face false s = (false, s)
node_feedback in_face true s =
    let left = delete in_face s.info.converged_upstream_node in
    (
      s.info.is_node_converged && is_empty left,
      with_info (record s.info { converged_upstream_node = left }) s,
    )

-- `encodes` says whether the new content serializes and the Data is of the expected type.
unfoldable pub handle_path_discovery_data :
    NodeConfig → ℕ → List ℕ → ℕ → Decoded → Bool → Strategy → Strategy
unfolding send_all send_discovery_all tier_feedback node_feedback has_prefix
handle_path_discovery_data cfg now in_records in_face unreadable encodes s =
    send_all in_records in_face s
handle_path_discovery_data cfg now in_records in_face undecodable encodes s = s
handle_path_discovery_data cfg now in_records in_face (discovery tier node) encodes s =
    let (tier', s') = tier_feedback cfg now in_face tier s in
    let (node', s'') = node_feedback in_face node s' in
    if encodes
    then send_discovery_all in_records in_face (has_prefix cfg.node_name (codes "/pro") || tier')
        node' s''
    else s''

unfoldable pub after_receive_looped_interest : List Str → ℕ → Strategy → Strategy
unfolding str_eq
after_receive_looped_interest name in_face s =
    if ltb (length name) 3
    then s
    else if str_eq (get_or name 2 []) (codes "pd")
    then emit (send_nack in_face in_face reason_none) s
    else s

-- ===== src/Multipath/Feedback/Exclusion.antt =====
-- What a Nack without a route takes away.
use mars_icnp.Prelude.{
  ℕ, zero, suc, ◌≡◌, refl, true, false, not, List, [], ◌∷◌, ◌==◌, keep, if◌then◌else◌, arith,
  if_either, if_cases,
}
use mars_icnp.Prelude.Sets.{mem, mem-delete, Distinct}
use mars_icnp.Multipath.Hops.{Tier, tier_has}
use mars_icnp.Multipath.Hops.Flatten.{tiers_have}
use mars_icnp.Multipath.State.{
  PathDiscoveryInfo, Strategy, NodeConfig, NackReason, no_route, reason_none, with_info,
}
use mars_icnp.Multipath.Convergence.{
  remove_face_from_wait_list, remove_face_from_probed_upstreams, exclude_face, clear_from,
  erase_tiers, skip_tier, local_node_converged, converged_info,
}
use mars_icnp.Multipath.Feedback.{
  forward_nack_default, nack_info, no_route_nack, handle_path_discovery_nack,
}
use mars_icnp.Multipath.Events.Evolution.Replies.{forward_nack-info}
use mars_icnp.Multipath.Events.Evolution.Stages.{delete_from-excluded}

-- The face is gone from the prefix.
pub record IsExcluded (f : ℕ) (i : PathDiscoveryInfo) : Type 0 where
  pub not_valid : mem f i.valid_upstreams ≡ false
  pub not_waiting : tiers_have f i.wait_list ≡ false
  pub not_tier : mem f i.converged_upstream_tier ≡ false
  pub not_node : mem f i.converged_upstream_node ≡ false
  pub not_probed : mem f i.probed_upstreams ≡ false

module _ (f : ℕ) where
  remove-mem : (fs : List ℕ) → Distinct fs → mem f (remove_face_from_probed_upstreams f fs) ≡ false
  unfolding mem remove_face_from_probed_upstreams
  remove-mem [] d = refl
  remove-mem (g ∷ fs) d = ground (arith, remove-mem fs d.1)

  keep-tier_has : (t : Tier) → tier_has f (keep (λ h. not (h.nexthop == f)) t) ≡ false
  unfolding keep
  keep-tier_has [] = refl
  keep-tier_has (h ∷ t) = ground (arith, keep-tier_has t)

  remove-tiers_have : (ts : List Tier) → tiers_have f (remove_face_from_wait_list f ts) ≡ false
  unfolding remove_face_from_wait_list
  remove-tiers_have [] = refl
  remove-tiers_have (t ∷ ts) = ground (arith, keep-tier_has t, remove-tiers_have ts)

  pub exclude_face-IsExcluded :
      (i : PathDiscoveryInfo) → Distinct i.probed_upstreams → IsExcluded f (exclude_face f i)
  unfolding exclude_face
  exclude_face-IsExcluded i d = ground (
    arith,
    mem-delete f f i.valid_upstreams,
    mem-delete f f i.converged_upstream_tier,
    mem-delete f f i.converged_upstream_node,
    remove-tiers_have i.wait_list,
    remove-mem i.probed_upstreams d,
  )

  clear_from-have :
      (n : ℕ) (ts : List Tier) → tiers_have f ts ≡ false → tiers_have f (clear_from n ts) ≡ false
  unfolding clear_from
  clear_from-have n [] h = h
  clear_from-have zero (t ∷ ts) h = clear_from-have zero ts (ground arith)
  clear_from-have (suc n) (t ∷ ts) h = ground (arith, clear_from-have n ts)

  erase_tiers-IsExcluded : (i : PathDiscoveryInfo) → IsExcluded f i → IsExcluded f (erase_tiers i)
  unfolding erase_tiers
  erase_tiers-IsExcluded i e = ground (
    arith,
    clear_from-have i.current_tier i.wait_list,
    delete_from-excluded f i.current_tier i.wait_list i.valid_upstreams,
    delete_from-excluded f i.current_tier i.wait_list i.converged_upstream_node,
  )

  converged-IsExcluded :
      (cfg : NodeConfig) (now : ℕ) (s : Strategy)
      → IsExcluded f s.info
      → IsExcluded f (local_node_converged cfg now s).info
  unfolding local_node_converged converged_info mem
  converged-IsExcluded cfg now s e = ground arith

  skip_tier-IsExcluded :
      (cfg : NodeConfig) (now : ℕ) (s : Strategy)
      → IsExcluded f s.info
      → IsExcluded f (skip_tier cfg now s).info
  unfolding skip_tier
  skip_tier-IsExcluded cfg now s e =
      let s' : Strategy = with_info (erase_tiers s.info) s in
      let e' = erase_tiers-IsExcluded s.info e in
      if_either (λ (v : Strategy). IsExcluded f v.info) s'.info.is_node_converged e'
        (converged-IsExcluded cfg now s' e')

  nack_info-IsExcluded :
      (cfg : NodeConfig) (now : ℕ) (s : Strategy)
      → s.info.is_pd_frozen ≡ false
      → Distinct s.info.probed_upstreams
      → IsExcluded f (nack_info cfg now f s).info
  unfolding nack_info
  nack_info-IsExcluded cfg now s h d =
      let t : Strategy = with_info (exclude_face f s.info) s in
      let s' : Strategy = if s.info.is_pd_frozen then s else t in
      let e =
        if_cases (λ (v : Strategy). IsExcluded f v.info) s.info.is_pd_frozen {x = s} {y = t}
          (λ frozen. absurd (cc)) (λ _. exclude_face-IsExcluded s.info d) in
      if_either (λ (v : Strategy). IsExcluded f v.info) _ (skip_tier-IsExcluded cfg now s' e) e

  forward-IsExcluded :
      (fs : List ℕ) (in_face : ℕ) (reason : NackReason) (s : Strategy)
      → IsExcluded f s.info
      → IsExcluded f (forward_nack_default fs in_face reason s).info
  forward-IsExcluded fs in_face reason s e = rw (forward_nack-info 0 fs in_face reason s) e

  -- A Nack without a route, at a node that is valid for the prefix and not frozen, whose probed
  -- faces are distinct: the face that it came from is no longer a valid upstream, is on no tier of
  -- the wait list, is waited for neither by the tier nor by the node, and is no longer probed.
  pub nack-IsExcluded :
      (cfg : NodeConfig) (now : ℕ) (in_records : List ℕ) (s : Strategy)
      → s.info.is_invalid_node ≡ false
      → s.info.is_pd_frozen ≡ false
      → Distinct s.info.probed_upstreams
      → IsExcluded f (handle_path_discovery_nack cfg now in_records f no_route s).info
  unfolding handle_path_discovery_nack no_route_nack
  nack-IsExcluded cfg now in_records s valid thawed d =
      let s' : Strategy = nack_info cfg now f s in
      let e = nack_info-IsExcluded cfg now s thawed d in
      let t : Strategy = with_info (record s'.info { is_invalid_node = true }) s' in
      if_cases (λ (v : Strategy). IsExcluded f v.info) s.info.is_invalid_node (λ h. absurd (cc))
        λ _.
          if_either (λ (v : Strategy). IsExcluded f v.info) _
            (forward-IsExcluded in_records f no_route t (record {
              not_valid = e.not_valid;
              not_waiting = e.not_waiting;
              not_tier = e.not_tier;
              not_node = e.not_node;
              not_probed = e.not_probed;
            }))
            (forward-IsExcluded in_records f reason_none s' e)

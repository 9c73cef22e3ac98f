-- ===== src/Multipath/Convergence.antt =====
-- Convergence of a node: `removeFaceFromWaitList`, `removeFaceFromProbedUpstreams`,
-- `areHigherTiersEmpty`, `isCurrentTierAllInvalid`, `skipTier`, `localNodeConverged` and
-- `updateAfterPathDiscovery` of mars/fw/fw/multipath.go.
pub mod Outcome
use mars_icnp.Prelude.{
  ℕ, zero, suc, Bool, true, false, not, List, [], ◌∷◌, map, leb, ltb, ◌==◌, keep, length, get_or,
  is_empty, if◌then◌else◌,
}
use mars_icnp.Prelude.Sets.{mem, delete}
use mars_icnp.Prelude.Text.{Str, codes, trim_prefix}
use mars_icnp.Multipath.Hops.{Tier, flatten_dt_tier_faces}
use mars_icnp.Multipath.Failure.{arm_dt_failure_after_pd_convergence}
use mars_icnp.Multipath.State.{
  PathDiscoveryInfo, Strategy, NodeConfig, ensure_control, emit, with_info,
}

unfoldable pub remove_face_from_wait_list : ℕ → List Tier → List Tier
unfolding keep
remove_face_from_wait_list face = map (keep (λ h. not (h.nexthop == face)))

-- The first occurrence goes.
unfoldable pub remove_face_from_probed_upstreams : ℕ → List ℕ → List ℕ
remove_face_from_probed_upstreams face [] = []
remove_face_from_probed_upstreams face (f ∷ fs) =
    if f == face then fs else f ∷ remove_face_from_probed_upstreams face fs

-- The five removals that an Interest, a Nack and the end of a freeze share.
unfoldable pub exclude_face : ℕ → PathDiscoveryInfo → PathDiscoveryInfo
unfolding delete remove_face_from_wait_list remove_face_from_probed_upstreams
exclude_face face i = record i {
  valid_upstreams = delete face i.valid_upstreams;
  wait_list = remove_face_from_wait_list face i.wait_list;
  converged_upstream_tier = delete face i.converged_upstream_tier;
  converged_upstream_node = delete face i.converged_upstream_node;
  probed_upstreams = remove_face_from_probed_upstreams face i.probed_upstreams;
}

-- Whether every tier after the first `n` is empty.
unfoldable pub all_empty_from : ℕ → List Tier → Bool
all_empty_from n [] = true
all_empty_from zero (t ∷ ts) = if is_empty t then all_empty_from zero ts else false
all_empty_from (suc n) (t ∷ ts) = all_empty_from n ts

unfoldable pub are_higher_tiers_empty : PathDiscoveryInfo → Bool
unfolding all_empty_from
are_higher_tiers_empty i = all_empty_from (suc i.current_tier) i.wait_list

unfoldable pub any_valid : Tier → List ℕ → Bool
unfolding mem
any_valid [] valid = false
any_valid (h ∷ t) valid = if mem h.nexthop valid then true else any_valid t valid

unfoldable pub is_current_tier_all_invalid : PathDiscoveryInfo → Bool
unfolding any_valid
is_current_tier_all_invalid i =
    if leb (length i.tier_list) i.current_tier
    then true
    else not (any_valid (get_or i.tier_list i.current_tier []) i.valid_upstreams)

-- `append` keeps a tier of the wait list, with its cost, if it is not empty.
unfoldable pub update_tiers : List Tier → List Tier
update_tiers [] = []
update_tiers (t ∷ ts) = if is_empty t then update_tiers ts else t ∷ update_tiers ts

unfoldable pub update_costs : List Tier → List ℕ → List ℕ
update_costs [] costs = []
update_costs (t ∷ ts) [] = []
update_costs (t ∷ ts) (c ∷ cs) = if is_empty t then update_costs ts cs else c ∷ update_costs ts cs

unfoldable pub update_after_path_discovery : PathDiscoveryInfo → PathDiscoveryInfo
unfolding update_tiers update_costs
update_after_path_discovery i = record i {
  tier_list = update_tiers i.wait_list;
  tier_cost_list = update_costs i.wait_list i.tier_cost_list;
}

unfoldable pub dt_node_name_normalized : NodeConfig → Str
unfolding trim_prefix
dt_node_name_normalized cfg = trim_prefix cfg.node_name (codes "/")

-- The fields that convergence writes.
unfoldable pub converged_info : PathDiscoveryInfo → PathDiscoveryInfo
unfolding update_after_path_discovery flatten_dt_tier_faces
converged_info i =
    let faces = flatten_dt_tier_faces (update_tiers i.wait_list) in
    record (update_after_path_discovery i) {
      converged_upstream_tier = [];
      is_node_converged = true;
      dt_valid_faces = faces;
      dt_face_rate_control_enabled = ltb 1 (length faces);
      dt_bootstrap_face_rr = 0;
      dt_bootstrap_probe_counter = 0;
    }

abbrev pub ensure_if : Bool → List ℕ → Strategy → Strategy
ensure_if true faces s = emit (ensure_control faces) s
ensure_if false faces s = s

unfoldable pub local_node_converged : NodeConfig → ℕ → Strategy → Strategy
unfolding converged_info arm_dt_failure_after_pd_convergence dt_node_name_normalized
local_node_converged cfg now s =
    if s.info.is_node_converged
    then s
    else let i = converged_info s.info in
      ensure_if i.dt_face_rate_control_enabled i.dt_valid_faces (record s {
        info = i;
        failure =
            arm_dt_failure_after_pd_convergence cfg.failure_config (dt_node_name_normalized cfg) now
              i.prefix i.dt_valid_faces s.failure;
      })

-- `for _, hop := range tier { delete(set, hop.Nexthop) }`
unfoldable pub delete_hops : Tier → List ℕ → List ℕ
unfolding delete
delete_hops [] s = s
delete_hops (h ∷ t) s = delete_hops t (delete h.nexthop s)

unfoldable pub clear_from : ℕ → List Tier → List Tier
clear_from n [] = []
clear_from zero (t ∷ ts) = [] ∷ clear_from zero ts
clear_from (suc n) (t ∷ ts) = t ∷ clear_from n ts

unfoldable pub delete_from : ℕ → List Tier → List ℕ → List ℕ
unfolding delete_hops
delete_from n [] s = s
delete_from zero (t ∷ ts) s = delete_from zero ts (delete_hops t s)
delete_from (suc n) (t ∷ ts) s = delete_from n ts s

-- The loop of `skipTier`: the tiers from the current one on, and their faces, are erased.
unfoldable pub erase_tiers : PathDiscoveryInfo → PathDiscoveryInfo
unfolding clear_from delete_from
erase_tiers i = record i {
  wait_list = clear_from i.current_tier i.wait_list;
  valid_upstreams = delete_from i.current_tier i.wait_list i.valid_upstreams;
  converged_upstream_node = delete_from i.current_tier i.wait_list i.converged_upstream_node;
}

unfoldable pub skip_tier : NodeConfig → ℕ → Strategy → Strategy
unfolding erase_tiers local_node_converged
skip_tier cfg now s =
    let s' = with_info (erase_tiers s.info) s in
    if s'.info.is_node_converged then s' else local_node_converged cfg now s'

-- ===== src/Multipath/Convergence/Outcome.antt =====
-- What `localNodeConverged` leaves.
use mars_icnp.Prelude.{ℕ, ◌≡◌, refl, ◌∙◌, true, false, List, [], ◌∷◌, ltb, length, arith}
use mars_icnp.Prelude.Sets.{mem, Distinct}
use mars_icnp.Multipath.Hops.{Tier}
use mars_icnp.Multipath.Hops.Flatten.{tiers_have, flatten-mem, flatten-Distinct}
use mars_icnp.Multipath.State.{Strategy, NodeConfig, PathDiscoveryInfo}
use mars_icnp.Multipath.Convergence.{update_tiers, converged_info, local_node_converged}

tiers_have-update : (f : ℕ) (ts : List Tier) → tiers_have f (update_tiers ts) ≡ tiers_have f ts
unfolding update_tiers
tiers_have-update f [] = refl
tiers_have-update f ([] ∷ ts) = tiers_have-update f ts
tiers_have-update f ((h ∷ t) ∷ ts) = ground (arith, tiers_have-update f ts)

pub local_node_converged-info :
    (cfg : NodeConfig) (now : ℕ) (s : Strategy)
    → s.info.is_node_converged ≡ false
    → (local_node_converged cfg now s).info ≡ converged_info s.info
unfolding local_node_converged
local_node_converged-info cfg now s h = ground arith

converged_info-mem :
    (f : ℕ) (i : PathDiscoveryInfo)
    → mem f (converged_info i).dt_valid_faces ≡ tiers_have f i.wait_list
unfolding converged_info
converged_info-mem f i = flatten-mem f (update_tiers i.wait_list) ∙ tiers_have-update f i.wait_list

-- A node that had not converged: its faces for data are exactly the faces still on the wait list,
-- each of them once, its rate control is on exactly if there are two or more, and no face of the
-- tier is waited for.
pub local_node_converged-faces :
    (f : ℕ) (cfg : NodeConfig) (now : ℕ) (s : Strategy)
    → s.info.is_node_converged ≡ false
    → let j = (local_node_converged cfg now s).info in
      (j.is_node_converged ≡ true)
      × (mem f j.dt_valid_faces ≡ tiers_have f s.info.wait_list)
      × Distinct j.dt_valid_faces
      × (j.dt_face_rate_control_enabled ≡ ltb 1 (length j.dt_valid_faces))
      × (j.converged_upstream_tier ≡ [])
local_node_converged-faces f cfg now s h = rw (local_node_converged-info cfg now s h) (
  (unfold converged_info in refl),
  converged_info-mem f s.info,
  (unfold converged_info in flatten-Distinct (update_tiers s.info.wait_list)),
  (unfold converged_info in refl),
  (unfold converged_info in refl),
)

-- ===== src/Multipath/Events/Evolution/Stages.antt =====
-- The stages that the handlers share.
use mars_icnp.Prelude.{ℕ, zero, suc, ◌≡◌, get_or, true, false, Option, List, [], ◌∷◌, arith}
use mars_icnp.Prelude.Sets.{delete-nil, mem, delete, mem-delete}
use mars_icnp.Multipath.Hops.{Tier, HopSnapshot, snapshot_nexthops}
use mars_icnp.Multipath.State.{PathDiscoveryInfo, Strategy, NodeConfig, with_info}
use mars_icnp.Multipath.Convergence.{
  exclude_face, delete_hops, delete_from, erase_tiers, skip_tier, local_node_converged,
  converged_info,
}
use mars_icnp.Multipath.Discovery.{
  faces_of, drop_vanished, rebuild_tiers, refresh_path_discovery_snapshot, probe_hops, probe_tier,
  probe_next_tier,
}

-- The entry may change from `i` to `j`, as far as the face `f` is concerned.
pub record Evolves (f : ℕ) (i j : PathDiscoveryInfo) : Type 0 where
  pub initialized : i.is_initialized ≡ true → j.is_initialized ≡ true
  pub converged : i.is_node_converged ≡ true → j.is_node_converged ≡ true
  pub invalid : i.is_invalid_node ≡ true → j.is_invalid_node ≡ true
  pub data_faces : i.is_node_converged ≡ true → j.dt_valid_faces ≡ i.dt_valid_faces
  pub shaped :
      i.is_node_converged ≡ true → j.dt_face_rate_control_enabled ≡ i.dt_face_rate_control_enabled
  pub stuck :
      i.is_pd_frozen ≡ true → i.frozen_faces ≡ [] → (j.is_pd_frozen ≡ true) × (j.frozen_faces ≡ [])
  pub excluded :
      i.is_initialized ≡ true → mem f i.valid_upstreams ≡ false → mem f j.valid_upstreams ≡ false

module _ (f : ℕ) where
  abbrev pub Keeps : Strategy → Strategy → Type 0
  Keeps s v = Evolves f s.info v.info

  pub Evolves-refl : (i : PathDiscoveryInfo) → Evolves f i i
  Evolves-refl i = ground arith

  pub Evolves-trans : (i j k : PathDiscoveryInfo) → Evolves f i j → Evolves f j k → Evolves f i k
  Evolves-trans i j k e d = ground arith

  pub delete_hops-excluded :
      (t : Tier) (s : List ℕ) → mem f s ≡ false → mem f (delete_hops t s) ≡ false
  unfolding delete_hops
  delete_hops-excluded [] s h = h
  delete_hops-excluded (x ∷ t) s h =
      delete_hops-excluded t (delete x.nexthop s) (ground (arith, mem-delete f x.nexthop s))

  pub delete_from-excluded :
      (n : ℕ) (ts : List Tier) (s : List ℕ) → mem f s ≡ false → mem f (delete_from n ts s) ≡ false
  unfolding delete_from
  delete_from-excluded n [] s h = h
  delete_from-excluded zero (t ∷ ts) s h =
      delete_from-excluded zero ts (delete_hops t s) (delete_hops-excluded t s h)
  delete_from-excluded (suc n) (t ∷ ts) s h = delete_from-excluded n ts s h

  pub exclude_face-Evolves : (g : ℕ) (i : PathDiscoveryInfo) → Evolves f i (exclude_face g i)
  unfolding exclude_face
  exclude_face-Evolves g i = ground (arith, mem-delete f g i.valid_upstreams)

  pub erase_tiers-Evolves : (i : PathDiscoveryInfo) → Evolves f i (erase_tiers i)
  unfolding erase_tiers
  erase_tiers-Evolves i =
      ground (arith, delete_from-excluded i.current_tier i.wait_list i.valid_upstreams)

  pub local_node_converged-Evolves :
      (cfg : NodeConfig) (now : ℕ) (s : Strategy)
      → Evolves f s.info (local_node_converged cfg now s).info
  unfolding local_node_converged converged_info
  local_node_converged-Evolves cfg now s = ground arith

  pub skip_tier-Evolves :
      (cfg : NodeConfig) (now : ℕ) (s : Strategy) → Evolves f s.info (skip_tier cfg now s).info
  unfolding skip_tier
  skip_tier-Evolves cfg now s =
      let s' : Strategy = with_info (erase_tiers s.info) s in
      ground (
        arith,
        erase_tiers-Evolves s.info,
        local_node_converged-Evolves cfg now s',
        Evolves-trans s.info s'.info (local_node_converged cfg now s').info,
      )

  pub drop_vanished-Evolves :
      (latest fs : List ℕ) (i : PathDiscoveryInfo) → Evolves f i (drop_vanished latest fs i)
  unfolding drop_vanished
  drop_vanished-Evolves latest [] i = Evolves-refl i
  drop_vanished-Evolves latest (g ∷ fs) i =
      Evolves-trans i _ _ (ground (arith, delete-nil g, mem-delete f g i.valid_upstreams))
        (drop_vanished-Evolves latest fs _)

  pub refresh-Evolves :
      (nexthops : List (Option HopSnapshot)) (i : PathDiscoveryInfo)
      → Evolves f i (refresh_path_discovery_snapshot nexthops i)
  unfolding refresh_path_discovery_snapshot rebuild_tiers
  refresh-Evolves nexthops i =
      ground
        (arith, drop_vanished-Evolves (faces_of (snapshot_nexthops nexthops)) i.valid_upstreams i)

  pub probe_hops-Evolves : (t : Tier) (i : PathDiscoveryInfo) → Evolves f i (probe_hops t i)
  unfolding probe_hops
  probe_hops-Evolves [] i = Evolves-refl i
  probe_hops-Evolves (h ∷ t) i = Evolves-trans i _ _ (ground arith) (probe_hops-Evolves t _)

  pub probe_tier-Evolves :
      (cfg : NodeConfig) (now n : ℕ) (s : Strategy) → Evolves f s.info (probe_tier cfg now n s).info
  unfolding probe_tier
  probe_tier-Evolves cfg now n s =
      let t = get_or s.info.wait_list n [] in
      let s' : Strategy = with_info (probe_hops t s.info) s in
      ground (
        arith,
        Evolves-refl s.info,
        probe_hops-Evolves t s.info,
        local_node_converged-Evolves cfg now s',
        Evolves-trans s.info s'.info (local_node_converged cfg now s').info,
      )

  pub probe_next_tier-Evolves :
      (cfg : NodeConfig) (now : ℕ) (s : Strategy)
      → Evolves f s.info (probe_next_tier cfg now s).info
  unfolding probe_next_tier
  probe_next_tier-Evolves cfg now s =
      let t : Strategy = with_info (record s.info { current_tier = suc s.info.current_tier }) s in
      Evolves-trans s.info t.info _ (ground arith) (probe_tier-Evolves cfg now _ t)

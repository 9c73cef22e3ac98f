-- ===== src/Multipath/Events/Evolution/Interests.antt =====
-- Interests.
use mars_icnp.Prelude.{
  ℕ, ◌≡◌, ◌≢◌, ◌+◌, ◌%◌, length, get_or, Option-cases, if_either, if_cases, true, false, Option,
  List, [], ◌∷◌, arith, Bool-cases, inl, inr,
}
use mars_icnp.Prelude.Int.{ℤ}
use mars_icnp.Prelude.Text.{Str}
use mars_icnp.Prelude.Sets.{mem, delete}
use mars_icnp.Multipath.Hops.{Tier, HopSnapshot, snapshot_nexthops}
use mars_icnp.Multipath.State.{PathDiscoveryInfo, Strategy, NodeConfig, with_info}
use mars_icnp.Multipath.Convergence.{exclude_face, skip_tier}
use mars_icnp.Multipath.Discovery.{
  insert_tiers, refresh_path_discovery_snapshot, tier_grouping, prune_costly, probe_tier,
  probe_next_tier, initial_faces, start_path_discovery,
}
use mars_icnp.Multipath.Interest.{
  refuse, invalidate, scheduler_index, exclude_faces, thaw, after_probe, forward_probe, check_valid,
  find_tier, freeze, note_ingress, advance_probe, initialize, probe_interest, discovery_interest,
}
use mars_icnp.Multipath.Events.Evolution.Stages.{
  Keeps, Evolves-refl, Evolves-trans, exclude_face-Evolves, skip_tier-Evolves, refresh-Evolves,
  probe_tier-Evolves, probe_next_tier-Evolves,
}
use mars_icnp.Multipath.Events.Evolution.Stages.{Evolves}

module _ (f : ℕ) where
  pub exclude_faces-Evolves :
      (fs : List ℕ) (i : PathDiscoveryInfo) → Evolves f i (exclude_faces fs i)
  unfolding exclude_faces
  exclude_faces-Evolves [] i = Evolves-refl f i
  exclude_faces-Evolves (g ∷ fs) i =
      Evolves-trans f i _ _ (exclude_face-Evolves f g i) (exclude_faces-Evolves fs _)

  pub thaw-Evolves :
      (i j : PathDiscoveryInfo) → i.frozen_faces ≢ [] → Evolves f i j → Evolves f i (thaw j)
  unfolding thaw
  thaw-Evolves i j h e =
      let j' = record j { is_pd_frozen = false } in
      let d =
        Evolves-trans f i j' _ (ground arith) (exclude_faces-Evolves j.frozen_recover_faces j') in
      Evolves-trans f i (exclude_faces j.frozen_recover_faces j') _ d (ground arith)

  pub mem-not_nil : (g : ℕ) (xs : List ℕ) → mem g xs ≡ true → xs ≢ []
  unfolding mem
  mem-not_nil g [] h = cc
  mem-not_nil g (x ∷ xs) h = λ e. cc

  pub after_probe-Evolves : (g : ℕ) (i : PathDiscoveryInfo) → Evolves f i (after_probe g i)
  unfolding after_probe
  after_probe-Evolves g i =
      let j = record i { frozen_faces = delete g i.frozen_faces } in
      ground (arith, mem-not_nil g i.frozen_faces, thaw-Evolves i j)

  pub forward_probe-Evolves :
      (in_face : ℕ) (s : Strategy) → Evolves f s.info (forward_probe in_face s).info
  unfolding forward_probe
  forward_probe-Evolves in_face s =
      let n = scheduler_index s.info in
      ground (
        arith,
        after_probe-Evolves (get_or s.info.probed_upstreams n 0)
            (record s.info { probed_scheduler_index = (n + 1) % length s.info.probed_upstreams }),
      )

  pub check_valid-Evolves :
      (cfg : NodeConfig) (now in_face : ℕ) (s : Strategy)
      → Evolves f s.info (check_valid cfg now in_face s).info
  unfolding check_valid
  check_valid-Evolves cfg now in_face s =
      let s' : Strategy = skip_tier cfg now s in
      ground (
        arith,
        skip_tier-Evolves f cfg now s,
        forward_probe-Evolves in_face s,
        forward_probe-Evolves in_face s',
        Evolves-trans f s.info s'.info (forward_probe in_face s').info,
      )

  pub freeze-Evolves : (t : Tier) (i : PathDiscoveryInfo) → Evolves f i (freeze t i)
  unfolding freeze
  freeze-Evolves t i = ground arith

  pub note_ingress-Evolves :
      (cfg : NodeConfig) (now in_face : ℕ) (s : Strategy)
      → Evolves f s.info (note_ingress cfg now in_face s).info
  unfolding note_ingress
  note_ingress-Evolves cfg now in_face s = elim (Bool-cases (mem in_face s.info.probed_upstreams)) [
    | inl e ↦ elim (Option-cases (find_tier in_face s.info.wait_list)) [
      | inl none_found ↦ rw (e, none_found, note_ingress) (Evolves-refl f s.info)
      | inr (t, found) ↦
          rw (e, found, note_ingress)
            (Evolves-trans f s.info _ _ (freeze-Evolves t s.info)
              (check_valid-Evolves cfg now in_face (with_info (freeze t s.info) s)))
    ]
    | inr e ↦
        rw (e, note_ingress)
          (Evolves-trans f s.info _ _ (exclude_face-Evolves f in_face s.info)
            (check_valid-Evolves cfg now in_face (with_info (exclude_face in_face s.info) s)))
  ]

  pub advance_probe-Evolves :
      (cfg : NodeConfig) (now : ℕ) (idx : ℤ) (in_face : ℕ) (nexthops : List (Option HopSnapshot))
      (s : Strategy)
      → Evolves f s.info (advance_probe cfg now idx in_face nexthops s).info
  unfolding advance_probe
  advance_probe-Evolves cfg now idx in_face nexthops s =
      let s' : Strategy = with_info (refresh_path_discovery_snapshot nexthops s.info) s in
      let t : Strategy = with_info (record s'.info { probe_index = idx }) s' in
      let u : Strategy = probe_next_tier cfg now t in
      let r = refresh-Evolves f nexthops s.info in
      let st = Evolves-trans f s.info s'.info t.info r (ground arith) in
      let su = Evolves-trans f s.info t.info u.info st (probe_next_tier-Evolves f cfg now t) in
      let sv =
        Evolves-trans f s.info u.info (note_ingress cfg now in_face u).info su
          (note_ingress-Evolves cfg now in_face u) in
      if_either (Keeps f s) _ (if_either (Keeps f s) _ r sv)
        (if_either (Keeps f s) _ (note_ingress-Evolves cfg now in_face s) (Evolves-refl f s.info))

  -- A first Interest sets the faces of the prefix, and changes nothing else that is final.
  pub prune_costly-Evolves :
      (i : PathDiscoveryInfo) (cs : List ℕ) (ts : List Tier) (j : PathDiscoveryInfo)
      → i.is_initialized ≡ false
      → Evolves f i j
      → Evolves f i (prune_costly cs ts j)
  unfolding prune_costly
  prune_costly-Evolves i [] ts j h e = e
  prune_costly-Evolves i (c ∷ cs) [] j h e = e
  prune_costly-Evolves i (c ∷ cs) (t ∷ ts) j h e = ground arith

  pub start-Evolves :
      (cfg : NodeConfig) (now : ℕ) (idx : ℤ) (hops : Tier) (s : Strategy)
      → s.info.is_initialized ≡ false
      → let t = tier_grouping hops (record s.info { is_initialized = true; probe_index = idx }) in
        Evolves f s.info (start_path_discovery cfg now (with_info t s)).info
  unfolding start_path_discovery tier_grouping initial_faces
  start-Evolves cfg now idx hops s h =
      let t = tier_grouping hops (record s.info { is_initialized = true; probe_index = idx }) in
      let u : Strategy = with_info (initial_faces t) s in
      let faces = insert_tiers t.tier_list [] in
      let j = record t {
        valid_upstreams = faces;
        converged_upstream_node = faces;
        current_tier = 0;
      } in
      let e = prune_costly-Evolves s.info t.tier_cost_list t.wait_list j h (ground arith) in
      let v =
        Evolves-trans f s.info u.info (probe_tier cfg now 0 u).info e
          (probe_tier-Evolves f cfg now 0 u) in
      Evolves-trans f s.info (probe_tier cfg now 0 u).info _ v (ground arith)

  pub initialize-Evolves :
      (cfg : NodeConfig) (now : ℕ) (idx : ℤ) (nexthops : List (Option HopSnapshot)) (s : Strategy)
      → Evolves f s.info (initialize cfg now idx nexthops s).info
  unfolding initialize
  initialize-Evolves cfg now idx nexthops s =
      if_cases (Keeps f s) s.info.is_initialized (λ _. Evolves-refl f s.info)
        (start-Evolves cfg now idx (snapshot_nexthops nexthops) s)

  pub invalidate-Evolves :
      (in_face : ℕ) (s : Strategy) → Evolves f s.info (invalidate in_face s).info
  invalidate-Evolves in_face s = ground arith

  pub interest-Evolves :
      (cfg : NodeConfig) (now : ℕ) (prefix src : Str) (idx : ℤ) (in_face : ℕ)
      (nexthops : List (Option HopSnapshot)) (s : Strategy)
      → Evolves f s.info (discovery_interest cfg now prefix src idx in_face nexthops s).info
  unfolding discovery_interest probe_interest
  interest-Evolves cfg now prefix src idx in_face nexthops s =
      let s' : Strategy = initialize cfg now idx nexthops s in
      let e = initialize-Evolves cfg now idx nexthops s in
      if_either (Keeps f s) _ (invalidate-Evolves in_face s) (
        if_either (Keeps f s) _ {x = refuse in_face s} (Evolves-refl f s.info) (
          if_either (Keeps f s) _
            (Evolves-trans f s.info s'.info _ e (forward_probe-Evolves in_face s'))
            (Evolves-trans f s.info s'.info _ e
              (advance_probe-Evolves cfg now idx in_face nexthops s'))))

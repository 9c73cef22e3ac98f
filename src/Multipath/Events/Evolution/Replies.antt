-- ===== src/Multipath/Events/Evolution/Replies.antt =====
-- Nacks and Data.
use mars_icnp.Prelude.{
  ℕ, ◌≡◌, refl, ◌∙◌, if_either, Bool, true, false, ◌||◌, List, [], ◌∷◌, if◌then◌else◌, arith,
}
use mars_icnp.Prelude.Text.{codes, has_prefix}
use mars_icnp.Multipath.State.{
  PathDiscoveryInfo, Strategy, NodeConfig, NackReason, no_route, reason_none, with_info,
}
use mars_icnp.Multipath.Convergence.{exclude_face}
use mars_icnp.Multipath.Feedback.{
  Decoded, unreadable, undecodable, discovery, forward_nack_default, nack_info, no_route_nack,
  drop_active, send_all, send_discovery_all, note_tier, tier_feedback, node_feedback,
  handle_path_discovery_data,
}
use mars_icnp.Multipath.Events.Evolution.Stages.{
  Keeps, Evolves-refl, Evolves-trans, exclude_face-Evolves, local_node_converged-Evolves,
  skip_tier-Evolves,
}
use mars_icnp.Multipath.Events.Evolution.Stages.{Evolves}

module _ (f : ℕ) where
  pub forward_nack-info :
      (fs : List ℕ) (in_face : ℕ) (reason : NackReason) (s : Strategy)
      → (forward_nack_default fs in_face reason s).info ≡ s.info
  unfolding forward_nack_default
  forward_nack-info [] in_face reason s = refl
  forward_nack-info (g ∷ fs) in_face reason s = forward_nack-info fs in_face reason _ ∙ ground arith

  pub forward_nack-Keeps :
      (s t : Strategy) (fs : List ℕ) (in_face : ℕ) (reason : NackReason)
      → Keeps f s t
      → Keeps f s (forward_nack_default fs in_face reason t)
  forward_nack-Keeps s t fs in_face reason h = rw (forward_nack-info fs in_face reason t) h

  pub nack_info-Evolves :
      (cfg : NodeConfig) (now in_face : ℕ) (s : Strategy)
      → Evolves f s.info (nack_info cfg now in_face s).info
  unfolding nack_info
  nack_info-Evolves cfg now in_face s =
      let t : Strategy = with_info (exclude_face in_face s.info) s in
      let s' : Strategy = if s.info.is_pd_frozen then s else t in
      let e =
        if_either (Keeps f s) s.info.is_pd_frozen {x = s} {y = t} (Evolves-refl f s.info)
          (exclude_face-Evolves f in_face s.info) in
      if_either (Keeps f s) _ (Evolves-trans f s.info s'.info _ e (skip_tier-Evolves f cfg now s'))
        e

  pub no_route-Evolves :
      (cfg : NodeConfig) (now : ℕ) (fs : List ℕ) (in_face : ℕ) (s : Strategy)
      → Evolves f s.info (no_route_nack cfg now fs in_face s).info
  unfolding no_route_nack
  no_route-Evolves cfg now fs in_face s =
      let s' : Strategy = nack_info cfg now in_face s in
      let t : Strategy = with_info (record s'.info { is_invalid_node = true }) s' in
      let e = nack_info-Evolves cfg now in_face s in
      let u : Evolves f s.info t.info = ground (arith, e) in
      if_either (Keeps f s) _ (forward_nack-Keeps s s fs in_face no_route (Evolves-refl f s.info)) (
        if_either (Keeps f s) _ (forward_nack-Keeps s t fs in_face no_route u)
          (forward_nack-Keeps s s' fs in_face reason_none e))

  pub drop_active-Evolves : (g : ℕ) (i : PathDiscoveryInfo) → Evolves f i (drop_active g i)
  unfolding drop_active
  drop_active-Evolves g i = ground arith

  pub send_all-info :
      (fs : List ℕ) (in_face : ℕ) (s : Strategy) → (send_all fs in_face s).info ≡ s.info
  unfolding send_all
  send_all-info [] in_face s = refl
  send_all-info (g ∷ fs) in_face s = send_all-info fs in_face _

  pub send_discovery_all-info :
      (fs : List ℕ) (in_face : ℕ) (tier node : Bool) (s : Strategy)
      → (send_discovery_all fs in_face tier node s).info ≡ s.info
  unfolding send_discovery_all
  send_discovery_all-info [] in_face tier node s = refl
  send_discovery_all-info (g ∷ fs) in_face tier node s =
      send_discovery_all-info fs in_face tier node _

  pub tier_feedback-Evolves :
      (cfg : NodeConfig) (now in_face : ℕ) (tier : Bool) (s : Strategy)
      → Evolves f s.info (tier_feedback cfg now in_face tier s).1.info
  unfolding tier_feedback note_tier
  tier_feedback-Evolves cfg now in_face false s = Evolves-refl f s.info
  tier_feedback-Evolves cfg now in_face true s =
      let s' : Strategy = note_tier in_face s in
      let e : Evolves f s.info s'.info = ground arith in
      if_either (λ (v : Bool × Strategy). Keeps f s v.1) _
        (if_either (Keeps f s) _
          (Evolves-trans f s.info s'.info _ e (local_node_converged-Evolves f cfg now s')) e)
        e

  pub node_feedback-Evolves :
      (in_face : ℕ) (node : Bool) (s : Strategy)
      → Evolves f s.info (node_feedback in_face node s).1.info
  unfolding node_feedback
  node_feedback-Evolves in_face false s = Evolves-refl f s.info
  node_feedback-Evolves in_face true s = ground arith

  pub data-Evolves :
      (cfg : NodeConfig) (now : ℕ) (fs : List ℕ) (in_face : ℕ) (d : Decoded) (encodes : Bool)
      (s : Strategy)
      → Evolves f s.info (handle_path_discovery_data cfg now fs in_face d encodes s).info
  unfolding handle_path_discovery_data
  data-Evolves cfg now fs in_face unreadable encodes s =
      rw (send_all-info fs in_face s) (Evolves-refl f s.info)
  data-Evolves cfg now fs in_face undecodable encodes s = Evolves-refl f s.info
  data-Evolves cfg now fs in_face (discovery tier node) encodes s =
      let (tier', t) = tier_feedback cfg now in_face tier s in
      let (node', u) = node_feedback in_face node t in
      let e =
        Evolves-trans f s.info t.info u.info (tier_feedback-Evolves cfg now in_face tier s)
          (node_feedback-Evolves in_face node t) in
      if_either (Keeps f s) encodes
        {x = send_discovery_all fs in_face (has_prefix cfg.node_name (codes "/pro") || tier') node'
          u}
        {y = u} (rw (send_discovery_all-info fs in_face _ node' u) e) e

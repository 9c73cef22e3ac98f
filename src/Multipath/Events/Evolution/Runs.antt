-- ===== src/Multipath/Events/Evolution/Runs.antt =====
-- Any packet, and any sequence of packets.
use mars_icnp.Prelude.Sets.{mem}
use mars_icnp.Prelude.{◌≡◌, true, false, ℕ, List, [], ◌∷◌}
use mars_icnp.Multipath.State.{Strategy, NodeConfig, no_route, reason_none, other, with_info}
use mars_icnp.Multipath.Feedback.{handle_path_discovery_nack, drop_active, handle_transmission_nack}
use mars_icnp.Multipath.Events.{
  PrefixEvent, interest, nack, transmission_nack, discovery_data, prefix_step, prefix_run,
}
use mars_icnp.Multipath.Events.Evolution.Stages.{Evolves-refl, Evolves-trans}
use mars_icnp.Multipath.Events.Evolution.Interests.{interest-Evolves}
use mars_icnp.Multipath.Events.Evolution.Replies.{
  forward_nack-info, no_route-Evolves, drop_active-Evolves, data-Evolves,
}
use mars_icnp.Multipath.Events.Evolution.Stages.{Evolves}

module _ (f : ℕ) where
  pub step-Evolves :
      (cfg : NodeConfig) (e : PrefixEvent) (s : Strategy)
      → Evolves f s.info (prefix_step cfg e s).info
  unfolding handle_path_discovery_nack handle_transmission_nack
  step-Evolves cfg (interest now prefix src idx in_face nexthops) s =
      interest-Evolves f cfg now prefix src idx in_face nexthops s
  step-Evolves cfg (nack now fs in_face no_route) s = no_route-Evolves f cfg now fs in_face s
  step-Evolves cfg (nack now fs in_face reason_none) s =
      rw (forward_nack-info f fs in_face reason_none s) (Evolves-refl f s.info)
  step-Evolves cfg (nack now fs in_face (other n)) s = Evolves-refl f s.info
  step-Evolves cfg (transmission_nack fs in_face no_route) s =
      rw (forward_nack-info f fs in_face no_route (with_info (drop_active in_face s.info) s))
        (drop_active-Evolves f in_face s.info)
  step-Evolves cfg (transmission_nack fs in_face reason_none) s =
      rw (forward_nack-info f fs in_face reason_none s) (Evolves-refl f s.info)
  step-Evolves cfg (transmission_nack fs in_face (other n)) s =
      rw (forward_nack-info f fs in_face (other n) s) (Evolves-refl f s.info)
  step-Evolves cfg (discovery_data now fs in_face d encodes) s =
      data-Evolves f cfg now fs in_face d encodes s

  pub run-Evolves :
      (cfg : NodeConfig) (es : List PrefixEvent) (s : Strategy)
      → Evolves f s.info (prefix_run cfg es s).info
  unfolding prefix_run
  run-Evolves cfg [] s = Evolves-refl f s.info
  run-Evolves cfg (e ∷ es) s =
      Evolves-trans f s.info (prefix_step cfg e s).info _ (step-Evolves cfg e s)
        (run-Evolves cfg es (prefix_step cfg e s))

-- Once a node has converged for a prefix, whatever packets it receives: it stays converged, and
-- its faces for data and its choice of rate control never change.
pub run-converged :
    (cfg : NodeConfig) (es : List PrefixEvent) (s : Strategy)
    → s.info.is_node_converged ≡ true
    → let j = (prefix_run cfg es s).info in
      (j.is_node_converged ≡ true)
      × (j.dt_valid_faces ≡ s.info.dt_valid_faces)
      × (j.dt_face_rate_control_enabled ≡ s.info.dt_face_rate_control_enabled)
run-converged cfg es s h =
    let e = run-Evolves 0 cfg es s in (e.converged h, e.data_faces h, e.shaped h)

-- Once path discovery has started for a prefix, a face that is not among the valid upstreams
-- never becomes one, whatever packets follow.
pub run-excluded :
    (f : ℕ) (cfg : NodeConfig) (es : List PrefixEvent) (s : Strategy)
    → s.info.is_initialized ≡ true
    → mem f s.info.valid_upstreams ≡ false
    → mem f (prefix_run cfg es s).info.valid_upstreams ≡ false
run-excluded f cfg es s h = (run-Evolves f cfg es s).excluded h

-- A node that is invalid for a prefix stays invalid, whatever packets follow.
pub run-invalid :
    (cfg : NodeConfig) (es : List PrefixEvent) (s : Strategy)
    → s.info.is_invalid_node ≡ true
    → (prefix_run cfg es s).info.is_invalid_node ≡ true
run-invalid cfg es s h = (run-Evolves 0 cfg es s).invalid h

-- A frozen prefix with no frozen face left to probe stays frozen for ever: no packet ends the
-- freeze.
pub run-stuck :
    (cfg : NodeConfig) (es : List PrefixEvent) (s : Strategy)
    → s.info.is_pd_frozen ≡ true
    → s.info.frozen_faces ≡ []
    → ((prefix_run cfg es s).info.is_pd_frozen ≡ true)
      × ((prefix_run cfg es s).info.frozen_faces ≡ [])
run-stuck cfg es s h e = (run-Evolves 0 cfg es s).stuck h e

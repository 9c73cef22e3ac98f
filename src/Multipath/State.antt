-- ===== src/Multipath/State.antt =====
-- The state of path discovery for one prefix, and what a handler sends: `PathDiscoveryInfo` of
-- mars/fw/fw/multipath.go, without the fields that only data transmission reads (queue signals).
-- A handler takes and returns a `Strategy`: the entry of the prefix, which the source locks for
-- the whole handler, the failure state of the node, and the packets and calls sent so far.
use mars_icnp.Prelude.{ℕ, Bool, false, List, [], ◌∷◌, ◌++◌}
use mars_icnp.Prelude.Int.{ℤ, pos}
use mars_icnp.Prelude.Text.{Str}
use mars_icnp.Multipath.Hops.{Tier}
use mars_icnp.Multipath.Failure.{FailureConfig, FailureNodeState}

pub record PathDiscoveryInfo : Type 0 where
  pub prefix : Str
  pub is_initialized : Bool
  pub tier_list : List Tier
  pub tier_cost_list : List ℕ
  pub current_tier : ℕ
  pub probe_index : ℤ
  pub wait_list : List Tier
  pub probed_upstreams : List ℕ
  pub probed_scheduler_index : ℕ
  pub converged_upstream_tier : List ℕ
  pub converged_upstream_node : List ℕ
  pub is_node_converged : Bool
  pub valid_upstreams : List ℕ
  pub is_invalid_node : Bool
  pub is_pd_frozen : Bool
  pub frozen_faces : List ℕ
  pub frozen_recover_faces : List ℕ
  pub active_faces : List ℕ
  pub active_face_index : ℕ
  pub dt_valid_faces : List ℕ
  pub dt_face_rate_control_enabled : Bool
  pub dt_bootstrap_face_rr : ℕ
  pub dt_bootstrap_probe_counter : ℕ

-- The literal of `getPathDiscoveryInfo`; the fields not written there are zero.
abbrev pub new_info : Str → PathDiscoveryInfo
new_info prefix = record {
  prefix = prefix;
  is_initialized = false;
  tier_list = [];
  tier_cost_list = [];
  current_tier = 0;
  probe_index = pos 0;
  wait_list = [];
  probed_upstreams = [];
  probed_scheduler_index = 0;
  converged_upstream_tier = [];
  converged_upstream_node = [];
  is_node_converged = false;
  valid_upstreams = [];
  is_invalid_node = false;
  is_pd_frozen = false;
  frozen_faces = [];
  frozen_recover_faces = [];
  active_faces = [];
  active_face_index = 0;
  dt_valid_faces = [];
  dt_face_rate_control_enabled = false;
  dt_bootstrap_face_rr = 0;
  dt_bootstrap_probe_counter = 0;
}

-- The Nack reasons that the strategy compares.
pub data NackReason : Type 0 where
  reason_none no_route : NackReason
  other : ℕ → NackReason

-- The calls that leave the handler: a face receives a packet that came in by another face (the
-- second number), a discovery Data with its two convergence flags, or the rate control of some
-- faces is activated.
pub data Action : Type 0 where
  send_interest : ℕ → ℕ → Action
  send_nack : ℕ → ℕ → NackReason → Action
  send_data : ℕ → ℕ → Action
  send_discovery : ℕ → ℕ → Bool → Bool → Action
  ensure_control : List ℕ → Action

pub record Strategy : Type 0 where
  pub info : PathDiscoveryInfo
  pub failure : FailureNodeState
  pub sent : List Action

-- What a node is configured with: `StrategyNodeName.String()` and the failure schedule.
pub record NodeConfig : Type 0 where
  pub node_name : Str
  pub failure_config : FailureConfig

abbrev pub emit : Action → Strategy → Strategy
emit a s = record s { sent = s.sent ++ a ∷ [] }

abbrev pub with_info : PathDiscoveryInfo → Strategy → Strategy
with_info i s = record s { info = i }

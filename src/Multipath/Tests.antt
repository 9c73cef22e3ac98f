-- ===== src/Multipath/Tests.antt =====
-- The strategy on concrete packets, and each property at one of them.
use mars_icnp.Prelude.{
  ℕ, ◌≤◌, ◌≡◌, refl, true, false, Option, none, some, List, [], ◌∷◌, map, arith, ltb, length, keep,
}
use mars_icnp.Prelude.Int.{pos}
use mars_icnp.Prelude.Sets.{mem, Distinct}
use mars_icnp.Prelude.Text.{codes, atoi}
use mars_icnp.Multipath.Hops.{HopSnapshot, Tier, group_hop_snapshots_by_cost}
use mars_icnp.Multipath.Hops.Grouping.{Ascending, some_hop_costs, hops_of_cost, group-tiers}
use mars_icnp.Multipath.Failure.{
  FailureNodeState, initial_failure_state, dt_failure_snapshot, arm_dt_failure_after_pd_convergence,
}
use mars_icnp.Multipath.Failure.Lifecycle.{converge, poll, failure_run, failure_run-once}
use mars_icnp.Multipath.Failure.Window.{snapshot_active}
use mars_icnp.Multipath.State.{new_info, no_route, Strategy, NodeConfig, send_interest}
use mars_icnp.Multipath.Convergence.{local_node_converged}
use mars_icnp.Multipath.Convergence.Outcome.{local_node_converged-faces}
use mars_icnp.Multipath.Interest.{discovery_interest, handle_path_discovery_interest}
use mars_icnp.Multipath.Feedback.{handle_path_discovery_nack}
use mars_icnp.Multipath.Feedback.Exclusion.{IsExcluded, nack-IsExcluded}
use mars_icnp.Multipath.Events.{PrefixEvent, interest, nack, prefix_run}
use mars_icnp.Multipath.Events.Evolution.Runs.{run-converged, run-excluded, run-stuck}

-- What the runs below compute with.
program : Unit {0}
unfolding prefix_run discovery_interest handle_path_discovery_nack group_hop_snapshots_by_cost keep
    atoi handle_path_discovery_interest local_node_converged failure_run
    arm_dt_failure_after_pd_convergence dt_failure_snapshot
program = tt

abbrev hop : ℕ → ℕ → HopSnapshot
hop f c = record { nexthop = f; cost = c }

abbrev hops : Tier
hops = hop 3 7 ∷ hop 1 5 ∷ hop 4 12 ∷ hop 2 5 ∷ []

abbrev nexthops : List (Option HopSnapshot)
nexthops = some (hop 3 7) ∷ none ∷ some (hop 1 5) ∷ some (hop 4 12) ∷ some (hop 2 5) ∷ []

grouped :
    group_hop_snapshots_by_cost hops
    ≡ ((hop 1 5 ∷ hop 2 5 ∷ []) ∷ (hop 3 7 ∷ []) ∷ (hop 4 12 ∷ []) ∷ [], 5 ∷ 7 ∷ 12 ∷ [])
unfolding program
grouped = refl

abbrev con0 : NodeConfig
con0 = record {
  node_name = codes "/con0";
  failure_config = record {
    enabled = true;
    start_offset = 10;
    end_offset = 20;
    expected_prefixes = 1;
  };
}

abbrev fresh : Strategy
fresh = record { info = new_info (codes "pro0app"); failure = initial_failure_state; sent = [] }

abbrev ask : ℕ → ℕ → List (Option HopSnapshot) → PrefixEvent
ask idx in_face nhs = interest 0 (codes "pro0app") (codes "con0app") (pos idx) in_face nhs

-- The first Interest probes the first tier; the tier at more than twice its cost is pruned.
abbrev started : Strategy
started = prefix_run con0 (ask 0 9 nexthops ∷ []) fresh

started_valid : started.info.valid_upstreams ≡ 3 ∷ 2 ∷ 1 ∷ []
unfolding program
started_valid = refl

started_sent : started.sent ≡ send_interest 1 9 ∷ []
unfolding program
started_sent = refl

-- Two Nacks empty the first tier, and the rest of the wait list is skipped.
abbrev refused : Strategy
refused = prefix_run con0 (nack 1 (9 ∷ []) 1 no_route ∷ nack 2 (9 ∷ []) 2 no_route ∷ []) started

refused_ends : (refused.info.is_node_converged ≡ true) × (refused.info.is_invalid_node ≡ true)
unfolding program
refused_ends = (refl, refl)

-- An Interest from a probed face freezes its tier; then the FIB loses both faces of that tier.
abbrev stuck : Strategy
stuck = prefix_run con0 (ask 0 1 nexthops ∷ ask 1 9 (some (hop 3 7) ∷ []) ∷ []) started

stuck_frozen : (stuck.info.is_pd_frozen ≡ true) × (stuck.info.frozen_faces ≡ [])
unfolding program
stuck_frozen = (refl, refl)

group-tiers_example :
    Ascending (5 ∷ 7 ∷ 12 ∷ [])
    × (mem 7 (5 ∷ 7 ∷ 12 ∷ []) ≡ some_hop_costs 7 hops)
    × ((hop 1 5 ∷ hop 2 5 ∷ []) ∷ (hop 3 7 ∷ []) ∷ (hop 4 12 ∷ []) ∷ []
        ≡ map (λ c. hops_of_cost c hops) (5 ∷ 7 ∷ 12 ∷ []))
unfolding program
group-tiers_example = group-tiers hops 7

failure_run-once_example :
    (failure_run con0.failure_config
      (codes "con0")
      (converge 5 (codes "a") (7 ∷ 4 ∷ []) ∷ poll 16 ∷ poll 30 ∷ poll 17 ∷ [])
      initial_failure_state).activation_epoch
    ≤ 1
failure_run-once_example =
    failure_run-once con0.failure_config (codes "con0")
      (converge 5 (codes "a") (7 ∷ 4 ∷ []) ∷ poll 16 ∷ poll 30 ∷ poll 17 ∷ [])

abbrev failing : FailureNodeState
failing =
    failure_run con0.failure_config (codes "con0")
      (converge 5 (codes "a") (7 ∷ 4 ∷ []) ∷ poll 16 ∷ []) initial_failure_state

failing_face : failing.failed_face ≡ 4
unfolding program
failing_face = refl

abbrev healed : FailureNodeState
healed = record failing { active = false; recovered = true }

abbrev waiting : FailureNodeState
waiting = record initial_failure_state {
  armed = true;
  failed_face = 4;
  start_time = 15;
  end_time = 25;
}

snapshot_active_example :
    (dt_failure_snapshot con0.failure_config (codes "con0") 16 waiting).0.active ≡ true
unfolding program
snapshot_active_example =
    snapshot_active con0.failure_config (codes "con0") 16 waiting refl refl refl
      (λ e. absurd (omega arith)) refl

local_node_converged-faces_example :
    let j = (local_node_converged con0 0 started).info in
    (j.is_node_converged ≡ true)
    × (mem 3 j.dt_valid_faces ≡ true)
    × Distinct j.dt_valid_faces
    × (j.dt_face_rate_control_enabled ≡ ltb 1 (length j.dt_valid_faces))
    × (j.converged_upstream_tier ≡ [])
unfolding program
local_node_converged-faces_example = local_node_converged-faces 3 con0 0 started refl

nack-IsExcluded_example :
    IsExcluded 1 (handle_path_discovery_nack con0 1 (9 ∷ []) 1 no_route started).info
unfolding program
nack-IsExcluded_example = nack-IsExcluded 1 con0 1 (9 ∷ []) started refl refl (refl, (refl, tt))

run-converged_example :
    let j = (prefix_run con0 (ask 2 9 nexthops ∷ []) refused).info in
    (j.is_node_converged ≡ true)
    × (j.dt_valid_faces ≡ refused.info.dt_valid_faces)
    × (j.dt_face_rate_control_enabled ≡ refused.info.dt_face_rate_control_enabled)
unfolding program
run-converged_example = run-converged con0 (ask 2 9 nexthops ∷ []) refused refl

run-excluded_example :
    mem 4 (prefix_run con0 (ask 1 9 nexthops ∷ []) started).info.valid_upstreams ≡ false
unfolding program
run-excluded_example = run-excluded 4 con0 (ask 1 9 nexthops ∷ []) started refl refl

run-stuck_example :
    let j = (prefix_run con0 (ask 1 9 nexthops ∷ nack 1 [] 3 no_route ∷ []) stuck).info in
    (j.is_pd_frozen ≡ true) × (j.frozen_faces ≡ [])
unfolding program
run-stuck_example = run-stuck con0 (ask 1 9 nexthops ∷ nack 1 [] 3 no_route ∷ []) stuck refl refl

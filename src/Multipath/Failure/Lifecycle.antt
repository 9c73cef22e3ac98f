-- ===== src/Multipath/Failure/Lifecycle.antt =====
-- The life of a scheduled failure: armed once, active at most once, recovered for good.
use mars_icnp.Prelude.{refl, ap, ◌∙◌, ℕ, ◌≤◌, ◌≡◌, true, false, List, [], ◌∷◌, arith}
use mars_icnp.Prelude.Text.{Str}
use mars_icnp.Multipath.Failure.{
  FailureConfig, FailureNodeState, initial_failure_state, arm_dt_failure_after_pd_convergence,
  note_converged, arm_with, insert_all, insert_prefix, dt_failure_snapshot,
}

-- What the other goroutines do to the state of a node: a prefix converges, or it is polled.
pub data FailureEvent : Type 0 where
  converge : ℕ → Str → List ℕ → FailureEvent
  poll : ℕ → FailureEvent

abbrev pub failure_step : FailureConfig → Str → FailureEvent → FailureNodeState → FailureNodeState
failure_step cfg node (converge now prefix faces) st =
    arm_dt_failure_after_pd_convergence cfg node now prefix faces st
failure_step cfg node (poll now) st = (dt_failure_snapshot cfg node now st).1

unfoldable pub failure_run :
    FailureConfig → Str → List FailureEvent → FailureNodeState → FailureNodeState
failure_run cfg node [] st = st
failure_run cfg node (e ∷ es) st = failure_run cfg node es (failure_step cfg node e st)

pub record IsLifecycle (st : FailureNodeState) : Type 0 where
  pub once : st.activation_epoch ≤ 1
  pub armed_first : st.active ≡ true → st.armed ≡ true
  pub not_both : st.active ≡ true → st.recovered ≡ false
  pub counted : st.active ≡ true → st.activation_epoch ≡ 1
  pub fresh : st.active ≡ false → st.recovered ≡ false → st.activation_epoch ≡ 0

initial-IsLifecycle : IsLifecycle initial_failure_state
initial-IsLifecycle = ground arith

note_converged-IsLifecycle :
    (cfg : FailureConfig) (now : ℕ) (st : FailureNodeState)
    → IsLifecycle st
    → st.armed ≡ false
    → IsLifecycle (note_converged cfg now st)
unfolding note_converged arm_with
note_converged-IsLifecycle cfg now st v h = ground arith

arm-IsLifecycle :
    (cfg : FailureConfig) (node : Str) (now : ℕ) (prefix : Str) (faces : List ℕ)
    (st : FailureNodeState)
    → IsLifecycle st
    → IsLifecycle (arm_dt_failure_after_pd_convergence cfg node now prefix faces st)
unfolding arm_dt_failure_after_pd_convergence
arm-IsLifecycle cfg node now prefix faces st v = ground (
  arith,
  note_converged-IsLifecycle cfg now (record st {
    converged_prefixes = insert_prefix prefix st.converged_prefixes;
    candidate_faces = insert_all faces st.candidate_faces;
  }),
)

snapshot-IsLifecycle :
    (cfg : FailureConfig) (node : Str) (now : ℕ) (st : FailureNodeState)
    → IsLifecycle st
    → IsLifecycle (dt_failure_snapshot cfg node now st).1
unfolding dt_failure_snapshot
snapshot-IsLifecycle cfg node now st v = ground arith

step-IsLifecycle :
    (cfg : FailureConfig) (node : Str) (e : FailureEvent) (st : FailureNodeState)
    → IsLifecycle st
    → IsLifecycle (failure_step cfg node e st)
step-IsLifecycle cfg node (converge now prefix faces) st v =
    arm-IsLifecycle cfg node now prefix faces st v
step-IsLifecycle cfg node (poll now) st v = snapshot-IsLifecycle cfg node now st v

run-IsLifecycle :
    (cfg : FailureConfig) (node : Str) (es : List FailureEvent) (st : FailureNodeState)
    → IsLifecycle st
    → IsLifecycle (failure_run cfg node es st)
unfolding failure_run
run-IsLifecycle cfg node [] st v = v
run-IsLifecycle cfg node (e ∷ es) st v =
    run-IsLifecycle cfg node es (failure_step cfg node e st) (step-IsLifecycle cfg node e st v)

-- However prefixes converge and the state is polled, from the initial state: the failure is
-- activated at most once.
pub failure_run-once :
    (cfg : FailureConfig) (node : Str) (es : List FailureEvent)
    → (failure_run cfg node es initial_failure_state).activation_epoch ≤ 1
failure_run-once cfg node es =
    (run-IsLifecycle cfg node es initial_failure_state initial-IsLifecycle).once

recovered_step :
    (cfg : FailureConfig) (node : Str) (e : FailureEvent) (st : FailureNodeState)
    → st.recovered ≡ true
    → st.active ≡ false
    → failure_step cfg node e st ≡ st
unfolding arm_dt_failure_after_pd_convergence dt_failure_snapshot
recovered_step cfg node (converge now prefix faces) st r a = ground arith
recovered_step cfg node (poll now) st r a = ground arith

-- A failure that has recovered is over: no later event changes the state.
pub failure_run-recovered :
    (cfg : FailureConfig) (node : Str) (es : List FailureEvent) (st : FailureNodeState)
    → st.recovered ≡ true
    → st.active ≡ false
    → failure_run cfg node es st ≡ st
unfolding failure_run
failure_run-recovered cfg node [] st r a = refl
failure_run-recovered cfg node (e ∷ es) st r a =
    ap (failure_run cfg node es) (recovered_step cfg node e st r a)
    ∙ failure_run-recovered cfg node es st r a

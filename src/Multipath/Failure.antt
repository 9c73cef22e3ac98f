-- ===== src/Multipath/Failure.antt =====
-- The scheduled face failure of a node: `dtFailureConfig`, `dtFailureNodeState`,
-- `armDtFailureAfterPdConvergence`, `dtFailureSnapshot`, `dtBlockedFace` and the face filters of
-- mars/fw/fw/multipath.go. Times and durations are natural numbers of nanoseconds.
pub mod Lifecycle
pub mod Window
use mars_icnp.Prelude.{
  ℕ, suc, ◌+◌, ◌≡◌, Bool, true, false, not, ◌&&◌, ◌||◌, List, [], ◌∷◌, leb, ltb, ◌==◌,
  if◌then◌else◌, length, get_or, is_empty,
}
use mars_icnp.Prelude.Sets.{insert, delete}
use mars_icnp.Prelude.Text.{Str, codes, has_prefix, str_eq}
use mars_icnp.Multipath.Hops.{sort_ascending}

-- `Mode` is only read to set `Enabled`.
pub record FailureConfig : Type 0 where
  pub enabled : Bool
  pub start_offset : ℕ
  pub end_offset : ℕ
  pub expected_prefixes : ℕ

pub record FailureNodeState : Type 0 where
  pub converged_prefixes : List Str
  pub candidate_faces : List ℕ
  pub armed : Bool
  pub active : Bool
  pub recovered : Bool
  pub start_time : ℕ
  pub end_time : ℕ
  pub failed_face : ℕ
  pub activation_epoch : ℕ

pub record FailureSnapshot : Type 0 where
  pub enabled : Bool
  pub active : Bool
  pub failed_face : ℕ
  pub activation_epoch : ℕ

abbrev pub initial_failure_state : FailureNodeState
initial_failure_state = record {
  converged_prefixes = [];
  candidate_faces = [];
  armed = false;
  active = false;
  recovered = false;
  start_time = 0;
  end_time = 0;
  failed_face = 0;
  activation_epoch = 0;
}

abbrev pub no_snapshot : FailureSnapshot
no_snapshot = record { enabled = false; active = false; failed_face = 0; activation_epoch = 0 }

unfoldable pub dt_failure_eligible_node : Str → Bool
unfolding has_prefix
dt_failure_eligible_node name = has_prefix name (codes "con")

-- Both branches of the source return a copy; the loop drops every occurrence of the blocked face.
unfoldable pub dt_filter_faces_without_failure : List ℕ → ℕ → List ℕ
unfolding delete
dt_filter_faces_without_failure faces blocked =
    if (blocked == 0) || is_empty faces then faces else delete blocked faces

unfoldable pub dt_sorted_face_keys : List ℕ → List ℕ
unfolding sort_ascending
dt_sorted_face_keys faces = sort_ascending faces

-- `m[p] = true` on a map keyed by strings.
unfoldable pub insert_prefix : Str → List Str → List Str
unfolding str_eq
insert_prefix p [] = p ∷ []
insert_prefix p (q ∷ qs) = if str_eq q p then q ∷ qs else q ∷ insert_prefix p qs

-- `for _, face := range faces { set[face] = true }`
unfoldable pub insert_all : List ℕ → List ℕ → List ℕ
unfolding insert
insert_all [] s = s
insert_all (f ∷ fs) s = insert_all fs (insert f s)

-- The end of the method, where the prefix is the last one expected.
arm_with : FailureConfig → ℕ → List ℕ → FailureNodeState → FailureNodeState
arm_with cfg now faces st =
    if leb (length faces) 1 then record st { recovered = true } else record st {
      failed_face = get_or faces 0 0;
      start_time = now + cfg.start_offset;
      end_time = now + cfg.end_offset;
      armed = true;
    }

note_converged : FailureConfig → ℕ → FailureNodeState → FailureNodeState
unfolding arm_with dt_sorted_face_keys
note_converged cfg now st =
    if ltb (length st.converged_prefixes) cfg.expected_prefixes
    then st
    else arm_with cfg now (dt_sorted_face_keys st.candidate_faces) st

unfoldable pub arm_dt_failure_after_pd_convergence :
    FailureConfig → Str → ℕ → Str → List ℕ → FailureNodeState → FailureNodeState
unfolding note_converged insert_prefix insert_all dt_failure_eligible_node
arm_dt_failure_after_pd_convergence cfg node now prefix valid_faces st =
    if not cfg.enabled || not (dt_failure_eligible_node node)
    then st
    else if st.armed || st.recovered
    then st
    else note_converged cfg now (record st {
      converged_prefixes = insert_prefix prefix st.converged_prefixes;
      candidate_faces = insert_all valid_faces st.candidate_faces;
    })

unfoldable pub recover_if_over : ℕ → FailureNodeState → FailureNodeState
recover_if_over now st =
    if st.active && leb st.end_time now then record st { active = false; recovered = true } else st

unfoldable pub start_if_due : ℕ → FailureNodeState → FailureNodeState
start_if_due now st =
    if not st.active && not st.recovered && leb st.start_time now && ltb now st.end_time
    then record st { active = true; activation_epoch = st.activation_epoch + 1 }
    else st

-- The snapshot, and the state that the poll leaves.
unfoldable pub dt_failure_snapshot :
    FailureConfig → Str → ℕ → FailureNodeState → FailureSnapshot × FailureNodeState
unfolding recover_if_over start_if_due dt_failure_eligible_node
dt_failure_snapshot cfg node now st =
    if not cfg.enabled || not (dt_failure_eligible_node node)
    then (no_snapshot, st)
    else if not (st.armed && not (st.failed_face == 0))
    then (record no_snapshot { failed_face = st.failed_face }, st)
    else let st' = start_if_due now (recover_if_over now st) in
      (
        record {
          enabled = true;
          active = st'.active;
          failed_face = st.failed_face;
          activation_epoch = st'.activation_epoch;
        },
        st',
      )

unfoldable pub dt_blocked_face :
    FailureConfig → Str → ℕ → ℕ → FailureNodeState → Bool × FailureNodeState
unfolding dt_failure_snapshot
dt_blocked_face cfg node now face st =
    let (snapshot, st') = dt_failure_snapshot cfg node now st in
    (snapshot.active && (snapshot.failed_face == face), st')

-- ===== src/Multipath/Failure/Window.antt =====
-- Which face fails, and when.
use mars_icnp.Prelude.{
  ℕ, ◌≡◌, ◌≢◌, true, false, List, [], ◌∷◌, ◌==◌, if◌then◌else◌, arith, leb, ◌||◌,
}
use mars_icnp.Prelude.Text.{Str}
use mars_icnp.Prelude.Sets.{mem, mem-delete}
use mars_icnp.Multipath.Failure.{
  FailureConfig, FailureNodeState, dt_failure_snapshot, dt_failure_eligible_node,
  dt_filter_faces_without_failure,
}

-- The filter keeps every face but the blocked one; face 0 blocks nothing.
pub filter-mem :
    (f blocked : ℕ) (faces : List ℕ)
    → mem f (dt_filter_faces_without_failure faces blocked)
      ≡ (if (blocked == f) then (if blocked == 0 then mem f faces else false) else mem f faces)
unfolding dt_filter_faces_without_failure mem
filter-mem f blocked [] = ground arith
filter-mem f blocked (g ∷ faces) = ground (arith, mem-delete f blocked (g ∷ faces))

-- For an armed failure that has not recovered, on an eligible node: the snapshot is active
-- exactly if the poll falls before the end of the window and either the failure was already
-- active or the window has begun.
pub snapshot_active :
    (cfg : FailureConfig) (node : Str) (now : ℕ) (st : FailureNodeState)
    → cfg.enabled ≡ true
    → dt_failure_eligible_node node ≡ true
    → st.armed ≡ true
    → st.failed_face ≢ 0
    → st.recovered ≡ false
    → (dt_failure_snapshot cfg node now st).0.active
      ≡ (if leb st.end_time now then false else (st.active || leb st.start_time now))
unfolding dt_failure_snapshot
snapshot_active cfg node now st on eligible armed face live = ground arith

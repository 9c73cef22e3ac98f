-- ===== src/Transmission/Forward.antt =====
-- An Interest for data: `handleDataTransmissionInterest`, `splitDtShapingReadyFaces`,
-- `shouldProbeDtUnreadyFaceLocked`, `selectDtBootstrapFaceRRLocked` and the loop of
-- `ensureDtControlActivated` of mars/fw/fw/multipath.go, without the log.

pub mod Queued
use mars_icnp.Prelude.{
  ℕ, ◌+◌, ◌%◌, ◌^◌, Bool, true, false, not, ◌&&◌, ◌||◌, Option, some, List, [], ◌∷◌, ◌++◌, leb,
  ◌==◌, length, get_or, is_empty, if◌then◌else◌,
}
use mars_icnp.Prelude.Text.{Str}
use mars_icnp.Prelude.Maps.{find, put}
use mars_icnp.Multipath.Hops.{sort_ascending}
use mars_icnp.Multipath.Failure.{FailureConfig, FailureSnapshot, dt_filter_faces_without_failure}
use mars_icnp.Multipath.State.{PathDiscoveryInfo}
use mars_icnp.Transmission.Floats.{FloatOps}
use mars_icnp.Transmission.Control.{FaceControl, ensure_dt_control_activated}
use mars_icnp.Transmission.Queue.{Item, World, control_of, with_control, enqueue_local_dt_interest}
use mars_icnp.Transmission.Assign.{select_dt_assigned_face_wrr, sync_dt_failure_state}

abbrev pub dt_partial_bootstrap_probe_every : ℕ
dt_partial_bootstrap_probe_every = 8

abbrev pub should_probe_dt_unready_face : PathDiscoveryInfo → Bool × PathDiscoveryInfo
should_probe_dt_unready_face i =
    let counter = (i.dt_bootstrap_probe_counter + 1) % 2 ^ 64 in
    (
      counter % dt_partial_bootstrap_probe_every == 0,
      record i { dt_bootstrap_probe_counter = counter },
    )

unfoldable pub select_dt_bootstrap_face_rr : List ℕ → PathDiscoveryInfo → ℕ × PathDiscoveryInfo
select_dt_bootstrap_face_rr faces i =
    let n = length faces in
    let rr = if leb n i.dt_bootstrap_face_rr then 0 else i.dt_bootstrap_face_rr in
    if is_empty faces
    then (0, i)
    else (get_or faces rr 0, record i { dt_bootstrap_face_rr = (rr + 1) % n })

-- The faces for data, before the failure is taken into account, and whether they are rate
-- controlled.
abbrev pub dt_faces_of : List ℕ → PathDiscoveryInfo → List ℕ
dt_faces_of candidates i =
    if i.is_node_converged && not (is_empty i.dt_valid_faces) then i.dt_valid_faces else candidates

abbrev pub rate_controlled : PathDiscoveryInfo → Bool
rate_controlled i = if i.is_node_converged then i.dt_face_rate_control_enabled else true

module _ {F N : Type 0} (fl : FloatOps F) (threads thread : ℕ) (cfg : FailureConfig) (node : Str)
    (send : ℕ → N → ℕ → Bool) (valid_faces : ℕ → List ℕ) (init_rate : F) where
  open fl use {f_zero, f_lt}

  unfoldable pub activate_faces : ℕ → List ℕ → World F N → World F N
  unfolding ensure_dt_control_activated find put
  activate_faces now [] w = w
  activate_faces now (face ∷ faces) w =
      activate_faces now faces
        (with_control fl threads thread face (ensure_dt_control_activated fl init_rate now) w)

  unfoldable pub is_shaping_ready : World F N → ℕ → Bool
  unfolding find
  is_shaping_ready w face =
      let c = control_of fl threads thread face w in c.activated && f_lt f_zero c.rate

  -- The ready faces and the others.
  unfoldable pub split_dt_shaping_ready_faces : World F N → List ℕ → List ℕ × List ℕ
  unfolding is_shaping_ready
  split_dt_shaping_ready_faces w [] = ([], [])
  split_dt_shaping_ready_faces w (face ∷ faces) =
      let (ready, unready) = split_dt_shaping_ready_faces w faces in
      if is_shaping_ready w face then (face ∷ ready, unready) else (ready, face ∷ unready)

  -- `s.SendInterest` without the queue.
  abbrev pub send_direct : ℕ → N → ℕ → World F N → World F N
  send_direct face packet in_face w = record w {
    sent = if send face packet in_face then w.sent ++ (face, packet) ∷ [] else w.sent;
  }

  -- Once some face is ready and no probe is due: the choice of a face, and the queue.
  unfoldable pub assign_interest : ℕ → N → ℕ → ℕ → List ℕ → World F N → World F N
  unfolding select_dt_assigned_face_wrr enqueue_local_dt_interest
  assign_interest later packet in_face prefix ready w =
      let (face, w') = select_dt_assigned_face_wrr fl threads thread prefix ready w in
      let item : Item N = record {
        packet = packet;
        in_face = in_face;
        owner_thread = thread;
        candidate_faces = ready;
        assigned_face = face;
        enqueue_time = some later;
      } in
      if face == 0 then w' else enqueue_local_dt_interest fl threads thread prefix item w'

  -- Rate-controlled forwarding over some faces.
  unfoldable pub shape_interest :
      ℕ → ℕ → N → ℕ → ℕ → List ℕ → PathDiscoveryInfo → World F N → PathDiscoveryInfo × World F N
  unfolding activate_faces split_dt_shaping_ready_faces select_dt_bootstrap_face_rr assign_interest
  shape_interest now later packet in_face prefix faces i w =
      let w1 = activate_faces now faces w in
      let (ready, unready) = split_dt_shaping_ready_faces w1 faces in
      let (face, i1) = select_dt_bootstrap_face_rr faces i in
      let (due, i2) = should_probe_dt_unready_face i in
      let (probe, i3) = select_dt_bootstrap_face_rr unready i2 in
      if is_empty ready
      then (i1, send_direct face packet in_face w1)
      else if is_empty unready
      then (i, assign_interest later packet in_face prefix ready w1)
      else if due
      then (i3, send_direct probe packet in_face w1)
      else (i2, assign_interest later packet in_face prefix ready w1)

  -- `nexthops` are the faces of the FIB entry; `now` and `later` are the clock at the start and at
  -- the end.
  unfoldable pub handle_data_transmission_interest :
      ℕ → ℕ → N → ℕ → ℕ → List ℕ → PathDiscoveryInfo → World F N → PathDiscoveryInfo × World F N
  unfolding sync_dt_failure_state sort_ascending dt_filter_faces_without_failure shape_interest
  handle_data_transmission_interest now later packet in_face prefix nexthops i w =
      let (failure, w1) = sync_dt_failure_state fl threads thread valid_faces cfg node now w in
      let wanted = dt_faces_of (sort_ascending nexthops) i in
      let faces =
        if failure.active
        then dt_filter_faces_without_failure wanted failure.failed_face
        else wanted in
      if is_empty nexthops
      then (i, w1)
      else if is_empty faces
      then (i, w1)
      else if not (rate_controlled i)
      then (i, send_direct (get_or faces 0 0) packet in_face w1)
      else shape_interest now later packet in_face prefix faces i w1

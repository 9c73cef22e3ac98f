-- ===== src/Transmission/Forward/Queued.antt =====
-- What the handling of an Interest does to the queues and to the choice of probed faces.
use mars_icnp.Prelude.{
  ℕ, ◌<◌, ◌≡◌, ◌≢◌, refl, ◌∙◌, Bool, List, [], ◌∷◌, ◌==◌, get_or, if◌then◌else◌, arith, if_either,
}
use mars_icnp.Prelude.Text.{Str}
use mars_icnp.Multipath.Hops.{sort_ascending}
use mars_icnp.Multipath.Failure.{FailureConfig, dt_filter_faces_without_failure}
use mars_icnp.Multipath.State.{PathDiscoveryInfo}
use mars_icnp.Transmission.Floats.{FloatOps}
use mars_icnp.Transmission.Control.{FaceControl, ensure_dt_control_activated}
use mars_icnp.Transmission.Queue.{World}
use mars_icnp.Transmission.Queue.Balance.{IsBalanced, enqueue-IsBalanced}
use mars_icnp.Transmission.Drain.Constancy.{with_control-demand}
use mars_icnp.Transmission.Assign.{select_dt_assigned_face_wrr, sync_dt_failure_state}
use mars_icnp.Transmission.Assign.Moves.{sync-IsBalanced, select-IsBalanced}
use mars_icnp.Transmission.Forward.{
  activate_faces, split_dt_shaping_ready_faces, assign_interest, shape_interest,
  handle_data_transmission_interest, dt_faces_of,
}

module _ {F : Type 0} (fl : FloatOps F) where
  activated-demand :
      (rate : F) (now t : ℕ) (c : FaceControl F)
      → get_or (ensure_dt_control_activated fl rate now c).demand_by_thread t 0
        ≡ get_or c.demand_by_thread t 0
  unfolding ensure_dt_control_activated
  activated-demand rate now t c = ground arith

module _ {F N : Type 0} (fl : FloatOps F) (threads thread : ℕ) (cfg : FailureConfig) (node : Str)
    (send : ℕ → N → ℕ → Bool) (valid_faces : ℕ → List ℕ) (init_rate : F) (known : thread < threads)
    (f : ℕ) (ne : f ≢ 0) where
  -- The balance of the face `f`.
  abbrev Balanced : World F N → Type 0
  Balanced w = IsBalanced fl threads thread known f w

  activate-Balanced :
      (now : ℕ) (faces : List ℕ) (w : World F N)
      → Balanced w
      → Balanced (activate_faces fl threads thread cfg node send valid_faces init_rate now faces w)
  unfolding activate_faces
  activate-Balanced now [] w b = b
  activate-Balanced now (face ∷ faces) w b = activate-Balanced now faces _ (
      with_control-demand fl threads thread known f face
        (ensure_dt_control_activated fl init_rate now) w
        (activated-demand fl init_rate now thread _)
      ∙ b)

  assign-Balanced :
      (later : ℕ) (packet : N) (in_face prefix : ℕ) (ready : List ℕ) (w : World F N)
      → Balanced w
      → Balanced (
          assign_interest fl threads thread cfg node send valid_faces init_rate later packet in_face
            prefix ready w)
  unfolding assign_interest
  assign-Balanced later packet in_face prefix ready w b =
      let (face, w') = select_dt_assigned_face_wrr fl threads thread prefix ready w in
      let b' = select-IsBalanced fl threads thread valid_faces known f ne prefix ready w b in
      if_either Balanced (face == 0) b'
        (enqueue-IsBalanced fl threads thread known f prefix _ w' ne refl b')

  shape-Balanced :
      (now later : ℕ) (packet : N) (in_face prefix : ℕ) (faces : List ℕ) (i : PathDiscoveryInfo)
      (w : World F N)
      → Balanced w
      → Balanced
          (shape_interest fl threads thread cfg node send valid_faces init_rate now later packet
            in_face prefix faces i w).1
  unfolding shape_interest
  shape-Balanced now later packet in_face prefix faces i w b =
      let w1 = activate_faces fl threads thread cfg node send valid_faces init_rate now faces w in
      let (ready, unready) =
        split_dt_shaping_ready_faces fl threads thread cfg node send valid_faces init_rate w1
          faces in
      let b1 = activate-Balanced now faces w b in
      ground (arith, b1, assign-Balanced later packet in_face prefix ready w1 b1)

  -- Handling an Interest for data keeps the demand for a face (which is not 0) the number of its
  -- queued Interests, whether the Interest is dropped, sent at once or queued, and whatever face
  -- fails meanwhile.
  pub handle-Balanced :
      (now later : ℕ) (packet : N) (in_face prefix : ℕ) (nexthops : List ℕ) (i : PathDiscoveryInfo)
      (w : World F N)
      → IsBalanced fl threads thread known f w
      → IsBalanced fl threads thread known f
          (handle_data_transmission_interest fl threads thread cfg node send valid_faces init_rate
            now later packet in_face prefix nexthops i w).1
  unfolding handle_data_transmission_interest
  handle-Balanced now later packet in_face prefix nexthops i w b =
      let (failure, w1) = sync_dt_failure_state fl threads thread valid_faces cfg node now w in
      let wanted = dt_faces_of (sort_ascending nexthops) i in
      let faces =
        if failure.active
        then dt_filter_faces_without_failure wanted failure.failed_face
        else wanted in
      let b1 = sync-IsBalanced fl threads thread valid_faces known f ne cfg node now w b in
      ground (arith, b1, shape-Balanced now later packet in_face prefix faces i w1 b1)

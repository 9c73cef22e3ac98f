-- ===== src/Transmission/Runs.antt =====
-- The life of a forwarding thread: Interests arrive, ticks of the thread send, budgets of the faces
-- are allocated, and other threads note their demand for the faces.
use mars_icnp.Prelude.{
  ℕ, ◌<◌, ◌≡◌, ◌≢◌, refl, ◌∙◌, Bool, List, [], ◌∷◌, ◌==◌, if◌then◌else◌, if_cases,
}
use mars_icnp.Prelude.Int.{ℤ}
use mars_icnp.Prelude.Text.{Str}
use mars_icnp.Prelude.Maps.{find}
use mars_icnp.Multipath.Failure.{FailureConfig, initial_failure_state}
use mars_icnp.Multipath.State.{PathDiscoveryInfo}
use mars_icnp.Transmission.Floats.{FloatOps}
use mars_icnp.Transmission.Control.{note_dt_thread_demand}
use mars_icnp.Transmission.Budget.{allocate_dt_face_budgets}
use mars_icnp.Transmission.Queue.{World, with_control, control_of}
use mars_icnp.Transmission.Budget.Constancy.{allocate-demand, other-demand}
use mars_icnp.Transmission.Queue.Pending.{demand_at, queued_at}
use mars_icnp.Transmission.Queue.Balance.{IsBalanced}
use mars_icnp.Transmission.Drain.{drain_local_dt_queues}
use mars_icnp.Transmission.Drain.Constancy.{with_control-demand}
use mars_icnp.Transmission.Drain.Spending.{drain_local-bounds}
use mars_icnp.Transmission.Assign.{sync_dt_failure_state}
use mars_icnp.Transmission.Assign.Moves.{sync-IsBalanced}
use mars_icnp.Transmission.Forward.{handle_data_transmission_interest}
use mars_icnp.Transmission.Forward.Queued.{handle-Balanced}

-- `OnTick` is `synced`, the allocations of an epoch of the scheduler, which one thread runs, and
-- `drained`. Whether a send succeeds (`send`) and which faces are valid (`valid_faces`) depend on the
-- time only. The information on the prefix of an Interest is what path discovery left.
pub data ThreadEvent (N : Type 0) : Type 0 where
  arrived : ℕ → ℕ → N → ℕ → ℕ → List ℕ → PathDiscoveryInfo → ThreadEvent N
  synced : ℕ → ThreadEvent N
  drained : ℕ → ThreadEvent N
  -- The face, the time, and whether the failure blocks the face, which the scheduler has polled.
  allocated : ℕ → ℕ → Bool → ThreadEvent N
  -- Another thread (the number) notes a change of its demand for a face.
  other_noted : ℕ → ℕ → ℤ → ThreadEvent N

abbrev pub empty_world : {F N : Type 0} → World F N
empty_world = record {
  controls = [];
  global_queue_len = [];
  queues = [];
  face_seen = [];
  face_order = [];
  face_rr = 0;
  face_known = [];
  face_prefixes = [];
  exec_by_face = [];
  assign_by_prefix = [];
  failure_applied_epoch = 0;
  failure = initial_failure_state;
  sent = [];
}

module _ {F N : Type 0} (fl : FloatOps F) (threads thread : ℕ) (cfg : FailureConfig) (node : Str)
    (send : ℕ → N → ℕ → Bool) (valid_faces : ℕ → List ℕ) (init_rate : F) where
  unfoldable pub thread_event : ThreadEvent N → World F N → World F N
  unfolding handle_data_transmission_interest sync_dt_failure_state drain_local_dt_queues find
      allocate_dt_face_budgets note_dt_thread_demand
  thread_event (arrived now later packet in_face prefix nexthops i) w =
      (handle_data_transmission_interest fl threads thread cfg node send valid_faces init_rate now
        later packet in_face prefix nexthops i w).1
  thread_event (synced now) w =
      (sync_dt_failure_state fl threads thread valid_faces cfg node now w).1
  thread_event (drained now) w = drain_local_dt_queues fl threads thread cfg node send now w
  thread_event (allocated face now blocked) w =
      with_control fl threads thread face (allocate_dt_face_budgets fl threads now blocked) w
  thread_event (other_noted other face delta) w =
      if other == thread
      then w
      else with_control fl threads thread face (note_dt_thread_demand fl threads other delta) w

  unfoldable pub thread_run : List (ThreadEvent N) → World F N → World F N
  unfolding thread_event
  thread_run [] w = w
  thread_run (ev ∷ evs) w = thread_run evs (thread_event ev w)

module _ {F N : Type 0} (fl : FloatOps F) (threads thread : ℕ) (cfg : FailureConfig) (node : Str)
    (send : ℕ → N → ℕ → Bool) (valid_faces : ℕ → List ℕ) (init_rate : F) (known : thread < threads)
    (f : ℕ) (ne : f ≢ 0) where
  event-IsBalanced :
      (ev : ThreadEvent N) (w : World F N)
      → IsBalanced fl threads thread known f w
      → IsBalanced fl threads thread known f
          (thread_event fl threads thread cfg node send valid_faces init_rate ev w)
  unfolding thread_event
  event-IsBalanced (arrived now later packet in_face prefix nexthops i) w b =
      handle-Balanced fl threads thread cfg node send valid_faces init_rate known f ne now later
        packet in_face prefix nexthops i w b
  event-IsBalanced (synced now) w b =
      sync-IsBalanced fl threads thread valid_faces known f ne cfg node now w b
  event-IsBalanced (drained now) w b =
      (drain_local-bounds fl threads thread cfg node send known now f w ne b).0
  event-IsBalanced (allocated face now blocked) w b =
      with_control-demand fl threads thread known f face
        (allocate_dt_face_budgets fl threads now blocked) w
        (allocate-demand fl threads now thread blocked (control_of fl threads thread face w))
      ∙ b
  event-IsBalanced (other_noted other face delta) w b =
      if_cases (IsBalanced fl threads thread known f) (other == thread) (λ _. b)
        (λ q.
          with_control-demand fl threads thread known f face
            (note_dt_thread_demand fl threads other delta) w
            (other-demand fl threads other thread delta (control_of fl threads thread face w) q)
          ∙ b)

  run-keeps :
      (evs : List (ThreadEvent N)) (w : World F N)
      → IsBalanced fl threads thread known f w
      → IsBalanced fl threads thread known f
          (thread_run fl threads thread cfg node send valid_faces init_rate evs w)
  unfolding thread_run
  run-keeps [] w b = b
  run-keeps (ev ∷ evs) w b = run-keeps evs _ (event-IsBalanced ev w b)

  -- From the empty state, whatever Interests arrive, faces fail, budgets are allocated, queues are
  -- drained and other threads note: the demand that the thread has noted for a face (which is not
  -- 0) is the number of its queued Interests assigned to that face.
  pub thread_run-demand :
      (evs : List (ThreadEvent N))
      → let w = thread_run fl threads thread cfg node send valid_faces init_rate evs empty_world in
        demand_at fl threads thread known f w ≡ queued_at fl threads thread known f w
  unfolding find
  thread_run-demand evs = run-keeps evs empty_world refl

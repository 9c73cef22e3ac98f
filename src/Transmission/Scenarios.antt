-- ===== src/Transmission/Scenarios.antt =====
-- One thread that receives Interests and sends them, and each property of its queues at a state of
-- that run.
use mars_icnp.Prelude.{
  ℕ, ◌+◌, ◌≤◌, ◌<◌, ◌≡◌, ◌≢◌, ◌⊎◌, inl, refl, sym, subst, Bool, true, false, Option, none, some,
  List, [], ◌∷◌, length, arith, suc,
}
use mars_icnp.Prelude.Int.{pos}
use mars_icnp.Prelude.Text.{codes}
use mars_icnp.Prelude.Sets.{mem}
use mars_icnp.Prelude.Maps.{find}
use mars_icnp.Multipath.Failure.{FailureConfig, initial_failure_state}
use mars_icnp.Multipath.State.{PathDiscoveryInfo, new_info}
use mars_icnp.Transmission.Control.Demand.{budget_of}
use mars_icnp.Transmission.Budget.{allocate_dt_face_budgets}
use mars_icnp.Transmission.Queue.{
  Item, World, with_control, or_none, control_of, dequeue_dt_interest_for_face_rr,
}
use mars_icnp.Transmission.Queue.Pending.{demand_at, count_items, queued_at}
use mars_icnp.Transmission.Queue.Balance.{IsBalanced}
use mars_icnp.Transmission.Queue.Dequeue.{dequeue-item, dequeue-finds}
use mars_icnp.Transmission.Drain.{drain_dt_interest_for_face, drain_local_dt_queues}
use mars_icnp.Transmission.Drain.Spending.{drain-bounds}
use mars_icnp.Transmission.Assign.{reassign_local_dt_interests_from_failed_face}
use mars_icnp.Transmission.Assign.Moves.{reassign-IsBalanced}
use mars_icnp.Transmission.Forward.{handle_data_transmission_interest}
use mars_icnp.Transmission.Forward.Queued.{handle-Balanced}
use mars_icnp.Transmission.Runs.{
  ThreadEvent, arrived, synced, drained, allocated, other_noted, empty_world, thread_run,
  thread_run-demand,
}
use mars_icnp.Transmission.Tests.{thousandths}

-- What the runs below compute with.
program : Unit {0}
unfolding handle_data_transmission_interest drain_local_dt_queues
    reassign_local_dt_interests_from_failed_face mem find
program = tt

abbrev no_failure : FailureConfig
no_failure = record { enabled = false; start_offset = 0; end_offset = 0; expected_prefixes = 1 }

-- Thread 0 of 2; every packet can be sent; no face is valid by path discovery.
abbrev start : World ℕ ℕ
start = record {
  controls = [];
  global_queue_len = [];
  queues = [];
  face_seen = [];
  face_order = [];
  face_rr = 0;
  face_known = [];
  face_prefixes = [];
  exec_by_face = [];
  assign_by_prefix = [];
  failure_applied_epoch = 0;
  failure = initial_failure_state;
  sent = [];
}

abbrev always : ℕ → ℕ → ℕ → Bool
always face packet in_face = true

abbrev no_faces : ℕ → List ℕ
no_faces prefix = []

abbrev info : PathDiscoveryInfo
info = new_info (codes "a")

abbrev arrive : ℕ → World ℕ ℕ → World ℕ ℕ
arrive packet w =
    (handle_data_transmission_interest thousandths 2 0 no_failure (codes "n1") always no_faces 5000
      10 11 packet 9 7 (4 ∷ 3 ∷ []) info w).1

-- Two Interests of prefix 7, for the faces 3 and 4 of equal rates.
abbrev two : World ℕ ℕ
two = arrive 101 (arrive 100 start)

-- After two seconds the tokens of face 3 are given to the threads.
abbrev granted : World ℕ ℕ
granted =
    with_control thousandths 2 0 3 (allocate_dt_face_budgets thousandths 2 2000000010 false) two

abbrev after_tick : World ℕ ℕ
after_tick = drain_local_dt_queues thousandths 2 0 no_failure (codes "n1") always 2000000020 granted

-- Face 3 has the first Interest, and sends it; face 4 was granted nothing.
queued_then_sent :
    (queued_at thousandths 2 0 (omega arith) 3 two ≡ 1)
    × (queued_at thousandths 2 0 (omega arith) 4 two ≡ 1)
    × (after_tick.sent ≡ (3, 100) ∷ [])
    × (queued_at thousandths 2 0 (omega arith) 3 after_tick ≡ 0)
    × (queued_at thousandths 2 0 (omega arith) 4 after_tick ≡ 1)
unfolding program allocate_dt_face_budgets
queued_then_sent = (refl, refl, refl, refl, refl)

handle-Balanced_example : IsBalanced thousandths 2 0 (omega arith) 3 (arrive 100 start)
unfolding find
handle-Balanced_example =
    handle-Balanced thousandths 2 0 no_failure (codes "n1") always no_faces 5000 (omega arith) 3
      (λ e. absurd (omega arith)) 10 11 100 9 7 (4 ∷ 3 ∷ []) info start refl

thread_known : 0 < 2
thread_known = omega arith

three-nonzero : ◌≢◌ {A = ℕ} 3 0
three-nonzero e = absurd (omega arith)

abbrev HasBalance : World ℕ ℕ → Type 0
HasBalance w = IsBalanced thousandths 2 0 thread_known 3 w

granted-balance : HasBalance granted
unfolding program allocate_dt_face_budgets
granted-balance = refl

abbrev item : Item ℕ
item = record {
  packet = 102;
  in_face = 9;
  owner_thread = 0;
  candidate_faces = 3 ∷ [];
  assigned_face = 3;
  enqueue_time = none;
}

abbrev dequeued : Option (Item ℕ) × World ℕ ℕ
dequeued = dequeue_dt_interest_for_face_rr thousandths 2 0 3 granted

abbrev first : Item ℕ
first = record {
  packet = 100;
  in_face = 9;
  owner_thread = 0;
  candidate_faces = 3 ∷ 4 ∷ [];
  assigned_face = 3;
  enqueue_time = some 11;
}

dequeue-item_example :
    (first.assigned_face ≡ 3)
    × (first.owner_thread ≡ 0)
    × (queued_at thousandths 2 0 thread_known 3 granted
        ≡ suc (queued_at thousandths 2 0 thread_known 3 dequeued.1))
unfolding program allocate_dt_face_budgets
dequeue-item_example =
    dequeue-item thousandths 2 0 thread_known 3 first granted three-nonzero granted-balance refl

abbrev waiting : Item ℕ
waiting = record {
  packet = 101;
  in_face = 9;
  owner_thread = 0;
  candidate_faces = 3 ∷ 4 ∷ [];
  assigned_face = 4;
  enqueue_time = some 11;
}

after_tick_queues : after_tick.queues ≡ (7, waiting ∷ []) ∷ []
unfolding program allocate_dt_face_budgets
after_tick_queues = refl

after_tick-indexed :
    (p : ℕ)
    → (count_items 0 3 (or_none (find p after_tick.queues)) ≡ 0)
      ⊎ (mem p (or_none (find 3 after_tick.face_prefixes)) ≡ true)
unfolding find
after_tick-indexed p =
    inl (
      subst (λ qs. count_items 0 3 (or_none (find p qs)) ≡ 0) (sym after_tick_queues)
        (ground arith))

dequeue-finds_example : queued_at thousandths 2 0 thread_known 3 after_tick ≡ 0
unfolding program allocate_dt_face_budgets
dequeue-finds_example =
    dequeue-finds thousandths 2 0 thread_known 3 after_tick (refl, tt) after_tick-indexed refl

drain-bounds_example :
    let w =
      drain_dt_interest_for_face thousandths 2 0 no_failure
        (codes "n1")
        always
        2000000020
        3
        granted in
    HasBalance w
    × (length w.sent ≤ length granted.sent + 64)
    × (length w.sent
        ≤ length granted.sent + budget_of thousandths (control_of thousandths 2 0 3 granted) 0)
drain-bounds_example =
    drain-bounds thousandths 2 0 no_failure (codes "n1") always thread_known 2000000020 3 3 granted
      three-nonzero granted-balance

reassign-IsBalanced_example :
    HasBalance (reassign_local_dt_interests_from_failed_face thousandths 2 0 no_faces 4 granted).1
reassign-IsBalanced_example =
    reassign-IsBalanced thousandths 2 0 no_faces thread_known 3 three-nonzero 4 granted
      granted-balance

-- The Interest for the failed face 4 moves to face 3.
moved :
    queued_at thousandths 2 0 thread_known 3
      (reassign_local_dt_interests_from_failed_face thousandths 2 0 no_faces 4 granted).1
    ≡ 2
unfolding program allocate_dt_face_budgets
moved = refl

-- Two arrivals, budgets for face 3, an Interest of another thread, and a tick.
abbrev events : List (ThreadEvent ℕ)
events =
    arrived 10 11 100 9 7 (4 ∷ 3 ∷ []) info
    ∷ arrived 12 13 101 9 7 (4 ∷ 3 ∷ []) info
    ∷ allocated 3 2000000010 false
    ∷ other_noted 1 4 (pos 1)
    ∷ synced 2000000020
    ∷ drained 2000000020
    ∷ []

abbrev after_events : World ℕ ℕ
after_events =
    thread_run thousandths 2 0 no_failure (codes "n1") always no_faces 5000 events empty_world

events_sent : after_events.sent ≡ (3, 100) ∷ []
unfolding program allocate_dt_face_budgets thread_run
events_sent = refl

thread_run-demand_example :
    demand_at thousandths 2 0 thread_known 4 after_events
    ≡ queued_at thousandths 2 0 thread_known 4 after_events
thread_run-demand_example =
    thread_run-demand thousandths 2 0 no_failure (codes "n1") always no_faces 5000 thread_known 4
      (λ e. absurd (omega arith)) events

-- ===== src/Transmission/Drain.antt =====
-- The sending of queued Interests: `drainDtInterestForFace` and `drainLocalDtQueues` of
-- mars/fw/fw/multipath.go, without the log. `send` is what `SendInterest` answers.

pub mod Constancy
pub mod Spending
use mars_icnp.Prelude.{
  ℕ, zero, suc, ◌+◌, ◌-◌, ◌%◌, ◌^◌, Bool, true, false, not, ◌&&◌, ◌||◌, Option, none, some, List,
  [], ◌∷◌, ◌++◌, ltb, leb, ◌==◌, length, get_or, if◌then◌else◌,
}
use mars_icnp.Prelude.Text.{Str}
use mars_icnp.Prelude.Maps.{put}
use mars_icnp.Multipath.Failure.{FailureConfig, dt_blocked_face}
use mars_icnp.Transmission.Floats.{FloatOps}
use mars_icnp.Transmission.Control.{
  FaceControl, max_of, take_dt_thread_budget, local_pending_interests_for_face,
  note_dt_round_scheduler_event, note_dt_face_sent_packets,
}
use mars_icnp.Transmission.Queue.{
  Item, ExecState, World, control_of, with_control, exec_of, set_exec,
  dequeue_dt_interest_for_face_rr,
}

abbrev pub dt_scheduler_max_send_per_tick : ℕ
dt_scheduler_max_send_per_tick = 64

abbrev pub dt_scheduler_max_faces_per_tick : ℕ
dt_scheduler_max_faces_per_tick = 16

-- The locals of the loop: used, sendFail and emptyBudget.
pub record Tally : Type 0 where
  pub used : ℕ
  pub send_fail : ℕ
  pub empty_budget : ℕ

-- The age of an item in nanoseconds, 0 if the clock went back.
abbrev pub note_age : ℕ → Option ℕ → ExecState → ExecState
note_age now none e = e
note_age now (some t) e = record e {
  send_age_total = e.send_age_total + (now - t);
  send_age_max = max_of e.send_age_max (now - t);
  stale_sends = if leb 100000000 (now - t) then (e.stale_sends + 1) % 2 ^ 64 else e.stale_sends;
}

module _ {F N : Type 0} (fl : FloatOps F) (threads thread : ℕ) (cfg : FailureConfig) (node : Str)
    (send : ℕ → N → ℕ → Bool) where
  -- One item that was dequeued for the face: whether it was sent.
  unfoldable pub send_item : ℕ → ℕ → Item N → World F N → Bool × World F N
  unfolding put
  send_item now face item w =
      let ok = send face item.packet item.in_face in
      let e = exec_of fl threads thread face w in
      let e' = if ok then record e { sent_shaped = (e.sent_shaped + 1) % 2 ^ 64 } else e in
      (
        ok,
        record (set_exec fl threads thread face (note_age now item.enqueue_time e') w) {
          sent = if ok then w.sent ++ (face, item.packet) ∷ [] else w.sent;
        },
      )

  abbrev pub count_sent : Bool → Tally → Tally
  count_sent ok t =
      if ok then record t { used = suc t.used } else record t { send_fail = suc t.send_fail }

  abbrev pub no_item : ℕ → World F N → World F N
  no_item face w =
      let e = exec_of fl threads thread face w in
      set_exec fl threads thread face
        (record e { empty_dequeues = (e.empty_dequeues + 1) % 2 ^ 64 }) w

  -- The loop, with the budget that is left.
  unfoldable pub spend_budget : ℕ → ℕ → ℕ → World F N → Tally × World F N
  unfolding dequeue_dt_interest_for_face_rr send_item put
  spend_budget now face zero w = (record { used = 0; send_fail = 0; empty_budget = 0 }, w)
  spend_budget now face (suc left) w =
      let (o, w') = dequeue_dt_interest_for_face_rr fl threads thread face w in
      elim o [
        | none ↦ (record { used = 0; send_fail = 0; empty_budget = suc left }, no_item face w')
        | some item ↦
            let (ok, w'') = send_item now face item w' in
            let (t, w''') = spend_budget now face left w'' in (count_sent ok t, w''')
      ]

  abbrev pub note_event : ℕ → ℕ → ℕ → Bool → Tally → World F N → World F N
  note_event face pending granted zero_budget t w =
      with_control fl threads thread face
        (note_dt_round_scheduler_event fl threads thread pending granted t.used zero_budget
          t.empty_budget t.send_fail)
        w

  -- The rest of the method for a face that is not blocked and has pending Interests.
  unfoldable pub drain_pending : ℕ → ℕ → ℕ → World F N → World F N
  unfolding take_dt_thread_budget spend_budget note_dt_face_sent_packets put
      note_dt_round_scheduler_event
  drain_pending now face pending w =
      let e = exec_of fl threads thread face w in
      let e' = record e { tick_count = (e.tick_count + 1) % 2 ^ 64 } in
      let (budget, c) =
        take_dt_thread_budget fl threads thread dt_scheduler_max_send_per_tick
          (control_of fl threads thread face w) in
      let w1 =
        with_control fl threads thread face (λ _. c) (set_exec fl threads thread face e' w) in
      let (t, w2) = spend_budget now face budget w1 in
      let w3 = with_control fl threads thread face (note_dt_face_sent_packets fl t.used) w2 in
      let missed =
        set_exec fl threads thread face
          (record e' { token_misses = (e'.token_misses + 1) % 2 ^ 64 }) w1 in
      if budget == 0
      then note_event face pending 0 true (record { used = 0; send_fail = 0; empty_budget = 0 })
          missed
      else note_event face pending budget false t w3

  unfoldable pub drain_dt_interest_for_face : ℕ → ℕ → World F N → World F N
  unfolding dt_blocked_face local_pending_interests_for_face drain_pending
  drain_dt_interest_for_face now face w =
      let (blocked, st) = dt_blocked_face cfg node now face w.failure in
      let w' = record w { failure = st } in
      let pending =
        local_pending_interests_for_face fl threads thread (control_of fl threads thread face w') in
      if blocked || (pending == 0) then w' else drain_pending now face pending w'

  -- The loop over the faces; the slice does not change in it.
  unfoldable pub drain_visits : ℕ → ℕ → World F N → World F N
  unfolding drain_dt_interest_for_face
  drain_visits now zero w = w
  drain_visits now (suc visits) w =
      let face = get_or w.face_order (w.face_rr % length w.face_order) 0 in
      drain_visits now visits
        (drain_dt_interest_for_face now face (record w { face_rr = (w.face_rr + 1) % 2 ^ 64 }))

  unfoldable pub drain_local_dt_queues : ℕ → World F N → World F N
  unfolding drain_visits
  drain_local_dt_queues now w =
      let n = length w.face_order in
      drain_visits now
        (if ltb dt_scheduler_max_faces_per_tick n then dt_scheduler_max_faces_per_tick else n) w

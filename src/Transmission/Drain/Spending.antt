-- ===== src/Transmission/Drain/Spending.antt =====
-- A thread sends no more than its budget, and sending keeps the demand in line with the queues.
use mars_icnp.Prelude.{
  ℕ, zero, suc, ◌+◌, ◌*◌, ◌%◌, ◌^◌, ◌≤◌, ◌<◌, ◌≡◌, ◌≢◌, inl, inr, refl, ◌∙◌, Bool, true, false,
  ◌||◌, [], ◌∷◌, ltb, ◌==◌, length, get_or, length-append, if◌then◌else◌, arith, Option-cases,
  if_either,
}
use mars_icnp.Prelude.Text.{Str}
use mars_icnp.Multipath.Failure.{FailureConfig, dt_blocked_face}
use mars_icnp.Transmission.Floats.{FloatOps}
use mars_icnp.Transmission.Control.{
  take_dt_thread_budget, note_dt_round_scheduler_event, note_dt_face_sent_packets,
  local_pending_interests_for_face,
}
use mars_icnp.Transmission.Control.Demand.{budget_of}
use mars_icnp.Transmission.Queue.{
  World, control_of, with_control, exec_of, set_exec, dequeue_dt_interest_for_face_rr,
}
use mars_icnp.Transmission.Queue.Balance.{IsBalanced}
use mars_icnp.Transmission.Queue.Dequeue.{dequeue-IsBalanced}
use mars_icnp.Transmission.Drain.{
  Tally, send_item, spend_budget, drain_pending, drain_dt_interest_for_face, drain_visits,
  drain_local_dt_queues, dt_scheduler_max_send_per_tick, dt_scheduler_max_faces_per_tick,
  note_event,
}
use mars_icnp.Transmission.Drain.Constancy.{
  take-demand, take-bound, event-demand, with_control-demand, dequeue-sent,
}

module _ {F N : Type 0} (fl : FloatOps F) (threads thread : ℕ) (cfg : FailureConfig) (node : Str)
    (send : ℕ → N → ℕ → Bool) (known : thread < threads) where
  -- What spending a budget does.
  record Spends (f left : ℕ) (w : World F N) (r : Tally × World F N) : Type 0 where
    all : r.0.used + r.0.send_fail + r.0.empty_budget ≡ left
    sent : length r.1.sent ≡ length w.sent + r.0.used
    balance : IsBalanced fl threads thread known f r.1

  spend-Spends :
      (now f face left : ℕ) (w : World F N)
      → f ≢ 0
      → IsBalanced fl threads thread known f w
      → Spends f left w (spend_budget fl threads thread cfg node send now face left w)
  unfolding spend_budget send_item
  spend-Spends now f face zero w ne b = record { all = refl; sent = omega arith; balance = b }
  spend-Spends now f face (suc left) w ne b =
      let (o, w') = dequeue_dt_interest_for_face_rr fl threads thread face w in
      let b' = dequeue-IsBalanced fl threads thread known f face w ne b in
      let s = dequeue-sent fl threads thread known face w in
      elim (Option-cases o) [
        | inl n ↦
            rw (n, spend_budget)
              (record { all = omega arith; sent = ground (arith, s); balance = b' })
        | inr (item, e) ↦
            let (ok, w'') = send_item fl threads thread cfg node send now face item w' in
            let p = spend-Spends now f face left w'' ne b' in
            let l = length-append w'.sent ((face, item.packet) ∷ []) in
            rw (e, spend_budget)
              (record {
                all = ground (arith, p.all);
                sent = ground (arith, p.sent, s, l);
                balance = p.balance;
              })
      ]

  -- What draining a face with pending Interests does, for the balance of the face `f`.
  abbrev Drained : ℕ → ℕ → World F N → World F N → Type 0
  Drained f face w w' =
      IsBalanced fl threads thread known f w'
      × (length w'.sent ≤ length w.sent + dt_scheduler_max_send_per_tick)
      × (length w'.sent ≤ length w.sent + budget_of fl (control_of fl threads thread face w) thread)

  event-balance :
      (f face pending granted : ℕ) (zero_budget : Bool) (t : Tally) (w : World F N)
      → IsBalanced fl threads thread known f w
      → IsBalanced fl threads thread known f
          (note_event fl threads thread cfg node send face pending granted zero_budget t w)
  event-balance f face pending granted z t w b =
      with_control-demand fl threads thread known f face
        (note_dt_round_scheduler_event fl threads thread pending granted t.used z t.empty_budget
          t.send_fail)
        w
        (event-demand fl threads thread pending granted t.used z t.empty_budget t.send_fail
          (control_of fl threads thread face w))
      ∙ b

  drain_pending-Drained :
      (now f face pending : ℕ) (w : World F N)
      → f ≢ 0
      → IsBalanced fl threads thread known f w
      → Drained f face w (drain_pending fl threads thread cfg node send now face pending w)
  unfolding drain_pending
  drain_pending-Drained now f face pending w ne b =
      let c0 = control_of fl threads thread face w in
      let e = exec_of fl threads thread face w in
      let e' = record e { tick_count = (e.tick_count + 1) % 2 ^ 64 } in
      let w0 = set_exec fl threads thread face e' w in
      let (budget, c) = take_dt_thread_budget fl threads thread dt_scheduler_max_send_per_tick c0 in
      let w1 = with_control fl threads thread face (λ _. c) w0 in
      let b1 =
        with_control-demand fl threads thread known f face (λ _. c) w0
          (take-demand fl threads thread dt_scheduler_max_send_per_tick c0)
        ∙ b in
      let bound = take-bound fl threads thread dt_scheduler_max_send_per_tick c0 in
      let p = spend-Spends now f face budget w1 ne b1 in
      let (t, w2) = spend_budget fl threads thread cfg node send now face budget w1 in
      let w3 = with_control fl threads thread face (note_dt_face_sent_packets fl t.used) w2 in
      let b3 =
        with_control-demand fl threads thread known f face (note_dt_face_sent_packets fl t.used) w2
          refl
        ∙ p.balance in
      let zero : Tally = record { used = 0; send_fail = 0; empty_budget = 0 } in
      let missed =
        set_exec fl threads thread face
          (record e' { token_misses = (e'.token_misses + 1) % 2 ^ 64 }) w1 in
      if_either (Drained f face w) (budget == 0)
        {x = note_event fl threads thread cfg node send face pending 0 true zero missed}
        {y = note_event fl threads thread cfg node send face pending budget false t w3}
        (event-balance f face pending 0 true zero missed b1, omega arith, omega arith)
        (
          event-balance f face pending budget false t w3 b3,
          omega (arith, p.all, p.sent, bound.0),
          omega (arith, p.all, p.sent, bound.1),
        )

  -- Draining a face, blocked or not, keeps the demand for every face `f` (which is not 0) the
  -- number of its queued Interests, and sends no more Interests than the limit of a tick, nor more
  -- than the thread's budget for the face.
  pub drain-bounds :
      (now f face : ℕ) (w : World F N)
      → f ≢ 0
      → IsBalanced fl threads thread known f w
      → let w' = drain_dt_interest_for_face fl threads thread cfg node send now face w in
        IsBalanced fl threads thread known f w'
        × (length w'.sent ≤ length w.sent + dt_scheduler_max_send_per_tick)
        × (length w'.sent
            ≤ length w.sent + budget_of fl (control_of fl threads thread face w) thread)
  unfolding drain_dt_interest_for_face
  drain-bounds now f face w ne b =
      let (blocked, st) = dt_blocked_face cfg node now face w.failure in
      let w' = record w { failure = st } in
      let pending =
        local_pending_interests_for_face fl threads thread (control_of fl threads thread face w') in
      if_either (Drained f face w) (blocked || (pending == 0)) {x = w'}
        {y = drain_pending fl threads thread cfg node send now face pending w'}
        (b, omega arith, omega arith) (drain_pending-Drained now f face pending w' ne b)

  drain_visits-IsBalanced :
      (now f visits : ℕ) (w : World F N)
      → f ≢ 0
      → IsBalanced fl threads thread known f w
      → IsBalanced fl threads thread known f
          (drain_visits fl threads thread cfg node send now visits w)
        × (length (drain_visits fl threads thread cfg node send now visits w).sent
            ≤ length w.sent + dt_scheduler_max_send_per_tick * visits)
  unfolding drain_visits
  drain_visits-IsBalanced now f zero w ne b = (b, omega arith)
  drain_visits-IsBalanced now f (suc visits) w ne b =
      let face = get_or w.face_order (w.face_rr % length w.face_order) 0 in
      let w0 = record w { face_rr = (w.face_rr + 1) % 2 ^ 64 } in
      let p = drain-bounds now f face w0 ne b in
      let w1 = drain_dt_interest_for_face fl threads thread cfg node send now face w0 in
      let q = drain_visits-IsBalanced now f visits w1 ne p.0 in (q.0, omega (arith, q.1, p.1))

  -- So does a tick of the thread, which sends at most 1024 Interests.
  pub drain_local-bounds :
      (now f : ℕ) (w : World F N)
      → f ≢ 0
      → IsBalanced fl threads thread known f w
      → let w' = drain_local_dt_queues fl threads thread cfg node send now w in
        IsBalanced fl threads thread known f w' × (length w'.sent ≤ length w.sent + 1024)
  unfolding drain_local_dt_queues
  drain_local-bounds now f w ne b =
      let n = length w.face_order in
      let visits =
        if ltb dt_scheduler_max_faces_per_tick n then dt_scheduler_max_faces_per_tick else n in
      let q = drain_visits-IsBalanced now f visits w ne b in (q.0, ground (arith, q.1))

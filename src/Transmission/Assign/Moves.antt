-- ===== src/Transmission/Assign/Moves.antt =====
-- Moving Interests away from a failed face keeps the demand in line with the queues.
use mars_icnp.Prelude.{ℕ, ◌+◌, ◌≤◌, ◌<◌, ◌≡◌, ◌≢◌, List, [], ◌∷◌, arith}
use mars_icnp.Prelude.Int.{pos, negsuc}
use mars_icnp.Prelude.Text.{Str}
use mars_icnp.Multipath.Failure.{FailureConfig, dt_failure_snapshot}
use mars_icnp.Transmission.Floats.{FloatOps}
use mars_icnp.Transmission.Queue.{Item, World, note_demand}
use mars_icnp.Transmission.Queue.Pending.{
  count_item, count_items, count_queues, demand_at, demand-note,
}
use mars_icnp.Transmission.Queue.Balance.{IsBalanced, eligible-keeps}
use mars_icnp.Transmission.Assign.{
  select_dt_assigned_face_wrr, survivors_of, reassign_item, reassign_items, reassign_queues,
  reassign_local_dt_interests_from_failed_face, sync_dt_failure_state,
}

module _ {F N : Type 0} (fl : FloatOps F) (threads thread : ℕ) where
  select-controls :
      (prefix : ℕ) (faces : List ℕ) (w : World F N)
      → (select_dt_assigned_face_wrr fl threads thread prefix faces w).1.controls ≡ w.controls
  unfolding select_dt_assigned_face_wrr
  select-controls prefix faces w = ground arith

module _ {F N : Type 0} (fl : FloatOps F) (threads thread : ℕ) (valid_faces : ℕ → List ℕ)
    (known : thread < threads) (f : ℕ) (ne : f ≢ 0) where
  pub select-IsBalanced :
      (prefix : ℕ) (faces : List ℕ) (w : World F N)
      → IsBalanced fl threads thread known f w
      → IsBalanced fl threads thread known f
          (select_dt_assigned_face_wrr fl threads thread prefix faces w).1
  unfolding select_dt_assigned_face_wrr
  select-IsBalanced prefix faces w b = ground arith

  reassign_item-demand :
      (blocked prefix : ℕ) (item : Item N) (w : World F N)
      → count_item thread f item ≤ demand_at fl threads thread known f w
      → let (moved, j, w') = reassign_item fl threads thread valid_faces blocked prefix item w in
        demand_at fl threads thread known f w' + count_item thread f item
        ≡ demand_at fl threads thread known f w + count_item thread f j
  unfolding reassign_item
  reassign_item-demand blocked prefix item w l =
      let survivors = survivors_of fl threads thread valid_faces blocked prefix item in
      let (face, w1) = select_dt_assigned_face_wrr fl threads thread prefix survivors w in
      let w2 = note_demand fl threads thread blocked (negsuc 0) w1 in
      let w3 = note_demand fl threads thread face (pos 1) w2 in
      ground (
        arith,
        select-controls fl threads thread prefix survivors w,
        demand-note fl threads thread known f blocked (negsuc 0) w1,
        demand-note fl threads thread known f face (pos 1) w2,
        eligible-keeps fl threads thread known face prefix w3,
      )

  reassign_items-demand :
      (blocked prefix : ℕ) (is : List (Item N)) (w : World F N)
      → count_items thread f is ≤ demand_at fl threads thread known f w
      → let (n, js, w') = reassign_items fl threads thread valid_faces blocked prefix is w in
        demand_at fl threads thread known f w' + count_items thread f is
        ≡ demand_at fl threads thread known f w + count_items thread f js
  unfolding reassign_items
  reassign_items-demand blocked prefix [] w l = omega arith
  reassign_items-demand blocked prefix (i ∷ is) w l =
      let (moved, j, w') = reassign_item fl threads thread valid_faces blocked prefix i w in
      let p = reassign_item-demand blocked prefix i w (omega arith) in
      let q = reassign_items-demand blocked prefix is w' (omega (arith, p)) in omega (arith, p, q)

  reassign_queues-demand :
      (blocked : ℕ) (qs : List (ℕ × List (Item N))) (w : World F N)
      → count_queues thread f qs ≤ demand_at fl threads thread known f w
      → let (n, rs, w') = reassign_queues fl threads thread valid_faces blocked qs w in
        demand_at fl threads thread known f w' + count_queues thread f qs
        ≡ demand_at fl threads thread known f w + count_queues thread f rs
  unfolding reassign_queues
  reassign_queues-demand blocked [] w l = omega arith
  reassign_queues-demand blocked ((p, is) ∷ qs) w l =
      let (n, js, w') = reassign_items fl threads thread valid_faces blocked p is w in
      let a = reassign_items-demand blocked p is w (omega arith) in
      let b = reassign_queues-demand blocked qs w' (omega (arith, a)) in omega (arith, a, b)

  -- Moving the Interests of a failed face to other faces keeps the demand for a face (which is not
  -- 0) the number of its queued Interests, for the failed face and for every other.
  pub reassign-IsBalanced :
      (blocked : ℕ) (w : World F N)
      → IsBalanced fl threads thread known f w
      → IsBalanced fl threads thread known f
          (reassign_local_dt_interests_from_failed_face fl threads thread valid_faces blocked w).1
  unfolding reassign_local_dt_interests_from_failed_face
  reassign-IsBalanced blocked w b =
      ground (arith, reassign_queues-demand blocked w.queues w (omega (arith, b)))

  -- So does the synchronization with the state of the failure, at any time.
  pub sync-IsBalanced :
      (cfg : FailureConfig) (node : Str) (now : ℕ) (w : World F N)
      → IsBalanced fl threads thread known f w
      → IsBalanced fl threads thread known f
          (sync_dt_failure_state fl threads thread valid_faces cfg node now w).1
  unfolding sync_dt_failure_state
  sync-IsBalanced cfg node now w b =
      let (snapshot, st) = dt_failure_snapshot cfg node now w.failure in
      ground (arith, reassign-IsBalanced snapshot.failed_face (record w { failure = st }))

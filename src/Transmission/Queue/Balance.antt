-- ===== src/Transmission/Queue/Balance.antt =====
-- Each operation on the queues keeps the demand equal to the number of queued Interests.
use mars_icnp.Prelude.{ℕ, ◌+◌, ◌<◌, ◌≡◌, ◌≢◌, some, List, [], ◌∷◌, ◌++◌, arith}
use mars_icnp.Prelude.Int.{pos, negsuc}
use mars_icnp.Prelude.Maps.{find, put}
use mars_icnp.Transmission.Floats.{FloatOps}
use mars_icnp.Transmission.Queue.{
  Item, World, or_none, take_item, pop_item, enqueue_local_dt_interest,
  note_local_prefix_eligible_for_face, note_dt_global_prefix_queue,
}
use mars_icnp.Transmission.Queue.Pending.{
  count_item, count-append, count-put, take_item-count, demand_at, queued_at, demand-note,
}

module _ {F N : Type 0} (fl : FloatOps F) (threads thread : ℕ) (known : thread < threads) where
  pub eligible-keeps :
      (face prefix : ℕ) (w : World F N)
      → let w' = note_local_prefix_eligible_for_face fl threads thread face prefix w in
        (w'.controls ≡ w.controls) × (w'.queues ≡ w.queues)
  unfolding note_local_prefix_eligible_for_face
  eligible-keeps face prefix w = ground arith

  -- The demand for the face is the number of its queued Interests.
  abbrev pub IsBalanced : ℕ → World F N → Type 0
  IsBalanced f w = demand_at fl threads thread known f w ≡ queued_at fl threads thread known f w

  -- Queueing an Interest that the thread owns, assigned or not, keeps the demand for a face (which
  -- is not 0) the number of its queued Interests.
  pub enqueue-IsBalanced :
      (f prefix : ℕ) (item : Item N) (w : World F N)
      → f ≢ 0
      → item.owner_thread ≡ thread
      → IsBalanced f w
      → IsBalanced f (enqueue_local_dt_interest fl threads thread prefix item w)
  unfolding enqueue_local_dt_interest note_dt_global_prefix_queue
  enqueue-IsBalanced f prefix item w ne own b =
      let queue = or_none (find prefix w.queues) ++ item ∷ [] in
      let w' =
        note_dt_global_prefix_queue fl threads thread prefix (pos 1)
          (record w { queues = put prefix queue w.queues }) in
      let g = item.assigned_face in
      let w'' = note_local_prefix_eligible_for_face fl threads thread g prefix w' in
      ground (
        arith,
        eligible-keeps g prefix w',
        demand-note fl threads thread known f g (pos 1) w'',
        count-put thread f prefix queue w.queues,
        count-append thread f (or_none (find prefix w.queues)) item,
      )

  pub pop-IsBalanced :
      (f face idx prefix : ℕ) (item : Item N) (rest : List (Item N)) (w : World F N)
      → f ≢ 0
      → take_item thread face (or_none (find prefix w.queues)) ≡ some (item, rest)
      → IsBalanced f w
      → IsBalanced f (pop_item fl threads thread face idx prefix item rest w)
        × (queued_at fl threads thread known f w
            ≡ count_item thread f item
              + queued_at fl threads thread known f
                  (pop_item fl threads thread face idx prefix item rest w))
  unfolding pop_item note_dt_global_prefix_queue
  pop-IsBalanced f face idx prefix item rest w ne e b =
      let w' =
        note_dt_global_prefix_queue fl threads thread prefix (negsuc 0)
          (record w { queues = put prefix rest w.queues }) in
      ground (
        arith,
        take_item-count thread face f (or_none (find prefix w.queues)) rest item e,
        demand-note fl threads thread known f item.assigned_face (negsuc 0) w',
        count-put thread f prefix rest w.queues,
      )

-- ===== src/Transmission/Drain/Constancy.antt =====
-- What taking budgets, noting events and dequeueing leave as it is.
use mars_icnp.Prelude.{
  ℕ, ◌≤◌, ◌<◌, ◌≡◌, inl, inr, refl, Bool, List, [], ◌∷◌, get_or, arith, Option-cases,
}
use mars_icnp.Prelude.Maps.{find, find-put}
use mars_icnp.Transmission.Floats.{FloatOps}
use mars_icnp.Transmission.Control.{
  FaceControl, take_dt_thread_budget, note_dt_round_scheduler_event,
}
use mars_icnp.Transmission.Control.Demand.{ensure-demand, ensure-budget, budget_of}
use mars_icnp.Transmission.Queue.{
  Item, World, or_none, take_item, pop_item, control_of, with_control, search_prefixes,
  dequeue_dt_interest_for_face_rr, note_dt_global_prefix_queue,
}
use mars_icnp.Transmission.Queue.Pending.{demand_at}

module _ {F : Type 0} (fl : FloatOps F) (threads thread : ℕ) where
  -- The demand of the thread, which most operations on a control keep.
  abbrev pub own_demand : FaceControl F → ℕ
  own_demand c = get_or c.demand_by_thread thread 0

  pub take-demand :
      (max : ℕ) (c : FaceControl F)
      → own_demand (take_dt_thread_budget fl threads thread max c).1 ≡ own_demand c
  unfolding take_dt_thread_budget
  take-demand max c = ground (arith, ensure-demand fl threads thread c)

  pub take-bound :
      (max : ℕ) (c : FaceControl F)
      → ((take_dt_thread_budget fl threads thread max c).0 ≤ max)
        × ((take_dt_thread_budget fl threads thread max c).0 ≤ budget_of fl c thread)
  unfolding take_dt_thread_budget
  take-bound max c = ground (arith, ensure-budget fl threads thread c)

  pub event-demand :
      (pending granted used : ℕ) (zero_budget : Bool) (empty fail : ℕ) (c : FaceControl F)
      → own_demand (
          note_dt_round_scheduler_event fl threads thread pending granted used zero_budget empty
            fail c)
        ≡ own_demand c
  unfolding note_dt_round_scheduler_event
  event-demand pending granted used z empty fail c =
      ground (arith, ensure-demand fl threads thread c)

module _ {F N : Type 0} (fl : FloatOps F) (threads thread : ℕ) (known : thread < threads) where
  pub with_control-demand :
      (f g : ℕ) (op : FaceControl F → FaceControl F) (w : World F N)
      → get_or (op (control_of fl threads thread g w)).demand_by_thread thread 0
        ≡ get_or (control_of fl threads thread g w).demand_by_thread thread 0
      → demand_at fl threads thread known f (with_control fl threads thread g op w)
        ≡ demand_at fl threads thread known f w
  with_control-demand f g op w e =
      ground (arith, find-put f g (op (control_of fl threads thread g w)) w.controls)

  pub pop-sent :
      (face idx prefix : ℕ) (item : Item N) (rest : List (Item N)) (w : World F N)
      → (pop_item fl threads thread face idx prefix item rest w).sent ≡ w.sent
  unfolding pop_item note_dt_global_prefix_queue
  pop-sent face idx prefix item rest w = ground arith

  pub search-sent :
      (face : ℕ) (prefixes idxs : List ℕ) (w : World F N)
      → (search_prefixes fl threads thread face prefixes idxs w).1.sent ≡ w.sent
  unfolding search_prefixes
  search-sent face prefixes [] w = refl
  search-sent face prefixes (idx ∷ idxs) w =
      let prefix = get_or prefixes idx 0 in
      elim (Option-cases (take_item thread face (or_none (find prefix w.queues)))) [
        | inl n ↦ rw (n, search_prefixes) (search-sent face prefixes idxs w)
        | inr ((item, rest), e) ↦ rw (e, search_prefixes) (pop-sent face idx prefix item rest w)
      ]

  pub dequeue-sent :
      (face : ℕ) (w : World F N)
      → (dequeue_dt_interest_for_face_rr fl threads thread face w).1.sent ≡ w.sent
  unfolding dequeue_dt_interest_for_face_rr
  dequeue-sent face w = search-sent face _ _ w

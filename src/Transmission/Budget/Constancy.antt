-- ===== src/Transmission/Budget/Constancy.antt =====
-- Giving budgets to threads does not change their demand.
use mars_icnp.Prelude.{
  ℕ, zero, suc, ◌-◌, ◌≡◌, inl, inr, refl, Bool, false, none, List, [], ◌∷◌, ◌==◌, length, get_or,
  get_or-set, arith, Option-cases,
}
use mars_icnp.Prelude.Int.{ℤ}
use mars_icnp.Transmission.Floats.{FloatOps}
use mars_icnp.Transmission.Control.{
  FaceControl, note_dt_thread_demand, set_demand, add_delta, ensure_thread_slots,
  clear_dt_face_blocked_state,
}
use mars_icnp.Transmission.Control.Demand.{ensure-demand}
use mars_icnp.Transmission.Budget.{
  grant_share, grant_shares, best_thread, give_one, spread_remaining, rotation, total_weight,
  assign_dt_weighted_thread_budget, distribute_grant, distribute_dt_face_budget,
  reclaim_dt_thread_budget, clamp_dt_retained_budget, refill_dt_face_tokens,
  allocate_dt_face_budgets,
}

-- Budgets are given without a change of demand.
module _ {F : Type 0} (fl : FloatOps F) where
  open fl use {f_minus_one, f_zero, f_sub, of_int, floor}

  shares-demand :
      (available : ℕ) (weights : F) (tids : List ℕ) (c : FaceControl F)
      → (grant_shares fl available weights tids c).1.demand_by_thread ≡ c.demand_by_thread
  unfolding grant_shares grant_share
  shares-demand available weights [] c = refl
  shares-demand available weights (tid ∷ tids) c =
      ground
        (arith, shares-demand available weights tids (grant_share fl available weights tid c).1)

  spread-demand :
      (remaining : ℕ) (tids : List ℕ) (c : FaceControl F)
      → (spread_remaining fl remaining tids c).1.demand_by_thread ≡ c.demand_by_thread
  unfolding spread_remaining
  spread-demand zero tids c = refl
  spread-demand (suc remaining) tids c =
      elim (Option-cases (best_thread fl c tids none f_minus_one)) [
        | inl e ↦ rw (e, spread_remaining) refl
        | inr (tid, e) ↦ rw (e, spread_remaining) (spread-demand remaining tids (give_one fl tid c))
      ]

  assign-demand :
      (available n start : ℕ) (c : FaceControl F)
      → (assign_dt_weighted_thread_budget fl available n start c).1.demand_by_thread
        ≡ c.demand_by_thread
  unfolding assign_dt_weighted_thread_budget
  assign-demand available n start c =
      let tids = rotation n start n in
      let weights = total_weight fl c tids f_zero in
      let (granted, d) = grant_shares fl available weights tids c in
      ground
        (arith, shares-demand available weights tids c, spread-demand (available - granted) tids d)

  grant-demand :
      (grant : ℕ) (c : FaceControl F)
      → (distribute_grant fl grant c).demand_by_thread ≡ c.demand_by_thread
  unfolding distribute_grant clamp_dt_retained_budget
  grant-demand grant c =
      ground (arith, assign-demand grant (length c.demand_by_thread) c.budget_rr c)

  reclaim-demand :
      (c : FaceControl F) → (reclaim_dt_thread_budget fl c).demand_by_thread ≡ c.demand_by_thread
  unfolding reclaim_dt_thread_budget clamp_dt_retained_budget
  reclaim-demand c = ground arith

  distribute-demand :
      (c : FaceControl F) → (distribute_dt_face_budget fl c).demand_by_thread ≡ c.demand_by_thread
  unfolding distribute_dt_face_budget
  distribute-demand c =
      let d = reclaim_dt_thread_budget fl c in
      let grant = floor d.tokens in
      ground (
        arith,
        reclaim-demand c,
        grant-demand 1 (record d { liveness_forced_packets = d.liveness_forced_packets - 1 }),
        grant-demand grant (record d { tokens = f_sub d.tokens (of_int grant) }),
      )

  -- Allocating budgets, and what another thread notes, keep the demand of a thread.
  pub allocate-demand :
      (threads now t : ℕ) (blocked : Bool) (c : FaceControl F)
      → get_or (allocate_dt_face_budgets fl threads now blocked c).demand_by_thread t 0
        ≡ get_or c.demand_by_thread t 0
  unfolding allocate_dt_face_budgets clear_dt_face_blocked_state refill_dt_face_tokens
      clamp_dt_retained_budget
  allocate-demand threads now t blocked c =
      let d = ensure_thread_slots fl threads c in
      ground (
        arith,
        ensure-demand fl threads t c,
        reclaim-demand d,
        distribute-demand (refill_dt_face_tokens fl now d),
      )

  pub other-demand :
      (threads other t : ℕ) (delta : ℤ) (c : FaceControl F)
      → (other == t) ≡ false
      → get_or (note_dt_thread_demand fl threads other delta c).demand_by_thread t 0
        ≡ get_or c.demand_by_thread t 0
  unfolding note_dt_thread_demand set_demand
  other-demand threads other t delta c ne =
      let e = ensure_thread_slots fl threads c in
      let v = add_delta (get_or e.demand_by_thread other 0) delta in
      ground (arith, ensure-demand fl threads t c, get_or-set e.demand_by_thread other t v 0)

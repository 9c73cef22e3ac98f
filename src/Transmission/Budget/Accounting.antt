-- ===== src/Transmission/Budget/Accounting.antt =====
-- What the weighted assignment of a grant does to the budgets of the threads.
use mars_icnp.Prelude.{
  ℕ, zero, suc, ◌+◌, ◌-◌, ◌≤◌, ◌<◌, ◌≡◌, inl, inr, true, false, not, ◌&&◌, Option, none, some, List,
  [], ◌∷◌, ltb, ◌==◌, length, get_or, set, get_or-set, length-set, length-map, ◌||◌, if◌then◌else◌,
  arith, Option-cases, if_cases,
}
use native.Mathlib.Nat.{mod-lt}
use mars_icnp.Transmission.Floats.{FloatOps}
use mars_icnp.Transmission.Control.{FaceControl}
use mars_icnp.Transmission.Control.Demand.{get_or-map_zero}
use mars_icnp.Transmission.Budget.{
  dt_thread_quota_cap_packets, total, rotation, thread_weight, total_weight, grant_share,
  grant_shares, best_thread, give_one, spread_remaining, assign_dt_weighted_thread_budget,
  reclaim_dt_thread_budget, clamp_dt_retained_budget, distribute_grant, distribute_dt_face_budget,
}

total-set :
    (xs : List ℕ) (i v : ℕ) → i < length xs → total (set xs i v) + get_or xs i 0 ≡ total xs + v
unfolding total
total-set [] i v h = absurd (omega arith)
total-set (x ∷ xs) zero v h = omega arith
total-set (x ∷ xs) (suc i) v h = omega (arith, total-set xs i v)

-- Every thread of the list is below the bound.
abbrev pub AllBelow : ℕ → List ℕ → Type 0
AllBelow n [] = Unit {0}
AllBelow n (t ∷ ts) = (t < n) × AllBelow n ts

rotation-AllBelow : (n start rounds : ℕ) → 0 < n → AllBelow n (rotation n start rounds)
unfolding rotation
rotation-AllBelow n start zero h = tt
rotation-AllBelow n start (suc r) h = (mod-lt start h, rotation-AllBelow n (start + 1) r h)

module _ {F : Type 0} (fl : FloatOps F) (irrefl : fl.f_lt fl.f_zero fl.f_zero ≡ false) (t : ℕ) where
  open fl use {f_zero, f_minus_one, f_lt, f_sub, f_one, f_add, f_mul, f_div, of_int, floor}

  -- `k` packets were added to the budgets and demand is as before; the thread `t` stays within
  -- its quota, loses nothing, and gets nothing without demand.
  pub record Adds (k : ℕ) (c d : FaceControl F) : Type 0 where
    pub sum : total d.budget_by_thread ≡ total c.budget_by_thread + k
    pub slots : length d.budget_by_thread ≡ length c.budget_by_thread
    pub demand : d.demand_by_thread ≡ c.demand_by_thread
    pub quota :
        get_or c.budget_by_thread t 0 ≤ dt_thread_quota_cap_packets
        → get_or d.budget_by_thread t 0 ≤ dt_thread_quota_cap_packets
    pub idle :
        get_or c.demand_by_thread t 0 ≡ 0
        → get_or d.budget_by_thread t 0 ≡ get_or c.budget_by_thread t 0

  Adds-trans : (k l : ℕ) (c d e : FaceControl F) → Adds k c d → Adds l d e → Adds (k + l) c e
  Adds-trans k l c d e p q = ground arith

  Adds-suc : (l : ℕ) (c d e : FaceControl F) → Adds 1 c d → Adds l d e → Adds (suc l) c e
  Adds-suc l c d e p q = ground arith

  Adds-none : (c : FaceControl F) → Adds 0 c c
  Adds-none c = ground arith

  grant_share-Adds :
      (available : ℕ) (weights : F) (tid : ℕ) (c : FaceControl F)
      → tid < length c.budget_by_thread
      → let (g, d) = grant_share fl available weights tid c in Adds g c d
  unfolding grant_share
  grant_share-Adds available weights tid c h =
      let w = thread_weight fl c tid in
      let carry = get_or c.carry_by_thread tid f_zero in
      let share = f_add (f_mul (of_int available) (f_div w weights)) carry in
      let budget = get_or c.budget_by_thread tid 0 in
      let room = dt_thread_quota_cap_packets - budget in
      let g = if ltb room (floor share) then room else floor share in
      ground (
        arith,
        irrefl,
        total-set c.budget_by_thread tid (budget + g),
        length-set c.budget_by_thread tid (budget + g),
        get_or-set c.budget_by_thread tid t (budget + g) 0,
      )

  grant_shares-Adds :
      (available n : ℕ) (weights : F) (tids : List ℕ) (c : FaceControl F)
      → AllBelow n tids
      → n ≤ length c.budget_by_thread
      → let (g, d) = grant_shares fl available weights tids c in Adds g c d
  unfolding grant_shares
  grant_shares-Adds available n weights [] c a h = Adds-none c
  grant_shares-Adds available n weights (tid ∷ tids) c a h =
      let (g, d) = grant_share fl available weights tid c in
      let p = grant_share-Adds available weights tid c (omega arith) in
      let q = grant_shares-Adds available n weights tids d a.1 (omega (arith, p.slots)) in
      Adds-trans g _ c d _ p q

  -- The thread picked is one of the list, below its quota and with demand.
  abbrev Chosen : ℕ → FaceControl F → Option ℕ → Type 0
  Chosen n c none = Unit {0}
  Chosen n c (some tid) =
      (tid < n)
      × (ltb (get_or c.budget_by_thread tid 0) dt_thread_quota_cap_packets ≡ true)
      × (f_lt f_zero (thread_weight fl c tid) ≡ true)

  best_thread-Chosen :
      (n : ℕ) (c : FaceControl F) (tids : List ℕ) (best : Option ℕ) (carry : F)
      → AllBelow n tids
      → Chosen n c best
      → Chosen n c (best_thread fl c tids best carry)
  unfolding best_thread
  best_thread-Chosen n c [] best carry a b = b
  best_thread-Chosen n c (tid ∷ tids) best carry a b =
      let mine = get_or c.carry_by_thread tid f_zero in
      let better =
        f_lt f_zero (thread_weight fl c tid)
        && (ltb (get_or c.budget_by_thread tid 0) dt_thread_quota_cap_packets && f_lt carry mine) in
      best_thread-Chosen n c tids (if better then some tid else best)
        (if better then mine else carry) a.1
        (if_cases (Chosen n c) better {x = some tid} {y = best} (λ e. ground arith) (λ _. b))

  give_one-Adds :
      (n tid : ℕ) (c : FaceControl F)
      → n ≤ length c.budget_by_thread
      → Chosen n c (some tid)
      → Adds 1 c (give_one fl tid c)
  give_one-Adds n tid c h e =
      let v = suc (get_or c.budget_by_thread tid 0) in
      ground (
        arith,
        irrefl,
        total-set c.budget_by_thread tid v,
        length-set c.budget_by_thread tid v,
        get_or-set c.budget_by_thread tid t v 0,
      )

  spread_remaining-Adds :
      (remaining n : ℕ) (tids : List ℕ) (c : FaceControl F)
      → AllBelow n tids
      → n ≤ length c.budget_by_thread
      → let (g, d) = spread_remaining fl remaining tids c in Adds g c d
  unfolding spread_remaining
  spread_remaining-Adds zero n tids c a h = Adds-none c
  spread_remaining-Adds (suc remaining) n tids c a h =
      elim (Option-cases (best_thread fl c tids none f_minus_one)) [
        | inl e ↦ rw (e, spread_remaining) (Adds-none c)
        | inr (tid, e) ↦
            let chosen : Chosen n c (some tid) =
              rw e at (best_thread-Chosen n c tids none f_minus_one a tt) in
            let p = give_one-Adds n tid c h chosen in
            let d = give_one fl tid c in
            rw (e, spread_remaining)
              (Adds-suc _ c d _ p
                (spread_remaining-Adds remaining n tids d a (omega (arith, p.slots))))
      ]

  assign-Adds :
      (available n start : ℕ) (c : FaceControl F)
      → n ≤ length c.budget_by_thread
      → let (k, d) = assign_dt_weighted_thread_budget fl available n start c in Adds k c d
  unfolding assign_dt_weighted_thread_budget
  assign-Adds available n start c h =
      let tids = rotation n start n in
      let weights = total_weight fl c tids f_zero in
      if_cases (λ (r : ℕ × FaceControl F). Adds r.0 c r.1)
        ((available == 0) || ((n == 0) || not (f_lt f_zero weights))) (λ _. Adds-none c)
        λ e.
          let a = rotation-AllBelow n start n (ground arith) in
          let (granted, d) = grant_shares fl available weights tids c in
          let p = grant_shares-Adds available n weights tids c a h in
          Adds-trans granted _ c d _ p
            (spread_remaining-Adds (available - granted) n tids d a (omega (arith, p.slots)))

  -- The packets that the assignment reports are exactly those that it adds to the budgets of the
  -- threads, none of which loses its slot (there is a slot for each of the `n` threads).
  pub assign-total :
      (available n start : ℕ) (c : FaceControl F)
      → n ≤ length c.budget_by_thread
      → let (k, d) = assign_dt_weighted_thread_budget fl available n start c in
        (total d.budget_by_thread ≡ total c.budget_by_thread + k)
        × (length d.budget_by_thread ≡ length c.budget_by_thread)
  assign-total available n start c h = let p = assign-Adds available n start c h in (p.sum, p.slots)

  reclaim_zero :
      (c : FaceControl F) → get_or (reclaim_dt_thread_budget fl c).budget_by_thread t 0 ≡ 0
  unfolding reclaim_dt_thread_budget clamp_dt_retained_budget
  reclaim_zero c = ground (arith, get_or-map_zero c.budget_by_thread t)

  -- Slots and budgets after a step that starts from empty budgets.
  abbrev Bounded : FaceControl F → FaceControl F → Type 0
  Bounded c d =
      (get_or d.budget_by_thread t 0 ≤ dt_thread_quota_cap_packets)
      × (get_or c.demand_by_thread t 0 ≡ 0 → get_or d.budget_by_thread t 0 ≡ 0)

  distribute_grant-Bounded :
      (grant : ℕ) (c : FaceControl F)
      → length c.demand_by_thread ≤ length c.budget_by_thread
      → get_or c.budget_by_thread t 0 ≡ 0
      → Bounded c (distribute_grant fl grant c)
  unfolding distribute_grant clamp_dt_retained_budget
  distribute_grant-Bounded grant c h z =
      ground (arith, assign-Adds grant (length c.demand_by_thread) c.budget_rr c h)

  reclaim_slots :
      (c : FaceControl F)
      → (length (reclaim_dt_thread_budget fl c).budget_by_thread ≡ length c.budget_by_thread)
        × ((reclaim_dt_thread_budget fl c).demand_by_thread ≡ c.demand_by_thread)
  unfolding reclaim_dt_thread_budget clamp_dt_retained_budget
  reclaim_slots c = ground (arith, length-map {B = ℕ} (λ (n : ℕ). 0) c.budget_by_thread)

  distribute-Bounded :
      (c : FaceControl F)
      → length c.demand_by_thread ≤ length c.budget_by_thread
      → Bounded c (distribute_dt_face_budget fl c)
  unfolding distribute_dt_face_budget
  distribute-Bounded c h =
      let d = reclaim_dt_thread_budget fl c in
      let grant = floor d.tokens in
      ground (
        arith,
        reclaim_zero c,
        reclaim_slots c,
        distribute_grant-Bounded 1
            (record d { liveness_forced_packets = d.liveness_forced_packets - 1 }),
        distribute_grant-Bounded grant (record d { tokens = f_sub d.tokens (of_int grant) }),
      )

  -- With a budget slot for each thread that has a demand slot: after a round of distribution no
  -- thread holds more than the quota, whatever it held before.
  pub distribute-quota :
      (c : FaceControl F)
      → length c.demand_by_thread ≤ length c.budget_by_thread
      → get_or (distribute_dt_face_budget fl c).budget_by_thread t 0 ≤ dt_thread_quota_cap_packets
  distribute-quota c h = (distribute-Bounded c h).0

  -- Nor does a thread for which no Interest waits hold any budget.
  pub distribute-idle :
      (c : FaceControl F)
      → length c.demand_by_thread ≤ length c.budget_by_thread
      → get_or c.demand_by_thread t 0 ≡ 0
      → get_or (distribute_dt_face_budget fl c).budget_by_thread t 0 ≡ 0
  distribute-idle c h z = (distribute-Bounded c h).1 z

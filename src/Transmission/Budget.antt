-- ===== src/Transmission/Budget.antt =====
-- How a face's tokens become send budgets of the threads: `refillDtFaceTokensLocked`,
-- `totalDtThreadBudgetLocked`, `clampDtRetainedBudgetLocked`, `reclaimDtThreadBudgetLocked`,
-- `assignDtWeightedThreadBudgetLocked`, `distributeDtFaceBudgetLocked` and
-- `allocateDtFaceBudgets` of mars/fw/fw/multipath.go. Packet counts are not negative: tokens, weights
-- and carries are sums of such, so `int` of them is `floor` on natural numbers.

pub mod Accounting
pub mod Constancy
use mars_icnp.Prelude.{
  ℕ, zero, suc, ◌+◌, ◌-◌, ◌%◌, ◌^◌, Bool, true, false, not, ◌&&◌, ◌||◌, Option, none, some, List,
  [], ◌∷◌, map, leb, ltb, ◌==◌, length, get_or, set, if◌then◌else◌,
}
use mars_icnp.Transmission.Floats.{FloatOps}
use mars_icnp.Transmission.Control.{FaceControl, ensure_thread_slots, clear_dt_face_blocked_state}

abbrev pub dt_thread_quota_cap_packets : ℕ
dt_thread_quota_cap_packets = 512

unfoldable pub total : List ℕ → ℕ
total [] = 0
total (x ∷ xs) = x + total xs

unfoldable pub count_active : List ℕ → ℕ
count_active [] = 0
count_active (d ∷ ds) = if d == 0 then count_active ds else suc (count_active ds)

-- The threads in the order of the loops, `(start + i) % n` for `i` below `n`.
unfoldable pub rotation : ℕ → ℕ → ℕ → List ℕ
rotation n start zero = []
rotation n start (suc rounds) = start % n ∷ rotation n (start + 1) rounds

module _ {F : Type 0} (fl : FloatOps F) where
  open fl use {f_zero, f_one, f_minus_one, f_add, f_sub, f_mul, f_div, f_lt, of_int, floor, seconds}

  -- if a > cap { a = cap }
  abbrev pub f_cap : F → F → F
  f_cap cap a = if f_lt cap a then cap else a

  unfoldable pub refill_dt_face_tokens : ℕ → FaceControl F → FaceControl F
  refill_dt_face_tokens now c =
      let last : ℕ = elim c.last_refill [ none ↦ now | some t ↦ t ] in
      let minted = f_mul (seconds (now - last)) c.rate in
      record c {
        last_refill = some now;
        tokens = f_cap (of_int 64) (f_add c.tokens minted);
        round_minted_tokens = f_add c.round_minted_tokens minted;
      }

  unfoldable pub clamp_dt_retained_budget : FaceControl F → FaceControl F
  clamp_dt_retained_budget c = record c { tokens = f_cap f_one c.tokens }

  unfoldable pub reclaim_dt_thread_budget : FaceControl F → FaceControl F
  unfolding total clamp_dt_retained_budget
  reclaim_dt_thread_budget c =
      let leftover = total c.budget_by_thread in
      let c' = record c { budget_by_thread = map (λ _. 0) c.budget_by_thread } in
      if leftover == 0
      then c'
      else clamp_dt_retained_budget (record c' { tokens = f_add c'.tokens (of_int leftover) })

  -- The weight of a thread, 0 without demand.
  abbrev pub thread_weight : FaceControl F → ℕ → F
  thread_weight c tid =
      let demand = get_or c.demand_by_thread tid 0 in
      if demand == 0 then f_zero else f_add f_one (of_int demand)

  unfoldable pub total_weight : FaceControl F → List ℕ → F → F
  total_weight c [] acc = acc
  total_weight c (tid ∷ tids) acc =
      total_weight c tids
        (if get_or c.demand_by_thread tid 0 == 0 then acc else f_add acc (thread_weight c tid))

  -- One round of the first loop: the share of a thread, its carry, and what fits its quota.
  unfoldable pub grant_share : ℕ → F → ℕ → FaceControl F → ℕ × FaceControl F
  grant_share available weights tid c =
      let w = thread_weight c tid in
      let carry = get_or c.carry_by_thread tid f_zero in
      let share = f_add (f_mul (of_int available) (f_div w weights)) carry in
      let budget = get_or c.budget_by_thread tid 0 in
      let room = dt_thread_quota_cap_packets - budget in
      let grant = if ltb room (floor share) then room else floor share in
      if not (f_lt f_zero w) then (0, c) else (
        grant,
        record c {
          carry_by_thread =
              set c.carry_by_thread tid (f_cap f_one (f_sub share (of_int (floor share))));
          budget_by_thread = set c.budget_by_thread tid (budget + grant);
        },
      )

  unfoldable pub grant_shares : ℕ → F → List ℕ → FaceControl F → ℕ × FaceControl F
  unfolding grant_share
  grant_shares available weights [] c = (0, c)
  grant_shares available weights (tid ∷ tids) c =
      let (g, c') = grant_share available weights tid c in
      let (gs, c'') = grant_shares available weights tids c' in (g + gs, c'')

  -- The inner loop of the second phase: the active thread below its quota with the largest carry.
  unfoldable pub best_thread : FaceControl F → List ℕ → Option ℕ → F → Option ℕ
  best_thread c [] best carry = best
  best_thread c (tid ∷ tids) best carry =
      let mine = get_or c.carry_by_thread tid f_zero in
      let better =
        f_lt f_zero (thread_weight c tid)
        && (ltb (get_or c.budget_by_thread tid 0) dt_thread_quota_cap_packets && f_lt carry mine) in
      best_thread c tids (if better then some tid else best) (if better then mine else carry)

  abbrev pub give_one : ℕ → FaceControl F → FaceControl F
  give_one tid c = record c {
    budget_by_thread = set c.budget_by_thread tid (suc (get_or c.budget_by_thread tid 0));
    carry_by_thread = set c.carry_by_thread tid f_zero;
  }

  -- `for remainingPackets > 0`: each round gives one packet or breaks.
  unfoldable pub spread_remaining : ℕ → List ℕ → FaceControl F → ℕ × FaceControl F
  unfolding best_thread
  spread_remaining zero tids c = (0, c)
  spread_remaining (suc remaining) tids c = elim (best_thread c tids none f_minus_one) [
    | none ↦ (0, c)
    | some tid ↦
        let (given, c') = spread_remaining remaining tids (give_one tid c) in (suc given, c')
  ]

  -- The packets assigned, and the state. The first phase may assign more than is available (the
  -- carries of earlier rounds); then nothing remains.
  unfoldable pub assign_dt_weighted_thread_budget : ℕ → ℕ → ℕ → FaceControl F → ℕ × FaceControl F
  unfolding rotation total_weight grant_shares spread_remaining
  assign_dt_weighted_thread_budget available n start c =
      let tids = rotation n start n in
      let weights = total_weight c tids f_zero in
      if (available == 0) || ((n == 0) || not (f_lt f_zero weights))
      then (0, c)
      else let (granted, c') = grant_shares available weights tids c in
        let (given, c'') = spread_remaining (available - granted) tids c' in (granted + given, c'')

  -- `control.tokens += float64(k)` with the clamp.
  abbrev pub refund : ℕ → FaceControl F → FaceControl F
  refund k c = clamp_dt_retained_budget (record c { tokens = f_add c.tokens (of_int k) })

  -- The rest of the method, once a positive grant is known.
  unfoldable pub distribute_grant : ℕ → FaceControl F → FaceControl F
  unfolding count_active clamp_dt_retained_budget assign_dt_weighted_thread_budget
  distribute_grant grant c =
      let n = length c.demand_by_thread in
      let (assigned, c') = assign_dt_weighted_thread_budget grant n c.budget_rr c in
      let c'' = if leb grant assigned then c' else refund (grant - assigned) c' in
      if count_active c.demand_by_thread == 0 then refund grant c else record c'' {
        budget_rr = (c.budget_rr + 1) % n;
        budget_rounds = (c.budget_rounds + 1) % 2 ^ 64;
      }

  unfoldable pub distribute_dt_face_budget : FaceControl F → FaceControl F
  unfolding reclaim_dt_thread_budget distribute_grant
  distribute_dt_face_budget c =
      let d = reclaim_dt_thread_budget c in
      let grant = floor d.tokens in
      if grant == 0
      then (if d.liveness_forced_packets == 0
          then d
          else distribute_grant 1
              (record d { liveness_forced_packets = d.liveness_forced_packets - 1 }))
      else distribute_grant grant (record d { tokens = f_sub d.tokens (of_int grant) })

  -- `blocked` is `s.dtBlockedFace(now, upstreamFace)`.
  unfoldable pub allocate_dt_face_budgets : ℕ → ℕ → Bool → FaceControl F → FaceControl F
  unfolding ensure_thread_slots clear_dt_face_blocked_state total reclaim_dt_thread_budget
      clamp_dt_retained_budget refill_dt_face_tokens distribute_dt_face_budget
  allocate_dt_face_budgets threads now blocked c =
      let d = ensure_thread_slots fl threads c in
      if not c.activated || not (f_lt f_zero c.rate)
      then c
      else if blocked
      then clear_dt_face_blocked_state fl now d
      else if total d.demand_by_thread == 0
      then record (clamp_dt_retained_budget (reclaim_dt_thread_budget d)) { last_refill = some now }
      else distribute_dt_face_budget (refill_dt_face_tokens now d)

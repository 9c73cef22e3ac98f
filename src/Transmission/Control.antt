-- ===== src/Transmission/Control.antt =====
-- The control state of one upstream face, shared by the forwarding threads: `dtFaceControlState`,
-- `ensureDtControlThreadSlotsLocked`, `noteDtThreadDemand`, `takeDtThreadBudget`,
-- `noteDtRoundSchedulerEvent`, `noteDtFaceSentPackets`, `ensureDtControlActivated` and
-- `clearDtFaceBlockedStateLocked` of mars/fw/fw/multipath.go. The fields that only the rate law and the
-- CSV writer use are left out. Counters are 64-bit.

pub mod Demand
use mars_icnp.Prelude.{
  ℕ, zero, suc, ◌+◌, ◌-◌, ◌%◌, ◌^◌, Bool, true, false, not, ◌&&◌, ◌||◌, Option, none, some, List,
  [], ◌∷◌, ◌++◌, map, leb, ltb, ◌==◌, length, get_or, set, if◌then◌else◌,
}
use mars_icnp.Prelude.Int.{ℤ, pos, negsuc}
use mars_icnp.Transmission.Floats.{FloatOps}

pub record FaceControl (F : Type 0) : Type 0 where
  pub activated : Bool
  pub rate : F
  pub tokens : F
  pub last_refill : Option ℕ
  pub sent_counter : ℕ
  pub starvation_zero_send_rounds : ℕ
  pub liveness_forced_packets : ℕ
  pub demand_by_thread : List ℕ
  pub budget_by_thread : List ℕ
  pub carry_by_thread : List F
  pub round_granted_by_thread : List ℕ
  pub round_used_by_thread : List ℕ
  pub round_zero_budget_by_thread : List ℕ
  pub round_empty_budget_by_thread : List ℕ
  pub round_send_fail_by_thread : List ℕ
  pub round_pending_sum_by_thread : List ℕ
  pub round_pending_max_by_thread : List ℕ
  pub round_visits_by_thread : List ℕ
  pub round_minted_tokens : F
  pub budget_rr : ℕ
  pub budget_rounds : ℕ

-- `next := make([]T, n); copy(next, xs)`, for a slice that is shorter than `n`.
unfoldable pub pad {ℓ} : {A : Type ℓ} → ℕ → A → List A → List A
pad zero z xs = xs
pad (suc n) z [] = z ∷ pad n z []
pad (suc n) z (x ∷ xs) = x ∷ pad n z xs

-- `xs[i] += k` on 64-bit counters; an index out of range is excluded by the callers' guards.
abbrev pub bump : ℕ → ℕ → List ℕ → List ℕ
bump i k xs = set xs i ((get_or xs i 0 + k) % 2 ^ 64)

-- `control.demandByThread[threadID] += delta`, and the clamp at 0.
abbrev pub add_delta : ℕ → ℤ → ℕ
add_delta d (pos n) = d + n
add_delta d (negsuc n) = d - suc n

abbrev pub max_of : ℕ → ℕ → ℕ
max_of a b = if ltb a b then b else a

module _ {F : Type 0} (fl : FloatOps F) where
  open fl use {f_zero, f_lt, f_add}

  -- The zero value of `&dtFaceControlState{}`.
  abbrev pub new_control : FaceControl F
  new_control = record {
    activated = false;
    rate = f_zero;
    tokens = f_zero;
    last_refill = none;
    sent_counter = 0;
    starvation_zero_send_rounds = 0;
    liveness_forced_packets = 0;
    demand_by_thread = [];
    budget_by_thread = [];
    carry_by_thread = [];
    round_granted_by_thread = [];
    round_used_by_thread = [];
    round_zero_budget_by_thread = [];
    round_empty_budget_by_thread = [];
    round_send_fail_by_thread = [];
    round_pending_sum_by_thread = [];
    round_pending_max_by_thread = [];
    round_visits_by_thread = [];
    round_minted_tokens = f_zero;
    budget_rr = 0;
    budget_rounds = 0;
  }

  -- `n` is `CfgNumThreads()`; a number that is not positive counts as 1.
  unfoldable pub ensure_thread_slots : ℕ → FaceControl F → FaceControl F
  unfolding pad
  ensure_thread_slots threads c =
      let n = max_of threads 1 in
      record c {
        demand_by_thread = pad n 0 c.demand_by_thread;
        budget_by_thread = pad n 0 c.budget_by_thread;
        carry_by_thread = pad n f_zero c.carry_by_thread;
        round_granted_by_thread = pad n 0 c.round_granted_by_thread;
        round_used_by_thread = pad n 0 c.round_used_by_thread;
        round_zero_budget_by_thread = pad n 0 c.round_zero_budget_by_thread;
        round_empty_budget_by_thread = pad n 0 c.round_empty_budget_by_thread;
        round_send_fail_by_thread = pad n 0 c.round_send_fail_by_thread;
        round_pending_sum_by_thread = pad n 0 c.round_pending_sum_by_thread;
        round_pending_max_by_thread = pad n 0 c.round_pending_max_by_thread;
        round_visits_by_thread = pad n 0 c.round_visits_by_thread;
        budget_rr = if leb n c.budget_rr then 0 else c.budget_rr;
      }

  -- A thread without demand keeps no budget and no carry.
  unfoldable pub set_demand : ℕ → ℕ → FaceControl F → FaceControl F
  set_demand thread d c = record c {
    demand_by_thread = set c.demand_by_thread thread d;
    budget_by_thread = if d == 0 then set c.budget_by_thread thread 0 else c.budget_by_thread;
    carry_by_thread = if d == 0 then set c.carry_by_thread thread f_zero else c.carry_by_thread;
  }

  unfoldable pub note_dt_thread_demand : ℕ → ℕ → ℤ → FaceControl F → FaceControl F
  unfolding ensure_thread_slots set_demand
  note_dt_thread_demand threads thread delta c =
      let c' = ensure_thread_slots threads c in
      if ltb thread (length c'.demand_by_thread)
      then set_demand thread (add_delta (get_or c'.demand_by_thread thread 0) delta) c'
      else c'

  -- The grant, and the state that is left.
  unfoldable pub take_dt_thread_budget : ℕ → ℕ → ℕ → FaceControl F → ℕ × FaceControl F
  unfolding ensure_thread_slots
  take_dt_thread_budget threads thread max_packets c =
      let c' = ensure_thread_slots threads c in
      let budget = get_or c'.budget_by_thread thread 0 in
      let grant = if ltb max_packets budget then max_packets else budget in
      if max_packets == 0
      then (0, c)
      else if leb (length c'.budget_by_thread) thread || (budget == 0)
      then (0, c')
      else (grant, record c' { budget_by_thread = set c'.budget_by_thread thread (budget - grant) })

  -- Queued Interests of one thread, and of all.
  unfoldable pub local_pending_interests_for_face : ℕ → ℕ → FaceControl F → ℕ
  unfolding ensure_thread_slots
  local_pending_interests_for_face threads thread c =
      get_or (ensure_thread_slots threads c).demand_by_thread thread 0

  unfoldable pub note_dt_round_scheduler_event :
      ℕ → ℕ → ℕ → ℕ → ℕ → Bool → ℕ → ℕ → FaceControl F → FaceControl F
  unfolding ensure_thread_slots
  note_dt_round_scheduler_event threads t pending granted used zero_budget empty_budget send_fail
        c =
      let d = ensure_thread_slots threads c in
      if leb (length d.round_visits_by_thread) t then d else record d {
        round_visits_by_thread = bump t 1 d.round_visits_by_thread;
        round_pending_sum_by_thread = bump t pending d.round_pending_sum_by_thread;
        round_pending_max_by_thread =
            set d.round_pending_max_by_thread t
              (max_of (get_or d.round_pending_max_by_thread t 0) pending);
        round_granted_by_thread = bump t granted d.round_granted_by_thread;
        round_used_by_thread = bump t used d.round_used_by_thread;
        round_zero_budget_by_thread =
            if zero_budget
            then bump t 1 d.round_zero_budget_by_thread
            else d.round_zero_budget_by_thread;
        round_empty_budget_by_thread = bump t empty_budget d.round_empty_budget_by_thread;
        round_send_fail_by_thread = bump t send_fail d.round_send_fail_by_thread;
      }

  unfoldable pub note_dt_face_sent_packets : ℕ → FaceControl F → FaceControl F
  note_dt_face_sent_packets sent c = record c { sent_counter = (c.sent_counter + sent) % 2 ^ 64 }

  -- The body of the loop of `ensureDtControlActivated`, for one face.
  unfoldable pub ensure_dt_control_activated : F → ℕ → FaceControl F → FaceControl F
  ensure_dt_control_activated init_rate now c =
      if c.activated
      then c
      else record c { activated = true; rate = init_rate; last_refill = some now }

  unfoldable pub clear_dt_face_blocked_state : ℕ → FaceControl F → FaceControl F
  clear_dt_face_blocked_state now c = record c {
    tokens = f_zero;
    last_refill = some now;
    liveness_forced_packets = 0;
    starvation_zero_send_rounds = 0;
    round_minted_tokens = f_zero;
    budget_by_thread = map (λ _. 0) c.budget_by_thread;
    carry_by_thread = map (λ _. f_zero) c.carry_by_thread;
  }

-- ===== src/Transmission/Tests.antt =====
-- The transmission scheduler on concrete numbers, and each property at one of them.
use mars_icnp.Prelude.{
  ℕ, ◌+◌, ◌-◌, ◌*◌, ◌/◌, ◌≡◌, ◌≤◌, refl, true, [], ◌∷◌, arith, ltb, ◌==◌, get_or, length,
}
use mars_icnp.Transmission.Floats.{FloatOps}
use mars_icnp.Transmission.Control.{FaceControl, new_control}
use mars_icnp.Transmission.Budget.{
  total, assign_dt_weighted_thread_budget, distribute_dt_face_budget, dt_thread_quota_cap_packets,
}
use mars_icnp.Transmission.Budget.Accounting.{assign-total, distribute-quota}

-- Numbers of -1 and above in thousandths: `n` stands for (n - 1000) / 1000.
abbrev pub thousandths : FloatOps ℕ
thousandths = record {
  f_zero = 1000;
  f_one = 2000;
  f_minus_one = 0;
  f_add = λ a b. a + b - 1000;
  f_sub = λ a b. a + 1000 - b;
  f_mul = λ a b. (a - 1000) * (b - 1000) / 1000 + 1000;
  f_div = λ a b. (a - 1000) * 1000 / (b - 1000) + 1000;
  f_lt = ltb;
  f_eq = λ a b. a == b;
  of_int = λ n. n * 1000 + 1000;
  floor = λ a. (a - 1000) / 1000;
  seconds = λ t. t / 1000000 + 1000;
}

-- Three threads, of which the second has no demand, and seven and a half tokens.
abbrev busy : FaceControl ℕ
busy = record (new_control thousandths) {
  activated = true;
  rate = 101000;
  tokens = 8500;
  demand_by_thread = 3 ∷ 0 ∷ 1 ∷ [];
  budget_by_thread = 0 ∷ 0 ∷ 0 ∷ [];
  carry_by_thread = 1000 ∷ 1000 ∷ 1000 ∷ [];
}

abbrev shared : FaceControl ℕ
shared = distribute_dt_face_budget thousandths busy

busy_shared : shared.budget_by_thread ≡ 5 ∷ 0 ∷ 2 ∷ []
unfolding distribute_dt_face_budget
busy_shared = refl

assign-total_example :
    total (assign_dt_weighted_thread_budget thousandths 7 3 0 busy).1.budget_by_thread
      ≡ 0 + (assign_dt_weighted_thread_budget thousandths 7 3 0 busy).0
    × (length (assign_dt_weighted_thread_budget thousandths 7 3 0 busy).1.budget_by_thread ≡ 3)
unfolding total
assign-total_example = assign-total thousandths refl 0 7 3 0 busy (omega arith)

distribute-quota_example : get_or shared.budget_by_thread 0 0 ≤ dt_thread_quota_cap_packets
distribute-quota_example = distribute-quota thousandths refl 0 busy (omega arith)

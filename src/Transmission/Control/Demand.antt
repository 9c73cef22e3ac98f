-- ===== src/Transmission/Control/Demand.antt =====
-- Demand and budget of a thread: taking a budget is accounted for, and a thread without demand
-- holds none.
use mars_icnp.Prelude.{
  ℕ, zero, suc, ◌+◌, ◌-◌, ◌≤◌, ◌<◌, ◌≡◌, ◌≢◌, refl, List, [], ◌∷◌, map, ltb, length, get_or,
  get_or-set, get_or-beyond, if◌then◌else◌, arith,
}
use mars_icnp.Prelude.Int.{ℤ}
use mars_icnp.Transmission.Floats.{FloatOps}
use mars_icnp.Transmission.Control.{
  FaceControl, pad, max_of, add_delta, ensure_thread_slots, set_demand, note_dt_thread_demand,
  take_dt_thread_budget, clear_dt_face_blocked_state,
}

pub get_or-pad {ℓ} :
    {A : Type ℓ} (n : ℕ) (z : A) (xs : List A) (i : ℕ) → get_or (pad n z xs) i z ≡ get_or xs i z
unfolding pad
get_or-pad zero z xs i = refl
get_or-pad (suc n) z [] zero = refl
get_or-pad (suc n) z [] (suc i) = get_or-pad n z [] i
get_or-pad (suc n) z (x ∷ xs) zero = refl
get_or-pad (suc n) z (x ∷ xs) (suc i) = get_or-pad n z xs i

pub length-pad {ℓ} :
    {A : Type ℓ} (n : ℕ) (z : A) (xs : List A)
    → length (pad n z xs) ≡ (if ltb (length xs) n then n else length xs)
unfolding pad
length-pad zero z xs = ground arith
length-pad (suc n) z [] = ground (arith, length-pad n z [])
length-pad (suc n) z (x ∷ xs) = ground (arith, length-pad n z xs)

pub get_or-map_zero : (xs : List ℕ) (i : ℕ) → get_or {A = ℕ} (map (λ _. 0) xs) i 0 ≡ 0
get_or-map_zero [] i = refl
get_or-map_zero (x ∷ xs) zero = refl
get_or-map_zero (x ∷ xs) (suc i) = get_or-map_zero xs i

module _ {F : Type 0} (fl : FloatOps F) where
  abbrev pub demand_of : FaceControl F → ℕ → ℕ
  demand_of c t = get_or c.demand_by_thread t 0

  abbrev pub budget_of : FaceControl F → ℕ → ℕ
  budget_of c t = get_or c.budget_by_thread t 0

  pub ensure-demand :
      (threads t : ℕ) (c : FaceControl F)
      → demand_of (ensure_thread_slots fl threads c) t ≡ demand_of c t
  unfolding ensure_thread_slots
  ensure-demand threads t c = get_or-pad _ 0 c.demand_by_thread t

  pub ensure-budget :
      (threads t : ℕ) (c : FaceControl F)
      → budget_of (ensure_thread_slots fl threads c) t ≡ budget_of c t
  unfolding ensure_thread_slots
  ensure-budget threads t c = get_or-pad _ 0 c.budget_by_thread t

  pub ensure-length :
      (threads : ℕ) (c : FaceControl F)
      → max_of threads 1 ≤ length (ensure_thread_slots fl threads c).demand_by_thread
  unfolding ensure_thread_slots
  ensure-length threads c = ground (arith, length-pad (max_of threads 1) 0 c.demand_by_thread)

  -- A thread of the forwarder notes a change of its demand: its demand moves by that much, not
  -- below 0, and no other thread's demand or budget changes.
  pub note-demand :
      (threads thread other : ℕ) (delta : ℤ) (c : FaceControl F)
      → thread < threads
      → other ≢ thread
      → let d = note_dt_thread_demand fl threads thread delta c in
        (demand_of d thread ≡ add_delta (demand_of c thread) delta)
        × (demand_of d other ≡ demand_of c other)
        × (budget_of d other ≡ budget_of c other)
  unfolding note_dt_thread_demand set_demand
  note-demand threads thread other delta c h ne =
      let e = ensure_thread_slots fl threads c in
      let v = add_delta (demand_of e thread) delta in
      ground (
        arith,
        ensure-length threads c,
        ensure-demand threads thread c,
        ensure-demand threads other c,
        ensure-budget threads other c,
        get_or-set e.demand_by_thread thread thread v 0,
        get_or-set e.demand_by_thread thread other v 0,
        get_or-set e.budget_by_thread thread other 0 0,
      )

  -- The thread holds a budget only if Interests wait for the face.
  abbrev pub IsBacked : ℕ → FaceControl F → Type 0
  IsBacked t c = demand_of c t ≡ 0 → budget_of c t ≡ 0

  -- Noting a change of demand of any thread keeps every thread's budget backed by demand.
  pub note-IsBacked :
      (threads thread t : ℕ) (delta : ℤ) (c : FaceControl F)
      → IsBacked t c
      → IsBacked t (note_dt_thread_demand fl threads thread delta c)
  unfolding note_dt_thread_demand set_demand
  note-IsBacked threads thread t delta c h =
      let e = ensure_thread_slots fl threads c in
      let v = add_delta (demand_of e thread) delta in
      ground (
        arith,
        ensure-demand threads t c,
        ensure-budget threads t c,
        get_or-set e.demand_by_thread thread t v 0,
        get_or-set e.budget_by_thread thread t 0 0,
      )

  -- Taking a budget: no more than asked for and than the thread holds, and what is taken and what
  -- is left make up what the thread held; the other threads keep their budgets.
  pub take-budget :
      (threads thread other max : ℕ) (c : FaceControl F)
      → other ≢ thread
      → let (grant, d) = take_dt_thread_budget fl threads thread max c in
        (grant ≤ max)
        × (grant + budget_of d thread ≡ budget_of c thread)
        × (budget_of d other ≡ budget_of c other)
  unfolding take_dt_thread_budget
  take-budget threads thread other max c ne =
      let e = ensure_thread_slots fl threads c in
      let b = budget_of e thread in
      let g = if ltb max b then max else b in
      ground (
        arith,
        ensure-budget threads thread c,
        ensure-budget threads other c,
        get_or-beyond e.budget_by_thread thread 0,
        get_or-set e.budget_by_thread thread thread (b - g) 0,
        get_or-set e.budget_by_thread thread other (b - g) 0,
      )

  -- Work-conserving for the asker: it gets all it holds, up to what it asks for.
  pub take-all :
      (threads thread max : ℕ) (c : FaceControl F)
      → thread < length (ensure_thread_slots fl threads c).budget_by_thread
      → (take_dt_thread_budget fl threads thread max c).0
        ≡ (if ltb max (budget_of c thread) then max else budget_of c thread)
  unfolding take_dt_thread_budget
  take-all threads thread max c h = ground (arith, ensure-budget threads thread c)

  pub take-IsBacked :
      (threads thread t max : ℕ) (c : FaceControl F)
      → IsBacked t c
      → IsBacked t (take_dt_thread_budget fl threads thread max c).1
  unfolding take_dt_thread_budget
  take-IsBacked threads thread t max c h =
      let e = ensure_thread_slots fl threads c in
      let b = budget_of e thread in
      let g = if ltb max b then max else b in
      ground (
        arith,
        ensure-demand threads t c,
        ensure-budget threads t c,
        get_or-set e.budget_by_thread thread t (b - g) 0,
      )

  pub clear-IsBacked :
      (now t : ℕ) (c : FaceControl F) → IsBacked t (clear_dt_face_blocked_state fl now c)
  unfolding clear_dt_face_blocked_state
  clear-IsBacked now t c h = get_or-map_zero c.budget_by_thread t

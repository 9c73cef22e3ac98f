-- ===== src/Transmission/Queue.antt =====
-- The Interest queues of one forwarding thread: `enqueueLocalDtInterest`,
-- `noteLocalPrefixEligibleForFace`, `noteDtGlobalPrefixQueue` and `dequeueDtInterestForFaceRR` of
-- mars/fw/fw/multipath.go. A prefix, which is a key of maps only, is a number. What the threads share
-- is used by one thread at a time. That a reader creates or pads a control with zeros is left out. `N` is what a queued packet and its PIT entry are.

pub mod Pending
pub mod Balance
pub mod Dequeue
use mars_icnp.Prelude.{
  ℕ, zero, suc, ◌+◌, ◌-◌, ◌%◌, ◌^◌, Bool, true, false, not, ◌&&◌, ◌||◌, Option, none, some, List,
  [], ◌∷◌, ◌++◌, ltb, leb, ◌==◌, length, get_or, is_empty, if◌then◌else◌,
}
use mars_icnp.Prelude.Int.{ℤ, pos, negsuc}
use mars_icnp.Prelude.Sets.{mem, insert}
use mars_icnp.Prelude.Maps.{find, put, remove}
use mars_icnp.Multipath.Failure.{FailureNodeState}
use mars_icnp.Transmission.Floats.{FloatOps}
use mars_icnp.Transmission.Control.{FaceControl, new_control, add_delta, note_dt_thread_demand}
use mars_icnp.Transmission.Budget.{rotation}

-- `InterestQueueItem`; the packet, its PIT entry and its face of arrival go to `SendInterest`.
pub record Item (N : Type 0) : Type 0 where
  pub packet : N
  pub in_face : ℕ
  pub owner_thread : ℕ
  pub candidate_faces : List ℕ
  pub assigned_face : ℕ
  pub enqueue_time : Option ℕ

-- `dtThreadFaceExecState`, without the counter that no one writes.
pub record ExecState : Type 0 where
  pub prefix_rr : ℕ
  pub tick_count : ℕ
  pub sent_shaped : ℕ
  pub empty_dequeues : ℕ
  pub token_misses : ℕ
  pub send_age_total : ℕ
  pub send_age_max : ℕ
  pub stale_sends : ℕ

abbrev pub new_exec : ExecState
new_exec = record {
  prefix_rr = 0;
  tick_count = 0;
  sent_shaped = 0;
  empty_dequeues = 0;
  token_misses = 0;
  send_age_total = 0;
  send_age_max = 0;
  stale_sends = 0;
}

-- `dtPrefixFaceAssignState`, without the counter for the log.
pub record AssignState (F : Type 0) : Type 0 where
  pub credits : List (ℕ × F)
  pub assign_count : List (ℕ × ℕ)

-- The fields of `Multipath` that data transmission uses, and the state that all threads share:
-- the controls of the faces and the lengths of the queues of the prefixes.
pub record World (F N : Type 0) : Type 0 where
  pub controls : List (ℕ × FaceControl F)
  pub global_queue_len : List (ℕ × ℕ)
  pub queues : List (ℕ × List (Item N))
  pub face_seen : List ℕ
  pub face_order : List ℕ
  pub face_rr : ℕ
  pub face_known : List (ℕ × List ℕ)
  pub face_prefixes : List (ℕ × List ℕ)
  pub exec_by_face : List (ℕ × ExecState)
  pub assign_by_prefix : List (ℕ × AssignState F)
  pub failure_applied_epoch : ℕ
  -- The failure state of the node, which all threads share.
  pub failure : FailureNodeState
  -- The faces and packets for which `SendInterest` succeeded.
  pub sent : List (ℕ × N)

-- A missing key reads as nil.
abbrev pub or_none {ℓ} : {A : Type ℓ} → Option (List A) → List A
or_none none = []
or_none (some xs) = xs

abbrev pub or_zero : Option ℕ → ℕ
or_zero none = 0
or_zero (some n) = n

abbrev pub exec_or_new : Option ExecState → ExecState
exec_or_new none = new_exec
exec_or_new (some e) = e

module _ {N : Type 0} where
  -- The first item of a queue that the thread owns and that is assigned to the face, and the queue
  -- without it.
  unfoldable pub take_item : ℕ → ℕ → List (Item N) → Option (Item N × List (Item N))
  take_item thread face [] = none
  take_item thread face (i ∷ is) =
      if (i.owner_thread == thread) && (i.assigned_face == face)
      then some (i, is)
      else (elim (take_item thread face is) [ none ↦ none | some (j, rest) ↦ some (j, i ∷ rest) ])

abbrev pub control_or_new : {F : Type 0} → FloatOps F → Option (FaceControl F) → FaceControl F
control_or_new fl none = new_control fl
control_or_new fl (some c) = c

module _ {F N : Type 0} (fl : FloatOps F) (threads thread : ℕ) where
  -- `getDtFaceControlState`
  abbrev pub control_of : ℕ → World F N → FaceControl F
  control_of face w = control_or_new fl (find face w.controls)

  -- An operation on the control of a face, which exists afterwards.
  abbrev pub with_control : ℕ → (FaceControl F → FaceControl F) → World F N → World F N
  with_control face f w = record w { controls = put face (f (control_of face w)) w.controls }

  -- `noteDtThreadDemand(face, s.threadID, delta)`
  abbrev pub note_demand : ℕ → ℤ → World F N → World F N
  note_demand face delta w = with_control face (note_dt_thread_demand fl threads thread delta) w

  unfoldable pub note_dt_global_prefix_queue : ℕ → ℤ → World F N → World F N
  unfolding find put
  note_dt_global_prefix_queue prefix delta w = record w {
    global_queue_len =
        put prefix (add_delta (or_zero (find prefix w.global_queue_len)) delta) w.global_queue_len;
  }

  unfoldable pub note_local_prefix_eligible_for_face : ℕ → ℕ → World F N → World F N
  unfolding find put mem insert
  note_local_prefix_eligible_for_face face prefix w =
      let seen = mem face w.face_seen in
      let known = or_none (find face w.face_known) in
      let w' = record w {
        face_seen = insert face w.face_seen;
        face_order = if seen then w.face_order else w.face_order ++ face ∷ [];
      } in
      if mem prefix known then w' else record w' {
        face_known = put face (insert prefix known) w.face_known;
        face_prefixes =
            put face (or_none (find face w.face_prefixes) ++ prefix ∷ []) w.face_prefixes;
      }

  abbrev pub assigned_note : ℕ → ℕ → World F N → World F N
  assigned_note prefix face w =
      note_demand face (pos 1) (note_local_prefix_eligible_for_face face prefix w)

  unfoldable pub enqueue_local_dt_interest : ℕ → Item N → World F N → World F N
  unfolding find put note_dt_global_prefix_queue note_local_prefix_eligible_for_face
      note_dt_thread_demand
  enqueue_local_dt_interest prefix item w =
      let queue = or_none (find prefix w.queues) ++ item ∷ [] in
      let w' =
        note_dt_global_prefix_queue prefix (pos 1)
          (record w { queues = put prefix queue w.queues }) in
      if item.assigned_face == 0 then w' else assigned_note prefix item.assigned_face w'

  abbrev pub exec_of : ℕ → World F N → ExecState
  exec_of face w = exec_or_new (find face w.exec_by_face)

  abbrev pub set_exec : ℕ → ExecState → World F N → World F N
  set_exec face e w = record w { exec_by_face = put face e w.exec_by_face }

  -- What follows once an item is found at a prefix: `rest` is the queue without it.
  unfoldable pub pop_item : ℕ → ℕ → ℕ → Item N → List (Item N) → World F N → World F N
  unfolding find put note_dt_global_prefix_queue note_dt_thread_demand
  pop_item face idx prefix item rest w =
      let w' =
        note_dt_global_prefix_queue prefix (negsuc 0)
          (record w { queues = put prefix rest w.queues }) in
      let w'' =
        if item.assigned_face == 0 then w' else note_demand item.assigned_face (negsuc 0) w' in
      set_exec face (record (exec_of face w) { prefix_rr = idx + 1 }) w''

  -- The loop, over the indices that are left.
  unfoldable pub search_prefixes : ℕ → List ℕ → List ℕ → World F N → Option (Item N) × World F N
  unfolding find take_item pop_item
  search_prefixes face prefixes [] w = (none, w)
  search_prefixes face prefixes (idx ∷ idxs) w =
      let prefix = get_or prefixes idx 0 in
      elim (take_item thread face (or_none (find prefix w.queues))) [
        | none ↦ search_prefixes face prefixes idxs w
        | some (item, rest) ↦ (some item, pop_item face idx prefix item rest w)
      ]

  unfoldable pub dequeue_dt_interest_for_face_rr : ℕ → World F N → Option (Item N) × World F N
  unfolding find rotation search_prefixes
  dequeue_dt_interest_for_face_rr face w =
      let prefixes = or_none (find face w.face_prefixes) in
      let n = length prefixes in
      search_prefixes face prefixes (rotation n ((exec_of face w).prefix_rr % n) n) w

-- ===== src/Transmission/Assign.antt =====
-- The choice of a face for an Interest: `dtCurrentFaceWeight`, `selectDtAssignedFaceWRR`,
-- `blockedFaceFallbackCandidates`, `reassignLocalDtInterestsFromFailedFace` and
-- `syncDtFailureState` of mars/fw/fw/multipath.go.

pub mod Selecting
pub mod Moves
use mars_icnp.Prelude.{
  ℕ, zero, suc, ◌+◌, ◌%◌, ◌^◌, Bool, true, false, not, ◌&&◌, ◌||◌, Option, none, some, List, [],
  ◌∷◌, ltb, ◌==◌, is_empty, if◌then◌else◌,
}
use mars_icnp.Prelude.Int.{ℤ, pos, negsuc}
use mars_icnp.Prelude.Text.{Str}
use mars_icnp.Prelude.Sets.{mem}
use mars_icnp.Prelude.Maps.{find, put}
use mars_icnp.Multipath.Failure.{
  FailureConfig, FailureSnapshot, dt_failure_snapshot, dt_filter_faces_without_failure,
}
use mars_icnp.Transmission.Floats.{FloatOps}
use mars_icnp.Transmission.Control.{FaceControl}
use mars_icnp.Transmission.Queue.{
  Item, AssignState, World, or_zero, control_of, note_demand, note_local_prefix_eligible_for_face,
}

abbrev pub assign_or_new : {F : Type 0} → Option (AssignState F) → AssignState F
assign_or_new none = record { credits = []; assign_count = [] }
assign_or_new (some a) = a

-- A map without the keys that are not in the list.
unfoldable pub keep_live {ℓ} : {V : Type ℓ} → List ℕ → List (ℕ × V) → List (ℕ × V)
unfolding mem
keep_live live [] = []
keep_live live ((k, v) ∷ m) = if mem k live then (k, v) ∷ keep_live live m else keep_live live m

-- The locals of the loop; the best credit is read only once a face is selected.
pub record Choice (F : Type 0) : Type 0 where
  pub credits : List (ℕ × F)
  pub total_weight : F
  pub selected : ℕ
  pub best_credit : F

module _ {F : Type 0} (fl : FloatOps F) where
  open fl use {f_zero, f_one, f_minus_one, f_add, f_sub, f_lt, f_eq}

  abbrev pub credit_or_zero : Option F → F
  credit_or_zero none = f_zero
  credit_or_zero (some c) = c

  unfoldable pub consider_face : (ℕ → F) → ℕ → Choice F → Choice F
  unfolding find put
  consider_face weight face c =
      let credit = f_add (credit_or_zero (find face c.credits)) (weight face) in
      let better =
        (c.selected == 0)
        || (f_lt c.best_credit credit || (f_eq credit c.best_credit && ltb face c.selected)) in
      record {
        credits = put face credit c.credits;
        total_weight = f_add c.total_weight (weight face);
        selected = if better then face else c.selected;
        best_credit = if better then credit else c.best_credit;
      }

  unfoldable pub consider_faces : (ℕ → F) → List ℕ → Choice F → Choice F
  unfolding consider_face
  consider_faces weight [] c = c
  consider_faces weight (face ∷ faces) c = consider_faces weight faces (consider_face weight face c)

  abbrev pub start_choice : AssignState F → Choice F
  start_choice a = record {
    credits = a.credits;
    total_weight = f_zero;
    selected = 0;
    best_credit = f_minus_one;
  }

  -- The selected face, 0 if there is none, and the state of the prefix.
  unfoldable pub choose_face : (ℕ → F) → List ℕ → AssignState F → ℕ × AssignState F
  unfolding consider_faces keep_live find put
  choose_face weight faces a =
      let c = consider_faces weight faces (start_choice a) in
      let credits = keep_live faces c.credits in
      let counts = keep_live faces a.assign_count in
      let s = c.selected in
      if s == 0 then (0, record { credits = credits; assign_count = counts }) else (
        s,
        record {
          credits = put s (f_sub (credit_or_zero (find s credits)) c.total_weight) credits;
          assign_count = put s ((or_zero (find s counts) + 1) % 2 ^ 64) counts;
        },
      )

module _ {F N : Type 0} (fl : FloatOps F) (threads thread : ℕ) where
  open fl use {f_zero, f_one, f_lt, f_eq}

  unfoldable pub dt_current_face_weight : World F N → ℕ → F
  unfolding find
  dt_current_face_weight w face =
      let rate = (control_of fl threads thread face w).rate in
      if f_lt rate f_zero || f_eq rate f_zero then f_one else rate

  unfoldable pub select_dt_assigned_face_wrr : ℕ → List ℕ → World F N → ℕ × World F N
  unfolding dt_current_face_weight choose_face find put
  select_dt_assigned_face_wrr prefix faces w =
      let (face, a) =
        choose_face fl (dt_current_face_weight w) faces
          (assign_or_new (find prefix w.assign_by_prefix)) in
      if is_empty faces
      then (0, w)
      else (face, record w { assign_by_prefix = put prefix a w.assign_by_prefix })

  module _ (valid_faces : ℕ → List ℕ) where
    -- `valid_faces prefix` is `DtValidFaces` of the prefix, from path discovery.
    abbrev pub survivors_of : ℕ → ℕ → Item N → List ℕ
    survivors_of blocked prefix item =
        let own = dt_filter_faces_without_failure item.candidate_faces blocked in
        if is_empty own then dt_filter_faces_without_failure (valid_faces prefix) blocked else own

    -- One item of a queue: whether it moved, the item, and the state.
    unfoldable pub reassign_item : ℕ → ℕ → Item N → World F N → Bool × Item N × World F N
    unfolding dt_filter_faces_without_failure select_dt_assigned_face_wrr
        note_local_prefix_eligible_for_face
    reassign_item blocked prefix item w =
        let survivors = survivors_of blocked prefix item in
        let (face, w1) = select_dt_assigned_face_wrr prefix survivors w in
        let w2 = note_demand fl threads thread blocked (negsuc 0) w1 in
        let w3 = note_demand fl threads thread face (pos 1) w2 in
        if not (item.owner_thread == thread) || not (item.assigned_face == blocked)
        then (false, item, w)
        else if is_empty survivors
        then (false, item, w)
        else if face == 0
        then (false, item, w1)
        else (
          true,
          record item { candidate_faces = survivors; assigned_face = face },
          note_local_prefix_eligible_for_face fl threads thread face prefix w3,
        )

    unfoldable pub reassign_items :
        ℕ → ℕ → List (Item N) → World F N → ℕ × List (Item N) × World F N
    unfolding reassign_item
    reassign_items blocked prefix [] w = (0, [], w)
    reassign_items blocked prefix (i ∷ is) w =
        let (moved, j, w') = reassign_item blocked prefix i w in
        let (n, js, w'') = reassign_items blocked prefix is w' in
        (if moved then suc n else n, j ∷ js, w'')

    -- The loop over the queues, whose items change in place.
    unfoldable pub reassign_queues :
        ℕ → List (ℕ × List (Item N)) → World F N → ℕ × List (ℕ × List (Item N)) × World F N
    unfolding reassign_items
    reassign_queues blocked [] w = (0, [], w)
    reassign_queues blocked ((p, is) ∷ qs) w =
        let (n, js, w') = reassign_items blocked p is w in
        let (m, rs, w'') = reassign_queues blocked qs w' in (n + m, (p, js) ∷ rs, w'')

    unfoldable pub reassign_local_dt_interests_from_failed_face : ℕ → World F N → ℕ × World F N
    unfolding reassign_queues
    reassign_local_dt_interests_from_failed_face blocked w =
        let (n, qs, w') = reassign_queues blocked w.queues w in
        if blocked == 0 then (0, w) else (n, record w' { queues = qs })

    unfoldable pub sync_dt_failure_state :
        FailureConfig → Str → ℕ → World F N → FailureSnapshot × World F N
    unfolding dt_failure_snapshot reassign_local_dt_interests_from_failed_face
    sync_dt_failure_state cfg node now w =
        let (snapshot, st) = dt_failure_snapshot cfg node now w.failure in
        let w' = record w { failure = st } in
        let (n, w'') = reassign_local_dt_interests_from_failed_face snapshot.failed_face w' in
        if snapshot.active
          && (not (snapshot.activation_epoch == 0)
              && not (snapshot.activation_epoch == w.failure_applied_epoch))
        then (snapshot, record w'' { failure_applied_epoch = snapshot.activation_epoch })
        else (snapshot, w')

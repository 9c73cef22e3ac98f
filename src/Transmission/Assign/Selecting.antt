-- ===== src/Transmission/Assign/Selecting.antt =====
-- The face that the weighted round robin selects is one of the candidates.
use mars_icnp.Prelude.{
  ℕ, ◌≡◌, ◌≢◌, ◌⊎◌, inl, inr, refl, true, false, none, List, [], ◌∷◌, is_empty, if◌then◌else◌,
  arith,
}
use mars_icnp.Prelude.Sets.{mem}
use mars_icnp.Prelude.Maps.{find, find-put}
use mars_icnp.Transmission.Floats.{FloatOps}
use mars_icnp.Transmission.Queue.{AssignState, World}
use mars_icnp.Transmission.Assign.{
  Choice, keep_live, consider_face, consider_faces, choose_face, select_dt_assigned_face_wrr,
  dt_current_face_weight, start_choice, credit_or_zero, assign_or_new,
}

find-keep_live {ℓ} :
    {V : Type ℓ} (k : ℕ) (live : List ℕ) (m : List (ℕ × V))
    → find k (keep_live live m) ≡ (if mem k live then find k m else none)
unfolding find keep_live
find-keep_live k live [] = ground arith
find-keep_live k live ((j, v) ∷ m) = ground (arith, find-keep_live k live m)

module _ {F : Type 0} (fl : FloatOps F) where
  -- The selected face is one that was selected before or one of the list; it is not 0 if there is
  -- a face other than 0.
  consider-selected :
      (weight : ℕ → F) (faces : List ℕ) (c : Choice F)
      → ((consider_faces fl weight faces c).selected ≡ c.selected)
        ⊎ (mem (consider_faces fl weight faces c).selected faces ≡ true)
  unfolding consider_faces consider_face mem
  consider-selected weight [] c = inl refl
  consider-selected weight (face ∷ faces) c =
      ground (arith, consider-selected weight faces (consider_face fl weight face c))

  consider-nonzero :
      (weight : ℕ → F) (faces : List ℕ) (c : Choice F)
      → mem 0 faces ≡ false
      → (c.selected ≢ 0) ⊎ (is_empty faces ≡ false)
      → (consider_faces fl weight faces c).selected ≢ 0
  unfolding consider_faces consider_face mem
  consider-nonzero weight [] c z h = ground arith
  consider-nonzero weight (face ∷ faces) c z h =
      consider-nonzero weight faces (consider_face fl weight face c) (ground arith) (ground arith)

  choose-mem :
      (weight : ℕ → F) (faces : List ℕ) (a : AssignState F)
      → is_empty faces ≡ false
      → mem 0 faces ≡ false
      → (mem (choose_face fl weight faces a).0 faces ≡ true)
        × ((choose_face fl weight faces a).0 ≢ 0)
  unfolding choose_face
  choose-mem weight faces a e z =
      let s = consider-selected weight faces (start_choice fl a) in
      let n = consider-nonzero weight faces (start_choice fl a) z (inr e) in ground arith

  choose-credits :
      (weight : ℕ → F) (k : ℕ) (faces : List ℕ) (a : AssignState F)
      → is_empty faces ≡ false
      → mem 0 faces ≡ false
      → mem k faces ≡ false
      → find k (choose_face fl weight faces a).1.credits ≡ none
  unfolding choose_face
  choose-credits weight k faces a e z m =
      let c = consider_faces fl weight faces (start_choice fl a) in
      let credits = keep_live faces c.credits in
      let credit = fl.f_sub (credit_or_zero fl (find c.selected credits)) c.total_weight in
      let s = consider-selected weight faces (start_choice fl a) in
      let n = consider-nonzero weight faces (start_choice fl a) z (inr e) in
      ground (arith, find-put k c.selected credit credits, find-keep_live k faces c.credits)

module _ {F N : Type 0} (fl : FloatOps F) (threads thread : ℕ) where
  -- Among candidates other than 0, of which there is one, the face that is selected is one of the
  -- candidates, and is not 0; whatever the weights are.
  pub select-mem :
      (prefix : ℕ) (faces : List ℕ) (w : World F N)
      → is_empty faces ≡ false
      → mem 0 faces ≡ false
      → (mem (select_dt_assigned_face_wrr fl threads thread prefix faces w).0 faces ≡ true)
        × ((select_dt_assigned_face_wrr fl threads thread prefix faces w).0 ≢ 0)
  unfolding select_dt_assigned_face_wrr choose_face
  select-mem prefix faces w e z =
      let weight = dt_current_face_weight fl threads thread w in
      let a = assign_or_new (find prefix w.assign_by_prefix) in
      let p = choose-mem fl weight faces a e z in ground (arith, e)

  -- Then the prefix keeps no credit for a face that is not a candidate.
  pub select-credits :
      (prefix k : ℕ) (faces : List ℕ) (w : World F N)
      → is_empty faces ≡ false
      → mem 0 faces ≡ false
      → mem k faces ≡ false
      → let w' = (select_dt_assigned_face_wrr fl threads thread prefix faces w).1 in
        find k (assign_or_new (find prefix w'.assign_by_prefix)).credits ≡ none
  unfolding select_dt_assigned_face_wrr
  select-credits prefix k faces w e z m =
      let weight = dt_current_face_weight fl threads thread w in
      let a = assign_or_new (find prefix w.assign_by_prefix) in
      let a' = (choose_face fl weight faces a).1 in
      ground (
        arith,
        e,
        choose-credits fl weight k faces a e z m,
        find-put prefix prefix a' w.assign_by_prefix,
      )

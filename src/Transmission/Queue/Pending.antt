-- ===== src/Transmission/Queue/Pending.antt =====
-- The demand that a thread notes for a face is the number of its queued Interests assigned to it.
use mars_icnp.Prelude.{
  ℕ, ◌+◌, ◌<◌, ◌≡◌, inl, inr, ◌&&◌, some, List, [], ◌∷◌, ◌++◌, ◌==◌, get_or, get_or-set,
  if◌then◌else◌, arith, Option-cases,
}
use mars_icnp.Prelude.Int.{ℤ}
use mars_icnp.Prelude.Maps.{find, put, find-put}
use mars_icnp.Transmission.Floats.{FloatOps}
use mars_icnp.Transmission.Control.{
  FaceControl, add_delta, note_dt_thread_demand, ensure_thread_slots, set_demand,
}
use mars_icnp.Transmission.Control.Demand.{ensure-length, ensure-demand}
use mars_icnp.Transmission.Queue.{Item, World, or_none, take_item, control_of, note_demand}

module _ {N : Type 0} (thread face : ℕ) where
  -- The queued Interests of the thread that are assigned to the face.
  abbrev pub count_item : Item N → ℕ
  count_item i = if (i.owner_thread == thread) && (i.assigned_face == face) then 1 else 0

  abbrev pub count_items : List (Item N) → ℕ
  count_items [] = 0
  count_items (i ∷ is) = count_item i + count_items is

  abbrev pub count_queues : List (ℕ × List (Item N)) → ℕ
  count_queues [] = 0
  count_queues ((p, is) ∷ qs) = count_items is + count_queues qs

  pub count-append :
      (is : List (Item N)) (i : Item N) → count_items (is ++ i ∷ []) ≡ count_items is + count_item i
  count-append [] i = omega arith
  count-append (j ∷ is) i = omega (arith, count-append is i)

  pub count-put :
      (p : ℕ) (is : List (Item N)) (qs : List (ℕ × List (Item N)))
      → count_queues (put p is qs) + count_items (or_none (find p qs))
        ≡ count_queues qs + count_items is
  unfolding put find
  count-put p is [] = omega arith
  count-put p is ((q, js) ∷ qs) = ground (arith, count-put p is qs)

-- What is taken is assigned to the face and owned by the thread; counts for any face.
pub take_item-count :
    {N : Type 0} (thread face f : ℕ) (is rest : List (Item N)) (i : Item N)
    → take_item thread face is ≡ some (i, rest)
    → (count_items thread f is ≡ count_item thread f i + count_items thread f rest)
      × (i.owner_thread ≡ thread)
      × (i.assigned_face ≡ face)
unfolding take_item
take_item-count thread face f [] rest i e = ground arith
take_item-count thread face f (j ∷ is) rest i e = elim (Option-cases (take_item thread face is)) [
  | inl n ↦ ground arith
  | inr ((k, r), s) ↦ let p = take_item-count thread face f is r k s in ground arith
]

module _ {F : Type 0} (fl : FloatOps F) (threads thread : ℕ) (known : thread < threads) where
  note-own :
      (delta : ℤ) (c : FaceControl F)
      → get_or (note_dt_thread_demand fl threads thread delta c).demand_by_thread thread 0
        ≡ add_delta (get_or c.demand_by_thread thread 0) delta
  unfolding note_dt_thread_demand set_demand
  note-own delta c =
      let e = ensure_thread_slots fl threads c in
      let v = add_delta (get_or e.demand_by_thread thread 0) delta in
      ground (
        arith,
        ensure-length fl threads c,
        ensure-demand fl threads thread c,
        get_or-set e.demand_by_thread thread thread v 0,
      )

module _ {F N : Type 0} (fl : FloatOps F) (threads thread : ℕ) (known : thread < threads) where
  abbrev pub demand_at : ℕ → World F N → ℕ
  demand_at f w = get_or (control_of fl threads thread f w).demand_by_thread thread 0

  abbrev pub queued_at : ℕ → World F N → ℕ
  queued_at f w = count_queues thread f w.queues

  control-note :
      (f g : ℕ) (delta : ℤ) (w : World F N)
      → control_of fl threads thread f (note_demand fl threads thread g delta w) ≡ (
          if g == f
          then note_dt_thread_demand fl threads thread delta (control_of fl threads thread g w)
          else control_of fl threads thread f w)
  control-note f g delta w =
      let c = note_dt_thread_demand fl threads thread delta (control_of fl threads thread g w) in
      ground (arith, find-put f g c w.controls)

  pub demand-note :
      (f g : ℕ) (delta : ℤ) (w : World F N)
      → demand_at f (note_demand fl threads thread g delta w)
        ≡ (if g == f then add_delta (demand_at f w) delta else demand_at f w)
  demand-note f g delta w = ground (
    arith,
    control-note f g delta w,
    note-own fl threads thread known delta (control_of fl threads thread g w),
  )

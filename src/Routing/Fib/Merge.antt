-- ===== src/Routing/Fib/Merge.antt =====
-- The costs after a merge are the least of those that the new entries give to a face.
use mars_icnp.Prelude.{
  ℕ, ◌≤◌, ◌<◌, ◌≡◌, refl, Bool, true, false, List, [], ◌∷◌, ltb, leb, ◌==◌, if◌then◌else◌, arith,
}
use mars_icnp.Routing.Fib.{
  cost_pfx_infinity, FibEntry, reset_costs, merge_entry, merge_entries, final_entries,
}

-- The cost of a face, infinity if it has no entry; and the cost before.
abbrev pub cost_at : ℕ → List FibEntry → ℕ
cost_at f [] = cost_pfx_infinity
cost_at f (e ∷ es) = if e.face_id == f then e.cost else cost_at f es

abbrev pub prev_at : ℕ → List FibEntry → ℕ
prev_at f [] = cost_pfx_infinity
prev_at f (e ∷ es) = if e.face_id == f then e.prev_cost else prev_at f es

abbrev pub has_face : ℕ → List FibEntry → Bool
has_face f [] = false
has_face f (e ∷ es) = if e.face_id == f then true else has_face f es

-- A face has one entry at most, and no cost is above infinity.
abbrev pub IsEntries : List FibEntry → Type 0
IsEntries [] = Unit {0}
IsEntries (e ∷ es) = (has_face e.face_id es ≡ false) × (e.cost ≤ cost_pfx_infinity) × IsEntries es

-- The least cost of a face among new entries, infinity if there is none below it.
unfoldable pub least_cost : ℕ → List FibEntry → ℕ → ℕ
least_cost f [] c = c
least_cost f (n ∷ ns) c =
    least_cost f ns (if n.face_id == f then (if ltb n.cost c then n.cost else c) else c)

has_face-reset : (f : ℕ) (es : List FibEntry) → has_face f (reset_costs es) ≡ has_face f es
unfolding reset_costs
has_face-reset f [] = refl
has_face-reset f (e ∷ es) = ground (arith, has_face-reset f es)

pub reset-IsEntries : (es : List FibEntry) → IsEntries es → IsEntries (reset_costs es)
unfolding reset_costs
reset-IsEntries [] i = tt
reset-IsEntries (e ∷ es) i = ground (arith, reset-IsEntries es i.2, has_face-reset e.face_id es)

pub reset-cost : (f : ℕ) (es : List FibEntry) → cost_at f (reset_costs es) ≡ cost_pfx_infinity
unfolding reset_costs
reset-cost f [] = refl
reset-cost f (e ∷ es) = ground (arith, reset-cost f es)

pub reset-prev : (f : ℕ) (es : List FibEntry) → prev_at f (reset_costs es) ≡ cost_at f es
unfolding reset_costs
reset-prev f [] = refl
reset-prev f (e ∷ es) = ground (arith, reset-prev f es)

has_face-merge :
    (f : ℕ) (n : FibEntry) (es : List FibEntry)
    → has_face f (merge_entry n es) ≡ (if n.face_id == f then true else has_face f es)
unfolding merge_entry
has_face-merge f n [] = ground arith
has_face-merge f n (e ∷ es) = ground (arith, has_face-merge f n es)

merge-IsEntries :
    (n : FibEntry) (es : List FibEntry)
    → n.cost < cost_pfx_infinity
    → IsEntries es
    → IsEntries (merge_entry n es)
unfolding merge_entry
merge-IsEntries n [] l i = ground arith
merge-IsEntries n (e ∷ es) l i =
    ground (arith, merge-IsEntries n es l, has_face-merge e.face_id n es)

merge-cost :
    (f : ℕ) (n : FibEntry) (es : List FibEntry)
    → n.cost < cost_pfx_infinity
    → cost_at f (merge_entry n es) ≡ (
        if n.face_id == f
        then (if ltb n.cost (cost_at f es) then n.cost else cost_at f es)
        else cost_at f es)
unfolding merge_entry
merge-cost f n [] l = ground arith
merge-cost f n (e ∷ es) l = ground (arith, merge-cost f n es l)

merge-prev :
    (f : ℕ) (n : FibEntry) (es : List FibEntry) → prev_at f (merge_entry n es) ≡ prev_at f es
unfolding merge_entry
merge-prev f n [] = ground arith
merge-prev f n (e ∷ es) = ground (arith, merge-prev f n es)

pub cost-bound : (f : ℕ) (es : List FibEntry) → IsEntries es → cost_at f es ≤ cost_pfx_infinity
cost-bound f [] i = ground arith
cost-bound f (e ∷ es) i = ground (arith, cost-bound f es i.2)

-- The three of them for all new entries.
pub merges :
    (f : ℕ) (ns es : List FibEntry)
    → IsEntries es
    → IsEntries (merge_entries ns es)
      × (cost_at f (merge_entries ns es) ≡ least_cost f ns (cost_at f es))
      × (prev_at f (merge_entries ns es) ≡ prev_at f es)
unfolding merge_entries least_cost
merges f [] es i = (i, refl, refl)
merges f (n ∷ ns) es i = ground (
  arith,
  merges f ns (if leb cost_pfx_infinity n.cost then es else merge_entry n es),
  merge-IsEntries n es,
  merge-cost f n es,
  merge-prev f n es,
  cost-bound f es i,
)

has_face-final :
    (f : ℕ) (es : List FibEntry) → has_face f es ≡ false → (has_face f (final_entries es) ≡ false)
unfolding final_entries
has_face-final f [] h = refl
has_face-final f (e ∷ es) h = ground (arith, has_face-final f es)

cost-absent :
    (f : ℕ) (es : List FibEntry) → has_face f es ≡ false → cost_at f es ≡ cost_pfx_infinity
cost-absent f [] h = refl
cost-absent f (e ∷ es) h = ground (arith, cost-absent f es)

pub final-cost :
    (f : ℕ) (es : List FibEntry) → IsEntries es → cost_at f (final_entries es) ≡ cost_at f es
unfolding final_entries
final-cost f [] i = refl
final-cost f (e ∷ es) i = ground (
  arith,
  final-cost f es i.2,
  has_face-final e.face_id es i.0,
  cost-absent e.face_id (final_entries es),
)

pub final-IsEntries : (es : List FibEntry) → IsEntries es → IsEntries (final_entries es)
unfolding final_entries
final-IsEntries [] i = tt
final-IsEntries (e ∷ es) i = ground (arith, final-IsEntries es i.2, has_face-final e.face_id es i.0)

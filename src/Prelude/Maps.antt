-- ===== src/Prelude/Maps.antt =====
-- Go's `map[uint64]V` as an association list; the order of the list is the order of iteration.
use mars_icnp.Prelude.Tests.{◌==◌, if◌then◌else◌}
use Prim.Native.Nat.{ℕ}
use mathlib.Core.Path.{◌≡◌, refl}
use mathlib.Core.Option.{Option, none, some}
use mathlib.Core.List.{List, [], ◌∷◌}
use native.Mathlib.Omega.{arith}

module _ {ℓ} {V : Type ℓ} where
  -- `v, ok := m[k]`.
  unfoldable pub find : ℕ → List (ℕ × V) → Option V
  find k [] = none
  find k ((j, v) ∷ m) = if j == k then some v else find k m

  -- `m[k] = v`.
  unfoldable pub put : ℕ → V → List (ℕ × V) → List (ℕ × V)
  put k v [] = (k, v) ∷ []
  put k v ((j, w) ∷ m) = if j == k then (j, v) ∷ m else (j, w) ∷ put k v m

  -- `delete(m, k)`.
  unfoldable pub remove : ℕ → List (ℕ × V) → List (ℕ × V)
  remove k [] = []
  remove k ((j, w) ∷ m) = if j == k then remove k m else (j, w) ∷ remove k m

  -- Each key stands once.
  abbrev pub DistinctKeys : List (ℕ × V) → Type ℓ
  DistinctKeys [] = Unit {ℓ}
  DistinctKeys ((k, v) ∷ m) = (find k m ≡ none) × DistinctKeys m

  pub find-put :
      (j k : ℕ) (v : V) (m : List (ℕ × V))
      → find j (put k v m) ≡ (if k == j then some v else find j m)
  unfolding find put
  find-put j k v [] = ground arith
  find-put j k v ((i, w) ∷ m) = ground (arith, find-put j k v m)

  pub find-remove :
      (j k : ℕ) (m : List (ℕ × V)) → find j (remove k m) ≡ (if k == j then none else find j m)
  unfolding find remove
  find-remove j k [] = ground arith
  find-remove j k ((i, w) ∷ m) = ground (arith, find-remove j k m)

  pub put-DistinctKeys :
      (k : ℕ) (v : V) (m : List (ℕ × V)) → DistinctKeys m → DistinctKeys (put k v m)
  unfolding find put
  put-DistinctKeys k v [] d = ground arith
  put-DistinctKeys k v ((i, w) ∷ m) d = ground (arith, put-DistinctKeys k v m d.1, find-put i k v m)

  pub remove-DistinctKeys : (k : ℕ) (m : List (ℕ × V)) → DistinctKeys m → DistinctKeys (remove k m)
  unfolding find remove
  remove-DistinctKeys k [] d = tt
  remove-DistinctKeys k ((i, w) ∷ m) d =
      ground (arith, remove-DistinctKeys k m d.1, find-remove i k m)

  pub remove-absent : (k : ℕ) (m : List (ℕ × V)) → find k m ≡ none → remove k m ≡ m
  unfolding find remove
  remove-absent k [] e = refl
  remove-absent k ((i, w) ∷ m) e = ground (arith, remove-absent k m)

-- ===== src/Prelude/Sets.antt =====
-- Go's `map[uint64]bool` with `true` entries only, as a list of its keys without repetition.
use mars_icnp.Prelude.Tests.{◌==◌, if◌then◌else◌}
use Prim.Native.Nat.{ℕ}
use mathlib.Core.Path.{◌≡◌, refl}
use mathlib.Core.Bool.{Bool, true, false}
use mathlib.Core.List.{List, [], ◌∷◌, ◌++◌}
use native.Mathlib.Omega.{arith}

-- `m[x]`, and a search of a slice for `x`.
unfoldable pub mem : ℕ → List ℕ → Bool
mem x [] = false
mem x (y ∷ ys) = if y == x then true else mem x ys

-- `m[x] = true`.
unfoldable pub insert : ℕ → List ℕ → List ℕ
insert x s = if mem x s then s else x ∷ s

-- `delete(m, x)`.
unfoldable pub delete : ℕ → List ℕ → List ℕ
delete x [] = []
delete x (y ∷ ys) = if y == x then delete x ys else y ∷ delete x ys

abbrev pub Distinct : List ℕ → Type 0
Distinct [] = Unit {0}
Distinct (x ∷ xs) = (mem x xs ≡ false) × Distinct xs

pub mem-insert : (y x : ℕ) (s : List ℕ) → mem y (insert x s) ≡ (if x == y then true else mem y s)
unfolding insert mem
mem-insert y x s = ground arith

pub mem-delete : (y x : ℕ) (s : List ℕ) → mem y (delete x s) ≡ (if x == y then false else mem y s)
unfolding mem delete
mem-delete y x [] = ground arith
mem-delete y x (z ∷ s) = ground (arith, mem-delete y x s)

pub delete-nil : (x : ℕ) → delete x [] ≡ []
unfolding delete
delete-nil x = refl

pub insert-Distinct : (x : ℕ) (s : List ℕ) → Distinct s → Distinct (insert x s)
unfolding insert
insert-Distinct x s d = ground arith

pub delete-Distinct : (x : ℕ) (s : List ℕ) → Distinct s → Distinct (delete x s)
unfolding delete
delete-Distinct x [] d = tt
delete-Distinct x (y ∷ s) d = ground (arith, delete-Distinct x s d.1, mem-delete y x s)

pub mem-snoc : (y x : ℕ) (xs : List ℕ) → mem y (xs ++ x ∷ []) ≡ (if x == y then true else mem y xs)
unfolding mem
mem-snoc y x [] = ground arith
mem-snoc y x (z ∷ xs) = ground (arith, mem-snoc y x xs)

pub snoc-Distinct : (x : ℕ) (xs : List ℕ) → Distinct xs → mem x xs ≡ false → Distinct (xs ++ x ∷ [])
unfolding mem
snoc-Distinct x [] d h = (refl, tt)
snoc-Distinct x (y ∷ xs) d h = ground (arith, mem-snoc y x xs, snoc-Distinct x xs d.1)

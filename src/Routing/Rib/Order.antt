-- ===== src/Routing/Rib/Order.antt =====
-- The two best next hops depend on the map of costs only, not on the order of iteration.
use mars_icnp.Prelude.{ℕ, ◌<◌, ◌≡◌, sym, ◌∙◌, List, arith}
use mars_icnp.Prelude.Maps.{find, DistinctKeys}
use mars_icnp.Routing.Rib.{cost_infinity}
use mars_icnp.Routing.Rib.Selection.{
  Before, chosen, best-first, best-second, best-found, best-found_second, best-bounds,
}

Before-antisym : (a h c k : ℕ) → Before a h c k → Before c k a h → (a ≡ c) × (h ≡ k)
Before-antisym a h c k p q = ground arith

-- Two lists of the same map.
module _ (xs ys : List (ℕ × ℕ)) (dx : DistinctKeys xs) (dy : DistinctKeys ys)
    (same : (h : ℕ) → find h xs ≡ find h ys) where
  -- The first choice of one list is not after that of the other.
  first-Before :
      (chosen ys).low1 < cost_infinity
      → Before (chosen xs).low1 (chosen xs).hop1 (chosen ys).low1 (chosen ys).hop1
  first-Before l =
      best-first xs (chosen ys).hop1 (chosen ys).low1 (same (chosen ys).hop1 ∙ best-found ys dy l)

  second-Before :
      (chosen ys).hop1 ≡ (chosen xs).hop1
      → (chosen ys).low2 < cost_infinity
      → Before (chosen xs).low2 (chosen xs).hop2 (chosen ys).low2 (chosen ys).hop2
  second-Before e l =
      let f = best-found_second ys dy l in
      best-second xs (chosen ys).hop2 (chosen ys).low2 (same (chosen ys).hop2 ∙ f.0)
        (λ q. f.1 (q ∙ sym e))

module _ (xs ys : List (ℕ × ℕ)) (dx : DistinctKeys xs) (dy : DistinctKeys ys)
    (same : (h : ℕ) → find h xs ≡ find h ys) where
  first_same : ((chosen xs).low1 ≡ (chosen ys).low1) × ((chosen xs).hop1 ≡ (chosen ys).hop1)
  first_same =
      let back = λ (h : ℕ). sym (same h) in
      ground (
        arith,
        best-bounds xs,
        best-bounds ys,
        first-Before xs ys dx dy same,
        first-Before ys xs dy dx back,
      )

  second_same : ((chosen xs).low2 ≡ (chosen ys).low2) × ((chosen xs).hop2 ≡ (chosen ys).hop2)
  second_same =
      let back = λ (h : ℕ). sym (same h) in
      let e = first_same.1 in
      ground (
        arith,
        best-bounds xs,
        best-bounds ys,
        second-Before xs ys dx dy same (sym e),
        second-Before ys xs dy dx back e,
      )

-- Two lists of costs that are the same map, each with distinct neighbours, give the same two next
-- hops and the same two lowest costs.
pub best-order :
    (xs ys : List (ℕ × ℕ))
    → DistinctKeys xs
    → DistinctKeys ys
    → ((h : ℕ) → find h xs ≡ find h ys)
    → chosen xs ≡ chosen ys
best-order xs ys dx dy same =
    let p = first_same xs ys dx dy same in let q = second_same xs ys dx dy same in cc

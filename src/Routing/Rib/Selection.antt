-- ===== src/Routing/Rib/Selection.antt =====
-- The two best next hops of an entry, whatever the order of iteration over the costs.
use mars_icnp.Prelude.{ℕ, ◌≤◌, ◌<◌, ◌≡◌, ◌≢◌, ◌⊎◌, none, some, List, [], ◌∷◌, arith}
use mars_icnp.Prelude.Maps.{find, DistinctKeys}
use mars_icnp.Routing.Rib.{cost_infinity, Best, no_best, consider, best_hops}

-- The cost and the hop come before the other cost and hop, or are the same.
abbrev pub Before : ℕ → ℕ → ℕ → ℕ → Type 0
Before c h d k = (c < d) ⊎ ((c ≡ d) × (h ≤ k))

-- The first is before the second, and what was not found is 0.
abbrev pub WellFormed : Best → Type 0
WellFormed b =
    Before b.low1 b.hop1 b.low2 b.hop2
    × (b.low2 ≤ cost_infinity)
    × (b.low1 ≡ cost_infinity → b.hop1 ≡ 0)
    × (b.low2 ≡ cost_infinity → b.hop2 ≡ 0)

-- The hop is the first, or not before the second.
abbrev Covers : Best → ℕ → ℕ → Type 0
Covers b h c = ((h ≡ b.hop1) × (c ≡ b.low1)) ⊎ Before b.low2 b.hop2 c h

consider-WellFormed : (hop cost : ℕ) (b : Best) → WellFormed b → WellFormed (consider hop cost b)
unfolding consider
consider-WellFormed hop cost b w = ground arith

consider-Covers :
    (hop cost h c : ℕ) (b : Best) → WellFormed b → Covers b h c → Covers (consider hop cost b) h c
unfolding consider
consider-Covers hop cost h c b w v = ground arith

consider-itself : (hop cost : ℕ) (b : Best) → WellFormed b → Covers (consider hop cost b) hop cost
unfolding consider
consider-itself hop cost b w = ground arith

best-WellFormed : (costs : List (ℕ × ℕ)) (b : Best) → WellFormed b → WellFormed (best_hops costs b)
unfolding best_hops
best-WellFormed [] b w = w
best-WellFormed ((hop, cost) ∷ costs) b w =
    best-WellFormed costs (consider hop cost b) (consider-WellFormed hop cost b w)

best-keeps :
    (costs : List (ℕ × ℕ)) (b : Best) (h c : ℕ)
    → WellFormed b
    → Covers b h c
    → Covers (best_hops costs b) h c
unfolding best_hops
best-keeps [] b h c w v = v
best-keeps ((hop, cost) ∷ costs) b h c w v =
    best-keeps costs (consider hop cost b) h c (consider-WellFormed hop cost b w)
      (consider-Covers hop cost h c b w v)

best-Covers :
    (costs : List (ℕ × ℕ)) (b : Best) (h c : ℕ)
    → WellFormed b
    → find h costs ≡ some c
    → Covers (best_hops costs b) h c
unfolding best_hops find
best-Covers [] b h c w e = ground arith
best-Covers ((hop, cost) ∷ costs) b h c w e =
    let w' = consider-WellFormed hop cost b w in
    ground (
      arith,
      best-keeps costs (consider hop cost b) hop cost w' (consider-itself hop cost b w),
      best-Covers costs (consider hop cost b) h c w',
    )

-- What was found is in the map, and comes once: it is not among the costs to come.
abbrev IsFound : List (ℕ × ℕ) → List (ℕ × ℕ) → Best → Type 0
IsFound all rest b =
    (b.low1 < cost_infinity → (find b.hop1 all ≡ some b.low1) × (find b.hop1 rest ≡ none))
    × (b.low2 < cost_infinity
        → (find b.hop2 all ≡ some b.low2) × (find b.hop2 rest ≡ none) × (b.hop2 ≢ b.hop1))

consider-IsFound :
    (all rest : List (ℕ × ℕ)) (hop cost : ℕ) (b : Best)
    → WellFormed b
    → find hop all ≡ some cost
    → find hop rest ≡ none
    → IsFound all ((hop, cost) ∷ rest) b
    → IsFound all rest (consider hop cost b)
unfolding consider find
consider-IsFound all rest hop cost b w e d f = ground arith

best-IsFound :
    (all rest : List (ℕ × ℕ)) (b : Best)
    → WellFormed b
    → DistinctKeys rest
    → ((h c : ℕ) → find h rest ≡ some c → find h all ≡ some c)
    → IsFound all rest b
    → IsFound all [] (best_hops rest b)
unfolding best_hops find
best-IsFound all [] b w d sub f = f
best-IsFound all ((hop, cost) ∷ rest) b w d sub f =
    best-IsFound all rest (consider hop cost b) (consider-WellFormed hop cost b w) d.1
      (λ h c e. sub h c (ground arith))
      (consider-IsFound all rest hop cost b w (sub hop cost (ground arith)) d.0 f)

no_best-WellFormed : WellFormed no_best
no_best-WellFormed = ground arith

abbrev pub chosen : List (ℕ × ℕ) → Best
chosen costs = best_hops costs no_best

chosen-IsFound : (costs : List (ℕ × ℕ)) → DistinctKeys costs → IsFound costs [] (chosen costs)
chosen-IsFound costs d =
    best-IsFound costs costs no_best no_best-WellFormed d (λ h c e. e) (ground arith)

-- Every neighbour's cost is at least the lowest, and at the lowest cost the hop has the lowest
-- hash.
pub best-first :
    (costs : List (ℕ × ℕ)) (h c : ℕ)
    → find h costs ≡ some c
    → Before (chosen costs).low1 (chosen costs).hop1 c h
best-first costs h c e =
    let w = best-WellFormed costs no_best no_best-WellFormed in
    let v = best-Covers costs no_best h c no_best-WellFormed e in ground arith

-- Every other neighbour's cost is at least the second lowest.
pub best-second :
    (costs : List (ℕ × ℕ)) (h c : ℕ)
    → find h costs ≡ some c
    → h ≢ (chosen costs).hop1
    → Before (chosen costs).low2 (chosen costs).hop2 c h
best-second costs h c e ne =
    let v = best-Covers costs no_best h c no_best-WellFormed e in ground arith

-- If the lowest cost is below infinity, it is the cost of its hop.
pub best-found :
    (costs : List (ℕ × ℕ))
    → DistinctKeys costs
    → (chosen costs).low1 < cost_infinity
    → find (chosen costs).hop1 costs ≡ some (chosen costs).low1
best-found costs d l = ((chosen-IsFound costs d).0 l).0

pub best-found_second :
    (costs : List (ℕ × ℕ))
    → DistinctKeys costs
    → (chosen costs).low2 < cost_infinity
    → (find (chosen costs).hop2 costs ≡ some (chosen costs).low2)
      × ((chosen costs).hop2 ≢ (chosen costs).hop1)
best-found_second costs d l = let f = (chosen-IsFound costs d).1 l in (f.0, f.2)

pub best-bounds : (costs : List (ℕ × ℕ)) → WellFormed (chosen costs)
best-bounds costs = best-WellFormed costs no_best no_best-WellFormed

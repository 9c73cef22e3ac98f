-- ===== src/Multipath/Hops/Flatten.antt =====
-- What `flattenDtTierFaces` returns.
use mars_icnp.Prelude.{ℕ, ◌≡◌, ◌∙◌, Bool, true, false, List, [], ◌∷◌, if◌then◌else◌, arith}
use mars_icnp.Prelude.Sets.{mem, Distinct, mem-snoc, snoc-Distinct}
use mars_icnp.Multipath.Hops.{Tier, tier_has, flatten_tier, flatten_tiers, flatten_dt_tier_faces}

-- Whether a face is a next hop of one of the tiers.
abbrev pub tiers_have : ℕ → List Tier → Bool
tiers_have f [] = false
tiers_have f (t ∷ ts) = if tier_has f t then true else tiers_have f ts

mem-flatten_tier :
    (f : ℕ) (t : Tier) (faces : List ℕ)
    → mem f (flatten_tier t faces) ≡ (if mem f faces then true else tier_has f t)
unfolding flatten_tier
mem-flatten_tier f [] faces = ground arith
mem-flatten_tier f (h ∷ t) faces =
    mem-flatten_tier f t _ ∙ ground (arith, mem-snoc f h.nexthop faces)

mem-flatten_tiers :
    (f : ℕ) (ts : List Tier) (faces : List ℕ)
    → mem f (flatten_tiers ts faces) ≡ (if mem f faces then true else tiers_have f ts)
unfolding flatten_tiers
mem-flatten_tiers f [] faces = ground arith
mem-flatten_tiers f (t ∷ ts) faces =
    mem-flatten_tiers f ts _ ∙ ground (arith, mem-flatten_tier f t faces)

flatten_tier-Distinct :
    (t : Tier) (faces : List ℕ) → Distinct faces → Distinct (flatten_tier t faces)
unfolding flatten_tier
flatten_tier-Distinct [] faces d = d
flatten_tier-Distinct (h ∷ t) faces d =
    flatten_tier-Distinct t _ (ground (arith, snoc-Distinct h.nexthop faces d))

flatten_tiers-Distinct :
    (ts : List Tier) (faces : List ℕ) → Distinct faces → Distinct (flatten_tiers ts faces)
unfolding flatten_tiers
flatten_tiers-Distinct [] faces d = d
flatten_tiers-Distinct (t ∷ ts) faces d =
    flatten_tiers-Distinct ts _ (flatten_tier-Distinct t faces d)

-- The faces of the tiers, each once.
pub flatten-mem : (f : ℕ) (ts : List Tier) → mem f (flatten_dt_tier_faces ts) ≡ tiers_have f ts
unfolding flatten_dt_tier_faces mem
flatten-mem f ts = mem-flatten_tiers f ts []

pub flatten-Distinct : (ts : List Tier) → Distinct (flatten_dt_tier_faces ts)
unfolding flatten_dt_tier_faces
flatten-Distinct ts = flatten_tiers-Distinct ts [] tt

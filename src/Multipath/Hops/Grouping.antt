-- ===== src/Multipath/Hops/Grouping.antt =====
-- What `groupHopSnapshotsByCost` returns.
use mars_icnp.Prelude.{
  ℕ, ◌<◌, ◌≡◌, refl, ap, ap₂, ◌∙◌, sym, Bool, true, false, List, [], ◌∷◌, ◌++◌, map, ◌==◌,
  if◌then◌else◌, arith, keep,
}
use mars_icnp.Prelude.Sets.{mem, Distinct, mem-snoc, snoc-Distinct}
use mars_icnp.Multipath.Hops.{
  HopSnapshot, Tier, CostMap, hops_at, add_hop, has_cost, collect_hops, insert_sorted,
  sort_ascending, group_hop_snapshots_by_cost,
}

-- The hops of one cost, in their order.
abbrev pub hops_of_cost : ℕ → Tier → Tier
hops_of_cost c = keep (λ h. h.cost == c)

abbrev pub some_hop_costs : ℕ → Tier → Bool
some_hop_costs c [] = false
some_hop_costs c (h ∷ hops) = if h.cost == c then true else some_hop_costs c hops

abbrev pub AllBelow : ℕ → List ℕ → Type 0
AllBelow c [] = Unit {0}
AllBelow c (d ∷ ds) = (c < d) × AllBelow c ds

abbrev pub Ascending : List ℕ → Type 0
Ascending [] = Unit {0}
Ascending (c ∷ cs) = AllBelow c cs × Ascending cs

append-nil' : (t : Tier) → t ++ [] ≡ t
append-nil' [] = refl
append-nil' (h ∷ t) = ap (◌∷◌ h) (append-nil' t)

append_assoc' : (t u v : Tier) → (t ++ u) ++ v ≡ t ++ (u ++ v)
append_assoc' [] u v = refl
append_assoc' (h ∷ t) u v = ap (◌∷◌ h) (append_assoc' t u v)

hops_at-add_hop :
    (c : ℕ) (h : HopSnapshot) (m : CostMap)
    → hops_at c (add_hop h m) ≡ (if h.cost == c then hops_at c m ++ h ∷ [] else hops_at c m)
unfolding hops_at add_hop
hops_at-add_hop c h [] = ground arith
hops_at-add_hop c h ((d, t) ∷ m) = ground (arith, hops_at-add_hop c h m)

has_cost-add_hop :
    (c : ℕ) (h : HopSnapshot) (m : CostMap)
    → has_cost c (add_hop h m) ≡ (if h.cost == c then true else has_cost c m)
unfolding has_cost add_hop
has_cost-add_hop c h [] = ground arith
has_cost-add_hop c h ((d, t) ∷ m) = ground (arith, has_cost-add_hop c h m)

collect_hops-at :
    (c : ℕ) (hops : Tier) (m : CostMap) (costs : List ℕ)
    → hops_at c (collect_hops hops m costs).0 ≡ hops_at c m ++ hops_of_cost c hops
unfolding collect_hops keep
collect_hops-at c [] m costs = sym (append-nil' (hops_at c m))
collect_hops-at c (h ∷ hops) m costs =
    collect_hops-at c hops (add_hop h m) _
    ∙ ground
        (arith, hops_at-add_hop c h m, append_assoc' (hops_at c m) (h ∷ []) (hops_of_cost c hops))

-- The costs noted are those of the map.
abbrev Same : CostMap → List ℕ → Type 0
Same m costs = (c : ℕ) → has_cost c m ≡ mem c costs

Same-add_hop :
    (h : HopSnapshot) (m : CostMap) (costs : List ℕ)
    → Same m costs
    → Same (add_hop h m) (if has_cost h.cost m then costs else costs ++ h.cost ∷ [])
Same-add_hop h m costs s c =
    ground (arith, has_cost-add_hop c h m, mem-snoc c h.cost costs, s c, s h.cost)

collect_hops-Distinct :
    (hops : Tier) (m : CostMap) (costs : List ℕ)
    → Same m costs
    → Distinct costs
    → Distinct (collect_hops hops m costs).1
unfolding collect_hops
collect_hops-Distinct [] m costs s d = d
collect_hops-Distinct (h ∷ hops) m costs s d =
    collect_hops-Distinct hops (add_hop h m) _ (Same-add_hop h m costs s)
      (ground (arith, s h.cost, snoc-Distinct h.cost costs d))

mem-collect_hops :
    (c : ℕ) (hops : Tier) (m : CostMap) (costs : List ℕ)
    → Same m costs
    → mem c (collect_hops hops m costs).1 ≡ (if mem c costs then true else some_hop_costs c hops)
unfolding collect_hops
mem-collect_hops c [] m costs s = ground arith
mem-collect_hops c (h ∷ hops) m costs s =
    mem-collect_hops c hops (add_hop h m) _ (Same-add_hop h m costs s)
    ∙ ground (arith, s h.cost, s c, mem-snoc c h.cost costs)

mem-insert_sorted :
    (y c : ℕ) (ds : List ℕ) → mem y (insert_sorted c ds) ≡ (if c == y then true else mem y ds)
unfolding mem insert_sorted
mem-insert_sorted y c [] = ground arith
mem-insert_sorted y c (d ∷ ds) = ground (arith, mem-insert_sorted y c ds)

mem-sort_ascending : (y : ℕ) (cs : List ℕ) → mem y (sort_ascending cs) ≡ mem y cs
unfolding mem sort_ascending
mem-sort_ascending y [] = refl
mem-sort_ascending y (c ∷ cs) =
    ground (arith, mem-insert_sorted y c (sort_ascending cs), mem-sort_ascending y cs)

AllBelow-trans : (c d : ℕ) (ds : List ℕ) → c < d → AllBelow d ds → AllBelow c ds
AllBelow-trans c d [] h a = tt
AllBelow-trans c d (e ∷ ds) h a = (omega arith, AllBelow-trans c d ds h a.1)

AllBelow-insert : (b c : ℕ) (ds : List ℕ) → b < c → AllBelow b ds → AllBelow b (insert_sorted c ds)
unfolding insert_sorted
AllBelow-insert b c [] h a = (h, tt)
AllBelow-insert b c (d ∷ ds) h a = ground (arith, AllBelow-insert b c ds h a.1)

insert_sorted-Ascending :
    (c : ℕ) (ds : List ℕ) → Ascending ds → mem c ds ≡ false → Ascending (insert_sorted c ds)
unfolding insert_sorted mem
insert_sorted-Ascending c [] a h = (tt, tt)
insert_sorted-Ascending c (d ∷ ds) a h =
    ground (arith, insert_sorted-Ascending c ds a.1, AllBelow-insert d c ds, AllBelow-trans c d ds)

sort_ascending-Ascending : (cs : List ℕ) → Distinct cs → Ascending (sort_ascending cs)
unfolding sort_ascending
sort_ascending-Ascending [] d = tt
sort_ascending-Ascending (c ∷ cs) d =
    insert_sorted-Ascending c (sort_ascending cs) (sort_ascending-Ascending cs d.1)
      (mem-sort_ascending c cs ∙ d.0)

map-hops_at :
    (m : CostMap) (hops : Tier) (cs : List ℕ)
    → ((c : ℕ) → hops_at c m ≡ hops_of_cost c hops)
    → map (λ c. hops_at c m) cs ≡ map (λ c. hops_of_cost c hops) cs
map-hops_at m hops [] e = refl
map-hops_at m hops (c ∷ cs) e = ap₂ ◌∷◌ (e c) (map-hops_at m hops cs e)

-- The costs ascend strictly and are exactly the costs of the hops, and the tiers are, for each of
-- them, the hops of exactly that cost in their order.
pub group-tiers :
    (hops : Tier) (c : ℕ)
    → let (tiers, costs) = group_hop_snapshots_by_cost hops in
      Ascending costs
      × (mem c costs ≡ some_hop_costs c hops)
      × (tiers ≡ map (λ d. hops_of_cost d hops) costs)
unfolding group_hop_snapshots_by_cost mem
group-tiers hops c = (
  sort_ascending-Ascending _ (collect_hops-Distinct hops [] [] (λ _. refl) tt),
  mem-sort_ascending c _ ∙ mem-collect_hops c hops [] [] (λ _. refl),
  map-hops_at _ hops (sort_ascending (collect_hops hops [] []).1)
      (λ d. collect_hops-at d hops [] []),
)

-- ===== src/Forwarding/Least.antt =====
-- Best-route takes the next hop of least cost.
use mars_icnp.Prelude.{
  ℕ, ◌==◌, ◌<◌, ◌≤◌, ◌≡◌, refl, ap, ◌∙◌, ◌⊎◌, inl, inr, true, false, List, [], ◌∷◌, if◌then◌else◌,
  Bool-cases, arith,
}
use mars_icnp.Tables.Strategy.{FibNextHop}
use mars_icnp.Tables.Pit.{Interest}
use mars_icnp.Forwarding.{Thread}
use mars_icnp.Forwarding.Outgoing.{process_outgoing_interest}
use mars_icnp.Forwarding.Strategies.{
  hop_before, insert_hop, sort_nexthops_by_cost, strict_least_cost, best_route_interest,
  forward_interest_strict_least_cost,
}

-- The first hop is cheaper than the second, or as cheap with a face that is not above.
abbrev pub Precedes : FibNextHop → FibNextHop → Type 0
Precedes h g = (h.cost < g.cost) ⊎ ((h.cost ≡ g.cost) × (h.nexthop ≤ g.nexthop))

abbrev pub IsLeast : FibNextHop → List FibNextHop → Type 0
IsLeast h [] = Unit {0}
IsLeast h (g ∷ gs) = Precedes h g × IsLeast h gs

abbrev pub Occurs : FibNextHop → List FibNextHop → Type 0
Occurs h [] = ⊥
Occurs h (g ∷ gs) = (g ≡ h) ⊎ Occurs h gs

Precedes-same : (h : FibNextHop) → Precedes h h
Precedes-same h = inr (refl, omega arith)

Precedes-trans : (x h g : FibNextHop) → Precedes x h → Precedes h g → Precedes x g
Precedes-trans x h g (inl a) (inl b) = inl (omega (arith, a, b))
Precedes-trans x h g (inl a) (inr (b, c)) = inl (omega (arith, a, b))
Precedes-trans x h g (inr (a, d)) (inl b) = inl (omega (arith, a, b))
Precedes-trans x h g (inr (a, d)) (inr (b, c)) = inr (omega (arith, a, b), omega (arith, d, c))

IsLeast-step :
    (x h : FibNextHop) (gs : List FibNextHop) → Precedes x h → IsLeast h gs → IsLeast x gs
IsLeast-step x h [] a l = tt
IsLeast-step x h (g ∷ gs) a l = (Precedes-trans x h g a (l.0), IsLeast-step x h gs a (l.1))

-- What the comparison of the sort says.
before-Precedes : (g h : FibNextHop) → hop_before g h ≡ true → Precedes g h
before-Precedes g h a = elim (Bool-cases (g.cost == h.cost)) [
  | inl b ↦ inr (ground (arith, a, b), ground (arith, a, b))
  | inr b ↦ inl (ground (arith, a, b))
]

not_before-Precedes : (g h : FibNextHop) → hop_before g h ≡ false → Precedes h g
not_before-Precedes g h a = elim (Bool-cases (g.cost == h.cost)) [
  | inl b ↦ inr (ground (arith, a, b), ground (arith, a, b))
  | inr b ↦ inl (ground (arith, a, b))
]

insert-nil : (x : FibNextHop) → insert_hop x [] ≡ x ∷ []
unfolding insert_hop
insert-nil x = refl

insert-after :
    (x h : FibNextHop) (rest : List FibNextHop)
    → hop_before h x ≡ true
    → insert_hop x (h ∷ rest) ≡ h ∷ insert_hop x rest
unfolding insert_hop
insert-after x h rest b = ap (λ c. if c then h ∷ insert_hop x rest else x ∷ h ∷ rest) b

insert-before :
    (x h : FibNextHop) (rest : List FibNextHop)
    → hop_before h x ≡ false
    → insert_hop x (h ∷ rest) ≡ x ∷ h ∷ rest
unfolding insert_hop
insert-before x h rest b = ap (λ c. if c then h ∷ insert_hop x rest else x ∷ h ∷ rest) b

-- The first of a sorted list that is not empty.
sorted-first :
    (x : FibNextHop) (xs : List FibNextHop)
    → (h : FibNextHop) × (rest : List FibNextHop) × (sort_nexthops_by_cost (x ∷ xs) ≡ h ∷ rest)
      × Occurs h (x ∷ xs)
      × IsLeast h (x ∷ xs)
unfolding sort_nexthops_by_cost
sorted-first x [] = (x, [], insert-nil x, inl refl, (Precedes-same x, tt))
sorted-first x (y ∷ ys) =
    let (h, rest, e, o, l) = sorted-first y ys in
    elim (Bool-cases (hop_before h x)) [
      | inl b ↦ (
        h,
        insert_hop x rest,
        ap (insert_hop x) e ∙ insert-after x h rest b,
        inr o,
        (before-Precedes h x b, l),
      )
      | inr b ↦ (
        x,
        h ∷ rest,
        ap (insert_hop x) e ∙ insert-before x h rest b,
        inl refl,
        (Precedes-same x, IsLeast-step x h (y ∷ ys) (not_before-Precedes h x b) l),
      )
    ]

-- With strict least cost, best-route does what the outgoing pipeline does for one next hop, one of
-- those that it is given: no other has a lower cost, or the same cost and a lower face.
pub best_route-IsLeast :
    (now : ℕ) (i : Interest) (id in_face : ℕ) (x : FibNextHop) (xs : List FibNextHop) (t : Thread)
    → (h : FibNextHop) × Occurs h (x ∷ xs)
      × IsLeast h (x ∷ xs)
      × (best_route_interest strict_least_cost now i id in_face (x ∷ xs) t
          ≡ (process_outgoing_interest now i id h.nexthop in_face t).1)
unfolding best_route_interest forward_interest_strict_least_cost
best_route-IsLeast now i id in_face x xs t =
    let (h, rest, e, o, l) = sorted-first x xs in
    (h, o, l, ap (λ hs. forward_interest_strict_least_cost now i id in_face hs t) e)

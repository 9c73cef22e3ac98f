-- ===== src/Routing/Update/Outcome.antt =====
-- What `updateRib` and the removal of a dead neighbour do to the costs of the base.
use mars_icnp.Prelude.{
  ℕ, ◌%◌, true, sym, inl, inr, Bool-cases, ◌+◌, ◌^◌, ◌<◌, refl, ap, Option, none, some, ◌≡◌, ◌∙◌,
  Bool, false, ◌&&◌, List, [], ◌∷◌, ltb, leb, ◌==◌, if◌then◌else◌, arith, if_cases,
}
use mars_icnp.Routing.Names.{NameOps}
use mars_icnp.Routing.Rib.{
  cost_infinity, Rib, dirty_reset_next_hop, set_route, prune, remove_next_hop,
}
use mars_icnp.Routing.Update.{
  AdvEntry, usable_cost, apply_advert, update_with, remove_dead_neighbor,
}
use mars_icnp.Routing.Update.View.{via, via-reset, via-remove}
use mars_icnp.Routing.Update.Table.{
  IsTable, reset-IsTable, remove_from-IsTable, set_route-IsTable, set_route-via,
}
use mars_icnp.Routing.Update.Prune.{AllReachable, prune-IsTable, prune-AllReachable, prune-via}

-- A cost that is below 16 after the addition of a link, with and without the wrap.
taken-plain :
    (cost : ℕ) (b : Bool) (c : ℕ)
    → cost + 1 < 2 ^ 64
    → (if b && ltb ((cost + 1) % 2 ^ 64) 16 then (cost + 1) % 2 ^ 64 else c)
      ≡ (if b && ltb (cost + 1) 16 then cost + 1 else c)
taken-plain cost b c h =
    let e : (cost + 1) % 2 ^ 64 ≡ cost + 1 = omega (arith, h) in
    ap (λ x. if b && ltb x 16 then x else c) e

no_test : (b : Bool) (x c : ℕ) → (if b && false then x else c) ≡ c
no_test true x c = refl
no_test false x c = refl

taken-other :
    (cost : ℕ) (b : Bool) (c : ℕ)
    → let u : ℕ = if ltb cost 16 then (cost + 1) % 2 ^ 64 else 16 in
      (if b && ltb u 16 then u else c) ≡ (if b && ltb (cost + 1) 16 then cost + 1 else c)
taken-other cost b c =
    let at : Bool → ℕ =
      λ y. let u : ℕ = if y then (cost + 1) % 2 ^ 64 else 16 in if b && ltb u 16 then u else c in
    elim (Bool-cases (ltb cost 16)) [
      | inl y ↦ ap at y ∙ taken-plain cost b c (ground (arith, y))
      | inr y ↦
          let z : ltb (cost + 1) 16 ≡ false = ground (arith, y) in
          ap at y
          ∙ no_test b 16 c
          ∙ sym (no_test b (cost + 1) c)
          ∙ ap (λ w. if b && w then cost + 1 else c) (sym z)
    ]

module _ {N : Type 0} (names : NameOps N) (router_name : N) where
  open names use {hash, equal}

  -- The cost to a destination through the neighbour that advertises the entry: one more than the
  -- cost that it has by its best next hop, or by its second best if the best is this router.
  abbrev pub cost_through : AdvEntry N → ℕ
  cost_through a =
      (elim a.next_hop [
        | none ↦ a.cost
        | some n ↦ if equal n router_name then a.other_cost else a.cost
      ])
      + 1

  -- What a sequence of entries offers to a destination: the cost through the neighbour of the last
  -- entry that has one below 16.
  unfoldable pub offered : ℕ → List (AdvEntry N) → ℕ → ℕ
  offered d [] c = c
  offered d (a ∷ ads) c =
      offered d ads
        (if (hash a.destination == d) && ltb (cost_through a) 16 then cost_through a else c)

  -- No cost that is advertised is the last number of 64 bits.
  abbrev pub AllBounded : List (AdvEntry N) → Type 0
  AllBounded [] = Unit {0}
  AllBounded (a ∷ ads) = (a.cost + 1 < 2 ^ 64) × AllBounded ads

  -- The same with the costs that the code computes.
  unfoldable accepted : ℕ → List (AdvEntry N) → ℕ → ℕ
  accepted d [] c = c
  accepted d (a ∷ ads) c =
      let usable = usable_cost names router_name a in
      accepted d ads (if (hash a.destination == d) && ltb usable cost_infinity then usable else c)

  -- The cost of an entry, given the next hop that it names.
  with_next_hop : AdvEntry N → Option N → AdvEntry N
  with_next_hop a o = record {
    destination = a.destination;
    next_hop = o;
    cost = a.cost;
    other_cost = a.other_cost;
  }

  usable-through :
      (a : AdvEntry N) (o : Option N) (b : Bool) (c : ℕ)
      → a.cost + 1 < 2 ^ 64
      → (if b && ltb (usable_cost names router_name (with_next_hop a o)) cost_infinity
          then usable_cost names router_name (with_next_hop a o)
          else c)
        ≡ (if b && ltb (cost_through (with_next_hop a o)) 16
            then cost_through (with_next_hop a o)
            else c)
  unfolding usable_cost with_next_hop
  usable-through a none b c h = taken-plain a.cost b c h
  usable-through a (some n) b c h = elim (Bool-cases (equal n router_name)) [
    | inl e ↦
        ap
          (λ x.
            let u : ℕ =
              if x
              then (if ltb a.other_cost 16 then (a.other_cost + 1) % 2 ^ 64 else 16)
              else (a.cost + 1) % 2 ^ 64 in
            if b && ltb u 16 then u else c)
          e
        ∙ taken-other a.other_cost b c
        ∙ sym (
            ap
              (λ x.
                let u : ℕ = (if x then a.other_cost else a.cost) + 1 in
                if b && ltb u 16 then u else c)
              e)
    | inr e ↦
        ap
          (λ x.
            let u : ℕ =
              if x
              then (if ltb a.other_cost 16 then (a.other_cost + 1) % 2 ^ 64 else 16)
              else (a.cost + 1) % 2 ^ 64 in
            if b && ltb u 16 then u else c)
          e
        ∙ taken-plain a.cost b c h
        ∙ sym (
            ap
              (λ x.
                let u : ℕ = (if x then a.other_cost else a.cost) + 1 in
                if b && ltb u 16 then u else c)
              e)
  ]

  accepted-offered :
      (d : ℕ) (ads : List (AdvEntry N)) (c : ℕ)
      → AllBounded ads
      → accepted d ads c ≡ offered d ads c
  unfolding accepted offered with_next_hop
  accepted-offered d [] c h = refl
  accepted-offered d (a ∷ ads) c h =
      ap (accepted d ads) (usable-through a a.next_hop (hash a.destination == d) c (h.0))
      ∙ accepted-offered d ads _ (h.1)

  apply-IsTable :
      (neighbor : N) (ads : List (AdvEntry N)) (r : Rib N)
      → IsTable names r.entries
      → IsTable names (apply_advert names router_name neighbor ads r).1.entries
  unfolding apply_advert
  apply-IsTable neighbor [] r t = t
  apply-IsTable neighbor (a ∷ ads) r t =
      let c = usable_cost names router_name a in
      let r' =
        if leb cost_infinity c then (false, r) else set_route names a.destination neighbor c r in
      apply-IsTable neighbor ads r'.1 (
        if_cases (λ (x : Bool × Rib N). IsTable names x.1.entries) (leb cost_infinity c)
          {x = (false, r)} {y = set_route names a.destination neighbor c r} (λ _. t)
          (λ _. set_route-IsTable names a.destination neighbor c r t))

  apply-via :
      (neighbor : N) (ads : List (AdvEntry N)) (d h : ℕ) (r : Rib N)
      → via (apply_advert names router_name neighbor ads r).1.entries d h
        ≡ (if hash neighbor == h then accepted d ads (via r.entries d h) else via r.entries d h)
  unfolding apply_advert accepted
  apply-via neighbor [] d h r = ground arith
  apply-via neighbor (a ∷ ads) d h r =
      let c = usable_cost names router_name a in
      let r' =
        if leb cost_infinity c then (false, r) else set_route names a.destination neighbor c r in
      ground
        (arith, apply-via neighbor ads d h r'.1, set_route-via names a.destination neighbor c d h r)

  -- In a table in which each entry stands under the hash of its name, and for an advertisement
  -- without the cost 2^64 - 1: after the update from a neighbour, the cost by it is what its
  -- advertisement offers, or 16 (infinity) if it offers nothing, and the cost by any other neighbour
  -- is as before.
  pub update-costs :
      (neighbor : N) (ads : List (AdvEntry N)) (d h : ℕ) (r : Rib N)
      → IsTable names r.entries
      → AllBounded ads
      → via (update_with names router_name neighbor ads r).1.entries d h
        ≡ (if hash neighbor == h then offered d ads 16 else via r.entries d h)
  unfolding update_with dirty_reset_next_hop prune
  update-costs neighbor ads d h r t b =
      let r0 = dirty_reset_next_hop names neighbor r in
      let t0 = reset-IsTable names (hash neighbor) r.entries t in
      let r1 = (apply_advert names router_name neighbor ads r0).1 in
      ground (
        arith,
        prune-via names r1.entries d h (apply-IsTable neighbor ads r0 t0),
        apply-via neighbor ads d h r0,
        via-reset (hash neighbor) d h r.entries,
        accepted-offered d ads cost_infinity b,
      )

  -- From such a table, an update gives such a table, and each entry left in it is up to date and
  -- has a cost below infinity.
  pub update-AllReachable :
      (neighbor : N) (ads : List (AdvEntry N)) (r : Rib N)
      → IsTable names r.entries
      → IsTable names (update_with names router_name neighbor ads r).1.entries
        × AllReachable names (update_with names router_name neighbor ads r).1.entries
  unfolding update_with dirty_reset_next_hop prune
  update-AllReachable neighbor ads r t =
      let r0 = dirty_reset_next_hop names neighbor r in
      let t0 = reset-IsTable names (hash neighbor) r.entries t in
      let t1 = apply-IsTable neighbor ads r0 t0 in
      let r1 = (apply_advert names router_name neighbor ads r0).1 in
      (prune-IsTable names r1.entries t1, prune-AllReachable names r1.entries t1)

  -- From such a table, removing a dead neighbour leaves no cost by it, every cost by another
  -- neighbour, and only entries that are up to date and have a cost below infinity.
  pub remove_dead-costs :
      (neighbor : N) (d h : ℕ) (r : Rib N)
      → IsTable names r.entries
      → let r' = (remove_dead_neighbor names router_name neighbor r).1 in
        (via r'.entries d h ≡ (if hash neighbor == h then cost_infinity else via r.entries d h))
        × IsTable names r'.entries
        × AllReachable names r'.entries
  unfolding remove_dead_neighbor remove_next_hop prune
  remove_dead-costs neighbor d h r t =
      let t0 = remove_from-IsTable names (hash neighbor) r.entries t in
      let r0 = (remove_next_hop names neighbor r).1 in
      (
        prune-via names r0.entries d h t0 ∙ via-remove (hash neighbor) d h r.entries,
        prune-IsTable names r0.entries t0,
        prune-AllReachable names r0.entries t0,
      )

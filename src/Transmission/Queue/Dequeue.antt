-- ===== src/Transmission/Queue/Dequeue.antt =====
-- Taking an Interest off the queues for a face: which one it is, and that one is found.
use mars_icnp.Prelude.{
  ℕ, zero, suc, ◌+◌, ◌-◌, ◌%◌, ◌<◌, ◌≡◌, ◌≢◌, ◌⊎◌, inl, inr, refl, sym, subst, true, Option, none,
  some, List, [], ◌∷◌, ltb, leb, ◌==◌, length, get_or, arith, Option-cases, Bool-cases,
}
use native.Mathlib.Nat.{mod-lt, mod-eq_of_lt, add-mod_right}
use mars_icnp.Prelude.Sets.{mem}
use mars_icnp.Prelude.Maps.{find, DistinctKeys}
use mars_icnp.Transmission.Floats.{FloatOps}
use mars_icnp.Transmission.Budget.{rotation}
use mars_icnp.Transmission.Queue.{
  Item, World, or_none, take_item, exec_of, search_prefixes, dequeue_dt_interest_for_face_rr,
}
use mars_icnp.Transmission.Queue.Pending.{
  count_item, count_items, count_queues, take_item-count, queued_at,
}
use mars_icnp.Transmission.Queue.Balance.{IsBalanced, pop-IsBalanced}

-- A rotation by an index in range visits every index.
rotation-mem : (n s r i : ℕ) → i < r → mem ((s + i) % n) (rotation n s r) ≡ true
unfolding mem rotation
rotation-mem n s zero i h = absurd (omega arith)
rotation-mem n s (suc r) zero h = ground arith
rotation-mem n s (suc r) (suc i) h =
    let q : s + suc i ≡ s + 1 + i = omega arith in
    ground (arith, q, rotation-mem n (s + 1) r i (omega arith))

rotation-covers : (n s k : ℕ) → s < n → k < n → mem k (rotation n s n) ≡ true
rotation-covers n s k hs hk = elim (Bool-cases (leb s k)) [
  | inl e ↦
      let q : s + (k - s) ≡ k = ground arith in
      rw (q, mod-eq_of_lt hk) at (rotation-mem n s n (k - s) (omega arith))
  | inr e ↦
      let q : s + (k + n - s) ≡ k + n = ground arith in
      rw (q, add-mod_right k n, mod-eq_of_lt hk) at (rotation-mem n s n (k + n - s) (ground arith))
]

mem-index :
    (p : ℕ) (xs : List ℕ) → mem p xs ≡ true → (i : ℕ) × (i < length xs) × (get_or xs i 0 ≡ p)
unfolding mem
mem-index p [] m = absurd (ground arith)
mem-index p (x ∷ xs) m = elim (Bool-cases (x == p)) [
  | inl e ↦ (0, omega arith, ground arith)
  | inr e ↦ let (i, l, g) = mem-index p xs (ground arith) in (suc i, omega arith, g)
]

module _ {N : Type 0} (thread face : ℕ) where
  -- If no item is found then none is there.
  take_item-none :
      (is : List (Item N)) → take_item thread face is ≡ none → count_items thread face is ≡ 0
  unfolding take_item
  take_item-none [] e = refl
  take_item-none (j ∷ is) e = elim (Option-cases (take_item thread face is)) [
    | inl n ↦ ground (arith, take_item-none is)
    | inr ((k, r), s) ↦ ground arith
  ]

  -- If some queue holds one then there is a prefix whose queue holds one.
  count-prefix :
      (qs : List (ℕ × List (Item N)))
      → DistinctKeys qs
      → 0 < count_queues thread face qs
      → (p : ℕ) × (0 < count_items thread face (or_none (find p qs)))
  unfolding find
  count-prefix [] d l = absurd (omega arith)
  count-prefix ((p, is) ∷ qs) d l = elim (Bool-cases (ltb 0 (count_items thread face is))) [
    | inl e ↦ (p, ground arith)
    | inr e ↦ let (q, h) = count-prefix qs d.1 (ground arith) in (q, ground arith)
  ]

module _ {F N : Type 0} (fl : FloatOps F) (threads thread : ℕ) (known : thread < threads) where
  -- What a search returns, for the balance of the face `f`.
  abbrev Searched : ℕ → ℕ → World F N → Option (Item N) × World F N → Type 0
  Searched f face w (none, w') = w' ≡ w
  Searched f face w (some item, w') =
      IsBalanced fl threads thread known f w'
      × (item.assigned_face ≡ face)
      × (item.owner_thread ≡ thread)
      × (queued_at fl threads thread known f w
          ≡ count_item thread f item + queued_at fl threads thread known f w')

  search-Searched :
      (f face : ℕ) (prefixes idxs : List ℕ) (w : World F N)
      → f ≢ 0
      → IsBalanced fl threads thread known f w
      → Searched f face w (search_prefixes fl threads thread face prefixes idxs w)
  unfolding search_prefixes
  search-Searched f face prefixes [] w ne b = refl
  search-Searched f face prefixes (idx ∷ idxs) w ne b =
      let prefix = get_or prefixes idx 0 in
      let queue = or_none (find prefix w.queues) in
      elim (Option-cases (take_item thread face queue)) [
        | inl n ↦ rw (n, search_prefixes) (search-Searched f face prefixes idxs w ne b)
        | inr ((item, rest), e) ↦
            let p = pop-IsBalanced fl threads thread known f face idx prefix item rest w ne e b in
            let q = take_item-count thread face f queue rest item e in
            rw (e, search_prefixes) (p.0, q.2, q.1, p.1)
      ]

  Searched-balance :
      (f face : ℕ) (w : World F N) (o : Option (Item N)) (w' : World F N)
      → IsBalanced fl threads thread known f w
      → Searched f face w (o, w')
      → IsBalanced fl threads thread known f w'
  Searched-balance f face w none w' b q = subst (IsBalanced fl threads thread known f) (sym q) b
  Searched-balance f face w (some item) w' b q = q.0

  search-none :
      (face idx : ℕ) (prefixes idxs : List ℕ) (w : World F N)
      → (search_prefixes fl threads thread face prefixes idxs w).0 ≡ none
      → mem idx idxs ≡ true
      → count_items thread face (or_none (find (get_or prefixes idx 0) w.queues)) ≡ 0
  unfolding search_prefixes mem
  search-none face idx prefixes [] w n m = ground arith
  search-none face idx prefixes (i ∷ idxs) w n m =
      let queue = or_none (find (get_or prefixes i 0) w.queues) in
      elim (Option-cases (take_item thread face queue)) [
        | inl e ↦
            let rest = rw (e, search_prefixes) at n in
            ground
              (arith, take_item-none thread face queue e, search-none face idx prefixes idxs w rest)
        | inr ((item, r), e) ↦ absurd (ground arith)
      ]

  -- Whatever is taken off the queues for a face, the demand for every face `f` (which is not 0)
  -- stays the number of its queued Interests.
  pub dequeue-IsBalanced :
      (f face : ℕ) (w : World F N)
      → f ≢ 0
      → IsBalanced fl threads thread known f w
      → IsBalanced fl threads thread known f
          (dequeue_dt_interest_for_face_rr fl threads thread face w).1
  unfolding dequeue_dt_interest_for_face_rr
  dequeue-IsBalanced f face w ne b =
      let prefixes = or_none (find face w.face_prefixes) in
      let n = length prefixes in
      let idxs = rotation n ((exec_of fl threads thread face w).prefix_rr % n) n in
      let r = search_prefixes fl threads thread face prefixes idxs w in
      Searched-balance f face w r.0 r.1 b (search-Searched f face prefixes idxs w ne b)

  -- What is taken is an Interest of the thread that is assigned to the face, and it leaves one
  -- Interest less for the face in the queues (the demand for the face, which is not 0, being the
  -- number of its queued Interests).
  pub dequeue-item :
      (face : ℕ) (item : Item N) (w : World F N)
      → face ≢ 0
      → IsBalanced fl threads thread known face w
      → (dequeue_dt_interest_for_face_rr fl threads thread face w).0 ≡ some item
      → (item.assigned_face ≡ face)
        × (item.owner_thread ≡ thread)
        × (queued_at fl threads thread known face w
            ≡ suc (
                queued_at fl threads thread known face
                  (dequeue_dt_interest_for_face_rr fl threads thread face w).1))
  unfolding dequeue_dt_interest_for_face_rr
  dequeue-item face item w ne b e =
      let prefixes = or_none (find face w.face_prefixes) in
      let n = length prefixes in
      let idxs = rotation n ((exec_of fl threads thread face w).prefix_rr % n) n in
      let r = search_prefixes fl threads thread face prefixes idxs w in
      let q : Searched face face w (some item, r.1) =
        subst (λ o. Searched face face w (o, r.1)) e
          (search-Searched face face prefixes idxs w ne b) in
      ground (arith, q)

  -- The queues of the prefixes being a map, and each prefix with a queued Interest for the face
  -- being listed for it: if nothing is taken then no Interest for the face is queued.
  pub dequeue-finds :
      (face : ℕ) (w : World F N)
      → DistinctKeys w.queues
      → ((p : ℕ)
          → (count_items thread face (or_none (find p w.queues)) ≡ 0)
            ⊎ (mem p (or_none (find face w.face_prefixes)) ≡ true))
      → (dequeue_dt_interest_for_face_rr fl threads thread face w).0 ≡ none
      → queued_at fl threads thread known face w ≡ 0
  unfolding dequeue_dt_interest_for_face_rr
  dequeue-finds face w d indexed e =
      let prefixes = or_none (find face w.face_prefixes) in
      let n = length prefixes in
      let start = (exec_of fl threads thread face w).prefix_rr % n in
      elim (Bool-cases (ltb 0 (count_queues thread face w.queues))) [
        | inl l ↦
            let (p, c) = count-prefix thread face w.queues d (ground arith) in
            elim (indexed p) [
              | inl z ↦ absurd (omega (arith, z, c))
              | inr m ↦
                  let (i, b, g) = mem-index p prefixes m in
                  let cover = rotation-covers n start i (mod-lt _ (omega arith)) b in
                  let z = search-none face i prefixes (rotation n start n) w e cover in
                  absurd (ground (arith, g))
            ]
        | inr l ↦ ground arith
      ]

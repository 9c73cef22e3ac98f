-- ===== src/Routing/Fib/Commands.antt =====
-- The commands of an update bring the forwarder's costs in line with the table.
use mars_icnp.Prelude.{
  ℕ, ◌≡◌, ◌≢◌, ◌⊎◌, inl, inr, refl, sym, subst, false, ◌&&◌, List, [], ◌∷◌, ◌++◌, ltb, leb, ◌==◌,
  if◌then◌else◌, is_empty, arith,
}
use mars_icnp.Prelude.Maps.{find-put, find-remove}
use mars_icnp.Routing.Fib.{
  cost_pfx_infinity, FibEntry, Command, unregister, register, Fib, unregisters, registers,
  final_entries, reset_costs, merge_entries, update_h, entries_of,
}
use mars_icnp.Routing.Fib.Merge.{
  cost_at, prev_at, has_face, IsEntries, least_cost, reset-IsEntries, reset-cost, reset-prev,
  merges, final-cost, final-IsEntries, cost-bound,
}

absent-infinity :
    (f : ℕ) (es : List FibEntry)
    → has_face f es ≡ false
    → (cost_at f es ≡ cost_pfx_infinity) × (prev_at f es ≡ cost_pfx_infinity)
absent-infinity f [] h = (refl, refl)
absent-infinity f (e ∷ es) h = ground (arith, absent-infinity f es)

is_empty-nil : (es : List FibEntry) → (is_empty es ≡ false) ⊎ (es ≡ [])
is_empty-nil [] = inr refl
is_empty-nil (e ∷ es) = inl refl

module _ {N : Type 0} where
  -- The forwarder's cost for a face, infinity if it has no route, after the commands.
  unfoldable pub executed : ℕ → List (Command N) → ℕ → ℕ
  executed f [] c = c
  executed f (unregister name face ∷ cs) c =
      executed f cs (if face == f then cost_pfx_infinity else c)
  executed f (register name face cost ∷ cs) c = executed f cs (if face == f then cost else c)

  executed-append :
      (f : ℕ) (xs ys : List (Command N)) (c : ℕ)
      → executed f (xs ++ ys) c ≡ executed f ys (executed f xs c)
  unfolding executed
  executed-append f [] ys c = refl
  executed-append f (unregister name face ∷ xs) ys c =
      executed-append f xs ys (if face == f then cost_pfx_infinity else c)
  executed-append f (register name face cost ∷ xs) ys c =
      executed-append f xs ys (if face == f then cost else c)

  executed-unregisters_absent :
      (f : ℕ) (name : N) (es : List FibEntry) (c : ℕ)
      → has_face f es ≡ false
      → executed f (unregisters name es) c ≡ c
  unfolding executed unregisters
  executed-unregisters_absent f name [] c h = refl
  executed-unregisters_absent f name (e ∷ es) c h =
      ground (arith, executed-unregisters_absent f name es c)

  executed-unregisters :
      (f : ℕ) (name : N) (es : List FibEntry) (c : ℕ)
      → IsEntries es
      → executed f (unregisters name es) c
        ≡ (if has_face f es && leb cost_pfx_infinity (cost_at f es) then cost_pfx_infinity else c)
  unfolding executed unregisters
  executed-unregisters f name [] c i = refl
  executed-unregisters f name (e ∷ es) c i = ground (
    arith,
    executed-unregisters f name es c i.2,
    executed-unregisters_absent e.face_id name es cost_pfx_infinity i.0,
    executed-unregisters_absent e.face_id name es c i.0,
  )

  executed-registers_absent :
      (f : ℕ) (name : N) (es : List FibEntry) (c : ℕ)
      → has_face f es ≡ false
      → executed f (registers name (final_entries es)) c ≡ c
  unfolding executed registers final_entries
  executed-registers_absent f name [] c h = refl
  executed-registers_absent f name (e ∷ es) c h =
      ground (arith, executed-registers_absent f name es c)

  executed-registers :
      (f : ℕ) (name : N) (es : List FibEntry) (c : ℕ)
      → IsEntries es
      → executed f (registers name (final_entries es)) c ≡ (
          if ltb (cost_at f es) cost_pfx_infinity
          then (if cost_at f es == prev_at f es then c else cost_at f es)
          else c)
  unfolding executed registers final_entries
  executed-registers f name [] c i = ground arith
  executed-registers f name (e ∷ es) c i = ground (
    arith,
    executed-registers f name es c i.2,
    executed-registers_absent e.face_id name es c i.0,
    executed-registers_absent e.face_id name es e.cost i.0,
  )

  -- Executed on the costs before, the commands give the costs of the merged entries.
  commands-cost :
      (f : ℕ) (name : N) (es : List FibEntry)
      → IsEntries es
      → executed f (unregisters name es ++ registers name (final_entries es)) (prev_at f es)
        ≡ cost_at f es
  commands-cost f name es i =
      let c = executed f (unregisters name es) (prev_at f es) in
      ground (
        arith,
        executed-append f (unregisters name es) (registers name (final_entries es)) (prev_at f es),
        executed-unregisters f name es (prev_at f es) i,
        executed-registers f name es c i,
        absent-infinity f es,
        cost-bound f es i,
      )

  -- The final entries are what the table holds afterwards, and no other prefix changes.
  update_h-entries :
      (h j : ℕ) (name : N) (news : List FibEntry) (fib : Fib N)
      → entries_of j (update_h h name news fib).2 ≡ (
          if h == j
          then final_entries (merge_entries news (reset_costs (entries_of h fib)))
          else entries_of j fib)
  unfolding update_h
  update_h-entries h j name news fib =
      let final = final_entries (merge_entries news (reset_costs (entries_of h fib))) in
      ground
        (arith, find-put j h final fib.prefixes, find-remove j h fib.prefixes, is_empty-nil final)

  -- Let each face have one entry at most for the prefix, with a cost of at most infinity. Then the
  -- update gives each face the least cost of its new entries, infinity if there is none below it.
  pub update_h-cost :
      (f h : ℕ) (name : N) (news : List FibEntry) (fib : Fib N)
      → IsEntries (entries_of h fib)
      → cost_at f (entries_of h (update_h h name news fib).2) ≡ least_cost f news cost_pfx_infinity
  update_h-cost f h name news fib i =
      let es = reset_costs (entries_of h fib) in
      let m = merges f news es (reset-IsEntries (entries_of h fib) i) in
      ground (
        arith,
        update_h-entries h h name news fib,
        reset-cost f (entries_of h fib),
        final-cost f (merge_entries news es) m.0,
      )

  -- Under the same conditions, a forwarder whose costs are those of the table before has those of
  -- the table after, once it has executed the commands.
  pub update_h-synced :
      (f h : ℕ) (name : N) (news : List FibEntry) (fib : Fib N)
      → IsEntries (entries_of h fib)
      → executed f (update_h h name news fib).0 (cost_at f (entries_of h fib))
        ≡ cost_at f (entries_of h (update_h h name news fib).2)
  unfolding update_h
  update_h-synced f h name news fib i =
      let es = reset_costs (entries_of h fib) in
      let m = merges f news es (reset-IsEntries (entries_of h fib) i) in
      ground (
        arith,
        update_h-entries h h name news fib,
        reset-prev f (entries_of h fib),
        final-cost f (merge_entries news es) m.0,
        commands-cost f name (merge_entries news es) m.0,
      )

  -- Under the same conditions they hold afterwards too, and another prefix keeps its entries.
  pub update_h-IsEntries :
      (h j : ℕ) (name : N) (news : List FibEntry) (fib : Fib N)
      → IsEntries (entries_of h fib)
      → h ≢ j
      → IsEntries (entries_of h (update_h h name news fib).2)
        × (entries_of j (update_h h name news fib).2 ≡ entries_of j fib)
  update_h-IsEntries h j name news fib i ne =
      let es = reset_costs (entries_of h fib) in
      let m = merges 0 news es (reset-IsEntries (entries_of h fib) i) in
      (
        subst IsEntries (sym (ground (arith, update_h-entries h h name news fib)))
            (final-IsEntries (merge_entries news es) m.0),
        ground (arith, update_h-entries h j name news fib),
      )

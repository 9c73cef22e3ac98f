-- ===== src/Routing/Prefixes/Replica.antt =====
-- Another router that applies what is published has the costs of the announcing router.
use mars_icnp.Prelude.{
  ℕ, ◌≡◌, inl, inr, refl, sym, ap, Option, none, some, List, [], ◌∷◌, ltb, if◌then◌else◌, arith,
  Option-cases,
}
use mars_icnp.Prelude.Maps.{find, put, find-put, find-remove}
use mars_icnp.Routing.Fib.{cost_pfx_infinity}
use mars_icnp.Routing.Prefixes.{
  PrefixNextHop, PrefixEntry, PrefixOps, Prefixes, compute_cost, found_or_infinite, publish_entry,
  store_entry, announce, withdraw, reset_table, apply_adds, apply_removes, apply_ops, update_hop,
  delete_hop,
}

module _ {N : Type 0} (tlv_str : N → ℕ) where
  -- A cost below infinity, or infinity.
  abbrev pub entry_cost : Option (PrefixEntry N) → ℕ
  entry_cost none = cost_pfx_infinity
  entry_cost (some e) = if ltb e.cost cost_pfx_infinity then e.cost else cost_pfx_infinity

  abbrev pub cost_of : ℕ → Prefixes N → ℕ
  cost_of k ps = entry_cost (find k ps)

  -- The published lists, applied in order.
  unfoldable pub apply_all : List (PrefixOps N) → Prefixes N → Prefixes N
  unfolding apply_ops
  apply_all [] ps = ps
  apply_all (ops ∷ more) ps = apply_all more (apply_ops tlv_str ops ps).1

  -- Storing an entry whose cost was that of the table.
  store-replicated :
      (key k : ℕ) (e : PrefixEntry N) (me remote : Prefixes N)
      → tlv_str e.name ≡ key
      → entry_cost (some e) ≡ cost_of key me
      → cost_of key remote ≡ cost_of key me
      → cost_of k remote ≡ cost_of k me
      → let (ops, me') = store_entry tlv_str key e me in
        cost_of k (apply_all ops remote) ≡ cost_of k me'
  unfolding store_entry compute_cost publish_entry apply_all apply_ops apply_adds apply_removes
  store-replicated key k e me remote n c q p =
      let d = (compute_cost e).1 in
      let stored : PrefixEntry N = record { name = d.name; cost = d.cost; next_hops = [] } in
      ground (
        arith,
        find-put k key d me,
        find-put k key stored remote,
        find-remove k key remote,
        find-remove k key (put key d me),
      )

  -- Each entry stands under the key of its name.
  abbrev pub IsNamed : Prefixes N → Type 0
  IsNamed ps = (k : ℕ) (e : PrefixEntry N) → find k ps ≡ some e → tlv_str e.name ≡ k

  store-IsNamed :
      (key : ℕ) (e : PrefixEntry N) (me : Prefixes N)
      → tlv_str e.name ≡ key
      → IsNamed me
      → IsNamed (store_entry tlv_str key e me).1
  unfolding store_entry compute_cost publish_entry
  store-IsNamed key e me n named k x f =
      let d = (compute_cost e).1 in
      ground (arith, named k x, find-put k key d me, find-remove k key (put key d me))

  -- What a step of the announcing router keeps, for another router that applies its operations.
  record Replicates (me remote : Prefixes N) (r : List (PrefixOps N) × Prefixes N) : Type 0 where
    named : IsNamed r.1
    same : (k : ℕ) → cost_of k (apply_all r.0 remote) ≡ cost_of k r.1

  store-Replicates :
      (key : ℕ) (e : PrefixEntry N) (me remote : Prefixes N)
      → tlv_str e.name ≡ key
      → entry_cost (some e) ≡ cost_of key me
      → IsNamed me
      → ((k : ℕ) → cost_of k remote ≡ cost_of k me)
      → Replicates me remote (store_entry tlv_str key e me)
  store-Replicates key e me remote n c named same = record {
    named = store-IsNamed key e me n named;
    same = λ k. store-replicated key k e me remote n c (same key) (same k);
  }

  found-name :
      (name : N) (o : Option (PrefixEntry N))
      → ((e : PrefixEntry N) → o ≡ some e → tlv_str e.name ≡ tlv_str name)
      → (tlv_str (found_or_infinite name o).name ≡ tlv_str name)
        × (entry_cost (some (found_or_infinite name o)) ≡ entry_cost o)
  found-name name none f = (refl, ground arith)
  found-name name (some e) f = (f e refl, refl)

  announce-Replicates :
      (name : N) (face cost : ℕ) (me remote : Prefixes N)
      → IsNamed me
      → ((k : ℕ) → cost_of k remote ≡ cost_of k me)
      → Replicates me remote (announce tlv_str name face cost me)
  unfolding announce
  announce-Replicates name face cost me remote named same =
      let p = found-name name (find (tlv_str name) me) (named (tlv_str name)) in
      let e = found_or_infinite name (find (tlv_str name) me) in
      let hop : PrefixNextHop = record { face = face; cost = cost } in
      store-Replicates (tlv_str name) (record e { next_hops = update_hop hop e.next_hops }) me
        remote p.0 p.1 named same

  withdraw-Replicates :
      (name : N) (face : ℕ) (me remote : Prefixes N)
      → IsNamed me
      → ((k : ℕ) → cost_of k remote ≡ cost_of k me)
      → Replicates me remote (withdraw tlv_str name face me)
  unfolding withdraw apply_all
  withdraw-Replicates name face me remote named same =
      elim (Option-cases (find (tlv_str name) me)) [
        | inl n ↦ rw (withdraw, n) (record { named = named; same = same })
        | inr (e, s) ↦
            let q : entry_cost (some e) ≡ cost_of (tlv_str name) me = ap entry_cost (sym s) in
            rw (withdraw, s)
              (store-Replicates (tlv_str name)
                (record e { next_hops = delete_hop face e.next_hops }) me remote
                (named (tlv_str name) e s) q named same)
      ]

  reset-Replicates : (me remote : Prefixes N) → Replicates me remote (reset_table tlv_str me)
  unfolding reset_table apply_all apply_ops apply_adds apply_removes find
  reset-Replicates me remote = record { named = λ j e f. ground arith; same = λ k. refl }

  -- What happens to the announced prefixes.
  pub data PrefixEvent : Type 0 where
    announced : N → ℕ → ℕ → PrefixEvent
    withdrawn : N → ℕ → PrefixEvent
    restarted : PrefixEvent

  unfoldable pub prefix_event : PrefixEvent → Prefixes N → List (PrefixOps N) × Prefixes N
  unfolding announce withdraw reset_table
  prefix_event (announced name face cost) me = announce tlv_str name face cost me
  prefix_event (withdrawn name face) me = withdraw tlv_str name face me
  prefix_event restarted me = reset_table tlv_str me

  -- The table after some events, and that of a router that applies what each of them publishes.
  unfoldable pub replica_run : List PrefixEvent → Prefixes N → Prefixes N → Prefixes N × Prefixes N
  unfolding prefix_event apply_all
  replica_run [] me remote = (me, remote)
  replica_run (ev ∷ evs) me remote =
      let (ops, me') = prefix_event ev me in replica_run evs me' (apply_all ops remote)

  event-Replicates :
      (ev : PrefixEvent) (me remote : Prefixes N)
      → IsNamed me
      → ((k : ℕ) → cost_of k remote ≡ cost_of k me)
      → Replicates me remote (prefix_event ev me)
  unfolding prefix_event
  event-Replicates (announced name face cost) me remote named same =
      announce-Replicates name face cost me remote named same
  event-Replicates (withdrawn name face) me remote named same =
      withdraw-Replicates name face me remote named same
  event-Replicates restarted me remote named same = reset-Replicates me remote

  run-same :
      (evs : List PrefixEvent) (k : ℕ) (me remote : Prefixes N)
      → IsNamed me
      → ((j : ℕ) → cost_of j remote ≡ cost_of j me)
      → cost_of k (replica_run evs me remote).1 ≡ cost_of k (replica_run evs me remote).0
  unfolding replica_run
  run-same [] k me remote named same = same k
  run-same (ev ∷ evs) k me remote named same =
      let p = event-Replicates ev me remote named same in
      let (ops, me') = prefix_event ev me in
      run-same evs k me' (apply_all ops remote) p.named p.same

  -- However prefixes are announced and withdrawn and the table is reset, from empty tables: a
  -- router that applies what is published, in order, has for every prefix the cost of the announcing
  -- router, where a cost of infinity or more and a missing prefix count as infinity.
  pub replica-same :
      (evs : List PrefixEvent) (k : ℕ)
      → cost_of k (replica_run evs [] []).1 ≡ cost_of k (replica_run evs [] []).0
  unfolding find
  replica-same evs k = run-same evs k [] [] (λ j e f. ground arith) (λ j. refl)

-- ===== src/Routing/Update/Prune.antt =====
-- Pruning leaves clean, reachable entries, and does not change a cost.
use mars_icnp.Prelude.{
  ℕ, ◌<◌, ◌≡◌, refl, sym, subst, ◌∙◌, ap, Bool, true, false, ◌||◌, none, List, [], ◌∷◌, ◌==◌,
  if◌then◌else◌, arith, if_cases,
}
use mars_icnp.Prelude.Maps.{find, remove, remove-absent}
use mars_icnp.Routing.Names.{NameOps}
use mars_icnp.Routing.Rib.{cost_infinity, RibEntry, refresh, prune_entries}
use mars_icnp.Routing.Rib.Selection.{best-bounds}
use mars_icnp.Routing.Update.View.{
  entry_via, via, IsEntry, IsFresh, refresh-IsFresh, fresh-unreachable,
}
use mars_icnp.Routing.Update.Table.{IsTable}

module _ {N : Type 0} (names : NameOps N) where
  open names use {hash}

  -- The entry as `Prune` leaves it, if it keeps it.
  abbrev pub settled : RibEntry N → Bool × RibEntry N
  settled e = if e.dirty then refresh e else (false, e)

  settled-IsFresh :
      (e : RibEntry N)
      → IsEntry e
      → IsFresh (settled e).1
        × ((settled e).1.costs ≡ e.costs)
        × ((settled e).1.dirty ≡ false)
        × ((settled e).1.name ≡ e.name)
  settled-IsFresh e i = ground (arith, refresh-IsFresh e)

  -- Every entry is up to date, and reachable.
  abbrev pub AllReachable : List (ℕ × RibEntry N) → Type 0
  AllReachable [] = Unit {0}
  AllReachable ((k, e) ∷ es) =
      (IsFresh e × (e.dirty ≡ false) × (e.lowest1 < cost_infinity)) × AllReachable es

  -- What pruning a table gives.
  record Prunes (es ds : List (ℕ × RibEntry N)) : Type 0 where
    table : IsTable names ds
    reachable : AllReachable ds
    absent : (k : ℕ) → find k es ≡ none → find k ds ≡ none
    costs : (d h : ℕ) → via ds d h ≡ via es d h

  -- The first entry is dropped.
  Prunes-drop :
      (k : ℕ) (e : RibEntry N) (es ds : List (ℕ × RibEntry N))
      → find k es ≡ none
      → ((h : ℕ) → entry_via e h ≡ cost_infinity)
      → Prunes es ds
      → Prunes ((k, e) ∷ es) ds
  unfolding find
  Prunes-drop k e es ds n u p = record {
    table = p.table;
    reachable = p.reachable;
    absent = λ j f. ground (arith, p.absent j);
    costs = λ d h. ground (arith, p.costs d h, p.absent k n, u h);
  }

  -- The first entry is kept.
  Prunes-keep :
      (k : ℕ) (e e' : RibEntry N) (es ds : List (ℕ × RibEntry N))
      → (hash e'.name ≡ k) × IsEntry e' × (find k es ≡ none)
      → IsFresh e' × (e'.dirty ≡ false) × (e'.lowest1 < cost_infinity)
      → e'.costs ≡ e.costs
      → Prunes es ds
      → Prunes ((k, e) ∷ es) ((k, e') ∷ ds)
  unfolding find
  Prunes-keep k e e' es ds i r c p = record {
    table = (i.0, i.1, p.absent k i.2, p.table);
    reachable = (r, p.reachable);
    absent = λ j f. ground (arith, p.absent j);
    costs = λ d h. ground (arith, p.costs d h);
  }

  remove-head :
      (j k : ℕ) (e : RibEntry N) (ds : List (ℕ × RibEntry N))
      → j ≡ k
      → find k ds ≡ none
      → remove j ((k, e) ∷ ds) ≡ ds
  unfolding remove
  remove-head j k e ds q n = ground (arith, remove-absent j ds)

  prune-Prunes :
      (es : List (ℕ × RibEntry N)) → IsTable names es → Prunes es (prune_entries names es).1
  unfolding prune_entries
  prune-Prunes [] t = record { table = tt; reachable = tt; absent = λ k e. e; costs = λ d h. refl }
  prune-Prunes ((k, e) ∷ es) t =
      let p = prune-Prunes es t.3 in
      let d = (settled e).1 in
      let ds = (prune_entries names es).1 in
      let s = settled-IsFresh e t.1 in
      let at : hash d.name ≡ k = ap hash s.3 ∙ t.0 in
      if_cases (λ (r : Bool × List (ℕ × RibEntry N)). Prunes ((k, e) ∷ es) r.1)
        (d.lowest1 == cost_infinity) {x = (true, remove (hash d.name) ((k, d) ∷ ds))}
        {y = ((settled e).0 || (prune_entries names es).0, (k, d) ∷ ds)}
        (λ q.
          subst (Prunes ((k, e) ∷ es)) (sym (remove-head (hash d.name) k d ds at (p.absent k t.2)))
            (Prunes-drop k e es ds t.2 (λ h. ground (arith, fresh-unreachable d h s.0)) p))
        (λ q.
          Prunes-keep k e d es ds (at, ground (arith, t.1.0), t.2)
            (s.0, s.2, ground (arith, best-bounds d.costs)) s.1 p)

  pub prune-IsTable :
      (es : List (ℕ × RibEntry N)) → IsTable names es → IsTable names (prune_entries names es).1
  prune-IsTable es t = (prune-Prunes es t).table

  pub prune-AllReachable :
      (es : List (ℕ × RibEntry N)) → IsTable names es → AllReachable (prune_entries names es).1
  prune-AllReachable es t = (prune-Prunes es t).reachable

  pub prune-via :
      (es : List (ℕ × RibEntry N)) (d h : ℕ)
      → IsTable names es
      → via (prune_entries names es).1 d h ≡ via es d h
  prune-via es d h t = (prune-Prunes es t).costs d h

-- ===== src/Routing/Rib.antt =====
-- The routing information base, mars/dv/table/rib.go: for each destination the cost via each neighbour,
-- and the two best of them. A map lists its entries in the order in which a loop visits them.
-- Costs are 64-bit; a lock of the router makes each operation atomic.

pub mod Selection
pub mod Order
use mars_icnp.Prelude.{
  ℕ, ◌+◌, ◌%◌, ◌^◌, Bool, true, false, not, ◌&&◌, ◌||◌, Option, none, some, List, [], ◌∷◌, map, leb,
  ltb, ◌==◌, length, keep, if◌then◌else◌,
}
use mars_icnp.Prelude.Maps.{find, put, remove}
use mars_icnp.Routing.Names.{NameOps}

-- mars/dv/config/config.go
abbrev pub cost_infinity : ℕ
cost_infinity = 16

pub record RibEntry (N : Type 0) : Type 0 where
  pub name : N
  pub costs : List (ℕ × ℕ)
  pub next_hop1 : ℕ
  pub next_hop2 : ℕ
  pub lowest1 : ℕ
  pub lowest2 : ℕ
  pub dirty : Bool

pub record Rib (N : Type 0) : Type 0 where
  pub entries : List (ℕ × RibEntry N)
  pub neighbors : List (ℕ × N)

-- The four locals of `refresh`.
pub record Best : Type 0 where
  pub low1 : ℕ
  pub hop1 : ℕ
  pub low2 : ℕ
  pub hop2 : ℕ

abbrev pub no_best : Best
no_best = record { low1 = cost_infinity; hop1 = 0; low2 = cost_infinity; hop2 = 0 }

-- cost < lowest || (cost == lowest && hop < nextHop)
abbrev pub is_better : ℕ → ℕ → ℕ → ℕ → Bool
is_better cost hop lowest next_hop = ltb cost lowest || ((cost == lowest) && ltb hop next_hop)

unfoldable pub consider : ℕ → ℕ → Best → Best
consider hop cost b =
    if is_better cost hop b.low1 b.hop1
    then record { low1 = cost; hop1 = hop; low2 = b.low1; hop2 = b.hop1 }
    else if is_better cost hop b.low2 b.hop2
    then record { low1 = b.low1; hop1 = b.hop1; low2 = cost; hop2 = hop }
    else b

-- The loop of `refresh`.
unfoldable pub best_hops : List (ℕ × ℕ) → Best → Best
unfolding consider
best_hops [] b = b
best_hops ((hop, cost) ∷ costs) b = best_hops costs (consider hop cost b)

-- `delete` of each entry that satisfies a test, and such loops over the entries.
module _ {N : Type 0} where
  -- Returns whether the advertisement might change, and the entry.
  unfoldable pub refresh : RibEntry N → Bool × RibEntry N
  unfolding best_hops
  refresh e =
      let b = best_hops e.costs no_best in
      let same =
        (e.lowest1 == b.low1)
        && ((e.lowest2 == b.low2) && ((e.next_hop1 == b.hop1) && (e.next_hop2 == b.hop2))) in
      (
        not same,
        record e {
          dirty = false;
          lowest1 = b.low1;
          lowest2 = b.low2;
          next_hop1 = b.hop1;
          next_hop2 = b.hop2;
        },
      )

  -- RibEntry.Set
  unfoldable pub set_cost : ℕ → ℕ → RibEntry N → Bool × RibEntry N
  unfolding refresh find put
  set_cost next_hop cost e =
      let known : Bool = elim (find next_hop e.costs) [ none ↦ false | some c ↦ c == cost ] in
      if known then (false, e) else refresh (record e { costs = put next_hop cost e.costs })

  abbrev pub new_entry : N → RibEntry N
  new_entry n = record {
    name = n;
    costs = [];
    next_hop1 = 0;
    next_hop2 = 0;
    lowest1 = 0;
    lowest2 = 0;
    dirty = false;
  }

  -- The entry that `Rib.Set` finds, or creates.
  abbrev pub found_or_new : N → Option (RibEntry N) → RibEntry N
  found_or_new dest none = new_entry dest
  found_or_new dest (some e) = e

  -- The loop of `RemoveNextHop`.
  unfoldable pub remove_from : ℕ → List (ℕ × RibEntry N) → Bool × List (ℕ × RibEntry N)
  unfolding find remove refresh
  remove_from hop [] = (false, [])
  remove_from hop ((k, e) ∷ es) =
      let (dirty, rest) = remove_from hop es in
      let (changed, d) = refresh (record e { costs = remove hop e.costs }) in
      elim (find hop e.costs) [
        | none ↦ (dirty, (k, e) ∷ rest)
        | some c ↦ (changed || dirty, (k, d) ∷ rest)
      ]

  -- The loop of `DirtyResetNextHop`.
  unfoldable pub reset_in : ℕ → List (ℕ × RibEntry N) → List (ℕ × RibEntry N)
  unfolding put
  reset_in hop [] = []
  reset_in hop ((k, e) ∷ es) =
      (k, record e { costs = put hop cost_infinity e.costs; dirty = true }) ∷ reset_in hop es

module _ {N : Type 0} (names : NameOps N) where
  open names use {hash}

  unfoldable pub set_route : N → N → ℕ → Rib N → Bool × Rib N
  unfolding find put set_cost
  set_route dest next_hop cost r =
      let e = found_or_new dest (find (hash dest) r.entries) in
      let neighbors : List (ℕ × N) = elim (find (hash next_hop) r.neighbors) [
        | none ↦ put (hash next_hop) next_hop r.neighbors
        | some _ ↦ r.neighbors
      ] in
      let (changed, d) = set_cost (hash next_hop) cost e in
      (changed, record { entries = put (hash dest) d r.entries; neighbors = neighbors })

  unfoldable pub has : N → Rib N → Bool
  unfolding find
  has dest r = elim (find (hash dest) r.entries) [
    | none ↦ false
    | some e ↦ ltb e.lowest1 cost_infinity
  ]

  -- `Entries`: what the loop over the sequence visits.
  unfoldable pub reachable_entries : Rib N → List (ℕ × RibEntry N)
  unfolding keep
  reachable_entries r = keep (λ (x : ℕ × RibEntry N). ltb x.1.lowest1 cost_infinity) r.entries

  unfoldable pub remove_next_hop : N → Rib N → Bool × Rib N
  unfolding remove_from
  remove_next_hop next_hop r =
      let (dirty, es) = remove_from (hash next_hop) r.entries in (dirty, record r { entries = es })

  unfoldable pub dirty_reset_next_hop : N → Rib N → Rib N
  unfolding reset_in
  dirty_reset_next_hop next_hop r = record r { entries = reset_in (hash next_hop) r.entries }

  -- The loop of `Prune`. The entry that is deleted is the one visited, since each entry stands
  -- under the hash of its name; deleting it before or after the rest is visited is the same.
  unfoldable pub prune_entries : List (ℕ × RibEntry N) → Bool × List (ℕ × RibEntry N)
  unfolding remove refresh
  prune_entries [] = (false, [])
  prune_entries ((k, e) ∷ es) =
      let (dirty, rest) = prune_entries es in
      let (changed, d) = if e.dirty then refresh e else (false, e) in
      if d.lowest1 == cost_infinity
      then (true, remove (hash d.name) ((k, d) ∷ rest))
      else (changed || dirty, (k, d) ∷ rest)

  unfoldable pub prune : Rib N → Bool × Rib N
  unfolding prune_entries
  prune r = let (dirty, es) = prune_entries r.entries in (dirty, record r { entries = es })

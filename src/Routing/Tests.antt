-- ===== src/Routing/Tests.antt =====
-- The routing daemon on concrete advertisements, and each property at one of them.
use mars_icnp.Prelude.{
  ℕ, ◌+◌, ◌≡◌, ◌≢◌, refl, false, some, List, [], ◌∷◌, ◌==◌, arith, if◌then◌else◌,
}
use mars_icnp.Prelude.Maps.{find, DistinctKeys}
use mars_icnp.Routing.Names.{NameOps}
use mars_icnp.Routing.Rib.{cost_infinity, RibEntry, Rib, set_route, has, best_hops}
use mars_icnp.Routing.Rib.Selection.{Before, chosen, best-first, best-second}
use mars_icnp.Routing.Rib.Order.{best-order}
use mars_icnp.Routing.Update.{
  AdvEntry, advert_entry, usable_cost, update_with, remove_dead_neighbor, advert_of,
}
use mars_icnp.Routing.Update.View.{via}
use mars_icnp.Routing.Update.Table.{IsTable}
use mars_icnp.Routing.Update.Prune.{AllReachable}
use mars_icnp.Routing.Update.Outcome.{
  offered, AllBounded, update-costs, update-AllReachable, remove_dead-costs,
}
use mars_icnp.Routing.Update.Poison.{poison-route}
use mars_icnp.Routing.Fib.{FibEntry, Fib, update_h, entries_of}
use mars_icnp.Routing.Prefixes.Replica.{
  PrefixEvent, announced, withdrawn, restarted, cost_of, replica_run, replica-same,
}
use mars_icnp.Routing.Fib.Merge.{cost_at, least_cost}
use mars_icnp.Routing.Fib.Commands.{executed, update_h-synced}

-- Names that are their own hashes.
abbrev numbers : NameOps ℕ
numbers = record { hash = λ n. n; equal = λ a b. a == b }

-- What the runs below compute with.
program : Unit {0}
unfolding find best_hops set_route update_with remove_dead_neighbor offered usable_cost has update_h
    executed least_cost advert_of
program = tt

abbrev costs : List (ℕ × ℕ)
costs = (4, 7) ∷ (2, 3) ∷ (3, 3) ∷ (5, 16) ∷ []

abbrev shuffled : List (ℕ × ℕ)
shuffled = (3, 3) ∷ (5, 16) ∷ (4, 7) ∷ (2, 3) ∷ []

chosen_costs : chosen costs ≡ record { low1 = 3; hop1 = 2; low2 = 3; hop2 = 3 }
unfolding program
chosen_costs = refl

same_map : (h : ℕ) → find h costs ≡ find h shuffled
unfolding find
same_map h = ground arith

costs-DistinctKeys : DistinctKeys costs
unfolding find
costs-DistinctKeys = ground arith

best-order_example : chosen costs ≡ chosen shuffled
unfolding find
best-order_example = best-order costs shuffled (ground arith) (ground arith) same_map

best-first_example : Before (chosen costs).low1 (chosen costs).hop1 7 4
unfolding find
best-first_example = best-first costs 4 7 refl

best-second_example : Before (chosen costs).low2 (chosen costs).hop2 7 4
unfolding program
best-second_example = best-second costs 4 7 refl (λ e. absurd (omega arith))

abbrev offer : ℕ → ℕ → ℕ → ℕ → AdvEntry ℕ
offer dest hop cost other = record {
  destination = dest;
  next_hop = some hop;
  cost = cost;
  other_cost = other;
}

-- Router 1 hears from 2; the route to 6 leads back to router 1 and has an alternative.
abbrev from_two : List (AdvEntry ℕ)
from_two = offer 2 2 0 16 ∷ offer 5 9 3 16 ∷ offer 6 1 2 4 ∷ offer 7 1 2 16 ∷ []

abbrev from_three : List (AdvEntry ℕ)
from_three = offer 3 3 0 16 ∷ offer 5 8 1 5 ∷ []

abbrev empty_rib : Rib ℕ
empty_rib = record { entries = []; neighbors = [] }

abbrev heard_two : Rib ℕ
heard_two = (update_with numbers 1 2 from_two empty_rib).1

abbrev heard_both : Rib ℕ
heard_both = (update_with numbers 1 3 from_three heard_two).1

heard_both_costs :
    (via heard_both.entries 5 2 ≡ 4)
    × (via heard_both.entries 5 3 ≡ 2)
    × (via heard_both.entries 6 2 ≡ 5)
    × (via heard_both.entries 7 2 ≡ 16)
unfolding program
heard_both_costs = (refl, refl, refl, refl)

heard_two-IsTable : IsTable numbers heard_two.entries
heard_two-IsTable = (update-AllReachable numbers 1 2 from_two empty_rib tt).0

from_three-AllBounded : AllBounded numbers 1 from_three
from_three-AllBounded = (ground arith, (ground arith, tt))

heard_both-IsTable : IsTable numbers heard_both.entries
heard_both-IsTable = (update-AllReachable numbers 1 3 from_three heard_two heard_two-IsTable).0

update-costs_example :
    via heard_both.entries 5 2
    ≡ (if 3 == 2 then offered numbers 1 5 from_three 16 else via heard_two.entries 5 2)
update-costs_example =
    update-costs numbers 1 3 from_three 5 2 heard_two heard_two-IsTable from_three-AllBounded

update-AllReachable_example :
    IsTable numbers heard_both.entries × AllReachable numbers heard_both.entries
update-AllReachable_example = update-AllReachable numbers 1 3 from_three heard_two heard_two-IsTable

remove_dead-costs_example :
    let r = (remove_dead_neighbor numbers 1 3 heard_both).1 in
    (via r.entries 5 3 ≡ (if 3 == 3 then cost_infinity else via heard_both.entries 5 3))
    × IsTable numbers r.entries
    × AllReachable numbers r.entries
remove_dead-costs_example = remove_dead-costs numbers 1 3 5 3 heard_both heard_both-IsTable

-- An entry of router 1 whose best hop is 3, as it is advertised to 3.
abbrev entry : RibEntry ℕ
entry = record {
  name = 5;
  costs = (2, 4) ∷ (3, 2) ∷ [];
  next_hop1 = 3;
  next_hop2 = 2;
  lowest1 = 2;
  lowest2 = 4;
  dirty = false;
}

abbrev sender : Rib ℕ
sender = record { entries = (5, entry) ∷ []; neighbors = (2, 2) ∷ (3, 3) ∷ [] }

poison-route_example :
    (x : ℕ × ℕ) × (x.0 ≢ 3)
    × (find x.0 entry.costs ≡ some x.1)
    × (usable_cost numbers 3 (advert_entry sender entry) ≡ x.1 + 1)
unfolding program
poison-route_example =
    poison-route numbers 3 3 sender entry (refl, refl, refl, refl) (refl, (refl, tt)) refl refl
      (omega arith)

abbrev fib_entry : ℕ → ℕ → FibEntry
fib_entry f c = record { face_id = f; cost = c; prev_cost = c }

-- Faces 10 and 11 are in the table, and 11 and 12 in the new entries.
abbrev table : Fib ℕ
table = record {
  names = (8, 8) ∷ [];
  prefixes = (8, fib_entry 10 3 ∷ fib_entry 11 4 ∷ []) ∷ [];
  mark = [];
}

abbrev news : List FibEntry
news = fib_entry 12 5 ∷ fib_entry 11 6 ∷ fib_entry 12 2 ∷ []

update_h-synced_example :
    executed 10 (update_h 8 8 news table).0 (cost_at 10 (entries_of 8 table))
    ≡ cost_at 10 (entries_of 8 (update_h 8 8 news table).2)
unfolding program
update_h-synced_example = update_h-synced 10 8 8 news table (ground arith)

-- Two faces announce a prefix, and the cheaper one withdraws it.
abbrev events : List (PrefixEvent {N = ℕ} numbers.hash)
events = restarted ∷ announced 8 10 3 ∷ announced 8 11 5 ∷ announced 9 10 1 ∷ withdrawn 8 10 ∷ []

replica_costs :
    (cost_of numbers.hash 8 (replica_run numbers.hash events [] []).1 ≡ 5)
    × (cost_of numbers.hash 9 (replica_run numbers.hash events [] []).1 ≡ 1)
unfolding find replica_run
replica_costs = (refl, refl)

replica-same_example :
    cost_of numbers.hash 8 (replica_run numbers.hash events [] []).1
    ≡ cost_of numbers.hash 8 (replica_run numbers.hash events [] []).0
replica-same_example = replica-same numbers.hash events 8

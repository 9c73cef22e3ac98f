-- ===== src/Tables/Tests.antt =====
-- The tables on small inputs, and each property at one of them.
use mars_icnp.Prelude.{
  keep, ℕ, ◌+◌, ◌≤◌, ◌<◌, ◌≡◌, ◌⊎◌, refl, true, false, none, some, List, [], ◌∷◌, length, map, ◌==◌,
  if◌then◌else◌, arith,
}
use mars_icnp.Prelude.Sets.{mem, insert, delete, Distinct}
use mars_icnp.Tables.Tree.{
  Name, fill_and, match_from, put_child, delete_child, find_child, name_eq, change_and_prune,
  keep_or_prune,
}
use mars_icnp.Tables.Strategy.{
  new_fib_entry, new_fib_tree, find_next_hops, find_strategy, update_next_hop, drop_hop,
  insert_next_hop, remove_fib_next_hop, first_hops, first_strategy, set_strategy,
}
use mars_icnp.Tables.Lookup.{longest_hops, longest_strategy}
use mars_icnp.Tables.Runs.{
  FibOp, insert_op, remove_op, set_op, fib_step, fib_run, table_run, new_table, run-lookups,
}
use mars_icnp.Tables.DeadNonces.{
  DeadNonceList, nonce_hash, push, insert_nonce, evict_expired, remove_expired_entries,
}
use mars_icnp.Prelude.Maps.{find}
use mars_icnp.Tables.Refinement.{value_at}
use mars_icnp.Tables.Routes.{Route, new_rib_table, min_cost_routes}
use mars_icnp.Tables.Routes.Plain.{
  has_key, without_oldest, some_captures, up_to_capture, passed_to, considered,
}
use mars_icnp.Tables.Routes.Runs.{RibCall, add_call, clean_up_call, rib_run}
use mars_icnp.Tables.Routes.Calls.{OnceEach, cost_to, plain_step, plain_run, rib_run-hops}
use mars_icnp.Tables.Routes.Minimum.{IsMinimum, min_cost_routes-IsMinimum}
use mars_icnp.Tables.ContentStore.{CsEntry, ContentStore, new_content_store, insert_data}
use mars_icnp.Tables.Eviction.{is_some}
use mars_icnp.Tables.Capacity.{
  IsBounded, CsCall, insert_data_call, find_data_call, cs_run, run-capacity, insert_data-evicts,
}
use mars_icnp.Tables.Expiry.{NonceCall, insert_call, nonce_run, live, expiry-exact}

program : Unit {0}
unfolding plain_step plain_run has_key without_oldest some_captures up_to_capture passed_to keep
    fill_and match_from put_child delete_child find_child name_eq new_fib_tree find_next_hops
    find_strategy update_next_hop drop_hop insert_next_hop remove_fib_next_hop first_hops
    first_strategy change_and_prune keep_or_prune set_strategy fib_step fib_run mem insert delete
    nonce_hash push insert_nonce evict_expired remove_expired_entries nonce_run live
program = tt

-- A route of `1/2` that is taken back, one of `1`, and a strategy of `1/2`.
abbrev changes : List FibOp
changes =
    insert_op (1 ∷ []) 7 10
    ∷ insert_op (1 ∷ 2 ∷ []) 8 5
    ∷ set_op (1 ∷ 2 ∷ []) (9 ∷ [])
    ∷ remove_op (1 ∷ 2 ∷ []) 8
    ∷ []

hops_of_parent :
    find_next_hops (fib_run changes (new_fib_tree [])) (1 ∷ 2 ∷ 3 ∷ [])
    ≡ record { nexthop = 7; cost = 10 } ∷ []
unfolding program
hops_of_parent = refl

run-lookups_example :
    (find_next_hops (fib_run changes (new_fib_tree [])) (1 ∷ 2 ∷ 3 ∷ [])
      ≡ longest_hops (table_run changes (new_table [])) (1 ∷ 2 ∷ 3 ∷ []))
    × (find_strategy (fib_run changes (new_fib_tree [])) (1 ∷ 2 ∷ 3 ∷ [])
        ≡ longest_strategy (table_run changes (new_table [])) (1 ∷ 2 ∷ 3 ∷ []))
run-lookups_example = run-lookups changes [] (1 ∷ 2 ∷ 3 ∷ [])

abbrev calls : List NonceCall
calls = insert_call 10 40 2 ∷ insert_call 30 50 2 ∷ []

abbrev both : DeadNonceList
both = record { list = 52 ∷ 42 ∷ []; expiration_queue = (16, 42) ∷ (36, 52) ∷ [] }

expiry-exact_example :
    ((mem 52 (live 20 both.expiration_queue) ≡ false)
      ⊎ (mem 52 (remove_expired_entries 20 both).list ≡ true))
    × ((100 < length both.expiration_queue)
        ⊎ (mem 52 (remove_expired_entries 20 both).list ≡ mem 52 (live 20 both.expiration_queue)))
unfolding program
expiry-exact_example = expiry-exact 6 20 52 calls both refl

abbrev same_hash : ℕ → ℕ
same_hash c = c

abbrev first_component : Name → ℕ
first_component [] = 0
first_component (c ∷ cs) = c

abbrev data_calls : List CsCall
data_calls =
    insert_data_call 10 (1 ∷ []) 100 (7 ∷ [])
    ∷ insert_data_call 20 (2 ∷ []) 100 (8 ∷ [])
    ∷ find_data_call 30 (1 ∷ []) true
    ∷ insert_data_call 40 (3 ∷ []) 100 (9 ∷ [])
    ∷ []

run-capacity_example :
    ((cs_run same_hash first_component 2 data_calls new_content_store).n_cs_entries ≤ 2)
    × (mem 2 (cs_run same_hash first_component 2 data_calls new_content_store).queue
        ≡ is_some (find 2 (cs_run same_hash first_component 2 data_calls new_content_store).cs_map))
    × Distinct (cs_run same_hash first_component 2 data_calls new_content_store).queue
run-capacity_example = run-capacity same_hash first_component 2 2 data_calls

abbrev entry_of_name : ℕ → CsEntry
entry_of_name i = record { wire = i ∷ []; stale_time = 100; path = i ∷ [] }

-- A store of two entries, of which the second has been used since.
abbrev full_store : ContentStore
full_store = record new_content_store {
  cs_map = (1, entry_of_name 1) ∷ (2, entry_of_name 2) ∷ [];
  n_cs_entries = 2;
  queue = 1 ∷ 2 ∷ [];
  locations = 2 ∷ 1 ∷ [];
}

full_store-IsBounded : IsBounded 2 full_store
unfolding mem find
full_store-IsBounded = (
  record {
    same = λ x. ground arith;
    once = ground arith;
    counted = refl;
    located = λ x. ground arith;
  },
  omega arith,
)

insert_data-evicts_example :
    find 1 (insert_data same_hash first_component 2 50 (3 ∷ []) 0 (9 ∷ []) full_store).cs_map ≡ (
      if 1 == 1
      then none
      else if 3 == 1
      then some (record { wire = 9 ∷ []; stale_time = 50 + 0; path = map same_hash (3 ∷ []) })
      else find 1 full_store.cs_map)
unfolding find
insert_data-evicts_example =
    insert_data-evicts same_hash first_component 2 50 (3 ∷ []) 0 (9 ∷ []) full_store 1 1 (2 ∷ [])
      full_store-IsBounded refl refl refl

abbrev route : ℕ → ℕ → ℕ → Route
route face cost flags = record {
  face_id = face;
  origin = 0;
  route_cost = cost;
  flags = flags;
  expiration_period = none;
}

-- A route of `1` that its children inherit, a dearer one of `1/2` by another face, and one by a third
-- face that is destroyed.
abbrev rib_calls : List RibCall
rib_calls =
    add_call (1 ∷ []) (route 7 10 1)
    ∷ add_call (1 ∷ 2 ∷ []) (route 8 20 0)
    ∷ add_call (1 ∷ 2 ∷ []) (route 9 5 0)
    ∷ clean_up_call 9
    ∷ []

inherited_routes :
    considered (plain_run rib_calls (λ p. [])) (1 ∷ 2 ∷ []) ≡ route 8 20 0 ∷ route 7 10 1 ∷ []
unfolding program
inherited_routes = refl

rib_run-hops_example :
    let hops =
      (value_at new_fib_entry
        ((rib_run rib_calls (new_rib_table (new_fib_tree []))).fib)
        (1 ∷ 2 ∷ [])).nexthops in
    OnceEach hops
    × IsMinimum 7 (cost_to 7 hops) (considered (plain_run rib_calls (λ p. [])) (1 ∷ 2 ∷ []))
rib_run-hops_example = rib_run-hops rib_calls [] 1 (2 ∷ []) 7

min_cost_routes-IsMinimum_example :
    IsMinimum 7
      (find 7 (min_cost_routes (route 7 10 1 ∷ route 8 3 0 ∷ route 7 4 0 ∷ []) []))
      (route 7 10 1 ∷ route 8 3 0 ∷ route 7 4 0 ∷ [])
min_cost_routes-IsMinimum_example =
    min_cost_routes-IsMinimum 7 (route 7 10 1 ∷ route 8 3 0 ∷ route 7 4 0 ∷ [])

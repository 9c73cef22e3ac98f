-- ===== src/Forwarding/Tests.antt =====
-- A thread with three faces on a few packets, and each property at one of them.
use mars_icnp.Prelude.{inr, ℕ, ◌≡◌, ◌⊎◌, refl, true, false, none, some, List, [], ◌∷◌, ◌++◌}
use mars_icnp.Prelude.Maps.{find}
use mars_icnp.Prelude.Sets.{mem}
use mars_icnp.Tables.Tree.{Name}
use mars_icnp.Tables.Strategy.{FibNextHop, FibTree, new_fib_tree, insert_next_hop}
use mars_icnp.Tables.DeadNonces.{DeadNonceList, new_dead_nonce_list}
use mars_icnp.Tables.Pit.{PitInRecord, PitEntry, Interest, PitCs, new_pit_cs, in_records_of}
use mars_icnp.Forwarding.{Face, Thread, no_counts}
use mars_icnp.Forwarding.Outgoing.{process_outgoing_interest}
use mars_icnp.Forwarding.Strategies.{
  data_to_downstreams, strict_least_cost, best_route, best_route_interest,
}
use mars_icnp.Forwarding.Incoming.{
  IncomingInterest, Config, process_incoming_interest, count_in_interest,
}
use mars_icnp.Forwarding.Pipelines.{IncomingData}
use mars_icnp.Forwarding.Scope.{IsLegal, best_route-IsScoped}
use mars_icnp.Forwarding.Runs.{
  PacketEvent, interest_event, data_event, update_event, thread_events, events-IsLegal,
}
use mars_icnp.Forwarding.Filter.{refused-dropped}
use mars_icnp.Forwarding.Answers.{answers, data_to_downstreams-answers}
use mars_icnp.Forwarding.Least.{Occurs, IsLeast, best_route-IsLeast}

abbrev inside : Face
inside = record { is_local = true; is_ad_hoc = false }

abbrev outside : Face
outside = record { is_local = false; is_ad_hoc = false }

abbrev three_faces : List (ℕ × Face)
three_faces = (1, inside) ∷ (2, outside) ∷ (3, outside) ∷ []

-- Hashes that are the first component.
abbrev first_component : Name → ℕ
first_component [] = 0
first_component (c ∷ cs) = c

abbrev config : Config
config = record {
  hash = λ c. c;
  name_hash = first_component;
  dead_nonce_lifetime = 6000;
  is_serving = true;
  is_admitting = true;
  cs_capacity = 8;
  is_producer = λ n. false;
  strategies = λ n. best_route strict_least_cost;
  find_prefix_data = λ n b now s. none;
  decode = λ w. none;
}

abbrev asked : Interest
asked = record {
  name = 5 ∷ 6 ∷ [];
  can_be_prefix = false;
  must_be_fresh = false;
  hint_names = [];
  nonce = some 77;
  lifetime = none;
  hop_limit = some 4;
}

abbrev arrival : IncomingInterest
arrival = record { interest = asked; incoming_face = 1; pit_token = 8 ∷ []; next_hop_face = none }

abbrev answer : IncomingData
answer = record {
  name = 5 ∷ 6 ∷ [];
  wire = 1 ∷ 2 ∷ [];
  freshness = 0;
  incoming_face = 2;
  token = none;
}

abbrev new_thread : FibTree → PitCs → DeadNonceList → Thread
new_thread fib pit dead = record {
  thread_id = 0;
  faces = three_faces;
  fib = fib;
  pit_cs = pit;
  dead_nonce_list = dead;
  counters = no_counts;
  log = [];
}

abbrev idle : Thread
idle = new_thread (insert_next_hop (5 ∷ []) 2 10 (new_fib_tree [])) new_pit_cs new_dead_nonce_list

abbrev packets : List PacketEvent
packets = interest_event 100 arrival ∷ data_event 200 answer ∷ update_event 300 ∷ []

events-IsLegal_example : IsLegal three_faces (thread_events config packets idle)
events-IsLegal_example =
    events-IsLegal config three_faces packets idle (λ n. best_route-IsScoped strict_least_cost)
      (refl, tt)

abbrev hops : List FibNextHop
hops =
    record { nexthop = 3; cost = 20 }
    ∷ record { nexthop = 2; cost = 10 }
    ∷ record { nexthop = 1; cost = 5 }
    ∷ []

abbrev from_one : PitInRecord
from_one = record {
  face = 1;
  latest_timestamp = 100;
  latest_nonce = 77;
  expiration_time = 4100;
  pit_token = 8 ∷ [];
}

abbrev dead : Thread
dead =
    new_thread (new_fib_tree []) new_pit_cs
      (record { list = 82 ∷ []; expiration_queue = (500, 82) ∷ [] })

refused-dropped_example :
    (process_incoming_interest config 100 arrival dead ≡ dead)
    ⊎ (process_incoming_interest config 100 arrival dead ≡ count_in_interest dead)
unfolding mem
refused-dropped_example =
    refused-dropped config 100 arrival dead (inr (inr (inr (inr (77, refl, refl)))))

best_route-IsLeast_example :
    (h : FibNextHop) × Occurs h hops
    × IsLeast h hops
    × (best_route_interest strict_least_cost 100 asked 1 1 hops idle
        ≡ (process_outgoing_interest 100 asked 1 h.nexthop 1 idle).1)
best_route-IsLeast_example =
    best_route-IsLeast 100 asked 1 1 (record { nexthop = 3; cost = 20 })
      (record { nexthop = 2; cost = 10 } ∷ record { nexthop = 1; cost = 5 } ∷ []) idle

abbrev waiting_entry : PitEntry
waiting_entry = record {
  encname = 5 ∷ 6 ∷ [];
  path = 5 ∷ 6 ∷ [];
  can_be_prefix = false;
  must_be_fresh = false;
  forwarding_hint = none;
  in_records = (1, from_one) ∷ (3, from_one) ∷ [];
  out_records = [];
  expiration_time = 4100;
  satisfied = false;
  token = 1;
}

abbrev waiting : Thread
waiting =
    new_thread (new_fib_tree []) (record new_pit_cs { entries = (1, waiting_entry) ∷ [] })
      new_dead_nonce_list

data_to_downstreams-answers_example :
    ((data_to_downstreams 200 (5 ∷ 6 ∷ []) (1 ∷ 2 ∷ []) 1 2 waiting).log
      ≡ waiting.log ++ answers (5 ∷ 6 ∷ []) (1 ∷ 2 ∷ []) 2 ((1, from_one) ∷ (3, from_one) ∷ []))
    × (in_records_of
          (find 1 ((data_to_downstreams 200 (5 ∷ 6 ∷ []) (1 ∷ 2 ∷ []) 1 2 waiting).pit_cs).entries)
        ≡ [])
unfolding find
data_to_downstreams-answers_example =
    data_to_downstreams-answers 200 (5 ∷ 6 ∷ []) (1 ∷ 2 ∷ []) 1 2
      ((1, from_one) ∷ (3, from_one) ∷ []) waiting refl (refl, (refl, tt))
      ((inside, refl, refl), ((outside, refl, refl), tt))

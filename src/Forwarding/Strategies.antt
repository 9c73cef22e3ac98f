-- ===== src/Forwarding/Strategies.antt =====
-- The strategies best-route and multicast (mars/fw/fw/bestroute.go, multicast.go).
use mars_icnp.Prelude.{
  ℕ, ◌+◌, Bool, true, false, not, ◌&&◌, ◌||◌, Option, none, some, List, [], ◌∷◌, ltb, ◌==◌,
  if◌then◌else◌,
}
use mars_icnp.Prelude.Maps.{find}
use mars_icnp.Tables.Tree.{Name}
use mars_icnp.Tables.Strategy.{FibNextHop}
use mars_icnp.Tables.Pit.{PitInRecord, PitOutRecord, PitEntry, Interest, nonce_of, in_records_of}
use mars_icnp.Forwarding.{Thread}
use mars_icnp.Forwarding.Outgoing.{
  process_outgoing_interest, process_outgoing_nack, send_data_packet,
}

-- The callbacks of a strategy: the time, the packet, the PIT entry, the ingress.
pub record ForwardingStrategy : Type 0 where
  pub after_content_store_hit : ℕ → Name → List ℕ → ℕ → ℕ → Thread → Thread
  pub after_receive_data : ℕ → Name → List ℕ → ℕ → ℕ → Thread → Thread
  pub after_receive_interest : ℕ → Interest → ℕ → ℕ → List FibNextHop → Thread → Thread
  pub before_satisfy_interest : ℕ → ℕ → Thread → Thread
  pub after_receive_nack : ℕ → Interest → ℕ → ℕ → ℕ → Thread → Thread
  pub after_receive_looped_interest : ℕ → Interest → ℕ → ℕ → Thread → Thread

-- Source 0 is the content store.
unfoldable pub data_from_store : ℕ → Name → List ℕ → ℕ → ℕ → Thread → Thread
data_from_store now name wire id in_face t = send_data_packet name wire id in_face 0 t

unfoldable pub data_to_all : Name → List ℕ → ℕ → ℕ → List (ℕ × PitInRecord) → Thread → Thread
data_to_all name wire id in_face [] t = t
data_to_all name wire id in_face ((f, r) ∷ rs) t =
    data_to_all name wire id in_face rs (send_data_packet name wire id f in_face t)

-- The records are those at the start of the loop, which deletes each as it goes.
unfoldable pub data_to_downstreams : ℕ → Name → List ℕ → ℕ → ℕ → Thread → Thread
data_to_downstreams now name wire id in_face t =
    data_to_all name wire id in_face (in_records_of (find id (t.pit_cs).entries)) t

unfoldable pub nack_to_all : Interest → ℕ → ℕ → ℕ → List (ℕ × PitInRecord) → Thread → Thread
nack_to_all i id in_face reason [] t = t
nack_to_all i id in_face reason ((f, r) ∷ rs) t =
    nack_to_all i id in_face reason rs
      (if f == in_face then t else (process_outgoing_nack i id f in_face reason t).1)

unfoldable pub nack_to_downstreams : ℕ → Interest → ℕ → ℕ → ℕ → Thread → Thread
nack_to_downstreams now i id in_face reason t =
    nack_to_all i id in_face reason (in_records_of (find id (t.pit_cs).entries)) t

abbrev pub hop_before : FibNextHop → FibNextHop → Bool
hop_before a b = if a.cost == b.cost then ltb a.nexthop b.nexthop else ltb a.cost b.cost

unfoldable pub insert_hop : FibNextHop → List FibNextHop → List FibNextHop
insert_hop h [] = h ∷ []
insert_hop h (g ∷ gs) = if hop_before g h then g ∷ insert_hop h gs else h ∷ g ∷ gs

-- `sort.Slice` by cost and then by face.
unfoldable pub sort_nexthops_by_cost : List FibNextHop → List FibNextHop
sort_nexthops_by_cost [] = []
sort_nexthops_by_cost (h ∷ hs) = insert_hop h (sort_nexthops_by_cost hs)

pub data ForwardingMode : Type 0 where
  standard : ForwardingMode
  strict_least_cost : ForwardingMode

abbrev pub out_records_of : Option PitEntry → List (ℕ × PitOutRecord)
out_records_of none = []
out_records_of (some e) = e.out_records

abbrev pub has_record : Option PitOutRecord → Bool
has_record none = false
has_record (some r) = true

-- The hops of a pass until one is sent; a first pass skips a hop with an out-record.
unfoldable pub try_hops : ℕ → Interest → ℕ → ℕ → Bool → List FibNextHop → Thread → Bool × Thread
try_hops now i id in_face first [] t = (false, t)
try_hops now i id in_face first (h ∷ hs) t =
    let (sent, t') = process_outgoing_interest now i id h.nexthop in_face t in
    let skipped = try_hops now i id in_face first hs t in
    let next = try_hops now i id in_face first hs t' in
    if first && has_record (find h.nexthop (out_records_of (find id (t.pit_cs).entries)))
    then skipped
    else if sent
    then (true, t')
    else next

unfoldable pub forward_interest_standard : ℕ → Interest → ℕ → ℕ → List FibNextHop → Thread → Thread
forward_interest_standard now i id in_face hs t =
    let (sent, t') = try_hops now i id in_face true hs t in
    if sent then t' else (try_hops now i id in_face false hs t').1

unfoldable pub forward_interest_strict_least_cost :
    ℕ → Interest → ℕ → ℕ → List FibNextHop → Thread → Thread
forward_interest_strict_least_cost now i id in_face [] t = t
forward_interest_strict_least_cost now i id in_face (h ∷ hs) t =
    (process_outgoing_interest now i id h.nexthop in_face t).1

unfoldable pub best_route_interest :
    ForwardingMode → ℕ → Interest → ℕ → ℕ → List FibNextHop → Thread → Thread
best_route_interest standard now i id in_face hs t =
    forward_interest_standard now i id in_face (sort_nexthops_by_cost hs) t
best_route_interest strict_least_cost now i id in_face hs t =
    forward_interest_strict_least_cost now i id in_face (sort_nexthops_by_cost hs) t

abbrev pub best_route : ForwardingMode → ForwardingStrategy
best_route mode = record {
  after_content_store_hit = data_from_store;
  after_receive_data = data_to_downstreams;
  after_receive_interest = best_route_interest mode;
  before_satisfy_interest = λ id in_face t. t;
  after_receive_nack = nack_to_downstreams;
  after_receive_looped_interest = λ now i id in_face t. t;
}

-- 500 milliseconds.
abbrev pub multicast_suppression_time : ℕ
multicast_suppression_time = 500000000

unfoldable pub is_suppressed : ℕ → ℕ → List (ℕ × PitOutRecord) → Bool
is_suppressed now nonce [] = false
is_suppressed now nonce ((f, r) ∷ rs) =
    (not (r.latest_nonce == nonce) && ltb now (r.latest_timestamp + multicast_suppression_time))
    || is_suppressed now nonce rs

unfoldable pub send_to_hops : ℕ → Interest → ℕ → ℕ → List FibNextHop → Thread → Thread
send_to_hops now i id in_face [] t = t
send_to_hops now i id in_face (h ∷ hs) t =
    send_to_hops now i id in_face hs (process_outgoing_interest now i id h.nexthop in_face t).1

unfoldable pub multicast_interest : ℕ → Interest → ℕ → ℕ → List FibNextHop → Thread → Thread
multicast_interest now i id in_face [] t = t
multicast_interest now i id in_face (h ∷ hs) t =
    if is_suppressed now (nonce_of i) (out_records_of (find id (t.pit_cs).entries))
    then t
    else send_to_hops now i id in_face (h ∷ hs) t

abbrev pub multicast : ForwardingStrategy
multicast = record {
  after_content_store_hit = data_from_store;
  after_receive_data = data_to_downstreams;
  after_receive_interest = multicast_interest;
  before_satisfy_interest = λ id in_face t. t;
  after_receive_nack = nack_to_downstreams;
  after_receive_looped_interest = λ now i id in_face t. t;
}

-- ===== src/Forwarding/Incoming.antt =====
-- `processIncomingInterest`.
use mars_icnp.Prelude.{
  ℕ, ◌+◌, ◌-◌, Bool, true, false, not, ◌&&◌, ◌||◌, Option, none, some, List, [], ◌∷◌, ltb, ◌==◌,
  if◌then◌else◌,
}
use mars_icnp.Prelude.Maps.{find, put}
use mars_icnp.Tables.Tree.{Name}
use mars_icnp.Tables.Strategy.{FibNextHop, find_next_hops, find_strategy}
use mars_icnp.Tables.DeadNonces.{find_nonce, insert_nonce}
use mars_icnp.Tables.ContentStore.{CsEntry, ContentStore, find_exact_data}
use mars_icnp.Tables.Pit.{
  PitInRecord, PitEntry, Interest, nonce_of, in_records_of, insert_in_record, insert_interest,
  update_expiration_timer,
}
use mars_icnp.Forwarding.{Face, Thread, localhop}
use mars_icnp.Forwarding.Outgoing.{is_localhost, with_pit, process_outgoing_interest}
use mars_icnp.Forwarding.Strategies.{ForwardingStrategy}

-- A packet as the link service dispatches it.
pub record IncomingInterest : Type 0 where
  pub interest : Interest
  pub incoming_face : ℕ
  pub pit_token : List ℕ
  pub next_hop_face : Option ℕ

-- `*interest.HopLimitV -= 1`.
abbrev pub lower_hop_limit : Interest → Interest
lower_hop_limit i = record i {
  hop_limit = elim i.hop_limit [ none ↦ none | some h ↦ some (h - 1) ];
}

-- The forwarding hint: none when there is none or when a region of the network produces it, else
-- the first name.
unfoldable pub reaches_region : (Name → Bool) → List Name → Bool
reaches_region is_producer [] = false
reaches_region is_producer (n ∷ ns) = is_producer n || reaches_region is_producer ns

unfoldable pub hint_of : (Name → Bool) → List Name → Option Name
hint_of is_producer [] = none
hint_of is_producer (n ∷ ns) = if reaches_region is_producer (n ∷ ns) then none else some n

abbrev pub is_localhop : Name → Bool
is_localhop [] = false
is_localhop (c ∷ cs) = c == localhop

abbrev pub leaves_node : Option Face → Bool
leaves_node none = false
leaves_node (some f) = not f.is_local

abbrev pub has_in_record : Option PitInRecord → Bool
has_in_record none = false
has_in_record (some r) = true

-- The next hops that may be used: not the ingress, under `localhop` no face that leaves the node,
-- and no face that the Interest has come from.
unfoldable pub allowed_nexthops :
    ℕ → Bool → List (ℕ × Face) → List (ℕ × PitInRecord) → List FibNextHop → List FibNextHop
allowed_nexthops in_face local_only faces rs [] = []
allowed_nexthops in_face local_only faces rs (h ∷ hs) =
    let rest = allowed_nexthops in_face local_only faces rs hs in
    if (h.nexthop == in_face)
      || (local_only && leaves_node (find h.nexthop faces))
      || has_in_record (find h.nexthop rs)
    then rest
    else h ∷ rest

abbrev pub count_in_interest : Thread → Thread
count_in_interest t = record t {
  counters = record (t.counters) { n_in_interests = (t.counters).n_in_interests + 1 };
}

abbrev pub count_hit : Thread → Thread
count_hit t = record t { counters = record (t.counters) { n_cs_hits = (t.counters).n_cs_hits + 1 } }

abbrev pub count_miss : Thread → Thread
count_miss t = record t {
  counters = record (t.counters) { n_cs_misses = (t.counters).n_cs_misses + 1 };
}

abbrev pub later_expiry : Option PitEntry → PitInRecord → Bool
later_expiry none r = false
later_expiry (some e) r = ltb e.expiration_time r.expiration_time

-- What the forwarder is configured with: the hashes, the lifetime of dead nonces, whether the
-- content store serves, the capacity and admission of the store, the regions, and the strategies
-- by name. `find_prefix_data` is the search below a node for an Interest that can be a prefix,
-- which takes the children in the order of a Go map; `decode` reads a stored packet's name.
pub record Config : Type 0 where
  pub hash : ℕ → ℕ
  pub name_hash : Name → ℕ
  pub dead_nonce_lifetime : ℕ
  pub is_serving : Bool
  pub is_admitting : Bool
  pub cs_capacity : ℕ
  pub is_producer : Name → Bool
  pub strategies : Option Name → ForwardingStrategy
  pub find_prefix_data : Name → Bool → ℕ → ContentStore → Option CsEntry
  pub decode : List ℕ → Option Name

module _ (c : Config) where
  unfoldable pub find_data : Interest → ℕ → ContentStore → Option CsEntry × ContentStore
  find_data i now s =
      if i.can_be_prefix
      then (c.find_prefix_data i.name i.must_be_fresh now s, s)
      else find_exact_data c.hash c.name_hash i.name i.must_be_fresh now s

  unfoldable pub mark_dead : ℕ → Name → ℕ → Thread → Thread
  mark_dead now name nonce t = record t {
    dead_nonce_list =
        (insert_nonce c.dead_nonce_lifetime now (c.name_hash name) nonce t.dead_nonce_list).1;
  }

  -- From the choice of the next hops on.
  unfoldable pub forward_allowed : ℕ → IncomingInterest → Face → Option Name → ℕ → Thread → Thread
  forward_allowed now p face hint id t =
      let lookup : Name = elim hint [ none ↦ (p.interest).name | some h ↦ h ] in
      (c.strategies (find_strategy t.fib (p.interest).name)).after_receive_interest now p.interest
        id p.incoming_face
        (allowed_nexthops p.incoming_face (not face.is_local && is_localhop (p.interest).name)
          t.faces (in_records_of (find id (t.pit_cs).entries)) (find_next_hops t.fib lookup))
        t

  -- The next hop that the consumer chose, if it has a face.
  unfoldable pub forward_chosen : ℕ → IncomingInterest → ℕ → ℕ → Option Face → Thread → Thread
  forward_chosen now p id hop none t = t
  forward_chosen now p id hop (some f) t =
      (process_outgoing_interest now p.interest id hop p.incoming_face t).1

  unfoldable pub forward_pending :
      ℕ → IncomingInterest → Face → Option Name → ℕ → PitInRecord → Thread → Thread
  forward_pending now p face hint id r t =
      let t' =
        if later_expiry (find id (t.pit_cs).entries) r
        then with_pit (update_expiration_timer id r.expiration_time) t
        else t in
      elim p.next_hop_face [
        | none ↦ forward_allowed now p face hint id t'
        | some hop ↦ forward_chosen now p id hop (find hop t'.faces) t'
      ]

  -- A stored packet goes back, when it can be decoded.
  unfoldable pub serve_or_forward :
      ℕ → IncomingInterest → Face → Option Name → ℕ → PitInRecord → Option CsEntry → Thread → Thread
  serve_or_forward now p face hint id r none t = forward_pending now p face hint id r (count_miss t)
  serve_or_forward now p face hint id r (some e) t = elim (c.decode e.wire) [
    | none ↦ forward_pending now p face hint id r (count_hit t)
    | some name ↦
        (c.strategies (find_strategy t.fib (p.interest).name)).after_content_store_hit now name
          e.wire id p.incoming_face (with_pit (update_expiration_timer id now) (count_hit t))
  ]

  unfoldable pub after_in_record :
      ℕ → IncomingInterest → Face → Option Name → ℕ → PitInRecord → Option ℕ → Thread → Thread
  after_in_record now p face hint id r none t =
      if c.is_serving
      then (let (found, cs) = find_data p.interest now (t.pit_cs).cs in
          serve_or_forward now p face hint id r found (with_pit (λ q. record q { cs = cs }) t))
      else forward_pending now p face hint id r t
  after_in_record now p face hint id r (some previous) t =
      forward_pending now p face hint id r (mark_dead now (p.interest).name previous t)

  abbrev pub record_in :
      ℕ → IncomingInterest → Face → Option Name → ℕ → Option PitEntry → Thread → Thread
  record_in now p face hint id none t = t
  record_in now p face hint id (some e) t =
      let (e', r, previous) = insert_in_record p.interest p.incoming_face p.pit_token now e in
      after_in_record now p face hint id r previous
        (with_pit (λ q. record q { entries = put id e' q.entries }) t)

  -- From the dead nonce list on; the Interest has a nonce.
  unfoldable pub admit_interest : ℕ → IncomingInterest → Face → Thread → Thread
  admit_interest now p face t =
      let hint = hint_of c.is_producer (p.interest).hint_names in
      if find_nonce (c.name_hash (p.interest).name) (nonce_of p.interest) t.dead_nonce_list
      then t
      else let (id, is_duplicate, q) =
          insert_interest c.hash p.interest hint p.incoming_face t.pit_cs in
        let t' = with_pit (λ o. q) t in
        if is_duplicate
        then (c.strategies (find_strategy t.fib (p.interest).name)).after_receive_looped_interest
            now p.interest id p.incoming_face t'
        else record_in now p face hint id (find id q.entries) t'

  abbrev pub is_zero_limit : Option ℕ → Bool
  is_zero_limit none = false
  is_zero_limit (some h) = h == 0

  abbrev pub has_nonce : Option ℕ → Bool
  has_nonce none = false
  has_nonce (some n) = true

  abbrev pub incoming_interest_on : Option Face → ℕ → IncomingInterest → Thread → Thread
  incoming_interest_on none now p t = t
  incoming_interest_on (some face) now p t =
      let p' = record p { interest = lower_hop_limit p.interest } in
      if is_zero_limit (p.interest).hop_limit
      then t
      else if not face.is_local && is_localhost (p.interest).name
      then t
      else if has_nonce (p.interest).nonce
      then admit_interest now p' face (count_in_interest t)
      else count_in_interest t

  unfoldable pub process_incoming_interest : ℕ → IncomingInterest → Thread → Thread
  process_incoming_interest now p t = incoming_interest_on (find p.incoming_face t.faces) now p t

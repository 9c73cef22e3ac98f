-- ===== src/Forwarding/Runs.antt =====
-- The events of a forwarding thread, and what it sends over a run.
use mars_icnp.Prelude.{
  ℕ, inl, inr, not, ◌&&◌, Option, none, some, List, [], ◌∷◌, leb, if◌then◌else◌, if_either,
  Option-cases,
}
use mars_icnp.Prelude.Maps.{find, put}
use mars_icnp.Tables.Tree.{Name}
use mars_icnp.Tables.Strategy.{find_strategy}
use mars_icnp.Tables.DeadNonces.{Queue, find_nonce, remove_expired_entries}
use mars_icnp.Tables.ContentStore.{CsEntry}
use mars_icnp.Tables.Pit.{
  PitInRecord, PitOutRecord, PitEntry, nonce_of, update_expiration_timer, remove_interest,
  insert_in_record, insert_interest, find_by_data,
}
use mars_icnp.Forwarding.{Face, Thread}
use mars_icnp.Forwarding.Outgoing.{is_localhost, with_pit, process_outgoing_data}
use mars_icnp.Forwarding.Strategies.{ForwardingStrategy}
use mars_icnp.Forwarding.Incoming.{
  IncomingInterest, Config, hint_of, later_expiry, find_data, mark_dead, forward_allowed,
  forward_chosen, forward_pending, serve_or_forward, after_in_record, record_in, admit_interest,
  incoming_interest_on, process_incoming_interest, count_in_interest, lower_hop_limit, count_hit,
  count_miss, is_zero_limit, has_nonce,
}
use mars_icnp.Forwarding.Pipelines.{
  IncomingData, IncomingNack, count_in_data, send_downstreams, mark_all_dead, satisfy_one,
  satisfy_next, satisfy_each, satisfy_all, store_data, incoming_data_on, process_incoming_data,
  nack_entry, incoming_nack_on, process_incoming_nack, finalize_entry, finalize_interest,
  update_from, update,
}
use mars_icnp.Forwarding.Scope.{IsLegal, IsScoped, interest-IsLegal, data-IsLegal}

module _ (c : Config) (scoped : (n : Option Name) → IsScoped (c.strategies n))
    (faces : List (ℕ × Face)) where
  chosen-IsLegal :
      (now : ℕ) (p : IncomingInterest) (id hop : ℕ) (o : Option Face) (t : Thread)
      → IsLegal faces t
      → IsLegal faces (forward_chosen c now p id hop o t)
  unfolding forward_chosen
  chosen-IsLegal now p id hop none t l = l
  chosen-IsLegal now p id hop (some f) t l =
      interest-IsLegal faces now p.interest id hop p.incoming_face t l

  next-IsLegal :
      (now : ℕ) (p : IncomingInterest) (face : Face) (hint : Option Name) (id : ℕ) (t : Thread)
      (o : Option ℕ)
      → IsLegal faces t
      → IsLegal faces (elim o [
        | none ↦ forward_allowed c now p face hint id t
        | some hop ↦ forward_chosen c now p id hop (find hop t.faces) t
      ])
  unfolding forward_allowed
  next-IsLegal now p face hint id t none l =
      (scoped (find_strategy t.fib (p.interest).name)).on_interest faces now p.interest id
        p.incoming_face _ t l
  next-IsLegal now p face hint id t (some hop) l =
      chosen-IsLegal now p id hop (find hop t.faces) t l

  pending-IsLegal :
      (now : ℕ) (p : IncomingInterest) (face : Face) (hint : Option Name) (id : ℕ) (r : PitInRecord)
      (t : Thread)
      → IsLegal faces t
      → IsLegal faces (forward_pending c now p face hint id r t)
  unfolding forward_pending forward_allowed
  pending-IsLegal now p face hint id r t l =
      let t' : Thread =
        if later_expiry (find id (t.pit_cs).entries) r
        then with_pit (update_expiration_timer id r.expiration_time) t
        else t in
      let l' : IsLegal faces t' =
        if_either (IsLegal faces) (later_expiry (find id (t.pit_cs).entries) r) l l in
      next-IsLegal now p face hint id t' p.next_hop_face l'

  serve-IsLegal :
      (now : ℕ) (p : IncomingInterest) (face : Face) (hint : Option Name) (id : ℕ) (r : PitInRecord)
      (o : Option CsEntry) (t : Thread)
      → IsLegal faces t
      → IsLegal faces (serve_or_forward c now p face hint id r o t)
  unfolding serve_or_forward
  serve-IsLegal now p face hint id r none t l =
      pending-IsLegal now p face hint id r (count_miss t) l
  serve-IsLegal now p face hint id r (some e) t l = elim (Option-cases (c.decode e.wire)) [
    | inl n ↦ rw (n, serve_or_forward) (pending-IsLegal now p face hint id r (count_hit t) l)
    | inr (name, n) ↦
        rw (n, serve_or_forward)
          ((scoped (find_strategy t.fib (p.interest).name)).hit faces now name e.wire id
            p.incoming_face (with_pit (update_expiration_timer id now) (count_hit t)) l)
  ]

  after_record-IsLegal :
      (now : ℕ) (p : IncomingInterest) (face : Face) (hint : Option Name) (id : ℕ) (r : PitInRecord)
      (o : Option ℕ) (t : Thread)
      → IsLegal faces t
      → IsLegal faces (after_in_record c now p face hint id r o t)
  unfolding after_in_record mark_dead
  after_record-IsLegal now p face hint id r none t l =
      if_either (IsLegal faces) c.is_serving
        (serve-IsLegal now p face hint id r ((find_data c p.interest now (t.pit_cs).cs).0)
          (with_pit (λ q. record q { cs = (find_data c p.interest now (t.pit_cs).cs).1 }) t) l)
        (pending-IsLegal now p face hint id r t l)
  after_record-IsLegal now p face hint id r (some n) t l =
      pending-IsLegal now p face hint id r (mark_dead c now (p.interest).name n t) l

  record_in-IsLegal :
      (now : ℕ) (p : IncomingInterest) (face : Face) (hint : Option Name) (id : ℕ)
      (o : Option PitEntry) (t : Thread)
      → IsLegal faces t
      → IsLegal faces (record_in c now p face hint id o t)
  record_in-IsLegal now p face hint id none t l = l
  record_in-IsLegal now p face hint id (some e) t l =
      let (e', r, previous) = insert_in_record p.interest p.incoming_face p.pit_token now e in
      after_record-IsLegal now p face hint id r previous
        (with_pit (λ q. record q { entries = put id e' q.entries }) t) l

  admit-IsLegal :
      (now : ℕ) (p : IncomingInterest) (face : Face) (t : Thread)
      → IsLegal faces t
      → IsLegal faces (admit_interest c now p face t)
  unfolding admit_interest
  admit-IsLegal now p face t l =
      let hint = hint_of c.is_producer (p.interest).hint_names in
      let (id, is_duplicate, q) = insert_interest c.hash p.interest hint p.incoming_face t.pit_cs in
      if_either (IsLegal faces)
        (find_nonce (c.name_hash (p.interest).name) (nonce_of p.interest) t.dead_nonce_list) l
        (if_either (IsLegal faces) is_duplicate
          ((scoped (find_strategy t.fib (p.interest).name)).on_loop faces now p.interest id
            p.incoming_face (with_pit (λ o. q) t) l)
          (record_in-IsLegal now p face hint id (find id q.entries) (with_pit (λ o. q) t) l))

  incoming_interest-IsLegal :
      (o : Option Face) (now : ℕ) (p : IncomingInterest) (t : Thread)
      → IsLegal faces t
      → IsLegal faces (incoming_interest_on c o now p t)
  incoming_interest-IsLegal none now p t l = l
  incoming_interest-IsLegal (some face) now p t l =
      if_either (IsLegal faces) (is_zero_limit c (p.interest).hop_limit) l (
        if_either (IsLegal faces) (not face.is_local && is_localhost (p.interest).name) l (
          if_either (IsLegal faces) (has_nonce c (p.interest).nonce)
            (admit-IsLegal now (record p { interest = lower_hop_limit p.interest }) face
              (count_in_interest t) l)
            l))

  downstreams-IsLegal :
      (name : Name) (wire : List ℕ) (in_face : ℕ) (ds : List (ℕ × List ℕ)) (t : Thread)
      → IsLegal faces t
      → IsLegal faces (send_downstreams name wire in_face ds t)
  unfolding send_downstreams
  downstreams-IsLegal name wire in_face [] t l = l
  downstreams-IsLegal name wire in_face ((f, token) ∷ ds) t l =
      downstreams-IsLegal name wire in_face ds (process_outgoing_data name wire f token in_face t)
        (data-IsLegal faces name wire f token in_face t l)

  marked-IsLegal :
      (now : ℕ) (name : Name) (rs : List (ℕ × PitOutRecord)) (t : Thread)
      → IsLegal faces t
      → IsLegal faces (mark_all_dead c now name rs t)
  unfolding mark_all_dead mark_dead
  marked-IsLegal now name [] t l = l
  marked-IsLegal now name ((f, r) ∷ rs) t l =
      marked-IsLegal now name rs (mark_dead c now name r.latest_nonce t) l

  satisfy_one-IsLegal :
      (now : ℕ) (p : IncomingData) (s : ForwardingStrategy) (id : ℕ) (t : Thread)
      → IsScoped s
      → IsLegal faces t
      → IsLegal faces (satisfy_one c now p s id t)
  unfolding satisfy_one
  satisfy_one-IsLegal now p s id t sc l = marked-IsLegal now p.name _ _ (
      sc.on_data faces now p.name p.wire id p.incoming_face
        (with_pit (update_expiration_timer id now) t) l)

  satisfy_next-IsLegal :
      (now : ℕ) (p : IncomingData) (s : ForwardingStrategy) (first id : ℕ) (t : Thread)
      → IsScoped s
      → IsLegal faces t
      → IsLegal faces (satisfy_next c now p s first id t)
  unfolding satisfy_next
  satisfy_next-IsLegal now p s first id t sc l =
      downstreams-IsLegal p.name p.wire p.incoming_face _ _ (
        marked-IsLegal now p.name _ _
          (sc.before faces id p.incoming_face (with_pit (update_expiration_timer id now) t) l))

  satisfy_each-IsLegal :
      (now : ℕ) (p : IncomingData) (s : ForwardingStrategy) (first : ℕ) (ids : List ℕ) (t : Thread)
      → IsScoped s
      → IsLegal faces t
      → IsLegal faces (satisfy_each c now p s first ids t)
  unfolding satisfy_each
  satisfy_each-IsLegal now p s first [] t sc l = l
  satisfy_each-IsLegal now p s first (id ∷ ids) t sc l =
      satisfy_each-IsLegal now p s first ids (satisfy_next c now p s first id t) sc
        (satisfy_next-IsLegal now p s first id t sc l)

  satisfy_all-IsLegal :
      (now : ℕ) (p : IncomingData) (s : ForwardingStrategy) (ids : List ℕ) (t : Thread)
      → IsScoped s
      → IsLegal faces t
      → IsLegal faces (satisfy_all c now p s ids t)
  unfolding satisfy_all
  satisfy_all-IsLegal now p s [] t sc l = l
  satisfy_all-IsLegal now p s (id ∷ []) t sc l = satisfy_one-IsLegal now p s id t sc l
  satisfy_all-IsLegal now p s (id ∷ id' ∷ ids) t sc l =
      satisfy_each-IsLegal now p s id (id ∷ id' ∷ ids) t sc l

  incoming_data-IsLegal :
      (o : Option Face) (now : ℕ) (p : IncomingData) (t : Thread)
      → IsLegal faces t
      → IsLegal faces (incoming_data_on c o now p t)
  incoming_data-IsLegal none now p t l = l
  incoming_data-IsLegal (some face) now p t l =
      let stored : Thread = store_data c now p (count_in_data t) in
      let l' : IsLegal faces stored = if_either (IsLegal faces) c.is_admitting l l in
      if_either (IsLegal faces) (not face.is_local && is_localhost p.name) l (
        satisfy_all-IsLegal now p (c.strategies (find_strategy t.fib p.name))
          (find_by_data c.hash p.name p.token stored.pit_cs) stored
          (scoped (find_strategy t.fib p.name)) l')

  nack_entry-IsLegal :
      (now : ℕ) (p : IncomingNack) (o : Option ℕ) (t : Thread)
      → IsLegal faces t
      → IsLegal faces (nack_entry c now p o t)
  nack_entry-IsLegal now p none t l = l
  nack_entry-IsLegal now p (some id) t l =
      (scoped (find_strategy t.fib (p.interest).name)).on_nack faces now p.interest id
        p.incoming_face p.reason t l

  incoming_nack-IsLegal :
      (o : Option Face) (now : ℕ) (p : IncomingNack) (t : Thread)
      → IsLegal faces t
      → IsLegal faces (incoming_nack_on c o now p t)
  incoming_nack-IsLegal none now p t l = l
  incoming_nack-IsLegal (some face) now p t l = nack_entry-IsLegal now p _ _ l

  finalize-IsLegal :
      (now : ℕ) (o : Option PitEntry) (t : Thread)
      → IsLegal faces t
      → IsLegal faces (finalize_entry c now o t)
  finalize-IsLegal now none t l = l
  finalize-IsLegal now (some e) t l =
      let m = marked-IsLegal now e.encname e.out_records t l in
      if_either (IsLegal faces) e.satisfied m m

  update_from-IsLegal :
      (now : ℕ) (q : Queue) (t : Thread) → IsLegal faces t → IsLegal faces (update_from c now q t)
  unfolding update_from finalize_interest
  update_from-IsLegal now [] t l = l
  update_from-IsLegal now ((e, id) ∷ q) t l =
      let t1 : Thread = with_pit (λ p. record p { pit_expiry_queue = q }) t in
      if_either (IsLegal faces) (leb e now)
        (update_from-IsLegal now q (with_pit (remove_interest id) (finalize_interest c now id t1))
          (finalize-IsLegal now (find id (t1.pit_cs).entries) t1 l))
        l

-- What a thread handles, each with its time.
pub data PacketEvent : Type 0 where
  interest_event : ℕ → IncomingInterest → PacketEvent
  data_event : ℕ → IncomingData → PacketEvent
  nack_event : ℕ → IncomingNack → PacketEvent
  update_event : ℕ → PacketEvent
  dead_nonce_event : ℕ → PacketEvent

abbrev pub expire_nonces : ℕ → Thread → Thread
expire_nonces now t = record t { dead_nonce_list = remove_expired_entries now t.dead_nonce_list }

unfoldable pub thread_step : Config → PacketEvent → Thread → Thread
thread_step c (interest_event now p) t = process_incoming_interest c now p t
thread_step c (data_event now p) t = process_incoming_data c now p t
thread_step c (nack_event now p) t = process_incoming_nack c now p t
thread_step c (update_event now) t = update c now t
thread_step c (dead_nonce_event now) t = expire_nonces now t

unfoldable pub thread_events : Config → List PacketEvent → Thread → Thread
thread_events c [] t = t
thread_events c (e ∷ es) t = thread_events c es (thread_step c e t)

step-IsLegal :
    (c : Config) (faces : List (ℕ × Face)) (e : PacketEvent) (t : Thread)
    → ((n : Option Name) → IsScoped (c.strategies n))
    → IsLegal faces t
    → IsLegal faces (thread_step c e t)
unfolding thread_step process_incoming_interest process_incoming_data process_incoming_nack update
step-IsLegal c faces (interest_event now p) t sc l =
    incoming_interest-IsLegal c sc faces (find p.incoming_face t.faces) now p t l
step-IsLegal c faces (data_event now p) t sc l =
    incoming_data-IsLegal c sc faces (find p.incoming_face t.faces) now p t l
step-IsLegal c faces (nack_event now p) t sc l =
    incoming_nack-IsLegal c sc faces (find p.incoming_face t.faces) now p t l
step-IsLegal c faces (update_event now) t sc l =
    update_from-IsLegal c sc faces now (t.pit_cs).pit_expiry_queue t l
step-IsLegal c faces (dead_nonce_event now) t sc l = l

-- A thread whose strategies keep to the scopes, as best-route and multicast do, sends over any run
-- only to faces that it has: no Interest back to its ingress unless the face is ad-hoc, none with
-- a spent hop limit to a face that leaves the node, and no Data or Nack below `localhost` to such
-- a face.
pub events-IsLegal :
    (c : Config) (faces : List (ℕ × Face)) (es : List PacketEvent) (t : Thread)
    → ((n : Option Name) → IsScoped (c.strategies n))
    → IsLegal faces t
    → IsLegal faces (thread_events c es t)
unfolding thread_events
events-IsLegal c faces [] t sc l = l
events-IsLegal c faces (e ∷ es) t sc l =
    events-IsLegal c faces es (thread_step c e t) sc (step-IsLegal c faces e t sc l)

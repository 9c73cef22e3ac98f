-- ===== src/Forwarding/Pipelines.antt =====
-- The pipelines of Data, of Nacks and of expired Interests.
use mars_icnp.Prelude.{
  ℕ, ◌+◌, true, not, ◌&&◌, Option, none, some, List, [], ◌∷◌, leb, ◌==◌, if◌then◌else◌, length,
}
use mars_icnp.Prelude.Maps.{find}
use mars_icnp.Tables.Tree.{Name}
use mars_icnp.Tables.Strategy.{find_strategy}
use mars_icnp.Tables.DeadNonces.{Queue}
use mars_icnp.Tables.ContentStore.{insert_data}
use mars_icnp.Tables.Pit.{
  PitInRecord, PitOutRecord, PitEntry, Interest, in_records_of, clear_records, update_entry,
  update_expiration_timer, find_by_data, find_interest_exact_match, remove_interest,
}
use mars_icnp.Forwarding.{Face, Thread}
use mars_icnp.Forwarding.Outgoing.{is_localhost, with_pit, process_outgoing_data}
use mars_icnp.Forwarding.Strategies.{ForwardingStrategy, out_records_of}
use mars_icnp.Forwarding.Incoming.{Config, mark_dead}

-- Data as the link service dispatches it; `token` is the number in a PIT token of 6 bytes.
pub record IncomingData : Type 0 where
  pub name : Name
  pub wire : List ℕ
  pub freshness : ℕ
  pub incoming_face : ℕ
  pub token : Option ℕ

pub record IncomingNack : Type 0 where
  pub interest : Interest
  pub incoming_face : ℕ
  pub token : Option ℕ
  pub reason : ℕ

abbrev pub count_in_data : Thread → Thread
count_in_data t = record t {
  counters = record (t.counters) { n_in_data = (t.counters).n_in_data + 1 };
}

abbrev pub count_in_nack : Thread → Thread
count_in_nack t = record t {
  counters = record (t.counters) { n_in_nacks = (t.counters).n_in_nacks + 1 };
}

-- The faces to answer, with their tokens: all but the ingress.
unfoldable pub downstreams : ℕ → List (ℕ × PitInRecord) → List (ℕ × List ℕ)
downstreams in_face [] = []
downstreams in_face ((f, r) ∷ rs) =
    if f == in_face then downstreams in_face rs else (f, r.pit_token) ∷ downstreams in_face rs

unfoldable pub send_downstreams : Name → List ℕ → ℕ → List (ℕ × List ℕ) → Thread → Thread
send_downstreams name wire in_face [] t = t
send_downstreams name wire in_face ((f, token) ∷ ds) t =
    send_downstreams name wire in_face ds (process_outgoing_data name wire f token in_face t)

abbrev pub satisfy : PitEntry → PitEntry
satisfy e = record e { satisfied = true }

module _ (c : Config) where
  -- The nonces of out-records go to the dead nonce list.
  unfoldable pub mark_all_dead : ℕ → Name → List (ℕ × PitOutRecord) → Thread → Thread
  mark_all_dead now name [] t = t
  mark_all_dead now name ((f, r) ∷ rs) t =
      mark_all_dead now name rs (mark_dead c now name r.latest_nonce t)

  -- One PIT entry matches: its strategy sends the Data.
  unfoldable pub satisfy_one : ℕ → IncomingData → ForwardingStrategy → ℕ → Thread → Thread
  satisfy_one now p s id t =
      let t1 = with_pit (update_expiration_timer id now) t in
      let t2 = s.after_receive_data now p.name p.wire id p.incoming_face t1 in
      let t3 = with_pit (update_entry id satisfy) t2 in
      let t4 = mark_all_dead now p.name (out_records_of (find id (t3.pit_cs).entries)) t3 in
      with_pit (update_entry id clear_records) t4

  -- One of several entries; `first` is the first of them, whose out-records are read for each.
  unfoldable pub satisfy_next : ℕ → IncomingData → ForwardingStrategy → ℕ → ℕ → Thread → Thread
  satisfy_next now p s first id t =
      let ds = downstreams p.incoming_face (in_records_of (find id (t.pit_cs).entries)) in
      let t1 = with_pit (update_expiration_timer id now) t in
      let t2 = s.before_satisfy_interest id p.incoming_face t1 in
      let t3 = with_pit (update_entry id satisfy) t2 in
      let t4 = mark_all_dead now p.name (out_records_of (find first (t3.pit_cs).entries)) t3 in
      let t5 = with_pit (update_entry id clear_records) t4 in
      send_downstreams p.name p.wire p.incoming_face ds t5

  unfoldable pub satisfy_each : ℕ → IncomingData → ForwardingStrategy → ℕ → List ℕ → Thread → Thread
  satisfy_each now p s first [] t = t
  satisfy_each now p s first (id ∷ ids) t =
      satisfy_each now p s first ids (satisfy_next now p s first id t)

  unfoldable pub satisfy_all : ℕ → IncomingData → ForwardingStrategy → List ℕ → Thread → Thread
  satisfy_all now p s [] t = t
  satisfy_all now p s (id ∷ []) t = satisfy_one now p s id t
  satisfy_all now p s (id ∷ id' ∷ ids) t = satisfy_each now p s id (id ∷ id' ∷ ids) t

  abbrev pub store_data : ℕ → IncomingData → Thread → Thread
  store_data now p t =
      if c.is_admitting
      then with_pit
          (λ q. record q {
            cs = insert_data c.hash c.name_hash c.cs_capacity now p.name p.freshness p.wire q.cs;
          })
          t
      else t

  abbrev pub incoming_data_on : Option Face → ℕ → IncomingData → Thread → Thread
  incoming_data_on none now p t = t
  incoming_data_on (some face) now p t =
      let t' = count_in_data t in
      let t'' = store_data now p t' in
      if not face.is_local && is_localhost p.name
      then t'
      else satisfy_all now p (c.strategies (find_strategy t.fib p.name))
          (find_by_data c.hash p.name p.token t''.pit_cs) t''

  unfoldable pub process_incoming_data : ℕ → IncomingData → Thread → Thread
  process_incoming_data now p t = incoming_data_on (find p.incoming_face t.faces) now p t

  abbrev pub nack_entry : ℕ → IncomingNack → Option ℕ → Thread → Thread
  nack_entry now p none t = t
  nack_entry now p (some id) t =
      (c.strategies (find_strategy t.fib (p.interest).name)).after_receive_nack now p.interest id
        p.incoming_face p.reason t

  abbrev pub incoming_nack_on : Option Face → ℕ → IncomingNack → Thread → Thread
  incoming_nack_on none now p t = t
  incoming_nack_on (some face) now p t =
      nack_entry now p (find_interest_exact_match c.hash p.interest t.pit_cs) (count_in_nack t)

  -- A token that does not match is given up for a second lookup by the same name, so that the
  -- token never matters.
  unfoldable pub process_incoming_nack : ℕ → IncomingNack → Thread → Thread
  process_incoming_nack now p t = incoming_nack_on (find p.incoming_face t.faces) now p t

  abbrev pub count_unsatisfied : PitEntry → Thread → Thread
  count_unsatisfied e t = if e.satisfied then t else record t {
    counters = record (t.counters) {
      n_unsatisfied_interests = (t.counters).n_unsatisfied_interests + length e.in_records;
    };
  }

  abbrev pub finalize_entry : ℕ → Option PitEntry → Thread → Thread
  finalize_entry now none t = t
  finalize_entry now (some e) t = count_unsatisfied e (mark_all_dead now e.encname e.out_records t)

  unfoldable pub finalize_interest : ℕ → ℕ → Thread → Thread
  finalize_interest now id t = finalize_entry now (find id (t.pit_cs).entries) t

  -- `PitCsTree.Update`, over its expiry queue; the clock is read once.
  unfoldable pub update_from : ℕ → Queue → Thread → Thread
  update_from now [] t = t
  update_from now ((e, id) ∷ q) t =
      let t1 = with_pit (λ p. record p { pit_expiry_queue = q }) t in
      let t2 = with_pit (remove_interest id) (finalize_interest now id t1) in
      let rest = update_from now q t2 in if leb e now then rest else t

  unfoldable pub update : ℕ → Thread → Thread
  update now t = update_from now (t.pit_cs).pit_expiry_queue t

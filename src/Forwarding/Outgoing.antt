-- ===== src/Forwarding/Outgoing.antt =====
-- The outgoing pipelines of the thread, and what strategies send through them.
use mars_icnp.Prelude.{
  ℕ, ◌+◌, ◌%◌, ◌^◌, Bool, true, false, not, ◌&&◌, Option, none, some, List, [], ◌∷◌, ◌++◌, ltb,
  ◌==◌, if◌then◌else◌, length,
}
use mars_icnp.Prelude.Maps.{find}
use mars_icnp.Tables.Tree.{Name}
use mars_icnp.Tables.Pit.{
  PitInRecord, PitEntry, Interest, PitCs, in_records_of, update_entry, insert_out_record,
  remove_in_record,
}
use mars_icnp.Forwarding.{
  Face, interest_packet, data_packet, nack_packet, Token, given_token, own_token, SentPacket,
  Thread, localhost,
}

abbrev pub is_localhost : Name → Bool
is_localhost [] = false
is_localhost (c ∷ cs) = c == localhost

abbrev pub send : SentPacket → Thread → Thread
send p t = record t { log = t.log ++ p ∷ [] }

abbrev pub token_of : Option PitEntry → ℕ
token_of none = 0
token_of (some e) = e.token

abbrev pub is_spent : Option ℕ → Bool
is_spent none = false
is_spent (some h) = h == 0

abbrev pub with_pit : (PitCs → PitCs) → Thread → Thread
with_pit f t = record t { pit_cs = f t.pit_cs }

abbrev pub count_out_interest : Thread → Thread
count_out_interest t = record t {
  counters = record (t.counters) { n_out_interests = (t.counters).n_out_interests + 1 };
}

-- The out-record, the counter and the packet with the thread's own token.
unfoldable pub send_interest_on : ℕ → Interest → ℕ → ℕ → ℕ → Thread → Thread
send_interest_on now i id nexthop in_face t =
    let t' = count_out_interest (with_pit (update_entry id (insert_out_record i nexthop now)) t) in
    send
      (record {
        face = nexthop;
        in_face = in_face;
        pit_token = own_token (t.thread_id % 2 ^ 16) (token_of (find id (t.pit_cs).entries));
        packet = interest_packet i;
      })
      t'

abbrev pub outgoing_interest_on : Option Face → ℕ → Interest → ℕ → ℕ → ℕ → Thread → Bool × Thread
outgoing_interest_on none now i id nexthop in_face t = (false, t)
outgoing_interest_on (some f) now i id nexthop in_face t =
    if (nexthop == in_face) && not f.is_ad_hoc
    then (true, t)
    else if is_spent i.hop_limit && not f.is_local
    then (false, t)
    else (true, send_interest_on now i id nexthop in_face t)

-- `processOutgoingInterest`, and `SendInterest` of a strategy: `id` is the PIT entry.
unfoldable pub process_outgoing_interest : ℕ → Interest → ℕ → ℕ → ℕ → Thread → Bool × Thread
process_outgoing_interest now i id nexthop in_face t =
    outgoing_interest_on (find nexthop t.faces) now i id nexthop in_face t

abbrev pub count_out_data : Thread → Thread
count_out_data t = record t {
  counters = record (t.counters) {
    n_out_data = (t.counters).n_out_data + 1;
    n_satisfied_interests = (t.counters).n_satisfied_interests + 1;
  };
}

abbrev pub outgoing_data_on : Option Face → Name → List ℕ → ℕ → List ℕ → ℕ → Thread → Thread
outgoing_data_on none name wire nexthop token in_face t = t
outgoing_data_on (some f) name wire nexthop token in_face t =
    if not f.is_local && is_localhost name
    then t
    else send
        (record {
          face = nexthop;
          in_face = in_face;
          pit_token = given_token token;
          packet = data_packet name wire;
        })
        (count_out_data t)

unfoldable pub process_outgoing_data : Name → List ℕ → ℕ → List ℕ → ℕ → Thread → Thread
process_outgoing_data name wire nexthop token in_face t =
    outgoing_data_on (find nexthop t.faces) name wire nexthop token in_face t

abbrev pub count_out_nack : Thread → Thread
count_out_nack t = record t {
  counters = record (t.counters) { n_out_nacks = (t.counters).n_out_nacks + 1 };
}

-- The token of the in-record, when it has one.
abbrev pub nack_token : Option PitInRecord → ℕ → ℕ → Token
nack_token none thread token = own_token (thread % 2 ^ 16) token
nack_token (some r) thread token =
    if ltb 0 (length r.pit_token)
    then given_token r.pit_token
    else own_token (thread % 2 ^ 16) token

abbrev pub outgoing_nack_on : Option Face → Interest → ℕ → ℕ → ℕ → ℕ → Thread → Bool × Thread
outgoing_nack_on none i id nexthop in_face reason t = (false, t)
outgoing_nack_on (some f) i id nexthop in_face reason t =
    if not f.is_local && is_localhost i.name then (false, t) else (
      true,
      send
          (record {
            face = nexthop;
            in_face = in_face;
            pit_token =
                nack_token (find nexthop (in_records_of (find id (t.pit_cs).entries))) t.thread_id
                  (token_of (find id (t.pit_cs).entries));
            packet = nack_packet i reason;
          })
          (count_out_nack t),
    )

unfoldable pub process_outgoing_nack : Interest → ℕ → ℕ → ℕ → ℕ → Thread → Bool × Thread
process_outgoing_nack i id nexthop in_face reason t =
    outgoing_nack_on (find nexthop t.faces) i id nexthop in_face reason t

-- `SendData`: the in-record of the face gives the token, and goes.
abbrev pub send_data_with : Option PitInRecord → Name → List ℕ → ℕ → ℕ → ℕ → Thread → Thread
send_data_with none name wire id nexthop in_face t =
    process_outgoing_data name wire nexthop [] in_face t
send_data_with (some r) name wire id nexthop in_face t =
    process_outgoing_data name wire nexthop r.pit_token in_face
      (with_pit (update_entry id (remove_in_record nexthop)) t)

unfoldable pub send_data_packet : Name → List ℕ → ℕ → ℕ → ℕ → Thread → Thread
send_data_packet name wire id nexthop in_face t =
    send_data_with (find nexthop (in_records_of (find id (t.pit_cs).entries))) name wire id nexthop
      in_face t

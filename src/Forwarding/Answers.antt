-- ===== src/Forwarding/Answers.antt =====
-- Data goes to every face that waits for it.
use mars_icnp.Prelude.{
  ℕ, ◌≡◌, refl, sym, ap, subst, ◌∙◌, false, not, ◌&&◌, Option, none, some, List, [], ◌∷◌, ◌++◌,
  if◌then◌else◌, arith,
}
use mars_icnp.Prelude.Maps.{find, put, remove, DistinctKeys, find-put, remove-absent}
use mars_icnp.Tables.Tree.{Name}
use mars_icnp.Tables.Pit.{
  PitInRecord, PitEntry, PitCs, in_records_of, update_entry, with_entry, remove_in_record,
}
use mars_icnp.Forwarding.{Face, SentPacket, given_token, data_packet, Thread}
use mars_icnp.Forwarding.Outgoing.{
  is_localhost, send, with_pit, count_out_data, outgoing_data_on, process_outgoing_data,
  send_data_with, send_data_packet,
}
use mars_icnp.Forwarding.Strategies.{data_to_all, data_to_downstreams}

-- The packets that answer the in-records, in their order, each with its own token.
abbrev pub answers : Name → List ℕ → ℕ → List (ℕ × PitInRecord) → List SentPacket
answers name wire in_face [] = []
answers name wire in_face ((f, r) ∷ rs) =
    record {
      face = f;
      in_face = in_face;
      pit_token = given_token r.pit_token;
      packet = data_packet name wire;
    }
    ∷ answers name wire in_face rs

-- Each record has a face that is there, and that may have the Data.
abbrev pub AllReach : List (ℕ × Face) → Name → List (ℕ × PitInRecord) → Type 0
AllReach faces name [] = Unit {0}
AllReach faces name ((f, r) ∷ rs) =
    ((face : Face) × (find f faces ≡ some face)
      × ((not face.is_local && is_localhost name) ≡ false))
    × AllReach faces name rs

-- The entry waits for the faces of these records.
abbrev pub Waits : ℕ → List (ℕ × PitInRecord) → Thread → Type 0
Waits id rs t = in_records_of (find id (t.pit_cs).entries) ≡ rs

append-nil : (ps : List SentPacket) → ps ++ [] ≡ ps
append-nil [] = refl
append-nil (p ∷ ps) = ap (λ qs. p ∷ qs) (append-nil ps)

append-one :
    (ps : List SentPacket) (p : SentPacket) (qs : List SentPacket)
    → (ps ++ p ∷ []) ++ qs ≡ ps ++ p ∷ qs
append-one [] p qs = refl
append-one (x ∷ ps) p qs = ap (λ rs. x ∷ rs) (append-one ps p qs)

found-first :
    (f : ℕ) (r : PitInRecord) (rs : List (ℕ × PitInRecord)) → find f ((f, r) ∷ rs) ≡ some r
unfolding find
found-first f r rs = ground arith

removed-first :
    (f : ℕ) (r : PitInRecord) (rs : List (ℕ × PitInRecord))
    → find f rs ≡ none
    → remove f ((f, r) ∷ rs) ≡ rs
unfolding remove
removed-first f r rs n = ground (arith, remove-absent f rs n)

put-found : (id : ℕ) (e : PitEntry) (es : List (ℕ × PitEntry)) → find id (put id e es) ≡ some e
put-found id e es = ground (arith, find-put id id e es)

waits-of :
    (id f : ℕ) (r : PitInRecord) (rs : List (ℕ × PitInRecord)) (o : Option PitEntry) (p : PitCs)
    → in_records_of o ≡ (f, r) ∷ rs
    → find f rs ≡ none
    → in_records_of (find id (with_entry id (remove_in_record f) o p).entries) ≡ rs
unfolding remove_in_record
waits-of id f r rs none p w n = ground arith
waits-of id f r rs (some e) p w n =
    ap in_records_of (put-found id (remove_in_record f e) p.entries)
    ∙ ap (remove f) w
    ∙ removed-first f r rs n

-- The thread after the record has gone and the packet has been sent.
abbrev answered : Name → List ℕ → ℕ → ℕ → ℕ → PitInRecord → Thread → Thread
answered name wire id f in_face r t =
    send
      (record {
        face = f;
        in_face = in_face;
        pit_token = given_token r.pit_token;
        packet = data_packet name wire;
      })
      (count_out_data (with_pit (update_entry id (remove_in_record f)) t))

data-sent :
    (name : Name) (wire : List ℕ) (f : ℕ) (token : List ℕ) (in_face : ℕ) (face : Face)
    (o : Option Face) (t : Thread)
    → o ≡ some face
    → (not face.is_local && is_localhost name) ≡ false
    → outgoing_data_on o name wire f token in_face t
      ≡ send
          (record {
            face = f;
            in_face = in_face;
            pit_token = given_token token;
            packet = data_packet name wire;
          })
          (count_out_data t)
data-sent name wire f token in_face face o t h b =
    ap (λ x. outgoing_data_on x name wire f token in_face t) h
    ∙ ap
        (λ c.
          if c
          then t
          else send
              (record {
                face = f;
                in_face = in_face;
                pit_token = given_token token;
                packet = data_packet name wire;
              })
              (count_out_data t))
        b

send_data_packet-answered :
    (name : Name) (wire : List ℕ) (id f in_face : ℕ) (r : PitInRecord) (rs : List (ℕ × PitInRecord))
    (face : Face) (t : Thread)
    → Waits id ((f, r) ∷ rs) t
    → find f t.faces ≡ some face
    → (not face.is_local && is_localhost name) ≡ false
    → send_data_packet name wire id f in_face t ≡ answered name wire id f in_face r t
unfolding send_data_packet process_outgoing_data
send_data_packet-answered name wire id f in_face r rs face t w h b =
    ap (λ o. send_data_with o name wire id f in_face t) (ap (find f) w ∙ found-first f r rs)
    ∙ data-sent name wire f r.pit_token in_face face (find f t.faces)
        (with_pit (update_entry id (remove_in_record f)) t) h b

data_to_all-answers :
    (name : Name) (wire : List ℕ) (id in_face : ℕ) (rs : List (ℕ × PitInRecord)) (t : Thread)
    → DistinctKeys rs
    → Waits id rs t
    → AllReach t.faces name rs
    → ((data_to_all name wire id in_face rs t).log ≡ t.log ++ answers name wire in_face rs)
      × Waits id [] (data_to_all name wire id in_face rs t)
unfolding data_to_all update_entry
data_to_all-answers name wire id in_face [] t d w a = (sym (append-nil t.log), w)
data_to_all-answers name wire id in_face ((f, r) ∷ rs) t d w a =
    let (face, h, b) = a.0 in
    let next : Thread = answered name wire id f in_face r t in
    let e = send_data_packet-answered name wire id f in_face r rs face t w h b in
    let rest =
      data_to_all-answers name wire id in_face rs next (d.1)
        (waits-of id f r rs (find id (t.pit_cs).entries) t.pit_cs w (d.0)) (a.1) in
    subst
      (λ (u : Thread).
        ((data_to_all name wire id in_face rs u).log
          ≡ t.log ++ answers name wire in_face ((f, r) ∷ rs))
        × Waits id [] (data_to_all name wire id in_face rs u))
      (sym e) (rest.0 ∙ append-one t.log _ (answers name wire in_face rs), rest.1)

-- When every face that an entry has a record of is there and may have the Data, best-route and
-- multicast send it to each of them once, in the order of the records and with the token of each
-- record, and the entry waits for nobody any more.
pub data_to_downstreams-answers :
    (now : ℕ) (name : Name) (wire : List ℕ) (id in_face : ℕ) (rs : List (ℕ × PitInRecord))
    (t : Thread)
    → in_records_of (find id (t.pit_cs).entries) ≡ rs
    → DistinctKeys rs
    → AllReach t.faces name rs
    → ((data_to_downstreams now name wire id in_face t).log ≡ t.log ++ answers name wire in_face rs)
      × (in_records_of (find id ((data_to_downstreams now name wire id in_face t).pit_cs).entries)
          ≡ [])
unfolding data_to_downstreams
data_to_downstreams-answers now name wire id in_face rs t w d a =
    let r = data_to_all-answers name wire id in_face rs t d w a in
    subst
      (λ (qs : List (ℕ × PitInRecord)).
        ((data_to_all name wire id in_face qs t).log ≡ t.log ++ answers name wire in_face rs)
        × (in_records_of (find id ((data_to_all name wire id in_face qs t).pit_cs).entries) ≡ []))
      (sym w) r

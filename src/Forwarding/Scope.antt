-- ===== src/Forwarding/Scope.antt =====
-- What a thread sends stays within its scope.
use mars_icnp.Prelude.{
  ℕ, ◌≡◌, sym, ap, ◌∙◌, Bool, true, false, not, ◌&&◌, Option, none, some, List, [], ◌∷◌, ◌++◌, ◌==◌,
  if◌then◌else◌, if_cases, if_either, arith,
}
use mars_icnp.Prelude.Maps.{find}
use mars_icnp.Tables.Tree.{Name}
use mars_icnp.Tables.Strategy.{FibNextHop}
use mars_icnp.Tables.Pit.{PitInRecord, Interest, nonce_of, in_records_of}
use mars_icnp.Forwarding.{
  Face, Packet, interest_packet, data_packet, nack_packet, SentPacket, Thread,
}
use mars_icnp.Forwarding.Outgoing.{
  is_localhost, is_spent, send, send_interest_on, outgoing_interest_on, process_outgoing_interest,
  outgoing_data_on, process_outgoing_data, outgoing_nack_on, process_outgoing_nack, send_data_with,
  send_data_packet,
}
use mars_icnp.Forwarding.Strategies.{
  ForwardingStrategy, data_from_store, data_to_all, data_to_downstreams, nack_to_all,
  nack_to_downstreams, sort_nexthops_by_cost, try_hops, forward_interest_standard,
  forward_interest_strict_least_cost, best_route_interest, ForwardingMode, standard,
  strict_least_cost, best_route, is_suppressed, send_to_hops, multicast_interest, multicast,
  out_records_of, has_record,
}

-- An Interest does not go back to a face that is not ad-hoc, and with a spent hop limit it does
-- not leave the node.
abbrev pub legal_interest : Face → ℕ → ℕ → Interest → Bool
legal_interest f face in_face i =
    (if face == in_face then f.is_ad_hoc else true)
    && (if is_spent i.hop_limit then f.is_local else true)

-- Nothing below `localhost` leaves the node.
abbrev pub legal_name : Face → Name → Bool
legal_name f name = if is_localhost name then f.is_local else true

abbrev pub legal_packet : Face → ℕ → ℕ → Packet → Bool
legal_packet f face in_face (interest_packet i) = legal_interest f face in_face i
legal_packet f face in_face (data_packet name wire) = legal_name f name
legal_packet f face in_face (nack_packet i reason) = legal_name f i.name

abbrev pub legal_on : Option Face → ℕ → ℕ → Packet → Bool
legal_on none face in_face p = false
legal_on (some f) face in_face p = legal_packet f face in_face p

abbrev pub is_legal : List (ℕ × Face) → SentPacket → Bool
is_legal faces p = legal_on (find p.face faces) p.face p.in_face p.packet

abbrev pub AllLegal : List (ℕ × Face) → List SentPacket → Type 0
AllLegal faces [] = Unit {0}
AllLegal faces (p ∷ ps) = (is_legal faces p ≡ true) × AllLegal faces ps

-- A thread with these faces that has sent legal packets only.
abbrev pub IsLegal : List (ℕ × Face) → Thread → Type 0
IsLegal faces t = (t.faces ≡ faces) × AllLegal faces t.log

append-AllLegal :
    (faces : List (ℕ × Face)) (ps : List SentPacket) (p : SentPacket)
    → AllLegal faces ps
    → is_legal faces p ≡ true
    → AllLegal faces (ps ++ p ∷ [])
append-AllLegal faces [] p a l = (l, tt)
append-AllLegal faces (q ∷ ps) p a l = (a.0, append-AllLegal faces ps p (a.1) l)

both-true :
    (same ad_hoc spent local : Bool)
    → (same && not ad_hoc) ≡ false
    → (spent && not local) ≡ false
    → ((if same then ad_hoc else true) && (if spent then local else true)) ≡ true
both-true same ad_hoc spent local a b = ground (arith, a, b)

name-true :
    (local below : Bool) → (not local && below) ≡ false → (if below then local else true) ≡ true
name-true local below a = ground (arith, a)

module _ (faces : List (ℕ × Face)) where
  send-IsLegal :
      (p : SentPacket) (f : Face) (t : Thread)
      → find p.face faces ≡ some f
      → legal_packet f p.face p.in_face p.packet ≡ true
      → IsLegal faces t
      → IsLegal faces (send p t)
  send-IsLegal p f t h e l = (
    l.0,
    append-AllLegal faces t.log p (l.1) (ap (λ o. legal_on o p.face p.in_face p.packet) h ∙ e),
  )

  outgoing_interest_on-IsLegal :
      (o : Option Face) (now : ℕ) (i : Interest) (id nexthop in_face : ℕ) (t : Thread)
      → find nexthop faces ≡ o
      → IsLegal faces t
      → IsLegal faces (outgoing_interest_on o now i id nexthop in_face t).1
  unfolding send_interest_on
  outgoing_interest_on-IsLegal none now i id nexthop in_face t h l = l
  outgoing_interest_on-IsLegal (some f) now i id nexthop in_face t h l =
      if_cases (λ (r : Bool × Thread). IsLegal faces (r.1))
        ((nexthop == in_face) && not f.is_ad_hoc) (λ a. l)
        (λ a.
          if_cases (λ (r : Bool × Thread). IsLegal faces (r.1))
            (is_spent i.hop_limit && not f.is_local) (λ b. l)
            (λ b.
              send-IsLegal _ f t h
                (both-true (nexthop == in_face) f.is_ad_hoc (is_spent i.hop_limit) f.is_local a b)
                l))

  pub interest-IsLegal :
      (now : ℕ) (i : Interest) (id nexthop in_face : ℕ) (t : Thread)
      → IsLegal faces t
      → IsLegal faces (process_outgoing_interest now i id nexthop in_face t).1
  unfolding process_outgoing_interest
  interest-IsLegal now i id nexthop in_face t l =
      outgoing_interest_on-IsLegal (find nexthop t.faces) now i id nexthop in_face t
        (ap (find nexthop) (sym (l.0))) l

  outgoing_data_on-IsLegal :
      (o : Option Face) (name : Name) (wire : List ℕ) (nexthop : ℕ) (token : List ℕ) (in_face : ℕ)
      (t : Thread)
      → find nexthop faces ≡ o
      → IsLegal faces t
      → IsLegal faces (outgoing_data_on o name wire nexthop token in_face t)
  outgoing_data_on-IsLegal none name wire nexthop token in_face t h l = l
  outgoing_data_on-IsLegal (some f) name wire nexthop token in_face t h l =
      if_cases (IsLegal faces) (not f.is_local && is_localhost name) (λ a. l)
        (λ a. send-IsLegal _ f t h (name-true f.is_local (is_localhost name) a) l)

  pub data-IsLegal :
      (name : Name) (wire : List ℕ) (nexthop : ℕ) (token : List ℕ) (in_face : ℕ) (t : Thread)
      → IsLegal faces t
      → IsLegal faces (process_outgoing_data name wire nexthop token in_face t)
  unfolding process_outgoing_data
  data-IsLegal name wire nexthop token in_face t l =
      outgoing_data_on-IsLegal (find nexthop t.faces) name wire nexthop token in_face t
        (ap (find nexthop) (sym (l.0))) l

  outgoing_nack_on-IsLegal :
      (o : Option Face) (i : Interest) (id nexthop in_face reason : ℕ) (t : Thread)
      → find nexthop faces ≡ o
      → IsLegal faces t
      → IsLegal faces (outgoing_nack_on o i id nexthop in_face reason t).1
  outgoing_nack_on-IsLegal none i id nexthop in_face reason t h l = l
  outgoing_nack_on-IsLegal (some f) i id nexthop in_face reason t h l =
      if_cases (λ (r : Bool × Thread). IsLegal faces (r.1)) (not f.is_local && is_localhost i.name)
        (λ a. l) (λ a. send-IsLegal _ f t h (name-true f.is_local (is_localhost i.name) a) l)

  pub nack-IsLegal :
      (i : Interest) (id nexthop in_face reason : ℕ) (t : Thread)
      → IsLegal faces t
      → IsLegal faces (process_outgoing_nack i id nexthop in_face reason t).1
  unfolding process_outgoing_nack
  nack-IsLegal i id nexthop in_face reason t l =
      outgoing_nack_on-IsLegal (find nexthop t.faces) i id nexthop in_face reason t
        (ap (find nexthop) (sym (l.0))) l

  send_data_with-IsLegal :
      (o : Option PitInRecord) (name : Name) (wire : List ℕ) (id nexthop in_face : ℕ) (t : Thread)
      → IsLegal faces t
      → IsLegal faces (send_data_with o name wire id nexthop in_face t)
  send_data_with-IsLegal none name wire id nexthop in_face t l =
      data-IsLegal name wire nexthop [] in_face t l
  send_data_with-IsLegal (some r) name wire id nexthop in_face t l =
      data-IsLegal name wire nexthop r.pit_token in_face _ l

  pub send_data_packet-IsLegal :
      (name : Name) (wire : List ℕ) (id nexthop in_face : ℕ) (t : Thread)
      → IsLegal faces t
      → IsLegal faces (send_data_packet name wire id nexthop in_face t)
  unfolding send_data_packet
  send_data_packet-IsLegal name wire id nexthop in_face t l =
      send_data_with-IsLegal (find nexthop (in_records_of (find id (t.pit_cs).entries))) name wire
        id nexthop in_face t l

  data_to_all-IsLegal :
      (name : Name) (wire : List ℕ) (id in_face : ℕ) (rs : List (ℕ × PitInRecord)) (t : Thread)
      → IsLegal faces t
      → IsLegal faces (data_to_all name wire id in_face rs t)
  unfolding data_to_all
  data_to_all-IsLegal name wire id in_face [] t l = l
  data_to_all-IsLegal name wire id in_face ((f, r) ∷ rs) t l =
      data_to_all-IsLegal name wire id in_face rs (send_data_packet name wire id f in_face t)
        (send_data_packet-IsLegal name wire id f in_face t l)

  nack_to_all-IsLegal :
      (i : Interest) (id in_face reason : ℕ) (rs : List (ℕ × PitInRecord)) (t : Thread)
      → IsLegal faces t
      → IsLegal faces (nack_to_all i id in_face reason rs t)
  unfolding nack_to_all
  nack_to_all-IsLegal i id in_face reason [] t l = l
  nack_to_all-IsLegal i id in_face reason ((f, r) ∷ rs) t l =
      nack_to_all-IsLegal i id in_face reason rs
        (if f == in_face then t else (process_outgoing_nack i id f in_face reason t).1)
        (if_either (IsLegal faces) (f == in_face) l (nack-IsLegal i id f in_face reason t l))

  try_hops-IsLegal :
      (now : ℕ) (i : Interest) (id in_face : ℕ) (first : Bool) (hs : List FibNextHop) (t : Thread)
      → IsLegal faces t
      → IsLegal faces (try_hops now i id in_face first hs t).1
  unfolding try_hops
  try_hops-IsLegal now i id in_face first [] t l = l
  try_hops-IsLegal now i id in_face first (h ∷ hs) t l =
      let s = interest-IsLegal now i id h.nexthop in_face t l in
      let (ok, t') = process_outgoing_interest now i id h.nexthop in_face t in
      if_either (λ (r : Bool × Thread). IsLegal faces (r.1))
        (first && has_record (find h.nexthop (out_records_of (find id (t.pit_cs).entries))))
        {x = try_hops now i id in_face first hs t}
        {y = if ok then (true, t') else try_hops now i id in_face first hs t'}
        (try_hops-IsLegal now i id in_face first hs t l)
        (if_either (λ (r : Bool × Thread). IsLegal faces (r.1)) ok {x = (true, t')}
          {y = try_hops now i id in_face first hs t'} s
          (try_hops-IsLegal now i id in_face first hs
            (process_outgoing_interest now i id h.nexthop in_face t).1 s))

  send_to_hops-IsLegal :
      (now : ℕ) (i : Interest) (id in_face : ℕ) (hs : List FibNextHop) (t : Thread)
      → IsLegal faces t
      → IsLegal faces (send_to_hops now i id in_face hs t)
  unfolding send_to_hops
  send_to_hops-IsLegal now i id in_face [] t l = l
  send_to_hops-IsLegal now i id in_face (h ∷ hs) t l =
      send_to_hops-IsLegal now i id in_face hs
        ((process_outgoing_interest now i id h.nexthop in_face t).1)
        (interest-IsLegal now i id h.nexthop in_face t l)

  strict-IsLegal :
      (now : ℕ) (i : Interest) (id in_face : ℕ) (hs : List FibNextHop) (t : Thread)
      → IsLegal faces t
      → IsLegal faces (forward_interest_strict_least_cost now i id in_face hs t)
  unfolding forward_interest_strict_least_cost
  strict-IsLegal now i id in_face [] t l = l
  strict-IsLegal now i id in_face (h ∷ hs) t l = interest-IsLegal now i id h.nexthop in_face t l

  best_route-IsLegal :
      (mode : ForwardingMode) (now : ℕ) (i : Interest) (id in_face : ℕ) (hs : List FibNextHop)
      (t : Thread)
      → IsLegal faces t
      → IsLegal faces (best_route_interest mode now i id in_face hs t)
  unfolding best_route_interest forward_interest_standard
  best_route-IsLegal standard now i id in_face hs t l =
      let sorted = sort_nexthops_by_cost hs in
      let s = try_hops-IsLegal now i id in_face true sorted t l in
      if_either (IsLegal faces) ((try_hops now i id in_face true sorted t).0) s (
        try_hops-IsLegal now i id in_face false sorted ((try_hops now i id in_face true sorted t).1)
          s)
  best_route-IsLegal strict_least_cost now i id in_face hs t l =
      strict-IsLegal now i id in_face (sort_nexthops_by_cost hs) t l

  multicast-IsLegal :
      (now : ℕ) (i : Interest) (id in_face : ℕ) (hs : List FibNextHop) (t : Thread)
      → IsLegal faces t
      → IsLegal faces (multicast_interest now i id in_face hs t)
  unfolding multicast_interest
  multicast-IsLegal now i id in_face [] t l = l
  multicast-IsLegal now i id in_face (h ∷ hs) t l =
      if_either (IsLegal faces)
        (is_suppressed now (nonce_of i) (out_records_of (find id (t.pit_cs).entries))) l
        (send_to_hops-IsLegal now i id in_face (h ∷ hs) t l)

-- The callbacks of a strategy send legal packets only.
pub record IsScoped (s : ForwardingStrategy) : Type 0 where
  pub hit :
      (faces : List (ℕ × Face)) (now : ℕ) (name : Name) (wire : List ℕ) (id f : ℕ) (t : Thread)
      → IsLegal faces t
      → IsLegal faces (s.after_content_store_hit now name wire id f t)
  pub on_data :
      (faces : List (ℕ × Face)) (now : ℕ) (name : Name) (wire : List ℕ) (id f : ℕ) (t : Thread)
      → IsLegal faces t
      → IsLegal faces (s.after_receive_data now name wire id f t)
  pub on_interest :
      (faces : List (ℕ × Face)) (now : ℕ) (i : Interest) (id f : ℕ) (hs : List FibNextHop)
      (t : Thread)
      → IsLegal faces t
      → IsLegal faces (s.after_receive_interest now i id f hs t)
  pub before :
      (faces : List (ℕ × Face)) (id f : ℕ) (t : Thread)
      → IsLegal faces t
      → IsLegal faces (s.before_satisfy_interest id f t)
  pub on_nack :
      (faces : List (ℕ × Face)) (now : ℕ) (i : Interest) (id f reason : ℕ) (t : Thread)
      → IsLegal faces t
      → IsLegal faces (s.after_receive_nack now i id f reason t)
  pub on_loop :
      (faces : List (ℕ × Face)) (now : ℕ) (i : Interest) (id f : ℕ) (t : Thread)
      → IsLegal faces t
      → IsLegal faces (s.after_receive_looped_interest now i id f t)

pub best_route-IsScoped : (mode : ForwardingMode) → IsScoped (best_route mode)
unfolding data_from_store data_to_downstreams nack_to_downstreams
best_route-IsScoped mode = record {
  hit = λ faces now name wire id f t l. send_data_packet-IsLegal faces name wire id f 0 t l;
  on_data = λ faces now name wire id f t l. data_to_all-IsLegal faces name wire id f _ t l;
  on_interest = λ faces now i id f hs t l. best_route-IsLegal faces mode now i id f hs t l;
  before = λ faces id f t l. l;
  on_nack = λ faces now i id f reason t l. nack_to_all-IsLegal faces i id f reason _ t l;
  on_loop = λ faces now i id f t l. l;
}

pub multicast-IsScoped : IsScoped multicast
unfolding data_from_store data_to_downstreams nack_to_downstreams
multicast-IsScoped = record {
  hit = λ faces now name wire id f t l. send_data_packet-IsLegal faces name wire id f 0 t l;
  on_data = λ faces now name wire id f t l. data_to_all-IsLegal faces name wire id f _ t l;
  on_interest = λ faces now i id f hs t l. multicast-IsLegal faces now i id f hs t l;
  before = λ faces id f t l. l;
  on_nack = λ faces now i id f reason t l. nack_to_all-IsLegal faces i id f reason _ t l;
  on_loop = λ faces now i id f t l. l;
}

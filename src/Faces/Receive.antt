-- ===== src/Faces/Receive.antt =====
-- `handleIncomingFrame` and `reassemble`.
use mars_icnp.Prelude.{
  ℕ, ◌+◌, ◌-◌, ◌*◌, ◌%◌, ◌^◌, Bool, true, not, ◌&&◌, ◌||◌, concat, replicate, Option, none, some,
  List, [], ◌∷◌, leb, ltb, ◌==◌, if◌then◌else◌, length, set, is_empty,
}
use mars_icnp.Faces.{
  LinkServiceOptions, Wire, LpPacket, is_set, L3, l3_interest, l3_data, l3_unknown,
}

-- A buffer is `none` for nil; a fragment that has not arrived is the empty wire.
pub record Slot : Type 0 where
  pub sequence : ℕ
  pub buffer : Option (List Wire)

pub record Ring : Type 0 where
  pub reassembly_index : ℕ
  pub reassembly_buffers : List Slot

abbrev pub empty_slot : Slot
empty_slot = record { sequence = 0; buffer = none }

abbrev pub empty_ring : Ring
empty_ring = record { reassembly_index = 0; reassembly_buffers = replicate 16 empty_slot }

-- The first buffer of the sequence, with its index.
unfoldable pub find_slot : ℕ → ℕ → List Slot → Option (ℕ × Option (List Wire))
find_slot base i [] = none
find_slot base i (s ∷ ss) =
    if s.sequence == base then some (i, s.buffer) else find_slot base (i + 1) ss

unfoldable pub all_received : List Wire → Bool
all_received [] = true
all_received (f ∷ fs) = not (is_empty f) && all_received fs

-- What `reassemble` makes of a fragment; `make` panics for a length it cannot allocate, and a write
-- to a slice for an index that is out of range.
pub data Reassembled : Type 0 where
  make_panic : Reassembled
  index_panic : Reassembled
  pending : Ring → Reassembled
  complete : List Wire → Ring → Reassembled

-- `make(enc.Wire, n)`: a slice element takes 24 bytes of the 2^48 that can be addressed.
abbrev pub can_make : ℕ → Bool
can_make n = leb (n * 24) (2 ^ 48)

abbrev pub set_slot : Ring → ℕ → Slot → Ring
set_slot r i s = record {
  reassembly_index = r.reassembly_index;
  reassembly_buffers = set r.reassembly_buffers i s;
}

-- After the buffer is known: the checks, the write, and the release of a full buffer.
unfoldable pub store_fragment : Ring → ℕ → List Wire → Wire → ℕ → ℕ → ℕ → Reassembled
unfolding all_received
store_fragment r i buf fragment base index count =
    if not (count == length buf)
    then pending r
    else if leb (length buf) index
    then pending r
    else if not (ltb index (length buf))
    then index_panic
    else let buf' = set buf index fragment in
      if all_received buf'
      then complete buf' (set_slot r i (record { sequence = 0; buffer = none }))
      else pending (set_slot r i (record { sequence = base; buffer = some buf' }))

-- The next buffer of the ring.
unfoldable pub next_buffer : Ring → ℕ
next_buffer r = (r.reassembly_index + 1) % length r.reassembly_buffers

unfoldable pub open_buffer : Ring → Wire → ℕ → ℕ → ℕ → Reassembled
unfolding store_fragment next_buffer
open_buffer r fragment base index count =
    if not (can_make count)
    then make_panic
    else store_fragment
        (record {
          reassembly_index = next_buffer r;
          reassembly_buffers =
              set r.reassembly_buffers (next_buffer r)
                (record { sequence = base; buffer = some (replicate count []) });
        })
        (next_buffer r) (replicate count []) fragment base index count

abbrev pub with_found :
    Option (ℕ × Option (List Wire)) → (ℕ → List Wire → Reassembled) → Reassembled → Reassembled
with_found none f r = r
with_found (some (i, none)) f r = r
with_found (some (i, some buf)) f r = f i buf

unfoldable pub reassemble : Ring → Wire → ℕ → ℕ → ℕ → Reassembled
unfolding find_slot store_fragment open_buffer
reassemble r fragment base index count =
    with_found (find_slot base 0 r.reassembly_buffers)
      (λ i buf. store_fragment r i buf fragment base index count)
      (open_buffer r fragment base index count)

abbrev pub get_default : Option ℕ → ℕ → ℕ
get_default none d = d
get_default (some n) d = n

-- `defn.Pkt`.
pub record Pkt : Type 0 where
  pub raw : Wire
  pub incoming_face_id : ℕ
  pub l3 : L3
  pub congestion_mark : Option ℕ
  pub next_hop_face_id : Option ℕ
  pub pit_token : Wire
  pub nack_reason : Option ℕ

-- The queue of the forwarder that takes a packet.
pub data Dispatch : Type 0 where
  nack_queue : Dispatch
  interest_queue : Dispatch
  data_queue : Dispatch

-- A frame, decoded: not NDN, a bare packet, or an LpPacket.
pub data L2 : Type 0 where
  l2_error : L2
  l2_bare : L3 → L2
  l2_lp : LpPacket → L2

-- What handling a frame does: a crash, a drop with the ring it leaves, or a packet dispatched.
pub data Handled : Type 0 where
  panicked : Handled
  dropped : Ring → Handled
  dispatched : Dispatch → Pkt → Ring → Handled

abbrev pub new_pkt : ℕ → Wire → L3 → LinkServiceOptions → LpPacket → Pkt
new_pkt face wire l3 o lp = record {
  raw = wire;
  incoming_face_id = face;
  l3 = l3;
  congestion_mark = lp.congestion_mark;
  next_hop_face_id =
      if o.is_consumer_controlled_forwarding_enabled then lp.next_hop_face_id else none;
  pit_token = lp.pit_token;
  nack_reason = lp.nack;
}

abbrev pub bare_pkt : ℕ → Wire → L3 → Pkt
bare_pkt face wire l3 = record {
  raw = wire;
  incoming_face_id = face;
  l3 = l3;
  congestion_mark = none;
  next_hop_face_id = none;
  pit_token = [];
  nack_reason = none;
}

-- Only a Nack of an Interest is one; `none` is a packet of unknown type.
unfoldable pub queue_for : L3 → Option ℕ → Option Dispatch
queue_for l3_interest reason = some (if is_set reason then nack_queue else interest_queue)
queue_for l3_data reason = some data_queue
queue_for l3_unknown reason = none

unfoldable pub dispatch : Ring → Pkt → Handled
unfolding queue_for
dispatch r p = elim (queue_for p.l3 p.nack_reason) [ none ↦ dropped r | some d ↦ dispatched d p r ]

-- `parse_l3` decodes a network packet, `none` when it fails.
module _ (parse_l3 : Wire → Option L3) where
  unfoldable pub deliver : ℕ → LinkServiceOptions → LpPacket → Wire → Ring → Handled
  unfolding dispatch
  deliver face o lp wire r = elim (parse_l3 wire) [
    | none ↦ dropped r
    | some l3 ↦ dispatch r (new_pkt face wire l3 o lp)
  ]

  unfoldable pub after_reassembly : ℕ → LinkServiceOptions → LpPacket → Reassembled → Handled
  unfolding deliver
  after_reassembly face o lp make_panic = panicked
  after_reassembly face o lp index_panic = panicked
  after_reassembly face o lp (pending r) = dropped r
  after_reassembly face o lp (complete wires r) = deliver face o lp (concat wires) r

  -- The branch of a sequence number `seq`.
  unfoldable pub handle_fragment : ℕ → LinkServiceOptions → LpPacket → ℕ → ℕ → ℕ → Ring → Handled
  unfolding deliver after_reassembly reassemble
  handle_fragment face o lp seq index count r =
      if index == 0 && count == 1
      then deliver face o lp lp.fragment r
      else after_reassembly face o lp
          (reassemble r lp.fragment ((seq + 2 ^ 64 - index) % 2 ^ 64) index count)

  unfoldable pub handle_lp : ℕ → LinkServiceOptions → LpPacket → Ring → Handled
  unfolding deliver handle_fragment
  handle_lp face o lp r =
      if is_empty lp.fragment
      then dropped r
      else if o.is_reassembly_enabled && is_set lp.sequence
      then handle_fragment face o lp (get_default lp.sequence 0) (get_default lp.frag_index 0)
          (get_default lp.frag_count 1) r
      else if is_set lp.frag_count || is_set lp.frag_index
      then dropped r
      else deliver face o lp lp.fragment r

  -- `raw` of a bare packet is the frame itself.
  unfoldable pub handle_incoming_frame : ℕ → LinkServiceOptions → Wire → L2 → Ring → Handled
  unfolding handle_lp dispatch
  handle_incoming_frame face o frame l2_error r = dropped r
  handle_incoming_frame face o frame (l2_bare l3) r = dispatch r (bare_pkt face frame l3)
  handle_incoming_frame face o frame (l2_lp lp) r = handle_lp face o lp r

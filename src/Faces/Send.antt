-- ===== src/Faces/Send.antt =====
-- `sendPacket`: a packet becomes one LpPacket, or fragments of the size that the MTU leaves.
use mars_icnp.Prelude.{
  ℕ, zero, suc, ◌+◌, ◌-◌, ◌*◌, ◌/◌, ◌%◌, ◌^◌, Bool, not, ◌&&◌, Option, none, some, List, [], ◌∷◌,
  ltb, leb, ◌==◌, if◌then◌else◌, length,
}
use mars_icnp.Prelude.Int.{ℤ, pos, negsuc, ltb_ℤ}
use mars_icnp.Faces.{
  LinkServiceOptions, compute_header_overhead, pit_token_overhead, congestion_mark_overhead, Wire,
  LpPacket, is_set,
}

-- `dispatch.OutPkt`; `nack_reason` and the marks are of its packet.
pub record OutPkt : Type 0 where
  pub raw : Wire
  pub pit_token : Wire
  pub in_face : ℕ
  pub congestion_mark : Option ℕ
  pub nack_reason : Option ℕ

-- What stops `sendPacket`: a panic or a fatal error ends the process.
pub data Sent (Frame : Type 0) : Type 0 where
  crashed : Sent Frame
  sent : List Frame → ℕ → Sent Frame

-- `a - b` on Go's int.
unfoldable pub minus : ℕ → ℕ → ℤ
minus a b = if leb b a then pos (a - b) else negsuc (b - a - 1)

unfoldable pub effective_mtu : ℕ → LinkServiceOptions → Wire → Option ℕ → ℤ
effective_mtu mtu o token mark = minus mtu (
    compute_header_overhead o
    + (if ltb 0 (length token) then pit_token_overhead else 0)
    + (if is_set mark then congestion_mark_overhead else 0))

-- `(frameLen + effectiveMtu - 1) / effectiveMtu`, truncated towards 0: `none` is the panic of a
-- division by 0, or that of a slice of negative length.
unfoldable pub frag_count : ℕ → ℤ → Option ℕ
frag_count len (pos zero) = none
frag_count len (pos (suc m)) = some ((len + suc m - 1) / suc m)
frag_count len (negsuc n) =
    if ltb len (n + 2)
    then some ((n + 2 - len) / (n + 1))
    else if (len - (n + 2)) / (n + 1) == 0
    then some 0
    else none

-- `reader.ReadWire(size)`: the bytes read and those left, `none` past the end.
unfoldable pub read_wire : ℕ → Wire → Option (Wire × Wire)
read_wire zero w = some ([], w)
read_wire (suc n) [] = none
read_wire (suc n) (b ∷ w) = elim (read_wire n w) [
  | none ↦ none
  | some (p, rest) ↦ some (b ∷ p, rest)
]

-- The sizes read by the loop over `fragments`; the last fragment takes what is left.
unfoldable pub read_size : ℕ → ℕ → ℕ → ℕ → ℕ
read_size len mtu count i = if i == count - 1 then len - mtu * (count - 1) else mtu

abbrev pub new_fragment : Wire → ℕ → ℕ → ℕ → LpPacket
new_fragment frag seq i count = record {
  fragment = frag;
  sequence = some seq;
  frag_index = some i;
  frag_count = some count;
  pit_token = [];
  incoming_face_id = none;
  next_hop_face_id = none;
  congestion_mark = none;
  nack = none;
}

abbrev pub whole_packet : Wire → LpPacket
whole_packet wire = record {
  fragment = wire;
  sequence = none;
  frag_index = none;
  frag_count = none;
  pit_token = [];
  incoming_face_id = none;
  next_hop_face_id = none;
  congestion_mark = none;
  nack = none;
}

abbrev pub cons_result : LpPacket → Option (List LpPacket × ℕ) → Option (List LpPacket × ℕ)
cons_result p none = none
cons_result p (some (ps, seq)) = some (p ∷ ps, seq)

-- The loop at index `i` with `k` fragments to go; the result has the last sequence number.
unfoldable pub make_fragments : ℕ → ℕ → ℕ → ℕ → ℕ → ℕ → Wire → Option (List LpPacket × ℕ)
make_fragments len mtu count zero i seq w = some ([], seq)
make_fragments len mtu count (suc k) i seq w = elim (read_wire (read_size len mtu count i) w) [
  | none ↦ none
  | some (frag, rest) ↦
      cons_result (new_fragment frag ((seq + 1) % 2 ^ 64) i count)
        (make_fragments len mtu count k (i + 1) ((seq + 1) % 2 ^ 64) rest)
]

-- `none` is a crash, `some none` a drop. With a negative effective MTU at most one fragment is
-- read whole; two are made only of an empty frame, and reading a negative size is fatal.
unfoldable pub fragment_packet :
    LinkServiceOptions → ℤ → ℕ → Wire → Option (Option (List LpPacket × ℕ))
fragment_packet o mtu seq wire =
    if ltb_ℤ mtu (pos (length wire))
    then if not o.is_fragmentation_enabled then some none else elim (frag_count (length wire) mtu) [
      | none ↦ none
      | some count ↦ elim (mtu) [
        | pos m ↦ elim (make_fragments (length wire) m count count 0 seq wire) [
          | none ↦ none
          | some r ↦ some (some r)
        ]
        | negsuc m ↦
            if ltb 1 count
            then none
            else elim (make_fragments (length wire) 0 count count 0 seq wire) [
              | none ↦ none
              | some r ↦ some (some r)
            ]
      ]
    ]
    else some (some (whole_packet wire ∷ [], seq))

-- The header fields of a fragment.
unfoldable pub decorate : LinkServiceOptions → OutPkt → Option ℕ → LpPacket → LpPacket
decorate o out mark p = record {
  fragment = p.fragment;
  sequence = p.sequence;
  frag_index = p.frag_index;
  frag_count = p.frag_count;
  pit_token = if ltb 0 (length (out.pit_token)) then out.pit_token else p.pit_token;
  incoming_face_id =
      if o.is_incoming_face_indication_enabled then some out.in_face else p.incoming_face_id;
  next_hop_face_id = p.next_hop_face_id;
  congestion_mark = if is_set mark then mark else p.congestion_mark;
  nack = if is_set out.nack_reason then out.nack_reason else p.nack;
}

-- `congested` is the result of the congestion check.
unfoldable pub final_mark : Bool → Option ℕ → Option ℕ
final_mark congested (some m) = some m
final_mark congested none = if congested then some 1 else none

module _ {Frame : Type 0} (encode : LpPacket → Option Frame) where
  -- The sending loop ends at the first fragment that cannot be encoded.
  unfoldable pub send_fragments : (LpPacket → LpPacket) → List LpPacket → List Frame
  send_fragments f [] = []
  send_fragments f (p ∷ ps) = elim (encode (f p)) [
    | none ↦ []
    | some frame ↦ frame ∷ send_fragments f ps
  ]

  -- `congested` is the result of the congestion check, `seq` the state's `nextSequence`. A token
  -- that has not 6 bytes is a panic.
  unfoldable pub send_packet : LinkServiceOptions → ℕ → Bool → ℕ → OutPkt → Sent Frame
  send_packet o mtu congested seq out =
      let mark = final_mark congested out.congestion_mark in
      if ltb 0 (length out.pit_token) && not (length out.pit_token == 6)
      then crashed
      else elim (fragment_packet o (effective_mtu mtu o out.pit_token mark) seq out.raw) [
        | none ↦ crashed
        | some none ↦ sent [] seq
        | some (some (ps, last)) ↦ sent (send_fragments (decorate o out mark) ps) last
      ]

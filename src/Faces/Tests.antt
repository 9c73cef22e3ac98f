-- ===== src/Faces/Tests.antt =====
-- The link service on small packets, and each property at one of them.
use mars_icnp.Prelude.{ℕ, ◌≡◌, refl, false, Option, none, some, List, [], ◌∷◌, concat, arith}
use mars_icnp.Prelude.Int.{pos}
use mars_icnp.Prelude.Sets.{mem}
use mars_icnp.Faces.{Wire, default_options, LpPacket, L3, l3_data, compute_header_overhead}
use mars_icnp.Faces.Send.{
  OutPkt, sent, final_mark, minus, effective_mtu, fragment_packet, send_packet, make_fragments,
}
use mars_icnp.Faces.Receive.{empty_ring, l2_lp, data_queue, find_slot, reassemble}
use mars_icnp.Faces.Ring.{held}
use mars_icnp.Faces.RoundTrip.{reassemble_all, reassemble_all-once}
use mars_icnp.Faces.Runs.{receive_all, received_pkt}
use mars_icnp.Faces.EndToEnd.{
  send_packet-received, fragment_packet-sized, FragmentsSized, fragments_of,
}

abbrev encode : LpPacket → Option LpPacket
encode p = some p

abbrev parse_data : Wire → Option L3
parse_data w = some l3_data

abbrev bytes : LpPacket → Wire
bytes p = p.fragment

-- Five bytes over an MTU that leaves two for a fragment.
abbrev five : OutPkt
five = record {
  raw = 1 ∷ 2 ∷ 3 ∷ 4 ∷ 5 ∷ [];
  pit_token = 0 ∷ 1 ∷ 0 ∷ 0 ∷ 0 ∷ 9 ∷ [];
  in_face = 7;
  congestion_mark = none;
  nack_reason = none;
}

program : Unit {0}
unfolding mem final_mark minus compute_header_overhead effective_mtu send_packet receive_all
    reassemble reassemble_all held fragment_packet find_slot make_fragments
program = tt

send_packet-received_example :
    (frames : List LpPacket) × (last : ℕ) × (send_packet encode default_options 36 false 0 five
      ≡ sent frames last)
    × (receive_all l2_lp parse_data bytes 3 default_options frames empty_ring
        ≡ some ((data_queue, received_pkt 3 l3_data five none) ∷ [], held empty_ring 0 none))
unfolding program
send_packet-received_example =
    send_packet-received encode l2_lp bytes parse_data (λ p. p) (λ p. (refl, refl)) default_options
      default_options five none 3 l3_data data_queue refl refl refl empty_ring 36 1 0 false refl
      refl refl refl (omega arith) (omega arith) (omega arith) (refl, refl)

reassemble_all-once_example :
    reassemble_all empty_ring 5 2 ((1, 8 ∷ []) ∷ (1, 8 ∷ []) ∷ (0, 7 ∷ []) ∷ [])
    ≡ some (((7 ∷ []) ∷ (8 ∷ []) ∷ []) ∷ [], held empty_ring 0 none)
unfolding program
reassemble_all-once_example =
    reassemble_all-once empty_ring 5 0 1 (7 ∷ []) ((7 ∷ []) ∷ (8 ∷ []) ∷ [])
      ((1, 8 ∷ []) ∷ (1, 8 ∷ []) ∷ []) (refl, refl) refl
      (omega arith, omega arith, (omega arith, omega arith, tt)) refl (refl, refl, (refl, refl, tt))
      (refl, (refl, tt))

fragment_packet-sized_example :
    (lps : List LpPacket) × (last : ℕ) × (fragment_packet default_options (pos 2) 0 (1 ∷ 2 ∷ 3 ∷ [])
      ≡ some (some (lps, last)))
    × FragmentsSized 2 lps
    × (concat (fragments_of lps) ≡ 1 ∷ 2 ∷ 3 ∷ [])
fragment_packet-sized_example =
    fragment_packet-sized default_options 1 0 (1 ∷ 2 ∷ 3 ∷ []) refl (omega arith) (omega arith)

-- ===== src/Faces.antt =====
-- The NDNLPv2 link service of a face (mars/fw/face/ndnlp-link-service.go): its options, its packets,
-- the header's overhead and the congestion check. The children send and receive.
mod Send
mod Receive
mod Chunks
mod Ring
mod RoundTrip
mod Runs
mod Fragments
mod EndToEnd
mod Refusal
mod Tests
use mars_icnp.Prelude.{
  ℕ, ◌+◌, ◌≡◌, Bool, true, false, not, ◌&&◌, Option, none, some, List, ltb, if◌then◌else◌, length,
}

abbrev pub lp_packet_overhead : ℕ
lp_packet_overhead = 1 + 3 + 1 + 3

abbrev pub pit_token_overhead : ℕ
pit_token_overhead = 1 + 1 + 6

abbrev pub congestion_mark_overhead : ℕ
congestion_mark_overhead = 3 + 1 + 8

pub record LinkServiceOptions : Type 0 where
  pub is_fragmentation_enabled : Bool
  pub is_reassembly_enabled : Bool
  pub is_consumer_controlled_forwarding_enabled : Bool
  pub is_incoming_face_indication_enabled : Bool
  pub is_local_cache_policy_enabled : Bool
  pub is_congestion_marking_enabled : Bool
  pub base_congestion_marking_interval : ℕ
  pub default_congestion_threshold_bytes : ℕ

-- Intervals are in nanoseconds.
abbrev pub default_options : LinkServiceOptions
default_options = record {
  is_fragmentation_enabled = true;
  is_reassembly_enabled = true;
  is_consumer_controlled_forwarding_enabled = false;
  is_incoming_face_indication_enabled = false;
  is_local_cache_policy_enabled = false;
  is_congestion_marking_enabled = false;
  base_congestion_marking_interval = 100000000;
  default_congestion_threshold_bytes = 65536;
}

-- `FaceFlagLocalFields` is 1 and `FaceFlagCongestionMarking` is 4; the two bits are disjoint.
unfoldable pub flags : LinkServiceOptions → ℕ
flags o =
    (if o.is_consumer_controlled_forwarding_enabled then 1 else 0)
    + (if o.is_congestion_marking_enabled then 4 else 0)

unfoldable pub compute_header_overhead : LinkServiceOptions → ℕ
compute_header_overhead o =
    lp_packet_overhead
    + (if o.is_fragmentation_enabled then (1 + 1 + 8) + (1 + 1 + 2) + (1 + 1 + 2) else 0)
    + (if o.is_incoming_face_indication_enabled then 3 + 1 + 8 else 0)

-- The bytes of a packet, its segments joined.
abbrev pub Wire : Type 0
Wire = List ℕ

-- The fields of `defn.FwLpPacket` that the link service reads and writes.
pub record LpPacket : Type 0 where
  pub fragment : Wire
  pub sequence : Option ℕ
  pub frag_index : Option ℕ
  pub frag_count : Option ℕ
  pub pit_token : Wire
  pub incoming_face_id : Option ℕ
  pub next_hop_face_id : Option ℕ
  pub congestion_mark : Option ℕ
  pub nack : Option ℕ

pub data L3 : Type 0 where
  l3_interest : L3
  l3_data : L3
  l3_unknown : L3

abbrev pub is_set : Option ℕ → Bool
is_set none = false
is_set (some n) = true

-- `lastTimeCongestionMarked` and `congestionCheck`.
pub record Marking : Type 0 where
  pub last_time_congestion_marked : ℕ
  pub congestion_check : ℕ

-- `enabled` is the forwarder's setting, `queue_size` what the transport reports at `now`. The
-- counter is approximate and its wrap-around is out of reach.
unfoldable pub check_congestion :
    Bool → LinkServiceOptions → ℕ → ℕ → Wire → Marking → Bool × Marking
check_congestion enabled o now queue_size wire m =
    if not enabled
    then (false, m)
    else if ltb o.default_congestion_threshold_bytes m.congestion_check
    then if ltb (m.last_time_congestion_marked + o.base_congestion_marking_interval) now
        && ltb o.default_congestion_threshold_bytes queue_size
      then (
        true,
        record { last_time_congestion_marked = now; congestion_check = m.congestion_check },
      )
      else (
        false,
        record {
          last_time_congestion_marked = m.last_time_congestion_marked;
          congestion_check = length wire;
        },
      )
    else (
      false,
      record {
        last_time_congestion_marked = m.last_time_congestion_marked;
        congestion_check = m.congestion_check + length wire;
      },
    )

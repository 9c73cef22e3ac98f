-- ===== src/Forwarding.antt =====
-- A forwarding thread (mars/fw/fw/thread.go): its state, its faces and what it sends.
mod Outgoing
mod Strategies
mod Incoming
mod Pipelines
mod Scope
mod Runs
mod Filter
mod Answers
mod Least
mod Tests
use mars_icnp.Prelude.{ℕ, ◌+◌, ◌%◌, ◌^◌, Bool, Option, none, some, List, [], ◌∷◌, ◌++◌}
use mars_icnp.Tables.Tree.{Name}
use mars_icnp.Tables.Strategy.{FibTree}
use mars_icnp.Tables.DeadNonces.{DeadNonceList}
use mars_icnp.Tables.Pit.{Interest, PitCs}

-- A face of the dispatch table: its scope and whether its link is ad-hoc.
pub record Face : Type 0 where
  pub is_local : Bool
  pub is_ad_hoc : Bool

-- A packet handed to `SendPacket` of a face: the face, the ingress, and the PIT token.
pub data Packet : Type 0 where
  interest_packet : Interest → Packet
  data_packet : Name → List ℕ → Packet
  nack_packet : Interest → ℕ → Packet

-- A token is the bytes that came with an Interest, or the thread's own pair.
pub data Token : Type 0 where
  given_token : List ℕ → Token
  own_token : ℕ → ℕ → Token

pub record SentPacket : Type 0 where
  pub face : ℕ
  pub in_face : ℕ
  pub pit_token : Token
  pub packet : Packet

pub record Counters : Type 0 where
  pub n_in_interests : ℕ
  pub n_in_data : ℕ
  pub n_in_nacks : ℕ
  pub n_out_interests : ℕ
  pub n_out_data : ℕ
  pub n_out_nacks : ℕ
  pub n_satisfied_interests : ℕ
  pub n_unsatisfied_interests : ℕ
  pub n_cs_hits : ℕ
  pub n_cs_misses : ℕ

abbrev pub no_counts : Counters
no_counts = record {
  n_in_interests = 0;
  n_in_data = 0;
  n_in_nacks = 0;
  n_out_interests = 0;
  n_out_data = 0;
  n_out_nacks = 0;
  n_satisfied_interests = 0;
  n_unsatisfied_interests = 0;
  n_cs_hits = 0;
  n_cs_misses = 0;
}

-- `log` is what has been sent, in order.
pub record Thread : Type 0 where
  pub thread_id : ℕ
  pub faces : List (ℕ × Face)
  pub fib : FibTree
  pub pit_cs : PitCs
  pub dead_nonce_list : DeadNonceList
  pub counters : Counters
  pub log : List SentPacket

-- The component `localhost` of a name, and `localhop`.
abbrev pub localhost : ℕ
localhost = 1

abbrev pub localhop : ℕ
localhop = 2

-- ===== src/Multipath/Events.antt =====
-- The packets that a prefix under path discovery receives, as one step function.
pub mod Evolution
use mars_icnp.Prelude.{ℕ, Bool, Option, List, [], ◌∷◌}
use mars_icnp.Prelude.Int.{ℤ}
use mars_icnp.Prelude.Text.{Str}
use mars_icnp.Multipath.Hops.{HopSnapshot}
use mars_icnp.Multipath.State.{Strategy, NodeConfig, NackReason}
use mars_icnp.Multipath.Interest.{discovery_interest}
use mars_icnp.Multipath.Feedback.{
  Decoded, handle_path_discovery_nack, handle_transmission_nack, handle_path_discovery_data,
}

pub data PrefixEvent : Type 0 where
  interest : ℕ → Str → Str → ℤ → ℕ → List (Option HopSnapshot) → PrefixEvent
  nack : ℕ → List ℕ → ℕ → NackReason → PrefixEvent
  transmission_nack : List ℕ → ℕ → NackReason → PrefixEvent
  discovery_data : ℕ → List ℕ → ℕ → Decoded → Bool → PrefixEvent

abbrev pub prefix_step : NodeConfig → PrefixEvent → Strategy → Strategy
prefix_step cfg (interest now prefix src idx in_face nexthops) s =
    discovery_interest cfg now prefix src idx in_face nexthops s
prefix_step cfg (nack now in_records in_face reason) s =
    handle_path_discovery_nack cfg now in_records in_face reason s
prefix_step cfg (transmission_nack in_records in_face reason) s =
    handle_transmission_nack in_records in_face reason s
prefix_step cfg (discovery_data now in_records in_face decoded encodes) s =
    handle_path_discovery_data cfg now in_records in_face decoded encodes s

unfoldable pub prefix_run : NodeConfig → List PrefixEvent → Strategy → Strategy
prefix_run cfg [] s = s
prefix_run cfg (e ∷ es) s = prefix_run cfg es (prefix_step cfg e s)

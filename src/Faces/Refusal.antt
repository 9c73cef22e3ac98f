-- ===== src/Faces/Refusal.antt =====
-- When `reassemble` crashes.
use mars_icnp.Prelude.{ℕ, ◌≡◌, ◌≢◌, ◌⊎◌, Bool, true, false, Option, none, some, List, [], ◌∷◌}
use mars_icnp.Faces.{Wire}
use mars_icnp.Faces.Receive.{Slot, Reassembled, make_panic, index_panic, pending, complete}

abbrev pub is_panic : Reassembled → Bool
is_panic make_panic = true
is_panic index_panic = true
is_panic (pending r) = false
is_panic (complete fs r) = false

-- The first slot of the sequence number, if there is one, has no buffer.
abbrev pub NotHeld : ℕ → List Slot → Type 0
NotHeld base [] = Unit {0}
NotHeld base (s ∷ ss) =
    ((s.sequence ≡ base) × (s.buffer ≡ none)) ⊎ ((s.sequence ≢ base) × NotHeld base ss)

abbrev no_buffer : Option (ℕ × Option (List Wire)) → Bool
no_buffer none = true
no_buffer (some (i, none)) = true
no_buffer (some (i, some buf)) = false

-- ===== src/Faces/Ring.antt =====
-- The reassembly ring: a sequence number keeps its buffer until the buffer is full.
use mars_icnp.Prelude.{
  ℕ, zero, suc, ◌+◌, ◌<◌, ◌≡◌, refl, ap, Bool, true, false, Option, none, some, List, [], ◌∷◌, ◌==◌,
  if◌then◌else◌, length, set, get_elem?, replicate, arith,
}
use mars_icnp.Prelude.Sets.{mem}
use mars_icnp.Faces.{Wire}
use mars_icnp.Faces.Chunks.{AllSized}
use mars_icnp.Faces.Receive.{
  Slot, Ring, find_slot, all_received, Reassembled, pending, complete, can_make, store_fragment,
  next_buffer, open_buffer, reassemble,
}

abbrev pub has_sequence : ℕ → List Slot → Bool
has_sequence b [] = false
has_sequence b (s ∷ ss) = if s.sequence == b then true else has_sequence b ss

pub find_slot-none :
    (b i : ℕ) (ss : List Slot) → has_sequence b ss ≡ false → find_slot b i ss ≡ none
unfolding find_slot
find_slot-none b i [] h = refl
find_slot-none b i (s ∷ ss) h = ground (arith, find_slot-none b (i + 1) ss)

pub find_slot-set :
    (b i j : ℕ) (buf : Option (List Wire)) (ss : List Slot)
    → has_sequence b ss ≡ false
    → j < length ss
    → find_slot b i (set ss j (record { sequence = b; buffer = buf })) ≡ some (i + j, buf)
unfolding find_slot
find_slot-set b i j buf [] h l = absurd (omega arith)
find_slot-set b i zero buf (s ∷ ss) h l = ground arith
find_slot-set b i (suc j) buf (s ∷ ss) h l = ground (arith, find_slot-set b (i + 1) j buf ss)

-- The pieces whose index, counted from `k`, is in the list; the others are missing.
unfoldable pub masked : List ℕ → ℕ → List Wire → List Wire
masked got k [] = []
masked got k (p ∷ ps) = (if mem k got then p else []) ∷ masked got (k + 1) ps

pub length-masked : (got : List ℕ) (k : ℕ) (ps : List Wire) → length (masked got k ps) ≡ length ps
unfolding masked
length-masked got k [] = refl
length-masked got k (p ∷ ps) = ap suc (length-masked got (k + 1) ps)

pub masked-nil : (k : ℕ) (ps : List Wire) → masked [] k ps ≡ replicate (length ps) []
unfolding masked mem
masked-nil k [] = refl
masked-nil k (p ∷ ps) = ap (λ x. [] ∷ x) (masked-nil (k + 1) ps)

masked-below :
    (i : ℕ) (got : List ℕ) (k : ℕ) (ps : List Wire)
    → i < k
    → masked (i ∷ got) k ps ≡ masked got k ps
unfolding masked mem
masked-below i got k [] l = refl
masked-below i got k (p ∷ ps) l = ground (arith, masked-below i got (k + 1) ps)

pub set-masked :
    (got : List ℕ) (k j : ℕ) (p : Wire) (ps : List Wire)
    → get_elem? ps j ≡ some p
    → set (masked got k ps) j p ≡ masked ((k + j) ∷ got) k ps
unfolding masked mem
set-masked got k j p [] h = refl
set-masked got k zero p (q ∷ ps) h = ground (arith, masked-below k got (k + 1) ps)
set-masked got k (suc j) p (q ∷ ps) h = ground (arith, set-masked got (k + 1) j p ps)

pub masked-missing :
    (got : List ℕ) (k j : ℕ) (ps : List Wire)
    → j < length ps
    → mem (k + j) got ≡ false
    → all_received (masked got k ps) ≡ false
unfolding masked all_received
masked-missing got k j [] l h = absurd (omega arith)
masked-missing got k zero (p ∷ ps) l h = ground arith
masked-missing got k (suc j) (p ∷ ps) l h = ground (arith, masked-missing got (k + 1) j ps)

-- The indices from `k`, as many as there are pieces, are all in the list.
abbrev pub Covers : List ℕ → ℕ → List Wire → Type 0
Covers got k [] = Unit {0}
Covers got k (p ∷ ps) = (mem k got ≡ true) × Covers got (k + 1) ps

pub masked-full : (got : List ℕ) (k : ℕ) (ps : List Wire) → Covers got k ps → masked got k ps ≡ ps
unfolding masked
masked-full got k [] c = refl
masked-full got k (p ∷ ps) c = ground (arith, masked-full got (k + 1) ps c.1)

pub all_received-sized : (m : ℕ) (ps : List Wire) → AllSized m ps → all_received ps ≡ true
unfolding all_received
all_received-sized m [] a = refl
all_received-sized m ([] ∷ ps) a = absurd (omega arith)
all_received-sized m ((b ∷ p) ∷ ps) a = all_received-sized m ps a.2

set-again : (ss : List Slot) (j : ℕ) (a b : Slot) → set (set ss j a) j b ≡ set ss j b
set-again [] j a b = refl
set-again (s ∷ ss) zero a b = refl
set-again (s ∷ ss) (suc j) a b = ap (λ x. s ∷ x) (set-again ss j a b)

-- The ring with the next buffer in use.
unfoldable pub held : Ring → ℕ → Option (List Wire) → Ring
held r base buf = record {
  reassembly_index = next_buffer r;
  reassembly_buffers =
      set r.reassembly_buffers (next_buffer r) (record { sequence = base; buffer = buf });
}

-- The ring after the fragments with the listed indices.
unfoldable pub holding : Ring → ℕ → List ℕ → List Wire → Ring
holding r base [] ps = r
holding r base (i ∷ got) ps = held r base (some (masked (i ∷ got) 0 ps))

-- The buffer is full, is released and passed on, or it is kept.
unfoldable pub after_store : Ring → ℕ → List ℕ → List Wire → Reassembled
after_store r base got ps =
    if all_received (masked got 0 ps)
    then complete (masked got 0 ps) (held r 0 none)
    else pending (holding r base got ps)

-- A ring with 16 buffers of which none has the sequence number.
abbrev pub Fresh : Ring → ℕ → Type 0
Fresh r base = (length r.reassembly_buffers ≡ 16) × (has_sequence base r.reassembly_buffers ≡ false)

next_buffer-lt : (r : Ring) (base : ℕ) → Fresh r base → next_buffer r < length r.reassembly_buffers
unfolding next_buffer
next_buffer-lt r base f = rw (f.0) omega arith

pub elem-bound : (ps : List Wire) (i : ℕ) (p : Wire) → get_elem? ps i ≡ some p → i < length ps
elem-bound [] i p h = ground arith
elem-bound (q ∷ ps) zero p h = omega arith
elem-bound (q ∷ ps) (suc i) p h = omega (arith, elem-bound ps i p h)

find_slot-held :
    (r : Ring) (base : ℕ) (buf : List Wire)
    → Fresh r base
    → find_slot base 0 (held r base (some buf)).reassembly_buffers ≡ some (next_buffer r, some buf)
unfolding held
find_slot-held r base buf f = ground (
  arith,
  find_slot-set base 0 (next_buffer r) (some buf) r.reassembly_buffers (f.1)
      (next_buffer-lt r base f),
)

store_fragment-held :
    (r : Ring) (base i : ℕ) (got : List ℕ) (p : Wire) (ps : List Wire)
    → get_elem? ps i ≡ some p
    → store_fragment
        (held r base (some (masked got 0 ps)))
        (next_buffer r)
        (masked got 0 ps)
        p
        base
        i
        (length ps)
      ≡ after_store r base (i ∷ got) ps
unfolding store_fragment held after_store holding
store_fragment-held r base i got p ps h = ground (
  arith,
  length-masked got 0 ps,
  set-masked got 0 i p ps h,
  elem-bound ps i p h,
  set-again r.reassembly_buffers (next_buffer r)
      (record { sequence = base; buffer = some (masked got 0 ps) })
      (record { sequence = 0; buffer = none }),
  set-again r.reassembly_buffers (next_buffer r)
      (record { sequence = base; buffer = some (masked got 0 ps) })
      (record { sequence = base; buffer = some (masked (i ∷ got) 0 ps) }),
)

open_buffer-fresh :
    (r : Ring) (base i : ℕ) (p : Wire) (ps : List Wire)
    → can_make (length ps) ≡ true
    → get_elem? ps i ≡ some p
    → open_buffer r p base i (length ps) ≡ after_store r base (i ∷ []) ps
unfolding open_buffer held
open_buffer-fresh r base i p ps c h =
    ground (arith, masked-nil 0 ps, store_fragment-held r base i [] p ps h)

-- One more fragment of the packet.
pub reassemble-step :
    (r : Ring) (base i : ℕ) (got : List ℕ) (p : Wire) (ps : List Wire)
    → Fresh r base
    → can_make (length ps) ≡ true
    → get_elem? ps i ≡ some p
    → reassemble (holding r base got ps) p base i (length ps) ≡ after_store r base (i ∷ got) ps
unfolding reassemble holding
reassemble-step r base i [] p ps f c h =
    ground
      (arith, find_slot-none base 0 r.reassembly_buffers f.1, open_buffer-fresh r base i p ps c h)
reassemble-step r base i (g ∷ got) p ps f c h = ground (
  arith,
  find_slot-held r base (masked (g ∷ got) 0 ps) f,
  store_fragment-held r base i (g ∷ got) p ps h,
)

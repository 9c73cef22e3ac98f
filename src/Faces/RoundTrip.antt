-- ===== src/Faces/RoundTrip.antt =====
-- Fragments of one packet, in any order and repeated, are reassembled into it once.
use mars_icnp.Prelude.{
  ℕ, ◌<◌, ◌≡◌, refl, true, false, Option, none, some, List, [], ◌∷◌, ◌++◌, ◌==◌, length, get_elem?,
  arith,
}
use mars_icnp.Prelude.Sets.{mem}
use mars_icnp.Faces.{Wire}
use mars_icnp.Faces.Chunks.{AllSized}
use mars_icnp.Faces.Receive.{Ring, make_panic, index_panic, pending, complete, can_make, reassemble}
use mars_icnp.Faces.Ring.{
  masked-missing, masked-full, Covers, all_received-sized, held, holding, after_store, Fresh,
  elem-bound, reassemble-step,
}

pub after_store-pending :
    (r : Ring) (base j : ℕ) (got : List ℕ) (ps : List Wire)
    → j < length ps
    → mem j got ≡ false
    → after_store r base got ps ≡ pending (holding r base got ps)
unfolding after_store
after_store-pending r base j got ps l h = ground (arith, masked-missing got 0 j ps)

pub after_store-complete :
    (r : Ring) (base m : ℕ) (got : List ℕ) (ps : List Wire)
    → AllSized m ps
    → Covers got 0 ps
    → after_store r base got ps ≡ complete ps (held r 0 none)
unfolding after_store
after_store-complete r base m got ps a c =
    ground (arith, masked-full got 0 ps c, all_received-sized m ps a)

-- Fragments with their indices arrive one after the other; the packets completed.
unfoldable pub reassemble_all : Ring → ℕ → ℕ → List (ℕ × Wire) → Option (List (List Wire) × Ring)
unfolding reassemble
reassemble_all r base count [] = some ([], r)
reassemble_all r base count ((i, p) ∷ fs) = elim (reassemble r p base i count) [
  | make_panic ↦ none
  | index_panic ↦ none
  | pending r' ↦ reassemble_all r' base count fs
  | complete wires r' ↦ elim (reassemble_all r' base count fs) [
    | none ↦ none
    | some (done, last) ↦ some (wires ∷ done, last)
  ]
]

-- Each arrival is a piece of the packet with its index, and is not of index `j`.
abbrev pub PiecesBut : ℕ → List Wire → List (ℕ × Wire) → Type 0
PiecesBut j ps [] = Unit {0}
PiecesBut j ps ((i, p) ∷ fs) = (get_elem? ps i ≡ some p) × ((j == i) ≡ false) × PiecesBut j ps fs

-- The indices that have arrived.
abbrev pub indices : List ℕ → List (ℕ × Wire) → List ℕ
indices got [] = got
indices got ((i, p) ∷ fs) = indices (i ∷ got) fs

reassemble_all-last :
    (r : Ring) (base j m : ℕ) (q : Wire) (ps : List Wire) (got : List ℕ)
    → Fresh r base
    → can_make (length ps) ≡ true
    → AllSized m ps
    → get_elem? ps j ≡ some q
    → Covers (j ∷ got) 0 ps
    → reassemble_all (holding r base got ps) base (length ps) ((j, q) ∷ [])
      ≡ some (ps ∷ [], held r 0 none)
unfolding reassemble_all
reassemble_all-last r base j m q ps got f c a g h =
    rw
      (
        reassemble-step r base j got q ps f c g,
        reassemble_all,
        after_store-complete r base m (j ∷ got) ps a h,
      )
      refl

reassemble_all-from :
    (r : Ring) (base j m : ℕ) (q : Wire) (ps : List Wire) (got : List ℕ) (fs : List (ℕ × Wire))
    → Fresh r base
    → can_make (length ps) ≡ true
    → AllSized m ps
    → get_elem? ps j ≡ some q
    → mem j got ≡ false
    → PiecesBut j ps fs
    → Covers (j ∷ indices got fs) 0 ps
    → reassemble_all (holding r base got ps) base (length ps) (fs ++ (j, q) ∷ [])
      ≡ some (ps ∷ [], held r 0 none)
unfolding reassemble_all mem
reassemble_all-from r base j m q ps got [] f c a g n b h =
    reassemble_all-last r base j m q ps got f c a g h
reassemble_all-from r base j m q ps got ((i, p) ∷ fs) f c a g n b h =
    let l : j < length ps = elem-bound ps j q g in
    let n' : mem j (i ∷ got) ≡ false = ground arith in
    rw
      (
        reassemble-step r base i got p ps f c (b.0),
        reassemble_all,
        after_store-pending r base j (i ∷ got) ps l n',
      )
      (reassemble_all-from r base j m q ps (i ∷ got) fs f c a g n' (b.2) h)

-- In a ring that does not know the sequence number, the pieces of a packet arrive in any order,
-- each at least once, the piece of index `j` last and once: the packet is completed once.
pub reassemble_all-once :
    (r : Ring) (base j m : ℕ) (q : Wire) (ps : List Wire) (fs : List (ℕ × Wire))
    → Fresh r base
    → can_make (length ps) ≡ true
    → AllSized m ps
    → get_elem? ps j ≡ some q
    → PiecesBut j ps fs
    → Covers (j ∷ indices [] fs) 0 ps
    → reassemble_all r base (length ps) (fs ++ (j, q) ∷ []) ≡ some (ps ∷ [], held r 0 none)
unfolding mem holding
reassemble_all-once r base j m q ps fs f c a g b h =
    reassemble_all-from r base j m q ps [] fs f c a g refl b h

-- ===== src/Faces/Fragments.antt =====
-- How `sendPacket` cuts a packet into fragments.
use mars_icnp.Prelude.{
  ℕ, zero, suc, ◌+◌, ◌-◌, ◌*◌, ◌/◌, ◌%◌, ◌^◌, ◌≤◌, ◌<◌, ◌≡◌, refl, ap, subst, ◌∙◌, true, some, List,
  length, arith,
}
use mars_icnp.Prelude.Int.{pos, ltb_ℤ}
use mars_icnp.Faces.{Wire, LinkServiceOptions, LpPacket}
use mars_icnp.Faces.Chunks.{numbered, pieces, make_fragments-numbered, count-bounds}
use mars_icnp.Faces.Send.{frag_count, make_fragments, fragment_packet}

pub suc_one : (i : ℕ) → suc i ≡ i + 1
suc_one i = omega arith

frag_count-suc : (len m : ℕ) → frag_count len (pos (suc m)) ≡ some ((len + suc m - 1) / suc m)
unfolding frag_count
frag_count-suc len m = refl

fragment-counted :
    (o : LinkServiceOptions) (m count seq : ℕ) (wire : Wire) (ps : List LpPacket) (last : ℕ)
    → o.is_fragmentation_enabled ≡ true
    → suc m < length wire
    → frag_count (length wire) (pos (suc m)) ≡ some count
    → make_fragments (length wire) (suc m) count count 0 seq wire ≡ some (ps, last)
    → fragment_packet o (pos (suc m)) seq wire ≡ some (some (ps, last))
unfolding fragment_packet
fragment-counted o m count seq wire ps last e h c f =
    let long : ltb_ℤ (pos (suc m)) (pos (length wire)) ≡ true = ground arith in
    rw (long, e, c, f, fragment_packet) refl

fragments-all :
    (m k seq : ℕ) (wire : Wire)
    → suc m * k < length wire
    → seq < 2 ^ 64
    → make_fragments (length wire) (suc m) (suc k) (suc k) 0 seq wire
      ≡ some (numbered (suc k) 0 (seq + 1) (pieces (suc m) (suc k) wire), (seq + suc k) % 2 ^ 64)
fragments-all m k seq wire lo l =
    let scaled : length wire + suc m * 0 ≡ length wire = omega arith in
    let count : 0 + suc k ≡ suc k = omega arith in
    subst
      (λ n.
        make_fragments (length wire) (suc m) n (suc k) 0 seq wire
        ≡ some (numbered n 0 (seq + 1) (pieces (suc m) (suc k) wire), (seq + n) % 2 ^ 64))
      count
      (subst
        (λ len.
          make_fragments len (suc m) (0 + suc k) (suc k) 0 seq wire
          ≡ some (
            numbered (0 + suc k) 0 (seq + 1) (pieces (suc m) (suc k) wire),
            (seq + (0 + suc k)) % 2 ^ 64,
          ))
        scaled (make_fragments-numbered (suc m) k 0 seq seq wire lo (omega arith)))

-- Several pieces, and fewer than bytes.
pub count-several :
    (len m k : ℕ)
    → suc m < len
    → suc m * k < len
    → len ≤ suc m * suc k
    → (1 < suc k) × (suc k ≤ len)
count-several len m zero h lo hi = absurd (omega arith)
count-several len m (suc k) h lo hi =
    let e : suc m * suc k ≡ suc k + m * suc k = omega arith in (omega arith, omega arith)

-- A packet above the effective MTU is cut into pieces of that size.
pub fragment_packet-numbered :
    (o : LinkServiceOptions) (m seq : ℕ) (wire : Wire)
    → o.is_fragmentation_enabled ≡ true
    → suc m < length wire
    → seq < 2 ^ 64
    → (k : ℕ) × (suc m * k < length wire)
      × (length wire ≤ suc m * suc k)
      × (fragment_packet o (pos (suc m)) seq wire
          ≡ some (
              some (
                numbered (suc k) 0 (seq + 1) (pieces (suc m) (suc k) wire),
                (seq + suc k) % 2 ^ 64,
              )))
unfolding fragment_packet frag_count
fragment_packet-numbered o m seq wire e h l =
    let (k, hk, lo, hi) = count-bounds (length wire) m h in
    (
      k,
      lo,
      hi,
      fragment-counted o m (suc k) seq wire
          (numbered (suc k) 0 (seq + 1) (pieces (suc m) (suc k) wire)) ((seq + suc k) % 2 ^ 64) e h
          (frag_count-suc (length wire) m ∙ ap some hk) (fragments-all m k seq wire lo l),
    )

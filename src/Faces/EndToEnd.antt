-- ===== src/Faces/EndToEnd.antt =====
-- `sendPacket` followed by `handleIncomingFrame` on each frame.
use mars_icnp.Prelude.{
  ℕ, suc, ◌+◌, ◌%◌, ◌^◌, ◌≤◌, ◌<◌, ◌≡◌, refl, ap, subst, ◌∙◌, Bool, true, false, not, ◌&&◌, Option,
  none, some, List, [], ◌∷◌, ltb, ◌==◌, length, drop, concat, arith,
}
use mars_icnp.Prelude.Int.{ℤ, pos}
use mars_icnp.Prelude.Sets.{mem}
use mars_icnp.Faces.{Wire, LinkServiceOptions, LpPacket, L3}
use mars_icnp.Faces.Chunks.{
  AllSized, numbered, pieces, pieces-length, pieces-concat, pieces-AllSized,
}
use mars_icnp.Faces.Send.{
  OutPkt, sent, decorate, new_fragment, effective_mtu, fragment_packet, final_mark, send_fragments,
  send_packet,
}
use mars_icnp.Faces.Receive.{
  Ring, L2, l2_lp, Dispatch, dropped, dispatched, queue_for, after_reassembly,
  handle_incoming_frame, deliver,
}
use mars_icnp.Faces.Ring.{held, holding, Fresh, elem-bound}
use mars_icnp.Faces.RoundTrip.{after_store-pending, after_store-complete}
use mars_icnp.Faces.Runs.{
  receive_all, received_pkt, Decodes, down, mem-down, down-Covers, drop-elem, drop-bound,
  sized-elem, handle-step, deliver-sent, receive-step, receive-last,
}
use mars_icnp.Faces.Fragments.{suc_one, count-several, fragment_packet-numbered}

-- The fragments have from 1 to `m` bytes.
abbrev pub FragmentsSized : ℕ → List LpPacket → Type 0
FragmentsSized m [] = Unit {0}
FragmentsSized m (p ∷ ps) = (0 < length p.fragment) × (length p.fragment ≤ m) × FragmentsSized m ps

abbrev pub fragments_of : List LpPacket → List Wire
fragments_of [] = []
fragments_of (p ∷ ps) = p.fragment ∷ fragments_of ps

numbered-FragmentsSized :
    (count i s m : ℕ) (ps : List Wire) → AllSized m ps → FragmentsSized m (numbered count i s ps)
unfolding numbered
numbered-FragmentsSized count i s m [] a = tt
numbered-FragmentsSized count i s m (p ∷ ps) a =
    (a.0, a.1, numbered-FragmentsSized count (i + 1) s m ps (a.2))

fragments_of-numbered : (count i s : ℕ) (ps : List Wire) → fragments_of (numbered count i s ps) ≡ ps
unfolding numbered
fragments_of-numbered count i s [] = refl
fragments_of-numbered count i s (p ∷ ps) =
    ap (λ qs. p ∷ qs) (fragments_of-numbered count (i + 1) s ps)

-- With fragmentation enabled and a 64-bit sequence number, a packet longer than a positive effective
-- MTU is cut, without an error of the reader, into fragments that are not empty, that fit, and that
-- joined in order are the packet.
pub fragment_packet-sized :
    (o : LinkServiceOptions) (m seq : ℕ) (wire : Wire)
    → o.is_fragmentation_enabled ≡ true
    → suc m < length wire
    → seq < 2 ^ 64
    → (lps : List LpPacket) × (last : ℕ) × (fragment_packet o (pos (suc m)) seq wire
        ≡ some (some (lps, last)))
      × FragmentsSized (suc m) lps
      × (concat (fragments_of lps) ≡ wire)
fragment_packet-sized o m seq wire e h l =
    let (k, lo, hi, r) = fragment_packet-numbered o m seq wire e h l in
    (
      numbered (suc k) 0 (seq + 1) (pieces (suc m) (suc k) wire),
      (seq + suc k) % 2 ^ 64,
      r,
      numbered-FragmentsSized (suc k) 0 (seq + 1) (suc m) (pieces (suc m) (suc k) wire)
          (pieces-AllSized (suc m) k wire (omega arith) lo hi),
      ap concat (fragments_of-numbered (suc k) 0 (seq + 1) (pieces (suc m) (suc k) wire))
          ∙ pieces-concat (suc m) k wire,
    )

module _ {Frame : Type 0} (encode : LpPacket → Option Frame) (parse_l2 : Frame → L2)
    (bytes : Frame → Wire) (parse_l3 : Wire → Option L3) (frame : LpPacket → Frame)
    (decodes : Decodes encode parse_l2 bytes parse_l3 frame) (o so : LinkServiceOptions)
    (out : OutPkt) (mark : Option ℕ) (face : ℕ) (l3 : L3) (d : Dispatch)
    (reassembles : o.is_reassembly_enabled ≡ true) (parses : parse_l3 out.raw ≡ some l3)
    (queued : queue_for l3 out.nack_reason ≡ some d) where
  send-step :
      (f : LpPacket → LpPacket) (lp : LpPacket) (lps : List LpPacket)
      → send_fragments encode f (lp ∷ lps) ≡ frame (f lp) ∷ send_fragments encode f lps
  unfolding send_fragments
  send-step f lp lps = rw ((decodes (f lp)).0, send_fragments) refl

  -- The fragment of index `i`, as sent.
  abbrev lp_at : ℕ → ℕ → Wire → List Wire → LpPacket
  lp_at s i p ps = decorate so out mark (new_fragment p ((s + i) % 2 ^ 64) i (length ps))

  handle-kept :
      (r : Ring) (s m i : ℕ) (p q : Wire) (rest ps : List Wire)
      → Fresh r (s % 2 ^ 64)
      → AllSized m ps
      → length ps < 2 ^ 32
      → drop i ps ≡ p ∷ q ∷ rest
      → handle_incoming_frame parse_l3 face o
          (bytes (frame (lp_at s i p ps)))
          (l2_lp (lp_at s i p ps))
          (holding r (s % 2 ^ 64) (down i) ps)
        ≡ dropped (holding r (s % 2 ^ 64) (down (suc i)) ps)
  unfolding after_reassembly
  handle-kept r s m i p q rest ps f a u h =
      let here = drop-elem i ps p (q ∷ rest) h in
      let next = drop-elem (suc i) ps q rest (here.1) in
      let b : suc i < length ps = elem-bound ps (suc i) q (next.0) in
      let absent : mem (suc i) (down (suc i)) ≡ false = ground (arith, mem-down (suc i) (suc i)) in
      handle-step parse_l3 face o so out mark (bytes (frame (lp_at s i p ps))) r s i (down i) p ps
        reassembles (sized-elem m i p ps a (here.0)) (omega arith) (omega arith) f (ground arith)
        (here.0)
      ∙ ap (after_reassembly parse_l3 face o (lp_at s i p ps))
          (after_store-pending r (s % 2 ^ 64) (suc i) (down (suc i)) ps b absent)

  handle-completed :
      (r : Ring) (s m i : ℕ) (p : Wire) (ps : List Wire)
      → Fresh r (s % 2 ^ 64)
      → AllSized m ps
      → concat ps ≡ out.raw
      → 1 < length ps
      → length ps < 2 ^ 32
      → drop i ps ≡ p ∷ []
      → handle_incoming_frame parse_l3 face o
          (bytes (frame (lp_at s i p ps)))
          (l2_lp (lp_at s i p ps))
          (holding r (s % 2 ^ 64) (down i) ps)
        ≡ dispatched d (received_pkt face l3 out mark) (held r 0 none)
  unfolding after_reassembly
  handle-completed r s m i p ps f a c n u h =
      let here = drop-elem i ps p [] h in
      let b : i < length ps = elem-bound ps i p (here.0) in
      let covers = down-Covers (suc i) 0 ps (omega (arith, drop-bound (suc i) ps (here.1))) in
      handle-step parse_l3 face o so out mark (bytes (frame (lp_at s i p ps))) r s i (down i) p ps
        reassembles (sized-elem m i p ps a (here.0)) n (omega arith) f (ground arith) (here.0)
      ∙ ap (after_reassembly parse_l3 face o (lp_at s i p ps))
          (after_store-complete r (s % 2 ^ 64) m (down (suc i)) ps a covers)
      ∙ ap (λ w. deliver parse_l3 face o (lp_at s i p ps) w (held r 0 none)) c
      ∙ deliver-sent parse_l3 face o so out mark (held r 0 none) l3 d p ((s + i) % 2 ^ 64) i
          (length ps) parses queued

  send-nil :
      (i s : ℕ) (p : Wire) (ps : List Wire)
      → frame (lp_at s i p ps) ∷ send_fragments encode (decorate so out mark) []
        ≡ frame (lp_at s i p ps) ∷ []
  unfolding send_fragments
  send-nil i s p ps = refl

  receive-from :
      (r : Ring) (s m i : ℕ) (p : Wire) (rest ps : List Wire)
      → Fresh r (s % 2 ^ 64)
      → AllSized m ps
      → concat ps ≡ out.raw
      → 1 < length ps
      → length ps < 2 ^ 32
      → drop i ps ≡ p ∷ rest
      → receive_all parse_l2 parse_l3 bytes face o
          (send_fragments encode (decorate so out mark) (numbered (length ps) i s (p ∷ rest)))
          (holding r (s % 2 ^ 64) (down i) ps)
        ≡ some ((d, received_pkt face l3 out mark) ∷ [], held r 0 none)
  unfolding numbered
  receive-from r s m i p [] ps f a c n u h =
      ap (λ fs. receive_all parse_l2 parse_l3 bytes face o fs (holding r (s % 2 ^ 64) (down i) ps))
        (send-step (decorate so out mark) (new_fragment p ((s + i) % 2 ^ 64) i (length ps)) []
          ∙ send-nil i s p ps)
      ∙ receive-last encode parse_l2 bytes parse_l3 frame face o (lp_at s i p ps)
          (holding r (s % 2 ^ 64) (down i) ps) (held r 0 none) d (received_pkt face l3 out mark)
          ((decodes (lp_at s i p ps)).1) (handle-completed r s m i p ps f a c n u h)
  receive-from r s m i p (q ∷ rest) ps f a c n u h =
      ap (λ fs. receive_all parse_l2 parse_l3 bytes face o fs (holding r (s % 2 ^ 64) (down i) ps))
        (send-step (decorate so out mark) (new_fragment p ((s + i) % 2 ^ 64) i (length ps))
          (numbered (length ps) (i + 1) s (q ∷ rest)))
      ∙ receive-step encode parse_l2 bytes parse_l3 frame face o (lp_at s i p ps)
          (send_fragments encode (decorate so out mark) (numbered (length ps) (i + 1) s (q ∷ rest)))
          (holding r (s % 2 ^ 64) (down i) ps) (holding r (s % 2 ^ 64) (down (suc i)) ps)
          ((decodes (lp_at s i p ps)).1) (handle-kept r s m i p q rest ps f a u h)
      ∙ subst
          (λ k.
            receive_all parse_l2 parse_l3 bytes face o
              (send_fragments encode (decorate so out mark) (numbered (length ps) k s (q ∷ rest)))
              (holding r (s % 2 ^ 64) (down (suc i)) ps)
            ≡ some ((d, received_pkt face l3 out mark) ∷ [], held r 0 none))
          (suc_one i)
          (receive-from r s m (suc i) q rest ps f a c n u ((drop-elem i ps p (q ∷ rest) h).1))

  receive-whole :
      (r : Ring) (s m n : ℕ) (ps : List Wire)
      → Fresh r (s % 2 ^ 64)
      → AllSized m ps
      → concat ps ≡ out.raw
      → length ps ≡ n
      → 1 < n
      → n < 2 ^ 32
      → receive_all parse_l2 parse_l3 bytes face o
          (send_fragments encode (decorate so out mark) (numbered n 0 s ps))
          r
        ≡ some ((d, received_pkt face l3 out mark) ∷ [], held r 0 none)
  unfolding holding
  receive-whole r s m n [] f a c e l u = absurd (omega arith)
  receive-whole r s m n (p ∷ rest) f a c e l u =
      subst
        (λ count.
          receive_all parse_l2 parse_l3 bytes face o
            (send_fragments encode (decorate so out mark) (numbered count 0 s (p ∷ rest))) r
          ≡ some ((d, received_pkt face l3 out mark) ∷ [], held r 0 none))
        e (receive-from r s m 0 p rest (p ∷ rest) f a c (omega arith) (omega arith) refl)

  send-counted :
      (mtu seq : ℕ) (congested : Bool) (z : ℤ) (lps : List LpPacket) (last : ℕ)
      → effective_mtu mtu so out.pit_token (final_mark congested out.congestion_mark) ≡ z
      → (ltb 0 (length out.pit_token) && not (length out.pit_token == 6)) ≡ false
      → fragment_packet so z seq out.raw ≡ some (some (lps, last))
      → send_packet encode so mtu congested seq out
        ≡ sent
            (send_fragments encode (decorate so out (final_mark congested out.congestion_mark)) lps)
            last
  unfolding send_packet
  send-counted mtu seq congested z lps last he ht e = rw (ht, he, e, send_packet) refl

  -- A packet that is an Interest, Data or Nack with a queue, with fewer than 2^32 bytes and more than
  -- a positive effective MTU, sent with fragmentation, a PIT token of no or of 6 bytes and a 64-bit
  -- sequence number, through an encoder that never fails and that the parser of frames inverts:
  -- sending it does not crash, and a receiver with reassembly whose ring has 16 buffers, none of them
  -- of the first sequence number, handles the frames sent into exactly one packet, which has the
  -- bytes, the token, the mark and the Nack of the packet sent.
  pub send_packet-received :
      (r : Ring) (mtu m seq : ℕ) (congested : Bool)
      → final_mark congested out.congestion_mark ≡ mark
      → effective_mtu mtu so out.pit_token mark ≡ pos (suc m)
      → so.is_fragmentation_enabled ≡ true
      → (ltb 0 (length out.pit_token) && not (length out.pit_token == 6)) ≡ false
      → suc m < length out.raw
      → length out.raw < 2 ^ 32
      → seq < 2 ^ 64
      → Fresh r ((seq + 1) % 2 ^ 64)
      → (frames : List Frame) × (last : ℕ) × (send_packet encode so mtu congested seq out
          ≡ sent frames last)
        × (receive_all parse_l2 parse_l3 bytes face o frames r
            ≡ some ((d, received_pkt face l3 out mark) ∷ [], held r 0 none))
  send_packet-received r mtu m seq congested hm he hf ht hl hu hs f =
      let (k, lo, hi, e) = fragment_packet-numbered so m seq out.raw hf hl hs in
      let ps = pieces (suc m) (suc k) out.raw in
      let lps = numbered (suc k) 0 (seq + 1) ps in
      let several = count-several (length out.raw) m k hl lo hi in
      (
        send_fragments encode (decorate so out mark) lps,
        (seq + suc k) % 2 ^ 64,
        subst
            (λ mk.
              send_packet encode so mtu congested seq out
              ≡ sent (send_fragments encode (decorate so out mk) lps) ((seq + suc k) % 2 ^ 64))
            hm
            (send-counted mtu seq congested (pos (suc m)) lps ((seq + suc k) % 2 ^ 64)
              (ap (effective_mtu mtu so out.pit_token) hm ∙ he) ht e),
        receive-whole r (seq + 1) (suc m) (suc k) ps f
            (pieces-AllSized (suc m) k out.raw (omega arith) lo hi)
            (pieces-concat (suc m) k out.raw) (pieces-length (suc m) (suc k) out.raw) (several.0)
            (omega arith),
      )

-- ===== src/Faces/Runs.antt =====
-- A packet sent by one link service and received by another.
use mars_icnp.Prelude.{
  ℕ, zero, suc, ◌+◌, ◌-◌, ◌%◌, ◌^◌, ◌≤◌, ◌<◌, ◌≡◌, refl, ap, ◌∙◌, true, false, Option, none, some,
  List, [], ◌∷◌, ltb, if◌then◌else◌, length, get_elem?, is_empty, drop, arith,
}
use mars_icnp.Prelude.Sets.{mem}
use mars_icnp.Faces.{Wire, LinkServiceOptions, LpPacket, L3, is_set}
use mars_icnp.Faces.Chunks.{AllSized}
use mars_icnp.Faces.Send.{OutPkt, decorate, new_fragment}
use mars_icnp.Faces.Receive.{
  Ring, L2, l2_lp, Dispatch, Pkt, panicked, dropped, dispatched, queue_for, dispatch, can_make,
  new_pkt, deliver, after_reassembly, handle_fragment, handle_lp, handle_incoming_frame,
}
use mars_icnp.Faces.Ring.{Covers, holding, after_store, Fresh, reassemble-step}

-- `down i` is `i - 1`, …, 0: the indices that have arrived before index `i`.
abbrev pub down : ℕ → List ℕ
down zero = []
down (suc i) = i ∷ down i

pub mem-down : (j i : ℕ) → mem j (down i) ≡ ltb j i
unfolding mem
mem-down j zero = ground arith
mem-down j (suc i) = ground (arith, mem-down j i)

pub down-Covers : (i k : ℕ) (ps : List Wire) → k + length ps ≤ i → Covers (down i) k ps
down-Covers i k [] h = tt
down-Covers i k (p ∷ ps) h = (ground (arith, mem-down k i), down-Covers i (k + 1) ps (omega arith))

pub drop-elem :
    (i : ℕ) (ps : List Wire) (p : Wire) (rest : List Wire)
    → drop i ps ≡ p ∷ rest
    → (get_elem? ps i ≡ some p) × (drop (suc i) ps ≡ rest)
drop-elem zero [] p rest h = ground arith
drop-elem (suc i) [] p rest h = ground arith
drop-elem zero (q ∷ ps) p rest h = ground arith
drop-elem (suc i) (q ∷ ps) p rest h = drop-elem i ps p rest h

base_of : (s i : ℕ) → i < 2 ^ 64 → ((s + i) % 2 ^ 64 + 2 ^ 64 - i) % 2 ^ 64 ≡ s % 2 ^ 64
base_of s i h = omega arith

nonempty : (p : Wire) → 0 < length p → is_empty p ≡ false
nonempty [] h = absurd (omega arith)
nonempty (b ∷ p) h = refl

module _ (parse_l3 : Wire → Option L3) where
  pub handle-step :
      (face : ℕ) (o so : LinkServiceOptions) (out : OutPkt) (mark : Option ℕ) (by : Wire) (r : Ring)
      (s i : ℕ) (got : List ℕ) (p : Wire) (ps : List Wire)
      → o.is_reassembly_enabled ≡ true
      → 0 < length p
      → 1 < length ps
      → i < 2 ^ 64
      → Fresh r (s % 2 ^ 64)
      → can_make (length ps) ≡ true
      → get_elem? ps i ≡ some p
      → handle_incoming_frame parse_l3 face o by
          (l2_lp (decorate so out mark (new_fragment p ((s + i) % 2 ^ 64) i (length ps))))
          (holding r (s % 2 ^ 64) got ps)
        ≡ after_reassembly parse_l3 face o
            (decorate so out mark (new_fragment p ((s + i) % 2 ^ 64) i (length ps)))
            (after_store r (s % 2 ^ 64) (i ∷ got) ps)
  unfolding handle_incoming_frame handle_lp handle_fragment decorate
  handle-step face o so out mark by r s i got p ps e n c l f m g =
      ground (arith, nonempty p n, base_of s i l, reassemble-step r (s % 2 ^ 64) i got p ps f m g)

module _ {Frame : Type 0} (parse_l2 : Frame → L2) (parse_l3 : Wire → Option L3) where
  -- The frames handled one after the other: the packets dispatched, and the ring; `none` is a
  -- panic. `frame` is what a bare packet's bytes are.
  unfoldable pub receive_all :
      (Frame → Wire)
      → ℕ
      → LinkServiceOptions
      → List Frame
      → Ring
      → Option (List (Dispatch × Pkt) × Ring)
  unfolding handle_incoming_frame
  receive_all bytes face o [] r = some ([], r)
  receive_all bytes face o (f ∷ fs) r =
      elim (handle_incoming_frame parse_l3 face o (bytes f) (parse_l2 f) r) [
        | panicked ↦ none
        | dropped r' ↦ receive_all bytes face o fs r'
        | dispatched d p r' ↦ elim (receive_all bytes face o fs r') [
          | none ↦ none
          | some (done, last) ↦ some ((d, p) ∷ done, last)
        ]
      ]

pub drop-bound : (i : ℕ) (ps : List Wire) → drop i ps ≡ [] → length ps ≤ i
drop-bound zero [] h = omega arith
drop-bound zero (p ∷ ps) h = ground arith
drop-bound (suc i) [] h = omega arith
drop-bound (suc i) (p ∷ ps) h = omega (arith, drop-bound i ps h)

pub sized-elem :
    (m i : ℕ) (p : Wire) (ps : List Wire) → AllSized m ps → get_elem? ps i ≡ some p → 0 < length p
sized-elem m i p [] a h = ground arith
sized-elem m zero p (q ∷ ps) a h = ground arith
sized-elem m (suc i) p (q ∷ ps) a h = sized-elem m i p ps (a.2) h

-- The packet that the receiver makes of a sent one.
abbrev pub received_pkt : ℕ → L3 → OutPkt → Option ℕ → Pkt
received_pkt face l3 out mark = record {
  raw = out.raw;
  incoming_face_id = face;
  l3 = l3;
  congestion_mark = mark;
  next_hop_face_id = none;
  pit_token = out.pit_token;
  nack_reason = out.nack_reason;
}

keep_set : (m : Option ℕ) → (if is_set m then m else none) ≡ m
keep_set none = refl
keep_set (some n) = refl

keep_token : (t : Wire) → (if ltb 0 (length t) then t else []) ≡ t
keep_token [] = refl
keep_token (b ∷ t) = ground arith

new_pkt-sent :
    (face : ℕ) (o so : LinkServiceOptions) (out : OutPkt) (mark : Option ℕ) (l3 : L3) (p : Wire)
    (s i n : ℕ)
    → new_pkt face out.raw l3 o (decorate so out mark (new_fragment p s i n))
      ≡ received_pkt face l3 out mark
unfolding decorate
new_pkt-sent face o so out mark l3 p s i n =
    rw (keep_set mark, keep_set out.nack_reason, keep_token out.pit_token) (ground arith)

dispatch-queued :
    (r : Ring) (p : Pkt) (d : Dispatch)
    → queue_for p.l3 p.nack_reason ≡ some d
    → dispatch r p ≡ dispatched d p r
unfolding dispatch
dispatch-queued r p d q = rw (q, dispatch) refl

module _ (parse_l3 : Wire → Option L3) where
  pub deliver-sent :
      (face : ℕ) (o so : LinkServiceOptions) (out : OutPkt) (mark : Option ℕ) (r : Ring) (l3 : L3)
      (d : Dispatch) (p : Wire) (s i n : ℕ)
      → parse_l3 out.raw ≡ some l3
      → queue_for l3 out.nack_reason ≡ some d
      → deliver parse_l3 face o (decorate so out mark (new_fragment p s i n)) out.raw r
        ≡ dispatched d (received_pkt face l3 out mark) r
  unfolding deliver
  deliver-sent face o so out mark r l3 d p s i n h q =
      rw (h, deliver)
        (ap (dispatch r) (new_pkt-sent face o so out mark l3 p s i n)
          ∙ dispatch-queued r (received_pkt face l3 out mark) d q)

module _ {Frame : Type 0} (encode : LpPacket → Option Frame) (parse_l2 : Frame → L2)
    (bytes : Frame → Wire) (parse_l3 : Wire → Option L3) where
  -- What a parser of frames owes to the encoder.
  abbrev pub Decodes : (LpPacket → Frame) → Type 0
  Decodes frame = (lp : LpPacket) → (encode lp ≡ some (frame lp)) × (parse_l2 (frame lp) ≡ l2_lp lp)

  pub receive-step :
      (frame : LpPacket → Frame) (face : ℕ) (o : LinkServiceOptions) (lp : LpPacket)
      (fs : List Frame) (r r' : Ring)
      → parse_l2 (frame lp) ≡ l2_lp lp
      → handle_incoming_frame parse_l3 face o (bytes (frame lp)) (l2_lp lp) r ≡ dropped r'
      → receive_all parse_l2 parse_l3 bytes face o (frame lp ∷ fs) r
        ≡ receive_all parse_l2 parse_l3 bytes face o fs r'
  unfolding receive_all
  receive-step frame face o lp fs r r' h k = rw (h, receive_all, k) refl

  pub receive-last :
      (frame : LpPacket → Frame) (face : ℕ) (o : LinkServiceOptions) (lp : LpPacket) (r r' : Ring)
      (d : Dispatch) (p : Pkt)
      → parse_l2 (frame lp) ≡ l2_lp lp
      → handle_incoming_frame parse_l3 face o (bytes (frame lp)) (l2_lp lp) r ≡ dispatched d p r'
      → receive_all parse_l2 parse_l3 bytes face o (frame lp ∷ []) r ≡ some ((d, p) ∷ [], r')
  unfolding receive_all
  receive-last frame face o lp r r' d p h k = rw (h, receive_all, k) refl

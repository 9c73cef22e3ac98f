-- ===== src/Faces/Chunks.antt =====
-- The fragments of a packet: their sizes, and that reading them never fails.
use mars_icnp.Prelude.{
  ℕ, zero, suc, ◌+◌, ◌-◌, ◌*◌, ◌/◌, ◌%◌, ◌^◌, ◌≤◌, ◌<◌, ◌≡◌, refl, sym, ap, ap₂, subst, ◌∙◌, some,
  List, [], ◌∷◌, ◌++◌, length, take, drop, take-drop, length-take, length-drop, concat, arith,
}
use native.Mathlib.Omega.{div_fact, mod_fact}
use mars_icnp.Faces.{Wire, LpPacket}
use mars_icnp.Faces.Send.{read_wire, read_size, new_fragment, cons_result, make_fragments}

pub read_wire-take : (n : ℕ) (w : Wire) → n ≤ length w → read_wire n w ≡ some (take n w, drop n w)
unfolding read_wire
read_wire-take zero w h = refl
read_wire-take (suc n) [] h = absurd (omega arith)
read_wire-take (suc n) (b ∷ w) h = rw (read_wire-take n w (omega arith))

-- A wire cut after every `m` bytes into `k` pieces.
unfoldable pub pieces : ℕ → ℕ → Wire → List Wire
pieces m zero w = []
pieces m (suc zero) w = w ∷ []
pieces m (suc (suc k)) w = take m w ∷ pieces m (suc k) (drop m w)

pub pieces-length : (m k : ℕ) (w : Wire) → length (pieces m k w) ≡ k
unfolding pieces
pieces-length m zero w = refl
pieces-length m (suc zero) w = refl
pieces-length m (suc (suc k)) w = ap suc (pieces-length m (suc k) (drop m w))

append_nil : (w : Wire) → w ++ [] ≡ w
append_nil [] = refl
append_nil (b ∷ w) = ap (λ v. b ∷ v) (append_nil w)

take-all : (w : Wire) → take (length w) w ≡ w
take-all [] = refl
take-all (b ∷ w) = ap (λ v. b ∷ v) (take-all w)

drop-all : (w : Wire) → drop (length w) w ≡ []
drop-all [] = refl
drop-all (b ∷ w) = drop-all w

pub pieces-concat : (m k : ℕ) (w : Wire) → concat (pieces m (suc k) w) ≡ w
unfolding pieces
pieces-concat m zero w = append_nil w
pieces-concat m (suc k) w = ap (λ v. take m w ++ v) (pieces-concat m k (drop m w)) ∙ take-drop m w

-- The fragments from index `i`, where `base` is the first one's sequence number.
unfoldable pub numbered : ℕ → ℕ → ℕ → List Wire → List LpPacket
numbered count i base [] = []
numbered count i base (p ∷ ps) =
    new_fragment p ((base + i) % 2 ^ 64) i count ∷ numbered count (i + 1) base ps

scaled_pred : (m i : ℕ) → m * (i + 1 - 1) ≡ m * i
scaled_pred m i = let h : i + 1 - 1 ≡ i = omega arith in ap (λ x. m * x) h

read_size-last : (l m i : ℕ) → read_size (l + m * i) m (i + 1) i ≡ l
unfolding read_size
read_size-last l m i = ground (arith, scaled_pred m i)

read_size-before : (len m i k : ℕ) → read_size len m (i + suc (suc k)) i ≡ m
unfolding read_size
read_size-before len m i k = ground arith

next_seq : (s i : ℕ) → ((s + i) % 2 ^ 64 + 1) % 2 ^ 64 ≡ (s + 1 + i) % 2 ^ 64
next_seq s i = omega arith

suc_seq : (s i : ℕ) → s + 1 + i ≡ s + (i + 1)
suc_seq s i = omega arith

suc_index : (i k : ℕ) → i + suc (suc k) ≡ i + 1 + suc k
suc_index i k = omega arith

scaled_suc : (m i : ℕ) → m * (i + 1) ≡ m + m * i
scaled_suc m i = omega arith

rest_length :
    (m i : ℕ) (w : Wire) → m ≤ length w → length w + m * i ≡ length (drop m w) + m * (i + 1)
rest_length m i w h = omega (arith, scaled_suc m i, length-drop m w h)

make_fragments-step :
    (len m count k i seq : ℕ) (w f rest : Wire)
    → read_wire (read_size len m count i) w ≡ some (f, rest)
    → make_fragments len m count (suc k) i seq w
      ≡ cons_result
          (new_fragment f ((seq + 1) % 2 ^ 64) i count)
          (make_fragments len m count k (i + 1) ((seq + 1) % 2 ^ 64) rest)
unfolding make_fragments
make_fragments-step len m count k i seq w f rest h = rw (h, make_fragments) refl

read-last :
    (m i : ℕ) (w : Wire) → read_wire (read_size (length w + m * i) m (i + 1) i) w ≡ some (w, [])
read-last m i w =
    rw
      (
        read_size-last (length w) m i,
        read_wire-take (length w) w (omega arith),
        take-all w,
        drop-all w,
      )
      refl

read-before :
    (len m i k : ℕ) (w : Wire)
    → m ≤ length w
    → read_wire (read_size len m (i + suc (suc k)) i) w ≡ some (take m w, drop m w)
read-before len m i k w h = rw (read_size-before len m i k, read_wire-take m w h) refl

pub make_fragments-numbered :
    (m k i s seq : ℕ) (w : Wire)
    → m * k < length w
    → seq ≡ (s + i) % 2 ^ 64
    → make_fragments (length w + m * i) m (i + suc k) (suc k) i seq w
      ≡ some (numbered (i + suc k) i (s + 1) (pieces m (suc k) w), (s + (i + suc k)) % 2 ^ 64)
unfolding numbered pieces make_fragments
make_fragments-numbered m zero i s seq w h e =
    let h1 : (seq + 1) % 2 ^ 64 ≡ (s + 1 + i) % 2 ^ 64 = omega arith in
    let h2 : (seq + 1) % 2 ^ 64 ≡ (s + (i + 1)) % 2 ^ 64 = omega arith in
    make_fragments-step (length w + m * i) m (i + 1) 0 i seq w w [] (read-last m i w)
    ∙ ap₂ (λ a b. some (new_fragment w a i (i + 1) ∷ [], b)) h1 h2
make_fragments-numbered m (suc k) i s seq w h e =
    let hm : m ≤ length w = omega (arith, scaled_suc m k) in
    let h1 : (seq + 1) % 2 ^ 64 ≡ (s + 1 + i) % 2 ^ 64 = omega arith in
    let h2 : (seq + 1) % 2 ^ 64 ≡ (s + (i + 1)) % 2 ^ 64 = omega arith in
    let hd : m * k < length (drop m w) = omega (arith, scaled_suc m k, length-drop m w hm) in
    let rest = make_fragments-numbered m k (i + 1) s ((seq + 1) % 2 ^ 64) (drop m w) hd h2 in
    make_fragments-step (length w + m * i) m (i + suc (suc k)) (suc k) i seq w (take m w) (drop m w)
      (read-before (length w + m * i) m i k w hm)
    ∙ ap₂ (λ a r. cons_result (new_fragment (take m w) a i (i + suc (suc k))) r) h1
        (subst
          (λ c.
            make_fragments (length w + m * i) m c (suc k) (i + 1) ((seq + 1) % 2 ^ 64) (drop m w)
            ≡ some (numbered c (i + 1) (s + 1) (pieces m (suc k) (drop m w)), (s + c) % 2 ^ 64))
          (sym (suc_index i k))
          (subst
            (λ l.
              make_fragments l m (i + 1 + suc k) (suc k) (i + 1) ((seq + 1) % 2 ^ 64) (drop m w)
              ≡ some (
                numbered (i + 1 + suc k) (i + 1) (s + 1) (pieces m (suc k) (drop m w)),
                (s + (i + 1 + suc k)) % 2 ^ 64,
              ))
            (sym (rest_length m i w hm)) rest))

bounds_of :
    (len m q r : ℕ)
    → suc m < len
    → suc m * q + r ≡ len + suc m - 1
    → r < suc m
    → (k : ℕ) × (q ≡ suc k) × (suc m * k < len) × (len ≤ suc m * suc k)
bounds_of len m zero r h e l = absurd (omega arith)
bounds_of len m (suc k) r h e l =
    (k, refl, omega (arith, scaled_suc (suc m) k), omega (arith, scaled_suc (suc m) k))

-- The number of fragments, for a positive size `m + 1` and a wire that is longer.
pub count-bounds :
    (len m : ℕ)
    → suc m < len
    → (k : ℕ) × ((len + suc m - 1) / suc m ≡ suc k) × (suc m * k < len) × (len ≤ suc m * suc k)
count-bounds len m h =
    bounds_of len m ((len + suc m - 1) / suc m) ((len + suc m - 1) % suc m) h
      (div_fact (len + suc m - 1) m) (mod_fact (len + suc m - 1) m)

-- Each piece has a size from 1 to `m`.
abbrev pub AllSized : ℕ → List Wire → Type 0
AllSized m [] = Unit {0}
AllSized m (p ∷ ps) = (0 < length p) × (length p ≤ m) × AllSized m ps

pub pieces-AllSized :
    (m k : ℕ) (w : Wire)
    → 0 < m
    → m * k < length w
    → length w ≤ m * suc k
    → AllSized m (pieces m (suc k) w)
unfolding pieces
pieces-AllSized m zero w p l u = (omega arith, omega arith, tt)
pieces-AllSized m (suc k) w p l u =
    let hm : m ≤ length w = omega (arith, scaled_suc m k) in
    let e : length (take m w) ≡ m = length-take m w hm in
    (
      omega arith,
      omega arith,
      pieces-AllSized m k (drop m w) p (omega (arith, scaled_suc m k, length-drop m w hm))
          (omega (arith, scaled_suc m (suc k), length-drop m w hm)),
    )

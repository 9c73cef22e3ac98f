-- ===== src/Multipath/Interest/RoundRobin.antt =====
-- Where the probes go.
use mars_icnp.Prelude.{
  ℕ, suc, ◌+◌, ◌%◌, ◌<◌, ◌≡◌, refl, sym, ap, ◌∙◌, false, List, [], ◌∷◌, length, is_empty, arith,
}
use native.Mathlib.Nat.{mod-add-mod, mod-lt, mod-eq_of_lt, add-zero}
use mars_icnp.Multipath.State.{PathDiscoveryInfo, Strategy}
use mars_icnp.Multipath.Interest.{scheduler_index, after_probe, forward_probe}

-- `forward_probe` for each of some ingress faces.
unfoldable pub forward_probes : List ℕ → Strategy → Strategy
forward_probes [] s = s
forward_probes (f ∷ fs) s = forward_probes fs (forward_probe f s)

not_empty : (xs : List ℕ) → 0 < length xs → is_empty xs ≡ false
not_empty [] h = absurd (omega arith)
not_empty (x ∷ xs) h = refl

forward_probe-info :
    (in_face : ℕ) (s : Strategy)
    → is_empty s.info.probed_upstreams ≡ false
    → s.info.is_pd_frozen ≡ false
    → (forward_probe in_face s).info ≡ record s.info {
      probed_scheduler_index = (scheduler_index s.info + 1) % length s.info.probed_upstreams;
    }
unfolding forward_probe after_probe
forward_probe-info in_face s h t = ground arith

scheduler_index-eq :
    (i : PathDiscoveryInfo)
    → i.probed_scheduler_index < length i.probed_upstreams
    → scheduler_index i ≡ i.probed_scheduler_index
scheduler_index-eq i h = ground arith

step_mod : (i n k : ℕ) → ((i + 1) % n + k) % n ≡ (i + suc k) % n
step_mod i n k = mod-add-mod (i + 1) n k ∙ ap (λ (t : ℕ). t % n) (omega arith)

-- Without a freeze, from an index in range, as many Interests in a row as the list has advance
-- the index by that number, modulo the number of probed faces, and keep the probed faces: the
-- faces are probed in turn and none is left out.
pub forward_probes-index :
    (fs : List ℕ) (s : Strategy)
    → s.info.is_pd_frozen ≡ false
    → s.info.probed_scheduler_index < length s.info.probed_upstreams
    → let j = (forward_probes fs s).info in
      let n = length s.info.probed_upstreams in
      (j.probed_scheduler_index ≡ (s.info.probed_scheduler_index + length fs) % n)
      × (j.probed_upstreams ≡ s.info.probed_upstreams)
unfolding forward_probes
forward_probes-index [] s t h = (rw add-zero (sym (mod-eq_of_lt h)), refl)
forward_probes-index (f ∷ fs) s t h =
    let n = length s.info.probed_upstreams in
    let some_left = not_empty s.info.probed_upstreams (omega arith) in
    let e = forward_probe-info f s some_left t in
    let index_below = mod-lt (scheduler_index s.info + 1) {m = n} (omega arith) in
    let (index, faces) = forward_probes-index fs (forward_probe f s) (rw e t) (rw e index_below) in
    (index ∙ rw (e, scheduler_index-eq s.info h) (step_mod _ n (length fs)), faces ∙ rw e)

-- ===== src/Forwarding/Filter.antt =====
-- The Interests that go no further.
use mars_icnp.Prelude.{
  ℕ, sym, ◌∙◌, ◌+◌, ◌%◌, ◌^◌, ◌≡◌, refl, ap, ◌⊎◌, inl, inr, Bool, true, false, not, ◌&&◌, ◌||◌,
  Option, none, some, ◌∷◌, if◌then◌else◌, arith,
}
use mars_icnp.Prelude.Maps.{find}
use mars_icnp.Tables.DeadNonces.{find_nonce, nonce_hash}
use mars_icnp.Tables.Pit.{nonce_of, value_or}
use mars_icnp.Prelude.Sets.{mem}
use mars_icnp.Tables.Tree.{Name}
use mars_icnp.Forwarding.{Face, Thread, localhost}
use mars_icnp.Forwarding.Outgoing.{is_localhost}
use mars_icnp.Forwarding.Incoming.{
  IncomingInterest, Config, count_in_interest, admit_interest, incoming_interest_on,
  process_incoming_interest, is_zero_limit, has_nonce,
}

refused-of :
    (z s n d : Bool) (t u x : Thread)
    → (z || s || not n || d) ≡ true
    → ((if z then t else if s then t else if n then (if d then u else x) else u) ≡ t)
      ⊎ ((if z then t else if s then t else if n then (if d then u else x) else u) ≡ u)
refused-of true s n d t u x h = inl refl
refused-of false true n d t u x h = inl refl
refused-of false false false d t u x h = inr refl
refused-of false false true true t u x h = inr refl
refused-of false false true false t u x h = ground arith

-- The tests of `processIncomingInterest`.
unfoldable is_refused : Config → Option Face → IncomingInterest → Thread → Bool
is_refused c none p t = true
is_refused c (some face) p t =
    is_zero_limit c (p.interest).hop_limit
    || (not face.is_local && is_localhost (p.interest).name)
    || not (has_nonce c (p.interest).nonce)
    || find_nonce (c.name_hash (p.interest).name) (nonce_of p.interest) t.dead_nonce_list

refused-on :
    (c : Config) (o : Option Face) (now : ℕ) (p : IncomingInterest) (t : Thread)
    → is_refused c o p t ≡ true
    → (incoming_interest_on c o now p t ≡ t)
      ⊎ (incoming_interest_on c o now p t ≡ count_in_interest t)
unfolding is_refused admit_interest
refused-on c none now p t h = inl refl
refused-on c (some face) now p t h =
    refused-of (is_zero_limit c (p.interest).hop_limit)
      (not face.is_local && is_localhost (p.interest).name) (has_nonce c (p.interest).nonce)
      (find_nonce (c.name_hash (p.interest).name) (nonce_of p.interest) t.dead_nonce_list) t
      (count_in_interest t) _ h

-- The Interest comes from a face that is not there, has a hop limit of 0, is of `localhost` and from
-- outside the node, has no nonce, or has a nonce whose sum with the hash of the name is in the dead
-- nonce list.
abbrev pub IsRefused : Config → IncomingInterest → Thread → Type 0
IsRefused c p t =
    (find p.incoming_face t.faces ≡ none)
    ⊎ ((p.interest).hop_limit ≡ some 0)
    ⊎ ((face : Face) × (rest : Name) × (find p.incoming_face t.faces ≡ some face)
        × (face.is_local ≡ false)
        × ((p.interest).name ≡ localhost ∷ rest))
    ⊎ ((p.interest).nonce ≡ none)
    ⊎ ((n : ℕ) × ((p.interest).nonce ≡ some n)
        × (mem ((c.name_hash (p.interest).name + n) % 2 ^ 64) (t.dead_nonce_list).list ≡ true))

second_true : (a b : Bool) → b ≡ true → (a || b) ≡ true
second_true true b h = refl
second_true false b h = h

first_true : (a b : Bool) → a ≡ true → (a || b) ≡ true
first_true true b h = refl
first_true false b h = ground arith

IsRefused-tests :
    (c : Config) (p : IncomingInterest) (t : Thread) (o : Option Face)
    → find p.incoming_face t.faces ≡ o
    → IsRefused c p t
    → is_refused c o p t ≡ true
unfolding is_refused find_nonce nonce_hash
IsRefused-tests c p t none e h = refl
IsRefused-tests c p t (some face) e (inl h) = ground (arith, e, h)
IsRefused-tests c p t (some face) e (inr (inl h)) =
    let z = is_zero_limit c (p.interest).hop_limit in
    let s = not face.is_local && is_localhost (p.interest).name in
    let n0 = not (has_nonce c (p.interest).nonce) in
    let d = find_nonce (c.name_hash (p.interest).name) (nonce_of p.interest) t.dead_nonce_list in
    first_true (z || s || n0) d (first_true (z || s) n0 (first_true z s (ap (is_zero_limit c) h)))
IsRefused-tests c p t (some face) e (inr (inr (inl (g, rest, o, l, n)))) =
    let z = is_zero_limit c (p.interest).hop_limit in
    let s = not face.is_local && is_localhost (p.interest).name in
    let n0 = not (has_nonce c (p.interest).nonce) in
    let d = find_nonce (c.name_hash (p.interest).name) (nonce_of p.interest) t.dead_nonce_list in
    let l' : face.is_local ≡ false =
      ap (λ (o : Option Face). elim o [ none ↦ face.is_local | some x ↦ x.is_local ]) (sym e ∙ o)
      ∙ l in
    first_true (z || s || n0) d (
      first_true (z || s) n0 (
        second_true z s (ap (λ b. not b && is_localhost (p.interest).name) l' ∙ ap is_localhost n)))
IsRefused-tests c p t (some face) e (inr (inr (inr (inl h)))) =
    let z = is_zero_limit c (p.interest).hop_limit in
    let s = not face.is_local && is_localhost (p.interest).name in
    let n0 = not (has_nonce c (p.interest).nonce) in
    let d = find_nonce (c.name_hash (p.interest).name) (nonce_of p.interest) t.dead_nonce_list in
    first_true (z || s || n0) d (second_true (z || s) n0 (ap (λ o. not (has_nonce c o)) h))
IsRefused-tests c p t (some face) e (inr (inr (inr (inr (n, h, m))))) =
    let z = is_zero_limit c (p.interest).hop_limit in
    let s = not face.is_local && is_localhost (p.interest).name in
    let n0 = not (has_nonce c (p.interest).nonce) in
    let d = find_nonce (c.name_hash (p.interest).name) (nonce_of p.interest) t.dead_nonce_list in
    second_true (z || s || n0) d (
      ap
        (λ o.
          mem ((c.name_hash (p.interest).name + value_or o 0) % 2 ^ 64) (t.dead_nonce_list).list)
        h
      ∙ m)

-- An Interest from a face that is not there, with a hop limit of 0, of `localhost` from outside the
-- node, without a nonce, or with a name and nonce whose hash is in the dead nonce list changes
-- nothing but a counter: nothing is sent, and no PIT entry is made.
pub refused-dropped :
    (c : Config) (now : ℕ) (p : IncomingInterest) (t : Thread)
    → IsRefused c p t
    → (process_incoming_interest c now p t ≡ t)
      ⊎ (process_incoming_interest c now p t ≡ count_in_interest t)
unfolding process_incoming_interest
refused-dropped c now p t h =
    refused-on c (find p.incoming_face t.faces) now p t
      (IsRefused-tests c p t (find p.incoming_face t.faces) refl h)

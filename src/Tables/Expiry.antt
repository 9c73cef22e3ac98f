-- ===== src/Tables/Expiry.antt =====
-- The dead nonce list holds the hashes of its queue, and loses exactly those that have expired.
use mars_icnp.Prelude.{
  ℕ, zero, suc, ◌+◌, ◌≤◌, ◌<◌, ◌≡◌, refl, subst, ◌⊎◌, inl, inr, true, false, List, [], ◌∷◌, ltb,
  ◌==◌, if◌then◌else◌, length, if_cases, if_either, Bool-cases, ltb→lt, arith,
}
use mars_icnp.Prelude.Sets.{mem, insert, delete, Distinct, mem-insert, mem-delete}
use mars_icnp.Tables.DeadNonces.{
  nonce_hash, Queue, push, DeadNonceList, new_dead_nonce_list, insert_nonce, evict, evict_expired,
  remove_expired_entries,
}

abbrev pub hashes : Queue → List ℕ
hashes [] = []
hashes ((p, h) ∷ es) = h ∷ hashes es

-- No priority is below the bound, and they ascend.
abbrev pub Ascends : ℕ → Queue → Type 0
Ascends b [] = Unit {0}
Ascends b ((p, h) ∷ es) = (b ≤ p) × Ascends p es

-- The map has the hashes of the queue, each of them once, and the queue is in order.
pub record Tracks (list : List ℕ) (es : Queue) : Type 0 where
  pub same : (x : ℕ) → mem x list ≡ mem x (hashes es)
  pub once : Distinct (hashes es)
  pub ascends : Ascends 0 es

abbrev pub IsTracked : DeadNonceList → Type 0
IsTracked d = Tracks d.list d.expiration_queue

push-mem :
    (x p h : ℕ) (es : Queue)
    → mem x (hashes (push p h es)) ≡ (if h == x then true else mem x (hashes es))
unfolding push mem
push-mem x p h [] = ground arith
push-mem x p h ((q, g) ∷ es) = ground (arith, push-mem x p h es)

push-Distinct :
    (p h : ℕ) (es : Queue)
    → mem h (hashes es) ≡ false
    → Distinct (hashes es)
    → Distinct (hashes (push p h es))
unfolding push mem
push-Distinct p h [] n d = ground arith
push-Distinct p h ((q, g) ∷ es) n d = ground (arith, push-mem g p h es, push-Distinct p h es)

push-Ascends : (b p h : ℕ) (es : Queue) → b ≤ p → Ascends b es → Ascends b (push p h es)
unfolding push
push-Ascends b p h [] l a = ground arith
push-Ascends b p h ((q, g) ∷ es) l a = ground (arith, push-Ascends q p h es)

evicted-same :
    (x h p : ℕ) (list : List ℕ) (es : Queue)
    → mem x list ≡ mem x (h ∷ hashes es)
    → mem h (hashes es) ≡ false
    → mem x (delete h list) ≡ mem x (hashes es)
unfolding mem
evicted-same x h p list es s n = ground (arith, mem-delete x h list)

insert-Tracks :
    (p h : ℕ) (list : List ℕ) (es : Queue)
    → mem h list ≡ false
    → Tracks list es
    → Tracks (insert h list) (push p h es)
insert-Tracks p h list es n t = record {
  same = λ x. ground (arith, mem-insert x h list, push-mem x p h es, t.same x);
  once = push-Distinct p h es (ground (arith, t.same h)) (t.once);
  ascends = push-Ascends 0 p h es (omega arith) (t.ascends);
}

pub insert-IsTracked :
    (lifetime now name nonce : ℕ) (d : DeadNonceList)
    → IsTracked d
    → IsTracked ((insert_nonce lifetime now name nonce d).1)
unfolding insert_nonce
insert-IsTracked lifetime now name nonce d t =
    let h = nonce_hash name nonce in
    elim (Bool-cases (mem h d.list)) [
      | inl b ↦ rw (b, insert_nonce) t
      | inr b ↦
          rw (b, insert_nonce) (insert-Tracks (now + lifetime) h d.list d.expiration_queue b t)
    ]

Ascends-below : (a b : ℕ) (es : Queue) → a ≤ b → Ascends b es → Ascends a es
Ascends-below a b [] l h = tt
Ascends-below a b ((p, x) ∷ es) l h = (omega arith, h.1)

evict-Tracks :
    (p h : ℕ) (list : List ℕ) (es : Queue) → Tracks list ((p, h) ∷ es) → Tracks (delete h list) es
evict-Tracks p h list es t = record {
  same = λ x. evicted-same x h p list es (t.same x) ((t.once).0);
  once = (t.once).1;
  ascends = Ascends-below 0 p es (omega arith) ((t.ascends).1);
}

evict_expired-Tracks :
    (k now : ℕ) (es : Queue) (d : DeadNonceList)
    → es ≡ d.expiration_queue
    → Tracks d.list es
    → IsTracked (evict_expired k now es d)
unfolding evict_expired
evict_expired-Tracks zero now es d e t = subst (λ q. Tracks d.list q) e t
evict_expired-Tracks (suc k) now [] d e t = subst (λ q. Tracks d.list q) e t
evict_expired-Tracks (suc k) now ((p, h) ∷ es) d e t =
    if_either IsTracked (ltb p now)
      (evict_expired-Tracks k now es (evict h es d) refl (evict-Tracks p h d.list es t))
      (subst (λ q. Tracks d.list q) e t)

pub remove-IsTracked :
    (now : ℕ) (d : DeadNonceList) → IsTracked d → IsTracked (remove_expired_entries now d)
unfolding remove_expired_entries
remove-IsTracked now d t = evict_expired-Tracks 100 now d.expiration_queue d refl t

-- The hashes whose time has not passed.
unfoldable pub live : ℕ → Queue → List ℕ
live now [] = []
live now ((p, h) ∷ es) = if ltb p now then live now es else h ∷ live now es

live-all : (now b : ℕ) (es : Queue) → now ≤ b → Ascends b es → live now es ≡ hashes es
unfolding live
live-all now b [] l a = refl
live-all now b ((p, h) ∷ es) l a = ground (arith, live-all now p es)

evict_expired-live :
    (k now x : ℕ) (es : Queue) (d : DeadNonceList)
    → length es ≤ k
    → Tracks d.list es
    → mem x (evict_expired k now es d).list ≡ mem x (live now es)
unfolding evict_expired live
evict_expired-live zero now x [] d l t = t.same x
evict_expired-live zero now x (e ∷ es) d l t = absurd (omega arith)
evict_expired-live (suc k) now x [] d l t = t.same x
evict_expired-live (suc k) now x ((p, h) ∷ es) d l t = ground (
  arith,
  evict_expired-live k now x es (evict h es d) (omega arith) (evict-Tracks p h d.list es t),
  t.same x,
  live-all now p es,
  t.ascends,
)

live-mem : (now x : ℕ) (es : Queue) → mem x (live now es) ≡ true → mem x (hashes es) ≡ true
unfolding live mem
live-mem now x [] m = m
live-mem now x ((p, h) ∷ es) m = ground (arith, live-mem now x es)

evict_expired-keeps :
    (k now x : ℕ) (es : Queue) (d : DeadNonceList)
    → Tracks d.list es
    → mem x (live now es) ≡ true
    → mem x (evict_expired k now es d).list ≡ true
unfolding evict_expired live
evict_expired-keeps zero now x es d t m = ground (arith, t.same x, live-mem now x es m)
evict_expired-keeps (suc k) now x [] d t m = ground (arith, t.same x)
evict_expired-keeps (suc k) now x ((p, h) ∷ es) d t m =
    if_cases (λ (r : DeadNonceList). mem x r.list ≡ true) (ltb p now)
      (λ b.
        evict_expired-keeps k now x es (evict h es d) (evict-Tracks p h d.list es t)
          (ground (arith, m)))
      (λ b. ground (arith, t.same x, live-mem now x ((p, h) ∷ es)))

-- The calls of the forwarding thread, with the time of each.
pub data NonceCall : Type 0 where
  insert_call : ℕ → ℕ → ℕ → NonceCall
  expire_call : ℕ → NonceCall

unfoldable pub nonce_run : ℕ → List NonceCall → DeadNonceList → DeadNonceList
nonce_run lifetime [] d = d
nonce_run lifetime (insert_call now name nonce ∷ cs) d =
    nonce_run lifetime cs (insert_nonce lifetime now name nonce d).1
nonce_run lifetime (expire_call now ∷ cs) d = nonce_run lifetime cs (remove_expired_entries now d)

run-IsTracked :
    (lifetime : ℕ) (cs : List NonceCall) (d : DeadNonceList)
    → IsTracked d
    → IsTracked (nonce_run lifetime cs d)
unfolding nonce_run
run-IsTracked lifetime [] d t = t
run-IsTracked lifetime (insert_call now name nonce ∷ cs) d t =
    run-IsTracked lifetime cs ((insert_nonce lifetime now name nonce d).1)
      (insert-IsTracked lifetime now name nonce d t)
run-IsTracked lifetime (expire_call now ∷ cs) d t =
    run-IsTracked lifetime cs (remove_expired_entries now d) (remove-IsTracked now d t)

new-IsTracked : IsTracked new_dead_nonce_list
unfolding mem
new-IsTracked = record { same = λ x. refl; once = tt; ascends = tt }

-- Whatever calls were made on a new list: a hash whose time has not passed is still there after
-- the expired entries are removed; and if the queue has at most 100 entries, the hashes that are
-- there are exactly those whose time has not passed.
pub expiry-exact :
    (lifetime now x : ℕ) (cs : List NonceCall)
    → (d : DeadNonceList) → nonce_run lifetime cs new_dead_nonce_list ≡ d
    → ((mem x (live now d.expiration_queue) ≡ false)
        ⊎ (mem x (remove_expired_entries now d).list ≡ true))
      × ((100 < length d.expiration_queue)
          ⊎ (mem x (remove_expired_entries now d).list ≡ mem x (live now d.expiration_queue)))
unfolding remove_expired_entries
expiry-exact lifetime now x cs d e =
    let t : IsTracked d =
      subst IsTracked e (run-IsTracked lifetime cs new_dead_nonce_list new-IsTracked) in
    (
      elim (Bool-cases (mem x (live now d.expiration_queue))) [
        | inl b ↦ inr (evict_expired-keeps 100 now x d.expiration_queue d t b)
        | inr b ↦ inl b
      ],
      elim (Bool-cases (ltb 100 (length d.expiration_queue))) [
        | inl b ↦ inl (ltb→lt 100 (length d.expiration_queue) b)
        | inr b ↦ inr (evict_expired-live 100 now x d.expiration_queue d (ground (arith, b)) t)
      ],
    )

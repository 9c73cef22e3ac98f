-- ===== src/Tables/DeadNonces.antt =====
-- The dead nonce list (mars/fw/table/dead-nonce-list.go).
use mars_icnp.Prelude.{
  ℕ, zero, suc, ◌+◌, ◌%◌, ◌^◌, Bool, true, false, List, [], ◌∷◌, ltb, if◌then◌else◌,
}
use mars_icnp.Prelude.Sets.{mem, insert, delete}

-- The hash of a name is a number below 2^64.
unfoldable pub nonce_hash : ℕ → ℕ → ℕ
nonce_hash name_hash nonce = (name_hash + nonce) % 2 ^ 64

-- The queue in the order in which `Pop` gives it: of the entries `(priority, hash)` the one of
-- least priority first. The heap of the library leaves the order of equal ones open; here the older
-- one is first.
abbrev pub Queue : Type 0
Queue = List (ℕ × ℕ)

unfoldable pub push : ℕ → ℕ → Queue → Queue
push p h [] = (p, h) ∷ []
push p h ((q, g) ∷ es) = if ltb p q then (p, h) ∷ (q, g) ∷ es else (q, g) ∷ push p h es

pub record DeadNonceList : Type 0 where
  pub list : List ℕ
  pub expiration_queue : Queue

abbrev pub new_dead_nonce_list : DeadNonceList
new_dead_nonce_list = record { list = []; expiration_queue = [] }

unfoldable pub find_nonce : ℕ → ℕ → DeadNonceList → Bool
find_nonce name_hash nonce d = mem (nonce_hash name_hash nonce) d.list

-- Whether the nonce was there already, and the list after; times are in nanoseconds.
unfoldable pub insert_nonce : ℕ → ℕ → ℕ → ℕ → DeadNonceList → Bool × DeadNonceList
insert_nonce lifetime now name_hash nonce d =
    let hash = nonce_hash name_hash nonce in
    if mem hash d.list then (true, d) else (
      false,
      record {
        list = insert hash d.list;
        expiration_queue = push (now + lifetime) hash d.expiration_queue;
      },
    )

abbrev pub evict : ℕ → Queue → DeadNonceList → DeadNonceList
evict hash es d = record { list = delete hash d.list; expiration_queue = es }

-- At most `k` evictions.
unfoldable pub evict_expired : ℕ → ℕ → Queue → DeadNonceList → DeadNonceList
evict_expired zero now es d = d
evict_expired (suc k) now [] d = d
evict_expired (suc k) now ((p, h) ∷ es) d =
    let rest = evict_expired k now es (evict h es d) in if ltb p now then rest else d

-- The clock is read once for all iterations.
unfoldable pub remove_expired_entries : ℕ → DeadNonceList → DeadNonceList
remove_expired_entries now d = evict_expired 100 now d.expiration_queue d

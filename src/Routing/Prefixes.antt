-- ===== src/Routing/Prefixes.antt =====
-- The prefix table, mars/dv/table/prefix_table.go: the prefixes that this router announces, the
-- operations that it publishes, and those of other routers as their operations are applied. The
-- encoding of a name, which is a key of maps only, is a number. Costs are 64-bit.

pub mod Replica
use mars_icnp.Prelude.{
  ℕ, ◌-◌, ◌^◌, Bool, true, false, not, ◌||◌, Option, none, some, List, [], ◌∷◌, ◌++◌, ltb, ◌==◌,
  is_empty, if◌then◌else◌,
}
use mars_icnp.Prelude.Maps.{find, put, remove}
use mars_icnp.Routing.Fib.{cost_pfx_infinity}

pub record PrefixNextHop : Type 0 where
  pub face : ℕ
  pub cost : ℕ

pub record PrefixEntry (N : Type 0) : Type 0 where
  pub name : N
  pub cost : ℕ
  pub next_hops : List PrefixNextHop

-- `PrefixOpList`, without the name of the router that it is of.
pub record PrefixOps (N : Type 0) : Type 0 where
  pub reset : Bool
  pub adds : List (N × ℕ)
  pub removes : List N

-- The prefixes of one router, by key.
abbrev pub Prefixes : Type 0 → Type 0
Prefixes N = List (ℕ × PrefixEntry N)

-- The loop of `computeCost`.
unfoldable pub least_hop_cost : List PrefixNextHop → ℕ → ℕ
least_hop_cost [] c = c
least_hop_cost (h ∷ hs) c = least_hop_cost hs (if ltb h.cost c then h.cost else c)

abbrev pub max_cost : ℕ
max_cost = 2 ^ 64 - 1

-- The loop of `Announce`, and the append if no hop has the face.
unfoldable pub update_hop : PrefixNextHop → List PrefixNextHop → List PrefixNextHop
update_hop n [] = n ∷ []
update_hop n (h ∷ hs) = if h.face == n.face then n ∷ hs else h ∷ update_hop n hs

-- The loop of `Withdraw`.
unfoldable pub delete_hop : ℕ → List PrefixNextHop → List PrefixNextHop
delete_hop f [] = []
delete_hop f (h ∷ hs) = if h.face == f then hs else h ∷ delete_hop f hs

module _ {N : Type 0} where
  unfoldable pub compute_cost : PrefixEntry N → Bool × PrefixEntry N
  unfolding least_hop_cost
  compute_cost e =
      let cost = least_hop_cost e.next_hops max_cost in
      if cost == e.cost then (false, e) else (true, record e { cost = cost })

  abbrev pub found_or_infinite : N → Option (PrefixEntry N) → PrefixEntry N
  found_or_infinite name none = record { name = name; cost = cost_pfx_infinity; next_hops = [] }
  found_or_infinite name (some e) = e

module _ {N : Type 0} (tlv_str : N → ℕ) where
  -- What is published for an entry that the table holds under the key, and the table.
  unfoldable pub publish_entry : ℕ → PrefixEntry N → Prefixes N → PrefixOps N × Prefixes N
  unfolding remove
  publish_entry key e me =
      if ltb e.cost cost_pfx_infinity
      then (record { reset = false; adds = (e.name, e.cost) ∷ []; removes = [] }, me)
      else (record { reset = false; adds = []; removes = e.name ∷ [] }, remove key me)

  -- An entry whose hops changed: the table holds it, and it is published if its cost changed.
  unfoldable pub store_entry : ℕ → PrefixEntry N → Prefixes N → List (PrefixOps N) × Prefixes N
  unfolding put compute_cost publish_entry
  store_entry key e me =
      let (dirty, d) = compute_cost e in
      let me' = put key d me in
      let (ops, me'') = publish_entry key d me' in if dirty then (ops ∷ [], me'') else ([], me')

  unfoldable pub announce : N → ℕ → ℕ → Prefixes N → List (PrefixOps N) × Prefixes N
  unfolding find update_hop store_entry
  announce name face cost me =
      let e = found_or_infinite name (find (tlv_str name) me) in
      let hop : PrefixNextHop = record { face = face; cost = cost } in
      store_entry (tlv_str name) (record e { next_hops = update_hop hop e.next_hops }) me

  unfoldable pub withdraw : N → ℕ → Prefixes N → List (PrefixOps N) × Prefixes N
  unfolding find delete_hop store_entry
  withdraw name face me = elim (find (tlv_str name) me) [
    | none ↦ ([], me)
    | some e ↦ store_entry (tlv_str name) (record e { next_hops = delete_hop face e.next_hops }) me
  ]

  unfoldable pub reset_table : Prefixes N → List (PrefixOps N) × Prefixes N
  reset_table me = (record { reset = true; adds = []; removes = [] } ∷ [], [])

  unfoldable pub apply_adds : List (N × ℕ) → Prefixes N → Prefixes N
  unfolding put
  apply_adds [] ps = ps
  apply_adds ((name, cost) ∷ adds) ps =
      apply_adds adds (put (tlv_str name) (record { name = name; cost = cost; next_hops = [] }) ps)

  unfoldable pub apply_removes : List N → Prefixes N → Prefixes N
  unfolding remove
  apply_removes [] ps = ps
  apply_removes (name ∷ names) ps = apply_removes names (remove (tlv_str name) ps)

  -- `Apply` on the prefixes of the router that the operations are of, once they are decoded.
  unfoldable pub apply_ops : PrefixOps N → Prefixes N → Bool × Prefixes N
  unfolding apply_adds apply_removes
  apply_ops ops ps = (
    ops.reset || (not (is_empty ops.adds) || not (is_empty ops.removes)),
    apply_removes ops.removes (apply_adds ops.adds (if ops.reset then [] else ps)),
  )

  -- The adds of a snapshot.
  unfoldable pub snap_adds : Prefixes N → List (N × ℕ)
  snap_adds [] = []
  snap_adds ((key, e) ∷ me) = (e.name, e.cost) ∷ snap_adds me

  unfoldable pub snap : Prefixes N → PrefixOps N
  unfolding snap_adds
  snap me = record { reset = true; adds = snap_adds me; removes = [] }

-- ===== src/Routing/Fib.antt =====
-- The synchronization of the forwarder with the base: mars/dv/table/fib.go and `updateFib` of
-- mars/dv/dv/table_algo.go. The commands that `nfdc.Exec` queues are a list, in order. Costs are 64-bit.

pub mod Merge
pub mod Commands
use mars_icnp.Prelude.{
  ℕ, ◌+◌, ◌%◌, ◌^◌, Bool, true, false, not, ◌&&◌, ◌||◌, Option, none, some, List, [], ◌∷◌, ◌++◌,
  map, leb, ltb, ◌==◌, is_empty, keep, if◌then◌else◌,
}
use mars_icnp.Prelude.Sets.{mem, insert, delete}
use mars_icnp.Prelude.Maps.{find, put, remove}
use mars_icnp.Routing.Names.{NameOps}
use mars_icnp.Routing.Rib.{cost_infinity, RibEntry, Rib, reachable_entries}

-- mars/dv/config/config.go
abbrev pub cost_pfx_infinity : ℕ
cost_pfx_infinity = 4294967295

pub record FibEntry : Type 0 where
  pub face_id : ℕ
  pub cost : ℕ
  pub prev_cost : ℕ

pub data Command (N : Type 0) : Type 0 where
  unregister : N → ℕ → Command N
  register : N → ℕ → ℕ → Command N

pub record Fib (N : Type 0) : Type 0 where
  pub names : List (ℕ × N)
  pub prefixes : List (ℕ × List FibEntry)
  pub mark : List ℕ

unfoldable pub reset_costs : List FibEntry → List FibEntry
reset_costs [] = []
reset_costs (e ∷ es) =
    record { face_id = e.face_id; cost = cost_pfx_infinity; prev_cost = e.cost } ∷ reset_costs es

-- The search of the inner loop, and what follows it.
unfoldable pub merge_entry : FibEntry → List FibEntry → List FibEntry
merge_entry n [] = record n { prev_cost = cost_pfx_infinity } ∷ []
merge_entry n (e ∷ es) =
    if e.face_id == n.face_id
    then record e { cost = if ltb n.cost e.cost then n.cost else e.cost } ∷ es
    else e ∷ merge_entry n es

unfoldable pub merge_entries : List FibEntry → List FibEntry → List FibEntry
unfolding merge_entry
merge_entries [] es = es
merge_entries (n ∷ ns) es =
    merge_entries ns (if leb cost_pfx_infinity n.cost then es else merge_entry n es)

unfoldable pub final_entries : List FibEntry → List FibEntry
final_entries [] = []
final_entries (e ∷ es) =
    if leb cost_pfx_infinity e.cost then final_entries es else e ∷ final_entries es

-- A missing key reads as nil.
abbrev pub or_nil : Option (List FibEntry) → List FibEntry
or_nil none = []
or_nil (some es) = es

module _ {N : Type 0} where
  -- The commands of the loop that collects the final entries.
  unfoldable pub unregisters : N → List FibEntry → List (Command N)
  unregisters name [] = []
  unregisters name (e ∷ es) =
      if leb cost_pfx_infinity e.cost
      then unregister name e.face_id ∷ unregisters name es
      else unregisters name es

  -- The commands of the last loop.
  unfoldable pub registers : N → List FibEntry → List (Command N)
  registers name [] = []
  registers name (e ∷ es) =
      if e.cost == e.prev_cost
      then registers name es
      else register name e.face_id e.cost ∷ registers name es

  abbrev pub entries_of : ℕ → Fib N → List FibEntry
  entries_of h fib = or_nil (find h fib.prefixes)

  -- The commands, what `UpdateH` returns, and the table.
  unfoldable pub update_h : ℕ → N → List FibEntry → Fib N → List (Command N) × Bool × Fib N
  unfolding find put remove delete reset_costs merge_entries final_entries unregisters registers
      merge_entry
  update_h h name news fib =
      let merged = merge_entries news (reset_costs (entries_of h fib)) in
      let final = final_entries merged in
      let commands = unregisters name merged ++ registers name final in
      let known : List (ℕ × N) = elim (find h fib.names) [
        | none ↦ put h name fib.names
        | some _ ↦ fib.names
      ] in
      if is_empty final
      then (
        commands,
        false,
        record {
          names = remove h known;
          prefixes = remove h fib.prefixes;
          mark = delete h fib.mark;
        },
      )
      else (commands, true, record fib { names = known; prefixes = put h final fib.prefixes })

  unfoldable pub mark_h : ℕ → Fib N → Fib N
  unfolding insert
  mark_h h fib = record fib { mark = insert h fib.mark }

  unfoldable pub unmark_all : Fib N → Fib N
  unmark_all fib = record fib { mark = [] }

  -- The loop of `RemoveUnmarked`; `UpdateH` deletes no prefix but the one visited.
  unfoldable pub remove_each : List (ℕ × List FibEntry) → Fib N → List (Command N) × Fib N
  unfolding mem find update_h
  remove_each [] fib = ([], fib)
  remove_each ((h, es) ∷ ps) fib =
      let (commands, d) : List (Command N) × Fib N =
        if mem h fib.mark then ([], fib) else (elim (find h fib.names) [
          | none ↦ ([], fib)
          | some name ↦ let (cs, b, d) = update_h h name [] fib in (cs, d)
        ]) in
      let (more, d') = remove_each ps d in (commands ++ more, d')

  unfoldable pub remove_unmarked : Fib N → List (Command N) × Fib N
  unfolding remove_each
  remove_unmarked fib = remove_each fib.prefixes fib

  -- The face of a neighbour by its hash, from the neighbour table.
  unfoldable pub get_fib_entries : List (ℕ × ℕ) → RibEntry N → List FibEntry
  unfolding find
  get_fib_entries faces e =
      let hop = λ (next_hop lowest : ℕ). (elim (find next_hop faces) as (λ _. List FibEntry) [
        | none ↦ []
        | some face ↦
            if ltb lowest cost_infinity
            then record { face_id = face; cost = lowest; prev_cost = 0 } ∷ []
            else []
      ]) in
      hop e.next_hop1 e.lowest1 ++ hop e.next_hop2 e.lowest2

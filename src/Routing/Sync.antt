-- ===== src/Routing/Sync.antt =====
-- `updateFib` of mars/dv/dv/table_algo.go: the routes to every router of the base and to the prefixes
-- that it announces become the table of the forwarder.
use mars_icnp.Prelude.{
  ℕ, ◌+◌, ◌%◌, ◌^◌, Option, none, some, List, [], ◌∷◌, ◌++◌, map, if◌then◌else◌,
}
use mars_icnp.Prelude.Maps.{find, put}
use mars_icnp.Routing.Names.{NameOps}
use mars_icnp.Routing.Rib.{RibEntry, Rib, reachable_entries}
use mars_icnp.Routing.Fib.{
  FibEntry, Command, Fib, update_h, mark_h, unmark_all, remove_unmarked, get_fib_entries,
}

-- The maps `names` and `fibEntries`, which have the same keys.
abbrev pub Routes : Type 0 → Type 0
Routes N = List (ℕ × (N × List FibEntry))

abbrev pub found_entries : {N : Type 0} → Option (N × List FibEntry) → List FibEntry
found_entries none = []
found_entries (some (n, es)) = es

-- The group prefix of the prefix table with a router's name appended, the prefixes that a router
-- announces with their costs, and the faces of the neighbours: the state of other tables.
pub record Tables (N : Type 0) : Type 0 where
  pub group_route : N → N
  pub prefixes_of : N → List (N × ℕ)
  pub faces : List (ℕ × ℕ)

module _ {N : Type 0} (names : NameOps N) (router_name : N) (tables : Tables N) where
  open names use {hash, equal}
  open tables use {group_route, prefixes_of, faces}

  -- The local function `register`.
  unfoldable pub register_route : N → List FibEntry → ℕ → Routes N → Routes N
  unfolding find put
  register_route name fes cost routes =
      let dearer = λ (e : FibEntry). record e { cost = (e.cost + cost) % 2 ^ 64 } in
      let known = found_entries (find (hash name) routes) in
      put (hash name) (name, known ++ map dearer fes) routes

  unfoldable pub register_prefixes : List (N × ℕ) → List FibEntry → Routes N → Routes N
  unfolding register_route
  register_prefixes [] fes routes = routes
  register_prefixes ((name, cost) ∷ ps) fes routes =
      register_prefixes ps fes (register_route name fes cost routes)

  -- The loop over the routers.
  unfoldable pub collect_routes : List (ℕ × RibEntry N) → Routes N → Routes N
  unfolding register_prefixes register_route get_fib_entries
  collect_routes [] routes = routes
  collect_routes ((h, e) ∷ es) routes =
      let fes = get_fib_entries faces e in
      collect_routes es (
        if equal e.name router_name
        then routes
        else register_prefixes (prefixes_of e.name) fes
            (register_route (group_route e.name) fes 0 routes))

  -- The loop that updates and marks.
  unfoldable pub update_routes : Routes N → Fib N → List (Command N) × Fib N
  unfolding update_h mark_h
  update_routes [] fib = ([], fib)
  update_routes ((h, (name, fes)) ∷ routes) fib =
      let (commands, kept, d) = update_h h name fes fib in
      let (more, d') = update_routes routes (if kept then mark_h h d else d) in
      (commands ++ more, d')

  unfoldable pub update_fib : Rib N → Fib N → List (Command N) × Fib N
  unfolding collect_routes update_routes unmark_all remove_unmarked reachable_entries
  update_fib rib fib =
      let routes = collect_routes (reachable_entries names rib) [] in
      let (commands, d) = update_routes routes (unmark_all fib) in
      let (more, d') = remove_unmarked d in (commands ++ more, d')

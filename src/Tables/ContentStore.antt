-- ===== src/Tables/ContentStore.antt =====
-- The content store: the CS part of mars/fw/table/pit-cs-tree.go with the replacement policy of
-- mars/fw/table/cs-lru.go.
use mars_icnp.Prelude.{
  ℕ, ◌+◌, ◌-◌, Bool, not, ◌||◌, Option, none, some, List, [], ◌∷◌, ◌++◌, ltb, if◌then◌else◌, length,
  map,
}
use mars_icnp.Prelude.Maps.{find, put, remove}
use mars_icnp.Prelude.Sets.{mem, insert, delete}
use mars_icnp.Tables.Tree.{Name, Node, node, no_children, entry_at, fill_and, change_at}

-- What a node of the tree has: the PIT entries by number, and the index of the CS entry.
pub record TreeEntry : Type 0 where
  pub pit_entries : List ℕ
  pub cs_entry : Option ℕ

abbrev pub new_tree_entry : TreeEntry
new_tree_entry = record { pit_entries = []; cs_entry = none }

-- `baseCsEntry` with the path of its node; times are in nanoseconds.
pub record CsEntry : Type 0 where
  pub wire : List ℕ
  pub stale_time : ℕ
  pub path : Name

pub record ContentStore : Type 0 where
  pub root : Node TreeEntry
  pub cs_map : List (ℕ × CsEntry)
  pub n_cs_entries : ℕ
  pub queue : List ℕ
  pub locations : List ℕ

abbrev pub new_content_store : ContentStore
new_content_store = record {
  root = node new_tree_entry no_children;
  cs_map = [];
  n_cs_entries = 0;
  queue = [];
  locations = [];
}

abbrev pub set_cs : Option ℕ → TreeEntry → TreeEntry
set_cs i e = record { pit_entries = e.pit_entries; cs_entry = i }

abbrev pub with_queue : List ℕ → List ℕ → ContentStore → ContentStore
with_queue q l s = record {
  root = s.root;
  cs_map = s.cs_map;
  n_cs_entries = s.n_cs_entries;
  queue = q;
  locations = l;
}

unfoldable pub after_insert : ℕ → ContentStore → ContentStore
after_insert i s = with_queue (s.queue ++ i ∷ []) (insert i s.locations) s

-- `AfterRefresh` and `BeforeUse`: removing an element that has left the queue does nothing.
unfoldable pub after_refresh : ℕ → ContentStore → ContentStore
after_refresh i s =
    with_queue ((if mem i s.locations then delete i s.queue else s.queue) ++ i ∷ [])
      (insert i s.locations) s

unfoldable pub before_erase : ℕ → ContentStore → ContentStore
before_erase i s =
    if mem i s.locations then with_queue (delete i s.queue) (delete i s.locations) s else s

abbrev pub erase_found : ℕ → Option CsEntry → ContentStore → ContentStore
erase_found i none s = s
erase_found i (some e) s = record {
  root = change_at (set_cs none) e.path s.root;
  cs_map = remove i s.cs_map;
  n_cs_entries = s.n_cs_entries - 1;
  queue = s.queue;
  locations = s.locations;
}

-- `eraseCsDataFromReplacementStrategy`.
unfoldable pub erase_cs_data : ℕ → ContentStore → ContentStore
erase_cs_data i s = erase_found i (find i s.cs_map) s

-- The loop of `EvictEntries`, over the queue from its front; `locations` keeps what is evicted.
unfoldable pub evict_from : ℕ → List ℕ → ContentStore → ContentStore
evict_from capacity [] s = s
evict_from capacity (i ∷ q) s =
    let rest = evict_from capacity q (with_queue q s.locations (erase_cs_data i s)) in
    if ltb capacity (length (i ∷ q)) then rest else s

unfoldable pub evict_entries : ℕ → ContentStore → ContentStore
evict_entries capacity s = evict_from capacity s.queue s

abbrev pub add_entry : ℕ → CsEntry → ContentStore → ContentStore
add_entry i e s = record {
  root = fill_and new_tree_entry (set_cs (some i)) e.path s.root;
  cs_map = put i e s.cs_map;
  n_cs_entries = s.n_cs_entries + 1;
  queue = s.queue;
  locations = s.locations;
}

abbrev pub refresh_entry : ℕ → CsEntry → CsEntry → ContentStore → ContentStore
refresh_entry i old e s = record {
  root = s.root;
  cs_map = put i (record { wire = e.wire; stale_time = e.stale_time; path = old.path }) s.cs_map;
  n_cs_entries = s.n_cs_entries;
  queue = s.queue;
  locations = s.locations;
}

abbrev pub insert_found : ℕ → ℕ → CsEntry → Option CsEntry → ContentStore → ContentStore
insert_found capacity i e none s = evict_entries capacity (after_insert i (add_entry i e s))
insert_found capacity i e (some old) s = after_refresh i (refresh_entry i old e s)

-- Whether an entry may answer an Interest.
unfoldable pub is_usable : Bool → ℕ → CsEntry → Bool
is_usable must_be_fresh now e = not must_be_fresh || ltb now e.stale_time

abbrev pub index_at : Node TreeEntry → Name → Option ℕ
index_at t p = elim (entry_at t p) [ none ↦ none | some e ↦ e.cs_entry ]

abbrev pub pair_with : ℕ → Option CsEntry → Option (ℕ × CsEntry)
pair_with i none = none
pair_with i (some e) = some (i, e)

abbrev pub entry_for : Option ℕ → ContentStore → Option (ℕ × CsEntry)
entry_for none s = none
entry_for (some i) s = pair_with i (find i s.cs_map)

abbrev pub use_entry :
    Bool → ℕ → Option (ℕ × CsEntry) → ContentStore → Option CsEntry × ContentStore
use_entry must_be_fresh now none s = (none, s)
use_entry must_be_fresh now (some (i, e)) s =
    if is_usable must_be_fresh now e then (some e, after_refresh i s) else (none, s)

-- `hash` and `name_hash` are the hashes of a component and of a name.
module _ (hash : ℕ → ℕ) (name_hash : Name → ℕ) where
  -- `freshness` is the Data's period, 0 for none.
  unfoldable pub insert_data : ℕ → ℕ → Name → ℕ → List ℕ → ContentStore → ContentStore
  insert_data capacity now name freshness wire s =
      insert_found capacity (name_hash name)
        (record { wire = wire; stale_time = now + freshness; path = map hash name })
        (find (name_hash name) s.cs_map) s

  -- `FindMatchingDataFromCS` for an Interest whose name has to match exactly.
  unfoldable pub find_exact_data : Name → Bool → ℕ → ContentStore → Option CsEntry × ContentStore
  find_exact_data name must_be_fresh now s =
      use_entry must_be_fresh now (entry_for (index_at s.root (map hash name)) s) s

-- ===== src/Tables/Pit.antt =====
-- The pending Interest table: mars/fw/table/pit-cs.go and the PIT part of pit-cs-tree.go.
mod Records
pub use mars_icnp.Tables.Pit.Records.{
  PitInRecord, PitOutRecord, PitEntry, Interest, value_or, nonce_of, lifetime_of, in_record_of,
  previous_nonce,
}
unfoldable pub use mars_icnp.Tables.Pit.Records.{
  insert_in_record, insert_out_record, remove_in_record, clear_records,
}
use mars_icnp.Prelude.{
  ℕ, ◌+◌, ◌%◌, ◌^◌, Bool, true, false, not, ◌&&◌, ◌||◌, Option, none, some, List, [], ◌∷◌, ◌++◌,
  ◌==◌, if◌then◌else◌, length, map, is_empty,
}
use mars_icnp.Prelude.Maps.{find, put, remove}
use mars_icnp.Tables.Tree.{
  Name, Node, node, Children, entry_of, children_of, has_no_children, find_child, put_child,
  delete_child, entry_at, match_from, fill_and, with_child, name_eq,
}
use mars_icnp.Tables.DeadNonces.{Queue, push}
use mars_icnp.Tables.ContentStore.{TreeEntry, new_tree_entry, ContentStore, new_content_store}

-- Entries are kept by their number, which stands for the pointer to them and is the value of
-- `nPitToken` at their creation; the expiry queue has numbers too.
pub record PitCs : Type 0 where
  pub cs : ContentStore
  pub entries : List (ℕ × PitEntry)
  pub n_pit_token : ℕ
  pub pit_tokens : List (ℕ × ℕ)
  pub pit_expiry_queue : Queue

abbrev pub new_pit_cs : PitCs
new_pit_cs = record {
  cs = new_content_store;
  entries = [];
  n_pit_token = 0;
  pit_tokens = [];
  pit_expiry_queue = [];
}

abbrev pub pit_token_lookup_table_size : ℕ
pit_token_lookup_table_size = 125000

unfoldable pub pit_token_idx : ℕ → ℕ
pit_token_idx token = token % pit_token_lookup_table_size

-- A nil name is equal to the empty one.
abbrev pub hint_name : Option Name → Name
hint_name none = []
hint_name (some n) = n

unfoldable pub matches_interest : Interest → Option Name → PitEntry → Bool
matches_interest i hint e =
    (if e.can_be_prefix then i.can_be_prefix else not i.can_be_prefix)
    && (if e.must_be_fresh then i.must_be_fresh else not i.must_be_fresh)
    && name_eq (hint_name hint) (hint_name e.forwarding_hint)

abbrev pub test_entry : (PitEntry → Bool) → Option PitEntry → Bool
test_entry p none = false
test_entry p (some e) = p e

-- The first of the entries that passes a test.
unfoldable pub first_entry : (PitEntry → Bool) → List (ℕ × PitEntry) → List ℕ → Option ℕ
first_entry p es [] = none
first_entry p es (i ∷ is) = if test_entry p (find i es) then some i else first_entry p es is

abbrev pub entries_at : Option TreeEntry → List ℕ
entries_at none = []
entries_at (some e) = e.pit_entries

abbrev pub with_root : (Node TreeEntry → Node TreeEntry) → PitCs → PitCs
with_root f p = record p { cs = record (p.cs) { root = f ((p.cs).root) } }

abbrev pub with_entry : ℕ → (PitEntry → PitEntry) → Option PitEntry → PitCs → PitCs
with_entry id f none p = p
with_entry id f (some e) p = record p { entries = put id (f e) p.entries }

unfoldable pub update_entry : ℕ → (PitEntry → PitEntry) → PitCs → PitCs
update_entry id f p = with_entry id f (find id p.entries) p

abbrev pub add_pit_entry : ℕ → TreeEntry → TreeEntry
add_pit_entry id e = record { pit_entries = e.pit_entries ++ id ∷ []; cs_entry = e.cs_entry }

abbrev pub new_pit_entry : Interest → Option Name → Name → ℕ → PitEntry
new_pit_entry i hint path token = record {
  encname = i.name;
  path = path;
  can_be_prefix = i.can_be_prefix;
  must_be_fresh = i.must_be_fresh;
  forwarding_hint = hint;
  in_records = [];
  out_records = [];
  expiration_time = 0;
  satisfied = false;
  token = token;
}

unfoldable pub create_entry : Interest → Option Name → Name → PitCs → ℕ × PitCs
create_entry i hint path p =
    let id = p.n_pit_token + 1 in
    let token = id % 2 ^ 32 in
    (
      id,
      record p {
        cs = record (p.cs) { root = fill_and new_tree_entry (add_pit_entry id) path ((p.cs).root) };
        entries = put id (new_pit_entry i hint path token) p.entries;
        n_pit_token = id;
        pit_tokens = put (pit_token_idx token) id p.pit_tokens;
      },
    )

abbrev pub found_or_created : Option ℕ → ℕ × PitCs → PitCs → ℕ × PitCs
found_or_created none created p = created
found_or_created (some id) created p = (id, p)

-- A record of another face with the nonce.
unfoldable pub is_looping : ℕ → ℕ → List (ℕ × PitInRecord) → Bool
is_looping in_face nonce [] = false
is_looping in_face nonce ((f, r) ∷ rs) =
    (not (f == in_face) && (r.latest_nonce == nonce)) || is_looping in_face nonce rs

abbrev pub in_records_of : Option PitEntry → List (ℕ × PitInRecord)
in_records_of none = []
in_records_of (some e) = e.in_records

-- `UpdateExpirationTimer`: an entry stands at most once in the queue.
unfoldable pub drop_item : ℕ → Queue → Queue
drop_item id [] = []
drop_item id ((t, j) ∷ q) = if j == id then q else (t, j) ∷ drop_item id q

unfoldable pub update_expiration_timer : ℕ → ℕ → PitCs → PitCs
update_expiration_timer id t p =
    let p' = update_entry id (λ e. record e { expiration_time = t }) p in
    record p' { pit_expiry_queue = push t id (drop_item id p'.pit_expiry_queue) }

module _ (hash : ℕ → ℕ) where
  -- The number of the entry, whether the Interest loops, and the table.
  unfoldable pub insert_interest : Interest → Option Name → ℕ → PitCs → ℕ × Bool × PitCs
  insert_interest i hint in_face p =
      let path = map hash i.name in
      let found =
        first_entry (matches_interest i hint) p.entries (entries_at (entry_at (p.cs).root path)) in
      let (id, p') =
        found_or_created found (create_entry i hint path p)
          (with_root (fill_and new_tree_entry (λ e. e) path) p) in
      if is_looping in_face (nonce_of i) (in_records_of (find id p'.entries))
      then (id, true, p')
      else (id, false, update_entry id (λ e. record e { expiration_time = 0 }) p')

  unfoldable pub same_flags : Interest → PitEntry → Bool
  same_flags i e =
      (if e.can_be_prefix then i.can_be_prefix else not i.can_be_prefix)
      && (if e.must_be_fresh then i.must_be_fresh else not i.must_be_fresh)

  -- `FindInterestExactMatchEnc` reads no hint.
  unfoldable pub find_interest_exact_match : Interest → PitCs → Option ℕ
  find_interest_exact_match i p =
      first_entry (same_flags i) p.entries (entries_at (entry_at (p.cs).root (map hash i.name)))

  -- From the longest prefix match up: `depth` is that of the first node.
  unfoldable pub select_entries : List (ℕ × PitEntry) → Bool → List ℕ → List ℕ
  select_entries es at_full_depth [] = []
  select_entries es at_full_depth (i ∷ is) =
      let rest = select_entries es at_full_depth is in
      if test_entry (λ e. e.can_be_prefix || at_full_depth) (find i es) then i ∷ rest else rest

  unfoldable pub collect_entries : List (ℕ × PitEntry) → ℕ → List TreeEntry → List ℕ
  collect_entries es len [] = []
  collect_entries es len (t ∷ ts) =
      select_entries es (length ts == len) t.pit_entries ++ collect_entries es len ts

  unfoldable pub find_by_name : Name → PitCs → List ℕ
  find_by_name name p =
      collect_entries p.entries (length name) (match_from ((p.cs).root) (map hash name) [])

  abbrev pub entry_of_token : ℕ → Option ℕ → PitCs → Option ℕ
  entry_of_token token none p = none
  entry_of_token token (some id) p =
      if test_entry (λ e. e.token == token) (find id p.entries) then some id else none

  abbrev pub one_or : Option ℕ → List ℕ → List ℕ
  one_or none is = is
  one_or (some i) is = i ∷ []

  -- `FindInterestPrefixMatchByDataEnc`.
  unfoldable pub find_by_data : Name → Option ℕ → PitCs → List ℕ
  find_by_data name none p = find_by_name name p
  find_by_data name (some token) p =
      one_or (entry_of_token token (find (pit_token_idx token) p.pit_tokens) p)
        (find_by_name name p)

abbrev pub last_or : ℕ → List ℕ → ℕ
last_or d [] = d
last_or d (i ∷ is) = last_or i is

abbrev pub drop_last : List ℕ → List ℕ
drop_last [] = []
drop_last (i ∷ []) = []
drop_last (i ∷ j ∷ is) = i ∷ drop_last (j ∷ is)

unfoldable pub replace_first : ℕ → ℕ → List ℕ → List ℕ
replace_first i l [] = []
replace_first i l (j ∷ is) = if j == i then l ∷ is else j ∷ replace_first i l is

-- The last entry takes the place of the removed one.
unfoldable pub swap_remove : ℕ → List ℕ → List ℕ
swap_remove i is = drop_last (replace_first i (last_or i is) is)

abbrev pub is_bare : TreeEntry → Bool
is_bare e = is_empty e.pit_entries && elim (e.cs_entry) [ none ↦ true | some i ↦ false ]

abbrev pub keep_unless_bare : ℕ → Node TreeEntry → Children TreeEntry → Children TreeEntry
keep_unless_bare k n cs =
    if has_no_children (children_of n) && is_bare (entry_of n)
    then delete_child k cs
    else put_child k n cs

-- A change of the entry at a path, and then `pruneIfEmpty` from there to the root.
unfoldable pub change_and_prune_up :
    (TreeEntry → TreeEntry) → Name → Node TreeEntry → Node TreeEntry
change_and_prune_up f [] n = node (f (entry_of n)) (children_of n)
change_and_prune_up f (k ∷ ks) n =
    with_child (find_child k (children_of n)) n
      (λ m. node (entry_of n) (keep_unless_bare k (change_and_prune_up f ks m) (children_of n)))

abbrev pub drop_token : ℕ → ℕ → Option ℕ → List (ℕ × ℕ) → List (ℕ × ℕ)
drop_token idx id none ts = ts
drop_token idx id (some j) ts = if j == id then remove idx ts else ts

abbrev pub remove_entry : ℕ → PitEntry → PitCs → PitCs
remove_entry id e p = record p {
  cs = record (p.cs) {
    root =
        change_and_prune_up
          (λ t. record { pit_entries = swap_remove id t.pit_entries; cs_entry = t.cs_entry }) e.path
          ((p.cs).root);
  };
  entries = remove id p.entries;
  pit_tokens =
      drop_token (pit_token_idx e.token) id (find (pit_token_idx e.token) p.pit_tokens)
        p.pit_tokens;
}

abbrev pub remove_found : ℕ → Option PitEntry → PitCs → PitCs
remove_found id none p = p
remove_found id (some e) p = remove_entry id e p

-- `RemoveInterest`: an entry that is in the store is at its node.
unfoldable pub remove_interest : ℕ → PitCs → PitCs
remove_interest id p = remove_found id (find id p.entries) p

-- ===== src/Tables/Capacity.antt =====
-- Runs of the content store.
use mars_icnp.Prelude.{
  ℕ, ◌+◌, ◌≤◌, ◌<◌, ◌≡◌, refl, ap, subst, ◌∙◌, inl, Bool, true, Option, none, some, List, [], ◌∷◌,
  ◌++◌, ◌==◌, if◌then◌else◌, if_cases, length, length-append, map, arith,
}
use mars_icnp.Prelude.Maps.{find, find-put}
use mars_icnp.Prelude.Sets.{mem, Distinct}
use mars_icnp.Tables.Tree.{Name}
use mars_icnp.Tables.ContentStore.{
  CsEntry, ContentStore, new_content_store, after_insert, evict_from, evict_entries, add_entry,
  refresh_entry, insert_found, insert_data, index_at, pair_with, entry_for, is_usable, use_entry,
  find_exact_data,
}
use mars_icnp.Tables.Eviction.{
  is_some, IsStored, evict_from-IsStored, append-IsStored, touch-IsStored, erase-map,
  after_eviction,
}

abbrev pub IsBounded : ℕ → ContentStore → Type 0
IsBounded capacity s = IsStored s s.queue × (length s.queue ≤ capacity)

found-IsSome : (o : Option CsEntry) (e : CsEntry) → o ≡ some e → is_some o ≡ true
found-IsSome o e h = ap is_some h

refresh-same :
    (i x : ℕ) (old e : CsEntry) (s : ContentStore)
    → find i s.cs_map ≡ some old
    → is_some (find x (refresh_entry i old e s).cs_map) ≡ is_some (find x s.cs_map)
refresh-same i x old e s h = ground (
  arith,
  h,
  find-put x i (record { wire = e.wire; stale_time = e.stale_time; path = old.path }) s.cs_map,
)

insert_found-IsBounded :
    (capacity i : ℕ) (e : CsEntry) (o : Option CsEntry) (s : ContentStore)
    → find i s.cs_map ≡ o
    → IsBounded capacity s
    → IsBounded capacity (insert_found capacity i e o s)
unfolding evict_entries after_insert
insert_found-IsBounded capacity i e none s h t =
    let s' = after_insert i (add_entry i e s) in
    evict_from-IsStored capacity s'.queue s' refl (append-IsStored i e s (t.0) h)
insert_found-IsBounded capacity i e (some old) s h t =
    let r =
      touch-IsStored i s (refresh_entry i old e s) (t.0)
        ((t.0).same i ∙ found-IsSome (find i s.cs_map) old h) (λ x. refresh-same i x old e s h) refl
        refl refl in
    (r.0, omega (arith, r.1, t.1))

use_entry-IsBounded :
    (capacity now : ℕ) (fresh : Bool) (o : Option (ℕ × CsEntry)) (s : ContentStore)
    → ((i : ℕ) (e : CsEntry) → o ≡ some (i, e) → find i s.cs_map ≡ some e)
    → IsBounded capacity s
    → IsBounded capacity (use_entry fresh now o s).1
use_entry-IsBounded capacity now fresh none s h t = t
use_entry-IsBounded capacity now fresh (some (i, e)) s h t =
    if_cases (λ (r : Option CsEntry × ContentStore). IsBounded capacity (r.1))
      (is_usable fresh now e)
      (λ b.
        let r =
          touch-IsStored i s s (t.0) ((t.0).same i ∙ found-IsSome (find i s.cs_map) e (h i e refl))
            (λ x. refl) refl refl refl in
        (r.0, omega (arith, r.1, t.1)))
      (λ b. t)

pair_with-some :
    (j i : ℕ) (e : CsEntry) (o : Option CsEntry)
    → pair_with j o ≡ some (i, e)
    → (o ≡ some e) × (j ≡ i)
pair_with-some j i e none h = ground arith
pair_with-some j i e (some e') h = ground arith

entry_for-found :
    (o : Option ℕ) (s : ContentStore) (i : ℕ) (e : CsEntry)
    → entry_for o s ≡ some (i, e)
    → find i s.cs_map ≡ some e
entry_for-found none s i e h = ground arith
entry_for-found (some j) s i e h =
    let r = pair_with-some j i e (find j s.cs_map) h in
    subst (λ k. find k s.cs_map ≡ some e) (r.1) (r.0)

-- What a forwarding thread does with the store.
pub data CsCall : Type 0 where
  insert_data_call : ℕ → Name → ℕ → List ℕ → CsCall
  find_data_call : ℕ → Name → Bool → CsCall

module _ (hash : ℕ → ℕ) (name_hash : Name → ℕ) where
  unfoldable pub cs_run : ℕ → List CsCall → ContentStore → ContentStore
  cs_run capacity [] s = s
  cs_run capacity (insert_data_call now name freshness wire ∷ cs) s =
      cs_run capacity cs (insert_data hash name_hash capacity now name freshness wire s)
  cs_run capacity (find_data_call now name fresh ∷ cs) s =
      cs_run capacity cs (find_exact_data hash name_hash name fresh now s).1

  run-IsBounded :
      (capacity : ℕ) (cs : List CsCall) (s : ContentStore)
      → IsBounded capacity s
      → IsBounded capacity (cs_run capacity cs s)
  unfolding cs_run insert_data find_exact_data
  run-IsBounded capacity [] s t = t
  run-IsBounded capacity (insert_data_call now name freshness wire ∷ cs) s t =
      run-IsBounded capacity cs (insert_data hash name_hash capacity now name freshness wire s) (
        insert_found-IsBounded capacity (name_hash name)
          (record { wire = wire; stale_time = now + freshness; path = map hash name })
          (find (name_hash name) s.cs_map) s refl t)
  run-IsBounded capacity (find_data_call now name fresh ∷ cs) s t =
      let o = entry_for (index_at s.root (map hash name)) s in
      run-IsBounded capacity cs ((find_exact_data hash name_hash name fresh now s).1) (
        use_entry-IsBounded capacity now fresh o s
          (λ i e h. entry_for-found (index_at s.root (map hash name)) s i e h) t)

  new-IsBounded : (capacity : ℕ) → IsBounded capacity new_content_store
  unfolding mem find
  new-IsBounded capacity =
      (record { same = λ x. refl; once = tt; counted = refl; located = λ x. inl refl }, omega arith)

  -- Whatever is inserted into a new store and looked up in it, the store never counts more entries
  -- than its capacity, and an index has an entry exactly if it is in the eviction queue, which has
  -- it once.
  pub run-capacity :
      (capacity x : ℕ) (cs : List CsCall)
      → ((cs_run capacity cs new_content_store).n_cs_entries ≤ capacity)
        × (mem x (cs_run capacity cs new_content_store).queue
            ≡ is_some (find x (cs_run capacity cs new_content_store).cs_map))
        × Distinct (cs_run capacity cs new_content_store).queue
  run-capacity capacity x cs =
      let t = run-IsBounded capacity cs new_content_store (new-IsBounded capacity) in
      (omega (arith, (t.0).counted, t.1), (t.0).same x, (t.0).once)

evict-one :
    (capacity v : ℕ) (q : List ℕ) (s : ContentStore)
    → capacity < length (v ∷ q)
    → length q ≤ capacity
    → evict_from capacity (v ∷ q) s ≡ after_eviction v q s
unfolding evict_from
evict-one capacity v [] s l u = ground arith
evict-one capacity v (w ∷ q) s l u = ground arith

evict-front :
    (capacity v : ℕ) (q : List ℕ) (s : ContentStore)
    → s.queue ≡ v ∷ q
    → capacity < length (v ∷ q)
    → length q ≤ capacity
    → evict_entries capacity s ≡ after_eviction v q s
unfolding evict_entries
evict-front capacity v q s e l u =
    ap (λ r. evict_from capacity r s) e ∙ evict-one capacity v q s l u

-- New Data in a full store takes the place of the entry at the front of the eviction queue, the
-- one whose last insertion, refresh or use is the oldest; the other entries stay.
pub insert_data-evicts :
    (hash : ℕ → ℕ) (name_hash : Name → ℕ) (capacity now : ℕ) (name : Name) (freshness : ℕ)
    (wire : List ℕ) (s : ContentStore) (v x : ℕ) (q : List ℕ)
    → IsBounded capacity s
    → length s.queue ≡ capacity
    → s.queue ≡ v ∷ q
    → find (name_hash name) s.cs_map ≡ none
    → find x (insert_data hash name_hash capacity now name freshness wire s).cs_map ≡ (
        if v == x
        then none
        else if name_hash name == x
        then some (record { wire = wire; stale_time = now + freshness; path = map hash name })
        else find x s.cs_map)
unfolding insert_data after_insert
insert_data-evicts hash name_hash capacity now name freshness wire s v x q t c e n =
    let i = name_hash name in
    let new : CsEntry = record {
      wire = wire;
      stale_time = now + freshness;
      path = map hash name;
    } in
    let s' : ContentStore = after_insert i (add_entry i new s) in
    let full : s'.queue ≡ v ∷ (q ++ i ∷ []) = ap (λ r. r ++ i ∷ []) e in
    let size : length (v ∷ q) ≡ capacity = subst (λ r. length r ≡ capacity) e c in
    let evicted =
      evict-front capacity v (q ++ i ∷ []) s' full (omega (arith, length-append q (i ∷ []), size))
        (omega (arith, length-append q (i ∷ []), size)) in
    ap (λ o. find x (insert_found capacity i new o s).cs_map) n
    ∙ ap (λ (r : ContentStore). find x r.cs_map) evicted
    ∙ erase-map v x s'
    ∙ ap (λ o. if v == x then none else o) (find-put x i new s.cs_map)

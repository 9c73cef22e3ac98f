-- ===== src/Tables/Eviction.antt =====
-- The content store stays within its capacity, and evicts the least recently used entry.
use mars_icnp.Prelude.{
  ℕ, suc, ◌+◌, ◌≤◌, ◌≡◌, ◌≢◌, refl, sym, subst, ◌∙◌, ◌⊎◌, inl, inr, Bool, true, false, Option, none,
  some, List, [], ◌∷◌, ◌++◌, ltb, ◌==◌, if◌then◌else◌, if_cases, length, length-append,
  Option-cases, if_same, ==_iff, arith,
}
use mars_icnp.Prelude.Maps.{find, find-put, find-remove}
use mars_icnp.Prelude.Sets.{
  mem, insert, delete, Distinct, mem-insert, mem-delete, mem-snoc, snoc-Distinct, delete-Distinct,
}
use mars_icnp.Tables.ContentStore.{
  CsEntry, ContentStore, with_queue, after_insert, after_refresh, erase_cs_data, evict_from,
  add_entry,
}

abbrev pub is_some : Option CsEntry → Bool
is_some none = false
is_some (some e) = true

-- The queue has the indices of the map, each of them once, as many as are counted; every index of
-- the queue has a location.
pub record IsStored (s : ContentStore) (queue : List ℕ) : Type 0 where
  pub same : (x : ℕ) → mem x queue ≡ is_some (find x s.cs_map)
  pub once : Distinct queue
  pub counted : s.n_cs_entries ≡ length queue
  pub located : (x : ℕ) → (mem x queue ≡ false) ⊎ (mem x s.locations ≡ true)

length-absent : (i : ℕ) (q : List ℕ) → mem i q ≡ false → length (delete i q) ≡ length q
unfolding mem delete
length-absent i [] m = refl
length-absent i (j ∷ q) m = ground (arith, length-absent i q)

length-delete :
    (i : ℕ) (q : List ℕ) → Distinct q → mem i q ≡ true → length (delete i q) + 1 ≡ length q
unfolding mem delete
length-delete i [] d m = ground arith
length-delete i (j ∷ q) d m = ground (arith, length-delete i q (d.1), length-absent i q)

pub first-mem : (i : ℕ) (q : List ℕ) → mem i (i ∷ q) ≡ true
unfolding mem
first-mem i q = ground arith

none-IsAbsent : (o : Option CsEntry) → o ≡ none → is_some o ≢ true
none-IsAbsent o a m = ground arith

pub erase-map :
    (i x : ℕ) (s : ContentStore)
    → find x (erase_cs_data i s).cs_map ≡ (if i == x then none else find x s.cs_map)
unfolding erase_cs_data
erase-map i x s = elim (Option-cases (find i s.cs_map)) [
  | inl a ↦
      rw (a, erase_cs_data)
        (if_same (i == x) (find x s.cs_map) none
          (λ b. subst (λ j. find j s.cs_map ≡ none) ((==_iff i x).0 b) a))
  | inr (e, a) ↦ rw (a, erase_cs_data) (find-remove x i s.cs_map)
]

erase-counted :
    (i n : ℕ) (s : ContentStore)
    → s.n_cs_entries ≡ suc n
    → is_some (find i s.cs_map) ≡ true
    → (erase_cs_data i s).n_cs_entries ≡ n
unfolding erase_cs_data
erase-counted i n s h m = elim (Option-cases (find i s.cs_map)) [
  | inl a ↦ absurd (none-IsAbsent (find i s.cs_map) a m)
  | inr (e, a) ↦ rw (a, erase_cs_data) (omega arith)
]

erase-located : (i : ℕ) (s : ContentStore) → (erase_cs_data i s).locations ≡ s.locations
unfolding erase_cs_data
erase-located i s = elim (Option-cases (find i s.cs_map)) [
  | inl a ↦ rw (a, erase_cs_data) refl
  | inr (e, a) ↦ rw (a, erase_cs_data) refl
]

evicted-same :
    (i x : ℕ) (q : List ℕ) (s : ContentStore)
    → mem x (i ∷ q) ≡ is_some (find x s.cs_map)
    → mem i q ≡ false
    → mem x q ≡ is_some (find x (erase_cs_data i s).cs_map)
unfolding mem
evicted-same i x q s h n = ground (arith, erase-map i x s)

evicted-located :
    (i x : ℕ) (q l : List ℕ)
    → (mem x (i ∷ q) ≡ false) ⊎ (mem x l ≡ true)
    → (mem x q ≡ false) ⊎ (mem x l ≡ true)
unfolding mem
evicted-located i x q l h = ground arith

abbrev pub after_eviction : ℕ → List ℕ → ContentStore → ContentStore
after_eviction i q s = with_queue q s.locations (erase_cs_data i s)

evict-IsStored :
    (i : ℕ) (q : List ℕ) (s : ContentStore) → IsStored s (i ∷ q) → IsStored (after_eviction i q s) q
evict-IsStored i q s t = record {
  same = λ x. evicted-same i x q s (t.same x) ((t.once).0);
  once = (t.once).1;
  counted = erase-counted i (length q) s (t.counted) (sym (t.same i) ∙ first-mem i q);
  located = λ x. evicted-located i x q s.locations (t.located x);
}

pub evict_from-IsStored :
    (capacity : ℕ) (q : List ℕ) (s : ContentStore)
    → s.queue ≡ q
    → IsStored s q
    → IsStored (evict_from capacity q s) (evict_from capacity q s).queue
      × (length (evict_from capacity q s).queue ≤ capacity)
unfolding evict_from
evict_from-IsStored capacity [] s e t =
    (subst (λ r. IsStored s r) (sym e) t, subst (λ r. length r ≤ capacity) (sym e) (omega arith))
evict_from-IsStored capacity (i ∷ q) s e t =
    if_cases (λ (r : ContentStore). IsStored r r.queue × (length r.queue ≤ capacity))
      (ltb capacity (length (i ∷ q)))
      (λ b. evict_from-IsStored capacity q (after_eviction i q s) refl (evict-IsStored i q s t))
      (λ b. (
        subst (λ r. IsStored s r) (sym e) t,
        subst (λ r. length r ≤ capacity) (sym e) (ground (arith, b)),
      ))

snoc-length : (i : ℕ) (q : List ℕ) → length (q ++ i ∷ []) ≡ length q + 1
snoc-length i q = length-append q (i ∷ [])

pub append-IsStored :
    (i : ℕ) (e : CsEntry) (s : ContentStore)
    → IsStored s s.queue
    → find i s.cs_map ≡ none
    → IsStored (after_insert i (add_entry i e s)) (after_insert i (add_entry i e s)).queue
unfolding after_insert
append-IsStored i e s t n = record {
  same = λ x. ground (arith, mem-snoc x i s.queue, find-put x i e s.cs_map, t.same x);
  once = snoc-Distinct i s.queue (t.once) (ground (arith, t.same i));
  counted = omega (arith, t.counted, snoc-length i s.queue);
  located = λ x. ground (arith, mem-snoc x i s.queue, mem-insert x i s.locations, t.located x);
}

touched-located :
    (i x : ℕ) (q l l' : List ℕ)
    → l' ≡ l
    → (mem x q ≡ false) ⊎ (mem x l ≡ true)
    → (mem x (delete i q ++ i ∷ []) ≡ false) ⊎ (mem x (insert i l') ≡ true)
touched-located i x q l l' e h =
    rw (e) (ground (arith, mem-snoc x i (delete i q), mem-delete x i q, mem-insert x i l, h))

-- An index in use moves to the end of the queue.
pub touch-IsStored :
    (i : ℕ) (s s' : ContentStore)
    → IsStored s s.queue
    → mem i s.queue ≡ true
    → ((x : ℕ) → is_some (find x s'.cs_map) ≡ is_some (find x s.cs_map))
    → s'.n_cs_entries ≡ s.n_cs_entries
    → s'.queue ≡ s.queue
    → s'.locations ≡ s.locations
    → IsStored (after_refresh i s') (after_refresh i s').queue
      × (length (after_refresh i s').queue ≡ length s.queue)
unfolding after_refresh
touch-IsStored i s s' t m k c q l =
    let here : mem i s'.locations ≡ true = ground (arith, t.located i) in
    let moved : (if mem i s'.locations then delete i s'.queue else s'.queue) ≡ delete i s.queue =
      rw (here, q) refl in
    subst
      (λ r.
        IsStored (with_queue (r ++ i ∷ []) (insert i s'.locations) s') (r ++ i ∷ [])
        × (length (r ++ i ∷ []) ≡ length s.queue))
      (sym moved)
      (
        record {
          same = λ x.
              ground
                (arith, mem-snoc x i (delete i s.queue), mem-delete x i s.queue, k x, t.same x);
          once =
              snoc-Distinct i (delete i s.queue) (delete-Distinct i s.queue (t.once))
                (ground (arith, mem-delete i i s.queue));
          counted = omega (
            arith,
            c,
            t.counted,
            snoc-length i (delete i s.queue),
            length-delete i s.queue (t.once) m,
          );
          located = λ x. touched-located i x s.queue s.locations s'.locations l (t.located x);
        },
        omega (arith, snoc-length i (delete i s.queue), length-delete i s.queue (t.once) m),
      )

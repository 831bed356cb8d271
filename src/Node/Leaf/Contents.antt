-- ===== src/Node/Leaf/Contents.antt =====
-- `LeafNode::search` and `insert` of src/node.rs beside `lookup`, `put` and `delete`.
use b_link.Prelude.{
  inl, inr, ◌⊎◌, ℕ, ◌≤◌, ◌<◌, ◌≡◌, refl, true, not, none, some, List, [], ◌∷◌, arith, ltb, leb,
  is_some, length, get_elem?, set, insert_idx, erase_idx, ok,
}
use b_link.Ord.{Ord, Ordering-cases, ◌≺◌, ◌≈◌}
use b_link.Node.{Entry, LeafNode}
use b_link.Node.Leaf.{
  SearchResult, found, absent, next_index, search_entries, search, insert_at, insert,
}
use b_link.Records.{lookup, put, delete, IsSorted}
use b_link.Records.Laws.{lookup-After, delete-After, All-After_trans}

module _ {K V : Type 0} ⦃o : Ord K⦄ where
  -- What a search result says of the records.
  abbrev pub Answers : List (Entry K V) → K → SearchResult → Type 0
  Answers es k (found i) =
      (e : Entry K V) × (get_elem? es i ≡ some e)
      × (e.key ≈ k)
      × (lookup es k ≡ some e.value)
      × ((v : V) → set es i (record e { value = v }) ≡ put es k v)
      × (erase_idx es i ≡ delete es k)
      × (i < length es)
  Answers es k (absent i) =
      (i ≤ length es)
      × (lookup es k ≡ none)
      × ((v : V) → insert_idx es i (record { key = k; value = v }) ≡ put es k v)
      × (delete es k ≡ es)

  next-Answers :
      (e : Entry K V) (es : List (Entry K V)) (k : K) (r : SearchResult)
      → e.key ≺ k
      → Answers es k r
      → Answers (e ∷ es) k (next_index r)
  unfolding lookup put delete
  next-Answers e es k (found i) h (x, at, same, value, sets, erases, inside) =
      (x, at, same, ground arith, λ v. ground (arith, sets v), ground arith, omega arith)
  next-Answers e es k (absent i) h (inside, value, inserts, deletes) =
      (omega arith, ground arith, λ v. ground (arith, inserts v), ground arith)

  -- The search finds the record of the key, or the place where it belongs.
  pub search_entries-Answers :
      (es : List (Entry K V)) (k : K) → IsSorted es → Answers es k (search_entries es k)
  unfolding search_entries lookup put delete
  search_entries-Answers [] k s = (omega arith, refl, λ v. refl, refl)
  search_entries-Answers (e ∷ es) k s = elim (Ordering-cases (o.cmp e.key k)) [
    | inl h ↦ rw (h, search_entries) (next-Answers e es k _ h (search_entries-Answers es k s.1))
    | inr (inl h) ↦
        rw (h, search_entries)
          (e, refl, h, ground arith, λ v. ground arith, ground arith, omega arith)
    | inr (inr h) ↦
        rw (h, search_entries)
          (let above = All-After_trans es k e.key (ground (arith, o.cmp_swap e.key k)) s.0 in
            (
              omega arith,
              ground (arith, lookup-After es k above),
              λ v. ground arith,
              ground (arith, delete-After es k above),
            ))
  ]

  -- `insert` on a leaf in order replaces the value of a key that is there, and keeps its number of
  -- records; a new key is added in its place, if the leaf is not full.
  pub insert-put :
      (n : ℕ) (node : LeafNode K V) (k : K) (v : V)
      → IsSorted node.entries
      → (is_some (lookup node.entries k) ≡ true) ⊎ (length node.entries < n)
      → insert n node k v
        ≡ ok (
          lookup node.entries k,
          not (is_some (lookup node.entries k)),
          record { entries = put node.entries k v },
        )
  unfolding insert search
  insert-put n node k v s room =
      go (search_entries node.entries k) (search_entries-Answers node.entries k s)
    where
      go :
          (r : SearchResult)
          → Answers node.entries k r
          → insert_at n node k v r
            ≡ ok (
              lookup node.entries k,
              not (is_some (lookup node.entries k)),
              record { entries = put node.entries k v },
            )
      go (found i) (e, at, same, value, sets, erases, inside) = rw (at, value, sets v)
      go (absent i) (inside, none_there, inserts, deletes) =
          let fits : leb i (length node.entries) ≡ true = ground arith in
          let open_slot : ltb (length node.entries) n ≡ true = ground arith in
          rw (fits, open_slot, none_there, inserts v)

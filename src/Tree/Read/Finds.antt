-- ===== src/Tree/Read/Finds.antt =====
-- The index at which `entry_at_or_after` of src/node.rs reads a leaf.
use b_link.Prelude.{
  ℕ, suc, ◌≤◌, ◌≡◌, refl, ◌⊎◌, inl, inr, Bool, true, false, none, some, List, [], ◌∷◌, arith,
  length, get_elem?,
}
use b_link.Ord.{Ord, ◌≺◌, ◌≈◌, Ordering-cases, cmp_refl}
use b_link.Bound.{Bound, included, excluded, start_at, AfterStart, AfterStart-lt}
use b_link.Node.{Entry}
use b_link.Node.Leaf.{SearchResult, found, absent, next_index, search_entries}
use b_link.Records.{lookup, IsSorted}
use b_link.Records.Laws.{lookup-After, All-After_trans}
use b_link.Tree.Read.{index_after}

index_after-next :
    (inclusive : Bool) (r : SearchResult)
    → index_after inclusive (next_index r) ≡ suc (index_after inclusive r)
unfolding index_after
index_after-next true (found i) = refl
index_after-next false (found i) = omega arith
index_after-next true (absent i) = refl
index_after-next false (absent i) = refl

module _ {K V : Type 0} ⦃o : Ord K⦄ where
  -- The record at an index is the least one after a start, or no record is after it.
  abbrev pub Finds : List (Entry K V) → Bound K → ℕ → Type 0
  Finds es start i =
      ((e : Entry K V) × (get_elem? es i ≡ some e)
        × AfterStart start e.key
        × ((j : K) → AfterStart start j → j ≺ e.key → lookup es j ≡ none))
      ⊎ ((length es ≤ i) × ((j : K) → AfterStart start j → lookup es j ≡ none))

  cons-Finds :
      (x : Entry K V) (es : List (Entry K V)) (start : Bound K) (i : ℕ)
      → ((j : K) → AfterStart start j → x.key ≺ j)
      → Finds es start i
      → Finds (x ∷ es) start (suc i)
  unfolding lookup
  cons-Finds x es start i above (inl (e, at, after, least)) =
      inl (e, at, after, λ j h less. let below = above j h in ground (arith, least j h less))
  cons-Finds x es start i above (inr (over, empty)) =
      inr (omega arith, λ j h. let below = above j h in ground (arith, empty j h))

  -- No record of a list in order is between the start and the first record.
  lookup-head :
      (x : Entry K V) (es : List (Entry K V)) (j : K)
      → IsSorted (x ∷ es)
      → j ≺ x.key
      → lookup (x ∷ es) j ≡ none
  lookup-head x es j s less = lookup-After (x ∷ es) j (less, All-After_trans es j x.key less s.0)

  head-Finds :
      (x : Entry K V) (es : List (Entry K V)) (start : Bound K)
      → IsSorted (x ∷ es)
      → AfterStart start x.key
      → Finds (x ∷ es) start 0
  head-Finds x es start s after = inl (x, refl, after, λ j h less. lookup-head x es j s less)

  -- Strictly after the first record comes the second.
  tail-Finds :
      (x : Entry K V) (es : List (Entry K V)) (k : K)
      → x.key ≈ k
      → IsSorted (x ∷ es)
      → Finds (x ∷ es) (excluded k) 1
  unfolding lookup
  tail-Finds x [] k same s = inr (omega arith, λ j h. ground (arith, o.cmp_congr x.key k j))
  tail-Finds x (y ∷ es) k same s =
      cons-Finds x (y ∷ es) (excluded k) 0 (λ j h. ground (arith, o.cmp_congr x.key k j))
        (head-Finds y es (excluded k) s.1 (ground (arith, o.cmp_congr x.key k y.key, s.0.0)))

  equal-Finds :
      (x : Entry K V) (es : List (Entry K V)) (k : K) (inclusive : Bool)
      → x.key ≈ k
      → IsSorted (x ∷ es)
      → Finds (x ∷ es) (start_at k inclusive) (index_after inclusive (found 0))
  unfolding index_after
  equal-Finds x es k true same s =
      head-Finds x es (included k) s (ground (arith, o.cmp_congr x.key k x.key, cmp_refl x.key))
  equal-Finds x es k false same s = tail-Finds x es k same s

  absent-Finds :
      (x : Entry K V) (es : List (Entry K V)) (k : K) (inclusive : Bool)
      → k ≺ x.key
      → IsSorted (x ∷ es)
      → Finds (x ∷ es) (start_at k inclusive) (index_after inclusive (absent 0))
  unfolding index_after
  absent-Finds x es k true less s =
      head-Finds x es (included k) s (ground (arith, o.cmp_swap k x.key))
  absent-Finds x es k false less s = head-Finds x es (excluded k) s less

  pub search-Finds :
      (es : List (Entry K V)) (k : K) (inclusive : Bool)
      → IsSorted es
      → Finds es (start_at k inclusive) (index_after inclusive (search_entries es k))
  unfolding search_entries lookup index_after
  search-Finds [] k true s = inr (omega arith, λ j h. refl)
  search-Finds [] k false s = inr (omega arith, λ j h. refl)
  search-Finds (x ∷ es) k inclusive s = elim (Ordering-cases (o.cmp x.key k)) [
    | inl h ↦
        rw (h, search_entries, index_after-next inclusive (search_entries es k))
          (cons-Finds x es (start_at k inclusive) _ (λ j. AfterStart-lt x.key k j inclusive h)
            (search-Finds es k inclusive s.1))
    | inr (inl h) ↦ rw (h, search_entries) (equal-Finds x es k inclusive h s)
    | inr (inr h) ↦
        rw (h, search_entries)
          (absent-Finds x es k inclusive (ground (arith, o.cmp_swap x.key k)) s)
  ]

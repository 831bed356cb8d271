-- ===== src/Node/Leaf.antt =====
-- src/node.rs: the search and the insertion in one leaf.
pub mod Contents
use Prim.Native.Nat.Ordering.{lt, eq, gt}
use b_link.Prelude.{ℕ, suc, Bool, true, false, Option, none, some, List, [], ◌∷◌, Run, ok, ◌>>=◌}
use b_link.Ord.{Ord}
use b_link.Array.Bounded
use b_link.Node.{Entry, LeafNode}

-- The `Result<usize, usize>` of a binary search: the index of the key, or where it belongs.
pub data SearchResult : Type 0 where
  found absent : ℕ → SearchResult

abbrev pub next_index : SearchResult → SearchResult
next_index (found i) = found (suc i)
next_index (absent i) = absent (suc i)

module _ {K V : Type 0} ⦃o : Ord K⦄ where
  -- `binary_search_by` of a slice whose keys ascend: the first entry that is not below the key.
  unfoldable pub search_entries : List (Entry K V) → K → SearchResult
  search_entries [] key = absent 0
  search_entries (entry ∷ entries) key = elim (o.cmp entry.key key) [
    | lt ↦ next_index (search_entries entries key)
    | eq ↦ found 0
    | gt ↦ absent 0
  ]

  unfoldable pub search : LeafNode K V → K → SearchResult
  unfolding search_entries
  search node key = search_entries node.entries key

  unfoldable pub insert_at :
      ℕ → LeafNode K V → K → V → SearchResult → Run (Option V × Bool × LeafNode K V)
  insert_at n node key value (found index) = do
    entry ← Bounded.index node.entries index
    (_, entries) ← Bounded.replace node.entries index (record entry { value = value })
    ok (some entry.value, false, record { entries = entries })
  insert_at n node key value (absent index) = do
    entries ← Bounded.insert n node.entries index (record { key = key; value = value })
    ok (none, true, record { entries = entries })

  -- The value that was replaced, whether a record was added, and the new leaf.
  unfoldable pub insert : ℕ → LeafNode K V → K → V → Run (Option V × Bool × LeafNode K V)
  unfolding insert_at search Bounded.index Bounded.replace Bounded.insert
  insert n node key value = insert_at n node key value (search node key)

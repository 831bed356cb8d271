-- ===== src/Node/Rebalance.antt =====
-- src/node.rs: `borrow_from_left`, `borrow_from_right` and `merge_left_into_right`.
use b_link.Prelude.{
  ℕ, ◌+◌, none, some, leb, ◌==◌, length, Run, ok, panic, ◌>>=◌, ◌>>◌, assert, expect,
}
use b_link.Array.Bounded
use b_link.Node.{Addr, InternalNode, NodeKind, internal, leaf, redirect, Node, MergeRepair}

module _ {K V : Type 0} where
  -- The new parent, left and right kinds and the new boundary.
  unfoldable pub lend_right :
      (n : ℕ)
      → InternalNode K
      → ℕ
      → NodeKind K V
      → NodeKind K V
      → Run (InternalNode K × NodeKind K V × NodeKind K V × K)
  lend_right n parent separator_index (leaf left) (leaf right) = do
    let (popped, left_entries) = Bounded.pop left.entries
    entry ← expect popped
    right_entries ← Bounded.insert n right.entries 0 entry
    (_, keys) ← Bounded.replace parent.keys separator_index entry.key
    ok (
      record parent { keys = keys },
      leaf (record { entries = left_entries }),
      leaf (record { entries = right_entries }),
      entry.key,
    )
  lend_right n parent separator_index (internal left) (internal right) = do
    let (popped, left_keys) = Bounded.pop left.keys
    boundary ← expect popped
    (old_parent, keys) ← Bounded.replace parent.keys separator_index boundary
    let (popped_child, left_children) = Bounded.pop left.children
    child ← expect popped_child
    right_keys ← Bounded.insert n right.keys 0 old_parent
    right_children ← Bounded.insert (n + 1) right.children 0 child
    ok (
      record parent { keys = keys },
      internal (record { keys = left_keys; children = left_children }),
      internal (record { keys = right_keys; children = right_children }),
      boundary,
    )
  lend_right n parent separator_index left right = panic

  unfoldable pub borrow_from_left :
      (n : ℕ)
      → InternalNode K
      → ℕ
      → Node K V
      → Node K V
      → Run (InternalNode K × Node K V × Node K V)
  unfolding lend_right Bounded.pop Bounded.insert Bounded.replace
  borrow_from_left n parent separator_index left right = do
    (parent, left_kind, right_kind, boundary) ←
        lend_right n parent separator_index left.kind right.kind
    ok (
      parent,
      record left { high_key = some boundary; kind = left_kind },
      record right { low_key = some boundary; kind = right_kind },
    )

  unfoldable pub lend_left :
      (n : ℕ)
      → InternalNode K
      → ℕ
      → NodeKind K V
      → NodeKind K V
      → Run (InternalNode K × NodeKind K V × NodeKind K V × K)
  lend_left n parent separator_index (leaf left) (leaf right) = do
    (entry, right_entries) ← Bounded.remove right.entries 0
    left_entries ← Bounded.push n left.entries entry
    first ← expect (Bounded.first right_entries)
    (_, keys) ← Bounded.replace parent.keys separator_index first.key
    ok (
      record parent { keys = keys },
      leaf (record { entries = left_entries }),
      leaf (record { entries = right_entries }),
      first.key,
    )
  lend_left n parent separator_index (internal left) (internal right) = do
    (boundary, right_keys) ← Bounded.remove right.keys 0
    (old_parent, keys) ← Bounded.replace parent.keys separator_index boundary
    (child, right_children) ← Bounded.remove right.children 0
    left_keys ← Bounded.push n left.keys old_parent
    left_children ← Bounded.push (n + 1) left.children child
    ok (
      record parent { keys = keys },
      internal (record { keys = left_keys; children = left_children }),
      internal (record { keys = right_keys; children = right_children }),
      boundary,
    )
  lend_left n parent separator_index left right = panic

  unfoldable pub borrow_from_right :
      (n : ℕ)
      → InternalNode K
      → ℕ
      → Node K V
      → Node K V
      → Run (InternalNode K × Node K V × Node K V)
  unfolding lend_left Bounded.first Bounded.remove Bounded.push Bounded.replace
  borrow_from_right n parent separator_index left right = do
    (parent, left_kind, right_kind, boundary) ←
        lend_left n parent separator_index left.kind right.kind
    ok (
      parent,
      record left { high_key = some boundary; kind = left_kind },
      record right { low_key = some boundary; kind = right_kind },
    )

  -- The contents of the surviving right page.
  unfoldable pub merged_kind : (n : ℕ) → K → NodeKind K V → NodeKind K V → Run (NodeKind K V)
  merged_kind n separator (leaf left) (leaf right) = do
    assert (leb (length left.entries + length right.entries) n)
    (entries, _) ← Bounded.prepend_from n right.entries left.entries
    ok (leaf (record { entries = entries }))
  merged_kind n separator (internal left) (internal right) = do
    assert (leb (length left.keys + 1 + length right.keys) n)
    keys ← Bounded.insert n right.keys 0 separator
    (keys, _) ← Bounded.prepend_from n keys left.keys
    (children, _) ← Bounded.prepend_from (n + 1) right.children left.children
    ok (internal (record { keys = keys; children = children }))
  merged_kind n separator left right = panic

  unfoldable pub merge_left_into_right :
      (n : ℕ)
      → InternalNode K
      → ℕ
      → (left_ref : Addr) → Node K V
      → (right_ref : Addr) → Node K V
      → Run (InternalNode K × Node K V × Node K V × MergeRepair)
  unfolding merged_kind Bounded.index Bounded.remove Bounded.prepend_from Bounded.insert
  merge_left_into_right n parent left_index left_ref left right_ref right = do
    left_child ← Bounded.index parent.children left_index
    assert (left_child == left_ref)
    right_child ← Bounded.index parent.children (left_index + 1)
    assert (right_child == right_ref)
    (separator, keys) ← Bounded.remove parent.keys left_index
    (removed_child, children) ← Bounded.remove parent.children left_index
    assert (removed_child == left_ref)
    right_kind ← merged_kind n separator left.kind right.kind
    ok (
      record { keys = keys; children = children },
      record left { low_key = none; kind = redirect right_ref },
      record right { low_key = left.low_key; previous = left.previous; kind = right_kind },
      record { predecessor = left.previous; retired = left_ref; survivor = right_ref },
    )

-- ===== src/Node/Splitting.antt =====
-- src/node.rs: `split_full` and `insert_split`, which together split a full page under its parent.
use b_link.Prelude.{
  ℕ, ◌+◌, ◌/◌, false, some, ltb, ◌==◌, length, Run, ok, panic, ◌>>=◌, ◌>>◌, assert, expect,
}
use b_link.Array.Bounded
use b_link.Node.{Addr, InternalNode, NodeKind, internal, leaf, redirect, Node, Split, occupancy}

module _ {K V : Type 0} where
  -- The page that keeps the lower half, the new page for the upper half, which is to be stored at
  -- `fresh`, and the split.
  unfoldable pub split_kind : (n : ℕ) → NodeKind K V → Run (K × NodeKind K V × NodeKind K V)
  split_kind n (leaf node) = do
    (kept, right_entries) ← Bounded.split_off node.entries (n / 2)
    first ← expect (Bounded.first right_entries)
    ok (first.key, leaf (record { entries = kept }), leaf (record { entries = right_entries }))
  split_kind n (internal node) = do
    let middle = n / 2
    (separator, keys) ← Bounded.remove node.keys middle
    (left_keys, right_keys) ← Bounded.split_off keys middle
    (left_children, right_children) ← Bounded.split_off node.children (middle + 1)
    assert (length left_children == length left_keys + 1)
    assert (length right_children == length right_keys + 1)
    ok (
      separator,
      internal (record { keys = left_keys; children = left_children }),
      internal (record { keys = right_keys; children = right_children }),
    )
  split_kind n (redirect target) = panic

  unfoldable pub split_full :
      (n : ℕ) → (left_ref fresh : Addr) → Node K V → Run (Node K V × Node K V × Split K)
  unfolding split_kind occupancy Bounded.split_off Bounded.first Bounded.remove
  split_full n left_ref fresh node = do
    assert (occupancy node.kind == n)
    (separator, left_kind, right_kind) ← split_kind n node.kind
    ok (
      record node { high_key = some separator; right = some fresh; kind = left_kind },
      record {
        is_root = false;
        low_key = some separator;
        high_key = node.high_key;
        previous = some left_ref;
        right = node.right;
        kind = right_kind;
      },
      record { separator = separator; right = fresh; old_successor = node.right },
    )

module _ {K : Type 0} where
  unfoldable pub insert_split : ℕ → InternalNode K → ℕ → K → Addr → Run (InternalNode K)
  unfolding Bounded.insert
  insert_split n node child_index separator right = do
    assert (ltb (length node.keys) n)
    assert (length node.children == length node.keys + 1)
    assert (ltb child_index (length node.children))
    keys ← Bounded.insert n node.keys child_index separator
    children ← Bounded.insert (n + 1) node.children (child_index + 1) right
    ok (record { keys = keys; children = children })

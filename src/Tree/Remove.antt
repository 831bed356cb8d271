-- ===== src/Tree/Remove.antt =====
-- src/node.rs: the critical sections of `Tree::remove`.
pub mod Linear
pub mod Collapse
pub mod Collapsed
pub mod Loan
pub mod Merge
pub mod Parent
pub mod Siblings
pub mod Lent
pub mod Survivor
pub mod Rebalance
pub mod Attempt
mod Tests
use b_link.Prelude.{
  ℕ, suc, zero, ◌+◌, ◌-◌, ◌/◌, Bool, true, false, not, ◌&&◌, ◌||◌, Option, none, some, List, [],
  ◌∷◌, ltb, leb, ◌==◌, if◌then◌else◌, length, Run, ok, panic, undefined, ◌>>=◌, ◌>>◌, assert,
}
use b_link.Ord.{Ord}
use b_link.Array.Bounded
use b_link.Node.{
  Addr, Entry, InternalNode, LeafNode, NodeKind, internal, leaf, redirect, Node, MergeRepair, Route,
  restart, to_right, here, is_redirect, occupancy, minimum, route,
}
use b_link.Node.Search.{child_index}
use b_link.Node.Leaf
use b_link.Node.Leaf.{SearchResult, found, absent}
use b_link.Node.Rebalance.{borrow_from_left, borrow_from_right, merge_left_into_right}
use b_link.Tree.{Tree, load, store}

pub data FastRemove (V : Type 0) : Type 0 where
  done : Option V → FastRemove V
  structural : FastRemove V

-- How a round of the loop of `remove_attempt` ends: with a `RemoveAttempt`, or at the next page,
-- with the link that is to be repaired first.
pub data RemoveRound (V : Type 0) : Type 0 where
  finished : Option V → RemoveRound V
  retry : RemoveRound V
  descend : (target : Addr) → (repair : Option MergeRepair) → RemoveRound V

-- Which of the two `try_write_node` calls got their latch.
pub record Latches : Type 0 where
  pub first : Bool
  pub second : Bool

module _ {K V : Type 0} ⦃o : Ord K⦄ where
  -- `decrement_len`, with its `debug_assert!`, after the record at `index` is removed.
  unfoldable pub remove_record :
      Tree K V → Addr → Node K V → LeafNode K V → (index : ℕ) → Run (Tree K V × Option V)
  unfolding Bounded.remove
  remove_record t a node contents index = do
    (entry, entries) ← Bounded.remove contents.entries index
    assert (ltb 0 t.len)
    let t' = store t a (record node { kind = leaf (record { entries = entries }) })
    ok (record t' { len = t.len - 1 }, some entry.value)

  fast_at :
      ℕ → Tree K V → Addr → Node K V → LeafNode K V → SearchResult → Run (Tree K V × FastRemove V)
  fast_at n t a node contents (absent index) = ok (t, done none)
  fast_at n t a node contents (found index) =
      if not node.is_root && leb (length contents.entries) (n / 2)
      then ok (t, structural)
      else (do (t, removed) ← remove_record t a node contents index; ok (t, done removed))

  -- The rest of `try_remove_without_rebalance`, once `leaf_write_for` has latched the leaf `a`.
  unfoldable pub try_remove_without_rebalance :
      ℕ → Tree K V → Addr → Node K V → LeafNode K V → K → Run (Tree K V × FastRemove V)
  unfolding fast_at Leaf.search remove_record
  try_remove_without_rebalance n t a node contents key =
      fast_at n t a node contents (Leaf.search contents key)

  -- The pair of children that `remove_attempt` latches from left to right, and what it does there:
  -- the child in need of a record borrows from its sibling or is merged with it.
  unfoldable pub rebalance :
      ℕ
      → Tree K V
      → Addr
      → Node K V
      → InternalNode K
      → (left_index : ℕ) → (left_ref : Addr) → Node K V
      → (right_ref : Addr) → Node K V
      → (child_is_left : Bool) → Run (Tree K V × RemoveRound V)
  rebalance n t a node contents left_index left_ref left right_ref right false =
      if leb (occupancy right.kind) (minimum n right.kind)
      then (if ltb (minimum n left.kind) (occupancy left.kind)
          then (do
            (contents, left, right) ← borrow_from_left n contents left_index left right
            let t' = store (store t left_ref left) right_ref right
            ok (store t' a (record node { kind = internal contents }), descend right_ref none))
          else (do
            (contents, left, right, repair) ←
                merge_left_into_right n contents left_index left_ref left right_ref right
            let t' = store (store t left_ref left) right_ref right
            ok (
              store t' a (record node { kind = internal contents }),
              descend right_ref (some repair),
            )))
      else ok (t, descend right_ref none)
  rebalance n t a node contents left_index left_ref left right_ref right true =
      if leb (occupancy left.kind) (minimum n left.kind)
      then (if ltb (minimum n right.kind) (occupancy right.kind)
          then (do
            (contents, left, right) ← borrow_from_right n contents left_index left right
            let t' = store (store t left_ref left) right_ref right
            ok (store t' a (record node { kind = internal contents }), descend left_ref none))
          else (do
            (contents, left, right, repair) ←
                merge_left_into_right n contents left_index left_ref left right_ref right
            let t' = store (store t left_ref left) right_ref right
            ok (
              store t' a (record node { kind = internal contents }),
              descend right_ref (some repair),
            )))
      else ok (t, descend left_ref none)

  -- The child at `left_index`, or the one at its right, and the sibling that it is paired with.
  unfoldable pub remove_pair :
      ℕ
      → Tree K V
      → Latches
      → Addr
      → Node K V
      → InternalNode K
      → (left_index : ℕ) → (child_is_left : Bool) → Run (Tree K V × RemoveRound V)
  remove_pair n t latches a node contents left_index child_is_left = do
    left_ref ← Bounded.index contents.children left_index
    right_ref ← Bounded.index contents.children (left_index + 1)
    left ← load t left_ref
    right ← load t right_ref
    if not (latches.first && latches.second) || (is_redirect left.kind || is_redirect right.kind)
        then ok (t, retry)
        else rebalance n t a node contents left_index left_ref left right_ref right child_is_left

  unfoldable pub remove_child :
      ℕ
      → Tree K V
      → Latches
      → Addr
      → Node K V
      → InternalNode K
      → (child_index : ℕ) → Run (Tree K V × RemoveRound V)
  remove_child n t latches a node contents (suc i) = remove_pair n t latches a node contents i false
  remove_child n t latches a node contents zero =
      if ltb (length contents.children) 2
      then ok (t, retry)
      else remove_pair n t latches a node contents 0 true

  unfoldable pub remove_at :
      Tree K V → Addr → Node K V → LeafNode K V → SearchResult → Run (Tree K V × RemoveRound V)
  remove_at t a node contents (absent index) = ok (t, finished none)
  remove_at t a node contents (found index) = do
    (t, removed) ← remove_record t a node contents index
    ok (t, finished removed)

  unfoldable pub attempt_kind :
      ℕ → Tree K V → Latches → Addr → Node K V → NodeKind K V → K → Run (Tree K V × RemoveRound V)
  attempt_kind n t latches a node (leaf contents) key =
      remove_at t a node contents (Leaf.search contents key)
  attempt_kind n t latches a node (internal contents) key = do
    i ← child_index contents key
    remove_child n t latches a node contents i
  attempt_kind n t latches a node (redirect target) key = panic

  unfoldable pub attempt_route :
      ℕ → Tree K V → Latches → Addr → Node K V → K → Route → Run (Tree K V × RemoveRound V)
  attempt_route n t latches a node key restart = ok (t, retry)
  attempt_route n t latches a node key (to_right next) = ok (t, descend next none)
  attempt_route n t latches a node key here =
      if not node.is_root && leb (occupancy node.kind) (minimum n node.kind)
      then ok (t, retry)
      else attempt_kind n t latches a node node.kind key

  -- One round of the loop of `remove_attempt`, at the page `a`.
  unfoldable pub remove_attempt : ℕ → Tree K V → Latches → Addr → K → Run (Tree K V × RemoveRound V)
  unfolding attempt_route attempt_kind remove_at remove_child remove_pair rebalance remove_record
      route occupancy minimum child_index Leaf.search borrow_from_left borrow_from_right
      merge_left_into_right Bounded.index
  remove_attempt n t latches a key = do
    node ← load t a
    r ← route node key
    attempt_route n t latches a node key r

module _ {K V : Type 0} where
  collapse_into : Tree K V → Node K V → Addr → Run (Tree K V × Bool)
  collapse_into t root child = do
    node ← load t child
    let promoted : Node K V = record node {
      low_key = none;
      high_key = none;
      previous = none;
      right = none;
      is_root = true;
    }
    let retired : Node K V = record {
      is_root = false;
      kind = redirect child;
      low_key = none;
      high_key = none;
      previous = none;
      right = none;
    }
    ok (record (store (store t child promoted) t.root retired) { root = child }, true)

  collapse_kind : Tree K V → Node K V → NodeKind K V → Run (Tree K V × Bool)
  collapse_kind t root (internal contents) =
      if length contents.keys == 0
      then (do
        assert (length contents.children == 1)
        child ← Bounded.index contents.children 0
        collapse_into t root child)
      else ok (t, false)
  collapse_kind t root (redirect target) = collapse_into t root target
  collapse_kind t root (leaf contents) = ok (t, false)

  -- One round of `shrink_root`, under the latches of the root slot, the root and its only child:
  -- the new state, and whether the loop goes on.
  unfoldable pub shrink_root : Tree K V → Run (Tree K V × Bool)
  unfolding collapse_kind collapse_into Bounded.index
  shrink_root t = do root ← load t t.root; collapse_kind t root root.kind

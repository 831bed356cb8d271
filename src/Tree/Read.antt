-- ===== src/Tree/Read.antt =====
-- src/node.rs: the reading calls of the tree, while no other thread writes: `get`, the first, the
-- last and the next record, and the height. A record is named by its leaf and its index. Each loop
-- is given a number of rounds.
pub mod Arrival
pub mod Finds
pub mod Seek
pub mod After
pub mod Down
pub mod Ends
pub mod Mut
use Prim.Native.Nat.Ordering.{lt, eq, gt}
use b_link.Prelude.{
  ℕ, zero, suc, ◌+◌, ◌-◌, Bool, true, false, Option, none, some, List, [], ◌∷◌, ltb, ◌==◌,
  if◌then◌else◌, length, get_elem?, Run, ok, panic, out_of_fuel, ◌>>=◌, expect,
}
use b_link.Ord.{Ord}
use b_link.Array.Bounded
use b_link.Node.{
  Addr, Entry, InternalNode, LeafNode, NodeKind, internal, leaf, redirect, Node, Route, here, route,
}
use b_link.Node.Leaf
use b_link.Node.Leaf.{SearchResult, found, absent}
use b_link.Tree.{Tree, load, leaf_read_for}

-- How a round of a loop over leaves ends: with a result, or at the next page.
pub data Round : Type 0 where
  result : Option (Addr × ℕ) → Round
  next_leaf : Addr → Round

next_of : Option Addr → Round
next_of none = result none
next_of (some b) = next_leaf b

index_of : SearchResult → Option ℕ
index_of (found i) = some i
index_of (absent i) = none

unfoldable pub index_after : Bool → SearchResult → ℕ
index_after true (found i) = i
index_after false (found i) = i + 1
index_after inclusive (absent i) = i

module _ {K V : Type 0} where
  -- One round of `leftmost_leaf`: the next page, or none at a leaf.
  left_child : NodeKind K V → Run (Option Addr)
  left_child (internal contents) = do child ← Bounded.index contents.children 0; ok (some child)
  left_child (leaf contents) = ok none
  left_child (redirect target) = ok (some target)

  unfoldable pub leftmost_leaf : ℕ → Tree K V → Addr → Run Addr
  unfolding left_child Bounded.index
  leftmost_leaf zero t a = out_of_fuel
  leftmost_leaf (suc rounds) t a = do
    node ← load t a
    next ← left_child node.kind
    elim next [ none ↦ ok a | some b ↦ leftmost_leaf rounds t b ]

  -- One round of `rightmost_leaf`: the next page, or none at a leaf without a right link.
  right_child : Node K V → NodeKind K V → Run (Option Addr)
  right_child node (internal contents) = do
    child ← expect (Bounded.last contents.children)
    ok (some child)
  right_child node (leaf contents) = ok node.right
  right_child node (redirect target) = ok (some target)

  unfoldable pub rightmost_leaf : ℕ → Tree K V → Addr → Run Addr
  unfolding right_child Bounded.last
  rightmost_leaf zero t a = out_of_fuel
  rightmost_leaf (suc rounds) t a = do
    node ← load t a
    next ← right_child node node.kind
    elim next [ none ↦ ok a | some b ↦ rightmost_leaf rounds t b ]

  -- The number of levels, from `height` counted at the page `a` on.
  height_child : NodeKind K V → Run (Option (ℕ × Addr))
  height_child (internal contents) = do
    child ← Bounded.index contents.children 0
    ok (some (1, child))
  height_child (leaf contents) = ok none
  height_child (redirect target) = ok (some (0, target))

  unfoldable pub height : ℕ → Tree K V → Addr → ℕ → Run ℕ
  unfolding height_child Bounded.index
  height zero t a levels = out_of_fuel
  height (suc rounds) t a levels = do
    node ← load t a
    next ← height_child node.kind
    elim next [ none ↦ ok levels | some (more, b) ↦ height rounds t b (levels + more) ]

  -- One round of the loop of `first_entry`.
  first_round : Addr → Node K V → NodeKind K V → Run Round
  first_round a node (leaf contents) =
      ok (if length contents.entries == 0 then next_of node.right else result (some (a, 0)))
  first_round a node (redirect target) = ok (next_leaf target)
  first_round a node (internal contents) = panic

  first_from : ℕ → Tree K V → Addr → Run (Option (Addr × ℕ))
  unfolding first_round next_of
  first_from zero t a = out_of_fuel
  first_from (suc rounds) t a = do
    node ← load t a
    r ← first_round a node node.kind
    elim r [ result entry ↦ ok entry | next_leaf b ↦ first_from rounds t b ]

  unfoldable pub first_entry : ℕ → Tree K V → Run (Option (Addr × ℕ))
  unfolding first_from leftmost_leaf
  first_entry rounds t = do a ← leftmost_leaf rounds t t.root; first_from rounds t a

  -- One round of the loop of `last_entry`.
  last_round : Addr → NodeKind K V → Run Round
  last_round a (leaf contents) = ok (
      result (if length contents.entries == 0 then none else some (a, length contents.entries - 1)))
  last_round a (redirect target) = ok (next_leaf target)
  last_round a (internal contents) = panic

  last_from : ℕ → Tree K V → Addr → Run (Option (Addr × ℕ))
  unfolding last_round
  last_from zero t a = out_of_fuel
  last_from (suc rounds) t a = do
    node ← load t a
    r ← last_round a node.kind
    elim r [ result entry ↦ ok entry | next_leaf b ↦ last_from rounds t b ]

  unfoldable pub last_entry : ℕ → Tree K V → Run (Option (Addr × ℕ))
  unfolding last_from rightmost_leaf
  last_entry rounds t = do a ← rightmost_leaf rounds t t.root; last_from rounds t a

module _ {K V : Type 0} ⦃o : Ord K⦄ where
  keeps_latch : NodeKind K V → Route → Bool
  keeps_latch (leaf contents) here = true
  keeps_latch kind r = false

  get_kind : Addr → NodeKind K V → K → Run (Option (Addr × ℕ))
  get_kind a (leaf contents) key =
      ok (elim (index_of (Leaf.search contents key)) [ none ↦ none | some i ↦ some (a, i) ])
  get_kind a kind key = panic

  -- The leaf and the index of the key's record.
  unfoldable pub get : ℕ → Tree K V → K → Run (Option (Addr × ℕ))
  unfolding index_of get_kind Leaf.search leaf_read_for
  get rounds t key = do
    a ← leaf_read_for rounds t key t.root
    node ← load t a
    get_kind a node.kind key

  -- `leaf_write_for`: a leaf of `leaf_read_for` that still owns the key under the write latch.
  leaf_write_for : ℕ → Tree K V → K → Run Addr
  unfolding route
  leaf_write_for zero t key = out_of_fuel
  leaf_write_for (suc rounds) t key = do
    a ← leaf_read_for (suc rounds) t key t.root
    node ← load t a
    r ← route node key
    elim (keeps_latch node.kind r) [ true ↦ ok a | false ↦ leaf_write_for rounds t key ]

  -- The leaf and the index of the key's record, under the write latch of the leaf.
  unfoldable pub get_mut : ℕ → Tree K V → K → Run (Option (Addr × ℕ))
  unfolding index_of get_kind Leaf.search keeps_latch leaf_write_for
  get_mut rounds t key = do
    a ← leaf_write_for rounds t key
    node ← load t a
    get_kind a node.kind key

  -- One round of the loop of `entry_at_or_after`.
  after_round : Addr → Node K V → NodeKind K V → K → Bool → Run Round
  after_round a node (leaf contents) key inclusive =
      let i = index_after inclusive (Leaf.search contents key) in
      ok (if ltb i (length contents.entries) then result (some (a, i)) else next_of node.right)
  after_round a node (redirect target) key inclusive = ok (next_leaf target)
  after_round a node (internal contents) key inclusive = panic

  after_from : ℕ → Tree K V → Addr → K → Bool → Run (Option (Addr × ℕ))
  unfolding after_round index_after next_of Leaf.search
  after_from zero t a key inclusive = out_of_fuel
  after_from (suc rounds) t a key inclusive = do
    node ← load t a
    r ← after_round a node node.kind key inclusive
    elim r [ result entry ↦ ok entry | next_leaf b ↦ after_from rounds t b key inclusive ]

  unfoldable pub entry_at_or_after : ℕ → Tree K V → K → Bool → Run (Option (Addr × ℕ))
  unfolding after_from leaf_read_for
  entry_at_or_after rounds t key inclusive = do
    a ← leaf_read_for rounds t key t.root
    after_from rounds t a key inclusive

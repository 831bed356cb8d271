-- ===== src/Tree/Insert.antt =====
-- src/node.rs: the critical sections of `Tree::insert`.
pub mod Linear
pub mod Grow
pub mod Descent
pub mod Attempt
pub mod Backlink
pub mod Tests
use Prim.Native.Nat.Ordering.{lt}
use b_link.Prelude.{
  ℕ, suc, ◌+◌, Bool, true, false, not, ◌&&◌, ◌||◌, out_of_fuel, zero, Option, none, some, List, [],
  ◌∷◌, ltb, ◌==◌, if◌then◌else◌, length, Run, ok, panic, ◌>>=◌, ◌>>◌,
}
use b_link.Ord.{Ord}
use b_link.Array.Bounded
use b_link.Node.{
  Addr, Entry, InternalNode, LeafNode, NodeKind, internal, leaf, redirect, Node, Split, Route,
  restart, to_right, here, is_redirect, occupancy, route, root_from_split,
}
use b_link.Node.Search.{child_index}
use b_link.Node.Leaf
use b_link.Node.Leaf.{SearchResult, found, absent}
use b_link.Node.Splitting.{split_full, insert_split}
use b_link.Tree.{Tree, load, store, fresh, allocate}

pub data FastInsert (V : Type 0) : Type 0 where
  done : Option V → FastInsert V
  structural : FastInsert V

-- How a round of the loop of `insert_attempt` ends: with an `InsertAttempt`, or at the next page,
-- with the backlink that is to be repaired first.
pub data InsertRound (V : Type 0) : Type 0 where
  finished : Option V → InsertRound V
  retry : InsertRound V
  descend : (target : Addr) → (repair : Option (Addr × Option Addr)) → InsertRound V

-- How a round of the loop of `split_root_if_full` ends.
pub data GrowRound : Type 0 where
  redirected : GrowRound
  unneeded : GrowRound
  grown : (right : Addr) → (old_successor : Option Addr) → GrowRound

abbrev is_absent : SearchResult → Bool
is_absent (found i) = false
is_absent (absent i) = true

module _ {K V : Type 0} ⦃o : Ord K⦄ where
  -- The leaf's new contents and counter.
  abbrev pub insert_record :
      ℕ → Tree K V → Addr → Node K V → LeafNode K V → K → V → Run (Tree K V × Option V)
  insert_record n t a node contents key value = do
    (replaced, inserted, contents) ← Leaf.insert n contents key value
    let t = store t a (record node { kind = leaf contents })
    ok ((if inserted then record t { len = t.len + 1 } else t), replaced)

  -- The rest of `try_insert_without_split`, once `leaf_write_for` has latched the leaf `a`.
  unfoldable pub try_insert_without_split :
      ℕ → Tree K V → Addr → Node K V → LeafNode K V → K → V → Run (Tree K V × FastInsert V)
  unfolding Leaf.search Leaf.insert
  try_insert_without_split n t a node contents key value =
      if is_absent (Leaf.search contents key) && (length contents.entries == n)
      then ok (t, structural)
      else (do (t, replaced) ← insert_record n t a node contents key value; ok (t, done replaced))

  -- The full root becomes the left child of a new root.
  split_root : ℕ → Tree K V → Node K V → Run (Tree K V × GrowRound)
  split_root n t root = do
    (left, right, split) ← split_full n t.root (fresh t) root
    let t' = allocate (store t t.root (record left { is_root = false })) right
    let new_root = root_from_split t.root split.separator split.right
    ok (record (allocate t' new_root) { root = fresh t' }, grown split.right split.old_successor)

  grow_kind : ℕ → Tree K V → Node K V → NodeKind K V → Run (Tree K V × GrowRound)
  grow_kind n t root (redirect target) = ok (record t { root = target }, redirected)
  grow_kind n t root kind = if ltb (occupancy kind) n then ok (t, unneeded) else split_root n t root

  -- One round of `split_root_if_full`, under the latches of the root slot and the root.
  unfoldable pub split_root_if_full : ℕ → Tree K V → Run (Tree K V × GrowRound)
  unfolding grow_kind split_root occupancy split_full root_from_split
  split_root_if_full n t = do root ← load t t.root; grow_kind n t root root.kind

  -- The child at `child_index` under its parent's latch: a full one is split before the descent.
  descend_child :
      ℕ
      → Tree K V
      → Addr
      → Node K V
      → InternalNode K
      → K
      → (child_index : ℕ) → (child_ref : Addr) → Node K V
      → Run (Tree K V × InsertRound V)
  descend_child n t a node contents key child_index child_ref child =
      if occupancy child.kind == n
      then (do
        (left, right, split) ← split_full n child_ref (fresh t) child
        contents ← insert_split n contents child_index split.separator split.right
        let t' = store (store t child_ref left) a (record node { kind = internal contents })
        let target : Addr = elim (o.cmp key split.separator) [ lt ↦ child_ref | _ ↦ split.right ]
        ok (allocate t' right, descend target (some (split.right, split.old_successor))))
      else ok (t, descend child_ref none)

  -- `try_locked` says whether `try_write_node` got the child's latch.
  attempt_kind :
      ℕ
      → Tree K V
      → (try_locked : Bool) → Addr
      → Node K V
      → NodeKind K V
      → K
      → V
      → Run (Tree K V × InsertRound V)
  attempt_kind n t try_locked a node (leaf contents) key value = do
    (t, replaced) ← insert_record n t a node contents key value
    ok (t, finished replaced)
  attempt_kind n t try_locked a node (internal contents) key value = do
    i ← child_index contents key
    child_ref ← Bounded.index contents.children i
    child ← load t child_ref
    if not try_locked || is_redirect child.kind
        then ok (t, retry)
        else descend_child n t a node contents key i child_ref child
  attempt_kind n t try_locked a node (redirect target) key value = panic

  attempt_here : ℕ → Tree K V → Bool → Addr → Node K V → K → V → Run (Tree K V × InsertRound V)
  attempt_here n t try_locked a node key value =
      if occupancy node.kind == n
      then ok (t, retry)
      else attempt_kind n t try_locked a node node.kind key value

  attempt_route :
      ℕ → Tree K V → Bool → Addr → Node K V → K → V → Route → Run (Tree K V × InsertRound V)
  attempt_route n t try_locked a node key value restart = ok (t, retry)
  attempt_route n t try_locked a node key value (to_right next) = ok (t, descend next none)
  attempt_route n t try_locked a node key value here = attempt_here n t try_locked a node key value

  -- One round of the loop of `insert_attempt`, at the page `a`.
  unfoldable pub insert_attempt :
      ℕ → Tree K V → Bool → Addr → K → V → Run (Tree K V × InsertRound V)
  unfolding attempt_route attempt_here attempt_kind descend_child route occupancy child_index
      split_full insert_split Leaf.insert Bounded.index
  insert_attempt n t try_locked a key value = do
    node ← load t a
    r ← route node key
    attempt_route n t try_locked a node key value r

abbrev points_to : Option Addr → Addr → Bool
points_to none a = false
points_to (some b) a = b == a

module _ {K V : Type 0} where
  link_back :
      Tree K V
      → (new_right : Addr) → Node K V
      → (successor : Addr) → Node K V
      → NodeKind K V
      → Run (Tree K V × Option Addr)
  link_back t new_right node successor next (redirect target) =
      ok (store t new_right (record node { right = some target }), some target)
  link_back t new_right node successor next kind =
      let t' = store t successor (record next { previous = some new_right }) in
      ok (store t' new_right (record node { right = some successor }), none)

  -- One round of `repair_split_backlink`: the new state, and the successor of the next round. The
  -- source tests `new_right` once and keeps its latch over the rounds. Here a round takes the latch
  -- anew and tests anew; while no other thread comes in between, the test holds again, since a round
  -- leaves `right` at the successor of the next.
  unfoldable pub repair_split_backlink : Tree K V → Addr → Addr → Run (Tree K V × Option Addr)
  unfolding link_back
  repair_split_backlink t new_right successor = do
    node ← load t new_right
    if is_redirect node.kind || not (points_to node.right successor)
        then ok (t, none)
        else (do next ← load t successor; link_back t new_right node successor next next.kind)

-- ===== src/Tree.antt =====
-- src/node.rs: the tree, its pages, and the traversals. A page is allocated at the end of `pages`
-- and is never moved; a page whose last reference is dropped is simply not reached again. Each
-- function takes all its latches before it drops one, and another thread may run between any two
-- functions.
pub mod Read
pub mod Insert
pub mod Remove
pub mod Relink
pub mod Thread
pub mod Invariant
mod Tests
use b_link.Prelude.{
  ℕ, zero, suc, ◌+◌, ◌-◌, ◌^◌, Bool, true, false, Option, none, some, List, [], ◌∷◌, ◌++◌, ltb, leb,
  ◌==◌, if◌then◌else◌, length, get_elem?, set, Run, ok, panic, out_of_fuel, ◌>>=◌, ◌>>◌, assert,
  expect, initialized,
}
use b_link.Ord.{Ord}
use b_link.Array.Bounded
use b_link.Node.{
  Addr, Entry, InternalNode, LeafNode, NodeKind, internal, leaf, redirect, Node, Route, restart,
  to_right, here, leaf_root, route,
}
use b_link.Node.Search.{child_index}

pub record Tree (K V : Type 0) : Type 0 where
  pub pages : List (Node K V)
  pub root : Addr
  pub len : ℕ

-- Where a traversal goes after a page.
pub data Visit : Type 0 where
  again : Visit
  move : Addr → Visit
  arrived : Visit

module _ {K V : Type 0} where
  -- A page that a reference leads to.
  abbrev pub load : Tree K V → Addr → Run (Node K V)
  load t a = initialized (get_elem? t.pages a)

  abbrev pub store : Tree K V → Addr → Node K V → Tree K V
  store t a node = record t { pages = set t.pages a node }

  -- The address of the next `Arc::new`.
  abbrev pub fresh : Tree K V → Addr
  fresh t = length t.pages

  abbrev pub allocate : Tree K V → Node K V → Tree K V
  allocate t node = record t { pages = t.pages ++ node ∷ [] }

  -- `Tree::new`, with the page capacity `n`; `fits` says for which capacities
  -- `Layout::array::<Entry<K, V>>` can be represented.
  unfoldable pub new : (fits : ℕ → Bool) → ℕ → Run (Tree K V)
  unfolding leaf_root
  new fits n = do
    assert (leb 3 n)
    assert (ltb (n + 1) (2 ^ 64))
    page ← leaf_root fits n
    ok (record { pages = page ∷ []; root = 0; len = 0 })

module _ {K V : Type 0} ⦃o : Ord K⦄ where
  unfoldable pub visit_kind : NodeKind K V → K → Run Visit
  visit_kind (internal node) key = do
    i ← child_index node key
    child ← Bounded.index node.children i
    ok (move child)
  visit_kind (leaf node) key = ok arrived
  visit_kind (redirect target) key = panic

  unfoldable pub follow : NodeKind K V → K → Route → Run Visit
  follow kind key restart = ok again
  follow kind key (to_right next) = ok (move next)
  follow kind key here = visit_kind kind key

  -- One round of the inner loop of `leaf_read_for`, under the read latch of the page.
  unfoldable pub visit : Node K V → K → Run Visit
  unfolding follow visit_kind route child_index Bounded.index
  visit node key = do r ← route node key; follow node.kind key r

  next_page : Tree K V → Addr → Visit → Option Addr
  next_page t a again = some t.root
  next_page t a (move next) = some next
  next_page t a arrived = none

  -- `leaf_read_for` from the page `a` on, while no other thread writes.
  unfoldable pub leaf_read_for : ℕ → Tree K V → K → Addr → Run Addr
  unfolding visit next_page
  leaf_read_for zero t key a = out_of_fuel
  leaf_read_for (suc rounds) t key a = do
    node ← load t a
    v ← visit node key
    elim (next_page t a v) [ none ↦ ok a | some next ↦ leaf_read_for rounds t key next ]

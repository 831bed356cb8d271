-- ===== src/Tree/Thread.antt =====
-- The calls `Tree::get`, `Tree::insert` and `Tree::remove` of src/node.rs as threads over one tree:
-- a thread runs one critical section at a time, and any other thread may run in between.
pub mod Fast
pub mod Places
pub mod Effects
pub mod Turns
pub mod History
mod Tests
use b_link.Prelude.{
  ℕ, suc, zero, Bool, true, false, Option, none, some, List, [], ◌∷◌, if◌then◌else◌, get_elem?, set,
  Run, ok, panic, out_of_fuel, ◌>>=◌,
}
use b_link.Ord.{Ord}
use b_link.Array.Bounded
use b_link.Node.{
  Addr, NodeKind, internal, leaf, redirect, Node, MergeRepair, Route, restart, to_right, here,
  route, Entry, LeafNode,
}
use b_link.Node.Leaf
use b_link.Node.Leaf.{SearchResult, found, absent}
use b_link.Tree.{Tree, Visit, again, move, arrived, load, visit}
use b_link.Tree.Insert
use b_link.Tree.Insert.{
  FastInsert, InsertRound, GrowRound, redirected, unneeded, grown, try_insert_without_split,
  split_root_if_full, insert_attempt, repair_split_backlink,
}
use b_link.Tree.Remove
use b_link.Tree.Remove.{
  FastRemove, RemoveRound, Latches, try_remove_without_rebalance, remove_attempt, shrink_root,
}
use b_link.Tree.Relink.{RelinkRound, spliced, relink, begin_relink}

-- The call that a thread makes.
pub data Call (K V : Type 0) : Type 0 where
  get : K → Call K V
  insert : K → V → Call K V
  remove : K → Call K V

-- Where a thread stands, with the local variables that are live there.
pub data Pc (K V : Type 0) : Type 0 where
  -- `leaf_read_for`, before the root slot is read, or before the page is latched.
  start_read : Call K V → Pc K V
  read : Call K V → Addr → Pc K V
  -- `leaf_write_for`, before the leaf is latched again.
  latch : Call K V → Addr → Pc K V
  -- The loop of `insert`: `split_root_if_full`, its backlink repair, and `insert_attempt`.
  grow : K → V → Pc K V
  grow_link : K → V → (new_right successor : Addr) → Pc K V
  start_insert : K → V → Pc K V
  insert_at : K → V → Addr → Pc K V
  insert_link : K → V → (target new_right successor : Addr) → Pc K V
  -- The loop of `remove`: `shrink_root`, `remove_attempt` and its link repair, which has a place of
  -- its own for each critical section of its walk.
  shrink : K → Pc K V
  start_remove : K → Pc K V
  remove_at : K → Addr → Pc K V
  begin_link : K → (target : Addr) → MergeRepair → Pc K V
  link : K → (target : Addr) → MergeRepair → RelinkRound → Pc K V
  final_shrink : Option V → Pc K V
  returned : Option V → Pc K V

-- What the surroundings decide: which `try_write_node` calls succeed, and which weak references
-- are alive.
pub record Surroundings : Type 0 where
  pub try_locked : Bool
  pub latches : Latches
  pub alive : Addr → Bool

-- One thread alone: every latch is free and every weak reference alive.
abbrev pub alone : Surroundings
alone = record {
  try_locked = true;
  latches = record { first = true; second = true };
  alive = λ _. true;
}

module _ {K V : Type 0} where
  abbrev pub call_key : Call K V → K
  call_key (get k) = k
  call_key (insert k v) = k
  call_key (remove k) = k

  pub after_grow : K → V → GrowRound → Pc K V
  after_grow k v redirected = grow k v
  after_grow k v unneeded = start_insert k v
  after_grow k v (grown new_right none) = start_insert k v
  after_grow k v (grown new_right (some successor)) = grow_link k v new_right successor

  after_fast_insert : K → V → FastInsert V → Pc K V
  after_fast_insert k v (FastInsert.done replaced) = returned replaced
  after_fast_insert k v FastInsert.structural = grow k v

  pub after_insert : K → V → InsertRound V → Pc K V
  after_insert k v (InsertRound.finished replaced) = returned replaced
  after_insert k v InsertRound.retry = grow k v
  after_insert k v (InsertRound.descend target none) = insert_at k v target
  after_insert k v (InsertRound.descend target (some (new_right, none))) = insert_at k v target
  after_insert k v (InsertRound.descend target (some (new_right, some successor))) =
      insert_link k v target new_right successor

  after_fast_remove : K → FastRemove V → Pc K V
  after_fast_remove k (FastRemove.done removed) = returned removed
  after_fast_remove k FastRemove.structural = shrink k

  pub after_remove : K → RemoveRound V → Pc K V
  after_remove k (RemoveRound.finished removed) = final_shrink removed
  after_remove k RemoveRound.retry = shrink k
  after_remove k (RemoveRound.descend target none) = remove_at k target
  after_remove k (RemoveRound.descend target (some repair)) = begin_link k target repair

  pub after_link : K → Addr → MergeRepair → RelinkRound → Pc K V
  after_link k target repair spliced = remove_at k target
  after_link k target repair round = link k target repair round

module _ {K V : Type 0} ⦃o : Ord K⦄ where
  value_at : LeafNode K V → SearchResult → Run (Option V)
  value_at contents (absent index) = ok none
  value_at contents (found index) = do
    entry ← Bounded.index contents.entries index
    ok (some entry.value)

  -- `Tree::get` searches under the same read latch as the traversal ends with; the writers come
  -- back for the write latch.
  finish_read : Call K V → Addr → NodeKind K V → Run (Pc K V)
  finish_read (get k) a (leaf contents) = do
    value ← value_at contents (Leaf.search contents k)
    ok (returned value)
  finish_read (get k) a kind = panic
  finish_read c a kind = ok (latch c a)

  after_visit : Call K V → Addr → Node K V → Visit → Run (Pc K V)
  after_visit c a node again = ok (start_read c)
  after_visit c a node (move next) = ok (read c next)
  after_visit c a node arrived = finish_read c a node.kind

  fast_path : ℕ → Tree K V → Addr → Node K V → LeafNode K V → Call K V → Run (Tree K V × Pc K V)
  fast_path n t a node contents (get k) = ok (t, start_read (get k))
  fast_path n t a node contents (insert k v) = do
    (t, r) ← try_insert_without_split n t a node contents k v
    ok (t, after_fast_insert k v r)
  fast_path n t a node contents (remove k) = do
    (t, r) ← try_remove_without_rebalance n t a node contents k
    ok (t, after_fast_remove k r)

  -- The write latch is kept only at a leaf that still owns the key.
  latched :
      ℕ → Tree K V → Addr → Node K V → NodeKind K V → Call K V → Route → Run (Tree K V × Pc K V)
  latched n t a node (leaf contents) c here = fast_path n t a node contents c
  latched n t a node kind c r = ok (t, start_read c)

  -- The next critical section of a thread.
  unfoldable pub turn : ℕ → Surroundings → Tree K V → Pc K V → Run (Tree K V × Pc K V)
  unfolding value_at finish_read after_visit fast_path latched after_grow after_fast_insert
      after_insert after_fast_remove after_remove after_link
  turn n env t (start_read c) = ok (t, read c t.root)
  turn n env t (read c a) = do
    node ← load t a
    v ← visit node (call_key c)
    pc ← after_visit c a node v
    ok (t, pc)
  turn n env t (latch c a) = do
    node ← load t a
    r ← route node (call_key c)
    latched n t a node node.kind c r
  turn n env t (grow k v) = do (t, r) ← split_root_if_full n t; ok (t, after_grow k v r)
  turn n env t (grow_link k v new_right successor) = do
    (t, next) ← repair_split_backlink t new_right successor
    ok (
      t,
      elim next [ none ↦ start_insert k v | some successor ↦ grow_link k v new_right successor ],
    )
  turn n env t (start_insert k v) = ok (t, insert_at k v t.root)
  turn n env t (insert_at k v a) = do
    (t, r) ← insert_attempt n t env.try_locked a k v
    ok (t, after_insert k v r)
  turn n env t (insert_link k v target new_right successor) = do
    (t, next) ← repair_split_backlink t new_right successor
    ok (
      t,
      elim next [
        | none ↦ insert_at k v target
        | some successor ↦ insert_link k v target new_right successor
      ],
    )
  turn n env t (shrink k) = do
    (t, more) ← shrink_root t
    ok (t, if more then shrink k else start_remove k)
  turn n env t (start_remove k) = ok (t, remove_at k t.root)
  turn n env t (remove_at k a) = do
    (t, r) ← remove_attempt n t env.latches a k
    ok (t, after_remove k r)
  turn n env t (begin_link k target repair) = do
    (t, round) ← begin_relink env.alive t repair
    ok (t, after_link k target repair round)
  turn n env t (link k target repair round) = do
    (t, round) ← relink env.alive t repair round
    ok (t, after_link k target repair round)
  turn n env t (final_shrink removed) = do
    (t, more) ← shrink_root t
    ok (t, if more then final_shrink removed else returned removed)
  turn n env t (returned result) = ok (t, returned result)

  -- A call that no other thread interrupts, for at most so many critical sections.
  unfoldable pub run_alone : ℕ → ℕ → Tree K V → Pc K V → Run (Tree K V × Option V)
  unfolding turn
  run_alone zero n t pc = out_of_fuel
  run_alone (suc rounds) n t (returned result) = ok (t, result)
  run_alone (suc rounds) n t pc = do (t, pc) ← turn n alone t pc; run_alone rounds n t pc

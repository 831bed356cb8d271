-- ===== src/Map.antt =====
-- src/map.rs: the public map over the tree. Its calls run here without interruption (interleaved calls
-- are in Tree/Thread), each with a number of rounds for its loops. `Default`, `IntoIterator` and
-- `get_key_value` are `new`, `iter` and `get`.
pub mod Reads
pub mod Update
pub mod Loops
mod Tests
use b_link.Prelude.{
  ℕ, Bool, true, false, Option, none, some, List, [], ◌∷◌, is_some, ◌==◌, Run, ok, ◌>>=◌,
}
use b_link.Ord.{Ord}
use b_link.Node.{Addr, Entry}
use b_link.Handle.{EntryRef}
use b_link.Handle.EntryMut.{EntryMut}
use b_link.Iter.{Iter, Range, RangeBounds, Keys, Values, iter_new, keys_new, values_new, range_new}
use b_link.Iter.Collect
use b_link.Tree
use b_link.Tree.{Tree, load}
use b_link.Tree.Read
use b_link.Tree.Thread.{Call, start_read, run_alone}

abbrev pub default_page_capacity : ℕ
default_page_capacity = 32

pub record BLinkMap (K V : Type 0) : Type 0 where
  pub tree : Tree K V

module _ {K V : Type 0} where
  unfoldable pub new : (fits : ℕ → Bool) → ℕ → Run (BLinkMap K V)
  unfolding Tree.new
  new fits n = do t ← Tree.new fits n; ok (record { tree = t })

  unfoldable pub len : BLinkMap K V → ℕ
  len map = map.tree.len

  unfoldable pub is_empty : BLinkMap K V → Bool
  unfolding len
  is_empty map = len map == 0

  -- The old tree is dropped.
  unfoldable pub clear : (fits : ℕ → Bool) → ℕ → BLinkMap K V → Run (BLinkMap K V)
  unfolding Tree.new
  clear fits n map = do t ← Tree.new fits n; ok (record map { tree = t })

  -- The guard of a record that was found under the latch of its leaf.
  unfoldable pub guarded : Tree K V → Option (Addr × ℕ) → Run (Option (EntryRef K V))
  guarded t none = ok none
  guarded t (some (a, index)) = do
    guard ← load t a
    ok (some (record { guard = guard; index = index }))

  unfoldable pub guarded_mut : Tree K V → Option (Addr × ℕ) → Run (Option (EntryMut K V))
  guarded_mut t none = ok none
  guarded_mut t (some (a, index)) = do
    guard ← load t a
    ok (some (record { address = a; guard = guard; index = index }))

  unfoldable pub first_key_value : ℕ → BLinkMap K V → Run (Option (EntryRef K V))
  unfolding guarded Read.first_entry
  first_key_value rounds map = do found ← Read.first_entry rounds map.tree; guarded map.tree found

  unfoldable pub last_key_value : ℕ → BLinkMap K V → Run (Option (EntryRef K V))
  unfolding guarded Read.last_entry
  last_key_value rounds map = do found ← Read.last_entry rounds map.tree; guarded map.tree found

module _ {K V : Type 0} ⦃o : Ord K⦄ where
  unfoldable pub get : ℕ → BLinkMap K V → K → Run (Option (EntryRef K V))
  unfolding guarded Read.get
  get rounds map key = do found ← Read.get rounds map.tree key; guarded map.tree found

  unfoldable pub get_mut : ℕ → BLinkMap K V → K → Run (Option (EntryMut K V))
  unfolding guarded_mut Read.get_mut
  get_mut rounds map key = do found ← Read.get_mut rounds map.tree key; guarded_mut map.tree found

  unfoldable pub contains_key : ℕ → BLinkMap K V → K → Run Bool
  unfolding get
  contains_key rounds map key = do entry ← get rounds map key; ok (is_some entry)

  unfoldable pub insert : ℕ → ℕ → BLinkMap K V → K → V → Run (BLinkMap K V × Option V)
  unfolding run_alone
  insert rounds n map key value = do
    (t, replaced) ← run_alone rounds n map.tree (start_read (Call.insert key value))
    ok (record map { tree = t }, replaced)

  unfoldable pub remove : ℕ → ℕ → BLinkMap K V → K → Run (BLinkMap K V × Option V)
  unfolding run_alone
  remove rounds n map key = do
    (t, removed) ← run_alone rounds n map.tree (start_read (Call.remove key))
    ok (record map { tree = t }, removed)

  -- Iterators borrow the map.
  abbrev pub iter : BLinkMap K V → Iter K
  iter map = iter_new

  abbrev pub keys : BLinkMap K V → Keys K
  keys map = keys_new

  abbrev pub values : BLinkMap K V → Values K
  values map = values_new

  unfoldable pub range : BLinkMap K V → RangeBounds K → Run (Range K)
  unfolding range_new
  range map bounds = range_new bounds

  unfoldable pub extend : ℕ → ℕ → BLinkMap K V → List (K × V) → Run (BLinkMap K V)
  unfolding insert
  extend rounds n map [] = ok map
  extend rounds n map ((key, value) ∷ items) = do
    (map, replaced) ← insert rounds n map key value
    extend rounds n map items

  unfoldable pub from_iter : ℕ → (fits : ℕ → Bool) → ℕ → List (K × V) → Run (BLinkMap K V)
  unfolding new extend
  from_iter rounds fits n items = do map ← new fits n; extend rounds n map items

  -- The pairs that `fmt` writes, in a loop over `iter`.
  unfoldable pub debug_entries : ℕ → ℕ → BLinkMap K V → Run (List (Entry K V))
  unfolding Collect.entries
  debug_entries items rounds map = Collect.entries items rounds map.tree (iter map)

-- ===== src/Iter.antt =====
-- src/iter.rs: the cursors of iterators and ranges. The tree that an iterator borrows is an argument
-- of `next` (Iter/Next.antt), since other threads may change it between two calls; each call is given a number of
-- rounds for its loops. `size_hint` is a constant.
pub mod Next
pub mod Steps
pub mod Count
pub mod Lists
pub mod Collect
pub mod Ranged
pub mod Valid
pub mod Walk
mod Tests
use Prim.Native.Nat.Ordering.{lt, eq, gt}
use b_link.Prelude.{
  ℕ, Bool, true, false, not, ◌&&◌, ◌||◌, Option, none, some, if◌then◌else◌, Run, ok, panic, ◌>>=◌,
  ◌>>◌, assert, expect,
}
use b_link.Ord.{Ord}
use b_link.Bound.{Bound, unbounded, included, excluded}
use b_link.Array.Bounded
use b_link.Node.{Addr, Entry, LeafNode, NodeKind, leaf, Node}
use b_link.Handle
use b_link.Handle.{EntryRef}
use b_link.Tree.{Tree, load}
use b_link.Tree.Read.{first_entry, entry_at_or_after}

-- `Iter` less the tree.
pub record Iter (K : Type 0) : Type 0 where
  pub last : Option K
  pub finished : Bool

-- A `RangeBounds`: its `start_bound` and its `end_bound`.
pub record RangeBounds (K : Type 0) : Type 0 where
  pub start_bound : Bound K
  pub end_bound : Bound K

-- `Range` less the tree.
pub record Range (K : Type 0) : Type 0 where
  pub bounds : RangeBounds K
  pub last : Option K
  pub started : Bool
  pub finished : Bool

pub record KeyRef (K V : Type 0) : Type 0 where
  pub entry : EntryRef K V

pub record ValueRef (K V : Type 0) : Type 0 where
  pub entry : EntryRef K V

-- `Keys` and `Values` around an `Iter`.
pub record Keys (K : Type 0) : Type 0 where
  pub inner : Iter K

pub record Values (K : Type 0) : Type 0 where
  pub inner : Iter K

module _ {K : Type 0} where
  abbrev pub iter_new : Iter K
  iter_new = record { last = none; finished = false }

  abbrev pub keys_new : Keys K
  keys_new = record { inner = iter_new }

  abbrev pub values_new : Values K
  values_new = record { inner = iter_new }

  -- The two ends of a range, if it has both.
  abbrev pub both_ends : Bound K → Bound K → Option (K × K)
  both_ends unbounded end = none
  both_ends start unbounded = none
  both_ends (included start) (included end) = some (start, end)
  both_ends (included start) (excluded end) = some (start, end)
  both_ends (excluded start) (included end) = some (start, end)
  both_ends (excluded start) (excluded end) = some (start, end)

  abbrev pub is_excluded : Bound K → Bool
  is_excluded (excluded k) = true
  is_excluded bound = false

module _ {K V : Type 0} where
  clone_kind : NodeKind K V → ℕ → Run K
  clone_kind (leaf contents) index = do e ← Bounded.index contents.entries index; ok e.key
  clone_kind kind index = panic

  unfoldable pub clone_key : Node K V → ℕ → Run K
  unfolding clone_kind Bounded.index
  clone_key guard index = clone_kind guard.kind index

  abbrev pub key_ref : Option (EntryRef K V) → Option (KeyRef K V)
  key_ref none = none
  key_ref (some r) = some (record { entry = r })

  abbrev pub value_ref : Option (EntryRef K V) → Option (ValueRef K V)
  value_ref none = none
  value_ref (some r) = some (record { entry = r })

  unfoldable pub key_get : KeyRef K V → Run K
  unfolding Handle.key
  key_get r = Handle.key r.entry

  unfoldable pub value_key : ValueRef K V → Run K
  unfolding Handle.key
  value_key r = Handle.key r.entry

  unfoldable pub value_get : ValueRef K V → Run V
  unfolding Handle.value
  value_get r = Handle.value r.entry

module _ {K : Type 0} ⦃o : Ord K⦄ where
  abbrev pub at_most : K → K → Bool
  at_most a b = elim (o.cmp a b) [ gt ↦ false | _ ↦ true ]

  abbrev pub same : K → K → Bool
  same a b = elim (o.cmp a b) [ eq ↦ true | _ ↦ false ]

  unfoldable pub validate_bounds : RangeBounds K → Run (Unit {0})
  validate_bounds bounds = elim (both_ends bounds.start_bound bounds.end_bound) [
    | none ↦ ok tt
    | some (start, end) ↦ (do
      assert (at_most start end)
      assert (
          not (same start end)
          || not (is_excluded bounds.start_bound)
          || not (is_excluded bounds.end_bound))
      ok tt)
  ]

  unfoldable pub inside_end : Bound K → K → Bool
  inside_end unbounded key = true
  inside_end (included end) key = elim (o.cmp key end) [ gt ↦ false | _ ↦ true ]
  inside_end (excluded end) key = elim (o.cmp key end) [ lt ↦ true | _ ↦ false ]

  unfoldable pub inside_end_bound : K → RangeBounds K → Bool
  unfolding inside_end
  inside_end_bound key bounds = inside_end bounds.end_bound key

  unfoldable pub range_new : RangeBounds K → Run (Range K)
  unfolding validate_bounds
  range_new bounds = do
    validate_bounds bounds
    ok (record { bounds = bounds; last = none; started = false; finished = false })

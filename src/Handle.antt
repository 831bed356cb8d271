-- ===== src/Handle.antt =====
-- src/handle.rs: the guards of one record. A read guard is the page as it was latched, since no
-- writer changes it before the guard is dropped; a write guard also has the address at which the
-- page is written back. A shared key handle is its key.
pub mod EntryMut
use b_link.Prelude.{ℕ, Run, panic, ◌>>=◌, ok}
use b_link.Array.Bounded
use b_link.Node.{Entry, LeafNode, NodeKind, leaf, Node}

-- `new` is the record itself.
pub record EntryRef (K V : Type 0) : Type 0 where
  pub guard : Node K V
  pub index : ℕ

module _ {K V : Type 0} where
  unfoldable pub entry_kind : NodeKind K V → ℕ → Run (Entry K V)
  entry_kind (leaf contents) index = Bounded.index contents.entries index
  entry_kind kind index = panic

  unfoldable pub entry : EntryRef K V → Run (Entry K V)
  unfolding entry_kind Bounded.index
  entry r = entry_kind r.guard.kind r.index

  unfoldable pub key : EntryRef K V → Run K
  unfolding entry
  key r = do e ← entry r; ok e.key

  unfoldable pub value : EntryRef K V → Run V
  unfolding entry
  value r = do e ← entry r; ok e.value

-- ===== src/Handle/EntryMut.antt =====
-- src/handle.rs: the write guard of one record.
use b_link.Prelude.{ℕ, Run, ok, panic, ◌>>=◌}
use b_link.Array.Bounded
use b_link.Node.{Addr, Entry, NodeKind, leaf, Node}
use b_link.Handle.{entry_kind}
use b_link.Tree.{Tree, store}

-- `new` is the record itself.
pub record EntryMut (K V : Type 0) : Type 0 where
  pub address : Addr
  pub guard : Node K V
  pub index : ℕ

module _ {K V : Type 0} where
  unfoldable pub entry : EntryMut K V → Run (Entry K V)
  unfolding entry_kind
  entry r = entry_kind r.guard.kind r.index

  unfoldable pub key : EntryMut K V → Run K
  unfolding entry
  key r = do e ← entry r; ok e.key

  unfoldable pub value : EntryMut K V → Run V
  unfolding entry
  value r = do e ← entry r; ok e.value

  -- A write of a whole record through `entry_mut`.
  unfoldable pub entry_mut : NodeKind K V → ℕ → (Entry K V → Entry K V) → Run (NodeKind K V)
  entry_mut (leaf contents) index change = do
    e ← Bounded.index contents.entries index
    (_, entries) ← Bounded.replace contents.entries index (change e)
    ok (leaf (record { entries = entries }))
  entry_mut kind index change = panic

  -- `*guard.value_mut() = value`, and `*guard = value` by `deref_mut`.
  unfoldable pub value_mut : Tree K V → EntryMut K V → V → Run (Tree K V × EntryMut K V)
  unfolding entry_mut Bounded.index Bounded.replace
  value_mut t r value = do
    kind ← entry_mut r.guard.kind r.index (λ e. record e { value = value })
    ok (
      store t r.address (record r.guard { kind = kind }),
      record r { guard = record r.guard { kind = kind } },
    )

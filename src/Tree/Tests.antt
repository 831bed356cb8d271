-- ===== src/Tree/Tests.antt =====
-- Runs of the model on small inputs, as in the tests of src/node.rs.
use b_link.Prelude.{
  true, ℕ, zero, suc, ◌*◌, ◌≡◌, refl, Option, none, some, List, [], ◌∷◌, Run, ok, ◌>>=◌,
}
use b_link.Node.{route}
use b_link.Node.Search.{child_index}
use b_link.Ord.{nat_ord}
use b_link.Tree.{Tree, new, visit}
use b_link.Tree.Insert.{
  try_insert_without_split, split_root_if_full, insert_attempt, repair_split_backlink,
}
use b_link.Tree.Remove.{try_remove_without_rebalance, remove_attempt, shrink_root}
use b_link.Tree.Relink.{relink, begin_relink}
use b_link.Tree.Thread.{Call, get, insert, remove, start_read, run_alone}

-- The answers of a sequence of calls on a tree.
session : ℕ → Tree ℕ ℕ → List (Call ℕ ℕ) → Run (Tree ℕ ℕ × List (Option ℕ))
unfolding run_alone visit route child_index try_insert_without_split split_root_if_full
    insert_attempt repair_split_backlink try_remove_without_rebalance remove_attempt shrink_root
    relink begin_relink
session n t [] = ok (t, [])
session n t (c ∷ cs) = do
  (t, r) ← run_alone 200 n t (start_read c)
  (t, rs) ← session n t cs
  ok (t, r ∷ rs)

inserts : ℕ → List (Call ℕ ℕ)
inserts zero = []
inserts (suc n) = insert n (n * 2) ∷ inserts n

removes : ℕ → List (Call ℕ ℕ)
removes zero = []
removes (suc n) = remove n ∷ removes n

-- Twelve insertions into pages of three records, then removals until one record is left.
steps : Run (ℕ × List (Option ℕ))
unfolding session inserts removes new
steps = do
  t ← new (λ _. true) 3
  (t, rs) ← session 3 t (inserts 12)
  (t, rs) ← session 3 t (get 5 ∷ get 11 ∷ remove 5 ∷ get 5 ∷ insert 4 9 ∷ removes 11)
  ok (t.len, rs)

steps_lem :
    steps
    ≡ ok (
      1,
      some 10
          ∷ some 22
          ∷ some 10
          ∷ none
          ∷ some 8
          ∷ some 20
          ∷ some 18
          ∷ some 16
          ∷ some 14
          ∷ some 12
          ∷ none
          ∷ some 9
          ∷ some 6
          ∷ some 4
          ∷ some 2
          ∷ some 0
          ∷ [],
    )
unfolding steps
steps_lem = refl

-- ===== src/Node/Tests.antt =====
-- Small pages of src/node.rs, and the theorems of Node/ at them.
use b_link.Prelude.{ℕ, zero, suc, ◌≡◌, refl, inr, not, [], ◌∷◌, arith, is_some, ok}
use b_link.Ord.{nat_ord}
use b_link.Node.{InternalNode, LeafNode}
use b_link.Node.Leaf
use b_link.Node.Leaf.Contents.{insert-put}
use b_link.Node.Search.{child_index}
use b_link.Node.Search.UpperBound.{Ascends, Splits, child_index-Splits}
use b_link.Records.{lookup, put}

abbrev parent : InternalNode ℕ
parent = record { keys = 10 ∷ 20 ∷ []; children = 4 ∷ 5 ∷ 6 ∷ [] }

parent-Ascends : Ascends {K = ℕ} parent.keys
parent-Ascends zero zero a b h p q = absurd (omega arith)
parent-Ascends zero (suc zero) a b h p q = ground arith
parent-Ascends zero (suc (suc j)) a b h p q = absurd cc
parent-Ascends (suc zero) zero a b h p q = absurd (omega arith)
parent-Ascends (suc zero) (suc zero) a b h p q = absurd (omega arith)
parent-Ascends (suc zero) (suc (suc j)) a b h p q = absurd cc
parent-Ascends (suc (suc i)) j a b h p q = absurd cc

child_index-Splits_example :
    (i : ℕ) × (child_index parent 15 ≡ ok i) × Splits {K = ℕ} parent.keys 15 i
child_index-Splits_example = child_index-Splits parent 15 parent-Ascends

abbrev page : LeafNode ℕ ℕ
page = record { entries = record { key = 1; value = 10 } ∷ record { key = 3; value = 30 } ∷ [] }

insert-put_example :
    Leaf.insert 3 page 2 20
    ≡ ok (
      lookup page.entries 2,
      not (is_some (lookup page.entries 2)),
      record { entries = put page.entries 2 20 },
    )
insert-put_example = insert-put 3 page 2 20 ((refl, tt), (tt, tt)) (inr (omega arith))

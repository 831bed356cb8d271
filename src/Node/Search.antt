-- ===== src/Node/Search.antt =====
-- src/node.rs: `child_index`, a binary search for the child that owns a key.
pub mod UpperBound
use Prim.Native.Nat.Ordering.{gt}
use b_link.Prelude.{
  ℕ, zero, suc, ◌+◌, ◌-◌, ◌/◌, true, false, List, ltb, length, Run, ok, out_of_fuel, ◌>>=◌,
}
use b_link.Ord.{Ord}
use b_link.Array.Bounded
use b_link.Node.{InternalNode}

module _ {K : Type 0} ⦃o : Ord K⦄ where
  -- The loop of `child_index`, with the rounds that it may still take.
  unfoldable pub child_index_loop : ℕ → List K → K → (low high : ℕ) → Run ℕ
  child_index_loop zero keys key low high = out_of_fuel
  child_index_loop (suc rounds) keys key low high = elim (ltb low high) [
    | false ↦ ok low
    | true ↦ do
      let middle = low + (high - low) / 2
      separator ← Bounded.index keys middle
      elim (o.cmp separator key) [
        | gt ↦ child_index_loop rounds keys key low middle
        | _ ↦ child_index_loop rounds keys key (middle + 1) high
      ]
  ]

  unfoldable pub child_index : InternalNode K → K → Run ℕ
  unfolding child_index_loop Bounded.index
  child_index node key = child_index_loop (length node.keys + 1) node.keys key 0 (length node.keys)

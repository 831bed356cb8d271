-- ===== src/Node/Search/UpperBound.antt =====
-- The rounds and the result of the binary search in `child_index` of src/node.rs.
use Prim.Native.Nat.Ordering.{gt}
use b_link.Prelude.{
  ℕ, zero, suc, ◌+◌, ◌-◌, ◌/◌, ◌≤◌, ◌<◌, ◌≡◌, inl, inr, true, some, List, arith, ltb, Bool-cases,
  length, get_elem?, get_elem?-lt, get_elem?-ge, Run, ok,
}
use b_link.Ord.{Ord, Ordering-cases, ◌≺◌, ◌≼◌, lt_of_lt_of_le, le_of_lt}
use b_link.Array.Bounded
use b_link.Node.{InternalNode}
use b_link.Node.Search.{child_index_loop, child_index}

module _ {K : Type 0} ⦃o : Ord K⦄ where
  -- The keys at rising indices rise.
  abbrev pub Ascends : List K → Type 0
  Ascends ks =
      (i j : ℕ) (a b : K) → i < j → get_elem? ks i ≡ some a → get_elem? ks j ≡ some b → a ≺ b

  -- `i` parts the keys that are not above `k` from those that are.
  pub record Splits (ks : List K) (k : K) (i : ℕ) : Type 0 where
    pub inside : i ≤ length ks
    pub below : (j : ℕ) (a : K) → j < i → get_elem? ks j ≡ some a → a ≼ k
    pub above : (j : ℕ) (a : K) → i ≤ j → get_elem? ks j ≡ some a → k ≺ a

  record Range (ks : List K) (k : K) (low high : ℕ) : Type 0 where
    ordered : low ≤ high
    inside : high ≤ length ks
    below : (j : ℕ) (a : K) → j < low → get_elem? ks j ≡ some a → a ≼ k
    above : (j : ℕ) (a : K) → high ≤ j → get_elem? ks j ≡ some a → k ≺ a

  module _ {ks : List K} {k : K} (sorted : Ascends ks) {low high : ℕ} (r : Range ks k low high)
      (m : ℕ) (s : K) (at : get_elem? ks m ≡ some s) (h : low ≤ m) (h' : m < high) where
    upper : o.cmp s k ≡ gt → Range ks k low m
    upper g = record {
      ordered = h;
      inside = omega (arith, r.inside);
      below = r.below;
      above = λ j a p q. elim (Bool-cases (ltb m j)) [
        | inl after ↦
            o.cmp_trans k s a (ground (arith, o.cmp_swap s k)) (sorted m j s a (ground arith) at q)
        | inr same ↦ ground (arith, o.cmp_swap s k)
      ];
    }

    lower : s ≼ k → Range ks k (m + 1) high
    lower g = record {
      ordered = omega arith;
      inside = r.inside;
      below = λ j a p q. elim (Bool-cases (ltb j m)) [
        | inl before ↦ le_of_lt a k (lt_of_lt_of_le a s k (sorted j m a s (ground arith) q at) g)
        | inr same ↦ ground arith
      ];
      above = r.above;
    }

  abbrev Finds : List K → K → Run ℕ → Type 0
  Finds ks k run = (i : ℕ) × (run ≡ ok i) × Splits ks k i

  -- One round that does not end the loop.
  round-Finds :
      (rounds : ℕ) {ks : List K} {k : K} (low high : ℕ) (s : K)
      → Ascends ks
      → Range ks k low high
      → ltb low high ≡ true
      → get_elem? ks (low + (high - low) / 2) ≡ some s
      → high - low < suc rounds
      → ((low' high' : ℕ)
          → Range ks k low' high'
          → high' - low' < rounds
          → Finds ks k (child_index_loop rounds ks k low' high'))
      → Finds ks k (child_index_loop (suc rounds) ks k low high)
  unfolding child_index_loop Bounded.index
  round-Finds rounds {ks} {k} low high s sorted r more at f rest =
      let m = low + (high - low) / 2 in
      let h : m < high = ground arith in
      let h' : low ≤ m = omega arith in
      let high_part =
        λ (g : s ≼ k). rest (m + 1) high (lower sorted r m s at h' h g) (omega arith) in
      rw (more, child_index_loop)
        (rw at (elim (Ordering-cases (o.cmp s k)) [
          | inl g ↦ rw g (high_part (ground (arith, o.cmp_swap s k)))
          | inr (inl g) ↦ rw g (high_part (ground (arith, o.cmp_swap s k)))
          | inr (inr g) ↦ rw g (rest low m (upper sorted r m s at h' h g) (omega arith))
        ]))

  child_index_loop-Splits :
      (rounds : ℕ) {ks : List K} {k : K} (low high : ℕ)
      → Ascends ks
      → Range ks k low high
      → high - low < rounds
      → Finds ks k (child_index_loop rounds ks k low high)
  unfolding child_index_loop
  child_index_loop-Splits zero low high sorted r f = absurd (omega arith)
  child_index_loop-Splits (suc rounds) {ks} {k} low high sorted r f =
      elim (Bool-cases (ltb low high)) [
        | inr ended ↦ (
          low,
          rw (ended, child_index_loop),
          record {
            inside = ground (arith, r.ordered, r.inside);
            below = r.below;
            above = λ j a p q. r.above j a (ground (arith, r.ordered)) q;
          },
        )
        | inl more ↦
            let in_range : low + (high - low) / 2 < length ks = ground (arith, r.inside) in
            let (s, at) = get_elem?-lt ks (low + (high - low) / 2) in_range in
            round-Finds rounds low high s sorted r more at f
              (λ low' high' r' f'. child_index_loop-Splits rounds low' high' sorted r' f')
      ]

  -- On ascending separators the search for a child ends without a failed index, and the child that
  -- it finds has every separator up to the key on its left and every other on its right.
  pub child_index-Splits :
      (node : InternalNode K) (k : K)
      → Ascends node.keys
      → (i : ℕ) × (child_index node k ≡ ok i) × Splits node.keys k i
  unfolding child_index
  child_index-Splits node k sorted =
      child_index_loop-Splits (length node.keys + 1) 0 (length node.keys) sorted
        (record {
          ordered = omega arith;
          inside = omega arith;
          below = λ j a p q. absurd (omega arith);
          above = λ j a p q. absurd (let e = get_elem?-ge node.keys j p in cc);
        })
        (omega arith)

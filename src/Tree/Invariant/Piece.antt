-- ===== src/Tree/Invariant/Piece.antt =====
-- The keys and children of an internal page of src/node.rs before and after one of its separators.
use b_link.Prelude.{
  ℕ, zero, suc, ◌+◌, ◌≤◌, ◌<◌, ◌≡◌, refl, sym, ◌∙◌, inl, inr, Option, some, arith, ◌==◌, Bool-cases,
  length, get_elem?, get_elem?-lt, get_elem?-ge, lt_of_get_elem?,
}
use b_link.Ord.{Ord}
use b_link.Node.{Addr, InternalNode}
use b_link.Tree.{Tree}
use b_link.Tree.Invariant.{IsInternal, low_fence, high_fence}

module _ {K V : Type 0} ⦃o : Ord K⦄ {t : Tree K V} {level : Addr → ℕ} {w l : ℕ}
    {low high : Option K} {node : InternalNode K} (shape : IsInternal t level w l low high node)
    (m : ℕ) (separator : K) (at : get_elem? node.keys m ≡ some separator)
    (piece : InternalNode K) where
  module _ (size : length piece.keys ≡ m)
      (key : (i : ℕ) → i < m → get_elem? piece.keys i ≡ get_elem? node.keys i)
      (many : length piece.children ≡ suc m)
      (child : (i : ℕ) → i ≤ m → get_elem? piece.children i ≡ get_elem? node.children i) where
    prefix_low : (i : ℕ) → i ≤ m → low_fence low piece.keys i ≡ low_fence low node.keys i
    prefix_low zero h = refl
    prefix_low (suc i) h = key i h

    prefix_high :
        (i : ℕ) → i ≤ m → high_fence (some separator) piece.keys i ≡ high_fence high node.keys i
    prefix_high i h = elim (Bool-cases (i == m)) [
      | inl end ↦
          let last : i ≡ m = ground arith in
          rw (last, get_elem?-ge piece.keys m (omega (arith, size)), at) refl
      | inr before ↦
          let valid : i < m = ground arith in
          let (a, k) =
            get_elem?-lt node.keys i (omega (arith, lt_of_get_elem? node.keys m separator at)) in
          rw (key i valid, k) refl
    ]

    prefix_key :
        (i : ℕ) (a : K)
        → get_elem? piece.keys i ≡ some a
        → (i < m) × (get_elem? node.keys i ≡ some a)
    prefix_key i a h =
        let valid : i < m = omega (arith, lt_of_get_elem? piece.keys i a h, size) in
        (valid, sym (key i valid) ∙ h)

    -- What stands before the separator is in order below it.
    pub prefix-IsInternal : {n : ℕ} → m ≤ n → IsInternal t level n l low (some separator) piece
    prefix-IsInternal fits = record {
      ascends = λ i j a b h p q. shape.ascends i j a b h (prefix_key i a p).1 (prefix_key j b q).1;
      inside = λ i a p.
          let (valid, k) = prefix_key i a p in
          ((shape.inside i a k).0, shape.ascends i m a separator valid k at);
      counted = omega (arith, size, many);
      children = λ i c p.
          let valid : i ≤ m = omega (arith, lt_of_get_elem? piece.children i c p, many) in
          rw (prefix_low i valid, prefix_high i valid)
            (shape.children i c (sym (child i valid) ∙ p));
      bounded = omega (arith, size);
    }

  module _ (size : suc (m + length piece.keys) ≡ length node.keys)
      (key : (i : ℕ) → get_elem? piece.keys i ≡ get_elem? node.keys (suc (m + i)))
      (many : suc (m + length piece.children) ≡ length node.children)
      (child : (i : ℕ) → get_elem? piece.children i ≡ get_elem? node.children (suc (m + i))) where
    suffix_low :
        (i : ℕ) → low_fence (some separator) piece.keys i ≡ low_fence low node.keys (suc (m + i))
    suffix_low zero = let end : m + 0 ≡ m = omega arith in rw (end, at) refl
    suffix_low (suc i) = let next : m + suc i ≡ suc (m + i) = omega arith in rw next (key i)

    -- What stands after the separator is in order above it.
    pub suffix-IsInternal :
        {n : ℕ} → length piece.keys ≤ n → IsInternal t level n l (some separator) high piece
    suffix-IsInternal fits = record {
      ascends = λ i j a b h p q.
          shape.ascends (suc (m + i)) (suc (m + j)) a b (omega arith) (sym (key i) ∙ p)
            (sym (key j) ∙ q);
      inside = λ i a p.
          let k = sym (key i) ∙ p in
          (
            shape.ascends m (suc (m + i)) separator a (omega arith) at k,
            (shape.inside (suc (m + i)) a k).1,
          );
      counted = omega (arith, size, many, shape.counted);
      children =
          λ i c p. rw (suffix_low i, key i) (shape.children (suc (m + i)) c (sym (child i) ∙ p));
      bounded = fits;
    }

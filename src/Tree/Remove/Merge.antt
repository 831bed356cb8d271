-- ===== src/Tree/Remove/Merge.antt =====
-- `merge_left_into_right` of src/node.rs: the surviving page has what both siblings had.
use b_link.Prelude.{
  ℕ, ◌+◌, ◌-◌, ◌/◌, ◌≤◌, ◌≡◌, refl, subst, true, false, Option, some, List, ◌∷◌, ◌++◌, arith, ltb,
  leb, length, length-append, Run, ok,
}
use b_link.Ord.{Ord}
use b_link.Array.Bounded
use b_link.Node.{
  Addr, Entry, InternalNode, LeafNode, NodeKind, internal, leaf, redirect, is_redirect, occupancy,
  minimum,
}
use b_link.Node.Rebalance.{merged_kind}
use b_link.Tree.{Tree}
use b_link.Tree.Invariant.{IsKind, IsInternal}
use b_link.Tree.Invariant.Bond.{Bond, records}
use b_link.Tree.Invariant.Joined.{joined_size, joined-IsInternal}
use b_link.Tree.Invariant.Leaves.{joined-IsSorted, joined-Within}
use b_link.Tree.Remove.Loan.Recut.{insert_idx-zero}

module _ {K V : Type 0} ⦃o : Ord K⦄ where
  pub record Merged (t : Tree K V) (level : Addr → ℕ) (n l : ℕ) (low high : Option K)
      (es : List (Entry K V)) (run : Run (NodeKind K V)) : Type 0 where
    pub kind : NodeKind K V
    pub runs : run ≡ ok kind
    pub shape : IsKind t level n l low high kind
    pub active : is_redirect kind ≡ false
    pub filled : minimum n kind ≤ occupancy kind
    pub kept : records kind ≡ es

module _ {K V : Type 0} ⦃o : Ord K⦄ {t : Tree K V} {level : Addr → ℕ} {n l : ℕ}
    {low high : Option K} {es : List (Entry K V)} {separator : K} (large : 3 ≤ n) where
  leaf-Merged :
      (left right : LeafNode K V)
      → Bond t level n l low high es separator (leaf left) (leaf right)
      → length left.entries ≡ n / 2
      → length right.entries ≡ n / 2
      → Merged t level n l low high es (merged_kind n separator (leaf left) (leaf right))
  unfolding merged_kind minimum occupancy Bounded.prepend_from
  leaf-Merged left right bond size size' =
      let xs = left.entries in
      let ys = right.entries in
      let many = length-append xs ys in
      let fits : leb (length xs + length ys) n ≡ true = ground arith in
      let fits' : leb (length ys + length xs) n ≡ true = ground arith in
      record {
        kind = leaf (record { entries = xs ++ ys });
        runs = rw (fits, fits') refl;
        shape = (
          bond.lower.0,
          record {
            sorted = joined-IsSorted xs ys bond.lower.1 bond.upper.1 bond.above bond.below;
            within = joined-Within xs ys bond.lower.1 bond.upper.1 bond.above bond.below;
            bounded = omega (arith, many);
          },
        );
        active = refl;
        filled = omega (arith, many);
        kept = bond.kept;
      }

  internal-Merged :
      (left right : InternalNode K)
      → Bond t level n l low high es separator (internal left) (internal right)
      → length left.keys ≡ (n - 1) / 2
      → length right.keys ≡ (n - 1) / 2
      → Merged t level n l low high es (merged_kind n separator (internal left) (internal right))
  unfolding merged_kind minimum occupancy Bounded.prepend_from Bounded.insert
  internal-Merged left right bond size size' =
      let (h, above, lower) = bond.lower in
      let (h', above', upper) = bond.upper in
      let same : h' ≡ h = omega (arith, above, above') in
      let upper = subst (λ x. IsInternal t level n x (some separator) high right) same upper in
      let shape = joined-IsInternal left right lower upper bond.above bond.below in
      let many = joined_size left right lower upper bond.above bond.below in
      let xs = left.keys in
      let ys = right.keys in
      let fits : leb (length xs + 1 + length ys) n ≡ true = ground arith in
      let zero_le : leb 0 (length ys) ≡ true = ground arith in
      let room : ltb (length ys) n ≡ true = ground arith in
      let fits_keys : leb (length (separator ∷ ys) + length xs) n ≡ true = ground arith in
      let fits_children : leb (length right.children + length left.children) (n + 1) ≡ true =
        ground (arith, lower.counted, upper.counted) in
      record {
        kind =
            internal
              (record { keys = xs ++ separator ∷ ys; children = left.children ++ right.children });
        runs =
            rw (fits, zero_le, room, insert_idx-zero ys separator, fits_keys, fits_children) refl;
        shape = (
          h,
          above,
          record {
            ascends = shape.ascends;
            inside = shape.inside;
            counted = shape.counted;
            children = shape.children;
            bounded = omega (arith, many);
          },
        );
        active = refl;
        filled = omega (arith, many);
        kept = bond.kept;
      }

  -- Two siblings with nothing to spare fit into one page.
  pub merged_kind-Merged :
      (left right : NodeKind K V)
      → Bond t level n l low high es separator left right
      → occupancy left ≡ minimum n left
      → occupancy right ≡ minimum n right
      → Merged t level n l low high es (merged_kind n separator left right)
  unfolding minimum occupancy
  merged_kind-Merged (leaf left) (leaf right) bond size size' =
      leaf-Merged left right bond size size'
  merged_kind-Merged (internal left) (internal right) bond size size' =
      internal-Merged left right bond size size'
  merged_kind-Merged (leaf left) (internal right) bond size size' =
      absurd (let (h, above, upper) = bond.upper in omega (arith, above, bond.lower.0))
  merged_kind-Merged (internal left) (leaf right) bond size size' =
      absurd (let (h, above, lower) = bond.lower in omega (arith, above, bond.upper.0))
  merged_kind-Merged (redirect b) right bond size size' = absurd (let e = bond.lower_active in cc)
  merged_kind-Merged left (redirect b) bond size size' = absurd (let e = bond.upper_active in cc)

-- ===== src/Tree/Remove/Loan.antt =====
-- `borrow_from_left` and `borrow_from_right` of src/node.rs: a loan moves the boundary between two
-- siblings, and is another cut of what they have in common.
pub mod Recut
use b_link.Prelude.{
  ℕ, zero, suc, ◌+◌, ◌-◌, ◌/◌, ◌≤◌, ◌<◌, ◌≡◌, refl, sym, ap, ◌∙◌, subst, true, false, Option, none,
  some, List, [], ◌∷◌, ◌++◌, arith, ltb, leb, ◌==◌, length, length-append, get_elem?, get_elem?-lt,
  get_elem?-append, get_elem?-take, set, take, drop, insert_idx, length-take, take-append-drop,
  drop-cons, Run, ok,
}
use b_link.Ord.{Ord}
use b_link.Array.Bounded
use b_link.Node.{
  Addr, Entry, InternalNode, LeafNode, NodeKind, internal, leaf, redirect, occupancy, minimum,
}
use b_link.Node.Rebalance.{lend_right, lend_left}
use b_link.Records.{IsSorted, Within}
use b_link.Tree.{Tree}
use b_link.Tree.Invariant.{IsKind, IsLeaf, IsInternal}
use b_link.Tree.Invariant.Bond.{Bond}
use b_link.Tree.Invariant.Joined.{joined, joined_size, joined_key, joined-IsInternal}
use b_link.Tree.Invariant.Leaves.{
  before-IsLeaf, from-IsLeaf, from-Below, later-Above, joined-IsSorted, joined-Within,
}
use b_link.Tree.Invariant.Piece.{prefix-IsInternal, suffix-IsInternal}
use b_link.Tree.Remove.Loan.Recut.{
  insert_idx-zero, append_assoc, take-last, recut-leaf, recut-internal,
}

module _ {K V : Type 0} ⦃o : Ord K⦄ where
  -- What the two siblings and their parent are after a loan.
  pub record Loan (t : Tree K V) (level : Addr → ℕ) (n l : ℕ) (low high : Option K)
      (es : List (Entry K V)) (parent : InternalNode K) (i : ℕ)
      (run : Run (InternalNode K × NodeKind K V × NodeKind K V × K)) : Type 0 where
    pub boundary : K
    pub left : NodeKind K V
    pub right : NodeKind K V
    pub runs : run ≡ ok (record parent { keys = set parent.keys i boundary }, left, right, boundary)
    pub bond : Bond t level n l low high es boundary left right
    pub lower_filled : minimum n left ≤ occupancy left
    pub upper_filled : minimum n right ≤ occupancy right

module _ {K V : Type 0} ⦃o : Ord K⦄ {t : Tree K V} {level : Addr → ℕ} {n l : ℕ}
    {low high : Option K} {es : List (Entry K V)} {separator : K} (parent : InternalNode K) (i : ℕ)
    (at : get_elem? parent.keys i ≡ some separator) (large : 3 ≤ n) where
  leaf_right :
      (left right : LeafNode K V)
      → Bond t level n l low high es separator (leaf left) (leaf right)
      → n / 2 < length left.entries
      → length right.entries ≡ n / 2
      → Loan t level n l low high es parent i (lend_right n parent i (leaf left) (leaf right))
  unfolding lend_right minimum occupancy Bounded.pop Bounded.insert Bounded.replace
  leaf_right left right bond spare poor =
      let xs = left.entries in
      let ys = right.entries in
      let m = length xs - 1 in
      let (e, last) = get_elem?-lt xs m (omega arith) in
      let size = length-take m xs (omega arith) in
      let nonempty : length xs == 0 ≡ false = ground arith in
      let zero_le : leb 0 (length ys) ≡ true = ground arith in
      let room : ltb (length ys) n ≡ true = ground arith in
      record {
        boundary = e.key;
        left = leaf (record { entries = take m xs });
        right = leaf (record { entries = e ∷ ys });
        runs = rw (nonempty, last, zero_le, room, at, insert_idx-zero ys e) refl;
        bond =
            recut-leaf xs ys (take m xs) e ys bond
              (sym (append_assoc (take m xs) (e ∷ []) ys)
                ∙ ap (λ (zs : List (Entry K V)). zs ++ ys) (take-last xs e (omega arith) last))
              (omega (arith, size)) (omega (arith, size, bond.lower.1.bounded)) (omega arith);
        lower_filled = omega (arith, size);
        upper_filled = omega arith;
      }

  leaf_left :
      (left right : LeafNode K V)
      → Bond t level n l low high es separator (leaf left) (leaf right)
      → n / 2 < length right.entries
      → length left.entries ≡ n / 2
      → Loan t level n l low high es parent i (lend_left n parent i (leaf left) (leaf right))
  unfolding lend_left minimum occupancy Bounded.first Bounded.remove Bounded.push Bounded.replace
  leaf_left left right bond spare poor = go right.entries refl spare
    where
      go :
          (ys : List (Entry K V))
          → right.entries ≡ ys
          → n / 2 < length ys
          → Loan t level n l low high es parent i (lend_left n parent i (leaf left) (leaf right))
      go [] is spare = absurd (omega arith)
      go (e ∷ []) is spare = absurd (omega arith)
      go (e ∷ f ∷ ys) is spare =
          let xs = left.entries in
          let room : ltb (length xs) n ≡ true = ground arith in
          let size = length-append xs (e ∷ []) in
          let fits : length (e ∷ f ∷ ys) ≤ n =
            omega (arith, ap (λ (x : List (Entry K V)). length x) is, bond.upper.1.bounded) in
          record {
            boundary = f.key;
            left = leaf (record { entries = xs ++ e ∷ [] });
            right = leaf (record { entries = f ∷ ys });
            runs =
                let some_left : ltb 0 (length (e ∷ f ∷ ys)) ≡ true = ground arith in
                rw (is, some_left, room, at) refl;
            bond =
                recut-leaf xs right.entries (xs ++ e ∷ []) f ys bond
                  (append_assoc xs (e ∷ []) (f ∷ ys)
                    ∙ ap (λ (zs : List (Entry K V)). xs ++ zs) (sym is))
                  (omega (arith, size)) (omega (arith, size)) (omega (arith, fits));
            lower_filled = omega (arith, size);
            upper_filled = omega arith;
          }

  internal_right :
      (left right : InternalNode K)
      → Bond t level n l low high es separator (internal left) (internal right)
      → (n - 1) / 2 < length left.keys
      → length right.keys ≡ (n - 1) / 2
      → Loan t level n l low high es parent i
          (lend_right n parent i (internal left) (internal right))
  unfolding lend_right minimum occupancy Bounded.pop Bounded.insert Bounded.replace
  internal_right left right bond spare poor =
      let (h, _, lower) = bond.lower in
      let (h', _, upper) = bond.upper in
      let xs = left.keys in
      let ys = right.keys in
      let cs = left.children in
      let m = length xs - 1 in
      let (b, last) = get_elem?-lt xs m (omega arith) in
      let (c, last') = get_elem?-lt cs (length cs - 1) (omega (arith, lower.counted)) in
      let size = length-take m xs (omega arith) in
      let many = length-take (length cs - 1) cs (omega arith) in
      let nonempty : length xs == 0 ≡ false = ground arith in
      let nonempty' : length cs == 0 ≡ false = ground (arith, lower.counted) in
      let zero_le : leb 0 (length ys) ≡ true = ground arith in
      let zero_le' : leb 0 (length right.children) ≡ true = ground arith in
      let room : ltb (length ys) n ≡ true = ground arith in
      let room' : ltb (length right.children) (n + 1) ≡ true = ground (arith, upper.counted) in
      record {
        boundary = b;
        left = internal (record { keys = take m xs; children = take (length cs - 1) cs });
        right = internal (record { keys = separator ∷ ys; children = c ∷ right.children });
        runs =
            rw
              (
                nonempty,
                last,
                at,
                nonempty',
                last',
                zero_le,
                room,
                zero_le',
                room',
                insert_idx-zero ys separator,
                insert_idx-zero right.children c,
              )
              refl;
        bond =
            recut-internal left right
              (record { keys = take m xs; children = take (length cs - 1) cs })
              (record { keys = separator ∷ ys; children = c ∷ right.children }) b bond
              (sym (append_assoc (take m xs) (b ∷ []) (separator ∷ ys))
                ∙ ap (λ (zs : List K). zs ++ separator ∷ ys) (take-last xs b (omega arith) last))
              (sym (append_assoc (take (length cs - 1) cs) (c ∷ []) right.children)
                ∙ ap (λ (zs : List Addr). zs ++ right.children)
                    (take-last cs c (omega (arith, lower.counted)) last'))
              (omega (arith, size, many, lower.counted)) (omega (arith, size, lower.bounded))
              (omega arith);
        lower_filled = omega (arith, size);
        upper_filled = omega arith;
      }

  internal_left :
      (left right : InternalNode K)
      → Bond t level n l low high es separator (internal left) (internal right)
      → (n - 1) / 2 < length right.keys
      → length left.keys ≡ (n - 1) / 2
      → Loan t level n l low high es parent i
          (lend_left n parent i (internal left) (internal right))
  unfolding lend_left minimum occupancy Bounded.first Bounded.remove Bounded.push Bounded.replace
  internal_left left right bond spare poor = go right.keys right.children refl refl spare
    where
      go :
          (ys : List K) (cs : List Addr)
          → right.keys ≡ ys
          → right.children ≡ cs
          → (n - 1) / 2 < length ys
          → Loan t level n l low high es parent i
              (lend_left n parent i (internal left) (internal right))
      go [] cs is is' spare = absurd (omega arith)
      go (b ∷ ys) [] is is' spare =
          let (h, _, upper) = bond.upper in
          absurd (omega (arith, ap (λ (zs : List Addr). length zs) is', upper.counted))
      go (b ∷ ys) (c ∷ cs) is is' spare =
          let (h, _, lower) = bond.lower in
          let (h', _, upper) = bond.upper in
          let xs = left.keys in
          let some_left : ltb 0 (length (b ∷ ys)) ≡ true = ground arith in
          let some_left' : ltb 0 (length (c ∷ cs)) ≡ true = ground arith in
          let room : ltb (length xs) n ≡ true = ground arith in
          let room' : ltb (length left.children) (n + 1) ≡ true = ground (arith, lower.counted) in
          let size = length-append xs (separator ∷ []) in
          let many = length-append left.children (c ∷ []) in
          let fits : length (b ∷ ys) ≤ n =
            omega (arith, ap (λ (zs : List K). length zs) is, upper.bounded) in
          record {
            boundary = b;
            left =
                internal
                  (record { keys = xs ++ separator ∷ []; children = left.children ++ c ∷ [] });
            right = internal (record { keys = ys; children = cs });
            runs = rw (is, is', some_left, at, some_left', room, room') refl;
            bond =
                recut-internal left right
                  (record { keys = xs ++ separator ∷ []; children = left.children ++ c ∷ [] })
                  (record { keys = ys; children = cs }) b bond
                  (append_assoc xs (separator ∷ []) (b ∷ ys)
                    ∙ ap (λ (zs : List K). xs ++ separator ∷ zs) (sym is))
                  (append_assoc left.children (c ∷ []) cs
                    ∙ ap (λ (zs : List Addr). left.children ++ zs) (sym is'))
                  (omega (arith, size, many, lower.counted)) (omega (arith, size))
                  (omega (arith, fits));
            lower_filled = omega (arith, size);
            upper_filled = omega arith;
          }

  -- `borrow_from_left` finds a left sibling with a record or separator to spare.
  pub lend_right-Loan :
      (left right : NodeKind K V)
      → Bond t level n l low high es separator left right
      → minimum n left < occupancy left
      → occupancy right ≡ minimum n right
      → Loan t level n l low high es parent i (lend_right n parent i left right)
  unfolding minimum occupancy
  lend_right-Loan (leaf left) (leaf right) bond spare poor = leaf_right left right bond spare poor
  lend_right-Loan (internal left) (internal right) bond spare poor =
      internal_right left right bond spare poor
  lend_right-Loan (leaf left) (internal right) bond spare poor =
      absurd (let (h, above, upper) = bond.upper in omega (arith, above, bond.lower.0))
  lend_right-Loan (internal left) (leaf right) bond spare poor =
      absurd (let (h, above, lower) = bond.lower in omega (arith, above, bond.upper.0))
  lend_right-Loan (redirect b) right bond spare poor = absurd (let e = bond.lower_active in cc)
  lend_right-Loan left (redirect b) bond spare poor = absurd (let e = bond.upper_active in cc)

  pub lend_left-Loan :
      (left right : NodeKind K V)
      → Bond t level n l low high es separator left right
      → minimum n right < occupancy right
      → occupancy left ≡ minimum n left
      → Loan t level n l low high es parent i (lend_left n parent i left right)
  unfolding minimum occupancy
  lend_left-Loan (leaf left) (leaf right) bond spare poor = leaf_left left right bond spare poor
  lend_left-Loan (internal left) (internal right) bond spare poor =
      internal_left left right bond spare poor
  lend_left-Loan (leaf left) (internal right) bond spare poor =
      absurd (let (h, above, upper) = bond.upper in omega (arith, above, bond.lower.0))
  lend_left-Loan (internal left) (leaf right) bond spare poor =
      absurd (let (h, above, lower) = bond.lower in omega (arith, above, bond.upper.0))
  lend_left-Loan (redirect b) right bond spare poor = absurd (let e = bond.lower_active in cc)
  lend_left-Loan left (redirect b) bond spare poor = absurd (let e = bond.upper_active in cc)

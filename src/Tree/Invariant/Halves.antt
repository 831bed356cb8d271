-- ===== src/Tree/Invariant/Halves.antt =====
-- `split_full` of src/node.rs, and the two pages into which it cuts a full one.
use b_link.Prelude.{
  ℕ, suc, ◌+◌, ◌/◌, ◌≤◌, ◌<◌, ◌≡◌, refl, true, false, Option, some, ◌∷◌, arith, ltb, leb, ◌==◌,
  length, take, drop, erase_idx, length-take, length-drop, get_elem?-lt, drop-cons, ok,
}
use b_link.Ord.{Ord}
use b_link.Array.Bounded
use b_link.Node.{Addr, NodeKind, internal, leaf, redirect, Node, is_redirect, occupancy, minimum}
use b_link.Node.Splitting.{split_kind, split_full}
use b_link.Tree.{Tree}
use b_link.Tree.Invariant.{IsActive, IsKind}
use b_link.Tree.Invariant.Bond.{Bond, records}
use b_link.Tree.Invariant.Cut.{
  lower, upper, rest_size, lower_size, upper_size, lower-IsInternal, upper-IsInternal, parts,
  lower-IsLeaf, upper-IsLeaf, Above-cut,
}

module _ {K V : Type 0} ⦃o : Ord K⦄ (t : Tree K V) (level : Addr → ℕ) (n l : ℕ)
    (low high : Option K) where
  -- The two parts of a full page: in order between the fences and the separator, neither full nor
  -- too poor, and with the records of the page in their order.
  pub record Halves (kind : NodeKind K V) (separator : K) (left right : NodeKind K V) : Type 0 where
    pub bond : Bond t level n l low high (records kind) separator left right
    pub lower_filled : minimum n left ≤ occupancy left
    pub upper_filled : minimum n right ≤ occupancy right
    pub lower_room : occupancy left < n
    pub upper_room : occupancy right < n

module _ {K V : Type 0} ⦃o : Ord K⦄ {t : Tree K V} {level : Addr → ℕ} {n l : ℕ}
    {low high : Option K} (large : 3 ≤ n) where
  split_kind-Halves :
      (kind : NodeKind K V)
      → IsKind t level n l low high kind
      → is_redirect kind ≡ false
      → occupancy kind ≡ n
      → (separator : K) × (left : NodeKind K V) × (right : NodeKind K V) × (split_kind n kind
          ≡ ok (separator, left, right))
        × Halves t level n l low high kind separator left right
  unfolding split_kind occupancy minimum Bounded.split_off Bounded.first Bounded.remove
  split_kind-Halves (redirect b) inv active full = absurd cc
  split_kind-Halves (leaf contents) (ground_level, shape) active full =
      let es = contents.entries in
      let (e, at) = get_elem?-lt es (n / 2) (omega (arith, full)) in
      let cut : leb (n / 2) (length es) ≡ true = ground (arith, full) in
      let size = length-drop (suc (n / 2)) es in
      let first_part = length-take (n / 2) es (omega (arith, full)) in
      (
        e.key,
        leaf (record { entries = take (n / 2) es }),
        leaf (record { entries = e ∷ drop (suc (n / 2)) es }),
        rw (cut, drop-cons (n / 2) es e at) refl,
        record {
          bond = record {
            lower = (ground_level, lower-IsLeaf es shape full e at);
            upper = (ground_level, upper-IsLeaf es shape full e at);
            above = Above-cut es (n / 2) e (omega arith) at shape;
            below = (upper-IsLeaf es shape full e at).within.0.1;
            lower_active = refl;
            upper_active = refl;
            kept = parts es shape full e at;
          };
          lower_filled = omega (arith, first_part);
          upper_filled = omega (arith, size, full);
          lower_room = omega (arith, first_part);
          upper_room = omega (arith, size, full);
        },
      )
  split_kind-Halves (internal node) (m, above, shape) active full =
      let (separator, at) = get_elem?-lt node.keys (n / 2) (omega (arith, full)) in
      let rest_size' = rest_size large node shape full separator at in
      let first_part = lower_size large node shape full separator at in
      let second_part = upper_size large node shape full separator at in
      let low_shape = lower-IsInternal large node shape full separator at in
      let high_shape = upper-IsInternal large node shape full separator at in
      let here : ltb (n / 2) (length node.keys) ≡ true = ground (arith, full) in
      let cut : leb (n / 2) (length (erase_idx node.keys (n / 2))) ≡ true =
        ground (arith, rest_size') in
      let cut' : leb (n / 2 + 1) (length node.children) ≡ true =
        ground (arith, shape.counted, full) in
      let even : length (take (n / 2 + 1) node.children)
            == length (take (n / 2) (erase_idx node.keys (n / 2))) + 1
          ≡ true =
        ground (arith, low_shape.counted) in
      let even' : length (drop (n / 2 + 1) node.children)
            == length (drop (n / 2) (erase_idx node.keys (n / 2))) + 1
          ≡ true =
        ground (arith, high_shape.counted) in
      (
        separator,
        internal (lower large node shape full separator at),
        internal (upper large node shape full separator at),
        rw (here, at, cut, cut', even, even') refl,
        record {
          bond = record {
            lower = (m, above, low_shape);
            upper = (m, above, high_shape);
            above = (shape.inside (n / 2) separator at).0;
            below = (shape.inside (n / 2) separator at).1;
            lower_active = refl;
            upper_active = refl;
            kept = refl;
          };
          lower_filled = omega (arith, first_part);
          upper_filled = omega (arith, second_part);
          lower_room = omega (arith, first_part);
          upper_room = omega (arith, second_part);
        },
      )

module _ {K V : Type 0} ⦃o : Ord K⦄ {t : Tree K V} {level : Addr → ℕ} {n l : ℕ}
    (large : 3 ≤ n) where
  -- `split_full` of an active page that is full and in order returns. The page keeps the lower
  -- part and links to the new page, which has the upper part, the old upper fence and the old right
  -- link; the separator is the fence between them. Both parts are in order, have room for another
  -- record or separator and enough of them, and no record is lost.
  pub split_full-Halves :
      (left_ref fresh : Addr) (p : Node K V)
      → IsKind t level n l p.low_key p.high_key p.kind
      → IsActive p
      → occupancy p.kind ≡ n
      → (separator : K) × (left : NodeKind K V) × (right : NodeKind K V) × (split_full n left_ref
            fresh p
          ≡ ok (
            record p { high_key = some separator; right = some fresh; kind = left },
            record {
              is_root = false;
              low_key = some separator;
              high_key = p.high_key;
              previous = some left_ref;
              right = p.right;
              kind = right;
            },
            record { separator = separator; right = fresh; old_successor = p.right },
          ))
        × Halves t level n l p.low_key p.high_key p.kind separator left right
  unfolding split_full
  split_full-Halves left_ref fresh p inv active full =
      let (separator, left, right, run, halves) = split_kind-Halves large p.kind inv active full in
      let counted : occupancy p.kind == n ≡ true = ground (arith, full) in
      (separator, left, right, rw (counted, run) refl, halves)

-- ===== src/Tree/Read/Down.antt =====
-- `leftmost_leaf`, `rightmost_leaf` and `height` of src/node.rs in a tree that no writer disturbs.
use b_link.Prelude.{
  ℕ, zero, suc, ◌+◌, ◌-◌, ◌≡◌, refl, ◌∙◌, ap, false, none, some, List, arith, length, get_elem?,
  get_elem?-lt, get_elem?-ge, ok, Settles, Settles-now, Settles-later, ◌==◌,
}
use b_link.Ord.{Ord}
use b_link.Array.Bounded
use b_link.Node.{Addr, LeafNode, NodeKind, internal, leaf, redirect, Node}
use b_link.Tree.{Tree}
use b_link.Tree.Read.{left_child, leftmost_leaf, right_child, rightmost_leaf, height_child, height}
use b_link.Tree.Invariant.{Page, IsActive, Inv, high_fence}

last_of_length :
    (xs : List Addr) (i : ℕ) (c : Addr)
    → length xs ≡ suc i
    → get_elem? xs i ≡ some c
    → Bounded.last xs ≡ some c
unfolding Bounded.last
last_of_length xs i c size at =
    let some_there : (length xs == 0) ≡ false = ground arith in
    let index : length xs - 1 ≡ i = omega arith in rw (some_there, index) at

module _ {K V : Type 0} ⦃o : Ord K⦄ where
  module _ {n : ℕ} {t : Tree K V} {level : Addr → ℕ} (inv : Inv n t level) where
    -- `leftmost_leaf` from a page without a lower fence.
    pub left_down :
        (l : ℕ) (a : Addr) (p : Node K V)
        → Page t a p
        → IsActive p
        → level a ≡ l
        → p.low_key ≡ none
        → (kind : NodeKind K V) → p.kind ≡ kind
        → (b : Addr) × (q : Node K V) × (contents : LeafNode K V) × Settles
            (λ rounds. leftmost_leaf rounds t a)
            b
          × Page t b q
          × (q.kind ≡ leaf contents)
          × (q.low_key ≡ none)
    unfolding leftmost_leaf left_child Bounded.index
    left_down l a p at active on low (redirect c) is = absurd (let h = rw is at active in cc)
    left_down l a p at active on low (leaf contents) is = (
      a,
      p,
      contents,
      Settles-now (λ rounds. leftmost_leaf rounds t a) a (λ r. rw (at, is) refl),
      at,
      is,
      low,
    )
    left_down zero a p at active on low (internal contents) is =
        let (m, above, shape) = rw is at (inv.page a p at).kind in absurd (omega (arith, on, above))
    left_down (suc l) a p at active on low (internal contents) is =
        let (m, above, shape) = rw is at (inv.page a p at).kind in
        let (c, first) = get_elem?-lt contents.children 0 (omega (arith, shape.counted)) in
        let child = shape.children 0 c first in
        let (b, q, contents', settles, at', is', low') =
          left_down l c child.page child.at child.active (omega (arith, on, above, child.on_level))
            (child.low_key ∙ low) child.page.kind refl in
        (
          b,
          q,
          contents',
          Settles-later (λ rounds. leftmost_leaf rounds t a) (λ rounds. leftmost_leaf rounds t c) b
              (λ r. rw (at, is, first) refl) settles,
          at',
          is',
          low',
        )

    -- `rightmost_leaf` from a page without an upper fence.
    pub right_down :
        (l : ℕ) (a : Addr) (p : Node K V)
        → Page t a p
        → IsActive p
        → level a ≡ l
        → p.high_key ≡ none
        → (kind : NodeKind K V) → p.kind ≡ kind
        → (b : Addr) × (q : Node K V) × (contents : LeafNode K V) × Settles
            (λ rounds. rightmost_leaf rounds t a)
            b
          × Page t b q
          × (q.kind ≡ leaf contents)
          × (q.high_key ≡ none)
    unfolding rightmost_leaf right_child
    right_down l a p at active on high (redirect c) is = absurd (let h = rw is at active in cc)
    right_down l a p at active on high (leaf contents) is =
        let links : p.right ≡ none = rw high at ((inv.page a p at).successor active) in
        (
          a,
          p,
          contents,
          Settles-now (λ rounds. rightmost_leaf rounds t a) a (λ r. rw (at, is, links) refl),
          at,
          is,
          high,
        )
    right_down zero a p at active on high (internal contents) is =
        let (m, above, shape) = rw is at (inv.page a p at).kind in absurd (omega (arith, on, above))
    right_down (suc l) a p at active on high (internal contents) is =
        let (m, above, shape) = rw is at (inv.page a p at).kind in
        let i = length contents.keys in
        let (c, final) = get_elem?-lt contents.children i (omega (arith, shape.counted)) in
        let child = shape.children i c final in
        let ends : high_fence p.high_key contents.keys i ≡ none =
          rw (get_elem?-ge contents.keys i (omega arith)) high in
        let (b, q, contents', settles, at', is', high') =
          right_down l c child.page child.at child.active (omega (arith, on, above, child.on_level))
            (child.high_key ∙ ends) child.page.kind refl in
        let ending = last_of_length contents.children i c shape.counted final in
        (
          b,
          q,
          contents',
          Settles-later (λ rounds. rightmost_leaf rounds t a) (λ rounds. rightmost_leaf rounds t c)
              b (λ r. rw (at, is, ending) refl) settles,
          at',
          is',
          high',
        )

    height_from :
        (l : ℕ) (a : Addr) (p : Node K V) (levels : ℕ)
        → Page t a p
        → IsActive p
        → level a ≡ l
        → (kind : NodeKind K V) → p.kind ≡ kind
        → Settles (λ rounds. height rounds t a levels) (levels + l)
    unfolding height height_child Bounded.index
    height_from l a p levels at active on (redirect c) is = absurd (let h = rw is at active in cc)
    height_from l a p levels at active on (leaf contents) is =
        let none_below : levels ≡ levels + l =
          omega (arith, on, (rw is at (inv.page a p at).kind).0) in
        Settles-now (λ rounds. height rounds t a levels) (levels + l)
          (λ r. rw (at, is) (ap ok none_below))
    height_from zero a p levels at active on (internal contents) is =
        let (m, above, shape) = rw is at (inv.page a p at).kind in absurd (omega (arith, on, above))
    height_from (suc l) a p levels at active on (internal contents) is =
        let (m, above, shape) = rw is at (inv.page a p at).kind in
        let (c, first) = get_elem?-lt contents.children 0 (omega (arith, shape.counted)) in
        let child = shape.children 0 c first in
        let rest =
          height_from l c child.page (levels + 1) child.at child.active
            (omega (arith, on, above, child.on_level)) child.page.kind refl in
        let sum : levels + 1 + l ≡ levels + suc l = omega arith in
        Settles-later (λ rounds. height rounds t a levels)
          (λ rounds. height rounds t c (levels + 1)) (levels + suc l) (λ r. rw (at, is, first) refl)
          (rw sum at rest)

    -- In a tree in order, `height` returns the number of levels: each leaf is as far from the root.
    pub height-level : Settles (λ rounds. height rounds t t.root 1) (suc (level t.root))
    height-level =
        let root = inv.root in
        let sum : 1 + level t.root ≡ suc (level t.root) = omega arith in
        rw sum at (
          height_from (level t.root) t.root root.page 1 root.at root.active refl root.page.kind
            refl)

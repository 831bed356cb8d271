-- ===== src/Tree/Invariant/Cut.antt =====
-- The two parts into which a full leaf or a full internal page of src/node.rs is cut.
use b_link.Prelude.{
  ℕ, zero, suc, ◌+◌, ◌-◌, ◌/◌, ◌≤◌, ◌<◌, ◌≡◌, sym, ap, ◌∙◌, Option, some, List, [], ◌∷◌, ◌++◌,
  arith, length, get_elem?, take, drop, erase_idx, length-take, length-drop, length-erase_idx,
  get_elem?-take, get_elem?-drop, get_elem?-erase_idx, lt_of_get_elem?, take-append-drop, drop-cons,
  All-get_elem?,
}
use b_link.Ord.{Ord, ◌≺◌}
use b_link.Node.{Addr, Entry, InternalNode}
use b_link.Records.{IsSorted, Within}
use b_link.Tree.{Tree}
use b_link.Tree.Invariant.{IsLeaf, IsInternal, Above}
use b_link.Tree.Invariant.Leaves.{before-IsLeaf, from-IsLeaf, AtLeast-Above}
use b_link.Tree.Invariant.Piece.{prefix-IsInternal, suffix-IsInternal}

module _ {K V : Type 0} ⦃o : Ord K⦄ {t : Tree K V} {level : Addr → ℕ} {n l : ℕ}
    {low high : Option K} (large : 3 ≤ n) where
  module _ (node : InternalNode K) (shape : IsInternal t level n l low high node)
      (full : length node.keys ≡ n) (separator : K)
      (at : get_elem? node.keys (n / 2) ≡ some separator) where
    abbrev pub rest : List K
    rest = erase_idx node.keys (n / 2)

    abbrev pub lower : InternalNode K
    lower = record { keys = take (n / 2) rest; children = take (n / 2 + 1) node.children }

    abbrev pub upper : InternalNode K
    upper = record { keys = drop (n / 2) rest; children = drop (n / 2 + 1) node.children }

    pub rest_size : length node.keys ≡ suc (length rest)
    rest_size = sym (length-erase_idx node.keys (n / 2) (omega (arith, full)))

    pub lower_size : length lower.keys ≡ n / 2
    lower_size = length-take (n / 2) rest (omega (arith, rest_size, full))

    pub upper_size : length upper.keys ≡ n - 1 - n / 2
    upper_size = omega (arith, length-drop (n / 2) rest, rest_size, full)

    pub lower-IsInternal : IsInternal t level n l low (some separator) lower
    lower-IsInternal =
        prefix-IsInternal shape (n / 2) separator at lower lower_size
          (λ i h.
            ground
              (arith, get_elem?-take (n / 2) rest i h, get_elem?-erase_idx node.keys (n / 2) i))
          (omega
            (arith, length-take (n / 2 + 1) node.children (omega (arith, shape.counted, full))))
          (λ i h. get_elem?-take (n / 2 + 1) node.children i (omega arith)) (omega arith)

    pub upper-IsInternal : IsInternal t level n l (some separator) high upper
    upper-IsInternal =
        suffix-IsInternal shape (n / 2) separator at upper (omega (arith, upper_size, full))
          (λ i. ground (
            arith,
            get_elem?-drop (n / 2) rest i,
            get_elem?-erase_idx node.keys (n / 2) (n / 2 + i),
          ))
          (omega (arith, length-drop (n / 2 + 1) node.children, shape.counted, full))
          (λ i.
            let next : n / 2 + 1 + i ≡ suc (n / 2 + i) = omega arith in
            get_elem?-drop (n / 2 + 1) node.children i ∙ ap (get_elem? node.children) next)
          (omega (arith, upper_size))

module _ {K V : Type 0} ⦃o : Ord K⦄ {n : ℕ} {low high : Option K} where
  module _ (es : List (Entry K V)) (shape : IsLeaf n low high es) (full : length es ≡ n)
      (e : Entry K V) (at : get_elem? es (n / 2) ≡ some e) where
    pub parts : take (n / 2) es ++ (e ∷ drop (suc (n / 2)) es) ≡ es
    parts =
        ap (λ ys. take (n / 2) es ++ ys) (sym (drop-cons (n / 2) es e at))
        ∙ take-append-drop (n / 2) es

    ordered : IsSorted (take (n / 2) es ++ (e ∷ drop (suc (n / 2)) es))
    ordered = rw parts shape.sorted

    fenced : Within low high (take (n / 2) es ++ (e ∷ drop (suc (n / 2)) es))
    fenced = rw parts shape.within

    pub lower-IsLeaf : IsLeaf n low (some e.key) (take (n / 2) es)
    lower-IsLeaf =
        before-IsLeaf low high (take (n / 2) es) e (drop (suc (n / 2)) es) ordered fenced
          (omega (arith, length-take (n / 2) es (omega (arith, full))))

    pub upper-IsLeaf : IsLeaf n (some e.key) high (e ∷ drop (suc (n / 2)) es)
    upper-IsLeaf =
        from-IsLeaf low high (take (n / 2) es) e (drop (suc (n / 2)) es) ordered fenced
          (omega (arith, length-drop (suc (n / 2)) es, full, lt_of_get_elem? es (n / 2) e at))

  -- The first record of a leaf that is cut is below the record at which it is cut.
  pub Above-cut :
      (es : List (Entry K V)) (m : ℕ) (e : Entry K V)
      → 0 < m
      → get_elem? es m ≡ some e
      → IsLeaf n low high es
      → Above low e.key
  Above-cut [] m e h at shape = absurd cc
  Above-cut (x ∷ xs) zero e h at shape = absurd (omega arith)
  Above-cut (x ∷ xs) (suc m) e h at shape =
      AtLeast-Above low x.key e.key shape.within.0.0
        (All-get_elem? (λ y. x.key ≺ y.key) xs m e shape.sorted.0 at)

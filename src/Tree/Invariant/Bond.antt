-- ===== src/Tree/Invariant/Bond.antt =====
-- Two neighbouring pages of src/node.rs: the parts of a page that is split, or the siblings of
-- which one lends a record to the other or is merged into it.
use b_link.Prelude.{ℕ, ◌≡◌, Option, some, List, [], ◌++◌, false}
use b_link.Ord.{Ord, Below}
use b_link.Node.{Addr, Entry, NodeKind, leaf, is_redirect}
use b_link.Tree.{Tree}
use b_link.Tree.Invariant.{IsKind, Above}

module _ {K V : Type 0} where
  abbrev pub records : NodeKind K V → List (Entry K V)
  records (leaf contents) = contents.entries
  records kind = []

module _ {K V : Type 0} ⦃o : Ord K⦄ (t : Tree K V) (level : Addr → ℕ) (n l : ℕ)
    (low high : Option K) where
  -- In order between the outer fences and the separator, with the records `es` between them.
  pub record Bond (es : List (Entry K V)) (separator : K) (left right : NodeKind K V) : Type 0 where
    pub lower : IsKind t level n l low (some separator) left
    pub upper : IsKind t level n l (some separator) high right
    pub above : Above low separator
    pub below : Below high separator
    pub lower_active : is_redirect left ≡ false
    pub upper_active : is_redirect right ≡ false
    pub kept : records left ++ records right ≡ es

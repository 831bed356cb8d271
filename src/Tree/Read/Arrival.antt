-- ===== src/Tree/Read/Arrival.antt =====
-- `leaf_read_for` and `get` of src/node.rs in a tree that no writer disturbs.
use b_link.Prelude.{
  ℕ, zero, suc, ◌≡◌, refl, sym, ◌∙◌, false, Option, none, some, arith, get_elem?, ok,
}
use b_link.Ord.{Ord, ◌≈◌, AtLeast, Below}
use b_link.Array.Bounded
use b_link.Node.{
  Addr, Entry, InternalNode, LeafNode, NodeKind, internal, leaf, redirect, Node, here, route,
  route_active, route_kind, below_fence, above_fence,
}
use b_link.Node.Leaf
use b_link.Node.Leaf.{SearchResult, found, absent, search_entries}
use b_link.Node.Leaf.Contents.{Answers, search_entries-Answers}
use b_link.Node.Search.{child_index}
use b_link.Tree.{Tree, move, visit, follow, visit_kind, next_page, leaf_read_for}
use b_link.Tree.Read.{get, get_kind, index_of}
use b_link.Tree.Invariant.{Page, IsActive, Owns, IsLeaf, Inv}
use b_link.Tree.Invariant.Routing.{child-Owns}
use b_link.Tree.Invariant.Contents.{Represents}

module _ {K : Type 0} ⦃o : Ord K⦄ where
  below_fence-AtLeast : (low : Option K) (k : K) → AtLeast low k → below_fence low k ≡ false
  below_fence-AtLeast none k h = refl
  below_fence-AtLeast (some low) k h = ground arith

  above_fence-Below : (high : Option K) (k : K) → Below high k → above_fence high k ≡ false
  above_fence-Below none k h = refl
  above_fence-Below (some high) k h = ground arith

module _ {K V : Type 0} ⦃o : Ord K⦄ where
  route_kind-here :
      (p : Node K V) (k : K) (kind : NodeKind K V)
      → p.kind ≡ kind
      → IsActive p
      → Owns p k
      → route_kind kind (route_active p k) ≡ ok here
  unfolding route_kind route_active
  route_kind-here p k (redirect b) is active owns = absurd (let h = rw is at active in cc)
  route_kind-here p k (leaf contents) is active owns =
      rw (below_fence-AtLeast p.low_key k owns.0, above_fence-Below p.high_key k owns.1) refl
  route_kind-here p k (internal contents) is active owns =
      rw (below_fence-AtLeast p.low_key k owns.0, above_fence-Below p.high_key k owns.1) refl

  pub route-here : (p : Node K V) (k : K) → IsActive p → Owns p k → route p k ≡ ok here
  unfolding route
  route-here p k active owns = route_kind-here p k p.kind refl active owns

  visit-internal :
      (p : Node K V) (contents : InternalNode K) (k : K) (i : ℕ) (c : Addr)
      → p.kind ≡ internal contents
      → route p k ≡ ok here
      → child_index contents k ≡ ok i
      → get_elem? contents.children i ≡ some c
      → visit p k ≡ ok (move c)
  unfolding visit follow visit_kind Bounded.index
  visit-internal p contents k i c is routes selects at = rw (routes, is, selects, at) refl

  leaf_read_for-move :
      (rounds : ℕ) (t : Tree K V) (k : K) (a c : Addr) (p : Node K V)
      → Page t a p
      → visit p k ≡ ok (move c)
      → leaf_read_for (suc rounds) t k a ≡ leaf_read_for rounds t k c
  unfolding leaf_read_for next_page
  leaf_read_for-move rounds t k a c p at visits = rw (at, visits) refl

  -- The leaf that owns a key, where a traversal ends.
  pub record Arrives (t : Tree K V) (k : K) (a : Addr) : Type 0 where
    pub page : Node K V
    pub contents : LeafNode K V
    pub at : Page t a page
    pub is_leaf : page.kind ≡ leaf contents
    pub owns : Owns page k

  module _ {n : ℕ} {t : Tree K V} {level : Addr → ℕ} (inv : Inv n t level) (k : K) where
    down :
        (l : ℕ) (a : Addr) (p : Node K V)
        → Page t a p
        → IsActive p
        → level a ≡ l
        → Owns p k
        → (kind : NodeKind K V) → p.kind ≡ kind
        → (b : Addr) × (leaf_read_for (suc l) t k a ≡ ok b) × Arrives t k b
    unfolding leaf_read_for visit follow visit_kind next_page Bounded.index
    down l a p at active on owns (redirect b) is = absurd (let h = rw is at active in cc)
    down l a p at active on owns (leaf contents) is = (
      a,
      rw (at, route-here p k active owns, is) refl,
      record { page = p; contents = contents; at = at; is_leaf = is; owns = owns },
    )
    down zero a p at active on owns (internal contents) is =
        let (m, above, shape) = rw is at (inv.page a p at).kind in absurd (omega (arith, on, above))
    down (suc l) a p at active on owns (internal contents) is =
        let (m, above, shape) = rw is at (inv.page a p at).kind in
        let (i, c, selects, child_at, splits, owned) =
          child-Owns p.low_key p.high_key contents k shape owns in
        let child = shape.children i c child_at in
        let (b, reads, arrives) =
          down l c child.page child.at child.active (omega (arith, on, above, child.on_level))
            (rw (child.low_key, child.high_key) owned) child.page.kind refl in
        (
          b,
          leaf_read_for-move (suc l) t k a c p at
                (visit-internal p contents k i c is (route-here p k active owns) selects child_at)
              ∙ reads,
          arrives,
        )

    -- In a tree in order, `leaf_read_for` from the root returns after as many rounds as the tree
    -- has levels, at the leaf that owns the key.
    pub leaf_read_for-Arrives :
        (b : Addr) × (leaf_read_for (suc (level t.root)) t k t.root ≡ ok b) × Arrives t k b
    leaf_read_for-Arrives =
        let root = inv.root in
        down (level t.root) t.root root.page root.at root.active refl
          (rw (root.low_key, root.high_key) (tt, tt)) root.page.kind refl

  -- What `get` answers of a key: the place of a record with the value, or no record.
  unfoldable pub Locates : Tree K V → Option V → K → Option (Addr × ℕ) → Type 0
  Locates t value k none = value ≡ none
  Locates t value k (some (a, i)) =
      (p : Node K V) × (contents : LeafNode K V) × (e : Entry K V) × Page t a p
      × (p.kind ≡ leaf contents)
      × (get_elem? contents.entries i ≡ some e)
      × (e.key ≈ k)
      × (value ≡ some e.value)

  module _ {n : ℕ} {t : Tree K V} {level : Addr → ℕ} (inv : Inv n t level) (m : K → Option V)
      (rep : Represents t m) (k : K) where
    get_kind-Locates :
        (a : Addr) (p : Node K V) (contents : LeafNode K V)
        → Page t a p
        → p.kind ≡ leaf contents
        → Owns p k
        → (r : SearchResult) → Answers contents.entries k r
        → Locates t (m k) k (elim (index_of r) [ none ↦ none | some i ↦ some (a, i) ])
    unfolding index_of Locates
    get_kind-Locates a p contents at is owns (absent i) (inside, value, inserts, deletes) =
        sym (rep a p contents k at is owns) ∙ value
    get_kind-Locates a p contents at is owns (found i)
          (e, there, same, value, sets, erases, inside) =
        (p, contents, e, at, is, there, same, sym (rep a p contents k at is owns) ∙ value)

    -- In a tree in order that stands for the map `m`, `get` returns after as many rounds as the
    -- tree has levels, with the place of a record of the key that holds the value of `m`, or
    -- without one if `m` has none.
    pub get-Locates :
        (r : Option (Addr × ℕ)) × (get (suc (level t.root)) t k ≡ ok r) × Locates t (m k) k r
    unfolding get get_kind Leaf.search
    get-Locates =
        let (a, reads, arrives) = leaf_read_for-Arrives inv k in
        let contents = arrives.contents in
        let shape : IsLeaf n arrives.page.low_key arrives.page.high_key contents.entries =
          (rw (arrives.is_leaf) at (inv.page a arrives.page arrives.at).kind).1 in
        let answers = search_entries-Answers contents.entries k shape.sorted in
        (
          elim (index_of (search_entries contents.entries k)) [
            | none ↦ none
            | some i ↦ some (a, i)
          ],
          rw (reads, arrives.at, arrives.is_leaf) refl,
          get_kind-Locates a arrives.page contents arrives.at arrives.is_leaf arrives.owns _
              answers,
        )

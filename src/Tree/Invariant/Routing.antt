-- ===== src/Tree/Invariant/Routing.antt =====
-- A round of a traversal of src/node.rs at any page of a tree in order, however stale its route.
use b_link.Prelude.{
  ℕ, zero, suc, ◌<◌, ◌≡◌, refl, inl, inr, true, false, Option, none, some, List, arith, Bool-cases,
  length, get_elem?, get_elem?-lt, lt_of_get_elem?, ok,
}
use b_link.Ord.{Ord, ◌≺◌, Between, AtLeast, Below}
use b_link.Array.Bounded
use b_link.Node.{
  Addr, InternalNode, LeafNode, NodeKind, internal, leaf, redirect, Node, Route, restart, to_right,
  here, below_fence, above_fence, route_active, route_kind, route,
}
use b_link.Node.Search.{child_index}
use b_link.Node.Search.UpperBound.{Splits, child_index-Splits}
use b_link.Tree.{Tree, Visit, again, move, arrived, follow, visit_kind, visit}
use b_link.Tree.Invariant.{
  Page, IsActive, Forwards, stop, step, HasSuccessor, Owns, IsPage, IsInternal, low_fence,
  high_fence, or_else,
}

module _ {K : Type 0} ⦃o : Ord K⦄ where
  AtLeast-of_test : (low : Option K) (k : K) → below_fence low k ≡ false → AtLeast low k
  AtLeast-of_test none k h = tt
  AtLeast-of_test (some low) k h = ground arith

  Below-of_test : (high : Option K) (k : K) → above_fence high k ≡ false → Below high k
  Below-of_test none k h = tt
  Below-of_test (some high) k h = ground arith

  AtLeast-low :
      (low : Option K) (keys : List K) (k : K) (i : ℕ)
      → Splits keys k i
      → AtLeast low k
      → AtLeast (low_fence low keys i) k
  AtLeast-low low keys k zero splits h = h
  AtLeast-low low keys k (suc j) splits h =
      let (a, at) = get_elem?-lt keys j (omega (arith, splits.inside)) in
      rw at (splits.below j a (omega arith) at)

  Below-high :
      (high bound : Option K) (k : K)
      → Below high k
      → ((a : K) → bound ≡ some a → k ≺ a)
      → Below (or_else bound high) k
  Below-high high none k h above = h
  Below-high high (some a) k h above = above a refl

module _ {K V : Type 0} where
  pub Forwards-lt :
      {t : Tree K V} {a b : Addr} (q : Node K V) → Page t b q → Forwards t a b → a < length t.pages
  Forwards-lt {t} q at stop = lt_of_get_elem? t.pages _ q at
  Forwards-lt {t} q at (step p at' redirected rest) = lt_of_get_elem? t.pages _ p at'

module _ {K V : Type 0} (t : Tree K V) (level : Addr → ℕ) where
  -- A right link is a page of the tree.
  pub right-lt :
      (l : ℕ) (high : Option K) (right : Option Addr)
      → HasSuccessor t level l high right
      → (b : Addr) → right ≡ some b
      → b < length t.pages
  right-lt l none right h b e = absurd cc
  right-lt l (some fence) none h b e = absurd h
  right-lt l (some fence) (some r) h b e =
      let same : r ≡ b = cc in omega (arith, same, Forwards-lt h.page h.at h.leads)

module _ {K V : Type 0} ⦃o : Ord K⦄ where
  -- Where `route` sends a key, and what is known there.
  abbrev pub Routed : Tree K V → Node K V → K → Route → Type 0
  Routed t p k restart = Unit
  Routed t p k (to_right b) = b < length t.pages
  Routed t p k here = IsActive p × Owns p k

  has_right :
      (t : Tree K V) (level : Addr → ℕ) (l : ℕ) (high : Option K) (right : Option Addr) (k : K)
      → HasSuccessor t level l high right
      → above_fence high k ≡ true
      → (r : Addr) × (right ≡ some r) × (r < length t.pages)
  has_right t level l none right k h over = absurd cc
  has_right t level l (some fence) none k h over = absurd h
  has_right t level l (some fence) (some r) k h over = (r, refl, Forwards-lt h.page h.at h.leads)

  route_active-Routed :
      {n : ℕ} {t : Tree K V} {level : Addr → ℕ} (a : Addr) (p : Node K V) (k : K)
      → IsPage t level n a p
      → IsActive p
      → (r : Route) × (route_active p k ≡ ok r) × Routed t p k r
  unfolding route_active
  route_active-Routed {t} {level} a p k inv active = elim (Bool-cases (below_fence p.low_key k)) [
    | inl under ↦ (restart, rw under, tt)
    | inr reached ↦ elim (Bool-cases (above_fence p.high_key k)) [
      | inr inside ↦ (
        here,
        rw (reached, inside),
        (active, (AtLeast-of_test p.low_key k reached, Below-of_test p.high_key k inside)),
      )
      | inl over ↦
          let (r, right, valid) =
            has_right t level (level a) p.high_key p.right k (inv.successor active) over in
          (to_right r, rw (reached, over, right), valid)
    ]
  ]

  route_kind-Routed :
      {n : ℕ} {t : Tree K V} {level : Addr → ℕ} (a : Addr) (p : Node K V) (k : K)
      → IsPage t level n a p
      → (kind : NodeKind K V) → p.kind ≡ kind
      → (r : Route) × (route_kind kind (route_active p k) ≡ ok r) × Routed t p k r
  unfolding route_kind
  route_kind-Routed {n} {t} {level} a p k inv (redirect target) e =
      (to_right target, refl, rw e at inv.kind)
  route_kind-Routed a p k inv (leaf contents) e = route_active-Routed a p k inv (rw e)
  route_kind-Routed a p k inv (internal contents) e = route_active-Routed a p k inv (rw e)

  -- `route` never finds a missing sibling; it keeps a key only at an active page that owns it.
  pub route-Routed :
      {n : ℕ} {t : Tree K V} {level : Addr → ℕ} (a : Addr) (p : Node K V) (k : K)
      → IsPage t level n a p
      → (r : Route) × (route p k ≡ ok r) × Routed t p k r
  unfolding route
  route-Routed a p k inv = route_kind-Routed a p k inv p.kind refl

  -- The child that `child_index` selects owns the key, if the page does.
  pub child-Owns :
      {n l : ℕ} {t : Tree K V} {level : Addr → ℕ} (low high : Option K) (node : InternalNode K)
      (k : K)
      → IsInternal t level n l low high node
      → Between low high k
      → (i : ℕ) × (c : Addr) × (child_index node k ≡ ok i)
        × (get_elem? node.children i ≡ some c)
        × Splits node.keys k i
        × Between (low_fence low node.keys i) (high_fence high node.keys i) k
  child-Owns low high node k inv owns =
      let (i, found, splits) = child_index-Splits node k inv.ascends in
      let (c, at) = get_elem?-lt node.children i (omega (arith, splits.inside, inv.counted)) in
      (
        i,
        c,
        found,
        at,
        splits,
        (
          AtLeast-low low node.keys k i splits owns.0,
          Below-high high (get_elem? node.keys i) k owns.1 (λ a. splits.above i a (omega arith)),
        ),
      )

  -- One round of a traversal at any page: it goes on at a page of the tree, or it has arrived at a
  -- leaf that owns the key.
  abbrev pub Visited : Tree K V → Node K V → K → Visit → Type 0
  Visited t p k again = Unit
  Visited t p k (move b) = b < length t.pages
  Visited t p k arrived = (contents : LeafNode K V) × (p.kind ≡ leaf contents) × Owns p k

  visit_kind-Visited :
      {n : ℕ} {t : Tree K V} {level : Addr → ℕ} (a : Addr) (p : Node K V) (k : K)
      → IsPage t level n a p
      → IsActive p
      → Owns p k
      → (kind : NodeKind K V) → p.kind ≡ kind
      → (v : Visit) × (visit_kind kind k ≡ ok v) × Visited t p k v
  unfolding visit_kind Bounded.index
  visit_kind-Visited a p k inv active owns (redirect target) e =
      absurd (let h = rw e at active in cc)
  visit_kind-Visited a p k inv active owns (leaf contents) e = (arrived, refl, (contents, e, owns))
  visit_kind-Visited {t} a p k inv active owns (internal contents) e =
      let (m, above, shape) = rw e at inv.kind in
      let (i, c, found, at, splits, owned) =
        child-Owns p.low_key p.high_key contents k shape owns in
      let child = shape.children i c at in
      (move c, rw (found, at), lt_of_get_elem? t.pages c child.page child.at)

  follow-Visited :
      {n : ℕ} {t : Tree K V} {level : Addr → ℕ} (a : Addr) (p : Node K V) (k : K)
      → IsPage t level n a p
      → (r : Route) → Routed t p k r
      → (v : Visit) × (follow p.kind k r ≡ ok v) × Visited t p k v
  unfolding follow
  follow-Visited a p k inv restart routed = (again, refl, tt)
  follow-Visited a p k inv (to_right b) routed = (move b, refl, routed)
  follow-Visited a p k inv here routed = visit_kind-Visited a p k inv routed.0 routed.1 p.kind refl

  -- At a page of a tree that is in order, a round of a traversal returns: it starts again, it goes
  -- on at a page of the tree, or it has arrived at a leaf that owns the key.
  pub visit-Visited :
      {n : ℕ} {t : Tree K V} {level : Addr → ℕ} (a : Addr) (p : Node K V) (k : K)
      → IsPage t level n a p
      → (v : Visit) × (visit p k ≡ ok v) × Visited t p k v
  unfolding visit
  visit-Visited a p k inv =
      let (r, routes, routed) = route-Routed a p k inv in
      let (v, visits, visited) = follow-Visited a p k inv r routed in
      (v, rw (routes, visits), visited)

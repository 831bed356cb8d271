-- ===== src/Tree/Invariant/Parentage.antt =====
-- A page of src/node.rs and its parent: no other page has it among its children, and none has it
-- twice.
use Prim.Native.Nat.Ordering.{lt}
use b_link.Prelude.{
  ℕ, zero, suc, ◌≤◌, ◌<◌, ◌≡◌, refl, sym, ap, ◌∙◌, subst, inl, inr, Option, some, arith, ltb,
  Bool-cases, length, get_elem?, get_elem?-lt, lt_of_get_elem?,
}
use b_link.Ord.{Ord, ◌≺◌, cmp_refl}
use b_link.Node.{Addr, InternalNode, internal, Node}
use b_link.Tree.{Tree}
use b_link.Tree.Invariant.{Page, IsActive, Owns, Above, IsInternal, Inv, low_fence}
use b_link.Tree.Invariant.Pages.{Page-unique}
use b_link.Tree.Invariant.Separator.{child-Between}

module _ {K : Type 0} ⦃o : Ord K⦄ where
  irreflexive : {A : Type 0} (a b : K) → a ≡ b → a ≺ b → A
  irreflexive a b e h =
      let same : o.cmp a a ≡ lt = subst (λ x. o.cmp a x ≡ lt) (sym e) h in
      absurd (ground (arith, cmp_refl a))

module _ {K V : Type 0} ⦃o : Ord K⦄ {t : Tree K V} {level : Addr → ℕ} {n l : ℕ}
    {low high : Option K} {node : InternalNode K} (s : IsInternal t level n l low high node) where
  before_low :
      {A : Type 0} (i j : ℕ)
      → i < j
      → j ≤ length node.keys
      → low_fence low node.keys i ≡ low_fence low node.keys j
      → A
  before_low i zero h inside e = absurd (omega arith)
  before_low zero (suc j) h inside e =
      let (b, at) = get_elem?-lt node.keys j (omega arith) in
      let bound : low ≡ some b = e ∙ at in
      let above : Above (some b) b = subst (λ x. Above x b) bound (s.inside j b at).0 in
      irreflexive b b refl above
  before_low (suc i) (suc j) h inside e =
      let (a, at) = get_elem?-lt node.keys i (omega arith) in
      let (b, at') = get_elem?-lt node.keys j (omega arith) in
      let same : a ≡ b = cc in irreflexive a b same (s.ascends i j a b (omega arith) at at')

  -- The lower fences of two children differ.
  low_fence_inj :
      (i j : ℕ)
      → i ≤ length node.keys
      → j ≤ length node.keys
      → low_fence low node.keys i ≡ low_fence low node.keys j
      → j ≡ i
  low_fence_inj i j h h' e = elim (Bool-cases (ltb i j)) [
    | inl before ↦ before_low i j (ground arith) h' e
    | inr after ↦ elim (Bool-cases (ltb j i)) [
      | inl before ↦ before_low j i (ground arith) h (sym e)
      | inr after' ↦ ground arith
    ]
  ]

module _ {K V : Type 0} ⦃o : Ord K⦄ {n : ℕ} {t : Tree K V} {level : Addr → ℕ} (inv : Inv n t level)
    (c : Addr) (p : Node K V) (at : Page t c p) (k : K) (owns : Owns p k) where
  -- A page that has the child at an index.
  record Held (a : Addr) (q : Node K V) (node : InternalNode K) (i : ℕ) : Type 0 where
    active : IsActive q
    shape : IsInternal t level n (level c) q.low_key q.high_key node
    one_above : level a ≡ suc (level c)
    inside : i ≤ length node.keys
    low : p.low_key ≡ low_fence q.low_key node.keys i
    owned : Owns q k

  held :
      (a : Addr) (q : Node K V) (node : InternalNode K) (i : ℕ)
      → Page t a q
      → q.kind ≡ internal node
      → get_elem? node.children i ≡ some c
      → Held a q node i
  held a q node i q_at is found =
      let (m, above, s) = rw is at (inv.page a q q_at).kind in
      let child = s.children i c found in
      let same : p ≡ child.page = Page-unique t c p child.page at child.at in
      let low = ap (λ (x : Node K V). x.low_key) same ∙ child.low_key in
      let high = ap (λ (x : Node K V). x.high_key) same ∙ child.high_key in
      let inside : i ≤ length node.keys =
        omega (arith, lt_of_get_elem? node.children i c found, s.counted) in
      record {
        active = rw is;
        shape =
            subst (λ x. IsInternal t level n x q.low_key q.high_key node) (sym child.on_level) s;
        one_above = omega (arith, above, child.on_level);
        inside = inside;
        low = low;
        owned = child-Between s i k inside (rw (← low, ← high) owns);
      }

  pub one_parent :
      (a : Addr) (q : Node K V) (node : InternalNode K) (i : ℕ)
      → Page t a q
      → q.kind ≡ internal node
      → get_elem? node.children i ≡ some c
      → (b : Addr) (r : Node K V) (other : InternalNode K) (j : ℕ) → Page t b r
      → r.kind ≡ internal other
      → get_elem? other.children j ≡ some c
      → a ≡ b
  one_parent a q node i q_at is found b r other j r_at is' found' =
      let x = held a q node i q_at is found in
      let y = held b r other j r_at is' found' in
      inv.disjoint a b q r k q_at r_at x.active y.active (omega (arith, x.one_above, y.one_above))
        x.owned y.owned

  pub one_place :
      (a : Addr) (q : Node K V) (node : InternalNode K) (i : ℕ)
      → Page t a q
      → q.kind ≡ internal node
      → get_elem? node.children i ≡ some c
      → (j : ℕ) → get_elem? node.children j ≡ some c
      → j ≡ i
  one_place a q node i q_at is found j found' =
      let x = held a q node i q_at is found in
      let y = held a q node j q_at is found' in
      low_fence_inj x.shape i j x.inside y.inside (sym x.low ∙ y.low)

-- ===== src/Tree/Invariant/Separator.antt =====
-- The parent of a page that `insert_attempt` of src/node.rs splits: a separator and a child more.
use b_link.Prelude.{
  ℕ, zero, suc, ◌+◌, ◌-◌, ◌≤◌, ◌<◌, ◌≡◌, ◌≢◌, refl, sym, ap, ◌∙◌, subst, inl, inr, ◌⊎◌, Option,
  none, some, List, arith, ◌==◌, ltb, if◌then◌else◌, Bool-cases, length, get_elem?, insert_idx,
  length-insert_idx, get_elem?-insert_idx, get_elem?-lt, lt_of_get_elem?,
}
use b_link.Ord.{Ord, ◌≺◌, AtLeast, Below, Between}
use b_link.Node.{Addr, InternalNode}
use b_link.Tree.{Tree}
use b_link.Tree.Invariant.{Child, IsInternal, Above, low_fence, high_fence, or_else}
use b_link.Tree.Invariant.Parts.{Below-separator, AtLeast-separator}

module _ {K : Type 0} ⦃o : Ord K⦄ where
  pub Above-trans : (low : Option K) (j k : K) → Above low j → j ≺ k → Above low k
  Above-trans none j k h below = tt
  Above-trans (some low) j k h below = o.cmp_trans low j k h below

module _ {K V : Type 0} ⦃o : Ord K⦄ {t : Tree K V} {level : Addr → ℕ} {n l : ℕ}
    {low high : Option K} {node : InternalNode K}
    (shape : IsInternal t level n l low high node) where
  -- A key between the fences of a child is between those of its parent.
  pub child-Between :
      (i : ℕ) (k : K)
      → i ≤ length node.keys
      → Between (low_fence low node.keys i) (high_fence high node.keys i) k
      → Between low high k
  child-Between i k inside owns =
      (from_low i inside owns.0, from_high (get_elem? node.keys i) refl owns.1)
    where
      from_low :
          (j : ℕ) → j ≤ length node.keys → AtLeast (low_fence low node.keys j) k → AtLeast low k
      from_low zero h owned = owned
      from_low (suc j) h owned =
          let (a, at) = get_elem?-lt node.keys j (omega arith) in
          AtLeast-separator low a k (shape.inside j a at).0 (rw at at owned)

      from_high :
          (bound : Option K)
          → get_elem? node.keys i ≡ bound
          → Below (or_else bound high) k
          → Below high k
      from_high none e owned = owned
      from_high (some a) e owned = Below-separator high a k (shape.inside i a e).1 owned

  -- The keys before an index are below one that is above the lower fence of the child there.
  pub key_below :
      (i : ℕ) (separator : K)
      → i ≤ length node.keys
      → Above (low_fence low node.keys i) separator
      → (j : ℕ) (a : K) → j < i
      → get_elem? node.keys j ≡ some a
      → a ≺ separator
  key_below zero separator inside above j a h at = absurd (omega arith)
  key_below (suc m) separator inside above j a h at =
      let (b, at') = get_elem?-lt node.keys m (omega arith) in
      let h' : b ≺ separator = rw at' at above in
      elim (Bool-cases (j == m)) [
        | inl same ↦
            let e : j ≡ m = ground arith in
            let one : a ≡ b =
              let x : get_elem? node.keys m ≡ some a = ap (get_elem? node.keys) (sym e) ∙ at in
              cc in
            subst (λ x. x ≺ separator) (sym one) h'
        | inr other ↦ o.cmp_trans a b separator (shape.ascends j m a b (ground arith) at at') h'
      ]

  -- The keys from an index on are above one that is below the upper fence of the child there.
  pub key_above :
      (i : ℕ) (separator : K)
      → Below (high_fence high node.keys i) separator
      → (j : ℕ) (a : K) → i ≤ j
      → get_elem? node.keys j ≡ some a
      → separator ≺ a
  key_above i separator below j a h at =
      let (b, at') = get_elem?-lt node.keys i (omega (arith, lt_of_get_elem? node.keys j a at)) in
      let h' : separator ≺ b = rw at' at below in
      elim (Bool-cases (i == j)) [
        | inl same ↦
            let e : i ≡ j = ground arith in
            let one : b ≡ a =
              let x : get_elem? node.keys j ≡ some b = ap (get_elem? node.keys) (sym e) ∙ at' in
              cc in
            subst (λ x. separator ≺ x) one h'
        | inr other ↦ o.cmp_trans separator b a h' (shape.ascends i j b a (ground arith) at' at)
      ]

  -- A key between the fences of a child is above the lower fence of its parent, and below the upper.
  pub Above-low :
      (m : ℕ) (separator : K)
      → m ≤ length node.keys
      → Above (low_fence low node.keys m) separator
      → Above low separator
  Above-low zero separator h above = above
  Above-low (suc m) separator h above =
      let (b, at) = get_elem?-lt node.keys m (omega arith) in
      Above-trans low b separator (shape.inside m b at).0 (rw at at above)

  pub Below-high :
      (m : ℕ) (separator : K) (bound : Option K)
      → get_elem? node.keys m ≡ bound
      → Below (or_else bound high) separator
      → Below high separator
  Below-high m separator none e below = below
  Below-high m separator (some b) e below =
      Below-separator high b separator (shape.inside m b e).1 below

  module _ (i : ℕ) (separator : K) (inside : i ≤ length node.keys)
      (above : Above (low_fence low node.keys i) separator)
      (below : Below (high_fence high node.keys i) separator) where
    abbrev pub keys : List K
    keys = insert_idx node.keys i separator

    key_at :
        (j : ℕ)
        → get_elem? keys j ≡ (
            if ltb j i
            then get_elem? node.keys j
            else if j == i
            then some separator
            else get_elem? node.keys (j - 1))
    key_at j = get_elem?-insert_idx node.keys i j separator inside

    below_separator : (j : ℕ) (a : K) → j < i → get_elem? node.keys j ≡ some a → a ≺ separator
    below_separator j a h at = key_below i separator inside above j a h at

    above_separator : (j : ℕ) (a : K) → i ≤ j → get_elem? node.keys j ≡ some a → separator ≺ a
    above_separator j a h at = key_above i separator below j a h at

    -- Where a separator of the new list comes from.
    KeyFrom : ℕ → K → Type 0
    KeyFrom j a =
        ((j < i) × (get_elem? node.keys j ≡ some a))
        ⊎ ((j ≡ i) × (separator ≡ a))
        ⊎ ((i < j) × (get_elem? node.keys (j - 1) ≡ some a))

    key_from : (j : ℕ) (a : K) → get_elem? keys j ≡ some a → KeyFrom j a
    unfolding KeyFrom
    key_from j a h = elim (Bool-cases (ltb j i)) [
      | inl before ↦ inl (ground arith, ground (arith, key_at j))
      | inr after ↦ elim (Bool-cases (j == i)) [
        | inl same ↦ inr (inl (ground arith, ground (arith, key_at j)))
        | inr other ↦ inr (inr (ground arith, ground (arith, key_at j)))
      ]
    ]

    ascends' : (j m : ℕ) (a b : K) → j < m → KeyFrom j a → KeyFrom m b → a ≺ b
    unfolding KeyFrom
    ascends' j m a b h (inl (p, x)) (inl (q, y)) = shape.ascends j m a b h x y
    ascends' j m a b h (inl (p, x)) (inr (inl (q, y))) =
        subst (λ z. a ≺ z) y (below_separator j a p x)
    ascends' j m a b h (inl (p, x)) (inr (inr (q, y))) =
        shape.ascends j (m - 1) a b (omega arith) x y
    ascends' j m a b h (inr (inl (p, x))) (inl (q, y)) = absurd (omega arith)
    ascends' j m a b h (inr (inl (p, x))) (inr (inl (q, y))) = absurd (omega arith)
    ascends' j m a b h (inr (inl (p, x))) (inr (inr (q, y))) =
        subst (λ z. z ≺ b) x (above_separator (m - 1) b (omega arith) y)
    ascends' j m a b h (inr (inr (p, x))) (inl (q, y)) = absurd (omega arith)
    ascends' j m a b h (inr (inr (p, x))) (inr (inl (q, y))) = absurd (omega arith)
    ascends' j m a b h (inr (inr (p, x))) (inr (inr (q, y))) =
        shape.ascends (j - 1) (m - 1) a b (omega arith) x y

    inside' : (j : ℕ) (a : K) → KeyFrom j a → Above low a × Below high a
    unfolding KeyFrom
    inside' j a (inl (p, x)) = shape.inside j a x
    inside' j a (inr (inl (p, x))) =
        subst (λ z. Above low z × Below high z) x
          (
            Above-low i separator inside above,
            Below-high i separator (get_elem? node.keys i) refl below,
          )
    inside' j a (inr (inr (p, x))) = shape.inside (j - 1) a x

    low_before : (j : ℕ) → j ≤ i → low_fence low keys j ≡ low_fence low node.keys j
    low_before zero h = refl
    low_before (suc j) h = ground (arith, key_at j)

    low_after : (j : ℕ) → i < j → low_fence low keys (suc j) ≡ low_fence low node.keys j
    low_after zero h = absurd (omega arith)
    low_after (suc j) h = ground (arith, key_at (suc j))

    high_before : (j : ℕ) → j < i → high_fence high keys j ≡ high_fence high node.keys j
    high_before j h = ground (arith, key_at j)

    high_after : (j : ℕ) → i ≤ j → high_fence high keys (suc j) ≡ high_fence high node.keys j
    high_after j h = ground (arith, key_at (suc j))

    low_here : low_fence low keys (suc i) ≡ some separator
    low_here = ground (arith, key_at i)

    high_here : high_fence high keys i ≡ some separator
    high_here = ground (arith, key_at i)

    -- With the two parts in the place of the child, and all other children as they were, the page
    -- is in order.
    module _ {u : Tree K V} {level' : Addr → ℕ} (c fresh : Addr)
        (at : get_elem? node.children i ≡ some c) (room : length node.keys < n)
        (lower : Child u level' l c (low_fence low node.keys i) (some separator))
        (upper : Child u level' l fresh (some separator) (high_fence high node.keys i))
        (others : (j : ℕ) (d : Addr)
          → j ≢ i
          → get_elem? node.children j ≡ some d
          → Child u level' l d (low_fence low node.keys j) (high_fence high node.keys j)) where
      children' :
          (j : ℕ) (d : Addr)
          → get_elem? (insert_idx node.children (i + 1) fresh) j ≡ some d
          → Child u level' l d (low_fence low keys j) (high_fence high keys j)
      children' j d h =
          let place =
            get_elem?-insert_idx node.children (i + 1) j fresh
              (omega (arith, shape.counted, inside)) in
          elim (Bool-cases (ltb j i)) [
            | inl before ↦
                rw (low_before j (ground arith), high_before j (ground arith))
                  (others j d (ground arith) (ground (arith, place)))
            | inr after ↦ elim (Bool-cases (j == i)) [
              | inl same ↦
                  let here : j ≡ i = ground arith in
                  let one : c ≡ d =
                    let x : get_elem? node.children i ≡ some d = ground (arith, place) in cc in
                  rw (here, low_before i (omega arith), high_here)
                    (subst (λ x. Child u level' l x (low_fence low node.keys i) (some separator))
                      one lower)
              | inr past ↦ elim (Bool-cases (j == i + 1)) [
                | inl next ↦
                    let here : j ≡ suc i = ground arith in
                    let one : fresh ≡ d = ground (arith, place) in
                    rw (here, low_here, high_after i (omega arith))
                      (subst
                        (λ x. Child u level' l x (some separator) (high_fence high node.keys i)) one
                        upper)
                | inr later ↦
                    let here : j ≡ suc (j - 1) = ground arith in
                    let child = others (j - 1) d (ground arith) (ground (arith, place)) in
                    subst (λ x. Child u level' l d (low_fence low keys x) (high_fence high keys x))
                      (sym here)
                      (rw (low_after (j - 1) (ground arith), high_after (j - 1) (ground arith))
                        child)
              ]
            ]
          ]

      pub inserted-IsInternal :
          IsInternal u level' n l low high
            (record { keys = keys; children = insert_idx node.children (i + 1) fresh })
      inserted-IsInternal = record {
        ascends = λ j m a b h p q. ascends' j m a b h (key_from j a p) (key_from m b q);
        inside = λ j a p. inside' j a (key_from j a p);
        counted = omega (
          arith,
          length-insert_idx node.keys i separator,
          length-insert_idx node.children (i + 1) fresh,
          shape.counted,
        );
        children = children';
        bounded = omega (arith, length-insert_idx node.keys i separator);
      }

-- ===== src/Tree/Remove/Parent.antt =====
-- The parent of two siblings of src/node.rs after a loan, which moves the separator between them,
-- and after a merge, which removes it with the left child.
use b_link.Prelude.{
  ℕ, zero, suc, ◌<◌, ◌≡◌, ◌≢◌, refl, sym, ap, ◌∙◌, subst, inl, inr, ◌⊎◌, Option, some, List, arith,
  ◌==◌, ltb, if◌then◌else◌, Bool-cases, length, length-set, get_elem?, get_elem?-set, set,
  erase_idx, get_elem?-erase_idx, length-erase_idx,
}
use b_link.Ord.{Ord, ◌≺◌, Below}
use b_link.Node.{Addr, InternalNode}
use b_link.Tree.{Tree}
use b_link.Tree.Invariant.{Child, IsInternal, Above, low_fence, high_fence}
use b_link.Tree.Invariant.Separator.{key_below, key_above, Above-low, Below-high}

module _ {K V : Type 0} ⦃o : Ord K⦄ {t u : Tree K V} {level level' : Addr → ℕ} {n l : ℕ}
    {low high : Option K} {node : InternalNode K} (shape : IsInternal t level n l low high node)
    (i : ℕ) (inside : i < length node.keys)
    (others : (j : ℕ) (d : Addr)
      → j ≢ i
      → j ≢ suc i
      → get_elem? node.children j ≡ some d
      → Child u level' l d (low_fence low node.keys j) (high_fence high node.keys j)) where
  module _ (boundary : K) (above : Above (low_fence low node.keys i) boundary)
      (below : Below (high_fence high node.keys (suc i)) boundary) where
    abbrev keys : List K
    keys = set node.keys i boundary

    key_at : (j : ℕ) → get_elem? keys j ≡ (if i == j then some boundary else get_elem? node.keys j)
    key_at j = get_elem?-set node.keys i j boundary inside

    KeyFrom : ℕ → K → Type 0
    KeyFrom j a = ((i ≡ j) × (boundary ≡ a)) ⊎ ((j ≢ i) × (get_elem? node.keys j ≡ some a))

    key_from : (j : ℕ) (a : K) → get_elem? keys j ≡ some a → KeyFrom j a
    unfolding KeyFrom
    key_from j a h = elim (Bool-cases (i == j)) [
      | inl same ↦ inl (ground arith, ground (arith, key_at j))
      | inr other ↦ inr (ground arith, ground (arith, key_at j))
    ]

    ascends' : (j m : ℕ) (a b : K) → j < m → KeyFrom j a → KeyFrom m b → a ≺ b
    unfolding KeyFrom
    ascends' j m a b h (inl (p, x)) (inl (q, y)) = absurd (omega arith)
    ascends' j m a b h (inl (p, x)) (inr (q, y)) =
        subst (λ z. z ≺ b) x (key_above shape (suc i) boundary below m b (omega arith) y)
    ascends' j m a b h (inr (p, x)) (inl (q, y)) =
        subst (λ z. a ≺ z) y (key_below shape i boundary (omega arith) above j a (omega arith) x)
    ascends' j m a b h (inr (p, x)) (inr (q, y)) = shape.ascends j m a b h x y

    inside' : (j : ℕ) (a : K) → KeyFrom j a → Above low a × Below high a
    unfolding KeyFrom
    inside' j a (inl (p, x)) =
        subst (λ z. Above low z × Below high z) x
          (
            Above-low shape i boundary (omega arith) above,
            Below-high shape (suc i) boundary (get_elem? node.keys (suc i)) refl below,
          )
    inside' j a (inr (p, x)) = shape.inside j a x

    low_same : (j : ℕ) → j ≢ suc i → low_fence low keys j ≡ low_fence low node.keys j
    low_same zero h = refl
    low_same (suc j) h = ground (arith, key_at j)

    low_here : low_fence low keys (suc i) ≡ some boundary
    low_here = ground (arith, key_at i)

    high_same : (j : ℕ) → j ≢ i → high_fence high keys j ≡ high_fence high node.keys j
    high_same j h = ground (arith, key_at j)

    high_here : high_fence high keys i ≡ some boundary
    high_here = ground (arith, key_at i)

    -- With the two siblings at the new boundary, and all other children as they were, the page is in
    -- order.
    module _ (c d : Addr) (left_at : get_elem? node.children i ≡ some c)
        (right_at : get_elem? node.children (suc i) ≡ some d)
        (lower : Child u level' l c (low_fence low node.keys i) (some boundary))
        (upper : Child u level' l d (some boundary) (high_fence high node.keys (suc i))) where
      children' :
          (j : ℕ) (e : Addr)
          → get_elem? node.children j ≡ some e
          → Child u level' l e (low_fence low keys j) (high_fence high keys j)
      children' j e h = elim (Bool-cases (j == i)) [
        | inl same ↦
            let here : j ≡ i = ground arith in
            let one : c ≡ e =
              let x : get_elem? node.children i ≡ some e =
                ap (get_elem? node.children) (sym here) ∙ h in
              cc in
            rw (here, low_same i (omega arith), high_here)
              (subst (λ x. Child u level' l x (low_fence low node.keys i) (some boundary)) one
                lower)
        | inr other ↦ elim (Bool-cases (j == suc i)) [
          | inl same ↦
              let here : j ≡ suc i = ground arith in
              let one : d ≡ e =
                let x : get_elem? node.children (suc i) ≡ some e =
                  ap (get_elem? node.children) (sym here) ∙ h in
                cc in
              rw (here, low_here, high_same (suc i) (omega arith))
                (subst (λ x. Child u level' l x (some boundary) (high_fence high node.keys (suc i)))
                  one upper)
          | inr other' ↦
              rw (low_same j (ground arith), high_same j (ground arith))
                (others j e (ground arith) (ground arith) h)
        ]
      ]

      pub replaced-IsInternal :
          IsInternal u level' n l low high (record { keys = keys; children = node.children })
      replaced-IsInternal = record {
        ascends = λ j m a b h p q. ascends' j m a b h (key_from j a p) (key_from m b q);
        inside = λ j a p. inside' j a (key_from j a p);
        counted = omega (arith, length-set node.keys i boundary, shape.counted);
        children = children';
        bounded = omega (arith, length-set node.keys i boundary, shape.bounded);
      }

  -- Without the separator and the left child, whose keys the right one has taken over, the page is
  -- in order.
  module _ (d : Addr) (right_at : get_elem? node.children (suc i) ≡ some d)
      (survivor : Child u level' l d
        (low_fence low node.keys i)
        (high_fence high node.keys (suc i))) where
    abbrev fewer : List K
    fewer = erase_idx node.keys i

    -- Where a key or child of the new lists stood.
    abbrev old : ℕ → ℕ
    old j = if ltb j i then j else suc j

    erased_at :
        {A : Type 0} (xs : List A) (j : ℕ) → get_elem? (erase_idx xs i) j ≡ get_elem? xs (old j)
    erased_at xs j = ground (arith, get_elem?-erase_idx xs i j)

    erased_low : (j : ℕ) → j ≢ i → low_fence low fewer j ≡ low_fence low node.keys (old j)
    erased_low zero h = ground arith
    erased_low (suc j) h = ground (arith, erased_at node.keys j)

    erased_low_here : (j : ℕ) → j ≡ i → low_fence low fewer j ≡ low_fence low node.keys j
    erased_low_here zero h = refl
    erased_low_here (suc j) h = ground (arith, erased_at node.keys j)

    erased_high : (j : ℕ) → high_fence high fewer j ≡ high_fence high node.keys (old j)
    erased_high j = rw (erased_at node.keys j) refl

    erased_children :
        (j : ℕ) (e : Addr)
        → get_elem? (erase_idx node.children i) j ≡ some e
        → Child u level' l e (low_fence low fewer j) (high_fence high fewer j)
    erased_children j e h =
        let place : get_elem? node.children (old j) ≡ some e =
          sym (erased_at node.children j) ∙ h in
        elim (Bool-cases (j == i)) [
          | inl same ↦
              let here : j ≡ i = ground arith in
              let next : old j ≡ suc i = ground arith in
              let one : d ≡ e =
                let x : get_elem? node.children (suc i) ≡ some e =
                  ap (get_elem? node.children) (sym next) ∙ place in
                cc in
              rw (erased_low_here j here, erased_high j, next)
                (subst
                  (λ x.
                    Child u level' l e (low_fence low node.keys x)
                      (high_fence high node.keys (suc i)))
                  (sym here)
                  (subst
                    (λ x.
                      Child u level' l x (low_fence low node.keys i)
                        (high_fence high node.keys (suc i)))
                    one survivor))
          | inr other ↦
              rw (erased_low j (ground arith), erased_high j)
                (others (old j) e (ground arith) (ground arith) place)
        ]

    pub erased-IsInternal :
        IsInternal u level' n l low high
          (record { keys = fewer; children = erase_idx node.children i })
    erased-IsInternal =
        let size = length-erase_idx node.keys i inside in
        record {
          ascends = λ j m a b h p q.
              shape.ascends (old j) (old m) a b (ground arith) (sym (erased_at node.keys j) ∙ p)
                (sym (erased_at node.keys m) ∙ q);
          inside = λ j a p. shape.inside (old j) a (sym (erased_at node.keys j) ∙ p);
          counted = omega (
            arith,
            size,
            length-erase_idx node.children i (omega (arith, shape.counted)),
            shape.counted,
          );
          children = erased_children;
          bounded = omega (arith, size, shape.bounded);
        }

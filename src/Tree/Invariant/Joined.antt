-- ===== src/Tree/Invariant/Joined.antt =====
-- Two neighbouring pages of src/node.rs in one: what `merge_left_into_right` makes of them, and
-- what a loan cuts anew.
use b_link.Prelude.{
  ℕ, zero, suc, ◌+◌, ◌-◌, ◌≤◌, ◌<◌, ◌≡◌, refl, sym, ap, ◌∙◌, subst, inl, inr, ◌⊎◌, Option, some,
  ◌∷◌, ◌++◌, arith, ltb, ◌==◌, if◌then◌else◌, Bool-cases, length, length-append, get_elem?,
  get_elem?-lt, get_elem?-ge, get_elem?-append,
}
use b_link.Ord.{Ord, ◌≺◌, Below}
use b_link.Node.{Addr, InternalNode}
use b_link.Tree.{Tree}
use b_link.Tree.Invariant.{Child, IsInternal, Above, low_fence, high_fence}
use b_link.Tree.Invariant.Parts.{Below-separator}
use b_link.Tree.Invariant.Separator.{Above-trans}

module _ {K V : Type 0} ⦃o : Ord K⦄ {t : Tree K V} {level : Addr → ℕ} {v w l : ℕ}
    {low high : Option K} {separator : K} (left right : InternalNode K)
    (lower : IsInternal t level v l low (some separator) left)
    (upper : IsInternal t level w l (some separator) high right) (above : Above low separator)
    (below : Below high separator) where
  abbrev pub joined : InternalNode K
  joined = record {
    keys = left.keys ++ separator ∷ right.keys;
    children = left.children ++ right.children;
  }

  abbrev s : ℕ
  s = length left.keys

  pub joined_size : length joined.keys ≡ suc (s + length right.keys)
  joined_size = omega (arith, length-append left.keys (separator ∷ right.keys))

  pub joined_key :
      (i : ℕ)
      → get_elem? joined.keys i ≡ (
          if ltb i s
          then get_elem? left.keys i
          else if i == s
          then some separator
          else get_elem? right.keys (i - suc s))
  joined_key i =
      get_elem?-append left.keys (separator ∷ right.keys) i ∙ elim (Bool-cases (ltb i s)) [
        | inl before ↦ rw before refl
        | inr after ↦ elim (Bool-cases (i == s)) [
          | inl same ↦ let e : i - s ≡ 0 = ground arith in rw (after, same, e) refl
          | inr other ↦ let e : i - s ≡ suc (i - suc s) = ground arith in rw (after, other, e) refl
        ]
      ]

  pub separator_at : get_elem? joined.keys s ≡ some separator
  separator_at = ground (arith, joined_key s)

  -- Where a separator of the joined page comes from.
  KeyFrom : ℕ → K → Type 0
  KeyFrom i a =
      ((i < s) × (get_elem? left.keys i ≡ some a))
      ⊎ ((i ≡ s) × (separator ≡ a))
      ⊎ ((s < i) × (get_elem? right.keys (i - suc s) ≡ some a))

  key_from : (i : ℕ) (a : K) → get_elem? joined.keys i ≡ some a → KeyFrom i a
  unfolding KeyFrom
  key_from i a h = elim (Bool-cases (ltb i s)) [
    | inl before ↦ inl (ground arith, ground (arith, joined_key i))
    | inr after ↦ elim (Bool-cases (i == s)) [
      | inl same ↦ inr (inl (ground arith, ground (arith, joined_key i)))
      | inr other ↦ inr (inr (ground arith, ground (arith, joined_key i)))
    ]
  ]

  ascends' : (i j : ℕ) (a b : K) → i < j → KeyFrom i a → KeyFrom j b → a ≺ b
  unfolding KeyFrom
  ascends' i j a b h (inl (p, x)) (inl (q, y)) = lower.ascends i j a b h x y
  ascends' i j a b h (inl (p, x)) (inr (inl (q, y))) = subst (λ z. a ≺ z) y (lower.inside i a x).1
  ascends' i j a b h (inl (p, x)) (inr (inr (q, y))) =
      o.cmp_trans a separator b (lower.inside i a x).1 (upper.inside (j - suc s) b y).0
  ascends' i j a b h (inr (inl (p, x))) (inl (q, y)) = absurd (omega arith)
  ascends' i j a b h (inr (inl (p, x))) (inr (inl (q, y))) = absurd (omega arith)
  ascends' i j a b h (inr (inl (p, x))) (inr (inr (q, y))) =
      subst (λ z. z ≺ b) x (upper.inside (j - suc s) b y).0
  ascends' i j a b h (inr (inr (p, x))) (inl (q, y)) = absurd (omega arith)
  ascends' i j a b h (inr (inr (p, x))) (inr (inl (q, y))) = absurd (omega arith)
  ascends' i j a b h (inr (inr (p, x))) (inr (inr (q, y))) =
      upper.ascends (i - suc s) (j - suc s) a b (omega arith) x y

  inside' : (i : ℕ) (a : K) → KeyFrom i a → Above low a × Below high a
  unfolding KeyFrom
  inside' i a (inl (p, x)) =
      let h = lower.inside i a x in (h.0, Below-separator high separator a below h.1)
  inside' i a (inr (inl (p, x))) = subst (λ z. Above low z × Below high z) x (above, below)
  inside' i a (inr (inr (p, x))) =
      let h = upper.inside (i - suc s) a x in (Above-trans low separator a above h.0, h.1)

  left_low : (i : ℕ) → i ≤ s → low_fence low joined.keys i ≡ low_fence low left.keys i
  left_low zero h = refl
  left_low (suc i) h = ground (arith, joined_key i)

  left_high :
      (i : ℕ) → i ≤ s → high_fence high joined.keys i ≡ high_fence (some separator) left.keys i
  left_high i h = elim (Bool-cases (i == s)) [
    | inl end ↦
        let last : i ≡ s = ground arith in
        rw (last, separator_at, get_elem?-ge left.keys s (omega arith)) refl
    | inr before ↦
        let valid : i < s = ground arith in
        let (a, k) = get_elem?-lt left.keys i valid in
        let same : get_elem? joined.keys i ≡ some a = ground (arith, joined_key i) in
        rw (same, k) refl
  ]

  right_low :
      (i : ℕ)
      → s < i
      → low_fence low joined.keys i ≡ low_fence (some separator) right.keys (i - suc s)
  right_low i h = elim (Bool-cases (i == suc s)) [
    | inl first ↦
        let e : i ≡ suc s = ground arith in
        let none_before : suc s - suc s ≡ 0 = omega arith in rw (e, separator_at, none_before) refl
    | inr later ↦
        let e : i ≡ suc (i - 1) = ground arith in
        let e' : i - suc s ≡ suc (i - 1 - suc s) = ground arith in
        let key : get_elem? joined.keys (i - 1) ≡ get_elem? right.keys (i - 1 - suc s) =
          ground (arith, joined_key (i - 1)) in
        subst (λ x. low_fence low joined.keys i ≡ low_fence (some separator) right.keys x) (sym e')
          (subst (λ x. low_fence low joined.keys x ≡ get_elem? right.keys (i - 1 - suc s)) (sym e)
            key)
  ]

  right_high :
      (i : ℕ) → s < i → high_fence high joined.keys i ≡ high_fence high right.keys (i - suc s)
  right_high i h =
      let key : get_elem? joined.keys i ≡ get_elem? right.keys (i - suc s) =
        ground (arith, joined_key i) in
      rw key refl

  children' :
      (i : ℕ) (c : Addr)
      → get_elem? joined.children i ≡ some c
      → Child t level l c (low_fence low joined.keys i) (high_fence high joined.keys i)
  children' i c h =
      let place = get_elem?-append left.children right.children i in
      elim (Bool-cases (ltb i (length left.children))) [
        | inl before ↦
            let inside : i ≤ s = ground (arith, lower.counted) in
            rw (left_low i inside, left_high i inside) (lower.children i c (ground (arith, place)))
        | inr after ↦
            let past : s < i = ground (arith, lower.counted) in
            let e : i - length left.children ≡ i - suc s = omega (arith, lower.counted) in
            let found : get_elem? right.children (i - suc s) ≡ some c =
              ap (get_elem? right.children) (sym e) ∙ ground (arith, place) in
            rw (right_low i past, right_high i past) (upper.children (i - suc s) c found)
      ]

  -- The joined page is in order between the outer fences.
  pub joined-IsInternal : IsInternal t level (length joined.keys) l low high joined
  joined-IsInternal = record {
    ascends = λ i j a b h p q. ascends' i j a b h (key_from i a p) (key_from j b q);
    inside = λ i a p. inside' i a (key_from i a p);
    counted = omega (
      arith,
      joined_size,
      length-append left.children right.children,
      lower.counted,
      upper.counted,
    );
    children = children';
    bounded = omega arith;
  }

-- ===== src/Tree/Remove/Siblings/Common.antt =====
-- Two siblings of src/node.rs: what they have in common, and which links lead to them.
use b_link.Prelude.{
  ℕ, ◌+◌, ◌≡◌, refl, sym, ◌∙◌, subst, inl, inr, ◌⊎◌, Option, none, some, arith, length,
}
use b_link.Ord.{
  Ord, ◌≺◌, ◌≼◌, Between, AtLeast, Below, Ordering-cases, le_of_lt, le_of_eq, ge_of_eq, le_trans,
  lt_of_le_of_lt,
}
use b_link.Node.{Addr, Node}
use b_link.Records.{lookup}
use b_link.Tree.{Tree}
use b_link.Tree.Invariant.{Page, IsActive, Owns, Inv, kind_count}
use b_link.Tree.Invariant.Contents.{Represents, records-answer}
use b_link.Tree.Invariant.Parts.{kind_count-parts, lookup-lower, lookup-upper}
use b_link.Tree.Remove.Collapse.{Owns-kind}
use b_link.Tree.Remove.Siblings.{
  Siblings, right_level, separator, left_fences, right_fences, all_records, siblings-Bond, not_root,
}

module _ {K : Type 0} ⦃o : Ord K⦄ where
  -- Of two keys, one is not above the other; and a key is below another or not.
  pub le-cases : (j k : K) → (j ≼ k) ⊎ (k ≼ j)
  le-cases j k = elim (Ordering-cases (o.cmp j k)) [
    | inl h ↦ inl (le_of_lt j k h)
    | inr (inl h) ↦ inl (le_of_eq j k h)
    | inr (inr h) ↦ inr (λ h'. absurd cc)
  ]

  pub lt-cases : (j k : K) → (j ≺ k) ⊎ (k ≼ j)
  lt-cases j k = elim (Ordering-cases (o.cmp j k)) [
    | inl h ↦ inl h
    | inr (inl h) ↦ inr (ge_of_eq j k h)
    | inr (inr h) ↦ inr (λ h'. absurd cc)
  ]

  AtLeast-trans : (low : Option K) (j k : K) → AtLeast low j → j ≼ k → AtLeast low k
  AtLeast-trans none j k h below = tt
  AtLeast-trans (some low) j k h below = le_trans low j k h below

  Below-trans : (high : Option K) (j k : K) → j ≼ k → Below high k → Below high j
  Below-trans none j k h below = tt
  Below-trans (some high) j k h below = lt_of_le_of_lt j k high h below

module _ {K V : Type 0} ⦃o : Ord K⦄ {n : ℕ} {t : Tree K V} {level : Addr → ℕ} (inv : Inv n t level)
    (f : Siblings n t level) where
  module _ (b b' : Addr) (x y : Node K V) (at : Page t b x) (at' : Page t b' y)
      (active : IsActive x) (active' : IsActive y) (here : level b ≡ level f.c)
      (here' : level b' ≡ level f.c) where
    x_key : (k : K) × Owns x k
    x_key = Owns-kind inv b x x.kind at refl active (not_root inv f b here)

    y_key : (k : K) × Owns y k
    y_key = Owns-kind inv b' y y.kind at' refl active' (not_root inv f b' here')

    one_page : (k : K) → Owns x k → Owns y k → b ≡ b'
    one_page k h h' = inv.disjoint b b' x y k at at' active active' (here ∙ sym here') h h'

    -- Two pages of the level that end, or begin, at one fence are the same page.
    pub same_high : x.high_key ≡ y.high_key → b ≡ b'
    same_high e =
        let (j, h) = x_key in
        let (k, h') = y_key in
        elim (le-cases j k) [
          | inl below ↦
              one_page k
                (AtLeast-trans x.low_key j k h.0 below, subst (λ z. Below z k) (sym e) h'.1) h'
          | inr below ↦
              one_page j h (AtLeast-trans y.low_key k j h'.0 below, subst (λ z. Below z j) e h.1)
        ]

    pub same_low : x.low_key ≡ y.low_key → b ≡ b'
    same_low e =
        let (j, h) = x_key in
        let (k, h') = y_key in
        elim (le-cases j k) [
          | inl below ↦
              one_page j h (subst (λ z. AtLeast z j) e h.0, Below-trans y.high_key j k below h'.1)
          | inr below ↦
              one_page k
                (subst (λ z. AtLeast z k) (sym e) h'.0, Below-trans x.high_key k j below h.1) h'
        ]

  -- A key between the outer fences belongs to one of the two.
  pub pair_owner : (k : K) → Between f.p.low_key f.r.high_key k → Owns f.p k ⊎ Owns f.r k
  pair_owner k h = elim (lt-cases k (separator inv f)) [
    | inl below ↦ inl (h.0, subst (λ x. Below x k) (sym (left_fences inv f).1) below)
    | inr above ↦ inr (subst (λ x. AtLeast x k) (sym (right_fences inv f).0) above, h.1)
  ]

  pub pair_count : length (all_records inv f) ≡ kind_count f.p.kind + kind_count f.r.kind
  pair_count = omega (arith, kind_count-parts (siblings-Bond inv f))

  -- Leaves that are siblings answer together for the keys between the outer fences.
  pub pair_answer :
      (m : K → Option V)
      → Represents t m
      → level f.c ≡ 0
      → (k : K) → Between f.p.low_key f.r.high_key k
      → lookup (all_records inv f) k ≡ m k
  pair_answer m rep low k h = elim (lt-cases k (separator inv f)) [
    | inl below ↦
        sym (lookup-lower (siblings-Bond inv f) k below)
        ∙ records-answer inv m rep f.c f.p f.left_at f.left_active k low
            (h.0, subst (λ x. Below x k) (sym (left_fences inv f).1) below)
    | inr above ↦
        sym (lookup-upper (siblings-Bond inv f) k above)
        ∙ records-answer inv m rep f.d f.r f.right_at f.right_active k (right_level inv f ∙ low)
            (subst (λ x. AtLeast x k) (sym (right_fences inv f).0) above, h.1)
  ]

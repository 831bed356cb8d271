-- ===== src/Tree/Invariant/New.antt =====
-- `Tree::new` of src/node.rs, and the invariant of its tree.
use b_link.Prelude.{
  ℕ, zero, suc, ◌+◌, ◌^◌, ◌≤◌, ◌<◌, ◌≡◌, refl, sym, ap, ◌∙◌, subst, inl, inr, ◌⊎◌, Bool, true, none,
  [], ◌∷◌, ltb, leb, ok, panic, arith, Bool-cases,
}
use b_link.Ord.{Ord}
use b_link.Node.{Addr, leaf, Node, leaf_root, minimum, occupancy}
use b_link.Array.Bounded
use b_link.Records.{lookup}
use b_link.Tree.{Tree, new}
use b_link.Tree.Invariant.{Page, IsPage, Inv}
use b_link.Tree.Invariant.Contents.{Represents}

abbrev pub empty_leaf : {K V : Type 0} → Node K V
empty_leaf = record {
  is_root = true;
  low_key = none;
  high_key = none;
  previous = none;
  right = none;
  kind = leaf (record { entries = [] });
}

-- The page capacities of which a tree can be made: the number of children of a page is counted in
-- a `usize`, and the array of records of a page can be laid out.
abbrev pub IsCapacity : (fits : ℕ → Bool) → ℕ → Type 0
IsCapacity fits n = (3 ≤ n) × (n + 1 < 2 ^ 64) × (fits n ≡ true)

module _ {K V : Type 0} ⦃o : Ord K⦄ (n : ℕ) where
  abbrev pub empty : Tree K V
  empty = record { pages = empty_leaf ∷ []; root = 0; len = 0 }

  only : (a : Addr) (p : Node K V) → Page empty a p → (0 ≡ a) × (empty_leaf ≡ p)
  only zero p at = (refl, cc)
  only (suc a) p at = absurd cc

  root-IsPage : IsPage empty (λ a. 0) n 0 empty_leaf
  unfolding minimum occupancy
  root-IsPage = record {
    kind = (refl, record { sorted = tt; within = tt; bounded = omega arith });
    root_role = refl;
    filled = λ active other. absurd (other refl);
    successor = λ active. refl;
    below_root = λ active. omega arith;
    predecessor = λ b e. absurd cc;
  }

  pub empty-Inv : 3 ≤ n → Inv n empty (λ a. 0)
  empty-Inv large = record {
    capacity = large;
    page = λ a p at.
        let (here, one) = only a p at in
        subst (λ x. IsPage empty (λ a. 0) n a x) one
          (subst (λ x. IsPage empty (λ a. 0) n x empty_leaf) here root-IsPage);
    disjoint =
        λ a b p q k at at' active active' level owns owns'. sym (only a p at).0 ∙ (only b q at').0;
    root = record {
      page = empty_leaf;
      at = refl;
      active = refl;
      on_level = refl;
      low_key = refl;
      high_key = refl;
    };
    counted = refl;
  }

  pub empty-Represents : Represents empty (λ k. none)
  unfolding lookup
  empty-Represents a p contents k at is owns =
      let kinds : leaf (record { entries = [] }) ≡ leaf contents =
        ap (λ (x : Node K V). x.kind) (only a p at).1 ∙ is in
      let none_there : contents ≡ record { entries = [] } = cc in rw none_there refl

  -- `new` returns if the page capacity is at least 3, its successor fits in a `usize` and the array
  -- of records of a page can be laid out; the tree is in order, stands for the empty map and has
  -- length 0. With any other page capacity, `new` panics.
  pub new-Inv :
      (fits : ℕ → Bool)
      → ((t : Tree K V) × (new fits n ≡ ok t)
          × IsCapacity fits n
          × Inv n t (λ a. 0)
          × Represents t (λ k. none)
          × (t.len ≡ 0))
        ⊎ ((new {K = K} {V = V} fits n ≡ panic) × ¬ IsCapacity fits n)
  unfolding new leaf_root Bounded.with_capacity
  new-Inv fits = elim (Bool-cases (leb 3 n)) [
    | inr few ↦ inr (rw few refl, λ (large, small, laid). absurd (ground arith))
    | inl enough ↦ elim (Bool-cases (ltb (n + 1) (2 ^ 64))) [
      | inr over ↦ inr (rw (enough, over) refl, λ (large, small, laid). absurd (ground arith))
      | inl within ↦
          let positive : ltb 0 n ≡ true = ground arith in
          elim (Bool-cases (fits n)) [
            | inr unlaid ↦
                inr (rw (enough, within, positive, unlaid) refl, λ (large, small, laid). absurd cc)
            | inl laid ↦ inl (
              empty,
              rw (enough, within, positive, laid) refl,
              (ground arith, ground arith, laid),
              empty-Inv (ground arith),
              empty-Represents,
              refl,
            )
          ]
    ]
  ]

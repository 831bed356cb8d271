-- ===== src/Tree/Invariant/Leaves.antt =====
-- The records of a leaf of src/node.rs before and from one of its records on, and those of two
-- neighbouring leaves in one.
use b_link.Prelude.{
  ℕ, suc, ◌≤◌, Option, none, some, List, ◌∷◌, ◌++◌, length, All-and, All-imp, All-append,
  All-append_left, All-append_right,
}
use b_link.Ord.{Ord, ◌≺◌, Between, AtLeast, Below, le_refl, le_of_lt, lt_of_le_of_lt}
use b_link.Node.{Entry}
use b_link.Records.{IsSorted, Within}
use b_link.Records.Laws.{
  IsSorted-append, IsSorted-append_left, IsSorted-append_right, IsSorted-Before,
}
use b_link.Tree.Invariant.{IsLeaf, Above}
use b_link.Tree.Invariant.Parts.{Below-separator, AtLeast-separator}

module _ {K : Type 0} ⦃o : Ord K⦄ where
  pub AtLeast-Above : (low : Option K) (j k : K) → AtLeast low j → j ≺ k → Above low k
  AtLeast-Above none j k h below = tt
  AtLeast-Above (some low) j k h below = lt_of_le_of_lt low j k h below

module _ {K V : Type 0} ⦃o : Ord K⦄ (low high : Option K) where
  module _ (xs : List (Entry K V)) (e : Entry K V) (ys : List (Entry K V))
      (sorted : IsSorted (xs ++ e ∷ ys)) (within : Within low high (xs ++ e ∷ ys)) where
    pub before-IsLeaf : {n : ℕ} → length xs ≤ n → IsLeaf n low (some e.key) xs
    before-IsLeaf fits = record {
      sorted = IsSorted-append_left xs (e ∷ ys) sorted;
      within =
          All-and (λ x h below. (h.0, below)) xs
            (All-append_left (λ x. Between low high x.key) xs (e ∷ ys) within)
            (IsSorted-Before xs e ys sorted);
      bounded = fits;
    }

    pub from-IsLeaf : {n : ℕ} → suc (length ys) ≤ n → IsLeaf n (some e.key) high (e ∷ ys)
    from-IsLeaf fits =
        let rest = IsSorted-append_right xs (e ∷ ys) sorted in
        let inside = All-append_right (λ x. Between low high x.key) xs (e ∷ ys) within in
        record {
          sorted = rest;
          within = (
            (le_refl e.key, inside.0.1),
            All-and (λ x h above. (le_of_lt e.key x.key above, h.1)) ys inside.1 rest.0,
          );
          bounded = fits;
        }

    pub from-Below : Below high e.key
    from-Below = (All-append_right (λ x. Between low high x.key) xs (e ∷ ys) within).0.1

  -- A record that is not the first is above the lower fence.
  pub later-Above :
      (x : Entry K V) (xs : List (Entry K V)) (e : Entry K V) (ys : List (Entry K V))
      → IsSorted (x ∷ xs ++ e ∷ ys)
      → Within low high (x ∷ xs ++ e ∷ ys)
      → Above low e.key
  later-Above x xs e ys sorted within =
      AtLeast-Above low x.key e.key within.0.0
        (All-append_right (λ y. x.key ≺ y.key) xs (e ∷ ys) sorted.0).0

module _ {K V : Type 0} ⦃o : Ord K⦄ {low high : Option K} {n m : ℕ} {separator : K}
    (xs ys : List (Entry K V)) (lower : IsLeaf n low (some separator) xs)
    (upper : IsLeaf m (some separator) high ys) (above : Above low separator)
    (below : Below high separator) where
  pub joined-IsSorted : IsSorted (xs ++ ys)
  joined-IsSorted =
      IsSorted-append xs ys separator lower.sorted upper.sorted
        (All-imp (λ e h. h.1) xs lower.within) (All-imp (λ e h. h.0) ys upper.within)

  pub joined-Within : Within low high (xs ++ ys)
  joined-Within =
      All-append (λ e. Between low high e.key) xs ys
        (All-imp (λ e h. (h.0, Below-separator high separator e.key below h.1)) xs lower.within)
        (All-imp (λ e h. (AtLeast-separator low separator e.key above h.0, h.1)) ys upper.within)

-- ===== src/Records/Subset.antt =====
-- Records in order whose keys are among the keys of other records in order.
use b_link.Prelude.{◌≤◌, ◌≡◌, ◌≢◌, refl, inl, inr, none, List, [], ◌∷◌, arith, length}
use b_link.Ord.{Ord, Ordering-cases, ◌≺◌, ◌≼◌, ◌≈◌, cmp_refl, lt_of_lt_of_le}
use b_link.Node.{Entry}
use b_link.Records.{lookup, IsSorted}
use b_link.Records.Laws.{lookup-After, All-After_trans, All-After_congr}

module _ {K V : Type 0} ⦃o : Ord K⦄ where
  -- Each key of the one list is in the other.
  abbrev pub Among : List (Entry K V) → List (Entry K V) → Type 0
  Among xs ys = (k : K) → lookup xs k ≢ none → lookup ys k ≢ none

  pub lookup_first : (x : Entry K V) (xs : List (Entry K V)) → lookup (x ∷ xs) x.key ≢ none
  unfolding lookup
  lookup_first x xs gone = let same = cmp_refl x.key in ground arith

  lookup_equal :
      (x : Entry K V) (xs : List (Entry K V)) (k : K) → x.key ≈ k → lookup (x ∷ xs) k ≢ none
  unfolding lookup
  lookup_equal x xs k same gone = ground arith

  -- What stands in a list in order is not below its first record.
  first_le :
      (x : Entry K V) (xs : List (Entry K V)) (k : K)
      → IsSorted (x ∷ xs)
      → lookup (x ∷ xs) k ≢ none
      → x.key ≼ k
  first_le x xs k s there less =
      there (lookup-After (x ∷ xs) k (less, All-After_trans xs k x.key less s.0))

  rest_gt :
      (x : Entry K V) (xs : List (Entry K V)) (k : K)
      → IsSorted (x ∷ xs)
      → lookup xs k ≢ none
      → x.key ≺ k
  rest_gt x xs k s there = elim (Ordering-cases (o.cmp x.key k)) [
    | inl less ↦ less
    | inr (inl equal) ↦ absurd (there (lookup-After xs k (All-After_congr xs x.key k equal s.0)))
    | inr (inr greater) ↦ absurd (
        there
          (lookup-After xs k (All-After_trans xs k x.key (ground (arith, o.cmp_swap x.key k)) s.0)))
  ]

  skip :
      (x : Entry K V) (xs : List (Entry K V)) (k : K) → x.key ≺ k → lookup (x ∷ xs) k ≡ lookup xs k
  unfolding lookup
  skip x xs k less = ground arith

  -- What is among the records from a lower one on is among the rest of them.
  skip_lower :
      (x y : Entry K V) (xs ys : List (Entry K V))
      → IsSorted (x ∷ xs)
      → y.key ≺ x.key
      → Among (x ∷ xs) (y ∷ ys)
      → Among (x ∷ xs) ys
  skip_lower x y xs ys s less among k there gone =
      let below = lt_of_lt_of_le y.key x.key k less (first_le x xs k s there) in
      among k there (rw (skip y ys k below) gone)

  skip_equal :
      (x y : Entry K V) (xs ys : List (Entry K V))
      → IsSorted (x ∷ xs)
      → y.key ≈ x.key
      → Among (x ∷ xs) (y ∷ ys)
      → Among xs ys
  skip_equal x y xs ys s equal among k there gone =
      let above = rest_gt x xs k s there in
      let below : y.key ≺ k = ground (arith, o.cmp_congr y.key x.key k) in
      among k (λ none_there. there (rw (skip x xs k above) at none_there))
        (rw (skip y ys k below) gone)

  not_lower :
      (x y : Entry K V) (xs ys : List (Entry K V))
      → IsSorted (y ∷ ys)
      → Among (x ∷ xs) (y ∷ ys)
      → y.key ≼ x.key
  not_lower x y xs ys s among less =
      among x.key (lookup_first x xs)
        (lookup-After (y ∷ ys) x.key (less, All-After_trans ys x.key y.key less s.0))

  -- A list among another is not longer.
  pub Among-length :
      (xs ys : List (Entry K V)) → IsSorted xs → IsSorted ys → Among xs ys → length xs ≤ length ys
  unfolding lookup
  Among-length [] ys s s' among = omega arith
  Among-length (x ∷ xs) [] s s' among = absurd (among x.key (lookup_first x xs) refl)
  Among-length (x ∷ xs) (y ∷ ys) s s' among = elim (Ordering-cases (o.cmp y.key x.key)) [
    | inl less ↦ omega (arith, Among-length (x ∷ xs) ys s s'.1 (skip_lower x y xs ys s less among))
    | inr (inl equal) ↦
        omega (arith, Among-length xs ys s.1 s'.1 (skip_equal x y xs ys s equal among))
    | inr (inr greater) ↦
        absurd (not_lower x y xs ys s' among (ground (arith, o.cmp_swap y.key x.key)))
  ]

  back_equal :
      (x y : Entry K V) (xs ys : List (Entry K V)) (k : K)
      → IsSorted (y ∷ ys)
      → y.key ≈ x.key
      → lookup (y ∷ ys) k ≢ none
      → lookup (x ∷ xs) k ≡ none
      → (lookup ys k ≢ none → lookup xs k ≢ none)
      → ⊥
  back_equal x y xs ys k s equal there gone back = elim (Ordering-cases (o.cmp y.key k)) [
    | inl less ↦
        let above : x.key ≺ k = ground (arith, o.cmp_congr y.key x.key k) in
        back (λ none_there. there (rw (skip y ys k less) none_there))
          (rw (skip x xs k above) at gone)
    | inr (inl same) ↦
        let same' : x.key ≈ k = ground (arith, o.cmp_congr y.key x.key k) in
        lookup_equal x xs k same' gone
    | inr (inr greater) ↦
        let less : k ≺ y.key = ground (arith, o.cmp_swap y.key k) in
        there (lookup-After (y ∷ ys) k (less, All-After_trans ys k y.key less s.0))
  ]

  -- Of two lists of a length, one among the other, each is among the other.
  pub Among-back :
      (xs ys : List (Entry K V))
      → IsSorted xs
      → IsSorted ys
      → Among xs ys
      → length ys ≤ length xs
      → Among ys xs
  unfolding lookup
  Among-back xs [] s s' among size k there gone = absurd (there refl)
  Among-back [] (y ∷ ys) s s' among size k there gone = absurd (omega arith)
  Among-back (x ∷ xs) (y ∷ ys) s s' among size k there gone =
      elim (Ordering-cases (o.cmp y.key x.key)) [
        | inl less ↦
            let fits = Among-length (x ∷ xs) ys s s'.1 (skip_lower x y xs ys s less among) in
            absurd (omega (arith, fits, size))
        | inr (inl equal) ↦
            back_equal x y xs ys k s' equal there gone
              (Among-back xs ys s.1 s'.1 (skip_equal x y xs ys s equal among) (omega arith) k)
        | inr (inr greater) ↦
            absurd (not_lower x y xs ys s' among (ground (arith, o.cmp_swap y.key x.key)))
      ]

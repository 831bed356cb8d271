-- ===== src/Tree/Remove/Loan/Recut.antt =====
-- src/node.rs: another cut of what two neighbouring pages have in common.
use b_link.Prelude.{
  ℕ, zero, suc, ◌+◌, ◌-◌, ◌≤◌, ◌<◌, ◌≡◌, refl, sym, ap, ◌∙◌, subst, false, Option, some, List, [],
  ◌∷◌, ◌++◌, arith, ltb, length, length-append, get_elem?, get_elem?-append, take, drop, insert_idx,
  take-append-drop, drop-cons,
}
use b_link.Ord.{Ord}
use b_link.Node.{Addr, Entry, InternalNode, internal, leaf}
use b_link.Records.{IsSorted, Within}
use b_link.Tree.{Tree}
use b_link.Tree.Invariant.{IsInternal}
use b_link.Tree.Invariant.Bond.{Bond}
use b_link.Tree.Invariant.Joined.{joined-IsInternal}
use b_link.Tree.Invariant.Leaves.{
  before-IsLeaf, from-IsLeaf, from-Below, later-Above, joined-IsSorted, joined-Within,
}
use b_link.Tree.Invariant.Piece.{prefix-IsInternal, suffix-IsInternal}

module _ {A : Type 0} where
  pub insert_idx-zero : (xs : List A) (x : A) → insert_idx xs 0 x ≡ x ∷ xs
  insert_idx-zero [] x = refl
  insert_idx-zero (y ∷ xs) x = refl

  pub append_assoc : (xs ys zs : List A) → (xs ++ ys) ++ zs ≡ xs ++ (ys ++ zs)
  append_assoc [] ys zs = refl
  append_assoc (x ∷ xs) ys zs = ap (◌∷◌ x) (append_assoc xs ys zs)

  append-before : (xs ys : List A) (i : ℕ) → i < length xs → get_elem? (xs ++ ys) i ≡ get_elem? xs i
  append-before xs ys i h = ground (arith, get_elem?-append xs ys i)

  append-past :
      (xs ys : List A) (i j : ℕ) → i ≡ length xs + j → get_elem? (xs ++ ys) i ≡ get_elem? ys j
  append-past xs ys i j h =
      let past : ltb i (length xs) ≡ false = ground arith in
      let place : i - length xs ≡ j = omega arith in
      get_elem?-append xs ys i ∙ rw (past, place) refl

  drop-all : (n : ℕ) (xs : List A) → length xs ≤ n → drop n xs ≡ []
  drop-all zero [] h = refl
  drop-all zero (x ∷ xs) h = absurd (omega arith)
  drop-all (suc n) [] h = refl
  drop-all (suc n) (x ∷ xs) h = drop-all n xs (omega arith)

  -- A list that is not empty is what `pop` leaves, and the last element.
  pub take-last :
      (xs : List A) (x : A)
      → 0 < length xs
      → get_elem? xs (length xs - 1) ≡ some x
      → take (length xs - 1) xs ++ x ∷ [] ≡ xs
  take-last xs x h at =
      let rest : drop (suc (length xs - 1)) xs ≡ [] =
        drop-all (suc (length xs - 1)) xs (omega arith) in
      ap (λ ys. take (length xs - 1) xs ++ (x ∷ ys)) (sym rest)
      ∙ ap (λ ys. take (length xs - 1) xs ++ ys) (sym (drop-cons (length xs - 1) xs x at))
      ∙ take-append-drop (length xs - 1) xs

module _ {K V : Type 0} ⦃o : Ord K⦄ {t : Tree K V} {level : Addr → ℕ} {n l : ℕ}
    {low high : Option K} {es : List (Entry K V)} {separator : K} where
  -- Another cut of two neighbouring leaves.
  pub recut-leaf :
      (xs ys xs' : List (Entry K V)) (e : Entry K V) (ys' : List (Entry K V))
      → Bond t level n l low high es separator
          (leaf (record { entries = xs }))
          (leaf (record { entries = ys }))
      → xs' ++ e ∷ ys' ≡ xs ++ ys
      → 0 < length xs'
      → length xs' ≤ n
      → suc (length ys') ≤ n
      → Bond t level n l low high es e.key
          (leaf (record { entries = xs' }))
          (leaf (record { entries = e ∷ ys' }))
  recut-leaf xs ys [] e ys' bond same h fits fits' = absurd (omega arith)
  recut-leaf xs ys (x ∷ xs') e ys' bond same h fits fits' =
      let lower = bond.lower.1 in
      let upper = bond.upper.1 in
      let sorted : IsSorted (x ∷ xs' ++ e ∷ ys') =
        subst (λ (zs : List (Entry K V)). IsSorted zs) (sym same)
          (joined-IsSorted xs ys lower upper bond.above bond.below) in
      let within : Within low high (x ∷ xs' ++ e ∷ ys') =
        subst (λ (zs : List (Entry K V)). Within low high zs) (sym same)
          (joined-Within xs ys lower upper bond.above bond.below) in
      record {
        lower = (bond.lower.0, before-IsLeaf low high (x ∷ xs') e ys' sorted within fits);
        upper = (bond.upper.0, from-IsLeaf low high (x ∷ xs') e ys' sorted within fits');
        above = later-Above low high x xs' e ys' sorted within;
        below = from-Below low high (x ∷ xs') e ys' sorted within;
        lower_active = refl;
        upper_active = refl;
        kept = same ∙ bond.kept;
      }

  -- Another cut of two neighbouring internal pages.
  pub recut-internal :
      (left right left' right' : InternalNode K) (boundary : K)
      → Bond t level n l low high es separator (internal left) (internal right)
      → left'.keys ++ boundary ∷ right'.keys ≡ left.keys ++ separator ∷ right.keys
      → left'.children ++ right'.children ≡ left.children ++ right.children
      → length left'.children ≡ suc (length left'.keys)
      → length left'.keys ≤ n
      → length right'.keys ≤ n
      → Bond t level n l low high es boundary (internal left') (internal right')
  recut-internal left right left' right' boundary bond keys children counted fits fits' =
      let (h, above, lower) = bond.lower in
      let (h', above', upper) = bond.upper in
      let same : h' ≡ h = omega (arith, above, above') in
      let upper = subst (λ x. IsInternal t level n x (some separator) high right) same upper in
      let shape = joined-IsInternal left right lower upper bond.above bond.below in
      let m = length left'.keys in
      let at : get_elem? (left.keys ++ separator ∷ right.keys) m ≡ some boundary =
        subst (λ (zs : List K). get_elem? zs m ≡ some boundary) keys
          (append-past left'.keys (boundary ∷ right'.keys) m 0 (omega arith)) in
      let size = length-append left'.keys (boundary ∷ right'.keys) in
      let many = length-append left'.children right'.children in
      record {
        lower = (
          h,
          above,
          prefix-IsInternal shape m boundary at left' refl
              (λ j before.
                sym (append-before left'.keys (boundary ∷ right'.keys) j before)
                ∙ ap (λ (zs : List K). get_elem? zs j) keys)
              counted
              (λ j before.
                sym (append-before left'.children right'.children j (omega (arith, counted)))
                ∙ ap (λ (zs : List Addr). get_elem? zs j) children)
              fits,
        );
        upper = (
          h,
          above,
          suffix-IsInternal shape m boundary at right'
              (omega (arith, size, ap (λ (zs : List K). length zs) keys))
              (λ j.
                sym (
                  append-past left'.keys (boundary ∷ right'.keys) (suc (m + j)) (suc j)
                    (omega arith))
                ∙ ap (λ (zs : List K). get_elem? zs (suc (m + j))) keys)
              (omega (arith, many, counted, ap (λ (zs : List Addr). length zs) children))
              (λ j.
                sym (
                  append-past left'.children right'.children (suc (m + j)) j
                    (omega (arith, counted)))
                ∙ ap (λ (zs : List Addr). get_elem? zs (suc (m + j))) children)
              fits',
        );
        above = (shape.inside m boundary at).0;
        below = (shape.inside m boundary at).1;
        lower_active = refl;
        upper_active = refl;
        kept = bond.kept;
      }

-- ===== src/Tree/Invariant/Parts.antt =====
-- The keys and the records of two neighbouring pages of src/node.rs, or of a page that is split.
use b_link.Prelude.{
  ℕ, ◌+◌, ◌≡◌, refl, ap, Option, none, some, List, arith, length, length-append, All, All-imp,
}
use b_link.Ord.{Ord, ◌≺◌, ◌≼◌, Between, AtLeast, Below, lt_of_lt_of_le, le_of_lt, le_trans}
use b_link.Node.{Addr, Entry, NodeKind, internal, leaf, redirect}
use b_link.Records.{lookup}
use b_link.Records.Laws.{lookup-append, lookup-After, lookup-Before}
use b_link.Tree.{Tree}
use b_link.Tree.Invariant.{IsKind, Above, kind_count}
use b_link.Tree.Invariant.Bond.{Bond, records}

module _ {K : Type 0} ⦃o : Ord K⦄ where
  -- A key below a separator is below the upper fence, and one from it on is above the lower.
  pub Below-separator :
      (high : Option K) (separator k : K) → Below high separator → k ≺ separator → Below high k
  Below-separator none separator k h below = tt
  Below-separator (some high) separator k h below = o.cmp_trans k separator high below h

  pub AtLeast-separator :
      (low : Option K) (separator k : K) → Above low separator → separator ≼ k → AtLeast low k
  AtLeast-separator none separator k h above = tt
  AtLeast-separator (some low) separator k h above =
      le_trans low separator k (le_of_lt low separator h) above

  pub apart : {A : Type 0} (separator k : K) → k ≺ separator → separator ≼ k → A
  apart separator k below above = absurd (above below)

module _ {K V : Type 0} where
  pub kind_count-records : (kind : NodeKind K V) → kind_count kind ≡ length (records kind)
  kind_count-records (leaf contents) = refl
  kind_count-records (internal node) = refl
  kind_count-records (redirect target) = refl

module _ {K V : Type 0} ⦃o : Ord K⦄ {t : Tree K V} {level : Addr → ℕ} {n l : ℕ}
    {low high : Option K} {es : List (Entry K V)} {separator : K} {left right : NodeKind K V}
    (bond : Bond t level n l low high es separator left right) where
  pub kind_count-parts : kind_count left + kind_count right ≡ length es
  kind_count-parts = omega (
    arith,
    kind_count-records left,
    kind_count-records right,
    length-append (records left) (records right),
    ap (λ (x : List (Entry K V)). length x) bond.kept,
  )

  pub lower-Between : (k : K) → Between low (some separator) k → Between low high k
  lower-Between k h = (h.0, Below-separator high separator k bond.below h.1)

  pub upper-Between : (k : K) → Between (some separator) high k → Between low high k
  upper-Between k h = (AtLeast-separator low separator k bond.above h.0, h.1)

  lower_within : All (λ (e : Entry K V). e.key ≺ separator) (records left)
  lower_within = go left bond.lower
    where
      go :
          (part : NodeKind K V)
          → IsKind t level n l low (some separator) part
          → All (λ (e : Entry K V). e.key ≺ separator) (records part)
      go (leaf contents) h = All-imp (λ e between. between.1) contents.entries h.1.within
      go (internal node) h = tt
      go (redirect target) h = tt

  upper_within : All (λ (e : Entry K V). separator ≼ e.key) (records right)
  upper_within = go right bond.upper
    where
      go :
          (part : NodeKind K V)
          → IsKind t level n l (some separator) high part
          → All (λ (e : Entry K V). separator ≼ e.key) (records part)
      go (leaf contents) h = All-imp (λ e between. between.0) contents.entries h.1.within
      go (internal node) h = tt
      go (redirect target) h = tt

  -- Each part answers for its keys as the page did.
  pub lookup-lower : (k : K) → k ≺ separator → lookup (records left) k ≡ lookup es k
  lookup-lower k below =
      let missing : lookup (records right) k ≡ none =
        lookup-After (records right) k (
          All-imp (λ e h. lt_of_lt_of_le k separator e.key below h) (records right) upper_within) in
      let whole = lookup-append (records left) (records right) k in
      rw (← bond.kept) (ground (arith, whole, missing))

  pub lookup-upper : (k : K) → separator ≼ k → lookup (records right) k ≡ lookup es k
  lookup-upper k above =
      let missing : lookup (records left) k ≡ none =
        lookup-Before (records left) k
          (All-imp (λ e h. lt_of_lt_of_le e.key separator k h above) (records left) lower_within) in
      let whole = lookup-append (records left) (records right) k in
      rw (← bond.kept) (ground (arith, whole, missing))

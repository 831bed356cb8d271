-- ===== src/Iter/Lists.antt =====
-- What the records that an iterator of src/iter.rs gives say of the map, as a list in order.
use b_link.Prelude.{ℕ, ◌≡◌, refl, sym, ◌∙◌, inl, inr, Option, List, [], ◌∷◌, arith, All, All-imp}
use b_link.Ord.{Ord, Ordering-cases, ◌≺◌, ◌≈◌, cmp_congr_right, le_of_lt}
use b_link.Bound.{Bound, excluded, AfterStart, BeforeEnd}
use b_link.Node.{Addr, Entry}
use b_link.Records.{lookup, IsSorted}
use b_link.Records.Laws.{lookup-After, All-After_trans}
use b_link.Iter.Steps.{Least, Exhausted}
use b_link.Iter.Count.{AfterStart-mono}
use b_link.Tree.{Tree}
use b_link.Tree.Read.Arrival.{leaf_read_for-Arrives}
use b_link.Tree.Invariant.{Inv}
use b_link.Tree.Invariant.Contents.{Represents, Owns-congr}

module _ {K V : Type 0} ⦃o : Ord K⦄ where
  -- The records of a map between two bounds, in ascending order.
  pub record Lists (m : K → Option V) (start end : Bound K) (es : List (Entry K V)) : Type 0 where
    pub sorted : IsSorted es
    pub inside : All (λ (e : Entry K V). AfterStart start e.key × BeforeEnd end e.key) es
    pub same : (j : K) → AfterStart start j → BeforeEnd end j → lookup es j ≡ m j

  -- Keys that compare equal have the same value.
  abbrev pub IsMap : (K → Option V) → Type 0
  IsMap m = (j k : K) → j ≈ k → m j ≡ m k

  lookup-congr : (es : List (Entry K V)) (j k : K) → j ≈ k → lookup es j ≡ lookup es k
  unfolding lookup
  lookup-congr [] j k same = refl
  lookup-congr (e ∷ es) j k same =
      ground (arith, lookup-congr es j k same, cmp_congr_right e.key j k)

  pub Represents-IsMap :
      {n : ℕ} {t : Tree K V} {level : Addr → ℕ}
      → Inv n t level
      → (m : K → Option V) → Represents t m
      → IsMap m
  Represents-IsMap inv m rep j k same =
      let (a, reads, arrives) = leaf_read_for-Arrives inv j in
      let owns' = Owns-congr arrives.page j k same arrives.owns in
      sym (rep a arrives.page arrives.contents j arrives.at arrives.is_leaf arrives.owns)
      ∙ lookup-congr arrives.contents.entries j k same
      ∙ rep a arrives.page arrives.contents k arrives.at arrives.is_leaf owns'

  pub Lists-nil :
      (m : K → Option V) (start end : Bound K) → Exhausted m start end → Lists m start end []
  unfolding lookup
  Lists-nil m start end empty = record {
    sorted = tt;
    inside = tt;
    same = λ j after before. sym (empty j after before);
  }

  pub Lists-cons :
      (m : K → Option V) (start end : Bound K) (e : Entry K V) (es : List (Entry K V))
      → IsMap m
      → Least m start e
      → BeforeEnd end e.key
      → Lists m (excluded e.key) end es
      → Lists m start end (e ∷ es)
  unfolding lookup
  Lists-cons m start end e es congr (after, present, least) before more =
      let later = All-imp (λ (x : Entry K V) h. h.0) es more.inside in
      record {
        sorted = (later, more.sorted);
        inside = (
          (after, before),
          All-imp
              (λ (x : Entry K V) h.
                (AfterStart-mono start e.key x.key after (le_of_lt e.key x.key h.0), h.1))
              es more.inside,
        );
        same = λ j after' before'. elim (Ordering-cases (o.cmp e.key j)) [
          | inl less ↦ let rest = more.same j less before' in ground arith
          | inr (inl equal) ↦ let value = congr e.key j equal in ground arith
          | inr (inr greater) ↦
              let less : j ≺ e.key = ground (arith, o.cmp_swap e.key j) in
              let gone = lookup-After es j (All-After_trans es j e.key less later) in
              let empty = least j after' less in ground arith
        ];
      }

-- ===== src/Map/Loops.antt =====
-- `len`, `is_empty` and a loop over `iter` of src/map.rs, on a map that no writer disturbs.
use b_link.Prelude.{
  ℕ, zero, suc, ◌≡◌, refl, sym, ◌∙◌, inl, inr, Option, none, List, [], ◌∷◌, arith, length, ◌==◌,
  Settles, Decides,
}
use b_link.Ord.{Ord}
use b_link.Bound.{unbounded}
use b_link.Node.{Entry}
use b_link.Records.{lookup}
use b_link.Records.Subset.{lookup_first}
use b_link.Iter.Collect.{entries-Lists}
use b_link.Iter.Lists.{Lists}
use b_link.Map.{BLinkMap, len, is_empty, debug_entries}
use b_link.Map.Reads.{Models}
use b_link.Tree.Read.Arrival.{leaf_read_for-Arrives}

module _ {K V : Type 0} ⦃o : Ord K⦄ where
  empty_list : (es : List (Entry K V)) → ((j : K) → lookup es j ≡ none) → length es ≡ 0
  empty_list [] h = refl
  empty_list (e ∷ es) h = absurd (lookup_first e es (h e.key))

  none_listed : (es : List (Entry K V)) (j : K) → length es ≡ 0 → lookup es j ≡ none
  unfolding lookup
  none_listed [] j h = refl
  none_listed (e ∷ es) j h = absurd (omega arith)

module _ {K V : Type 0} ⦃o : Ord K⦄ {n : ℕ} {map : BLinkMap K V} where
  -- In a map that models `m`, the loop of `fmt` ends, and it writes as many records as `len` says:
  -- those of `m`, in ascending order of their keys.
  pub debug_entries-Lists :
      {m : K → Option V}
      → Models n map m
      → (es : List (Entry K V)) × Settles (λ rounds. debug_entries (suc (len map)) rounds map) es
        × Lists m unbounded unbounded es
        × (length es ≡ len map)
  unfolding debug_entries len
  debug_entries-Lists models = entries-Lists models.ordered _ models.stands_for

  -- In a map that models `m`, `is_empty` returns whether `m` has no key.
  pub is_empty-Decides :
      {m : K → Option V} → Models n map m → Decides (is_empty map) ((j : K) → m j ≡ none)
  unfolding is_empty
  is_empty-Decides {m} models =
      let (es, settles, lists, size) = debug_entries-Lists models in go (len map) refl es lists size
    where
      go :
          (l : ℕ)
          → len map ≡ l
          → (es : List (Entry K V)) → Lists m unbounded unbounded es
          → length es ≡ len map
          → Decides (len map == 0) ((j : K) → m j ≡ none)
      go zero e es lists size =
          inl (rw e refl, λ j. sym (lists.same j tt tt) ∙ none_listed es j (size ∙ e))
      go (suc l) e es lists size = inr (
        rw e (ground arith),
        λ empty.
            let zero_long = empty_list es (λ j. lists.same j tt tt ∙ empty j) in
            omega (arith, zero_long, size, e),
      )

  -- Two functions that a map models are the same.
  pub Models-agree : {m m' : K → Option V} → Models n map m → Models n map m' → (k : K) → m k ≡ m' k
  Models-agree {m} {m'} models models' k =
      let (a, reads, arrives) = leaf_read_for-Arrives models.ordered k in
      sym (
        models.stands_for a arrives.page arrives.contents k arrives.at arrives.is_leaf arrives.owns)
      ∙ models'.stands_for a arrives.page arrives.contents k arrives.at arrives.is_leaf arrives.owns

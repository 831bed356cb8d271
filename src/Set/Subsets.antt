-- ===== src/Set/Subsets.antt =====
-- `is_subset` of src/set.rs, on sets that no writer disturbs.
use b_link.Prelude.{
  ℕ, suc, ◌≤◌, ◌<◌, ◌≡◌, ◌≢◌, refl, sym, ◌∙◌, subst, inl, inr, Bool, true, false, Bool-cases,
  Option, none, some, arith, is_some, ltb, Run, Settles, Decides,
}
use b_link.Ord.{Ord}
use b_link.Bound.{unbounded}
use b_link.Records.Subset.{Among-length, Among-back}
use b_link.Iter.Count.{remaining-le}
use b_link.Map
use b_link.Map.Reads.{Models}
use b_link.Map.Loops.{debug_entries-Lists, Models-agree}
use b_link.Set.{BLinkSet, len, iter, none_gives, is_subset}
use b_link.Set.Loop.{Judges, none_gives-Judges}

some_of_test : {o : Option (Unit {0})} → is_some o ≡ true → o ≢ none
some_of_test h gone = let same : is_some {A = Unit {0}} none ≡ true = rw gone at h in absurd cc

none_of_test : (o : Option (Unit {0})) → is_some o ≡ false → o ≡ none
none_of_test none h = refl
none_of_test (some v) h = absurd cc

module _ {T : Type 0} where
  -- The first set has no value that the second one lacks; no value is in both; the same values.
  abbrev pub Subset : (T → Option (Unit {0})) → (T → Option (Unit {0})) → Type 0
  Subset m m' = (k : T) → m k ≢ none → m' k ≢ none

  abbrev pub Disjoint : (T → Option (Unit {0})) → (T → Option (Unit {0})) → Type 0
  Disjoint m m' = (k : T) → m k ≢ none → m' k ≡ none

module _ {T : Type 0} ⦃o : Ord T⦄ {n : ℕ} {set other : BLinkSet T} {m m' : T → Option (Unit {0})}
    (models : Models n set.map m) (models' : Models n other.map m') where
  abbrev loop : Bool → ℕ → ℕ → Run Bool
  loop wanted items rounds = none_gives wanted items rounds set other (iter set)

  loop-Judges :
      (wanted : Bool) (items : ℕ)
      → len set < items
      → (b : Bool) × Settles (loop wanted items) b × Judges wanted m m' unbounded b
  unfolding len Map.len
  loop-Judges wanted items enough =
      let fits = remaining-le unbounded set.map.tree.pages in
      let counted = models.ordered.counted in
      none_gives-Judges models models' wanted items (iter set) refl
        (omega (arith, fits, counted, enough))

  pub loop-Disjoint :
      (items : ℕ)
      → len set < items
      → (b : Bool) × Settles (loop true items) b × Decides b (Disjoint m m')
  loop-Disjoint items enough =
      let (b, settles, judges) = loop-Judges true items enough in (b, settles, decides b judges)
    where
      decides : (b : Bool) → Judges true m m' unbounded b → Decides b (Disjoint m m')
      decides b (inl (holds, all)) = inl (holds, λ k there. none_of_test (m' k) (all k tt there))
      decides b (inr (fails, k, there, shared)) =
          inr (fails, λ disjoint. some_of_test shared (disjoint k there))

  pub loop-Subset :
      (items : ℕ)
      → len set < items
      → (b : Bool) × Settles (loop false items) b × Decides b (Subset m m')
  loop-Subset items enough =
      let (b, settles, judges) = loop-Judges false items enough in (b, settles, decides b judges)
    where
      decides : (b : Bool) → Judges false m m' unbounded b → Decides b (Subset m m')
      decides b (inl (holds, all)) = inl (holds, λ k there. some_of_test (all k tt there))
      decides b (inr (fails, k, there, missing)) =
          inr (fails, λ subset. subset k there (none_of_test (m' k) missing))

  -- A subset is not longer, and a subset of the same length is the whole set.
  pub Subset-len : Subset m m' → len set ≤ len other
  unfolding len
  Subset-len subset =
      let (es, settles, lists, size) = debug_entries-Lists models in
      let (es', settles', lists', size') = debug_entries-Lists models' in
      let fits = Among-length es es' lists.sorted lists'.sorted (λ k there gone.
        subset k (λ missing. there (lists.same k tt tt ∙ missing))
          (sym (lists'.same k tt tt) ∙ gone)) in
      omega (arith, fits, size, size')

  pub Subset_back : Subset m m' → len set ≡ len other → Subset m' m
  unfolding len
  Subset_back subset equal =
      let (es, settles, lists, size) = debug_entries-Lists models in
      let (es', settles', lists', size') = debug_entries-Lists models' in
      let back =
        Among-back es es' lists.sorted lists'.sorted
          (λ k there gone.
            subset k (λ missing. there (lists.same k tt tt ∙ missing))
              (sym (lists'.same k tt tt) ∙ gone))
          (omega (arith, size, size', equal)) in
      λ k there gone.
        back k (λ missing. there (sym (lists'.same k tt tt) ∙ missing)) (lists.same k tt tt ∙ gone)

  pub same_values : set ≡ other → (k : T) → m k ≡ m' k
  same_values one = Models-agree (subst (λ (x : BLinkSet T). Models n x.map m) one models) models'

  -- In two sets that model `m` and `m'`, `is_subset` returns whether each value of the first one is
  -- in the second one.
  pub is_subset-Decides :
      (same : Bool)
      → (same ≡ true → set ≡ other)
      → (b : Bool) × Settles (λ rounds. is_subset same (suc (len set)) rounds set other) b
        × Decides b (Subset m m')
  unfolding is_subset
  is_subset-Decides true one =
      (true, (0, λ r le. refl), inl (refl, λ k there gone. there (same_values (one refl) k ∙ gone)))
  is_subset-Decides false one = elim (Bool-cases (ltb (len other) (len set))) [
    | inl longer ↦ (
      false,
      (0, λ r le. rw longer refl),
      inr (refl, λ subset. let fits = Subset-len subset in absurd (ground arith)),
    )
    | inr fits ↦
        let (b, (rounds, settled), decides) = loop-Subset (suc (len set)) (omega arith) in
        (b, (rounds, λ r le. let run = settled r le in rw (fits, run) refl), decides)
  ]

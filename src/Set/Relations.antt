-- ===== src/Set/Relations.antt =====
-- `is_disjoint` and `eq` of src/set.rs, on sets that no writer disturbs.
use b_link.Prelude.{
  ℕ, suc, ◌≡◌, ◌≢◌, refl, sym, ◌∙◌, inl, inr, Bool, true, false, Bool-cases, Option, none, some,
  arith, leb, ◌==◌, Settles, Decides,
}
use b_link.Ord.{Ord}
use b_link.Map.Reads.{Models}
use b_link.Map.Loops.{is_empty-Decides}
use b_link.Set.{BLinkSet, len, is_empty, is_disjoint, eq}
use b_link.Set.Subsets.{
  Subset, Disjoint, loop-Disjoint, Subset-len, Subset_back, same_values, is_subset-Decides,
}

none_of_negated : (o : Option (Unit {0})) → ((o ≢ none) → ⊥) → o ≡ none
none_of_negated none h = refl
none_of_negated (some v) h = absurd (h (λ gone. cc))

module _ {T : Type 0} ⦃o : Ord T⦄ {n : ℕ} {set other : BLinkSet T} {m m' : T → Option (Unit {0})}
    (models : Models n set.map m) (models' : Models n other.map m') where
  unequal : (len set == len other) ≡ false → Subset m m' → Subset m' m → ⊥
  unequal differs subset superset =
      let fits = Subset-len models models' subset in
      let fits' = Subset-len models' models superset in absurd (ground arith)

  -- In two sets that model `m` and `m'`, `==` returns whether they have the same values.
  pub eq-Decides :
      (same : Bool)
      → (same ≡ true → set ≡ other)
      → (b : Bool) × Settles (λ rounds. eq same (suc (len set)) rounds set other) b
        × Decides b (Subset m m' × Subset m' m)
  unfolding eq
  eq-Decides true one = (
    true,
    (0, λ r le. refl),
    inl (
      refl,
      (
        (λ k there gone. there (same_values models models' (one refl) k ∙ gone)),
        (λ k there gone. there (sym (same_values models models' (one refl) k) ∙ gone)),
      ),
    ),
  )
  eq-Decides false one = elim (Bool-cases (len set == len other)) [
    | inr differs ↦
        (false, (0, λ r le. rw differs refl), inr (refl, λ both. unequal differs both.0 both.1))
    | inl equal ↦
        let (b, (rounds, settled), decides) =
          is_subset-Decides models models' false (λ h. absurd cc) in
        (b, (rounds, λ r le. let run = settled r le in rw (equal, run) refl), go b equal decides)
  ]
    where
      go :
          (b : Bool)
          → (len set == len other) ≡ true
          → Decides b (Subset m m')
          → Decides b (Subset m m' × Subset m' m)
      go b equal (inl (holds, subset)) =
          inl (holds, (subset, Subset_back models models' subset (ground arith)))
      go b equal (inr (fails, refutes)) = inr (fails, λ both. refutes both.0)

  swapped : (b : Bool) → Decides b (Disjoint m' m) → Decides b (Disjoint m m')
  swapped b (inl (holds, disjoint)) =
      inl (holds, λ k there. none_of_negated (m' k) (λ there'. there (disjoint k there')))
  swapped b (inr (fails, refutes)) = inr (
    fails,
    λ disjoint. refutes (λ k there'. none_of_negated (m k) (λ there. there' (disjoint k there))),
  )

  -- In two sets that model `m` and `m'`, `is_disjoint` returns whether no value is in both.
  pub is_disjoint-Decides :
      (same : Bool)
      → (same ≡ true → set ≡ other)
      → (b : Bool) × Settles (λ rounds. is_disjoint same (suc (len set)) rounds set other) b
        × Decides b (Disjoint m m')
  unfolding is_disjoint is_empty
  is_disjoint-Decides true one =
      let agree = same_values models models' (one refl) in
      (is_empty set, (0, λ r le. refl), go (is_empty-Decides models))
    where
      go : Decides (is_empty set) ((k : T) → m k ≡ none) → Decides (is_empty set) (Disjoint m m')
      go (inl (holds, empty)) = inl (holds, λ k there. absurd (there (empty k)))
      go (inr (fails, refutes)) = inr (
        fails,
        λ disjoint. refutes (λ k.
            none_of_negated (m k)
              (λ there. there (same_values models models' (one refl) k ∙ disjoint k there))),
      )
  is_disjoint-Decides false one = elim (Bool-cases (leb (len set) (len other))) [
    | inl smaller ↦
        let (b, (rounds, settled), decides) =
          loop-Disjoint models models' (suc (len set)) (omega arith) in
        (b, (rounds, λ r le. let run = settled r le in rw (smaller, run) refl), decides)
    | inr larger ↦
        let (b, (rounds, settled), decides) =
          loop-Disjoint models' models (suc (len set)) (ground arith) in
        (b, (rounds, λ r le. let run = settled r le in rw (larger, run) refl), swapped b decides)
  ]

-- ===== src/Set/Loop.antt =====
-- The loops of `is_disjoint` and `is_subset` of src/set.rs, on sets that no writer disturbs.
use b_link.Prelude.{
  ℕ, zero, suc, ◌+◌, ◌<◌, ◌≡◌, ◌≢◌, refl, sym, ◌∙◌, ap, inl, inr, ◌⊎◌, Bool, true, false, not,
  Bool-cases, Option, none, some, arith, is_some, if◌then◌else◌, Run, Settles,
}
use b_link.Ord.{Ord, Ordering-cases}
use b_link.Bound.{Bound, excluded, AfterStart}
use b_link.Node.{Entry}
use b_link.Handle
use b_link.Handle.{EntryRef}
use b_link.Iter.{Iter}
use b_link.Iter.Next.{iter_next}
use b_link.Iter.Steps.{IterSteps, Least, after_last, iter_next-IterSteps}
use b_link.Iter.Count.{remaining, remaining-Least}
use b_link.Iter.Lists.{IsMap, Represents-IsMap}
use b_link.Map.Reads.{Models, contains_key-is_some}
use b_link.Set.{BLinkSet, SetIter, value, contains, iter_step, none_gives}

abbrev gives : Bool → Bool → Bool
gives wanted there = if wanted then there else not there

gives-true : (wanted there : Bool) → gives wanted there ≡ true → there ≡ wanted
gives-true true there h = h
gives-true false true h = absurd cc
gives-true false false h = refl

gives-false : (wanted there : Bool) → gives wanted there ≡ false → there ≡ not wanted
gives-false true there h = h
gives-false false true h = refl
gives-false false false h = absurd cc

branch_true : (test : Bool) (x y : Run Bool) → test ≡ true → elim test [ true ↦ x | false ↦ y ] ≡ x
branch_true test x y h = rw h refl

branch_false :
    (test : Bool) (x y : Run Bool) → test ≡ false → elim test [ true ↦ x | false ↦ y ] ≡ y
branch_false test x y h = rw h refl

module _ {T : Type 0} ⦃o : Ord T⦄ where
  -- What a loop answers: that no value after the start gives what was wanted, or that one does.
  abbrev pub Judges :
      Bool → (T → Option (Unit {0})) → (T → Option (Unit {0})) → Bound T → Bool → Type 0
  Judges wanted m m' start b =
      ((b ≡ true) × ((k : T) → AfterStart start k → m k ≢ none → is_some (m' k) ≡ not wanted))
      ⊎ ((b ≡ false) × (k : T) × (m k ≢ none) × (is_some (m' k) ≡ wanted))

  Judges-next :
      (wanted : Bool) (m m' : T → Option (Unit {0})) (start : Bound T) (e : Entry T (Unit {0}))
      (b : Bool)
      → IsMap m'
      → Least m start e
      → is_some (m' e.key) ≡ not wanted
      → Judges wanted m m' (excluded e.key) b
      → Judges wanted m m' start b
  Judges-next wanted m m' start e b congr least passes (inr found) = inr found
  Judges-next wanted m m' start e b congr (after, present, least) passes (inl (holds, all)) = inl (
    holds,
    λ k start' there. elim (Ordering-cases (o.cmp e.key k)) [
      | inl less ↦ all k less there
      | inr (inl equal) ↦ sym (ap is_some (congr e.key k equal)) ∙ passes
      | inr (inr greater) ↦ absurd (there (least k start' (ground (arith, o.cmp_swap e.key k))))
    ],
  )

  module _ {n n' : ℕ} {set other : BLinkSet T} {m m' : T → Option (Unit {0})}
      (models : Models n set.map m) (models' : Models n' other.map m') (wanted : Bool) where
    abbrev Judged : ℕ → SetIter T → Type 0
    Judged items it =
        (b : Bool) × Settles (λ rounds. none_gives wanted items rounds set other it) b
        × Judges wanted m m' (after_last it.inner.last) b

    none_gives_step :
        (items : ℕ) (it : SetIter T) (inner : Iter T) (item : Option (EntryRef T (Unit {0})))
        → Settles (λ rounds. iter_next rounds set.map.tree it.inner) (inner, item)
        → IterSteps m (after_last it.inner.last) (inner, item)
        → remaining (after_last it.inner.last) set.map.tree.pages < suc items
        → ((it' : SetIter T)
            → it'.inner.finished ≡ false
            → remaining (after_last it'.inner.last) set.map.tree.pages < items
            → Judged items it')
        → Judged (suc items) it
    unfolding none_gives iter_step value contains Handle.key IterSteps
    none_gives_step items it inner none (rounds, settled) (stops, empty) enough more = (
      true,
      (rounds, λ r le. let run = settled r le in rw run refl),
      inl (refl, λ k after there. absurd (there (empty k after tt))),
    )
    none_gives_step items it inner (some r) (rounds, settled) (e, reads, goes, least) enough more =
        let (rounds', settled') = contains_key-is_some models' e.key in
        elim (Bool-cases (gives wanted (is_some (m' e.key)))) [
          | inl stop ↦ (
            false,
            (
              rounds + rounds',
              λ r le.
                  let run = settled r (omega arith) in
                  let there = settled' r (omega arith) in
                  rw (run, reads, there) (branch_true _ _ _ stop),
            ),
            inr (
              refl,
              e.key,
              (λ gone. let present = least.1 in cc),
              gives-true wanted (is_some (m' e.key)) stop,
            ),
          )
          | inr pass ↦
              let one_less =
                remaining-Least models.ordered m models.stands_for (after_last it.inner.last) e
                  least in
              let next : SetIter T = record {
                inner = record { last = some e.key; finished = false };
              } in
              let (b, (rounds'', settled''), judges) = more next refl (omega (arith, one_less)) in
              (
                b,
                (
                  rounds + rounds' + rounds'',
                  λ r le.
                      let run = rw goes at (settled r (omega arith)) in
                      let there = settled' r (omega arith) in
                      let rest = settled'' r (omega arith) in
                      rw (run, reads, there) (branch_false _ _ _ pass ∙ rest),
                ),
                Judges-next wanted m m' (after_last it.inner.last) e b
                    (Represents-IsMap models'.ordered m' models'.stands_for) least
                    (gives-false wanted (is_some (m' e.key)) pass) judges,
              )
        ]

    pub none_gives-Judges :
        (items : ℕ) (it : SetIter T)
        → it.inner.finished ≡ false
        → remaining (after_last it.inner.last) set.map.tree.pages < items
        → Judged items it
    none_gives-Judges zero it fresh enough = absurd (omega (arith, enough))
    none_gives-Judges (suc items) it fresh enough =
        let ((inner, item), settles, steps) =
          iter_next-IterSteps models.ordered m models.stands_for it.inner fresh in
        none_gives_step items it inner item settles steps enough (none_gives-Judges items)

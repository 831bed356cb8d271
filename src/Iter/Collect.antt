-- ===== src/Iter/Collect.antt =====
-- A `for` loop over an iterator of src/iter.rs, as in the `Debug` output of src/map.rs,
-- over a tree that no writer disturbs. The loop is given a number of items.
use b_link.Prelude.{
  ℕ, zero, suc, ◌+◌, ◌<◌, ◌≡◌, refl, sym, ◌∙◌, false, Option, none, some, List, [], ◌∷◌, arith,
  length, Run, ok, out_of_fuel, ◌>>=◌, Settles,
}
use b_link.Ord.{Ord}
use b_link.Bound.{unbounded}
use b_link.Node.{Addr, Entry}
use b_link.Handle
use b_link.Handle.{EntryRef}
use b_link.Iter.{Iter, iter_new}
use b_link.Iter.Next.{iter_next}
use b_link.Iter.Steps.{IterSteps, after_last, iter_next-IterSteps}
use b_link.Iter.Count.{remaining, remaining_all, remaining-Least, remaining-exhausted}
use b_link.Iter.Lists.{Lists, Lists-nil, Lists-cons, Represents-IsMap}
use b_link.Tree.{Tree}
use b_link.Tree.Invariant.{Inv}
use b_link.Tree.Invariant.Contents.{Represents}

module _ {K V : Type 0} ⦃o : Ord K⦄ where
  unfoldable pub entries : ℕ → ℕ → Tree K V → Iter K → Run (List (Entry K V))
  unfolding iter_next Handle.entry
  entries zero rounds t it = out_of_fuel
  entries (suc items) rounds t it = do
    (it, item) ← iter_next rounds t it
    elim item [
      | none ↦ ok []
      | some r ↦ (do e ← Handle.entry r; es ← entries items rounds t it; ok (e ∷ es))
    ]

  module _ {n : ℕ} {t : Tree K V} {level : Addr → ℕ} (inv : Inv n t level) (m : K → Option V)
      (rep : Represents t m) where
    abbrev Collected : ℕ → Iter K → Type 0
    Collected items it =
        (es : List (Entry K V)) × Settles (λ rounds. entries items rounds t it) es
        × Lists m (after_last it.last) unbounded es
        × (length es ≡ remaining (after_last it.last) t.pages)

    entries_step :
        (items : ℕ) (it it' : Iter K) (item : Option (EntryRef K V))
        → Settles (λ rounds. iter_next rounds t it) (it', item)
        → IterSteps m (after_last it.last) (it', item)
        → remaining (after_last it.last) t.pages < suc items
        → ((it' : Iter K)
            → it'.finished ≡ false
            → remaining (after_last it'.last) t.pages < items
            → Collected items it')
        → Collected (suc items) it
    unfolding entries IterSteps
    entries_step items it it' none (rounds, settled) (stops, empty) enough more = (
      [],
      (rounds, λ r le. let run = settled r le in rw run refl),
      Lists-nil m (after_last it.last) unbounded empty,
      sym (remaining-exhausted inv m rep (after_last it.last) (λ j after. empty j after tt)),
    )
    entries_step items it it' (some r) (rounds, settled) (e, reads, goes, least) enough more =
        let one_less = remaining-Least inv m rep (after_last it.last) e least in
        let (es, (rounds', settled'), lists, size) =
          more (record { last = some e.key; finished = false }) refl (omega (arith, one_less)) in
        (
          e ∷ es,
          (
            rounds + rounds',
            λ r le.
                let run = rw goes at (settled r (omega arith)) in
                let rest = settled' r (omega arith) in rw (run, reads, rest) refl,
          ),
          Lists-cons m (after_last it.last) unbounded e es (Represents-IsMap inv m rep) least tt
              lists,
          omega (arith, size, one_less),
        )

    entries_from :
        (items : ℕ) (it : Iter K)
        → it.finished ≡ false
        → remaining (after_last it.last) t.pages < items
        → Collected items it
    entries_from zero it fresh enough = absurd (omega (arith, enough))
    entries_from (suc items) it fresh enough =
        let ((it', item), settles, steps) = iter_next-IterSteps inv m rep it fresh in
        entries_step items it it' item settles steps enough (entries_from items)

    -- In a tree in order that stands for the map `m`, a loop over an iterator ends after as many
    -- items as the counter of the tree says. The items are the records of `m` in ascending order:
    -- the list of them finds of each key what `m` has.
    pub entries-Lists :
        (es : List (Entry K V)) × Settles (λ rounds. entries (suc t.len) rounds t iter_new) es
        × Lists m unbounded unbounded es
        × (length es ≡ t.len)
    entries-Lists =
        let counted : remaining unbounded t.pages ≡ t.len =
          remaining_all t.pages ∙ sym inv.counted in
        let (es, settles, lists, size) =
          entries_from (suc t.len) iter_new refl (omega (arith, counted)) in
        (es, settles, lists, size ∙ counted)

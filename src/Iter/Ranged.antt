-- ===== src/Iter/Ranged.antt =====
-- A `for` loop over a range of src/iter.rs, over a tree that no writer disturbs. The loop is given a
-- number of items.
use b_link.Prelude.{
  ℕ, zero, suc, ◌+◌, ◌<◌, ◌≡◌, ◌≢◌, refl, subst, true, false, Option, none, some, List, [], ◌∷◌,
  arith, Run, ok, out_of_fuel, ◌>>=◌, Settles,
}
use b_link.Ord.{Ord}
use b_link.Node.{Addr, Entry}
use b_link.Handle
use b_link.Handle.{EntryRef}
use b_link.Iter.{Range, RangeBounds}
use b_link.Iter.Next.{range_next}
use b_link.Iter.Steps.{RangeSteps, range_start, range_next-RangeSteps}
use b_link.Iter.Count.{remaining, remaining-le, remaining-Least}
use b_link.Iter.Lists.{Lists, Lists-nil, Lists-cons, Represents-IsMap}
use b_link.Tree.{Tree}
use b_link.Tree.Invariant.{Inv}
use b_link.Tree.Invariant.Contents.{Represents}

module _ {K : Type 0} where
  -- A range that has started and is not finished has a last key.
  abbrev pub Resumes : Range K → Type 0
  Resumes it = it.started ≡ true → it.last ≢ none

  abbrev pub range_of : RangeBounds K → Range K
  range_of bounds = record { bounds = bounds; last = none; started = false; finished = false }

module _ {K V : Type 0} ⦃o : Ord K⦄ where
  unfoldable pub range_entries : ℕ → ℕ → Tree K V → Range K → Run (List (Entry K V))
  unfolding range_next Handle.entry
  range_entries zero rounds t it = out_of_fuel
  range_entries (suc items) rounds t it = do
    (it, item) ← range_next rounds t it
    elim item [
      | none ↦ ok []
      | some r ↦ (do e ← Handle.entry r; es ← range_entries items rounds t it; ok (e ∷ es))
    ]

  module _ {n : ℕ} {t : Tree K V} {level : Addr → ℕ} (inv : Inv n t level) (m : K → Option V)
      (rep : Represents t m) (bounds : RangeBounds K) where
    abbrev Collected : ℕ → Range K → Type 0
    Collected items it =
        (es : List (Entry K V)) × Settles (λ rounds. range_entries items rounds t it) es
        × Lists m (range_start it) bounds.end_bound es

    range_step :
        (items : ℕ) (it it' : Range K) (item : Option (EntryRef K V))
        → Settles (λ rounds. range_next rounds t it) (it', item)
        → RangeSteps m bounds (range_start it) (it', item)
        → remaining (range_start it) t.pages < suc items
        → ((it' : Range K)
            → it'.bounds ≡ bounds
            → it'.finished ≡ false
            → Resumes it'
            → remaining (range_start it') t.pages < items
            → Collected items it')
        → Collected (suc items) it
    unfolding range_entries RangeSteps
    range_step items it it' none (rounds, settled) (stops, empty) enough more = (
      [],
      (rounds, λ r le. let run = settled r le in rw run refl),
      Lists-nil m (range_start it) bounds.end_bound empty,
    )
    range_step items it it' (some r) (rounds, settled) (e, reads, goes, least, before) enough more =
        let one_less = remaining-Least inv m rep (range_start it) e least in
        let next : Range K = record {
          bounds = bounds;
          last = some e.key;
          started = true;
          finished = false;
        } in
        let (es, (rounds', settled'), lists) =
          more next refl refl (λ begun gone. cc) (omega (arith, one_less)) in
        (
          e ∷ es,
          (
            rounds + rounds',
            λ r le.
                let run = rw goes at (settled r (omega arith)) in
                let rest = settled' r (omega arith) in rw (run, reads, rest) refl,
          ),
          Lists-cons m (range_start it) bounds.end_bound e es (Represents-IsMap inv m rep) least
              before lists,
        )

    range_from :
        (items : ℕ) (it : Range K)
        → it.bounds ≡ bounds
        → it.finished ≡ false
        → Resumes it
        → remaining (range_start it) t.pages < items
        → Collected items it
    range_from zero it same fresh resumes enough = absurd (omega (arith, enough))
    range_from (suc items) it same fresh resumes enough =
        let ((it', item), settles, steps) = range_next-RangeSteps inv m rep it fresh resumes in
        range_step items it it' item settles
          (subst (λ (b : RangeBounds K). RangeSteps m b (range_start it) (it', item)) same steps)
          enough (range_from items)

    -- In a tree in order that stands for the map `m`, a loop over a range ends, after at most as
    -- many items as the counter of the tree says. The items are the records of `m` between the
    -- bounds in ascending order: the list of them finds of each key there what `m` has.
    pub range_entries-Lists :
        (es : List (Entry K V)) × Settles
          (λ rounds. range_entries (suc t.len) rounds t (range_of bounds))
          es
        × Lists m bounds.start_bound bounds.end_bound es
    range_entries-Lists =
        let fits = remaining-le bounds.start_bound t.pages in
        let counted = inv.counted in
        range_from (suc t.len) (range_of bounds) refl refl (λ begun. absurd cc)
          (omega (arith, fits, counted))

-- ===== src/Iter/Steps.antt =====
-- What one call of `next` of src/iter.rs gives, in a tree that no writer disturbs during the call.
use b_link.Prelude.{
  ℕ, ◌≡◌, ◌≢◌, refl, ◌∙◌, inl, inr, Bool, true, false, Bool-cases, Option, none, some, arith, ok,
  Settles, if◌then◌else◌, if_false,
}
use b_link.Ord.{Ord, ◌≺◌, lt_of_le_of_lt, lt_of_lt_of_le}
use b_link.Bound.{Bound, unbounded, included, excluded, AfterStart, BeforeEnd}
use b_link.Array.Bounded
use b_link.Node.{Addr, Entry}
use b_link.Handle
use b_link.Handle.{EntryRef, entry_kind}
use b_link.Iter.{Iter, Range, RangeBounds, clone_key, clone_kind, inside_end, inside_end_bound}
use b_link.Iter.Next.{
  iter_yield, iter_candidate, iter_next, start_candidate, range_candidate, range_yield, range_next,
}
use b_link.Tree.{Tree}
use b_link.Tree.Read.Seek.{Seeks}
use b_link.Tree.Read.After.{entry_at_or_after-Seeks}
use b_link.Tree.Read.Ends.{first_entry-Seeks}
use b_link.Tree.Invariant.{Inv}
use b_link.Tree.Invariant.Contents.{Represents}

module _ {K : Type 0} where
  -- Where an iterator goes on: after its last key.
  abbrev pub after_last : Option K → Bound K
  after_last none = unbounded
  after_last (some last) = excluded last

  abbrev pub range_start : Range K → Bound K
  range_start it = if it.started then after_last it.last else it.bounds.start_bound

module _ {K : Type 0} ⦃o : Ord K⦄ where
  BeforeEnd-of_test : (end : Bound K) (k : K) → inside_end end k ≡ true → BeforeEnd end k
  unfolding inside_end
  BeforeEnd-of_test unbounded k h = tt
  BeforeEnd-of_test (included end) k h = ground (arith, o.cmp_swap k end)
  BeforeEnd-of_test (excluded end) k h = ground arith

  -- A key that an end bound keeps out is above each key that it lets in.
  below_outside : (end : Bound K) (j k : K) → inside_end end k ≡ false → BeforeEnd end j → j ≺ k
  unfolding inside_end
  below_outside unbounded j k h before = absurd cc
  below_outside (included end) j k h before =
      lt_of_le_of_lt j end k before (ground (arith, o.cmp_swap k end))
  below_outside (excluded end) j k h before = lt_of_lt_of_le j end k before (ground arith)

module _ {K V : Type 0} ⦃o : Ord K⦄ where
  -- The record of a map with the least key after a start.
  abbrev pub Least : (K → Option V) → Bound K → Entry K V → Type 0
  Least m start e =
      AfterStart start e.key
      × (m e.key ≡ some e.value)
      × ((j : K) → AfterStart start j → j ≺ e.key → m j ≡ none)

  -- The end of an iteration: no key of the map is left between the bounds.
  abbrev pub Exhausted : (K → Option V) → Bound K → Bound K → Type 0
  Exhausted m start end = (j : K) → AfterStart start j → BeforeEnd end j → m j ≡ none

  unfoldable pub IterSteps : (K → Option V) → Bound K → Iter K × Option (EntryRef K V) → Type 0
  IterSteps m start (it, none) = (it.finished ≡ true) × Exhausted m start unbounded
  IterSteps m start (it, some r) =
      (e : Entry K V) × (Handle.entry r ≡ ok e)
      × (it ≡ record { last = some e.key; finished = false })
      × Least m start e

  unfoldable pub RangeSteps :
      (K → Option V) → RangeBounds K → Bound K → Range K × Option (EntryRef K V) → Type 0
  RangeSteps m bounds start (it, none) = (it.finished ≡ true) × Exhausted m start bounds.end_bound
  RangeSteps m bounds start (it, some r) =
      (e : Entry K V) × (Handle.entry r ≡ ok e)
      × (it ≡ record { bounds = bounds; last = some e.key; started = true; finished = false })
      × Least m start e
      × BeforeEnd bounds.end_bound e.key

  module _ {n : ℕ} {t : Tree K V} {level : Addr → ℕ} (inv : Inv n t level) (m : K → Option V)
      (rep : Represents t m) where
    start_candidate-Seeks :
        (start : Bound K)
        → (r : Option (Addr × ℕ)) × Settles (λ rounds. start_candidate rounds t start) r
          × Seeks t m start r
    unfolding start_candidate
    start_candidate-Seeks unbounded = first_entry-Seeks inv m rep
    start_candidate-Seeks (included start) = entry_at_or_after-Seeks inv m rep start true
    start_candidate-Seeks (excluded start) = entry_at_or_after-Seeks inv m rep start false

    iter_candidate-Seeks :
        (last : Option K)
        → (r : Option (Addr × ℕ)) × Settles (λ rounds. iter_candidate rounds t last) r
          × Seeks t m (after_last last) r
    unfolding iter_candidate
    iter_candidate-Seeks none = first_entry-Seeks inv m rep
    iter_candidate-Seeks (some last) = entry_at_or_after-Seeks inv m rep last false

    iter_yield-IterSteps :
        (it : Iter K)
        → it.finished ≡ false
        → (start : Bound K) (r : Option (Addr × ℕ)) → Seeks t m start r
        → (out : Iter K × Option (EntryRef K V)) × (iter_yield t it r ≡ ok out)
          × IterSteps m start out
    unfolding iter_yield Seeks IterSteps Handle.entry entry_kind clone_key clone_kind Bounded.index
    iter_yield-IterSteps it fresh start none empty =
        ((record it { finished = true }, none), refl, (refl, λ j after before. empty j after))
    iter_yield-IterSteps it fresh start (some (a, i)) (e, at, after, least) = (
      (record it { last = some e.key }, some (record { guard = at.page; index = i })),
      (let found = at.at in
          let is = at.is_leaf in let there = at.there in rw (found, is, there) refl),
      (
        e,
        (let is = at.is_leaf in let there = at.there in rw (is, there) refl),
        rw fresh refl,
        (after, at.present, least),
      ),
    )

    -- In a tree in order that stands for the map `m`, `next` of an unfinished iterator returns:
    -- with a guard of the record with the least key after the last key, which it remembers, or
    -- finished if the map has no key after that.
    pub iter_next-IterSteps :
        (it : Iter K)
        → it.finished ≡ false
        → (out : Iter K × Option (EntryRef K V)) × Settles (λ rounds. iter_next rounds t it) out
          × IterSteps m (after_last it.last) out
    unfolding iter_next
    iter_next-IterSteps it fresh =
        let (r, (rounds, settles), seeks) = iter_candidate-Seeks it.last in
        let (out, yields, steps) = iter_yield-IterSteps it fresh (after_last it.last) r seeks in
        (
          out,
          (
            rounds,
            λ more enough.
                let run = settles more enough in if_false it.finished _ _ fresh ∙ rw run yields,
          ),
          steps,
        )

    range_yield-RangeSteps :
        (it : Range K)
        → it.finished ≡ false
        → it.started ≡ true
        → (start : Bound K) (r : Option (Addr × ℕ)) → Seeks t m start r
        → (out : Range K × Option (EntryRef K V)) × (range_yield t it r ≡ ok out)
          × RangeSteps m it.bounds start out
    unfolding range_yield Seeks RangeSteps Handle.entry entry_kind clone_key clone_kind
        Bounded.index inside_end_bound
    range_yield-RangeSteps it fresh begun start none empty =
        ((record it { finished = true }, none), refl, (refl, λ j after before. empty j after))
    range_yield-RangeSteps it fresh begun start (some (a, i)) (e, at, after, least) =
        let found = at.at in
        let is = at.is_leaf in
        let there = at.there in
        elim (Bool-cases (inside_end it.bounds.end_bound e.key)) [
          | inl inside ↦ (
            (record it { last = some e.key }, some (record { guard = at.page; index = i })),
            rw (found, is, there, inside) refl,
            (
              e,
              rw (is, there) refl,
              rw (begun, fresh) refl,
              (after, at.present, least),
              BeforeEnd-of_test it.bounds.end_bound e.key inside,
            ),
          )
          | inr outside ↦ (
            (record it { finished = true }, none),
            rw (found, is, there, outside) refl,
            (
              refl,
              λ j start before.
                  least j start (below_outside it.bounds.end_bound j e.key outside before),
            ),
          )
        ]

    range_candidate-Seeks :
        (it : Range K)
        → (it.started ≡ true → it.last ≢ none)
        → (started : Bool) → it.started ≡ started
        → (last : Option K) → it.last ≡ last
        → (r : Option (Addr × ℕ)) × Settles (λ rounds. range_candidate rounds t it) r
          × Seeks t m (range_start it) r
    unfolding range_candidate
    range_candidate-Seeks it resumes false unstarted last is =
        let (r, settles, seeks) = start_candidate-Seeks it.bounds.start_bound in
        (r, rw unstarted settles, rw unstarted seeks)
    range_candidate-Seeks it resumes true begun none is = absurd (resumes begun is)
    range_candidate-Seeks it resumes true begun (some last) is =
        let (r, settles, seeks) = entry_at_or_after-Seeks inv m rep last false in
        (r, rw (begun, is) settles, rw (begun, is) seeks)

    -- In a tree in order that stands for the map `m`, `next` of an unfinished range returns, if the
    -- range has a last key or has not started. The range has started then. It gives a guard of the
    -- record with the least key after the start, or after the last key, if that key is before the
    -- end; it is finished if the map has no more keys up to the end.
    pub range_next-RangeSteps :
        (it : Range K)
        → it.finished ≡ false
        → (it.started ≡ true → it.last ≢ none)
        → (out : Range K × Option (EntryRef K V)) × Settles (λ rounds. range_next rounds t it) out
          × RangeSteps m it.bounds (range_start it) out
    unfolding range_next
    range_next-RangeSteps it fresh resumes =
        let (r, (rounds, settles), seeks) =
          range_candidate-Seeks it resumes it.started refl it.last refl in
        let (out, yields, steps) =
          range_yield-RangeSteps (record it { started = true }) fresh refl (range_start it) r
            seeks in
        (
          out,
          (
            rounds,
            λ more enough.
                let run = settles more enough in if_false it.finished _ _ fresh ∙ rw run yields,
          ),
          steps,
        )

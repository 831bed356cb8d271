-- ===== src/Iter/Tests.antt =====
-- An iterator and a range over a map with the keys 1, 3 and 5.
use b_link.Prelude.{
  ℕ, ◌+◌, ◌*◌, ◌≡◌, refl, ◌⊎◌, true, false, Option, some, List, [], ◌∷◌, length, ok, panic, Settles,
  Settles-now,
}
use b_link.Ord.{nat_ord}
use b_link.Bound.{unbounded, included, excluded}
use b_link.Node.{Addr, Entry}
use b_link.Array.Bounded
use b_link.Handle
use b_link.Handle.{EntryRef, entry_kind}
use b_link.Iter.{Iter, Range, RangeBounds, iter_new, range_new, clone_key}
use b_link.Iter.Next.{iter_next, range_next}
use b_link.Iter.Steps.{RangeSteps, range_next-RangeSteps}
use b_link.Iter.Collect.{entries, entries-Lists}
use b_link.Iter.Lists.{Lists}
use b_link.Iter.Ranged.{range_entries, range_of, range_entries-Lists}
use b_link.Iter.Valid.{IsInverted, range_new-IsInverted}
use b_link.Iter.Walk.{Walk, starts, yields, Walked, Walk-Walked}
use b_link.Samples.{tree, contents, tree-Inv, tree-Represents, root, level}
use b_link.Node.{route}
use b_link.Node.Leaf.{search}
use b_link.Tree.{leaf_read_for}
use b_link.Tree.Read.{entry_at_or_after, first_entry, last_entry, index_after}
use b_link.Tree.Read.Seek.{Seeks}
use b_link.Tree.Read.After.{entry_at_or_after-Seeks}
use b_link.Tree.Read.Ends.{IsLast, first_entry-Seeks, last_entry-IsLast}

abbrev tens : ℕ → ℕ
tens k = k * 10

abbrev middle : RangeBounds ℕ
middle = record { start_bound = excluded 1; end_bound = included 4 }

entry_at_or_after-Seeks_example :
    (r : Option (Addr × ℕ)) × Settles (λ rounds. entry_at_or_after rounds (tree tens) 2 true) r
    × Seeks (tree tens) (contents tens) (included 2) r
entry_at_or_after-Seeks_example =
    entry_at_or_after-Seeks (tree-Inv tens) (contents tens) (tree-Represents tens) 2 true

first_entry-Seeks_example :
    (r : Option (Addr × ℕ)) × Settles (λ rounds. first_entry rounds (tree tens)) r
    × Seeks (tree tens) (contents tens) unbounded r
first_entry-Seeks_example = first_entry-Seeks (tree-Inv tens) (contents tens) (tree-Represents tens)

last_entry-IsLast_example :
    (r : Option (Addr × ℕ)) × Settles (λ rounds. last_entry rounds (tree tens)) r
    × IsLast (tree tens) (contents tens) r
last_entry-IsLast_example = last_entry-IsLast (tree-Inv tens) (contents tens) (tree-Represents tens)

entries-Lists_example :
    (es : List (Entry ℕ ℕ)) × Settles (λ rounds. entries 4 rounds (tree tens) iter_new) es
    × Lists (contents tens) unbounded unbounded es
    × (length es ≡ 3)
entries-Lists_example = entries-Lists (tree-Inv tens) (contents tens) (tree-Represents tens)

range_entries-Lists_example :
    (es : List (Entry ℕ ℕ)) × Settles
      (λ rounds. range_entries 4 rounds (tree tens) (range_of middle))
      es
    × Lists (contents tens) (excluded 1) (included 4) es
range_entries-Lists_example =
    range_entries-Lists (tree-Inv tens) (contents tens) (tree-Represents tens) middle

range_next-RangeSteps_example :
    (out : Range ℕ × Option (EntryRef ℕ ℕ)) × Settles
      (λ rounds. range_next rounds (tree tens) (range_of middle))
      out
    × RangeSteps (contents tens) middle (excluded 1) out
range_next-RangeSteps_example =
    range_next-RangeSteps (tree-Inv tens) (contents tens) (tree-Represents tens) (range_of middle)
      refl (λ begun. absurd cc)

abbrev empty_bounds : RangeBounds ℕ
empty_bounds = record { start_bound = excluded 3; end_bound = excluded 3 }

range_new-IsInverted_example :
    ((range_new empty_bounds ≡ ok (range_of empty_bounds))
      × (IsInverted {K = ℕ} (excluded 3) (excluded 3) → ⊥))
    ⊎ ((range_new empty_bounds ≡ panic) × IsInverted {K = ℕ} (excluded 3) (excluded 3))
range_new-IsInverted_example = range_new-IsInverted {K = ℕ} (excluded 3) (excluded 3)

-- The first call gives the record of the key 1; then the values of the map are replaced, and the
-- second call gives the key 3.
abbrev after_one : Iter ℕ
after_one = record { last = some 1; finished = false }

abbrev first_ref : EntryRef ℕ ℕ
first_ref = record { guard = root tens; index = 0 }

abbrev second_ref : EntryRef ℕ ℕ
second_ref = record { guard = root (λ k. k + 7); index = 1 }

abbrev after_three : Iter ℕ
after_three = record { last = some 3; finished = false }

first_call : Settles (λ rounds. iter_next rounds (tree tens) iter_new) (after_one, some first_ref)
unfolding iter_next first_entry clone_key
first_call =
    Settles-now (λ rounds. iter_next rounds (tree tens) iter_new) (after_one, some first_ref)
      (λ r. refl)

second_call :
    Settles
      (λ rounds. iter_next rounds (tree (λ k. k + 7)) after_one)
      (after_three, some second_ref)
unfolding iter_next entry_at_or_after leaf_read_for search route clone_key index_after
second_call =
    Settles-now (λ rounds. iter_next rounds (tree (λ k. k + 7)) after_one)
      (after_three, some second_ref) (λ r. refl)

two_calls :
    Walk 3 after_three
      (record { key = 3; value = 10 } ∷ record { key = 1; value = 10 } ∷ [])
      (contents (λ k. k + 7) ∷ contents tens ∷ [])
unfolding Handle.entry entry_kind Bounded.index
two_calls =
    yields
      (yields starts (tree tens) (level tens) (tree-Inv tens) (contents tens) (tree-Represents tens)
        after_one first_ref first_call (record { key = 1; value = 10 }) refl)
      (tree (λ k. k + 7)) (level tens) (tree-Inv (λ k. k + 7)) (contents (λ k. k + 7))
      (tree-Represents (λ k. k + 7)) after_three second_ref second_call
      (record { key = 3; value = 10 }) refl

Walk-Walked_example :
    Walked after_three
      (record { key = 3; value = 10 } ∷ record { key = 1; value = 10 } ∷ [])
      (contents (λ k. k + 7) ∷ contents tens ∷ [])
Walk-Walked_example = Walk-Walked two_calls

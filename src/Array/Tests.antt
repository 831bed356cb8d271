-- ===== src/Array/Tests.antt =====
-- Small arrays, as in the tests of src/array.rs, and the theorems of Array/ at them.
use b_link.Prelude.{
  ℕ, ◌≡◌, refl, Bool, true, List, [], ◌∷◌, arith, ◌==◌, length, get_elem?, ok, Refines,
}
use b_link.Array.{
  Array, Cleared, append_from, as_slice, clear, insert, pop, prepend_from, push, remove, split_off,
}
use b_link.Array.Bounded
use b_link.Array.Clear.{Clears, clear-Clears}
use b_link.Array.Refine.{
  Both, Holds, With, as_slice_lem, insert-Refines, pop-Refines, push-Refines, remove-Refines,
}
use b_link.Array.Transfer.{append_from-Refines, prepend_from-Refines, split_off-Refines}

abbrev numbers : List ℕ
numbers = 5 ∷ 6 ∷ 7 ∷ []

abbrev two : List ℕ
two = 8 ∷ 9 ∷ []

-- The memory of an array that holds the list.
abbrev filled : List ℕ → ℕ → Array ℕ
filled xs cap = record { slots = λ i. get_elem? xs i; len = length xs; cap = cap }

abbrev five : Array ℕ
five = filled numbers 5

abbrev four : Array ℕ
four = filled two 4

five-Holds : Holds 5 five numbers
five-Holds = record { capacity = refl; counted = refl; within = omega arith; filled = λ i h. refl }

four-Holds : Holds 4 four two
four-Holds = record { capacity = refl; counted = refl; within = omega arith; filled = λ i h. refl }

as_slice_lem_example : as_slice five ≡ ok numbers
as_slice_lem_example = as_slice_lem five-Holds

push-Refines_example : Refines (Holds 5) (push five 1) (Bounded.push 5 numbers 1)
push-Refines_example = push-Refines five-Holds 1

insert-Refines_example : Refines (Holds 5) (insert five 1 4) (Bounded.insert 5 numbers 1 4)
insert-Refines_example = insert-Refines five-Holds 1 4

remove-Refines_example : Refines (With 5) (remove five 1) (Bounded.remove numbers 1)
remove-Refines_example = remove-Refines five-Holds 1

pop-Refines_example : Refines (With 5) (pop five) (ok (Bounded.pop numbers))
pop-Refines_example = pop-Refines five-Holds

split_off-Refines_example :
    Refines (Both 5) (split_off (λ cap. true) five 1) (Bounded.split_off numbers 1)
split_off-Refines_example = split_off-Refines five-Holds (λ cap. true) 1 (omega arith) refl

append_from-Refines_example :
    Refines
      (λ (a, b) (xs, ys). Holds 5 a xs × Holds 4 b ys)
      (append_from five four)
      (Bounded.append_from 5 numbers two)
append_from-Refines_example = append_from-Refines five-Holds four-Holds (ground arith)

prepend_from-Refines_example :
    Refines
      (λ (a, b) (xs, ys). Holds 5 a xs × Holds 4 b ys)
      (prepend_from five four)
      (Bounded.prepend_from 5 numbers two)
prepend_from-Refines_example = prepend_from-Refines five-Holds four-Holds (ground arith)

-- The destructor of 6 panics: 7 and 6 are dropped, and 5 stays.
abbrev panics_at_six : ℕ → Bool
panics_at_six v = v == 6

clear-Clears_example :
    (r : Cleared ℕ) × (clear panics_at_six five ≡ ok r) × Clears panics_at_six 5 numbers r
clear-Clears_example = clear-Clears panics_at_six five numbers five-Holds

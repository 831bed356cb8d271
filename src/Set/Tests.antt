-- ===== src/Set/Tests.antt =====
-- Two sets with the values 1, 3 and 5.
use b_link.Prelude.{ℕ, suc, refl, Bool, false, true, Settles, Decides}
use b_link.Ord.{nat_ord}
use b_link.Set.{BLinkSet, len, is_disjoint, is_subset, eq}
use b_link.Set.Subsets.{Subset, Disjoint, is_subset-Decides}
use b_link.Set.Relations.{eq-Decides, is_disjoint-Decides}
use b_link.Samples.{map, contents, map-Models}

abbrev unit : ℕ → Unit {0}
unit k = tt

abbrev odd : BLinkSet ℕ
odd = record { map = map unit }

is_subset-Decides_example :
    (b : Bool) × Settles (λ rounds. is_subset false (suc (len odd)) rounds odd odd) b
    × Decides b (Subset (contents unit) (contents unit))
is_subset-Decides_example =
    is_subset-Decides {set = odd} {other = odd} (map-Models unit) (map-Models unit) false
      (λ same. absurd cc)

eq-Decides_example :
    (b : Bool) × Settles (λ rounds. eq false (suc (len odd)) rounds odd odd) b
    × Decides b (Subset (contents unit) (contents unit) × Subset (contents unit) (contents unit))
eq-Decides_example =
    eq-Decides {set = odd} {other = odd} (map-Models unit) (map-Models unit) false
      (λ same. absurd cc)

is_disjoint-Decides_example :
    (b : Bool) × Settles (λ rounds. is_disjoint true (suc (len odd)) rounds odd odd) b
    × Decides b (Disjoint (contents unit) (contents unit))
is_disjoint-Decides_example =
    is_disjoint-Decides {set = odd} {other = odd} (map-Models unit) (map-Models unit) true
      (λ same. refl)

-- ===== src/Map/Tests.antt =====
-- Calls of src/map.rs on small maps.
use b_link.Prelude.{
  ℕ, ◌*◌, ◌≡◌, refl, true, Option, none, List, [], ◌∷◌, Run, ok, ◌>>=◌, Settles, Decides,
}
use b_link.Ord.{nat_ord}
use b_link.Node.{Entry, route}
use b_link.Node.Search.{child_index}
use b_link.Handle.{EntryRef}
use b_link.Handle.EntryMut.{EntryMut}
use b_link.Iter.{clone_key}
use b_link.Map.{get, get_mut, is_empty, from_iter, remove, debug_entries}
use b_link.Map.Reads.{Answers, get-Answers}
use b_link.Map.Update.{Updates, get_mut-Updates}
use b_link.Map.Loops.{is_empty-Decides}
use b_link.Tree.{visit, leaf_read_for}
use b_link.Tree.Insert.{
  try_insert_without_split, split_root_if_full, insert_attempt, repair_split_backlink,
}
use b_link.Tree.Read.{first_entry, entry_at_or_after}
use b_link.Tree.Relink.{relink, begin_relink}
use b_link.Tree.Remove.{try_remove_without_rebalance, remove_attempt, shrink_root}
use b_link.Tree.Thread.{run_alone}
use b_link.Samples.{map, contents, map-Models}

abbrev tens : ℕ → ℕ
tens k = k * 10

get-Answers_example :
    (entry : Option (EntryRef ℕ ℕ)) × Settles (λ rounds. get rounds (map tens) 3) entry
    × Answers (contents tens) 3 entry
get-Answers_example = get-Answers (map-Models tens) 3

get_mut-Updates_example :
    (entry : Option (EntryMut ℕ ℕ)) × Settles (λ rounds. get_mut rounds (map tens) 3) entry
    × Updates 3 (map tens) (contents tens) 3 entry
get_mut-Updates_example = get_mut-Updates (map-Models tens) 3

is_empty-Decides_example : Decides (is_empty (map tens)) ((j : ℕ) → contents tens j ≡ none)
is_empty-Decides_example = is_empty-Decides (map-Models tens)

-- Eight pairs with one key twice, into pages of three records; then a removal and a loop.
built : Run (List (Entry ℕ ℕ))
unfolding from_iter remove debug_entries run_alone visit route child_index leaf_read_for
    try_insert_without_split split_root_if_full insert_attempt repair_split_backlink
    try_remove_without_rebalance remove_attempt shrink_root relink begin_relink first_entry
    entry_at_or_after clone_key
built = do
  map ←
      from_iter 50 (λ _. true) 3
        ((4, 40) ∷ (1, 10) ∷ (6, 60) ∷ (2, 20) ∷ (5, 50) ∷ (3, 30) ∷ (1, 11) ∷ (7, 70) ∷ [])
  (map, removed) ← remove 50 3 map 4
  debug_entries 10 20 map

built_lem :
    built
    ≡ ok (
        record { key = 1; value = 11 }
        ∷ record { key = 2; value = 20 }
        ∷ record { key = 3; value = 30 }
        ∷ record { key = 5; value = 50 }
        ∷ record { key = 6; value = 60 }
        ∷ record { key = 7; value = 70 }
        ∷ [])
unfolding built
built_lem = refl

-- ===== src/Tree/Relink/Tests.antt =====
-- `repair_merged_link` of src/node.rs after a merge, with other threads between its critical
-- sections.
use b_link.Prelude.{
  ℕ, ◌+◌, ◌<◌, ◌≡◌, refl, true, false, Option, none, some, List, [], ◌∷◌, map, arith, length, ok,
}
use b_link.Ord.{nat_ord}
use b_link.Node.{Addr, MergeRepair, NodeKind, leaf, internal, redirect, route}
use b_link.Node.Search.{child_index}
use b_link.Tree.{Tree, visit}
use b_link.Tree.Insert.{insert_attempt}
use b_link.Tree.Insert.Backlink.{Repaired}
use b_link.Tree.Insert.Tests.{page, few, contents, many-Inv, many-Represents}
use b_link.Tree.Invariant.{Inv}
use b_link.Tree.Invariant.Contents.{Represents, with_key}
use b_link.Tree.Relink.{RelinkRound, spliced, walk_on, leftmost, relink}
use b_link.Tree.Relink.Splices.{Splices, walks_to}
use b_link.Tree.Relink.Spliced.{relink-Repaired}
use b_link.Tree.Remove.{try_remove_without_rebalance, remove_attempt, shrink_root}
use b_link.Tree.Thread.{
  Call, get, insert, remove, Pc, start_read, read, insert_at, remove_at, begin_link, link,
  final_shrink, returned, alone, turn,
}
use b_link.Tree.Thread.Fast.{starts, reads, latches}
use b_link.Tree.Thread.Places.{Moves, travels, attempts, removes, links_merge}
use b_link.Tree.Thread.History.{
  Event, Thread, Execution, start, turns, closes, logged, Linearized, Execution-Linearized, goes_on,
}

-- What one turn of one thread leaves.
after :
    {t u : Tree ℕ ℕ} {level : Addr → ℕ} {m : ℕ → Option ℕ} {c : Call ℕ ℕ} {pc pc' : Pc ℕ ℕ}
    → Inv 3 t level
    → Represents t m
    → Moves t c pc
    → turn 3 alone t pc ≡ ok (u, pc')
    → Linearized 3 m u (record { call = c; pc = pc' } ∷ []) (logged c pc' [])
after {level = level} inv rep goes run =
    Execution-Linearized {ts = record { call = _; pc = _ } ∷ []}
      (record {
        level = level;
        ordered = inv;
        stands_for = rep;
        legal = tt;
        threads = (goes_on goes, tt);
      })
      (turns start alone 0 _ refl goes run)

abbrev records : List (ℕ × ℕ) → NodeKind ℕ ℕ
records xs = leaf (record { entries = map (λ (x : ℕ × ℕ). record { key = x.0; value = x.1 }) xs })

abbrev three_leaves : List (ℕ × ℕ) → Tree ℕ ℕ
three_leaves right = record {
  pages =
      page false none (some 2) none (some 1) (leaf few)
      ∷ page false (some 2) (some 3) (some 0) (some 3) (records ((2, 20) ∷ []))
      ∷ page true none none none none
          (internal (record { keys = 2 ∷ 3 ∷ []; children = 0 ∷ 1 ∷ 3 ∷ [] }))
      ∷ page false (some 3) none (some 1) none (records right)
      ∷ [];
  root = 2;
  len = 2 + length right;
}

abbrev split_map : ℕ → Option ℕ
split_map = with_key contents 4 (some 40)

-- The right leaf is split, and then loses a record.
split :
    Linearized 3 split_map
      (three_leaves ((3, 30) ∷ (4, 40) ∷ []))
      (record { call = insert 5 50; pc = insert_at 5 50 3 } ∷ [])
      []
unfolding turn insert_attempt
split = after many-Inv many-Represents (attempts {a = 2} (omega arith)) refl

abbrev poor_map : ℕ → Option ℕ
poor_map = with_key split_map 4 none

poor :
    Linearized 3 split_map
      (three_leaves ((3, 30) ∷ []))
      (record { call = remove 4; pc = returned (some 40) } ∷ [])
      (record { call = remove 4; result = some 40 } ∷ [])
unfolding turn route try_remove_without_rebalance
poor = after split.ordered split.stands_for (travels (latches {a = 3} (omega arith))) refl

abbrev repair : MergeRepair
repair = record { predecessor = some 0; retired = 1; survivor = 3 }

-- The middle leaf gave its record to the right one; the left leaf still links to it.
abbrev chain : (right : Addr) → (previous : Option Addr) → List (ℕ × ℕ) → ℕ → Tree ℕ ℕ
chain right previous last len = record {
  pages =
      page false none (some 2) none (some right) (leaf few)
      ∷ page false none (some 3) (some 0) (some 3) (redirect 3)
      ∷ page true none none none none (internal (record { keys = 2 ∷ []; children = 0 ∷ 3 ∷ [] }))
      ∷ page false (some 2) none previous none (records last)
      ∷ [];
  root = 2;
  len = len;
}

abbrev merged : Tree ℕ ℕ
merged = chain 1 (some 0) ((2, 20) ∷ (3, 30) ∷ []) 3

merged-Linearized :
    Linearized 3 poor_map merged (record { call = remove 3; pc = begin_link 3 3 repair } ∷ []) []
unfolding turn remove_attempt
merged-Linearized = after poor.ordered poor.stands_for (removes {a = 2} (omega arith)) refl

repair-Splices : Splices merged repair
repair-Splices = record {
  page = _;
  at = refl;
  forwards = refl;
  survives = omega arith;
  precedes = λ b e. let same : 0 ≡ b = cc in omega (arith, same);
}

left_inside : (b : Addr) → some 0 ≡ some b → b < length merged.pages
left_inside b e = let same : 0 ≡ b = cc in omega (arith, same)

last_inside : (b : Addr) → some 3 ≡ some b → b < length merged.pages
last_inside b e = let same : 3 ≡ b = cc in omega (arith, same)

relink-Repaired_example :
    (t : Tree ℕ ℕ) × (next : RelinkRound) × (relink (λ _. true) merged repair (walk_on 0)
      ≡ ok (t, next))
    × Repaired merged-Linearized.ordered poor_map merged-Linearized.stands_for t (walks_to next)
relink-Repaired_example =
    relink-Repaired poor_map merged-Linearized.ordered merged-Linearized.stands_for repair
      repair-Splices (λ _. true) (walk_on 0) left_inside

-- The left leaf then links to the right one, and the walk is over.
relink_lem :
    relink (λ _. true) merged repair (walk_on 0)
    ≡ ok (chain 3 (some 0) ((2, 20) ∷ (3, 30) ∷ []) 3, spliced)
unfolding relink
relink_lem = refl

abbrev remover : Pc ℕ ℕ → Thread ℕ ℕ
remover pc = record { call = remove 3; pc = pc }

abbrev reader : Pc ℕ ℕ → Thread ℕ ℕ
reader pc = record { call = get 2; pc = pc }

abbrev log : List (Event ℕ ℕ)
log = record { call = get 2; result = some 20 } ∷ record { call = remove 3; result = some 30 } ∷ []

-- A walk that meets the end of the chain: a lookup runs between the moment at which the last page
-- is free again and the write to the survivor.
at_the_end :
    Execution 3 merged
      (remover (link 3 3 repair (walk_on 3)) ∷ reader (start_read (get 2)) ∷ [])
      (chain 1 none ((2, 20) ∷ []) 2)
      (remover (returned (some 30)) ∷ reader (returned (some 20)) ∷ [])
      log
unfolding turn visit route child_index relink remove_attempt shrink_root
at_the_end =
    closes
      (turns
        (turns
          (turns
            (turns
              (turns
                (turns start alone 0 (remover (link 3 3 repair (walk_on 3))) refl
                  (links_merge (omega arith) repair-Splices last_inside) refl)
                alone 1 (reader (start_read (get 2))) refl (travels starts) refl)
              alone 1 (reader (read (get 2) 2)) refl (travels (reads (omega arith))) refl)
            alone 0 (remover (link 3 3 repair leftmost)) refl
            (links_merge (omega arith) repair-Splices (λ b e. absurd cc)) refl)
          alone 0 (remover (remove_at 3 3)) refl (removes (omega arith)) refl)
        alone 1 (reader (read (get 2) 3)) refl (travels (reads (omega arith))) refl)
      alone 0 (remover (final_shrink (some 30))) refl (some 30) refl refl

at_the_end-Linearized :
    Linearized 3 poor_map
      (chain 1 none ((2, 20) ∷ []) 2)
      (remover (returned (some 30)) ∷ reader (returned (some 20)) ∷ [])
      log
at_the_end-Linearized =
    Execution-Linearized
      (record {
        level = merged-Linearized.level;
        ordered = merged-Linearized.ordered;
        stands_for = merged-Linearized.stands_for;
        legal = tt;
        threads = (
          goes_on (links_merge (omega arith) repair-Splices last_inside),
          (goes_on (travels starts), tt),
        );
      })
      at_the_end

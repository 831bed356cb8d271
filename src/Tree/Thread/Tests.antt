-- ===== src/Tree/Thread/Tests.antt =====
-- Two threads over one tree: an insertion and a lookup whose turns alternate, and the theorems of
-- Tree/ at the states they pass.
use b_link.Prelude.{
  ℕ, ◌/◌, ◌≤◌, ◌≡◌, ◌≢◌, refl, ◌⊎◌, Bool, true, Option, none, some, List, [], ◌∷◌, arith, is_some,
  length, ok, panic, ltb, ◌*◌, ◌^◌,
}
use b_link.Ord.{nat_ord}
use b_link.Node.{Addr, Node, LeafNode, leaf, leaf_root, route}
use b_link.Array.Bounded
use b_link.Tree.{Tree, Visit, new, visit, leaf_read_for}
use b_link.Tree.Insert
use b_link.Tree.Insert.{try_insert_without_split}
use b_link.Tree.Insert.Linear.{Inserted, try_insert_without_split_lem}
use b_link.Tree.Remove
use b_link.Tree.Remove.{try_remove_without_rebalance, remove_attempt, shrink_root}
use b_link.Tree.Remove.Linear.{Removed, try_remove_without_rebalance_lem}
use b_link.Tree.Read
use b_link.Tree.Read.Arrival.{Arrives, Locates, leaf_read_for-Arrives, get-Locates}
use b_link.Tree.Thread.{
  get, insert, remove, Pc, start_read, read, latch, returned, alone, turn, shrink, start_remove,
  remove_at, final_shrink,
}
use b_link.Tree.Thread.Fast.{starts, reads, latches}
use b_link.Tree.Thread.Effects.{Turned}
use b_link.Tree.Thread.Places.{travels, shrinks_root, begins_remove, removes}
use b_link.Tree.Thread.Turns.{turn-Turned}
use b_link.Tree.Thread.History.{
  Event, Thread, Execution, start, turns, closes, Linearized, Execution-Linearized, goes_on,
}
use b_link.Tree.Invariant.{Inv}
use b_link.Tree.Invariant.Write
use b_link.Tree.Invariant.New.{empty, empty_leaf, empty-Inv, empty-Represents, IsCapacity, new-Inv}
use b_link.Tree.Invariant.Routing.{Visited, visit-Visited}
use b_link.Tree.Invariant.Contents.{Represents, with_key}

abbrev blank : Tree ℕ ℕ
blank = empty 3

abbrev contents : LeafNode ℕ ℕ
contents = record { entries = record { key = 7; value = 70 } ∷ [] }

abbrev root : Node ℕ ℕ
root = record {
  is_root = true;
  low_key = none;
  high_key = none;
  previous = none;
  right = none;
  kind = leaf contents;
}

-- The tree after the insertion.
abbrev one_record : Tree ℕ ℕ
one_record = record { pages = root ∷ []; root = 0; len = 1 }

abbrev level : Addr → ℕ
level a = 0

abbrev no_keys : ℕ → Option ℕ
no_keys k = none

blank-Inv : Inv 3 blank level
blank-Inv = empty-Inv 3 (omega arith)

blank-Represents : Represents blank no_keys
blank-Represents = empty-Represents 3

-- A record of 16 bytes, in an allocation that an `isize` can measure.
abbrev fits : ℕ → Bool
fits n = ltb (n * 16) (2 ^ 63)

new-Inv_example :
    ((t : Tree ℕ ℕ) × (new fits 3 ≡ ok t)
      × IsCapacity fits 3
      × Inv 3 t (λ a. 0)
      × Represents t no_keys
      × (t.len ≡ 0))
    ⊎ ((new {K = ℕ} {V = ℕ} fits 3 ≡ panic) × ¬ IsCapacity fits 3)
new-Inv_example = new-Inv 3 fits

-- A page capacity whose arrays of records cannot be laid out.
new-panic : new {K = ℕ} {V = ℕ} fits (2 ^ 62) ≡ panic
unfolding new leaf_root Bounded.with_capacity
new-panic = refl

abbrev writer : Pc ℕ ℕ → Thread ℕ ℕ
writer pc = record { call = insert 7 70; pc = pc }

abbrev reader : Pc ℕ ℕ → Thread ℕ ℕ
reader pc = record { call = get 7; pc = pc }

abbrev log : List (Event ℕ ℕ)
log = record { call = get 7; result = some 70 } ∷ record { call = insert 7 70; result = none } ∷ []

-- The lookup starts first and returns last.
run :
    Execution 3 blank
      (writer (start_read (insert 7 70)) ∷ reader (start_read (get 7)) ∷ [])
      one_record
      (writer (returned none) ∷ reader (returned (some 70)) ∷ [])
      log
unfolding turn visit route try_insert_without_split
run =
    turns
      (turns
        (turns
          (turns (turns start alone 1 (reader (start_read (get 7))) refl (travels starts) refl)
            alone 0 (writer (start_read (insert 7 70))) refl (travels starts) refl)
          alone 0 (writer (read (insert 7 70) 0)) refl (travels (reads (omega arith))) refl)
        alone 0 (writer (latch (insert 7 70) 0)) refl (travels (latches (omega arith))) refl)
      alone 1 (reader (read (get 7) 0)) refl (travels (reads (omega arith))) refl

before :
    Linearized 3 no_keys blank
      (writer (start_read (insert 7 70)) ∷ reader (start_read (get 7)) ∷ [])
      []
before = record {
  level = level;
  ordered = blank-Inv;
  stands_for = blank-Represents;
  legal = tt;
  threads = (goes_on (travels starts), (goes_on (travels starts), tt));
}

Execution-Linearized_example :
    Linearized 3 no_keys one_record (writer (returned none) ∷ reader (returned (some 70)) ∷ []) log
Execution-Linearized_example = Execution-Linearized before run

-- The tree with one record, and the map that it stands for.
abbrev seven : ℕ → Option ℕ
seven = with_key no_keys 7 (some 70)

one_record-Linearized :
    Linearized 3 no_keys one_record (writer (returned none) ∷ reader (returned (some 70)) ∷ []) log
one_record-Linearized = Execution-Linearized before run

one_record-Inv : Inv 3 one_record level
one_record-Inv =
    Write.written-Inv blank-Inv 0 empty_leaf refl (record { entries = [] }) contents refl 1
      (record { sorted = (tt, tt); within = ((tt, tt), tt); bounded = omega arith })
      (λ other. absurd (other refl)) refl

one_record-Represents : Represents one_record seven
one_record-Represents = one_record-Linearized.stands_for

turn-Turned_example :
    (t : Tree ℕ ℕ) × (pc : Pc ℕ ℕ) × (turn 3 alone one_record (latch (remove 7) 0) ≡ ok (t, pc))
    × Turned 3 one_record seven (remove 7) t pc
turn-Turned_example =
    turn-Turned one_record-Inv seven one_record-Represents alone (travels (latches (omega arith)))

try_insert_without_split_lem_example :
    ((t : Tree ℕ ℕ) × (try_insert_without_split 3 one_record 0 root contents 5 50
        ≡ ok (t, Insert.done none))
      × Inserted one_record-Inv 0 root contents refl refl seven one_record-Represents 5 50
          (tt, tt)
          t)
    ⊎ ((try_insert_without_split 3 one_record 0 root contents 5 50
          ≡ ok (one_record, Insert.structural))
        × (seven 5 ≡ none)
        × (length contents.entries ≡ 3))
try_insert_without_split_lem_example =
    try_insert_without_split_lem one_record-Inv 0 root contents refl refl seven
      one_record-Represents 5 50 (tt, tt)

try_remove_without_rebalance_lem_example :
    ((t : Tree ℕ ℕ) × (try_remove_without_rebalance 3 one_record 0 root contents 7
        ≡ ok (t, Remove.done (some 70)))
      × Removed one_record-Inv 0 root contents refl refl seven one_record-Represents 7 (tt, tt) t)
    ⊎ ((try_remove_without_rebalance 3 one_record 0 root contents 7
          ≡ ok (one_record, Remove.structural))
        × (is_some (seven 7) ≡ true)
        × (◌≢◌ {A = ℕ} 0 one_record.root)
        × (1 ≤ 3 / 2))
try_remove_without_rebalance_lem_example =
    try_remove_without_rebalance_lem one_record-Inv 0 root contents refl refl seven
      one_record-Represents 7 (tt, tt)

visit-Visited_example : (v : Visit) × (visit root 7 ≡ ok v) × Visited one_record root 7 v
visit-Visited_example = visit-Visited 0 root 7 (one_record-Inv.page 0 root refl)

leaf_read_for-Arrives_example :
    (b : Addr) × (leaf_read_for 1 one_record 7 0 ≡ ok b) × Arrives one_record 7 b
leaf_read_for-Arrives_example = leaf_read_for-Arrives one_record-Inv 7

get-Locates_example :
    (r : Option (Addr × ℕ)) × (Read.get 1 one_record 7 ≡ ok r) × Locates one_record (seven 7) 7 r
get-Locates_example = get-Locates one_record-Inv seven one_record-Represents 7

-- A removal on its second way down, which takes effect before it shrinks the root and returns.
abbrev remover : Pc ℕ ℕ → Thread ℕ ℕ
remover pc = record { call = remove 7; pc = pc }

removal :
    Execution 3 one_record
      (remover (shrink 7) ∷ [])
      blank
      (remover (returned (some 70)) ∷ [])
      (record { call = remove 7; result = some 70 } ∷ [])
unfolding turn route remove_attempt shrink_root
removal =
    closes
      (turns
        (turns (turns start alone 0 (remover (shrink 7)) refl shrinks_root refl) alone 0
          (remover (start_remove 7)) refl begins_remove refl)
        alone 0 (remover (remove_at 7 0)) refl (removes (omega arith)) refl)
      alone 0 (remover (final_shrink (some 70))) refl (some 70) refl refl

removal-Linearized :
    Linearized 3 seven blank
      (remover (returned (some 70)) ∷ [])
      (record { call = remove 7; result = some 70 } ∷ [])
removal-Linearized =
    Execution-Linearized
      (record {
        level = level;
        ordered = one_record-Inv;
        stands_for = one_record-Represents;
        legal = tt;
        threads = (goes_on shrinks_root, tt);
      })
      removal

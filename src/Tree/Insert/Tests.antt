-- ===== src/Tree/Insert/Tests.antt =====
-- A root leaf with three records, the most that it may have, is split.
use b_link.Prelude.{
  ℕ, zero, suc, true, false, Bool, ◌≡◌, refl, sym, ap, ◌∙◌, Option, none, some, [], ◌∷◌, arith, ok,
}
use b_link.Ord.{nat_ord}
use b_link.Node.{
  Addr, Node, LeafNode, NodeKind, leaf, internal, occupancy, minimum, root_from_split,
}
use b_link.Node.Splitting.{split_full}
use b_link.Records.{lookup, put}
use b_link.Records.Laws.{lookup-put}
use b_link.Tree.{Tree}
use b_link.Tree.Insert.{
  GrowRound, InsertRound, split_root_if_full, insert_attempt, repair_split_backlink,
}
use b_link.Tree.Insert.Backlink.{Repaired, repair_split_backlink-Repaired}
use b_link.Tree.Insert.Attempt.{Attempted, insert_attempt-Attempted}
use b_link.Tree.Insert.Grow.{levels}
use b_link.Tree.Insert.Grow.Growth.{grown-Inv, grown-Represents}
use b_link.Tree.Insert.Grow.Round.{Grows, split_root_if_full-Grows}
use b_link.Tree.Invariant.{Inv}
use b_link.Tree.Invariant.Halves.{Halves, split_full-Halves}
use b_link.Tree.Invariant.Contents.{Represents, with_key, written-Represents}
use b_link.Tree.Invariant.New.{empty_leaf, empty-Inv}
use b_link.Tree.Invariant.Write

abbrev pub three : LeafNode ℕ ℕ
three = record {
  entries =
      record { key = 1; value = 10 }
      ∷ record { key = 2; value = 20 }
      ∷ record { key = 3; value = 30 }
      ∷ [];
}

abbrev pub full_root : Node ℕ ℕ
full_root = record {
  is_root = true;
  low_key = none;
  high_key = none;
  previous = none;
  right = none;
  kind = leaf three;
}

abbrev pub full_tree : Tree ℕ ℕ
full_tree = record { pages = full_root ∷ []; root = 0; len = 3 }

abbrev pub level : Addr → ℕ
level a = 0

abbrev pub contents : ℕ → Option ℕ
contents k = lookup three.entries k

pub full_tree-Inv : Inv 3 full_tree level
full_tree-Inv =
    Write.written-Inv (empty-Inv 3 (omega arith)) 0 empty_leaf refl (record { entries = [] }) three
      refl 3
      (record {
        sorted = ((refl, (refl, tt)), ((refl, tt), (tt, tt)));
        within = ((tt, tt), ((tt, tt), ((tt, tt), tt)));
        bounded = omega arith;
      })
      (λ other. absurd (other refl)) refl

full_tree-Represents : Represents full_tree contents
full_tree-Represents zero p c k at is owns =
    let page : full_root ≡ p = cc in
    let kinds : leaf three ≡ leaf c = ap (λ (x : Node ℕ ℕ). x.kind) page ∙ is in
    let same : three ≡ c = cc in ap (λ (x : LeafNode ℕ ℕ). lookup x.entries k) (sym same)
full_tree-Represents (suc a) p c k at is owns = absurd cc

split_root_if_full-Grows_example :
    (t : Tree ℕ ℕ) × (r : GrowRound) × (split_root_if_full 3 full_tree ≡ ok (t, r))
    × Grows full_tree-Inv contents full_tree-Represents t r
split_root_if_full-Grows_example =
    split_root_if_full-Grows full_tree-Inv contents full_tree-Represents

split_full-Halves_example :
    (separator : ℕ) × (left : NodeKind ℕ ℕ) × (right : NodeKind ℕ ℕ) × (split_full 3 0 1 full_root
      ≡ ok (
        record full_root { high_key = some separator; right = some 1; kind = left },
        record {
          is_root = false;
          low_key = some separator;
          high_key = none;
          previous = some 0;
          right = none;
          kind = right;
        },
        record { separator = separator; right = 1; old_successor = none },
      ))
    × Halves full_tree level 3 0 none none (leaf three) separator left right
unfolding occupancy
split_full-Halves_example =
    split_full-Halves (omega arith) 0 1 full_root (full_tree-Inv.page 0 full_root refl).kind refl
      refl

-- The tree after the split of the root, and with one more record in its right leaf, which is full
-- then.
abbrev pub few : LeafNode ℕ ℕ
few = record { entries = record { key = 1; value = 10 } ∷ [] }

abbrev pub more : LeafNode ℕ ℕ
more = record { entries = record { key = 2; value = 20 } ∷ record { key = 3; value = 30 } ∷ [] }

abbrev pub many : LeafNode ℕ ℕ
many = record {
  entries =
      record { key = 2; value = 20 }
      ∷ record { key = 3; value = 30 }
      ∷ record { key = 4; value = 40 }
      ∷ [];
}

pub root-Halves : Halves full_tree level 3 0 none none (leaf three) 2 (leaf few) (leaf more)
unfolding occupancy minimum
root-Halves = record {
  bond = record {
    lower = (refl, record { sorted = (tt, tt); within = ((tt, refl), tt); bounded = omega arith });
    upper = (
      refl,
      record {
        sorted = ((refl, tt), (tt, tt));
        within = ((ground arith, tt), ((ground arith, tt), tt));
        bounded = omega arith;
      },
    );
    above = tt;
    below = tt;
    lower_active = refl;
    upper_active = refl;
    kept = refl;
  };
  lower_filled = omega arith;
  upper_filled = omega arith;
  lower_room = omega arith;
  upper_room = omega arith;
}

abbrev pub page : Bool → Option ℕ → Option ℕ → Option Addr → Option Addr → NodeKind ℕ ℕ → Node ℕ ℕ
page is_root low high previous right kind = record {
  is_root = is_root;
  low_key = low;
  high_key = high;
  previous = previous;
  right = right;
  kind = kind;
}

abbrev pub right_page : NodeKind ℕ ℕ → Node ℕ ℕ
right_page kind = page false (some 2) none (some 0) none kind

abbrev pub two_leaves : LeafNode ℕ ℕ → ℕ → Tree ℕ ℕ
two_leaves right len = record {
  pages =
      page false none (some 2) none (some 1) (leaf few)
      ∷ right_page (leaf right)
      ∷ page true none none none none (internal (record { keys = 2 ∷ []; children = 0 ∷ 1 ∷ [] }))
      ∷ [];
  root = 2;
  len = len;
}

abbrev pub heights : Addr → ℕ
heights = levels full_tree-Inv full_root refl refl 2 (leaf few) (leaf more) root-Halves

pub grown-Inv_lem : Inv 3 (two_leaves more 3) heights
unfolding root_from_split
grown-Inv_lem = grown-Inv full_tree-Inv full_root refl refl 2 (leaf few) (leaf more) root-Halves

pub grown-Represents_lem : Represents (two_leaves more 3) contents
unfolding root_from_split
grown-Represents_lem =
    grown-Represents full_tree-Inv full_root refl refl 2 (leaf few) (leaf more) root-Halves contents
      full_tree-Represents

pub many-Inv : Inv 3 (two_leaves many 4) heights
many-Inv =
    Write.written-Inv grown-Inv_lem 1 (right_page (leaf more)) refl more many refl 4
      (record {
        sorted = ((refl, (refl, tt)), ((refl, tt), (tt, tt)));
        within = ((ground arith, tt), ((ground arith, tt), ((ground arith, tt), tt)));
        bounded = omega arith;
      })
      (λ other. omega arith) refl

pub many-Represents : Represents (two_leaves many 4) (with_key contents 4 (some 40))
unfolding put
many-Represents =
    written-Represents grown-Inv_lem 1 (right_page (leaf more)) refl more many refl 4 4
      (ground arith, tt) (some 40) (λ j. lookup-put more.entries 4 40 j ((refl, tt), (tt, tt)))
      grown-Represents_lem

-- At the root the right leaf is found full, and is split.
insert_attempt-Attempted_example :
    (t : Tree ℕ ℕ) × (r : InsertRound ℕ) × (insert_attempt 3 (two_leaves many 4) true 2 5 50
      ≡ ok (t, r))
    × Attempted 3 (with_key contents 4 (some 40)) 5 50 (two_leaves many 4) t r
insert_attempt-Attempted_example =
    insert_attempt-Attempted 3 (with_key contents 4 (some 40)) 5 50 many-Inv many-Represents true 2
      (omega arith)

insert_attempt_lem :
    insert_attempt 3 (two_leaves many 4) true 2 5 50
    ≡ ok (
      record {
        pages =
            page false none (some 2) none (some 1) (leaf few)
            ∷ page false
                (some 2)
                (some 3)
                (some 0)
                (some 3)
                (leaf (record { entries = record { key = 2; value = 20 } ∷ [] }))
            ∷ page true none none none none
                (internal (record { keys = 2 ∷ 3 ∷ []; children = 0 ∷ 1 ∷ 3 ∷ [] }))
            ∷ page false (some 3) none (some 1) none (
                leaf (record {
                  entries = record { key = 3; value = 30 } ∷ record { key = 4; value = 40 } ∷ [];
                }))
            ∷ [];
        root = 2;
        len = 4;
      },
      InsertRound.descend 3 (some (3, none)),
    )
unfolding insert_attempt
insert_attempt_lem = refl

-- The two leaves are linked already.
repair_split_backlink-Repaired_example :
    (t : Tree ℕ ℕ) × (next : Option Addr) × (repair_split_backlink (two_leaves more 3) 0 1
      ≡ ok (t, next))
    × Repaired grown-Inv_lem contents grown-Represents_lem t next
repair_split_backlink-Repaired_example =
    repair_split_backlink-Repaired grown-Inv_lem contents grown-Represents_lem 0 1 (omega arith)
      (omega arith)

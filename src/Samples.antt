-- ===== src/Samples.antt =====
-- A map with three records, for tests.
use b_link.Prelude.{ℕ, zero, suc, true, ◌≡◌, refl, sym, ap, ◌∙◌, Option, none, [], ◌∷◌, arith}
use b_link.Ord.{nat_ord}
use b_link.Node.{Addr, Node, LeafNode, leaf}
use b_link.Map.{BLinkMap}
use b_link.Map.Reads.{Models}
use b_link.Records.{lookup}
use b_link.Tree.{Tree}
use b_link.Tree.Invariant.{Inv}
use b_link.Tree.Invariant.Contents.{Represents}
use b_link.Tree.Invariant.New.{empty_leaf, empty-Inv}
use b_link.Tree.Invariant.Write

module _ {V : Type 0} (value : ℕ → V) where
  abbrev pub records : LeafNode ℕ V
  records = record {
    entries =
        record { key = 1; value = value 1 }
        ∷ record { key = 3; value = value 3 }
        ∷ record { key = 5; value = value 5 }
        ∷ [];
  }

  abbrev pub root : Node ℕ V
  root = record {
    is_root = true;
    low_key = none;
    high_key = none;
    previous = none;
    right = none;
    kind = leaf records;
  }

  abbrev pub tree : Tree ℕ V
  tree = record { pages = root ∷ []; root = 0; len = 3 }

  abbrev pub map : BLinkMap ℕ V
  map = record { tree = tree }

  abbrev pub level : Addr → ℕ
  level a = 0

  abbrev pub contents : ℕ → Option V
  contents k = lookup records.entries k

  pub tree-Inv : Inv 3 tree level
  tree-Inv =
      Write.written-Inv (empty-Inv 3 (omega arith)) 0 empty_leaf refl (record { entries = [] })
        records refl 3
        (record {
          sorted = ((refl, (refl, tt)), ((refl, tt), (tt, tt)));
          within = ((tt, tt), ((tt, tt), ((tt, tt), tt)));
          bounded = omega arith;
        })
        (λ other. absurd (other refl)) refl

  pub tree-Represents : Represents tree contents
  tree-Represents zero p c k at is owns =
      let page : root ≡ p = cc in
      let kinds : leaf records ≡ leaf c = ap (λ (x : Node ℕ V). x.kind) page ∙ is in
      let same : records ≡ c = cc in ap (λ (x : LeafNode ℕ V). lookup x.entries k) (sym same)
  tree-Represents (suc a) p c k at is owns = absurd cc

  pub map-Models : Models 3 map contents
  map-Models = record { level = level; ordered = tree-Inv; stands_for = tree-Represents }

-- ===== src/Tree/Remove/Tests.antt =====
-- A root that has one child and no separator gives way to the child, and a leaf that has as few
-- records as it may have borrows one.
use b_link.Prelude.{
  ℕ, zero, suc, true, false, Bool, ◌≡◌, refl, sym, subst, Option, none, some, [], ◌∷◌, arith,
  get_elem?, ok,
}
use b_link.Ord.{nat_ord}
use b_link.Node.{Addr, Node, LeafNode, leaf, internal, occupancy, minimum}
use b_link.Records.{lookup}
use b_link.Tree.{Tree}
use b_link.Tree.Insert.Tests
use b_link.Tree.Remove.{RemoveRound, shrink_root, remove_attempt}
use b_link.Tree.Remove.Attempt.{remove_attempt-Attempted}
use b_link.Tree.Remove.Rebalance.{Attempted}
use b_link.Tree.Remove.Collapsed.{Shrunk, shrink_root-Shrunk}
use b_link.Tree.Invariant.{Inv, Page, Child, IsPage, low_fence, high_fence}
use b_link.Tree.Invariant.Contents.{Represents}

abbrev few : LeafNode ℕ ℕ
few = record { entries = record { key = 1; value = 10 } ∷ [] }

abbrev only_leaf : Node ℕ ℕ
only_leaf = record {
  is_root = false;
  low_key = none;
  high_key = none;
  previous = none;
  right = none;
  kind = leaf few;
}

abbrev tall_root : Node ℕ ℕ
tall_root = record {
  is_root = true;
  low_key = none;
  high_key = none;
  previous = none;
  right = none;
  kind = internal (record { keys = []; children = 0 ∷ [] });
}

abbrev tall : Tree ℕ ℕ
tall = record { pages = only_leaf ∷ tall_root ∷ []; root = 1; len = 1 }

abbrev level : Addr → ℕ
level zero = 0
level (suc a) = 1

abbrev contents : ℕ → Option ℕ
contents k = lookup few.entries k

leaf-IsPage : IsPage {K = ℕ} tall level 3 0 only_leaf
unfolding minimum occupancy
leaf-IsPage = record {
  kind = (refl, record { sorted = (tt, tt); within = ((tt, tt), tt); bounded = omega arith });
  root_role = refl;
  filled = λ active other. omega arith;
  successor = λ active. refl;
  below_root = λ active. omega arith;
  predecessor = λ b e. absurd cc;
}

leaf-Child :
    (i : ℕ) (c : Addr)
    → get_elem? (0 ∷ []) i ≡ some c
    → Child tall level 0 c (low_fence none [] i) (high_fence none [] i)
leaf-Child zero c h =
    let same : 0 ≡ c = cc in
    subst (λ x. Child tall level 0 x none none) same
      (record {
        page = only_leaf;
        at = refl;
        active = refl;
        on_level = refl;
        low_key = refl;
        high_key = refl;
      })
leaf-Child (suc i) c h = absurd cc

root-IsPage : IsPage {K = ℕ} tall level 3 1 tall_root
unfolding minimum occupancy
root-IsPage = record {
  kind = (
    0,
    refl,
    record {
      ascends = λ i j a b h p q. absurd cc;
      inside = λ i a p. absurd cc;
      counted = refl;
      children = leaf-Child;
      bounded = omega arith;
    },
  );
  root_role = refl;
  filled = λ active other. absurd (other refl);
  successor = λ active. refl;
  below_root = λ active. omega arith;
  predecessor = λ b e. absurd cc;
}

all-IsPage : (a : Addr) (p : Node ℕ ℕ) → Page tall a p → IsPage tall level 3 a p
all-IsPage zero p at =
    let same : only_leaf ≡ p = cc in subst (λ x. IsPage tall level 3 0 x) same leaf-IsPage
all-IsPage (suc zero) p at =
    let same : tall_root ≡ p = cc in subst (λ x. IsPage tall level 3 1 x) same root-IsPage
all-IsPage (suc (suc a)) p at = absurd cc

same_address :
    (a b : Addr) (p q : Node ℕ ℕ) → Page tall a p → Page tall b q → level a ≡ level b → a ≡ b
same_address zero zero p q at at' e = refl
same_address zero (suc b) p q at at' e = absurd (omega arith)
same_address (suc a) zero p q at at' e = absurd (omega arith)
same_address (suc zero) (suc zero) p q at at' e = refl
same_address (suc zero) (suc (suc b)) p q at at' e = absurd cc
same_address (suc (suc a)) (suc b) p q at at' e = absurd cc

tall-Inv : Inv 3 tall level
tall-Inv = record {
  capacity = omega arith;
  page = all-IsPage;
  disjoint = λ a b p q k at at' active active' same own own'. same_address a b p q at at' same;
  root = record {
    page = tall_root;
    at = refl;
    active = refl;
    on_level = refl;
    low_key = refl;
    high_key = refl;
  };
  counted = refl;
}

tall-Represents : Represents tall contents
tall-Represents zero p c k at is owns =
    let page : only_leaf ≡ p = cc in
    let same : few ≡ c =
      let kinds : only_leaf.kind ≡ leaf c =
        subst (λ (x : Node ℕ ℕ). x.kind ≡ leaf c) (sym page) is in
      cc in
    subst (λ (x : LeafNode ℕ ℕ). lookup x.entries k ≡ contents k) same refl
tall-Represents (suc zero) p c k at is owns =
    let page : tall_root ≡ p = cc in
    absurd (
      let kinds : tall_root.kind ≡ leaf c =
        subst (λ (x : Node ℕ ℕ). x.kind ≡ leaf c) (sym page) is in
      cc)
tall-Represents (suc (suc a)) p c k at is owns = absurd cc

shrink_root-Shrunk_example :
    (t : Tree ℕ ℕ) × (more : Bool) × (shrink_root tall ≡ ok (t, more))
    × Shrunk tall-Inv contents tall-Represents t
shrink_root-Shrunk_example = shrink_root-Shrunk tall-Inv contents tall-Represents

-- The left leaf borrows a record before the key is looked for in it.
remove_attempt-Attempted_example :
    (t : Tree ℕ ℕ) × (r : RemoveRound ℕ) × (remove_attempt 3
        (Tests.two_leaves Tests.more 3)
        (record { first = true; second = true })
        2
        1
      ≡ ok (t, r))
    × Attempted 3 Tests.contents 1 Tests.heights (Tests.two_leaves Tests.more 3) t r
remove_attempt-Attempted_example =
    remove_attempt-Attempted 3 Tests.contents 1 Tests.grown-Inv_lem Tests.grown-Represents_lem
      (record { first = true; second = true }) 2 (omega arith)

remove_attempt_lem :
    remove_attempt 3 (Tests.two_leaves Tests.more 3) (record { first = true; second = true }) 2 1
    ≡ ok (
      record {
        pages =
            Tests.page false none (some 3) none (some 1) (
              leaf (record {
                entries = record { key = 1; value = 10 } ∷ record { key = 2; value = 20 } ∷ [];
              }))
            ∷ Tests.page false
                (some 3)
                none
                (some 0)
                none
                (leaf (record { entries = record { key = 3; value = 30 } ∷ [] }))
            ∷ Tests.page true none none none none
                (internal (record { keys = 3 ∷ []; children = 0 ∷ 1 ∷ [] }))
            ∷ [];
        root = 2;
        len = 3;
      },
      RemoveRound.descend 0 none,
    )
unfolding remove_attempt
remove_attempt_lem = refl

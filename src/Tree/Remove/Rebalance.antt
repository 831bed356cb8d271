-- ===== src/Tree/Remove/Rebalance.antt =====
-- `remove_attempt` of src/node.rs at two siblings of which one may be in need of a record.
use b_link.Prelude.{
  ℕ, suc, ◌+◌, ◌-◌, ◌/◌, ◌≤◌, ◌<◌, ◌≡◌, ◌≢◌, refl, inl, inr, Bool, true, false, Option, none, some,
  arith, ltb, leb, ◌==◌, Bool-cases, length, erase_idx, lt_of_get_elem?, Run, ok,
}
use b_link.Ord.{Ord}
use b_link.Array.Bounded
use b_link.Node.{Addr, InternalNode, NodeKind, redirect, MergeRepair, occupancy, minimum}
use b_link.Node.Rebalance.{merged_kind, borrow_from_left, borrow_from_right, merge_left_into_right}
use b_link.Tree.Invariant.Frame.{Redirects, Redirects-refl}
use b_link.Tree.{Tree}
use b_link.Tree.Invariant.{Inv}
use b_link.Tree.Invariant.Contents.{Represents, with_key}
use b_link.Tree.Relink.Splices.{Splices}
use b_link.Tree.Remove.{RemoveRound, finished, retry, descend, rebalance}
use b_link.Tree.Remove.Lent.{lent, lent_size, lent-Inv, lent-Represents, lent-Redirects}
use b_link.Tree.Remove.Loan.{Loan, lend_right-Loan, lend_left-Loan}
use b_link.Tree.Remove.Merge.{Merged, merged_kind-Merged}
use b_link.Tree.Remove.Siblings.{
  Siblings, separator, separator_at, siblings-Bond, not_root, right_level, inside, all_records,
}
use b_link.Tree.Remove.Survivor.{
  survived, survived_size, survived-Inv, survived-Represents, survived-Redirects, left_retired,
}

module _ {K V : Type 0} ⦃o : Ord K⦄ (n : ℕ) (m : K → Option V) (k : K) where
  -- The retired page forwards to the survivor, and the pages of a link that is to be repaired are
  -- in the tree.
  abbrev pub RepairIn : Tree K V → Option MergeRepair → Type 0
  RepairIn t none = Unit
  RepairIn t (some repair) = Splices t repair

  -- What a round means for the map: the removal with its result, or nothing.
  abbrev pub Means : Tree K V → RemoveRound V → Type 0
  Means t (finished removed) = (removed ≡ m k) × Represents t (with_key m k none)
  Means t retry = Represents t m
  Means t (descend target repair) = Represents t m × (target < length t.pages) × RepairIn t repair

  pub record Attempted (level : Addr → ℕ) (before t : Tree K V) (r : RemoveRound V) : Type 0 where
    pub ordered : Inv n t level
    pub means : Means t r
    pub same_pages : length t.pages ≡ length before.pages
    pub keeps : Redirects before t

  abbrev pub Round : (Addr → ℕ) → Tree K V → Run (Tree K V × RemoveRound V) → Type 0
  Round level t run =
      (t' : Tree K V) × (r : RemoveRound V) × (run ≡ ok (t', r)) × Attempted level t t' r

  module _ {t : Tree K V} {level : Addr → ℕ} (inv : Inv n t level) (rep : Represents t m) where
    pub unchanged : (r : RemoveRound V) → Means t r → Attempted level t t r
    unchanged r means = record {
      ordered = inv;
      means = means;
      same_pages = refl;
      keeps = Redirects-refl t;
    }

    module _ (f : Siblings n t level) where
      left-filled : minimum n f.p.kind ≤ occupancy f.p.kind
      left-filled = (inv.page f.c f.p f.left_at).filled f.left_active (not_root inv f f.c refl)

      right-filled : minimum n f.r.kind ≤ occupancy f.r.kind
      right-filled =
          (inv.page f.d f.r f.right_at).filled f.right_active
            (not_root inv f f.d (right_level inv f))

      left_inside : f.c < length t.pages
      left_inside = lt_of_get_elem? t.pages f.c f.p f.left_at

      right_inside : f.d < length t.pages
      right_inside = lt_of_get_elem? t.pages f.d f.r f.right_at

      abbrev Lending : Run (InternalNode K × NodeKind K V × NodeKind K V × K) → Type 0
      Lending = Loan t level n (level f.c) f.p.low_key f.r.high_key (all_records inv f) f.node f.i

      abbrev after :
          {run : Run (InternalNode K × NodeKind K V × NodeKind K V × K)} → Lending run → Tree K V
      after loan =
          lent inv f loan.boundary loan.left loan.right loan.bond loan.lower_filled
            loan.upper_filled

      -- The next page is one of the two.
      lent-Attempted :
          {run : Run (InternalNode K × NodeKind K V × NodeKind K V × K)} (loan : Lending run)
          (b : Addr)
          → b < length t.pages
          → Attempted level t (after loan) (descend b none)
      lent-Attempted loan b valid =
          let same =
            lent_size inv f loan.boundary loan.left loan.right loan.bond loan.lower_filled
              loan.upper_filled in
          record {
            ordered =
                lent-Inv inv f loan.boundary loan.left loan.right loan.bond loan.lower_filled
                  loan.upper_filled;
            means = (
              lent-Represents inv f loan.boundary loan.left loan.right loan.bond loan.lower_filled
                  loan.upper_filled m rep,
              omega (arith, same, valid),
              tt,
            );
            same_pages = same;
            keeps =
                lent-Redirects inv f loan.boundary loan.left loan.right loan.bond loan.lower_filled
                  loan.upper_filled;
          }

      from_left :
          minimum n f.p.kind < occupancy f.p.kind
          → occupancy f.r.kind ≤ minimum n f.r.kind
          → Round level t (rebalance n t f.a f.q f.node f.i f.c f.p f.d f.r false)
      unfolding rebalance borrow_from_left
      from_left rich poor =
          let loan =
            lend_right-Loan f.node f.i (separator_at inv f) inv.capacity f.p.kind f.r.kind
              (siblings-Bond inv f) rich (omega (arith, poor, right-filled)) in
          let is_poor : leb (occupancy f.r.kind) (minimum n f.r.kind) ≡ true = ground arith in
          let is_rich : ltb (minimum n f.p.kind) (occupancy f.p.kind) ≡ true = ground arith in
          (
            after loan,
            descend f.d none,
            rw (is_poor, is_rich, loan.runs) refl,
            lent-Attempted loan f.d right_inside,
          )

      from_right :
          minimum n f.r.kind < occupancy f.r.kind
          → occupancy f.p.kind ≤ minimum n f.p.kind
          → Round level t (rebalance n t f.a f.q f.node f.i f.c f.p f.d f.r true)
      unfolding rebalance borrow_from_right
      from_right rich poor =
          let loan =
            lend_left-Loan f.node f.i (separator_at inv f) inv.capacity f.p.kind f.r.kind
              (siblings-Bond inv f) rich (omega (arith, poor, left-filled)) in
          let is_poor : leb (occupancy f.p.kind) (minimum n f.p.kind) ≡ true = ground arith in
          let is_rich : ltb (minimum n f.r.kind) (occupancy f.r.kind) ≡ true = ground arith in
          (
            after loan,
            descend f.c none,
            rw (is_poor, is_rich, loan.runs) refl,
            lent-Attempted loan f.c left_inside,
          )

      module _ (spare : f.a ≢ t.root → (n - 1) / 2 < length f.node.keys)
          (poor : occupancy f.p.kind ≤ minimum n f.p.kind)
          (poor' : occupancy f.r.kind ≤ minimum n f.r.kind) where
        abbrev Joint : Type 0
        Joint =
            Merged t level n (level f.c) f.p.low_key f.r.high_key (all_records inv f)
              (merged_kind n (separator inv f) f.p.kind f.r.kind)

        joint : Joint
        joint =
            merged_kind-Merged inv.capacity f.p.kind f.r.kind (siblings-Bond inv f)
              (omega (arith, poor, left-filled)) (omega (arith, poor', right-filled))

        abbrev repair : MergeRepair
        repair = record { predecessor = f.p.previous; retired = f.c; survivor = f.d }

        merge_runs :
            merge_left_into_right n f.node f.i f.c f.p f.d f.r
            ≡ ok (
              record { keys = erase_idx f.node.keys f.i; children = erase_idx f.node.children f.i },
              record f.p { low_key = none; kind = redirect f.d },
              record f.r { low_key = f.p.low_key; previous = f.p.previous; kind = joint.kind },
              repair,
            )
        unfolding merge_left_into_right Bounded.index Bounded.remove
        merge_runs =
            let next : f.i + 1 ≡ suc f.i = omega arith in
            let left_same : f.c == f.c ≡ true = ground arith in
            let right_same : f.d == f.d ≡ true = ground arith in
            let key_inside : ltb f.i (length f.node.keys) ≡ true = ground (arith, inside inv f) in
            let child_inside : ltb f.i (length f.node.children) ≡ true =
              ground (arith, lt_of_get_elem? f.node.children f.i f.c f.left_child) in
            rw
              (
                f.left_child,
                next,
                f.right_child,
                left_same,
                right_same,
                key_inside,
                separator_at inv f,
                child_inside,
                left_same,
                joint.runs,
              )
              refl

        abbrev merged : Tree K V
        merged = survived inv f spare joint.kind joint.shape joint.active joint.filled joint.kept

        merged-Attempted : Attempted level t merged (descend f.d (some repair))
        merged-Attempted =
            let same =
              survived_size inv f spare joint.kind joint.shape joint.active joint.filled
                joint.kept in
            record {
              ordered =
                  survived-Inv inv f spare joint.kind joint.shape joint.active joint.filled
                    joint.kept;
              means = (
                survived-Represents inv f spare joint.kind joint.shape joint.active joint.filled
                    joint.kept m rep,
                omega (arith, same, right_inside),
                (let (x, x_at, forwards) =
                      left_retired inv f spare joint.kind joint.shape joint.active joint.filled
                        joint.kept in
                    record {
                      page = x;
                      at = x_at;
                      forwards = forwards;
                      survives = omega (arith, same, right_inside);
                      precedes =
                          λ b e. omega (arith, same, (inv.page f.c f.p f.left_at).predecessor b e);
                    }),
              );
              same_pages = same;
              keeps =
                  survived-Redirects inv f spare joint.kind joint.shape joint.active joint.filled
                    joint.kept;
            }

      -- Two siblings under a page that may lose a separator, the child of the two first: it has
      -- records to spare, or it borrows one, or the two are merged.
      pub rebalance-Round :
          (f.a ≢ t.root → (n - 1) / 2 < length f.node.keys)
          → (child_is_left : Bool)
          → Round level t (rebalance n t f.a f.q f.node f.i f.c f.p f.d f.r child_is_left)
      unfolding rebalance
      rebalance-Round spare false =
          elim (Bool-cases (leb (occupancy f.r.kind) (minimum n f.r.kind))) [
            | inr enough ↦ (
              t,
              descend f.d none,
              rw enough refl,
              unchanged (descend f.d none) (rep, right_inside, tt),
            )
            | inl low ↦ elim (Bool-cases (ltb (minimum n f.p.kind) (occupancy f.p.kind))) [
              | inl rich ↦ from_left (ground arith) (ground arith)
              | inr poor ↦ (
                merged spare (ground arith) (ground arith),
                descend f.d (some (repair spare (ground arith) (ground arith))),
                rw (low, poor, merge_runs spare (ground arith) (ground arith)) refl,
                merged-Attempted spare (ground arith) (ground arith),
              )
            ]
          ]
      rebalance-Round spare true =
          elim (Bool-cases (leb (occupancy f.p.kind) (minimum n f.p.kind))) [
            | inr enough ↦ (
              t,
              descend f.c none,
              rw enough refl,
              unchanged (descend f.c none) (rep, left_inside, tt),
            )
            | inl low ↦ elim (Bool-cases (ltb (minimum n f.r.kind) (occupancy f.r.kind))) [
              | inl rich ↦ from_right (ground arith) (ground arith)
              | inr poor ↦ (
                merged spare (ground arith) (ground arith),
                descend f.d (some (repair spare (ground arith) (ground arith))),
                rw (low, poor, merge_runs spare (ground arith) (ground arith)) refl,
                merged-Attempted spare (ground arith) (ground arith),
              )
            ]
          ]

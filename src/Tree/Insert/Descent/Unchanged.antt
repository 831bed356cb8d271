-- ===== src/Tree/Insert/Descent/Unchanged.antt =====
-- `insert_attempt` of src/node.rs: the map after the split of a child.
use b_link.Prelude.{ℕ, ◌≡◌, sym, ap, ◌∙◌, Option}
use b_link.Ord.{Ord}
use b_link.Node.{Addr, NodeKind, leaf, Node}
use b_link.Records.{lookup}
use b_link.Tree.{Tree}
use b_link.Tree.Insert.Descent.{Family, after, at_upper, at_parent, at_lower, elsewhere, cases}
use b_link.Tree.Invariant.{Inv}
use b_link.Tree.Invariant.Bond.{records}
use b_link.Tree.Invariant.Parts.{lower-Between, upper-Between, lookup-lower, lookup-upper}
use b_link.Tree.Invariant.Contents.{Represents, records-answer}

module _ {K V : Type 0} ⦃o : Ord K⦄ {n : ℕ} {t : Tree K V} {level : Addr → ℕ} (inv : Inv n t level)
    (f : Family n t level) (m : K → Option V) (rep : Represents t m) where
  pub split-Represents : Represents (after inv f) m
  split-Represents b r contents k h is owns = elim (cases inv f b r h) [
    | at_upper same e ↦
        let part : f.right ≡ leaf contents = sym (ap (λ (x : Node K V). x.kind) e) ∙ is in
        let own = rw e at owns in
        let upper = f.halves.bond.upper in
        let low = (rw part at upper).0 in
        ap (λ (x : NodeKind K V). lookup (records x) k) (sym part)
        ∙ lookup-upper f.halves.bond k own.0
        ∙ records-answer inv m rep f.c f.p f.at f.active k low (upper-Between f.halves.bond k own)
    | at_parent same e ↦ absurd (let kinds = ap (λ (x : Node K V). x.kind) e in cc)
    | at_lower same e ↦
        let part : f.left ≡ leaf contents = sym (ap (λ (x : Node K V). x.kind) e) ∙ is in
        let own = rw e at owns in
        let lower = f.halves.bond.lower in
        let low = (rw part at lower).0 in
        ap (λ (x : NodeKind K V). lookup (records x) k) (sym part)
        ∙ lookup-lower f.halves.bond k own.1
        ∙ records-answer inv m rep f.c f.p f.at f.active k low (lower-Between f.halves.bond k own)
    | elsewhere other other' was ↦ rep b r contents k was is owns
  ]

-- ===== src/Tree/Insert/Grow/Growth.antt =====
-- `split_root_if_full` of src/node.rs: the tree and its map after the split of the root.
use b_link.Prelude.{
  ℕ, suc, ◌≡◌, refl, sym, ap, ◌∙◌, subst, Option, [], ◌∷◌, ◌++◌, arith, set, lt_of_get_elem?,
}
use b_link.Ord.{Ord}
use b_link.Node.{Addr, NodeKind, leaf, Node, root_from_split}
use b_link.Records.{lookup}
use b_link.Tree.{Tree, fresh}
use b_link.Tree.Insert.Grow.{
  old_level, root_at, Cases, at_root, at_upper, at_lower, elsewhere, cases,
}
use b_link.Tree.Invariant.{Page, IsActive, Owns, Inv, record_count}
use b_link.Tree.Invariant.Pages.{count-set, count-append}
use b_link.Tree.Invariant.Halves.{Halves}
use b_link.Tree.Invariant.Bond.{records}
use b_link.Tree.Invariant.Parts.{
  apart, kind_count-parts, kind_count-records, lower-Between, upper-Between, lookup-lower,
  lookup-upper,
}
use b_link.Tree.Invariant.Contents.{Represents, records-answer}
use b_link.Tree.Insert.Grow.Grown.{
  u, levels', lp, up, np, root_level, upper_level, top_level, all-IsPage,
}

module _ {K V : Type 0} ⦃o : Ord K⦄ {n : ℕ} {t : Tree K V} {level : Addr → ℕ} (inv : Inv n t level)
    (p : Node K V) (at : Page t t.root p) (active : IsActive p) (separator : K)
    (left right : NodeKind K V)
    (halves : Halves t level n
      (level t.root)
      p.low_key
      p.high_key
      p.kind
      separator
      left
      right) where
  abbrev tree : Tree K V
  tree = u inv p at active separator left right halves

  abbrev heights : Addr → ℕ
  heights = levels' inv p at active separator left right halves

  abbrev Source : Addr → Node K V → Type 0
  Source b q = Cases inv p at active separator left right halves b q

  lower_height : heights t.root ≡ level t.root
  lower_height = root_level inv p at active separator left right halves

  upper_height : heights (fresh t) ≡ level t.root
  upper_height = upper_level inv p at active separator left right halves

  old_height : (b : Addr) (q : Node K V) → Page t b q → heights b ≡ level b
  old_height b q was =
      old_level inv p at active separator left right halves b (lt_of_get_elem? t.pages b q was)

  -- Only the new root is above the old one.
  top_page :
      (b : Addr) (q : Node K V)
      → Source b q
      → IsActive q
      → heights b ≡ suc (level t.root)
      → tree.root ≡ b
  top_page b q (at_root same e) act top = same
  top_page b q (at_upper same e) act top =
      let h : heights b ≡ level t.root = subst (λ x. heights x ≡ level t.root) same upper_height in
      absurd (omega (arith, h, top))
  top_page b q (at_lower same e) act top =
      let h : heights b ≡ level t.root = subst (λ x. heights x ≡ level t.root) same lower_height in
      absurd (omega (arith, h, top))
  top_page b q (elsewhere other was) act top =
      absurd (omega (arith, old_height b q was, top, (inv.page b q was).below_root act))

  -- An old page that shares a key with the root at its level is the root.
  only_root :
      (b : Addr) (q : Node K V) (k : K)
      → Page t b q
      → IsActive q
      → heights b ≡ level t.root
      → Owns p k
      → Owns q k
      → t.root ≡ b
  only_root b q k was act same own own' =
      inv.disjoint t.root b p q k at was active act (omega (arith, same, old_height b q was)) own
        own'

  -- No key belongs to two active pages of a level.
  same_page :
      (a b : Addr) (q q' : Node K V) (k : K)
      → Source a q
      → Source b q'
      → IsActive q
      → IsActive q'
      → heights a ≡ heights b
      → Owns q k
      → Owns q' k
      → a ≡ b
  same_page a b q q' k (at_root same e) source act act' lev own own' =
      let top : heights a ≡ suc (level t.root) =
        subst (λ x. heights x ≡ suc (level t.root)) same
          (top_level inv p at active separator left right halves) in
      sym same ∙ top_page b q' source act' (sym lev ∙ top)
  same_page a b q q' k source (at_root same e) act act' lev own own' =
      let top : heights b ≡ suc (level t.root) =
        subst (λ x. heights x ≡ suc (level t.root)) same
          (top_level inv p at active separator left right halves) in
      sym (top_page a q source act (lev ∙ top)) ∙ same
  same_page a b q q' k (at_upper same e) (at_upper same' e') act act' lev own own' =
      sym same ∙ same'
  same_page a b q q' k (at_lower same e) (at_lower same' e') act act' lev own own' =
      sym same ∙ same'
  same_page a b q q' k (at_upper same e) (at_lower same' e') act act' lev own own' =
      apart separator k (rw e' at own').1 (rw e at own).0
  same_page a b q q' k (at_lower same e) (at_upper same' e') act act' lev own own' =
      apart separator k (rw e at own).1 (rw e' at own').0
  same_page a b q q' k (at_upper same e) (elsewhere other was) act act' lev own own' =
      let h : heights a ≡ level t.root = subst (λ x. heights x ≡ level t.root) same upper_height in
      absurd (
        other (
          only_root b q' k was act' (sym lev ∙ h) (upper-Between halves.bond k (rw e at own)) own'))
  same_page a b q q' k (at_lower same e) (elsewhere other was) act act' lev own own' =
      let h : heights a ≡ level t.root = subst (λ x. heights x ≡ level t.root) same lower_height in
      absurd (
        other (
          only_root b q' k was act' (sym lev ∙ h) (lower-Between halves.bond k (rw e at own)) own'))
  same_page a b q q' k (elsewhere other was) (at_upper same e) act act' lev own own' =
      let h : heights b ≡ level t.root = subst (λ x. heights x ≡ level t.root) same upper_height in
      absurd
        (other (only_root a q k was act (lev ∙ h) (upper-Between halves.bond k (rw e at own')) own))
  same_page a b q q' k (elsewhere other was) (at_lower same e) act act' lev own own' =
      let h : heights b ≡ level t.root = subst (λ x. heights x ≡ level t.root) same lower_height in
      absurd
        (other (only_root a q k was act (lev ∙ h) (lower-Between halves.bond k (rw e at own')) own))
  same_page a b q q' k (elsewhere other was) (elsewhere other' was') act act' lev own own' =
      inv.disjoint a b q q' k was was' act act'
        (sym (old_height a q was) ∙ lev ∙ old_height b q' was') own own'

  count : tree.len ≡ record_count tree.pages
  unfolding root_from_split
  count =
      let lower = lp inv p at active separator left right halves in
      let upper = up inv p at active separator left right halves in
      omega (
        arith,
        inv.counted,
        count-set t.pages t.root p lower at,
        kind_count-parts halves.bond,
        kind_count-records p.kind,
        count-append (set t.pages t.root lower) upper,
        count-append (set t.pages t.root lower ++ upper ∷ [])
            (np inv p at active separator left right halves),
      )

  -- The split keeps the tree in order.
  pub grown-Inv : Inv n tree heights
  unfolding root_from_split
  grown-Inv = record {
    capacity = inv.capacity;
    page = all-IsPage inv p at active separator left right halves;
    disjoint = λ a b q q' k h h' act act' lev own own'.
        same_page a b q q' k (cases inv p at active separator left right halves a q h)
          (cases inv p at active separator left right halves b q' h') act act' lev own own';
    root = record {
      page = np inv p at active separator left right halves;
      at = root_at inv p at active separator left right halves;
      active = refl;
      on_level = refl;
      low_key = refl;
      high_key = refl;
    };
    counted = count;
  }

  -- The split keeps the map.
  pub grown-Represents : (m : K → Option V) → Represents t m → Represents tree m
  unfolding root_from_split
  grown-Represents m rep b q contents k h is owns =
      elim (cases inv p at active separator left right halves b q h) [
        | at_root same e ↦ absurd (let kinds = ap (λ (x : Node K V). x.kind) e in cc)
        | at_upper same e ↦
            let part : right ≡ leaf contents = sym (ap (λ (x : Node K V). x.kind) e) ∙ is in
            let own = rw e at owns in
            let low = (rw part at halves.bond.upper).0 in
            ap (λ (x : NodeKind K V). lookup (records x) k) (sym part)
            ∙ lookup-upper halves.bond k own.0
            ∙ records-answer inv m rep t.root p at active k low (upper-Between halves.bond k own)
        | at_lower same e ↦
            let part : left ≡ leaf contents = sym (ap (λ (x : Node K V). x.kind) e) ∙ is in
            let own = rw e at owns in
            let low = (rw part at halves.bond.lower).0 in
            ap (λ (x : NodeKind K V). lookup (records x) k) (sym part)
            ∙ lookup-lower halves.bond k own.1
            ∙ records-answer inv m rep t.root p at active k low (lower-Between halves.bond k own)
        | elsewhere other was ↦ rep b q contents k was is owns
      ]

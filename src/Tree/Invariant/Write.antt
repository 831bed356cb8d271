-- ===== src/Tree/Invariant/Write.antt =====
-- A write to the records of one leaf, as the fast paths of src/node.rs make it.
use b_link.Prelude.{
  ℕ, ◌+◌, ◌/◌, ◌≤◌, ◌<◌, ◌≡◌, ◌≢◌, refl, sym, ap, subst, inl, inr, ◌⊎◌, arith, ◌==◌, Bool-cases,
  length, length-set, lt_of_get_elem?,
}
use b_link.Ord.{Ord}
use b_link.Node.{Addr, LeafNode, leaf, Node, occupancy, minimum}
use b_link.Tree.{Tree, store}
use b_link.Tree.Invariant.{Page, IsActive, IsPage, IsLeaf, Inv, kind_count}
use b_link.Tree.Invariant.Pages.{Page-unique, store-new, store-other, store-cases, count-set}
use b_link.Tree.Invariant.Frame.{Stays, Redirects, HasSuccessor-frame, IsPage-frame, Inv-frame}

module _ {K V : Type 0} ⦃o : Ord K⦄ {n : ℕ} {t : Tree K V} {level : Addr → ℕ} (inv : Inv n t level)
    (a : Addr) (p : Node K V) (at : Page t a p) (old new : LeafNode K V)
    (is_leaf : p.kind ≡ leaf old) (len : ℕ) where
  abbrev pub written : Node K V
  written = record p { kind = leaf new }

  abbrev pub after : Tree K V
  after = record (store t a written) { len = len }

  valid : a < length t.pages
  valid = lt_of_get_elem? t.pages a p at

  was-IsActive : IsActive p
  was-IsActive = rw is_leaf

  pub cases :
      (b : Addr) (q : Node K V)
      → Page after b q
      → ((a ≡ b) × (q ≡ written)) ⊎ ((a ≢ b) × Page t b q)
  cases b q h = store-cases t a written b q valid h

  stays : (c : Addr) → Stays t after level level c
  stays c q was act = elim (Bool-cases (a == c)) [
    | inl same ↦
        let e : a ≡ c = ground arith in
        let one : q ≡ p = Page-unique t c q p was (subst (λ x. Page t x p) e at) in
        record {
          page = written;
          at = subst (λ x. Page after x written) e (store-new t a written valid);
          active = refl;
          on_level = refl;
          low_key = ap (λ (x : Node K V). x.low_key) (sym one);
          high_key = ap (λ (x : Node K V). x.high_key) (sym one);
        }
    | inr other ↦ record {
      page = q;
      at = store-other t a written c q (ground arith) was;
      active = act;
      on_level = refl;
      low_key = refl;
      high_key = refl;
    }
  ]

  pub redirects : Redirects t after
  redirects b c q was e = elim (Bool-cases (a == b)) [
    | inl same ↦
        let one : q ≡ p =
          Page-unique t b q p was
            (subst (λ x. Page t x p) (let h : a ≡ b = ground arith in h) at) in
        absurd (let clash = ap (λ (x : Node K V). x.kind) one in cc)
    | inr other ↦ (q, store-other t a written b q (ground arith) was, e)
  ]

  back :
      (c : Addr) (q' : Node K V)
      → Page after c q'
      → IsActive q'
      → (q : Node K V) × Page t c q
        × IsActive q
        × (level c ≡ level c)
        × (q'.low_key ≡ q.low_key)
        × (q'.high_key ≡ q.high_key)
  back c q' h act = elim (cases c q' h) [
    | inl (same, e) ↦ (
      p,
      subst (λ x. Page t x p) same at,
      was-IsActive,
      refl,
      ap (λ (x : Node K V). x.low_key) e,
      ap (λ (x : Node K V). x.high_key) e,
    )
    | inr (other, was) ↦ (q', was, act, refl, refl, refl)
  ]

  module _ (ok : IsLeaf n p.low_key p.high_key new.entries)
      (filled : a ≢ t.root → n / 2 ≤ length new.entries)
      (counted : len + length old.entries ≡ t.len + length new.entries) where
    page : IsPage t level n a p
    page = inv.page a p at

    written-IsPage : IsPage after level n a written
    unfolding minimum occupancy
    written-IsPage =
        let shape = rw is_leaf at page.kind in
        record {
          kind = (shape.0, ok);
          root_role = page.root_role;
          filled = λ _ other. filled other;
          successor = λ _.
              HasSuccessor-frame (level a) p.high_key p.right redirects stays
                (page.successor was-IsActive);
          below_root = λ _. page.below_root was-IsActive;
          predecessor = λ b e. omega (arith, page.predecessor b e, length-set t.pages a written);
        }

    after-IsPage : (b : Addr) (q : Node K V) → Page after b q → IsPage after level n b q
    after-IsPage b q h = elim (cases b q h) [
      | inl (same, e) ↦
          subst (λ x. IsPage after level n b x) (sym e)
            (subst (λ x. IsPage after level n x written) same written-IsPage)
      | inr (other, was) ↦
          let old_page = inv.page b q was in
          IsPage-frame n old_page refl (omega (arith, length-set t.pages a written)) refl
            (omega arith) (λ node i c e e'. stays c)
            (λ act.
              HasSuccessor-frame (level b) q.high_key q.right redirects stays
                (old_page.successor act))
    ]

    -- The invariant after the write.
    pub written-Inv : Inv n after level
    written-Inv = Inv-frame n inv stays back refl after-IsPage (
        let total = count-set t.pages a p written at in
        let size = ap kind_count is_leaf in omega (arith, inv.counted))

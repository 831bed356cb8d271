-- ===== src/Tree/Invariant/Links.antt =====
-- A write to the sibling links of one page, as the repairs of src/node.rs make it.
use b_link.Prelude.{
  ℕ, ◌<◌, ◌≡◌, ◌≢◌, refl, sym, ap, ◌∙◌, subst, inl, inr, ◌⊎◌, Option, some, arith, ◌==◌, Bool-cases,
  length, length-set, lt_of_get_elem?,
}
use b_link.Ord.{Ord}
use b_link.Node.{Addr, Node}
use b_link.Tree.{Tree, store}
use b_link.Tree.Invariant.{Page, IsActive, HasSuccessor, Owns, IsPage, Inv}
use b_link.Tree.Invariant.Pages.{Page-unique, store-new, store-other, store-cases, count-set}
use b_link.Tree.Invariant.Frame.{
  Stays, Redirects, HasSuccessor-frame, IsKind-frame, IsPage-frame, Inv-frame,
}
use b_link.Tree.Invariant.Contents.{Represents}

module _ {K V : Type 0} ⦃o : Ord K⦄ {n : ℕ} {t : Tree K V} {level : Addr → ℕ} (inv : Inv n t level)
    (a : Addr) (p : Node K V) (at : Page t a p) (previous right : Option Addr) where
  abbrev pub linked : Node K V
  linked = record p { previous = previous; right = right }

  abbrev pub relinked : Tree K V
  relinked = store t a linked

  valid : a < length t.pages
  valid = lt_of_get_elem? t.pages a p at

  cases :
      (b : Addr) (q : Node K V)
      → Page relinked b q
      → ((a ≡ b) × (q ≡ linked)) ⊎ ((a ≢ b) × Page t b q)
  cases b q h = store-cases t a linked b q valid h

  -- A page of the old tree is the written one, or it is still there.
  was_cases :
      (b : Addr) (q : Node K V) → Page t b q → ((a ≡ b) × (p ≡ q)) ⊎ ((a ≢ b) × Page relinked b q)
  was_cases b q was = elim (Bool-cases (a == b)) [
    | inl same ↦
        let here : a ≡ b = ground arith in
        inl (here, Page-unique t b p q (subst (λ x. Page t x p) here at) was)
    | inr other ↦ inr (ground arith, store-other t a linked b q (ground arith) was)
  ]

  linked_at : Page relinked a linked
  linked_at = store-new t a linked valid

  stays : (c : Addr) → Stays t relinked level level c
  stays c q was act = elim (was_cases c q was) [
    | inl (here, one) ↦ record {
      page = linked;
      at = subst (λ x. Page relinked x linked) here linked_at;
      active = subst IsActive (sym one) act;
      on_level = refl;
      low_key = ap (λ (x : Node K V). x.low_key) one;
      high_key = ap (λ (x : Node K V). x.high_key) one;
    }
    | inr (other, now) ↦ record {
      page = q;
      at = now;
      active = act;
      on_level = refl;
      low_key = refl;
      high_key = refl;
    }
  ]

  pub redirects : Redirects t relinked
  redirects b c q was e = elim (was_cases b q was) [
    | inl (here, one) ↦ (
      linked,
      subst (λ x. Page relinked x linked) here linked_at,
      ap (λ (x : Node K V). x.kind) one ∙ e,
    )
    | inr (other, now) ↦ (q, now, e)
  ]

  back :
      (c : Addr) (q' : Node K V)
      → Page relinked c q'
      → IsActive q'
      → (q : Node K V) × Page t c q
        × IsActive q
        × (level c ≡ level c)
        × (q'.low_key ≡ q.low_key)
        × (q'.high_key ≡ q.high_key)
  back c q' h act = elim (cases c q' h) [
    | inl (same, e) ↦ (
      p,
      subst (λ x. Page t x p) same at,
      subst IsActive e act,
      refl,
      ap (λ (x : Node K V). x.low_key) e,
      ap (λ (x : Node K V). x.high_key) e,
    )
    | inr (other, was) ↦ (q', was, act, refl, refl, refl)
  ]

  pub same_size : length relinked.pages ≡ length t.pages
  same_size = length-set t.pages a linked

  module _ (successor : IsActive p → HasSuccessor t level (level a) p.high_key right)
      (predecessor : (b : Addr) → previous ≡ some b → b < length t.pages) where
    linked-IsPage : IsPage relinked level n a linked
    linked-IsPage =
        let page = inv.page a p at in
        record {
          kind =
              IsKind-frame n p.low_key p.high_key (level a) (level a) p.kind refl
                (omega (arith, same_size)) (λ node i c e e'. stays c) page.kind;
          root_role = page.root_role;
          filled = page.filled;
          successor =
              λ act. HasSuccessor-frame (level a) p.high_key right redirects stays (successor act);
          below_root = page.below_root;
          predecessor = λ b e. omega (arith, predecessor b e, same_size);
        }

    all-IsPage : (b : Addr) (q : Node K V) → Page relinked b q → IsPage relinked level n b q
    all-IsPage b q h = elim (cases b q h) [
      | inl (same, e) ↦
          subst (λ x. IsPage relinked level n b x) (sym e)
            (subst (λ x. IsPage relinked level n x linked) same linked-IsPage)
      | inr (other, was) ↦
          let old = inv.page b q was in
          IsPage-frame n old refl (omega (arith, same_size)) refl (omega arith)
            (λ node i c e e'. stays c)
            (λ act.
              HasSuccessor-frame (level b) q.high_key q.right redirects stays (old.successor act))
    ]

    pub relinked-Inv : Inv n relinked level
    relinked-Inv =
        Inv-frame n inv stays back refl all-IsPage
          (omega (arith, inv.counted, count-set t.pages a p linked at))

  pub relinked-Represents : (m : K → Option V) → Represents t m → Represents relinked m
  relinked-Represents m rep b q contents k h is owns = elim (cases b q h) [
    | inl (same, e) ↦
        rep a p contents k at (sym (ap (λ (x : Node K V). x.kind) e) ∙ is)
          (subst (λ x. Owns x k) e owns)
    | inr (other, was) ↦ rep b q contents k was is owns
  ]

-- ===== src/Tree/Insert/Grow/Grown.antt =====
-- `split_root_if_full` of src/node.rs: the pages after the split of the root.
use b_link.Prelude.{
  ℕ, zero, suc, ◌≡◌, ◌≢◌, refl, sym, ap, ◌∙◌, subst, Option, none, some, [], ◌∷◌, arith, get_elem?,
  lt_of_get_elem?,
}
use b_link.Ord.{Ord}
use b_link.Node.{Addr, NodeKind, Node, root_from_split, occupancy, minimum}
use b_link.Tree.{Tree, fresh}
use b_link.Tree.Insert.Grow.{
  lower_page, upper_page, new_root, grown_tree, levels, fresh_size, valid, old_level, lower_at,
  upper_at, at_root, at_upper, at_lower, elsewhere, cases, grows, redirects, stands, stays,
}
use b_link.Tree.Invariant.{
  Page, IsActive, Child, stop, IsKind, IsInternal, IsPage, Inv, low_fence, high_fence,
}
use b_link.Tree.Invariant.Pages.{Page-unique}
use b_link.Tree.Invariant.Frame.{HasSuccessor-begins, IsKind-frame, IsPage-frame}
use b_link.Tree.Invariant.Halves.{Halves}

module _ {K V : Type 0} ⦃o : Ord K⦄ {n : ℕ} {t : Tree K V} {level : Addr → ℕ} (inv : Inv n t level)
    (p : Node K V) (at : Page t t.root p) (active : IsActive p) (separator : K)
    (left right : NodeKind K V)
    (halves : Halves t level n
      (level t.root)
      p.low_key
      p.high_key
      p.kind
      separator
      left
      right) where
  abbrev pub u : Tree K V
  u = grown_tree inv p at active separator left right halves

  abbrev pub levels' : Addr → ℕ
  levels' = levels inv p at active separator left right halves

  abbrev pub lp : Node K V
  lp = lower_page inv p at active separator left right halves

  abbrev pub up : Node K V
  up = upper_page inv p at active separator left right halves

  abbrev pub np : Node K V
  np = new_root inv p at active separator left right halves

  pub root_address : u.root ≡ suc (fresh t)
  root_address = fresh_size inv p at active separator left right halves

  page : IsPage t level n t.root p
  page = inv.page t.root p at

  pub root_level : levels' t.root ≡ level t.root
  root_level =
      old_level inv p at active separator left right halves t.root
        (valid inv p at active separator left right halves)

  pub upper_level : levels' (fresh t) ≡ level t.root
  upper_level = ground arith

  pub top_level : levels' u.root ≡ suc (level t.root)
  top_level = ground (arith, root_address)

  -- The pages under a page of the root's level are below the root.
  part_stays :
      (part : NodeKind K V) (low high : Option K)
      → IsKind t level n (level t.root) low high part
      → (b : Addr) → levels' b ≡ level t.root
      → IsKind u levels' n (levels' b) low high part
  part_stays part low high h b same =
      IsKind-frame n low high (level t.root) (levels' b) part same
        (grows inv p at active separator left right halves)
        (λ node i c is found.
          let (m, above, shape) = rw is at h in
          let child = shape.children i c found in
          stays inv p at active separator left right halves c
            (omega (arith, above, child.on_level)))
        h

  lower-IsPage : IsPage u levels' n t.root lp
  unfolding minimum occupancy
  lower-IsPage = record {
    kind = part_stays left p.low_key (some separator) halves.bond.lower t.root root_level;
    root_role = ground (arith, root_address, valid inv p at active separator left right halves);
    filled = λ act other. halves.lower_filled;
    successor = λ act. record {
      page = up;
      address = fresh t;
      leads = stop;
      at = upper_at inv p at active separator left right halves;
      active = halves.bond.upper_active;
      on_level = upper_level ∙ sym root_level;
      begins = refl;
    };
    below_root = λ act. omega (arith, root_level, top_level);
    predecessor = λ b e.
        omega (arith, page.predecessor b e, grows inv p at active separator left right halves);
  }

  upper-IsPage : IsPage u levels' n (fresh t) up
  unfolding minimum occupancy
  upper-IsPage = record {
    kind = part_stays right (some separator) p.high_key halves.bond.upper (fresh t) upper_level;
    root_role = ground (arith, root_address);
    filled = λ act other. halves.upper_filled;
    successor = λ act. rw upper_level (
        HasSuccessor-begins (level t.root) p.high_key p.right
          (redirects inv p at active separator left right halves)
          (stands inv p at active separator left right halves) (page.successor active));
    below_root = λ act. omega (arith, upper_level, top_level);
    predecessor = λ b e.
        let same : t.root ≡ b = cc in
        omega (
          arith,
          same,
          valid inv p at active separator left right halves,
          grows inv p at active separator left right halves,
        );
  }

  lower-Child : Child u levels' (level t.root) t.root none (some separator)
  lower-Child = record {
    page = lp;
    at = lower_at inv p at active separator left right halves;
    active = halves.bond.lower_active;
    on_level = root_level;
    low_key = root_low;
    high_key = refl;
  }
    where
      root_low : p.low_key ≡ none
      root_low =
          let same : p ≡ inv.root.page = Page-unique t t.root p inv.root.page at inv.root.at in
          ap (λ (x : Node K V). x.low_key) same ∙ inv.root.low_key

  upper-Child : Child u levels' (level t.root) (fresh t) (some separator) none
  upper-Child = record {
    page = up;
    at = upper_at inv p at active separator left right halves;
    active = halves.bond.upper_active;
    on_level = upper_level;
    low_key = refl;
    high_key = root_high;
  }
    where
      root_high : p.high_key ≡ none
      root_high =
          let same : p ≡ inv.root.page = Page-unique t t.root p inv.root.page at inv.root.at in
          ap (λ (x : Node K V). x.high_key) same ∙ inv.root.high_key

  root-IsInternal :
      IsInternal u levels' n
        (level t.root)
        none
        none
        (record { keys = separator ∷ []; children = t.root ∷ fresh t ∷ [] })
  root-IsInternal = record {
    ascends = λ i j a b h q r. absurd (omega (arith, lt_of_get_elem? (separator ∷ []) j b r, h));
    inside = λ i a q. (tt, tt);
    counted = refl;
    children = children;
    bounded = omega (arith, inv.capacity);
  }
    where
      children :
          (i : ℕ) (c : Addr)
          → get_elem? (t.root ∷ fresh t ∷ []) i ≡ some c
          → Child u levels'
              (level t.root)
              c
              (low_fence none (separator ∷ []) i)
              (high_fence none (separator ∷ []) i)
      children zero c h =
          let same : t.root ≡ c = cc in
          subst (λ x. Child u levels' (level t.root) x none (some separator)) same lower-Child
      children (suc zero) c h =
          let same : fresh t ≡ c = cc in
          subst (λ x. Child u levels' (level t.root) x (some separator) none) same upper-Child
      children (suc (suc i)) c h = absurd cc

  pub root-IsPage : IsPage u levels' n u.root np
  unfolding minimum occupancy root_from_split
  root-IsPage = record {
    kind = (level t.root, top_level, root-IsInternal);
    root_role = ground arith;
    filled = λ act other. absurd (other refl);
    successor = λ act. refl;
    below_root = λ act. omega arith;
    predecessor = λ b e. absurd cc;
  }

  old-IsPage : (b : Addr) (q : Node K V) → t.root ≢ b → Page t b q → IsPage u levels' n b q
  old-IsPage b q other was =
      let old = inv.page b q was in
      let inside = lt_of_get_elem? t.pages b q was in
      let same = old_level inv p at active separator left right halves b inside in
      IsPage-frame n old same (grows inv p at active separator left right halves)
        (ground (arith, root_address, inside)) (omega (arith, top_level))
        (λ node i c is found.
          let (m, above, shape) = rw is at old.kind in
          let child = shape.children i c found in
          let act : IsActive q = rw is in
          stays inv p at active separator left right halves c
            (omega (arith, above, child.on_level, old.below_root act)))
        (λ act. rw same (
          HasSuccessor-begins (level b) q.high_key q.right
            (redirects inv p at active separator left right halves)
            (stands inv p at active separator left right halves) (old.successor act)))

  pub all-IsPage : (b : Addr) (q : Node K V) → Page u b q → IsPage u levels' n b q
  all-IsPage b q h = elim (cases inv p at active separator left right halves b q h) [
    | at_root same e ↦
        subst (λ x. IsPage u levels' n b x) (sym e)
          (subst (λ x. IsPage u levels' n x np) same root-IsPage)
    | at_upper same e ↦
        subst (λ x. IsPage u levels' n b x) (sym e)
          (subst (λ x. IsPage u levels' n x up) same upper-IsPage)
    | at_lower same e ↦
        subst (λ x. IsPage u levels' n b x) (sym e)
          (subst (λ x. IsPage u levels' n x lp) same lower-IsPage)
    | elsewhere other was ↦ old-IsPage b q other was
  ]

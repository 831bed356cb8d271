-- ===== src/Tree/Insert/Descent/Ordered.antt =====
-- `insert_attempt` of src/node.rs: the pages of a child's two parts after its split.
use b_link.Prelude.{
  ℕ, ◌≤◌, ◌≡◌, ◌≢◌, refl, sym, ap, ◌∙◌, Option, none, some, arith, length, get_elem?,
  lt_of_get_elem?,
}
use b_link.Ord.{Ord, AtLeast, le_of_lt}
use b_link.Node.{Addr, InternalNode, NodeKind, internal, Node}
use b_link.Tree.{Tree, fresh}
use b_link.Tree.Insert.Descent.{
  Family, lower_page, upper_page, after, levels, parent-IsActive, parent_level, parent-IsInternal,
  child-valid, parent-valid, old_level, fresh-level, size, upper_at, redirects, stands, stays,
}
use b_link.Tree.Invariant.{Page, stop, Owns, Above, IsKind, IsPage, Inv}
use b_link.Tree.Invariant.Parentage.{one_parent, one_place}
use b_link.Tree.Invariant.Frame.{HasSuccessor-begins, IsKind-frame}

module _ {K : Type 0} ⦃o : Ord K⦄ where
  AtLeast-Above : (low : Option K) (k : K) → Above low k → AtLeast low k
  AtLeast-Above none k h = tt
  AtLeast-Above (some low) k h = le_of_lt low k h

module _ {K V : Type 0} ⦃o : Ord K⦄ {n : ℕ} {t : Tree K V} {level : Addr → ℕ} (inv : Inv n t level)
    (f : Family n t level) where
  abbrev u : Tree K V
  u = after inv f

  abbrev heights : Addr → ℕ
  heights = levels inv f

  separator-Owns : Owns f.p f.separator
  separator-Owns = (AtLeast-Above f.p.low_key f.separator f.halves.bond.above, f.halves.bond.below)

  pub index_inside : f.i ≤ length f.node.keys
  index_inside =
      let s = parent-IsInternal inv f in
      omega (arith, lt_of_get_elem? f.node.children f.i f.c f.found, s.counted)

  -- Only the parent has the child among its children, and the child stands there once.
  pub only_parent :
      (b : Addr) (r : Node K V) (other : InternalNode K) (j : ℕ)
      → Page t b r
      → r.kind ≡ internal other
      → get_elem? other.children j ≡ some f.c
      → f.a ≡ b
  only_parent =
      one_parent inv f.c f.p f.at f.separator separator-Owns f.a f.q f.node f.i f.parent_at
        f.is_internal f.found

  pub once : (j : ℕ) → get_elem? f.node.children j ≡ some f.c → j ≡ f.i
  once =
      one_place inv f.c f.p f.at f.separator separator-Owns f.a f.q f.node f.i f.parent_at
        f.is_internal f.found

  child_page : IsPage t level n f.c f.p
  child_page = inv.page f.c f.p f.at

  pub child_height : heights f.c ≡ level f.c
  child_height = old_level inv f f.c (child-valid inv f)

  pub parent_height : heights f.a ≡ level f.a
  parent_height = old_level inv f f.a (parent-valid inv f)

  pub grows : length t.pages ≤ length u.pages
  grows = omega (arith, size inv f)

  -- The pages under the two parts are below the child.
  part_stays :
      (part : NodeKind K V) (low high : Option K)
      → IsKind t level n (level f.c) low high part
      → (b : Addr) → heights b ≡ level f.c
      → IsKind u heights n (heights b) low high part
  part_stays part low high h b same =
      IsKind-frame n low high (level f.c) (heights b) part same grows
        (λ node j d is found.
          let (m, above, s) = rw is at h in
          let child = s.children j d found in
          stays inv f d (λ e.
            let x : level f.c ≡ level d = ap level e in
            absurd (omega (arith, above, child.on_level))))
        h

  pub not_root : f.c ≢ t.root
  not_root e =
      let x : level f.c ≡ level t.root = ap level e in
      absurd (
        omega (
          arith,
          parent_level inv f,
          (inv.page f.a f.q f.parent_at).below_root (parent-IsActive inv f),
        ))

  pub root_height : heights t.root ≡ level t.root
  root_height = old_level inv f t.root (lt_of_get_elem? t.pages t.root inv.root.page inv.root.at)

  pub lower-IsPage : IsPage u heights n f.c (lower_page inv f)
  lower-IsPage = record {
    kind = part_stays f.left f.p.low_key (some f.separator) f.halves.bond.lower f.c child_height;
    root_role = child_page.root_role;
    filled = λ act other. f.halves.lower_filled;
    successor = λ act. record {
      page = upper_page inv f;
      address = fresh t;
      leads = stop;
      at = upper_at inv f;
      active = f.halves.bond.upper_active;
      on_level = fresh-level inv f ∙ sym child_height;
      begins = refl;
    };
    below_root = λ act. omega (arith, child_height, root_height, child_page.below_root f.active);
    predecessor = λ b e. omega (arith, child_page.predecessor b e, grows);
  }

  pub upper-IsPage : IsPage u heights n (fresh t) (upper_page inv f)
  upper-IsPage = record {
    kind =
        part_stays f.right (some f.separator) f.p.high_key f.halves.bond.upper (fresh t)
          (fresh-level inv f);
    root_role = ground (arith, lt_of_get_elem? t.pages t.root inv.root.page inv.root.at);
    filled = λ act other. f.halves.upper_filled;
    successor = λ act. rw (fresh-level inv f) (
        HasSuccessor-begins (level f.c) f.p.high_key f.p.right (redirects inv f) (stands inv f)
          (child_page.successor f.active));
    below_root =
        λ act. omega (arith, fresh-level inv f, root_height, child_page.below_root f.active);
    predecessor = λ b e. let same : f.c ≡ b = cc in omega (arith, same, child-valid inv f, grows);
  }

-- ===== src/Tree/Insert/Descent/Separated.antt =====
-- `insert_attempt` of src/node.rs: the parent and the other pages after the split of a child.
use b_link.Prelude.{
  ℕ, ◌-◌, ◌/◌, ◌≤◌, ◌≡◌, ◌≢◌, refl, sym, ap, ◌∙◌, subst, some, arith, length, get_elem?, set,
  length-insert_idx, lt_of_get_elem?,
}
use b_link.Ord.{Ord, Below}
use b_link.Node.{Addr, Node, occupancy, minimum}
use b_link.Tree.{Tree, fresh}
use b_link.Tree.Insert.Descent.{
  Family, lower_page, upper_page, wider, parent_page, after, levels, parent-IsActive, parent_level,
  parent-IsInternal, child_fences, distinct, old_level, fresh-level, lower_at, upper_at, Cases,
  at_upper, at_parent, at_lower, elsewhere, cases, redirects, stands, stays,
}
use b_link.Tree.Insert.Descent.Ordered.{
  index_inside, only_parent, once, child_height, parent_height, root_height, grows, not_root,
  lower-IsPage, upper-IsPage,
}
use b_link.Tree.Invariant.{
  Page, IsActive, Owns, Above, IsInternal, IsPage, Inv, kind_count, record_count,
}
use b_link.Tree.Invariant.Pages.{store-other, count-set, count-append}
use b_link.Tree.Invariant.Frame.{Child-frame, HasSuccessor-begins, IsPage-frame}
use b_link.Tree.Invariant.Parts.{
  apart, kind_count-parts, kind_count-records, lower-Between, upper-Between,
}
use b_link.Tree.Invariant.Separator.{inserted-IsInternal}

module _ {K V : Type 0} ⦃o : Ord K⦄ {n : ℕ} {t : Tree K V} {level : Addr → ℕ} (inv : Inv n t level)
    (f : Family n t level) where
  abbrev u : Tree K V
  u = after inv f

  abbrev heights : Addr → ℕ
  heights = levels inv f

  q_page : IsPage t level n f.a f.q
  q_page = inv.page f.a f.q f.parent_at

  parent-kind : IsInternal u heights n (level f.c) f.q.low_key f.q.high_key (wider inv f)
  parent-kind =
      let fences = child_fences inv f in
      let s = parent-IsInternal inv f in
      inserted-IsInternal s f.i f.separator (index_inside inv f)
        (subst (λ x. Above x f.separator) fences.0 f.halves.bond.above)
        (subst (λ x. Below x f.separator) fences.1 f.halves.bond.below) f.c (fresh t) f.found f.room
        (record {
          page = lower_page inv f;
          at = lower_at inv f;
          active = f.halves.bond.lower_active;
          on_level = child_height inv f;
          low_key = fences.0;
          high_key = refl;
        })
        (record {
          page = upper_page inv f;
          at = upper_at inv f;
          active = f.halves.bond.upper_active;
          on_level = fresh-level inv f;
          low_key = refl;
          high_key = fences.1;
        })
        (λ j d other at. Child-frame (s.children j d at) (
          stays inv f d (λ e.
            other (once inv f j (subst (λ x. get_elem? f.node.children j ≡ some x) (sym e) at)))))

  parent-IsPage : IsPage u heights n f.a (parent_page inv f)
  unfolding minimum occupancy
  parent-IsPage =
      let is = f.is_internal in
      let filled : f.a ≢ t.root → (n - 1) / 2 ≤ length f.node.keys =
        λ other. rw is at (q_page.filled (parent-IsActive inv f) other) in
      record {
        kind = (level f.c, parent_height inv f ∙ parent_level inv f, parent-kind);
        root_role = q_page.root_role;
        filled =
            λ act other. omega (arith, filled other, length-insert_idx f.node.keys f.i f.separator);
        successor = λ act. rw (parent_height inv f) (
            HasSuccessor-begins (level f.a) f.q.high_key f.q.right (redirects inv f) (stands inv f)
              (q_page.successor (parent-IsActive inv f)));
        below_root = λ act. omega (
          arith,
          parent_height inv f,
          root_height inv f,
          q_page.below_root (parent-IsActive inv f),
        );
        predecessor = λ b e. omega (arith, q_page.predecessor b e, grows inv f);
      }

  old-IsPage : (b : Addr) (r : Node K V) → f.c ≢ b → f.a ≢ b → Page t b r → IsPage u heights n b r
  old-IsPage b r other other' was =
      let old = inv.page b r was in
      let same = old_level inv f b (lt_of_get_elem? t.pages b r was) in
      IsPage-frame n old same (grows inv f) refl (omega (arith, root_height inv f))
        (λ node j d is found. stays inv f d (λ e. other' (
          only_parent inv f b r node j was is
            (subst (λ x. get_elem? node.children j ≡ some x) (sym e) found))))
        (λ act. rw same (
          HasSuccessor-begins (level b) r.high_key r.right (redirects inv f) (stands inv f)
            (old.successor act)))

  all-IsPage : (b : Addr) (r : Node K V) → Page u b r → IsPage u heights n b r
  all-IsPage b r h = elim (cases inv f b r h) [
    | at_upper same e ↦
        subst (λ x. IsPage u heights n b x) (sym e)
          (subst (λ x. IsPage u heights n x (upper_page inv f)) same (upper-IsPage inv f))
    | at_parent same e ↦
        subst (λ x. IsPage u heights n b x) (sym e)
          (subst (λ x. IsPage u heights n x (parent_page inv f)) same parent-IsPage)
    | at_lower same e ↦
        subst (λ x. IsPage u heights n b x) (sym e)
          (subst (λ x. IsPage u heights n x (lower_page inv f)) same (lower-IsPage inv f))
    | elsewhere other other' was ↦ old-IsPage b r other other' was
  ]

  -- The page of the old tree that had the keys of a page.
  record Origin (b : Addr) (k : K) (d : Addr) : Type 0 where
    page : Node K V
    at : Page t d page
    active : IsActive page
    same_level : heights b ≡ level d
    owns : Owns page k

  abbrev source : {b : Addr} {r : Node K V} → Cases inv f b r → Addr
  source {b} (at_upper same e) = f.c
  source {b} (at_parent same e) = f.a
  source {b} (at_lower same e) = f.c
  source {b} (elsewhere other other' was) = b

  origin :
      (b : Addr) (r : Node K V) (k : K) (x : Cases inv f b r)
      → IsActive r
      → Owns r k
      → Origin b k (source x)
  origin b r k (at_upper same e) act own = record {
    page = f.p;
    at = f.at;
    active = f.active;
    same_level = subst (λ x. heights x ≡ level f.c) same (fresh-level inv f);
    owns = upper-Between f.halves.bond k (rw e at own);
  }
  origin b r k (at_parent same e) act own = record {
    page = f.q;
    at = f.parent_at;
    active = parent-IsActive inv f;
    same_level = subst (λ x. heights x ≡ level f.a) same (parent_height inv f);
    owns = rw e at own;
  }
  origin b r k (at_lower same e) act own = record {
    page = f.p;
    at = f.at;
    active = f.active;
    same_level = subst (λ x. heights x ≡ level f.c) same (child_height inv f);
    owns = lower-Between f.halves.bond k (rw e at own);
  }
  origin b r k (elsewhere other other' was) act own = record {
    page = r;
    at = was;
    active = act;
    same_level = old_level inv f b (lt_of_get_elem? t.pages b r was);
    owns = own;
  }

  -- Two pages of a level that share a key come from one page.
  one_source :
      (b b' : Addr) (k : K) {d d' : Addr}
      → Origin b k d
      → Origin b' k d'
      → heights b ≡ heights b'
      → d ≡ d'
  one_source b b' k {d} {d'} x y same =
      inv.disjoint d d' x.page y.page k x.at y.at x.active y.active
        (sym x.same_level ∙ same ∙ y.same_level) x.owns y.owns

  same_page :
      (b b' : Addr) (r r' : Node K V) (k : K) (x : Cases inv f b r) (y : Cases inv f b' r')
      → source x ≡ source y
      → Owns r k
      → Owns r' k
      → b ≡ b'
  same_page b b' r r' k (at_upper same e) (at_upper same' e') one own own' = sym same ∙ same'
  same_page b b' r r' k (at_upper same e) (at_lower same' e') one own own' =
      apart f.separator k (rw e' at own').1 (rw e at own).0
  same_page b b' r r' k (at_upper same e) (at_parent same' e') one own own' =
      absurd (distinct inv f one)
  same_page b b' r r' k (at_upper same e) (elsewhere other other' was) one own own' =
      absurd (other one)
  same_page b b' r r' k (at_lower same e) (at_upper same' e') one own own' =
      apart f.separator k (rw e at own).1 (rw e' at own').0
  same_page b b' r r' k (at_lower same e) (at_lower same' e') one own own' = sym same ∙ same'
  same_page b b' r r' k (at_lower same e) (at_parent same' e') one own own' =
      absurd (distinct inv f one)
  same_page b b' r r' k (at_lower same e) (elsewhere other other' was) one own own' =
      absurd (other one)
  same_page b b' r r' k (at_parent same e) (at_upper same' e') one own own' =
      absurd (distinct inv f (sym one))
  same_page b b' r r' k (at_parent same e) (at_lower same' e') one own own' =
      absurd (distinct inv f (sym one))
  same_page b b' r r' k (at_parent same e) (at_parent same' e') one own own' = sym same ∙ same'
  same_page b b' r r' k (at_parent same e) (elsewhere other other' was) one own own' =
      absurd (other' one)
  same_page b b' r r' k (elsewhere other other' was) (at_upper same e) one own own' =
      absurd (other (sym one))
  same_page b b' r r' k (elsewhere other other' was) (at_lower same e) one own own' =
      absurd (other (sym one))
  same_page b b' r r' k (elsewhere other other' was) (at_parent same e) one own own' =
      absurd (other' (sym one))
  same_page b b' r r' k (elsewhere other other' was) (elsewhere more more' was') one own own' = one

  count : u.len ≡ record_count u.pages
  count =
      let is = ap kind_count f.is_internal in
      let parent_still =
        store-other t f.c (lower_page inv f) f.a f.q (distinct inv f) f.parent_at in
      omega (
        arith,
        inv.counted,
        is,
        kind_count-parts f.halves.bond,
        kind_count-records f.p.kind,
        count-set t.pages f.c f.p (lower_page inv f) f.at,
        count-set (set t.pages f.c (lower_page inv f)) f.a f.q (parent_page inv f) parent_still,
        count-append (set (set t.pages f.c (lower_page inv f)) f.a (parent_page inv f))
            (upper_page inv f),
      )

  -- The split keeps the tree in order.
  pub split-Inv : Inv n u heights
  split-Inv = record {
    capacity = inv.capacity;
    page = all-IsPage;
    disjoint = λ b b' r r' k h h' act act' lev own own'.
        let x = cases inv f b r h in
        let y = cases inv f b' r' h' in
        same_page b b' r r' k x y
          (one_source b b' k (origin b r k x act own) (origin b' r' k y act' own') lev) own own';
    root = record {
      page = (Child-frame inv.root (stays inv f t.root (not_root inv f))).page;
      at = (Child-frame inv.root (stays inv f t.root (not_root inv f))).at;
      active = (Child-frame inv.root (stays inv f t.root (not_root inv f))).active;
      on_level = refl;
      low_key = (Child-frame inv.root (stays inv f t.root (not_root inv f))).low_key;
      high_key = (Child-frame inv.root (stays inv f t.root (not_root inv f))).high_key;
    };
    counted = count;
  }

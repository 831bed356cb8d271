-- ===== src/Tree/Remove/Collapsed.antt =====
-- A round of `shrink_root` of src/node.rs.
use b_link.Prelude.{
  ℕ, suc, ◌≤◌, ◌<◌, ◌≡◌, ◌≢◌, refl, sym, ap, ◌∙◌, subst, inl, inr, Bool, true, false, Option, none,
  some, arith, ◌==◌, Bool-cases, length, set, get_elem?, get_elem?-lt, Run, ok,
}
use b_link.Ord.{Ord}
use b_link.Array.Bounded
use b_link.Node.{Addr, InternalNode, NodeKind, internal, leaf, redirect, Node, minimum}
use b_link.Tree.{Tree}
use b_link.Tree.Remove.{shrink_root, collapse_kind, collapse_into}
use b_link.Tree.Remove.Collapse.{
  below_top, promoted, retired, collapsed, only_child, p-IsActive, p_low, p_high, distinct, size,
  child-valid, promoted_at, at_retired, at_promoted, elsewhere, cases, redirects, stays,
}
use b_link.Tree.Invariant.{
  Page, IsActive, HasSuccessor, Owns, IsKind, IsPage, Inv, record_count, kind_count,
}
use b_link.Tree.Invariant.Pages.{Page-unique, store-other, count-set}
use b_link.Tree.Invariant.Frame.{Stays, Forwards-frame, IsKind-frame, Redirects, Redirects-refl}
use b_link.Tree.Invariant.Contents.{Represents}

module _ {K V : Type 0} ⦃o : Ord K⦄ {n : ℕ} {t : Tree K V} {level : Addr → ℕ} (inv : Inv n t level)
    (node : InternalNode K) (c : Addr) (p : Node K V) (r : Node K V) (root_at : Page t t.root r)
    (is_internal : r.kind ≡ internal node) (empty : length node.keys ≡ 0)
    (found : get_elem? node.children 0 ≡ some c) (at : Page t c p) where
  abbrev u : Tree K V
  u = collapsed inv node c p r root_at is_internal empty found at

  abbrev new : Node K V
  new = promoted inv node c p r root_at is_internal empty found at

  same_size : length u.pages ≡ length t.pages
  same_size = size inv node c p r root_at is_internal empty found at

  one_above : level t.root ≡ suc (level c)
  one_above = (only_child inv node c p r root_at is_internal empty found at).1

  active : IsActive p
  active = p-IsActive inv node c p r root_at is_internal empty found at

  apart : t.root ≢ c
  apart = distinct inv node c p r root_at is_internal empty found at

  -- A right link never led to the root, which has no lower fence.
  successor :
      (l : ℕ) (high : Option K) (right : Option Addr)
      → HasSuccessor t level l high right
      → HasSuccessor u level l high right
  successor l none right h = h
  successor l (some fence) none h = h
  successor l (some fence) (some b) s =
      let other : t.root ≢ s.address = λ e.
        (let root = inv.root in
          let same : root.page ≡ s.page =
            Page-unique t s.address root.page s.page (subst (λ x. Page t x root.page) e root.at)
              s.at in
          let low : none ≡ some fence =
            sym root.low_key ∙ ap (λ (x : Node K V). x.low_key) same ∙ s.begins in
          absurd cc) in
      let k =
        stays inv node c p r root_at is_internal empty found at s.address other s.page s.at
          s.active in
      record {
        page = k.page;
        address = s.address;
        leads =
            Forwards-frame (redirects inv node c p r root_at is_internal empty found at) s.leads;
        at = k.at;
        active = k.active;
        on_level = k.on_level ∙ s.on_level;
        begins = k.low_key ∙ s.begins;
      }

  -- The children of a page that is not above the root stay.
  child-Stays : (l : ℕ) (d : Addr) → level d ≡ l → suc l ≤ level t.root → Stays t u level level d
  child-Stays l d on below =
      stays inv node c p r root_at is_internal empty found at d
        (λ e. let h : level t.root ≡ level d = ap level e in absurd (omega (arith, h, on, below)))

  promoted-IsPage : IsPage u level n c new
  promoted-IsPage =
      let page = inv.page c p at in
      let low = p_low inv node c p r root_at is_internal empty found at in
      let high = p_high inv node c p r root_at is_internal empty found at in
      record {
        kind =
            subst (λ x. IsKind u level n (level c) x none p.kind) low
              (subst (λ x. IsKind u level n (level c) p.low_key x p.kind) high
                (IsKind-frame n p.low_key p.high_key (level c) (level c) p.kind refl
                  (omega (arith, same_size))
                  (λ inner i d is at'.
                    let (m, above, shape) = rw is at page.kind in
                    let child = shape.children i d at' in
                    child-Stays m d child.on_level (omega (arith, above, one_above)))
                  page.kind));
        root_role = ground arith;
        filled = λ act other. absurd (other refl);
        successor = λ act. refl;
        below_root = λ act. omega arith;
        predecessor = λ b e. absurd cc;
      }

  retired-IsPage :
      IsPage u level n t.root (retired inv node c p r root_at is_internal empty found at)
  retired-IsPage = record {
    kind = omega (arith, same_size, child-valid inv node c p r root_at is_internal empty found at);
    root_role = ground (arith, apart);
    filled = λ act other. absurd cc;
    successor = λ act. absurd cc;
    below_root = λ act. absurd cc;
    predecessor = λ b e. absurd cc;
  }

  old-IsPage : (b : Addr) (q : Node K V) → c ≢ b → t.root ≢ b → Page t b q → IsPage u level n b q
  unfolding minimum
  old-IsPage b q other other' was =
      let old = inv.page b q was in
      let low : IsActive q → level b < level t.root =
        λ act. below_top inv b q was act (λ e. other' (sym e)) in
      record {
        kind =
            IsKind-frame n q.low_key q.high_key (level b) (level b) q.kind refl
              (omega (arith, same_size))
              (λ inner i d is at'.
                let (m, above, shape) = rw is at old.kind in
                let child = shape.children i d at' in
                let act : IsActive q = rw is in
                child-Stays m d child.on_level (omega (arith, above, low act)))
              old.kind;
        root_role = old.root_role ∙ ground arith;
        filled = λ act not_root. old.filled act (λ e. other' (sym e));
        successor = λ act. successor (level b) q.high_key q.right (old.successor act);
        below_root = λ act. omega (arith, low act, one_above);
        predecessor = λ d e. omega (arith, old.predecessor d e, same_size);
      }

  all-IsPage : (b : Addr) (q : Node K V) → Page u b q → IsPage u level n b q
  all-IsPage b q h = elim (cases inv node c p r root_at is_internal empty found at b q h) [
    | at_retired same e ↦
        subst (λ x. IsPage u level n b x) (sym e)
          (subst
            (λ x. IsPage u level n x (retired inv node c p r root_at is_internal empty found at))
            same retired-IsPage)
    | at_promoted same e ↦
        subst (λ x. IsPage u level n b x) (sym e)
          (subst (λ x. IsPage u level n x new) same promoted-IsPage)
    | elsewhere other other' was ↦ old-IsPage b q other other' was
  ]

  -- An active page was there before, with at least the keys that it has.
  was_there :
      (b : Addr) (q : Node K V) (k : K)
      → Page u b q
      → IsActive q
      → Owns q k
      → (q' : Node K V) × Page t b q' × IsActive q' × Owns q' k × (q'.kind ≡ q.kind)
  was_there b q k h act owns =
      elim (cases inv node c p r root_at is_internal empty found at b q h) [
        | at_retired same e ↦ absurd (let x = rw e at act in cc)
        | at_promoted same e ↦
            let low = p_low inv node c p r root_at is_internal empty found at in
            let high = p_high inv node c p r root_at is_internal empty found at in
            (
              p,
              subst (λ x. Page t x p) same at,
              active,
              rw (low, high) (tt, tt),
              ap (λ (x : Node K V). x.kind) (sym e),
            )
        | elsewhere other other' was ↦ (q, was, act, owns, refl)
      ]

  count : t.len ≡ record_count u.pages
  count =
      let is = ap kind_count is_internal in
      let still = store-other t c new t.root r (λ e. apart (sym e)) root_at in
      omega (
        arith,
        inv.counted,
        is,
        count-set t.pages c p new at,
        count-set (set t.pages c new) t.root r
            (retired inv node c p r root_at is_internal empty found at) still,
      )

  pub collapsed-Inv : Inv n u level
  collapsed-Inv = record {
    capacity = inv.capacity;
    page = all-IsPage;
    disjoint = λ a b q q' k h h' act act' same own own'.
        let (x, x_at, x_active, x_owns, x_kind) = was_there a q k h act own in
        let (y, y_at, y_active, y_owns, y_kind) = was_there b q' k h' act' own' in
        inv.disjoint a b x y k x_at y_at x_active y_active same x_owns y_owns;
    root = record {
      page = new;
      at = promoted_at inv node c p r root_at is_internal empty found at;
      active = active;
      on_level = refl;
      low_key = refl;
      high_key = refl;
    };
    counted = count;
  }

  pub collapsed-Represents : (m : K → Option V) → Represents t m → Represents u m
  collapsed-Represents m rep b q contents k h is owns =
      let act : IsActive q = rw is in
      let (x, x_at, x_active, x_owns, x_kind) = was_there b q k h act owns in
      rep b x contents k x_at (x_kind ∙ is) x_owns

module _ {K V : Type 0} ⦃o : Ord K⦄ {n : ℕ} {t : Tree K V} {level : Addr → ℕ} (inv : Inv n t level)
    (m : K → Option V) (rep : Represents t m) where
  -- What a round of `shrink_root` leaves: pages at the levels that they had, in order, for the same
  -- map.
  pub record Shrunk (t' : Tree K V) : Type 0 where
    pub ordered : Inv n t' level
    pub stands_for : Represents t' m
    pub same_pages : length t'.pages ≡ length t.pages
    pub keeps : Redirects t t'

  abbrev Shrinks : Run (Tree K V × Bool) → Type 0
  Shrinks run = (t' : Tree K V) × (more : Bool) × (run ≡ ok (t', more)) × Shrunk t'

  unchanged : Shrunk t
  unchanged = record {
    ordered = inv;
    stands_for = rep;
    same_pages = refl;
    keeps = Redirects-refl t;
  }

  empty-Shrinks :
      (r : Node K V) (node : InternalNode K)
      → Page t t.root r
      → r.kind ≡ internal node
      → length node.keys ≡ 0
      → Shrinks (collapse_kind t r (internal node))
  unfolding collapse_kind collapse_into Bounded.index
  empty-Shrinks r node at is empty =
      let (h, above, shape) = rw is at (inv.page t.root r at).kind in
      let (c, found) = get_elem?-lt node.children 0 (omega (arith, shape.counted)) in
      let child = shape.children 0 c found in
      let none_left : length node.keys == 0 ≡ true = ground arith in
      let one : length node.children == 1 ≡ true = ground (arith, shape.counted) in
      (
        collapsed inv node c child.page r at is empty found child.at,
        true,
        rw (none_left, one, found, child.at) refl,
        record {
          ordered = collapsed-Inv inv node c child.page r at is empty found child.at;
          stands_for =
              collapsed-Represents inv node c child.page r at is empty found child.at m rep;
          same_pages = size inv node c child.page r at is empty found child.at;
          keeps = redirects inv node c child.page r at is empty found child.at;
        },
      )

  collapse_kind-Shrinks :
      (r : Node K V) (kind : NodeKind K V)
      → Page t t.root r
      → IsActive r
      → r.kind ≡ kind
      → Shrinks (collapse_kind t r kind)
  unfolding collapse_kind
  collapse_kind-Shrinks r (redirect b) at active is = absurd (let h = rw is at active in cc)
  collapse_kind-Shrinks r (leaf contents) at active is = (t, false, refl, unchanged)
  collapse_kind-Shrinks r (internal node) at active is = elim (Bool-cases (length node.keys == 0)) [
    | inl empty ↦ empty-Shrinks r node at is (ground arith)
    | inr some_left ↦ (t, false, rw some_left refl, unchanged)
  ]

  -- In a tree in order that stands for the map `m`, a round of `shrink_root` returns, and leaves a
  -- tree in order that stands for `m`, with each page at the level that it had.
  pub shrink_root-Shrunk :
      (t' : Tree K V) × (more : Bool) × (shrink_root t ≡ ok (t', more)) × Shrunk t'
  unfolding shrink_root
  shrink_root-Shrunk =
      let root = inv.root in
      let (t', more, run, shrunk) =
        collapse_kind-Shrinks root.page root.page.kind root.at root.active refl in
      (t', more, rw (root.at) run, shrunk)

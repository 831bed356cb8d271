-- ===== src/Tree/Insert/Descent.antt =====
-- `insert_attempt` of src/node.rs: the state after a full child was split under its parent.
pub mod Ordered
pub mod Separated
pub mod Unchanged
use Prim.Native.Nat.Ordering.{lt, eq, gt}
use b_link.Prelude.{
  ℕ, zero, suc, ◌+◌, ◌-◌, ◌/◌, ◌≤◌, ◌<◌, ◌≡◌, ◌≢◌, refl, sym, ap, ◌∙◌, subst, inl, inr, ◌⊎◌, Bool,
  true, false, Option, none, some, List, [], ◌∷◌, ◌++◌, arith, ◌==◌, ltb, if◌then◌else◌, Bool-cases,
  length, length-set, length-append, get_elem?, insert_idx, lt_of_get_elem?,
}
use b_link.Ord.{Ord, ◌≺◌, ◌≼◌, Between, AtLeast, Below}
use b_link.Node.{
  Addr, InternalNode, LeafNode, NodeKind, internal, leaf, redirect, Node, is_redirect, occupancy,
  minimum,
}
use b_link.Tree.{Tree, store, allocate, fresh}
use b_link.Tree.Invariant.{
  Page, IsActive, Child, Forwards, stop, Successor, HasSuccessor, Owns, IsKind, IsInternal, IsPage,
  Inv, low_fence, high_fence,
}
use b_link.Tree.Invariant.Pages.{
  Page-unique, store-new, store-other, store-cases, allocate-new, allocate-old, allocate-cases,
}
use b_link.Tree.Invariant.Frame.{Redirects, Kept, Stays, Begins, Stands}
use b_link.Tree.Invariant.Halves.{Halves}

-- A page `c` that is the child at an index of the internal page `a`, and its two parts.
pub record Family {K V : Type 0} ⦃o : Ord K⦄ (n : ℕ) (t : Tree K V) (level : Addr → ℕ)
    : Type 0 where
  pub a : Addr
  pub q : Node K V
  pub node : InternalNode K
  pub parent_at : Page t a q
  pub is_internal : q.kind ≡ internal node
  pub i : ℕ
  pub c : Addr
  pub found : get_elem? node.children i ≡ some c
  pub p : Node K V
  pub at : Page t c p
  pub active : IsActive p
  pub separator : K
  pub left : NodeKind K V
  pub right : NodeKind K V
  pub halves : Halves t level n (level c) p.low_key p.high_key p.kind separator left right
  pub room : length node.keys < n

module _ {K V : Type 0} ⦃o : Ord K⦄ {n : ℕ} {t : Tree K V} {level : Addr → ℕ} (inv : Inv n t level)
    (f : Family n t level) where
  abbrev pub lower_page : Node K V
  lower_page = record f.p { high_key = some f.separator; right = some (fresh t); kind = f.left }

  abbrev pub upper_page : Node K V
  upper_page = record {
    is_root = false;
    low_key = some f.separator;
    high_key = f.p.high_key;
    previous = some f.c;
    right = f.p.right;
    kind = f.right;
  }

  abbrev pub wider : InternalNode K
  wider = record {
    keys = insert_idx f.node.keys f.i f.separator;
    children = insert_idx f.node.children (f.i + 1) (fresh t);
  }

  abbrev pub parent_page : Node K V
  parent_page = record f.q { kind = internal wider }

  abbrev pub written : Tree K V
  written = store (store t f.c lower_page) f.a parent_page

  abbrev pub after : Tree K V
  after = allocate written upper_page

  abbrev pub levels : Addr → ℕ
  levels x = if x == fresh t then level f.c else level x

  pub parent-IsActive : IsActive f.q
  parent-IsActive = rw (f.is_internal)

  pub shape : (m : ℕ) × (level f.a ≡ suc m) × IsInternal t level n m f.q.low_key f.q.high_key f.node
  shape = rw (f.is_internal) at (inv.page f.a f.q f.parent_at).kind

  -- The parent is one level above the child.
  pub parent_level : level f.a ≡ suc (level f.c)
  parent_level =
      let (m, above, s) = shape in
      let child = s.children f.i f.c f.found in omega (arith, above, child.on_level)

  pub parent-IsInternal : IsInternal t level n (level f.c) f.q.low_key f.q.high_key f.node
  parent-IsInternal =
      let (m, above, s) = shape in
      let child = s.children f.i f.c f.found in
      subst (λ x. IsInternal t level n x f.q.low_key f.q.high_key f.node) (sym child.on_level) s

  -- The child has the fences that its parent gives it.
  pub child_fences :
      (f.p.low_key ≡ low_fence f.q.low_key f.node.keys f.i)
      × (f.p.high_key ≡ high_fence f.q.high_key f.node.keys f.i)
  child_fences =
      let child = parent-IsInternal.children f.i f.c f.found in
      let same : f.p ≡ child.page = Page-unique t f.c f.p child.page f.at child.at in
      (
        ap (λ (x : Node K V). x.low_key) same ∙ child.low_key,
        ap (λ (x : Node K V). x.high_key) same ∙ child.high_key,
      )

  pub distinct : f.c ≢ f.a
  distinct e = let h : level f.c ≡ level f.a = ap level e in absurd (omega (arith, h, parent_level))

  pub child-valid : f.c < fresh t
  child-valid = lt_of_get_elem? t.pages f.c f.p f.at

  pub parent-valid : f.a < fresh t
  parent-valid = lt_of_get_elem? t.pages f.a f.q f.parent_at

  pub old_level : (x : Addr) → x < fresh t → levels x ≡ level x
  old_level x h = ground arith

  pub fresh-level : levels (fresh t) ≡ level f.c
  fresh-level = ground arith

  child_size : length (store t f.c lower_page).pages ≡ fresh t
  child_size = length-set t.pages f.c lower_page

  written_size : fresh written ≡ fresh t
  written_size = length-set (store t f.c lower_page).pages f.a parent_page ∙ child_size

  pub size : length after.pages ≡ suc (fresh t)
  size = omega (arith, length-append written.pages (upper_page ∷ []), written_size)

  pub lower_at : Page after f.c lower_page
  lower_at = allocate-old written upper_page f.c lower_page (
      store-other (store t f.c lower_page) f.a parent_page f.c lower_page (λ e. distinct (sym e))
        (store-new t f.c lower_page child-valid))

  pub parent_after : Page after f.a parent_page
  parent_after =
      allocate-old written upper_page f.a parent_page (
        store-new (store t f.c lower_page) f.a parent_page
          (omega (arith, child_size, parent-valid)))

  pub upper_at : Page after (fresh t) upper_page
  upper_at = subst (λ x. Page after x upper_page) written_size (allocate-new written upper_page)

  pub old_at : (b : Addr) (r : Node K V) → f.c ≢ b → f.a ≢ b → Page t b r → Page after b r
  old_at b r other other' was = allocate-old written upper_page b r (
      store-other (store t f.c lower_page) f.a parent_page b r other'
        (store-other t f.c lower_page b r other was))

  -- A page is one of the three that were written, or an old one.
  pub data Cases (b : Addr) (r : Node K V) : Type 0 where
    at_upper : fresh t ≡ b → r ≡ upper_page → Cases b r
    at_parent : f.a ≡ b → r ≡ parent_page → Cases b r
    at_lower : f.c ≡ b → r ≡ lower_page → Cases b r
    elsewhere : f.c ≢ b → f.a ≢ b → Page t b r → Cases b r

  pub cases : (b : Addr) (r : Node K V) → Page after b r → Cases b r
  cases b r h = elim (allocate-cases written upper_page b r h) [
    | inl (same, e) ↦ at_upper (sym written_size ∙ same) e
    | inr (other, h) ↦
        elim (store-cases (store t f.c lower_page) f.a parent_page b r
          (omega (arith, child_size, parent-valid)) h) [
            | inl (same, e) ↦ at_parent same e
            | inr (other', h) ↦ elim (store-cases t f.c lower_page b r child-valid h) [
              | inl (same, e) ↦ at_lower same e
              | inr (other, was) ↦ elsewhere other other' was
            ]
          ]
  ]

  -- A page of the old tree is the child, the parent, or another.
  pub data Was (b : Addr) (r : Node K V) : Type 0 where
    was_child : f.c ≡ b → f.p ≡ r → Was b r
    was_parent : f.a ≡ b → f.q ≡ r → Was b r
    was_other : f.c ≢ b → f.a ≢ b → Page after b r → Was b r

  pub Was-cases : (b : Addr) (r : Node K V) → Page t b r → Was b r
  Was-cases b r was = elim (Bool-cases (f.c == b)) [
    | inl same ↦
        let here : f.c ≡ b = ground arith in
        was_child here (Page-unique t b f.p r (subst (λ x. Page t x f.p) here f.at) was)
    | inr other ↦ elim (Bool-cases (f.a == b)) [
      | inl same ↦
          let here : f.a ≡ b = ground arith in
          was_parent here (Page-unique t b f.q r (subst (λ x. Page t x f.q) here f.parent_at) was)
      | inr other' ↦
          was_other (ground arith) (ground arith) (old_at b r (ground arith) (ground arith) was)
    ]
  ]

  pub redirects : Redirects t after
  redirects b d r was e = elim (Was-cases b r was) [
    | was_child here same ↦
        let kinds : f.p.kind ≡ redirect d = ap (λ (x : Node K V). x.kind) same ∙ e in
        let act = f.active in absurd (let h = rw kinds at act in cc)
    | was_parent here same ↦
        let kinds : f.q.kind ≡ redirect d = ap (λ (x : Node K V). x.kind) same ∙ e in
        absurd (let h = f.is_internal in cc)
    | was_other other other' now ↦ (r, now, e)
  ]

  pub stands : Stands t after level levels
  stands b r was act =
      let same_level = old_level b (lt_of_get_elem? t.pages b r was) in
      elim (Was-cases b r was) [
        | was_child here same ↦ record {
          page = lower_page;
          at = subst (λ x. Page after x lower_page) here lower_at;
          active = f.halves.bond.lower_active;
          on_level = same_level;
          low_key = ap (λ (x : Node K V). x.low_key) same;
        }
        | was_parent here same ↦ record {
          page = parent_page;
          at = subst (λ x. Page after x parent_page) here parent_after;
          active = refl;
          on_level = same_level;
          low_key = ap (λ (x : Node K V). x.low_key) same;
        }
        | was_other other other' now ↦ record {
          page = r;
          at = now;
          active = act;
          on_level = same_level;
          low_key = refl;
        }
      ]

  -- Every page but the child keeps its fences.
  pub stays : (b : Addr) → f.c ≢ b → Stays t after level levels b
  stays b other r was act =
      let same_level = old_level b (lt_of_get_elem? t.pages b r was) in
      elim (Was-cases b r was) [
        | was_child here same ↦ absurd (other here)
        | was_parent here same ↦ record {
          page = parent_page;
          at = subst (λ x. Page after x parent_page) here parent_after;
          active = refl;
          on_level = same_level;
          low_key = ap (λ (x : Node K V). x.low_key) same;
          high_key = ap (λ (x : Node K V). x.high_key) same;
        }
        | was_other other other' now ↦ record {
          page = r;
          at = now;
          active = act;
          on_level = same_level;
          low_key = refl;
          high_key = refl;
        }
      ]

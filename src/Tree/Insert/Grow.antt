-- ===== src/Tree/Insert/Grow.antt =====
-- `split_root_if_full` of src/node.rs: the state after the full root was split under a new root.
pub mod Grown
pub mod Growth
pub mod Round
use Prim.Native.Nat.Ordering.{lt, eq, gt}
use b_link.Prelude.{
  ℕ, zero, suc, ◌+◌, ◌-◌, ◌/◌, ◌≤◌, ◌<◌, ◌≡◌, ◌≢◌, refl, sym, ap, ◌∙◌, subst, inl, inr, ◌⊎◌, Bool,
  true, false, Option, none, some, List, [], ◌∷◌, ◌++◌, arith, ◌==◌, ltb, if◌then◌else◌, Bool-cases,
  length, length-set, length-append, get_elem?, lt_of_get_elem?, Run, ok,
}
use b_link.Ord.{Ord, ◌≺◌, ◌≼◌, Between, AtLeast, Below}
use b_link.Node.{
  Addr, InternalNode, LeafNode, NodeKind, internal, leaf, redirect, Node, root_from_split,
  is_redirect, occupancy, minimum,
}
use b_link.Records.{lookup}
use b_link.Tree.{Tree, store, allocate, fresh}
use b_link.Tree.Invariant.{
  Page, IsActive, Child, Forwards, stop, Successor, HasSuccessor, Owns, IsKind, IsInternal, IsPage,
  Inv, low_fence, high_fence, kind_count, record_count,
}
use b_link.Tree.Invariant.Pages.{
  Page-unique, store-new, store-other, store-cases, allocate-new, allocate-old, allocate-cases,
  count-set, count-append,
}
use b_link.Tree.Invariant.Frame.{
  Redirects, Kept, Stays, Begins, Stands, HasSuccessor-begins, IsKind-frame, IsPage-frame,
}
use b_link.Tree.Invariant.Halves.{Halves}
use b_link.Tree.Invariant.Bond.{records}
use b_link.Tree.Invariant.Parts.{
  apart, kind_count-parts, lower-Between, upper-Between, lookup-lower, lookup-upper,
}
use b_link.Tree.Invariant.Contents.{Represents}

module _ {K V : Type 0} ⦃o : Ord K⦄ {n : ℕ} {t : Tree K V} {level : Addr → ℕ} (inv : Inv n t level)
    (p : Node K V) (at : Page t t.root p) (active : IsActive p) (separator : K)
    (left right : NodeKind K V)
    (halves : Halves t level n
      (level t.root)
      p.low_key
      p.high_key
      p.kind
      separator
      left
      right) where
  abbrev pub lower_page : Node K V
  lower_page = record p {
    is_root = false;
    high_key = some separator;
    right = some (fresh t);
    kind = left;
  }

  abbrev pub upper_page : Node K V
  upper_page = record {
    is_root = false;
    low_key = some separator;
    high_key = p.high_key;
    previous = some t.root;
    right = p.right;
    kind = right;
  }

  abbrev pub new_root : Node K V
  new_root = root_from_split t.root separator (fresh t)

  abbrev pub halved : Tree K V
  halved = allocate (store t t.root lower_page) upper_page

  abbrev pub grown_tree : Tree K V
  grown_tree = record (allocate halved new_root) { root = fresh halved }

  fresh_size : fresh halved ≡ suc (fresh t)
  fresh_size = omega (
    arith,
    length-append (store t t.root lower_page).pages (upper_page ∷ []),
    length-set t.pages t.root lower_page,
  )

  valid : t.root < fresh t
  valid = lt_of_get_elem? t.pages t.root p at

  abbrev pub levels : Addr → ℕ
  levels c =
      if c == fresh t
      then level t.root
      else if c == suc (fresh t)
      then suc (level t.root)
      else level c

  old_level : (c : Addr) → c < fresh t → levels c ≡ level c
  old_level c h = ground arith

  lower_at : Page grown_tree t.root lower_page
  lower_at = allocate-old halved new_root t.root lower_page (
      allocate-old (store t t.root lower_page) upper_page t.root lower_page
        (store-new t t.root lower_page valid))

  fresh_stored : fresh (store t t.root lower_page) ≡ fresh t
  fresh_stored = length-set t.pages t.root lower_page

  upper_at : Page grown_tree (fresh t) upper_page
  upper_at = allocate-old halved new_root (fresh t) upper_page (
      subst (λ x. Page halved x upper_page) fresh_stored
        (allocate-new (store t t.root lower_page) upper_page))

  root_at : Page grown_tree (fresh halved) new_root
  root_at = allocate-new halved new_root

  old_at : (b : Addr) (q : Node K V) → t.root ≢ b → Page t b q → Page grown_tree b q
  old_at b q other was = allocate-old halved new_root b q (
      allocate-old (store t t.root lower_page) upper_page b q
        (store-other t t.root lower_page b q other was))

  -- A page is one of the three that were written, or an old one.
  data Cases (b : Addr) (q : Node K V) : Type 0 where
    at_root : fresh halved ≡ b → q ≡ new_root → Cases b q
    at_upper : fresh t ≡ b → q ≡ upper_page → Cases b q
    at_lower : t.root ≡ b → q ≡ lower_page → Cases b q
    elsewhere : t.root ≢ b → Page t b q → Cases b q

  cases : (b : Addr) (q : Node K V) → Page grown_tree b q → Cases b q
  cases b q h = elim (allocate-cases halved new_root b q h) [
    | inl (same, e) ↦ at_root same e
    | inr (other, h) ↦ elim (allocate-cases (store t t.root lower_page) upper_page b q h) [
      | inl (same, e) ↦ at_upper (sym fresh_stored ∙ same) e
      | inr (other, h) ↦ elim (store-cases t t.root lower_page b q valid h) [
        | inl (same, e) ↦ at_lower same e
        | inr (other, was) ↦ elsewhere other was
      ]
    ]
  ]

  pub size : length grown_tree.pages ≡ suc (suc (fresh t))
  size = omega (arith, length-append halved.pages (new_root ∷ []), fresh_size)

  grows : length t.pages ≤ length grown_tree.pages
  grows = omega (arith, length-append halved.pages (new_root ∷ []), fresh_size)

  redirects : Redirects t grown_tree
  redirects b c q was e = elim (Bool-cases (t.root == b)) [
    | inl same ↦
        let here : t.root ≡ b = ground arith in
        let one : p ≡ q = Page-unique t b p q (subst (λ x. Page t x p) here at) was in
        let kinds : p.kind ≡ redirect c = ap (λ (x : Node K V). x.kind) one ∙ e in
        absurd (let h = rw kinds at active in cc)
    | inr other ↦ (q, old_at b q (ground arith) was, e)
  ]

  stands : Stands t grown_tree level levels
  stands c q was act = elim (Bool-cases (t.root == c)) [
    | inl same ↦
        let here : t.root ≡ c = ground arith in
        let one : p ≡ q = Page-unique t c p q (subst (λ x. Page t x p) here at) was in
        record {
          page = lower_page;
          at = subst (λ x. Page grown_tree x lower_page) here lower_at;
          active = halves.bond.lower_active;
          on_level = old_level c (lt_of_get_elem? t.pages c q was);
          low_key = ap (λ (x : Node K V). x.low_key) one;
        }
    | inr other ↦ record {
      page = q;
      at = old_at c q (ground arith) was;
      active = act;
      on_level = old_level c (lt_of_get_elem? t.pages c q was);
      low_key = refl;
    }
  ]

  -- A page below the root stays as it was.
  stays : (c : Addr) → level c < level t.root → Stays t grown_tree level levels c
  stays c below q was act =
      let other : t.root ≢ c =
        λ e. (let h : level c ≡ level t.root = ap level (sym e) in absurd (omega (arith, below))) in
      record {
        page = q;
        at = old_at c q other was;
        active = act;
        on_level = old_level c (lt_of_get_elem? t.pages c q was);
        low_key = refl;
        high_key = refl;
      }

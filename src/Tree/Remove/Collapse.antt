-- ===== src/Tree/Remove/Collapse.antt =====
-- `shrink_root` of src/node.rs: the state after the only child of the root took its place.
use b_link.Prelude.{
  ℕ, suc, ◌<◌, ◌≡◌, ◌≢◌, refl, sym, ap, ◌∙◌, subst, inl, inr, true, false, Option, none, some,
  arith, ◌==◌, Bool-cases, length, length-set, get_elem?, get_elem?-lt, get_elem?-ge, All-get_elem?,
  lt_of_get_elem?,
}
use b_link.Ord.{Ord, Between, AtLeast, le_of_lt}
use b_link.Node.{
  Addr, Entry, InternalNode, NodeKind, internal, leaf, redirect, Node, occupancy, minimum,
}
use b_link.Tree.{Tree, store}
use b_link.Tree.Invariant.{Page, IsActive, Child, Owns, Above, Inv}
use b_link.Tree.Invariant.Pages.{Page-unique, store-new, store-other, store-cases}
use b_link.Tree.Invariant.Frame.{Redirects, Stays}

module _ {K : Type 0} ⦃o : Ord K⦄ where
  Above-AtLeast : (low : Option K) (k : K) → Above low k → AtLeast low k
  Above-AtLeast none k h = tt
  Above-AtLeast (some low) k h = le_of_lt low k h

module _ {K V : Type 0} ⦃o : Ord K⦄ {n : ℕ} {t : Tree K V} {level : Addr → ℕ}
    (inv : Inv n t level) where
  pub Owns-kind :
      (a : Addr) (p : Node K V) (kind : NodeKind K V)
      → Page t a p
      → p.kind ≡ kind
      → IsActive p
      → a ≢ t.root
      → (k : K) × Owns p k
  unfolding minimum occupancy
  Owns-kind a p (redirect b) at is active other = absurd (let h = rw is at active in cc)
  Owns-kind a p (leaf contents) at is active other =
      let enough = rw is at ((inv.page a p at).filled active other) in
      let shape = (rw is at (inv.page a p at).kind).1 in
      let (e, first) = get_elem?-lt contents.entries 0 (omega (arith, enough, inv.capacity)) in
      (
        e.key,
        All-get_elem? (λ (x : Entry K V). Between p.low_key p.high_key x.key) contents.entries 0 e
            shape.within first,
      )
  Owns-kind a p (internal node) at is active other =
      let enough = rw is at ((inv.page a p at).filled active other) in
      let (m, above, shape) = rw is at (inv.page a p at).kind in
      let (k, first) = get_elem?-lt node.keys 0 (omega (arith, enough, inv.capacity)) in
      let inside = shape.inside 0 k first in (k, (Above-AtLeast p.low_key k inside.0, inside.1))

  -- Only the root is at the level of the root.
  pub below_top :
      (a : Addr) (p : Node K V) → Page t a p → IsActive p → a ≢ t.root → level a < level t.root
  below_top a p at active other =
      let (k, owns) = Owns-kind a p p.kind at refl active other in
      let root = inv.root in
      let all : Owns root.page k = rw (root.low_key, root.high_key) (tt, tt) in
      elim (Bool-cases (level a == level t.root)) [
        | inl same ↦ absurd (
            other (
              inv.disjoint a t.root p root.page k at root.at active root.active (ground arith) owns
                all))
        | inr lower ↦ ground (arith, (inv.page a p at).below_root active)
      ]

  module _ (node : InternalNode K) (c : Addr) (p : Node K V) (r : Node K V)
      (root_at : Page t t.root r) (is_internal : r.kind ≡ internal node)
      (empty : length node.keys ≡ 0) (found : get_elem? node.children 0 ≡ some c)
      (at : Page t c p) where
    abbrev pub promoted : Node K V
    promoted = record p {
      low_key = none;
      high_key = none;
      previous = none;
      right = none;
      is_root = true;
    }

    abbrev pub retired : Node K V
    retired = record {
      is_root = false;
      kind = redirect c;
      low_key = none;
      high_key = none;
      previous = none;
      right = none;
    }

    abbrev pub collapsed : Tree K V
    collapsed = record (store (store t c promoted) t.root retired) { root = c }

    pub root_same : r ≡ inv.root.page
    root_same = Page-unique t t.root r inv.root.page root_at inv.root.at

    root-IsActive : IsActive r
    root-IsActive = rw is_internal

    -- The only child has no fences either, and is one level below.
    pub only_child : Child t level (level c) c none none × (level t.root ≡ suc (level c))
    only_child =
        let (m, above, shape) = rw is_internal at (inv.page t.root r root_at).kind in
        let child = shape.children 0 c found in
        let low : r.low_key ≡ none =
          ap (λ (x : Node K V). x.low_key) root_same ∙ inv.root.low_key in
        let high : r.high_key ≡ none =
          ap (λ (x : Node K V). x.high_key) root_same ∙ inv.root.high_key in
        let no_key : get_elem? node.keys 0 ≡ none =
          get_elem?-ge node.keys 0 (omega (arith, empty)) in
        (
          record {
            page = child.page;
            at = child.at;
            active = child.active;
            on_level = refl;
            low_key = child.low_key ∙ low;
            high_key = child.high_key ∙ rw (no_key, high) refl;
          },
          omega (arith, above, child.on_level),
        )

    p_same : p ≡ only_child.0.page
    p_same = Page-unique t c p only_child.0.page at only_child.0.at

    pub p-IsActive : IsActive p
    p-IsActive = let act = only_child.0.active in subst IsActive (sym p_same) act

    pub p_low : p.low_key ≡ none
    p_low = ap (λ (x : Node K V). x.low_key) p_same ∙ only_child.0.low_key

    pub p_high : p.high_key ≡ none
    p_high = ap (λ (x : Node K V). x.high_key) p_same ∙ only_child.0.high_key

    pub distinct : t.root ≢ c
    distinct e =
        let h : level t.root ≡ level c = ap level e in absurd (omega (arith, h, only_child.1))

    pub size : length collapsed.pages ≡ length t.pages
    size = length-set (store t c promoted).pages t.root retired ∙ length-set t.pages c promoted

    child_size : length (store t c promoted).pages ≡ length t.pages
    child_size = length-set t.pages c promoted

    pub child-valid : c < length t.pages
    child-valid = lt_of_get_elem? t.pages c p at

    pub root-valid : t.root < length t.pages
    root-valid = lt_of_get_elem? t.pages t.root r root_at

    pub promoted_at : Page collapsed c promoted
    promoted_at =
        store-other (store t c promoted) t.root retired c promoted distinct
          (store-new t c promoted child-valid)

    pub retired_at : Page collapsed t.root retired
    retired_at =
        store-new (store t c promoted) t.root retired (omega (arith, child_size, root-valid))

    old_at : (b : Addr) (q : Node K V) → c ≢ b → t.root ≢ b → Page t b q → Page collapsed b q
    old_at b q other other' was =
        store-other (store t c promoted) t.root retired b q other'
          (store-other t c promoted b q other was)

    pub data Cases (b : Addr) (q : Node K V) : Type 0 where
      at_retired : t.root ≡ b → q ≡ retired → Cases b q
      at_promoted : c ≡ b → q ≡ promoted → Cases b q
      elsewhere : c ≢ b → t.root ≢ b → Page t b q → Cases b q

    pub cases : (b : Addr) (q : Node K V) → Page collapsed b q → Cases b q
    cases b q h =
        elim (store-cases (store t c promoted) t.root retired b q
          (omega (arith, child_size, root-valid)) h) [
            | inl (same, e) ↦ at_retired same e
            | inr (other', h) ↦ elim (store-cases t c promoted b q child-valid h) [
              | inl (same, e) ↦ at_promoted same e
              | inr (other, was) ↦ elsewhere other other' was
            ]
          ]

    pub redirects : Redirects t collapsed
    redirects b d q was e = elim (Bool-cases (c == b)) [
      | inl same ↦
          let here : c ≡ b = ground arith in
          let one : p ≡ q = Page-unique t b p q (subst (λ x. Page t x p) here at) was in
          let kinds : p.kind ≡ redirect d = ap (λ (x : Node K V). x.kind) one ∙ e in
          absurd (let h = rw kinds at p-IsActive in cc)
      | inr other ↦ elim (Bool-cases (t.root == b)) [
        | inl same ↦
            let here : t.root ≡ b = ground arith in
            let one : r ≡ q = Page-unique t b r q (subst (λ x. Page t x r) here root_at) was in
            let kinds : r.kind ≡ redirect d = ap (λ (x : Node K V). x.kind) one ∙ e in
            absurd (let h = rw kinds at root-IsActive in cc)
        | inr other' ↦ (q, old_at b q (ground arith) (ground arith) was, e)
      ]
    ]

    -- Every page but the old root stays.
    pub stays : (b : Addr) → t.root ≢ b → Stays t collapsed level level b
    stays b other' q was act = elim (Bool-cases (c == b)) [
      | inl same ↦
          let here : c ≡ b = ground arith in
          let one : p ≡ q = Page-unique t b p q (subst (λ x. Page t x p) here at) was in
          record {
            page = promoted;
            at = subst (λ x. Page collapsed x promoted) here promoted_at;
            active = p-IsActive;
            on_level = refl;
            low_key = sym p_low ∙ ap (λ (x : Node K V). x.low_key) one;
            high_key = sym p_high ∙ ap (λ (x : Node K V). x.high_key) one;
          }
      | inr other ↦ record {
        page = q;
        at = old_at b q (ground arith) other' was;
        active = act;
        on_level = refl;
        low_key = refl;
        high_key = refl;
      }
    ]

-- ===== src/Tree/Remove/Siblings.antt =====
-- Two neighbouring children of a page of src/node.rs, as `remove_attempt` latches them.
pub mod Written
pub mod Common
pub mod Others
pub mod Separate
use b_link.Prelude.{
  ℕ, zero, suc, ◌+◌, ◌≤◌, ◌<◌, ◌≡◌, ◌≢◌, refl, sym, ap, ◌∙◌, subst, Option, none, some, List, ◌++◌,
  arith, length, get_elem?, get_elem?-lt, lt_of_get_elem?,
}
use b_link.Ord.{Ord, Below}
use b_link.Node.{Addr, Entry, InternalNode, internal, Node}
use b_link.Tree.{Tree}
use b_link.Tree.Invariant.{
  Page, IsActive, Owns, Above, IsKind, IsInternal, Inv, low_fence, high_fence, or_else,
}
use b_link.Tree.Invariant.Bond.{Bond, records}
use b_link.Tree.Invariant.Pages.{Page-unique}
use b_link.Tree.Invariant.Parentage.{one_parent, one_place}
use b_link.Tree.Remove.Collapse.{Owns-kind}

pub record Siblings {K V : Type 0} ⦃o : Ord K⦄ (n : ℕ) (t : Tree K V) (level : Addr → ℕ)
    : Type 0 where
  pub a : Addr
  pub q : Node K V
  pub node : InternalNode K
  pub parent_at : Page t a q
  pub is_internal : q.kind ≡ internal node
  pub i : ℕ
  pub c : Addr
  pub d : Addr
  pub left_child : get_elem? node.children i ≡ some c
  pub right_child : get_elem? node.children (suc i) ≡ some d
  pub p : Node K V
  pub r : Node K V
  pub left_at : Page t c p
  pub right_at : Page t d r
  pub left_active : IsActive p
  pub right_active : IsActive r

module _ {K V : Type 0} ⦃o : Ord K⦄ {t : Tree K V} {level : Addr → ℕ} {n l : ℕ}
    {low high : Option K} {node : InternalNode K} (s : IsInternal t level n l low high node)
    (separator : K) where
  -- A separator is above the lower fence of the child before it, and below the upper fence of the
  -- child after it.
  key_Above :
      (i : ℕ) → get_elem? node.keys i ≡ some separator → Above (low_fence low node.keys i) separator
  key_Above zero at = (s.inside 0 separator at).0
  key_Above (suc j) at =
      let (b, at') =
        get_elem?-lt node.keys j (omega (arith, lt_of_get_elem? node.keys (suc j) separator at)) in
      rw at' (s.ascends j (suc j) b separator (omega arith) at' at)

  key_Below :
      (i : ℕ)
      → get_elem? node.keys i ≡ some separator
      → (bound : Option K) → get_elem? node.keys (suc i) ≡ bound
      → Below (or_else bound high) separator
  key_Below i at none e = (s.inside i separator at).1
  key_Below i at (some b) e = s.ascends i (suc i) separator b (omega arith) at e

module _ {K V : Type 0} ⦃o : Ord K⦄ {n : ℕ} {t : Tree K V} {level : Addr → ℕ} (inv : Inv n t level)
    (f : Siblings n t level) where
  pub parent-IsActive : IsActive f.q
  parent-IsActive = rw (f.is_internal)

  shape : (m : ℕ) × (level f.a ≡ suc m) × IsInternal t level n m f.q.low_key f.q.high_key f.node
  shape = rw (f.is_internal) at (inv.page f.a f.q f.parent_at).kind

  pub parent_level : level f.a ≡ suc (level f.c)
  parent_level =
      let (m, above, s) = shape in omega (arith, above, (s.children f.i f.c f.left_child).on_level)

  -- Siblings are at one level.
  pub right_level : level f.d ≡ level f.c
  right_level =
      let (m, above, s) = shape in
      omega (
        arith,
        (s.children f.i f.c f.left_child).on_level,
        (s.children (suc f.i) f.d f.right_child).on_level,
      )

  pub parent-IsInternal : IsInternal t level n (level f.c) f.q.low_key f.q.high_key f.node
  parent-IsInternal =
      let (m, above, s) = shape in
      let same = (s.children f.i f.c f.left_child).on_level in
      subst (λ x. IsInternal t level n x f.q.low_key f.q.high_key f.node) (sym same) s

  pub inside : f.i < length f.node.keys
  inside = omega (
    arith,
    lt_of_get_elem? f.node.children (suc f.i) f.d f.right_child,
    parent-IsInternal.counted,
  )

  abbrev pub separator : K
  separator = (get_elem?-lt f.node.keys f.i inside).0

  pub separator_at : get_elem? f.node.keys f.i ≡ some separator
  separator_at = (get_elem?-lt f.node.keys f.i inside).1

  -- The separator is the fence between the siblings.
  pub left_fences :
      (f.p.low_key ≡ low_fence f.q.low_key f.node.keys f.i) × (f.p.high_key ≡ some separator)
  left_fences =
      let child = parent-IsInternal.children f.i f.c f.left_child in
      let same : f.p ≡ child.page = Page-unique t f.c f.p child.page f.left_at child.at in
      (
        ap (λ (x : Node K V). x.low_key) same ∙ child.low_key,
        ap (λ (x : Node K V). x.high_key) same
            ∙ child.high_key
            ∙ ap (λ (x : Option K). or_else x f.q.high_key) separator_at,
      )

  pub right_fences :
      (f.r.low_key ≡ some separator)
      × (f.r.high_key ≡ high_fence f.q.high_key f.node.keys (suc f.i))
  right_fences =
      let child = parent-IsInternal.children (suc f.i) f.d f.right_child in
      let same : f.r ≡ child.page = Page-unique t f.d f.r child.page f.right_at child.at in
      (
        ap (λ (x : Node K V). x.low_key) same ∙ child.low_key ∙ separator_at,
        ap (λ (x : Node K V). x.high_key) same ∙ child.high_key,
      )

  abbrev pub all_records : List (Entry K V)
  all_records = records f.p.kind ++ records f.r.kind

  pub siblings-Bond :
      Bond t level n (level f.c) f.p.low_key f.r.high_key all_records separator f.p.kind f.r.kind
  siblings-Bond = record {
    lower =
        subst (λ x. IsKind t level n (level f.c) f.p.low_key x f.p.kind) left_fences.1
          (inv.page f.c f.p f.left_at).kind;
    upper =
        subst (λ x. IsKind t level n (level f.c) x f.r.high_key f.r.kind) right_fences.0
          (subst (λ l. IsKind t level n l f.r.low_key f.r.high_key f.r.kind) right_level
            (inv.page f.d f.r f.right_at).kind);
    above =
        subst (λ x. Above x separator) (sym left_fences.0)
          (key_Above parent-IsInternal separator f.i separator_at);
    below =
        subst (λ x. Below x separator) (sym right_fences.1)
          (key_Below parent-IsInternal separator f.i separator_at (get_elem? f.node.keys (suc f.i))
            refl);
    lower_active = f.left_active;
    upper_active = f.right_active;
    kept = refl;
  }

  pub not_root : (b : Addr) → level b ≡ level f.c → b ≢ t.root
  not_root b same e =
      let h : level b ≡ level t.root = ap level e in
      absurd
        (omega (arith, h, parent_level, (inv.page f.a f.q f.parent_at).below_root parent-IsActive))

  pub not_parent : (b : Addr) → level b ≡ level f.c → b ≢ f.a
  not_parent b same e =
      let h : level b ≡ level f.a = ap level e in absurd (omega (arith, h, parent_level))

  left_key : (k : K) × Owns f.p k
  left_key = Owns-kind inv f.c f.p f.p.kind f.left_at refl f.left_active (not_root f.c refl)

  right_key : (k : K) × Owns f.r k
  right_key =
      Owns-kind inv f.d f.r f.r.kind f.right_at refl f.right_active (not_root f.d right_level)

  -- Each of the two stands once among the children of its parent, and of no other page.
  pub left_parent :
      (b : Addr) (x : Node K V) (other : InternalNode K) (j : ℕ)
      → Page t b x
      → x.kind ≡ internal other
      → get_elem? other.children j ≡ some f.c
      → f.a ≡ b
  left_parent =
      one_parent inv f.c f.p f.left_at left_key.0 left_key.1 f.a f.q f.node f.i f.parent_at
        f.is_internal f.left_child

  pub right_parent :
      (b : Addr) (x : Node K V) (other : InternalNode K) (j : ℕ)
      → Page t b x
      → x.kind ≡ internal other
      → get_elem? other.children j ≡ some f.d
      → f.a ≡ b
  right_parent =
      one_parent inv f.d f.r f.right_at right_key.0 right_key.1 f.a f.q f.node (suc f.i) f.parent_at
        f.is_internal f.right_child

  pub left_once : (j : ℕ) → get_elem? f.node.children j ≡ some f.c → j ≡ f.i
  left_once =
      one_place inv f.c f.p f.left_at left_key.0 left_key.1 f.a f.q f.node f.i f.parent_at
        f.is_internal f.left_child

  pub right_once : (j : ℕ) → get_elem? f.node.children j ≡ some f.d → j ≡ suc f.i
  right_once =
      one_place inv f.d f.r f.right_at right_key.0 right_key.1 f.a f.q f.node (suc f.i) f.parent_at
        f.is_internal f.right_child

  pub distinct : f.c ≢ f.d
  distinct e = absurd (omega (arith, right_once f.i (f.left_child ∙ ap (λ (x : Addr). some x) e)))

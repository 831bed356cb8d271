-- ===== src/Tree/Invariant/Frame.antt =====
-- What a page keeps when a critical section changes other pages.
use b_link.Prelude.{
  ℕ, ◌≤◌, ◌≡◌, refl, sym, ◌∙◌, subst, Option, none, some, arith, ◌==◌, length, get_elem?,
}
use b_link.Ord.{Ord}
use b_link.Node.{Addr, InternalNode, NodeKind, internal, leaf, redirect, Node}
use b_link.Tree.{Tree}
use b_link.Tree.Invariant.{
  Page, IsActive, Child, Forwards, stop, step, Successor, HasSuccessor, IsKind, IsPage, IsInternal,
  Inv, record_count,
}

module _ {K V : Type 0} (t t' : Tree K V) where
  -- A forwarding page stays one, with its target.
  abbrev pub Redirects : Type 0
  Redirects =
      (a b : Addr) (p : Node K V)
      → Page t a p
      → p.kind ≡ redirect b
      → (p' : Node K V) × Page t' a p' × (p'.kind ≡ redirect b)

module _ {K V : Type 0} where
  pub Redirects-refl : (t : Tree K V) → Redirects t t
  Redirects-refl t a b p at e = (p, at, e)

  pub Redirects-trans : (t u v : Tree K V) → Redirects t u → Redirects u v → Redirects t v
  Redirects-trans t u v first second a b p at e =
      let (p', at', e') = first a b p at e in second a b p' at' e'

module _ {K V : Type 0} (t t' : Tree K V) (level level' : Addr → ℕ) where
  -- The page stays active, at its level and between its fences.
  pub record Kept (p : Node K V) (c : Addr) : Type 0 where
    pub page : Node K V
    pub at : Page t' c page
    pub active : IsActive page
    pub on_level : level' c ≡ level c
    pub low_key : page.low_key ≡ p.low_key
    pub high_key : page.high_key ≡ p.high_key

  abbrev pub Stays : Addr → Type 0
  Stays c = (p : Node K V) → Page t c p → IsActive p → Kept p c

module _ {K V : Type 0} {t t' : Tree K V} where
  pub Forwards-frame : {a b : Addr} → Redirects t t' → Forwards t a b → Forwards t' a b
  Forwards-frame redirects stop = stop
  Forwards-frame redirects (step {a} {b} p at e rest) =
      let (p', at', e') = redirects a b p at e in step p' at' e' (Forwards-frame redirects rest)

module _ {K V : Type 0} {t t' : Tree K V} {level level' : Addr → ℕ} where
  pub Child-frame :
      {l : ℕ} {c : Addr} {low high : Option K}
      → Child t level l c low high
      → Stays t t' level level' c
      → Child t' level' l c low high
  Child-frame child stays =
      let k = stays child.page child.at child.active in
      record {
        page = k.page;
        at = k.at;
        active = k.active;
        on_level = k.on_level ∙ child.on_level;
        low_key = k.low_key ∙ child.low_key;
        high_key = k.high_key ∙ child.high_key;
      }

  pub Successor-frame :
      {l : ℕ} {r : Addr} {fence : K}
      → Redirects t t'
      → ((c : Addr) → Stays t t' level level' c)
      → Successor t level l r fence
      → Successor t' level' l r fence
  Successor-frame redirects stays s =
      let k = stays s.address s.page s.at s.active in
      record {
        page = k.page;
        address = s.address;
        leads = Forwards-frame redirects s.leads;
        at = k.at;
        active = k.active;
        on_level = k.on_level ∙ s.on_level;
        begins = k.low_key ∙ s.begins;
      }

  pub HasSuccessor-frame :
      (l : ℕ) (high : Option K) (right : Option Addr)
      → Redirects t t'
      → ((c : Addr) → Stays t t' level level' c)
      → HasSuccessor t level l high right
      → HasSuccessor t' level' l high right
  HasSuccessor-frame l none right redirects stays h = h
  HasSuccessor-frame l (some fence) none redirects stays h = h
  HasSuccessor-frame l (some fence) (some r) redirects stays h = Successor-frame redirects stays h

module _ {K V : Type 0} (t t' : Tree K V) (level level' : Addr → ℕ) where
  -- A page that begins where it did, at its level: enough to be led to.
  pub record Begins (p : Node K V) (c : Addr) : Type 0 where
    pub page : Node K V
    pub at : Page t' c page
    pub active : IsActive page
    pub on_level : level' c ≡ level c
    pub low_key : page.low_key ≡ p.low_key

  abbrev pub Stands : Type 0
  Stands = (c : Addr) (p : Node K V) → Page t c p → IsActive p → Begins p c

module _ {K V : Type 0} {t t' : Tree K V} {level level' : Addr → ℕ} where
  pub HasSuccessor-begins :
      (l : ℕ) (high : Option K) (right : Option Addr)
      → Redirects t t'
      → Stands t t' level level'
      → HasSuccessor t level l high right
      → HasSuccessor t' level' l high right
  HasSuccessor-begins l none right redirects stands h = h
  HasSuccessor-begins l (some fence) none redirects stands h = h
  HasSuccessor-begins l (some fence) (some r) redirects stands s =
      let k = stands s.address s.page s.at s.active in
      record {
        page = k.page;
        address = s.address;
        leads = Forwards-frame redirects s.leads;
        at = k.at;
        active = k.active;
        on_level = k.on_level ∙ s.on_level;
        begins = k.low_key ∙ s.begins;
      }

module _ {K V : Type 0} ⦃o : Ord K⦄ (n : ℕ) {t t' : Tree K V} {level level' : Addr → ℕ} where
  pub IsInternal-frame :
      {l : ℕ} {low high : Option K} {node : InternalNode K}
      → IsInternal t level n l low high node
      → ((i : ℕ) (c : Addr) → get_elem? node.children i ≡ some c → Stays t t' level level' c)
      → IsInternal t' level' n l low high node
  IsInternal-frame shape stays = record {
    ascends = shape.ascends;
    inside = shape.inside;
    counted = shape.counted;
    children = λ i c at. Child-frame (shape.children i c at) (stays i c at);
    bounded = shape.bounded;
  }

  pub IsKind-frame :
      (low high : Option K) (l l' : ℕ) (kind : NodeKind K V)
      → l' ≡ l
      → length t.pages ≤ length t'.pages
      → ((node : InternalNode K) (i : ℕ) (c : Addr)
          → kind ≡ internal node
          → get_elem? node.children i ≡ some c
          → Stays t t' level level' c)
      → IsKind t level n l low high kind
      → IsKind t' level' n l' low high kind
  IsKind-frame low high l l' (leaf contents) same grows stays h = (same ∙ h.0, h.1)
  IsKind-frame low high l l' (internal node) same grows stays (m, above, shape) =
      (m, same ∙ above, IsInternal-frame shape (λ i c. stays node i c refl))
  IsKind-frame low high l l' (redirect target) same grows stays h = omega arith

  -- A page that is not written keeps its invariant, if its children stay and it has a successor.
  pub IsPage-frame :
      {a : Addr} {p : Node K V}
      → IsPage t level n a p
      → level' a ≡ level a
      → length t.pages ≤ length t'.pages
      → (a == t'.root) ≡ (a == t.root)
      → level t.root ≤ level' t'.root
      → ((node : InternalNode K) (i : ℕ) (c : Addr)
          → p.kind ≡ internal node
          → get_elem? node.children i ≡ some c
          → Stays t t' level level' c)
      → (IsActive p → HasSuccessor t' level' (level' a) p.high_key p.right)
      → IsPage t' level' n a p
  IsPage-frame {a} {p} page same grows role higher stays successor = record {
    kind = IsKind-frame p.low_key p.high_key (level a) (level' a) p.kind same grows stays page.kind;
    root_role = page.root_role ∙ sym role;
    filled = λ active other. page.filled active (λ e. other (ground arith));
    successor = successor;
    below_root = λ active. omega (arith, page.below_root active);
    predecessor = λ b e. omega (arith, page.predecessor b e);
  }

  -- The invariant carries over when every active page stays at its level and between its fences,
  -- no page becomes active, and the root is the same.
  pub Inv-frame :
      Inv n t level
      → ((c : Addr) → Stays t t' level level' c)
      → ((c : Addr) (p' : Node K V)
          → Page t' c p'
          → IsActive p'
          → (p : Node K V) × Page t c p
            × IsActive p
            × (level' c ≡ level c)
            × (p'.low_key ≡ p.low_key)
            × (p'.high_key ≡ p.high_key))
      → t'.root ≡ t.root
      → ((a : Addr) (p' : Node K V) → Page t' a p' → IsPage t' level' n a p')
      → t'.len ≡ record_count t'.pages
      → Inv n t' level'
  Inv-frame inv stays back same pages counted = record {
    capacity = inv.capacity;
    page = pages;
    disjoint = λ a b p' q' k at at' act act' lev own own'.
        let (p, was, wact, wlev, wlow, whigh) = back a p' at act in
        let (q, was', wact', wlev', wlow', whigh') = back b q' at' act' in
        inv.disjoint a b p q k was was' wact wact' (sym wlev ∙ lev ∙ wlev')
          (rw (← wlow, ← whigh) own) (rw (← wlow', ← whigh') own');
    root =
        let k = stays t.root inv.root.page inv.root.at inv.root.active in
        subst (λ r. Child t' level' (level' r) r none none) (sym same)
          (record {
            page = k.page;
            at = k.at;
            active = k.active;
            on_level = refl;
            low_key = k.low_key ∙ inv.root.low_key;
            high_key = k.high_key ∙ inv.root.high_key;
          });
    counted = counted;
  }

-- ===== src/Tree/Remove/Siblings/Others.antt =====
-- `remove_attempt` of src/node.rs: the pages other than the two siblings after they are written,
-- whether the one lends the other a record or is merged into it.
use b_link.Prelude.{
  ℕ, suc, ◌≤◌, ◌≡◌, ◌≢◌, refl, sym, ap, ◌∙◌, subst, Option, none, some, arith, length, get_elem?,
}
use b_link.Ord.{Ord}
use b_link.Node.{Addr, InternalNode, NodeKind, internal, redirect, Node}
use b_link.Tree.{Tree}
use b_link.Tree.Invariant.{Page, IsActive, Forwards, Successor, HasSuccessor, IsKind, IsPage, Inv}
use b_link.Tree.Invariant.Frame.{Redirects, Stays, Forwards-frame, IsKind-frame, IsPage-frame}
use b_link.Tree.Remove.Siblings.{
  Siblings, parent-IsActive, right_level, left_fences, right_fences, not_parent, left_parent,
  right_parent, left_once, right_once,
}
use b_link.Tree.Remove.Siblings.Common.{same_high}
use b_link.Tree.Remove.Siblings.Written.{
  written, size, was_left, was_right, was_parent, was_other, Was-cases, parent_now,
}

module _ {K V : Type 0} ⦃o : Ord K⦄ {n : ℕ} {t : Tree K V} {level : Addr → ℕ} (inv : Inv n t level)
    (f : Siblings n t level) (left right parent : Node K V)
    (low_same : parent.low_key ≡ f.q.low_key) (high_same : parent.high_key ≡ f.q.high_key)
    (active : IsActive parent) where
  abbrev u : Tree K V
  u = written inv f left right parent

  pub grows : length t.pages ≤ length u.pages
  grows = omega (arith, size inv f left right parent)

  active_kind :
      (x y : Node K V) (e : Addr) → IsActive x → x ≡ y → y.kind ≡ redirect e → {A : Type 0} → A
  active_kind x y e act same is =
      let kinds : x.kind ≡ redirect e = ap (λ (z : Node K V). z.kind) same ∙ is in
      absurd (let h = rw kinds at act in cc)

  pub redirects : Redirects t u
  redirects b e x was is = elim (Was-cases inv f left right parent b x was) [
    | was_left here same ↦ active_kind f.p x e f.left_active same is
    | was_right here same ↦ active_kind f.r x e f.right_active same is
    | was_parent here same ↦ active_kind f.q x e (parent-IsActive inv f) same is
    | was_other hc hd ha now ↦ (x, now, is)
  ]

  -- Every page but the two siblings keeps its fences.
  pub stays : (b : Addr) → f.c ≢ b → f.d ≢ b → Stays t u level level b
  stays b hc hd x was act = elim (Was-cases inv f left right parent b x was) [
    | was_left here same ↦ absurd (hc here)
    | was_right here same ↦ absurd (hd here)
    | was_parent here same ↦ record {
      page = parent;
      at = subst (λ y. Page u y parent) here (parent_now inv f left right parent);
      active = active;
      on_level = refl;
      low_key = low_same ∙ ap (λ (y : Node K V). y.low_key) same;
      high_key = high_same ∙ ap (λ (y : Node K V). y.high_key) same;
    }
    | was_other hc' hd' ha now ↦ record {
      page = x;
      at = now;
      active = act;
      on_level = refl;
      low_key = refl;
      high_key = refl;
    }
  ]

  other_children :
      (b : Addr) (x : Node K V)
      → Page t b x
      → f.a ≢ b
      → (node : InternalNode K) (j : ℕ) (e : Addr) → x.kind ≡ internal node
      → get_elem? node.children j ≡ some e
      → Stays t u level level e
  other_children b x was ha node j e is found =
      let at : (y : Addr) → y ≡ e → get_elem? node.children j ≡ some y =
        λ y same. found ∙ ap (λ (z : Addr). some z) (sym same) in
      stays e (λ same. ha (left_parent inv f b x node j was is (at f.c same)))
        (λ same. ha (right_parent inv f b x node j was is (at f.d same)))

  pub own_children :
      (j : ℕ) (e : Addr)
      → j ≢ f.i
      → j ≢ suc f.i
      → get_elem? f.node.children j ≡ some e
      → Stays t u level level e
  own_children j e hi hj found =
      let at : (y : Addr) → y ≡ e → get_elem? f.node.children j ≡ some y =
        λ y same. found ∙ ap (λ (z : Addr). some z) (sym same) in
      stays e (λ same. hi (left_once inv f j (at f.c same)))
        (λ same. hj (right_once inv f j (at f.d same)))

  -- What the siblings have below them stays.
  pub part_stays :
      (part : NodeKind K V) (low high : Option K)
      → IsKind t level n (level f.c) low high part
      → (b : Addr) → level b ≡ level f.c
      → IsKind u level n (level b) low high part
  part_stays part low high h b same =
      IsKind-frame n low high (level f.c) (level b) part same grows
        (λ node j e is found.
          let (m, above, s) = rw is at h in
          let below = (s.children j e found).on_level in
          let apart : (y : Addr) → level y ≡ level f.c → y ≢ e = λ y lev one.
            (let x : level y ≡ level e = ap level one in
              absurd (omega (arith, above, below, x, lev))) in
          stays e (apart f.c refl) (apart f.d (right_level inv f)))
        h

  module _
      (from_left : (r : Addr) (fence : K)
        → Forwards t r f.c
        → f.p.low_key ≡ some fence
        → Successor u level (level f.c) r fence) where
    -- A link that leads to the left sibling still leads to a page that begins there; no link but
    -- that of the left sibling leads to the right one.
    successor_from :
        (l : ℕ) (high : Option K) (link : Option Addr)
        → (l ≡ level f.c → high ≡ f.p.high_key → ⊥)
        → HasSuccessor t level l high link
        → HasSuccessor u level l high link
    successor_from l none link other h = h
    successor_from l (some fence) none other h = h
    successor_from l (some fence) (some y) other s =
        elim (Was-cases inv f left right parent s.address s.page s.at) [
          | was_left here same ↦
              let height : level f.c ≡ l = ap level here ∙ s.on_level in
              subst (λ x. Successor u level x y fence) height
                (from_left y fence (subst (λ x. Forwards t y x) (sym here) s.leads)
                  (ap (λ (x : Node K V). x.low_key) same ∙ s.begins))
          | was_right here same ↦ absurd (
              other (sym s.on_level ∙ ap level (sym here) ∙ right_level inv f) (
                sym s.begins
                ∙ sym (ap (λ (x : Node K V). x.low_key) same)
                ∙ (right_fences inv f).0
                ∙ sym (left_fences inv f).1))
          | was_parent here same ↦
              let k =
                stays s.address (λ e. not_parent inv f f.c refl (e ∙ sym here))
                  (λ e. not_parent inv f f.d (right_level inv f) (e ∙ sym here)) s.page s.at
                  s.active in
              record {
                page = k.page;
                address = s.address;
                leads = Forwards-frame redirects s.leads;
                at = k.at;
                active = k.active;
                on_level = s.on_level;
                begins = k.low_key ∙ s.begins;
              }
          | was_other hc hd ha now ↦ record {
            page = s.page;
            address = s.address;
            leads = Forwards-frame redirects s.leads;
            at = now;
            active = s.active;
            on_level = s.on_level;
            begins = s.begins;
          }
        ]

    pub successor_other :
        (b : Addr) (x : Node K V)
        → Page t b x
        → IsActive x
        → f.c ≢ b
        → HasSuccessor u level (level b) x.high_key x.right
    successor_other b x was act hc =
        successor_from (level b) x.high_key x.right
          (λ lev same.
            hc (same_high inv f f.c b f.p x f.left_at was f.left_active act refl lev (sym same)))
          ((inv.page b x was).successor act)

    pub old-IsPage :
        (b : Addr) (x : Node K V) → f.c ≢ b → f.a ≢ b → Page t b x → IsPage u level n b x
    old-IsPage b x hc ha was =
        IsPage-frame n (inv.page b x was) refl grows refl (omega arith) (other_children b x was ha)
          (λ act. successor_other b x was act hc)

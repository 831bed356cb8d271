-- ===== src/Tree/Remove/Siblings/Separate.antt =====
-- `remove_attempt` of src/node.rs: no key belongs to two pages of a level after two siblings are
-- written, and the number of records.
use b_link.Prelude.{ℕ, ◌+◌, ◌≡◌, ◌≢◌, sym, ap, ◌∙◌, inl, inr, arith}
use b_link.Ord.{Ord, Between}
use b_link.Node.{Addr, Node}
use b_link.Tree.{Tree}
use b_link.Tree.Invariant.{Page, IsActive, Owns, Inv, kind_count, record_count}
use b_link.Tree.Invariant.Pages.{store-other, count-set}
use b_link.Tree.Remove.Siblings.{Siblings, right_level, not_parent, distinct}
use b_link.Tree.Remove.Siblings.Common.{pair_owner}
use b_link.Tree.Remove.Siblings.Written.{written, first, second}

module _ {K V : Type 0} ⦃o : Ord K⦄ {n : ℕ} {t : Tree K V} {level : Addr → ℕ} (inv : Inv n t level)
    (f : Siblings n t level) where
  module _ (Side : Addr → K → Type 0) where
    -- Who owned the key of a page before: the page itself, or one of the two siblings.
    pub data Place (b : Addr) (k : K) : Type 0 where
      alone : (x : Node K V) → Page t b x → IsActive x → Owns x k → f.c ≢ b → f.d ≢ b → Place b k
      beside : level b ≡ level f.c → Between f.p.low_key f.r.high_key k → Side b k → Place b k

    outsider :
        {A : Type 0} (b : Addr) (x : Node K V) (k : K)
        → Page t b x
        → IsActive x
        → Owns x k
        → f.c ≢ b
        → f.d ≢ b
        → level b ≡ level f.c
        → Between f.p.low_key f.r.high_key k
        → A
    outsider b x k at act owns hc hd lev between = elim (pair_owner inv f k between) [
      | inl mine ↦
          absurd
            (hc (inv.disjoint f.c b f.p x k f.left_at at f.left_active act (sym lev) mine owns))
      | inr mine ↦ absurd (
          hd (
            inv.disjoint f.d b f.r x k f.right_at at f.right_active act
              (right_level inv f ∙ sym lev) mine owns))
    ]

    pub Place-unique :
        ((b b' : Addr) (k : K) → Side b k → Side b' k → b ≡ b')
        → (b b' : Addr) (k : K) → Place b k
        → Place b' k
        → level b ≡ level b'
        → b ≡ b'
    Place-unique sides b b' k (alone x at act owns hc hd) (alone y at' act' owns' hc' hd') lev =
        inv.disjoint b b' x y k at at' act act' lev owns owns'
    Place-unique sides b b' k (alone x at act owns hc hd) (beside lev' between side) lev =
        outsider b x k at act owns hc hd (lev ∙ lev') between
    Place-unique sides b b' k (beside lev' between side) (alone x at act owns hc hd) lev =
        outsider b' x k at act owns hc hd (sym lev ∙ lev') between
    Place-unique sides b b' k (beside lev' between side) (beside lev'' between' side') lev =
        sides b b' k side side'

  pub written_count :
      (left right parent : Node K V)
      → kind_count parent.kind ≡ 0
      → record_count (written inv f left right parent).pages
          + (kind_count f.p.kind + kind_count f.r.kind)
        ≡ record_count t.pages + (kind_count left.kind + kind_count right.kind)
  written_count left right parent none_there =
      let one = first inv f left right parent in
      let two = second inv f left right parent in
      let still : Page one f.d f.r = store-other t f.c left f.d f.r (distinct inv f) f.right_at in
      let parent_still : Page two f.a f.q =
        store-other one f.d right f.a f.q (not_parent inv f f.d (right_level inv f))
          (store-other t f.c left f.a f.q (not_parent inv f f.c (λ i. level f.c)) f.parent_at) in
      omega (
        arith,
        ap kind_count f.is_internal,
        none_there,
        count-set t.pages f.c f.p left f.left_at,
        count-set one.pages f.d f.r right still,
        count-set two.pages f.a f.q parent parent_still,
      )

-- ===== src/Tree/Remove/Lent.antt =====
-- `remove_attempt` of src/node.rs: the state after one of two siblings has lent the other a record.
use b_link.Prelude.{
  ℕ, ◌-◌, ◌/◌, ◌≤◌, ◌≡◌, ◌≢◌, refl, sym, ap, ◌∙◌, subst, inl, inr, ◌⊎◌, Option, none, some, arith,
  length, length-set, set,
}
use b_link.Ord.{Ord, ◌≺◌, ◌≼◌, Below}
use b_link.Node.{Addr, InternalNode, NodeKind, internal, leaf, Node, occupancy, minimum}
use b_link.Records.{lookup}
use b_link.Tree.{Tree}
use b_link.Tree.Invariant.{
  Page, IsActive, Forwards, Successor, HasSuccessor, Owns, IsInternal, IsPage, Inv, Above,
}
use b_link.Tree.Invariant.Bond.{Bond, records}
use b_link.Tree.Invariant.Contents.{Represents}
use b_link.Tree.Invariant.Frame.{Child-frame, Forwards-frame, Redirects}
use b_link.Tree.Invariant.Parts.{
  apart, kind_count-parts, lower-Between, upper-Between, lookup-lower, lookup-upper,
}
use b_link.Tree.Remove.Parent.{replaced-IsInternal}
use b_link.Tree.Remove.Siblings.{
  Siblings, parent-IsActive, parent_level, right_level, parent-IsInternal, inside, separator,
  left_fences, right_fences, all_records, not_root, distinct,
}
use b_link.Tree.Remove.Siblings.Common.{same_low, pair_answer, pair_count}
use b_link.Tree.Remove.Siblings.Others
use b_link.Tree.Remove.Siblings.Separate.{alone, beside, Place, Place-unique, written_count}
use b_link.Tree.Remove.Siblings.Written.{
  written, size, left_now, right_now, at_left, at_right, at_parent, elsewhere, Cases, cases,
}

module _ {K V : Type 0} ⦃o : Ord K⦄ {n : ℕ} {t : Tree K V} {level : Addr → ℕ} (inv : Inv n t level)
    (f : Siblings n t level) (boundary : K) (left right : NodeKind K V)
    (bond : Bond t level n
      (level f.c)
      f.p.low_key
      f.r.high_key
      (all_records inv f)
      boundary
      left
      right)
    (left_filled : minimum n left ≤ occupancy left)
    (right_filled : minimum n right ≤ occupancy right) where
  abbrev left_page : Node K V
  left_page = record f.p { high_key = some boundary; kind = left }

  abbrev right_page : Node K V
  right_page = record f.r { low_key = some boundary; kind = right }

  abbrev moved : InternalNode K
  moved = record f.node { keys = set f.node.keys f.i boundary }

  abbrev parent_page : Node K V
  parent_page = record f.q { kind = internal moved }

  abbrev pub lent : Tree K V
  lent = written inv f left_page right_page parent_page

  from_left :
      (r : Addr) (fence : K)
      → Forwards t r f.c
      → f.p.low_key ≡ some fence
      → Successor lent level (level f.c) r fence
  from_left r fence leads begins = record {
    page = left_page;
    address = f.c;
    leads =
        Forwards-frame (Others.redirects inv f left_page right_page parent_page refl refl refl)
          leads;
    at = left_now inv f left_page right_page parent_page;
    active = bond.lower_active;
    on_level = refl;
    begins = begins;
  }

  pub lent_size : length lent.pages ≡ length t.pages
  lent_size = size inv f left_page right_page parent_page

  pub lent-Redirects : Redirects t lent
  lent-Redirects = Others.redirects inv f left_page right_page parent_page refl refl refl

  grows : length t.pages ≤ length lent.pages
  grows = Others.grows inv f left_page right_page parent_page refl refl refl

  q_page : IsPage t level n f.a f.q
  q_page = inv.page f.a f.q f.parent_at

  -- The left sibling's link leads to the right one.
  left_link : HasSuccessor lent level (level f.c) (some boundary) f.p.right
  left_link = go f.p.right (
      subst (λ x. HasSuccessor t level (level f.c) x f.p.right) (left_fences inv f).1
        ((inv.page f.c f.p f.left_at).successor f.left_active))
    where
      go :
          (link : Option Addr)
          → HasSuccessor t level (level f.c) (some (separator inv f)) link
          → HasSuccessor lent level (level f.c) (some boundary) link
      go none h = h
      go (some y) s =
          let here : s.address ≡ f.d =
            same_low inv f s.address f.d s.page f.r s.at f.right_at s.active f.right_active
              s.on_level (right_level inv f) (s.begins ∙ sym (right_fences inv f).0) in
          record {
            page = right_page;
            address = f.d;
            leads =
                Forwards-frame
                  (Others.redirects inv f left_page right_page parent_page refl refl refl)
                  (subst (λ x. Forwards t y x) here s.leads);
            at = right_now inv f left_page right_page parent_page;
            active = bond.upper_active;
            on_level = right_level inv f;
            begins = refl;
          }

  left-IsPage : IsPage lent level n f.c left_page
  left-IsPage =
      let page = inv.page f.c f.p f.left_at in
      record {
        kind =
            Others.part_stays inv f left_page right_page parent_page refl refl refl left f.p.low_key
              (some boundary) bond.lower f.c refl;
        root_role = page.root_role;
        filled = λ act other. left_filled;
        successor = λ act. left_link;
        below_root = λ act. page.below_root f.left_active;
        predecessor = λ b e. omega (arith, page.predecessor b e, grows);
      }

  right-IsPage : IsPage lent level n f.d right_page
  right-IsPage =
      let page = inv.page f.d f.r f.right_at in
      record {
        kind =
            Others.part_stays inv f left_page right_page parent_page refl refl refl right
              (some boundary) f.r.high_key bond.upper f.d (right_level inv f);
        root_role = page.root_role;
        filled = λ act other. right_filled;
        successor = λ act.
            Others.successor_other inv f left_page right_page parent_page refl refl refl from_left
              f.d f.r f.right_at f.right_active (distinct inv f);
        below_root = λ act. page.below_root f.right_active;
        predecessor = λ b e. omega (arith, page.predecessor b e, grows);
      }

  parent-kind : IsInternal lent level n (level f.c) f.q.low_key f.q.high_key moved
  parent-kind =
      let s = parent-IsInternal inv f in
      replaced-IsInternal s f.i (inside inv f)
        (λ j e hi hj at.
          Child-frame (s.children j e at) (
            Others.own_children inv f left_page right_page parent_page refl refl refl j e hi hj at))
        boundary (subst (λ x. Above x boundary) (left_fences inv f).0 bond.above)
        (subst (λ x. Below x boundary) (right_fences inv f).1 bond.below) f.c f.d f.left_child
        f.right_child
        (record {
          page = left_page;
          at = left_now inv f left_page right_page parent_page;
          active = bond.lower_active;
          on_level = refl;
          low_key = (left_fences inv f).0;
          high_key = refl;
        })
        (record {
          page = right_page;
          at = right_now inv f left_page right_page parent_page;
          active = bond.upper_active;
          on_level = right_level inv f;
          low_key = refl;
          high_key = (right_fences inv f).1;
        })

  parent-IsPage : IsPage lent level n f.a parent_page
  unfolding minimum occupancy
  parent-IsPage =
      let is = f.is_internal in
      let act : IsActive f.q = parent-IsActive inv f in
      let filled : f.a ≢ t.root → (n - 1) / 2 ≤ length f.node.keys =
        λ other. rw is at (q_page.filled act other) in
      record {
        kind = (level f.c, parent_level inv f, parent-kind);
        root_role = q_page.root_role;
        filled = λ _ other. omega (arith, filled other, length-set f.node.keys f.i boundary);
        successor = λ _.
            Others.successor_other inv f left_page right_page parent_page refl refl refl from_left
              f.a f.q f.parent_at act
              (λ e.
                let h : level f.c ≡ level f.a = ap level e in
                absurd (omega (arith, h, parent_level inv f)));
        below_root = λ _. q_page.below_root act;
        predecessor = λ b e. omega (arith, q_page.predecessor b e, grows);
      }

  Source : Addr → Node K V → Type 0
  Source b x = Cases inv f left_page right_page parent_page b x

  all-IsPage : (b : Addr) (x : Node K V) → Page lent b x → IsPage lent level n b x
  all-IsPage b x h = elim (cases inv f left_page right_page parent_page b x h) [
    | at_left same e ↦
        subst (λ y. IsPage lent level n b y) (sym e)
          (subst (λ y. IsPage lent level n y left_page) same left-IsPage)
    | at_right same e ↦
        subst (λ y. IsPage lent level n b y) (sym e)
          (subst (λ y. IsPage lent level n y right_page) same right-IsPage)
    | at_parent same e ↦
        subst (λ y. IsPage lent level n b y) (sym e)
          (subst (λ y. IsPage lent level n y parent_page) same parent-IsPage)
    | elsewhere hc hd ha was ↦
        Others.old-IsPage inv f left_page right_page parent_page refl refl refl from_left b x hc ha
          was
  ]

  -- On which side of the boundary a key of the siblings is.
  Side : Addr → K → Type 0
  Side b k = ((f.c ≡ b) × (k ≺ boundary)) ⊎ ((f.d ≡ b) × (boundary ≼ k))

  one-Side : (b b' : Addr) (k : K) → Side b k → Side b' k → b ≡ b'
  unfolding Side
  one-Side b b' k (inl (e, h)) (inl (e', h')) = sym e ∙ e'
  one-Side b b' k (inl (e, h)) (inr (e', h')) = apart boundary k h h'
  one-Side b b' k (inr (e, h)) (inl (e', h')) = apart boundary k h' h
  one-Side b b' k (inr (e, h)) (inr (e', h')) = sym e ∙ e'

  place :
      (b : Addr) (x : Node K V) (k : K)
      → Page lent b x
      → IsActive x
      → Owns x k
      → Place inv f Side b k
  unfolding Side
  place b x k h act own = elim (cases inv f left_page right_page parent_page b x h) [
    | at_left same e ↦
        let mine : Owns left_page k = subst (λ y. Owns y k) e own in
        beside (ap level (sym same)) (lower-Between bond k mine) (inl (same, mine.1))
    | at_right same e ↦
        let mine : Owns right_page k = subst (λ y. Owns y k) e own in
        beside (ap level (sym same) ∙ right_level inv f) (upper-Between bond k mine)
          (inr (same, mine.0))
    | at_parent same e ↦
        let mine : Owns parent_page k = subst (λ y. Owns y k) e own in
        let apart_from : (y : Addr) → level y ≡ level f.c → y ≢ b = λ y lev one.
          (let h : level y ≡ level f.a = ap level (one ∙ sym same) in
            absurd (omega (arith, h, lev, parent_level inv f))) in
        alone f.q (subst (λ y. Page t y f.q) same f.parent_at) (parent-IsActive inv f) mine
          (apart_from f.c refl) (apart_from f.d (right_level inv f))
    | elsewhere hc hd ha was ↦ alone x was act own hc hd
  ]

  -- A loan keeps the tree in order.
  pub lent-Inv : Inv n lent level
  lent-Inv = record {
    capacity = inv.capacity;
    page = all-IsPage;
    disjoint = λ b b' x y k h h' act act' lev own own'.
        Place-unique inv f Side one-Side b b' k (place b x k h act own) (place b' y k h' act' own')
          lev;
    root = Child-frame inv.root (
        Others.stays inv f left_page right_page parent_page refl refl refl t.root
          (not_root inv f f.c refl) (not_root inv f f.d (right_level inv f)));
    counted = omega (
      arith,
      inv.counted,
      pair_count inv f,
      kind_count-parts bond,
      written_count inv f left_page right_page parent_page refl,
    );
  }

  -- A loan keeps the map.
  pub lent-Represents : (m : K → Option V) → Represents t m → Represents lent m
  lent-Represents m rep b x contents k h is owns =
      elim (cases inv f left_page right_page parent_page b x h) [
        | at_left same e ↦
            let part : left ≡ leaf contents = sym (ap (λ (y : Node K V). y.kind) e) ∙ is in
            let mine : Owns left_page k = subst (λ y. Owns y k) e owns in
            let lower = bond.lower in
            let low = (rw part at lower).0 in
            ap (λ (y : NodeKind K V). lookup (records y) k) (sym part)
            ∙ lookup-lower bond k mine.1
            ∙ pair_answer inv f m rep low k (lower-Between bond k mine)
        | at_right same e ↦
            let part : right ≡ leaf contents = sym (ap (λ (y : Node K V). y.kind) e) ∙ is in
            let mine : Owns right_page k = subst (λ y. Owns y k) e owns in
            let upper = bond.upper in
            let low = (rw part at upper).0 in
            ap (λ (y : NodeKind K V). lookup (records y) k) (sym part)
            ∙ lookup-upper bond k mine.0
            ∙ pair_answer inv f m rep low k (upper-Between bond k mine)
        | at_parent same e ↦ absurd (let kinds = ap (λ (y : Node K V). y.kind) e in cc)
        | elsewhere hc hd ha was ↦ rep b x contents k was is owns
      ]

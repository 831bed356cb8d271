-- ===== src/Tree/Remove/Survivor.antt =====
-- `remove_attempt` of src/node.rs: the state after the left one of two siblings was merged into the
-- right one, to which it forwards from then on.
use b_link.Prelude.{
  ℕ, ◌-◌, ◌/◌, ◌≤◌, ◌<◌, ◌≡◌, ◌≢◌, refl, sym, ap, ◌∙◌, subst, true, false, Option, none, some, List,
  arith, length, lt_of_get_elem?, length-erase_idx, erase_idx,
}
use b_link.Ord.{Ord}
use b_link.Node.{
  Addr, Entry, is_redirect, InternalNode, NodeKind, internal, leaf, redirect, Node, occupancy,
  minimum,
}
use b_link.Records.{lookup}
use b_link.Tree.{Tree}
use b_link.Tree.Invariant.{
  Page, IsActive, Forwards, stop, step, Successor, Owns, IsInternal, IsKind, IsPage, Inv,
}
use b_link.Tree.Invariant.Bond.{records}
use b_link.Tree.Invariant.Contents.{Represents}
use b_link.Tree.Invariant.Frame.{Child-frame, Forwards-frame, Redirects}
use b_link.Tree.Invariant.Parts.{kind_count-records}
use b_link.Tree.Remove.Parent.{erased-IsInternal}
use b_link.Tree.Remove.Siblings.{
  Siblings, parent-IsActive, parent_level, right_level, parent-IsInternal, inside, left_fences,
  right_fences, all_records, not_root, distinct,
}
use b_link.Tree.Remove.Siblings.Common.{pair_answer, pair_count}
use b_link.Tree.Remove.Siblings.Others
use b_link.Tree.Remove.Siblings.Separate.{alone, beside, Place, Place-unique, written_count}
use b_link.Tree.Remove.Siblings.Written.{
  written, size, left_now, right_now, at_left, at_right, at_parent, elsewhere, cases,
}

module _ {K V : Type 0} where
  Forwards-trans : {t : Tree K V} {a b c : Addr} → Forwards t a b → Forwards t b c → Forwards t a c
  Forwards-trans stop rest = rest
  Forwards-trans (step p at is leads) rest = step p at is (Forwards-trans leads rest)

module _ {K V : Type 0} ⦃o : Ord K⦄ {n : ℕ} {t : Tree K V} {level : Addr → ℕ} (inv : Inv n t level)
    (f : Siblings n t level) (spare : f.a ≢ t.root → (n - 1) / 2 < length f.node.keys)
    (kind : NodeKind K V) (shape : IsKind t level n (level f.c) f.p.low_key f.r.high_key kind)
    (active : is_redirect kind ≡ false) (filled : minimum n kind ≤ occupancy kind)
    (kept : records kind ≡ all_records inv f) where
  abbrev left_page : Node K V
  left_page = record f.p { low_key = none; kind = redirect f.d }

  abbrev right_page : Node K V
  right_page = record f.r { low_key = f.p.low_key; previous = f.p.previous; kind = kind }

  abbrev fewer : InternalNode K
  fewer = record { keys = erase_idx f.node.keys f.i; children = erase_idx f.node.children f.i }

  abbrev parent_page : Node K V
  parent_page = record f.q { kind = internal fewer }

  abbrev pub survived : Tree K V
  survived = written inv f left_page right_page parent_page

  -- A link to the left sibling is forwarded to the right one, which begins where the left one did.
  from_left :
      (r : Addr) (fence : K)
      → Forwards t r f.c
      → f.p.low_key ≡ some fence
      → Successor survived level (level f.c) r fence
  from_left r fence leads begins = record {
    page = right_page;
    address = f.d;
    leads =
        Forwards-trans
          (Forwards-frame (Others.redirects inv f left_page right_page parent_page refl refl refl)
            leads)
          (step left_page (left_now inv f left_page right_page parent_page) refl stop);
    at = right_now inv f left_page right_page parent_page;
    active = active;
    on_level = right_level inv f;
    begins = begins;
  }

  pub survived_size : length survived.pages ≡ length t.pages
  survived_size = size inv f left_page right_page parent_page

  pub survived-Redirects : Redirects t survived
  survived-Redirects = Others.redirects inv f left_page right_page parent_page refl refl refl

  -- The left sibling forwards to the right one.
  pub left_retired : (x : Node K V) × Page survived f.c x × (x.kind ≡ redirect f.d)
  left_retired = (left_page, left_now inv f left_page right_page parent_page, refl)

  grows : length t.pages ≤ length survived.pages
  grows = Others.grows inv f left_page right_page parent_page refl refl refl

  q_page : IsPage t level n f.a f.q
  q_page = inv.page f.a f.q f.parent_at

  left-IsPage : IsPage survived level n f.c left_page
  left-IsPage =
      let page = inv.page f.c f.p f.left_at in
      record {
        kind = omega (arith, grows, lt_of_get_elem? t.pages f.d f.r f.right_at);
        root_role = page.root_role;
        filled = λ act other. absurd (let x : true ≡ false = act in cc);
        successor = λ act. absurd (let x : true ≡ false = act in cc);
        below_root = λ act. absurd (let x : true ≡ false = act in cc);
        predecessor = λ b e. omega (arith, page.predecessor b e, grows);
      }

  right-IsPage : IsPage survived level n f.d right_page
  right-IsPage =
      let page = inv.page f.d f.r f.right_at in
      record {
        kind =
            Others.part_stays inv f left_page right_page parent_page refl refl refl kind f.p.low_key
              f.r.high_key shape f.d (right_level inv f);
        root_role = page.root_role;
        filled = λ act other. filled;
        successor = λ act.
            Others.successor_other inv f left_page right_page parent_page refl refl refl from_left
              f.d f.r f.right_at f.right_active (distinct inv f);
        below_root = λ act. page.below_root f.right_active;
        predecessor = λ b e. omega (arith, (inv.page f.c f.p f.left_at).predecessor b e, grows);
      }

  parent-kind : IsInternal survived level n (level f.c) f.q.low_key f.q.high_key fewer
  parent-kind =
      let s = parent-IsInternal inv f in
      erased-IsInternal s f.i (inside inv f)
        (λ j e hi hj at.
          Child-frame (s.children j e at) (
            Others.own_children inv f left_page right_page parent_page refl refl refl j e hi hj at))
        f.d f.right_child
        (record {
          page = right_page;
          at = right_now inv f left_page right_page parent_page;
          active = active;
          on_level = right_level inv f;
          low_key = (left_fences inv f).0;
          high_key = (right_fences inv f).1;
        })

  parent-IsPage : IsPage survived level n f.a parent_page
  unfolding minimum occupancy
  parent-IsPage =
      let act : IsActive f.q = parent-IsActive inv f in
      record {
        kind = (level f.c, parent_level inv f, parent-kind);
        root_role = q_page.root_role;
        filled =
            λ _ other. omega (arith, spare other, length-erase_idx f.node.keys f.i (inside inv f));
        successor = λ _.
            Others.successor_other inv f left_page right_page parent_page refl refl refl from_left
              f.a f.q f.parent_at act
              (λ e.
                let h : level f.c ≡ level f.a = ap level e in
                absurd (omega (arith, h, parent_level inv f)));
        below_root = λ _. q_page.below_root act;
        predecessor = λ b e. omega (arith, q_page.predecessor b e, grows);
      }

  all-IsPage : (b : Addr) (x : Node K V) → Page survived b x → IsPage survived level n b x
  all-IsPage b x h = elim (cases inv f left_page right_page parent_page b x h) [
    | at_left same e ↦
        subst (λ y. IsPage survived level n b y) (sym e)
          (subst (λ y. IsPage survived level n y left_page) same left-IsPage)
    | at_right same e ↦
        subst (λ y. IsPage survived level n b y) (sym e)
          (subst (λ y. IsPage survived level n y right_page) same right-IsPage)
    | at_parent same e ↦
        subst (λ y. IsPage survived level n b y) (sym e)
          (subst (λ y. IsPage survived level n y parent_page) same parent-IsPage)
    | elsewhere hc hd ha was ↦
        Others.old-IsPage inv f left_page right_page parent_page refl refl refl from_left b x hc ha
          was
  ]

  -- Only the right sibling has keys of the two.
  Side : Addr → K → Type 0
  Side b k = f.d ≡ b

  one-Side : (b b' : Addr) (k : K) → Side b k → Side b' k → b ≡ b'
  unfolding Side
  one-Side b b' k e e' = sym e ∙ e'

  place :
      (b : Addr) (x : Node K V) (k : K)
      → Page survived b x
      → IsActive x
      → Owns x k
      → Place inv f Side b k
  unfolding Side
  place b x k h act own = elim (cases inv f left_page right_page parent_page b x h) [
    | at_left same e ↦ absurd (let y = subst (λ y. IsActive y) e act in cc)
    | at_right same e ↦
        let mine : Owns right_page k = subst (λ y. Owns y k) e own in
        beside (ap level (sym same) ∙ right_level inv f) mine same
    | at_parent same e ↦
        let mine : Owns parent_page k = subst (λ y. Owns y k) e own in
        let apart_from : (y : Addr) → level y ≡ level f.c → y ≢ b = λ y lev one.
          (let h : level y ≡ level f.a = ap level (one ∙ sym same) in
            absurd (omega (arith, h, lev, parent_level inv f))) in
        alone f.q (subst (λ y. Page t y f.q) same f.parent_at) (parent-IsActive inv f) mine
          (apart_from f.c refl) (apart_from f.d (right_level inv f))
    | elsewhere hc hd ha was ↦ alone x was act own hc hd
  ]

  -- A merge keeps the tree in order.
  pub survived-Inv : Inv n survived level
  survived-Inv = record {
    capacity = inv.capacity;
    page = all-IsPage;
    disjoint = λ b b' x y k h h' act act' lev own own'.
        Place-unique inv f Side one-Side b b' k (place b x k h act own) (place b' y k h' act' own')
          lev;
    root = Child-frame inv.root (
        Others.stays inv f left_page right_page parent_page refl refl refl t.root
          (not_root inv f f.c refl) (not_root inv f f.d (right_level inv f)));
    counted = omega (
      arith,
      inv.counted,
      pair_count inv f,
      kind_count-records kind,
      ap (λ (x : List (Entry K V)). length x) kept,
      written_count inv f left_page right_page parent_page refl,
    );
  }

  -- A merge keeps the map.
  pub survived-Represents : (m : K → Option V) → Represents t m → Represents survived m
  survived-Represents m rep b x contents k h is owns =
      elim (cases inv f left_page right_page parent_page b x h) [
        | at_left same e ↦ absurd (let kinds = ap (λ (y : Node K V). y.kind) e in cc)
        | at_right same e ↦
            let part : kind ≡ leaf contents = sym (ap (λ (y : Node K V). y.kind) e) ∙ is in
            let mine : Owns right_page k = subst (λ y. Owns y k) e owns in
            let low = (rw part at shape).0 in
            ap (λ (y : NodeKind K V). lookup (records y) k) (sym part)
            ∙ ap (λ (y : List (Entry K V)). lookup y k) kept
            ∙ pair_answer inv f m rep low k mine
        | at_parent same e ↦ absurd (let kinds = ap (λ (y : Node K V). y.kind) e in cc)
        | elsewhere hc hd ha was ↦ rep b x contents k was is owns
      ]

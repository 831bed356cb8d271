-- ===== src/Tree/Insert/Backlink.antt =====
-- A round of `repair_split_backlink` of src/node.rs.
use b_link.Prelude.{
  ℕ, ◌<◌, ◌≡◌, ◌≢◌, refl, sym, ap, ◌∙◌, subst, inl, inr, true, not, ◌||◌, Option, none, some, arith,
  ◌==◌, Bool-cases, length, get_elem?-lt, set, set-set, lt_of_get_elem?, ok,
}
use b_link.Ord.{Ord}
use b_link.Node.{Addr, NodeKind, internal, leaf, redirect, Node, is_redirect}
use b_link.Tree.Invariant.Frame.{Redirects, Redirects-refl, Redirects-trans}
use b_link.Tree.{Tree, store}
use b_link.Tree.Insert.{points_to, link_back, repair_split_backlink}
use b_link.Tree.Invariant.{Page, IsActive, Forwards, stop, step, HasSuccessor, Inv}
use b_link.Tree.Invariant.Pages.{Page-unique, store-other}
use b_link.Tree.Invariant.Links.{relinked-Inv, relinked-Represents, same_size, redirects}
use b_link.Tree.Invariant.Contents.{Represents}

points_to_lem : (right : Option Addr) (a : Addr) → points_to right a ≡ true → right ≡ some a
points_to_lem none a h = absurd cc
points_to_lem (some b) a h = ap some (ground arith)

module _ {K V : Type 0} (t : Tree K V) (level : Addr → ℕ) where
  -- A right link to a forwarding page may be moved on to the page's target.
  pub skip :
      (l : ℕ) (high : Option K) (r target : Addr) (next : Node K V)
      → Page t r next
      → next.kind ≡ redirect target
      → HasSuccessor t level l high (some r)
      → HasSuccessor t level l high (some target)
  skip l none r target next at e h = absurd cc
  skip l (some fence) r target next at e h = record {
    page = h.page;
    address = h.address;
    leads = go h.leads h.at h.active;
    at = h.at;
    active = h.active;
    on_level = h.on_level;
    begins = h.begins;
  }
    where
      go : {d : Addr} → Forwards t r d → Page t d h.page → IsActive h.page → Forwards t target d
      go stop at' active =
          let one : next ≡ h.page = Page-unique t r next h.page at at' in
          let kinds : h.page.kind ≡ redirect target = ap (λ (x : Node K V). x.kind) (sym one) ∙ e in
          absurd (let x = rw kinds at active in cc)
      go {d} (step {b} p at' e' rest) at'' active =
          let one : next ≡ p = Page-unique t r next p at at' in
          let kinds : redirect target ≡ redirect b =
            sym e ∙ ap (λ (x : Node K V). x.kind) one ∙ e' in
          let same : target ≡ b = cc in subst (λ x. Forwards t x d) (sym same) rest

module _ {K V : Type 0} ⦃o : Ord K⦄ {n : ℕ} {t : Tree K V} {level : Addr → ℕ} (inv : Inv n t level)
    (m : K → Option V) (rep : Represents t m) where
  -- A repaired tree, with the page at which the loop goes on.
  pub record Repaired (t' : Tree K V) (next : Option Addr) : Type 0 where
    pub ordered : Inv n t' level
    pub stands_for : Represents t' m
    pub same_pages : length t'.pages ≡ length t.pages
    pub keeps : Redirects t t'
    pub onward : (b : Addr) → next ≡ some b → b < length t.pages

  module _ (a : Addr) (node : Node K V) (at : Page t a node) (r : Addr)
      (right : node.right ≡ some r) (active : IsActive node) (next : Node K V)
      (next_at : Page t r next) where
    linked_successor : HasSuccessor t level (level a) node.high_key (some r)
    linked_successor =
        subst (λ x. HasSuccessor t level (level a) node.high_key x) right
          ((inv.page a node at).successor active)

    pub skipped-Repaired :
        (target : Addr)
        → next.kind ≡ redirect target
        → Repaired (store t a (record node { right = some target })) (some target)
    skipped-Repaired target is =
        let inside = rw is at (inv.page r next next_at).kind in
        record {
          ordered =
              relinked-Inv inv a node at node.previous (some target)
                (λ act.
                  skip t level (level a) node.high_key r target next next_at is linked_successor)
                (inv.page a node at).predecessor;
          stands_for = relinked-Represents inv a node at node.previous (some target) m rep;
          same_pages = same_size inv a node at node.previous (some target);
          keeps = redirects inv a node at node.previous (some target);
          onward = λ b e. let same : target ≡ b = cc in omega (arith, same, inside);
        }

    valid : a < length t.pages
    valid = lt_of_get_elem? t.pages a node at

    apart-Repaired :
        r ≢ a
        → Repaired
            (store
              (store t r (record next { previous = some a }))
              a
              (record node { right = some r }))
            none
    apart-Repaired other =
        let back =
          relinked-Inv inv r next next_at (some a) next.right (inv.page r next next_at).successor
            (λ b e. let same : a ≡ b = cc in omega (arith, same, valid)) in
        let still = store-other t r (record next { previous = some a }) a node other at in
        let page = back.page a node still in
        record {
          ordered =
              relinked-Inv back a node still node.previous (some r)
                (λ act.
                  subst
                    (λ x.
                      HasSuccessor (store t r (record next { previous = some a })) level (level a)
                        node.high_key x)
                    right (page.successor act))
                page.predecessor;
          stands_for =
              relinked-Represents back a node still node.previous (some r) m
                (relinked-Represents inv r next next_at (some a) next.right m rep);
          same_pages =
              same_size back a node still node.previous (some r)
              ∙ same_size inv r next next_at (some a) next.right;
          keeps =
              Redirects-trans t (store t r (record next { previous = some a }))
                (store (store t r (record next { previous = some a })) a
                  (record node { right = some r }))
                (redirects inv r next next_at (some a) next.right)
                (redirects back a node still node.previous (some r));
          onward = λ b e. absurd cc;
        }

    self-Repaired :
        r ≡ a
        → Repaired
            (store
              (store t r (record next { previous = some a }))
              a
              (record node { right = some r }))
            none
    self-Repaired same =
        subst (λ x. Repaired x none)
          (ap (λ ps. record t { pages = ps })
            (sym (
              ap
                (λ x.
                  set (set t.pages x (record next { previous = some a })) a
                    (record node { right = some r }))
                same
              ∙ set-set t.pages a (record next { previous = some a })
                  (record node { right = some r }))))
          (record {
            ordered =
                relinked-Inv inv a node at node.previous (some r) (λ act. linked_successor)
                  (inv.page a node at).predecessor;
            stands_for = relinked-Represents inv a node at node.previous (some r) m rep;
            same_pages = same_size inv a node at node.previous (some r);
            keeps = redirects inv a node at node.previous (some r);
            onward = λ b e. absurd cc;
          })

    linked-Repaired :
        Repaired
          (store (store t r (record next { previous = some a })) a (record node { right = some r }))
          none
    linked-Repaired = elim (Bool-cases (r == a)) [
      | inl same ↦ self-Repaired (ground arith)
      | inr other ↦ apart-Repaired (ground arith)
    ]

    link_back-Repaired :
        (kind : NodeKind K V)
        → next.kind ≡ kind
        → (t' : Tree K V) × (onward : Option Addr) × (link_back t a node r next kind
            ≡ ok (t', onward))
          × Repaired t' onward
    unfolding link_back
    link_back-Repaired (redirect target) is = (
      store t a (record node { right = some target }),
      some target,
      refl,
      skipped-Repaired target is,
    )
    link_back-Repaired (leaf contents) is = (
      store (store t r (record next { previous = some a })) a (record node { right = some r }),
      none,
      refl,
      linked-Repaired,
    )
    link_back-Repaired (internal contents) is = (
      store (store t r (record next { previous = some a })) a (record node { right = some r }),
      none,
      refl,
      linked-Repaired,
    )

  -- In a tree in order that stands for the map `m`, a round of `repair_split_backlink` at two pages
  -- of the tree returns; the tree stays in order, stands for `m`, and the loop goes on at a page of
  -- the tree, if it does.
  pub repair_split_backlink-Repaired :
      (a r : Addr)
      → a < length t.pages
      → r < length t.pages
      → (t' : Tree K V) × (next : Option Addr) × (repair_split_backlink t a r ≡ ok (t', next))
        × Repaired t' next
  unfolding repair_split_backlink
  repair_split_backlink-Repaired a r valid valid' =
      let (node, at) = get_elem?-lt t.pages a valid in
      let (next, next_at) = get_elem?-lt t.pages r valid' in
      elim (Bool-cases (is_redirect node.kind || not (points_to node.right r))) [
        | inl stale ↦ (
          t,
          none,
          rw (at, stale) refl,
          record {
            ordered = inv;
            stands_for = rep;
            same_pages = refl;
            keeps = Redirects-refl t;
            onward = λ b e. absurd cc;
          },
        )
        | inr current ↦
            let active : IsActive node = ground arith in
            let right = points_to_lem node.right r (ground arith) in
            let (t', onward, run, repaired) =
              link_back-Repaired a node at r right active next next_at next.kind refl in
            (t', onward, rw (at, current, next_at) run, repaired)
      ]

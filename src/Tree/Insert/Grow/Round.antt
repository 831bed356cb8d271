-- ===== src/Tree/Insert/Grow/Round.antt =====
-- A round of `split_root_if_full` of src/node.rs.
use b_link.Prelude.{
  ◌<◌, ◌≤◌, length, some, ℕ, ◌≤◌, ◌<◌, ◌≡◌, refl, ap, ◌∙◌, inl, inr, Option, arith, ltb,
  if◌then◌else◌, Bool-cases, ok,
}
use b_link.Ord.{Ord}
use b_link.Node.{Addr, NodeKind, internal, leaf, redirect, Node, root_from_split, occupancy}
use b_link.Tree.Invariant.Frame.{Redirects, Redirects-refl}
use b_link.Tree.{Tree, fresh}
use b_link.Tree.Insert.{split_root, grow_kind, split_root_if_full, GrowRound, unneeded, grown}
use b_link.Tree.Insert.Grow.{size, grows, grown_tree, levels, root_at, redirects}
use b_link.Tree.Invariant.{Page, IsActive, Inv}
use b_link.Tree.Invariant.Routing.{right-lt}
use b_link.Tree.Invariant.Halves.{split_full-Halves}
use b_link.Tree.Invariant.Contents.{Represents}
use b_link.Tree.Insert.Grow.Grown.{np}
use b_link.Tree.Insert.Grow.Growth.{grown-Inv, grown-Represents}

module _ {K V : Type 0} where
  -- The pages of a backlink that is to be repaired are in the tree.
  abbrev pub LinkIn : Tree K V → GrowRound → Type 0
  LinkIn t (grown new_right successor) =
      (new_right < length t.pages) × ((b : Addr) → successor ≡ some b → b < length t.pages)
  LinkIn t r = Unit

module _ {K V : Type 0} ⦃o : Ord K⦄ {n : ℕ} {t : Tree K V} {level : Addr → ℕ} (inv : Inv n t level)
    (m : K → Option V) (rep : Represents t m) where
  -- What a round of `split_root_if_full` leaves: a tree in order for the same map, whose root has
  -- room.
  pub record Grows (t' : Tree K V) (r : GrowRound) : Type 0 where
    pub heights : Addr → ℕ
    pub ordered : Inv n t' heights
    pub stands_for : Represents t' m
    pub root_page : Node K V
    pub root_at : Page t' t'.root root_page
    pub room : occupancy root_page.kind < n
    pub grows : length t.pages ≤ length t'.pages
    pub keeps : Redirects t t'
    pub link : LinkIn t' r

  -- A full root is split under a new one.
  split_root-Grows :
      (p : Node K V)
      → Page t t.root p
      → IsActive p
      → occupancy p.kind ≡ n
      → (t' : Tree K V) × (r : GrowRound) × (split_root n t p ≡ ok (t', r)) × Grows t' r
  unfolding split_root root_from_split occupancy
  split_root-Grows p at active full =
      let (separator, left, right, run, halves) =
        split_full-Halves inv.capacity t.root (fresh t) p (inv.page t.root p at).kind active full in
      let grown_size = size inv p at active separator left right halves in
      (
        grown_tree inv p at active separator left right halves,
        grown (fresh t) p.right,
        rw run refl,
        record {
          heights = levels inv p at active separator left right halves;
          ordered = grown-Inv inv p at active separator left right halves;
          stands_for = grown-Represents inv p at active separator left right halves m rep;
          root_page = np inv p at active separator left right halves;
          root_at = root_at inv p at active separator left right halves;
          room = omega (arith, inv.capacity);
          grows = grows inv p at active separator left right halves;
          keeps = redirects inv p at active separator left right halves;
          link = (
            omega (arith, grown_size),
            λ b e. omega (
              arith,
              grown_size,
              right-lt t level (level t.root) p.high_key p.right
                  ((inv.page t.root p at).successor active) b e,
            ),
          );
        },
      )

  root-bounded :
      (p : Node K V) → Page t t.root p → (kind : NodeKind K V) → p.kind ≡ kind → occupancy kind ≤ n
  unfolding occupancy
  root-bounded p at (leaf contents) is = (rw is at (inv.page t.root p at).kind).1.bounded
  root-bounded p at (internal node) is =
      let (above, e, shape) = rw is at (inv.page t.root p at).kind in shape.bounded
  root-bounded p at (redirect b) is = omega arith

  root-Grows :
      (p : Node K V)
      → Page t t.root p
      → IsActive p
      → (kind : NodeKind K V) → p.kind ≡ kind
      → (t' : Tree K V) × (r : GrowRound) × ((if ltb (occupancy kind) n
            then ok (t, unneeded)
            else split_root n t p)
          ≡ ok (t', r))
        × Grows t' r
  root-Grows p at active kind is = elim (Bool-cases (ltb (occupancy kind) n)) [
    | inl room ↦ (
      t,
      unneeded,
      rw room refl,
      record {
        heights = level;
        ordered = inv;
        stands_for = rep;
        root_page = p;
        root_at = at;
        room = rw is (ground arith);
        grows = omega arith;
        keeps = Redirects-refl t;
        link = tt;
      },
    )
    | inr full ↦
        let filled : occupancy p.kind ≡ n =
          ap occupancy is ∙ ground (arith, root-bounded p at kind is) in
        let (t', r, run, result) = split_root-Grows p at active filled in
        (t', r, rw full run, result)
  ]

  grow_kind-Grows :
      (p : Node K V)
      → Page t t.root p
      → IsActive p
      → (kind : NodeKind K V) → p.kind ≡ kind
      → (t' : Tree K V) × (r : GrowRound) × (grow_kind n t p kind ≡ ok (t', r)) × Grows t' r
  unfolding grow_kind
  grow_kind-Grows p at active (redirect b) is = absurd (let h = rw is at active in cc)
  grow_kind-Grows p at active (leaf contents) is = root-Grows p at active (leaf contents) is
  grow_kind-Grows p at active (internal node) is = root-Grows p at active (internal node) is

  -- In a tree in order, a round of `split_root_if_full` returns, and leaves a tree in order that
  -- stands for the same map and whose root is not full.
  pub split_root_if_full-Grows :
      (t' : Tree K V) × (r : GrowRound) × (split_root_if_full n t ≡ ok (t', r)) × Grows t' r
  unfolding split_root_if_full
  split_root_if_full-Grows =
      let (t', r, run, result) =
        grow_kind-Grows inv.root.page inv.root.at inv.root.active inv.root.page.kind refl in
      (t', r, rw inv.root.at run, result)

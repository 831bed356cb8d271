-- ===== src/Tree/Insert/Attempt.antt =====
-- A round of the loop of `insert_attempt` of src/node.rs, at any page and whatever was locked.
use Prim.Native.Nat.Ordering.{lt}
use b_link.Prelude.{
  ℕ, suc, ◌+◌, ◌≤◌, ◌<◌, ◌≡◌, refl, inl, inr, Bool, true, Option, none, some, arith, ◌==◌, ltb, leb,
  Bool-cases, length, get_elem?, get_elem?-lt, insert_idx, lt_of_get_elem?, Run, ok,
}
use b_link.Ord.{Ord}
use b_link.Array.Bounded
use b_link.Node.{
  Addr, InternalNode, LeafNode, NodeKind, internal, leaf, redirect, Node, Route, restart, to_right,
  here, occupancy, route,
}
use b_link.Node.Splitting.{insert_split}
use b_link.Tree.Invariant.Frame.{Redirects, Redirects-refl}
use b_link.Tree.{Tree, fresh}
use b_link.Tree.Insert.{
  InsertRound, finished, retry, descend, insert_attempt, attempt_route, attempt_here, attempt_kind,
  descend_child,
}
use b_link.Tree.Insert.Linear.{insert_record-Inserted}
use b_link.Tree.Insert.Descent.{Family, after, levels, size, child-valid, redirects}
use b_link.Tree.Insert.Descent.Separated.{split-Inv}
use b_link.Tree.Insert.Descent.Unchanged.{split-Represents}
use b_link.Tree.Invariant.{Page, IsActive, Owns, Inv}
use b_link.Tree.Invariant.Routing.{right-lt, Routed, route-Routed, child-Owns}
use b_link.Tree.Invariant.Halves.{split_full-Halves}
use b_link.Tree.Invariant.Contents.{with_key, Represents}

module _ {K : Type 0} where
  insert_split_lem :
      (n : ℕ) (node : InternalNode K) (i : ℕ) (separator : K) (right : Addr)
      → length node.children ≡ suc (length node.keys)
      → i < length node.children
      → length node.keys < n
      → insert_split n node i separator right
        ≡ ok (record {
          keys = insert_idx node.keys i separator;
          children = insert_idx node.children (i + 1) right;
        })
  unfolding insert_split Bounded.insert
  insert_split_lem n node i separator right counted inside room =
      let a : ltb (length node.keys) n ≡ true = ground arith in
      let b : length node.children == length node.keys + 1 ≡ true = ground arith in
      let c : ltb i (length node.children) ≡ true = ground arith in
      let d : leb i (length node.keys) ≡ true = ground arith in
      let e : leb (i + 1) (length node.children) ≡ true = ground arith in
      let f : ltb (length node.children) (n + 1) ≡ true = ground arith in rw (a, b, c, d, e, f) refl

module _ {K V : Type 0} ⦃o : Ord K⦄ (n : ℕ) (m : K → Option V) (k : K) (v : V) where
  -- The pages of a backlink that is to be repaired are in the tree.
  abbrev pub RepairIn : Tree K V → Option (Addr × Option Addr) → Type 0
  RepairIn t none = Unit
  RepairIn t (some (new_right, successor)) =
      (new_right < length t.pages) × ((b : Addr) → successor ≡ some b → b < length t.pages)

  -- What a round means for the map: the insertion with its result, or nothing.
  abbrev pub Means : Tree K V → InsertRound V → Type 0
  Means t (finished replaced) = (replaced ≡ m k) × Represents t (with_key m k (some v))
  Means t retry = Represents t m
  Means t (descend target repair) = Represents t m × (target < length t.pages) × RepairIn t repair

  pub record Attempted (before t : Tree K V) (r : InsertRound V) : Type 0 where
    pub heights : Addr → ℕ
    pub ordered : Inv n t heights
    pub means : Means t r
    pub grows : length before.pages ≤ length t.pages
    pub keeps : Redirects before t

  module _ {t : Tree K V} {level : Addr → ℕ} (inv : Inv n t level) (rep : Represents t m) where
    abbrev Round : Run (Tree K V × InsertRound V) → Type 0
    Round run = (t' : Tree K V) × (r : InsertRound V) × (run ≡ ok (t', r)) × Attempted t t' r

    unchanged : (r : InsertRound V) → Means t r → Attempted t t r
    unchanged r means = record {
      heights = level;
      ordered = inv;
      means = means;
      grows = omega arith;
      keeps = Redirects-refl t;
    }

    module _ (a : Addr) (q : Node K V) (at : Page t a q) (owns : Owns q k) where
      side :
          (u : Tree K V) (c fresh : Addr) (separator : K)
          → c < length u.pages
          → fresh < length u.pages
          → elim (o.cmp k separator) [ lt ↦ c | _ ↦ fresh ] < length u.pages
      side u c fresh separator h h' = ground arith

      -- The child is full: it is split, and its part for the key is next.
      split_child :
          (node : InternalNode K)
          → q.kind ≡ internal node
          → length node.keys < n
          → length node.children ≡ suc (length node.keys)
          → (i : ℕ) (c : Addr) → get_elem? node.children i ≡ some c
          → (p : Node K V) → Page t c p
          → IsActive p
          → occupancy p.kind ≡ n
          → Round (descend_child n t a q node k i c p)
      unfolding descend_child
      split_child node is room counted i c found p child_at active full =
          let (separator, left, right, run, halves) =
            split_full-Halves inv.capacity c (fresh t) p (inv.page c p child_at).kind active full in
          let f : Family n t level = record {
            a = a;
            q = q;
            node = node;
            parent_at = at;
            is_internal = is;
            i = i;
            c = c;
            found = found;
            p = p;
            at = child_at;
            active = active;
            separator = separator;
            left = left;
            right = right;
            halves = halves;
            room = room;
          } in
          let fills : occupancy p.kind == n ≡ true = ground arith in
          let widens =
            insert_split_lem n node i separator (fresh t) counted
              (lt_of_get_elem? node.children i c found) room in
          let grown = size inv f in
          (
            after inv f,
            descend (elim (o.cmp k separator) [ lt ↦ c | _ ↦ fresh t ]) (some (fresh t, p.right)),
            rw (fills, run, widens) refl,
            record {
              heights = levels inv f;
              ordered = split-Inv inv f;
              grows = omega (arith, grown);
              keeps = redirects inv f;
              means = (
                split-Represents inv f m rep,
                side (after inv f) c (fresh t) separator (omega (arith, grown, child-valid inv f))
                    (omega (arith, grown)),
                (
                  omega (arith, grown),
                  λ b e. omega (
                    arith,
                    grown,
                    right-lt t level (level c) p.high_key p.right
                        ((inv.page c p child_at).successor active) b e,
                  ),
                ),
              );
            },
          )

      into_child :
          (node : InternalNode K)
          → q.kind ≡ internal node
          → length node.keys < n
          → length node.children ≡ suc (length node.keys)
          → (i : ℕ) (c : Addr) → get_elem? node.children i ≡ some c
          → (p : Node K V) → Page t c p
          → IsActive p
          → Round (descend_child n t a q node k i c p)
      unfolding descend_child
      into_child node is room counted i c found p child_at active =
          elim (Bool-cases (occupancy p.kind == n)) [
            | inl full ↦ split_child node is room counted i c found p child_at active (ground arith)
            | inr spare ↦ (
              t,
              descend c none,
              rw spare refl,
              unchanged (descend c none) (rep, lt_of_get_elem? t.pages c p child_at, tt),
            )
          ]

      at_internal :
          (locked : Bool) (node : InternalNode K)
          → q.kind ≡ internal node
          → length node.keys < n
          → Round (attempt_kind n t locked a q (internal node) k v)
      unfolding attempt_kind Bounded.index
      at_internal locked node is room =
          let (h, above, shape) = rw is at (inv.page a q at).kind in
          let (i, c, selects, found, splits, owned) =
            child-Owns q.low_key q.high_key node k shape owns in
          let child = shape.children i c found in
          let (t', r, run, attempted) =
            into_child node is room shape.counted i c found child.page child.at child.active in
          elim (Bool-cases locked) [
            | inl got ↦ (t', r, rw (selects, found, child.at, child.active, got) run, attempted)
            | inr missed ↦ (
              t,
              retry,
              rw (selects, found, child.at, child.active, missed) refl,
              unchanged retry rep,
            )
          ]

      at_leaf :
          (locked : Bool) (contents : LeafNode K V)
          → q.kind ≡ leaf contents
          → length contents.entries < n
          → Round (attempt_kind n t locked a q (leaf contents) k v)
      unfolding attempt_kind
      at_leaf locked contents is room =
          let (t', run, (ordered, stands_for, same, keeps)) =
            insert_record-Inserted inv a q contents at is m rep k v owns (inr room) in
          (
            t',
            finished (m k),
            rw run refl,
            record {
              heights = level;
              ordered = ordered;
              means = (refl, stands_for);
              grows = omega (arith, same);
              keeps = keeps;
            },
          )

      at_here :
          (locked : Bool) (kind : NodeKind K V)
          → q.kind ≡ kind
          → IsActive q
          → occupancy kind < n
          → Round (attempt_kind n t locked a q kind k v)
      unfolding occupancy
      at_here locked (leaf contents) is active room = at_leaf locked contents is room
      at_here locked (internal node) is active room = at_internal locked node is room
      at_here locked (redirect b) is active room = absurd (let h = rw is at active in cc)

      bounded : (kind : NodeKind K V) → q.kind ≡ kind → occupancy kind ≤ n
      unfolding occupancy
      bounded (leaf contents) is = (rw is at (inv.page a q at).kind).1.bounded
      bounded (internal node) is =
          let (h, above, shape) = rw is at (inv.page a q at).kind in shape.bounded
      bounded (redirect b) is = omega arith

      here-Round : (locked : Bool) → IsActive q → Round (attempt_here n t locked a q k v)
      unfolding attempt_here
      here-Round locked active = elim (Bool-cases (occupancy q.kind == n)) [
        | inl full ↦ (t, retry, rw full refl, unchanged retry rep)
        | inr spare ↦
            let (t', r, run, attempted) =
              at_here locked q.kind refl active (ground (arith, bounded q.kind refl)) in
            (t', r, rw spare run, attempted)
      ]

    route-Round :
        (locked : Bool) (a : Addr) (q : Node K V) (r : Route)
        → Page t a q
        → Routed t q k r
        → Round (attempt_route n t locked a q k v r)
    unfolding attempt_route
    route-Round locked a q restart at routed = (t, retry, refl, unchanged retry rep)
    route-Round locked a q (to_right b) at routed =
        (t, descend b none, refl, unchanged (descend b none) (rep, routed, tt))
    route-Round locked a q here at routed = here-Round a q at routed.1 locked routed.0

    -- In a tree in order that stands for the map `m`, a round of `insert_attempt` at any page
    -- returns, whichever latches it gets. The tree stays in order; either the round is finished with
    -- the value that `m` had, and the tree stands for `m` with the new value, or the tree still
    -- stands for `m`, and the loop starts again or goes on at a page of the tree.
    pub insert_attempt-Attempted :
        (locked : Bool) (a : Addr)
        → a < length t.pages
        → (t' : Tree K V) × (r : InsertRound V) × (insert_attempt n t locked a k v ≡ ok (t', r))
          × Attempted t t' r
    unfolding insert_attempt
    insert_attempt-Attempted locked a valid =
        let (q, at) = get_elem?-lt t.pages a valid in
        let (route, routes, routed) = route-Routed a q k (inv.page a q at) in
        let (t', r, run, attempted) = route-Round locked a q route at routed in
        (t', r, rw (at, routes) run, attempted)

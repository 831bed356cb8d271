-- ===== src/Tree/Remove/Attempt.antt =====
-- A round of the loop of `remove_attempt` of src/node.rs, at any page and whatever was latched.
use b_link.Prelude.{
  ℕ, zero, suc, ◌+◌, ◌-◌, ◌/◌, ◌<◌, ◌≡◌, ◌≢◌, refl, sym, ◌∙◌, inl, inr, Bool, true, false, not,
  ◌&&◌, Option, none, arith, ltb, leb, Bool-cases, length, get_elem?-lt, lt_of_get_elem?, ok,
}
use b_link.Ord.{Ord}
use b_link.Array.Bounded
use b_link.Node.{
  Addr, InternalNode, LeafNode, NodeKind, internal, leaf, redirect, Node, Route, restart, to_right,
  here, occupancy, minimum, route,
}
use b_link.Node.Leaf
use b_link.Node.Leaf.{SearchResult, found, absent, search_entries}
use b_link.Node.Leaf.Contents.{Answers, search_entries-Answers}
use b_link.Tree.Invariant.Frame.{Redirects-refl}
use b_link.Tree.{Tree}
use b_link.Tree.Invariant.{Page, IsActive, Owns, Inv}
use b_link.Tree.Invariant.Contents.{Represents}
use b_link.Tree.Invariant.Routing.{Routed, route-Routed, child-Owns}
use b_link.Tree.Remove.{
  RemoveRound, finished, retry, descend, Latches, remove_attempt, attempt_route, attempt_kind,
  remove_at, remove_child, remove_pair,
}
use b_link.Tree.Remove.Linear.{shape, answer_lem, unchanged, remove_record-Removed}
use b_link.Tree.Remove.Rebalance
use b_link.Tree.Remove.Rebalance.{Round, Means, Attempted, rebalance-Round}
use b_link.Tree.Remove.Siblings.{Siblings}

module _ {K V : Type 0} ⦃o : Ord K⦄ (n : ℕ) (m : K → Option V) (k : K) {t : Tree K V}
    {level : Addr → ℕ} (inv : Inv n t level) (rep : Represents t m) where
  again : Attempted n m k level t t retry
  again = Rebalance.unchanged n m k inv rep retry rep

  module _ (a : Addr) (q : Node K V) (at : Page t a q) where
    module _ (latches : Latches) (node : InternalNode K) (is : q.kind ≡ internal node)
        (spare : a ≢ t.root → (n - 1) / 2 < length node.keys) where
      pair-Round :
          (i : ℕ)
          → suc i < length node.children
          → (child_is_left : Bool)
          → Round n m k level t (remove_pair n t latches a q node i child_is_left)
      unfolding remove_pair Bounded.index
      pair-Round i valid child_is_left =
          let (l, above, s) = rw is at (inv.page a q at).kind in
          let (c, left_child) = get_elem?-lt node.children i (omega (arith, valid)) in
          let (d, right_child) = get_elem?-lt node.children (suc i) valid in
          let left = s.children i c left_child in
          let right = s.children (suc i) d right_child in
          let f : Siblings n t level = record {
            a = a;
            q = q;
            node = node;
            parent_at = at;
            is_internal = is;
            i = i;
            c = c;
            d = d;
            left_child = left_child;
            right_child = right_child;
            p = left.page;
            r = right.page;
            left_at = left.at;
            right_at = right.at;
            left_active = left.active;
            right_active = right.active;
          } in
          let next : i + 1 ≡ suc i = omega arith in
          let (t', r, run, attempted) = rebalance-Round n m k inv rep f spare child_is_left in
          elim (Bool-cases (not (latches.first && latches.second))) [
            | inl missed ↦ (
              t,
              retry,
              rw
                  (
                    left_child, next, right_child, left.at, right.at, left.active, right.active,
                    missed,
                  )
                  refl,
              again,
            )
            | inr got ↦ (
              t',
              r,
              rw (left_child, next, right_child, left.at, right.at, left.active, right.active, got)
                  run,
              attempted,
            )
          ]

      child-Round :
          (i : ℕ)
          → i < length node.children
          → Round n m k level t (remove_child n t latches a q node i)
      unfolding remove_child
      child-Round (suc i) valid = pair-Round i valid false
      child-Round zero valid = elim (Bool-cases (ltb (length node.children) 2)) [
        | inl lonely ↦ (t, retry, rw lonely refl, again)
        | inr more ↦
            let (t', r, run, attempted) = pair-Round 0 (ground arith) true in
            (t', r, rw more run, attempted)
      ]

    module _ (owns : Owns q k) where
      at_leaf :
          (contents : LeafNode K V)
          → q.kind ≡ leaf contents
          → (a ≢ t.root → n / 2 < length contents.entries)
          → (s : SearchResult) → Answers contents.entries k s
          → Round n m k level t (remove_at t a q contents s)
      unfolding remove_at
      at_leaf contents is room (absent i) (inside, value, inserts, deletes) =
          let gone : none ≡ m k = sym value ∙ answer_lem inv a q contents at is m rep k owns in
          (
            t,
            finished none,
            refl,
            record {
              ordered = inv;
              means = (gone, unchanged inv a q contents at is m rep k owns deletes);
              same_pages = refl;
              keeps = Redirects-refl t;
            },
          )
      at_leaf contents is room (found i) answers =
          let (t', run, (ordered, stands_for, same, keeps)) =
            remove_record-Removed inv a q contents at is m rep k owns i answers room in
          (
            t',
            finished (m k),
            rw run refl,
            record {
              ordered = ordered;
              means = (refl, stands_for);
              same_pages = same;
              keeps = keeps;
            },
          )

      kind-Round :
          (latches : Latches) (kind : NodeKind K V)
          → q.kind ≡ kind
          → IsActive q
          → (a ≢ t.root → minimum n kind < occupancy kind)
          → Round n m k level t (attempt_kind n t latches a q kind k)
      unfolding attempt_kind minimum occupancy Leaf.search
      kind-Round latches (leaf contents) is active room =
          at_leaf contents is room (search_entries contents.entries k) (
            search_entries-Answers contents.entries k
              (shape inv a q contents at is m rep k owns).sorted)
      kind-Round latches (internal node) is active room =
          let (l, above, s) = rw is at (inv.page a q at).kind in
          let (i, c, selects, child_at, splits, owned) =
            child-Owns q.low_key q.high_key node k s owns in
          let (t', r, run, attempted) =
            child-Round latches node is room i (lt_of_get_elem? node.children i c child_at) in
          (t', r, rw selects run, attempted)
      kind-Round latches (redirect b) is active room = absurd (let h = rw is at active in cc)

      here-Round :
          (latches : Latches)
          → IsActive q
          → Round n m k level t (attempt_route n t latches a q k here)
      unfolding attempt_route
      here-Round latches active =
          let role = (inv.page a q at).root_role in
          elim (Bool-cases (not q.is_root && leb (occupancy q.kind) (minimum n q.kind))) [
            | inl low ↦ (t, retry, rw low refl, again)
            | inr enough ↦
                let (t', r, run, attempted) =
                  kind-Round latches q.kind refl active (λ other. ground (arith, role)) in
                (t', r, rw enough run, attempted)
          ]

  route-Round :
      (latches : Latches) (a : Addr) (q : Node K V) (r : Route)
      → Page t a q
      → Routed t q k r
      → Round n m k level t (attempt_route n t latches a q k r)
  unfolding attempt_route
  route-Round latches a q restart at routed = (t, retry, refl, again)
  route-Round latches a q (to_right b) at routed = (
    t,
    descend b none,
    refl,
    Rebalance.unchanged n m k inv rep (descend b none) (rep, routed, tt),
  )
  route-Round latches a q here at routed = here-Round a q at routed.1 latches routed.0

  -- In a tree in order that stands for the map `m`, a round of `remove_attempt` at any page
  -- returns, whichever latches it gets. The tree stays in order and has as many pages; either the
  -- round is finished with the value that `m` had, and the tree stands for `m` without the key, or
  -- the tree still stands for `m`, and the loop starts again or goes on at a page of the tree; if a
  -- link is to be repaired first, the retired page forwards to the survivor.
  pub remove_attempt-Attempted :
      (latches : Latches) (a : Addr)
      → a < length t.pages
      → (t' : Tree K V) × (r : RemoveRound V) × (remove_attempt n t latches a k ≡ ok (t', r))
        × Attempted n m k level t t' r
  unfolding remove_attempt
  remove_attempt-Attempted latches a valid =
      let (q, at) = get_elem?-lt t.pages a valid in
      let (route, routes, routed) = route-Routed a q k (inv.page a q at) in
      let (t', r, run, attempted) = route-Round latches a q route at routed in
      (t', r, rw (at, routes) run, attempted)

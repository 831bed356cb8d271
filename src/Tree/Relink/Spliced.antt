-- ===== src/Tree/Relink/Spliced.antt =====
-- The rounds of `repair_merged_link` of src/node.rs, whatever other threads did since the merge.
use b_link.Prelude.{
  ◌>>=◌, ℕ, ◌<◌, ◌≡◌, refl, sym, ap, ◌∙◌, subst, inl, inr, Bool, true, false, Option, none, some,
  arith, ◌==◌, Bool-cases, length, get_elem?-lt, lt_of_get_elem?, ok,
}
use b_link.Ord.{Ord}
use b_link.Node.{Addr, NodeKind, internal, leaf, redirect, Node, MergeRepair}
use b_link.Tree.{Tree, store}
use b_link.Tree.Insert.Backlink.{Repaired, skipped-Repaired}
use b_link.Tree.Invariant.{Page, IsActive, Inv}
use b_link.Tree.Invariant.Contents.{Represents}
use b_link.Tree.Invariant.Pages.{store-new}
use b_link.Tree.Invariant.Routing.{right-lt}
use b_link.Tree.Relink.{
  RelinkRound, spliced, walk_on, forwarded, leftmost, upgrade, unwrap_or, set_previous, pass_by,
  relink_next, relink_kind, relink, attach_forwarded, unlink_survivor, begin_relink,
}
use b_link.Tree.Relink.Splices.{
  Splices, walks_to, Spliced, still, only, elsewhere, and_then, set_previous-Repaired,
  attach-Spliced,
}

module _ {K V : Type 0} ⦃o : Ord K⦄ {n : ℕ} {level : Addr → ℕ} (m : K → Option V) where
  module _ {t : Tree K V} (inv : Inv n t level) (rep : Represents t m) (repair : MergeRepair)
      (splices : Splices t repair) (cursor : Addr) (node : Node K V) (at : Page t cursor node) where
    cursor_inside : cursor < length t.pages
    cursor_inside = lt_of_get_elem? t.pages cursor node at

    at_end : Spliced m inv rep (relink_next t repair cursor node none)
    unfolding relink_next Spliced
    at_end = (t, leftmost, refl, still m inv rep none (λ b e. absurd cc))

    module _ (active : IsActive node) (next : Addr) (right : node.right ≡ some next) where
      next_inside : next < length t.pages
      next_inside =
          right-lt t level (level cursor) node.high_key node.right
            ((inv.page cursor node at).successor active) next right

      -- The link to the retired page is moved on to the survivor.
      at_retired :
          next ≡ repair.retired
          → (next == repair.retired) ≡ true
          → Spliced m inv rep (relink_next t repair cursor node (some next))
      unfolding relink_next Spliced
      at_retired same test =
          let moved =
            skipped-Repaired inv m rep cursor node at next right active splices.page
              (subst (λ x. Page t x splices.page) (sym same) splices.at) repair.survivor
              splices.forwards in
          let node' : Node K V = record node { right = some repair.survivor } in
          let (y, y_at) =
            get_elem?-lt (store t cursor node').pages repair.survivor
              (omega (arith, moved.same_pages, splices.survives)) in
          let (t', onward, run, repaired) =
            attach-Spliced m moved.ordered moved.stands_for cursor node'
              (store-new t cursor node' cursor_inside) active repair.survivor y refl y_at
              (λ target. target) (λ target valid. valid) y.kind refl in
          (t', onward, rw (test, y_at) run, and_then m inv rep moved repaired)

      at_survivor :
          next ≡ repair.survivor
          → (next == repair.retired) ≡ false
          → (next == repair.survivor) ≡ true
          → Spliced m inv rep (relink_next t repair cursor node (some next))
      unfolding relink_next Spliced
      at_survivor same test test' =
          let (y, y_at) = get_elem?-lt t.pages repair.survivor splices.survives in
          let (t', onward, run, repaired) =
            attach-Spliced m inv rep cursor node at active repair.survivor y
              (right ∙ ap (λ (x : Addr). some x) same) y_at (λ target. cursor)
              (λ target valid. cursor_inside) y.kind refl in
          (t', onward, rw (test, test', y_at) run, repaired)

      pass_by-Spliced :
          (z : Node K V)
          → Page t next z
          → (kind : NodeKind K V) → z.kind ≡ kind
          → Spliced m inv rep (pass_by t cursor node next repair.survivor kind)
      unfolding pass_by Spliced
      pass_by-Spliced z z_at (leaf contents) is =
          (t, walk_on next, refl, still m inv rep (some next) (only m inv rep next next_inside))
      pass_by-Spliced z z_at (internal inner) is =
          (t, walk_on next, refl, still m inv rep (some next) (only m inv rep next next_inside))
      pass_by-Spliced z z_at (redirect target) is =
          let moved =
            skipped-Repaired inv m rep cursor node at next right active z z_at target is in
          let ahead = only m inv rep cursor cursor_inside in
          elim (Bool-cases (target == repair.survivor)) [
            | inl same ↦ (
              store t cursor (record node { right = some target }),
              forwarded cursor,
              rw same refl,
              elsewhere m inv rep moved (some cursor) ahead,
            )
            | inr other ↦ (
              store t cursor (record node { right = some target }),
              walk_on cursor,
              rw other refl,
              elsewhere m inv rep moved (some cursor) ahead,
            )
          ]

      next-Spliced : Spliced m inv rep (relink_next t repair cursor node (some next))
      unfolding relink_next Spliced
      next-Spliced = elim (Bool-cases (next == repair.retired)) [
        | inl same ↦ at_retired (ground arith) same
        | inr other ↦ elim (Bool-cases (next == repair.survivor)) [
          | inl same ↦ at_survivor (ground arith) other same
          | inr other' ↦
              let (z, z_at) = get_elem?-lt t.pages next next_inside in
              let (t', onward, run, repaired) = pass_by-Spliced z z_at z.kind refl in
              (t', onward, rw (other, other', z_at) run, repaired)
        ]
      ]

    right-Spliced :
        IsActive node
        → (right : Option Addr) → node.right ≡ right
        → Spliced m inv rep (relink_next t repair cursor node right)
    right-Spliced active none is = at_end
    right-Spliced active (some next) is = next-Spliced active next is

    kind-Spliced :
        (alive : Addr → Bool) (kind : NodeKind K V)
        → node.kind ≡ kind
        → Spliced m inv rep (relink_kind alive t repair cursor node kind)
    unfolding relink_kind Spliced
    kind-Spliced alive (leaf contents) is = right-Spliced (rw is) node.right refl
    kind-Spliced alive (internal inner) is = right-Spliced (rw is) node.right refl
    kind-Spliced alive (redirect target) is = (
      t,
      walk_on (unwrap_or (upgrade alive node.previous) target),
      refl,
      still m inv rep (some (unwrap_or (upgrade alive node.previous) target)) (
          only m inv rep (unwrap_or (upgrade alive node.previous) target)
            (back node.previous refl)),
    )
      where
        page_inside : target < length t.pages
        page_inside = rw is at (inv.page cursor node at).kind

        back :
            (previous : Option Addr)
            → node.previous ≡ previous
            → unwrap_or (upgrade alive previous) target < length t.pages
        back none e = page_inside
        back (some b) e = elim (Bool-cases (alive b)) [
          | inl here ↦ rw here ((inv.page cursor node at).predecessor b e)
          | inr gone ↦ rw gone page_inside
        ]

  module _ {t : Tree K V} (inv : Inv n t level) (rep : Represents t m) (repair : MergeRepair)
      (splices : Splices t repair) (alive : Addr → Bool) where
    attach_forwarded-Spliced :
        (cursor : Addr)
        → cursor < length t.pages
        → Spliced m inv rep (attach_forwarded t repair cursor)
    unfolding attach_forwarded Spliced
    attach_forwarded-Spliced cursor valid =
        let (y, at) = get_elem?-lt t.pages repair.survivor splices.survives in
        let (t', next, run, repaired) = go y.kind in (t', next, rw at run, repaired)
      where
        ahead : (b : Addr) → some cursor ≡ some b → b < length t.pages
        ahead = only m inv rep cursor valid

        last :
            Spliced m inv rep (do t ← set_previous t repair.survivor (some cursor); ok (t, spliced))
        last =
            let (t', run, repaired) =
              set_previous-Repaired m inv rep repair.survivor (some cursor) splices.survives
                ahead in
            (t', spliced, rw run refl, repaired)

        go :
            (kind : NodeKind K V)
            → Spliced m inv rep (elim kind [
              | redirect _ ↦ ok (t, walk_on cursor)
              | _ ↦ do t ← set_previous t repair.survivor (some cursor); ok (t, spliced)
            ])
        go (redirect target) = (t, walk_on cursor, refl, still m inv rep (some cursor) ahead)
        go (leaf contents) = last
        go (internal inner) = last

    unlink_survivor-Spliced : Spliced m inv rep (unlink_survivor t repair)
    unfolding unlink_survivor Spliced
    unlink_survivor-Spliced =
        let (t', run, repaired) =
          set_previous-Repaired m inv rep repair.survivor none splices.survives
            (λ b e. absurd cc) in
        (t', spliced, rw run refl, repaired)

    -- In a tree in order that stands for the map `m`, a critical section of `repair_merged_link` at
    -- any page, after any merge, returns, whichever weak references are alive; the tree stays in
    -- order and stands for `m`, and the walk goes on at a page of the tree, if it does.
    pub relink-Repaired :
        (round : RelinkRound)
        → ((b : Addr) → walks_to round ≡ some b → b < length t.pages)
        → (t' : Tree K V) × (next : RelinkRound) × (relink alive t repair round ≡ ok (t', next))
          × Repaired inv m rep t' (walks_to next)
    unfolding relink Spliced
    relink-Repaired spliced ahead = (t, spliced, refl, still m inv rep none (λ b e. absurd cc))
    relink-Repaired (walk_on cursor) ahead =
        let (node, at) = get_elem?-lt t.pages cursor (ahead cursor refl) in
        let (t', next, run, repaired) =
          kind-Spliced inv rep repair splices cursor node at alive node.kind refl in
        (t', next, rw at run, repaired)
    relink-Repaired (forwarded cursor) ahead = attach_forwarded-Spliced cursor (ahead cursor refl)
    relink-Repaired leftmost ahead = unlink_survivor-Spliced

    pub begin_relink-Repaired :
        (t' : Tree K V) × (round : RelinkRound) × (begin_relink alive t repair ≡ ok (t', round))
        × Repaired inv m rep t' (walks_to round)
    unfolding begin_relink Spliced
    begin_relink-Repaired = go repair.predecessor refl
      where
        go :
            (predecessor : Option Addr)
            → repair.predecessor ≡ predecessor
            → Spliced m inv rep (begin_relink alive t repair)
        go none is =
            let (t', next, run, repaired) = unlink_survivor-Spliced in
            (t', next, rw is run, repaired)
        go (some b) is = elim (Bool-cases (alive b)) [
          | inl here ↦ (
            t,
            walk_on b,
            rw (is, begin_relink, here) refl,
            still m inv rep (some b) (only m inv rep b (splices.precedes b is)),
          )
          | inr gone ↦
              let (t', next, run, repaired) = unlink_survivor-Spliced in
              (t', next, rw (is, begin_relink, gone) run, repaired)
        ]

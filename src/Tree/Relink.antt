-- ===== src/Tree/Relink.antt =====
-- src/node.rs: `repair_merged_link`, which splices a retired page out of its sibling chain.
pub mod Splices
pub mod Spliced
mod Tests
use b_link.Prelude.{Bool, Option, none, some, ◌==◌, if◌then◌else◌, Run, ok, ◌>>=◌}
use b_link.Node.{Addr, NodeKind, redirect, Node, MergeRepair}
use b_link.Tree.{Tree, load, store}

-- `Weak::upgrade`: a page whose last strong reference is gone gives nothing. Which weak references
-- are still alive is left to `alive`.
abbrev pub upgrade : (alive : Addr → Bool) → Option Addr → Option Addr
upgrade alive none = none
upgrade alive (some a) = if alive a then some a else none

abbrev pub unwrap_or : Option Addr → Addr → Addr
unwrap_or none b = b
unwrap_or (some a) b = a

-- Where the walk stands between two critical sections: it is over; or a round begins at a page; or
-- the right link of the cursor was moved on to the survivor, which is not latched yet; or the walk
-- came to the end of the chain, and the survivor is not latched yet.
pub data RelinkRound : Type 0 where
  spliced : RelinkRound
  walk_on : (cursor : Addr) → RelinkRound
  forwarded : (cursor : Addr) → RelinkRound
  leftmost : RelinkRound

module _ {K V : Type 0} where
  unfoldable pub set_previous : Tree K V → Addr → Option Addr → Run (Tree K V)
  set_previous t a previous = do
    node ← load t a
    ok (store t a (record node { previous = previous }))

  -- The incoming link is found: the survivor's backlink, unless it was retired in turn. Then the
  -- walk goes on at the given page.
  unfoldable pub attach :
      Tree K V
      → (cursor : Addr) → Node K V
      → (survivor : Addr) → NodeKind K V
      → (resume : Addr → Addr) → Run (Tree K V × RelinkRound)
  attach t cursor node survivor (redirect target) resume =
      ok (store t cursor (record node { right = some target }), walk_on (resume target))
  attach t cursor node survivor kind resume = do
    t ← set_previous t survivor (some cursor)
    ok (t, spliced)

  -- `next` is a page of the chain that is neither the retired page nor the survivor.
  unfoldable pub pass_by :
      Tree K V
      → (cursor : Addr) → Node K V
      → (next survivor : Addr) → NodeKind K V
      → Run (Tree K V × RelinkRound)
  pass_by t cursor node next survivor (redirect target) = ok (
    store t cursor (record node { right = some target }),
    if target == survivor then forwarded cursor else walk_on cursor,
  )
  pass_by t cursor node next survivor kind = ok (t, walk_on next)

  unfoldable pub relink_next :
      Tree K V → MergeRepair → Addr → Node K V → Option Addr → Run (Tree K V × RelinkRound)
  relink_next t repair cursor node none = ok (t, leftmost)
  relink_next t repair cursor node (some next) =
      if next == repair.retired
      then (do
        let node' : Node K V = record node { right = some repair.survivor }
        let t' = store t cursor node'
        survivor ← load t' repair.survivor
        attach t' cursor node' repair.survivor survivor.kind (λ target. target))
      else if next == repair.survivor
      then (do
        survivor ← load t repair.survivor
        attach t cursor node repair.survivor survivor.kind (λ target. cursor))
      else (do following ← load t next; pass_by t cursor node next repair.survivor following.kind)

  unfoldable pub relink_kind :
      (alive : Addr → Bool)
      → Tree K V
      → MergeRepair
      → Addr
      → Node K V
      → NodeKind K V
      → Run (Tree K V × RelinkRound)
  relink_kind alive t repair cursor node (redirect target) =
      ok (t, walk_on (unwrap_or (upgrade alive node.previous) target))
  relink_kind alive t repair cursor node kind = relink_next t repair cursor node node.right

  -- The rest of the round of `pass_by`: the latch of the page that was passed by is dropped before
  -- the survivor is latched.
  unfoldable pub attach_forwarded : Tree K V → MergeRepair → Addr → Run (Tree K V × RelinkRound)
  unfolding set_previous
  attach_forwarded t repair cursor = do
    survivor ← load t repair.survivor
    elim survivor.kind [
      | redirect _ ↦ ok (t, walk_on cursor)
      | _ ↦ do t ← set_previous t repair.survivor (some cursor); ok (t, spliced)
    ]

  -- The end of the walk where no page is left of the survivor: the latch of the cursor is dropped
  -- before the survivor is latched.
  unfoldable pub unlink_survivor : Tree K V → MergeRepair → Run (Tree K V × RelinkRound)
  unfolding set_previous
  unlink_survivor t repair = do t ← set_previous t repair.survivor none; ok (t, spliced)

  -- A critical section of the loop of `repair_merged_link`.
  unfoldable pub relink :
      (alive : Addr → Bool) → Tree K V → MergeRepair → RelinkRound → Run (Tree K V × RelinkRound)
  unfolding relink_kind relink_next pass_by attach set_previous attach_forwarded unlink_survivor
  relink alive t repair spliced = ok (t, spliced)
  relink alive t repair (walk_on cursor) = do
    node ← load t cursor
    relink_kind alive t repair cursor node node.kind
  relink alive t repair (forwarded cursor) = attach_forwarded t repair cursor
  relink alive t repair leftmost = unlink_survivor t repair

  -- The start of `repair_merged_link`: the page from which the walk begins.
  unfoldable pub begin_relink :
      (alive : Addr → Bool) → Tree K V → MergeRepair → Run (Tree K V × RelinkRound)
  unfolding unlink_survivor
  begin_relink alive t repair = elim (upgrade alive repair.predecessor) [
    | some cursor ↦ ok (t, walk_on cursor)
    | none ↦ unlink_survivor t repair
  ]

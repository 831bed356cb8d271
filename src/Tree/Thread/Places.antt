-- ===== src/Tree/Thread/Places.antt =====
-- The places of a call of src/node.rs before it takes effect, and after that.
use b_link.Prelude.{◌<◌, ◌≡◌, Option, some, length}
use b_link.Node.{Addr, MergeRepair}
use b_link.Tree.{Tree}
use b_link.Tree.Relink.{RelinkRound}
use b_link.Tree.Relink.Splices.{Splices, walks_to}
use b_link.Tree.Thread.{
  Call, insert, remove, Pc, grow, grow_link, start_insert, insert_at, insert_link, shrink,
  start_remove, remove_at, begin_link, link, final_shrink, returned,
}
use b_link.Tree.Thread.Fast.{Traverses, GoesOn, traverses, grows, shrinks}

module _ {K V : Type 0} where
  -- A place in a traversal, or in the loop of `insert` or `remove`; what it refers to is in the tree.
  pub data Moves (t : Tree K V) : Call K V → Pc K V → Type 0 where
    travels : {c : Call K V} {pc : Pc K V} → Traverses t c pc → Moves t c pc
    splits_root : {k : K} {v : V} → Moves t (insert k v) (grow k v)
    links_root :
        {k : K} {v : V} {a r : Addr}
        → a < length t.pages
        → r < length t.pages
        → Moves t (insert k v) (grow_link k v a r)
    begins : {k : K} {v : V} → Moves t (insert k v) (start_insert k v)
    attempts :
        {k : K} {v : V} {a : Addr} → a < length t.pages → Moves t (insert k v) (insert_at k v a)
    links :
        {k : K} {v : V} {target a r : Addr}
        → target < length t.pages
        → a < length t.pages
        → r < length t.pages
        → Moves t (insert k v) (insert_link k v target a r)
    shrinks_root : {k : K} → Moves t (remove k) (shrink k)
    begins_remove : {k : K} → Moves t (remove k) (start_remove k)
    removes : {k : K} {a : Addr} → a < length t.pages → Moves t (remove k) (remove_at k a)
    begins_link :
        {k : K} {target : Addr} {repair : MergeRepair}
        → target < length t.pages
        → Splices t repair
        → Moves t (remove k) (begin_link k target repair)
    links_merge :
        {k : K} {target : Addr} {repair : MergeRepair} {round : RelinkRound}
        → target < length t.pages
        → Splices t repair
        → ((b : Addr) → walks_to round ≡ some b → b < length t.pages)
        → Moves t (remove k) (link k target repair round)

  -- A call that took effect, with its result: it has returned, or a `remove` shrinks the root before
  -- it returns.
  pub data Took : Pc K V → Option V → Type 0 where
    closing : {r : Option V} → Took (final_shrink r) r
    closed : {r : Option V} → Took (returned r) r

  pub GoesOn-Moves : (t : Tree K V) {c : Call K V} {pc : Pc K V} → GoesOn t c pc → Moves t c pc
  GoesOn-Moves t (traverses h) = travels h
  GoesOn-Moves t grows = splits_root
  GoesOn-Moves t shrinks = shrinks_root

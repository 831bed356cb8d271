-- ===== src/Tree/Thread/Turns.antt =====
-- The turns of `get`, `insert` and `remove` of src/node.rs, with other threads in between, the
-- structural changes and the repairs of links included.
use b_link.Prelude.{
  ℕ, ◌≤◌, ◌≡◌, refl, inl, Bool, true, false, Option, none, some, arith, if◌then◌else◌, length, ok,
}
use b_link.Ord.{Ord}
use b_link.Node.{Addr}
use b_link.Tree.{Tree}
use b_link.Tree.Insert.Attempt.{insert_attempt-Attempted}
use b_link.Tree.Insert.Backlink.{repair_split_backlink-Repaired}
use b_link.Tree.Insert.Grow.Round.{split_root_if_full-Grows}
use b_link.Tree.Relink.Splices.{walks_to}
use b_link.Tree.Relink.Spliced.{relink-Repaired, begin_relink-Repaired}
use b_link.Tree.Remove.Attempt.{remove_attempt-Attempted}
use b_link.Tree.Remove.Collapsed.{shrink_root-Shrunk}
use b_link.Tree.Thread.{
  Call, insert, remove, Pc, grow_link, start_insert, insert_at, insert_link, shrink, start_remove,
  remove_at, final_shrink, returned, Surroundings, turn, after_grow, after_insert, after_remove,
  after_link,
}
use b_link.Tree.Thread.Fast.{turn-TakesTurn}
use b_link.Tree.Invariant.{Inv}
use b_link.Tree.Invariant.Contents.{Represents}
use b_link.Tree.Invariant.Frame.{Redirects, Redirects-refl}
use b_link.Tree.Thread.Places.{
  Moves, travels, splits_root, links_root, begins, attempts, links, shrinks_root, begins_remove,
  removes, begins_link, links_merge, Took, closing, closed,
}
use b_link.Tree.Thread.Effects.{
  Turned, TakesTurn-Turned, after_grow-Turned, after_insert-Turned, Repaired-Turned, root_links,
  child_links, after_remove-Turned, after_link-Moves, Shrunk-Turned, shrink_next, root_inside,
}

module _ {K V : Type 0} ⦃o : Ord K⦄ where
  module _ {n : ℕ} {t : Tree K V} {level : Addr → ℕ} (inv : Inv n t level) (m : K → Option V)
      (rep : Represents t m) where
    pub record Closed (t' : Tree K V) (pc : Pc K V) (r : Option V) : Type 0 where
      pub ordered : Inv n t' level
      pub stands_for : Represents t' m
      pub bigger : length t.pages ≤ length t'.pages
      pub keeps : Redirects t t'
      pub took : Took pc r

    close_next :
        (r : Option V) (more : Bool) → Took {K = K} (if more then final_shrink r else returned r) r
    close_next r true = closing
    close_next r false = closed

    -- A turn of a removal that has taken effect changes nothing in the map.
    pub close-Closed :
        (env : Surroundings) (r : Option V)
        → (t' : Tree K V) × (pc : Pc K V) × (turn n env t (final_shrink r) ≡ ok (t', pc))
          × Closed t' pc r
    unfolding turn
    close-Closed env r =
        let (t', more, run, result) = shrink_root-Shrunk inv m rep in
        (
          t',
          if more then final_shrink r else returned r,
          rw run refl,
          record {
            ordered = result.ordered;
            stands_for = result.stands_for;
            bigger = (let same = result.same_pages in omega (arith, same));
            keeps = result.keeps;
            took = close_next r more;
          },
        )

    -- In a tree in order that stands for the map `m`, a turn of a `get`, an `insert` or a `remove`
    -- that has not taken effect returns, whatever the surroundings decide, and leaves a tree in
    -- order. The tree stands for `m` and the call goes on at pages of the tree, or it stands for
    -- what the call makes of `m`, and the result of the call is the value of `m`.
    pub turn-Turned :
        (env : Surroundings) {c : Call K V} {pc : Pc K V}
        → Moves t c pc
        → (t' : Tree K V) × (pc' : Pc K V) × (turn n env t pc ≡ ok (t', pc'))
          × Turned n t m c t' pc'
    unfolding turn
    turn-Turned env {c} (travels h) =
        let (t', pc', run, taken) = turn-TakesTurn inv m rep env c h in
        (t', pc', run, TakesTurn-Turned inv m rep c t' pc' taken)
    turn-Turned env (splits_root {k} {v}) =
        let (t', r, run, result) = split_root_if_full-Grows inv m rep in
        (t', after_grow k v r, rw run refl, after_grow-Turned inv m rep k v t' r result)
    turn-Turned env (links_root {k} {v} {a} {r} valid valid') =
        let (t', next, run, result) = repair_split_backlink-Repaired inv m rep a r valid valid' in
        (
          t',
          elim next [ none ↦ start_insert k v | some b ↦ grow_link k v a b ],
          rw run refl,
          Repaired-Turned inv m rep (insert k v) t' next _ result
              (root_links inv m rep k v t' a next valid result),
        )
    turn-Turned env (begins {k} {v}) = (
      t,
      insert_at k v t.root,
      refl,
      record {
        level = level;
        ordered = inv;
        bigger = omega arith;
        keeps = Redirects-refl t;
        effective = inl (rep, attempts (root_inside inv m rep));
      },
    )
    turn-Turned env (attempts {k} {v} {a} valid) =
        let (t', r, run, result) =
          insert_attempt-Attempted n m k v inv rep env.try_locked a valid in
        (t', after_insert k v r, rw run refl, after_insert-Turned inv m rep k v t' r result)
    turn-Turned env (links {k} {v} {target} {a} {r} ahead valid valid') =
        let (t', next, run, result) = repair_split_backlink-Repaired inv m rep a r valid valid' in
        (
          t',
          elim next [ none ↦ insert_at k v target | some b ↦ insert_link k v target a b ],
          rw run refl,
          Repaired-Turned inv m rep (insert k v) t' next _ result
              (child_links inv m rep k v t' target a next ahead valid result),
        )
    turn-Turned env (shrinks_root {k}) =
        let (t', more, run, result) = shrink_root-Shrunk inv m rep in
        (
          t',
          if more then shrink k else start_remove k,
          rw run refl,
          Shrunk-Turned inv m rep (remove k) t' _ result (shrink_next inv m rep k t' more),
        )
    turn-Turned env (begins_remove {k}) = (
      t,
      remove_at k t.root,
      refl,
      record {
        level = level;
        ordered = inv;
        bigger = omega arith;
        keeps = Redirects-refl t;
        effective = inl (rep, removes (root_inside inv m rep));
      },
    )
    turn-Turned env (removes {k} {a} valid) =
        let (t', r, run, result) = remove_attempt-Attempted n m k inv rep env.latches a valid in
        (t', after_remove k r, rw run refl, after_remove-Turned inv m rep k t' r result)
    turn-Turned env (begins_link {k} {target} {repair} valid splices) =
        let (t', round, run, result) = begin_relink-Repaired m inv rep repair splices env.alive in
        (
          t',
          after_link k target repair round,
          rw run refl,
          Repaired-Turned inv m rep (remove k) t' (walks_to round) _ result
              (after_link-Moves inv m rep k t' target repair round valid splices result),
        )
    turn-Turned env (links_merge {k} {target} {repair} {round} valid splices ahead) =
        let (t', next, run, result) =
          relink-Repaired m inv rep repair splices env.alive round ahead in
        (
          t',
          after_link k target repair next,
          rw run refl,
          Repaired-Turned inv m rep (remove k) t' (walks_to next) _ result
              (after_link-Moves inv m rep k t' target repair next valid splices result),
        )

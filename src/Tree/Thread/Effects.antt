-- ===== src/Tree/Thread/Effects.antt =====
-- What the rounds of `get`, `insert` and `remove` of src/node.rs are as turns of a call.
use b_link.Prelude.{
  ℕ, ◌≤◌, ◌<◌, refl, sym, subst, inl, inr, ◌⊎◌, Bool, true, false, Option, none, some, arith,
  if◌then◌else◌, length, lt_of_get_elem?,
}
use b_link.Ord.{Ord}
use b_link.Node.{Addr, MergeRepair}
use b_link.Tree.{Tree}
use b_link.Tree.Insert.{InsertRound, GrowRound, redirected, unneeded, grown}
use b_link.Tree.Insert.Attempt.{Attempted, Means}
use b_link.Tree.Insert.Backlink.{Repaired}
use b_link.Tree.Insert.Grow.Round.{Grows, LinkIn}
use b_link.Tree.Relink.{RelinkRound, spliced, walk_on, forwarded, leftmost}
use b_link.Tree.Relink.Splices.{Splices, walks_to, Splices-later}
use b_link.Tree.Remove.{RemoveRound}
use b_link.Tree.Remove.Collapsed.{Shrunk}
use b_link.Tree.Remove.Rebalance as Removal
use b_link.Tree.Thread.{
  Call, insert, remove, Pc, grow_link, start_insert, insert_at, insert_link, shrink, start_remove,
  link, final_shrink, returned, call_key, after_grow, after_insert, after_remove, after_link,
}
use b_link.Tree.Thread.Fast.{effect, TakesTurn}
use b_link.Tree.Invariant.{Inv}
use b_link.Tree.Invariant.Contents.{Represents}
use b_link.Tree.Invariant.Frame.{Redirects, Redirects-refl}
use b_link.Tree.Thread.Places.{
  Moves, splits_root, links_root, begins, attempts, links, shrinks_root, begins_remove, removes,
  begins_link, links_merge, Took, closing, closed, GoesOn-Moves,
}

module _ {K V : Type 0} ⦃o : Ord K⦄ where
  -- A turn from `t` to `t'` in a tree that stands for `m`: the tree is in order, and it stands for
  -- `m`, or for what the call makes of `m`, with the result that `m` gives.
  pub record Turned (n : ℕ) (t : Tree K V) (m : K → Option V) (c : Call K V) (t' : Tree K V)
      (pc : Pc K V) : Type 0 where
    pub level : Addr → ℕ
    pub ordered : Inv n t' level
    pub bigger : length t.pages ≤ length t'.pages
    pub keeps : Redirects t t'
    pub effective :
        (Represents t' m × Moves t' c pc) ⊎ (Represents t' (effect c m) × Took pc (m (call_key c)))

  module _ {n : ℕ} {t : Tree K V} {level : Addr → ℕ} (inv : Inv n t level) (m : K → Option V)
      (rep : Represents t m) where
    pub TakesTurn-Turned :
        (c : Call K V) (t' : Tree K V) (pc : Pc K V)
        → TakesTurn n level t m c t' pc
        → Turned n t m c t' pc
    TakesTurn-Turned c t' pc (inl (same, goes)) = rw same (record {
      level = level;
      ordered = inv;
      bigger = omega arith;
      keeps = Redirects-refl t;
      effective = inl (rep, GoesOn-Moves t goes);
    })
    TakesTurn-Turned c t' pc (inr (ordered, stands_for, size, keeps, e)) = record {
      level = level;
      ordered = ordered;
      bigger = omega (arith, size);
      keeps = keeps;
      effective = inr (stands_for, subst (λ x. Took x (m (call_key c))) (sym e) closed);
    }

    pub after_grow-Turned :
        (k : K) (v : V) (t' : Tree K V) (r : GrowRound)
        → Grows inv m rep t' r
        → Turned n t m (insert k v) t' (after_grow k v r)
    unfolding after_grow
    after_grow-Turned k v t' r result = record {
      level = result.heights;
      ordered = result.ordered;
      bigger = result.grows;
      keeps = result.keeps;
      effective = inl (result.stands_for, next r result.link);
    }
      where
        next : (r : GrowRound) → LinkIn t' r → Moves t' (insert k v) (after_grow k v r)
        next redirected there = splits_root
        next unneeded there = begins
        next (grown a none) there = begins
        next (grown a (some b)) there = links_root there.0 (there.1 b refl)

    pub after_insert-Turned :
        (k : K) (v : V) (t' : Tree K V) (r : InsertRound V)
        → Attempted n m k v t t' r
        → Turned n t m (insert k v) t' (after_insert k v r)
    unfolding after_insert
    after_insert-Turned k v t' r result = record {
      level = result.heights;
      ordered = result.ordered;
      bigger = result.grows;
      keeps = result.keeps;
      effective = next r result.means;
    }
      where
        next :
            (r : InsertRound V)
            → Means n m k v t' r
            → (Represents t' m × Moves t' (insert k v) (after_insert k v r))
              ⊎ (Represents t' (effect (insert k v) m) × Took {K = K} (after_insert k v r) (m k))
        next (InsertRound.finished replaced) (same, stands_for) =
            inr (stands_for, subst (λ x. Took {K = K} (returned replaced) x) same closed)
        next InsertRound.retry stands_for = inl (stands_for, splits_root)
        next (InsertRound.descend target none) (stands_for, valid, repair) =
            inl (stands_for, attempts valid)
        next (InsertRound.descend target (some (a, none))) (stands_for, valid, repair) =
            inl (stands_for, attempts valid)
        next (InsertRound.descend target (some (a, some b))) (stands_for, valid, repair) =
            inl (stands_for, links valid repair.0 (repair.1 b refl))

    pub Repaired-Turned :
        (c : Call K V) (t' : Tree K V) (next : Option Addr) (pc : Pc K V)
        → Repaired inv m rep t' next
        → Moves t' c pc
        → Turned n t m c t' pc
    Repaired-Turned c t' next pc result onward = record {
      level = level;
      ordered = result.ordered;
      bigger = (let same = result.same_pages in omega (arith, same));
      keeps = result.keeps;
      effective = inl (result.stands_for, onward);
    }

    pub root_links :
        (k : K) (v : V) (t' : Tree K V) (a : Addr) (next : Option Addr)
        → a < length t.pages
        → Repaired inv m rep t' next
        → Moves t' (insert k v) (elim next [ none ↦ start_insert k v | some b ↦ grow_link k v a b ])
    root_links k v t' a none valid result = begins
    root_links k v t' a (some b) valid result =
        let same = result.same_pages in
        links_root (omega (arith, same, valid)) (omega (arith, same, result.onward b refl))

    pub child_links :
        (k : K) (v : V) (t' : Tree K V) (target a : Addr) (next : Option Addr)
        → target < length t.pages
        → a < length t.pages
        → Repaired inv m rep t' next
        → Moves t'
            (insert k v)
            (elim next [ none ↦ insert_at k v target | some b ↦ insert_link k v target a b ])
    child_links k v t' target a none ahead valid result =
        let same = result.same_pages in attempts (omega (arith, same, ahead))
    child_links k v t' target a (some b) ahead valid result =
        let same = result.same_pages in
        links (omega (arith, same, ahead)) (omega (arith, same, valid))
          (omega (arith, same, result.onward b refl))

    pub root_inside : t.root < length t.pages
    root_inside = lt_of_get_elem? t.pages t.root inv.root.page inv.root.at

    pub after_remove-Turned :
        (k : K) (t' : Tree K V) (r : RemoveRound V)
        → Removal.Attempted n m k level t t' r
        → Turned n t m (remove k) t' (after_remove k r)
    unfolding after_remove
    after_remove-Turned k t' r result = record {
      level = level;
      ordered = result.ordered;
      bigger = (let same = result.same_pages in omega (arith, same));
      keeps = result.keeps;
      effective = next r result.means;
    }
      where
        next :
            (r : RemoveRound V)
            → Removal.Means n m k t' r
            → (Represents t' m × Moves t' (remove k) (after_remove k r))
              ⊎ (Represents t' (effect (remove k) m) × Took {K = K} (after_remove k r) (m k))
        next (RemoveRound.finished removed) (same, stands_for) =
            inr (stands_for, subst (λ x. Took {K = K} (final_shrink removed) x) same closing)
        next RemoveRound.retry stands_for = inl (stands_for, shrinks_root)
        next (RemoveRound.descend target none) (stands_for, valid, repair) =
            inl (stands_for, removes valid)
        next (RemoveRound.descend target (some repair)) (stands_for, valid, splices) =
            inl (stands_for, begins_link valid splices)

    walks_on :
        (k : K) (t' : Tree K V) (target : Addr) (repair : MergeRepair) (round : RelinkRound)
        → target < length t.pages
        → Splices t repair
        → Repaired inv m rep t' (walks_to round)
        → Moves t' (remove k) (link k target repair round)
    walks_on k t' target repair round valid splices result =
        let same = result.same_pages in
        links_merge (omega (arith, same, valid))
          (Splices-later t t' repair (omega (arith, same)) result.keeps splices)
          (λ b e. omega (arith, same, result.onward b e))

    pub after_link-Moves :
        (k : K) (t' : Tree K V) (target : Addr) (repair : MergeRepair) (round : RelinkRound)
        → target < length t.pages
        → Splices t repair
        → Repaired inv m rep t' (walks_to round)
        → Moves t' (remove k) (after_link k target repair round)
    unfolding after_link
    after_link-Moves k t' target repair spliced valid splices result =
        let same = result.same_pages in removes (omega (arith, same, valid))
    after_link-Moves k t' target repair (walk_on cursor) valid splices result =
        walks_on k t' target repair (walk_on cursor) valid splices result
    after_link-Moves k t' target repair (forwarded cursor) valid splices result =
        walks_on k t' target repair (forwarded cursor) valid splices result
    after_link-Moves k t' target repair leftmost valid splices result =
        walks_on k t' target repair leftmost valid splices result

    -- A round of `shrink_root` is a turn without an effect, before a removal and after it.
    pub Shrunk-Turned :
        (c : Call K V) (t' : Tree K V) (pc : Pc K V)
        → Shrunk inv m rep t'
        → Moves t' c pc
        → Turned n t m c t' pc
    Shrunk-Turned c t' pc result onward = record {
      level = level;
      ordered = result.ordered;
      bigger = (let same = result.same_pages in omega (arith, same));
      keeps = result.keeps;
      effective = inl (result.stands_for, onward);
    }

    pub shrink_next :
        (k : K) (t' : Tree K V) (more : Bool)
        → Moves t' (remove k) (if more then shrink k else start_remove k)
    shrink_next k t' true = shrinks_root
    shrink_next k t' false = begins_remove

-- ===== src/Tree/Thread/Fast.antt =====
-- The turns of a call of src/node.rs before it needs a structural change, with other threads in
-- between.
use b_link.Prelude.{
  ℕ, ◌<◌, ◌≡◌, refl, inl, inr, ◌⊎◌, Option, none, some, length, get_elem?-lt, lt_of_get_elem?, ok,
}
use b_link.Ord.{Ord}
use b_link.Array.Bounded
use b_link.Node.{
  Addr, LeafNode, NodeKind, internal, leaf, redirect, Node, Route, restart, to_right, here,
}
use b_link.Node.Leaf
use b_link.Node.Leaf.{SearchResult, found, absent, search_entries}
use b_link.Node.Leaf.Contents.{Answers, search_entries-Answers}
use b_link.Records.{lookup}
use b_link.Tree.Invariant.Frame.{Redirects, Redirects-refl}
use b_link.Tree.{Tree, Visit, again, move, arrived}
use b_link.Tree.Insert.Linear.{try_insert_without_split_lem}
use b_link.Tree.Remove.Linear.{try_remove_without_rebalance_lem}
use b_link.Tree.Thread.{
  Call, get, insert, remove, Pc, start_read, read, latch, grow, shrink, returned, Surroundings,
  call_key, value_at, finish_read, after_visit, fast_path, latched, turn, after_fast_insert,
  after_fast_remove,
}
use b_link.Tree.Invariant.{Page, Owns, IsLeaf, Inv}
use b_link.Tree.Invariant.Routing.{Routed, route-Routed, Visited, visit-Visited}
use b_link.Tree.Invariant.Contents.{with_key, Represents}

module _ {K V : Type 0} where
  -- A place in the traversal of a call, with the page that it has a reference to.
  pub data Traverses (t : Tree K V) (c : Call K V) : Pc K V → Type 0 where
    starts : Traverses t c (start_read c)
    reads : {a : Addr} → a < length t.pages → Traverses t c (read c a)
    latches : {a : Addr} → a < length t.pages → Traverses t c (latch c a)

  -- A place to which a call goes on without an effect: in its traversal, or before the loop that
  -- makes a structural change.
  pub data GoesOn (t : Tree K V) : Call K V → Pc K V → Type 0 where
    traverses : {c : Call K V} {pc : Pc K V} → Traverses t c pc → GoesOn t c pc
    grows : {k : K} {v : V} → GoesOn t (insert k v) (grow k v)
    shrinks : {k : K} → GoesOn t (remove k) (shrink k)

module _ {K V : Type 0} ⦃o : Ord K⦄ where
  -- What a call does to the map.
  abbrev pub effect : Call K V → (K → Option V) → K → Option V
  effect (get k) m = m
  effect (insert k v) m = with_key m k (some v)
  effect (remove k) m = with_key m k none

  -- A turn from `t` to `t'` in a tree that stands for `m`: no change, or the whole effect of the
  -- call with the result that the map gives.
  abbrev pub TakesTurn :
      ℕ → (Addr → ℕ) → Tree K V → (K → Option V) → Call K V → Tree K V → Pc K V → Type 0
  TakesTurn n level t m c t' pc =
      ((t' ≡ t) × GoesOn t c pc)
      ⊎ (Inv n t' level
          × Represents t' (effect c m)
          × (length t'.pages ≡ length t.pages)
          × Redirects t t'
          × (pc ≡ returned (m (call_key c))))

  module _ {n : ℕ} {t : Tree K V} {level : Addr → ℕ} (inv : Inv n t level) (m : K → Option V)
      (rep : Represents t m) where
    value-Answers :
        (contents : LeafNode K V) (k : K) (r : SearchResult)
        → Answers contents.entries k r
        → value_at contents r ≡ ok (lookup contents.entries k)
    unfolding value_at Bounded.index
    value-Answers contents k (absent i) (inside, value, inserts, deletes) = rw value refl
    value-Answers contents k (found i) (e, there, same, value, sets, erases, inside) =
        rw (there, value) refl

    -- The end of a traversal at the leaf that owns the key.
    finish-TakesTurn :
        (c : Call K V) (a : Addr) (p : Node K V) (contents : LeafNode K V)
        → Page t a p
        → p.kind ≡ leaf contents
        → Owns p (call_key c)
        → (pc : Pc K V) × (finish_read c a (leaf contents) ≡ ok pc) × TakesTurn n level t m c t pc
    unfolding finish_read Leaf.search
    finish-TakesTurn (get k) a p contents at is owns =
        let shape : IsLeaf n p.low_key p.high_key contents.entries =
          (rw is at (inv.page a p at).kind).1 in
        let reads =
          value-Answers contents k (search_entries contents.entries k)
            (search_entries-Answers contents.entries k shape.sorted) in
        (
          returned (m k),
          rw (reads, rep a p contents k at is owns) refl,
          inr (inv, rep, refl, Redirects-refl t, refl),
        )
    finish-TakesTurn (insert k v) a p contents at is owns = (
      latch (insert k v) a,
      refl,
      inl (refl, traverses (latches (lt_of_get_elem? t.pages a p at))),
    )
    finish-TakesTurn (remove k) a p contents at is owns =
        (latch (remove k) a, refl, inl (refl, traverses (latches (lt_of_get_elem? t.pages a p at))))

    Visited-TakesTurn :
        (c : Call K V) (a : Addr) (p : Node K V) (v : Visit)
        → Page t a p
        → Visited t p (call_key c) v
        → (pc : Pc K V) × (after_visit c a p v ≡ ok pc) × TakesTurn n level t m c t pc
    unfolding after_visit
    Visited-TakesTurn c a p again at visited = (start_read c, refl, inl (refl, traverses starts))
    Visited-TakesTurn c a p (move b) at visited =
        (read c b, refl, inl (refl, traverses (reads visited)))
    Visited-TakesTurn c a p arrived at (contents, is, owns) =
        let (pc, finishes, done) = finish-TakesTurn c a p contents at is owns in
        (pc, rw is finishes, done)

    fast-TakesTurn :
        (c : Call K V) (a : Addr) (p : Node K V) (contents : LeafNode K V)
        → Page t a p
        → p.kind ≡ leaf contents
        → Owns p (call_key c)
        → (t' : Tree K V) × (pc : Pc K V) × (fast_path n t a p contents c ≡ ok (t', pc))
          × TakesTurn n level t m c t' pc
    unfolding fast_path after_fast_insert after_fast_remove
    fast-TakesTurn (get k) a p contents at is owns =
        (t, start_read (get k), refl, inl (refl, traverses starts))
    fast-TakesTurn (insert k v) a p contents at is owns =
        elim (try_insert_without_split_lem inv a p contents at is m rep k v owns) [
          | inl (t', run, (inv', rep', size, keeps)) ↦
              (t', returned (m k), rw run refl, inr (inv', rep', size, keeps, refl))
          | inr (run, fresh, full) ↦ (t, grow k v, rw run refl, inl (refl, grows))
        ]
    fast-TakesTurn (remove k) a p contents at is owns =
        elim (try_remove_without_rebalance_lem inv a p contents at is m rep k owns) [
          | inl (t', run, (inv', rep', size, keeps)) ↦
              (t', returned (m k), rw run refl, inr (inv', rep', size, keeps, refl))
          | inr (run, there, other, low) ↦ (t, shrink k, rw run refl, inl (refl, shrinks))
        ]

    latched-TakesTurn :
        (c : Call K V) (a : Addr) (p : Node K V) (r : Route) (kind : NodeKind K V)
        → Page t a p
        → p.kind ≡ kind
        → Routed t p (call_key c) r
        → (t' : Tree K V) × (pc : Pc K V) × (latched n t a p kind c r ≡ ok (t', pc))
          × TakesTurn n level t m c t' pc
    unfolding latched
    latched-TakesTurn c a p here (leaf contents) at is routed =
        fast-TakesTurn c a p contents at is routed.1
    latched-TakesTurn c a p here (internal contents) at is routed =
        (t, start_read c, refl, inl (refl, traverses starts))
    latched-TakesTurn c a p here (redirect b) at is routed =
        (t, start_read c, refl, inl (refl, traverses starts))
    latched-TakesTurn c a p restart (leaf contents) at is routed =
        (t, start_read c, refl, inl (refl, traverses starts))
    latched-TakesTurn c a p restart (internal contents) at is routed =
        (t, start_read c, refl, inl (refl, traverses starts))
    latched-TakesTurn c a p restart (redirect b) at is routed =
        (t, start_read c, refl, inl (refl, traverses starts))
    latched-TakesTurn c a p (to_right b) (leaf contents) at is routed =
        (t, start_read c, refl, inl (refl, traverses starts))
    latched-TakesTurn c a p (to_right b) (internal contents) at is routed =
        (t, start_read c, refl, inl (refl, traverses starts))
    latched-TakesTurn c a p (to_right b) (redirect d) at is routed =
        (t, start_read c, refl, inl (refl, traverses starts))

    -- In a tree in order that stands for the map `m`, a turn of a call in its traversal returns,
    -- whatever the surroundings decide. It leaves the tree alone and the call goes on, or the tree
    -- is in order and stands for what the call makes of `m`, and the call returns the value of `m`.
    pub turn-TakesTurn :
        (env : Surroundings) (c : Call K V) {pc : Pc K V}
        → Traverses t c pc
        → (t' : Tree K V) × (pc' : Pc K V) × (turn n env t pc ≡ ok (t', pc'))
          × TakesTurn n level t m c t' pc'
    unfolding turn
    turn-TakesTurn env c starts =
        let valid = lt_of_get_elem? t.pages t.root inv.root.page inv.root.at in
        (t, read c t.root, refl, inl (refl, traverses (reads valid)))
    turn-TakesTurn env c (reads {a} valid) =
        let (p, at) = get_elem?-lt t.pages a valid in
        let (v, visits, visited) = visit-Visited a p (call_key c) (inv.page a p at) in
        let (pc, finishes, done) = Visited-TakesTurn c a p v at visited in
        (t, pc, rw (at, visits, finishes) refl, done)
    turn-TakesTurn env c (latches {a} valid) =
        let (p, at) = get_elem?-lt t.pages a valid in
        let (r, routes, routed) = route-Routed a p (call_key c) (inv.page a p at) in
        let (t', pc, finishes, done) = latched-TakesTurn c a p r p.kind at refl routed in
        (t', pc, rw (at, routes, finishes) refl, done)

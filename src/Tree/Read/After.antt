-- ===== src/Tree/Read/After.antt =====
-- `entry_at_or_after` of src/node.rs in a tree that no writer disturbs.
use b_link.Prelude.{
  ℕ, ◌≡◌, ◌≢◌, refl, sym, ◌∙◌, ap, inl, inr, Bool, true, false, Option, none, some, List, [], ◌∷◌,
  arith, length, get_elem?, get_elem?-lt, All-get_elem?, lt_of_get_elem?, Run, Settles, Settles-now,
  Settles-later, Settles-then, ltb,
}
use b_link.Ord.{Ord, ◌≺◌, AtLeast, Between, lt_of_lt_of_le, Ordering-cases, le_of_lt}
use b_link.Bound.{start_at, AfterStart}
use b_link.Node.{Addr, Entry, LeafNode, NodeKind, internal, leaf, redirect, Node}
use b_link.Node.Leaf
use b_link.Node.Leaf.{absent, search_entries}
use b_link.Records.{lookup}
use b_link.Tree.{Tree, leaf_read_for}
use b_link.Tree.Read.{next_of, index_after, after_round, after_from, entry_at_or_after}
use b_link.Tree.Read.Finds.{search-Finds}
use b_link.Tree.Read.Seek.{
  Stored, Seeks, AtLeast-AfterStart, Below-trans, lookup-get_elem?, lookup_before_first,
  leaf_read_for-Settles,
}
use b_link.Tree.Invariant.{Page, IsActive, Owns, IsLeaf, Inv, Forwards, stop, step, HasSuccessor}
use b_link.Tree.Invariant.Pages.{Page-unique}
use b_link.Tree.Invariant.Contents.{Represents, leaf-IsActive, leaf-level, leaf-filled}

index_after-absent : (inclusive : Bool) → index_after inclusive (absent 0) ≡ 0
unfolding index_after
index_after-absent true = refl
index_after-absent false = refl

module _ {K : Type 0} ⦃o : Ord K⦄ where
  AfterStart-of_lt : (k j : K) (inclusive : Bool) → k ≺ j → AfterStart (start_at k inclusive) j
  AfterStart-of_lt k j true less = le_of_lt k j less
  AfterStart-of_lt k j false less = less

module _ {K V : Type 0} ⦃o : Ord K⦄ where
  search_above :
      (es : List (Entry K V)) (e : Entry K V) (k : K)
      → get_elem? es 0 ≡ some e
      → k ≺ e.key
      → search_entries es k ≡ absent 0
  unfolding search_entries
  search_above [] e k at less = absurd cc
  search_above (x ∷ es) e k at less = ground (arith, o.cmp_swap k x.key)

  module _ {n : ℕ} {t : Tree K V} {level : Addr → ℕ} (inv : Inv n t level) (m : K → Option V)
      (rep : Represents t m) where
    pub leaf_shape :
        (a : Addr) (p : Node K V) (contents : LeafNode K V)
        → Page t a p
        → p.kind ≡ leaf contents
        → IsLeaf n p.low_key p.high_key contents.entries
    leaf_shape a p contents at is = (rw is at (inv.page a p at).kind).1

    pub owned :
        (a : Addr) (p : Node K V) (contents : LeafNode K V)
        → Page t a p
        → p.kind ≡ leaf contents
        → (i : ℕ) (e : Entry K V) → get_elem? contents.entries i ≡ some e
        → Owns p e.key
    owned a p contents at is i e there =
        All-get_elem? (λ (x : Entry K V). Between p.low_key p.high_key x.key) contents.entries i e
          (leaf_shape a p contents at is).within there

    pub stored :
        (a : Addr) (p : Node K V) (contents : LeafNode K V)
        → Page t a p
        → p.kind ≡ leaf contents
        → (i : ℕ) (e : Entry K V) → get_elem? contents.entries i ≡ some e
        → Stored t m a i e
    stored a p contents at is i e there = record {
      page = p;
      contents = contents;
      at = at;
      is_leaf = is;
      there = there;
      present =
          sym (rep a p contents e.key at is (owned a p contents at is i e there))
          ∙ lookup-get_elem? contents.entries i e (leaf_shape a p contents at is).sorted there;
    }

    -- A page with a lower fence is not the root.
    not_root :
        (b : Addr) (q : Node K V) (fence : K) → Page t b q → q.low_key ≡ some fence → b ≢ t.root
    not_root b q fence at begins same =
        let root = inv.root in
        let at' : Page t t.root q = rw same at at in
        let one : q ≡ root.page = Page-unique t t.root q root.page at' root.at in
        let none_there = root.low_key in
        absurd (let low = ap (λ (x : Node K V). x.low_key) one in cc)

    -- A page that begins at a fence, on the level of the leaves, is a leaf with a record.
    begun_leaf :
        (b : Addr) (q : Node K V) (fence : K)
        → Page t b q
        → IsActive q
        → level b ≡ 0
        → q.low_key ≡ some fence
        → (kind : NodeKind K V) → q.kind ≡ kind
        → (contents : LeafNode K V) × (e : Entry K V) × (q.kind ≡ leaf contents)
          × (get_elem? contents.entries 0 ≡ some e)
    begun_leaf b q fence at active low begins (redirect c) is =
        absurd (let h = rw is at active in cc)
    begun_leaf b q fence at active low begins (internal contents) is =
        let (l, above, shape) = rw is at (inv.page b q at).kind in
        absurd (omega (arith, low, above))
    begun_leaf b q fence at active low begins (leaf contents) is =
        let enough = leaf-filled inv b q contents at is (not_root b q fence at begins) in
        let (e, there) = get_elem?-lt contents.entries 0 (omega (arith, enough, inv.capacity)) in
        (contents, e, is, there)

    module _ (k : K) (inclusive : Bool) where
      abbrev from : Addr → ℕ → Run (Option (Addr × ℕ))
      from a rounds = after_from rounds t a k inclusive

      through :
          {a b : Addr} (r : Option (Addr × ℕ))
          → Forwards t a b
          → Settles (from b) r
          → Settles (from a) r
      unfolding after_from after_round
      through r stop settles = settles
      through {a} r (step {b} p at is rest) settles =
          Settles-later (from a) (from b) r (λ rounds. rw (at, is) refl) (through r rest settles)

      -- The page that is read after a leaf without a record from the start on.
      beyond :
          (a : Addr) (p : Node K V) (contents : LeafNode K V)
          → Page t a p
          → p.kind ≡ leaf contents
          → Owns p k
          → ltb
              (index_after inclusive (search_entries contents.entries k))
              (length contents.entries)
            ≡ false
          → ((j : K) → AfterStart (start_at k inclusive) j → lookup contents.entries j ≡ none)
          → (high : Option K) → p.high_key ≡ high
          → (right : Option Addr) → p.right ≡ right
          → HasSuccessor t level 0 high right
          → (r : Option (Addr × ℕ)) × Settles (from a) r × Seeks t m (start_at k inclusive) r
      unfolding Seeks after_from after_round Leaf.search next_of
      beyond a p contents at is owns over empty none ends right links none_right = (
        none,
        Settles-now (from a) none (λ r. rw (at, is, over, links, none_right) refl),
        λ j after.
            let within : Owns p j =
              (AtLeast-AfterStart p.low_key k j inclusive owns.0 after, rw ends tt) in
            sym (rep a p contents j at is within) ∙ empty j after,
      )
      beyond a p contents at is owns over empty (some fence) ends none links next = absurd next
      beyond a p contents at is owns over empty (some fence) ends (some c) links next =
          let q = next.page in
          let b = next.address in
          let (found, e, is', there) =
            begun_leaf b q fence next.at next.active next.on_level next.begins q.kind refl in
          let start : AtLeast q.low_key e.key = (owned b q found next.at is' 0 e there).0 in
          let below : k ≺ fence = rw ends at owns.1 in
          let less : k ≺ e.key = lt_of_lt_of_le k fence e.key below (rw next.begins at start) in
          let searches = search_above found.entries e k there less in
          let inside : ltb 0 (length found.entries) ≡ true =
            ground (arith, lt_of_get_elem? found.entries 0 e there) in
          (
            some (b, 0),
            Settles-later (from a) (from c) (some (b, 0)) (λ r. rw (at, is, over, links) refl)
                (through (some (b, 0)) next.leads (
                  Settles-now (from b) (some (b, 0))
                    (λ r. rw (next.at, is', searches, index_after-absent inclusive, inside) refl))),
            (
              e,
              stored b q found next.at is' 0 e there,
              AfterStart-of_lt k e.key inclusive less,
              λ j after before. elim (Ordering-cases (o.cmp j fence)) [
                | inl low ↦
                    let within : Owns p j =
                      (AtLeast-AfterStart p.low_key k j inclusive owns.0 after, rw ends low) in
                    sym (rep a p contents j at is within) ∙ empty j after
                | inr high ↦
                    let above : AtLeast q.low_key j = rw next.begins (λ h. ground arith) in
                    let within : Owns q j = (
                      above,
                      Below-trans q.high_key j e.key before
                          (owned b q found next.at is' 0 e there).1,
                    ) in
                    sym (rep b q found j next.at is' within)
                    ∙ lookup_before_first found.entries e j
                        (leaf_shape b q found next.at is').sorted there before
              ],
            ),
          )

      at_leaf :
          (a : Addr) (p : Node K V) (contents : LeafNode K V)
          → Page t a p
          → p.kind ≡ leaf contents
          → Owns p k
          → (r : Option (Addr × ℕ)) × Settles (from a) r × Seeks t m (start_at k inclusive) r
      unfolding Seeks after_from after_round Leaf.search
      at_leaf a p contents at is owns =
          let i = index_after inclusive (search_entries contents.entries k) in
          let shape = leaf_shape a p contents at is in
          elim (search-Finds contents.entries k inclusive shape.sorted) [
            | inl (e, there, after, least) ↦
                let inside : ltb i (length contents.entries) ≡ true =
                  ground (arith, lt_of_get_elem? contents.entries i e there) in
                (
                  some (a, i),
                  Settles-now (from a) (some (a, i)) (λ r. rw (at, is, inside) refl),
                  (
                    e,
                    stored a p contents at is i e there,
                    after,
                    λ j start before.
                        let within : Owns p j = (
                          AtLeast-AfterStart p.low_key k j inclusive owns.0 start,
                          Below-trans p.high_key j e.key before
                              (owned a p contents at is i e there).1,
                        ) in
                        sym (rep a p contents j at is within) ∙ least j start before,
                  ),
                )
            | inr (over, empty) ↦
                beyond a p contents at is owns (ground arith) empty p.high_key refl p.right refl (
                  rw (leaf-level inv a p contents at is) at
                    ((inv.page a p at).successor (leaf-IsActive p contents is)))
          ]

      -- In a tree in order that stands for the map `m`, `entry_at_or_after` returns: with the place
      -- of the least record from the key on (strictly after it, if the call excludes it), or without
      -- one if `m` has no such key.
      pub entry_at_or_after-Seeks :
          (r : Option (Addr × ℕ)) × Settles (λ rounds. entry_at_or_after rounds t k inclusive) r
          × Seeks t m (start_at k inclusive) r
      unfolding entry_at_or_after
      entry_at_or_after-Seeks =
          let (b, reads, arrives) = leaf_read_for-Settles inv k in
          let (r, settles, seeks) =
            at_leaf b arrives.page arrives.contents arrives.at arrives.is_leaf arrives.owns in
          (
            r,
            Settles-then (λ rounds. leaf_read_for rounds t k t.root) from b r reads settles,
            seeks,
          )

-- ===== src/Tree/Read/Ends.antt =====
-- `first_entry` and `last_entry` of src/node.rs in a tree that no writer disturbs.
use b_link.Prelude.{
  ℕ, zero, suc, ◌-◌, ◌≡◌, refl, sym, ◌∙◌, inl, inr, false, Bool-cases, Option, none, some, List, [],
  ◌∷◌, arith, length, get_elem?, get_elem?-lt, All-get_elem?, Settles, Settles-now, Settles-then,
  ◌==◌,
}
use b_link.Ord.{Ord, ◌≺◌, ◌≼◌, AtLeast, le_of_lt, le_trans}
use b_link.Bound.{unbounded}
use b_link.Node.{Addr, Entry, LeafNode, leaf, Node}
use b_link.Records.{lookup, IsSorted}
use b_link.Tree.{Tree}
use b_link.Tree.Read.{
  leftmost_leaf, rightmost_leaf, next_of, first_round, first_from, first_entry, last_round,
  last_from, last_entry,
}
use b_link.Tree.Read.Seek.{Stored, Seeks, Below-trans, lookup_before_first}
use b_link.Tree.Read.After.{leaf_shape, owned, stored}
use b_link.Tree.Read.Down.{left_down, right_down}
use b_link.Tree.Invariant.{Page, Owns, Inv}
use b_link.Tree.Invariant.Pages.{Page-unique}
use b_link.Tree.Invariant.Contents.{Represents, leaf-IsActive, leaf-filled}

no_entries {ℓ} : {A : Type ℓ} (xs : List A) → length xs ≡ 0 → xs ≡ []
no_entries [] h = refl
no_entries (x ∷ xs) h = absurd (omega arith)

module _ {K : Type 0} ⦃o : Ord K⦄ where
  AtLeast-trans : (low : Option K) (j k : K) → AtLeast low j → j ≼ k → AtLeast low k
  AtLeast-trans none j k h le = tt
  AtLeast-trans (some low) j k h le = le_trans low j k h le

module _ {K V : Type 0} ⦃o : Ord K⦄ where
  -- What a search for the end gives: the place of the greatest record, or none in an empty map.
  unfoldable pub IsLast : Tree K V → (K → Option V) → Option (Addr × ℕ) → Type 0
  IsLast t m none = (j : K) → m j ≡ none
  IsLast t m (some (a, i)) = (e : Entry K V) × Stored t m a i e × ((j : K) → e.key ≺ j → m j ≡ none)

  lookup_after_last :
      (es : List (Entry K V)) (i : ℕ) (e : Entry K V) (j : K)
      → IsSorted es
      → length es ≡ suc i
      → get_elem? es i ≡ some e
      → e.key ≺ j
      → lookup es j ≡ none
  unfolding lookup
  lookup_after_last [] i e j s size at less = absurd cc
  lookup_after_last (x ∷ []) zero e j s size at less =
      let same : x ≡ e = cc in let less' : x.key ≺ j = rw same less in ground arith
  lookup_after_last (x ∷ y ∷ es) zero e j s size at less = absurd (omega arith)
  lookup_after_last (x ∷ es) (suc i) e j s size at less =
      let below = All-get_elem? (λ (z : Entry K V). x.key ≺ z.key) es i e s.0 at in
      let less' = o.cmp_trans x.key e.key j below less in
      ground (arith, lookup_after_last es i e j s.1 (omega arith) at less)

  module _ {n : ℕ} {t : Tree K V} {level : Addr → ℕ} (inv : Inv n t level) where
    -- Only the root may be an empty leaf.
    empty_leaf :
        (a : Addr) (p : Node K V) (contents : LeafNode K V)
        → Page t a p
        → p.kind ≡ leaf contents
        → length contents.entries ≡ 0
        → p ≡ inv.root.page
    empty_leaf a p contents at is empty = elim (Bool-cases (a == t.root)) [
      | inl same ↦
          let one : a ≡ t.root = ground arith in
          Page-unique t t.root p inv.root.page (rw one at at) inv.root.at
      | inr other ↦ absurd (
          let enough = leaf-filled inv a p contents at is (ground arith) in
          omega (arith, enough, inv.capacity, empty))
    ]

  module _ {n : ℕ} {t : Tree K V} {level : Addr → ℕ} (inv : Inv n t level) (m : K → Option V)
      (rep : Represents t m) where
    empty_map :
        (a : Addr) (p : Node K V) (contents : LeafNode K V)
        → Page t a p
        → p.kind ≡ leaf contents
        → contents.entries ≡ []
        → (j : K) → m j ≡ none
    unfolding lookup
    empty_map a p contents at is empty j =
        let size : length contents.entries ≡ 0 = rw empty refl in
        let whole = empty_leaf inv a p contents at is size in
        let root = inv.root in
        let low : p.low_key ≡ none = rw whole root.low_key in
        let high : p.high_key ≡ none = rw whole root.high_key in
        sym (rep a p contents j at is (rw (low, high) (tt, tt))) ∙ rw empty refl

    first_at :
        (a : Addr) (p : Node K V) (contents : LeafNode K V)
        → Page t a p
        → p.kind ≡ leaf contents
        → p.low_key ≡ none
        → (es : List (Entry K V)) → contents.entries ≡ es
        → (r : Option (Addr × ℕ)) × Settles (λ rounds. first_from rounds t a) r
          × Seeks t m unbounded r
    unfolding Seeks first_from first_round next_of
    first_at a p contents at is low [] empty =
        let whole = empty_leaf inv a p contents at is (rw empty refl) in
        let root = inv.root in
        let high : p.high_key ≡ none = rw whole root.high_key in
        let links : p.right ≡ none =
          rw high at ((inv.page a p at).successor (leaf-IsActive p contents is)) in
        (
          none,
          Settles-now (λ rounds. first_from rounds t a) none (λ r. rw (at, is, empty, links) refl),
          λ j start. empty_map a p contents at is empty j,
        )
    first_at a p contents at is low (e ∷ es) filled =
        let there : get_elem? contents.entries 0 ≡ some e = rw filled refl in
        let some_there : (length contents.entries == 0) ≡ false = rw filled (ground arith) in
        let shape = leaf_shape inv m rep a p contents at is in
        (
          some (a, 0),
          Settles-now (λ rounds. first_from rounds t a) (some (a, 0))
              (λ r. rw (at, is, some_there) refl),
          (
            e,
            stored inv m rep a p contents at is 0 e there,
            tt,
            λ j start before.
                let within : Owns p j = (
                  rw low tt,
                  Below-trans p.high_key j e.key before
                      (owned inv m rep a p contents at is 0 e there).1,
                ) in
                sym (rep a p contents j at is within)
                ∙ lookup_before_first contents.entries e j shape.sorted there before,
          ),
        )

    -- In a tree in order that stands for `m`, `first_entry` returns: with the place of the record
    -- with the least key, or without one if `m` is empty.
    pub first_entry-Seeks :
        (r : Option (Addr × ℕ)) × Settles (λ rounds. first_entry rounds t) r × Seeks t m unbounded r
    unfolding first_entry
    first_entry-Seeks =
        let root = inv.root in
        let (a, p, contents, goes, at, is, low) =
          left_down inv (level t.root) t.root root.page root.at root.active refl root.low_key
            root.page.kind refl in
        let (r, settles, seeks) = first_at a p contents at is low contents.entries refl in
        (
          r,
          Settles-then (λ rounds. leftmost_leaf rounds t t.root) (λ b rounds. first_from rounds t b)
              a r goes settles,
          seeks,
        )

    IsLast-at :
        (a : Addr) (p : Node K V) (contents : LeafNode K V)
        → Page t a p
        → p.kind ≡ leaf contents
        → p.high_key ≡ none
        → (r : Option (Addr × ℕ)) × Settles (λ rounds. last_from rounds t a) r × IsLast t m r
    unfolding IsLast last_from last_round
    IsLast-at a p contents at is high = elim (Bool-cases (length contents.entries == 0)) [
      | inl empty ↦ (
        none,
        Settles-now (λ rounds. last_from rounds t a) none (λ r. rw (at, is, empty) refl),
        λ j. empty_map a p contents at is (no_entries contents.entries (ground arith)) j,
      )
      | inr filled ↦
          let i = length contents.entries - 1 in
          let size : length contents.entries ≡ suc i = ground arith in
          let (e, there) = get_elem?-lt contents.entries i (omega (arith, size)) in
          let shape = leaf_shape inv m rep a p contents at is in
          let first = owned inv m rep a p contents at is i e there in
          (
            some (a, i),
            Settles-now (λ rounds. last_from rounds t a) (some (a, i))
                (λ r. rw (at, is, filled) refl),
            (
              e,
              stored inv m rep a p contents at is i e there,
              λ j after.
                  let within : Owns p j = (
                    AtLeast-trans p.low_key e.key j first.0 (le_of_lt e.key j after),
                    rw high tt,
                  ) in
                  sym (rep a p contents j at is within)
                  ∙ lookup_after_last contents.entries i e j shape.sorted size there after,
            ),
          )
    ]

    -- In a tree in order that stands for `m`, `last_entry` returns: with the place of the record
    -- with the greatest key, or without one if `m` is empty.
    pub last_entry-IsLast :
        (r : Option (Addr × ℕ)) × Settles (λ rounds. last_entry rounds t) r × IsLast t m r
    unfolding last_entry
    last_entry-IsLast =
        let root = inv.root in
        let (a, p, contents, goes, at, is, high) =
          right_down inv (level t.root) t.root root.page root.at root.active refl root.high_key
            root.page.kind refl in
        let (r, settles, greatest) = IsLast-at a p contents at is high in
        (
          r,
          Settles-then (λ rounds. rightmost_leaf rounds t t.root) (λ b rounds. last_from rounds t b)
              a r goes settles,
          greatest,
        )

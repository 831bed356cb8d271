-- ===== src/Tree/Remove/Linear.antt =====
-- `try_remove_without_rebalance` of src/node.rs, and the removal of one record from a leaf.
use Prim.Native.Nat.Ordering.{eq}
use b_link.Prelude.{
  ℕ, suc, ◌+◌, ◌-◌, ◌/◌, ◌≤◌, ◌<◌, ◌≡◌, ◌≢◌, refl, sym, ap, ◌∙◌, subst, inl, inr, ◌⊎◌, true, false,
  not, ◌&&◌, Option, none, some, [], arith, ◌==◌, ltb, leb, Bool-cases, is_some, length, length-set,
  ok,
}
use b_link.Ord.{Ord, Between, Ordering-cases}
use b_link.Node.{Addr, LeafNode, leaf, Node}
use b_link.Node.Leaf
use b_link.Array.Bounded
use b_link.Node.Leaf.{SearchResult, found, absent, search_entries}
use b_link.Node.Leaf.Contents.{Answers, search_entries-Answers}
use b_link.Records.{lookup, delete}
use b_link.Records.Laws.{delete-IsSorted, All-delete, lookup-delete, length-delete}
use b_link.Tree.Invariant.Frame.{Redirects, Redirects-refl}
use b_link.Tree.{Tree}
use b_link.Tree.Remove.{remove_record, done, structural, fast_at, try_remove_without_rebalance}
use b_link.Tree.Invariant.{Page, Owns, IsLeaf, Inv, kind_count}
use b_link.Tree.Invariant.Pages.{count-set, Page-unique}
use b_link.Tree.Invariant.Write
use b_link.Tree.Invariant.Contents.{
  with_key, Represents, written-Represents, leaf-IsActive, leaf-level, Owns-congr,
}

module _ {K V : Type 0} ⦃o : Ord K⦄ {n : ℕ} {t : Tree K V} {level : Addr → ℕ} (inv : Inv n t level)
    (a : Addr) (p : Node K V) (contents : LeafNode K V) (at : Page t a p)
    (is_leaf : p.kind ≡ leaf contents) (m : K → Option V) (rep : Represents t m) (k : K)
    (owned : Owns p k) where
  -- The state after a step of the map that removes the key.
  abbrev pub Removed : Tree K V → Type 0
  Removed t' =
      Inv n t' level
      × Represents t' (with_key m k none)
      × (length t'.pages ≡ length t.pages)
      × Redirects t t'

  abbrev answer : Option V
  answer = lookup contents.entries k

  pub shape : IsLeaf n p.low_key p.high_key contents.entries
  shape = (rw is_leaf at (inv.page a p at).kind).1

  pub answer_lem : answer ≡ m k
  answer_lem = rep a p contents k at is_leaf owned

  abbrev new : LeafNode K V
  new = record { entries = delete contents.entries k }

  positive : (i : ℕ) → i < length contents.entries → 0 < t.len
  positive i inside =
      let size = ap kind_count is_leaf in
      omega (
        arith,
        inv.counted,
        count-set t.pages a p (record p { kind = leaf (record { entries = [] }) }) at,
        size,
      )

  pub remove_record-Removed :
      (i : ℕ)
      → Answers contents.entries k (found i)
      → (a ≢ t.root → n / 2 < length contents.entries)
      → (t' : Tree K V) × (remove_record t a p contents i ≡ ok (t', m k)) × Removed t'
  unfolding remove_record Bounded.remove
  remove_record-Removed i (e, there, same, value, sets, erases, inside) room = (
    Write.after inv a p at contents new is_leaf (t.len - 1),
    run,
    (
      Write.written-Inv inv a p at contents new is_leaf (t.len - 1) fits filled count,
      written-Represents inv a p at contents new is_leaf (t.len - 1) k owned none
          (λ j. lookup-delete contents.entries k j shape.sorted) rep,
      length-set t.pages a (Write.written inv a p at contents new is_leaf (t.len - 1)),
      Write.redirects inv a p at contents new is_leaf (t.len - 1),
    ),
  )
    where
      size : length contents.entries ≡ suc (length (delete contents.entries k))
      size = ground (arith, length-delete contents.entries k)

      nonempty : 0 < t.len
      nonempty = positive i inside

      fits : IsLeaf n p.low_key p.high_key (delete contents.entries k)
      fits = record {
        sorted = delete-IsSorted contents.entries k shape.sorted;
        within = All-delete (λ j. Between p.low_key p.high_key j) contents.entries k shape.within;
        bounded = omega (arith, size, shape.bounded);
      }

      filled : a ≢ t.root → n / 2 ≤ length (delete contents.entries k)
      filled other = let h = room other in omega (arith, size)

      count : (t.len - 1) + length contents.entries ≡ t.len + length (delete contents.entries k)
      count = omega (arith, size, nonempty)

      run :
          remove_record t a p contents i
          ≡ ok (Write.after inv a p at contents new is_leaf (t.len - 1), m k)
      run =
          let in_range : ltb i (length contents.entries) ≡ true = ground arith in
          let some_left : ltb 0 t.len ≡ true = ground (arith, nonempty) in
          let known : m k ≡ some e.value = sym answer_lem ∙ value in
          rw (in_range, there, some_left, erases, known)

  -- The leaf that owns a key equal to this one is the leaf itself.
  same_leaf :
      (b : Addr) (q : Node K V) (c : LeafNode K V) (j : K)
      → Page t b q
      → q.kind ≡ leaf c
      → Owns q j
      → o.cmp k j ≡ eq
      → c ≡ contents
  same_leaf b q c j h is owns e =
      let one : a ≡ b =
        inv.disjoint a b p q j at h (leaf-IsActive p contents is_leaf) (leaf-IsActive q c is)
          (leaf-level inv a p contents at is_leaf ∙ sym (leaf-level inv b q c h is))
          (Owns-congr p k j e owned) owns in
      let page : p ≡ q = Page-unique t b p q (subst (λ x. Page t x p) one at) h in
      let kinds : leaf contents ≡ leaf c = sym is_leaf ∙ ap (λ (x : Node K V). x.kind) page ∙ is in
      cc

  -- A key that the leaf does not have is not in the map.
  pub unchanged : delete contents.entries k ≡ contents.entries → Represents t (with_key m k none)
  unchanged deletes b q c j h is owns = elim (Ordering-cases (o.cmp k j)) [
    | inl e ↦ rw (e, with_key) (rep b q c j h is owns)
    | inr (inl e) ↦
        rw (e, with_key)
          (rw (same_leaf b q c j h is owns e) (
            sym (ap (λ x. lookup x j) deletes)
            ∙ lookup-delete contents.entries k j shape.sorted
            ∙ rw e refl))
    | inr (inr e) ↦ rw (e, with_key) (rep b q c j h is owns)
  ]

  -- The outcome of the search, with the records that it stands for.
  fast_at-Removed :
      (r : SearchResult)
      → Answers contents.entries k r
      → ((t' : Tree K V) × (fast_at n t a p contents r ≡ ok (t', done (m k))) × Removed t')
        ⊎ ((fast_at n t a p contents r ≡ ok (t, structural))
            × (is_some (m k) ≡ true)
            × (a ≢ t.root)
            × (length contents.entries ≤ n / 2))
  unfolding fast_at
  fast_at-Removed (absent i) (inside, value, inserts, deletes) =
      let gone : m k ≡ none = sym answer_lem ∙ value in
      inl (t, rw gone, (inv, unchanged deletes, refl, Redirects-refl t))
  fast_at-Removed (found i) (e, there, same, value, sets, erases, inside) =
      elim (Bool-cases (not p.is_root && leb (length contents.entries) (n / 2))) [
        | inl low ↦ inr (rw low, rw (sym answer_lem ∙ value), other_page low, ground arith)
        | inr enough ↦
            let (t', run, removed) =
              remove_record-Removed i (e, there, same, value, sets, erases, inside)
                (λ other. roomy other enough) in
            inl (t', rw (enough, run), removed)
      ]
    where
      role : p.is_root ≡ (a == t.root)
      role = (inv.page a p at).root_role

      other_page : (not p.is_root && leb (length contents.entries) (n / 2)) ≡ true → a ≢ t.root
      other_page low = ground (arith, role)

      roomy :
          a ≢ t.root
          → (not p.is_root && leb (length contents.entries) (n / 2)) ≡ false
          → n / 2 < length contents.entries
      roomy other enough = ground (arith, role)

  -- The section of `try_remove_without_rebalance` under the latch of the leaf that owns the key, in
  -- a tree in order that stands for the map `m`: it returns the value that `m` had, the tree stays
  -- in order, and it stands for `m` without the key; or the key is there, and its leaf is not the
  -- root and has as few records as it may have, and the tree is left as it was.
  pub try_remove_without_rebalance_lem :
      ((t' : Tree K V) × (try_remove_without_rebalance n t a p contents k ≡ ok (t', done (m k)))
        × Removed t')
      ⊎ ((try_remove_without_rebalance n t a p contents k ≡ ok (t, structural))
          × (is_some (m k) ≡ true)
          × (a ≢ t.root)
          × (length contents.entries ≤ n / 2))
  unfolding try_remove_without_rebalance Leaf.search
  try_remove_without_rebalance_lem =
      fast_at-Removed (search_entries contents.entries k)
        (search_entries-Answers contents.entries k shape.sorted)

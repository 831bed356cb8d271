-- ===== src/Tree/Insert/Linear.antt =====
-- `try_insert_without_split` of src/node.rs, and the insertion of one record into a leaf.
use b_link.Prelude.{
  ℕ, suc, ◌+◌, ◌/◌, ◌≤◌, ◌<◌, ◌≡◌, ◌≢◌, sym, ◌∙◌, inl, inr, ◌⊎◌, Bool, true, false, not, Option,
  none, some, arith, ◌==◌, if◌then◌else◌, Bool-cases, is_some, length, length-set, ok,
}
use b_link.Ord.{Ord, Between}
use b_link.Node.{Addr, LeafNode, leaf, Node}
use b_link.Node.Leaf
use b_link.Node.Leaf.{SearchResult, found, absent, search_entries}
use b_link.Node.Leaf.Contents.{Answers, search_entries-Answers, insert-put}
use b_link.Records.{lookup, put}
use b_link.Records.Laws.{put-IsSorted, All-put, lookup-put, length-put}
use b_link.Tree.Invariant.Frame.{Redirects}
use b_link.Tree.{Tree}
use b_link.Tree.Insert.{insert_record, is_absent, done, structural, try_insert_without_split}
use b_link.Tree.Invariant.{Page, Owns, IsLeaf, Inv}
use b_link.Tree.Invariant.Write
use b_link.Tree.Invariant.Contents.{with_key, Represents, written-Represents, leaf-filled}

module _ {K V : Type 0} ⦃o : Ord K⦄ {n : ℕ} {t : Tree K V} {level : Addr → ℕ} (inv : Inv n t level)
    (a : Addr) (p : Node K V) (contents : LeafNode K V) (at : Page t a p)
    (is_leaf : p.kind ≡ leaf contents) (m : K → Option V) (rep : Represents t m) (k : K) (v : V)
    (owned : Owns p k) where
  -- The state after a step of the map that gives the key a value.
  abbrev pub Inserted : Tree K V → Type 0
  Inserted t' =
      Inv n t' level
      × Represents t' (with_key m k (some v))
      × (length t'.pages ≡ length t.pages)
      × Redirects t t'

  shape : IsLeaf n p.low_key p.high_key contents.entries
  shape = (rw is_leaf at (inv.page a p at).kind).1

  abbrev new : LeafNode K V
  new = record { entries = put contents.entries k v }

  abbrev answer : Option V
  answer = lookup contents.entries k

  answer_lem : answer ≡ m k
  answer_lem = rep a p contents k at is_leaf owned

  inserted_len : ℕ
  inserted_len = if not (is_some answer) then t.len + 1 else t.len

  pub insert_record-Inserted :
      (is_some answer ≡ true) ⊎ (length contents.entries < n)
      → (t' : Tree K V) × (insert_record n t a p contents k v ≡ ok (t', m k)) × Inserted t'
  insert_record-Inserted room = (
    Write.after inv a p at contents new is_leaf (if not (is_some answer) then t.len + 1 else t.len),
    run,
    (
      Write.written-Inv inv a p at contents new is_leaf
          (if not (is_some answer) then t.len + 1 else t.len) fits filled count,
      written-Represents inv a p at contents new is_leaf
          (if not (is_some answer) then t.len + 1 else t.len) k owned (some v)
          (λ j. lookup-put contents.entries k v j shape.sorted) rep,
      length-set t.pages a (
          Write.written inv a p at contents new is_leaf
            (if not (is_some answer) then t.len + 1 else t.len)),
      Write.redirects inv a p at contents new is_leaf
          (if not (is_some answer) then t.len + 1 else t.len),
    ),
  )
    where
      there : Bool
      there = is_some answer

      size :
          length (put contents.entries k v)
          ≡ (if is_some answer then length contents.entries else suc (length contents.entries))
      size = length-put contents.entries k v shape.sorted

      fits : IsLeaf n p.low_key p.high_key (put contents.entries k v)
      fits = record {
        sorted = put-IsSorted contents.entries k v shape.sorted;
        within =
            All-put (λ j. Between p.low_key p.high_key j) contents.entries k v owned shape.within;
        bounded = ground (arith, size, shape.bounded);
      }

      filled : a ≢ t.root → n / 2 ≤ length (put contents.entries k v)
      filled other = ground (arith, size, leaf-filled inv a p contents at is_leaf other)

      count :
          (if not (is_some answer) then t.len + 1 else t.len) + length contents.entries
          ≡ t.len + length (put contents.entries k v)
      count = ground (arith, size)

      run :
          insert_record n t a p contents k v
          ≡ ok (
            Write.after inv a p at contents new is_leaf
                (if not (is_some answer) then t.len + 1 else t.len),
            m k,
          )
      run = rw (insert-put n contents k v shape.sorted room) (elim (Bool-cases (is_some answer)) [
        | inl old ↦ rw (old, answer_lem)
        | inr fresh ↦ rw (fresh, answer_lem)
      ])

  absent_lem :
      (r : SearchResult) → Answers contents.entries k r → is_absent r ≡ not (is_some answer)
  absent_lem (found i) (e, there, same, value, sets, erases, inside) = rw value
  absent_lem (absent i) (inside, value, inserts, deletes) = rw value

  search-absent : is_absent (Leaf.search contents k) ≡ not (is_some answer)
  unfolding Leaf.search
  search-absent =
      absent_lem (search_entries contents.entries k)
        (search_entries-Answers contents.entries k shape.sorted)

  -- The section of `try_insert_without_split` under the latch of the leaf that owns the key, in a
  -- tree in order that stands for the map `m`: it returns the value that `m` had, the tree stays in
  -- order, and it stands for `m` with the new value; or the key is new and the leaf is full, and
  -- the tree is left as it was.
  pub try_insert_without_split_lem :
      ((t' : Tree K V) × (try_insert_without_split n t a p contents k v ≡ ok (t', done (m k)))
        × Inserted t')
      ⊎ ((try_insert_without_split n t a p contents k v ≡ ok (t, structural))
          × (m k ≡ none)
          × (length contents.entries ≡ n))
  unfolding try_insert_without_split
  try_insert_without_split_lem = elim (Bool-cases (is_some answer)) [
    | inl old ↦
        let (t', run, inserted) = insert_record-Inserted (inl old) in
        inl (t', rw (search-absent, old, run), inserted)
    | inr fresh ↦ elim (Bool-cases (length contents.entries == n)) [
      | inl full ↦ inr (rw (search-absent, fresh, full), missing fresh, ground arith)
      | inr open_slot ↦
          let (t', run, inserted) = insert_record-Inserted (inr (ground (arith, shape.bounded))) in
          inl (t', rw (search-absent, fresh, open_slot, run), inserted)
    ]
  ]
    where
      missing : is_some answer ≡ false → m k ≡ none
      missing fresh = sym answer_lem ∙ none_of fresh
        where
          none_of : is_some answer ≡ false → answer ≡ none
          none_of fresh = ground arith

-- ===== src/Tree/Read/Seek.antt =====
-- `first_entry` and `entry_at_or_after` of src/node.rs in a tree that no writer disturbs.
use b_link.Prelude.{
  ℕ, zero, suc, ◌≤◌, ◌≡◌, Bool, true, false, Option, none, some, List, [], ◌∷◌, arith, get_elem?,
  All-get_elem?, Run, ok, Settles, bind-ok,
}
use b_link.Ord.{Ord, ◌≺◌, AtLeast, Below, le_trans, le_of_lt, cmp_refl}
use b_link.Bound.{Bound, start_at, AfterStart}
use b_link.Node.{Addr, Entry, LeafNode, leaf, Node}
use b_link.Records.{lookup, IsSorted}
use b_link.Records.Laws.{lookup-After, All-After_trans}
use b_link.Tree.{Tree, load, visit, next_page, leaf_read_for}
use b_link.Tree.Read.Arrival.{Arrives, leaf_read_for-Arrives}
use b_link.Tree.Invariant.{Page, Inv}

continues :
    (a b : Addr) (next : Option Addr) (f g : Addr → Run Addr)
    → ((c : Addr) → f c ≡ ok b → g c ≡ ok b)
    → elim next [ none ↦ ok a | some c ↦ f c ] ≡ ok b
    → elim next [ none ↦ ok a | some c ↦ g c ] ≡ ok b
continues a b none f g more e = e
continues a b (some c) f g more e = more c e

module _ {K : Type 0} ⦃o : Ord K⦄ where
  pub AtLeast-AfterStart :
      (low : Option K) (k j : K) (inclusive : Bool)
      → AtLeast low k
      → AfterStart (start_at k inclusive) j
      → AtLeast low j
  AtLeast-AfterStart none k j inclusive h after = tt
  AtLeast-AfterStart (some low) k j true h after = le_trans low k j h after
  AtLeast-AfterStart (some low) k j false h after = le_trans low k j h (le_of_lt k j after)

  pub Below-trans : (high : Option K) (j k : K) → j ≺ k → Below high k → Below high j
  Below-trans none j k less h = tt
  Below-trans (some high) j k less h = o.cmp_trans j k high less h

module _ {K V : Type 0} ⦃o : Ord K⦄ where
  -- A record of the tree, in its place.
  pub record Stored (t : Tree K V) (m : K → Option V) (a : Addr) (i : ℕ) (entry : Entry K V)
      : Type 0 where
    pub page : Node K V
    pub contents : LeafNode K V
    pub at : Page t a page
    pub is_leaf : page.kind ≡ leaf contents
    pub there : get_elem? contents.entries i ≡ some entry
    pub present : m entry.key ≡ some entry.value

  -- What a search from a start gives, in a tree that stands for `m`: the place of the least record
  -- after the start, or none if the map has no key after it.
  unfoldable pub Seeks : Tree K V → (K → Option V) → Bound K → Option (Addr × ℕ) → Type 0
  Seeks t m start none = (j : K) → AfterStart start j → m j ≡ none
  Seeks t m start (some (a, i)) =
      (e : Entry K V) × Stored t m a i e
      × AfterStart start e.key
      × ((j : K) → AfterStart start j → j ≺ e.key → m j ≡ none)

  -- A record of a list in order is what its key finds.
  pub lookup-get_elem? :
      (es : List (Entry K V)) (i : ℕ) (e : Entry K V)
      → IsSorted es
      → get_elem? es i ≡ some e
      → lookup es e.key ≡ some e.value
  unfolding lookup
  lookup-get_elem? [] i e s at = absurd cc
  lookup-get_elem? (x ∷ es) zero e s at = ground (arith, cmp_refl e.key)
  lookup-get_elem? (x ∷ es) (suc i) e s at =
      let above = All-get_elem? (λ (y : Entry K V). x.key ≺ y.key) es i e s.0 at in
      ground (arith, lookup-get_elem? es i e s.1 at)

  pub lookup_before_first :
      (es : List (Entry K V)) (e : Entry K V) (j : K)
      → IsSorted es
      → get_elem? es 0 ≡ some e
      → j ≺ e.key
      → lookup es j ≡ none
  lookup_before_first [] e j s at less = absurd cc
  lookup_before_first (x ∷ es) e j s at less =
      let same : x ≡ e = cc in
      let less' : j ≺ x.key = rw same less in
      lookup-After (x ∷ es) j (less', All-After_trans es j x.key less' s.0)

  pub leaf_read_for-more :
      (rounds more : ℕ) (t : Tree K V) (k : K) (a b : Addr)
      → leaf_read_for rounds t k a ≡ ok b
      → rounds ≤ more
      → leaf_read_for more t k a ≡ ok b
  unfolding leaf_read_for
  leaf_read_for-more zero more t k a b run enough = absurd cc
  leaf_read_for-more (suc rounds) zero t k a b run enough = absurd (omega arith)
  leaf_read_for-more (suc rounds) (suc more) t k a b run enough =
      let (p, at, rest) = bind-ok (load t a) _ b run in
      let (v, visits, goes) = bind-ok (visit p k) _ b rest in
      rw (at, visits)
        (continues a b (next_page t a v) (leaf_read_for rounds t k) (leaf_read_for more t k)
          (λ c e. leaf_read_for-more rounds more t k c b e (omega arith)) goes)

  -- `leaf_read_for` returns for all numbers of rounds from the height of the tree on.
  pub leaf_read_for-Settles :
      {n : ℕ} {t : Tree K V} {level : Addr → ℕ}
      → Inv n t level
      → (k : K) → (b : Addr) × Settles (λ rounds. leaf_read_for rounds t k t.root) b × Arrives t k b
  leaf_read_for-Settles {n} {t} {level} inv k =
      let (b, reads, arrives) = leaf_read_for-Arrives inv k in
      (
        b,
        (
          suc (level t.root),
          λ more enough. leaf_read_for-more (suc (level t.root)) more t k t.root b reads enough,
        ),
        arrives,
      )

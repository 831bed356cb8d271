-- ===== src/Tree/Invariant/Contents.antt =====
-- The map that a tree stands for, as a function from keys to values, and how a write to one leaf
-- changes it.
use Prim.Native.Nat.Ordering.{eq}
use b_link.Prelude.{
  ℕ, ◌/◌, ◌≤◌, ◌≡◌, ◌≢◌, refl, sym, ap, ◌∙◌, subst, inl, inr, Option, none, some, arith, length,
}
use b_link.Ord.{Ord, ◌≈◌, AtLeast, Below}
use b_link.Node.{Addr, LeafNode, NodeKind, internal, leaf, redirect, Node, minimum, occupancy}
use b_link.Tree.{Tree}
use b_link.Tree.Invariant.{Page, IsActive, Owns, Inv}
use b_link.Tree.Invariant.Bond.{records}
use b_link.Tree.Invariant.Write
use b_link.Records.{lookup}

module _ {K : Type 0} ⦃o : Ord K⦄ where
  AtLeast-congr : (low : Option K) (j k : K) → j ≈ k → AtLeast low j → AtLeast low k
  AtLeast-congr none j k e h = tt
  AtLeast-congr (some low) j k e h = ground (arith, o.cmp_congr j k low)

  Below-congr : (high : Option K) (j k : K) → j ≈ k → Below high j → Below high k
  Below-congr none j k e h = tt
  Below-congr (some high) j k e h = ground (arith, o.cmp_congr j k high)

module _ {K V : Type 0} ⦃o : Ord K⦄ where
  -- A finite map, by its lookups.
  abbrev pub with_key : (K → Option V) → K → Option V → K → Option V
  with_key m k value j = elim (o.cmp k j) [ eq ↦ value | _ ↦ m j ]

  -- Every leaf answers for the keys that it owns.
  abbrev pub Represents : Tree K V → (K → Option V) → Type 0
  Represents t m =
      (a : Addr) (p : Node K V) (contents : LeafNode K V) (k : K)
      → Page t a p
      → p.kind ≡ leaf contents
      → Owns p k
      → lookup contents.entries k ≡ m k

  pub Owns-congr : (p : Node K V) (j k : K) → j ≈ k → Owns p j → Owns p k
  Owns-congr p j k e h = (AtLeast-congr p.low_key j k e h.0, Below-congr p.high_key j k e h.1)

  with_key-congr :
      (f m : K → Option V) (k : K) (value : Option V) (j : K)
      → f j ≡ m j
      → with_key f k value j ≡ with_key m k value j
  with_key-congr f m k value j h = ground arith

  with_key_ne :
      (m : K → Option V) (k : K) (value : Option V) (j : K)
      → o.cmp k j ≢ eq
      → with_key m k value j ≡ m j
  with_key_ne m k value j h = ground arith

  pub leaf-IsActive : (p : Node K V) (contents : LeafNode K V) → p.kind ≡ leaf contents → IsActive p
  leaf-IsActive p contents e = rw e

  pub leaf-level :
      {n : ℕ} {t : Tree K V} {level : Addr → ℕ}
      → Inv n t level
      → (a : Addr) (p : Node K V) (contents : LeafNode K V) → Page t a p
      → p.kind ≡ leaf contents
      → level a ≡ 0
  leaf-level inv a p contents at e = (rw e at (inv.page a p at).kind).0

  pub leaf-filled :
      {n : ℕ} {t : Tree K V} {level : Addr → ℕ}
      → Inv n t level
      → (a : Addr) (p : Node K V) (contents : LeafNode K V) → Page t a p
      → p.kind ≡ leaf contents
      → a ≢ t.root
      → n / 2 ≤ length contents.entries
  unfolding minimum occupancy
  leaf-filled inv a p contents at e other =
      rw e at ((inv.page a p at).filled (leaf-IsActive p contents e) other)

  module _ {n : ℕ} {t : Tree K V} {level : Addr → ℕ} (inv : Inv n t level) (a : Addr) (p : Node K V)
      (at : Page t a p) (old new : LeafNode K V) (is_leaf : p.kind ≡ leaf old) (len : ℕ)
      {m : K → Option V} (k : K) (owned : Owns p k) (value : Option V)
      (changes : (j : K) → lookup new.entries j ≡ with_key (lookup old.entries) k value j) where
    -- The map afterwards differs at the key alone.
    pub written-Represents :
        Represents t m
        → Represents (Write.after inv a p at old new is_leaf len) (with_key m k value)
    written-Represents rep b q contents j h is owns =
        elim (Write.cases inv a p at old new is_leaf len b q h) [
          | inl (same, e) ↦
              let one : contents ≡ new = let k = ap (λ (x : Node K V). x.kind) e in cc in
              let owns' : Owns p j = subst (λ (x : Node K V). Owns x j) e owns in
              subst (λ (x : LeafNode K V). lookup x.entries j ≡ with_key m k value j) (sym one)
                (changes j
                  ∙ with_key-congr (lookup old.entries) m k value j
                      (rep a p old j at is_leaf owns'))
          | inr (other, was) ↦
              let elsewhere : o.cmp k j ≢ eq = λ e. other (
                inv.disjoint a b p q j at was (leaf-IsActive p old is_leaf)
                  (leaf-IsActive q contents is)
                  (leaf-level inv a p old at is_leaf ∙ sym (leaf-level inv b q contents was is))
                  (Owns-congr p k j e owned) owns) in
              rep b q contents j was is owns ∙ sym (with_key_ne m k value j elsewhere)
        ]

module _ {K V : Type 0} ⦃o : Ord K⦄ {n : ℕ} {t : Tree K V} {level : Addr → ℕ} (inv : Inv n t level)
    (m : K → Option V) (rep : Represents t m) (a : Addr) (p : Node K V) (at : Page t a p)
    (active : IsActive p) where
  answer :
      (k : K) (kind : NodeKind K V)
      → p.kind ≡ kind
      → level a ≡ 0
      → Owns p k
      → lookup (records p.kind) k ≡ m k
  answer k (leaf contents) is low owns = rw is (rep a p contents k at is owns)
  answer k (internal node) is low owns =
      let (above, e, shape) = rw is at (inv.page a p at).kind in absurd (omega (arith, e, low))
  answer k (redirect b) is low owns = absurd (let h = rw is at active in cc)

  -- An active page at the level of the leaves answers for its keys.
  pub records-answer : (k : K) → level a ≡ 0 → Owns p k → lookup (records p.kind) k ≡ m k
  records-answer k = answer k p.kind refl

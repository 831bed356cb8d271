-- ===== src/Iter/Count.antt =====
-- How many records an iterator of src/iter.rs has still to give.
use Prim.Native.Nat.Ordering.{lt}
use b_link.Prelude.{
  ℕ, zero, suc, ◌+◌, ◌≤◌, ◌≡◌, ◌≢◌, refl, sym, ◌∙◌, inl, inr, Bool, true, false, Option, none, some,
  List, [], ◌∷◌, arith, is_some, if◌then◌else◌, length, get_elem?, All, All-imp,
}
use b_link.Ord.{Ord, Ordering-cases, ◌≺◌, ◌≼◌, ◌≈◌, le_trans, lt_of_lt_of_le, le_of_lt}
use b_link.Bound.{Bound, unbounded, included, excluded, AfterStart}
use b_link.Node.{Addr, Entry, LeafNode, NodeKind, internal, leaf, redirect, Node}
use b_link.Records.{lookup, IsSorted}
use b_link.Records.Laws.{lookup-After, After}
use b_link.Iter.Steps.{Least}
use b_link.Tree.{Tree}
use b_link.Tree.Read.Arrival.{leaf_read_for-Arrives}
use b_link.Tree.Read.Seek.{lookup-get_elem?}
use b_link.Tree.Read.After.{leaf_shape, owned}
use b_link.Tree.Invariant.{Page, Owns, Inv, kind_count, record_count}
use b_link.Tree.Invariant.Contents.{Represents, leaf-IsActive, leaf-level, Owns-congr}

module _ {K : Type 0} ⦃o : Ord K⦄ where
  abbrev pub after_start : Bound K → K → Bool
  after_start unbounded k = true
  after_start (included start) k = elim (o.cmp k start) [ lt ↦ false | _ ↦ true ]
  after_start (excluded start) k = elim (o.cmp start k) [ lt ↦ true | _ ↦ false ]

  after_start-true : (start : Bound K) (k : K) → AfterStart start k → after_start start k ≡ true
  after_start-true unbounded k h = refl
  after_start-true (included start) k h = ground arith
  after_start-true (excluded start) k h = ground arith

  AfterStart-of_test : (start : Bound K) (k : K) → after_start start k ≡ true → AfterStart start k
  AfterStart-of_test unbounded k h = tt
  AfterStart-of_test (included start) k h = ground arith
  AfterStart-of_test (excluded start) k h = ground arith

  pub AfterStart-mono :
      (start : Bound K) (j k : K) → AfterStart start j → j ≼ k → AfterStart start k
  AfterStart-mono unbounded j k h le = tt
  AfterStart-mono (included start) j k h le = le_trans start j k h le
  AfterStart-mono (excluded start) j k h le = lt_of_lt_of_le start j k h le

module _ {K V : Type 0} ⦃o : Ord K⦄ where
  abbrev rest : Bound K → List (Entry K V) → ℕ
  rest start [] = 0
  rest start (e ∷ es) = (if after_start start e.key then 1 else 0) + rest start es

  abbrev kind_rest : Bound K → NodeKind K V → ℕ
  kind_rest start (leaf contents) = rest start contents.entries
  kind_rest start _ = 0

  abbrev pub remaining : Bound K → List (Node K V) → ℕ
  remaining start [] = 0
  remaining start (p ∷ ps) = kind_rest start p.kind + remaining start ps

  rest_all : (es : List (Entry K V)) → rest unbounded es ≡ length es
  rest_all [] = refl
  rest_all (e ∷ es) = omega (arith, rest_all es)

  kind_rest_all : (kind : NodeKind K V) → kind_rest unbounded kind ≡ kind_count kind
  kind_rest_all (leaf contents) = rest_all contents.entries
  kind_rest_all (internal contents) = refl
  kind_rest_all (redirect target) = refl

  pub remaining_all : (ps : List (Node K V)) → remaining unbounded ps ≡ record_count ps
  remaining_all [] = refl
  remaining_all (p ∷ ps) = omega (arith, kind_rest_all p.kind, remaining_all ps)

  rest-le : (start : Bound K) (es : List (Entry K V)) → rest start es ≤ length es
  rest-le start [] = omega arith
  rest-le start (e ∷ es) = ground (arith, rest-le start es)

  kind_rest-le : (start : Bound K) (kind : NodeKind K V) → kind_rest start kind ≤ kind_count kind
  kind_rest-le start (leaf contents) = rest-le start contents.entries
  kind_rest-le start (internal contents) = omega arith
  kind_rest-le start (redirect target) = omega arith

  pub remaining-le : (start : Bound K) (ps : List (Node K V)) → remaining start ps ≤ record_count ps
  remaining-le start [] = omega arith
  remaining-le start (p ∷ ps) = omega (arith, kind_rest-le start p.kind, remaining-le start ps)

  -- The records after a start, and those after the least key from the start on.
  rest_least :
      (start : Bound K) (k : K) (es : List (Entry K V))
      → AfterStart start k
      → All (λ (x : Entry K V). AfterStart start x.key → x.key ≺ k → ⊥) es
      → IsSorted es
      → rest start es ≡ rest (excluded k) es + (if is_some (lookup es k) then 1 else 0)
  unfolding lookup
  rest_least start k [] after least s = omega arith
  rest_least start k (x ∷ es) after (first, least) s =
      let more = rest_least start k es after least s.1 in
      elim (Ordering-cases (o.cmp x.key k)) [
        | inl below ↦
            let skipped : after_start start x.key ≡ false =
              ground (arith, AfterStart-of_test start x.key, first) in
            ground (arith, more, skipped, o.cmp_swap x.key k)
        | inr (inl equal) ↦
            let counted =
              after_start-true start x.key
                (AfterStart-mono start k x.key after (ground (arith, o.cmp_swap x.key k))) in
            let gone = lookup-After es k (congr equal s.0) in
            ground (arith, more, counted, gone, o.cmp_swap x.key k)
        | inr (inr above) ↦
            let less : k ≺ x.key = ground (arith, o.cmp_swap x.key k) in
            let counted =
              after_start-true start x.key
                (AfterStart-mono start k x.key after (le_of_lt k x.key less)) in
            ground (arith, more, counted, less)
      ]
    where
      congr : x.key ≈ k → All (After x.key) es → All (After k) es
      congr same above =
          All-imp (λ (e : Entry K V) q. ground (arith, o.cmp_congr x.key k e.key)) es above

  All-of_get_elem? :
      (P : Entry K V → Type 0) (es : List (Entry K V))
      → ((i : ℕ) (e : Entry K V) → get_elem? es i ≡ some e → P e)
      → All P es
  All-of_get_elem? P [] h = tt
  All-of_get_elem? P (e ∷ es) h = (h 0 e refl, All-of_get_elem? P es (λ i. h (suc i)))

  lookup-none :
      (es : List (Entry K V)) (k : K)
      → ((i : ℕ) (e : Entry K V) → get_elem? es i ≡ some e → e.key ≈ k → ⊥)
      → lookup es k ≡ none
  unfolding lookup
  lookup-none [] k h = refl
  lookup-none (e ∷ es) k h =
      let other = h 0 e refl in ground (arith, lookup-none es k (λ i. h (suc i)))

  remaining-same :
      (s s' : Bound K) (ps : List (Node K V))
      → ((b : Addr) (q : Node K V)
          → get_elem? ps b ≡ some q
          → kind_rest s q.kind ≡ kind_rest s' q.kind)
      → remaining s ps ≡ remaining s' ps
  remaining-same s s' [] same = refl
  remaining-same s s' (p ∷ ps) same =
      omega (arith, same 0 p refl, remaining-same s s' ps (λ b. same (suc b)))

  -- Sums over the pages that differ at one page, by one.
  remaining-suc :
      (s s' : Bound K) (ps : List (Node K V)) (a : Addr) (p : Node K V)
      → get_elem? ps a ≡ some p
      → kind_rest s p.kind ≡ suc (kind_rest s' p.kind)
      → ((b : Addr) (q : Node K V)
          → get_elem? ps b ≡ some q
          → b ≢ a
          → kind_rest s q.kind ≡ kind_rest s' q.kind)
      → remaining s ps ≡ suc (remaining s' ps)
  remaining-suc s s' [] a p at one others = absurd cc
  remaining-suc s s' (x ∷ ps) zero p at one others =
      let same : x ≡ p = cc in
      let one' : kind_rest s x.kind ≡ suc (kind_rest s' x.kind) = rw same one in
      omega (
        arith,
        one',
        remaining-same s s' ps (λ b q at'. others (suc b) q at' (λ e. omega (arith, e))),
      )
  remaining-suc s s' (x ∷ ps) (suc a) p at one others = omega (
    arith,
    others 0 x refl (λ e. omega (arith, e)),
    remaining-suc s s' ps a p at one
        (λ b q at' ne. others (suc b) q at' (λ e. ne (omega (arith, e)))),
  )

  module _ {n : ℕ} {t : Tree K V} {level : Addr → ℕ} (inv : Inv n t level) (m : K → Option V)
      (rep : Represents t m) (start : Bound K) (e : Entry K V) (least : Least m start e) where
    leaf_rest :
        (b : Addr) (q : Node K V) (contents : LeafNode K V)
        → Page t b q
        → q.kind ≡ leaf contents
        → rest start contents.entries
          ≡ rest (excluded e.key) contents.entries
            + (if is_some (lookup contents.entries e.key) then 1 else 0)
    leaf_rest b q contents at is =
        let shape = leaf_shape inv m rep b q contents at is in
        rest_least start e.key contents.entries least.0
          (All-of_get_elem? (λ (x : Entry K V). AfterStart start x.key → x.key ≺ e.key → ⊥)
            contents.entries
            (λ i x there after before.
              let gone =
                sym (lookup-get_elem? contents.entries i x shape.sorted there)
                ∙ rep b q contents x.key at is (owned inv m rep b q contents at is i x there)
                ∙ least.2 x.key after before in
              absurd cc))
          shape.sorted

    elsewhere :
        (a b : Addr) (p q : Node K V) (old contents : LeafNode K V)
        → Page t a p
        → p.kind ≡ leaf old
        → Owns p e.key
        → Page t b q
        → q.kind ≡ leaf contents
        → b ≢ a
        → lookup contents.entries e.key ≡ none
    elsewhere a b p q old contents at is owns at' is' other =
        let shape = leaf_shape inv m rep b q contents at' is' in
        lookup-none contents.entries e.key (λ i x there same. other (
          inv.disjoint b a q p e.key at' at (leaf-IsActive q contents is') (leaf-IsActive p old is)
            (leaf-level inv b q contents at' is' ∙ sym (leaf-level inv a p old at is))
            (Owns-congr q x.key e.key same (owned inv m rep b q contents at' is' i x there)) owns))

    other_rest :
        (a b : Addr) (p q : Node K V) (old : LeafNode K V)
        → Page t a p
        → p.kind ≡ leaf old
        → Owns p e.key
        → Page t b q
        → b ≢ a
        → (kind : NodeKind K V) → q.kind ≡ kind
        → kind_rest start kind ≡ kind_rest (excluded e.key) kind
    other_rest a b p q old at is owns at' other (leaf contents) is' =
        let gone = elsewhere a b p q old contents at is owns at' is' other in
        ground (arith, leaf_rest b q contents at' is')
    other_rest a b p q old at is owns at' other (internal contents) is' = refl
    other_rest a b p q old at is owns at' other (redirect target) is' = refl

    -- One record less is left after the next one.
    pub remaining-Least : remaining start t.pages ≡ suc (remaining (excluded e.key) t.pages)
    remaining-Least =
        let (a, reads, arrives) = leaf_read_for-Arrives inv e.key in
        let contents = arrives.contents in
        let is = arrives.is_leaf in
        let present = rep a arrives.page contents e.key arrives.at is arrives.owns ∙ least.1 in
        let here = leaf_rest a arrives.page contents arrives.at is in
        let one : rest start contents.entries ≡ suc (rest (excluded e.key) contents.entries) =
          ground (arith, present, here) in
        remaining-suc start (excluded e.key) t.pages a arrives.page arrives.at (rw is one)
          (λ b q at' other.
            other_rest a b arrives.page q contents arrives.at is arrives.owns at' other q.kind refl)

  rest_none :
      (start : Bound K) (es : List (Entry K V))
      → All (λ (x : Entry K V). AfterStart start x.key → ⊥) es
      → rest start es ≡ 0
  rest_none start [] h = refl
  rest_none start (x ∷ es) h =
      ground (arith, h.0, AfterStart-of_test start x.key, rest_none start es h.1)

  remaining-zero :
      (start : Bound K) (ps : List (Node K V))
      → ((b : Addr) (q : Node K V) → get_elem? ps b ≡ some q → kind_rest start q.kind ≡ 0)
      → remaining start ps ≡ 0
  remaining-zero start [] h = refl
  remaining-zero start (p ∷ ps) h =
      omega (arith, h 0 p refl, remaining-zero start ps (λ b. h (suc b)))

  module _ {n : ℕ} {t : Tree K V} {level : Addr → ℕ} (inv : Inv n t level) (m : K → Option V)
      (rep : Represents t m) (start : Bound K)
      (exhausted : (j : K) → AfterStart start j → m j ≡ none) where
    none_left :
        (b : Addr) (q : Node K V)
        → Page t b q
        → (kind : NodeKind K V) → q.kind ≡ kind
        → kind_rest start kind ≡ 0
    none_left b q at (leaf contents) is =
        let shape = leaf_shape inv m rep b q contents at is in
        rest_none start contents.entries (
          All-of_get_elem? (λ (x : Entry K V). AfterStart start x.key → ⊥) contents.entries
            (λ i x there after.
              let gone =
                sym (lookup-get_elem? contents.entries i x shape.sorted there)
                ∙ rep b q contents x.key at is (owned inv m rep b q contents at is i x there)
                ∙ exhausted x.key after in
              absurd cc))
    none_left b q at (internal contents) is = refl
    none_left b q at (redirect target) is = refl

    pub remaining-exhausted : remaining start t.pages ≡ 0
    remaining-exhausted = remaining-zero start t.pages (λ b q at. none_left b q at q.kind refl)

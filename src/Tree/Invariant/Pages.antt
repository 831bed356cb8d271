-- ===== src/Tree/Invariant/Pages.antt =====
-- Pages after a write or an allocation.
use b_link.Prelude.{
  ℕ, zero, suc, ◌+◌, ◌-◌, ◌≤◌, ◌<◌, ◌≡◌, ◌≢◌, refl, sym, ◌∙◌, ap, inl, inr, ◌⊎◌, some, List, [],
  ◌∷◌, ◌++◌, arith, ltb, ◌==◌, Bool-cases, if◌then◌else◌, length, get_elem?, set, get_elem?-set,
  get_elem?-append, get_elem?-ge, lt_of_get_elem?,
}
use b_link.Node.{Addr, Node}
use b_link.Tree.{Tree, store, allocate, fresh}
use b_link.Tree.Invariant.{Page, kind_count, record_count}

some_inj : {A : Type 0} {a b : A} → some a ≡ some b → a ≡ b
some_inj e = cc

set-past : {A : Type 0} (xs : List A) (i : ℕ) (v : A) → length xs ≤ i → set xs i v ≡ xs
set-past [] i v h = refl
set-past (x ∷ xs) zero v h = absurd (omega arith)
set-past (x ∷ xs) (suc i) v h = ap (◌∷◌ x) (set-past xs i v (omega arith))

module _ {K V : Type 0} where
  pub Page-store :
      (t : Tree K V) (a b : Addr) (p : Node K V)
      → a < length t.pages
      → get_elem? (store t a p).pages b ≡ (if a == b then some p else get_elem? t.pages b)
  Page-store t a b p h = get_elem?-set t.pages a b p h

  pub Page-allocate :
      (t : Tree K V) (b : Addr) (p : Node K V)
      → get_elem? (allocate t p).pages b
        ≡ (if b == length t.pages then some p else get_elem? t.pages b)
  Page-allocate t b p = ground (
    arith,
    get_elem?-append t.pages (p ∷ []) b,
    get_elem?-ge t.pages b,
    get_elem?-ge (p ∷ []) (b - length t.pages),
  )

  -- An address has one page.
  pub Page-unique : (t : Tree K V) (a : Addr) (p q : Node K V) → Page t a p → Page t a q → p ≡ q
  Page-unique t a p q h h' = cc

  module _ (t : Tree K V) (a : Addr) (w : Node K V) where
    pub store-new : a < length t.pages → Page (store t a w) a w
    store-new h = ground (arith, Page-store t a a w h)

    pub store-other : (b : Addr) (q : Node K V) → a ≢ b → Page t b q → Page (store t a w) b q
    store-other b q ne at = elim (Bool-cases (ltb a (length t.pages))) [
      | inl inside ↦ ground (arith, Page-store t a b w)
      | inr outside ↦ ground (arith, set-past t.pages a w)
    ]

    -- A page after a write is the written one, or an old one at another address.
    pub store-cases :
        (b : Addr) (q : Node K V)
        → a < length t.pages
        → Page (store t a w) b q
        → ((a ≡ b) × (q ≡ w)) ⊎ ((a ≢ b) × Page t b q)
    store-cases b q h at = elim (Bool-cases (a == b)) [
      | inl same ↦ inl (ground arith, some_inj (sym at ∙ Page-store t a b w h ∙ rw same))
      | inr other ↦ inr (ground arith, ground (arith, Page-store t a b w h))
    ]

  module _ (t : Tree K V) (w : Node K V) where
    pub allocate-new : Page (allocate t w) (fresh t) w
    allocate-new = ground (arith, Page-allocate t (fresh t) w)

    pub allocate-old : (b : Addr) (q : Node K V) → Page t b q → Page (allocate t w) b q
    allocate-old b q at = ground (arith, Page-allocate t b w, lt_of_get_elem? t.pages b q at)

    pub allocate-cases :
        (b : Addr) (q : Node K V)
        → Page (allocate t w) b q
        → ((fresh t ≡ b) × (q ≡ w)) ⊎ ((fresh t ≢ b) × Page t b q)
    allocate-cases b q at = elim (Bool-cases (b == length t.pages)) [
      | inl same ↦ inl (ground arith, some_inj (sym at ∙ Page-allocate t b w ∙ rw same))
      | inr other ↦ inr (ground arith, ground (arith, Page-allocate t b w))
    ]

  pub count-set :
      (ps : List (Node K V)) (a : Addr) (p q : Node K V)
      → get_elem? ps a ≡ some p
      → record_count (set ps a q) + kind_count p.kind ≡ record_count ps + kind_count q.kind
  count-set [] a p q h = absurd cc
  count-set (r ∷ ps) zero p q h =
      let same : r ≡ p = cc in omega (arith, ap (λ (x : Node K V). kind_count x.kind) same)
  count-set (r ∷ ps) (suc a) p q h = omega (arith, count-set ps a p q h)

  pub count-append :
      (ps : List (Node K V)) (p : Node K V)
      → record_count (ps ++ p ∷ []) ≡ record_count ps + kind_count p.kind
  count-append [] p = omega arith
  count-append (q ∷ ps) p = omega (arith, count-append ps p)

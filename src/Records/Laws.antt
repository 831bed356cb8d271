-- ===== src/Records/Laws.antt =====
-- The laws of `lookup`, `put` and `delete` on records in order.
use Prim.Native.Nat.Ordering.{lt, eq}
use b_link.Prelude.{
  suc, ◌≡◌, refl, Option, none, some, List, [], ◌∷◌, ◌++◌, arith, is_some, if◌then◌else◌, length,
  All, All-imp, All-append, All-append_left, All-append_right,
}
use b_link.Ord.{Ord, ◌≺◌, ◌≈◌, lt_of_lt_of_le, cmp_congr_right}
use b_link.Node.{Entry}
use b_link.Records.{lookup, put, delete, IsSorted}

abbrev pub or_else {ℓ} : {A : Type ℓ} → Option A → Option A → Option A
or_else (some a) other = some a
or_else none other = other

module _ {K V : Type 0} ⦃o : Ord K⦄ where
  abbrev pub After : K → Entry K V → Type 0
  After k e = k ≺ e.key

  abbrev pub Before : K → Entry K V → Type 0
  Before k e = e.key ≺ k

  pub lookup-append :
      (xs ys : List (Entry K V)) (k : K) → lookup (xs ++ ys) k ≡ or_else (lookup xs k) (lookup ys k)
  unfolding lookup
  lookup-append [] ys k = refl
  lookup-append (x ∷ xs) ys k = ground (arith, lookup-append xs ys k)

  -- Records above or below a key do not hold it.
  pub lookup-After : (es : List (Entry K V)) (k : K) → All (After k) es → lookup es k ≡ none
  unfolding lookup
  lookup-After [] k h = refl
  lookup-After (e ∷ es) k h = ground (arith, o.cmp_swap k e.key, lookup-After es k h.1)

  pub lookup-Before : (es : List (Entry K V)) (k : K) → All (Before k) es → lookup es k ≡ none
  unfolding lookup
  lookup-Before [] k h = refl
  lookup-Before (e ∷ es) k h = ground (arith, lookup-Before es k h.1)

  pub delete-After : (es : List (Entry K V)) (k : K) → All (After k) es → delete es k ≡ es
  unfolding delete
  delete-After [] k h = refl
  delete-After (e ∷ es) k h = ground (arith, o.cmp_swap k e.key, delete-After es k h.1)

  -- A property of the keys is kept by `put` and `delete`.
  pub All-put :
      (P : K → Type 0) (es : List (Entry K V)) (k : K) (v : V)
      → P k
      → All (λ e. P e.key) es
      → All (λ e. P e.key) (put es k v)
  unfolding put
  All-put P [] k v p h = (p, tt)
  All-put P (e ∷ es) k v p h = ground (arith, All-put P es k v p h.1)

  pub All-delete :
      (P : K → Type 0) (es : List (Entry K V)) (k : K)
      → All (λ e. P e.key) es
      → All (λ e. P e.key) (delete es k)
  unfolding delete
  All-delete P [] k h = tt
  All-delete P (e ∷ es) k h = ground (arith, All-delete P es k h.1)

  pub All-After_trans :
      (es : List (Entry K V)) (j k : K) → j ≺ k → All (After k) es → All (After j) es
  All-After_trans es j k p h = All-imp (λ e. o.cmp_trans j k e.key p) es h

  pub All-After_congr :
      (es : List (Entry K V)) (j k : K) → j ≈ k → All (After j) es → All (After k) es
  All-After_congr es j k p h = All-imp (λ e q. ground (arith, o.cmp_congr j k e.key)) es h

  pub put-IsSorted : (es : List (Entry K V)) (k : K) (v : V) → IsSorted es → IsSorted (put es k v)
  unfolding put
  put-IsSorted [] k v s = (tt, tt)
  put-IsSorted (e ∷ es) k v s = ground (
    arith,
    put-IsSorted es k v s.1,
    All-put (λ j. e.key ≺ j) es k v,
    All-After_trans es k e.key,
    o.cmp_swap e.key k,
  )

  pub delete-IsSorted : (es : List (Entry K V)) (k : K) → IsSorted es → IsSorted (delete es k)
  unfolding delete
  delete-IsSorted [] k s = tt
  delete-IsSorted (e ∷ es) k s =
      ground (arith, delete-IsSorted es k s.1, All-delete (λ j. e.key ≺ j) es k s.0)

  -- After `put` the key has the new value, and every other key what it had.
  pub lookup-put :
      (es : List (Entry K V)) (k : K) (v : V) (j : K)
      → IsSorted es
      → lookup (put es k v) j ≡ elim (o.cmp k j) [ eq ↦ some v | _ ↦ lookup es j ]
  unfolding lookup put
  lookup-put [] k v j s = refl
  lookup-put (e ∷ es) k v j s =
      ground (arith, lookup-put es k v j s.1, o.cmp_congr e.key k j, cmp_congr_right e.key k j)

  -- After `delete` the key is gone, and every other key has what it had.
  pub lookup-delete :
      (es : List (Entry K V)) (k j : K)
      → IsSorted es
      → lookup (delete es k) j ≡ elim (o.cmp k j) [ eq ↦ none | _ ↦ lookup es j ]
  unfolding lookup delete
  lookup-delete [] k j s = ground arith
  lookup-delete (e ∷ es) k j s = ground (
    arith,
    lookup-delete es k j s.1,
    o.cmp_congr e.key k j,
    cmp_congr_right e.key k j,
    lookup-After es j,
    All-After_congr es e.key j,
  )

  pub length-put :
      (es : List (Entry K V)) (k : K) (v : V)
      → IsSorted es
      → length (put es k v) ≡ (if is_some (lookup es k) then length es else suc (length es))
  unfolding lookup put
  length-put [] k v s = refl
  length-put (e ∷ es) k v s = ground (
    arith,
    length-put es k v s.1,
    lookup-After es k,
    All-After_trans es k e.key,
    o.cmp_swap e.key k,
  )

  pub length-delete :
      (es : List (Entry K V)) (k : K)
      → length es
        ≡ (if is_some (lookup es k) then suc (length (delete es k)) else length (delete es k))
  unfolding lookup delete
  length-delete [] k = refl
  length-delete (e ∷ es) k = ground (arith, length-delete es k)

  pub IsSorted-append :
      (xs ys : List (Entry K V)) (k : K)
      → IsSorted xs
      → IsSorted ys
      → All (Before k) xs
      → All (λ (e : Entry K V). o.cmp e.key k ≡ lt → ⊥) ys
      → IsSorted (xs ++ ys)
  IsSorted-append [] ys k s t below above = t
  IsSorted-append (x ∷ xs) ys k s t below above = (
    All-append (After x.key) xs ys s.0
        (All-imp (λ e h. lt_of_lt_of_le x.key k e.key below.0 h) ys above),
    IsSorted-append xs ys k s.1 t below.1 above,
  )

  pub IsSorted-append_left : (xs ys : List (Entry K V)) → IsSorted (xs ++ ys) → IsSorted xs
  IsSorted-append_left [] ys s = tt
  IsSorted-append_left (x ∷ xs) ys s =
      (All-append_left (After x.key) xs ys s.0, IsSorted-append_left xs ys s.1)

  pub IsSorted-append_right : (xs ys : List (Entry K V)) → IsSorted (xs ++ ys) → IsSorted ys
  IsSorted-append_right [] ys s = s
  IsSorted-append_right (x ∷ xs) ys s = IsSorted-append_right xs ys s.1

  -- In a sorted list, what stands before a record is below its key.
  pub IsSorted-Before :
      (xs : List (Entry K V)) (y : Entry K V) (ys : List (Entry K V))
      → IsSorted (xs ++ y ∷ ys)
      → All (Before y.key) xs
  IsSorted-Before [] y ys s = tt
  IsSorted-Before (x ∷ xs) y ys s =
      ((All-append_right (After x.key) xs (y ∷ ys) s.0).0, IsSorted-Before xs y ys s.1)

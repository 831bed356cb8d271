-- ===== src/Ord.antt =====
-- The bound `K: Ord`: a comparison that is a total preorder. Keys that compare equal need not be
-- the same value, and a borrowed key `Q` is read as the key that it stands for, whose order agrees
-- with that of `K` by the contract of `Borrow`.
use Prim.Native.Nat.{compare, Ordering}
use Prim.Native.Nat.Ordering.{lt, eq, gt}
use b_link.Prelude.{ℕ, ◌≡◌, refl, ◌⊎◌, inl, inr, ◌≢◌, Option, none, some, arith}

abbrev pub reverse : Ordering → Ordering
reverse lt = gt
reverse eq = eq
reverse gt = lt

pub Ordering-cases : (r : Ordering) → (r ≡ lt) ⊎ (r ≡ eq) ⊎ (r ≡ gt)
Ordering-cases lt = inl refl
Ordering-cases eq = inr (inl refl)
Ordering-cases gt = inr (inr refl)

pub record IsLawful {ℓ} {K : Type ℓ} (cmp : K → K → Ordering) : Type ℓ where
  pub cmp_swap : (a b : K) → cmp b a ≡ reverse (cmp a b)
  pub cmp_trans : (a b c : K) → cmp a b ≡ lt → cmp b c ≡ lt → cmp a c ≡ lt
  pub cmp_congr : (a b c : K) → cmp a b ≡ eq → cmp a c ≡ cmp b c

pub record Ord {ℓ} (K : Type ℓ) : Type ℓ where
  pub cmp : K → K → Ordering
  pub lawful : IsLawful cmp
  pub open lawful use *

pub compare-IsLawful : IsLawful compare
compare-IsLawful = ground arith

instance abbrev pub nat_ord : Ord ℕ
nat_ord = record { cmp = compare; lawful = compare-IsLawful }

module _ {ℓ} {K : Type ℓ} ⦃o : Ord K⦄ where
  infix 50 ◌≺◌ ◌≼◌ ◌≈◌
  abbrev pub ◌≺◌ : K → K → Type 0
  a ≺ b = o.cmp a b ≡ lt

  abbrev pub ◌≼◌ : K → K → Type 0
  a ≼ b = o.cmp b a ≢ lt

  abbrev pub ◌≈◌ : K → K → Type 0
  a ≈ b = o.cmp a b ≡ eq

  pub cmp_refl : (a : K) → o.cmp a a ≡ eq
  cmp_refl a = ground (arith, o.cmp_swap a a)

  pub cmp_congr_right : (a b c : K) → b ≈ c → o.cmp a b ≡ o.cmp a c
  cmp_congr_right a b c p = ground (arith, o.cmp_congr b c a, o.cmp_swap a b, o.cmp_swap a c)

  pub lt_of_lt_of_le : (a b c : K) → a ≺ b → b ≼ c → a ≺ c
  lt_of_lt_of_le a b c p q =
      ground (
        arith,
        o.cmp_trans a b c,
        o.cmp_swap b c,
        o.cmp_congr b c a,
        o.cmp_swap a b,
        o.cmp_swap a c,
      )

  pub lt_of_le_of_lt : (a b c : K) → a ≼ b → b ≺ c → a ≺ c
  lt_of_le_of_lt a b c p q = ground (arith, o.cmp_trans a b c, o.cmp_swap a b, o.cmp_congr a b c)

  pub le_trans : (a b c : K) → a ≼ b → b ≼ c → a ≼ c
  le_trans a b c p q = λ h. p (lt_of_le_of_lt b c a q h)

  pub le_of_lt : (a b : K) → a ≺ b → a ≼ b
  le_of_lt a b p = ground (arith, o.cmp_swap a b)

  pub le_of_eq : (a b : K) → a ≈ b → a ≼ b
  le_of_eq a b p = ground (arith, o.cmp_swap a b)

  pub ge_of_eq : (a b : K) → a ≈ b → b ≼ a
  ge_of_eq a b p = ground (arith, o.cmp_swap a b)

  pub le_refl : (a : K) → a ≼ a
  le_refl a = ground (arith, cmp_refl a)

  -- A lower fence, the least key that a page may hold; a missing one is negative infinity.
  abbrev pub AtLeast : Option K → K → Type 0
  AtLeast none k = Unit
  AtLeast (some low) k = low ≼ k

  -- An upper fence, above every key of a page; a missing one is positive infinity.
  abbrev pub Below : Option K → K → Type 0
  Below none k = Unit
  Below (some high) k = k ≺ high

  -- The half-open interval between two fences.
  abbrev pub Between : Option K → Option K → K → Type 0
  Between low high k = AtLeast low k × Below high k

-- ===== src/Bound.antt =====
-- `std::ops::Bound` of the standard library, and the two ends of a `RangeBounds` of src/iter.rs.
use b_link.Prelude.{Bool, true, false}
use b_link.Ord.{Ord, ◌≺◌, ◌≼◌, lt_of_lt_of_le}

pub data Bound {ℓ} (K : Type ℓ) : Type ℓ where
  unbounded : Bound K
  included excluded : K → Bound K

module _ {K : Type 0} where
  -- A start at a key, or strictly after it.
  abbrev pub start_at : K → Bool → Bound K
  start_at k true = included k
  start_at k false = excluded k

module _ {K : Type 0} ⦃o : Ord K⦄ where
  -- A key that a start bound lets in, and one that an end bound lets in.
  abbrev pub AfterStart : Bound K → K → Type 0
  AfterStart unbounded k = Unit
  AfterStart (included start) k = start ≼ k
  AfterStart (excluded start) k = start ≺ k

  abbrev pub BeforeEnd : Bound K → K → Type 0
  BeforeEnd unbounded k = Unit
  BeforeEnd (included end) k = k ≼ end
  BeforeEnd (excluded end) k = k ≺ end

  pub AfterStart-lt :
      (a k j : K) (inclusive : Bool) → a ≺ k → AfterStart (start_at k inclusive) j → a ≺ j
  AfterStart-lt a k j true below h = lt_of_lt_of_le a k j below h
  AfterStart-lt a k j false below h = o.cmp_trans a k j below h

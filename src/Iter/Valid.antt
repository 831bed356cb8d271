-- ===== src/Iter/Valid.antt =====
-- The bounds that a range of src/iter.rs accepts.
use b_link.Prelude.{◌≡◌, refl, ◌⊎◌, inl, arith, ok, panic}
use b_link.Ord.{Ord, Ordering-cases, ◌≺◌, ◌≼◌}
use b_link.Bound.{Bound, unbounded, included, excluded}
use b_link.Iter.{RangeBounds, range_new, validate_bounds}
use b_link.Iter.Ranged.{range_of}

module _ {K : Type 0} ⦃o : Ord K⦄ where
  -- Two ends in the wrong order, or equal ends that both exclude their key.
  unfoldable pub IsInverted : Bound K → Bound K → Type 0
  IsInverted unbounded end = ⊥
  IsInverted start unbounded = ⊥
  IsInverted (included start) (included end) = end ≺ start
  IsInverted (included start) (excluded end) = end ≺ start
  IsInverted (excluded start) (included end) = end ≺ start
  IsInverted (excluded start) (excluded end) = end ≼ start

  -- A call of `range` is accepted with these bounds, or it panics.
  abbrev Judged : Bound K → Bound K → Type 0
  Judged start end =
      let bounds : RangeBounds K = record { start_bound = start; end_bound = end } in
      ((range_new bounds ≡ ok (range_of bounds)) × (IsInverted start end → ⊥))
      ⊎ ((range_new bounds ≡ panic) × IsInverted start end)

  -- `range` accepts its bounds and starts there, or it panics, and then the bounds are inverted.
  pub range_new-IsInverted : (start end : Bound K) → Judged start end
  unfolding range_new validate_bounds IsInverted
  range_new-IsInverted unbounded end = inl (refl, λ h. h)
  range_new-IsInverted (included start) unbounded = inl (refl, λ h. h)
  range_new-IsInverted (excluded start) unbounded = inl (refl, λ h. h)
  range_new-IsInverted (included start) (included end) =
      ground (arith, Ordering-cases (o.cmp start end), o.cmp_swap start end)
  range_new-IsInverted (included start) (excluded end) =
      ground (arith, Ordering-cases (o.cmp start end), o.cmp_swap start end)
  range_new-IsInverted (excluded start) (included end) =
      ground (arith, Ordering-cases (o.cmp start end), o.cmp_swap start end)
  range_new-IsInverted (excluded start) (excluded end) =
      ground (arith, Ordering-cases (o.cmp start end), o.cmp_swap start end)

-- ===== src/Iter/Next.antt =====
-- src/iter.rs: `next` of each iterator, while no other thread writes.
use b_link.Prelude.{ℕ, true, false, Option, none, some, if◌then◌else◌, Run, ok, ◌>>=◌, expect}
use b_link.Ord.{Ord}
use b_link.Bound.{Bound, unbounded, included, excluded}
use b_link.Node.{Addr}
use b_link.Handle.{EntryRef}
use b_link.Iter.{
  Iter, Range, Keys, Values, KeyRef, ValueRef, key_ref, value_ref, clone_key, inside_end_bound,
}
use b_link.Tree.{Tree, load}
use b_link.Tree.Read.{first_entry, entry_at_or_after}

module _ {K V : Type 0} ⦃o : Ord K⦄ where
  -- `next` at a candidate, for an iterator.
  unfoldable pub iter_yield :
      Tree K V → Iter K → Option (Addr × ℕ) → Run (Iter K × Option (EntryRef K V))
  iter_yield t it none = ok (record it { finished = true }, none)
  iter_yield t it (some (a, index)) = do
    guard ← load t a
    key ← clone_key guard index
    ok (record it { last = some key }, some (record { guard = guard; index = index }))

  unfoldable pub iter_candidate : ℕ → Tree K V → Option K → Run (Option (Addr × ℕ))
  iter_candidate rounds t none = first_entry rounds t
  iter_candidate rounds t (some last) = entry_at_or_after rounds t last false

  unfoldable pub iter_next : ℕ → Tree K V → Iter K → Run (Iter K × Option (EntryRef K V))
  unfolding iter_candidate iter_yield clone_key first_entry entry_at_or_after
  iter_next rounds t it =
      if it.finished
      then ok (it, none)
      else (do candidate ← iter_candidate rounds t it.last; iter_yield t it candidate)

  unfoldable pub keys_next : ℕ → Tree K V → Keys K → Run (Keys K × Option (KeyRef K V))
  unfolding iter_next
  keys_next rounds t it = do
    (inner, item) ← iter_next rounds t it.inner
    ok (record { inner = inner }, key_ref item)

  unfoldable pub values_next : ℕ → Tree K V → Values K → Run (Values K × Option (ValueRef K V))
  unfolding iter_next
  values_next rounds t it = do
    (inner, item) ← iter_next rounds t it.inner
    ok (record { inner = inner }, value_ref item)

  unfoldable pub start_candidate : ℕ → Tree K V → Bound K → Run (Option (Addr × ℕ))
  start_candidate rounds t unbounded = first_entry rounds t
  start_candidate rounds t (included start) = entry_at_or_after rounds t start true
  start_candidate rounds t (excluded start) = entry_at_or_after rounds t start false

  unfoldable pub range_candidate : ℕ → Tree K V → Range K → Run (Option (Addr × ℕ))
  unfolding start_candidate
  range_candidate rounds t it =
      if it.started
      then (do last ← expect it.last; entry_at_or_after rounds t last false)
      else start_candidate rounds t it.bounds.start_bound

  -- `next` at a candidate, for a range that has started.
  unfoldable pub range_yield :
      Tree K V → Range K → Option (Addr × ℕ) → Run (Range K × Option (EntryRef K V))
  range_yield t it none = ok (record it { finished = true }, none)
  range_yield t it (some (a, index)) = do
    guard ← load t a
    key ← clone_key guard index
    if inside_end_bound key it.bounds
        then ok (record it { last = some key }, some (record { guard = guard; index = index }))
        else ok (record it { finished = true }, none)

  unfoldable pub range_next : ℕ → Tree K V → Range K → Run (Range K × Option (EntryRef K V))
  unfolding range_candidate range_yield clone_key first_entry entry_at_or_after inside_end_bound
  range_next rounds t it = if it.finished then ok (it, none) else (do
    candidate ← range_candidate rounds t it
    range_yield t (record it { started = true }) candidate)

-- ===== src/Array/Bounded.antt =====
-- What array.rs promises: a list with a capacity. An operation that would exceed the capacity, or
-- whose index is out of range, panics. The pages of the tree are modelled over these operations.
use b_link.Prelude.{
  ℕ, ◌+◌, ◌-◌, Bool, Option, none, List, [], ◌∷◌, ◌++◌, ltb, leb, ◌==◌, if◌then◌else◌, length,
  get_elem?, set, take, drop, insert_idx, erase_idx, Run, ok, ◌>>=◌, ◌>>◌, assert, expect,
}

module _ {ℓ} {T : Type ℓ} where
  -- A new list, for a capacity whose layout can be represented.
  unfoldable pub with_capacity : (fits : ℕ → Bool) → ℕ → Run (List T)
  with_capacity fits cap = do assert (ltb 0 cap); assert (fits cap); ok []

  unfoldable pub first : List T → Option T
  first xs = get_elem? xs 0

  unfoldable pub last : List T → Option T
  last xs = if length xs == 0 then none else get_elem? xs (length xs - 1)

  unfoldable pub index : List T → ℕ → Run T
  index xs i = expect (get_elem? xs i)

  -- The list that is left, and the elements from `at` on.
  unfoldable pub split_off : List T → ℕ → Run (List T × List T)
  split_off xs at = do assert (leb at (length xs)); ok (take at xs, drop at xs)

  unfoldable pub remove : List T → ℕ → Run (T × List T)
  remove xs i = do assert (ltb i (length xs)); x ← expect (get_elem? xs i); ok (x, erase_idx xs i)

  -- The last element, and the list without it.
  unfoldable pub pop : List T → Option T × List T
  unfolding last
  pop xs = (last xs, take (length xs - 1) xs)

  unfoldable pub replace : List T → ℕ → T → Run (T × List T)
  replace xs i v = do x ← expect (get_elem? xs i); ok (x, set xs i v)

  module _ (cap : ℕ) where
    unfoldable pub push : List T → T → Run (List T)
    push xs v = do assert (ltb (length xs) cap); ok (xs ++ v ∷ [])

    unfoldable pub insert : List T → ℕ → T → Run (List T)
    insert xs i v = do
      assert (leb i (length xs))
      assert (ltb (length xs) cap)
      ok (insert_idx xs i v)

    -- The elements of `ys` move behind those of `xs`; `ys` is empty afterwards.
    unfoldable pub append_from : List T → List T → Run (List T × List T)
    append_from xs ys = do assert (leb (length xs + length ys) cap); ok (xs ++ ys, [])

    unfoldable pub prepend_from : List T → List T → Run (List T × List T)
    prepend_from xs ys = do assert (leb (length xs + length ys) cap); ok (ys ++ xs, [])

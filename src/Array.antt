-- ===== src/Array.antt =====
-- src/array.rs: the fixed-capacity array over one allocation. A slot of the allocation is `none`
-- while nothing was written to it; bytes that were moved out stay in their slot, as in the source.
-- A layout that the allocator cannot represent makes `with_capacity` panic: `fits` says which
-- capacities have one. An access past the allocation or to an unwritten slot is `undefined`.
pub mod Bounded
pub mod Refine
pub mod Transfer
pub mod Clear
mod Tests
use b_link.Prelude.{
  ℕ, zero, suc, ◌+◌, ◌-◌, ◌≤◌, ◌<◌, ◌^◌, ◌≡◌, Bool, true, false, ◌&&◌, Option, none, some, List, [],
  ◌∷◌, ltb, leb, ◌==◌, if◌then◌else◌, length, get_elem?, Run, ok, undefined, ◌>>=◌, ◌>>◌, assert,
  require, expect, initialized,
}

abbrev pub Slots : Type 0 → Type 0
Slots T = ℕ → Option T

-- `ptr`, `len` and `cap`.
pub record Array (T : Type 0) : Type 0 where
  pub slots : Slots T
  pub len : ℕ
  pub cap : ℕ

-- The first `count` slots of `source` from `from`, laid over `target` from `to`: what `ptr::copy`
-- and `ptr::copy_nonoverlapping` leave behind.
unfoldable pub copy :
    {T : Type 0} → (source : Slots T) → (from : ℕ) → Slots T → (to count : ℕ) → Slots T
copy source from target to count j =
    if leb to j && ltb j (to + count) then source (from + (j - to)) else target j

-- `ptr::write`
unfoldable pub write : {T : Type 0} → Slots T → ℕ → T → Slots T
write slots i v j = if j == i then some v else slots j

-- `usize::checked_add` on a 64-bit machine.
unfoldable pub checked_add : ℕ → ℕ → Option ℕ
checked_add a b = if ltb (a + b) (2 ^ 64) then some (a + b) else none

module _ {T : Type 0} where
  unfoldable pub with_capacity : (fits : ℕ → Bool) → ℕ → Run (Array T)
  with_capacity fits cap = do
    assert (ltb 0 cap)
    assert (fits cap)
    ok (record { slots = λ _. none; len = 0; cap = cap })

  unfoldable pub is_empty : Array T → Bool
  is_empty a = a.len == 0

  unfoldable pub is_full : Array T → Bool
  is_full a = a.len == a.cap

  -- `slice::from_raw_parts(ptr, len)`: the first `n` slots, all of which must be initialized.
  unfoldable pub slice : Slots T → ℕ → Run (List T)
  slice slots zero = ok []
  slice slots (suc n) = do x ← initialized (slots 0); xs ← slice (λ i. slots (suc i)) n; ok (x ∷ xs)

  unfoldable pub as_slice : Array T → Run (List T)
  unfolding slice
  as_slice a = slice a.slots a.len

  unfoldable pub first : Array T → Run (Option T)
  unfolding as_slice
  first a = do xs ← as_slice a; ok (get_elem? xs 0)

  unfoldable pub last : Array T → Run (Option T)
  unfolding as_slice
  last a = do xs ← as_slice a; ok (if length xs == 0 then none else get_elem? xs (length xs - 1))

  -- The array that is left, and the new one of the same capacity.
  unfoldable pub split_off : (fits : ℕ → Bool) → Array T → ℕ → Run (Array T × Array T)
  unfolding with_capacity copy
  split_off fits a at = do
    assert (leb at a.len)
    other ← with_capacity fits a.cap
    require (leb (at + (a.len - at)) a.cap && leb (a.len - at) other.cap)
    ok (
      record a { len = at },
      record other { slots = copy a.slots at other.slots 0 (a.len - at); len = a.len - at },
    )

  -- `self` and `other` afterwards.
  unfoldable pub append_from : Array T → Array T → Run (Array T × Array T)
  unfolding copy checked_add
  append_from a other = do
    new_len ← expect (checked_add a.len other.len)
    assert (leb new_len a.cap)
    if other.len == 0 then ok (a, other) else do
      require (leb other.len other.cap && leb (a.len + other.len) a.cap)
      ok (
        record a { slots = copy other.slots 0 a.slots a.len other.len; len = new_len },
        record other { len = 0 },
      )

  unfoldable pub prepend_from : Array T → Array T → Run (Array T × Array T)
  unfolding copy checked_add
  prepend_from a other = do
    let prefix_len = other.len
    new_len ← expect (checked_add a.len prefix_len)
    assert (leb new_len a.cap)
    if prefix_len == 0 then ok (a, other) else do
      require (leb (prefix_len + a.len) a.cap && leb prefix_len other.cap)
      let shifted = copy a.slots 0 a.slots prefix_len a.len
      ok (
        record a { slots = copy other.slots 0 shifted 0 prefix_len; len = new_len },
        record other { len = 0 },
      )

  unfoldable pub push : Array T → T → Run (Array T)
  unfolding write
  push a value = do
    assert (ltb a.len a.cap)
    ok (record a { slots = write a.slots a.len value; len = a.len + 1 })

  unfoldable pub insert : Array T → ℕ → T → Run (Array T)
  unfolding write copy
  insert a index value = do
    assert (leb index a.len)
    assert (ltb a.len a.cap)
    require (leb (index + 1 + (a.len - index)) a.cap)
    let shifted = copy a.slots index a.slots (index + 1) (a.len - index)
    ok (record a { slots = write shifted index value; len = a.len + 1 })

  unfoldable pub remove : Array T → ℕ → Run (T × Array T)
  unfolding copy
  remove a index = do
    assert (ltb index a.len)
    value ← initialized (a.slots index)
    require (leb (index + 1 + (a.len - index - 1)) a.cap)
    ok (
      value,
      record a {
        slots = copy a.slots (index + 1) a.slots index (a.len - index - 1);
        len = a.len - 1;
      },
    )

  unfoldable pub pop : Array T → Run (Option T × Array T)
  pop a = if a.len == 0 then ok (none, a) else do
    value ← initialized (a.slots (a.len - 1))
    ok (some value, record a { len = a.len - 1 })

  unfoldable pub get : Array T → ℕ → Run (Option T)
  get a index =
      if ltb index a.len then (do value ← initialized (a.slots index); ok (some value)) else ok none

  -- `self[index]`, through the slice.
  unfoldable pub index : Array T → ℕ → Run T
  unfolding as_slice
  index a i = do xs ← as_slice a; expect (get_elem? xs i)

  -- `self[index] = value`, through the mutable slice: the old value goes back to the caller.
  unfoldable pub replace : Array T → ℕ → T → Run (T × Array T)
  unfolding as_slice write
  replace a i value = do old ← index a i; ok (old, record a { slots = write a.slots i value })

-- How `clear` ended: what is left, the values whose destructor ran (the last one first), and
-- whether one of these unwound.
pub record Cleared (T : Type 0) : Type 0 where
  pub array : Array T
  pub dropped : List T
  pub unwound : Bool

-- `clear`, with the destructors that panic. The loop recurs on the initialized length.
module _ {T : Type 0} (panics : T → Bool) where
  unfoldable pub clear_loop : ℕ → Array T → List T → Run (Cleared T)
  clear_loop zero a dropped = ok (record { array = a; dropped = dropped; unwound = false })
  clear_loop (suc n) a dropped = do
    let shorter = record a { len = n }
    value ← initialized (a.slots n)
    let rest = clear_loop n shorter (value ∷ dropped)
    if panics value
        then ok (record { array = shorter; dropped = value ∷ dropped; unwound = true })
        else rest

  unfoldable pub clear : Array T → Run (Cleared T)
  unfolding clear_loop
  clear a = clear_loop a.len a []

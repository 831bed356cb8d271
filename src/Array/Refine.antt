-- ===== src/Array/Refine.antt =====
-- The operations of src/array.rs on memory beside those of Array/Bounded.antt on a list.
use b_link.Prelude.{
  ℕ, suc, ◌+◌, ◌-◌, ◌≤◌, ◌<◌, ◌≡◌, refl, ◌∙◌, inl, inr, Bool, true, false, some, List, [], ◌∷◌,
  arith, ltb, leb, ◌==◌, Bool-cases, length, get_elem?, length-append, length-set, length-take,
  length-insert_idx, length-erase_idx, get_elem?-lt, get_elem?-ge, get_elem?-append, get_elem?-set,
  get_elem?-take, get_elem?-insert_idx, get_elem?-erase_idx, ok, Refines, returns, panics,
  Refines-assert,
}
use b_link.Array.{
  Slots, Array, with_capacity, copy, write, slice, as_slice, first, last, push, insert, remove, pop,
  get, index, replace,
}
use b_link.Array.Bounded

module _ {T : Type 0} where
  -- The representation invariant with the list that an array holds: slots `0..len` are
  -- initialized, with the list's elements, and the length stays within the capacity.
  pub record Holds (cap : ℕ) (a : Array T) (xs : List T) : Type 0 where
    pub capacity : a.cap ≡ cap
    pub counted : a.len ≡ length xs
    pub within : length xs ≤ cap
    pub filled : (i : ℕ) → i < length xs → a.slots i ≡ get_elem? xs i

  -- The same for an operation that returns a value of its own.
  abbrev pub With : {A : Type 0} → ℕ → A × Array T → A × List T → Type 0
  With cap (x, a) (y, xs) = (x ≡ y) × Holds cap a xs

  abbrev pub Both : ℕ → Array T × Array T → List T × List T → Type 0
  Both cap (a, b) (xs, ys) = Holds cap a xs × Holds cap b ys

  -- `with_capacity` panics if the capacity is 0 or cannot be laid out; otherwise it returns, and the
  -- array holds the empty list.
  with_capacity-Refines :
      (fits : ℕ → Bool) (cap : ℕ)
      → Refines (Holds cap) (with_capacity {T = T} fits cap) (Bounded.with_capacity fits cap)
  unfolding with_capacity Bounded.with_capacity
  with_capacity-Refines fits cap = Refines-assert (ltb 0 cap) λ positive.
      Refines-assert (fits cap) λ laid. returns (record {
        capacity = refl;
        counted = refl;
        within = omega arith;
        filled = λ i p. absurd (omega arith);
      })

  slice_lem :
      (xs : List T) (slots : Slots T)
      → ((i : ℕ) → i < length xs → slots i ≡ get_elem? xs i)
      → slice slots (length xs) ≡ ok xs
  unfolding slice
  slice_lem [] slots h = refl
  slice_lem (x ∷ xs) slots h =
      rw (h 0 (omega arith), slice_lem xs (λ i. slots (suc i)) (λ i p. h (suc i) (omega arith)))

  module _ {a : Array T} {xs : List T} (holds : Holds a.cap a xs) where
    -- On an array that holds a list, `as_slice` reads no unwritten slot and is that list.
    pub as_slice_lem : as_slice a ≡ ok xs
    unfolding as_slice
    as_slice_lem = rw holds.counted (slice_lem xs a.slots holds.filled)

    -- On an array that holds a list, `push` panics if the list has as many elements as the
    -- capacity; otherwise it returns, and the array holds the list with the value at its end.
    pub push-Refines : (v : T) → Refines (Holds a.cap) (push a v) (Bounded.push a.cap xs v)
    unfolding push write Bounded.push
    push-Refines v =
        let size = length-append xs (v ∷ []) in
        rw holds.counted (
          Refines-assert (ltb (length xs) a.cap) λ e. returns (record {
            capacity = refl;
            counted = omega (arith, size);
            within = ground (arith, size);
            filled = λ i p. ground (arith, get_elem?-append xs (v ∷ []) i, holds.filled i, size);
          }))

    -- On an array that holds a list, `insert` panics if the index is above the length or the array
    -- is full; otherwise it returns, and the array holds the list with the value at the index.
    pub insert-Refines :
        (i : ℕ) (v : T) → Refines (Holds a.cap) (insert a i v) (Bounded.insert a.cap xs i v)
    unfolding insert copy write Bounded.insert
    insert-Refines i v =
        let size = length-insert_idx xs i v in
        rw holds.counted (
          Refines-assert (leb i (length xs)) λ inside.
            Refines-assert (ltb (length xs) a.cap) λ room.
              let fits : leb (i + 1 + (length xs - i)) a.cap ≡ true = ground arith in
              rw fits (
                returns (record {
                  capacity = refl;
                  counted = omega (arith, size);
                  within = ground (arith, size);
                  filled = λ j p. ground (
                    arith,
                    get_elem?-insert_idx xs i j v,
                    holds.filled j,
                    holds.filled (j - 1),
                    size,
                  );
                })))

    remove_within :
        (i : ℕ) (x : T)
        → i < length xs
        → get_elem? xs i ≡ some x
        → Refines (With a.cap) (remove a i) (Bounded.remove xs i)
    unfolding remove copy Bounded.remove
    remove_within i x h found =
        let size = length-erase_idx xs i h in
        let inside : ltb i (length xs) ≡ true = ground arith in
        let fits : leb (i + 1 + (length xs - i - 1)) a.cap ≡ true = ground (arith, holds.within) in
        rw (holds.counted, inside, holds.filled i h ∙ found, found, fits)
          (returns (
            refl,
            record {
              capacity = refl;
              counted = omega (arith, size);
              within = omega (arith, size, holds.within);
              filled = λ j p.
                  ground
                    (arith, get_elem?-erase_idx xs i j, holds.filled j, holds.filled (suc j), size);
            },
          ))

    -- On an array that holds a list, `remove` panics if the index is not below the length;
    -- otherwise it returns the element there, and the array holds the list without it.
    pub remove-Refines : (i : ℕ) → Refines (With a.cap) (remove a i) (Bounded.remove xs i)
    unfolding remove Bounded.remove
    remove-Refines i = elim (Bool-cases (ltb i (length xs))) [
      | inl inside ↦
          let h : i < length xs = ground arith in
          let (x, found) = get_elem?-lt xs i h in remove_within i x h found
      | inr outside ↦ rw (holds.counted, outside) panics
    ]

    pop_last :
        (n : ℕ) (x : T)
        → length xs ≡ suc n
        → get_elem? xs n ≡ some x
        → Refines (With a.cap) (pop a) (ok (Bounded.pop xs))
    unfolding pop Bounded.pop
    pop_last n x more found =
        let size = length-take n xs (omega arith) in
        let before : length xs - 1 ≡ n = omega arith in
        let some_left : length xs == 0 ≡ false = ground arith in
        rw (holds.counted, some_left, before, holds.filled n (omega arith) ∙ found, found)
          (returns (
            refl,
            record {
              capacity = refl;
              counted = omega (arith, size);
              within = omega (arith, size, holds.within);
              filled = λ j p. ground (arith, get_elem?-take n xs j, holds.filled j, size);
            },
          ))

    -- On an array that holds a list, `pop` returns the last element, if there is one, and the
    -- array holds the list without it.
    pub pop-Refines : Refines (With a.cap) (pop a) (ok (Bounded.pop xs))
    unfolding pop Bounded.pop
    pop-Refines = elim (Bool-cases (length xs == 0)) [
      | inl empty ↦
          let e : length xs ≡ 0 = ground arith in
          rw (holds.counted, e)
            (returns (
              refl,
              record {
                capacity = refl;
                counted = refl;
                within = omega arith;
                filled = λ i p. absurd (omega arith);
              },
            ))
      | inr more ↦
          let n = length xs - 1 in
          let (x, found) = get_elem?-lt xs n (ground arith) in pop_last n x (ground arith) found
    ]

    replace_within :
        (i : ℕ) (x v : T)
        → get_elem? xs i ≡ some x
        → i < length xs
        → Refines (With a.cap) (replace a i v) (Bounded.replace xs i v)
    unfolding replace index write Bounded.replace
    replace_within i x v found h =
        let size = length-set xs i v in
        rw (as_slice_lem, found)
          (returns (
            refl,
            record {
              capacity = refl;
              counted = omega (arith, size, holds.counted);
              within = omega (arith, size, holds.within);
              filled = λ j p. ground (arith, get_elem?-set xs i j v, holds.filled j, size);
            },
          ))

    pub replace-Refines :
        (i : ℕ) (v : T) → Refines (With a.cap) (replace a i v) (Bounded.replace xs i v)
    unfolding replace index Bounded.replace
    replace-Refines i v = elim (Bool-cases (ltb i (length xs))) [
      | inl inside ↦
          let h : i < length xs = ground arith in
          let (x, found) = get_elem?-lt xs i h in replace_within i x v found h
      | inr outside ↦ rw (as_slice_lem, get_elem?-ge xs i (ground arith)) panics
    ]

    -- Reads: within the length they return the element, past it `get` returns nothing and an index
    -- panics.
    pub reads :
        (i : ℕ)
        → (get a i ≡ ok (get_elem? xs i))
          × (index a i ≡ Bounded.index xs i)
          × (first a ≡ ok (Bounded.first xs))
          × (last a ≡ ok (Bounded.last xs))
    unfolding get index first last Bounded.index Bounded.first Bounded.last
    reads i = (read_get, rw as_slice_lem, rw as_slice_lem, rw as_slice_lem)
      where
        read_get : get a i ≡ ok (get_elem? xs i)
        read_get = elim (Bool-cases (ltb i (length xs))) [
          | inl inside ↦
              let (x, found) = get_elem?-lt xs i (ground arith) in
              rw (holds.counted, inside, holds.filled i (ground arith)) (ground (arith, found))
          | inr outside ↦ rw (holds.counted, outside, get_elem?-ge xs i (ground arith))
        ]

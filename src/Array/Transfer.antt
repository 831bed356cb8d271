-- ===== src/Array/Transfer.antt =====
-- The operations of src/array.rs that move a part of one array into another.
use b_link.Prelude.{
  ℕ, ◌+◌, ◌-◌, ◌≤◌, ◌<◌, ◌^◌, ◌≡◌, refl, inl, inr, Bool, true, none, some, List, [], arith, ltb,
  leb, ◌==◌, Bool-cases, length, length-append, length-take, length-drop, get_elem?-append,
  get_elem?-take, get_elem?-drop, Refines, returns, panics, Refines-assert,
}
use b_link.Array.{Array, copy, checked_add, with_capacity, split_off, append_from, prepend_from}
use b_link.Array.Bounded
use b_link.Array.Refine.{Holds, Both}

checked_sum : (m n : ℕ) → m + n < 2 ^ 64 → checked_add m n ≡ some (m + n)
unfolding checked_add
checked_sum m n h = ground arith

checked_over : (m n : ℕ) → 2 ^ 64 ≤ m + n → checked_add m n ≡ none
unfolding checked_add
checked_over m n h = ground arith

module _ {T : Type 0} {a : Array T} {xs : List T} (holds : Holds a.cap a xs) where
  -- On an array that holds a list and has a capacity above 0 that can be allocated, `split_off`
  -- panics if the index is above the length; otherwise it returns, and the two arrays, both of
  -- that capacity, hold the list up to the index and from it on.
  pub split_off-Refines :
      (fits : ℕ → Bool) (at : ℕ)
      → 0 < a.cap
      → fits a.cap ≡ true
      → Refines (Both a.cap) (split_off fits a at) (Bounded.split_off xs at)
  unfolding split_off with_capacity copy Bounded.split_off
  split_off-Refines fits at pos laid =
      let nonzero : ltb 0 a.cap ≡ true = ground arith in
      rw (holds.counted, nonzero, laid)
        (Refines-assert (leb at (length xs)) λ inside.
          let h : at ≤ length xs = ground arith in
          let enough : leb (at + (length xs - at)) a.cap ≡ true = ground (arith, holds.within) in
          let enough' : leb (length xs - at) a.cap ≡ true = ground (arith, holds.within) in
          rw (enough, enough')
            (returns (
              record {
                capacity = refl;
                counted = omega (arith, length-take at xs h);
                within = omega (arith, length-take at xs h, holds.within);
                filled = λ i p.
                    ground (arith, get_elem?-take at xs i, holds.filled i, length-take at xs h);
              },
              record {
                capacity = refl;
                counted = omega (arith, length-drop at xs);
                within = omega (arith, length-drop at xs, holds.within);
                filled = λ i p.
                    ground
                      (arith, get_elem?-drop at xs i, holds.filled (at + i), length-drop at xs);
              },
            )))

  module _ {b : Array T} {ys : List T} (other : Holds b.cap b ys) (sized : a.cap < 2 ^ 64) where
    empty-Holds : Holds b.cap (record b { len = 0 }) []
    empty-Holds = record {
      capacity = refl;
      counted = refl;
      within = omega arith;
      filled = λ i p. absurd (omega arith);
    }

    -- `append_from` moves every element behind those of `self` and leaves `other` empty.
    -- On two arrays that hold lists, the first of a capacity below 2 ^ 64, `append_from` panics
    -- if the lists together do not fit in the first capacity; otherwise it returns, the first
    -- array holds its list and then the other, and the second holds none.
    pub append_from-Refines :
        Refines
          (λ (a', b') (xs', ys'). Holds a.cap a' xs' × Holds b.cap b' ys')
          (append_from a b)
          (Bounded.append_from a.cap xs ys)
    unfolding append_from copy Bounded.append_from
    append_from-Refines = elim (Bool-cases (leb (length xs + length ys) a.cap)) [
      | inr over ↦
          rw (holds.counted, other.counted)
            (elim (Bool-cases (ltb (length xs + length ys) (2 ^ 64))) [
              | inl small ↦ rw (checked_sum (length xs) (length ys) (ground arith), over) panics
              | inr large ↦ rw (checked_over (length xs) (length ys) (ground arith), over) panics
            ])
      | inl fits ↦
          let size = length-append xs ys in
          rw
            (holds.counted, other.counted, checked_sum (length xs) (length ys) (ground arith), fits)
            (elim (Bool-cases (length ys == 0)) [
              | inl empty ↦ rw empty (
                  returns (
                    record {
                      capacity = refl;
                      counted = ground (arith, size);
                      within = ground (arith, size);
                      filled =
                          λ i p. ground (arith, get_elem?-append xs ys i, holds.filled i, size);
                    },
                    record {
                      capacity = refl;
                      counted = ground arith;
                      within = omega arith;
                      filled = λ i p. absurd (omega arith);
                    },
                  ))
              | inr more ↦
                  let inside : leb (length ys) b.cap ≡ true = ground (arith, other.within) in
                  rw (more, inside)
                    (returns (
                      record {
                        capacity = refl;
                        counted = omega (arith, size);
                        within = ground (arith, size);
                        filled = λ i p. ground (
                          arith,
                          get_elem?-append xs ys i,
                          holds.filled i,
                          other.filled (i - length xs),
                          size,
                        );
                      },
                      empty-Holds,
                    ))
            ])
    ]

    -- `prepend_from` moves every element in front of those of `self` and leaves `other` empty.
    -- On two arrays that hold lists, the first of a capacity below 2 ^ 64, `prepend_from` panics
    -- if the lists together do not fit in the first capacity; otherwise it returns, the first
    -- array holds the other list and then its own, and the second holds none.
    pub prepend_from-Refines :
        Refines
          (λ (a', b') (xs', ys'). Holds a.cap a' xs' × Holds b.cap b' ys')
          (prepend_from a b)
          (Bounded.prepend_from a.cap xs ys)
    unfolding prepend_from copy Bounded.prepend_from
    prepend_from-Refines = elim (Bool-cases (leb (length xs + length ys) a.cap)) [
      | inr over ↦
          rw (holds.counted, other.counted)
            (elim (Bool-cases (ltb (length xs + length ys) (2 ^ 64))) [
              | inl small ↦ rw (checked_sum (length xs) (length ys) (ground arith), over) panics
              | inr large ↦ rw (checked_over (length xs) (length ys) (ground arith), over) panics
            ])
      | inl fits ↦
          let size = length-append ys xs in
          rw
            (holds.counted, other.counted, checked_sum (length xs) (length ys) (ground arith), fits)
            (elim (Bool-cases (length ys == 0)) [
              | inl empty ↦ rw empty (
                  returns (
                    record {
                      capacity = refl;
                      counted = ground (arith, size);
                      within = ground (arith, size);
                      filled =
                          λ i p. ground (arith, get_elem?-append ys xs i, holds.filled i, size);
                    },
                    record {
                      capacity = refl;
                      counted = ground arith;
                      within = omega arith;
                      filled = λ i p. absurd (omega arith);
                    },
                  ))
              | inr more ↦
                  let inside : leb (length ys) b.cap ≡ true = ground (arith, other.within) in
                  let room : leb (length ys + length xs) a.cap ≡ true = ground arith in
                  rw (more, inside, room)
                    (returns (
                      record {
                        capacity = refl;
                        counted = omega (arith, size);
                        within = ground (arith, size);
                        filled = λ i p. ground (
                          arith,
                          get_elem?-append ys xs i,
                          other.filled i,
                          holds.filled (i - length ys),
                          size,
                        );
                      },
                      empty-Holds,
                    ))
            ])
    ]

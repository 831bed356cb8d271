-- ===== src/Array/Clear.antt =====
-- `clear` of src/array.rs, and the values that it drops, also when a destructor panics.
use b_link.Prelude.{
  ℕ, zero, suc, ◌≤◌, ◌≡◌, refl, ◌∙◌, Bool, true, false, some, List, [], ◌∷◌, arith, Bool-cases, inl,
  inr, length, get_elem?, take, drop, drop-cons, Run, ok, length-take, get_elem?-lt, get_elem?-take,
  ap,
}
use b_link.Array.{Array, Cleared, clear_loop, clear}
use b_link.Array.Refine.{Holds}

drop-length {ℓ} : {A : Type ℓ} (xs : List A) → drop (length xs) xs ≡ []
drop-length [] = refl
drop-length (x ∷ xs) = drop-length xs

take-length {ℓ} : {A : Type ℓ} (xs : List A) → take (length xs) xs ≡ xs
take-length [] = refl
take-length (x ∷ xs) = ap (◌∷◌ x) (take-length xs)

module _ {T : Type 0} (panics : T → Bool) where
  -- What `clear` leaves of the list `xs`.
  pub record Clears (cap : ℕ) (xs : List T) (r : Cleared T) : Type 0 where
    pub kept : ℕ
    -- The array is valid and holds a prefix of the list; all the rest was dropped, each value once.
    pub holds : Holds cap r.array (take kept xs)
    pub dropped : r.dropped ≡ drop kept xs
    -- Without a panic nothing is left.
    pub emptied : r.unwound ≡ false → kept ≡ 0
    -- After one, the last value dropped is one whose destructor panics.
    pub stopped : r.unwound ≡ true → (v : T) × (get_elem? xs kept ≡ some v) × (panics v ≡ true)

  abbrev Ends : ℕ → List T → Run (Cleared T) → Type 0
  Ends cap xs run = (r : Cleared T) × (run ≡ ok r) × Clears cap xs r

  module _ (a : Array T) (xs : List T) (n : ℕ) (x : T) (found : get_elem? xs n ≡ some x)
      (h : suc n ≤ length xs) (holds : Holds a.cap a (take (suc n) xs)) where
    -- One round: the array without its last value is valid before the destructor runs.
    shorter-Holds : Holds a.cap (record a { len = n }) (take n xs)
    shorter-Holds =
        let size = length-take n xs (omega arith) in
        let size' = length-take (suc n) xs h in
        record {
          capacity = refl;
          counted = omega (arith, size);
          within = omega (arith, size, size', holds.within);
          filled = λ i p. ground (
            arith,
            size,
            size',
            holds.filled i,
            get_elem?-take n xs i,
            get_elem?-take (suc n) xs i,
          );
        }

    clear_round :
        Ends a.cap xs (clear_loop panics n (record a { len = n }) (drop n xs))
        → Ends a.cap xs (clear_loop panics (suc n) a (drop (suc n) xs))
    unfolding clear_loop
    clear_round (r, run, ends) =
        let slot : a.slots n ≡ some x =
          holds.filled n (omega (arith, length-take (suc n) xs h))
          ∙ get_elem?-take (suc n) xs n (omega arith)
          ∙ found in
        elim (Bool-cases (panics x)) [
          | inl bomb ↦ (
            record { array = record a { len = n }; dropped = drop n xs; unwound = true },
            rw (slot, bomb, drop-cons n xs x found),
            record {
              kept = n;
              holds = shorter-Holds;
              dropped = refl;
              emptied = λ e. absurd cc;
              stopped = λ e. (x, found, bomb);
            },
          )
          | inr quiet ↦ (r, rw (slot, quiet, ← drop-cons n xs x found) run, ends)
        ]

  clear_loop-Clears :
      (n : ℕ) (a : Array T) (xs : List T)
      → n ≤ length xs
      → Holds a.cap a (take n xs)
      → Ends a.cap xs (clear_loop panics n a (drop n xs))
  unfolding clear_loop
  clear_loop-Clears zero a xs h holds = (
    _,
    refl,
    record {
      kept = 0;
      holds = holds;
      dropped = refl;
      emptied = λ _. refl;
      stopped = λ e. absurd cc;
    },
  )
  clear_loop-Clears (suc n) a xs h holds =
      let (x, found) = get_elem?-lt xs n h in
      clear_round a xs n x found h holds (
        clear_loop-Clears n (record a { len = n }) xs (omega arith)
          (shorter-Holds a xs n x found h holds))

  -- `clear` on a valid array never reads an unwritten slot, drops every value at most once, from
  -- the last to the first, and leaves a valid array of what was not dropped: nothing if no
  -- destructor panicked, and otherwise the values before the one whose destructor did.
  pub clear-Clears :
      (a : Array T) (xs : List T)
      → Holds a.cap a xs
      → (r : Cleared T) × (clear panics a ≡ ok r) × Clears a.cap xs r
  unfolding clear
  clear-Clears a xs holds =
      let same : Holds a.cap (record a { len = length xs }) xs = record {
        capacity = refl;
        counted = refl;
        within = holds.within;
        filled = holds.filled;
      } in
      rw (holds.counted, ← drop-length xs)
        (clear_loop-Clears (length xs) (record a { len = length xs }) xs (omega arith)
          (rw take-length same))

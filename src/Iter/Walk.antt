-- ===== src/Iter/Walk.antt =====
-- An iterator of src/iter.rs while other threads change the tree between two calls of `next`.
use b_link.Prelude.{
  ℕ, ◌+◌, ◌≡◌, ◌≢◌, refl, sym, ◌∙◌, subst, inl, inr, false, Option, none, some, List, [], ◌∷◌,
  arith, Run, ok, Settles, All, All-imp,
}
use b_link.Ord.{Ord, Ordering-cases, ◌≺◌}
use b_link.Bound.{AfterStart}
use b_link.Node.{Addr, Entry}
use b_link.Handle
use b_link.Handle.{EntryRef}
use b_link.Records.{lookup}
use b_link.Iter.{Iter, iter_new}
use b_link.Iter.Next.{iter_next}
use b_link.Iter.Steps.{IterSteps, Least, after_last, iter_next-IterSteps}
use b_link.Tree.{Tree}
use b_link.Tree.Invariant.{Inv}
use b_link.Tree.Invariant.Contents.{Represents}

Settles-unique {ℓ} : {A : Type ℓ} (f : ℕ → Run A) (a b : A) → Settles f a → Settles f b → a ≡ b
Settles-unique f a b (r, h) (s, k) =
    let first = h (r + s) (omega arith) in let second = k (r + s) (omega arith) in cc

module _ {K V : Type 0} ⦃o : Ord K⦄ where
  -- Calls of `next` that each gave a record, the last one first, with the map for which the tree
  -- stood at each call; what happens to the tree between the calls is left open.
  pub data Walk (n : ℕ) : Iter K → List (Entry K V) → List (K → Option V) → Type 0 where
    starts : Walk n iter_new [] []
    yields :
        {it : Iter K} {es : List (Entry K V)} {ms : List (K → Option V)}
        → Walk n it es ms
        → (t : Tree K V) (level : Addr → ℕ) → Inv n t level
        → (m : K → Option V) → Represents t m
        → (it' : Iter K) (r : EntryRef K V)
        → Settles (λ rounds. iter_next rounds t it) (it', some r)
        → (e : Entry K V) → Handle.entry r ≡ ok e
        → Walk n it' (e ∷ es) (m ∷ ms)

  -- Each key is below the keys that came later.
  abbrev Descends : List (Entry K V) → Type 0
  Descends [] = Unit
  Descends (e ∷ es) = All (λ (x : Entry K V). x.key ≺ e.key) es × Descends es

  -- Each record was in the map of its moment.
  abbrev Present : List (Entry K V) → List (K → Option V) → Type 0
  Present [] ms = Unit
  Present (e ∷ es) [] = ⊥
  Present (e ∷ es) (m ∷ ms) = (m e.key ≡ some e.value) × Present es ms

  abbrev newest : List (Entry K V) → Option K
  newest [] = none
  newest (e ∷ es) = some e.key

  pub record Walked (it : Iter K) (es : List (Entry K V)) (ms : List (K → Option V)) : Type 0 where
    pub goes_on : it ≡ record { last = newest es; finished = false }
    pub descends : Descends es
    pub present : Present es ms
    -- No key is passed over that was in the map at every call.
    pub covers :
        (j : K)
        → All (λ (m : K → Option V). m j ≢ none) ms
        → (AfterStart (after_last (newest es)) j → ⊥)
        → lookup es j ≢ none

  All-below :
      (es : List (Entry K V)) (k : K)
      → Descends es
      → AfterStart (after_last (newest es)) k
      → All (λ (x : Entry K V). x.key ≺ k) es
  All-below [] k descends after = tt
  All-below (e ∷ es) k descends after =
      (after, All-imp (λ (x : Entry K V) h. o.cmp_trans x.key e.key k h after) es descends.0)

  Walked-yields :
      (it it' : Iter K) (es : List (Entry K V)) (ms : List (K → Option V)) (m : K → Option V)
      (e : Entry K V)
      → Walked it es ms
      → it' ≡ record { last = some e.key; finished = false }
      → Least m (after_last (newest es)) e
      → Walked it' (e ∷ es) (m ∷ ms)
  unfolding lookup
  Walked-yields it it' es ms m e before goes (after, here, least) = record {
    goes_on = goes;
    descends = (All-below es e.key before.descends after, before.descends);
    present = (here, before.present);
    covers = λ j always passed gone. elim (Ordering-cases (o.cmp e.key j)) [
      | inl less ↦ passed less
      | inr (inl equal) ↦ let value : some e.value ≡ none = rw (equal, lookup) at gone in absurd cc
      | inr (inr greater) ↦
          let less : j ≺ e.key = ground (arith, o.cmp_swap e.key j) in
          let missing : lookup es j ≡ none = rw (greater, lookup) at gone in
          before.covers j always.1 (λ start. always.0 (least j start less)) missing
    ];
  }

  -- However the tree is changed between the calls, as long as it is in order at each: the keys that
  -- an iterator gives ascend strictly, each record was in the map when it was given, and each key
  -- that was in the map at every call, and is not above the last key given, was given.
  pub Walk-Walked :
      {n : ℕ} {it : Iter K} {es : List (Entry K V)} {ms : List (K → Option V)}
      → Walk n it es ms
      → Walked it es ms
  unfolding IterSteps
  Walk-Walked starts = record {
    goes_on = refl;
    descends = tt;
    present = tt;
    covers = λ j always passed gone. passed tt;
  }
  Walk-Walked (yields {it} {es} {ms} walk t level inv m rep it' r settles e reads) =
      let before = Walk-Walked walk in
      let goes = before.goes_on in
      let fresh : it.finished ≡ false = rw goes refl in
      let position : it.last ≡ newest es = rw goes refl in
      let (out, settles', steps) = iter_next-IterSteps inv m rep it fresh in
      let same =
        Settles-unique (λ rounds. iter_next rounds t it) out (it', some r) settles' settles in
      let (e', reads', goes', least) : (e' : Entry K V) × (Handle.entry r ≡ ok e')
          × (it' ≡ record { last = some e'.key; finished = false })
          × Least m (after_last it.last) e' =
        subst (IterSteps m (after_last it.last)) same steps in
      let one : e' ≡ e = let both : ok e' ≡ ok e = sym reads' ∙ reads in cc in
      Walked-yields it it' es ms m e before (rw one at goes') (rw (one, position) at least)

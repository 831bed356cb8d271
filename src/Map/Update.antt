-- ===== src/Map/Update.antt =====
-- `get_mut` of src/map.rs and a write through its guard, and `clear`, on a map that no other writer
-- disturbs.
use b_link.Prelude.{
  ℕ, suc, ◌≡◌, refl, ◌∙◌, subst, Option, none, some, List, [], ◌∷◌, zero, arith, length, get_elem?,
  set, ok, Settles,
}
use b_link.Ord.{Ord, Between}
use b_link.Array.Bounded
use b_link.Node.{Addr, Entry, LeafNode, leaf, Node}
use b_link.Handle.{entry_kind}
use b_link.Handle.EntryMut
use b_link.Handle.EntryMut.{EntryMut, entry_mut, value_mut}
use b_link.Records.{lookup, put}
use b_link.Records.Laws.{put-IsSorted, All-put, lookup-put, length-put}
use b_link.Map.{BLinkMap, guarded_mut, get_mut}
use b_link.Map.Reads.{Models}
use b_link.Tree.{Tree}
use b_link.Tree.Read.After.{leaf_shape}
use b_link.Tree.Read.Mut.{Writable, Latches, get_mut-Latches}
use b_link.Tree.Invariant.Write
use b_link.Tree.Invariant.Contents.{with_key, written-Represents, leaf-filled}

module _ {ℓ} {A : Type ℓ} where
  get_elem?-set_same :
      (xs : List A) (i : ℕ) (x v : A) → get_elem? xs i ≡ some x → get_elem? (set xs i v) i ≡ some v
  get_elem?-set_same [] i x v at = absurd cc
  get_elem?-set_same (y ∷ ys) zero x v at = refl
  get_elem?-set_same (y ∷ ys) (suc i) x v at = get_elem?-set_same ys i x v at

module _ {K V : Type 0} ⦃o : Ord K⦄ where
  -- What `get_mut` answers: none if the map `m` does not have the key. Otherwise the guard reads the
  -- value of `m`, and a write through it leaves a map that models `m` with the new value.
  unfoldable pub Updates : ℕ → BLinkMap K V → (K → Option V) → K → Option (EntryMut K V) → Type 0
  Updates n map m k none = m k ≡ none
  Updates n map m k (some r) =
      (old : V) × (m k ≡ some old)
      × (EntryMut.value r ≡ ok old)
      × ((v : V)
          → (t' : Tree K V) × (r' : EntryMut K V) × (value_mut map.tree r v ≡ ok (t', r'))
            × (EntryMut.value r' ≡ ok v)
            × Models n (record { tree = t' }) (with_key m k (some v)))

  module _ {n : ℕ} {map : BLinkMap K V} {m : K → Option V} (models : Models n map m) (k : K) where
    abbrev t : Tree K V
    t = map.tree

    module _ (a : Addr) (i : ℕ) (w : Writable t m k a i) where
      written-Models :
          (v : V)
          → let new : LeafNode K V = record { entries = put w.contents.entries k v } in
            Models n
              (record {
                tree = Write.after models.ordered a w.page w.at w.contents new w.is_leaf t.len;
              })
              (with_key m k (some v))
      written-Models v =
          let inv = models.ordered in
          let p = w.page in
          let old = w.contents in
          let new : LeafNode K V = record { entries = put old.entries k v } in
          let shape = leaf_shape inv m models.stands_for a p old w.at w.is_leaf in
          let has : lookup old.entries k ≡ some w.entry.value =
            models.stands_for a p old k w.at w.is_leaf w.owns ∙ w.present in
          let size : length new.entries ≡ length old.entries =
            length-put old.entries k v shape.sorted ∙ rw has refl in
          record {
            level = models.level;
            ordered =
                Write.written-Inv inv a p w.at old new w.is_leaf t.len
                  (record {
                    sorted = put-IsSorted old.entries k v shape.sorted;
                    within =
                        All-put (λ j. Between p.low_key p.high_key j) old.entries k v w.owns
                          shape.within;
                    bounded = (let fits = shape.bounded in omega (arith, size, fits));
                  })
                  (λ other.
                    let enough = leaf-filled inv a p old w.at w.is_leaf other in
                    omega (arith, size, enough))
                  (omega (arith, size));
            stands_for =
                written-Represents inv a p w.at old new w.is_leaf t.len k w.owns (some v)
                  (λ j. lookup-put old.entries k v j shape.sorted) models.stands_for;
          }

      written_value :
          (v : V) (q : Node K V) (contents : LeafNode K V)
          → q.kind ≡ leaf contents
          → get_elem? contents.entries i ≡ some (record w.entry { value = v })
          → EntryMut.value (record { address = a; guard = q; index = i }) ≡ ok v
      unfolding EntryMut.value EntryMut.entry entry_kind Bounded.index
      written_value v q contents is there = rw (is, there) refl

      guard : EntryMut K V
      guard = record { address = a; guard = w.page; index = i }

      Writable-Updates : Updates n map m k (some guard)
      unfolding Updates guard value_mut entry_mut Bounded.index Bounded.replace
      Writable-Updates = (
        w.entry.value,
        w.present,
        written_value w.entry.value w.page w.contents w.is_leaf w.there,
        λ v.
            let p = w.page in
            let old = w.contents in
            let is = w.is_leaf in
            let there = w.there in
            let sets = w.sets v in
            let new : LeafNode K V = record { entries = put old.entries k v } in
            let q : Node K V = record p { kind = leaf new } in
            let set_there : get_elem? new.entries i ≡ some (record w.entry { value = v }) =
              subst
                (λ (es : List (Entry K V)). get_elem? es i ≡ some (record w.entry { value = v }))
                sets
                (get_elem?-set_same old.entries i w.entry (record w.entry { value = v }) there) in
            (
              Write.after models.ordered a p w.at old new is t.len,
              record { address = a; guard = q; index = i },
              rw (is, there, sets) refl,
              written_value v q new refl set_there,
              written-Models v,
            ),
      )

    guarded-Updates :
        (r : Option (Addr × ℕ))
        → Latches t m k r
        → (entry : Option (EntryMut K V)) × (guarded_mut t r ≡ ok entry) × Updates n map m k entry
    unfolding guarded_mut Latches Updates guard
    guarded-Updates none missing = (none, refl, missing)
    guarded-Updates (some (a, i)) w =
        let found = w.at in (some (guard a i w), rw found refl, Writable-Updates a i w)

    -- In a map that models `m`, `get_mut` returns: with none if `m` does not have the key; else with
    -- a guard that reads the value of `m`. A write through the guard returns, the guard reads what
    -- was written, and the map then models `m` with the new value of the key.
    pub get_mut-Updates :
        (entry : Option (EntryMut K V)) × Settles (λ rounds. get_mut rounds map k) entry
        × Updates n map m k entry
    unfolding get_mut
    get_mut-Updates =
        let (r, (rounds, settled), latches) =
          get_mut-Latches models.ordered m models.stands_for k in
        let (entry, guards, updates) = guarded-Updates r latches in
        (entry, (rounds, λ more le. let run = settled more le in rw run guards), updates)

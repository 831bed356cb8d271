-- ===== src/Map/Reads.antt =====
-- The reading calls of src/map.rs on a map that no writer disturbs.
use b_link.Prelude.{ℕ, suc, ◌≡◌, refl, Option, none, some, is_some, ok, Settles, bind-ok}
use b_link.Ord.{Ord, ◌≺◌, ◌≈◌}
use b_link.Bound.{unbounded}
use b_link.Array.Bounded
use b_link.Node.{Addr, Entry}
use b_link.Handle
use b_link.Handle.{EntryRef, entry_kind}
use b_link.Iter.Steps.{Least}
use b_link.Map.{BLinkMap, guarded, get, contains_key, first_key_value, last_key_value}
use b_link.Tree.{Tree, leaf_read_for}
use b_link.Tree.Read
use b_link.Tree.Read.Arrival.{Locates, get-Locates}
use b_link.Tree.Read.Seek.{Seeks, leaf_read_for-more}
use b_link.Tree.Read.Ends.{IsLast, first_entry-Seeks, last_entry-IsLast}
use b_link.Tree.Invariant.{Inv}
use b_link.Tree.Invariant.Contents.{Represents}

module _ {K V : Type 0} ⦃o : Ord K⦄ where
  -- A map whose tree is in order and stands for `m`.
  pub record Models (n : ℕ) (map : BLinkMap K V) (m : K → Option V) : Type 0 where
    pub level : Addr → ℕ
    pub ordered : Inv n map.tree level
    pub stands_for : Represents map.tree m

  -- What a lookup answers: a guard of the record of the key, with the value of `m`, or none.
  unfoldable pub Answers : (K → Option V) → K → Option (EntryRef K V) → Type 0
  Answers m k none = m k ≡ none
  Answers m k (some r) =
      (e : Entry K V) × (Handle.entry r ≡ ok e) × (e.key ≈ k) × (m k ≡ some e.value)

  unfoldable pub IsLeast : (K → Option V) → Option (EntryRef K V) → Type 0
  IsLeast m none = (j : K) → m j ≡ none
  IsLeast m (some r) = (e : Entry K V) × (Handle.entry r ≡ ok e) × Least m unbounded e

  unfoldable pub IsGreatest : (K → Option V) → Option (EntryRef K V) → Type 0
  IsGreatest m none = (j : K) → m j ≡ none
  IsGreatest m (some r) =
      (e : Entry K V) × (Handle.entry r ≡ ok e)
      × (m e.key ≡ some e.value)
      × ((j : K) → e.key ≺ j → m j ≡ none)

  module _ {n : ℕ} {map : BLinkMap K V} {m : K → Option V} (models : Models n map m) where
    abbrev t : Tree K V
    t = map.tree

    -- `Tree::get` returns for all numbers of rounds from the height of the tree on.
    pub get-Settles :
        (k : K)
        → (r : Option (Addr × ℕ)) × Settles (λ rounds. Read.get rounds t k) r × Locates t (m k) k r
    unfolding Read.get
    get-Settles k =
        let (r, run, locates) = get-Locates models.ordered m models.stands_for k in
        let enough = suc (models.level t.root) in
        let (a, reads, rest) = bind-ok (leaf_read_for enough t k t.root) _ r run in
        (
          r,
          (
            enough,
            λ more le.
                let again = leaf_read_for-more enough more t k t.root a reads le in rw again rest,
          ),
          locates,
        )

    guarded-Answers :
        (k : K) (r : Option (Addr × ℕ))
        → Locates t (m k) k r
        → (entry : Option (EntryRef K V)) × (guarded t r ≡ ok entry) × Answers m k entry
    unfolding guarded Locates Answers Handle.entry entry_kind Bounded.index
    guarded-Answers k none locates = (none, refl, locates)
    guarded-Answers k (some (a, i)) (p, contents, e, at, is, there, same, value) =
        (some (record { guard = p; index = i }), rw at refl, (e, rw (is, there) refl, same, value))

    -- In a map that models `m`, `get` returns: with a guard of the key's record, which has the value
    -- of `m`, or with none if `m` has none.
    pub get-Answers :
        (k : K)
        → (entry : Option (EntryRef K V)) × Settles (λ rounds. get rounds map k) entry
          × Answers m k entry
    unfolding get
    get-Answers k =
        let (r, (rounds, settled), locates) = get-Settles k in
        let (entry, guards, answers) = guarded-Answers k r locates in
        (entry, (rounds, λ more le. let run = settled more le in rw run guards), answers)

    Answers-is_some :
        (k : K) (entry : Option (EntryRef K V)) → Answers m k entry → is_some entry ≡ is_some (m k)
    unfolding Answers
    Answers-is_some k none value = rw value refl
    Answers-is_some k (some r) (e, reads, same, value) = rw value refl

    -- In a map that models `m`, `contains_key` returns whether `m` has the key.
    pub contains_key-is_some :
        (k : K) → Settles (λ rounds. contains_key rounds map k) (is_some (m k))
    unfolding contains_key
    contains_key-is_some k =
        let (entry, (rounds, settled), answers) = get-Answers k in
        let same = Answers-is_some k entry answers in
        (rounds, λ more le. let run = settled more le in rw (run, same) refl)

    first-IsLeast :
        (r : Option (Addr × ℕ))
        → Seeks t m unbounded r
        → (entry : Option (EntryRef K V)) × (guarded t r ≡ ok entry) × IsLeast m entry
    unfolding guarded Seeks IsLeast Handle.entry entry_kind Bounded.index
    first-IsLeast none empty = (none, refl, λ j. empty j tt)
    first-IsLeast (some (a, i)) (e, at, after, least) =
        let found = at.at in
        let is = at.is_leaf in
        let there = at.there in
        (
          some (record { guard = at.page; index = i }),
          rw found refl,
          (e, rw (is, there) refl, (tt, at.present, least)),
        )

    -- In a map that models `m`, `first_key_value` returns: with a guard of the record with the least
    -- key, or with none if `m` is empty.
    pub first_key_value-IsLeast :
        (entry : Option (EntryRef K V)) × Settles (λ rounds. first_key_value rounds map) entry
        × IsLeast m entry
    unfolding first_key_value
    first_key_value-IsLeast =
        let (r, (rounds, settled), seeks) = first_entry-Seeks models.ordered m models.stands_for in
        let (entry, guards, least) = first-IsLeast r seeks in
        (entry, (rounds, λ more le. let run = settled more le in rw run guards), least)

    last-IsGreatest :
        (r : Option (Addr × ℕ))
        → IsLast t m r
        → (entry : Option (EntryRef K V)) × (guarded t r ≡ ok entry) × IsGreatest m entry
    unfolding guarded IsLast IsGreatest Handle.entry entry_kind Bounded.index
    last-IsGreatest none empty = (none, refl, empty)
    last-IsGreatest (some (a, i)) (e, at, greatest) =
        let found = at.at in
        let is = at.is_leaf in
        let there = at.there in
        (
          some (record { guard = at.page; index = i }),
          rw found refl,
          (e, rw (is, there) refl, at.present, greatest),
        )

    -- In a map that models `m`, `last_key_value` returns: with a guard of the record with the
    -- greatest key, or with none if `m` is empty.
    pub last_key_value-IsGreatest :
        (entry : Option (EntryRef K V)) × Settles (λ rounds. last_key_value rounds map) entry
        × IsGreatest m entry
    unfolding last_key_value
    last_key_value-IsGreatest =
        let (r, (rounds, settled), greatest) =
          last_entry-IsLast models.ordered m models.stands_for in
        let (entry, guards, last) = last-IsGreatest r greatest in
        (entry, (rounds, λ more le. let run = settled more le in rw run guards), last)

-- ===== src/Set.antt =====
-- src/set.rs: the public set over the map, with unit values. Whether two references are to the same
-- set (`std::ptr::eq`) is an argument. `Default` and `IntoIterator` are `new` and `iter`, and `fmt`
-- writes the keys that a loop over `iter` gives.
pub mod Loop
pub mod Subsets
pub mod Relations
mod Tests
use b_link.Prelude.{
  ℕ, zero, suc, Bool, true, false, not, Option, none, some, List, [], ◌∷◌, is_some, leb, ltb, ◌==◌,
  if◌then◌else◌, Run, ok, out_of_fuel, ◌>>=◌,
}
use b_link.Ord.{Ord}
use b_link.Handle
use b_link.Handle.{EntryRef}
use b_link.Iter.{Iter, Range, RangeBounds}
use b_link.Iter.Next.{iter_next, range_next}
use b_link.Map
use b_link.Map.{BLinkMap}

pub record BLinkSet (T : Type 0) : Type 0 where
  pub map : BLinkMap T (Unit {0})

-- `new` is the record itself.
pub record SetRef (T : Type 0) : Type 0 where
  pub entry : EntryRef T (Unit {0})

pub record SetIter (T : Type 0) : Type 0 where
  pub inner : Iter T

pub record SetRange (T : Type 0) : Type 0 where
  pub inner : Range T

module _ {T : Type 0} where
  unfoldable pub new : (fits : ℕ → Bool) → ℕ → Run (BLinkSet T)
  unfolding Map.new
  new fits n = do map ← Map.new fits n; ok (record { map = map })

  unfoldable pub len : BLinkSet T → ℕ
  unfolding Map.len
  len set = Map.len set.map

  unfoldable pub is_empty : BLinkSet T → Bool
  unfolding Map.is_empty
  is_empty set = Map.is_empty set.map

  unfoldable pub clear : (fits : ℕ → Bool) → ℕ → BLinkSet T → Run (BLinkSet T)
  unfolding Map.clear
  clear fits n set = do map ← Map.clear fits n set.map; ok (record { map = map })

  abbrev pub set_ref : Option (EntryRef T (Unit {0})) → Option (SetRef T)
  set_ref none = none
  set_ref (some entry) = some (record { entry = entry })

  unfoldable pub value : SetRef T → Run T
  unfolding Handle.key
  value r = Handle.key r.entry

  unfoldable pub first : ℕ → BLinkSet T → Run (Option (SetRef T))
  unfolding Map.first_key_value
  first rounds set = do entry ← Map.first_key_value rounds set.map; ok (set_ref entry)

  unfoldable pub last : ℕ → BLinkSet T → Run (Option (SetRef T))
  unfolding Map.last_key_value
  last rounds set = do entry ← Map.last_key_value rounds set.map; ok (set_ref entry)

module _ {T : Type 0} ⦃o : Ord T⦄ where
  unfoldable pub contains : ℕ → BLinkSet T → T → Run Bool
  unfolding Map.contains_key
  contains rounds set v = Map.contains_key rounds set.map v

  unfoldable pub get : ℕ → BLinkSet T → T → Run (Option (SetRef T))
  unfolding Map.get
  get rounds set v = do entry ← Map.get rounds set.map v; ok (set_ref entry)

  unfoldable pub insert : ℕ → ℕ → BLinkSet T → T → Run (BLinkSet T × Bool)
  unfolding Map.insert
  insert rounds n set v = do
    (map, replaced) ← Map.insert rounds n set.map v tt
    ok (record { map = map }, not (is_some replaced))

  unfoldable pub remove : ℕ → ℕ → BLinkSet T → T → Run (BLinkSet T × Bool)
  unfolding Map.remove
  remove rounds n set v = do
    (map, removed) ← Map.remove rounds n set.map v
    ok (record { map = map }, is_some removed)

  abbrev pub iter : BLinkSet T → SetIter T
  iter set = record { inner = Map.iter set.map }

  unfoldable pub iter_step : ℕ → BLinkSet T → SetIter T → Run (SetIter T × Option (SetRef T))
  unfolding iter_next
  iter_step rounds set it = do
    (inner, entry) ← iter_next rounds set.map.tree it.inner
    ok (record { inner = inner }, set_ref entry)

  unfoldable pub range : BLinkSet T → RangeBounds T → Run (SetRange T)
  unfolding Map.range
  range set bounds = do inner ← Map.range set.map bounds; ok (record { inner = inner })

  unfoldable pub range_step : ℕ → BLinkSet T → SetRange T → Run (SetRange T × Option (SetRef T))
  unfolding range_next
  range_step rounds set it = do
    (inner, entry) ← range_next rounds set.map.tree it.inner
    ok (record { inner = inner }, set_ref entry)

  -- The loop over the values of one set that returns false at the first one for which `contains` of
  -- the other set gives `wanted`, and true at the end, for at most so many values.
  unfoldable pub none_gives : Bool → ℕ → ℕ → BLinkSet T → BLinkSet T → SetIter T → Run Bool
  unfolding iter_step value contains
  none_gives wanted zero rounds set other it = out_of_fuel
  none_gives wanted (suc items) rounds set other it = do
    (it, item) ← iter_step rounds set it
    elim item [
      | none ↦ ok true
      | some r ↦ (do
        v ← value r
        there ← contains rounds other v
        elim (if wanted then there else not there) [
          | true ↦ ok false
          | false ↦ none_gives wanted items rounds set other it
        ])
    ]

  unfoldable pub is_disjoint : Bool → ℕ → ℕ → BLinkSet T → BLinkSet T → Run Bool
  unfolding is_empty len none_gives
  is_disjoint same items rounds set other =
      if same
      then ok (is_empty set)
      else if leb (len set) (len other)
      then none_gives true items rounds set other (iter set)
      else none_gives true items rounds other set (iter other)

  unfoldable pub is_subset : Bool → ℕ → ℕ → BLinkSet T → BLinkSet T → Run Bool
  unfolding len none_gives
  is_subset same items rounds set other =
      if same
      then ok true
      else if ltb (len other) (len set)
      then ok false
      else none_gives false items rounds set other (iter set)

  unfoldable pub is_superset : Bool → ℕ → ℕ → BLinkSet T → BLinkSet T → Run Bool
  unfolding is_subset
  is_superset same items rounds set other = is_subset same items rounds other set

  unfoldable pub eq : Bool → ℕ → ℕ → BLinkSet T → BLinkSet T → Run Bool
  unfolding len is_subset
  eq same items rounds set other =
      if same
      then ok true
      else if len set == len other
      then is_subset same items rounds set other
      else ok false

  unfoldable pub extend : ℕ → ℕ → BLinkSet T → List T → Run (BLinkSet T)
  unfolding insert
  extend rounds n set [] = ok set
  extend rounds n set (v ∷ values) = do
    (set, added) ← insert rounds n set v
    extend rounds n set values

  unfoldable pub from_iter : ℕ → (fits : ℕ → Bool) → ℕ → List T → Run (BLinkSet T)
  unfolding new extend
  from_iter rounds fits n values = do set ← new fits n; extend rounds n set values

-- ===== src/Records.antt =====
-- The abstract contents of a leaf, and of the whole map: records in ascending order of their keys.
-- `lookup`, `put` and `delete` say what the operations of the map mean.
pub mod Laws
pub mod Subset
use Prim.Native.Nat.Ordering.{lt, eq, gt}
use b_link.Prelude.{ℕ, Option, none, some, List, [], ◌∷◌, All}
use b_link.Ord.{Ord, ◌≺◌, Between}
use b_link.Node.{Entry}

module _ {K V : Type 0} ⦃o : Ord K⦄ where
  -- The value of the first record whose key equals the key asked for.
  unfoldable pub lookup : List (Entry K V) → K → Option V
  lookup [] k = none
  lookup (e ∷ es) k = elim (o.cmp e.key k) [ eq ↦ some e.value | _ ↦ lookup es k ]

  -- The record with the value replaced, or a new record in its place in the order.
  unfoldable pub put : List (Entry K V) → K → V → List (Entry K V)
  put [] k v = record { key = k; value = v } ∷ []
  put (e ∷ es) k v = elim (o.cmp e.key k) [
    | lt ↦ e ∷ put es k v
    | eq ↦ record e { value = v } ∷ es
    | gt ↦ record { key = k; value = v } ∷ e ∷ es
  ]

  unfoldable pub delete : List (Entry K V) → K → List (Entry K V)
  delete [] k = []
  delete (e ∷ es) k = elim (o.cmp e.key k) [ eq ↦ es | _ ↦ e ∷ delete es k ]

  abbrev pub IsSorted : List (Entry K V) → Type 0
  IsSorted [] = Unit
  IsSorted (e ∷ es) = All (λ (x : Entry K V). e.key ≺ x.key) es × IsSorted es

  abbrev pub Within : Option K → Option K → List (Entry K V) → Type 0
  Within low high es = All (λ (e : Entry K V). Between low high e.key) es

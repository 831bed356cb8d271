-- ===== src/Node.antt =====
-- src/node.rs: the pages of the tree and the operations on one page, or on a parent and one or two
-- of its children, under their latches. A page reference (`Arc<RwLock<Node>>`) is its address, a
-- weak reference too; a key handle is its key. The arrays of a page are lists with the capacity
-- `n` of Array/Bounded.antt (`n + 1` for child pointers). `debug_assert!` is modelled as in a build
-- that checks it. A function on `&mut` pages returns the new pages.
mod Tests
pub mod Search
pub mod Leaf
pub mod Splitting
pub mod Rebalance
use Prim.Native.Nat.Ordering.{lt, eq, gt}
use b_link.Prelude.{
  ℕ, zero, suc, ◌+◌, ◌-◌, ◌/◌, ◌≡◌, Bool, true, false, not, Option, none, some, List, [], ◌∷◌, ltb,
  leb, ◌==◌, if◌then◌else◌, is_some, length, get_elem?, Run, ok, panic, out_of_fuel, ◌>>=◌, ◌>>◌,
  assert, expect,
}
use b_link.Ord.{Ord}
use b_link.Array.Bounded

abbrev pub Addr : Type 0
Addr = ℕ

pub record Entry (K V : Type 0) : Type 0 where
  pub key : K
  pub value : V

pub record InternalNode (K : Type 0) : Type 0 where
  pub keys : List K
  pub children : List Addr

pub record LeafNode (K V : Type 0) : Type 0 where
  pub entries : List (Entry K V)

pub data NodeKind (K V : Type 0) : Type 0 where
  internal : InternalNode K → NodeKind K V
  leaf : LeafNode K V → NodeKind K V
  redirect : Addr → NodeKind K V

pub record Node (K V : Type 0) : Type 0 where
  pub is_root : Bool
  pub low_key : Option K
  pub high_key : Option K
  pub previous : Option Addr
  pub right : Option Addr
  pub kind : NodeKind K V

pub record Split (K : Type 0) : Type 0 where
  pub separator : K
  pub right : Addr
  pub old_successor : Option Addr

pub record MergeRepair : Type 0 where
  pub predecessor : Option Addr
  pub retired : Addr
  pub survivor : Addr

pub data Route : Type 0 where
  restart : Route
  to_right : Addr → Route
  here : Route

module _ {K V : Type 0} where
  unfoldable pub leaf_root : (fits : ℕ → Bool) → ℕ → Run (Node K V)
  unfolding Bounded.with_capacity
  leaf_root fits n = do
    entries ← Bounded.with_capacity fits n
    ok (record {
      is_root = true;
      low_key = none;
      high_key = none;
      previous = none;
      right = none;
      kind = leaf (record { entries = entries });
    })

  unfoldable pub root_from_split : Addr → K → Addr → Node K V
  root_from_split left separator right = record {
    is_root = true;
    low_key = none;
    high_key = none;
    previous = none;
    right = none;
    kind = internal (record { keys = separator ∷ []; children = left ∷ right ∷ [] });
  }

  abbrev pub is_redirect : NodeKind K V → Bool
  is_redirect (redirect target) = true
  is_redirect _ = false

  unfoldable pub occupancy : NodeKind K V → ℕ
  occupancy (internal node) = length node.keys
  occupancy (leaf node) = length node.entries
  occupancy (redirect target) = 0

  unfoldable pub minimum : ℕ → NodeKind K V → ℕ
  minimum n (internal node) = (n - 1) / 2
  minimum n (leaf node) = n / 2
  minimum n (redirect target) = 0

module _ {K : Type 0} ⦃o : Ord K⦄ where
  -- `low_key.is_some_and(|low| key < low)` and the like.
  abbrev pub below_fence : Option K → K → Bool
  below_fence none key = false
  below_fence (some low) key = elim (o.cmp key low) [ lt ↦ true | _ ↦ false ]

  abbrev pub above_fence : Option K → K → Bool
  above_fence none key = false
  above_fence (some high) key = elim (o.cmp key high) [ lt ↦ false | _ ↦ true ]

module _ {K V : Type 0} ⦃o : Ord K⦄ where
  unfoldable pub route_active : Node K V → K → Run Route
  route_active node key =
      if below_fence node.low_key key
      then ok restart
      else if above_fence node.high_key key
      then (do right ← expect node.right; ok (to_right right))
      else ok here

  unfoldable pub route_kind : NodeKind K V → Run Route → Run Route
  route_kind (redirect target) active = ok (to_right target)
  route_kind _ active = active

  unfoldable pub route : Node K V → K → Run Route
  unfolding route_active route_kind
  route node key = route_kind node.kind (route_active node key)

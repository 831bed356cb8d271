-- ===== src/Tree/Invariant.antt =====
-- The invariant of the tree between any two critical sections, also while threads interleave. It is
-- local to the pages: `level` is the height of a page above the leaves.
pub mod Routing
pub mod Pages
pub mod Frame
pub mod Write
pub mod Contents
pub mod New
pub mod Piece
pub mod Joined
pub mod Cut
pub mod Bond
pub mod Leaves
pub mod Halves
pub mod Parts
pub mod Separator
pub mod Parentage
pub mod Links
use b_link.Prelude.{
  ℕ, zero, suc, ◌+◌, ◌-◌, ◌≤◌, ◌<◌, ◌≡◌, ◌≢◌, Bool, true, false, Option, none, some, List, [], ◌∷◌,
  ◌==◌, length, get_elem?, ◌↔◌,
}
use b_link.Ord.{Ord, ◌≺◌, ◌≼◌, Between, AtLeast, Below}
use b_link.Node.{
  Addr, Entry, InternalNode, LeafNode, NodeKind, internal, leaf, redirect, Node, is_redirect,
  occupancy, minimum,
}
use b_link.Node.Search.UpperBound.{Ascends}
use b_link.Records.{IsSorted, Within}
use b_link.Tree.{Tree}

module _ {K : Type 0} where
  -- The fences of the child at an index: the separators around it, or the page's own at the ends.
  abbrev pub low_fence : Option K → List K → ℕ → Option K
  low_fence low keys zero = low
  low_fence low keys (suc i) = get_elem? keys i

  abbrev pub or_else : Option K → Option K → Option K
  or_else none b = b
  or_else (some a) b = some a

  abbrev pub high_fence : Option K → List K → ℕ → Option K
  high_fence high keys i = or_else (get_elem? keys i) high

module _ {K : Type 0} ⦃o : Ord K⦄ where
  -- Above a lower fence, and not equal to it.
  abbrev pub Above : Option K → K → Type 0
  Above none k = Unit
  Above (some low) k = low ≺ k

module _ {K V : Type 0} where
  abbrev pub Page : Tree K V → Addr → Node K V → Type 0
  Page t a p = get_elem? t.pages a ≡ some p

  abbrev pub IsActive : Node K V → Type 0
  IsActive p = is_redirect p.kind ≡ false

  -- An active page of a level, with its fences.
  pub record Child (t : Tree K V) (level : Addr → ℕ) (l : ℕ) (c : Addr) (low high : Option K)
      : Type 0 where
    pub page : Node K V
    pub at : Page t c page
    pub active : IsActive page
    pub on_level : level c ≡ l
    pub low_key : page.low_key ≡ low
    pub high_key : page.high_key ≡ high

  -- Forwarding pages lead from the one page to the other.
  pub data Forwards (t : Tree K V) : Addr → Addr → Type 0 where
    stop : {a : Addr} → Forwards t a a
    step :
        {a b c : Addr} (p : Node K V)
        → Page t a p
        → p.kind ≡ redirect b
        → Forwards t b c
        → Forwards t a c

  -- What a right link leads to, through pages that were merged or collapsed meanwhile: the page
  -- of the level that begins where this one ends.
  pub record Successor (t : Tree K V) (level : Addr → ℕ) (l : ℕ) (r : Addr) (fence : K)
      : Type 0 where
    pub page : Node K V
    pub address : Addr
    pub leads : Forwards t r address
    pub at : Page t address page
    pub active : IsActive page
    pub on_level : level address ≡ l
    pub begins : page.low_key ≡ some fence

  abbrev pub HasSuccessor : Tree K V → (Addr → ℕ) → ℕ → Option K → Option Addr → Type 0
  HasSuccessor t level l none right = right ≡ none
  HasSuccessor t level l (some fence) none = ⊥
  HasSuccessor t level l (some fence) (some r) = Successor t level l r fence

  abbrev pub kind_count : NodeKind K V → ℕ
  kind_count (leaf contents) = length contents.entries
  kind_count _ = 0

  abbrev pub record_count : List (Node K V) → ℕ
  record_count [] = 0
  record_count (p ∷ ps) = kind_count p.kind + record_count ps

module _ {K V : Type 0} ⦃o : Ord K⦄ where
  abbrev pub Owns : Node K V → K → Type 0
  Owns p k = Between p.low_key p.high_key k

  pub record IsLeaf (n : ℕ) (low high : Option K) (es : List (Entry K V)) : Type 0 where
    pub sorted : IsSorted es
    pub within : Within low high es
    pub bounded : length es ≤ n

  pub record IsInternal (t : Tree K V) (level : Addr → ℕ) (n l : ℕ) (low high : Option K)
      (node : InternalNode K) : Type 0 where
    pub ascends : Ascends node.keys
    pub inside : (i : ℕ) (a : K) → get_elem? node.keys i ≡ some a → Above low a × Below high a
    pub counted : length node.children ≡ suc (length node.keys)
    pub children :
        (i : ℕ) (c : Addr)
        → get_elem? node.children i ≡ some c
        → Child t level l c (low_fence low node.keys i) (high_fence high node.keys i)
    pub bounded : length node.keys ≤ n

  abbrev pub IsKind : Tree K V → (Addr → ℕ) → ℕ → ℕ → Option K → Option K → NodeKind K V → Type 0
  IsKind t level n l low high (leaf contents) = (l ≡ 0) × IsLeaf n low high contents.entries
  IsKind t level n l low high (internal contents) =
      (m : ℕ) × (l ≡ suc m) × IsInternal t level n m low high contents
  IsKind t level n l low high (redirect target) = target < length t.pages

  pub record IsPage (t : Tree K V) (level : Addr → ℕ) (n : ℕ) (a : Addr) (p : Node K V)
      : Type 0 where
    pub kind : IsKind t level n (level a) p.low_key p.high_key p.kind
    pub root_role : p.is_root ≡ (a == t.root)
    pub filled : IsActive p → a ≢ t.root → minimum n p.kind ≤ occupancy p.kind
    pub successor : IsActive p → HasSuccessor t level (level a) p.high_key p.right
    pub below_root : IsActive p → level a ≤ level t.root
    pub predecessor : (b : Addr) → p.previous ≡ some b → b < length t.pages

  pub record Inv (n : ℕ) (t : Tree K V) (level : Addr → ℕ) : Type 0 where
    pub capacity : 3 ≤ n
    pub page : (a : Addr) (p : Node K V) → Page t a p → IsPage t level n a p
    -- No key belongs to two active pages of a level.
    pub disjoint :
        (a b : Addr) (p q : Node K V) (k : K)
        → Page t a p
        → Page t b q
        → IsActive p
        → IsActive q
        → level a ≡ level b
        → Owns p k
        → Owns q k
        → a ≡ b
    -- The root page covers all keys.
    pub root : Child t level (level t.root) t.root none none
    pub counted : t.len ≡ record_count t.pages

-- ===== src/Tree/Relink/Splices.antt =====
-- The repair of `repair_merged_link` of src/node.rs, and its single writes to links.
use b_link.Prelude.{
  ◌≤◌, ℕ, ◌<◌, ◌≡◌, refl, ◌∙◌, Option, none, some, arith, length, get_elem?-lt, lt_of_get_elem?,
  Run, ok,
}
use b_link.Ord.{Ord}
use b_link.Node.{Addr, NodeKind, internal, leaf, redirect, Node, MergeRepair}
use b_link.Tree.{Tree, store}
use b_link.Tree.Insert.Backlink.{Repaired, skipped-Repaired}
use b_link.Tree.Invariant.{Page, IsActive, Inv}
use b_link.Tree.Invariant.Contents.{Represents}
use b_link.Tree.Invariant.Frame.{Redirects, Redirects-refl, Redirects-trans}
use b_link.Tree.Invariant.Links.{relinked-Inv, relinked-Represents, same_size, redirects}
use b_link.Tree.Relink.{RelinkRound, spliced, walk_on, forwarded, leftmost, set_previous, attach}

-- The page that the walk goes on with.
abbrev pub walks_to : RelinkRound → Option Addr
walks_to spliced = none
walks_to (walk_on a) = some a
walks_to (forwarded a) = some a
walks_to leftmost = none

module _ {K V : Type 0} where
  -- A page that was merged forwards to its survivor, and the other pages of the repair are in the
  -- tree.
  pub record Splices (t : Tree K V) (repair : MergeRepair) : Type 0 where
    pub page : Node K V
    pub at : Page t repair.retired page
    pub forwards : page.kind ≡ redirect repair.survivor
    pub survives : repair.survivor < length t.pages
    pub precedes : (b : Addr) → repair.predecessor ≡ some b → b < length t.pages

  -- A page that forwards to its survivor does so from then on.
  pub Splices-later :
      (t t' : Tree K V) (repair : MergeRepair)
      → length t.pages ≤ length t'.pages
      → Redirects t t'
      → Splices t repair
      → Splices t' repair
  Splices-later t t' repair size keeps splices =
      let (x, x_at, forwards) =
        keeps repair.retired repair.survivor splices.page splices.at splices.forwards in
      record {
        page = x;
        at = x_at;
        forwards = forwards;
        survives = omega (arith, size, splices.survives);
        precedes = λ b e. omega (arith, size, splices.precedes b e);
      }

module _ {K V : Type 0} ⦃o : Ord K⦄ {n : ℕ} {level : Addr → ℕ} (m : K → Option V) where
  module _ {t : Tree K V} (inv : Inv n t level) (rep : Represents t m) where
    unfoldable pub Spliced : Run (Tree K V × RelinkRound) → Type 0
    Spliced run =
        (t' : Tree K V) × (round : RelinkRound) × (run ≡ ok (t', round))
        × Repaired inv m rep t' (walks_to round)

    pub still :
        (next : Option Addr)
        → ((b : Addr) → next ≡ some b → b < length t.pages)
        → Repaired inv m rep t next
    still next valid = record {
      ordered = inv;
      stands_for = rep;
      same_pages = refl;
      keeps = Redirects-refl t;
      onward = valid;
    }

    pub only : (a : Addr) → a < length t.pages → (b : Addr) → some a ≡ some b → b < length t.pages
    only a valid b e = let same : a ≡ b = cc in omega (arith, same, valid)

    -- A repair may go on at any page, and another may follow.
    pub elsewhere :
        {t' : Tree K V} {next : Option Addr}
        → Repaired inv m rep t' next
        → (next' : Option Addr) → ((b : Addr) → next' ≡ some b → b < length t.pages)
        → Repaired inv m rep t' next'
    elsewhere r next' valid = record {
      ordered = r.ordered;
      stands_for = r.stands_for;
      same_pages = r.same_pages;
      keeps = r.keeps;
      onward = valid;
    }

    pub and_then :
        {u v : Tree K V} {next next' : Option Addr} (first : Repaired inv m rep u next)
        → Repaired first.ordered m first.stands_for v next'
        → Repaired inv m rep v next'
    and_then {u} {v} first second = record {
      ordered = second.ordered;
      stands_for = second.stands_for;
      same_pages = second.same_pages ∙ first.same_pages;
      keeps = Redirects-trans t u v first.keeps second.keeps;
      onward = λ b e. omega (arith, second.onward b e, first.same_pages);
    }

    pub set_previous-Repaired :
        (a : Addr) (previous : Option Addr)
        → a < length t.pages
        → ((b : Addr) → previous ≡ some b → b < length t.pages)
        → (t' : Tree K V) × (set_previous t a previous ≡ ok t') × Repaired inv m rep t' none
    unfolding set_previous
    set_previous-Repaired a previous valid valid' =
        let (p, at) = get_elem?-lt t.pages a valid in
        (
          store t a (record p { previous = previous }),
          rw at refl,
          record {
            ordered = relinked-Inv inv a p at previous p.right (inv.page a p at).successor valid';
            stands_for = relinked-Represents inv a p at previous p.right m rep;
            same_pages = same_size inv a p at previous p.right;
            keeps = redirects inv a p at previous p.right;
            onward = λ b e. absurd cc;
          },
        )

    -- The page `cursor` already has its right link to the survivor.
    pub attach-Spliced :
        (cursor : Addr) (node : Node K V)
        → Page t cursor node
        → IsActive node
        → (survivor : Addr) (y : Node K V) → node.right ≡ some survivor
        → Page t survivor y
        → (resume : Addr → Addr)
        → ((target : Addr) → target < length t.pages → resume target < length t.pages)
        → (kind : NodeKind K V) → y.kind ≡ kind
        → Spliced (attach t cursor node survivor kind resume)
    unfolding attach Spliced
    attach-Spliced cursor node at active survivor y right y_at resume valid (redirect target) is =
        let inside = rw is at (inv.page survivor y y_at).kind in
        (
          store t cursor (record node { right = some target }),
          walk_on (resume target),
          refl,
          elsewhere
              (skipped-Repaired inv m rep cursor node at survivor right active y y_at target is)
              (some (resume target)) (only (resume target) (valid target inside)),
        )
    attach-Spliced cursor node at active survivor y right y_at resume valid (leaf contents) is =
        let (t', run, repaired) =
          set_previous-Repaired survivor (some cursor) (lt_of_get_elem? t.pages survivor y y_at)
            (only cursor (lt_of_get_elem? t.pages cursor node at)) in
        (t', spliced, rw run refl, repaired)
    attach-Spliced cursor node at active survivor y right y_at resume valid (internal inner) is =
        let (t', run, repaired) =
          set_previous-Repaired survivor (some cursor) (lt_of_get_elem? t.pages survivor y y_at)
            (only cursor (lt_of_get_elem? t.pages cursor node at)) in
        (t', spliced, rw run refl, repaired)

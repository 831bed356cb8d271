-- ===== src/Tree/Read/Mut.antt =====
-- `get_mut` of src/node.rs in a tree that no other writer disturbs.
use b_link.Prelude.{
  ℕ, suc, ◌≡◌, refl, sym, ◌∙◌, Option, none, some, get_elem?, set, Settles, Settles-from,
}
use b_link.Ord.{Ord}
use b_link.Node.{Addr, Entry, LeafNode, leaf, Node}
use b_link.Node.Leaf
use b_link.Node.Leaf.{SearchResult, found, absent, search_entries}
use b_link.Node.Leaf.Contents.{Answers, search_entries-Answers}
use b_link.Records.{put}
use b_link.Tree.{Tree}
use b_link.Tree.Read.{index_of, keeps_latch, get_kind, leaf_write_for, get_mut}
use b_link.Tree.Read.Arrival.{route-here}
use b_link.Tree.Read.Seek.{leaf_read_for-Settles}
use b_link.Tree.Read.After.{leaf_shape}
use b_link.Tree.Invariant.{Page, Owns, Inv}
use b_link.Tree.Invariant.Contents.{Represents, leaf-IsActive}

module _ {K V : Type 0} ⦃o : Ord K⦄ where
  -- A record of the key under the write latch of the leaf that owns the key.
  pub record Writable (t : Tree K V) (m : K → Option V) (k : K) (a : Addr) (i : ℕ) : Type 0 where
    pub page : Node K V
    pub contents : LeafNode K V
    pub entry : Entry K V
    pub at : Page t a page
    pub is_leaf : page.kind ≡ leaf contents
    pub owns : Owns page k
    pub there : get_elem? contents.entries i ≡ some entry
    pub present : m k ≡ some entry.value
    pub sets :
        (v : V) → set contents.entries i (record entry { value = v }) ≡ put contents.entries k v

  unfoldable pub Latches : Tree K V → (K → Option V) → K → Option (Addr × ℕ) → Type 0
  Latches t m k none = m k ≡ none
  Latches t m k (some (a, i)) = Writable t m k a i

  module _ {n : ℕ} {t : Tree K V} {level : Addr → ℕ} (inv : Inv n t level) (m : K → Option V)
      (rep : Represents t m) (k : K) where
    get_kind-Latches :
        (a : Addr) (p : Node K V) (contents : LeafNode K V)
        → Page t a p
        → p.kind ≡ leaf contents
        → Owns p k
        → (r : SearchResult) → Answers contents.entries k r
        → Latches t m k (elim (index_of r) [ none ↦ none | some i ↦ some (a, i) ])
    unfolding index_of Latches
    get_kind-Latches a p contents at is owns (absent i) (inside, value, inserts, deletes) =
        sym (rep a p contents k at is owns) ∙ value
    get_kind-Latches a p contents at is owns (found i)
          (e, there, same, value, sets, erases, inside) =
        record {
          page = p;
          contents = contents;
          entry = e;
          at = at;
          is_leaf = is;
          owns = owns;
          there = there;
          present = sym (rep a p contents k at is owns) ∙ value;
          sets = sets;
        }

    -- In a tree in order that stands for the map `m`, `get_mut` returns: with the place of the key's
    -- record in the leaf that owns the key, or without one if `m` does not have the key.
    pub get_mut-Latches :
        (r : Option (Addr × ℕ)) × Settles (λ rounds. get_mut rounds t k) r × Latches t m k r
    unfolding get_mut leaf_write_for keeps_latch get_kind Leaf.search
    get_mut-Latches =
        let (a, (rounds, settled), arrives) = leaf_read_for-Settles inv k in
        let p = arrives.page in
        let contents = arrives.contents in
        let at = arrives.at in
        let is = arrives.is_leaf in
        let routes = route-here p k (leaf-IsActive p contents is) arrives.owns in
        let shape = leaf_shape inv m rep a p contents at is in
        (
          elim (index_of (search_entries contents.entries k)) [
            | none ↦ none
            | some i ↦ some (a, i)
          ],
          Settles-from rounds (λ more. get_mut more t k) _
              (λ r le. let run = settled (suc r) le in rw (run, at, routes, is) (rw (at, is) refl)),
          get_kind-Latches a p contents at is arrives.owns (search_entries contents.entries k)
              (search_entries-Answers contents.entries k shape.sorted),
        )

-- ===== src/Tree/Thread/History.antt =====
-- Any number of calls of src/node.rs that share a tree: an execution is a sequence of turns of the
-- threads in any order.
use b_link.Prelude.{
  ℕ, ◌≤◌, ◌≡◌, refl, sym, ◌∙◌, subst, inl, inr, ◌⊎◌, Option, some, List, [], ◌∷◌, arith, length,
  get_elem?, set, ok, All, All-imp, All-set, All-get_elem?, ap,
}
use b_link.Ord.{Ord}
use b_link.Node.{Addr}
use b_link.Tree.{Tree}
use b_link.Tree.Thread.{Call, Pc, returned, final_shrink, Surroundings, call_key, turn}
use b_link.Tree.Thread.Fast.{Traverses, starts, reads, latches, effect}
use b_link.Tree.Relink.Splices.{Splices-later}
use b_link.Tree.Thread.Effects.{Turned}
use b_link.Tree.Thread.Places.{
  Moves, travels, splits_root, links_root, begins, attempts, links, shrinks_root, begins_remove,
  removes, begins_link, links_merge, Took, closing, closed,
}
use b_link.Tree.Thread.Turns.{turn-Turned, Closed, close-Closed}
use b_link.Tree.Invariant.Frame.{Redirects}
use b_link.Tree.Invariant.{Inv}
use b_link.Tree.Invariant.Contents.{Represents}

-- A call that took effect, with its result.
pub record Event (K V : Type 0) : Type 0 where
  pub call : Call K V
  pub result : Option V

pub record Thread (K V : Type 0) : Type 0 where
  pub call : Call K V
  pub pc : Pc K V

module _ {K V : Type 0} where
  -- The turn in which a call takes effect logs it.
  abbrev pub logged : Call K V → Pc K V → List (Event K V) → List (Event K V)
  logged c (returned r) log = record { call = c; result = r } ∷ log
  logged c (final_shrink r) log = record { call = c; result = r } ∷ log
  logged c pc log = log

  abbrev pub Logged : Event K V → List (Event K V) → Type 0
  Logged e [] = ⊥
  Logged e (f ∷ log) = (f ≡ e) ⊎ Logged e log

  -- A thread goes on, or its call took effect and is in the log.
  pub data Stands (t : Tree K V) (log : List (Event K V)) (th : Thread K V) : Type 0 where
    goes_on : Moves t th.call th.pc → Stands t log th
    finished :
        (r : Option V)
        → Took th.pc r
        → Logged (record { call = th.call; result = r }) log
        → Stands t log th

  Traverses-bigger :
      (t t' : Tree K V) (c : Call K V) {pc : Pc K V}
      → length t.pages ≤ length t'.pages
      → Traverses t c pc
      → Traverses t' c pc
  Traverses-bigger t t' c size starts = starts
  Traverses-bigger t t' c size (reads valid) = reads (omega (arith, size, valid))
  Traverses-bigger t t' c size (latches valid) = latches (omega (arith, size, valid))

  Moves-bigger :
      (t t' : Tree K V) {c : Call K V} {pc : Pc K V}
      → length t.pages ≤ length t'.pages
      → Redirects t t'
      → Moves t c pc
      → Moves t' c pc
  Moves-bigger t t' {c} size keeps (travels h) = travels (Traverses-bigger t t' c size h)
  Moves-bigger t t' size keeps splits_root = splits_root
  Moves-bigger t t' size keeps (links_root p q) =
      links_root (omega (arith, size, p)) (omega (arith, size, q))
  Moves-bigger t t' size keeps begins = begins
  Moves-bigger t t' size keeps (attempts p) = attempts (omega (arith, size, p))
  Moves-bigger t t' size keeps (links p q r) =
      links (omega (arith, size, p)) (omega (arith, size, q)) (omega (arith, size, r))
  Moves-bigger t t' size keeps shrinks_root = shrinks_root
  Moves-bigger t t' size keeps begins_remove = begins_remove
  Moves-bigger t t' size keeps (removes p) = removes (omega (arith, size, p))
  Moves-bigger t t' size keeps (begins_link {repair = repair} p splices) =
      begins_link (omega (arith, size, p)) (Splices-later t t' repair size keeps splices)
  Moves-bigger t t' size keeps (links_merge {repair = repair} p splices ahead) =
      links_merge (omega (arith, size, p)) (Splices-later t t' repair size keeps splices)
        (λ b e. omega (arith, size, ahead b e))

  -- What a thread refers to stays in the tree while it grows, and what is logged stays so.
  Stands-later :
      (t t' : Tree K V) (log log' : List (Event K V)) (th : Thread K V)
      → length t.pages ≤ length t'.pages
      → Redirects t t'
      → ((e : Event K V) → Logged e log → Logged e log')
      → Stands t log th
      → Stands t' log' th
  Stands-later t t' log log' th size keeps later (goes_on h) =
      goes_on (Moves-bigger t t' size keeps h)
  Stands-later t t' log log' th size keeps later (finished r took h) = finished r took (later _ h)

  Moves-logged :
      {t : Tree K V} {c : Call K V} {pc : Pc K V} (log : List (Event K V))
      → Moves t c pc
      → logged c pc log ≡ log
  Moves-logged log (travels starts) = refl
  Moves-logged log (travels (reads valid)) = refl
  Moves-logged log (travels (latches valid)) = refl
  Moves-logged log splits_root = refl
  Moves-logged log (links_root p q) = refl
  Moves-logged log begins = refl
  Moves-logged log (attempts p) = refl
  Moves-logged log (links p q r) = refl
  Moves-logged log shrinks_root = refl
  Moves-logged log begins_remove = refl
  Moves-logged log (removes p) = refl
  Moves-logged log (begins_link p q) = refl
  Moves-logged log (links_merge p q r) = refl

  Took-logged :
      (c : Call K V) {pc : Pc K V} {r : Option V} (log : List (Event K V))
      → Took pc r
      → logged c pc log ≡ record { call = c; result = r } ∷ log
  Took-logged c log closing = refl
  Took-logged c log closed = refl

  -- The call of a thread that shrinks the root after a removal is in the log.
  Logged-at :
      {t : Tree K V} {log : List (Event K V)} (th : Thread K V) (r : Option V)
      → th.pc ≡ final_shrink r
      → Stands t log th
      → Logged (record { call = th.call; result = r }) log
  Logged-at th r at (goes_on h) = absurd (
      let none_yet : logged th.call (final_shrink r) [] ≡ [] =
        subst (λ x. logged th.call x [] ≡ []) at (Moves-logged [] h) in
      cc)
  Logged-at {t} {log} th r at (finished q took h) =
      let alike : logged th.call (final_shrink r) [] ≡ record { call = th.call; result = q } ∷ [] =
        subst (λ x. logged th.call x [] ≡ record { call = th.call; result = q } ∷ []) at
          (Took-logged th.call [] took) in
      let event : record { call = th.call; result = r } ≡ record { call = th.call; result = q } =
        cc in
      subst (λ (x : Event K V). Logged x log) (sym event) h

module _ {K V : Type 0} ⦃o : Ord K⦄ where
  -- The turns so far, the latest last, and the log, the latest event first.
  pub data Execution (n : ℕ) (t : Tree K V) (ts : List (Thread K V))
      : Tree K V → List (Thread K V) → List (Event K V) → Type 0 where
    start : Execution n t ts t ts []
    turns :
        {u u' : Tree K V} {us : List (Thread K V)} {log : List (Event K V)} {pc' : Pc K V}
        → Execution n t ts u us log
        → (env : Surroundings) (i : ℕ) (th : Thread K V) → get_elem? us i ≡ some th
        → Moves u th.call th.pc
        → turn n env u th.pc ≡ ok (u', pc')
        → Execution n t ts u' (set us i (record th { pc = pc' })) (logged th.call pc' log)
    -- The root is shrunk after a removal.
    closes :
        {u u' : Tree K V} {us : List (Thread K V)} {log : List (Event K V)} {pc' : Pc K V}
        → Execution n t ts u us log
        → (env : Surroundings) (i : ℕ) (th : Thread K V) → get_elem? us i ≡ some th
        → (r : Option V) → th.pc ≡ final_shrink r
        → turn n env u th.pc ≡ ok (u', pc')
        → Execution n t ts u' (set us i (record th { pc = pc' })) log

  -- The map after the events of a log.
  abbrev pub replay : List (Event K V) → (K → Option V) → K → Option V
  replay [] m = m
  replay (e ∷ log) m = effect e.call (replay log m)

  -- Each call returned what the map had at its moment.
  abbrev pub IsLegal : List (Event K V) → (K → Option V) → Type 0
  IsLegal [] m = Unit
  IsLegal (e ∷ log) m = (e.result ≡ replay log m (call_key e.call)) × IsLegal log m

  -- What an execution keeps, from a tree that stands for the map `m`.
  pub record Linearized (n : ℕ) (m : K → Option V) (t : Tree K V) (ts : List (Thread K V))
      (log : List (Event K V)) : Type 0 where
    pub level : Addr → ℕ
    pub ordered : Inv n t level
    pub stands_for : Represents t (replay log m)
    pub legal : IsLegal log m
    pub threads : All (λ (th : Thread K V). Stands t log th) ts

  module _ {n : ℕ} {m : K → Option V} where
    Turned-Linearized :
        {u u' : Tree K V} {us : List (Thread K V)} {log : List (Event K V)} (pc' : Pc K V) (i : ℕ)
        (th : Thread K V)
        → Linearized n m u us log
        → Turned n u (replay log m) th.call u' pc'
        → Linearized n m u' (set us i (record th { pc = pc' })) (logged th.call pc' log)
    Turned-Linearized {u} {u'} {us} {log} pc' i th before turned = go turned.effective
      where
        go :
            (Represents u' (replay log m) × Moves u' th.call pc')
              ⊎ (Represents u' (effect th.call (replay log m))
                  × Took pc' (replay log m (call_key th.call)))
            → Linearized n m u' (set us i (record th { pc = pc' })) (logged th.call pc' log)
        go (inl (rep, onward)) = rw (Moves-logged log onward) (record {
          level = turned.level;
          ordered = turned.ordered;
          stands_for = rep;
          legal = before.legal;
          threads =
              All-set (λ (x : Thread K V). Stands u' log x) us i (goes_on onward)
                (All-imp
                  (λ x h. Stands-later u u' log log x turned.bigger turned.keeps (λ e l. l) h) us
                  before.threads);
        })
        go (inr (rep, took)) = rw (Took-logged th.call log took) (record {
          level = turned.level;
          ordered = turned.ordered;
          stands_for = rep;
          legal = (refl, before.legal);
          threads =
              All-set (λ (x : Thread K V). Stands u' _ x) us i (finished _ took (inl refl))
                (All-imp
                  (λ x h. Stands-later u u' log _ x turned.bigger turned.keeps (λ e l. inr l) h) us
                  before.threads);
        })

    Closed-Linearized :
        {u u' : Tree K V} {us : List (Thread K V)} {log : List (Event K V)} (pc' : Pc K V) (i : ℕ)
        (th : Thread K V) (r : Option V) (now : Linearized n m u us log)
        → Logged (record { call = th.call; result = r }) log
        → Closed now.ordered (replay log m) now.stands_for u' pc' r
        → Linearized n m u' (set us i (record th { pc = pc' })) log
    Closed-Linearized {u} {u'} {us} {log} pc' i th r now there done = record {
      level = now.level;
      ordered = done.ordered;
      stands_for = done.stands_for;
      legal = now.legal;
      threads =
          All-set (λ (x : Thread K V). Stands u' log x) us i (finished r done.took there)
            (All-imp (λ x h. Stands-later u u' log log x done.bigger done.keeps (λ e l. l) h) us
              now.threads);
    }

    -- Lookups, insertions and removals with all their splits, loans, merges and repairs of links,
    -- whose turns interleave in any order, are linearizable: each takes effect at one moment,
    -- between its first and its last turn. The tree stays in order and stands for the map that the
    -- logged calls make in the order of the log, each of them has the result that the map had at its
    -- moment, and a thread goes on or its result is in the log.
    pub Execution-Linearized :
        {t : Tree K V} {ts : List (Thread K V)} {t' : Tree K V} {ts' : List (Thread K V)}
        {log : List (Event K V)}
        → Linearized n m t ts []
        → Execution n t ts t' ts' log
        → Linearized n m t' ts' log
    Execution-Linearized before start = before
    Execution-Linearized before (turns {u} {u'} {us} {log} {pc'} e env i th at goes run) =
        let now = Execution-Linearized before e in
        let (v, pc, run', turned) =
          turn-Turned now.ordered (replay log m) now.stands_for env goes in
        let same : (v, pc) ≡ (u', pc') =
          let both : ok (v, pc) ≡ ok (u', pc') = sym run' ∙ run in cc in
        Turned-Linearized pc' i th now
          (subst (λ (x : Tree K V × Pc K V). Turned n u (replay log m) th.call x.0 x.1) same turned)
    Execution-Linearized before (closes {u} {u'} {us} {log} {pc'} e env i th at r ends run) =
        let now = Execution-Linearized before e in
        let (v, pc, run', done) = close-Closed now.ordered (replay log m) now.stands_for env r in
        let same : (v, pc) ≡ (u', pc') =
          let both : ok (v, pc) ≡ ok (u', pc') = sym run' ∙ ap (turn n env u) (sym ends) ∙ run in
          cc in
        let there =
          Logged-at th r ends
            (All-get_elem? (λ (x : Thread K V). Stands u log x) us i th now.threads at) in
        Closed-Linearized pc' i th r now there (
          subst
            (λ (x : Tree K V × Pc K V). Closed now.ordered (replay log m) now.stands_for x.0 x.1 r)
            same done)

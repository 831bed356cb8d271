-- ===== src/Lib.antt =====
-- A concurrent ordered map: the B-link tree of src/node.rs over the fixed-capacity arrays of
-- src/array.rs.
--
-- The program. `Array` (src/array.rs) is a vector in one allocation whose capacity never grows. A
-- page (`Node`, src/node.rs) is a leaf with records, an internal page with separators and children,
-- or a redirect to the page that took its place; it has two fences, between which its keys lie, a
-- right link and a weak link to the left. `Tree` has a root slot and an exact counter of its records.
-- A call goes down with one read latch at a time and follows right links where a page was split
-- meanwhile. `insert` and `remove` first try to change one leaf under its write latch; only a full
-- leaf, or one at its minimum, sends them on a second way down, on which full pages are split, poor
-- pages borrow from a sibling or are merged, and links are repaired after the latches are dropped.
--
-- The files.
--   Prelude      names of the libraries, lists over native numbers, and `Run`: how a call ends.
--   Ord          the bound `K: Ord`, and fences.
--   Array        src/array.rs over raw memory, where a slot may be uninitialized. Array/Bounded is
--                what it promises: a list with a capacity. Array/Refine, Array/Transfer and Array/Clear
--                compare them.
--   Node         pages of src/node.rs as values, over the bounded lists: `route`, `occupancy`.
--                Node/Search is `child_index`, Node/Leaf `LeafNode::search` and `insert`,
--                Node/Splitting `split_full` and `insert_split`, Node/Rebalance `borrow_from_left`,
--                `borrow_from_right` and `merge_left_into_right`.
--   Records      finite maps as sorted lists of records: what lookups and updates mean.
--   Tree         the store of pages and the traversal. Tree/Insert and Tree/Remove have the critical
--                sections of `insert` and `remove`, Tree/Relink `repair_merged_link`, Tree/Read the
--                reading calls, and Tree/Thread the calls as threads, with their executions in
--                Tree/Thread/History. Tree/Remove/Siblings is about two neighbouring children of a
--                page, Tree/Remove/Lent about a loan and Tree/Remove/Survivor about a merge.
--                Tree/Invariant says what holds of the pages between critical sections, and which
--                map a tree stands for; its children have what a write, a split, a loan, a merge or
--                a new link leaves of that.
--   Bound        `std::ops::Bound` of the standard library.
--   Handle       `EntryRef` and, in Handle/EntryMut, `EntryMut` of src/handle.rs: a page under its
--                latch and an index.
--   Iter         src/iter.rs: the cursors. Iter/Next has `next` of each, Iter/Collect and Iter/Ranged
--                loops over them, Iter/Walk calls with changes of the tree in between.
--   Map          `BLinkMap` of src/map.rs, and Set `BLinkSet` of src/set.rs over it.
--   Samples      a small map for the tests of several modules.
--
-- How the model corresponds to the code. A page reference (`Arc<RwLock<Node>>`) is an address in
-- the list of pages, which grows by `allocate`; pages are never reused. A critical section takes
-- latches and then drops them, one function from a state to a state, so threads interleave between
-- critical sections. No critical section takes a latch after it dropped one: where the code does
-- that, the function ends. So the loop in which `repair_split_backlink` keeps the latch of one page
-- over several rounds is cut at its rounds, and the walk of `repair_merged_link` as well, and this
-- walk also at the two places in a round where a latch is dropped before the survivor is latched
-- (`unlink_survivor` and `attach_forwarded`). Where the code still holds a latch at such a cut, the
-- model has more interleavings than the code. A `try_write` may fail: the surroundings of a turn
-- decide it, and also whether a weak reference is still alive. The page capacity `N` is the
-- argument `n`. Keys are of any type with an order; the two values of a separator that is shared
-- and of its copy are not told apart. The counter is atomic in the code and changes under the
-- leaf's latch; it is a number here, with no bound, as its records would not fit in memory.
-- `Layout::array` is not part of the code: the argument `fits` of `new` (and of `with_capacity` and
-- `split_off` in Array) says for which capacities it returns a layout, and `new` panics for the
-- others, as its documentation says. The pages that splits add have the capacity of pages that
-- exist, and are taken to be laid out; so are the first arrays of keys and of `n + 1` children,
-- whose elements are one word each, as a full leaf has `n` records of at least one word. Capacities
-- are 64-bit, and the sum in `append_from` and `prepend_from` is checked as in the code.
--
-- Rounds. `child_index` is given one round more than there are separators, as each round shortens the
-- range. `leaf_read_for` is given as many rounds as the tree has levels, as each round goes one level
-- down while no other thread writes. The other loops of Tree/Read and `run_alone` take a number of
-- rounds and report when it is used up.
--
-- Not modelled: the validation functions of the tests, the drop of an array's allocation, the
-- delegating instances of key handles, `size_hint`, and `Send`, `Sync` and `Debug`, except for the loop
-- of the map's `fmt`.
pub mod Prelude
pub mod Ord
pub mod Bound
pub mod Array
pub mod Node
pub mod Records
pub mod Tree
pub mod Handle
pub mod Iter
pub mod Map
pub mod Set
pub mod Samples

-- ===== src/Lib.antt =====
-- futures-buffered: sets of futures in a fixed number of slots, each polled only after its own waker was
-- called.
--
-- The parts, and the files that model them:
--
-- - Base: the library names that the other files share, Boolean tests, lists with native indices.
-- - Task: polls, task wakers, and the cell `AtomicWaker` of futures_util, which is a record of operations
--   and laws that the code relies on.
-- - SlotMap (src/slot_map.rs): the slots of the futures. `new`, `insert_with`, `remove`, `get`, `len`,
--   `capacity`, `is_empty`, `iter_mut` and `from_iter` are the methods of those names. FreeList and Valid
--   hold the invariant, Lookup the view as a finite map, Iter the iterator and a `for` loop over it
--   (`for_each_mut`, the loop of src/futures_ordered_bounded.rs), which calls `next` until it ends.
-- - ArcSlice (src/arc_slice.rs): the shared allocation. `push` and `pop_index` are `ArcSliceInner::push`
--   and `::pop`, `pop` is `ArcSlice::pop`; `clone_waker`, `wake`, `wake_by_ref` and `drop_handle` are the
--   entries of the waker's vtable; `inc_strong` and `dec_strong` count the handles. Slots and Chain are
--   about the `next` fields, Fifo, Push and Pop about the queue of slots, Duplicate about a slot that is
--   pushed while it is queued, Count about the handles. Race splits `push` into its three
--   accesses: Links and Order are about lists with missing links, Cleared about slots before their swap,
--   Producers and Consumer about one step, Refine about any interleaving of steps.
-- - UnorderedBounded (src/futures_unordered_bounded.rs): `FuturesUnorderedBounded`, built from the two
--   parts above. The free slot that the slot map gives out is pushed onto the ready queue; a poll takes
--   slots from the queue and polls their futures with a waker of that slot; an output frees the slot.
--   Valid holds the invariant, FromIter and Push the constructors and the pushes, Step and Round one
--   round of the loop, Outcomes and Inner whole polls, Trace what the polls preserve of each future.
-- - JoinAll (src/join_all.rs) and TryJoinAll (src/try_join_all.rs): the futures that await all futures of a
--   `FuturesUnorderedBounded` and write the outputs to a buffer that starts unwritten. Buffer and Filling
--   join the entries of the buffer to the slots; Loop is about a whole poll.
-- - Merge (src/merge.rs): the stream of the items of several streams, over `poll_inner_no_remove`.
-- - Unordered (src/futures_unordered.rs): `FuturesUnordered`, a list of such sets. `poll_index` is the field
--   `poll_next`. Groups is about the list, Push about its growth, Loop about a whole poll, whose rounds are
--   the number of groups when it starts.
-- - OrderWrapper and OrderedBounded (src/futures_ordered_bounded.rs): `FuturesOrderedBounded`, whose futures
--   carry indices and whose outputs wait in a heap for their turn. `BinaryHeap` of the standard library is a
--   record of operations and laws, and ListHeap shows that they can hold. Window and Balance count who
--   holds which index, Held and Places look at the futures and their labels, Flip at the top bit of the
--   indices. Push is about the numbering, Index about the housekeeping. InOrder is the queue of labels that
--   such a set refines: Start, Deque and Refine are about its constructors, pushes and polls, and Output,
--   Loop and Housekeeping about the parts of a poll.
-- - Ordered (src/futures_ordered.rs): `FuturesOrdered`, the same over `FuturesUnordered`; Push is about
--   its pushes.
-- - Stream: the streams that the adaptors below take their futures from, each a parameter, and the size
--   hint that the adaptors share. Ending and Served are about what a poll of an adaptor tells
--   of its stream and of its queue.
-- - BufferUnordered (src/buffered/unordered.rs), BufferedOrdered (src/buffered/ordered.rs), TryBufferedOrdered
--   and TryBufferUnordered (src/try_buffered.rs): the stream adaptors that keep a `FuturesUnorderedBounded` or
--   a `FuturesOrderedBounded` filled from a stream; each has the method that makes it from src/buffered.rs or
--   src/try_buffered.rs. Fill is about the filling loop, with one round more than there are slots; Refine
--   and Counted are about a whole poll.
-- - ForEachConcurrent (src/buffered/for_each.rs): the future that runs a future for each element of a
--   stream. Round is about the first part of a round of its loop, Loop about the loop, with one round more
--   than twice the elements left and the futures held, Limit about a limit of zero.
--
-- Numbers. A usize is a natural number; where the code adds to or subtracts from a counter, the result
-- is taken modulo 2^64. `len + 1` is not reduced: the allocation of that many slots of 16 bytes bounds it.
--
-- Faults. `none` is a panic, an abort, `unreachable_unchecked`, an access out of bounds or a read of
-- memory that was never written; it is distinct from every result that the code returns.
--
-- Futures. A future is a value of any type, and polling it is a function of the future and of its waker:
-- it gives the future afterwards, the result, and what was done with slot wakers meanwhile, in order, be
-- it by this future, by another or by a thread. What a destructor of a future does is not modelled.
--
-- Threads. Each function is one uninterrupted run; a wake-up between two runs is a call of `wake_by_ref`.
-- ArcSlice.Race alone lets other threads run between the accesses of `push`; there a `pop` is still one
-- run. The theorems on
-- polls hold for futures that `settle`: one that finishes leaves its waker alone, and one that is pending
-- does nothing with it, clones it once, or wakes itself once. A wake of a slot that holds no future any more
-- is not covered by their invariant; ArcSlice.Duplicate is about what such a wake can lead to.
--
-- Loops. The loop of `poll_inner_no_remove` counts to 61, and the model recurs on the rounds left. The loops of
-- `JoinAll`, `TryJoinAll` and `Merge` get one round more than there are futures, since every round but
-- the last takes one of them from the set; running out would be `none`, and the theorems exclude it.
--
-- Not modelled: `Debug`, `Default`, `Clone`, `Drop` of iterators, pinning and the `Send` and `Sync` marks; the
-- layout of the allocation.
pub mod Base
pub mod SlotMap
pub mod Task
pub mod ArcSlice
pub mod UnorderedBounded
pub mod JoinAll
pub mod TryJoinAll
pub mod Merge
pub mod Unordered
pub mod OrderWrapper
pub mod OrderedBounded
pub mod Ordered
pub mod BufferUnordered
pub mod Stream
pub mod BufferedOrdered
pub mod ForEachConcurrent
pub mod TryBufferedOrdered
pub mod TryBufferUnordered

-- ===== src/Lib.antt =====
-- allocazam (lib/), a C++23 allocator library: what it allocates from, how it divides it, and the
-- theorems that make it correct. Paths are from the repository's root.
--
-- A program picks a memory mode (fixed, dynamic, noheap) and an allocation model. Backing memory
-- comes from lib/owned_memory.hpp or from the caller. The `exclusive` model puts a claim ledger
-- (lib/exclusive_resource.hpp) over one region; the `suballocated` model divides chunks into
-- nodes of an intrusive pool and into runs (lib/runner.hpp).
--
-- - Word.antt, Word/: `size_t` arithmetic of lib/types.hpp (`checked_add`, `checked_mul`,
--   `checked_round_to_multiple_of`), powers of two, masks, `std::align`.
-- - Memory.antt: memory as words by address.
-- - Chunk.antt, Chunk/: `node_t`, `granule_header` and `chunk_t` of lib/types.hpp. The aligned
--   `operator new[]` is a parameter (`NewAligned`), and `IsNewAligned` is what C++ documents of a
--   call that returns. Chunk/Objects.antt has the chunk objects that own their memory, by
--   address, and their construction, moves and destruction as a step relation.
-- - Pool.antt, Pool/: the pool `allocazam<T, Mode, OwnerHeaders>` of lib/allocazam.hpp. A `Pool`
--   is the object's fields with the memory that holds the links of its lists; `Setup` is the
--   template's arguments, the page size, and the answers of the calls of `operator new[]` in
--   order. The storage of the chunk vector `_chunks` is taken to be there: a `std::bad_alloc` of
--   its `reserve` or `emplace_back` is not modelled. The loop of `_drain_remote` gets `capacity`
--   rounds, which suffice since a pool cannot have more nodes parked. `remote_push` is the one
--   step that its successful exchange makes it. Pool/Histories.antt has the owner's calls, the
--   other threads' frees and the clients' writes as a step relation. The theorems on the pool are
--   about pools with headers, but for those in Pool/Noheap.antt.
-- - Runner.antt, Runner/: lib/runner.hpp. Runner/Sizes.antt has the sizes of runs, the words that
--   hold them and the bins by size; Runner/Mask.antt the mask of the bins and its search;
--   Runner/Runs.antt the runs in memory and the bins' lists; Runner/Calls.antt the calls that
--   divide and join runs; Runner/Chunks.antt the chunks, the constructors and `allocate_bytes`;
--   Runner/Heap.antt, Runner/Heap/: the chunks as runs side by side, the bins as the lists of the
--   free ones, and what each call does to them; Runner/Heap/Bytes.antt puts them together for
--   `allocate_bytes`. What it asks of the platform is `IsSource` in Runner/Heap/Served.antt: no
--   two calls for memory give a byte in common. A `Runner` is the object's fields with the memory
--   of its chunks. A loop over runs gets as many rounds as the chunks have bytes, since a run
--   takes at least 48 of them.
-- - Remote.antt, Remote/: the stack of remote frees, which the pool and the run allocator share,
--   in the steps that the threads make of its head: load, link, weak exchange, and the owner's
--   exchange. Remote/Pushes.antt interleaves any number of threads.
-- - Layout.antt: `sizeof(T)` and `alignof(T)`, parameters of every template.
-- - Exception.antt: the exceptions thrown, as values of an `Outcome`.
-- - OwnedMemory.antt, OwnedMemory/: lib/owned_memory.hpp. `operator new[]` and `mmap` are the
--   fields of `Platform`, and `IsPlatform` is what the C++ standard and the kernel document of a
--   successful call.
-- - Exclusive.antt, Exclusive/: `exclusive_resource` (`claim`, `release`, `expand`), its
--   histories, and in Exclusive/Allocator.antt the exclusive state and allocator of
--   lib/allocazam.hpp.
-- - Suballocated.antt, Suballocated/: the `suballocated` state and allocator of
--   lib/allocazam.hpp. A `Process` is what the threads share, the memory, the pools and runners
--   by their addresses and the registry of the states, with each thread's state pointer and run
--   cache; a call is given the thread that makes it. Suballocated/Cache.antt has the lists of
--   cached runs; Suballocated/States.antt the states and `_thread_state`;
--   Suballocated/Shared.antt the calls of the pools and runners on the shared memory;
--   Suballocated/Routing.antt the frees that go home to their owner and the drains of the cache;
--   Suballocated/Calls.antt `allocate`, `allocate_at_least`, `deallocate` and `expand`. The loops
--   over a class get as many rounds as it counts runs. Each call is one step: threads do not
--   interleave inside a call but in Remote/.
-- - PageSize.antt: `detect_page_size` of lib/allocazam.cpp, from the result of `sysconf`.
--
-- A pointer is its address, 0 for null. A `size_t` is a number, and the code's wrap-around is
-- written out (`wrap`) where its guards do not exclude it. A page size is a parameter too.
-- Asserts are those of a release build: they do nothing. The statistics of the run allocator are
-- not modelled. Object construction and destruction are not modelled, since they touch no
-- allocator state.
pub mod Prelude
pub mod Word
pub mod Exception
pub mod Layout
pub mod OwnedMemory
pub mod Exclusive
pub mod Memory
pub mod Chunk
pub mod Pool
pub mod Runner
pub mod Remote
pub mod PageSize
pub mod Suballocated

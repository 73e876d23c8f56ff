-- ===== src/Lib.antt =====
-- GreenHashTree: a key-value store that hashes each key to a partition, and a baseline without
-- partitions. Clients call `db_put` and `db_get`; in the partitioned store (gps.c) the call becomes an
-- operation in the queue (msgq.c) of the key's partition, whose thread carries it out on a
-- substructure of its own and writes an answer to the cell that the client watches. In the baseline
-- (baseline.c) the call goes to the one substructure. The substructures are behind three functions,
-- `init_struct`, `insert_into_struct` and `search_struct`.
--
-- Which file models what:
--   Hash            hash and unhash (gps.c), simplehash and simpleunhash (SimpleHashMap/shm.c)
--   Shm             the hash map: shm_new, shm_put, shm_get (SimpleHashMap/shm.c), and its middleware
--                   (SimpleHashMap/shmmiddleware.c)
--   Msgq            queue_init, queue_add, queue_read (msgq.c)
--   Substruct       what the stores ask of a substructure, with its laws; Shm/Substruct fills it for
--                   the hash map, where `malloc` of a record succeeds and leaves a NUL in its bytes
--   Gps             db_new, db_put, db_get and the loop of subStructFunc (gps.c); Gps/System puts them
--                   together as steps of clients and partitions in any order
--   Baseline        db_new, db_put, db_get (baseline.c)
--   Bpt             insert_into_leaf, and find at its leaf (BPT/bpt.c); under it
--     Heap          nodes, records and locks in memory, make_node, make_leaf, make_record
--     Loops, Split  the loops over the arrays of a node, and the arrays of the two halves of a split
--     Search        find_leaf_search, find_leaf_insert, find, find_range, search, height, path_to_root
--     Insertion     insert and what it calls, from start_new_tree to insert_into_parent
--     Deletion      delete and what it calls
--     Middleware    init_struct, insert_into_struct, search_struct (BPT/bptmiddleware.c)
--     Tree          the tree that nodes in memory stand for, its entries and its order
--   Sveb            the global variables of SVEB/staticvebtree.c, init_height, initialize_depth, and the
--                   step from a node to a child; under it
--     Search        search, search_test and delete
--     Insertion     insert_rec, l_count, r_count, rebuild, and the growth of the tree in insert
--     Traversal     impl_fill, impl_acc_all, impl_report_depth
--     Calls         insert, init_tree, initial_add, and the middleware (SVEB/vebmiddleware.c)
--     Layout        where the nodes of a level stand in the array
--     Contents      the keys of the tree in order, and when it is a search tree
--   Barrier         pthread_barrier_init and pthread_barrier_wait (common/barrier.c)
--   Prelude, Bits   arrays as lists, signed integers, runs, powers of two, and lemmas on exclusive or
--                   and on masks
--   Tests           runs at concrete inputs
-- Under each of them are modules for what is proved: Shm/Put, Msgq/Fifo, Gps/Answers and others.
--
-- State is passed explicitly. A run ends with a value, waits for a lock or for an operation
-- (`blocked`), or is undefined behaviour in C (`fault`). An `int` is an integer, and the counters of a
-- queue fault at INT_MAX; hashes are numbers modulo 2 ^ 32. A `char[32]` is its text, or bytes
-- without a NUL, as `malloc` may leave them: in the hash map strcpy from those is a `fault`, and what
-- `malloc` leaves in a new record is an argument of shm_put. A chain of records is a list, since no
-- record is shared or moved. Each step of the store is one call on a queue, one operation on a
-- substructure, or one test of a cell, each of them atomic: the queue and the hash map take a lock, and
-- a substructure has one thread.
--
-- The walks along a chain or an array are by recursion on what is left of it. The walks along the
-- nodes of the B+ tree take fuel, one unit for a round, and are `blocked` when it runs out; the
-- theorems on them ask for as much as the tree has levels, and as much as it has leaves, and so show
-- that the walks end. What `malloc` leaves in the arrays of a node, and what is read in the word
-- behind the keys of a full leaf, are parameters. A call on the B+ tree is one run by itself: the tree
-- has one thread in the partitioned store. The number of clients is a parameter `n`; most statements on
-- the store ask that it is at most 10,000, the length of a queue, since a longer line would be written
-- over.
--
-- The static van Emde Boas tree is one state, its global variables, which each call takes and returns.
-- An array is a function with its length, and an access behind it is a `fault`. Its recursions take
-- fuel, one unit for a level, and the callers give one more than the height of the tree. The test in
-- floating point by which `insert_rec` chooses the subtree to rebuild, the numbers of `rand`, and what
-- `malloc` leaves in `helper` are parameters. Of a slot of `simdataset` that no insertion has written,
-- only that its bytes are unknown is kept.
--
-- Not modelled: `malloc` that fails, other than for a chained record; thread pinning, printing,
-- heartbeat and POET, and `db_free`, which does nothing without them; the functions of BPT/bpt.c that
-- nothing calls, its printing and its benchmark; the tests and the timed experiments of
-- SVEB/staticvebtree.c, which nothing calls, and its printing; the benchmark (benchmark, and the rest of
-- common) and the packaged binaries (cde-package).
pub mod Prelude
pub mod Bits
pub mod Hash
pub mod Shm
pub mod Msgq
pub mod Substruct
pub mod Gps
pub mod Baseline
pub mod Bpt
pub mod Sveb
pub mod Barrier
pub mod Tests

-- ===== src/Lib.antt =====
-- The containers of the datatypes library, modelled and verified.
--
-- The library is a set of C containers of void pointers. This development models the byte buffer
-- (buffer.c), the associative array (assocarray.c), the hash table (hashtable.c), the red-black
-- tree (rbtree.c), the singly-linked list (slist.c), the doubly-linked list (list.c), the stack and
-- the queue (stack.c and the macros of stack.h and queue.h), which are uses of the list, the queue
-- for threads (asyncqueue.c), the memory pool (pool.c), and the functions to compare and to hash
-- keys (compare.c and hash.c). An application hands a compare function and functions that free keys
-- and values to a container, which calls them; the list and the tree take their nodes from a pool
-- or from malloc.
--
-- Files and code:
-- - Base, Base/Lists, Base/Runs, Base/Tests: shared names, lists over native numbers, runs, tests and
--   the ranges of the C integers. Memory: cells of an array, as memmove and realloc use them.
-- - Callbacks: CompareFunc of compare.h and FreeFunc of datatypes.h.
-- - Buffer: buffer.h and buffer.c. buffer_fill is fill, _buffer_new_realloc_size is
--   new_realloc_size, and so on. Buffer/Growth is about the new size, Buffer/Contents about the
--   invariant, Buffer/Fill, Buffer/Lines and Buffer/Stream about the operations.
-- - AssocArray: assocarray.h and assocarray.c. AssocArray/Table has the abstract view, a list of
--   entries with find, insert and erase, and Order and Laws its laws; Search is about the binary
--   search; Invariant, Shift, Update, Remove and Lookup about the operations.
-- - HashTable: hashtable.h and hashtable.c. A chain of buckets is a list. HashTable/Chains and Lookup
--   say what a lookup finds, Placed where the keys stand, and Changes and Sound how that is kept;
--   Update and Set are about hashtable_set, Resize and Grow about _hashtable_resize, Remove about
--   hashtable_remove.
-- - SList: slist.h and slist.c on an explicit heap. SList/Chain says what a well-formed list is;
--   Ends is about slist_append, slist_prepend and slist_pop, Remove about slist_remove, Walk about
--   slist_find and slist_clear.
-- - DList, DList/Erase: list.h and list.c on an explicit heap; DList/Erase has the removal, the search
--   and the release. DList/Chain says what a well-formed list is, Ends is about list_prepend
--   and Pop about list_pop, Detach and Remove about list_remove. Commands: how the code of both lists is put together.
-- - Queues: stack.c, stack.h and queue.h. Queues/Orders is about what they give back.
-- - RbTree, RbTree/Erase and RbTree/Iter: rbtree.h and rbtree.c, from rbtree_init to rbtree_set, the
--   search and the removal, and the iterator. RbTree/Entries says which entries stand around a path,
--   Balance what the red-black rules are, Order and Descent what holds on the way down; Insert, Update,
--   Inserted and Set are about rbtree_set, Lookup about the search, Rebalance, Shorten, Unlink, Detach and
--   Remove about rbtree_remove, Height about the depth, Iteration and Walk about the iterator, Map
--   about what a search finds after a change, and rbtree_clear.
-- - Pool: pool.h and pool.c. Pool/Apart is about ranges that do not overlap, Owned about who owns the
--   items, Alloc and Free about _memory_pool_alloc and _memory_pool_free.
-- - AsyncQueue: asyncqueue.h and asyncqueue.c. AsyncQueue/Reach has the states that the threads reach,
--   Signals those in which pthread_cond_signal has its effect; Awake is about the threads that a
--   signal wakes, Progress about which threads can go on.
-- - Hash: compare.c and hash.c. Hash/Digest is about what they compute.
-- The Examples modules run the code and apply the theorems to concrete containers.
--
-- The tree. A pointer to a node is the subtree below it, and the stack of the nodes above the
-- current one is a trail, the list of the steps from the node up to the root. A write to a node of
-- the stack changes a step, and the tree is put together again at the end.
--
-- Threads. A thread takes the mutex, does one action and gives the mutex back, or waits on the
-- condition, which gives it back too; the actions of the threads follow each other in any order. A
-- wait ends at any time, with or without a signal, and with a timeout if it has a deadline, since
-- the clock is not modelled. A signal of async_queue_push wakes one thread that is in the wait, as the
-- standard says, or none if there is none: Runs has the states with that, Reach those without a
-- promise about it.
--
-- State and errors. A function that changes a struct takes the old one and returns the new one. A
-- function of slist.c or list.c takes the list and the heap of its items together. A Run is a
-- result, a fault (an access out of bounds, through NULL or to a released item), an abort of the
-- process, or a lack of fuel. The Makefile builds with -DNDEBUG, so that the asserts of the code
-- are not there; their conditions are hypotheses where a theorem needs them.
--
-- Numbers and memory. size_t has 64 bits and SSIZE_MAX is 2^63 - 1. A pointer is a number, 0 is
-- NULL, and an address does not say where its memory lies. malloc and realloc succeed, since the
-- code ends the process otherwise, and what they leave in new cells is the parameter `junk`. A
-- CompareFunc is known by its sign alone. The calls of a FreeFunc are collected in the log `freed`.
-- A released list item is off the heap; the address of a new one is the argument `fresh`, whether
-- it comes from a pool or from malloc.
--
-- Fuel. The loop of _buffer_new_realloc_size doubles a 64-bit number and has 66 rounds; the binary
-- search has one round more than keys; the walks along a list have one round more than items; a
-- step of the hash table's iterator has four rounds. The repair of a red-black tree before a
-- removal has two rounds more than the path has nodes, and a step of its iterator three for each
-- cell of the stack.
--
-- Not modelled: the functions that only allocate or release a struct (buffer_new, slist_destroy and
-- the like); the release of the nodes and buckets of the trees and tables to their pool or through
-- free (the calls of the user's FreeFunc are there); the array on the stack that buffer_fill_from_fd
-- reads into, with a count of 0; the messages on stderr. The test programs and benchmarks only use the library.
pub mod Base
pub mod Memory
pub mod Callbacks
pub mod Commands
pub mod Buffer
pub mod AssocArray
pub mod SList
pub mod Queues
pub mod HashTable
pub mod RbTree
pub mod Pool
pub mod AsyncQueue
pub mod Hash
pub mod DList

-- ===== src/Lib.antt =====
-- librep: the lists, texts, tables and symbols of the Lisp runtime, its collector and its timers.
--
-- The program. Every Lisp value is a word (rep_lisp.h): a fixnum, or the address of a cell. Cons cells
-- come from blocks of src/lists.c and go back to its free list when the collector sweeps them. The list
-- subrs read, build and edit chains of such cells; they call Lisp functions through rep_apply, and poll
-- for the user's interrupt in every loop. src/tables.c keeps hash tables of chained nodes, with hash and
-- compare functions given by the program; src/utf8-utils.c converts between bytes and code points.
--
-- The files.
--   Prelude        shared names, Boolean tests on numbers, list helpers, integers
--   Value          src/rep_lisp.h: repv as Value, rep_CONSP, rep_LISTP, rep_INTP and the errors of a subr
--   Loop           src/rep_lisp.h: rep_TEST_INT and rep_INTERRUPTP as the loop poll_loop
--   Heap           src/lists.c: the blocks and the free list (Store), Fcons (make_cons), rep_cons_free
--                  (free_cons), refill_free_list, rep_cons_sweep (cons_sweep); Heap/Chain and Heap/Alloc
--                  hold the invariant, Heap/Sweeping the sweep, Heap/Tail the idiom `repv *last`
--   Lists/Access   Fcons's users: car, cdr, set-car!, set-cdr!, list, list*, make-list and predicates
--   Lists/Search   assoc, assq, assv, rassoc, rassq, rassv, member, memq, memv as one loop (scan)
--   Lists/Index    rep_list_length, list-length, list-ref, list-tail, last
--   Lists/Copy     rep_copy_list, append, append! (nconc), rep_concat_lists
--   Lists/Reverse  reverse, reverse! (nreverse)
--   Lists/Mapping  map, for-each, mapcar, mapc, filter
--   Lists/Delete   delete!, delq!, delete-if!, delete-if-not!
--   Utf8           src/utf8-utils.c and src/utf8-utils.h, function by function
--   Tables         src/tables.c: make_table, lookup, table-ref, table-bound?, table-set!, table-delete!,
--                  table-size, table-for-each; Tables/Hashes its hash functions and src/pointer-hash.h
--   Compare        src/compare.c, rep_cons_cmp of src/lists.c, number_cmp, rep_compare_numbers and eqv? of
--                  src/numbers.c on fixnums; Compare/Fixnums and Compare/Trees the proofs
--   Fluids         src/fluids.c, and search_environment of src/variables.c, on an Env: the store and
--                  rep_special_env; Fluids/Binding and Fluids/Scope the proofs; Fluids/Symbols is
--                  check_special_variable, rep_bind_special and rep_unbind_symbols of src/variables.c
--   Vectors        src/vectors.c but the sweep, on a memory of vectors; Vectors/Mapping is vector-map and
--                  vector-for-each, Vectors/Contents the proofs
--   Plists         src/plists.c: setplist, symbol-plist, get and put; Plists/Properties the proofs
--   Collector      src/gc.c: rep_MARKVAL (mark_val), rep_mark_value (mark_value) and the roots of
--                  Fgarbage_collect (mark_roots), on a Memory of cells. Collector/Marking says what a
--                  call marks, Collector/Fuel that the fuel is enough, Collector/Closed tests a list of
--                  cells, Collector/Growth what marking keeps, Collector/Reachable the mark phase
--   Guardians      src/guardians.c: the subrs, rep_run_guardians (run_guardians), sweep_guardians;
--                  Guardians/Scanning, Running and Saving the proofs, from one list to all of them
--   WeakRefs       src/weak-refs.c; WeakRefs/Scanning the proofs
--   Tuples         src/tuples.c: rep_make_tuple and its free list (Tuples/Allocation), the sweep
--                  (Tuples/Sweeping), rep_tuples_kill
--   Collection     Fgarbage_collect from the roots to the sweep of the cons cells, with its proofs
--   Symbols        src/symbols.c: make-symbol, find-symbol, intern-symbol, intern, unintern,
--                  make-keyword and others; Symbols/Chains, Interning, Joining, Finding, Turning and
--                  Removing the proofs
--   Timers         src/timers.c: fix_time, insert_timer, delete_timer, timer_signal_handler,
--                  timer_fd_handler and the subrs; Timers/Times is the arithmetic of times,
--                  Timers/Schedules, Inserting, Deadlines, Deleting and Firing the proofs
--   Numbers        src/numbers.c on fixnums: make_long_int, rep_number_add, rep_number_sub,
--                  rep_number_neg, 1+, 1-, quotient, remainder and modulo; Numbers/Fixnums the proofs
--   Tests          the theorems at concrete inputs
-- A component's file has the definitions, and the modules below it the proofs.
--
-- State. A subr that writes cells takes a Store and returns the next one. A subr returns ok with a value,
-- or err with the reason, where the code returns 0 with rep_throw_value set.
--
-- Bounds and fuel. The loops of the list subrs do not end on a circular list until the user interrupts
-- them. poll_loop takes the number of polls that find no interrupt, which is the environment's to
-- choose: a theorem about a result names how many polls it takes, one for each cell as a rule, and any
-- greater number will do; a smaller one is an interrupted run. rep_value_cmp recurs without a poll: its
-- fuel is the depth of the recursion, and the depth of the first tree is enough.
-- rep_mark_value recurs on fuel: the number of cells without a mark is enough, since each call sets a
-- mark. The loops over a guardian's list and over the chains of an obarray have no poll: their length
-- is enough. fix_time takes no more rounds than there are milliseconds.
-- The searches of the special environment and of property lists have no poll either: one round more
-- than bindings or properties is enough, and table-for-each, whose function may change the table, takes
-- the length of the longest chain and one more than the number of chains for one that does not. The hash functions are on words of 64 bits with their
-- wrap-around. Numbers of nodes and cells are not bounded, and memory does not run out.
--
-- Parameters. A called Lisp function is a function from a Store and arguments to a result and a Store
-- (call); equal? and eqv? are functions into Bool; the hash and compare functions of a table are
-- functions of the key, and Hashing names what the manual asks of them. The addresses that rep_alloc
-- returns for guardians and timers are arguments; the mark functions of
-- types are the lists of values that they mark. The arithmetic of number cells (GMP) is a set of functions.
--
-- Not modelled: of gc.c the growth of the array of static roots, the thresholds, the statistics, the
-- origins and the hook, and the sweeps of the types other than conses, tuples and guardians; collections inside
-- a subr (the GC roots have no part in the results); weak tables beyond the list of their guarded keys;
-- of symbols.c gensym, apropos and printing; alloca failing for a huge argument list; reading and
-- printing, products and bit operations of fixnums and all of the other numbers, strings as cells,
-- other variables, structures, the byte-code
-- machine, streams, files, processes, sockets and foreign functions.
pub mod Prelude
pub mod Value
pub mod Loop
pub mod Heap
pub mod Lists
pub mod Utf8
pub mod Tables
pub mod Compare
pub mod Fluids
pub mod Vectors
pub mod Plists
pub mod Tests
pub mod Collector
pub mod Guardians
pub mod Tuples
pub mod WeakRefs
pub mod Collection
pub mod Symbols
pub mod Timers
pub mod Numbers

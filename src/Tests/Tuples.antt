-- ===== src/Tests/Tuples.antt =====
-- A block with two free tuples: a new one of them, and the sweep of the block.
use librep.Prelude.{◌%◌, Bool, refl, List, [], ◌∷◌, arith, ◌==◌, if◌then◌else◌}
use librep.Value.{Addr, null, nil, object}
use librep.Tuples.{Tuples, pointer, make_tuple, sweep_tuples}
use librep.Tuples.Allocation.{IsPool, Made, make_tuple-Made}
use librep.Tuples.Sweeping.{block_tuples-one, AllSwept, sweep_tuples-AllSwept}

-- Tuples 2 and 3 are free, the others of the block are in use.
abbrev pool : Tuples
pool = record {
  car = λ i. 77;
  a = λ i. if i == 2 then pointer 3 else if i == 3 then null else nil;
  b = λ i. nil;
  free = pointer 2;
  blocks = 0 ∷ [];
  allocated = 680;
  used = 678;
  data_after_gc = 0;
}

pool-IsPool : IsPool pool (2 ∷ 3 ∷ [])
pool-IsPool = record {
  free = (refl, (refl, refl));
  distinct = ground arith;
  below = λ i h. ground arith;
}

make_tuple-Made_example :
    (is' : List Addr) × Made pool
      (2 ∷ 3 ∷ [])
      13
      (object 5 1)
      nil
      (make_tuple pool 13 (object 5 1) nil).0
      (make_tuple pool 13 (object 5 1) nil).1
      is'
make_tuple-Made_example = make_tuple-Made pool 13 (object 5 1) nil (2 ∷ 3 ∷ []) pool-IsPool

-- A collection that marks every fourth tuple.
abbrev marks : Addr → Bool
marks i = i % 4 == 0

sweep_tuples-AllSwept_example :
    (fs : List Addr) × AllSwept pool marks fs
      (sweep_tuples pool marks).0
      (sweep_tuples pool marks).1
sweep_tuples-AllSwept_example =
    sweep_tuples-AllSwept pool marks (block_tuples-one 0).0 (block_tuples-one 0).1

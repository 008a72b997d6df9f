-- ===== src/Tests/Edits.antt =====
-- The allocator, and the subrs that edit lists of the memory in place.
use librep.Prelude.{
  ◌≡◌, refl, Bool, false, List, [], ◌∷◌, arith, if◌then◌else◌, has, not, keep, ◌&&◌,
}
use librep.Value.{Addr, Value, nil, cons, is_nil, eq, truth, Result, ok}
use librep.Heap.{Store, make_cons, cons_sweep}
use librep.Heap.Alloc.{IsValid, Made, make_cons_lem}
use librep.Heap.Sweeping.{block_cells, block_cells-one, count_marked, cons_sweep-IsValid}
use librep.Lists.Copy.{nconc}
use librep.Lists.Copy.Joining.{Joined, nconc-Joined, flat}
use librep.Lists.Reverse.{nreverse}
use librep.Lists.Reverse.Elements.{Turned, nreverse-Turned}
use librep.Lists.Delete.{delete_if, delete_if_not}
use librep.Lists.Delete.Editing.{Remains}
use librep.Lists.Delete.Remaining.{delete_if-Remains}
use librep.Tests.Memory.{
  num, memory, spare, numbers, pairs, memory-IsValid, numbers-Chain, pairs-Chain, numbers-Live,
  numbers-Distinct,
}

make_cons_lem_example :
    (fs' : List Addr) × Made memory spare
      (num 4)
      (cons 0)
      (make_cons memory (num 4) (cons 0)).0
      (make_cons memory (num 4) (cons 0)).1
      fs'
make_cons_lem_example = make_cons_lem memory (num 4) (cons 0) spare memory-IsValid

nconc-Joined_example :
    Joined memory
      (flat (numbers ∷ pairs ∷ []))
      (cons 6)
      (nconc 6 memory (cons 0 ∷ cons 3 ∷ cons 6 ∷ []))
nconc-Joined_example =
    nconc-Joined (cons 6) (num 7) (6 ∷ []) refl (cons 0 ∷ cons 3 ∷ cons 6 ∷ [])
      (numbers ∷ pairs ∷ []) 6 memory
      (refl, (nil, numbers-Chain, refl), (refl, (nil, pairs-Chain, refl), refl)) (refl, refl)
      (refl, (refl, (refl, (refl, (refl, tt))))) (λ a h. ground arith) (omega arith)

nreverse-Turned_example : Turned memory spare numbers [] (nreverse 3 memory (cons 0))
nreverse-Turned_example =
    nreverse-Turned spare nil 3 (cons 0) numbers memory refl memory-IsValid refl numbers-Chain
      numbers-Live numbers-Distinct (omega arith)

-- A predicate that accepts 2 only.
abbrev is_two : Value → Value
is_two x = if eq x (num 2) then truth else nil

abbrev first_arg : List Value → Value
first_arg [] = nil
first_arg (x ∷ xs) = x

abbrev call_two : Store → Value → List Value → Result Value × Store
call_two s f xs = (ok (is_two (first_arg xs)), s)

delete_if-Remains_example :
    Remains memory numbers
      (keep (λ c. not (not (is_nil (is_two (memory.car c))))) numbers)
      nil
      (delete_if call_two 3 memory nil (cons 0))
    × Remains memory numbers
        (keep (λ c. not (is_nil (is_two (memory.car c)))) numbers)
        nil
        (delete_if_not call_two 3 memory nil (cons 0))
delete_if-Remains_example =
    delete_if-Remains call_two nil is_two (λ t x. refl) memory numbers nil (cons 0) 3 refl refl
      numbers-Chain numbers-Distinct (omega arith)

-- The numbers are marked, and nothing else.
abbrev marks : Addr → Bool
marks a = has a numbers

cons_sweep-IsValid_example :
    (fs : List Addr) × IsValid (cons_sweep memory marks).0 fs
    × ((a : Addr) → has a fs ≡ (has a (block_cells memory.blocks) && not (marks a)))
    × ((cons_sweep memory marks).0.car ≡ memory.car)
    × ((a : Addr) → has a fs ≡ false → (cons_sweep memory marks).0.cdr a ≡ memory.cdr a)
    × ((cons_sweep memory marks).0.used ≡ count_marked marks (block_cells memory.blocks))
    × ((a : Addr)
        → (cons_sweep memory marks).1 a ≡ (marks a && not (has a (block_cells memory.blocks))))
cons_sweep-IsValid_example =
    cons_sweep-IsValid memory marks (block_cells-one 0).0 (block_cells-one 0).1

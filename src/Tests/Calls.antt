-- ===== src/Tests/Calls.antt =====
-- Subrs that call functions, on the lists of the memory.
use librep.Prelude.{◌+◌, ◌≡◌, refl, List, [], ◌∷◌, map, arith, if◌then◌else◌}
use librep.Value.{Value, nil, cons, eq, truth, Result, ok, err, thrown}
use librep.Heap.{Store}
use librep.Heap.Tail.Grown.{Returns}
use librep.Lists.Mapping.{mapcar, mapc}
use librep.Lists.Mapping.Images.{mapcar-Returns}
use librep.Lists.Mapping.Effects.{run_calls, mapc-run_calls}
use librep.Tests.Memory.{num, memory, spare, numbers, memory-IsValid, numbers-Chain, numbers-Live}

-- A predicate that rejects 2 only.
abbrev not_two : Value → Value
not_two x = if eq x (num 2) then nil else truth

abbrev first_arg : List Value → Value
first_arg [] = nil
first_arg (x ∷ xs) = x

abbrev call_pure : Store → Value → List Value → Result Value × Store
call_pure s f xs = (ok (not_two (first_arg xs)), s)

mapcar-Returns_example :
    Returns memory spare
      (map not_two (map memory.car numbers))
      nil
      (mapcar call_pure 3 memory nil (cons 0))
mapcar-Returns_example =
    mapcar-Returns call_pure nil not_two (λ t x. refl) memory spare nil refl 3 (cons 0) numbers
      memory-IsValid refl numbers-Chain numbers-Live (omega arith)

-- A function that counts its calls in the store, and fails for 2.
abbrev call_count : Store → Value → List Value → Result Value × Store
call_count s f xs =
    (if eq (first_arg xs) (num 2) then err thrown else ok nil, record s { used = s.used + 1 })

mapc-run_calls_example :
    mapc call_count 3 memory nil (cons 0) ≡ run_calls call_count nil (map memory.car numbers) memory
mapc-run_calls_example =
    mapc-run_calls call_count nil memory numbers nil refl (λ t x a h. (refl, refl)) 3 (cons 0) refl
      numbers-Chain (omega arith)

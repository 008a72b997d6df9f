-- ===== src/Tests/Lists.antt =====
-- The subrs that only read the lists of the memory, or build new ones.
use librep.Prelude.{
  ◌||◌, ◌≡◌, refl, Bool, false, none, some, List, [], ◌∷◌, arith, length, leb, if◌then◌else◌,
}
use librep.Value.{Value, nil, cons, eq, err, interrupt}
use librep.Heap.Tail.Grown.{Returns}
use librep.Lists.Search.{assoc, assv, assq, rassoc, rassv, rassq, member, memv, memq, scan}
use librep.Lists.Search.First.{FindsPair, FindsElement, searches-first, scan-circular}
use librep.Lists.Index.{list_length}
use librep.Lists.Index.Positions.{list_length_lem}
use librep.Lists.Copy.{append}
use librep.Lists.Copy.Concatenation.{append-Returns, all_cars}
use librep.Tests.Memory.{
  num, memory, spare, numbers, pairs, ring, memory-IsValid, numbers-Chain, pairs-Chain,
  numbers-Live, pairs-Live, ring-Circular,
}

abbrev three : List Value
three = num 7 ∷ num 8 ∷ num 9 ∷ []

abbrev same : Value → Value → Bool
same = eq

searches-first_example :
    FindsPair memory memory.car (same (num 2)) pairs (assoc (λ s. same) 2 memory (num 2) (cons 3))
    × FindsPair memory memory.car (same (num 2)) pairs (assv same 2 memory (num 2) (cons 3))
    × FindsPair memory memory.car (eq (num 2)) pairs (assq 2 memory (num 2) (cons 3))
    × FindsPair memory memory.cdr
        (same (num 2))
        pairs
        (rassoc (λ s. same) 2 memory (num 2) (cons 3))
    × FindsPair memory memory.cdr (same (num 2)) pairs (rassv same 2 memory (num 2) (cons 3))
    × FindsPair memory memory.cdr (eq (num 2)) pairs (rassq 2 memory (num 2) (cons 3))
    × FindsElement memory (same (num 2)) pairs (member (λ s. same) 2 memory (num 2) (cons 3))
    × FindsElement memory
        (λ v. eq (num 2) v || same (num 2) v)
        pairs
        (memv same 2 memory (num 2) (cons 3))
    × FindsElement memory (eq (num 2)) pairs (memq 2 memory (num 2) (cons 3))
searches-first_example =
    searches-first 2 memory (num 2) (cons 3) nil pairs refl refl pairs-Chain (omega arith)
      (λ s. same) same

scan-circular_example : scan 5 memory (λ a. false) cons (cons 10) ≡ err interrupt
scan-circular_example =
    scan-circular memory (λ a. false) cons ring ring-Circular (λ c h. refl) 5 10 refl

list_length_lem_example :
    list_length 4 memory (cons 0) ≡ (if leb (length numbers) 4 then some (length numbers) else none)
list_length_lem_example = list_length_lem memory nil refl 4 (cons 0) numbers numbers-Chain

append-Returns_example :
    Returns memory spare
      (all_cars memory (numbers ∷ pairs ∷ []))
      (cons 6)
      (append 12 memory (cons 0 ∷ cons 3 ∷ cons 6 ∷ []))
append-Returns_example =
    append-Returns memory spare (cons 6) (6 ∷ []) (num 7) refl (refl, refl) (λ a h. ground arith)
      (cons 0 ∷ cons 3 ∷ cons 6 ∷ []) (numbers ∷ pairs ∷ []) 12 memory-IsValid
      (
        record { end = nil; ends = refl; is = refl; chain = numbers-Chain; lives = numbers-Live },
        (
          record { end = nil; ends = refl; is = refl; chain = pairs-Chain; lives = pairs-Live },
          refl,
        ),
      )
      (omega arith)

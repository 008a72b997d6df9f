-- ===== src/Tests/Memory.antt =====
-- A memory with three lists and a cycle: (1 2 3) in the cells 0 to 2, ((1 . 7) (2 . 8)) in the cells
-- 3 and 4 with its pairs in 6 and 7, and a list of the cells 10 and 11 without an end.
-- Cell 9 is an environment that binds the fluid in 6 to 9, by the pair in 8. Cell 5 is free.
use librep.Prelude.{
  ℕ, zero, suc, Bool-cases, inl, inr, ◌≡◌, refl, List, [], ◌∷◌, arith, ◌==◌, Distinct,
}
use librep.Prelude.Int.{pos}
use librep.Value.{Addr, Value, null, nil, fixnum, cons}
use librep.Heap.{Store}
use librep.Heap.Alloc.{IsValid, Live}
use librep.Heap.Chain.{Chain, Circular}

abbrev pub num : ℕ → Value
num n = fixnum (pos n)

abbrev word : List Value → Addr → Value
word [] a = nil
word (v ∷ vs) zero = v
word (v ∷ vs) (suc a) = word vs a

abbrev cars : List Value
cars = num 1 ∷ num 2 ∷ num 3 ∷ cons 6 ∷ cons 7 ∷ nil ∷ num 1 ∷ num 2 ∷ cons 6 ∷ cons 8 ∷ []

abbrev cdrs : List Value
cdrs =
    cons 1
    ∷ cons 2
    ∷ nil
    ∷ cons 4
    ∷ nil
    ∷ null
    ∷ num 7
    ∷ num 8
    ∷ num 9
    ∷ nil
    ∷ cons 11
    ∷ cons 10
    ∷ []

abbrev pub memory : Store
memory = record {
  car = word cars;
  cdr = word cdrs;
  free = cons 5;
  blocks = 0 ∷ [];
  allocated = 1022;
  used = 1021;
  data_after_gc = 0;
}

abbrev pub spare : List Addr
spare = 5 ∷ []

abbrev pub numbers : List Addr
numbers = 0 ∷ 1 ∷ 2 ∷ []

abbrev pub pairs : List Addr
pairs = 3 ∷ 4 ∷ []

abbrev pub ring : List Addr
ring = 10 ∷ 11 ∷ []

pub memory-IsValid : IsValid memory spare
memory-IsValid = record { chain = (refl, refl); distinct = (refl, tt); below = λ a h. ground arith }

pub numbers-Chain : Chain memory.cdr (cons 0) numbers nil
numbers-Chain = (refl, (refl, (refl, refl)))

pub pairs-Chain : Chain memory.cdr (cons 3) pairs nil
pairs-Chain = (refl, (refl, refl))

pub numbers-Live : Live memory spare numbers
numbers-Live a h = ground arith

pub pairs-Live : Live memory spare pairs
pairs-Live a h = ground arith

pub numbers-Distinct : Distinct numbers
numbers-Distinct = (refl, (refl, (refl, tt)))

pub ring-Circular : Circular memory.cdr ring
ring-Circular c h = elim (Bool-cases (c == 10)) [
  | inl e ↦ let p : c ≡ 10 = ground arith in rw p (11, refl, refl)
  | inr e ↦ let p : c ≡ 11 = ground arith in rw p (10, refl, refl)
]

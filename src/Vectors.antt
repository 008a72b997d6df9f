-- ===== src/Vectors.antt =====
-- src/vectors.c: vectors, on a memory of vectors that are named in the order in which they are made.
-- A byte-code object has the layout of a vector. Sizes fit an int, and memory does not run out.
pub mod Contents
pub mod Mapping
use librep.Prelude.{
  ℕ, zero, suc, ◌+◌, Bool, true, false, ◌||◌, Option, none, some, List, [], ◌∷◌, ◌++◌, length,
  get_elem?, replicate, ltb, ◌==◌, if◌then◌else◌, map,
}
use librep.Prelude.Int.{ℤ, pos}
use librep.Value.{
  Addr, Value, nil, undefined, fixnum, object, is_list, non_neg_int, of_bool, Error, bad_arg,
  missing_arg, interrupt, thrown, Result, ok, err,
}
use librep.Heap.{Store}
use librep.Heap.Tail.{Out, emit}
use librep.Lists.Access.{car, cdr}
use librep.Lists.Copy.{start}
use librep.Lists.Index.{list_length}

-- `immutable` is the bit `rep_VECTOR_IMMUTABLE`.
pub record Vector : Type 0 where
  pub contents : List Value
  pub immutable : Bool

pub record Vectors : Type 0 where
  pub vector_at : Addr → Vector
  pub made : ℕ

-- `rep_Vector` and `rep_Bytecode`
abbrev pub vector_type : ℕ
vector_type = 0x03

abbrev pub bytecode_type : ℕ
bytecode_type = 0x07

-- `rep_VECTOR_OR_BYTECODE_P`, with the address
abbrev pub vector_or_bytecode : Value → Option Addr
vector_or_bytecode (object k a) = if k == vector_type || k == bytecode_type then some a else none
vector_or_bytecode _ = none

-- `rep_VECTORP`
abbrev pub only_vector : Value → Option Addr
only_vector (object k a) = if k == vector_type then some a else none
only_vector _ = none

abbrev pub put_vector : Vectors → Addr → Vector → Vectors
put_vector vs a v = record vs { vector_at = λ b. if b == a then v else vs.vector_at b }

-- `rep_make_vector`, and the elements that the caller writes into it
pub new_vector : Vectors → List Value → Value × Vectors
new_vector vs xs = (
  object vector_type vs.made,
  record (put_vector vs vs.made (record { contents = xs; immutable = false })) {
    made = vs.made + 1;
  },
)

-- `rep_VECTI(vec, i) = value`
unfoldable pub set_element : List Value → ℕ → Value → List Value
set_element [] i x = []
set_element (y ∷ ys) zero x = x ∷ ys
set_element (y ∷ ys) (suc i) x = y ∷ set_element ys i x

-- `rep_vector_cmp` of vectors of one type; `cmp` stands for rep_value_cmp
pub compare_elements : (Value → Value → Option ℤ) → List Value → List Value → Option ℤ
compare_elements cmp [] ys = some (pos 0)
compare_elements cmp (x ∷ xs) [] = some (pos 1)
compare_elements cmp (x ∷ xs) (y ∷ ys) =
    let rest = compare_elements cmp xs ys in elim (cmp x y) [ some (pos zero) ↦ rest | r ↦ r ]

pub vector_cmp : (Value → Value → Option ℤ) → Vector → Vector → Option ℤ
unfolding compare_elements
vector_cmp cmp v w =
    if length v.contents == length w.contents
    then compare_elements cmp v.contents w.contents
    else some (pos 1)

-- `Fvector`
pub vector : Vectors → List Value → Value × Vectors
unfolding new_vector
vector vs argv = new_vector vs argv

-- `Fmake_vector`
pub make_vector : Vectors → Value → Value → Result Value × Vectors
unfolding new_vector
make_vector vs size init = elim (non_neg_int size) [
  | none ↦ (err (bad_arg size 1), vs)
  | some k ↦ let (v, vs') = new_vector vs (replicate k init) in (ok v, vs')
]

-- `Fvector_length`
pub vector_length : Vectors → Value → Result Value
vector_length vs vec = elim (vector_or_bytecode vec) [
  | none ↦ err (bad_arg vec 1)
  | some a ↦ ok (fixnum (pos (length (vs.vector_at a).contents)))
]

-- `Fvector_ref`
pub element_at : Value → List Value → ℕ → Result Value
element_at idx xs i = elim (get_elem? xs i) [ none ↦ err (bad_arg idx 2) | some x ↦ ok x ]

pub vector_ref : Vectors → Value → Value → Result Value
unfolding element_at
vector_ref vs vec idx = elim (vector_or_bytecode vec) [
  | none ↦ err (bad_arg vec 1)
  | some a ↦ elim (non_neg_int idx) [
    | none ↦ err (bad_arg idx 2)
    | some i ↦ element_at idx (vs.vector_at a).contents i
  ]
]

-- What `Fsignal(Qsetting_constant, ...)` and the index tests of `Fvector_set` leave to do.
pub write_element : Vectors → Value → Value → Value → Addr → ℕ → Result Value × Vectors
unfolding set_element
write_element vs vec idx value a i =
    let v = vs.vector_at a in
    if v.immutable
    then (err thrown, vs)
    else if ltb i (length v.contents)
    then (ok undefined, put_vector vs a (record v { contents = set_element v.contents i value }))
    else (err (bad_arg idx 2), vs)

-- `Fvector_set`
pub vector_set : Vectors → Value → Value → Value → Result Value × Vectors
unfolding write_element
vector_set vs vec idx value = elim (vector_or_bytecode vec) [
  | none ↦ (err (bad_arg vec 1), vs)
  | some a ↦ elim (non_neg_int idx) [
    | none ↦ (err (bad_arg idx 2), vs)
    | some i ↦ write_element vs vec idx value a i
  ]
]

-- `Fmake_vector_immutable`
pub make_vector_immutable : Vectors → Value → Result Value × Vectors
make_vector_immutable vs vec = elim (only_vector vec) [
  | none ↦ (err (bad_arg vec 1), vs)
  | some a ↦ (ok undefined, put_vector vs a (record (vs.vector_at a) { immutable = true }))
]

-- The loop of `Flist_to_vector` over the cells that were counted
pub list_elements : ℕ → Store → Value → List Value
unfolding car cdr
list_elements zero s l = []
list_elements (suc k) s l = car s l ∷ list_elements k s (cdr s l)

-- `Flist_to_vector`
pub list_to_vector : ℕ → Store → Vectors → Value → Result Value × Vectors
unfolding list_elements new_vector
list_to_vector n s vs l =
    if is_list l
    then (elim (list_length n s l) [
      | none ↦ (err interrupt, vs)
      | some count ↦ let (v, vs') = new_vector vs (list_elements count s l) in (ok v, vs')
    ])
    else (err (bad_arg l 1), vs)

-- The loop of `Fvector_to_list`
pub emit_all : Out → List Value → Out
emit_all o [] = o
emit_all o (x ∷ xs) = emit_all (emit o x) xs

-- `Fvector_to_list`
pub vector_to_list : Store → Vectors → Value → Result Value × Store
unfolding emit_all
vector_to_list s vs vec = elim (only_vector vec) [
  | none ↦ (err (bad_arg vec 1), s)
  | some a ↦ let o = emit_all (start nil s) (vs.vector_at a).contents in (ok o.value, o.store)
]

-- `Fvectorp`
pub vectorp : Value → Value
vectorp v = elim (only_vector v) [ none ↦ of_bool false | some a ↦ of_bool true ]

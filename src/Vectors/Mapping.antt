-- ===== src/Vectors/Mapping.antt =====
-- src/vectors.c: vector-map and vector-for-each. `call` stands for rep_call_lispn; it may write any
-- vector, and the elements of a round are read when the round begins.
use librep.Prelude.{
  ℕ, zero, suc, ◌+◌, ◌-◌, ◌^◌, none, some, List, [], ◌∷◌, map, length, get_or, replicate, ltb,
  if◌then◌else◌,
}
use librep.Value.{Value, null, nil, undefined, object, bad_arg, missing_arg, Result, ok, err}
use librep.Vectors.{Vectors, vector_type, only_vector, new_vector, put_vector, set_element}

-- The length of the shortest vector, from the argument `i` on. `len` starts with `INTPTR_MAX`.
pub min_length : Vectors → ℕ → ℕ → List Value → Result ℕ
min_length vs i len [] = ok len
min_length vs i len (v ∷ argv) = elim (only_vector v) [
  | none ↦ err (bad_arg v (i + 1))
  | some a ↦
      let li = length (vs.vector_at a).contents in
      min_length vs (i + 1) (if ltb li len then li else len) argv
]

abbrev pub intptr_max : ℕ
intptr_max = 2 ^ 63 - 1

-- `rep_VECTI(argv[i], j)`, which is in range: vectors keep their lengths
abbrev pub element_of : Vectors → ℕ → Value → Value
element_of vs j v = elim (only_vector v) [
  | none ↦ nil
  | some a ↦ get_or (vs.vector_at a).contents j nil
]

module _ (call : Vectors → Value → List Value → Result Value × Vectors) (fun : Value)
    (argv : List Value) where
  -- The loop of `Fvector_for_each`, with `k` rounds left.
  pub each_element : ℕ → ℕ → Vectors → Result Value × Vectors
  each_element zero j vs = (ok undefined, vs)
  each_element (suc k) j vs =
      let (r, vs') = call vs fun (map (element_of vs j) argv) in
      elim r [ err e ↦ (err e, vs') | ok x ↦ each_element k (j + 1) vs' ]

  -- `rep_VECTI(ret, j) = tem`
  abbrev pub store_element : Vectors → ℕ → ℕ → Value → Vectors
  store_element vs ret j x =
      put_vector vs ret
        (record (vs.vector_at ret) { contents = set_element (vs.vector_at ret).contents j x })

  -- The loop of `Fvector_map`, which fills the vector `ret`.
  pub map_elements : ℕ → ℕ → ℕ → Vectors → Result Value × Vectors
  unfolding set_element
  map_elements ret zero j vs = (ok (object vector_type ret), vs)
  map_elements ret (suc k) j vs =
      let (r, vs') = call vs fun (map (element_of vs j) argv) in
      elim r [
        | err e ↦ (err e, vs')
        | ok x ↦ map_elements ret k (j + 1) (store_element vs' ret j x)
      ]

  -- `Fvector_for_each` and `Fvector_map` of one vector or more. The new vector holds no values yet.
  pub for_each_vector : Vectors → Result Value × Vectors
  unfolding min_length each_element
  for_each_vector vs = elim (min_length vs 1 intptr_max argv) [
    | err e ↦ (err e, vs)
    | ok len ↦ each_element len 0 vs
  ]

  pub map_vector : Vectors → Result Value × Vectors
  unfolding min_length map_elements new_vector
  map_vector vs = elim (min_length vs 1 intptr_max argv) [
    | err e ↦ (err e, vs)
    | ok len ↦ let (v, vs') = new_vector vs (replicate len null) in map_elements vs.made len 0 vs'
  ]

module _ (call : Vectors → Value → List Value → Result Value × Vectors) (vs : Vectors) where
  -- The test of the number of arguments, `argc` being that of all arguments.
  pub vector_for_each : List Value → Result Value × Vectors
  unfolding for_each_vector
  vector_for_each [] = (err (missing_arg 1), vs)
  vector_for_each (fun ∷ []) = (err (missing_arg 2), vs)
  vector_for_each (fun ∷ v ∷ argv) = for_each_vector call fun (v ∷ argv) vs

  pub vector_map : List Value → Result Value × Vectors
  unfolding map_vector
  vector_map [] = (err (missing_arg 1), vs)
  vector_map (fun ∷ []) = (err (missing_arg 2), vs)
  vector_map (fun ∷ v ∷ argv) = map_vector call fun (v ∷ argv) vs

-- ===== src/Lists/Mapping.antt =====
-- src/lists.c: map, for-each, mapcar, mapc and filter.
pub mod Images
pub mod Effects
use librep.Prelude.{
  ℕ, zero, suc, ◌+◌, Bool, true, false, Option, none, some, List, [], ◌∷◌, if◌then◌else◌,
}
use librep.Value.{
  Value, nil, null, undefined, cons, is_list, is_nil, Error, bad_arg, missing_arg, interrupt,
  Result, ok, err,
}
use librep.Loop.{Round, leave, again, poll_loop, no_rest}
use librep.Heap.{Store}
use librep.Heap.Tail.{Out, emit}
use librep.Lists.Copy.{start}

-- The cars and the cdrs of the lists; `none` if a list has ended.
pub heads_with : Store → Value → Option (List Value × List Value) → Option (List Value × List Value)
heads_with s (cons a) (some (xs, vs)) = some (s.car a ∷ xs, s.cdr a ∷ vs)
heads_with s _ _ = none

pub heads : Store → List Value → Option (List Value × List Value)
unfolding heads_with
heads s [] = some ([], [])
heads s (v ∷ vs) = heads_with s v (heads s vs)

-- `rep_DECLARE(i + 1, argv[i], rep_LISTP(argv[i]))` for the arguments from the `i`-th on
pub check_lists : ℕ → List Value → Option Error
check_lists i [] = none
check_lists i (v ∷ vs) =
    let rest = check_lists (i + 1) vs in if is_list v then rest else some (bad_arg v (i + 1))

-- `call` stands for `rep_call_lispn`: the function may do anything to the store.
module _ (call : Store → Value → List Value → Result Value × Store) (fun : Value) where
  pub map_call :
      Out → List Value → Result Value × Store → Round (List Value × Out) (Result Value × Store)
  map_call o vs (err e, s) = leave (err e, s)
  map_call o vs (ok x, s) = again (vs, emit (record o { store = s }) x)

  pub map_step : List Value × Out → Round (List Value × Out) (Result Value × Store)
  unfolding map_call heads
  map_step (vs, o) = elim (heads o.store vs) [
    | none ↦ leave (ok o.value, o.store)
    | some (xs, vs') ↦ map_call o vs' (call o.store fun xs)
  ]

  -- the loop of `Fmap`
  pub map_loop : ℕ → List Value × Out → Result Value × Store
  unfolding map_step poll_loop
  map_loop n state = (poll_loop map_step no_rest (λ (vs, o). (err interrupt, o.store)) n state).0

  pub each_call :
      List Value → Result Value × Store → Round (List Value × Store) (Result Value × Store)
  each_call vs (err e, s) = leave (err e, s)
  each_call vs (ok x, s) = again (vs, s)

  pub each_step : List Value × Store → Round (List Value × Store) (Result Value × Store)
  unfolding each_call heads
  each_step (vs, s) = elim (heads s vs) [
    | none ↦ leave (ok undefined, s)
    | some (xs, vs') ↦ each_call vs' (call s fun xs)
  ]

  -- the loop of `Ffor_each`
  pub each_loop : ℕ → List Value × Store → Result Value × Store
  unfolding each_step poll_loop
  each_loop n state = (poll_loop each_step no_rest (λ (vs, s). (err interrupt, s)) n state).0

  -- `filter`: the predicate is called, then comes the poll, then the element is kept or not
  pub filter_call :
      Value → Out → Result Value × Store → Round (Value × Out × Bool) (Result Value × Store)
  filter_call l o (err e, s) = leave (err e, s)
  filter_call l o (ok x, s) = again (l, record o { store = s }, is_nil x)

  pub filter_step : Value × Out × Bool → Round (Value × Out × Bool) (Result Value × Store)
  unfolding filter_call
  filter_step (cons a, o, drop) = filter_call (cons a) o (call o.store fun (o.store.car a ∷ []))
  filter_step (_, o, drop) = leave (ok o.value, o.store)

  pub filter_rest : Value × Out × Bool → Value × Out × Bool
  filter_rest (cons a, o, drop) =
      let o' = if drop then o else emit o (o.store.car a) in (o'.store.cdr a, o', drop)
  filter_rest state = state

  pub filter : ℕ → Store → Value → Result Value × Store
  unfolding filter_step filter_rest poll_loop
  filter n s l =
      if is_list l
      then (poll_loop filter_step filter_rest (λ (l', o, drop). (err interrupt, o.store)) n
          (l, start nil s, false)).0
      else (err (bad_arg l 2), s)

module _ (call : Store → Value → List Value → Result Value × Store) (n : ℕ) (s : Store) where
  -- `Fmap` and `Ffor_each`; `argc + 1` is the number of the argument that is missing
  pub fmap : List Value → Result Value × Store
  unfolding map_loop check_lists
  fmap [] = (err (missing_arg 1), s)
  fmap (fun ∷ []) = (err (missing_arg 2), s)
  fmap (fun ∷ v ∷ vs) = elim (check_lists 1 (v ∷ vs)) [
    | some e ↦ (err e, s)
    | none ↦ map_loop call fun n (v ∷ vs, start nil s)
  ]

  pub for_each : List Value → Result Value × Store
  unfolding each_loop check_lists
  for_each [] = (err (missing_arg 1), s)
  for_each (fun ∷ []) = (err (missing_arg 2), s)
  for_each (fun ∷ v ∷ vs) = elim (check_lists 1 (v ∷ vs)) [
    | some e ↦ (err e, s)
    | none ↦ each_loop call fun n (v ∷ vs, s)
  ]

  -- `Fmapcar` and `Fmapc`
  pub mapcar : Value → Value → Result Value × Store
  unfolding fmap
  mapcar fun l = fmap (fun ∷ l ∷ [])

  pub mapc : Value → Value → Result Value × Store
  unfolding for_each
  mapc fun l = for_each (fun ∷ l ∷ [])

-- ===== src/WeakRefs.antt =====
-- src/weak-refs.c: references that do not keep their objects.
pub mod Scanning
use librep.Prelude.{
  ℕ, Bool, true, false, ◌&&◌, not, List, [], ◌∷◌, if◌then◌else◌, ◌==◌, Option, none, some,
}
use librep.Value.{Addr, Value, null, nil, object, is_int, Result, ok, err, bad_arg}
use librep.Collector.{Marks}
use librep.Tuples.{Tuples, make_tuple}

-- `rep_Weak_Ref`
abbrev pub weak_type : ℕ
weak_type = 27

-- A weak reference: the address of its tuple, and `WEAK_REF`. Its `WEAK_NEXT` is the next of the list.
pub record Weak : Type 0 where
  pub self : Addr
  pub ref : Value

-- `weak_refs`, and the tuples it is made of
pub record Weaks : Type 0 where
  pub tuples : Tuples
  pub weak_refs : List Weak

-- `Fmake_weak`
pub make_weak : Weaks → Value → Value × Weaks
make_weak s ref =
    let (i, t) = make_tuple s.tuples weak_type null null in
    (
      object weak_type i,
      record { tuples = t; weak_refs = record { self = i; ref = ref } ∷ s.weak_refs },
    )

pub find_weak : Addr → List Weak → Option Weak
find_weak i [] = none
find_weak i (w ∷ ws) = if w.self == i then some w else find_weak i ws

-- `WEAKP`, with the reference
pub weak_of : Value → List Weak → Option Weak
unfolding find_weak
weak_of (object t i) ws = if t == weak_type then find_weak i ws else none
weak_of _ ws = none

pub put_ref : Addr → Value → List Weak → List Weak
put_ref i v [] = []
put_ref i v (w ∷ ws) = if w.self == i then record w { ref = v } ∷ ws else w ∷ put_ref i v ws

-- `Fweak_ref`
pub weak_ref : Weaks → Value → Result Value
unfolding weak_of
weak_ref s weak = elim (weak_of weak s.weak_refs) [
  | none ↦ err (bad_arg weak 1)
  | some w ↦ ok w.ref
]

-- `Fweak_set`
pub weak_set : Weaks → Value → Value → Result Value × Weaks
unfolding weak_of put_ref
weak_set s weak value = elim (weak_of weak s.weak_refs) [
  | none ↦ (err (bad_arg weak 1), s)
  | some w ↦ (ok value, record s { weak_refs = put_ref w.self value s.weak_refs })
]

-- A reference to a cell without a mark becomes `()`.
abbrev pub cleared : Marks → Value → Value
cleared k v = if not (is_int v) && not (k v) then nil else v

-- `rep_scan_weak_refs`; `kept` are the references that are linked again
pub scan_weak_refs : Marks → List Weak → List Weak → List Weak
scan_weak_refs k [] kept = kept
scan_weak_refs k (w ∷ ws) kept =
    scan_weak_refs k ws
      (if k (object weak_type w.self) then record w { ref = cleared k w.ref } ∷ kept else kept)

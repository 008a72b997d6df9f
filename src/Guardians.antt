-- ===== src/Guardians.antt =====
-- src/guardians.c: guardians, and what the collector does with the objects that they guard.
pub mod Scanning
pub mod Saving
pub mod Running
use librep.Prelude.{
  ℕ, zero, suc, ◌+◌, Bool, true, false, ◌&&◌, ◌||◌, not, List, [], ◌∷◌, if◌then◌else◌, ◌==◌, Option,
  none, some,
}
use librep.Value.{Addr, Value, nil, cons, object, eq, is_int, is_nil, Result, ok, err, bad_arg}
use librep.Heap.{Store, set_cdr_of, make_cons}
use librep.Collector.{Cell, typed_cell, Memory, Marks, set_mark, mark_val, mark_vals, mark_value}

-- `rep_guardian`; `self` is its address.
pub record Guardian : Type 0 where
  pub self : Addr
  pub accessible : Value
  pub inaccessible : Value

-- `guardians` is the list through the `next` fields.
pub record Guards : Type 0 where
  pub store : Store
  pub guardians : List Guardian

-- `rep_Guardian`
abbrev pub guardian_type : ℕ
guardian_type = 21

-- `sizeof(rep_guardian)` on a 64-bit machine
abbrev pub sizeof_guardian : ℕ
sizeof_guardian = 32

-- `Fmake_primitive_guardian`; `a` is the memory that `rep_alloc` returns
pub make_primitive_guardian : Guards → Addr → Value × Guards
make_primitive_guardian g a = (
  object guardian_type a,
  record g {
    guardians = record { self = a; accessible = nil; inaccessible = nil } ∷ g.guardians;
    store = record g.store { data_after_gc = g.store.data_after_gc + sizeof_guardian };
  },
)

unfoldable pub find_guardian : Addr → List Guardian → Option Guardian
find_guardian a [] = none
find_guardian a (g ∷ gs) = if g.self == a then some g else find_guardian a gs

pub put_guardian : Guardian → List Guardian → List Guardian
put_guardian g [] = []
put_guardian g (h ∷ hs) = if h.self == g.self then g ∷ hs else h ∷ put_guardian g hs

-- `rep_GUARDIANP`, with the guardian
unfoldable pub guardian_of : Value → List Guardian → Option Guardian
unfolding find_guardian
guardian_of (object t a) gs = if t == guardian_type then find_guardian a gs else none
guardian_of _ gs = none

-- `if (rep_CELLP(obj)) accessible = Fcons(obj, accessible)`
pub guard_object : Guards → Guardian → Value → Guards
unfolding put_guardian
guard_object s g obj =
    if is_int obj
    then s
    else let (c, store) = make_cons s.store obj g.accessible in
      record {
        store = store;
        guardians = put_guardian (record g { accessible = cons c }) s.guardians;
      }

-- `Fprimitive_guardian_push`
pub primitive_guardian_push : Guards → Value → Value → Result Value × Guards
unfolding guardian_of guard_object
primitive_guardian_push s g obj = elim (guardian_of g s.guardians) [
  | none ↦ (err (bad_arg g 1), s)
  | some h ↦ (ok g, guard_object s h obj)
]

pub pop_object : Guards → Guardian → Value → Value × Guards
unfolding put_guardian
pop_object s g (cons c) = (
  s.store.car c,
  record s { guardians = put_guardian (record g { inaccessible = s.store.cdr c }) s.guardians },
)
pop_object s g _ = (nil, s)

-- `Fprimitive_guardian_pop`
pub primitive_guardian_pop : Guards → Value → Result Value × Guards
unfolding guardian_of pop_object
primitive_guardian_pop s g = elim (guardian_of g s.guardians) [
  | none ↦ (err (bad_arg g 1), s)
  | some h ↦ let (v, s') = pop_object s h h.inaccessible in (ok v, s')
]

-- `mark_guardian`
abbrev pub guardian_cell : Guardian → Cell
guardian_cell g = typed_cell (g.inaccessible ∷ [])

-- What the marking reads of a cell: of a guardian, its fields as they are now
unfoldable pub guarded_content : List Guardian → (Value → Cell) → Value → Cell
unfolding guardian_of
guarded_content gs cell v = elim (guardian_of v gs) [ none ↦ cell v | some g ↦ guardian_cell g ]

-- The state of the loop over one `accessible` list; `changed` is `changed_list`.
pub record Scan : Type 0 where
  pub store : Store
  pub marks : Marks
  pub accessible : Value
  pub inaccessible : Value
  pub changed : List Value

-- `ptr`: the list's head, or the cdr of a cell
pub data Link : Type 0 where
  at_head : Link
  at_cdr : Addr → Link

abbrev pub read_link : Scan → Link → Value
read_link s at_head = s.accessible
read_link s (at_cdr a) = s.store.cdr a

abbrev pub write_link : Scan → Link → Value → Scan
write_link s at_head v = record s { accessible = v }
write_link s (at_cdr a) v = record s { store = set_cdr_of s.store a v }

-- The cell `c` goes over to the inaccessible objects.
unfoldable pub move_cell : Scan → Link → Addr → Scan
move_cell s ptr c =
    let t = write_link s ptr (s.store.cdr c) in
    record t {
      store = set_cdr_of t.store c t.inaccessible;
      inaccessible = cons c;
      changed = s.store.car c ∷ s.changed;
      marks = set_mark (cons c) s.marks;
    }

-- One round, at the cell `c`, whose own mark is set
unfoldable pub scan_cell : Scan → Link → Addr → Scan × Link
unfolding move_cell
scan_cell s ptr c =
    if s.marks (s.store.car c)
    then (record s { marks = set_mark (cons c) s.marks }, at_cdr c)
    else (move_cell s ptr c, ptr)

-- The loop over one list, on fuel. The list ends with `()`.
unfoldable pub scan_cells : ℕ → Scan → Link → Scan
unfolding scan_cell
scan_cells zero s ptr = s
scan_cells (suc n) s ptr = elim (read_link s ptr) [
  | cons c ↦ let (s', ptr') = scan_cell s ptr c in scan_cells n s' ptr'
  | _ ↦ s
]

-- The state of the loop over the guardians
pub record Pass : Type 0 where
  pub store : Store
  pub marks : Marks
  pub changed : List Value

unfoldable pub scan_guardian : ℕ → Pass → Guardian → Guardian × Pass
unfolding scan_cells
scan_guardian n p g =
    let s =
      scan_cells n
        (record {
          store = p.store;
          marks = p.marks;
          accessible = g.accessible;
          inaccessible = g.inaccessible;
          changed = p.changed;
        })
        at_head in
    (
      record g { accessible = s.accessible; inaccessible = s.inaccessible },
      record { store = s.store; marks = s.marks; changed = s.changed },
    )

unfoldable pub scan_guardians : ℕ → Pass → List Guardian → List Guardian × Pass
unfolding scan_guardian
scan_guardians n p [] = ([], p)
scan_guardians n p (g ∷ gs) =
    let (g', p') = scan_guardian n p g in let (gs', p'') = scan_guardians n p' gs in (g' ∷ gs', p'')

-- `rep_run_guardians`, with the fuel of the lists and of the marking. A guardian that is marked at the
-- end has its new list of inaccessible objects, whose first cell may have a mark by then.
pub run_guardians : ℕ → ℕ → Memory → Marks → List Guardian → List Guardian × Memory × Marks
unfolding scan_guardians guarded_content
run_guardians n fuel m k gs =
    let (gs', p) = scan_guardians n (record { store = m.store; marks = k; changed = [] }) gs in
    let m' = record m { store = p.store; cell = guarded_content gs' m.cell } in
    (gs', m', mark_vals (mark_value m' fuel) p.changed p.marks)

-- `sweep_guardians`: the guardians that are kept lose their marks, and their order turns round
pub sweep_guardians : Marks → List Guardian → List Guardian → List Guardian
sweep_guardians k [] kept = kept
sweep_guardians k (g ∷ gs) kept =
    let v = object guardian_type g.self in
    sweep_guardians (λ w. not (eq w v) && k w) gs (if k v then g ∷ kept else kept)

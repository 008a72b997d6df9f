-- ===== src/Tests/Collector.antt =====
-- A collection of the memory: a list that a root leads to, a guarded list, and weak references.
use librep.Prelude.{
  ◌++◌, ◌≡◌, refl, true, false, ◌||◌, has, Distinct, keep, turned_onto, List, [], ◌∷◌, arith, All,
  Bool-cases, inl, inr, ◌==◌, if◌then◌else◌,
}
use librep.Value.{Addr, Value, null, nil, symbol, cons, object, eq}
use librep.Heap.Alloc.{IsValid, Below}
use librep.Heap.Sweeping.{block_cells, block_cells-one, has-block_cells}
use librep.Collector.{
  Cell, symbol_cell, string_cell, number_cell, subr_cell, typed_cell, Memory, content, Marks,
  no_marks, Roots, mark_roots,
}
use librep.Collector.Marking.{here, fields, has_value, is_cell, covered, Reach}
use librep.Collector.Fuel.{IsClosed, HasStatics}
use librep.Collector.Closed.{lead_into-IsClosed, Reach-held}
use librep.Collector.Reachable.{root_values, Exact, mark_roots-Exact}
use librep.Guardians.{Guardian, Pass, scan_guardian, scan_guardians, guarded_content, run_guardians}
use librep.Guardians.Running.{Cells, Guarding, AllGuarding, open_in, Split, scan_guardian-Split}
use librep.Guardians.Saving.{last_pass, after_scan, run_guardians-covers}
use librep.Collection.{Heaps, garbage_collect, Kept, garbage_collect-Kept, garbage_collect-frees}
use librep.WeakRefs.{Weak, scan_weak_refs}
use librep.WeakRefs.Scanning.{is_kept, AllUpdated, Holds, scan_weak_refs_lem, scan_weak_refs-static}
use librep.Tests.Memory.{memory}

-- The symbol `t` has a name, and is linked to no other; the object 9 is a subr.
abbrev cell_of : Value → Cell
cell_of (symbol a) = symbol_cell (object 5 3) null
cell_of (object type _) =
    if type == 5 then string_cell false else if type == 27 then typed_cell [] else subr_cell
cell_of _ = number_cell

abbrev heap : Memory
heap = record { store = memory; cell = cell_of }

abbrev cells : List Value
cells = nil ∷ cons 0 ∷ cons 1 ∷ cons 2 ∷ cons 6 ∷ cons 7 ∷ symbol 0 ∷ object 5 3 ∷ object 17 4 ∷ []

abbrev roots : Roots
roots = record {
  static_roots = symbol 0 ∷ [];
  gc_roots = cons 0 ∷ [];
  gc_n_roots = (object 17 4 ∷ []) ∷ [];
  type_roots = [];
  call_stack =
      record {
        fun = nil;
        args = nil;
        current_form = cons 1;
        saved_env = nil;
        saved_structure = nil;
      }
      ∷ [];
}

cells-IsClosed : IsClosed heap cells
unfolding content eq
cells-IsClosed = lead_into-IsClosed heap cells refl

mark_roots-Exact_example : Exact heap (root_values roots) (mark_roots heap 9 roots)
unfolding eq
mark_roots-Exact_example =
    mark_roots-Exact heap cells roots 9 cells-IsClosed (λ v i c. ground (arith, i)) (omega arith)

-- A guardian of the pairs in the cells 6 and 7: nothing leads to the second.
abbrev guardian : Guardian
guardian = record { self = 20; accessible = cons 3; inaccessible = nil }

abbrev lists : Cells
lists = record { open_cells = 3 ∷ 4 ∷ []; lost_cells = [] }

guardian-Guarding : Guarding memory guardian lists
unfolding eq
guardian-Guarding = record {
  list = (refl, (refl, refl));
  lost = refl;
  distinct = (refl, (refl, tt));
  apart = λ a i. refl;
  objects = λ a b i j. elim (Bool-cases (a == 3)) [
    | inl e ↦ let same : a ≡ 3 = ground arith in rw same (ground arith)
    | inr e ↦ let same : a ≡ 4 = ground arith in rw same (ground arith)
  ];
}

-- The first pair has a mark.
abbrev some_marks : Marks
some_marks v = no_marks v || eq v (cons 6)

abbrev pass : Pass
pass = record { store = memory; marks = some_marks; changed = [] }

scan_guardian-Split_example :
    Split pass guardian lists (scan_guardian 2 pass guardian).0 (scan_guardian 2 pass guardian).1
scan_guardian-Split_example =
    scan_guardian-Split 2 pass guardian lists guardian-Guarding (omega arith)

guardians-AllGuarding : AllGuarding memory (guardian ∷ []) (lists ∷ [])
guardians-AllGuarding = (guardian-Guarding, ((λ a i. refl), tt))

guarded_cells : IsClosed (after_scan heap some_marks (guardian ∷ []) 2) cells
unfolding content eq scan_guardians guarded_content
guarded_cells = lead_into-IsClosed (after_scan heap some_marks (guardian ∷ []) 2) cells refl

marked_statics : HasStatics some_marks
unfolding eq
marked_statics = (refl, refl)

held_objects :
    (v : Value)
    → has_value v (last_pass heap some_marks (guardian ∷ []) 2).changed ≡ true
    → is_cell v ≡ true
    → has_value v cells ≡ true
unfolding scan_guardians eq
held_objects v i c = ground arith

run_guardians-covers_example :
    ((a : Addr)
      → open_in a (lists ∷ []) ≡ true
      → covered
          (after_scan heap some_marks (guardian ∷ []) 2)
          (run_guardians 2 9 heap some_marks (guardian ∷ [])).2
          (memory.car a)
        ≡ true)
    × ((u w : Value)
        → (run_guardians 2 9 heap some_marks (guardian ∷ [])).2 u ≡ true
        → (last_pass heap some_marks (guardian ∷ []) 2).marks u ≡ false
        → has_value w (fields (content (after_scan heap some_marks (guardian ∷ []) 2) u)) ≡ true
        → covered
            (after_scan heap some_marks (guardian ∷ []) 2)
            (run_guardians 2 9 heap some_marks (guardian ∷ [])).2
            w
          ≡ true)
run_guardians-covers_example =
    run_guardians-covers heap some_marks (guardian ∷ []) 2 (lists ∷ []) 9 guardians-AllGuarding
      (omega arith, tt) cells guarded_cells (marked_statics) held_objects (unfold eq in omega arith)

abbrev heaps : Heaps
heaps = record {
  memory = heap;
  guardians = guardian ∷ [];
  weak_refs = record { self = 21; ref = cons 10 } ∷ record { self = 22; ref = cons 0 } ∷ [];
}

roots-held :
    (v : Value)
    → has_value v (root_values roots) ≡ true
    → is_cell v ≡ true
    → has_value v cells ≡ true
roots-held v i c = ground (arith, i)

blocks-Distinct : Distinct (block_cells (0 ∷ []))
blocks-Distinct = (block_cells-one 0).0

blocks-Below : Below 1022 (block_cells (0 ∷ []))
blocks-Below = (block_cells-one 0).1

garbage_collect-Kept_example :
    (fs : List Addr) × Kept roots heaps (garbage_collect 2 9 roots heaps) (lists ∷ []) fs
garbage_collect-Kept_example =
    garbage_collect-Kept roots heaps 2 9 cells cells-IsClosed roots-held (unfold eq in omega arith)
      blocks-Distinct blocks-Below (lists ∷ []) guardians-AllGuarding (omega arith, tt)

abbrev unguarded : Heaps
unguarded = record heaps { guardians = [] }

ring-apart : (v : Value) → has_value v (root_values roots) ≡ true → ¬ Reach heap v (cons 10)
unfolding eq
ring-apart v i r =
    let found = Reach-held heap cells cells-IsClosed (roots-held v i) r refl in
    absurd (ground (arith, found))

-- The list in the cells 10 and 11 has no end, and is freed.
garbage_collect-frees_example :
    (fs : List Addr) × IsValid (garbage_collect 0 9 roots unguarded).memory.store fs
    × (has 10 fs ≡ true)
garbage_collect-frees_example =
    garbage_collect-frees roots unguarded 0 9 cells cells-IsClosed roots-held
      (unfold eq in omega arith) blocks-Distinct blocks-Below refl 10 (has-block_cells 0 10)
      ring-apart

-- A weak reference to the unreachable ring, and one to a subr.
abbrev weak_refs : List Weak
weak_refs = record { self = 21; ref = cons 10 } ∷ record { self = 22; ref = object 17 4 } ∷ []

abbrev weak_marks : Marks
weak_marks v = no_marks v || eq v (object 27 21) || eq v (cons 0)

scan_weak_refs_lem_example :
    (vs : List Weak) × (scan_weak_refs weak_marks weak_refs [] ≡ turned_onto vs [])
    × AllUpdated weak_marks (keep (is_kept weak_marks) weak_refs) vs
    × All (Holds weak_marks) vs
unfolding eq
scan_weak_refs_lem_example = scan_weak_refs_lem weak_marks weak_refs refl

-- The weak reference to the subr is a root too.
abbrev weak_roots : Roots
weak_roots = record roots { static_roots = object 27 22 ∷ symbol 0 ∷ [] }

abbrev weak_cells : List Value
weak_cells = object 27 22 ∷ cells

weak_cells-IsClosed : IsClosed heap weak_cells
unfolding content eq
weak_cells-IsClosed = lead_into-IsClosed heap weak_cells refl

weak_root-marked : mark_roots heap 10 weak_roots (object 27 22) ≡ true
unfolding eq content
weak_root-marked =
    let exact =
      mark_roots-Exact heap weak_cells weak_roots 10 weak_cells-IsClosed
        (λ v i c. ground (arith, i)) (omega arith) in
    ground (arith, exact.all (object 27 22) (object 27 22) refl here)

scan_weak_refs-static_example :
    scan_weak_refs (mark_roots heap 10 weak_roots) (weak_refs ++ []) []
    ≡ scan_weak_refs (mark_roots heap 10 weak_roots) [] []
      ++ record { self = 22; ref = nil }
        ∷ scan_weak_refs
            (mark_roots heap 10 weak_roots)
            (record { self = 21; ref = cons 10 } ∷ [])
            []
unfolding content eq
scan_weak_refs-static_example =
    scan_weak_refs-static heap weak_roots 10 (record { self = 21; ref = cons 10 } ∷ []) []
      (record { self = 22; ref = object 17 4 }) refl refl refl weak_root-marked

-- ===== src/Guardians/Saving.antt =====
-- `rep_run_guardians` saves what the guardians guard.
use librep.Prelude.{ℕ, ◌≤◌, ◌≡◌, true, false, List, [], arith, Bool-cases, inl, inr}
use librep.Value.{Addr, Value, nil, undefined, cons}
use librep.Collector.{Memory, content, Marks, mark_value}
use librep.Collector.Marking.{fields, has_value, is_cell, covered}
use librep.Collector.Fuel.{
  unmarked, unmarked-Grows, IsClosed, HasStatics, mark_vals-Marked, mark_value-MarksValue,
}
use librep.Collector.Growth.{mark_vals-Grows, mark_vals-none}
use librep.Guardians.{Guardian, Pass, guarded_content, scan_guardians, run_guardians}
use librep.Guardians.Scanning.{SameBlocks}
use librep.Guardians.Running.{Cells, AllGuarding, Fits, open_in, Passed, scan_guardians-Passed}

-- The memory and the marks after the guardians have run.
pub record Saved (m : Memory) (k : Marks) (cs : List Cells) (m' : Memory) (k' : Marks)
    : Type 0 where
  pub cars : m'.store.car ≡ m.store.car
  pub cdrs : (a : Addr) → open_in a cs ≡ false → m'.store.cdr a ≡ m.store.cdr a
  pub grows : (w : Value) → k w ≡ true → k' w ≡ true
  pub infrastructure : (a : Addr) → open_in a cs ≡ true → k' (cons a) ≡ true
  pub blocks : SameBlocks m.store m'.store

-- The memory and the work of the first loop.
abbrev pub first_pass : Memory → Marks → Pass
first_pass m k = record { store = m.store; marks = k; changed = [] }

module _ (m : Memory) (k : Marks) (gs : List Guardian) (n : ℕ) where
  abbrev pub last_pass : Pass
  last_pass = (scan_guardians n (first_pass m k) gs).1

  -- The memory after the first loop, with the guardians' new fields.
  abbrev pub after_scan : Memory
  after_scan = record m {
    store = last_pass.store;
    cell = guarded_content (scan_guardians n (first_pass m k) gs).0 m.cell;
  }

  module _ (cs : List Cells) (fuel : ℕ) (h : AllGuarding m.store gs cs) (f : Fits n cs) where
    passed : Passed (first_pass m k) cs last_pass
    passed = scan_guardians-Passed n (first_pass m k) gs cs h f

    pub run_guardians-Saved :
        Saved m k cs (run_guardians n fuel m k gs).1 (run_guardians n fuel m k gs).2
    unfolding run_guardians
    run_guardians-Saved =
        let go = mark_value after_scan fuel in
        let p = last_pass in
        let more = mark_vals-Grows after_scan fuel p.changed p.marks in
        record {
          cars = passed.cars;
          cdrs = passed.cdrs;
          grows = λ w i. more w (passed.grows w i);
          infrastructure = λ a i. more (cons a) (passed.infrastructure a i);
          blocks = passed.blocks;
        }

    -- After the guardians have run, every object on an accessible list has a mark, or is static, and so
    -- has every field of a cell whose mark was set after the scan of the lists; the field of a guardian
    -- is its new inaccessible list. Nothing is said of the objects that were inaccessible before. The
    -- accessible lists end and are apart, the cells `us` are closed under fields and hold the changed
    -- objects, and the fuel is the number of their cells.
    pub run_guardians-covers :
        (us : List Value)
        → IsClosed after_scan us
        → HasStatics k
        → ((v : Value)
            → has_value v last_pass.changed ≡ true
            → is_cell v ≡ true
            → has_value v us ≡ true)
        → unmarked k us ≤ fuel
        → ((a : Addr)
            → open_in a cs ≡ true
            → covered after_scan (run_guardians n fuel m k gs).2 (m.store.car a) ≡ true)
          × ((u w : Value)
              → (run_guardians n fuel m k gs).2 u ≡ true
              → last_pass.marks u ≡ false
              → has_value w (fields (content after_scan u)) ≡ true
              → covered after_scan (run_guardians n fuel m k gs).2 w ≡ true)
    unfolding run_guardians
    run_guardians-covers us closed (a, b) held enough =
        let p = last_pass in
        let d =
          mark_vals-Marked after_scan us closed (mark_value after_scan fuel) fuel
            (mark_value-MarksValue after_scan us closed fuel) p.changed p.marks held
            (
              omega (arith, unmarked-Grows k p.marks us passed.grows),
              (passed.grows nil a, passed.grows undefined b),
            ) in
        (
          (λ c i. elim (Bool-cases (has_value (m.store.car c) p.changed)) [
            | inl e ↦ d.covers (m.store.car c) e
            | inr e ↦
                let marked = d.grows (m.store.car c) (ground (arith, passed.objects c i)) in
                ground arith
          ]),
          d.closes,
        )

-- Without guardians the marks stay as they are.
pub run_guardians-none : (m : Memory) (k : Marks) (n fuel : ℕ) → (run_guardians n fuel m k []).2 ≡ k
unfolding run_guardians scan_guardians
run_guardians-none m k n fuel = mark_vals-none (after_scan m k [] n) fuel k

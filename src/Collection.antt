-- ===== src/Collection.antt =====
-- src/gc.c: `Fgarbage_collect`, from the marking of the roots to the sweeps.
use librep.Prelude.{
  ℕ, ◌≤◌, ◌≡◌, refl, sym, ap, ◌∙◌, true, false, List, [], arith, has, Distinct, Bool-cases, inl,
  inr,
}
use librep.Value.{Addr, Value, cons, eq}
use librep.Heap.{cons_sweep}
use librep.Heap.Alloc.{IsValid, Below}
use librep.Heap.Sweeping.{block_cells, cons_sweep-IsValid}
use librep.Collector.{Memory, Marks, no_marks, Roots, mark_roots}
use librep.Collector.Marking.{has_value, is_cell, Reach, covered-cons}
use librep.Collector.Fuel.{unmarked, IsClosed}
use librep.Collector.Reachable.{root_values, mark_roots-Exact}
use librep.Guardians.{Guardian, run_guardians, sweep_guardians}
use librep.Guardians.Running.{Cells, AllGuarding, Fits, open_in}
use librep.Guardians.Saving.{run_guardians-Saved, run_guardians-none}
use librep.WeakRefs.{Weak, scan_weak_refs}

pub record Heaps : Type 0 where
  pub memory : Memory
  pub guardians : List Guardian
  pub weak_refs : List Weak

-- The marks when the marking has finished, with the guardians and the memory.
pub mark_phase : ℕ → ℕ → Roots → Heaps → List Guardian × Memory × Marks
mark_phase n fuel r h = run_guardians n fuel h.memory (mark_roots h.memory fuel r) h.guardians

-- `Fgarbage_collect`, with the fuel of the guardians' lists and of the marking
pub garbage_collect : ℕ → ℕ → Roots → Heaps → Heaps
unfolding mark_phase
garbage_collect n fuel r h =
    let (gs, m, k) = mark_phase n fuel r h in
    let ws = scan_weak_refs k h.weak_refs [] in
    let (store, _) = cons_sweep m.store (λ a. k (cons a)) in
    record {
      memory = record m { store = record store { data_after_gc = 0 } };
      guardians = sweep_guardians k gs [];
      weak_refs = ws;
    }

-- What a collection keeps of the cells.
pub record Kept (r : Roots) (h h' : Heaps) (cs : List Cells) (fs : List Addr) : Type 0 where
  pub valid : IsValid h'.memory.store fs
  pub cells :
      (v : Value) (a : Addr)
      → has_value v (root_values r) ≡ true
      → Reach h.memory v (cons a)
      → open_in a cs ≡ false
      → (has a fs ≡ false)
        × (h'.memory.store.car a ≡ h.memory.store.car a)
        × (h'.memory.store.cdr a ≡ h.memory.store.cdr a)
  pub guards : (a : Addr) → open_in a cs ≡ true → has a fs ≡ false

module _ (r : Roots) (h : Heaps) (n fuel : ℕ) (us : List Value) (closed : IsClosed h.memory us)
    (held : (v : Value)
      → has_value v (root_values r) ≡ true
      → is_cell v ≡ true
      → has_value v us ≡ true)
    (enough : unmarked no_marks us ≤ fuel) (distinct : Distinct (block_cells h.memory.store.blocks))
    (below : Below h.memory.store.allocated (block_cells h.memory.store.blocks)) where
  -- A collection is safe: behind it the free list is valid, a cons cell that a root leads to is not on
  -- it and has its car and its cdr, and so have the cells of the guardians' accessible lists their place
  -- in memory. The guardians' lists end and are apart, `us` is closed under fields and holds the roots,
  -- no symbol is linked to a fixnum, the blocks are distinct and allocated, and the fuel is the number
  -- of the cells and the length of the longest list.
  pub garbage_collect-Kept :
      (cs : List Cells)
      → AllGuarding h.memory.store h.guardians cs
      → Fits n cs
      → (fs : List Addr) × Kept r h (garbage_collect n fuel r h) cs fs
  unfolding garbage_collect mark_phase
  garbage_collect-Kept cs guarding f =
      let m = h.memory in
      let k = mark_roots m fuel r in
      let exact = mark_roots-Exact m us r fuel closed held enough in
      let saved = run_guardians-Saved m k h.guardians n cs fuel guarding f in
      let out = run_guardians n fuel m k h.guardians in
      let k' = out.2 in
      let blocks = saved.blocks.0 in
      let (fs, v, member, cars, cdrs, _, _) =
        cons_sweep-IsValid out.1.store (λ a. k' (cons a)) (rw blocks distinct)
          (rw (blocks, saved.blocks.1) below) in
      (
        fs,
        record {
          valid = record { chain = v.chain; distinct = v.distinct; below = v.below };
          cells = λ w a i reach o.
              let marked =
                saved.grows (cons a) (sym (covered-cons m k a) ∙ exact.all w (cons a) i reach) in
              let kept = member a ∙ ground (arith, marked) in
              (kept, ap (λ car. car a) (cars ∙ saved.cars), cdrs a kept ∙ saved.cdrs a o);
          guards = λ a o. member a ∙ ground (arith, saved.infrastructure a o);
        },
      )

  -- A collection is complete: where nothing is guarded, every cell of a block that no root leads to is
  -- on the free list. `us` is closed under fields and holds the roots, no symbol is linked to a fixnum,
  -- the blocks are distinct and allocated, and the fuel is the number of the cells.
  pub garbage_collect-frees :
      h.guardians ≡ []
      → (a : Addr) → has a (block_cells h.memory.store.blocks) ≡ true
      → ((v : Value) → has_value v (root_values r) ≡ true → ¬ Reach h.memory v (cons a))
      → (fs : List Addr) × IsValid (garbage_collect n fuel r h).memory.store fs × (has a fs ≡ true)
  unfolding garbage_collect mark_phase
  garbage_collect-frees none a inside apart =
      let m = h.memory in
      let k = mark_roots m fuel r in
      let exact = mark_roots-Exact m us r fuel closed held enough in
      let saved = run_guardians-Saved m k h.guardians n [] fuel (rw none tt) tt in
      let out = run_guardians n fuel m k h.guardians in
      let blocks = saved.blocks.0 in
      let (fs, v, member, _, _, _, _) =
        cons_sweep-IsValid out.1.store (λ b. out.2 (cons b)) (rw blocks distinct)
          (rw (blocks, saved.blocks.1) below) in
      let same : out.2 ≡ k = rw none (run_guardians-none m k n fuel) in
      let unmarked : k (cons a) ≡ false = elim (Bool-cases (k (cons a))) [
        | inl e ↦
            let (w, i, reach) = exact.only (cons a) e (unfold eq in refl) in
            absurd (apart w i reach)
        | inr e ↦ e
      ] in
      (
        fs,
        record { chain = v.chain; distinct = v.distinct; below = v.below },
        member a ∙ rw (same, blocks, unmarked) (ground (arith, inside)),
      )

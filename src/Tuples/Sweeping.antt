-- ===== src/Tuples/Sweeping.antt =====
-- The sweep of the tuples frees exactly the ones without a mark.
use librep.Prelude.{
  ℕ, zero, suc, ◌+◌, ◌≡◌, refl, ap, sym, Bool, true, false, ◌&&◌, not, List, [], ◌∷◌, ◌++◌, arith,
  ◌==◌, if◌then◌else◌, has, Distinct, Bool-cases, inl, inr, ◌∙◌,
}
use mathlib.Core.List.{append-nil}
use librep.Value.{Addr, Value, null}
use librep.Heap.Alloc.{Below, cells_from, has-cells_from, Distinct-cells_from}
use librep.Heap.Sweeping.{count_marked, freed, has-freed}
use librep.Tuples.{
  Tuples, pointer, update_at, tuples_per_block, TupleSweep, sweep_tuple, sweep_block,
  sweep_tuple_blocks, sweep_tuples,
}
use librep.Tuples.Allocation.{Free, Free-agree, IsPool}

-- The sweep of tuples in a given order.
sweep_all : List Addr → TupleSweep → TupleSweep
sweep_all [] w = w
sweep_all (i ∷ is) w = sweep_all is (sweep_tuple w i)

sweep_all-append :
    (is js : List Addr) (w : TupleSweep) → sweep_all (is ++ js) w ≡ sweep_all js (sweep_all is w)
unfolding sweep_all
sweep_all-append [] js w = refl
sweep_all-append (i ∷ is) js w = sweep_all-append is js (sweep_tuple w i)

-- The tuples of the blocks, in the order of the block list.
pub block_tuples : List Addr → List Addr
block_tuples [] = []
block_tuples (b ∷ bs) = cells_from tuples_per_block b ++ block_tuples bs

-- The tuples of one block are distinct, and below the end of the block.
pub block_tuples-one :
    (b : Addr)
    → Distinct (block_tuples (b ∷ [])) × Below (b + tuples_per_block) (block_tuples (b ∷ []))
unfolding block_tuples
block_tuples-one b =
    let e = append-nil (cells_from tuples_per_block b) in
    (
      rw e (Distinct-cells_from tuples_per_block b),
      rw e (λ j h. ground (arith, has-cells_from tuples_per_block b j)),
    )

sweep_block-all : (k i : ℕ) (w : TupleSweep) → sweep_block k i w ≡ sweep_all (cells_from k i) w
unfolding sweep_block sweep_all cells_from
sweep_block-all zero i w = refl
sweep_block-all (suc k) i w = sweep_block-all k (i + 1) (sweep_tuple w i)

sweep_tuple_blocks-all :
    (bs : List Addr) (w : TupleSweep) → sweep_tuple_blocks bs w ≡ sweep_all (block_tuples bs) w
unfolding sweep_tuple_blocks block_tuples sweep_all
sweep_tuple_blocks-all [] w = refl
sweep_tuple_blocks-all (b ∷ bs) w =
    ap (sweep_tuple_blocks bs) (sweep_block-all tuples_per_block b w)
    ∙ sweep_tuple_blocks-all bs (sweep_all (cells_from tuples_per_block b) w)
    ∙ sym (sweep_all-append (cells_from tuples_per_block b) (block_tuples bs) w)

-- The state `v` after the sweep of the tuples `is` with the marks `m`, from `w` with the free `fs`
record Swept (w : TupleSweep) (is fs : List Addr) (m : Addr → Bool) (v : TupleSweep) : Type 0 where
  links : Free v.a v.free_list (freed m is fs)
  distinct : Distinct (freed m is fs)
  kept : (j : Addr) → (has j is && not (m j)) ≡ false → v.a j ≡ w.a j
  used : v.used ≡ w.used + count_marked m is
  cleared : (j : Addr) → v.marked j ≡ (w.marked j && not (has j is))

unmarked : TupleSweep → Addr → TupleSweep
unmarked w i = record w { marked = λ j. if j == i then false else w.marked j; used = w.used + 1 }

released : TupleSweep → Addr → TupleSweep
released w i = record w { a = update_at w.a i w.free_list; free_list = pointer i }

sweep_tuple-marked :
    (w : TupleSweep) (i : Addr) → w.marked i ≡ true → sweep_tuple w i ≡ unmarked w i
unfolding sweep_tuple unmarked
sweep_tuple-marked w i h = rw (h, sweep_tuple)

sweep_tuple-released :
    (w : TupleSweep) (i : Addr) → w.marked i ≡ false → sweep_tuple w i ≡ released w i
unfolding sweep_tuple released
sweep_tuple-released w i h = rw (h, sweep_tuple)

released-Free :
    (w : TupleSweep) (i : Addr) (fs : List Addr)
    → has i fs ≡ false
    → Free w.a w.free_list fs
    → Free (released w i).a (released w i).free_list (i ∷ fs)
unfolding released
released-Free w i fs out h = (
  refl,
  rw (self w.free_list)
      (Free-agree w.a (update_at w.a i w.free_list) w.free_list fs (λ j k. ground arith) h),
)
  where
    self : (v : Value) → update_at w.a i v i ≡ v
    self v = ground arith

sweep_all-Swept :
    (m : Addr → Bool) (is fs : List Addr) (w : TupleSweep)
    → Free w.a w.free_list fs
    → Distinct fs
    → Distinct is
    → ((j : Addr) → has j is ≡ true → has j fs ≡ false)
    → ((j : Addr) → has j is ≡ true → w.marked j ≡ m j)
    → Swept w is fs m (sweep_all is w)
unfolding sweep_all freed unmarked released
sweep_all-Swept m [] fs w links df di apart same = record {
  links = links;
  distinct = df;
  kept = λ j h. refl;
  used = omega arith;
  cleared = λ j. ground arith;
}
sweep_all-Swept m (i ∷ is) fs w links df (out, di) apart same = elim (Bool-cases (m i)) [
  | inl h ↦
      let ih =
        sweep_all-Swept m is fs (unmarked w i) links df di (λ j k. apart j (ground arith))
          (λ j k. ground (arith, same j (ground arith))) in
      rw (sweep_tuple-marked w i (same i (ground arith) ∙ h)) (record {
        links = rw h ih.links;
        distinct = rw h ih.distinct;
        kept = λ j k. ih.kept j (ground arith);
        used = rw h (omega (arith, ih.used));
        cleared = λ j. ground (arith, ih.cleared j);
      })
  | inr h ↦
      let ih =
        sweep_all-Swept m is (i ∷ fs) (released w i)
          (released-Free w i fs (apart i (ground arith)) links) (apart i (ground arith), df) di
          (λ j k. ground (arith, apart j (ground arith))) (λ j k. same j (ground arith)) in
      rw (sweep_tuple-released w i (same i (ground arith) ∙ h)) (record {
        links = rw h ih.links;
        distinct = rw h ih.distinct;
        kept = λ j k. ground (arith, ih.kept j);
        used = rw h (omega (arith, ih.used));
        cleared = λ j. ground (arith, ih.cleared j, same i (ground arith));
      })
]

-- The pool and the marks after a sweep of `t`, with the free tuples `fs`
pub record AllSwept (t : Tuples) (m : Addr → Bool) (fs : List Addr) (t' : Tuples) (m' : Addr → Bool)
    : Type 0 where
  pub pool : IsPool t' fs
  pub exact : (j : Addr) → has j fs ≡ (has j (block_tuples t.blocks) && not (m j))
  pub kept : (j : Addr) → has j fs ≡ false → t'.a j ≡ t.a j
  pub car : t'.car ≡ t.car
  pub b : t'.b ≡ t.b
  pub used : t'.used ≡ count_marked m (block_tuples t.blocks)
  pub cleared : (j : Addr) → m' j ≡ (m j && not (has j (block_tuples t.blocks)))

-- After `rep_sweep_tuples` the free list leads through exactly the tuples of the blocks without a mark,
-- every other tuple keeps its words, the marked tuples are counted as used, and the marks of the tuples
-- of the blocks are clear. The blocks hold distinct tuples below the allocated number.
pub sweep_tuples-AllSwept :
    (t : Tuples) (m : Addr → Bool)
    → Distinct (block_tuples t.blocks)
    → Below t.allocated (block_tuples t.blocks)
    → (fs : List Addr) × AllSwept t m fs (sweep_tuples t m).0 (sweep_tuples t m).1
unfolding sweep_tuples
sweep_tuples-AllSwept t m d below =
    let w : TupleSweep = record { a = t.a; marked = m; free_list = null; used = 0 } in
    let is = block_tuples t.blocks in
    let fs = freed m is [] in
    let k = sweep_all-Swept m is [] w refl tt d (λ j h. refl) (λ j h. refl) in
    let held : (j : Addr) → has j fs ≡ (has j is && not (m j)) =
      λ j. has-freed m is [] j ∙ ground arith in
    rw (sweep_tuple_blocks-all t.blocks w) (
      fs,
      record {
        pool = record {
          free = k.links;
          distinct = k.distinct;
          below = λ j h. below j (ground (arith, held j));
        };
        exact = held;
        kept = λ j h. k.kept j (sym (held j) ∙ h);
        car = refl;
        b = refl;
        used = k.used ∙ omega arith;
        cleared = k.cleared;
      },
    )

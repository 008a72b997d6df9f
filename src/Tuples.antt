-- ===== src/Tuples.antt =====
-- src/tuples.c: cells of three words, their blocks, and the free list, which runs through `a`.
pub mod Allocation
pub mod Sweeping
use librep.Prelude.{ℕ, zero, suc, ◌+◌, ◌-◌, Bool, true, false, List, [], ◌∷◌, ◌==◌, if◌then◌else◌}
use librep.Value.{Addr, Value, null, object}

-- `TUPLES_PER_BLOCK`
abbrev pub tuples_per_block : ℕ
tuples_per_block = 680

-- `sizeof(rep_tuple)` on a 64-bit machine
abbrev pub sizeof_tuple : ℕ
sizeof_tuple = 24

-- `car` is the type's word.
pub record Tuples : Type 0 where
  pub car : Addr → ℕ
  pub a : Addr → Value
  pub b : Addr → Value
  pub free : Value
  pub blocks : List Addr
  pub allocated : ℕ
  pub used : ℕ
  pub data_after_gc : ℕ

-- A pointer to a tuple whose word is 0.
abbrev pub pointer : Addr → Value
pointer i = object 0 i

abbrev pub update_at {ℓ} : {A : Type ℓ} → (Addr → A) → Addr → A → Addr → A
update_at m i v j = if j == i then v else m j

-- `b->tuples[i].a = rep_VAL(&b->tuples[i + 1])`, for `k` tuples from `i` on
pub link_tuples : ℕ → Addr → (Addr → Value) → Addr → Value
link_tuples zero i m = m
link_tuples (suc k) i m = link_tuples k (i + 1) (update_at m i (pointer (i + 1)))

-- `b->tuples[i].car = 0`, for `k` tuples from `i` on
pub clear_cars : ℕ → Addr → (Addr → ℕ) → Addr → ℕ
clear_cars zero i m = m
clear_cars (suc k) i m = clear_cars k (i + 1) (update_at m i 0)

-- `refill_free_list`
pub refill_tuples : Tuples → Addr × Tuples
unfolding link_tuples clear_cars
refill_tuples t =
    let base = t.allocated in
    let last = base + (tuples_per_block - 1) in
    (
      base,
      record t {
        car = clear_cars (tuples_per_block - 1) (base + 1) t.car;
        a = update_at (link_tuples (tuples_per_block - 2) (base + 1) t.a) last t.free;
        free = pointer (base + 1);
        blocks = base ∷ t.blocks;
        allocated = base + tuples_per_block;
      },
    )

pub take_tuple_from : Value → Tuples → Addr × Tuples
unfolding refill_tuples
take_tuple_from (object _ i) t = (i, record t { free = t.a i })
take_tuple_from _ t = refill_tuples t

-- `rep_make_tuple`
pub make_tuple : Tuples → ℕ → Value → Value → Addr × Tuples
unfolding take_tuple_from
make_tuple t car a b =
    let (i, t') = take_tuple_from t.free t in
    (
      i,
      record t' {
        used = t'.used + 1;
        data_after_gc = t'.data_after_gc + sizeof_tuple;
        car = update_at t'.car i car;
        a = update_at t'.a i a;
        b = update_at t'.b i b;
      },
    )

-- `rep_mark_tuple`: the values that it marks
abbrev pub tuple_fields : Tuples → Addr → List Value
tuple_fields t i = t.a i ∷ t.b i ∷ []

-- The sweep of `k` tuples from `i` on, with the free list and the count that it builds
pub record TupleSweep : Type 0 where
  pub a : Addr → Value
  pub marked : Addr → Bool
  pub free_list : Value
  pub used : ℕ

pub sweep_tuple : TupleSweep → Addr → TupleSweep
sweep_tuple w i =
    if w.marked i
    then record w { marked = λ j. if j == i then false else w.marked j; used = w.used + 1 }
    else record w { a = update_at w.a i w.free_list; free_list = pointer i }

pub sweep_block : ℕ → Addr → TupleSweep → TupleSweep
unfolding sweep_tuple
sweep_block zero i w = w
sweep_block (suc k) i w = sweep_block k (i + 1) (sweep_tuple w i)

pub sweep_tuple_blocks : List Addr → TupleSweep → TupleSweep
unfolding sweep_block
sweep_tuple_blocks [] w = w
sweep_tuple_blocks (b ∷ bs) w = sweep_tuple_blocks bs (sweep_block tuples_per_block b w)

-- `rep_sweep_tuples`, with the mark bits before and after it
pub sweep_tuples : Tuples → (Addr → Bool) → Tuples × (Addr → Bool)
unfolding sweep_tuple_blocks
sweep_tuples t marked =
    let w =
      sweep_tuple_blocks t.blocks
        (record { a = t.a; marked = marked; free_list = null; used = 0 }) in
    (record t { a = w.a; free = w.free_list; used = w.used }, w.marked)

-- `rep_tuples_kill`; the memory of the blocks goes back
pub tuples_kill : Tuples → Tuples
tuples_kill t = record t { blocks = []; free = null; allocated = 0; used = 0 }

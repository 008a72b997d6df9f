-- ===== src/Tuples/Allocation.antt =====
-- The free list of tuples, and what a new tuple leaves alone.
use librep.Prelude.{
  ℕ, zero, suc, ◌+◌, ◌≤◌, ◌<◌, ◌≡◌, refl, sym, Bool, true, false, ◌&&◌, not, List, [], ◌∷◌, arith,
  if◌then◌else◌, leb, ltb, has, Distinct,
}
use mathlib.Core.Path.{subst}
use librep.Value.{Addr, Value, null}
use librep.Heap.Alloc.{Below, cells_from, has-cells_from, Distinct-cells_from}
use librep.Tuples.{
  Tuples, pointer, update_at, link_tuples, clear_cars, refill_tuples, take_tuple_from, make_tuple,
}

-- From `v` the fields `a` lead through the tuples `is`, and end with 0.
abbrev pub Free : (Addr → Value) → Value → List Addr → Type 0
Free a v [] = v ≡ null
Free a v (i ∷ is) = (v ≡ pointer i) × Free a (a i) is

pub Free-agree :
    (a a' : Addr → Value) (v : Value) (is : List Addr)
    → ((i : Addr) → has i is ≡ true → a' i ≡ a i)
    → Free a v is
    → Free a' v is
Free-agree a a' v [] same h = h
Free-agree a a' v (i ∷ is) same (e, h) =
    (e, rw (same i (ground arith)) (Free-agree a a' (a i) is (λ j m. same j (ground arith)) h))

pub record IsPool (t : Tuples) (is : List Addr) : Type 0 where
  pub free : Free t.a t.free is
  pub distinct : Distinct is
  pub below : Below t.allocated is

-- A tuple of a block that is not free.
abbrev pub in_use : Tuples → List Addr → Addr → Bool
in_use t is i = not (has i is) && ltb i t.allocated

link_tuples-eq :
    (k i : ℕ) (m : Addr → Value) (j : Addr)
    → link_tuples k i m j ≡ (if leb i j && ltb j (i + k) then pointer (j + 1) else m j)
unfolding link_tuples
link_tuples-eq zero i m j = ground arith
link_tuples-eq (suc k) i m j =
    ground (arith, link_tuples-eq k (i + 1) (update_at m i (pointer (i + 1))) j)

clear_cars-eq :
    (k i : ℕ) (m : Addr → ℕ) (j : Addr)
    → clear_cars k i m j ≡ (if leb i j && ltb j (i + k) then 0 else m j)
unfolding clear_cars
clear_cars-eq zero i m j = ground arith
clear_cars-eq (suc k) i m j = ground (arith, clear_cars-eq k (i + 1) (update_at m i 0) j)

Free-cells_from :
    (a : Addr → Value) (k i : ℕ)
    → ((j : Addr) → i ≤ j → j < i + k → a j ≡ pointer (j + 1))
    → a (i + k) ≡ null
    → Free a (pointer i) (cells_from (suc k) i)
unfolding cells_from
Free-cells_from a zero i h e = (refl, ground arith)
Free-cells_from a (suc k) i h e = (
  refl,
  rw (h i (omega arith) (omega arith))
      (Free-cells_from a k (i + 1) (λ j p q. h j (omega arith) (omega arith)) (ground arith)),
)

-- A tuple taken from the pool: it was not in use, and no tuple in use changes.
pub record Taken (t : Tuples) (is : List Addr) (i : Addr) (t' : Tuples) (is' : List Addr)
    : Type 0 where
  pub valid : IsPool t' is'
  pub fresh : in_use t is i ≡ false
  pub new : in_use t' is' i ≡ true
  pub lives : (j : Addr) → in_use t is j ≡ true → in_use t' is' j ≡ true
  pub fields :
      (j : Addr) → in_use t is j ≡ true → (t'.car j ≡ t.car j) × (t'.a j ≡ t.a j) × (t'.b j ≡ t.b j)

module _ (t : Tuples) where
  take-Taken :
      (i : Addr) (is : List Addr)
      → IsPool t (i ∷ is)
      → Taken t (i ∷ is) i (record t { free = t.a i }) is
  take-Taken i is v = record {
    valid = record {
      free = v.free.1;
      distinct = v.distinct.1;
      below = λ j h. v.below j (ground arith);
    };
    fresh = ground arith;
    new = ground (arith, v.below i (ground arith), v.distinct.0);
    lives = λ j h. ground arith;
    fields = λ j h. (refl, refl, refl);
  }

  -- The links of a new block behind the first tuple.
  refilled : Addr → Value
  refilled = update_at (link_tuples 678 (t.allocated + 1) t.a) (t.allocated + 679) t.free

  refilled-inner :
      (j : Addr) → t.allocated < j → j < t.allocated + 679 → refilled j ≡ pointer (j + 1)
  unfolding refilled
  refilled-inner j p q = ground (arith, link_tuples-eq 678 (t.allocated + 1) t.a j)

  refilled-below : (j : Addr) → j < t.allocated → refilled j ≡ t.a j
  unfolding refilled
  refilled-below j p = ground (arith, link_tuples-eq 678 (t.allocated + 1) t.a j)

  refilled-last : t.free ≡ null → (j : Addr) → j ≡ t.allocated + 679 → refilled j ≡ null
  unfolding refilled
  refilled-last e j p = ground arith

  refill-Taken :
      IsPool t []
      → Taken t [] (refill_tuples t).0 (refill_tuples t).1 (cells_from 679 (t.allocated + 1))
  unfolding refill_tuples refilled
  refill-Taken v = record {
    valid = record {
      free =
          Free-cells_from refilled 678 (t.allocated + 1)
            (λ j p q. refilled-inner j (omega arith) (omega arith))
            (refilled-last v.free (t.allocated + 1 + 678) (omega arith));
      distinct = Distinct-cells_from 679 (t.allocated + 1);
      below = λ j h. ground (arith, has-cells_from 679 (t.allocated + 1) j);
    };
    fresh = ground arith;
    new = ground (arith, has-cells_from 679 (t.allocated + 1) t.allocated);
    lives = λ j h. ground (arith, has-cells_from 679 (t.allocated + 1) j);
    fields = λ j h. (
      ground (arith, clear_cars-eq 679 (t.allocated + 1) t.car j),
      refilled-below j (ground arith),
      refl,
    );
  }

  take_tuple_from-Taken :
      (is : List Addr)
      → IsPool t is
      → (is' : List Addr) × Taken t is (take_tuple_from t.free t).0 (take_tuple_from t.free t).1 is'
  unfolding take_tuple_from
  take_tuple_from-Taken [] v =
      subst
        (λ u. (is' : List Addr) × Taken t [] (take_tuple_from u t).0 (take_tuple_from u t).1 is')
        (sym v.free) (cells_from 679 (t.allocated + 1), refill-Taken v)
  take_tuple_from-Taken (i ∷ is) v =
      subst
        (λ u.
          (is' : List Addr) × Taken t (i ∷ is) (take_tuple_from u t).0 (take_tuple_from u t).1 is')
        (sym v.free.0) (is, take-Taken i is v)

-- A new tuple, with its three words.
pub record Made (t : Tuples) (is : List Addr) (x : ℕ) (y z : Value) (i : Addr) (t' : Tuples)
    (is' : List Addr) : Type 0 where
  pub taken : Taken t is i t' is'
  pub car : t'.car i ≡ x
  pub a : t'.a i ≡ y
  pub b : t'.b i ≡ z

module _ (t : Tuples) (x : ℕ) (y z : Value) where
  -- The words of the new tuple.
  filled : Tuples → Addr → Tuples
  filled t' i = record t' {
    used = t'.used + 1;
    data_after_gc = t'.data_after_gc + 24;
    car = update_at t'.car i x;
    a = update_at t'.a i y;
    b = update_at t'.b i z;
  }

  Taken-Made :
      (is : List Addr) (i : Addr) (t' : Tuples) (is' : List Addr)
      → Taken t is i t' is'
      → Made t is x y z i (filled t' i) is'
  unfolding filled
  Taken-Made is i t' is' k = record {
    taken = record {
      valid = record {
        free =
            Free-agree t'.a (update_at t'.a i y) t'.free is' (λ j h. ground (arith, k.new))
              k.valid.free;
        distinct = k.valid.distinct;
        below = k.valid.below;
      };
      fresh = k.fresh;
      new = k.new;
      lives = k.lives;
      fields = λ j h. (
        ground (arith, (k.fields j h).0, k.fresh),
        ground (arith, (k.fields j h).1, k.fresh),
        ground (arith, (k.fields j h).2, k.fresh),
      );
    };
    car = ground arith;
    a = ground arith;
    b = ground arith;
  }

  -- `rep_make_tuple` returns a tuple that was not in use, filled with the three given words; no tuple
  -- in use changes, and the free list stays one of distinct tuples of the blocks that ends with 0.
  -- The free list is such a list before.
  pub make_tuple-Made :
      (is : List Addr)
      → IsPool t is
      → (is' : List Addr) × Made t is x y z (make_tuple t x y z).0 (make_tuple t x y z).1 is'
  unfolding make_tuple filled
  make_tuple-Made is v =
      let (is', k) = take_tuple_from-Taken t is v in
      (is', Taken-Made is (take_tuple_from t.free t).0 (take_tuple_from t.free t).1 is' k)

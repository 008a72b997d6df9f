-- ===== src/Lists/Index/Positions.antt =====
-- The length of a list and the subrs that go by position, against the cells of the list.
use librep.Prelude.{
  ℕ, zero, suc, ◌+◌, ◌≤◌, ◌≡◌, refl, true, false, Option, none, some, List, [], ◌∷◌, arith, length,
  get_elem?, if◌then◌else◌, leb, ◌∙◌, drop, ap, has,
}
use Prim.Native.Nat.{min}
use librep.Prelude.Int.{pos}
use librep.Value.{Addr, Value, nil, cons, fixnum, is_cons, is_list, interrupt, Result, ok, err}
use librep.Loop.{poll_loop, no_rest}
use librep.Heap.{Store}
use librep.Heap.Chain.{Chain, Circular}
use librep.Lists.Access.{car}
use librep.Lists.Index.{
  list_length, length_step, flist_length, tail_step, walk_tail, list_tail, list_ref, last,
  last_step, last_at,
}

module _ (s : Store) (w : Value) (ends : is_cons w ≡ false) where
  length_loop : ℕ → Value → ℕ → Option ℕ
  length_loop n l i = (poll_loop (length_step s) no_rest (λ _. none) n (l, i)).0

  length_loop-end : (n : ℕ) (v : Value) (i : ℕ) → is_cons v ≡ false → length_loop n v i ≡ some i
  unfolding length_loop length_step poll_loop
  length_loop-end zero v i h = ground arith
  length_loop-end (suc n) v i h = ground arith

  length_loop-cons :
      (n : ℕ) (c : Addr) (i : ℕ) → length_loop (suc n) (cons c) i ≡ length_loop n (s.cdr c) (i + 1)
  unfolding length_loop length_step poll_loop
  length_loop-cons n c i = refl

  length_loop-stop : (c : Addr) (i : ℕ) → length_loop 0 (cons c) i ≡ none
  unfolding length_loop length_step poll_loop
  length_loop-stop c i = refl

  length_loop_lem :
      (n : ℕ) (l : Value) (cs : List Addr) (i : ℕ)
      → Chain s.cdr l cs w
      → length_loop n l i ≡ (if leb (length cs) n then some (i + length cs) else none)
  length_loop_lem n l [] i ch = rw ch (length_loop-end n w i ends ∙ ground arith)
  length_loop_lem zero l (c ∷ cs) i (e, ch) = rw e (length_loop-stop c i ∙ ground arith)
  length_loop_lem (suc n) l (c ∷ cs) i (e, ch) =
      rw e (length_loop-cons n c i ∙ length_loop_lem n (s.cdr c) cs (i + 1) ch ∙ ground arith)

  -- On a list of the cells `cs` and for any number of polls, `rep_list_length` counts the cells, or
  -- returns -1 if the user's interrupt comes before the last of them has been passed.
  pub list_length_lem :
      (n : ℕ) (l : Value) (cs : List Addr)
      → Chain s.cdr l cs w
      → list_length n s l ≡ (if leb (length cs) n then some (length cs) else none)
  unfolding list_length length_loop
  list_length_lem n l cs ch = length_loop_lem n l cs 0 ch ∙ ground arith

  walk_loop : ℕ → Value → ℕ → Result Value
  walk_loop n l i = (poll_loop (tail_step s) no_rest (λ _. err interrupt) n (l, i)).0

  walk_loop-end : (n : ℕ) (v : Value) (i : ℕ) → is_cons v ≡ false → walk_loop n v i ≡ ok v
  unfolding walk_loop tail_step poll_loop
  walk_loop-end zero v i h = ground arith
  walk_loop-end (suc n) v i h = ground arith

  walk_loop-zero : (n : ℕ) (v : Value) → walk_loop n v 0 ≡ ok v
  unfolding walk_loop tail_step poll_loop
  walk_loop-zero zero v = ground arith
  walk_loop-zero (suc n) v = ground arith

  walk_loop-cons :
      (n : ℕ) (c : Addr) (i : ℕ) → walk_loop (suc n) (cons c) (suc i) ≡ walk_loop n (s.cdr c) i
  unfolding walk_loop tail_step poll_loop
  walk_loop-cons n c i = refl

  -- The tail after `i` cells.
  pub record TailAt (i : ℕ) (cs : List Addr) (r : Result Value) : Type 0 where
    pub value : Value
    pub result : r ≡ ok value
    pub chain : Chain s.cdr value (drop i cs) w

  walk_loop_lem :
      (n : ℕ) (l : Value) (cs : List Addr) (i : ℕ)
      → Chain s.cdr l cs w
      → min i (length cs) ≤ n
      → TailAt i cs (walk_loop n l i)
  walk_loop_lem n l cs zero ch le = record { value = l; result = walk_loop-zero n l; chain = ch }
  walk_loop_lem n l [] (suc i) ch le = record {
    value = w;
    result = rw ch (walk_loop-end n w (suc i) ends);
    chain = refl;
  }
  walk_loop_lem zero l (c ∷ cs) (suc i) ch le = absurd (omega arith)
  walk_loop_lem (suc n) l (c ∷ cs) (suc i) (e, ch) le =
      let ih = walk_loop_lem n (s.cdr c) cs i ch (omega arith) in
      record {
        value = ih.value;
        result = rw e (walk_loop-cons n c i ∙ ih.result);
        chain = ih.chain;
      }

  car-drop :
      (v : Value) (cs : List Addr) (i : ℕ)
      → Chain s.cdr v (drop i cs) w
      → car s v ≡ (elim (get_elem? cs i) [ none ↦ nil | some c ↦ s.car c ])
  unfolding car
  car-drop v [] zero ch = rw ch (ground arith)
  car-drop v [] (suc i) ch = rw ch (ground arith)
  car-drop v (c ∷ cs) zero ch = rw ch.0
  car-drop v (c ∷ cs) (suc i) ch = car-drop v cs i ch

  module _ (n : ℕ) (l : Value) (cs : List Addr) (i : ℕ) (is : is_list l ≡ true)
      (ch : Chain s.cdr l cs w) (le : min i (length cs) ≤ n) where
    -- `list-tail` of a list of the cells `cs`, with a poll for each cell passed: what follows the
    -- first `i` cells, or what ends the list if there are fewer.
    pub list_tail-drop : TailAt i cs (list_tail n s l (fixnum (pos i)))
    unfolding list_tail walk_tail walk_loop
    list_tail-drop = rw is (walk_loop_lem n l cs i ch le)

    -- `list-ref` of it: the car of cell `i`, or nil if there are fewer.
    pub list_ref-get_elem? :
        list_ref n s l (fixnum (pos i))
        ≡ ok (elim (get_elem? cs i) [ none ↦ nil | some c ↦ s.car c ])
    unfolding list_ref walk_tail walk_loop
    list_ref-get_elem? =
        let t = walk_loop_lem n l cs i ch le in
        rw (is, t.result) (ap ok (car-drop t.value cs i t.chain))

  last_loop : ℕ → Addr → Result Value
  last_loop n c = (poll_loop (last_step s) no_rest (λ _. err interrupt) n c).0

  last_loop-end : (n : ℕ) (c : Addr) → s.cdr c ≡ w → last_loop n c ≡ ok (s.car c)
  unfolding last_loop last_step last_at poll_loop
  last_loop-end zero c e = ground arith
  last_loop-end (suc n) c e = ground arith

  last_loop-cons : (n : ℕ) (c d : Addr) → s.cdr c ≡ cons d → last_loop (suc n) c ≡ last_loop n d
  unfolding last_loop last_step last_at poll_loop
  last_loop-cons n c d e = rw (e, last_loop)

  abbrev pub final : Addr → List Addr → Addr
  final c [] = c
  final c (d ∷ ds) = final d ds

  last_loop_lem :
      (n : ℕ) (c : Addr) (ds : List Addr)
      → Chain s.cdr (s.cdr c) ds w
      → length ds ≤ n
      → last_loop n c ≡ ok (s.car (final c ds))
  last_loop_lem n c [] ch le = last_loop-end n c ch
  last_loop_lem zero c (d ∷ ds) ch le = absurd (omega arith)
  last_loop_lem (suc n) c (d ∷ ds) (e, ch) le =
      last_loop-cons n c d e ∙ last_loop_lem n d ds ch (omega arith)

  -- `last` of a list of the cells `c ∷ ds`, with a poll for each of `ds`: the car of the last cell.
  pub last-final :
      (n : ℕ) (c : Addr) (ds : List Addr)
      → Chain s.cdr (cons c) (c ∷ ds) w
      → length ds ≤ n
      → last n s (cons c) ≡ ok (s.car (final c ds))
  unfolding last last_loop
  last-final n c ds (e, ch) le = last_loop_lem n c ds ch le

module _ (s : Store) (cs : List Addr) (round : Circular s.cdr cs) where
  length_loop-circular :
      (n i : ℕ) (c : Addr)
      → has c cs ≡ true
      → (poll_loop (length_step s) no_rest (λ _. none) n (cons c, i)).0 ≡ none
  unfolding length_step poll_loop
  length_loop-circular zero i c h = refl
  length_loop-circular (suc n) i c h =
      let (d, e, k) = round c h in rw (e, poll_loop) (length_loop-circular n (i + 1) d k)

  -- The length of a circular list: the count goes on until the user interrupts it.
  pub list_length-circular :
      (n : ℕ) (c : Addr) → has c cs ≡ true → flist_length n s (cons c) ≡ err interrupt
  unfolding flist_length list_length
  list_length-circular n c h = rw (length_loop-circular n 0 c h)

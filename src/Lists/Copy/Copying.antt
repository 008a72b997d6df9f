-- ===== src/Lists/Copy/Copying.antt =====
-- rep_copy_list builds a list of new cells; the walk to the end of a list moves the pointer.
use librep.Prelude.{
  ℕ, zero, suc, ◌-◌, ◌≤◌, ◌≡◌, refl, ap, Bool, true, false, none, some, List, [], ◌∷◌, ◌++◌, map,
  arith, length, ◌∙◌,
}
use mathlib.Core.List.{append_assoc, append-nil}
use librep.Value.{Addr, Value, cons, null, is_cons}
use librep.Loop.{leave, poll_loop, no_rest}
use librep.Loop.Rounds.{poll_loop-leave, poll_loop-again}
use librep.Heap.{Store}
use librep.Heap.Chain.{Chain}
use librep.Heap.Alloc.{IsValid, Live}
use librep.Heap.Tail.{Out, read_last, write_last, move_to, emit}
use librep.Heap.Tail.Grown.{Grown, Grown-start, Grown-emit, Grown-close, NewList}
use librep.Lists.Copy.{
  start, copy_step, copy_list, to_end, to_end_step, to_end_at, advance, advance_at,
}

copy_loop : ℕ → Value → Out → (Value × Out × Bool) × ℕ
copy_loop n l o = poll_loop copy_step no_rest (λ (v, o). (v, o, true)) n (l, o)

copy_loop-end :
    (n : ℕ) (v : Value) (o : Out) → is_cons v ≡ false → copy_loop n v o ≡ ((v, o, false), n)
unfolding copy_loop copy_step poll_loop
copy_loop-end zero v o h = ground arith
copy_loop-end (suc n) v o h = ground arith

copy_loop-cons :
    (n : ℕ) (c : Addr) (o : Out)
    → copy_loop (suc n) (cons c) o
      ≡ copy_loop n ((emit o (o.store.car c)).store.cdr c) (emit o (o.store.car c))
unfolding copy_loop copy_step poll_loop
copy_loop-cons n c o = refl

module _ (s : Store) (fs : List Addr) (w : Value) (ends : is_cons w ≡ false) where
  -- The loop ends at the end of the list, with a copy of it so far.
  record CopyLoop (k : ℕ) (xs : List Value) (r : (Value × Out × Bool) × ℕ) : Type 0 where
    out : Out
    free_cells : List Addr
    cells : List Addr
    grown : Grown s fs out free_cells xs cells
    result : r ≡ ((w, out, false), k)

  copy_loop_lem :
      (n : ℕ) (l : Value) (cs : List Addr) (o : Out) (gs : List Addr) (xs : List Value)
      (ds : List Addr)
      → Grown s fs o gs xs ds
      → Chain s.cdr l cs w
      → Live s fs cs
      → length cs ≤ n
      → CopyLoop (n - length cs) (xs ++ map s.car cs) (copy_loop n l o)
  copy_loop_lem n l [] o gs xs ds g ch lives le = record {
    out = o;
    free_cells = gs;
    cells = ds;
    grown = rw (append-nil xs) g;
    result = rw ch (copy_loop-end n w o ends ∙ ap (λ k. ((w, o, false), k)) (omega arith));
  }
  copy_loop_lem zero l (c ∷ cs) o gs xs ds g ch lives le = absurd (omega arith)
  copy_loop_lem (suc n) l (c ∷ cs) o gs xs ds g (e, ch) lives le =
      let there = lives c (ground arith) in
      let x = o.store.car c in
      let (hs, d, g') = Grown-emit s fs o gs xs ds x g in
      let ih =
        copy_loop_lem n (s.cdr c) cs (emit o x) hs (xs ++ x ∷ []) (ds ++ d ∷ []) g' ch
          (λ a h. lives a (ground arith)) (omega arith) in
      let same : ((xs ++ x ∷ []) ++ map s.car cs) ≡ (xs ++ s.car c ∷ map s.car cs) =
        append_assoc xs (x ∷ []) (map s.car cs)
        ∙ ap (λ y. xs ++ y ∷ map s.car cs) (g.kept.car c there) in
      record {
        out = ih.out;
        free_cells = ih.free_cells;
        cells = ih.cells;
        grown = rw same at ih.grown;
        result =
            rw (e, copy_loop-cons n c o, g'.kept.cdr c there)
              (ih.result ∙ ap (λ k. ((w, ih.out, false), k)) (omega arith));
      }

-- What `rep_copy_list` returns where no interrupt comes.
pub record Copied (s : Store) (fs : List Addr) (xs : List Value) (w : Value) (k : ℕ)
    (r : Value × Store × Bool × ℕ) : Type 0 where
  pub value : Value
  pub store : Store
  pub list : NewList s fs xs w value store
  pub result : r ≡ (value, store, false, k)

-- `rep_copy_list` of a list of the live cells `cs` that ends in `w`, with a poll for each: a list of
-- new cells with the same cars that ends in `w` too; no live cell is changed, and the polls that the
-- cells did not take are left.
-- The free list of the store is valid.
pub copy_list-Copied :
    (s : Store) (fs : List Addr) (w : Value) (n : ℕ) (l : Value) (cs : List Addr)
    → is_cons w ≡ false
    → IsValid s fs
    → Chain s.cdr l cs w
    → Live s fs cs
    → length cs ≤ n
    → Copied s fs (map s.car cs) w (n - length cs) (copy_list n s l)
unfolding copy_list copy_loop
copy_list-Copied s fs w n l cs ends valid ch lives le =
    let r =
      copy_loop_lem s fs w ends n l cs (start null s) fs [] [] (Grown-start s fs null valid) ch
        lives le in
    record {
      value = (write_last r.out w).value;
      store = (write_last r.out w).store;
      list = Grown-close s fs r.out r.free_cells (map s.car cs) r.cells w r.grown;
      result =
          ap (λ t. ((write_last t.0.1 t.0.0).value, (write_last t.0.1 t.0.0).store, t.0.2, t.1))
            r.result;
    }

-- The pointer at the end of the cells `ds`.
abbrev pub past : Out → List Addr → Out
past o [] = o
past o (d ∷ ds) = past (move_to o d) ds

to_end_at-end : (o : Out) (v : Value) → is_cons v ≡ false → to_end_at o v ≡ leave (some o)
unfolding to_end_at
to_end_at-end o v h = ground arith

to_end-end :
    (n : ℕ) (o : Out) (w : Value) → read_last o ≡ w → is_cons w ≡ false → to_end n o ≡ (some o, n)
unfolding to_end to_end_step
to_end-end n o w e h =
    poll_loop-leave to_end_step advance (λ _. none) n o (some o)
      (ap (to_end_at o) e ∙ to_end_at-end o w h)

to_end-cons :
    (n : ℕ) (o : Out) (c : Addr) → read_last o ≡ cons c → to_end (suc n) o ≡ to_end n (move_to o c)
unfolding to_end to_end_step to_end_at advance advance_at
to_end-cons n o c e =
    poll_loop-again to_end_step advance (λ _. none) n o o (ap (to_end_at o) e)
    ∙ ap (λ o'. (poll_loop to_end_step advance (λ _. none) n o')) (ap (advance_at o) e)

-- The walk to the end of a list of the cells `ds`, with a poll for each.
pub to_end-past :
    (n : ℕ) (o : Out) (v : Value) (ds : List Addr) (w : Value)
    → is_cons w ≡ false
    → read_last o ≡ v
    → Chain o.store.cdr v ds w
    → length ds ≤ n
    → to_end n o ≡ (some (past o ds), n - length ds)
to_end-past n o v [] w ends at ch le =
    to_end-end n o w (at ∙ ch) ends ∙ ap (λ k. (some o, k)) (omega arith)
to_end-past zero o v (d ∷ ds) w ends at ch le = absurd (omega arith)
to_end-past (suc n) o v (d ∷ ds) w ends at (e, ch) le =
    to_end-cons n o d (at ∙ e)
    ∙ to_end-past n (move_to o d) (o.store.cdr d) ds w ends refl ch (omega arith)
    ∙ ap (λ k. (some (past o (d ∷ ds)), k)) (omega arith)

pub past-same :
    (o : Out) (ds : List Addr) → ((past o ds).value ≡ o.value) × ((past o ds).store ≡ o.store)
past-same o [] = (refl, refl)
past-same o (d ∷ ds) = past-same (move_to o d) ds

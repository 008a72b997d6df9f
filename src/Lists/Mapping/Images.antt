-- ===== src/Lists/Mapping/Images.antt =====
-- mapcar and filter with a function that leaves the store alone.
use librep.Prelude.{
  ℕ, zero, suc, ◌≤◌, ◌≡◌, refl, ap, Bool, true, false, not, none, List, [], ◌∷◌, ◌++◌, map, arith,
  length, keep, if◌then◌else◌, ◌∙◌, Bool-cases, inl, inr,
}
use mathlib.Core.List.{append_assoc, append-nil}
use librep.Value.{Addr, Value, nil, cons, is_nil, is_cons, is_list, interrupt, Result, ok, err}
use librep.Loop.{leave, again, poll_loop, no_rest}
use librep.Loop.Rounds.{poll_loop-leave, poll_loop-again}
use librep.Heap.{Store}
use librep.Heap.Chain.{Chain}
use librep.Heap.Alloc.{IsValid, Live}
use librep.Heap.Tail.{Out, read_last, emit}
use librep.Heap.Tail.Grown.{Grown, Grown-start, Grown-emit, Grown-done, read_last-emit, Returns}
use librep.Lists.Copy.{start}
use librep.Lists.Mapping.{
  heads, heads_with, check_lists, map_call, map_step, map_loop, fmap, mapcar, filter_call,
  filter_step, filter_rest, filter,
}

module _ (call : Store → Value → List Value → Result Value × Store) (fun : Value)
    (g : Value → Value) (pure : (t : Store) (x : Value) → call t fun (x ∷ []) ≡ (ok (g x), t))
    (s : Store) (fs : List Addr) (w : Value) (ends : is_cons w ≡ false) where
  heads-end : (t : Store) (v : Value) → is_cons v ≡ false → heads t (v ∷ []) ≡ none
  unfolding heads heads_with
  heads-end t v h = ground arith

  map_loop-end :
      (n : ℕ) (v : Value) (o : Out)
      → is_cons v ≡ false
      → map_loop call fun n (v ∷ [], o) ≡ (ok o.value, o.store)
  unfolding map_loop map_step
  map_loop-end n v o h =
      ap (λ r. r.0)
        (poll_loop-leave (map_step call fun) no_rest (λ (vs, o). (err interrupt, o.store)) n
          (v ∷ [], o) (ok o.value, o.store) (rw (heads-end o.store v h, map_step)))

  map_loop-cons :
      (n : ℕ) (c : Addr) (o : Out)
      → map_loop call fun (suc n) (cons c ∷ [], o)
        ≡ map_loop call fun n (o.store.cdr c ∷ [], emit o (g (o.store.car c)))
  unfolding map_loop map_step map_call heads heads_with
  map_loop-cons n c o =
      ap (λ r. r.0)
        (poll_loop-again (map_step call fun) no_rest (λ (vs, o). (err interrupt, o.store)) n
          (cons c ∷ [], o) (o.store.cdr c ∷ [], emit o (g (o.store.car c)))
          (ap (map_call call fun o (o.store.cdr c ∷ [])) (pure o.store (o.store.car c))))

  map_loop-Returns :
      (n : ℕ) (l : Value) (cs : List Addr) (o : Out) (gs : List Addr) (xs : List Value)
      (ds : List Addr)
      → Grown s fs o gs xs ds
      → read_last o ≡ nil
      → Chain s.cdr l cs w
      → Live s fs cs
      → length cs ≤ n
      → Returns s fs (xs ++ map g (map s.car cs)) nil (map_loop call fun n (l ∷ [], o))
  map_loop-Returns n l [] o gs xs ds k done ch lives le =
      rw (ch, append-nil xs, map_loop-end n w o ends)
        (record { value = o.value; result = refl; list = Grown-done s fs o gs xs ds k done })
  map_loop-Returns zero l (c ∷ cs) o gs xs ds k done ch lives le = absurd (omega arith)
  map_loop-Returns (suc n) l (c ∷ cs) o gs xs ds k done (e, ch) lives le =
      let there = lives c (ground arith) in
      let x = g (s.car c) in
      let (hs, d, k') = Grown-emit s fs o gs xs ds x k in
      rw
        (
          e,
          map_loop-cons n c o,
          k.kept.car c there,
          k.kept.cdr c there,
          ← append_assoc xs (x ∷ []) (map g (map s.car cs)),
        )
        (map_loop-Returns n (s.cdr c) cs (emit o x) hs (xs ++ x ∷ []) (ds ++ d ∷ []) k'
          (read_last-emit s fs o gs xs ds x k) ch (λ a h. lives a (ground arith)) (omega arith))

  check_lists-one : (l : Value) → is_list l ≡ true → check_lists 1 (l ∷ []) ≡ none
  unfolding check_lists
  check_lists-one l is = rw is

  -- `mapcar` of a list of the live cells `cs`, with a poll for each and a function that answers `g x`
  -- and leaves the store alone: a list of new cells with the answers in order. No live cell is changed.
  -- The free list of the store is valid.
  pub mapcar-Returns :
      (n : ℕ) (l : Value) (cs : List Addr)
      → IsValid s fs
      → is_list l ≡ true
      → Chain s.cdr l cs w
      → Live s fs cs
      → length cs ≤ n
      → Returns s fs (map g (map s.car cs)) nil (mapcar call n s fun l)
  unfolding mapcar fmap
  mapcar-Returns n l cs valid is ch lives le =
      rw (check_lists-one l is, fmap)
        (map_loop-Returns n l cs (start nil s) fs [] [] (Grown-start s fs nil valid) refl ch lives
          le)

  filter_loop : ℕ → Value → Out → Bool → Result Value × Store
  filter_loop n l o b =
      (poll_loop (filter_step call fun) (filter_rest call fun)
        (λ (l', o, drop). (err interrupt, o.store)) n (l, o, b)).0

  filter_loop-end :
      (n : ℕ) (v : Value) (o : Out) (b : Bool)
      → is_cons v ≡ false
      → filter_loop n v o b ≡ (ok o.value, o.store)
  unfolding filter_loop
  filter_loop-end n v o b h =
      ap (λ r. r.0)
        (poll_loop-leave (filter_step call fun) (filter_rest call fun)
          (λ (l', o, drop). (err interrupt, o.store)) n (v, o, b) (ok o.value, o.store)
          (filter_step-end v o b h))
    where
      filter_step-end :
          (v : Value) (o : Out) (b : Bool)
          → is_cons v ≡ false
          → filter_step call fun (v, o, b) ≡ leave (ok o.value, o.store)
      filter_step-end v o b h = unfold filter_step in ground arith

  filter_loop-cons :
      (n : ℕ) (c : Addr) (o : Out) (b k : Bool)
      → is_nil (g (o.store.car c)) ≡ k
      → filter_loop (suc n) (cons c) o b ≡ (
          let o' : Out = if k then o else emit o (o.store.car c) in
          filter_loop n (o'.store.cdr c) o' k)
  unfolding filter_loop filter_step filter_call filter_rest
  filter_loop-cons n c o b k e =
      ap (λ r. r.0)
        (poll_loop-again (filter_step call fun) (filter_rest call fun)
          (λ (l', o, drop). (err interrupt, o.store)) n (cons c, o, b) (cons c, o, k)
          (ap (filter_call call fun (cons c) o) (pure o.store (o.store.car c))
            ∙ ap (λ x. again (cons c, o, x)) e))

  filter_loop-Returns :
      (n : ℕ) (l : Value) (cs : List Addr) (o : Out) (b : Bool) (gs : List Addr) (xs : List Value)
      (ds : List Addr)
      → Grown s fs o gs xs ds
      → read_last o ≡ nil
      → Chain s.cdr l cs w
      → Live s fs cs
      → length cs ≤ n
      → Returns s fs (xs ++ keep (λ x. not (is_nil (g x))) (map s.car cs)) nil (filter_loop n l o b)
  filter_loop-Returns n l [] o b gs xs ds k done ch lives le =
      rw (ch, append-nil xs, filter_loop-end n w o b ends)
        (record { value = o.value; result = refl; list = Grown-done s fs o gs xs ds k done })
  filter_loop-Returns zero l (c ∷ cs) o b gs xs ds k done ch lives le = absurd (omega arith)
  filter_loop-Returns (suc n) l (c ∷ cs) o b gs xs ds k done (e, ch) lives le =
      let there = lives c (ground arith) in
      let x = s.car c in
      let test : is_nil (g (o.store.car c)) ≡ is_nil (g x) =
        ap (λ y. is_nil (g y)) (k.kept.car c there) in
      elim (Bool-cases (is_nil (g x))) [
        | inl h ↦
            rw (e, filter_loop-cons n c o b true (test ∙ h), h, k.kept.cdr c there)
              (filter_loop-Returns n (s.cdr c) cs o true gs xs ds k done ch
                (λ a m. lives a (ground arith)) (omega arith))
        | inr h ↦
            let (hs, d, k') = Grown-emit s fs o gs xs ds x k in
            rw
              (
                e,
                filter_loop-cons n c o b false (test ∙ h),
                h,
                k.kept.car c there,
                k'.kept.cdr c there,
                ← append_assoc xs (x ∷ []) (keep (λ x. not (is_nil (g x))) (map s.car cs)),
              )
              (filter_loop-Returns n (s.cdr c) cs (emit o x) false hs (xs ++ x ∷ []) (ds ++ d ∷ [])
                k' (read_last-emit s fs o gs xs ds x k) ch (λ a m. lives a (ground arith))
                (omega arith))
      ]

  -- `filter` of a list of the live cells `cs`, with a poll for each and a predicate that answers `g x`
  -- and leaves the store alone: a list of new cells with the elements for which it answers non-nil,
  -- in order. No live cell is changed.
  -- The free list of the store is valid.
  pub filter-Returns :
      (n : ℕ) (l : Value) (cs : List Addr)
      → IsValid s fs
      → is_list l ≡ true
      → Chain s.cdr l cs w
      → Live s fs cs
      → length cs ≤ n
      → Returns s fs (keep (λ x. not (is_nil (g x))) (map s.car cs)) nil (filter call fun n s l)
  unfolding filter filter_loop
  filter-Returns n l cs valid is ch lives le = rw is (
      filter_loop-Returns n l cs (start nil s) false fs [] [] (Grown-start s fs nil valid) refl ch
        lives le)

-- ===== src/Lists/Mapping/Effects.antt =====
-- for-each on one list: the calls in order, with what each does to the store.
use librep.Prelude.{
  ℕ, zero, suc, ◌≤◌, ◌≡◌, refl, ap, true, false, none, List, [], ◌∷◌, map, arith, length, has, ◌∙◌,
}
use librep.Value.{Addr, Value, cons, undefined, is_cons, is_list, interrupt, Result, ok, err}
use librep.Loop.{again, no_rest}
use librep.Loop.Rounds.{poll_loop-leave, poll_loop-again}
use librep.Heap.{Store}
use librep.Heap.Chain.{Chain}
use librep.Lists.Mapping.{
  heads, heads_with, check_lists, each_call, each_step, each_loop, for_each, mapc,
}

module _ (call : Store → Value → List Value → Result Value × Store) (fun : Value) where
  -- The calls for the elements, until one fails.
  pub then_next : (Store → Result Value × Store) → Result Value × Store → Result Value × Store
  then_next next (ok x, s) = next s
  then_next next (err e, s) = (err e, s)

  pub run_calls : List Value → Store → Result Value × Store
  unfolding then_next
  run_calls [] s = (ok undefined, s)
  run_calls (x ∷ xs) s = then_next (run_calls xs) (call s fun (x ∷ []))

  module _ (s : Store) (cs : List Addr) (w : Value) (ends : is_cons w ≡ false)
      (keeps : (t : Store) (x : Value) (a : Addr)
        → has a cs ≡ true
        → ((call t fun (x ∷ [])).1.car a ≡ t.car a)
          × ((call t fun (x ∷ [])).1.cdr a ≡ t.cdr a)) where
    loop : ℕ → Value → Store → Result Value × Store
    loop n l t = each_loop call fun n (l ∷ [], t)

    heads-end : (t : Store) (v : Value) → is_cons v ≡ false → heads t (v ∷ []) ≡ none
    unfolding heads heads_with
    heads-end t v h = ground arith

    loop-end : (n : ℕ) (v : Value) (t : Store) → is_cons v ≡ false → loop n v t ≡ (ok undefined, t)
    unfolding loop each_loop each_step
    loop-end n v t h =
        ap (λ r. r.0)
          (poll_loop-leave (each_step call fun) no_rest (λ (vs, u). (err interrupt, u)) n
            (v ∷ [], t) (ok undefined, t) (rw (heads-end t v h, each_step)))

    each-next :
        (n : ℕ) (v : Value) (out : Result Value × Store) (c : Addr) (t : Store)
        → call t fun (t.car c ∷ []) ≡ out
        → t.cdr c ≡ v
        → loop (suc n) (cons c) t ≡ then_next (loop n v) out
    unfolding loop each_loop each_step each_call heads heads_with then_next
    each-next n v (ok x, u) c t e f =
        ap (λ r. r.0)
          (poll_loop-again (each_step call fun) no_rest (λ (vs, u). (err interrupt, u)) n
            (cons c ∷ [], t) (v ∷ [], u)
            (ap (each_call call fun (t.cdr c ∷ [])) e ∙ ap (λ y. again (y ∷ [], u)) f))
    each-next n v (err x, u) c t e f =
        ap (λ r. r.0)
          (poll_loop-leave (each_step call fun) no_rest (λ (vs, u). (err interrupt, u)) (suc n)
            (cons c ∷ [], t) (err x, u) (ap (each_call call fun (t.cdr c ∷ [])) e))

    then-same :
        (f h : Store → Result Value × Store) (out : Result Value × Store)
        → f out.1 ≡ h out.1
        → then_next f out ≡ then_next h out
    unfolding then_next
    then-same f h (ok x, t) e = e
    then-same f h (err x, t) e = refl

    loop-run_calls :
        (n : ℕ) (l : Value) (rs : List Addr) (t : Store)
        → Chain s.cdr l rs w
        → ((a : Addr) → has a rs ≡ true → has a cs ≡ true)
        → ((a : Addr) → has a cs ≡ true → (t.car a ≡ s.car a) × (t.cdr a ≡ s.cdr a))
        → length rs ≤ n
        → loop n l t ≡ run_calls (map s.car rs) t
    unfolding run_calls
    loop-run_calls n l [] t ch inside same le = rw ch (loop-end n w t ends)
    loop-run_calls zero l (c ∷ rs) t ch inside same le = absurd (omega arith)
    loop-run_calls (suc n) l (c ∷ rs) t (e, ch) inside same le =
        let here = inside c (ground arith) in
        let out = call t fun (s.car c ∷ []) in
        rw e (
          each-next n (s.cdr c) out c t (ap (λ x. call t fun (x ∷ [])) (same c here).0)
            (same c here).1
          ∙ then-same (loop n (s.cdr c)) (run_calls (map s.car rs)) out (
              loop-run_calls n (s.cdr c) rs out.1 ch (λ a h. inside a (ground arith))
                (λ a h. (
                  (keeps t (s.car c) a h).0 ∙ (same a h).0,
                  (keeps t (s.car c) a h).1 ∙ (same a h).1,
                ))
                (omega arith)))

    check_lists-one : (l : Value) → is_list l ≡ true → check_lists 1 (l ∷ []) ≡ none
    unfolding check_lists
    check_lists-one l is = rw is

    -- `mapc` of a list of the cells `cs`, with a poll for each and a function that may do anything to
    -- the store but write these cells: the calls for the elements in order, each from the store that
    -- the one before left, up to the first that fails. Its error is the result, or the undefined value.
    pub mapc-run_calls :
        (n : ℕ) (l : Value)
        → is_list l ≡ true
        → Chain s.cdr l cs w
        → length cs ≤ n
        → mapc call n s fun l ≡ run_calls (map s.car cs) s
    unfolding mapc for_each loop
    mapc-run_calls n l is ch le =
        rw (check_lists-one l is, for_each)
          (loop-run_calls n l cs s ch (λ a h. h) (λ a h. (refl, refl)) le)

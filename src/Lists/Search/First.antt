-- ===== src/Lists/Search/First.antt =====
-- What the searches of src/lists.c find: the first cell that passes the test, or nil.
use librep.Prelude.{
  ℕ, zero, suc, ◌≤◌, ◌≡◌, refl, ap, Bool, true, false, ◌||◌, inl, inr, List, [], ◌∷◌, ◌++◌, arith,
  All, length, Bool-cases, ◌∙◌, has,
}
use librep.Value.{
  Addr, Value, null, nil, undefined, fixnum, symbol, object, cons, eq, is_cons, is_list, interrupt,
  Result, ok, err,
}
use librep.Loop.{poll_loop, no_rest}
use librep.Heap.{Store}
use librep.Heap.Chain.{Chain, Circular}
use librep.Lists.Search.{
  scan, scan_step, pair_with, car_hit, cdr_hit, member_hit, assoc, assq, assv, rassoc, rassq, rassv,
  member, memq, memv,
}

abbrev pub Starts : (Addr → Type 0) → List Addr → Type 0
Starts Hits [] = Unit {0}
Starts Hits (c ∷ cs) = Hits c

abbrev pub answer : (Addr → Value) → List Addr → Value
answer found [] = nil
answer found (c ∷ cs) = found c

-- The cells `cs` split at the first one that hits, those before it miss, and `r` is the answer for it.
pub record Finds (Hits Misses : Addr → Type 0) (found : Addr → Value) (cs : List Addr)
    (r : Result Value) : Type 0 where
  pub before : List Addr
  pub after : List Addr
  pub split : cs ≡ before ++ after
  pub misses : All Misses before
  pub starts : Starts Hits after
  pub result : r ≡ ok (answer found after)

-- The element in a cell is a cons whose field passes the test.
abbrev pub IsPair : Store → (Addr → Value) → (Value → Bool) → Addr → Type 0
IsPair s field test c = (b : Addr) × (s.car c ≡ cons b) × (test (field b) ≡ true)

abbrev pub NoPair : Store → (Addr → Value) → (Value → Bool) → Addr → Type 0
NoPair s field test c = (b : Addr) → s.car c ≡ cons b → test (field b) ≡ false

-- The answer is the first element that is such a cons, or nil.
abbrev pub FindsPair : Store → (Addr → Value) → (Value → Bool) → List Addr → Result Value → Type 0
FindsPair s field test cs r = Finds (IsPair s field test) (NoPair s field test) s.car cs r

-- The answer is the first cell whose element passes the test, or nil.
abbrev pub FindsElement : Store → (Value → Bool) → List Addr → Result Value → Type 0
FindsElement s test cs r =
    Finds (λ c. test (s.car c) ≡ true) (λ c. test (s.car c) ≡ false) cons cs r

All-imp : (P Q : Addr → Type 0) (cs : List Addr) → ((c : Addr) → P c → Q c) → All P cs → All Q cs
All-imp P Q [] f h = tt
All-imp P Q (c ∷ cs) f h = (f c h.0, All-imp P Q cs f h.1)

Starts-imp :
    (P Q : Addr → Type 0) (cs : List Addr) → ((c : Addr) → P c → Q c) → Starts P cs → Starts Q cs
Starts-imp P Q [] f h = tt
Starts-imp P Q (c ∷ cs) f h = f c h

Finds-imp :
    (P Q P' Q' : Addr → Type 0) (found : Addr → Value) (cs : List Addr) (r : Result Value)
    → ((c : Addr) → P c → P' c)
    → ((c : Addr) → Q c → Q' c)
    → Finds P Q found cs r
    → Finds P' Q' found cs r
Finds-imp P Q P' Q' found cs r f g h = record {
  before = h.before;
  after = h.after;
  split = h.split;
  misses = All-imp Q Q' h.before g h.misses;
  starts = Starts-imp P P' h.after f h.starts;
  result = h.result;
}

module _ (s : Store) (hit : Addr → Bool) (found : Addr → Value) (w : Value)
    (ends : is_cons w ≡ false) where
  scan_loop : ℕ → Value → Result Value
  scan_loop n l = (poll_loop (scan_step s hit found) no_rest (λ _. err interrupt) n l).0

  scan_loop-end : (n : ℕ) (v : Value) → is_cons v ≡ false → scan_loop n v ≡ ok nil
  unfolding scan_loop scan_step poll_loop
  scan_loop-end zero v h = ground arith
  scan_loop-end (suc n) v h = ground arith

  scan_loop-hit : (n : ℕ) (c : Addr) → hit c ≡ true → scan_loop n (cons c) ≡ ok (found c)
  unfolding scan_loop scan_step poll_loop
  scan_loop-hit zero c h = rw (h, scan_loop)
  scan_loop-hit (suc n) c h = rw (h, scan_loop)

  scan_loop-miss :
      (n : ℕ) (c : Addr) → hit c ≡ false → scan_loop (suc n) (cons c) ≡ scan_loop n (s.cdr c)
  unfolding scan_loop scan_step poll_loop
  scan_loop-miss n c h = rw (h, scan_loop)

  scan_loop-Finds :
      (n : ℕ) (l : Value) (cs : List Addr)
      → Chain s.cdr l cs w
      → length cs ≤ n
      → Finds (λ c. hit c ≡ true) (λ c. hit c ≡ false) found cs (scan_loop n l)
  scan_loop-Finds n l [] ch le = record {
    before = [];
    after = [];
    split = refl;
    misses = tt;
    starts = tt;
    result = rw ch (scan_loop-end n w ends);
  }
  scan_loop-Finds zero l (c ∷ cs) ch le = absurd (omega arith)
  scan_loop-Finds (suc n) l (c ∷ cs) (e, ch) le = elim (Bool-cases (hit c)) [
    | inl h ↦ record {
      before = [];
      after = c ∷ cs;
      split = refl;
      misses = tt;
      starts = h;
      result = rw e (scan_loop-hit (suc n) c h);
    }
    | inr h ↦
        let ih = scan_loop-Finds n (s.cdr c) cs ch (omega arith) in
        record {
          before = c ∷ ih.before;
          after = ih.after;
          split = ap (λ ys. c ∷ ys) ih.split;
          misses = (h, ih.misses);
          starts = ih.starts;
          result = rw e (scan_loop-miss n c h ∙ ih.result);
        }
  ]

  pub scan-Finds :
      (n : ℕ) (l : Value) (cs : List Addr)
      → is_list l ≡ true
      → Chain s.cdr l cs w
      → length cs ≤ n
      → Finds (λ c. hit c ≡ true) (λ c. hit c ≡ false) found cs (scan n s hit found l)
  unfolding scan scan_loop
  scan-Finds n l cs h ch le = rw h (scan_loop-Finds n l cs ch le)

pair_with-true :
    (test : Addr → Bool) (v : Value)
    → pair_with test v ≡ true
    → (b : Addr) × (v ≡ cons b) × (test b ≡ true)
unfolding pair_with
pair_with-true test (cons b) h = (b, refl, h)
pair_with-true test null h = cc
pair_with-true test nil h = cc
pair_with-true test undefined h = cc
pair_with-true test (fixnum i) h = cc
pair_with-true test (symbol a) h = cc
pair_with-true test (object t a) h = cc

pair_with-false :
    (test : Addr → Bool) (v : Value)
    → pair_with test v ≡ false
    → (b : Addr) → v ≡ cons b
    → test b ≡ false
unfolding pair_with
pair_with-false test v h b e = rw e at h

module _ (n : ℕ) (s : Store) (elt l w : Value) (cs : List Addr) (ends : is_cons w ≡ false)
    (is : is_list l ≡ true) (ch : Chain s.cdr l cs w) (le : length cs ≤ n) where
  scan-FindsPair :
      (field : Addr → Value) (test : Value → Bool)
      → FindsPair s field test cs
          (scan n s (λ a. pair_with (λ b. test (field b)) (s.car a)) s.car l)
  scan-FindsPair field test =
      Finds-imp _ _ (IsPair s field test) (NoPair s field test) s.car cs _
        (λ c. pair_with-true (λ b. test (field b)) (s.car c))
        (λ c. pair_with-false (λ b. test (field b)) (s.car c))
        (scan-Finds s (λ a. pair_with (λ b. test (field b)) (s.car a)) s.car w ends n l cs is ch le)

  -- The searches of a list of the cells `cs`, with as many polls as cells. `assoc`, `assv` and `assq`
  -- return the first element that is a cons whose car is the same as `elt` (by `equal?`, `eqv?` or
  -- `eq?`), `rassoc`, `rassv` and `rassq` the first one whose cdr is, and `member`, `memv` and `memq`
  -- the list from the first element on that is the same as `elt`; all return nil where there is none.
  pub searches-first :
      (equal : Store → Value → Value → Bool) (eqv : Value → Value → Bool)
      → FindsPair s s.car (equal s elt) cs (assoc equal n s elt l)
        × FindsPair s s.car (eqv elt) cs (assv eqv n s elt l)
        × FindsPair s s.car (eq elt) cs (assq n s elt l)
        × FindsPair s s.cdr (equal s elt) cs (rassoc equal n s elt l)
        × FindsPair s s.cdr (eqv elt) cs (rassv eqv n s elt l)
        × FindsPair s s.cdr (eq elt) cs (rassq n s elt l)
        × FindsElement s (equal s elt) cs (member equal n s elt l)
        × FindsElement s (λ v. eq elt v || eqv elt v) cs (memv eqv n s elt l)
        × FindsElement s (eq elt) cs (memq n s elt l)
  unfolding assoc assv assq rassoc rassv rassq member memv memq car_hit cdr_hit member_hit
  searches-first equal eqv = (
    scan-FindsPair s.car (equal s elt),
    scan-FindsPair s.car (eqv elt),
    scan-FindsPair s.car (eq elt),
    scan-FindsPair s.cdr (equal s elt),
    scan-FindsPair s.cdr (eqv elt),
    scan-FindsPair s.cdr (eq elt),
    scan-Finds s _ cons w ends n l cs is ch le,
    scan-Finds s _ cons w ends n l cs is ch le,
    scan-Finds s _ cons w ends n l cs is ch le,
  )

module _ (s : Store) (hit : Addr → Bool) (found : Addr → Value) (cs : List Addr)
    (round : Circular s.cdr cs) (misses : (c : Addr) → has c cs ≡ true → hit c ≡ false) where
  scan_loop-circular :
      (n : ℕ) (c : Addr)
      → has c cs ≡ true
      → (poll_loop (scan_step s hit found) no_rest (λ _. err interrupt) n (cons c)).0
        ≡ err interrupt
  unfolding scan_step poll_loop scan_loop
  scan_loop-circular zero c h = rw (misses c h, poll_loop)
  scan_loop-circular (suc n) c h =
      let (d, e, k) = round c h in
      scan_loop-miss s hit found nil refl n c (misses c h) ∙ rw e (scan_loop-circular n d k)

  -- A search of a circular list in which nothing passes the test runs until the user interrupts it,
  -- after any number of polls.
  pub scan-circular :
      (n : ℕ) (c : Addr) → has c cs ≡ true → scan n s hit found (cons c) ≡ err interrupt
  unfolding scan
  scan-circular n c h = scan_loop-circular n c h

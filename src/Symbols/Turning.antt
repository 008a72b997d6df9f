-- ===== src/Symbols/Turning.antt =====
-- The loop of `unintern`: it turns a chain round, without the symbol that it takes out.
use librep.Prelude.{
  ℕ, zero, suc, ◌≤◌, ◌<◌, ◌≡◌, refl, ◌∙◌, true, false, not, List, [], ◌∷◌, arith, if◌then◌else◌,
  ◌==◌, Bool-cases, inl, inr, has, Distinct, keep, length, turned_onto,
}
use librep.Value.{Addr, Value, null, symbol, eq, is_symbol}
use librep.Symbols.{Symbols, buckets, bucket, set_bucket, set_next, unintern_loop}
use librep.Symbols.Chains.{Linked, Linked-agree}
use librep.Symbols.Interning.{size-set_bucket, bucket-set_bucket}

-- The symbols of a chain but one.
abbrev pub without : Addr → List Addr → List Addr
without a cs = keep (λ b. not (b == a)) cs

-- The loop has gone through the symbols `cs`; the bucket led to `ds`.
pub record Turned (gone o h : Addr) (s : Symbols) (cs ds : List Addr) (t : Symbols) : Type 0 where
  pub linked : Linked t.next (bucket t o h) (turned_onto (without gone cs) ds)
  pub size : length (buckets t o) ≡ length (buckets s o)
  pub others : (j : ℕ) → (j == h) ≡ false → bucket t o j ≡ bucket s o j
  pub kept : (b : Addr) → has b cs ≡ false → t.next b ≡ s.next b
  pub links : (b : Addr) → has b cs ≡ true → (b == gone) ≡ false → eq (t.next b) null ≡ false
  pub ended : eq (bucket t o h) null ≡ false
  pub names : (t.name ≡ s.name) × (t.made ≡ s.made)

pub record Turnable (o h : Addr) (s : Symbols) (v : Value) (cs ds : List Addr) : Type 0 where
  pub rest : Linked s.next v cs
  pub front : Linked s.next (bucket s o h) ds
  pub distinct : Distinct cs
  pub apart : (b : Addr) → has b cs ≡ true → has b ds ≡ false
  pub inside : h < length (buckets s o)
  pub ended : eq (bucket s o h) null ≡ false

module _ (gone o h : Addr) where
  -- The symbol `a` goes back to the bucket.
  abbrev put_back : Symbols → Addr → Symbols
  put_back s a = set_bucket (set_next s a (bucket s o h)) o h (symbol a)

  put_back-next :
      (s : Symbols) (a b : Addr)
      → (put_back s a).next b ≡ (if b == a then bucket s o h else s.next b)
  unfolding set_bucket
  put_back-next s a b = refl

  put_back-names :
      (s : Symbols) (a : Addr) → ((put_back s a).name ≡ s.name) × ((put_back s a).made ≡ s.made)
  unfolding set_bucket
  put_back-names s a = (refl, refl)

  module _ (s : Symbols) (a : Addr) (cs ds : List Addr)
      (k : Turnable o h s (symbol a) (a ∷ cs) ds) where
    put_back-same : (b : Addr) → (b == a) ≡ false → (put_back s a).next b ≡ s.next b
    put_back-same b e = put_back-next s a b ∙ rw e refl

    put_back-bucket : bucket (put_back s a) o h ≡ symbol a
    put_back-bucket =
        bucket-set_bucket (set_next s a (bucket s o h)) o h (symbol a) h k.inside ∙ ground arith

    put_back-Turnable : Turnable o h (put_back s a) (s.next a) cs (a ∷ ds)
    unfolding eq
    put_back-Turnable = record {
      rest =
          Linked-agree s.next (put_back s a).next (s.next a) cs
            (λ b i. put_back-same b (ground (arith, k.distinct.0))) k.rest.1;
      front = rw put_back-bucket (
        refl,
        rw (put_back-next s a a) (
            Linked-agree s.next (put_back s a).next (if a == a then bucket s o h else s.next a) ds
              (λ b i. put_back-same b (ground (arith, k.apart a))) (ground (arith, k.front))),
      );
      distinct = k.distinct.1;
      apart = λ b i. ground (arith, k.distinct.0, k.apart b);
      inside = rw (size-set_bucket (set_next s a (bucket s o h)) o h (symbol a)) k.inside;
      ended = rw put_back-bucket refl;
    }

    put_back-Turned :
        (t : Symbols)
        → (a == gone) ≡ false
        → Turned gone o h (put_back s a) cs (a ∷ ds) t
        → Turned gone o h s (a ∷ cs) ds t
    put_back-Turned t stays r =
        let (names, made) = put_back-names s a in
        record {
          linked = rw stays r.linked;
          size = r.size ∙ size-set_bucket (set_next s a (bucket s o h)) o h (symbol a);
          others = λ j e.
              r.others j e
              ∙ bucket-set_bucket (set_next s a (bucket s o h)) o h (symbol a) j k.inside
              ∙ rw e refl;
          kept = λ b i. r.kept b (ground arith) ∙ put_back-same b (ground arith);
          links = λ b i e. elim (Bool-cases (b == a)) [
            | inl m ↦
                let same : b ≡ a = ground arith in
                let link : t.next a ≡ bucket s o h =
                  r.kept a (ground (arith, k.distinct.0)) ∙ put_back-next s a a ∙ ground arith in
                rw (same, link) k.ended
            | inr m ↦ r.links b (ground arith) e
          ];
          ended = r.ended;
          names = (r.names.0 ∙ names, r.names.1 ∙ made);
        }

    -- The symbol that goes is passed over.
    passed-Turnable : Turnable o h s (s.next a) cs ds
    passed-Turnable = record {
      rest = k.rest.1;
      front = k.front;
      distinct = k.distinct.1;
      apart = λ b i. k.apart b (ground arith);
      inside = k.inside;
      ended = k.ended;
    }

    passed-Turned :
        (t : Symbols)
        → (a == gone) ≡ true
        → Turned gone o h s cs ds t
        → Turned gone o h s (a ∷ cs) ds t
    passed-Turned t goes r = record {
      linked = rw goes r.linked;
      size = r.size;
      others = r.others;
      kept = λ b i. r.kept b (ground arith);
      links = λ b i e. r.links b (ground arith) e;
      ended = r.ended;
      names = r.names;
    }

  loop-end :
      (n : ℕ) (s : Symbols) (v : Value) → is_symbol v ≡ false → unintern_loop n gone o h s v ≡ s
  unfolding unintern_loop
  loop-end zero s v e = refl
  loop-end (suc n) s v e = ground arith

  loop-passed :
      (n : ℕ) (s : Symbols) (a : Addr)
      → (a == gone) ≡ true
      → unintern_loop (suc n) gone o h s (symbol a) ≡ unintern_loop n gone o h s (s.next a)
  unfolding unintern_loop
  loop-passed n s a e = rw e refl

  loop-put_back :
      (n : ℕ) (s : Symbols) (a : Addr)
      → (a == gone) ≡ false
      → unintern_loop (suc n) gone o h s (symbol a)
        ≡ unintern_loop n gone o h (put_back s a) (s.next a)
  unfolding unintern_loop
  loop-put_back n s a e = rw e refl

  pub unintern_loop-Turned :
      (n : ℕ) (s : Symbols) (v : Value) (cs ds : List Addr)
      → Turnable o h s v cs ds
      → length cs ≤ n
      → Turned gone o h s cs ds (unintern_loop n gone o h s v)
  unintern_loop-Turned n s v [] ds k f = rw (loop-end n s v k.rest) (record {
    linked = k.front;
    size = refl;
    others = λ j e. refl;
    kept = λ b i. refl;
    links = λ b i e. absurd (ground arith);
    ended = k.ended;
    names = (refl, refl);
  })
  unintern_loop-Turned zero s v (a ∷ cs) ds k f = absurd (ground arith)
  unintern_loop-Turned (suc n) s v (a ∷ cs) ds k f =
      let e = k.rest.0 in
      let k' : Turnable o h s (symbol a) (a ∷ cs) ds = rw e at k in
      rw e (elim (Bool-cases (a == gone)) [
        | inl goes ↦ rw (loop-passed n s a goes) (
            passed-Turned s a cs ds k' _ goes (
              unintern_loop-Turned n s (s.next a) cs ds (passed-Turnable s a cs ds k')
                (ground arith)))
        | inr stays ↦ rw (loop-put_back n s a stays) (
            put_back-Turned s a cs ds k' _ stays (
              unintern_loop-Turned n (put_back s a) (s.next a) cs (a ∷ ds)
                (put_back-Turnable s a cs ds k') (ground arith)))
      ])

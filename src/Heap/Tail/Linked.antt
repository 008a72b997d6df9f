-- ===== src/Heap/Tail/Linked.antt =====
-- What the pointer to the last cdr keeps: the cells so far are linked up to the place it points to.
use librep.Prelude.{
  ◌≡◌, refl, true, false, List, [], ◌∷◌, ◌++◌, arith, ◌==◌, has, Distinct, has-append, Bool-cases,
  inl, inr,
}
use librep.Value.{Addr, Value, cons}
use librep.Heap.{Store, update}
use librep.Heap.Chain.{Chain, Chain-agree, Chain-update, Chain-append, Distinct-snoc}
use librep.Heap.Tail.{Place, local, cdr_of, Out, read_last, write_last, move_to}

-- The place is the local variable, or the cdr of one of the cells.
abbrev pub Within : Place → List Addr → Type 0
Within local cs = Unit {0}
Within (cdr_of a) cs = has a cs ≡ true

pub record Linked (o : Out) (cs : List Addr) : Type 0 where
  pub now : Chain o.store.cdr o.value cs (read_last o)
  pub later : (v : Value) → Chain (write_last o v).store.cdr (write_last o v).value cs v
  pub distinct : Distinct cs
  pub within : Within o.last cs

pub Linked-start :
    (v : Value) (s : Store) → Linked (record { value = v; last = local; store = s }) []
Linked-start v s = record { now = refl; later = λ w. refl; distinct = tt; within = tt }

-- The pointer moves to the cdr of the cell it points at.
pub Linked-move :
    (o : Out) (cs : List Addr) (c : Addr)
    → read_last o ≡ cons c
    → has c cs ≡ false
    → Linked o cs
    → Linked (move_to o c) (cs ++ c ∷ [])
Linked-move o cs c e out l = record {
  now = Chain-append o.store.cdr o.value (read_last o) (o.store.cdr c) cs (c ∷ []) l.now (e, refl);
  later = λ v.
      let m = update o.store.cdr c v in
      Chain-append m o.value (cons c) v cs (c ∷ [])
        (Chain-update o.store.cdr o.value cs (cons c) c v out (rw e at l.now)) (refl, ground arith);
  distinct = Distinct-snoc cs c l.distinct out;
  within = ground (arith, has-append c cs (c ∷ []));
}

update_self : (m : Addr → Value) (a : Addr) (v : Value) → update m a v a ≡ v
update_self m a v = ground arith

write_at-Linked :
    (p : Place) (x : Value) (s : Store) (cs : List Addr) (v : Value)
    → Linked (record { value = x; last = p; store = s }) cs
    → Linked (write_last (record { value = x; last = p; store = s }) v) cs
write_at-Linked local x s cs v l = record {
  now = l.later v;
  later = l.later;
  distinct = l.distinct;
  within = l.within;
}
write_at-Linked (cdr_of a) x s cs v l = record {
  now = rw (update_self s.cdr a v) (l.later v);
  later = λ u.
      Chain-agree (update s.cdr a u) (update (update s.cdr a v) a u) x cs u (λ b h. ground arith)
        (l.later u);
  distinct = l.distinct;
  within = l.within;
}

-- `*last = v` keeps the cells linked.
pub Linked-write : (o : Out) (cs : List Addr) (v : Value) → Linked o cs → Linked (write_last o v) cs
Linked-write o cs v l = write_at-Linked o.last o.value o.store cs v l

pub read-write_at :
    (p : Place) (x : Value) (s : Store) (v : Value)
    → read_last (write_last (record { value = x; last = p; store = s }) v) ≡ v
read-write_at local x s v = refl
read-write_at (cdr_of a) x s v = update_self s.cdr a v

pub read-write_last : (o : Out) (v : Value) → read_last (write_last o v) ≡ v
read-write_last o v = read-write_at o.last o.value o.store v

frame_at :
    (p : Place) (x : Value) (s t : Store) (cs : List Addr)
    → ((a : Addr) → has a cs ≡ true → t.cdr a ≡ s.cdr a)
    → Linked (record { value = x; last = p; store = s }) cs
    → Linked (record { value = x; last = p; store = t }) cs
frame_at local x s t cs same l = record {
  now = Chain-agree s.cdr t.cdr x cs x same l.now;
  later = λ v. Chain-agree s.cdr t.cdr v cs v same (l.later v);
  distinct = l.distinct;
  within = tt;
}
frame_at (cdr_of a) x s t cs same l = record {
  now = rw (same a l.within) (Chain-agree s.cdr t.cdr x cs (s.cdr a) same l.now);
  later = λ v.
      Chain-agree (update s.cdr a v) (update t.cdr a v) x cs v (λ b h. ground (arith, same b))
        (l.later v);
  distinct = l.distinct;
  within = l.within;
}

-- A store with the same cdrs in these cells has them linked too.
pub Linked-frame :
    (o : Out) (t : Store) (cs : List Addr)
    → ((a : Addr) → has a cs ≡ true → t.cdr a ≡ o.store.cdr a)
    → Linked o cs
    → Linked (record o { store = t }) cs
Linked-frame o t cs same l = frame_at o.last o.value o.store t cs same l

-- `*last = v` writes no cdr but that of a linked cell, and no car.
pub write_at-same :
    (p : Place) (x : Value) (s : Store) (cs : List Addr) (v : Value) (b : Addr)
    → Within p cs
    → has b cs ≡ false
    → (write_last (record { value = x; last = p; store = s }) v).store.cdr b ≡ s.cdr b
write_at-same local x s cs v b w out = refl
write_at-same (cdr_of a) x s cs v b w out = elim (Bool-cases (b == a)) [
  | inl e ↦ absurd (ground arith)
  | inr e ↦ rw e
]

pub write_at-car :
    (p : Place) (x : Value) (s : Store) (v : Value)
    → (write_last (record { value = x; last = p; store = s }) v).store.car ≡ s.car
write_at-car local x s v = refl
write_at-car (cdr_of a) x s v = refl

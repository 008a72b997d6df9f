-- ===== src/Tables/Visits.antt =====
-- The calls that table-for-each makes.
use librep.Prelude.{
  ℕ, zero, suc, ◌+◌, ◌≤◌, ◌<◌, ◌≡◌, refl, ap, sym, Bool, true, false, some, List, [], ◌∷◌, ◌++◌,
  ◌∙◌, if◌then◌else◌, Bool-cases, inl, inr, arith, length, ltb, All, length-append,
}
use mathlib.Core.List.{append_assoc}
use librep.Value.{Value}
use librep.Tables.{Node, Table, bucket_at, call_lisp2, each_node, each_bucket, table_for_each}
use librep.Tables.Moving.{flat}
use librep.Tables.Following.{KeysApart, Follows, AllFollow, KeysApart-AllFollow}

module _ {S : Type 0} (call : S → Value → Value → Bool × S) where
  -- The states that the calls for the nodes leave, one after the other.
  pub run_nodes : List Node → S → S
  run_nodes [] s = s
  run_nodes (n ∷ ns) s = run_nodes ns (call s n.key n.value).1

  -- The calls up to the first one that fails: whether one did, and the state that they leave.
  pub run_until : List Node → S → Bool × S
  run_until [] s = (false, s)
  run_until (n ∷ ns) s =
      let rest = run_until ns (call s n.key n.value).1 in
      if (call s n.key n.value).0 then rest else (true, (call s n.key n.value).1)

  run_until-run_nodes :
      ((s : S) (k v : Value) → (call s k v).0 ≡ true)
      → (ns : List Node) (s : S) → run_until ns s ≡ (false, run_nodes ns s)
  unfolding run_until run_nodes
  run_until-run_nodes succeeds [] s = refl
  run_until-run_nodes succeeds (n ∷ ns) s =
      rw (succeeds s n.key n.value) (run_until-run_nodes succeeds ns (call s n.key n.value).1)

module _ {S : Type 0} (call : S → Value → Value → Bool × S) where
  -- What follows a chain is called if no call for the chain failed.
  then_until : List Node → Bool × S → Bool × S
  then_until ns out = if out.0 then out else run_until call ns out.1

  run_until-append :
      (ns ms : List Node) (s : S)
      → run_until call (ns ++ ms) s ≡ then_until ms (run_until call ns s)
  unfolding run_until then_until
  run_until-append [] ms s = refl
  run_until-append (n ∷ ns) ms s = elim (Bool-cases (call s n.key n.value).0) [
    | inl e ↦ rw e (run_until-append ns ms (call s n.key n.value).1)
    | inr e ↦ rw e refl
  ]

  run_nodes-append :
      (ns ms : List Node) (s : S)
      → run_nodes call (ns ++ ms) s ≡ run_nodes call ms (run_nodes call ns s)
  unfolding run_nodes
  run_nodes-append [] ms s = refl
  run_nodes-append (n ∷ ns) ms s = run_nodes-append ns ms (call s n.key n.value).1

outcome-eq : {S : Type 0} (out : Bool × S) (b : Bool) → out.0 ≡ b → out ≡ (b, out.1)
outcome-eq out b e = ap (λ c. (c, out.1)) e

-- Every chain is at most `n` long.
abbrev pub AllShort : ℕ → List (List Node) → Type 0
AllShort n bs = All (λ b. length b ≤ n) bs

bucket_at-append :
    (before after : List (List Node)) (c : List Node)
    → bucket_at (before ++ c ∷ after) (length before) ≡ c
bucket_at-append [] after c = refl
bucket_at-append (b ∷ before) after c = bucket_at-append before after c

module _ {S : Type 0} (table : S → Table) (call : S → Value → Value → Bool × S)
    (keeps : (s : S) (k v : Value) → table (call s k v).1 ≡ table s) (t : Table) (n : ℕ)
    (size : length t.buckets ≡ t.total_buckets) where
  each_node-until :
      (bytecode : Bool) (xs : List Node) (m : ℕ) (s : S)
      → Follows t.buckets xs
      → length xs ≤ m
      → table s ≡ t
      → (each_node table bytecode call m (some xs) (false, s) ≡ some (run_until call xs s))
        × (table (run_until call xs s).1 ≡ t)
  unfolding each_node call_lisp2 run_until
  each_node-until bytecode [] m s f le e = (refl, e)
  each_node-until bytecode (x ∷ xs) zero s f le e = absurd (omega arith)
  each_node-until bytecode (x ∷ xs) (suc m) s (f, fs) le e =
      let same : table (call s x.key x.value).1 ≡ t = keeps s x.key x.value ∙ e in
      elim (Bool-cases (call s x.key x.value).0) [
        | inl h ↦
            rw (h, same, f)
              (each_node-until bytecode xs m (call s x.key x.value).1 fs (omega arith) same)
        | inr h ↦ rw h (refl, same)
      ]

  -- With a throw pending nothing is called that is no byte-code closure.
  each_node-thrown :
      (xs : List Node) (m : ℕ) (s : S)
      → length xs ≤ m
      → each_node table false call m (some xs) (true, s) ≡ some (true, s)
  unfolding each_node call_lisp2
  each_node-thrown [] m s le = refl
  each_node-thrown (x ∷ xs) zero s le = absurd (omega arith)
  each_node-thrown (x ∷ xs) (suc m) s le = refl

  -- One round of the loop over the buckets
  each_bucket-step :
      (bytecode : Bool) (before cs : List (List Node)) (c : List Node) (k : ℕ)
      (state out : Bool × S)
      → before ++ c ∷ cs ≡ t.buckets
      → table state.1 ≡ t
      → each_node table bytecode call n (some c) state ≡ some out
      → each_bucket table bytecode call (suc k) n (length before) state
        ≡ each_bucket table bytecode call k n (length (before ++ c ∷ [])) out
  unfolding each_bucket
  each_bucket-step bytecode before cs c k state out e same chain =
      let own : bucket_at t.buckets (length before) ≡ c =
        ap (λ bs. bucket_at bs (length before)) (sym e) ∙ bucket_at-append before cs c in
      let inside : ltb (length before) t.total_buckets ≡ true =
        ground (arith, size, ap length e, length-append before (c ∷ cs)) in
      let next : length before + 1 ≡ length (before ++ c ∷ []) =
        omega (arith, length-append before (c ∷ [])) in
      rw (same, inside, own, chain, each_bucket, next) refl

  each_bucket-end :
      (bytecode : Bool) (before : List (List Node)) (k : ℕ) (state : Bool × S)
      → before ++ [] ≡ t.buckets
      → table state.1 ≡ t
      → each_bucket table bytecode call (suc k) n (length before) state ≡ some state
  unfolding each_bucket
  each_bucket-end bytecode before k state e same =
      let outside : ltb (length before) t.total_buckets ≡ false =
        ground (arith, size, ap length e, length-append before []) in
      rw (same, outside) refl

  each_bucket-thrown :
      (before cs : List (List Node)) (k : ℕ) (s : S)
      → before ++ cs ≡ t.buckets
      → AllShort n cs
      → length cs < k
      → table s ≡ t
      → each_bucket table false call k n (length before) (true, s) ≡ some (true, s)
  each_bucket-thrown before cs zero s e short fuel same = absurd (omega arith)
  each_bucket-thrown before [] (suc k) s e short fuel same =
      each_bucket-end false before k (true, s) e same
  each_bucket-thrown before (c ∷ cs) (suc k) s e (le, short) fuel same =
      each_bucket-step false before cs c k (true, s) (true, s) e same (each_node-thrown c n s le)
      ∙ each_bucket-thrown (before ++ c ∷ []) cs k s (append_assoc before (c ∷ []) cs ∙ e) short
          (omega arith) same

  each_bucket-until :
      (before cs : List (List Node)) (k : ℕ) (s : S)
      → before ++ cs ≡ t.buckets
      → AllFollow t.buckets cs
      → AllShort n cs
      → length cs < k
      → table s ≡ t
      → each_bucket table false call k n (length before) (false, s)
        ≡ some (run_until call (flat cs) s)
  unfolding flat run_until
  each_bucket-until before cs zero s e f short fuel same = absurd (omega arith)
  each_bucket-until before [] (suc k) s e f short fuel same =
      each_bucket-end false before k (false, s) e same
  each_bucket-until before (c ∷ cs) (suc k) s e (f, fs) (le, short) fuel same =
      let out = run_until call c s in
      let (ran, kept) = each_node-until false c n s f le same in
      let e' = append_assoc before (c ∷ []) cs ∙ e in
      each_bucket-step false before cs c k (false, s) out e same ran ∙ elim (Bool-cases out.0) [
        | inl h ↦
            ap (each_bucket table false call k n (length (before ++ c ∷ [])))
              (outcome-eq out true h)
            ∙ each_bucket-thrown (before ++ c ∷ []) cs k out.1 e' short (omega arith) kept
            ∙ ap some (
                sym (outcome-eq out true h)
                ∙ sym (run_until-append call c (flat cs) s ∙ ended c (flat cs) s h))
        | inr h ↦
            ap (each_bucket table false call k n (length (before ++ c ∷ [])))
              (outcome-eq out false h)
            ∙ each_bucket-until (before ++ c ∷ []) cs k out.1 e' fs short (omega arith) kept
            ∙ ap some (sym (run_until-append call c (flat cs) s ∙ going c (flat cs) s h))
      ]
    where
      ended :
          (c ms : List Node) (s : S)
          → (run_until call c s).0 ≡ true
          → then_until call ms (run_until call c s) ≡ run_until call c s
      ended c ms s h = unfold then_until in rw h refl

      going :
          (c ms : List Node) (s : S)
          → (run_until call c s).0 ≡ false
          → then_until call ms (run_until call c s) ≡ run_until call ms (run_until call c s).1
      going c ms s h = unfold then_until in rw h refl

  each_bucket-run :
      (bytecode : Bool)
      → ((s : S) (k v : Value) → (call s k v).0 ≡ true)
      → (before cs : List (List Node)) (k : ℕ) (s : S) → before ++ cs ≡ t.buckets
      → AllFollow t.buckets cs
      → AllShort n cs
      → length cs < k
      → table s ≡ t
      → each_bucket table bytecode call k n (length before) (false, s)
        ≡ some (false, run_nodes call (flat cs) s)
  unfolding flat run_nodes
  each_bucket-run bytecode succeeds before cs zero s e f short fuel same = absurd (omega arith)
  each_bucket-run bytecode succeeds before [] (suc k) s e f short fuel same =
      each_bucket-end bytecode before k (false, s) e same
  each_bucket-run bytecode succeeds before (c ∷ cs) (suc k) s e (f, fs) (le, short) fuel same =
      let (ran, kept) = each_node-until bytecode c n s f le same in
      let all = run_until-run_nodes call succeeds c s in
      each_bucket-step bytecode before cs c k (false, s) (false, run_nodes call c s) e same
        (ran ∙ ap some all)
      ∙ each_bucket-run bytecode succeeds (before ++ c ∷ []) cs k (run_nodes call c s)
          (append_assoc before (c ∷ []) cs ∙ e) fs short (omega arith)
          (ap (λ out. table out.1) (sym all) ∙ kept)
      ∙ ap (λ u. some (false, u)) (sym (run_nodes-append call c (flat cs) s))

  module _ (k : ℕ) (s : S) (same : table s ≡ t) (apart : KeysApart (flat t.buckets))
      (short : AllShort n t.buckets) (fuel : t.total_buckets < k) where
    -- A function that never fails and leaves the table as it is is called for every node of the table,
    -- bucket by bucket, each call from the state that the one before left, and no throw is pending at
    -- the end. No two nodes of the table have the same key, it has as many chains as it says, and the
    -- fuel is the length of the longest chain, and more than the number of the chains.
    pub table_for_each-run :
        (bytecode : Bool)
        → ((s : S) (k v : Value) → (call s k v).0 ≡ true)
        → table_for_each table bytecode call k n s ≡ some (false, run_nodes call (flat t.buckets) s)
    unfolding table_for_each
    table_for_each-run bytecode succeeds =
        each_bucket-run bytecode succeeds [] t.buckets k s refl
          (KeysApart-AllFollow t.buckets apart) short (omega (arith, size)) same

    -- A subr or an interpreted closure that leaves the table as it is is called for the nodes of the
    -- table, bucket by bucket, up to the first call that fails, and a throw is pending at the end
    -- exactly if one did. No two nodes of the table have the same key, it has as many chains as it
    -- says, and the fuel is the length of the longest chain, and more than the number of the chains.
    pub table_for_each-until :
        table_for_each table false call k n s ≡ some (run_until call (flat t.buckets) s)
    unfolding table_for_each
    table_for_each-until =
        each_bucket-until [] t.buckets k s refl (KeysApart-AllFollow t.buckets apart) short
          (omega (arith, size)) same

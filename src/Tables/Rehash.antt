-- ===== src/Tables/Rehash.antt =====
-- Growing a table moves its nodes and loses none: every key is found as before.
use librep.Prelude.{
  ℕ, zero, suc, ◌%◌, ◌<◌, ◌≡◌, refl, ap, Bool, none, List, [], ◌∷◌, length, arith, ◌∙◌, replicate,
}
use mathlib.Core.Path.{subst}
use librep.Value.{Value}
use librep.Tables.{Node, bucket_at, move_buckets, find_node}
use librep.Tables.Buckets.{Hashing, count_nodes, IsChain, get, Chains}
use librep.Tables.Moving.{
  flat, length-flat, move_buckets-flat, length-move_nodes, count-move_nodes, later, get-move_nodes,
  later-find, Absent, Chains-move_nodes,
}
use librep.Tables.Places.{From, at_place, find-flat, Hashed-flat, Unique-flat}

module _ (hash : Value → ℕ) (compare : Value → Value → Bool) (laws : Hashing hash compare) where
  bucket_at-replicate : (n k : ℕ) → bucket_at (replicate n []) k ≡ []
  bucket_at-replicate zero k = refl
  bucket_at-replicate (suc n) zero = refl
  bucket_at-replicate (suc n) (suc k) = bucket_at-replicate n k

  length-replicate : (n : ℕ) → length (replicate n (let e : List Node = [] in e)) ≡ n
  length-replicate zero = refl
  length-replicate (suc n) = ap suc (length-replicate n)

  count-replicate : (n : ℕ) → count_nodes (replicate n []) ≡ 0
  count-replicate zero = refl
  count-replicate (suc n) = omega (arith, count-replicate n)

  get-replicate : (size : ℕ) (j : Value) → get hash compare size (replicate size []) j ≡ none
  unfolding find_node
  get-replicate size j = rw (bucket_at-replicate size (hash j % size)) refl

  Absent-replicate :
      (size : ℕ) (ns : List Node) → Absent hash compare laws size (replicate size []) ns
  unfolding Absent
  Absent-replicate size [] = tt
  Absent-replicate size (n ∷ ns) = (get-replicate size n.key, Absent-replicate size ns)

  -- The buckets `bins` of a new size hold the nodes of the old ones.
  pub record Moved (old size : ℕ) (bs bins : List (List Node)) : Type 0 where
    pub length : length bins ≡ size
    pub chains : Chains hash compare size bins
    pub count : count_nodes bins ≡ count_nodes bs
    pub finds :
        (j : Value)
        → get hash compare size bins j ≡ at_place hash compare laws 0 bs j (hash j % old)

  pub moved :
      (old size : ℕ) (bs : List (List Node))
      → 0 < size
      → length bs ≡ old
      → Chains hash compare old bs
      → Moved old size bs (move_buckets size bs (replicate size []))
  moved old size bs pos len ch =
      let empty : List (List Node) = replicate size [] in
      let f : From hash compare laws old 0 bs = λ k h.
        subst (λ x. IsChain hash compare old x (bucket_at bs k)) (omega arith)
          (ch k (omega arith)) in
      let u = Unique-flat hash compare laws old 0 bs f in
      let hs = Hashed-flat hash compare laws old 0 bs f in
      rw (move_buckets-flat size bs empty) (record {
        length = length-move_nodes size (flat bs) empty ∙ length-replicate size;
        chains =
            Chains-move_nodes hash compare laws size (flat bs) empty pos (length-replicate size) hs
              u (Absent-replicate size (flat bs))
              (λ i h. rw (bucket_at-replicate size i) (record { placed = tt; unique = tt }));
        count = omega (
          arith,
          count-move_nodes size (flat bs) empty pos (length-replicate size),
          count-replicate size,
          length-flat bs,
        );
        finds = λ j.
            get-move_nodes hash compare size (flat bs) empty j pos (length-replicate size)
            ∙ ap (later hash compare j (flat bs)) (get-replicate size j)
            ∙ later-find hash compare laws j (flat bs) hs u
            ∙ find-flat hash compare laws old 0 bs j f;
      })

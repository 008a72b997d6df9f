-- ===== src/Tables/Lookup.antt =====
-- What table-ref finds after table-set! and table-delete!, and the invariant of the table.
use librep.Prelude.{
  ℕ, ◌+◌, ◌-◌, ◌%◌, ◌<◌, ◌≡◌, refl, ap, sym, Bool, none, some, length, ◌==◌, if◌then◌else◌, arith,
  ◌∙◌, Bool-cases, Option-cases, inl, inr,
}
use librep.Value.{Value}
use librep.Tables.{
  Node, Table, make_table, bucket_at, count_and_grow, is_match, lookup, set_value, unlink_node,
  add_node, change_chain, table_set, table_unset, table_size,
}
use librep.Tables.Buckets.{Hashing, bucket-le-count, IsTable}
use librep.Tables.Changes.{
  value_of, found, find-same, find-set_value, find-unlink_node, length-set_value,
  length-unlink_node, IsChain-set_value, IsChain-unlink_node,
}
use librep.Tables.Moving.{find, Hashed}
use librep.Tables.Adding.{lookup-get, lookup-empty, add_node-IsTable, add_node-lookup}
use librep.Tables.Replacing.{changed, some-pos, value-changed, changed-IsTable, Hashed-bucket}

module _ (hash : Value → ℕ) (compare : Value → Value → Bool) (laws : Hashing hash compare) where
  table_set-new :
      (t : Table) (k v : Value)
      → lookup hash compare t k ≡ none
      → table_set hash compare t k v ≡ add_node hash compare t k v
  unfolding table_set
  table_set-new t k v e = rw (e, table_set)

  table_set-old :
      (t : Table) (k v : Value) (n : Node)
      → lookup hash compare t k ≡ some n
      → table_set hash compare t k v
        ≡ record t { buckets = changed hash compare laws t k (set_value hash compare k v) }
  unfolding table_set change_chain changed
  table_set-old t k v n e = rw (e, table_set)

  table_unset-new :
      (t : Table) (k : Value) → lookup hash compare t k ≡ none → table_unset hash compare t k ≡ t
  unfolding table_unset
  table_unset-new t k e = rw (e, table_unset)

  table_unset-old :
      (t : Table) (k : Value) (n : Node)
      → lookup hash compare t k ≡ some n
      → table_unset hash compare t k ≡ record t {
        total_nodes = t.total_nodes - 1;
        buckets = changed hash compare laws t k (unlink_node hash compare k);
      }
  unfolding table_unset change_chain changed
  table_unset-old t k n e = rw (e, table_unset)

  in_bucket :
      (t : Table) (k : Value) (n : Node)
      → lookup hash compare t k ≡ some n
      → find hash compare k (bucket_at t.buckets (hash k % t.total_buckets)) ≡ some n
  in_bucket t k n e =
      sym (lookup-get hash compare laws t k (some-pos hash compare laws t k n e)) ∙ e

  bucket-Hashed :
      (t : Table) (k : Value)
      → IsTable hash compare t
      → 0 < t.total_buckets
      → Hashed hash compare laws (bucket_at t.buckets (hash k % t.total_buckets))
  bucket-Hashed t k is pos =
      let i = hash k % t.total_buckets in
      Hashed-bucket hash compare laws t.total_buckets i (bucket_at t.buckets i)
        (is.chains i (grind arith)).placed

  -- `table-set!` and `table-delete!` keep the invariant: every node stands in the chain of its hash,
  -- no two nodes of a chain have equal keys, the nodes are counted, and there are at most two for each
  -- bucket.
  -- The functions of the table obey `Hashing`.
  pub table_set-IsTable :
      (t : Table) (k v : Value)
      → IsTable hash compare t
      → IsTable hash compare (table_set hash compare t k v)
        × IsTable hash compare (table_unset hash compare t k)
  table_set-IsTable t k v is = elim (Option-cases (lookup hash compare t k)) [
    | inl e ↦ (
      rw (table_set-new t k v e) (add_node-IsTable hash compare laws t k v is e),
      rw (table_unset-new t k e) is,
    )
    | inr (n, e) ↦
        let pos = some-pos hash compare laws t k n e in
        let b = bucket_at t.buckets (hash k % t.total_buckets) in
        let one = length-unlink_node hash compare laws k b n (in_bucket t k n e) in
        (
          rw (table_set-old t k v n e) (
              changed-IsTable hash compare laws t k (set_value hash compare k v) t.total_nodes is
                pos (λ i ns. IsChain-set_value hash compare laws t.total_buckets i k v ns)
                (omega (arith, length-set_value hash compare laws k v b)) (omega arith)),
          rw (table_unset-old t k n e) (
              changed-IsTable hash compare laws t k (unlink_node hash compare k) (t.total_nodes - 1)
                is pos (λ i ns. IsChain-unlink_node hash compare laws t.total_buckets i k ns)
                (less t k is pos one) (omega arith)),
        )
  ]
    where
      less :
          (t : Table) (k : Value)
          → IsTable hash compare t
          → 0 < t.total_buckets
          → length (unlink_node hash compare k (bucket_at t.buckets (hash k % t.total_buckets))) + 1
            ≡ length (bucket_at t.buckets (hash k % t.total_buckets))
          → t.total_nodes - 1 + length (bucket_at t.buckets (hash k % t.total_buckets))
            ≡ t.total_nodes
              + length (unlink_node hash compare k (bucket_at t.buckets (hash k % t.total_buckets)))
      less t k is pos one =
          omega (arith, is.count, bucket-le-count t.buckets (hash k % t.total_buckets))

  -- After `table-set!` every key that compares equal to `k` has the value `v`, and every other key the
  -- value it had, or none if it had none.
  -- The table has the invariant, and its functions obey `Hashing`.
  pub table_set-lookup :
      (t : Table) (k v j : Value)
      → IsTable hash compare t
      → value_of (lookup hash compare (table_set hash compare t k v) j)
        ≡ (if compare j k then some v else value_of (lookup hash compare t j))
  table_set-lookup t k v j is = elim (Option-cases (lookup hash compare t k)) [
    | inl e ↦
        rw (table_set-new t k v e)
          (ap value_of (add_node-lookup hash compare laws t k v j is) ∙ new_match j k v t)
    | inr (n, e) ↦
        let pos = some-pos hash compare laws t k n e in
        let b = bucket_at t.buckets (hash k % t.total_buckets) in
        rw (table_set-old t k v n e) (
          ap value_of (
            lookup-get hash compare laws
              (record t { buckets = changed hash compare laws t k (set_value hash compare k v) }) j
              pos)
          ∙ value-changed hash compare laws t k j (set_value hash compare k v) (some v) is pos (λ i.
            find-set_value hash compare laws i k v b (bucket-Hashed t k is pos) n
              (in_bucket t k n e)))
  ]
    where
      new_match :
          (j k v : Value) (t : Table)
          → value_of (
              if is_match hash compare j (record { key = k; value = v; hash = hash k })
              then some (record { key = k; value = v; hash = hash k })
              else lookup hash compare t j)
            ≡ (if compare j k then some v else value_of (lookup hash compare t j))
      new_match j k v t = unfold is_match in ground (arith, laws.agrees j k)

  absent-same :
      (t : Table) (k j : Value)
      → IsTable hash compare t
      → lookup hash compare t k ≡ none
      → value_of (lookup hash compare t j)
        ≡ (if compare j k then none else value_of (lookup hash compare t j))
  absent-same t k j is e = elim (Bool-cases (compare j k)) [
    | inr c ↦ rw c
    | inl c ↦ rw c (elim (Bool-cases (t.total_buckets == 0)) [
      | inl z ↦ ap value_of (lookup-empty hash compare laws t j (ground arith))
      | inr p ↦
          let pos : 0 < t.total_buckets = ground arith in
          let here = bucket_at t.buckets (hash k % t.total_buckets) in
          ap value_of (
            lookup-get hash compare laws t j pos
            ∙ ap (λ h. find hash compare j (bucket_at t.buckets (h % t.total_buckets)))
                (laws.agrees j k c)
            ∙ find-same hash compare laws j k here (bucket-Hashed t k is pos) c
            ∙ sym (lookup-get hash compare laws t k pos)
            ∙ e)
    ])
  ]

  counted_nodes : (t : Table) → (count_and_grow t).total_nodes ≡ t.total_nodes + 1
  unfolding count_and_grow
  counted_nodes t = ground arith

  -- `table-size` after `table-set!`: one more for a key that was not there, else the same; after
  -- `table-delete!`: one less for a key that was there, else the same.
  pub table_size-changes :
      (t : Table) (k v : Value)
      → (table_size (table_set hash compare t k v)
          ≡ (if found (lookup hash compare t k) then table_size t else table_size t + 1))
        × (table_size (table_unset hash compare t k)
            ≡ (if found (lookup hash compare t k) then table_size t - 1 else table_size t))
  unfolding table_size add_node
  table_size-changes t k v = elim (Option-cases (lookup hash compare t k)) [
    | inl e ↦ (rw (table_set-new t k v e, e) (counted_nodes t), rw (table_unset-new t k e, e))
    | inr (n, e) ↦ (rw (table_set-old t k v n e, e), rw (table_unset-old t k n e, e))
  ]

  -- After `table-delete!` no key that compares equal to `k` is bound, and every other key has what it
  -- had.
  -- The table has the invariant, and its functions obey `Hashing`.
  pub table_unset-lookup :
      (t : Table) (k j : Value)
      → IsTable hash compare t
      → value_of (lookup hash compare (table_unset hash compare t k) j)
        ≡ (if compare j k then none else value_of (lookup hash compare t j))
  table_unset-lookup t k j is = elim (Option-cases (lookup hash compare t k)) [
    | inl e ↦ rw (table_unset-new t k e) (absent-same t k j is e)
    | inr (n, e) ↦
        let pos = some-pos hash compare laws t k n e in
        let i = hash k % t.total_buckets in
        rw (table_unset-old t k n e) (
          ap value_of (
            lookup-get hash compare laws
              (record t {
                total_nodes = t.total_nodes - 1;
                buckets = changed hash compare laws t k (unlink_node hash compare k);
              })
              j pos)
          ∙ value-changed hash compare laws t k j (unlink_node hash compare k) none is pos (λ l.
            find-unlink_node hash compare laws l k (bucket_at t.buckets i)
              (bucket-Hashed t k is pos) (is.chains i (grind arith)).unique n (in_bucket t k n e)))
  ]

  -- A new table is well-formed, and binds no key.
  pub make_table-IsTable : (weak : Bool) → IsTable hash compare (make_table weak)
  unfolding make_table
  make_table-IsTable weak = record {
    size = refl;
    chains = λ i h. elim h [ ];
    count = refl;
    load = omega arith;
  }

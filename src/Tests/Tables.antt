-- ===== src/Tests/Tables.antt =====
-- A table whose hash function sends every symbol to its address and all else to 0.
use librep.Prelude.{
  arith, ℕ, ◌≡◌, ◌∙◌, refl, sym, ap, Bool, true, false, none, some, List, [], ◌∷◌, if◌then◌else◌,
}
use librep.Value.{Value, symbol, eq, eq_iff}
use librep.Tables.{Table, make_table, lookup, table_set, table_unset, table_for_each}
use librep.Tables.Buckets.{Hashing, IsTable}
use librep.Tables.Changes.{value_of}
use librep.Tables.Lookup.{
  make_table-IsTable, table_set-IsTable, table_set-lookup, table_unset-lookup,
}
use librep.Tables.Moving.{flat}
use librep.Tables.Following.{KeysApart}
use librep.Tables.Visits.{run_nodes, run_until, table_for_each-run, table_for_each-until}
use librep.Tests.Memory.{num}

abbrev hash : Value → ℕ
hash (symbol a) = a
hash _ = 0

laws : Hashing hash eq
laws = record {
  agrees = λ a b h. ap hash ((eq_iff a b).0 h);
  itself = λ a. (eq_iff a a).1 refl;
  symmetric = λ a b h. (eq_iff b a).1 (sym ((eq_iff a b).0 h));
  transitive = λ a b c h k. (eq_iff a c).1 ((eq_iff a b).0 h ∙ (eq_iff b c).0 k);
}

abbrev set : Table → Value → Value → Table
set = table_set hash eq

abbrev one : Table
one = set (make_table false) (symbol 5) (num 1)

-- Two keys in one chain, of a table that has grown.
abbrev two : Table
two = set one (symbol 36) (num 2)

one-IsTable : IsTable hash eq one
one-IsTable =
    (table_set-IsTable hash eq laws (make_table false) (symbol 5) (num 1)
      (make_table-IsTable hash eq laws false)).0

two-IsTable : IsTable hash eq two
two-IsTable = (table_set-IsTable hash eq laws one (symbol 36) (num 2) one-IsTable).0

table_set-IsTable_example :
    IsTable hash eq (table_set hash eq two (symbol 67) (num 3))
    × IsTable hash eq (table_unset hash eq two (symbol 67))
table_set-IsTable_example = table_set-IsTable hash eq laws two (symbol 67) (num 3) two-IsTable

table_set-lookup_example :
    value_of (lookup hash eq (table_set hash eq two (symbol 5) (num 3)) (symbol 36)) ≡ (
      if eq (symbol 36) (symbol 5) then some (num 3) else value_of (lookup hash eq two (symbol 36)))
table_set-lookup_example =
    table_set-lookup hash eq laws two (symbol 5) (num 3) (symbol 36) two-IsTable

table_unset-lookup_example :
    value_of (lookup hash eq (table_unset hash eq two (symbol 5)) (symbol 36))
    ≡ (if eq (symbol 36) (symbol 5) then none else value_of (lookup hash eq two (symbol 36)))
table_unset-lookup_example = table_unset-lookup hash eq laws two (symbol 5) (symbol 36) two-IsTable

-- The state of a function: the table, and the values that it has gathered
abbrev State : Type 0
State = Table × List Value

abbrev table_of : State → Table
table_of s = s.0

abbrev gather : State → Value → Value → Bool × State
gather (t, vs) k v = (true, (t, v ∷ vs))

-- A function that takes one value and then fails.
abbrev take_one : State → Value → Value → Bool × State
take_one (t, []) k v = (true, (t, v ∷ []))
take_one (t, u ∷ us) k v = (false, (t, v ∷ u ∷ us))

take_one-keeps : (s : State) (k v : Value) → table_of (take_one s k v).1 ≡ table_of s
take_one-keeps (t, []) k v = refl
take_one-keeps (t, u ∷ us) k v = refl

-- One chain of two nodes.
abbrev pair_table : Table
pair_table = record (make_table false) {
  total_buckets = 1;
  total_nodes = 2;
  buckets =
      (record { key = symbol 36; value = num 2; hash = 36 }
        ∷ record { key = symbol 5; value = num 1; hash = 5 }
        ∷ [])
      ∷ [];
}

pair_table-KeysApart : KeysApart (flat pair_table.buckets)
unfolding flat eq
pair_table-KeysApart = ((refl, tt), (tt, tt))

table_for_each-run_example :
    table_for_each table_of true gather 2 2 (pair_table, [])
    ≡ some (false, run_nodes gather (flat pair_table.buckets) (pair_table, []))
table_for_each-run_example =
    table_for_each-run table_of gather (λ s k v. refl) pair_table 2 refl 2 (pair_table, []) refl
      pair_table-KeysApart (omega arith) (omega arith) true (λ s k v. refl)

table_for_each-until_example :
    table_for_each table_of false take_one 2 2 (pair_table, [])
    ≡ some (run_until take_one (flat pair_table.buckets) (pair_table, []))
table_for_each-until_example =
    table_for_each-until table_of take_one take_one-keeps pair_table 2 refl 2 (pair_table, []) refl
      pair_table-KeysApart (omega arith) (omega arith)

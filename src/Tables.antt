-- ===== src/Tables.antt =====
-- src/tables.c: hash tables of chained nodes. A chain is the list of its nodes, and the buckets are the
-- list of the chains. The table's hash and compare functions are Lisp functions: here they are
-- parameters, functions of their arguments alone.
pub mod Buckets
pub mod Moving
pub mod Places
pub mod Rehash
pub mod Adding
pub mod Replacing
pub mod Lookup
pub mod Changes
pub mod Following
pub mod Visits
pub mod Hashes
use librep.Prelude.{
  ℕ, zero, suc, ◌+◌, ◌-◌, ◌*◌, ◌%◌, Bool, true, false, ◌&&◌, ◌||◌, not, Option, none, some, List,
  [], ◌∷◌, get_or, replicate, leb, ltb, ◌==◌, if◌then◌else◌,
}
use librep.Value.{Value, nil, undefined, of_bool, eq}

pub record Node : Type 0 where
  pub key : Value
  pub value : Value
  pub hash : ℕ

-- `guardian` holds the keys that a weak table has pushed on its guardian.
pub record Table : Type 0 where
  pub total_buckets : ℕ
  pub total_nodes : ℕ
  pub buckets : List (List Node)
  pub guardian : Option (List Value)

abbrev pub bucket_at : List (List Node) → ℕ → List Node
bucket_at bs i = get_or bs i []

-- `make_table`: no bucket is allocated before the first key is set
pub make_table : Bool → Table
make_table weak = record {
  total_buckets = 0;
  total_nodes = 0;
  buckets = [];
  guardian = if weak then some [] else none;
}

-- `n->next = buckets[i]; buckets[i] = n;`
pub push_at : List (List Node) → ℕ → Node → List (List Node)
push_at [] i n = []
push_at (b ∷ bs) zero n = (n ∷ b) ∷ bs
push_at (b ∷ bs) (suc i) n = b ∷ push_at bs i n

-- Another chain in the place of one.
pub replace_at : List (List Node) → ℕ → List Node → List (List Node)
replace_at [] i c = []
replace_at (b ∷ bs) zero c = c ∷ bs
replace_at (b ∷ bs) (suc i) c = b ∷ replace_at bs i c

-- The inner and the outer loop that move the nodes of the old buckets to `size` new ones.
pub move_nodes : ℕ → List Node → List (List Node) → List (List Node)
unfolding push_at
move_nodes size [] bins = bins
move_nodes size (n ∷ ns) bins = move_nodes size ns (push_at bins (n.hash % size) n)

pub move_buckets : ℕ → List (List Node) → List (List Node) → List (List Node)
unfolding move_nodes
move_buckets size [] bins = bins
move_buckets size (b ∷ bs) bins = move_buckets size bs (move_nodes size b bins)

pub next_size : ℕ → ℕ
next_size old_size = if old_size == 0 then 31 else (old_size + 1) * 2 - 1

-- One node more: twice as many nodes as buckets make the table grow.
pub count_and_grow : Table → Table
unfolding move_buckets next_size
count_and_grow t =
    let total = t.total_nodes + 1 in
    let size = next_size t.total_buckets in
    if leb (2 * t.total_buckets) total
    then record t {
      total_nodes = total;
      total_buckets = size;
      buckets = move_buckets size t.buckets (replicate size []);
    }
    else record t { total_nodes = total }

module _ (hash : Value → ℕ) (compare : Value → Value → Bool) where
  -- The test of `lookup`.
  pub is_match : Value → Node → Bool
  is_match key n = n.hash == hash key && compare key n.key

  pub find_node : Value → List Node → Option Node
  unfolding is_match
  find_node key [] = none
  find_node key (n ∷ ns) = if is_match key n then some n else find_node key ns

  pub lookup : Table → Value → Option Node
  unfolding find_node
  lookup t key =
      if t.total_buckets == 0
      then none
      else find_node key (bucket_at t.buckets (hash key % t.total_buckets))

  -- `Ftable_ref` and `Ftable_bound_p`
  pub table_ref : Table → Value → Value
  unfolding lookup
  table_ref t key = elim (lookup t key) [ none ↦ nil | some n ↦ n.value ]

  pub table_bound_p : Table → Value → Value
  unfolding lookup
  table_bound_p t key = elim (lookup t key) [ none ↦ of_bool false | some n ↦ of_bool true ]

  -- `n->value = value` for the node that `lookup` has found in the chain
  pub set_value : Value → Value → List Node → List Node
  unfolding is_match
  set_value key v [] = []
  set_value key v (n ∷ ns) =
      if is_match key n then record n { value = v } ∷ ns else n ∷ set_value key v ns

  -- the node that `lookup` has found is unlinked from the chain
  pub unlink_node : Value → List Node → List Node
  unfolding is_match
  unlink_node key [] = []
  unlink_node key (n ∷ ns) = if is_match key n then ns else n ∷ unlink_node key ns

  pub guard_key : Value → Option (List Value) → Option (List Value)
  guard_key key none = none
  guard_key key (some keys) = some (key ∷ keys)

  -- The branch of `Ftable_set` for a key without a node.
  pub add_node : Table → Value → Value → Table
  unfolding count_and_grow push_at guard_key
  add_node t key v =
      let n : Node = record { key = key; value = v; hash = hash key } in
      let t' = count_and_grow t in
      record t' {
        buckets = push_at t'.buckets (n.hash % t'.total_buckets) n;
        guardian = guard_key key t'.guardian;
      }

  -- The chain of a key.
  pub change_chain : Table → Value → (List Node → List Node) → List (List Node)
  unfolding replace_at
  change_chain t key f =
      let i = hash key % t.total_buckets in replace_at t.buckets i (f (bucket_at t.buckets i))

  -- `Ftable_set`, which returns the undefined value
  pub table_set : Table → Value → Value → Table
  unfolding lookup add_node set_value change_chain
  table_set t key v = elim (lookup t key) [
    | none ↦ add_node t key v
    | some n ↦ record t { buckets = change_chain t key (set_value key v) }
  ]

  -- `Ftable_unset`
  pub table_unset : Table → Value → Table
  unfolding lookup unlink_node change_chain
  table_unset t key = elim (lookup t key) [
    | none ↦ t
    | some n ↦ record t {
      total_nodes = t.total_nodes - 1;
      buckets = change_chain t key (unlink_node key);
    }
  ]

-- `Ftable_size`
pub table_size : Table → ℕ
table_size t = t.total_nodes

-- `n->next` for the node with the key: the nodes behind it
unfoldable pub behind : Value → List Node → Option (List Node)
behind key [] = none
behind key (n ∷ ns) = if eq n.key key then some ns else behind key ns

-- The same in all the chains. A node in none of them was freed by `Ftable_unset`. (One that is freed,
-- and whose key is set again, counts as the new node.)
unfoldable pub next_nodes : Value → List (List Node) → Option (List Node)
unfolding behind
next_nodes key [] = none
next_nodes key (b ∷ bs) = elim (behind key b) [ none ↦ next_nodes key bs | some ns ↦ some ns ]

-- `Ftable_for_each`. The function works on the state, which holds the table too; `call` is one call of
-- it, with `false` for the result 0.
module _ {S : Type 0} (table : S → Table) (bytecode : Bool)
    (call : S → Value → Value → Bool × S) where
  -- `rep_call_lisp2`; `failed` says that `rep_throw_value` is set. `rep_apply` does not call where it is;
  -- a byte-code closure is called all the same.
  unfoldable pub call_lisp2 : Bool × S → Value → Value → Bool × (Bool × S)
  call_lisp2 (failed, s) key v =
      if failed && not bytecode
      then (false, (failed, s))
      else let (done, s') = call s key v in (done, (failed || not done, s'))

  -- The loop over one chain, on fuel, from the nodes that are left of it. `n->next` is read after the
  -- call; a node that is freed has none. The loop ends at the first call that returns 0.
  pub each_node : ℕ → Option (List Node) → Bool × S → Option (Bool × S)
  unfolding call_lisp2 next_nodes
  each_node n none state = none
  each_node n (some []) state = some state
  each_node zero (some (x ∷ xs)) state = none
  each_node (suc n) (some (x ∷ xs)) state =
      let (done, state') = call_lisp2 state x.key x.value in
      let rest = each_node n (next_nodes x.key (table state'.1).buckets) state' in
      if done then rest else some state'

  -- The loop over the buckets, on fuel, whose number is read in each round
  pub each_bucket : ℕ → ℕ → ℕ → Bool × S → Option (Bool × S)
  unfolding each_node
  each_bucket zero n i state = none
  each_bucket (suc k) n i state =
      let chain = each_node n (some (bucket_at (table state.1).buckets i)) state in
      let rest : Option (Bool × S) = elim chain [
        | none ↦ none
        | some state' ↦ each_bucket k n (i + 1) state'
      ] in
      if ltb i (table state.1).total_buckets then rest else some state

  -- whether a throw is pending at the end (0 is returned), and the state; none where a freed node is
  -- read, or the fuel of the buckets or of the chains is used up
  pub table_for_each : ℕ → ℕ → S → Option (Bool × S)
  unfolding each_bucket
  table_for_each k n s = each_bucket k n 0 (false, s)

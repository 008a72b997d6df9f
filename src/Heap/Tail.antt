-- ===== src/Heap/Tail.antt =====
-- The loops of src/lists.c and src/sequences.c that build or edit a list through a pointer to the
-- place of its last cdr: `repv *last = &result; ... *last = v; ... last = rep_CDRLOC(cell);`.
pub mod Linked
pub mod Grown
use librep.Prelude.{◌==◌, if◌then◌else◌}
use librep.Value.{Addr, Value, nil, cons}
use librep.Heap.{Store, update, set_cdr_of, make_cons}

-- `&result`, or the address of a cell's cdr
pub data Place : Type 0 where
  local : Place
  cdr_of : Addr → Place

-- The local variable, the pointer, and the store.
pub record Out : Type 0 where
  pub value : Value
  pub last : Place
  pub store : Store

abbrev pub read_at : Place → Value → Store → Value
read_at local v s = v
read_at (cdr_of a) v s = s.cdr a

-- `*last`
abbrev pub read_last : Out → Value
read_last o = read_at o.last o.value o.store

abbrev pub write_at : Place → Out → Value → Out
write_at local o v = record o { value = v }
write_at (cdr_of a) o v = record o { store = set_cdr_of o.store a v }

-- `*last = v`
abbrev pub write_last : Out → Value → Out
write_last o v = write_at o.last o v

-- `last = rep_CDRLOC(cell)`
abbrev pub move_to : Out → Addr → Out
move_to o c = record o { last = cdr_of c }

-- `repv cell = Fcons(x, rep_nil); *last = cell; last = rep_CDRLOC(cell);`
pub emit : Out → Value → Out
emit o x =
    let (c, s) = make_cons o.store x nil in move_to (write_last (record o { store = s }) (cons c)) c

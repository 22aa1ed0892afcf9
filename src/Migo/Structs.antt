-- ===== src/Migo/Structs.antt =====
-- migoextract/datastructure.go: the fields of structs. An `Instance` is a pointer, here a number. A
-- `Fields` is a slice, which two instances may share: the maps of structs hold its address, and
-- `slices` its elements.
pub mod Shadowed
use dingo_hunter.Prelude.{ℕ, nat_eq, Option, none, some, List, [], lookup, insert, get_elem?, set}
use dingo_hunter.Ssa.{Value}

-- What is read of a `Function`: `locals`, `structs` and `Prog.structs`.
pub record Storage : Type 0 where
  pub locals : List (Value × ℕ)
  pub structs : List (ℕ × ℕ)
  pub prog_structs : List (ℕ × ℕ)
  pub slices : List (ℕ × List (Option ℕ))

-- A field that is nil is `found none`; `out_of_range` is a panic.
pub data Read : Type 0 where
  found : Option ℕ → Read
  invalid_read out_of_range : Read

unfoldable pub fields_of : Option (List (Option ℕ)) → List (Option ℕ)
fields_of none = []
fields_of (some fields) = fields

-- The instance of a variable, and the address of its fields.
unfoldable pub find_fields : Storage → Value → Option (ℕ × ℕ)
find_fields s struc = elim (lookup struc s.locals) [
  | none ↦ none
  | some i ↦ elim (lookup i s.structs) [
    | some a ↦ some (i, a)
    | none ↦ elim (lookup i s.prog_structs) [ none ↦ none | some a ↦ some (i, a) ]
  ]
]

unfoldable pub read_at : Option (Option ℕ) → Read
read_at none = out_of_range
read_at (some field) = found field

unfoldable pub get_at : Option (ℕ × ℕ) → List (ℕ × List (Option ℕ)) → ℕ → Read
unfolding read_at fields_of
get_at none slices idx = invalid_read
get_at (some (i, a)) slices idx = read_at (get_elem? (fields_of (lookup a slices)) idx)

-- `getStructField`
unfoldable pub get_struct_field : Storage → Value → ℕ → Read
unfolding get_at find_fields
get_struct_field s struc idx = get_at (find_fields s struc) s.slices idx

unfoldable pub set_at : Option (ℕ × ℕ) → ℕ → Storage → Option Storage
unfolding fields_of
set_at none idx s = some s
set_at (some (i, a)) idx s =
    let fields = fields_of (lookup a s.slices) in
    elim (get_elem? fields idx) [
      | none ↦ none
      | some old ↦ some (record s { slices = insert a (set fields idx (some i)) s.slices })
    ]

-- `setStructField`; `none` is a panic. The variable `instance` of its first condition shadows the
-- parameter of that name.
unfoldable pub set_struct_field : Storage → Value → ℕ → ℕ → Option Storage
unfolding set_at find_fields
set_struct_field s struc idx instance_given = set_at (find_fields s struc) idx s

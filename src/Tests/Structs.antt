-- ===== src/Tests/Structs.antt =====
-- A struct of migoextract with two fields.
use dingo_hunter.Prelude.{ℕ, ◌≡◌, refl, some, none, [], ◌∷◌, lookup, nat_eq}
use dingo_hunter.Migo.Structs.{
  Storage, found, get_struct_field, set_struct_field, get_at, find_fields, read_at, fields_of,
}
use dingo_hunter.Migo.Structs.Shadowed.{set_struct_field_lem}

-- The variable 1 has the instance 7, whose fields are nil and the instance 8.
abbrev pair : Storage
pair = record {
  locals = (1, 7) ∷ [];
  structs = (7, 0) ∷ [];
  prog_structs = [];
  slices = (0, none ∷ some 8 ∷ []) ∷ [];
}

pair_reads : get_struct_field pair 1 1 ≡ found (some 8)
unfolding get_struct_field get_at find_fields read_at fields_of
pair_reads = refl

set_struct_field_example :
    (i : ℕ) × (lookup 1 pair.locals ≡ some i)
    × ((s' : Storage) × (set_struct_field pair 1 1 9 ≡ some s')
        × (get_struct_field s' 1 1 ≡ found (some i)))
set_struct_field_example = set_struct_field_lem pair 1 1 9 (some 8) pair_reads

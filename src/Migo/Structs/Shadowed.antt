-- ===== src/Migo/Structs/Shadowed.antt =====
-- What `setStructField` (migoextract/datastructure.go) stores.
use dingo_hunter.Prelude.{
  ℕ, suc, zero, ◌≡◌, refl, ap, ◌∙◌, nat_eq, Option, none, some, List, [], ◌∷◌, lookup, insert,
  get_elem?, set, Option-cases, inl, inr, lookup-insert, beq_self,
}
use dingo_hunter.Ssa.{Value}
use dingo_hunter.Migo.Structs.{
  Storage, found, fields_of, find_fields, read_at, get_at, get_struct_field, set_at,
  set_struct_field,
}

get-set {ℓ} :
    {A : Type ℓ} (xs : List A) (i : ℕ) (old v : A)
    → get_elem? xs i ≡ some old
    → get_elem? (set xs i v) i ≡ some v
get-set [] i old v h = cc
get-set (x ∷ xs) zero old v h = refl
get-set (x ∷ xs) (suc i) old v h = get-set xs i old v h

-- A field that can be read has an index within its slice.
at-found :
    (o : Option (ℕ × ℕ)) (s : Storage) (idx : ℕ) (field : Option ℕ)
    → get_at o s.slices idx ≡ found field
    → (i a : ℕ) × (o ≡ some (i, a)) × (get_elem? (fields_of (lookup a s.slices)) idx ≡ some field)
unfolding get_at read_at
at-found none s idx field h = cc
at-found (some (i, a)) s idx field h =
    elim (Option-cases (get_elem? (fields_of (lookup a s.slices)) idx)) [
      | inl e ↦ let impossible = rw (e, read_at) at h in cc
      | inr (f, e) ↦ let same = rw (e, read_at) at h in (i, a, refl, cc)
    ]

-- The instance that is found is that of the variable itself.
find_fields-instance :
    (s : Storage) (struc : Value) (i a : ℕ)
    → find_fields s struc ≡ some (i, a)
    → lookup struc s.locals ≡ some i
unfolding find_fields
find_fields-instance s struc i a h = elim (Option-cases (lookup struc s.locals)) [
  | inl e ↦ let impossible = rw (e, find_fields) at h in cc
  | inr (j, e) ↦ elim (Option-cases (lookup j s.structs)) [
    | inr (b, f) ↦ let same = rw f at (rw (e, find_fields) at h) in cc
    | inl f ↦ elim (Option-cases (lookup j s.prog_structs)) [
      | inr (b, g) ↦ let same = rw g at (rw f at (rw (e, find_fields) at h)) in cc
      | inl g ↦ let impossible = rw g at (rw f at (rw (e, find_fields) at h)) in cc
    ]
  ]
]

set_at-found :
    (s : Storage) (i a idx : ℕ) (field : Option ℕ)
    → get_elem? (fields_of (lookup a s.slices)) idx ≡ some field
    → let fields = set (fields_of (lookup a s.slices)) idx (some i) in
      set_at (some (i, a)) idx s ≡ some (record s { slices = insert a fields s.slices })
unfolding set_at
set_at-found s i a idx field e = rw (e, set_at) refl

-- The slice of the instance then holds the instance itself.
insert-found :
    (slices : List (ℕ × List (Option ℕ))) (i a idx : ℕ) (field : Option ℕ)
    → get_elem? (fields_of (lookup a slices)) idx ≡ some field
    → get_at (some (i, a)) (insert a (set (fields_of (lookup a slices)) idx (some i)) slices) idx
      ≡ found (some i)
unfolding get_at read_at fields_of
insert-found slices i a idx field e =
    let fields = set (fields_of (lookup a slices)) idx (some i) in
    let stored : lookup a (insert a fields slices) ≡ some fields =
      rw (lookup-insert a a fields slices, beq_self a) refl in
    ap (λ o. read_at (get_elem? (fields_of o) idx)) stored
    ∙ ap read_at (get-set (fields_of (lookup a slices)) idx field (some i) e)

-- Setting a field that can be read succeeds, but whatever instance is given, the field then holds
-- the instance of the variable whose field it is.
pub set_struct_field_lem :
    (s : Storage) (struc : Value) (idx instance_given : ℕ) (field : Option ℕ)
    → get_struct_field s struc idx ≡ found field
    → (i : ℕ) × (lookup struc s.locals ≡ some i)
      × ((s' : Storage) × (set_struct_field s struc idx instance_given ≡ some s')
          × (get_struct_field s' struc idx ≡ found (some i)))
unfolding get_struct_field set_struct_field
set_struct_field_lem s struc idx instance_given field h =
    let (i, a, e, at) = at-found (find_fields s struc) s idx field h in
    let slices' = insert a (set (fields_of (lookup a s.slices)) idx (some i)) s.slices in
    (
      i,
      find_fields-instance s struc i a e,
      (
        record s { slices = slices' },
        ap (λ o. set_at o idx s) e ∙ set_at-found s i a idx field at,
        ap (λ o. get_at o slices' idx) e ∙ insert-found s.slices i a idx field at,
      ),
    )

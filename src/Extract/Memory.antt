-- ===== src/Extract/Memory.antt =====
-- cfsmextract/visit.go: the arrays and structs of a frame and of the environment, their elements and
-- fields, and allocations.
use dingo_hunter.Prelude.{
  ℕ, Bool, true, false, Option, none, some, [], ◌∷◌, ◌++◌, lookup, insert, set, length, nat_eq,
  option_eq, if◌then◌else◌,
}
use dingo_hunter.Ssa.{Value}
use dingo_hunter.Definition.{def_eq}
use dingo_hunter.Extract.Program.{
  Shape, array_shape, slice_shape, struct_shape, chan_shape, other_shape,
}
use dingo_hunter.Extract.State.{
  Ref, Kind, nothing, array, chan, struct, local_array, local_struct, untracked, State, nil_pointer,
  wrong_kind, not_struct, not_array, M, pure, throw, ◌>>=◌, ◌>>◌, gets, demand, guard, modify_scope,
  modify_store,
}
use dingo_hunter.Extract.Nodes.{new_def}
use dingo_hunter.Extract.Frames.{or_nil, get, set_local, at_address}

unfoldable pub name_fields : (heap : Bool) → Ref → ℕ → M (Unit {0})
unfolding modify_store modify_scope
name_fields true vd a = modify_store λ st. record st { structs = insert vd a st.structs }
name_fields false vd a = modify_scope λ sc. record sc { structs = insert vd a sc.structs }

-- `structs[vd] = make(Fields)`, of the environment or of the frame.
unfoldable pub new_fields : (heap : Bool) → Ref → M (Unit {0})
unfolding modify_store name_fields
new_fields heap vd = do
  a ← gets (λ s. length s.store.fields)
  modify_store λ st. record st { fields = st.fields ++ [] ∷ [] }
  name_fields heap vd a

unfoldable pub name_elems : (heap : Bool) → Ref → ℕ → M (Unit {0})
unfolding modify_store modify_scope
name_elems true vd a = modify_store λ st. record st { arrays = insert vd a st.arrays }
name_elems false vd a = modify_scope λ sc. record sc { arrays = insert vd a sc.arrays }

-- `arrays[vd] = make(Elems)`
unfoldable pub new_elems : (heap : Bool) → Ref → M (Unit {0})
unfolding modify_store name_elems
new_elems heap vd = do
  a ← gets (λ s. length s.store.elems)
  modify_store λ st. record st { elems = st.elems ++ [] ∷ [] }
  name_elems heap vd a

unfoldable pub set_field : ℕ → ℕ → Ref → M (Unit {0})
unfolding modify_store at_address
set_field a index vd =
    modify_store
      λ st. record st { fields = set st.fields a (insert index vd (at_address st.fields a)) }

unfoldable pub set_elem : ℕ → Value → Ref → M (Unit {0})
unfolding modify_store at_address
set_elem a index vd =
    modify_store
      λ st. record st { elems = set st.elems a (insert index vd (at_address st.elems a)) }

-- The map of a struct or an array that `get` has found in the environment or in the frame.
unfoldable pub struct_address : (heap : Bool) → Ref → State → Option ℕ
struct_address heap vd s = lookup vd (if heap then s.store.structs else s.frame.scope.structs)

unfoldable pub array_address : (heap : Bool) → Ref → State → Option ℕ
array_address heap vd s = lookup vd (if heap then s.store.arrays else s.frame.scope.arrays)

-- An allocation of a struct for a field that is one.
unfoldable pub new_nested : (heap is_struct : Bool) → Ref → M (Unit {0})
unfolding new_fields
new_nested heap true vd = new_fields heap vd
new_nested heap false vd = pure tt

-- A field that is nil is made where it is first used; then the local variable is the field.
unfoldable pub use_field :
    Value → (heap field_is_struct : Bool) → (a index : ℕ) → Ref → M (Unit {0})
unfolding set_field new_nested set_local
use_field v heap field_is_struct a index (some vd) = set_local v (some vd)
use_field v heap field_is_struct a index none = do
  vd ← new_def v
  set_field a index vd
  new_nested heap field_is_struct vd
  set_local v vd

unfoldable pub known_field : Value → (heap field_is_struct : Bool) → ℕ → Ref → M (Unit {0})
unfolding use_field struct_address at_address
known_field v heap field_is_struct index vd = do
  address ← gets (struct_address heap vd)
  a ← demand nil_pointer address
  fields ← gets (λ s. at_address s.store.fields a)
  use_field v heap field_is_struct a index (or_nil (lookup index fields))

-- A struct that is not known: it is made in the environment, with its field.
unfoldable pub external_field : Value → Value → ℕ → (field_is_struct : Bool) → M (Unit {0})
unfolding set_local new_fields set_field new_nested
external_field v struc index field_is_struct = do
  vd ← new_def struc
  set_local struc vd
  a ← gets (λ s. length s.store.fields)
  new_fields true vd
  field ← new_def v
  set_field a index field
  set_local v field
  new_nested true field_is_struct field

unfoldable pub field_at : Value → Value → ℕ → (field_is_struct : Bool) → Ref × Kind → M (Unit {0})
unfolding known_field external_field
field_at v struc index nested (vd, struct) = known_field v true nested index vd
field_at v struc index nested (vd, local_struct) = known_field v false nested index vd
field_at v struc index nested (vd, nothing) = external_field v struc index nested
field_at v struc index nested (vd, untracked) = external_field v struc index nested
field_at v struc index nested (vd, array) = throw wrong_kind
field_at v struc index nested (vd, local_array) = throw wrong_kind
field_at v struc index nested (vd, chan) = throw wrong_kind

-- `visitFieldAddr`
unfoldable pub visit_field_addr :
    Value → Value → ℕ → (is_struct field_is_struct : Bool) → M (Unit {0})
unfolding field_at
visit_field_addr v struc index is_struct nested = do
  guard is_struct not_struct
  found ← gets (get struc)
  field_at v struc index nested found

-- `visitField`, which differs in the types that it asks for only.
unfoldable pub visit_field : Value → Value → ℕ → (is_struct field_is_struct : Bool) → M (Unit {0})
unfolding field_at
visit_field v struc index is_struct nested = do
  guard is_struct not_struct
  found ← gets (get struc)
  field_at v struc index nested found

unfoldable pub use_elem : Value → (a : ℕ) → (index : Value) → Ref → M (Unit {0})
unfolding set_elem set_local
use_elem v a index (some vd) = set_local v (some vd)
use_elem v a index none = do vd ← new_def v; set_elem a index vd; set_local v vd

unfoldable pub known_elem : Value → (heap : Bool) → (index : Value) → Ref → M (Unit {0})
unfolding use_elem array_address at_address
known_elem v heap index vd = do
  address ← gets (array_address heap vd)
  a ← demand nil_pointer address
  elems ← gets (λ s. at_address s.store.elems a)
  use_elem v a index (or_nil (lookup index elems))

unfoldable pub external_elem : Value → Value → (index : Value) → M (Unit {0})
unfolding set_local new_elems set_elem
external_elem v arr index = do
  vd ← new_def arr
  set_local arr vd
  a ← gets (λ s. length s.store.elems)
  new_elems true vd
  elem_def ← new_def v
  set_elem a index elem_def
  set_local v elem_def

unfoldable pub elem_at : Value → Value → (index : Value) → Ref × Kind → M (Unit {0})
unfolding known_elem external_elem
elem_at v arr index (vd, array) = known_elem v true index vd
elem_at v arr index (vd, local_array) = known_elem v false index vd
elem_at v arr index (vd, nothing) = external_elem v arr index
elem_at v arr index (vd, untracked) = external_elem v arr index
elem_at v arr index (vd, struct) = throw wrong_kind
elem_at v arr index (vd, local_struct) = throw wrong_kind
elem_at v arr index (vd, chan) = throw wrong_kind

-- `visitIndexAddr`
unfoldable pub visit_index_addr :
    Value → Value → (index : Value) → (is_indexable : Bool) → M (Unit {0})
unfolding elem_at
visit_index_addr v arr index is_indexable = do
  guard is_indexable not_array
  found ← gets (get arr)
  elem_at v arr index found

-- `visitIndex` asks for other types, and for an element that is a pointer, if the array is external.
unfoldable pub index_at :
    Value → Value → (index : Value) → (is_pointer : Bool) → Ref × Kind → M (Unit {0})
unfolding known_elem external_elem
index_at v arr index is_pointer (vd, array) = known_elem v true index vd
index_at v arr index is_pointer (vd, local_array) = known_elem v false index vd
index_at v arr index is_pointer (vd, nothing) = do
  external_elem v arr index
  guard is_pointer wrong_kind
index_at v arr index is_pointer (vd, untracked) = do
  external_elem v arr index
  guard is_pointer wrong_kind
index_at v arr index is_pointer (vd, struct) = throw wrong_kind
index_at v arr index is_pointer (vd, local_struct) = throw wrong_kind
index_at v arr index is_pointer (vd, chan) = throw wrong_kind

unfoldable pub visit_index :
    Value → Value → (index : Value) → (is_indexable is_pointer : Bool) → M (Unit {0})
unfolding index_at
visit_index v arr index is_indexable is_pointer = do
  guard is_indexable not_array
  found ← gets (get arr)
  index_at v arr index is_pointer found

-- `visitAlloc`
unfoldable pub visit_alloc : Value → Shape → (heap : Bool) → M (Unit {0})
unfolding new_elems new_fields set_local
visit_alloc v array_shape heap = do vd ← new_def v; set_local v vd; new_elems heap vd
visit_alloc v struct_shape heap = do vd ← new_def v; set_local v vd; new_fields heap vd
visit_alloc v chan_shape heap = pure tt
visit_alloc v slice_shape heap = pure tt
visit_alloc v other_shape heap = pure tt

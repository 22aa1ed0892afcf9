-- ===== src/Extract/Keeps/Memory.antt =====
-- The instructions of cfsmextract/visit.go that only move definitions keep what the elementary
-- actions keep.
use dingo_hunter.Prelude.{ℕ, Bool, true, false, none, some, nat_eq, option_eq}
use dingo_hunter.Ssa.{Value}
use dingo_hunter.Definition.{def_eq}
use dingo_hunter.Extract.Program.{
  Shape, array_shape, slice_shape, struct_shape, chan_shape, other_shape,
}
use dingo_hunter.Extract.State.{
  Ref, Kind, nothing, array, chan, struct, local_array, local_struct, untracked,
}
use dingo_hunter.Extract.Memory
use dingo_hunter.Extract.Keeps.{Theory, Quiet, Laws, laws_order}
use dingo_hunter.Extract.Keeps.Rules.{quiet_rules}

module _ {T : Theory} ⦃laws : Laws T⦄ where
  pub keeps_new_fields : (heap : Bool) (vd : Ref) → Quiet T (Memory.new_fields heap vd)
  unfolding Memory.new_fields Memory.name_fields
  keeps_new_fields true vd = search quiet_rules
  keeps_new_fields false vd = search quiet_rules

  pub keeps_new_elems : (heap : Bool) (vd : Ref) → Quiet T (Memory.new_elems heap vd)
  unfolding Memory.new_elems Memory.name_elems
  keeps_new_elems true vd = search quiet_rules
  keeps_new_elems false vd = search quiet_rules

  pub keeps_set_field : (a i : ℕ) (vd : Ref) → Quiet T (Memory.set_field a i vd)
  unfolding Memory.set_field
  keeps_set_field a i vd = search quiet_rules

  pub keeps_set_elem : (a : ℕ) (i : Value) (vd : Ref) → Quiet T (Memory.set_elem a i vd)
  unfolding Memory.set_elem
  keeps_set_elem a i vd = search quiet_rules

  pub keeps_new_nested :
      (heap nested : Bool) (vd : Ref) → Quiet T (Memory.new_nested heap nested vd)
  unfolding Memory.new_nested
  keeps_new_nested heap true vd = search (quiet_rules, keeps_new_fields)
  keeps_new_nested heap false vd = search quiet_rules

  pub keeps_use_field :
      (v : Value) (heap nested : Bool) (a i : ℕ) (vd : Ref)
      → Quiet T (Memory.use_field v heap nested a i vd)
  unfolding Memory.use_field
  keeps_use_field v heap nested a i none = search (quiet_rules, keeps_set_field, keeps_new_nested)
  keeps_use_field v heap nested a i (some vd) = search quiet_rules

  pub keeps_known_field :
      (v : Value) (heap nested : Bool) (i : ℕ) (vd : Ref)
      → Quiet T (Memory.known_field v heap nested i vd)
  unfolding Memory.known_field
  keeps_known_field v heap nested i vd = search (quiet_rules, keeps_use_field)

  pub keeps_external_field :
      (v struc : Value) (i : ℕ) (nested : Bool) → Quiet T (Memory.external_field v struc i nested)
  unfolding Memory.external_field
  keeps_external_field v struc i nested =
      search (quiet_rules, keeps_new_fields, keeps_set_field, keeps_new_nested) depth 12

  pub keeps_field_at :
      (v struc : Value) (i : ℕ) (nested : Bool) (found : Ref × Kind)
      → Quiet T (Memory.field_at v struc i nested found)
  unfolding Memory.field_at
  keeps_field_at v struc i nested (vd, nothing) = search (quiet_rules, keeps_external_field)
  keeps_field_at v struc i nested (vd, array) = search quiet_rules
  keeps_field_at v struc i nested (vd, chan) = search quiet_rules
  keeps_field_at v struc i nested (vd, struct) = search (quiet_rules, keeps_known_field)
  keeps_field_at v struc i nested (vd, local_array) = search quiet_rules
  keeps_field_at v struc i nested (vd, local_struct) = search (quiet_rules, keeps_known_field)
  keeps_field_at v struc i nested (vd, untracked) = search (quiet_rules, keeps_external_field)

  pub keeps_visit_field_addr :
      (v struc : Value) (i : ℕ) (is_struct nested : Bool)
      → Quiet T (Memory.visit_field_addr v struc i is_struct nested)
  unfolding Memory.visit_field_addr
  keeps_visit_field_addr v struc i is_struct nested = search (quiet_rules, keeps_field_at)

  pub keeps_visit_field :
      (v struc : Value) (i : ℕ) (is_struct nested : Bool)
      → Quiet T (Memory.visit_field v struc i is_struct nested)
  unfolding Memory.visit_field
  keeps_visit_field v struc i is_struct nested = search (quiet_rules, keeps_field_at)

  pub keeps_use_elem :
      (v : Value) (a : ℕ) (i : Value) (vd : Ref) → Quiet T (Memory.use_elem v a i vd)
  unfolding Memory.use_elem
  keeps_use_elem v a i none = search (quiet_rules, keeps_set_elem)
  keeps_use_elem v a i (some vd) = search quiet_rules

  pub keeps_known_elem :
      (v : Value) (heap : Bool) (i : Value) (vd : Ref) → Quiet T (Memory.known_elem v heap i vd)
  unfolding Memory.known_elem
  keeps_known_elem v heap i vd = search (quiet_rules, keeps_use_elem)

  pub keeps_external_elem : (v arr i : Value) → Quiet T (Memory.external_elem v arr i)
  unfolding Memory.external_elem
  keeps_external_elem v arr i = search (quiet_rules, keeps_new_elems, keeps_set_elem) depth 12

  pub keeps_elem_at :
      (v arr i : Value) (found : Ref × Kind) → Quiet T (Memory.elem_at v arr i found)
  unfolding Memory.elem_at
  keeps_elem_at v arr i (vd, nothing) = search (quiet_rules, keeps_external_elem)
  keeps_elem_at v arr i (vd, array) = search (quiet_rules, keeps_known_elem)
  keeps_elem_at v arr i (vd, chan) = search quiet_rules
  keeps_elem_at v arr i (vd, struct) = search quiet_rules
  keeps_elem_at v arr i (vd, local_array) = search (quiet_rules, keeps_known_elem)
  keeps_elem_at v arr i (vd, local_struct) = search quiet_rules
  keeps_elem_at v arr i (vd, untracked) = search (quiet_rules, keeps_external_elem)

  pub keeps_visit_index_addr :
      (v arr i : Value) (is_indexable : Bool)
      → Quiet T (Memory.visit_index_addr v arr i is_indexable)
  unfolding Memory.visit_index_addr
  keeps_visit_index_addr v arr i is_indexable = search (quiet_rules, keeps_elem_at)

  keeps_index_at :
      (v arr i : Value) (is_pointer : Bool) (found : Ref × Kind)
      → Quiet T (Memory.index_at v arr i is_pointer found)
  unfolding Memory.index_at
  keeps_index_at v arr i is_pointer (vd, nothing) = search (quiet_rules, keeps_external_elem)
  keeps_index_at v arr i is_pointer (vd, array) = search (quiet_rules, keeps_known_elem)
  keeps_index_at v arr i is_pointer (vd, chan) = search quiet_rules
  keeps_index_at v arr i is_pointer (vd, struct) = search quiet_rules
  keeps_index_at v arr i is_pointer (vd, local_array) = search (quiet_rules, keeps_known_elem)
  keeps_index_at v arr i is_pointer (vd, local_struct) = search quiet_rules
  keeps_index_at v arr i is_pointer (vd, untracked) = search (quiet_rules, keeps_external_elem)

  pub keeps_visit_index :
      (v arr i : Value) (is_indexable is_pointer : Bool)
      → Quiet T (Memory.visit_index v arr i is_indexable is_pointer)
  unfolding Memory.visit_index
  keeps_visit_index v arr i is_indexable is_pointer = search (quiet_rules, keeps_index_at)

  pub keeps_visit_alloc :
      (v : Value) (shape : Shape) (heap : Bool) → Quiet T (Memory.visit_alloc v shape heap)
  unfolding Memory.visit_alloc
  keeps_visit_alloc v array_shape heap = search (quiet_rules, keeps_new_elems)
  keeps_visit_alloc v slice_shape heap = search quiet_rules
  keeps_visit_alloc v struct_shape heap = search (quiet_rules, keeps_new_fields)
  keeps_visit_alloc v chan_shape heap = search quiet_rules
  keeps_visit_alloc v other_shape heap = search quiet_rules

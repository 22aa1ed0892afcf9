-- ===== src/Extract/Keeps/Moves.antt =====
-- The instructions of cfsmextract/visit.go that move definitions to other variables keep what the elementary
-- actions keep.
use dingo_hunter.Prelude.{ℕ, Bool, true, false, Option, none, some, List, nat_eq, option_eq}
use dingo_hunter.Ssa.{Value}
use dingo_hunter.Definition.{def_eq}
use dingo_hunter.Extract.Program.{
  Program, CallCommon, Shape, array_shape, slice_shape, struct_shape, chan_shape, other_shape,
}
use dingo_hunter.Extract.State.{
  Ref, Kind, nothing, array, chan, struct, local_array, local_struct, untracked,
}
use dingo_hunter.Extract.Moves
use dingo_hunter.Extract.Keeps.{Theory, Quiet, Laws, laws_order}
use dingo_hunter.Extract.Keeps.Memory.{keeps_new_fields, keeps_new_elems}
use dingo_hunter.Extract.Keeps.Rules.{
  quietly, keeps_pure, keeps_set_local, forget, keeps_chan_at, quiet_rules,
}

module _ {T : Theory} ⦃laws : Laws T⦄ where
  pub keeps_init_array : (vd : Ref) (a : Option ℕ) → Quiet T (Moves.init_array vd a)
  unfolding Moves.init_array
  keeps_init_array vd none = search (quiet_rules, keeps_new_elems)
  keeps_init_array vd (some a) = search quiet_rules

  pub keeps_init_struct : (vd : Ref) (a : Option ℕ) → Quiet T (Moves.init_struct vd a)
  unfolding Moves.init_struct
  keeps_init_struct vd none = search (quiet_rules, keeps_new_fields)
  keeps_init_struct vd (some a) = search quiet_rules

  pub keeps_init_global : (vd : Ref) (shape : Shape) → Quiet T (Moves.init_global vd shape)
  unfolding Moves.init_global
  keeps_init_global vd array_shape = search (quiet_rules, keeps_init_array)
  keeps_init_global vd slice_shape = search (quiet_rules, keeps_init_array)
  keeps_init_global vd struct_shape = search (quiet_rules, keeps_init_struct)
  keeps_init_global vd chan_shape = search quiet_rules
  keeps_init_global vd other_shape = search quiet_rules

  pub keeps_load_global :
      (prog : Program) (ptr : Value) (is_global : Bool)
      → Quiet T (Moves.load_global prog ptr is_global)
  unfolding Moves.load_global
  keeps_load_global prog ptr true = search (quiet_rules, keeps_init_global)
  keeps_load_global prog ptr false = search quiet_rules

  pub keeps_deref_to : (v : Value) (found : Ref × Kind) → Quiet T (Moves.deref_to v found)
  unfolding Moves.deref_to
  keeps_deref_to v (vd, nothing) = search quiet_rules
  keeps_deref_to v (vd, array) = search quiet_rules
  keeps_deref_to v (vd, chan) = search quiet_rules
  keeps_deref_to v (vd, struct) = search quiet_rules
  keeps_deref_to v (vd, local_array) = search quiet_rules
  keeps_deref_to v (vd, local_struct) = search quiet_rules
  keeps_deref_to v (vd, untracked) = search quiet_rules

  pub keeps_visit_deref :
      (prog : Program) (v ptr : Value) (is_global : Bool)
      → Quiet T (Moves.visit_deref prog v ptr is_global)
  unfolding Moves.visit_deref
  keeps_visit_deref prog v ptr is_global = search (quiet_rules, keeps_load_global, keeps_deref_to)

  pub keeps_set_global : (v : Value) (vd : Ref) → Quiet T (Moves.set_global v vd)
  unfolding Moves.set_global
  keeps_set_global v vd = search quiet_rules

  pub keeps_store_global :
      (addr : Value) (old : Ref) (found : Ref × Kind) → Quiet T (Moves.store_global addr old found)
  unfolding Moves.store_global
  keeps_store_global addr old (vd, nothing) = search quiet_rules
  keeps_store_global addr old (vd, array) = search (quiet_rules, keeps_set_global)
  keeps_store_global addr old (vd, chan) = search quiet_rules
  keeps_store_global addr old (vd, struct) = search (quiet_rules, keeps_set_global)
  keeps_store_global addr old (vd, local_array) = search quiet_rules
  keeps_store_global addr old (vd, local_struct) = search quiet_rules
  keeps_store_global addr old (vd, untracked) = search quiet_rules

  pub keeps_store_local :
      (addr : Value) (old : Ref) (found : Ref × Kind) → Quiet T (Moves.store_local addr old found)
  unfolding Moves.store_local
  keeps_store_local addr old (vd, nothing) = search quiet_rules
  keeps_store_local addr old (vd, array) = search quiet_rules
  keeps_store_local addr old (vd, chan) = search quiet_rules
  keeps_store_local addr old (vd, struct) = search quiet_rules
  keeps_store_local addr old (vd, local_array) = search quiet_rules
  keeps_store_local addr old (vd, local_struct) = search quiet_rules
  keeps_store_local addr old (vd, untracked) = search quiet_rules

  pub keeps_visit_store :
      (addr : Value) (is_global : Bool) (val : Value)
      → Quiet T (Moves.visit_store addr is_global val)
  unfolding Moves.visit_store
  keeps_visit_store addr true val = search (quiet_rules, keeps_store_global)
  keeps_visit_store addr false val = search (quiet_rules, keeps_store_local)

  pub keeps_change_type_to :
      (v : Value) (found : Ref × Kind) → Quiet T (Moves.change_type_to v found)
  unfolding Moves.change_type_to
  keeps_change_type_to v (vd, chan) =
      quietly (keeps_set_local v vd) λ u. quietly (forget (keeps_chan_at vd)) λ ch. keeps_pure
  keeps_change_type_to v (vd, nothing) = search quiet_rules
  keeps_change_type_to v (vd, array) = search quiet_rules
  keeps_change_type_to v (vd, struct) = search quiet_rules
  keeps_change_type_to v (vd, local_array) = search quiet_rules
  keeps_change_type_to v (vd, local_struct) = search quiet_rules
  keeps_change_type_to v (vd, untracked) = search quiet_rules

  pub keeps_visit_change_type : (v x : Value) → Quiet T (Moves.visit_change_type v x)
  unfolding Moves.visit_change_type
  keeps_visit_change_type v x = search (quiet_rules, keeps_change_type_to)

  pub keeps_visit_change_interface : (v x : Value) → Quiet T (Moves.visit_change_interface v x)
  unfolding Moves.visit_change_interface
  keeps_visit_change_interface v x = search quiet_rules

  pub keeps_interface_to : (v : Value) (found : Ref × Kind) → Quiet T (Moves.interface_to v found)
  unfolding Moves.interface_to
  keeps_interface_to v (vd, nothing) = search quiet_rules
  keeps_interface_to v (vd, array) = search quiet_rules
  keeps_interface_to v (vd, chan) = search quiet_rules
  keeps_interface_to v (vd, struct) = search quiet_rules
  keeps_interface_to v (vd, local_array) = search quiet_rules
  keeps_interface_to v (vd, local_struct) = search quiet_rules
  keeps_interface_to v (vd, untracked) = search quiet_rules

  pub keeps_visit_make_interface : (v x : Value) → Quiet T (Moves.visit_make_interface v x)
  unfolding Moves.visit_make_interface
  keeps_visit_make_interface v x = search (quiet_rules, keeps_interface_to)

  pub keeps_visit_slice : (v : Value) → Quiet T (Moves.visit_slice v)
  unfolding Moves.visit_slice
  keeps_visit_slice v = search (quiet_rules, keeps_new_elems)

  pub keeps_visit_make_slice : (v : Value) → Quiet T (Moves.visit_make_slice v)
  unfolding Moves.visit_make_slice
  keeps_visit_make_slice v = search (quiet_rules, keeps_new_elems)

  pub keeps_set_tuple : (v : Value) (vds : List Ref) → Quiet T (Moves.set_tuple v vds)
  unfolding Moves.set_tuple
  keeps_set_tuple v vds = search quiet_rules

  pub keeps_assert_to : (v : Value) (found : Ref × Kind) → Quiet T (Moves.assert_to v found)
  unfolding Moves.assert_to
  keeps_assert_to v (vd, nothing) = search quiet_rules
  keeps_assert_to v (vd, array) = search (quiet_rules, keeps_set_tuple)
  keeps_assert_to v (vd, chan) = search (quiet_rules, keeps_set_tuple)
  keeps_assert_to v (vd, struct) = search (quiet_rules, keeps_set_tuple)
  keeps_assert_to v (vd, local_array) = search (quiet_rules, keeps_set_tuple)
  keeps_assert_to v (vd, local_struct) = search (quiet_rules, keeps_set_tuple)
  keeps_assert_to v (vd, untracked) = search quiet_rules

  pub keeps_visit_type_assert :
      (v x : Value) (is_possible : Bool) → Quiet T (Moves.visit_type_assert v x is_possible)
  unfolding Moves.visit_type_assert
  keeps_visit_type_assert v x true = search (quiet_rules, keeps_assert_to)
  keeps_visit_type_assert v x false = search quiet_rules

  pub keeps_visit_phi :
      (v : Value) (is_chan : Bool) (edges : List Value) → Quiet T (Moves.visit_phi v is_chan edges)
  unfolding Moves.visit_phi
  keeps_visit_phi v true edges = search quiet_rules
  keeps_visit_phi v false edges = search quiet_rules

  pub keeps_visit_make_closure :
      (v : Value) (bindings : List Value) → Quiet T (Moves.visit_make_closure v bindings)
  unfolding Moves.visit_make_closure
  keeps_visit_make_closure v bindings = search quiet_rules

  pub keeps_visit_return : (results : List Value) → Quiet T (Moves.visit_return results)
  unfolding Moves.visit_return
  keeps_visit_return results = search quiet_rules

  pub keeps_visit_defer : (v : Value) (c : CallCommon) → Quiet T (Moves.visit_defer v c)
  unfolding Moves.visit_defer
  keeps_visit_defer v c = search quiet_rules

  pub keeps_test_select :
      (v : Value) (y : Option ℕ) (tuple : Option Value) → Quiet T (Moves.test_select v y tuple)
  unfolding Moves.test_select
  keeps_test_select v y none = search quiet_rules
  keeps_test_select v y (some tuple) = search quiet_rules

  pub keeps_visit_bin_op : (v x : Value) (y : Option ℕ) → Quiet T (Moves.visit_bin_op v x y)
  unfolding Moves.visit_bin_op
  keeps_visit_bin_op v x y = search (quiet_rules, keeps_test_select)

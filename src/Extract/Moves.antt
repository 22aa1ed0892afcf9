-- ===== src/Extract/Moves.antt =====
-- cfsmextract/visit.go: the instructions that only move definitions between the variables of a frame,
-- and what is noted for tuples, closures, results, deferred calls and tests.
pub mod Slices
use dingo_hunter.Prelude.{
  ℕ, Bool, true, false, Option, none, some, List, [], ◌∷◌, ◌++◌, lookup, insert, get_elem?, set,
  length, map, nat_eq, option_eq, if◌then◌else◌,
}
use dingo_hunter.Ssa.{Value}
use dingo_hunter.Definition.{def_eq}
use dingo_hunter.Extract.Program.{
  Program, CallCommon, Shape, array_shape, slice_shape, struct_shape, chan_shape, other_shape,
}
use dingo_hunter.Extract.State.{
  Ref, Kind, nothing, array, chan, struct, local_array, local_struct, untracked, State, nil_pointer,
  out_of_range, wrong_kind, not_struct, not_array, not_constant, M, pure, throw, ◌>>=◌, ◌>>◌, gets,
  demand, guard, modify_scope, modify_store,
}
use dingo_hunter.Extract.Nodes.{new_def, chan_at}
use dingo_hunter.Extract.Memory.{new_fields, new_elems}
use dingo_hunter.Extract.Frames.{or_nil, local_def, get, set_local, at_address, update_defs}

-- The arrays and structs of a global are made where it is first read.
unfoldable pub init_array : Ref → Option ℕ → M (Unit {0})
unfolding new_elems
init_array vd none = new_elems true vd
init_array vd (some a) = pure tt

unfoldable pub init_struct : Ref → Option ℕ → M (Unit {0})
unfolding new_fields
init_struct vd none = new_fields true vd
init_struct vd (some a) = pure tt

unfoldable pub init_global : Ref → Shape → M (Unit {0})
unfolding init_array init_struct
init_global vd array_shape = do known ← gets (λ s. lookup vd s.store.arrays); init_array vd known
init_global vd slice_shape = do known ← gets (λ s. lookup vd s.store.arrays); init_array vd known
init_global vd struct_shape = do known ← gets (λ s. lookup vd s.store.structs); init_struct vd known
init_global vd chan_shape = pure tt
init_global vd other_shape = pure tt

-- The first part of `visitDeref`, on a global: its definition must not be nil.
unfoldable pub load_global : Program → (ptr : Value) → (is_global : Bool) → M (Unit {0})
unfolding set_local init_global
load_global prog ptr false = pure tt
load_global prog ptr true = do
  vd ← gets (λ s. or_nil (lookup ptr s.store.globals))
  set_local ptr vd
  d ← demand nil_pointer vd
  init_global vd (prog.pointee d.var)

unfoldable pub deref_to : Value → Ref × Kind → M (Unit {0})
unfolding set_local
deref_to v (vd, array) = set_local v vd
deref_to v (vd, local_array) = set_local v vd
deref_to v (vd, struct) = set_local v vd
deref_to v (vd, local_struct) = set_local v vd
deref_to v (vd, chan) = set_local v vd
deref_to v (vd, nothing) = pure tt
deref_to v (vd, untracked) = pure tt

-- `visitDeref`
unfoldable pub visit_deref : Program → Value → (ptr : Value) → (is_global : Bool) → M (Unit {0})
unfolding load_global deref_to
visit_deref prog v ptr is_global = do
  load_global prog ptr is_global
  found ← gets (get ptr)
  deref_to v found

unfoldable pub set_global : Value → Ref → M (Unit {0})
unfolding modify_store
set_global v vd = modify_store λ st. record st { globals = insert v vd st.globals }

-- `visitStore` to a global; `old` is its definition before.
unfoldable pub store_global : (addr : Value) → (old : Ref) → Ref × Kind → M (Unit {0})
unfolding set_global
store_global addr old (vd, array) = do set_global addr vd; update_defs old vd
store_global addr old (vd, struct) = do set_global addr vd; update_defs old vd
store_global addr old (vd, kind) = pure tt

-- `visitStore` elsewhere.
unfoldable pub store_local : (addr : Value) → (old : Ref) → Ref × Kind → M (Unit {0})
unfolding set_local
store_local addr old (vd, nothing) = pure tt
store_local addr old (vd, untracked) = set_local addr vd
store_local addr old (vd, array) = do set_local addr vd; update_defs old vd
store_local addr old (vd, local_array) = do set_local addr vd; update_defs old vd
store_local addr old (vd, chan) = do set_local addr vd; update_defs old vd
store_local addr old (vd, struct) = do set_local addr vd; update_defs old vd
store_local addr old (vd, local_struct) = do set_local addr vd; update_defs old vd

-- `visitStore`
unfoldable pub visit_store : (addr : Value) → (is_global : Bool) → (val : Value) → M (Unit {0})
unfolding store_global store_local
visit_store addr true val = do
  old ← gets (λ s. or_nil (lookup addr s.store.globals))
  found ← gets (get val)
  store_global addr old found
visit_store addr false val = do
  (old, kind) ← gets (get addr)
  found ← gets (get val)
  store_local addr old found

unfoldable pub change_type_to : Value → Ref × Kind → M (Unit {0})
unfolding set_local
change_type_to v (vd, chan) = do set_local v vd; ch ← chan_at vd; pure tt
change_type_to v (vd, nothing) = pure tt
change_type_to v (vd, kind) = set_local v vd

-- `visitChangeType`
unfoldable pub visit_change_type : Value → (x : Value) → M (Unit {0})
unfolding change_type_to
visit_change_type v x = do found ← gets (get x); change_type_to v found

-- `visitChangeInterface`
unfoldable pub visit_change_interface : Value → (x : Value) → M (Unit {0})
unfolding set_local
visit_change_interface v x = do vd ← gets (λ s. local_def x s.frame.scope); set_local v vd

unfoldable pub interface_to : Value → Ref × Kind → M (Unit {0})
unfolding set_local
interface_to v (vd, struct) = set_local v vd
interface_to v (vd, local_struct) = set_local v vd
interface_to v (vd, array) = set_local v vd
interface_to v (vd, local_array) = set_local v vd
interface_to v (vd, kind) = pure tt

-- `visitMakeInterface`
unfoldable pub visit_make_interface : Value → (x : Value) → M (Unit {0})
unfolding interface_to
visit_make_interface v x = do found ← gets (get x); interface_to v found

-- `visitSlice`
unfoldable pub visit_slice : Value → M (Unit {0})
unfolding new_elems
visit_slice v = do vd ← new_def v; new_elems true vd

-- `visitMakeSlice`
unfoldable pub visit_make_slice : Value → M (Unit {0})
unfolding new_elems
visit_make_slice v = do vd ← new_def v; new_elems true vd

unfoldable pub set_tuple : Value → List Ref → M (Unit {0})
unfolding modify_scope
set_tuple v vds = modify_scope λ sc. record sc { tuples = insert v vds sc.tuples }

unfoldable pub assert_to : Value → Ref × Kind → M (Unit {0})
unfolding set_tuple
assert_to v (vd, nothing) = pure tt
assert_to v (vd, untracked) = pure tt
assert_to v (vd, kind) = set_tuple v (vd ∷ none ∷ [])

-- `visitTypeAssert`
unfoldable pub visit_type_assert : Value → (x : Value) → (is_possible : Bool) → M (Unit {0})
unfolding assert_to
visit_type_assert v x true = do found ← gets (get x); assert_to v found
visit_type_assert v x false = pure tt

-- `visitPhi`
unfoldable pub visit_phi : Value → (is_chan : Bool) → List Value → M (Unit {0})
unfolding set_local modify_scope
visit_phi v false edges = pure tt
visit_phi v true edges = do
  first ← demand out_of_range (get_elem? edges 0)
  (vd, kind) ← gets (get first)
  set_local v vd
  modify_scope λ sc. record sc { phi = insert v edges sc.phi }

-- `visitMakeClosure`
unfoldable pub visit_make_closure : Value → List Value → M (Unit {0})
unfolding modify_store
visit_make_closure v bindings = do
  sc ← gets (λ s. s.frame.scope)
  modify_store
      λ st. record st { closures = insert v (map (λ b. local_def b sc) bindings) st.closures }

-- `visitReturn`, and `fr.retvals` set to its result.
unfoldable pub visit_return : List Value → M (Unit {0})
unfolding modify_scope
visit_return results = modify_scope λ sc. record sc { retvals = map (λ r. local_def r sc) results }

-- `visitDefer`
unfoldable pub visit_defer : Value → CallCommon → M (Unit {0})
unfolding modify_scope
visit_defer returned c = modify_scope λ sc. record sc { defers = sc.defers ++ (returned, c) ∷ [] }

-- `visitBinOp` for `==`, on the index of a select.
unfoldable pub test_select : Value → (y : Option ℕ) → (tuple : Option Value) → M (Unit {0})
unfolding modify_store
test_select v y none = pure tt
test_select v y (some tuple) = do
  branch ← demand not_constant y
  modify_store λ st. record st { sel_test = insert v (branch, tuple) st.sel_test }

unfoldable pub visit_bin_op : Value → (x : Value) → (y : Option ℕ) → M (Unit {0})
unfolding test_select
visit_bin_op v x y = do tuple ← gets (λ s. lookup x s.store.sel_idx); test_select v y tuple

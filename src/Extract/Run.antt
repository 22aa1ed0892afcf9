-- ===== src/Extract/Run.antt =====
-- cfsmextract: the visits of blocks and functions, branches and calls (visit.go, func.go), and the
-- run over the goroutines (cfsmextract.go). Visits are on fuel; each block takes one.
use dingo_hunter.Prelude.{
  ℕ, suc, zero, ◌+◌, Bool, true, false, String, Option, none, some, List, [], ◌∷◌, ◌++◌, lookup,
  nat_eq, option_eq, ltb, not, ◌&&◌, if◌then◌else◌,
}
use dingo_hunter.Ssa.{Value}
use dingo_hunter.Definition.{Definition, def_eq}
use dingo_hunter.SessType.Node.{Role, role_eq, Chan, chan_type}
use dingo_hunter.SessType.Session.{get_role}
use dingo_hunter.Extract.Program.{
  Program, Callee, CallCommon, GoCall, Instr, Shape, array_shape, slice_shape, struct_shape,
  chan_shape, other_shape, close_builtin, copy_builtin, other_builtin, closure_value, unknown,
  function, invoke,
}
use dingo_hunter.Extract.Program
use dingo_hunter.Extract.State.{
  Ref, Kind, struct, local_struct, Scope, Goroutine, label, goto, empty_body, nil_pointer, nil_leaf,
  not_channel, bad_successors, abstract_method, no_select, out_of_fuel, M, pure, throw, continue,
  ◌>>=◌, ◌>>◌, gets, demand,
}
use dingo_hunter.Extract.Nodes.{
  set_leaf, add_node, new_gortn, mark_visited, leaf_to_child, count_children, push_leaf,
  leaf_to_top, pop_parent,
}
use dingo_hunter.Extract.Frames.{
  get, add_receiver, translate, is_recursive, handle_retvals, handle_ext_retvals,
}
use dingo_hunter.Extract.Memory.{
  visit_field_addr, visit_field, visit_index_addr, visit_index, visit_alloc,
}
use dingo_hunter.Extract.Moves.{
  visit_deref, visit_store, visit_change_type, visit_change_interface, visit_make_interface,
  visit_slice, visit_make_slice, visit_type_assert, visit_phi, visit_make_closure, visit_return,
  visit_defer, visit_bin_op,
}
use dingo_hunter.Extract.Comm.{
  add_chan_node, recv_label, visit_make_chan, visit_send, visit_recv, call_close, call_copy,
  visit_select, visit_extract,
}

-- A callee runs in a frame of its own, of the same goroutine; the frame of the caller comes back.
unfoldable pub in_frame : {A : Type 0} → Scope → M A → M (A × Scope)
in_frame sc m s =
    continue (m (record s { frame = record { scope = sc; recvok = [] } }))
      λ a s'. pure (a, s'.frame.scope) (record s' { frame = s.frame })

-- Any other branch: both sides hang below the leaf, which is kept on the stack of parents.
unfoldable pub branch : M (Unit {0}) → M (Unit {0}) → M (Unit {0})
unfolding push_leaf leaf_to_top add_node pop_parent
branch visit_then visit_else = do
  push_leaf
  leaf_to_top
  a ← add_node empty_body
  visit_then
  leaf_to_top
  b ← add_node empty_body
  visit_else
  pop_parent

-- `callGo`, on its way: the goroutine is put into the queue.
unfoldable pub enqueue : Scope → Goroutine → M (Unit {0})
enqueue sc g s =
    pure tt (record s { go_queue = s.go_queue ++ (record { scope = sc; recvok = [] }, g) ∷ [] })

unfoldable pub new_role : String → M Role
new_role name s =
    let (role, session) = get_role s.session name in pure role (record s { session = session })

module _ (prog : Program) (visit : ℕ → M (Unit {0})) where
  -- `visitFunc`: whether there is code.
  unfoldable pub visit_body : Option ℕ → M Bool
  visit_body none = pure false
  visit_body (some blk) = do visit blk; pure true

  unfoldable pub visit_func : ℕ → M Bool
  unfolding visit_body
  visit_func fn = visit_body (prog.entry fn)

  unfoldable pub return_to : Value → ℕ → Bool × Scope → M (Unit {0})
  unfolding handle_retvals handle_ext_retvals
  return_to returned fn (true, callee) = handle_retvals returned callee
  return_to returned fn (false, callee) = handle_ext_retvals returned (prog.results fn)

  -- A call that is not recursive.
  unfoldable pub run_callee : Value → ℕ → Scope → (is_rec : Bool) → M (Unit {0})
  unfolding in_frame visit_func return_to
  run_callee returned fn sc true = pure tt
  run_callee returned fn sc false = do
    result ← in_frame sc (visit_func fn)
    return_to returned fn result

  unfoldable pub call_function : Value → ℕ → CallCommon → M (Unit {0})
  unfolding translate is_recursive run_callee
  call_function returned fn c = do
    sc ← translate prog fn c
    run_callee returned fn sc (is_recursive sc.fn sc.callers)

  -- The method that an interface value has for its definition; it gets the value as receiver.
  unfoldable pub call_method :
      Value → CallCommon → ℕ → Definition → (implements : Bool) → M (Unit {0})
  unfolding call_function add_receiver
  call_method returned c method d false = pure tt
  call_method returned c method d true = do
    fn ← demand abstract_method (prog.lookup_method d.var method)
    add_receiver c
    call_function returned fn c

  unfoldable pub invoke_on :
      Value → CallCommon → (is_interface : Bool) → ℕ → Ref × Kind → M (Unit {0})
  unfolding call_method
  invoke_on returned c true method (vd, struct) = do
    d ← demand nil_pointer vd
    call_method returned c method d (prog.implements d.var method)
  invoke_on returned c true method (vd, local_struct) = do
    d ← demand nil_pointer vd
    call_method returned c method d (prog.implements d.var method)
  invoke_on returned c is_interface method found = pure tt

  -- `callCommon`
  unfoldable pub call_common : Value → CallCommon → Callee → M (Unit {0})
  unfolding call_function invoke_on
  call_common returned c close_builtin = call_close c.args
  call_common returned c copy_builtin = call_copy c.args
  call_common returned c other_builtin = pure tt
  call_common returned c closure_value = pure tt
  call_common returned c unknown = pure tt
  call_common returned c (function fn) = call_function returned fn c
  call_common returned c (invoke is_interface method) = do
    found ← gets (get c.value)
    invoke_on returned c is_interface method found

  -- `visitRunDefers`: from the last.
  unfoldable pub run_defers : List (Value × CallCommon) → M (Unit {0})
  unfolding call_common
  run_defers [] = pure tt
  run_defers ((returned, c) ∷ rest) = do run_defers rest; call_common returned c c.callee

  -- `callGo`
  unfoldable pub call_go : GoCall → M (Unit {0})
  unfolding new_role new_gortn translate enqueue
  call_go g = do
    role ← new_role g.name
    gortn ← new_gortn role (label g.name)
    fn ← demand nil_pointer g.static_callee
    sc ← translate prog fn g.common
    enqueue sc gortn

  -- The two branches of a receive that tests whether the channel is open.
  unfoldable pub visit_recv_test : Option ℕ → Chan → ℕ → ℕ → M (Unit {0})
  unfolding set_leaf add_chan_node recv_label
  visit_recv_test parent ch then_block else_block = do
    t ← demand not_channel (chan_type prog.ssa ch)
    set_leaf parent
    add_chan_node (recv_label false (some t) false ch)
    visit then_block
    set_leaf parent
    add_chan_node (recv_label false (some t) true ch)
    visit else_block

  -- After the first branch of a select the leaf becomes the next child of the select, if that is
  -- not blocking and has one.
  unfoldable pub next_branch : Option ℕ → (blocking : Bool) → ℕ → ℕ → M (Unit {0})
  unfolding leaf_to_child
  next_branch parent blocking idx children =
      if not blocking && ltb (idx + 1) children then leaf_to_child parent (idx + 1) else pure tt

  unfoldable pub visit_sel_test : ℕ → Option ℕ × Bool → ℕ → ℕ → M (Unit {0})
  unfolding leaf_to_child count_children next_branch
  visit_sel_test idx (parent, blocking) then_block else_block = do
    leaf_to_child parent idx
    visit then_block
    children ← count_children parent
    next_branch parent blocking idx children
    visit else_block

  unfoldable pub visit_cond : Option (ℕ × Value) → ℕ → ℕ → M (Unit {0})
  unfolding visit_sel_test branch
  visit_cond none then_block else_block = branch (visit then_block) (visit else_block)
  visit_cond (some (idx, tuple)) then_block else_block = do
    sel ← gets (λ s. lookup tuple s.graph.sel_node)
    parent ← demand no_select sel
    visit_sel_test idx parent then_block else_block

  unfoldable pub visit_branches : Value → Option Chan → ℕ → ℕ → M (Unit {0})
  unfolding visit_recv_test visit_cond
  visit_branches cond (some ch) then_block else_block = do
    parent ← gets (λ s. s.gortn.leaf)
    visit_recv_test parent ch then_block else_block
  visit_branches cond none then_block else_block = do
    test ← gets (λ s. lookup cond s.store.sel_test)
    visit_cond test then_block else_block

  -- `visitIf`
  unfoldable pub visit_if : Value → List ℕ → M (Unit {0})
  unfolding visit_branches
  visit_if cond (then_block ∷ else_block ∷ []) = do
    leaf ← gets (λ s. s.gortn.leaf)
    a ← demand nil_leaf leaf
    ch ← gets (λ s. lookup cond s.recv_test)
    visit_branches cond ch then_block else_block
  visit_if cond succs = throw bad_successors

  -- `visitJump`
  unfoldable pub visit_jump : List ℕ → M (Unit {0})
  visit_jump (blk ∷ []) = visit blk
  visit_jump succs = throw bad_successors

  -- `visitInst`
  unfoldable pub visit_inst : Instr → M (Unit {0})
  visit_inst (Program.make_chan v) = visit_make_chan prog v
  visit_inst (Program.send x typ) = visit_send x typ
  visit_inst (Program.recv v x typ comma_ok) = visit_recv v x typ comma_ok
  visit_inst (Program.deref v ptr is_global) = visit_deref prog v ptr is_global
  visit_inst (Program.call returned c) = call_common returned c c.callee
  visit_inst (Program.extract v tuple index shape) = visit_extract v tuple index shape
  visit_inst (Program.go g) = call_go g
  visit_inst (Program.ret results) = visit_return results
  visit_inst (Program.store addr is_global val) = visit_store addr is_global val
  visit_inst (Program.alloc v shape heap) = visit_alloc v shape heap
  visit_inst (Program.make_closure v bindings) = visit_make_closure v bindings
  visit_inst (Program.select v blocking states) = visit_select v blocking states
  visit_inst (Program.change_type v x) = visit_change_type v x
  visit_inst (Program.change_interface v x) = visit_change_interface v x
  visit_inst (Program.if_instr cond succs) = visit_if cond succs
  visit_inst (Program.jump succs) = visit_jump succs
  visit_inst (Program.equals v x y) = visit_bin_op v x y
  visit_inst (Program.slice v) = visit_slice v
  visit_inst (Program.make_slice v) = visit_make_slice v
  visit_inst (Program.field_addr v struc i is_struct nested) =
      visit_field_addr v struc i is_struct nested
  visit_inst (Program.field v struc i is_struct nested) = visit_field v struc i is_struct nested
  visit_inst (Program.index_addr v arr i is_indexable) = visit_index_addr v arr i is_indexable
  visit_inst (Program.index v arr i is_indexable is_pointer) =
      visit_index v arr i is_indexable is_pointer
  visit_inst (Program.defer returned c) = visit_defer returned c
  visit_inst Program.run_defers = do defers ← gets (λ s. s.frame.scope.defers); run_defers defers
  visit_inst (Program.phi v is_chan edges) = visit_phi v is_chan edges
  visit_inst (Program.type_assert v x is_possible) = visit_type_assert v x is_possible
  visit_inst (Program.make_interface v x) = visit_make_interface v x
  visit_inst Program.other = pure tt

  unfoldable pub visit_insts : List Instr → M (Unit {0})
  unfolding visit_inst
  visit_insts [] = pure tt
  visit_insts (i ∷ is) = do visit_inst i; visit_insts is

  -- A block with more than one predecessor gets a label when it is first visited, and a goto to it
  -- afterwards.
  unfoldable pub enter_labelled : ℕ → Program.Block → Option ℕ → M (Unit {0})
  unfolding add_node mark_visited visit_insts
  enter_labelled blk b (some n) = do g ← add_node (goto b.label); pure tt
  enter_labelled blk b none = do
    n ← add_node (label b.label)
    mark_visited blk n
    visit_insts b.instrs

  unfoldable pub enter_block : ℕ → Program.Block → M (Unit {0})
  unfolding enter_labelled visit_insts
  enter_block blk b =
      if ltb 1 b.preds
      then (gets (λ s. lookup blk s.gortn.visited) >>= enter_labelled blk b)
      else visit_insts b.instrs

-- `visitBlock`
unfoldable pub visit_block : Program → ℕ → ℕ → M (Unit {0})
unfolding enter_block
visit_block prog zero blk = λ s. out_of_fuel
visit_block prog (suc fuel) blk = enter_block prog (visit_block prog fuel) blk (prog.block blk)

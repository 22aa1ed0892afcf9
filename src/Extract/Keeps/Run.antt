-- ===== src/Extract/Keeps/Run.antt =====
-- The visits of blocks and functions, branches and calls of cfsmextract (visit.go, func.go) keep
-- what the elementary actions keep.
use dingo_hunter.Prelude.{
  ℕ, ◌+◌, refl, Bool, true, false, Option, none, some, List, [], ◌∷◌, lookup, nat_eq, option_eq,
  ltb, not, ◌&&◌,
}
use dingo_hunter.Ssa.{Value}
use dingo_hunter.Definition.{Definition, def_eq}
use dingo_hunter.SessType.Node.{Chan}
use dingo_hunter.Extract.Program.{
  Program, Callee, CallCommon, GoCall, close_builtin, copy_builtin, other_builtin, closure_value,
  unknown, function, invoke,
}
use dingo_hunter.Extract.State.{
  Ref, Kind, nothing, array, chan, struct, local_array, local_struct, untracked, Scope, M,
}
use dingo_hunter.Extract.Nodes.{count_children, read_var}
use dingo_hunter.Extract.Frames.{
  translate, handle_retvals, handle_ext_retvals, register_result, is_recursive,
}
use dingo_hunter.Extract.Comm.{recv_label}
use dingo_hunter.Extract.Run
use dingo_hunter.Extract.Keeps.{Theory, Keeps, Quiet, Laws, AtChan, laws_order}
use dingo_hunter.Extract.Keeps.Rules.{
  bind, quietly, keeps_throw, keeps_pure, keeps_gets, keeps_demand, forget, still, retain, keeps_if,
  keeps_look, at_chan, keeps_in_frame, keeps_read_var, quiet_rules,
}
use dingo_hunter.Extract.Keeps.Comm.{keeps_call_close, keeps_call_copy, keeps_add_chan_node}

module _ {T : Theory} ⦃laws : Laws T⦄ where
  pub keeps_translate : (prog : Program) (fn : ℕ) (c : CallCommon) → Quiet T (translate prog fn c)
  unfolding translate
  keeps_translate prog fn c = search quiet_rules

  pub keeps_register_result :
      (returned : Value) (results : List Bool) → Quiet T (register_result returned results)
  unfolding register_result
  keeps_register_result returned [] = keeps_pure
  keeps_register_result returned (true ∷ []) =
      quietly (forget (laws.on_register true returned)) λ r. keeps_pure
  keeps_register_result returned (false ∷ []) = keeps_pure
  keeps_register_result returned (true ∷ r ∷ results) = keeps_pure
  keeps_register_result returned (false ∷ r ∷ results) = keeps_pure

  pub keeps_handle_ext_retvals :
      (returned : Value) (results : List Bool) → Quiet T (handle_ext_retvals returned results)
  unfolding handle_ext_retvals
  keeps_handle_ext_retvals returned [] = keeps_pure
  keeps_handle_ext_retvals returned (r ∷ results) = search (quiet_rules, keeps_register_result)

  pub keeps_count_children : (parent : Option ℕ) → Quiet T (count_children parent)
  unfolding count_children read_var
  keeps_count_children parent = search (quiet_rules, keeps_read_var)

module _ {T : Theory} ⦃laws : Laws T⦄ (prog : Program) (visit : ℕ → M (Unit {0}))
    (keeps_visit : (blk : ℕ) → Quiet T (visit blk)) where
  pub keeps_visit_body : (entry : Option ℕ) → Quiet T (Run.visit_body prog visit entry)
  unfolding Run.visit_body
  keeps_visit_body none = keeps_pure
  keeps_visit_body (some blk) = quietly (keeps_visit blk) λ u. keeps_pure

  keeps_return_to :
      (returned : Value) (fn : ℕ) (result : Bool × Scope)
      → Quiet T (Run.return_to prog visit returned fn result)
  unfolding Run.return_to handle_retvals handle_ext_retvals
  keeps_return_to returned fn (true, callee) = laws.on_modify_scope _
  keeps_return_to returned fn (false, callee) = keeps_handle_ext_retvals returned (prog.results fn)

  keeps_run_callee :
      (returned : Value) (fn : ℕ) (sc : Scope) (is_rec : Bool)
      → Quiet T (Run.run_callee prog visit returned fn sc is_rec)
  unfolding Run.run_callee Run.visit_func
  keeps_run_callee returned fn sc true = keeps_pure
  keeps_run_callee returned fn sc false =
      quietly (keeps_in_frame sc (keeps_visit_body (prog.entry fn))) (keeps_return_to returned fn)

  keeps_call_function :
      (returned : Value) (fn : ℕ) (c : CallCommon)
      → Quiet T (Run.call_function prog visit returned fn c)
  unfolding Run.call_function
  keeps_call_function returned fn c =
      quietly (keeps_translate prog fn c)
        λ sc. keeps_run_callee returned fn sc (is_recursive sc.fn sc.callers)

  keeps_call_method :
      (returned : Value) (c : CallCommon) (method : ℕ) (d : Definition) (implements : Bool)
      → Quiet T (Run.call_method prog visit returned c method d implements)
  unfolding Run.call_method
  keeps_call_method returned c method d false = keeps_pure
  keeps_call_method returned c method d true = search (quiet_rules, keeps_call_function)

  keeps_invoke_on :
      (returned : Value) (c : CallCommon) (is_interface : Bool) (method : ℕ) (found : Ref × Kind)
      → Quiet T (Run.invoke_on prog visit returned c is_interface method found)
  unfolding Run.invoke_on
  keeps_invoke_on returned c true method (vd, struct) = search (quiet_rules, keeps_call_method)
  keeps_invoke_on returned c true method (vd, local_struct) =
      search (quiet_rules, keeps_call_method)
  keeps_invoke_on returned c true method (vd, nothing) = keeps_pure
  keeps_invoke_on returned c true method (vd, array) = keeps_pure
  keeps_invoke_on returned c true method (vd, chan) = keeps_pure
  keeps_invoke_on returned c true method (vd, local_array) = keeps_pure
  keeps_invoke_on returned c true method (vd, untracked) = keeps_pure
  keeps_invoke_on returned c false method (vd, nothing) = keeps_pure
  keeps_invoke_on returned c false method (vd, array) = keeps_pure
  keeps_invoke_on returned c false method (vd, chan) = keeps_pure
  keeps_invoke_on returned c false method (vd, local_array) = keeps_pure
  keeps_invoke_on returned c false method (vd, untracked) = keeps_pure
  keeps_invoke_on returned c false method (vd, struct) = keeps_pure
  keeps_invoke_on returned c false method (vd, local_struct) = keeps_pure

  pub keeps_call_common :
      (returned : Value) (c : CallCommon) (callee : Callee)
      → Quiet T (Run.call_common prog visit returned c callee)
  unfolding Run.call_common
  keeps_call_common returned c close_builtin = keeps_call_close c.args
  keeps_call_common returned c copy_builtin = keeps_call_copy c.args
  keeps_call_common returned c other_builtin = keeps_pure
  keeps_call_common returned c closure_value = keeps_pure
  keeps_call_common returned c unknown = keeps_pure
  keeps_call_common returned c (function fn) = keeps_call_function returned fn c
  keeps_call_common returned c (invoke is_interface method) =
      quietly (keeps_gets _) (keeps_invoke_on returned c is_interface method)

  pub keeps_run_defers :
      (defers : List (Value × CallCommon)) → Quiet T (Run.run_defers prog visit defers)
  unfolding Run.run_defers
  keeps_run_defers [] = keeps_pure
  keeps_run_defers ((returned, c) ∷ rest) =
      quietly (keeps_run_defers rest) λ u. keeps_call_common returned c c.callee

  pub keeps_call_go : (g : GoCall) → Quiet T (Run.call_go prog visit g)
  unfolding Run.call_go
  keeps_call_go g = quietly (laws.on_new_role g.name) λ role.
      quietly (laws.on_new_gortn role g.name) λ gortn.
        quietly (keeps_demand _ g.static_callee)
          λ fn. quietly (keeps_translate prog fn g.common) λ sc. laws.on_enqueue sc gortn

  keeps_visit_recv_test :
      (parent : Option ℕ) (ch : Chan) (then_block else_block : ℕ)
      → Keeps T
          (λ s. T.Known s ch)
          (λ u s. Unit)
          (Run.visit_recv_test prog visit parent ch then_block else_block)
  unfolding Run.visit_recv_test recv_label
  keeps_visit_recv_test parent ch then_block else_block = bind (still (keeps_demand _ _)) λ t.
      bind (still (laws.on_set_leaf parent)) λ u.
        bind (retain (keeps_add_chan_node _ ch λ role. refl)) λ u.
          bind (still (keeps_visit then_block)) λ u.
            bind (still (laws.on_set_leaf parent))
              λ u. bind (keeps_add_chan_node _ ch λ role. refl) λ u. keeps_visit else_block

  keeps_next_branch :
      (parent : Option ℕ) (blocking : Bool) (idx children : ℕ)
      → Quiet T (Run.next_branch prog visit parent blocking idx children)
  unfolding Run.next_branch
  keeps_next_branch parent blocking idx children =
      keeps_if (not blocking && ltb (idx + 1) children) (laws.on_leaf_to_child parent (idx + 1))
        keeps_pure

  keeps_visit_sel_test :
      (idx : ℕ) (sel : Option ℕ × Bool) (then_block else_block : ℕ)
      → Quiet T (Run.visit_sel_test prog visit idx sel then_block else_block)
  unfolding Run.visit_sel_test
  keeps_visit_sel_test idx (parent, blocking) then_block else_block =
      quietly (laws.on_leaf_to_child parent idx) λ u. quietly (keeps_visit then_block) λ u.
        quietly (keeps_count_children parent) λ children.
          quietly (keeps_next_branch parent blocking idx children) λ u. keeps_visit else_block

  keeps_visit_cond :
      (test : Option (ℕ × Value)) (then_block else_block : ℕ)
      → Quiet T (Run.visit_cond prog visit test then_block else_block)
  unfolding Run.visit_cond
  keeps_visit_cond none then_block else_block =
      laws.on_branch (visit then_block) (visit else_block) (keeps_visit then_block)
        (keeps_visit else_block)
  keeps_visit_cond (some (idx, tuple)) then_block else_block = quietly (keeps_gets _) λ sel.
      quietly (keeps_demand _ sel) λ parent. keeps_visit_sel_test idx parent then_block else_block

  keeps_visit_branches :
      (cond : Value) (ch : Option Chan) (then_block else_block : ℕ)
      → Keeps T
          (AtChan T ch)
          (λ u s. Unit)
          (Run.visit_branches prog visit cond ch then_block else_block)
  unfolding Run.visit_branches
  keeps_visit_branches cond (some ch) then_block else_block =
      bind (still (keeps_gets _)) λ parent. keeps_visit_recv_test parent ch then_block else_block
  keeps_visit_branches cond none then_block else_block =
      quietly (keeps_gets _) λ test. keeps_visit_cond test then_block else_block

  pub keeps_visit_if :
      (cond : Value) (succs : List ℕ) → Quiet T (Run.visit_if prog visit cond succs)
  unfolding Run.visit_if
  keeps_visit_if cond [] = keeps_throw _
  keeps_visit_if cond (a ∷ []) = keeps_throw _
  keeps_visit_if cond (a ∷ b ∷ []) = quietly (keeps_gets _) λ leaf.
      quietly (keeps_demand _ leaf) λ n.
        bind
          (keeps_look {Post = AtChan T} (λ s. lookup cond s.recv_test)
            λ s inv. at_chan T s _ λ ch. laws.test_known s cond ch inv)
          λ ch. keeps_visit_branches cond ch a b
  keeps_visit_if cond (a ∷ b ∷ c ∷ succs) = keeps_throw _

  pub keeps_visit_jump : (succs : List ℕ) → Quiet T (Run.visit_jump prog visit succs)
  unfolding Run.visit_jump
  keeps_visit_jump [] = keeps_throw _
  keeps_visit_jump (blk ∷ []) = keeps_visit blk
  keeps_visit_jump (blk ∷ blk' ∷ succs) = keeps_throw _

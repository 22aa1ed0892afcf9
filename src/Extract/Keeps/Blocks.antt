-- ===== src/Extract/Keeps/Blocks.antt =====
-- The visits of instructions and blocks of cfsmextract (visit.go) keep what the elementary actions
-- keep, whatever fuel there is.
use dingo_hunter.Prelude.{ℕ, suc, zero, Option, none, some, List, [], ◌∷◌, ltb, nat_eq}
use dingo_hunter.Extract.Program.{Program, Instr}
use dingo_hunter.Extract.Program
use dingo_hunter.Extract.State.{M, label, goto}
use dingo_hunter.Extract.Run
use dingo_hunter.Extract.Keeps.{Theory, Quiet, Laws, laws_order}
use dingo_hunter.Extract.Keeps.Rules.{quietly, keeps_pure, keeps_gets, keeps_if}
use dingo_hunter.Extract.Keeps.Memory
use dingo_hunter.Extract.Keeps.Moves
use dingo_hunter.Extract.Keeps.Comm
use dingo_hunter.Extract.Keeps.Run as KeepsRun

module _ {T : Theory} ⦃laws : Laws T⦄ (prog : Program) (visit : ℕ → M (Unit {0}))
    (keeps_visit : (blk : ℕ) → Quiet T (visit blk)) where
  keeps_visit_inst : (i : Instr) → Quiet T (Run.visit_inst prog visit i)
  unfolding Run.visit_inst
  keeps_visit_inst (Program.make_chan v) = Comm.keeps_visit_make_chan prog v
  keeps_visit_inst (Program.send x typ) = Comm.keeps_visit_send x typ
  keeps_visit_inst (Program.recv v x typ comma_ok) = Comm.keeps_visit_recv v x typ comma_ok
  keeps_visit_inst (Program.deref v ptr is_global) = Moves.keeps_visit_deref prog v ptr is_global
  keeps_visit_inst (Program.call returned c) =
      KeepsRun.keeps_call_common prog visit keeps_visit returned c c.callee
  keeps_visit_inst (Program.extract v tuple index shape) =
      Comm.keeps_visit_extract v tuple index shape
  keeps_visit_inst (Program.go g) = KeepsRun.keeps_call_go prog visit keeps_visit g
  keeps_visit_inst (Program.ret results) = Moves.keeps_visit_return results
  keeps_visit_inst (Program.store addr is_global val) = Moves.keeps_visit_store addr is_global val
  keeps_visit_inst (Program.alloc v shape heap) = Memory.keeps_visit_alloc v shape heap
  keeps_visit_inst (Program.make_closure v bindings) = Moves.keeps_visit_make_closure v bindings
  keeps_visit_inst (Program.select v blocking states) = Comm.keeps_visit_select v blocking states
  keeps_visit_inst (Program.change_type v x) = Moves.keeps_visit_change_type v x
  keeps_visit_inst (Program.change_interface v x) = Moves.keeps_visit_change_interface v x
  keeps_visit_inst (Program.if_instr cond succs) =
      KeepsRun.keeps_visit_if prog visit keeps_visit cond succs
  keeps_visit_inst (Program.jump succs) = KeepsRun.keeps_visit_jump prog visit keeps_visit succs
  keeps_visit_inst (Program.equals v x y) = Moves.keeps_visit_bin_op v x y
  keeps_visit_inst (Program.slice v) = Moves.keeps_visit_slice v
  keeps_visit_inst (Program.make_slice v) = Moves.keeps_visit_make_slice v
  keeps_visit_inst (Program.field_addr v struc i is_struct nested) =
      Memory.keeps_visit_field_addr v struc i is_struct nested
  keeps_visit_inst (Program.field v struc i is_struct nested) =
      Memory.keeps_visit_field v struc i is_struct nested
  keeps_visit_inst (Program.index_addr v arr i is_indexable) =
      Memory.keeps_visit_index_addr v arr i is_indexable
  keeps_visit_inst (Program.index v arr i is_indexable is_pointer) =
      Memory.keeps_visit_index v arr i is_indexable is_pointer
  keeps_visit_inst (Program.defer returned c) = Moves.keeps_visit_defer returned c
  keeps_visit_inst Program.run_defers =
      quietly (keeps_gets _) (KeepsRun.keeps_run_defers prog visit keeps_visit)
  keeps_visit_inst (Program.phi v is_chan edges) = Moves.keeps_visit_phi v is_chan edges
  keeps_visit_inst (Program.type_assert v x is_possible) =
      Moves.keeps_visit_type_assert v x is_possible
  keeps_visit_inst (Program.make_interface v x) = Moves.keeps_visit_make_interface v x
  keeps_visit_inst Program.other = keeps_pure

  keeps_visit_insts : (is : List Instr) → Quiet T (Run.visit_insts prog visit is)
  unfolding Run.visit_insts
  keeps_visit_insts [] = keeps_pure
  keeps_visit_insts (i ∷ is) = quietly (keeps_visit_inst i) λ u. keeps_visit_insts is

  keeps_enter_labelled :
      (blk : ℕ) (b : Program.Block) (visited : Option ℕ)
      → Quiet T (Run.enter_labelled prog visit blk b visited)
  unfolding Run.enter_labelled
  keeps_enter_labelled blk b (some n) = quietly (laws.on_add_node (goto b.label)) λ g. keeps_pure
  keeps_enter_labelled blk b none =
      quietly (laws.on_add_node (label b.label))
        λ n. quietly (laws.on_mark_visited blk n) λ u. keeps_visit_insts b.instrs

  keeps_enter_block : (blk : ℕ) (b : Program.Block) → Quiet T (Run.enter_block prog visit blk b)
  unfolding Run.enter_block
  keeps_enter_block blk b =
      keeps_if (ltb 1 b.preds) (quietly (keeps_gets _) (keeps_enter_labelled blk b))
        (keeps_visit_insts b.instrs)

module _ {T : Theory} ⦃laws : Laws T⦄ (prog : Program) where
  pub keeps_visit_block : (fuel blk : ℕ) → Quiet T (Run.visit_block prog fuel blk)
  unfolding Run.visit_block
  keeps_visit_block zero blk = record { at = λ s s' a pre inv e. absurd cc }
  keeps_visit_block (suc fuel) blk =
      keeps_enter_block prog (Run.visit_block prog fuel) (keeps_visit_block fuel) blk
        (prog.block blk)

  pub keeps_visit_func :
      (fuel fn : ℕ) → Quiet T (Run.visit_func prog (Run.visit_block prog fuel) fn)
  unfolding Run.visit_func
  keeps_visit_func fuel fn =
      KeepsRun.keeps_visit_body prog (Run.visit_block prog fuel) (keeps_visit_block fuel)
        (prog.entry fn)

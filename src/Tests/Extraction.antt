-- ===== src/Tests/Extraction.antt =====
-- The extraction of cfsmextract on small programs: a goroutine that sends on a channel which `main`
-- makes and receives from, and a branch.
use dingo_hunter.Extract.Comm.Made.{made_chan, made_chan_found}
use dingo_hunter.Prelude.{
  ℕ, ◌≡◌, refl, false, Option, none, some, List, [], ◌∷◌, lookup, get_elem?, Memᴰ, suc, zero, arith,
  length, ◌≢◌, ◌<◌, ◌++◌, option_eq, nat_eq,
}
use dingo_hunter.Definition.{def_eq, fresh_def, bump}
use dingo_hunter.SessType.Node.{Chan, chan_type}
use dingo_hunter.SessType.Session.{
  make_chan, make_ext_chan, add_chan, get_role, found_role, create_session,
}
use dingo_hunter.SessType.Stack.Laws.{IsValid, items}
use dingo_hunter.SessType.Stack.{new_node_stack, push, pop, top}
use dingo_hunter.Extract.Program.{
  Program, Block, CallCommon, Shape, other_shape, function, go, recv, ret, jump, if_instr,
}
use dingo_hunter.Extract.Program
use dingo_hunter.Extract.State.{State, Label, Outcome, done, panic, out_of_fuel, chan}
use dingo_hunter.Extract.State.{◌>>=◌, gets, demand, guard, modify_scope, modify_store}
use dingo_hunter.Extract.Nodes.{
  leaf_cell, new_var, read_var, write_var, set_leaf, leaf_to, grow, leaf_node, add_node, new_gortn,
  mark_visited, new_def, register, chan_at, push_leaf, leaf_to_top, pop_parent,
}
use dingo_hunter.Extract.Frames.{
  kind_of, get_phi, last_defined, get, set_local, nils, new_scope, share, bind_arg, bind_param,
  bind_params, bind_captures, capture, args_of, translate,
}
use dingo_hunter.Extract.Moves.{visit_return}
use dingo_hunter.Extract.Comm.{
  add_chan_node, send_label, recv_label, visit_make_chan, send_to, visit_send, recv_from,
  visit_recv,
}
use dingo_hunter.Extract.Run.{
  visit_body, visit_func, enqueue, new_role, call_go, visit_inst, visit_insts, enter_labelled,
  enter_block, visit_block, branch, visit_cond, visit_branches, visit_if, visit_jump,
}
use dingo_hunter.Extract.Main.{
  toplevel, add_globals, set_root, switch_to, run_goroutine, run_next, run_queue, run,
}
use dingo_hunter.Extract.Registered.Run.{extraction_registers}
use dingo_hunter.Extract.Acyclic.Run.{extraction_acyclic}
use dingo_hunter.Extract.Balanced.{visit_block_balanced}
use dingo_hunter.Extract.Nodes.Add.{add_node_appends}

abbrev block_of : ℕ → Block
block_of zero = record {
  preds = 0;
  label = "main#0";
  instrs =
      Program.make_chan 1
      ∷ go (record {
        name = "main.send0";
        static_callee = some 1;
        common = record { site = 0; value = 9; callee = function 1; args = 1 ∷ []; results = 0 };
      })
      ∷ recv 2 1 "int" false
      ∷ ret []
      ∷ [];
}
block_of (suc zero) = record {
  preds = 0;
  label = "send#0";
  instrs = Program.send 5 "int" ∷ ret [] ∷ [];
}
block_of (suc (suc zero)) = record {
  preds = 0;
  label = "both#0";
  instrs = if_instr 8 (3 ∷ 4 ∷ []) ∷ [];
}
block_of (suc (suc (suc n))) = record { preds = 1; label = "both#1"; instrs = [] }

abbrev entry_of : ℕ → Option ℕ
entry_of zero = some 0
entry_of (suc zero) = some 1
entry_of (suc (suc n)) = none

abbrev params_of : ℕ → List ℕ
params_of zero = []
params_of (suc zero) = 5 ∷ []
params_of (suc (suc n)) = []

abbrev two_roles : Program
two_roles = record {
  ssa = record { chan_elem = λ v. some "int" };
  block = block_of;
  entry = entry_of;
  params = params_of;
  free_vars = λ fn. [];
  results = λ fn. [];
  pointee = λ v. other_shape;
  implements = λ v m. false;
  lookup_method = λ v m. none;
}

abbrev after : Outcome (Unit {0} × State) → State
after (done (u, s)) = s
after (panic e) = toplevel
after out_of_fuel = toplevel

abbrev extracted : State
extracted = after (run two_roles 2 3 0 [] 2 (some 0) toplevel)

abbrev channel : Chan
channel = record {
  def = record { var = 1; ver = 0 };
  role = record { name = "main"; address = 0 };
  extern = false;
}

extracted_returns : run two_roles 2 3 0 [] 2 (some 0) toplevel ≡ done (tt, extracted)
unfolding ◌>>=◌ gets demand guard modify_scope modify_store new_var read_var write_var set_leaf
    leaf_to grow leaf_node add_node new_gortn mark_visited new_def register chan_at push_leaf
    leaf_to_top pop_parent kind_of get_phi last_defined get set_local nils new_scope share bind_arg
    bind_param bind_params bind_captures capture args_of translate visit_return add_chan_node
    send_label recv_label visit_make_chan send_to visit_send recv_from visit_recv visit_body
    visit_func enqueue new_role call_go visit_inst visit_insts enter_labelled enter_block
    visit_block branch visit_cond visit_branches visit_if visit_jump toplevel add_globals set_root
    switch_to run_goroutine run_next run_queue run fresh_def bump make_chan make_ext_chan add_chan
    get_role found_role create_session new_node_stack push pop top chan_type
extracted_returns = refl

sends :
    get_elem? extracted.graph.nodes 4
    ≡ some (record {
      content = Label.send (record { name = "main.send0"; address = 1 }) channel false (some "int");
      children = [];
    })
unfolding ◌>>=◌ gets demand guard modify_scope modify_store new_var read_var write_var set_leaf
    leaf_to grow leaf_node add_node new_gortn mark_visited new_def register chan_at push_leaf
    leaf_to_top pop_parent kind_of get_phi last_defined get set_local nils new_scope share bind_arg
    bind_param bind_params bind_captures capture args_of translate visit_return add_chan_node
    send_label recv_label visit_make_chan send_to visit_send recv_from visit_recv visit_body
    visit_func enqueue new_role call_go visit_inst visit_insts enter_labelled enter_block
    visit_block branch visit_cond visit_branches visit_if visit_jump toplevel add_globals set_root
    switch_to run_goroutine run_next run_queue run fresh_def bump make_chan make_ext_chan add_chan
    get_role found_role create_session new_node_stack push pop top chan_type
sends = refl

extraction_registers_example : lookup channel.def extracted.session.chans ≡ some channel
extraction_registers_example =
    extraction_registers two_roles 2 3 0 [] 2 (some 0) extracted extracted_returns 4
      (record {
        content =
            Label.send (record { name = "main.send0"; address = 1 }) channel false (some "int");
        children = [];
      })
      channel sends refl

made :
    get_elem? extracted.graph.nodes 1
    ≡ some (record { content = Label.new_chan channel; children = 3 ∷ [] })
unfolding ◌>>=◌ gets demand guard modify_scope modify_store new_var read_var write_var set_leaf
    leaf_to grow leaf_node add_node new_gortn mark_visited new_def register chan_at push_leaf
    leaf_to_top pop_parent kind_of get_phi last_defined get set_local nils new_scope share bind_arg
    bind_param bind_params bind_captures capture args_of translate visit_return add_chan_node
    send_label recv_label visit_make_chan send_to visit_send recv_from visit_recv visit_body
    visit_func enqueue new_role call_go visit_inst visit_insts enter_labelled enter_block
    visit_block branch visit_cond visit_branches visit_if visit_jump toplevel add_globals set_root
    switch_to run_goroutine run_next run_queue run fresh_def bump make_chan make_ext_chan add_chan
    get_role found_role create_session new_node_stack push pop top chan_type
made = refl

extraction_acyclic_example : (1 < 3) × (3 < length extracted.graph.nodes)
extraction_acyclic_example =
    (extraction_acyclic two_roles 2 3 0 [] 2 (some 0) extracted extracted_returns).0 1 3
      (record { content = Label.new_chan channel; children = 3 ∷ [] }) made (Memᴰ.head refl)

-- A branch without a select.
abbrev branched : State
branched = after (visit_block two_roles 2 2 toplevel)

branched_returns : visit_block two_roles 2 2 toplevel ≡ done (tt, branched)
unfolding ◌>>=◌ gets demand guard modify_scope modify_store new_var read_var write_var set_leaf
    leaf_to grow leaf_node add_node new_gortn mark_visited new_def register chan_at push_leaf
    leaf_to_top pop_parent kind_of get_phi last_defined get set_local nils new_scope share bind_arg
    bind_param bind_params bind_captures capture args_of translate visit_return add_chan_node
    send_label recv_label visit_make_chan send_to visit_send recv_from visit_recv visit_body
    visit_func enqueue new_role call_go visit_inst visit_insts enter_labelled enter_block
    visit_block branch visit_cond visit_branches visit_if visit_jump toplevel add_globals set_root
    switch_to run_goroutine run_next run_queue run fresh_def bump make_chan make_ext_chan add_chan
    get_role found_role create_session new_node_stack push pop top chan_type
branched_returns = refl

no_parents : IsValid toplevel.graph.if_parent
unfolding toplevel new_node_stack
no_parents = ground arith

visit_block_balanced_example :
    IsValid branched.graph.if_parent
    × (items branched.graph.if_parent ≡ items toplevel.graph.if_parent)
visit_block_balanced_example =
    visit_block_balanced two_roles 2 2 toplevel branched no_parents branched_returns

leaf_at_top : toplevel.gortn.leaf ≡ some 0
unfolding toplevel
leaf_at_top = refl

var_at_top : get_elem? toplevel.graph.vars 0 ≡ some 0
unfolding toplevel
var_at_top = refl

root_at_top : get_elem? toplevel.graph.nodes 0 ≡ some (leaf_cell (Label.label "main"))
unfolding toplevel
root_at_top = refl

abbrev hello : Label
hello = Label.label "hello"

add_node_appends_example :
    let n = length toplevel.graph.nodes in
    (s' : State) × (add_node hello toplevel ≡ done (n, s'))
    × (get_elem? s'.graph.nodes n ≡ some (leaf_cell hello))
    × (get_elem? s'.graph.nodes 0
        ≡ some (record { content = Label.label "main"; children = [] ++ n ∷ [] }))
    × ((j : ℕ) → j ≢ 0 → j < n → get_elem? s'.graph.nodes j ≡ get_elem? toplevel.graph.nodes j)
    × (s'.gortn.leaf ≡ some (length toplevel.graph.vars))
    × (get_elem? s'.graph.vars (length toplevel.graph.vars) ≡ some n)
add_node_appends_example =
    add_node_appends hello toplevel 0 0 (leaf_cell (Label.label "main")) leaf_at_top var_at_top
      root_at_top

typed : chan_type two_roles.ssa (made_chan 1 toplevel) ≡ some "int"
unfolding chan_type
typed = refl

no_heap_arrays : lookup (some (fresh_def 1 toplevel.versions).0) toplevel.store.arrays ≡ none
unfolding toplevel
no_heap_arrays = refl

no_frame_arrays : lookup (some (fresh_def 1 toplevel.versions).0) toplevel.frame.scope.arrays ≡ none
unfolding toplevel new_scope
no_frame_arrays = refl

made_chan_found_example :
    let d = (fresh_def 1 toplevel.versions).0 in
    (s' : State) × (visit_make_chan two_roles 1 toplevel ≡ done (tt, s'))
    × (get 1 s' ≡ (some d, chan))
    × (lookup (some d) s'.chans ≡ some (made_chan 1 toplevel))
    × (lookup d s'.session.chans ≡ some (made_chan 1 toplevel))
made_chan_found_example =
    made_chan_found two_roles 1 toplevel 0 0 "int" leaf_at_top var_at_top typed no_heap_arrays
      no_frame_arrays

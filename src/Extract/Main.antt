-- ===== src/Extract/Main.antt =====
-- cfsmextract/cfsmextract.go: `Run`, from the globals of the program to the goroutines in the queue,
-- with the frame and the environment that `makeToplevelFrame` of func.go makes.
use dingo_hunter.Prelude.{
  ℕ, suc, zero, true, Option, none, some, List, [], ◌∷◌, insert, string_eq, nat_eq,
}
use dingo_hunter.Ssa.{Value}
use dingo_hunter.Definition.{def_eq}
use dingo_hunter.SessType.Node.{Role, role_eq}
use dingo_hunter.SessType.Session.{create_session, get_role}
use dingo_hunter.SessType.Stack.{new_node_stack}
use dingo_hunter.Extract.Program.{
  Program, Shape, array_shape, slice_shape, struct_shape, chan_shape, other_shape,
}
use dingo_hunter.Extract.State.{
  Frame, Goroutine, State, label, no_main, out_of_fuel, M, pure, throw, ◌>>=◌, ◌>>◌, gets,
}
use dingo_hunter.Extract.Nodes.{leaf_cell, read_var, new_def}
use dingo_hunter.Extract.Frames.{new_scope}
use dingo_hunter.Extract.Memory.{new_elems, new_fields}
use dingo_hunter.Extract.Moves.{set_global}
use dingo_hunter.Extract.Run.{visit_func, visit_block}

abbrev main_role : Role
main_role = record { name = "main"; address = 0 }

-- `makeToplevelFrame`, on the session of `New` and no versions.
unfoldable pub toplevel : State
unfolding new_node_stack new_scope
toplevel = record {
  frame = record { scope = new_scope none 0 []; recvok = [] };
  gortn = record { role = main_role; root = 0; leaf = some 0; visited = [] };
  store = record {
    globals = [];
    arrays = [];
    structs = [];
    elems = [];
    fields = [];
    extern = [];
    closures = [];
    sel_idx = [];
    sel_test = [];
    args = [];
  };
  versions = [];
  graph = record {
    nodes = leaf_cell (label "main") ∷ [];
    vars = 0 ∷ [];
    if_parent = new_node_stack;
    sel_node = [];
  };
  chans = [];
  recv_test = [];
  session = (get_role create_session "main").1;
  types = [];
  go_queue = [];
}

-- A global, by what its type has behind its pointers. All channels are defined by one empty value.
unfoldable pub add_global : (empty : Value) → Value → Shape → M (Unit {0})
unfolding set_global new_elems new_fields
add_global empty v array_shape = do vd ← new_def v; set_global v vd; new_elems true vd
add_global empty v struct_shape = do vd ← new_def v; set_global v vd; new_fields true vd
add_global empty v chan_shape = do vd ← new_def empty; set_global v vd
add_global empty v slice_shape = do vd ← new_def v; set_global v vd
add_global empty v other_shape = do vd ← new_def v; set_global v vd

unfoldable pub add_globals : (empty : Value) → List (Value × Shape) → M (Unit {0})
unfolding add_global
add_globals empty [] = pure tt
add_globals empty ((v, shape) ∷ rest) = do add_global empty v shape; add_globals empty rest

-- `session.Types[gortn.role] = gortn.root`
unfoldable pub set_root : M (Unit {0})
unfolding read_var
set_root = do
  g ← gets (λ s. s.gortn)
  root ← read_var g.root
  λ s. pure tt (record s { types = insert g.role root s.types })

-- The next goroutine of the queue takes over.
unfoldable pub switch_to : Frame → Goroutine → List (Frame × Goroutine) → M (Unit {0})
switch_to fr g rest s = pure tt (record s { frame = fr; gortn = g; go_queue = rest })

module _ (prog : Program) (fuel : ℕ) where
  unfoldable pub run_goroutine : Option ℕ → M (Unit {0})
  unfolding visit_func set_root
  run_goroutine none = throw no_main
  run_goroutine (some fn) = do code ← visit_func prog (visit_block prog fuel) fn; set_root

  -- The turn of the first goroutine in the queue, and the others `again`.
  unfoldable pub run_next : (again : M (Unit {0})) → List (Frame × Goroutine) → M (Unit {0})
  unfolding run_goroutine switch_to
  run_next again [] = pure tt
  run_next again ((fr, g) ∷ rest) = do switch_to fr g rest; run_goroutine fr.scope.fn; again

  -- The loop over the queue, which takes one unit of `rounds` for each goroutine.
  unfoldable pub run_queue : ℕ → M (Unit {0})
  unfolding run_next
  run_queue zero s = out_of_fuel
  run_queue (suc rounds) s = run_next (run_queue rounds) s.go_queue s

  -- `Run`
  unfoldable pub run :
      ℕ → (empty : Value) → List (Value × Shape) → (init : ℕ) → (main : Option ℕ) → M (Unit {0})
  unfolding add_globals visit_func run_goroutine run_queue
  run rounds empty globals init main = do
    add_globals empty globals
    code ← visit_func prog (visit_block prog fuel) init
    run_goroutine main
    run_queue rounds

-- ===== src/Extract/Acyclic/Run.antt =====
-- The run of cfsmextract keeps the graph of nodes free of cycles, from a state with one node.
use dingo_hunter.Prelude.{
  ℕ, ◌+◌, ◌<◌, ◌≡◌, arith, String, Bool, Option, some, List, length, get_elem?, Memᴰ,
}
use dingo_hunter.Ssa.{Value}
use dingo_hunter.SessType.Node.{Role, Chan}
use dingo_hunter.SessType.Stack.{new_node_stack}
use dingo_hunter.Extract.State.{
  Scope, Store, Cell, Goroutine, State, done, modify_scope, modify_store,
}
use dingo_hunter.Extract.Nodes.{set_leaf, mark_visited, new_def, register, set_sel_node}
use dingo_hunter.Extract.Comm.{set_recvok, set_recv_test}
use dingo_hunter.Extract.Run.{enqueue, new_role}
use dingo_hunter.Extract.Main.{toplevel, run}
use dingo_hunter.Extract.Program.{Program, Shape}
use dingo_hunter.Extract.Keeps.{Quiet, Laws}
use dingo_hunter.Extract.Keeps.Rules.{returned, weaken}
use dingo_hunter.Extract.Acyclic.Steps.{
  acyclic_order, Kept, add_node-keeps, leaf_to_child-keeps, new_gortn-IsAcyclic, branch-keeps,
  set_root-keeps, le_self,
}
use dingo_hunter.Extract.Keeps.Main.{keeps_run}
use dingo_hunter.Extract.Acyclic.{IsBetween, HasRoot, AcyclicState, acyclic}
use dingo_hunter.Extract.Acyclic.Cells.{All-mem, IsOrdered-at}

modify_scope-keeps : (f : Scope → Scope) → Quiet acyclic (modify_scope f)
unfolding modify_scope
modify_scope-keeps f = record { at = λ s s' a pre inv e. returned (Kept s) e (inv, le_self _, tt) }

modify_store-keeps : (f : Store → Store) → Quiet acyclic (modify_store f)
unfolding modify_store
modify_store-keeps f = record { at = λ s s' a pre inv e. returned (Kept s) e (inv, le_self _, tt) }

set_leaf-keeps : (leaf : Option ℕ) → Quiet acyclic (set_leaf leaf)
unfolding set_leaf
set_leaf-keeps leaf = record { at = λ s s' a pre inv e. returned (Kept s) e (inv, le_self _, tt) }

mark_visited-keeps : (blk n : ℕ) → Quiet acyclic (mark_visited blk n)
unfolding mark_visited
mark_visited-keeps blk n = record {
  at = λ s s' a pre inv e. returned (Kept s) e (inv, le_self _, tt);
}

set_sel_node-keeps : (v : Value) (blocking : Bool) → Quiet acyclic (set_sel_node v blocking)
unfolding set_sel_node
set_sel_node-keeps v blocking = record {
  at = λ s s' a pre inv e. returned (Kept s) e (inv, le_self _, tt);
}

new_def-keeps : (v : Value) → Quiet acyclic (new_def v)
unfolding new_def
new_def-keeps v = record { at = λ s s' a pre inv e. returned (Kept s) e (inv, le_self _, tt) }

register-keeps : (extern : Bool) (v : Value) → Quiet acyclic (register extern v)
unfolding register
register-keeps extern v = record {
  at = λ s s' a pre inv e. returned (Kept s) e (inv, le_self _, tt);
}

set_recvok-keeps : (v : Value) (ch : Option Chan) → Quiet acyclic (set_recvok v ch)
unfolding set_recvok
set_recvok-keeps v ch = record { at = λ s s' a pre inv e. returned (Kept s) e (inv, le_self _, tt) }

set_recv_test-keeps : (v : Value) (ch : Chan) → Quiet acyclic (set_recv_test v ch)
unfolding set_recv_test
set_recv_test-keeps v ch = record {
  at = λ s s' a pre inv e. returned (Kept s) e (inv, le_self _, tt);
}

enqueue-keeps : (sc : Scope) (g : Goroutine) → Quiet acyclic (enqueue sc g)
unfolding enqueue
enqueue-keeps sc g = record { at = λ s s' a pre inv e. returned (Kept s) e (inv, le_self _, tt) }

new_role-keeps : (name : String) → Quiet acyclic (new_role name)
unfolding new_role
new_role-keeps name = record { at = λ s s' a pre inv e. returned (Kept s) e (inv, le_self _, tt) }

toplevel-IsAcyclic : AcyclicState toplevel
unfolding toplevel new_node_stack
toplevel-IsAcyclic = record {
  ordered = (tt, tt);
  in_vars = (ground arith, tt);
  in_stack = tt;
  in_types = tt;
}

instance abbrev acyclic_laws : Laws acyclic
acyclic_laws = record {
  order = acyclic_order;
  known_later = λ s t ch later h. tt;
  chan_known = λ s vd ch inv h. tt;
  test_known = λ s v ch inv h. tt;
  recvok_known = λ s v ch inv h. tt;
  on_modify_scope = modify_scope-keeps;
  on_modify_store = modify_store-keeps;
  on_set_leaf = set_leaf-keeps;
  on_mark_visited = mark_visited-keeps;
  on_add_node = λ l. weaken (add_node-keeps l);
  on_new_gortn = new_gortn-IsAcyclic;
  on_new_def = new_def-keeps;
  on_register = λ extern v. register-keeps extern v;
  on_set_sel_node = set_sel_node-keeps;
  on_leaf_to_child = leaf_to_child-keeps;
  on_set_recvok = λ v ch. weaken (set_recvok-keeps v ch);
  on_set_recv_test = λ v ch. weaken (set_recv_test-keeps v ch);
  on_branch = branch-keeps;
  on_enqueue = enqueue-keeps;
  on_new_role = new_role-keeps;
  into_frame = λ s sc inv. inv;
  out_of_frame = λ s s' sc inv inv' later. (inv', later);
  on_set_root = set_root-keeps;
  on_switch = λ s fr g rest inv queue. (inv, le_self _);
}

-- If the extraction returns, then a child of a node always comes after the node in the order in
-- which the nodes were made, so the session graphs have no cycles, and each root in the types of
-- the session is one of the nodes.
pub extraction_acyclic :
    (prog : Program) (fuel rounds : ℕ) (empty : Value) (globals : List (Value × Shape)) (init : ℕ)
    (main : Option ℕ) (s : State)
    → run prog fuel rounds empty globals init main toplevel ≡ done (tt, s)
    → ((i j : ℕ) (c : Cell)
        → get_elem? s.graph.nodes i ≡ some c
        → Memᴰ j c.children
        → (i < j) × (j < length s.graph.nodes))
      × ((role : Role) (root : ℕ) → Memᴰ (role, root) s.types → root < length s.graph.nodes)
extraction_acyclic prog fuel rounds empty globals init main s e =
    let (inv, later, u) =
      (keeps_run {T = acyclic} prog fuel rounds empty globals init main).at toplevel s tt tt
        toplevel-IsAcyclic e in
    (
      λ i j c at m.
          let (later_child, in_bounds) =
            All-mem (IsBetween (0 + i) (length s.graph.nodes)) c.children j
              (IsOrdered-at 0 i (length s.graph.nodes) s.graph.nodes c inv.ordered at) m in
          (ground arith, in_bounds),
      λ role root m. All-mem (HasRoot (length s.graph.nodes)) s.types (role, root) inv.in_types m,
    )

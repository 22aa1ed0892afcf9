-- ===== src/Extract/Registered/Run.antt =====
-- The run of cfsmextract keeps the channels registered, from a state that has none.
use dingo_hunter.Prelude.{
  ℕ, suc, zero, ◌≡◌, refl, sym, subst, arith, Bool, Option, none, some, List, [], ◌∷◌, ◌++◌, lookup,
  insert, lookup-insert, get_elem?, nat_eq, String, option_eq, All, ◌==◌, Bool-cases, inl, inr,
}
use dingo_hunter.Ssa.{Value}
use dingo_hunter.Definition.{def_eq}
use dingo_hunter.SessType.Node.{Chan}
use dingo_hunter.SessType.Session.{get_role, found_role, create_session}
use dingo_hunter.SessType.Session.Laws.{get_role_frame}
use dingo_hunter.Extract.State.{Scope, Store, Frame, Cell, Goroutine, State, done, modify_store}
use dingo_hunter.Extract.Nodes.{set_leaf, mark_visited, set_sel_node}
use dingo_hunter.Extract.Comm.{set_recvok, set_recv_test}
use dingo_hunter.Extract.Run.{enqueue, new_role}
use dingo_hunter.Extract.Main.{set_root, toplevel, run}
use dingo_hunter.Extract.Program.{Program, Shape}
use dingo_hunter.Extract.Keeps.Main.{keeps_run}
use dingo_hunter.Extract.Keeps.{Keeps, Quiet, AtChan, label_chan, fresh_frame, switched, Laws}
use dingo_hunter.Extract.Keeps.Rules.{returned, quietly, keeps_gets, keeps_read_var}
use dingo_hunter.Extract.Registered.Steps.{registered_order, Good}
use dingo_hunter.Extract.Registered.Steps
use dingo_hunter.Extract.Registered.Fresh.{registered-register, registered-new_def}
use dingo_hunter.Extract.Registered.{
  Chans, IsRegistered, IfRegistered, Grows, IsCellRegistered, HasNoTests, IsConsistent,
  ConsistentState, registered,
}

-- A map with one more value, which satisfies what the others do.
inserted :
    {A : Type 0} (v w : Value) (a b : A) (m : List (Value × A)) (P : A → Type 0)
    → lookup w (insert v a m) ≡ some b
    → ((u : Value) (c : A) → lookup u m ≡ some c → P c)
    → P a
    → P b
inserted v w a b m P found old new = elim (Bool-cases (v == w)) [
  | inl same ↦ let e : a ≡ b = ground (arith, lookup-insert v w a m) in subst P e new
  | inr differ ↦ old w b (ground (arith, lookup-insert v w a m))
]

registered-modify_store : (f : Store → Store) → Quiet registered (modify_store f)
unfolding modify_store
registered-modify_store f = record {
  at = λ s s' a pre inv e. returned (Good s) e (inv, λ d c h. h, tt);
}

registered-set_leaf : (leaf : Option ℕ) → Quiet registered (set_leaf leaf)
unfolding set_leaf
registered-set_leaf leaf = record {
  at = λ s s' a pre inv e. returned (Good s) e (inv, λ d c h. h, tt);
}

registered-mark_visited : (blk n : ℕ) → Quiet registered (mark_visited blk n)
unfolding mark_visited
registered-mark_visited blk n = record {
  at = λ s s' a pre inv e. returned (Good s) e (inv, λ d c h. h, tt);
}

registered-set_sel_node : (v : Value) (blocking : Bool) → Quiet registered (set_sel_node v blocking)
unfolding set_sel_node
registered-set_sel_node v blocking = record {
  at = λ s s' a pre inv e. returned (Good s) e (inv, λ d c h. h, tt);
}

in_recvok :
    (s : State)
    → ConsistentState s
    → (v : Value) (o : Option Chan) → lookup v s.frame.recvok ≡ some o
    → IfRegistered s.session.chans o
in_recvok s inv v none found = tt
in_recvok s inv v (some ch) found = inv.in_recvok v ch found

no_tests :
    (m : List (Value × Option Chan)) (v : Value) (ch : Chan)
    → m ≡ []
    → ¬ (lookup v m ≡ some (some ch))
no_tests [] v ch e h = cc
no_tests (x ∷ m) v ch e h = absurd cc

recvok_chan :
    (s : State) (v w : Value) (o : Option Chan) (ch : Chan)
    → ConsistentState s
    → AtChan registered o s
    → lookup w (insert v o s.frame.recvok) ≡ some (some ch)
    → IsRegistered s.session.chans ch
recvok_chan s v w none ch inv known found =
    inserted v w none (some ch) s.frame.recvok (IfRegistered s.session.chans) found
      (in_recvok s inv) tt
recvok_chan s v w (some c) ch inv known found =
    inserted v w (some c) (some ch) s.frame.recvok (IfRegistered s.session.chans) found
      (in_recvok s inv) known

-- The state where the second part of a receive is remembered.
registered-set_recvok :
    (v : Value) (ch : Option Chan)
    → Keeps registered (AtChan registered ch) (λ u s. Unit) (set_recvok v ch)
unfolding set_recvok
registered-set_recvok v ch = record {
  at = λ s s' a known inv e.
      let good : IsConsistent (insert v ch s.frame.recvok) s.chans s.recv_test s.session.chans
          s.graph.nodes s.versions s.go_queue =
        record {
          in_chans = inv.in_chans;
          in_tests = inv.in_tests;
          in_recvok = λ w c found. recvok_chan s v w ch c inv known found;
          in_nodes = inv.in_nodes;
          are_issued = inv.are_issued;
          in_queue = inv.in_queue;
        } in
      returned (Good s) e (good, λ d c h. h, tt);
}

registered-set_recv_test :
    (v : Value) (ch : Chan)
    → Keeps registered (λ s. IsRegistered s.session.chans ch) (λ u s. Unit) (set_recv_test v ch)
unfolding set_recv_test
registered-set_recv_test v ch = record {
  at = λ s s' a known inv e.
      let good : IsConsistent s.frame.recvok s.chans (insert v ch s.recv_test) s.session.chans
          s.graph.nodes s.versions s.go_queue =
        record {
          in_chans = inv.in_chans;
          in_tests = λ w c found.
              inserted v w ch c s.recv_test (IsRegistered s.session.chans) found inv.in_tests known;
          in_recvok = inv.in_recvok;
          in_nodes = inv.in_nodes;
          are_issued = inv.are_issued;
          in_queue = inv.in_queue;
        } in
      returned (Good s) e (good, λ d c h. h, tt);
}

append-HasNoTests :
    (queue : List (Frame × Goroutine)) (fr : Frame) (g : Goroutine)
    → All HasNoTests queue
    → fr.recvok ≡ []
    → All HasNoTests (queue ++ (fr, g) ∷ [])
append-HasNoTests [] fr g h last = (last, tt)
append-HasNoTests (q ∷ queue) fr g (h, hs) last = (h, append-HasNoTests queue fr g hs last)

registered-enqueue : (sc : Scope) (g : Goroutine) → Quiet registered (enqueue sc g)
unfolding enqueue
registered-enqueue sc g = record {
  at = λ s s' a pre inv e.
      let good : IsConsistent s.frame.recvok s.chans s.recv_test s.session.chans s.graph.nodes
          s.versions (s.go_queue ++ (fresh_frame sc, g) ∷ []) =
        record {
          in_chans = inv.in_chans;
          in_tests = inv.in_tests;
          in_recvok = inv.in_recvok;
          in_nodes = inv.in_nodes;
          are_issued = inv.are_issued;
          in_queue = append-HasNoTests s.go_queue (fresh_frame sc) g inv.in_queue refl;
        } in
      returned (Good s) e (good, λ d c h. h, tt);
}

registered-new_role : (name : String) → Quiet registered (new_role name)
unfolding new_role
registered-new_role name = record {
  at = λ s s' a pre inv e.
      let same : s.session.chans ≡ (get_role s.session name).1.chans =
        sym (get_role_frame s.session name).1 in
      let good : IsConsistent s.frame.recvok s.chans s.recv_test (get_role s.session name).1.chans
          s.graph.nodes s.versions s.go_queue =
        subst
          (λ chans.
            IsConsistent s.frame.recvok s.chans s.recv_test chans s.graph.nodes s.versions
              s.go_queue)
          same inv in
      returned (Good s) e (good, subst (Grows s.session.chans) same (λ d c h. h), tt);
}

registered-set_root : Quiet registered set_root
unfolding set_root
registered-set_root = quietly (keeps_gets _) λ g.
    quietly (keeps_read_var g.root)
      λ root. record { at = λ s s' a pre inv e. returned (Good s) e (inv, λ d c h. h, tt) }

-- A frame without tests.
other_frame :
    (s : State) (fr : Frame) (queue : List (Frame × Goroutine))
    → ConsistentState s
    → ((v : Value) (ch : Chan)
        → lookup v fr.recvok ≡ some (some ch)
        → IsRegistered s.session.chans ch)
    → All HasNoTests queue
    → IsConsistent fr.recvok s.chans s.recv_test s.session.chans s.graph.nodes s.versions queue
other_frame s fr queue inv tests fresh = record {
  in_chans = inv.in_chans;
  in_tests = inv.in_tests;
  in_recvok = tests;
  in_nodes = inv.in_nodes;
  are_issued = inv.are_issued;
  in_queue = fresh;
}

registered-switch :
    (s : State) (fr : Frame) (g : Goroutine) (rest : List (Frame × Goroutine))
    → ConsistentState s
    → s.go_queue ≡ (fr, g) ∷ rest
    → ConsistentState (switched fr g rest s) × Grows s.session.chans s.session.chans
registered-switch s fr g rest inv queue =
    let (none_yet, fresh) = subst (All HasNoTests) queue inv.in_queue in
    (
      other_frame s fr rest inv (λ v ch found. absurd (no_tests fr.recvok v ch none_yet found))
          fresh,
      λ d c h. h,
    )

fresh_frame-tests :
    (s : State) (sc : Scope) (v : Value) (ch : Chan)
    → lookup v (fresh_frame sc).recvok ≡ some (some ch)
    → IsRegistered s.session.chans ch
fresh_frame-tests s sc v ch h = absurd cc

toplevel-IsConsistent : ConsistentState toplevel
unfolding toplevel get_role found_role create_session
toplevel-IsConsistent = record {
  in_chans = λ vd ch h. absurd cc;
  in_tests = λ v ch h. absurd cc;
  in_recvok = λ v ch h. absurd cc;
  in_nodes = (tt, tt);
  are_issued = λ d ch h. absurd cc;
  in_queue = tt;
}

instance abbrev registered_laws : Laws registered
registered_laws = record {
  order = registered_order;
  known_later = λ s t ch grows h. grows ch.def ch h;
  chan_known = λ s vd ch inv h. inv.in_chans vd ch h;
  test_known = λ s v ch inv h. inv.in_tests v ch h;
  recvok_known = λ s v ch inv h. inv.in_recvok v ch h;
  on_modify_scope = Steps.registered-modify_scope;
  on_modify_store = registered-modify_store;
  on_set_leaf = registered-set_leaf;
  on_mark_visited = registered-mark_visited;
  on_add_node = Steps.registered-add_node;
  on_new_gortn = Steps.registered-new_gortn;
  on_new_def = registered-new_def;
  on_register = registered-register;
  on_set_sel_node = registered-set_sel_node;
  on_leaf_to_child = Steps.registered-leaf_to_child;
  on_set_recvok = registered-set_recvok;
  on_set_recv_test = registered-set_recv_test;
  on_branch = Steps.registered-branch;
  on_enqueue = registered-enqueue;
  on_new_role = registered-new_role;
  into_frame = λ s sc inv.
      other_frame s (fresh_frame sc) s.go_queue inv (fresh_frame-tests s sc) inv.in_queue;
  out_of_frame = λ s s' sc inv inv' grows. (
    other_frame s' s.frame s'.go_queue inv' (λ v ch h. grows ch.def ch (inv.in_recvok v ch h))
        inv'.in_queue,
    grows,
  );
  on_set_root = registered-set_root;
  on_switch = registered-switch;
}

cell_chan :
    (chans : Chans) (o : Option Chan) (ch : Chan)
    → IfRegistered chans o
    → o ≡ some ch
    → lookup ch.def chans ≡ some ch
cell_chan chans none ch h e = absurd cc
cell_chan chans (some c) ch h e = subst (IfRegistered chans) e h

cell_registered :
    (chans : Chans) (nodes : List Cell) (i : ℕ) (c : Cell)
    → All (IsCellRegistered chans) nodes
    → get_elem? nodes i ≡ some c
    → IsCellRegistered chans c
cell_registered chans [] i c h e = absurd cc
cell_registered chans (x ∷ nodes) zero c (h, hs) e =
    let same : x ≡ c = ground arith in subst (IsCellRegistered chans) same h
cell_registered chans (x ∷ nodes) (suc i) c (h, hs) e = cell_registered chans nodes i c hs e

-- If the extraction returns, then the channel of every node of the session graphs is registered in
-- the session: under its definition the session has this channel.
pub extraction_registers :
    (prog : Program) (fuel rounds : ℕ) (empty : Value) (globals : List (Value × Shape)) (init : ℕ)
    (main : Option ℕ) (s : State)
    → run prog fuel rounds empty globals init main toplevel ≡ done (tt, s)
    → (i : ℕ) (c : Cell) (ch : Chan) → get_elem? s.graph.nodes i ≡ some c
    → label_chan c.content ≡ some ch
    → lookup ch.def s.session.chans ≡ some ch
extraction_registers prog fuel rounds empty globals init main s e i c ch at of_cell =
    let (inv, later, u) =
      (keeps_run {T = registered} prog fuel rounds empty globals init main).at toplevel s tt tt
        toplevel-IsConsistent e in
    cell_chan s.session.chans (label_chan c.content) ch
      (cell_registered s.session.chans s.graph.nodes i c inv.in_nodes at) of_cell

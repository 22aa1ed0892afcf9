-- ===== src/Extract/Keeps.antt =====
-- What the interpreter of cfsmextract keeps, as long as its elementary actions keep it: an interface
-- of laws about these actions, and rules for the ways in which visit.go and func.go put them
-- together.
pub mod Rules
pub mod Memory
pub mod Moves
pub mod Comm
pub mod Run
pub mod Blocks
pub mod Main
use dingo_hunter.Prelude.{
  ℕ, String, ◌≡◌, refl, Bool, true, false, Option, none, some, List, [], ◌∷◌, lookup, nat_eq,
  option_eq,
}
use dingo_hunter.Ssa.{Value}
use dingo_hunter.Definition.{def_eq}
use dingo_hunter.SessType.Node.{Role, Chan}
use dingo_hunter.Extract.State.{
  Ref, Scope, Store, Label, new_chan, send, recv, label, goto, end, empty_body, Frame, Goroutine,
  State, Fault, Outcome, done, panic, out_of_fuel, M, pure, throw, ◌>>=◌, gets, demand, guard,
  modify_scope, modify_store,
}
use dingo_hunter.Extract.Nodes.{
  set_leaf, add_node, new_gortn, mark_visited, new_def, register, chan_at, set_sel_node,
  back_to_select, leaf_to_child,
}
use dingo_hunter.Extract.Comm.{set_recvok, set_recv_test}
use dingo_hunter.Extract.Run.{branch, enqueue, new_role}
use dingo_hunter.Extract.Main.{set_root}

-- An invariant of states, a relation of a state to later ones, and what it means that a channel is
-- known in a state.
pub record Theory : Type 1 where
  pub Inv : State → Type 0
  pub Later : State → State → Type 0
  pub Known : State → Chan → Type 0

-- Where `Pre` and the invariant hold, a run of the action that returns leads to a later state with
-- the invariant and with `Post`.
pub record Keeps {A : Type 0} (T : Theory) (Pre : State → Type 0) (Post : A → State → Type 0)
    (m : M A) : Type 0 where
  pub at :
      (s s' : State) (a : A)
      → Pre s
      → T.Inv s
      → m s ≡ done (a, s')
      → T.Inv s' × T.Later s s' × Post a s'

abbrev pub Always : State → Type 0
Always s = Unit

abbrev pub Quiet : {A : Type 0} → Theory → M A → Type 0
Quiet T m = Keeps T Always (λ a s. Unit) m

-- The channel of a node.
abbrev pub label_chan : Label → Option Chan
label_chan (new_chan ch) = some ch
label_chan (send sndr dest nondet t) = some dest
label_chan (recv orig rcvr nondet t stop) = some orig
label_chan (label name) = none
label_chan (goto name) = none
label_chan (end ch) = some ch
label_chan empty_body = none

-- The channel is known, if there is one.
abbrev pub AtChan : Theory → Option Chan → State → Type 0
AtChan T none s = Unit
AtChan T (some ch) s = T.Known s ch

abbrev pub fresh_frame : Scope → Frame
fresh_frame sc = record { scope = sc; recvok = [] }

abbrev pub framed : Frame → State → State
framed fr s = record s { frame = fr }

abbrev pub switched : Frame → Goroutine → List (Frame × Goroutine) → State → State
switched fr g rest s = record s { frame = fr; gortn = g; go_queue = rest }

-- Later states are so for good.
pub record Order (T : Theory) : Type 0 where
  pub later_refl : (s : State) → T.Later s s
  pub later_trans : (s t u : State) → T.Later s t → T.Later t u → T.Later s u

-- What the elementary actions and the changes of frames must obey.
pub record Laws (T : Theory) : Type 0 where
  pub order : Order T
  pub known_later : (s t : State) (ch : Chan) → T.Later s t → T.Known s ch → T.Known t ch
  pub chan_known :
      (s : State) (vd : Ref) (ch : Chan) → T.Inv s → lookup vd s.chans ≡ some ch → T.Known s ch
  pub test_known :
      (s : State) (v : Value) (ch : Chan) → T.Inv s → lookup v s.recv_test ≡ some ch → T.Known s ch
  pub recvok_known :
      (s : State) (v : Value) (ch : Chan)
      → T.Inv s
      → lookup v s.frame.recvok ≡ some (some ch)
      → T.Known s ch
  pub on_modify_scope : (f : Scope → Scope) → Quiet T (modify_scope f)
  pub on_modify_store : (f : Store → Store) → Quiet T (modify_store f)
  pub on_set_leaf : (leaf : Option ℕ) → Quiet T (set_leaf leaf)
  pub on_mark_visited : (blk n : ℕ) → Quiet T (mark_visited blk n)
  pub on_add_node : (l : Label) → Keeps T (AtChan T (label_chan l)) (λ n s. Unit) (add_node l)
  pub on_new_gortn : (role : Role) (name : String) → Quiet T (new_gortn role (label name))
  pub on_new_def : (v : Value) → Quiet T (new_def v)
  pub on_register :
      (extern : Bool) (v : Value)
      → Keeps T Always (λ (r : Ref × Chan) s. T.Known s r.1) (register extern v)
  pub on_set_sel_node : (v : Value) (blocking : Bool) → Quiet T (set_sel_node v blocking)
  pub on_leaf_to_child : (parent : Option ℕ) (idx : ℕ) → Quiet T (leaf_to_child parent idx)
  pub on_set_recvok :
      (v : Value) (ch : Option Chan) → Keeps T (AtChan T ch) (λ a s. Unit) (set_recvok v ch)
  pub on_set_recv_test :
      (v : Value) (ch : Chan) → Keeps T (λ s. T.Known s ch) (λ a s. Unit) (set_recv_test v ch)
  pub on_branch : (m n : M (Unit {0})) → Quiet T m → Quiet T n → Quiet T (branch m n)
  pub on_enqueue : (sc : Scope) (g : Goroutine) → Quiet T (enqueue sc g)
  pub on_new_role : (name : String) → Quiet T (new_role name)
  pub into_frame : (s : State) (sc : Scope) → T.Inv s → T.Inv (framed (fresh_frame sc) s)
  pub out_of_frame :
      (s s' : State) (sc : Scope)
      → T.Inv s
      → T.Inv s'
      → T.Later (framed (fresh_frame sc) s) s'
      → T.Inv (framed s.frame s') × T.Later s (framed s.frame s')
  pub on_set_root : Quiet T set_root
  -- The first goroutine of the queue takes over.
  pub on_switch :
      (s : State) (fr : Frame) (g : Goroutine) (rest : List (Frame × Goroutine))
      → T.Inv s
      → s.go_queue ≡ (fr, g) ∷ rest
      → T.Inv (switched fr g rest s) × T.Later s (switched fr g rest s)

instance abbrev pub laws_order : {T : Theory} ⦃laws : Laws T⦄ → Order T
laws_order ⦃laws⦄ = laws.order

-- ===== src/Cfsm/Machine.antt =====
-- cfsmextract/sesstype/cfsm.go: `rootToMachine`, `nodeToMachine` and `isSelfLoop`. A `*cfsm.State`
-- that may be nil is an option, and the calls that end the program are errors.
pub mod Steps
pub mod Acyclic
pub mod Semantics
pub mod Language
use dingo_hunter.Prelude.{
  String, ◌≡◌, refl, Option, none, some, Bool, true, false, List, [], Eq, string_eq, ◌==◌, lookup,
  insert, if◌then◌else◌,
}
use dingo_hunter.Ssa.{Ssa}
use dingo_hunter.SessType.Node.{
  Chan, chan_eq, chan_type, Node, Nodes, nil, cons, new_chan, label, goto, end, empty_body,
}
use dingo_hunter.SessType.Node
use dingo_hunter.Cfsm.Library.{Cfsm, Action, send, recv}

-- "Cannot Send to unknown channel" and its like; "Not channel"; a transition from a nil state.
pub data Fault : Type 0 where
  unknown_channel not_channel nil_state : Fault

pub data Result {ℓ} (A : Type ℓ) : Type ℓ where
  ok : A → Result A
  err : Fault → Result A

infixl 5 ◌>>=◌
abbrev pub ◌>>=◌ {ℓ κ} : {A : Type ℓ} {B : Type κ} → Result A → (A → Result B) → Result B
ok a >>= f = f a
err e >>= f = err e

-- A bind that succeeds does so in both parts.
pub >>=-eq-ok {ℓ κ} :
    {A : Type ℓ} {B : Type κ} (r : Result A) (f : A → Result B) {b : B}
    → (r >>= f) ≡ ok b
    → (a : A) × (r ≡ ok a) × (f a ≡ ok b)
>>=-eq-ok (ok a) f h = (a, refl, h)
>>=-eq-ok (err e) f h = cc

-- The 'close' message, `STOP`.
abbrev pub stop_message : String
stop_message = "STOP"

-- The name of the only child, if that is a `GotoNode`.
abbrev pub only_goto : Nodes → Option String
only_goto (cons (goto name cs) nil) = some name
only_goto cs = none

-- The parameters: the library, the types of values, `sys.Chans` and the machine `m`.
module _ (lib : Cfsm) (ssa : Ssa) (chans : List (Chan × lib.Machine)) (m : lib.Machine) where
  -- The memory and `sys.States[m]`.
  pub record Build : Type 0 where
    pub world : lib.World
    pub labels : List (String × Option lib.State)

  -- The machine of a channel and the name of its payload type.
  unfoldable pub resolve : Chan → Result (lib.Machine × String)
  resolve ch = elim (lookup ch chans) [
    | none ↦ err unknown_channel
    | some to ↦ elim (chan_type ssa ch) [ none ↦ err not_channel | some t ↦ ok (to, t) ]
  ]

  unfoldable pub resolve_end : Chan → Result lib.Machine
  resolve_end ch = elim (lookup ch chans) [ none ↦ err unknown_channel | some to ↦ ok to ]

  -- `loopback == q0`, where either may be nil.
  abbrev pub same_state : Option lib.State → Option lib.State → Bool
  same_state none none = true
  same_state (some q) (some r) = lib.state_eq.beq q r
  same_state q r = false

  abbrev pub loops_back : Option (Option lib.State) → Option lib.State → Bool
  loops_back none q0 = false
  loops_back (some loopback) q0 = same_state loopback q0

  abbrev pub is_self_loop_at : Option String → Option lib.State → Build → Bool
  is_self_loop_at none q0 b = false
  is_self_loop_at (some name) q0 b = loops_back (lookup name b.labels) q0

  -- `isSelfLoop`, of the children of the node.
  unfoldable pub is_self_loop : Nodes → Option lib.State → Build → Bool
  is_self_loop cs q0 b = is_self_loop_at (only_goto cs) q0 b

  -- `tr.SetNext(r); q0.AddTransition(tr)`
  unfoldable pub add_edge :
      Option lib.State → Action lib.Machine → Option lib.State → Build → Result Build
  add_edge (some q) a (some r) b = ok (record b { world = lib.add_transition q a r b.world })
  add_edge q a r b = err nil_state

  -- An action leads back to `q0` if it is a self-loop, else to a new state for the children.
  unfoldable pub act :
      Bool
      → Action lib.Machine
      → (Option lib.State → Build → Result Build)
      → Option lib.State
      → Build
      → Result Build
  act true a translate q0 b = add_edge q0 a q0 b
  act false a translate q0 b =
      let (q, w) = lib.new_state m b.world in
      translate (some q) (record b { world = w }) >>= λ b'. add_edge q0 a (some q) b'

  abbrev pub bind_label : String → Option lib.State → Build → Build
  bind_label name q0 b = record b { labels = insert name q0 b.labels }

  -- `sys.States[m][name]`, which is nil for an unknown label.
  abbrev pub target_of : Option (Option lib.State) → Option lib.State
  target_of none = none
  target_of (some q) = q

  abbrev pub target : String → Build → Option lib.State
  target name b = target_of (lookup name b.labels)

  unfoldable mutual
    pub node_to_machine : Node → Option lib.State → Build → Result Build
    node_to_machine (Node.send sndr dest nondet t cs) q0 b = resolve dest >>= λ (to, msg).
        act (is_self_loop cs q0 b) (send to msg) (nodes_to_machine cs) q0 b
    node_to_machine (Node.recv orig rcvr nondet t stop cs) q0 b = resolve orig >>= λ (from, msg).
        act (is_self_loop cs q0 b) (recv from (if stop then stop_message else msg))
          (nodes_to_machine cs) q0 b
    node_to_machine (end ch cs) q0 b =
        resolve_end ch >>= λ to. act false (send to stop_message) (nodes_to_machine cs) q0 b
    node_to_machine (new_chan ch cs) q0 b = nodes_to_machine cs q0 b
    node_to_machine (empty_body cs) q0 b = nodes_to_machine cs q0 b
    node_to_machine (label name cs) q0 b = nodes_to_machine cs q0 (bind_label name q0 b)
    node_to_machine (goto name cs) q0 b = nodes_to_machine cs (target name b) b

    pub nodes_to_machine : Nodes → Option lib.State → Build → Result Build
    nodes_to_machine nil q0 b = ok b
    nodes_to_machine (cons c cs) q0 b = node_to_machine c q0 b >>= nodes_to_machine cs q0

  unfoldable pub root_to_machine : Node → lib.World → Result lib.World
  root_to_machine root w =
      let (q0, w') = lib.new_state m w in
      node_to_machine root (some q0) (record { world = w'; labels = [] }) >>= λ b.
      ok (lib.set_start m q0 b.world)

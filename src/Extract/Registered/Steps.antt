-- ===== src/Extract/Registered/Steps.antt =====
-- The elementary actions of cfsmextract keep the channels registered.
use dingo_hunter.Prelude.{
  ℕ, suc, zero, ◌≡◌, Option, none, some, List, [], ◌∷◌, ◌++◌, nat_eq, String, option_eq, All,
}
use dingo_hunter.Definition.{def_eq}
use dingo_hunter.SessType.Node.{Role, Chan}
use dingo_hunter.SessType.Stack.{NodeStack, pop}
use dingo_hunter.Extract.State.{
  Scope, Label, Cell, State, Outcome, done, panic, empty_stack, M, ◌>>=◌, modify_scope, empty_body,
  label,
}
use dingo_hunter.Extract.Nodes.{
  add_child, leaf_cell, set_leaf, leaf_to, new_var, write_var, grow, leaf_node, add_node, new_gortn,
  leaf_to_child, push_leaf, leaf_to_top, pop_parent,
}
use dingo_hunter.Extract.Run.{branch}
use dingo_hunter.Extract.Keeps.{Keeps, Quiet, AtChan, label_chan, Order}
use dingo_hunter.Extract.Keeps.Rules.{
  returned, bind, quietly, keeps_pure, keeps_gets, keeps_demand, keeps_read_var, hold, weaken,
}
use dingo_hunter.Extract.Registered.{
  Chans, IfRegistered, Grows, IsCellRegistered, IsConsistent, ConsistentState, registered,
}

instance abbrev pub registered_order : Order registered
registered_order = record {
  later_refl = λ s d ch h. h;
  later_trans = λ s t u st tu d ch h. tu d ch (st d ch h);
}

-- What an action must show of the state that it returns.
abbrev pub Good : {A : Type 0} → State → A → State → Type 0
Good s a t = ConsistentState t × Grows s.session.chans t.session.chans × Unit {0}

pub registered-modify_scope : (f : Scope → Scope) → Quiet registered (modify_scope f)
unfolding modify_scope
registered-modify_scope f = record {
  at = λ s s' a pre inv e. returned (Good s) e (inv, λ d ch h. h, tt);
}

pub IfRegistered-Grows :
    (chans chans' : Chans) (o : Option Chan)
    → Grows chans chans'
    → IfRegistered chans o
    → IfRegistered chans' o
IfRegistered-Grows chans chans' none grows h = tt
IfRegistered-Grows chans chans' (some ch) grows h = grows ch.def ch h

pub nodes-Grows :
    (chans chans' : Chans) (nodes : List Cell)
    → Grows chans chans'
    → All (IsCellRegistered chans) nodes
    → All (IsCellRegistered chans') nodes
nodes-Grows chans chans' [] grows h = tt
nodes-Grows chans chans' (c ∷ cs) grows (h, hs) = (
  IfRegistered-Grows chans chans' (label_chan c.content) grows h,
  nodes-Grows chans chans' cs grows hs,
)

add_child-IsRegistered :
    (chans : Chans) (nodes : List Cell) (i n : ℕ)
    → All (IsCellRegistered chans) nodes
    → All (IsCellRegistered chans) (add_child nodes i n)
add_child-IsRegistered chans [] i n h = tt
add_child-IsRegistered chans (c ∷ cs) zero n (h, hs) = (h, hs)
add_child-IsRegistered chans (c ∷ cs) (suc i) n (h, hs) =
    (h, add_child-IsRegistered chans cs i n hs)

snoc-IsRegistered :
    (chans : Chans) (nodes : List Cell) (l : Label)
    → All (IsCellRegistered chans) nodes
    → IfRegistered chans (label_chan l)
    → All (IsCellRegistered chans) (nodes ++ leaf_cell l ∷ [])
snoc-IsRegistered chans [] l h last = (last, tt)
snoc-IsRegistered chans (c ∷ cs) l (h, hs) last = (h, snoc-IsRegistered chans cs l hs last)

-- More nodes, and other definitions.
pub with_nodes :
    (s : State) (nodes : List Cell)
    → ConsistentState s
    → All (IsCellRegistered s.session.chans) nodes
    → IsConsistent s.frame.recvok s.chans s.recv_test s.session.chans nodes s.versions s.go_queue
with_nodes s nodes inv h = record {
  in_chans = inv.in_chans;
  in_tests = inv.in_tests;
  in_recvok = inv.in_recvok;
  in_nodes = h;
  are_issued = inv.are_issued;
  in_queue = inv.in_queue;
}

at_label : (o : Option Chan) (s : State) → AtChan registered o s → IfRegistered s.session.chans o
at_label none s known = tt
at_label (some ch) s known = known

pub registered-grow :
    (i : ℕ) (l : Label)
    → Keeps registered (AtChan registered (label_chan l)) (λ n s. Unit) (grow i l)
unfolding grow
registered-grow i l = record {
  at = λ s s' n known inv e. returned (Good s) e (
    with_nodes s _ inv (
        snoc-IsRegistered s.session.chans (add_child s.graph.nodes i _) l
          (add_child-IsRegistered s.session.chans s.graph.nodes i _ inv.in_nodes)
          (at_label (label_chan l) s known)),
    λ d ch h. h,
    tt,
  );
}

pub registered-new_gortn :
    (role : Role) (name : String) → Quiet registered (new_gortn role (label name))
unfolding new_gortn
registered-new_gortn role name = record {
  at = λ s s' n known inv e. returned (Good s) e (
    with_nodes s _ inv
        (snoc-IsRegistered s.session.chans s.graph.nodes (label name) inv.in_nodes tt),
    λ d ch h. h,
    tt,
  );
}

pub registered-leaf_to : (n : ℕ) → Quiet registered (leaf_to n)
unfolding leaf_to new_var set_leaf ◌>>=◌
registered-leaf_to n = record {
  at = λ s s' a pre inv e. returned (Good s) e (inv, λ d ch h. h, tt);
}

pub registered-leaf_node : Quiet registered leaf_node
unfolding leaf_node
registered-leaf_node =
    quietly (keeps_gets _) λ leaf. quietly (keeps_demand _ leaf) λ a. keeps_read_var a

pub AtChan-Grows :
    (o : Option Chan) (s t : State)
    → Grows s.session.chans t.session.chans
    → AtChan registered o s
    → AtChan registered o t
AtChan-Grows none s t grows h = tt
AtChan-Grows (some ch) s t grows h = grows ch.def ch h

pub registered-add_node :
    (l : Label) → Keeps registered (AtChan registered (label_chan l)) (λ n s. Unit) (add_node l)
unfolding add_node
registered-add_node l =
    bind (hold (AtChan-Grows (label_chan l)) (weaken registered-leaf_node))
      λ i. bind (registered-grow i l) λ n. quietly (registered-leaf_to n) λ u. keeps_pure

pub registered-leaf_to_child :
    (parent : Option ℕ) (idx : ℕ) → Quiet registered (leaf_to_child parent idx)
unfolding leaf_to_child write_var
registered-leaf_to_child parent idx = quietly (keeps_demand _ parent) λ a.
    quietly (keeps_read_var a) λ p. quietly (keeps_gets _) λ g. quietly (keeps_demand _ _) λ n.
      quietly (keeps_gets _) λ leaf.
        quietly (keeps_demand _ leaf)
          λ b. record { at = λ s s' a pre inv e. returned (Good s) e (inv, λ d ch h. h, tt) }

pub registered-push_leaf : Quiet registered push_leaf
unfolding push_leaf
registered-push_leaf =
    quietly registered-leaf_node
      λ n. record { at = λ s s' a pre inv e. returned (Good s) e (inv, λ d ch h. h, tt) }

pub registered-leaf_to_top : Quiet registered leaf_to_top
unfolding leaf_to_top
registered-leaf_to_top =
    quietly (keeps_gets _) λ stack. quietly (keeps_demand _ _) λ n. registered-leaf_to n

popped :
    (s s' : State) (a : Unit {0}) (o : Option (NodeStack ℕ))
    → ConsistentState s
    → elim o as (λ o. Outcome (Unit {0} × State)) [
      | none ↦ panic empty_stack
      | some stack ↦ done (tt, record s { graph = record s.graph { if_parent = stack } })
    ]
      ≡ done (a, s')
    → Good s a s'
popped s s' a none inv e = absurd cc
popped s s' a (some stack) inv e = returned (Good s) e (inv, λ d ch h. h, tt)

pub registered-pop_parent : Quiet registered pop_parent
unfolding pop_parent
registered-pop_parent = record {
  at = λ s s' a pre inv e. popped s s' a (pop s.graph.if_parent) inv e;
}

pub registered-branch :
    (m n : M (Unit {0})) → Quiet registered m → Quiet registered n → Quiet registered (branch m n)
unfolding branch
registered-branch m n keeps_m keeps_n = quietly registered-push_leaf λ u.
    quietly registered-leaf_to_top λ u. quietly (registered-add_node empty_body) λ a.
      quietly keeps_m λ u. quietly registered-leaf_to_top λ u.
        quietly (registered-add_node empty_body) λ b. quietly keeps_n λ u. registered-pop_parent

-- ===== src/SessType/Dot.antt =====
-- cfsmextract/sesstype/dot.go: the drawing of a session, as the calls of AddNode, AddEdge and
-- AddSubGraph of github.com/awalterschulze/gographviz that it makes, without their attributes.
pub mod Numbers
pub mod Roots
use dingo_hunter.Prelude.{
  ℕ, suc, zero, String, Option, none, some, List, [], ◌∷◌, lookup, insert, string_eq,
}
use dingo_hunter.Ssa.{Ssa}
use dingo_hunter.SessType.Node.{
  Op, Role, role_eq, Node, Nodes, nil, cons, new_chan, send, recv, label, goto, end, empty_body,
  kind, Chan, chan_type,
}
use dingo_hunter.SessType.Session.{Session}

-- The name of a node of the drawing: `label` or the kind of the node with a number, or the empty
-- text that stands for a key that is missing.
pub data DotName : Type 0 where
  label_name : ℕ → DotName
  kind_name : Op → ℕ → DotName
  no_name : DotName

pub data Call : Type 0 where
  add_node : (cluster : String) → DotName → Call
  add_edge : (source target : DotName) → Call
  add_sub_graph : (cluster : String) → Call

-- `GraphvizDot`; the last call stands first.
pub record GraphvizDot : Type 0 where
  pub calls : List Call
  pub count : ℕ
  pub label_nodes : List (String × DotName)

unfoldable pub call : Call → GraphvizDot → GraphvizDot
call c dot = record dot { calls = c ∷ dot.calls }

-- `nodeToDotNode` of a label, and of any other node but a goto.
unfoldable pub label_to_dot_node : String → GraphvizDot → DotName × GraphvizDot
label_to_dot_node name dot = (
  label_name dot.count,
  record dot {
    count = suc dot.count;
    label_nodes = insert name (label_name dot.count) dot.label_nodes;
  },
)

unfoldable pub op_to_dot_node : Op → GraphvizDot → DotName × GraphvizDot
op_to_dot_node op dot = (kind_name op dot.count, record dot { count = suc dot.count })

-- The same for a node that makes a channel, whose type is printed.
unfoldable pub chan_to_dot_node : Ssa → Chan → GraphvizDot → Option (DotName × GraphvizDot)
unfolding op_to_dot_node
chan_to_dot_node ssa ch dot = elim (chan_type ssa ch) [
  | none ↦ none
  | some t ↦ some (op_to_dot_node Op.new_chan_op dot)
]

-- `AddNode`, and the edge from the parent, if there is one.
unfoldable pub draw :
    (cluster : String) → (parent : Option DotName) → DotName × GraphvizDot → GraphvizDot
unfolding call
draw cluster none (name, dot) = call (add_node cluster name) dot
draw cluster (some p) (name, dot) = call (add_edge p name) (call (add_node cluster name) dot)

-- `dot.LabelNodes[name]`
unfoldable pub label_of : Option DotName → DotName
label_of none = no_name
label_of (some name) = name

unfoldable pub jump : String → DotName → GraphvizDot → GraphvizDot
unfolding call label_of
jump name p dot = call (add_edge p (label_of (lookup name dot.label_nodes))) dot

unfoldable pub empty_dot : GraphvizDot
empty_dot = record { calls = []; count = 0; label_nodes = [] }

module _ (ssa : Ssa) where
  -- `visitNode`, and its loop over the children. A goto without a parent is a nil pointer.
  unfoldable mutual
    unfolding label_to_dot_node op_to_dot_node chan_to_dot_node draw jump

    pub visit_node :
        (cluster : String) → Node → (parent : Option DotName) → GraphvizDot → Option GraphvizDot
    visit_node cluster (label name cs) parent dot =
        let drawn = label_to_dot_node name dot in
        visit_nodes cluster cs (some drawn.0) (draw cluster parent drawn)
    visit_node cluster (goto name cs) none dot = none
    visit_node cluster (goto name cs) (some p) dot =
        visit_nodes cluster cs (some p) (jump name p dot)
    visit_node cluster (new_chan ch cs) parent dot = elim (chan_to_dot_node ssa ch dot) [
      | none ↦ none
      | some drawn ↦ visit_nodes cluster cs (some drawn.0) (draw cluster parent drawn)
    ]
    visit_node cluster (send sndr dest nondet t cs) parent dot =
        let drawn = op_to_dot_node Op.send_op dot in
        visit_nodes cluster cs (some drawn.0) (draw cluster parent drawn)
    visit_node cluster (recv orig rcvr nondet t stop cs) parent dot =
        let drawn = op_to_dot_node Op.recv_op dot in
        visit_nodes cluster cs (some drawn.0) (draw cluster parent drawn)
    visit_node cluster (end ch cs) parent dot =
        let drawn = op_to_dot_node Op.end_op dot in
        visit_nodes cluster cs (some drawn.0) (draw cluster parent drawn)
    visit_node cluster (empty_body cs) parent dot =
        let drawn = op_to_dot_node Op.no_op dot in
        visit_nodes cluster cs (some drawn.0) (draw cluster parent drawn)

    pub visit_nodes :
        (cluster : String) → Nodes → (parent : Option DotName) → GraphvizDot → Option GraphvizDot
    visit_nodes cluster nil parent dot = some dot
    visit_nodes cluster (cons n ns) parent dot = elim (visit_node cluster n parent dot) [
      | none ↦ none
      | some dot' ↦ visit_nodes cluster ns parent dot'
    ]

  unfoldable pub visit_root : Role → Option Node → GraphvizDot → Option GraphvizDot
  unfolding visit_node
  visit_root role none dot = some dot
  visit_root role (some root) dot = visit_node role.name root none dot

  unfoldable pub visit_types : List (Role × Option Node) → GraphvizDot → Option GraphvizDot
  unfolding visit_root call
  visit_types [] dot = some dot
  visit_types ((role, root) ∷ types) dot = elim (visit_root role root dot) [
    | none ↦ none
    | some dot' ↦ visit_types types (call (add_sub_graph role.name) dot')
  ]

  -- `NewGraphvizDot`
  unfoldable pub new_graphviz_dot : Session → Option GraphvizDot
  unfolding empty_dot visit_types
  new_graphviz_dot s = visit_types s.types empty_dot

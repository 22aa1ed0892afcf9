-- ===== src/SessType/Node.antt =====
-- cfsmextract/sesstype/sesstype.go: channels, roles and the nodes of a session graph, and nodes.go.
-- A node is a tree: the extraction appends each new node to one parent only. `Append` returns the
-- parent with its new child, where the source mutates it.
pub mod Count
use dingo_hunter.Prelude.{
  ℕ, zero, suc, ◌+◌, String, ◌≡◌, refl, Bool, true, false, ◌&&◌, ◌↔◌, Option, none, some, arith, Eq,
  ◌==◌, string_eq, nat_eq, List, [], ◌∷◌,
}
use dingo_hunter.Definition.{Definition, def_eq}
use dingo_hunter.Ssa.{Ssa}

-- A `*role`: the address tells apart pointers to roles of the same name.
pub record Role : Type 0 where
  pub name : String
  pub address : ℕ

pub record Chan : Type 0 where
  pub def : Definition
  pub role : Role
  pub extern : Bool

abbrev pub role_beq : Role → Role → Bool
role_beq r s = (r.name == s.name) && (r.address == s.address)

pub role_beq_iff : (r s : Role) → (role_beq r s ≡ true) ↔ (r ≡ s)
role_beq_iff r s =
    ground (arith, string_eq.beq_iff r.name s.name, nat_eq.beq_iff r.address s.address)

instance abbrev pub role_eq : Eq Role
role_eq = record { beq = role_beq; beq_iff = role_beq_iff }

abbrev pub bool_beq : Bool → Bool → Bool
bool_beq true b = b
bool_beq false true = false
bool_beq false false = true

abbrev pub chan_beq : Chan → Chan → Bool
chan_beq c d = (c.def == d.def) && ((c.role == d.role) && bool_beq c.extern d.extern)

pub chan_beq_iff : (c d : Chan) → (chan_beq c d ≡ true) ↔ (c ≡ d)
chan_beq_iff c d = ground (arith, def_eq.beq_iff c.def d.def, role_eq.beq_iff c.role d.role)

instance abbrev pub chan_eq : Eq Chan
chan_eq = record { beq = chan_beq; beq_iff = chan_beq_iff }

-- `Chan.Type`, printed: the element type; `none` is the panic "Not channel".
unfoldable pub chan_type : Ssa → Chan → Option String
chan_type ssa ch = ssa.chan_elem ch.def.var

pub data Op : Type 0 where
  no_op new_chan_op send_op recv_op end_op : Op

-- The fields `t` hold a types.Type, printed; `none` is nil.
mutual
  pub data Node : Type 0 where
    new_chan : Chan → Nodes → Node
    send : (sndr : Role) (dest : Chan) (nondet : Bool) (t : Option String) → Nodes → Node
    recv :
        (orig : Chan) (rcvr : Role) (nondet : Bool) (t : Option String) (stop : Bool) → Nodes → Node
    label : String → Nodes → Node
    goto : String → Nodes → Node
    end : Chan → Nodes → Node
    empty_body : Nodes → Node

  pub data Nodes : Type 0 where
    nil : Nodes
    cons : Node → Nodes → Nodes

unfoldable pub kind : Node → Op
kind (new_chan ch cs) = new_chan_op
kind (send sndr dest nondet t cs) = send_op
kind (recv orig rcvr nondet t stop cs) = recv_op
kind (label name cs) = no_op
kind (goto name cs) = no_op
kind (end ch cs) = end_op
kind (empty_body cs) = no_op

unfoldable pub children : Node → Nodes
children (new_chan ch cs) = cs
children (send sndr dest nondet t cs) = cs
children (recv orig rcvr nondet t stop cs) = cs
children (label name cs) = cs
children (goto name cs) = cs
children (end ch cs) = cs
children (empty_body cs) = cs

-- `append(s, n)` on a slice of nodes.
unfoldable pub snoc : Nodes → Node → Nodes
snoc nil n = cons n nil
snoc (cons c cs) n = cons c (snoc cs n)

unfoldable pub append : Node → Node → Node
append (new_chan ch cs) n = new_chan ch (snoc cs n)
append (send sndr dest nondet t cs) n = send sndr dest nondet t (snoc cs n)
append (recv orig rcvr nondet t stop cs) n = recv orig rcvr nondet t stop (snoc cs n)
append (label name cs) n = label name (snoc cs n)
append (goto name cs) n = goto name (snoc cs n)
append (end ch cs) n = end ch (snoc cs n)
append (empty_body cs) n = empty_body (snoc cs n)

unfoldable pub len : Nodes → ℕ
len nil = 0
len (cons c cs) = suc (len cs)

unfoldable pub nth : Nodes → ℕ → Option Node
nth nil i = none
nth (cons c cs) zero = some c
nth (cons c cs) (suc i) = nth cs i

-- `Child(i)`; `none` is the panic on an index out of range.
unfoldable pub child : Node → ℕ → Option Node
unfolding children nth
child n i = nth (children n) i

pub new_new_chan_node : Chan → Node
new_new_chan_node ch = new_chan ch nil

pub new_send_node : Role → Chan → Option String → Node
new_send_node sndr dest typ = send sndr dest false typ nil

pub new_select_send_node : Role → Chan → Option String → Node
new_select_send_node sndr dest typ = send sndr dest true typ nil

pub new_recv_node : Chan → Role → Option String → Node
new_recv_node orig rcvr typ = recv orig rcvr false typ false nil

pub new_recv_stop_node : Chan → Role → Option String → Node
new_recv_stop_node orig rcvr typ = recv orig rcvr false typ true nil

pub new_select_recv_node : Chan → Role → Option String → Node
new_select_recv_node orig rcvr typ = recv orig rcvr true typ false nil

pub new_label_node : String → Node
new_label_node name = label name nil

pub new_goto_node : String → Node
new_goto_node name = goto name nil

pub new_end_node : Chan → Node
new_end_node ch = end ch nil

-- nodes.go: `CountNodes`, and its loop over the children.
unfoldable mutual
  pub count_nodes : Node → ℕ
  count_nodes (new_chan ch cs) = suc (count_all cs)
  count_nodes (send sndr dest nondet t cs) = suc (count_all cs)
  count_nodes (recv orig rcvr nondet t stop cs) = suc (count_all cs)
  count_nodes (label name cs) = suc (count_all cs)
  count_nodes (goto name cs) = suc (count_all cs)
  count_nodes (end ch cs) = suc (count_all cs)
  count_nodes (empty_body cs) = suc (count_all cs)

  pub count_all : Nodes → ℕ
  count_all nil = 0
  count_all (cons c cs) = count_nodes c + count_all cs

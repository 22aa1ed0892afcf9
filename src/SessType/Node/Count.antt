-- ===== src/SessType/Node/Count.antt =====
-- How `Append` (cfsmextract/sesstype/sesstype.go) and `CountNodes` (nodes.go) fit together.
use dingo_hunter.SessType.Node.{
  Node, Nodes, nil, cons, new_chan, send, recv, label, goto, end, empty_body, kind, children, snoc,
  append, len, nth, child, count_nodes, count_all,
}
use dingo_hunter.Prelude.{◌+◌, ◌≡◌, refl, some, arith}

count_all-snoc : (cs : Nodes) (n : Node) → count_all (snoc cs n) ≡ count_all cs + count_nodes n
unfolding count_nodes snoc
count_all-snoc nil n = omega arith
count_all-snoc (cons c cs) n = omega (arith, count_all-snoc cs n)

count-append : (p n : Node) → count_nodes (append p n) ≡ count_nodes p + count_nodes n
unfolding count_nodes append
count-append (new_chan ch cs) n = omega (arith, count_all-snoc cs n)
count-append (send sndr dest nondet t cs) n = omega (arith, count_all-snoc cs n)
count-append (recv orig rcvr nondet t stop cs) n = omega (arith, count_all-snoc cs n)
count-append (label name cs) n = omega (arith, count_all-snoc cs n)
count-append (goto name cs) n = omega (arith, count_all-snoc cs n)
count-append (end ch cs) n = omega (arith, count_all-snoc cs n)
count-append (empty_body cs) n = omega (arith, count_all-snoc cs n)

nth-snoc : (cs : Nodes) (n : Node) → nth (snoc cs n) (len cs) ≡ some n
unfolding nth snoc len
nth-snoc nil n = refl
nth-snoc (cons c cs) n = nth-snoc cs n

children-append : (p n : Node) → children (append p n) ≡ snoc (children p) n
unfolding children append
children-append (new_chan ch cs) n = refl
children-append (send sndr dest nondet t cs) n = refl
children-append (recv orig rcvr nondet t stop cs) n = refl
children-append (label name cs) n = refl
children-append (goto name cs) n = refl
children-append (end ch cs) n = refl
children-append (empty_body cs) n = refl

kind-append : (p n : Node) → kind (append p n) ≡ kind p
unfolding kind append
kind-append (new_chan ch cs) n = refl
kind-append (send sndr dest nondet t cs) n = refl
kind-append (recv orig rcvr nondet t stop cs) n = refl
kind-append (label name cs) n = refl
kind-append (goto name cs) n = refl
kind-append (end ch cs) n = refl
kind-append (empty_body cs) n = refl

-- Appending a child keeps the kind of the node, adds the child's nodes to the count, and puts the
-- child at the first free index.
pub append_lem :
    (p n : Node)
    → (kind (append p n) ≡ kind p)
      × (count_nodes (append p n) ≡ count_nodes p + count_nodes n)
      × (child (append p n) (len (children p)) ≡ some n)
unfolding child
append_lem p n =
    (kind-append p n, count-append p n, rw (children-append p n) (nth-snoc (children p) n))

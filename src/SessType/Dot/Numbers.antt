-- ===== src/SessType/Dot/Numbers.antt =====
-- The numbers in the names of a drawing (cfsmextract/sesstype/dot.go), and how many nodes and edges
-- it has.
use dingo_hunter.Prelude.{
  ℕ, suc, ◌+◌, ◌≡◌, refl, ap, sym, subst, arith, String, Option, none, some, List, [], ◌∷◌,
  string_eq,
}
use dingo_hunter.Ssa.{Ssa}
use dingo_hunter.SessType.Node.{
  Op, Node, Nodes, nil, cons, new_chan, send, recv, label, goto, end, empty_body, count_nodes,
  count_all, Chan, chan_type,
}
use dingo_hunter.SessType.Dot.{
  DotName, label_name, kind_name, no_name, Call, add_node, add_edge, add_sub_graph, GraphvizDot,
  call, label_to_dot_node, op_to_dot_node, chan_to_dot_node, draw, jump, visit_node, visit_nodes,
}

-- The names of the nodes that were added have the numbers below the count, each once, in falling
-- order from the last.
abbrev pub IsNamed : ℕ → DotName → Type 0
IsNamed i (label_name n) = i ≡ suc n
IsNamed i (kind_name op n) = i ≡ suc n
IsNamed i no_name = ⊥

abbrev pub IsNumbered : ℕ → List Call → Type 0
IsNumbered i [] = i ≡ 0
IsNumbered i (add_node cluster name ∷ calls) =
    (j : ℕ) × (i ≡ suc j) × IsNamed i name × IsNumbered j calls
IsNumbered i (add_edge source target ∷ calls) = IsNumbered i calls
IsNumbered i (add_sub_graph cluster ∷ calls) = IsNumbered i calls

abbrev pub edges : List Call → ℕ
edges [] = 0
edges (add_node cluster name ∷ calls) = edges calls
edges (add_edge source target ∷ calls) = suc (edges calls)
edges (add_sub_graph cluster ∷ calls) = edges calls

-- The gotos of a session graph.
abbrev mutual
  pub gotos : Node → ℕ
  gotos (label name cs) = all_gotos cs
  gotos (goto name cs) = suc (all_gotos cs)
  gotos (new_chan ch cs) = all_gotos cs
  gotos (send sndr dest nondet t cs) = all_gotos cs
  gotos (recv orig rcvr nondet t stop cs) = all_gotos cs
  gotos (end ch cs) = all_gotos cs
  gotos (empty_body cs) = all_gotos cs

  pub all_gotos : Nodes → ℕ
  all_gotos nil = 0
  all_gotos (cons n ns) = gotos n + all_gotos ns

-- The channels that a session graph makes have channel types.
module _ (ssa : Ssa) where
  abbrev mutual
    pub MakesChans : Node → Type 0
    MakesChans (label name cs) = AllMakeChans cs
    MakesChans (goto name cs) = AllMakeChans cs
    MakesChans (new_chan ch cs) = ((t : String) × (chan_type ssa ch ≡ some t)) × AllMakeChans cs
    MakesChans (send sndr dest nondet t cs) = AllMakeChans cs
    MakesChans (recv orig rcvr nondet t stop cs) = AllMakeChans cs
    MakesChans (end ch cs) = AllMakeChans cs
    MakesChans (empty_body cs) = AllMakeChans cs

    pub AllMakeChans : Nodes → Type 0
    AllMakeChans nil = Unit
    AllMakeChans (cons n ns) = MakesChans n × AllMakeChans ns

-- `dot'` has the drawings of `total` more nodes, of which `jumps` are gotos, and `links` more edges.
pub record Adds (dot : GraphvizDot) (total jumps links : ℕ) (dot' : GraphvizDot) : Type 0 where
  pub numbered : IsNumbered dot'.count dot'.calls
  pub nodes : dot'.count + jumps ≡ dot.count + total
  pub linked : edges dot'.calls ≡ edges dot.calls + links

-- A drawing that succeeds.
abbrev pub Draws : GraphvizDot → ℕ → ℕ → ℕ → Option GraphvizDot → Type 0
Draws dot total jumps links result =
    (dot' : GraphvizDot) × (result ≡ some dot') × Adds dot total jumps links dot'

Draws-trans :
    (dot mid : GraphvizDot) (t j l t' j' l' : ℕ) (result : Option GraphvizDot)
    → Adds dot t j l mid
    → Draws mid t' j' l' result
    → Draws dot (t + t') (j + j') (l + l') result
Draws-trans dot mid t j l t' j' l' result first (dot', e, later) = (
  dot',
  e,
  record {
    numbered = later.numbered;
    nodes = let a = first.nodes in let b = later.nodes in ground arith;
    linked = let a = first.linked in let b = later.linked in ground arith;
  },
)

-- A new node with an edge from its parent.
op-Adds :
    (cluster : String) (op : Op) (p : DotName) (dot : GraphvizDot)
    → IsNumbered dot.count dot.calls
    → Adds dot 1 0 1 (draw cluster (some p) (op_to_dot_node op dot))
unfolding draw call op_to_dot_node
op-Adds cluster op p dot h = record {
  numbered = (dot.count, refl, refl, h);
  nodes = ground arith;
  linked = ground arith;
}

label-Adds :
    (cluster name : String) (p : DotName) (dot : GraphvizDot)
    → IsNumbered dot.count dot.calls
    → Adds dot 1 0 1 (draw cluster (some p) (label_to_dot_node name dot))
unfolding draw call label_to_dot_node
label-Adds cluster name p dot h = record {
  numbered = (dot.count, refl, refl, h);
  nodes = ground arith;
  linked = ground arith;
}

jump-Adds :
    (name : String) (p : DotName) (dot : GraphvizDot)
    → IsNumbered dot.count dot.calls
    → Adds dot 1 1 1 (jump name p dot)
unfolding jump call
jump-Adds name p dot h = record { numbered = h; nodes = ground arith; linked = ground arith }

-- A node of the drawing with so many edges, then its children.
pub below :
    (dot mid : GraphvizDot) (cs : Nodes) (l j jumps links : ℕ) (result : Option GraphvizDot)
    → Adds dot 1 j l mid
    → Draws mid (count_all cs) (all_gotos cs) (count_all cs) result
    → jumps ≡ j + all_gotos cs
    → links ≡ l + count_all cs
    → Draws dot (suc (count_all cs)) jumps links result
below dot mid cs l j jumps links result first rest is_jumps is_links =
    let (dot', e, adds) =
      Draws-trans dot mid 1 j l (count_all cs) (all_gotos cs) (count_all cs) result first rest in
    (
      dot',
      e,
      record {
        numbered = adds.numbered;
        nodes = let a = adds.nodes in ground arith;
        linked = let a = adds.linked in ground arith;
      },
    )

module _ (ssa : Ssa) where
  visit_nodes-cons :
      (cluster : String) (n : Node) (ns : Nodes) (p : Option DotName) (dot mid : GraphvizDot)
      → visit_node ssa cluster n p dot ≡ some mid
      → visit_nodes ssa cluster (cons n ns) p dot ≡ visit_nodes ssa cluster ns p mid
  unfolding visit_node
  visit_nodes-cons cluster n ns p dot mid e =
      ap (λ o. elim o [ none ↦ none | some d ↦ visit_nodes ssa cluster ns p d ]) e

  chan_to_dot_node-typed :
      (ch : Chan) (t : String) (dot : GraphvizDot)
      → chan_type ssa ch ≡ some t
      → chan_to_dot_node ssa ch dot ≡ some (op_to_dot_node Op.new_chan_op dot)
  unfolding chan_to_dot_node
  chan_to_dot_node-typed ch t dot e = rw (e, chan_to_dot_node) refl

  mutual
    unfolding visit_node count_nodes

    pub visit_node-Draws :
        (cluster : String) (n : Node) (p : DotName) (dot : GraphvizDot)
        → MakesChans ssa n
        → IsNumbered dot.count dot.calls
        → Draws dot
            (count_nodes n)
            (gotos n)
            (count_nodes n)
            (visit_node ssa cluster n (some p) dot)
    visit_node-Draws cluster (label name cs) p dot typed h =
        let adds = label-Adds cluster name p dot h in
        below dot _ cs 1 0 _ _ _ adds (visit_nodes-Draws cluster cs _ _ typed adds.numbered)
          (ground arith) (ground arith)
    visit_node-Draws cluster (send sndr dest nondet t cs) p dot typed h =
        let adds = op-Adds cluster Op.send_op p dot h in
        below dot _ cs 1 0 _ _ _ adds (visit_nodes-Draws cluster cs _ _ typed adds.numbered)
          (ground arith) (ground arith)
    visit_node-Draws cluster (recv orig rcvr nondet t stop cs) p dot typed h =
        let adds = op-Adds cluster Op.recv_op p dot h in
        below dot _ cs 1 0 _ _ _ adds (visit_nodes-Draws cluster cs _ _ typed adds.numbered)
          (ground arith) (ground arith)
    visit_node-Draws cluster (end ch cs) p dot typed h =
        let adds = op-Adds cluster Op.end_op p dot h in
        below dot _ cs 1 0 _ _ _ adds (visit_nodes-Draws cluster cs _ _ typed adds.numbered)
          (ground arith) (ground arith)
    visit_node-Draws cluster (empty_body cs) p dot typed h =
        let adds = op-Adds cluster Op.no_op p dot h in
        below dot _ cs 1 0 _ _ _ adds (visit_nodes-Draws cluster cs _ _ typed adds.numbered)
          (ground arith) (ground arith)
    visit_node-Draws cluster (new_chan ch cs) p dot ((t, is_chan), typed) h =
        let adds = op-Adds cluster Op.new_chan_op p dot h in
        let next : Option (DotName × GraphvizDot) → Option GraphvizDot = λ o. elim o [
          | none ↦ none
          | some drawn ↦ visit_nodes ssa cluster cs (some drawn.0) (draw cluster (some p) drawn)
        ] in
        subst (Draws dot (suc (count_all cs)) (all_gotos cs) (suc (count_all cs)))
          (ap next (sym (chan_to_dot_node-typed ch t dot is_chan)))
          (below dot _ cs 1 0 _ _ _ adds (visit_nodes-Draws cluster cs _ _ typed adds.numbered)
            (ground arith) (ground arith))
    visit_node-Draws cluster (goto name cs) p dot typed h =
        let adds = jump-Adds name p dot h in
        below dot _ cs 1 1 _ _ _ adds (visit_nodes-Draws cluster cs p _ typed adds.numbered)
          (ground arith) (ground arith)

    pub visit_nodes-Draws :
        (cluster : String) (cs : Nodes) (p : DotName) (dot : GraphvizDot)
        → AllMakeChans ssa cs
        → IsNumbered dot.count dot.calls
        → Draws dot
            (count_all cs)
            (all_gotos cs)
            (count_all cs)
            (visit_nodes ssa cluster cs (some p) dot)
    visit_nodes-Draws cluster nil p dot typed h =
        (dot, refl, record { numbered = h; nodes = ground arith; linked = ground arith })
    visit_nodes-Draws cluster (cons n ns) p dot (typed, more) h =
        let (mid, drawn, first) = visit_node-Draws cluster n p dot typed h in
        subst (Draws dot (count_all (cons n ns)) (all_gotos (cons n ns)) (count_all (cons n ns)))
          (sym (visit_nodes-cons cluster n ns (some p) dot mid drawn))
          (Draws-trans dot mid (count_nodes n) (gotos n) (count_nodes n) (count_all ns)
            (all_gotos ns) (count_all ns) (visit_nodes ssa cluster ns (some p) mid) first
            (visit_nodes-Draws cluster ns p mid more first.numbered))

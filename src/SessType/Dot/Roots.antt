-- ===== src/SessType/Dot/Roots.antt =====
-- The numbers in the drawing of a whole session (cfsmextract/sesstype/dot.go).
use dingo_hunter.Prelude.{
  ℕ, ◌+◌, ◌≡◌, refl, ap, ◌∙◌, arith, String, Option, none, some, List, [], ◌∷◌, All,
}
use dingo_hunter.Ssa.{Ssa}
use dingo_hunter.SessType.Node.{
  Role, Node, label, goto, new_chan, send, recv, end, empty_body, count_nodes, count_all,
}
use dingo_hunter.SessType.Session.{Session}
use dingo_hunter.SessType.Dot.{
  GraphvizDot, call, add_sub_graph, label_to_dot_node, draw, visit_node, visit_root, visit_types,
  empty_dot, new_graphviz_dot,
}
use dingo_hunter.SessType.Dot.Numbers.{
  IsNumbered, edges, gotos, all_gotos, MakesChans, Adds, below, visit_nodes-Draws,
}

-- The root of a goroutine is a label, or nil.
abbrev pub HasLabel : Role × Option Node → Type 0
HasLabel (role, none) = Unit
HasLabel (role, some (label name cs)) = Unit
HasLabel (role, some (goto name cs)) = ⊥
HasLabel (role, some (new_chan ch cs)) = ⊥
HasLabel (role, some (send sndr dest nondet t cs)) = ⊥
HasLabel (role, some (recv orig rcvr nondet t stop cs)) = ⊥
HasLabel (role, some (end ch cs)) = ⊥
HasLabel (role, some (empty_body cs)) = ⊥

-- A number for each root that is not nil, in total.
abbrev pub total : (Node → ℕ) → List (Role × Option Node) → ℕ
total f [] = 0
total f ((role, none) ∷ types) = total f types
total f ((role, some root) ∷ types) = f root + total f types

abbrev pub one : Node → ℕ
one n = 1

root-Adds :
    (cluster name : String) (dot : GraphvizDot)
    → IsNumbered dot.count dot.calls
    → Adds dot 1 0 0 (draw cluster none (label_to_dot_node name dot))
unfolding draw call label_to_dot_node
root-Adds cluster name dot h = record {
  numbered = (dot.count, refl, refl, h);
  nodes = ground arith;
  linked = ground arith;
}

module _ (ssa : Ssa) where
  -- The channels made in the graph of a goroutine have channel types.
  abbrev pub RootMakesChans : Role × Option Node → Type 0
  RootMakesChans (role, none) = Unit
  RootMakesChans (role, some root) = MakesChans ssa root

  root-Draws :
      (role : Role) (root : Node) (dot : GraphvizDot)
      → HasLabel (role, some root)
      → MakesChans ssa root
      → IsNumbered dot.count dot.calls
      → (dot' : GraphvizDot) × (visit_root ssa role (some root) dot ≡ some dot')
        × IsNumbered dot'.count dot'.calls
        × (dot'.count + gotos root ≡ dot.count + count_nodes root)
        × (edges dot'.calls + 1 ≡ edges dot.calls + count_nodes root)
  unfolding visit_root visit_node count_nodes
  root-Draws role (label name cs) dot labelled typed h =
      let adds = root-Adds role.name name dot h in
      let (dot', e, all) =
        below dot _ cs 0 0 (all_gotos cs) (count_all cs) _ adds
          (visit_nodes-Draws ssa role.name cs _ _ typed adds.numbered) (ground arith)
          (ground arith) in
      (dot', e, all.numbered, all.nodes, (let a = all.linked in ground arith))
  root-Draws role (goto name cs) dot labelled typed h = absurd labelled
  root-Draws role (new_chan ch cs) dot labelled typed h = absurd labelled
  root-Draws role (send sndr dest nondet t cs) dot labelled typed h = absurd labelled
  root-Draws role (recv orig rcvr nondet t stop cs) dot labelled typed h = absurd labelled
  root-Draws role (end ch cs) dot labelled typed h = absurd labelled
  root-Draws role (empty_body cs) dot labelled typed h = absurd labelled

  visit_types-cons :
      (role : Role) (root : Option Node) (types : List (Role × Option Node)) (dot mid : GraphvizDot)
      → visit_root ssa role root dot ≡ some mid
      → visit_types ssa ((role, root) ∷ types) dot
        ≡ visit_types ssa types (call (add_sub_graph role.name) mid)
  unfolding visit_types
  visit_types-cons role root types dot mid e =
      ap
        (λ o. elim o [
          | none ↦ none
          | some d ↦ visit_types ssa types (call (add_sub_graph role.name) d)
        ])
        e

  visit_root-none : (role : Role) (dot : GraphvizDot) → visit_root ssa role none dot ≡ some dot
  unfolding visit_root
  visit_root-none role dot = refl

  types-Draws :
      (types : List (Role × Option Node)) (dot : GraphvizDot)
      → All HasLabel types
      → All RootMakesChans types
      → IsNumbered dot.count dot.calls
      → (dot' : GraphvizDot) × (visit_types ssa types dot ≡ some dot')
        × IsNumbered dot'.count dot'.calls
        × (dot'.count + total gotos types ≡ dot.count + total count_nodes types)
        × (edges dot'.calls + total one types ≡ edges dot.calls + total count_nodes types)
  unfolding visit_types call
  types-Draws [] dot labelled typed h = (dot, refl, h, ground arith, ground arith)
  types-Draws ((role, none) ∷ types) dot (labelled, rest) (typed, more) h =
      let next = call (add_sub_graph role.name) dot in
      let (dot', e, numbered, nodes, linked) = types-Draws types next rest more h in
      (
        dot',
        visit_types-cons role none types dot dot (visit_root-none role dot) ∙ e,
        numbered,
        nodes,
        linked,
      )
  types-Draws ((role, some root) ∷ types) dot (labelled, rest) (typed, more) h =
      let (mid, drawn, numbered, nodes, linked) = root-Draws role root dot labelled typed h in
      let next = call (add_sub_graph role.name) mid in
      let (dot', e, numbered', nodes', linked') = types-Draws types next rest more numbered in
      (
        dot',
        visit_types-cons role (some root) types dot mid drawn ∙ e,
        numbered',
        ground arith,
        ground arith,
      )

  -- If the roots of a session are labels or nil, and the channels that its graphs make have channel
  -- types, the session is drawn without a panic. The names of the nodes of the drawing have the
  -- numbers below the count, each once; there is one node for each node of the session graphs that
  -- is not a goto, and one edge for each node that is not a root.
  pub drawing_counts :
      (s : Session)
      → All HasLabel s.types
      → All RootMakesChans s.types
      → (dot : GraphvizDot) × (new_graphviz_dot ssa s ≡ some dot)
        × IsNumbered dot.count dot.calls
        × (dot.count + total gotos s.types ≡ total count_nodes s.types)
        × (edges dot.calls + total one s.types ≡ total count_nodes s.types)
  unfolding new_graphviz_dot empty_dot
  drawing_counts s labelled typed =
      let (dot, e, numbered, nodes, linked) = types-Draws s.types empty_dot labelled typed refl in
      (dot, e, numbered, ground arith, ground arith)

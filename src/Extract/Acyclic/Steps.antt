-- ===== src/Extract/Acyclic/Steps.antt =====
-- The elementary actions of cfsmextract on nodes keep the graph free of cycles.
use dingo_hunter.Prelude.{
  ℕ, ◌+◌, ◌-◌, ◌<◌, ◌≤◌, ◌≡◌, refl, sym, subst, arith, String, Option, none, some, List, [], ◌∷◌,
  ◌++◌, All, length, get_elem?, take, insert, Bool-cases, inl, inr, leb,
}
use dingo_hunter.SessType.Node.{Role, role_eq}
use dingo_hunter.SessType.Stack.{NodeStack, push, pop, top}
use dingo_hunter.Extract.State.{
  Label, Cell, State, Outcome, done, panic, empty_stack, nil_pointer, M, ◌>>=◌, demand, empty_body,
  label,
}
use dingo_hunter.Extract.Nodes.{
  add_child, leaf_cell, set_leaf, leaf_to, new_var, read_var, write_var, grow, leaf_node, add_node,
  new_gortn, leaf_to_child, push_leaf, leaf_to_top, pop_parent, children_of,
}
use dingo_hunter.Extract.Nodes.Add.{length-add_child}
use dingo_hunter.Extract.Run.{branch}
use dingo_hunter.Extract.Main.{set_root}
use dingo_hunter.Extract.Keeps.{Keeps, Always, Quiet, Order}
use dingo_hunter.Extract.Keeps.Rules.{
  returned, bind, quietly, keeps_pure, keeps_gets, keeps_demand, keeps_found, keeps_look,
  keeps_read_var, hold, weaken,
}
use dingo_hunter.Extract.Acyclic.{IsBetween, IsOrdered, IsNode, IsAcyclic, AcyclicState, acyclic}
use dingo_hunter.Extract.Acyclic.Cells.{
  All-append, All-take, All-set, All-get, length-concat, nodes-grow, types-grow, insert-HasRoot,
  IsOrdered-grows, IsOrdered-concat, add_child-IsOrdered, IsOrdered-at,
}

pub le_self : (n : ℕ) → n ≤ n
le_self n = ground arith

pub le_both : {l m n : ℕ} → l ≤ m → m ≤ n → l ≤ n
le_both lm mn = ground arith

instance abbrev pub acyclic_order : Order acyclic
acyclic_order = record {
  later_refl = λ s. le_self (length s.graph.nodes);
  later_trans = λ s t u st tu. le_both st tu;
}

abbrev pub Kept : {A : Type 0} → State → A → State → Type 0
Kept s a t = AcyclicState t × (length s.graph.nodes ≤ length t.graph.nodes) × Unit {0}

-- The number of a node.
abbrev IsNodeOf : ℕ → State → Type 0
IsNodeOf n s = n < length s.graph.nodes

stays_node :
    (n : ℕ) (s t : State)
    → length s.graph.nodes ≤ length t.graph.nodes
    → IsNodeOf n s
    → IsNodeOf n t
stays_node n s t le h = ground arith

-- The variable holds a node.
found_var :
    (a : ℕ) (s s' : State) (n : ℕ) (o : Option ℕ)
    → AcyclicState s
    → get_elem? s.graph.vars a ≡ o
    → demand nil_pointer o s ≡ done (n, s')
    → AcyclicState s' × (length s.graph.nodes ≤ length s'.graph.nodes) × IsNodeOf n s'
unfolding demand
found_var a s s' n none inv e h = absurd cc
found_var a s s' n (some m) inv e h =
    returned (λ x u. AcyclicState u × (length s.graph.nodes ≤ length u.graph.nodes) × IsNodeOf x u)
      h (inv, le_self _, All-get (IsNode (length s.graph.nodes)) s.graph.vars a m inv.in_vars e)

pub read_var-IsNode : (a : ℕ) → Keeps acyclic Always (λ n s. IsNodeOf n s) (read_var a)
unfolding read_var
read_var-IsNode a = record {
  at = λ s s' n pre inv e. found_var a s s' n (get_elem? s.graph.vars a) inv refl e;
}

leaf_node-IsNode : Keeps acyclic Always (λ n s. IsNodeOf n s) leaf_node
unfolding leaf_node
leaf_node-IsNode = bind (keeps_gets _) λ leaf. bind (keeps_demand _ leaf) λ a. read_var-IsNode a

-- The nodes of the state with one more, which may be a child of the node `i`.
with_node :
    (s : State) (nodes : List Cell) (l : Label)
    → AcyclicState s
    → length nodes ≡ length s.graph.nodes
    → IsOrdered 0 (length s.graph.nodes + 1) nodes
    → IsAcyclic (nodes ++ leaf_cell l ∷ []) s.graph.vars s.graph.if_parent.nodes s.types
with_node s nodes l inv same ordered =
    let grown : length (nodes ++ leaf_cell l ∷ []) ≡ length s.graph.nodes + 1 =
      ground (arith, length-concat nodes (leaf_cell l)) in
    let le : length s.graph.nodes ≤ length (nodes ++ leaf_cell l ∷ []) = ground arith in
    record {
      ordered =
          IsOrdered-concat 0 (length (nodes ++ leaf_cell l ∷ [])) nodes l
            (subst (λ b. IsOrdered 0 b nodes) (sym grown) ordered);
      in_vars = nodes-grow _ _ s.graph.vars le inv.in_vars;
      in_stack = nodes-grow _ _ s.graph.if_parent.nodes le inv.in_stack;
      in_types = types-grow _ _ s.types le inv.in_types;
    }

grow-IsNode : (i : ℕ) (l : Label) → Keeps acyclic (IsNodeOf i) (λ n s. IsNodeOf n s) (grow i l)
unfolding grow
grow-IsNode i l = record {
  at = λ s s' n node inv e.
      let nodes = add_child s.graph.nodes i (length s.graph.nodes) in
      let same = length-add_child s.graph.nodes i (length s.graph.nodes) in
      let size = length-concat nodes (leaf_cell l) in
      returned
        (λ x u. AcyclicState u × (length s.graph.nodes ≤ length u.graph.nodes) × IsNodeOf x u) e
        (
          with_node s nodes l inv same (
              add_child-IsOrdered 0 i (length s.graph.nodes) (length s.graph.nodes + 1)
                s.graph.nodes (ground arith) (ground arith)
                (IsOrdered-grows 0 (length s.graph.nodes) _ s.graph.nodes (ground arith)
                  inv.ordered)),
          ground arith,
          ground arith,
        );
}

pub new_gortn-IsAcyclic :
    (role : Role) (name : String) → Quiet acyclic (new_gortn role (label name))
unfolding new_gortn
new_gortn-IsAcyclic role name = record {
  at = λ s s' n node inv e.
      let size = length-concat s.graph.nodes (leaf_cell (label name)) in
      let h =
        with_node s s.graph.nodes (label name) inv refl
          (IsOrdered-grows 0 (length s.graph.nodes) _ s.graph.nodes (ground arith) inv.ordered) in
      let last : length s.graph.nodes < length (s.graph.nodes ++ leaf_cell (label name) ∷ []) =
        ground arith in
      let more : AcyclicState (record s {
        graph = record s.graph {
          nodes = s.graph.nodes ++ leaf_cell (label name) ∷ [];
          vars = s.graph.vars ++ length s.graph.nodes ∷ [];
        };
      }) =
        record {
          ordered = h.ordered;
          in_vars =
              All-append (IsNode _) s.graph.vars (length s.graph.nodes ∷ []) h.in_vars (last, tt);
          in_stack = h.in_stack;
          in_types = h.in_types;
        } in
      returned (Kept s) e (more, ground arith, tt);
}

-- Other variables, another stack, other types.
with_vars :
    (s : State) (vars : List ℕ)
    → AcyclicState s
    → All (IsNode (length s.graph.nodes)) vars
    → IsAcyclic s.graph.nodes vars s.graph.if_parent.nodes s.types
with_vars s vars inv h = record {
  ordered = inv.ordered;
  in_vars = h;
  in_stack = inv.in_stack;
  in_types = inv.in_types;
}

with_stack :
    (s : State) (stack : List ℕ)
    → AcyclicState s
    → All (IsNode (length s.graph.nodes)) stack
    → IsAcyclic s.graph.nodes s.graph.vars stack s.types
with_stack s stack inv h = record {
  ordered = inv.ordered;
  in_vars = inv.in_vars;
  in_stack = h;
  in_types = inv.in_types;
}

leaf_to-keeps : (n : ℕ) → Keeps acyclic (IsNodeOf n) (λ u s. Unit {0}) (leaf_to n)
unfolding leaf_to new_var set_leaf ◌>>=◌
leaf_to-keeps n = record {
  at = λ s s' a node inv e. returned (Kept s) e (
    with_vars s _ inv (All-append (IsNode _) s.graph.vars (n ∷ []) inv.in_vars (node, tt)),
    le_self _,
    tt,
  );
}

pub add_node-keeps : (l : Label) → Quiet acyclic (add_node l)
unfolding add_node
add_node-keeps l =
    bind leaf_node-IsNode λ i. bind (grow-IsNode i l) λ n. bind (leaf_to-keeps n) λ u. keeps_pure

write_var-keeps : (a n : ℕ) → Keeps acyclic (IsNodeOf n) (λ u s. Unit {0}) (write_var a n)
unfolding write_var
write_var-keeps a n = record {
  at = λ s s' u node inv e.
      returned (Kept s) e
        (with_vars s _ inv (All-set (IsNode _) s.graph.vars a n inv.in_vars node), le_self _, tt);
}

-- A child of a node.
child-IsNode :
    (s : State) (nodes : List Cell) (p idx n : ℕ) (o : Option Cell)
    → IsOrdered 0 (length s.graph.nodes) nodes
    → get_elem? nodes p ≡ o
    → get_elem? (elim o [ none ↦ [] | some c ↦ c.children ]) idx ≡ some n
    → IsNodeOf n s
child-IsNode s nodes p idx n none h there e = absurd cc
child-IsNode s nodes p idx n (some c) h there e =
    (All-get (IsBetween (0 + p) (length s.graph.nodes)) c.children idx n
      (IsOrdered-at 0 p (length s.graph.nodes) nodes c h there) e).1

pub leaf_to_child-keeps : (parent : Option ℕ) (idx : ℕ) → Quiet acyclic (leaf_to_child parent idx)
unfolding leaf_to_child
leaf_to_child-keeps parent idx = quietly (keeps_demand _ parent) λ a.
    quietly (keeps_read_var a) λ p.
      bind
        (keeps_look {Post = λ g s. IsOrdered 0 (length s.graph.nodes) g.nodes} _
          λ s inv. inv.ordered)
        λ g.
          bind
            (keeps_found _ (get_elem? (children_of g p) idx)
              λ s n h inv e. child-IsNode s g.nodes p idx n (get_elem? g.nodes p) h refl e)
            λ n. bind (hold (stays_node n) (weaken (keeps_gets _))) λ leaf.
              bind (hold (stays_node n) (weaken (keeps_demand _ leaf))) λ b. write_var-keeps b n

push_leaf-keeps : Quiet acyclic push_leaf
unfolding push_leaf push
push_leaf-keeps = bind leaf_node-IsNode λ n. record {
  at = λ s s' a node inv e. returned (Kept s) e (
    with_stack s _ inv (
        All-append (IsNode _) (take s.graph.if_parent.count s.graph.if_parent.nodes) (n ∷ [])
          (All-take (IsNode _) s.graph.if_parent.count s.graph.if_parent.nodes inv.in_stack)
          (node, tt)),
    le_self _,
    tt,
  );
}

top-IsNode :
    (bound : ℕ) (stack : NodeStack ℕ) (n : ℕ)
    → All (IsNode bound) stack.nodes
    → top stack ≡ some n
    → n < bound
unfolding top
top-IsNode bound stack n h e = elim (Bool-cases (leb stack.count 0)) [
  | inl empty ↦ absurd ground arith
  | inr full ↦ All-get (IsNode bound) stack.nodes (stack.count - 1) n h (ground arith)
]

leaf_to_top-keeps : Quiet acyclic leaf_to_top
unfolding leaf_to_top
leaf_to_top-keeps =
    bind
      (keeps_look {Post = λ stack s. All (IsNode (length s.graph.nodes)) stack.nodes} _
        λ s inv. inv.in_stack)
      λ stack.
        bind
          (keeps_found _ (top stack) λ s n h inv e. top-IsNode (length s.graph.nodes) stack n h e)
          λ n. leaf_to-keeps n

popped_nodes : (stack rest : NodeStack ℕ) → pop stack ≡ some rest → stack.nodes ≡ rest.nodes
unfolding pop
popped_nodes stack rest e = elim (Bool-cases (leb stack.count 0)) [
  | inl empty ↦ absurd ground arith
  | inr full ↦ ground arith
]

popped :
    (s s' : State) (a : Unit {0}) (o : Option (NodeStack ℕ))
    → AcyclicState s
    → pop s.graph.if_parent ≡ o
    → elim o as (λ o. Outcome (Unit {0} × State)) [
      | none ↦ panic empty_stack
      | some stack ↦ done (tt, record s { graph = record s.graph { if_parent = stack } })
    ]
      ≡ done (a, s')
    → Kept s a s'
popped s s' a none inv found e = absurd cc
popped s s' a (some stack) inv found e =
    let same : s.graph.if_parent.nodes ≡ stack.nodes = popped_nodes s.graph.if_parent stack found in
    returned (Kept s) e (
      with_stack s stack.nodes inv (subst (All (IsNode (length s.graph.nodes))) same inv.in_stack),
      le_self _,
      tt,
    )

pop_parent-keeps : Quiet acyclic pop_parent
unfolding pop_parent
pop_parent-keeps = record {
  at = λ s s' a pre inv e. popped s s' a (pop s.graph.if_parent) inv refl e;
}

pub branch-keeps :
    (m n : M (Unit {0})) → Quiet acyclic m → Quiet acyclic n → Quiet acyclic (branch m n)
unfolding branch
branch-keeps m n keeps_m keeps_n = quietly push_leaf-keeps λ u. quietly leaf_to_top-keeps λ u.
    quietly (add_node-keeps empty_body) λ a. quietly keeps_m λ u.
      quietly leaf_to_top-keeps
        λ u. quietly (add_node-keeps empty_body) λ b. quietly keeps_n λ u. pop_parent-keeps

pub set_root-keeps : Quiet acyclic set_root
unfolding set_root
set_root-keeps = quietly (keeps_gets _) λ g. bind (read_var-IsNode g.root) λ root. record {
  at = λ s s' a node inv e.
      let more : AcyclicState (record s { types = insert g.role root s.types }) = record {
        ordered = inv.ordered;
        in_vars = inv.in_vars;
        in_stack = inv.in_stack;
        in_types = insert-HasRoot (length s.graph.nodes) g.role root s.types inv.in_types node;
      } in
      returned (Kept s) e (more, le_self _, tt);
}

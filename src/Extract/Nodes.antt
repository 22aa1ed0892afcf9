-- ===== src/Extract/Nodes.antt =====
-- The session graph of a goroutine as it grows: `AddNode` of cfsmextract/gortn.go, what visit.go
-- does with the leaf, and the channels that func.go and visit.go make or look up. Each node is
-- appended where it is made, so making it is part of appending it.
pub mod Add
use dingo_hunter.Prelude.{
  ℕ, suc, zero, ◌+◌, ◌<◌, String, Bool, true, false, Option, none, some, List, [], ◌∷◌, ◌++◌,
  lookup, insert, get_elem?, set, length, nat_eq, option_eq, string_eq, ltb, leb, if◌then◌else◌,
  not, ◌&&◌,
}
use dingo_hunter.Ssa.{Value}
use dingo_hunter.Definition.{Definition, def_eq, fresh_def}
use dingo_hunter.SessType.Node.{Role, Chan}
use dingo_hunter.SessType.Session.{Session, make_chan, make_ext_chan}
use dingo_hunter.SessType.Stack.{NodeStack, push, pop, top}
use dingo_hunter.Extract.State.{
  Ref, Frame, Label, Cell, Graph, Goroutine, State, nil_pointer, nil_leaf, no_select, out_of_range,
  undefined_channel, empty_stack, M, pure, throw, ◌>>=◌, ◌>>◌, gets, demand, modify_store,
  empty_body,
}

-- The first variable gets the address 0.
unfoldable pub new_var : ℕ → M ℕ
new_var n s =
    pure (length s.graph.vars)
      (record s { graph = record s.graph { vars = s.graph.vars ++ n ∷ [] } })

unfoldable pub read_var : ℕ → M ℕ
read_var a s = demand nil_pointer (get_elem? s.graph.vars a) s

unfoldable pub write_var : ℕ → ℕ → M (Unit {0})
write_var a n s = pure tt (record s { graph = record s.graph { vars = set s.graph.vars a n } })

unfoldable pub set_leaf : Option ℕ → M (Unit {0})
set_leaf leaf s = pure tt (record s { gortn = record s.gortn { leaf = leaf } })

-- The leaf as a variable that holds `n`.
unfoldable pub leaf_to : ℕ → M (Unit {0})
unfolding new_var set_leaf
leaf_to n = do a ← new_var n; set_leaf (some a)

abbrev pub add_child : List Cell → ℕ → ℕ → List Cell
add_child [] i n = []
add_child (c ∷ cs) zero n = record c { children = c.children ++ n ∷ [] } ∷ cs
add_child (c ∷ cs) (suc i) n = c ∷ add_child cs i n

abbrev pub leaf_cell : Label → Cell
leaf_cell l = record { content = l; children = [] }

-- A new node, appended to the node `i`.
unfoldable pub grow : ℕ → Label → M ℕ
grow i l s =
    let n = length s.graph.nodes in
    pure n (record s {
      graph = record s.graph { nodes = add_child s.graph.nodes i n ++ leaf_cell l ∷ [] };
    })

-- `*gortn.leaf`
unfoldable pub leaf_node : M ℕ
unfolding read_var
leaf_node = do leaf ← gets (λ s. s.gortn.leaf); a ← demand nil_leaf leaf; read_var a

-- `AddNode`
unfoldable pub add_node : Label → M ℕ
unfolding leaf_node grow leaf_to
add_node l = do i ← leaf_node; n ← grow i l; leaf_to n; pure n

-- A new goroutine, whose leaf is its root.
unfoldable pub new_gortn : Role → Label → M Goroutine
new_gortn role l s =
    let n = length s.graph.nodes in
    let a = length s.graph.vars in
    pure (record { role = role; root = a; leaf = some a; visited = [] })
      (record s {
        graph = record s.graph {
          nodes = s.graph.nodes ++ leaf_cell l ∷ [];
          vars = s.graph.vars ++ n ∷ [];
        };
      })

-- `gortn.visited[blk] = label`
unfoldable pub mark_visited : ℕ → ℕ → M (Unit {0})
mark_visited blk n s =
    pure tt (record s { gortn = record s.gortn { visited = insert blk n s.gortn.visited } })

-- `NewDef`
unfoldable pub new_def : Value → M Ref
new_def v s = let (d, vers) = fresh_def v s.versions in pure (some d) (record s { versions = vers })

-- A new channel for `v`, registered in the session and in `env.chans` under its definition.
unfoldable pub register : (extern : Bool) → Value → M (Ref × Chan)
register extern v s =
    let (d, vers) = fresh_def v s.versions in
    let (ch, session) =
      if extern
      then make_ext_chan s.session d s.gortn.role
      else make_chan s.session d s.gortn.role in
    pure (some d, ch)
      (record s { versions = vers; session = session; chans = insert (some d) ch s.chans })

-- `env.chans[vd]`, dereferenced.
unfoldable pub chan_at : Ref → M Chan
chan_at vd s = demand nil_pointer (lookup vd s.chans) s

-- `env.selNode[v] = {gortn.leaf, blocking}`
unfoldable pub set_sel_node : Value → Bool → M (Unit {0})
set_sel_node v blocking s = pure tt (record s {
  graph = record s.graph { sel_node = insert v (s.gortn.leaf, blocking) s.graph.sel_node };
})

-- `gortn.leaf = env.selNode[v].parent`
unfoldable pub back_to_select : Value → M (Unit {0})
unfolding set_leaf
back_to_select v = do
  sel ← gets (λ s. s.graph.sel_node)
  (parent, blocking) ← demand no_select (lookup v sel)
  set_leaf parent

-- `(*p).Children()`
abbrev pub children_of : Graph → ℕ → List ℕ
children_of g p = elim (get_elem? g.nodes p) [ none ↦ [] | some c ↦ c.children ]

-- `*gortn.leaf = (*parent).Child(idx)`, where both are variables.
unfoldable pub leaf_to_child : Option ℕ → ℕ → M (Unit {0})
unfolding read_var write_var
leaf_to_child parent idx = do
  a ← demand nil_pointer parent
  p ← read_var a
  g ← gets (λ s. s.graph)
  n ← demand out_of_range (get_elem? (children_of g p) idx)
  leaf ← gets (λ s. s.gortn.leaf)
  a' ← demand nil_pointer leaf
  write_var a' n

-- How many children the node in the variable has.
unfoldable pub count_children : Option ℕ → M ℕ
unfolding read_var
count_children parent = do
  a ← demand nil_pointer parent
  p ← read_var a
  gets (λ s. length (children_of s.graph p))

-- `env.ifparent.Push(*gortn.leaf)`
unfoldable pub push_leaf : M (Unit {0})
unfolding leaf_node
push_leaf = do
  n ← leaf_node
  λ s. pure tt (record s { graph = record s.graph { if_parent = push s.graph.if_parent n } })

-- `parent := env.ifparent.Top(); gortn.leaf = &parent`
unfoldable pub leaf_to_top : M (Unit {0})
unfolding leaf_to
leaf_to_top = do
  stack ← gets (λ s. s.graph.if_parent)
  n ← demand nil_pointer (top stack)
  leaf_to n

-- `env.ifparent.Pop()`
unfoldable pub pop_parent : M (Unit {0})
pop_parent s = elim (pop s.graph.if_parent) [
  | none ↦ throw empty_stack s
  | some stack ↦ pure tt (record s { graph = record s.graph { if_parent = stack } })
]

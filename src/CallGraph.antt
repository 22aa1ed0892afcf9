-- ===== src/CallGraph.antt =====
-- ssabuilder/callgraph/callgraph.go: the call graph of a program. Functions and basic blocks are
-- pointers into the SSA program (golang.org/x/tools/go/ssa), which is a parameter. The package
-- variables `visitedFunc` and `visitedBlock` are a record that is passed on.
pub mod Blocks
pub mod Flat
pub mod Total
pub mod Complete
use dingo_hunter.Prelude.{
  ℕ, zero, suc, Bool, true, false, Option, none, some, List, [], ◌∷◌, ◌++◌, contains, nat_eq,
}

pub data Instr : Type 0 where
  -- *ssa.Call and *ssa.Go, with their static callee
  call : Option ℕ → Instr
  go : Option ℕ → Instr
  -- *ssa.If and *ssa.Jump, with the successors of their block
  branch : (then_block else_block : ℕ) → Instr
  jump : ℕ → Instr
  -- *ssa.Return
  ret : Instr
  other : Instr

pub record Program : Type 0 where
  -- `b.Instrs`
  pub instrs : ℕ → List Instr
  -- `f.Blocks[0]`; `none` if f has no body
  pub entry : ℕ → Option ℕ

-- `Node`: a function and its children.
mutual
  pub data CallNode : Type 0 where
    node : (func : ℕ) → CallNodes → CallNode

  pub data CallNodes : Type 0 where
    nil : CallNodes
    cons : CallNode → CallNodes → CallNodes

pub record Visited : Type 0 where
  pub funcs : List ℕ
  pub blocks : List ℕ

-- `panic` is the index out of range of `Blocks[0]`.
pub data Outcome {ℓ} (A : Type ℓ) : Type ℓ where
  done : A → Outcome A
  panic out_of_fuel : Outcome A

infixl 5 ◌>>=◌
abbrev pub ◌>>=◌ {ℓ κ} : {A : Type ℓ} {B : Type κ} → Outcome A → (A → Outcome B) → Outcome B
done a >>= f = f a
panic >>= f = panic
out_of_fuel >>= f = out_of_fuel

-- The children of the node that is visited, and what was visited.
pub record State : Type 0 where
  pub children : CallNodes
  pub visited : Visited

abbrev pub mark_func : ℕ → Visited → Visited
mark_func f v = record v { funcs = f ∷ v.funcs }

abbrev pub mark_block : ℕ → Visited → Visited
mark_block b v = record v { blocks = b ∷ v.blocks }

pub snoc : CallNodes → CallNode → CallNodes
snoc nil n = cons n nil
snoc (cons c cs) n = cons c (snoc cs n)

-- A static callee that was not seen becomes a child.
pub add_callee : Option ℕ → State → State
add_callee none s = s
add_callee (some f) s = elim (contains f s.visited.funcs) [
  | true ↦ s
  | false ↦ record { children = snoc s.children (node f nil); visited = mark_func f s.visited }
]

module _ (prog : Program) where
  -- The loop at *ssa.Return: the children whose function was not visited are visited in place.
  pub visit_children : (ℕ → State → Outcome State) → CallNodes → Visited → Outcome State
  visit_children visit nil v = done (record { children = nil; visited = v })
  visit_children visit (cons (node f cs) rest) v = elim (contains f v.funcs) [
    | true ↦ visit_children visit rest v >>= λ s.
        done (record s { children = cons (node f cs) s.children })
    | false ↦ elim (prog.entry f) [
      | none ↦ panic
      | some b ↦ visit b (record { children = cs; visited = mark_func f v }) >>= λ inner.
          visit_children visit rest inner.visited >>= λ s.
          done (record s { children = cons (node f inner.children) s.children })
    ]
  ]

  pub visit_instr : (ℕ → State → Outcome State) → Instr → State → Outcome State
  visit_instr visit (call f) s = done (add_callee f s)
  visit_instr visit (go f) s = done (add_callee f s)
  visit_instr visit (branch t e) s = visit t s >>= λ s'. visit e s'
  visit_instr visit (jump t) s = visit t s
  visit_instr visit ret s = visit_children visit s.children s.visited
  visit_instr visit other s = done s

  pub visit_instrs : (ℕ → State → Outcome State) → List Instr → State → Outcome State
  visit_instrs visit [] s = done s
  visit_instrs visit (i ∷ rest) s = visit_instr visit i s >>= λ s'. visit_instrs visit rest s'

  -- `visitBlock`, on fuel.
  pub visit_block : ℕ → ℕ → State → Outcome State
  visit_block zero b s = out_of_fuel
  visit_block (suc fuel) b s = elim (contains b s.visited.blocks) [
    | true ↦ done s
    | false ↦
        visit_instrs (visit_block fuel) (prog.instrs b)
          (record s { visited = mark_block b s.visited })
  ]

  -- `Build`
  pub build : ℕ → ℕ → Outcome CallNode
  build fuel main = elim (prog.entry main) [
    | none ↦ panic
    | some b ↦
        visit_block fuel b
          (record { children = nil; visited = record { funcs = main ∷ []; blocks = [] } })
        >>= λ s. done (node main s.children)
  ]

-- `Traverse`: the functions that the visitor is called on, in order.
unfoldable mutual
  pub traverse : CallNode → List ℕ
  traverse (node f cs) = f ∷ traverse_all cs

  pub traverse_all : CallNodes → List ℕ
  traverse_all nil = []
  traverse_all (cons c cs) = traverse c ++ traverse_all cs

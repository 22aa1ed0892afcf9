-- ===== src/Extract/Acyclic.antt =====
-- The nodes that the interpreter of cfsmextract makes form a graph without cycles: the invariant,
-- on the parts of the state that hold nodes.
pub mod Cells
pub mod Steps
pub mod Run
use dingo_hunter.Prelude.{ℕ, suc, ◌+◌, ◌<◌, ◌≤◌, List, [], ◌∷◌, All, length}
use dingo_hunter.SessType.Node.{Role}
use dingo_hunter.SessType.Stack.{NodeStack}
use dingo_hunter.Extract.State.{Cell, State}
use dingo_hunter.Extract.Keeps.{Theory}

-- A child of the node at `i`, where there are `bound` nodes.
abbrev pub IsBetween : ℕ → ℕ → ℕ → Type 0
IsBetween i bound j = (i < j) × (j < bound)

-- Nodes from the position `i` on, whose children come later.
abbrev pub IsOrdered : ℕ → ℕ → List Cell → Type 0
IsOrdered i bound [] = Unit
IsOrdered i bound (c ∷ cs) = All (IsBetween i bound) c.children × IsOrdered (suc i) bound cs

abbrev pub IsNode : ℕ → ℕ → Type 0
IsNode bound n = n < bound

abbrev pub HasRoot : ℕ → Role × ℕ → Type 0
HasRoot bound (role, n) = n < bound

-- Children come after their parents, and variables, the stack and the types of the session hold
-- nodes.
pub record IsAcyclic (nodes : List Cell) (vars stack : List ℕ) (types : List (Role × ℕ))
    : Type 0 where
  pub ordered : IsOrdered 0 (length nodes) nodes
  pub in_vars : All (IsNode (length nodes)) vars
  pub in_stack : All (IsNode (length nodes)) stack
  pub in_types : All (HasRoot (length nodes)) types

abbrev pub AcyclicState : State → Type 0
AcyclicState s = IsAcyclic s.graph.nodes s.graph.vars s.graph.if_parent.nodes s.types

abbrev pub acyclic : Theory
acyclic = record {
  Inv = AcyclicState;
  Later = λ s t. length s.graph.nodes ≤ length t.graph.nodes;
  Known = λ s ch. Unit;
}

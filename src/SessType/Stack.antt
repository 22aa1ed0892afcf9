-- ===== src/SessType/Stack.antt =====
-- cfsmextract/sesstype/nodestack.go: a stack of nodes in a slice that is reused above `count`. A
-- method that changes the `*NodeStack` returns the new one. What a `Node` is does not matter here:
-- the extraction keeps pointers to nodes on the stack.
pub mod Laws
use dingo_hunter.Prelude.{
  ℕ, zero, suc, ◌+◌, ◌-◌, Option, none, some, List, [], ◌∷◌, ◌++◌, leb, if◌then◌else◌, get_elem?,
  take,
}

pub record NodeStack {ℓ} (A : Type ℓ) : Type ℓ where
  pub nodes : List A
  pub count : ℕ

unfoldable pub new_node_stack {ℓ} : {A : Type ℓ} → NodeStack A
new_node_stack = record { nodes = []; count = 0 }

-- `append(s.nodes[:s.count], node)` overwrites what stands above `count`.
unfoldable pub push {ℓ} : {A : Type ℓ} → NodeStack A → A → NodeStack A
push s node = record { nodes = take s.count s.nodes ++ node ∷ []; count = s.count + 1 }

-- `none` is the panic "Cannot pop empty stack".
unfoldable pub pop {ℓ} : {A : Type ℓ} → NodeStack A → Option (NodeStack A)
pop s = if leb s.count 0 then none else some (record s { count = s.count - 1 })

-- `none` is nil.
unfoldable pub top {ℓ} : {A : Type ℓ} → NodeStack A → Option A
top s = if leb s.count 0 then none else get_elem? s.nodes (s.count - 1)

unfoldable pub size {ℓ} : {A : Type ℓ} → NodeStack A → ℕ
size s = s.count

-- ===== src/Extract/Nodes/Add.antt =====
-- What `AddNode` of cfsmextract/gortn.go does to the graph of nodes.
use dingo_hunter.Prelude.{
  ℕ, suc, zero, ◌≡◌, ◌≢◌, ◌<◌, refl, ap, subst, arith, Option, some, List, [], ◌∷◌, ◌++◌, get_elem?,
  length, ◌∙◌,
}
use dingo_hunter.Extract.State.{Label, Cell, State, done, ◌>>=◌, gets, demand}
use dingo_hunter.Extract.Nodes.{
  add_child, leaf_cell, new_var, read_var, set_leaf, leaf_to, grow, leaf_node, add_node,
}

get_elem-concat : {A : Type 0} (xs : List A) (y : A) → get_elem? (xs ++ y ∷ []) (length xs) ≡ some y
get_elem-concat [] y = refl
get_elem-concat (x ∷ xs) y = get_elem-concat xs y

get_elem-before :
    {A : Type 0} (xs : List A) (y : A) (j : ℕ)
    → j < length xs
    → get_elem? (xs ++ y ∷ []) j ≡ get_elem? xs j
get_elem-before [] y j lt = absurd ground arith
get_elem-before (x ∷ xs) y zero lt = refl
get_elem-before (x ∷ xs) y (suc j) lt = get_elem-before xs y j (ground arith)

pub length-add_child : (cs : List Cell) (i n : ℕ) → length (add_child cs i n) ≡ length cs
length-add_child [] i n = refl
length-add_child (c ∷ cs) zero n = refl
length-add_child (c ∷ cs) (suc i) n = ground (arith, length-add_child cs i n)

get_elem-add_child :
    (cs : List Cell) (i n : ℕ) (c : Cell)
    → get_elem? cs i ≡ some c
    → get_elem? (add_child cs i n) i ≡ some (record c { children = c.children ++ n ∷ [] })
get_elem-add_child [] i n c at = absurd cc
get_elem-add_child (x ∷ cs) zero n c at =
    let same : x ≡ c = ground arith in
    subst
      (λ y.
        ◌≡◌ {A = Option Cell} (some (record x { children = x.children ++ n ∷ [] }))
          (some (record y { children = y.children ++ n ∷ [] })))
      same refl
get_elem-add_child (x ∷ cs) (suc i) n c at = get_elem-add_child cs i n c at

get_elem-other_child :
    (cs : List Cell) (i j n : ℕ) → j ≢ i → get_elem? (add_child cs i n) j ≡ get_elem? cs j
get_elem-other_child [] i j n differ = refl
get_elem-other_child (x ∷ cs) zero zero n differ = absurd (differ refl)
get_elem-other_child (x ∷ cs) zero (suc j) n differ = refl
get_elem-other_child (x ∷ cs) (suc i) zero n differ = refl
get_elem-other_child (x ∷ cs) (suc i) (suc j) n differ =
    get_elem-other_child cs i j n λ e. differ (ap suc e)

get_elem-bound :
    {A : Type 0} (xs : List A) (i : ℕ) (x : A) → get_elem? xs i ≡ some x → i < length xs
get_elem-bound [] i x at = absurd cc
get_elem-bound (y ∷ xs) zero x at = ground arith
get_elem-bound (y ∷ xs) (suc i) x at = let lt = get_elem-bound xs i x at in ground arith

-- The state with one more node below the node `i`, which the leaf is.
abbrev pub grown : Label → ℕ → State → State
grown l i s =
    let n = length s.graph.nodes in
    record s {
      graph = record s.graph {
        nodes = add_child s.graph.nodes i n ++ leaf_cell l ∷ [];
        vars = s.graph.vars ++ n ∷ [];
      };
      gortn = record s.gortn { leaf = some (length s.graph.vars) };
    }

add_node-grown :
    (l : Label) (s : State) (a i : ℕ)
    → s.gortn.leaf ≡ some a
    → get_elem? s.graph.vars a ≡ some i
    → add_node l s ≡ done (length s.graph.nodes, grown l i s)
unfolding add_node leaf_node leaf_to new_var set_leaf grow read_var ◌>>=◌ gets demand
add_node-grown l s a i leaf var = rw leaf (rw var refl)

-- `AddNode` returns a new node with the given content and without children, appends it to the
-- children of the node that the leaf points to, leaves the other nodes as they are, and makes the
-- leaf point to the new node by a variable of its own.
pub add_node_appends :
    (l : Label) (s : State) (a i : ℕ) (c : Cell)
    → s.gortn.leaf ≡ some a
    → get_elem? s.graph.vars a ≡ some i
    → get_elem? s.graph.nodes i ≡ some c
    → let n = length s.graph.nodes in
      (s' : State) × (add_node l s ≡ done (n, s'))
      × (get_elem? s'.graph.nodes n ≡ some (leaf_cell l))
      × (get_elem? s'.graph.nodes i ≡ some (record c { children = c.children ++ n ∷ [] }))
      × ((j : ℕ) → j ≢ i → j < n → get_elem? s'.graph.nodes j ≡ get_elem? s.graph.nodes j)
      × (s'.gortn.leaf ≡ some (length s.graph.vars))
      × (get_elem? s'.graph.vars (length s.graph.vars) ≡ some n)
add_node_appends l s a i c leaf var at =
    let n = length s.graph.nodes in
    let cells = add_child s.graph.nodes i n in
    let size : length cells ≡ n = length-add_child s.graph.nodes i n in
    (
      grown l i s,
      add_node-grown l s a i leaf var,
      subst (λ k. get_elem? (cells ++ leaf_cell l ∷ []) k ≡ some (leaf_cell l)) size
          (get_elem-concat cells (leaf_cell l)),
      get_elem-before cells (leaf_cell l) i
            (let lt = get_elem-bound s.graph.nodes i c at in ground arith)
          ∙ get_elem-add_child s.graph.nodes i n c at,
      λ j differ lt.
          get_elem-before cells (leaf_cell l) j (ground arith)
          ∙ get_elem-other_child s.graph.nodes i j n differ,
      refl,
      get_elem-concat s.graph.vars n,
    )

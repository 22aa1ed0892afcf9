-- ===== src/CallGraph/Complete.antt =====
-- `Build` and `Traverse` (ssabuilder/callgraph/callgraph.go): which functions are in the graph.
use mathlib.Core.List.Memᴰ
use dingo_hunter.Prelude.{
  ℕ, ◌<◌, ◌≡◌, refl, subst, ◌↔◌, ◌⊎◌, inl, inr, some, List, [], ◌∷◌, Memᴰ, nat_eq, arith,
  IsDistinct,
}
use dingo_hunter.CallGraph.{
  CallNode, CallNodes, node, nil, cons, State, done, Program, build, traverse, traverse_all,
}
use dingo_hunter.CallGraph.Blocks.{Calls, Reach, here, next, IsClosed, unseen_le}
use dingo_hunter.CallGraph.Flat.{names, IsFlat, Inv, traverse-names}
use dingo_hunter.CallGraph.Total.{Extends, Handled, visit_block_lem}

abbrev pub AreLeaves : CallNodes → Type 0
AreLeaves nil = Unit
AreLeaves (cons (node g ds) rest) = (ds ≡ nil) × AreLeaves rest

-- Every child of the node is a leaf.
abbrev pub IsShallow : CallNode → Type 0
IsShallow (node f cs) = AreLeaves cs

leaves : (fs : List ℕ) (cs : CallNodes) → IsFlat fs cs → AreLeaves cs
leaves fs nil h = tt
leaves fs (cons (node f cs) rest) (e, k, h) = (e, leaves fs rest h)

-- Every block that is reached was visited and handled.
reached-Handled :
    (prog : Program) (first x : ℕ) (s s' : State)
    → Extends prog s s'
    → s.visited.blocks ≡ []
    → Memᴰ first s'.visited.blocks
    → Reach prog first x
    → Memᴰ x s'.visited.blocks × Handled prog s' x
reached-Handled prog first x s s' ext none_yet seen reach =
    let visited = at reach in
    (
      visited,
      elim (ext.handled x visited) [
        | inl old ↦ absurd (Memᴰ.not-nil (subst (Memᴰ x) none_yet old))
        | inr all ↦ all
      ],
    )
  where
    at : {y : ℕ} → Reach prog first y → Memᴰ y s'.visited.blocks
    at here = seen
    at (next {x = z} {y} r (i, k, j)) = elim (ext.handled z (at r)) [
      | inl old ↦ absurd (Memᴰ.not-nil (subst (Memᴰ z) none_yet old))
      | inr all ↦ (all i k).jumps y j
    ]

-- On a program whose blocks, from the entry of `main`, stay below a bound, and with more fuel than
-- this bound, `Build` ends without a panic. The graph is one level deep, whatever the functions that `main` calls do themselves; a
-- traversal visits no function twice, and visits exactly `main` and the functions that a block
-- which control reaches within `main` calls or starts by name.
pub build_lem :
    (prog : Program) (main first n fuel : ℕ)
    → prog.entry main ≡ some first
    → first < n
    → IsClosed prog n
    → n < fuel
    → (g : CallNode) × (build prog fuel main ≡ done g)
      × IsShallow g
      × IsDistinct (traverse g)
      × ((f : ℕ)
          → Memᴰ f (traverse g) ↔ ((f ≡ main) ⊎ ((x : ℕ) × Reach prog first x × Calls prog x f)))
unfolding build traverse
build_lem prog main first n fuel entry lt closed enough =
    let s : State = record {
      children = nil;
      visited = record { funcs = main ∷ []; blocks = [] };
    } in
    let start : Inv prog main first s = record {
      flat = tt;
      listed = λ f. (λ k. k, λ k. k);
      distinct = (Memᴰ.not-nil, tt);
      blocks_reached = λ x k. absurd (Memᴰ.not-nil k);
      funcs_called = λ f k. absurd (Memᴰ.not-nil k);
    } in
    let all = unseen_le n [] in
    let (s', e, inv, ext, seen) =
      visit_block_lem prog main first n closed fuel first s lt here start (omega arith) in
    let same : traverse_all s'.children ≡ names s'.children =
      traverse-names s'.visited.funcs s'.children inv.flat in
    (
      node main s'.children,
      rw (entry, build) (rw e),
      leaves s'.visited.funcs s'.children inv.flat,
      rw same inv.distinct,
      λ f. rw same (
        λ k. elim (Memᴰ.cases_cons k) [
          | inl is_main ↦ inl is_main
          | inr child ↦ inr (inv.funcs_called f child)
        ],
        λ c. elim c [
          | inl is_main ↦ Memᴰ.head is_main
          | inr (x, reach, (i, k, starts)) ↦
              let (_, handled) = reached-Handled prog first x s s' ext refl seen reach in
              (inv.listed f).0 ((handled i k).starts f starts)
        ],
      ),
    )

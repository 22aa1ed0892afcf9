-- ===== src/Tests/Graphs.antt =====
-- A small call graph, and the count of its loops.
use mathlib.Core.List.Memᴰ
use dingo_hunter.Prelude.{
  ℕ, string_eq, zero, suc, ◌≡◌, refl, ◌↔◌, ◌⊎◌, inl, inr, false, none, some, Option, List, [], ◌∷◌,
  Memᴰ, arith, IsDistinct, All, subst,
}
use dingo_hunter.CallGraph.{CallNode, Outcome, done, Program, build, traverse}
use dingo_hunter.CallGraph
use dingo_hunter.CallGraph.Blocks.{Jumps, Calls, Reach, IsClosed}
use dingo_hunter.CallGraph.Complete.{IsShallow, build_lem}
use dingo_hunter.Fairness.{
  bin_op, computed, other_cond, un_op_instr, BasicBlock, FairnessAnalysis, new_fairness_analysis,
  check, if_instr, phi, is_likely_unsafe,
}
use dingo_hunter.Fairness.Counts.{Counted, sum_lengths, check_counts}
use dingo_hunter.Fairness.Returns.{IsWellFormed, BeginsWithReceive}
use dingo_hunter.Fairness.Loops.{BranchesFairly, HasIndex, is_likely_unsafe_iff}

-- main: `for { go worker() }`; and a worker that calls main.
abbrev code : ℕ → List CallGraph.Instr
code zero = CallGraph.jump 1 ∷ []
code (suc zero) = CallGraph.branch 0 2 ∷ CallGraph.go (some 1) ∷ []
code (suc (suc zero)) = CallGraph.ret ∷ []
code (suc (suc (suc zero))) = CallGraph.call (some 0) ∷ []
code (suc (suc (suc (suc x)))) = []

abbrev bodies : ℕ → Option ℕ
bodies zero = some 0
bodies (suc zero) = some 3
bodies (suc (suc f)) = none

abbrev spawner : Program
spawner = record { instrs = code; entry = bodies }

only : (i j : CallGraph.Instr) (y : ℕ) → Memᴰ i (j ∷ []) → Jumps i y → Jumps j y
only i j y at jumps = subst (λ k. Jumps k y) (Memᴰ.eq_of_singleton at) jumps

spawner-IsClosed : IsClosed spawner 4
spawner-IsClosed zero y lt (i, at, jumps) =
    let target = only i (CallGraph.jump 1) y at jumps in omega arith
spawner-IsClosed (suc zero) y lt (i, at, jumps) = elim (Memᴰ.cases_cons at) [
  | inl same ↦ elim (subst (λ k. Jumps k y) same jumps) [
    | inl e ↦ omega arith
    | inr e ↦ omega arith
  ]
  | inr later ↦ absurd (only i (CallGraph.go (some 1)) y later jumps)
]
spawner-IsClosed (suc (suc zero)) y lt (i, at, jumps) = absurd (only i CallGraph.ret y at jumps)
spawner-IsClosed (suc (suc (suc zero))) y lt (i, at, jumps) =
    absurd (only i (CallGraph.call (some 0)) y at jumps)
spawner-IsClosed (suc (suc (suc (suc x)))) y lt (i, at, jumps) = absurd (Memᴰ.not-nil at)

build_example :
    (g : CallNode) × (build spawner 5 0 ≡ done g)
    × IsShallow g
    × IsDistinct (traverse g)
    × ((f : ℕ)
        → Memᴰ f (traverse g) ↔ ((f ≡ 0) ⊎ ((x : ℕ) × Reach spawner 0 x × Calls spawner x f)))
build_example = build_lem spawner 0 0 4 5 refl (omega arith) spawner-IsClosed (omega arith)

-- The header of `for i := 0; i < n; i++`.
abbrev header : BasicBlock
header = record {
  index = 1;
  comment = "for.loop";
  instrs = phi "i" ∷ if_instr (bin_op computed computed) ∷ [];
  succs = 2 ∷ 3 ∷ [];
}

header-IsWellFormed : IsWellFormed header
header-IsWellFormed = record {
  branches = λ cond e. (2, 3, [], refl);
  jumps = λ e. (2, 3 ∷ [], refl);
}

-- The header of `for v := range ch { sum += v }` begins with the phi of the sum.
abbrev summing : BasicBlock
summing = record {
  index = 2;
  comment = "rangechan.loop";
  instrs = phi "sum" ∷ un_op_instr [] ∷ if_instr other_cond ∷ [];
  succs = 3 ∷ 4 ∷ [];
}

summing-IsWellFormed : IsWellFormed summing
summing-IsWellFormed = record {
  branches = λ cond e. (3, 4, [], refl);
  jumps = λ e. (3, 4 ∷ [], refl);
}

abbrev two_headers : List (List BasicBlock)
two_headers = (header ∷ summing ∷ []) ∷ []

check_counts_example :
    (All (All BeginsWithReceive) two_headers
      ↔ ((fa' : FairnessAnalysis) × (check two_headers new_fairness_analysis ≡ some fa')))
    × ((fa' : FairnessAnalysis)
        → check two_headers new_fairness_analysis ≡ some fa'
        → Counted (sum_lengths two_headers) new_fairness_analysis fa')
check_counts_example =
    check_counts two_headers ((header-IsWellFormed, (summing-IsWellFormed, tt)), tt)
      ((((λ e. absurd (omega arith)), tt), (tt, tt)), tt) new_fairness_analysis

is_likely_unsafe_iff_example :
    (is_likely_unsafe header ≡ false) ↔ (All BranchesFairly header.instrs × HasIndex header.instrs)
is_likely_unsafe_iff_example = is_likely_unsafe_iff header

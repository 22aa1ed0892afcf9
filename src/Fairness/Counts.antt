-- ===== src/Fairness/Counts.antt =====
-- The counters of fairness/fairness.go over a whole run.
use dingo_hunter.Prelude.{
  ℕ, ◌+◌, ◌≤◌, ◌≡◌, inl, inr, some, List, [], ◌∷◌, contains, nat_eq, string_eq, arith, length,
  Bool-cases, ◌↔◌, Option-cases, All,
}
use dingo_hunter.Fairness.{
  BasicBlock, FairnessAnalysis, Verdict, no_loop, fair, unfair, verdict, count, visit_from, visit,
  check,
}
use dingo_hunter.Fairness.Returns.{
  IsWellFormed, BeginsWithReceive, HasDistinctBlocks, check-cons, check_total,
  check-BeginsWithReceive,
}

-- How many blocks there are.
pub sum_lengths : List (List BasicBlock) → ℕ
sum_lengths [] = 0
sum_lengths (fn ∷ fns) = length fn + sum_lengths fns

-- From `fa` to `fa'` by at most `n` blocks.
pub record Counted (n : ℕ) (fa fa' : FairnessAnalysis) : Type 0 where
  pub total_grows : fa.total ≤ fa'.total
  pub unsafe_grows : fa.unsafe ≤ fa'.unsafe
  pub each_once : fa'.total ≤ fa.total + n
  pub unsafe_counted : fa'.unsafe + fa.total ≤ fa.unsafe + fa'.total

count-Counted : (v : Verdict) (fa : FairnessAnalysis) → Counted 1 fa (count v fa)
unfolding count
count-Counted no_loop fa = omega arith
count-Counted fair fa = omega arith
count-Counted unfair fa = omega arith

visit_from-Counted :
    (visited : List ℕ) (blocks : List BasicBlock) (fa fa' : FairnessAnalysis)
    → visit_from visited blocks fa ≡ some fa'
    → Counted (length blocks) fa fa'
unfolding visit_from
visit_from-Counted visited [] fa fa' h = ground arith
visit_from-Counted visited (blk ∷ rest) fa fa' h = elim (Bool-cases (contains blk.index visited)) [
  | inl old ↦ omega (arith, visit_from-Counted visited rest fa fa' (rw (old, visit_from) at h))
  | inr new ↦ elim (Option-cases (verdict blk (blk.index ∷ visited))) [
    | inl bad ↦ let none_is_some = rw bad at (rw (new, visit_from) at h) in cc
    | inr (v, e) ↦ omega (
      arith,
      count-Counted v fa,
      visit_from-Counted (blk.index ∷ visited) rest (count v fa) fa'
          (rw e at (rw (new, visit_from) at h)),
    )
  ]
]

visit-Counted :
    (fn : List BasicBlock) (fa fa' : FairnessAnalysis)
    → visit fn fa ≡ some fa'
    → Counted (length fn) fa fa'
unfolding visit
visit-Counted = visit_from-Counted []

check-Counted :
    (fns : List (List BasicBlock)) (fa fa' : FairnessAnalysis)
    → check fns fa ≡ some fa'
    → Counted (sum_lengths fns) fa fa'
unfolding check sum_lengths
check-Counted [] fa fa' h = ground arith
check-Counted (fn ∷ rest) fa fa' h =
    let (mid, visited, later) = check-cons fn rest fa fa' h in
    let first = visit-Counted fn fa mid visited in
    let more = check-Counted rest mid fa' later in
    record {
      total_grows = omega (arith, first.total_grows, more.total_grows);
      unsafe_grows = omega (arith, first.unsafe_grows, more.unsafe_grows);
      each_once = omega (arith, first.each_once, more.each_once);
      unsafe_counted = omega (arith, first.unsafe_counted, more.unsafe_counted);
    }

-- On functions whose blocks have different indices and the successors that their last instructions
-- need, the analysis returns exactly if every header of a range over a channel begins with an
-- *ssa.UnOp. If it returns, its counters only grew, each block counts at most once, and what it
-- counts as unsafe it counts in the total.
pub check_counts :
    (fns : List (List BasicBlock))
    → All (All IsWellFormed) fns
    → All HasDistinctBlocks fns
    → (fa : FairnessAnalysis)
    → (All (All BeginsWithReceive) fns ↔ ((fa' : FairnessAnalysis) × (check fns fa ≡ some fa')))
      × ((fa' : FairnessAnalysis) → check fns fa ≡ some fa' → Counted (sum_lengths fns) fa fa')
check_counts fns h distinct fa = (
  (
    λ begins. check_total fns h begins fa,
    λ returns. check-BeginsWithReceive fns fa returns.0 distinct returns.1,
  ),
  check-Counted fns fa,
)

-- ===== src/Fairness.antt =====
-- fairness/fairness.go: the estimate of unfair loops. What the analysis reads of a function is its
-- blocks, with their comment, their instructions and their successors (golang.org/x/tools/go/ssa);
-- logging is left out.
pub mod Counts
pub mod Returns
pub mod Loops
use dingo_hunter.Prelude.{
  ℕ, suc, ◌+◌, String, Bool, true, false, not, ◌||◌, Option, none, some, List, [], ◌∷◌, Eq, nat_eq,
  string_eq, ◌==◌, if◌then◌else◌, contains, length, ltb,
}

-- An operand: only whether it is an *ssa.Const matters.
pub data Operand : Type 0 where
  const computed : Operand

-- The condition of an *ssa.If.
pub data Cond : Type 0 where
  const_cond : Cond
  bin_op : (x y : Operand) → Cond
  un_op : Operand → Cond
  call : Cond
  other_cond : Cond

-- `ssabuilder.ChanOp.Type`
pub data ChanOpType : Type 0 where
  chan_make chan_send chan_recv chan_close : ChanOpType

pub data Instr : Type 0 where
  debug_ref : Instr
  if_instr : Cond → Instr
  -- with its comment
  phi : String → Instr
  jump : Instr
  -- *ssa.UnOp, with what `info.FindChan` finds for its operand
  un_op_instr : List ChanOpType → Instr
  other : Instr

pub record BasicBlock : Type 0 where
  pub index : ℕ
  pub comment : String
  pub instrs : List Instr
  pub succs : List ℕ

-- The fields `unsafe` and `total`.
pub record FairnessAnalysis : Type 0 where
  pub unsafe : ℕ
  pub total : ℕ

pub new_fairness_analysis : FairnessAnalysis
new_fairness_analysis = record { unsafe = 0; total = 0 }

-- `isCondFair`
pub is_cond_fair : Cond → Bool
is_cond_fair const_cond = false
is_cond_fair (bin_op const const) = false
is_cond_fair (bin_op x y) = true
is_cond_fair (un_op const) = false
is_cond_fair (un_op computed) = true
is_cond_fair call = false
is_cond_fair other_cond = true

-- `isIndexStatic`: no phi with a comment.
pub is_index_static : List Instr → Bool
is_index_static [] = true
is_index_static (phi comment ∷ rest) = elim (comment == "") [
  | true ↦ is_index_static rest
  | false ↦ false
]
is_index_static (i ∷ rest) = is_index_static rest

-- The loop of `isLikelyUnsafe` over the instructions: a condition that is not fair.
pub has_unfair_cond : List Instr → Bool
has_unfair_cond [] = false
has_unfair_cond (if_instr cond ∷ rest) = elim (is_cond_fair cond) [
  | false ↦ true
  | true ↦ has_unfair_cond rest
]
has_unfair_cond (i ∷ rest) = has_unfair_cond rest

-- `isLikelyUnsafe`
pub is_likely_unsafe : BasicBlock → Bool
is_likely_unsafe blk = if has_unfair_cond blk.instrs then true else is_index_static blk.instrs

-- `hasClose` after the loop over the operations found.
pub has_close : List ChanOpType → Bool
has_close [] = false
has_close (chan_close ∷ rest) = true
has_close (op ∷ rest) = has_close rest

abbrev pub last : List Instr → Option Instr
last [] = none
last (i ∷ []) = some i
last (i ∷ j ∷ rest) = last (j ∷ rest)

-- What a block counts for: nothing, a loop that is taken as fair, or one that is not.
pub data Verdict : Type 0 where
  no_loop fair unfair : Verdict

abbrev pub fair_if : Bool → Verdict
fair_if true = fair
fair_if false = unfair

-- The channel read by the first instruction of a `rangechan.loop`. `none` is a panic: no first
-- instruction, or one of another type.
range_chan : List Instr → Option Verdict
range_chan (un_op_instr ops ∷ rest) = some (fair_if (has_close ops))
range_chan instrs = none

-- The last instruction of a normal block of more than one instruction. `none` is a panic: the
-- block lacks the successors that its last instruction needs.
recurring : Option Instr → List ℕ → List ℕ → Option Verdict
recurring (some (if_instr cond)) (t ∷ e ∷ more) visited =
    some (if contains t visited || contains e visited then fair_if (is_cond_fair cond) else no_loop)
recurring (some (if_instr cond)) succs visited = none
recurring (some jump) (t ∷ more) visited = some (if contains t visited then unfair else no_loop)
recurring (some jump) succs visited = none
recurring i succs visited = some no_loop

-- The chain of tests in `Visit`; `visited` holds the blocks met, this one included.
pub verdict : BasicBlock → List ℕ → Option Verdict
unfolding range_chan recurring
verdict blk visited =
    if blk.comment == "rangeindex.loop"
    then some fair
    else if blk.comment == "rangechan.loop"
    then range_chan blk.instrs
    else if blk.comment == "for.loop"
    then some (fair_if (not (is_likely_unsafe blk)))
    else if ltb 1 (length blk.instrs)
    then recurring (last blk.instrs) blk.succs visited
    else some no_loop

pub count : Verdict → FairnessAnalysis → FairnessAnalysis
count no_loop fa = fa
count fair fa = record fa { total = fa.total + 1 }
count unfair fa = record fa { total = fa.total + 1; unsafe = fa.unsafe + 1 }

-- The loop of `Visit` over the blocks of a function.
pub visit_from : List ℕ → List BasicBlock → FairnessAnalysis → Option FairnessAnalysis
visit_from visited [] fa = some fa
visit_from visited (blk ∷ rest) fa = elim (contains blk.index visited) [
  | true ↦ visit_from visited rest fa
  | false ↦ elim (verdict blk (blk.index ∷ visited)) [
    | none ↦ none
    | some v ↦ visit_from (blk.index ∷ visited) rest (count v fa)
  ]
]

-- `Visit`
pub visit : List BasicBlock → FairnessAnalysis → Option FairnessAnalysis
visit blocks fa = visit_from [] blocks fa

-- `cgRoot.Traverse(fa)`: the functions of the call graph in order, by their blocks.
pub check : List (List BasicBlock) → FairnessAnalysis → Option FairnessAnalysis
check [] fa = some fa
check (fn ∷ rest) fa = elim (visit fn fa) [ none ↦ none | some fa' ↦ check rest fa' ]

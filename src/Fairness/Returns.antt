-- ===== src/Fairness/Returns.antt =====
-- When fairness/fairness.go panics.
use dingo_hunter.Prelude.{
  ℕ, ◌≡◌, refl, inl, inr, Option, none, some, List, [], ◌∷◌, ◌==◌, contains, nat_eq, string_eq,
  arith, length, Bool-cases, ap, ◌≢◌, false, Option-cases, All, ltb, if◌then◌else◌, ◌||◌, not,
}
use dingo_hunter.Fairness.{
  Instr, if_instr, jump, un_op_instr, other, debug_ref, phi, ChanOpType, Cond, BasicBlock,
  FairnessAnalysis, Verdict, no_loop, fair, unfair, fair_if, last, range_chan, verdict, count,
  visit_from, visit, check, has_close, is_cond_fair, is_likely_unsafe, recurring,
}

-- What the SSA form promises of a block: if it ends in a branch or a jump, it has the successors for
-- it.
pub record IsWellFormed (blk : BasicBlock) : Type 0 where
  pub branches :
      (cond : Cond)
      → last blk.instrs ≡ some (if_instr cond)
      → (t e : ℕ) × (more : List ℕ) × (blk.succs ≡ t ∷ e ∷ more)
  pub jumps : last blk.instrs ≡ some jump → (t : ℕ) × (more : List ℕ) × (blk.succs ≡ t ∷ more)

-- If the block is the header of a range over a channel, its first instruction is an *ssa.UnOp, the
-- receive. A header with a phi, which comes first, does not begin so.
abbrev pub BeginsWithReceive : BasicBlock → Type 0
BeginsWithReceive blk =
    blk.comment ≡ "rangechan.loop"
    → (ops : List ChanOpType) × (rest : List Instr) × (blk.instrs ≡ un_op_instr ops ∷ rest)

recurring_total :
    (i : Option Instr) (succs visited : List ℕ)
    → ((cond : Cond)
        → i ≡ some (if_instr cond)
        → (t e : ℕ) × (more : List ℕ) × (succs ≡ t ∷ e ∷ more))
    → (i ≡ some jump → (t : ℕ) × (more : List ℕ) × (succs ≡ t ∷ more))
    → (v : Verdict) × (recurring i succs visited ≡ some v)
unfolding recurring
recurring_total none succs visited b j = (no_loop, refl)
recurring_total (some (if_instr cond)) succs visited b j =
    let (t, e, more, same) = b cond refl in
    (
      if contains t visited || contains e visited then fair_if (is_cond_fair cond) else no_loop,
      rw (same, recurring),
    )
recurring_total (some jump) succs visited b j =
    let (t, more, same) = j refl in
    (if contains t visited then unfair else no_loop, rw (same, recurring))
recurring_total (some debug_ref) succs visited b j = (no_loop, refl)
recurring_total (some (phi comment)) succs visited b j = (no_loop, refl)
recurring_total (some (un_op_instr ops)) succs visited b j = (no_loop, refl)
recurring_total (some other) succs visited b j = (no_loop, refl)

verdict_total :
    (blk : BasicBlock) (visited : List ℕ)
    → IsWellFormed blk
    → BeginsWithReceive blk
    → (v : Verdict) × (verdict blk visited ≡ some v)
unfolding verdict
verdict_total blk visited h begins = elim (Bool-cases (blk.comment == "rangeindex.loop")) [
  | inl index ↦ (fair, rw index)
  | inr not_index ↦ elim (Bool-cases (blk.comment == "rangechan.loop")) [
    | inl chan ↦
        let (ops, rest, e) = begins ((string_eq.beq_iff blk.comment "rangechan.loop").0 chan) in
        (fair_if (has_close ops), rw (not_index, chan, e))
    | inr not_chan ↦ elim (Bool-cases (blk.comment == "for.loop")) [
      | inl loop ↦ (fair_if (not (is_likely_unsafe blk)), rw (not_index, not_chan, loop))
      | inr normal ↦ elim (Bool-cases (ltb 1 (length blk.instrs))) [
        | inl long ↦
            let (v, e) = recurring_total (last blk.instrs) blk.succs visited h.branches h.jumps in
            (v, rw (not_index, not_chan, normal, long) e)
        | inr short ↦ (no_loop, rw (not_index, not_chan, normal, short))
      ]
    ]
  ]
]

range_chan-begins :
    (instrs : List Instr) (v : Verdict)
    → range_chan instrs ≡ some v
    → (ops : List ChanOpType) × (rest : List Instr) × (instrs ≡ un_op_instr ops ∷ rest)
unfolding range_chan
range_chan-begins [] v h = absurd cc
range_chan-begins (un_op_instr ops ∷ rest) v h = (ops, rest, refl)
range_chan-begins (debug_ref ∷ rest) v h = absurd cc
range_chan-begins (if_instr cond ∷ rest) v h = absurd cc
range_chan-begins (phi comment ∷ rest) v h = absurd cc
range_chan-begins (jump ∷ rest) v h = absurd cc
range_chan-begins (other ∷ rest) v h = absurd cc

verdict-BeginsWithReceive :
    (blk : BasicBlock) (visited : List ℕ) (v : Verdict)
    → verdict blk visited ≡ some v
    → BeginsWithReceive blk
unfolding verdict
verdict-BeginsWithReceive blk visited v h chan =
    let not_index : (blk.comment == "rangeindex.loop") ≡ false =
      ap (λ c. c == "rangeindex.loop") chan in
    let is_chan = (string_eq.beq_iff blk.comment "rangechan.loop").1 chan in
    range_chan-begins blk.instrs v (rw is_chan at (rw (not_index, verdict) at h))

-- The blocks have different indices.
abbrev pub HasDistinctBlocks : List BasicBlock → Type 0
HasDistinctBlocks [] = Unit
HasDistinctBlocks (blk ∷ rest) =
    All (λ other. blk.index ≢ other.index) rest × HasDistinctBlocks rest

abbrev AreNew : List ℕ → List BasicBlock → Type 0
AreNew visited = All (λ blk. contains blk.index visited ≡ false)

still_new :
    (i : ℕ) (visited : List ℕ) (blocks : List BasicBlock)
    → All (λ other. i ≢ other.index) blocks
    → AreNew visited blocks
    → AreNew (i ∷ visited) blocks
still_new i visited [] others new = tt
still_new i visited (blk ∷ rest) (differs, others) (first, new) =
    (ground (arith, nat_eq.beq_iff i blk.index), still_new i visited rest others new)

no_index-new : (blocks : List BasicBlock) → AreNew [] blocks
no_index-new [] = tt
no_index-new (blk ∷ rest) = (refl, no_index-new rest)

visit_from-BeginsWithReceive :
    (visited : List ℕ) (blocks : List BasicBlock) (fa fa' : FairnessAnalysis)
    → HasDistinctBlocks blocks
    → AreNew visited blocks
    → visit_from visited blocks fa ≡ some fa'
    → All BeginsWithReceive blocks
unfolding visit_from
visit_from-BeginsWithReceive visited [] fa fa' distinct new h = tt
visit_from-BeginsWithReceive visited (blk ∷ rest) fa fa' (others, distinct) (first, new) h =
    elim (Option-cases (verdict blk (blk.index ∷ visited))) [
      | inl bad ↦ let none_is_some = rw bad at (rw (first, visit_from) at h) in absurd cc
      | inr (v, e) ↦ (
        verdict-BeginsWithReceive blk (blk.index ∷ visited) v e,
        visit_from-BeginsWithReceive (blk.index ∷ visited) rest (count v fa) fa' distinct
            (still_new blk.index visited rest others new) (rw e at (rw (first, visit_from) at h)),
      )
    ]

visit_from_total :
    (visited : List ℕ) (blocks : List BasicBlock) (fa : FairnessAnalysis)
    → All IsWellFormed blocks
    → All BeginsWithReceive blocks
    → (fa' : FairnessAnalysis) × (visit_from visited blocks fa ≡ some fa')
unfolding visit_from
visit_from_total visited [] fa h begins = (fa, refl)
visit_from_total visited (blk ∷ rest) fa h begins = elim (Bool-cases (contains blk.index visited)) [
  | inl old ↦
      let (fa', e) = visit_from_total visited rest fa h.1 begins.1 in (fa', rw (old, visit_from) e)
  | inr new ↦
      let (v, e) = verdict_total blk (blk.index ∷ visited) h.0 begins.0 in
      let (fa', e') = visit_from_total (blk.index ∷ visited) rest (count v fa) h.1 begins.1 in
      (fa', rw (new, visit_from) (rw e e'))
]

visit_total :
    (fn : List BasicBlock)
    → All IsWellFormed fn
    → All BeginsWithReceive fn
    → (fa : FairnessAnalysis) → (fa' : FairnessAnalysis) × (visit fn fa ≡ some fa')
unfolding visit
visit_total fn h begins fa = visit_from_total [] fn fa h begins

visit-BeginsWithReceive :
    (fn : List BasicBlock) (fa fa' : FairnessAnalysis)
    → HasDistinctBlocks fn
    → visit fn fa ≡ some fa'
    → All BeginsWithReceive fn
unfolding visit
visit-BeginsWithReceive fn fa fa' distinct h =
    visit_from-BeginsWithReceive [] fn fa fa' distinct (no_index-new fn) h

pub check_total :
    (fns : List (List BasicBlock))
    → All (All IsWellFormed) fns
    → All (All BeginsWithReceive) fns
    → (fa : FairnessAnalysis) → (fa' : FairnessAnalysis) × (check fns fa ≡ some fa')
unfolding check
check_total [] h begins fa = (fa, refl)
check_total (fn ∷ rest) h begins fa =
    let (fa1, e) = visit_total fn h.0 begins.0 fa in
    let (fa2, e2) = check_total rest h.1 begins.1 fa1 in (fa2, rw (e, check) e2)

-- The first function, and the others.
pub check-cons :
    (fn : List BasicBlock) (rest : List (List BasicBlock)) (fa fa' : FairnessAnalysis)
    → check (fn ∷ rest) fa ≡ some fa'
    → (mid : FairnessAnalysis) × (visit fn fa ≡ some mid) × (check rest mid ≡ some fa')
unfolding check
check-cons fn rest fa fa' h = elim (Option-cases (visit fn fa)) [
  | inl bad ↦ let none_is_some = rw (bad, check) at h in absurd cc
  | inr (mid, e) ↦ (mid, e, rw (e, check) at h)
]

pub check-BeginsWithReceive :
    (fns : List (List BasicBlock)) (fa fa' : FairnessAnalysis)
    → All HasDistinctBlocks fns
    → check fns fa ≡ some fa'
    → All (All BeginsWithReceive) fns
check-BeginsWithReceive [] fa fa' distinct h = tt
check-BeginsWithReceive (fn ∷ rest) fa fa' (first, distinct) h =
    let (mid, visited, later) = check-cons fn rest fa fa' h in
    (
      visit-BeginsWithReceive fn fa mid first visited,
      check-BeginsWithReceive rest mid fa' distinct later,
    )

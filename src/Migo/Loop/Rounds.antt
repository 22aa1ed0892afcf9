-- ===== src/Migo/Loop/Rounds.antt =====
-- Static loops of migoextract at the visits of their header: the index, and whether they go on.
use dingo_hunter.Prelude.{ℕ, suc, zero, ◌+◌, true, Option, some, List, nat_eq}
use dingo_hunter.Ssa.{Value}
use dingo_hunter.Migo.Int64.{int}
use dingo_hunter.Migo.Loop.{
  Loop, LoopState, enter, LoopBound, static, Cmp, Increment, visit_bin_op, loop_detect_bounds,
  Position, loop_state_transition,
}

-- A header with the phi `v` and a comparison of it.
abbrev pub header : Value → Option ℕ → Increment → Value → Cmp → Option ℕ → Loop → Loop
header v init incr cond op y l = visit_bin_op cond op true y (loop_detect_bounds v init incr l)

-- From the header to the block `b` of the body, and back.
abbrev pub round : ℕ → Position → Position
round b p =
    loop_state_transition "for.loop" p.loop.loop_block (loop_state_transition "for.body" b p)

-- A visit of the header, and `m` rounds that end in another visit.
abbrev pub visits : (Loop → Loop) → ℕ → ℕ → Position → Position
visits visit b zero p = record p { loop = visit p.loop }
visits visit b (suc m) p = let q = round b (visits visit b m p) in record q { loop = visit q.loop }

-- `a` and `m` times `k`.
abbrev pub nth : ℕ → ℕ → ℕ → ℕ
nth a k zero = a
nth a k (suc m) = nth a k m + k

-- A loop with a static bound, at its header.
abbrev counting : Value → Value → ℕ → ℕ → ℕ → ℕ → ℕ → Loop
counting v cond a k max blk i = record {
  bound = static;
  state = enter;
  index_var = some v;
  cond_var = some cond;
  index = i;
  start = a;
  step = int k;
  end = max;
  loop_block = blk;
}

abbrev with_stack : List Loop → Loop → Position
with_stack stack l = record { loop = l; stack = stack }

-- What the first visit of the header makes of a loop in state `s`.
abbrev first_visit : LoopBound → LoopState → Value → Value → ℕ → ℕ → ℕ → ℕ → Loop
first_visit b s v cond a step max blk = record {
  bound = b;
  state = s;
  index_var = some v;
  cond_var = some cond;
  index = a;
  start = a;
  step = step;
  end = max;
  loop_block = blk;
}

-- ===== src/Migo/Loop.antt =====
-- migoextract/loop.go and loopstack.go, and what visit.go does with the loop of a context: the
-- state machine of loops, static bounds, and the stack of the loops around. A `*Loop` is passed on
-- by value; `Parent` is left out, and so are the values and statements that the instructions make.
pub mod Unroll
pub mod Rounds
use dingo_hunter.Prelude.{
  ℕ, suc, zero, String, string_eq, nat_eq, ◌==◌, Bool, true, false, ◌&&◌, Option, none, some, List,
  [], ◌∷◌, if◌then◌else◌, ltb, leb,
}
use mathlib.Core.Option
use dingo_hunter.Ssa.{Value}
use dingo_hunter.Migo.Int64.{add, sub, neg, int}

pub data LoopState : Type 0 where
  non_loop enter body exit : LoopState

pub data LoopBound : Type 0 where
  unknown static dynamic : LoopBound

-- `index`, `start`, `step` and `end` are int64; a nil value is `none`.
pub record Loop : Type 0 where
  pub bound : LoopBound
  pub state : LoopState
  pub index_var : Option Value
  pub cond_var : Option Value
  pub index : ℕ
  pub start : ℕ
  pub step : ℕ
  pub end : ℕ
  pub loop_block : ℕ

-- `&Loop{Bound: Unknown, State: Enter, LoopBlock: blk.Index}`
unfoldable pub new_loop : ℕ → Loop
new_loop blk = record {
  bound = unknown;
  state = enter;
  index_var = none;
  cond_var = none;
  index = int 0;
  start = int 0;
  step = int 0;
  end = int 0;
  loop_block = blk;
}

unfoldable pub set_init : Value → ℕ → Loop → Loop
set_init v init l = record l { index_var = some v; start = init; index = init }

unfoldable pub set_step : ℕ → Loop → Loop
set_step s l = record l { step = s }

unfoldable pub set_cond : Value → ℕ → Loop → Loop
set_cond cond max l = record l { cond_var = some cond; end = max }

abbrev pub is_static : LoopBound → Bool
is_static static = true
is_static b = false

unfoldable pub next : Loop → Loop
next l = if is_static l.bound then record l { index = add l.index l.step } else l

unfoldable pub has_next : Loop → Bool
has_next l = is_static l.bound && (leb l.start l.index && leb l.index l.end)

-- The second edge of a phi: a sum or a difference with an operand that may be an integer constant,
-- or another value.
pub data Increment : Type 0 where
  plus minus : Option ℕ → Increment
  unsupported : Increment

unfoldable pub set_increment : Increment → Loop → Loop
set_increment (plus (some i)) l = set_step i l
set_increment (minus (some i)) l = set_step (neg i) l
set_increment i l = l

-- `loopSetIndex`; the first edge may be an integer constant.
unfoldable pub loop_set_index : Value → Option ℕ → Increment → Loop → Loop
unfolding set_increment
loop_set_index v none incr l = set_increment incr l
loop_set_index v (some init) incr l = set_increment incr (set_init v init l)

-- The phi of the index moves it.
unfoldable pub move_index : Option Value → Value → Loop → Loop
move_index none v l = l
move_index (some w) v l = if v == w then next l else l

unfoldable pub detect_on_enter : LoopBound → Value → Option ℕ → Increment → Loop → Loop
unfolding move_index
detect_on_enter unknown v init incr l = loop_set_index v init incr l
detect_on_enter static v init incr l = move_index l.index_var v l
detect_on_enter dynamic v init incr l = l

unfoldable pub is_enter : LoopState → Bool
is_enter enter = true
is_enter s = false

-- `loopDetectBounds` at a phi.
unfoldable pub loop_detect_bounds : Value → Option ℕ → Increment → Loop → Loop
unfolding detect_on_enter is_enter
loop_detect_bounds v init incr l =
    if is_enter l.state then detect_on_enter l.bound v init incr l else l

pub data Cmp : Type 0 where
  lss leq gtr geq other_op : Cmp

-- The last index of a loop that compares with the constant, and whether it counts upwards.
abbrev pub last_index : Cmp → ℕ → Option (ℕ × Bool)
last_index lss i = some (sub i (int 1), true)
last_index leq i = some (i, true)
last_index gtr i = some (add i (int 1), false)
last_index geq i = some (i, false)
last_index other_op i = none

-- `SetCond`, and the bound: static for a phi whose start is on the right side of the end.
unfoldable pub bound_at : Value → Bool → ℕ → Bool → Loop → Loop
bound_at cond phi max up l =
    let in_order = if up then ltb l.start max else ltb max l.start in
    record (set_cond cond max l) { bound = if phi && in_order then static else dynamic }

unfoldable pub cond_on_enter : LoopBound → Value → Cmp → Bool → Option ℕ → Loop → Loop
unfolding bound_at
cond_on_enter unknown cond op phi (some i) l = elim (last_index op i) [
  | none ↦ l
  | some (max, up) ↦ bound_at cond phi max up l
]
cond_on_enter b cond op phi y l = l

-- `visitBinOp`: the comparison `cond`, whether its first operand is a phi, and its second operand
-- if that is an integer constant.
unfoldable pub visit_bin_op : Value → Cmp → Bool → Option ℕ → Loop → Loop
unfolding cond_on_enter is_enter
visit_bin_op cond op phi y l = if is_enter l.state then cond_on_enter l.bound cond op phi y l else l

-- `visitJump`: the loop is left for good.
unfoldable pub visit_jump : Loop → Loop
visit_jump l = elim l.state [ exit ↦ record l { state = non_loop } | _ ↦ l ]

-- The loop, and the stack of the loops around it, from the top.
pub record Position : Type 0 where
  pub loop : Loop
  pub stack : List Loop

-- `LoopStack.Pop`, and what follows it: on an empty stack the loop stays.
unfoldable pub leave : Loop → List Loop → Position
leave l [] = record { loop = l; stack = [] }
leave l (top ∷ rest) = record { loop = top; stack = rest }

-- The cases of `loopStateTransition`.
unfoldable pub from_non_loop : String → ℕ → Loop → Loop
from_non_loop comment blk l =
    let l' =
      if comment == "for.loop"
      then record l { state = enter; bound = unknown; loop_block = blk }
      else l in
    if comment == "for.body"
    then record l' { state = body; bound = unknown; loop_block = blk }
    else l'

unfoldable pub from_enter : String → Loop → List Loop → Position
unfolding leave
from_enter comment l stack =
    let l' = if comment == "for.body" then record l { state = body } else l in
    if comment == "for.done"
    then leave (record l' { state = exit }) stack
    else record { loop = l'; stack = stack }

unfoldable pub from_body : String → ℕ → Loop → List Loop → Position
from_body comment blk l stack =
    if comment == "for.loop"
    then if l.loop_block == blk
      then record { loop = record l { state = enter }; stack = stack }
      else record { loop = new_loop blk; stack = l ∷ stack }
    else if comment == "for.done"
    then record { loop = record l { state = exit }; stack = stack }
    else record { loop = l; stack = stack }

unfoldable pub transition_at : LoopState → String → ℕ → Position → Position
unfolding from_non_loop from_enter from_body
transition_at non_loop comment blk p = record p { loop = from_non_loop comment blk p.loop }
transition_at enter comment blk p = from_enter comment p.loop p.stack
transition_at body comment blk p = from_body comment blk p.loop p.stack
transition_at exit comment blk p = record p {
  loop = record p.loop { state = non_loop; bound = unknown };
}

unfoldable pub loop_state_transition : String → ℕ → Position → Position
unfolding transition_at
loop_state_transition comment blk p = transition_at p.loop.state comment blk p

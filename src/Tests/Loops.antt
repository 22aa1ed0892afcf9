-- ===== src/Tests/Loops.antt =====
-- The loops of migoextract at concrete headers.
use dingo_hunter.Prelude.{◌≡◌, refl, true, false, some, [], ◌∷◌}
use dingo_hunter.Migo.Int64.{int, neg}
use dingo_hunter.Migo.Loop.{
  Loop, unsupported, enter, unknown, new_loop, static, lss, gtr, plus, visit_bin_op, has_next,
  Position, cond_on_enter, bound_at, is_enter, set_cond,
}
use dingo_hunter.Migo.Loop.Unroll.{descending_stops}
use dingo_hunter.Migo.Loop.Rounds.{header}

-- The loop at its header, before that is visited.
abbrev entered : Loop
unfolding new_loop
entered = new_loop 3

-- The header of `for i := 0; i < 5; i += 2`.
abbrev up_header : Loop → Loop
up_header = header 1 (some (int 0)) (plus (some (int 2))) 2 lss (some (int 5))

-- It stands in the body of another loop.
abbrev at_header : Position
at_header = record { loop = entered; stack = entered ∷ [] }

-- The header of `for i := 0; i < 5; i = f(i)`.
abbrev still : Loop → Loop
still = header 1 (some (int 0)) unsupported 2 lss (some (int 5))

-- `for i := 10; i > 0; i--`, whose phi was visited.
abbrev down : Loop
down = record entered { index_var = some 1; start = int 10; index = int 10; step = neg (int 1) }

down-state : down.state ≡ enter
unfolding new_loop
down-state = refl

down-bound : down.bound ≡ unknown
unfolding new_loop
down-bound = refl

down_is_static : (visit_bin_op 2 gtr true (some (int 0)) down).bound ≡ static
unfolding visit_bin_op is_enter cond_on_enter bound_at set_cond new_loop
down_is_static = refl

descending_stops_example :
    has_next (record (visit_bin_op 2 gtr true (some (int 0)) down) { index = int 10 }) ≡ false
descending_stops_example =
    descending_stops 2 gtr true (int 0) (int 1) (int 10) down down-state down-bound refl
      down_is_static

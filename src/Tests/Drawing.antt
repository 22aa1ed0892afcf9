-- ===== src/Tests/Drawing.antt =====
-- The drawing of a session with two goroutines, one of which makes a channel and sends in a loop.
use dingo_hunter.Prelude.{◌+◌, ◌≡◌, refl, none, some, false, [], ◌∷◌}
use dingo_hunter.Ssa.{Ssa}
use dingo_hunter.SessType.Node.{
  Role, Chan, Node, nil, cons, label, new_chan, send, goto, count_nodes, chan_type,
}
use dingo_hunter.SessType.Session.{Session}
use dingo_hunter.SessType.Dot.{GraphvizDot, new_graphviz_dot}
use dingo_hunter.SessType.Dot.Numbers.{IsNumbered, gotos, edges}
use dingo_hunter.SessType.Dot.Roots.{total, one, drawing_counts}

abbrev main_role : Role
main_role = record { name = "main"; address = 0 }

abbrev drawn_chan : Chan
drawn_chan = record { def = record { var = 1; ver = 0 }; role = main_role; extern = false }

abbrev sender : Node
sender = label "main" (
    cons
      (new_chan drawn_chan (
        cons
          (label "loop"
            (cons (send main_role drawn_chan false none (cons (goto "loop" nil) nil)) nil))
          nil))
      nil)

abbrev ints : Ssa
ints = record { chan_elem = λ v. some "int" }

drawn_chan-type : chan_type ints drawn_chan ≡ some "int"
unfolding chan_type
drawn_chan-type = refl

-- The other goroutine has no root.
abbrev drawn_session : Session
drawn_session = record {
  types = (main_role, some sender) ∷ (record { name = "worker"; address = 1 }, none) ∷ [];
  chans = [];
  roles = [];
}

drawing_counts_example :
    (dot : GraphvizDot) × (new_graphviz_dot ints drawn_session ≡ some dot)
    × IsNumbered dot.count dot.calls
    × (dot.count + total gotos drawn_session.types ≡ total count_nodes drawn_session.types)
    × (edges dot.calls + total one drawn_session.types ≡ total count_nodes drawn_session.types)
drawing_counts_example =
    drawing_counts ints drawn_session (tt, (tt, tt))
      (((("int", drawn_chan-type), (((tt, tt), tt), tt)), tt), (tt, tt))

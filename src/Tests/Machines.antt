-- ===== src/Tests/Machines.antt =====
-- The translation to machines (cfsmextract/sesstype/cfsm.go) of small sessions.
use dingo_hunter.Prelude.{ℕ, ◌≡◌, ◌≢◌, refl, ◌↔◌, false, none, some, List, [], ◌∷◌, Memᴰ, arith}
use dingo_hunter.Ssa.{Ssa}
use dingo_hunter.SessType.Node.{Role, Chan, Node, Nodes, nil, cons, label, goto, chan_type}
use dingo_hunter.Cfsm.Library.{Action, send}
use dingo_hunter.Cfsm.Machine.{
  Result, ok, err, root_to_machine, node_to_machine, resolve, is_self_loop, act, add_edge,
}
use dingo_hunter.Cfsm.Machine.Acyclic.{Walk, stay, go, no_long_loop}
use dingo_hunter.Cfsm.Machine.Semantics.{Run, Trace, Resolves}
use dingo_hunter.Cfsm.Machine.Language.Correct.{root_to_machine-language}
use dingo_hunter.Cfsm.Channel.{chan_to_machine}
use dingo_hunter.Cfsm.Channel.Relay.{Relays, chan_to_machine-Relays, end_state_unreachable}
use dingo_hunter.Tests.Memory.{Memory, memory, empty, Point}

abbrev main_role : Role
main_role = record { name = "main"; address = 0 }

abbrev ints : Chan
ints = record { def = record { var = 7; ver = 0 }; role = main_role; extern = false }

abbrev all_ints : Ssa
all_ints = record { chan_elem = λ v. some "int" }

-- The channel has machine 0, the role machine 1.
abbrev machines : List (Chan × ℕ)
machines = (ints, 0) ∷ []

abbrev ping_pong : Nodes → Node
ping_pong rest = label "main" (
    cons
      (Node.send main_role ints false none
        (cons (Node.recv ints main_role false none false rest) nil))
      nil)

-- `for { c <- x; <-c }`
abbrev forever : Node
forever = ping_pong (cons (goto "main" nil) nil)

abbrev translated : Node → Result Memory
translated root = root_to_machine memory all_ints machines 1 root empty

abbrev memory_of : Result Memory → Memory
memory_of (ok w) = w
memory_of (err e) = empty

abbrev after_forever : Memory
unfolding root_to_machine node_to_machine resolve chan_type is_self_loop act add_edge
after_forever = memory_of (translated forever)

forever_runs : translated forever ≡ ok after_forever
unfolding root_to_machine node_to_machine resolve chan_type is_self_loop act add_edge
forever_runs = refl

forever-Walk : Walk memory after_forever (1, 0) (1, 1)
unfolding root_to_machine node_to_machine resolve chan_type is_self_loop act add_edge
forever-Walk = go (send 0 "int") stay (Memᴰ.head refl)

forever_known : Memᴰ (1, 0) (memory.states after_forever 1)
unfolding root_to_machine node_to_machine resolve chan_type is_self_loop act add_edge
forever_known = Memᴰ.head refl

forever_differ : ◌≢◌ {A = Point} (1, 0) (1, 1)
forever_differ e = ground arith

-- The loop back from the last state to the start is not there.
no_long_loop_example : ¬ Walk memory after_forever (1, 1) (1, 0)
no_long_loop_example =
    no_long_loop memory all_ints machines 1 forever empty after_forever (1, 0) (1, 1) refl
      forever_runs forever_known forever_differ forever-Walk

abbrev once : Node
once = ping_pong nil

once-Resolves : Resolves memory all_ints machines 1 once
unfolding resolve chan_type
once-Resolves = (((0, "int", refl), (((0, "int", refl), tt), tt)), tt)

root_to_machine-language_example :
    (w' : Memory) × (q0 : Point) × (root_to_machine memory all_ints machines 1 once empty ≡ ok w')
    × (w'.starts 1 ≡ some q0)
    × ((word : List (Action ℕ))
        → Run memory w' q0 word ↔ Trace memory all_ints machines 1 (cons once nil) word)
root_to_machine-language_example =
    root_to_machine-language memory all_ints machines 1 once empty ((tt, tt), tt) once-Resolves

chan_to_machine-Relays_example :
    ((chan_to_machine memory 0 "int" (1 ∷ 2 ∷ []) empty).starts 0 ≡ some (0, 0))
    × ((word : List (Action ℕ))
        → Run memory (chan_to_machine memory 0 "int" (1 ∷ 2 ∷ []) empty) (0, 0) word
          ↔ Relays (λ p. p) "int" (1 ∷ 2 ∷ []) word)
chan_to_machine-Relays_example = chan_to_machine-Relays memory 0 "int" (1 ∷ 2 ∷ []) empty

end_state_unreachable_example :
    ¬ Walk memory (chan_to_machine memory 0 "int" (1 ∷ 2 ∷ []) empty) (0, 0) (0, 1)
end_state_unreachable_example = end_state_unreachable memory 0 "int" (1 ∷ 2 ∷ []) empty

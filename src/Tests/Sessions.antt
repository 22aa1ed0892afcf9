-- ===== src/Tests/Sessions.antt =====
-- Definitions, nodes, roles and stacks of a small session.
use mathlib.Core.List.{head?}
use dingo_hunter.Prelude.{
  ◌+◌, ◌≡◌, ◌≢◌, refl, ◌⊎◌, String, none, some, List, [], ◌∷◌, arith, lookup, string_eq, nat_eq,
}
use dingo_hunter.Definition.{Definition, new_def, fresh_def, bump, issue}
use dingo_hunter.Definition.Fresh.{IsUnique, issue-IsUnique}
use dingo_hunter.SessType.Node.{
  Node, kind, children, append, len, child, count_nodes, new_label_node, new_goto_node,
}
use dingo_hunter.SessType.Node.Count.{append_lem}
use dingo_hunter.SessType.Session.{create_session, get_role}
use dingo_hunter.SessType.Session.Laws.{IsInterned, create_session-IsInterned, get_role_interns}
use dingo_hunter.SessType.Stack.{NodeStack, push, pop, top, size}
use dingo_hunter.SessType.Stack.Laws.{IsValid, items, pop_list, stack-refines}

abbrev three : List Definition
three = record { var = 4; ver = 0 } ∷ record { var = 5; ver = 0 } ∷ record { var = 4; ver = 1 } ∷ []

three_issued : issue (some 4 ∷ some 5 ∷ some 4 ∷ []) [] ≡ some three
unfolding issue new_def fresh_def bump
three_issued = refl

issue-IsUnique_example : IsUnique three
issue-IsUnique_example = issue-IsUnique (some 4 ∷ some 5 ∷ some 4 ∷ []) [] three three_issued

abbrev loop : Node
loop = new_label_node "loop"

append_example :
    (kind (append loop (new_goto_node "loop")) ≡ kind loop)
    × (count_nodes (append loop (new_goto_node "loop"))
        ≡ count_nodes loop + count_nodes (new_goto_node "loop"))
    × (child (append loop (new_goto_node "loop")) (len (children loop))
        ≡ some (new_goto_node "loop"))
append_example = append_lem loop (new_goto_node "loop")

main_differs : ◌≢◌ {A = String} "main" "worker"
main_differs e = let same = (string_eq.beq_iff "main" "worker").1 e in cc

get_role_interns_example :
    ((get_role create_session "main").0.name ≡ "main")
    × IsInterned (get_role create_session "main").1
    × (get_role (get_role create_session "main").1 "main" ≡ get_role create_session "main")
    × (lookup "worker" (get_role create_session "main").1.roles
        ≡ lookup "worker" create_session.roles)
    × ((get_role create_session "main").1.types ≡ create_session.types)
    × ((get_role create_session "main").1.chans ≡ create_session.chans)
get_role_interns_example =
    get_role_interns create_session "main" "worker" create_session-IsInterned main_differs

-- A stack whose slice still holds a node that was popped.
abbrev stale : NodeStack Node
stale = record { nodes = loop ∷ new_goto_node "old" ∷ []; count = 1 }

stale-IsValid : IsValid stale
stale-IsValid = omega arith

stack-refines_example :
    IsValid (push stale loop)
    × (items (push stale loop) ≡ loop ∷ items stale)
    × (size (push stale loop) ≡ size stale + 1)
    × (top stale ≡ head? (items stale))
    × ((pop stale ≡ none) × (items stale ≡ [])
        ⊎ ((s' : NodeStack Node) × (pop stale ≡ some s')
            × IsValid s'
            × (some (items s') ≡ pop_list (items stale))))
stack-refines_example = stack-refines stale loop stale-IsValid

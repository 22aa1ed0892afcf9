-- ===== src/Cfsm/Channel.antt =====
-- cfsmextract/sesstype/cfsm.go: `chanToMachine`. The loops range over the map `sys.Roles`, whose
-- order Go leaves open; here they run over any list of its machines.
pub mod Sends
pub mod Served
pub mod Invariant
pub mod Relay
use dingo_hunter.Prelude.{String, Bool, not, List, [], ◌∷◌, if◌then◌else◌, ◌==◌, nat_eq}
use dingo_hunter.Cfsm.Library.{Cfsm, Action, send, recv}
use dingo_hunter.Cfsm.Machine.{stop_message}

module _ (lib : Cfsm) (m : lib.Machine) where
  open lib use {World, State, Machine, new_state, add_transition, set_start, machine_id}

  -- The loop over `machine2`: a transition from `q` to `r` that sends to each machine but `p`.
  unfoldable pub send_others : Machine → String → State → State → List Machine → World → World
  send_others p msg q r [] w = w
  send_others p msg q r (p2 ∷ rest) w =
      send_others p msg q r rest
        (if not (machine_id w p == machine_id w p2) then add_transition q (send p2 msg) r w else w)

  -- The body of the loop over `machine`.
  unfoldable pub serve : String → State → State → List Machine → Machine → World → World
  serve t q0 q_end roles p w =
      let (q1, w1) = new_state m w in
      let w2 = add_transition q0 (recv p t) q1 w1 in
      let w3 = send_others p t q1 q0 roles w2 in
      let w4 = add_transition q_end (recv p stop_message) q_end w3 in
      send_others p stop_message q_end q_end roles w4

  unfoldable pub serve_all : String → State → State → List Machine → List Machine → World → World
  serve_all t q0 q_end roles [] w = w
  serve_all t q0 q_end roles (p ∷ rest) w =
      serve_all t q0 q_end roles rest (serve t q0 q_end roles p w)

  -- `chanToMachine`, for a payload of type `t` and the machines of the roles.
  unfoldable pub chan_to_machine : String → List Machine → World → World
  chan_to_machine t roles w =
      let (q0, w1) = new_state m w in
      let (q_end, w2) = new_state m w1 in set_start m q0 (serve_all t q0 q_end roles roles w2)

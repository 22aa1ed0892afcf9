-- ===== src/Cfsm/Library.antt =====
-- The package github.com/nickng/cfsm, which cfsmextract/sesstype/cfsm.go calls and which is not
-- part of this repository: its operations and their documented behaviour, as an interface.
pub mod Laws
use dingo_hunter.Prelude.{
  ℕ, String, ◌≡◌, Bool, true, false, Option, some, List, [], ◌∷◌, ◌++◌, Memᴰ, Eq, ◌==◌,
  if◌then◌else◌,
}

-- The label of a transition made by `NewSend` or `NewRecv`: the other machine and the message.
pub data Action {ℓ} (M : Type ℓ) : Type ℓ where
  send : M → String → Action M
  recv : M → String → Action M

-- `World` is the memory that holds the machines; `Machine` and `State` are pointers into it.
pub record Cfsm : Type 1 where
  pub World : Type 0
  pub Machine : Type 0
  pub State : Type 0
  pub state_eq : Eq State
  -- `m.NewState()`
  pub new_state : Machine → World → State × World
  -- `tr.SetNext(r); q.AddTransition(tr)`
  pub add_transition : State → Action Machine → State → World → World
  -- `m.Start = q`
  pub set_start : Machine → State → World → World
  -- `m.States()`, `q.Transitions()` and `m.Start`
  pub states : World → Machine → List State
  pub transitions : World → State → List (Action Machine × State)
  pub start : World → Machine → Option State
  -- `m.ID`
  pub machine_id : World → Machine → ℕ
  -- States, transitions and starts do not change the identifiers.
  pub machine_id-new_state :
      (m : Machine) (w : World) (p : Machine) → machine_id (new_state m w).1 p ≡ machine_id w p
  pub machine_id-add_transition :
      (q : State) (a : Action Machine) (r : State) (w : World) (p : Machine)
      → machine_id (add_transition q a r w) p ≡ machine_id w p
  pub machine_id-set_start :
      (m : Machine) (q : State) (w : World) (p : Machine)
      → machine_id (set_start m q w) p ≡ machine_id w p
  -- A new state is another than those of the machine, stands last, and has no transition.
  pub new_state_fresh : (m : Machine) (w : World) → ¬ Memᴰ (new_state m w).0 (states w m)
  pub states-new_state :
      (m : Machine) (w : World) → states (new_state m w).1 m ≡ states w m ++ (new_state m w).0 ∷ []
  pub transitions-new_state :
      (m : Machine) (w : World) (q : State)
      → transitions (new_state m w).1 q
        ≡ (if state_eq.beq (new_state m w).0 q then [] else transitions w q)
  -- A transition is added behind those of its state.
  pub states-add_transition :
      (m : Machine) (q : State) (a : Action Machine) (r : State) (w : World)
      → states (add_transition q a r w) m ≡ states w m
  pub transitions-add_transition :
      (q : State) (a : Action Machine) (r : State) (w : World) (p : State)
      → transitions (add_transition q a r w) p
        ≡ (if state_eq.beq q p then transitions w q ++ (a, r) ∷ [] else transitions w p)
  -- Setting the start changes nothing else.
  pub start-set_start : (m : Machine) (q : State) (w : World) → start (set_start m q w) m ≡ some q
  pub states-set_start :
      (m : Machine) (q : State) (w : World) → states (set_start m q w) m ≡ states w m
  pub transitions-set_start :
      (m : Machine) (q : State) (w : World) (p : State)
      → transitions (set_start m q w) p ≡ transitions w p

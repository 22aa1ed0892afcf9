-- ===== src/Extract/Registered.antt =====
-- The channels that the interpreter of cfsmextract knows are those of the session: the invariant,
-- on the parts of the state that hold channels.
pub mod Steps
pub mod Fresh
pub mod Run
use dingo_hunter.Prelude.{
  ℕ, ◌≡◌, Option, none, some, List, [], ◌∷◌, lookup, nat_eq, option_eq, All, ◌++◌,
}
use dingo_hunter.Ssa.{Value}
use dingo_hunter.Definition.{Definition, VarVers, def_eq}
use dingo_hunter.Definition.Fresh.{Issued}
use dingo_hunter.SessType.Node.{Chan}
use dingo_hunter.Extract.State.{Ref, Frame, Label, Cell, Goroutine, State}
use dingo_hunter.Extract.Keeps.{Theory, label_chan}

-- `session.Chans`
abbrev pub Chans : Type 0
Chans = List (Definition × Chan)

abbrev pub IsRegistered : Chans → Chan → Type 0
IsRegistered chans ch = lookup ch.def chans ≡ some ch

abbrev pub IfRegistered : Chans → Option Chan → Type 0
IfRegistered chans none = Unit
IfRegistered chans (some ch) = IsRegistered chans ch

abbrev pub Grows : Chans → Chans → Type 0
Grows chans chans' =
    (d : Definition) (ch : Chan) → lookup d chans ≡ some ch → lookup d chans' ≡ some ch

abbrev pub IsCellRegistered : Chans → Cell → Type 0
IsCellRegistered chans c = IfRegistered chans (label_chan c.content)

abbrev pub HasNoTests : Frame × Goroutine → Type 0
HasNoTests (fr, g) = fr.recvok ≡ []

-- All channels of the state are registered in the session, under definitions that were issued.
pub record IsConsistent (recvok : List (Value × Option Chan)) (chans : List (Ref × Chan))
    (tests : List (Value × Chan)) (session : Chans) (nodes : List Cell) (vers : VarVers)
    (queue : List (Frame × Goroutine)) : Type 0 where
  pub in_chans : (vd : Ref) (ch : Chan) → lookup vd chans ≡ some ch → IsRegistered session ch
  pub in_tests : (v : Value) (ch : Chan) → lookup v tests ≡ some ch → IsRegistered session ch
  pub in_recvok :
      (v : Value) (ch : Chan) → lookup v recvok ≡ some (some ch) → IsRegistered session ch
  pub in_nodes : All (IsCellRegistered session) nodes
  pub are_issued : (d : Definition) (ch : Chan) → lookup d session ≡ some ch → Issued vers d
  pub in_queue : All HasNoTests queue

abbrev pub ConsistentState : State → Type 0
ConsistentState s =
    IsConsistent s.frame.recvok s.chans s.recv_test s.session.chans s.graph.nodes s.versions
      s.go_queue

abbrev pub registered : Theory
registered = record {
  Inv = ConsistentState;
  Later = λ s t. Grows s.session.chans t.session.chans;
  Known = λ s ch. IsRegistered s.session.chans ch;
}

-- ===== src/Cfsm/Machine/Semantics.antt =====
-- What a session graph of cfsmextract/sesstype/sesstype.go can do, said without machines: the
-- actions that its nodes offer, and the runs of a machine to compare them with.
use dingo_hunter.Prelude.{String, ◌≡◌, List, [], ◌∷◌, Memᴰ, ◌⊎◌, if◌then◌else◌}
use dingo_hunter.Ssa.{Ssa}
use dingo_hunter.SessType.Node.{
  Chan, Node, Nodes, nil, cons, new_chan, label, goto, end, empty_body,
}
use dingo_hunter.Cfsm.Library.{Cfsm, Action, send, recv}
use dingo_hunter.Cfsm.Machine.{ok, resolve, resolve_end, stop_message}

-- The sequences of actions that a machine may perform from a state.
pub data Run (lib : Cfsm) (w : lib.World) : lib.State → List (Action lib.Machine) → Type 0 where
  halt : {q : lib.State} → Run lib w q []
  move :
      {q r : lib.State} {a : Action lib.Machine} {word : List (Action lib.Machine)}
      → Memᴰ (a, r) (lib.transitions w q)
      → Run lib w r word
      → Run lib w q (a ∷ word)

-- No jump stands in the graph.
abbrev mutual
  pub GotoFree : Node → Type 0
  GotoFree (Node.send sndr dest nondet t cs) = GotoFreeAll cs
  GotoFree (Node.recv orig rcvr nondet t stop cs) = GotoFreeAll cs
  GotoFree (end ch cs) = GotoFreeAll cs
  GotoFree (new_chan ch cs) = GotoFreeAll cs
  GotoFree (empty_body cs) = GotoFreeAll cs
  GotoFree (label name cs) = GotoFreeAll cs
  GotoFree (goto name cs) = ⊥

  pub GotoFreeAll : Nodes → Type 0
  GotoFreeAll nil = Unit
  GotoFreeAll (cons c cs) = GotoFree c × GotoFreeAll cs

module _ (lib : Cfsm) (ssa : Ssa) (chans : List (Chan × lib.Machine)) (m : lib.Machine) where
  -- Every channel that the graph uses has a machine, and every payload has a type.
  abbrev mutual
    pub Resolves : Node → Type 0
    Resolves (Node.send sndr dest nondet t cs) =
        ((to : lib.Machine) × (msg : String) × (resolve lib ssa chans m dest ≡ ok (to, msg)))
        × ResolvesAll cs
    Resolves (Node.recv orig rcvr nondet t stop cs) =
        ((from : lib.Machine) × (msg : String) × (resolve lib ssa chans m orig ≡ ok (from, msg)))
        × ResolvesAll cs
    Resolves (end ch cs) =
        ((to : lib.Machine) × (resolve_end lib ssa chans m ch ≡ ok to)) × ResolvesAll cs
    Resolves (new_chan ch cs) = ResolvesAll cs
    Resolves (empty_body cs) = ResolvesAll cs
    Resolves (label name cs) = ResolvesAll cs
    Resolves (goto name cs) = ResolvesAll cs

    pub ResolvesAll : Nodes → Type 0
    ResolvesAll nil = Unit
    ResolvesAll (cons c cs) = Resolves c × ResolvesAll cs

  -- `Does n a ks`: the node can perform `a` and go on with the children `ks`. Sends, receives and
  -- closes perform an action; the other nodes do what their children do.
  abbrev mutual
    pub Does : Node → Action lib.Machine → Nodes → Type 0
    Does (Node.send sndr dest nondet t cs) a ks =
        (to : lib.Machine) × (msg : String) × (resolve lib ssa chans m dest ≡ ok (to, msg))
        × (a ≡ send to msg)
        × (ks ≡ cs)
    Does (Node.recv orig rcvr nondet t stop cs) a ks =
        (from : lib.Machine) × (msg : String) × (resolve lib ssa chans m orig ≡ ok (from, msg))
        × (a ≡ recv from (if stop then stop_message else msg))
        × (ks ≡ cs)
    Does (end ch cs) a ks =
        (to : lib.Machine) × (resolve_end lib ssa chans m ch ≡ ok to)
        × (a ≡ send to stop_message)
        × (ks ≡ cs)
    Does (new_chan ch cs) a ks = Offers cs a ks
    Does (empty_body cs) a ks = Offers cs a ks
    Does (label name cs) a ks = Offers cs a ks
    Does (goto name cs) a ks = ⊥

    -- A list of children is a choice.
    pub Offers : Nodes → Action lib.Machine → Nodes → Type 0
    Offers nil a ks = ⊥
    Offers (cons c cs) a ks = Does c a ks ⊎ Offers cs a ks

  -- The sequences of actions that a choice of nodes may perform.
  pub data Trace : Nodes → List (Action lib.Machine) → Type 0 where
    done : {ns : Nodes} → Trace ns []
    then :
        {ns ks : Nodes} {a : Action lib.Machine} {word : List (Action lib.Machine)}
        → Offers ns a ks
        → Trace ks word
        → Trace ns (a ∷ word)

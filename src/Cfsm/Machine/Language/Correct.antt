-- ===== src/Cfsm/Machine/Language/Correct.antt =====
-- `rootToMachine` (cfsmextract/sesstype/cfsm.go) on session graphs without jumps.
use dingo_hunter.Prelude.{
  String, ◌≡◌, refl, ◌↔◌, Option, some, false, List, [], Memᴰ, inr, if◌then◌else◌, arith,
}
use dingo_hunter.Ssa.{Ssa}
use dingo_hunter.SessType.Node.{
  Chan, Node, Nodes, nil, cons, new_chan, label, goto, end, empty_body,
}
use dingo_hunter.Cfsm.Library.{Cfsm, Action, send, recv}
use dingo_hunter.Cfsm.Library.Laws.{mem-states-new_state}
use dingo_hunter.Cfsm.Machine
use dingo_hunter.Cfsm.Machine.{Result, ok, err, Build}
use dingo_hunter.Cfsm.Machine.Semantics.{
  Run, GotoFree, GotoFreeAll, Resolves, ResolvesAll, Does, Offers, Trace,
}
use dingo_hunter.Cfsm.Machine.Language.{
  Adds, Adds_none, Adds_iff, Adds_both, Adds_act, new_state-language,
}

module _ (lib : Cfsm) (ssa : Ssa) (chans : List (Chan × lib.Machine)) (m : lib.Machine) where
  open lib use {World, State, new_state, states, transitions}

  abbrev B : Type 0
  B = Build lib ssa chans m

  -- A translation succeeds, and adds what `P` says to its state.
  abbrev Translates : (Option State → B → Result B) → (Action lib.Machine → Nodes → Type 0) → Type 0
  Translates translate P =
      (q0 : State) (b : B)
      → Memᴰ q0 (states b.world m)
      → (b' : B) × (translate (some q0) b ≡ ok b') × Adds lib ssa chans m q0 b.world b'.world P

  Translates_iff :
      (translate : Option State → B → Result B) {P Q : Action lib.Machine → Nodes → Type 0}
      → ((a : Action lib.Machine) (ks : Nodes) → P a ks ↔ Q a ks)
      → Translates translate P
      → Translates translate Q
  Translates_iff translate same h q0 b known =
      let (b', e, adds) = h q0 b known in (b', e, Adds_iff lib ssa chans m same adds)

  act-Translates :
      (a : Action lib.Machine) (cs : Nodes) (translate : Option State → B → Result B)
      → Translates translate (Offers lib ssa chans m cs)
      → Translates (Machine.act lib ssa chans m false a translate) (λ c ks. (c ≡ a) × (ks ≡ cs))
  unfolding Machine.act Machine.add_edge
  act-Translates a cs translate ih q0 b known =
      let (q, w1) = new_state m b.world in
      let b1 : B = record b { world = w1 } in
      let (b2, e, adds) = ih q b1 ((mem-states-new_state lib m b.world q).1 (inr refl)) in
      (
        record b2 { world = lib.add_transition q0 a q b2.world },
        rw e,
        Adds_act lib ssa chans m known a cs adds,
      )

  not_self_loop :
      (cs : Nodes) (q0 : Option State) (b : B)
      → GotoFreeAll cs
      → Machine.is_self_loop lib ssa chans m cs q0 b ≡ false
  unfolding Machine.is_self_loop
  not_self_loop nil q0 b h = refl
  not_self_loop (cons (goto name ks) nil) q0 b h = absurd h.0
  not_self_loop (cons (goto name ks) (cons c cs)) q0 b h = refl
  not_self_loop (cons (Node.send sndr dest nondet t ks) cs) q0 b h = refl
  not_self_loop (cons (Node.recv orig rcvr nondet t stop ks) cs) q0 b h = refl
  not_self_loop (cons (end ch ks) cs) q0 b h = refl
  not_self_loop (cons (new_chan ch ks) cs) q0 b h = refl
  not_self_loop (cons (empty_body ks) cs) q0 b h = refl
  not_self_loop (cons (label name ks) cs) q0 b h = refl

  -- The action that a resolved channel stands for, by any label `f` made of it.
  resolved_iff {ℓ} :
      {R : Type ℓ} (result : Result R) (f : R → Action lib.Machine) (x : R) (cs : Nodes)
      → result ≡ ok x
      → (c : Action lib.Machine) (ks : Nodes)
      → ((c ≡ f x) × (ks ≡ cs)) ↔ ((y : R) × (result ≡ ok y) × (c ≡ f y) × (ks ≡ cs))
  resolved_iff result f x cs e c ks =
      (λ (a, b). (x, e, a, b), λ (y, e', a, b). let same : x ≡ y = ground arith in (cc, b))

  mutual
    unfolding Machine.node_to_machine

    node_to_machine-Translates :
        (n : Node)
        → GotoFree n
        → Resolves lib ssa chans m n
        → Translates (Machine.node_to_machine lib ssa chans m n) (Does lib ssa chans m n)
    node_to_machine-Translates (Node.send sndr dest nondet t cs) free ((to, msg, e), rest) q0 b
          known =
        let kids = Machine.nodes_to_machine lib ssa chans m cs in
        let same =
          resolved_iff (Machine.resolve lib ssa chans m dest) (λ (to, msg). send to msg) (to, msg)
            cs e in
        let done =
          Translates_iff (Machine.act lib ssa chans m false (send to msg) kids)
            (λ c ks. (
              λ p. let (y, e', f, g) = (same c ks).0 p in (y.0, y.1, e', f, g),
              λ (to', msg', e', f, g). (same c ks).1 ((to', msg'), e', f, g),
            ))
            (act-Translates (send to msg) cs kids (nodes_to_machine-Translates cs free rest)) in
        rw (e, not_self_loop cs (some q0) b free) (done q0 b known)
    node_to_machine-Translates (Node.recv orig rcvr nondet t stop cs) free ((from, msg, e), rest) q0
          b known =
        let kids = Machine.nodes_to_machine lib ssa chans m cs in
        let name = λ (t : String). if stop then Machine.stop_message else t in
        let same =
          resolved_iff (Machine.resolve lib ssa chans m orig) (λ (to, msg). recv to (name msg))
            (from, msg) cs e in
        let done =
          Translates_iff (Machine.act lib ssa chans m false (recv from (name msg)) kids)
            (λ c ks. (
              λ p. let (y, e', f, g) = (same c ks).0 p in (y.0, y.1, e', f, g),
              λ (to', msg', e', f, g). (same c ks).1 ((to', msg'), e', f, g),
            ))
            (act-Translates (recv from (name msg)) cs kids
              (nodes_to_machine-Translates cs free rest)) in
        rw (e, not_self_loop cs (some q0) b free) (done q0 b known)
    node_to_machine-Translates (end ch cs) free ((to, e), rest) q0 b known =
        let kids = Machine.nodes_to_machine lib ssa chans m cs in
        let same =
          resolved_iff (Machine.resolve_end lib ssa chans m ch)
            (λ to'. send to' Machine.stop_message) to cs e in
        let done =
          Translates_iff (Machine.act lib ssa chans m false (send to Machine.stop_message) kids)
            same
            (act-Translates (send to Machine.stop_message) cs kids
              (nodes_to_machine-Translates cs free rest)) in
        rw e (done q0 b known)
    node_to_machine-Translates (new_chan ch cs) free rest q0 b known =
        nodes_to_machine-Translates cs free rest q0 b known
    node_to_machine-Translates (empty_body cs) free rest q0 b known =
        nodes_to_machine-Translates cs free rest q0 b known
    node_to_machine-Translates (label name cs) free rest q0 b known =
        nodes_to_machine-Translates cs free rest q0
          (Machine.bind_label lib ssa chans m name (some q0) b) known
    node_to_machine-Translates (goto name cs) free rest q0 b known = absurd free

    nodes_to_machine-Translates :
        (cs : Nodes)
        → GotoFreeAll cs
        → ResolvesAll lib ssa chans m cs
        → Translates (Machine.nodes_to_machine lib ssa chans m cs) (Offers lib ssa chans m cs)
    nodes_to_machine-Translates nil free rest q0 b known =
        (b, refl, Adds_none lib ssa chans m q0 b.world)
    nodes_to_machine-Translates (cons c cs) free rest q0 b known =
        let (b1, e1, adds1) = node_to_machine-Translates c free.0 rest.0 q0 b known in
        let (b2, e2, adds2) =
          nodes_to_machine-Translates cs free.1 rest.1 q0 b1 (adds1.grows q0 known) in
        (b2, rw e1 e2, Adds_both lib ssa chans m known adds1 adds2)

-- For a session graph without jumps, all of whose channels have machines and payload types, the
-- translation succeeds, and the machine performs from its start exactly the sequences of actions
-- that the graph may perform.
pub root_to_machine-language :
    (lib : Cfsm) (ssa : Ssa) (chans : List (Chan × lib.Machine)) (m : lib.Machine) (root : Node)
    (w : lib.World)
    → GotoFree root
    → Resolves lib ssa chans m root
    → (w' : lib.World) × (q0 : lib.State) × (Machine.root_to_machine lib ssa chans m root w ≡ ok w')
      × (lib.start w' m ≡ some q0)
      × ((word : List (Action lib.Machine))
          → Run lib w' q0 word ↔ Trace lib ssa chans m (cons root nil) word)
unfolding Machine.root_to_machine Machine.node_to_machine
root_to_machine-language lib ssa chans m root w free resolves =
    let (q0, w1) = lib.new_state m w in
    let b1 : Build lib ssa chans m = record { world = w1; labels = [] } in
    let first : Memᴰ q0 (lib.states w1 m) = (mem-states-new_state lib m w q0).1 (inr refl) in
    let (b, e, adds) =
      nodes_to_machine-Translates lib ssa chans m (cons root nil) (free, tt) (resolves, tt) q0 b1
        first in
    let (b2, e2, _) = node_to_machine-Translates lib ssa chans m root free resolves q0 b1 first in
    let same : b2 ≡ b = ground arith in
    (
      lib.set_start m q0 b.world,
      q0,
      rw (e2, same),
      lib.start-set_start m q0 b.world,
      new_state-language lib ssa chans m (cons root nil) adds (lib.set_start m q0 b.world)
          (λ p _ _. lib.transitions-set_start m q0 b.world p),
    )

-- ===== src/Cfsm/Machine/Steps.antt =====
-- `nodeToMachine` (cfsmextract/sesstype/cfsm.go) as a sequence of elementary steps, each of which
-- keeps what is known of the states and the edges.
use mathlib.Core.List.{append-nil}
use mathlib.Core.List.Memᴰ
use dingo_hunter.Prelude.{
  String, ◌≡◌, refl, sym, ◌∙◌, subst, Option, none, some, Bool, true, false, List, [], ◌∷◌, ◌++◌,
  Memᴰ, string_eq, ◌==◌, lookup, insert, lookup-insert, if◌then◌else◌, Bool-cases, Option-cases,
  ◌⊎◌, inl, inr, arith, Precedes, Precedes-append, Precedes-concat,
}
use dingo_hunter.Ssa.{Ssa}
use dingo_hunter.SessType.Node.{
  Chan, Node, Nodes, nil, cons, new_chan, label, goto, end, empty_body,
}
use dingo_hunter.Cfsm.Library.{Cfsm, Action, send, recv}
use dingo_hunter.Cfsm.Machine
use dingo_hunter.Cfsm.Machine.{Result, ok, err, >>=-eq-ok, Build}

module _ (lib : Cfsm) (ssa : Ssa) (chans : List (Chan × lib.Machine)) (m : lib.Machine) where
  open lib use {World, State, new_state, add_transition, states, transitions}

  abbrev B : Type 0
  B = Build lib ssa chans m

  abbrev pub Known : B → Option State → Type 0
  Known b none = Unit {0}
  Known b (some q) = Memᴰ q (states b.world m)

  -- One call of the library, or one label.
  pub data Step (b c : B) : Type 0 where
    alloc : c ≡ record b { world = (new_state m b.world).1 } → Step b c
    mark :
        (name : String) (q : Option State)
        → Known b q
        → c ≡ record b { labels = insert name q b.labels }
        → Step b c
    self_edge :
        (q : State) (a : Action lib.Machine)
        → c ≡ record b { world = add_transition q a q b.world }
        → Step b c
    tree_edge :
        (q r : State) (a : Action lib.Machine)
        → Precedes (states b.world m) q r
        → c ≡ record b { world = add_transition q a r b.world }
        → Step b c

  pub data Steps (b : B) : B → Type 0 where
    here : Steps b b
    next : {c d : B} → Steps b c → Step c d → Steps b d

  Steps-trans : {b c d : B} → Steps b c → Steps c d → Steps b d
  Steps-trans s here = s
  Steps-trans s (next t u) = next (Steps-trans s t) u

  -- The states only grow at the end.
  Step-grows :
      {b c : B} → Step b c → (ys : List State) × (states c.world m ≡ states b.world m ++ ys)
  Step-grows {b} (alloc e) = ((new_state m b.world).0 ∷ [], rw e (lib.states-new_state m b.world))
  Step-grows {b} (mark name q k e) = ([], rw e (sym (append-nil _)))
  Step-grows {b} (self_edge q a e) =
      ([], rw e (lib.states-add_transition m q a q b.world ∙ sym (append-nil _)))
  Step-grows {b} (tree_edge q r a p e) =
      ([], rw e (lib.states-add_transition m q a r b.world ∙ sym (append-nil _)))

  Step-Known : {b c : B} (q : Option State) → Step b c → Known b q → Known c q
  Step-Known none s k = k
  Step-Known (some q) s k =
      let (ys, e) = Step-grows s in subst (Memᴰ q) (sym e) (Memᴰ.append_left ys k)

  Step-Precedes :
      {b c : B} (q r : State)
      → Step b c
      → Precedes (states b.world m) q r
      → Precedes (states c.world m) q r
  Step-Precedes {b} q r s p =
      let (ys, e) = Step-grows s in
      subst (λ xs. Precedes xs q r) (sym e) (Precedes-append (states b.world m) ys q r p)

  pub Steps-Known : {b c : B} (q : Option State) → Steps b c → Known b q → Known c q
  Steps-Known q here k = k
  Steps-Known q (next s t) k = Step-Known q t (Steps-Known q s k)

  Steps-Precedes :
      {b c : B} (q r : State)
      → Steps b c
      → Precedes (states b.world m) q r
      → Precedes (states c.world m) q r
  Steps-Precedes q r here p = p
  Steps-Precedes q r (next s t) p = Step-Precedes q r t (Steps-Precedes q r s p)

  -- Every label names a state of the machine, or nil.
  abbrev pub LabelsKnown : B → Type 0
  LabelsKnown b = (name : String) (q : Option State) → lookup name b.labels ≡ some q → Known b q

  Step-LabelsKnown : {b c : B} → Step b c → LabelsKnown b → LabelsKnown c
  Step-LabelsKnown {b} {c} s k name q e = elim (label_cases s) [
    | inl same ↦ Step-Known q s (k name q (subst (λ l. lookup name l ≡ some q) same e))
    | inr (name', q', known, more) ↦
        let found : lookup name c.labels
            ≡ (if name' == name then some q' else lookup name b.labels) =
          rw more (lookup-insert name' name q' b.labels) in
        elim (Bool-cases (name' == name)) [
          | inl mine ↦
              let same : q' ≡ q = ground arith in subst (Known c) same (Step-Known q' s known)
          | inr other ↦ Step-Known q s (k name q (ground arith))
        ]
  ]
    where
      label_cases :
          Step b c
          → (c.labels ≡ b.labels)
            ⊎ ((name' : String) × (q' : Option State) × Known b q'
                × (c.labels ≡ insert name' q' b.labels))
      label_cases (alloc e) = inl (rw e)
      label_cases (mark name' q' known e) = inr (name', q', known, rw e)
      label_cases (self_edge p a e) = inl (rw e)
      label_cases (tree_edge p r a h e) = inl (rw e)

  pub Steps-LabelsKnown : {b c : B} → Steps b c → LabelsKnown b → LabelsKnown c
  Steps-LabelsKnown here k = k
  Steps-LabelsKnown (next s t) k = Step-LabelsKnown t (Steps-LabelsKnown s k)

  -- `AddTransition` is called on states that are not nil.
  pub add_edge-eq-ok :
      (q0 r : Option State) (a : Action lib.Machine) (b b' : B)
      → Machine.add_edge lib ssa chans m q0 a r b ≡ ok b'
      → (q : State) × (p : State) × (q0 ≡ some q)
        × (r ≡ some p)
        × (b' ≡ record b { world = add_transition q a p b.world })
  unfolding Machine.add_edge
  add_edge-eq-ok none none a b b' h = cc
  add_edge-eq-ok none (some r) a b b' h = cc
  add_edge-eq-ok (some q) none a b b' h = cc
  add_edge-eq-ok (some q) (some p) a b b' h = (q, p, refl, refl, ground arith)

  -- What a translation of children does, from a state that is known.
  abbrev pub IsStepwise : (Option State → B → Result B) → Type 0
  IsStepwise translate =
      (q0 : Option State) (b b' : B)
      → Known b q0
      → LabelsKnown b
      → translate q0 b ≡ ok b'
      → Steps b b'

  act-Steps :
      (loop : Bool) (a : Action lib.Machine) (translate : Option State → B → Result B)
      → IsStepwise translate
      → IsStepwise (Machine.act lib ssa chans m loop a translate)
  unfolding Machine.act
  act-Steps true a translate ih q0 b b' k l h =
      let (q, p, e, f, world) = add_edge-eq-ok q0 q0 a b b' h in
      let same : p ≡ q = ground arith in
      next here (
        self_edge q a
          (subst (λ t. b' ≡ record b { world = add_transition q a t b.world }) same world))
  act-Steps false a translate ih q0 b b' k l h =
      let (q, w) = new_state m b.world in
      let b1 : B = record b { world = w } in
      let (b2, kids, last) =
        >>=-eq-ok (translate (some q) b1) (λ c. Machine.add_edge lib ssa chans m q0 a (some q) c)
          h in
      let (p, r, e, f, world) = add_edge-eq-ok q0 (some q) a b2 b' last in
      let same : r ≡ q = ground arith in
      let first : Step b b1 = alloc refl in
      let grown : states b1.world m ≡ states b.world m ++ q ∷ [] = lib.states-new_state m b.world in
      let from : Memᴰ p (states b.world m) = subst (Known b) e k in
      let now : Memᴰ q (states b1.world m) =
        subst (Memᴰ q) (sym grown) (Memᴰ.append_right (states b.world m) (Memᴰ.head refl)) in
      let inner : Steps b1 b2 = ih (some q) b1 b2 now (Step-LabelsKnown first l) kids in
      let before : Precedes (states b1.world m) p q =
        subst (λ xs. Precedes xs p q) (sym grown) (Precedes-concat (states b.world m) p q from) in
      let link : b' ≡ record b2 { world = add_transition p a q b2.world } =
        subst (λ t. b' ≡ record b2 { world = add_transition p a t b2.world }) same world in
      Steps-trans (next here first)
        (next inner (tree_edge p q a (Steps-Precedes p q inner before) link))

  -- A label's state is known.
  target-Known :
      (name : String) (b : B) → LabelsKnown b → Known b (Machine.target lib ssa chans m name b)
  target-Known name b l = elim (Option-cases (lookup name b.labels)) [
    | inl e ↦ rw (e, Machine.target, Machine.target_of) tt
    | inr (q, e) ↦ rw (e, Machine.target, Machine.target_of) (l name q e)
  ]

  mutual
    unfolding Machine.node_to_machine

    pub node_to_machine-Steps :
        (n : Node) (q0 : Option State) (b b' : B)
        → Known b q0
        → LabelsKnown b
        → Machine.node_to_machine lib ssa chans m n q0 b ≡ ok b'
        → Steps b b'
    node_to_machine-Steps (Node.send sndr dest nondet t cs) q0 b b' k l h =
        let ((to, msg), _, rest) = >>=-eq-ok (Machine.resolve lib ssa chans m dest) _ h in
        act-Steps (Machine.is_self_loop lib ssa chans m cs q0 b) (send to msg)
          (Machine.nodes_to_machine lib ssa chans m cs) (nodes_to_machine-Steps cs) q0 b b' k l rest
    node_to_machine-Steps (Node.recv orig rcvr nondet t stop cs) q0 b b' k l h =
        let ((from, msg), _, rest) = >>=-eq-ok (Machine.resolve lib ssa chans m orig) _ h in
        act-Steps (Machine.is_self_loop lib ssa chans m cs q0 b)
          (recv from (if stop then Machine.stop_message else msg))
          (Machine.nodes_to_machine lib ssa chans m cs) (nodes_to_machine-Steps cs) q0 b b' k l rest
    node_to_machine-Steps (end ch cs) q0 b b' k l h =
        let (to, _, rest) = >>=-eq-ok (Machine.resolve_end lib ssa chans m ch) _ h in
        act-Steps false (send to Machine.stop_message) (Machine.nodes_to_machine lib ssa chans m cs)
          (nodes_to_machine-Steps cs) q0 b b' k l rest
    node_to_machine-Steps (new_chan ch cs) q0 b b' k l h = nodes_to_machine-Steps cs q0 b b' k l h
    node_to_machine-Steps (empty_body cs) q0 b b' k l h = nodes_to_machine-Steps cs q0 b b' k l h
    node_to_machine-Steps (label name cs) q0 b b' k l h =
        let b1 : B = Machine.bind_label lib ssa chans m name q0 b in
        let first : Step b b1 = mark name q0 k refl in
        Steps-trans (next here first)
          (nodes_to_machine-Steps cs q0 b1 b' (Step-Known q0 first k) (Step-LabelsKnown first l) h)
    node_to_machine-Steps (goto name cs) q0 b b' k l h =
        nodes_to_machine-Steps cs (Machine.target lib ssa chans m name b) b b'
          (target-Known name b l) l h

    pub nodes_to_machine-Steps :
        (cs : Nodes) (q0 : Option State) (b b' : B)
        → Known b q0
        → LabelsKnown b
        → Machine.nodes_to_machine lib ssa chans m cs q0 b ≡ ok b'
        → Steps b b'
    nodes_to_machine-Steps nil q0 b b' k l h =
        let same : b ≡ b' = ground arith in subst (Steps b) same here
    nodes_to_machine-Steps (cons c cs) q0 b b' k l h =
        let (b1, e, rest) = >>=-eq-ok (Machine.node_to_machine lib ssa chans m c q0 b) _ h in
        let first = node_to_machine-Steps c q0 b b1 k l e in
        Steps-trans first (
          nodes_to_machine-Steps cs q0 b1 b' (Steps-Known q0 first k) (Steps-LabelsKnown first l)
            rest)

-- ===== src/Cfsm/Machine/Language.antt =====
-- `nodeToMachine` (cfsmextract/sesstype/cfsm.go) adds to a state the transitions that a choice of
-- nodes offers: the relation `Adds` says so, and how it is put together from parts.
pub mod Correct
use mathlib.Core.List.Memᴰ
use dingo_hunter.Prelude.{
  ◌≡◌, refl, sym, ◌∙◌, subst, ◌↔◌, Option, none, some, List, [], ◌∷◌, ◌++◌, Memᴰ, ◌⊎◌, inl, inr,
  arith,
}
use dingo_hunter.Ssa.{Ssa}
use dingo_hunter.SessType.Node.{Chan, Nodes}
use dingo_hunter.Cfsm.Library.{Cfsm, Action}
use dingo_hunter.Cfsm.Library.Laws.{
  mem-states-new_state, mem-transitions-new_state, mem-add_transition, transitions_of_other,
  transitions_of_new, transitions_of_source,
}
use dingo_hunter.Cfsm.Machine.Semantics.{Run, halt, move, Offers, Trace, done, then}

module _ (lib : Cfsm) (ssa : Ssa) (chans : List (Chan × lib.Machine)) (m : lib.Machine) where
  open lib use {World, State, Machine, new_state, add_transition, states, transitions}

  -- From `r` the machine does what `ks` may do, and goes on to do so as long as the states made
  -- between `w` and `w'` are left alone.
  abbrev pub Realizes : World → World → State → Nodes → Type 0
  Realizes w w' r ks =
      (v : World)
      → ((q : State)
          → Memᴰ q (states w' m)
          → ¬ Memᴰ q (states w m)
          → transitions v q ≡ transitions w' q)
      → (word : List (Action Machine)) → Run lib v r word ↔ Trace lib ssa chans m ks word

  -- Between `w` and `w'` the state `q0` gained the transitions for `P`, and no other did.
  pub record Adds (q0 : State) (w w' : World) (P : Action Machine → Nodes → Type 0) : Type 0 where
    pub grows : (q : State) → Memᴰ q (states w m) → Memᴰ q (states w' m)
    pub frame : (q : State) → Memᴰ q (states w m) → ¬ (q ≡ q0) → transitions w' q ≡ transitions w q
    pub keeps :
        (t : Action Machine × State) → Memᴰ t (transitions w q0) → Memᴰ t (transitions w' q0)
    pub sound :
        (a : Action Machine) (r : State)
        → Memᴰ (a, r) (transitions w' q0)
        → Memᴰ (a, r) (transitions w q0) ⊎ ((ks : Nodes) × P a ks × Realizes w w' r ks)
    pub complete :
        (a : Action Machine) (ks : Nodes)
        → P a ks
        → (r : State) × Memᴰ (a, r) (transitions w' q0) × Realizes w w' r ks

  pub Adds_none : (q0 : State) (w : World) → Adds q0 w w (λ a ks. ⊥)
  Adds_none q0 w = record {
    grows = λ q k. k;
    frame = λ q k ne. refl;
    keeps = λ t h. h;
    sound = λ a r h. inl h;
    complete = λ a ks p. absurd p;
  }

  pub Adds_iff :
      {q0 : State} {w w' : World} {P Q : Action Machine → Nodes → Type 0}
      → ((a : Action Machine) (ks : Nodes) → P a ks ↔ Q a ks)
      → Adds q0 w w' P
      → Adds q0 w w' Q
  Adds_iff same h = record {
    grows = h.grows;
    frame = h.frame;
    keeps = h.keeps;
    sound = λ a r t. elim (h.sound a r t) [
      | inl old ↦ inl old
      | inr (ks, p, real) ↦ inr (ks, (same a ks).0 p, real)
    ];
    complete = λ a ks q. h.complete a ks ((same a ks).1 q);
  }

  module _ {q0 : State} {w w1 w2 : World} (known : Memᴰ q0 (states w m)) where
    Realizes-later :
        {Q : Action Machine → Nodes → Type 0}
        → Adds q0 w1 w2 Q
        → (r : State) (ks : Nodes) → Realizes w w1 r ks
        → Realizes w w2 r ks
    Realizes-later h r ks real v agree word =
        real v
          (λ q k new.
            agree q (h.grows q k) new
            ∙ h.frame q k (λ e. new (subst (λ t. Memᴰ t (states w m)) (sym e) known)))
          word

    Realizes-earlier :
        {P : Action Machine → Nodes → Type 0}
        → Adds q0 w w1 P
        → (r : State) (ks : Nodes) → Realizes w1 w2 r ks
        → Realizes w w2 r ks
    Realizes-earlier h r ks real v agree word =
        real v (λ q k new. agree q k (λ old. new (h.grows q old))) word

    -- One choice after another.
    pub Adds_both :
        {P Q : Action Machine → Nodes → Type 0}
        → Adds q0 w w1 P
        → Adds q0 w1 w2 Q
        → Adds q0 w w2 (λ a ks. P a ks ⊎ Q a ks)
    Adds_both h k = record {
      grows = λ q e. k.grows q (h.grows q e);
      frame = λ q e ne. k.frame q (h.grows q e) ne ∙ h.frame q e ne;
      keeps = λ t e. k.keeps t (h.keeps t e);
      sound = λ a r t. elim (k.sound a r t) [
        | inl before ↦ elim (h.sound a r before) [
          | inl old ↦ inl old
          | inr (ks, p, real) ↦ inr (ks, inl p, Realizes-later k r ks real)
        ]
        | inr (ks, q, real) ↦ inr (ks, inr q, Realizes-earlier h r ks real)
      ];
      complete = λ a ks c. elim c [
        | inl p ↦
            let (r, t, real) = h.complete a ks p in
            (r, k.keeps (a, r) t, Realizes-later k r ks real)
        | inr q ↦ let (r, t, real) = k.complete a ks q in (r, t, Realizes-earlier h r ks real)
      ];
    }

  -- A new state that gained what `cs` offers, in a world `v` that leaves the later states alone.
  module _ {w w2 : World} (cs : Nodes)
      (h : Adds (new_state m w).0 (new_state m w).1 w2 (Offers lib ssa chans m cs)) (v : World)
      (inside : (p : State)
        → Memᴰ p (states w2 m)
        → ¬ Memᴰ p (states w m)
        → transitions v p ≡ transitions w2 p) where
    abbrev fresh : State
    fresh = (new_state m w).0

    deeper :
        (p : State)
        → Memᴰ p (states w2 m)
        → ¬ Memᴰ p (states (new_state m w).1 m)
        → transitions v p ≡ transitions w2 p
    deeper p k new = inside p k (λ old. new ((mem-states-new_state lib m w p).1 (inl old)))

    own : transitions v fresh ≡ transitions w2 fresh
    own =
        inside fresh (h.grows fresh ((mem-states-new_state lib m w fresh).1 (inr refl)))
          (lib.new_state_fresh m w)

    Run-Trace :
        (word : List (Action Machine)) → Run lib v fresh word → Trace lib ssa chans m cs word
    Run-Trace word halt = done
    Run-Trace word (move {r} {a = b} {word = rest} t run) =
        elim (h.sound b r (subst (Memᴰ (b, r)) own t)) [
          | inl old ↦ absurd (Memᴰ.not-nil (subst (Memᴰ (b, r)) (transitions_of_new lib m w) old))
          | inr (ks, offer, real) ↦ then offer ((real v deeper rest).0 run)
        ]

    Trace-Run :
        (word : List (Action Machine)) → Trace lib ssa chans m cs word → Run lib v fresh word
    Trace-Run word done = halt
    Trace-Run word (then {ks} {a = b} {word = rest} offer trace) =
        let (r, t, real) = h.complete b ks offer in
        move (subst (Memᴰ (b, r)) (sym own) t) ((real v deeper rest).1 trace)

    pub new_state-language :
        (word : List (Action Machine)) → Run lib v fresh word ↔ Trace lib ssa chans m cs word
    new_state-language word = (Run-Trace word, Trace-Run word)

  -- A new state for the children `cs`, and then a transition to it.
  module _ {q0 : State} {w w2 : World} (known : Memᴰ q0 (states w m)) (a : Action Machine)
      (cs : Nodes)
      (h : Adds (new_state m w).0 (new_state m w).1 w2 (Offers lib ssa chans m cs)) where
    abbrev q : State
    q = (new_state m w).0

    abbrev w1 : World
    w1 = (new_state m w).1

    abbrev w' : World
    w' = add_transition q0 a q w2

    q_new : ¬ Memᴰ q (states w m)
    q_new = lib.new_state_fresh m w

    other : (p : State) → Memᴰ p (states w m) → ¬ (q ≡ p)
    other p k e = q_new (subst (λ t. Memᴰ t (states w m)) (sym e) k)

    older : (p : State) → Memᴰ p (states w m) → Memᴰ p (states w1 m)
    older p k = (mem-states-new_state lib m w p).1 (inl k)

    unchanged : (p : State) → Memᴰ p (states w m) → transitions w2 p ≡ transitions w p
    unchanged p k =
        h.frame p (older p k) (λ e. other p k (sym e)) ∙ transitions_of_other lib m w p (other p k)

    after : (p : State) → ¬ (q0 ≡ p) → transitions w' p ≡ transitions w2 p
    after p ne = transitions_of_source lib q0 q a w2 p ne

    not_source : (p : State) → ¬ Memᴰ p (states w m) → ¬ (q0 ≡ p)
    not_source p new e = new (subst (λ t. Memᴰ t (states w m)) e known)

    same_states : states w' m ≡ states w2 m
    same_states = lib.states-add_transition m q0 a q w2

    realized : Realizes w w' q cs
    realized v agree =
        new_state-language cs h v
          (λ p k new. agree p (rw same_states k) new ∙ after p (not_source p new))

    pub Adds_act : Adds q0 w w' (λ b ks. (b ≡ a) × (ks ≡ cs))
    Adds_act = record {
      grows = λ p k. rw same_states (h.grows p (older p k));
      frame = λ p k ne. after p (λ e. ne (sym e)) ∙ unchanged p k;
      keeps = λ t k.
          (mem-add_transition lib q0 q a w2 q0 t).1
            (inl (subst (Memᴰ t) (sym (unchanged q0 known)) k));
      sound = λ b r t. elim ((mem-add_transition lib q0 q a w2 q0 (b, r)).0 t) [
        | inl old ↦ inl (subst (Memᴰ (b, r)) (unchanged q0 known) old)
        | inr (_, e) ↦
            let to : q ≡ r = ground arith in
            inr (cs, (ground arith, refl), subst (λ s. Realizes w w' s cs) to realized)
      ];
      complete = λ b ks (e, f). (
        q,
        (mem-add_transition lib q0 q a w2 q0 (b, q)).1 (inr (refl, ground arith)),
        subst (Realizes w w' q) (sym f) realized,
      );
    }

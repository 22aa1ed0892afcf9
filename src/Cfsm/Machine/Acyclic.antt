-- ===== src/Cfsm/Machine/Acyclic.antt =====
-- The shape of the machine that `rootToMachine` (cfsmextract/sesstype/cfsm.go) makes of a role.
use mathlib.Core.List.Memᴰ
use dingo_hunter.Prelude.{
  ◌≡◌, refl, sym, subst, subst₂, ◌≢◌, some, List, [], Memᴰ, ◌⊎◌, inl, inr, arith, Precedes,
  Precedes-append, Precedes-mem, Precedes-trans, Precedes-irrefl, IsDistinct, IsDistinct-concat,
}
use dingo_hunter.Ssa.{Ssa}
use dingo_hunter.SessType.Node.{Chan, Node}
use dingo_hunter.Cfsm.Library.{Cfsm, Action}
use dingo_hunter.Cfsm.Library.Laws.{
  mem-states-new_state, mem-transitions-new_state, mem-add_transition,
}
use dingo_hunter.Cfsm.Machine
use dingo_hunter.Cfsm.Machine.{ok, >>=-eq-ok, Build}
use dingo_hunter.Cfsm.Machine.Steps.{
  Step, alloc, mark, self_edge, tree_edge, Steps, here, next, node_to_machine-Steps,
}

-- The states that a run of the machine may pass.
pub data Walk (lib : Cfsm) (w : lib.World) (q : lib.State) : lib.State → Type 0 where
  stay : Walk lib w q q
  go :
      {r s : lib.State} (a : Action lib.Machine)
      → Walk lib w q r
      → Memᴰ (a, s) (lib.transitions w r)
      → Walk lib w q s

module _ (lib : Cfsm) (m : lib.Machine) where
  open lib use {World, State, new_state, add_transition, states, transitions, state_eq}

  -- A transition stays where it is, or leads to a state that was made later.
  abbrev Ahead : World → State → State → Type 0
  Ahead w q r = (r ≡ q) ⊎ Precedes (states w m) q r

  record Inv (w : World) : Type 0 where
    distinct : IsDistinct (states w m)
    forward :
        (q r : State) (a : Action lib.Machine)
        → Memᴰ q (states w m)
        → Memᴰ (a, r) (transitions w q)
        → Ahead w q r

  Inv-new_state : (w : World) → Inv w → Inv (new_state m w).1
  Inv-new_state w h = record {
    distinct =
        subst IsDistinct (sym (lib.states-new_state m w))
          (IsDistinct-concat (states w m) (new_state m w).0 h.distinct (lib.new_state_fresh m w));
    forward = λ q r a known t.
        let (old, other) = mem-transitions-new_state lib m w q (a, r) t in
        let was : Memᴰ q (states w m) = elim ((mem-states-new_state lib m w q).0 known) [
          | inl k ↦ k
          | inr e ↦ absurd (other (sym e))
        ] in
        elim (h.forward q r a was old) [
          | inl e ↦ inl e
          | inr p ↦ inr (
              subst (λ xs. Precedes xs q r) (sym (lib.states-new_state m w))
                (Precedes-append (states w m) _ q r p))
        ];
  }

  Inv-add_transition :
      (w : World) (q r : State) (a : Action lib.Machine)
      → Ahead w q r
      → Inv w
      → Inv (add_transition q a r w)
  Inv-add_transition w q r a ahead h =
      let same = lib.states-add_transition m q a r w in
      record {
        distinct = subst IsDistinct (sym same) h.distinct;
        forward = λ p s c known t. rw same (elim ((mem-add_transition lib q r a w p (c, s)).0 t) [
          | inl old ↦ h.forward p s c (subst (Memᴰ p) same known) old
          | inr (e, new) ↦ let to : s ≡ r = ground arith in subst₂ (Ahead w) (sym e) (sym to) ahead
        ]);
      }

  Inv-Step :
      (ssa : Ssa) (chans : List (Chan × lib.Machine)) {b c : Build lib ssa chans m}
      → Step lib ssa chans m b c
      → Inv b.world
      → Inv c.world
  Inv-Step ssa chans {b} (alloc e) h = rw e (Inv-new_state b.world h)
  Inv-Step ssa chans {b} (mark name q k e) h = rw e h
  Inv-Step ssa chans {b} (self_edge q a e) h = rw e (Inv-add_transition b.world q q a (inl refl) h)
  Inv-Step ssa chans {b} (tree_edge q r a p e) h = rw e (Inv-add_transition b.world q r a (inr p) h)

  Inv-Steps :
      (ssa : Ssa) (chans : List (Chan × lib.Machine)) {b c : Build lib ssa chans m}
      → Steps lib ssa chans m b c
      → Inv b.world
      → Inv c.world
  Inv-Steps ssa chans here h = h
  Inv-Steps ssa chans (next s t) h = Inv-Step ssa chans t (Inv-Steps ssa chans s h)

  Ahead_known : (w : World) (q r : State) → Memᴰ q (states w m) → Ahead w q r → Memᴰ r (states w m)
  Ahead_known w q r k (inl e) = subst (λ t. Memᴰ t (states w m)) (sym e) k
  Ahead_known w q r k (inr p) = (Precedes-mem (states w m) q r p).1

  Ahead-trans : (w : World) (q r s : State) → Inv w → Ahead w q r → Ahead w r s → Ahead w q s
  Ahead-trans w q r s h (inl e) b = subst (λ t. Ahead w t s) e b
  Ahead-trans w q r s h (inr p) (inl e) = inr (subst (Precedes (states w m) q) (sym e) p)
  Ahead-trans w q r s h (inr p) (inr p') = inr (Precedes-trans (states w m) q r s h.distinct p p')

  Walk-Ahead :
      {w : World} {q r : State} → Inv w → Memᴰ q (states w m) → Walk lib w q r → Ahead w q r
  Walk-Ahead h k stay = inl refl
  Walk-Ahead {w} {q} h k (go {r} {s} a walk t) =
      let before = Walk-Ahead h k walk in
      Ahead-trans w q r s h before (h.forward r s a (Ahead_known w q r k before) t)

  Inv-empty : (w : World) → states w m ≡ [] → Inv w
  Inv-empty w empty = record {
    distinct = rw empty tt;
    forward = λ q r a k t. absurd (Memᴰ.not-nil (subst (Memᴰ q) empty k));
  }

  Inv-set_start : (q : State) (w : World) → Inv w → Inv (lib.set_start m q w)
  Inv-set_start q w h =
      let same = lib.states-set_start m q w in
      record {
        distinct = rw same h.distinct;
        forward = λ p r a k t. rw same (
            h.forward p r a (subst (Memᴰ p) same k)
              (subst (Memᴰ (a, r)) (lib.transitions-set_start m q w p) t));
      }

  Inv-root_to_machine :
      (ssa : Ssa) (chans : List (Chan × lib.Machine)) (root : Node) (w w' : World)
      → states w m ≡ []
      → Machine.root_to_machine lib ssa chans m root w ≡ ok w'
      → Inv w'
  unfolding Machine.root_to_machine
  Inv-root_to_machine ssa chans root w w' empty h =
      let (q0, w1) = new_state m w in
      let b1 : Build lib ssa chans m = record { world = w1; labels = [] } in
      let (b, e, last) =
        >>=-eq-ok (Machine.node_to_machine lib ssa chans m root (some q0) b1) _ h in
      let first : Memᴰ q0 (states w1 m) = (mem-states-new_state lib m w q0).1 (inr refl) in
      let steps =
        node_to_machine-Steps lib ssa chans m root (some q0) b1 b first (λ name q f. cc) e in
      let done : lib.set_start m q0 b.world ≡ w' = ground arith in
      subst Inv done
        (Inv-set_start q0 b.world (Inv-Steps ssa chans steps (Inv-new_state w (Inv-empty w empty))))

both_ways :
    {A : Type 0} (xs : List A) (q r : A)
    → IsDistinct xs
    → q ≢ r
    → (r ≡ q) ⊎ Precedes xs q r
    → ¬ ((q ≡ r) ⊎ Precedes xs r q)
both_ways xs q r d ne (inl e) back = ne (sym e)
both_ways xs q r d ne (inr p) (inl e) = ne e
both_ways xs q r d ne (inr p) (inr p') = Precedes-irrefl xs q d (Precedes-trans xs q r q d p p')

-- No loop of the translation of a role passes two states: whatever the session graph, from a state
-- of the machine made for it to another state there is no way back. (Loops of the session that
-- perform more than one action are lost.)
pub no_long_loop :
    (lib : Cfsm) (ssa : Ssa) (chans : List (Chan × lib.Machine)) (m : lib.Machine) (root : Node)
    (w w' : lib.World) (q r : lib.State)
    → lib.states w m ≡ []
    → Machine.root_to_machine lib ssa chans m root w ≡ ok w'
    → Memᴰ q (lib.states w' m)
    → q ≢ r
    → Walk lib w' q r
    → ¬ Walk lib w' r q
no_long_loop lib ssa chans m root w w' q r empty h known differ there back =
    let inv = Inv-root_to_machine lib m ssa chans root w w' empty h in
    let ahead = Walk-Ahead lib m inv known there in
    let behind = Walk-Ahead lib m inv (Ahead_known lib m w' q r known ahead) back in
    both_ways (lib.states w' m) q r inv.distinct differ ahead behind

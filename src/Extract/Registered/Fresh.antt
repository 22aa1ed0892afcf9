-- ===== src/Extract/Registered/Fresh.antt =====
-- A new channel, or a new definition, keeps the channels registered.
use dingo_hunter.Prelude.{
  ◌≡◌, refl, subst, arith, Bool, true, false, none, some, List, lookup, insert, lookup-insert,
  nat_eq, option_eq, ◌==◌, Bool-cases, Option-cases, inl, inr, beq_self,
}
use dingo_hunter.Ssa.{Value}
use dingo_hunter.Definition.{Definition, VarVers, def_eq, fresh_def}
use dingo_hunter.Definition.Fresh.{Issued, fresh_def-Issued, fresh_def-keeps}
use dingo_hunter.SessType.Node.{Chan}
use dingo_hunter.SessType.Session.{make_chan, make_ext_chan, add_chan}
use dingo_hunter.Extract.State.{Ref, State}
use dingo_hunter.Extract.Nodes.{new_def, register}
use dingo_hunter.Extract.Keeps.{Keeps, Always, Quiet}
use dingo_hunter.Extract.Keeps.Rules.{returned}
use dingo_hunter.Extract.Registered.Steps.{registered_order, Good, nodes-Grows}
use dingo_hunter.Extract.Registered.{
  Chans, IsRegistered, Grows, IsConsistent, ConsistentState, registered,
}

-- The definition that is issued next has no channel yet.
fresh_def-absent :
    (v : Value) (vers : VarVers) (chans : Chans)
    → ((d : Definition) (ch : Chan) → lookup d chans ≡ some ch → Issued vers d)
    → lookup (fresh_def v vers).0 chans ≡ none
fresh_def-absent v vers chans issued = elim (Option-cases (lookup (fresh_def v vers).0 chans)) [
  | inl e ↦ e
  | inr (ch, e) ↦ absurd ((fresh_def-Issued v vers).1 (issued _ ch e))
]

insert-Grows :
    (d : Definition) (ch : Chan) (chans : Chans)
    → lookup d chans ≡ none
    → Grows chans (insert d ch chans)
insert-Grows d ch chans absent e c found = elim (Bool-cases (d == e)) [
  | inl same ↦ absurd (ground (arith, def_eq.beq_iff d e))
  | inr differ ↦ ground (arith, lookup-insert d e ch chans)
]

-- A map with one more channel that is registered.
insert-IsRegistered :
    (vd vd' : Ref) (ch ch' : Chan) (m : List (Ref × Chan)) (chans : Chans)
    → ((k : Ref) (c : Chan) → lookup k m ≡ some c → IsRegistered chans c)
    → IsRegistered chans ch
    → lookup vd' (insert vd ch m) ≡ some ch'
    → IsRegistered chans ch'
insert-IsRegistered vd vd' ch ch' m chans old new found = elim (Bool-cases (vd == vd')) [
  | inl same ↦
      let e : ch ≡ ch' = ground (arith, lookup-insert vd vd' ch m) in
      subst (IsRegistered chans) e new
  | inr differ ↦ old vd' ch' (ground (arith, lookup-insert vd vd' ch m))
]

insert-Issued :
    (v : Value) (vers : VarVers) (ch : Chan) (chans : Chans)
    → ((d : Definition) (c : Chan) → lookup d chans ≡ some c → Issued vers d)
    → (d : Definition) (c : Chan) → lookup d (insert (fresh_def v vers).0 ch chans) ≡ some c
    → Issued (fresh_def v vers).1 d
insert-Issued v vers ch chans issued d c found = elim (Bool-cases ((fresh_def v vers).0 == d)) [
  | inl same ↦
      let e : (fresh_def v vers).0 ≡ d = (def_eq.beq_iff (fresh_def v vers).0 d).0 same in
      subst (Issued (fresh_def v vers).1) e (fresh_def-Issued v vers).2
  | inr differ ↦
      fresh_def-keeps v vers d
        (issued d c (ground (arith, lookup-insert (fresh_def v vers).0 d ch chans)))
]

-- The state with a new channel.
with_chan :
    (s : State) (v : Value) (ch : Chan)
    → ConsistentState s
    → ch.def ≡ (fresh_def v s.versions).0
    → let (d, vers) = fresh_def v s.versions in
      IsConsistent s.frame.recvok
        (insert (some d) ch s.chans)
        s.recv_test
        (insert d ch s.session.chans)
        s.graph.nodes
        vers
        s.go_queue
      × Grows s.session.chans (insert d ch s.session.chans)
      × IsRegistered (insert d ch s.session.chans) ch
with_chan s v ch inv made =
    let d = (fresh_def v s.versions).0 in
    let absent = fresh_def-absent v s.versions s.session.chans inv.are_issued in
    let grows = insert-Grows d ch s.session.chans absent in
    let now : IsRegistered (insert d ch s.session.chans) ch =
      ground (arith, lookup-insert d ch.def ch s.session.chans, beq_self d) in
    (
      record {
        in_chans = λ vd c found.
            insert-IsRegistered (some d) vd ch c s.chans (insert d ch s.session.chans)
              (λ k c' h. grows c'.def c' (inv.in_chans k c' h)) now found;
        in_tests = λ x c found. grows c.def c (inv.in_tests x c found);
        in_recvok = λ x c found. grows c.def c (inv.in_recvok x c found);
        in_nodes = nodes-Grows _ _ s.graph.nodes grows inv.in_nodes;
        are_issued = insert-Issued v s.versions ch s.session.chans inv.are_issued;
        in_queue = inv.in_queue;
      },
      grows,
      now,
    )

pub registered-register :
    (extern : Bool) (v : Value)
    → Keeps registered Always
        (λ (r : Ref × Chan) s. IsRegistered s.session.chans r.1)
        (register extern v)
unfolding register make_chan make_ext_chan add_chan
registered-register true v = record {
  at = λ s s' r pre inv e.
      returned
        (λ (x : Ref × Chan) u.
          ConsistentState u
          × Grows s.session.chans u.session.chans
          × IsRegistered u.session.chans x.1)
        e (with_chan s v _ inv refl);
}
registered-register false v = record {
  at = λ s s' r pre inv e.
      returned
        (λ (x : Ref × Chan) u.
          ConsistentState u
          × Grows s.session.chans u.session.chans
          × IsRegistered u.session.chans x.1)
        e (with_chan s v _ inv refl);
}

pub registered-new_def : (v : Value) → Quiet registered (new_def v)
unfolding new_def
registered-new_def v = record {
  at = λ s s' a pre inv e.
      let issued : IsConsistent s.frame.recvok s.chans s.recv_test s.session.chans s.graph.nodes
          (fresh_def v s.versions).1 s.go_queue =
        record {
          in_chans = inv.in_chans;
          in_tests = inv.in_tests;
          in_recvok = inv.in_recvok;
          in_nodes = inv.in_nodes;
          are_issued = λ d ch h. fresh_def-keeps v s.versions d (inv.are_issued d ch h);
          in_queue = inv.in_queue;
        } in
      returned (Good s) e (issued, λ d ch h. h, tt);
}

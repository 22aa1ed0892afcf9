-- ===== src/Extract/Comm/Made.antt =====
-- A channel that `visitMakeChan` of cfsmextract/visit.go has made, as `get` of func.go finds it.
use dingo_hunter.Prelude.{
  ℕ, ◌≡◌, refl, ap, arith, String, false, none, some, lookup, lookup-insert, insert, get_elem?,
  nat_eq, option_eq, beq_self, ◌∙◌,
}
use dingo_hunter.Ssa.{Value}
use dingo_hunter.Definition.{def_eq, fresh_def}
use dingo_hunter.SessType.Node.{Chan, chan_type}
use dingo_hunter.SessType.Session.{make_chan, add_chan}
use dingo_hunter.Extract.Program.{Program}
use dingo_hunter.Extract.State.{Ref, new_chan, chan, State, done, ◌>>=◌, gets, demand, modify_scope}
use dingo_hunter.Extract.Nodes.{
  new_var, read_var, set_leaf, leaf_to, grow, leaf_node, add_node, register,
}
use dingo_hunter.Extract.Nodes.Add.{grown}
use dingo_hunter.Extract.Frames.{kind_of, get, bind_local, set_local}
use dingo_hunter.Extract.Comm.{add_chan_node, visit_make_chan}

abbrev pub made_chan : Value → State → Chan
made_chan v s = record { def = (fresh_def v s.versions).0; role = s.gortn.role; extern = false }

-- The state with the channel, its node below the node `i`, and the local variable.
abbrev pub with_made : Value → ℕ → State → State
with_made v i s =
    let (d, vers) = fresh_def v s.versions in
    let ch = made_chan v s in
    let s1 = record s {
      versions = vers;
      session = record s.session { chans = insert d ch s.session.chans };
      chans = insert (some d) ch s.chans;
    } in
    let s2 = grown (new_chan ch) i s1 in
    record s2 { frame = record s2.frame { scope = bind_local v (some d) s2.frame.scope } }

make_chan-made :
    (prog : Program) (v : Value) (s : State) (a i : ℕ) (t : String)
    → s.gortn.leaf ≡ some a
    → get_elem? s.graph.vars a ≡ some i
    → chan_type prog.ssa (made_chan v s) ≡ some t
    → visit_make_chan prog v s ≡ done (tt, with_made v i s)
unfolding visit_make_chan register make_chan add_chan add_chan_node add_node leaf_node leaf_to
    new_var set_leaf grow read_var set_local modify_scope ◌>>=◌ gets demand
make_chan-made prog v s a i t leaf var typ = rw leaf (rw var (rw typ refl))

kind_of-chan :
    (vd : Ref) (ch : Chan) (s : State)
    → lookup vd s.store.arrays ≡ none
    → lookup vd s.frame.scope.arrays ≡ none
    → lookup vd s.chans ≡ some ch
    → kind_of vd s ≡ chan
unfolding kind_of
kind_of-chan vd ch s heap local known = ground arith

get-local :
    (v : Value) (vd : Ref) (s : State)
    → lookup v s.frame.scope.locals ≡ some vd
    → get v s ≡ (vd, kind_of vd s)
unfolding get
get-local v vd s found = rw (found, get) refl

-- Making a channel succeeds if the leaf points to a node and the value is a channel; then the
-- variable is found as a channel under the new definition, if that is not the definition of an
-- array, and the environment and the session have the same channel under it, with the role of the
-- goroutine.
pub made_chan_found :
    (prog : Program) (v : Value) (s : State) (a i : ℕ) (t : String)
    → s.gortn.leaf ≡ some a
    → get_elem? s.graph.vars a ≡ some i
    → chan_type prog.ssa (made_chan v s) ≡ some t
    → lookup (some (fresh_def v s.versions).0) s.store.arrays ≡ none
    → lookup (some (fresh_def v s.versions).0) s.frame.scope.arrays ≡ none
    → let d = (fresh_def v s.versions).0 in
      (s' : State) × (visit_make_chan prog v s ≡ done (tt, s'))
      × (get v s' ≡ (some d, chan))
      × (lookup (some d) s'.chans ≡ some (made_chan v s))
      × (lookup d s'.session.chans ≡ some (made_chan v s))
made_chan_found prog v s a i t leaf var typ heap local =
    let d = (fresh_def v s.versions).0 in
    let ch = made_chan v s in
    let known : lookup (some d) (insert (some d) ch s.chans) ≡ some ch =
      ground (arith, lookup-insert (some d) (some d) ch s.chans, beq_self (some d)) in
    let bound : lookup v (insert v (some d) s.frame.scope.locals) ≡ some (some d) =
      ground (arith, lookup-insert v v (some d) s.frame.scope.locals, beq_self v) in
    (
      with_made v i s,
      make_chan-made prog v s a i t leaf var typ,
      get-local v (some d) (with_made v i s) bound
          ∙ ap (λ k. (some d, k)) (kind_of-chan (some d) ch (with_made v i s) heap local known),
      known,
      ground (arith, lookup-insert d d ch s.session.chans, beq_self d),
    )

-- ===== src/Extract/Comm.antt =====
-- cfsmextract/visit.go: the instructions that make, use and close channels, and the extraction of
-- the parts of a tuple, which may stem from a receive or a select.
pub mod Made
use dingo_hunter.Prelude.{
  ℕ, suc, zero, String, Bool, true, false, Option, none, some, List, [], ◌∷◌, lookup, insert,
  get_elem?, nat_eq, option_eq, if◌then◌else◌,
}
use dingo_hunter.Ssa.{Value}
use dingo_hunter.Definition.{def_eq}
use dingo_hunter.SessType.Node.{Role, Chan, chan_type}
use dingo_hunter.Extract.Program.{
  Program, Shape, array_shape, slice_shape, struct_shape, chan_shape, other_shape, SelectState,
  Direction, send_only, recv_only, send_recv,
}
use dingo_hunter.Extract.State.{
  Ref, Kind, nothing, chan, Label, new_chan, send, recv, end, empty_body, nil_pointer, nil_leaf,
  out_of_range, undefined_channel, wrong_kind, not_channel, bad_direction, M, pure, throw, ◌>>=◌,
  ◌>>◌, gets, demand, guard, modify_store,
}
use dingo_hunter.Extract.Nodes.{add_node, new_def, register, chan_at, set_sel_node, back_to_select}
use dingo_hunter.Extract.Frames.{is_some, local_def, get, set_local}
use dingo_hunter.Extract.Memory.{new_elems, new_fields}

-- A node for a channel, by the role of the goroutine.
unfoldable pub add_chan_node : (Role → Label) → M (Unit {0})
unfolding add_node
add_chan_node l = do role ← gets (λ s. s.gortn.role); n ← add_node (l role); pure tt

unfoldable pub send_label : Bool → Option String → Chan → Role → Label
send_label nondet t ch role = send role ch nondet t

unfoldable pub recv_label : Bool → Option String → (stop : Bool) → Chan → Role → Label
recv_label nondet t stop ch role = recv ch role nondet t stop

-- `visitMakeChan`; the type of the channel is printed.
unfoldable pub visit_make_chan : Program → Value → M (Unit {0})
unfolding register add_chan_node set_local
visit_make_chan prog v = do
  (vd, ch) ← register false v
  add_chan_node (λ role. new_chan ch)
  set_local v vd
  t ← demand not_channel (chan_type prog.ssa ch)
  pure tt

-- A channel that is not known is external.
unfoldable pub external : Value → (Chan → Role → Label) → M (Unit {0})
unfolding register add_chan_node set_local
external x l = do (vd, ch) ← register true x; set_local x vd; add_chan_node (l ch)

unfoldable pub send_to : Value → String → Ref × Kind → M (Unit {0})
unfolding chan_at add_chan_node external
send_to x typ (vd, chan) = do ch ← chan_at vd; add_chan_node (send_label false (some typ) ch)
send_to x typ (vd, nothing) = external x (send_label false (some typ))
send_to x typ (vd, kind) = throw wrong_kind

-- `visitSend`
unfoldable pub visit_send : Value → String → M (Unit {0})
unfolding send_to
visit_send x typ = do found ← gets (get x); send_to x typ found

-- `fr.recvok[recv] = ch`; `env.chans[vd]` may be nil here, and is not dereferenced.
unfoldable pub set_recvok : Value → Option Chan → M (Unit {0})
set_recvok v ch s =
    pure tt (record s { frame = record s.frame { recvok = insert v ch s.frame.recvok } })

unfoldable pub recv_from : Value → Value → String → (comma_ok : Bool) → Ref × Kind → M (Unit {0})
unfolding chan_at add_chan_node external set_recvok
recv_from v x typ true (vd, chan) = do ch ← gets (λ s. lookup vd s.chans); set_recvok v ch
recv_from v x typ false (vd, chan) = do
  ch ← chan_at vd
  add_chan_node (recv_label false (some typ) false ch)
recv_from v x typ comma_ok (vd, nothing) = external x (recv_label false (some typ) false)
recv_from v x typ comma_ok (vd, kind) = throw wrong_kind

-- `visitRecv`
unfoldable pub visit_recv : Value → Value → String → (comma_ok : Bool) → M (Unit {0})
unfolding recv_from
visit_recv v x typ comma_ok = do found ← gets (get x); recv_from v x typ comma_ok found

-- `visitClose`, for a channel of `env.chans`.
unfoldable pub visit_close : Ref → M (Unit {0})
unfolding chan_at add_chan_node
visit_close vd = do ch ← chan_at vd; add_chan_node (λ role. end ch)

-- `callBuiltin` for `close`: of one argument, which must be a channel.
unfoldable pub call_close : List Value → M (Unit {0})
unfolding visit_close
call_close (v ∷ []) = do
  vd ← gets (λ s. local_def v s.frame.scope)
  known ← gets (λ s. is_some (lookup vd s.chans))
  guard known undefined_channel
  visit_close vd
call_close args = pure tt

-- `callBuiltin` for `copy`.
unfoldable pub call_copy : List Value → M (Unit {0})
unfolding set_local
call_copy (dst ∷ src ∷ args) = do vd ← gets (λ s. local_def src s.frame.scope); set_local dst vd
call_copy args = throw out_of_range

unfoldable pub select_label : Direction → String → Option (Chan → Role → Label)
unfolding send_label recv_label
select_label send_only typ = some (send_label true (some typ))
select_label recv_only typ = some (recv_label true (some typ) false)
select_label send_recv typ = none

-- A branch of a select hangs below the parent of the select.
unfoldable pub select_from : Value → SelectState → Ref × Kind → M (Unit {0})
unfolding chan_at back_to_select add_chan_node select_label
select_from v st (vd, chan) = do
  l ← demand bad_direction (select_label st.dir st.typ)
  back_to_select v
  ch ← chan_at vd
  add_chan_node (l ch)
select_from v st (vd, nothing) = throw undefined_channel
select_from v st (vd, kind) = throw wrong_kind

unfoldable pub select_branches : Value → List SelectState → M (Unit {0})
unfolding select_from
select_branches v [] = pure tt
select_branches v (st ∷ sts) = do
  found ← gets (get st.chan)
  select_from v st found
  select_branches v sts

-- The default branch.
unfoldable pub select_default : Value → (blocking : Bool) → M (Unit {0})
unfolding back_to_select add_node
select_default v true = pure tt
select_default v false = do back_to_select v; n ← add_node empty_body; pure tt

-- `visitSelect`
unfoldable pub visit_select : Value → (blocking : Bool) → List SelectState → M (Unit {0})
unfolding set_sel_node select_branches select_default
visit_select v blocking states = do
  leaf ← gets (λ s. s.gortn.leaf)
  a ← demand nil_leaf leaf
  set_sel_node v blocking
  select_branches v states
  select_default v blocking

-- A value of a type that no tuple accounts for: a local array or struct.
unfoldable pub extract_new : Value → Shape → M (Unit {0})
unfolding set_local new_elems new_fields
extract_new v array_shape = do vd ← new_def v; set_local v vd; new_elems false vd
extract_new v struct_shape = do vd ← new_def v; set_local v vd; new_fields false vd
extract_new v slice_shape = pure tt
extract_new v chan_shape = pure tt
extract_new v other_shape = pure tt

-- A part of an external tuple, which must not be a channel.
unfoldable pub extract_extern : Value → Shape → ℕ → Option (List Bool) → M (Unit {0})
unfolding extract_new
extract_extern v shape index none = extract_new v shape
extract_extern v shape index (some types) = do
  is_chan ← demand out_of_range (get_elem? types index)
  guard (if is_chan then false else true) undefined_channel

-- The index of a select, which is its first part.
unfoldable pub extract_select : Value → Value → Shape → ℕ → (is_select : Bool) → M (Unit {0})
unfolding extract_extern modify_store
extract_select v tuple shape zero true =
    modify_store λ st. record st { sel_idx = insert v tuple st.sel_idx }
extract_select v tuple shape index is_select = do
  types ← gets (λ s. lookup tuple s.store.extern)
  extract_extern v shape index types

unfoldable pub extract_tuple : Value → Value → Shape → ℕ → Option (List Ref) → M (Unit {0})
unfolding extract_select set_local
extract_tuple v tuple shape index (some vds) = do
  vd ← demand out_of_range (get_elem? vds index)
  set_local v vd
extract_tuple v tuple shape index none = do
  is_select ← gets (λ s. is_some (lookup tuple s.graph.sel_node))
  extract_select v tuple shape index is_select

-- `env.recvTest[e] = recvCh`
unfoldable pub set_recv_test : Value → Chan → M (Unit {0})
set_recv_test v ch s = pure tt (record s { recv_test = insert v ch s.recv_test })

-- The second part of a receive that tests whether the channel is open.
unfoldable pub extract_recv : Value → Value → Shape → ℕ → Option (Option Chan) → M (Unit {0})
unfolding extract_tuple set_recv_test
extract_recv v tuple shape (suc zero) (some ch) = do c ← demand nil_pointer ch; set_recv_test v c
extract_recv v tuple shape index recvok = do
  vds ← gets (λ s. lookup tuple s.frame.scope.tuples)
  extract_tuple v tuple shape index vds

-- `visitExtract`
unfoldable pub visit_extract : Value → Value → ℕ → Shape → M (Unit {0})
unfolding extract_recv
visit_extract v tuple index shape = do
  recvok ← gets (λ s. lookup tuple s.frame.recvok)
  extract_recv v tuple shape index recvok

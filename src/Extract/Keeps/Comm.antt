-- ===== src/Extract/Keeps/Comm.antt =====
-- The instructions of cfsmextract/visit.go on channels and tuples keep what the elementary actions
-- keep: each node that they add has a channel that is known.
use dingo_hunter.Prelude.{
  ℕ, suc, zero, ◌≡◌, refl, String, Bool, true, false, Option, none, some, List, [], ◌∷◌, lookup,
  nat_eq, option_eq, subst, ap,
}
use dingo_hunter.Ssa.{Value}
use dingo_hunter.Definition.{def_eq}
use dingo_hunter.SessType.Node.{Role, Chan}
use dingo_hunter.Extract.Program.{
  Program, Shape, array_shape, slice_shape, struct_shape, chan_shape, other_shape, SelectState,
  Direction, send_only, recv_only, send_recv,
}
use dingo_hunter.Extract.State.{
  Ref, Kind, nothing, array, chan, struct, local_array, local_struct, untracked, ◌>>=◌, gets,
  demand, Label, new_chan, end, empty_body, bad_direction,
}
use dingo_hunter.Extract.Nodes.{add_node, chan_at, back_to_select}
use dingo_hunter.Extract.Comm
use dingo_hunter.Extract.Keeps.{Theory, Keeps, Always, Quiet, Laws, label_chan, AtChan, laws_order}
use dingo_hunter.Extract.Keeps.Memory.{keeps_new_fields, keeps_new_elems}
use dingo_hunter.Extract.Keeps.Rules.{
  bind, quietly, keeps_throw, keeps_pure, keeps_gets, keeps_demand, keeps_set_local, weaken, still,
  keeps_chan_at, keeps_found, keeps_look, stays, given, at_chan, quiet_rules,
}

-- A node of this label has the channel that it is given.
abbrev Carries : (Chan → Role → Label) → Type 0
Carries l = (ch : Chan) (role : Role) → label_chan (l ch role) ≡ some ch

module _ {T : Theory} ⦃laws : Laws T⦄ where
  -- A label that every role has on the same channel.
  pub keeps_add_chan_node :
      (l : Role → Label) (ch : Chan)
      → ((role : Role) → label_chan (l role) ≡ some ch)
      → Keeps T (λ s. T.Known s ch) (λ u s. Unit) (Comm.add_chan_node l)
  unfolding Comm.add_chan_node
  keeps_add_chan_node l ch on = bind (still (keeps_gets _)) λ role.
      bind
        (subst (λ o. Keeps T (AtChan T o) (λ n s. Unit) (add_node (l role))) (on role)
          (laws.on_add_node (l role)))
        λ n. keeps_pure

  pub keeps_visit_make_chan : (prog : Program) (v : Value) → Quiet T (Comm.visit_make_chan prog v)
  unfolding Comm.visit_make_chan
  keeps_visit_make_chan prog v = bind (laws.on_register false v) λ (vd, ch).
      bind (keeps_add_chan_node (λ role. new_chan ch) ch λ role. refl)
        λ u. quietly (keeps_set_local v vd) λ w. quietly (keeps_demand _ _) λ t. keeps_pure

  pub keeps_external :
      (x : Value) (l : Chan → Role → Label) → Carries l → Quiet T (Comm.external x l)
  unfolding Comm.external
  keeps_external x l on =
      bind (laws.on_register true x)
        λ (vd, ch). bind (still (keeps_set_local x vd)) λ u. keeps_add_chan_node (l ch) ch (on ch)

  -- A node for the channel that `env.chans` has.
  pub keeps_known :
      (vd : Ref) (l : Chan → Role → Label)
      → Carries l
      → Quiet T (chan_at vd >>= λ ch. Comm.add_chan_node (l ch))
  keeps_known vd l on = bind (keeps_chan_at vd) λ ch. keeps_add_chan_node (l ch) ch (on ch)

  pub keeps_send_to :
      (x : Value) (typ : String) (found : Ref × Kind) → Quiet T (Comm.send_to x typ found)
  unfolding Comm.send_to Comm.send_label
  keeps_send_to x typ (vd, chan) = keeps_known vd (Comm.send_label false (some typ)) λ ch role. refl
  keeps_send_to x typ (vd, nothing) =
      keeps_external x (Comm.send_label false (some typ)) λ ch role. refl
  keeps_send_to x typ (vd, array) = keeps_throw _
  keeps_send_to x typ (vd, struct) = keeps_throw _
  keeps_send_to x typ (vd, local_array) = keeps_throw _
  keeps_send_to x typ (vd, local_struct) = keeps_throw _
  keeps_send_to x typ (vd, untracked) = keeps_throw _

  pub keeps_visit_send : (x : Value) (typ : String) → Quiet T (Comm.visit_send x typ)
  unfolding Comm.visit_send
  keeps_visit_send x typ = quietly (keeps_gets _) (keeps_send_to x typ)

  pub keeps_recv_from :
      (v x : Value) (typ : String) (comma_ok : Bool) (found : Ref × Kind)
      → Quiet T (Comm.recv_from v x typ comma_ok found)
  unfolding Comm.recv_from Comm.recv_label
  keeps_recv_from v x typ true (vd, chan) =
      bind
        (keeps_look {Post = AtChan T} (λ s. lookup vd s.chans)
          λ s inv. at_chan T s _ λ ch. laws.chan_known s vd ch inv)
        (laws.on_set_recvok v)
  keeps_recv_from v x typ false (vd, chan) =
      keeps_known vd (Comm.recv_label false (some typ) false) λ ch role. refl
  keeps_recv_from v x typ true (vd, nothing) =
      keeps_external x (Comm.recv_label false (some typ) false) λ ch role. refl
  keeps_recv_from v x typ false (vd, nothing) =
      keeps_external x (Comm.recv_label false (some typ) false) λ ch role. refl
  keeps_recv_from v x typ true (vd, array) = keeps_throw _
  keeps_recv_from v x typ false (vd, array) = keeps_throw _
  keeps_recv_from v x typ true (vd, struct) = keeps_throw _
  keeps_recv_from v x typ false (vd, struct) = keeps_throw _
  keeps_recv_from v x typ true (vd, local_array) = keeps_throw _
  keeps_recv_from v x typ false (vd, local_array) = keeps_throw _
  keeps_recv_from v x typ true (vd, local_struct) = keeps_throw _
  keeps_recv_from v x typ false (vd, local_struct) = keeps_throw _
  keeps_recv_from v x typ true (vd, untracked) = keeps_throw _
  keeps_recv_from v x typ false (vd, untracked) = keeps_throw _

  pub keeps_visit_recv :
      (v x : Value) (typ : String) (comma_ok : Bool) → Quiet T (Comm.visit_recv v x typ comma_ok)
  unfolding Comm.visit_recv
  keeps_visit_recv v x typ comma_ok = quietly (keeps_gets _) (keeps_recv_from v x typ comma_ok)

  pub keeps_visit_close : (vd : Ref) → Quiet T (Comm.visit_close vd)
  unfolding Comm.visit_close
  keeps_visit_close vd = keeps_known vd (λ ch role. end ch) λ ch role. refl

  pub keeps_call_close : (args : List Value) → Quiet T (Comm.call_close args)
  unfolding Comm.call_close
  keeps_call_close [] = keeps_pure
  keeps_call_close (v ∷ []) = search (quiet_rules, keeps_visit_close)
  keeps_call_close (v ∷ w ∷ args) = keeps_pure

  pub keeps_call_copy : (args : List Value) → Quiet T (Comm.call_copy args)
  unfolding Comm.call_copy
  keeps_call_copy [] = keeps_throw _
  keeps_call_copy (dst ∷ []) = keeps_throw _
  keeps_call_copy (dst ∷ src ∷ args) = search quiet_rules

  pub keeps_back_to_select : (v : Value) → Quiet T (back_to_select v)
  unfolding back_to_select
  keeps_back_to_select v =
      quietly (keeps_gets _)
        λ sel. quietly (keeps_demand _ _) λ (parent, blocking). laws.on_set_leaf parent

  select_label-Carries :
      (dir : Direction) (typ : String)
      → Keeps T Always (λ l s. Carries l) (demand bad_direction (Comm.select_label dir typ))
  unfolding Comm.select_label Comm.send_label Comm.recv_label demand
  select_label-Carries send_only typ = stays _ λ s pre inv ch role. refl
  select_label-Carries recv_only typ = stays _ λ s pre inv ch role. refl
  select_label-Carries send_recv typ = keeps_throw _

  pub keeps_select_from :
      (v : Value) (st : SelectState) (found : Ref × Kind) → Quiet T (Comm.select_from v st found)
  unfolding Comm.select_from
  keeps_select_from v st (vd, chan) =
      bind (select_label-Carries st.dir st.typ)
        λ l. given λ on. quietly (keeps_back_to_select v) λ u. keeps_known vd l on
  keeps_select_from v st (vd, nothing) = keeps_throw _
  keeps_select_from v st (vd, array) = keeps_throw _
  keeps_select_from v st (vd, struct) = keeps_throw _
  keeps_select_from v st (vd, local_array) = keeps_throw _
  keeps_select_from v st (vd, local_struct) = keeps_throw _
  keeps_select_from v st (vd, untracked) = keeps_throw _

  pub keeps_select_branches :
      (v : Value) (states : List SelectState) → Quiet T (Comm.select_branches v states)
  unfolding Comm.select_branches
  keeps_select_branches v [] = keeps_pure
  keeps_select_branches v (st ∷ sts) =
      quietly (keeps_gets _)
        λ found. quietly (keeps_select_from v st found) λ u. keeps_select_branches v sts

  pub keeps_select_default :
      (v : Value) (blocking : Bool) → Quiet T (Comm.select_default v blocking)
  unfolding Comm.select_default
  keeps_select_default v true = keeps_pure
  keeps_select_default v false =
      quietly (keeps_back_to_select v) λ u. quietly (laws.on_add_node empty_body) λ n. keeps_pure

  pub keeps_visit_select :
      (v : Value) (blocking : Bool) (states : List SelectState)
      → Quiet T (Comm.visit_select v blocking states)
  unfolding Comm.visit_select
  keeps_visit_select v blocking states = quietly (keeps_gets _) λ leaf.
      quietly (keeps_demand _ leaf) λ a.
        quietly (laws.on_set_sel_node v blocking)
          λ u. quietly (keeps_select_branches v states) λ w. keeps_select_default v blocking

  pub keeps_extract_new : (v : Value) (shape : Shape) → Quiet T (Comm.extract_new v shape)
  unfolding Comm.extract_new
  keeps_extract_new v array_shape = search (quiet_rules, keeps_new_elems)
  keeps_extract_new v struct_shape = search (quiet_rules, keeps_new_fields)
  keeps_extract_new v slice_shape = keeps_pure
  keeps_extract_new v chan_shape = keeps_pure
  keeps_extract_new v other_shape = keeps_pure

  pub keeps_extract_extern :
      (v : Value) (shape : Shape) (index : ℕ) (types : Option (List Bool))
      → Quiet T (Comm.extract_extern v shape index types)
  unfolding Comm.extract_extern
  keeps_extract_extern v shape index none = keeps_extract_new v shape
  keeps_extract_extern v shape index (some types) = search quiet_rules

  pub keeps_extract_select :
      (v tuple : Value) (shape : Shape) (index : ℕ) (is_select : Bool)
      → Quiet T (Comm.extract_select v tuple shape index is_select)
  unfolding Comm.extract_select
  keeps_extract_select v tuple shape zero true = search quiet_rules
  keeps_extract_select v tuple shape zero false = search (quiet_rules, keeps_extract_extern)
  keeps_extract_select v tuple shape (suc i) is_select = search (quiet_rules, keeps_extract_extern)

  pub keeps_extract_tuple :
      (v tuple : Value) (shape : Shape) (index : ℕ) (vds : Option (List Ref))
      → Quiet T (Comm.extract_tuple v tuple shape index vds)
  unfolding Comm.extract_tuple
  keeps_extract_tuple v tuple shape index (some vds) = search quiet_rules
  keeps_extract_tuple v tuple shape index none = search (quiet_rules, keeps_extract_select)

  not_a_test :
      (v tuple : Value) (shape : Shape) (index : ℕ)
      → Quiet T
          (gets (λ s. lookup tuple s.frame.scope.tuples) >>= Comm.extract_tuple v tuple shape index)
  not_a_test v tuple shape index = quietly (keeps_gets _) (keeps_extract_tuple v tuple shape index)

  pub keeps_extract_recv :
      (v tuple : Value) (shape : Shape) (index : ℕ) (recvok : Option (Option Chan))
      → Keeps T
          (λ s. (ch : Chan) → recvok ≡ some (some ch) → T.Known s ch)
          (λ u s. Unit)
          (Comm.extract_recv v tuple shape index recvok)
  unfolding Comm.extract_recv
  keeps_extract_recv v tuple shape (suc zero) (some ch) =
      bind (keeps_found _ ch λ s c known inv e. known c (ap some e)) (laws.on_set_recv_test v)
  keeps_extract_recv v tuple shape zero (some ch) = weaken (not_a_test v tuple shape 0)
  keeps_extract_recv v tuple shape (suc (suc i)) (some ch) =
      weaken (not_a_test v tuple shape (suc (suc i)))
  keeps_extract_recv v tuple shape zero none = weaken (not_a_test v tuple shape 0)
  keeps_extract_recv v tuple shape (suc zero) none = weaken (not_a_test v tuple shape 1)
  keeps_extract_recv v tuple shape (suc (suc i)) none =
      weaken (not_a_test v tuple shape (suc (suc i)))

  pub keeps_visit_extract :
      (v tuple : Value) (index : ℕ) (shape : Shape)
      → Quiet T (Comm.visit_extract v tuple index shape)
  unfolding Comm.visit_extract
  keeps_visit_extract v tuple index shape =
      bind
        (keeps_look (λ s. lookup tuple s.frame.recvok) λ s inv ch. laws.recvok_known s tuple ch inv)
        (keeps_extract_recv v tuple shape index)

-- ===== src/Extract/Keeps/Rules.antt =====
-- The ways in which visit.go and func.go of cfsmextract put actions together.
use dingo_hunter.Prelude.{
  ℕ, ◌≡◌, refl, Bool, true, false, Option, none, some, lookup, get_elem?, nat_eq, subst, option_eq,
  if◌then◌else◌,
}
use dingo_hunter.Ssa.{Value}
use dingo_hunter.Definition.{def_eq}
use dingo_hunter.SessType.Node.{Chan}
use dingo_hunter.Extract.State.{
  Ref, Scope, Store, State, Fault, nil_pointer, Outcome, done, panic, out_of_fuel, M, pure, throw,
  continue, ◌>>=◌, gets, demand, guard, modify_scope, modify_store,
}
use dingo_hunter.Extract.Nodes.{new_def, chan_at, read_var}
use dingo_hunter.Extract.Frames.{set_local, update_defs}
use dingo_hunter.Extract.Run.{in_frame}
use dingo_hunter.Extract.Keeps.{
  Theory, Keeps, Always, Quiet, AtChan, framed, fresh_frame, Laws, Order, laws_order,
}

-- What holds of the value and the state of a run holds of those it is said to return.
abbrev pub returned :
    {A : Type 0} {a b : A} {s t : State} (P : A → State → Type 0)
    → ◌≡◌ {A = Outcome (A × State)} (done (a, s)) (done (b, t))
    → P a s
    → P b t
returned {a = a} {s = s} P e h =
    subst (λ o. elim o [ done (x, u) ↦ P x u | panic f ↦ Unit | out_of_fuel ↦ Unit ]) e h

-- A channel that may be there is known if it is when it is there.
pub at_chan :
    (T : Theory) (s : State) (o : Option Chan)
    → ((ch : Chan) → o ≡ some ch → T.Known s ch)
    → AtChan T o s
at_chan T s none known = tt
at_chan T s (some ch) known = known ch refl

module _ {T : Theory} ⦃order : Order T⦄ where
  after_bind :
      {A B : Type 0} {Pre : State → Type 0} {Mid : A → State → Type 0} {Post : B → State → Type 0}
      {m : M A} {f : A → M B}
      → Keeps T Pre Mid m
      → ((a : A) → Keeps T (Mid a) Post (f a))
      → (s s' : State) (b : B) → Pre s
      → T.Inv s
      → (o : Outcome (A × State)) → m s ≡ o
      → continue o f ≡ done (b, s')
      → T.Inv s' × T.Later s s' × Post b s'
  after_bind keeps_m keeps_f s s' b pre inv (done (a, t)) e h =
      let (inv_t, later_t, mid) = keeps_m.at s t a pre inv e in
      let (inv', later', post) = (keeps_f a).at t s' b mid inv_t h in
      (inv', order.later_trans s t s' later_t later', post)
  after_bind keeps_m keeps_f s s' b pre inv (panic x) e h = absurd (cc)
  after_bind keeps_m keeps_f s s' b pre inv out_of_fuel e h = absurd (cc)

  pub bind :
      {A B : Type 0} {Pre : State → Type 0} {Mid : A → State → Type 0} {Post : B → State → Type 0}
      {m : M A} {f : A → M B}
      → Keeps T Pre Mid m
      → ((a : A) → Keeps T (Mid a) Post (f a))
      → Keeps T Pre Post (m >>= f)
  unfolding ◌>>=◌
  bind {m = m} keeps_m keeps_f = record {
    at = λ s s' b pre inv e. after_bind keeps_m keeps_f s s' b pre inv (m s) refl e;
  }

  pub quietly :
      {A B : Type 0} {m : M A} {f : A → M B}
      → Quiet T m
      → ((a : A) → Quiet T (f a))
      → Quiet T (m >>= f)
  quietly keeps_m keeps_f = bind keeps_m keeps_f

  -- A state that does not change, and a value that is computed.
  pub stays :
      {A : Type 0} {Pre : State → Type 0} {Post : A → State → Type 0} (f : State → A)
      → ((s : State) → Pre s → T.Inv s → Post (f s) s)
      → Keeps T Pre Post (λ s. done (f s, s))
  stays {Post = Post} f post = record {
    at = λ s s' a pre inv e.
        returned (λ x u. T.Inv u × T.Later s u × Post x u) e
          (inv, order.later_refl s, post s pre inv);
  }

  pub keeps_throw :
      {A : Type 0} {Pre : State → Type 0} {Post : A → State → Type 0} (e : Fault)
      → Keeps T Pre Post (throw {A = A} e)
  keeps_throw f = record { at = λ s s' a pre inv e. absurd (cc) }

  pub keeps_pure : {A : Type 0} {a : A} → Quiet T (pure a)
  keeps_pure = stays _ λ s pre inv. tt

  pub keeps_gets : {A : Type 0} (f : State → A) → Quiet T (gets f)
  unfolding gets
  keeps_gets f = stays _ λ s pre inv. tt

  pub keeps_demand : {A : Type 0} (e : Fault) (o : Option A) → Quiet T (demand e o)
  unfolding demand
  keeps_demand e none = keeps_throw _
  keeps_demand e (some a) = keeps_pure

  -- A value that is there, where something is known of it.
  pub keeps_found :
      {A : Type 0} {Pre : State → Type 0} {Post : A → State → Type 0} (e : Fault) (o : Option A)
      → ((s : State) (a : A) → Pre s → T.Inv s → o ≡ some a → Post a s)
      → Keeps T Pre Post (demand e o)
  unfolding demand
  keeps_found e none known = keeps_throw e
  keeps_found e (some a) known = stays (λ s. a) λ s pre inv. known s a pre inv refl

  pub keeps_read_var : (a : ℕ) → Quiet T (read_var a)
  unfolding read_var
  keeps_read_var a = record {
    at = λ s s' n pre inv e.
        (keeps_demand nil_pointer (get_elem? s.graph.vars a)).at s s' n pre inv e;
  }

  pub keeps_guard : (b : Bool) (e : Fault) → Quiet T (guard b e)
  unfolding guard
  keeps_guard true e = keeps_pure
  keeps_guard false e = keeps_throw _

  pub weaken :
      {A : Type 0} {Pre : State → Type 0} {Post : A → State → Type 0} {m : M A}
      → Keeps T Always Post m
      → Keeps T Pre Post m
  weaken keeps = record { at = λ s s' a pre inv e. keeps.at s s' a tt inv e }

  pub given :
      {A : Type 0} {P : Type 0} {Post : A → State → Type 0} {m : M A}
      → (P → Keeps T Always Post m)
      → Keeps T (λ s. P) Post m
  given keeps = record { at = λ s s' a p inv e. (keeps p).at s s' a tt inv e }

  pub forget :
      {A : Type 0} {Pre : State → Type 0} {Post : A → State → Type 0} {m : M A}
      → Keeps T Pre Post m
      → Keeps T Pre (λ a s. Unit) m
  forget keeps = record {
    at =
        λ s s' a pre inv e. let (inv', later', u) = keeps.at s s' a pre inv e in (inv', later', tt);
  }

  pub keeps_if :
      {A : Type 0} {Pre : State → Type 0} {Post : A → State → Type 0} {m n : M A} (b : Bool)
      → Keeps T Pre Post m
      → Keeps T Pre Post n
      → Keeps T Pre Post (if b then m else n)
  keeps_if true keeps_m keeps_n = keeps_m
  keeps_if false keeps_m keeps_n = keeps_n

  -- What is looked up where the invariant speaks of it.
  pub keeps_look :
      {A : Type 0} {Post : A → State → Type 0} (f : State → A)
      → ((s : State) → T.Inv s → Post (f s) s)
      → Keeps T Always Post (gets f)
  unfolding gets
  keeps_look f post = stays f λ s pre inv. post s inv

  -- What stays so later is so after the action.
  pub hold :
      {A : Type 0} {P : State → Type 0} {m : M A}
      → ((s t : State) → T.Later s t → P s → P t)
      → Keeps T P (λ a s. Unit) m
      → Keeps T P (λ a s. P s) m
  hold later keeps = record {
    at = λ s s' a p inv e.
        let (inv', later', u) = keeps.at s s' a p inv e in (inv', later', later s s' later' p);
  }

module _ {T : Theory} ⦃laws : Laws T⦄ where
  pub keeps_modify_scope : (f : Scope → Scope) → Quiet T (modify_scope f)
  keeps_modify_scope = laws.on_modify_scope

  pub keeps_modify_store : (f : Store → Store) → Quiet T (modify_store f)
  keeps_modify_store = laws.on_modify_store

  pub keeps_new_def : (v : Value) → Quiet T (new_def v)
  keeps_new_def = laws.on_new_def

  pub keeps_set_local : (v : Value) (vd : Ref) → Quiet T (set_local v vd)
  unfolding set_local
  keeps_set_local v vd = laws.on_modify_scope _

  pub keeps_update_defs : (old new : Ref) → Quiet T (update_defs old new)
  unfolding update_defs
  keeps_update_defs old new = quietly (keeps_gets _) λ sc. laws.on_modify_store _

  -- A known channel stays known.
  pub retain :
      {A : Type 0} {m : M A} {ch : Chan}
      → Keeps T (λ s. T.Known s ch) (λ a s. Unit) m
      → Keeps T (λ s. T.Known s ch) (λ a s. T.Known s ch) m
  retain {ch = ch} = hold λ s t. laws.known_later s t ch

  pub still :
      {A : Type 0} {m : M A} {ch : Chan}
      → Quiet T m
      → Keeps T (λ s. T.Known s ch) (λ a s. T.Known s ch) m
  still quiet = retain (weaken quiet)

  -- The channel that `env.chans` has is known.
  pub keeps_chan_at : (vd : Ref) → Keeps T Always (λ ch s. T.Known s ch) (chan_at vd)
  unfolding chan_at
  keeps_chan_at vd = record {
    at = λ s s' ch pre inv e.
        (keeps_found {T = T} {Pre = λ u. lookup vd u.chans ≡ lookup vd s.chans} nil_pointer
            (lookup vd s.chans) λ u c same inv_u there. laws.chan_known u vd c inv_u cc).at
          s s' ch refl inv e;
  }

  after_frame :
      {A : Type 0} {sc : Scope} {m : M A} (s s' : State) (a : A × Scope) (o : Outcome (A × State))
      → Quiet T m
      → T.Inv s
      → m (framed (fresh_frame sc) s) ≡ o
      → continue o (λ a s'. pure (a, s'.frame.scope) (framed s.frame s')) ≡ done (a, s')
      → T.Inv s' × T.Later s s' × Unit {0}
  after_frame {sc = sc} s s' a (done (b, t)) quiet inv e h =
      let (inv_t, later, u) =
        quiet.at (framed (fresh_frame sc) s) t b tt (laws.into_frame s sc inv) e in
      let (inv', later') = laws.out_of_frame s t sc inv inv_t later in
      returned (λ x u. T.Inv u × T.Later s u × Unit {0}) h (inv', later', tt)
  after_frame s s' a (panic x) quiet inv e h = absurd cc
  after_frame s s' a out_of_fuel quiet inv e h = absurd cc

  pub keeps_in_frame : {A : Type 0} (sc : Scope) {m : M A} → Quiet T m → Quiet T (in_frame sc m)
  unfolding in_frame
  keeps_in_frame sc {m} quiet = record {
    at = λ s s' a pre inv e. after_frame s s' a (m (framed (fresh_frame sc) s)) quiet inv refl e;
  }

pub ruleset quiet_rules = (
  keeps_modify_scope, keeps_modify_store, keeps_new_def, keeps_throw, keeps_pure, keeps_gets,
  keeps_demand, keeps_read_var, keeps_guard, keeps_set_local, keeps_update_defs, quietly,
)

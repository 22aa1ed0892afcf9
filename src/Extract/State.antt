-- ===== src/Extract/State.antt =====
-- The state of package cfsmextract: `frame` and `environ` of func.go, `goroutine` of gortn.go and
-- `CFSMExtract` of cfsmextract.go, and actions on it that may panic. Maps of elements and fields
-- are shared by reference: a map holds the address of another. Nodes of the session graph and the
-- variables that point to them have addresses too, which are their positions.
use dingo_hunter.Prelude.{ℕ, String, Bool, true, false, Option, none, some, List}
use dingo_hunter.Ssa.{Value}
use dingo_hunter.Definition.{Definition, VarVers}
use dingo_hunter.SessType.Node.{Role, Chan}
use dingo_hunter.SessType.Session.{Session}
use dingo_hunter.SessType.Stack.{NodeStack}
use dingo_hunter.Extract.Program.{CallCommon}

-- A *utils.Definition, which may be nil.
abbrev pub Ref : Type 0
Ref = Option Definition

-- `VarKind`
pub data Kind : Type 0 where
  nothing array chan struct local_array local_struct untracked : Kind

-- `frame` without `recvok`, `env` and `gortn`. `callers` holds `fn` of the frames above.
pub record Scope : Type 0 where
  pub fn : Option ℕ
  pub locals : List (Value × Ref)
  pub arrays : List (Ref × ℕ)
  pub structs : List (Ref × ℕ)
  pub tuples : List (Value × List Ref)
  pub phi : List (Value × List Value)
  pub retvals : List Ref
  pub defers : List (Value × CallCommon)
  pub callers : List (Option ℕ)

-- The pointer in `recvok` may be nil.
pub record Frame : Type 0 where
  pub scope : Scope
  pub recvok : List (Value × Option Chan)

-- `environ` without channels and nodes. `elems` and `fields` are the maps by their
-- addresses; `args` has the arguments of the calls whose instruction was changed.
pub record Store : Type 0 where
  pub globals : List (Value × Ref)
  pub arrays : List (Ref × ℕ)
  pub structs : List (Ref × ℕ)
  pub elems : List (List (Value × Ref))
  pub fields : List (List (ℕ × Ref))
  pub extern : List (Value × List Bool)
  pub closures : List (Value × List Ref)
  pub sel_idx : List (Value × Value)
  pub sel_test : List (Value × (ℕ × Value))
  pub args : List (ℕ × List Value)

-- A node without its children.
pub data Label : Type 0 where
  new_chan : Chan → Label
  send : (sndr : Role) (dest : Chan) (nondet : Bool) (t : Option String) → Label
  recv : (orig : Chan) (rcvr : Role) (nondet : Bool) (t : Option String) (stop : Bool) → Label
  label : String → Label
  goto : String → Label
  end : Chan → Label
  empty_body : Label

pub record Cell : Type 0 where
  pub content : Label
  pub children : List ℕ

-- `vars` are the variables of type `Node`, with the node that each holds. `sel_node` has the parent
-- of a select, a pointer to a variable, and whether the select is blocking.
pub record Graph : Type 0 where
  pub nodes : List Cell
  pub vars : List ℕ
  pub if_parent : NodeStack ℕ
  pub sel_node : List (Value × (Option ℕ × Bool))

-- `root` and `leaf` are variables.
pub record Goroutine : Type 0 where
  pub role : Role
  pub root : ℕ
  pub leaf : Option ℕ
  pub visited : List (ℕ × ℕ)

pub record State : Type 0 where
  pub frame : Frame
  pub gortn : Goroutine
  pub store : Store
  -- `VarVers`
  pub versions : VarVers
  pub graph : Graph
  -- `env.chans` and `env.recvTest`
  pub chans : List (Ref × Chan)
  pub recv_test : List (Value × Chan)
  pub session : Session
  -- `session.Types`, with the roots
  pub types : List (Role × ℕ)
  pub go_queue : List (Frame × Goroutine)

-- Why the program panics: the messages of the code, the faults of the language, and the end of the
-- program by `os.Exit`.
pub data Fault : Type 0 where
  nil_pointer out_of_range undefined_channel wrong_kind not_channel nil_leaf not_struct not_array
        bad_successors bad_direction abstract_method no_select empty_stack not_constant no_main :
      Fault

pub data Outcome {ℓ} (A : Type ℓ) : Type ℓ where
  done : A → Outcome A
  panic : Fault → Outcome A
  out_of_fuel : Outcome A

abbrev pub M : Type 0 → Type 0
M A = State → Outcome (A × State)

abbrev pub pure : {A : Type 0} → A → M A
pure a s = done (a, s)

abbrev pub throw : {A : Type 0} → Fault → M A
throw f s = panic f

abbrev pub continue : {A B : Type 0} → Outcome (A × State) → (A → M B) → Outcome (B × State)
continue (done (a, s)) f = f a s
continue (panic e) f = panic e
continue out_of_fuel f = out_of_fuel

infixl 5 ◌>>=◌ ◌>>◌
unfoldable pub ◌>>=◌ : {A B : Type 0} → M A → (A → M B) → M B
◌>>=◌ m f s = continue (m s) f

abbrev pub ◌>>◌ : {B : Type 0} → M (Unit {0}) → M B → M B
m >> k = m >>= λ _. k

unfoldable pub gets : {A : Type 0} → (State → A) → M A
gets f s = done (f s, s)

-- A value that is there, or a panic.
unfoldable pub demand : {A : Type 0} → Fault → Option A → M A
demand e none = throw e
demand e (some a) = pure a

unfoldable pub guard : Bool → Fault → M (Unit {0})
guard true e = pure tt
guard false e = throw e

unfoldable pub modify_scope : (Scope → Scope) → M (Unit {0})
modify_scope f s = done (tt, record s { frame = record s.frame { scope = f s.frame.scope } })

unfoldable pub modify_store : (Store → Store) → M (Unit {0})
modify_store f s = done (tt, record s { store = f s.store })

-- ===== src/Extract/Frames.antt =====
-- cfsmextract/func.go: what a frame holds under a value, arguments and captures of a call, return
-- values, recursion, and the update of stored definitions.
pub mod Recursion
pub mod Update
pub mod Params
use dingo_hunter.Prelude.{
  ℕ, suc, zero, Bool, true, false, Option, none, some, List, [], ◌∷◌, ◌++◌, lookup, insert,
  get_elem?, set, length, nat_eq, option_eq, ◌==◌, if◌then◌else◌, not,
}
use dingo_hunter.Ssa.{Value}
use dingo_hunter.Definition.{Definition, def_eq}
use dingo_hunter.Extract.Program.{Program, CallCommon}
use dingo_hunter.Extract.State.{
  Ref, Kind, nothing, array, chan, struct, local_array, local_struct, untracked, Scope, Frame,
  Store, State, out_of_range, M, pure, ◌>>=◌, ◌>>◌, gets, demand, modify_scope, modify_store,
}
use dingo_hunter.Extract.Nodes.{register}

abbrev pub is_some {ℓ} : {A : Type ℓ} → Option A → Bool
is_some none = false
is_some (some x) = true

-- `locals[v]`, which is nil for a missing key.
abbrev pub or_nil : Option Ref → Ref
or_nil none = none
or_nil (some vd) = vd

abbrev pub local_def : Value → Scope → Ref
local_def v sc = or_nil (lookup v sc.locals)

unfoldable pub kind_of : Ref → State → Kind
kind_of vd s =
    if is_some (lookup vd s.store.arrays)
    then array
    else if is_some (lookup vd s.frame.scope.arrays)
    then local_array
    else if is_some (lookup vd s.chans)
    then chan
    else if is_some (lookup vd s.store.structs)
    then struct
    else if is_some (lookup vd s.frame.scope.structs)
    then local_struct
    else untracked

-- The loop of `get` over the edges of a phi, from the last: the first that is defined.
unfoldable pub last_defined : List (Value × Ref) → List Value → Option Ref
last_defined locals [] = none
last_defined locals (v ∷ vs) = elim (last_defined locals vs) [
  | some vd ↦ some vd
  | none ↦ lookup v locals
]

unfoldable pub get_phi : List (Value × Ref) → Option (List Value) → Ref × Kind
unfolding last_defined
get_phi locals none = (none, nothing)
get_phi locals (some vs) = elim (last_defined locals vs) [
  | none ↦ (none, nothing)
  | some vd ↦ (vd, chan)
]

-- `get`
unfoldable pub get : Value → State → Ref × Kind
unfolding kind_of get_phi
get v s = elim (lookup v s.frame.scope.locals) [
  | some vd ↦ (vd, kind_of vd s)
  | none ↦ get_phi s.frame.scope.locals (lookup v s.frame.scope.phi)
]

-- `fr.locals[v] = vd`
abbrev pub bind_local : Value → Ref → Scope → Scope
bind_local v vd sc = record sc { locals = insert v vd sc.locals }

unfoldable pub set_local : Value → Ref → M (Unit {0})
unfolding modify_scope
set_local v vd = modify_scope (bind_local v vd)

-- A map whose values `old` become `new`.
unfoldable pub replace_refs {ℓ} : {K : Type ℓ} → Ref → Ref → List (K × Ref) → List (K × Ref)
replace_refs old new [] = []
replace_refs old new ((k, v) ∷ m) = (k, if v == old then new else v) ∷ replace_refs old new m

unfoldable pub at_address {ℓ} : {A : Type ℓ} → List (List A) → ℕ → List A
at_address heap a = elim (get_elem? heap a) [ none ↦ [] | some m ↦ m ]

-- The loop of `updateDefs` over a map of arrays or structs: the maps at its addresses.
unfoldable pub update_maps {ℓ} :
    {K : Type ℓ} → Ref → Ref → List (Ref × ℕ) → List (List (K × Ref)) → List (List (K × Ref))
unfolding replace_refs at_address
update_maps old new [] heap = heap
update_maps old new ((vd, a) ∷ rest) heap =
    update_maps old new rest (set heap a (replace_refs old new (at_address heap a)))

-- `updateDefs`
unfoldable pub update_store : Ref → Ref → Scope → Store → Store
unfolding update_maps
update_store old new sc st = record st {
  elems = update_maps old new st.arrays (update_maps old new sc.arrays st.elems);
  fields = update_maps old new st.structs (update_maps old new sc.structs st.fields);
}

unfoldable pub update_defs : Ref → Ref → M (Unit {0})
unfolding update_store modify_store
update_defs old new = do sc ← gets (λ s. s.frame.scope); modify_store (update_store old new sc)

-- The frame of a call before its arguments are translated: `make(Tuples, n)` holds nil.
unfoldable pub nils : ℕ → List Ref
nils zero = []
nils (suc n) = none ∷ nils n

unfoldable pub new_scope : Option ℕ → ℕ → List (Option ℕ) → Scope
unfolding nils
new_scope fn results callers = record {
  fn = fn;
  locals = [];
  arrays = [];
  structs = [];
  tuples = [];
  phi = [];
  retvals = nils results;
  defers = [];
  callers = callers;
}

-- The callee's view of a parameter that is a struct or an array of the caller's frame.
unfoldable pub share : Ref → State → Scope → Scope
share vd s callee =
    if is_some (lookup vd s.chans)
    then callee
    else if is_some (lookup vd s.store.structs)
    then callee
    else if is_some (lookup vd s.store.arrays)
    then callee
    else elim (lookup vd s.frame.scope.structs) [
      | some fields ↦ record callee { structs = insert vd fields callee.structs }
      | none ↦ elim (lookup vd s.frame.scope.arrays) [
        | some elems ↦ record callee { arrays = insert vd elems callee.arrays }
        | none ↦ callee
      ]
    ]

unfoldable pub bind_arg : Value → Value → State → Scope → Scope
bind_arg param arg s callee =
    if param == arg then callee else elim (lookup arg s.frame.scope.locals) [
      | none ↦ callee
      | some vd ↦ bind_local param vd callee
    ]

unfoldable pub bind_param : Value → Value → State → Scope → Scope
unfolding share bind_arg
bind_param param arg s callee =
    let bound = bind_arg param arg s callee in share (local_def param bound) s bound

-- The loop of `translate` over the parameters; `none` is an index out of range.
unfoldable pub bind_params : List Value → List Value → State → Scope → Option Scope
unfolding bind_param
bind_params [] args s callee = some callee
bind_params (p ∷ ps) [] s callee = none
bind_params (p ∷ ps) (a ∷ args) s callee = bind_params ps args s (bind_param p a s callee)

unfoldable pub bind_captures : List Value → List Ref → Scope → Option Scope
bind_captures [] captures callee = some callee
bind_captures (fv ∷ fvs) [] callee = none
bind_captures (fv ∷ fvs) (vd ∷ captures) callee =
    bind_captures fvs captures (bind_local fv vd callee)

unfoldable pub capture : Option (List Ref) → List Value → Scope → Option Scope
unfolding bind_captures
capture none fvs callee = some callee
capture (some captures) fvs callee = bind_captures fvs captures callee

-- `common.Args`, as the earlier visits of the call left it.
unfoldable pub args_of : CallCommon → Store → List Value
args_of c st = elim (lookup c.site st.args) [ none ↦ c.args | some args ↦ args ]

-- `common.Args = append([]ssa.Value{common.Value}, common.Args...)`
unfoldable pub add_receiver : CallCommon → M (Unit {0})
unfolding modify_store args_of
add_receiver c =
    modify_store λ st. record st { args = insert c.site (c.value ∷ args_of c st) st.args }

-- `translate`: the scope of the callee `fn`.
unfoldable pub translate : Program → ℕ → CallCommon → M Scope
unfolding bind_params capture args_of new_scope
translate prog fn c = do
  s ← gets (λ s. s)
  let sc = new_scope (some fn) c.results (s.frame.scope.fn ∷ s.frame.scope.callers)
  bound ← demand out_of_range (bind_params (prog.params fn) (args_of c s.store) s sc)
  demand out_of_range (capture (lookup c.value s.store.closures) (prog.free_vars fn) bound)

-- The frames above up to the nearest one of `fn`, and those from there on.
unfoldable pub find_frame : Option ℕ → List (Option ℕ) → Option (List (Option ℕ) × List (Option ℕ))
find_frame fn [] = none
find_frame fn (f ∷ above) =
    let rest = find_frame fn above in
    if f == fn
    then some (f ∷ [], f ∷ above)
    else elim rest [ none ↦ none | some (traceback, found) ↦ some (f ∷ traceback, found) ]

unfoldable pub all_match : List (Option ℕ) → List (Option ℕ) → Bool
all_match [] found = true
all_match (fn ∷ traceback) [] = false
all_match (fn ∷ traceback) (f ∷ found) =
    let rest = all_match traceback found in if f == fn then rest else false

-- `isRecursive` of a frame with the function `fn`, below the frames of `callers`.
unfoldable pub is_recursive : Option ℕ → List (Option ℕ) → Bool
unfolding find_frame all_match
is_recursive fn callers = elim (find_frame fn callers) [
  | none ↦ false
  | some (traceback, found) ↦ all_match traceback found
]

-- `handleRetvals`
unfoldable pub bind_retvals : Value → List Ref → Scope → Scope
bind_retvals returned [] sc = sc
bind_retvals returned (vd ∷ []) sc = bind_local returned vd sc
bind_retvals returned (vd ∷ vd' ∷ vds) sc = record sc {
  tuples = insert returned (vd ∷ vd' ∷ vds) sc.tuples;
}

unfoldable pub handle_retvals : Value → Scope → M (Unit {0})
unfolding bind_retvals modify_scope
handle_retvals returned callee = modify_scope (bind_retvals returned callee.retvals)

-- A single result that is a channel is made as an external channel of the session.
unfoldable pub register_result : Value → List Bool → M (Unit {0})
register_result returned (true ∷ []) = do r ← register true returned; pure tt
register_result returned results = pure tt

-- `handleExtRetvals`, for the types of the results.
unfoldable pub handle_ext_retvals : Value → List Bool → M (Unit {0})
unfolding modify_store register_result
handle_ext_retvals returned [] = pure tt
handle_ext_retvals returned (r ∷ results) = do
  modify_store λ st. record st { extern = insert returned (r ∷ results) st.extern }
  register_result returned (r ∷ results)

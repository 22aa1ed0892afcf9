-- ===== src/Tests/Frames.antt =====
-- Calls, arguments and stored definitions of cfsmextract at concrete inputs.
use dingo_hunter.Prelude.{
  ℕ, suc, zero, ◌≡◌, ◌≢◌, ◌↔◌, ◌<◌, refl, true, false, ◌||◌, Option, none, some, List, [], ◌∷◌,
  lookup, nat_eq, option_eq, length, arith, if◌then◌else◌,
}
use mathlib.Core.List.Memᴰ
use dingo_hunter.Definition.{fresh_def, def_eq}
use dingo_hunter.Extract.Program.{Program, CallCommon, call, function, other_shape}
use dingo_hunter.Extract.State.{done, nothing, Ref, Scope, Store, State, out_of_fuel}
use dingo_hunter.Extract.Frames.{
  get, nils, new_scope, is_recursive, at_address, update_store, bind_params, bind_param,
}
use dingo_hunter.Extract.Frames.Recursion.{
  is_recursive_iff, BeginsWithCall, mutual_recursion_diverges,
}
use dingo_hunter.Extract.Frames.Update.{rename, mentions, update_defs_renames}
use dingo_hunter.Extract.Frames.Params.{bind_params-binds, bind_params-fails_iff}
use dingo_hunter.Extract.Moves.{visit_slice, visit_make_slice}
use dingo_hunter.Extract.Moves.Slices.{slices_stay_undefined}
use dingo_hunter.Extract.Run.{visit_block}
use dingo_hunter.Extract.Main.{toplevel}

-- A call of `f` by `f` itself is recursive.
is_recursive_iff_example :
    (is_recursive (some 0) (some 0 ∷ some 7 ∷ []) ≡ true)
    ↔ ((above : List (Option ℕ)) × (some 0 ∷ some 7 ∷ [] ≡ some 0 ∷ above))
is_recursive_iff_example = is_recursive_iff (some 0) (some 0 ∷ some 7 ∷ [])

abbrev call_of : ℕ → CallCommon
call_of g = record { site = g; value = 9; callee = function g; args = []; results = 0 }

-- The functions 0 and 1 call each other.
abbrev ping_pong : Program
ping_pong = record {
  ssa = record { chan_elem = λ v. none };
  block = λ b. record {
    preds = 0;
    label = "b";
    instrs = call 7 (call_of (elim b [ zero ↦ 1 | suc n ↦ 0 ])) ∷ [];
  };
  entry = λ fn. some fn;
  params = λ fn. [];
  free_vars = λ fn. [];
  results = λ fn. [];
  pointee = λ v. other_shape;
  implements = λ v m. false;
  lookup_method = λ v m. none;
}

ping : BeginsWithCall ping_pong 0 0 1 1
ping = record {
  returned = 7;
  common = call_of 1;
  rest = [];
  entered_once = refl;
  instrs = refl;
  callee = refl;
  entry = refl;
  no_params = refl;
  no_captures = refl;
}

pong : BeginsWithCall ping_pong 1 1 0 0
pong = record {
  returned = 7;
  common = call_of 0;
  rest = [];
  entered_once = refl;
  instrs = refl;
  callee = refl;
  entry = refl;
  no_params = refl;
  no_captures = refl;
}

abbrev in_ping : State
in_ping = record toplevel {
  frame = record toplevel.frame { scope = record toplevel.frame.scope { fn = some 0 } };
}

two_functions : ◌≢◌ {A = Option ℕ} (some 0) (some 1)
two_functions = λ e. absurd ground arith

mutual_recursion_diverges_example : visit_block ping_pong 1000 0 in_ping ≡ out_of_fuel
mutual_recursion_diverges_example =
    mutual_recursion_diverges ping_pong 1000 0 0 1 1 in_ping two_functions ping pong refl

abbrev def_of : ℕ → Ref
def_of n = some (record { var = n; ver = 0 })

-- Two arrays of the environment share the map at address 0.
abbrev shared : Store
shared = record toplevel.store {
  arrays = (def_of 1, 0) ∷ (def_of 2, 0) ∷ [];
  elems = ((5, def_of 3) ∷ []) ∷ [];
}

abbrev no_scope : Scope
no_scope = record {
  fn = none;
  locals = (1, def_of 3) ∷ [];
  arrays = [];
  structs = [];
  tuples = [];
  phi = [];
  retvals = [];
  defers = [];
  callers = [];
}

update_defs_renames_example :
    let st' = update_store (def_of 3) (def_of 4) no_scope shared in
    (lookup 5 (at_address st'.elems 0) ≡ (
      if mentions 0 no_scope.arrays || mentions 0 shared.arrays
      then rename (def_of 3) (def_of 4) (lookup 5 (at_address shared.elems 0))
      else lookup 5 (at_address shared.elems 0)))
    × (lookup 0 (at_address st'.fields 0) ≡ (
        if mentions 0 no_scope.structs || mentions 0 shared.structs
        then rename (def_of 3) (def_of 4) (lookup 0 (at_address shared.fields 0))
        else lookup 0 (at_address shared.fields 0)))
    × (st'.arrays ≡ shared.arrays)
    × (st'.structs ≡ shared.structs)
    × (st'.globals ≡ shared.globals)
    × (st'.extern ≡ shared.extern)
    × (st'.closures ≡ shared.closures)
    × (st'.sel_idx ≡ shared.sel_idx)
    × (st'.sel_test ≡ shared.sel_test)
    × (st'.args ≡ shared.args)
    × (length st'.elems ≡ length shared.elems)
    × (length st'.fields ≡ length shared.fields)
update_defs_renames_example = update_defs_renames (def_of 3) (def_of 4) no_scope shared 0 5 0

abbrev caller : State
caller = record toplevel { frame = record toplevel.frame { scope = no_scope } }

abbrev bound : Scope
bound = bind_param 8 1 caller (record no_scope { locals = [] })

binds : bind_params (8 ∷ []) (1 ∷ []) caller (record no_scope { locals = [] }) ≡ some bound
unfolding bind_params
binds = refl

bind_params-binds_example : lookup 8 bound.locals ≡ some (def_of 3)
bind_params-binds_example =
    bind_params-binds (8 ∷ []) (1 ∷ []) caller (record no_scope { locals = [] }) bound 0 8 1
      (def_of 3) ((λ m. Memᴰ.not-nil m), tt) binds refl refl (λ e. absurd ground arith) refl

bind_params-fails_iff_example :
    (bind_params (8 ∷ 9 ∷ []) (1 ∷ []) caller no_scope ≡ none)
    ↔ (length {A = ℕ} (1 ∷ []) < length {A = ℕ} (8 ∷ 9 ∷ []))
bind_params-fails_iff_example = bind_params-fails_iff (8 ∷ 9 ∷ []) (1 ∷ []) caller no_scope

not_local : lookup 3 toplevel.frame.scope.locals ≡ none
unfolding toplevel new_scope nils
not_local = refl

not_phi : lookup 3 toplevel.frame.scope.phi ≡ none
unfolding toplevel new_scope nils
not_phi = refl

slices_stay_undefined_example :
    (s' : State) × (visit_slice 3 toplevel ≡ done (tt, s'))
    × (visit_make_slice 3 toplevel ≡ done (tt, s'))
    × (lookup (some (fresh_def 3 toplevel.versions).0) s'.store.arrays
        ≡ some (length toplevel.store.elems))
    × (get 3 s' ≡ (none, nothing))
slices_stay_undefined_example = slices_stay_undefined 3 toplevel not_local not_phi

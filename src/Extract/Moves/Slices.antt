-- ===== src/Extract/Moves/Slices.antt =====
-- What a slice is in the frame after `visitSlice` and `visitMakeSlice` of cfsmextract/visit.go.
use dingo_hunter.Prelude.{
  ◌≡◌, refl, arith, none, some, [], ◌∷◌, ◌++◌, lookup, lookup-insert, insert, length, nat_eq,
  option_eq, beq_self,
}
use dingo_hunter.Ssa.{Value}
use dingo_hunter.Definition.{def_eq, fresh_def}
use dingo_hunter.Extract.State.{nothing, State, done, ◌>>=◌, gets, modify_store}
use dingo_hunter.Extract.Nodes.{new_def}
use dingo_hunter.Extract.Frames.{get, get_phi}
use dingo_hunter.Extract.Memory.{new_elems, name_elems}
use dingo_hunter.Extract.Moves.{visit_slice, visit_make_slice}

-- The state with a new array of the environment for `v`.
abbrev pub with_array : Value → State → State
with_array v s =
    let (d, vers) = fresh_def v s.versions in
    record s {
      versions = vers;
      store = record s.store {
        elems = s.store.elems ++ [] ∷ [];
        arrays = insert (some d) (length s.store.elems) s.store.arrays;
      };
    }

slice-with_array : (v : Value) (s : State) → visit_slice v s ≡ done (tt, with_array v s)
unfolding visit_slice new_elems name_elems new_def gets modify_store ◌>>=◌
slice-with_array v s = refl

make_slice-with_array : (v : Value) (s : State) → visit_make_slice v s ≡ done (tt, with_array v s)
unfolding visit_make_slice new_elems name_elems new_def gets modify_store ◌>>=◌
make_slice-with_array v s = refl

-- A variable that the frame does not have has no definition, whatever the environment holds.
get-undefined :
    (v : Value) (s : State)
    → lookup v s.frame.scope.locals ≡ none
    → lookup v s.frame.scope.phi ≡ none
    → get v s ≡ (none, nothing)
unfolding get get_phi
get-undefined v s not_local not_phi = rw (not_local, get) (rw (not_phi, get_phi) refl)

-- An array for a new definition is made in the environment by both instructions, but a slice that
-- was not defined in the frame is still not defined there afterwards.
pub slices_stay_undefined :
    (v : Value) (s : State)
    → lookup v s.frame.scope.locals ≡ none
    → lookup v s.frame.scope.phi ≡ none
    → (s' : State) × (visit_slice v s ≡ done (tt, s'))
      × (visit_make_slice v s ≡ done (tt, s'))
      × (lookup (some (fresh_def v s.versions).0) s'.store.arrays ≡ some (length s.store.elems))
      × (get v s' ≡ (none, nothing))
slices_stay_undefined v s not_local not_phi = (
  with_array v s,
  slice-with_array v s,
  make_slice-with_array v s,
  ground (
    arith,
    lookup-insert (some (fresh_def v s.versions).0) (some (fresh_def v s.versions).0)
        (length s.store.elems) s.store.arrays,
    beq_self (some (fresh_def v s.versions).0),
  ),
  get-undefined v (with_array v s) not_local not_phi,
)

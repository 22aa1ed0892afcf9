-- ===== src/Definition.antt =====
-- cfsmextract/utils/defs.go: versioned variable definitions. The package variable `VarVers` is
-- passed on explicitly, and a `*Definition` is the pair of its fields (see Definition/Fresh).
pub mod Fresh
use dingo_hunter.Prelude.{
  ℕ, ◌+◌, ◌≡◌, Bool, true, ◌&&◌, ◌↔◌, Option, none, some, List, [], ◌∷◌, arith, Eq, nat_eq, nat_beq,
  nat_beq_iff, lookup, insert,
}
use mathlib.Core.Option
use dingo_hunter.Ssa.{Value}

pub record Definition : Type 0 where
  pub var : Value
  pub ver : ℕ

abbrev pub def_beq : Definition → Definition → Bool
def_beq d e = nat_beq d.var e.var && nat_beq d.ver e.ver

pub def_beq_iff : (d e : Definition) → (def_beq d e ≡ true) ↔ (d ≡ e)
def_beq_iff d e = ground (arith, nat_beq_iff d.var e.var, nat_beq_iff d.ver e.ver)

instance abbrev pub def_eq : Eq Definition
def_eq = record { beq = def_beq; beq_iff = def_beq_iff }

-- `VarVers`: the last version issued of each value.
abbrev pub VarVers : Type 0
VarVers = List (Value × ℕ)

unfoldable pub bump : Value → Option ℕ → VarVers → Definition × VarVers
bump v (some ver) vers = (record { var = v; ver = ver + 1 }, insert v (ver + 1) vers)
bump v none vers = (record { var = v; ver = 0 }, insert v 0 vers)

-- `NewDef` on a value that is not nil.
unfoldable pub fresh_def : Value → VarVers → Definition × VarVers
unfolding bump
fresh_def v vers = bump v (lookup v vers) vers

-- `NewDef`; `none` is its panic on a nil value.
unfoldable pub new_def : Option Value → VarVers → Option (Definition × VarVers)
new_def none vers = none
new_def (some v) vers = some (fresh_def v vers)

-- The definitions that a run of calls of `NewDef` returns; `none` if one of them panics.
unfoldable pub issue : List (Option Value) → VarVers → Option (List Definition)
unfolding new_def
issue [] vers = some []
issue (v ∷ vs) vers = elim (new_def v vers) [
  | none ↦ none
  | some (d, vers') ↦ Option.map (λ ds. d ∷ ds) (issue vs vers')
]

-- ===== src/Definition/Fresh.antt =====
-- The definitions that a run of calls of `NewDef` (cfsmextract/utils/defs.go) issues.
use dingo_hunter.Definition.{Definition, VarVers, fresh_def, issue}
use dingo_hunter.Prelude.{
  ℕ, ◌+◌, ◌≤◌, ◌≡◌, sym, none, some, List, [], ◌∷◌, arith, lookup, lookup-insert, nat_eq,
  Option-cases, Bool-cases, Memᴰ, Memᴰ-cons, subst, Option, inl, inr, beq_self, ◌==◌,
}
use mathlib.Core.List.Memᴰ
use dingo_hunter.Ssa.{Value}

-- The versions that a store of last versions accounts for.
abbrev pub Issued : VarVers → Definition → Type 0
Issued vers d = (last : ℕ) × (lookup d.var vers ≡ some last) × (d.ver ≤ last)

pub fresh_def-Issued :
    (v : Value) (vers : VarVers)
    → let (d, vers') = fresh_def v vers in (d.var ≡ v) × (¬ Issued vers d) × Issued vers' d
unfolding fresh_def
fresh_def-Issued v vers = elim (Option-cases (lookup v vers)) [
  | inl e ↦ (
    ground arith,
    λ (last, f, le). ground arith,
    (0, ground (arith, lookup-insert v v 0 vers, beq_self v), ground arith),
  )
  | inr (w, e) ↦ (
    ground arith,
    λ (last, f, le). ground arith,
    (w + 1, ground (arith, lookup-insert v v (w + 1) vers, beq_self v), ground arith),
  )
]

pub fresh_def-keeps :
    (v : Value) (vers : VarVers) (e : Definition) → Issued vers e → Issued (fresh_def v vers).1 e
unfolding fresh_def
fresh_def-keeps v vers e (last, f, le) = elim (Option-cases (lookup v vers)) [
  | inl fresh ↦ (last, ground (arith, lookup-insert v e.var 0 vers), le)
  | inr (w, old) ↦ elim (Bool-cases (v == e.var)) [
    | inl same ↦ (w + 1, ground (arith, lookup-insert v e.var (w + 1) vers), ground arith)
    | inr differ ↦ (last, ground (arith, lookup-insert v e.var (w + 1) vers), le)
  ]
]

-- No definition of the list stands in it twice.
abbrev pub IsUnique : List Definition → Type 0
IsUnique [] = Unit
IsUnique (d ∷ ds) = (¬ Memᴰ d ds) × IsUnique ds

issue-some :
    (v : Value) (vs : List (Option Value)) (vers : VarVers) (ds : List Definition)
    → issue (some v ∷ vs) vers ≡ some ds
    → (rest : List Definition) × (issue vs (fresh_def v vers).1 ≡ some rest)
      × (ds ≡ (fresh_def v vers).0 ∷ rest)
unfolding issue
issue-some v vs vers ds h = elim (Option-cases (issue vs (fresh_def v vers).1)) [
  | inl e ↦ ground arith
  | inr (rest, e) ↦ (rest, e, ground arith)
]

Issued-not-again :
    (vs : List (Option Value)) (vers : VarVers) (ds : List Definition)
    → issue vs vers ≡ some ds
    → (d : Definition) → Issued vers d
    → ¬ Memᴰ d ds
unfolding issue
Issued-not-again [] vers ds h d was m = Memᴰ.not-nil (subst (Memᴰ d) (ground arith) m)
Issued-not-again (none ∷ vs) vers ds h d was m = cc
Issued-not-again (some v ∷ vs) vers ds h d was m =
    let (rest, e, split) = issue-some v vs vers ds h in
    let (_, fresh, _) = fresh_def-Issued v vers in
    elim ((Memᴰ-cons d (fresh_def v vers).0 rest).0 (subst (Memᴰ d) split m)) [
      | inl same ↦ fresh (subst (Issued vers) same was)
      | inr later ↦
          Issued-not-again vs (fresh_def v vers).1 rest e d (fresh_def-keeps v vers d was) later
    ]

-- However often `NewDef` is called, and on whatever values, it never returns the same value and
-- version twice.
pub issue-IsUnique :
    (vs : List (Option Value)) (vers : VarVers) (ds : List Definition)
    → issue vs vers ≡ some ds
    → IsUnique ds
unfolding issue
issue-IsUnique [] vers ds h =
    let none_issued : [] ≡ ds = ground arith in subst IsUnique none_issued tt
issue-IsUnique (none ∷ vs) vers ds h = cc
issue-IsUnique (some v ∷ vs) vers ds h =
    let (rest, e, split) = issue-some v vs vers ds h in
    let (_, _, now) = fresh_def-Issued v vers in
    let d = (fresh_def v vers).0 in
    let unique : IsUnique (d ∷ rest) = (
      Issued-not-again vs (fresh_def v vers).1 rest e d now,
      issue-IsUnique vs (fresh_def v vers).1 rest e,
    ) in
    subst IsUnique (sym split) unique

-- ===== src/Fairness/Loops.antt =====
-- What fairness/fairness.go takes for a fair loop, said without its loops over the instructions.
use mathlib.Core.List.Memᴰ
use dingo_hunter.Prelude.{
  ◌≡◌, refl, ◌≢◌, ◌↔◌, inl, inr, String, false, List, [], ◌∷◌, ◌==◌, string_eq, Memᴰ, Bool-cases,
  All, sym,
}
use dingo_hunter.Fairness.{
  Instr, if_instr, jump, un_op_instr, other, debug_ref, phi, Cond, const_cond, bin_op, un_op, call,
  other_cond, const, computed, BasicBlock, is_cond_fair, is_index_static, has_unfair_cond,
  is_likely_unsafe,
}

-- A condition whose value does not depend on the loop, or cannot be known: a constant, an operation
-- on constants, or a call.
pub data IsStatic : Cond → Type 0 where
  constant : IsStatic const_cond
  constants : IsStatic (bin_op const const)
  negated : IsStatic (un_op const)
  called : IsStatic call

IsStatic-unfair : (c : Cond) → IsStatic c → is_cond_fair c ≡ false
unfolding is_cond_fair
IsStatic-unfair const_cond constant = refl
IsStatic-unfair (bin_op const const) constants = refl
IsStatic-unfair (un_op const) negated = refl
IsStatic-unfair call called = refl
IsStatic-unfair (bin_op const computed) s = elim s [ ]
IsStatic-unfair (bin_op computed y) s = elim s [ ]
IsStatic-unfair (un_op computed) s = elim s [ ]
IsStatic-unfair other_cond s = elim s [ ]

is_cond_fair_iff : (c : Cond) → (is_cond_fair c ≡ false) ↔ IsStatic c
unfolding is_cond_fair
is_cond_fair_iff const_cond = (λ e. constant, IsStatic-unfair const_cond)
is_cond_fair_iff (bin_op const const) = (λ e. constants, IsStatic-unfair (bin_op const const))
is_cond_fair_iff (bin_op const computed) = (λ e. cc, IsStatic-unfair (bin_op const computed))
is_cond_fair_iff (bin_op computed const) = (λ e. cc, IsStatic-unfair (bin_op computed const))
is_cond_fair_iff (bin_op computed computed) = (λ e. cc, IsStatic-unfair (bin_op computed computed))
is_cond_fair_iff (un_op const) = (λ e. negated, IsStatic-unfair (un_op const))
is_cond_fair_iff (un_op computed) = (λ e. cc, IsStatic-unfair (un_op computed))
is_cond_fair_iff call = (λ e. called, IsStatic-unfair call)
is_cond_fair_iff other_cond = (λ e. cc, IsStatic-unfair other_cond)

-- A branch, if it is one, on a condition that is not static.
pub BranchesFairly : Instr → Type 0
BranchesFairly (if_instr c) = ¬ (IsStatic c)
BranchesFairly i = Unit

-- A loop index: a phi that has a comment.
pub HasIndex : List Instr → Type 0
HasIndex instrs = (comment : String) × Memᴰ (phi comment) instrs × (comment ≢ "")

has_unfair_cond_iff :
    (instrs : List Instr) → (has_unfair_cond instrs ≡ false) ↔ All BranchesFairly instrs
unfolding has_unfair_cond BranchesFairly
has_unfair_cond_iff [] = (λ e. tt, λ h. refl)
has_unfair_cond_iff (if_instr c ∷ rest) = elim (Bool-cases (is_cond_fair c)) [
  | inl ok ↦ (
    λ e. (
      λ s. let is_false = IsStatic-unfair c s in cc,
      (has_unfair_cond_iff rest).0 (rw (ok, has_unfair_cond) at e),
    ),
    λ h. rw (ok, has_unfair_cond) ((has_unfair_cond_iff rest).1 h.1),
  )
  | inr bad ↦ (
    λ e. let impossible = rw (bad, has_unfair_cond) at e in cc,
    λ h. absurd (h.0 ((is_cond_fair_iff c).0 bad)),
  )
]
has_unfair_cond_iff (phi comment ∷ rest) =
    (λ e. (tt, (has_unfair_cond_iff rest).0 e), λ h. (has_unfair_cond_iff rest).1 h.1)
has_unfair_cond_iff (jump ∷ rest) =
    (λ e. (tt, (has_unfair_cond_iff rest).0 e), λ h. (has_unfair_cond_iff rest).1 h.1)
has_unfair_cond_iff (debug_ref ∷ rest) =
    (λ e. (tt, (has_unfair_cond_iff rest).0 e), λ h. (has_unfair_cond_iff rest).1 h.1)
has_unfair_cond_iff (un_op_instr ops ∷ rest) =
    (λ e. (tt, (has_unfair_cond_iff rest).0 e), λ h. (has_unfair_cond_iff rest).1 h.1)
has_unfair_cond_iff (other ∷ rest) =
    (λ e. (tt, (has_unfair_cond_iff rest).0 e), λ h. (has_unfair_cond_iff rest).1 h.1)

HasIndex-∷ : (i : Instr) (rest : List Instr) → HasIndex rest → HasIndex (i ∷ rest)
unfolding HasIndex
HasIndex-∷ i rest (comment, there, named) = (comment, Memᴰ.tail there, named)

HasIndex-tail :
    (i : Instr) (rest : List Instr)
    → ((comment : String) → i ≡ phi comment → comment ≡ "")
    → HasIndex (i ∷ rest)
    → HasIndex rest
unfolding HasIndex
HasIndex-tail i rest plain (comment, found, named) = elim (Memᴰ.cases_cons found) [
  | inl same ↦ absurd (named (plain comment (sym same)))
  | inr there ↦ (comment, there, named)
]

HasIndex-skip :
    {P : Type 0} (i : Instr) (rest : List Instr)
    → ((comment : String) → ¬ (i ≡ phi comment))
    → (P ↔ HasIndex rest)
    → P ↔ HasIndex (i ∷ rest)
HasIndex-skip i rest no_phi h = (
  λ p. HasIndex-∷ i rest (h.0 p),
  λ found. h.1 (HasIndex-tail i rest (λ comment e. absurd (no_phi comment e)) found),
)

is_index_static_iff : (instrs : List Instr) → (is_index_static instrs ≡ false) ↔ HasIndex instrs
unfolding is_index_static HasIndex
is_index_static_iff [] = (λ e. cc, λ (comment, found, named). absurd (Memᴰ.not-nil found))
is_index_static_iff (phi comment ∷ rest) = elim (Bool-cases (comment == "")) [
  | inl blank ↦ (
    λ e.
        HasIndex-∷ (phi comment) rest
          ((is_index_static_iff rest).0 (rw (blank, is_index_static) at e)),
    λ h.
        rw (blank, is_index_static)
          ((is_index_static_iff rest).1 (
            HasIndex-tail (phi comment) rest
              (λ other_comment same. let is_blank = (string_eq.beq_iff comment "").0 blank in cc)
              h)),
  )
  | inr named ↦ (
    λ e. (
      comment,
      Memᴰ.head refl,
      λ blank. let is_true = (string_eq.beq_iff comment "").1 blank in cc,
    ),
    λ h. rw (named, is_index_static) refl,
  )
]
is_index_static_iff (if_instr c ∷ rest) =
    HasIndex-skip (if_instr c) rest (λ comment e. cc) (is_index_static_iff rest)
is_index_static_iff (jump ∷ rest) =
    HasIndex-skip jump rest (λ comment e. cc) (is_index_static_iff rest)
is_index_static_iff (debug_ref ∷ rest) =
    HasIndex-skip debug_ref rest (λ comment e. cc) (is_index_static_iff rest)
is_index_static_iff (un_op_instr ops ∷ rest) =
    HasIndex-skip (un_op_instr ops) rest (λ comment e. cc) (is_index_static_iff rest)
is_index_static_iff (other ∷ rest) =
    HasIndex-skip other rest (λ comment e. cc) (is_index_static_iff rest)

-- A loop counts as unsafe unless every branch of its header is on a condition that is not static
-- and the header has an index, a phi with a comment.
pub is_likely_unsafe_iff :
    (blk : BasicBlock)
    → (is_likely_unsafe blk ≡ false) ↔ (All BranchesFairly blk.instrs × HasIndex blk.instrs)
unfolding is_likely_unsafe
is_likely_unsafe_iff blk = elim (Bool-cases (has_unfair_cond blk.instrs)) [
  | inl bad ↦ (
    λ e. let impossible = rw bad at e in cc,
    λ h. let is_false = (has_unfair_cond_iff blk.instrs).1 h.0 in cc,
  )
  | inr ok ↦ (
    λ e. ((has_unfair_cond_iff blk.instrs).0 ok, (is_index_static_iff blk.instrs).0 (rw ok at e)),
    λ h. rw ok ((is_index_static_iff blk.instrs).1 h.1),
  )
]

-- ===== src/Extract/Frames/Params.antt =====
-- The parameters of a callee in cfsmextract/func.go, after the first loop of `translate`.
use dingo_hunter.Prelude.{
  ℕ, suc, zero, ◌≡◌, ◌≢◌, ◌↔◌, ◌<◌, refl, sym, ap, subst, subst₂, arith, none, some, List, [], ◌∷◌,
  nat_eq, option_eq, beq_ne, beq_self, Option-cases, inl, inr, lookup, lookup-insert, get_elem?,
  ◌∙◌, IsDistinct, Memᴰ, length,
}
use dingo_hunter.Ssa.{Value}
use dingo_hunter.Definition.{def_eq}
use dingo_hunter.Extract.State.{Ref, Scope, State}
use dingo_hunter.Extract.Frames.{local_def, share, bind_arg, bind_param, bind_params}

share-locals : (vd : Ref) (s : State) (callee : Scope) → (share vd s callee).locals ≡ callee.locals
unfolding share
share-locals vd s callee = elim (Option-cases (lookup vd s.frame.scope.structs)) [
  | inr (a, e) ↦ ground arith
  | inl e ↦ elim (Option-cases (lookup vd s.frame.scope.arrays)) [
    | inr (a, e') ↦ ground arith
    | inl e' ↦ ground arith
  ]
]

bind_arg-other :
    (p q a : Value) (s : State) (callee : Scope)
    → q ≢ p
    → lookup p (bind_arg q a s callee).locals ≡ lookup p callee.locals
unfolding bind_arg
bind_arg-other p q a s callee differ = elim (Option-cases (lookup a s.frame.scope.locals)) [
  | inl e ↦ ground arith
  | inr (vd, e) ↦ ground (arith, lookup-insert q p vd callee.locals, beq_ne q p differ)
]

bind_arg-own :
    (p a : Value) (s : State) (callee : Scope) (vd : Ref)
    → p ≢ a
    → lookup a s.frame.scope.locals ≡ some vd
    → lookup p (bind_arg p a s callee).locals ≡ some vd
unfolding bind_arg
bind_arg-own p a s callee vd differ found =
    ground (arith, beq_ne p a differ, lookup-insert p p vd callee.locals, beq_self p)

bind_param-other :
    (p q a : Value) (s : State) (callee : Scope)
    → q ≢ p
    → lookup p (bind_param q a s callee).locals ≡ lookup p callee.locals
unfolding bind_param
bind_param-other p q a s callee differ =
    ap (λ m. lookup p m)
      (share-locals (local_def q (bind_arg q a s callee)) s (bind_arg q a s callee))
    ∙ bind_arg-other p q a s callee differ

bind_param-own :
    (p a : Value) (s : State) (callee : Scope) (vd : Ref)
    → p ≢ a
    → lookup a s.frame.scope.locals ≡ some vd
    → lookup p (bind_param p a s callee).locals ≡ some vd
unfolding bind_param
bind_param-own p a s callee vd differ found =
    ap (λ m. lookup p m)
      (share-locals (local_def p (bind_arg p a s callee)) s (bind_arg p a s callee))
    ∙ bind_arg-own p a s callee vd differ found

bind_params-other :
    (p : Value) (ps args : List Value) (s : State) (callee bound : Scope)
    → (¬ Memᴰ p ps)
    → bind_params ps args s callee ≡ some bound
    → lookup p bound.locals ≡ lookup p callee.locals
unfolding bind_params
bind_params-other p [] args s callee bound absent e = ground arith
bind_params-other p (q ∷ ps) [] s callee bound absent e = absurd cc
bind_params-other p (q ∷ ps) (a ∷ args) s callee bound absent e =
    bind_params-other p ps args s (bind_param q a s callee) bound (λ m. absent (Memᴰ.tail m)) e
    ∙ bind_param-other p q a s callee (λ same. absent (Memᴰ.head (sym same)))

-- After the arguments of a call are translated, each parameter has the definition that the caller
-- has for the argument at its position, if the parameters are distinct and the argument is another
-- value than the parameter.
pub bind_params-binds :
    (ps args : List Value) (s : State) (callee bound : Scope) (i : ℕ) (p a : Value) (vd : Ref)
    → IsDistinct ps
    → bind_params ps args s callee ≡ some bound
    → get_elem? ps i ≡ some p
    → get_elem? args i ≡ some a
    → p ≢ a
    → lookup a s.frame.scope.locals ≡ some vd
    → lookup p bound.locals ≡ some vd
unfolding bind_params
bind_params-binds [] args s callee bound i p a vd distinct e at_p at_a differ found = absurd cc
bind_params-binds (q ∷ ps) [] s callee bound i p a vd distinct e at_p at_a differ found = absurd cc
bind_params-binds (q ∷ ps) (b ∷ args) s callee bound zero p a vd (absent, distinct) e at_p at_a
      differ found =
    let here_p : q ≡ p = ground arith in
    let here_a : b ≡ a = ground arith in
    let absent_p : ¬ Memᴰ p ps = subst (λ x. ¬ Memᴰ x ps) here_p absent in
    let differ' : q ≢ b = subst₂ (λ x y. x ≢ y) (sym here_p) (sym here_a) differ in
    let found' : lookup b s.frame.scope.locals ≡ some vd = ground arith in
    bind_params-other p ps args s (bind_param q b s callee) bound absent_p e
    ∙ subst (λ x. lookup x (bind_param q b s callee).locals ≡ some vd) here_p
        (bind_param-own q b s callee vd differ' found')
bind_params-binds (q ∷ ps) (b ∷ args) s callee bound (suc i) p a vd (absent, distinct) e at_p at_a
      differ found =
    bind_params-binds ps args s (bind_param q b s callee) bound i p a vd distinct e at_p at_a differ
      found

-- The translation of arguments fails exactly if there are fewer arguments than parameters.
pub bind_params-fails_iff :
    (ps args : List Value) (s : State) (callee : Scope)
    → (bind_params ps args s callee ≡ none) ↔ (length args < length ps)
unfolding bind_params
bind_params-fails_iff [] args s callee = (λ h. absurd cc, λ h. absurd ground arith)
bind_params-fails_iff (p ∷ ps) [] s callee = (λ h. ground arith, λ h. refl)
bind_params-fails_iff (p ∷ ps) (a ∷ args) s callee =
    let (there, back) = bind_params-fails_iff ps args s (bind_param p a s callee) in
    (λ h. let lt = there h in ground arith, λ h. back (ground arith))

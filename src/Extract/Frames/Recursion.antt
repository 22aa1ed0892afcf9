-- ===== src/Extract/Frames/Recursion.antt =====
-- What `isRecursive` of cfsmextract/func.go detects, and what it does not.
use dingo_hunter.Prelude.{
  ℕ, suc, zero, ◌≡◌, ◌≢◌, ◌↔◌, refl, sym, arith, true, false, Option, none, some, List, [], ◌∷◌,
  ◌==◌, nat_eq, option_eq, Bool-cases, Option-cases, inl, inr, beq_self, beq_ne, option_beq_iff, ap,
  subst, ◌∙◌, lookup, ltb,
}
use dingo_hunter.Ssa.{Value}
use dingo_hunter.Extract.Program.{Program, CallCommon, Instr, call, function}
use dingo_hunter.Extract.State.{Ref, State, Scope, done, out_of_fuel, M, pure, ◌>>=◌, gets, demand}
use dingo_hunter.Extract.Frames.{
  find_frame, all_match, is_recursive, translate, bind_params, capture, bind_captures, new_scope,
}
use dingo_hunter.Extract.Run.{
  in_frame, visit_body, visit_func, return_to, run_callee, call_function, call_common, visit_inst,
  visit_insts, enter_block, visit_block,
}

-- What is found starts with a frame of the function.
find_frame-head :
    (fn : Option ℕ) (callers traceback found : List (Option ℕ))
    → find_frame fn callers ≡ some (traceback, found)
    → (above : List (Option ℕ)) × (found ≡ fn ∷ above)
unfolding find_frame
find_frame-head fn [] traceback found e = absurd cc
find_frame-head fn (f ∷ above) traceback found e = elim (Bool-cases (f == fn)) [
  | inl same ↦ (above, ground (arith, option_beq_iff f fn))
  | inr differ ↦ elim (Option-cases (find_frame fn above)) [
    | inl none_there ↦ absurd ground arith
    | inr ((tb, fd), there) ↦
        let (rest, is) = find_frame-head fn above tb fd there in (rest, ground arith)
  ]
]

-- A frame of another function does not match the frame that was found.
all_match-other :
    (fn f : Option ℕ) (traceback above : List (Option ℕ))
    → (f == fn) ≡ false
    → all_match (f ∷ traceback) (fn ∷ above) ≡ false
unfolding all_match
all_match-other fn f traceback above differ =
    ground (arith, option_beq_iff f fn, option_beq_iff fn f)

is_recursive-direct :
    (fn : Option ℕ) (above : List (Option ℕ)) → is_recursive fn (fn ∷ above) ≡ true
unfolding is_recursive find_frame all_match
is_recursive-direct fn above = ground (arith, beq_self fn)

is_recursive-other :
    (fn f : Option ℕ) (above : List (Option ℕ))
    → (f == fn) ≡ false
    → is_recursive fn (f ∷ above) ≡ false
unfolding is_recursive find_frame
is_recursive-other fn f above differ = elim (Option-cases (find_frame fn above)) [
  | inl none_there ↦ ground arith
  | inr ((tb, fd), there) ↦
      let (rest, is) = find_frame-head fn above tb fd there in
      ground (arith, all_match-other fn f tb rest differ)
]

-- A call is taken for recursive exactly when the calling frame runs the same function: calls that
-- come back through another function are not found, however deep they are.
pub is_recursive_iff :
    (fn : Option ℕ) (callers : List (Option ℕ))
    → (is_recursive fn callers ≡ true) ↔ ((above : List (Option ℕ)) × (callers ≡ fn ∷ above))
unfolding is_recursive find_frame all_match
is_recursive_iff fn [] = (λ h. absurd cc, λ (above, e). absurd cc)
is_recursive_iff fn (f ∷ above) = elim (Bool-cases (f == fn)) [
  | inl same ↦
      let e : f ≡ fn = (option_eq.beq_iff f fn).0 same in
      (
        λ h. (above, ap (λ g. g ∷ above) e),
        λ h. subst (λ g. is_recursive fn (g ∷ above) ≡ true) (sym e) (is_recursive-direct fn above),
      )
  | inr differ ↦ (
    λ h. absurd ground (arith, is_recursive-other fn f above differ),
    λ (rest, e). absurd ground (arith, option_eq.beq_iff f fn),
  )
]

-- The function `f` begins, in its block `blk`, with a call of `g`, which has no parameters and
-- begins with the block `next`.
pub record BeginsWithCall (prog : Program) (f blk g next : ℕ) : Type 0 where
  pub returned : Value
  pub common : CallCommon
  pub rest : List Instr
  pub entered_once : ltb 1 (prog.block blk).preds ≡ false
  pub instrs : (prog.block blk).instrs ≡ call returned common ∷ rest
  pub callee : common.callee ≡ function g
  pub entry : prog.entry g ≡ some next
  pub no_params : prog.params g ≡ []
  pub no_captures : prog.free_vars g ≡ []

bind-out_of_fuel :
    {A B : Type 0} (m : M A) (k : A → M B) (s : State)
    → m s ≡ out_of_fuel
    → (m >>= k) s ≡ out_of_fuel
unfolding ◌>>=◌
bind-out_of_fuel m k s e = rw e refl

bind-done :
    {A B : Type 0} (m : M A) (k : A → M B) (s t : State) (a : A)
    → m s ≡ done (a, t)
    → (m >>= k) s ≡ k a t
unfolding ◌>>=◌
bind-done m k s t a e = rw e refl

capture-nothing : (captures : Option (List Ref)) (sc : Scope) → capture captures [] sc ≡ some sc
unfolding capture bind_captures
capture-nothing none sc = refl
capture-nothing (some captures) sc = refl

callee_scope : ℕ → CallCommon → State → Scope
callee_scope g c s = new_scope (some g) c.results (s.frame.scope.fn ∷ s.frame.scope.callers)

translate-nothing :
    (prog : Program) (g : ℕ) (c : CallCommon) (s : State)
    → prog.params g ≡ []
    → prog.free_vars g ≡ []
    → translate prog g c s ≡ done (callee_scope g c s, s)
unfolding translate bind_params callee_scope ◌>>=◌ gets demand
translate-nothing prog g c s no_params no_captures = rw no_params (
    rw no_captures
      (rw (capture-nothing (lookup c.value s.store.closures) (callee_scope g c s)) refl))

in_frame-out_of_fuel :
    {A : Type 0} (sc : Scope) (m : M A) (s : State)
    → m (record s { frame = record { scope = sc; recvok = [] } }) ≡ out_of_fuel
    → in_frame sc m s ≡ out_of_fuel
unfolding in_frame
in_frame-out_of_fuel sc m s e = rw e refl

visit_func-out_of_fuel :
    (prog : Program) (visit : ℕ → M (Unit {0})) (g next : ℕ) (s : State)
    → prog.entry g ≡ some next
    → visit next s ≡ out_of_fuel
    → visit_func prog visit g s ≡ out_of_fuel
unfolding visit_func visit_body
visit_func-out_of_fuel prog visit g next s entry out =
    rw entry (bind-out_of_fuel (visit next) (λ u. pure true) s out)

-- A call that runs out of fuel.
call-out_of_fuel :
    (prog : Program) (visit : ℕ → M (Unit {0})) (f blk g next : ℕ) (s : State)
    → some f ≢ some g
    → (first : BeginsWithCall prog f blk g next) → s.frame.scope.fn ≡ some f
    → ((t : State) → t.frame.scope.fn ≡ some g → visit next t ≡ out_of_fuel)
    → call_function prog visit first.returned g first.common s ≡ out_of_fuel
unfolding call_function run_callee callee_scope new_scope
call-out_of_fuel prog visit f blk g next s differ first at_f out =
    let sc = callee_scope g first.common s in
    let entered : translate prog g first.common s ≡ done (sc, s) =
      translate-nothing prog g first.common s first.no_params first.no_captures in
    let not_found : is_recursive sc.fn sc.callers ≡ false =
      is_recursive-other (some g) s.frame.scope.fn s.frame.scope.callers
        (beq_ne s.frame.scope.fn (some g) λ e. differ (sym at_f ∙ e)) in
    let frame = record s { frame = record { scope = sc; recvok = [] } } in
    let runs : run_callee prog visit first.returned g sc false s ≡ out_of_fuel =
      bind-out_of_fuel (in_frame sc (visit_func prog visit g))
        (return_to prog visit first.returned g) s
        (in_frame-out_of_fuel sc (visit_func prog visit g) s
          (visit_func-out_of_fuel prog visit g next frame first.entry (out frame refl))) in
    bind-done (translate prog g first.common)
      (λ sc. run_callee prog visit first.returned g sc (is_recursive sc.fn sc.callers)) s s sc
      entered
    ∙ rw not_found runs

-- A block that begins with a call that runs out of fuel.
block-out_of_fuel :
    (prog : Program) (fuel f blk g next : ℕ) (s : State)
    → some f ≢ some g
    → BeginsWithCall prog f blk g next
    → s.frame.scope.fn ≡ some f
    → ((t : State) → t.frame.scope.fn ≡ some g → visit_block prog fuel next t ≡ out_of_fuel)
    → visit_block prog (suc fuel) blk s ≡ out_of_fuel
unfolding visit_block enter_block visit_insts visit_inst call_common
block-out_of_fuel prog fuel f blk g next s differ first at_f out = rw first.entered_once (
    rw first.instrs (
      bind-out_of_fuel
        (call_common prog (visit_block prog fuel) first.returned first.common first.common.callee)
        (λ u. visit_insts prog (visit_block prog fuel) first.rest) s
        (rw first.callee
          (call-out_of_fuel prog (visit_block prog fuel) f blk g next s differ first at_f out))))

-- If a function begins with a call of another function, which begins with a call of the first, and
-- both have no parameters and no captured variables, and begin with a block that has at most one
-- predecessor, then the visit of the first does not end: it runs out of fuel, however much there
-- is.
pub mutual_recursion_diverges :
    (prog : Program) (fuel f blk_f g blk_g : ℕ) (s : State)
    → some f ≢ some g
    → BeginsWithCall prog f blk_f g blk_g
    → BeginsWithCall prog g blk_g f blk_f
    → s.frame.scope.fn ≡ some f
    → visit_block prog fuel blk_f s ≡ out_of_fuel
unfolding visit_block
mutual_recursion_diverges prog zero f blk_f g blk_g s differ calls_g calls_f at_f = refl
mutual_recursion_diverges prog (suc fuel) f blk_f g blk_g s differ calls_g calls_f at_f =
    block-out_of_fuel prog fuel f blk_f g blk_g s differ calls_g at_f λ t at_g.
      mutual_recursion_diverges prog fuel g blk_g f blk_f t (λ e. differ (sym e)) calls_f calls_g
        at_g

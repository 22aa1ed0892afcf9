-- ===== src/Extract/Keeps/Main.antt =====
-- The run of cfsmextract (cfsmextract.go) keeps what the elementary actions keep, from the globals
-- of the program to the last goroutine of the queue.
use dingo_hunter.Prelude.{ℕ, suc, zero, ◌≡◌, refl, Option, none, some, List, [], ◌∷◌}
use dingo_hunter.Ssa.{Value}
use dingo_hunter.Extract.Program.{
  Program, Shape, array_shape, slice_shape, struct_shape, chan_shape, other_shape,
}
use dingo_hunter.Extract.State.{Frame, Goroutine, M}
use dingo_hunter.Extract.Main as Main
use dingo_hunter.Extract.Keeps.{Theory, Keeps, Quiet, Laws, laws_order}
use dingo_hunter.Extract.Keeps.Rules.{
  bind, weaken, returned, quietly, keeps_pure, keeps_throw, quiet_rules,
}
use dingo_hunter.Extract.Keeps.Memory.{keeps_new_elems, keeps_new_fields}
use dingo_hunter.Extract.Keeps.Blocks.{keeps_visit_func}

module _ {T : Theory} ⦃laws : Laws T⦄ where
  keeps_add_global : (empty v : Value) (shape : Shape) → Quiet T (Main.add_global empty v shape)
  unfolding Main.add_global
  keeps_add_global empty v array_shape = search (quiet_rules, keeps_new_elems)
  keeps_add_global empty v struct_shape = search (quiet_rules, keeps_new_fields)
  keeps_add_global empty v chan_shape = search quiet_rules
  keeps_add_global empty v slice_shape = search quiet_rules
  keeps_add_global empty v other_shape = search quiet_rules

  keeps_add_globals :
      (empty : Value) (globals : List (Value × Shape)) → Quiet T (Main.add_globals empty globals)
  unfolding Main.add_globals
  keeps_add_globals empty [] = keeps_pure
  keeps_add_globals empty ((v, shape) ∷ rest) =
      quietly (keeps_add_global empty v shape) λ u. keeps_add_globals empty rest

module _ {T : Theory} ⦃laws : Laws T⦄ (prog : Program) (fuel : ℕ) where
  keeps_run_goroutine : (fn : Option ℕ) → Quiet T (Main.run_goroutine prog fuel fn)
  unfolding Main.run_goroutine
  keeps_run_goroutine none = keeps_throw _
  keeps_run_goroutine (some fn) = quietly (keeps_visit_func prog fuel fn) λ code. laws.on_set_root

  keeps_switch_to :
      (fr : Frame) (g : Goroutine) (rest : List (Frame × Goroutine))
      → Keeps T (λ s. s.go_queue ≡ (fr, g) ∷ rest) (λ u s. Unit) (Main.switch_to fr g rest)
  unfolding Main.switch_to
  keeps_switch_to fr g rest = record {
    at = λ s s' a queue inv e.
        let (inv', later') = laws.on_switch s fr g rest inv queue in
        returned (λ x u. T.Inv u × T.Later s u × Unit {0}) e (inv', later', tt);
  }

  keeps_run_next :
      {again : M (Unit {0})}
      → Quiet T again
      → (queue : List (Frame × Goroutine))
      → Keeps T (λ s. s.go_queue ≡ queue) (λ u s. Unit) (Main.run_next prog fuel again queue)
  unfolding Main.run_next
  keeps_run_next keeps_again [] = weaken keeps_pure
  keeps_run_next keeps_again ((fr, g) ∷ rest) =
      bind (keeps_switch_to fr g rest)
        λ u. quietly (keeps_run_goroutine fr.scope.fn) λ w. keeps_again

  keeps_run_queue : (rounds : ℕ) → Quiet T (Main.run_queue prog fuel rounds)
  unfolding Main.run_queue
  keeps_run_queue zero = record { at = λ s s' a pre inv e. absurd cc }
  keeps_run_queue (suc rounds) = record {
    at = λ s s' a pre inv e.
        (keeps_run_next (keeps_run_queue rounds) s.go_queue).at s s' a refl inv e;
  }

  pub keeps_run :
      (rounds : ℕ) (empty : Value) (globals : List (Value × Shape)) (init : ℕ) (main : Option ℕ)
      → Quiet T (Main.run prog fuel rounds empty globals init main)
  unfolding Main.run
  keeps_run rounds empty globals init main = quietly (keeps_add_globals empty globals) λ u.
      quietly (keeps_visit_func prog fuel init)
        λ code. quietly (keeps_run_goroutine main) λ w. keeps_run_queue rounds

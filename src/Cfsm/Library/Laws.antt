-- ===== src/Cfsm/Library/Laws.antt =====
-- Consequences of the laws of github.com/nickng/cfsm: membership in the states of a machine and in
-- the transitions of a state.
use mathlib.Core.List.Memᴰ
use dingo_hunter.Prelude.{◌≡◌, refl, ◌↔◌, [], Memᴰ, Memᴰ-concat, Bool-cases, ◌⊎◌, inl, inr, arith}
use dingo_hunter.Cfsm.Library.{Cfsm, Action}

module _ (lib : Cfsm) (m : lib.Machine) (w : lib.World) where
  open lib use {State, new_state, add_transition, states, transitions, state_eq}

  pub mem-states-new_state :
      (p : State)
      → Memᴰ p (states (new_state m w).1 m) ↔ (Memᴰ p (states w m) ⊎ (p ≡ (new_state m w).0))
  mem-states-new_state p =
      rw (lib.states-new_state m w) (Memᴰ-concat p (new_state m w).0 (states w m))

  pub mem-transitions-new_state :
      (p : State) (t : Action lib.Machine × State)
      → Memᴰ t (transitions (new_state m w).1 p)
      → Memᴰ t (transitions w p) × ¬ ((new_state m w).0 ≡ p)
  mem-transitions-new_state p t h = elim (Bool-cases (state_eq.beq (new_state m w).0 p)) [
    | inl same ↦ absurd (Memᴰ.not-nil (rw (lib.transitions-new_state m w p, same) at h))
    | inr differ ↦ (
      rw (lib.transitions-new_state m w p, differ) at h,
      λ e. ground (arith, state_eq.beq_iff (new_state m w).0 p),
    )
  ]

  pub transitions_of_other :
      (p : State) → ¬ ((new_state m w).0 ≡ p) → transitions (new_state m w).1 p ≡ transitions w p
  transitions_of_other p differ =
      ground (arith, state_eq.beq_iff (new_state m w).0 p, lib.transitions-new_state m w p)

  pub transitions_of_new : transitions (new_state m w).1 (new_state m w).0 ≡ []
  transitions_of_new =
      let q = (new_state m w).0 in
      ground (arith, state_eq.beq_iff q q, lib.transitions-new_state m w q)

module _ (lib : Cfsm) (q r : lib.State) (a : Action lib.Machine) (w : lib.World) where
  open lib use {State, add_transition, transitions, state_eq}

  pub mem-add_transition :
      (p : State) (t : Action lib.Machine × State)
      → Memᴰ t (transitions (add_transition q a r w) p)
        ↔ (Memᴰ t (transitions w p) ⊎ (p ≡ q) × (t ≡ (a, r)))
  mem-add_transition p t = elim (Bool-cases (state_eq.beq q p)) [
    | inl same ↦
        let e : q ≡ p = (state_eq.beq_iff q p).0 same in
        let concat = Memᴰ-concat t (a, r) (transitions w p) in
        rw (lib.transitions-add_transition q a r w p, same, e)
          (
            λ h. elim (concat.0 h) [ inl old ↦ inl old | inr new ↦ inr (refl, new) ],
            λ c. concat.1 (elim c [ inl old ↦ inl old | inr (_, new) ↦ inr new ]),
          )
    | inr differ ↦
        rw (lib.transitions-add_transition q a r w p, differ)
          (inl, λ c. elim c [ inl old ↦ old | inr (e, _) ↦ ground (arith, state_eq.beq_iff q p) ])
  ]

  pub transitions_of_source :
      (p : State) → ¬ (q ≡ p) → transitions (add_transition q a r w) p ≡ transitions w p
  transitions_of_source p differ =
      ground (arith, state_eq.beq_iff q p, lib.transitions-add_transition q a r w p)

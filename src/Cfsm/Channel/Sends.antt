-- ===== src/Cfsm/Channel/Sends.antt =====
-- The inner loops of `chanToMachine` (cfsmextract/sesstype/cfsm.go): the sends to the other roles.
use mathlib.Core.List.Memᴰ
use dingo_hunter.Prelude.{
  ℕ, String, ◌≡◌, refl, ◌∙◌, subst, ◌≢◌, ◌↔◌, ◌⊎◌, inl, inr, List, [], ◌∷◌, Memᴰ, ◌==◌, nat_eq,
  Bool-cases, arith,
}
use dingo_hunter.Cfsm.Library.{Cfsm, Action, send}
use dingo_hunter.Cfsm.Library.Laws.{mem-add_transition, transitions_of_source}
use dingo_hunter.Cfsm.Channel.{send_others}

module _ (lib : Cfsm) (m : lib.Machine) where
  open lib use {World, State, Machine, new_state, add_transition, states, transitions, machine_id}

  -- The send of `msg` to a machine of the list whose identifier is not `i`.
  abbrev pub Sends :
      (Machine → ℕ) → ℕ → String → State → List Machine → Action Machine × State → Type 0
  Sends ids i msg r ps t = (p2 : Machine) × Memᴰ p2 ps × (i ≢ ids p2) × (t ≡ (send p2 msg, r))

  -- What `send_others` does to the memory.
  pub record Sent (ids : Machine → ℕ) (p : Machine) (msg : String) (q r : State) (ps : List Machine)
      (w w' : World) : Type 0 where
    pub same_states : states w' m ≡ states w m
    pub same_ids : (p2 : Machine) → machine_id w' p2 ≡ ids p2
    pub frame : (s : State) → ¬ (q ≡ s) → transitions w' s ≡ transitions w s
    pub gains :
        (t : Action Machine × State)
        → Memᴰ t (transitions w' q) ↔ (Memᴰ t (transitions w q) ⊎ Sends ids (ids p) msg r ps t)

  Sends-cons :
      (ids : Machine → ℕ) (i : ℕ) (msg : String) (r : State) (p2 : Machine) (ps : List Machine)
      (t : Action Machine × State)
      → Sends ids i msg r (p2 ∷ ps) t
        ↔ ((i ≢ ids p2) × (t ≡ (send p2 msg, r)) ⊎ Sends ids i msg r ps t)
  Sends-cons ids i msg r p2 ps t = (
    λ (p3, k, ne, e). elim (Memᴰ.cases_cons k) [
      | inl same ↦ inl (subst (λ x. i ≢ ids x) same ne, subst (λ x. t ≡ (send x msg, r)) same e)
      | inr later ↦ inr (p3, later, ne, e)
    ],
    λ c. elim c [
      | inl (ne, e) ↦ (p2, Memᴰ.head refl, ne, e)
      | inr (p3, k, ne, e) ↦ (p3, Memᴰ.tail k, ne, e)
    ],
  )

  -- The machine at the head is the sender itself: nothing is added for it.
  Sent-skip :
      (ids : Machine → ℕ) (p p2 : Machine) (msg : String) (q r : State) (ps : List Machine)
      (w w' : World)
      → ids p ≡ ids p2
      → Sent ids p msg q r ps w w'
      → Sent ids p msg q r (p2 ∷ ps) w w'
  Sent-skip ids p p2 msg q r ps w w' equal ih = record {
    same_states = ih.same_states;
    same_ids = ih.same_ids;
    frame = ih.frame;
    gains = λ t.
        let split = Sends-cons ids (ids p) msg r p2 ps t in
        (
          λ k. elim ((ih.gains t).0 k) [ inl old ↦ inl old | inr new ↦ inr (split.1 (inr new)) ],
          λ c. (ih.gains t).1 (elim c [
            | inl old ↦ inl old
            | inr new ↦ elim (split.0 new) [
              | inl (ne, _) ↦ absurd (ne equal)
              | inr later ↦ inr later
            ]
          ]),
        );
  }

  -- The machine at the head is another: it gains a send.
  Sent-add :
      (ids : Machine → ℕ) (p p2 : Machine) (msg : String) (q r : State) (ps : List Machine)
      (w w' : World)
      → ids p ≢ ids p2
      → Sent ids p msg q r ps (add_transition q (send p2 msg) r w) w'
      → Sent ids p msg q r (p2 ∷ ps) w w'
  Sent-add ids p p2 msg q r ps w w' unequal ih = record {
    same_states = ih.same_states ∙ lib.states-add_transition m q (send p2 msg) r w;
    same_ids = ih.same_ids;
    frame = λ s ne. ih.frame s ne ∙ transitions_of_source lib q r (send p2 msg) w s ne;
    gains = λ t.
        let split = Sends-cons ids (ids p) msg r p2 ps t in
        let added = mem-add_transition lib q r (send p2 msg) w q t in
        (
          λ k. elim ((ih.gains t).0 k) [
            | inl before ↦ elim (added.0 before) [
              | inl old ↦ inl old
              | inr (_, e) ↦ inr (split.1 (inl (unequal, e)))
            ]
            | inr new ↦ inr (split.1 (inr new))
          ],
          λ c. (ih.gains t).1 (elim c [
            | inl old ↦ inl (added.1 (inl old))
            | inr new ↦ elim (split.0 new) [
              | inl (_, e) ↦ inl (added.1 (inr (refl, e)))
              | inr later ↦ inr later
            ]
          ]),
        );
  }

  pub send_others-Sent :
      (ids : Machine → ℕ) (p : Machine) (msg : String) (q r : State) (ps : List Machine) (w : World)
      → ((p2 : Machine) → machine_id w p2 ≡ ids p2)
      → Sent ids p msg q r ps w (send_others lib m p msg q r ps w)
  unfolding send_others
  send_others-Sent ids p msg q r [] w h = record {
    same_states = refl;
    same_ids = h;
    frame = λ s ne. refl;
    gains = λ t. (inl, λ c. elim c [ inl old ↦ old | inr (p2, k, _, _) ↦ absurd (Memᴰ.not-nil k) ]);
  }
  send_others-Sent ids p msg q r (p2 ∷ ps) w h =
      elim (Bool-cases (machine_id w p == machine_id w p2)) [
        | inl same ↦ rw same (
            Sent-skip ids p p2 msg q r ps w (send_others lib m p msg q r ps w)
              (ground (arith, h p, h p2)) (send_others-Sent ids p msg q r ps w h))
        | inr differ ↦
            let w1 = add_transition q (send p2 msg) r w in
            let later =
              λ (p3 : Machine). lib.machine_id-add_transition q (send p2 msg) r w p3 ∙ h p3 in
            rw differ (
              Sent-add ids p p2 msg q r ps w (send_others lib m p msg q r ps w1)
                (λ e. ground (arith, h p, h p2)) (send_others-Sent ids p msg q r ps w1 later))
      ]

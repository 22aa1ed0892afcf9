-- ===== src/Cfsm/Channel/Served.antt =====
-- One round of the outer loop of `chanToMachine` (cfsmextract/sesstype/cfsm.go).
use mathlib.Core.List.Memᴰ
use dingo_hunter.Prelude.{
  ℕ, String, ◌≡◌, refl, sym, ◌∙◌, subst, ◌≢◌, ◌↔◌, ◌⊎◌, inl, inr, List, [], Memᴰ,
}
use dingo_hunter.Cfsm.Library.{Cfsm, Action, recv}
use dingo_hunter.Cfsm.Library.Laws.{
  mem-states-new_state, mem-add_transition, transitions_of_other, transitions_of_new,
  transitions_of_source,
}
use dingo_hunter.Cfsm.Machine.{stop_message}
use dingo_hunter.Cfsm.Channel.{send_others, serve}
use dingo_hunter.Cfsm.Channel.Sends.{Sends, Sent, send_others-Sent}

module _ (lib : Cfsm) (m : lib.Machine) where
  open lib use {World, State, Machine, new_state, add_transition, states, transitions, machine_id}

  -- What a round for `p` does: a new state that relays to the others, and a receive that leads to it.
  pub record Served (ids : Machine → ℕ) (t : String) (q0 q_end : State) (roles : List Machine)
      (p : Machine) (w w' : World) : Type 0 where
    pub q1 : State
    pub same_ids : (p2 : Machine) → machine_id w' p2 ≡ ids p2
    pub grows : (s : State) → Memᴰ s (states w m) → Memᴰ s (states w' m)
    pub new_known : Memᴰ q1 (states w' m)
    pub other : (s : State) → Memᴰ s (states w m) → q1 ≢ s
    pub frame :
        (s : State) → Memᴰ s (states w m) → q0 ≢ s → q_end ≢ s → transitions w' s ≡ transitions w s
    pub receives :
        (x : Action Machine × State)
        → Memᴰ x (transitions w' q0) ↔ (Memᴰ x (transitions w q0) ⊎ (x ≡ (recv p t, q1)))
    pub relays :
        (x : Action Machine × State)
        → Memᴰ x (transitions w' q1) ↔ Sends lib m ids (ids p) t q0 roles x

  module _ (ids : Machine → ℕ) (t : String) (q0 q_end : State) (roles : List Machine) (p : Machine)
      (w : World) (same : (p2 : Machine) → machine_id w p2 ≡ ids p2)
      (start_known : Memᴰ q0 (states w m)) (end_known : Memᴰ q_end (states w m))
      (apart : q0 ≢ q_end) where
    abbrev q1 : State
    q1 = (new_state m w).0

    abbrev w1 : World
    w1 = (new_state m w).1

    abbrev w2 : World
    w2 = add_transition q0 (recv p t) q1 w1

    abbrev w3 : World
    w3 = send_others lib m p t q1 q0 roles w2

    abbrev w4 : World
    w4 = add_transition q_end (recv p stop_message) q_end w3

    abbrev w5 : World
    w5 = send_others lib m p stop_message q_end q_end roles w4

    fresh : (s : State) → Memᴰ s (states w m) → q1 ≢ s
    fresh s k e = lib.new_state_fresh m w (subst (λ x. Memᴰ x (states w m)) (sym e) k)

    ids2 : (p2 : Machine) → machine_id w2 p2 ≡ ids p2
    ids2 p2 =
        lib.machine_id-add_transition q0 (recv p t) q1 w1 p2
        ∙ lib.machine_id-new_state m w p2
        ∙ same p2

    sent3 : Sent lib m ids p t q1 q0 roles w2 w3
    sent3 = send_others-Sent lib m ids p t q1 q0 roles w2 ids2

    ids4 : (p2 : Machine) → machine_id w4 p2 ≡ ids p2
    ids4 p2 =
        lib.machine_id-add_transition q_end (recv p stop_message) q_end w3 p2 ∙ sent3.same_ids p2

    sent5 : Sent lib m ids p stop_message q_end q_end roles w4 w5
    sent5 = send_others-Sent lib m ids p stop_message q_end q_end roles w4 ids4

    states5 : states w5 m ≡ states w1 m
    states5 =
        sent5.same_states
        ∙ lib.states-add_transition m q_end (recv p stop_message) q_end w3
        ∙ sent3.same_states
        ∙ lib.states-add_transition m q0 (recv p t) q1 w1

    -- The last part of the round changes `q_end` alone.
    closing : (s : State) → q_end ≢ s → transitions w5 s ≡ transitions w3 s
    closing s ne =
        sent5.frame s ne ∙ transitions_of_source lib q_end q_end (recv p stop_message) w3 s ne

    start5 : transitions w5 q0 ≡ transitions w2 q0
    start5 = closing q0 (λ e. apart (sym e)) ∙ sent3.frame q0 (fresh q0 start_known)

    middle2 : transitions w2 q1 ≡ []
    middle2 =
        transitions_of_source lib q0 q1 (recv p t) w1 q1 (λ e. fresh q0 start_known (sym e))
        ∙ transitions_of_new lib m w

    receives5 :
        (x : Action Machine × State)
        → Memᴰ x (transitions w5 q0) ↔ (Memᴰ x (transitions w q0) ⊎ (x ≡ (recv p t, q1)))
    receives5 x =
        let added = mem-add_transition lib q0 q1 (recv p t) w1 q0 x in
        let before = transitions_of_other lib m w q0 (fresh q0 start_known) in
        rw start5 (
          λ h. elim (added.0 h) [ inl old ↦ inl (subst (Memᴰ x) before old) | inr (_, e) ↦ inr e ],
          λ c.
              added.1 (elim c [
                | inl old ↦ inl (subst (Memᴰ x) (sym before) old)
                | inr e ↦ inr (refl, e)
              ]),
        )

    relays5 :
        (x : Action Machine × State)
        → Memᴰ x (transitions w5 q1) ↔ Sends lib m ids (ids p) t q0 roles x
    relays5 x = rw (closing q1 (λ e. fresh q_end end_known (sym e))) (
      λ h. elim ((sent3.gains x).0 h) [
        | inl old ↦ absurd (Memᴰ.not-nil (subst (Memᴰ x) middle2 old))
        | inr new ↦ new
      ],
      λ new. (sent3.gains x).1 (inr new),
    )

    pub serve-Served : Served ids t q0 q_end roles p w (serve lib m t q0 q_end roles p w)
    unfolding serve
    serve-Served = record {
      q1 = q1;
      same_ids = sent5.same_ids;
      grows = λ s k. subst (Memᴰ s) (sym states5) ((mem-states-new_state lib m w s).1 (inl k));
      new_known = subst (Memᴰ q1) (sym states5) ((mem-states-new_state lib m w q1).1 (inr refl));
      other = fresh;
      frame = λ s k ne0 ne1.
          closing s ne1
          ∙ sent3.frame s (fresh s k)
          ∙ transitions_of_source lib q0 q1 (recv p t) w1 s ne0
          ∙ transitions_of_other lib m w s (fresh s k);
      receives = receives5;
      relays = relays5;
    }

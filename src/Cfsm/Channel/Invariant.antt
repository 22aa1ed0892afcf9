-- ===== src/Cfsm/Channel/Invariant.antt =====
-- What holds of the machine of a channel between two rounds of the outer loop of `chanToMachine`
-- (cfsmextract/sesstype/cfsm.go).
use mathlib.Core.List.Memᴰ
use dingo_hunter.Prelude.{
  ℕ, String, ◌≡◌, refl, sym, ◌∙◌, subst, ◌≢◌, ◌↔◌, ◌⊎◌, inl, inr, List, [], ◌∷◌, Memᴰ, arith,
}
use dingo_hunter.Cfsm.Library.{Cfsm, Action, recv}
use dingo_hunter.Cfsm.Library.Laws.{mem-states-new_state, transitions_of_other, transitions_of_new}
use dingo_hunter.Cfsm.Channel.{serve, serve_all}
use dingo_hunter.Cfsm.Channel.Sends.{Sends}
use dingo_hunter.Cfsm.Channel.Served.{Served, serve-Served}

module _ (lib : Cfsm) (m : lib.Machine) where
  open lib use {World, State, Machine, new_state, add_transition, states, transitions, machine_id}

  module _ (ids : Machine → ℕ) (t : String) (q0 q_end : State) (roles : List Machine) where
    -- The state in which a message of `p` waits.
    pub record Mid (w : World) (p : Machine) (r : State) : Type 0 where
      pub known : Memᴰ r (states w m)
      pub not_start : q0 ≢ r
      pub not_end : q_end ≢ r
      pub relays :
          (x : Action Machine × State)
          → Memᴰ x (transitions w r) ↔ Sends lib m ids (ids p) t q0 roles x

    -- The roles of `P` are served.
    pub record Inv (P : Machine → Type 0) (w : World) : Type 0 where
      pub same_ids : (p2 : Machine) → machine_id w p2 ≡ ids p2
      pub start_known : Memᴰ q0 (states w m)
      pub end_known : Memᴰ q_end (states w m)
      pub sound :
          (a : Action Machine) (r : State)
          → Memᴰ (a, r) (transitions w q0)
          → (p : Machine) × P p × (a ≡ recv p t) × Mid w p r
      pub complete :
          (p : Machine) → P p → (r : State) × Memᴰ (recv p t, r) (transitions w q0) × Mid w p r

    Mid-later :
        {w w' : World} {p p2 : Machine} {r : State}
        → Served lib m ids t q0 q_end roles p2 w w'
        → Mid w p r
        → Mid w' p r
    Mid-later {r} h mid = record {
      known = h.grows r mid.known;
      not_start = mid.not_start;
      not_end = mid.not_end;
      relays = λ x. rw (h.frame r mid.known mid.not_start mid.not_end) (mid.relays x);
    }

    Mid-new :
        {w w' : World} {p : Machine}
        → Memᴰ q0 (states w m)
        → Memᴰ q_end (states w m)
        → (h : Served lib m ids t q0 q_end roles p w w') → Mid w' p h.q1
    Mid-new start_known end_known h = record {
      known = h.new_known;
      not_start = λ e. h.other q0 start_known (sym e);
      not_end = λ e. h.other q_end end_known (sym e);
      relays = h.relays;
    }

    Inv-Served :
        (P : Machine → Type 0) (p : Machine) (w w' : World)
        → Inv P w
        → Served lib m ids t q0 q_end roles p w w'
        → Inv (λ x. P x ⊎ (x ≡ p)) w'
    Inv-Served P p w w' inv h = record {
      same_ids = h.same_ids;
      start_known = h.grows q0 inv.start_known;
      end_known = h.grows q_end inv.end_known;
      sound = λ a r k. elim ((h.receives (a, r)).0 k) [
        | inl old ↦
            let (p2, served, e, mid) = inv.sound a r old in (p2, inl served, e, Mid-later h mid)
        | inr e ↦
            let to : h.q1 ≡ r = ground arith in
            let label : a ≡ recv p t = ground arith in
            (p, inr refl, label, subst (Mid w' p) to (Mid-new inv.start_known inv.end_known h))
      ];
      complete = λ p2 c. elim c [
        | inl served ↦
            let (r, k, mid) = inv.complete p2 served in
            (r, (h.receives (recv p2 t, r)).1 (inl k), Mid-later h mid)
        | inr e ↦
            let is_new : (recv p2 t, h.q1) ≡ (recv p t, h.q1) = ground arith in
            (
              h.q1,
              (h.receives (recv p2 t, h.q1)).1 (inr is_new),
              subst (λ x. Mid w' x h.q1) (sym e) (Mid-new inv.start_known inv.end_known h),
            )
      ];
    }

    pub Inv-iff :
        (P Q : Machine → Type 0) {w : World} → ((p : Machine) → P p ↔ Q p) → Inv P w → Inv Q w
    Inv-iff P Q same inv = record {
      same_ids = inv.same_ids;
      start_known = inv.start_known;
      end_known = inv.end_known;
      sound = λ a r k. let (p, served, e, mid) = inv.sound a r k in (p, (same p).0 served, e, mid);
      complete = λ p served. inv.complete p ((same p).1 served);
    }

    pub Inv-serve_all :
        (P : Machine → Type 0) (ps : List Machine) (w : World)
        → q0 ≢ q_end
        → Inv P w
        → Inv (λ x. P x ⊎ Memᴰ x ps) (serve_all lib m t q0 q_end roles ps w)
    unfolding serve_all
    Inv-serve_all P [] w apart inv =
        Inv-iff P (λ x. P x ⊎ Memᴰ x [])
          (λ x. (inl, λ c. elim c [ inl h ↦ h | inr k ↦ absurd (Memᴰ.not-nil k) ])) inv
    Inv-serve_all P (p ∷ ps) w apart inv =
        let served =
          serve-Served lib m ids t q0 q_end roles p w inv.same_ids inv.start_known inv.end_known
            apart in
        let one = Inv-Served P p w (serve lib m t q0 q_end roles p w) inv served in
        Inv-iff (λ x. (P x ⊎ (x ≡ p)) ⊎ Memᴰ x ps) (λ x. P x ⊎ Memᴰ x (p ∷ ps))
          (λ x. (
            λ c. elim c [
              | inl (inl h) ↦ inl h
              | inl (inr e) ↦ inr (Memᴰ.head e)
              | inr k ↦ inr (Memᴰ.tail k)
            ],
            λ c. elim c [
              | inl h ↦ inl (inl h)
              | inr k ↦ elim (Memᴰ.cases_cons k) [ inl e ↦ inl (inr e) | inr later ↦ inr later ]
            ],
          ))
          (Inv-serve_all (λ x. P x ⊎ (x ≡ p)) ps (serve lib m t q0 q_end roles p w) apart one)

    pub Inv-set_start :
        (P : Machine → Type 0) (q : State) (w : World) → Inv P w → Inv P (lib.set_start m q w)
    Inv-set_start P q w inv =
        let same = λ (s : State). lib.transitions-set_start m q w s in
        let kept = lib.states-set_start m q w in
        let carry : (p : Machine) (r : State) → Mid w p r → Mid (lib.set_start m q w) p r =
          λ p r mid. record {
            known = rw kept mid.known;
            not_start = mid.not_start;
            not_end = mid.not_end;
            relays = λ x. rw (same r) (mid.relays x);
          } in
        record {
          same_ids = λ p. lib.machine_id-set_start m q w p ∙ inv.same_ids p;
          start_known = rw kept inv.start_known;
          end_known = rw kept inv.end_known;
          sound = λ a r k.
              let (p, served, e, mid) = inv.sound a r (subst (Memᴰ (a, r)) (same q0) k) in
              (p, served, e, carry p r mid);
          complete = λ p served.
              let (r, k, mid) = inv.complete p served in
              (r, subst (Memᴰ (recv p t, r)) (sym (same q0)) k, carry p r mid);
        }

  -- Before the first round there are two states with no transitions.
  pub Inv-start :
      (t : String) (roles : List Machine) (w : World)
      → let (q0, w1) = new_state m w in
        let (q_end, w2) = new_state m w1 in
        (q0 ≢ q_end) × Inv (machine_id w) t q0 q_end roles (λ p. ⊥) w2
  Inv-start t roles w =
      let (q0, w1) = new_state m w in
      let (q_end, w2) = new_state m w1 in
      let first : Memᴰ q0 (states w1 m) = (mem-states-new_state lib m w q0).1 (inr refl) in
      let apart : q_end ≢ q0 =
        λ e. lib.new_state_fresh m w1 (subst (λ x. Memᴰ x (states w1 m)) (sym e) first) in
      let none_yet : transitions w2 q0 ≡ [] =
        transitions_of_other lib m w1 q0 apart ∙ transitions_of_new lib m w in
      (
        λ e. apart (sym e),
        record {
          same_ids = λ p. lib.machine_id-new_state m w1 p ∙ lib.machine_id-new_state m w p;
          start_known = (mem-states-new_state lib m w1 q0).1 (inl first);
          end_known = (mem-states-new_state lib m w1 q_end).1 (inr refl);
          sound = λ a r k. absurd (Memᴰ.not-nil (subst (Memᴰ (a, r)) none_yet k));
          complete = λ p none. absurd none;
        },
      )

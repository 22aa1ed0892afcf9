-- ===== src/Cfsm/Channel/Relay.antt =====
-- The machine that `chanToMachine` (cfsmextract/sesstype/cfsm.go) makes of a channel: what it
-- relays, and what becomes of the close message.
use dingo_hunter.Prelude.{
  ℕ, String, ◌≡◌, refl, sym, subst, subst₂, ◌≢◌, ◌↔◌, ◌⊎◌, inl, inr, some, List, [], ◌∷◌, Memᴰ,
  arith,
}
use dingo_hunter.Cfsm.Library.{Cfsm, Action, send, recv}
use dingo_hunter.Cfsm.Machine.Semantics.{Run, halt, move}
use dingo_hunter.Cfsm.Machine.Acyclic.{Walk, stay, go}
use dingo_hunter.Cfsm.Channel.{serve_all, chan_to_machine}
use dingo_hunter.Cfsm.Channel.Invariant.{Mid, Inv-iff, Inv, Inv-set_start, Inv-serve_all, Inv-start}

-- A one-place buffer: what is received from one role is sent on to another, before the next.
abbrev pub Relays : {M : Type 0} → (M → ℕ) → String → List M → List (Action M) → Type 0
Relays ids t roles [] = Unit
Relays ids t roles (recv p x ∷ []) = Memᴰ p roles × (x ≡ t)
Relays ids t roles (recv p x ∷ send p2 y ∷ rest) =
    (Memᴰ p roles × (x ≡ t))
    × (Memᴰ p2 roles × (ids p ≢ ids p2) × (y ≡ t))
    × Relays ids t roles rest
Relays ids t roles word = ⊥

module _ (lib : Cfsm) (m : lib.Machine) where
  open lib use {World, State, Machine, new_state, transitions, machine_id}

  module _ (ids : Machine → ℕ) (t : String) (q0 q_end : State) (roles : List Machine) (w : World)
      (inv : Inv lib m ids t q0 q_end roles (λ p. Memᴰ p roles) w) where
    Run-Relays : (word : List (Action Machine)) → Run lib w q0 word → Relays ids t roles word
    Run-Relays [] run = tt
    Run-Relays (a ∷ []) (move {r} k run) =
        let (p, served, e, mid) = inv.sound a r k in
        subst (λ x. Relays ids t roles (x ∷ [])) (sym e) (served, refl)
    Run-Relays (a ∷ b ∷ rest) (move {r} k (move {r = s} k2 run)) =
        let (p, served, e, mid) = inv.sound a r k in
        let (p2, served2, ne, sent) = (mid.relays (b, s)).0 k2 in
        let label : b ≡ send p2 t = ground arith in
        let to : s ≡ q0 = ground arith in
        subst₂ (λ x y. Relays ids t roles (x ∷ y ∷ rest)) (sym e) (sym label)
          (
            (served, refl),
            (served2, ne, refl),
            Run-Relays rest (subst (λ x. Run lib w x rest) to run),
          )

    Relays-Run : (word : List (Action Machine)) → Relays ids t roles word → Run lib w q0 word
    Relays-Run [] h = halt
    Relays-Run (recv p x ∷ []) (k, e) =
        let (r, kr, mid) = inv.complete p k in
        move (subst (λ y. Memᴰ (recv p y, r) (transitions w q0)) (sym e) kr) halt
    Relays-Run (recv p x ∷ send p2 y ∷ rest) ((k, e), (k2, ne, e2), h) =
        let (r, kr, mid) = inv.complete p k in
        let sent = (mid.relays (send p2 t, q0)).1 (p2, k2, ne, refl) in
        move (subst (λ z. Memᴰ (recv p z, r) (transitions w q0)) (sym e) kr) (
          move (subst (λ z. Memᴰ (send p2 z, q0) (transitions w r)) (sym e2) sent)
            (Relays-Run rest h))
    Relays-Run word h = absurd h

    -- From the start every state on the way is the start, or holds a message.
    reach :
        {r : State}
        → Walk lib w q0 r
        → (r ≡ q0) ⊎ ((p : Machine) × Mid lib m ids t q0 q_end roles w p r)
    reach stay = inl refl
    reach (go {r} {s} a walk k) = elim (reach walk) [
      | inl e ↦
          let (p, served, label, mid) =
            inv.sound a s (subst (λ x. Memᴰ (a, s) (transitions w x)) e k) in
          inr (p, mid)
      | inr (p, mid) ↦ let (p2, served, ne, sent) = (mid.relays (a, s)).0 k in inl (ground arith)
    ]

    end_unreached : q0 ≢ q_end → ¬ Walk lib w q0 q_end
    end_unreached apart walk = elim (reach walk) [
      | inl e ↦ apart (sym e)
      | inr (p, mid) ↦ mid.not_end refl
    ]

  served_all :
      (t : String) (roles : List Machine) (w : World)
      → let (q0, w1) = new_state m w in
        let (q_end, w2) = new_state m w1 in
        Inv lib m
          (machine_id w)
          t
          q0
          q_end
          roles
          (λ p. Memᴰ p roles)
          (chan_to_machine lib m t roles w)
  unfolding chan_to_machine
  served_all t roles w =
      let (q0, w1) = new_state m w in
      let (q_end, w2) = new_state m w1 in
      let (apart, first) = Inv-start lib m t roles w in
      let last =
        Inv-serve_all lib m (machine_id w) t q0 q_end roles (λ p. ⊥) roles w2 apart first in
      let all =
        Inv-iff lib m (machine_id w) t q0 q_end roles (λ p. ⊥ ⊎ Memᴰ p roles) (λ p. Memᴰ p roles)
          (λ p. (λ c. elim c [ inl none ↦ absurd none | inr k ↦ k ], inr)) last in
      Inv-set_start lib m (machine_id w) t q0 q_end roles (λ p. Memᴰ p roles) q0
        (serve_all lib m t q0 q_end roles roles w2) all

-- The machine made for a channel is a one-place buffer between the roles: from its start, which is
-- the first state made, its runs are exactly those that receive a message of the payload type from
-- a role, then send it to a role with another identifier, then go on like that.
pub chan_to_machine-Relays :
    (lib : Cfsm) (m : lib.Machine) (t : String) (roles : List lib.Machine) (w : lib.World)
    → (lib.start (chan_to_machine lib m t roles w) m ≡ some (lib.new_state m w).0)
      × ((word : List (Action lib.Machine))
          → Run lib (chan_to_machine lib m t roles w) (lib.new_state m w).0 word
            ↔ Relays (lib.machine_id w) t roles word)
unfolding chan_to_machine
chan_to_machine-Relays lib m t roles w =
    let (q0, w1) = lib.new_state m w in
    let (q_end, w2) = lib.new_state m w1 in
    let inv = served_all lib m t roles w in
    let v = chan_to_machine lib m t roles w in
    (
      lib.start-set_start m q0 (serve_all lib m t q0 q_end roles roles w2),
      λ word. (
        Run-Relays lib m (lib.machine_id w) t q0 q_end roles v inv word,
        Relays-Run lib m (lib.machine_id w) t q0 q_end roles v inv word,
      ),
    )

-- The second state made for a channel, to which the close message is meant to lead, cannot be
-- reached from the start.
pub end_state_unreachable :
    (lib : Cfsm) (m : lib.Machine) (t : String) (roles : List lib.Machine) (w : lib.World)
    → ¬ Walk lib
        (chan_to_machine lib m t roles w)
        (lib.new_state m w).0
        (lib.new_state m (lib.new_state m w).1).0
end_state_unreachable lib m t roles w =
    let (q0, w1) = lib.new_state m w in
    let (q_end, w2) = lib.new_state m w1 in
    end_unreached lib m (lib.machine_id w) t q0 q_end roles (chan_to_machine lib m t roles w)
      (served_all lib m t roles w) (Inv-start lib m t roles w).0

-- ===== src/Tests/Memory.antt =====
-- A memory that meets the interface of github.com/nickng/cfsm in Cfsm/Library: machines and states
-- are numbered, and a state is the pair of its machine and its number.
use mathlib.Core.List.Memᴰ
use dingo_hunter.Prelude.{
  ℕ, zero, suc, ◌<◌, ◌≡◌, refl, ◌↔◌, Bool, true, ◌&&◌, Option, none, some, List, [], ◌∷◌, ◌++◌,
  Memᴰ, Memᴰ-concat, nat_beq, nat_beq_iff, if◌then◌else◌, arith, inl, inr,
}
use dingo_hunter.Cfsm.Library.{Cfsm, Action}

abbrev pub Point : Type 0
Point = ℕ × ℕ

abbrev pub point_beq : Point → Point → Bool
point_beq (a, b) (c, d) = nat_beq a c && nat_beq b d

pub point_beq_iff : (p q : Point) → (point_beq p q ≡ true) ↔ (p ≡ q)
point_beq_iff (a, b) (c, d) = ground (arith, nat_beq_iff a c, nat_beq_iff b d)

pub record Memory : Type 0 where
  pub counts : ℕ → ℕ
  pub edges : Point → List (Action ℕ × Point)
  pub starts : ℕ → Option Point

abbrev pub empty : Memory
empty = record { counts = λ m. 0; edges = λ p. []; starts = λ m. none }

abbrev pub new_point : ℕ → Memory → Point × Memory
new_point m w = (
  (m, w.counts m),
  record w {
    counts = λ k. if nat_beq k m then suc (w.counts m) else w.counts k;
    edges = λ p. if point_beq (m, w.counts m) p then [] else w.edges p;
  },
)

abbrev pub add_edge : Point → Action ℕ → Point → Memory → Memory
add_edge q a r w = record w {
  edges = λ p. if point_beq q p then w.edges q ++ (a, r) ∷ [] else w.edges p;
}

abbrev pub upto : ℕ → ℕ → List Point
upto m zero = []
upto m (suc n) = upto m n ++ (m, n) ∷ []

upto-lt : (m k n : ℕ) → Memᴰ (m, k) (upto m n) → k < n
upto-lt m k zero h = absurd (Memᴰ.not-nil h)
upto-lt m k (suc n) h = elim ((Memᴰ-concat (m, k) (m, n) (upto m n)).0 h) [
  | inl before ↦ omega (arith, upto-lt m k n before)
  | inr e ↦ ground arith
]

pub new_point_fresh : (m : ℕ) (w : Memory) → ¬ Memᴰ (m, w.counts m) (upto m (w.counts m))
new_point_fresh m w h = omega (arith, upto-lt m (w.counts m) (w.counts m) h)

pub upto-new_point :
    (m : ℕ) (w : Memory)
    → upto m ((new_point m w).1.counts m) ≡ upto m (w.counts m) ++ (m, w.counts m) ∷ []
upto-new_point m w = rw ((nat_beq_iff m m).1 refl)

abbrev pub memory : Cfsm
memory = record {
  World = Memory;
  Machine = ℕ;
  State = Point;
  state_eq = record { beq = point_beq; beq_iff = point_beq_iff };
  new_state = new_point;
  add_transition = add_edge;
  set_start = λ m q w. record w { starts = λ k. if nat_beq k m then some q else w.starts k };
  states = λ w m. upto m (w.counts m);
  transitions = λ w p. w.edges p;
  start = λ w m. w.starts m;
  machine_id = λ w m. m;
  machine_id-new_state = λ m w p. refl;
  machine_id-add_transition = λ q a r w p. refl;
  machine_id-set_start = λ m q w p. refl;
  new_state_fresh = new_point_fresh;
  states-new_state = upto-new_point;
  transitions-new_state = λ m w q. refl;
  states-add_transition = λ m q a r w. refl;
  transitions-add_transition = λ q a r w p. refl;
  start-set_start = λ m q w. rw ((nat_beq_iff m m).1 refl);
  states-set_start = λ m q w. refl;
  transitions-set_start = λ m q w p. refl;
}

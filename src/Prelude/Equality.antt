-- ===== src/Prelude/Equality.antt =====
-- The interface of Go's `==` on comparable values, with the instances for numbers and texts.
use Prim.Native.Nat.{ℕ}
use Prim.Native.String.{String}
use mathlib.Core.Path.{◌≡◌, refl}
use mathlib.Core.Logic.{◌↔◌}
use mathlib.Core.Bool.{Bool, true, false}
use mathlib.Core.Option.{Option, none, some}
use native.Mathlib.Omega.{arith}
use text.Mathlib.Text.{◌==◌ as str_eq}
use text.Mathlib.TextEquality.{eq_iff}
use dingo_hunter.Prelude.Tests.{nat_beq, nat_beq_iff}

-- A comparison that decides equality of the values.
pub record Eq {ℓ} (A : Type ℓ) : Type ℓ where
  pub beq : (x y : A) → Bool
  pub beq_iff : (x y : A) → (beq x y ≡ true) ↔ (x ≡ y)

instance abbrev pub string_eq : Eq String
string_eq = record { beq_iff = eq_iff; beq = str_eq }

instance abbrev pub nat_eq : Eq ℕ
nat_eq = record { beq_iff = nat_beq_iff; beq = nat_beq }

infix 50 ◌==◌
abbrev pub ◌==◌ {ℓ} : {A : Type ℓ} ⦃comparable : Eq A⦄ → (x y : A) → Bool
◌==◌ ⦃comparable⦄ x y = comparable.beq x y

-- Pointers that may be nil.
abbrev pub option_beq {ℓ} : {A : Type ℓ} ⦃comparable : Eq A⦄ → (x y : Option A) → Bool
option_beq none none = true
option_beq ⦃comparable⦄ (some x) (some y) = comparable.beq x y
option_beq none (some y) = false
option_beq (some x) none = false

pub option_beq_iff {ℓ} :
    {A : Type ℓ} ⦃comparable : Eq A⦄ (x y : Option A) → (option_beq x y ≡ true) ↔ (x ≡ y)
option_beq_iff none none = (λ h. refl, λ e. refl)
option_beq_iff ⦃comparable⦄ (some x) (some y) = ground (arith, comparable.beq_iff x y)
option_beq_iff none (some y) = (λ h. cc, λ e. cc)
option_beq_iff (some x) none = (λ h. cc, λ e. cc)

instance abbrev pub option_eq {ℓ} : {A : Type ℓ} ⦃comparable : Eq A⦄ → Eq (Option A)
option_eq = record { beq_iff = option_beq_iff; beq = option_beq }

-- ===== src/Prelude/Lists.antt =====
-- Lists measured and indexed by native numbers, under the library's names, and their laws.
use Prim.Native.Nat.{ℕ, zero, suc, ◌+◌}
use mathlib.Core.Path.{◌≡◌, refl, sym, subst}
use mathlib.Core.Logic.{◌⊎◌, inl, inr, ◌↔◌, ⊎_elim}
use mathlib.Core.List.{List, [], ◌∷◌, ◌++◌, Memᴰ}
use mathlib.Core.List.Memᴰ
use mathlib.Core.Option.{Option, none, some}
use native.Mathlib.Omega.{arith}

-- The empty type at every level.
pub data Never {ℓ} : Type ℓ where

module _ {ℓ} {A : Type ℓ} where
  abbrev pub length : List A → ℕ
  length [] = 0
  length (x ∷ xs) = suc (length xs)

  abbrev pub get_elem? : List A → ℕ → Option A
  get_elem? [] i = none
  get_elem? (x ∷ xs) zero = some x
  get_elem? (x ∷ xs) (suc i) = get_elem? xs i

  -- A write out of bounds changes nothing.
  abbrev pub set : List A → ℕ → A → List A
  set [] i v = []
  set (x ∷ xs) zero v = v ∷ xs
  set (x ∷ xs) (suc i) v = x ∷ set xs i v

  abbrev pub take : ℕ → List A → List A
  take zero xs = []
  take (suc n) [] = []
  take (suc n) (x ∷ xs) = x ∷ take n xs

  pub length-append : (xs ys : List A) → length (xs ++ ys) ≡ length xs + length ys
  length-append [] ys = omega arith
  length-append (x ∷ xs) ys = omega (arith, length-append xs ys)

  pub Memᴰ-cons : (a x : A) (xs : List A) → Memᴰ a (x ∷ xs) ↔ ((a ≡ x) ⊎ Memᴰ a xs)
  Memᴰ-cons a x xs = (Memᴰ.cases_cons, ⊎_elim Memᴰ.head Memᴰ.tail)

  pub Memᴰ-append : (a : A) (xs ys : List A) → Memᴰ a (xs ++ ys) ↔ (Memᴰ a xs ⊎ Memᴰ a ys)
  Memᴰ-append a xs ys = (Memᴰ.append_cases xs, ⊎_elim (Memᴰ.append_left _) (Memᴰ.append_right xs))

  pub Memᴰ-concat : (a x : A) (xs : List A) → Memᴰ a (xs ++ x ∷ []) ↔ (Memᴰ a xs ⊎ (a ≡ x))
  Memᴰ-concat a x xs = (
    λ m. ⊎_elim inl (λ last. inr (Memᴰ.eq_of_singleton last)) (Memᴰ.append_cases xs m),
    ⊎_elim (Memᴰ.append_left _) (λ e. Memᴰ.append_right xs (Memᴰ.head e)),
  )

  -- Every element satisfies the predicate; it computes to tuples.
  abbrev pub All {κ} : (A → Type κ) → List A → Type κ
  All P [] = Unit
  All P (x ∷ xs) = P x × All P xs

  -- An occurrence of `a` stands before an occurrence of `b`.
  abbrev pub Precedes : List A → A → A → Type ℓ
  Precedes [] a b = Never
  Precedes (x ∷ xs) a b = ((a ≡ x) × Memᴰ b xs) ⊎ Precedes xs a b

  -- No element stands twice.
  abbrev pub IsDistinct : List A → Type ℓ
  IsDistinct [] = Unit
  IsDistinct (x ∷ xs) = (¬ Memᴰ x xs) × IsDistinct xs

  pub Precedes-append : (xs ys : List A) (a b : A) → Precedes xs a b → Precedes (xs ++ ys) a b
  Precedes-append [] ys a b p = elim p [ ]
  Precedes-append (x ∷ xs) ys a b (inl (e, m)) = inl (e, Memᴰ.append_left _ m)
  Precedes-append (x ∷ xs) ys a b (inr p) = inr (Precedes-append xs ys a b p)

  pub Precedes-concat : (xs : List A) (a b : A) → Memᴰ a xs → Precedes (xs ++ b ∷ []) a b
  Precedes-concat [] a b m = absurd (Memᴰ.not-nil m)
  Precedes-concat (x ∷ xs) a b m = elim (Memᴰ.cases_cons m) [
    | inl e ↦ inl (e, Memᴰ.append_right xs (Memᴰ.head refl))
    | inr later ↦ inr (Precedes-concat xs a b later)
  ]

  pub Precedes-mem : (xs : List A) (a b : A) → Precedes xs a b → Memᴰ a xs × Memᴰ b xs
  Precedes-mem [] a b p = elim p [ ]
  Precedes-mem (x ∷ xs) a b (inl (e, m)) = (Memᴰ.head e, Memᴰ.tail m)
  Precedes-mem (x ∷ xs) a b (inr p) =
      let (ma, mb) = Precedes-mem xs a b p in (Memᴰ.tail ma, Memᴰ.tail mb)

  pub Precedes-trans :
      (xs : List A) (a b c : A)
      → IsDistinct xs
      → Precedes xs a b
      → Precedes xs b c
      → Precedes xs a c
  Precedes-trans [] a b c d p q = elim p [ ]
  Precedes-trans (x ∷ xs) a b c d (inl (e, m)) (inl (f, n)) = inl (e, n)
  Precedes-trans (x ∷ xs) a b c d (inl (e, m)) (inr q) = inl (e, (Precedes-mem xs b c q).1)
  Precedes-trans (x ∷ xs) a b c d (inr p) (inl (f, n)) =
      absurd (d.0 (subst (λ t. Memᴰ t xs) f (Precedes-mem xs a b p).1))
  Precedes-trans (x ∷ xs) a b c d (inr p) (inr q) = inr (Precedes-trans xs a b c d.1 p q)

  pub Precedes-irrefl : (xs : List A) (a : A) → IsDistinct xs → ¬ Precedes xs a a
  Precedes-irrefl [] a d p = elim p [ ]
  Precedes-irrefl (x ∷ xs) a d (inl (e, m)) = d.0 (subst (λ t. Memᴰ t xs) e m)
  Precedes-irrefl (x ∷ xs) a d (inr p) = Precedes-irrefl xs a d.1 p

  pub IsDistinct-concat :
      (xs : List A) (a : A) → IsDistinct xs → ¬ Memᴰ a xs → IsDistinct (xs ++ a ∷ [])
  IsDistinct-concat [] a d new = (Memᴰ.not-nil, tt)
  IsDistinct-concat (x ∷ xs) a d new = (
    λ m. ⊎_elim d.0 (λ e. new (Memᴰ.head (sym e))) ((Memᴰ-concat x a xs).0 m),
    IsDistinct-concat xs a d.1 (λ m. new (Memᴰ.tail m)),
  )

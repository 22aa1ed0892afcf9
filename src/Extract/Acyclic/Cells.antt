-- ===== src/Extract/Acyclic/Cells.antt =====
-- Lists of nodes, and of the numbers of nodes, as nodes are added.
use dingo_hunter.Prelude.{
  ℕ, suc, zero, ◌+◌, ◌<◌, ◌≤◌, ◌≡◌, refl, sym, subst, arith, some, List, [], ◌∷◌, ◌++◌, All, length,
  get_elem?, set, take, insert, Memᴰ, ◌==◌, Bool-cases, inl, inr,
}
use mathlib.Core.List.Memᴰ
use dingo_hunter.SessType.Node.{Role, role_eq}
use dingo_hunter.Extract.State.{Cell, Label}
use dingo_hunter.Extract.Nodes.{add_child, leaf_cell}
use dingo_hunter.Extract.Acyclic.{IsBetween, IsOrdered, IsNode, HasRoot}

module _ {A : Type 0} where
  pub All-weaken : (P Q : A → Type 0) (xs : List A) → ((x : A) → P x → Q x) → All P xs → All Q xs
  All-weaken P Q [] f h = tt
  All-weaken P Q (x ∷ xs) f (h, hs) = (f x h, All-weaken P Q xs f hs)

  pub All-append : (P : A → Type 0) (xs ys : List A) → All P xs → All P ys → All P (xs ++ ys)
  All-append P [] ys h h' = h'
  All-append P (x ∷ xs) ys (h, hs) h' = (h, All-append P xs ys hs h')

  pub All-take : (P : A → Type 0) (n : ℕ) (xs : List A) → All P xs → All P (take n xs)
  All-take P zero xs h = tt
  All-take P (suc n) [] h = tt
  All-take P (suc n) (x ∷ xs) (h, hs) = (h, All-take P n xs hs)

  pub All-set : (P : A → Type 0) (xs : List A) (i : ℕ) (y : A) → All P xs → P y → All P (set xs i y)
  All-set P [] i y h new = tt
  All-set P (x ∷ xs) zero y (h, hs) new = (new, hs)
  All-set P (x ∷ xs) (suc i) y (h, hs) new = (h, All-set P xs i y hs new)

  pub All-get :
      (P : A → Type 0) (xs : List A) (i : ℕ) (y : A) → All P xs → get_elem? xs i ≡ some y → P y
  All-get P [] i y h e = absurd cc
  All-get P (x ∷ xs) zero y (h, hs) e = let same : x ≡ y = ground arith in subst P same h
  All-get P (x ∷ xs) (suc i) y (h, hs) e = All-get P xs i y hs e

  pub All-mem : (P : A → Type 0) (xs : List A) (y : A) → All P xs → Memᴰ y xs → P y
  All-mem P [] y h m = absurd (Memᴰ.not-nil m)
  All-mem P (x ∷ xs) y (h, hs) m = elim (Memᴰ.cases_cons m) [
    | inl same ↦ subst P (sym same) h
    | inr later ↦ All-mem P xs y hs later
  ]

  pub length-concat : (xs : List A) (y : A) → length (xs ++ y ∷ []) ≡ length xs + 1
  length-concat [] y = refl
  length-concat (x ∷ xs) y = ground (arith, length-concat xs y)

pub nodes-grow :
    (bound bound' : ℕ) (ns : List ℕ)
    → bound ≤ bound'
    → All (IsNode bound) ns
    → All (IsNode bound') ns
nodes-grow bound bound' ns le = All-weaken (IsNode bound) (IsNode bound') ns λ n h. ground arith

pub types-grow :
    (bound bound' : ℕ) (types : List (Role × ℕ))
    → bound ≤ bound'
    → All (HasRoot bound) types
    → All (HasRoot bound') types
types-grow bound bound' types le =
    All-weaken (HasRoot bound) (HasRoot bound') types λ (role, n) h. ground arith

pub insert-HasRoot :
    (bound : ℕ) (role : Role) (n : ℕ) (types : List (Role × ℕ))
    → All (HasRoot bound) types
    → n < bound
    → All (HasRoot bound) (insert role n types)
insert-HasRoot bound role n [] h new = (new, tt)
insert-HasRoot bound role n ((r, m) ∷ types) (h, hs) new = elim (Bool-cases (r == role)) [
  | inl same ↦ rw same (new, hs)
  | inr differ ↦ rw differ (h, insert-HasRoot bound role n types hs new)
]

pub IsOrdered-grows :
    (i bound bound' : ℕ) (cs : List Cell)
    → bound ≤ bound'
    → IsOrdered i bound cs
    → IsOrdered i bound' cs
IsOrdered-grows i bound bound' [] le h = tt
IsOrdered-grows i bound bound' (c ∷ cs) le (h, hs) = (
  All-weaken (IsBetween i bound) (IsBetween i bound') c.children (λ j (lo, hi). (lo, ground arith))
      h,
  IsOrdered-grows (suc i) bound bound' cs le hs,
)

pub IsOrdered-concat :
    (i bound : ℕ) (cs : List Cell) (l : Label)
    → IsOrdered i bound cs
    → IsOrdered i bound (cs ++ leaf_cell l ∷ [])
IsOrdered-concat i bound [] l h = (tt, tt)
IsOrdered-concat i bound (c ∷ cs) l (h, hs) = (h, IsOrdered-concat (suc i) bound cs l hs)

pub add_child-IsOrdered :
    (start i n bound : ℕ) (cs : List Cell)
    → start + i < n
    → n < bound
    → IsOrdered start bound cs
    → IsOrdered start bound (add_child cs i n)
add_child-IsOrdered start i n bound [] lo hi h = tt
add_child-IsOrdered start zero n bound (c ∷ cs) lo hi (h, hs) =
    (All-append (IsBetween start bound) c.children (n ∷ []) h ((ground arith, hi), tt), hs)
add_child-IsOrdered start (suc i) n bound (c ∷ cs) lo hi (h, hs) =
    (h, add_child-IsOrdered (suc start) i n bound cs (ground arith) hi hs)

-- The children of a node.
pub IsOrdered-at :
    (start i bound : ℕ) (cs : List Cell) (c : Cell)
    → IsOrdered start bound cs
    → get_elem? cs i ≡ some c
    → All (IsBetween (start + i) bound) c.children
IsOrdered-at start i bound [] c h e = absurd cc
IsOrdered-at start zero bound (x ∷ cs) c (h, hs) e =
    let same : x ≡ c = ground arith in
    subst (λ y. All (IsBetween (start + 0) bound) y.children) same
      (All-weaken (IsBetween start bound) (IsBetween (start + 0) bound) x.children
        (λ j (lo, hi). (ground arith, hi)) h)
IsOrdered-at start (suc i) bound (x ∷ cs) c (h, hs) e =
    All-weaken (IsBetween (suc start + i) bound) (IsBetween (start + suc i) bound) c.children
      (λ j (lo, hi). (ground arith, hi)) (IsOrdered-at (suc start) i bound cs c hs e)

-- ===== src/SessType/Stack/Laws.antt =====
-- The node stack (cfsmextract/sesstype/nodestack.go) against a list whose head is the top.
use mathlib.Core.List.{reverse, reverse-append, head?}
use dingo_hunter.Prelude.{
  ℕ, zero, suc, ◌+◌, ◌-◌, ◌≤◌, ◌<◌, ◌≡◌, refl, ap, sym, ◌∙◌, Option, none, some, List, [], ◌∷◌,
  ◌++◌, arith, get_elem?, take, length, length-append, ◌⊎◌, inl, inr,
}
use dingo_hunter.SessType.Stack.{NodeStack, new_node_stack, push, pop, top, size}

abbrev pub IsValid {ℓ} : {A : Type ℓ} → NodeStack A → Type 0
IsValid s = s.count ≤ length s.nodes

-- The abstract stack.
abbrev pub items {ℓ} : {A : Type ℓ} → NodeStack A → List A
items s = reverse (take s.count s.nodes)

abbrev pub pop_list {ℓ} : {A : Type ℓ} → List A → Option (List A)
pop_list [] = none
pop_list (x ∷ xs) = some xs

module _ {ℓ} {A : Type ℓ} where
  take-append : (k : ℕ) (xs ys : List A) → k ≤ length xs → take k (xs ++ ys) ≡ take k xs
  take-append zero xs ys h = refl
  take-append (suc k) [] ys h = absurd (omega arith)
  take-append (suc k) (x ∷ xs) ys h = ap (λ t. x ∷ t) (take-append k xs ys (omega arith))

  take_all : (xs : List A) → take (length xs) xs ≡ xs
  take_all [] = refl
  take_all (x ∷ xs) = ap (λ t. x ∷ t) (take_all xs)

  length-take : (k : ℕ) (xs : List A) → k ≤ length xs → length (take k xs) ≡ k
  length-take zero xs h = refl
  length-take (suc k) [] h = absurd (omega arith)
  length-take (suc k) (x ∷ xs) h = omega (arith, length-take k xs)

  -- One more element: the one at the index.
  take-suc :
      (k : ℕ) (xs : List A)
      → k < length xs
      → (x : A) × (get_elem? xs k ≡ some x) × (reverse (take (suc k) xs) ≡ x ∷ reverse (take k xs))
  take-suc k [] h = absurd (omega arith)
  take-suc zero (x ∷ xs) h = (x, refl, refl)
  take-suc (suc k) (x ∷ xs) h =
      let (y, at, rest) = take-suc k xs (omega arith) in
      (
        y,
        at,
        reverse-append (x ∷ []) (take (suc k) xs)
            ∙ ap (λ t. t ++ x ∷ []) rest
            ∙ ap (λ t. y ∷ t) (sym (reverse-append (x ∷ []) (take k xs))),
      )

  new-refines : IsValid {A = A} new_node_stack × (items {A = A} new_node_stack ≡ [])
  unfolding new_node_stack
  new-refines = (omega arith, refl)

  pub push-refines :
      (s : NodeStack A) (n : A)
      → IsValid s
      → IsValid (push s n) × (items (push s n) ≡ n ∷ items s) × (size (push s n) ≡ size s + 1)
  unfolding push size
  push-refines s n h =
      let kept = take s.count s.nodes in
      let full : s.count + 1 ≡ length (kept ++ n ∷ []) =
        omega (arith, length-append kept (n ∷ []), length-take s.count s.nodes h) in
      (
        omega arith,
        ap (λ k. reverse (take k (kept ++ n ∷ []))) full
            ∙ ap reverse (take_all (kept ++ n ∷ []))
            ∙ reverse-append kept (n ∷ []),
        refl,
      )

  -- The nodes of a stack that is not empty, by its count.
  non_empty :
      (k : ℕ) (nodes : List A)
      → k < length nodes
      → let s : NodeStack A = record { nodes = nodes; count = suc k } in
        (top s ≡ head? (items s))
        × ((s' : NodeStack A) × (pop s ≡ some s')
            × IsValid s'
            × (some (items s') ≡ pop_list (items s)))
  unfolding top pop
  non_empty k nodes h =
      let (x, at, rest) = take-suc k nodes h in
      let one_less : suc k - 1 ≡ k = omega arith in
      (
        rw (one_less, at, rest) (ground arith),
        (record { nodes = nodes; count = k }, rw one_less (ground arith), omega arith, rw rest),
      )

  -- What a stack does: on valid stacks `Pop` and `Top` act as on the list of items, and fail exactly
  -- where it is empty.
  pub removal-refines :
      (nodes : List A) (count : ℕ)
      → count ≤ length nodes
      → let s : NodeStack A = record { nodes = nodes; count = count } in
        (top s ≡ head? (items s))
        × ((pop s ≡ none) × (items s ≡ [])
            ⊎ ((s' : NodeStack A) × (pop s ≡ some s')
                × IsValid s'
                × (some (items s') ≡ pop_list (items s))))
  unfolding top pop
  removal-refines nodes zero h = (refl, inl (refl, refl))
  removal-refines nodes (suc k) h = let (t, p) = non_empty k nodes h in (t, inr p)

  -- A valid stack acts as a list whose head is the top: `Push` puts a node in front, keeps the stack
  -- valid and adds one to the size; `Top` is the head, or nil of an empty list; `Pop` panics exactly
  -- on the empty list, and otherwise leaves a valid stack of the tail.
  pub stack-refines :
      (s : NodeStack A) (n : A)
      → IsValid s
      → IsValid (push s n)
        × (items (push s n) ≡ n ∷ items s)
        × (size (push s n) ≡ size s + 1)
        × (top s ≡ head? (items s))
        × ((pop s ≡ none) × (items s ≡ [])
            ⊎ ((s' : NodeStack A) × (pop s ≡ some s')
                × IsValid s'
                × (some (items s') ≡ pop_list (items s))))
  stack-refines s n h =
      let (valid, front, more) = push-refines s n h in
      let (at, removal) = removal-refines s.nodes s.count h in (valid, front, more, at, removal)

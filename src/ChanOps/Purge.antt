-- ===== src/ChanOps/Purge.antt =====
-- `purgeChanOps` of ssabuilder/channel.go, which filters a slice in place.
use mathlib.Core.List.{append-nil}
use dingo_hunter.Prelude.{
  ℕ, suc, zero, ◌+◌, ◌≤◌, ◌<◌, ◌≡◌, refl, sym, ap, subst, ◌∙◌, arith, Bool, true, false, Option,
  none, some, List, [], ◌∷◌, ◌++◌, All, get_elem?, set, take, length, if◌then◌else◌, ◌==◌, nat_eq,
  Bool-cases, inl, inr,
}
use dingo_hunter.Ssa.{Value}
use dingo_hunter.ChanOps.{ChanOp, same_type, keep_if, purge_from, purge_chan_ops}

module _ {A : Type 0} where
  get_elem-set : (xs : List A) (i k : ℕ) (v : A) → i < k → get_elem? (set xs i v) k ≡ get_elem? xs k
  get_elem-set [] i k v lt = refl
  get_elem-set (x ∷ xs) zero zero v lt = absurd ground arith
  get_elem-set (x ∷ xs) zero (suc k) v lt = refl
  get_elem-set (x ∷ xs) (suc i) zero v lt = absurd ground arith
  get_elem-set (x ∷ xs) (suc i) (suc k) v lt = get_elem-set xs i k v (ground arith)

  length-set : (xs : List A) (i : ℕ) (v : A) → length (set xs i v) ≡ length xs
  length-set [] i v = refl
  length-set (x ∷ xs) zero v = refl
  length-set (x ∷ xs) (suc i) v = ground (arith, length-set xs i v)

  take-set :
      (xs : List A) (i : ℕ) (v : A) (ys : List A)
      → i < length xs
      → take (suc i) (set xs i v) ++ ys ≡ take i xs ++ v ∷ ys
  take-set [] i v ys lt = absurd ground arith
  take-set (x ∷ xs) zero v ys lt = refl
  take-set (x ∷ xs) (suc i) v ys lt = ap (λ t. x ∷ t) (take-set xs i v ys (ground arith))

  first :
      (a : List A) (j : ℕ) (op : A) (rest : List A)
      → ((k : ℕ) → get_elem? a (j + k) ≡ get_elem? (op ∷ rest) k)
      → get_elem? a j ≡ some op
  first a j op rest agree =
      let same : j + 0 ≡ j = ground arith in subst (λ n. get_elem? a n ≡ some op) same (agree 0)

  later :
      (a : List A) (j : ℕ) (op : A) (rest : List A)
      → ((k : ℕ) → get_elem? a (j + k) ≡ get_elem? (op ∷ rest) k)
      → (k : ℕ) → get_elem? a (suc j + k) ≡ get_elem? rest k
  later a j op rest agree k =
      let same : j + suc k ≡ suc j + k = ground arith in
      subst (λ n. get_elem? a n ≡ get_elem? rest k) same (agree (suc k))

zero_plus : (k : ℕ) → 0 + k ≡ k
zero_plus k = ground arith

module _ (elem_type : Value → Option ℕ) (ch : Value) where
  -- The operation is on a channel of elements of type `t`.
  abbrev pub IsOn : ℕ → ChanOp → Type 0
  IsOn t op = elem_type op.value ≡ some t

  -- The operation is on a channel.
  abbrev pub IsOnChan : ChanOp → Type 0
  IsOnChan op = (t : ℕ) × IsOn t op

  -- `kept` are the operations among these that are on channels of elements of type `t`, in their
  -- order.
  pub data Matching (t : ℕ) : List ChanOp → List ChanOp → Type 0 where
    done : Matching t [] []
    keeps :
        (op : ChanOp) (ops kept_ops : List ChanOp)
        → IsOn t op
        → Matching t ops kept_ops
        → Matching t (op ∷ ops) (op ∷ kept_ops)
    drops :
        (op : ChanOp) (ops kept_ops : List ChanOp)
        → ¬ (IsOn t op)
        → Matching t ops kept_ops
        → Matching t (op ∷ ops) kept_ops

  other_type : (t u : ℕ) (op : ChanOp) → IsOn t op → (t == u) ≡ false → ¬ (IsOn u op)
  other_type t u op at differ is = ground (arith, nat_eq.beq_iff t u)

  same_type-IsOn :
      (v : Value) (t u : ℕ)
      → elem_type v ≡ some t
      → elem_type ch ≡ some u
      → same_type elem_type v ch ≡ some (t == u)
  unfolding same_type
  same_type-IsOn v t u e e' = rw (e, e') refl

  -- The operations for which the code's test succeeds.
  abbrev matching : List ChanOp → List ChanOp
  matching [] = []
  matching (op ∷ ops) =
      let rest = matching ops in
      elim (same_type elem_type op.value ch) [
        | none ↦ rest
        | some same ↦ if same then op ∷ rest else rest
      ]

  abbrev IsComparable : ChanOp → Type 0
  IsComparable op = (same : Bool) × (same_type elem_type op.value ch ≡ some same)

  -- What the loop leaves in front of `i'`.
  abbrev Purges : Option (List ChanOp × ℕ) → List ChanOp → Type 0
  Purges result ops = (a : List ChanOp) × (i : ℕ) × (result ≡ some (a, i)) × (take i a ≡ ops)

  purge_from-keep :
      (left j i : ℕ) (a : List ChanOp) (op : ChanOp) (same : Bool)
      → get_elem? a j ≡ some op
      → same_type elem_type op.value ch ≡ some same
      → purge_from elem_type (suc left) a j i ch
        ≡ purge_from elem_type left
            (keep_if elem_type same op a i).0
            (suc j)
            (keep_if elem_type same op a i).1
            ch
  unfolding purge_from
  purge_from-keep left j i a op same at is = rw at (rw is refl)

  matching-keep :
      (op : ChanOp) (rest : List ChanOp)
      → same_type elem_type op.value ch ≡ some true
      → matching (op ∷ rest) ≡ op ∷ matching rest
  matching-keep op rest is =
      ap
        (λ o. elim o [
          | none ↦ matching rest
          | some same ↦ if same then op ∷ matching rest else matching rest
        ])
        is

  matching-drop :
      (op : ChanOp) (rest : List ChanOp)
      → same_type elem_type op.value ch ≡ some false
      → matching (op ∷ rest) ≡ matching rest
  matching-drop op rest is =
      ap
        (λ o. elim o [
          | none ↦ matching rest
          | some same ↦ if same then op ∷ matching rest else matching rest
        ])
        is

  -- The loop over the operations `rest`, which stand in the slice from `j` on.
  purge_from-Purges :
      (rest a : List ChanOp) (j i : ℕ)
      → All IsComparable rest
      → i ≤ j
      → length a ≡ j + length rest
      → ((k : ℕ) → get_elem? a (j + k) ≡ get_elem? rest k)
      → Purges (purge_from elem_type (length rest) a j i ch) (take i a ++ matching rest)
  unfolding purge_from keep_if
  purge_from-Purges [] a j i comparable le size agree = (a, i, refl, sym (append-nil (take i a)))
  purge_from-Purges (op ∷ rest) a j i ((true, same), comparable) le size agree =
      let lt : i < length a = ground arith in
      let step = purge_from-keep (length rest) j i a op true (first a j op rest agree) same in
      let (b, i', e, kept) =
        purge_from-Purges rest (set a i op) (suc j) (suc i) comparable (ground arith)
          (let l = length-set a i op in ground arith)
          (λ k. get_elem-set a i (suc j + k) op (ground arith) ∙ later a j op rest agree k) in
      (
        b,
        i',
        step ∙ e,
        kept
            ∙ take-set a i op (matching rest) lt
            ∙ ap (λ m. take i a ++ m) (sym (matching-keep op rest same)),
      )
  purge_from-Purges (op ∷ rest) a j i ((false, same), comparable) le size agree =
      let step = purge_from-keep (length rest) j i a op false (first a j op rest agree) same in
      let (b, i', e, kept) =
        purge_from-Purges rest a (suc j) i comparable (ground arith) (ground arith)
          (later a j op rest agree) in
      (b, i', step ∙ e, kept ∙ ap (λ m. take i a ++ m) (sym (matching-drop op rest same)))

  All-IsComparable :
      (u : ℕ) (ops : List ChanOp) → elem_type ch ≡ some u → All IsOnChan ops → All IsComparable ops
  All-IsComparable u [] e on = tt
  All-IsComparable u (op ∷ ops) e ((t, at), on) =
      ((t == u, same_type-IsOn op.value t u at e), All-IsComparable u ops e on)

  matching-Matching :
      (u : ℕ) (ops : List ChanOp)
      → elem_type ch ≡ some u
      → All IsOnChan ops
      → Matching u ops (matching ops)
  matching-Matching u [] e on = done
  matching-Matching u (op ∷ ops) e ((t, at), on) =
      let rest = matching-Matching u ops e on in
      let test = same_type-IsOn op.value t u at e in
      elim (Bool-cases (t == u)) [
        | inl same ↦
            let is : t ≡ u = (nat_eq.beq_iff t u).0 same in
            subst (Matching u (op ∷ ops)) (sym (matching-keep op ops (test ∙ ap some same)))
              (keeps op ops (matching ops) (at ∙ ap some is) rest)
        | inr differ ↦
            subst (Matching u (op ∷ ops)) (sym (matching-drop op ops (test ∙ ap some differ)))
              (drops op ops (matching ops) (λ is. other_type t u op at differ is) rest)
      ]

  -- If `ch` is a channel of elements of type `u`, and the operations are on channels, then the
  -- filter in place does not panic and returns the operations on channels of elements of type `u`,
  -- in their order.
  pub purge_chan_ops-Matching :
      (u : ℕ) (ops : List ChanOp)
      → elem_type ch ≡ some u
      → All IsOnChan ops
      → (ops' : List ChanOp) × (purge_chan_ops elem_type ops ch ≡ some ops') × Matching u ops ops'
  unfolding purge_chan_ops
  purge_chan_ops-Matching u ops e on =
      let (a, i, returned, front) =
        purge_from-Purges ops ops 0 0 (All-IsComparable u ops e on) (ground arith) (ground arith)
          (λ k. ap (get_elem? ops) (zero_plus k)) in
      (matching ops, rw returned (ap some front), matching-Matching u ops e on)

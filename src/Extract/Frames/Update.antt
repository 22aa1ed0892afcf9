-- ===== src/Extract/Frames/Update.antt =====
-- What `updateDefs` of cfsmextract/func.go does to the maps of elements and fields, which may be
-- shared by several arrays and structs.
use dingo_hunter.Prelude.{
  ℕ, suc, zero, ◌≡◌, refl, arith, Bool, true, false, Option, none, some, List, [], ◌∷◌, ◌==◌, ◌||◌,
  Eq, nat_eq, option_eq, Bool-cases, inl, inr, lookup, set, length, if◌then◌else◌, ◌∙◌,
}
use dingo_hunter.Ssa.{Value}
use dingo_hunter.Definition.{def_eq}
use dingo_hunter.Extract.State.{Ref, Scope, Store}
use dingo_hunter.Extract.Frames.{replace_refs, at_address, update_maps, update_store}

-- A value that may be there, where `old` is replaced.
abbrev pub rename : Ref → Ref → Option Ref → Option Ref
rename old new none = none
rename old new (some v) = some (if v == old then new else v)

-- Whether a map of arrays or structs has the address.
abbrev pub mentions : ℕ → List (Ref × ℕ) → Bool
mentions b [] = false
mentions b ((vd, a) ∷ rest) = let later = mentions b rest in if a == b then true else later

module _ {K : Type 0} ⦃keys : Eq K⦄ (old new : Ref) where
  lookup-replace_refs :
      (k : K) (m : List (K × Ref)) → lookup k (replace_refs old new m) ≡ rename old new (lookup k m)
  unfolding replace_refs
  lookup-replace_refs k [] = refl
  lookup-replace_refs k ((j, v) ∷ m) = elim (Bool-cases (j == k)) [
    | inl same ↦ rw same refl
    | inr differ ↦ rw differ (lookup-replace_refs k m)
  ]

  replace_refs_twice :
      (m : List (K × Ref)) → replace_refs old new (replace_refs old new m) ≡ replace_refs old new m
  unfolding replace_refs
  replace_refs_twice [] = refl
  replace_refs_twice ((k, v) ∷ m) = elim (Bool-cases (v == old)) [
    | inl same ↦ ground (arith, replace_refs_twice m)
    | inr differ ↦ ground (arith, replace_refs_twice m)
  ]

  -- The map at one address replaced, seen from any address.
  at_address-replaced :
      (heap : List (List (K × Ref))) (a b : ℕ)
      → at_address (set heap a (replace_refs old new (at_address heap a))) b
        ≡ (if a == b then replace_refs old new (at_address heap b) else at_address heap b)
  unfolding at_address replace_refs
  at_address-replaced [] a b = ground arith
  at_address-replaced (m ∷ heap) zero zero = refl
  at_address-replaced (m ∷ heap) zero (suc b) = ground (arith, nat_eq.beq_iff 0 (suc b))
  at_address-replaced (m ∷ heap) (suc a) zero = ground (arith, nat_eq.beq_iff (suc a) 0)
  at_address-replaced (m ∷ heap) (suc a) (suc b) =
      ground
        (arith, nat_eq.beq_iff (suc a) (suc b), nat_eq.beq_iff a b, at_address-replaced heap a b)

  at_address-update_maps :
      (arrays : List (Ref × ℕ)) (heap : List (List (K × Ref))) (b : ℕ)
      → at_address (update_maps old new arrays heap) b ≡ (
          if mentions b arrays then replace_refs old new (at_address heap b) else at_address heap b)
  unfolding update_maps
  at_address-update_maps [] heap b = refl
  at_address-update_maps ((vd, a) ∷ rest) heap b =
      let next = set heap a (replace_refs old new (at_address heap a)) in
      let step = at_address-replaced heap a b in
      let twice = replace_refs_twice (at_address heap b) in
      at_address-update_maps rest next b ∙ ground (arith, step, twice)

  pub lookup-update_maps :
      (arrays : List (Ref × ℕ)) (heap : List (List (K × Ref))) (b : ℕ) (k : K)
      → lookup k (at_address (update_maps old new arrays heap) b) ≡ (
          if mentions b arrays
          then rename old new (lookup k (at_address heap b))
          else lookup k (at_address heap b))
  lookup-update_maps arrays heap b k =
      ground
        (arith, at_address-update_maps arrays heap b, lookup-replace_refs k (at_address heap b))

rename_twice :
    (old new : Ref) (o : Option Ref) → rename old new (rename old new o) ≡ rename old new o
rename_twice old new none = refl
rename_twice old new (some v) = elim (Bool-cases (v == old)) [
  | inl same ↦ ground arith
  | inr differ ↦ ground arith
]

-- The maps of the frame first, then those of the environment.
two_maps :
    {K : Type 0} ⦃keys : Eq K⦄ (old new : Ref) (arrays arrays' : List (Ref × ℕ))
    (heap : List (List (K × Ref))) (a : ℕ) (k : K)
    → lookup k (at_address (update_maps old new arrays' (update_maps old new arrays heap)) a) ≡ (
        if mentions a arrays || mentions a arrays'
        then rename old new (lookup k (at_address heap a))
        else lookup k (at_address heap a))
two_maps old new arrays arrays' heap a k = ground (
  arith,
  lookup-update_maps old new arrays' (update_maps old new arrays heap) a k,
  lookup-update_maps old new arrays heap a k,
  rename_twice old new (lookup k (at_address heap a)),
)

length-set : {A : Type 0} (xs : List A) (i : ℕ) (v : A) → length (set xs i v) ≡ length xs
length-set [] i v = refl
length-set (x ∷ xs) zero v = refl
length-set (x ∷ xs) (suc i) v = ground (arith, length-set xs i v)

length-update_maps :
    {K : Type 0} ⦃keys : Eq K⦄ (old new : Ref) (arrays : List (Ref × ℕ))
    (heap : List (List (K × Ref)))
    → length (update_maps old new arrays heap) ≡ length heap
unfolding update_maps
length-update_maps old new [] heap = refl
length-update_maps old new ((vd, a) ∷ rest) heap =
    length-update_maps old new rest (set heap a (replace_refs old new (at_address heap a)))
    ∙ length-set heap a (replace_refs old new (at_address heap a))

sizes :
    {K : Type 0} ⦃keys : Eq K⦄ (old new : Ref) (arrays arrays' : List (Ref × ℕ))
    (heap : List (List (K × Ref)))
    → length (update_maps old new arrays' (update_maps old new arrays heap)) ≡ length heap
sizes old new arrays arrays' heap =
    length-update_maps old new arrays' (update_maps old new arrays heap)
    ∙ length-update_maps old new arrays heap

-- `updateDefs` replaces the old definition by the new one in the elements of exactly those arrays,
-- and in the fields of exactly those structs, that the frame or the environment has, once each,
-- however many of them share a map. All other elements and fields, the number of the maps, the names
-- of the arrays and structs, the globals, and all else that the environment stores stay.
pub update_defs_renames :
    (old new : Ref) (sc : Scope) (st : Store) (a : ℕ) (k : Value) (i : ℕ)
    → let st' = update_store old new sc st in
      (lookup k (at_address st'.elems a) ≡ (
        if mentions a sc.arrays || mentions a st.arrays
        then rename old new (lookup k (at_address st.elems a))
        else lookup k (at_address st.elems a)))
      × (lookup i (at_address st'.fields a) ≡ (
          if mentions a sc.structs || mentions a st.structs
          then rename old new (lookup i (at_address st.fields a))
          else lookup i (at_address st.fields a)))
      × (st'.arrays ≡ st.arrays)
      × (st'.structs ≡ st.structs)
      × (st'.globals ≡ st.globals)
      × (st'.extern ≡ st.extern)
      × (st'.closures ≡ st.closures)
      × (st'.sel_idx ≡ st.sel_idx)
      × (st'.sel_test ≡ st.sel_test)
      × (st'.args ≡ st.args)
      × (length st'.elems ≡ length st.elems)
      × (length st'.fields ≡ length st.fields)
unfolding update_store
update_defs_renames old new sc st a k i = (
  two_maps old new sc.arrays st.arrays st.elems a k,
  two_maps old new sc.structs st.structs st.fields a i,
  refl,
  refl,
  refl,
  refl,
  refl,
  refl,
  refl,
  refl,
  sizes old new sc.arrays st.arrays st.elems,
  sizes old new sc.structs st.structs st.fields,
)

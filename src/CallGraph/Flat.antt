-- ===== src/CallGraph/Flat.antt =====
-- What holds of the state between the instructions that ssabuilder/callgraph/callgraph.go visits.
use dingo_hunter.Prelude.{
  ℕ, ◌≡◌, refl, sym, ap, subst, ◌↔◌, inl, inr, none, some, Option, List, [], ◌∷◌, ◌++◌, Memᴰ,
  Memᴰ-cons, Memᴰ-concat, contains, contains_iff, nat_eq, arith, Bool-cases, IsDistinct,
  IsDistinct-concat,
}
use dingo_hunter.CallGraph.{
  CallNodes, node, nil, cons, snoc, Visited, State, Outcome, done, add_callee, Program,
  visit_children, traverse, traverse_all,
}
use dingo_hunter.CallGraph.Blocks.{Reach, Calls}

abbrev pub names : CallNodes → List ℕ
names nil = []
names (cons (node f cs) rest) = f ∷ names rest

-- Every child is a visited function, and has no children itself.
abbrev pub IsFlat : List ℕ → CallNodes → Type 0
IsFlat funcs nil = Unit
IsFlat funcs (cons (node f cs) rest) = (cs ≡ nil) × Memᴰ f funcs × IsFlat funcs rest

module _ (prog : Program) (main first : ℕ) where
  pub record Inv (s : State) : Type 0 where
    pub flat : IsFlat s.visited.funcs s.children
    pub listed : (f : ℕ) → Memᴰ f s.visited.funcs ↔ Memᴰ f (main ∷ names s.children)
    pub distinct : IsDistinct (main ∷ names s.children)
    pub blocks_reached : (x : ℕ) → Memᴰ x s.visited.blocks → Reach prog first x
    pub funcs_called :
        (f : ℕ) → Memᴰ f (names s.children) → (x : ℕ) × Reach prog first x × Calls prog x f

IsFlat-mono :
    (fs gs : List ℕ) (cs : CallNodes)
    → ((f : ℕ) → Memᴰ f fs → Memᴰ f gs)
    → IsFlat fs cs
    → IsFlat gs cs
IsFlat-mono fs gs nil sub h = tt
IsFlat-mono fs gs (cons (node f cs) rest) sub (e, k, h) = (e, sub f k, IsFlat-mono fs gs rest sub h)

IsFlat-snoc :
    (fs : List ℕ) (cs : CallNodes) (f : ℕ)
    → Memᴰ f fs
    → IsFlat fs cs
    → IsFlat fs (snoc cs (node f nil))
unfolding snoc
IsFlat-snoc fs nil f k h = (refl, k, tt)
IsFlat-snoc fs (cons (node g ds) rest) f k (e, kg, h) = (e, kg, IsFlat-snoc fs rest f k h)

names-snoc : (cs : CallNodes) (f : ℕ) → names (snoc cs (node f nil)) ≡ names cs ++ f ∷ []
unfolding snoc
names-snoc nil f = refl
names-snoc (cons (node g ds) rest) f = ap (λ t. g ∷ t) (names-snoc rest f)

-- At a return nothing is visited: every child was marked when it was added.
pub visit_children_idle :
    (prog : Program) (visit : ℕ → State → Outcome State) (cs : CallNodes) (v : Visited)
    → IsFlat v.funcs cs
    → visit_children prog visit cs v ≡ done (record { children = cs; visited = v })
unfolding visit_children
visit_children_idle prog visit nil v h = refl
visit_children_idle prog visit (cons (node f cs) rest) v (e, k, h) =
    rw ((contains_iff f v.funcs).1 k, visit_children) (rw (visit_children_idle prog visit rest v h))

-- A traversal of a flat graph is its list of names.
pub traverse-names : (fs : List ℕ) (cs : CallNodes) → IsFlat fs cs → traverse_all cs ≡ names cs
unfolding traverse
traverse-names fs nil h = refl
traverse-names fs (cons (node f cs) rest) (e, k, h) = rw (e, traverse-names fs rest h)

module _ (prog : Program) (main first : ℕ) where
  -- A callee of a block that was reached may be added.
  pub add_callee-Inv :
      (s : State) (f x : ℕ)
      → Reach prog first x
      → Calls prog x f
      → Inv prog main first s
      → Inv prog main first (add_callee (some f) s)
  unfolding add_callee
  add_callee-Inv s f x reached called inv = elim (Bool-cases (contains f s.visited.funcs)) [
    | inl old ↦ rw (old, add_callee) inv
    | inr new ↦
        rw (new, add_callee)
          (record {
            flat = IsFlat-snoc (f ∷ s.visited.funcs) s.children f (Memᴰ.head refl) (
                IsFlat-mono s.visited.funcs (f ∷ s.visited.funcs) s.children (λ g k. Memᴰ.tail k)
                  inv.flat);
            listed = λ g. rw (names-snoc s.children f) (
              λ k.
                  (Memᴰ-concat g f (main ∷ names s.children)).1
                    (elim ((Memᴰ-cons g f s.visited.funcs).0 k) [
                      | inl e ↦ inr e
                      | inr old ↦ inl ((inv.listed g).0 old)
                    ]),
              λ k.
                  (Memᴰ-cons g f s.visited.funcs).1
                    (elim ((Memᴰ-concat g f (main ∷ names s.children)).0 k) [
                      | inl old ↦ inr ((inv.listed g).1 old)
                      | inr e ↦ inl e
                    ]),
            );
            distinct = rw (names-snoc s.children f) (
                IsDistinct-concat (main ∷ names s.children) f inv.distinct (λ k.
                  let seen = (contains_iff f s.visited.funcs).1 ((inv.listed f).1 k) in
                  ground arith));
            blocks_reached = inv.blocks_reached;
            funcs_called = λ g k.
                elim ((Memᴰ-concat g f (names s.children)).0
                  (subst (Memᴰ g) (names-snoc s.children f) k)) [
                    | inl before ↦ inv.funcs_called g before
                    | inr e ↦ (x, reached, subst (Calls prog x) (sym e) called)
                  ];
          })
  ]

  pub add_callee-grows :
      (s : State) (f g : ℕ) → Memᴰ g s.visited.funcs → Memᴰ g (add_callee (some f) s).visited.funcs
  unfolding add_callee
  add_callee-grows s f g k = elim (Bool-cases (contains f s.visited.funcs)) [
    | inl old ↦ rw (old, add_callee) k
    | inr new ↦ rw (new, add_callee) (Memᴰ.tail k)
  ]

  pub add_callee-adds : (s : State) (f : ℕ) → Memᴰ f (add_callee (some f) s).visited.funcs
  unfolding add_callee
  add_callee-adds s f = elim (Bool-cases (contains f s.visited.funcs)) [
    | inl old ↦ rw (old, add_callee) ((contains_iff f s.visited.funcs).0 old)
    | inr new ↦ rw (new, add_callee) (Memᴰ.head refl)
  ]

  pub add_callee-blocks :
      (s : State) (c : Option ℕ) → (add_callee c s).visited.blocks ≡ s.visited.blocks
  unfolding add_callee
  add_callee-blocks s none = refl
  add_callee-blocks s (some f) = elim (Bool-cases (contains f s.visited.funcs)) [
    | inl old ↦ rw (old, add_callee)
    | inr new ↦ rw (new, add_callee)
  ]

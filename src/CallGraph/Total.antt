-- ===== src/CallGraph/Total.antt =====
-- `visitBlock` (ssabuilder/callgraph/callgraph.go) on programs with finitely many blocks: that it
-- ends, and which instructions it has then followed.
use mathlib.Core.List.Memᴰ
use dingo_hunter.Prelude.{
  ℕ, zero, suc, ◌<◌, ◌≡◌, refl, subst, ◌⊎◌, inl, inr, none, some, List, [], ◌∷◌, Memᴰ, contains,
  contains_iff, nat_eq, arith, Bool-cases,
}
use dingo_hunter.CallGraph.{
  Instr, call, go, branch, jump, ret, other, State, Outcome, done, add_callee, Program, visit_instr,
  visit_instrs, visit_block, mark_block,
}
use dingo_hunter.CallGraph.Blocks.{
  Jumps, Starts, Succ, Reach, next, IsClosed, unseen, unseen_mono, unseen_mark,
}
use dingo_hunter.CallGraph.Flat.{
  Inv, visit_children_idle, add_callee-Inv, add_callee-grows, add_callee-adds, add_callee-blocks,
}

-- The instruction was followed: where it leads was visited, and what it calls is known.
pub record Followed (s : State) (i : Instr) : Type 0 where
  pub jumps : (y : ℕ) → Jumps i y → Memᴰ y s.visited.blocks
  pub starts : (f : ℕ) → Starts i f → Memᴰ f s.visited.funcs

abbrev pub Handled : Program → State → ℕ → Type 0
Handled prog s x = (i : Instr) → Memᴰ i (prog.instrs x) → Followed s i

-- From `s` to `s'` nothing was forgotten, and every block that was added was handled.
pub record Extends (prog : Program) (s s' : State) : Type 0 where
  pub blocks_grow : (x : ℕ) → Memᴰ x s.visited.blocks → Memᴰ x s'.visited.blocks
  pub funcs_grow : (f : ℕ) → Memᴰ f s.visited.funcs → Memᴰ f s'.visited.funcs
  pub handled : (x : ℕ) → Memᴰ x s'.visited.blocks → Memᴰ x s.visited.blocks ⊎ Handled prog s' x

module _ (prog : Program) where
  Extends-refl : (s : State) → Extends prog s s
  Extends-refl s = record { blocks_grow = λ x k. k; funcs_grow = λ f k. k; handled = λ x k. inl k }

  Followed-later : {s s' : State} {i : Instr} → Extends prog s s' → Followed s i → Followed s' i
  Followed-later h d = record {
    jumps = λ y j. h.blocks_grow y (d.jumps y j);
    starts = λ f c. h.funcs_grow f (d.starts f c);
  }

  Extends-trans : {s t u : State} → Extends prog s t → Extends prog t u → Extends prog s u
  Extends-trans h k = record {
    blocks_grow = λ x m. k.blocks_grow x (h.blocks_grow x m);
    funcs_grow = λ f m. k.funcs_grow f (h.funcs_grow f m);
    handled = λ x m. elim (k.handled x m) [
      | inl before ↦ elim (h.handled x before) [
        | inl old ↦ inl old
        | inr d ↦ inr (λ i j. Followed-later k (d i j))
      ]
      | inr d ↦ inr d
    ];
  }

  Extends-add_callee : (f : ℕ) (s : State) → Extends prog s (add_callee (some f) s)
  Extends-add_callee f s =
      let same = add_callee-blocks prog 0 0 s (some f) in
      record {
        blocks_grow = λ x k. rw same k;
        funcs_grow = λ g k. add_callee-grows prog 0 0 s f g k;
        handled = λ x k. inl (subst (Memᴰ x) same k);
      }

  Extends-mark_block :
      (b : ℕ) (s s' : State)
      → Extends prog (record s { visited = mark_block b s.visited }) s'
      → Handled prog s' b
      → Extends prog s s'
  Extends-mark_block b s s' h all = record {
    blocks_grow = λ x k. h.blocks_grow x (Memᴰ.tail k);
    funcs_grow = h.funcs_grow;
    handled = λ x k. elim (h.handled x k) [
      | inl before ↦ elim (Memᴰ.cases_cons before) [ inl e ↦ inr (rw e all) | inr old ↦ inl old ]
      | inr d ↦ inr d
    ];
  }

  module _ (main first n : ℕ) (closed : IsClosed prog n) where
    Inv-mark_block :
        (b : ℕ) (s : State)
        → Reach prog first b
        → Inv prog main first s
        → Inv prog main first (record s { visited = mark_block b s.visited })
    Inv-mark_block b s reached inv = record {
      flat = inv.flat;
      listed = inv.listed;
      distinct = inv.distinct;
      blocks_reached = λ x k. elim (Memᴰ.cases_cons k) [
        | inl e ↦ rw e reached
        | inr old ↦ inv.blocks_reached x old
      ];
      funcs_called = inv.funcs_called;
    }

    -- A visit of a reached block, with more fuel than blocks to come, succeeds.
    abbrev Succeeds : ℕ → (ℕ → State → Outcome State) → Type 0
    Succeeds fuel visit =
        (b : ℕ) (s : State)
        → b < n
        → Reach prog first b
        → Inv prog main first s
        → unseen n s.visited.blocks < fuel
        → (s' : State) × (visit b s ≡ done s')
          × Inv prog main first s'
          × Extends prog s s'
          × Memᴰ b s'.visited.blocks

    -- Of one instruction of a block `x` that is visited.
    visit_instr_lem :
        (fuel : ℕ) (visit : ℕ → State → Outcome State) (x : ℕ) (i : Instr) (s : State)
        → Succeeds fuel visit
        → x < n
        → Reach prog first x
        → Memᴰ i (prog.instrs x)
        → Inv prog main first s
        → unseen n s.visited.blocks < fuel
        → (s' : State) × (visit_instr prog visit i s ≡ done s')
          × Inv prog main first s'
          × Extends prog s s'
          × Followed s' i
    unfolding visit_instr add_callee
    visit_instr_lem fuel visit x (call none) s ih lt reached k inv u =
        (s, refl, inv, Extends-refl s, record { jumps = λ y j. absurd j; starts = λ f c. absurd c })
    visit_instr_lem fuel visit x (call (some f)) s ih lt reached k inv u = (
      add_callee (some f) s,
      refl,
      add_callee-Inv prog main first s f x reached (call (some f), k, refl) inv,
      Extends-add_callee f s,
      record {
        jumps = λ y j. absurd j;
        starts = λ g c. rw c (add_callee-adds prog main first s f);
      },
    )
    visit_instr_lem fuel visit x (go none) s ih lt reached k inv u =
        (s, refl, inv, Extends-refl s, record { jumps = λ y j. absurd j; starts = λ f c. absurd c })
    visit_instr_lem fuel visit x (go (some f)) s ih lt reached k inv u = (
      add_callee (some f) s,
      refl,
      add_callee-Inv prog main first s f x reached (go (some f), k, refl) inv,
      Extends-add_callee f s,
      record {
        jumps = λ y j. absurd j;
        starts = λ g c. rw c (add_callee-adds prog main first s f);
      },
    )
    visit_instr_lem fuel visit x (branch t e) s ih lt reached k inv u =
        let to_t : Succ prog x t = (branch t e, k, inl refl) in
        let to_e : Succ prog x e = (branch t e, k, inr refl) in
        let (s1, e1, inv1, ext1, seen1) = ih t s (closed x t lt to_t) (next reached to_t) inv u in
        let less = unseen_mono n s.visited.blocks s1.visited.blocks ext1.blocks_grow in
        let (s2, e2, inv2, ext2, seen2) =
          ih e s1 (closed x e lt to_e) (next reached to_e) inv1 (omega arith) in
        (
          s2,
          rw e1 e2,
          inv2,
          Extends-trans ext1 ext2,
          record {
            jumps = λ y j. elim j [
              | inl y_t ↦ rw y_t (ext2.blocks_grow t seen1)
              | inr y_e ↦ rw y_e seen2
            ];
            starts = λ f c. absurd c;
          },
        )
    visit_instr_lem fuel visit x (jump t) s ih lt reached k inv u =
        let to_t : Succ prog x t = (jump t, k, refl) in
        let (s1, e1, inv1, ext1, seen1) = ih t s (closed x t lt to_t) (next reached to_t) inv u in
        (s1, e1, inv1, ext1, record { jumps = λ y j. rw j seen1; starts = λ f c. absurd c })
    visit_instr_lem fuel visit x ret s ih lt reached k inv u = (
      s,
      visit_children_idle prog visit s.children s.visited inv.flat,
      inv,
      Extends-refl s,
      record { jumps = λ y j. absurd j; starts = λ f c. absurd c },
    )
    visit_instr_lem fuel visit x other s ih lt reached k inv u =
        (s, refl, inv, Extends-refl s, record { jumps = λ y j. absurd j; starts = λ f c. absurd c })

    -- Of the rest of the instructions of a block `x`.
    visit_instrs_lem :
        (fuel : ℕ) (visit : ℕ → State → Outcome State) (x : ℕ) (todo : List Instr) (s : State)
        → Succeeds fuel visit
        → x < n
        → Reach prog first x
        → ((i : Instr) → Memᴰ i todo → Memᴰ i (prog.instrs x))
        → Inv prog main first s
        → unseen n s.visited.blocks < fuel
        → (s' : State) × (visit_instrs prog visit todo s ≡ done s')
          × Inv prog main first s'
          × Extends prog s s'
          × ((i : Instr) → Memᴰ i todo → Followed s' i)
    unfolding visit_instrs
    visit_instrs_lem fuel visit x [] s ih lt reached sub inv u =
        (s, refl, inv, Extends-refl s, λ i k. absurd (Memᴰ.not-nil k))
    visit_instrs_lem fuel visit x (i ∷ todo) s ih lt reached sub inv u =
        let (s1, e1, inv1, ext1, followed) =
          visit_instr_lem fuel visit x i s ih lt reached (sub i (Memᴰ.head refl)) inv u in
        let less = unseen_mono n s.visited.blocks s1.visited.blocks ext1.blocks_grow in
        let (s2, e2, inv2, ext2, rest) =
          visit_instrs_lem fuel visit x todo s1 ih lt reached (λ j k. sub j (Memᴰ.tail k)) inv1
            (omega arith) in
        (
          s2,
          rw e1 e2,
          inv2,
          Extends-trans ext1 ext2,
          λ j k. elim (Memᴰ.cases_cons k) [
            | inl e ↦ rw e (Followed-later ext2 followed)
            | inr later ↦ rest j later
          ],
        )

    pub visit_block_lem : (fuel : ℕ) → Succeeds fuel (visit_block prog fuel)
    unfolding visit_block
    visit_block_lem zero b s lt reached inv u = absurd (omega arith)
    visit_block_lem (suc fuel) b s lt reached inv u =
        elim (Bool-cases (contains b s.visited.blocks)) [
          | inl old ↦ (
            s,
            rw (old, visit_block),
            inv,
            Extends-refl s,
            (contains_iff b s.visited.blocks).0 old,
          )
          | inr new ↦
              let s0 : State = record s { visited = mark_block b s.visited } in
              let inv0 : Inv prog main first s0 = Inv-mark_block b s reached inv in
              let fewer = unseen_mark n b s.visited.blocks lt new in
              let (s1, e1, inv1, ext1, all) =
                visit_instrs_lem fuel (visit_block prog fuel) b (prog.instrs b) s0
                  (visit_block_lem fuel) lt reached (λ i k. k) inv0 (omega arith) in
              (
                s1,
                rw (new, visit_block) e1,
                inv1,
                Extends-mark_block b s s1 ext1 all,
                ext1.blocks_grow b (Memᴰ.head refl),
              )
        ]

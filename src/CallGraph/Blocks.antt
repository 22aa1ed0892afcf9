-- ===== src/CallGraph/Blocks.antt =====
-- The control flow that ssabuilder/callgraph/callgraph.go follows, and a count of the blocks that
-- are still to be visited.
use dingo_hunter.Prelude.{
  ℕ, zero, suc, subst, ◌+◌, ◌≤◌, ◌<◌, ◌≡◌, ◌⊎◌, inl, inr, true, false, some, List, ◌∷◌, Memᴰ,
  contains, contains_iff, nat_eq, nat_beq, nat_beq_iff, if◌then◌else◌, arith, Bool-cases,
}
use dingo_hunter.CallGraph.{Instr, Program, call, go, branch, jump}

-- The instruction leads to the block.
abbrev pub Jumps : Instr → ℕ → Type 0
Jumps (branch t e) y = (y ≡ t) ⊎ (y ≡ e)
Jumps (jump t) y = y ≡ t
Jumps i y = ⊥

-- The instruction calls the function, or starts it as a goroutine, by name.
abbrev pub Starts : Instr → ℕ → Type 0
Starts (call (some f)) g = g ≡ f
Starts (go (some f)) g = g ≡ f
Starts i g = ⊥

module _ (prog : Program) where
  abbrev pub Succ : ℕ → ℕ → Type 0
  Succ x y = (i : Instr) × Memᴰ i (prog.instrs x) × Jumps i y

  abbrev pub Calls : ℕ → ℕ → Type 0
  Calls x f = (i : Instr) × Memᴰ i (prog.instrs x) × Starts i f

  pub data Reach (first : ℕ) : ℕ → Type 0 where
    here : Reach first first
    next : {x y : ℕ} → Reach first x → Succ x y → Reach first y

  -- The first `n` blocks lead to each other only.
  abbrev pub IsClosed : ℕ → Type 0
  IsClosed n = (x y : ℕ) → x < n → Succ x y → y < n

-- How many of the first `n` blocks are not in the list.
pub unseen : ℕ → List ℕ → ℕ
unseen zero bs = 0
unseen (suc k) bs = (if contains k bs then 0 else 1) + unseen k bs

contains_mono :
    (k : ℕ) (bs cs : List ℕ)
    → ((x : ℕ) → Memᴰ x bs → Memᴰ x cs)
    → contains k bs ≡ true
    → contains k cs ≡ true
contains_mono k bs cs sub h = (contains_iff k cs).1 (sub k ((contains_iff k bs).0 h))

pub unseen_mono :
    (n : ℕ) (bs cs : List ℕ) → ((x : ℕ) → Memᴰ x bs → Memᴰ x cs) → unseen n cs ≤ unseen n bs
unfolding unseen
unseen_mono zero bs cs sub = omega arith
unseen_mono (suc k) bs cs sub = ground (arith, unseen_mono k bs cs sub, contains_mono k bs cs sub)

unseen_other : (n b : ℕ) (bs : List ℕ) → n ≤ b → unseen n (b ∷ bs) ≡ unseen n bs
unfolding unseen
unseen_other zero b bs h = ground arith
unseen_other (suc k) b bs h = ground (arith, unseen_other k b bs, nat_beq_iff b k)

pub unseen_mark :
    (n b : ℕ) (bs : List ℕ) → b < n → contains b bs ≡ false → suc (unseen n (b ∷ bs)) ≡ unseen n bs
unfolding unseen
unseen_mark zero b bs h new = absurd (omega arith)
unseen_mark (suc k) b bs h new = elim (Bool-cases (nat_beq b k)) [
  | inl same ↦
      let e : b ≡ k = (nat_beq_iff b k).0 same in
      let old : contains k bs ≡ false = subst (λ x. contains x bs ≡ false) e new in
      ground (arith, unseen_other k b bs)
  | inr differ ↦ ground (arith, unseen_mark k b bs, nat_beq_iff b k)
]

pub unseen_le : (n : ℕ) (bs : List ℕ) → unseen n bs ≤ n
unfolding unseen
unseen_le zero bs = omega arith
unseen_le (suc k) bs = ground (arith, unseen_le k bs)

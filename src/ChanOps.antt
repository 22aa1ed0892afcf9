-- ===== src/ChanOps.antt =====
-- ssabuilder/channel.go: the channel operations of instructions and programs, and the removal of
-- those on channels of another type. A function is its blocks; the functions of a program come from
-- a map, in any order.
pub mod Purge
use dingo_hunter.Prelude.{
  ℕ, suc, zero, Bool, true, false, Option, none, some, List, [], ◌∷◌, ◌++◌, get_elem?, set, take,
  length, ◌==◌, nat_eq, if◌then◌else◌,
}
use dingo_hunter.Ssa.{Value}
use dingo_hunter.Fairness.{ChanOpType, chan_make, chan_send, chan_recv, chan_close}

infixl 5 ◌>>=◌
abbrev pub ◌>>=◌ : {A B : Type 0} → Option A → (A → Option B) → Option B
none >>= f = none
(some a) >>= f = f a

-- A position is a number.
pub record ChanOp : Type 0 where
  pub value : Value
  pub typ : ChanOpType
  pub pos : ℕ

pub data Direction : Type 0 where
  send_only recv_only send_recv : Direction

pub record SelectState : Type 0 where
  pub chan : Value
  pub dir : Direction
  pub pos : ℕ

pub data Instr : Type 0 where
  send : (chan : Value) (pos : ℕ) → Instr
  un_op : (is_arrow : Bool) (x : Value) (pos : ℕ) → Instr
  select : List SelectState → Instr
  call : (is_close : Bool) (args : List Value) (pos : ℕ) → Instr
  other : Instr

unfoldable pub select_ops : List SelectState → List ChanOp
select_ops [] = []
select_ops (st ∷ sts) = elim st.dir [
  | send_only ↦ record { value = st.chan; typ = chan_send; pos = st.pos } ∷ select_ops sts
  | recv_only ↦ record { value = st.chan; typ = chan_recv; pos = st.pos } ∷ select_ops sts
  | send_recv ↦ select_ops sts
]

-- `chanOps`; `none` is an index out of range, for a close without an argument.
unfoldable pub chan_ops : Instr → Option (List ChanOp)
unfolding select_ops
chan_ops (send ch pos) = some (record { value = ch; typ = chan_send; pos = pos } ∷ [])
chan_ops (un_op true x pos) = some (record { value = x; typ = chan_recv; pos = pos } ∷ [])
chan_ops (un_op false x pos) = some []
chan_ops (select states) = some (select_ops states)
chan_ops (call true (ch ∷ args) pos) =
    some (record { value = ch; typ = chan_close; pos = pos } ∷ [])
chan_ops (call true [] pos) = none
chan_ops (call false args pos) = some []
chan_ops other = some []

unfoldable pub add_ops : Option (List ChanOp) → List ChanOp → Option (List ChanOp)
add_ops none ops = none
add_ops (some more) ops = some (ops ++ more)

unfoldable pub instrs_ops : List Instr → List ChanOp → Option (List ChanOp)
unfolding chan_ops add_ops
instrs_ops [] ops = some ops
instrs_ops (i ∷ is) ops = do ops' ← add_ops (chan_ops i) ops; instrs_ops is ops'

unfoldable pub blocks_ops : List (List Instr) → List ChanOp → Option (List ChanOp)
unfolding instrs_ops
blocks_ops [] ops = some ops
blocks_ops (b ∷ bs) ops = do ops' ← instrs_ops b ops; blocks_ops bs ops'

-- `progChanOps`
unfoldable pub prog_chan_ops : List (List (List Instr)) → List ChanOp → Option (List ChanOp)
unfolding blocks_ops
prog_chan_ops [] ops = some ops
prog_chan_ops (fn ∷ fns) ops = do ops' ← blocks_ops fn ops; prog_chan_ops fns ops'

-- The element type of a channel, up to types.Identical; `none` for a value of another type.
module _ (elem_type : Value → Option ℕ) where
  -- `none` is a failed assertion that a type is a channel.
  unfoldable pub same_type : Value → Value → Option Bool
  same_type v ch = do t ← elem_type v; u ← elem_type ch; some (t == u)

  unfoldable pub keep_if : Bool → ChanOp → List ChanOp → ℕ → List ChanOp × ℕ
  keep_if true op ops i = (set ops i op, suc i)
  keep_if false op ops i = (ops, i)

  -- The loop over the `left` operations from `j` on. It overwrites the slice that it runs over, at
  -- `i`.
  unfoldable pub purge_from :
      (left : ℕ) → List ChanOp → (j i : ℕ) → Value → Option (List ChanOp × ℕ)
  unfolding same_type keep_if
  purge_from zero ops j i ch = some (ops, i)
  purge_from (suc left) ops j i ch = do
    op ← get_elem? ops j
    same ← same_type op.value ch
    let (ops', i') = keep_if same op ops i
    purge_from left ops' (suc j) i' ch

  -- `purgeChanOps`
  unfoldable pub purge_chan_ops : List ChanOp → Value → Option (List ChanOp)
  unfolding purge_from
  purge_chan_ops ops ch = do (ops', i) ← purge_from (length ops) ops 0 0 ch; some (take i ops')

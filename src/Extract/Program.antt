-- ===== src/Extract/Program.antt =====
-- What package cfsmextract reads of golang.org/x/tools/go/ssa and go/types: functions, blocks,
-- instructions and the answers to its questions about their types. Functions, blocks and values
-- are pointers, here numbers.
use dingo_hunter.Prelude.{ℕ, String, Bool, List, Option}
use dingo_hunter.Ssa.{Value, Ssa}

-- The type that an allocation, a field or a global has behind its pointers. A struct has a number
-- of fields, which the maps of fields do not depend on.
pub data Shape : Type 0 where
  array_shape slice_shape struct_shape chan_shape other_shape : Shape

-- `common.Value`: a builtin, a *ssa.MakeClosure, a *ssa.Function, the receiver of a method whose
-- type is an interface or not, or another value that is called.
pub data Callee : Type 0 where
  close_builtin copy_builtin other_builtin closure_value unknown : Callee
  function : ℕ → Callee
  invoke : (is_interface : Bool) (method : ℕ) → Callee

-- An *ssa.CallCommon. `site` tells it from others, since the extraction changes its arguments.
pub record CallCommon : Type 0 where
  pub site : ℕ
  pub value : Value
  pub callee : Callee
  pub args : List Value
  pub results : ℕ

-- An *ssa.Go, with the name that is made of its function and position, and its static callee.
pub record GoCall : Type 0 where
  pub name : String
  pub static_callee : Option ℕ
  pub common : CallCommon

pub data Direction : Type 0 where
  send_only recv_only send_recv : Direction

pub record SelectState : Type 0 where
  pub chan : Value
  pub dir : Direction
  pub typ : String

-- A value that an instruction defines stands first. A `typ` is the printed type of a channel.
pub data Instr : Type 0 where
  make_chan : Value → Instr
  send : (chan : Value) (typ : String) → Instr
  recv : Value → (x : Value) (typ : String) (comma_ok : Bool) → Instr
  deref : Value → (ptr : Value) (is_global : Bool) → Instr
  call : (returned : Value) → CallCommon → Instr
  extract : Value → (tuple : Value) (index : ℕ) → Shape → Instr
  go : GoCall → Instr
  ret : List Value → Instr
  store : (addr : Value) (is_global : Bool) (val : Value) → Instr
  alloc : Value → Shape → (heap : Bool) → Instr
  make_closure : Value → List Value → Instr
  select : Value → (blocking : Bool) → List SelectState → Instr
  change_type : Value → (x : Value) → Instr
  change_interface : Value → (x : Value) → Instr
  if_instr : (cond : Value) → (succs : List ℕ) → Instr
  jump : (succs : List ℕ) → Instr
  -- the second operand, if it is a constant
  equals : Value → (x : Value) → (y : Option ℕ) → Instr
  slice : Value → Instr
  make_slice : Value → Instr
  -- whether the operand is (a pointer to) a struct, and the field is one
  field_addr : Value → (struc : Value) (index : ℕ) (is_struct field_is_struct : Bool) → Instr
  field : Value → (struc : Value) (index : ℕ) (is_struct field_is_struct : Bool) → Instr
  -- whether the operand is (a pointer to) an array or a slice
  index_addr : Value → (array : Value) (index : Value) (is_indexable : Bool) → Instr
  index : Value → (array : Value) (index : Value) (is_indexable is_pointer : Bool) → Instr
  defer : (returned : Value) → CallCommon → Instr
  run_defers : Instr
  phi : Value → (is_chan : Bool) → List Value → Instr
  -- whether the assertion is possible: no missing methods, or identical underlying types
  type_assert : Value → (x : Value) (is_possible : Bool) → Instr
  make_interface : Value → (x : Value) → Instr
  -- *ssa.DebugRef, and what is not handled
  other : Instr

-- `preds` is the number of predecessors, `label` is made of the name of the function and the index.
pub record Block : Type 0 where
  pub preds : ℕ
  pub label : String
  pub instrs : List Instr

pub record Program : Type 0 where
  pub ssa : Ssa
  pub block : ℕ → Block
  -- `fn.Blocks[0]`; `none` if fn has no body
  pub entry : ℕ → Option ℕ
  pub params : ℕ → List Value
  pub free_vars : ℕ → List Value
  -- `fn.Signature.Results()`: which are channels
  pub results : ℕ → List Bool
  -- `deref(v.Type())`
  pub pointee : Value → Shape
  -- whether `types.MissingMethod` finds none, and `prog.LookupMethod`, for the type of a value
  pub implements : Value → ℕ → Bool
  pub lookup_method : Value → ℕ → Option ℕ

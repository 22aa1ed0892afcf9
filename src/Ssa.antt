-- ===== src/Ssa.antt =====
-- What the analysis reads of golang.org/x/tools/go/ssa and go/types, which are not part of this
-- repository. A value is a pointer; the record holds the answers of the methods called on it.
use dingo_hunter.Prelude.{ℕ, String, Option}

-- `ssa.Value`, by its identity.
abbrev pub Value : Type 0
Value = ℕ

pub record Ssa : Type 0 where
  -- `v.Type().(*types.Chan)` and, if it is one, `Elem().String()`
  pub chan_elem : Value → Option String

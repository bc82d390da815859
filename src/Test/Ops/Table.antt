-- ===== src/Test/Ops/Table.antt =====
-- src/bltin/test.c: facts about every entry of the table of operators.
use gwsh.Base.{◌≡◌, some, List, [], ◌∷◌, Bytes, bytes_eq, bytes_eq_iff, Bool-cases, inl, inr, arith}
use gwsh.Test.Ops.{Token, eoi, operand, Op, ops, find_op, getop}

-- An entry is no end and no operand, its text is not empty, and `(` is no unary or binary operator.
abbrev pub IsOperator : Token → Type 0
IsOperator eoi = ⊥
IsOperator operand = ⊥
IsOperator _ = Unit

abbrev pub NonEmpty : Bytes → Type 0
NonEmpty [] = ⊥
NonEmpty (c ∷ s) = Unit

abbrev pub IsEntry : Op → Type 0
IsEntry op = IsOperator op.op_num × NonEmpty op.op_text

abbrev AllEntries : List Op → Type 0
AllEntries [] = Unit
AllEntries (op ∷ rest) = IsEntry op × AllEntries rest

ops-AllEntries : AllEntries ops
unfolding ops
ops-AllEntries = ground arith

find_op_lem :
    (s : Bytes) (l : List Op) (op : Op)
    → find_op s l ≡ some op
    → AllEntries l
    → IsEntry op × (s ≡ op.op_text)
unfolding find_op
find_op_lem s [] op e all = cc
find_op_lem s (o ∷ l) op e all = elim (Bool-cases (bytes_eq s o.op_text)) [
  | inl same ↦
      let same_op : o ≡ op = ground arith in
      (rw (← same_op) all.0, rw (← same_op) ((bytes_eq_iff s o.op_text).0 same))
  | inr other ↦ find_op_lem s l op (rw other at e) all.1
]

-- A word that is found in the table is the text of its entry.
pub getop_lem : (s : Bytes) (op : Op) → getop s ≡ some op → IsEntry op × (s ≡ op.op_text)
unfolding getop
getop_lem s op e = find_op_lem s ops op e ops-AllEntries

-- ===== src/Atomics/Ops.antt =====
-- src/common/atomics/atomics.h: the operations of `Bool` and `Int`.
pub data BoolOp : Type 0 where
  eq neq and or : BoolOp

pub data UnaryOp : Type 0 where
  neg not : UnaryOp

pub data CompareOp : Type 0 where
  eq neq lss leq geq gtr : CompareOp

pub data BinaryOp : Type 0 where
  add sub mul div rem and or xor and_not : BinaryOp

pub data ShiftOp : Type 0 where
  left right : ShiftOp

-- The operation that holds of the operands in the other order.
unfoldable pub flipped : CompareOp → CompareOp
flipped CompareOp.eq = CompareOp.eq
flipped CompareOp.neq = CompareOp.neq
flipped CompareOp.lss = CompareOp.gtr
flipped CompareOp.leq = CompareOp.geq
flipped CompareOp.geq = CompareOp.leq
flipped CompareOp.gtr = CompareOp.lss

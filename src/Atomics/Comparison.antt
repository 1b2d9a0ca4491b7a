-- ===== src/Atomics/Comparison.antt =====
-- Theorems about `Int::Compare`.
use katara.Prelude.{true, false, ◌≡◌, ◌↔◌, ◌≢◌, arith}
use katara.Prelude.Int.{ℤ, ◌≤ℤ◌}
use katara.Prelude.Result.{ok, err, bad_access}
use katara.Atomics.IntType.{IntType}
use katara.Atomics.Ops.{CompareOp, flipped}
use katara.Atomics.Int.{AtomicInt, same_type, holds}
use katara.Atomics.Compute.{compare}

holds-flipped : (op : CompareOp) (a b : ℤ) → holds (flipped op) b a ≡ holds op a b
unfolding flipped holds
holds-flipped CompareOp.eq a b = ground arith
holds-flipped _ a b = ground arith

same_type_comm : (t r : IntType) → same_type t r ≡ same_type r t
same_type_comm t r = ground arith

-- Comparing the operands the other way round by the flipped operation gives the same outcome, the
-- exception on operands of two types included.
pub compare-flipped :
    (a : AtomicInt) (op : CompareOp) (b : AtomicInt) → compare b (flipped op) a ≡ compare a op b
unfolding compare
compare-flipped a op b = rw (same_type_comm b.type a.type, holds-flipped op a.value b.value)

-- What the six comparisons of two integers of one type answer.
pub record Compares (a b : AtomicInt) : Type 0 where
  pub eq_iff : (compare a CompareOp.eq b ≡ ok true) ↔ (a.value ≡ b.value)
  pub neq_iff : (compare a CompareOp.neq b ≡ ok false) ↔ (a.value ≡ b.value)
  pub lss_iff : (compare a CompareOp.lss b ≡ ok false) ↔ (b.value ≤ℤ a.value)
  pub leq_iff : (compare a CompareOp.leq b ≡ ok true) ↔ (a.value ≤ℤ b.value)
  pub geq_iff : (compare a CompareOp.geq b ≡ ok true) ↔ (b.value ≤ℤ a.value)
  pub gtr_iff : (compare a CompareOp.gtr b ≡ ok false) ↔ (a.value ≤ℤ b.value)

compares :
    (t : IntType) (x y : ℤ)
    → Compares (record { type = t; value = x }) (record { type = t; value = y })
unfolding compare
compares t x y = ground arith

-- Of two integers of one type the six comparisons are those of the integers they stand for.
pub compare_exact : (a b : AtomicInt) → a.type ≡ b.type → Compares a b
unfolding compare
compare_exact a b e = ground arith

-- Comparing integers of two types throws.
pub compare_mixed :
    (a : AtomicInt) (op : CompareOp) (b : AtomicInt)
    → a.type ≢ b.type
    → compare a op b ≡ err bad_access
unfolding compare
compare_mixed a op b e = ground arith

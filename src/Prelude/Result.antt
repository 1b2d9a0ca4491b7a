-- ===== src/Prelude/Result.antt =====
-- What a C++ function does: it returns, or it ends the program.
-- `failed` is a call of `common::logging::fail`, `bad_access` an exception of the standard library
-- that nothing catches (`std::out_of_range`, `std::bad_variant_access`), and `undefined` a step whose
-- behaviour the language leaves undefined (signed overflow, division by zero, a bad shift count).

pub data Failure : Type 0 where
  failed bad_access undefined : Failure

pub data Result {ι} (R : Type ι) : Type ι where
  err : Failure → Result R
  ok : R → Result R

infixl 5 ◌>>=◌
abbrev pub ◌>>=◌ {ι κ} : {R : Type ι} {S : Type κ} → Result R → (R → Result S) → Result S
err why >>= k = err why
ok r >>= k = k r

-- ===== src/Interpreter/RawBytes.antt =====
-- Reading and writing the bytes of the machine's memory, as `Load` and `Store` of src/ir/interpreter/heap.h do.
use katara.Prelude.{ℕ, length, ◌∙◌, zero, suc, ◌≡◌, refl, arith, true, false, List, [], ◌∷◌}
use katara.Prelude.Int.{ℤ, pos, ◌+ℤ◌}
use katara.Atomics.Cpp.{leb_ℤ}
use katara.Interpreter.Heap.{eqb_ℤ, write_bytes, read_bytes}

step_back : (a x : ℤ) → leb_ℤ (a +ℤ pos 1) x ≡ true → leb_ℤ a x ≡ true
unfolding ◌+ℤ◌
step_back a x k = ground arith

behind_start : (a x : ℤ) → leb_ℤ (a +ℤ pos 1) x ≡ true → eqb_ℤ x a ≡ false
unfolding ◌+ℤ◌
behind_start a x k = ground arith

-- Reading looks at no byte below the address.
read_bytes-agree :
    (f g : ℤ → ℕ) (a : ℤ) (n : ℕ)
    → ((x : ℤ) → leb_ℤ a x ≡ true → f x ≡ g x)
    → read_bytes f a n ≡ read_bytes g a n
unfolding read_bytes
read_bytes-agree f g a zero h = refl
read_bytes-agree f g a (suc n) h =
    rw (h a (ground arith), read_bytes-agree f g (a +ℤ pos 1) n (λ x k. h x (step_back a x k))) refl

write_bytes-head :
    (memory : ℤ → ℕ) (a : ℤ) (b : ℕ) (bs : List ℕ) → write_bytes memory a (b ∷ bs) a ≡ b
unfolding write_bytes
write_bytes-head memory a b bs = ground arith

write_bytes-tail :
    (memory : ℤ → ℕ) (a : ℤ) (b : ℕ) (bs : List ℕ) (x : ℤ)
    → leb_ℤ (a +ℤ pos 1) x ≡ true
    → write_bytes memory a (b ∷ bs) x ≡ write_bytes memory (a +ℤ pos 1) bs x
unfolding write_bytes
write_bytes-tail memory a b bs x k = rw (behind_start a x k) refl

pub read_bytes-write_bytes :
    (memory : ℤ → ℕ) (a : ℤ) (bs : List ℕ) → read_bytes (write_bytes memory a bs) a (length bs) ≡ bs
unfolding read_bytes
read_bytes-write_bytes memory a [] = refl
read_bytes-write_bytes memory a (b ∷ bs) =
    let rest =
      read_bytes-agree (write_bytes memory a (b ∷ bs)) (write_bytes memory (a +ℤ pos 1) bs)
        (a +ℤ pos 1) (length bs) (write_bytes-tail memory a b bs) in
    ap2 (write_bytes-head memory a b bs) (rest ∙ read_bytes-write_bytes memory (a +ℤ pos 1) bs)
  where
    ap2 : {x y : ℕ} {xs ys : List ℕ} → x ≡ y → xs ≡ ys → x ∷ xs ≡ y ∷ ys
    ap2 p q = rw (p, q) refl

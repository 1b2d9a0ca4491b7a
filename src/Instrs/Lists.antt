-- ===== src/Instrs/Lists.antt =====
-- Bytes in the middle of a list: what is read, written and overwritten behind a header.
use katara.Prelude.{
  ℕ, zero, suc, ◌+◌, ◌<◌, ◌≡◌, refl, ap, ◌∙◌, arith, List, [], ◌∷◌, ◌++◌, some, length,
  length-append, get_elem?, set,
}
use katara.Instrs.Encoder.{held, overwrite}

plus_zero : (k : ℕ) → k + 0 ≡ k
plus_zero k = omega arith

module _ {A : Type 0} where
  pub append_nil : (xs : List A) → xs ++ [] ≡ xs
  append_nil [] = refl
  append_nil (x ∷ xs) = ap (λ (t : List A). x ∷ t) (append_nil xs)

  pub append_assoc : (xs ys zs : List A) → (xs ++ ys) ++ zs ≡ xs ++ (ys ++ zs)
  append_assoc [] ys zs = refl
  append_assoc (x ∷ xs) ys zs = ap (λ (t : List A). x ∷ t) (append_assoc xs ys zs)

  behind_suc : (xs : List A) (x : A) (k : ℕ) → k + length (x ∷ xs) ≡ suc (k + length xs)
  behind_suc xs x k = omega arith

  pub get_elem?-append :
      (xs ys : List A) (i : ℕ) → i < length xs → get_elem? (xs ++ ys) i ≡ get_elem? xs i
  get_elem?-append [] ys i h = absurd (omega arith)
  get_elem?-append (x ∷ xs) ys zero h = refl
  get_elem?-append (x ∷ xs) ys (suc i) h = get_elem?-append xs ys i (omega arith)

  pub get_elem?-append_behind :
      (xs ys : List A) (k : ℕ) → get_elem? (xs ++ ys) (k + length xs) ≡ get_elem? ys k
  get_elem?-append_behind [] ys k = ap (get_elem? ys) (plus_zero k)
  get_elem?-append_behind (x ∷ xs) ys k =
      ap (get_elem? (x ∷ (xs ++ ys))) (behind_suc xs x k) ∙ get_elem?-append_behind xs ys k

  pub set-append :
      (xs ys : List A) (i : ℕ) (v : A) → i < length xs → set (xs ++ ys) i v ≡ set xs i v ++ ys
  set-append [] ys i v h = absurd (omega arith)
  set-append (x ∷ xs) ys zero v h = refl
  set-append (x ∷ xs) ys (suc i) v h =
      ap (λ (t : List A). x ∷ t) (set-append xs ys i v (omega arith))

  pub set-append_behind :
      (xs ys : List A) (k : ℕ) (v : A) → set (xs ++ ys) (k + length xs) v ≡ xs ++ set ys k v
  set-append_behind [] ys k v = ap (λ (n : ℕ). set ys n v) (plus_zero k)
  set-append_behind (x ∷ xs) ys k v =
      ap (λ (n : ℕ). set (x ∷ (xs ++ ys)) n v) (behind_suc xs x k)
      ∙ ap (λ (t : List A). x ∷ t) (set-append_behind xs ys k v)

  pub set_at_length :
      (xs : List A) (y : A) (ys : List A) (v : A) → set (xs ++ y ∷ ys) (length xs) v ≡ xs ++ v ∷ ys
  set_at_length [] y ys v = refl
  set_at_length (x ∷ xs) y ys v = ap (λ (t : List A). x ∷ t) (set_at_length xs y ys v)

  pub get_at_length :
      (xs : List A) (y : A) (ys : List A) → get_elem? (xs ++ y ∷ ys) (length xs) ≡ some y
  get_at_length [] y ys = refl
  get_at_length (x ∷ xs) y ys = get_at_length xs y ys

pub length-held : (f : ℕ → ℕ) (i n : ℕ) → length (held f i n) ≡ n
unfolding held
length-held f i zero = refl
length-held f i (suc n) = ap suc (length-held f (suc i) n)

pub overwrite-cons :
    (x : ℕ) (xs : List ℕ) (i : ℕ) (bs : List ℕ)
    → overwrite (x ∷ xs) (suc i) bs ≡ x ∷ overwrite xs i bs
unfolding overwrite
overwrite-cons x xs i [] = refl
overwrite-cons x xs i (b ∷ bs) = overwrite-cons x (set xs i b) (suc i) bs

pub overwrite_all : (ys bs : List ℕ) → length ys ≡ length bs → overwrite ys 0 bs ≡ bs
unfolding overwrite
overwrite_all [] [] h = refl
overwrite_all [] (b ∷ bs) h = absurd (omega arith)
overwrite_all (y ∷ ys) [] h = absurd (omega arith)
overwrite_all (y ∷ ys) (b ∷ bs) h =
    rw (overwrite-cons b ys 0 bs, overwrite_all ys bs (omega arith)) refl

suc_plus : (k n : ℕ) → suc (k + n) ≡ suc k + n
suc_plus k n = omega arith

pub overwrite-append_behind :
    (xs ys : List ℕ) (k : ℕ) (bs : List ℕ)
    → overwrite (xs ++ ys) (k + length xs) bs ≡ xs ++ overwrite ys k bs
unfolding overwrite
overwrite-append_behind xs ys k [] = refl
overwrite-append_behind xs ys k (b ∷ bs) =
    rw (set-append_behind xs ys k b, suc_plus k (length xs))
      (overwrite-append_behind xs (set ys k b) (suc k) bs)

pub length_snoc : (xs : List ℕ) (y : ℕ) → length (xs ++ y ∷ []) ≡ 1 + length xs
length_snoc xs y = length-append xs (y ∷ []) ∙ omega arith

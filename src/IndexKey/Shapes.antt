-- ===== src/IndexKey/Shapes.antt =====
-- The forms that an `IndexKey` can take, and what it then stands for.
use fdp_rocks.Base.{
  ℕ, ◌<◌, ◌≤◌, ◌≡◌, refl, ap, true, false, Option, none, some, List, [], ◌∷◌, leb, ◌==◌, length,
  take, arith,
}
use fdp_rocks.IndexKey.{null, buffer, array, Key, Store, stack_len, read}

-- What a reader sees of an object: that it does not live, that its bytes are gone, or its bytes.
pub data Value : Type 0 where
  dead : Value
  lost : Value
  bytes : List ℕ → Value

abbrev pub shown : Option (List ℕ) → Value
shown none = lost
shown (some bs) = bytes bs

abbrev pub value_of : Store → Option Key → Value
value_of s none = dead
value_of s (some k) = shown (read s k.len k.data_ptr)

abbrev pub value : Store → ℕ → Value
value s i = value_of s (s.keys i)

-- The forms of the object `i`: none, the default one, one in its buffer, one in an array, and one
-- whose array has been moved away.
pub data Shape (heap : ℕ → Option (List ℕ)) (i : ℕ) : Option Key → Type 0 where
  absent : Shape heap i none
  empty :
      (st : List ℕ)
      → length st ≡ stack_len
      → Shape heap i (some (record { len = 0; data_ptr = null; stack_key = st }))
  short :
      (n : ℕ) (st : List ℕ)
      → n ≤ stack_len
      → length st ≡ stack_len
      → Shape heap i (some (record { len = n; data_ptr = buffer i; stack_key = st }))
  long :
      (a : ℕ) (bs st : List ℕ)
      → heap a ≡ some bs
      → stack_len < length bs
      → length st ≡ stack_len
      → Shape heap i (some (record { len = length bs; data_ptr = array a; stack_key = st }))
  moved :
      (n : ℕ) (st : List ℕ)
      → stack_len < n
      → length st ≡ stack_len
      → Shape heap i (some (record { len = n; data_ptr = null; stack_key = st }))

abbrev pub shape_value :
    {heap : ℕ → Option (List ℕ)} {i : ℕ} {o : Option Key} → Shape heap i o → Value
shape_value absent = dead
shape_value (empty st l) = bytes []
shape_value (short n st h l) = bytes (take n st)
shape_value (long a bs st e h l) = bytes bs
shape_value (moved n st h l) = lost

pub take-length : (xs : List ℕ) → take (length xs) xs ≡ xs
take-length [] = refl
take-length (x ∷ xs) = ap (λ ys. x ∷ ys) (take-length xs)

-- What a reader sees is what the form says.
pub value_lem :
    (s : Store) (i : ℕ) (o : Option Key) (f : Shape s.heap i o)
    → s.keys i ≡ o
    → value_of s o ≡ shape_value f
unfolding read
value_lem s i _ absent e = refl
value_lem s i _ (empty st l) e = refl
value_lem s i _ (short n st h l) e =
    let fits : leb n stack_len ≡ true = ground arith in rw (e, fits) refl
value_lem s i _ (long a bs st f h l) e =
    let fits : leb (length bs) (length bs) ≡ true = ground arith in
    rw (f, fits) (ap bytes (take-length bs))
value_lem s i _ (moved n st h l) e = let long : (n == 0) ≡ false = ground arith in rw long refl

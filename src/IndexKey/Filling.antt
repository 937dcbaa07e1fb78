-- ===== src/IndexKey/Filling.antt =====
-- The parts that the operations of `IndexKey` share, on stores in which each array belongs to one
-- object: to free an object's array, and to give it bytes.
use mathlib.Core.Path.{fun_ext}
use fdp_rocks.Base.{
  ℕ, zero, suc, ◌<◌, ◌≤◌, ◌≡◌, refl, sym, ap, ◌∙◌, subst, true, false, some, List, [], ◌∷◌, ◌++◌,
  ltb, length, take, drop, arith, ℕ_discrete, length-append, length-take, length-drop,
}
use fdp_rocks.Base.Family.{update, update-same, update-other}
use fdp_rocks.IndexKey.{
  Pointer, null, buffer, array, Key, Store, stack_len, put, new_array, delete_array, release,
  copy_into,
}
use fdp_rocks.IndexKey.Forms.{Form-dead, is_array, pointer}
use fdp_rocks.IndexKey.Shapes.{
  Value, dead, bytes, Shape, empty, short, long, moved, value, value_lem,
}
use fdp_rocks.IndexKey.Ownership.{
  Owned, Others, Owned-Others, Others-plain, Others-delete, Others-new, Owned-fill,
}

pub take-take-append :
    (n : ℕ) (xs ys : List ℕ) → n ≤ length xs → take n (take n xs ++ ys) ≡ take n xs
take-take-append zero xs ys h = refl
take-take-append (suc n) [] ys h = absurd (omega arith)
take-take-append (suc n) (x ∷ xs) ys h = ap (λ zs. x ∷ zs) (take-take-append n xs ys (omega arith))

length-copy_into :
    (old bs : List ℕ) (n : ℕ)
    → n ≤ length bs
    → n ≤ length old
    → length (copy_into old bs n) ≡ length old
length-copy_into old bs n h k =
    omega (arith, length-append (take n bs) (drop n old), length-take n bs, length-drop n old)

new_array-heap : (s : Store) (bs : List ℕ) → (new_array bs s).heap s.next ≡ some bs
unfolding new_array
new_array-heap s bs = update-same s.heap s.next (some bs)

module _ {i : ℕ} {v : ℕ → Value} {s : Store} where
  -- The store is free for an object where none lives.
  pub vacant : Owned v s → v i ≡ dead → Others i null v s
  vacant o d =
      let gone = Form-dead s.heap i (s.keys i) (v i) (o.form i) d in
      Others-plain (pointer (s.keys i)) null (ap (λ k. is_array (pointer k)) gone) refl
        (Owned-Others i o)

  -- The code that frees an array leaves it free for the object.
  pub release_lem :
      (k : Key)
      → Owned v s
      → s.keys i ≡ some k
      → (s' : Store) × (release k s ≡ some s') × (s'.keys ≡ s.keys) × Others i null v s'
  unfolding release delete_array
  release_lem k o e =
      by_shape k (subst (Shape s.heap i) e (o.form i).0)
        (subst (λ q. Others i (pointer q) v s) e (Owned-Others i o))
    where
      by_shape :
          (k : Key)
          → Shape s.heap i (some k)
          → Others i k.data_ptr v s
          → (s' : Store) × (release k s ≡ some s') × (s'.keys ≡ s.keys) × Others i null v s'
      by_shape _ (empty st l) r = (s, refl, refl, r)
      by_shape _ (short n st h l) r =
          let fits : ltb stack_len n ≡ false = ground arith in
          (s, rw fits refl, refl, Others-plain (buffer i) null refl refl r)
      by_shape _ (long a bs st f h l) r =
          let big : ltb stack_len (length bs) ≡ true = ground arith in
          (_, rw (big, f) refl, refl, Others-delete a r)
      by_shape _ (moved n st h l) r =
          let big : ltb stack_len n ≡ true = ground arith in (s, rw big refl, refl, r)

  -- Bytes are copied into the buffer of the object.
  pub Owned-copy :
      (old bs : List ℕ) (n : ℕ)
      → length old ≡ stack_len
      → n ≤ stack_len
      → n ≤ length bs
      → Others i null v s
      → Owned
          (update v i (bytes (take n bs)))
          (put i (record { len = n; data_ptr = buffer i; stack_key = copy_into old bs n }) s)
  unfolding put
  Owned-copy old bs n l h k r =
      Owned-fill _ _
        (
          short n (copy_into old bs n) h (length-copy_into old bs n k (omega arith) ∙ l),
          ap bytes (take-take-append n bs (drop n old) k),
        )
        (Others-plain null (buffer i) refl refl r)

  -- Bytes are put into a new array.
  pub Owned-new :
      (bs st : List ℕ)
      → length st ≡ stack_len
      → stack_len < length bs
      → Others i null v s
      → Owned (update v i (bytes bs)) (
          put i
            (record { len = length bs; data_ptr = array s.next; stack_key = st })
            (new_array bs s))
  unfolding put
  Owned-new bs st l h r =
      Owned-fill _ _ (long s.next bs st (new_array-heap s bs) h l, refl) (Others-new bs r)

  -- To write what is there already changes nothing.
  pub Others-same :
      (p : Pointer) (j : ℕ) (k : Key)
      → s.keys j ≡ some k
      → Others i p v s
      → Others i p v (put j k s)
  unfolding put
  Others-same p j k e r = subst (λ ks. Others i p v (record s { keys = ks })) (sym (fun_ext same)) r
    where
      same : (m : ℕ) → update s.keys j (some k) m ≡ s.keys m
      same m = elim (ℕ_discrete m j) [
        | yes f ↦
            subst (λ q. update s.keys j (some k) q ≡ s.keys q) (sym f)
              (update-same s.keys j (some k) ∙ sym e)
        | no ne ↦ update-other s.keys j (some k) m ne
      ]

-- Only the values count.
pub Owned-values : {v w : ℕ → Value} {s : Store} → ((j : ℕ) → v j ≡ w j) → Owned v s → Owned w s
Owned-values e o = record {
  form = λ j. ((o.form j).0, (o.form j).1 ∙ e j);
  unique = o.unique;
  owner = o.owner;
  fresh = o.fresh;
}

-- They are what a reader sees.
pub Owned-value : {v : ℕ → Value} {s : Store} → Owned v s → (j : ℕ) → value s j ≡ v j
Owned-value {s = s} o j = value_lem s j (s.keys j) (o.form j).0 refl ∙ (o.form j).1

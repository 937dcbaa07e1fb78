-- ===== src/IndexKey/Copying.antt =====
-- The copy of an `IndexKey` for serialization and its repair, on stores in which each array belongs to
-- one object.
use mathlib.Core.Path.{fun_ext}
use fdp_rocks.Base.{
  ℕ, ◌≤◌, ◌≡◌, refl, ap, ◌∙◌, subst, Bool, true, false, Option, some, List, leb, ◌==◌,
  if◌then◌else◌, length, take, arith,
}
use fdp_rocks.Base.Chain.{◌>>=◌}
use fdp_rocks.Base.Family.{update, update-same}
use fdp_rocks.IndexKey.{
  null, buffer, Key, Store, stack_len, put, copy_into, copy_for_serialization, fix_for_deserialize,
}
use fdp_rocks.IndexKey.Forms.{Form, is_array, pointer}
use fdp_rocks.IndexKey.Shapes.{Value, bytes, absent, empty, short, long, moved}
use fdp_rocks.IndexKey.Ownership.{Owned, Owned-Others, Others-plain}
use fdp_rocks.IndexKey.Filling.{Owned-copy}
use fdp_rocks.IndexKey.Operations.{Gives}

-- A key whose bytes fit into its buffer has them there.
Form-buffered :
    (heap : ℕ → Option (List ℕ)) (i : ℕ) (o : Option Key) (bs : List ℕ)
    → Form heap i o (bytes bs)
    → length bs ≤ stack_len
    → (k : Key) × (o ≡ some k)
      × (k.len ≤ stack_len)
      × (length k.stack_key ≡ stack_len)
      × (take k.len k.stack_key ≡ bs)
      × (is_array k.data_ptr ≡ false)
Form-buffered heap i _ bs (absent, e) h = absurd (cc e)
Form-buffered heap i _ bs (empty st l, e) h = (_, refl, omega arith, l, cc e, refl)
Form-buffered heap i _ bs (short n st k l, e) h = (_, refl, k, l, cc e, refl)
Form-buffered heap i _ bs (long a cs st f k l, e) h =
    let same : cs ≡ bs = cc e in absurd (omega (arith, ap length same))
Form-buffered heap i _ bs (moved n st k l, e) h = absurd (cc e)

-- Of two writes to an object, the second stays.
put-put : (i : ℕ) (k k' : Key) (s : Store) → put i k' (put i k s) ≡ put i k' s
unfolding put
put-put i k k' s = ap (λ ks. record s { keys = ks }) (fun_ext over)
  where
    over : (m : ℕ) → update (update s.keys i (some k)) i (some k') m ≡ update s.keys i (some k') m
    over m = by_test (m == i)
      where
        by_test :
            (here : Bool)
            → (if here then some k' else if here then some k else s.keys m)
              ≡ (if here then some k' else s.keys m)
        by_test true = refl
        by_test false = refl

put-keys : (i : ℕ) (k : Key) (s : Store) → (put i k s).keys i ≡ some k
unfolding put
put-keys i k s = update-same s.keys i (some k)

-- The two steps on two keys, the first of which fits into its buffer.
copy_and_fix :
    (i j : ℕ) (this other : Key) (s : Store)
    → s.keys i ≡ some this
    → s.keys j ≡ some other
    → this.len ≤ stack_len
    → (copy_for_serialization i j s >>= λ t. fix_for_deserialize j t)
      ≡ some (
          put j
            (record {
              len = this.len;
              data_ptr = buffer j;
              stack_key = copy_into other.stack_key this.stack_key this.len;
            })
            s)
unfolding copy_for_serialization fix_for_deserialize
copy_and_fix i j this other s a b h =
    let small : leb this.len stack_len ≡ true = ground arith in
    let copied = copy_into other.stack_key this.stack_key this.len in
    let first : Key = record { len = this.len; data_ptr = buffer i; stack_key = copied } in
    rw (a, b, small, put-keys j first s) (ap some (put-put j first _ s))

with_bytes :
    (j : ℕ) (v : ℕ → Value) {xs ys : List ℕ} {t : Store}
    → xs ≡ ys
    → Owned (update v j (bytes xs)) t
    → Owned (update v j (bytes ys)) t
with_bytes j v {t} e o = subst (λ bs. Owned (update v j (bytes bs)) t) e o

-- The copy to an object with at most 64 bytes, and its repair.
pub serialize_lem :
    {v : ℕ → Value} {s : Store}
    → Owned v s
    → (i j : ℕ) (xs ys : List ℕ) → v i ≡ bytes xs
    → length xs ≤ stack_len
    → v j ≡ bytes ys
    → length ys ≤ stack_len
    → Gives (copy_for_serialization i j s >>= λ t. fix_for_deserialize j t) (update v j (bytes xs))
serialize_lem {v} {s} o i j xs ys e h f k =
    let (this, a, fits, full, mine, plain) =
      Form-buffered s.heap i (s.keys i) xs (subst (Form s.heap i (s.keys i)) e (o.form i)) h in
    let (other, b, fits', full', theirs, plain') =
      Form-buffered s.heap j (s.keys j) ys (subst (Form s.heap j (s.keys j)) f (o.form j)) k in
    let free =
      Others-plain (pointer (s.keys j)) null (ap (λ q. is_array (pointer q)) b ∙ plain') refl
        (Owned-Others j o) in
    let owned = Owned-copy other.stack_key this.stack_key this.len full' fits (omega arith) free in
    (_, copy_and_fix i j this other s a b fits, with_bytes j v mine owned)

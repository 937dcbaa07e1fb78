-- ===== src/IndexKey/Equality.antt =====
-- `operator==` of `IndexKey` on keys that hold their bytes.
use fdp_rocks.Base.{
  ℕ, ◌≡◌, refl, sym, ap, ◌∙◌, Bool, true, false, Option, none, some, List, [], ◌∷◌, ◌==◌,
  if◌then◌else◌, length, take, arith, length-take,
}
use fdp_rocks.Base.Text.{text_eq}
use fdp_rocks.Base.Bytes.{memcmp}
use fdp_rocks.Slice.{is_zero}
use fdp_rocks.IndexKey.{Key, Store, read, equals}
use fdp_rocks.IndexKey.Forms.{Form}
use fdp_rocks.IndexKey.Shapes.{bytes, shown, absent, empty, short, long, moved, value, value_of}
use fdp_rocks.IndexKey.Refinement.{Reach, Reach-Owned}

-- The length of a key is the number of its bytes.
Form-length :
    (heap : ℕ → Option (List ℕ)) (i : ℕ) (o : Option Key) (bs : List ℕ)
    → Form heap i o (bytes bs)
    → (k : Key) × (o ≡ some k) × (k.len ≡ length bs)
Form-length heap i _ bs (absent, e) = absurd (cc e)
Form-length heap i _ bs (empty st l, e) = let same : [] ≡ bs = cc e in (_, refl, ap length same)
Form-length heap i _ bs (short n st h l, e) =
    let same : take n st ≡ bs = cc e in (_, refl, omega (arith, ap length same, length-take n st))
Form-length heap i _ bs (long a cs st f h l, e) =
    let same : cs ≡ bs = cc e in (_, refl, ap length same)
Form-length heap i _ bs (moved n st h l, e) = absurd (cc e)

-- A key that a reader sees to hold bytes has them where it points to.
held :
    {s : Store}
    → Reach s
    → (i : ℕ) (bs : List ℕ) → value s i ≡ bytes bs
    → (k : Key) × (s.keys i ≡ some k) × (k.len ≡ length bs) × (read s k.len k.data_ptr ≡ some bs)
held {s} r i bs e =
    let (shape, f) = (Reach-Owned r).form i in
    let (k, g, l) = Form-length s.heap i (s.keys i) bs (shape, f ∙ e) in
    (k, g, l, by_read (read s k.len k.data_ptr) (sym (ap (value_of s) g) ∙ e))
  where
    by_read : (o : Option (List ℕ)) → shown o ≡ bytes bs → o ≡ some bs
    by_read none h = absurd (cc h)
    by_read (some cs) h = cc h

-- `memcmp` over whole texts of one length finds no difference exactly where they are equal.
memcmp-text_eq :
    (xs ys : List ℕ) → length xs ≡ length ys → is_zero (memcmp xs ys (length xs)) ≡ text_eq xs ys
unfolding memcmp text_eq is_zero
memcmp-text_eq [] [] e = refl
memcmp-text_eq [] (y ∷ ys) e = absurd (omega arith)
memcmp-text_eq (x ∷ xs) [] e = absurd (omega arith)
memcmp-text_eq (x ∷ xs) (y ∷ ys) e = ground (arith, memcmp-text_eq xs ys (omega arith))

text_eq-length : (xs ys : List ℕ) → ¬ (length xs ≡ length ys) → text_eq xs ys ≡ false
unfolding text_eq
text_eq-length [] [] h = absurd (h refl)
text_eq-length [] (y ∷ ys) h = refl
text_eq-length (x ∷ xs) [] h = refl
text_eq-length (x ∷ xs) (y ∷ ys) h =
    let rest = text_eq-length xs ys (λ e. h (omega (arith, e))) in ground (arith, rest)

-- In every store that operations on index keys (the constructors, moves, set, setKeyLen,
-- CopyForSerialization followed by FixForDeserialize on its target, of keys that hold at most 64
-- bytes, and the destructor) lead to, operator== on two objects that hold bytes tells whether
-- their bytes are equal, empty ones and ones of different lengths too.
pub equals_lem :
    {s : Store}
    → Reach s
    → (i j : ℕ) (xs ys : List ℕ) → value s i ≡ bytes xs
    → value s j ≡ bytes ys
    → equals i j s ≡ some (text_eq ys xs)
unfolding equals
equals_lem {s} r i j xs ys e f =
    let (this, g, l, mine) = held r i xs e in
    let (k, h, m, theirs) = held r j ys f in
    rw (g, h, mine, theirs, l, m) (by_tests (length ys == length xs) refl)
  where
    by_tests :
        (same : Bool)
        → (length ys == length xs) ≡ same
        → (if same then some (is_zero (memcmp ys xs (length xs))) else some false)
          ≡ some (text_eq ys xs)
    by_tests false e = ap some (sym (text_eq-length ys xs (λ f. ground (arith, e, f))))
    by_tests true e =
        let fits : length ys ≡ length xs = ground (arith, e) in
        ap some (ap (λ n. is_zero (memcmp ys xs n)) (sym fits) ∙ memcmp-text_eq ys xs fits)

-- ===== src/IndexKey/Forms.antt =====
-- The pointer of an `IndexKey` in each of its forms.
use fdp_rocks.Base.{
  ℕ, ◌≡◌, ◌≢◌, refl, sym, ◌∙◌, Bool, true, false, Option, none, some, List, length,
}
use fdp_rocks.IndexKey.{stack_len, Pointer, null, buffer, array, Key}
use fdp_rocks.IndexKey.Shapes.{
  dead, Value, lost, Shape, absent, empty, short, long, moved, shape_value,
}

abbrev pub pointer : Option Key → Pointer
pointer none = null
pointer (some k) = k.data_ptr

abbrev pub is_array : Pointer → Bool
is_array null = false
is_array (buffer i) = false
is_array (array a) = true

-- The object `i` has a form that stands for the value `x`.
abbrev pub Form : (ℕ → Option (List ℕ)) → ℕ → Option Key → Value → Type 0
Form heap i o x = (f : Shape heap i o) × (shape_value f ≡ x)

-- A form stays in a heap that has not changed at its array.
pub Form-heap :
    (heap heap' : ℕ → Option (List ℕ)) (i : ℕ) (o : Option Key) (x : Value)
    → ((a : ℕ) → pointer o ≡ array a → heap' a ≡ heap a)
    → Form heap i o x
    → Form heap' i o x
Form-heap heap heap' i _ x same (absent, e) = (absent, e)
Form-heap heap heap' i _ x same (empty st l, e) = (empty st l, e)
Form-heap heap heap' i _ x same (short n st h l, e) = (short n st h l, e)
Form-heap heap heap' i _ x same (long a bs st f h l, e) = (long a bs st (same a refl ∙ f) h l, e)
Form-heap heap heap' i _ x same (moved n st h l, e) = (moved n st h l, e)

-- The array of a form is there.
pub Form-array :
    (heap : ℕ → Option (List ℕ)) (i : ℕ) (o : Option Key) (a : ℕ)
    → Shape heap i o
    → pointer o ≡ array a
    → (bs : List ℕ) × (heap a ≡ some bs)
Form-array heap i _ a absent e = absurd (cc e)
Form-array heap i _ a (empty st l) e = absurd (cc e)
Form-array heap i _ a (short n st h l) e = absurd (cc e)
Form-array heap i _ a (long b bs st f h l) e = (bs, cc (e, f))
Form-array heap i _ a (moved n st h l) e = absurd (cc e)

-- What is left of an object whose array has been taken.
pub Form-moved :
    (heap : ℕ → Option (List ℕ)) (i : ℕ) (k : Key) (a : ℕ)
    → Shape heap i (some k)
    → k.data_ptr ≡ array a
    → Form heap i (some (record k { data_ptr = null })) lost
Form-moved heap i _ a (empty st l) e = absurd (cc e)
Form-moved heap i _ a (short n st h l) e = absurd (cc e)
Form-moved heap i _ a (long b bs st f h l) e = (moved (length bs) st h l, refl)
Form-moved heap i _ a (moved n st h l) e = absurd (cc e)

pub Form-dead :
    (heap : ℕ → Option (List ℕ)) (i : ℕ) (o : Option Key) (x : Value)
    → Form heap i o x
    → x ≡ dead
    → o ≡ none
Form-dead heap i _ x (absent, e) d = refl
Form-dead heap i _ x (empty st l, e) d = absurd (cc (e, d))
Form-dead heap i _ x (short n st h l, e) d = absurd (cc (e, d))
Form-dead heap i _ x (long a bs st f h l, e) d = absurd (cc (e, d))
Form-dead heap i _ x (moved n st h l, e) d = absurd (cc (e, d))

pub Form-live :
    (heap : ℕ → Option (List ℕ)) (i : ℕ) (o : Option Key) (x : Value)
    → Form heap i o x
    → x ≢ dead
    → (k : Key) × (o ≡ some k)
Form-live heap i none x (absent, e) d = absurd (d (sym e))
Form-live heap i (some k) x f d = (k, refl)

pub Form-stack :
    (heap : ℕ → Option (List ℕ)) (i : ℕ) (k : Key)
    → Shape heap i (some k)
    → length k.stack_key ≡ stack_len
Form-stack heap i _ (empty st l) = l
Form-stack heap i _ (short n st h l) = l
Form-stack heap i _ (long a bs st f h l) = l
Form-stack heap i _ (moved n st h l) = l
